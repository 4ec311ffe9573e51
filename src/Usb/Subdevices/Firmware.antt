-- ===== src/Usb/Subdevices/Firmware.antt =====
-- The audio device of `fnusb_open_subdevices`: the firmware that it may need, and the wait for it to come
-- back with it.
use soqv.Base.{
  ℕ, zero, suc, Bool, true, false, ◌&&◌, ◌||◌, Option, none, some, List, [], ◌∷◌, leb, ◌==◌,
  if◌then◌else◌,
}
use soqv.Base.Int.{ℤ, pos, negsuc}
use soqv.Usb.{UsbDevice, is_audio, holds, find_sibling_device}
use soqv.Usb.Subdevices.{Subdevices, Stage, next, failure, stuck, close_audio, ticked}
use soqv.Usb.Subdevices.Calls.{
  Host, Libusb, claiming, interfaces, uploading, describing, Opened, failed, handle, libusb_open,
  libusb_close, ask, tick,
}

-- `strcmp` and the comparison of lengths.
abbrev pub same_serial : List ℕ → List ℕ → Bool
same_serial [] [] = true
same_serial [] (y ∷ ys) = false
same_serial (x ∷ xs) [] = false
same_serial (x ∷ xs) (y ∷ ys) = x == y && same_serial xs ys

abbrev pub enough_interfaces : ℤ → Bool
enough_interfaces (pos n) = leb 2 n
enough_interfaces (negsuc e) = false

abbrev pub enable_motor : Subdevices → Subdevices
enable_motor dev = record dev {
  motor_control_with_audio_enabled =
      dev.does_motor_control_with_audio || dev.motor_control_with_audio_enabled;
}

abbrev pub is_null_handle : Option ℕ → Bool
is_null_handle none = true
is_null_handle (some k) = false

-- The look at one device: `none` is a call with what is no open handle.
abbrev pub Looked : Type 0
Looked = Option Subdevices

abbrev pub closed_again : Subdevices → Option Host → Looked
closed_again dev none = none
closed_again dev (some host) = some (record dev { host = host })

module _ (lib : Libusb) (expected : List ℕ) where
  abbrev pub with_interfaces : ℕ → ℤ → Subdevices → Looked
  with_interfaces k count dev =
      if enough_interfaces count
      then some (enable_motor (record dev { audio = some k }))
      else closed_again (record dev { audio = none }) (libusb_close k dev.host)

  abbrev pub match_claimed : ℕ → ℤ → Subdevices → Looked
  match_claimed k (pos zero) dev = with_interfaces k (ask lib interfaces dev.host) (ticked dev)
  match_claimed k (pos (suc n)) dev = closed_again dev (libusb_close k dev.host)
  match_claimed k (negsuc e) dev = closed_again dev (libusb_close k dev.host)

  -- A device with another serial number is left open.
  abbrev pub with_serial : ℕ → Option (List ℕ) → Subdevices → Looked
  with_serial k none dev = closed_again dev (libusb_close k dev.host)
  with_serial k (some string_desc) dev =
      if same_serial string_desc expected
      then match_claimed k (ask lib claiming dev.host) (ticked dev)
      else some dev

  abbrev pub candidate : Subdevices → Opened × Host → Looked
  candidate dev (failed e, host) = some (record dev { host = host })
  candidate dev (handle k, host) =
      with_serial k (lib.serial host.time) (record dev { host = tick host })

  abbrev pub look_at : UsbDevice → Subdevices → Looked
  look_at d dev =
      if holds is_audio d.desc then candidate dev (libusb_open lib dev.host) else some dev

  -- The inner loop, left by `break` when the device is found.
  unfoldable pub look_through : List UsbDevice → Subdevices → Looked
  look_through [] dev = some dev
  look_through (d ∷ devs) dev = elim (look_at d dev) [
    | none ↦ none
    | some dev' ↦ elim (is_null_handle dev'.audio) [
      | true ↦ look_through devs dev'
      | false ↦ some dev'
    ]
  ]

  abbrev pub look_through_list : Option (List UsbDevice) → Subdevices → Looked
  look_through_list none dev = none
  look_through_list (some devs) dev = look_through devs (ticked dev)

  -- The outer loop, of ten tries in the program. A list of devices that cannot be had is freed all the
  -- same, which is undefined.
  unfoldable pub reappear : ℕ → Subdevices → Looked
  reappear zero dev = some dev
  reappear (suc loops) dev = elim (look_through_list (lib.devices dev.host.time) dev) [
    | none ↦ none
    | some dev' ↦ elim (is_null_handle dev'.audio) [
      | true ↦ reappear loops dev'
      | false ↦ some dev'
    ]
  ]

module _ (lib : Libusb) where
  abbrev pub waited : ℤ → Looked → Stage
  waited res none = stuck
  waited res (some dev) = next res dev

  abbrev pub uploaded : ℤ → List ℕ → Subdevices → Stage
  uploaded (negsuc e) audio_serial dev = failure (negsuc e) dev
  uploaded (pos n) audio_serial dev =
      close_audio (λ dev'. waited (pos n) (reappear lib audio_serial 10 dev')) dev

  abbrev pub in_bootloader : Option (List ℕ) → ℕ → Subdevices → Stage
  in_bootloader none error dev = failure (negsuc error) dev
  in_bootloader (some string_desc) error dev =
      uploaded (ask lib uploading dev.host) string_desc (ticked dev)

  abbrev pub audio_ready : ℤ → ℤ → Subdevices → Stage
  audio_ready res num_interfaces dev =
      if enough_interfaces num_interfaces
      then next res (enable_motor dev)
      else in_bootloader (lib.serial dev.host.time) (lib.serial_error dev.host.time) (ticked dev)

  abbrev pub audio_claimed : ℤ → Subdevices → Stage
  audio_claimed (negsuc e) dev = close_audio (failure (negsuc e)) dev
  audio_claimed (pos n) dev = audio_ready (pos n) (ask lib interfaces dev.host) (ticked dev)

  abbrev pub audio_opened : Subdevices → Opened × Host → Stage
  audio_opened dev (failed e, host) = failure (negsuc e) (record dev { audio = none; host = host })
  audio_opened dev (handle k, host) =
      audio_claimed (ask lib claiming host) (record dev { audio = some k; host = tick host })

  abbrev pub audio_described : ℤ → Subdevices → Stage
  audio_described (negsuc e) dev = failure (negsuc e) dev
  audio_described (pos n) dev = audio_opened dev (libusb_open lib dev.host)

  abbrev pub audio_found : Option UsbDevice → Subdevices → Stage
  audio_found none dev = failure (negsuc 0) dev
  audio_found (some audio) dev = audio_described (ask lib describing dev.host) (ticked dev)

  unfoldable pub open_audio : UsbDevice → List UsbDevice → ℤ → Subdevices → Stage
  open_audio camera devs res dev =
      if dev.want_audio
      then audio_found (find_sibling_device camera is_audio devs) dev
      else next res dev
