-- ===== src/Usb/Subdevices/Result.antt =====
-- All the requested subdevices of a device are open in the end, or none is.
use soqv.Base.{
  ℕ, zero, suc, ◌≡◌, ◌≢◌, ◌⊎◌, refl, inl, inr, Bool, true, false, Option, none, some, List, arith,
  if◌then◌else◌, Bool-cases,
}
use soqv.Base.Int.{ℤ, pos, negsuc}
use soqv.Usb.{Descriptor, UsbDevice, is_audio, find_sibling_device}
use soqv.Usb.Subdevices.{
  Subdevices, Stage, next, failure, stuck, and_then, close_motor, close_audio, ticked, open_camera,
  open_motor, find_camera,
}
use soqv.Usb.Subdevices.Calls.{
  Host, Libusb, claiming, describing, interfaces, uploading, Opened, failed, handle, libusb_open,
  ask, tick,
}
use soqv.Usb.Subdevices.Firmware.{
  enough_interfaces, is_null_handle, look_through_list, reappear, waited, uploaded, in_bootloader,
  audio_ready, audio_claimed, audio_opened, audio_described, audio_found, open_audio, Looked,
}
use soqv.Usb.Subdevices.Opening.{
  close_subdevices, all_open, finally, forget_handles, open_parts, with_devices, open_subdevices,
}
use soqv.Usb.Subdevices.Handles.{
  DeviceHeld, Held-Extends, Held-no_audio, IsNew, libusb_open-IsNew, Held-audio, IsGood,
  close_camera-then, close_motor-then, close_audio-then,
}
use soqv.Usb.Subdevices.Search.{IsFine, look_through-Fine}
use soqv.Usb.Subdevices.Outcome.{Extends-tick, ticked-Held, open_camera-Good, open_motor-Good}

-- What the function ends with: handles that are open and different, either for each subdevice that is
-- asked for, with a result that is no error, or for none at all.
abbrev pub IsSettled : Stage → Type 0
IsSettled (next res dev) =
    DeviceHeld dev
    × (((all_open dev ≡ true) × ((e : ℕ) → res ≢ negsuc e))
        ⊎ ((dev.cam ≡ none) × (dev.motor ≡ none) × (dev.audio ≡ none)))
IsSettled (failure res dev) = ⊥
IsSettled stuck = ⊥

close_subdevices-Settled :
    (res : ℤ) (dev : Subdevices) → DeviceHeld dev → IsSettled (close_subdevices res dev)
unfolding close_subdevices
close_subdevices-Settled res dev v =
    close_camera-then IsSettled (close_motor (close_audio (next res))) dev v (λ h₁ v₁.
      close_motor-then IsSettled (close_audio (next res)) (record dev { cam = none; host = h₁ }) v₁
        (λ h₂ v₂.
          close_audio-then IsSettled (next res) (record dev { cam = none; motor = none; host = h₂ })
            v₂ (λ h₃ v₃. (v₃, inr (refl, refl, refl)))))

finally-Settled : (stage : Stage) → IsGood stage → IsSettled (finally stage)
finally-Settled (next (pos n) dev) v = elim (Bool-cases (all_open dev)) [
  | inl all ↦ rw all (v, inl (all, λ e q. pos_negsuc n e q))
  | inr missing ↦ rw missing (close_subdevices-Settled (pos n) dev v)
]
  where
    pos_negsuc : (m e : ℕ) → pos m ≢ negsuc e
    pos_negsuc m e q = ground arith
finally-Settled (next (negsuc e) dev) v = absurd v
finally-Settled (failure res dev) v = close_subdevices-Settled res dev v
finally-Settled stuck v = absurd v

and_then-Good :
    (stage : Stage) (k : ℤ → Subdevices → Stage)
    → IsGood stage
    → ((n : ℕ) (dev : Subdevices) → DeviceHeld dev → IsGood (k (pos n) dev))
    → IsGood (and_then stage k)
and_then-Good (next (pos n) dev) k v go = go n dev v
and_then-Good (next (negsuc e) dev) k v go = absurd v
and_then-Good (failure res dev) k v go = v
and_then-Good stuck k v go = v

-- libusb can list the devices whenever it is asked.
abbrev pub Lists : Libusb → Type 0
Lists lib = (t : ℕ) → lib.devices t ≢ none

module _ (lib : Libusb) (lists : Lists lib) where
  reappear-Fine :
      (expected : List ℕ) (loops : ℕ) (dev : Subdevices)
      → DeviceHeld dev
      → IsFine (reappear lib expected loops dev)
  unfolding reappear
  reappear-Fine expected zero dev v = v
  reappear-Fine expected (suc loops) dev v =
      one (look_through_list lib expected (lib.devices dev.host.time) dev)
        (listed (lib.devices dev.host.time) (lists dev.host.time)) (reappear-Fine expected loops)
    where
      listed :
          (o : Option (List UsbDevice)) → o ≢ none → IsFine (look_through_list lib expected o dev)
      listed none bad = absurd (bad refl)
      listed (some devs) ok = look_through-Fine lib expected devs (ticked dev) (ticked-Held dev v)

      one :
          (o : Looked)
          → IsFine o
          → ((dev' : Subdevices) → DeviceHeld dev' → IsFine (reappear lib expected loops dev'))
          → IsFine (elim o [
            | none ↦ none
            | some dev' ↦ elim (is_null_handle dev'.audio) [
              | true ↦ reappear lib expected loops dev'
              | false ↦ some dev'
            ]
          ])
      one none bad rest = bad
      one (some dev') w rest =
          elim (is_null_handle dev'.audio)
            as (λ (b : Bool).
              IsFine (elim b [ true ↦ reappear lib expected loops dev' | false ↦ some dev' ])) [
                | true ↦ rest dev' w
                | false ↦ w
              ]

  uploaded-Good :
      (res : ℤ) (serial : List ℕ) (dev : Subdevices)
      → DeviceHeld dev
      → IsGood (uploaded lib res serial dev)
  uploaded-Good (negsuc e) serial dev v = v
  uploaded-Good (pos n) serial dev v =
      close_audio-then IsGood (λ d. waited lib (pos n) (reappear lib serial 10 d)) dev v
        (λ host w.
          wait (reappear lib serial 10 (record dev { audio = none; host = host }))
            (reappear-Fine serial 10 (record dev { audio = none; host = host }) w))
    where
      wait : (o : Looked) → IsFine o → IsGood (waited lib (pos n) o)
      wait none bad = bad
      wait (some d) w = w

  audio_ready-Good :
      (n : ℕ) (count : ℤ) (dev : Subdevices)
      → DeviceHeld dev
      → IsGood (audio_ready lib (pos n) count dev)
  audio_ready-Good n count dev v = elim (Bool-cases (enough_interfaces count)) [
    | inl enough ↦ rw enough v
    | inr few ↦ rw few (boot (lib.serial dev.host.time) (lib.serial_error dev.host.time))
  ]
    where
      boot : (o : Option (List ℕ)) (error : ℕ) → IsGood (in_bootloader lib o error (ticked dev))
      boot none error = ticked-Held dev v
      boot (some serial) error =
          uploaded-Good (ask lib uploading (tick dev.host)) serial (ticked (ticked dev))
            (ticked-Held (ticked dev) (ticked-Held dev v))

  open_audio-Good :
      (camera : UsbDevice) (devs : List UsbDevice) (n : ℕ) (dev : Subdevices)
      → DeviceHeld dev
      → IsGood (open_audio lib camera devs (pos n) dev)
  unfolding open_audio
  open_audio-Good camera devs n dev v =
      pick dev.want_audio (go (find_sibling_device camera is_audio devs))
    where
      claimed : (res : ℤ) (d : Subdevices) → DeviceHeld d → IsGood (audio_claimed lib res d)
      claimed (negsuc e) d w = close_audio-then IsGood (failure (negsuc e)) d w (λ host x. x)
      claimed (pos m) d w =
          audio_ready-Good m (ask lib interfaces d.host) (ticked d) (ticked-Held d w)

      opened :
          (d : Subdevices)
          → DeviceHeld d
          → (o : Opened × Host) → IsNew d.host o
          → IsGood (audio_opened lib d o)
      opened d w (failed e, host) x = Held-no_audio (Held-Extends x w)
      opened d w (handle k, host) x =
          claimed (ask lib claiming host) (record d { audio = some k; host = tick host })
            (Held-Extends (Extends-tick host) (Held-audio k d.host host w x))

      described : (res : ℤ) (d : Subdevices) → DeviceHeld d → IsGood (audio_described lib res d)
      described (negsuc e) d w = w
      described (pos m) d w = opened d w (libusb_open lib d.host) (libusb_open-IsNew lib d.host)

      go : (o : Option UsbDevice) → IsGood (audio_found lib o dev)
      go none = v
      go (some d) = described (ask lib describing dev.host) (ticked dev) (ticked-Held dev v)

      pick :
          (b : Bool)
          → IsGood (audio_found lib (find_sibling_device camera is_audio devs) dev)
          → IsGood (
              if b
              then audio_found lib (find_sibling_device camera is_audio devs) dev
              else next (pos n) dev)
      pick true w = w
      pick false w = v

  -- If libusb can list the devices whenever it is asked, opening the subdevices of a device returns,
  -- and closes no handle that is not open, whatever devices there are and whatever the calls of libusb
  -- return; in the end either each subdevice that the context then asks for has an open handle, all
  -- different, and the result is no error, or no subdevice has a handle.
  pub open_subdevices-Settled :
      (index : ℕ) (dev : Subdevices) → IsSettled (open_subdevices lib index dev)
  unfolding open_subdevices
  open_subdevices-Settled index dev = listed (lib.devices dev.host.time) (lists dev.host.time)
    where
      empty : DeviceHeld (forget_handles dev)
      empty = record {
        cam_open = tt;
        motor_open = tt;
        audio_open = tt;
        cam_motor = tt;
        cam_audio = tt;
        motor_audio = tt;
      }

      parts :
          (devs : List UsbDevice) (o : Option (UsbDevice × Descriptor)) (d : Subdevices)
          → DeviceHeld d
          → IsGood (open_parts lib index o devs d)
      parts devs none d v = v
      parts devs (some (camera, desc)) d v =
          and_then-Good (open_camera lib camera desc devs d)
            (λ res₁ dev₁.
              and_then (open_motor lib camera devs res₁ dev₁)
                (λ res₂ dev₂. open_audio lib camera devs res₂ dev₂))
            (open_camera-Good lib camera desc devs d v)
            (λ n dev₁ v₁.
              and_then-Good (open_motor lib camera devs (pos n) dev₁)
                (λ res₂ dev₂. open_audio lib camera devs res₂ dev₂)
                (open_motor-Good lib camera devs n dev₁ v₁)
                (λ m dev₂ v₂. open_audio-Good camera devs m dev₂ v₂))

      listed :
          (o : Option (List UsbDevice))
          → o ≢ none
          → IsSettled (with_devices lib index o (forget_handles dev))
      listed none bad = absurd (bad refl)
      listed (some devs) ok =
          finally-Settled
            (open_parts lib index (find_camera 0 index devs) devs (ticked (forget_handles dev)))
            (parts devs (find_camera 0 index devs) (ticked (forget_handles dev))
              (ticked-Held (forget_handles dev) empty))
