-- ===== src/Usb/Subdevices/Opening.antt =====
-- `fnusb_open_subdevices` as a whole, and `fnusb_close_subdevices`.
use soqv.Base.{ℕ, Bool, true, false, not, ◌&&◌, ◌||◌, Option, none, some, List, if◌then◌else◌}
use soqv.Base.Int.{ℤ, negsuc}
use soqv.Usb.{Descriptor, UsbDevice}
use soqv.Usb.Subdevices.{
  Subdevices, Stage, next, failure, stuck, and_then, find_camera, open_camera, open_motor,
  close_camera, close_motor, close_audio, ticked,
}
use soqv.Usb.Subdevices.Calls.{Libusb}
use soqv.Usb.Subdevices.Firmware.{open_audio}

unfoldable pub close_subdevices : ℤ → Subdevices → Stage
close_subdevices res dev = close_camera (close_motor (close_audio (next res))) dev

abbrev pub has_handle : Option ℕ → Bool
has_handle none = false
has_handle (some k) = true

-- The test at the end: each subdevice that is asked for is open.
abbrev pub all_open : Subdevices → Bool
all_open dev =
    (has_handle dev.cam || not dev.want_camera)
    && ((has_handle dev.motor || not dev.want_motor)
        && (has_handle dev.audio || not dev.want_audio))

abbrev pub finally : Stage → Stage
finally stuck = stuck
finally (failure res dev) = close_subdevices res dev
finally (next res dev) = if all_open dev then next res dev else close_subdevices res dev

abbrev pub forget_handles : Subdevices → Subdevices
forget_handles dev = record dev {
  cam = none;
  motor = none;
  audio = none;
  does_motor_control_with_audio = false;
  motor_control_with_audio_enabled = false;
}

module _ (lib : Libusb) (index : ℕ) where
  abbrev pub open_parts : Option (UsbDevice × Descriptor) → List UsbDevice → Subdevices → Stage
  open_parts none devs dev = failure (negsuc 0) dev
  open_parts (some (camera, desc)) devs dev =
      and_then (open_camera lib camera desc devs dev) (λ res₁ dev₁.
        and_then (open_motor lib camera devs res₁ dev₁)
          (λ res₂ dev₂. open_audio lib camera devs res₂ dev₂))

  abbrev pub with_devices : Option (List UsbDevice) → Subdevices → Stage
  with_devices none dev = next (negsuc 0) dev
  with_devices (some devs) dev = finally (open_parts (find_camera 0 index devs) devs (ticked dev))

  unfoldable pub open_subdevices : Subdevices → Stage
  open_subdevices dev = with_devices (lib.devices dev.host.time) (forget_handles dev)
