-- ===== src/Usb/Subdevices.antt =====
-- Opening and closing the subdevices of a device: `fnusb_open_subdevices` of src/usb_libusb10.c and
-- what it calls.
pub mod Calls
pub mod Firmware
pub mod Opening
pub mod Handles
pub mod Outcome
pub mod Numbering
pub mod Search
pub mod Result
use soqv.Base.{
  ℕ, zero, suc, ◌+◌, Bool, true, false, not, ◌&&◌, ◌||◌, Option, none, some, List, [], ◌∷◌, ltb,
  leb, ◌==◌, if◌then◌else◌,
}
use soqv.Base.Int.{ℤ, pos, negsuc}
use soqv.Usb.{Descriptor, UsbDevice, is_camera, is_motor, is_audio, holds, find_sibling_device}
use soqv.Usb.Subdevices.Calls.{
  Host, Libusb, opening, claiming, kernel_driver, detaching, alt_setting, interfaces, uploading,
  describing, Opened, failed, handle, libusb_open, libusb_close, ask, tick,
}

-- The handles of a `freenect_device`, NULL being `none`, the subdevices that its context asks for, and
-- libusb.
pub record Subdevices : Type 0 where
  pub cam : Option ℕ
  pub motor : Option ℕ
  pub audio : Option ℕ
  pub want_camera : Bool
  pub want_motor : Bool
  pub want_audio : Bool
  pub does_motor_control_with_audio : Bool
  pub motor_control_with_audio_enabled : Bool
  pub zero_plane_res : ℕ
  pub cam_pid : ℕ
  pub host : Host

-- A part of the function goes on with a result, or jumps to `failure`; `stuck` is a call of libusb
-- with what is no open handle, or with no list of devices.
pub data Stage : Type 0 where
  next : ℤ → Subdevices → Stage
  failure : ℤ → Subdevices → Stage
  stuck : Stage

abbrev pub and_then : Stage → (ℤ → Subdevices → Stage) → Stage
and_then (next res dev) k = k res dev
and_then (failure res dev) k = failure res dev
and_then stuck k = stuck

-- Closing a handle that a field of the device holds, and clearing the field.
abbrev pub with_host : Option Host → (Host → Stage) → Stage
with_host none k = stuck
with_host (some host) k = k host

abbrev pub close_handle : Option ℕ → Host → Option Host
close_handle none host = some host
close_handle (some k) host = libusb_close k host

abbrev pub close_camera : (Subdevices → Stage) → Subdevices → Stage
close_camera k dev =
    with_host (close_handle dev.cam dev.host) (λ host. k (record dev { cam = none; host = host }))

abbrev pub close_motor : (Subdevices → Stage) → Subdevices → Stage
close_motor k dev =
    with_host (close_handle dev.motor dev.host)
      (λ host. k (record dev { motor = none; host = host }))

abbrev pub close_audio : (Subdevices → Stage) → Subdevices → Stage
close_audio k dev =
    with_host (close_handle dev.audio dev.host)
      (λ host. k (record dev { audio = none; host = host }))

abbrev pub ticked : Subdevices → Subdevices
ticked dev = record dev { host = tick dev.host }

-- The search for the camera number `index`; `nr_cam` counts the cameras before it.
abbrev pub found_at :
    Bool
    → UsbDevice
    → Option Descriptor
    → Option (UsbDevice × Descriptor)
    → Option (UsbDevice × Descriptor)
found_at here d none rest = rest
found_at here d (some desc) rest = if here && is_camera desc then some (d, desc) else rest

unfoldable pub find_camera : ℕ → ℕ → List UsbDevice → Option (UsbDevice × Descriptor)
find_camera nr_cam index [] = none
find_camera nr_cam index (d ∷ devs) =
    found_at (nr_cam == index) d d.desc
      (find_camera (if holds is_camera d.desc then nr_cam + 1 else nr_cam) index devs)

module _ (lib : Libusb) where
  -- `fnusb_claim_camera`; a failure there has closed the camera.
  abbrev pub after_alt : ℤ → Subdevices → Stage
  after_alt (pos zero) dev = next (pos 0) dev
  after_alt (pos (suc n)) dev = close_camera (next (pos (suc n))) dev
  after_alt (negsuc e) dev = close_camera (failure (negsuc e)) dev

  abbrev pub after_claim : ℤ → Subdevices → Stage
  after_claim (negsuc e) dev = close_camera (failure (negsuc e)) dev
  after_claim (pos n) dev =
      if dev.cam_pid == 0x02bf
      then after_alt (ask lib alt_setting dev.host) (ticked dev)
      else next (pos n) dev

  abbrev pub claim_interface : Subdevices → Stage
  claim_interface dev = after_claim (ask lib claiming dev.host) (ticked dev)

  abbrev pub after_detach : ℤ → Subdevices → Stage
  after_detach (negsuc e) dev = close_camera (failure (negsuc e)) dev
  after_detach (pos n) dev = claim_interface dev

  abbrev pub after_active : ℤ → Subdevices → Stage
  after_active (pos (suc zero)) dev = after_detach (ask lib detaching dev.host) (ticked dev)
  after_active (pos (suc (suc n))) dev = claim_interface dev
  after_active (pos zero) dev = claim_interface dev
  after_active (negsuc e) dev = claim_interface dev

  unfoldable pub claim_camera : Subdevices → Stage
  claim_camera dev = after_active (ask lib kernel_driver dev.host) (ticked dev)

  -- `fnusb_keep_alive_led`, whose result nothing looks at: it opens the audio device, resets and closes
  -- it, opens it again, sets the LED if it can claim it, and closes it.
  abbrev pub led_reopened : Opened × Host → Option Host
  led_reopened (failed e, host) = some host
  led_reopened (handle k, host) = libusb_close k (tick host)

  abbrev pub led_closed : Option Host → Option Host
  led_closed none = none
  led_closed (some host) = led_reopened (libusb_open lib host)

  abbrev pub led_opened : Opened × Host → Option Host
  led_opened (failed e, host) = some host
  led_opened (handle k, host) = led_closed (libusb_close k host)

  unfoldable pub keep_alive_led : Option UsbDevice → Host → Option Host
  keep_alive_led none host = some host
  keep_alive_led (some audio) host = led_opened (libusb_open lib host)

  -- Any device but the first model has no motor of its own, and needs audio for it.
  abbrev pub is_newer : Descriptor → Bool
  is_newer desc = desc.id_product == 0x02bf || not (desc.bcd_device == 267)

  abbrev pub newer_flags : Subdevices → Subdevices
  newer_flags dev = record dev {
    want_motor = false;
    zero_plane_res = 334;
    does_motor_control_with_audio = true;
    want_audio = dev.want_audio || dev.want_motor;
  }

  abbrev pub identify : UsbDevice → Descriptor → List UsbDevice → Subdevices → Stage
  identify camera desc devs dev =
      if is_newer desc
      then with_host (keep_alive_led (find_sibling_device camera is_audio devs) dev.host) (λ host.
        claim_camera (record (newer_flags dev) { host = host; cam_pid = desc.id_product }))
      else claim_camera (record dev { zero_plane_res = 322; cam_pid = desc.id_product })

  abbrev pub camera_opened :
      UsbDevice → Descriptor → List UsbDevice → Subdevices → Opened × Host → Stage
  camera_opened camera desc devs dev (failed e, host) =
      failure (negsuc e) (record dev { cam = none; host = host })
  camera_opened camera desc devs dev (handle k, host) =
      identify camera desc devs (record dev { cam = some k; host = host })

  unfoldable pub open_camera : UsbDevice → Descriptor → List UsbDevice → Subdevices → Stage
  open_camera camera desc devs dev =
      if dev.want_camera
      then camera_opened camera desc devs dev (libusb_open lib dev.host)
      else next (pos 0) dev

  -- FIND MOTOR
  abbrev pub motor_claimed : ℤ → Subdevices → Stage
  motor_claimed (negsuc e) dev = close_motor (failure (negsuc e)) dev
  motor_claimed (pos n) dev = next (pos n) dev

  abbrev pub motor_opened : Subdevices → Opened × Host → Stage
  motor_opened dev (failed e, host) = failure (negsuc e) (record dev { motor = none; host = host })
  motor_opened dev (handle k, host) =
      motor_claimed (ask lib claiming host) (record dev { motor = some k; host = tick host })

  -- Its descriptor is asked for once more.
  abbrev pub motor_described : ℤ → Subdevices → Stage
  motor_described (negsuc e) dev = failure (negsuc e) dev
  motor_described (pos n) dev = motor_opened dev (libusb_open lib dev.host)

  abbrev pub motor_found : Option UsbDevice → Subdevices → Stage
  motor_found none dev = failure (negsuc 0) dev
  motor_found (some motor) dev = motor_described (ask lib describing dev.host) (ticked dev)

  unfoldable pub open_motor : UsbDevice → List UsbDevice → ℤ → Subdevices → Stage
  open_motor camera devs res dev =
      if dev.want_motor
      then motor_found (find_sibling_device camera is_motor devs) dev
      else next res dev
