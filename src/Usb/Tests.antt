-- ===== src/Usb/Tests.antt =====
-- Runs of the search for siblings and of the opening of subdevices.
use soqv.Base.{ℕ, ◌≡◌, refl, true, false, Option, none, some, List, [], ◌∷◌, arith}
use soqv.Base.Int.{ℤ, pos, negsuc}
use soqv.Usb.{UsbDevice, is_audio, find_sibling_device, sibling_loop, or_else}
use soqv.Usb.Siblings.{filter, first, only, fits, on_bus, beside, find_sibling_device-choice}
use soqv.Usb.Subdevices.{
  Subdevices, Stage, next, failure, find_camera, open_camera, open_motor, claim_camera,
  keep_alive_led,
}
use soqv.Usb.Subdevices.Calls.{Libusb, interfaces, libusb_open, libusb_close}
use soqv.Usb.Subdevices.Firmware.{open_audio, reappear, look_through}
use soqv.Usb.Subdevices.Opening.{close_subdevices, open_subdevices}
use soqv.Usb.Subdevices.Numbering.{is_found}
use soqv.Usb.Subdevices.Result.{IsSettled, Lists, open_subdevices-Settled}

abbrev device : ℕ → ℕ → ℕ → ℕ → UsbDevice
device address product bus parent = record {
  address = address;
  desc =
      some
        (record { id_vendor = 0x45e; id_product = product; bcd_device = 300; i_serial_number = 3 });
  bus = bus;
  parent = some parent;
}

-- A camera, and audio devices on its bus and behind its parent.
abbrev camera : UsbDevice
camera = device 1 0x02ae 1 7

abbrev plugged : List UsbDevice
plugged = device 5 0x02ad 1 8 ∷ camera ∷ device 6 0x02ad 1 7 ∷ device 9 0x02b0 2 7 ∷ []

beside_camera : find_sibling_device camera is_audio plugged ≡ some (device 6 0x02ad 1 7)
unfolding find_sibling_device sibling_loop
beside_camera = refl

find_sibling_device-choice_example :
    find_sibling_device camera is_audio plugged
    ≡ or_else (first (filter (beside camera is_audio) plugged)) (
        or_else
          (only (filter (on_bus camera is_audio) plugged))
          (only (filter (fits camera is_audio) plugged)))
find_sibling_device-choice_example = find_sibling_device-choice camera is_audio plugged

-- The numbers of the cameras end with their count.
second_camera : is_found (find_camera 0 1 plugged) ≡ false
unfolding find_camera
second_camera = refl

-- All calls succeed, and an audio device has `n` interfaces.
abbrev all_well : ℤ → Libusb
all_well n = record {
  devices = λ t. some plugged;
  result = λ call t. elim call [ interfaces ↦ n | _ ↦ pos 0 ];
  serial = λ t. some (4 ∷ 2 ∷ []);
  serial_error = λ t. 0;
}

all_well-Lists : (n : ℤ) → Lists (all_well n)
all_well-Lists n t e = ground arith

abbrev wanting : Subdevices
wanting = record {
  cam = none;
  motor = none;
  audio = none;
  want_camera = true;
  want_motor = true;
  want_audio = false;
  does_motor_control_with_audio = false;
  motor_control_with_audio_enabled = false;
  zero_plane_res = 0;
  cam_pid = 0;
  host = record { is_open = λ k. false; next_handle = 0; time = 0 };
}

abbrev result_and_handles : Stage → ℤ × Option ℕ × Option ℕ × Option ℕ
result_and_handles (next res dev) = (res, dev.cam, dev.motor, dev.audio)
result_and_handles (failure res dev) = (res, some 0, some 0, some 0)
result_and_handles Stage.stuck = (negsuc 99, none, none, none)

-- A device of a newer model opens its camera and its audio device, besides the handles for the LED.
newer_opens :
    result_and_handles (open_subdevices (all_well (pos 2)) 0 wanting)
    ≡ (pos 0, some 0, none, some 3)
unfolding open_subdevices open_camera open_motor open_audio find_camera find_sibling_device
    sibling_loop claim_camera keep_alive_led libusb_open libusb_close
newer_opens = refl

-- The audio device does not come back with firmware: everything is closed, and 0 is returned.
lost_audio :
    result_and_handles (open_subdevices (all_well (pos 1)) 0 wanting) ≡ (pos 0, none, none, none)
unfolding open_subdevices open_camera open_motor open_audio find_camera find_sibling_device
    sibling_loop claim_camera keep_alive_led libusb_open libusb_close reappear look_through
    close_subdevices
lost_audio = refl

open_subdevices-Settled_example : IsSettled (open_subdevices (all_well (pos 1)) 0 wanting)
open_subdevices-Settled_example =
    open_subdevices-Settled (all_well (pos 1)) (all_well-Lists (pos 1)) 0 wanting
