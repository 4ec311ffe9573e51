-- ===== src/Usb/Subdevices/Numbering.antt =====
-- The numbers of the cameras: `fnusb_num_devices`, and the search by number of `fnusb_open_subdevices`.
use soqv.Base.{
  ℕ, ◌+◌, ◌≤◌, ◌≡◌, inl, inr, Bool, true, false, Option, none, some, List, [], ◌∷◌, arith, ltb,
  ◌==◌, if◌then◌else◌, Bool-cases,
}
use soqv.Usb.{Descriptor, UsbDevice, is_camera, holds, num_devices, num_devices_from}
use soqv.Usb.Subdevices.{found_at, find_camera}

abbrev pub is_found : Option (UsbDevice × Descriptor) → Bool
is_found none = false
is_found (some c) = true

num_devices_from-le : (n : ℕ) (devs : List UsbDevice) → n ≤ num_devices_from n devs
unfolding num_devices_from
num_devices_from-le n [] = omega arith
num_devices_from-le n (d ∷ devs) =
    ground (arith, num_devices_from-le n devs, num_devices_from-le (n + 1) devs)

-- One device, given what holds of the rest for every count that has not passed the number.
found_step :
    (n index : ℕ) (d : UsbDevice) (devs : List UsbDevice) (o : Option Descriptor)
    → n ≤ index
    → ((m : ℕ)
        → m ≤ index
        → is_found (find_camera m index devs) ≡ ltb index (num_devices_from m devs))
    → is_found (
        found_at (n == index) d o (find_camera (if holds is_camera o then n + 1 else n) index devs))
      ≡ ltb index (num_devices_from (if holds is_camera o then n + 1 else n) devs)
found_step n index d devs none h rest = rest n h
found_step n index d devs (some desc) h rest = elim (Bool-cases (is_camera desc)) [
  | inr other ↦ elim (Bool-cases (n == index)) [
    | inl here ↦ rw (other, here) (rest n h)
    | inr before ↦ rw (other, before) (rest n h)
  ]
  | inl camera ↦ elim (Bool-cases (n == index)) [
    | inl here ↦ rw (camera, here) (ground (arith, num_devices_from-le (n + 1) devs))
    | inr before ↦ rw (camera, before) (rest (n + 1) (ground arith))
  ]
]

find_camera-from :
    (n index : ℕ) (devs : List UsbDevice)
    → n ≤ index
    → is_found (find_camera n index devs) ≡ ltb index (num_devices_from n devs)
unfolding find_camera num_devices_from
find_camera-from n index [] h = ground arith
find_camera-from n index (d ∷ devs) h =
    found_step n index d devs d.desc h (λ m. find_camera-from m index devs)

-- The camera with a given number is found exactly if the number is below the count of devices that
-- `fnusb_num_devices` gives.
pub find_camera-num_devices :
    (index : ℕ) (devs : List UsbDevice)
    → is_found (find_camera 0 index devs) ≡ ltb index (num_devices devs)
unfolding num_devices
find_camera-num_devices index devs = find_camera-from 0 index devs (omega arith)
