-- ===== src/Usb.antt =====
-- The USB layer, in src/usb_libusb10.c: the isochronous streams, the search for the devices that belong
-- to a camera, and the subdevices of a device.
pub mod Isoc
pub mod Siblings
pub mod Subdevices
mod Tests
use soqv.Base.{
  ℕ, zero, suc, ◌+◌, Bool, true, false, not, ◌&&◌, ◌||◌, Option, none, some, List, [], ◌∷◌, ◌==◌,
  if◌then◌else◌,
}

-- The fields of a `libusb_device_descriptor` that the library reads.
pub record Descriptor : Type 0 where
  pub id_vendor : ℕ
  pub id_product : ℕ
  pub bcd_device : ℕ
  pub i_serial_number : ℕ

-- A device on the bus: its `libusb_device*`, its descriptor if it can be read, and where it is plugged
-- in, the parent if it is known.
pub record UsbDevice : Type 0 where
  pub address : ℕ
  pub desc : Option Descriptor
  pub bus : ℕ
  pub parent : Option ℕ

abbrev pub vid_microsoft : ℕ
vid_microsoft = 0x45e

abbrev pub is_camera : Descriptor → Bool
is_camera desc =
    desc.id_vendor == vid_microsoft && (desc.id_product == 0x02ae || desc.id_product == 0x02bf)

abbrev pub is_motor : Descriptor → Bool
is_motor desc = desc.id_vendor == vid_microsoft && desc.id_product == 0x02b0

abbrev pub is_audio : Descriptor → Bool
is_audio desc =
    desc.id_vendor == vid_microsoft
    && (desc.id_product == 0x02ad
        || (desc.id_product == 0x02be || (desc.id_product == 0x02c3 || desc.id_product == 0x02bb)))

-- A device whose descriptor cannot be read is passed over.
abbrev pub holds : (Descriptor → Bool) → Option Descriptor → Bool
holds predicate none = false
holds predicate (some desc) = predicate desc

-- The loop of `fnusb_num_devices`.
unfoldable pub num_devices_from : ℕ → List UsbDevice → ℕ
num_devices_from found [] = found
num_devices_from found (d ∷ devs) =
    num_devices_from (if holds is_camera d.desc then found + 1 else found) devs

unfoldable pub num_devices : List UsbDevice → ℕ
unfolding num_devices_from
num_devices devs = num_devices_from 0 devs

-- `cameraParent == NULL || cameraParent != parent`, negated.
abbrev pub same_parent : Option ℕ → Option ℕ → Bool
same_parent none q = false
same_parent (some p) none = false
same_parent (some p) (some q) = p == q

-- The counts of the loop, and the device found if it is the only one so far.
pub record Matches : Type 0 where
  pub total : ℕ
  pub same_bus : ℕ
  pub match_single : Option UsbDevice
  pub match_same_bus : Option UsbDevice

abbrev pub count_single : UsbDevice → Matches → Matches
count_single d m = record m {
  total = m.total + 1;
  match_single = if m.total + 1 == 1 then some d else none;
}

abbrev pub count_same_bus : UsbDevice → Matches → Matches
count_same_bus d m = record m {
  same_bus = m.same_bus + 1;
  match_same_bus = if m.same_bus + 1 == 1 then some d else none;
}

abbrev pub or_else : Option UsbDevice → Option UsbDevice → Option UsbDevice
or_else none other = other
or_else (some d) other = some d

module _ (camera : UsbDevice) (predicate : Descriptor → Bool) where
  unfoldable pub sibling_loop : List UsbDevice → Matches → Option UsbDevice
  sibling_loop [] m = or_else m.match_same_bus m.match_single
  sibling_loop (d ∷ devs) m =
      let skipped = sibling_loop devs m in
      let single = sibling_loop devs (count_single d m) in
      let on_bus = sibling_loop devs (count_same_bus d (count_single d m)) in
      if not (holds predicate d.desc)
      then skipped
      else if not (camera.bus == d.bus)
      then single
      else if not (same_parent camera.parent d.parent)
      then on_bus
      else some d

  unfoldable pub find_sibling_device : List UsbDevice → Option UsbDevice
  find_sibling_device devs =
      sibling_loop devs
        (record { total = 0; same_bus = 0; match_single = none; match_same_bus = none })
