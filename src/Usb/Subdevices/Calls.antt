-- ===== src/Usb/Subdevices/Calls.antt =====
-- libusb as the opening of devices uses it: which handles are open, and what its calls return.
use soqv.Base.{ℕ, ◌+◌, Bool, true, false, Option, none, some, List, ◌==◌, if◌then◌else◌}
use soqv.Base.Int.{ℤ, pos, negsuc}
use soqv.Usb.{UsbDevice}

pub record Host : Type 0 where
  pub is_open : ℕ → Bool
  pub next_handle : ℕ
  pub time : ℕ

pub data Call : Type 0 where
  opening : Call
  claiming : Call
  kernel_driver : Call
  detaching : Call
  alt_setting : Call
  interfaces : Call
  uploading : Call
  describing : Call

-- The list of devices, `none` for an error; what the calls return; and the string descriptor of the
-- serial number, `none` for an error, which is then -(e + 1) for `serial_error`. All may change with
-- every call.
pub record Libusb : Type 0 where
  pub devices : ℕ → Option (List UsbDevice)
  pub result : Call → ℕ → ℤ
  pub serial : ℕ → Option (List ℕ)
  pub serial_error : ℕ → ℕ

abbrev pub tick : Host → Host
tick host = record host { time = host.time + 1 }

abbrev pub ask : Libusb → Call → Host → ℤ
ask lib call host = lib.result call host.time

-- `libusb_open`: an error -(e + 1), or a handle that was not in use.
pub data Opened : Type 0 where
  failed : ℕ → Opened
  handle : ℕ → Opened

abbrev pub opened_with : ℤ → Host → Opened × Host
opened_with (negsuc e) host = (failed e, tick host)
opened_with (pos n) host = (
  handle host.next_handle,
  record {
    is_open = λ k. if host.next_handle == k then true else host.is_open k;
    next_handle = host.next_handle + 1;
    time = host.time + 1;
  },
)

unfoldable pub libusb_open : Libusb → Host → Opened × Host
libusb_open lib host = opened_with (ask lib opening host) host

-- `libusb_close`: undefined on a handle that is not open.
unfoldable pub libusb_close : ℕ → Host → Option Host
libusb_close k host =
    if host.is_open k
    then some (record host { is_open = λ j. if k == j then false else host.is_open j })
    else none
