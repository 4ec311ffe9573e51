-- ===== src/Usb/Isoc.antt =====
-- An isochronous stream from `fnusb_start_iso` to `fnusb_stop_iso`, with its transfers at libusb.
pub mod Count
pub mod Reach
pub mod Stop
mod Tests
use soqv.Base.{
  ℕ, zero, suc, ◌+◌, ◌*◌, Bool, true, false, Option, none, some, List, [], ◌∷◌, leb, ◌==◌,
  if◌then◌else◌, get_elem?, set,
}

-- A transfer at an offset of the stream's buffer: libusb has it, or has given it back. `null_xfer` is
-- one that could not be made.
pub data Xfer : Type 0 where
  null_xfer : Xfer
  idle : ℕ → Xfer
  pending : ℕ → Xfer

-- How a transfer comes back; `completed` with the length of each of its packets.
pub data Status : Type 0 where
  completed : (ℕ → ℕ) → Status
  no_device : Status
  cancelled : Status
  other : Status

-- What `libusb_submit_transfer` returns: 0 is `none`, and -(e + 1) is `some e`.
abbrev pub Submitted : Type 0
Submitted = Option ℕ

abbrev pub error_no_device : ℕ
error_no_device = 3

-- `buffer_size` is the size of the block `buffer`, and `calls` are the packets handed to the client's
-- callback, the last one first: the offset in the buffer and the length.
pub record IsocStream : Type 0 where
  pub xfers : List Xfer
  pub buffer_size : ℕ
  pub num_xfers : ℕ
  pub pkts : ℕ
  pub len : ℕ
  pub dead : Bool
  pub dead_xfers : ℕ
  pub device_dead : Bool
  pub calls : List (ℕ × ℕ)

-- The loop over the packets of a transfer.
unfoldable pub call_packets : ℕ → ℕ → ℕ → ℕ → (ℕ → ℕ) → List (ℕ × ℕ) → List (ℕ × ℕ)
call_packets zero i buf len actual calls = calls
call_packets (suc n) i buf len actual calls =
    call_packets n (i + 1) (buf + len) len actual ((buf, actual i) ∷ calls)

abbrev pub lose_xfer : IsocStream → IsocStream
lose_xfer strm = record strm { dead_xfers = strm.dead_xfers + 1 }

-- Giving a transfer back to libusb.
abbrev pub resubmit : ℕ → ℕ → Submitted → IsocStream → IsocStream
resubmit i buf none strm = record strm { xfers = set strm.xfers i (pending buf) }
resubmit i buf (some e) strm = record strm {
  dead_xfers = strm.dead_xfers + 1;
  device_dead = if e == error_no_device then true else strm.device_dead;
}

-- The `switch` on the status.
abbrev pub on_status : ℕ → ℕ → Submitted → Status → IsocStream → IsocStream
on_status i buf res (completed actual) strm =
    resubmit i buf res
      (record strm { calls = call_packets strm.pkts 0 buf strm.len actual strm.calls })
on_status i buf res no_device strm = record strm {
  dead_xfers = strm.dead_xfers + 1;
  device_dead = true;
}
on_status i buf res cancelled strm = record strm {
  device_dead = if strm.dead then strm.device_dead else true;
  dead_xfers = strm.dead_xfers + 1;
}
on_status i buf res other strm = resubmit i buf res strm

-- `iso_callback` on the transfer number `i`, whose buffer is at `buf`.
unfoldable pub iso_callback : ℕ → ℕ → Status → Submitted → IsocStream → IsocStream
iso_callback i buf status res strm =
    if strm.dead then lose_xfer strm else on_status i buf res status strm

-- What libusb gives back: only a transfer that it has.
abbrev pub IsoEvent : Type 0
IsoEvent = ℕ × Status × Submitted

abbrev pub give_back : Option Xfer → IsoEvent → IsocStream → IsocStream
give_back (some (pending buf)) (i, status, res) strm =
    iso_callback i buf status res (record strm { xfers = set strm.xfers i (idle buf) })
give_back (some (idle buf)) ev strm = strm
give_back (some null_xfer) ev strm = strm
give_back none ev strm = strm

unfoldable pub deliver : IsoEvent → IsocStream → IsocStream
deliver ev strm = give_back (get_elem? strm.xfers ev.0) ev strm

-- The making of a transfer, `none` if `libusb_alloc_transfer` returns NULL, and what counts as dead.
abbrev pub start_xfer : Option Submitted → ℕ → Xfer
start_xfer none buf = null_xfer
start_xfer (some none) buf = pending buf
start_xfer (some (some e)) buf = idle buf

abbrev pub dead_at_start : Option Submitted → ℕ
dead_at_start (some none) = 0
dead_at_start (some (some e)) = 1
dead_at_start none = 1

-- The loop that makes `n` transfers from number `i` on, with `size` bytes of buffer for each.
unfoldable pub start_xfers : ℕ → ℕ → (ℕ → Option Submitted) → ℕ → ℕ → List Xfer × ℕ
start_xfers zero i made bufp size = ([], 0)
start_xfers (suc n) i made bufp size =
    let (xfers, dead) = start_xfers n (i + 1) made (bufp + size) size in
    (start_xfer (made i) bufp ∷ xfers, dead_at_start (made i) + dead)

unfoldable pub start_iso : ℕ → ℕ → ℕ → (ℕ → Option Submitted) → Bool → IsocStream
start_iso xfers pkts len made device_dead =
    let (started, dead_xfers) = start_xfers xfers 0 made 0 (pkts * len) in
    record {
      xfers = started;
      buffer_size = xfers * pkts * len;
      num_xfers = xfers;
      pkts = pkts;
      len = len;
      dead = false;
      dead_xfers = dead_xfers;
      device_dead = device_dead;
      calls = [];
    }

-- What one call of `libusb_handle_events` gives back.
unfoldable pub deliver_all : List IsoEvent → IsocStream → IsocStream
deliver_all [] strm = strm
deliver_all (ev ∷ evs) strm = deliver_all evs (deliver ev strm)

-- The loop that waits for the transfers; `none` is one that goes on after these calls.
unfoldable pub wait : List (List IsoEvent) → IsocStream → Option IsocStream
wait [] strm = if leb strm.num_xfers strm.dead_xfers then some strm else none
wait (batch ∷ batches) strm = elim (leb strm.num_xfers strm.dead_xfers) [
  | true ↦ some strm
  | false ↦ wait batches (deliver_all batch strm)
]

-- `libusb_cancel_transfer` on NULL is undefined.
abbrev pub has_null : List Xfer → Bool
has_null [] = false
has_null (null_xfer ∷ xs) = true
has_null (idle buf ∷ xs) = has_null xs
has_null (pending buf ∷ xs) = has_null xs

-- `fnusb_stop_iso` up to the end of the wait, when its transfers and its buffers are freed.
unfoldable pub stop_iso : List (List IsoEvent) → IsocStream → Option IsocStream
stop_iso batches strm =
    if has_null strm.xfers then none else wait batches (record strm { dead = true })
