-- ===== src/Stream/Setup.antt =====
-- `stream_init`, `stream_freebufs` and `stream_setbuf` of src/cameras.c.
pub mod Layout
pub mod Buffers
pub mod Lifecycle
use soqv.Base.{
  ℕ, ◌+◌, ◌-◌, ◌%◌, ◌/◌, Bool, true, false, not, ◌&&◌, Option, none, some, ◌==◌, if◌then◌else◌,
}
use soqv.Base.Int.{ℤ, pos, negsuc}
use soqv.Memory.{Ptr, Heap, malloc, free}
use soqv.Stream.Packet.{Stream}

abbrev pub is_null : Ptr → Bool
is_null none = true
is_null (some _) = false

-- The user's buffer, or a new one of `plen` bytes.
unfoldable pub init_proc_buf : ℕ → Stream → Heap → Stream × Heap
init_proc_buf plen s h =
    let (a, h') = malloc plen h in
    if is_null s.usr_buf
    then (record s { lib_buf = some a; proc_buf = some a }, h')
    else (record s { lib_buf = none; proc_buf = s.usr_buf }, h)

-- A raw buffer of its own if `rlen` is not 0.
unfoldable pub init_raw_buf : ℕ → ℕ → Stream → Heap → Stream × Heap
init_raw_buf rlen plen s h =
    let (a, h') = malloc rlen h in
    if rlen == 0
    then (record s { split_bufs = false; raw_buf = s.proc_buf; frame_size = plen }, h)
    else (record s { split_bufs = true; raw_buf = some a; frame_size = rlen }, h')

unfoldable pub init_packets : Stream → Stream
init_packets s = record s {
  last_pkt_size = if s.frame_size % s.pkt_size == 0 then s.pkt_size else s.frame_size % s.pkt_size;
  pkts_per_frame = (s.frame_size + s.pkt_size - 1) / s.pkt_size;
}

unfoldable pub init_bufs : ℕ → ℕ → Stream → Heap → Stream × Heap
unfolding init_proc_buf init_raw_buf
init_bufs rlen plen s h =
    let (s₁, h₁) = init_proc_buf plen (record s { valid_frames = 0; synced = false }) h in
    init_raw_buf rlen plen s₁ h₁

unfoldable pub stream_init : ℕ → ℕ → Stream → Heap → Stream × Heap
unfolding init_bufs init_packets
stream_init rlen plen s h = let (s', h') = init_bufs rlen plen s h in (init_packets s', h')

abbrev clear_bufs : Stream → Stream
clear_bufs s = record s { raw_buf = none; proc_buf = none; lib_buf = none }

-- `none` is a `free` of what is no block.
unfoldable pub stream_freebufs : Stream → Heap → Option (Stream × Heap)
stream_freebufs s h = elim (if s.split_bufs then free s.raw_buf h else some h) [
  | none ↦ none
  | some h₁ ↦ elim (free s.lib_buf h₁) [ none ↦ none | some h₂ ↦ some (clear_bufs s, h₂) ]
]

unfoldable pub stream_setbuf : Ptr → Stream → ℤ × Stream
stream_setbuf pbuf s =
    if not s.running
    then (pos 0, record s { usr_buf = pbuf })
    else if is_null pbuf && is_null s.lib_buf
    then (negsuc 0, s)
    else let proc = if is_null pbuf then s.lib_buf else pbuf in
      let raw = if not s.split_bufs then proc else s.raw_buf in
      (pos 0, record s { usr_buf = pbuf; proc_buf = proc; raw_buf = raw })
