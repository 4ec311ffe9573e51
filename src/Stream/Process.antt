-- ===== src/Stream/Process.antt =====
-- `stream_process` of src/cameras.c, in the phases of its text: synchronisation, lost packets, the
-- checks of flag and length, the copy, and the end of a frame.
pub mod Safety
pub mod Accounting
pub mod Assembly
use soqv.Base.{
  ℕ, ◌+◌, ◌*◌, ◌-◌, ◌%◌, ◌^◌, Bool, true, false, not, ◌&&◌, ◌||◌, Option, none, some, List, bit_or,
  ltb, leb, ◌==◌, if◌then◌else◌, length, drop, u8, u32,
}
use soqv.Memory.{Ptr, Heap, copy_to}
use soqv.Stream.Packet.{Stream, PktHdr, pkt_hdr}

-- A user's chunk callback: the raw buffer, the packet's data, its number and the data's length.
-- It may write to memory, and may fault.
abbrev pub ChunkCb : Type 0
ChunkCb = Ptr → List ℕ → ℕ → ℕ → Heap → Option Heap

-- A phase either makes `stream_process` return a frame size, or lets it go on with
-- `got_frame_size`.
pub data Phase : Type 0 where
  ret : ℕ → Stream → Phase
  go : ℕ → Stream → Phase

abbrev pub sof : Stream → ℕ
sof s = bit_or s.flag 1

abbrev pub mof : Stream → ℕ
mof s = bit_or s.flag 2

abbrev pub eof : Stream → ℕ
eof s = bit_or s.flag 5

-- Drops packets until a start of frame.
unfoldable pub sync : PktHdr → Stream → Phase
sync hdr s =
    if s.synced
    then go 0 s
    else if hdr.flag == sof s
    then go 0 (record s { synced = true; seq = hdr.seq; pkt_num = 0; valid_pkts = 0; got_pkts = 0 })
    else ret 0 s

abbrev pub lost_packets : PktHdr → Stream → ℕ
lost_packets hdr s = u8 (hdr.seq + 2 ^ 8 - s.seq)

-- The body of `if (left <= lost)`: the lost packets end the frame.
abbrev pub end_lost_frame : ℕ → Stream → Stream
end_lost_frame lost s = record s {
  pkt_num = lost + s.pkt_num - s.pkts_per_frame;
  valid_pkts = s.got_pkts;
  got_pkts = 0;
  timestamp = s.last_timestamp;
  valid_frames = s.valid_frames + 1;
}

-- `left <= lost` with `left = pkts_per_frame - pkt_num`, which may be negative.
unfoldable pub recover : PktHdr → Stream → Phase
recover hdr s =
    if s.seq == hdr.seq
    then go 0 s
    else let lost = lost_packets hdr s in
      let counted = record s { lost_pkts = u32 (s.lost_pkts + lost) } in
      let found = record s { lost_pkts = u32 (s.lost_pkts + lost); seq = hdr.seq } in
      if ltb 5 lost || s.variable_length
      then ret 0 (record counted { synced = false })
      else if leb s.pkts_per_frame (lost + s.pkt_num)
      then go s.frame_size (end_lost_frame lost found)
      else go 0 (record found { pkt_num = s.pkt_num + lost })

abbrev pub expected_pkt_size : Stream → ℕ
expected_pkt_size s = if s.pkt_num + 1 == s.pkts_per_frame then s.last_pkt_size else s.pkt_size

abbrev pub fixed_flag_ok : PktHdr → Stream → Bool
fixed_flag_ok hdr s =
    (s.pkt_num == 0 && hdr.flag == sof s)
    || ((s.pkt_num + 1 == s.pkts_per_frame && hdr.flag == eof s)
        || (ltb 0 s.pkt_num && (ltb (s.pkt_num + 1) s.pkts_per_frame && hdr.flag == mof s)))

abbrev pub variable_flag_ok : PktHdr → Stream → Bool
variable_flag_ok hdr s =
    (s.pkt_num == 0 && hdr.flag == sof s)
    || (ltb s.pkt_num s.pkts_per_frame && (hdr.flag == eof s || hdr.flag == mof s))

unfoldable pub check_fixed : PktHdr → ℕ → ℕ → Stream → Phase
check_fixed hdr datalen got s =
    if not (fixed_flag_ok hdr s)
    then ret got (record s { synced = false })
    else if ltb (expected_pkt_size s) datalen
    then ret got s
    else go got s

unfoldable pub check_variable : PktHdr → ℕ → ℕ → Stream → Phase
check_variable hdr datalen got s =
    if not (variable_flag_ok hdr s)
    then ret got (record s { synced = false })
    else if ltb (expected_pkt_size s) datalen
    then ret got (record s { synced = false })
    else if ltb datalen (expected_pkt_size s) && not (hdr.flag == eof s)
    then ret got (record s { synced = false })
    else go got s

unfoldable pub check : PktHdr → ℕ → ℕ → Stream → Phase
unfolding check_fixed check_variable
check hdr datalen got s =
    if not s.variable_length
    then check_fixed hdr datalen got s
    else check_variable hdr datalen got s

-- The memory after `cb(raw_buf, ...)` or the copy to `dbuf`.
unfoldable pub deliver : Option ChunkCb → List ℕ → Stream → Heap → Option Heap
deliver none payload s h = copy_to s.raw_buf (s.pkt_num * s.pkt_size) payload h
deliver (some cb) payload s h = cb s.raw_buf payload s.pkt_num (length payload) h

-- The counters after the copy, with the end of a frame.
unfoldable pub advance : PktHdr → ℕ → ℕ → Stream → ℕ × Stream
advance hdr datalen got s =
    let seq' = u8 (s.seq + 1) in
    let offset = s.pkt_num * s.pkt_size in
    if hdr.flag == eof s
    then (
      offset + (if s.variable_length then datalen else s.last_pkt_size),
      record s {
        pkt_num = 0;
        seq = seq';
        got_pkts = 0;
        valid_pkts = s.got_pkts + 1;
        last_timestamp = hdr.timestamp;
        timestamp = hdr.timestamp;
        valid_frames = s.valid_frames + 1;
      },
    )
    else (
      got,
      record s {
        pkt_num = s.pkt_num + 1;
        seq = seq';
        got_pkts = s.got_pkts + 1;
        last_timestamp = hdr.timestamp;
      },
    )

-- What a packet does to a stream and to memory; `none` is a fault.
abbrev pub Outcome : Type 0
Outcome = Option (ℕ × Stream × Heap)

-- A phase followed by the rest of the function.
infixl 5 ◌>=>◌
abbrev pub ◌>=>◌ : Phase → (ℕ → Stream → Phase) → Phase
ret got s >=> k = ret got s
go got s >=> k = k got s

unfoldable pub phases : PktHdr → ℕ → Stream → Phase
phases hdr datalen s =
    sync hdr s >=> (λ _ s₁. recover hdr s₁) >=> (λ got s₂. check hdr datalen got s₂)

unfoldable pub copied : PktHdr → ℕ → ℕ → Stream → Option Heap → Outcome
copied hdr datalen got s none = none
copied hdr datalen got s (some h) = let (size, s') = advance hdr datalen got s in some (size, s', h)

unfoldable pub finish : Option ChunkCb → PktHdr → List ℕ → Heap → Phase → Outcome
unfolding copied
finish cb hdr payload h (ret got s) = some (got, s, h)
finish cb hdr payload h (go got s) = copied hdr (length payload) got s (deliver cb payload s h)

-- `pkt` is the `len` bytes of the packet.
unfoldable pub stream_process : Option ChunkCb → List ℕ → Stream → Heap → Outcome
stream_process cb pkt s h =
    let hdr = pkt_hdr pkt in
    let payload = drop 12 pkt in
    if ltb (length pkt) 12
    then some (0, s, h)
    else if not (hdr.magic0 == b'R' && hdr.magic1 == b'B')
    then some (0, s, h)
    else finish cb hdr payload h (phases hdr (length payload) s)
