-- ===== src/Audio.antt =====
-- The audio streams of a device, in src/audio.c: the headers of the outgoing packets, the windows of
-- samples that arrive by channel, and the buffers from start to stop.
pub mod Client
pub mod Storage
pub mod Ownership
pub mod Outgoing
pub mod Incoming
pub mod Lifecycle
mod Tests
use soqv.Base.{
  ℕ, zero, suc, ◌+◌, ◌*◌, ◌-◌, ◌/◌, ◌%◌, ◌^◌, Bool, true, false, not, ◌&&◌, ◌||◌, Option, none,
  some, List, [], ◌∷◌, ◌++◌, ltb, leb, ◌==◌, if◌then◌else◌, length, drop, get_or, set, replicate,
  bit_and, bit_or, u8, u16, ◌>>>◌, ◌<<<◌,
}
use soqv.Base.Int.{ℤ, pos, negsuc}
use soqv.Memory.{Ptr, Heap, update, malloc, free, splice, copy_to}
use soqv.Command.{le16, le16_at, le32_at}

-- The integer fields have the widths of the source: `out_seq`, `out_counter_within_window`,
-- `out_window_parity` and `in_counter` 8 bits, the windows and the timestamp 16.
pub record AudioStream : Type 0 where
  pub running : Bool
  pub audio_out_ring : Ptr
  pub ring_reader_idx : ℕ
  pub ring_writer_idx : ℕ
  pub out_window : ℕ
  pub out_seq : ℕ
  pub out_counter_within_window : ℕ
  pub out_weird_timestamp : ℕ
  pub out_window_parity : ℕ
  pub in_window : ℕ
  pub last_seen_window : List ℕ
  pub in_counter : ℕ
  pub mic_buffer : List Ptr
  pub cancelled_buffer : Ptr
  pub in_unknown : Ptr

-- A call of the client's `audio_in_cb`, with the memory that its pointers point into.
pub record AudioIn : Type 0 where
  pub num_samples : ℕ
  pub mic : List Ptr
  pub cancelled : Ptr
  pub unknown : Ptr
  pub memory : Heap

-- The part of a device that audio is in, memory, and the calls of the client, the last one first.
-- `audio_in_cb` is what the client's callback makes of memory, if one is set; `audio_out_cb` says
-- whether one is set, as it is never called.
pub record AudioDevice : Type 0 where
  pub audio : AudioStream
  pub audio_in_cb : Option (AudioIn → Heap)
  pub audio_out_cb : Bool
  pub heap : Heap
  pub calls : List AudioIn

-- The fourth byte of an outgoing packet: a nibble of the timestamp, or 1.
abbrev pub timestamp_nibble : ℕ → ℕ → ℕ
timestamp_nibble timestamp i = u8 (bit_or (bit_and (timestamp >>> (i * 4)) 0x000f <<< 4) 0x05)

unfoldable pub weird_byte : AudioStream → ℕ
weird_byte stream =
    let counter = stream.out_counter_within_window in
    if stream.out_window_parity == 0
    then if ltb counter 4
      then timestamp_nibble stream.out_weird_timestamp counter
      else if ltb counter 8
      then timestamp_nibble (stream.out_weird_timestamp + 23) (counter - 4)
      else 0x01
    else if ltb counter 4
    then timestamp_nibble stream.out_weird_timestamp counter
    else 0x01

-- The `switch` on `out_seq`: the case 0x80 falls through to the next ones.
abbrev pub next_window : AudioStream → AudioStream
next_window stream = record stream {
  out_counter_within_window = 0;
  out_window = u16 (stream.out_window + 1);
  out_window_parity = u8 (stream.out_window_parity + 1);
}

abbrev pub switch_seq : AudioStream → AudioStream
switch_seq stream =
    if stream.out_seq == 0x80
    then next_window (record stream { out_seq = 0 })
    else if stream.out_seq == 0x2b || stream.out_seq == 0x56
    then next_window stream
    else stream

abbrev pub wrap_parity : AudioStream → AudioStream
wrap_parity stream =
    if stream.out_window_parity == 3 then record stream { out_window_parity = 0 } else stream

unfoldable pub update_for_next : AudioStream → AudioStream
update_for_next stream = wrap_parity (
    switch_seq (record stream {
      out_seq = u8 (stream.out_seq + 1);
      out_counter_within_window = u8 (stream.out_counter_within_window + 1);
      out_weird_timestamp =
          u16 (stream.out_weird_timestamp + (if stream.out_window_parity == 1 then 6 else 5));
    }))

-- With no client the packet is zeroed first; `none` is a packet too short for what is written.
unfoldable pub prepare_iso_out_data : Bool → List ℕ → AudioStream → Option (List ℕ × AudioStream)
prepare_iso_out_data audio_out_cb buffer stream =
    let zeroed = if audio_out_cb then buffer else splice buffer 0 (replicate 76 0) in
    let header = le16 stream.out_window ++ (stream.out_seq ∷ weird_byte stream ∷ []) in
    if ltb (length buffer) (if audio_out_cb then 4 else 76)
    then none
    else some (splice zeroed 0 header, update_for_next stream)

-- The fields of an `audio_in_block`.
abbrev pub block_magic : List ℕ → ℕ
block_magic pkt = le32_at pkt 0

abbrev pub block_channel : List ℕ → ℕ
block_channel pkt = le16_at pkt 4

abbrev pub block_window : List ℕ → ℕ
block_window pkt = le16_at pkt 8

abbrev pub block_samples : List ℕ → List ℕ
block_samples pkt = drop 12 pkt

-- A window that ends is handed to the client.
abbrev pub window_call : AudioDevice → AudioIn
window_call dev = record {
  num_samples = 256;
  mic = dev.audio.mic_buffer;
  cancelled = dev.audio.cancelled_buffer;
  unknown = dev.audio.in_unknown;
  memory = dev.heap;
}

abbrev pub called : Option (AudioIn → Heap) → AudioDevice → AudioDevice
called none dev = dev
called (some cb) dev = record dev {
  calls = window_call dev ∷ dev.calls;
  heap = cb (window_call dev);
}

abbrev pub set_window : ℕ → AudioDevice → AudioDevice
set_window window dev = record dev { audio = record dev.audio { in_window = window } }

abbrev pub change_window : ℕ → AudioDevice → AudioDevice
change_window window dev =
    if window == dev.audio.in_window then dev else set_window window (called dev.audio_in_cb dev)

-- The `switch` on the channel: where its samples go, or nothing for a channel that is not known.
abbrev pub store_channel : ℕ → List ℕ → AudioDevice → Option Heap
store_channel channel samples dev =
    if channel == 1
    then copy_to dev.audio.cancelled_buffer 0 samples dev.heap
    else if leb 2 channel && leb channel 9
    then copy_to (get_or dev.audio.mic_buffer ((channel - 2) / 2) none)
        (if channel % 2 == 1 then 512 else 0) samples dev.heap
    else some dev.heap

-- `last_seen_window[channel - 1] = window`: out of the array's bounds it is undefined.
abbrev pub mark_seen : ℕ → ℕ → AudioDevice → Option Heap → Option AudioDevice
mark_seen channel window dev none = none
mark_seen channel window dev (some heap) =
    if leb 1 channel && leb channel (length dev.audio.last_seen_window)
    then some (record dev {
      heap = heap;
      audio = record dev.audio {
        last_seen_window = set dev.audio.last_seen_window (channel - 1) window;
      };
    })
    else none

-- `none` is a write out of bounds.
unfoldable pub iso_in_callback : List ℕ → AudioDevice → Option AudioDevice
iso_in_callback pkt dev =
    let dev' = change_window (block_window pkt) dev in
    let heap' = store_channel (block_channel pkt) (block_samples pkt) dev' in
    if length pkt == 524
    then if block_magic pkt == 0x80000080
      then mark_seen (block_channel pkt) (block_window pkt) dev' heap'
      else some dev
    else some dev

-- `malloc` followed by `memset` to 0 over all of the block.
abbrev pub malloc_zeroed : ℕ → Heap → Ptr × Heap
malloc_zeroed n h = (
  some h.next,
  record h { next = h.next + 1; block = update h.block h.next (some (replicate n 0)) },
)

abbrev pub malloc_mics : ℕ → Heap → List Ptr × Heap
malloc_mics zero h = ([], h)
malloc_mics (suc n) h =
    let (mic, h') = malloc_zeroed 1024 h in let (mics, h'') = malloc_mics n h' in (mic ∷ mics, h'')

unfoldable pub alloc_audio : AudioDevice → AudioDevice
alloc_audio dev =
    let (ring, h₁) = malloc_zeroed (256 * 12) dev.heap in
    let (cancelled, h₂) = malloc_zeroed 512 h₁ in
    let (mics, h₃) = malloc_mics 4 h₂ in
    let (unknown, h₄) = malloc 48 h₃ in
    record dev {
      heap = h₄;
      audio = record dev.audio {
        audio_out_ring = ring;
        cancelled_buffer = cancelled;
        mic_buffer = mics;
        in_unknown = some unknown;
        ring_reader_idx = 0;
        ring_writer_idx = 0;
        out_window = 0;
        out_seq = 0;
        out_counter_within_window = 0;
        out_weird_timestamp = 0;
        out_window_parity = 0;
        in_window = 0;
        in_counter = 0;
        last_seen_window = replicate 10 0;
      };
    }

abbrev pub set_running : Bool → AudioDevice → AudioDevice
set_running b dev = record dev { audio = record dev.audio { running = b } }

-- What the two calls of `fnusb_start_iso` return is given: first the one for IN, then the one for OUT.
abbrev pub started_out : ℤ → AudioDevice → ℤ × AudioDevice
started_out (negsuc e) dev = (negsuc e, dev)
started_out (pos n) dev = (pos 0, set_running true dev)

abbrev pub started_in : ℤ → ℤ → AudioDevice → ℤ × AudioDevice
started_in (negsuc e) out_res dev = (negsuc e, dev)
started_in (pos n) out_res dev = started_out out_res dev

unfoldable pub start_audio : ℤ → ℤ → AudioDevice → ℤ × AudioDevice
start_audio in_res out_res dev =
    if dev.audio.running then (negsuc 0, dev) else started_in in_res out_res (alloc_audio dev)

-- `none` is a `free` of what is no block.
abbrev pub free_all : List Ptr → Option Heap → Option Heap
free_all ps none = none
free_all [] (some h) = some h
free_all (p ∷ ps) (some h) = free_all ps (free p h)

abbrev pub all_null : List Ptr → List Ptr
all_null [] = []
all_null (p ∷ ps) = none ∷ all_null ps

abbrev pub audio_freed : AudioDevice → Option Heap → Option (ℤ × AudioDevice)
audio_freed dev none = none
audio_freed dev (some h) = some (
  pos 0,
  record dev {
    heap = h;
    audio = record dev.audio {
      audio_out_ring = none;
      cancelled_buffer = none;
      in_unknown = none;
      mic_buffer = all_null dev.audio.mic_buffer;
    };
  },
)

abbrev pub free_audio : AudioDevice → Option (ℤ × AudioDevice)
free_audio dev =
    let a = dev.audio in
    audio_freed dev (
      free_all (a.audio_out_ring ∷ a.cancelled_buffer ∷ a.in_unknown ∷ a.mic_buffer)
        (some dev.heap))

abbrev pub stopped_out : ℤ → AudioDevice → Option (ℤ × AudioDevice)
stopped_out (negsuc e) dev = some (negsuc e, dev)
stopped_out (pos n) dev = free_audio dev

abbrev pub stopped_in : ℤ → ℤ → AudioDevice → Option (ℤ × AudioDevice)
stopped_in (negsuc e) out_res dev = some (negsuc e, dev)
stopped_in (pos n) out_res dev = stopped_out out_res dev

-- What the two calls of `fnusb_stop_iso` return is given.
unfoldable pub stop_audio : ℤ → ℤ → AudioDevice → Option (ℤ × AudioDevice)
stop_audio in_res out_res dev =
    if dev.audio.running
    then stopped_in in_res out_res (set_running false dev)
    else some (negsuc 0, dev)
