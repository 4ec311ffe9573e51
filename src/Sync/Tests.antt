-- ===== src/Sync/Tests.antt =====
-- Runs of the ring of three buffers.
use soqv.Base.{ℕ, ◌≡◌, ◌≢◌, refl, true, false, none, some, arith}
use soqv.Base.Int.{pos}
use soqv.Memory.{Heap}
use soqv.Modes.{FrameMode, find_video_mode, find_depth_mode, video_ir_10bit_packed, depth_mm}
use soqv.Sync.{alloc_buffer_ring_video, alloc_buffer_ring_depth}
use soqv.Sync.Buffers.{IsAllocation, alloc_buffer_ring-IsAllocation}
use soqv.Stream.Packet.{Stream}
use soqv.Stream.Setup.{stream_setbuf}
use soqv.Sync.{BufferRing, producer_cb_inner, sync_get}
use soqv.Sync.Handover.{
  World, Reach, Shared, write, produce, get, here, next, put, Reach-Shared, handover_safe,
}

abbrev depth_stream : Stream
depth_stream = record {
  running = true;
  flag = 0x70;
  synced = false;
  seq = 0;
  got_pkts = 0;
  pkt_num = 0;
  pkts_per_frame = 242;
  pkt_size = 1748;
  frame_size = 422400;
  last_pkt_size = 1132;
  valid_pkts = 0;
  lost_pkts = 0;
  valid_frames = 0;
  variable_length = false;
  last_timestamp = 0;
  timestamp = 0;
  split_bufs = true;
  lib_buf = none;
  usr_buf = some 12;
  raw_buf = some 13;
  proc_buf = some 12;
}

abbrev new_ring : BufferRing
new_ring = record {
  buf0 = some 10;
  buf1 = some 11;
  buf2 = some 12;
  timestamp = 0;
  valid = false;
  fmt = pos 0;
  res = pos 1;
}

abbrev start : World
start = record {
  ring = new_ring;
  stream = depth_stream;
  holds = λ a. 0;
  produced = none;
  given = none;
}

start-Shared : Shared start
start-Shared = record {
  read = 10;
  middle = 11;
  written = 12;
  at0 = refl;
  at1 = refl;
  at2 = refl;
  apart01 = λ h. absurd (omega arith);
  apart02 = λ h. absurd (omega arith);
  apart12 = λ h. absurd (omega arith);
  running = refl;
  target = refl;
  kept = tt;
  waiting = tt;
}

abbrev after_write : World
after_write = record start { holds = put start.holds 12 77 }

abbrev full_ring : BufferRing
full_ring = record new_ring { buf1 = some 12; buf2 = some 11; timestamp = 500; valid = true }

abbrev next_stream : Stream
next_stream = record depth_stream { usr_buf = some 11; proc_buf = some 11 }

abbrev after_frame : World
after_frame = record after_write {
  ring = full_ring;
  stream = next_stream;
  produced = some (77, 500);
}

abbrev read_ring : BufferRing
read_ring = record full_ring { buf0 = some 12; buf1 = some 10; valid = false }

one_frame :
    producer_cb_inner stream_setbuf (some 12) 500 new_ring depth_stream
    ≡ some (full_ring, next_stream)
unfolding producer_cb_inner stream_setbuf
one_frame = refl

got_frame : sync_get full_ring ≡ some (some 12, 500, read_ring)
unfolding sync_get
got_frame = refl

no_frame_yet : sync_get new_ring ≡ none
unfolding sync_get
no_frame_yet = refl

wrong_buffer : producer_cb_inner stream_setbuf (some 10) 500 new_ring depth_stream ≡ none
unfolding producer_cb_inner
wrong_buffer = refl

abbrev run : Reach start (record after_frame { ring = read_ring; given = some (77, 500) })
run =
    next
      (next (next here (write start 12 77 refl))
        (produce after_write 12 500 full_ring next_stream refl one_frame))
      (get after_frame 12 500 read_ring got_frame)

Reach-Shared_example : Shared (record after_frame { ring = read_ring; given = some (77, 500) })
Reach-Shared_example = Reach-Shared run start-Shared

handover_safe_example :
    (producer_cb_inner stream_setbuf (some 12) 500 start.ring start.stream ≢ none)
    × ((b time : ℕ) (r : BufferRing)
        → sync_get start.ring ≡ some (some b, time, r)
        → (start.produced ≡ some (start.holds b, time)) × (b ≢ 12) × (sync_get r ≡ none))
handover_safe_example = handover_safe start 12 500 refl start-Shared

abbrev no_mode : FrameMode
no_mode = record {
  reserved = 0;
  resolution = 0;
  format = 0;
  bytes = 0;
  width = 0;
  height = 0;
  data_bits_per_pixel = 0;
  padding_bits_per_pixel = 0;
  framerate = 0;
  is_valid = false;
}

abbrev empty_heap : Heap
empty_heap = record { next = 20; block = λ a. none; garbage = λ a i. 0 }

alloc_buffer_ring-IsAllocation_example :
    IsAllocation video_ir_10bit_packed
      (find_video_mode no_mode 1 0).bytes
      0
      1
      new_ring
      empty_heap
      (alloc_buffer_ring_video no_mode 1 0 new_ring empty_heap)
    × IsAllocation depth_mm
        (find_depth_mode no_mode 1 0).bytes
        0
        1
        new_ring
        empty_heap
        (alloc_buffer_ring_depth no_mode 1 0 new_ring empty_heap)
alloc_buffer_ring-IsAllocation_example =
    alloc_buffer_ring-IsAllocation no_mode 1 0 new_ring empty_heap (λ a h. refl)
