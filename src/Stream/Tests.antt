-- ===== src/Stream/Tests.antt =====
-- Runs of the stream functions of src/cameras.c on a small stream: frames of 10 bytes in packets of
-- 4, 4 and 2, with the flags of the depth camera.
use soqv.Base.{
  ℕ, ◌≤◌, ◌≡◌, ◌⊎◌, ◌↔◌, zero, suc, refl, true, false, none, some, List, [], ◌∷◌, arith,
}
use soqv.Memory
use soqv.Memory.{Ptr, Heap, Holds, copy_to, splice, malloc, free}
use soqv.Stream.Packet.{Stream, PktHdr, pkt_hdr}
use soqv.Stream.Setup.{stream_init, stream_setbuf, stream_freebufs}
use soqv.Stream.Setup.Buffers.{Serves, IsFresh, stream_setbuf-Serves}
use soqv.Stream.Setup.Lifecycle.{set_bufs, stream_bufs_released, stream_init-Ready}
use soqv.Stream.Process.{stream_process, sync, recover, check, deliver, advance, phases, finish, go}
use soqv.Stream.Process.Safety.{Ready, Handled, stream_process-Handled}
use soqv.Stream.Process.Accounting.{IsFixed, Moved, recover-Moved, stream_process_reports}
use soqv.Stream.Process.Assembly.Packets.{packet, process_all}
use soqv.Stream.Process.Assembly.Steps.{frame_packets, Assembled}
use soqv.Stream.Process.Assembly.Frame.{frame_Assembled}

abbrev small_heap : Heap
small_heap = record {
  next = 1;
  block =
      λ a. elim a [ zero ↦ some (0 ∷ 0 ∷ 0 ∷ 0 ∷ 0 ∷ 0 ∷ 0 ∷ 0 ∷ 0 ∷ 0 ∷ 99 ∷ []) | suc _ ↦ none ];
  garbage = λ a i. 0;
}

abbrev idle : Stream
idle = record {
  running = false;
  flag = 0x70;
  synced = false;
  seq = 0;
  got_pkts = 0;
  pkt_num = 0;
  pkts_per_frame = 3;
  pkt_size = 4;
  frame_size = 10;
  last_pkt_size = 2;
  valid_pkts = 0;
  lost_pkts = 0;
  valid_frames = 5;
  variable_length = false;
  last_timestamp = 0;
  timestamp = 0;
  split_bufs = false;
  lib_buf = none;
  usr_buf = some 0;
  raw_buf = some 0;
  proc_buf = some 0;
}

idle-IsFixed : IsFixed idle
idle-IsFixed = record {
  fixed = refl;
  layout = omega arith;
  eof_not_sof = omega arith;
  eof_not_mof = omega arith;
}

idle-Holds : Holds small_heap (some 0) 10
idle-Holds = record {
  addr = 0;
  bytes = 0 ∷ 0 ∷ 0 ∷ 0 ∷ 0 ∷ 0 ∷ 0 ∷ 0 ∷ 0 ∷ 0 ∷ 99 ∷ [];
  points = refl;
  stored = refl;
  room = omega arith;
}

abbrev chunks : List (List ℕ)
chunks = (1 ∷ 2 ∷ 3 ∷ 4 ∷ []) ∷ (5 ∷ 6 ∷ 7 ∷ 8 ∷ []) ∷ (9 ∷ 10 ∷ []) ∷ []

frame_Assembled_example :
    (s : Stream) × (h : Heap) × (process_all
        (frame_packets 0 idle (λ _. 77) 0 254 chunks)
        idle
        small_heap
      ≡ some (0 ∷ 0 ∷ 10 ∷ [], s, h))
    × Assembled idle 0 77 (1 ∷ 2 ∷ 3 ∷ 4 ∷ 5 ∷ 6 ∷ 7 ∷ 8 ∷ 9 ∷ 10 ∷ 99 ∷ []) s h
frame_Assembled_example =
    frame_Assembled 0 idle small_heap (λ _. 77) 254 0 chunks
      (0 ∷ 0 ∷ 0 ∷ 0 ∷ 0 ∷ 0 ∷ 0 ∷ 0 ∷ 0 ∷ 0 ∷ 99 ∷ []) idle-IsFixed (omega arith)
      (λ k. omega arith) refl refl refl (omega arith) (omega arith)

stream_process-Handled_example :
    Handled (stream_process none (packet 0 0x71 9 5 (1 ∷ 2 ∷ [])) idle small_heap)
stream_process-Handled_example =
    stream_process-Handled none (packet 0 0x71 9 5 (1 ∷ 2 ∷ [])) idle small_heap tt
      (record { layout = idle-IsFixed.layout; raw = idle-Holds })

-- Packet 1 after packet 0: packets 1 to 5 of 7 were lost in between.
abbrev halfway : Stream
halfway = record idle { synced = true; seq = 254; pkt_num = 6; pkts_per_frame = 7; frame_size = 26 }

abbrev late : PktHdr
late = record { magic0 = b'R'; magic1 = b'B'; flag = 0x72; seq = 1; timestamp = 8 }

recover-Moved_example : Moved late halfway (recover late halfway)
recover-Moved_example =
    recover-Moved late halfway refl (omega arith) (omega arith) (omega arith) (omega arith)
      (omega arith) (omega arith)

-- The frame is reported, and the next packet is the third of the next frame.
recover_run :
    (recover late halfway)
    ≡ go 26 (record halfway { seq = 1; lost_pkts = 3; pkt_num = 2; valid_frames = 6 })
unfolding recover
recover_run = refl

-- A start-of-frame packet of 2 bytes on a stream that is not in step reports nothing.
abbrev after_first : Stream
after_first = record idle { synced = true; seq = 10; pkt_num = 1; got_pkts = 1; last_timestamp = 5 }

first_packet :
    stream_process none (packet 0 0x71 9 5 (1 ∷ 2 ∷ [])) idle small_heap
    ≡ some (
      0,
      after_first,
      record small_heap {
        block =
            Memory.update small_heap.block 0
              (some (1 ∷ 2 ∷ 0 ∷ 0 ∷ 0 ∷ 0 ∷ 0 ∷ 0 ∷ 0 ∷ 0 ∷ 99 ∷ []));
      },
    )
unfolding stream_process phases sync recover check finish deliver advance copy_to splice pkt_hdr
first_packet = refl

stream_process_reports_example :
    (◌≡◌ {A = ℕ} 0 0 ⊎ ◌≡◌ {A = ℕ} 0 10) × (◌≡◌ {A = ℕ} 0 0 ↔ ◌≡◌ {A = ℕ} 5 5) × (5 ≤ 5)
stream_process_reports_example =
    stream_process_reports none (packet 0 0x71 9 5 (1 ∷ 2 ∷ [])) idle small_heap idle-IsFixed
      first_packet

small_heap-IsFresh : IsFresh small_heap
small_heap-IsFresh zero h = absurd (omega arith)
small_heap-IsFresh (suc a) h = refl

stream_setbuf-Serves_example : Serves (stream_setbuf none (record idle { running = true })).1
stream_setbuf-Serves_example =
    stream_setbuf-Serves none (record idle { running = true }) refl
      (record { has_proc = λ e. cc; same_buf = λ e. refl })

stream_bufs_released_example :
    let (s₁, h₁) = stream_init 20 10 idle small_heap in
    let s₂ = set_bufs (some 0 ∷ none ∷ []) (record s₁ { running = true }) in
    (s₃ : Stream) × (h₃ : Heap) × (stream_freebufs s₂ h₁ ≡ some (s₃, h₃))
    × ((b : ℕ) → h₃.block b ≡ small_heap.block b)
    × (s₃.raw_buf ≡ none)
    × (s₃.proc_buf ≡ none)
    × (s₃.lib_buf ≡ none)
stream_bufs_released_example =
    stream_bufs_released 20 10 (some 0 ∷ none ∷ []) idle small_heap small_heap-IsFresh

stream_init-Ready_example : let (s, h) = stream_init 0 10 idle small_heap in Ready s h
stream_init-Ready_example =
    stream_init-Ready 0 10 idle small_heap (omega arith) (omega arith) idle-Holds
