-- ===== src/Streaming/Tests.antt =====
-- Runs of the streams' start and stop on a simulated camera.
use soqv.Base.{ℕ, ◌≡◌, refl, true, false, none, some, []}
use soqv.Base.Int.{pos, negsuc}
use soqv.Flags.Simulation.{sim, sim_regs, sim-IsRegisterFile}
use soqv.Stream.Packet.{Stream}
use soqv.Modes.{FrameMode, find_reserved}
use soqv.Streaming.{
  StreamDevice, depth_sizes, depth_writes, start_depth, camera_teardown, video_setup,
}
use soqv.Streaming.Writes.{KeepsVideo, written, start_depth_streams, teardown-KeepsVideo}

abbrev no_mode : FrameMode
no_mode = record {
  reserved = 0;
  resolution = 0;
  format = 0;
  bytes = 0;
  width = 0;
  height = 0;
  data_bits_per_pixel = 0;
  padding_bits_per_pixel = 0;
  framerate = 0;
  is_valid = false;
}

abbrev at_rest : Stream
at_rest = record {
  running = false;
  flag = 0;
  synced = false;
  seq = 0;
  got_pkts = 0;
  pkt_num = 0;
  pkts_per_frame = 0;
  pkt_size = 0;
  frame_size = 0;
  last_pkt_size = 0;
  valid_pkts = 0;
  lost_pkts = 0;
  valid_frames = 0;
  variable_length = false;
  last_timestamp = 0;
  timestamp = 0;
  split_bufs = false;
  lib_buf = none;
  usr_buf = none;
  raw_buf = none;
  proc_buf = none;
}

abbrev idle : StreamDevice
idle = record {
  dev = record { trace = []; cam_tag = 0; pid = 0x02ae };
  heap = record { next = 1; block = λ a. none; garbage = λ a i. 0 };
  video = at_rest;
  depth = at_rest;
  video_format = 0;
  video_resolution = 1;
  depth_format = 1;
  depth_resolution = 1;
  tables = false;
}

abbrev both_running : StreamDevice
both_running = record idle {
  video = record at_rest { running = true };
  depth = record at_rest { running = true };
}

ten_bit_sizes : depth_sizes no_mode 1 1 ≡ some (384000, 614400)
unfolding find_reserved
ten_bit_sizes = refl

no_ir_beside_depth : video_setup true 2 3 ≡ none
no_ir_beside_depth = refl

start_depth_streams_example :
    (d' : StreamDevice) × (start_depth sim 1 no_mode (pos 0) idle ≡ some (pos 0, d'))
    × (d'.depth.running ≡ true)
    × (d'.video ≡ at_rest)
    × ((r : ℕ) → sim_regs d'.dev.trace r ≡ written (depth_writes 1) (sim_regs []) r)
    × (sim_regs d'.dev.trace 0x06 ≡ 2)
    × (sim_regs d'.dev.trace 0x12 ≡ 2)
start_depth_streams_example =
    start_depth_streams sim sim_regs sim-IsRegisterFile 0 no_mode 0 384000 614400 idle refl
      ten_bit_sizes

teardown-KeepsVideo_example :
    KeepsVideo both_running (camera_teardown sim 1 no_mode (pos 0) (pos 0) both_running)
    × (camera_teardown sim 1 no_mode (pos 0) (pos 0) both_running
        ≡ camera_teardown sim 1 no_mode (pos 0) (negsuc 0) both_running)
teardown-KeepsVideo_example =
    teardown-KeepsVideo sim 1 no_mode (pos 0) (pos 0) (negsuc 0) both_running refl
