-- ===== src/Streaming.antt =====
-- Starting and stopping the streams, in src/cameras.c.
pub mod Writes
mod Tests
use soqv.Base.{
  ℕ, ◌-◌, ◌==◌, Bool, true, false, ◌||◌, Option, none, some, List, [], ◌∷◌, ◌++◌, if◌then◌else◌,
}
use soqv.Base.Int.{ℤ, pos, negsuc}
use soqv.Memory.{Heap}
use soqv.Stream.Packet.{Stream}
use soqv.Stream.Setup.{stream_init, stream_freebufs}
use soqv.Command.{Bus, Device}
use soqv.Flags.{write_register}
use soqv.Modes.{
  FrameMode, find_video_mode, find_depth_mode, resolution_medium, resolution_high, video_rgb,
  video_bayer, video_ir_8bit, video_ir_10bit, video_ir_10bit_packed, video_yuv_rgb, video_yuv_raw,
  depth_11bit, depth_10bit, depth_11bit_packed, depth_10bit_packed, depth_registered, depth_mm,
}

-- The part of a device that its streams are in, and memory. `tables` says whether the registration
-- tables are made.
pub record StreamDevice : Type 0 where
  pub dev : Device
  pub heap : Heap
  pub video : Stream
  pub depth : Stream
  pub video_format : ℕ
  pub video_resolution : ℕ
  pub depth_format : ℕ
  pub depth_resolution : ℕ
  pub tables : Bool

-- `none` is a poll that has not ended, or a `free` of what is no block.
abbrev pub Started : Type 0
Started = Option (ℤ × StreamDevice)

-- Registers written in this order, whatever each write returns.
abbrev pub after_one : (Device → Option Device) → Option (ℤ × Device) → Option Device
after_one k none = none
after_one k (some (res, dev)) = k dev

unfoldable pub write_all : Bus → ℕ → List (ℕ × ℕ) → Device → Option Device
write_all bus fuel [] dev = some dev
write_all bus fuel (w ∷ ws) dev =
    after_one (write_all bus fuel ws) (write_register bus fuel w.0 w.1 dev)

-- The sizes that `freenect_start_depth` gives to `stream_init`, or `none` for a bad format.
abbrev pub depth_sizes : FrameMode → ℕ → ℕ → Option (ℕ × ℕ)
depth_sizes junk res fmt =
    let bytes = λ (f : ℕ). (find_depth_mode junk res f).bytes in
    if fmt == depth_registered || (fmt == depth_mm || fmt == depth_11bit)
    then some (bytes depth_11bit_packed, bytes depth_11bit)
    else if fmt == depth_10bit
    then some (bytes depth_10bit_packed, bytes depth_10bit)
    else if fmt == depth_11bit_packed || fmt == depth_10bit_packed
    then some (0, bytes fmt)
    else none

abbrev pub depth_writes : ℕ → List (ℕ × ℕ)
depth_writes fmt =
    let bits = if fmt == depth_10bit || fmt == depth_10bit_packed then 0x02 else 0x03 in
    (0x105, 0x00)
    ∷ (0x06, 0x00)
    ∷ (0x12, bits)
    ∷ (0x13, 0x01)
    ∷ (0x14, 0x1e)
    ∷ (0x06, 0x02)
    ∷ (0x17, 0x00)
    ∷ []

-- What registers a video format is set up with: those written before the stream is prepared, those
-- after, and the one of the mirror.
abbrev pub VideoSetup : Type 0
VideoSetup = Option (List (ℕ × ℕ) × List (ℕ × ℕ) × ℕ)

abbrev pub rgb_setup : ℕ → VideoSetup
rgb_setup res =
    if res == resolution_high
    then some ([], (0x0c, 0x00) ∷ (0x0d, 0x02) ∷ (0x0e, 0x0f) ∷ [], 0x47)
    else if res == resolution_medium
    then some ([], (0x0c, 0x00) ∷ (0x0d, 0x01) ∷ (0x0e, 0x1e) ∷ [], 0x47)
    else none

-- The camera hands out infrared of high resolution only after the depth stream ran for a moment.
abbrev pub ir_setup : Bool → ℕ → VideoSetup
ir_setup depth_running res =
    if res == resolution_high
    then if depth_running
      then none
      else some (
        (0x13, 0x01) ∷ (0x14, 0x1e) ∷ (0x06, 0x02) ∷ (0x06, 0x00) ∷ [],
        (0x19, 0x00) ∷ (0x1a, 0x02) ∷ (0x1b, 0x0f) ∷ [],
        0x48,
      )
    else if res == resolution_medium
    then some ([], (0x19, 0x00) ∷ (0x1a, 0x01) ∷ (0x1b, 0x1e) ∷ [], 0x48)
    else none

abbrev pub yuv_setup : ℕ → VideoSetup
yuv_setup res =
    if res == resolution_medium
    then some ([], (0x0c, 0x05) ∷ (0x0d, 0x01) ∷ (0x0e, 0x0f) ∷ [], 0x47)
    else none

abbrev pub is_ir : ℕ → Bool
is_ir fmt = fmt == video_ir_8bit || (fmt == video_ir_10bit || fmt == video_ir_10bit_packed)

abbrev pub video_setup : Bool → ℕ → ℕ → VideoSetup
video_setup depth_running res fmt =
    if fmt == video_rgb || fmt == video_bayer
    then rgb_setup res
    else if is_ir fmt
    then ir_setup depth_running res
    else if fmt == video_yuv_rgb || fmt == video_yuv_raw
    then yuv_setup res
    else none

-- The raw size of a video format: 0 for a format that is not converted.
abbrev pub video_raw_size : FrameMode → ℕ → ℕ → ℕ
video_raw_size junk res fmt =
    let bytes = λ (f : ℕ). (find_video_mode junk res f).bytes in
    if fmt == video_rgb
    then bytes video_bayer
    else if fmt == video_ir_8bit || fmt == video_ir_10bit
    then bytes video_ir_10bit_packed
    else if fmt == video_yuv_rgb
    then bytes video_yuv_raw
    else 0

abbrev pub video_start_writes : ℕ → List (ℕ × ℕ)
video_start_writes fmt = if is_ir fmt then (0x105, 0x00) ∷ (0x05, 0x03) ∷ [] else (0x05, 0x01) ∷ []

abbrev pub depth_pkt_size : ℕ
depth_pkt_size = 1760 - 12

abbrev pub video_pkt_size : ℕ
video_pkt_size = 1920 - 12

-- The last writes of a start, and the mark that the stream runs.
abbrev pub depth_running : StreamDevice → Option Device → Started
depth_running d none = none
depth_running d (some dev) =
    some (pos 0, record d { dev = dev; depth = record (d.depth) { running = true } })

abbrev pub video_running : StreamDevice → Option Device → Started
video_running d none = none
video_running d (some dev) =
    some (pos 0, record d { dev = dev; video = record (d.video) { running = true } })

module _ (bus : Bus) (fuel : ℕ) (junk : FrameMode) where
  -- `started` is the result of `fnusb_start_iso`.
  abbrev pub depth_started : ℤ → StreamDevice → Started
  depth_started (negsuc e) d = some (negsuc e, d)
  depth_started (pos n) d = depth_running d (write_all bus fuel (depth_writes d.depth_format) d.dev)

  abbrev pub prepare_depth : ℤ → Stream → StreamDevice → Option (ℕ × ℕ) → Started
  prepare_depth started s d none = some (negsuc 0, record d { depth = s })
  prepare_depth started s d (some (rlen, plen)) =
      let made = d.depth_format == depth_registered || d.depth_format == depth_mm in
      let (s', h') = stream_init rlen plen s d.heap in
      depth_started started (record d { depth = s'; heap = h'; tables = d.tables || made })

  unfoldable pub start_depth : ℤ → StreamDevice → Started
  start_depth started d =
      let s = record (d.depth) {
        pkt_size = depth_pkt_size;
        flag = 0x70;
        variable_length = false;
      } in
      if d.depth.running
      then some (negsuc 0, d)
      else prepare_depth started s d (depth_sizes junk d.depth_resolution d.depth_format)

  abbrev pub video_started : ℤ → List (ℕ × ℕ) → ℕ → StreamDevice → Started
  video_started (negsuc e) settings hflip_reg d = some (negsuc e, d)
  video_started (pos n) settings hflip_reg d = video_running d (
      write_all bus fuel
        (settings ++ (video_start_writes d.video_format ++ ((hflip_reg, 0x00) ∷ []))) d.dev)

  abbrev pub init_video : ℤ → Stream → StreamDevice → List (ℕ × ℕ) → ℕ → Option Device → Started
  init_video started s d settings hflip_reg none = none
  init_video started s d settings hflip_reg (some dev) =
      let frame_mode = find_video_mode junk d.video_resolution d.video_format in
      let raw = video_raw_size junk d.video_resolution d.video_format in
      let (s', h') = stream_init raw frame_mode.bytes s d.heap in
      video_started started settings hflip_reg (record d { dev = dev; video = s'; heap = h' })

  abbrev pub prepare_video : ℤ → Stream → StreamDevice → VideoSetup → Started
  prepare_video started s d none = some (negsuc 0, record d { video = s })
  prepare_video started s d (some (before, settings, hflip_reg)) =
      init_video started s d settings hflip_reg (write_all bus fuel before d.dev)

  unfoldable pub start_video : ℤ → StreamDevice → Started
  start_video started d =
      let s = record (d.video) {
        pkt_size = video_pkt_size;
        flag = 0x80;
        variable_length = false;
      } in
      if d.video.running
      then some (negsuc 0, d)
      else prepare_video started s d (video_setup d.depth.running d.video_resolution d.video_format)

  -- `stopped` is the result of `fnusb_stop_iso`.
  abbrev pub depth_freed : StreamDevice → Option (Stream × Heap) → Started
  depth_freed d none = none
  depth_freed d (some (s, h)) = some (pos 0, record d { depth = s; heap = h; tables = false })

  abbrev pub depth_stopped : ℤ → StreamDevice → Option (ℤ × Device) → Started
  depth_stopped stopped d none = none
  depth_stopped (negsuc e) d (some (res, dev)) = some (negsuc e, record d { dev = dev })
  depth_stopped (pos n) d (some (res, dev)) =
      depth_freed (record d { dev = dev }) (stream_freebufs d.depth d.heap)

  unfoldable pub stop_depth : ℤ → StreamDevice → Started
  stop_depth stopped d =
      let d' = record d { depth = record (d.depth) { running = false } } in
      if d.depth.running
      then depth_stopped stopped d' (write_register bus fuel 0x06 0x00 d.dev)
      else some (negsuc 0, d)

  abbrev pub video_freed : StreamDevice → Option (Stream × Heap) → Started
  video_freed d none = none
  video_freed d (some (s, h)) = some (pos 0, record d { video = s; heap = h })

  abbrev pub video_stopped : ℤ → StreamDevice → Option (ℤ × Device) → Started
  video_stopped stopped d none = none
  video_stopped (negsuc e) d (some (res, dev)) = some (negsuc e, record d { dev = dev })
  video_stopped (pos n) d (some (res, dev)) =
      video_freed (record d { dev = dev }) (stream_freebufs d.video d.heap)

  unfoldable pub stop_video : ℤ → StreamDevice → Started
  stop_video stopped d =
      let d' = record d { video = record (d.video) { running = false } } in
      if d.video.running
      then video_stopped stopped d' (write_register bus fuel 0x05 0x00 d.dev)
      else some (negsuc 0, d)

  unfoldable pub camera_teardown : ℤ → ℤ → StreamDevice → Started
  camera_teardown depth_stop video_stop d =
      if d.depth.running
      then stop_depth depth_stop d
      else if d.video.running
      then stop_video video_stop d
      else some (pos 0, record d { tables = false })
