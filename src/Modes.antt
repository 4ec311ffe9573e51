-- ===== src/Modes.antt =====
-- The frame modes of src/cameras.c: the tables of what the cameras support, and the search in them.
pub mod Lookup
pub mod Setting
mod Tests
use soqv.Base.{
  ℕ, zero, suc, ◌+◌, ◌*◌, ◌/◌, ◌%◌, ◌^◌, ◌<◌, Bool, true, false, List, [], ◌∷◌, ◌==◌, ltb,
  if◌then◌else◌, bit_and, bit_or, length, get_or, ◌<<<◌, ◌>>>◌, Option, none, some,
}
use soqv.Base.Int.{ℤ, pos, negsuc}

-- Resolutions and formats are the numbers of the enums.
abbrev pub resolution_medium : ℕ
resolution_medium = 1

abbrev pub resolution_high : ℕ
resolution_high = 2

abbrev pub video_rgb : ℕ
video_rgb = 0

abbrev pub video_bayer : ℕ
video_bayer = 1

abbrev pub video_ir_8bit : ℕ
video_ir_8bit = 2

abbrev pub video_ir_10bit : ℕ
video_ir_10bit = 3

abbrev pub video_ir_10bit_packed : ℕ
video_ir_10bit_packed = 4

abbrev pub video_yuv_rgb : ℕ
video_yuv_rgb = 5

abbrev pub video_yuv_raw : ℕ
video_yuv_raw = 6

abbrev pub depth_11bit : ℕ
depth_11bit = 0

abbrev pub depth_10bit : ℕ
depth_10bit = 1

abbrev pub depth_11bit_packed : ℕ
depth_11bit_packed = 2

abbrev pub depth_10bit_packed : ℕ
depth_10bit_packed = 3

abbrev pub depth_registered : ℕ
depth_registered = 4

abbrev pub depth_mm : ℕ
depth_mm = 5

-- `format` is the union of the video and the depth format.
pub record FrameMode : Type 0 where
  pub reserved : ℕ
  pub resolution : ℕ
  pub format : ℕ
  pub bytes : ℕ
  pub width : ℕ
  pub height : ℕ
  pub data_bits_per_pixel : ℕ
  pub padding_bits_per_pixel : ℕ
  pub framerate : ℕ
  pub is_valid : Bool

abbrev pub make_reserved : ℕ → ℕ → ℕ
make_reserved res fmt = bit_or (bit_and res 0xff <<< 8) (bit_and fmt 0xff)

abbrev pub reserved_to_resolution : ℕ → ℕ
reserved_to_resolution reserved = bit_and (reserved >>> 8) 0xff

abbrev pub reserved_to_format : ℕ → ℕ
reserved_to_format reserved = bit_and reserved 0xff

-- A row of a table.
abbrev mode : ℕ → ℕ → ℕ → ℕ → ℕ → ℕ → ℕ → ℕ → FrameMode
mode res fmt bytes width height data_bits padding_bits framerate = record {
  reserved = make_reserved res fmt;
  resolution = res;
  format = fmt;
  bytes = bytes;
  width = width;
  height = height;
  data_bits_per_pixel = data_bits;
  padding_bits_per_pixel = padding_bits;
  framerate = framerate;
  is_valid = true;
}

abbrev pub supported_video_modes : List FrameMode
supported_video_modes =
    mode resolution_high video_rgb (1280 * 1024 * 3) 1280 1024 24 0 10
    ∷ mode resolution_medium video_rgb (640 * 480 * 3) 640 480 24 0 30
    ∷ mode resolution_high video_bayer (1280 * 1024) 1280 1024 8 0 10
    ∷ mode resolution_medium video_bayer (640 * 480) 640 480 8 0 30
    ∷ mode resolution_high video_ir_8bit (1280 * 1024) 1280 1024 8 0 10
    ∷ mode resolution_medium video_ir_8bit (640 * 488) 640 488 8 0 30
    ∷ mode resolution_high video_ir_10bit (1280 * 1024 * 2) 1280 1024 10 6 10
    ∷ mode resolution_medium video_ir_10bit (640 * 488 * 2) 640 488 10 6 30
    ∷ mode resolution_high video_ir_10bit_packed (1280 * 1024 * 10 / 8) 1280 1024 10 0 10
    ∷ mode resolution_medium video_ir_10bit_packed (640 * 488 * 10 / 8) 640 488 10 0 30
    ∷ mode resolution_medium video_yuv_rgb (640 * 480 * 3) 640 480 24 0 15
    ∷ mode resolution_medium video_yuv_raw (640 * 480 * 2) 640 480 16 0 15
    ∷ []

abbrev pub supported_depth_modes : List FrameMode
supported_depth_modes =
    mode resolution_medium depth_11bit (640 * 480 * 2) 640 480 11 5 30
    ∷ mode resolution_medium depth_10bit (640 * 480 * 2) 640 480 10 6 30
    ∷ mode resolution_medium depth_11bit_packed (640 * 480 * 11 / 8) 640 480 11 0 30
    ∷ mode resolution_medium depth_10bit_packed (640 * 480 * 10 / 8) 640 480 10 0 30
    ∷ mode resolution_medium depth_registered (640 * 480 * 2) 640 480 16 0 30
    ∷ mode resolution_medium depth_mm (640 * 480 * 2) 640 480 16 0 30
    ∷ []

-- `junk` is what the uninitialised `retval` holds.
abbrev pub invalid : FrameMode → FrameMode
invalid junk = record junk { is_valid = false }

-- The search for a mode by its identifier, in the rows of a table.
unfoldable pub find_reserved : ℕ → FrameMode → List FrameMode → FrameMode
find_reserved unique_id junk [] = invalid junk
find_reserved unique_id junk (m ∷ modes) =
    let later = find_reserved unique_id junk modes in if m.reserved == unique_id then m else later

abbrev pub find_mode : List FrameMode → FrameMode → ℕ → ℕ → FrameMode
find_mode modes junk res fmt = find_reserved (make_reserved res fmt) junk modes

abbrev pub find_video_mode : FrameMode → ℕ → ℕ → FrameMode
find_video_mode = find_mode supported_video_modes

abbrev pub find_depth_mode : FrameMode → ℕ → ℕ → FrameMode
find_depth_mode = find_mode supported_depth_modes

-- `mode_num >= 0 && mode_num < count`, with `count` the length of the table.
abbrev pub get_mode : List FrameMode → FrameMode → ℤ → FrameMode
get_mode modes junk (negsuc n) = invalid junk
get_mode modes junk (pos n) =
    if ltb n (length modes) then get_or modes n (invalid junk) else invalid junk

abbrev pub get_video_mode : FrameMode → ℤ → FrameMode
get_video_mode = get_mode supported_video_modes

abbrev pub get_depth_mode : FrameMode → ℤ → FrameMode
get_depth_mode = get_mode supported_depth_modes

abbrev pub get_video_mode_count : ℕ
get_video_mode_count = length supported_video_modes

abbrev pub get_depth_mode_count : ℕ
get_depth_mode_count = length supported_depth_modes

-- The fields of a device that a mode is kept in.
pub record Camera : Type 0 where
  pub running : Bool
  pub resolution : ℕ
  pub format : ℕ

unfoldable pub is_supported : ℕ → List FrameMode → Bool
is_supported reserved [] = false
is_supported reserved (m ∷ modes) =
    let later = is_supported reserved modes in if m.reserved == reserved then true else later

-- `freenect_set_video_mode` and `freenect_set_depth_mode`; what the first one then sends to the
-- camera is no part of it.
unfoldable pub set_mode : List FrameMode → FrameMode → Camera → ℤ × Camera
set_mode modes m c =
    if c.running
    then (negsuc 0, c)
    else if is_supported m.reserved modes
    then (
      pos 0,
      record c {
        resolution = reserved_to_resolution m.reserved;
        format = reserved_to_format m.reserved;
      },
    )
    else (negsuc 0, c)
