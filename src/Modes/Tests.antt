-- ===== src/Modes/Tests.antt =====
-- Runs of the frame modes.
use soqv.Base.{◌≡◌, refl, true, false, arith, if◌then◌else◌}
use soqv.Base.Int.{ℤ, pos, negsuc}
use soqv.Modes.{
  FrameMode, Camera, find_video_mode, find_depth_mode, get_depth_mode, make_reserved, is_supported,
  set_mode, find_reserved, supported_video_modes, supported_depth_modes, video_rgb, video_yuv_rgb,
  resolution_medium, resolution_high, depth_mm,
}
use soqv.Modes.Lookup.{Found, find_modes_right, video-IsTable}
use soqv.Modes.Setting.{set_found_mode}

-- A stack that holds the identifier of a supported mode.
abbrev stale : FrameMode
stale = record {
  reserved = 0x0100;
  resolution = 9;
  format = 9;
  bytes = 9;
  width = 9;
  height = 9;
  data_bits_per_pixel = 9;
  padding_bits_per_pixel = 9;
  framerate = 9;
  is_valid = true;
}

abbrev idle_camera : Camera
idle_camera = record { running = false; resolution = 2; format = 1 }

medium_ir : (find_video_mode stale 1 2).bytes ≡ 312320
unfolding find_reserved
medium_ir = refl

no_high_yuv : (find_video_mode stale resolution_high video_yuv_rgb).is_valid ≡ false
unfolding find_reserved
no_high_yuv = refl

last_depth_mode : (get_depth_mode stale (pos 5)).format ≡ depth_mm
last_depth_mode = refl

no_such_mode : (get_depth_mode stale (pos 6)).is_valid ≡ false
no_such_mode = refl

-- The mode is not supported, but the stale identifier is.
stale_accepted :
    ◌≡◌ {A = ℤ × Camera}
      (set_mode supported_video_modes
        (find_video_mode stale resolution_high video_yuv_rgb)
        idle_camera)
      (pos 0, record { running = false; resolution = resolution_medium; format = video_rgb })
unfolding set_mode is_supported find_reserved
stale_accepted = refl

find_modes_right_example :
    ((find_video_mode stale 1 2).is_valid ≡ is_supported (make_reserved 1 2) supported_video_modes)
    × ((find_depth_mode stale 1 2).is_valid
        ≡ is_supported (make_reserved 1 2) supported_depth_modes)
    × ((find_video_mode stale 1 2).is_valid ≡ true → Found 1 2 (find_video_mode stale 1 2))
    × ((find_depth_mode stale 1 2).is_valid ≡ true → Found 1 2 (find_depth_mode stale 1 2))
find_modes_right_example = find_modes_right stale 1 2 (omega arith) (omega arith)

set_found_mode_example :
    (false ≡ true
      → ◌≡◌ {A = ℤ × Camera}
          (set_mode supported_video_modes (find_video_mode stale 1 0) idle_camera)
          (negsuc 0, idle_camera))
    × (false ≡ false
        → is_supported (make_reserved 1 0) supported_video_modes ≡ true
        → ◌≡◌ {A = ℤ × Camera}
            (set_mode supported_video_modes (find_video_mode stale 1 0) idle_camera)
            (pos 0, record idle_camera { resolution = 1; format = 0 }))
    × (false ≡ false
        → is_supported (make_reserved 1 0) supported_video_modes ≡ false
        → (set_mode supported_video_modes (find_video_mode stale 1 0) idle_camera).0
          ≡ (if is_supported 0x0100 supported_video_modes then pos 0 else negsuc 0))
set_found_mode_example =
    set_found_mode supported_video_modes stale 1 0 idle_camera video-IsTable (omega arith)
      (omega arith)
