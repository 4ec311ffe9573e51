-- ===== src/Camera.antt =====
-- Setting the modes of a device and fetching its calibration, in src/cameras.c.
pub mod Leaves
pub mod Init
mod Tests
use soqv.Base.{
  ℕ, ◌==◌, Bool, true, false, Option, none, some, List, [], ◌∷◌, ◌++◌, if◌then◌else◌, take, drop,
}
use soqv.Base.Int.{ℤ, pos, negsuc}
use soqv.Command.{Bus, Device, CmdResult, send_cmd, le16, le16_at, uninitialised}
use soqv.Modes.{
  FrameMode, Camera, find_video_mode, find_depth_mode, set_mode, supported_video_modes,
  supported_depth_modes, resolution_medium, video_rgb, depth_11bit,
}

-- What the library keeps of a device's calibration: the structs as the bytes received, in the
-- order of the host.
pub record Calibration : Type 0 where
  pub reg_info : List ℕ
  pub reg_pad_info : List ℕ
  pub zero_plane_info : List ℕ
  pub const_shift : ℕ

-- The part of `freenect_device` that the modes and the calibration are in. `zero_plane_res` is a
-- field of its context.
pub record CameraDevice : Type 0 where
  pub dev : Device
  pub video : Camera
  pub depth : Camera
  pub calibration : Calibration
  pub zero_plane_res : ℕ

-- What a function on a device returns; `none` is a poll that has not ended.
abbrev pub Returned : Type 0
Returned = Option (ℤ × CameraDevice)

abbrev pub is_count : ℤ → ℕ → Bool
is_count (pos n) k = n == k
is_count (negsuc n) k = false

-- The reply to a request for parameters: kept if it has the length expected, else -1.
abbrev pub fetched : ℕ → (List ℕ → Calibration → Calibration) → CameraDevice → CmdResult → Returned
fetched n keep d none = none
fetched n keep d (some (res, reply, dev)) =
    if is_count res n
    then some (pos 0, record d { dev = dev; calibration = keep reply d.calibration })
    else some (negsuc 0, record d { dev = dev })

-- `if (res < 0) return res;` between two calls.
abbrev pub or_fail : Returned → (CameraDevice → Returned) → Returned
or_fail none k = none
or_fail (some (negsuc e, d)) k = some (negsuc e, d)
or_fail (some (pos n, d)) k = k d

-- A call whose result is not looked at.
abbrev pub then_always : Returned → (CameraDevice → Returned) → Returned
then_always none k = none
then_always (some (res, d)) k = k d

-- The bytes of the constant 2.4f that replaces the second float of `zero_plane_info`.
abbrev pub rcmos_dist_bytes : List ℕ
rcmos_dist_bytes = 0x9a ∷ 0x99 ∷ 0x19 ∷ 0x40 ∷ []

-- `junk` is what a mode that is not found holds besides its mark.
module _ (bus : Bus) (fuel : ℕ) (junk : FrameMode) where
  -- The parameters `param` of opcode 0x16, for the current video mode.
  abbrev pub params_request : ℕ → CameraDevice → List ℕ
  params_request param d =
      let mode = find_video_mode junk d.video.resolution d.video.format in
      le16 param ++ (le16 0 ++ (le16 mode.resolution ++ (le16 mode.framerate ++ le16 0)))

  unfoldable pub fetch :
      ℕ → List ℕ → ℕ → (List ℕ → Calibration → Calibration) → CameraDevice → Returned
  fetch opcode cmd n keep d =
      fetched n keep d (send_cmd bus fuel opcode cmd (uninitialised bus 0x200 d.dev) n d.dev)

  abbrev pub fetch_reg_info : CameraDevice → Returned
  fetch_reg_info d =
      fetch 0x16 (params_request 0x40 d) 118
        (λ reply c. record c { reg_info = take 116 (drop 2 reply) }) d

  abbrev pub fetch_reg_pad_info : CameraDevice → Returned
  fetch_reg_pad_info d =
      fetch 0x16 (params_request 0x41 d) 8
        (λ reply c. record c { reg_pad_info = take 6 (drop 2 reply) }) d

  abbrev pub fetch_reg_const_shift : CameraDevice → Returned
  fetch_reg_const_shift d =
      fetch 0x16 (params_request 0x00 d) 4 (λ reply c. record c { const_shift = le16_at reply 2 }) d

  abbrev pub fetch_zero_plane_info : CameraDevice → Returned
  fetch_zero_plane_info d =
      fetch 0x04 (le16 0 ++ (le16 0 ++ (le16 0 ++ (le16 0 ++ le16 0)))) d.zero_plane_res
        (λ reply c. record c {
          zero_plane_info = take 4 (drop 94 reply) ++ (rcmos_dist_bytes ++ take 8 (drop 102 reply));
        })
        d

  unfoldable pub set_video_mode : FrameMode → CameraDevice → Returned
  set_video_mode m d =
      let (res, video) = set_mode supported_video_modes m d.video in
      or_fail (some (res, record d { video = video }))
        (λ d₁. then_always (fetch_reg_info d₁) (λ d₂. some (pos 0, d₂)))

  unfoldable pub set_depth_mode : FrameMode → CameraDevice → Returned
  set_depth_mode m d =
      let (res, depth) = set_mode supported_depth_modes m d.depth in
      some (res, record d { depth = depth })

  unfoldable pub camera_init : CameraDevice → Returned
  camera_init d = or_fail (fetch_reg_pad_info d) (λ d₁. or_fail (fetch_zero_plane_info d₁) (λ d₂.
      then_always (set_video_mode (find_video_mode junk resolution_medium video_rgb) d₂) (λ d₃.
        then_always (set_depth_mode (find_depth_mode junk resolution_medium depth_11bit) d₃)
          (λ d₄. fetch_reg_const_shift d₄))))
