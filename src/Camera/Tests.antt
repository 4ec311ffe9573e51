-- ===== src/Camera/Tests.antt =====
-- A run of `freenect_camera_init`.
use soqv.Base.{
  ℕ, ◌/◌, ◌%◌, ◌^◌, ◌≤◌, ◌≡◌, refl, false, some, List, [], ◌∷◌, length, arith, ◌==◌, if◌then◌else◌,
  get_or, replicate, length-replicate,
}
use mathlib.Core.Option
use soqv.Base.Int.{ℤ, pos}
use soqv.Command.{
  Event, sent, polled, Reply, failed, received, Bus, poll_again, send_cmd, poll, accept_reply,
}
use soqv.Command.Exchange.{IsAnswering}
use soqv.Memory.{splice}
use soqv.Modes.{FrameMode, Camera, set_mode, find_reserved, is_supported}
use soqv.Camera.{CameraDevice, camera_init, fetch, set_video_mode, set_depth_mode}
use soqv.Camera.Leaves.{Leaves, IsStatus}
use soqv.Camera.Init.{IsInitial, camera_init-Leaves}

-- How many bytes of parameters the camera sends.
abbrev sim_count : List ℕ → ℕ
sim_count p =
    if get_or p 4 0 == 0x04
    then 322
    else if get_or p 8 0 == 0x40
    then 118
    else if get_or p 8 0 == 0x41
    then 8
    else 4

abbrev sim_input : List Event → Reply
sim_input [] = failed 0
sim_input (polled ∷ t) = failed 0
sim_input (sent p ∷ t) =
    let n = sim_count p in
    received (
      0x52
      ∷ 0x42
      ∷ n / 2 % 2 ^ 8
      ∷ n / 2 / 2 ^ 8 % 2 ^ 8
      ∷ get_or p 4 0
      ∷ get_or p 5 0
      ∷ get_or p 6 0
      ∷ get_or p 7 0
      ∷ replicate n 1)

abbrev sim : Bus
sim = record { output = λ t p. pos (length p); input = sim_input; stack = λ t i. 7 }

count-small : (p : List ℕ) → sim_count p ≤ 322
count-small p = ground arith

sim_done : (t : List Event) → poll_again (sim_input t) ≡ false
sim_done [] = refl
sim_done (polled ∷ t) = refl
sim_done (sent p ∷ t) = ground (arith, count-small p, length-replicate {A = ℕ} (sim_count p) 1)

sim-IsAnswering : IsAnswering sim 1
sim-IsAnswering t = (0, omega arith, sim_done t)

abbrev no_mode : FrameMode
no_mode = record {
  reserved = 0;
  resolution = 0;
  format = 0;
  bytes = 0;
  width = 0;
  height = 0;
  data_bits_per_pixel = 0;
  padding_bits_per_pixel = 0;
  framerate = 0;
  is_valid = false;
}

abbrev at_rest : Camera
at_rest = record { running = false; resolution = 0; format = 0 }

abbrev opened : CameraDevice
opened = record {
  dev = record { trace = []; cam_tag = 0; pid = 0x02ae };
  video = at_rest;
  depth = at_rest;
  calibration = record { reg_info = []; reg_pad_info = []; zero_plane_info = []; const_shift = 0 };
  zero_plane_res = 322;
}

const_shift_read :
    Option.map
      (λ (r : ℤ × CameraDevice). r.1.calibration.const_shift)
      (camera_init sim 1 no_mode opened)
    ≡ some 0x0101
unfolding camera_init fetch set_video_mode set_depth_mode set_mode find_reserved is_supported
    send_cmd poll accept_reply splice
const_shift_read = refl

camera_init-Leaves_example :
    Leaves
      (λ res d'. IsStatus res × (res ≡ pos 0 → IsInitial d'))
      (camera_init sim 1 no_mode opened)
camera_init-Leaves_example =
    camera_init-Leaves sim 1 no_mode sim-IsAnswering opened
      (record { video_idle = refl; depth_idle = refl; small_plane = omega arith })
