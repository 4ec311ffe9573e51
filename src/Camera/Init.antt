-- ===== src/Camera/Init.antt =====
-- `freenect_camera_init` returns, and what it leaves.
use soqv.Base.{ℕ, ◌≤◌, ◌≡◌, refl, sym, ap, ◌∙◌, Bool, true, false, some, List, arith, take, drop}
use mathlib.Core.Path.{subst}
use soqv.Base.Int.{ℤ, pos, negsuc}
use soqv.Memory.{length-tabulate}
use soqv.Command.{Bus, uninitialised, le16_at}
use soqv.Command.Exchange.{IsAnswering, send_cmd-Exchanged}
use soqv.Modes.{
  FrameMode, Camera, find_video_mode, find_depth_mode, supported_video_modes, supported_depth_modes,
  resolution_medium, video_rgb, depth_11bit, is_supported, make_reserved,
}
use soqv.Modes.Lookup.{video-IsTable, depth-IsTable}
use soqv.Modes.Setting.{set_found_mode}
use soqv.Camera.{
  Calibration, CameraDevice, Returned, fetched, or_fail, then_always, fetch, camera_init,
  set_video_mode, set_depth_mode, params_request, fetch_reg_info, fetch_reg_pad_info,
  fetch_reg_const_shift, fetch_zero_plane_info,
}
use soqv.Camera.Leaves.{
  Leaves, IsStatus, SameModes, or_fail-Leaves, then_always-Leaves, fetched-Leaves,
}

-- A camera with both streams at rest, and one with the modes that it starts with.
pub record IsIdle (d : CameraDevice) : Type 0 where
  pub video_idle : d.video.running ≡ false
  pub depth_idle : d.depth.running ≡ false
  pub small_plane : d.zero_plane_res ≤ 0x200

abbrev pub first_mode : Camera
first_mode = record { running = false; resolution = resolution_medium; format = 0 }

pub record IsInitial (d : CameraDevice) : Type 0 where
  pub first_video : d.video ≡ first_mode
  pub first_depth : d.depth ≡ first_mode

SameModes-IsIdle : {d d' : CameraDevice} → SameModes d d' → IsIdle d → IsIdle d'
SameModes-IsIdle e i = record {
  video_idle = ap (λ (c : Camera). c.running) e.video ∙ i.video_idle;
  depth_idle = ap (λ (c : Camera). c.running) e.depth ∙ i.depth_idle;
  small_plane = omega (arith, e.plane, i.small_plane);
}

first_camera :
    (c : Camera)
    → c.running ≡ false
    → ◌≡◌ {A = Camera} (record c { resolution = 1; format = 0 }) first_mode
first_camera c h = ap (λ (b : Bool). record { running = b; resolution = 1; format = 0 }) h

first_video_supported : is_supported (make_reserved 1 0) supported_video_modes ≡ true
unfolding is_supported
first_video_supported = refl

first_depth_supported : is_supported (make_reserved 1 0) supported_depth_modes ≡ true
unfolding is_supported
first_depth_supported = refl

module _ (bus : Bus) (fuel : ℕ) (junk : FrameMode) (answers : IsAnswering bus fuel) where
  -- A request for parameters returns 0 or -1, and keeps the modes.
  fetch-Leaves :
      (opcode : ℕ) (cmd : List ℕ) (n : ℕ) (keep : List ℕ → Calibration → Calibration)
      (d : CameraDevice)
      → n ≤ 0x200
      → Leaves (λ res d'. IsStatus res × SameModes d d') (fetch bus fuel junk opcode cmd n keep d)
  unfolding fetch
  fetch-Leaves opcode cmd n keep d h =
      let (res, reply, dev', e, _) =
        send_cmd-Exchanged bus fuel opcode cmd (uninitialised bus 0x200 d.dev) n d.dev answers
          (omega (arith, length-tabulate 0x200 (bus.stack d.dev.trace))) in
      let (res', d', e', p) = fetched-Leaves n keep d res reply dev' in
      (res', d', ap (fetched n keep d) e ∙ e', p)

  after_set : CameraDevice → ℤ × Camera → Returned
  after_set d (res, video) =
      or_fail (some (res, record d { video = video }))
        (λ d₁. then_always (fetch_reg_info bus fuel junk d₁) (λ d₂. some (pos 0, d₂)))

  first_set :
      (d : CameraDevice)
      → Leaves
          (λ res d'. SameModes (record d { video = first_mode }) d')
          (after_set d (pos 0, first_mode))
  unfolding after_set
  first_set d =
      let d₁ = record d { video = first_mode } in
      then_always-Leaves (fetch_reg_info bus fuel junk d₁) (λ d₂. some (pos 0, d₂))
        (fetch-Leaves 0x16 (params_request bus fuel junk 0x40 d₁) 118
          (λ reply c. record c { reg_info = take 116 (drop 2 reply) }) d₁ (omega arith))
        (λ res d₂ p. (pos 0, d₂, refl, p.1))

  -- Setting the first video mode, whatever the request that follows returns.
  set_video_mode-first :
      (d : CameraDevice)
      → IsIdle d
      → Leaves
          (λ res d'. SameModes (record d { video = first_mode }) d')
          (set_video_mode bus fuel junk (find_video_mode junk resolution_medium video_rgb) d)
  unfolding set_video_mode after_set
  set_video_mode-first d i =
      let (_, set, _) =
        set_found_mode supported_video_modes junk 1 0 d.video video-IsTable (omega arith)
          (omega arith) in
      let changed =
        set i.video_idle first_video_supported
        ∙ ap (λ (c : Camera). (pos 0, c)) (first_camera d.video i.video_idle) in
      subst
        (λ (t : ℤ × Camera).
          Leaves (λ res d'. SameModes (record d { video = first_mode }) d') (after_set d t))
        (sym changed) (first_set d)

  set_depth_mode-first :
      (d : CameraDevice)
      → IsIdle d
      → Leaves
          (λ res d'. SameModes (record d { depth = first_mode }) d')
          (set_depth_mode bus fuel junk (find_depth_mode junk resolution_medium depth_11bit) d)
  unfolding set_depth_mode
  set_depth_mode-first d i =
      let (_, set, _) =
        set_found_mode supported_depth_modes junk 1 0 d.depth depth-IsTable (omega arith)
          (omega arith) in
      let changed =
        set i.depth_idle first_depth_supported
        ∙ ap (λ (c : Camera). (pos 0, c)) (first_camera d.depth i.depth_idle) in
      (
        pos 0,
        record d { depth = first_mode },
        ap (λ (t : ℤ × Camera). some (t.0, record d { depth = t.1 })) changed,
        record { video = refl; depth = refl; plane = refl },
      )

  abbrev Initialised : ℤ → CameraDevice → Type 0
  Initialised res d = IsStatus res × (res ≡ pos 0 → IsInitial d)

  shift_stage :
      (d : CameraDevice) → IsInitial d → Leaves Initialised (fetch_reg_const_shift bus fuel junk d)
  shift_stage d i =
      let (res, d', e, (status, same)) =
        fetch-Leaves 0x16 (params_request bus fuel junk 0x00 d) 4
          (λ reply c. record c { const_shift = le16_at reply 2 }) d (omega arith) in
      (
        res,
        d',
        e,
        (
          status,
          λ _. record {
            first_video = same.video ∙ i.first_video;
            first_depth = same.depth ∙ i.first_depth;
          },
        ),
      )

  depth_stage :
      (d : CameraDevice)
      → IsIdle d
      → d.video ≡ first_mode
      → Leaves Initialised (
          then_always
            (set_depth_mode bus fuel junk (find_depth_mode junk resolution_medium depth_11bit) d)
            (λ d₄. fetch_reg_const_shift bus fuel junk d₄))
  depth_stage d i v =
      then_always-Leaves
        (set_depth_mode bus fuel junk (find_depth_mode junk resolution_medium depth_11bit) d)
        (λ d₄. fetch_reg_const_shift bus fuel junk d₄) (set_depth_mode-first d i)
        (λ res d₄ p. shift_stage d₄ (record { first_video = p.video ∙ v; first_depth = p.depth }))

  abbrev after_video : CameraDevice → Returned
  after_video d₃ =
      then_always
        (set_depth_mode bus fuel junk (find_depth_mode junk resolution_medium depth_11bit) d₃)
        (λ d₄. fetch_reg_const_shift bus fuel junk d₄)

  abbrev after_plane : CameraDevice → Returned
  after_plane d₂ =
      then_always
        (set_video_mode bus fuel junk (find_video_mode junk resolution_medium video_rgb) d₂)
        (λ d₃. after_video d₃)

  video_stage : (d : CameraDevice) → IsIdle d → Leaves Initialised (after_plane d)
  video_stage d i =
      then_always-Leaves
        (set_video_mode bus fuel junk (find_video_mode junk resolution_medium video_rgb) d)
        (λ d₃. after_video d₃) (set_video_mode-first d i)
        (λ res d₃ p.
          depth_stage d₃
            (record {
              video_idle = ap (λ (c : Camera). c.running) p.video;
              depth_idle = ap (λ (c : Camera). c.running) p.depth ∙ i.depth_idle;
              small_plane = omega (arith, p.plane, i.small_plane);
            })
            p.video)

  failed_status :
      (e : ℕ) (d₀ d : CameraDevice)
      → IsStatus (negsuc e) × SameModes d₀ d
      → Initialised (negsuc e) d
  failed_status e d₀ d p = (p.0, λ h. absurd (ground (arith, h)))

  plane_stage :
      (d : CameraDevice)
      → IsIdle d
      → Leaves Initialised (or_fail (fetch_zero_plane_info bus fuel junk d) (λ d₂. after_plane d₂))
  plane_stage d i =
      or_fail-Leaves (fetch_zero_plane_info bus fuel junk d) (λ d₂. after_plane d₂)
        (fetch-Leaves 0x04 _ d.zero_plane_res _ d i.small_plane) (λ e d₂ p. failed_status e d d₂ p)
        (λ n d₂ p. video_stage d₂ (SameModes-IsIdle p.1 i))

  -- On a device that answers every command within the fuel, with both streams at rest and a room of
  -- 512 bytes for the zero plane, initialising a camera returns 0 or -1; and if 0, it has left the
  -- video stream in the medium RGB mode and the depth stream in the medium 11-bit mode, whatever
  -- the replies were.
  pub camera_init-Leaves :
      (d : CameraDevice)
      → IsIdle d
      → Leaves (λ res d'. IsStatus res × (res ≡ pos 0 → IsInitial d')) (camera_init bus fuel junk d)
  unfolding camera_init
  camera_init-Leaves d i =
      or_fail-Leaves (fetch_reg_pad_info bus fuel junk d)
        (λ d₁. or_fail (fetch_zero_plane_info bus fuel junk d₁) (λ d₂. after_plane d₂))
        (fetch-Leaves 0x16 _ 8 _ d (omega arith)) (λ e d₁ p. failed_status e d d₁ p)
        (λ n d₁ p. plane_stage d₁ (SameModes-IsIdle p.1 i))
