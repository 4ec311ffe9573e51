-- ===== src/Streaming/Writes.antt =====
-- What the registers of the camera are after a start, on a camera with a file of registers.
use soqv.Base.{
  ℕ, suc, ◌≡◌, refl, sym, ap, ◌∙◌, Bool, true, false, Option, none, some, List, [], ◌∷◌, u16, ◌==◌,
  ◌||◌, if◌then◌else◌,
}
use mathlib.Core.Path.{subst}
use soqv.Base.Int.{ℤ, pos, negsuc}
use soqv.Command.{Event, Bus, Device}
use soqv.Flags.Registers.{IsRegisterFile, after_write, write_register-writes}
use soqv.Memory.{Heap}
use soqv.Stream.Packet.{Stream}
use soqv.Stream.Setup.{stream_init, stream_freebufs}
use soqv.Flags.{write_register}
use soqv.Modes.{FrameMode, depth_10bit, depth_10bit_packed, depth_registered, depth_mm}
use soqv.Streaming.{
  StreamDevice, Started, after_one, write_all, depth_sizes, depth_writes, depth_running,
  depth_started, prepare_depth, start_depth, stop_video, stop_depth, camera_teardown, depth_freed,
  depth_stopped, depth_pkt_size,
}

-- A file of registers after writes in this order.
abbrev pub written : List (ℕ × ℕ) → (ℕ → ℕ) → ℕ → ℕ
written [] regs r = regs r
written (w ∷ ws) regs r = written ws (λ q. if u16 w.0 == q then u16 w.1 else regs q) r

written-cong :
    (ws : List (ℕ × ℕ)) (f g : ℕ → ℕ)
    → ((r : ℕ) → f r ≡ g r)
    → (r : ℕ) → written ws f r ≡ written ws g r
written-cong [] f g h r = h r
written-cong (w ∷ ws) f g h r =
    written-cong ws _ _ (λ q. ap (λ (t : ℕ). if u16 w.0 == q then u16 w.1 else t) (h q)) r

small_word : (b : Bool) → u16 (if b then 2 else 3) ≡ (if b then 2 else 3)
small_word true = refl
small_word false = refl

module _ (bus : Bus) (regs : List Event → ℕ → ℕ) (file : IsRegisterFile bus regs) (fuel : ℕ) where
  write_all-writes :
      (ws : List (ℕ × ℕ)) (dev : Device)
      → (dev' : Device) × (write_all bus (suc fuel) ws dev ≡ some dev')
        × ((r : ℕ) → regs dev'.trace r ≡ written ws (regs dev.trace) r)
  unfolding write_all
  write_all-writes [] dev = (dev, refl, λ r. refl)
  write_all-writes (w ∷ ws) dev =
      let dev₁ = after_write w.0 w.1 dev in
      let (dev', e, h) = write_all-writes ws dev₁ in
      (
        dev',
        ap (after_one (write_all bus (suc fuel) ws))
              (write_register-writes bus regs file fuel w.0 w.1 dev)
            ∙ e,
        λ r. h r ∙ written-cong ws _ _ (λ q. file.write_sets dev.trace dev.cam_tag w.0 w.1 q) r,
      )

  depth_started-streams :
      (junk : FrameMode) (d : StreamDevice) (n : ℕ)
      → (d' : StreamDevice) × (depth_started bus (suc fuel) junk (pos n) d ≡ some (pos 0, d'))
        × (d'.depth.running ≡ true)
        × (d'.video ≡ d.video)
        × ((r : ℕ)
            → regs d'.dev.trace r ≡ written (depth_writes d.depth_format) (regs d.dev.trace) r)
  depth_started-streams junk d n =
      let (dev', e, h) = write_all-writes (depth_writes d.depth_format) d.dev in
      (
        record d { dev = dev'; depth = record (d.depth) { running = true } },
        ap (depth_running d) e,
        refl,
        refl,
        h,
      )

  -- On a camera that takes and answers every command, starting the depth stream of a device where it
  -- does not run, with a valid format, and whose transfers the USB layer has started, returns 0;
  -- the stream then runs, the video stream is as it was, and the camera's registers are those
  -- before with the writes of the start in order: at the end 0x06 holds 2, for a stream that
  -- runs, and 0x12 the depth of the format.
  pub start_depth_streams :
      (junk : FrameMode) (n rlen plen : ℕ) (d : StreamDevice)
      → d.depth.running ≡ false
      → depth_sizes junk d.depth_resolution d.depth_format ≡ some (rlen, plen)
      → (d' : StreamDevice) × (start_depth bus (suc fuel) junk (pos n) d ≡ some (pos 0, d'))
        × (d'.depth.running ≡ true)
        × (d'.video ≡ d.video)
        × ((r : ℕ)
            → regs d'.dev.trace r ≡ written (depth_writes d.depth_format) (regs d.dev.trace) r)
        × (regs d'.dev.trace 0x06 ≡ 2)
        × (regs d'.dev.trace 0x12 ≡ (
            if d.depth_format == depth_10bit || d.depth_format == depth_10bit_packed then 2 else 3))
  unfolding start_depth
  start_depth_streams junk n rlen plen d idle sizes =
      let s = record (d.depth) {
        pkt_size = depth_pkt_size;
        flag = 0x70;
        variable_length = false;
      } in
      let made = d.depth_format == depth_registered || d.depth_format == depth_mm in
      let (s', h') = stream_init rlen plen s d.heap in
      let prepared = prepare_depth bus (suc fuel) junk (pos n) s d in
      let (d', e, run, video, all) =
        depth_started-streams junk (record d { depth = s'; heap = h'; tables = d.tables || made })
          n in
      (
        d',
        ap
              (λ (b : Bool).
                if b
                then some (negsuc 0, d)
                else prepared (depth_sizes junk d.depth_resolution d.depth_format))
              idle
            ∙ ap prepared sizes
            ∙ e,
        run,
        video,
        all,
        all 0x06,
        all 0x12
            ∙ small_word (d.depth_format == depth_10bit || d.depth_format == depth_10bit_packed),
      )

-- The video stream that a device keeps, whatever is returned.
abbrev pub KeepsVideo : StreamDevice → Started → Type 0
KeepsVideo d none = Unit
KeepsVideo d (some (res, d')) = d'.video ≡ d.video

if-KeepsVideo :
    (b : Bool) (d : StreamDevice) (x y : Started)
    → KeepsVideo d x
    → KeepsVideo d y
    → KeepsVideo d (if b then x else y)
if-KeepsVideo true d x y hx hy = hx
if-KeepsVideo false d x y hx hy = hy

depth_freed-KeepsVideo :
    (bus : Bus) (fuel : ℕ) (junk : FrameMode) (d : StreamDevice) (o : Option (Stream × Heap))
    → KeepsVideo d (depth_freed bus fuel junk d o)
depth_freed-KeepsVideo bus fuel junk d none = tt
depth_freed-KeepsVideo bus fuel junk d (some (s, h)) = refl

depth_stopped-KeepsVideo :
    (bus : Bus) (fuel : ℕ) (junk : FrameMode) (stopped : ℤ) (d : StreamDevice)
    → (o : Option (ℤ × Device)) → KeepsVideo d (depth_stopped bus fuel junk stopped d o)
depth_stopped-KeepsVideo bus fuel junk stopped d none = tt
depth_stopped-KeepsVideo bus fuel junk (negsuc e) d (some (res, dev)) = refl
depth_stopped-KeepsVideo bus fuel junk (pos n) d (some (res, dev)) =
    depth_freed-KeepsVideo bus fuel junk (record d { dev = dev }) (stream_freebufs d.depth d.heap)

stop_depth-KeepsVideo :
    (bus : Bus) (fuel : ℕ) (junk : FrameMode) (stopped : ℤ) (d : StreamDevice)
    → KeepsVideo d (stop_depth bus fuel junk stopped d)
unfolding stop_depth
stop_depth-KeepsVideo bus fuel junk stopped d =
    let d₁ = record d { depth = record (d.depth) { running = false } } in
    let o = write_register bus fuel 0x06 0x00 d.dev in
    if-KeepsVideo d.depth.running d (depth_stopped bus fuel junk stopped d₁ o) (some (negsuc 0, d))
      (depth_stopped-KeepsVideo bus fuel junk stopped d₁ o) refl

-- Tearing down a camera whose depth stream runs leaves its video stream exactly as it was, so a
-- running video stream goes on running, whatever is returned; and no stop is tried for it: the
-- outcome does not depend on what the USB layer would answer to one.
pub teardown-KeepsVideo :
    (bus : Bus) (fuel : ℕ) (junk : FrameMode) (depth_stop video_stop other : ℤ) (d : StreamDevice)
    → d.depth.running ≡ true
    → KeepsVideo d (camera_teardown bus fuel junk depth_stop video_stop d)
      × (camera_teardown bus fuel junk depth_stop video_stop d
          ≡ camera_teardown bus fuel junk depth_stop other d)
unfolding camera_teardown
teardown-KeepsVideo bus fuel junk depth_stop video_stop other d run =
    let stopped = stop_depth bus fuel junk depth_stop d in
    let to_stop = λ (x : Started). ap (λ (b : Bool). if b then stopped else x) run in
    let rest = λ (v : ℤ).
      if d.video.running
      then stop_video bus fuel junk v d
      else some (pos 0, record d { tables = false }) in
    (
      subst (KeepsVideo d) (sym (to_stop (rest video_stop)))
          (stop_depth-KeepsVideo bus fuel junk depth_stop d),
      to_stop (rest video_stop) ∙ sym (to_stop (rest other)),
    )
