-- ===== src/Audio/Lifecycle.antt =====
-- The buffers of audio from `freenect_start_audio` to `freenect_stop_audio`.
use soqv.Base.{
  ℕ, zero, suc, ◌+◌, ◌*◌, ◌<◌, ◌≡◌, refl, ap, ◌∙◌, inl, inr, Bool, true, false, ◌||◌, Option, none,
  some, List, [], ◌∷◌, arith, ltb, leb, if◌then◌else◌, replicate, Bool-cases, Option-cases,
}
use soqv.Base.Int.{ℤ, pos, negsuc}
use soqv.Memory.{freed, free-freed, Ptr, Heap, malloc, tabulate}
use soqv.Stream.Setup.Buffers.{IsFresh}
use soqv.Audio.Ownership.{OwnsBlocks, AudioOwns, iso_in_callback-Owns}
use soqv.Audio.Client.{IsTame}
use soqv.Audio.{
  AudioDevice, alloc_audio, start_audio, stop_audio, free_all, set_running, started_in, stopped_in,
  audio_freed, all_null, iso_in_callback,
}

alloc_audio-held :
    (dev : AudioDevice) (i : ℕ)
    → i < 7
    → (bytes : List ℕ) × ((alloc_audio dev).heap.block (dev.heap.next + i) ≡ some bytes)
unfolding alloc_audio malloc
alloc_audio-held dev zero h = (replicate (256 * 12) 0, ground arith)
alloc_audio-held dev (suc zero) h = (replicate 512 0, ground arith)
alloc_audio-held dev (suc (suc zero)) h = (replicate 1024 0, ground arith)
alloc_audio-held dev (suc (suc (suc zero))) h = (replicate 1024 0, ground arith)
alloc_audio-held dev (suc (suc (suc (suc zero)))) h = (replicate 1024 0, ground arith)
alloc_audio-held dev (suc (suc (suc (suc (suc zero))))) h = (replicate 1024 0, ground arith)
alloc_audio-held dev (suc (suc (suc (suc (suc (suc zero)))))) h =
    (tabulate 48 (dev.heap.garbage (dev.heap.next + 1 + 1 + 1 + 1 + 1 + 1)), ground arith)
alloc_audio-held dev (suc (suc (suc (suc (suc (suc (suc i))))))) h = absurd (omega arith)

alloc_audio-Owns :
    (dev : AudioDevice)
    → IsTame dev.audio_in_cb
    → AudioOwns dev.heap dev.heap.next (set_running true (alloc_audio dev))
unfolding alloc_audio malloc
alloc_audio-Owns dev t = record {
  ring = ground arith;
  cancelled = ground arith;
  mics = ground arith;
  unknown = ground arith;
  running = refl;
  tame = t;
  blocks = record { held = alloc_audio-held dev; others = λ b out. ground arith };
}

start_audio_lem :
    (r o : ℤ) (dev : AudioDevice)
    → dev.audio.running ≡ false
    → start_audio r o dev ≡ started_in r o (alloc_audio dev)
unfolding start_audio
start_audio_lem r o dev idle =
    ap (λ (b : Bool). if b then (negsuc 0, dev) else started_in r o (alloc_audio dev)) idle

stop_audio_lem :
    (k l : ℤ) (dev : AudioDevice)
    → dev.audio.running ≡ false
    → stop_audio k l dev ≡ some (negsuc 0, dev)
unfolding stop_audio
stop_audio_lem k l dev idle =
    ap (λ (b : Bool). if b then stopped_in k l (set_running false dev) else some (negsuc 0, dev))
      idle

alloc_audio-running : (dev : AudioDevice) → (alloc_audio dev).audio.running ≡ dev.audio.running
unfolding alloc_audio
alloc_audio-running dev = refl

ptrs : List ℕ → List Ptr
ptrs [] = []
ptrs (x ∷ xs) = some x ∷ ptrs xs

frees : List ℕ → Heap → Heap
frees [] h = h
frees (x ∷ xs) h = frees xs (freed x h)

-- Blocks that can be freed one after the other.
AllHeld : List ℕ → Heap → Type 0
AllHeld [] h = Unit
AllHeld (x ∷ xs) h = ((bytes : List ℕ) × (h.block x ≡ some bytes)) × AllHeld xs (freed x h)

free_all-frees :
    (xs : List ℕ) (h : Heap) → AllHeld xs h → free_all (ptrs xs) (some h) ≡ some (frees xs h)
unfolding ptrs frees AllHeld
free_all-frees [] h held = refl
free_all-frees (x ∷ xs) h ((bytes, e), rest) =
    ap (free_all (ptrs xs)) (free-freed x (some x) h bytes refl e)
    ∙ free_all-frees xs (freed x h) rest

abbrev audio_blocks : ℕ → List ℕ
audio_blocks a = a ∷ (a + 1) ∷ (a + 6) ∷ (a + 2) ∷ (a + 3) ∷ (a + 4) ∷ (a + 5) ∷ []

module _ {h₀ : Heap} (a : ℕ) (h : Heap) (v : OwnsBlocks h₀ a h) where
  audio_blocks-AllHeld : AllHeld (audio_blocks a) h
  unfolding AllHeld
  audio_blocks-AllHeld =
      let (b₀, e₀) = v.held 0 (omega arith) in
      let (b₁, e₁) = v.held 1 (omega arith) in
      let (b₂, e₂) = v.held 2 (omega arith) in
      let (b₃, e₃) = v.held 3 (omega arith) in
      let (b₄, e₄) = v.held 4 (omega arith) in
      let (b₅, e₅) = v.held 5 (omega arith) in
      let (b₆, e₆) = v.held 6 (omega arith) in
      let here : a ≡ a + 0 = omega arith in
      (
        (b₀, ap h.block here ∙ e₀),
        (
          (b₁, ground (arith, e₁)),
          (
            (b₆, ground (arith, e₆)),
            (
              (b₂, ground (arith, e₂)),
              (
                (b₃, ground (arith, e₃)),
                ((b₄, ground (arith, e₄)), ((b₅, ground (arith, e₅)), tt)),
              ),
            ),
          ),
        ),
      )

  frees-restores :
      a ≡ h₀.next → IsFresh h₀ → (b : ℕ) → (frees (audio_blocks a) h).block b ≡ h₀.block b
  unfolding frees
  frees-restores e fresh b = elim (Bool-cases (ltb b a || leb (a + 7) b)) [
    | inl outside ↦ ground (arith, v.others b (ground arith))
    | inr inside ↦ ground (arith, fresh b (ground arith))
  ]

unfoldable pub receive_all : List (List ℕ) → AudioDevice → Option AudioDevice
receive_all [] dev = some dev
receive_all (pkt ∷ pkts) dev = elim (iso_in_callback pkt dev) [
  | none ↦ none
  | some dev' ↦ receive_all pkts dev'
]

receive_all-Owns :
    {h₀ : Heap} (a : ℕ) (pkts : List (List ℕ)) (dev dev' : AudioDevice)
    → receive_all pkts dev ≡ some dev'
    → AudioOwns h₀ a dev
    → AudioOwns h₀ a dev'
unfolding receive_all
receive_all-Owns a [] dev dev' e v = let same : dev ≡ dev' = ground arith in rw same at v
receive_all-Owns {h₀} a (pkt ∷ pkts) dev dev' e v = elim (Option-cases (iso_in_callback pkt dev)) [
  | inl bad ↦ absurd (none_some (rw (bad, receive_all) at e))
  | inr (d, good) ↦
      receive_all-Owns a pkts d dev' (rw (good, receive_all) at e)
        (iso_in_callback-Owns a pkt dev d good v)
]
  where
    none_some : ◌≡◌ {A = Option AudioDevice} none (some dev') → ⊥
    none_some q = ground arith

stop_audio-released :
    {h₀ : Heap} (k l a : ℕ) (dev : AudioDevice)
    → a ≡ h₀.next
    → IsFresh h₀
    → AudioOwns h₀ a dev
    → (dev' : AudioDevice) × (stop_audio (pos k) (pos l) dev ≡ some (pos 0, dev'))
      × (dev'.audio.running ≡ false)
      × ((b : ℕ) → dev'.heap.block b ≡ h₀.block b)
unfolding stop_audio ptrs
stop_audio-released k l a dev e fresh v =
    let h = frees (audio_blocks a) dev.heap in
    let all : free_all
          (dev.audio.audio_out_ring ∷ dev.audio.cancelled_buffer ∷ dev.audio.in_unknown
            ∷ dev.audio.mic_buffer)
          (some dev.heap)
        ≡ some h =
      ap (λ (ps : List Ptr). free_all ps (some dev.heap))
        (λ i. v.ring i ∷ v.cancelled i ∷ v.unknown i ∷ v.mics i)
      ∙ free_all-frees (audio_blocks a) dev.heap (audio_blocks-AllHeld a dev.heap v.blocks) in
    (
      record dev {
        heap = h;
        audio = record dev.audio {
          running = false;
          audio_out_ring = none;
          cancelled_buffer = none;
          in_unknown = none;
          mic_buffer = all_null dev.audio.mic_buffer;
        };
      },
      let go = v.running in
          ap
            (λ (b : Bool).
              if b
              then stopped_in (pos k) (pos l) (set_running false dev)
              else some (negsuc 0, dev))
            go
          ∙ ap (audio_freed (set_running false dev)) all,
      refl,
      frees-restores a dev.heap v.blocks e fresh,
    )

-- Audio that starts on a device where it does not run, over memory with no block at or above its next
-- address, and whose client's callback, if one is set, changes nothing in memory but the contents of
-- what it is given, returns 0 and runs; and whatever packets it then receives, if none of them makes it write out
-- of bounds, stopping it returns 0 too, frees no block twice, and leaves memory with the blocks of
-- before.
pub audio_released :
    (m n k l : ℕ) (pkts : List (List ℕ)) (dev dev₂ : AudioDevice)
    → dev.audio.running ≡ false
    → IsFresh dev.heap
    → IsTame dev.audio_in_cb
    → receive_all pkts (start_audio (pos m) (pos n) dev).1 ≡ some dev₂
    → ((start_audio (pos m) (pos n) dev).0 ≡ pos 0)
      × ((start_audio (pos m) (pos n) dev).1.audio.running ≡ true)
      × (dev₃ : AudioDevice) × (stop_audio (pos k) (pos l) dev₂ ≡ some (pos 0, dev₃))
      × (dev₃.audio.running ≡ false)
      × ((b : ℕ) → dev₃.heap.block b ≡ dev.heap.block b)
audio_released m n k l pkts dev dev₂ idle fresh tame e =
    let s = start_audio_lem (pos m) (pos n) dev idle in
    let (dev₃, stopped, halted, restored) = stop_audio-released k l dev.heap.next dev₂ refl fresh (
      receive_all-Owns dev.heap.next pkts (set_running true (alloc_audio dev)) dev₂ (rw s at e)
        (alloc_audio-Owns dev tame)) in
    (
      ap (λ (t : ℤ × AudioDevice). t.0) s,
      ap (λ (t : ℤ × AudioDevice). t.1.audio.running) s,
      dev₃,
      stopped,
      halted,
      restored,
    )

-- If the transfers to the device fail to start, `freenect_start_audio` returns their error, but the
-- seven buffers stay allocated and the device does not count as running, so that
-- `freenect_stop_audio` returns -1 and frees none of them, whatever the USB layer would answer.
pub failed_start_leaks :
    (m e : ℕ) (k l : ℤ) (dev : AudioDevice)
    → dev.audio.running ≡ false
    → let (res, dev') = start_audio (pos m) (negsuc e) dev in
      (res ≡ negsuc e)
      × (stop_audio k l dev' ≡ some (negsuc 0, dev'))
      × ((i : ℕ) → i < 7 → (bytes : List ℕ) × (dev'.heap.block (dev.heap.next + i) ≡ some bytes))
failed_start_leaks m e k l dev idle = rw (start_audio_lem (pos m) (negsuc e) dev idle) (
  refl,
  stop_audio_lem k l (alloc_audio dev) (alloc_audio-running dev ∙ idle),
  alloc_audio-held dev,
)
