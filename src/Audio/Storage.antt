-- ===== src/Audio/Storage.antt =====
-- Where `iso_in_callback` stores the samples of a channel, and what that leaves of the other channels.
use soqv.Base.{
  ℕ, zero, suc, ◌+◌, ◌*◌, ◌-◌, ◌/◌, ◌%◌, ◌≤◌, ◌<◌, ◌≡◌, ◌≢◌, refl, ap, sym, ◌∙◌, inl, inr, true,
  Option, none, some, List, [], ◌∷◌, arith, ltb, leb, ◌==◌, if◌then◌else◌, length, get_or,
  Bool-cases,
}
use soqv.Memory.{
  Ptr, Heap, update, splice, copy_to, slice, slice-splice, slice-splice_before, slice-splice_after,
  length-splice,
}
use soqv.Audio.{AudioDevice, store_channel}

-- Where the samples of a channel lie: the block, from the one of channel 1 on, and the offset.
abbrev pub block_of : ℕ → ℕ → ℕ
block_of a c = a + c / 2

abbrev pub offset_of : ℕ → ℕ
offset_of c = if c == 1 then 0 else c % 2 * 512

abbrev pub block_size : ℕ → ℕ
block_size i = if i == 0 then 512 else 1024

abbrev pub Blocks : ℕ → Heap → Type 0
Blocks a h =
    (i : ℕ)
    → i < 5
    → (bytes : List ℕ) × (h.block (a + i) ≡ some bytes) × (length bytes ≡ block_size i)

-- The buffers of audio: five blocks, one after the other, from address `a` on.
pub record HasBuffers (a : ℕ) (dev : AudioDevice) : Type 0 where
  pub cancelled : dev.audio.cancelled_buffer ≡ some a
  pub mics : dev.audio.mic_buffer ≡ some (a + 1) ∷ some (a + 2) ∷ some (a + 3) ∷ some (a + 4) ∷ []
  pub seen : length dev.audio.last_seen_window ≡ 10
  pub blocks : Blocks a dev.heap

-- The samples of a channel, as they lie in memory.
abbrev pub read_block : ℕ → Option (List ℕ) → Option (List ℕ)
read_block i none = none
read_block i (some bytes) = some (slice i 512 bytes)

abbrev pub channel_samples : ℕ → Heap → ℕ → Option (List ℕ)
channel_samples a h c = read_block (offset_of c) (h.block (block_of a c))

==-self : (n : ℕ) → (n == n) ≡ true
==-self n = ground arith

module _ (a ch : ℕ) (samples : List ℕ) (n : length samples ≡ 512) (lo : 1 ≤ ch) (hi : ch ≤ 9) where
  module _ (bytes : List ℕ) (room : offset_of ch + 512 ≤ length bytes) where
    slice_other :
        (c : ℕ)
        → 1 ≤ c
        → c ≤ 9
        → c ≢ ch
        → block_of a c ≡ block_of a ch
        → slice (offset_of c) 512 (splice bytes (offset_of ch) samples)
          ≡ slice (offset_of c) 512 bytes
    slice_other c l u ne same = elim (Bool-cases (ltb c ch)) [
      | inl below ↦
          slice-splice_before bytes (offset_of ch) (offset_of c) 512 samples (ground arith)
            (omega arith)
      | inr above ↦
          slice-splice_after bytes (offset_of ch) (offset_of c) 512 samples (ground arith)
            (omega arith)
    ]

    slice_same : slice (offset_of ch) 512 (splice bytes (offset_of ch) samples) ≡ samples
    slice_same =
        ap (λ (t : ℕ). slice (offset_of ch) t (splice bytes (offset_of ch) samples)) (sym n)
        ∙ slice-splice bytes (offset_of ch) samples (omega arith)

  module _ (h : Heap) (blocks : Blocks a h) where
    old : List ℕ
    old = (blocks (ch / 2) (omega arith)).0

    old-block : h.block (block_of a ch) ≡ some old
    unfolding old
    old-block = (blocks (ch / 2) (omega arith)).1

    old-length : length old ≡ block_size (ch / 2)
    unfolding old
    old-length = (blocks (ch / 2) (omega arith)).2

    old-room : offset_of ch + 512 ≤ length old
    old-room = ground (arith, old-length)

    pub written : Heap
    written = record h {
      block = update h.block (block_of a ch) (some (splice old (offset_of ch) samples));
    }

    pub copy_to-written : copy_to (some (block_of a ch)) (offset_of ch) samples h ≡ some written
    unfolding copy_to written
    copy_to-written = rw (old-block, copy_to) (ground (arith, old-room, n))

    pub written-samples :
        (c : ℕ)
        → 1 ≤ c
        → c ≤ 9
        → channel_samples a written c ≡ (if c == ch then some samples else channel_samples a h c)
    unfolding written
    written-samples c l u = elim (Bool-cases (c == ch)) [
      | inl same ↦
          let e : c ≡ ch = ground arith in
          rw (e, ==-self (block_of a ch), ==-self ch) (ap some (slice_same old old-room))
      | inr other ↦ elim (Bool-cases (block_of a c == block_of a ch)) [
        | inl shared ↦
            let e : block_of a c ≡ block_of a ch = ground arith in
            rw (other, e, old-block)
              (ground (arith, slice_other old old-room c l u (ground arith) e))
        | inr apart ↦ rw (other) (ground arith)
      ]
    ]

    pub written-Blocks : Blocks a written
    unfolding written
    written-Blocks i small = elim (Bool-cases (a + i == block_of a ch)) [
      | inl same ↦
          let e : i ≡ ch / 2 = ground arith in
          (
            splice old (offset_of ch) samples,
            ground arith,
            length-splice old (offset_of ch) samples (omega (arith, old-room, n))
                ∙ old-length
                ∙ ap block_size (sym e),
          )
      | inr apart ↦
          let (bytes, stored, size) = blocks i small in (bytes, ground (arith, stored), size)
    ]

mic_at :
    (a i : ℕ)
    → i < 4
    → get_or (some (a + 1) ∷ some (a + 2) ∷ some (a + 3) ∷ some (a + 4) ∷ []) i none
      ≡ some (a + suc i)
mic_at a zero h = refl
mic_at a (suc zero) h = refl
mic_at a (suc (suc zero)) h = refl
mic_at a (suc (suc (suc zero))) h = refl
mic_at a (suc (suc (suc (suc i)))) h = absurd (omega arith)

pub store_channel-copy :
    (a ch : ℕ) (samples : List ℕ) (dev : AudioDevice)
    → 1 ≤ ch
    → ch ≤ 9
    → HasBuffers a dev
    → store_channel ch samples dev ≡ copy_to (some (block_of a ch)) (offset_of ch) samples dev.heap
store_channel-copy a ch samples dev lo hi v = elim (Bool-cases (ch == 1)) [
  | inl one ↦
      let e : a ≡ a + ch / 2 = ground arith in
      rw one (ap (λ (p : Ptr). copy_to p 0 samples dev.heap) (v.cancelled ∙ ap some e))
  | inr mic ↦
      let l : leb 2 ch ≡ true = ground arith in
      let u : leb ch 9 ≡ true = ground arith in
      let k : a + suc ((ch - 2) / 2) ≡ a + ch / 2 = ground arith in
      let o : (if ch % 2 == 1 then 512 else 0) ≡ ch % 2 * 512 = ground arith in
      let p : get_or dev.audio.mic_buffer ((ch - 2) / 2) none ≡ some (a + ch / 2) =
        ap (λ (t : List Ptr). get_or t ((ch - 2) / 2) none) v.mics
        ∙ mic_at a ((ch - 2) / 2) (omega arith)
        ∙ ap some k in
      rw (mic, l, u) (λ i. copy_to (p i) (o i) samples dev.heap)
]
