-- ===== src/Audio/Ownership.antt =====
-- Who owns the buffers of audio while it runs, whatever packets arrive and whatever the client does.
use soqv.Base.{
  ℕ, zero, suc, ◌+◌, ◌-◌, ◌/◌, ◌%◌, ◌≤◌, ◌<◌, ◌≡◌, ◌⊎◌, refl, ap, ◌∙◌, inl, inr, true, false, ◌&&◌,
  Option, none, some, List, [], ◌∷◌, arith, leb, ◌==◌, if◌then◌else◌, length, get_or, set,
  Bool-cases,
}
use soqv.Memory.{Ptr, Heap, update, splice, copy_to}
use soqv.Audio.Client.{IsTame, is_handed, client-block, client-other}
use soqv.Audio.{
  AudioIn, AudioDevice, window_call, called, block_magic, block_channel, block_window,
  block_samples, change_window, store_channel, mark_seen, iso_in_callback,
}

-- The seven buffers of audio, at the addresses from `a` on; the rest of memory is that of `h₀`.
pub record OwnsBlocks (h₀ : Heap) (a : ℕ) (h : Heap) : Type 0 where
  pub held : (i : ℕ) → i < 7 → (bytes : List ℕ) × (h.block (a + i) ≡ some bytes)
  pub others : (b : ℕ) → (b < a) ⊎ (a + 7 ≤ b) → h.block b ≡ h₀.block b

pub record AudioOwns (h₀ : Heap) (a : ℕ) (dev : AudioDevice) : Type 0 where
  pub ring : dev.audio.audio_out_ring ≡ some a
  pub cancelled : dev.audio.cancelled_buffer ≡ some (a + 1)
  pub mics : dev.audio.mic_buffer ≡ some (a + 2) ∷ some (a + 3) ∷ some (a + 4) ∷ some (a + 5) ∷ []
  pub unknown : dev.audio.in_unknown ≡ some (a + 6)
  pub running : dev.audio.running ≡ true
  pub tame : IsTame dev.audio_in_cb
  pub blocks : OwnsBlocks h₀ a dev.heap

copy_to-Owns :
    {h₀ : Heap} (a i off : ℕ) (src : List ℕ) (h h' : Heap)
    → i < 7
    → copy_to (some (a + i)) off src h ≡ some h'
    → OwnsBlocks h₀ a h
    → OwnsBlocks h₀ a h'
unfolding copy_to
copy_to-Owns a i off src h h' small e v =
    let (dst, stored) = v.held i small in
    let r : (if leb (off + length src) (length dst)
          then some (record h { block = update h.block (a + i) (some (splice dst off src)) })
          else none)
        ≡ some h' =
      rw (stored, copy_to) at e in
    elim (Bool-cases (leb (off + length src) (length dst))) [
      | inl fits ↦ rw (← (written dst fits r)) (record {
        held = λ j m. elim (Bool-cases (a + i == a + j)) [
          | inl same ↦ (splice dst off src, rw same refl)
          | inr apart ↦ ((v.held j m).0, rw apart (v.held j m).1)
        ];
        others = λ b out. let ne : (a + i == b) ≡ false = ground arith in rw ne (v.others b out);
      })
      | inr over ↦ absurd (none_some (rw over at r))
    ]
  where
    written :
        (dst : List ℕ)
        → leb (off + length src) (length dst) ≡ true
        → (if leb (off + length src) (length dst)
            then some (record h { block = update h.block (a + i) (some (splice dst off src)) })
            else none)
          ≡ some h'
        → record h { block = update h.block (a + i) (some (splice dst off src)) } ≡ h'
    written dst fits r = ground arith

    none_some : ◌≡◌ {A = Option Heap} none (some h') → ⊥
    none_some q = ground arith

mic_at :
    (a i : ℕ)
    → i < 4
    → get_or (some (a + 2) ∷ some (a + 3) ∷ some (a + 4) ∷ some (a + 5) ∷ []) i none
      ≡ some (a + (i + 2))
mic_at a zero h = refl
mic_at a (suc zero) h = refl
mic_at a (suc (suc zero)) h = refl
mic_at a (suc (suc (suc zero))) h = refl
mic_at a (suc (suc (suc (suc i)))) h = absurd (omega arith)

module _ {h₀ : Heap} (a : ℕ) where
  not_handed :
      (dev : AudioDevice) (b : ℕ)
      → AudioOwns h₀ a dev
      → (b < a) ⊎ (a + 7 ≤ b)
      → is_handed (window_call dev) b ≡ false
  not_handed dev b v out = rw (v.cancelled, v.unknown, v.mics) (ground (arith, out))

  called-Owns :
      (cb : Option (AudioIn → Heap)) (dev : AudioDevice)
      → IsTame cb
      → AudioOwns h₀ a dev
      → AudioOwns h₀ a (called cb dev)
  called-Owns none dev t v = v
  called-Owns (some cb) dev t v = record {
    ring = v.ring;
    cancelled = v.cancelled;
    mics = v.mics;
    unknown = v.unknown;
    running = v.running;
    tame = v.tame;
    blocks = record {
      held = λ i small.
          let (xs, stored) = v.blocks.held i small in
          let (ys, stored', size) = client-block (some cb) dev (a + i) xs t stored in (ys, stored');
      others =
          λ b out. client-other (some cb) dev b t (not_handed dev b v out) ∙ v.blocks.others b out;
    };
  }

  change_window-Owns :
      (w : ℕ) (dev : AudioDevice) → AudioOwns h₀ a dev → AudioOwns h₀ a (change_window w dev)
  change_window-Owns w dev v = elim (Bool-cases (w == dev.audio.in_window)) [
    | inl same ↦ rw same v
    | inr other ↦
        let o = called-Owns dev.audio_in_cb dev v.tame v in
        rw other (record {
          ring = o.ring;
          cancelled = o.cancelled;
          mics = o.mics;
          unknown = o.unknown;
          running = o.running;
          tame = o.tame;
          blocks = o.blocks;
        })
  ]

  store_channel-Owns :
      (ch : ℕ) (src : List ℕ) (dev : AudioDevice) (h' : Heap)
      → store_channel ch src dev ≡ some h'
      → AudioOwns h₀ a dev
      → OwnsBlocks h₀ a h'
  store_channel-Owns ch src dev h' e v = elim (Bool-cases (ch == 1)) [
    | inl one ↦
        copy_to-Owns a 1 0 src dev.heap h' (omega arith) (rw (one, v.cancelled) at e) v.blocks
    | inr more ↦ elim (Bool-cases (leb 2 ch && leb ch 9)) [
      | inl mic ↦
          let small : (ch - 2) / 2 + 2 < 7 = ground arith in
          let p : get_or dev.audio.mic_buffer ((ch - 2) / 2) none ≡ some (a + ((ch - 2) / 2 + 2)) =
            ap (λ (t : List Ptr). get_or t ((ch - 2) / 2) none) v.mics
            ∙ mic_at a ((ch - 2) / 2) (ground arith) in
          copy_to-Owns a ((ch - 2) / 2 + 2) (if ch % 2 == 1 then 512 else 0) src dev.heap h' small
            (rw (more, mic, p) at e) v.blocks
      | inr bad ↦ rw (same_heap (rw (more, bad) at e)) at v.blocks
    ]
  ]
    where
      same_heap : ◌≡◌ {A = Option Heap} (some dev.heap) (some h') → dev.heap ≡ h'
      same_heap q = ground arith

  mark_seen-Owns :
      (ch w : ℕ) (dev dev' : AudioDevice) (o : Option Heap)
      → ((h' : Heap) → o ≡ some h' → OwnsBlocks h₀ a h')
      → mark_seen ch w dev o ≡ some dev'
      → AudioOwns h₀ a dev
      → AudioOwns h₀ a dev'
  mark_seen-Owns ch w dev dev' none k e v = absurd (ground arith)
  mark_seen-Owns ch w dev dev' (some h') k e v =
      elim (Bool-cases (leb 1 ch && leb ch (length dev.audio.last_seen_window))) [
        | inl inside ↦ rw (same_dev (rw inside at e)) at marked
        | inr outside ↦ absurd (none_some (rw outside at e))
      ]
    where
      next : AudioDevice
      next = record dev {
        heap = h';
        audio = record dev.audio { last_seen_window = set dev.audio.last_seen_window (ch - 1) w };
      }

      marked : AudioOwns h₀ a next
      marked = record {
        ring = v.ring;
        cancelled = v.cancelled;
        mics = v.mics;
        unknown = v.unknown;
        running = v.running;
        tame = v.tame;
        blocks = k h' refl;
      }

      same_dev : ◌≡◌ {A = Option AudioDevice} (some next) (some dev') → next ≡ dev'
      same_dev q = ground arith

      none_some : ◌≡◌ {A = Option AudioDevice} none (some dev') → ⊥
      none_some q = ground arith

  pub iso_in_callback-Owns :
      (pkt : List ℕ) (dev dev' : AudioDevice)
      → iso_in_callback pkt dev ≡ some dev'
      → AudioOwns h₀ a dev
      → AudioOwns h₀ a dev'
  unfolding iso_in_callback
  iso_in_callback-Owns pkt dev dev' e v = elim (Bool-cases (length pkt == 524)) [
    | inr other ↦ rw (same_dev (rw other at e)) at v
    | inl audio ↦ elim (Bool-cases (block_magic pkt == 0x80000080)) [
      | inr bad ↦ rw (same_dev (rw (audio, bad) at e)) at v
      | inl good ↦
          let w = block_window pkt in
          let d = change_window w dev in
          let o = change_window-Owns w dev v in
          mark_seen-Owns (block_channel pkt) w d dev'
            (store_channel (block_channel pkt) (block_samples pkt) d)
            (λ h' q. store_channel-Owns (block_channel pkt) (block_samples pkt) d h' q o)
            (rw (audio, good) at e) o
    ]
  ]
    where
      same_dev : ◌≡◌ {A = Option AudioDevice} (some dev) (some dev') → dev ≡ dev'
      same_dev q = ground arith
