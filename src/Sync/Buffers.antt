-- ===== src/Sync/Buffers.antt =====
-- The buffers of a ring, from their allocation to their release.
use soqv.Base.{
  ℕ, ◌+◌, ◌≤◌, ◌<◌, ◌≡◌, ◌≢◌, refl, ap, sym, ◌∙◌, inl, inr, true, false, ◌||◌, none, some, List,
  ◌==◌, arith, if◌then◌else◌, leb, length, Bool-cases,
}
use soqv.Base.Int.{ℤ, pos, negsuc}
use soqv.Memory.{Heap, malloc, tabulate, length-tabulate, freed, free-freed}
use soqv.Modes.{FrameMode, find_depth_mode, find_video_mode, depth_mm, video_ir_10bit_packed}
use soqv.Sync.{
  BufferRing, alloc_bufs, alloc_buffer_ring_depth, alloc_buffer_ring_video, free_buffer_ring,
}

-- A block of `sz` bytes that was none before.
pub record IsNewBlock (h h' : Heap) (sz a : ℕ) : Type 0 where
  pub fresh : h.block a ≡ none
  pub bytes : List ℕ
  pub stored : h'.block a ≡ some bytes
  pub size : length bytes ≡ sz

-- A ring with three different new blocks, without a frame; the rest of memory is as before.
pub record IsNewRing (h h' : Heap) (sz : ℕ) (fmt res : ℤ) (r : BufferRing) : Type 0 where
  pub a0 : ℕ
  pub a1 : ℕ
  pub a2 : ℕ
  pub at0 : r.buf0 ≡ some a0
  pub at1 : r.buf1 ≡ some a1
  pub at2 : r.buf2 ≡ some a2
  pub apart01 : a0 ≢ a1
  pub apart02 : a0 ≢ a2
  pub apart12 : a1 ≢ a2
  pub new0 : IsNewBlock h h' sz a0
  pub new1 : IsNewBlock h h' sz a1
  pub new2 : IsNewBlock h h' sz a2
  pub others : (b : ℕ) → b ≢ a0 → b ≢ a1 → b ≢ a2 → h'.block b ≡ h.block b
  pub empty : (r.valid ≡ false) × (r.timestamp ≡ 0)
  pub mode : (r.fmt ≡ fmt) × (r.res ≡ res)

alloc_bufs-IsNewRing :
    (sz : ℕ) (fmt res : ℤ) (h : Heap)
    → ((a : ℕ) → h.next ≤ a → h.block a ≡ none)
    → IsNewRing h (alloc_bufs sz fmt res h).1 sz fmt res (alloc_bufs sz fmt res h).0
unfolding alloc_bufs malloc
alloc_bufs-IsNewRing sz fmt res h fresh = record {
  a0 = h.next;
  a1 = h.next + 1;
  a2 = h.next + 1 + 1;
  at0 = refl;
  at1 = refl;
  at2 = refl;
  apart01 = λ e. absurd (omega arith);
  apart02 = λ e. absurd (omega arith);
  apart12 = λ e. absurd (omega arith);
  new0 = record {
    fresh = fresh h.next (omega arith);
    bytes = tabulate sz (h.garbage h.next);
    stored = ground arith;
    size = length-tabulate sz (h.garbage h.next);
  };
  new1 = record {
    fresh = fresh (h.next + 1) (omega arith);
    bytes = tabulate sz (h.garbage (h.next + 1));
    stored = ground arith;
    size = length-tabulate sz (h.garbage (h.next + 1));
  };
  new2 = record {
    fresh = fresh (h.next + 1 + 1) (omega arith);
    bytes = tabulate sz (h.garbage (h.next + 1 + 1));
    stored = ground arith;
    size = length-tabulate sz (h.garbage (h.next + 1 + 1));
  };
  others = λ b p q r. ground (arith, p, q, r);
  empty = (refl, refl);
  mode = (refl, refl);
}

-- A ring whose release succeeds, clears it, and leaves the blocks of `h`.
abbrev pub IsReleased : Heap → Heap → BufferRing → Type 0
IsReleased h h' r =
    (r' : BufferRing) × (h'' : Heap) × (free_buffer_ring r h' ≡ some (r', h''))
    × (r'.buf0 ≡ none)
    × (r'.buf1 ≡ none)
    × (r'.buf2 ≡ none)
    × (r'.valid ≡ false)
    × ((b : ℕ) → h''.block b ≡ h.block b)

IsNewRing-IsReleased :
    (h h' : Heap) (sz : ℕ) (fmt res : ℤ) (r : BufferRing)
    → IsNewRing h h' sz fmt res r
    → IsReleased h h' r
unfolding free_buffer_ring
IsNewRing-IsReleased h h' sz fmt res r n =
    let h₀ = freed n.a0 h' in
    let h₁ = freed n.a1 h₀ in
    let f0 = free-freed n.a0 r.buf0 h' n.new0.bytes n.at0 n.new0.stored in
    let s1 : h₀.block n.a1 ≡ some n.new1.bytes = ground (arith, n.apart01, n.new1.stored) in
    let f1 = free-freed n.a1 r.buf1 h₀ n.new1.bytes n.at1 s1 in
    let s2 : h₁.block n.a2 ≡ some n.new2.bytes =
      ground (arith, n.apart02, n.apart12, n.new2.stored) in
    let f2 = free-freed n.a2 r.buf2 h₁ n.new2.bytes n.at2 s2 in
    (
      record {
        buf0 = none;
        buf1 = none;
        buf2 = none;
        timestamp = 0;
        valid = false;
        fmt = negsuc 0;
        res = negsuc 0;
      },
      freed n.a2 h₁,
      rw (f0, free_buffer_ring, f1, f2) refl,
      refl,
      refl,
      refl,
      refl,
      restored,
    )
  where
    gone :
        (b a : ℕ)
        → a ≡ b
        → h.block a ≡ none
        → (n.a0 == b || (n.a1 == b || n.a2 == b)) ≡ true
        → (freed n.a2 (freed n.a1 (freed n.a0 h'))).block b ≡ h.block b
    gone b a e fresh one =
        let f : h.block b ≡ none = ap h.block (sym e) ∙ fresh in ground (arith, f, one)

    restored : (b : ℕ) → (freed n.a2 (freed n.a1 (freed n.a0 h'))).block b ≡ h.block b
    restored b = elim (Bool-cases (n.a0 == b)) [
      | inl at ↦
          let e : n.a0 ≡ b = ground (arith, at) in gone b n.a0 e n.new0.fresh (ground (arith, at))
      | inr off0 ↦ elim (Bool-cases (n.a1 == b)) [
        | inl at ↦
            let e : n.a1 ≡ b = ground (arith, at) in gone b n.a1 e n.new1.fresh (ground (arith, at))
        | inr off1 ↦ elim (Bool-cases (n.a2 == b)) [
          | inl at ↦
              let e : n.a2 ≡ b = ground (arith, at) in
              gone b n.a2 e n.new2.fresh (ground (arith, at))
          | inr off2 ↦
              rw (off0, off1, off2)
                (n.others b (λ e. absurd (ground (arith, e, off0)))
                  (λ e. absurd (ground (arith, e, off1))) (λ e. absurd (ground (arith, e, off2))))
        ]
      ]
    ]

-- An allocation for the modes up to `last`: a new ring that can be released, or nothing changed.
abbrev pub IsAllocation : ℕ → ℕ → ℕ → ℕ → BufferRing → Heap → ℤ × BufferRing × Heap → Type 0
IsAllocation last sz fmt res buf h (result, ring, h') =
    (fmt ≤ last
      → (result ≡ pos 0) × IsNewRing h h' sz (pos fmt) (pos res) ring × IsReleased h h' ring)
    × (last < fmt → (result ≡ negsuc 0) × (ring ≡ buf) × (h' ≡ h))

chosen-IsAllocation :
    (last sz fmt res : ℕ) (buf : BufferRing) (h : Heap) (new : BufferRing × Heap)
    → IsNewRing h new.1 sz (pos fmt) (pos res) new.0
    → IsAllocation last sz fmt res buf h
        (if leb fmt last then (pos 0, new.0, new.1) else (negsuc 0, buf, h))
chosen-IsAllocation last sz fmt res buf h new i = elim (Bool-cases (leb fmt last)) [
  | inl good ↦ rw good (
    (λ _. (refl, i, IsNewRing-IsReleased h new.1 sz (pos fmt) (pos res) new.0 i)),
    (λ l. absurd (ground (arith, l, good))),
  )
  | inr bad ↦ rw bad ((λ l. absurd (ground (arith, l, bad))), (λ _. (refl, refl, refl)))
]

-- Making the buffers of a ring for a known video or depth format returns 0 and gives three different
-- blocks that were none before, each of the size of a frame in the mode that is found for the
-- resolution and the format, in a ring without a frame; the rest of memory is as before, and
-- releasing the ring frees no block twice, clears it, and leaves memory with the blocks of before.
-- For another format the result is -1, and the ring and memory are as before. Memory has no block at
-- or above its next address.
pub alloc_buffer_ring-IsAllocation :
    (junk : FrameMode) (res fmt : ℕ) (buf : BufferRing) (h : Heap)
    → ((a : ℕ) → h.next ≤ a → h.block a ≡ none)
    → IsAllocation video_ir_10bit_packed
        (find_video_mode junk res fmt).bytes
        fmt
        res
        buf
        h
        (alloc_buffer_ring_video junk res fmt buf h)
      × IsAllocation depth_mm
          (find_depth_mode junk res fmt).bytes
          fmt
          res
          buf
          h
          (alloc_buffer_ring_depth junk res fmt buf h)
unfolding alloc_buffer_ring_video alloc_buffer_ring_depth
alloc_buffer_ring-IsAllocation junk res fmt buf h fresh =
    let video = (find_video_mode junk res fmt).bytes in
    let depth = (find_depth_mode junk res fmt).bytes in
    (
      chosen-IsAllocation video_ir_10bit_packed video fmt res buf h
          (alloc_bufs video (pos fmt) (pos res) h)
          (alloc_bufs-IsNewRing video (pos fmt) (pos res) h fresh),
      chosen-IsAllocation depth_mm depth fmt res buf h (alloc_bufs depth (pos fmt) (pos res) h)
          (alloc_bufs-IsNewRing depth (pos fmt) (pos res) h fresh),
    )
