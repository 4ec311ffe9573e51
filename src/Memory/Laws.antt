-- ===== src/Memory/Laws.antt =====
-- What a write leaves in a block, and which blocks it leaves alone.
use soqv.Base.{
  ℕ, zero, suc, ◌+◌, ◌-◌, ◌≤◌, ◌≡◌, refl, sym, ap, ◌∙◌, none, some, List, [], ◌∷◌, ◌++◌, arith,
  length, take, drop, length-append, length-take, length-drop,
}
use soqv.Memory.Defs.{Ptr, Heap, update, tabulate, free, splice, copy_to}

pub length-tabulate : (n : ℕ) (f : ℕ → ℕ) → length (tabulate n f) ≡ n
length-tabulate zero f = refl
length-tabulate (suc n) f = ap suc (length-tabulate n (λ i. f (suc i)))

pub length-splice :
    (dst : List ℕ) (i : ℕ) (src : List ℕ)
    → i + length src ≤ length dst
    → length (splice dst i src) ≡ length dst
unfolding splice
length-splice dst i src h = omega (
  arith,
  length-append (take i dst) (src ++ drop (i + length src) dst),
  length-append src (drop (i + length src) dst),
  length-take i dst,
  length-drop (i + length src) dst,
)

-- `p` points to a block of at least `n` bytes.
pub record Holds (h : Heap) (p : Ptr) (n : ℕ) : Type 0 where
  pub addr : ℕ
  pub bytes : List ℕ
  pub points : p ≡ some addr
  pub stored : h.block addr ≡ some bytes
  pub room : n ≤ length bytes

-- A write inside the block succeeds, and leaves a block of the same length there.
pub copy_to-Holds :
    {h : Heap} {p : Ptr} {n : ℕ} (i : ℕ) (src : List ℕ)
    → Holds h p n
    → i + length src ≤ n
    → (h' : Heap) × (copy_to p i src h ≡ some h') × Holds h' p n
unfolding copy_to
copy_to-Holds {h} {p} {n} i src v fits = (
  record h { block = update h.block v.addr (some (splice v.bytes i src)) },
  ground (arith, v),
  record {
    addr = v.addr;
    bytes = splice v.bytes i src;
    points = v.points;
    stored = ground arith;
    room = let e = length-splice v.bytes i src (le v) in omega (arith, e, v.room);
  },
)
  where
    le : Holds h p n → i + length src ≤ length v.bytes
    le w = omega (arith, v.room)

-- The `n` bytes from index `i` on.
abbrev pub slice : ℕ → ℕ → List ℕ → List ℕ
slice i n xs = take n (drop i xs)

take_all : (xs ys : List ℕ) → take (length xs) (xs ++ ys) ≡ xs
take_all [] ys = refl
take_all (x ∷ xs) ys = ap (λ (t : List ℕ). x ∷ t) (take_all xs ys)

drop_all : (xs ys : List ℕ) (k : ℕ) → drop (length xs + k) (xs ++ ys) ≡ drop k ys
drop_all [] ys k = let e : 0 + k ≡ k = omega arith in ap (λ (t : ℕ). drop t ys) e
drop_all (x ∷ xs) ys k =
    let e : length (x ∷ xs) + k ≡ suc (length xs + k) = omega arith in
    ap (λ (t : ℕ). drop t (x ∷ (xs ++ ys))) e ∙ drop_all xs ys k

drop-drop : (i j : ℕ) (xs : List ℕ) → drop j (drop i xs) ≡ drop (i + j) xs
drop-drop zero j xs = let e : j ≡ 0 + j = omega arith in ap (λ (t : ℕ). drop t xs) e
drop-drop (suc i) j [] = drop_nil j ∙ sym (drop_nil (suc i + j))
  where
    drop_nil : (k : ℕ) → ◌≡◌ {A = List ℕ} (drop k []) []
    drop_nil zero = refl
    drop_nil (suc k) = refl
drop-drop (suc i) j (x ∷ xs) =
    let e : suc (i + j) ≡ suc i + j = omega arith in
    drop-drop i j xs ∙ ap (λ (t : ℕ). drop t (x ∷ xs)) e

-- What was written is read back.
pub slice-splice :
    (dst : List ℕ) (i : ℕ) (src : List ℕ)
    → i ≤ length dst
    → slice i (length src) (splice dst i src) ≡ src
unfolding splice
slice-splice dst zero src h = take_all src (drop (0 + length src) dst)
slice-splice [] (suc i) src h = elim h [ ]
slice-splice (d ∷ dst) (suc i) src h =
    let e : suc i + length src ≡ suc (i + length src) = omega arith in
    ap (λ (t : ℕ). slice i (length src) (take i dst ++ (src ++ drop t (d ∷ dst)))) e
    ∙ slice-splice dst i src (omega arith)

-- A write leaves alone what lies before it,
pub slice-splice_before :
    (dst : List ℕ) (i j n : ℕ) (src : List ℕ)
    → j + n ≤ i
    → i ≤ length dst
    → slice j n (splice dst i src) ≡ slice j n dst
unfolding splice
slice-splice_before dst i zero zero src h fits = refl
slice-splice_before dst zero zero (suc n) src h fits = absurd (omega arith)
slice-splice_before [] (suc i) zero (suc n) src h fits = absurd (omega arith)
slice-splice_before (d ∷ dst) (suc i) zero (suc n) src h fits =
    let e : suc i + length src ≡ suc (i + length src) = omega arith in
    ap (λ (t : ℕ). d ∷ take n (take i dst ++ (src ++ drop t (d ∷ dst)))) e
    ∙ ap (λ (t : List ℕ). d ∷ t) (slice-splice_before dst i zero n src (omega arith) (omega arith))
slice-splice_before dst zero (suc j) n src h fits = absurd (omega arith)
slice-splice_before [] (suc i) (suc j) n src h fits = absurd (omega arith)
slice-splice_before (d ∷ dst) (suc i) (suc j) n src h fits =
    let e : suc i + length src ≡ suc (i + length src) = omega arith in
    ap (λ (t : ℕ). slice j n (take i dst ++ (src ++ drop t (d ∷ dst)))) e
    ∙ slice-splice_before dst i j n src (omega arith) (omega arith)

-- and what lies after it.
pub slice-splice_after :
    (dst : List ℕ) (i j n : ℕ) (src : List ℕ)
    → i + length src ≤ j
    → i ≤ length dst
    → slice j n (splice dst i src) ≡ slice j n dst
unfolding splice
slice-splice_after dst zero j n src h fits =
    let k : length src + (j - length src) ≡ j = omega arith in
    let e : 0 + length src + (j - length src) ≡ j = omega arith in
    ap (take n) (
      ap (λ (t : ℕ). drop t (src ++ drop (0 + length src) dst)) (sym k)
      ∙ drop_all src (drop (0 + length src) dst) (j - length src)
      ∙ drop-drop (0 + length src) (j - length src) dst
      ∙ ap (λ (t : ℕ). drop t dst) e)
slice-splice_after [] (suc i) j n src h fits = absurd (omega arith)
slice-splice_after (d ∷ dst) (suc i) zero n src h fits = absurd (omega arith)
slice-splice_after (d ∷ dst) (suc i) (suc j) n src h fits =
    let e : suc i + length src ≡ suc (i + length src) = omega arith in
    ap (λ (t : ℕ). slice j n (take i dst ++ (src ++ drop t (d ∷ dst)))) e
    ∙ slice-splice_after dst i j n src (omega arith) (omega arith)

abbrev pub freed : ℕ → Heap → Heap
freed a h = record h { block = update h.block a none }

pub free-freed :
    (a : ℕ) (p : Ptr) (h : Heap) (bytes : List ℕ)
    → p ≡ some a
    → h.block a ≡ some bytes
    → free p h ≡ some (freed a h)
unfolding free
free-freed a p h bytes e s = rw (e, free, s) refl
