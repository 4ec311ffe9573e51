-- ===== src/Context/Search.antt =====
-- The search of `freenect_close_device` from a device of the list on.
use soqv.Base.{
  ℕ, zero, suc, ◌<◌, ◌≡◌, ◌≢◌, refl, sym, ap, ◌∙◌, inl, inr, Bool, true, false, Bool-cases, none,
  some, List, [], ◌∷◌, length, arith, ◌==◌, if◌then◌else◌,
}
use mathlib.Core.Path.{subst}
use soqv.Memory.{Ptr}
use soqv.Context.{set_next, find_device}
use soqv.Context.Chain.{Chain, Absent, Distinct, erase, Chain-frame, set_next-ne, set_next-same}

-- Is a device in a list.
abbrev pub member : ℕ → List ℕ → Bool
member a [] = false
member a (x ∷ xs) = if x == a then true else member a xs

-- What a search from a device `x` that is not sought finds behind it.
pub data Search (fuel : ℕ) (next : ℕ → Ptr) (dev x : ℕ) (xs : List ℕ) : Type 0 where
  found :
      (l : ℕ)
      → find_device fuel next dev (some x) (next x) ≡ some (some l, some dev)
      → Chain (set_next next l (next dev)) (some x) (x ∷ erase dev xs)
      → ((w : ℕ) → Absent w (x ∷ xs) → w ≢ l)
      → member dev xs ≡ true
      → Search fuel next dev x xs
  missing :
      (last : Ptr)
      → find_device fuel next dev (some x) (next x) ≡ some (last, none)
      → erase dev xs ≡ xs
      → member dev xs ≡ false
      → Search fuel next dev x xs

Search-here :
    (fuel : ℕ) (next : ℕ → Ptr) (dev x : ℕ) (ys : List ℕ)
    → Absent x (dev ∷ ys)
    → next x ≡ some dev
    → Chain next (next dev) ys
    → Search (suc fuel) next dev x (dev ∷ ys)
unfolding find_device
Search-here fuel next dev x ys (hd, hs) e c =
    found x (rw (e, same_dev, find_device) refl)
      (
        refl,
        rw erased (
            subst (λ (t : Ptr). Chain (set_next next x (next dev)) t ys)
              (sym (set_next-same next x (next dev)))
              (Chain-frame next x (next dev) (next dev) ys hs c)),
      )
      (λ w h. h.0) (rw same_dev refl)
  where
    same_dev : (dev == dev) ≡ true
    same_dev = ground arith

    erased : erase dev (dev ∷ ys) ≡ ys
    erased = rw same_dev refl

Search-past :
    (fuel : ℕ) (next : ℕ → Ptr) (dev x y : ℕ) (ys : List ℕ)
    → Absent x (y ∷ ys)
    → next x ≡ some y
    → (y == dev) ≡ false
    → Search fuel next dev y ys
    → Search (suc fuel) next dev x (y ∷ ys)
unfolding find_device
Search-past fuel next dev x y ys dx e other (found l f ch ne m) =
    let v = next dev in
    let at_x : set_next next l v x ≡ some y = set_next-ne next l x v (λ h. ne x dx (sym h)) ∙ e in
    found l (rw (e, other, find_device) f)
      (
        refl,
        rw other
            (subst (λ (t : Ptr). Chain (set_next next l v) t (y ∷ erase dev ys)) (sym at_x) ch),
      )
      (λ w h. ne w h.1) (rw other m)
Search-past fuel next dev x y ys dx e other (missing last f er m) =
    missing last (rw (e, other, find_device) f) (rw other (ap (λ (t : List ℕ). y ∷ t) er))
      (rw other m)

pub find-Search :
    (fuel : ℕ) (next : ℕ → Ptr) (dev x : ℕ) (xs : List ℕ)
    → length xs < fuel
    → Distinct (x ∷ xs)
    → Chain next (next x) xs
    → Search fuel next dev x xs
unfolding find_device
find-Search zero next dev x xs h d c = absurd (omega arith)
find-Search (suc fuel) next dev x [] h d c = missing (some x) (rw (c, find_device) refl) refl refl
find-Search (suc fuel) next dev x (y ∷ ys) h (dx, d) (e, c) = elim (Bool-cases (y == dev)) [
  | inl same ↦
      let dev' : y ≡ dev = ground (arith, same) in
      subst (λ (t : ℕ). Search (suc fuel) next t x (y ∷ ys)) dev'
        (Search-here fuel next y x ys dx e c)
  | inr other ↦
      Search-past fuel next dev x y ys dx e other (find-Search fuel next dev y ys (omega arith) d c)
]
