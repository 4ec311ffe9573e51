-- ===== src/Context/Chain.antt =====
-- Linked lists of devices against lists of their addresses.
use soqv.Base.{
  ℕ, zero, suc, ◌<◌, ◌≡◌, ◌≢◌, refl, sym, ◌∙◌, none, some, List, [], ◌∷◌, ◌++◌, length, arith, ◌==◌,
  if◌then◌else◌,
}
use mathlib.Core.Path.{subst}
use soqv.Memory.{Ptr}
use soqv.Context.{set_next, last_device}

-- From `p` the links lead through exactly these devices.
abbrev pub Chain : (ℕ → Ptr) → Ptr → List ℕ → Type 0
Chain next p [] = p ≡ none
Chain next p (x ∷ xs) = (p ≡ some x) × Chain next (next x) xs

abbrev pub Absent : ℕ → List ℕ → Type 0
Absent a [] = Unit
Absent a (x ∷ xs) = (a ≢ x) × Absent a xs

abbrev pub Distinct : List ℕ → Type 0
Distinct [] = Unit
Distinct (x ∷ xs) = Absent x xs × Distinct xs

-- The list without a device.
abbrev pub erase : ℕ → List ℕ → List ℕ
erase a [] = []
erase a (x ∷ xs) = if x == a then xs else x ∷ erase a xs

abbrev pub last_of : ℕ → List ℕ → ℕ
last_of x [] = x
last_of x (y ∷ ys) = last_of y ys

pub set_next-ne : (next : ℕ → Ptr) (a b : ℕ) (p : Ptr) → a ≢ b → set_next next a p b ≡ next b
set_next-ne next a b p h = ground (arith, h)

pub set_next-same : (next : ℕ → Ptr) (a : ℕ) (p : Ptr) → set_next next a p a ≡ p
set_next-same next a p = ground arith

-- A link of a device that is not in the list does not matter.
pub Chain-frame :
    (next : ℕ → Ptr) (a : ℕ) (v p : Ptr) (xs : List ℕ)
    → Absent a xs
    → Chain next p xs
    → Chain (set_next next a v) p xs
Chain-frame next a v p [] h c = c
Chain-frame next a v p (x ∷ xs) (h, hs) (e, c) = (
  e,
  subst (λ t. Chain (set_next next a v) t xs) (sym (set_next-ne next a x v h))
      (Chain-frame next a v (next x) xs hs c),
)

last_of-ne : (w x : ℕ) (xs : List ℕ) → Absent w (x ∷ xs) → w ≢ last_of x xs
last_of-ne w x [] (h, hs) = h
last_of-ne w x (y ∷ ys) (h, hs) = last_of-ne w y ys hs

pub last_device_lem :
    (fuel : ℕ) (next : ℕ → Ptr) (x : ℕ) (xs : List ℕ)
    → length xs < fuel
    → Chain next (next x) xs
    → last_device fuel next x ≡ some (last_of x xs)
unfolding last_device
last_device_lem zero next x xs h c = absurd (omega arith)
last_device_lem (suc fuel) next x [] h c = rw (c, last_device) refl
last_device_lem (suc fuel) next x (y ∷ ys) h (e, c) =
    rw (e, last_device) (last_device_lem fuel next y ys (omega arith) c)

-- Hanging a device behind the last one.
pub Chain-snoc :
    (next : ℕ → Ptr) (a : ℕ) (p : Ptr) (x : ℕ) (xs : List ℕ)
    → Distinct (x ∷ xs)
    → Absent a (x ∷ xs)
    → next a ≡ none
    → p ≡ some x
    → Chain next (next x) xs
    → Chain (set_next next (last_of x xs) (some a)) p (x ∷ (xs ++ (a ∷ [])))
Chain-snoc next a p x [] d (ha, _) end e c =
    (e, (set_next-same next x (some a), set_next-ne next x a (some a) (λ h. ha (sym h)) ∙ end))
Chain-snoc next a p x (y ∷ ys) (dx, d) (ha, hs) end e (ey, c) =
    let l = last_of y ys in
    (
      e,
      Chain-snoc next a (set_next next l (some a) x) y ys d hs end
          (set_next-ne next l x (some a) (λ h. last_of-ne x y ys dx (sym h)) ∙ ey) c,
    )
