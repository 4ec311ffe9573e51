-- ===== src/Usb/Isoc/Count.antt =====
-- The transfers that libusb has, counted, and where their buffers lie.
use soqv.Base.{
  ℕ, zero, suc, ◌+◌, ◌≤◌, ◌≡◌, ◌≢◌, refl, ap, some, List, [], ◌∷◌, arith, get_elem?, set,
}
use soqv.Usb.Isoc.{Xfer, null_xfer, idle, pending}

abbrev pub weight : Xfer → ℕ
weight null_xfer = 0
weight (idle buf) = 0
weight (pending buf) = 1

abbrev pub pending_count : List Xfer → ℕ
pending_count [] = 0
pending_count (x ∷ xs) = weight x + pending_count xs

pub pending_count-set :
    (xs : List Xfer) (i : ℕ) (x y : Xfer)
    → get_elem? xs i ≡ some x
    → pending_count (set xs i y) + weight x ≡ pending_count xs + weight y
pending_count-set [] i x y e = absurd (ground arith)
pending_count-set (z ∷ xs) zero x y e =
    let same : z ≡ x = ground arith in omega (arith, ap weight same)
pending_count-set (z ∷ xs) (suc i) x y e = omega (arith, pending_count-set xs i x y e)

-- A write where there is an element is read back.
pub get_elem?-set_at :
    (xs : List Xfer) (i : ℕ) (y : Xfer) {x : Xfer}
    → get_elem? xs i ≡ some x
    → get_elem? (set xs i y) i ≡ some y
get_elem?-set_at [] i y e = absurd (ground arith)
get_elem?-set_at (z ∷ xs) zero y e = refl
get_elem?-set_at (z ∷ xs) (suc i) y e = get_elem?-set_at xs i y e

pub pending_count-none :
    (xs : List Xfer) → ((i buf : ℕ) → get_elem? xs i ≢ some (pending buf)) → pending_count xs ≡ 0
pending_count-none [] none_pending = refl
pending_count-none (null_xfer ∷ xs) h = omega (arith, pending_count-none xs (λ i. h (suc i)))
pending_count-none (idle buf ∷ xs) h = omega (arith, pending_count-none xs (λ i. h (suc i)))
pending_count-none (pending buf ∷ xs) h = absurd (h 0 buf refl)

-- The buffer of a transfer, of `size` bytes, lies within `total` bytes.
abbrev pub Fits : ℕ → ℕ → Xfer → Type 0
Fits size total null_xfer = Unit
Fits size total (idle buf) = buf + size ≤ total
Fits size total (pending buf) = buf + size ≤ total

abbrev pub AllFit : ℕ → ℕ → List Xfer → Type 0
AllFit size total [] = Unit
AllFit size total (x ∷ xs) = Fits size total x × AllFit size total xs

pub AllFit-at :
    (size total : ℕ) (xs : List Xfer) (i : ℕ) {x : Xfer}
    → AllFit size total xs
    → get_elem? xs i ≡ some x
    → Fits size total x
AllFit-at size total [] i all e = absurd (ground arith)
AllFit-at size total (z ∷ xs) zero {x} (fits, all) e =
    let same : z ≡ x = ground arith in rw same at fits
AllFit-at size total (z ∷ xs) (suc i) (fits, all) e = AllFit-at size total xs i all e

pub AllFit-set :
    (size total : ℕ) (xs : List Xfer) (i : ℕ) (y : Xfer)
    → AllFit size total xs
    → Fits size total y
    → AllFit size total (set xs i y)
AllFit-set size total [] i y all fits = tt
AllFit-set size total (z ∷ xs) zero y (f, all) fits = (fits, all)
AllFit-set size total (z ∷ xs) (suc i) y (f, all) fits = (f, AllFit-set size total xs i y all fits)
