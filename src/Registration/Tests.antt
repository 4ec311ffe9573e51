-- ===== src/Registration/Tests.antt =====
-- Three pixels, two of which land at the same place.
use soqv.Base.{ℕ, ◌+◌, ◌≤◌, ◌≡◌, ◌≢◌, ◌⊎◌, refl, some, List, [], ◌∷◌, arith, if◌then◌else◌, ◌==◌}
use mathlib.Core.Option
use soqv.Base.Int.{pos, negsuc, ◌+ℤ◌}
use soqv.Registration.{
  Registration, lands, register_from, apply_registration_unpacked, apply_depth_unpacked_to_mm,
}
use soqv.Registration.Nearest.{IsWithin, Hits, apply_registration-nearest}

-- The depths are the raw values; each pixel is moved by a column for each 100 millimetres.
abbrev tables : Registration
tables = record {
  raw_to_mm_shift = λ raw. raw;
  depth_to_rgb_shift = λ d. if d == 300 then pos 256 else if d == 200 then pos 512 else negsuc 1023;
  registration_table = λ i. (pos (i + i + i + i + i + i + i + i), pos 0);
  start_lines = 0;
}

abbrev raws : List ℕ
raws = 300 ∷ 0 ∷ 400 ∷ 200 ∷ []

-- The depth 300 lands in the column 1; 200 in the column 2; 400 is outside.
places :
    Option.map
      (λ (out : ℕ → ℕ). out 0 ∷ out 1 ∷ out 2 ∷ [])
      (apply_registration_unpacked tables raws)
    ≡ some (0 ∷ 300 ∷ 200 ∷ [])
unfolding apply_registration_unpacked register_from lands ◌+ℤ◌
places = refl

-- A depth that is too great is 10000.
clamped :
    apply_depth_unpacked_to_mm
      (record tables { raw_to_mm_shift = λ raw. raw + 9000 })
      (3 ∷ 1500 ∷ [])
    ≡ some (9003 ∷ 10000 ∷ [])
unfolding apply_depth_unpacked_to_mm
clamped = refl

raws-IsWithin : IsWithin tables 0 raws
unfolding soqv.Registration.Nearest.IsWithin lands ◌+ℤ◌
raws-IsWithin = (
  omega arith,
  λ j e. ground (arith, e),
  (
    omega arith,
    λ j e. ground (arith, e),
    (omega arith, λ j e. ground (arith, e), (omega arith, λ j e. ground (arith, e), tt)),
  ),
)

apply_registration-nearest_example :
    (out : ℕ → ℕ) × (apply_registration_unpacked tables raws ≡ some out)
    × ((j : ℕ) → (out j ≡ 0) ⊎ Hits tables 0 raws j (out j))
    × ((j d : ℕ) → Hits tables 0 raws j d → (out j ≢ 0) × (out j ≤ d))
apply_registration-nearest_example = apply_registration-nearest tables raws raws-IsWithin
