-- ===== src/Base/Bits.antt =====
-- `|` of fields that do not overlap, and `&` with a mask of low bits, as sums and remainders.
use Prim.Native.Nat.{
  ℕ, zero, suc, ◌+◌, ◌-◌, ◌*◌, ◌/◌, ◌%◌, ◌^◌, ◌≤◌, ◌<◌, min, max, bit_and, bit_or, digits,
  bit_and-bitwise, bit_or-bitwise,
}
use mathlib.Core.Path.{◌≡◌, refl, ap, sym, ◌∙◌}
use native.Mathlib.Nat.{
  pow-suc, one-le-pow, mod-lt, mod-eq_of_lt, div-add-mod, mul-add-mod_self_left, div-div-eq-div-mul,
}
use native.Mathlib.Omega.{arith}
use mathlib.Core.Logic.{inl, inr}
use soqv.Base.Tests.{zero_or_pos}

-- Any count of digits that is at least the first number gives the same result.
module _ (rest : ℕ → ℕ) (digit : ℕ → ℕ → ℕ) where
  more_digits : (k l x y : ℕ) → x ≤ k → x ≤ l → digits rest digit k x y ≡ digits rest digit l x y
  more_digits zero zero x y hk hl = refl
  more_digits zero (suc l) zero y hk hl = refl
  more_digits (suc k) zero zero y hk hl = refl
  more_digits (suc k) (suc l) zero y hk hl = refl
  more_digits zero l (suc x) y hk hl = absurd (omega arith)
  more_digits (suc k) zero (suc x) y hk hl = absurd (omega arith)
  more_digits (suc k) (suc l) (suc x) y hk hl =
      ap (λ (t : ℕ). t * 2 + digit (suc x % 2) (y % 2))
        (more_digits k l (suc x / 2) (y / 2) (omega arith) (omega arith))

bit_or_last : (x y : ℕ) → bit_or x y ≡ bit_or (x / 2) (y / 2) * 2 + max (x % 2) (y % 2)
bit_or_last zero y = omega (arith, bit_or-bitwise zero y, bit_or-bitwise zero (y / 2))
bit_or_last (suc x) y = omega (
  arith,
  bit_or-bitwise (suc x) y,
  bit_or-bitwise (suc x / 2) (y / 2),
  more_digits (λ t. t) max x (suc x / 2) (suc x / 2) (y / 2) (omega arith) (omega arith),
)

bit_and_last : (x y : ℕ) → bit_and x y ≡ bit_and (x / 2) (y / 2) * 2 + min (x % 2) (y % 2)
bit_and_last zero y = omega (arith, bit_and-bitwise zero y, bit_and-bitwise zero (y / 2))
bit_and_last (suc x) y = omega (
  arith,
  bit_and-bitwise (suc x) y,
  bit_and-bitwise (suc x / 2) (y / 2),
  more_digits (λ t. 0) min x (suc x / 2) (suc x / 2) (y / 2) (omega arith) (omega arith),
)

bit_or_none : (k x : ℕ) → x ≤ k → bit_or x 0 ≡ x
bit_or_none k zero h = refl
bit_or_none zero (suc x) h = absurd (omega arith)
bit_or_none (suc k) (suc x) h =
    omega (arith, bit_or_last (suc x) 0, bit_or_none k (suc x / 2) (omega arith))

bit_and_none : (k x : ℕ) → x ≤ k → bit_and x 0 ≡ 0
bit_and_none k zero h = refl
bit_and_none zero (suc x) h = absurd (omega arith)
bit_and_none (suc k) (suc x) h =
    omega (arith, bit_and_last (suc x) 0, bit_and_none k (suc x / 2) (omega arith))

doubled : (x k : ℕ) → x * 2 ^ suc k ≡ x * 2 ^ k * 2
doubled x k = grind (arith, pow-suc 2 k)

-- `(x << k) | y` is a sum if `y` has at most `k` bits.
pub bit_or_shifted : (k x y : ℕ) → y < 2 ^ k → bit_or (x * 2 ^ k) y ≡ x * 2 ^ k + y
bit_or_shifted zero x y h =
    let none_left : y ≡ 0 = omega arith in rw none_left (omega (arith, bit_or_none (x * 1) (x * 1)))
bit_or_shifted (suc k) x y h =
    let half : x * 2 ^ suc k / 2 ≡ x * 2 ^ k = omega (arith, doubled x k) in
    let rest = bit_or_shifted k x (y / 2) (omega (arith, pow-suc 2 k)) in
    omega (
      arith,
      bit_or_last (x * 2 ^ suc k) y,
      doubled x k,
      ap (λ (t : ℕ). bit_or t (y / 2)) half,
      rest,
    )

pub mod_double : (x m : ℕ) → 0 < m → x % (m * 2) ≡ x / 2 % m * 2 + x % 2
mod_double x m h =
    let small : x / 2 % m * 2 + x % 2 < m * 2 = omega (arith, mod-lt (x / 2) h) in
    let whole : x ≡ m * 2 * (x / 2 / m) + (x / 2 % m * 2 + x % 2) =
      grind (arith, div-add-mod (x / 2) m, div-add-mod x 2) in
    ap (λ (t : ℕ). t % (m * 2)) whole
    ∙ mul-add-mod_self_left (m * 2) (x / 2 / m) (x / 2 % m * 2 + x % 2)
    ∙ mod-eq_of_lt small

-- `x & ((1 << k) - 1)` is the remainder by `2 ^ k`.
pub bit_and_mask : (k x : ℕ) → bit_and x (2 ^ k - 1) ≡ x % 2 ^ k
bit_and_mask zero x = omega (arith, bit_and_none x x)
bit_and_mask (suc k) x =
    let some_bit = one-le-pow k 2 (omega arith) in
    let half : (2 ^ suc k - 1) / 2 ≡ 2 ^ k - 1 = omega (arith, pow-suc 2 k, some_bit) in
    let last : (2 ^ suc k - 1) % 2 ≡ 1 = omega (arith, pow-suc 2 k, some_bit) in
    omega (
      arith,
      bit_and_last x (2 ^ suc k - 1),
      ap (λ (t : ℕ). bit_and (x / 2) t) half,
      last,
      bit_and_mask k (x / 2),
      ap (λ (t : ℕ). x % t) (pow-suc 2 k),
      mod_double x (2 ^ k) some_bit,
    )

pub pow_add : (k m : ℕ) → 2 ^ (k + m) ≡ 2 ^ k * 2 ^ m
pow_add zero m =
    let same : 0 + m ≡ m = omega arith in
    let once : 2 ^ m ≡ 2 ^ 0 * 2 ^ m = omega arith in ap (λ (t : ℕ). 2 ^ t) same ∙ once
pow_add (suc k) m =
    let next : suc k + m ≡ suc (k + m) = omega arith in
    let rest : 2 ^ suc (k + m) ≡ 2 ^ suc k * 2 ^ m =
      grind (arith, pow-suc 2 k, pow-suc 2 (k + m), pow_add k m) in
    ap (λ (t : ℕ). 2 ^ t) next ∙ rest

-- A mask of higher bits.
pub bit_and_high : (k m x : ℕ) → bit_and x (m * 2 ^ k) ≡ bit_and (x / 2 ^ k) m * 2 ^ k
bit_and_high zero m x =
    let whole : m * 1 ≡ m = omega arith in
    let same : x / 1 ≡ x = omega arith in
    ap (λ (t : ℕ). bit_and x t) whole ∙ omega (arith, ap (λ (t : ℕ). bit_and t m) same)
bit_and_high (suc k) m x =
    let half : m * 2 ^ suc k / 2 ≡ m * 2 ^ k = omega (arith, doubled m k) in
    let last : m * 2 ^ suc k % 2 ≡ 0 = omega (arith, doubled m k) in
    let power : 2 * 2 ^ k ≡ 2 ^ suc k = omega (arith, pow-suc 2 k) in
    let deep : x / 2 / 2 ^ k ≡ x / 2 ^ suc k =
      div-div-eq-div-mul x 2 (2 ^ k) ∙ ap (λ (t : ℕ). x / t) power in
    omega (
      arith,
      bit_and_last x (m * 2 ^ suc k),
      ap (λ (t : ℕ). bit_and (x / 2) t) half,
      last,
      bit_and_high k m (x / 2),
      ap (λ (t : ℕ). bit_and t m) deep,
      doubled (bit_and (x / 2 ^ suc k) m) k,
      ap (λ (t : ℕ). t * 2 ^ k) (ap (λ (t : ℕ). bit_and t m) deep),
    )

bit_or_empty : (x y : ℕ) → x + y ≡ 0 → bit_or x y ≡ 0
bit_or_empty x y h =
    let a : x ≡ 0 = omega (arith, h) in
    let b : y ≡ 0 = omega (arith, h) in ap (λ (t : ℕ). bit_or t y) a ∙ ap (λ (t : ℕ). bit_or 0 t) b

pub bit_or_comm : (k x y : ℕ) → x + y ≤ k → bit_or x y ≡ bit_or y x
bit_or_comm zero x y h = bit_or_empty x y (omega arith) ∙ sym (bit_or_empty y x (omega arith))
bit_or_comm (suc k) x y h = elim (zero_or_pos (x + y)) [
  | inl none_set ↦ bit_or_empty x y none_set ∙ sym (bit_or_empty y x (omega (arith, none_set)))
  | inr set ↦
      omega (arith, bit_or_last x y, bit_or_last y x, bit_or_comm k (x / 2) (y / 2) (omega arith))
]
