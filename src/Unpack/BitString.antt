-- ===== src/Unpack/BitString.antt =====
-- Numbers and arrays as strings of bits, the high bit first.
use soqv.Base.{
  append_inj, ℕ, zero, suc, ◌+◌, ◌*◌, ◌/◌, ◌%◌, ◌^◌, ◌≤◌, ◌<◌, ◌≡◌, refl, sym, ap, ◌∙◌, List, [],
  ◌∷◌, ◌++◌, arith, length, length-append, bit_or, u32, ◌<<<◌,
}
use mathlib.Core.List.{append_assoc, append-nil}
use native.Mathlib.Nat.{pow-suc, one-le-pow, div-div-eq-div-mul}
use soqv.Base.Bits.{mod_double, bit_or_shifted}

-- The `k` low bits of a number.
unfoldable pub bits : ℕ → ℕ → List ℕ
bits zero x = []
bits (suc k) x = bits k (x / 2) ++ (x % 2 ∷ [])

-- The bits of the elements of an array, `k` for each.
unfoldable pub bit_string : ℕ → List ℕ → List ℕ
bit_string k [] = []
bit_string k (x ∷ xs) = bits k x ++ bit_string k xs

-- Every element is below a bound.
abbrev pub Below : ℕ → List ℕ → Type 0
Below m [] = Unit
Below m (x ∷ xs) = (x < m) × Below m xs

pub bits-split : (k m x : ℕ) → bits (k + m) x ≡ bits k (x / 2 ^ m) ++ bits m x
unfolding bits
bits-split k zero x =
    let nothing : k + 0 ≡ k = omega arith in
    let whole : x ≡ x / 2 ^ 0 = omega arith in
    ap (λ (t : ℕ). bits t x) nothing
    ∙ ap (λ (t : ℕ). bits k t) whole
    ∙ sym (append-nil (bits k (x / 2 ^ 0)))
bits-split k (suc m) x =
    let halves : x / 2 / 2 ^ m ≡ x / 2 ^ suc m =
      div-div-eq-div-mul x 2 (2 ^ m) ∙ ap (λ (t : ℕ). x / t) (grind (arith, pow-suc 2 m)) in
    let next : k + suc m ≡ suc (k + m) = omega arith in
    ap (λ (t : ℕ). bits t x) next
    ∙ ap (λ (t : List ℕ). t ++ (x % 2 ∷ [])) (bits-split k m (x / 2))
    ∙ append_assoc (bits k (x / 2 / 2 ^ m)) (bits m (x / 2)) (x % 2 ∷ [])
    ∙ ap (λ (t : ℕ). bits k t ++ (bits m (x / 2) ++ (x % 2 ∷ []))) halves

-- The low bits of a remainder by a larger power of two are those of the number.
pub bits-mod : (k m x : ℕ) → k ≤ m → bits k (x % 2 ^ m) ≡ bits k x
unfolding bits
bits-mod zero m x h = refl
bits-mod (suc k) zero x h = absurd (omega arith)
bits-mod (suc k) (suc m) x h =
    let both = mod_double x (2 ^ m) (one-le-pow m 2 (omega arith)) in
    let wide : x % 2 ^ suc m ≡ x / 2 % 2 ^ m * 2 + x % 2 =
      ap (λ (t : ℕ). x % t) (pow-suc 2 m) ∙ both in
    let half : x % 2 ^ suc m / 2 ≡ x / 2 % 2 ^ m = omega (arith, wide) in
    let last : x % 2 ^ suc m % 2 ≡ x % 2 = omega (arith, wide) in
    ap (λ (t : ℕ). bits k t ++ (x % 2 ^ suc m % 2 ∷ [])) half
    ∙ ap (λ (t : ℕ). bits k (x / 2 % 2 ^ m) ++ (t ∷ [])) last
    ∙ ap (λ (t : List ℕ). t ++ (x % 2 ∷ [])) (bits-mod k m (x / 2) (omega arith))

pub length-bits : (k x : ℕ) → length (bits k x) ≡ k
unfolding bits
length-bits zero x = refl
length-bits (suc k) x =
    omega (arith, length-append (bits k (x / 2)) (x % 2 ∷ []), length-bits k (x / 2))

pub length-bit_string : (k : ℕ) (xs : List ℕ) → length (bit_string k xs) ≡ k * length xs
unfolding bit_string
length-bit_string k [] = omega arith
length-bit_string k (x ∷ xs) =
    grind
      (arith, length-append (bits k x) (bit_string k xs), length-bits k x, length-bit_string k xs)

pub bit_string-append :
    (k : ℕ) (xs ys : List ℕ) → bit_string k (xs ++ ys) ≡ bit_string k xs ++ bit_string k ys
unfolding bit_string
bit_string-append k [] ys = refl
bit_string-append k (x ∷ xs) ys =
    ap (λ (t : List ℕ). bits k x ++ t) (bit_string-append k xs ys)
    ∙ sym (append_assoc (bits k x) (bit_string k xs) (bit_string k ys))

-- A byte shifted into a buffer of at most 24 bits puts its bits behind those of the buffer.
pub bits-shifted :
    (k x b : ℕ)
    → k ≤ 24
    → b < 2 ^ 8
    → bits (k + 8) (bit_or (u32 (x <<< 8)) b) ≡ bits k x ++ bits 8 b
bits-shifted k x b hk hb =
    let room : u32 (x <<< 8) ≡ (x % 2 ^ 24) * 2 ^ 8 = omega arith in
    let sum : bit_or (u32 (x <<< 8)) b ≡ (x % 2 ^ 24) * 2 ^ 8 + b =
      ap (λ (t : ℕ). bit_or t b) room ∙ bit_or_shifted 8 (x % 2 ^ 24) b hb in
    let high : bit_or (u32 (x <<< 8)) b / 2 ^ 8 ≡ x % 2 ^ 24 = omega (arith, sum) in
    let byte : bit_or (u32 (x <<< 8)) b % 2 ^ 8 ≡ b = omega (arith, sum) in
    let low : bits 8 (bit_or (u32 (x <<< 8)) b) ≡ bits 8 b =
      sym (bits-mod 8 8 (bit_or (u32 (x <<< 8)) b) (omega arith)) ∙ ap (λ (t : ℕ). bits 8 t) byte in
    bits-split k 8 (bit_or (u32 (x <<< 8)) b)
    ∙ ap (λ (t : ℕ). bits k t ++ bits 8 (bit_or (u32 (x <<< 8)) b)) high
    ∙ ap (λ (t : List ℕ). bits k (x % 2 ^ 24) ++ t) low
    ∙ ap (λ (t : List ℕ). t ++ bits 8 b) (bits-mod k 24 x hk)

halve_more : (x m : ℕ) → x / 2 ^ suc m ≡ x / 2 / 2 ^ m
halve_more x m =
    ap (λ (t : ℕ). x / t) (grind (arith, pow-suc 2 m)) ∙ sym (div-div-eq-div-mul x 2 (2 ^ m))

-- The high 8 bits of `m + 8` low bits.
pub high_byte : (m x : ℕ) → x % 2 ^ (8 + m) / 2 ^ m ≡ x / 2 ^ m % 2 ^ 8
high_byte zero x = omega arith
high_byte (suc m) x =
    let more : 8 + suc m ≡ suc (8 + m) = omega arith in
    let both = mod_double x (2 ^ (8 + m)) (one-le-pow (8 + m) 2 (omega arith)) in
    let wide : x % 2 ^ (8 + suc m) ≡ x / 2 % 2 ^ (8 + m) * 2 + x % 2 =
      ap (λ (t : ℕ). x % 2 ^ t) more ∙ ap (λ (t : ℕ). x % t) (pow-suc 2 (8 + m)) ∙ both in
    let half : x % 2 ^ (8 + suc m) / 2 ≡ x / 2 % 2 ^ (8 + m) = omega (arith, wide) in
    halve_more (x % 2 ^ (8 + suc m)) m
    ∙ ap (λ (t : ℕ). t / 2 ^ m) half
    ∙ high_byte m (x / 2)
    ∙ ap (λ (t : ℕ). t % 2 ^ 8) (sym (halve_more x m))

-- The number that a string of bits writes, after the digits of `a`.
abbrev number : List ℕ → ℕ → ℕ
number [] a = a
number (b ∷ bs) a = number bs (a * 2 + b)

number-append : (xs ys : List ℕ) (a : ℕ) → number (xs ++ ys) a ≡ number ys (number xs a)
number-append [] ys a = refl
number-append (x ∷ xs) ys a = number-append xs ys (a * 2 + x)

number-bits : (k x : ℕ) → x < 2 ^ k → number (bits k x) 0 ≡ x
unfolding bits
number-bits zero x h = omega arith
number-bits (suc k) x h = omega (
  arith,
  number-append (bits k (x / 2)) (x % 2 ∷ []) 0,
  number-bits k (x / 2) (omega (arith, pow-suc 2 k)),
)

-- Arrays of as many small elements that start the same string are the same.
pub bit_string_inj :
    (k : ℕ) (xs ys us bs : List ℕ)
    → length xs ≡ length ys
    → Below (2 ^ k) xs
    → Below (2 ^ k) ys
    → bit_string k xs ++ us ≡ bit_string k ys ++ bs
    → xs ≡ ys
unfolding bit_string
bit_string_inj k [] [] us bs n hx hy e = refl
bit_string_inj k [] (y ∷ ys) us bs n hx hy e = absurd (omega arith)
bit_string_inj k (x ∷ xs) [] us bs n hx hy e = absurd (omega arith)
bit_string_inj k (x ∷ xs) (y ∷ ys) us bs n (hx, hxs) (hy, hys) e =
    let (same, rest) = append_inj (bits k x) (bits k y) (length-bits k x ∙ sym (length-bits k y)) (
      sym (append_assoc (bits k x) (bit_string k xs) us)
      ∙ e
      ∙ append_assoc (bits k y) (bit_string k ys) bs) in
    let first : x ≡ y =
      sym (number-bits k x hx) ∙ ap (λ (t : List ℕ). number t 0) same ∙ number-bits k y hy in
    ap (λ (t : ℕ). t ∷ xs) first
    ∙ ap (λ (t : List ℕ). y ∷ t) (bit_string_inj k xs ys us bs (omega arith) hxs hys rest)

pub Below-append : (m : ℕ) (xs ys : List ℕ) → Below m xs → Below m ys → Below m (xs ++ ys)
Below-append m [] ys hx hy = hy
Below-append m (x ∷ xs) ys (h, hx) hy = (h, Below-append m xs ys hx hy)
