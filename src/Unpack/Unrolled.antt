-- ===== src/Unpack/Unrolled.antt =====
-- The loop-unrolled 11-bit unpacker, by the bits of its blocks of 11 bytes.
use soqv.Base.{
  length-append, ℕ, zero, suc, ◌+◌, ◌*◌, ◌/◌, ◌%◌, ◌^◌, ◌≤◌, ◌<◌, ◌≡◌, refl, sym, ap, ◌∙◌, List, [],
  ◌∷◌, ◌++◌, arith, length, some, bit_or, bit_and, ◌<<<◌, ◌>>>◌,
}
use mathlib.Core.Option
use mathlib.Core.List.{append_assoc}
use soqv.Base.Bits.{bit_or_shifted, bit_and_mask, pow_add}
use native.Mathlib.Nat.{
  one-le-pow, mul_assoc, add-mul, add-mul-div_left, add-mul-mod_self_left, div-eq_of_lt,
}
use soqv.Unpack.{
  unpack_8_pixels, unroll, convert_packed11_to_16bit, convert_packed_to_16bit, base_mask,
}
use soqv.Unpack.Generic.{Unpacked, convert_packed_to_16bit-Unpacked}
use soqv.Unpack.BitString.{
  bit_string_inj, Below-append, bit_string-append, bits, bit_string, Below, bits-split, bits-mod,
}

-- Fields that stand side by side.
bits-fields : (k m x y : ℕ) → y < 2 ^ m → bits (k + m) (bit_or (x <<< m) y) ≡ bits k x ++ bits m y
bits-fields k m x y h =
    let pos = one-le-pow m 2 (omega arith) in
    let sum : bit_or (x <<< m) y ≡ y + 2 ^ m * x = grind (arith, bit_or_shifted m x y h) in
    let high : (y + 2 ^ m * x) / 2 ^ m ≡ x =
      omega (arith, add-mul-div_left y x pos, div-eq_of_lt h) in
    let low : (y + 2 ^ m * x) % 2 ^ m ≡ y % 2 ^ m = add-mul-mod_self_left y (2 ^ m) x in
    ap (bits (k + m)) sum
    ∙ bits-split k m (y + 2 ^ m * x)
    ∙ ap (λ (t : ℕ). bits k t ++ bits m (y + 2 ^ m * x)) high
    ∙ ap (λ (t : List ℕ). bits k x ++ t)
        (sym (bits-mod m m (y + 2 ^ m * x) (omega arith))
          ∙ ap (bits m) low
          ∙ bits-mod m m y (omega arith))

two_fields :
    (k m x y : ℕ)
    → k + m ≡ 11
    → y < 2 ^ m
    → bits 11 (bit_and (bit_or (x <<< m) y) base_mask) ≡ bits k x ++ bits m y
two_fields k m x y e h =
    ap (bits 11) (bit_and_mask 11 (bit_or (x <<< m) y))
    ∙ bits-mod 11 11 (bit_or (x <<< m) y) (omega arith)
    ∙ ap (λ (t : ℕ). bits t (bit_or (x <<< m) y)) (sym e)
    ∙ bits-fields k m x y h

three_fields :
    (k m x y z : ℕ)
    → k + 8 + m ≡ 11
    → y < 2 ^ 8
    → z < 2 ^ m
    → bits 11 (bit_and (bit_or (bit_or (x <<< (8 + m)) (y <<< m)) z) base_mask)
      ≡ bits k x ++ (bits 8 y ++ bits m z)
three_fields k m x y z e hy hz =
    let inside : y <<< m < 2 ^ (8 + m) = grind (arith, pow_add 8 m, one-le-pow m 2 (omega arith)) in
    let flat : x * 2 ^ (8 + m) ≡ x * 2 ^ 8 * 2 ^ m =
      ap (λ (t : ℕ). x * t) (pow_add 8 m) ∙ sym (mul_assoc x (2 ^ 8) (2 ^ m)) in
    let both : x * 2 ^ 8 * 2 ^ m + y * 2 ^ m ≡ (x * 2 ^ 8 + y) * 2 ^ m =
      sym (add-mul (x * 2 ^ 8) y (2 ^ m)) in
    let pair : bit_or (x <<< (8 + m)) (y <<< m) ≡ bit_or (x <<< 8) y <<< m =
      bit_or_shifted (8 + m) x (y <<< m) inside
      ∙ ap (λ (t : ℕ). t + y * 2 ^ m) flat
      ∙ both
      ∙ ap (λ (t : ℕ). t * 2 ^ m) (sym (bit_or_shifted 8 x y hy)) in
    ap (λ (t : ℕ). bits 11 (bit_and (bit_or t z) base_mask)) pair
    ∙ two_fields (k + 8) m (bit_or (x <<< 8) y) z e hz
    ∙ ap (λ (t : List ℕ). t ++ bits m z) (bits-fields k 8 x y hy)
    ∙ append_assoc (bits k x) (bits 8 y) (bits m z)

-- The first and the last bits of a byte.
byte_split : (k m x : ℕ) → k + m ≡ 8 → bits 8 x ≡ bits k (x / 2 ^ m) ++ bits m x
byte_split k m x e = ap (λ (t : ℕ). bits t x) (sym e) ∙ bits-split k m x

pixels :
    (r0 r1 r2 r3 r4 r5 r6 r7 r8 r9 r10 : ℕ)
    → Below (2 ^ 8) (r0 ∷ r1 ∷ r2 ∷ r3 ∷ r4 ∷ r5 ∷ r6 ∷ r7 ∷ r8 ∷ r9 ∷ r10 ∷ [])
    → bit_string 11 (unpack_8_pixels r0 r1 r2 r3 r4 r5 r6 r7 r8 r9 r10)
      ≡ bit_string 8 (r0 ∷ r1 ∷ r2 ∷ r3 ∷ r4 ∷ r5 ∷ r6 ∷ r7 ∷ r8 ∷ r9 ∷ r10 ∷ [])
unfolding unpack_8_pixels bit_string
pixels r0 r1 r2 r3 r4 r5 r6 r7 r8 r9 r10
      (h0, (h1, (h2, (h3, (h4, (h5, (h6, (h7, (h8, (h9, (h10, _))))))))))) =
    simp (
      append_assoc,
      bits-fields 8 3 r0 (r1 >>> 5) (omega arith),
      two_fields 5 6 r1 (r2 >>> 2) refl (omega arith),
      three_fields 2 1 r2 r3 (r4 >>> 7) refl h3 (omega arith),
      two_fields 7 4 r4 (r5 >>> 4) refl (omega arith),
      two_fields 4 7 r5 (r6 >>> 1) refl (omega arith),
      three_fields 1 2 r6 r7 (r8 >>> 6) refl h7 (omega arith),
      two_fields 6 5 r8 (r9 >>> 3) refl (omega arith),
      two_fields 3 8 r9 r10 refl h10,
      byte_split 3 5 r1 refl,
      byte_split 6 2 r2 refl,
      byte_split 1 7 r4 refl,
      byte_split 4 4 r5 refl,
      byte_split 7 1 r6 refl,
      byte_split 2 6 r8 refl,
      byte_split 5 3 r9 refl,
    )

masked-lt : (x : ℕ) → bit_and x base_mask < 2 ^ 11
masked-lt x = omega (arith, bit_and_mask 11 x)

pixels-length :
    (r0 r1 r2 r3 r4 r5 r6 r7 r8 r9 r10 : ℕ)
    → length (unpack_8_pixels r0 r1 r2 r3 r4 r5 r6 r7 r8 r9 r10) ≡ 8
unfolding unpack_8_pixels
pixels-length r0 r1 r2 r3 r4 r5 r6 r7 r8 r9 r10 = refl

pixels-Below :
    (r0 r1 r2 r3 r4 r5 r6 r7 r8 r9 r10 : ℕ)
    → r0 < 2 ^ 8
    → r1 < 2 ^ 8
    → Below (2 ^ 11) (unpack_8_pixels r0 r1 r2 r3 r4 r5 r6 r7 r8 r9 r10)
unfolding unpack_8_pixels
pixels-Below r0 r1 r2 r3 r4 r5 r6 r7 r8 r9 r10 h0 h1 = (
  omega (arith, bit_or_shifted 3 r0 (r1 >>> 5) (omega arith)),
  (
    masked-lt _,
    (masked-lt _, (masked-lt _, (masked-lt _, (masked-lt _, (masked-lt _, (masked-lt _, tt)))))),
  ),
)

-- Eight pixels in front of an unpacked array.
block-Unpacked :
    (n : ℕ) (block pix raw outs : List ℕ)
    → length pix ≡ 8
    → Below (2 ^ 11) pix
    → bit_string 11 pix ≡ bit_string 8 block
    → Unpacked 11 (8 * n) outs (bit_string 8 raw)
    → Unpacked 11 (8 * suc n) (pix ++ outs) (bit_string 8 (block ++ raw))
block-Unpacked n block pix raw outs count below same u = record {
  count = omega (arith, length-append pix outs, u.count);
  below = Below-append (2 ^ 11) pix outs below u.below;
  rest = u.rest;
  same_bits =
      ap (λ (t : List ℕ). t ++ u.rest) (bit_string-append 11 pix outs)
      ∙ append_assoc (bit_string 11 pix) (bit_string 11 outs) u.rest
      ∙ ap (λ (t : List ℕ). bit_string 11 pix ++ t) u.same_bits
      ∙ ap (λ (t : List ℕ). t ++ bit_string 8 raw) same
      ∙ sym (bit_string-append 8 block raw);
}

unroll-Unpacked :
    (n : ℕ) (raw : List ℕ)
    → Below (2 ^ 8) raw
    → 11 * n ≤ length raw
    → (outs : List ℕ) × (unroll n raw ≡ some outs) × Unpacked 11 (8 * n) outs (bit_string 8 raw)
unfolding unroll bit_string
unroll-Unpacked zero raw hs h =
    ([], refl, record { count = refl; below = tt; rest = bit_string 8 raw; same_bits = refl })
unroll-Unpacked (suc n) (r0 ∷ r1 ∷ r2 ∷ r3 ∷ r4 ∷ r5 ∷ r6 ∷ r7 ∷ r8 ∷ r9 ∷ r10 ∷ raw)
      (h0, (h1, (h2, (h3, (h4, (h5, (h6, (h7, (h8, (h9, (h10, hs))))))))))) h =
    let (outs, e, u) = unroll-Unpacked n raw hs (omega arith) in
    let pix = unpack_8_pixels r0 r1 r2 r3 r4 r5 r6 r7 r8 r9 r10 in
    (
      pix ++ outs,
      ap (Option.map (λ (rest : List ℕ). pix ++ rest)) e,
      block-Unpacked n (r0 ∷ r1 ∷ r2 ∷ r3 ∷ r4 ∷ r5 ∷ r6 ∷ r7 ∷ r8 ∷ r9 ∷ r10 ∷ []) pix raw outs
          (pixels-length r0 r1 r2 r3 r4 r5 r6 r7 r8 r9 r10)
          (pixels-Below r0 r1 r2 r3 r4 r5 r6 r7 r8 r9 r10 h0 h1)
          (pixels r0 r1 r2 r3 r4 r5 r6 r7 r8 r9 r10
            (h0, (h1, (h2, (h3, (h4, (h5, (h6, (h7, (h8, (h9, (h10, tt))))))))))))
          u,
    )
unroll-Unpacked (suc n) _ hs h = absurd (omega arith)

-- On a multiple of 8 pixels and a source that has their bits, the unrolled 11-bit unpacker gives
-- exactly what the general one gives for a width of 11, and neither reads beyond the source.
pub convert_packed11_equivalent :
    (n : ℕ) (raw : List ℕ)
    → n % 8 ≡ 0
    → Below (2 ^ 8) raw
    → n * 11 ≤ 8 * length raw
    → (outs : List ℕ) × (convert_packed11_to_16bit n raw ≡ some outs)
      × (convert_packed_to_16bit 11 n raw ≡ some outs)
unfolding convert_packed11_to_16bit
convert_packed11_equivalent n raw h hs enough =
    let (outs, e, u) = unroll-Unpacked (n / 8) raw hs (omega arith) in
    let (outs', e', u') = convert_packed_to_16bit-Unpacked 11 n raw (omega arith) hs enough in
    let same : outs' ≡ outs =
      bit_string_inj 11 outs' outs u'.rest u.rest (omega (arith, u.count, u'.count)) u'.below
        u.below (u'.same_bits ∙ sym u.same_bits) in
    (outs, e, e' ∙ ap some same)
