-- ===== src/Bayer/Registers.antt =====
-- The shift registers hold three bytes, of the columns before, at and after the pixel.
use soqv.Base.{
  ℕ, ◌+◌, ◌*◌, ◌/◌, ◌^◌, ◌<◌, ◌≡◌, ap, ◌∙◌, arith, bit_and, bit_or, u8, u32, ◌<<<◌, ◌>>>◌,
}
use soqv.Base.Bits.{bit_or_shifted, bit_and_mask, bit_and_high, bit_or_comm}
use soqv.Bayer.{outer_sum}

-- A register before a column is read: a byte that has left the three, then the one before and the one
-- at the pixel.
pub record Holds (r before here : ℕ) : Type 0 where
  pub left : ℕ
  pub value : r ≡ (left * 2 ^ 16 + before * 2 ^ 8 + here) * 2 ^ 8
  pub left_small : left < 2 ^ 8
  pub before_small : before < 2 ^ 8
  pub here_small : here < 2 ^ 8

-- The column is read into the low byte.
module _ {r before here : ℕ} (v : Holds r before here) (after : ℕ) (small : after < 2 ^ 8) where
  full : bit_or r after ≡ v.left * 2 ^ 24 + before * 2 ^ 16 + here * 2 ^ 8 + after
  full =
      ap (λ (t : ℕ). bit_or t after) v.value
      ∙ bit_or_shifted 8 (v.left * 2 ^ 16 + before * 2 ^ 8 + here) after small
      ∙ omega arith

  pub here_byte : u8 (bit_or r after >>> 8) ≡ here
  here_byte = omega (arith, full, v.here_small, small)

  pub before_byte : u8 (bit_or r after >>> 16) ≡ before
  before_byte = omega (arith, full, v.here_small, v.before_small, small)

  pub after_byte : u8 (bit_or r after) ≡ after
  after_byte = omega (arith, full, small)

  pub outer_sum_lem : outer_sum (bit_or r after) ≡ (before + after) / 2
  outer_sum_lem = omega (arith, before_byte, after_byte, v.before_small, small)

  -- The shift to the next column.
  pub Holds-shift : Holds (u32 (bit_or r after <<< 8)) here after
  Holds-shift = record {
    left = before;
    value = omega (arith, full, v.here_small, v.before_small, small);
    left_small = v.before_small;
    before_small = v.here_small;
    here_small = small;
  }

-- Before the right column is mirrored the byte after the pixel is 0.
pub mirror_byte : {r before here : ℕ} → Holds r before here → u8 (r >>> 16) ≡ before
mirror_byte {r} v = omega (arith, v.value, v.before_small, v.here_small)

-- The registers at the left column.
pub Holds-line :
    (here right : ℕ)
    → here < 2 ^ 8
    → right < 2 ^ 8
    → Holds (bit_or (here <<< 8) (right <<< 16)) right here
Holds-line here right h r = record {
  left = 0;
  value =
      bit_or_comm (here * 2 ^ 8 + right * 2 ^ 16) (here * 2 ^ 8) (right * 2 ^ 16) (omega arith)
      ∙ bit_or_shifted 16 right (here * 2 ^ 8) (omega (arith, h))
      ∙ omega arith;
  left_small = omega arith;
  before_small = r;
  here_small = h;
}

masked_low : (s : ℕ) → s < 2 ^ 9 → bit_and (s <<< 7) 0xff00 ≡ s / 2 * 2 ^ 8
masked_low s h =
    bit_and_high 8 255 (s * 2 ^ 7)
    ∙ ap (λ (t : ℕ). t * 2 ^ 8) (bit_and_mask 8 (s * 2 ^ 7 / 2 ^ 8))
    ∙ omega (arith, h)

masked_high : (s : ℕ) → s < 2 ^ 9 → bit_and (s <<< 15) 0xff0000 ≡ s / 2 * 2 ^ 16
masked_high s h =
    bit_and_high 16 255 (s * 2 ^ 15)
    ∙ ap (λ (t : ℕ). t * 2 ^ 16) (bit_and_mask 8 (s * 2 ^ 15 / 2 ^ 16))
    ∙ omega (arith, h)

pub Holds-sums :
    (here right : ℕ)
    → here < 2 ^ 9
    → right < 2 ^ 9
    → Holds
        (bit_or (bit_and (here <<< 7) 0xff00) (bit_and (right <<< 15) 0xff0000))
        (right / 2)
        (here / 2)
Holds-sums here right h r =
    rw (masked_low here h, masked_high right r)
      (Holds-line (here / 2) (right / 2) (omega (arith, h)) (omega (arith, r)))
