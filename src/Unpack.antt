-- ===== src/Unpack.antt =====
-- The unpackers of src/cameras.c and src/registration.c: packed arrays of 8-bit bytes into arrays
-- of elements of 10 or 11 bits.
pub mod BitString
pub mod Generic
pub mod Unrolled
pub mod Narrow
mod Tests
use soqv.Base.{
  ℕ, zero, suc, ◌+◌, ◌-◌, ◌^◌, Option, none, some, true, false, List, [], ◌∷◌, ◌++◌, bit_and,
  bit_or, ltb, u8, u16, u32, ◌<<<◌, ◌>>>◌, ◌*◌, ◌/◌,
}
use mathlib.Core.Option

-- The loop `while (bitsIn < vw)`: what is left of `src`, the buffer and the bits in it. `none` is
-- a read beyond the end of `src`.
unfoldable pub fill : ℕ → List ℕ → ℕ → ℕ → Option (List ℕ × ℕ × ℕ)
fill vw [] buffer bits_in = elim (ltb bits_in vw) [
  | true ↦ none
  | false ↦ some ([], buffer, bits_in)
]
fill vw (b ∷ src) buffer bits_in = elim (ltb bits_in vw) [
  | true ↦ fill vw src (bit_or (u32 (buffer <<< 8)) b) (bits_in + 8)
  | false ↦ some (b ∷ src, buffer, bits_in)
]

-- The loop `while (n--)`, where `out` makes an element from `buffer` and `bitsIn`.
unfoldable pub unpack : (ℕ → ℕ → ℕ) → ℕ → ℕ → List ℕ → ℕ → ℕ → Option (List ℕ)
unpack out vw zero src buffer bits_in = some []
unpack out vw (suc n) src buffer bits_in = elim (fill vw src buffer bits_in) [
  | none ↦ none
  | some (src', buffer', filled) ↦
      Option.map (λ (rest : List ℕ). out buffer' (filled - vw) ∷ rest)
        (unpack out vw n src' buffer' (filled - vw))
]

abbrev pub out_16bit : ℕ → ℕ → ℕ → ℕ
out_16bit vw buffer bits_in = u16 (bit_and (buffer >>> bits_in) (2 ^ vw - 1))

abbrev pub out_8bit : ℕ → ℕ → ℕ → ℕ
out_8bit vw buffer bits_in = u8 (buffer >>> (bits_in + vw - 8))

unfoldable pub convert_packed_to_16bit : ℕ → ℕ → List ℕ → Option (List ℕ)
convert_packed_to_16bit vw n src = unpack (out_16bit vw) vw n src 0 0

unfoldable pub convert_packed_to_8bit : ℕ → ℕ → List ℕ → Option (List ℕ)
convert_packed_to_8bit vw n src = unpack (out_8bit vw) vw n src 0 0

abbrev pub base_mask : ℕ
base_mask = 2 ^ 11 - 1

unfoldable pub unpack_8_pixels : ℕ → ℕ → ℕ → ℕ → ℕ → ℕ → ℕ → ℕ → ℕ → ℕ → ℕ → List ℕ
unpack_8_pixels r0 r1 r2 r3 r4 r5 r6 r7 r8 r9 r10 =
    bit_or (r0 <<< 3) (r1 >>> 5)
    ∷ bit_and (bit_or (r1 <<< 6) (r2 >>> 2)) base_mask
    ∷ bit_and (bit_or (bit_or (r2 <<< 9) (r3 <<< 1)) (r4 >>> 7)) base_mask
    ∷ bit_and (bit_or (r4 <<< 4) (r5 >>> 4)) base_mask
    ∷ bit_and (bit_or (r5 <<< 7) (r6 >>> 1)) base_mask
    ∷ bit_and (bit_or (bit_or (r6 <<< 10) (r7 <<< 2)) (r8 >>> 6)) base_mask
    ∷ bit_and (bit_or (r8 <<< 5) (r9 >>> 3)) base_mask
    ∷ bit_and (bit_or (r9 <<< 8) r10) base_mask
    ∷ []

-- `n / 8` rounds of the loop `while (n >= 8)`.
unfoldable pub unroll : ℕ → List ℕ → Option (List ℕ)
unfolding unpack_8_pixels
unroll zero raw = some []
unroll (suc n) (r0 ∷ r1 ∷ r2 ∷ r3 ∷ r4 ∷ r5 ∷ r6 ∷ r7 ∷ r8 ∷ r9 ∷ r10 ∷ raw) =
    Option.map (λ (rest : List ℕ). unpack_8_pixels r0 r1 r2 r3 r4 r5 r6 r7 r8 r9 r10 ++ rest)
      (unroll n raw)
unroll (suc n) _ = none

unfoldable pub convert_packed11_to_16bit : ℕ → List ℕ → Option (List ℕ)
convert_packed11_to_16bit n raw = unroll (n / 8) raw
