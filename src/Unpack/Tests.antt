-- ===== src/Unpack/Tests.antt =====
-- Runs of the unpackers.
use soqv.Base.{◌≡◌, refl, some, none, List, [], ◌∷◌, ℕ, arith, map}
use mathlib.Core.Option
use soqv.Unpack.{
  convert_packed_to_16bit, convert_packed_to_8bit, convert_packed11_to_16bit, unpack, fill, unroll,
  unpack_8_pixels,
}
use soqv.Unpack.BitString.{bit_string}
use soqv.Unpack.Generic.{Unpacked, convert_packed_to_16bit-Unpacked}
use soqv.Unpack.Narrow.{top_byte, convert_packed_to_8bit-top}
use soqv.Unpack.Unrolled.{convert_packed11_equivalent}

abbrev five_bytes : List ℕ
five_bytes = 255 ∷ 192 ∷ 48 ∷ 4 ∷ 5 ∷ []

abbrev eleven_bytes : List ℕ
eleven_bytes = 1 ∷ 2 ∷ 3 ∷ 4 ∷ 5 ∷ 6 ∷ 7 ∷ 8 ∷ 9 ∷ 10 ∷ 255 ∷ []

ten_bits : convert_packed_to_16bit 10 4 five_bytes ≡ some (1023 ∷ 3 ∷ 1 ∷ 5 ∷ [])
unfolding convert_packed_to_16bit unpack fill
ten_bits = refl

short_source : convert_packed_to_16bit 10 5 five_bytes ≡ none
unfolding convert_packed_to_16bit unpack fill
short_source = refl

eleven_bits : convert_packed11_to_16bit 8 eleven_bytes ≡ convert_packed_to_16bit 11 8 eleven_bytes
unfolding convert_packed_to_16bit convert_packed11_to_16bit unpack fill unroll unpack_8_pixels
eleven_bits = refl

convert_packed_to_16bit-Unpacked_example :
    (outs : List ℕ) × (convert_packed_to_16bit 10 4 five_bytes ≡ some outs)
    × Unpacked 10 4 outs (bit_string 8 five_bytes)
convert_packed_to_16bit-Unpacked_example =
    convert_packed_to_16bit-Unpacked 10 4 five_bytes (omega arith)
      (omega arith, (omega arith, (omega arith, (omega arith, (omega arith, tt))))) (omega arith)

convert_packed_to_8bit-top_example :
    convert_packed_to_8bit 10 4 five_bytes
    ≡ Option.map (map (top_byte 10)) (convert_packed_to_16bit 10 4 five_bytes)
convert_packed_to_8bit-top_example =
    convert_packed_to_8bit-top 10 4 five_bytes (omega arith) (omega arith)

convert_packed11_equivalent_example :
    (outs : List ℕ) × (convert_packed11_to_16bit 8 eleven_bytes ≡ some outs)
    × (convert_packed_to_16bit 11 8 eleven_bytes ≡ some outs)
convert_packed11_equivalent_example =
    convert_packed11_equivalent 8 eleven_bytes refl
      (
        omega arith,
        (
          omega arith,
          (
            omega arith,
            (
              omega arith,
              (
                omega arith,
                (
                  omega arith,
                  (omega arith, (omega arith, (omega arith, (omega arith, (omega arith, tt))))),
                ),
              ),
            ),
          ),
        ),
      )
      (omega arith)
