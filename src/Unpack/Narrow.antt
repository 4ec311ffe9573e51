-- ===== src/Unpack/Narrow.antt =====
-- `convert_packed_to_8bit` against `convert_packed_to_16bit`.
use soqv.Base.{
  ℕ, zero, suc, ◌+◌, ◌-◌, ◌/◌, ◌%◌, ◌^◌, ◌≤◌, ◌≡◌, refl, sym, ap, ◌∙◌, List, ◌∷◌, arith, map,
  Option, none, some,
}
use mathlib.Core.Option
use native.Mathlib.Nat.{div-div-eq-div-mul}
use soqv.Base.Bits.{pow_add}
use soqv.Unpack.{fill, unpack, out_16bit, out_8bit, convert_packed_to_16bit, convert_packed_to_8bit}
use soqv.Unpack.BitString.{high_byte}
use soqv.Unpack.Generic.{out_16bit_lem}

-- An element without the bits below its 8 high ones.
abbrev pub top_byte : ℕ → ℕ → ℕ
top_byte vw x = x / 2 ^ (vw - 8)

out_8bit-top : (vw b k : ℕ) → 8 ≤ vw → vw ≤ 16 → out_8bit vw b k ≡ top_byte vw (out_16bit vw b k)
out_8bit-top vw b k h hw =
    let place : k + vw - 8 ≡ k + (vw - 8) = omega arith in
    let width : 8 + (vw - 8) ≡ vw = omega arith in
    let shifted : b / 2 ^ (k + (vw - 8)) ≡ b / 2 ^ k / 2 ^ (vw - 8) =
      ap (λ (t : ℕ). b / t) (pow_add k (vw - 8))
      ∙ sym (div-div-eq-div-mul b (2 ^ k) (2 ^ (vw - 8))) in
    ap (λ (t : ℕ). b / 2 ^ t % 2 ^ 8) place
    ∙ ap (λ (t : ℕ). t % 2 ^ 8) shifted
    ∙ sym (high_byte (vw - 8) (b / 2 ^ k))
    ∙ ap (λ (t : ℕ). b / 2 ^ k % 2 ^ t / 2 ^ (vw - 8)) width
    ∙ ap (λ (t : ℕ). t / 2 ^ (vw - 8)) (sym (out_16bit_lem vw b k hw))

cons-top :
    (vw b k : ℕ) (o : Option (List ℕ))
    → 8 ≤ vw
    → vw ≤ 16
    → Option.map (λ (rest : List ℕ). out_8bit vw b k ∷ rest) (Option.map (map (top_byte vw)) o)
      ≡ Option.map (map (top_byte vw)) (Option.map (λ (rest : List ℕ). out_16bit vw b k ∷ rest) o)
cons-top vw b k none h hw = refl
cons-top vw b k (some outs) h hw =
    ap (λ (t : ℕ). some (t ∷ map (top_byte vw) outs)) (out_8bit-top vw b k h hw)

unpack-top :
    (vw n : ℕ) (src : List ℕ) (buffer bits_in : ℕ)
    → 8 ≤ vw
    → vw ≤ 16
    → unpack (out_8bit vw) vw n src buffer bits_in
      ≡ Option.map (map (top_byte vw)) (unpack (out_16bit vw) vw n src buffer bits_in)
unfolding unpack
unpack-top vw zero src buffer bits_in h hw = refl
unpack-top vw (suc n) src buffer bits_in h hw =
    refilled (λ s b k. unpack-top vw n s b k h hw) (fill vw src buffer bits_in)
  where
    refilled :
        ((s : List ℕ) (b k : ℕ)
          → unpack (out_8bit vw) vw n s b k
            ≡ Option.map (map (top_byte vw)) (unpack (out_16bit vw) vw n s b k))
        → (m : Option (List ℕ × ℕ × ℕ))
        → elim m [
          | none ↦ none
          | some (s, b, k) ↦
              Option.map
                (λ (rest : List ℕ). out_8bit vw b (k - vw) ∷ rest)
                (unpack (out_8bit vw) vw n s b (k - vw))
        ]
          ≡ Option.map (map (top_byte vw)) (elim m [
            | none ↦ none
            | some (s, b, k) ↦
                Option.map
                  (λ (rest : List ℕ). out_16bit vw b (k - vw) ∷ rest)
                  (unpack (out_16bit vw) vw n s b (k - vw))
          ])
    refilled later none = refl
    refilled later (some (s, b, k)) =
        ap (Option.map (λ (rest : List ℕ). out_8bit vw b (k - vw) ∷ rest)) (later s b (k - vw))
        ∙ cons-top vw b (k - vw) (unpack (out_16bit vw) vw n s b (k - vw)) h hw

-- Unpacking elements of 8 to 16 bits to bytes gives the 8 high bits of each element that unpacking
-- to 16-bit words gives, and reads beyond the source on exactly the same arguments.
pub convert_packed_to_8bit-top :
    (vw n : ℕ) (src : List ℕ)
    → 8 ≤ vw
    → vw ≤ 16
    → convert_packed_to_8bit vw n src
      ≡ Option.map (map (top_byte vw)) (convert_packed_to_16bit vw n src)
unfolding convert_packed_to_8bit convert_packed_to_16bit
convert_packed_to_8bit-top vw n src h hw = unpack-top vw n src 0 0 h hw
