-- ===== src/Unpack/Generic.antt =====
-- `convert_packed_to_16bit` and `convert_packed_to_8bit`, for every width and number of elements.
use soqv.Base.{
  ℕ, zero, suc, ◌+◌, ◌*◌, ◌-◌, ◌/◌, ◌%◌, ◌^◌, ◌≤◌, ◌<◌, ◌≡◌, refl, sym, ap, ◌∙◌, List, [], ◌∷◌,
  ◌++◌, arith, length, some, inl, inr, Bool-cases, ltb, bit_or, u32, ◌<<<◌,
}
use mathlib.Core.List.{append_assoc}
use mathlib.Core.Path.{subst}
use native.Mathlib.Nat.{pow-le-pow_right, one-le-pow, mod-lt, mod-eq_of_lt}
use soqv.Base.Bits.{bit_and_mask}
use soqv.Unpack.{fill, unpack, out_16bit, convert_packed_to_16bit}
use soqv.Unpack.BitString.{bits, bit_string, Below, bits-split, bits-mod, bits-shifted}

-- What a refilled buffer is: at least `vw` bits are in it, and no bit is lost or added.
record Refilled (vw : ℕ) (src : List ℕ) (buffer bits_in : ℕ) (src' : List ℕ) (buffer' filled : ℕ)
    : Type 0 where
  enough : vw ≤ filled
  small : filled < vw + 8
  bytes : Below (2 ^ 8) src'
  room : filled + 8 * length src' ≡ bits_in + 8 * length src
  same : bits filled buffer' ++ bit_string 8 src' ≡ bits bits_in buffer ++ bit_string 8 src

byte-Refilled :
    (vw : ℕ) (src : List ℕ) (buffer bits_in b : ℕ) {s : List ℕ} {b' k : ℕ}
    → bits_in ≤ 24
    → b < 2 ^ 8
    → Refilled vw src (bit_or (u32 (buffer <<< 8)) b) (bits_in + 8) s b' k
    → Refilled vw (b ∷ src) buffer bits_in s b' k
unfolding bit_string
byte-Refilled vw src buffer bits_in b hk hb r = record {
  enough = r.enough;
  small = r.small;
  bytes = r.bytes;
  room = omega (arith, r.room);
  same =
      r.same
      ∙ ap (λ (t : List ℕ). t ++ bit_string 8 src) (bits-shifted bits_in buffer b hk hb)
      ∙ append_assoc (bits bits_in buffer) (bits 8 b) (bit_string 8 src);
}

fill_lem :
    (vw : ℕ) (src : List ℕ) (buffer bits_in : ℕ)
    → vw ≤ 16
    → bits_in < vw + 8
    → Below (2 ^ 8) src
    → vw ≤ bits_in + 8 * length src
    → (s : List ℕ) × (b : ℕ) × (k : ℕ) × (fill vw src buffer bits_in ≡ some (s, b, k))
      × Refilled vw src buffer bits_in s b k
unfolding fill bit_string
fill_lem vw [] buffer bits_in hw hk hs h = elim (Bool-cases (ltb bits_in vw)) [
  | inl short ↦ absurd (ground arith)
  | inr full ↦ (
    [],
    buffer,
    bits_in,
    rw (full, fill) refl,
    record { enough = ground arith; small = hk; bytes = hs; room = refl; same = refl },
  )
]
fill_lem vw (b ∷ src) buffer bits_in hw hk hs h = elim (Bool-cases (ltb bits_in vw)) [
  | inl short ↦
      let (s, b', k, e, r) =
        fill_lem vw src (bit_or (u32 (buffer <<< 8)) b) (bits_in + 8) hw (ground arith) hs.1
          (omega arith) in
      (
        s,
        b',
        k,
        rw (short, fill) e,
        byte-Refilled vw src buffer bits_in b (ground (arith, hw)) hs.0 r,
      )
  | inr full ↦ (
    b ∷ src,
    buffer,
    bits_in,
    rw (full, fill) refl,
    record { enough = ground arith; small = hk; bytes = hs; room = refl; same = refl },
  )
]

pub out_16bit_lem : (vw b k : ℕ) → vw ≤ 16 → out_16bit vw b k ≡ b / 2 ^ k % 2 ^ vw
out_16bit_lem vw b k h =
    let fits : b / 2 ^ k % 2 ^ vw < 2 ^ 16 = omega (
      arith,
      pow-le-pow_right {n = 2} (omega arith) {i = vw} {j = 16} h,
      mod-lt (b / 2 ^ k) (one-le-pow vw 2 (omega arith)),
    ) in
    ap (λ (t : ℕ). t % 2 ^ 16) (bit_and_mask vw (b / 2 ^ k)) ∙ mod-eq_of_lt fits

-- The bits of a buffer are those of the element taken from it, and those that stay.
bits-taken :
    (vw b k : ℕ)
    → vw ≤ 16
    → vw ≤ k
    → bits k b ≡ bits vw (out_16bit vw b (k - vw)) ++ bits (k - vw) b
bits-taken vw b k hw hk =
    let whole : k ≡ vw + (k - vw) = omega arith in
    let value : bits vw (out_16bit vw b (k - vw)) ≡ bits vw (b / 2 ^ (k - vw)) =
      ap (λ (t : ℕ). bits vw t) (out_16bit_lem vw b (k - vw) hw)
      ∙ bits-mod vw vw (b / 2 ^ (k - vw)) (omega arith) in
    ap (λ (t : ℕ). bits t b) whole
    ∙ bits-split vw (k - vw) b
    ∙ ap (λ (t : List ℕ). t ++ bits (k - vw) b) (sym value)

-- The elements that unpacking gives, and the bits of the source that are behind them.
pub record Unpacked (vw n : ℕ) (outs : List ℕ) (string : List ℕ) : Type 0 where
  pub count : length outs ≡ n
  pub below : Below (2 ^ vw) outs
  pub rest : List ℕ
  pub same_bits : bit_string vw outs ++ rest ≡ string

one_more :
    (vw n : ℕ) (b k : ℕ) (outs src : List ℕ)
    → vw ≤ 16
    → vw ≤ k
    → Unpacked vw n outs (bits (k - vw) b ++ bit_string 8 src)
    → Unpacked vw (suc n) (out_16bit vw b (k - vw) ∷ outs) (bits k b ++ bit_string 8 src)
unfolding bit_string
one_more vw n b k outs src hw hk u =
    let value = out_16bit vw b (k - vw) in
    record {
      count = ap suc u.count;
      below = (
        omega (
          arith,
          out_16bit_lem vw b (k - vw) hw,
          mod-lt (b / 2 ^ (k - vw)) (one-le-pow vw 2 (omega arith)),
        ),
        u.below,
      );
      rest = u.rest;
      same_bits =
          append_assoc (bits vw value) (bit_string vw outs) u.rest
          ∙ ap (λ (t : List ℕ). bits vw value ++ t) u.same_bits
          ∙ sym (append_assoc (bits vw value) (bits (k - vw) b) (bit_string 8 src))
          ∙ ap (λ (t : List ℕ). t ++ bit_string 8 src) (sym (bits-taken vw b k hw hk));
    }

unpack-suc :
    (out : ℕ → ℕ → ℕ) (vw n : ℕ) (src : List ℕ) (buffer bits_in : ℕ) {s : List ℕ} {b k : ℕ}
    → {outs : List ℕ} → fill vw src buffer bits_in ≡ some (s, b, k)
    → unpack out vw n s b (k - vw) ≡ some outs
    → unpack out vw (suc n) src buffer bits_in ≡ some (out b (k - vw) ∷ outs)
unfolding unpack
unpack-suc out vw n src buffer bits_in e e' = rw (e, unpack) (rw e' refl)

unpack_16bit :
    (vw n : ℕ) (src : List ℕ) (buffer bits_in : ℕ)
    → vw ≤ 16
    → bits_in < vw + 8
    → Below (2 ^ 8) src
    → n * vw ≤ bits_in + 8 * length src
    → (outs : List ℕ) × (unpack (out_16bit vw) vw n src buffer bits_in ≡ some outs)
      × Unpacked vw n outs (bits bits_in buffer ++ bit_string 8 src)
unfolding unpack bit_string
unpack_16bit vw zero src buffer bits_in hw hk hs h = (
  [],
  refl,
  record {
    count = refl;
    below = tt;
    rest = bits bits_in buffer ++ bit_string 8 src;
    same_bits = refl;
  },
)
unpack_16bit vw (suc n) src buffer bits_in hw hk hs h =
    let (s, b, k, e, r) = fill_lem vw src buffer bits_in hw hk hs (omega arith) in
    let (outs, e', u) =
      unpack_16bit vw n s b (k - vw) hw (omega (arith, r.small)) r.bytes
        (omega (arith, r.enough, r.room)) in
    (
      out_16bit vw b (k - vw) ∷ outs,
      unpack-suc (out_16bit vw) vw n src buffer bits_in e e',
      subst (λ (t : List ℕ). Unpacked vw (suc n) (out_16bit vw b (k - vw) ∷ outs) t) r.same
          (one_more vw n b k outs s hw r.enough u),
    )

-- Unpacking elements of at most 16 bits to 16-bit words reads inside the source if it has the bits
-- of as many elements; it gives as many elements, each below 2 ^ vw, and their bits written one
-- after the other are the first bits of the source.
pub convert_packed_to_16bit-Unpacked :
    (vw n : ℕ) (src : List ℕ)
    → vw ≤ 16
    → Below (2 ^ 8) src
    → n * vw ≤ 8 * length src
    → (outs : List ℕ) × (convert_packed_to_16bit vw n src ≡ some outs)
      × Unpacked vw n outs (bit_string 8 src)
unfolding convert_packed_to_16bit bits
convert_packed_to_16bit-Unpacked vw n src hw hs h =
    unpack_16bit vw n src 0 0 hw (omega arith) hs (omega arith)
