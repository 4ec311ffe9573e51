-- ===== src/Bayer/Line.antt =====
-- A line of colours by the values in the line and those around it, mirrored at its ends.
use soqv.Base.{
  ℕ, zero, suc, ◌+◌, ◌-◌, ◌/◌, ◌^◌, ◌≤◌, ◌<◌, ◌≡◌, refl, ap, sym, ◌∙◌, Bool, List, [], ◌∷◌, ◌++◌,
  arith, ◌==◌, if◌then◌else◌, u8, ◌>>>◌, bit_and, bit_or, u32, ◌<<<◌,
}
use mathlib.Core.List.{append-nil}
use soqv.Bayer.{rgb_pixel, is_odd, outer_sum, last_pixel, bayer_loop, bayer_line}
use soqv.Bayer.Registers.{
  Holds, here_byte, after_byte, outer_sum_lem, Holds-shift, mirror_byte, Holds-line, Holds-sums,
}

-- The neighbour before and after position `i` of `n`, mirrored.
abbrev pub before_of : ℕ → ℕ
before_of i = if i == 0 then 1 else i - 1

abbrev pub after_of : ℕ → ℕ → ℕ
after_of n i = if i + 1 == n then n - 2 else i + 1

-- The pixel from the value there, the halved sum of those beside it, of those above and below, and of
-- those sums beside it.
abbrev pub mix : Bool → Bool → ℕ → ℕ → ℕ → ℕ → List ℕ
mix y_odd x_odd here beside above corners =
    if y_odd
    then if x_odd then above ∷ here ∷ beside ∷ [] else corners ∷ (beside + above) / 2 ∷ here ∷ []
    else if x_odd
    then here ∷ (beside + above) / 2 ∷ corners ∷ []
    else beside ∷ here ∷ above ∷ []

-- A line by its values and the halved sums of the lines around it.
abbrev pub line_pixel : ℕ → Bool → (ℕ → ℕ) → (ℕ → ℕ) → ℕ → List ℕ
line_pixel width y_odd row sums x =
    mix y_odd (is_odd x) (row x) ((row (before_of x) + row (after_of width x)) / 2) (sums x)
      ((sums (before_of x) + sums (after_of width x)) / 2)

unfoldable pub pixels : ℕ → ℕ → (ℕ → List ℕ) → List ℕ
pixels zero i pixel = []
pixels (suc n) i pixel = pixel i ++ pixels n (i + 1) pixel

-- A pixel of the registers is the one of the values that they hold.
rgb_pixel-mix :
    (y_odd x_odd : Bool) (h_sum v_sum h v here above : ℕ)
    → u8 (h >>> 8) ≡ here
    → u8 (v >>> 8) ≡ above
    → h_sum < 2 ^ 8
    → above < 2 ^ 8
    → rgb_pixel y_odd x_odd h_sum v_sum h v ≡ mix y_odd x_odd here h_sum above v_sum
rgb_pixel-mix y_odd x_odd h_sum v_sum h v here above p q small low =
    let c : u8 ((h_sum + above) >>> 1) ≡ (h_sum + above) / 2 = omega (arith, small, low) in
    rw (p, q, c) refl

Holds-eq :
    {r before before' here here' : ℕ}
    → before ≡ before'
    → here ≡ here'
    → Holds r before here
    → Holds r before' here'
Holds-eq p q v = rw (← p, ← q) v

-- A pixel before the right column.
step_pixel :
    (y_odd x_odd : Bool) (h v before here after v_before v_here v_after : ℕ)
    → Holds h before here
    → Holds v v_before v_here
    → after < 2 ^ 8
    → v_after < 2 ^ 8
    → rgb_pixel y_odd x_odd
        (outer_sum (bit_or h after))
        (outer_sum (bit_or v v_after))
        (bit_or h after)
        (bit_or v v_after)
      ≡ mix y_odd x_odd here ((before + after) / 2) v_here ((v_before + v_after) / 2)
step_pixel y_odd x_odd h v before here after v_before v_here v_after hh hv small v_small =
    let sum = outer_sum_lem hh after small in
    let v_sum = outer_sum_lem hv v_after v_small in
    rw (sum, v_sum)
      (rgb_pixel-mix y_odd x_odd ((before + after) / 2) ((v_before + v_after) / 2) (bit_or h after)
        (bit_or v v_after) here v_here (here_byte hh after small) (here_byte hv v_after v_small)
        (omega (arith, hh.before_small, small)) hv.here_small)

-- The pixel of the right column.
last_pixel-mix :
    (y_odd : Bool) (x h v before here v_before v_here : ℕ)
    → Holds h before here
    → Holds v v_before v_here
    → last_pixel y_odd x h v ≡ mix y_odd (is_odd x) here before v_here v_before
last_pixel-mix y_odd x h v before here v_before v_here hh hv =
    let b = hh.before_small in
    let c = hv.before_small in
    rw (mirror_byte hh, mirror_byte hv, after_byte hh before b, after_byte hv v_before c)
      (rgb_pixel-mix y_odd (is_odd x) before v_before (bit_or h before) (bit_or v v_before) here
        v_here (here_byte hh before b) (here_byte hv v_before c) b hv.here_small)

module _ (raw_buf : ℕ → ℕ) (bytes : (i : ℕ) → raw_buf i < 2 ^ 8) where
  abbrev pub row_at : ℕ → ℕ → ℕ
  row_at p x = raw_buf (p + x)

  abbrev pub sums_at : ℕ → ℕ → ℕ → ℕ
  sums_at p q x = (raw_buf (p + x) + raw_buf (q + x)) / 2

  sums_small : (p q x : ℕ) → sums_at p q x < 2 ^ 8
  sums_small p q x = omega (arith, bytes (p + x), bytes (q + x))

  -- The rest of a line from column `x` on.
  bayer_loop-pixels :
      (n width : ℕ) (y_odd : Bool) (x cur prev next h v : ℕ)
      → x + n + 1 ≡ width
      → 2 ≤ width
      → Holds h (row_at cur (before_of x)) (row_at cur x)
      → Holds v (sums_at prev next (before_of x)) (sums_at prev next x)
      → bayer_loop raw_buf n y_odd x (cur + x + 1) (prev + x + 1) (next + x + 1) h v
        ≡ pixels (suc n) x (line_pixel width y_odd (row_at cur) (sums_at prev next))
  unfolding bayer_loop pixels
  bayer_loop-pixels zero width y_odd x cur prev next h v e two hh hv =
      let m : after_of width x ≡ before_of x = ground arith in
      let mirrored =
        λ (f : ℕ → ℕ). ap (λ (t : ℕ). (f (before_of x) + f t) / 2) m ∙ half (f (before_of x)) in
      last_pixel-mix y_odd x h v (row_at cur (before_of x)) (row_at cur x)
        (sums_at prev next (before_of x)) (sums_at prev next x) hh hv
      ∙ sym (
          append-nil (line_pixel width y_odd (row_at cur) (sums_at prev next) x) ∙ λ i.
          mix y_odd (is_odd x) (row_at cur x) (mirrored (row_at cur) i) (sums_at prev next x)
            (mirrored (sums_at prev next) i))
    where
      half : (n : ℕ) → (n + n) / 2 ≡ n
      half n = omega arith
  bayer_loop-pixels (suc n) width y_odd x cur prev next h v e two hh hv =
      let a : after_of width x ≡ x + 1 = ground arith in
      let b : before_of (x + 1) ≡ x = ground arith in
      let c : cur + (x + 1) ≡ cur + x + 1 = omega arith in
      let p : prev + (x + 1) ≡ prev + x + 1 = omega arith in
      let q : next + (x + 1) ≡ next + x + 1 = omega arith in
      let value = raw_buf (cur + x + 1) in
      let sum = (raw_buf (prev + x + 1) + raw_buf (next + x + 1)) / 2 in
      let sum_small : sum < 2 ^ 8 = omega (arith, bytes (prev + x + 1), bytes (next + x + 1)) in
      let row : value ≡ row_at cur (x + 1) = ap raw_buf (sym c) in
      let sums : sum ≡ sums_at prev next (x + 1) =
        λ i. (raw_buf (sym p i) + raw_buf (sym q i)) / 2 in
      let pixel =
        step_pixel y_odd (is_odd x) h v (row_at cur (before_of x)) (row_at cur x) value
          (sums_at prev next (before_of x)) (sums_at prev next x) sum hh hv (bytes (cur + x + 1))
          sum_small in
      let rest =
        bayer_loop-pixels n width y_odd (x + 1) cur prev next (u32 (bit_or h value <<< 8))
          (u32 (bit_or v sum <<< 8)) (omega (arith, e)) two
          (Holds-eq (ap (row_at cur) (sym b)) row (Holds-shift hh value (bytes (cur + x + 1))))
          (Holds-eq (ap (sums_at prev next) (sym b)) sums (Holds-shift hv sum sum_small)) in
      (λ i.
        pixel i
        ++ bayer_loop raw_buf n y_odd (x + 1) (sym c i + 1) (sym p i + 1) (sym q i + 1)
            (u32 (bit_or h value <<< 8)) (u32 (bit_or v sum <<< 8)))
      ∙ λ i.
          mix y_odd (is_odd x) (row_at cur x)
            ((row_at cur (before_of x) + (row ∙ ap (row_at cur) (sym a)) i) / 2)
            (sums_at prev next x)
            ((sums_at prev next (before_of x) + (sums ∙ ap (sums_at prev next) (sym a)) i) / 2)
          ++ rest i

  -- A line, whatever lines are taken for the ones above and below.
  pub bayer_line-pixels :
      (width : ℕ) (y_odd : Bool) (cur prev next : ℕ)
      → 2 ≤ width
      → bayer_line raw_buf width y_odd cur prev next
        ≡ pixels width 0 (line_pixel width y_odd (row_at cur) (sums_at prev next))
  unfolding bayer_line
  bayer_line-pixels width y_odd cur prev next two =
      let n : suc (width - 1) ≡ width = omega arith in
      let c : cur + 0 ≡ cur = omega arith in
      let p : prev + 0 ≡ prev = omega arith in
      let q : next + 0 ≡ next = omega arith in
      let h = bit_or (raw_buf cur <<< 8) (raw_buf (cur + 1) <<< 16) in
      let v =
        bit_or (bit_and ((raw_buf prev + raw_buf next) <<< 7) 0xff00)
          (bit_and ((raw_buf (prev + 1) + raw_buf (next + 1)) <<< 15) 0xff0000) in
      let hh : Holds h (row_at cur 1) (row_at cur 0) =
        Holds-eq refl (ap raw_buf (sym c))
          (Holds-line (raw_buf cur) (raw_buf (cur + 1)) (bytes cur) (bytes (cur + 1))) in
      let hv : Holds v (sums_at prev next 1) (sums_at prev next 0) =
        Holds-eq refl (λ i. (raw_buf (sym p i) + raw_buf (sym q i)) / 2)
          (Holds-sums (raw_buf prev + raw_buf next) (raw_buf (prev + 1) + raw_buf (next + 1))
            (omega (arith, bytes prev, bytes next))
            (omega (arith, bytes (prev + 1), bytes (next + 1)))) in
      (λ i. bayer_loop raw_buf (width - 1) y_odd 0 (sym c i + 1) (sym p i + 1) (sym q i + 1) h v)
      ∙ bayer_loop-pixels (width - 1) width y_odd 0 cur prev next h v (omega arith) two hh hv
      ∙ ap (λ (k : ℕ). pixels k 0 (line_pixel width y_odd (row_at cur) (sums_at prev next))) n
