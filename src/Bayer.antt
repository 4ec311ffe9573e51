-- ===== src/Bayer.antt =====
-- `convert_bayer_to_rgb` of src/cameras.c: a frame in the Bayer pattern becomes one of three bytes a
-- pixel, by two shift registers of 32 bits.
pub mod Registers
pub mod Line
pub mod Reference
mod Tests
use soqv.Base.{
  ℕ, zero, suc, ◌+◌, ◌-◌, ◌*◌, Bool, true, false, ◌&&◌, List, [], ◌∷◌, ◌++◌, ltb, ◌==◌,
  if◌then◌else◌, bit_and, bit_or, u8, u32, ◌<<<◌, ◌>>>◌, ◌%◌,
}

-- The four configurations, with the sums of the neighbours beside and above the pixel. `h` and `v` are
-- the registers of the current line, and of the lines above and below.
abbrev pub rgb_pixel : Bool → Bool → ℕ → ℕ → ℕ → ℕ → List ℕ
rgb_pixel y_odd x_odd h_sum v_sum h v =
    let here = u8 (h >>> 8) in
    let cross = u8 ((h_sum + u8 (v >>> 8)) >>> 1) in
    let above = u8 (v >>> 8) in
    if y_odd
    then if x_odd then above ∷ here ∷ h_sum ∷ [] else v_sum ∷ cross ∷ here ∷ []
    else if x_odd
    then here ∷ cross ∷ v_sum ∷ []
    else h_sum ∷ here ∷ above ∷ []

abbrev pub is_odd : ℕ → Bool
is_odd n = n % 2 == 1

-- Half of the sum of the first and the last of the three values.
abbrev pub outer_sum : ℕ → ℕ
outer_sum r = u8 ((u8 (r >>> 16) + u8 r) >>> 1)

-- The right column, which mirrors the second last one.
abbrev pub last_pixel : Bool → ℕ → ℕ → ℕ → List ℕ
last_pixel y_odd x h_vals v_sums =
    let h = bit_or h_vals (u8 (h_vals >>> 16)) in
    let v = bit_or v_sums (u8 (v_sums >>> 16)) in rgb_pixel y_odd (is_odd x) (u8 h) (u8 v) h v

module _ (raw_buf : ℕ → ℕ) where
  -- The loop over a line, for the `n` pixels before the last one, with the pointers at the next column.
  unfoldable pub bayer_loop : ℕ → Bool → ℕ → ℕ → ℕ → ℕ → ℕ → ℕ → List ℕ
  bayer_loop zero y_odd x cur prev next h_vals v_sums = last_pixel y_odd x h_vals v_sums
  bayer_loop (suc n) y_odd x cur prev next h_vals v_sums =
      let h = bit_or h_vals (raw_buf cur) in
      let v = bit_or v_sums ((raw_buf prev + raw_buf next) >>> 1) in
      rgb_pixel y_odd (is_odd x) (outer_sum h) (outer_sum v) h v
      ++ bayer_loop n y_odd (x + 1) (cur + 1) (prev + 1) (next + 1) (u32 (h <<< 8)) (u32 (v <<< 8))

  -- A line from its first column, with the left column mirrored.
  unfoldable pub bayer_line : ℕ → Bool → ℕ → ℕ → ℕ → List ℕ
  bayer_line width y_odd cur prev next =
      let h_vals = bit_or (raw_buf cur <<< 8) (raw_buf (cur + 1) <<< 16) in
      let v_sums =
        bit_or (bit_and ((raw_buf prev + raw_buf next) <<< 7) 0xff00)
          (bit_and ((raw_buf (prev + 1) + raw_buf (next + 1)) <<< 15) 0xff0000) in
      bayer_loop (width - 1) y_odd 0 (cur + 1) (prev + 1) (next + 1) h_vals v_sums

  -- The pointers to the lines above and below, set at the start of a line.
  abbrev pub is_inner : ℕ → ℕ → Bool
  is_inner height y = ltb 0 y && ltb y (height - 1)

  abbrev pub prev_line : ℕ → ℕ → ℕ → ℕ → ℕ → ℕ → ℕ
  prev_line width height y cur prev next =
      if is_inner height y then cur - width else if y == 0 then next else prev

  abbrev pub next_line : ℕ → ℕ → ℕ → ℕ → ℕ
  next_line height y prev next = if is_inner height y then next else if y == 0 then next else prev

  -- The loop over the lines, for `n` of them. Each pointer advances by a line.
  unfoldable pub bayer_lines : ℕ → ℕ → ℕ → ℕ → ℕ → ℕ → ℕ → List ℕ
  bayer_lines zero width height y cur prev next = []
  bayer_lines (suc n) width height y cur prev next =
      let above = prev_line width height y cur prev next in
      let below = next_line height y above next in
      bayer_line width (is_odd y) cur above below
      ++ bayer_lines n width height (y + 1) (cur + width) (above + width) (below + width)

  -- The pointer to the line above is not set before the first line.
  unfoldable pub convert_bayer_to_rgb : ℕ → ℕ → ℕ → List ℕ
  convert_bayer_to_rgb width height unset = bayer_lines height width height 0 0 unset width
