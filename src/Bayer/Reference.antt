-- ===== src/Bayer/Reference.antt =====
-- The colour of a pixel by the values around it, mirrored at the borders of the frame.
use soqv.Base.{
  ℕ, zero, suc, ◌+◌, ◌-◌, ◌*◌, ◌^◌, ◌≤◌, ◌<◌, ◌≡◌, refl, ap, sym, ◌∙◌, inl, inr, List, ◌++◌, arith,
  ◌==◌, Bool-cases,
}
use soqv.Bayer.{is_odd, bayer_line, prev_line, next_line, bayer_lines, convert_bayer_to_rgb}
use soqv.Bayer.Line.{before_of, after_of, line_pixel, pixels, row_at, sums_at, bayer_line-pixels}

module _ (raw_buf : ℕ → ℕ) (bytes : (i : ℕ) → raw_buf i < 2 ^ 8) where
  -- A line of the frame, with the lines above and below mirrored at its borders.
  abbrev pub frame_line : ℕ → ℕ → ℕ → List ℕ
  frame_line width height y = pixels width 0 (
      line_pixel width (is_odd y) (row_at raw_buf bytes (y * width))
        (sums_at raw_buf bytes (before_of y * width) (after_of height y * width)))

  line_before : (y width : ℕ) → 1 ≤ y → y * width ≡ (y - 1) * width + width
  line_before zero width h = absurd (omega arith)
  line_before (suc y) width h = grind arith

  prev_line_lem :
      (width height y cur prev next : ℕ)
      → 3 ≤ height
      → y < height
      → cur ≡ y * width
      → next ≡ (y + 1) * width
      → (2 ≤ y → prev ≡ (y - 1) * width)
      → prev_line raw_buf width height y cur prev next ≡ before_of y * width
  prev_line_lem width height zero cur prev next three h c n p = ground (arith, n)
  prev_line_lem width height (suc zero) cur prev next three h c n p = ground (arith, c)
  prev_line_lem width height (suc (suc y)) cur prev next three h c n p =
      ground (arith, c, p (omega arith), line_before (suc (suc y)) width (omega arith))

  next_line_lem :
      (width height y above next : ℕ)
      → 3 ≤ height
      → y < height
      → next ≡ (y + 1) * width
      → above ≡ before_of y * width
      → next_line raw_buf height y above next ≡ after_of height y * width
  next_line_lem width height zero above next three h n a = ground (arith, n)
  next_line_lem width height (suc y) above next three h n a =
      elim (Bool-cases (suc y + 1 == height)) [
        | inl bottom ↦
            let e : before_of (suc y) ≡ height - 2 = ground arith in
            let b : next_line raw_buf height (suc y) above next ≡ above = ground arith in
            rw bottom (b ∙ a ∙ ap (λ (t : ℕ). t * width) e)
        | inr inner ↦
            let b : next_line raw_buf height (suc y) above next ≡ next = ground arith in
            rw inner (b ∙ n)
      ]

  after_line : (y width : ℕ) → (y + 1) * width ≡ y * width + width
  after_line y width = grind arith

  same_line : (y width : ℕ) → y * width ≡ (y + 1 - 1) * width
  same_line y width = let e : y ≡ y + 1 - 1 = omega arith in ap (λ (t : ℕ). t * width) e

  below_inner : (width height y : ℕ) → y + 1 < height → after_of height y * width ≡ (y + 1) * width
  below_inner width height y more =
      let e : after_of height y ≡ y + 1 = ground arith in ap (λ (t : ℕ). t * width) e

  above_late : (width y : ℕ) → 2 ≤ y + 1 → before_of y * width ≡ (y - 1) * width
  above_late width y late =
      let e : before_of y ≡ y - 1 = ground arith in ap (λ (t : ℕ). t * width) e

  bayer_line_at :
      (width height y : ℕ) {cur above below : ℕ}
      → above ≡ before_of y * width
      → below ≡ after_of height y * width
      → cur ≡ y * width
      → 2 ≤ width
      → bayer_line raw_buf width (is_odd y) cur above below ≡ frame_line width height y
  bayer_line_at width height y a b c two =
      (λ i. bayer_line raw_buf width (is_odd y) (c i) (a i) (b i))
      ∙ bayer_line-pixels raw_buf bytes width (is_odd y) (y * width) (before_of y * width)
          (after_of height y * width) two

  bayer_lines-frame :
      (n width height y cur prev next : ℕ)
      → y + n ≡ height
      → 3 ≤ height
      → 2 ≤ width
      → cur ≡ y * width
      → (y < height → next ≡ (y + 1) * width)
      → (2 ≤ y → prev ≡ (y - 1) * width)
      → bayer_lines raw_buf n width height y cur prev next ≡ pixels n y (frame_line width height)
  unfolding bayer_lines pixels
  bayer_lines-frame zero width height y cur prev next e three two c q p = refl
  bayer_lines-frame (suc n) width height y cur prev next e three two c q p =
      let h : y < height = omega (arith, e) in
      let above = prev_line raw_buf width height y cur prev next in
      let below = next_line raw_buf height y above next in
      let a = prev_line_lem width height y cur prev next three h c (q h) p in
      let b = next_line_lem width height y above next three h (q h) a in
      let rest =
        bayer_lines-frame n width height (y + 1) (cur + width) (above + width) (below + width)
          (omega (arith, e)) three two (ap (λ (t : ℕ). t + width) c ∙ sym (after_line y width))
          (λ more.
            ap (λ (t : ℕ). t + width) (b ∙ below_inner width height y more)
            ∙ sym (after_line (y + 1) width))
          (λ l.
            ap (λ (t : ℕ). t + width) (a ∙ above_late width y l)
            ∙ sym (line_before y width (omega (arith, l)))
            ∙ same_line y width) in
      λ i. bayer_line_at width height y a b c two i ++ rest i

  -- A frame of bytes, of at least 3 lines and 2 columns, is converted to three bytes for each pixel,
  -- line by line, which are those of a description by positions alone: the value at the pixel, half the
  -- sum of those beside it, half the sum of those above and below, and half the sum of two such sums, in
  -- the order of its place in the pattern, with every neighbour mirrored at the borders of the frame.
  pub convert_bayer_to_rgb-frame :
      (width height unset : ℕ)
      → 2 ≤ width
      → 3 ≤ height
      → convert_bayer_to_rgb raw_buf width height unset ≡ pixels height 0 (frame_line width height)
  unfolding convert_bayer_to_rgb
  convert_bayer_to_rgb-frame width height unset two three =
      bayer_lines-frame height width height 0 0 unset width (omega arith) three two (omega arith)
        (λ h. omega arith) (λ h. absurd (omega (arith, h)))
