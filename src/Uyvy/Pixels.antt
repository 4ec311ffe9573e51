-- ===== src/Uyvy/Pixels.antt =====
-- What each place of a converted frame holds, by its position alone.
use soqv.Base.{
  ℕ, zero, suc, ◌+◌, ◌-◌, ◌*◌, ◌%◌, ◌≤◌, ◌<◌, ◌≡◌, ◌⊎◌, inl, inr, refl, ◌∙◌, arith, ◌==◌, leb,
  Bool-cases, if◌then◌else◌,
}
use mathlib.Core.Path.{transport}
use soqv.Uyvy.{red, green, blue, uyvy_pair, uyvy_line, uyvy_lines, convert_uyvy_to_rgb}

module _ (raw_buf : ℕ → ℕ) where
  -- The byte number `c` of the pixel number `p`: its own brightness, and the colour of its pair.
  abbrev pub pixel_byte : ℕ → ℕ → ℕ
  pixel_byte p c =
      let pair = p - p % 2 in
      let u = raw_buf (2 * pair) in
      let y = raw_buf (2 * p + 1) in
      let v = raw_buf (2 * pair + 2) in
      if c == 0 then red y v else if c == 1 then green y u v else blue y u

  -- The first `m` pixels are done and the rest is as it was.
  pub record IsDone (before : ℕ → ℕ) (m : ℕ) (proc_buf : ℕ → ℕ) : Type 0 where
    pub done : (p c : ℕ) → p < m → c < 3 → proc_buf (3 * p + c) ≡ pixel_byte p c
    pub rest : (k : ℕ) → 3 * m ≤ k → proc_buf k ≡ before k

  other_pair :
      (i k : ℕ) (proc_buf : ℕ → ℕ)
      → (k < 3 * i) ⊎ (3 * i + 6 ≤ k)
      → uyvy_pair raw_buf i proc_buf k ≡ proc_buf k
  unfolding uyvy_pair
  other_pair i k proc_buf h = ground (arith, h)

  pair_start : (i r : ℕ) → i % 2 ≡ 0 → r < 2 → i + r - (i + r) % 2 ≡ i
  pair_start i r even hr = omega arith

  second_brightness : (i : ℕ) → 2 * (i + 1) + 1 ≡ 2 * i + 3
  second_brightness i = omega arith

  in_pair :
      (i r c : ℕ) (proc_buf : ℕ → ℕ)
      → i % 2 ≡ 0
      → r < 2
      → c < 3
      → uyvy_pair raw_buf i proc_buf (3 * (i + r) + c) ≡ pixel_byte (i + r) c
  unfolding uyvy_pair
  in_pair i zero zero proc_buf even hr hc = ground (arith, pair_start i 0 even (omega arith))
  in_pair i zero (suc zero) proc_buf even hr hc = ground (arith, pair_start i 0 even (omega arith))
  in_pair i zero (suc (suc zero)) proc_buf even hr hc =
      ground (arith, pair_start i 0 even (omega arith))
  in_pair i (suc zero) zero proc_buf even hr hc =
      ground (arith, pair_start i 1 even (omega arith), second_brightness i)
  in_pair i (suc zero) (suc zero) proc_buf even hr hc =
      ground (arith, pair_start i 1 even (omega arith), second_brightness i)
  in_pair i (suc zero) (suc (suc zero)) proc_buf even hr hc =
      ground (arith, pair_start i 1 even (omega arith), second_brightness i)
  in_pair i r (suc (suc (suc c))) proc_buf even hr hc = absurd (omega arith)
  in_pair i (suc (suc r)) c proc_buf even hr hc = absurd (omega arith)

  uyvy_pair-IsDone :
      (before : ℕ → ℕ) (i : ℕ) (proc_buf : ℕ → ℕ)
      → i % 2 ≡ 0
      → IsDone before i proc_buf
      → IsDone before (i + 2) (uyvy_pair raw_buf i proc_buf)
  uyvy_pair-IsDone before i proc_buf even h = record {
    done = λ p c hp hc. elim (Bool-cases (leb i p)) [
      | inl new ↦
          let behind : i ≤ p = ground (arith, new) in
          let e : i + (p - i) ≡ p = omega arith in
          transport (λ j. uyvy_pair raw_buf i proc_buf (3 * e j + c) ≡ pixel_byte (e j) c)
            (in_pair i (p - i) c proc_buf even (omega arith) hc)
      | inr old ↦
          let before_pair : p < i = ground (arith, old) in
          other_pair i (3 * p + c) proc_buf (inl (omega arith)) ∙ h.done p c before_pair hc
    ];
    rest = λ k hk. other_pair i k proc_buf (inr (omega arith)) ∙ h.rest k (omega arith);
  }

  uyvy_line-IsDone :
      (before : ℕ → ℕ) (n i end : ℕ) (proc_buf : ℕ → ℕ)
      → i + n ≡ end
      → n % 2 ≡ 0
      → i % 2 ≡ 0
      → IsDone before i proc_buf
      → IsDone before end (uyvy_line raw_buf n i proc_buf)
  unfolding uyvy_line
  uyvy_line-IsDone before zero i end proc_buf e whole even h =
      let f : i ≡ end = omega arith in transport (λ j. IsDone before (f j) proc_buf) h
  uyvy_line-IsDone before (suc zero) i end proc_buf e whole even h = absurd (omega arith)
  uyvy_line-IsDone before (suc (suc n)) i end proc_buf e whole even h =
      uyvy_line-IsDone before n (i + 2) end (uyvy_pair raw_buf i proc_buf) (omega arith)
        (omega arith) (omega arith) (uyvy_pair-IsDone before i proc_buf even h)

  even_lines : (width y : ℕ) → width % 2 ≡ 0 → width * y % 2 ≡ 0
  even_lines width zero even = omega arith
  even_lines width (suc y) even =
      let e : width * suc y ≡ width * y + width = grind arith in
      let r : width * y % 2 ≡ 0 = even_lines width y even in rw e (omega arith)

  uyvy_lines-IsDone :
      (before : ℕ → ℕ) (n width y height : ℕ) (proc_buf : ℕ → ℕ)
      → y + n ≡ height
      → width % 2 ≡ 0
      → IsDone before (width * y) proc_buf
      → IsDone before (width * height) (uyvy_lines raw_buf n width y proc_buf)
  unfolding uyvy_lines
  uyvy_lines-IsDone before zero width y height proc_buf e even h =
      let f : y ≡ height = omega arith in transport (λ j. IsDone before (width * f j) proc_buf) h
  uyvy_lines-IsDone before (suc n) width y height proc_buf e even h =
      uyvy_lines-IsDone before n width (y + 1) height (uyvy_line raw_buf width (width * y) proc_buf)
        (omega arith) even
        (uyvy_line-IsDone before width (width * y) (width * (y + 1)) proc_buf (grind arith) even
          (even_lines width y even) h)

  -- The conversion of a frame of an even width: each byte of each pixel is the red, green or blue of
  -- the pixel's own brightness and of the two colour values of its pair, and nothing is written
  -- behind the frame.
  pub convert_uyvy_to_rgb-IsDone :
      (width height : ℕ) (proc_buf : ℕ → ℕ)
      → width % 2 ≡ 0
      → IsDone proc_buf (width * height) (convert_uyvy_to_rgb raw_buf width height proc_buf)
  unfolding convert_uyvy_to_rgb
  convert_uyvy_to_rgb-IsDone width height proc_buf even =
      uyvy_lines-IsDone proc_buf height width 0 height proc_buf (omega arith) even
        (record { done = λ p c hp hc. absurd (omega arith); rest = λ k hk. refl })
