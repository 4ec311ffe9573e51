-- ===== src/Uyvy.antt =====
-- `convert_uyvy_to_rgb` of src/cameras.c: two pixels share their colour, and each has its brightness.
pub mod Pixels
mod Tests
use soqv.Base.{ℕ, zero, suc, ◌+◌, ◌*◌, ltb, if◌then◌else◌}
use soqv.Base.Int.{ℤ, pos, negsuc, ◌-ℤ◌, ◌+ℤ◌, ◌*ℤ◌}
use soqv.Registration.{put, div_toward_zero}

-- `CLAMP`, and a product of a difference, in thousandths.
abbrev pub clamp : ℤ → ℕ
clamp (pos n) = if ltb 255 n then 255 else n
clamp (negsuc e) = 0

abbrev pub scaled : ℕ → ℕ → ℕ → ℤ
scaled value offset factor = div_toward_zero ((pos value -ℤ pos offset) *ℤ pos factor) 1000

unfoldable pub red : ℕ → ℕ → ℕ
red y v = clamp (scaled y 16 1164 +ℤ scaled v 128 1596)

unfoldable pub green : ℕ → ℕ → ℕ → ℕ
green y u v = clamp (scaled y 16 1164 -ℤ scaled v 128 813 -ℤ scaled u 128 391)

unfoldable pub blue : ℕ → ℕ → ℕ
blue y u = clamp (scaled y 16 1164 +ℤ scaled u 128 2018)

module _ (raw_buf : ℕ → ℕ) where
  -- The body of the inner loop, for the pixels number `i` and `i + 1`.
  unfoldable pub uyvy_pair : ℕ → (ℕ → ℕ) → ℕ → ℕ
  uyvy_pair i proc_buf =
      let u = raw_buf (2 * i) in
      let y1 = raw_buf (2 * i + 1) in
      let v = raw_buf (2 * i + 2) in
      let y2 = raw_buf (2 * i + 3) in
      put (3 * i + 5) (blue y2 u) (
        put (3 * i + 4) (green y2 u v) (
          put (3 * i + 3) (red y2 v) (
            put (3 * i + 2) (blue y1 u)
              (put (3 * i + 1) (green y1 u v) (put (3 * i) (red y1 v) proc_buf)))))

  -- The loop over a line, with the number of columns left; an odd one writes past the line.
  unfoldable pub uyvy_line : ℕ → ℕ → (ℕ → ℕ) → ℕ → ℕ
  uyvy_line zero i proc_buf = proc_buf
  uyvy_line (suc zero) i proc_buf = uyvy_pair i proc_buf
  uyvy_line (suc (suc n)) i proc_buf = uyvy_line n (i + 2) (uyvy_pair i proc_buf)

  -- The loop over `n` lines, from number `y` on.
  unfoldable pub uyvy_lines : ℕ → ℕ → ℕ → (ℕ → ℕ) → ℕ → ℕ
  uyvy_lines zero width y proc_buf = proc_buf
  uyvy_lines (suc n) width y proc_buf =
      uyvy_lines n width (y + 1) (uyvy_line width (width * y) proc_buf)

  unfoldable pub convert_uyvy_to_rgb : ℕ → ℕ → (ℕ → ℕ) → ℕ → ℕ
  convert_uyvy_to_rgb width height proc_buf = uyvy_lines height width 0 proc_buf
