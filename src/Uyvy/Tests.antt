-- ===== src/Uyvy/Tests.antt =====
-- Two lines of two pixels, over an output of 99s.
use soqv.Base.{ℕ, ◌*◌, ◌%◌, ◌^◌, ◌≡◌, refl, [], ◌∷◌, map}
use soqv.Base.Int.{◌+ℤ◌, ◌-ℤ◌, ◌*ℤ◌}
use soqv.Uyvy.{red, green, blue, uyvy_pair, uyvy_line, uyvy_lines, convert_uyvy_to_rgb}
use soqv.Uyvy.Pixels.{IsDone, convert_uyvy_to_rgb-IsDone}

abbrev raw : ℕ → ℕ
raw i = i * 37 % 2 ^ 8

two_lines :
    map
      (convert_uyvy_to_rgb raw 2 2 (λ i. 99))
      (0 ∷ 1 ∷ 2 ∷ 3 ∷ 4 ∷ 5 ∷ 6 ∷ 7 ∷ 8 ∷ 9 ∷ 10 ∷ 11 ∷ 12 ∷ [])
    ≡ 0 ∷ 117 ∷ 0 ∷ 24 ∷ 203 ∷ 0 ∷ 255 ∷ 113 ∷ 236 ∷ 135 ∷ 0 ∷ 25 ∷ 99 ∷ []
unfolding convert_uyvy_to_rgb uyvy_lines uyvy_line uyvy_pair red green blue ◌+ℤ◌ ◌-ℤ◌ ◌*ℤ◌
two_lines = refl

convert_uyvy_to_rgb-IsDone_example : IsDone raw (λ i. 99) 4 (convert_uyvy_to_rgb raw 2 2 (λ i. 99))
convert_uyvy_to_rgb-IsDone_example = convert_uyvy_to_rgb-IsDone raw 2 2 (λ i. 99) refl
