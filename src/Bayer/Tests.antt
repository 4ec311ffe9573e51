-- ===== src/Bayer/Tests.antt =====
-- A frame of 3 lines and 3 columns.
use soqv.Base.{ℕ, ◌*◌, ◌%◌, ◌^◌, ◌<◌, ◌≡◌, refl, [], ◌∷◌, arith}
use soqv.Bayer.{bayer_loop, bayer_line, bayer_lines, convert_bayer_to_rgb}
use soqv.Bayer.Line.{pixels}
use soqv.Bayer.Reference.{frame_line, convert_bayer_to_rgb-frame}

abbrev raw : ℕ → ℕ
raw i = i * 10 % 2 ^ 8

raw_bytes : (i : ℕ) → raw i < 2 ^ 8
raw_bytes i = omega arith

small_frame :
    convert_bayer_to_rgb raw 3 3 99
    ≡ 10 ∷ 0 ∷ 30 ∷ 10 ∷ 25 ∷ 40 ∷ 10 ∷ 20 ∷ 50 ∷ 40 ∷ 35 ∷ 30 ∷ 40 ∷ 40 ∷ 40 ∷ 40 ∷ 45 ∷ 50 ∷ 70
      ∷ 60 ∷ 30 ∷ 70 ∷ 55 ∷ 40 ∷ 70 ∷ 80 ∷ 50 ∷ []
unfolding convert_bayer_to_rgb bayer_lines bayer_line bayer_loop
small_frame = refl

convert_bayer_to_rgb-frame_example :
    convert_bayer_to_rgb raw 3 3 99 ≡ pixels 3 0 (frame_line raw raw_bytes 3 3)
convert_bayer_to_rgb-frame_example =
    convert_bayer_to_rgb-frame raw raw_bytes 3 3 99 (omega arith) (omega arith)
