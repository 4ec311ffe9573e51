-- ===== src/Registration/Metric.antt =====
-- A frame in millimetres has one value for each pixel, none beyond the greatest.
use soqv.Base.{ℕ, ◌<◌, ◌≡◌, refl, ap, ◌∙◌, some, List, [], ◌∷◌, arith, min, map}
use soqv.Registration.{
  Registration, metric_of, metric_then, clamp_metric, depth_max_metric_value,
  apply_depth_unpacked_to_mm,
}

abbrev pub InTable : List ℕ → Type 0
InTable [] = Unit
InTable (raw ∷ raws) = (raw < 2048) × InTable raws

-- A frame of raw depths below 2048 is converted pixel by pixel to the lesser of the table's value and
-- 10000.
pub apply_depth_unpacked_to_mm_lem :
    (reg : Registration) (raws : List ℕ)
    → InTable raws
    → apply_depth_unpacked_to_mm reg raws
      ≡ some (map (λ (raw : ℕ). min (reg.raw_to_mm_shift raw) depth_max_metric_value) raws)
unfolding apply_depth_unpacked_to_mm
apply_depth_unpacked_to_mm_lem reg [] h = refl
apply_depth_unpacked_to_mm_lem reg (raw ∷ raws) (small, rest) =
    let m : metric_of reg raw ≡ some (reg.raw_to_mm_shift raw) = ground (arith, small) in
    let c : clamp_metric (reg.raw_to_mm_shift raw)
        ≡ min (reg.raw_to_mm_shift raw) depth_max_metric_value =
      ground arith in
    (λ i. metric_then (m i) (apply_depth_unpacked_to_mm_lem reg raws rest i))
    ∙ ap
        (λ (d : ℕ).
          some (d ∷ map (λ (raw : ℕ). min (reg.raw_to_mm_shift raw) depth_max_metric_value) raws))
        c
