-- ===== src/Registration.antt =====
-- The registration of depth frames with the colour camera, in src/registration.c: raw depth to
-- millimetres, and each depth pixel moved to its place in the colour frame. The tables are given: they
-- are made in floating point.
pub mod Nearest
pub mod Metric
mod Tests
use soqv.Base.{
  ℕ, zero, suc, ◌+◌, ◌-◌, ◌*◌, ◌/◌, ◌%◌, ◌^◌, Bool, true, false, ◌&&◌, ◌||◌, Option, none, some,
  List, [], ◌∷◌, ltb, leb, ◌==◌, if◌then◌else◌, u32,
}
use soqv.Base.Int.{ℤ, pos, negsuc, ◌+ℤ◌}
use soqv.Unpack.{convert_packed11_to_16bit}

-- `raw_to_mm_shift` has 2048 entries, `depth_to_rgb_shift` 10000, and `registration_table` one pair for
-- each pixel.
pub record Registration : Type 0 where
  pub raw_to_mm_shift : ℕ → ℕ
  pub depth_to_rgb_shift : ℕ → ℤ
  pub registration_table : ℕ → ℤ × ℤ
  pub start_lines : ℕ

abbrev pub depth_x_res : ℕ
depth_x_res = 640

abbrev pub depth_y_res : ℕ
depth_y_res = 480

abbrev pub frame_pixels : ℕ
frame_pixels = 307200

abbrev pub depth_no_mm_value : ℕ
depth_no_mm_value = 0

abbrev pub depth_max_metric_value : ℕ
depth_max_metric_value = 10000

-- An `int32_t` as a `uint32_t`, and its division by a positive number, towards 0.
abbrev pub to_u32 : ℤ → ℕ
to_u32 (pos n) = n % 2 ^ 32
to_u32 (negsuc e) = 2 ^ 32 - 1 - e % 2 ^ 32

abbrev pub negated : ℕ → ℤ
negated zero = pos 0
negated (suc e) = negsuc e

abbrev pub div_toward_zero : ℤ → ℕ → ℤ
div_toward_zero (pos n) d = pos (n / d)
div_toward_zero (negsuc e) d = negated (suc e / d)

-- The entry of the table for a raw value: reading past it is undefined.
abbrev pub metric_of : Registration → ℕ → Option ℕ
metric_of reg raw = if ltb raw 2048 then some (reg.raw_to_mm_shift raw) else none

-- The new column and the index in the output of a pixel, whose subtraction wraps.
abbrev pub new_x : Registration → ℕ → ℕ → ℕ
new_x reg reg_index metric_depth = to_u32 (
    div_toward_zero ((reg.registration_table reg_index).0 +ℤ reg.depth_to_rgb_shift metric_depth)
      256)

abbrev pub target_index : Registration → ℕ → ℕ → ℕ
target_index reg reg_index nx =
    let ny = to_u32 (reg.registration_table reg_index).1 in
    u32 (u32 (ny * depth_x_res + nx) + 2 ^ 32 - u32 (depth_y_res * reg.start_lines))

-- Where the pixel number `i` lands, unless it has no depth, or lies outside.
unfoldable pub lands : Registration → ℕ → ℕ → Option ℕ
lands reg i metric_depth =
    let nx = new_x reg i metric_depth in
    if metric_depth == depth_no_mm_value || leb depth_max_metric_value metric_depth
    then none
    else if leb depth_x_res nx
    then none
    else some (target_index reg i nx)

-- The store of a depth: only in an empty place, or before what is further away. `none` is an access
-- outside of the output.
abbrev pub put : ℕ → ℕ → (ℕ → ℕ) → ℕ → ℕ
put target metric_depth output j = if target == j then metric_depth else output j

abbrev pub store : Option ℕ → ℕ → (ℕ → ℕ) → Option (ℕ → ℕ)
store none metric_depth output = some output
store (some target) metric_depth output =
    if leb frame_pixels target
    then none
    else if output target == depth_no_mm_value || ltb metric_depth (output target)
    then some (put target metric_depth output)
    else some output

abbrev pub store_metric : Registration → ℕ → Option ℕ → (ℕ → ℕ) → Option (ℕ → ℕ)
store_metric reg i none output = none
store_metric reg i (some metric_depth) output = store (lands reg i metric_depth) metric_depth output

-- The loop over the pixels from number `i` on.
unfoldable pub register_from : Registration → ℕ → List ℕ → (ℕ → ℕ) → Option (ℕ → ℕ)
register_from reg i [] output = some output
register_from reg i (raw ∷ raws) output = elim (store_metric reg i (metric_of reg raw) output) [
  | none ↦ none
  | some output' ↦ register_from reg (i + 1) raws output'
]

-- On an unpacked frame; the output is wiped first.
unfoldable pub apply_registration_unpacked : Registration → List ℕ → Option (ℕ → ℕ)
apply_registration_unpacked reg raws = register_from reg 0 raws (λ j. depth_no_mm_value)

-- On a packed frame.
abbrev pub with_frame : (List ℕ → Option (ℕ → ℕ)) → Option (List ℕ) → Option (ℕ → ℕ)
with_frame k none = none
with_frame k (some raws) = k raws

unfoldable pub apply_registration : Registration → List ℕ → Option (ℕ → ℕ)
apply_registration reg input =
    with_frame (apply_registration_unpacked reg) (convert_packed11_to_16bit frame_pixels input)

-- `freenect_apply_depth_unpacked_to_mm`, and on a packed frame.
abbrev pub clamp_metric : ℕ → ℕ
clamp_metric metric_depth =
    if ltb metric_depth depth_max_metric_value then metric_depth else depth_max_metric_value

abbrev pub metric_then : Option ℕ → Option (List ℕ) → Option (List ℕ)
metric_then none rest = none
metric_then (some metric_depth) none = none
metric_then (some metric_depth) (some rest) = some (clamp_metric metric_depth ∷ rest)

unfoldable pub apply_depth_unpacked_to_mm : Registration → List ℕ → Option (List ℕ)
apply_depth_unpacked_to_mm reg [] = some []
apply_depth_unpacked_to_mm reg (raw ∷ raws) =
    metric_then (metric_of reg raw) (apply_depth_unpacked_to_mm reg raws)

abbrev pub with_raws : (List ℕ → Option (List ℕ)) → Option (List ℕ) → Option (List ℕ)
with_raws k none = none
with_raws k (some raws) = k raws

unfoldable pub apply_depth_to_mm : Registration → List ℕ → Option (List ℕ)
apply_depth_to_mm reg input =
    with_raws (apply_depth_unpacked_to_mm reg) (convert_packed11_to_16bit frame_pixels input)
