-- ===== src/Modes/Lookup.antt =====
-- What the search for a mode finds, and that setting it makes it the current one.
use soqv.Base.{
  ℕ, ◌+◌, ◌*◌, ◌/◌, ◌^◌, ◌<◌, ◌≡◌, refl, sym, ap, ◌∙◌, Bool, true, List, [], ◌∷◌, ◌==◌, ltb, ◌&&◌,
  arith, bit_and, bit_or, Bool-cases, inl, inr, ◌<<<◌,
}
use soqv.Base.Bits.{bit_or_shifted, bit_and_mask}
use soqv.Modes.{
  FrameMode, make_reserved, reserved_to_resolution, reserved_to_format, find_reserved, find_mode,
  find_video_mode, find_depth_mode, is_supported, supported_video_modes, supported_depth_modes,
}

-- A row describes itself: its identifier is made of its resolution and format, its frames have as
-- many bytes as their pixels take, and it is valid.
pub record IsRow (m : FrameMode) : Type 0 where
  pub identified : m.reserved ≡ make_reserved m.resolution m.format
  pub small_resolution : m.resolution < 2 ^ 8
  pub small_format : m.format < 2 ^ 8
  pub full_frame :
      m.bytes * 8 ≡ m.width * m.height * (m.data_bits_per_pixel + m.padding_bits_per_pixel)
  pub valid : m.is_valid ≡ true

abbrev pub IsTable : List FrameMode → Type 0
IsTable [] = Unit
IsTable (m ∷ modes) = IsRow m × IsTable modes

-- The same as a test.
abbrev row_ok : FrameMode → Bool
row_ok m =
    (m.reserved == make_reserved m.resolution m.format
      && (ltb m.resolution (2 ^ 8) && ltb m.format (2 ^ 8)))
    && (m.bytes * 8 == m.width * m.height * (m.data_bits_per_pixel + m.padding_bits_per_pixel)
        && m.is_valid)

row_ok-IsRow : (m : FrameMode) → row_ok m ≡ true → IsRow m
row_ok-IsRow m h = ground (arith, h)

abbrev rows_ok : List FrameMode → Bool
rows_ok [] = true
rows_ok (m ∷ modes) = row_ok m && rows_ok modes

both : (a b : Bool) → (a && b) ≡ true → (a ≡ true) × (b ≡ true)
both a b h = ground (arith, h)

rows_ok-IsTable : (modes : List FrameMode) → rows_ok modes ≡ true → IsTable modes
rows_ok-IsTable [] h = tt
rows_ok-IsTable (m ∷ modes) h =
    let (first, rest) = both (row_ok m) (rows_ok modes) h in
    (row_ok-IsRow m first, rows_ok-IsTable modes rest)

reserved_sum : (res fmt : ℕ) → res < 2 ^ 8 → fmt < 2 ^ 8 → make_reserved res fmt ≡ res * 2 ^ 8 + fmt
reserved_sum res fmt hr hf =
    let low : bit_and fmt 0xff ≡ fmt = omega (arith, bit_and_mask 8 fmt) in
    let high : bit_and res 0xff ≡ res = omega (arith, bit_and_mask 8 res) in
    ap (λ (t : ℕ). bit_or (t <<< 8) (bit_and fmt 0xff)) high
    ∙ ap (λ (t : ℕ). bit_or (res <<< 8) t) low
    ∙ bit_or_shifted 8 res fmt hf

pub reserved_parts :
    (res fmt : ℕ)
    → res < 2 ^ 8
    → fmt < 2 ^ 8
    → (reserved_to_resolution (make_reserved res fmt) ≡ res)
      × (reserved_to_format (make_reserved res fmt) ≡ fmt)
reserved_parts res fmt hr hf =
    let id = make_reserved res fmt in
    let sum = reserved_sum res fmt hr hf in
    (omega (arith, bit_and_mask 8 (id / 2 ^ 8), sum), omega (arith, bit_and_mask 8 id, sum))

-- The search against the test that `set_mode` makes.
find_reserved-supported :
    (id : ℕ) (junk : FrameMode) (modes : List FrameMode)
    → IsTable modes
    → (find_reserved id junk modes).is_valid ≡ is_supported id modes
unfolding find_reserved is_supported
find_reserved-supported id junk [] t = refl
find_reserved-supported id junk (m ∷ modes) (r, t) = elim (Bool-cases (m.reserved == id)) [
  | inl same ↦ rw (same, find_reserved, is_supported) r.valid
  | inr other ↦ rw (other, find_reserved, is_supported) (find_reserved-supported id junk modes t)
]

pub find_reserved-IsRow :
    (id : ℕ) (junk : FrameMode) (modes : List FrameMode)
    → IsTable modes
    → is_supported id modes ≡ true
    → IsRow (find_reserved id junk modes) × ((find_reserved id junk modes).reserved ≡ id)
unfolding find_reserved is_supported
find_reserved-IsRow id junk [] t h = absurd (ground arith)
find_reserved-IsRow id junk (m ∷ modes) (r, t) h = elim (Bool-cases (m.reserved == id)) [
  | inl same ↦ rw (same, find_reserved) (r, ground (arith, same))
  | inr other ↦
      rw (other, find_reserved) (find_reserved-IsRow id junk modes t (ground (arith, h, other)))
]

pub video-IsTable : IsTable supported_video_modes
video-IsTable = rows_ok-IsTable supported_video_modes refl

pub depth-IsTable : IsTable supported_depth_modes
depth-IsTable = rows_ok-IsTable supported_depth_modes refl

-- A mode that describes itself, for the resolution and format that were asked for.
pub record Found (res fmt : ℕ) (m : FrameMode) : Type 0 where
  pub is_row : IsRow m
  pub resolution : m.resolution ≡ res
  pub format : m.format ≡ fmt

same_parts :
    (res fmt res' fmt' : ℕ)
    → res < 2 ^ 8
    → fmt < 2 ^ 8
    → res' < 2 ^ 8
    → fmt' < 2 ^ 8
    → make_reserved res fmt ≡ make_reserved res' fmt'
    → (res ≡ res') × (fmt ≡ fmt')
same_parts res fmt res' fmt' hr hf hr' hf' e =
    let (r, f) = reserved_parts res fmt hr hf in
    let (r', f') = reserved_parts res' fmt' hr' hf' in
    (sym r ∙ ap reserved_to_resolution e ∙ r', sym f ∙ ap reserved_to_format e ∙ f')

find_mode-Found :
    (modes : List FrameMode) (junk : FrameMode) (res fmt : ℕ)
    → IsTable modes
    → res < 2 ^ 8
    → fmt < 2 ^ 8
    → is_supported (make_reserved res fmt) modes ≡ true
    → Found res fmt (find_mode modes junk res fmt)
find_mode-Found modes junk res fmt t hr hf h =
    let (r, e) = find_reserved-IsRow (make_reserved res fmt) junk modes t h in
    let m = find_mode modes junk res fmt in
    let (er, ef) =
      same_parts m.resolution m.format res fmt r.small_resolution r.small_format hr hf
        (sym r.identified ∙ e) in
    record { is_row = r; resolution = er; format = ef }

-- Searching for a video or a depth mode by any resolution and format of 8 bits: the result is marked
-- valid exactly if the table has that pair, and then it has that resolution and format, its frames
-- have as many bytes as their pixels' data and padding bits make, and its identifier is made of
-- the two. What an uninitialised result holds does not matter.
pub find_modes_right :
    (junk : FrameMode) (res fmt : ℕ)
    → res < 2 ^ 8
    → fmt < 2 ^ 8
    → ((find_video_mode junk res fmt).is_valid
        ≡ is_supported (make_reserved res fmt) supported_video_modes)
      × ((find_depth_mode junk res fmt).is_valid
          ≡ is_supported (make_reserved res fmt) supported_depth_modes)
      × ((find_video_mode junk res fmt).is_valid ≡ true
          → Found res fmt (find_video_mode junk res fmt))
      × ((find_depth_mode junk res fmt).is_valid ≡ true
          → Found res fmt (find_depth_mode junk res fmt))
find_modes_right junk res fmt hr hf =
    let id = make_reserved res fmt in
    let video = find_reserved-supported id junk supported_video_modes video-IsTable in
    let depth = find_reserved-supported id junk supported_depth_modes depth-IsTable in
    (
      video,
      depth,
      λ h. find_mode-Found supported_video_modes junk res fmt video-IsTable hr hf (sym video ∙ h),
      λ h. find_mode-Found supported_depth_modes junk res fmt depth-IsTable hr hf (sym depth ∙ h),
    )
