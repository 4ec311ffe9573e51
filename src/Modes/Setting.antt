-- ===== src/Modes/Setting.antt =====
-- Setting a mode.
use soqv.Base.{
  ℕ, ◌<◌, ◌^◌, ◌≡◌, refl, ap, ◌∙◌, true, false, List, [], ◌∷◌, ◌==◌, Bool-cases, inl, inr, arith,
  if◌then◌else◌,
}
use soqv.Base.Int.{ℤ, pos, negsuc}
use soqv.Modes.{
  FrameMode, Camera, make_reserved, find_reserved, find_mode, is_supported, set_mode, invalid,
  reserved_to_resolution, reserved_to_format,
}
use soqv.Modes.Lookup.{IsTable, find_reserved-IsRow, reserved_parts}

set_accepted :
    (modes : List FrameMode) (m : FrameMode) (c : Camera)
    → c.running ≡ false
    → is_supported m.reserved modes ≡ true
    → ◌≡◌ {A = ℤ × Camera} (set_mode modes m c) (
      pos 0,
      record c {
        resolution = reserved_to_resolution m.reserved;
        format = reserved_to_format m.reserved;
      },
    )
unfolding set_mode
set_accepted modes m c idle h = ground (arith, idle, h)

set_mode-supported :
    (modes : List FrameMode) (m : FrameMode) (c : Camera) (res fmt : ℕ)
    → res < 2 ^ 8
    → fmt < 2 ^ 8
    → c.running ≡ false
    → m.reserved ≡ make_reserved res fmt
    → is_supported m.reserved modes ≡ true
    → ◌≡◌ {A = ℤ × Camera} (set_mode modes m c) (pos 0, record c { resolution = res; format = fmt })
unfolding set_mode
set_mode-supported modes m c res fmt hr hf idle e h =
    let (r, f) = reserved_parts res fmt hr hf in
    let kept = λ (x y : ℕ). record c { resolution = x; format = y } in
    set_accepted modes m c idle h
    ∙ ap (λ (t : ℕ). (pos 0, kept t (reserved_to_format m.reserved)))
        (ap reserved_to_resolution e ∙ r)
    ∙ ap (λ (t : ℕ). (pos 0, kept res t)) (ap reserved_to_format e ∙ f)

find_reserved-unsupported :
    (id : ℕ) (junk : FrameMode) (modes : List FrameMode)
    → is_supported id modes ≡ false
    → find_reserved id junk modes ≡ invalid junk
unfolding find_reserved is_supported
find_reserved-unsupported id junk [] h = refl
find_reserved-unsupported id junk (m ∷ modes) h = elim (Bool-cases (m.reserved == id)) [
  | inl same ↦ absurd (ground (arith, h, same))
  | inr other ↦
      rw (other, find_reserved) (find_reserved-unsupported id junk modes (ground (arith, h, other)))
]

set_running :
    (modes : List FrameMode) (m : FrameMode) (c : Camera)
    → c.running ≡ true
    → ◌≡◌ {A = ℤ × Camera} (set_mode modes m c) (negsuc 0, c)
unfolding set_mode
set_running modes m c h = ground (arith, h)

set_idle :
    (modes : List FrameMode) (m : FrameMode) (c : Camera)
    → c.running ≡ false
    → (set_mode modes m c).0 ≡ (if is_supported m.reserved modes then pos 0 else negsuc 0)
unfolding set_mode
set_idle modes m c h = ground (arith, h)

-- Setting the mode that was found for a resolution and a format of 8 bits: a running stream refuses
-- it with -1 and stays as it is; otherwise a supported pair becomes the current one, with result 0;
-- and for an unsupported pair, whose mode is marked invalid, the result depends on what its
-- uninitialised identifier happens to hold: it is 0 if that is in the table. The table describes
-- its rows truly.
pub set_found_mode :
    (modes : List FrameMode) (junk : FrameMode) (res fmt : ℕ) (c : Camera)
    → IsTable modes
    → res < 2 ^ 8
    → fmt < 2 ^ 8
    → (c.running ≡ true
        → ◌≡◌ {A = ℤ × Camera} (set_mode modes (find_mode modes junk res fmt) c) (negsuc 0, c))
      × (c.running ≡ false
          → is_supported (make_reserved res fmt) modes ≡ true
          → ◌≡◌ {A = ℤ × Camera}
              (set_mode modes (find_mode modes junk res fmt) c)
              (pos 0, record c { resolution = res; format = fmt }))
      × (c.running ≡ false
          → is_supported (make_reserved res fmt) modes ≡ false
          → (set_mode modes (find_mode modes junk res fmt) c).0
            ≡ (if is_supported junk.reserved modes then pos 0 else negsuc 0))
set_found_mode modes junk res fmt c t hr hf =
    let id = make_reserved res fmt in
    (
      set_running modes (find_mode modes junk res fmt) c,
      λ idle h.
          let (_, e) = find_reserved-IsRow id junk modes t h in
          set_mode-supported modes (find_mode modes junk res fmt) c res fmt hr hf idle e
            (ap (λ (n : ℕ). is_supported n modes) e ∙ h),
      λ idle h.
          ap (λ (m : FrameMode). (set_mode modes m c).0) (find_reserved-unsupported id junk modes h)
          ∙ set_idle modes (invalid junk) c idle,
    )
