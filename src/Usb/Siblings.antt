-- ===== src/Usb/Siblings.antt =====
-- Which device `fnusb_find_sibling_device` takes for a camera.
use soqv.Base.{
  ℕ, zero, suc, ◌+◌, ◌≡◌, refl, ap, sym, ◌∙◌, inl, inr, Bool, ◌&&◌, Option, none, some, List, [],
  ◌∷◌, arith, ◌==◌, if◌then◌else◌, Bool-cases,
}
use soqv.Usb.{
  Descriptor, UsbDevice, holds, same_parent, Matches, count_single, count_same_bus, or_else,
  sibling_loop, find_sibling_device,
}

abbrev pub filter : (UsbDevice → Bool) → List UsbDevice → List UsbDevice
filter p [] = []
filter p (d ∷ devs) = if p d then d ∷ filter p devs else filter p devs

-- The first of a list, and the only one of a list that has one.
abbrev pub first : List UsbDevice → Option UsbDevice
first [] = none
first (d ∷ devs) = some d

abbrev pub only : List UsbDevice → Option UsbDevice
only [] = none
only (d ∷ []) = some d
only (d ∷ (e ∷ devs)) = none

-- The devices that fit, those of them on the camera's bus, and those also behind its parent.
module _ (camera : UsbDevice) (predicate : Descriptor → Bool) where
  abbrev pub fits : UsbDevice → Bool
  fits d = holds predicate d.desc

  abbrev pub on_bus : UsbDevice → Bool
  on_bus d = fits d && camera.bus == d.bus

  abbrev pub beside : UsbDevice → Bool
  beside d = on_bus d && same_parent camera.parent d.parent

  -- What the rest of the devices make of the only one so far.
  abbrev more : ℕ → Option UsbDevice → List UsbDevice → Option UsbDevice
  more zero o devs = only devs
  more (suc zero) o [] = o
  more (suc zero) o (d ∷ devs) = none
  more (suc (suc n)) o devs = none

  -- The match is the only one so far, and there is none for another count.
  abbrev Tallied : ℕ → Option UsbDevice → Type 0
  Tallied zero o = o ≡ none
  Tallied (suc zero) o = Unit
  Tallied (suc (suc n)) o = o ≡ none

  more-nil : (n : ℕ) (o : Option UsbDevice) → Tallied n o → more n o [] ≡ o
  more-nil zero o t = sym t
  more-nil (suc zero) o t = refl
  more-nil (suc (suc n)) o t = sym t

  abbrev next_match : ℕ → UsbDevice → Option UsbDevice
  next_match n d = if n + 1 == 1 then some d else none

  more-cons :
      (n : ℕ) (o : Option UsbDevice) (d : UsbDevice) (devs : List UsbDevice)
      → more (n + 1) (next_match n d) devs ≡ more n o (d ∷ devs)
  more-cons zero o d [] = refl
  more-cons zero o d (e ∷ devs) = refl
  more-cons (suc zero) o d devs = refl
  more-cons (suc (suc n)) o d devs = ground arith

  Tallied-next : (n : ℕ) (d : UsbDevice) → Tallied (n + 1) (next_match n d)
  Tallied-next zero d = tt
  Tallied-next (suc n) d = ground arith

  abbrev best : Matches → List UsbDevice → Option UsbDevice
  best m devs = or_else (first (filter beside devs)) (
      or_else (more m.same_bus m.match_same_bus (filter on_bus devs))
        (more m.total m.match_single (filter fits devs)))

  sibling_loop-best :
      (devs : List UsbDevice) (m : Matches)
      → Tallied m.total m.match_single
      → Tallied m.same_bus m.match_same_bus
      → sibling_loop camera predicate devs m ≡ best m devs
  unfolding sibling_loop
  sibling_loop-best [] m t b = λ i.
      or_else (sym (more-nil m.same_bus m.match_same_bus b) i)
        (sym (more-nil m.total m.match_single t) i)
  sibling_loop-best (d ∷ devs) m t b = elim (Bool-cases (holds predicate d.desc)) [
    | inr unfit ↦ rw unfit (sibling_loop-best devs m t b)
    | inl fit ↦ elim (Bool-cases (camera.bus == d.bus)) [
      | inr far ↦
          rw (fit, far)
            (sibling_loop-best devs (count_single d m) (Tallied-next m.total d) b
              ∙ ap
                  (λ (o : Option UsbDevice).
                    or_else (first (filter beside devs))
                      (or_else (more m.same_bus m.match_same_bus (filter on_bus devs)) o))
                  (more-cons m.total m.match_single d (filter fits devs)))
      | inl near ↦ elim (Bool-cases (same_parent camera.parent d.parent)) [
        | inl sibling ↦ rw (fit, near, sibling) refl
        | inr stranger ↦
            rw (fit, near, stranger)
              (sibling_loop-best devs (count_same_bus d (count_single d m)) (Tallied-next m.total d)
                  (Tallied-next m.same_bus d)
                ∙ λ i. or_else (first (filter beside devs)) (
                    or_else (more-cons m.same_bus m.match_same_bus d (filter on_bus devs) i)
                      (more-cons m.total m.match_single d (filter fits devs) i)))
      ]
    ]
  ]

  -- The device taken for a camera's sibling is, of those that fit, the first on its bus behind the same
  -- parent; if there is none, the only one on its bus; if there is not exactly one, the only one of
  -- all; and else there is none.
  pub find_sibling_device-choice :
      (devs : List UsbDevice)
      → find_sibling_device camera predicate devs
        ≡ or_else
            (first (filter beside devs))
            (or_else (only (filter on_bus devs)) (only (filter fits devs)))
  unfolding find_sibling_device
  find_sibling_device-choice devs =
      sibling_loop-best devs
        (record { total = 0; same_bus = 0; match_single = none; match_same_bus = none }) refl refl
