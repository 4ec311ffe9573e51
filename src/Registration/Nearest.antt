-- ===== src/Registration/Nearest.antt =====
-- Each place of a registered frame holds the nearest of the depths that land there.
use soqv.Base.{
  ℕ, zero, suc, ◌+◌, ◌≤◌, ◌<◌, ◌≡◌, ◌≢◌, ◌⊎◌, refl, ap, sym, ◌∙◌, inl, inr, true, false, ◌||◌,
  Option, none, some, List, [], ◌∷◌, arith, ltb, leb, ◌==◌, get_elem?, Bool-cases,
}
use soqv.Registration.{
  Registration, frame_pixels, depth_no_mm_value, metric_of, lands, put, store, store_metric,
  register_from, apply_registration_unpacked,
}

-- A pixel of the frame, by its number, has the depth `d` and lands at `j`.
pub record Hits (reg : Registration) (i : ℕ) (raws : List ℕ) (j d : ℕ) : Type 0 where
  pub pixel : ℕ
  pub raw : ℕ
  pub value : get_elem? raws pixel ≡ some raw
  pub depth : metric_of reg raw ≡ some d
  pub place : lands reg (i + pixel) d ≡ some j

-- Every pixel has an entry in the table, and lands within the frame or nowhere.
unfoldable pub IsWithin : Registration → ℕ → List ℕ → Type 0
IsWithin reg i [] = Unit
IsWithin reg i (raw ∷ raws) =
    (raw < 2048)
    × ((j : ℕ) → lands reg i (reg.raw_to_mm_shift raw) ≡ some j → j < frame_pixels)
    × IsWithin reg (i + 1) raws

-- What a place held before, and after the pixels from number `i` on.
record Settled (reg : Registration) (i : ℕ) (raws : List ℕ) (j old new : ℕ) : Type 0 where
  origin : (new ≡ old) ⊎ Hits reg i raws j new
  kept : old ≢ 0 → (new ≢ 0) × (new ≤ old)
  nearest : (d : ℕ) → Hits reg i raws j d → (new ≢ 0) × (new ≤ d)

-- One pixel.
record Stored (o : Option ℕ) (d j old new : ℕ) : Type 0 where
  origin : (new ≡ old) ⊎ ((o ≡ some j) × (new ≡ d))
  kept : old ≢ 0 → (new ≢ 0) × (new ≤ old)
  nearest : o ≡ some j → (new ≢ 0) × (new ≤ d)

lands-pos : (reg : Registration) (i d j : ℕ) → lands reg i d ≡ some j → d ≢ 0
unfolding lands
lands-pos reg i d j e = ground (arith, e)

store-Stored :
    (o : Option ℕ) (d : ℕ) (output : ℕ → ℕ)
    → ((j : ℕ) → o ≡ some j → (j < frame_pixels) × (d ≢ 0))
    → (output' : ℕ → ℕ) × (store o d output ≡ some output')
      × ((j : ℕ) → Stored o d j (output j) (output' j))
store-Stored none d output within = (
  output,
  refl,
  λ j. record { origin = inl refl; kept = λ h. (h, omega arith); nearest = λ e. ground (arith, e) },
)
store-Stored (some t) d output within =
    let (small, positive) = within t refl in
    let inside : leb frame_pixels t ≡ false = ground (arith, small) in
    elim (Bool-cases (output t == depth_no_mm_value || ltb d (output t))) [
      | inl nearer ↦
          (put t d output, rw (inside, nearer) refl, λ j. at_place small positive nearer j)
      | inr further ↦ (
        output,
        rw (inside, further) refl,
        λ j. record {
          origin = inl refl;
          kept = λ h. (h, omega arith);
          nearest = λ e. beyond further j e;
        },
      )
    ]
  where
    at_place :
        t < frame_pixels
        → d ≢ 0
        → (output t == depth_no_mm_value || ltb d (output t)) ≡ true
        → (j : ℕ) → Stored (some t) d j (output j) (put t d output j)
    at_place small positive nearer j = elim (Bool-cases (t == j)) [
      | inl here ↦
          let e : t ≡ j = ground arith in
          rw (here, ← e)
            (record {
              origin = inr (refl, refl);
              kept = λ h. (positive, ground (arith, nearer, h));
              nearest = λ q. (positive, omega arith);
            })
      | inr apart ↦ rw apart (record {
        origin = inl refl;
        kept = λ h. (h, omega arith);
        nearest = λ q. ground (arith, q);
      })
    ]

    beyond :
        (output t == depth_no_mm_value || ltb d (output t)) ≡ false
        → (j : ℕ) → ◌≡◌ {A = Option ℕ} (some t) (some j)
        → (output j ≢ 0) × (output j ≤ d)
    beyond further j e = let same : t ≡ j = ground arith in rw (← same) (ground (arith, further))

-- A hit of the first pixel, or of a later one.
hit_cases :
    {reg : Registration} {i raw : ℕ} {raws : List ℕ} {j d : ℕ}
    → Hits reg i (raw ∷ raws) j d
    → ((metric_of reg raw ≡ some d) × (lands reg i d ≡ some j)) ⊎ Hits reg (i + 1) raws j d
hit_cases {reg} {i} {raw} {raws} {j} {d} h = at_pixel h.pixel h.raw h.value h.depth h.place
  where
    at_pixel :
        (k r : ℕ)
        → get_elem? (raw ∷ raws) k ≡ some r
        → metric_of reg r ≡ some d
        → lands reg (i + k) d ≡ some j
        → ((metric_of reg raw ≡ some d) × (lands reg i d ≡ some j)) ⊎ Hits reg (i + 1) raws j d
    at_pixel zero r v m p =
        let same : raw ≡ r = ground arith in
        let first : i + 0 ≡ i = omega arith in
        inl (ap (metric_of reg) same ∙ m, ap (λ (t : ℕ). lands reg t d) (sym first) ∙ p)
    at_pixel (suc k) r v m p =
        let later : i + suc k ≡ i + 1 + k = omega arith in
        inr (record {
          pixel = k;
          raw = r;
          value = v;
          depth = m;
          place = ap (λ (t : ℕ). lands reg t d) (sym later) ∙ p;
        })

later_hit :
    {reg : Registration} {i : ℕ} (raw : ℕ) {raws : List ℕ} {j d : ℕ}
    → Hits reg (i + 1) raws j d
    → Hits reg i (raw ∷ raws) j d
later_hit {reg} {i} raw {raws} {j} {d} h = record {
  pixel = suc h.pixel;
  raw = h.raw;
  value = h.value;
  depth = h.depth;
  place =
      let later : i + suc h.pixel ≡ i + 1 + h.pixel = omega arith in
      ap (λ (t : ℕ). lands reg t d) later ∙ h.place;
}

module _ (reg : Registration) where
  record Registered (i : ℕ) (raws : List ℕ) (output : ℕ → ℕ) : Type 0 where
    out : ℕ → ℕ
    returns : register_from reg i raws output ≡ some out
    settled : (j : ℕ) → Settled reg i raws j (output j) (out j)

  -- The place after one pixel and the rest.
  Settled-step :
      (i raw d : ℕ) (raws : List ℕ) (j old mid new : ℕ)
      → metric_of reg raw ≡ some d
      → Stored (lands reg i d) d j old mid
      → Settled reg (i + 1) raws j mid new
      → Settled reg i (raw ∷ raws) j old new
  Settled-step i raw d raws j old mid new m one rest = record {
    origin = from rest.origin one.origin;
    kept = λ h. let (p, q) = one.kept h in let (r, s) = rest.kept p in (r, omega (arith, q, s));
    nearest = λ d' h. near d' (hit_cases h);
  }
    where
      from :
          (new ≡ mid) ⊎ Hits reg (i + 1) raws j new
          → (mid ≡ old) ⊎ ((lands reg i d ≡ some j) × (mid ≡ d))
          → (new ≡ old) ⊎ Hits reg i (raw ∷ raws) j new
      from (inr h) o = inr (later_hit raw h)
      from (inl e) (inl o) = inl (e ∙ o)
      from (inl e) (inr (l, o)) =
          let here : i + 0 ≡ i = omega arith in
          let n : new ≡ d = e ∙ o in
          inr (record {
            pixel = 0;
            raw = raw;
            value = refl;
            depth = m ∙ ap (λ (t : ℕ). some t) (sym n);
            place = (λ t. lands reg (here t) (n t)) ∙ l;
          })

      near :
          (d' : ℕ)
          → ((metric_of reg raw ≡ some d') × (lands reg i d' ≡ some j)) ⊎ Hits reg (i + 1) raws j d'
          → (new ≢ 0) × (new ≤ d')
      near d' (inr h) = rest.nearest d' h
      near d' (inl (m', l)) =
          let same : d ≡ d' = some_inj (sym m ∙ m') in
          let (p, q) = one.nearest (ap (lands reg i) same ∙ l) in
          let (r, s) = rest.kept p in (r, omega (arith, q, s, same))
        where
          some_inj : {x y : ℕ} → ◌≡◌ {A = Option ℕ} (some x) (some y) → x ≡ y
          some_inj e = ground arith

  register_from-Registered :
      (i : ℕ) (raws : List ℕ) (output : ℕ → ℕ) → IsWithin reg i raws → Registered i raws output
  unfolding register_from IsWithin
  register_from-Registered i [] output within = record {
    out = output;
    returns = refl;
    settled = λ j. record {
      origin = inl refl;
      kept = λ h. (h, omega arith);
      nearest = λ d h. absurd (no_pixel h.pixel h.value);
    };
  }
    where
      no_pixel : (k : ℕ) {r : ℕ} → get_elem? {A = ℕ} [] k ≡ some r → ⊥
      no_pixel k e = ground arith
  register_from-Registered i (raw ∷ raws) output (small, lands_in, within) =
      let d = reg.raw_to_mm_shift raw in
      let m : metric_of reg raw ≡ some d = ground (arith, small) in
      let (mid, stored, one) =
        store-Stored (lands reg i d) d output (λ j e. (lands_in j e, lands-pos reg i d j e)) in
      let rest = register_from-Registered (i + 1) raws mid within in
      record {
        out = rest.out;
        returns =
            ap
              (λ (o : Option (ℕ → ℕ)). elim o [
                | none ↦ none
                | some output' ↦ register_from reg (i + 1) raws output'
              ])
              (ap (λ (t : Option ℕ). store_metric reg i t output) m ∙ stored)
            ∙ rest.returns;
        settled = λ j.
            Settled-step i raw d raws j (output j) (mid j) (rest.out j) m (one j) (rest.settled j);
      }

  -- If each raw depth of a frame has an entry in the table and its pixel lands within the frame or is
  -- passed over, the registration of the frame returns, and each place of the output is 0, or the depth
  -- of a pixel that lands there; and if any pixel lands there, it is not 0 and no further than any of
  -- them, in whatever order they come.
  pub apply_registration-nearest :
      (raws : List ℕ)
      → IsWithin reg 0 raws
      → (out : ℕ → ℕ) × (apply_registration_unpacked reg raws ≡ some out)
        × ((j : ℕ) → (out j ≡ 0) ⊎ Hits reg 0 raws j (out j))
        × ((j d : ℕ) → Hits reg 0 raws j d → (out j ≢ 0) × (out j ≤ d))
  unfolding apply_registration_unpacked
  apply_registration-nearest raws within =
      let r = register_from-Registered 0 raws (λ j. 0) within in
      (r.out, r.returns, λ j. (r.settled j).origin, λ j d h. (r.settled j).nearest d h)
