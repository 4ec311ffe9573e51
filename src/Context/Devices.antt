-- ===== src/Context/Devices.antt =====
-- Opening and closing devices, against the list of the open ones.
use soqv.Base.{
  ℕ, zero, suc, ◌<◌, ◌≡◌, ◌≢◌, refl, sym, ap, ◌∙◌, inl, inr, true, false, Bool-cases, Option, none,
  some, List, [], ◌∷◌, ◌++◌, length, arith, ◌==◌, if◌then◌else◌,
}
use mathlib.Core.Path.{subst}
use soqv.Base.Int.{ℤ, pos, negsuc}
use soqv.Memory.{Ptr}
use soqv.Context.{
  Context, set_next, find_device, link, link_from, link_after, open_device, opened_result,
  close_device, unlink,
}
use soqv.Context.Search.{Search, found, missing, find-Search, member}
use soqv.Context.Chain.{
  Chain, Absent, Distinct, erase, last_of, Chain-frame, last_device_lem, Chain-snoc, set_next-same,
}

-- What a context's list is, and that no device is in it twice.
pub record IsList (ctx : Context) (xs : List ℕ) : Type 0 where
  pub chain : Chain ctx.next ctx.first xs
  pub distinct : Distinct xs

Absent-snoc : (w a : ℕ) (xs : List ℕ) → Absent w xs → w ≢ a → Absent w (xs ++ (a ∷ []))
Absent-snoc w a [] h n = (n, tt)
Absent-snoc w a (x ∷ xs) (h, hs) n = (h, Absent-snoc w a xs hs n)

Distinct-snoc : (a : ℕ) (xs : List ℕ) → Distinct xs → Absent a xs → Distinct (xs ++ (a ∷ []))
Distinct-snoc a [] d h = (tt, tt)
Distinct-snoc a (x ∷ xs) (dx, d) (h, hs) =
    (Absent-snoc x a xs dx (λ e. h (sym e)), Distinct-snoc a xs d hs)

Absent-erase : (w a : ℕ) (xs : List ℕ) → Absent w xs → Absent w (erase a xs)
Absent-erase w a [] h = tt
Absent-erase w a (x ∷ xs) (h, hs) = elim (Bool-cases (x == a)) [
  | inl same ↦ rw same hs
  | inr other ↦ rw other (h, Absent-erase w a xs hs)
]

Distinct-erase : (a : ℕ) (xs : List ℕ) → Distinct xs → Distinct (erase a xs)
Distinct-erase a [] d = tt
Distinct-erase a (x ∷ xs) (dx, d) = elim (Bool-cases (x == a)) [
  | inl same ↦ rw same d
  | inr other ↦ rw other (Absent-erase x a xs dx, Distinct-erase a xs d)
]

-- The list with a new device hung at its end.
link-IsList :
    (fuel pdev : ℕ) (ctx : Context) (xs : List ℕ)
    → IsList ctx xs
    → Absent pdev xs
    → ctx.next pdev ≡ none
    → length xs < fuel
    → (ctx' : Context) × (link fuel pdev ctx ≡ some ctx') × IsList ctx' (xs ++ (pdev ∷ []))
link-IsList fuel pdev ctx [] l a end h = (
  record ctx { first = some pdev },
  ap (link_from fuel pdev ctx) l.chain,
  record { chain = (refl, end); distinct = (tt, tt) },
)
link-IsList fuel pdev ctx (x ∷ xs) l a end h =
    let (e, c) = l.chain in
    (
      record ctx { next = set_next ctx.next (last_of x xs) (some pdev) },
      ap (link_from fuel pdev ctx) e
          ∙ ap (link_after pdev ctx) (last_device_lem fuel ctx.next x xs (omega arith) c),
      record {
        chain = Chain-snoc ctx.next pdev ctx.first x xs l.distinct a end e c;
        distinct = Distinct-snoc pdev (x ∷ xs) l.distinct a;
      },
    )

opened-some :
    (init : ℤ) (pdev : ℕ) (ctx : Context)
    → (res : ℤ) × (opened_result init pdev (some ctx) ≡ some (res, some pdev, ctx))
opened-some (pos n) pdev ctx = (pos 0, refl)
opened-some (negsuc e) pdev ctx = (negsuc 0, refl)

-- Opening a device that memory is there for and that the USB layer has opened returns, and puts the
-- new device at the end of the context's list, also if its camera is then not initialised. The fuel
-- is more than the number of open devices, none of which is at the new one's address.
pub open_device_appends :
    (fuel pdev n : ℕ) (init : ℤ) (ctx : Context) (xs : List ℕ)
    → IsList ctx xs
    → Absent pdev xs
    → length xs < fuel
    → (res : ℤ) × (ctx' : Context) × (open_device fuel (some pdev) (pos n) init ctx
        ≡ some (res, some pdev, ctx'))
      × IsList ctx' (xs ++ (pdev ∷ []))
unfolding open_device
open_device_appends fuel pdev n init ctx xs l a h =
    let cleared = record ctx { next = set_next ctx.next pdev none } in
    let l' : IsList cleared xs = record {
      chain = Chain-frame ctx.next pdev none ctx.first xs a l.chain;
      distinct = l.distinct;
    } in
    let (ctx', e, i) = link-IsList fuel pdev cleared xs l' a (set_next-same ctx.next pdev none) h in
    let (res, r) = opened-some init pdev ctx' in (res, ctx', ap (opened_result init pdev) e ∙ r, i)

-- What closing leaves, for a search that has started at the first device.
abbrev Closed : ℕ → Context → List ℕ → Option (Ptr × Ptr) → Type 0
Closed dev ctx xs search_result =
    (res : ℤ) × (ctx' : Context) × (unlink ctx search_result ≡ some (res, ctx'))
    × IsList ctx' (erase dev xs)
    × (res ≡ (if member dev xs then pos 0 else negsuc 0))

close-head :
    (fuel dev : ℕ) (ctx : Context) (x : ℕ) (xs : List ℕ)
    → IsList ctx (x ∷ xs)
    → (x == dev) ≡ true
    → Closed dev ctx (x ∷ xs) (find_device (suc fuel) ctx.next dev none (some x))
unfolding find_device
close-head fuel dev ctx x xs l same = (
  pos 0,
  record ctx { first = ctx.next x },
  rw (same, find_device) refl,
  rw same (record { chain = l.chain.1; distinct = l.distinct.1 }),
  rw same refl,
)

close-tail :
    (fuel dev : ℕ) (ctx : Context) (x : ℕ) (xs : List ℕ)
    → IsList ctx (x ∷ xs)
    → (x == dev) ≡ false
    → Search fuel ctx.next dev x xs
    → Closed dev ctx (x ∷ xs) (find_device (suc fuel) ctx.next dev none (some x))
unfolding find_device
close-tail fuel dev ctx x xs l other (found last f ch ne m) = (
  pos 0,
  record ctx { next = set_next ctx.next last (ctx.next dev) },
  rw (other, find_device) (ap (unlink ctx) f),
  rw other (record {
    chain = (l.chain.0, ch.1);
    distinct = (Absent-erase x dev xs l.distinct.0, Distinct-erase dev xs l.distinct.1);
  }),
  rw (other, m) refl,
)
close-tail fuel dev ctx x xs l other (missing last f er m) = (
  negsuc 0,
  ctx,
  rw (other, find_device) (ap (unlink ctx) f),
  rw other (subst (λ (t : List ℕ). IsList ctx (x ∷ t)) (sym er) l),
  rw (other, m) refl,
)

close-from :
    (fuel dev : ℕ) (ctx : Context) (xs : List ℕ)
    → IsList ctx xs
    → length xs < fuel
    → Closed dev ctx xs (find_device fuel ctx.next dev none ctx.first)
unfolding find_device
close-from zero dev ctx xs l h = absurd (omega arith)
close-from (suc fuel) dev ctx [] l h = (negsuc 0, ctx, rw (l.chain, find_device) refl, l, refl)
close-from (suc fuel) dev ctx (x ∷ xs) l h =
    subst (λ (t : Ptr). Closed dev ctx (x ∷ xs) (find_device (suc fuel) ctx.next dev none t))
      (sym l.chain.0)
      (elim (Bool-cases (x == dev)) [
        | inl same ↦ close-head fuel dev ctx x xs l same
        | inr other ↦
            close-tail fuel dev ctx x xs l other
              (find-Search fuel ctx.next dev x xs (omega arith) l.distinct l.chain.1)
      ])

-- Closing a device that the USB layer has closed returns, and takes exactly that device out of the
-- context's list, wherever it stands; the result is 0 if it was in the list and -1 if it was not.
-- The fuel is more than the number of open devices.
pub close_device_removes :
    (fuel dev n : ℕ) (ctx : Context) (xs : List ℕ)
    → IsList ctx xs
    → length xs < fuel
    → (res : ℤ) × (ctx' : Context) × (close_device fuel dev (pos n) ctx ≡ some (res, ctx'))
      × IsList ctx' (erase dev xs)
      × (res ≡ (if member dev xs then pos 0 else negsuc 0))
unfolding close_device
close_device_removes fuel dev n ctx xs l h = close-from fuel dev ctx xs l h
