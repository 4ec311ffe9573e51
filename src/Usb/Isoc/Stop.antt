-- ===== src/Usb/Isoc/Stop.antt =====
-- Stopping a stream: the wait for its transfers comes to an end.
use soqv.Base.{
  ℕ, ◌≡◌, ◌≢◌, ◌⊎◌, refl, ap, sym, ◌∙◌, inl, inr, Bool, true, false, Option, none, some, List, [],
  ◌∷◌, arith, leb, ◌==◌, if◌then◌else◌, get_elem?, get_elem?-set_ne, set, Bool-cases,
}
use soqv.Usb.Isoc.{
  Xfer, null_xfer, idle, pending, IsocStream, lose_xfer, on_status, iso_callback, IsoEvent,
  give_back, deliver, deliver_all, wait, has_null, stop_iso,
}
use soqv.Usb.Isoc.Count.{pending_count, pending_count-none, get_elem?-set_at}
use soqv.Usb.Isoc.Reach.{Reach, Sound, deliver-Sound, Reach-Sound}

-- The transfer `i` is among those that are given back.
abbrev pub IsGiven : ℕ → List IsoEvent → Type 0
IsGiven i [] = ⊥
IsGiven i (ev ∷ evs) = (i ≡ ev.0) ⊎ IsGiven i evs

abbrev pub IsGivenIn : ℕ → List (List IsoEvent) → Type 0
IsGivenIn i [] = ⊥
IsGivenIn i (batch ∷ batches) = IsGiven i batch ⊎ IsGivenIn i batches

-- What an event changes in a stream that is being stopped.
record Quiet (strm strm' : IsocStream) : Type 0 where
  dead : strm'.dead ≡ true
  calls : strm'.calls ≡ strm.calls
  num : strm'.num_xfers ≡ strm.num_xfers

record Deaf (ev : ℕ) (strm strm' : IsocStream) : Type 0 where
  quiet : Quiet strm strm'
  taken :
      (i buf : ℕ)
      → get_elem? strm'.xfers i ≡ some (pending buf)
      → (get_elem? strm.xfers i ≡ some (pending buf)) × (i ≢ ev)

iso_callback-dead :
    (i buf : ℕ) (ev : IsoEvent) (strm : IsocStream)
    → strm.dead ≡ true
    → iso_callback i buf ev.1 ev.2 strm ≡ lose_xfer strm
unfolding iso_callback
iso_callback-dead i buf ev strm e =
    ap (λ (b : Bool). if b then lose_xfer strm else on_status i buf ev.2 ev.1 strm) e

give_back-Deaf :
    (ev : IsoEvent) (strm : IsocStream) (o : Option Xfer)
    → get_elem? strm.xfers ev.0 ≡ o
    → strm.dead ≡ true
    → Deaf ev.0 strm (give_back o ev strm)
give_back-Deaf ev strm none e d = record {
  quiet = record { dead = d; calls = refl; num = refl };
  taken = λ i buf q. (q, λ same. grind (arith, e, q, same));
}
give_back-Deaf ev strm (some null_xfer) e d = record {
  quiet = record { dead = d; calls = refl; num = refl };
  taken = λ i buf q. (q, λ same. grind (arith, e, q, same));
}
give_back-Deaf ev strm (some (idle b)) e d = record {
  quiet = record { dead = d; calls = refl; num = refl };
  taken = λ i buf q. (q, λ same. grind (arith, e, q, same));
}
give_back-Deaf ev strm (some (pending b)) e d =
    rw (iso_callback-dead ev.0 b ev (record strm { xfers = set strm.xfers ev.0 (idle b) }) d)
      (record {
        quiet = record { dead = d; calls = refl; num = refl };
        taken = λ i buf q. elim (Bool-cases (i == ev.0)) [
          | inl same ↦
              let s : i ≡ ev.0 = ground arith in
              absurd
                (idle_pending (sym (get_elem?-set_at strm.xfers ev.0 (idle b) e) ∙ (rw s at q)))
          | inr apart ↦
              let ne : ev.0 ≢ i = ground arith in
              (sym (get_elem?-set_ne strm.xfers (idle b) ne) ∙ q, λ s. ne (sym s))
        ];
      })
  where
    idle_pending : {buf : ℕ} → ◌≡◌ {A = Option Xfer} (some (idle b)) (some (pending buf)) → ⊥
    idle_pending q = ground arith

deliver-Deaf :
    (ev : IsoEvent) (strm : IsocStream) → strm.dead ≡ true → Deaf ev.0 strm (deliver ev strm)
unfolding deliver
deliver-Deaf ev strm d = give_back-Deaf ev strm (get_elem? strm.xfers ev.0) refl d

-- After a batch in a stream that is being stopped.
record Drained (evs : List IsoEvent) (strm strm' : IsocStream) : Type 0 where
  quiet : Quiet strm strm'
  sound : Sound strm'
  taken :
      (i buf : ℕ)
      → get_elem? strm'.xfers i ≡ some (pending buf)
      → (get_elem? strm.xfers i ≡ some (pending buf)) × ¬ IsGiven i evs

deliver_all-Drained :
    (evs : List IsoEvent) (strm : IsocStream)
    → strm.dead ≡ true
    → Sound strm
    → Drained evs strm (deliver_all evs strm)
unfolding deliver_all
deliver_all-Drained [] strm d v = record {
  quiet = record { dead = d; calls = refl; num = refl };
  sound = v;
  taken = λ i buf q. (q, λ given. given);
}
deliver_all-Drained (ev ∷ evs) strm d v =
    let one = deliver-Deaf ev strm d in
    let rest = deliver_all-Drained evs (deliver ev strm) one.quiet.dead (deliver-Sound ev strm v) in
    record {
      quiet = record {
        dead = rest.quiet.dead;
        calls = rest.quiet.calls ∙ one.quiet.calls;
        num = rest.quiet.num ∙ one.quiet.num;
      };
      sound = rest.sound;
      taken = λ i buf q.
          let (before, not_later) = rest.taken i buf q in
          let (first, not_now) = one.taken i buf before in (first, neither i not_now not_later);
    }
  where
    neither : (i : ℕ) → i ≢ ev.0 → ¬ IsGiven i evs → ¬ IsGiven i (ev ∷ evs)
    neither i p q (inl same) = p same
    neither i p q (inr later) = q later

-- The wait for a stream that is being stopped, if each transfer at libusb is given back.
record Waited (batches : List (List IsoEvent)) (strm : IsocStream) : Type 0 where
  final : IsocStream
  ends : wait batches strm ≡ some final
  none_left : pending_count final.xfers ≡ 0
  calls : final.calls ≡ strm.calls

finished :
    (batches : List (List IsoEvent)) (strm : IsocStream)
    → Sound strm
    → leb strm.num_xfers strm.dead_xfers ≡ true
    → Waited batches strm
unfolding wait
finished [] strm v e = record {
  final = strm;
  ends = ap (λ (b : Bool). if b then some strm else none) e;
  none_left = ground (arith, v.counted);
  calls = refl;
}
finished (batch ∷ batches) strm v e = record {
  final = strm;
  ends =
      ap (λ (b : Bool). elim b [ true ↦ some strm | false ↦ wait batches (deliver_all batch strm) ])
        e;
  none_left = ground (arith, v.counted);
  calls = refl;
}

wait_step :
    (batch : List IsoEvent) (batches : List (List IsoEvent)) (strm : IsocStream)
    → leb strm.num_xfers strm.dead_xfers ≡ false
    → wait (batch ∷ batches) strm ≡ wait batches (deliver_all batch strm)
unfolding wait
wait_step batch batches strm more =
    ap (λ (b : Bool). elim b [ true ↦ some strm | false ↦ wait batches (deliver_all batch strm) ])
      more

wait-Waited :
    (batches : List (List IsoEvent)) (strm : IsocStream)
    → strm.dead ≡ true
    → Sound strm
    → ((i buf : ℕ) → get_elem? strm.xfers i ≡ some (pending buf) → IsGivenIn i batches)
    → Waited batches strm
wait-Waited [] strm d v given =
    let zero_left = pending_count-none strm.xfers (λ i buf q. given i buf q) in
    finished [] strm v (ground (arith, v.counted, zero_left))
wait-Waited (batch ∷ batches) strm d v given =
    elim (Bool-cases (leb strm.num_xfers strm.dead_xfers)) [
      | inl done ↦ finished (batch ∷ batches) strm v done
      | inr more ↦
          let b = deliver_all-Drained batch strm d v in
          let rest = wait-Waited batches (deliver_all batch strm) b.quiet.dead b.sound (λ i buf q.
            let (before, not_now) = b.taken i buf q in later i (given i buf before) not_now) in
          record {
            final = rest.final;
            ends = wait_step batch batches strm more ∙ rest.ends;
            none_left = rest.none_left;
            calls = rest.calls ∙ b.quiet.calls;
          }
    ]
  where
    later : (i : ℕ) → IsGivenIn i (batch ∷ batches) → ¬ IsGiven i batch → IsGivenIn i batches
    later i (inl now) absent = absurd (absent now)
    later i (inr after) absent = after

-- However a stream came to its state, and however its transfers end, stopping it comes to an end
-- once libusb has given back each transfer that it had, if none of them is NULL; libusb then has none
-- of the transfers that are freed, and the client's callback has not been called since the stop.
pub stop_iso_ends :
    (batches : List (List IsoEvent)) (strm : IsocStream)
    → Reach strm
    → has_null strm.xfers ≡ false
    → ((i buf : ℕ) → get_elem? strm.xfers i ≡ some (pending buf) → IsGivenIn i batches)
    → (strm' : IsocStream) × (stop_iso batches strm ≡ some strm')
      × (pending_count strm'.xfers ≡ 0)
      × (strm'.calls ≡ strm.calls)
unfolding stop_iso
stop_iso_ends batches strm r whole given =
    let v = Reach-Sound (record strm { dead = true }) (Reach.stopping strm r) in
    let w = wait-Waited batches (record strm { dead = true }) refl v given in
    (
      w.final,
      ap (λ (b : Bool). if b then none else wait batches (record strm { dead = true })) whole
          ∙ w.ends,
      w.none_left,
      w.calls,
    )
