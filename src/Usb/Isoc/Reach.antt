-- ===== src/Usb/Isoc/Reach.antt =====
-- The states of a stream that calls of the library and events of libusb lead to.
use soqv.Base.{
  ℕ, zero, suc, ◌+◌, ◌*◌, ◌≤◌, ◌≡◌, refl, ap, inl, inr, Bool, true, false, Option, none, some, List,
  [], ◌∷◌, arith, if◌then◌else◌, get_elem?, set, Bool-cases,
}
use soqv.Usb.Isoc.{
  Xfer, null_xfer, idle, pending, Status, completed, no_device, cancelled, other, Submitted,
  IsocStream, call_packets, lose_xfer, resubmit, on_status, iso_callback, IsoEvent, give_back,
  deliver, start_xfers, start_xfer, dead_at_start, start_iso,
}
use soqv.Usb.Isoc.Count.{
  weight, pending_count, pending_count-set, get_elem?-set_at, Fits, AllFit, AllFit-at, AllFit-set,
}

pub data Reach : IsocStream → Type 0 where
  started :
      (xfers pkts len : ℕ) (made : ℕ → Option Submitted) (device_dead : Bool)
      → Reach (start_iso xfers pkts len made device_dead)
  delivered : (ev : IsoEvent) (strm : IsocStream) → Reach strm → Reach (deliver ev strm)
  stopping : (strm : IsocStream) → Reach strm → Reach (record strm { dead = true })

-- A packet handed to the client lies within the buffer.
abbrev pub CallsFit : ℕ → ℕ → List (ℕ × ℕ) → Type 0
CallsFit len total [] = Unit
CallsFit len total (call ∷ calls) = (call.0 + len ≤ total) × CallsFit len total calls

pub record Sound (strm : IsocStream) : Type 0 where
  pub counted : strm.dead_xfers + pending_count strm.xfers ≡ strm.num_xfers
  pub size : strm.buffer_size ≡ strm.num_xfers * strm.pkts * strm.len
  pub fit : AllFit (strm.pkts * strm.len) strm.buffer_size strm.xfers
  pub calls_fit : CallsFit strm.len strm.buffer_size strm.calls

call_packets-CallsFit :
    (n i buf len total : ℕ) (actual : ℕ → ℕ) (calls : List (ℕ × ℕ))
    → buf + n * len ≤ total
    → CallsFit len total calls
    → CallsFit len total (call_packets n i buf len actual calls)
unfolding call_packets
call_packets-CallsFit zero i buf len total actual calls fits all = all
call_packets-CallsFit (suc n) i buf len total actual calls fits all =
    let m : suc n * len ≡ len + n * len = grind arith in
    call_packets-CallsFit n (i + 1) (buf + len) len total actual ((buf, actual i) ∷ calls)
      (omega (arith, m)) (omega (arith, m), all)

start_xfers-counted :
    (n i : ℕ) (made : ℕ → Option Submitted) (bufp size : ℕ)
    → let (xfers, dead) = start_xfers n i made bufp size in dead + pending_count xfers ≡ n
unfolding start_xfers
start_xfers-counted zero i made bufp size = refl
start_xfers-counted (suc n) i made bufp size =
    omega (arith, start_xfers-counted n (i + 1) made (bufp + size) size, one (made i))
  where
    one : (o : Option Submitted) → dead_at_start o + weight (start_xfer o bufp) ≡ 1
    one none = refl
    one (some none) = refl
    one (some (some e)) = refl

start_xfers-AllFit :
    (n i : ℕ) (made : ℕ → Option Submitted) (bufp size total : ℕ)
    → bufp + n * size ≤ total
    → AllFit size total (start_xfers n i made bufp size).0
unfolding start_xfers
start_xfers-AllFit zero i made bufp size total fits = tt
start_xfers-AllFit (suc n) i made bufp size total fits =
    let m : suc n * size ≡ size + n * size = grind arith in
    (
      one (made i) (omega (arith, m)),
      start_xfers-AllFit n (i + 1) made (bufp + size) size total (omega (arith, m)),
    )
  where
    one : (o : Option Submitted) → bufp + size ≤ total → Fits size total (start_xfer o bufp)
    one none h = tt
    one (some none) h = h
    one (some (some e)) h = h

start_iso-Sound :
    (xfers pkts len : ℕ) (made : ℕ → Option Submitted) (device_dead : Bool)
    → Sound (start_iso xfers pkts len made device_dead)
unfolding start_iso
start_iso-Sound xfers pkts len made device_dead = record {
  counted = start_xfers-counted xfers 0 made 0 (pkts * len);
  size = refl;
  fit = start_xfers-AllFit xfers 0 made 0 (pkts * len) (xfers * pkts * len) (grind arith);
  calls_fit = tt;
}

-- A transfer that the callback has in hand: one fewer is at libusb than `counted` says.
record InHand (i buf : ℕ) (strm : IsocStream) : Type 0 where
  counted : strm.dead_xfers + pending_count strm.xfers + 1 ≡ strm.num_xfers
  size : strm.buffer_size ≡ strm.num_xfers * strm.pkts * strm.len
  fit : AllFit (strm.pkts * strm.len) strm.buffer_size strm.xfers
  room : buf + strm.pkts * strm.len ≤ strm.buffer_size
  calls_fit : CallsFit strm.len strm.buffer_size strm.calls
  mine : get_elem? strm.xfers i ≡ some (idle buf)

resubmit-Sound :
    (i buf : ℕ) (res : Submitted) (strm : IsocStream)
    → InHand i buf strm
    → Sound (resubmit i buf res strm)
resubmit-Sound i buf none strm v = record {
  counted =
      omega (arith, v.counted, pending_count-set strm.xfers i (idle buf) (pending buf) v.mine);
  size = v.size;
  fit = AllFit-set (strm.pkts * strm.len) strm.buffer_size strm.xfers i (pending buf) v.fit v.room;
  calls_fit = v.calls_fit;
}
resubmit-Sound i buf (some e) strm v = record {
  counted = omega (arith, v.counted);
  size = v.size;
  fit = v.fit;
  calls_fit = v.calls_fit;
}

on_status-Sound :
    (i buf : ℕ) (res : Submitted) (status : Status) (strm : IsocStream)
    → InHand i buf strm
    → Sound (on_status i buf res status strm)
on_status-Sound i buf res (completed actual) strm v =
    resubmit-Sound i buf res
      (record strm { calls = call_packets strm.pkts 0 buf strm.len actual strm.calls })
      (record {
        counted = v.counted;
        size = v.size;
        fit = v.fit;
        room = v.room;
        calls_fit =
            call_packets-CallsFit strm.pkts 0 buf strm.len strm.buffer_size actual strm.calls v.room
              v.calls_fit;
        mine = v.mine;
      })
on_status-Sound i buf res no_device strm v = record {
  counted = omega (arith, v.counted);
  size = v.size;
  fit = v.fit;
  calls_fit = v.calls_fit;
}
on_status-Sound i buf res cancelled strm v = record {
  counted = omega (arith, v.counted);
  size = v.size;
  fit = v.fit;
  calls_fit = v.calls_fit;
}
on_status-Sound i buf res other strm v = resubmit-Sound i buf res strm v

iso_callback-Sound :
    (i buf : ℕ) (res : Submitted) (status : Status) (strm : IsocStream)
    → InHand i buf strm
    → Sound (iso_callback i buf status res strm)
unfolding iso_callback
iso_callback-Sound i buf res status strm v = elim (Bool-cases strm.dead) [
  | inl stopped ↦ rw (if_dead stopped) (record {
    counted = omega (arith, v.counted);
    size = v.size;
    fit = v.fit;
    calls_fit = v.calls_fit;
  })
  | inr live ↦ rw (if_live live) (on_status-Sound i buf res status strm v)
]
  where
    if_dead :
        strm.dead ≡ true
        → (if strm.dead then lose_xfer strm else on_status i buf res status strm) ≡ lose_xfer strm
    if_dead e = ap (λ (b : Bool). if b then lose_xfer strm else on_status i buf res status strm) e

    if_live :
        strm.dead ≡ false
        → (if strm.dead then lose_xfer strm else on_status i buf res status strm)
          ≡ on_status i buf res status strm
    if_live e = ap (λ (b : Bool). if b then lose_xfer strm else on_status i buf res status strm) e

give_back-Sound :
    (ev : IsoEvent) (strm : IsocStream) (o : Option Xfer)
    → get_elem? strm.xfers ev.0 ≡ o
    → Sound strm
    → Sound (give_back o ev strm)
give_back-Sound ev strm none e v = v
give_back-Sound ev strm (some null_xfer) e v = v
give_back-Sound ev strm (some (idle buf)) e v = v
give_back-Sound (i, status, res) strm (some (pending buf)) e v =
    iso_callback-Sound i buf res status (record strm { xfers = set strm.xfers i (idle buf) })
      (record {
        counted =
            omega (arith, v.counted, pending_count-set strm.xfers i (pending buf) (idle buf) e);
        size = v.size;
        fit =
            AllFit-set (strm.pkts * strm.len) strm.buffer_size strm.xfers i (idle buf) v.fit
              (AllFit-at (strm.pkts * strm.len) strm.buffer_size strm.xfers i v.fit e);
        room = AllFit-at (strm.pkts * strm.len) strm.buffer_size strm.xfers i v.fit e;
        calls_fit = v.calls_fit;
        mine = get_elem?-set_at strm.xfers i (idle buf) e;
      })

pub deliver-Sound : (ev : IsoEvent) (strm : IsocStream) → Sound strm → Sound (deliver ev strm)
unfolding deliver
deliver-Sound ev strm v = give_back-Sound ev strm (get_elem? strm.xfers ev.0) refl v

-- In every state of a stream that starts, takes events and stops, in any order, each of its
-- transfers either is at libusb or counts as dead, the buffers of all of them lie within the block of
-- the stream, and so do the packets handed to the client: each from its offset for the packet length
-- the stream was started with.
pub Reach-Sound : (strm : IsocStream) → Reach strm → Sound strm
Reach-Sound strm (started xfers pkts len made device_dead) =
    start_iso-Sound xfers pkts len made device_dead
Reach-Sound strm (delivered ev before r) = deliver-Sound ev before (Reach-Sound before r)
Reach-Sound strm (stopping before r) =
    let v = Reach-Sound before r in
    record { counted = v.counted; size = v.size; fit = v.fit; calls_fit = v.calls_fit }
