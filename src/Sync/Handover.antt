-- ===== src/Sync/Handover.antt =====
-- The camera's thread and a client's, in any order of their steps under the ring's lock.
use soqv.Base.{
  ℕ, sym, ◌∙◌, ◌≡◌, ◌≢◌, ap, Bool, true, false, Option, none, some, ◌==◌, if◌then◌else◌, arith,
}
use mathlib.Core.Path.{subst}
use soqv.Memory.{Ptr}
use soqv.Stream.Packet.{Stream}
use soqv.Stream.Setup.{stream_setbuf}
use soqv.Sync.{BufferRing, producer_cb_inner, sync_get}

-- `holds a` stands for what the buffer at `a` holds; `produced` is the last frame that the camera
-- has finished, `given` the last one that the client has got, each with its time.
pub record World : Type 0 where
  pub ring : BufferRing
  pub stream : Stream
  pub holds : ℕ → ℕ
  pub produced : Option (ℕ × ℕ)
  pub given : Option (ℕ × ℕ)

abbrev pub put : (ℕ → ℕ) → ℕ → ℕ → ℕ → ℕ
put f a v b = if a == b then v else f b

-- The camera writes to the buffer of its stream, finishes a frame there, or the client gets one.
pub data Step : World → World → Type 0 where
  write :
      (w : World) (a v : ℕ)
      → w.stream.proc_buf ≡ some a
      → Step w (record w { holds = put w.holds a v })
  produce :
      (w : World) (a timestamp : ℕ) (r : BufferRing) (s : Stream)
      → w.stream.proc_buf ≡ some a
      → producer_cb_inner stream_setbuf (some a) timestamp w.ring w.stream ≡ some (r, s)
      → Step w (record w { ring = r; stream = s; produced = some (w.holds a, timestamp) })
  get :
      (w : World) (a timestamp : ℕ) (r : BufferRing)
      → sync_get w.ring ≡ some (some a, timestamp, r)
      → Step w (record w { ring = r; given = some (w.holds a, timestamp) })

pub data Reach (s : World) : World → Type 0 where
  here : Reach s s
  next : {t u : World} → Reach s t → Step t u → Reach s u

-- What the client has got, if anything, is what its buffer still holds.
abbrev Kept : Option (ℕ × ℕ) → ℕ → Type 0
Kept none v = Unit
Kept (some (frame, _)) v = frame ≡ v

-- A frame that waits in the middle is the last one that was produced.
abbrev Waiting : Bool → Option (ℕ × ℕ) → ℕ → ℕ → Type 0
Waiting false produced v timestamp = Unit
Waiting true produced v timestamp = produced ≡ some (v, timestamp)

-- Three buffers, the camera's the last of them, the client's the first.
pub record Shared (w : World) : Type 0 where
  pub read : ℕ
  pub middle : ℕ
  pub written : ℕ
  pub at0 : w.ring.buf0 ≡ some read
  pub at1 : w.ring.buf1 ≡ some middle
  pub at2 : w.ring.buf2 ≡ some written
  pub apart01 : read ≢ middle
  pub apart02 : read ≢ written
  pub apart12 : middle ≢ written
  pub running : w.stream.running ≡ true
  pub target : w.stream.proc_buf ≡ some written
  pub kept : Kept w.given (w.holds read)
  pub waiting : Waiting w.ring.valid w.produced (w.holds middle) w.ring.timestamp

put-ne : (f : ℕ → ℕ) (a b v : ℕ) → b ≢ a → put f a v b ≡ f b
put-ne f a b v h = ground (arith, h)

write-Shared :
    (w : World) (a v : ℕ)
    → w.stream.proc_buf ≡ some a
    → Shared w
    → Shared (record w { holds = put w.holds a v })
write-Shared w a v e i =
    let same : a ≡ i.written = grind (arith, e, i.target) in
    record {
      read = i.read;
      middle = i.middle;
      written = i.written;
      at0 = i.at0;
      at1 = i.at1;
      at2 = i.at2;
      apart01 = i.apart01;
      apart02 = i.apart02;
      apart12 = i.apart12;
      running = i.running;
      target = i.target;
      kept =
          subst (Kept w.given) (sym (put-ne w.holds a i.read v (λ h. i.apart02 (h ∙ same)))) i.kept;
      waiting =
          subst (λ (t : ℕ). Waiting w.ring.valid w.produced t w.ring.timestamp)
            (sym (put-ne w.holds a i.middle v (λ h. i.apart12 (h ∙ same)))) i.waiting;
    }

-- What a callback on the frame in the camera's buffer does.
produce_lem :
    (frame : ℕ) {timestamp : ℕ} (ring : BufferRing) {r : BufferRing} (stream : Stream) {s : Stream}
    → stream.running ≡ true
    → producer_cb_inner stream_setbuf (some frame) timestamp ring stream ≡ some (r, s)
    → ring.buf1 ≢ none
    → (r.buf0 ≡ ring.buf0)
      × (r.buf1 ≡ ring.buf2)
      × (r.buf2 ≡ ring.buf1)
      × (r.valid ≡ true)
      × (r.timestamp ≡ timestamp)
      × (s.running ≡ true)
      × (s.proc_buf ≡ ring.buf1)
unfolding producer_cb_inner stream_setbuf
produce_lem frame ring stream run e h = ground (arith, run, e, h)

get_lem :
    (ring : BufferRing) {r : BufferRing} {p : Ptr} {timestamp : ℕ}
    → sync_get ring ≡ some (p, timestamp, r)
    → (ring.valid ≡ true)
      × (ring.buf1 ≡ p)
      × (ring.timestamp ≡ timestamp)
      × (r.buf0 ≡ ring.buf1)
      × (r.buf1 ≡ ring.buf0)
      × (r.buf2 ≡ ring.buf2)
      × (r.valid ≡ false)
unfolding sync_get
get_lem ring e = ground (arith, e)

Waiting-true :
    (b : Bool) {p : Option (ℕ × ℕ)} {v timestamp : ℕ}
    → p ≡ some (v, timestamp)
    → Waiting b p v timestamp
Waiting-true true e = e
Waiting-true false e = tt

Waiting-false :
    (b : Bool) (p : Option (ℕ × ℕ)) (v timestamp : ℕ) → b ≡ false → Waiting b p v timestamp
Waiting-false true p v timestamp e = absurd (ground arith)
Waiting-false false p v timestamp e = tt

Waiting-latest :
    (b : Bool) {p : Option (ℕ × ℕ)} {v timestamp : ℕ}
    → b ≡ true
    → Waiting b p v timestamp
    → p ≡ some (v, timestamp)
Waiting-latest true e h = h
Waiting-latest false e h = absurd (ground arith)

some_inj : {a b : ℕ} {o : Ptr} → o ≡ some a → o ≡ some b → a ≡ b
some_inj e f = grind (arith, e, f)

full : {a : ℕ} {o : Ptr} → o ≡ some a → o ≢ none
full e f = grind (arith, e, f)

produce-Shared :
    (w : World) (a timestamp : ℕ) (r : BufferRing) (s : Stream)
    → w.stream.proc_buf ≡ some a
    → producer_cb_inner stream_setbuf (some a) timestamp w.ring w.stream ≡ some (r, s)
    → Shared w
    → Shared (record w { ring = r; stream = s; produced = some (w.holds a, timestamp) })
produce-Shared w a timestamp r s e p i =
    let (e0, e1, e2, ev, et, er, ep) = produce_lem a w.ring w.stream i.running p (full i.at1) in
    let same : some (w.holds a, timestamp) ≡ some (w.holds i.written, r.timestamp) =
      ap (λ (t : ℕ). some (w.holds t, timestamp)) (some_inj e i.target)
      ∙ ap (λ (t : ℕ). some (w.holds i.written, t)) (sym et) in
    record {
      read = i.read;
      middle = i.written;
      written = i.middle;
      at0 = e0 ∙ i.at0;
      at1 = e1 ∙ i.at2;
      at2 = e2 ∙ i.at1;
      apart01 = i.apart02;
      apart02 = i.apart01;
      apart12 = λ h. i.apart12 (sym h);
      running = er;
      target = ep ∙ i.at1;
      kept = i.kept;
      waiting = Waiting-true r.valid same;
    }

get-Shared :
    (w : World) (a timestamp : ℕ) (r : BufferRing)
    → sync_get w.ring ≡ some (some a, timestamp, r)
    → Shared w
    → Shared (record w { ring = r; given = some (w.holds a, timestamp) })
get-Shared w a timestamp r e i =
    let (ev, e1, et, r0, r1, r2, rv) = get_lem w.ring e in
    record {
      read = i.middle;
      middle = i.read;
      written = i.written;
      at0 = r0 ∙ i.at1;
      at1 = r1 ∙ i.at0;
      at2 = r2 ∙ i.at2;
      apart01 = λ h. i.apart01 (sym h);
      apart02 = i.apart12;
      apart12 = i.apart02;
      running = i.running;
      target = i.target;
      kept = ap w.holds (some_inj e1 i.at1);
      waiting = Waiting-false r.valid _ _ _ rv;
    }

Step-Shared : {w u : World} → Step w u → Shared w → Shared u
Step-Shared (write w a v e) i = write-Shared w a v e i
Step-Shared (produce w a timestamp r s e p) i = produce-Shared w a timestamp r s e p i
Step-Shared (get w a timestamp r e) i = get-Shared w a timestamp r e i

get_once : (r : BufferRing) → r.valid ≡ false → sync_get r ≡ none
unfolding sync_get
get_once r e = ground (arith, e)

-- In any order of the camera's writes, finished frames and the client's gets, the three buffers
-- stay apart, the camera writes to the last one only, and what the client has got stays as it was
-- until it gets another frame; a frame that waits is the last one produced. This holds from any
-- world where it holds at the start.
pub Reach-Shared : {w u : World} → Reach w u → Shared w → Shared u
Reach-Shared here i = i
Reach-Shared (next r e) i = Step-Shared e (Reach-Shared r i)

-- In a world with shared buffers and a buffer that the camera writes, the camera's callback never
-- fails its assertion; and a get gives the frame that was produced last, with its time, from a
-- buffer that the camera does not write to.
pub handover_safe :
    (w : World) (a timestamp : ℕ)
    → w.stream.proc_buf ≡ some a
    → Shared w
    → (producer_cb_inner stream_setbuf (some a) timestamp w.ring w.stream ≢ none)
      × ((b time : ℕ) (r : BufferRing)
          → sync_get w.ring ≡ some (some b, time, r)
          → (w.produced ≡ some (w.holds b, time)) × (b ≢ a) × (sync_get r ≡ none))
unfolding producer_cb_inner
handover_safe w a timestamp e i = (
  λ h. ground (arith, some_inj e i.target, i.at2, h),
  λ b time r g.
      let (ev, e1, et, r0, r1, r2, rv) = get_lem w.ring g in
      let there : b ≡ i.middle = some_inj e1 i.at1 in
      (
        Waiting-latest w.ring.valid ev i.waiting
            ∙ ap (λ (t : ℕ). some (w.holds t, w.ring.timestamp)) (sym there)
            ∙ ap (λ (t : ℕ). some (w.holds b, t)) et,
        λ h. i.apart12 (sym there ∙ h ∙ some_inj e i.target),
        get_once r rv,
      ),
)
