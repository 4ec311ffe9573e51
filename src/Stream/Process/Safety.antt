-- ===== src/Stream/Process/Safety.antt =====
-- `stream_process` writes only inside the raw buffer.
use soqv.Base.{
  ℕ, suc, ◌+◌, ◌*◌, ◌-◌, ◌≤◌, ◌<◌, ◌≡◌, refl, Option, none, some, List, length, drop, arith,
  Bool-cases, ◌∙◌, ltb, Bool, true, false, not, ◌&&◌, inl, inr, if◌then◌else◌, ◌==◌,
}
use soqv.Memory.{Ptr, Heap, Holds, copy_to-Holds}
use soqv.Stream.Packet.{Stream, PktHdr, pkt_hdr}
use soqv.Stream.Setup.Layout.{IsLayout}
use soqv.Stream.Process.{
  ChunkCb, Outcome, Phase, ret, go, sync, recover, check, deliver, advance, phases, finish, copied,
  stream_process, expected_pkt_size, ◌>=>◌,
}

-- The fields that no packet changes.
pub record SameShape (s t : Stream) : Type 0 where
  pub same_count : t.pkts_per_frame ≡ s.pkts_per_frame
  pub same_size : t.pkt_size ≡ s.pkt_size
  pub same_last : t.last_pkt_size ≡ s.last_pkt_size
  pub same_frame : t.frame_size ≡ s.frame_size
  pub same_raw : t.raw_buf ≡ s.raw_buf

SameShape-IsLayout : {s t : Stream} → SameShape s t → IsLayout s → IsLayout t
SameShape-IsLayout e l = ground arith

abbrev stream_of : Phase → Stream
stream_of (ret _ s) = s
stream_of (go _ s) = s

sync-SameShape : (hdr : PktHdr) (s : Stream) → SameShape s (stream_of (sync hdr s))
unfolding sync
sync-SameShape hdr s = ground arith

recover-SameShape : (hdr : PktHdr) (s : Stream) → SameShape s (stream_of (recover hdr s))
unfolding recover
recover-SameShape hdr s = ground arith

check-SameShape :
    (hdr : PktHdr) (n got : ℕ) (s : Stream) → SameShape s (stream_of (check hdr n got s))
unfolding check
check-SameShape hdr n got s = ground arith

SameShape-trans : {s t u : Stream} → SameShape s t → SameShape t u → SameShape s u
SameShape-trans a b = ground arith

>=>-SameShape :
    {s : Stream} (m : Phase) (k : ℕ → Stream → Phase)
    → SameShape s (stream_of m)
    → ((got : ℕ) (t : Stream) → SameShape t (stream_of (k got t)))
    → SameShape s (stream_of (m >=> k))
>=>-SameShape (ret got t) k a b = a
>=>-SameShape (go got t) k a b = SameShape-trans a (b got t)

phases-SameShape : (hdr : PktHdr) (n : ℕ) (s : Stream) → SameShape s (stream_of (phases hdr n s))
unfolding phases
phases-SameShape hdr n s =
    >=>-SameShape (sync hdr s >=> (λ _ s₁. recover hdr s₁)) (λ got s₂. check hdr n got s₂)
      (>=>-SameShape (sync hdr s) (λ _ s₁. recover hdr s₁) (sync-SameShape hdr s)
        (λ _ s₁. recover-SameShape hdr s₁))
      (λ got s₂. check-SameShape hdr n got s₂)

next_le : (k c p : ℕ) → k + 1 < c → k * p + p ≤ (c - 1) * p
next_le k c p h = let e : c ≡ suc (c - 1) = omega arith in grind arith

pub inside_frame :
    (k c p l n f : ℕ)
    → k < c
    → l ≤ p
    → (c - 1) * p + l ≡ f
    → n ≤ (if k + 1 == c then l else p)
    → k * p + n ≤ f
inside_frame k c p l n f h hl e hn = elim (Bool-cases (k + 1 == c)) [
  | inl last ↦ let k' : k ≡ c - 1 = ground arith in ground (arith, k')
  | inr more ↦ ground (arith, next_le k c p)
]

-- What the checks have established of a packet that is to be copied.
check-fits :
    (hdr : PktHdr) (n got : ℕ) {got' : ℕ} {s s' : Stream}
    → IsLayout s
    → check hdr n got s ≡ go got' s'
    → (s' ≡ s) × (s.pkt_num < s.pkts_per_frame) × (n ≤ expected_pkt_size s)
unfolding check
check-fits hdr n got l e = ground arith

>=>-go :
    (m : Phase) (k : ℕ → Stream → Phase) {got : ℕ} {s : Stream}
    → (m >=> k) ≡ go got s
    → (got₁ : ℕ) × (s₁ : Stream) × (m ≡ go got₁ s₁) × (k got₁ s₁ ≡ go got s)
>=>-go (ret got t) k e = absurd (grind arith)
>=>-go (go got t) k e = (got, t, refl, e)

copy-inside :
    (hdr : PktHdr) (n got : ℕ) {got' : ℕ} {s t s' : Stream}
    → IsLayout s
    → SameShape s t
    → check hdr n got t ≡ go got' s'
    → s'.pkt_num * s'.pkt_size + n ≤ s'.frame_size
copy-inside hdr n got {t = t} l e c = ground (
  arith,
  check-fits hdr n got (SameShape-IsLayout e l) c,
  inside_frame t.pkt_num t.pkts_per_frame t.pkt_size t.last_pkt_size n t.frame_size,
  SameShape-IsLayout e l,
)

-- Only what fits in the frame is copied.
pub phases-fits :
    (hdr : PktHdr) (n : ℕ) {got : ℕ} {s s' : Stream}
    → IsLayout s
    → phases hdr n s ≡ go got s'
    → s'.pkt_num * s'.pkt_size + n ≤ s'.frame_size
unfolding phases
phases-fits hdr n {s} l e =
    let step = λ (got : ℕ) (s₂ : Stream). check hdr n got s₂ in
    let before = sync hdr s >=> (λ _ s₁. recover hdr s₁) in
    let (got₁, t, m, c) = >=>-go before step e in
    let shape : SameShape s (stream_of before) =
      >=>-SameShape (sync hdr s) (λ _ s₁. recover hdr s₁) (sync-SameShape hdr s)
        (λ _ s₁. recover-SameShape hdr s₁) in
    copy-inside hdr n got₁ l (rw m at shape) c

-- The stream's raw buffer holds a frame, cut into packets.
pub record Ready (s : Stream) (h : Heap) : Type 0 where
  pub layout : IsLayout s
  pub raw : Holds h s.raw_buf s.frame_size

-- A chunk callback that does not fault, and does not free or shrink the raw buffer.
abbrev pub IsHarmless : Option ChunkCb → Type 0
IsHarmless none = Unit
IsHarmless (some cb) =
    (p : Ptr) (payload : List ℕ) (k n : ℕ) (h : Heap)
    → Holds h p n
    → (h' : Heap) × (cb p payload k (length payload) h ≡ some h') × Holds h' p n

deliver-Holds :
    (cb : Option ChunkCb) (payload : List ℕ) (s : Stream) {h : Heap}
    → IsHarmless cb
    → Holds h s.raw_buf s.frame_size
    → s.pkt_num * s.pkt_size + length payload ≤ s.frame_size
    → (h' : Heap) × (deliver cb payload s h ≡ some h') × Holds h' s.raw_buf s.frame_size
unfolding deliver
deliver-Holds none payload s ok v fits = copy_to-Holds (s.pkt_num * s.pkt_size) payload v fits
deliver-Holds (some cb) payload s {h} ok v fits = ok s.raw_buf payload s.pkt_num s.frame_size h v

advance-SameShape : (hdr : PktHdr) (n got : ℕ) (s : Stream) → SameShape s (advance hdr n got s).1
unfolding advance
advance-SameShape hdr n got s = ground arith

SameShape-Ready :
    {s t : Stream} {h : Heap}
    → SameShape s t
    → IsLayout s
    → Holds h s.raw_buf s.frame_size
    → Ready t h
SameShape-Ready e l v = record {
  layout = SameShape-IsLayout e l;
  raw = record {
    addr = v.addr;
    bytes = v.bytes;
    points = e.same_raw ∙ v.points;
    stored = v.stored;
    room = omega (arith, v.room, e.same_frame);
  };
}

abbrev Fits : ℕ → Phase → Type 0
Fits n (ret got t) = Unit
Fits n (go got t) = t.pkt_num * t.pkt_size + n ≤ t.frame_size

phases-Fits : (hdr : PktHdr) (n : ℕ) (s : Stream) → IsLayout s → Fits n (phases hdr n s)
phases-Fits hdr n s l = go_on (phases hdr n s) refl
  where
    go_on : (m : Phase) → phases hdr n s ≡ m → Fits n m
    go_on (ret got t) e = tt
    go_on (go got t) e = phases-fits hdr n l e

-- The packet is handled without a fault, and the stream stays ready.
pub record Handled (o : Outcome) : Type 0 where
  pub size : ℕ
  pub stream : Stream
  pub heap : Heap
  pub returns : o ≡ some (size, stream, heap)
  pub ready : Ready stream heap

finish-Handled :
    (cb : Option ChunkCb) (hdr : PktHdr) (payload : List ℕ) {s : Stream} {h : Heap} (m : Phase)
    → IsHarmless cb
    → Ready s h
    → SameShape s (stream_of m)
    → Fits (length payload) m
    → Handled (finish cb hdr payload h m)
unfolding finish
finish-Handled cb hdr payload {h = h} (ret got t) ok r e fits = record {
  size = got;
  stream = t;
  heap = h;
  returns = refl;
  ready = SameShape-Ready e r.layout r.raw;
}
finish-Handled cb hdr payload {h = h} (go got t) ok r e fits =
    let now = SameShape-Ready e r.layout r.raw in
    let (h', eq, v) = deliver-Holds cb payload t ok now.raw fits in
    let next = advance hdr (length payload) got t in
    record {
      size = next.0;
      stream = next.1;
      heap = h';
      returns = rw (eq, copied);
      ready = SameShape-Ready (advance-SameShape hdr (length payload) got t) now.layout v;
    }

if-Handled : (b : Bool) {x y : Outcome} → Handled x → Handled y → Handled (if b then x else y)
if-Handled true a b = a
if-Handled false a b = b

-- On a ready stream and any packet, `stream_process` does not fault: whatever the packet's flags,
-- sequence number and length, it writes only inside the raw buffer; and the stream stays ready.
pub stream_process-Handled :
    (cb : Option ChunkCb) (pkt : List ℕ) (s : Stream) (h : Heap)
    → IsHarmless cb
    → Ready s h
    → Handled (stream_process cb pkt s h)
unfolding stream_process
stream_process-Handled cb pkt s h ok r =
    let hdr = pkt_hdr pkt in
    let n = length (drop 12 pkt) in
    let untouched : Handled (some (0, s, h)) = record {
      size = 0;
      stream = s;
      heap = h;
      returns = refl;
      ready = r;
    } in
    if-Handled (ltb (length pkt) 12) untouched (
      if-Handled (not (hdr.magic0 == b'R' && hdr.magic1 == b'B')) untouched (
        finish-Handled cb hdr (drop 12 pkt) (phases hdr n s) ok r (phases-SameShape hdr n s)
          (phases-Fits hdr n s r.layout)))
