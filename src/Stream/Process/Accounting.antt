-- ===== src/Stream/Process/Accounting.antt =====
-- What `stream_process` returns and counts, and where it puts packets after a loss.
use soqv.Base.{
  ℕ, ◌+◌, ◌*◌, ◌-◌, ◌%◌, ◌^◌, ◌≤◌, ◌<◌, ◌≡◌, ◌↔◌, ◌⊎◌, refl, Bool, true, false, Option, none, some,
  List, length, arith, u32, ltb, if◌then◌else◌, ◌≢◌, Bool-cases, not, ◌&&◌, ◌==◌, drop, inl, inr,
  ltb→lt, ◌∙◌,
}
use native.Mathlib.Nat.{mod-eq_of_lt, mod-eq-sub-mod}
use soqv.Memory.{Heap}
use soqv.Stream.Packet.{Stream, PktHdr, pkt_hdr}
use soqv.Stream.Setup.Layout.{IsLayout}
use soqv.Stream.Process.{
  ChunkCb, Phase, ret, go, sof, mof, eof, sync, recover, check, deliver, advance, phases, finish,
  stream_process, lost_packets, copied, Outcome, ◌>=>◌,
}

-- A fixed-length stream whose three flags differ, as those of 0x70 and 0x80 do.
pub record IsFixed (s : Stream) : Type 0 where
  pub fixed : s.variable_length ≡ false
  pub layout : IsLayout s
  pub eof_not_sof : ¬ (sof s ≡ eof s)
  pub eof_not_mof : ¬ (mof s ≡ eof s)

-- What a phase reports, and by how much it raises `valid_frames`.
record Reports (s : Stream) (got : ℕ) (t : Stream) : Type 0 where
  size : (got ≡ 0) ⊎ (got ≡ s.frame_size)
  frames : (got ≡ 0) ↔ (t.valid_frames ≡ s.valid_frames)
  grows : s.valid_frames ≤ t.valid_frames
  same_frame : t.frame_size ≡ s.frame_size

abbrev PhaseReports : Stream → Phase → Type 0
PhaseReports s (ret got t) = Reports s got t
PhaseReports s (go got t) = Reports s got t × IsFixed t

frame_pos : {s : Stream} → IsLayout s → 0 < s.frame_size
frame_pos l = omega (arith, l.covers, l.some_byte)

add-mod_below :
    (a b c : ℕ) → a < c → b < c → (a + b) % c ≡ (if ltb (a + b) c then a + b else a + b - c)
add-mod_below a b c h k = elim (Bool-cases (ltb (a + b) c)) [
  | inl below ↦ rw below (mod-eq_of_lt (ltb→lt _ _ below))
  | inr over ↦
      rw over (let le : c ≤ a + b = ground arith in mod-eq-sub-mod le ∙ mod-eq_of_lt (omega arith))
]

-- What a short loss does to a stream.
abbrev pub Moved : PktHdr → Stream → Phase → Type 0
Moved hdr s (ret _ _) = ⊥
Moved hdr s (go got t) =
    (t.seq ≡ hdr.seq)
    × (t.pkt_num ≡ (s.pkt_num + lost_packets hdr s) % s.pkts_per_frame)
    × (t.lost_pkts ≡ u32 (s.lost_pkts + lost_packets hdr s))
    × (got ≡ (if ltb (s.pkt_num + lost_packets hdr s) s.pkts_per_frame then 0 else s.frame_size))

-- In a fixed-length stream whose frames have more than 5 packets, and whose next packet has a place
-- within the frame, a loss of 1 to 5 packets moves that place ahead, round the end of the frame, by
-- as many packets as the sequence number has moved; the frame is reported exactly when the place goes
-- round its end; all lost packets are counted. Sequence numbers are bytes.
pub recover-Moved :
    (hdr : PktHdr) (s : Stream)
    → s.variable_length ≡ false
    → s.pkt_num < s.pkts_per_frame
    → 5 < s.pkts_per_frame
    → s.seq < 2 ^ 8
    → hdr.seq < 2 ^ 8
    → s.seq ≢ hdr.seq
    → lost_packets hdr s ≤ 5
    → Moved hdr s (recover hdr s)
unfolding recover
recover-Moved hdr s fixed inside many q q' differ few =
    ground (arith, add-mod_below s.pkt_num (lost_packets hdr s) s.pkts_per_frame)

-- A packet that passes the checks with an end-of-frame flag is the last of its frame.
check-passed :
    (hdr : PktHdr) (n got : ℕ) (t : Stream) {got' : ℕ} {t' : Stream}
    → IsFixed t
    → check hdr n got t ≡ go got' t'
    → (t' ≡ t) × (got' ≡ got) × (hdr.flag ≡ eof t → t.pkt_num + 1 ≡ t.pkts_per_frame)
unfolding check
check-passed hdr n got t f e = ground (arith, f)

check-stopped :
    (hdr : PktHdr) (n got : ℕ) (t : Stream) {got' : ℕ} {t' : Stream}
    → check hdr n got t ≡ ret got' t'
    → (got' ≡ got) × (t'.valid_frames ≡ t.valid_frames) × (t'.frame_size ≡ t.frame_size)
unfolding check
check-stopped hdr n got t e = ground arith

pub last_offset : (k c p l f : ℕ) → k + 1 ≡ c → (c - 1) * p + l ≡ f → k * p + l ≡ f
last_offset k c p l f e h = let k' : k ≡ c - 1 = omega arith in rw k' h

advance-Reports :
    (hdr : PktHdr) (n got : ℕ) (s t : Stream)
    → Reports s got t
    → IsFixed t
    → (hdr.flag ≡ eof t → t.pkt_num + 1 ≡ t.pkts_per_frame)
    → let (size, t') = advance hdr n got t in Reports s size t'
unfolding advance
advance-Reports hdr n got s t r f last = ground (
  arith,
  r,
  frame_pos f.layout,
  last_offset t.pkt_num t.pkts_per_frame t.pkt_size t.last_pkt_size t.frame_size,
  f.layout.covers,
)

Reports-trans : {s t u : Stream} {got : ℕ} → Reports s 0 t → Reports t got u → Reports s got u
Reports-trans a b = ground (arith, a, b)

before_check-Reports :
    (hdr : PktHdr) (s : Stream)
    → IsFixed s
    → PhaseReports s (sync hdr s >=> (λ _ s₁. recover hdr s₁))
unfolding sync recover
before_check-Reports hdr s f = ground (arith, f, frame_pos f.layout)

abbrev Reported : Stream → Outcome → Type 0
Reported s none = Unit
Reported s (some (size, s', _)) = Reports s size s'

copied-Reported :
    (hdr : PktHdr) (n got : ℕ) (s t : Stream) (o : Option Heap)
    → (let (size, t') = advance hdr n got t in Reports s size t')
    → Reported s (copied hdr n got t o)
unfolding copied
copied-Reported hdr n got s t none r = tt
copied-Reported hdr n got s t (some h) r = r

finish-Reported :
    (cb : Option ChunkCb) (hdr : PktHdr) (payload : List ℕ) (s : Stream) (h : Heap) (m : Phase)
    → PhaseReports s m
    → Reported s (finish cb hdr payload h (m >=> (λ got t. check hdr (length payload) got t)))
unfolding finish
finish-Reported cb hdr payload s h (ret got t) r = r
finish-Reported cb hdr payload s h (go got t) (r, f) =
    after_check (check hdr (length payload) got t) refl
  where
    after_check :
        (m : Phase) → check hdr (length payload) got t ≡ m → Reported s (finish cb hdr payload h m)
    after_check (ret got' t') e = ground (arith, r, check-stopped hdr (length payload) got t e)
    after_check (go got' t') e =
        let (same, same_got, last) = check-passed hdr (length payload) got t f e in
        copied-Reported hdr (length payload) got' s t' (deliver cb payload t' h)
          (rw (same, same_got) (advance-Reports hdr (length payload) got s t r f last))

if-Reported :
    (s : Stream) (b : Bool) (x y : Outcome)
    → Reported s x
    → Reported s y
    → Reported s (if b then x else y)
if-Reported s true x y a b = a
if-Reported s false x y a b = b

stream_process-Reported :
    (cb : Option ChunkCb) (pkt : List ℕ) (s : Stream) (h : Heap)
    → IsFixed s
    → Reported s (stream_process cb pkt s h)
unfolding stream_process phases
stream_process-Reported cb pkt s h f =
    let hdr = pkt_hdr pkt in
    let nothing : Reports s 0 s = ground (arith, f) in
    if-Reported s (ltb (length pkt) 12) _ _ nothing (
      if-Reported s (not (hdr.magic0 == b'R' && hdr.magic1 == b'B')) _ _ nothing (
        finish-Reported cb hdr (drop 12 pkt) s h (sync hdr s >=> (λ _ s₁. recover hdr s₁))
          (before_check-Reports hdr s f)))

-- A fixed-length stream reports nothing or one whole frame for each packet, and it reports a frame
-- exactly when it has counted one; it never counts backwards.
pub stream_process_reports :
    (cb : Option ChunkCb) (pkt : List ℕ) (s : Stream) (h : Heap) {got : ℕ} {s' : Stream} {h' : Heap}
    → IsFixed s
    → stream_process cb pkt s h ≡ some (got, s', h')
    → ((got ≡ 0) ⊎ (got ≡ s.frame_size))
      × ((got ≡ 0) ↔ (s'.valid_frames ≡ s.valid_frames))
      × (s.valid_frames ≤ s'.valid_frames)
stream_process_reports cb pkt s h {got} {s'} f e =
    let r : Reports s got s' = rw e at (stream_process-Reported cb pkt s h f) in
    (r.size, r.frames, r.grows)
