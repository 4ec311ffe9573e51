-- ===== src/Stream/Process/Assembly/Steps.antt =====
-- The packets of a frame are put behind one another in the raw buffer.
use soqv.Base.{
  ℕ, suc, ◌+◌, ◌*◌, ◌-◌, ◌^◌, ◌≤◌, ◌<◌, ◌≡◌, refl, true, false, none, some, List, [], ◌∷◌, ◌++◌,
  length, drop, replicate, arith, u8, ◌==◌, if◌then◌else◌, ◌∙◌, ap, length-append, length-drop,
}
use mathlib.Core.List.{append_assoc, append-nil}
use native.Mathlib.Nat.{zero-add, suc-add}
use soqv.Memory.{Ptr, Heap, update, copy_to, splice}
use soqv.Stream.Packet.{Stream, PktHdr}
use soqv.Stream.Process.{sof, mof, eof, advance, stream_process, copied}
use soqv.Stream.Process.Accounting.{IsFixed, last_offset}
use soqv.Stream.Process.Safety.{inside_frame}
use soqv.Stream.Process.Assembly.Packets.{
  packet, InOrder, stream_process-packet, process_all, process_all-cons, concat, regroup,
}

-- The flag of packet `k` of a frame, as the camera sets it.
abbrev pub flag_at : Stream → ℕ → ℕ
flag_at s k = if k == 0 then sof s else if k + 1 == s.pkts_per_frame then eof s else mof s

-- The packets of a frame from the `k`-th on, for the payloads `cs`.
abbrev pub frame_packets : ℕ → Stream → (ℕ → ℕ) → ℕ → ℕ → List (List ℕ) → List (List ℕ)
frame_packets pad s ts k q [] = []
frame_packets pad s ts k q (c ∷ cs) =
    packet pad (flag_at s k) q (ts k) c ∷ frame_packets pad s ts (k + 1) (u8 (q + 1)) cs

-- All payloads fill their packet, the last one `last_pkt_size`.
abbrev pub FillFrame : Stream → ℕ → List (List ℕ) → Type 0
FillFrame s k [] = ⊥
FillFrame s k (c ∷ []) = (length c ≡ s.last_pkt_size) × (k + 1 ≡ s.pkts_per_frame)
FillFrame s k (c ∷ d ∷ cs) =
    (length c ≡ s.pkt_size) × (k + 1 < s.pkts_per_frame) × FillFrame s (k + 1) (d ∷ cs)

splice-append :
    (done old c : List ℕ)
    → splice (done ++ old) (length done) c ≡ done ++ (c ++ drop (length c) old)
unfolding splice
splice-append [] old c = rw zero-add
splice-append (x ∷ done) old c = rw suc-add (ap (λ l. x ∷ l) (splice-append done old c))

abbrev stored : Heap → ℕ → List ℕ → List ℕ → List ℕ → Heap
stored h a done old c = record h {
  block = update h.block a (some (done ++ (c ++ drop (length c) old)));
}

copy-stored :
    (h : Heap) (p : Ptr) (a i : ℕ) (done old c : List ℕ)
    → p ≡ some a
    → h.block a ≡ some (done ++ old)
    → i ≡ length done
    → length c ≤ length old
    → copy_to p i c h ≡ some (stored h a done old c)
unfolding copy_to
copy-stored h p a i done old c ep eb ei fits =
    ground (arith, splice-append done old c, length-append done old)

-- Packets 0 to k - 1 of a frame, `done` together, lie in the block at `a`. `f` is the stream as it
-- was when the frame began.
pub record Collecting (f : Stream) (a k q : ℕ) (done old : List ℕ) (s : Stream) (h : Heap)
    : Type 0 where
  pub same_flag : s.flag ≡ f.flag
  pub same_count : s.pkts_per_frame ≡ f.pkts_per_frame
  pub same_size : s.pkt_size ≡ f.pkt_size
  pub same_last : s.last_pkt_size ≡ f.last_pkt_size
  pub same_frames : s.valid_frames ≡ f.valid_frames
  pub synced : s.synced ≡ true
  pub fixed : s.variable_length ≡ false
  pub seq : s.seq ≡ q
  pub place : s.pkt_num ≡ k
  pub got : s.got_pkts ≡ k
  pub raw : s.raw_buf ≡ some a
  pub block : h.block a ≡ some (done ++ old)
  pub filled : length done ≡ k * f.pkt_size
  pub room : f.frame_size ≤ length done + length old

abbrev hdr_at : Stream → (ℕ → ℕ) → ℕ → ℕ → PktHdr
hdr_at f ts k q = record {
  magic0 = b'R';
  magic1 = b'B';
  flag = flag_at f k;
  seq = q;
  timestamp = ts k;
}

Collecting-InOrder :
    (ts : ℕ → ℕ) (n : ℕ) {f : Stream} {a k q : ℕ} {done old : List ℕ} {s : Stream} {h : Heap}
    → Collecting f a k q done old s h
    → k < f.pkts_per_frame
    → 2 ≤ f.pkts_per_frame
    → n ≤ (if k + 1 == f.pkts_per_frame then f.last_pkt_size else f.pkt_size)
    → InOrder (hdr_at f ts k q) n s
Collecting-InOrder ts n c inside two size = ground (arith, c)

-- The frame `bytes` lies in the block at `a`, and the stream waits for the next one. `f` is the
-- stream before the frame, and `t` the timestamp of its last packet.
pub record Assembled (f : Stream) (a t : ℕ) (bytes : List ℕ) (s : Stream) (h : Heap) : Type 0 where
  pub block : h.block a ≡ some bytes
  pub synced : s.synced ≡ true
  pub at_start : s.pkt_num ≡ 0
  pub no_packets : s.got_pkts ≡ 0
  pub complete : s.valid_pkts ≡ f.pkts_per_frame
  pub counted : s.valid_frames ≡ f.valid_frames + 1
  pub stamped : s.timestamp ≡ t

module _ (pad : ℕ) (f : Stream) (ts : ℕ → ℕ) (fix : IsFixed f) (two : 2 ≤ f.pkts_per_frame)
    (small : (k : ℕ) → ts k < 2 ^ 32) where
  packet-copied :
      (a k q : ℕ) (done old c : List ℕ) (s : Stream) (h : Heap)
      → Collecting f a k q done old s h
      → k < f.pkts_per_frame
      → length c ≤ (if k + 1 == f.pkts_per_frame then f.last_pkt_size else f.pkt_size)
      → stream_process none (packet pad (flag_at f k) q (ts k) c) s h
        ≡ copied (hdr_at f ts k q) (length c) 0 s (some (stored h a done old c))
  packet-copied a k q done old c s h v inside size =
      stream_process-packet pad (flag_at f k) q (ts k) c s h (small k)
        (Collecting-InOrder ts (length c) v inside two size)
      ∙ ap (copied (hdr_at f ts k q) (length c) 0 s)
          (copy-stored h s.raw_buf a (s.pkt_num * s.pkt_size) done old c v.raw v.block here fits)
    where
      here : s.pkt_num * s.pkt_size ≡ length done
      here = ground (arith, v)

      fits : length c ≤ length old
      fits = omega (
        arith,
        v.room,
        v.filled,
        inside_frame k f.pkts_per_frame f.pkt_size f.last_pkt_size (length c) f.frame_size inside
            fix.layout.last_fits fix.layout.covers size,
      )

  -- A packet before the last one is put behind those before it.
  middle-step :
      (a k q : ℕ) (done old c : List ℕ) (s : Stream) (h : Heap)
      → Collecting f a k q done old s h
      → length c ≡ f.pkt_size
      → k + 1 < f.pkts_per_frame
      → (s' : Stream) × (stream_process none (packet pad (flag_at f k) q (ts k) c) s h
          ≡ some (0, s', stored h a done old c))
        × Collecting f a
            (k + 1)
            (u8 (q + 1))
            (done ++ c)
            (drop (length c) old)
            s'
            (stored h a done old c)
  unfolding copied advance
  middle-step a k q done old c s h v size more = (
    record s {
      pkt_num = s.pkt_num + 1;
      seq = u8 (s.seq + 1);
      got_pkts = s.got_pkts + 1;
      last_timestamp = ts k;
    },
    packet-copied a k q done old c s h v (omega arith) (ground arith) ∙ ground (arith, v, fix),
    record {
      same_flag = v.same_flag;
      same_count = v.same_count;
      same_size = v.same_size;
      same_last = v.same_last;
      same_frames = v.same_frames;
      synced = v.synced;
      fixed = v.fixed;
      seq = ap (λ n. u8 (n + 1)) v.seq;
      place = ap (λ n. n + 1) v.place;
      got = ap (λ n. n + 1) v.got;
      raw = v.raw;
      block = ground (arith, append_assoc done c (drop (length c) old));
      filled = grind (arith, length-append done c, v.filled, size);
      room = omega (arith, length-append done c, length-drop (length c) old, v.room);
    },
  )

  last-step :
      (a k q : ℕ) (done old c : List ℕ) (s : Stream) (h : Heap)
      → Collecting f a k q done old s h
      → length c ≡ f.last_pkt_size
      → k + 1 ≡ f.pkts_per_frame
      → (s' : Stream) × (stream_process none (packet pad (flag_at f k) q (ts k) c) s h
          ≡ some (f.frame_size, s', stored h a done old c))
        × Assembled f a
            (ts (f.pkts_per_frame - 1))
            (done ++ (c ++ drop (length c) old))
            s'
            (stored h a done old c)
  unfolding copied advance
  last-step a k q done old c s h v size last = (
    record s {
      pkt_num = 0;
      seq = u8 (s.seq + 1);
      got_pkts = 0;
      valid_pkts = s.got_pkts + 1;
      last_timestamp = ts k;
      timestamp = ts k;
      valid_frames = s.valid_frames + 1;
    },
    packet-copied a k q done old c s h v (omega arith) (ground arith)
        ∙ ground (
          arith,
          v,
          last_offset k f.pkts_per_frame f.pkt_size f.last_pkt_size f.frame_size last
              fix.layout.covers,
        ),
    record {
      block = ground arith;
      synced = v.synced;
      at_start = refl;
      no_packets = refl;
      complete = omega (arith, v.got, last);
      counted = omega (arith, v.same_frames);
      stamped = let e : k ≡ f.pkts_per_frame - 1 = omega arith in ap ts e;
    },
  )

  pub assemble_from :
      (cs : List (List ℕ)) (a k q : ℕ) (done old : List ℕ) (s : Stream) (h : Heap)
      → Collecting f a k q done old s h
      → FillFrame f k cs
      → (s' : Stream) × (h' : Heap) × (process_all (frame_packets pad f ts k q cs) s h
          ≡ some (replicate (f.pkts_per_frame - 1 - k) 0 ++ f.frame_size ∷ [], s', h'))
        × Assembled f a
            (ts (f.pkts_per_frame - 1))
            (done ++ (concat cs ++ drop (length (concat cs)) old))
            s'
            h'
  unfolding process_all
  assemble_from [] a k q done old s h v fill = absurd fill
  assemble_from (c ∷ []) a k q done old s h v (size, last) =
      let (s', e, r) = last-step a k q done old c s h v size last in
      let none_left : f.pkts_per_frame - 1 - k ≡ 0 = omega arith in
      (
        s',
        stored h a done old c,
        rw none_left (process_all-cons _ [] s h e refl),
        rw (append-nil c) r,
      )
  assemble_from (c ∷ d ∷ cs) a k q done old s h v (size, more, fill) =
      let (s₁, e₁, v₁) = middle-step a k q done old c s h v size more in
      let (s', h', e, r) =
        assemble_from (d ∷ cs) a (k + 1) (u8 (q + 1)) (done ++ c) (drop (length c) old) s₁
          (stored h a done old c) v₁ fill in
      let one_less : f.pkts_per_frame - 1 - k ≡ suc (f.pkts_per_frame - 1 - (k + 1)) =
        omega arith in
      (
        s',
        h',
        rw one_less
            (process_all-cons _ (frame_packets pad f ts (k + 1) (u8 (q + 1)) (d ∷ cs)) s h e₁ e),
        rw (regroup done c (d ++ concat cs) old) r,
      )
