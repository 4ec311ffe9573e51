-- ===== src/Stream/Process/Assembly/Frame.antt =====
-- A frame that arrives in order and without loss is put together in the raw buffer.
use soqv.Base.{
  ℕ, ◌+◌, ◌-◌, ◌^◌, ◌≤◌, ◌<◌, ◌≡◌, refl, true, false, none, some, List, [], ◌∷◌, ◌++◌, length, drop,
  replicate, arith, u8, ◌∙◌,
}
use soqv.Memory.{Heap}
use soqv.Stream.Packet.{Stream}
use soqv.Stream.Process.{sof, sync, phases, stream_process}
use soqv.Stream.Process.Accounting.{IsFixed}
use soqv.Stream.Process.Assembly.Packets.{packet, pkt_hdr-packet, process_all, concat}
use soqv.Stream.Process.Assembly.Steps.{
  frame_packets, FillFrame, Collecting, Assembled, assemble_from,
}

-- The stream just after it has synchronised at a start of frame with sequence number `q`.
abbrev pub restart : ℕ → Stream → Stream
restart q s = record s { synced = true; seq = q; pkt_num = 0; valid_pkts = 0; got_pkts = 0 }

stream_process-restart :
    (pad q ts : ℕ) (c : List ℕ) (s : Stream) (h : Heap)
    → ts < 2 ^ 32
    → s.synced ≡ false
    → stream_process none (packet pad (sof s) q ts c) s h
      ≡ stream_process none (packet pad (sof s) q ts c) (restart q s) h
unfolding stream_process phases sync
stream_process-restart pad q ts c s h small off =
    ground (arith, pkt_hdr-packet pad (sof s) q ts c small)

process_all-restart :
    (pad q ts : ℕ) (c : List ℕ) (pkts : List (List ℕ)) (s : Stream) (h : Heap)
    → ts < 2 ^ 32
    → s.synced ≡ false
    → process_all (packet pad (sof s) q ts c ∷ pkts) s h
      ≡ process_all (packet pad (sof s) q ts c ∷ pkts) (restart q s) h
unfolding process_all
process_all-restart pad q ts c pkts s h small off =
    ground (arith, stream_process-restart pad q ts c s h small off)

-- A stream that has lost its synchronisation takes up any frame that then arrives complete and in
-- order: every packet but the last returns 0 and the last one the frame size, the raw buffer holds
-- the payloads in order with its bytes beyond them unchanged, `valid_pkts` is the number of
-- packets, one frame more is counted, and the time is that of the last packet.
pub frame_Assembled :
    (pad : ℕ) (s : Stream) (h : Heap) (ts : ℕ → ℕ) (q a : ℕ) (cs : List (List ℕ)) (old : List ℕ)
    → IsFixed s
    → 2 ≤ s.pkts_per_frame
    → ((k : ℕ) → ts k < 2 ^ 32)
    → s.synced ≡ false
    → s.raw_buf ≡ some a
    → h.block a ≡ some old
    → s.frame_size ≤ length old
    → FillFrame s 0 cs
    → (s' : Stream) × (h' : Heap) × (process_all (frame_packets pad s ts 0 q cs) s h
        ≡ some (replicate (s.pkts_per_frame - 1) 0 ++ s.frame_size ∷ [], s', h'))
      × Assembled s a (ts (s.pkts_per_frame - 1)) (concat cs ++ drop (length (concat cs)) old) s' h'
frame_Assembled pad s h ts q a [] old fix two small off raw block room fill = absurd fill
frame_Assembled pad s h ts q a (c ∷ cs) old fix two small off raw block room fill =
    let rest = frame_packets pad s ts 1 (u8 (q + 1)) cs in
    let (s', h', e, r) =
      assemble_from pad s ts fix two small (c ∷ cs) a 0 q [] old (restart q s) h begun fill in
    (s', h', process_all-restart pad q (ts 0) c rest s h (small 0) off ∙ rw no_less at e, r)
  where
    no_less : s.pkts_per_frame - 1 - 0 ≡ s.pkts_per_frame - 1
    no_less = omega arith

    begun : Collecting s a 0 q [] old (restart q s) h
    begun = record {
      same_flag = refl;
      same_count = refl;
      same_size = refl;
      same_last = refl;
      same_frames = refl;
      synced = refl;
      fixed = fix.fixed;
      seq = refl;
      place = refl;
      got = refl;
      raw = raw;
      block = block;
      filled = omega arith;
      room = omega arith;
    }
