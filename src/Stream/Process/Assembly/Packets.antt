-- ===== src/Stream/Process/Assembly/Packets.antt =====
-- The packets that the camera sends, and `stream_process` on one that comes in its turn.
use soqv.Base.{
  ℕ, ◌*◌, ◌%◌, ◌/◌, ◌^◌, ◌≤◌, ◌<◌, ◌≡◌, refl, true, false, Option, none, some, List, [], ◌∷◌, ◌++◌,
  length, drop, arith,
}
use mathlib.Core.List.{append_assoc}
use soqv.Memory.{Heap, copy_to}
use soqv.Stream.Packet.{Stream, PktHdr, pkt_hdr}
use soqv.Stream.Process.{
  go, sync, recover, check, deliver, phases, finish, stream_process, copied, fixed_flag_ok,
  expected_pkt_size,
}

-- The bytes of a packet, with `pad` in the header's unread fields.
abbrev pub packet : ℕ → ℕ → ℕ → ℕ → List ℕ → List ℕ
packet pad flag seq ts payload =
    b'R'
    ∷ b'B'
    ∷ pad
    ∷ flag
    ∷ pad
    ∷ seq
    ∷ pad
    ∷ pad
    ∷ (ts % 2 ^ 8)
    ∷ (ts / 2 ^ 8 % 2 ^ 8)
    ∷ (ts / 2 ^ 16 % 2 ^ 8)
    ∷ (ts / 2 ^ 24 % 2 ^ 8)
    ∷ payload

-- The header is read as it was written.
pub pkt_hdr-packet :
    (pad flag seq ts : ℕ) (payload : List ℕ)
    → ts < 2 ^ 32
    → pkt_hdr (packet pad flag seq ts payload)
      ≡ record { magic0 = b'R'; magic1 = b'B'; flag = flag; seq = seq; timestamp = ts }
unfolding pkt_hdr
pkt_hdr-packet pad flag seq ts payload h = ground arith

-- The stream waits for packet `pkt_num` of a frame.
pub record InOrder (hdr : PktHdr) (n : ℕ) (s : Stream) : Type 0 where
  pub synced : s.synced ≡ true
  pub fixed : s.variable_length ≡ false
  pub seq : s.seq ≡ hdr.seq
  pub flag : fixed_flag_ok hdr s ≡ true
  pub size : n ≤ expected_pkt_size s

phases-InOrder : (hdr : PktHdr) (n : ℕ) (s : Stream) → InOrder hdr n s → phases hdr n s ≡ go 0 s
unfolding phases sync recover check
phases-InOrder hdr n s i = ground (arith, i)

pub stream_process-packet :
    (pad flag seq ts : ℕ) (payload : List ℕ) (s : Stream) (h : Heap)
    → ts < 2 ^ 32
    → InOrder
        (record { magic0 = b'R'; magic1 = b'B'; flag = flag; seq = seq; timestamp = ts })
        (length payload)
        s
    → stream_process none (packet pad flag seq ts payload) s h
      ≡ copied
          (record { magic0 = b'R'; magic1 = b'B'; flag = flag; seq = seq; timestamp = ts })
          (length payload)
          0
          s
          (copy_to s.raw_buf (s.pkt_num * s.pkt_size) payload h)
unfolding stream_process finish deliver
stream_process-packet pad flag seq ts payload s h small i = ground (
  arith,
  pkt_hdr-packet pad flag seq ts payload small,
  phases-InOrder (record { magic0 = b'R'; magic1 = b'B'; flag = flag; seq = seq; timestamp = ts })
      (length payload) s i,
)

-- A list of packets, handled in turn, with what each call returns.
unfoldable pub process_all : List (List ℕ) → Stream → Heap → Option (List ℕ × Stream × Heap)
process_all [] s h = some ([], s, h)
process_all (pkt ∷ pkts) s h = elim (stream_process none pkt s h) [
  | none ↦ none
  | some (got, s₁, h₁) ↦ elim (process_all pkts s₁ h₁) [
    | none ↦ none
    | some (gots, s₂, h₂) ↦ some (got ∷ gots, s₂, h₂)
  ]
]

pub process_all-cons :
    (pkt : List ℕ) (pkts : List (List ℕ)) (s : Stream) (h : Heap) {got : ℕ} {gots : List ℕ}
    {s₁ s₂ : Stream} {h₁ h₂ : Heap}
    → stream_process none pkt s h ≡ some (got, s₁, h₁)
    → process_all pkts s₁ h₁ ≡ some (gots, s₂, h₂)
    → process_all (pkt ∷ pkts) s h ≡ some (got ∷ gots, s₂, h₂)
unfolding process_all
process_all-cons pkt pkts s h e e' = ground (arith, e, e')

abbrev pub concat : List (List ℕ) → List ℕ
concat [] = []
concat (c ∷ cs) = c ++ concat cs

pub drop-append :
    (c r old : List ℕ) → drop (length (c ++ r)) old ≡ drop (length r) (drop (length c) old)
drop-append [] r old = refl
drop-append (x ∷ c) [] [] = refl
drop-append (x ∷ c) (y ∷ r) [] = refl
drop-append (x ∷ c) r (y ∷ old) = drop-append c r old

pub regroup :
    (done c r old : List ℕ)
    → done ++ ((c ++ r) ++ drop (length (c ++ r)) old)
      ≡ (done ++ c) ++ (r ++ drop (length r) (drop (length c) old))
regroup done c r old = simp (drop-append, append_assoc)
