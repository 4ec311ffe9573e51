-- ===== src/Stream/Setup/Layout.antt =====
-- How `stream_init` cuts a frame into packets.
use soqv.Base.{ℕ, ◌+◌, ◌-◌, ◌*◌, ◌%◌, ◌/◌, ◌≤◌, ◌<◌, ◌≡◌, arith, inl, inr, zero_or_pos, zero, suc}
use native.Mathlib.Nat.{div-eq_of_lt-le, div-add-mod', mod-lt}
use soqv.Stream.Packet.{Stream}
use soqv.Stream.Setup.{init_packets}

-- `pkts_per_frame` packets, all of `pkt_size` bytes but the last, make up one frame.
pub record IsLayout (s : Stream) : Type 0 where
  pub some_packet : 0 < s.pkts_per_frame
  pub some_byte : 0 < s.last_pkt_size
  pub last_fits : s.last_pkt_size ≤ s.pkt_size
  pub covers : (s.pkts_per_frame - 1) * s.pkt_size + s.last_pkt_size ≡ s.frame_size

ceil_div_exact : (f p : ℕ) → 0 < p → f % p ≡ 0 → (f + p - 1) / p ≡ f / p
ceil_div_exact f p h e =
    div-eq_of_lt-le p (omega (arith, div-add-mod' f p)) (grind (arith, div-add-mod' f p))

ceil_div_more : (f p : ℕ) → 0 < p → 0 < f % p → (f + p - 1) / p ≡ f / p + 1
ceil_div_more f p h e =
    div-eq_of_lt-le p (grind (arith, div-add-mod' f p))
      (grind (arith, div-add-mod' f p, mod-lt f h))

whole_packets : (q p f : ℕ) → q * p ≡ f → 0 < f → (0 < q) × ((q - 1) * p + p ≡ f)
whole_packets zero p f e h = absurd (omega arith)
whole_packets (suc q) p f e h =
    (omega arith, let e' : suc q - 1 ≡ q = omega arith in rw e' (grind arith))

-- `stream_init` cuts any frame of at least one byte into packets so that they cover it exactly.
pub init_packets-IsLayout :
    (s : Stream) → 0 < s.pkt_size → 0 < s.frame_size → IsLayout (init_packets s)
unfolding init_packets
init_packets-IsLayout s p f = elim (zero_or_pos (frame_size % pkt_size)) [
  | inl e ↦ ground (
    arith,
    ceil_div_exact frame_size pkt_size p e,
    div-add-mod' frame_size pkt_size,
    whole_packets (frame_size / pkt_size) pkt_size frame_size,
  )
  | inr e ↦ ground (
    arith,
    ceil_div_more frame_size pkt_size p e,
    div-add-mod' frame_size pkt_size,
    mod-lt frame_size p,
  )
]
  where
    open s use {frame_size, pkt_size}
