-- ===== src/Audio/Outgoing.antt =====
-- The header of each outgoing packet by its position in the stream, for `prepare_iso_out_data`.
use soqv.Base.{
  ℕ, zero, suc, ◌+◌, ◌*◌, ◌-◌, ◌/◌, ◌%◌, ◌^◌, min, ◌≡◌, refl, ap, ◌∙◌, Bool, true, false, ◌&&◌,
  bit_or, bit_and, u8, ◌<<<◌, ◌>>>◌, drop, Option, none, some, List, [], ◌∷◌, ◌++◌, arith, ltb,
  ◌==◌, if◌then◌else◌, length, replicate,
}
use soqv.Base.Bits.{bit_and_mask, bit_or_shifted}
use soqv.Memory.{splice}
use soqv.Command.{le16}
use soqv.Audio.{
  AudioStream, AudioDevice, alloc_audio, weird_byte, timestamp_nibble, update_for_next,
  prepare_iso_out_data,
}

-- Windows of 43, 43 and 42 packets.
abbrev pub third : ℕ → ℕ
third r = if ltb r 43 then 0 else if ltb r 86 then 1 else 2

abbrev pub window_at : ℕ → ℕ
window_at n = (n / 128 * 3 + third (n % 128)) % 2 ^ 16

-- A packet takes 5 ticks, one of a middle window 6.
abbrev pub timestamp_at : ℕ → ℕ
timestamp_at n = (683 * (n / 128) + 5 * (n % 128) + min 43 (n % 128 - 43)) % 2 ^ 16

-- The stream after `n` packets.
pub record Position (n : ℕ) (s : AudioStream) : Type 0 where
  pub seq : s.out_seq ≡ n % 128
  pub window : s.out_window ≡ window_at n
  pub parity : s.out_window_parity ≡ third (n % 128)
  pub counter : s.out_counter_within_window ≡ n % 128 - 43 * third (n % 128)
  pub timestamp : s.out_weird_timestamp ≡ timestamp_at n

update_for_next-Position :
    (n : ℕ) (s : AudioStream) → Position n s → Position (suc n) (update_for_next s)
unfolding update_for_next
update_for_next-Position n s p = record {
  seq = ground (arith, p.seq);
  window = ground (arith, p.seq, p.window);
  parity = ground (arith, p.seq, p.parity);
  counter = ground (arith, p.seq, p.counter);
  timestamp = ground (arith, p.seq, p.parity, p.timestamp);
}

abbrev pub nibble_byte : ℕ → ℕ → ℕ
nibble_byte t i = t / 2 ^ (i * 4) % 16 * 16 + 5

timestamp_nibble_lem : (t i : ℕ) → timestamp_nibble t i ≡ nibble_byte t i
timestamp_nibble_lem t i =
    ap (λ (b : ℕ). u8 (bit_or (b <<< 4) 5)) (mask (t >>> (i * 4)))
    ∙ ap u8 (bit_or_shifted 4 (t / 2 ^ (i * 4) % 16) 5 (omega arith))
    ∙ small (t / 2 ^ (i * 4))
  where
    mask : (x : ℕ) → bit_and x 15 ≡ x % 16
    mask x = bit_and_mask 4 x

    small : (x : ℕ) → u8 (x % 16 * 2 ^ 4 + 5) ≡ x % 16 * 16 + 5
    small x = omega arith

abbrev pub weird_at : ℕ → ℕ
weird_at n =
    let k = third (n % 128) in
    let i = n % 128 - 43 * k in
    if ltb i 4
    then nibble_byte (timestamp_at n) i
    else if k == 0 && ltb i 8
    then nibble_byte (timestamp_at n + 23) (i - 4)
    else 1

weird_parts :
    (parity counter t : ℕ)
    → (if parity == 0
        then if ltb counter 4
          then timestamp_nibble t counter
          else if ltb counter 8
          then timestamp_nibble (t + 23) (counter - 4)
          else 0x01
        else if ltb counter 4
        then timestamp_nibble t counter
        else 0x01)
      ≡ (if ltb counter 4
          then nibble_byte t counter
          else if parity == 0 && ltb counter 8
          then nibble_byte (t + 23) (counter - 4)
          else 1)
weird_parts parity counter t =
    rw (timestamp_nibble_lem t counter, timestamp_nibble_lem (t + 23) (counter - 4)) (ground arith)

weird_byte_lem : (n : ℕ) (s : AudioStream) → Position n s → weird_byte s ≡ weird_at n
unfolding weird_byte
weird_byte_lem n s p =
    weird_parts s.out_window_parity s.out_counter_within_window s.out_weird_timestamp
    ∙ ap
        (λ (k : ℕ × ℕ × ℕ).
          if ltb k.1 4
          then nibble_byte k.2 k.1
          else if k.0 == 0 && ltb k.1 8
          then nibble_byte (k.2 + 23) (k.1 - 4)
          else 1)
        (λ i. (p.parity i, p.counter i, p.timestamp i))

abbrev pub header_at : ℕ → List ℕ
header_at n = le16 (window_at n) ++ (n % 128 ∷ weird_at n ∷ [])

-- The callback on packet after packet.
abbrev pub sent_before :
    List ℕ → Option (List (List ℕ) × AudioStream) → Option (List (List ℕ) × AudioStream)
sent_before out none = none
sent_before out (some (outs, s)) = some (out ∷ outs, s)

pub send_all : Bool → List (List ℕ) → AudioStream → Option (List (List ℕ) × AudioStream)
send_all cb [] s = some ([], s)
send_all cb (pkt ∷ pkts) s = elim (prepare_iso_out_data cb pkt s) [
  | none ↦ none
  | some (out, s') ↦ sent_before out (send_all cb pkts s')
]

-- Packets of the size that the stream is started with.
abbrev pub Sized : List (List ℕ) → Type 0
Sized [] = Unit
Sized (pkt ∷ pkts) = (length pkt ≡ 76) × Sized pkts

-- What the packets should hold, from the `n`-th on.
abbrev pub expected : Bool → ℕ → List (List ℕ) → List (List ℕ)
expected cb n [] = []
expected cb n (pkt ∷ pkts) =
    (header_at n ++ (if cb then drop 4 pkt else replicate 72 0)) ∷ expected cb (suc n) pkts

drop_whole : (k : ℕ) (xs : List ℕ) → length xs ≡ k → drop k xs ≡ []
drop_whole zero [] h = refl
drop_whole (suc k) [] h = refl
drop_whole zero (x ∷ xs) h = absurd (omega arith)
drop_whole (suc k) (x ∷ xs) h = drop_whole k xs (omega arith)

zeroed_tail :
    (pkt : List ℕ) → length pkt ≡ 76 → drop 4 (splice pkt 0 (replicate 76 0)) ≡ replicate 72 0
unfolding splice
zeroed_tail pkt h = ap (λ (t : List ℕ). replicate 72 0 ++ t) (drop_whole 76 pkt h)

prepare_iso_out_data_lem :
    (cb : Bool) (n : ℕ) (pkt : List ℕ) (s : AudioStream)
    → length pkt ≡ 76
    → Position n s
    → prepare_iso_out_data cb pkt s
      ≡ some (header_at n ++ (if cb then drop 4 pkt else replicate 72 0), update_for_next s)
unfolding prepare_iso_out_data splice
prepare_iso_out_data_lem true n pkt s h p =
    rw (weird_byte_lem n s p, p.window, p.seq) (ground arith)
prepare_iso_out_data_lem false n pkt s h p =
    rw (weird_byte_lem n s p, p.window, p.seq) (ground (arith, zeroed_tail pkt h))

send_all-from :
    (cb : Bool) (n : ℕ) (pkts : List (List ℕ)) (s : AudioStream)
    → Sized pkts
    → Position n s
    → (s' : AudioStream) × (send_all cb pkts s ≡ some (expected cb n pkts, s'))
      × Position (n + length pkts) s'
unfolding send_all
send_all-from cb n [] s h p = (s, refl, let e : n ≡ n + 0 = omega arith in rw (← e) p)
send_all-from cb n (pkt ∷ pkts) s (h, hs) p =
    let (s', e, q) =
      send_all-from cb (suc n) pkts (update_for_next s) hs (update_for_next-Position n s p) in
    let k : suc n + length pkts ≡ n + suc (length pkts) = omega arith in
    (s', rw (prepare_iso_out_data_lem cb n pkt s h p, send_all) (rw e refl), rw k at q)

-- From the start of audio on, packets of 76 bytes are all filled: the n-th bears the number of its
-- window, of which 128 packets have three, its number modulo 128, and the nibble of a timestamp or 1,
-- as the position alone tells; if no client has set a callback its samples
-- are 0; if one has, the code does not call it, and the samples are left as libusb's buffer had them.
pub send_all-expected :
    (cb : Bool) (pkts : List (List ℕ)) (dev : AudioDevice)
    → Sized pkts
    → (s : AudioStream) × (send_all cb pkts (alloc_audio dev).audio ≡ some (expected cb 0 pkts, s))
      × Position (length pkts) s
unfolding alloc_audio
send_all-expected cb pkts dev sized =
    let (s, e, p) =
      send_all-from cb 0 pkts (alloc_audio dev).audio sized
        (record { seq = refl; window = refl; parity = refl; counter = refl; timestamp = refl }) in
    let n : 0 + length pkts ≡ length pkts = omega arith in (s, e, rw n at p)
