-- ===== src/Flags/Simulation.antt =====
-- A simulated camera that keeps a file of registers, for the tests.
use soqv.Base.{
  ℕ, ◌+◌, ◌*◌, ◌/◌, ◌%◌, ◌^◌, ◌<◌, ◌≡◌, refl, List, [], ◌∷◌, ◌++◌, length, arith, u16, ◌==◌,
  if◌then◌else◌, get_or, ap, ◌∙◌,
}
use soqv.Base.Int.{pos}
use soqv.Command.{Event, sent, polled, Reply, failed, received, Bus, le16, le16_at, framed}
use soqv.Flags.Registers.{IsRegisterFile}

abbrev pub sim_regs : List Event → ℕ → ℕ
sim_regs [] r = 0
sim_regs (polled ∷ t) r = sim_regs t r
sim_regs (sent p ∷ t) r =
    let before = sim_regs t r in
    if get_or p 4 0 == 0x03
    then (if u16 (le16_at p 8) == r then u16 (le16_at p 10) else before)
    else before

-- The data of the reply to a packet.
abbrev pub sim_data : List ℕ → List Event → List ℕ
sim_data p t =
    if get_or p 4 0 == 0x02 then 0 ∷ 0 ∷ le16 (sim_regs t (u16 (le16_at p 8))) else 0 ∷ 0 ∷ []

abbrev pub sim_input : List Event → Reply
sim_input [] = failed 0
sim_input (polled ∷ t) = failed 0
sim_input (sent p ∷ t) =
    let reply_data = sim_data p t in
    received (
      0x52
      ∷ 0x42
      ∷ (le16 (length reply_data / 2)
          ++ (get_or p 4 0 ∷ get_or p 5 0 ∷ get_or p 6 0 ∷ get_or p 7 0 ∷ reply_data)))

abbrev pub sim : Bus
sim = record { output = λ t p. pos (length p); input = sim_input; stack = λ t i. 7 }

sim_words : (t : List Event) (r : ℕ) → sim_regs t r < 2 ^ 16
sim_words [] r = omega arith
sim_words (polled ∷ t) r = sim_words t r
sim_words (sent p ∷ t) r = ground (arith, sim_words t r)

word : (n : ℕ) → u16 (n % 2 ^ 8 + 2 ^ 8 * (n / 2 ^ 8 % 2 ^ 8)) ≡ u16 n
word n = omega arith

pub sim-IsRegisterFile : IsRegisterFile sim sim_regs
sim-IsRegisterFile = record {
  accepts = λ t p. (length p, refl);
  answers_read = λ t tag reg.
      ap (λ (n : ℕ). received (framed 0x52 0x42 0x02 tag (0 ∷ 0 ∷ le16 (sim_regs t n)))) (word reg);
  answers_write = λ t tag reg value. refl;
  read_keeps = λ t tag reg r. refl;
  write_sets = λ t tag reg value r.
      ap
        (λ (n : ℕ).
          if n == r then u16 (value % 2 ^ 8 + 2 ^ 8 * (value / 2 ^ 8 % 2 ^ 8)) else sim_regs t r)
        (word reg)
      ∙ ap (λ (n : ℕ). if u16 reg == r then n else sim_regs t r) (word value);
  words = sim_words;
}
