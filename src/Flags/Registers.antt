-- ===== src/Flags/Registers.antt =====
-- The register functions on a camera that keeps a file of registers.
use soqv.Base.{
  ℕ, suc, ◌+◌, ◌*◌, ◌-◌, ◌/◌, ◌%◌, ◌^◌, ◌≤◌, ◌<◌, min, ◌≡◌, refl, true, false, Option, none, some,
  List, [], ◌∷◌, ◌++◌, length, arith, u16, ◌==◌, ap, ◌∙◌, if◌then◌else◌,
}
use Prim.Native.Nat.{max}
use soqv.Base.Int.{ℤ, pos, negsuc}
use soqv.Memory.{splice}
use soqv.Command.{
  Event, sent, polled, Reply, received, Bus, Device, poll_again, reply_ok, framed, request,
  invalid_length, accept_reply, poll, send_cmd, le16, uninitialised,
}
use soqv.Flags.{
  read_register, write_register, get_ir_brightness, set_ir_brightness, read_result, write_result,
  clamp_brightness,
}

abbrev pub read_request : ℕ → ℕ → List ℕ
read_request tag reg = request 0x02 tag (le16 reg)

abbrev pub write_request : ℕ → ℕ → ℕ → List ℕ
write_request tag reg value = request 0x03 tag (le16 reg ++ le16 value)

abbrev pub reply_of : ℕ → ℕ → List ℕ → List ℕ
reply_of = framed 0x52 0x42

-- A camera whose registers after a trace are `regs`: it takes every packet, answers a read with the
-- register and a write with a zero word, and only a write changes a register.
pub record IsRegisterFile (bus : Bus) (regs : List Event → ℕ → ℕ) : Type 0 where
  pub accepts : (t : List Event) (packet : List ℕ) → (n : ℕ) × (bus.output t packet ≡ pos n)
  pub answers_read :
      (t : List Event) (tag reg : ℕ)
      → bus.input (sent (read_request tag reg) ∷ t)
        ≡ received (reply_of 0x02 tag (0 ∷ 0 ∷ le16 (regs t (u16 reg))))
  pub answers_write :
      (t : List Event) (tag reg value : ℕ)
      → bus.input (sent (write_request tag reg value) ∷ t)
        ≡ received (reply_of 0x03 tag (0 ∷ 0 ∷ []))
  pub read_keeps :
      (t : List Event) (tag reg r : ℕ)
      → regs (polled ∷ sent (read_request tag reg) ∷ t) r ≡ regs t r
  pub write_sets :
      (t : List Event) (tag reg value r : ℕ)
      → regs (polled ∷ sent (write_request tag reg value) ∷ t) r
        ≡ (if u16 reg == r then u16 value else regs t r)
  pub words : (t : List Event) (r : ℕ) → regs t r < 2 ^ 16

pub le16-back : (n : ℕ) → n % 2 ^ 8 + 2 ^ 8 * (n / 2 ^ 8 % 2 ^ 8) ≡ u16 n
le16-back n = omega arith

-- A command whose first poll gets an answer.
-- The device after a command and the poll that ends it.
abbrev answered_dev : ℕ → List ℕ → Device → Device
answered_dev cmd cmdbuf dev = record dev {
  trace = polled ∷ sent (request cmd dev.cam_tag cmdbuf) ∷ dev.trace;
}

send_cmd-answered :
    (bus : Bus) (fuel cmd : ℕ) (cmdbuf replybuf : List ℕ) (reply_len : ℕ) (dev : Device) (n : ℕ)
    (bytes : List ℕ)
    → invalid_length (length cmdbuf) ≡ false
    → bus.output dev.trace (request cmd dev.cam_tag cmdbuf) ≡ pos n
    → bus.input (sent (request cmd dev.cam_tag cmdbuf) ∷ dev.trace) ≡ received bytes
    → poll_again (received bytes) ≡ false
    → send_cmd bus (suc fuel) cmd cmdbuf replybuf reply_len dev
      ≡ some (
          accept_reply
            (pos n)
            cmd
            replybuf
            reply_len
            (received bytes)
            (answered_dev cmd cmdbuf dev))
unfolding send_cmd poll
send_cmd-answered bus fuel cmd cmdbuf replybuf reply_len dev n bytes valid out inp done =
    rw (valid, out, inp, done, send_cmd, poll)
      (ap
        (λ (t : Reply).
          some (accept_reply (pos n) cmd replybuf reply_len t (answered_dev cmd cmdbuf dev)))
        inp)

-- The answers of a register file pass the checks.
read_reply_ok : (tag v : ℕ) → reply_ok 0x02 tag (reply_of 0x02 tag (0 ∷ 0 ∷ le16 v)) ≡ true
read_reply_ok tag v = ground (arith, le16-back tag)

write_reply_ok : (tag : ℕ) → reply_ok 0x03 tag (reply_of 0x03 tag (0 ∷ 0 ∷ [])) ≡ true
write_reply_ok tag = ground (arith, le16-back tag)

abbrev tagged : Device → Device
tagged dev = record dev { cam_tag = u16 (dev.cam_tag + 1) }

abbrev after_read : ℕ → Device → Device
after_read reg dev = tagged (answered_dev 0x02 (le16 reg) dev)

abbrev pub after_write : ℕ → ℕ → Device → Device
after_write reg value dev = tagged (answered_dev 0x03 (le16 reg ++ le16 value) dev)

accept_read :
    (n v : ℕ) (replybuf : List ℕ) (dev : Device)
    → read_result 2 (
        some (
          accept_reply
            (pos n)
            0x02
            replybuf
            4
            (received (reply_of 0x02 dev.cam_tag (0 ∷ 0 ∷ le16 v)))
            dev))
      ≡ some (u16 v, tagged dev)
unfolding accept_reply splice
accept_read n v replybuf dev =
    rw (read_reply_ok dev.cam_tag v, accept_reply)
      (ap (λ (t : ℕ). some (t, tagged dev)) (le16-back v))

accept_write :
    (n : ℕ) (replybuf : List ℕ) (dev : Device)
    → write_result (
        some (
          accept_reply
            (pos n)
            0x03
            replybuf
            4
            (received (reply_of 0x03 dev.cam_tag (0 ∷ 0 ∷ [])))
            dev))
      ≡ some (pos 0, tagged dev)
unfolding accept_reply
accept_write n replybuf dev = rw (write_reply_ok dev.cam_tag, accept_reply) refl

clamp_lem :
    (b : ℕ)
    → (u16 (clamp_brightness b) ≡ clamp_brightness b) × (clamp_brightness b ≡ min (max b 1) 50)
clamp_lem b = ground arith

abbrev brightness_result : Option (ℕ × Device) → Option (ℤ × Device)
brightness_result none = none
brightness_result (some (b, dev)) =
    if b == 2 ^ 16 - 1 then some (negsuc 0, dev) else some (pos b, dev)

some_brightness :
    (b : ℕ) (dev : Device) → b ≤ 50 → brightness_result (some (b, dev)) ≡ some (pos b, dev)
some_brightness b dev h = ground arith

module _ (bus : Bus) (regs : List Event → ℕ → ℕ) (file : IsRegisterFile bus regs) (fuel : ℕ) where
  read_register-reads :
      (reg : ℕ) (dev : Device)
      → read_register bus (suc fuel) reg dev ≡ some (regs dev.trace (u16 reg), after_read reg dev)
  unfolding read_register
  read_register-reads reg dev =
      let v = regs dev.trace (u16 reg) in
      let (n, out) = file.accepts dev.trace (read_request dev.cam_tag reg) in
      let small : u16 v ≡ v = omega (arith, file.words dev.trace (u16 reg)) in
      ap (read_result 2) (
        send_cmd-answered bus fuel 0x02 (le16 reg) (uninitialised bus 4 dev) 4 dev n
          (reply_of 0x02 dev.cam_tag (0 ∷ 0 ∷ le16 v)) refl out
          (file.answers_read dev.trace dev.cam_tag reg) refl)
      ∙ accept_read n v (uninitialised bus 4 dev) (answered_dev 0x02 (le16 reg) dev)
      ∙ ap (λ (t : ℕ). some (t, after_read reg dev)) small

  pub write_register-writes :
      (reg value : ℕ) (dev : Device)
      → write_register bus (suc fuel) reg value dev ≡ some (pos 0, after_write reg value dev)
  unfolding write_register
  write_register-writes reg value dev =
      let (n, out) = file.accepts dev.trace (write_request dev.cam_tag reg value) in
      ap write_result (
        send_cmd-answered bus fuel 0x03 (le16 reg ++ le16 value) (uninitialised bus 4 dev) 4 dev n
          (reply_of 0x03 dev.cam_tag (0 ∷ 0 ∷ [])) refl out
          (file.answers_write dev.trace dev.cam_tag reg value) refl)
      ∙ accept_write n (uninitialised bus 4 dev) (answered_dev 0x03 (le16 reg ++ le16 value) dev)

  -- The registers of the camera are those of an abstract file, on a camera that takes and answers
  -- every command: writing one returns 0 and sets it and no other, and reading any register
  -- afterwards gives what the file holds and changes none. Numbers and values are 16-bit words.
  pub registers_refine :
      (reg value other : ℕ) (dev : Device)
      → (dev' : Device) × (dev'' : Device) × (write_register bus (suc fuel) reg value dev
          ≡ some (pos 0, dev'))
        × (read_register bus (suc fuel) other dev'
            ≡ some (if u16 reg == u16 other then u16 value else regs dev.trace (u16 other), dev''))
        × ((r : ℕ) → regs dev''.trace r ≡ (if u16 reg == r then u16 value else regs dev.trace r))
  registers_refine reg value other dev =
      let dev' = after_write reg value dev in
      let set_all = λ (r : ℕ). file.write_sets dev.trace dev.cam_tag reg value r in
      (
        dev',
        after_read other dev',
        write_register-writes reg value dev,
        read_register-reads other dev'
            ∙ ap (λ (t : ℕ). some (t, after_read other dev')) (set_all (u16 other)),
        λ r. file.read_keeps dev'.trace dev'.cam_tag other r ∙ set_all r,
      )

  -- The infrared brightness that is read after one was set is the one set, brought into the range
  -- of 1 to 50, on a camera that takes and answers every command.
  pub brightness_round_trip :
      (brightness : ℕ) (dev : Device)
      → (dev' : Device) × (dev'' : Device) × (set_ir_brightness bus (suc fuel) brightness dev
          ≡ some (pos 0, dev'))
        × (get_ir_brightness bus (suc fuel) dev' ≡ some (pos (min (max brightness 1) 50), dev''))
  unfolding set_ir_brightness get_ir_brightness
  brightness_round_trip brightness dev =
      let (dev', dev'', w, r, _) = registers_refine 0x15 (clamp_brightness brightness) 0x15 dev in
      let (word, range) = clamp_lem brightness in
      let got : read_register bus (suc fuel) 0x15 dev' ≡ some (min (max brightness 1) 50, dev'') =
        r ∙ ap (λ (t : ℕ). some (t, dev'')) (word ∙ range) in
      (
        dev',
        dev'',
        w,
        rw (got, get_ir_brightness)
            (some_brightness (min (max brightness 1) 50) dev'' (omega arith)),
      )
