-- ===== src/Flags/Unreported.antt =====
-- What the register functions report when the reply to a command is lost.
use soqv.Base.{ℕ, suc, ◌+◌, ◌*◌, ◌^◌, ◌≡◌, refl, some, List, ◌∷◌, ◌++◌, ap}
use soqv.Base.Int.{pos}
use soqv.Command.{
  Event, sent, polled, Reply, failed, Bus, Device, send_cmd, accept_reply, poll, request, le16,
  after_output, uninitialised,
}
use soqv.Flags.{read_register, write_register, read_result, write_result}

-- Every packet is taken, and every reply transfer fails.
pub record LosesReplies (bus : Bus) : Type 0 where
  pub takes : (t : List Event) (packet : List ℕ) → (n : ℕ) × (bus.output t packet ≡ pos n)
  pub loses : (t : List Event) → (e : ℕ) × (bus.input t ≡ failed e)

abbrev pub polled_dev : ℕ → List ℕ → Device → Device
polled_dev cmd cmdbuf dev = record dev {
  trace = polled ∷ sent (request cmd dev.cam_tag cmdbuf) ∷ dev.trace;
}

poll-failed :
    (bus : Bus) (fuel e : ℕ) (dev : Device)
    → bus.input dev.trace ≡ failed e
    → poll bus (suc fuel) dev ≡ some (failed e, record dev { trace = polled ∷ dev.trace })
unfolding poll
poll-failed bus fuel e dev h =
    rw (h, poll) (ap (λ (t : Reply). some (t, record dev { trace = polled ∷ dev.trace })) h)

send_cmd-lost :
    (bus : Bus) (fuel cmd : ℕ) (cmdbuf replybuf : List ℕ) (reply_len : ℕ) (dev : Device) (n e : ℕ)
    → bus.output dev.trace (request cmd dev.cam_tag cmdbuf) ≡ pos n
    → bus.input (sent (request cmd dev.cam_tag cmdbuf) ∷ dev.trace) ≡ failed e
    → after_output bus
        (suc fuel)
        (bus.output dev.trace (request cmd dev.cam_tag cmdbuf))
        cmd
        replybuf
        reply_len
        (record dev { trace = sent (request cmd dev.cam_tag cmdbuf) ∷ dev.trace })
      ≡ some (pos n, replybuf, polled_dev cmd cmdbuf dev)
unfolding accept_reply
send_cmd-lost bus fuel cmd cmdbuf replybuf reply_len dev n e out inp =
    rw
      (
        out,
        poll-failed bus fuel e
            (record dev { trace = sent (request cmd dev.cam_tag cmdbuf) ∷ dev.trace }) inp,
      )
      refl

-- If the packet of a command is sent but its reply transfer fails, the failure is not reported:
-- writing a register returns 0, the value for success, and reading one returns the second word of
-- an array that was never written. The command's tag does not go on.
pub lost_reply_unreported :
    (bus : Bus) (fuel reg value : ℕ) (dev : Device)
    → LosesReplies bus
    → (write_register bus (suc fuel) reg value dev
        ≡ some (pos 0, polled_dev 0x03 (le16 reg ++ le16 value) dev))
      × (read_register bus (suc fuel) reg dev
          ≡ some (
            bus.stack dev.trace 2 + 2 ^ 8 * bus.stack dev.trace 3,
            polled_dev 0x02 (le16 reg) dev,
          ))
unfolding write_register read_register send_cmd
lost_reply_unreported bus fuel reg value dev lost =
    let wreq = request 0x03 dev.cam_tag (le16 reg ++ le16 value) in
    let rreq = request 0x02 dev.cam_tag (le16 reg) in
    let (n, out) = lost.takes dev.trace wreq in
    let (e, inp) = lost.loses (sent wreq ∷ dev.trace) in
    let (n', out') = lost.takes dev.trace rreq in
    let (e', inp') = lost.loses (sent rreq ∷ dev.trace) in
    (
      ap write_result (
          send_cmd-lost bus fuel 0x03 (le16 reg ++ le16 value) (uninitialised bus 4 dev) 4 dev n e
            out inp),
      ap (read_result 2)
          (send_cmd-lost bus fuel 0x02 (le16 reg) (uninitialised bus 4 dev) 4 dev n' e' out' inp'),
    )
