-- ===== src/Command/Exchange.antt =====
-- What `send_cmd` does on every reply of the device.
use soqv.Base.{
  ℕ, zero, suc, ◌+◌, ◌-◌, ◌≤◌, ◌<◌, min, ◌≡◌, ◌⊎◌, inl, inr, refl, Bool, true, false, ◌&&◌, leb,
  some, List, ◌∷◌, length, take, drop, arith, Bool-cases, u16, ltb, length-take, ap, ◌∙◌,
}
use soqv.Base.Int.{ℤ, pos, negsuc}
use soqv.Memory.{splice, length-splice}
use soqv.Command.{
  Event, sent, polled, Reply, failed, received, Bus, Device, sizeof_hdr, poll_again, reply_ok,
  request, invalid_length, accept_reply, poll, send_cmd, after_output, polled_reply,
}

abbrev pub polls : ℕ → List Event → List Event
polls zero trace = trace
polls (suc k) trace = polls k (polled ∷ trace)

-- The device answers every command after fewer than `fuel` polls, or a poll fails.
abbrev pub IsAnswering : Bus → ℕ → Type 0
IsAnswering bus fuel =
    (trace : List Event) → (k : ℕ) × (k < fuel) × (poll_again (bus.input (polls k trace)) ≡ false)

-- A reply with a whole header, which has this command's number, tag and length.
abbrev pub is_answer : ℕ → ℕ → Reply → Bool
is_answer cmd tag (failed e) = false
is_answer cmd tag (received bytes) = leb sizeof_hdr (length bytes) && reply_ok cmd tag bytes

-- One command to a device.
pub record Exchange : Type 0 where
  pub bus : Bus
  pub cmd : ℕ
  pub cmdbuf : List ℕ
  pub replybuf : List ℕ
  pub reply_len : ℕ
  pub dev : Device

abbrev pub exchange : Bus → ℕ → List ℕ → List ℕ → ℕ → Device → Exchange
exchange bus cmd cmdbuf replybuf reply_len dev = record {
  bus = bus;
  cmd = cmd;
  cmdbuf = cmdbuf;
  replybuf = replybuf;
  reply_len = reply_len;
  dev = dev;
}

abbrev pub packet_of : Exchange → List ℕ
packet_of x = request x.cmd x.dev.cam_tag x.cmdbuf

-- The reply that ended the polls: what the device said at the `k`-th one after the packet was sent,
-- the first that is not "not yet".
pub record Heard (x : Exchange) (reply : Reply) : Type 0 where
  pub asked : ℕ
  pub said : x.bus.input (polls asked (sent (packet_of x) ∷ x.dev.trace)) ≡ reply
  pub ready : poll_again reply ≡ false
  pub first :
      (j : ℕ)
      → j < asked
      → poll_again (x.bus.input (polls j (sent (packet_of x) ∷ x.dev.trace))) ≡ true

-- The device has given an answer: its data is in the buffer, and the tag goes on.
pub record Accepted (x : Exchange) (res : ℤ) (replybuf' : List ℕ) (dev' : Device) : Type 0 where
  pub reply : List ℕ
  pub heard : Heard x (received reply)
  pub matches : is_answer x.cmd x.dev.cam_tag (received reply) ≡ true
  pub count : res ≡ pos (length reply - sizeof_hdr)
  pub filled :
      replybuf'
      ≡ splice x.replybuf 0
          (take (min x.reply_len (length reply - sizeof_hdr)) (drop sizeof_hdr reply))
  pub next_tag : dev'.cam_tag ≡ u16 (x.dev.cam_tag + 1)

-- Why a command gets no answer: it cannot be sent, it was not, or what the device said is none.
abbrev pub Unanswered : Exchange → Type 0
Unanswered x =
    (invalid_length (length x.cmdbuf) ≡ true)
    ⊎ ((e : ℕ) × (x.bus.output x.dev.trace (packet_of x) ≡ negsuc e))
    ⊎ ((reply : Reply) × Heard x reply × (is_answer x.cmd x.dev.cam_tag reply ≡ false))

-- Either there is no answer and nothing but the trace changes, or there is one and it is accepted; the
-- reply buffer keeps its length.
pub record Exchanged (x : Exchange) (res : ℤ) (replybuf' : List ℕ) (dev' : Device) : Type 0 where
  pub same_length : length replybuf' ≡ length x.replybuf
  pub outcome :
      (Unanswered x × (replybuf' ≡ x.replybuf) × (dev'.cam_tag ≡ x.dev.cam_tag))
      ⊎ Accepted x res replybuf' dev'

-- The polls from a trace on, up to the reply that ends them.
record Ended (bus : Bus) (trace : List Event) (reply : Reply) : Type 0 where
  asked : ℕ
  said : bus.input (polls asked trace) ≡ reply
  ready : poll_again reply ≡ false
  first : (j : ℕ) → j < asked → poll_again (bus.input (polls j trace)) ≡ true

Ended-now :
    (bus : Bus) (trace : List Event)
    → poll_again (bus.input trace) ≡ false
    → Ended bus trace (bus.input trace)
Ended-now bus trace e = record {
  asked = 0;
  said = refl;
  ready = e;
  first = λ j h. absurd (omega arith);
}

Ended-later :
    (bus : Bus) (trace : List Event) (reply : Reply)
    → poll_again (bus.input trace) ≡ true
    → Ended bus (polled ∷ trace) reply
    → Ended bus trace reply
Ended-later bus trace reply again e = record {
  asked = suc e.asked;
  said = e.said;
  ready = e.ready;
  first = earlier;
}
  where
    earlier : (j : ℕ) → j < suc e.asked → poll_again (bus.input (polls j trace)) ≡ true
    earlier zero h = again
    earlier (suc j) h = e.first j (omega arith)

poll_returns :
    (bus : Bus) (fuel k : ℕ) (dev : Device)
    → k < fuel
    → poll_again (bus.input (polls k dev.trace)) ≡ false
    → (reply : Reply) × (dev' : Device) × (poll bus fuel dev ≡ some (reply, dev'))
      × (dev'.cam_tag ≡ dev.cam_tag)
      × Ended bus dev.trace reply
unfolding poll
poll_returns bus zero k dev h e = absurd (omega arith)
poll_returns bus (suc fuel) zero dev h e = (
  bus.input dev.trace,
  record dev { trace = polled ∷ dev.trace },
  rw (e, poll) refl,
  refl,
  Ended-now bus dev.trace e,
)
poll_returns bus (suc fuel) (suc k) dev h e = elim (Bool-cases (poll_again (bus.input dev.trace))) [
  | inr done ↦ (
    bus.input dev.trace,
    record dev { trace = polled ∷ dev.trace },
    rw (done, poll) refl,
    refl,
    Ended-now bus dev.trace done,
  )
  | inl again ↦
      let (reply, dev', p, tag, q) =
        poll_returns bus fuel k (record dev { trace = polled ∷ dev.trace }) (omega arith) e in
      (reply, dev', rw (again, poll) p, tag, Ended-later bus dev.trace reply again q)
]

room-splice :
    (replybuf reply : List ℕ) (reply_len : ℕ)
    → reply_len ≤ length replybuf
    → length (splice replybuf 0 (take (min reply_len (length reply - 8)) (drop 8 reply)))
      ≡ length replybuf
room-splice replybuf reply reply_len h =
    length-splice replybuf 0 (take (min reply_len (length reply - 8)) (drop 8 reply))
      (omega (arith, length-take (min reply_len (length reply - 8)) (drop 8 reply)))

module _ (x : Exchange) (dev₁ : Device) (tag : dev₁.cam_tag ≡ x.dev.cam_tag) where
  unanswered :
      (reply : Reply)
      → Heard x reply
      → is_answer x.cmd x.dev.cam_tag reply ≡ false
      → (res : ℤ) → Exchanged x res x.replybuf dev₁
  unanswered reply heard none_said res = record {
    same_length = refl;
    outcome = inl (inr (inr (reply, heard, none_said)), refl, tag);
  }

  accept_reply-Exchanged :
      (res : ℤ) (reply : Reply)
      → Heard x reply
      → x.reply_len ≤ length x.replybuf
      → let (res', replybuf', dev') = accept_reply res x.cmd x.replybuf x.reply_len reply dev₁ in
        Exchanged x res' replybuf' dev'
  unfolding accept_reply
  accept_reply-Exchanged res (failed e) heard h = unanswered (failed e) heard refl res
  accept_reply-Exchanged res (received bytes) heard h = elim (Bool-cases (ltb (length bytes) 8)) [
    | inl short ↦
        rw (short, accept_reply) (unanswered (received bytes) heard (ground (arith, short)) res)
    | inr whole ↦
        let size : leb 8 (length bytes) ≡ true = ground (arith, whole) in
        elim (Bool-cases (reply_ok x.cmd x.dev.cam_tag bytes)) [
          | inr bad ↦
              let bad' = ap (λ (t : ℕ). reply_ok x.cmd t bytes) tag ∙ bad in
              rw (whole, bad', accept_reply)
                (unanswered (received bytes) heard (rw (size, bad) refl) (negsuc 0))
          | inl ok ↦
              let ok' = ap (λ (t : ℕ). reply_ok x.cmd t bytes) tag ∙ ok in
              rw (whole, ok', accept_reply)
                (record {
                  same_length = room-splice x.replybuf bytes x.reply_len h;
                  outcome = inr (record {
                    reply = bytes;
                    heard = heard;
                    matches = rw (size, ok) refl;
                    count = refl;
                    filled = refl;
                    next_tag = ap (λ (t : ℕ). u16 (t + 1)) tag;
                  });
                })
        ]
  ]

after_output-Exchanged :
    (fuel : ℕ) (res : ℤ) (x : Exchange)
    → x.bus.output x.dev.trace (packet_of x) ≡ res
    → IsAnswering x.bus fuel
    → x.reply_len ≤ length x.replybuf
    → let sent_dev = record x.dev { trace = sent (packet_of x) ∷ x.dev.trace } in
      (res' : ℤ) × (replybuf' : List ℕ) × (dev' : Device) × (after_output x.bus fuel res x.cmd
          x.replybuf x.reply_len sent_dev
        ≡ some (res', replybuf', dev'))
      × Exchanged x res' replybuf' dev'
after_output-Exchanged fuel (negsuc e) x o answers h = (
  negsuc e,
  x.replybuf,
  record x.dev { trace = sent (packet_of x) ∷ x.dev.trace },
  refl,
  record { same_length = refl; outcome = inl (inr (inl (e, o)), refl, refl) },
)
after_output-Exchanged fuel (pos n) x o answers h =
    let sent_dev = record x.dev { trace = sent (packet_of x) ∷ x.dev.trace } in
    let (k, hk, e) = answers sent_dev.trace in
    let (reply, dev₁, p, tag, q) = poll_returns x.bus fuel k sent_dev hk e in
    let heard : Heard x reply = record {
      asked = q.asked;
      said = q.said;
      ready = q.ready;
      first = q.first;
    } in
    let (res', replybuf', dev') = accept_reply (pos n) x.cmd x.replybuf x.reply_len reply dev₁ in
    (
      res',
      replybuf',
      dev',
      ap (polled_reply x.bus (pos n) x.cmd x.replybuf x.reply_len) p,
      accept_reply-Exchanged x dev₁ tag (pos n) reply heard h,
    )

pub send_cmd-Exchanged :
    (bus : Bus) (fuel cmd : ℕ) (cmdbuf replybuf : List ℕ) (reply_len : ℕ) (dev : Device)
    → IsAnswering bus fuel
    → reply_len ≤ length replybuf
    → (res : ℤ) × (replybuf' : List ℕ) × (dev' : Device) × (send_cmd bus fuel cmd cmdbuf replybuf
          reply_len dev
        ≡ some (res, replybuf', dev'))
      × Exchanged (exchange bus cmd cmdbuf replybuf reply_len dev) res replybuf' dev'
unfolding send_cmd
send_cmd-Exchanged bus fuel cmd cmdbuf replybuf reply_len dev answers h =
    let x = exchange bus cmd cmdbuf replybuf reply_len dev in
    elim (Bool-cases (invalid_length (length cmdbuf))) [
      | inl bad ↦ (
        negsuc 0,
        replybuf,
        dev,
        rw (bad, send_cmd) refl,
        record { same_length = refl; outcome = inl (inl bad, refl, refl) },
      )
      | inr ok ↦
          let (res, replybuf', dev', e, y) =
            after_output-Exchanged fuel (bus.output dev.trace (packet_of x)) x refl answers h in
          (res, replybuf', dev', rw (ok, send_cmd) e, y)
    ]
