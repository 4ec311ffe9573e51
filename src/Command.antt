-- ===== src/Command.antt =====
-- `send_cmd` of src/flags.c: one command to the camera and its reply, over USB control transfers.
pub mod Exchange
use soqv.Base.{
  ℕ, zero, suc, ◌+◌, ◌*◌, ◌-◌, ◌/◌, ◌%◌, ◌^◌, min, Bool, true, false, not, ◌&&◌, ◌||◌, Option, none,
  some, List, [], ◌∷◌, ◌++◌, ltb, ◌==◌, if◌then◌else◌, length, take, drop, get_or, u16,
}
use soqv.Base.Int.{ℤ, pos, negsuc}
use soqv.Memory.{splice, tabulate}

-- The transfers so far, the last one first.
pub data Event : Type 0 where
  sent : List ℕ → Event
  polled : Event

-- What a transfer from the device gives: an error -(n + 1), or bytes.
pub data Reply : Type 0 where
  failed : ℕ → Reply
  received : List ℕ → Reply

-- `fnusb_control` in both directions, and what an uninitialised buffer on the stack holds.
pub record Bus : Type 0 where
  pub output : List Event → List ℕ → ℤ
  pub input : List Event → Reply
  pub stack : List Event → ℕ → ℕ

-- The fields of `freenect_device` that commands use. `cam_tag` and `pid` are 16-bit words.
pub record Device : Type 0 where
  pub trace : List Event
  pub cam_tag : ℕ
  pub pid : ℕ

-- A 16-bit word in little-endian order, and back.
abbrev pub le16 : ℕ → List ℕ
le16 n = n % 2 ^ 8 ∷ n / 2 ^ 8 % 2 ^ 8 ∷ []

abbrev pub le16_at : List ℕ → ℕ → ℕ
le16_at bytes i = get_or bytes i 0 + 2 ^ 8 * get_or bytes (i + 1) 0

-- A 32-bit word in the same order, and back.
abbrev pub le32 : ℕ → List ℕ
le32 n = n % 2 ^ 8 ∷ n / 2 ^ 8 % 2 ^ 8 ∷ n / 2 ^ 16 % 2 ^ 8 ∷ n / 2 ^ 24 % 2 ^ 8 ∷ []

abbrev pub le32_at : List ℕ → ℕ → ℕ
le32_at bytes i = le16_at bytes i + 2 ^ 16 * le16_at bytes (i + 2)

-- A `cam_hdr` with the given magic, then the data.
abbrev pub framed : ℕ → ℕ → ℕ → ℕ → List ℕ → List ℕ
framed magic0 magic1 cmd tag data_bytes =
    magic0 ∷ magic1 ∷ (le16 (length data_bytes / 2) ++ (le16 cmd ++ (le16 tag ++ data_bytes)))

abbrev pub request : ℕ → ℕ → List ℕ → List ℕ
request = framed 0x47 0x4d

abbrev pub sizeof_hdr : ℕ
sizeof_hdr = 8

-- `(actual_len == 0) || (actual_len == 0x200)`.
abbrev pub poll_again : Reply → Bool
poll_again (failed e) = false
poll_again (received bytes) = length bytes == 0 || length bytes == 0x200

-- The checks of magic, command, tag and length, on at least a header.
abbrev pub reply_ok : ℕ → ℕ → List ℕ → Bool
reply_ok cmd tag bytes =
    (get_or bytes 0 0 == 0x52 && get_or bytes 1 0 == 0x42)
    && (le16_at bytes 4 == u16 cmd
        && (le16_at bytes 6 == u16 tag && le16_at bytes 2 == (length bytes - sizeof_hdr) / 2))

abbrev pub invalid_length : ℕ → Bool
invalid_length cmd_len = cmd_len % 2 == 1 || ltb (0x400 - sizeof_hdr) cmd_len

-- What a command returns, its reply buffer, and the device; `none` is a poll that has not ended.
abbrev pub CmdResult : Type 0
CmdResult = Option (ℤ × List ℕ × Device)

-- What comes after the polls. `res` is the result of the output transfer.
unfoldable pub accept_reply : ℤ → ℕ → List ℕ → ℕ → Reply → Device → ℤ × List ℕ × Device
accept_reply res cmd replybuf reply_len (failed e) dev = (res, replybuf, dev)
accept_reply res cmd replybuf reply_len (received bytes) dev =
    let actual_len = length bytes - sizeof_hdr in
    if ltb (length bytes) sizeof_hdr
    then (res, replybuf, dev)
    else if not (reply_ok cmd dev.cam_tag bytes)
    then (negsuc 0, replybuf, dev)
    else (
      pos actual_len,
      splice replybuf 0 (take (min reply_len actual_len) (drop sizeof_hdr bytes)),
      record dev { cam_tag = u16 (dev.cam_tag + 1) },
    )

module _ (bus : Bus) where
  -- The loop `do ... while`, for at most `fuel` polls.
  unfoldable pub poll : ℕ → Device → Option (Reply × Device)
  poll zero dev = none
  poll (suc fuel) dev =
      let reply = bus.input dev.trace in
      let dev' = record dev { trace = polled ∷ dev.trace } in
      elim (poll_again reply) [ true ↦ poll fuel dev' | false ↦ some (reply, dev') ]

  abbrev pub polled_reply : ℤ → ℕ → List ℕ → ℕ → Option (Reply × Device) → CmdResult
  polled_reply res cmd replybuf reply_len none = none
  polled_reply res cmd replybuf reply_len (some (reply, dev)) =
      some (accept_reply res cmd replybuf reply_len reply dev)

  abbrev pub after_output : ℕ → ℤ → ℕ → List ℕ → ℕ → Device → CmdResult
  after_output fuel (negsuc e) cmd replybuf reply_len dev = some (negsuc e, replybuf, dev)
  after_output fuel (pos n) cmd replybuf reply_len dev =
      polled_reply (pos n) cmd replybuf reply_len (poll fuel dev)

  unfoldable pub send_cmd : ℕ → ℕ → List ℕ → List ℕ → ℕ → Device → CmdResult
  send_cmd fuel cmd cmdbuf replybuf reply_len dev =
      let packet = request cmd dev.cam_tag cmdbuf in
      let sent_dev = record dev { trace = sent packet ∷ dev.trace } in
      if invalid_length (length cmdbuf)
      then some (negsuc 0, replybuf, dev)
      else after_output fuel (bus.output dev.trace packet) cmd replybuf reply_len sent_dev

  -- `n` bytes of an uninitialised array.
  abbrev pub uninitialised : ℕ → Device → List ℕ
  uninitialised n dev = tabulate n (bus.stack dev.trace)
