-- ===== src/Tilt.antt =====
-- The tilt motor, its accelerometer and the LED, in src/tilt.c: over the motor device of the first
-- model, and over the audio device of the newer ones. Angles are whole degrees.
pub mod Range
mod Tests
use soqv.Base.{
  ℕ, zero, suc, ◌+◌, ◌-◌, ◌*◌, ◌%◌, ◌^◌, Bool, true, false, not, ◌&&◌, ◌||◌, Option, none, some,
  List, [], ◌∷◌, ◌++◌, ltb, ◌==◌, if◌then◌else◌, length, get_or, bit_or, ◌<<<◌, u16,
}
use soqv.Base.Int.{ℤ, pos, negsuc, ltb_ℤ, ◌*ℤ◌}
use soqv.Memory.{splice, tabulate}
use soqv.Command.{le32, le32_at}

-- The transfers so far: a control request with its value, a read of the accelerometer, and bulk
-- transfers in both directions.
pub data MotorEvent : Type 0 where
  control : ℕ → ℕ → MotorEvent
  read_state : MotorEvent
  bulk : List ℕ → MotorEvent
  bulk_read : MotorEvent

-- What the transfers return, with the bytes of those from the device; and what an uninitialised buffer
-- holds.
pub record MotorPort : Type 0 where
  pub control_out : List MotorEvent → ℕ → ℕ → ℤ
  pub control_in : List MotorEvent → ℤ × List ℕ
  pub bulk_out : List MotorEvent → List ℕ → ℤ
  pub bulk_in : List MotorEvent → ℤ × List ℕ
  pub stack : List MotorEvent → ℕ → ℕ

pub record RawTiltState : Type 0 where
  pub accelerometer_x : ℤ
  pub accelerometer_y : ℤ
  pub accelerometer_z : ℤ
  pub tilt_angle : ℤ
  pub tilt_status : ℕ

-- The part of a device that the motor is in: the handle of its audio device and the motor flag of its
-- context as tests, and the two counters of the file.
pub record MotorDevice : Type 0 where
  pub trace : List MotorEvent
  pub raw_state : RawTiltState
  pub audio_open : Bool
  pub motor_enabled : Bool
  pub motor_control_with_audio_enabled : Bool
  pub tag_seq : ℕ
  pub tag_next_ack : ℕ

-- Casts between words and signed numbers, by two's complement.
abbrev pub int_of : ℕ → ℕ → ℤ
int_of half n = if ltb n half then pos n else negsuc (2 * half - 1 - n)

abbrev pub int8 : ℕ → ℤ
int8 n = int_of (2 ^ 7) (n % 2 ^ 8)

abbrev pub int16 : ℕ → ℤ
int16 n = int_of (2 ^ 15) (n % 2 ^ 16)

abbrev pub word_of : ℕ → ℤ → ℕ
word_of w (pos n) = n % 2 ^ w
word_of w (negsuc e) = 2 ^ w - 1 - e % 2 ^ w

-- A `fn_alt_motor_command`: the request for the state has no last word.
abbrev pub short_command : ℕ → ℕ → ℕ → List ℕ
short_command tag arg1 cmd = le32 0x06022009 ++ (le32 tag ++ (le32 arg1 ++ le32 cmd))

abbrev pub motor_command : ℕ → ℕ → ℕ → ℕ → List ℕ
motor_command tag arg1 cmd arg2 = short_command tag arg1 cmd ++ le32 arg2

abbrev pub after : MotorEvent → MotorDevice → MotorDevice
after event dev = record dev { trace = event ∷ dev.trace }

abbrev pub is_success : ℤ → Bool
is_success (pos n) = n == 0
is_success (negsuc e) = false

abbrev pub clamp_degs : ℤ → ℤ
clamp_degs angle =
    if ltb_ℤ angle (negsuc 30) then negsuc 30 else if ltb_ℤ (pos 31) angle then pos 31 else angle

-- The alternative states of the LED.
abbrev pub led_alt : ℕ → ℕ
led_alt state =
    if state == 1
    then 3
    else if state == 2
    then 4
    else if state == 3
    then 3
    else if state == 0
    then 1
    else if state == 4
    then 2
    else 1

-- A reply of another length than 12 is not an error.
abbrev pub reply_result : ℤ × List ℕ → MotorDevice → ℤ × MotorDevice
reply_result (res, bytes) dev =
    let bad = not (le32_at bytes 0 == 0x0a6fe000) || not (le32_at bytes 8 == 0) in
    if not (is_success res)
    then (res, dev)
    else if not (length bytes == 12)
    then (res, dev)
    else ((if bad then negsuc 0 else res), record dev { tag_next_ack = dev.tag_next_ack + 1 })

-- The fields of the reply of at least 32 bytes; shorter ones leave what the buffer held.
abbrev pub alt_state : List ℕ → RawTiltState → RawTiltState
alt_state buffer state = record state {
  accelerometer_x = int16 (le32_at buffer 16);
  accelerometer_y = int16 (le32_at buffer 20);
  accelerometer_z = int16 (le32_at buffer 24);
  tilt_angle = int8 (2 * le32_at buffer 28);
}

abbrev pub word_at : List ℕ → ℕ → ℕ
word_at buf i = bit_or (get_or buf i 0 <<< 8) (get_or buf (i + 1) 0)

abbrev pub motor_state : List ℕ → RawTiltState
motor_state buf = record {
  accelerometer_x = int16 (word_at buf 2);
  accelerometer_y = int16 (word_at buf 4);
  accelerometer_z = int16 (word_at buf 6);
  tilt_angle = int8 (get_or buf 8 0);
  tilt_status = get_or buf 9 0;
}

-- `ret < 0 ? ret : -1`, where `ret` is not 10.
abbrev pub read_error : ℤ → ℤ
read_error (negsuc e) = negsuc e
read_error (pos n) = negsuc 0

abbrev pub is_ten : ℤ → Bool
is_ten (pos n) = n == 10
is_ten (negsuc e) = false

abbrev pub state_read : ℤ × List ℕ → MotorDevice → ℤ × MotorDevice
state_read (ret, buf) dev =
    if is_ten ret then (ret, record dev { raw_state = motor_state buf }) else (read_error ret, dev)

module _ (port : MotorPort) where
  unfoldable pub get_reply : MotorDevice → ℤ × MotorDevice
  get_reply dev = reply_result (port.bulk_in dev.trace) (after bulk_read dev)

  -- A command to the audio device, then its reply.
  abbrev pub send_command : List ℕ → MotorDevice → ℤ × MotorDevice
  send_command buffer dev =
      let dev' = after (bulk buffer) (record dev { tag_seq = dev.tag_seq + 1 }) in
      let res = port.bulk_out dev.trace buffer in
      if is_success res then get_reply dev' else (res, dev')

  abbrev pub alt_read : List ℕ → ℤ × List ℕ → MotorDevice → ℤ × MotorDevice
  alt_read buffer (res, bytes) dev =
      if is_success res
      then get_reply (record dev { raw_state = alt_state (splice buffer 0 bytes) dev.raw_state })
      else (res, dev)

  unfoldable pub update_tilt_state_alt : MotorDevice → ℤ × MotorDevice
  update_tilt_state_alt dev =
      let cmd = short_command dev.tag_seq 0x68 0x8032 in
      let buffer = splice (tabulate 256 (port.stack dev.trace)) 0 cmd in
      let dev' = after (bulk cmd) (record dev { tag_seq = dev.tag_seq + 1 }) in
      let res = port.bulk_out dev.trace cmd in
      if not dev.audio_open
      then (negsuc 0, dev)
      else if is_success res
      then alt_read buffer (port.bulk_in dev'.trace) (after bulk_read dev')
      else (res, dev')

  unfoldable pub update_tilt_state : MotorDevice → ℤ × MotorDevice
  update_tilt_state dev =
      if dev.motor_control_with_audio_enabled
      then update_tilt_state_alt dev
      else if not dev.motor_enabled
      then (pos 0, dev)
      else state_read (port.control_in dev.trace) (after read_state dev)

  unfoldable pub set_tilt_degs_alt : ℤ → MotorDevice → ℤ × MotorDevice
  set_tilt_degs_alt tilt_degrees dev =
      if ltb_ℤ (pos 31) tilt_degrees || ltb_ℤ tilt_degrees (negsuc 30)
      then (negsuc 0, dev)
      else if not dev.audio_open
      then (negsuc 0, dev)
      else send_command (motor_command dev.tag_seq 0 0x803b (word_of 32 tilt_degrees)) dev

  -- `fnusb_control` with no data.
  abbrev pub send_control : ℕ → ℕ → MotorDevice → ℤ × MotorDevice
  send_control request value dev =
      (port.control_out dev.trace request value, after (control request value) dev)

  unfoldable pub set_tilt_degs : ℤ → MotorDevice → ℤ × MotorDevice
  set_tilt_degs angle dev =
      if dev.motor_control_with_audio_enabled
      then set_tilt_degs_alt angle dev
      else if not dev.motor_enabled
      then (pos 0, dev)
      else send_control 0x31 (word_of 16 (clamp_degs angle *ℤ pos 2)) dev

  unfoldable pub set_led_alt : ℕ → MotorDevice → ℤ × MotorDevice
  set_led_alt state dev =
      if not dev.audio_open
      then (negsuc 0, dev)
      else send_command (motor_command dev.tag_seq 0 0x10 (led_alt state)) dev

  unfoldable pub set_led : ℕ → MotorDevice → ℤ × MotorDevice
  set_led option dev =
      if dev.motor_control_with_audio_enabled
      then set_led_alt option dev
      else if not dev.motor_enabled
      then (pos 0, dev)
      else send_control 0x06 (u16 option) dev
