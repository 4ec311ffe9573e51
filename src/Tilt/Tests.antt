-- ===== src/Tilt/Tests.antt =====
-- Runs of the motor, on the two kinds of device.
use soqv.Base.{◌≡◌, refl, Bool, true, false, [], ◌∷◌, ◌++◌}
use soqv.Base.Int.{pos, negsuc, ◌*ℤ◌}
use soqv.Command.{le32}
use soqv.Tilt.{
  control, bulk, bulk_read, MotorPort, MotorDevice, RawTiltState, update_tilt_state, set_tilt_degs,
  set_tilt_degs_alt, set_led, set_led_alt, get_reply,
}
use soqv.Tilt.Range.{is_able, Told, set_tilt_degs_range}

-- A motor that answers with a fixed state, and an audio device with a reply to commands.
abbrev port : MotorPort
port = record {
  control_out = λ events request value. pos 0;
  control_in = λ events. (pos 10, 0 ∷ 0 ∷ 0xff ∷ 0xfe ∷ 0x01 ∷ 0x02 ∷ 0 ∷ 9 ∷ 0xf0 ∷ 4 ∷ []);
  bulk_out = λ events bytes. pos 0;
  bulk_in = λ events. (pos 0, le32 0x0a6fe000 ++ (le32 0 ++ le32 0));
  stack = λ events i. 0;
}

abbrev level : RawTiltState
level = record {
  accelerometer_x = pos 0;
  accelerometer_y = pos 0;
  accelerometer_z = pos 0;
  tilt_angle = pos 0;
  tilt_status = 0;
}

abbrev device : Bool → MotorDevice
device by_audio = record {
  trace = [];
  raw_state = level;
  audio_open = true;
  motor_enabled = true;
  motor_control_with_audio_enabled = by_audio;
  tag_seq = 7;
  tag_next_ack = 0;
}

state_read : (update_tilt_state port (device false)).1.raw_state ≡ record {
  accelerometer_x = negsuc 1;
  accelerometer_y = pos 258;
  accelerometer_z = pos 9;
  tilt_angle = negsuc 15;
  tilt_status = 4;
}
unfolding update_tilt_state
state_read = refl

-- Ten bytes are read, and 10 is returned.
read_result : (update_tilt_state port (device false)).0 ≡ pos 10
unfolding update_tilt_state
read_result = refl

clamped : (set_tilt_degs port (pos 40) (device false)).1.trace ≡ control 0x31 62 ∷ []
unfolding set_tilt_degs ◌*ℤ◌
clamped = refl

refused : set_tilt_degs port (pos 40) (device true) ≡ (negsuc 0, device true)
unfolding set_tilt_degs set_tilt_degs_alt
refused = refl

-- The state 6, which blinks red and yellow, has no counterpart, and turns the LED off.
blinking :
    (set_led port 6 (device true)).1.trace
    ≡ bulk_read ∷ bulk (le32 0x06022009 ++ (le32 7 ++ (le32 0 ++ le32 0x10)) ++ le32 1) ∷ []
unfolding set_led set_led_alt get_reply
blinking = refl

set_tilt_degs_range_example :
    (is_able (negsuc 9) (device true) ≡ true
      → Told port (negsuc 9) (device true) (set_tilt_degs port (negsuc 9) (device true)).1)
    × (is_able (negsuc 9) (device true) ≡ false
        → (set_tilt_degs port (negsuc 9) (device true)).1 ≡ device true)
set_tilt_degs_range_example = set_tilt_degs_range port (negsuc 9) (device true)
