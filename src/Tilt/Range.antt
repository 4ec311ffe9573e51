-- ===== src/Tilt/Range.antt =====
-- The angles that the motor is told, whichever way it is reached.
use soqv.Base.{
  ℕ, ◌+◌, ◌*◌, ◌/◌, ◌%◌, ◌^◌, ◌<◌, ◌≡◌, refl, ap, sym, ◌∙◌, inl, inr, Bool, true, false, not, ◌&&◌,
  ◌||◌, Option, none, some, List, [], ◌∷◌, arith, ◌==◌, if◌then◌else◌, length, Bool-cases,
}
use soqv.Base.Int.{ℤ, pos, negsuc, ltb_ℤ, ◌≤ℤ◌, ◌*ℤ◌}
use soqv.Command.{le32_at}
use soqv.Tilt.{
  MotorEvent, control, read_state, bulk, bulk_read, MotorPort, MotorDevice, int_of, int16, word_of,
  motor_command, after, is_success, clamp_degs, reply_result, get_reply, send_command,
  set_tilt_degs_alt, set_tilt_degs, send_control,
}

-- What a motor makes of an event: an angle in halves of a degree.
abbrev pub told_by : MotorEvent → Option ℤ
told_by (control request value) = if request == 0x31 then some (int16 value) else none
told_by (bulk bytes) =
    if le32_at bytes 12 == 0x803b then some (int_of (2 ^ 31) (le32_at bytes 16) *ℤ pos 2) else none
told_by read_state = none
told_by bulk_read = none

abbrev pub put : Option ℤ → List ℤ → List ℤ
put none hs = hs
put (some h) hs = h ∷ hs

-- The angles that it was told, the last one first.
unfoldable pub told : List MotorEvent → List ℤ
told [] = []
told (e ∷ es) = put (told_by e) (told es)

abbrev pub in_range : ℤ → Bool
in_range angle = not (ltb_ℤ (pos 31) angle || ltb_ℤ angle (negsuc 30))

-- The motor can be told: by audio only an angle in range.
abbrev pub is_able : ℤ → MotorDevice → Bool
is_able angle dev =
    if dev.motor_control_with_audio_enabled
    then dev.audio_open && in_range angle
    else dev.motor_enabled

clamp_degs_range : (angle : ℤ) → (negsuc 30 ≤ℤ clamp_degs angle) × (clamp_degs angle ≤ℤ pos 31)
clamp_degs_range angle = ground arith

clamp_degs_same : (angle : ℤ) → in_range angle ≡ true → clamp_degs angle ≡ angle
clamp_degs_same angle h = ground (arith, h)

double_range :
    (c : ℤ) → negsuc 30 ≤ℤ c → c ≤ℤ pos 31 → (negsuc 61 ≤ℤ c *ℤ pos 2) × (c *ℤ pos 2 ≤ℤ pos 62)
unfolding ◌*ℤ◌
double_range (pos n) lo hi = ground (arith, lo, hi)
double_range (negsuc n) lo hi = ground (arith, lo, hi)

int16-word_of : (v : ℤ) → negsuc 61 ≤ℤ v → v ≤ℤ pos 62 → int16 (word_of 16 v) ≡ v
int16-word_of (pos n) lo hi = ground (arith, hi)
int16-word_of (negsuc n) lo hi = ground (arith, lo)

le32_back :
    (n : ℕ)
    → n < 2 ^ 32
    → n % 2 ^ 8
        + 2 ^ 8 * (n / 2 ^ 8 % 2 ^ 8)
        + 2 ^ 16 * (n / 2 ^ 16 % 2 ^ 8 + 2 ^ 8 * (n / 2 ^ 24 % 2 ^ 8))
      ≡ n
le32_back n h = omega arith

word_of_small : (v : ℤ) → word_of 32 v < 2 ^ 32
word_of_small (pos n) = omega arith
word_of_small (negsuc n) = omega arith

int32-word_of : (v : ℤ) → negsuc 30 ≤ℤ v → v ≤ℤ pos 31 → int_of (2 ^ 31) (word_of 32 v) ≡ v
int32-word_of (pos n) lo hi = ground (arith, hi)
int32-word_of (negsuc n) lo hi = ground (arith, lo)

told_by-command :
    (tag : ℕ) (v : ℤ)
    → negsuc 30 ≤ℤ v
    → v ≤ℤ pos 31
    → told_by (bulk (motor_command tag 0 0x803b (word_of 32 v))) ≡ some (v *ℤ pos 2)
told_by-command tag v lo hi =
    ap (λ (n : ℕ). some (int_of (2 ^ 31) n *ℤ pos 2)) (le32_back (word_of 32 v) (word_of_small v))
    ∙ ap (λ (a : ℤ). some (a *ℤ pos 2)) (int32-word_of v lo hi)

reply_result-trace : (r : ℤ × List ℕ) (dev : MotorDevice) → (reply_result r dev).1.trace ≡ dev.trace
reply_result-trace (res, bytes) dev = elim (Bool-cases (is_success res)) [
  | inr failed ↦ rw failed refl
  | inl fine ↦ elim (Bool-cases (length bytes == 12)) [
    | inl whole ↦ rw (fine, whole) refl
    | inr short ↦ rw (fine, short) refl
  ]
]

no_contradiction : ◌≡◌ {A = Bool} false true → ⊥
no_contradiction h = ground arith

module _ (port : MotorPort) where
  -- A command and its reply tell the motor what the command says.
  told-send_command :
      (bytes : List ℕ) (dev : MotorDevice)
      → told (send_command port bytes dev).1.trace ≡ put (told_by (bulk bytes)) (told dev.trace)
  unfolding told get_reply
  told-send_command bytes dev = elim (Bool-cases (is_success (port.bulk_out dev.trace bytes))) [
    | inr failed ↦ rw failed refl
    | inl fine ↦
        let dev' = after (bulk bytes) (record dev { tag_seq = dev.tag_seq + 1 }) in
        rw fine (ap told (reply_result-trace (port.bulk_in dev'.trace) (after bulk_read dev')))
  ]

  -- The motor is told one angle, within 31 degrees, which is the one asked for if that is in range.
  pub record Told (angle : ℤ) (dev dev' : MotorDevice) : Type 0 where
    pub half_degrees : ℤ
    pub tells : told dev'.trace ≡ half_degrees ∷ told dev.trace
    pub least : negsuc 61 ≤ℤ half_degrees
    pub most : half_degrees ≤ℤ pos 62
    pub exact : in_range angle ≡ true → half_degrees ≡ angle *ℤ pos 2

  control-Told :
      (angle : ℤ) (dev : MotorDevice)
      → Told angle dev (send_control port 0x31 (word_of 16 (clamp_degs angle *ℤ pos 2)) dev).1
  unfolding told
  control-Told angle dev =
      let (lo, hi) = clamp_degs_range angle in
      let (least, most) = double_range (clamp_degs angle) lo hi in
      record {
        half_degrees = clamp_degs angle *ℤ pos 2;
        tells =
            ap (λ (h : ℤ). h ∷ told dev.trace)
              (int16-word_of (clamp_degs angle *ℤ pos 2) least most);
        least = least;
        most = most;
        exact = λ h. ap (λ (a : ℤ). a *ℤ pos 2) (clamp_degs_same angle h);
      }

  in_range-le : (angle : ℤ) → in_range angle ≡ true → (negsuc 30 ≤ℤ angle) × (angle ≤ℤ pos 31)
  in_range-le angle h = ground (arith, h)

  command-Told :
      (angle : ℤ) (dev : MotorDevice)
      → in_range angle ≡ true
      → Told angle dev
          (send_command port (motor_command dev.tag_seq 0 0x803b (word_of 32 angle)) dev).1
  command-Told angle dev h =
      let (lo, hi) = in_range-le angle h in
      let (least, most) = double_range angle lo hi in
      record {
        half_degrees = angle *ℤ pos 2;
        tells =
            told-send_command (motor_command dev.tag_seq 0 0x803b (word_of 32 angle)) dev
            ∙ ap (λ (o : Option ℤ). put o (told dev.trace))
                (told_by-command dev.tag_seq angle lo hi);
        least = least;
        most = most;
        exact = λ r. refl;
      }

  -- The ways through the code, for the three tests and the test of the range.
  abbrev ways : ℤ → MotorDevice → Bool → Bool → Bool → Bool → ℤ × MotorDevice
  ways angle dev by_audio has_audio enabled out =
      if by_audio
      then if out
        then (negsuc 0, dev)
        else if not has_audio
        then (negsuc 0, dev)
        else send_command port (motor_command dev.tag_seq 0 0x803b (word_of 32 angle)) dev
      else if not enabled
      then (pos 0, dev)
      else send_control port 0x31 (word_of 16 (clamp_degs angle *ℤ pos 2)) dev

  abbrev Outcome : ℤ → MotorDevice → Bool → MotorDevice → Type 0
  Outcome angle dev able dev' = (able ≡ true → Told angle dev dev') × (able ≡ false → dev' ≡ dev)

  ways-Outcome :
      (angle : ℤ) (dev : MotorDevice) (by_audio has_audio enabled out : Bool)
      → not out ≡ in_range angle
      → Outcome angle dev
          (if by_audio then has_audio && not out else enabled)
          (ways angle dev by_audio has_audio enabled out).1
  ways-Outcome angle dev true true enabled true e = (λ h. absurd (no_contradiction h), λ h. refl)
  ways-Outcome angle dev true false enabled true e = (λ h. absurd (no_contradiction h), λ h. refl)
  ways-Outcome angle dev true true enabled false e =
      (λ h. command-Told angle dev (sym e), λ h. absurd (no_contradiction (sym h)))
  ways-Outcome angle dev true false enabled false e = (λ h. absurd (no_contradiction h), λ h. refl)
  ways-Outcome angle dev false has_audio true out e =
      (λ h. control-Told angle dev, λ h. absurd (no_contradiction (sym h)))
  ways-Outcome angle dev false has_audio false out e = (λ h. absurd (no_contradiction h), λ h. refl)

  -- Whatever angle in whole degrees is asked for: if the motor can be told, by its own device or, for an
  -- angle within 31 degrees, by the open audio device, it is told exactly one angle, from -31 to 31
  -- degrees, which is the one asked for if that is in range; and else nothing is sent and nothing changes.
  pub set_tilt_degs_range :
      (angle : ℤ) (dev : MotorDevice)
      → (is_able angle dev ≡ true → Told angle dev (set_tilt_degs port angle dev).1)
        × (is_able angle dev ≡ false → (set_tilt_degs port angle dev).1 ≡ dev)
  unfolding set_tilt_degs set_tilt_degs_alt
  set_tilt_degs_range angle dev =
      ways-Outcome angle dev dev.motor_control_with_audio_enabled dev.audio_open dev.motor_enabled
        (ltb_ℤ (pos 31) angle || ltb_ℤ angle (negsuc 30)) refl
