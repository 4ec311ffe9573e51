-- ===== src/Flags/Setting.antt =====
-- `freenect_set_flag`: what it refuses, and what it writes to a camera with a file of registers.
use soqv.Base.{
  ℕ, suc, ◌≤◌, ◌^◌, ◌≡◌, ◌≢◌, refl, Bool, true, false, some, List, arith, ◌==◌, ap, ◌∙◌,
  if◌then◌else◌, not, u16,
}
use soqv.Base.Int.{pos, negsuc}
use soqv.Command.{Event, Bus, Device}
use soqv.Flags.{set_flag, write_both, near_mode, pid_k4w_camera, write_register}
use soqv.Flags.Registers.{IsRegisterFile, after_write, write_register-writes}

-- A flag that no camera, or only the other model, has.
pub data IsForeign (dev : Device) : ℕ → Type 0 where
  near : dev.pid ≢ pid_k4w_camera → IsForeign dev near_mode
  unknown :
      (flag : ℕ)
      → 2 ^ 16 ≤ flag
      → flag ≢ 2 ^ 16
      → flag ≢ 2 ^ 17
      → flag ≢ near_mode
      → IsForeign dev flag

-- Setting a flag that the camera does not have returns -1 and sends nothing: near mode on another
-- model than the K4W, and a number of 2 ^ 16 or more that is none of the three such flags.
pub set_flag_foreign :
    (bus : Bus) (fuel flag value : ℕ) (dev : Device)
    → IsForeign dev flag
    → set_flag bus fuel flag value dev ≡ some (negsuc 0, dev)
unfolding set_flag
set_flag_foreign bus fuel flag value dev (near h) = ground (arith, h)
set_flag_foreign bus fuel flag value dev (unknown n h a b c) = ground (arith, h, a, b, c)

abbrev pub near_settings : ℕ → (ℕ → ℕ) → ℕ → ℕ
near_settings value regs r =
    if 0x02ef == r
    then (if value == 1 then 0 else 0x190)
    else if 0x0015 == r
    then (if value == 1 then 7 else 0x1e)
    else regs r

-- What a flag above the CMOS register's sets in a file of registers.
abbrev pub flag_settings : ℕ → ℕ → (ℕ → ℕ) → ℕ → ℕ
flag_settings flag value regs = if flag == near_mode then near_settings value regs else λ r.
    if (if flag == 2 ^ 16 then 0x17 else 0x47) == r then u16 value else regs r

pub data IsRegisterFlag (dev : Device) : ℕ → Type 0 where
  near : dev.pid ≡ pid_k4w_camera → IsRegisterFlag dev near_mode
  mirror_depth : IsRegisterFlag dev (2 ^ 16)
  mirror_video : IsRegisterFlag dev (2 ^ 17)

module _ (bus : Bus) (regs : List Event → ℕ → ℕ) (file : IsRegisterFile bus regs) (fuel : ℕ) where
  near-both :
      (first second : ℕ) (dev : Device)
      → write_both bus (suc fuel) 0x02ef second (write_register bus (suc fuel) 0x0015 first dev)
        ≡ some (pos 0, after_write 0x02ef second (after_write 0x0015 first dev))
  near-both first second dev =
      ap (write_both bus (suc fuel) 0x02ef second)
        (write_register-writes bus regs file fuel 0x0015 first dev)
      ∙ write_register-writes bus regs file fuel 0x02ef second (after_write 0x0015 first dev)

  near_set :
      (first second : ℕ) (dev : Device) (r : ℕ)
      → regs (after_write 0x02ef second (after_write 0x0015 first dev)).trace r
        ≡ (if 0x02ef == r then u16 second else if 0x0015 == r then u16 first else regs dev.trace r)
  near_set first second dev r =
      let dev₁ = after_write 0x0015 first dev in
      file.write_sets dev₁.trace dev₁.cam_tag 0x02ef second r
      ∙ ap (λ (t : ℕ). if 0x02ef == r then u16 second else t)
          (file.write_sets dev.trace dev.cam_tag 0x0015 first r)

  near_chosen :
      (on : Bool) (dev : Device)
      → (if on
          then write_both bus
              (suc fuel)
              0x02ef
              0x0000
              (write_register bus (suc fuel) 0x0015 0x0007 dev)
          else write_both bus
              (suc fuel)
              0x02ef
              0x0190
              (write_register bus (suc fuel) 0x0015 0x001e dev))
        ≡ some (
          pos 0,
          after_write 0x02ef
              (if on then 0 else 0x190)
              (after_write 0x0015 (if on then 7 else 0x1e) dev),
        )
  near_chosen true dev = near-both 7 0 dev
  near_chosen false dev = near-both 0x1e 0x190 dev

  near_word :
      (on : Bool) (r v : ℕ)
      → (if 0x02ef == r
          then u16 (if on then 0 else 0x190)
          else if 0x0015 == r
          then u16 (if on then 7 else 0x1e)
          else v)
        ≡ (if 0x02ef == r
            then (if on then 0 else 0x190)
            else if 0x0015 == r
            then (if on then 7 else 0x1e)
            else v)
  near_word true r v = refl
  near_word false r v = refl

  mirror_set :
      (reg value : ℕ) (dev : Device) (r : ℕ)
      → regs (after_write reg (u16 value) dev).trace r
        ≡ (if u16 reg == r then u16 value else regs dev.trace r)
  mirror_set reg value dev r =
      let once : u16 (u16 value) ≡ u16 value = omega arith in
      file.write_sets dev.trace dev.cam_tag reg (u16 value) r
      ∙ ap (λ (t : ℕ). if u16 reg == r then t else regs dev.trace r) once

  -- On a camera that takes and answers every command, setting near mode (on a K4W) or a mirror flag
  -- returns 0 and sets exactly the registers of that flag: 0x15 and 0x2ef for near mode, 0x17 or
  -- 0x47 for a mirror flag.
  pub set_flag_registers :
      (flag value : ℕ) (dev : Device)
      → IsRegisterFlag dev flag
      → (dev' : Device) × (set_flag bus (suc fuel) flag value dev ≡ some (pos 0, dev'))
        × ((r : ℕ) → regs dev'.trace r ≡ flag_settings flag value (regs dev.trace) r)
  unfolding set_flag
  set_flag_registers flag value dev (near h) =
      let model : not (dev.pid == pid_k4w_camera) ≡ false = ground (arith, h) in
      let on = value == 1 in
      (
        after_write 0x02ef (if on then 0 else 0x190)
            (after_write 0x0015 (if on then 7 else 0x1e) dev),
        rw (model, set_flag) (near_chosen on dev),
        λ r.
            near_set (if on then 7 else 0x1e) (if on then 0 else 0x190) dev r
            ∙ near_word on r (regs dev.trace r),
      )
  set_flag_registers flag value dev mirror_depth = (
    after_write 0x17 (u16 value) dev,
    write_register-writes bus regs file fuel 0x17 (u16 value) dev,
    λ r. mirror_set 0x17 value dev r,
  )
  set_flag_registers flag value dev mirror_video = (
    after_write 0x47 (u16 value) dev,
    write_register-writes bus regs file fuel 0x47 (u16 value) dev,
    λ r. mirror_set 0x47 value dev r,
  )
