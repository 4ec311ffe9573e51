-- ===== src/Flags.antt =====
-- The registers and flags of src/flags.c, over `send_cmd`.
pub mod Registers
pub mod Unreported
pub mod Setting
pub mod Simulation
mod Tests
use soqv.Base.{
  ℕ, ◌+◌, ◌-◌, ◌^◌, Option, none, some, List, [], ◌∷◌, ◌++◌, ltb, leb, ◌==◌, if◌then◌else◌, bit_and,
  bit_or, u16, not,
}
use soqv.Base.Int.{ℤ, pos, negsuc}
use soqv.Command.{Bus, Device, CmdResult, send_cmd, le16, le16_at, uninitialised}

abbrev pub uint16_max : ℕ
uint16_max = 2 ^ 16 - 1

-- The result of a read: the word at an index of the reply, or `UINT16_MAX`.
abbrev pub read_result : ℕ → CmdResult → Option (ℕ × Device)
read_result i none = none
read_result i (some (negsuc e, replybuf, dev)) = some (uint16_max, dev)
read_result i (some (pos n, replybuf, dev)) = some (le16_at replybuf i, dev)

-- `write_register` returns 0 where `write_cmos_register` returns what `send_cmd` does.
abbrev pub write_result : CmdResult → Option (ℤ × Device)
write_result none = none
write_result (some (negsuc e, replybuf, dev)) = some (negsuc e, dev)
write_result (some (pos n, replybuf, dev)) = some (pos 0, dev)

abbrev pub cmos_result : CmdResult → Option (ℤ × Device)
cmos_result none = none
cmos_result (some (res, replybuf, dev)) = some (res, dev)

abbrev pub register_for_flag : ℕ → ℤ
register_for_flag flag =
    if flag == 2 ^ 16 then pos 0x17 else if flag == 2 ^ 17 then pos 0x47 else negsuc 0

abbrev pub near_mode : ℕ
near_mode = 2 ^ 18

abbrev pub pid_k4w_camera : ℕ
pid_k4w_camera = 0x02bf

abbrev pub clamp_brightness : ℕ → ℕ
clamp_brightness brightness =
    let at_least = if ltb brightness 1 then 1 else brightness in
    if ltb 50 at_least then 50 else at_least

module _ (bus : Bus) (fuel : ℕ) where
  unfoldable pub read_register : ℕ → Device → Option (ℕ × Device)
  read_register reg dev =
      read_result 2 (send_cmd bus fuel 0x02 (le16 reg) (uninitialised bus 4 dev) 4 dev)

  unfoldable pub write_register : ℕ → ℕ → Device → Option (ℤ × Device)
  write_register reg value dev =
      write_result (send_cmd bus fuel 0x03 (le16 reg ++ le16 value) (uninitialised bus 4 dev) 4 dev)

  unfoldable pub read_cmos_register : ℕ → Device → Option (ℕ × Device)
  read_cmos_register reg dev = read_result 4 (
      send_cmd bus fuel 0x95 (le16 1 ++ (le16 (bit_and reg 0x7fff) ++ le16 0))
        (uninitialised bus 0x400 dev) 6 dev)

  unfoldable pub write_cmos_register : ℕ → ℕ → Device → Option (ℤ × Device)
  write_cmos_register reg value dev = cmos_result (
      send_cmd bus fuel 0x95 (le16 1 ++ (le16 (bit_or reg 0x8000) ++ le16 value))
        (uninitialised bus 0x400 dev) 6 dev)

  unfoldable pub get_ir_brightness : Device → Option (ℤ × Device)
  get_ir_brightness dev = elim (read_register 0x15 dev) [
    | none ↦ none
    | some (brightness, dev') ↦
        if brightness == uint16_max then some (negsuc 0, dev') else some (pos brightness, dev')
  ]

  unfoldable pub set_ir_brightness : ℕ → Device → Option (ℤ × Device)
  set_ir_brightness brightness dev = write_register 0x15 (clamp_brightness brightness) dev

  -- Two writes, the second one only if the first succeeds; the pause between them is left out.
  abbrev pub write_both : ℕ → ℕ → Option (ℤ × Device) → Option (ℤ × Device)
  write_both reg value none = none
  write_both reg value (some (negsuc e, dev)) = some (negsuc e, dev)
  write_both reg value (some (pos n, dev)) = write_register reg value dev

  abbrev pub set_mirror : ℤ → ℕ → Device → Option (ℤ × Device)
  set_mirror (negsuc e) value dev = some (negsuc e, dev)
  set_mirror (pos reg) value dev = write_register reg value dev

  abbrev pub set_cmos_flag : ℕ → ℕ → Option (ℕ × Device) → Option (ℤ × Device)
  set_cmos_flag flag value none = none
  set_cmos_flag flag value (some (cmos_value, dev)) =
      let flagged =
        if value == 1 then bit_or cmos_value flag else bit_and cmos_value (uint16_max - flag) in
      if cmos_value == uint16_max
      then some (negsuc 0, dev)
      else write_cmos_register 0x0106 flagged dev

  -- `value` is 0 for off and 1 for on; a flag is not negative.
  unfoldable pub set_flag : ℕ → ℕ → Device → Option (ℤ × Device)
  set_flag flag value dev =
      if flag == near_mode
      then if not (dev.pid == pid_k4w_camera)
        then some (negsuc 0, dev)
        else if value == 1
        then write_both 0x02ef 0x0000 (write_register 0x0015 0x0007 dev)
        else write_both 0x02ef 0x0190 (write_register 0x0015 0x001e dev)
      else if leb (2 ^ 16) flag
      then set_mirror (register_for_flag flag) (u16 value) dev
      else set_cmos_flag flag value (read_cmos_register 0x0106 dev)
