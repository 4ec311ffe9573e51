-- ===== src/Flags/Tests.antt =====
-- Runs of the register functions of src/flags.c on a simulated camera.
use soqv.Base.{ℕ, ◌^◌, ◌≡◌, refl, some, List, [], ◌∷◌, length, ◌==◌, if◌then◌else◌}
use mathlib.Core.Option
use soqv.Base.Int.{ℤ, pos, negsuc}
use soqv.Command.{
  Event, sent, polled, Reply, failed, received, Bus, Device, send_cmd, poll, accept_reply,
}
use soqv.Memory.{splice}
use soqv.Flags.{
  read_register, write_register, get_ir_brightness, set_ir_brightness, set_flag, near_mode,
}
use soqv.Flags.Registers.{registers_refine, brightness_round_trip}
use soqv.Flags.Setting.{set_flag_registers, flag_settings, mirror_depth}
use soqv.Flags.Unreported.{lost_reply_unreported, polled_dev}
use soqv.Flags.Simulation.{sim, sim_regs, sim_input, sim-IsRegisterFile}

abbrev camera : Device
camera = record { trace = []; cam_tag = 65535; pid = 0x02ae }

-- The tag wraps round to 0.
tag_wraps :
    Option.map (λ (r : ℤ × Device). r.1.cam_tag) (write_register sim 1 0x15 12 camera) ≡ some 0
unfolding write_register send_cmd poll accept_reply splice
tag_wraps = refl

registers_refine_example :
    (dev' : Device) × (dev'' : Device) × (write_register sim 1 0x15 12 camera ≡ some (pos 0, dev'))
    × (read_register sim 1 0x15 dev' ≡ some (12, dev''))
    × ((r : ℕ) → sim_regs dev''.trace r ≡ (if 0x15 == r then 12 else 0))
registers_refine_example = registers_refine sim sim_regs sim-IsRegisterFile 0 0x15 12 0x15 camera

brightness_round_trip_example :
    (dev' : Device) × (dev'' : Device) × (set_ir_brightness sim 1 200 camera ≡ some (pos 0, dev'))
    × (get_ir_brightness sim 1 dev' ≡ some (pos 50, dev''))
brightness_round_trip_example = brightness_round_trip sim sim_regs sim-IsRegisterFile 0 200 camera

-- Near mode on a camera that does not have it.
foreign_flag : set_flag sim 1 near_mode 1 camera ≡ some (negsuc 0, camera)
unfolding set_flag
foreign_flag = refl

set_flag_registers_example :
    (dev' : Device) × (set_flag sim 1 (2 ^ 16) 1 camera ≡ some (pos 0, dev'))
    × ((r : ℕ) → sim_regs dev'.trace r ≡ flag_settings (2 ^ 16) 1 (sim_regs []) r)
set_flag_registers_example =
    set_flag_registers sim sim_regs sim-IsRegisterFile 0 (2 ^ 16) 1 camera mirror_depth

-- A camera that is ready at the second poll: the simulated one, with an empty reply before.
abbrev slow_input : List Event → Reply
slow_input [] = failed 0
slow_input (polled ∷ t) = sim_input t
slow_input (sent p ∷ t) = received []

abbrev slow : Bus
slow = record { output = λ t p. pos (length p); input = slow_input; stack = λ t i. 7 }

abbrev deaf : Bus
deaf = record { output = λ t p. pos (length p); input = λ t. failed 3; stack = λ t i. 7 }

lost_reply_unreported_example :
    (write_register deaf 1 0x15 12 camera
      ≡ some (pos 0, polled_dev 0x03 (0x15 ∷ 0 ∷ 12 ∷ 0 ∷ []) camera))
    × (read_register deaf 1 0x15 camera ≡ some (0x0707, polled_dev 0x02 (0x15 ∷ 0 ∷ []) camera))
lost_reply_unreported_example =
    lost_reply_unreported deaf 0 0x15 12 camera
      (record { takes = λ t p. (length p, refl); loses = λ t. (3, refl) })
