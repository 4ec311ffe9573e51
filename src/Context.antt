-- ===== src/Context.antt =====
-- Contexts and their linked list of open devices, in src/core.c.
pub mod Chain
pub mod Search
pub mod Devices
mod Tests
use soqv.Base.{
  ℕ, zero, suc, Bool, true, false, Option, none, some, ◌==◌, if◌then◌else◌, bit_and, bit_or,
}
use soqv.Base.Int.{ℤ, pos, negsuc}
use soqv.Memory.{Ptr}

-- `next a` is the field `next` of the device at address `a`.
pub record Context : Type 0 where
  pub first : Ptr
  pub next : ℕ → Ptr
  pub enabled_subdevices : ℕ

abbrev pub set_next : (ℕ → Ptr) → ℕ → Ptr → ℕ → Ptr
set_next next a p b = if a == b then p else next b

-- `while (prev->next) prev = prev->next;`, for at most `fuel` rounds.
unfoldable pub last_device : ℕ → (ℕ → Ptr) → ℕ → Option ℕ
last_device zero next prev = none
last_device (suc fuel) next prev = elim (next prev) [
  | none ↦ some prev
  | some p ↦ last_device fuel next p
]

-- Hangs a device at the end of the list.
abbrev pub link_after : ℕ → Context → Option ℕ → Option Context
link_after pdev ctx none = none
link_after pdev ctx (some prev) = some (record ctx { next = set_next ctx.next prev (some pdev) })

abbrev pub link_from : ℕ → ℕ → Context → Ptr → Option Context
link_from fuel pdev ctx none = some (record ctx { first = some pdev })
link_from fuel pdev ctx (some a) = link_after pdev ctx (last_device fuel ctx.next a)

abbrev pub link : ℕ → ℕ → Context → Option Context
link fuel pdev ctx = link_from fuel pdev ctx ctx.first

abbrev pub opened_result : ℤ → ℕ → Option Context → Option (ℤ × Ptr × Context)
opened_result init pdev none = none
opened_result (pos n) pdev (some ctx) = some (pos 0, some pdev, ctx)
opened_result (negsuc e) pdev (some ctx) = some (negsuc 0, some pdev, ctx)

-- `freenect_open_device` for what `malloc` gives for the new device, NULL being `none`: its result,
-- what it has stored for the caller, and the context. `opened` and `init` are the results of `fnusb_open_subdevices` and
-- `freenect_camera_init`, the latter 0 if there is no camera.
unfoldable pub open_device : ℕ → Ptr → ℤ → ℤ → Context → Option (ℤ × Ptr × Context)
open_device fuel none opened init ctx = some (negsuc 0, none, ctx)
open_device fuel (some pdev) (negsuc e) init ctx = some (negsuc e, none, ctx)
open_device fuel (some pdev) (pos n) init ctx =
    opened_result init pdev (link fuel pdev (record ctx { next = set_next ctx.next pdev none }))

-- `while (cur && cur != dev)`: the device before, and the one found.
unfoldable pub find_device : ℕ → (ℕ → Ptr) → ℕ → Ptr → Ptr → Option (Ptr × Ptr)
find_device zero next dev last cur = none
find_device (suc fuel) next dev last none = some (last, none)
find_device (suc fuel) next dev last (some a) = elim (a == dev) [
  | true ↦ some (last, some a)
  | false ↦ find_device fuel next dev (some a) (next a)
]

abbrev pub unlink : Context → Option (Ptr × Ptr) → Option (ℤ × Context)
unlink ctx none = none
unlink ctx (some (last, none)) = some (negsuc 0, ctx)
unlink ctx (some (none, some cur)) = some (pos 0, record ctx { first = ctx.next cur })
unlink ctx (some (some last, some cur)) =
    some (pos 0, record ctx { next = set_next ctx.next last (ctx.next cur) })

-- `freenect_close_device`; `closed` is the result of `fnusb_close_subdevices`.
unfoldable pub close_device : ℕ → ℕ → ℤ → Context → Option (ℤ × Context)
close_device fuel dev (negsuc e) ctx = some (negsuc e, ctx)
close_device fuel dev (pos n) ctx = unlink ctx (find_device fuel ctx.next dev none ctx.first)

abbrev pub after_close : (Context → Option Context) → Option (ℤ × Context) → Option Context
after_close k none = none
after_close k (some (res, ctx)) = k ctx

abbrev pub close_next :
    (ℕ → Option (ℤ × Context)) → (Context → Option Context) → Context → Ptr → Option Context
close_next close k ctx none = some ctx
close_next close k ctx (some dev) = after_close k (close dev)

-- The loop of `freenect_shutdown`, for at most `rounds` rounds; `closes` gives the results of
-- `fnusb_close_subdevices`. The result of a close is not looked at.
unfoldable pub close_all : ℕ → ℕ → (ℕ → ℤ) → Context → Option Context
close_all zero fuel closes ctx = none
close_all (suc rounds) fuel closes ctx =
    close_next (λ dev. close_device fuel dev (closes dev) ctx) (close_all rounds fuel closes) ctx
      ctx.first

-- The motor, the camera and the audio device.
abbrev pub all_subdevices : ℕ
all_subdevices = bit_or (bit_or 0x01 0x02) 0x04

unfoldable pub select_subdevices : ℕ → Context → Context
select_subdevices subdevs ctx = record ctx { enabled_subdevices = bit_and subdevs all_subdevices }
