-- ===== src/Context/Tests.antt =====
-- Runs on a context with two open devices.
use soqv.Base.{◌≡◌, refl, none, some, [], ◌∷◌, arith}
use mathlib.Core.Option
use soqv.Base.Int.{ℤ, pos, negsuc}
use soqv.Context.{Context, set_next, open_device, close_device, find_device, select_subdevices}
use soqv.Context.Devices.{IsList, open_device_appends, close_device_removes}

abbrev two_open : Context
two_open = record {
  first = some 5;
  next = set_next (set_next (λ a. some 99) 5 (some 3)) 3 none;
  enabled_subdevices = 3;
}

two_open-IsList : IsList two_open (5 ∷ 3 ∷ [])
two_open-IsList = record {
  chain = (refl, (refl, refl));
  distinct = ((λ h. absurd (omega arith), tt), (tt, tt));
}

close_unknown :
    Option.map (λ (r : ℤ × Context). r.0) (close_device 9 8 (pos 0) two_open) ≡ some (negsuc 0)
unfolding close_device find_device
close_unknown = refl

audio_and_motor : (select_subdevices 0xfd two_open).enabled_subdevices ≡ 5
unfolding select_subdevices
audio_and_motor = refl

open_device_appends_example :
    (res : ℤ) × (ctx' : Context) × (open_device 3 (some 8) (pos 0) (negsuc 0) two_open
      ≡ some (res, some 8, ctx'))
    × IsList ctx' (5 ∷ 3 ∷ 8 ∷ [])
open_device_appends_example =
    open_device_appends 3 8 0 (negsuc 0) two_open (5 ∷ 3 ∷ []) two_open-IsList
      (λ h. absurd (omega arith), (λ h. absurd (omega arith), tt)) (omega arith)

close_device_removes_example :
    (res : ℤ) × (ctx' : Context) × (close_device 3 3 (pos 0) two_open ≡ some (res, ctx'))
    × IsList ctx' (5 ∷ [])
    × (res ≡ pos 0)
close_device_removes_example =
    close_device_removes 3 3 0 two_open (5 ∷ 3 ∷ []) two_open-IsList (omega arith)
