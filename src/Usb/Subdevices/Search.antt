-- ===== src/Usb/Subdevices/Search.antt =====
-- The look for the audio device that comes back with its firmware keeps the handles of the device.
use soqv.Base.{
  ℕ, zero, suc, inl, inr, Bool, true, false, Option, none, some, List, [], ◌∷◌, Bool-cases,
}
use soqv.Base.Int.{ℤ, pos, negsuc}
use soqv.Usb.{UsbDevice, is_audio, holds}
use soqv.Usb.Subdevices.{Subdevices, ticked}
use soqv.Usb.Subdevices.Calls.{
  Host, Libusb, claiming, interfaces, Opened, failed, handle, libusb_open, libusb_close, ask, tick,
}
use soqv.Usb.Subdevices.Firmware.{
  same_serial, enough_interfaces, closed_again, with_interfaces, match_claimed, with_serial,
  candidate, look_at, is_null_handle, look_through, Looked,
}
use soqv.Usb.Subdevices.Handles.{
  DeviceHeld, Held, Held-Extends, Held-no_audio, Extends-trans, Extends-Closed, IsNew,
  libusb_open-IsNew, Held-audio, libusb_close-Closed,
}
use soqv.Usb.Subdevices.Outcome.{Extends-tick}

abbrev pub IsFine : Looked → Type 0
IsFine none = ⊥
IsFine (some dev) = DeviceHeld dev

-- A handle `k` is open besides those of the device, which were open at `old`.
module _ (old : Host) (k : ℕ) where
  IsNew-tick : (host : Host) → IsNew old (handle k, host) → IsNew old (handle k, tick host)
  IsNew-tick host (x, o, small, fresh) = (Extends-trans x (Extends-tick host), o, small, fresh)

  abbrev HeldBefore : Subdevices → Type 0
  HeldBefore dev = Held dev.cam dev.motor dev.audio old

  closed_again-Fine :
      (dev : Subdevices) (host : Host)
      → HeldBefore dev
      → IsNew old (handle k, host)
      → IsFine (closed_again dev (libusb_close k host))
  closed_again-Fine dev host v (x, o, small, fresh) =
      let (host', e, c) = libusb_close-Closed k host o in
      rw e (Held-Extends (Extends-Closed k x fresh c) v)

  module _ (lib : Libusb) (expected : List ℕ) where
    with_interfaces-Fine :
        (count : ℤ) (dev : Subdevices)
        → HeldBefore dev
        → IsNew old (handle k, dev.host)
        → IsFine (with_interfaces lib expected k count dev)
    with_interfaces-Fine count dev v x = elim (Bool-cases (enough_interfaces count)) [
      | inl enough ↦ rw enough (Held-audio k old dev.host v x)
      | inr few ↦
          rw few (closed_again-Fine (record dev { audio = none }) dev.host (Held-no_audio v) x)
    ]

    match_claimed-Fine :
        (res : ℤ) (dev : Subdevices)
        → HeldBefore dev
        → IsNew old (handle k, dev.host)
        → IsFine (match_claimed lib expected k res dev)
    match_claimed-Fine (pos zero) dev v x =
        with_interfaces-Fine (ask lib interfaces dev.host) (ticked dev) v (IsNew-tick dev.host x)
    match_claimed-Fine (pos (suc n)) dev v x = closed_again-Fine dev dev.host v x
    match_claimed-Fine (negsuc e) dev v x = closed_again-Fine dev dev.host v x

    with_serial-Fine :
        (o : Option (List ℕ)) (dev : Subdevices)
        → HeldBefore dev
        → IsNew old (handle k, dev.host)
        → IsFine (with_serial lib expected k o dev)
    with_serial-Fine none dev v x = closed_again-Fine dev dev.host v x
    with_serial-Fine (some string_desc) dev v x =
        elim (Bool-cases (same_serial string_desc expected)) [
          | inl same ↦ rw same (
              match_claimed-Fine (ask lib claiming dev.host) (ticked dev) v (IsNew-tick dev.host x))
          | inr other ↦ rw other (Held-Extends x.0 v)
        ]

module _ (lib : Libusb) (expected : List ℕ) where
  candidate-Fine :
      (dev : Subdevices) (opened : Opened × Host)
      → DeviceHeld dev
      → IsNew dev.host opened
      → IsFine (candidate lib expected dev opened)
  candidate-Fine dev (failed e, host) v x = Held-Extends x v
  candidate-Fine dev (handle k, host) v x =
      with_serial-Fine dev.host k lib expected (lib.serial host.time)
        (record dev { host = tick host }) v (IsNew-tick dev.host k host x)

  look_at-Fine :
      (d : UsbDevice) (dev : Subdevices) → DeviceHeld dev → IsFine (look_at lib expected d dev)
  look_at-Fine d dev v = elim (Bool-cases (holds is_audio d.desc)) [
    | inl audio ↦
        rw audio (candidate-Fine dev (libusb_open lib dev.host) v (libusb_open-IsNew lib dev.host))
    | inr other ↦ rw other v
  ]

  pub look_through-Fine :
      (devs : List UsbDevice) (dev : Subdevices)
      → DeviceHeld dev
      → IsFine (look_through lib expected devs dev)
  unfolding look_through
  look_through-Fine [] dev v = v
  look_through-Fine (d ∷ devs) dev v =
      one (look_at lib expected d dev) (look_at-Fine d dev v) (look_through-Fine devs)
    where
      one :
          (o : Looked)
          → IsFine o
          → ((dev' : Subdevices) → DeviceHeld dev' → IsFine (look_through lib expected devs dev'))
          → IsFine (elim o [
            | none ↦ none
            | some dev' ↦ elim (is_null_handle dev'.audio) [
              | true ↦ look_through lib expected devs dev'
              | false ↦ some dev'
            ]
          ])
      one none bad rest = bad
      one (some dev') w rest =
          elim (is_null_handle dev'.audio)
            as (λ (b : Bool).
              IsFine (elim b [ true ↦ look_through lib expected devs dev' | false ↦ some dev' ])) [
                | true ↦ rest dev' w
                | false ↦ w
              ]
