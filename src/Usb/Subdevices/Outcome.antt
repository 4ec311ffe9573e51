-- ===== src/Usb/Subdevices/Outcome.antt =====
-- What opening the subdevices of a device ends with.
use soqv.Base.{
  ℕ, zero, suc, ◌≡◌, ap, inl, inr, Bool, Option, none, some, List, ◌==◌, if◌then◌else◌, Bool-cases,
}
use soqv.Base.Int.{ℤ, pos, negsuc}
use soqv.Usb.{Descriptor, UsbDevice, is_audio, is_motor, find_sibling_device}
use soqv.Usb.Subdevices.{
  Subdevices, next, failure, with_host, ticked, after_alt, after_claim, claim_interface,
  after_detach, after_active, claim_camera, led_reopened, led_opened, keep_alive_led, is_newer,
  newer_flags, identify, camera_opened, open_camera, motor_claimed, motor_opened, motor_described,
  motor_found, open_motor,
}
use soqv.Usb.Subdevices.Calls.{
  Host, Libusb, claiming, describing, kernel_driver, detaching, alt_setting, Opened, failed, handle,
  libusb_open, libusb_close, ask, tick,
}
use soqv.Usb.Subdevices.Handles.{
  DeviceHeld, Held-Extends, Extends, Extends-refl, Extends-trans, Extends-Closed, IsNew,
  libusb_open-IsNew, Held-cam, Held-motor, Held-no_cam, Held-no_motor, libusb_close-Closed, IsGood,
  close_camera-then, close_motor-then,
}

pub Extends-tick : (host : Host) → Extends host (tick host)
Extends-tick host = record { stays = λ k small o. o; grows = λ k small. small }

pub ticked-Held : (dev : Subdevices) → DeviceHeld dev → DeviceHeld (ticked dev)
ticked-Held dev v = Held-Extends (Extends-tick dev.host) v

module _ (lib : Libusb) where
  after_alt-Good : (res : ℤ) (dev : Subdevices) → DeviceHeld dev → IsGood (after_alt lib res dev)
  after_alt-Good (pos zero) dev v = v
  after_alt-Good (pos (suc n)) dev v =
      close_camera-then IsGood (next (pos (suc n))) dev v (λ host w. w)
  after_alt-Good (negsuc e) dev v =
      close_camera-then IsGood (failure (negsuc e)) dev v (λ host w. w)

  after_claim-Good :
      (res : ℤ) (dev : Subdevices) → DeviceHeld dev → IsGood (after_claim lib res dev)
  after_claim-Good (negsuc e) dev v =
      close_camera-then IsGood (failure (negsuc e)) dev v (λ host w. w)
  after_claim-Good (pos n) dev v = elim (Bool-cases (dev.cam_pid == 0x02bf)) [
    | inl k4w ↦
        rw k4w (after_alt-Good (ask lib alt_setting dev.host) (ticked dev) (ticked-Held dev v))
    | inr other ↦ rw other v
  ]

  claim_interface-Good : (dev : Subdevices) → DeviceHeld dev → IsGood (claim_interface lib dev)
  claim_interface-Good dev v =
      after_claim-Good (ask lib claiming dev.host) (ticked dev) (ticked-Held dev v)

  after_detach-Good :
      (res : ℤ) (dev : Subdevices) → DeviceHeld dev → IsGood (after_detach lib res dev)
  after_detach-Good (negsuc e) dev v =
      close_camera-then IsGood (failure (negsuc e)) dev v (λ host w. w)
  after_detach-Good (pos n) dev v = claim_interface-Good dev v

  after_active-Good :
      (res : ℤ) (dev : Subdevices) → DeviceHeld dev → IsGood (after_active lib res dev)
  after_active-Good (pos zero) dev v = claim_interface-Good dev v
  after_active-Good (pos (suc zero)) dev v =
      after_detach-Good (ask lib detaching dev.host) (ticked dev) (ticked-Held dev v)
  after_active-Good (pos (suc (suc n))) dev v = claim_interface-Good dev v
  after_active-Good (negsuc e) dev v = claim_interface-Good dev v

  claim_camera-Good : (dev : Subdevices) → DeviceHeld dev → IsGood (claim_camera lib dev)
  unfolding claim_camera
  claim_camera-Good dev v =
      after_active-Good (ask lib kernel_driver dev.host) (ticked dev) (ticked-Held dev v)

  -- Lighting the LED opens and closes a handle twice, and keeps all others.
  abbrev Lit : Host → Option Host → Type 0
  Lit host none = ⊥
  Lit host (some host') = Extends host host'

  Lit-closed :
      (host host' : Host) (k : ℕ)
      → IsNew host (handle k, host')
      → (host'' : Host) × (libusb_close k (tick host') ≡ some host'') × Extends host host''
  Lit-closed host host' k (x, o, small, new) =
      let (host'', e, v) = libusb_close-Closed k (tick host') o in
      (host'', e, Extends-Closed k (Extends-trans x (Extends-tick host')) new v)

  led_reopened-Lit :
      (host : Host) (opened : Opened × Host)
      → IsNew host opened
      → Lit host (led_reopened lib opened)
  led_reopened-Lit host (failed e, host') v = v
  led_reopened-Lit host (handle k, host') v =
      let (host'', e, x) = Lit-closed host host' k v in rw e x

  led_opened-Lit :
      (host : Host) (opened : Opened × Host) → IsNew host opened → Lit host (led_opened lib opened)
  led_opened-Lit host (failed e, host') v = v
  led_opened-Lit host (handle k, host') (x, o, small, new) =
      let (host'', e, v) = libusb_close-Closed k host' o in
      rw e (
        Lit-trans (Extends-Closed k x new v) (led_reopened lib (libusb_open lib host''))
          (led_reopened-Lit host'' (libusb_open lib host'') (libusb_open-IsNew lib host'')))
    where
      Lit-trans : {a b : Host} → Extends a b → (r : Option Host) → Lit b r → Lit a r
      Lit-trans p none q = q
      Lit-trans p (some c) q = Extends-trans p q

  keep_alive_led-Lit :
      (audio : Option UsbDevice) (host : Host) → Lit host (keep_alive_led lib audio host)
  unfolding keep_alive_led
  keep_alive_led-Lit none host = Extends-refl host
  keep_alive_led-Lit (some audio) host =
      led_opened-Lit host (libusb_open lib host) (libusb_open-IsNew lib host)

  identify-Good :
      (camera : UsbDevice) (desc : Descriptor) (devs : List UsbDevice) (dev : Subdevices)
      → DeviceHeld dev
      → IsGood (identify lib camera desc devs dev)
  identify-Good camera desc devs dev v = elim (Bool-cases (is_newer lib desc)) [
    | inr first_model ↦
        rw first_model
          (claim_camera-Good (record dev { zero_plane_res = 322; cam_pid = desc.id_product }) v)
    | inl newer ↦ rw newer (
        lit (keep_alive_led lib (find_sibling_device camera is_audio devs) dev.host)
          (keep_alive_led-Lit (find_sibling_device camera is_audio devs) dev.host))
  ]
    where
      lit :
          (o : Option Host)
          → Lit dev.host o
          → IsGood (
              with_host o (λ host.
                claim_camera lib
                  (record (newer_flags lib dev) { host = host; cam_pid = desc.id_product })))
      lit none x = x
      lit (some host) x =
          claim_camera-Good
            (record (newer_flags lib dev) { host = host; cam_pid = desc.id_product })
            (Held-Extends x v)

  pub open_camera-Good :
      (camera : UsbDevice) (desc : Descriptor) (devs : List UsbDevice) (dev : Subdevices)
      → DeviceHeld dev
      → IsGood (open_camera lib camera desc devs dev)
  unfolding open_camera
  open_camera-Good camera desc devs dev v = elim (Bool-cases dev.want_camera) [
    | inr unwanted ↦ rw (pick unwanted) v
    | inl wanted ↦ rw (pick wanted) (go (libusb_open lib dev.host) (libusb_open-IsNew lib dev.host))
  ]
    where
      pick :
          {b : Bool}
          → dev.want_camera ≡ b
          → (if dev.want_camera
              then camera_opened lib camera desc devs dev (libusb_open lib dev.host)
              else next (pos 0) dev)
            ≡ (if b
                then camera_opened lib camera desc devs dev (libusb_open lib dev.host)
                else next (pos 0) dev)
      pick e =
          ap
            (λ (c : Bool).
              if c
              then camera_opened lib camera desc devs dev (libusb_open lib dev.host)
              else next (pos 0) dev)
            e

      go :
          (opened : Opened × Host)
          → IsNew dev.host opened
          → IsGood (camera_opened lib camera desc devs dev opened)
      go (failed e, host) x = Held-no_cam (Held-Extends x v)
      go (handle k, host) x =
          identify-Good camera desc devs (record dev { cam = some k; host = host })
            (Held-cam k dev.host host v x)

  pub open_motor-Good :
      (camera : UsbDevice) (devs : List UsbDevice) (n : ℕ) (dev : Subdevices)
      → DeviceHeld dev
      → IsGood (open_motor lib camera devs (pos n) dev)
  unfolding open_motor
  open_motor-Good camera devs n dev v = elim (Bool-cases dev.want_motor) [
    | inr unwanted ↦ rw (pick unwanted) v
    | inl wanted ↦ rw (pick wanted) (go (find_sibling_device camera is_motor devs))
  ]
    where
      pick :
          {b : Bool}
          → dev.want_motor ≡ b
          → (if dev.want_motor
              then motor_found lib (find_sibling_device camera is_motor devs) dev
              else next (pos n) dev)
            ≡ (if b
                then motor_found lib (find_sibling_device camera is_motor devs) dev
                else next (pos n) dev)
      pick e =
          ap
            (λ (c : Bool).
              if c
              then motor_found lib (find_sibling_device camera is_motor devs) dev
              else next (pos n) dev)
            e

      claimed : (res : ℤ) (d : Subdevices) → DeviceHeld d → IsGood (motor_claimed lib res d)
      claimed (negsuc e) d w = close_motor-then IsGood (failure (negsuc e)) d w (λ host x. x)
      claimed (pos m) d w = w

      opened :
          (d : Subdevices)
          → DeviceHeld d
          → (o : Opened × Host) → IsNew d.host o
          → IsGood (motor_opened lib d o)
      opened d w (failed e, host) x = Held-no_motor (Held-Extends x w)
      opened d w (handle k, host) x =
          claimed (ask lib claiming host) (record d { motor = some k; host = tick host })
            (Held-Extends (Extends-tick host) (Held-motor k d.host host w x))

      described : (res : ℤ) (d : Subdevices) → DeviceHeld d → IsGood (motor_described lib res d)
      described (negsuc e) d w = w
      described (pos m) d w = opened d w (libusb_open lib d.host) (libusb_open-IsNew lib d.host)

      go : (o : Option UsbDevice) → IsGood (motor_found lib o dev)
      go none = v
      go (some d) = described (ask lib describing dev.host) (ticked dev) (ticked-Held dev v)
