-- ===== src/Usb/Subdevices/Handles.antt =====
-- The handles of a device are open and different, at each step of opening its subdevices.
use soqv.Base.{
  ℕ, ◌≤◌, ◌<◌, ◌≡◌, ◌≢◌, refl, ap, sym, Bool, true, false, Option, none, some, arith, ◌==◌,
  if◌then◌else◌,
}
use soqv.Base.Int.{ℤ, pos, negsuc}
use soqv.Usb.Subdevices.{
  Subdevices, Stage, next, failure, stuck, close_handle, close_camera, close_motor, close_audio,
}
use soqv.Usb.Subdevices.Calls.{
  opening, Host, Libusb, Opened, failed, handle, opened_with, libusb_open, libusb_close, ask,
}

-- A handle of the device is open.
abbrev pub IsOpenAt : Option ℕ → Host → Type 0
IsOpenAt none host = Unit
IsOpenAt (some k) host = (host.is_open k ≡ true) × (k < host.next_handle)

abbrev pub Apart : ℕ → Option ℕ → Type 0
Apart k none = Unit
Apart k (some j) = k ≢ j

abbrev pub ApartBoth : Option ℕ → Option ℕ → Type 0
ApartBoth none q = Unit
ApartBoth (some k) q = Apart k q

pub record Held (cam motor audio : Option ℕ) (host : Host) : Type 0 where
  pub cam_open : IsOpenAt cam host
  pub motor_open : IsOpenAt motor host
  pub audio_open : IsOpenAt audio host
  pub cam_motor : ApartBoth cam motor
  pub cam_audio : ApartBoth cam audio
  pub motor_audio : ApartBoth motor audio

abbrev pub DeviceHeld : Subdevices → Type 0
DeviceHeld dev = Held dev.cam dev.motor dev.audio dev.host

abbrev Keep : Option ℕ → Host → Host → Type 0
Keep o host host' = IsOpenAt o host → IsOpenAt o host'

Held-map :
    {cam motor audio : Option ℕ} {host host' : Host}
    → Keep cam host host'
    → Keep motor host host'
    → Keep audio host host'
    → Held cam motor audio host
    → Held cam motor audio host'
Held-map c m a v = record {
  cam_open = c v.cam_open;
  motor_open = m v.motor_open;
  audio_open = a v.audio_open;
  cam_motor = v.cam_motor;
  cam_audio = v.cam_audio;
  motor_audio = v.motor_audio;
}

-- What opens nothing and closes nothing that is held.
pub record Extends (host host' : Host) : Type 0 where
  pub stays : (k : ℕ) → k < host.next_handle → host.is_open k ≡ true → host'.is_open k ≡ true
  pub grows : (k : ℕ) → k < host.next_handle → k < host'.next_handle

pub Extends-refl : (host : Host) → Extends host host
Extends-refl host = record { stays = λ k small o. o; grows = λ k small. small }

pub Extends-trans : {a b c : Host} → Extends a b → Extends b c → Extends a c
Extends-trans x y = record {
  stays = λ k small o. y.stays k (x.grows k small) (x.stays k small o);
  grows = λ k small. y.grows k (x.grows k small);
}

Keep-Extends : {host host' : Host} (o : Option ℕ) → Extends host host' → Keep o host host'
Keep-Extends none x u = tt
Keep-Extends (some k) x (o, small) = (x.stays k small o, x.grows k small)

pub Held-Extends :
    {cam motor audio : Option ℕ} {host host' : Host}
    → Extends host host'
    → Held cam motor audio host
    → Held cam motor audio host'
Held-Extends {cam} {motor} {audio} x v =
    Held-map (Keep-Extends cam x) (Keep-Extends motor x) (Keep-Extends audio x) v

-- A handle that is opened was not in use.
abbrev pub IsNew : Host → Opened × Host → Type 0
IsNew host (failed e, host') = Extends host host'
IsNew host (handle k, host') =
    Extends host host' × (host'.is_open k ≡ true) × (k < host'.next_handle) × (host.next_handle ≤ k)

opened_with-IsNew : (res : ℤ) (host : Host) → IsNew host (opened_with res host)
opened_with-IsNew (negsuc e) host = record { stays = λ k small o. o; grows = λ k small. small }
opened_with-IsNew (pos n) host = (
  record { stays = λ k small o. ground (arith, o); grows = λ k small. omega arith },
  ground arith,
  omega arith,
  omega arith,
)

pub libusb_open-IsNew : (lib : Libusb) (host : Host) → IsNew host (libusb_open lib host)
unfolding libusb_open
libusb_open-IsNew lib host = opened_with-IsNew (ask lib opening host) host

Apart-new :
    (k : ℕ) (o : Option ℕ) (host : Host) → IsOpenAt o host → host.next_handle ≤ k → Apart k o
Apart-new k none host u new = tt
Apart-new k (some j) host (o, small) new = λ same. omega (arith, same)

ApartBoth-new :
    (k : ℕ) (o : Option ℕ) (host : Host)
    → IsOpenAt o host
    → host.next_handle ≤ k
    → ApartBoth o (some k)
ApartBoth-new k none host u new = tt
ApartBoth-new k (some j) host (o, small) new = λ same. omega (arith, same)

-- A new handle is put in its field.
module _ {cam motor audio : Option ℕ} (k : ℕ) (host host' : Host) (v : Held cam motor audio host)
    (new : IsNew host (handle k, host')) where
  kept : Held cam motor audio host'
  kept = Held-Extends new.0 v

  pub Held-cam : Held (some k) motor audio host'
  unfolding kept
  Held-cam = record {
    cam_open = (new.1, new.2);
    motor_open = kept.motor_open;
    audio_open = kept.audio_open;
    cam_motor = Apart-new k motor host v.motor_open new.3;
    cam_audio = Apart-new k audio host v.audio_open new.3;
    motor_audio = v.motor_audio;
  }

  pub Held-motor : Held cam (some k) audio host'
  unfolding kept
  Held-motor = record {
    cam_open = kept.cam_open;
    motor_open = (new.1, new.2);
    audio_open = kept.audio_open;
    cam_motor = ApartBoth-new k cam host v.cam_open new.3;
    cam_audio = v.cam_audio;
    motor_audio = Apart-new k audio host v.audio_open new.3;
  }

  pub Held-audio : Held cam motor (some k) host'
  unfolding kept
  Held-audio = record {
    cam_open = kept.cam_open;
    motor_open = kept.motor_open;
    audio_open = (new.1, new.2);
    cam_motor = v.cam_motor;
    cam_audio = ApartBoth-new k cam host v.cam_open new.3;
    motor_audio = ApartBoth-new k motor host v.motor_open new.3;
  }

-- Closing a handle that is open leaves the others open.
pub record Closed (k : ℕ) (host host' : Host) : Type 0 where
  pub others : (j : ℕ) → k ≢ j → host.is_open j ≡ true → host'.is_open j ≡ true
  pub same_next : host'.next_handle ≡ host.next_handle

pub libusb_close-Closed :
    (k : ℕ) (host : Host)
    → host.is_open k ≡ true
    → (host' : Host) × (libusb_close k host ≡ some host') × Closed k host host'
unfolding libusb_close
libusb_close-Closed k host e = (
  record host { is_open = λ j. if k == j then false else host.is_open j },
  ap
      (λ (b : Bool).
        if b
        then some (record host { is_open = λ j. if k == j then false else host.is_open j })
        else none)
      e,
  record { others = λ j ne o. ground (arith, o); same_next = refl },
)

-- A handle that is opened for a while and closed again.
pub Extends-Closed :
    {a b c : Host} (k : ℕ) → Extends a b → a.next_handle ≤ k → Closed k b c → Extends a c
Extends-Closed k x new v = record {
  stays = λ j small o. v.others j (λ same. omega (arith, same)) (x.stays j small o);
  grows = λ j small. let g = x.grows j small in omega (arith, v.same_next, g);
}

Keep-Closed :
    {host host' : Host} (k : ℕ) (o : Option ℕ) → Closed k host host' → Apart k o → Keep o host host'
Keep-Closed k none v apart u = tt
Keep-Closed k (some j) v apart (o, small) = (v.others j apart o, omega (arith, v.same_next))

-- Closing what a field of the device holds, and clearing the field.
abbrev pub IsGood : Stage → Type 0
IsGood (next (pos n) dev) = DeviceHeld dev
IsGood (next (negsuc e) dev) = ⊥
IsGood (failure res dev) = DeviceHeld dev
IsGood stuck = ⊥

-- A field that is cleared.
close_none :
    (o : Option ℕ) (host : Host)
    → IsOpenAt o host
    → (host' : Host) × (close_handle o host ≡ some host')
      × ((p : Option ℕ) → ApartBoth o p → Keep p host host')
close_none none host u = (host, refl, λ p a v. v)
close_none (some k) host (o, small) =
    let (host', e, v) = libusb_close-Closed k host o in
    (host', e, λ p apart. Keep-Closed k p v apart)

ApartBoth-sym : (o p : Option ℕ) → ApartBoth o p → ApartBoth p o
ApartBoth-sym none none a = tt
ApartBoth-sym none (some j) a = tt
ApartBoth-sym (some k) none a = tt
ApartBoth-sym (some k) (some j) a = λ e. a (sym e)

ApartBoth-none : (o : Option ℕ) → ApartBoth o none
ApartBoth-none none = tt
ApartBoth-none (some k) = tt

-- A field that does not hold its handle any more.
pub Held-no_cam :
    {cam motor audio : Option ℕ} {host : Host}
    → Held cam motor audio host
    → Held none motor audio host
Held-no_cam v = record {
  cam_open = tt;
  motor_open = v.motor_open;
  audio_open = v.audio_open;
  cam_motor = tt;
  cam_audio = tt;
  motor_audio = v.motor_audio;
}

pub Held-no_motor :
    {cam motor audio : Option ℕ} {host : Host}
    → Held cam motor audio host
    → Held cam none audio host
Held-no_motor {cam} v = record {
  cam_open = v.cam_open;
  motor_open = tt;
  audio_open = v.audio_open;
  cam_motor = ApartBoth-none cam;
  cam_audio = v.cam_audio;
  motor_audio = tt;
}

pub Held-no_audio :
    {cam motor audio : Option ℕ} {host : Host}
    → Held cam motor audio host
    → Held cam motor none host
Held-no_audio {cam} {motor} v = record {
  cam_open = v.cam_open;
  motor_open = v.motor_open;
  audio_open = tt;
  cam_motor = v.cam_motor;
  cam_audio = ApartBoth-none cam;
  motor_audio = ApartBoth-none motor;
}

module _ {ℓ} (P : Stage → Type ℓ) where
  -- What holds of every way on from a cleared field holds of the closing.
  pub close_camera-then :
      (k : Subdevices → Stage) (dev : Subdevices)
      → DeviceHeld dev
      → ((host : Host)
          → Held none dev.motor dev.audio host
          → P (k (record dev { cam = none; host = host })))
      → P (close_camera k dev)
  close_camera-then k dev v go =
      let (host, e, keep) = close_none dev.cam dev.host v.cam_open in
      rw e (
        go host (record {
          cam_open = tt;
          motor_open = keep dev.motor v.cam_motor v.motor_open;
          audio_open = keep dev.audio v.cam_audio v.audio_open;
          cam_motor = tt;
          cam_audio = tt;
          motor_audio = v.motor_audio;
        }))

  pub close_motor-then :
      (k : Subdevices → Stage) (dev : Subdevices)
      → DeviceHeld dev
      → ((host : Host)
          → Held dev.cam none dev.audio host
          → P (k (record dev { motor = none; host = host })))
      → P (close_motor k dev)
  close_motor-then k dev v go =
      let (host, e, keep) = close_none dev.motor dev.host v.motor_open in
      rw e (
        go host (record {
          cam_open = keep dev.cam (ApartBoth-sym dev.cam dev.motor v.cam_motor) v.cam_open;
          motor_open = tt;
          audio_open = keep dev.audio v.motor_audio v.audio_open;
          cam_motor = ApartBoth-none dev.cam;
          cam_audio = v.cam_audio;
          motor_audio = tt;
        }))

  pub close_audio-then :
      (k : Subdevices → Stage) (dev : Subdevices)
      → DeviceHeld dev
      → ((host : Host)
          → Held dev.cam dev.motor none host
          → P (k (record dev { audio = none; host = host })))
      → P (close_audio k dev)
  close_audio-then k dev v go =
      let (host, e, keep) = close_none dev.audio dev.host v.audio_open in
      rw e (
        go host (record {
          cam_open = keep dev.cam (ApartBoth-sym dev.cam dev.audio v.cam_audio) v.cam_open;
          motor_open =
              keep dev.motor (ApartBoth-sym dev.motor dev.audio v.motor_audio) v.motor_open;
          audio_open = tt;
          cam_motor = v.cam_motor;
          cam_audio = ApartBoth-none dev.cam;
          motor_audio = ApartBoth-none dev.motor;
        }))
