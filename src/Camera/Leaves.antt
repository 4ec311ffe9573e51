-- ===== src/Camera/Leaves.antt =====
-- Calls on a device that return, one after the other.
use soqv.Base.{ℕ, ◌≡◌, ◌⊎◌, inl, inr, refl, ap, ◌∙◌, some, List, Bool-cases}
use soqv.Base.Int.{ℤ, pos, negsuc}
use soqv.Command.{Device}
use soqv.Camera.{Calibration, CameraDevice, Returned, fetched, is_count, or_fail, then_always}

-- Returns, with a result and a device that are as they should be.
abbrev pub Leaves : (ℤ → CameraDevice → Type 0) → Returned → Type 0
Leaves P m = (res : ℤ) × (d : CameraDevice) × (m ≡ some (res, d)) × P res d

-- Success or -1.
abbrev pub IsStatus : ℤ → Type 0
IsStatus res = (res ≡ pos 0) ⊎ (res ≡ negsuc 0)

-- The modes are as before.
pub record SameModes (d d' : CameraDevice) : Type 0 where
  pub video : d'.video ≡ d.video
  pub depth : d'.depth ≡ d.depth
  pub plane : d'.zero_plane_res ≡ d.zero_plane_res

pub SameModes-trans :
    {d₁ d₂ d₃ : CameraDevice} → SameModes d₁ d₂ → SameModes d₂ d₃ → SameModes d₁ d₃
SameModes-trans a b = record {
  video = b.video ∙ a.video;
  depth = b.depth ∙ a.depth;
  plane = b.plane ∙ a.plane;
}

pub or_fail-Leaves :
    {P Q : ℤ → CameraDevice → Type 0} (m : Returned) (k : CameraDevice → Returned)
    → Leaves P m
    → ((e : ℕ) (d : CameraDevice) → P (negsuc e) d → Q (negsuc e) d)
    → ((n : ℕ) (d : CameraDevice) → P (pos n) d → Leaves Q (k d))
    → Leaves Q (or_fail m k)
or_fail-Leaves m k (negsuc e, d, h, p) bad good = (negsuc e, d, ap (λ t. or_fail t k) h, bad e d p)
or_fail-Leaves m k (pos n, d, h, p) bad good =
    let (res, d', h', q) = good n d p in (res, d', ap (λ t. or_fail t k) h ∙ h', q)

pub then_always-Leaves :
    {P Q : ℤ → CameraDevice → Type 0} (m : Returned) (k : CameraDevice → Returned)
    → Leaves P m
    → ((res : ℤ) (d : CameraDevice) → P res d → Leaves Q (k d))
    → Leaves Q (then_always m k)
then_always-Leaves m k (res, d, h, p) good =
    let (res', d', h', q) = good res d p in (res', d', ap (λ t. then_always t k) h ∙ h', q)

pub fetched-Leaves :
    (n : ℕ) (keep : List ℕ → Calibration → Calibration) (d : CameraDevice)
    → (res : ℤ) (reply : List ℕ) (dev' : Device)
    → Leaves
        (λ res' d'. IsStatus res' × SameModes d d')
        (fetched n keep d (some (res, reply, dev')))
fetched-Leaves n keep d res reply dev' = elim (Bool-cases (is_count res n)) [
  | inl same ↦ (
    pos 0,
    record d { dev = dev'; calibration = keep reply d.calibration },
    rw same refl,
    (inl refl, record { video = refl; depth = refl; plane = refl }),
  )
  | inr other ↦ (
    negsuc 0,
    record d { dev = dev' },
    rw other refl,
    (inr refl, record { video = refl; depth = refl; plane = refl }),
  )
]
