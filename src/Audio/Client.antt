-- ===== src/Audio/Client.antt =====
-- What is asked of a client's `audio_in_cb`, which is not part of the library: it may read and write the
-- buffers that it is given, and makes no other change to memory. It does not call the library.
use soqv.Base.{
  ℕ, ◌≡◌, ◌∙◌, refl, Bool, false, ◌||◌, Option, none, some, List, [], ◌∷◌, length, ◌==◌, arith,
}
use soqv.Memory.{Ptr, Heap}
use soqv.Audio.{AudioIn, AudioDevice, window_call}

abbrev pub points_to : ℕ → Ptr → Bool
points_to b none = false
points_to b (some a) = a == b

abbrev pub any_points : ℕ → List Ptr → Bool
any_points b [] = false
any_points b (p ∷ ps) = points_to b p || any_points b ps

-- The block at `b` is one of those that a call hands over.
abbrev pub is_handed : AudioIn → ℕ → Bool
is_handed call b = points_to b call.cancelled || points_to b call.unknown || any_points b call.mic

abbrev pub SameSize : Option (List ℕ) → Option (List ℕ) → Type 0
SameSize none none = Unit
SameSize none (some ys) = ⊥
SameSize (some xs) none = ⊥
SameSize (some xs) (some ys) = length ys ≡ length xs

-- Every block keeps its size, and its contents unless it was handed over.
abbrev pub IsTame : Option (AudioIn → Heap) → Type 0
IsTame none = Unit
IsTame (some cb) =
    ((call : AudioIn) (b : ℕ) → SameSize (call.memory.block b) ((cb call).block b))
    × ((call : AudioIn) (b : ℕ)
        → is_handed call b ≡ false
        → (cb call).block b ≡ call.memory.block b)

-- Memory once the client has been called.
abbrev pub client_memory : Option (AudioIn → Heap) → AudioDevice → Heap
client_memory none dev = dev.heap
client_memory (some cb) dev = cb (window_call dev)

pub same_block :
    (o p : Option (List ℕ)) (xs : List ℕ)
    → SameSize o p
    → o ≡ some xs
    → (ys : List ℕ) × (p ≡ some ys) × (length ys ≡ length xs)
same_block none none xs s e = absurd (ground (arith, e))
same_block none (some ys) xs s e = absurd s
same_block (some zs) none xs s e = absurd s
same_block (some zs) (some ys) xs s e =
    let f : length zs ≡ length xs = ground (arith, e) in (ys, refl, s ∙ f)

pub client-block :
    (cb : Option (AudioIn → Heap)) (dev : AudioDevice) (b : ℕ) (xs : List ℕ)
    → IsTame cb
    → dev.heap.block b ≡ some xs
    → (ys : List ℕ) × ((client_memory cb dev).block b ≡ some ys) × (length ys ≡ length xs)
client-block none dev b xs t e = (xs, e, refl)
client-block (some cb) dev b xs (keeps, only) e =
    same_block (dev.heap.block b) ((cb (window_call dev)).block b) xs (keeps (window_call dev) b) e

pub client-other :
    (cb : Option (AudioIn → Heap)) (dev : AudioDevice) (b : ℕ)
    → IsTame cb
    → is_handed (window_call dev) b ≡ false
    → (client_memory cb dev).block b ≡ dev.heap.block b
client-other none dev b t h = refl
client-other (some cb) dev b (keeps, only) h = only (window_call dev) b h
