-- ===== src/Audio/Incoming.antt =====
-- What a packet of samples leaves in the buffers, for `iso_in_callback`.
use soqv.Base.{
  ℕ, ◌+◌, ◌-◌, ◌≤◌, ◌≡◌, refl, ap, ◌∙◌, inl, inr, true, Option, none, some, List, ◌∷◌, arith, leb,
  ◌==◌, if◌then◌else◌, length, length-drop, length-set, get_elem?, get_elem?-set_self, set,
  Bool-cases,
}
use soqv.Memory.{Heap}
use soqv.Audio.Storage.{
  HasBuffers, channel_samples, written, copy_to-written, written-samples, written-Blocks,
  store_channel-copy,
}
use soqv.Audio.Client.{IsTame, client_memory, client-block}
use soqv.Audio.{
  AudioIn, AudioDevice, called, block_magic, block_channel, block_window, block_samples,
  change_window, store_channel, window_call, iso_in_callback,
}

-- A packet of samples of the channel `ch`.
abbrev pub IsSamples : List ℕ → Type 0
IsSamples pkt =
    (length pkt ≡ 524)
    × (block_magic pkt ≡ 0x80000080)
    × (1 ≤ block_channel pkt)
    × (block_channel pkt ≤ 9)

-- Memory before the packet is stored: if its window is a new one, the client has been called.
abbrev pub seen_memory : ℕ → AudioDevice → Heap
seen_memory w dev = if w == dev.audio.in_window then dev.heap else client_memory dev.audio_in_cb dev

abbrev pub new_calls : Option (AudioIn → Heap) → AudioDevice → List AudioIn
new_calls none dev = dev.calls
new_calls (some cb) dev = window_call dev ∷ dev.calls

pub record Received (a : ℕ) (pkt : List ℕ) (dev dev' : AudioDevice) : Type 0 where
  pub buffers : HasBuffers a dev'
  pub samples :
      (c : ℕ)
      → 1 ≤ c
      → c ≤ 9
      → channel_samples a dev'.heap c ≡ (
          if c == block_channel pkt
          then some (block_samples pkt)
          else channel_samples a (seen_memory (block_window pkt) dev) c)
  pub window : dev'.audio.in_window ≡ block_window pkt
  pub seen : get_elem? dev'.audio.last_seen_window (block_channel pkt - 1) ≡ some (block_window pkt)
  pub calls : dev'.calls ≡ (
      if block_window pkt == dev.audio.in_window then dev.calls else new_calls dev.audio_in_cb dev)

-- The device once the window of a packet has been looked at.
record Looked (a w : ℕ) (dev dev' : AudioDevice) : Type 0 where
  buffers : HasBuffers a dev'
  memory : dev'.heap ≡ seen_memory w dev
  window : dev'.audio.in_window ≡ w
  calls :
      dev'.calls ≡ (if w == dev.audio.in_window then dev.calls else new_calls dev.audio_in_cb dev)

called-HasBuffers :
    (a : ℕ) (cb : Option (AudioIn → Heap)) (dev : AudioDevice)
    → IsTame cb
    → HasBuffers a dev
    → HasBuffers a (called cb dev)
called-HasBuffers a none dev t v = v
called-HasBuffers a (some cb) dev t v = record {
  cancelled = v.cancelled;
  mics = v.mics;
  seen = v.seen;
  blocks = λ i small.
      let (xs, stored, size) = v.blocks i small in
      let (ys, stored', size') = client-block (some cb) dev (a + i) xs t stored in
      (ys, stored', size' ∙ size);
}

called_lem :
    (cb : Option (AudioIn → Heap)) (dev : AudioDevice)
    → ((called cb dev).heap ≡ client_memory cb dev) × ((called cb dev).calls ≡ new_calls cb dev)
called_lem none dev = (refl, refl)
called_lem (some cb) dev = (refl, refl)

change_window-Looked :
    (a w : ℕ) (dev : AudioDevice)
    → IsTame dev.audio_in_cb
    → HasBuffers a dev
    → Looked a w dev (change_window w dev)
change_window-Looked a w dev t v = elim (Bool-cases (w == dev.audio.in_window)) [
  | inl same ↦
      rw same
        (record { buffers = v; memory = rw same refl; window = ground arith; calls = rw same refl })
  | inr other ↦
      let b = called-HasBuffers a dev.audio_in_cb dev t v in
      let (memory, calls) = called_lem dev.audio_in_cb dev in
      rw other (record {
        buffers = record {
          cancelled = b.cancelled;
          mics = b.mics;
          seen = b.seen;
          blocks = b.blocks;
        };
        memory = rw other memory;
        window = refl;
        calls = rw other calls;
      })
]

-- On a device whose buffers are five blocks, one after the other, of 512 bytes for the cancelled
-- samples and 1024 for each microphone, with ten windows seen, and whose client's callback, if one is set, changes nothing in
-- memory but the contents of what it is given: a packet of 524 bytes with the right magic, for a channel
-- from 1 to 9, is stored within bounds, and the buffers stay as laid out. The samples of its channel are
-- then those of the packet, those of the other channels are as they were or as the client has left
-- them, its window is the current one and the last one seen of its channel; and if the window
-- changes, the client is called once, with memory as it was before the packet and a count of 256.
pub iso_in_callback-Received :
    (a : ℕ) (pkt : List ℕ) (dev : AudioDevice)
    → HasBuffers a dev
    → IsTame dev.audio_in_cb
    → IsSamples pkt
    → (dev' : AudioDevice) × (iso_in_callback pkt dev ≡ some dev') × Received a pkt dev dev'
unfolding iso_in_callback
iso_in_callback-Received a pkt dev v tame (len, magic, lo, hi) =
    let ch = block_channel pkt in
    let w = block_window pkt in
    let d = change_window w dev in
    let looked = change_window-Looked a w dev tame v in
    let b = looked.buffers in
    let n : length (block_samples pkt) ≡ 512 = omega (arith, length-drop 12 pkt) in
    let h = written a ch (block_samples pkt) n lo hi d.heap b.blocks in
    let stored : store_channel ch (block_samples pkt) d ≡ some h =
      store_channel-copy a ch (block_samples pkt) d lo hi b
      ∙ copy_to-written a ch (block_samples pkt) n lo hi d.heap b.blocks in
    let l : leb 1 ch ≡ true = ground arith in
    let u : leb ch (length d.audio.last_seen_window) ≡ true = ground (arith, b.seen) in
    let e : (length pkt == 524) ≡ true = ground arith in
    let m : (block_magic pkt == 0x80000080) ≡ true = ground arith in
    (
      record d {
        heap = h;
        audio = record d.audio { last_seen_window = set d.audio.last_seen_window (ch - 1) w };
      },
      rw (e, m, stored, l, u) refl,
      record {
        buffers = record {
          cancelled = b.cancelled;
          mics = b.mics;
          seen = length-set d.audio.last_seen_window (ch - 1) w ∙ b.seen;
          blocks = written-Blocks a ch (block_samples pkt) n lo hi d.heap b.blocks;
        };
        samples = λ c p q.
            written-samples a ch (block_samples pkt) n lo hi d.heap b.blocks c p q
            ∙ ap (λ (t : Heap). if c == ch then some (block_samples pkt) else channel_samples a t c)
                looked.memory;
        window = looked.window;
        seen = get_elem?-set_self d.audio.last_seen_window (ch - 1) w (omega (arith, b.seen));
        calls = looked.calls;
      },
    )
