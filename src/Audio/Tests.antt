-- ===== src/Audio/Tests.antt =====
-- Runs of the audio streams, from a device where they do not run.
use soqv.Base.{
  ℕ, zero, suc, ◌+◌, ◌<◌, ◌≡◌, refl, true, false, Option, none, some, List, [], ◌∷◌, ◌++◌, arith,
  replicate,
}
use soqv.Base.Int.{pos, negsuc}
use soqv.Memory.{malloc}
use soqv.Command.{le16}
use soqv.Audio.{AudioStream, AudioDevice, alloc_audio, start_audio, stop_audio, iso_in_callback}
use soqv.Audio.Client.{IsTame, SameSize}
use soqv.Audio.Outgoing.{Position, expected, send_all, header_at, send_all-expected}
use soqv.Audio.Storage.{HasBuffers, Blocks}
use soqv.Audio.Incoming.{Received, iso_in_callback-Received}
use soqv.Audio.Lifecycle.{receive_all, audio_released, failed_start_leaks}

abbrev idle_stream : AudioStream
idle_stream = record {
  running = false;
  audio_out_ring = none;
  ring_reader_idx = 0;
  ring_writer_idx = 0;
  out_window = 9;
  out_seq = 9;
  out_counter_within_window = 9;
  out_weird_timestamp = 9;
  out_window_parity = 9;
  in_window = 9;
  last_seen_window = [];
  in_counter = 9;
  mic_buffer = [];
  cancelled_buffer = none;
  in_unknown = none;
}

abbrev idle : AudioDevice
idle = record {
  audio = idle_stream;
  audio_in_cb = some (λ call. call.memory);
  audio_out_cb = false;
  heap = record { next = 40; block = λ a. none; garbage = λ a i. 7 };
  calls = [];
}

-- A packet of samples for channel 3 and window 0x12.
abbrev packet : List ℕ
packet = 0x80 ∷ 0 ∷ 0 ∷ 0x80 ∷ (le16 3 ++ (le16 524 ++ (le16 0x12 ++ (le16 0 ++ replicate 512 5))))

abbrev running : AudioDevice
running = (alloc_audio idle)

two_headers : header_at 43 ≡ 1 ∷ 0 ∷ 43 ∷ 0x75 ∷ []
two_headers = refl

bad_channel :
    iso_in_callback
      (0x80 ∷ 0 ∷ 0 ∷ 0x80 ∷ (le16 11 ++ (le16 524 ++ (le16 0x12 ++ (le16 0 ++ replicate 512 5)))))
      running
    ≡ none
unfolding iso_in_callback alloc_audio malloc
bad_channel = refl

send_all-expected_example :
    (s : AudioStream) × (send_all false
        (replicate 76 1 ∷ replicate 76 2 ∷ [])
        (alloc_audio idle).audio
      ≡ some (expected false 0 (replicate 76 1 ∷ replicate 76 2 ∷ []), s))
    × Position 2 s
send_all-expected_example =
    send_all-expected false (replicate 76 1 ∷ replicate 76 2 ∷ []) idle (refl, (refl, tt))

-- The client reads what it is given.
reading-IsTame : IsTame idle.audio_in_cb
reading-IsTame = ((λ call b. same (call.memory.block b)), (λ call b h. refl))
  where
    same : (o : Option (List ℕ)) → SameSize o o
    same none = tt
    same (some xs) = refl

running-IsTame : IsTame (alloc_audio idle).audio_in_cb
unfolding alloc_audio
running-IsTame = reading-IsTame

running-HasBuffers : HasBuffers 41 (alloc_audio idle)
unfolding alloc_audio malloc
running-HasBuffers = record { cancelled = refl; mics = refl; seen = refl; blocks = five }
  where
    five : Blocks 41 (alloc_audio idle).heap
    five zero h = (replicate 512 0, refl, refl)
    five (suc zero) h = (replicate 1024 0, refl, refl)
    five (suc (suc zero)) h = (replicate 1024 0, refl, refl)
    five (suc (suc (suc zero))) h = (replicate 1024 0, refl, refl)
    five (suc (suc (suc (suc zero)))) h = (replicate 1024 0, refl, refl)
    five (suc (suc (suc (suc (suc i))))) h = absurd (omega arith)

iso_in_callback-Received_example :
    (dev' : AudioDevice) × (iso_in_callback packet (alloc_audio idle) ≡ some dev')
    × Received 41 packet (alloc_audio idle) dev'
iso_in_callback-Received_example =
    iso_in_callback-Received 41 packet (alloc_audio idle) running-HasBuffers running-IsTame
      (refl, refl, omega arith, omega arith)

abbrev started : AudioDevice
started = (start_audio (pos 0) (pos 0) idle).1

started-HasBuffers : HasBuffers 41 started
unfolding start_audio
started-HasBuffers = record {
  cancelled = running-HasBuffers.cancelled;
  mics = running-HasBuffers.mics;
  seen = running-HasBuffers.seen;
  blocks = running-HasBuffers.blocks;
}

started-IsTame : IsTame started.audio_in_cb
unfolding start_audio
started-IsTame = running-IsTame

-- The device once it has stored the packet.
stored :
    (dev : AudioDevice) × (iso_in_callback packet started ≡ some dev)
    × Received 41 packet started dev
stored =
    iso_in_callback-Received 41 packet started started-HasBuffers started-IsTame
      (refl, refl, omega arith, omega arith)

packet_received : receive_all (packet ∷ []) started ≡ some stored.0
unfolding receive_all
packet_received = rw (stored.1, receive_all) refl

audio_released_example :
    ((start_audio (pos 0) (pos 0) idle).0 ≡ pos 0)
    × ((start_audio (pos 0) (pos 0) idle).1.audio.running ≡ true)
    × (dev₃ : AudioDevice) × (stop_audio (pos 0) (pos 0) stored.0 ≡ some (pos 0, dev₃))
    × (dev₃.audio.running ≡ false)
    × ((b : ℕ) → dev₃.heap.block b ≡ none)
audio_released_example =
    audio_released 0 0 0 0 (packet ∷ []) idle stored.0 refl (λ a h. refl) reading-IsTame
      packet_received

failed_start_leaks_example :
    let (res, dev') = start_audio (pos 0) (negsuc 3) idle in
    (res ≡ negsuc 3)
    × (stop_audio (pos 0) (pos 0) dev' ≡ some (negsuc 0, dev'))
    × ((i : ℕ) → i < 7 → (bytes : List ℕ) × (dev'.heap.block (40 + i) ≡ some bytes))
failed_start_leaks_example = failed_start_leaks 0 3 (pos 0) (pos 0) idle refl
