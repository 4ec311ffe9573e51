-- ===== src/Stream/Setup/Lifecycle.antt =====
-- A stream from `stream_init` to `stream_freebufs`.
use soqv.Base.{
  ℕ, ◌<◌, ◌≡◌, refl, Bool, true, false, none, some, List, [], ◌∷◌, arith, ◌==◌, if◌then◌else◌, sym,
}
use mathlib.Core.Path.{subst}
use soqv.Memory.{Ptr, Heap, malloc, tabulate, length-tabulate, Holds}
use soqv.Stream.Packet.{Stream}
use soqv.Stream.Setup.{is_null, stream_init, stream_freebufs, stream_setbuf, init_bufs}
use soqv.Stream.Setup.Layout.{init_packets-IsLayout}
use soqv.Stream.Setup.Buffers.{
  IsFresh, StreamOwns, stream_init-Owns, stream_setbuf-Owns, stream_freebufs-Owns,
}
use soqv.Stream.Process.Safety.{Ready}

-- The buffers that a client sets while the stream runs, in turn.
pub set_bufs : List Ptr → Stream → Stream
set_bufs [] s = s
set_bufs (p ∷ ps) s = set_bufs ps (stream_setbuf p s).1

set_bufs-Owns :
    {h₀ : Heap} (ps : List Ptr) (s : Stream) (h : Heap)
    → StreamOwns h₀ s h
    → StreamOwns h₀ (set_bufs ps s) h
unfolding set_bufs
set_bufs-Owns [] s h v = v
set_bufs-Owns (p ∷ ps) s h v = set_bufs-Owns ps (stream_setbuf p s).1 h (stream_setbuf-Owns p s h v)

-- Whatever buffers a client sets while the stream runs, stopping it frees no block twice and none
-- of the client's, leaves no block of the library's behind, and clears the pointers.
pub stream_bufs_released :
    (rlen plen : ℕ) (ps : List Ptr) (s : Stream) (h : Heap)
    → IsFresh h
    → let (s₁, h₁) = stream_init rlen plen s h in
      let s₂ = set_bufs ps (record s₁ { running = true }) in
      (s₃ : Stream) × (h₃ : Heap) × (stream_freebufs s₂ h₁ ≡ some (s₃, h₃))
      × ((b : ℕ) → h₃.block b ≡ h.block b)
      × (s₃.raw_buf ≡ none)
      × (s₃.proc_buf ≡ none)
      × (s₃.lib_buf ≡ none)
stream_bufs_released rlen plen ps s h fresh =
    let (s₁, h₁) = stream_init rlen plen s h in
    let s₂ = record s₁ { running = true } in
    stream_freebufs-Owns (set_bufs ps s₂) h₁
      (set_bufs-Owns ps s₂ h₁ (stream_init-Owns rlen plen s h fresh))

-- A buffer of the user's, if there is one, holds a processed frame.
abbrev pub UserBuf : Heap → Ptr → ℕ → Type 0
UserBuf h none n = Unit
UserBuf h (some a) n = Holds h (some a) n

new_block : (n : ℕ) (h : Heap) → Holds (malloc n h).1 (some h.next) n
unfolding malloc
new_block n h = record {
  addr = h.next;
  bytes = tabulate n (h.garbage h.next);
  points = refl;
  stored = ground arith;
  room = omega (arith, length-tabulate n (h.garbage h.next));
}

Holds-raw :
    (whole : Bool) (user : Ptr) (rlen plen : ℕ) (h : Heap)
    → UserBuf h user plen
    → let h₁ = if is_null user then (malloc plen h).1 else h in
      let proc = if is_null user then some h.next else user in
      Holds
        (if whole then h₁ else (malloc rlen h₁).1)
        (if whole then proc else some h₁.next)
        (if whole then plen else rlen)
Holds-raw true none rlen plen h u = new_block plen h
Holds-raw true (some a) rlen plen h u = u
Holds-raw false none rlen plen h u = new_block rlen (malloc plen h).1
Holds-raw false (some a) rlen plen h u = new_block rlen h

init_raw :
    (rlen plen : ℕ) (s : Stream) (h : Heap)
    → let (s', h') = stream_init rlen plen s h in
      let h₁ = if is_null s.usr_buf then (malloc plen h).1 else h in
      let proc = if is_null s.usr_buf then some h.next else s.usr_buf in
      ◌≡◌ {A = Heap × Ptr × ℕ}
        (h', s'.raw_buf, s'.frame_size)
        (
          (if rlen == 0 then h₁ else (malloc rlen h₁).1),
          (if rlen == 0 then proc else some h₁.next),
          (if rlen == 0 then plen else rlen),
        )
unfolding stream_init malloc
init_raw rlen plen s h = ground arith

-- `stream_init` makes a stream ready for `stream_process`: its raw buffer holds a frame, cut into
-- packets that cover it exactly, if packets and frames have at least one byte and a buffer that the
-- user has set holds a frame.
pub stream_init-Ready :
    (rlen plen : ℕ) (s : Stream) (h : Heap)
    → 0 < s.pkt_size
    → 0 < plen
    → UserBuf h s.usr_buf plen
    → let (s', h') = stream_init rlen plen s h in Ready s' h'
unfolding stream_init
stream_init-Ready rlen plen s h p f u = record {
  layout =
      init_packets-IsLayout (init_bufs rlen plen s h).0 (ground (arith, p)) (ground (arith, f));
  raw =
      subst (λ (t : Heap × Ptr × ℕ). Holds t.0 t.1 t.2) (sym (init_raw rlen plen s h))
        (Holds-raw (rlen == 0) s.usr_buf rlen plen h u);
}
