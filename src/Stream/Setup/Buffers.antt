-- ===== src/Stream/Setup/Buffers.antt =====
-- The life of a stream's buffers: who owns them, and that a stopped stream leaves memory as it was.
use soqv.Base.{
  ℕ, ◌+◌, ◌≤◌, ◌≡◌, ◌≢◌, refl, Bool, true, false, not, Option, none, some, List, arith, ◌==◌,
  if◌then◌else◌, sym,
}
use mathlib.Core.Path.{subst, subst₂}
use soqv.Memory.{Ptr, Heap, update, malloc, free, tabulate}
use soqv.Stream.Packet.{Stream}
use soqv.Stream.Setup.{is_null, stream_init, stream_freebufs, stream_setbuf}

-- No block lies at or above the next address.
abbrev pub IsFresh : Heap → Type 0
IsFresh h = (a : ℕ) → h.next ≤ a → h.block a ≡ none

-- Between `stream_init` and the stop a buffer for the frame is always set, and a stream without a
-- raw buffer of its own collects its packets there.
pub record Serves (s : Stream) : Type 0 where
  pub has_proc : s.proc_buf ≢ none
  pub same_buf : s.split_bufs ≡ false → s.raw_buf ≡ s.proc_buf

-- `stream_init` sets the buffers; setting another one keeps them set, whether or not it is refused.
pub stream_init-Serves :
    (rlen plen : ℕ) (s : Stream) (h : Heap) → Serves (stream_init rlen plen s h).0
unfolding stream_init malloc
stream_init-Serves rlen plen s h = ground arith

pub stream_setbuf-Serves :
    (p : Ptr) (s : Stream) → s.running ≡ true → Serves s → Serves (stream_setbuf p s).1
unfolding stream_setbuf
stream_setbuf-Serves p s run v = ground (arith, v)

abbrev release : Ptr → (ℕ → Option (List ℕ)) → ℕ → Option (List ℕ)
release none f = f
release (some a) f = update f a none

abbrev raw_part : Stream → Ptr
raw_part s = if s.split_bufs then s.raw_buf else none

abbrev Live : (ℕ → Option (List ℕ)) → Ptr → Type 0
Live f none = Unit
Live f (some a) = (bytes : List ℕ) × (f a ≡ some bytes)

-- The blocks at `r` and `l` are two at most, and with both released the heap is as `h₀`.
pub record Owns (h₀ : Heap) (r l : Ptr) (f : ℕ → Option (List ℕ)) : Type 0 where
  pub raw_live : Live f r
  pub lib_live : Live (release r f) l
  pub restored : (b : ℕ) → release l (release r f) b ≡ h₀.block b

-- What a stream owns: the library's frame buffer, and a raw buffer of its own.
abbrev pub StreamOwns : Heap → Stream → Heap → Type 0
StreamOwns h₀ s h = Owns h₀ (raw_part s) s.lib_buf h.block

free-Live :
    (p : Ptr) (h : Heap)
    → Live h.block p
    → (h' : Heap) × (free p h ≡ some h') × (h'.block ≡ release p h.block)
unfolding free
free-Live none h v = (h, refl, refl)
free-Live (some a) h (bytes, e) =
    (record h { block = update h.block a none }, ground (arith, e), refl)

free-raw_part :
    (b : Bool) (p : Ptr) (h : Heap)
    → (if b then free p h else some h) ≡ free (if b then p else none) h
unfolding free
free-raw_part true p h = refl
free-raw_part false p h = refl

pub stream_freebufs-Owns :
    {h₀ : Heap} (s : Stream) (h : Heap)
    → StreamOwns h₀ s h
    → (s' : Stream) × (h' : Heap) × (stream_freebufs s h ≡ some (s', h'))
      × ((b : ℕ) → h'.block b ≡ h₀.block b)
      × (s'.raw_buf ≡ none)
      × (s'.proc_buf ≡ none)
      × (s'.lib_buf ≡ none)
unfolding stream_freebufs
stream_freebufs-Owns s h v =
    let (h₁, e₁, b₁) = free-Live (raw_part s) h v.raw_live in
    let (h₂, e₂, b₂) = free-Live s.lib_buf h₁ (rw b₁ v.lib_live) in
    (
      record s { raw_buf = none; proc_buf = none; lib_buf = none },
      h₂,
      ground (arith, free-raw_part s.split_bufs s.raw_buf h, e₁, e₂),
      (λ b. rw (b₂, b₁) (v.restored b)),
      refl,
      refl,
      refl,
    )

stream_setbuf-raw_part : (p : Ptr) (s : Stream) → raw_part (stream_setbuf p s).1 ≡ raw_part s
unfolding stream_setbuf
stream_setbuf-raw_part p s = ground arith

stream_setbuf-lib_buf : (p : Ptr) (s : Stream) → (stream_setbuf p s).1.lib_buf ≡ s.lib_buf
unfolding stream_setbuf
stream_setbuf-lib_buf p s = ground arith

pub stream_setbuf-Owns :
    {h₀ : Heap} (p : Ptr) (s : Stream) (h : Heap)
    → StreamOwns h₀ s h
    → StreamOwns h₀ (stream_setbuf p s).1 h
stream_setbuf-Owns {h₀} p s h v =
    subst₂ (λ r l. Owns h₀ r l h.block) (sym (stream_setbuf-raw_part p s))
      (sym (stream_setbuf-lib_buf p s)) v

-- What `stream_init` leaves, by the two choices that it makes.
init_owned : Bool → Bool → ℕ → ℕ → Heap → Ptr × Ptr × Heap
init_owned user whole rlen plen h =
    let h₁ = if user then h else (malloc plen h).1 in
    (
      (if whole then none else some h₁.next),
      (if user then none else some h.next),
      (if whole then h₁ else (malloc rlen h₁).1),
    )

init_owned-Owns :
    (user whole : Bool) (rlen plen : ℕ) (h : Heap)
    → IsFresh h
    → let (r, l, h') = init_owned user whole rlen plen h in Owns h r l h'.block
unfolding init_owned malloc
init_owned-Owns true true rlen plen h fresh = record {
  raw_live = tt;
  lib_live = tt;
  restored = λ b. refl;
}
init_owned-Owns true false rlen plen h fresh = record {
  raw_live = (tabulate rlen (h.garbage h.next), ground arith);
  lib_live = tt;
  restored = λ b. ground (arith, fresh b);
}
init_owned-Owns false true rlen plen h fresh = record {
  raw_live = tt;
  lib_live = (tabulate plen (h.garbage h.next), ground arith);
  restored = λ b. ground (arith, fresh b);
}
init_owned-Owns false false rlen plen h fresh = record {
  raw_live = (tabulate rlen (h.garbage (h.next + 1)), ground arith);
  lib_live = (tabulate plen (h.garbage h.next), ground arith);
  restored = λ b. ground (arith, fresh b);
}

stream_init-owned :
    (rlen plen : ℕ) (s : Stream) (h : Heap)
    → let (s', h') = stream_init rlen plen s h in
      (raw_part s', s'.lib_buf, h') ≡ init_owned (not (is_null s.usr_buf)) (rlen == 0) rlen plen h
unfolding stream_init init_owned malloc
stream_init-owned rlen plen s h = ground arith

pub stream_init-Owns :
    (rlen plen : ℕ) (s : Stream) (h : Heap)
    → IsFresh h
    → let (s', h') = stream_init rlen plen s h in StreamOwns h s' h'
stream_init-Owns rlen plen s h fresh =
    subst (λ (t : Ptr × Ptr × Heap). Owns h t.0 t.1 t.2.block)
      (sym (stream_init-owned rlen plen s h))
      (init_owned-Owns (not (is_null s.usr_buf)) (rlen == 0) rlen plen h fresh)
