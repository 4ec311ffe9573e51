-- ===== src/Sync.antt =====
-- The ring of three buffers of wrappers/c_sync/libfreenect_sync.c between the camera's thread and a
-- client's: the middle one is handed over, one is written, one is read.
pub mod Buffers
pub mod Handover
mod Tests
use soqv.Base.{ℕ, Bool, true, false, Option, none, some, ◌==◌, leb, if◌then◌else◌}
use soqv.Base.Int.{ℤ, pos, negsuc}
use soqv.Memory.{Ptr, Heap, free, malloc}
use soqv.Modes.{FrameMode, find_video_mode, find_depth_mode, video_ir_10bit_packed, depth_mm}
use soqv.Stream.Packet.{Stream}

pub record BufferRing : Type 0 where
  pub buf0 : Ptr
  pub buf1 : Ptr
  pub buf2 : Ptr
  pub timestamp : ℕ
  pub valid : Bool
  pub fmt : ℤ
  pub res : ℤ

abbrev pub same_ptr : Ptr → Ptr → Bool
same_ptr none none = true
same_ptr none (some b) = false
same_ptr (some a) none = false
same_ptr (some a) (some b) = a == b

-- `freenect_set_video_buffer` or `freenect_set_depth_buffer`; its result is not looked at.
abbrev pub SetBuffer : Type 0
SetBuffer = Ptr → Stream → ℤ × Stream

-- `none` is the failed assertion; the lock is held throughout.
unfoldable pub producer_cb_inner :
    SetBuffer → Ptr → ℕ → BufferRing → Stream → Option (BufferRing × Stream)
producer_cb_inner set_buffer frame timestamp buf s =
    let temp_buf = buf.buf1 in
    if same_ptr frame buf.buf2
    then some (
      record buf { buf1 = buf.buf2; buf2 = temp_buf; timestamp = timestamp; valid = true },
      (set_buffer temp_buf s).1,
    )
    else none

-- `none` is the wait for a frame.
unfoldable pub sync_get : BufferRing → Option (Ptr × ℕ × BufferRing)
sync_get buf =
    if buf.valid
    then some
        (buf.buf1, buf.timestamp, record buf { buf0 = buf.buf1; buf1 = buf.buf0; valid = false })
    else none

-- Three new buffers of `sz` bytes.
unfoldable pub alloc_bufs : ℕ → ℤ → ℤ → Heap → BufferRing × Heap
alloc_bufs sz fmt res h =
    let (a₀, h₀) = malloc sz h in
    let (a₁, h₁) = malloc sz h₀ in
    let (a₂, h₂) = malloc sz h₁ in
    (
      record {
        buf0 = some a₀;
        buf1 = some a₁;
        buf2 = some a₂;
        timestamp = 0;
        valid = false;
        fmt = fmt;
        res = res;
      },
      h₂,
    )

-- The result -1 leaves the ring as it is; `junk` is what a mode that is not found holds.
unfoldable pub alloc_buffer_ring_video :
    FrameMode → ℕ → ℕ → BufferRing → Heap → ℤ × BufferRing × Heap
alloc_buffer_ring_video junk res fmt buf h =
    let (ring, h') = alloc_bufs (find_video_mode junk res fmt).bytes (pos fmt) (pos res) h in
    if leb fmt video_ir_10bit_packed then (pos 0, ring, h') else (negsuc 0, buf, h)

unfoldable pub alloc_buffer_ring_depth :
    FrameMode → ℕ → ℕ → BufferRing → Heap → ℤ × BufferRing × Heap
alloc_buffer_ring_depth junk res fmt buf h =
    let (ring, h') = alloc_bufs (find_depth_mode junk res fmt).bytes (pos fmt) (pos res) h in
    if leb fmt depth_mm then (pos 0, ring, h') else (negsuc 0, buf, h)

-- `none` is a `free` of what is no block.
unfoldable pub free_buffer_ring : BufferRing → Heap → Option (BufferRing × Heap)
free_buffer_ring buf h = elim (free buf.buf0 h) [
  | none ↦ none
  | some h₀ ↦ elim (free buf.buf1 h₀) [
    | none ↦ none
    | some h₁ ↦ elim (free buf.buf2 h₁) [
      | none ↦ none
      | some h₂ ↦ some (
        record {
          buf0 = none;
          buf1 = none;
          buf2 = none;
          timestamp = 0;
          valid = false;
          fmt = negsuc 0;
          res = negsuc 0;
        },
        h₂,
      )
    ]
  ]
]
