-- ===== src/Memory.antt =====
-- The C heap that the stream buffers live in: blocks of bytes at addresses. A NULL pointer is
-- `none`. A read, a write or a `free` outside of an allocated block is undefined in C: `none`.
pub mod Defs
pub mod Laws
pub use Defs.{Ptr, Heap}
unfoldable pub use Defs.{update, tabulate, malloc, free, splice, copy_to}
pub use Laws.*
