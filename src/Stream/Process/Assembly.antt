-- ===== src/Stream/Process/Assembly.antt =====
-- The assembly of a frame by repeated calls of `stream_process` of src/cameras.c.
pub mod Packets
pub mod Steps
pub mod Frame
