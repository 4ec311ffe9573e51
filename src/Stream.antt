-- ===== src/Stream.antt =====
-- The packet streams of src/cameras.c: `packet_stream` and the functions that work on it alone.
pub mod Packet
pub mod Process
pub mod Setup
mod Tests
