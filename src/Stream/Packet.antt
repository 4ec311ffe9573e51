-- ===== src/Stream/Packet.antt =====
-- `packet_stream` of src/freenect_internal.h, and `struct pkt_hdr` of src/cameras.c.
use soqv.Base.{ℕ, ◌+◌, ◌*◌, ◌^◌, Bool, List, get_or}
use soqv.Memory.{Ptr}

-- The counters are never negative; `seq` and `flag` are bytes, `lost_pkts` and the timestamps
-- 32-bit words. The `int` fields that the code uses as truth values are Booleans.
pub record Stream : Type 0 where
  pub running : Bool
  pub flag : ℕ
  pub synced : Bool
  pub seq : ℕ
  pub got_pkts : ℕ
  pub pkt_num : ℕ
  pub pkts_per_frame : ℕ
  pub pkt_size : ℕ
  pub frame_size : ℕ
  pub last_pkt_size : ℕ
  pub valid_pkts : ℕ
  pub lost_pkts : ℕ
  pub valid_frames : ℕ
  pub variable_length : Bool
  pub last_timestamp : ℕ
  pub timestamp : ℕ
  pub split_bufs : Bool
  pub lib_buf : Ptr
  pub usr_buf : Ptr
  pub raw_buf : Ptr
  pub proc_buf : Ptr

-- The fields of a header that the code reads.
pub record PktHdr : Type 0 where
  pub magic0 : ℕ
  pub magic1 : ℕ
  pub flag : ℕ
  pub seq : ℕ
  pub timestamp : ℕ

abbrev pub byte_at : List ℕ → ℕ → ℕ
byte_at pkt i = get_or pkt i 0

-- A header is 12 bytes; the host is little-endian, so `fn_le32` changes nothing.
unfoldable pub pkt_hdr : List ℕ → PktHdr
pkt_hdr pkt = record {
  magic0 = byte_at pkt 0;
  magic1 = byte_at pkt 1;
  flag = byte_at pkt 3;
  seq = byte_at pkt 5;
  timestamp =
      byte_at pkt 8 + 2 ^ 8 * byte_at pkt 9 + 2 ^ 16 * byte_at pkt 10 + 2 ^ 24 * byte_at pkt 11;
}
