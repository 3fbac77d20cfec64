-- ===== src/Par2/Packet.antt =====
-- par2/packet.go: the bodies of the four kinds of packets.
pub mod Main
pub mod Ifsc
pub mod Recovery
use par2engine.Base.{
  ℕ, ◌-◌, ◌/◌, ◌%◌, ◌^◌, ltb, ◌==◌, not, ◌||◌, List, map, length, take, drop, Result, ok, refuse,
  ◌>>=◌, ◌>>◌,
}
use par2engine.Par2.Bytes.{le_value, chunks}
use par2engine.Par2.FileId.{is_sorted}

-- The errors of the parsers.
pub data PacketError : Type 0 where
  end_of_file unexpected_eof invalid_magic invalid_packet_length : PacketError
  main_too_short invalid_slice_size invalid_id_list insufficient_ids not_sorted : PacketError
  description_too_short id_mismatch unsafe_path count_exceeds_memory : PacketError
  ifsc_too_short invalid_pair_array : PacketError
  invalid_recovery_alignment exponent_exceeds_limit : PacketError

-- The largest int on a 64-bit host.
abbrev pub max_int : ℕ
max_int = 2 ^ 63 - 1

-- `mainPacket`
pub record MainPacket : Type 0 where
  pub slice_byte_count : ℕ
  pub recovery_set : List (List ℕ)
  pub non_recovery_set : List (List ℕ)

-- `ParseMainPacket`. The length of the ID list is cast to a uint32 before it is compared. Where the
-- cast wraps, the list is longer than `set_count` still, so neither slice expression panics.
unfoldable pub parse_main_packet : List ℕ → Result PacketError MainPacket
parse_main_packet body = do
  refuse (ltb (length body) 12) main_too_short
  let slice_size = le_value (take 8 body)
  let set_count = le_value (take 4 (drop 8 body))
  refuse (slice_size == 0 || not (slice_size % 4 == 0) || ltb max_int slice_size) invalid_slice_size
  let buf = drop 12 body
  refuse (not (length buf % 16 == 0)) invalid_id_list
  let file_ids = chunks (length buf / 16) 16 buf
  refuse (ltb (length file_ids % 2 ^ 32) set_count) insufficient_ids
  refuse (not (is_sorted (take set_count file_ids))) not_sorted
  ok (record {
    slice_byte_count = slice_size;
    recovery_set = take set_count file_ids;
    non_recovery_set = drop set_count file_ids;
  })

-- `ChecksumPair`; the CRC32 is four bytes, as the packet has it.
pub record ChecksumPair : Type 0 where
  pub md5 : List ℕ
  pub crc32 : List ℕ

-- `IFSCPacket`
pub record IfscPacket : Type 0 where
  pub file_id : List ℕ
  pub checksum_pairs : List ChecksumPair

abbrev pub read_pair : List ℕ → ChecksumPair
read_pair bs = record { md5 = take 16 bs; crc32 = drop 16 bs }

-- `ParseIFSCPacket`
unfoldable pub parse_ifsc_packet : List ℕ → Result PacketError IfscPacket
parse_ifsc_packet body = do
  refuse (ltb (length body) 16) ifsc_too_short
  let buf = drop 16 body
  refuse (length buf == 0 || not (length buf % 20 == 0)) invalid_pair_array
  ok (record {
    file_id = take 16 body;
    checksum_pairs = map read_pair (chunks (length buf / 20) 20 buf);
  })

-- `recoveryPacket`
pub record RecoveryPacket : Type 0 where
  pub exponent : ℕ
  pub parity : List ℕ

-- `ParseRecoveryPacket`; the field `Data` is `parity` here.
unfoldable pub parse_recovery_packet : List ℕ → Result PacketError RecoveryPacket
parse_recovery_packet body = do
  refuse (ltb (length body) 4 || not (length body % 4 == 0)) invalid_recovery_alignment
  let exp = le_value (take 4 body)
  refuse (ltb 32767 exp) exponent_exceeds_limit
  ok (record { exponent = exp % 2 ^ 16; parity = drop 4 body })
