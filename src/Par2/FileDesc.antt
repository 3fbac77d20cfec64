-- ===== src/Par2/FileDesc.antt =====
-- par2/packet.go: the packet header, and the packet that describes a file. MD5 is a parameter, from
-- the bytes that are written to it to their hash.
pub mod Laws
use par2engine.Base.{
  ℕ, ◌%◌, ltb, ◌==◌, not, ◌||◌, List, [], ◌∷◌, ◌++◌, length, take, drop, Option, none, some, Result,
  ok, err, ◌>>=◌, refuse, if◌then◌else◌, ◌>>◌,
}
use par2engine.Par2.Bytes.{le_value, le_bytes}
use par2engine.Par2.Names.{null_terminate, decode_name, defang_path, eq_bytes, PathError}
use par2engine.Par2.Packet.{
  PacketError, end_of_file, unexpected_eof, invalid_magic, invalid_packet_length,
  description_too_short, id_mismatch, unsafe_path, count_exceeds_memory, max_int,
}

-- `Header`; the field `Type` is `packet_type` here.
pub record Header : Type 0 where
  pub magic : List ℕ
  pub packet_length : ℕ
  pub hash : List ℕ
  pub recovery_set_id : List ℕ
  pub packet_type : List ℕ

-- `expectedMagic`
abbrev pub expected_magic : List ℕ
expected_magic = 80 ∷ 65 ∷ 82 ∷ 50 ∷ 0 ∷ 80 ∷ 75 ∷ 84 ∷ []

abbrev pub read_fields : List ℕ → Header
read_fields bs = record {
  magic = take 8 bs;
  packet_length = le_value (take 8 (drop 8 bs));
  hash = take 16 (drop 16 bs);
  recovery_set_id = take 16 (drop 32 bs);
  packet_type = take 16 (drop 48 bs);
}

-- `ReadHeader`, from what is left of a file; it consumes 64 bytes. The end of the file before the
-- first byte is told apart from the end within a header.
unfoldable pub read_header : List ℕ → Result PacketError Header
read_header bs = do
  refuse (length bs == 0) end_of_file
  refuse (ltb (length bs) 64) unexpected_eof
  let h = read_fields bs
  refuse (not (eq_bytes h.magic expected_magic)) invalid_magic
  refuse (ltb h.packet_length 64 || not (h.packet_length % 4 == 0)) invalid_packet_length
  ok h

-- `FileDescPacket`
pub record FileDescPacket : Type 0 where
  pub file_id : List ℕ
  pub hash : List ℕ
  pub sixteen_k_hash : List ℕ
  pub byte_count : ℕ
  pub filename : List ℕ

-- The error of `DefangPath` is passed on.
abbrev pub or_unsafe : Result PathError (List ℕ) → Result PacketError (List ℕ)
or_unsafe (ok name) = ok name
or_unsafe (err e) = err unsafe_path

-- The rest of `ParseFileDescPacket`, for a file that has bytes.
unfoldable pub named_packet :
    List ℕ → List ℕ → List ℕ → ℕ → List ℕ → Result PacketError FileDescPacket
named_packet id hash hash16k count name_bytes = do
  defanged ← or_unsafe (defang_path (decode_name name_bytes))
  refuse (ltb max_int count) count_exceeds_memory
  ok (record {
    file_id = id;
    hash = hash;
    sixteen_k_hash = hash16k;
    byte_count = count;
    filename = defanged;
  })

module _ (md5 : List ℕ → List ℕ) where
  -- `ComputePacketHash`
  unfoldable pub compute_packet_hash : List ℕ → List ℕ → List ℕ → List ℕ
  compute_packet_hash set_id packet_type body = md5 (set_id ++ (packet_type ++ body))

  -- `computeFileID`
  unfoldable pub compute_file_id : List ℕ → ℕ → List ℕ → List ℕ
  compute_file_id sixteen_k_hash byte_count filename_bytes =
      md5 (sixteen_k_hash ++ (le_bytes 8 byte_count ++ filename_bytes))

  -- `ParseFileDescPacket`; a file of no bytes is neither an error nor a packet.
  unfoldable pub parse_file_desc_packet : List ℕ → Result PacketError (Option FileDescPacket)
  parse_file_desc_packet body = do
    refuse (ltb (length body) 56) description_too_short
    let id = take 16 body
    let hash16k = take 16 (drop 32 body)
    let count = le_value (take 8 (drop 48 body))
    let name_bytes = drop 56 body
    refuse (not (eq_bytes (compute_file_id hash16k count (null_terminate name_bytes)) id))
        id_mismatch
    if count == 0
        then ok none
        else named_packet id (take 16 (drop 16 body)) hash16k count name_bytes >>= λ p. ok (some p)
