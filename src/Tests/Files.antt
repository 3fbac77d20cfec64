-- ===== src/Tests/Files.antt =====
-- par2: the packets of a file at concrete inputs. The MD5 here is the first 16 bytes of what is hashed.
use par2engine.Base.{
  ℕ, ◌+◌, ◌≡◌, refl, arith, List, [], ◌∷◌, ◌++◌, take, drop, replicate, some, ok, none, true,
}
use par2engine.Par2.Bytes.{le_value, le_bytes}
use par2engine.Par2.Names.{
  defang_path, decode_name, null_terminate, clean, join, clean_elements, split, clean_element,
  eq_bytes, has_prefix,
}
use par2engine.Par2.Names.Defang.{defang_path-safe}
use par2engine.Par2.Packet.{parse_recovery_packet}
use par2engine.Par2.FileDesc.{
  FileDescPacket, parse_file_desc_packet, named_packet, compute_file_id, compute_packet_hash,
  read_header, expected_magic,
}
use par2engine.Par2.FileDesc.Laws.{
  print_file_desc_packet, IsFileDescPacket, parse-print_file_desc_packet,
  print-parse_file_desc_packet,
}
use par2engine.Par2.Decoder.{
  Decoder, handle_packet, stream_packets, stream_loop, load_single_volume_file,
  recovery_packet_type, handle_recovery, has_exponent, add_shard, read_round, after_header,
  take_body, take_packet, after_handle, go_on,
}
use par2engine.Par2.Decoder.Stream.{stream_loop_enough}
use par2engine.Par2.Decoder.Valid.{IsDecoder, stream_packets-IsDecoder}
use par2engine.Par2.Decoder.Volume.{Extends, load_single_volume_file-Extends}
use par2engine.Par2.FileId.{is_sorted}
use par2engine.Par2.Index.{load_index_file, after_read}
use par2engine.Par2.Index.Sorted.{ids, load_index_file-is_sorted}
use par2engine.Tests.Bytes.{all_bytes-IsBytes}

abbrev md5 : List ℕ → List ℕ
md5 bs = take 16 bs

-- A file `b/c` of nine bytes, described with the name `a\..\b/./c`.
abbrev described : FileDescPacket
described = record {
  file_id = replicate 16 5;
  hash = replicate 16 6;
  sixteen_k_hash = replicate 16 5;
  byte_count = 9;
  filename = 98 ∷ 47 ∷ 99 ∷ [];
}

abbrev raw_name : List ℕ
raw_name = 97 ∷ 92 ∷ 46 ∷ 46 ∷ 92 ∷ 98 ∷ 47 ∷ 46 ∷ 47 ∷ 99 ∷ 0 ∷ 0 ∷ []

raw_name_defanged : defang_path (decode_name raw_name) ≡ ok described.filename
unfolding defang_path clean join clean_elements split clean_element eq_bytes has_prefix decode_name
    null_terminate
raw_name_defanged = refl

described-IsFileDescPacket : IsFileDescPacket described
described-IsFileDescPacket = record {
  positive = omega arith;
  fits_int = omega arith;
  id_size = refl;
  hash_size = refl;
  sixteen_k_size = refl;
  safe = defang_path-safe (decode_name raw_name) described.filename raw_name_defanged;
}

described_id :
    described.file_id
    ≡ md5 (described.sixteen_k_hash ++ (le_bytes 8 described.byte_count ++ null_terminate raw_name))
unfolding null_terminate le_bytes
described_id = refl

parse-print_file_desc_packet_example :
    parse_file_desc_packet md5 (print_file_desc_packet described raw_name) ≡ ok (some described)
parse-print_file_desc_packet_example =
    parse-print_file_desc_packet described described-IsFileDescPacket raw_name md5 described_id
      raw_name_defanged

abbrev body : List ℕ
body =
    replicate 16 5
    ++ (replicate 16 6 ++ (replicate 16 5 ++ ((9 ∷ 0 ∷ 0 ∷ 0 ∷ 0 ∷ 0 ∷ 0 ∷ 0 ∷ []) ++ raw_name)))

body_parsed : parse_file_desc_packet md5 body ≡ ok (some described)
unfolding parse_file_desc_packet named_packet compute_file_id le_value le_bytes defang_path clean
    join clean_elements split clean_element eq_bytes has_prefix decode_name null_terminate
body_parsed = refl

print-parse_file_desc_packet_example :
    (print_file_desc_packet described (drop 56 body) ≡ body)
    × (described.file_id
        ≡ md5 (
            described.sixteen_k_hash
            ++ (le_bytes 8 described.byte_count ++ null_terminate (drop 56 body))))
    × IsFileDescPacket described
print-parse_file_desc_packet_example =
    print-parse_file_desc_packet md5 body described (all_bytes-IsBytes body refl) body_parsed

-- A decoder before its first packet.
abbrev empty : Decoder
empty = record {
  max_file_size = 1000;
  max_packet_size = 100;
  slice_byte_count = 0;
  recovery_set_id = replicate 16 0;
  protected_files = [];
  file_checksums = [];
  parity_shards = [];
  parity_file_blocks = [];
}

empty-IsDecoder : IsDecoder empty
empty-IsDecoder = record {
  size_aligned = refl;
  size_fits = omega arith;
  files = tt;
  checksums = tt;
  shards = tt;
}

abbrev set_id : List ℕ
set_id = replicate 16 8

-- A recovery packet of exponent 3 with four bytes of data.
abbrev packet : List ℕ
packet =
    expected_magic
    ++ ((72 ∷ 0 ∷ 0 ∷ 0 ∷ 0 ∷ 0 ∷ 0 ∷ 0 ∷ [])
        ++ (set_id ++ (set_id ++ (recovery_packet_type ++ (3 ∷ 0 ∷ 0 ∷ 0 ∷ 1 ∷ 2 ∷ 3 ∷ 4 ∷ [])))))

abbrev file : List ℕ
file = packet ++ packet

abbrev name : List ℕ
name = 97 ∷ []

-- The shard is added once.
file_test :
    (stream_packets md5 (handle_packet md5 name) empty file).decoder.parity_shards
    ≡ record { exponent = 3; parity = 1 ∷ 2 ∷ 3 ∷ 4 ∷ [] } ∷ []
unfolding stream_packets stream_loop read_round after_header take_body take_packet after_handle
    go_on handle_packet handle_recovery has_exponent add_shard parse_recovery_packet read_header
    compute_packet_hash le_value eq_bytes
file_test = refl

stream_packets-IsDecoder_example :
    IsDecoder (stream_packets md5 (handle_packet md5 name) empty file).decoder
stream_packets-IsDecoder_example = stream_packets-IsDecoder md5 name empty file empty-IsDecoder

load_single_volume_file-Extends_example :
    Extends empty (load_single_volume_file md5 name empty file).decoder
    × IsDecoder (load_single_volume_file md5 name empty file).decoder
load_single_volume_file-Extends_example =
    load_single_volume_file-Extends md5 name empty file empty-IsDecoder

stream_loop_enough_example :
    stream_loop md5 (handle_packet md5 name) (145 + 7) empty file
    ≡ stream_loop md5 (handle_packet md5 name) 145 empty file
stream_loop_enough_example =
    stream_loop_enough md5 (handle_packet md5 name) 145 7 empty file (omega arith)

index_read : (load_index_file md5 name empty file).error ≡ none
unfolding load_index_file after_read stream_packets stream_loop read_round after_header take_body
    take_packet after_handle go_on handle_packet handle_recovery has_exponent add_shard
    parse_recovery_packet read_header compute_packet_hash le_value eq_bytes
index_read = refl

load_index_file-is_sorted_example :
    IsDecoder (load_index_file md5 name empty file).decoder
    × (is_sorted (ids (load_index_file md5 name empty file).decoder.protected_files) ≡ true)
load_index_file-is_sorted_example =
    load_index_file-is_sorted md5 name empty file empty-IsDecoder index_read
