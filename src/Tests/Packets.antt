-- ===== src/Tests/Packets.antt =====
-- par2: the parsers and the names at concrete inputs.
use par2engine.Base.{
  ℕ, ◌≤◌, ◌%◌, ◌≡◌, ◌↔◌, refl, arith, List, [], ◌∷◌, ◌++◌, length, replicate, ltb, true, ok,
}
use par2engine.Par2.Bytes.{le_value, chunks}
use par2engine.Par2.FileId.{file_id_less, is_sorted}
use par2engine.Par2.FileId.Order.{IsAscending, AllIds, file_id_less-eq-ltb, is_sorted_iff}
use par2engine.Par2.Names.{
  defang_path, clean, join, clean_elements, split, clean_element, eq_bytes, has_prefix,
}
use par2engine.Tests.Bytes.{all_bytes-IsBytes}
use par2engine.Par2.Names.Defang.{IsSafeName, defang_path-safe}
use par2engine.Par2.Packet.{
  MainPacket, parse_main_packet, IfscPacket, parse_ifsc_packet, RecoveryPacket,
  parse_recovery_packet,
}
use par2engine.Par2.Packet.Main.{
  print_main_packet, IsMainPacket, parse-print_main_packet, print-parse_main_packet,
}
use par2engine.Par2.Packet.Ifsc.{
  print_ifsc_packet, IsIfscPacket, parse-print_ifsc_packet, print-parse_ifsc_packet,
}
use par2engine.Par2.Packet.Recovery.{
  print_recovery_packet, parse-print_recovery_packet, print-parse_recovery_packet,
}

abbrev low_id : List ℕ
low_id = replicate 16 1

abbrev high_id : List ℕ
high_id = replicate 16 2

abbrev ids : List (List ℕ)
ids = low_id ∷ high_id ∷ []

file_id_less-eq-ltb_example : file_id_less low_id high_id ≡ ltb (le_value low_id) (le_value high_id)
file_id_less-eq-ltb_example =
    file_id_less-eq-ltb low_id high_id (all_bytes-IsBytes low_id refl)
      (all_bytes-IsBytes high_id refl) refl

ids-AllIds : AllIds ids
ids-AllIds = (all_bytes-IsBytes low_id refl, refl, (all_bytes-IsBytes high_id refl, refl, tt))

is_sorted_iff_example : (is_sorted ids ≡ true) ↔ IsAscending ids
is_sorted_iff_example = is_sorted_iff ids ids-AllIds

-- A main packet of two files, of which one is to be recovered.
abbrev main : MainPacket
main = record { slice_byte_count = 8; recovery_set = low_id ∷ []; non_recovery_set = high_id ∷ [] }

main-IsMainPacket : IsMainPacket main
unfolding is_sorted
main-IsMainPacket = record {
  positive = omega arith;
  aligned = refl;
  fits_int = omega arith;
  few = omega arith;
  ids = (refl, (refl, tt));
  sorted = refl;
}

parse-print_main_packet_example : parse_main_packet (print_main_packet main) ≡ ok main
parse-print_main_packet_example = parse-print_main_packet main main-IsMainPacket

-- Its bytes.
abbrev main_body : List ℕ
main_body = (8 ∷ replicate 7 0) ++ ((1 ∷ 0 ∷ 0 ∷ 0 ∷ []) ++ (low_id ++ high_id))

main_parsed : parse_main_packet main_body ≡ ok main
unfolding parse_main_packet le_value chunks is_sorted
main_parsed = refl

print-parse_main_packet_example : (print_main_packet main ≡ main_body) × IsMainPacket main
print-parse_main_packet_example =
    print-parse_main_packet main_body main (all_bytes-IsBytes main_body refl) (omega arith)
      main_parsed

-- A file of one slice.
abbrev checksums : IfscPacket
checksums = record {
  file_id = low_id;
  checksum_pairs = record { md5 = high_id; crc32 = replicate 4 9 } ∷ [];
}

checksums-IsIfscPacket : IsIfscPacket checksums
checksums-IsIfscPacket = record {
  id_size = refl;
  some_pair = omega arith;
  pairs = (refl, refl, tt);
}

parse-print_ifsc_packet_example : parse_ifsc_packet (print_ifsc_packet checksums) ≡ ok checksums
parse-print_ifsc_packet_example = parse-print_ifsc_packet checksums checksums-IsIfscPacket

print-parse_ifsc_packet_example :
    (print_ifsc_packet checksums ≡ print_ifsc_packet checksums) × IsIfscPacket checksums
print-parse_ifsc_packet_example =
    print-parse_ifsc_packet (print_ifsc_packet checksums) checksums parse-print_ifsc_packet_example

abbrev recovery : RecoveryPacket
recovery = record { exponent = 3; parity = replicate 8 77 }

parse-print_recovery_packet_example :
    parse_recovery_packet (print_recovery_packet recovery) ≡ ok recovery
parse-print_recovery_packet_example = parse-print_recovery_packet recovery (omega arith) refl

abbrev recovery_body : List ℕ
recovery_body = 3 ∷ 0 ∷ 0 ∷ 0 ∷ replicate 8 77

recovery_parsed : parse_recovery_packet recovery_body ≡ ok recovery
unfolding parse_recovery_packet le_value
recovery_parsed = refl

print-parse_recovery_packet_example :
    (print_recovery_packet recovery ≡ recovery_body)
    × (recovery.exponent ≤ 32767)
    × (length recovery.parity % 4 ≡ 0)
print-parse_recovery_packet_example =
    print-parse_recovery_packet recovery_body recovery (all_bytes-IsBytes recovery_body refl)
      recovery_parsed

-- `a\..\b/./c` is cleaned to `b/c`.
abbrev messy : List ℕ
messy = 97 ∷ 92 ∷ 46 ∷ 46 ∷ 92 ∷ 98 ∷ 47 ∷ 46 ∷ 47 ∷ 99 ∷ []

messy_cleaned : defang_path messy ≡ ok (98 ∷ 47 ∷ 99 ∷ [])
unfolding defang_path clean join clean_elements split clean_element eq_bytes has_prefix
messy_cleaned = refl

defang_path-safe_example : IsSafeName (98 ∷ 47 ∷ 99 ∷ [])
defang_path-safe_example = defang_path-safe messy (98 ∷ 47 ∷ 99 ∷ []) messy_cleaned
