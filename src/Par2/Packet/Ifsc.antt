-- ===== src/Par2/Packet/Ifsc.antt =====
-- The IFSC packet: a file ID and the checksums of the file's slices.
use mathlib.Core.List.{flatten}
use par2engine.Base.{
  ℕ, ◌*◌, ◌/◌, ◌%◌, ◌≤◌, ◌<◌, ◌≡◌, refl, subst, ap, ap₂, ◌∙◌, arith, List, [], ◌∷◌, ◌++◌, map, take,
  drop, length, ltb, ◌==◌, false, not, ◌||◌, ok, length-append, length-take, take-append-drop,
  length-drop, length-map,
}
use par2engine.Par2.Bytes.{chunks}
use par2engine.Par2.Bytes.Laws.{
  take-append_length, drop-append_length, AllSized, chunks-flatten, length-flatten, flatten-chunks,
  length-chunks, chunks-AllSized,
}
use par2engine.Par2.Packet.{ChecksumPair, IfscPacket, read_pair, parse_ifsc_packet}

abbrev print_pair : ChecksumPair → List ℕ
print_pair c = c.md5 ++ c.crc32

-- The layout of the specification.
pub print_ifsc_packet : IfscPacket → List ℕ
print_ifsc_packet p = p.file_id ++ flatten (map print_pair p.checksum_pairs)

abbrev pub AllPairs : List ChecksumPair → Type 0
AllPairs [] = Unit
AllPairs (c ∷ cs) = (length c.md5 ≡ 16) × (length c.crc32 ≡ 4) × AllPairs cs

-- What the format can hold: arrays of their sizes, and one slice at least.
pub record IsIfscPacket (p : IfscPacket) : Type 0 where
  pub id_size : length p.file_id ≡ 16
  pub some_pair : 0 < length p.checksum_pairs
  pub pairs : AllPairs p.checksum_pairs

map_print-AllSized : (cs : List ChecksumPair) → AllPairs cs → AllSized 20 (map print_pair cs)
map_print-AllSized [] h = tt
map_print-AllSized (c ∷ cs) h =
    (omega (arith, length-append c.md5 c.crc32, h.0, h.1), map_print-AllSized cs h.2)

map_read-print : (cs : List ChecksumPair) → AllPairs cs → map read_pair (map print_pair cs) ≡ cs
map_read-print [] h = refl
map_read-print (c ∷ cs) h =
    ap₂ ◌∷◌
      (ap₂ (λ (x y : List ℕ). record { md5 = x; crc32 = y })
        (take-append_length 16 c.md5 c.crc32 h.0) (drop-append_length 16 c.md5 c.crc32 h.0))
      (map_read-print cs h.2)

map_print-read : (xs : List (List ℕ)) → map print_pair (map read_pair xs) ≡ xs
map_print-read [] = refl
map_print-read (x ∷ xs) = ap₂ ◌∷◌ (take-append-drop 16 x) (map_print-read xs)

map_read-AllPairs : (xs : List (List ℕ)) → AllSized 20 xs → AllPairs (map read_pair xs)
map_read-AllPairs [] h = tt
map_read-AllPairs (x ∷ xs) h = (
  omega (arith, length-take 16 x, h.0),
  omega (arith, length-drop 16 x, h.0),
  map_read-AllPairs xs h.1,
)

-- A printed packet of checksums parses back to itself, if it is one that the format can hold.
pub parse-print_ifsc_packet :
    (p : IfscPacket) → IsIfscPacket p → parse_ifsc_packet (print_ifsc_packet p) ≡ ok p
unfolding parse_ifsc_packet print_ifsc_packet
parse-print_ifsc_packet p valid = rw (first, rest, test_long, test_array, count, pairs)
  where
    items : List (List ℕ)
    items = map print_pair p.checksum_pairs

    sized : AllSized 20 items
    sized = map_print-AllSized p.checksum_pairs valid.pairs

    first : take 16 (p.file_id ++ flatten items) ≡ p.file_id
    first = take-append_length 16 p.file_id (flatten items) valid.id_size

    rest : drop 16 (p.file_id ++ flatten items) ≡ flatten items
    rest = drop-append_length 16 p.file_id (flatten items) valid.id_size

    size : length (flatten items) ≡ length p.checksum_pairs * 20
    size =
        length-flatten 20 items sized
        ∙ ap (λ (n : ℕ). n * 20) (length-map p.checksum_pairs print_pair)

    test_long : ltb (length (p.file_id ++ flatten items)) 16 ≡ false
    test_long = ground (arith, length-append p.file_id (flatten items), valid.id_size)

    test_array : (length (flatten items) == 0 || not (length (flatten items) % 20 == 0)) ≡ false
    test_array = ground (arith, size, valid.some_pair)

    count : length (flatten items) / 20 ≡ length p.checksum_pairs
    count = omega (arith, size)

    pairs : map read_pair (chunks (length p.checksum_pairs) 20 (flatten items)) ≡ p.checksum_pairs
    pairs =
        ap (map read_pair) (
          chunks-flatten (length p.checksum_pairs) 20 items sized
            (length-map p.checksum_pairs print_pair))
        ∙ map_read-print p.checksum_pairs valid.pairs

accepted :
    (body : List ℕ) (p : IfscPacket)
    → parse_ifsc_packet body ≡ ok p
    → (16 ≤ length body)
      × (0 < length (drop 16 body))
      × (length (drop 16 body) % 20 ≡ 0)
      × (record {
        file_id = take 16 body;
        checksum_pairs = map read_pair (chunks (length (drop 16 body) / 20) 20 (drop 16 body));
      }
          ≡ p)
unfolding parse_ifsc_packet
accepted body p run = ground arith

pub parse_ifsc_packet-IsIfscPacket :
    (body : List ℕ) (p : IfscPacket) → parse_ifsc_packet body ≡ ok p → IsIfscPacket p
parse_ifsc_packet-IsIfscPacket body p run =
    let (long, filled, whole, e) = accepted body p run in
    let n = length (drop 16 body) / 20 in
    let buf = drop 16 body in
    let exact : length buf ≡ n * 20 = omega (arith, whole) in
    subst IsIfscPacket e (record {
      id_size = omega (arith, length-take 16 body);
      some_pair =
          omega
            (arith, length-map {0, 0} (chunks n 20 buf) read_pair, length-chunks n 20 buf, exact);
      pairs = map_read-AllPairs (chunks n 20 buf) (chunks-AllSized n 20 buf exact);
    })

-- What `ParseIFSCPacket` accepts is what the layout writes for the packet that it returns, and the
-- packet is one that the format can hold.
pub print-parse_ifsc_packet :
    (body : List ℕ) (p : IfscPacket)
    → parse_ifsc_packet body ≡ ok p
    → (print_ifsc_packet p ≡ body) × IsIfscPacket p
unfolding print_ifsc_packet
print-parse_ifsc_packet body p run =
    let (long, filled, whole, e) = accepted body p run in
    let n = length (drop 16 body) / 20 in
    let buf = drop 16 body in
    let exact : length buf ≡ n * 20 = omega (arith, whole) in
    (
      subst (λ (q : IfscPacket). print_ifsc_packet q ≡ body) e
          (ap (λ (t : List ℕ). take 16 body ++ t)
              (ap flatten (map_print-read (chunks n 20 buf)) ∙ flatten-chunks n 20 buf exact)
            ∙ take-append-drop 16 body),
      parse_ifsc_packet-IsIfscPacket body p run,
    )
