-- ===== src/Par2/FileDesc/Laws.antt =====
-- What the packet that describes a file is accepted for.
use par2engine.Base.{
  ℕ, ◌%◌, ◌<◌, ◌≤◌, ltb, ◌==◌, List, ◌++◌, length, take, drop, some, ok, ◌≡◌, refl, sym, ap, ◌∙◌,
  arith, true, false,
}
use par2engine.Par2.Bytes.{le_value, le_bytes}
use par2engine.Par2.Names.{null_terminate, decode_name, defang_path, eq_bytes}
use par2engine.Par2.Packet.{max_int}
use par2engine.Par2.FileDesc.{
  read_header, Header, read_fields, compute_file_id, parse_file_desc_packet, FileDescPacket,
  named_packet,
}
use par2engine.Base.{
  length-take, length-drop, take-append-drop, drop-drop, subst, ap₂, length-append,
}
use par2engine.Par2.Bytes.{IsBytes}
use par2engine.Par2.Bytes.Laws.{
  length-le_bytes, le_value-le_bytes, le_bytes-le_value, IsBytes-take, IsBytes-drop,
  take-append_length, drop-append_length,
}
use par2engine.Par2.Names.Clean.{eq_bytes_iff}
use par2engine.Par2.Names.Defang.{IsSafeName, defang_path-safe}

pub accepted_header :
    (bs : List ℕ) (h : Header)
    → read_header bs ≡ ok h
    → (64 ≤ length bs) × (64 ≤ h.packet_length) × (h.packet_length % 4 ≡ 0) × (read_fields bs ≡ h)
unfolding read_header
accepted_header bs h run = ground arith

accepted_named :
    (id hash hash16k : List ℕ) (count : ℕ) (name_bytes : List ℕ) (p : FileDescPacket)
    → named_packet id hash hash16k count name_bytes ≡ ok p
    → (count ≤ max_int)
      × (defang_path (decode_name name_bytes) ≡ ok p.filename)
      × (p ≡ record {
        file_id = id;
        hash = hash;
        sixteen_k_hash = hash16k;
        byte_count = count;
        filename = p.filename;
      })
unfolding named_packet
accepted_named id hash hash16k count name_bytes p run = ground arith

accepted :
    (md5 : List ℕ → List ℕ) (body : List ℕ) (p : FileDescPacket)
    → parse_file_desc_packet md5 body ≡ ok (some p)
    → (56 ≤ length body)
      × (eq_bytes
            (compute_file_id md5
              (take 16 (drop 32 body))
              (le_value (take 8 (drop 48 body)))
              (null_terminate (drop 56 body)))
            (take 16 body)
          ≡ true)
      × (0 < le_value (take 8 (drop 48 body)))
      × (named_packet
            (take 16 body)
            (take 16 (drop 16 body))
            (take 16 (drop 32 body))
            (le_value (take 8 (drop 48 body)))
            (drop 56 body)
          ≡ ok p)
unfolding parse_file_desc_packet
accepted md5 body p run = ground arith

-- The layout of the specification, with the bytes of the name and of its padding.
pub print_file_desc_packet : FileDescPacket → List ℕ → List ℕ
print_file_desc_packet p name_bytes =
    p.file_id ++ (p.hash ++ (p.sixteen_k_hash ++ (le_bytes 8 p.byte_count ++ name_bytes)))

-- A file with bytes that a file description packet could describe.
pub record IsFileDescPacket (p : FileDescPacket) : Type 0 where
  pub positive : 0 < p.byte_count
  pub fits_int : p.byte_count ≤ max_int
  pub id_size : length p.file_id ≡ 16
  pub hash_size : length p.hash ≡ 16
  pub sixteen_k_size : length p.sixteen_k_hash ≡ 16
  pub safe : IsSafeName p.filename

module _ (body : List ℕ) (long : 56 ≤ length body) (bytes : IsBytes body) where
  exact : le_bytes 8 (le_value (take 8 (drop 48 body))) ≡ take 8 (drop 48 body)
  exact =
      ap (λ (n : ℕ). le_bytes n (le_value (take 8 (drop 48 body))))
        (omega (arith, length-take 8 (drop 48 body), length-drop 48 body))
      ∙ le_bytes-le_value (take 8 (drop 48 body))
          (IsBytes-take 8 (drop 48 body) (IsBytes-drop 48 body bytes))

  -- The fields of a body, put together.
  whole :
      take 16 body
        ++ (take 16 (drop 16 body)
            ++ (take 16 (drop 32 body)
                ++ (le_bytes 8 (le_value (take 8 (drop 48 body))) ++ drop 56 body)))
      ≡ body
  whole =
      ap (◌++◌ (take 16 body)) (
        ap (◌++◌ (take 16 (drop 16 body))) (
          ap (◌++◌ (take 16 (drop 32 body))) (
            ap₂ ◌++◌ exact (sym (drop-drop 48 8 body))
            ∙ take-append-drop 8 (drop 48 body)
            ∙ sym (drop-drop 32 16 body))
          ∙ take-append-drop 16 (drop 32 body)
          ∙ sym (drop-drop 16 16 body))
        ∙ take-append-drop 16 (drop 16 body))
      ∙ take-append-drop 16 body

pub parse_file_desc_packet-IsFileDescPacket :
    (md5 : List ℕ → List ℕ) (body : List ℕ) (p : FileDescPacket)
    → parse_file_desc_packet md5 body ≡ ok (some p)
    → IsFileDescPacket p
parse_file_desc_packet-IsFileDescPacket md5 body p run =
    let (long, same_id, positive, rest) = accepted md5 body p run in
    let (fits, name, e) =
      accepted_named (take 16 body) (take 16 (drop 16 body)) (take 16 (drop 32 body))
        (le_value (take 8 (drop 48 body))) (drop 56 body) p rest in
    subst IsFileDescPacket (sym e) (record {
      positive = positive;
      fits_int = fits;
      id_size = omega (arith, length-take 16 body);
      hash_size = omega (arith, length-take 16 (drop 16 body), length-drop 16 body);
      sixteen_k_size = omega (arith, length-take 16 (drop 32 body), length-drop 32 body);
      safe = defang_path-safe (decode_name (drop 56 body)) p.filename name;
    })

-- A packet that `ParseFileDescPacket` returns for a body of bytes is what the layout writes in the
-- body, with the bytes of the name. Its ID is the MD5 of its 16k hash, byte count and name up to
-- the first null. It has some bytes, no more than an int can count, and its file name is safe.
pub print-parse_file_desc_packet :
    (md5 : List ℕ → List ℕ) (body : List ℕ) (p : FileDescPacket)
    → IsBytes body
    → parse_file_desc_packet md5 body ≡ ok (some p)
    → (print_file_desc_packet p (drop 56 body) ≡ body)
      × (p.file_id
          ≡ md5 (p.sixteen_k_hash ++ (le_bytes 8 p.byte_count ++ null_terminate (drop 56 body))))
      × IsFileDescPacket p
unfolding print_file_desc_packet compute_file_id
print-parse_file_desc_packet md5 body p bytes run =
    let (long, same_id, positive, rest) = accepted md5 body p run in
    let (fits, name, e) =
      accepted_named (take 16 body) (take 16 (drop 16 body)) (take 16 (drop 32 body))
        (le_value (take 8 (drop 48 body))) (drop 56 body) p rest in
    subst
      (λ (q : FileDescPacket).
        (q.file_id ++ (q.hash ++ (q.sixteen_k_hash ++ (le_bytes 8 q.byte_count ++ drop 56 body)))
          ≡ body)
        × (q.file_id
            ≡ md5 (q.sixteen_k_hash ++ (le_bytes 8 q.byte_count ++ null_terminate (drop 56 body))))
        × IsFileDescPacket q)
      (sym e)
      (
        whole body long bytes,
        sym ((eq_bytes_iff _ _).0 same_id),
        subst IsFileDescPacket e (parse_file_desc_packet-IsFileDescPacket md5 body p run),
      )

module _ (p : FileDescPacket) (valid : IsFileDescPacket p) (name_bytes : List ℕ) where
  abbrev counted : List ℕ
  counted = le_bytes 8 p.byte_count ++ name_bytes

  abbrev tail2 : List ℕ
  tail2 = p.sixteen_k_hash ++ counted

  abbrev tail1 : List ℕ
  tail1 = p.hash ++ tail2

  at16 : drop 16 (p.file_id ++ tail1) ≡ tail1
  at16 = drop-append_length 16 p.file_id tail1 valid.id_size

  at32 : drop 32 (p.file_id ++ tail1) ≡ tail2
  at32 =
      sym (drop-drop 16 16 (p.file_id ++ tail1))
      ∙ ap (drop 16) at16
      ∙ drop-append_length 16 p.hash tail2 valid.hash_size

  at48 : drop 48 (p.file_id ++ tail1) ≡ counted
  at48 =
      sym (drop-drop 32 16 (p.file_id ++ tail1))
      ∙ ap (drop 16) at32
      ∙ drop-append_length 16 p.sixteen_k_hash counted valid.sixteen_k_size

  at56 : drop 56 (p.file_id ++ tail1) ≡ name_bytes
  at56 =
      sym (drop-drop 48 8 (p.file_id ++ tail1))
      ∙ ap (drop 8) at48
      ∙ drop-append_length 8 (le_bytes 8 p.byte_count) name_bytes (length-le_bytes 8 p.byte_count)

  count : le_value (take 8 (drop 48 (p.file_id ++ tail1))) ≡ p.byte_count
  count =
      ap (λ (bs : List ℕ). le_value (take 8 bs)) at48
      ∙ ap le_value (
          take-append_length 8 (le_bytes 8 p.byte_count) name_bytes
            (length-le_bytes 8 p.byte_count))
      ∙ le_value-le_bytes 8 p.byte_count (omega (arith, valid.fits_int))

  long_enough : ltb (length (p.file_id ++ tail1)) 56 ≡ false
  long_enough = ground (
    arith,
    length-append p.file_id tail1,
    length-append p.hash tail2,
    length-append p.sixteen_k_hash counted,
    length-append (le_bytes 8 p.byte_count) name_bytes,
    length-le_bytes 8 p.byte_count,
    valid.id_size,
    valid.hash_size,
    valid.sixteen_k_size,
  )

  -- A printed file description parses back to itself, if it is one that the format can hold, its ID
  -- is the MD5 of its 16k hash, byte count and name up to the first null, and `DefangPath` makes
  -- its file name of the decoded name.
  pub parse-print_file_desc_packet :
      (md5 : List ℕ → List ℕ)
      → p.file_id ≡ md5 (p.sixteen_k_hash ++ (le_bytes 8 p.byte_count ++ null_terminate name_bytes))
      → defang_path (decode_name name_bytes) ≡ ok p.filename
      → parse_file_desc_packet md5 (print_file_desc_packet p name_bytes) ≡ ok (some p)
  unfolding print_file_desc_packet parse_file_desc_packet named_packet compute_file_id
  parse-print_file_desc_packet md5 id name = rw (
    long_enough,
    count,
    at16,
    at32,
    at56,
    take-append_length 16 p.file_id tail1 valid.id_size,
    take-append_length 16 p.hash tail2 valid.hash_size,
    take-append_length 16 p.sixteen_k_hash counted valid.sixteen_k_size,
    ← id,
    same,
    filled,
    name,
    fits,
  )
    where
      same : eq_bytes p.file_id p.file_id ≡ true
      same = (eq_bytes_iff p.file_id p.file_id).1 refl

      filled : (p.byte_count == 0) ≡ false
      filled = ground (arith, valid.positive)

      fits : ltb max_int p.byte_count ≡ false
      fits = ground (arith, valid.fits_int)
