-- ===== src/Par2/Decoder/Valid.antt =====
-- The invariant of the decoder: whatever the files hold, what is kept of them is well formed.
use par2engine.Base.{
  ℕ, ◌%◌, ◌≤◌, false, List, [], ◌∷◌, ◌++◌, length, Option, none, some, Result, ok, err, ◌≡◌, refl,
  ◌∙◌, arith, if_elim, or_false,
}
use par2engine.Par2.Names.{eq_bytes}
use par2engine.Par2.Packet.{
  PacketError, max_int, MainPacket, IfscPacket, RecoveryPacket, parse_main_packet,
  parse_ifsc_packet, parse_recovery_packet,
}
use par2engine.Par2.Packet.Main.{main_bounds}
use par2engine.Par2.Packet.Ifsc.{IsIfscPacket, parse_ifsc_packet-IsIfscPacket}
use par2engine.Par2.Packet.Recovery.{recovery_bounds}
use par2engine.Par2.FileDesc.{Header, FileDescPacket, parse_file_desc_packet}
use par2engine.Par2.FileDesc.Laws.{IsFileDescPacket, parse_file_desc_packet-IsFileDescPacket}
use par2engine.Par2.Decoder.{
  Decoder, Outcome, finished, failed, bad_packet, main_packet_type, file_desc_packet_type,
  ifsc_packet_type, recovery_packet_type, has_file, has_exponent, put_checksums, handle_main,
  add_file, handle_ifsc, add_shard, handle_recovery, handle_file_desc, handle_packet,
  stream_packets,
}
use par2engine.Par2.Decoder.Stream.{stream_packets_keeps}

-- Files that the format can describe, no two with one ID.
abbrev pub AllFiles : List FileDescPacket → Type 0
AllFiles [] = Unit
AllFiles (f ∷ files) = IsFileDescPacket f × (has_file files f.file_id ≡ false) × AllFiles files

-- Shards with exponents within the limit, no two with one exponent.
abbrev pub AllShards : List RecoveryPacket → Type 0
AllShards [] = Unit
AllShards (s ∷ shards) =
    (s.exponent ≤ 32767)
    × (length s.parity % 4 ≡ 0)
    × (has_exponent shards s.exponent ≡ false)
    × AllShards shards

abbrev pub AllChecksums : List IfscPacket → Type 0
AllChecksums [] = Unit
AllChecksums (p ∷ ps) = IsIfscPacket p × AllChecksums ps

pub record IsDecoder (d : Decoder) : Type 0 where
  pub size_aligned : d.slice_byte_count % 4 ≡ 0
  pub size_fits : d.slice_byte_count ≤ max_int
  pub files : AllFiles d.protected_files
  pub checksums : AllChecksums d.file_checksums
  pub shards : AllShards d.parity_shards

pub eq_bytes_sym : (xs ys : List ℕ) → eq_bytes xs ys ≡ eq_bytes ys xs
unfolding eq_bytes
eq_bytes_sym [] [] = refl
eq_bytes_sym [] (y ∷ ys) = refl
eq_bytes_sym (x ∷ xs) [] = refl
eq_bytes_sym (x ∷ xs) (y ∷ ys) = ground (arith, eq_bytes_sym xs ys)

has_file-append :
    (files : List FileDescPacket) (p : FileDescPacket) (id : List ℕ)
    → has_file files id ≡ false
    → eq_bytes p.file_id id ≡ false
    → has_file (files ++ (p ∷ [])) id ≡ false
unfolding has_file
has_file-append [] p id h k = ground arith
has_file-append (f ∷ files) p id h k = ground (arith, has_file-append files p id)

append-AllFiles :
    (files : List FileDescPacket) (p : FileDescPacket)
    → AllFiles files
    → IsFileDescPacket p
    → has_file files p.file_id ≡ false
    → AllFiles (files ++ (p ∷ []))
unfolding has_file
append-AllFiles [] p h valid new = (valid, refl, tt)
append-AllFiles (f ∷ files) p h valid new =
    let (other, rest) = or_false (eq_bytes f.file_id p.file_id) (has_file files p.file_id) new in
    (
      h.0,
      has_file-append files p f.file_id h.1 (eq_bytes_sym p.file_id f.file_id ∙ other),
      append-AllFiles files p h.2 valid rest,
    )

put_checksums-AllChecksums :
    (ps : List IfscPacket) (p : IfscPacket)
    → AllChecksums ps
    → IsIfscPacket p
    → AllChecksums (put_checksums ps p)
unfolding put_checksums
put_checksums-AllChecksums [] p h valid = (valid, tt)
put_checksums-AllChecksums (q ∷ qs) p h valid =
    if_elim AllChecksums (eq_bytes q.file_id p.file_id) (λ _. (valid, h.1))
      (λ _. (h.0, put_checksums-AllChecksums qs p h.1 valid))

pub set_id-IsDecoder :
    (d : Decoder) (id : List ℕ) → IsDecoder d → IsDecoder (record d { recovery_set_id = id })
set_id-IsDecoder d id valid = record {
  size_aligned = valid.size_aligned;
  size_fits = valid.size_fits;
  files = valid.files;
  checksums = valid.checksums;
  shards = valid.shards;
}

module _ (d : Decoder) (valid : IsDecoder d) where
  add_file-IsDecoder : (p : FileDescPacket) → IsFileDescPacket p → IsDecoder (add_file d p)
  unfolding add_file
  add_file-IsDecoder p is_packet =
      if_elim IsDecoder (has_file d.protected_files p.file_id) (λ _. valid)
        (λ new. record {
          size_aligned = valid.size_aligned;
          size_fits = valid.size_fits;
          files = append-AllFiles d.protected_files p valid.files is_packet new;
          checksums = valid.checksums;
          shards = valid.shards;
        })

  add_shard-IsDecoder :
      (p : RecoveryPacket) (filename : List ℕ)
      → p.exponent ≤ 32767
      → length p.parity % 4 ≡ 0
      → IsDecoder (add_shard d p filename)
  unfolding add_shard
  add_shard-IsDecoder p filename small aligned =
      if_elim IsDecoder (has_exponent d.parity_shards p.exponent) (λ _. valid)
        (λ new. record {
          size_aligned = valid.size_aligned;
          size_fits = valid.size_fits;
          files = valid.files;
          checksums = valid.checksums;
          shards = (small, aligned, new, valid.shards);
        })

  -- The packet handlers, on every outcome of the parsers.
  module _ (body : List ℕ) where
    handle_main-IsDecoder : IsDecoder (handle_main d body).decoder
    unfolding handle_main
    handle_main-IsDecoder = go (parse_main_packet body) refl
      where
        go :
            (r : Result PacketError MainPacket)
            → parse_main_packet body ≡ r
            → IsDecoder
                (elim r as (λ _. Outcome) [
                  | err e ↦ failed d (bad_packet e)
                  | ok p ↦ finished (record d { slice_byte_count = p.slice_byte_count })
                ]).decoder
        go (err e) run = valid
        go (ok p) run =
            let (pos, aligned, fits) = main_bounds body p run in
            record {
              size_aligned = aligned;
              size_fits = fits;
              files = valid.files;
              checksums = valid.checksums;
              shards = valid.shards;
            }

    handle_ifsc-IsDecoder : IsDecoder (handle_ifsc d body).decoder
    unfolding handle_ifsc
    handle_ifsc-IsDecoder = go (parse_ifsc_packet body) refl
      where
        go :
            (r : Result PacketError IfscPacket)
            → parse_ifsc_packet body ≡ r
            → IsDecoder
                (elim r as (λ _. Outcome) [
                  | err e ↦ failed d (bad_packet e)
                  | ok p ↦ finished (record d { file_checksums = put_checksums d.file_checksums p })
                ]).decoder
        go (err e) run = valid
        go (ok p) run = record {
          size_aligned = valid.size_aligned;
          size_fits = valid.size_fits;
          files = valid.files;
          checksums =
              put_checksums-AllChecksums d.file_checksums p valid.checksums
                (parse_ifsc_packet-IsIfscPacket body p run);
          shards = valid.shards;
        }

    pub handle_recovery-IsDecoder :
        (filename : List ℕ) → IsDecoder (handle_recovery d body filename).decoder
    unfolding handle_recovery
    handle_recovery-IsDecoder filename = go (parse_recovery_packet body) refl
      where
        go :
            (r : Result PacketError RecoveryPacket)
            → parse_recovery_packet body ≡ r
            → IsDecoder
                (elim r as (λ _. Outcome) [
                  | err e ↦ failed d (bad_packet e)
                  | ok p ↦ finished (add_shard d p filename)
                ]).decoder
        go (err e) run = valid
        go (ok p) run =
            let (small, aligned) = recovery_bounds body p run in
            add_shard-IsDecoder p filename small aligned

    handle_file_desc-IsDecoder :
        (md5 : List ℕ → List ℕ) → IsDecoder (handle_file_desc md5 d body).decoder
    unfolding handle_file_desc
    handle_file_desc-IsDecoder md5 = go (parse_file_desc_packet md5 body) refl
      where
        go :
            (r : Result PacketError (Option FileDescPacket))
            → parse_file_desc_packet md5 body ≡ r
            → IsDecoder
                (elim r as (λ _. Outcome) [
                  | err e ↦ failed d (bad_packet e)
                  | ok none ↦ finished d
                  | ok (some p) ↦ finished (add_file d p)
                ]).decoder
        go (err e) run = valid
        go (ok none) run = valid
        go (ok (some p)) run =
            add_file-IsDecoder p (parse_file_desc_packet-IsFileDescPacket md5 body p run)

module _ (md5 : List ℕ → List ℕ) (filename : List ℕ) where
  handle_packet-IsDecoder :
      (d : Decoder) (h : Header) (body : List ℕ)
      → IsDecoder d
      → IsDecoder (handle_packet md5 filename d h body).decoder
  unfolding handle_packet
  handle_packet-IsDecoder d h body valid =
      if_elim P (eq_bytes h.packet_type main_packet_type) (λ _. handle_main-IsDecoder d valid body)
        (λ _.
          if_elim P (eq_bytes h.packet_type file_desc_packet_type)
            (λ _. handle_file_desc-IsDecoder d valid body md5)
            (λ _.
              if_elim P (eq_bytes h.packet_type ifsc_packet_type)
                (λ _. handle_ifsc-IsDecoder d valid body)
                (λ _.
                  if_elim P (eq_bytes h.packet_type recovery_packet_type)
                    (λ _. handle_recovery-IsDecoder d valid body filename) (λ _. valid))))
    where
      P : Outcome → Type 0
      P o = IsDecoder o.decoder

  -- Reading a file with `handlePacket` keeps a well-formed decoder well formed: the slice size is a
  -- multiple of four that an int holds; the protected files are ones that the format can describe,
  -- with safe names and no ID twice; each entry of the checksums has one slice at least; the
  -- exponents of the shards are within the limit, and none is there twice. So it is whatever bytes
  -- the file has, whether the reading ends with an error or not, and for any MD5.
  pub stream_packets-IsDecoder :
      (d : Decoder) (file : List ℕ)
      → IsDecoder d
      → IsDecoder (stream_packets md5 (handle_packet md5 filename) d file).decoder
  stream_packets-IsDecoder d file valid =
      stream_packets_keeps IsDecoder md5 (handle_packet md5 filename) handle_packet-IsDecoder
        set_id-IsDecoder d file valid
