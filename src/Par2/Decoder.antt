-- ===== src/Par2/Decoder.antt =====
-- par2/decoder.go: what the decoder keeps of the packets it reads. A map is an association list with
-- one entry per key. The reader goes over the bytes that are left of a file; the context is taken not
-- to be cancelled, and log lines are left out.
pub mod Stream
pub mod Valid
pub mod Volume
use par2engine.Base.{
  ℕ, zero, suc, ◌-◌, ltb, ◌==◌, if◌then◌else◌, not, ◌||◌, Bool, false, List, [], ◌∷◌, ◌++◌, length,
  take, drop, replicate, Option, none, some, Result, ok, err,
}
use par2engine.Par2.Names.{eq_bytes}
use par2engine.Par2.Packet.{
  PacketError, end_of_file, max_int, IfscPacket, RecoveryPacket, parse_main_packet,
  parse_ifsc_packet, parse_recovery_packet,
}
use par2engine.Par2.FileDesc.{
  Header, read_header, FileDescPacket, parse_file_desc_packet, compute_packet_hash,
}

-- The fields of `Decoder` that packets are read into, and the two limits. An entry of
-- `parityShards` is the packet it comes from, and one of `fileChecksums` too.
pub record Decoder : Type 0 where
  pub max_file_size : ℕ
  pub max_packet_size : ℕ
  pub slice_byte_count : ℕ
  pub recovery_set_id : List ℕ
  pub protected_files : List FileDescPacket
  pub file_checksums : List IfscPacket
  pub parity_shards : List RecoveryPacket
  pub parity_file_blocks : List (List ℕ)

-- The errors of reading a file of packets.
pub data LoadError : Type 0 where
  file_too_large body_too_large truncated_body hash_mismatch : LoadError
  bad_header bad_packet : PacketError → LoadError

-- What a method that changes the decoder leaves: the decoder, and the error if there is one. What
-- was read before an error stays.
pub record Outcome : Type 0 where
  pub decoder : Decoder
  pub error : Option LoadError

abbrev pub finished : Decoder → Outcome
finished d = record { decoder = d; error = none }

abbrev pub failed : Decoder → LoadError → Outcome
failed d e = record { decoder = d; error = some e }

-- `PacketType` constants.
abbrev pub type_prefix : List ℕ
type_prefix = 80 ∷ 65 ∷ 82 ∷ 32 ∷ 50 ∷ 46 ∷ 48 ∷ 0 ∷ []

abbrev pub main_packet_type : List ℕ
main_packet_type = type_prefix ++ (77 ∷ 97 ∷ 105 ∷ 110 ∷ 0 ∷ 0 ∷ 0 ∷ 0 ∷ [])

abbrev pub file_desc_packet_type : List ℕ
file_desc_packet_type = type_prefix ++ (70 ∷ 105 ∷ 108 ∷ 101 ∷ 68 ∷ 101 ∷ 115 ∷ 99 ∷ [])

abbrev pub ifsc_packet_type : List ℕ
ifsc_packet_type = type_prefix ++ (73 ∷ 70 ∷ 83 ∷ 67 ∷ 0 ∷ 0 ∷ 0 ∷ 0 ∷ [])

abbrev pub recovery_packet_type : List ℕ
recovery_packet_type = type_prefix ++ (82 ∷ 101 ∷ 99 ∷ 118 ∷ 83 ∷ 108 ∷ 105 ∷ 99 ∷ [])

-- `slices.ContainsFunc` with the test that the ID is the same.
unfoldable pub has_file : List FileDescPacket → List ℕ → Bool
has_file [] id = false
has_file (f ∷ files) id = eq_bytes f.file_id id || has_file files id

-- Whether the map `parityShards` has the exponent.
unfoldable pub has_exponent : List RecoveryPacket → ℕ → Bool
has_exponent [] exponent = false
has_exponent (s ∷ shards) exponent = s.exponent == exponent || has_exponent shards exponent

-- `d.fileChecksums[p.FileID] = p`
unfoldable pub put_checksums : List IfscPacket → IfscPacket → List IfscPacket
put_checksums [] p = p ∷ []
put_checksums (q ∷ qs) p =
    let rest = put_checksums qs p in if eq_bytes q.file_id p.file_id then p ∷ qs else q ∷ rest

-- The cases of `handlePacket`, one by one. `parityFileBlocks` counts a file name per shard, which is
-- in the list here as often as the count says.
unfoldable pub handle_main : Decoder → List ℕ → Outcome
handle_main d body = elim (parse_main_packet body) [
  | err e ↦ failed d (bad_packet e)
  | ok p ↦ finished (record d { slice_byte_count = p.slice_byte_count })
]

unfoldable pub add_file : Decoder → FileDescPacket → Decoder
add_file d p =
    if has_file d.protected_files p.file_id
    then d
    else record d { protected_files = d.protected_files ++ (p ∷ []) }

unfoldable pub handle_ifsc : Decoder → List ℕ → Outcome
handle_ifsc d body = elim (parse_ifsc_packet body) [
  | err e ↦ failed d (bad_packet e)
  | ok p ↦ finished (record d { file_checksums = put_checksums d.file_checksums p })
]

unfoldable pub add_shard : Decoder → RecoveryPacket → List ℕ → Decoder
add_shard d p filename = if has_exponent d.parity_shards p.exponent then d else record d {
  parity_shards = p ∷ d.parity_shards;
  parity_file_blocks = filename ∷ d.parity_file_blocks;
}

unfoldable pub handle_recovery : Decoder → List ℕ → List ℕ → Outcome
handle_recovery d body filename = elim (parse_recovery_packet body) [
  | err e ↦ failed d (bad_packet e)
  | ok p ↦ finished (add_shard d p filename)
]

-- What a reader calls for each packet.
abbrev pub Handler : Type 0
Handler = Decoder → Header → List ℕ → Outcome

-- A round of the loop in `streamPAR2Packets`: it returns, or goes on with what is left of the file.
pub data Round : Type 0 where
  stop : Outcome → Round
  next : Decoder → List ℕ → Round

unfoldable pub go_on : (Decoder → List ℕ → Outcome) → Round → Outcome
go_on again (stop o) = o
go_on again (next d rest) = again d rest

module _ (md5 : List ℕ → List ℕ) where
  unfoldable pub handle_file_desc : Decoder → List ℕ → Outcome
  handle_file_desc d body = elim (parse_file_desc_packet md5 body) [
    | err e ↦ failed d (bad_packet e)
    | ok none ↦ finished d
    | ok (some p) ↦ finished (add_file d p)
  ]

  -- `handlePacket`; a packet of another type is passed over.
  unfoldable pub handle_packet : List ℕ → Handler
  handle_packet filename d h body =
      if eq_bytes h.packet_type main_packet_type
      then handle_main d body
      else if eq_bytes h.packet_type file_desc_packet_type
      then handle_file_desc d body
      else if eq_bytes h.packet_type ifsc_packet_type
      then handle_ifsc d body
      else if eq_bytes h.packet_type recovery_packet_type
      then handle_recovery d body filename
      else finished d

  -- The handler that `loadSingleVolumeFile` passes.
  unfoldable pub handle_volume_packet : List ℕ → Handler
  handle_volume_packet filename d h body =
      if eq_bytes h.packet_type recovery_packet_type
      then handle_recovery d body filename
      else finished d

  module _ (handle : Handler) where
    -- What follows the call of the handler: its error is returned.
    unfoldable pub after_handle : Outcome → List ℕ → Round
    after_handle o rest = elim o.error [ none ↦ next o.decoder rest | some e ↦ stop o ]

    -- From the test of the hash on. The first packet sets the set's ID; one of another set is skipped.
    unfoldable pub take_packet : Decoder → Header → List ℕ → List ℕ → Round
    take_packet d h body rest =
        if not (eq_bytes (compute_packet_hash md5 h.recovery_set_id h.packet_type body) h.hash)
        then stop (failed d hash_mismatch)
        else if eq_bytes d.recovery_set_id (replicate 16 0)
        then after_handle (handle (record d { recovery_set_id = h.recovery_set_id }) h body) rest
        else if not (eq_bytes h.recovery_set_id d.recovery_set_id)
        then next d rest
        else after_handle (handle d h body) rest

    -- Up to the read of the body. The conversion of `h.Length - 64` to an int64 is negative from 2^63.
    unfoldable pub take_body : Decoder → Header → List ℕ → Round
    take_body d h file =
        let size = h.packet_length - 64 in
        if ltb max_int size || ltb d.max_packet_size size
        then stop (failed d body_too_large)
        else if ltb (length file) size
        then stop (failed d truncated_body)
        else take_packet d h (take size file) (drop size file)

    -- What follows the call of `ReadHeader`.
    unfoldable pub after_header : Decoder → List ℕ → Result PacketError Header → Round
    after_header d file (err end_of_file) = stop (finished d)
    after_header d file (err e) = stop (failed d (bad_header e))
    after_header d file (ok h) = take_body d h (drop 64 file)

    unfoldable pub read_round : Decoder → List ℕ → Round
    read_round d file = after_header d file (read_header file)

    -- The loop, on fuel.
    unfoldable pub stream_loop : ℕ → Decoder → List ℕ → Outcome
    stream_loop zero d file = finished d
    stream_loop (suc fuel) d file = go_on (λ d' rest. stream_loop fuel d' rest) (read_round d file)

    -- `streamPAR2Packets`, for a file that opens. A round consumes a header at least, so a unit of
    -- fuel for each byte, and one for the end, is enough.
    unfoldable pub stream_packets : Decoder → List ℕ → Outcome
    stream_packets d file =
        if ltb d.max_file_size (length file)
        then failed d file_too_large
        else stream_loop (suc (length file)) d file

  -- `loadSingleVolumeFile`
  unfoldable pub load_single_volume_file : List ℕ → Decoder → List ℕ → Outcome
  load_single_volume_file filename d file = stream_packets (handle_volume_packet filename) d file
