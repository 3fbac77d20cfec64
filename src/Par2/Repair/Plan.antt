-- ===== src/Par2/Repair/Plan.antt =====
-- par2/repair.go: the plan of a repair. The maps of the decoder are association lists; a state that is
-- not there is a nil pointer, whose use panics.
use par2engine.Base.{
  ℕ, suc, ◌+◌, ◌-◌, ◌*◌, ◌/◌, ◌==◌, not, ◌||◌, max, if◌then◌else◌, Bool, true, false, List, [], ◌∷◌,
  ◌++◌, length, Option, none, some, Result, ok, err, ◌>>=◌, ◌>>◌, refuse,
}
use par2engine.Par2.Names.{eq_bytes}
use par2engine.Par2.FileDesc.{FileDescPacket}
use par2engine.Par2.Packet.{RecoveryPacket}
use par2engine.Par2.Counts.{
  ShardLocation, FileIntegrityState, needs_rebuild, ShardCounts, shard_counts,
}
use par2engine.Par2.Repair.{RepairError, compute_chunk_size, wrong_parity_length, nil_state}

-- The fields of the decoder that a plan is made of. A candidate is a path and the ID that it was given.
pub record Setting : Type 0 where
  pub memory_limit : ℕ
  pub slice_byte_count : ℕ
  pub protected_files : List FileDescPacket
  pub candidate_files : List (List ℕ × List ℕ)
  pub file_integrity : List FileIntegrityState
  pub parity_shards : List RecoveryPacket

-- `flattenedLocation`
pub record FlattenedLocation : Type 0 where
  pub target_file_id : List ℕ
  pub target_filename : List ℕ
  pub shard_index : ℕ
  pub source_file_id : List ℕ
  pub source_filename : List ℕ
  pub disk_offset : Option ℕ

-- `repairPlan`; the map `needsWrite` is the list of its keys.
pub record RepairPlan : Type 0 where
  pub counts : ShardCounts
  pub total_data_shards : ℕ
  pub total_parity_shards : ℕ
  pub chunk_size : ℕ
  pub num_chunks : ℕ
  pub flat_locs : List FlattenedLocation
  pub needs_write : List (List ℕ)
  pub files_renamed : ℕ

-- `d.fileIntegrity[id]`
unfoldable pub state_of : List FileIntegrityState → List ℕ → Result RepairError FileIntegrityState
state_of [] id = err nil_state
state_of (s ∷ states) id =
    let rest = state_of states id in if eq_bytes s.file_id id then ok s else rest

-- `validateParityShards`
unfoldable pub validate_parity_shards : ℕ → List RecoveryPacket → Result RepairError (Unit {0})
validate_parity_shards slice_byte_count [] = ok tt
validate_parity_shards slice_byte_count (p ∷ parity) = do
  refuse (not (length p.parity == slice_byte_count)) wrong_parity_length
  validate_parity_shards slice_byte_count parity

-- `buildFileIDToFilenameMap`; what is put in later is found first.
unfoldable pub put_files : List FileDescPacket → List (List ℕ × List ℕ) → List (List ℕ × List ℕ)
put_files [] m = m
put_files (f ∷ files) m = put_files files ((f.file_id, f.filename) ∷ m)

unfoldable pub put_candidates :
    List (List ℕ × List ℕ) → List (List ℕ × List ℕ) → List (List ℕ × List ℕ)
put_candidates [] m = m
put_candidates ((path, id) ∷ candidates) m = put_candidates candidates ((id, path) ∷ m)

unfoldable pub build_file_id_to_filename_map : Setting → List (List ℕ × List ℕ)
build_file_id_to_filename_map d = put_candidates d.candidate_files (put_files d.protected_files [])

-- The name of an ID; a key that is not there gives the empty string.
unfoldable pub filename_of : List (List ℕ × List ℕ) → List ℕ → List ℕ
filename_of [] id = []
filename_of ((key, name) ∷ m) id =
    let rest = filename_of m id in if eq_bytes key id then name else rest

abbrev pub source_filename_of : List (List ℕ × List ℕ) → List ℕ → Option ℕ → List ℕ
source_filename_of m id none = []
source_filename_of m id (some offset) = filename_of m id

-- The locations of a file from the shard `i` on.
unfoldable pub flatten_locations :
    List (List ℕ × List ℕ) → FileDescPacket → ℕ → List ShardLocation → List FlattenedLocation
flatten_locations m f i [] = []
flatten_locations m f i (loc ∷ locs) =
    record {
      target_file_id = f.file_id;
      target_filename = f.filename;
      shard_index = i;
      source_file_id = loc.file_id;
      source_filename = source_filename_of m loc.file_id loc.offset;
      disk_offset = loc.offset;
    }
    ∷ flatten_locations m f (suc i) locs

-- `buildFlatLocs`
unfoldable pub build_flat_locs :
    List (List ℕ × List ℕ)
    → List FileIntegrityState
    → List FileDescPacket
    → Result RepairError (List FlattenedLocation)
build_flat_locs m states [] = ok []
build_flat_locs m states (f ∷ files) = do
  state ← state_of states f.file_id
  rest ← build_flat_locs m states files
  ok (flatten_locations m f 0 state.shard_locations ++ rest)

-- `totalDataShards` of `planRepair`
unfoldable pub total_locations :
    List FileIntegrityState → List FileDescPacket → Result RepairError ℕ
total_locations states [] = ok 0
total_locations states (f ∷ files) = do
  state ← state_of states f.file_id
  rest ← total_locations states files
  ok (length state.shard_locations + rest)

abbrev pub is_at : ℕ → Option ℕ → Bool
is_at expected none = false
is_at expected (some offset) = offset == expected

-- Whether a shard from `i` on is not where the file has it.
unfoldable pub is_misplaced : ℕ → List ℕ → ℕ → List ShardLocation → Bool
is_misplaced slice_byte_count id i [] = false
is_misplaced slice_byte_count id i (loc ∷ locs) =
    let rest = is_misplaced slice_byte_count id (suc i) locs in
    if not (is_at (i * slice_byte_count) loc.offset) || not (eq_bytes loc.file_id id)
    then true
    else rest

-- `buildNeedsWrite`
unfoldable pub build_needs_write :
    ℕ → List FileIntegrityState → List FileDescPacket → Result RepairError (List (List ℕ))
build_needs_write slice_byte_count states [] = ok []
build_needs_write slice_byte_count states (f ∷ files) = do
  state ← state_of states f.file_id
  rest ← build_needs_write slice_byte_count states files
  ok (
      if needs_rebuild state.damage
        || is_misplaced slice_byte_count f.file_id 0 state.shard_locations
      then f.filename ∷ rest
      else rest)

unfoldable pub max_exponent : List RecoveryPacket → ℕ
max_exponent [] = 0
max_exponent (p ∷ parity) = max p.exponent (max_exponent parity)

-- `planRepair`
unfoldable pub plan_repair : Setting → ℕ → Result RepairError RepairPlan
plan_repair d files_renamed = do
  validate_parity_shards d.slice_byte_count d.parity_shards
  total ← total_locations d.file_integrity d.protected_files
  chunk_size ←
      compute_chunk_size d.memory_limit d.slice_byte_count total
        (shard_counts (length d.parity_shards) d.file_integrity).unusable_data
  flat_locs ← build_flat_locs (build_file_id_to_filename_map d) d.file_integrity d.protected_files
  needs_write ← build_needs_write d.slice_byte_count d.file_integrity d.protected_files
  ok (record {
    counts = shard_counts (length d.parity_shards) d.file_integrity;
    total_data_shards = total;
    total_parity_shards = max_exponent d.parity_shards + 1;
    chunk_size = chunk_size;
    num_chunks = (d.slice_byte_count + chunk_size - 1) / chunk_size;
    flat_locs = flat_locs;
    needs_write = needs_write;
    files_renamed = files_renamed;
  })
