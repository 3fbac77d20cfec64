-- ===== src/Par2/Scan.antt =====
-- par2/scan.go: the states of the files before the scan, and the verification of whole files after it.
-- The directory is a map from names to contents, and a file whose reading fails is told by a parameter.
-- The states are in the order of the protected files, one for each, as `initFileIntegrity` makes them.
pub mod Truth
pub mod Fresh
use par2engine.Base.{
  ℕ, ◌+◌, ◌-◌, ◌/◌, ◌==◌, ltb, not, ◌||◌, if◌then◌else◌, Bool, List, [], ◌∷◌, replicate, none, some,
  Result, ok, ◌>>=◌, ◌>>◌, refuse,
}
use par2engine.Par2.Names.{eq_bytes}
use par2engine.Par2.FileDesc.{FileDescPacket}
use par2engine.Par2.Counts.{
  ShardLocation, FileDamage, damage_unchecked, damage_none, damage_missing, damage_wrong_size,
  damage_wrong_hash, FileIntegrityState,
}
use par2engine.Par2.Repair.Plan.{is_misplaced}
use par2engine.Par2.Repair.Install.{File, contents_of}

-- The errors of `initFileIntegrity`.
pub data ScanError : Type 0 where
  zero_slice_size too_many_file_blocks too_many_blocks : ScanError

-- The state that a file starts with.
abbrev pub new_state : FileDescPacket → ℕ → FileIntegrityState
new_state f shards = record {
  file_id = f.file_id;
  filename = f.filename;
  damage = damage_unchecked;
  rename_source = [];
  shard_locations = replicate shards (record { file_id = replicate 16 0; offset = none });
}

-- The loop of `initFileIntegrity`, with the blocks counted so far.
unfoldable pub init_loop : ℕ → ℕ → List FileDescPacket → Result ScanError (List FileIntegrityState)
init_loop slice_byte_count total [] = ok []
init_loop slice_byte_count total (f ∷ files) =
    let shards = (f.byte_count + slice_byte_count - 1) / slice_byte_count in
    let rest = init_loop slice_byte_count (total + shards) files in
    refuse (slice_byte_count == 0) zero_slice_size
    >> (refuse (ltb 32768 shards) too_many_file_blocks
        >> (refuse (ltb 32768 (total + shards)) too_many_blocks
            >> (rest >>= λ states. ok (new_state f shards ∷ states))))

-- `initFileIntegrity`
unfoldable pub init_file_integrity :
    ℕ → List FileDescPacket → Result ScanError (List FileIntegrityState)
init_file_integrity slice_byte_count files = init_loop slice_byte_count 0 files

-- `isAllShardsConsecutive`, whose loop is that of `buildNeedsWrite`.
abbrev pub is_all_shards_consecutive : ℕ → FileDescPacket → FileIntegrityState → Bool
is_all_shards_consecutive slice_byte_count fd state =
    not (is_misplaced slice_byte_count fd.file_id 0 state.shard_locations)

-- `d.candidateByID[id]`, the empty string where the ID is not there.
unfoldable pub candidate_path : List (List ℕ × List ℕ) → List ℕ → List ℕ
candidate_path [] id = []
candidate_path ((key, path) ∷ candidates) id =
    let rest = candidate_path candidates id in if eq_bytes key id then path else rest

module _ (md5 : List ℕ → List ℕ) (read_fails : List ℕ → Bool) (disk : List File) where
  -- The hash of the file of a name against the expected one.
  abbrev pub has_hash : FileDescPacket → List ℕ → Bool
  has_hash fd bs = eq_bytes (md5 bs) fd.hash

  -- `verifySingleFileHash`, which returns the new damage.
  unfoldable pub verify_single_file_hash : FileDescPacket → FileDamage
  verify_single_file_hash fd = elim (contents_of disk fd.filename) [
    | none ↦ damage_missing
    | some bs ↦
        if read_fails fd.filename
        then damage_wrong_hash
        else if has_hash fd bs
        then damage_none
        else damage_wrong_hash
  ]

  -- The end of `detectRenameCandidate`: the file of the candidate is hashed.
  unfoldable pub verify_candidate : FileDescPacket → List ℕ → List ℕ
  verify_candidate fd path = elim (contents_of disk path) [
    | none ↦ []
    | some bs ↦ if read_fails path then [] else if has_hash fd bs then path else []
  ]

  -- `detectRenameCandidate`
  unfoldable pub detect_rename_candidate :
      ℕ → List (List ℕ × List ℕ) → FileDescPacket → List ShardLocation → List ℕ
  detect_rename_candidate slice_byte_count candidates fd [] = []
  detect_rename_candidate slice_byte_count candidates fd (loc ∷ locs) =
      let path = candidate_path candidates loc.file_id in
      elim loc.offset [
        | none ↦ []
        | some offset ↦
            if eq_bytes loc.file_id fd.file_id || eq_bytes path [] || eq_bytes path fd.filename
            then []
            else if is_misplaced slice_byte_count loc.file_id 0 (loc ∷ locs)
            then []
            else verify_candidate fd path
      ]

  -- The body of the loop for a state that was not settled before.
  unfoldable pub verify_unsettled :
      ℕ
      → List (List ℕ × List ℕ)
      → FileDescPacket
      → FileIntegrityState
      → FileDamage
      → FileIntegrityState
  verify_unsettled slice_byte_count candidates fd state damage_none = state
  verify_unsettled slice_byte_count candidates fd state damage_wrong_size = state
  verify_unsettled slice_byte_count candidates fd state damage_missing = record state {
    rename_source = detect_rename_candidate slice_byte_count candidates fd state.shard_locations;
  }
  verify_unsettled slice_byte_count candidates fd state damage_unchecked =
      if is_all_shards_consecutive slice_byte_count fd state
      then record state { damage = verify_single_file_hash fd }
      else record state {
        damage = damage_wrong_hash;
        rename_source =
            detect_rename_candidate slice_byte_count candidates fd state.shard_locations;
      }
  verify_unsettled slice_byte_count candidates fd state damage_wrong_hash =
      if is_all_shards_consecutive slice_byte_count fd state
      then record state { damage = verify_single_file_hash fd }
      else record state {
        damage = damage_wrong_hash;
        rename_source =
            detect_rename_candidate slice_byte_count candidates fd state.shard_locations;
      }

  unfoldable pub verify_file :
      ℕ → List (List ℕ × List ℕ) → FileDescPacket → FileIntegrityState → FileIntegrityState
  verify_file slice_byte_count candidates fd state =
      if not (eq_bytes state.rename_source [])
      then state
      else verify_unsettled slice_byte_count candidates fd state state.damage

  -- `verifyProtectedFilesHashes`
  unfoldable pub verify_protected_files_hashes :
      ℕ
      → List (List ℕ × List ℕ)
      → List FileDescPacket
      → List FileIntegrityState
      → List FileIntegrityState
  verify_protected_files_hashes slice_byte_count candidates [] states = states
  verify_protected_files_hashes slice_byte_count candidates (fd ∷ files) [] = []
  verify_protected_files_hashes slice_byte_count candidates (fd ∷ files) (state ∷ states) =
      verify_file slice_byte_count candidates fd state
      ∷ verify_protected_files_hashes slice_byte_count candidates files states
