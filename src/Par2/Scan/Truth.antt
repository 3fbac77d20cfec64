-- ===== src/Par2/Scan/Truth.antt =====
-- What the states tell after the verification.
use par2engine.Base.{
  ℕ, not, ◌||◌, if◌then◌else◌, if_elim, Bool, inl, inr, List, [], ◌∷◌, Option, none, some, ◌≡◌, ◌⊎◌,
  refl,
}
use par2engine.Par2.Names.{eq_bytes}
use par2engine.Par2.Names.Clean.{eq_bytes_iff}
use par2engine.Par2.FileDesc.{FileDescPacket}
use par2engine.Par2.Counts.{
  ShardLocation, FileDamage, damage_unchecked, damage_none, damage_missing, damage_wrong_size,
  damage_wrong_hash, FileIntegrityState,
}
use par2engine.Par2.Repair.Plan.{is_misplaced}
use par2engine.Par2.Repair.Install.{File, contents_of}
use par2engine.Par2.Scan.{
  is_all_shards_consecutive, candidate_path, has_hash, verify_single_file_hash, verify_candidate,
  detect_rename_candidate, verify_unsettled, verify_file, verify_protected_files_hashes,
}

module _ (md5 : List ℕ → List ℕ) (read_fails : List ℕ → Bool) (disk : List File) where
  -- The file under the name has the hash of the description.
  abbrev pub IsGood : FileDescPacket → List ℕ → Type 0
  IsGood fd name = (bs : List ℕ) × (contents_of disk name ≡ some bs) × (md5 bs ≡ fd.hash)

  -- Damage that is said to be none is none.
  abbrev pub DamageTrue : FileDescPacket → FileDamage → Type 0
  DamageTrue fd damage_none = IsGood fd fd.filename
  DamageTrue fd damage_unchecked = Unit
  DamageTrue fd damage_missing = Unit
  DamageTrue fd damage_wrong_size = Unit
  DamageTrue fd damage_wrong_hash = Unit

  -- A rename that waits is of a good file.
  abbrev pub RenameTrue : FileDescPacket → List ℕ → Type 0
  RenameTrue fd name = (name ≡ []) ⊎ IsGood fd name

  abbrev pub AllTrue : List FileDescPacket → List FileIntegrityState → Type 0
  AllTrue files [] = Unit
  AllTrue [] (s ∷ states) = Unit
  AllTrue (fd ∷ files) (s ∷ states) =
      DamageTrue fd s.damage × RenameTrue fd s.rename_source × AllTrue files states

  single_true :
      (fd : FileDescPacket) → DamageTrue fd (verify_single_file_hash md5 read_fails disk fd)
  unfolding verify_single_file_hash
  single_true fd = by_contents (contents_of disk fd.filename) (λ bs e. e)
    where
      by_contents :
          (found : Option (List ℕ))
          → ((bs : List ℕ) → found ≡ some bs → contents_of disk fd.filename ≡ some bs)
          → DamageTrue fd (elim found [
            | none ↦ damage_missing
            | some bs ↦
                if read_fails fd.filename
                then damage_wrong_hash
                else if has_hash md5 read_fails disk fd bs
                then damage_none
                else damage_wrong_hash
          ])
      by_contents none h = tt
      by_contents (some bs) h =
          if_elim (DamageTrue fd) (read_fails fd.filename) (λ e. tt)
            (λ ne.
              if_elim (DamageTrue fd) (has_hash md5 read_fails disk fd bs)
                (λ e. (bs, h bs refl, (eq_bytes_iff (md5 bs) fd.hash).0 e)) (λ ne'. tt))

  candidate_true :
      (fd : FileDescPacket) (path : List ℕ)
      → RenameTrue fd (verify_candidate md5 read_fails disk fd path)
  unfolding verify_candidate
  candidate_true fd path = by_contents (contents_of disk path) (λ bs e. e)
    where
      by_contents :
          (found : Option (List ℕ))
          → ((bs : List ℕ) → found ≡ some bs → contents_of disk path ≡ some bs)
          → RenameTrue fd (elim found [
            | none ↦ []
            | some bs ↦
                if read_fails path
                then []
                else if has_hash md5 read_fails disk fd bs
                then path
                else []
          ])
      by_contents none h = inl refl
      by_contents (some bs) h =
          if_elim (RenameTrue fd) (read_fails path) (λ e. inl refl)
            (λ ne.
              if_elim (RenameTrue fd) (has_hash md5 read_fails disk fd bs)
                (λ e. inr (bs, h bs refl, (eq_bytes_iff (md5 bs) fd.hash).0 e)) (λ ne'. inl refl))

  module _ (slice_byte_count : ℕ) (candidates : List (List ℕ × List ℕ)) where
    rename_true :
        (fd : FileDescPacket) (locs : List ShardLocation)
        → RenameTrue fd
            (detect_rename_candidate md5 read_fails disk slice_byte_count candidates fd locs)
    unfolding detect_rename_candidate
    rename_true fd [] = inl refl
    rename_true fd (loc ∷ locs) =
        let path = candidate_path candidates loc.file_id in by_offset loc.offset
      where
        by_offset :
            (offset : Option ℕ)
            → RenameTrue fd (elim offset [
              | none ↦ []
              | some o ↦
                  if eq_bytes loc.file_id fd.file_id
                    || eq_bytes (candidate_path candidates loc.file_id) []
                    || eq_bytes (candidate_path candidates loc.file_id) fd.filename
                  then []
                  else if is_misplaced slice_byte_count loc.file_id 0 (loc ∷ locs)
                  then []
                  else verify_candidate md5 read_fails disk fd
                      (candidate_path candidates loc.file_id)
            ])
        by_offset none = inl refl
        by_offset (some o) =
            if_elim (RenameTrue fd) _ (λ e. inl refl)
              (λ ne.
                if_elim (RenameTrue fd) (is_misplaced slice_byte_count loc.file_id 0 (loc ∷ locs))
                  (λ e. inl refl)
                  (λ ne'. candidate_true fd (candidate_path candidates loc.file_id)))

    abbrev StateTrue : FileDescPacket → FileIntegrityState → Type 0
    StateTrue fd s = DamageTrue fd s.damage × RenameTrue fd s.rename_source

    unsettled_true :
        (fd : FileDescPacket) (s : FileIntegrityState) (damage : FileDamage)
        → StateTrue fd s
        → s.damage ≡ damage
        → StateTrue fd
            (verify_unsettled md5 read_fails disk slice_byte_count candidates fd s damage)
    unfolding verify_unsettled
    unsettled_true fd s damage_none h e = h
    unsettled_true fd s damage_wrong_size h e = h
    unsettled_true fd s damage_missing h e = (h.0, rename_true fd s.shard_locations)
    unsettled_true fd s damage_unchecked h e =
        if_elim (StateTrue fd) (is_all_shards_consecutive slice_byte_count fd s)
          (λ c. (single_true fd, h.1)) (λ nc. (tt, rename_true fd s.shard_locations))
    unsettled_true fd s damage_wrong_hash h e =
        if_elim (StateTrue fd) (is_all_shards_consecutive slice_byte_count fd s)
          (λ c. (single_true fd, h.1)) (λ nc. (tt, rename_true fd s.shard_locations))

    file_true :
        (fd : FileDescPacket) (s : FileIntegrityState)
        → StateTrue fd s
        → StateTrue fd (verify_file md5 read_fails disk slice_byte_count candidates fd s)
    unfolding verify_file
    file_true fd s h =
        if_elim (StateTrue fd) (not (eq_bytes s.rename_source [])) (λ e. h)
          (λ ne. unsettled_true fd s s.damage h refl)

    -- `verifyProtectedFilesHashes` keeps the states true, for any hash function and whichever reads
    -- fail: the file of a state without damage has, under its own name, the hash of its
    -- description; and where a rename waits, the file that is to be renamed has it.
    pub verify_protected_files_hashes-AllTrue :
        (files : List FileDescPacket) (states : List FileIntegrityState)
        → AllTrue files states
        → AllTrue files (
            verify_protected_files_hashes md5 read_fails disk slice_byte_count candidates files
              states)
    unfolding verify_protected_files_hashes
    verify_protected_files_hashes-AllTrue [] states h = h
    verify_protected_files_hashes-AllTrue (fd ∷ files) [] h = tt
    verify_protected_files_hashes-AllTrue (fd ∷ files) (s ∷ states) h =
        let here = file_true fd s (h.0, h.1) in
        (here.0, here.1, verify_protected_files_hashes-AllTrue files states h.2)
