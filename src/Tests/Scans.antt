-- ===== src/Tests/Scans.antt =====
-- par2: the states of the files at concrete inputs.
use par2engine.Base.{ℕ, ◌≤◌, ◌≡◌, inl, refl, List, [], ◌∷◌, take, replicate, some, ok, Bool, false}
use par2engine.Par2.Names.{eq_bytes}
use par2engine.Par2.FileDesc.{FileDescPacket}
use par2engine.Par2.Counts.{FileIntegrityState, damage_none, damage_missing}
use par2engine.Par2.Repair.Install.{File, contents_of}
use par2engine.Par2.Repair.Plan.{is_misplaced}
use par2engine.Par2.Scan.{
  new_state, init_loop, init_file_integrity, verify_protected_files_hashes, verify_file,
  verify_unsettled, verify_single_file_hash, detect_rename_candidate, verify_candidate,
  candidate_path,
}
use par2engine.Par2.Scan.Fresh.{AllFresh, all_locations, init_file_integrity-AllFresh}
use par2engine.Par2.Scan.Truth.{AllTrue, verify_protected_files_hashes-AllTrue}

abbrev good_file : FileDescPacket
good_file = record {
  file_id = replicate 16 1;
  hash = 7 ∷ [];
  sixteen_k_hash = [];
  byte_count = 6;
  filename = 97 ∷ [];
}

abbrev misnamed_file : FileDescPacket
misnamed_file = record {
  file_id = replicate 16 2;
  hash = 9 ∷ [];
  sixteen_k_hash = [];
  byte_count = 3;
  filename = 98 ∷ [];
}

abbrev files : List FileDescPacket
files = good_file ∷ misnamed_file ∷ []

initial : init_file_integrity 4 files ≡ ok (new_state good_file 2 ∷ new_state misnamed_file 1 ∷ [])
unfolding init_file_integrity init_loop
initial = refl

init_file_integrity-AllFresh_example :
    AllFresh 4 files (new_state good_file 2 ∷ new_state misnamed_file 1 ∷ [])
    × (all_locations (new_state good_file 2 ∷ new_state misnamed_file 1 ∷ []) ≤ 32768)
init_file_integrity-AllFresh_example =
    init_file_integrity-AllFresh 4 files (new_state good_file 2 ∷ new_state misnamed_file 1 ∷ [])
      initial

-- The second file is under another name, that of a candidate.
abbrev disk : List File
disk =
    record { name = 97 ∷ []; contents = 7 ∷ 7 ∷ 7 ∷ 7 ∷ 7 ∷ 7 ∷ [] }
    ∷ record { name = 99 ∷ []; contents = 9 ∷ 8 ∷ 7 ∷ [] }
    ∷ []

abbrev scanned : List FileIntegrityState
scanned =
    record (new_state good_file 2) {
      shard_locations =
          record { file_id = replicate 16 1; offset = some 0 }
          ∷ record { file_id = replicate 16 1; offset = some 4 }
          ∷ [];
    }
    ∷ record (new_state misnamed_file 1) {
      damage = damage_missing;
      shard_locations = record { file_id = replicate 16 3; offset = some 0 } ∷ [];
    }
    ∷ []

abbrev first_byte : List ℕ → List ℕ
first_byte bs = take 1 bs

abbrev no_failure : List ℕ → Bool
no_failure name = false

abbrev candidates : List (List ℕ × List ℕ)
candidates = (replicate 16 3, 99 ∷ []) ∷ []

verified :
    verify_protected_files_hashes first_byte no_failure disk 4 candidates files scanned
    ≡ record (new_state good_file 2) {
      damage = damage_none;
      shard_locations =
          record { file_id = replicate 16 1; offset = some 0 }
          ∷ record { file_id = replicate 16 1; offset = some 4 }
          ∷ [];
    }
      ∷ record (new_state misnamed_file 1) {
        damage = damage_missing;
        rename_source = 99 ∷ [];
        shard_locations = record { file_id = replicate 16 3; offset = some 0 } ∷ [];
      }
      ∷ []
unfolding verify_protected_files_hashes verify_file verify_unsettled verify_single_file_hash
    detect_rename_candidate verify_candidate candidate_path is_misplaced eq_bytes contents_of
verified = refl

verify_protected_files_hashes-AllTrue_example :
    AllTrue first_byte no_failure disk files
      (verify_protected_files_hashes first_byte no_failure disk 4 candidates files scanned)
verify_protected_files_hashes-AllTrue_example =
    verify_protected_files_hashes-AllTrue first_byte no_failure disk 4 candidates files scanned
      (tt, inl refl, (tt, inl refl, tt))
