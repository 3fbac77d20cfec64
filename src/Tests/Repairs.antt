-- ===== src/Tests/Repairs.antt =====
-- par2: the plan of a repair and the installation of its files at concrete inputs.
use par2engine.Base.{
  ℕ, ◌≡◌, ◌⊎◌, refl, arith, List, [], ◌∷◌, replicate, take, get_elem?, none, some, ok, false,
}
use par2engine.Par2.Names.{eq_bytes}
use par2engine.Par2.FileDesc.{FileDescPacket}
use par2engine.Par2.Counts.{
  damage_none, damage_missing, shard_counts, count_files, count_file, needs_rebuild,
  count_locations,
}
use par2engine.Par2.Repair.{compute_chunk_size}
use par2engine.Par2.Repair.Plan.{
  Setting, RepairPlan, plan_repair, validate_parity_shards, total_locations, state_of,
  build_flat_locs, build_needs_write, flatten_locations, build_file_id_to_filename_map, put_files,
  put_candidates, filename_of, is_misplaced, max_exponent,
}
use par2engine.Par2.Repair.Safe.{IsPlan, plan_repair-IsPlan}
use par2engine.Par2.Repair.Install.{
  File, Failures, InstallError, contents_of, rebuilt_files, install, prepare_install, check_outputs,
  finish_rebuilt_files, finish_rebuilt_file, close_outputs, rename_files, prepare_rename,
}
use par2engine.Par2.Repair.Verified.{SomeVerified, install-safe, install-mismatch}

abbrev first_file : FileDescPacket
first_file = record {
  file_id = replicate 16 1;
  hash = 7 ∷ [];
  sixteen_k_hash = [];
  byte_count = 6;
  filename = 97 ∷ [];
}

abbrev second_file : FileDescPacket
second_file = record {
  file_id = replicate 16 2;
  hash = 9 ∷ [];
  sixteen_k_hash = [];
  byte_count = 3;
  filename = 98 ∷ [];
}

-- The first file is in place; the second one is gone.
abbrev setting : Setting
setting = record {
  memory_limit = 1000;
  slice_byte_count = 4;
  protected_files = first_file ∷ second_file ∷ [];
  candidate_files = [];
  file_integrity =
      record {
        file_id = replicate 16 1;
        filename = 97 ∷ [];
        damage = damage_none;
        rename_source = [];
        shard_locations =
            record { file_id = replicate 16 1; offset = some 0 }
            ∷ record { file_id = replicate 16 1; offset = some 4 }
            ∷ [];
      }
      ∷ record {
        file_id = replicate 16 2;
        filename = 98 ∷ [];
        damage = damage_missing;
        rename_source = [];
        shard_locations = record { file_id = []; offset = none } ∷ [];
      }
      ∷ [];
  parity_shards = record { exponent = 2; parity = 1 ∷ 2 ∷ 3 ∷ 4 ∷ [] } ∷ [];
}

abbrev plan : RepairPlan
plan = record {
  counts = record {
    usable_data = 2;
    unusable_data = 1;
    usable_parity = 1;
    unusable_parity = 0;
    renames_needed = 0;
    files_needing_rebuild = 1;
  };
  total_data_shards = 3;
  total_parity_shards = 3;
  chunk_size = 16;
  num_chunks = 1;
  flat_locs =
      record {
        target_file_id = replicate 16 1;
        target_filename = 97 ∷ [];
        shard_index = 0;
        source_file_id = replicate 16 1;
        source_filename = 97 ∷ [];
        disk_offset = some 0;
      }
      ∷ record {
        target_file_id = replicate 16 1;
        target_filename = 97 ∷ [];
        shard_index = 1;
        source_file_id = replicate 16 1;
        source_filename = 97 ∷ [];
        disk_offset = some 4;
      }
      ∷ record {
        target_file_id = replicate 16 2;
        target_filename = 98 ∷ [];
        shard_index = 0;
        source_file_id = [];
        source_filename = [];
        disk_offset = none;
      }
      ∷ [];
  needs_write = (98 ∷ []) ∷ [];
  files_renamed = 0;
}

planned : plan_repair setting 0 ≡ ok plan
unfolding plan_repair validate_parity_shards total_locations state_of eq_bytes compute_chunk_size
    shard_counts count_files count_file needs_rebuild count_locations build_flat_locs
    build_needs_write flatten_locations build_file_id_to_filename_map put_files put_candidates
    filename_of is_misplaced max_exponent
planned = refl

plan_repair-IsPlan_example : IsPlan setting plan
plan_repair-IsPlan_example = plan_repair-IsPlan setting 0 plan planned

-- An operating system on which nothing fails, and a hash that is the first byte.
abbrev sound : Failures
sound = record {
  truncate_fails = λ name. false;
  sync_fails = λ name. false;
  read_fails = λ name. false;
  close_fails = λ name. false;
  stat_fails = λ name. false;
  chmod_fails = λ name. false;
  rename_fails = λ name. false;
}

abbrev first_byte : List ℕ → List ℕ
first_byte bs = take 1 bs

abbrev outputs : List File
outputs = record { name = 98 ∷ []; contents = 9 ∷ 8 ∷ 7 ∷ 0 ∷ [] } ∷ []

abbrev broken_outputs : List File
broken_outputs = record { name = 98 ∷ []; contents = 1 ∷ 8 ∷ 7 ∷ 0 ∷ [] } ∷ []

abbrev disk : List File
disk = record { name = 97 ∷ []; contents = 7 ∷ 7 ∷ 7 ∷ 7 ∷ 7 ∷ 7 ∷ [] } ∷ []

install-safe_example :
    (contents_of
        (install sound first_byte plan.needs_write setting.protected_files outputs disk).disk
        (98 ∷ [])
      ≡ contents_of disk (98 ∷ []))
    ⊎ SomeVerified first_byte setting.protected_files (98 ∷ []) (
        contents_of
          (install sound first_byte plan.needs_write setting.protected_files outputs disk).disk
          (98 ∷ []))
install-safe_example =
    install-safe sound first_byte plan.needs_write setting.protected_files outputs disk (98 ∷ [])

-- The second file is put in its place.
installed :
    contents_of
      (install sound first_byte plan.needs_write setting.protected_files outputs disk).disk
      (98 ∷ [])
    ≡ some (9 ∷ 8 ∷ 7 ∷ [])
unfolding install prepare_install check_outputs contents_of eq_bytes rebuilt_files
    finish_rebuilt_files finish_rebuilt_file close_outputs rename_files prepare_rename
installed = refl

rebuilt_second :
    get_elem? (rebuilt_files setting.protected_files broken_outputs) 0
    ≡ some (second_file, 1 ∷ 8 ∷ 7 ∷ 0 ∷ [])
unfolding rebuilt_files contents_of eq_bytes
rebuilt_second = refl

install-mismatch_example :
    (e : InstallError) × (install sound first_byte plan.needs_write setting.protected_files
        broken_outputs disk
      ≡ record { disk = disk; error = some e })
install-mismatch_example =
    install-mismatch sound first_byte plan.needs_write setting.protected_files broken_outputs disk 0
      second_file (1 ∷ 8 ∷ 7 ∷ 0 ∷ []) rebuilt_second (λ e. absurd (ground (arith, e)))
