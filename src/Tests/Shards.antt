-- ===== src/Tests/Shards.antt =====
-- rs and the counts of par2 at concrete inputs.
use par2engine.Base.{
  ℕ, ◌%◌, ◌≤◌, ◌<◌, ◌≡◌, ◌↔◌, refl, arith, max, List, [], ◌∷◌, length, replicate, Option, none,
  some, ok, false, ◌+◌, ◌*◌, ◌⊎◌,
}
use par2engine.Par2.Counts.{
  FileIntegrityState, damage_none, damage_missing, shard_counts, repair_needed,
}
use par2engine.Par2.Counts.Intact.{AllIntact, repair_needed_iff}
use par2engine.Par2.Repair.{compute_chunk_size}
use par2engine.Par2.Repair.Chunks.{compute_chunk_size-fits}
use par2engine.Rs.Split.{
  min_split_bytes, split_for_block, goroutine_count, goroutine_slices, goroutine_slices-cover,
}
use par2engine.Rs.Shards.{
  Analysis, analyze_shards, scan_data, present, IsAnalysis, analyze_shards-IsAnalysis,
}
use par2engine.Rs.Lengths.{
  check_shard, check_shards, validate_shard_lengths, validate_reconstruct_inputs, AllLength,
  validate_reconstruct_inputs-AllLength,
}

abbrev bytes : List ℕ
bytes = replicate 200 3

goroutine_slices-cover_example :
    (goroutine_slices
        (goroutine_count (length bytes) (split_for_block (length bytes) 3 64))
        (split_for_block (length bytes) 3 64)
        0
        bytes
      ≡ bytes)
    × (goroutine_count (length bytes) (split_for_block (length bytes) 3 64) ≤ 3)
    × (split_for_block (length bytes) 3 64 % max 64 min_split_bytes ≡ 0)
goroutine_slices-cover_example = goroutine_slices-cover 3 64 bytes (omega arith)

-- One data shard of two is missing, and the second parity shard is there.
abbrev damaged : List (Option (List ℕ))
damaged = some (1 ∷ 2 ∷ []) ∷ none ∷ []

abbrev parity : List (Option (List ℕ))
parity = none ∷ some (3 ∷ 4 ∷ []) ∷ []

one_missing : 0 < length (scan_data 0 damaged).missing_rows
unfolding scan_data
one_missing = omega arith

one_present : length (scan_data 0 damaged).missing_rows ≤ present parity
unfolding scan_data present
one_present = omega arith

analyze_shards-IsAnalysis_example :
    (a : Analysis) × (analyze_shards (length damaged) damaged parity ≡ ok a)
    × IsAnalysis damaged parity a
analyze_shards-IsAnalysis_example = analyze_shards-IsAnalysis damaged parity one_missing one_present

lengths_checked : validate_reconstruct_inputs 2 5 damaged parity ≡ ok (some 2)
unfolding validate_reconstruct_inputs validate_shard_lengths check_shards check_shard
lengths_checked = refl

validate_reconstruct_inputs-AllLength_example :
    (length damaged ≡ 2)
    × (length parity ≤ 5)
    × AllLength (some 2) damaged
    × AllLength (some 2) parity
validate_reconstruct_inputs-AllLength_example =
    validate_reconstruct_inputs-AllLength 2 5 damaged parity (some 2) lengths_checked

abbrev states : List FileIntegrityState
states =
    record {
      file_id = replicate 16 1;
      filename = 97 ∷ [];
      damage = damage_none;
      rename_source = [];
      shard_locations =
          record { file_id = replicate 16 1; offset = some 0 }
          ∷ record { file_id = replicate 16 1; offset = some 4 }
          ∷ [];
    }
    ∷ record {
      file_id = replicate 16 2;
      filename = 98 ∷ [];
      damage = damage_missing;
      rename_source = [];
      shard_locations = record { file_id = []; offset = none } ∷ [];
    }
    ∷ []

repair_needed_iff_example : (repair_needed (shard_counts 1 states) ≡ false) ↔ AllIntact states
repair_needed_iff_example = repair_needed_iff 1 states

compute_chunk_size-fits_example :
    (size : ℕ) × (compute_chunk_size 1000 64 4 1 ≡ ok size)
    × (size % 16 ≡ 0)
    × (16 ≤ size)
    × ((size ≡ 16) ⊎ ((size * (4 + 1) ≤ 1000) × (size ≤ 64)))
compute_chunk_size-fits_example = compute_chunk_size-fits 1000 64 4 1 (omega arith)
