-- ===== src/Par2/Repair.antt =====
-- par2/repair.go: the size of the chunks that the shards are rebuilt in. Counts of shards are not
-- negative, and their sum and the sizes are below 2^63.
pub mod Chunks
pub mod Plan
pub mod Safe
pub mod Install
pub mod Verified
use par2engine.Base.{ℕ, ◌+◌, ◌*◌, ◌/◌, ◌==◌, min, max, if◌then◌else◌, Result, ok, err}

pub data RepairError : Type 0 where
  invalid_shard_configuration wrong_parity_length nil_state : RepairError

-- `computeChunkSize`, with the memory limit and the slice size of the decoder.
unfoldable pub compute_chunk_size : ℕ → ℕ → ℕ → ℕ → Result RepairError ℕ
compute_chunk_size memory_limit slice_byte_count total_data_shards unusable_data_shards =
    let denom = total_data_shards + unusable_data_shards in
    if denom == 0
    then err invalid_shard_configuration
    else ok (max (min (memory_limit / denom) slice_byte_count / 16 * 16) 16)
