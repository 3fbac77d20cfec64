-- ===== src/Par2/Repair/Chunks.antt =====
-- The chunks stay within the memory limit.
use par2engine.Base.{
  ℕ, ◌+◌, ◌*◌, ◌/◌, ◌%◌, ◌≤◌, ◌<◌, ◌==◌, ◌≡◌, ◌⊎◌, inl, inr, false, min, max, ok, arith,
}
use par2engine.Par2.Repair.{compute_chunk_size}

times_quotient : (m n k : ℕ) → 0 < n → k ≤ m / n → k * n ≤ m
times_quotient m n k h l = grind arith

chunk_cases :
    (quotient slice : ℕ)
    → (max (min quotient slice / 16 * 16) 16 ≡ 16)
      ⊎ ((max (min quotient slice / 16 * 16) 16 ≤ quotient)
          × (max (min quotient slice / 16 * 16) 16 ≤ slice))
chunk_cases quotient slice = ground arith

-- For at least one shard `computeChunkSize` returns a size, which is a multiple of 16 and 16 at
-- least; it is 16, or the chunks of all shards together fit the memory limit and one is no larger
-- than a slice.
pub compute_chunk_size-fits :
    (limit slice total unusable : ℕ)
    → 0 < total + unusable
    → (size : ℕ) × (compute_chunk_size limit slice total unusable ≡ ok size)
      × (size % 16 ≡ 0)
      × (16 ≤ size)
      × ((size ≡ 16) ⊎ ((size * (total + unusable) ≤ limit) × (size ≤ slice)))
unfolding compute_chunk_size
compute_chunk_size-fits limit slice total unusable h =
    let n = total + unusable in
    let quotient = limit / n in
    let size = max (min quotient slice / 16 * 16) 16 in
    let nonzero : (n == 0) ≡ false = ground arith in
    (
      size,
      rw nonzero,
      omega arith,
      omega arith,
      elim (chunk_cases quotient slice) [
        | inl least ↦ inl least
        | inr fits ↦ inr (times_quotient limit n size h fits.0, fits.1)
      ],
    )
