-- ===== src/Rs/Coder.antt =====
-- rs/rs.go: the coder, the application of a matrix to slices of bytes, and the reconstruction of the
-- data shards that are missing. The context is taken not to be cancelled.
pub mod Apply
pub mod Ranges
pub mod Sums
pub mod Rows
pub mod Flat
pub mod Parts
pub mod System
pub mod Solution
pub mod Setting
pub mod Reconstruct
pub mod Generators
pub mod Vandermonde
use par2engine.Base.{
  ℕ, zero, suc, ◌-◌, ◌%◌, ◌^◌, ◌==◌, ltb, if◌then◌else◌, not, ◌||◌, List, [], ◌∷◌, ◌++◌, map, take,
  length, set, replicate, Option, none, some, Result, ok, err, ◌>>=◌, ◌>>◌, refuse,
}
use par2engine.Gf16.Field.{FieldOps}
use par2engine.Rs.Matrix.{
  Matrix, MatrixError, check_dims, too_few_generators, at, from_slice, row_reduce_for_inverse,
}
use par2engine.Rs.Shards.{ShardError, analyze_shards}
use par2engine.Rs.Lengths.{validate_reconstruct_inputs}
use par2engine.Rs.Split.{split_for_block, goroutine_count, goroutine_slice}

-- The rows of a matrix, one behind the other.
unfoldable pub flat : List (List ℕ) → List ℕ
flat [] = []
flat (r ∷ rs) = r ++ flat rs

-- The rows of a Vandermonde matrix from the exponent `i` on.
unfoldable pub vandermonde_rows : FieldOps → ℕ → ℕ → List ℕ → List (List ℕ)
vandermonde_rows f zero i generators = []
vandermonde_rows f (suc rounds) i generators =
    map (λ g. f.power_of g i) generators ∷ vandermonde_rows f rounds (suc i) generators

-- `NewVandermondeMatrix`
unfoldable pub new_vandermonde_matrix : FieldOps → ℕ → ℕ → List ℕ → Result MatrixError Matrix
new_vandermonde_matrix f rows cols generators = do
  check_dims rows cols
  refuse (ltb (length generators) cols) too_few_generators
  ok (record {
    rows = rows;
    cols = cols;
    elements = flat (vandermonde_rows f rows 0 (take cols generators));
  })

-- `initGenerators`, from the exponent `i` on.
unfoldable pub generators_from : FieldOps → ℕ → ℕ → List ℕ
generators_from f zero i = []
generators_from f (suc rounds) i =
    let rest = generators_from f rounds (suc i) in
    if i % 3 == 0 || i % 5 == 0 || i % 17 == 0 || i % 257 == 0 then rest else f.power_of 2 i ∷ rest

-- `Coder`
pub record Coder : Type 0 where
  pub data_shards : ℕ
  pub parity_shards : ℕ
  pub parity_matrix : Matrix

-- The errors of the coder.
pub data CoderError : Type 0 where
  invalid_shard_counts too_many_data_shards too_many_parity_shards mismatched_slices : CoderError
  matrix_error : MatrixError → CoderError
  shard_error : ShardError → CoderError

abbrev pub from_matrix : {A : Type 0} → Result MatrixError A → Result CoderError A
from_matrix (ok a) = ok a
from_matrix (err e) = err (matrix_error e)

abbrev pub from_shards : {A : Type 0} → Result ShardError A → Result CoderError A
from_shards (ok a) = ok a
from_shards (err e) = err (shard_error e)

-- `NewCoderPAR2Vandermonde`
unfoldable pub new_coder : FieldOps → ℕ → ℕ → Result CoderError Coder
new_coder f data_shards parity_shards =
    let generators = generators_from f (2 ^ 16) 0 in
    refuse (data_shards == 0 || parity_shards == 0) invalid_shard_counts
    >> (refuse (ltb (length generators) data_shards) too_many_data_shards
        >> (refuse (ltb (2 ^ 16 - 1) parity_shards) too_many_parity_shards
            >> (from_matrix (new_vandermonde_matrix f parity_shards data_shards generators) >>= λ m.
                ok (record {
                  data_shards = data_shards;
                  parity_shards = parity_shards;
                  parity_matrix = m;
                }))))

module _ (f : FieldOps) where
  -- The inner loop of `applyMatrixSlice`: the slices from the column `j` on are added to `out`.
  unfoldable pub add_columns : Matrix → ℕ → ℕ → List (List ℕ) → List ℕ → Result MatrixError (List ℕ)
  add_columns m i j [] out = ok out
  add_columns m i j (s ∷ ins) out = do
    c ← at m i j
    out' ← from_slice (f.mul_and_add_slice c s out)
    add_columns m i (suc j) ins out'

  -- The slice of `out` that the round `i` of `applyMatrixSlice` leaves. `in[0]` is there, since
  -- `applyMatrixParallelData` returns where there is no input.
  unfoldable pub apply_row : Matrix → ℕ → List (List ℕ) → List ℕ → Result MatrixError (List ℕ)
  apply_row m i [] out = ok out
  apply_row m i (s ∷ ins) out = do
    c ← at m i 0
    out' ← from_slice (f.mul_slice c s out)
    add_columns m i 1 ins out'

  -- The goroutines from `g` on, for one row; they write ranges that lie side by side.
  unfoldable pub apply_ranges :
      ℕ → ℕ → ℕ → Matrix → ℕ → List (List ℕ) → List ℕ → Result MatrixError (List ℕ)
  apply_ranges zero split g m i ins out = ok []
  apply_ranges (suc rounds) split g m i ins out = do
    here ← apply_row m i (map (goroutine_slice split g) ins) (goroutine_slice split g out)
    rest ← apply_ranges rounds split (suc g) m i ins out
    ok (here ++ rest)

  -- The rows from `i` on.
  unfoldable pub apply_rows :
      ℕ → ℕ → Matrix → ℕ → List (List ℕ) → List (List ℕ) → Result MatrixError (List (List ℕ))
  apply_rows count split m i ins [] = ok []
  apply_rows count split m i ins (out ∷ outs) = do
    out' ← apply_ranges count split 0 m i ins out
    outs' ← apply_rows count split m (suc i) ins outs
    ok (out' ∷ outs')

  -- `applyMatrixParallelData`, for at least one goroutine and with the block of the kernels; `out` has
  -- a slice for each row. One range is worked on without a goroutine, which is the same.
  unfoldable pub apply_matrix :
      ℕ → ℕ → Matrix → List (List ℕ) → List (List ℕ) → Result CoderError (List (List ℕ))
  apply_matrix num_goroutines block m [] outs = ok outs
  apply_matrix num_goroutines block m (s ∷ ins) [] = ok []
  apply_matrix num_goroutines block m (s ∷ ins) (out ∷ outs) =
      let split = split_for_block (length out) num_goroutines block in
      refuse (not (length s == length out)) mismatched_slices
      >> from_matrix
          (apply_rows (goroutine_count (length out) split) split m 0 (s ∷ ins) (out ∷ outs))

-- The elements of a row at some columns.
unfoldable pub at_all : Matrix → ℕ → List ℕ → Result MatrixError (List ℕ)
at_all m i [] = ok []
at_all m i (j ∷ js) = do t ← at m i j; ts ← at_all m i js; ok (t ∷ ts)

-- The unit part of a row, from the column `j` on.
unfoldable pub unit_part : ℕ → ℕ → ℕ → List ℕ
unit_part zero i j = []
unit_part (suc rounds) i j = (if i == j then 1 else 0) ∷ unit_part rounds i (suc j)

-- The rows of `m`, and those of `n` from the row `i` on.
unfoldable pub missing_part : Matrix → List ℕ → List ℕ → Result MatrixError (List (List ℕ))
missing_part parity missing [] = ok []
missing_part parity missing (k ∷ used) = do
  r ← at_all parity k missing
  rs ← missing_part parity missing used
  ok (r ∷ rs)

unfoldable pub known_part : Matrix → List ℕ → ℕ → ℕ → List ℕ → Result MatrixError (List (List ℕ))
known_part parity available pad i [] = ok []
known_part parity available pad i (k ∷ used) = do
  r ← at_all parity k available
  rs ← known_part parity available pad (suc i) used
  ok ((r ++ unit_part pad i 0) ∷ rs)

-- `makeReconstructionMatrix`
unfoldable pub make_reconstruction_matrix :
    FieldOps → ℕ → List ℕ → List ℕ → List ℕ → Matrix → Result MatrixError Matrix
make_reconstruction_matrix f data_shards available missing used parity = do
  check_dims (length used) (length used)
  ms ← missing_part parity (take (length used) missing) used
  check_dims (length used) data_shards
  ns ← known_part parity available (data_shards - length available) 0 used
  row_reduce_for_inverse f (record { rows = length used; cols = length used; elements = flat ms })
      (record { rows = length used; cols = data_shards; elements = flat ns })

-- `data[r] = reconstructedData[i]` for the rows in turn.
unfoldable pub restore : List (Option (List ℕ)) → List ℕ → List (List ℕ) → List (Option (List ℕ))
restore shards [] outs = shards
restore shards (r ∷ rows) [] = shards
restore shards (r ∷ rows) (out ∷ outs) = restore (set shards r (some out)) rows outs

-- The length -1 stands for no shard at all; then there is nothing to reconstruct from.
abbrev pub slice_length : Option ℕ → ℕ
slice_length none = 0
slice_length (some n) = n

-- `Reconstruct`
unfoldable pub reconstruct :
    FieldOps
    → ℕ
    → ℕ
    → Coder
    → List (Option (List ℕ))
    → List (Option (List ℕ))
    → Result CoderError (List (Option (List ℕ)))
reconstruct f num_goroutines block coder shards parity = do
  size ←
      from_shards (validate_reconstruct_inputs coder.data_shards coder.parity_shards shards parity)
  a ← from_shards (analyze_shards coder.data_shards shards parity)
  if length a.missing_rows == 0 then ok shards else (do
    m ← from_matrix (
        make_reconstruction_matrix f coder.data_shards a.available_rows a.missing_rows
          a.used_parity_rows coder.parity_matrix)
    outs ←
        apply_matrix f num_goroutines block m a.input
          (replicate (length a.missing_rows) (replicate (slice_length size) 0))
    ok (restore shards a.missing_rows outs))
