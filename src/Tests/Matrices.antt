-- ===== src/Tests/Matrices.antt =====
-- rs: the reduction of matrices, the coder and the reconstruction at concrete inputs.
use par2engine.Base.{
  ℕ, zero, suc, ◌^◌, ◌≤◌, ◌<◌, ◌≡◌, ◌⊎◌, refl, arith, List, [], ◌∷◌, map, length, get_or, Option,
  none, some, ok, err,
}
use par2engine.Gf16.Poly.{order}
use par2engine.Gf16.Field.{FieldOps, IsFieldOps, field_ops, field_ops-IsFieldOps}
use par2engine.Gf16.Tables.Ops.{repeated}
use par2engine.Rs.Shards.{gather, scan_data, present}
use par2engine.Rs.Matrix.{Matrix, pair, entry, singular_matrix, row_reduce_for_inverse}
use par2engine.Rs.Matrix.Entries.{IsMatrix}
use par2engine.Rs.Matrix.Dot.{unit_row, dot}
use par2engine.Rs.Matrix.Follows.{IsSingular, IsPair, row_dot}
use par2engine.Rs.Matrix.Inverse.{IsSolution, row_reduce_for_inverse_lem}
use par2engine.Rs.Matrix.Identity.{inverse_matrix, inverse_matrix_lem}
use par2engine.Rs.Coder.{Coder, matrix_error, reconstruct, generators_from, new_coder}
use par2engine.Rs.Coder.Apply.{word, AllSlices}
use par2engine.Rs.Coder.Parts.{IsCoder, IsParity, elements}
use par2engine.Rs.Coder.Reconstruct.{reconstruct_lem}
use par2engine.Rs.Coder.Vandermonde.{new_coder_lem, some_generator}
use par2engine.Gf16.Poly.Laws.{one-times_poly}
use par2engine.Rs.Coder.Generators.{IsGenerators}
use par2engine.Rs.Coder.Flat.{InField}
use par2engine.Rs.Coder.System.{AllLess, left_matrix}
use par2engine.Tests.Field.{tables, holds, cpu, cpu-IsCpu}

abbrev ops : FieldOps
ops = field_ops cpu tables

ops-IsFieldOps : IsFieldOps ops
ops-IsFieldOps = field_ops-IsFieldOps cpu tables cpu-IsCpu holds

-- A matrix whose first pivot is found in its second row.
abbrev swapped : Matrix
swapped = record { rows = 2; cols = 2; elements = 0 ∷ 7 ∷ 3 ∷ 5 ∷ [] }

abbrev right_side : Matrix
right_side = record { rows = 2; cols = 1; elements = 9 ∷ 300 ∷ [] }

all_small : (ts : List ℕ) → AllLess order ts → InField ts
all_small [] h k = omega arith
all_small (t ∷ ts) h zero = h.0
all_small (t ∷ ts) h (suc k) = all_small ts h.1 k

small : InField (0 ∷ 7 ∷ 3 ∷ 5 ∷ [])
small =
    all_small (0 ∷ 7 ∷ 3 ∷ 5 ∷ []) (omega arith, (omega arith, (omega arith, (omega arith, tt))))

swapped-IsMatrix : IsMatrix swapped
swapped-IsMatrix = record { size = refl; in_field = small }

small_right : InField (9 ∷ 300 ∷ [])
small_right = all_small (9 ∷ 300 ∷ []) (omega arith, (omega arith, tt))

system-IsPair : IsPair (pair swapped right_side)
system-IsPair = record {
  left_valid = swapped-IsMatrix;
  right_valid = record { size = refl; in_field = small_right };
  square = refl;
  rows_fit = refl;
}

row_reduce_for_inverse_lem_example :
    ((row_reduce_for_inverse ops swapped right_side ≡ err singular_matrix) × IsSingular swapped)
    ⊎ ((result : Matrix) × (row_reduce_for_inverse ops swapped right_side ≡ ok result)
        × IsSolution swapped right_side result)
row_reduce_for_inverse_lem_example =
    row_reduce_for_inverse_lem ops ops-IsFieldOps swapped right_side system-IsPair (omega arith)
      (omega arith)

inverse_matrix_lem_example :
    ((inverse_matrix ops swapped ≡ err singular_matrix) × IsSingular swapped)
    ⊎ ((result : Matrix) × (inverse_matrix ops swapped ≡ ok result)
        × ((i c : ℕ) → i < 2 → c < 2 → row_dot swapped i (λ j. entry result j c) ≡ unit_row i c))
inverse_matrix_lem_example =
    inverse_matrix_lem ops ops-IsFieldOps swapped swapped-IsMatrix refl (omega arith)

new_coder_lem_example :
    (coder : Coder) × (new_coder ops 1 3 ≡ ok coder)
    × IsCoder coder
    × (coder.data_shards ≡ 1)
    × (coder.parity_shards ≡ 3)
    × ((i j : ℕ)
        → i < 3
        → j < 1
        → entry coder.parity_matrix i j ≡ repeated (get_or (generators_from ops (2 ^ 16) 0) j 0) i)
    × IsGenerators (2 ^ 16) 0 (generators_from ops (2 ^ 16) 0)
new_coder_lem_example =
    new_coder_lem ops ops-IsFieldOps 1 3 (omega arith) (omega arith) (some_generator ops 65534)
      (omega arith)

-- Two data shards, the second of them missing, and the first of two parity shards.
abbrev coder : Coder
coder = record {
  data_shards = 2;
  parity_shards = 2;
  parity_matrix = record { rows = 2; cols = 2; elements = 1 ∷ 1 ∷ 2 ∷ 4 ∷ [] };
}

small_parity : InField (1 ∷ 1 ∷ 2 ∷ 4 ∷ [])
small_parity =
    all_small (1 ∷ 1 ∷ 2 ∷ 4 ∷ []) (omega arith, (omega arith, (omega arith, (omega arith, tt))))

coder-IsCoder : IsCoder coder
coder-IsCoder = record {
  valid = record { size = refl; in_field = small_parity };
  rows_fit = refl;
  cols_fit = refl;
}

abbrev truth : List (List ℕ)
truth = (1 ∷ 2 ∷ []) ∷ (3 ∷ 4 ∷ []) ∷ []

abbrev damaged : List (Option (List ℕ))
damaged = some (1 ∷ 2 ∷ []) ∷ none ∷ []

abbrev parity : List (Option (List ℕ))
parity = some (2 ∷ 6 ∷ []) ∷ none ∷ []

truth-AllSlices : AllSlices 2 truth
truth-AllSlices =
    ((omega arith, (omega arith, tt)), refl, ((omega arith, (omega arith, tt)), refl, tt))

parity_word :
    (w : ℕ)
    → w < 1
    → word (2 ∷ 6 ∷ []) w
      ≡ dot 2 (λ j. entry coder.parity_matrix 0 j) (λ j. get_or (elements truth w) j 0)
unfolding dot
parity_word zero h = rw (one-times_poly 513 (omega arith), one-times_poly 1027 (omega arith)) refl
parity_word (suc w) h = absurd (omega arith)

parity-IsParity : IsParity coder.parity_matrix truth 2 0 parity
parity-IsParity = (((omega arith, (omega arith, tt)), refl, parity_word), tt)

enough : length (scan_data 0 damaged).missing_rows ≤ present parity
unfolding scan_data present
enough = omega arith

reconstruct_lem_example :
    ((reconstruct ops 3 64 coder damaged parity ≡ err (matrix_error singular_matrix))
      × IsSingular (left_matrix coder.parity_matrix (1 ∷ []) (0 ∷ [])))
    ⊎ (reconstruct ops 3 64 coder damaged parity ≡ ok (map some truth))
unfolding scan_data gather
reconstruct_lem_example =
    reconstruct_lem ops ops-IsFieldOps 3 64 (omega arith) refl coder coder-IsCoder truth damaged
      parity 2 refl truth-AllSlices (refl, tt) refl (omega arith) parity-IsParity enough
