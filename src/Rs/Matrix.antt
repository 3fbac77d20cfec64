-- ===== src/Rs/Matrix.antt =====
-- rs/matrix.go: matrices of field elements, in row-major order, and their row reduction. A method that
-- changes a matrix returns the new one.
pub mod Entries
pub mod RowOps
pub mod Dot
pub mod Follows
pub mod Added
pub mod Clear
pub mod Pivot
pub mod Kernel
pub mod Solve
pub mod Inverse
pub mod Identity
use par2engine.Base.{
  ℕ, zero, suc, ◌+◌, ◌-◌, ◌*◌, ◌/◌, ◌%◌, ◌==◌, leb, if◌then◌else◌, not, ◌||◌, List, [], ◌∷◌, ◌++◌,
  take, drop, length, get_or, replicate, Result, ok, err, ◌>>=◌, ◌>>◌, refuse,
}
use par2engine.Gf16.Slice.Spec.{words}
use par2engine.Gf16.Field.{FieldOps}
use par2engine.Gf16.Slice
use par2engine.Gf16.Tables

-- `Matrix`
pub record Matrix : Type 0 where
  pub rows : ℕ
  pub cols : ℕ
  pub elements : List ℕ

-- The errors that are returned, and the panics.
pub data MatrixError : Type 0 where
  invalid_dimensions wrong_element_count too_few_generators singular_matrix : MatrixError
  not_square wrong_row_count row_out_of_bounds col_out_of_bounds : MatrixError
  slice_panic : Slice.Panic → MatrixError
  field_panic : Tables.Panic → MatrixError

-- A panic of gf16 goes on through rs.
abbrev pub from_slice : Result Slice.Panic (List ℕ) → Result MatrixError (List ℕ)
from_slice (ok bs) = ok bs
from_slice (err p) = err (slice_panic p)

abbrev pub from_field : Result Tables.Panic ℕ → Result MatrixError ℕ
from_field (ok t) = ok t
from_field (err p) = err (field_panic p)

-- `checkDims`
abbrev pub check_dims : ℕ → ℕ → Result MatrixError (Unit {0})
check_dims rows cols = refuse (rows == 0 || cols == 0) invalid_dimensions

-- `NewMatrix`
unfoldable pub new_matrix : ℕ → ℕ → Result MatrixError Matrix
new_matrix rows cols = do
  check_dims rows cols
  ok (record { rows = rows; cols = cols; elements = replicate (rows * cols) 0 })

-- `NewMatrixFromSlice`
unfoldable pub new_matrix_from_slice : ℕ → ℕ → List ℕ → Result MatrixError Matrix
new_matrix_from_slice rows cols elements = do
  check_dims rows cols
  refuse (not (length elements == rows * cols)) wrong_element_count
  ok (record { rows = rows; cols = cols; elements = elements })

-- The element at a row and a column, where both are in range.
abbrev pub entry : Matrix → ℕ → ℕ → ℕ
entry m i j = get_or m.elements (i * m.cols + j) 0

-- `At`
unfoldable pub at : Matrix → ℕ → ℕ → Result MatrixError ℕ
at m i j = do
  refuse (leb m.rows i) row_out_of_bounds
  refuse (leb m.cols j) col_out_of_bounds
  ok (entry m i j)

-- `Clone`
unfoldable pub clone : Matrix → Result MatrixError Matrix
clone m = new_matrix_from_slice m.rows m.cols m.elements

-- `row`
unfoldable pub row : Matrix → ℕ → Result MatrixError (List ℕ)
row m i = do
  refuse (leb m.rows i) row_out_of_bounds
  ok (take m.cols (drop (i * m.cols) m.elements))

-- The row that `row` aliases, written over.
abbrev pub put_row : Matrix → ℕ → List ℕ → Matrix
put_row m i ts = record m {
  elements = take (i * m.cols) m.elements ++ (ts ++ drop (i * m.cols + m.cols) m.elements);
}

-- `swapRows`; exchanging the elements one by one exchanges the rows.
unfoldable pub swap_rows : Matrix → ℕ → ℕ → Result MatrixError Matrix
swap_rows m i j =
    if i == j then ok m else (do r_i ← row m i; r_j ← row m j; ok (put_row (put_row m i r_j) j r_i))

-- `castTToByteSlice`, on a little-endian host.
unfoldable pub to_bytes : List ℕ → List ℕ
to_bytes [] = []
to_bytes (t ∷ ts) = t % 256 ∷ t / 256 ∷ to_bytes ts

module _ (f : FieldOps) where
  -- `scaleRow`
  unfoldable pub scale_row : Matrix → ℕ → ℕ → Result MatrixError Matrix
  scale_row m i c = do
    r ← row m i
    bytes ← from_slice (f.mul_slice c (to_bytes r) (to_bytes r))
    ok (put_row m i (words bytes))

  -- `addScaledRow`
  unfoldable pub add_scaled_row : Matrix → ℕ → ℕ → ℕ → Result MatrixError Matrix
  add_scaled_row m dest src c = do
    r_src ← row m src
    r_dest ← row m dest
    bytes ← from_slice (f.mul_and_add_slice c (to_bytes r_src) (to_bytes r_dest))
    ok (put_row m dest (words bytes))

-- The two matrices that a reduction works on, `m` and `n`.
pub record Pair : Type 0 where
  pub left : Matrix
  pub right : Matrix

abbrev pub pair : Matrix → Matrix → Pair
pair m n = record { left = m; right = n }

-- What the search for a pivot leaves; the pivot is 0 where there is none.
pub record Pivoted : Type 0 where
  pub matrices : Pair
  pub pivot : ℕ

-- `for j := i; j < m.rows; j++`, with the rounds that are left.
unfoldable pub pivot_loop : ℕ → ℕ → ℕ → Pair → Result MatrixError Pivoted
pivot_loop zero i j p = ok (record { matrices = p; pivot = 0 })
pivot_loop (suc rounds) i j p = at p.left j i >>= λ t.
    (let rest = pivot_loop rounds i (suc j) p in
      if t == 0 then rest else (do
        m ← swap_rows p.left i j
        n ← swap_rows p.right i j
        pivot ← at m i i
        ok (record { matrices = pair m n; pivot = pivot })))

module _ (f : FieldOps) where
  -- The body of both inner loops: row `i` is added to row `j`, as often as clears the element.
  unfoldable pub clear_entry : ℕ → ℕ → Pair → Result MatrixError Pair
  clear_entry i j p = at p.left j i >>= λ t.
      (if t == 0 then ok p else (do
        m ← add_scaled_row f p.left j i t
        n ← add_scaled_row f p.right j i t
        ok (pair m n)))

  -- The inner loops from the row `j` on, with the rounds that are left.
  unfoldable pub clear_loop : ℕ → ℕ → ℕ → Pair → Result MatrixError Pair
  clear_loop zero i j p = ok p
  clear_loop (suc rounds) i j p = clear_entry i j p >>= λ q. clear_loop rounds i (suc j) q

  -- The body of the loop over `i` in `convertToRowEchelonForm`.
  unfoldable pub echelon_step : ℕ → Pair → Result MatrixError Pair
  echelon_step i p = do
    found ← pivot_loop (p.left.rows - i) i i p
    refuse (found.pivot == 0) singular_matrix
    inv ← from_field (f.inverse_of found.pivot)
    m ← scale_row f found.matrices.left i inv
    n ← scale_row f found.matrices.right i inv
    clear_loop (p.left.rows - suc i) i (suc i) (pair m n)

  unfoldable pub echelon_loop : ℕ → ℕ → Pair → Result MatrixError Pair
  echelon_loop zero i p = ok p
  echelon_loop (suc rounds) i p = echelon_step i p >>= λ q. echelon_loop rounds (suc i) q

  -- `convertToRowEchelonForm`
  unfoldable pub convert_to_row_echelon_form : Pair → Result MatrixError Pair
  convert_to_row_echelon_form p = echelon_loop p.left.rows 0 p

  unfoldable pub reduced_loop : ℕ → ℕ → Pair → Result MatrixError Pair
  reduced_loop zero i p = ok p
  reduced_loop (suc rounds) i p = clear_loop i i 0 p >>= λ q. reduced_loop rounds (suc i) q

  -- `convertToReducedRowEchelonForm`
  unfoldable pub convert_to_reduced_row_echelon_form : Pair → Result MatrixError Pair
  convert_to_reduced_row_echelon_form p = reduced_loop p.left.rows 0 p

  -- `rowReduceForInverse`
  unfoldable pub row_reduce_pair : Pair → Result MatrixError Pair
  row_reduce_pair p = convert_to_row_echelon_form p >>= convert_to_reduced_row_echelon_form

  -- `RowReduceForInverse`
  unfoldable pub row_reduce_for_inverse : Matrix → Matrix → Result MatrixError Matrix
  row_reduce_for_inverse m n = do
    refuse (not (m.rows == m.cols)) not_square
    refuse (not (n.rows == m.rows)) wrong_row_count
    n_reduced ← clone n
    m_clone ← clone m
    p ← row_reduce_pair (pair m_clone n_reduced)
    ok p.right
