-- ===== src/Rs/Matrix/Inverse.antt =====
-- What `RowReduceForInverse` returns.
use par2engine.Base.{
  ℕ, ◌*◌, ◌<◌, ◌==◌, not, ◌||◌, ◌≡◌, refl, sym, subst, ◌∙◌, ◌⊎◌, arith, inl, inr, false, ok, err,
  length,
}
use par2engine.Gf16.Field.{FieldOps, IsFieldOps}
use par2engine.Rs.Matrix.{
  Matrix, singular_matrix, pair, entry, row_reduce_for_inverse, clone, new_matrix_from_slice,
}
use par2engine.Rs.Matrix.Entries.{IsMatrix, entry-lt}
use par2engine.Rs.Matrix.Dot.{unit_row, dot_congr, dot-unit_row}
use par2engine.Rs.Matrix.Follows.{IsSingular, IsPair, IsColumn, Solves, Kills, row_dot}
use par2engine.Rs.Matrix.Solve.{row_reduce_pair_lem}

-- A unit matrix gives a column back.
unit_dot :
    (m : Matrix) (x : ℕ → ℕ) (i : ℕ)
    → m.cols ≡ m.rows
    → ((r c : ℕ) → c < m.rows → r < m.rows → entry m r c ≡ unit_row r c)
    → IsColumn x
    → i < m.rows
    → row_dot m i x ≡ x i
unit_dot m x i square unit column h =
    dot_congr m.cols (λ j. entry m i j) (unit_row i) x x
      (λ j l. unit i j (subst (λ (n : ℕ). j < n) square l) h) (λ j l. refl)
    ∙ dot-unit_row m.cols i x (subst (λ (n : ℕ). i < n) (sym square) h) (λ j l. column j)

-- The columns of the result solve the system with the columns of `n`, and no column but zeros is taken
-- to zeros, so they are the only solutions.
pub record IsSolution (m n result : Matrix) : Type 0 where
  pub valid : IsMatrix result
  pub rows_same : result.rows ≡ m.rows
  pub cols_same : result.cols ≡ n.cols
  pub solves : (c : ℕ) → c < n.cols → Solves m n c (λ j. entry result j c)
  pub injective : (x : ℕ → ℕ) → IsColumn x → Kills m x → (j : ℕ) → j < m.rows → x j ≡ 0

pub clone_lem : (m : Matrix) → IsMatrix m → 0 < m.rows → 0 < m.cols → clone m ≡ ok m
unfolding clone new_matrix_from_slice
clone_lem m valid h l = rw (dims, size)
  where
    dims : (m.rows == 0 || m.cols == 0) ≡ false
    dims = ground arith

    size : not (length m.elements == m.rows * m.cols) ≡ false
    size = ground (arith, valid.size)

module _ (f : FieldOps) (laws : IsFieldOps f) where
  -- For a square matrix with a row and a matrix of as many rows with a column, both of field
  -- elements, and operations of gf16 that keep their contract, `RowReduceForInverse` returns the
  -- error that the matrix is singular, and the square matrix takes some column that is not all
  -- zeros to zeros; or it returns a well-formed result that solves the system in each column, and
  -- the square matrix takes no column but the zeros to zeros, so that the solution is the only one.
  pub row_reduce_for_inverse_lem :
      (m n : Matrix)
      → IsPair (pair m n)
      → 0 < m.rows
      → 0 < n.cols
      → ((row_reduce_for_inverse f m n ≡ err singular_matrix) × IsSingular m)
        ⊎ ((result : Matrix) × (row_reduce_for_inverse f m n ≡ ok result) × IsSolution m n result)
  unfolding row_reduce_for_inverse
  row_reduce_for_inverse_lem m n valid h l =
      let square : not (m.rows == m.cols) ≡ false = ground (arith, valid.square) in
      let fit : not (n.rows == m.rows) ≡ false = ground (arith, valid.rows_fit) in
      let clone_n = clone_lem n valid.right_valid (omega (arith, valid.rows_fit)) l in
      let clone_m = clone_lem m valid.left_valid h (omega (arith, valid.square)) in
      elim (row_reduce_pair_lem f laws (pair m n) valid) [
        | inl (failed, singular) ↦ inl (rw (square, fit, clone_n, clone_m, failed), singular)
        | inr (q, run, follows, unit) ↦
            let done = follows.valid in
            inr (
              q.right,
              rw (square, fit, clone_n, clone_m, run),
              record {
                valid = done.right_valid;
                rows_same = done.rows_fit ∙ follows.rows_same;
                cols_same = follows.cols_same;
                solves = λ c lt.
                    let x = λ (j : ℕ). entry q.right j c in
                    let column = λ (j : ℕ). entry-lt q.right j c done.right_valid in
                    follows.back c x lt column
                      (λ i k. unit_dot q.left x i done.square unit column k);
                injective = λ x column zeros j k.
                    let k' = subst (λ (t : ℕ). j < t) (sym follows.rows_same) k in
                    sym (unit_dot q.left x j done.square unit column k')
                    ∙ follows.kills x column zeros j k';
              },
            )
      ]
