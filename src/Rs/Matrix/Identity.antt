-- ===== src/Rs/Matrix/Identity.antt =====
-- rs/matrix.go: the unit matrix, and the inverse of a matrix.
use par2engine.Base.{
  ℕ, zero, suc, ◌+◌, ◌*◌, ◌≤◌, ◌<◌, ◌==◌, ◌||◌, not, ◌≡◌, ◌≢◌, ◌⊎◌, inl, inr, refl, sym, subst, ap,
  ◌∙◌, arith, List, [], ◌∷◌, length, get_or, set, replicate, length-replicate, Result, ok, err,
  ◌>>=◌, ◌>>◌, refuse, true, false, Bool-cases, ==_iff,
}
use par2engine.Gf16.Poly.{order}
use par2engine.Gf16.Field.{FieldOps, IsFieldOps}
use par2engine.Rs.Matrix.{
  Matrix, MatrixError, pair, entry, check_dims, not_square, singular_matrix, clone, row_reduce_pair,
  row_reduce_for_inverse,
}
use par2engine.Rs.Matrix.Entries.{IsMatrix, row_end}
use par2engine.Rs.Matrix.Dot.{unit_row}
use par2engine.Rs.Matrix.Follows.{IsSingular, IsPair, row_dot}
use par2engine.Rs.Matrix.Inverse.{clone_lem, row_reduce_for_inverse_lem}

-- The loop of `NewIdentityMatrix`, from the row `i` on.
unfoldable pub diagonal_loop : ℕ → ℕ → ℕ → List ℕ → List ℕ
diagonal_loop zero n i els = els
diagonal_loop (suc rounds) n i els = diagonal_loop rounds n (suc i) (set els (i * n + i) 1)

-- `NewIdentityMatrix`
unfoldable pub new_identity_matrix : ℕ → Result MatrixError Matrix
new_identity_matrix n = do
  check_dims n n
  ok (record { rows = n; cols = n; elements = diagonal_loop n n 0 (replicate (n * n) 0) })

-- `Inverse`
unfoldable pub inverse_matrix : FieldOps → Matrix → Result MatrixError Matrix
inverse_matrix f m = do
  refuse (not (m.rows == m.cols)) not_square
  n ← new_identity_matrix m.cols
  m_clone ← clone m
  p ← row_reduce_pair f (pair m_clone n)
  ok p.right

length-set : (els : List ℕ) (k t : ℕ) → length (set els k t) ≡ length els
length-set [] k t = refl
length-set (x ∷ els) zero t = refl
length-set (x ∷ els) (suc k) t = ap suc (length-set els k t)

get_or-set_same : (els : List ℕ) (k t : ℕ) → k < length els → get_or (set els k t) k 0 ≡ t
get_or-set_same [] k t h = absurd (omega arith)
get_or-set_same (x ∷ els) zero t h = refl
get_or-set_same (x ∷ els) (suc k) t h = get_or-set_same els k t (omega arith)

get_or-set_other : (els : List ℕ) (k l t : ℕ) → k ≢ l → get_or (set els k t) l 0 ≡ get_or els l 0
get_or-set_other [] k l t h = refl
get_or-set_other (x ∷ els) zero zero t h = absurd (h refl)
get_or-set_other (x ∷ els) zero (suc l) t h = refl
get_or-set_other (x ∷ els) (suc k) zero t h = refl
get_or-set_other (x ∷ els) (suc k) (suc l) t h = get_or-set_other els k l t (λ e. h (ap suc e))

length-diagonal :
    (rounds n i : ℕ) (els : List ℕ) → length (diagonal_loop rounds n i els) ≡ length els
unfolding diagonal_loop
length-diagonal zero n i els = refl
length-diagonal (suc rounds) n i els =
    length-diagonal rounds n (suc i) (set els (i * n + i) 1) ∙ length-set els (i * n + i) 1

below : (n i j r c : ℕ) → j < n → i * n + j ≡ r * n + c → i < r → ⊥
below n i j r c h e l = omega (arith, row_end i r n l)

-- The places of a matrix differ.
place_unique : (n i j r c : ℕ) → j < n → c < n → i * n + j ≡ r * n + c → i ≡ r
place_unique n i j r c h k e =
    let no : i < r → ⊥ = λ l. below n i j r c h e l in
    let no' : r < i → ⊥ = λ l. below n r c i j k (sym e) l in omega arith

diagonal-off :
    (rounds n i r c : ℕ) (els : List ℕ)
    → i + rounds ≤ n
    → c < n
    → ((r ≢ c) ⊎ (r < i))
    → get_or (diagonal_loop rounds n i els) (r * n + c) 0 ≡ get_or els (r * n + c) 0
unfolding diagonal_loop
diagonal-off zero n i r c els room h k = refl
diagonal-off (suc rounds) n i r c els room h k =
    diagonal-off rounds n (suc i) r c (set els (i * n + i) 1) (omega arith) h
      (elim k [ inl ne ↦ inl ne | inr lt ↦ inr (omega arith) ])
    ∙ get_or-set_other els (i * n + i) (r * n + c) 1
        (λ e. apart (place_unique n i i r c (omega arith) h e) e k)
  where
    apart : i ≡ r → i * n + i ≡ r * n + c → ((r ≢ c) ⊎ (r < i)) → ⊥
    apart same e (inl ne) = ne (omega (arith, e, ap (λ (t : ℕ). t * n) same))
    apart same e (inr lt) = omega arith

diagonal-on :
    (rounds n i r : ℕ) (els : List ℕ)
    → i + rounds ≤ n
    → i ≤ r
    → r < i + rounds
    → length els ≡ n * n
    → get_or (diagonal_loop rounds n i els) (r * n + r) 0 ≡ 1
unfolding diagonal_loop
diagonal-on zero n i r els room h k l = absurd (omega arith)
diagonal-on (suc rounds) n i r els room h k l = elim (Bool-cases (i == r)) [
  | inl same ↦
      let e = (==_iff i r).0 same in
      diagonal-off rounds n (suc i) r r (set els (i * n + i) 1) (omega arith) (omega arith)
        (inr (omega arith))
      ∙ subst (λ (t : ℕ). get_or (set els (t * n + t) 1) (r * n + r) 0 ≡ 1) (sym e)
          (get_or-set_same els (r * n + r) 1 (omega (arith, l, row_end r n n (omega arith))))
  | inr other ↦
      diagonal-on rounds n (suc i) r (set els (i * n + i) 1) (omega arith) (ground (arith, other))
        (omega arith) (length-set els (i * n + i) 1 ∙ l)
]

-- The unit matrix.
abbrev identity_of : ℕ → Matrix
identity_of n = record { rows = n; cols = n; elements = diagonal_loop n n 0 (replicate (n * n) 0) }

zero_elements : (n k : ℕ) → get_or {A = ℕ} (replicate n 0) k 0 ≡ 0
zero_elements zero k = refl
zero_elements (suc n) zero = refl
zero_elements (suc n) (suc k) = zero_elements n k

identity-entry : (n i j : ℕ) → i < n → j < n → entry (identity_of n) i j ≡ unit_row i j
identity-entry n i j h l = elim (Bool-cases (j == i)) [
  | inl same ↦
      let e = (==_iff j i).0 same in
      subst (λ (t : ℕ). get_or (diagonal_loop n n 0 (replicate (n * n) 0)) (i * n + t) 0 ≡ 1)
        (sym e)
        (diagonal-on n n 0 i (replicate (n * n) 0) (omega arith) (omega arith) (omega arith)
          (length-replicate (n * n) 0))
      ∙ sym (yes same)
  | inr other ↦
      diagonal-off n n 0 i j (replicate (n * n) 0) (omega arith) l
        (inl (λ e. ground (arith, other, e)))
      ∙ zero_elements (n * n) (i * n + j)
      ∙ sym (no other)
]
  where
    yes : (j == i) ≡ true → unit_row i j ≡ 1
    yes same = rw same

    no : (j == i) ≡ false → unit_row i j ≡ 0
    no other = rw other

in_field_set :
    (els : List ℕ) (k : ℕ)
    → ((l : ℕ) → get_or els l 0 < order)
    → (l : ℕ) → get_or (set els k 1) l 0 < order
in_field_set [] k h l = h l
in_field_set (x ∷ els) zero h zero = omega arith
in_field_set (x ∷ els) zero h (suc l) = h (suc l)
in_field_set (x ∷ els) (suc k) h zero = h 0
in_field_set (x ∷ els) (suc k) h (suc l) = in_field_set els k (λ t. h (suc t)) l

diagonal-small :
    (rounds n i : ℕ) (els : List ℕ)
    → ((l : ℕ) → get_or els l 0 < order)
    → (l : ℕ) → get_or (diagonal_loop rounds n i els) l 0 < order
unfolding diagonal_loop
diagonal-small zero n i els h = h
diagonal-small (suc rounds) n i els h =
    diagonal-small rounds n (suc i) (set els (i * n + i) 1) (in_field_set els (i * n + i) h)

identity-IsMatrix : (n : ℕ) → IsMatrix (identity_of n)
identity-IsMatrix n = record {
  size = length-diagonal n n 0 (replicate (n * n) 0) ∙ length-replicate (n * n) 0;
  in_field =
      diagonal-small n n 0 (replicate (n * n) 0)
        (λ l. subst (λ (t : ℕ). t < order) (sym (zero_elements (n * n) l)) (omega arith));
}

module _ (f : FieldOps) (laws : IsFieldOps f) where
  -- For a square matrix of field elements with a row, and operations of gf16 that keep their
  -- contract, `Inverse` returns the error that the matrix is singular, and the matrix takes some
  -- column that is not all zeros to zeros; or it returns a matrix whose product with it is the unit
  -- matrix.
  pub inverse_matrix_lem :
      (m : Matrix)
      → IsMatrix m
      → m.cols ≡ m.rows
      → 0 < m.rows
      → ((inverse_matrix f m ≡ err singular_matrix) × IsSingular m)
        ⊎ ((result : Matrix) × (inverse_matrix f m ≡ ok result)
            × ((i c : ℕ)
                → i < m.rows
                → c < m.rows
                → row_dot m i (λ j. entry result j c) ≡ unit_row i c))
  unfolding inverse_matrix new_identity_matrix row_reduce_for_inverse
  inverse_matrix_lem m valid square some_row =
      let is_square : not (m.rows == m.cols) ≡ false = ground (arith, square) in
      let wide : (m.cols == 0 || m.cols == 0) ≡ false = ground (arith, square) in
      let fit : not (m.cols == m.rows) ≡ false = ground (arith, square) in
      let clone_m = clone_lem m valid some_row (omega arith) in
      let clone_n =
        clone_lem (identity_of m.cols) (identity-IsMatrix m.cols) (omega arith) (omega arith) in
      let same : inverse_matrix f m ≡ row_reduce_for_inverse f m (identity_of m.cols) =
        rw (is_square, wide, fit, clone_n, clone_m) in
      let fitting : IsPair (pair m (identity_of m.cols)) = record {
        left_valid = valid;
        right_valid = identity-IsMatrix m.cols;
        square = square;
        rows_fit = square;
      } in
      elim (row_reduce_for_inverse_lem f laws m (identity_of m.cols) fitting some_row
        (omega arith)) [
          | inl (failed, singular) ↦ inl (same ∙ failed, singular)
          | inr (result, run, solution) ↦ inr (
            result,
            same ∙ run,
            λ i c h l.
                solution.solves c (omega arith) i h
                ∙ identity-entry m.cols i c (omega arith) (omega arith),
          )
        ]
