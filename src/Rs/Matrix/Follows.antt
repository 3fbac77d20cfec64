-- ===== src/Rs/Matrix/Follows.antt =====
-- A row operation on both matrices keeps the solutions of the system that they spell.
use par2engine.Base.{
  ℕ, ◌<◌, ◌==◌, ◌≡◌, refl, sym, subst, ap, ◌∙◌, ◌≢◌, arith, Bool-cases, inl, inr, true, false,
  ==_iff,
}
use par2engine.Gf16.Poly.{order, times_poly}
use par2engine.Gf16.Poly.Laws.{times_poly_assoc, one-times_poly, times_poly-zero}
use par2engine.Rs.Matrix.{Matrix, Pair, pair, entry}
use par2engine.Rs.Matrix.Entries.{IsMatrix, entry-lt}
use par2engine.Rs.Matrix.RowOps.{IsChanged, scaled_entry}
use par2engine.Rs.Matrix.Dot.{dot, Below, dot_congr, dot-lt, dot-times_poly}

-- A column of elements of the field.
abbrev pub IsColumn : (ℕ → ℕ) → Type 0
IsColumn x = (j : ℕ) → x j < order

-- The product of a row of the matrix with a column.
abbrev pub row_dot : Matrix → ℕ → (ℕ → ℕ) → ℕ
row_dot m i x = dot m.cols (λ j. entry m i j) x

-- The column solves the system whose right side is the column `c` of `n`.
abbrev pub Solves : Matrix → Matrix → ℕ → (ℕ → ℕ) → Type 0
Solves m n c x = (i : ℕ) → i < m.rows → row_dot m i x ≡ entry n i c

-- The matrix takes the column to zeros.
abbrev pub Kills : Matrix → (ℕ → ℕ) → Type 0
Kills m x = (i : ℕ) → i < m.rows → row_dot m i x ≡ 0

-- A square matrix, and a matrix of as many rows.
pub record IsPair (p : Pair) : Type 0 where
  pub left_valid : IsMatrix p.left
  pub right_valid : IsMatrix p.right
  pub square : p.left.cols ≡ p.left.rows
  pub rows_fit : p.right.rows ≡ p.left.rows

-- Some column that is not all zeros is taken to zeros.
abbrev pub IsSingular : Matrix → Type 0
IsSingular m = (x : ℕ → ℕ) × IsColumn x × Kills m x × ((j : ℕ) × (j < m.rows) × (x j ≢ 0))

-- What a pair keeps of the one that it is made of.
pub record Follows (p q : Pair) : Type 0 where
  pub valid : IsPair q
  pub rows_same : q.left.rows ≡ p.left.rows
  pub cols_same : q.right.cols ≡ p.right.cols
  pub back :
      (c : ℕ) (x : ℕ → ℕ)
      → c < p.right.cols
      → IsColumn x
      → Solves q.left q.right c x
      → Solves p.left p.right c x
  pub kills : (x : ℕ → ℕ) → IsColumn x → Kills p.left x → Kills q.left x
  pub killed : (x : ℕ → ℕ) → IsColumn x → Kills q.left x → Kills p.left x

pub Follows-refl : (p : Pair) → IsPair p → Follows p p
Follows-refl p valid = record {
  valid = valid;
  rows_same = refl;
  cols_same = refl;
  back = λ c x small column solves. solves;
  kills = λ x column zeros. zeros;
  killed = λ x column zeros. zeros;
}

pub Follows-trans : {p q r : Pair} → Follows p q → Follows q r → Follows p r
Follows-trans f g = record {
  valid = g.valid;
  rows_same = g.rows_same ∙ f.rows_same;
  cols_same = g.cols_same ∙ f.cols_same;
  back = λ c x small column solves.
      f.back c x small column
        (g.back c x (subst (λ (n : ℕ). c < n) (sym f.cols_same) small) column solves);
  kills = λ x column zeros. g.kills x column (f.kills x column zeros);
  killed = λ x column zeros. f.killed x column (g.killed x column zeros);
}

pub Follows-IsSingular : {p q : Pair} → Follows p q → IsSingular q.left → IsSingular p.left
Follows-IsSingular follows (x, column, zeros, (j, h, some_one)) = (
  x,
  column,
  follows.killed x column zeros,
  (j, subst (λ (t : ℕ). j < t) follows.rows_same h, some_one),
)

-- The product of a row of a changed matrix.
pub changed_dot :
    (m m' : Matrix) (g : ℕ → ℕ → ℕ) (r : ℕ) (x : ℕ → ℕ)
    → IsChanged m g m'
    → r < m.rows
    → row_dot m' r x ≡ dot m.cols (g r) x
changed_dot m m' g r x changed h =
    ap (λ (n : ℕ). dot n (λ j. entry m' r j) x) changed.cols_same
    ∙ dot_congr m.cols (λ j. entry m' r j) (g r) x x (λ j l. changed.entries r j h l) (λ j l. refl)

test_yes : (n : ℕ) → (n == n) ≡ true
test_yes n = ground arith

test_no : (r i : ℕ) → r ≢ i → (r == i) ≡ false
test_no r i h = ground arith

module _ (p : Pair) (valid : IsPair p) where
  pub in_right : (i : ℕ) → i < p.left.rows → i < p.right.rows
  in_right i h = subst (λ (n : ℕ). i < n) (sym valid.rows_fit) h

  pub changed-IsPair :
      (m n : Matrix) (g h : ℕ → ℕ → ℕ)
      → IsChanged p.left g m
      → IsChanged p.right h n
      → IsPair (pair m n)
  changed-IsPair m n g h left right = record {
    left_valid = left.valid;
    right_valid = right.valid;
    square = left.cols_same ∙ valid.square ∙ sym left.rows_same;
    rows_fit = right.rows_same ∙ valid.rows_fit ∙ sym left.rows_same;
  }

  pub below : (i : ℕ) → Below p.left.cols (λ j. entry p.left i j)
  below i j l = entry-lt p.left i j valid.left_valid

  -- One row scaled by an element with an inverse.
  pub scale-Follows :
      (i c d : ℕ) (m n : Matrix)
      → i < p.left.rows
      → c < order
      → d < order
      → times_poly d c ≡ 1
      → IsChanged p.left (scaled_entry p.left i c) m
      → IsChanged p.right (scaled_entry p.right i c) n
      → Follows p (pair m n)
  scale-Follows i c d m n h small small' inverse left right = record {
    valid = changed-IsPair m n _ _ left right;
    rows_same = left.rows_same;
    cols_same = right.cols_same;
    back = λ k x l column solves r lt. elim (Bool-cases (r == i)) [
      | inl same ↦
          let e = (==_iff r i).0 same in
          sym (cancel (row_dot p.left r x) (dot-lt _ _ x (below r)))
          ∙ ap (times_poly d) (
              sym (on_row r x same column)
              ∙ sym (changed_dot p.left m (scaled_entry p.left i c) r x left lt)
              ∙ solves r (subst (λ (t : ℕ). r < t) (sym left.rows_same) lt)
              ∙ right.entries r k (in_right r lt) l
              ∙ picked p.right r k same)
          ∙ cancel (entry p.right r k) (entry-lt p.right r k valid.right_valid)
      | inr other ↦
          sym (off_row r x other)
          ∙ sym (changed_dot p.left m (scaled_entry p.left i c) r x left lt)
          ∙ solves r (subst (λ (t : ℕ). r < t) (sym left.rows_same) lt)
          ∙ right.entries r k (in_right r lt) l
          ∙ passed p.right r k other
    ];
    kills = λ x column zeros r lt.
        let lt' = subst (λ (t : ℕ). r < t) left.rows_same lt in
        changed_dot p.left m (scaled_entry p.left i c) r x left lt' ∙ elim (Bool-cases (r == i)) [
          | inl same ↦ on_row r x same column ∙ ap (times_poly c) (zeros r lt') ∙ times_poly-zero c
          | inr other ↦ off_row r x other ∙ zeros r lt'
        ];
    killed = λ x column zeros r lt.
        let gone =
          sym (changed_dot p.left m (scaled_entry p.left i c) r x left lt)
          ∙ zeros r (subst (λ (t : ℕ). r < t) (sym left.rows_same) lt) in
        elim (Bool-cases (r == i)) [
          | inl same ↦
              sym (cancel (row_dot p.left r x) (dot-lt _ _ x (below r)))
              ∙ ap (times_poly d) (sym (on_row r x same column) ∙ gone)
              ∙ times_poly-zero d
          | inr other ↦ sym (off_row r x other) ∙ gone
        ];
  }
    where
      cancel : (t : ℕ) → t < order → times_poly d (times_poly c t) ≡ t
      cancel t l =
          sym (times_poly_assoc d c t small' small l)
          ∙ ap (λ (u : ℕ). times_poly u t) inverse
          ∙ one-times_poly t l

      picked :
          (m : Matrix) (r k : ℕ)
          → (r == i) ≡ true
          → scaled_entry m i c r k ≡ times_poly c (entry m r k)
      picked m r k same =
          rw same (ap (λ (t : ℕ). times_poly c (entry m t k)) (sym ((==_iff r i).0 same)))

      passed : (m : Matrix) (r k : ℕ) → (r == i) ≡ false → scaled_entry m i c r k ≡ entry m r k
      passed m r k other = rw other

      on_row :
          (r : ℕ) (x : ℕ → ℕ)
          → (r == i) ≡ true
          → IsColumn x
          → dot p.left.cols (scaled_entry p.left i c r) x ≡ times_poly c (row_dot p.left r x)
      on_row r x same column =
          dot_congr p.left.cols _ (λ j. times_poly c (entry p.left r j)) x x
            (λ j l. picked p.left r j same) (λ j l. refl)
          ∙ dot-times_poly p.left.cols c (λ j. entry p.left r j) x small (below r) (λ j l. column j)

      off_row :
          (r : ℕ) (x : ℕ → ℕ)
          → (r == i) ≡ false
          → dot p.left.cols (scaled_entry p.left i c r) x ≡ row_dot p.left r x
      off_row r x other =
          dot_congr p.left.cols _ (λ j. entry p.left r j) x x (λ j l. passed p.left r j other)
            (λ j l. refl)
