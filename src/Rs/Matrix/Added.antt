-- ===== src/Rs/Matrix/Added.antt =====
-- A multiple of a row added to another, and two rows exchanged, keep the solutions.
use Prim.Native.Nat.{bit_xor}
use par2engine.Base.{
  ℕ, ◌<◌, ◌==◌, if◌then◌else◌, ◌≡◌, refl, sym, subst, ap, ap₂, ◌∙◌, ◌≢◌, arith, Bool-cases, inl,
  inr, true, false, ==_iff,
}
use par2engine.Bits.{xor_cancel, zero-bit_xor}
use par2engine.Gf16.Poly.{order, times_poly}
use par2engine.Gf16.Poly.Laws.{times_poly-lt, times_poly-zero}
use par2engine.Rs.Matrix.{Matrix, Pair, pair, entry}
use par2engine.Rs.Matrix.RowOps.{IsChanged, added_entry, swapped_entry}
use par2engine.Rs.Matrix.Dot.{dot, dot_congr, dot-xor, dot-times_poly}
use par2engine.Rs.Matrix.Follows.{
  IsColumn, row_dot, Solves, IsPair, Follows, changed_dot, in_right, changed-IsPair, below,
}

test_no : (r i : ℕ) → r ≢ i → (r == i) ≡ false
test_no r i h = ground arith

module _ (p : Pair) (valid : IsPair p) where
  module _ (dest src c : ℕ) (h : dest < p.left.rows) (h' : src < p.left.rows) (ne : src ≢ dest)
      (small : c < order) where
    added :
        (m : Matrix) (r j : ℕ)
        → (r == dest) ≡ true
        → added_entry m dest src c r j ≡ bit_xor (entry m r j) (times_poly c (entry m src j))
    added m r j same = rw same (
        ap (λ (t : ℕ). bit_xor (entry m t j) (times_poly c (entry m src j)))
          (sym ((==_iff r dest).0 same)))

    passed :
        (m : Matrix) (r j : ℕ) → (r == dest) ≡ false → added_entry m dest src c r j ≡ entry m r j
    passed m r j other = rw other

    on_row :
        (r : ℕ) (x : ℕ → ℕ)
        → (r == dest) ≡ true
        → IsColumn x
        → dot p.left.cols (added_entry p.left dest src c r) x
          ≡ bit_xor (row_dot p.left r x) (times_poly c (row_dot p.left src x))
    on_row r x same column =
        dot_congr p.left.cols _
          (λ j. bit_xor (entry p.left r j) (times_poly c (entry p.left src j))) x x
          (λ j l. added p.left r j same) (λ j l. refl)
        ∙ dot-xor p.left.cols (λ j. entry p.left r j) (λ j. times_poly c (entry p.left src j)) x
            (below p valid r) (λ j l. times_poly-lt c _ small)
        ∙ ap (bit_xor (row_dot p.left r x)) (
            dot-times_poly p.left.cols c (λ j. entry p.left src j) x small (below p valid src)
              (λ j l. column j))

    off_row :
        (r : ℕ) (x : ℕ → ℕ)
        → (r == dest) ≡ false
        → dot p.left.cols (added_entry p.left dest src c r) x ≡ row_dot p.left r x
    off_row r x other =
        dot_congr p.left.cols _ (λ j. entry p.left r j) x x (λ j l. passed p.left r j other)
          (λ j l. refl)

    module _ (m n : Matrix) (left : IsChanged p.left (added_entry p.left dest src c) m)
        (right : IsChanged p.right (added_entry p.right dest src c) n) where
      -- The equation of a row that is left alone.
      untouched :
          (k : ℕ) (x : ℕ → ℕ)
          → k < p.right.cols
          → Solves m n k x
          → (r : ℕ) → r < p.left.rows
          → (r == dest) ≡ false
          → row_dot p.left r x ≡ entry p.right r k
      untouched k x l solves r lt other =
          sym (off_row r x other)
          ∙ sym (changed_dot p.left m (added_entry p.left dest src c) r x left lt)
          ∙ solves r (subst (λ (t : ℕ). r < t) (sym left.rows_same) lt)
          ∙ right.entries r k (in_right p valid r lt) l
          ∙ passed p.right r k other

      pub add-Follows : Follows p (pair m n)
      add-Follows = record {
        valid = changed-IsPair p valid m n _ _ left right;
        rows_same = left.rows_same;
        cols_same = right.cols_same;
        back = λ k x l column solves r lt. elim (Bool-cases (r == dest)) [
          | inr other ↦ untouched k x l solves r lt other
          | inl same ↦
              let src_solved = untouched k x l solves src h' (test_no src dest ne) in
              sym (xor_cancel (row_dot p.left r x) (times_poly c (row_dot p.left src x)))
              ∙ ap₂ bit_xor
                  (sym (on_row r x same column)
                    ∙ sym (changed_dot p.left m (added_entry p.left dest src c) r x left lt)
                    ∙ solves r (subst (λ (t : ℕ). r < t) (sym left.rows_same) lt)
                    ∙ right.entries r k (in_right p valid r lt) l
                    ∙ added p.right r k same)
                  (ap (times_poly c) src_solved)
              ∙ xor_cancel (entry p.right r k) (times_poly c (entry p.right src k))
        ];
        kills = λ x column zeros r lt.
            let lt' = subst (λ (t : ℕ). r < t) left.rows_same lt in
            changed_dot p.left m (added_entry p.left dest src c) r x left lt'
            ∙ elim (Bool-cases (r == dest)) [
              | inr other ↦ off_row r x other ∙ zeros r lt'
              | inl same ↦
                  on_row r x same column
                  ∙ ap₂ (λ (s t : ℕ). bit_xor s (times_poly c t)) (zeros r lt') (zeros src h')
                  ∙ zero-bit_xor (times_poly c 0)
                  ∙ times_poly-zero c
            ];
        killed = λ x column zeros r lt.
            let gone = λ (t : ℕ) (k : t < p.left.rows).
              (sym (changed_dot p.left m (added_entry p.left dest src c) t x left k)
                ∙ zeros t (subst (λ (u : ℕ). t < u) (sym left.rows_same) k)) in
            elim (Bool-cases (r == dest)) [
              | inr other ↦ sym (off_row r x other) ∙ gone r lt
              | inl same ↦
                  let src_zero = sym (off_row src x (test_no src dest ne)) ∙ gone src h' in
                  sym (xor_cancel (row_dot p.left r x) (times_poly c (row_dot p.left src x)))
                  ∙ ap₂ bit_xor (sym (on_row r x same column) ∙ gone r lt)
                      (ap (times_poly c) src_zero ∙ times_poly-zero c)
            ];
      }

  -- The row that stands in the place of the row `r`.
  abbrev source : ℕ → ℕ → ℕ → ℕ
  source i k r = if r == k then i else if r == i then k else r

  source_entry : (m : Matrix) (i k r j : ℕ) → swapped_entry m i k r j ≡ entry m (source i k r) j
  source_entry m i k r j = ground arith

  source_twice : (i k r : ℕ) → source i k (source i k r) ≡ r
  source_twice i k r = ground arith

  source-lt : (i k r n : ℕ) → i < n → k < n → r < n → source i k r < n
  source-lt i k r n h l lt = ground arith

  module _ (i k : ℕ) (h : i < p.left.rows) (l : k < p.left.rows) (m n : Matrix)
      (left : IsChanged p.left (swapped_entry p.left i k) m)
      (right : IsChanged p.right (swapped_entry p.right i k) n) where
    swapped_dot :
        (r : ℕ) (x : ℕ → ℕ) → r < p.left.rows → row_dot m r x ≡ row_dot p.left (source i k r) x
    swapped_dot r x lt =
        changed_dot p.left m (swapped_entry p.left i k) r x left lt
        ∙ dot_congr p.left.cols _ (λ j. entry p.left (source i k r) j) x x
            (λ j _. source_entry p.left i k r j) (λ j _. refl)

    pub swap-Follows : Follows p (pair m n)
    swap-Follows = record {
      valid = changed-IsPair p valid m n _ _ left right;
      rows_same = left.rows_same;
      cols_same = right.cols_same;
      back = λ c x small column solves r lt.
          let s = source i k r in
          let lt' = source-lt i k r p.left.rows h l lt in
          ap (λ (t : ℕ). row_dot p.left t x) (sym (source_twice i k r))
          ∙ sym (swapped_dot s x lt')
          ∙ solves s (subst (λ (t : ℕ). s < t) (sym left.rows_same) lt')
          ∙ right.entries s c (in_right p valid s lt') small
          ∙ source_entry p.right i k s c
          ∙ ap (λ (t : ℕ). entry p.right t c) (source_twice i k r);
      kills = λ x column zeros r lt.
          let lt' = subst (λ (t : ℕ). r < t) left.rows_same lt in
          swapped_dot r x lt' ∙ zeros (source i k r) (source-lt i k r p.left.rows h l lt');
      killed = λ x column zeros r lt.
          let s = source i k r in
          let lt' = source-lt i k r p.left.rows h l lt in
          ap (λ (t : ℕ). row_dot p.left t x) (sym (source_twice i k r))
          ∙ sym (swapped_dot s x lt')
          ∙ zeros s (subst (λ (t : ℕ). s < t) (sym left.rows_same) lt');
    }
