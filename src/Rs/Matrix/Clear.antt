-- ===== src/Rs/Matrix/Clear.antt =====
-- The inner loops of the elimination clear a column.
use par2engine.Base.{
  ℕ, zero, suc, ◌+◌, ◌≤◌, ◌<◌, ◌==◌, ◌≡◌, refl, sym, subst, ap, ◌∙◌, ◌≢◌, ◌⊎◌, arith, Bool-cases,
  inl, inr, false, ==_iff, ok,
}
use par2engine.Bits.{xor_self, bit_xor-zero}
use par2engine.Gf16.Poly.Laws.{times_poly-zero, times_poly-one}
use par2engine.Gf16.Field.{FieldOps, IsFieldOps}
use par2engine.Rs.Matrix.{Matrix, Pair, pair, entry, clear_entry, clear_loop}
use par2engine.Rs.Matrix.Entries.{entry-lt, at_lem}
use par2engine.Rs.Matrix.RowOps.{IsChanged, added_entry, add_scaled_row_lem}
use par2engine.Rs.Matrix.Follows.{IsPair, Follows, Follows-refl, Follows-trans, in_right}
use par2engine.Rs.Matrix.Added.{add-Follows}

-- Rows from `j` on and below `k` are cleared in the column `i`; nothing changes in the other rows, nor
-- in the columns where the row `i` has zeros.
pub record Clears (i j k : ℕ) (p q : Pair) : Type 0 where
  pub follows : Follows p q
  pub cleared : (r : ℕ) → j ≤ r → r < k → entry q.left r i ≡ 0
  pub outside :
      (r c : ℕ)
      → (r < j) ⊎ (k ≤ r)
      → r < p.left.rows
      → c < p.left.cols
      → entry q.left r c ≡ entry p.left r c
  pub passed :
      (r c : ℕ)
      → entry p.left i c ≡ 0
      → r < p.left.rows
      → c < p.left.cols
      → entry q.left r c ≡ entry p.left r c

module _ (f : FieldOps) (laws : IsFieldOps f) where
  module _ (i j : ℕ) (p : Pair) (valid : IsPair p) (h : i < p.left.rows) (l : j < p.left.rows)
      (ne : i ≢ j) (one : entry p.left i i ≡ 1) where
    in_cols : i < p.left.cols
    in_cols = subst (λ (n : ℕ). i < n) (sym valid.square) h

    abbrev found : ℕ
    found = entry p.left j i

    only_j : (r : ℕ) → j ≤ r → r < suc j → r ≡ j
    only_j r a b = omega arith

    added-Clears :
        (m n : Matrix)
        → IsChanged p.left (added_entry p.left j i found) m
        → IsChanged p.right (added_entry p.right j i found) n
        → Clears i j (suc j) p (pair m n)
    added-Clears m n left right = record {
      follows =
          add-Follows p valid j i found l h ne (entry-lt p.left j i valid.left_valid) m n left
            right;
      cleared = λ r a b.
          let e = only_j r a b in
          ap (λ (t : ℕ). entry m t i) e
          ∙ left.entries j i l in_cols
          ∙ ground (
            arith,
            one,
            times_poly-one found (entry-lt p.left j i valid.left_valid),
            xor_self found,
          );
      outside = λ r c apart a b. left.entries r c a b ∙ ground arith;
      passed = λ r c none a b.
          left.entries r c a b
          ∙ ground (arith, times_poly-zero found, bit_xor-zero (entry p.left j c), (==_iff r j).0);
    }

    pub clear_entry_lem : (q : Pair) × (clear_entry f i j p ≡ ok q) × Clears i j (suc j) p q
    unfolding clear_entry
    clear_entry_lem =
        let run = at_lem p.left j i l in_cols in
        elim (Bool-cases (found == 0)) [
          | inl none ↦ (
            p,
            rw (run, none),
            record {
              follows = Follows-refl p valid;
              cleared = λ r a b.
                  let e = only_j r a b in
                  ap (λ (t : ℕ). entry p.left t i) e ∙ (==_iff found 0).0 none;
              outside = λ r c apart a b. refl;
              passed = λ r c z a b. refl;
            },
          )
          | inr some_found ↦
              let (m, run_m, left) =
                add_scaled_row_lem p.left valid.left_valid f laws j i found l h
                  (entry-lt p.left j i valid.left_valid) in
              let (n, run_n, right) =
                add_scaled_row_lem p.right valid.right_valid f laws j i found (in_right p valid j l)
                  (in_right p valid i h) (entry-lt p.left j i valid.left_valid) in
              (pair m n, rw (run, some_found, run_m, run_n), added-Clears m n left right)
        ]

  pub left_cols : (p q : Pair) → IsPair p → Follows p q → q.left.cols ≡ p.left.cols
  left_cols p q valid follows = follows.valid.square ∙ follows.rows_same ∙ sym valid.square

  Clears-trans :
      (i j k : ℕ) (p q r : Pair)
      → IsPair p
      → i < p.left.rows
      → suc j ≤ k
      → k ≤ p.left.rows
      → (i < j) ⊎ (k ≤ i)
      → Clears i j (suc j) p q
      → Clears i (suc j) k q r
      → Clears i j k p r
  Clears-trans i j k p q r valid h l l' apart first second = record {
    follows = Follows-trans first.follows second.follows;
    cleared = λ n a b. elim (Bool-cases (n == j)) [
      | inl same ↦
          let e = (==_iff n j).0 same in
          second.outside n i (inl (omega arith)) (to_rows n (omega arith))
            (to_cols i (in_cols_of h))
          ∙ first.cleared n a (omega arith)
      | inr other ↦ second.cleared n (test_above n other a) b
    ];
    outside = λ n c side a b.
        second.outside n c (wider n side) (to_rows n a) (to_cols c b)
        ∙ first.outside n c (narrower n side) a b;
    passed = λ n c z a b.
        second.passed n c (row_kept c z b) (to_rows n a) (to_cols c b) ∙ first.passed n c z a b;
  }
    where
      to_rows : (n : ℕ) → n < p.left.rows → n < q.left.rows
      to_rows n a = subst (λ (t : ℕ). n < t) (sym first.follows.rows_same) a

      to_cols : (c : ℕ) → c < p.left.cols → c < q.left.cols
      to_cols c a = subst (λ (t : ℕ). c < t) (sym (left_cols p q valid first.follows)) a

      in_cols_of : i < p.left.rows → i < p.left.cols
      in_cols_of a = subst (λ (t : ℕ). i < t) (sym valid.square) a

      test_above : (n : ℕ) → (n == j) ≡ false → j ≤ n → suc j ≤ n
      test_above n other a = ground arith

      wider : (n : ℕ) → (n < j) ⊎ (k ≤ n) → (n < suc j) ⊎ (k ≤ n)
      wider n (inl a) = inl (omega arith)
      wider n (inr a) = inr a

      narrower : (n : ℕ) → (n < j) ⊎ (k ≤ n) → (n < j) ⊎ (suc j ≤ n)
      narrower n (inl a) = inl a
      narrower n (inr a) = inr (omega arith)

      row_kept : (c : ℕ) → entry p.left i c ≡ 0 → c < p.left.cols → entry q.left i c ≡ 0
      row_kept c z b = first.outside i c (narrower i apart) h b ∙ z

  -- A loop of the elimination runs without a panic, and clears its rows.
  pub clear_loop_lem :
      (rounds i j : ℕ) (p : Pair)
      → IsPair p
      → i < p.left.rows
      → rounds + j ≤ p.left.rows
      → (i < j) ⊎ (rounds + j ≤ i)
      → entry p.left i i ≡ 1
      → (q : Pair) × (clear_loop f rounds i j p ≡ ok q) × Clears i j (rounds + j) p q
  unfolding clear_loop
  clear_loop_lem zero i j p valid h l apart one = (
    p,
    refl,
    record {
      follows = Follows-refl p valid;
      cleared = λ r a b. absurd (omega arith);
      outside = λ r c side a b. refl;
      passed = λ r c z a b. refl;
    },
  )
  clear_loop_lem (suc rounds) i j p valid h l apart one =
      let (q, run, first) = clear_entry_lem i j p valid h (omega arith) (distinct apart) one in
      let e = first.follows.rows_same in
      let (r, run', second) =
        clear_loop_lem rounds i (suc j) q first.follows.valid (subst (λ (t : ℕ). i < t) (sym e) h)
          (subst (λ (t : ℕ). rounds + suc j ≤ t) (sym e) (omega arith)) (later apart)
          (first.outside i i (beside apart) h (subst (λ (t : ℕ). i < t) (sym valid.square) h)
            ∙ one) in
      let size : rounds + suc j ≡ suc rounds + j = omega arith in
      (
        r,
        rw run run',
        Clears-trans i j (suc rounds + j) p q r valid h (omega arith) l apart first
            (subst (λ (k : ℕ). Clears i (suc j) k q r) size second),
      )
    where
      distinct : (i < j) ⊎ (suc rounds + j ≤ i) → i ≢ j
      distinct (inl a) e = omega arith
      distinct (inr a) e = omega arith

      later : (i < j) ⊎ (suc rounds + j ≤ i) → (i < suc j) ⊎ (rounds + suc j ≤ i)
      later (inl a) = inl (omega arith)
      later (inr a) = inr (omega arith)

      beside : (i < j) ⊎ (suc rounds + j ≤ i) → (i < j) ⊎ (suc j ≤ i)
      beside (inl a) = inl a
      beside (inr a) = inr (omega arith)
