-- ===== src/Rs/Matrix/Solve.antt =====
-- The row reduction returns the solution of the system, or that the matrix is singular.
use par2engine.Base.{
  ℕ, zero, suc, ◌+◌, ◌-◌, ◌≤◌, ◌<◌, ◌==◌, ltb, if◌then◌else◌, ◌≡◌, refl, sym, subst, ap, ◌∙◌, ◌⊎◌,
  arith, Bool-cases, inl, inr, false, ==_iff, Result, ok, err,
}
use par2engine.Gf16.Poly.{order, times_poly}
use par2engine.Gf16.Poly.Laws.{times_poly_comm}
use par2engine.Gf16.Field.{FieldOps, IsFieldOps}
use par2engine.Rs.Matrix.{
  Matrix, MatrixError, singular_matrix, Pair, pair, Pivoted, entry, pivot_loop, echelon_step,
  echelon_loop, convert_to_row_echelon_form, reduced_loop, convert_to_reduced_row_echelon_form,
  row_reduce_pair,
}
use par2engine.Rs.Matrix.Entries.{entry-lt}
use par2engine.Rs.Matrix.RowOps.{scale_row_lem}
use par2engine.Rs.Matrix.Dot.{unit_row}
use par2engine.Rs.Matrix.Follows.{
  IsPair, IsSingular, Follows-IsSingular, Follows, Follows-refl, Follows-trans, in_right,
  scale-Follows,
}
use par2engine.Rs.Matrix.Kernel.{no_pivot-IsSingular}
use par2engine.Rs.Matrix.Clear.{Clears, clear_loop_lem}
use par2engine.Rs.Matrix.Pivot.{
  IsEchelon, IsPivoted, pivot_loop_lem, EchelonStep, scaled-IsEchelon, cleared-IsEchelon,
}

module _ (f : FieldOps) (laws : IsFieldOps f) where
  -- The part of a round after the search.
  scaled_step :
      (i : ℕ) (p : Pair) (found : Pivoted)
      → IsPair p
      → i < p.left.rows
      → pivot_loop (p.left.rows - i) i i p ≡ ok found
      → IsPivoted i p found
      → (found.pivot == 0) ≡ false
      → EchelonStep i p (echelon_step f i p)
  unfolding echelon_step
  scaled_step i p found valid h run is nonzero =
      let g = found.matrices in
      let gv = is.follows.valid in
      let h' : i < g.left.rows = subst (λ (t : ℕ). i < t) (sym is.follows.rows_same) h in
      let at_diagonal : found.pivot ≡ entry g.left i i = (elim is.is_pivot [
        | inl (z, _) ↦ absurd (ground (arith, z, nonzero))
        | inr (e, _) ↦ e
      ]) in
      let small : found.pivot < order =
        omega (arith, at_diagonal, entry-lt g.left i i gv.left_valid) in
      let (inv, run_inv, inv_small, one) = laws.inverse_of_lem found.pivot (ground arith) small in
      let (m, run_m, left) = scale_row_lem g.left gv.left_valid f laws i inv h' inv_small in
      let (n, run_n, right) =
        scale_row_lem g.right gv.right_valid f laws i inv (in_right g gv i h') inv_small in
      let scaled = scale-Follows g gv i inv found.pivot m n h' inv_small small one left right in
      let (echelon, diagonal) =
        scaled-IsEchelon f laws i inv g m gv h' is.echelon
          (ap (times_poly inv) (sym at_diagonal)
            ∙ times_poly_comm inv found.pivot inv_small small
            ∙ one)
          left in
      let follows = Follows-trans is.follows scaled in
      let size : p.left.rows - suc i + suc i ≡ m.rows = omega (arith, follows.rows_same) in
      let h'' : i < m.rows = omega (arith, follows.rows_same) in
      let (q, run_q, clears) =
        clear_loop_lem f laws (p.left.rows - suc i) i (suc i) (pair m n) scaled.valid h''
          (omega (arith, size)) (inl (omega arith)) diagonal in
      inr (
        q,
        rw (run, nonzero, run_inv, run_m, run_n) run_q,
        Follows-trans follows clears.follows,
        cleared-IsEchelon f laws i (pair m n) q scaled.valid h'' echelon diagonal
            (subst (λ (k : ℕ). Clears i (suc i) k (pair m n) q) size clears),
      )

  echelon_step_lem :
      (i : ℕ) (p : Pair)
      → IsPair p
      → i < p.left.rows
      → IsEchelon i p.left
      → EchelonStep i p (echelon_step f i p)
  echelon_step_lem i p valid h echelon =
      let (found, run, is) =
        pivot_loop_lem (p.left.rows - i) i i p valid (omega arith) h (omega arith) echelon
          (λ r a b. absurd (omega arith)) in
      elim (Bool-cases (found.pivot == 0)) [
        | inr nonzero ↦ scaled_step i p found valid h run is nonzero
        | inl none ↦ inl (
          unfold echelon_step in rw (run, none),
          elim is.is_pivot [
            | inr (_, nonzero) ↦ absurd (nonzero ((==_iff found.pivot 0).0 none))
            | inl (_, zeros) ↦
                let g = found.matrices in
                Follows-IsSingular is.follows (
                  no_pivot-IsSingular g.left is.follows.valid.left_valid is.follows.valid.square i
                    (omega (arith, is.follows.rows_same)) is.echelon zeros)
          ],
        )
      ]

  -- What the first loop leaves.
  abbrev Echelon : ℕ → Pair → Result MatrixError Pair → Type 0
  Echelon k p r =
      ((r ≡ err singular_matrix) × IsSingular p.left)
      ⊎ ((q : Pair) × (r ≡ ok q) × Follows p q × IsEchelon k q.left)

  echelon_loop_lem :
      (rounds i : ℕ) (p : Pair)
      → IsPair p
      → rounds + i ≡ p.left.rows
      → IsEchelon i p.left
      → Echelon (rounds + i) p (echelon_loop f rounds i p)
  unfolding echelon_loop
  echelon_loop_lem zero i p valid e echelon =
      inr (p, refl, Follows-refl p valid, λ r c a b lt. echelon r c (omega arith) b lt)
  echelon_loop_lem (suc rounds) i p valid e echelon =
      elim (echelon_step_lem i p valid (omega arith) echelon) [
        | inl (failed, singular) ↦ inl (rw failed, singular)
        | inr (q, run, follows, done) ↦
            elim (echelon_loop_lem rounds (suc i) q follows.valid (omega (arith, follows.rows_same))
              done) [
                | inl (failed, singular) ↦ inl (rw run failed, Follows-IsSingular follows singular)
                | inr (r, run', follows', done') ↦ inr (
                  r,
                  rw run run',
                  Follows-trans follows follows',
                  λ n c a b lt. done' n c (omega arith) b lt,
                )
              ]
      ]

  -- The columns before `i` are those of a unit matrix, and the others are in echelon form.
  record IsReduced (i : ℕ) (m : Matrix) : Type 0 where
    pub echelon : IsEchelon m.rows m
    pub unit : (r c : ℕ) → c < i → r < m.rows → entry m r c ≡ unit_row r c

  IsReduced-step :
      (i : ℕ) (p q : Pair)
      → IsPair p
      → i < p.left.rows
      → IsReduced i p.left
      → Clears i 0 i p q
      → IsReduced (suc i) q.left
  IsReduced-step i p q valid h reduced clears = record {
    echelon = λ r c a b lt. echelon_kept r c (rows_of c a) b (rows_of r lt);
    unit = λ r c a lt. elim (Bool-cases (c == i)) [
      | inl same ↦
          let e = (==_iff c i).0 same in
          ap (entry q.left r) e ∙ at_column r (rows_of r lt) ∙ ap (unit_row r) (sym e)
      | inr other ↦
          kept r c (ground arith) (rows_of r lt) ∙ reduced.unit r c (ground arith) (rows_of r lt)
    ];
  }
    where
      rows_of : (r : ℕ) → r < q.left.rows → r < p.left.rows
      rows_of r lt = subst (λ (t : ℕ). r < t) clears.follows.rows_same lt

      cols_of : (c : ℕ) → c < p.left.rows → c < p.left.cols
      cols_of c lt = subst (λ (t : ℕ). c < t) (sym valid.square) lt

      kept : (r c : ℕ) → c < i → r < p.left.rows → entry q.left r c ≡ entry p.left r c
      kept r c a lt =
          clears.passed r c (reduced.unit i c a h ∙ ground arith) lt (cols_of c (omega arith))

      echelon_kept :
          (r c : ℕ)
          → c < p.left.rows
          → c ≤ r
          → r < p.left.rows
          → entry q.left r c ≡ (if r == c then 1 else 0)
      echelon_kept r c a b lt = elim (Bool-cases (ltb r i)) [
        | inl above ↦ kept r c (ground arith) lt ∙ reduced.echelon r c a b lt
        | inr behind ↦
            clears.outside r c (inr (ground arith)) lt (cols_of c a) ∙ reduced.echelon r c a b lt
      ]

      at_column : (r : ℕ) → r < p.left.rows → entry q.left r i ≡ unit_row r i
      at_column r lt = elim (Bool-cases (ltb r i)) [
        | inl above ↦ clears.cleared r (omega arith) (ground arith) ∙ ground arith
        | inr behind ↦
            clears.outside r i (inr (ground arith)) lt (cols_of i h)
            ∙ reduced.echelon r i h (ground arith) lt
            ∙ ground arith
      ]

  reduced_loop_lem :
      (rounds i : ℕ) (p : Pair)
      → IsPair p
      → rounds + i ≡ p.left.rows
      → IsReduced i p.left
      → (q : Pair) × (reduced_loop f rounds i p ≡ ok q)
        × Follows p q
        × ((r c : ℕ) → c < rounds + i → r < q.left.rows → entry q.left r c ≡ unit_row r c)
  unfolding reduced_loop
  reduced_loop_lem zero i p valid e reduced =
      (p, refl, Follows-refl p valid, λ r c a lt. reduced.unit r c (omega arith) lt)
  reduced_loop_lem (suc rounds) i p valid e reduced =
      let h : i < p.left.rows = omega arith in
      let (q, run, clears) =
        clear_loop_lem f laws i i 0 p valid h (omega arith) (inr (omega arith))
          (reduced.echelon i i h (omega arith) h ∙ ground arith) in
      let size : i + 0 ≡ i = omega arith in
      let step =
        IsReduced-step i p q valid h reduced (subst (λ (k : ℕ). Clears i 0 k p q) size clears) in
      let (r, run', follows', unit) =
        reduced_loop_lem rounds (suc i) q clears.follows.valid
          (omega (arith, clears.follows.rows_same)) step in
      (r, rw run run', Follows-trans clears.follows follows', λ n c a lt. unit n c (omega arith) lt)

  -- The whole reduction of a pair: the left matrix becomes the unit matrix.
  pub row_reduce_pair_lem :
      (p : Pair)
      → IsPair p
      → ((row_reduce_pair f p ≡ err singular_matrix) × IsSingular p.left)
        ⊎ ((q : Pair) × (row_reduce_pair f p ≡ ok q)
            × Follows p q
            × ((r c : ℕ) → c < q.left.rows → r < q.left.rows → entry q.left r c ≡ unit_row r c))
  unfolding row_reduce_pair convert_to_row_echelon_form convert_to_reduced_row_echelon_form
  row_reduce_pair_lem p valid =
      elim (echelon_loop_lem p.left.rows 0 p valid (omega arith)
        (λ r c a b lt. absurd (omega arith))) [
          | inl (failed, singular) ↦ inl (rw failed, singular)
          | inr (q, run, follows, echelon) ↦
              let all : p.left.rows + 0 ≡ q.left.rows = omega (arith, follows.rows_same) in
              let (r, run', follows', unit) =
                reduced_loop_lem q.left.rows 0 q follows.valid (omega arith) (record {
                  echelon = λ n c a b lt. echelon n c (omega (arith, all)) b lt;
                  unit = λ n c a lt. absurd (omega arith);
                }) in
              inr (
                r,
                rw run run',
                Follows-trans follows follows',
                λ n c a lt. unit n c (omega (arith, follows'.rows_same)) lt,
              )
        ]
