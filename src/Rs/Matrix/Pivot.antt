-- ===== src/Rs/Matrix/Pivot.antt =====
-- A round of the elimination: the search for a pivot, and the row scaled by its inverse.
use par2engine.Base.{
  ℕ, zero, suc, ◌+◌, ◌≤◌, ◌<◌, ◌==◌, if◌then◌else◌, ◌≡◌, refl, sym, subst, ap, ◌∙◌, ◌⊎◌, ◌≢◌, false,
  arith, Bool-cases, inl, inr, ==_iff, Result, ok, err,
}
use par2engine.Gf16.Poly.{times_poly}
use par2engine.Gf16.Poly.Laws.{times_poly-zero}
use par2engine.Gf16.Field.{FieldOps, IsFieldOps}
use par2engine.Rs.Matrix.{
  Matrix, MatrixError, singular_matrix, Pair, pair, Pivoted, entry, pivot_loop,
}
use par2engine.Rs.Matrix.Entries.{at_lem}
use par2engine.Rs.Matrix.RowOps.{IsChanged, scaled_entry, swapped_entry, swap_rows_lem}
use par2engine.Rs.Matrix.Follows.{IsPair, Follows, Follows-refl, IsSingular, in_right}
use par2engine.Rs.Matrix.Added.{swap-Follows}
use par2engine.Rs.Matrix.Clear.{Clears}

-- The columns before `i` have ones on the diagonal and zeros below it.
abbrev pub IsEchelon : ℕ → Matrix → Type 0
IsEchelon i m = (r c : ℕ) → c < i → c ≤ r → r < m.rows → entry m r c ≡ (if r == c then 1 else 0)

-- The column `i` has zeros from the diagonal on.
abbrev pub NoPivot : ℕ → Matrix → Type 0
NoPivot i m = (r : ℕ) → i ≤ r → r < m.rows → entry m r i ≡ 0

-- What the search for a pivot in the column `i` finds.
pub record IsPivoted (i : ℕ) (p : Pair) (found : Pivoted) : Type 0 where
  pub follows : Follows p found.matrices
  pub echelon : IsEchelon i found.matrices.left
  pub is_pivot :
      ((found.pivot ≡ 0) × NoPivot i found.matrices.left)
      ⊎ ((found.pivot ≡ entry found.matrices.left i i) × (found.pivot ≢ 0))

to_cols : (p : Pair) (i : ℕ) → IsPair p → i < p.left.rows → i < p.left.cols
to_cols p i valid h = subst (λ (n : ℕ). i < n) (sym valid.square) h

swapped-IsEchelon :
    (i j : ℕ) (p : Pair) (m : Matrix)
    → IsPair p
    → i ≤ j
    → i < p.left.rows
    → j < p.left.rows
    → IsEchelon i p.left
    → IsChanged p.left (swapped_entry p.left i j) m
    → IsEchelon i m
swapped-IsEchelon i j p m valid l h h' echelon left r c a b lt =
    let lt' = subst (λ (n : ℕ). r < n) left.rows_same lt in
    left.entries r c lt' (to_cols p c valid (omega arith))
    ∙ ground
        (arith, echelon i c a (omega arith) h, echelon j c a (omega arith) h', echelon r c a b lt')

pub pivot_loop_lem :
    (rounds i j : ℕ) (p : Pair)
    → IsPair p
    → rounds + j ≡ p.left.rows
    → i < p.left.rows
    → i ≤ j
    → IsEchelon i p.left
    → ((r : ℕ) → i ≤ r → r < j → entry p.left r i ≡ 0)
    → (found : Pivoted) × (pivot_loop rounds i j p ≡ ok found) × IsPivoted i p found
unfolding pivot_loop
pivot_loop_lem zero i j p valid e h l echelon passed = (
  record { matrices = p; pivot = 0 },
  refl,
  record {
    follows = Follows-refl p valid;
    echelon = echelon;
    is_pivot = inl (refl, λ r a b. passed r a (omega arith));
  },
)
pivot_loop_lem (suc rounds) i j p valid e h l echelon passed =
    let h' : j < p.left.rows = omega arith in
    let run = at_lem p.left j i h' (to_cols p i valid h) in
    elim (Bool-cases (entry p.left j i == 0)) [
      | inl none ↦
          let (found, rest, is) =
            pivot_loop_lem rounds i (suc j) p valid (omega arith) h (omega arith) echelon
              (λ r a b. one_more r a b ((==_iff (entry p.left j i) 0).0 none)) in
          (found, rw (run, none) rest, is)
      | inr some_found ↦
          let (m, run_m, left) = swap_rows_lem p.left valid.left_valid i j h h' in
          let (n, run_n, right) =
            swap_rows_lem p.right valid.right_valid i j (in_right p valid i h)
              (in_right p valid j h') in
          let follows = swap-Follows p valid i j h h' m n left right in
          (
            record { matrices = pair m n; pivot = entry m i i },
            rw (
              run,
              some_found,
              run_m,
              run_n,
              at_lem m i i (subst (λ (t : ℕ). i < t) (sym left.rows_same) h)
                  (subst (λ (t : ℕ). i < t) (sym left.cols_same) (to_cols p i valid h)),
            ),
            record {
              follows = follows;
              echelon = swapped-IsEchelon i j p m valid l h h' echelon left;
              is_pivot = inr (refl, λ z. nonzero some_found (sym (top m left) ∙ z));
            },
          )
    ]
  where
    one_more : (r : ℕ) → i ≤ r → r < suc j → entry p.left j i ≡ 0 → entry p.left r i ≡ 0
    one_more r a b none = elim (Bool-cases (r == j)) [
      | inl same ↦ ap (λ (t : ℕ). entry p.left t i) ((==_iff r j).0 same) ∙ none
      | inr other ↦ passed r a (ground arith)
    ]

    top :
        (m : Matrix)
        → IsChanged p.left (swapped_entry p.left i j) m
        → entry m i i ≡ entry p.left j i
    top m left = left.entries i i h (to_cols p i valid h) ∙ ground arith

    nonzero : (entry p.left j i == 0) ≡ false → entry p.left j i ≢ 0
    nonzero test z = ground (arith, test, z)

-- A round ends with the column `i` done, or with the error that the matrix is singular.
abbrev pub EchelonStep : ℕ → Pair → Result MatrixError Pair → Type 0
EchelonStep i p r =
    ((r ≡ err singular_matrix) × IsSingular p.left)
    ⊎ ((q : Pair) × (r ≡ ok q) × Follows p q × IsEchelon (suc i) q.left)

module _ (f : FieldOps) (laws : IsFieldOps f) where
  -- After the scaling the diagonal has a one.
  pub scaled-IsEchelon :
      (i c : ℕ) (p : Pair) (m : Matrix)
      → IsPair p
      → i < p.left.rows
      → IsEchelon i p.left
      → times_poly c (entry p.left i i) ≡ 1
      → IsChanged p.left (scaled_entry p.left i c) m
      → IsEchelon i m × (entry m i i ≡ 1)
  scaled-IsEchelon i c p m valid h echelon one left = (
    λ r k a b lt.
        let lt' = subst (λ (n : ℕ). r < n) left.rows_same lt in
        left.entries r k lt' (to_cols p k valid (omega arith))
        ∙ ground (
          arith,
          echelon i k a (omega arith) h,
          echelon r k a b lt',
          times_poly-zero c,
          (==_iff r i).0,
        ),
    left.entries i i h (to_cols p i valid h) ∙ ground (arith, one),
  )

  pub cleared-IsEchelon :
      (i : ℕ) (p q : Pair)
      → IsPair p
      → i < p.left.rows
      → IsEchelon i p.left
      → entry p.left i i ≡ 1
      → Clears i (suc i) p.left.rows p q
      → IsEchelon (suc i) q.left
  cleared-IsEchelon i p q valid h echelon one clears r c a b lt =
      let lt' = subst (λ (n : ℕ). r < n) clears.follows.rows_same lt in
      elim (Bool-cases (c == i)) [
        | inl same ↦
            let e = (==_iff c i).0 same in
            ap (entry q.left r) e ∙ elim (Bool-cases (r == i)) [
              | inl diagonal ↦
                  clears.outside r i (inl (ground arith)) lt' (to_cols p i valid h)
                  ∙ ground (arith, one, (==_iff r i).0)
              | inr off ↦ clears.cleared r (ground arith) lt' ∙ ground arith
            ]
        | inr other ↦
            let small : c < i = ground arith in
            clears.passed r c (echelon i c small (omega arith) h ∙ ground arith) lt'
              (to_cols p c valid (omega arith))
            ∙ echelon r c small b lt'
      ]
