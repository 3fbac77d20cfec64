-- ===== src/Rs/Matrix/Kernel.antt =====
-- Where the search for a pivot fails, some column that is not all zeros is taken to zeros.
use Prim.Native.Nat.{bit_xor}
use par2engine.Base.{
  ℕ, zero, suc, ◌≤◌, ◌<◌, ◌==◌, if◌then◌else◌, ◌≡◌, ◌≢◌, refl, ap, ap₂, ◌∙◌, arith, Bool-cases, inl,
  inr, true, false, ==_iff,
}
use par2engine.Bits.{xor-lt, xor_self, zero-bit_xor, bit_xor-zero}
use par2engine.Gf16.Poly.{order, times_poly}
use par2engine.Gf16.Poly.Laws.{times_poly-zero, zero-times_poly, one-times_poly, times_poly-one}
use par2engine.Rs.Matrix.{Matrix, entry}
use par2engine.Rs.Matrix.Entries.{IsMatrix, entry-lt}
use par2engine.Rs.Matrix.Dot.{dot, Below, dot-lt, xor-dot, unit_row}
use par2engine.Rs.Matrix.Follows.{IsColumn, IsSingular, row_dot}
use par2engine.Rs.Matrix.Pivot.{IsEchelon, NoPivot}

-- One element, and zeros elsewhere.
abbrev single : ℕ → ℕ → ℕ → ℕ
single k s j = if j == k then s else 0

single-lt : (k s j : ℕ) → s < order → single k s j < order
single-lt k s j h = ground arith

dot-single_behind : (n k s : ℕ) (a : ℕ → ℕ) → ((j : ℕ) → j < n → j ≢ k) → dot n a (single k s) ≡ 0
unfolding dot
dot-single_behind zero k s a h = refl
dot-single_behind (suc n) k s a h =
    let other : (n == k) ≡ false = ground (arith, h n (omega arith)) in
    rw (other, times_poly-zero (a n), dot-single_behind n k s a (λ j l. h j (omega arith))) refl

dot-single : (n k s : ℕ) (a : ℕ → ℕ) → k < n → dot n a (single k s) ≡ times_poly (a k) s
unfolding dot
dot-single zero k s a h = absurd (omega arith)
dot-single (suc n) k s a h = elim (Bool-cases (n == k)) [
  | inl same ↦
      let e = (==_iff n k).0 same in
      rw (same, dot-single_behind n k s a (λ j l. ne j (omega arith)))
        (zero-bit_xor (times_poly (a n) s) ∙ ap (λ (t : ℕ). times_poly (a t) s) e)
  | inr other ↦
      rw (other, times_poly-zero (a n))
        (bit_xor-zero (dot n a (single k s)) ∙ dot-single n k s a (ground (arith, other)))
]
  where
    ne : (j : ℕ) → j < k → j ≢ k
    ne j h e = omega arith

module _ (m : Matrix) (valid : IsMatrix m) (square : m.cols ≡ m.rows) (i : ℕ) (h : i < m.rows)
    (echelon : IsEchelon i m) (none : NoPivot i m) where
  -- The rows from `k` on take the column to zeros; it has a one at `i`, and zeros before `k`.
  record IsPartial (k : ℕ) (x : ℕ → ℕ) : Type 0 where
    pub column : IsColumn x
    pub front : (j : ℕ) → j < k → x j ≡ 0
    pub one : x i ≡ 1
    pub zeros : (r : ℕ) → k ≤ r → r < m.rows → row_dot m r x ≡ 0

  in_row : (r : ℕ) → Below m.cols (entry m r)
  in_row r j l = entry-lt m r j valid

  start : IsPartial i (single i 1)
  start = record {
    column = λ j. single-lt i 1 j (omega arith);
    front = λ j l. ground arith;
    one = ground arith;
    zeros = λ r a b.
        dot-single m.cols i 1 (entry m r) (omega arith)
        ∙ times_poly-one (entry m r i) (entry-lt m r i valid)
        ∙ none r a b;
  }

  abbrev step_of : ℕ → (ℕ → ℕ) → ℕ → ℕ
  step_of k x j = bit_xor (x j) (single k (row_dot m k x) j)

  step : (k : ℕ) (x : ℕ → ℕ) → k < i → IsPartial (suc k) x → IsPartial k (step_of k x)
  step k x l part =
      let s = row_dot m k x in
      let s_small : s < order = dot-lt m.cols (entry m k) x (in_row k) in
      record {
        column = λ j. xor-lt 16 (x j) (single k s j) (part.column j) (single-lt k s j s_small);
        front = λ j a. ap₂ bit_xor (part.front j (omega arith)) (away k s j (omega arith));
        one = ap₂ bit_xor part.one (away k s i (omega arith));
        zeros = λ r a b.
            xor-dot m.cols (entry m r) x (single k s) (in_row r)
            ∙ ap (bit_xor (row_dot m r x)) (dot-single m.cols k s (entry m r) (omega arith))
            ∙ elim (Bool-cases (r == k)) [
              | inl same ↦
                  let e = (==_iff r k).0 same in
                  ap₂ bit_xor (ap (λ (t : ℕ). row_dot m t x) e) (
                    ap (λ (t : ℕ). times_poly t s) (echelon r k l a b ∙ diagonal r same)
                    ∙ one-times_poly s s_small)
                  ∙ xor_self s
              | inr other ↦ ap₂ bit_xor (part.zeros r (ground (arith, other)) b) (
                  ap (λ (t : ℕ). times_poly t s) (echelon r k l a b ∙ off r other)
                  ∙ zero-times_poly s)
            ];
      }
    where
      away : (k s j : ℕ) → j ≢ k → single k s j ≡ 0
      away k s j ne = ground (arith, ne)

      diagonal : (r : ℕ) → (r == k) ≡ true → unit_row k r ≡ 1
      diagonal r same = rw same

      off : (r : ℕ) → (r == k) ≡ false → unit_row k r ≡ 0
      off r other = rw other

  descend : (k : ℕ) → k ≤ i → (x : ℕ → ℕ) → IsPartial k x → (y : ℕ → ℕ) × IsPartial 0 y
  descend zero l x part = (x, part)
  descend (suc k) l x part = descend k (omega arith) (step_of k x) (step k x (omega arith) part)

  pub no_pivot-IsSingular : IsSingular m
  no_pivot-IsSingular =
      let (x, part) = descend i (omega arith) (single i 1) start in
      (x, part.column, λ r l. part.zeros r (omega arith) l, (i, h, λ e. omega (arith, e, part.one)))
