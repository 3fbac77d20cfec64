-- ===== src/Gf16/Slice/Scalar.antt =====
-- Every path through the scalar kernels computes the products.
use par2engine.Base.{
  ℕ, zero, suc, ◌+◌, ◌-◌, ◌*◌, ◌%◌, ◌<◌, ◌==◌, ◌≡◌, refl, sym, ap, ◌∙◌, arith, List, [], ◌∷◌,
  length, drop, Bool-cases, inl, inr, leb, if◌then◌else◌, false,
}
use par2engine.Gf16.Poly.{order, times_poly}
use par2engine.Gf16.Poly.Laws.{times_poly-zero}
use par2engine.Gf16.Tables.{Tables}
use par2engine.Gf16.Tables.Init.{HoldsPowers}
use par2engine.Gf16.Tables.Ops.{log_product}
use par2engine.Gf16.MulTable.{MulTable, calc_table}
use par2engine.Gf16.MulTable.Laws.{calc_table_lem}
use par2engine.Gf16.Slice.{word_at, put_word, small_loop, tail_loop, unrolled_loop, scalar_loop}
use par2engine.Gf16.Slice.Spec.{scaled, IsBytes}

drop_two {ℓ} : {A : Type ℓ} (k : ℕ) (xs : List A) → drop 2 (drop k xs) ≡ drop (suc (suc k)) xs
drop_two zero xs = refl
drop_two (suc k) [] = refl
drop_two (suc k) (x ∷ xs) = drop_two k xs

word_at-drop : (k : ℕ) (xs : List ℕ) → word_at (drop k xs) 0 ≡ word_at xs k
word_at-drop zero xs = refl
word_at-drop (suc k) [] = refl
word_at-drop (suc k) (x ∷ xs) = word_at-drop k xs

-- Unrolling changes nothing.
unrolled_loop-eq-tail_loop :
    (mix : ℕ → ℕ → ℕ) (table : MulTable) (ins outs : List ℕ)
    → unrolled_loop mix table ins outs ≡ tail_loop mix table ins outs
unfolding unrolled_loop tail_loop
unrolled_loop-eq-tail_loop mix table (s0 ∷ s1 ∷ s2 ∷ s3 ∷ s4 ∷ s5 ∷ s6 ∷ s7 ∷ ins) outs = rw (
  drop_two 2 outs,
  drop_two 4 outs,
  drop_two 6 outs,
  word_at-drop 2 outs,
  word_at-drop 4 outs,
  word_at-drop 6 outs,
  unrolled_loop-eq-tail_loop mix table ins (drop 8 outs),
)
unrolled_loop-eq-tail_loop mix table ins outs = refl

module _ (mix : ℕ → ℕ → ℕ) (c : ℕ) (small : c < order) where
  tail_loop-eq-scaled :
      (ins outs : List ℕ)
      → IsBytes ins
      → tail_loop mix (calc_table c) ins outs ≡ scaled mix c ins outs
  unfolding tail_loop scaled
  tail_loop-eq-scaled [] outs bytes = refl
  tail_loop-eq-scaled (lo ∷ []) outs bytes = refl
  tail_loop-eq-scaled (lo ∷ hi ∷ ins) outs bytes = rw (
    calc_table_lem c lo hi small bytes.0 bytes.1.0,
    tail_loop-eq-scaled ins (drop 2 outs) bytes.1.1,
  )

  module _ (tables : Tables) (holds : HoldsPowers (order - 1) tables) (pos : 0 < c) where
    product :
        (v : ℕ)
        → v < order
        → (if v == 0
            then 0
            else tables.exp ((tables.log (c - 1) + tables.log (v - 1)) % (order - 1)))
          ≡ times_poly c v
    product zero h = sym (times_poly-zero c)
    product (suc v) h =
        let nonzero : (suc v == 0) ≡ false = ground arith in
        rw nonzero (log_product tables holds c (suc v) pos (omega arith) small h)

    small_loop-eq-scaled :
        (ins outs : List ℕ)
        → IsBytes ins
        → small_loop mix tables (tables.log (c - 1)) ins outs ≡ scaled mix c ins outs
    unfolding small_loop scaled
    small_loop-eq-scaled [] outs bytes = refl
    small_loop-eq-scaled (lo ∷ []) outs bytes = refl
    small_loop-eq-scaled (lo ∷ hi ∷ ins) outs bytes =
        rw (small_loop-eq-scaled ins (drop 2 outs) bytes.1.1) (
          ap (λ (r : ℕ). put_word (mix (word_at outs 0) r) (scaled mix c ins (drop 2 outs)))
            (product (lo + hi * 256) (omega arith)))

    -- A short slice and a long one give the same products.
    pub scalar_loop-eq-scaled :
        (ins outs : List ℕ)
        → IsBytes ins
        → scalar_loop mix tables c ins outs ≡ scaled mix c ins outs
    unfolding scalar_loop
    scalar_loop-eq-scaled ins outs bytes = elim (Bool-cases (leb (length ins) 64)) [
      | inl short ↦ rw short (small_loop-eq-scaled ins outs bytes)
      | inr long ↦ rw long (
          unrolled_loop-eq-tail_loop mix (calc_table c) ins outs
          ∙ tail_loop-eq-scaled ins outs bytes)
    ]
