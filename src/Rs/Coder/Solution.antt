-- ===== src/Rs/Coder/Solution.antt =====
-- The reconstruction matrix gives the missing elements back.
use Prim.Native.Nat.{bit_xor}
use par2engine.Base.{
  ℕ, ◌+◌, ◌-◌, ◌<◌, ◌≡◌, refl, sym, ap, ap₂, ◌∙◌, arith, List, ◌++◌, map, length, get_or,
  length-append, length-map,
}
use par2engine.Bits.{xor_assoc, xor_self, xor-lt, zero-bit_xor, xor_cancel}
use par2engine.Gf16.Poly.{order}
use par2engine.Rs.Matrix.{Matrix, entry}
use par2engine.Rs.Matrix.Entries.{IsMatrix, entry-lt}
use par2engine.Rs.Matrix.Dot.{dot, dot_congr, dot-lt, xor-dot}
use par2engine.Rs.Matrix.Follows.{row_dot}
use par2engine.Rs.Matrix.Inverse.{IsSolution}
use par2engine.Rs.Coder.{unit_part}
use par2engine.Rs.Coder.Sums.{sum, dot-sum, sum-append, sum-unit_part, dot-dot}
use par2engine.Rs.Coder.Flat.{
  InField, InField-append, of_rows, of_rows-IsMatrix, get_or-flat, length-unit_part,
}
use par2engine.Rs.Coder.System.{
  missing_rows_of, known_rows_of, missing_rows_of-get, known_rows_of-get, length-missing,
  length-known, missing-AllRows, known-AllRows,
}

cancel : (a b : ℕ) → bit_xor a (bit_xor a b) ≡ b
cancel a b = sym (xor_assoc a a b) ∙ ap (λ (t : ℕ). bit_xor t b) (xor_self a) ∙ zero-bit_xor b

same_of : (a b : ℕ) → bit_xor a b ≡ 0 → a ≡ b
same_of a b h = sym (xor_cancel a b) ∙ ap (λ (t : ℕ). bit_xor t b) h ∙ zero-bit_xor b

module _ (parity : Matrix) (valid : IsMatrix parity) (available missing used : List ℕ)
    (square : length used ≡ length missing) (xs zs ds : List ℕ)
    (xs_fit : length xs ≡ length available) (zs_fit : length zs ≡ length missing)
    (ds_fit : length ds ≡ length missing) (xs_small : InField xs) (zs_small : InField zs)
    (ds_small : InField ds)
    (asked : (i : ℕ)
      → i < length used
      → bit_xor
          (sum (map (entry parity (get_or used i 0)) available) xs)
          (sum (map (entry parity (get_or used i 0)) missing) ds)
        ≡ get_or zs i 0) where
  abbrev m : Matrix
  m = of_rows (length missing) (missing_rows_of parity missing used)

  abbrev n : Matrix
  n =
      of_rows (length available + length missing)
        (known_rows_of parity available (length missing) 0 used)

  abbrev input : ℕ → ℕ
  input c = get_or (xs ++ zs) c 0

  -- The missing elements under the first matrix.
  missing_side :
      (i : ℕ)
      → i < length used
      → row_dot m i (λ j. get_or ds j 0) ≡ sum (map (entry parity (get_or used i 0)) missing) ds
  missing_side i h =
      dot_congr (length missing) (entry m i)
        (λ j. get_or (map (entry parity (get_or used i 0)) missing) j 0) _ _
        (λ j l.
          get_or-flat (length missing) i j (missing_rows_of parity missing used)
            (missing-AllRows parity valid missing used)
            (omega (arith, length-missing parity missing used)) l
          ∙ ap (λ (r : List ℕ). get_or r j 0) (missing_rows_of-get parity missing used i h))
        (λ j l. refl)
      ∙ ap
          (λ (k : ℕ).
            dot k (λ j. get_or (map (entry parity (get_or used i 0)) missing) j 0)
              (λ j. get_or ds j 0))
          (sym ds_fit)
      ∙ dot-sum (map (entry parity (get_or used i 0)) missing) ds
          (length-map missing (entry parity (get_or used i 0)) ∙ sym ds_fit)

  input_size : length (xs ++ zs) ≡ length available + length missing
  input_size = omega (arith, length-append {0} xs zs, xs_fit, zs_fit)

  -- The input under the second matrix.
  known_side :
      (i : ℕ)
      → i < length used
      → dot (length available + length missing) (entry n i) input
        ≡ sum (map (entry parity (get_or used i 0)) missing) ds
  known_side i h =
      let row = map (entry parity (get_or used i 0)) available ++ unit_part (length missing) i 0 in
      dot_congr (length available + length missing) (entry n i) (λ j. get_or row j 0) _ _
        (λ j l.
          get_or-flat (length available + length missing) i j
            (known_rows_of parity available (length missing) 0 used)
            (known-AllRows parity valid available used (length missing) 0)
            (omega (arith, length-known parity available used (length missing) 0)) l
          ∙ ap (λ (r : List ℕ). get_or r j 0)
              (known_rows_of-get parity available used (length missing) 0 i h
                ∙ ap
                    (λ (k : ℕ).
                      map (entry parity (get_or used i 0)) available
                      ++ unit_part (length missing) k 0)
                    (zero_plus i)))
        (λ j l. refl)
      ∙ ap (λ (k : ℕ). dot k (λ j. get_or row j 0) input) (sym input_size)
      ∙ dot-sum row (xs ++ zs) (
          omega (
            arith,
            length-append {0} (map (entry parity (get_or used i 0)) available)
                (unit_part (length missing) i 0),
            length-map available (entry parity (get_or used i 0)),
            length-unit_part (length missing) i 0,
            xs_fit,
            zs_fit,
            length-append {0} xs zs,
          ))
      ∙ sum-append (map (entry parity (get_or used i 0)) available) (unit_part (length missing) i 0)
          xs zs (length-map available (entry parity (get_or used i 0)) ∙ sym xs_fit)
      ∙ ap (bit_xor (sum (map (entry parity (get_or used i 0)) available) xs)) (
          ap (λ (k : ℕ). sum (unit_part k i 0) zs) (sym zs_fit)
          ∙ sum-unit_part i 0 zs zs_small (omega arith)
          ∙ ap (λ (k : ℕ). get_or zs k 0) (minus_zero i)
          ∙ sym (asked i h))
      ∙ cancel _ _
    where
      zero_plus : (i : ℕ) → 0 + i ≡ i
      zero_plus i = omega arith

      minus_zero : (i : ℕ) → i - 0 ≡ i
      minus_zero i = omega arith

  -- The rows of the result, applied to the input, are the missing elements.
  pub solution_lem :
      (result : Matrix)
      → IsSolution m n result
      → (j : ℕ) → j < length missing
      → dot (length available + length missing) (entry result j) input ≡ get_or ds j 0
  solution_lem result solution j l =
      let width = length available + length missing in
      let y = λ (k : ℕ). dot width (entry result k) input in
      let d = λ (k : ℕ). get_or ds k 0 in
      let entry_small = λ (k c : ℕ). entry-lt result k c solution.valid in
      let y_small = λ (k : ℕ). dot-lt width (entry result k) input (λ c t. entry_small k c) in
      let rows = length-missing parity missing used in
      let zero_row = λ (i : ℕ) (h : i < m.rows).
        (let h' : i < length used = omega (arith, rows) in
          xor-dot (length missing) (entry m i) y d (λ c t. m_small i c)
          ∙ ap₂ bit_xor
              (dot-dot (length missing) width (entry m i) (entry result) input (λ c t. m_small i c)
                  entry_small input_small
                ∙ dot_congr width _ (entry n i) input input (λ c t. solution.solves c t i h)
                    (λ c t. refl)
                ∙ known_side i h')
              (missing_side i h')
          ∙ xor_self _) in
      same_of (y j) (d j) (
        solution.injective (λ k. bit_xor (y k) (d k)) (λ k. xor-lt 16 _ _ (y_small k) (ds_small k))
          zero_row j (omega (arith, rows, square)))
    where
      m_small : (i c : ℕ) → entry m i c < order
      m_small i c =
          entry-lt m i c (of_rows-IsMatrix _ _ (missing-AllRows parity valid missing used))

      input_small : (c : ℕ) → input c < order
      input_small = InField-append xs zs xs_small zs_small
