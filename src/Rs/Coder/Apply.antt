-- ===== src/Rs/Coder/Apply.antt =====
-- A matrix applied to slices of bytes, element by element.
use Prim.Native.Nat.{bit_xor}
use par2engine.Base.{
  ℕ, suc, ◌+◌, ◌/◌, ◌%◌, ◌≤◌, ◌<◌, ◌≡◌, refl, sym, ap, ◌∙◌, arith, List, [], ◌∷◌, length, get_or,
  ok,
}
use par2engine.Bits.{bit_xor-zero, xor_assoc}
use par2engine.Gf16.Poly.{times_poly}
use par2engine.Gf16.Slice.Spec.{IsBytes, words}
use par2engine.Gf16.Field.{FieldOps, IsFieldOps}
use par2engine.Rs.Matrix.{Matrix, entry}
use par2engine.Rs.Matrix.Entries.{IsMatrix, entry-lt, at_lem}
use par2engine.Rs.Matrix.RowOps.{length-words, zip_with-get}
use par2engine.Rs.Coder.{add_columns, apply_row}

-- The element `w` of a slice of bytes.
abbrev pub word : List ℕ → ℕ → ℕ
word bs w = get_or (words bs) w 0

-- Slices of bytes, all of one length.
abbrev pub AllSlices : ℕ → List (List ℕ) → Type 0
AllSlices n [] = Unit
AllSlices n (s ∷ slices) = IsBytes s × (length s ≡ n) × AllSlices n slices

-- The sum of the products of the elements `w` of the slices with the entries of the row `i` from the
-- column `j` on.
unfoldable pub sum_from : Matrix → ℕ → ℕ → List (List ℕ) → ℕ → ℕ
sum_from m i j [] w = 0
sum_from m i j (s ∷ ins) w =
    bit_xor (times_poly (entry m i j) (word s w)) (sum_from m i (suc j) ins w)

-- A slice of bytes of the length `n` whose elements are those of `g`.
abbrev pub Stores : ℕ → (ℕ → ℕ) → List ℕ → Type 0
Stores n g bs = IsBytes bs × (length bs ≡ n) × ((w : ℕ) → w < n / 2 → word bs w ≡ g w)

module _ (f : FieldOps) (laws : IsFieldOps f) (m : Matrix) (valid : IsMatrix m) (i : ℕ)
    (h : i < m.rows) (n : ℕ) (even : n % 2 ≡ 0) where
  add_columns_lem :
      (j : ℕ) (ins : List (List ℕ)) (out : List ℕ)
      → AllSlices n ins
      → length ins + j ≤ m.cols
      → IsBytes out
      → length out ≡ n
      → (result : List ℕ) × (add_columns f m i j ins out ≡ ok result)
        × Stores n (λ w. bit_xor (word out w) (sum_from m i j ins w)) result
  unfolding add_columns sum_from
  add_columns_lem j [] out slices room bytes size =
      (out, refl, (bytes, size, λ w l. sym (bit_xor-zero (word out w))))
  add_columns_lem j (s ∷ ins) out slices room bytes size =
      let run = at_lem m i j h (omega arith) in
      let c = entry m i j in
      let (out', run', size', bytes', e) =
        laws.mul_and_add_lem c s out (entry-lt m i j valid) slices.0 bytes (slices.1 ∙ sym size)
          (ap (λ (k : ℕ). k % 2) slices.1 ∙ even) in
      let (result, run'', (bytes'', size'', e'')) =
        add_columns_lem (suc j) ins out' slices.2 (omega arith) bytes' (size' ∙ size) in
      (
        result,
        rw (run, run') run'',
        (
          bytes'',
          size'',
          λ w l.
              e'' w l
              ∙ ap (λ (t : ℕ). bit_xor t (sum_from m i (suc j) ins w))
                  (ap (λ (ts : List ℕ). get_or ts w 0) e
                    ∙ zip_with-get (λ v d. bit_xor d (times_poly c v)) (words s) (words out) w
                        (length-words s
                          ∙ ap (λ (k : ℕ). k / 2) (slices.1 ∙ sym size)
                          ∙ sym (length-words out))
                        (omega (arith, length-words s, ap (λ (k : ℕ). k / 2) slices.1)))
              ∙ xor_assoc (word out w) (times_poly c (word s w)) (sum_from m i (suc j) ins w),
        ),
      )

  pub apply_row_lem :
      (s : List ℕ) (ins : List (List ℕ)) (out : List ℕ)
      → AllSlices n (s ∷ ins)
      → suc (length ins) ≤ m.cols
      → IsBytes out
      → length out ≡ n
      → (result : List ℕ) × (apply_row f m i (s ∷ ins) out ≡ ok result)
        × Stores n (sum_from m i 0 (s ∷ ins)) result
  unfolding apply_row sum_from
  apply_row_lem s ins out slices room bytes size =
      let run = at_lem m i 0 h (omega arith) in
      let c = entry m i 0 in
      let (out', run', size', bytes', e) =
        laws.mul_lem c s out (entry-lt m i 0 valid) slices.0 bytes (slices.1 ∙ sym size)
          (ap (λ (k : ℕ). k % 2) slices.1 ∙ even) in
      let (result, run'', (bytes'', size'', e'')) =
        add_columns_lem 1 ins out' slices.2 (omega arith) bytes' (size' ∙ size) in
      (
        result,
        rw (run, run') run'',
        (
          bytes'',
          size'',
          λ w l.
              e'' w l
              ∙ ap (λ (t : ℕ). bit_xor t (sum_from m i 1 ins w))
                  (ap (λ (ts : List ℕ). get_or ts w 0) e
                    ∙ zip_with-get (λ v d. times_poly c v) (words s) (words out) w
                        (length-words s
                          ∙ ap (λ (k : ℕ). k / 2) (slices.1 ∙ sym size)
                          ∙ sym (length-words out))
                        (omega (arith, length-words s, ap (λ (k : ℕ). k / 2) slices.1))),
        ),
      )
