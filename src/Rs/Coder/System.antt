-- ===== src/Rs/Coder/System.antt =====
-- The two matrices of `makeReconstructionMatrix`, and what its result gives back.
use par2engine.Base.{
  ℕ, zero, suc, ◌+◌, ◌-◌, ◌<◌, ◌==◌, ◌||◌, ◌≡◌, refl, sym, ap, ap₂, ◌∙◌, arith, List, [], ◌∷◌, ◌++◌,
  map, length, take, get_or, length-append, length-map, ok, false,
}
use par2engine.Gf16.Field.{FieldOps}
use par2engine.Rs.Matrix.{Matrix, pair, entry, row_reduce_for_inverse}
use par2engine.Rs.Matrix.Entries.{IsMatrix, at_lem}
use par2engine.Rs.Matrix.Follows.{IsPair}
use par2engine.Rs.Coder.{
  flat, at_all, unit_part, missing_part, known_part, make_reconstruction_matrix,
}
use par2engine.Rs.Coder.Flat.{
  InField-append, InField-map, InField-unit_part, AllRows, of_rows, of_rows-IsMatrix,
  length-unit_part,
}

-- Numbers below a bound.
abbrev pub AllLess : ℕ → List ℕ → Type 0
AllLess n [] = Unit
AllLess n (j ∷ js) = (j < n) × AllLess n js

at_all_lem :
    (m : Matrix) (i : ℕ) (js : List ℕ)
    → i < m.rows
    → AllLess m.cols js
    → at_all m i js ≡ ok (map (entry m i) js)
unfolding at_all
at_all_lem m i [] h k = refl
at_all_lem m i (j ∷ js) h k = rw (at_lem m i j h k.0, at_all_lem m i js h k.1)

-- The rows of the two matrices.
abbrev pub missing_rows_of : Matrix → List ℕ → List ℕ → List (List ℕ)
missing_rows_of parity missing [] = []
missing_rows_of parity missing (k ∷ used) =
    map (entry parity k) missing ∷ missing_rows_of parity missing used

abbrev pub known_rows_of : Matrix → List ℕ → ℕ → ℕ → List ℕ → List (List ℕ)
known_rows_of parity available pad i [] = []
known_rows_of parity available pad i (k ∷ used) =
    (map (entry parity k) available ++ unit_part pad i 0)
    ∷ known_rows_of parity available pad (suc i) used

module _ (parity : Matrix) (valid : IsMatrix parity) where
  missing_part_lem :
      (missing used : List ℕ)
      → AllLess parity.cols missing
      → AllLess parity.rows used
      → missing_part parity missing used ≡ ok (missing_rows_of parity missing used)
  unfolding missing_part
  missing_part_lem missing [] h k = refl
  missing_part_lem missing (r ∷ used) h k =
      rw (at_all_lem parity r missing k.0 h, missing_part_lem missing used h k.1)

  known_part_lem :
      (available used : List ℕ) (pad i : ℕ)
      → AllLess parity.cols available
      → AllLess parity.rows used
      → known_part parity available pad i used ≡ ok (known_rows_of parity available pad i used)
  unfolding known_part
  known_part_lem available [] pad i h k = refl
  known_part_lem available (r ∷ used) pad i h k =
      rw (at_all_lem parity r available k.0 h, known_part_lem available used pad (suc i) h k.1)

  pub missing-AllRows :
      (missing used : List ℕ) → AllRows (length missing) (missing_rows_of parity missing used)
  missing-AllRows missing [] = tt
  missing-AllRows missing (k ∷ used) = (
    length-map missing (entry parity k),
    InField-map parity k missing valid,
    missing-AllRows missing used,
  )

  pub known-AllRows :
      (available used : List ℕ) (pad i : ℕ)
      → AllRows (length available + pad) (known_rows_of parity available pad i used)
  known-AllRows available [] pad i = tt
  known-AllRows available (k ∷ used) pad i = (
    omega (
      arith,
      length-append {0} (map (entry parity k) available) (unit_part pad i 0),
      length-map available (entry parity k),
      length-unit_part pad i 0,
    ),
    InField-append _ _ (InField-map parity k available valid) (InField-unit_part pad i 0),
    known-AllRows available used pad (suc i),
  )

pub missing_rows_of-get :
    (parity : Matrix) (missing used : List ℕ) (i : ℕ)
    → i < length used
    → get_or (missing_rows_of parity missing used) i []
      ≡ map (entry parity (get_or used i 0)) missing
missing_rows_of-get parity missing [] i h = absurd (omega arith)
missing_rows_of-get parity missing (k ∷ used) zero h = refl
missing_rows_of-get parity missing (k ∷ used) (suc i) h =
    missing_rows_of-get parity missing used i (omega arith)

pub known_rows_of-get :
    (parity : Matrix) (available used : List ℕ) (pad j i : ℕ)
    → i < length used
    → get_or (known_rows_of parity available pad j used) i []
      ≡ map (entry parity (get_or used i 0)) available ++ unit_part pad (j + i) 0
known_rows_of-get parity available [] pad j i h = absurd (omega arith)
known_rows_of-get parity available (k ∷ used) pad j zero h = let e : j + 0 ≡ j = omega arith in rw e
known_rows_of-get parity available (k ∷ used) pad j (suc i) h =
    let e : j + suc i ≡ suc j + i = omega arith in
    rw e (known_rows_of-get parity available used pad (suc j) i (omega arith))

pub length-missing :
    (parity : Matrix) (missing used : List ℕ)
    → length (missing_rows_of parity missing used) ≡ length used
length-missing parity missing [] = refl
length-missing parity missing (k ∷ used) = ap suc (length-missing parity missing used)

pub length-known :
    (parity : Matrix) (available used : List ℕ) (pad i : ℕ)
    → length (known_rows_of parity available pad i used) ≡ length used
length-known parity available [] pad i = refl
length-known parity available (k ∷ used) pad i =
    ap suc (length-known parity available used pad (suc i))

abbrev matrix_of : ℕ → ℕ → List ℕ → Matrix
matrix_of r c ts = record { rows = r; cols = c; elements = ts }

take_all : (xs : List ℕ) → take (length xs) xs ≡ xs
take_all [] = refl
take_all (x ∷ xs) = ap (◌∷◌ x) (take_all xs)

abbrev pub left_matrix : Matrix → List ℕ → List ℕ → Matrix
left_matrix parity missing used = of_rows (length missing) (missing_rows_of parity missing used)

abbrev pub right_matrix : Matrix → List ℕ → List ℕ → List ℕ → Matrix
right_matrix parity available missing used =
    of_rows (length available + length missing)
      (known_rows_of parity available (length missing) 0 used)

module _ (f : FieldOps) (parity : Matrix) (valid : IsMatrix parity)
    (available missing used : List ℕ) (some_used : 0 < length used)
    (square : length used ≡ length missing) (in_cols : AllLess parity.cols available)
    (in_cols' : AllLess parity.cols missing) (in_rows : AllLess parity.rows used) where
  pub matrices-IsPair :
      IsPair (pair (left_matrix parity missing used) (right_matrix parity available missing used))
  matrices-IsPair = record {
    left_valid = of_rows-IsMatrix _ _ (missing-AllRows parity valid missing used);
    right_valid =
        of_rows-IsMatrix _ _ (known-AllRows parity valid available used (length missing) 0);
    square = sym (length-missing parity missing used ∙ square);
    rows_fit =
        length-known parity available used (length missing) 0
        ∙ sym (length-missing parity missing used);
  }

  pub make_reconstruction_matrix_lem :
      (data_shards : ℕ)
      → data_shards ≡ length available + length missing
      → make_reconstruction_matrix f data_shards available missing used parity
        ≡ row_reduce_for_inverse f
            (left_matrix parity missing used)
            (right_matrix parity available missing used)
  unfolding make_reconstruction_matrix
  make_reconstruction_matrix_lem data_shards e =
      let no_used : (length used == 0 || length used == 0) ≡ false = ground arith in
      let no_data : (length used == 0 || data_shards == 0) ≡ false = ground arith in
      let taken : take (length used) missing ≡ missing =
        ap (λ (k : ℕ). take k missing) square ∙ take_all missing in
      let pad : data_shards - length available ≡ length missing = omega arith in
      rw
        (
          no_used,
          taken,
          missing_part_lem parity valid missing used in_cols' in_rows,
          no_data,
          pad,
          known_part_lem parity valid available used (length missing) 0 in_cols in_rows,
        )
        (ap₂ (row_reduce_for_inverse f)
          (ap₂ (λ (r c : ℕ). matrix_of r c (flat (missing_rows_of parity missing used)))
            (sym (length-missing parity missing used)) square)
          (ap₂
            (λ (r c : ℕ).
              matrix_of r c (flat (known_rows_of parity available (length missing) 0 used)))
            (sym (length-known parity available used (length missing) 0)) e))
