-- ===== src/Rs/Coder/Vandermonde.antt =====
-- The parity matrix of the coder.
use par2engine.Base.{
  ℕ, zero, suc, ◌+◌, ◌-◌, ◌*◌, ◌%◌, ◌^◌, ◌≤◌, ◌<◌, ◌==◌, ◌||◌, ltb, ◌≡◌, refl, sym, subst, ap, ap₂,
  ◌∙◌, arith, List, [], ◌∷◌, length, take, map, get_or, length-map, length-take, ok, false, if_elim,
}
use par2engine.Gf16.Poly.{order}
use par2engine.Gf16.Field.{FieldOps, IsFieldOps}
use par2engine.Gf16.Tables.Ops.{repeated, repeated-lt}
use par2engine.Rs.Matrix.{Matrix, entry}
use par2engine.Rs.Matrix.Entries.{IsMatrix, get_or-take}
use par2engine.Rs.Coder.{
  Coder, generators_from, vandermonde_rows, new_vandermonde_matrix, new_coder, flat,
}
use par2engine.Rs.Coder.Generators.{IsGenerators, generators_lem}
use par2engine.Rs.Coder.Flat.{InField, AllRows, of_rows-IsMatrix, get_or-flat}
use par2engine.Rs.Coder.Parts.{IsCoder}

module _ (f : FieldOps) (laws : IsFieldOps f) where
  power-lt : (t p : ℕ) → t < order → f.power_of t p < order
  power-lt t p h = subst (λ (s : ℕ). s < order) (sym (laws.power_of_lem t p h)) (repeated-lt t p h)

  generators-InField : (rounds i : ℕ) → InField (generators_from f rounds i)
  unfolding generators_from
  generators-InField zero i = λ k. omega arith
  generators-InField (suc rounds) i =
      if_elim InField (i % 3 == 0 || i % 5 == 0 || i % 17 == 0 || i % 257 == 0)
        (λ e. generators-InField rounds (suc i))
        (λ ne. with_power i _ (generators-InField rounds (suc i)))
    where
      with_power : (i : ℕ) (gs : List ℕ) → InField gs → InField (f.power_of 2 i ∷ gs)
      with_power i gs h zero = power-lt 2 i (omega arith)
      with_power i gs h (suc k) = h k

  powers-InField : (i : ℕ) (gs : List ℕ) → InField gs → InField (map (λ g. f.power_of g i) gs)
  powers-InField i [] h k = omega arith
  powers-InField i (g ∷ gs) h zero = power-lt g i (h 0)
  powers-InField i (g ∷ gs) h (suc k) = powers-InField i gs (λ l. h (suc l)) k

  vandermonde-AllRows :
      (rounds i : ℕ) (gs : List ℕ)
      → InField gs
      → AllRows (length gs) (vandermonde_rows f rounds i gs)
  unfolding vandermonde_rows
  vandermonde-AllRows zero i gs h = tt
  vandermonde-AllRows (suc rounds) i gs h = (
    length-map gs (λ g. f.power_of g i),
    powers-InField i gs h,
    vandermonde-AllRows rounds (suc i) gs h,
  )

  length-vandermonde :
      (rounds i : ℕ) (gs : List ℕ) → length (vandermonde_rows f rounds i gs) ≡ rounds
  unfolding vandermonde_rows
  length-vandermonde zero i gs = refl
  length-vandermonde (suc rounds) i gs = ap suc (length-vandermonde rounds (suc i) gs)

  powers-get :
      (i j : ℕ) (gs : List ℕ)
      → j < length gs
      → get_or (map (λ g. f.power_of g i) gs) j 0 ≡ f.power_of (get_or gs j 0) i
  powers-get i j [] h = absurd (omega arith)
  powers-get i zero (g ∷ gs) h = refl
  powers-get i (suc j) (g ∷ gs) h = powers-get i j gs (omega arith)

  vandermonde-get :
      (rounds i k j : ℕ) (gs : List ℕ)
      → k < rounds
      → j < length gs
      → get_or (get_or (vandermonde_rows f rounds i gs) k []) j 0
        ≡ f.power_of (get_or gs j 0) (i + k)
  unfolding vandermonde_rows
  vandermonde-get zero i k j gs h l = absurd (omega arith)
  vandermonde-get (suc rounds) i zero j gs h l =
      powers-get i j gs l ∙ ap (f.power_of (get_or gs j 0)) (omega arith)
  vandermonde-get (suc rounds) i (suc k) j gs h l =
      vandermonde-get rounds (suc i) k j gs (omega arith) l
      ∙ ap (f.power_of (get_or gs j 0)) (omega arith)

  InField-take : (n : ℕ) (gs : List ℕ) → InField gs → InField (take n gs)
  InField-take zero gs h k = omega arith
  InField-take (suc n) [] h k = omega arith
  InField-take (suc n) (g ∷ gs) h zero = h 0
  InField-take (suc n) (g ∷ gs) h (suc k) = InField-take n gs (λ l. h (suc l)) k

  -- `NewVandermondeMatrix`
  vandermonde_lem :
      (rows cols : ℕ) (gs : List ℕ)
      → 0 < rows
      → 0 < cols
      → cols ≤ length gs
      → InField gs
      → (m : Matrix) × (new_vandermonde_matrix f rows cols gs ≡ ok m)
        × IsMatrix m
        × (m.rows ≡ rows)
        × (m.cols ≡ cols)
        × ((i j : ℕ) → i < rows → j < cols → entry m i j ≡ f.power_of (get_or gs j 0) i)
  unfolding new_vandermonde_matrix
  vandermonde_lem rows cols gs h l enough small =
      let dims : (rows == 0 || cols == 0) ≡ false = ground arith in
      let fits : ltb (length gs) cols ≡ false = ground arith in
      let rs = vandermonde_rows f rows 0 (take cols gs) in
      let width : length (take cols gs) ≡ cols = omega (arith, length-take cols gs) in
      let all : AllRows cols rs =
        subst (λ (c : ℕ). AllRows c rs) width
          (vandermonde-AllRows rows 0 (take cols gs) (InField-take cols gs small)) in
      let height = length-vandermonde rows 0 (take cols gs) in
      let made = of_rows-IsMatrix cols rs all in
      (
        record { rows = rows; cols = cols; elements = flat rs },
        rw (dims, fits),
        record { size = made.size ∙ ap (λ (k : ℕ). k * cols) height; in_field = made.in_field },
        refl,
        refl,
        λ i j k t.
            get_or-flat cols i j rs all (omega (arith, height)) t
            ∙ vandermonde-get rows 0 i j (take cols gs) k (omega (arith, width))
            ∙ ap₂ f.power_of (get_or-take cols gs j t) (zero_plus i),
      )
    where
      zero_plus : (i : ℕ) → 0 + i ≡ i
      zero_plus i = omega arith

  -- With operations of gf16 that keep their contract, some data shards, no more than there are
  -- generators, and between 1 and 65535 parity shards, `NewCoderPAR2Vandermonde` returns a
  -- well-formed coder of these counts; the entry of its parity matrix in a row and a column is the
  -- generator of the column multiplied by itself as often as the row tells; and the generators are
  -- the powers of 2 with all exponents below 65536 that have no factor in common with 65535, in
  -- ascending order.
  pub new_coder_lem :
      (data_shards parity_shards : ℕ)
      → 0 < data_shards
      → 0 < parity_shards
      → data_shards ≤ length (generators_from f (2 ^ 16) 0)
      → parity_shards ≤ 2 ^ 16 - 1
      → (coder : Coder) × (new_coder f data_shards parity_shards ≡ ok coder)
        × IsCoder coder
        × (coder.data_shards ≡ data_shards)
        × (coder.parity_shards ≡ parity_shards)
        × ((i j : ℕ)
            → i < parity_shards
            → j < data_shards
            → entry coder.parity_matrix i j
              ≡ repeated (get_or (generators_from f (2 ^ 16) 0) j 0) i)
        × IsGenerators (2 ^ 16) 0 (generators_from f (2 ^ 16) 0)
  unfolding new_coder
  new_coder_lem d p h l enough room =
      let gs = generators_from f (2 ^ 16) 0 in
      let small = generators-InField (2 ^ 16) 0 in
      let (m, run, valid, rows_fit, cols_fit, entries) = vandermonde_lem p d gs l h enough small in
      let counts : (d == 0 || p == 0) ≡ false = ground arith in
      let fits : ltb (length gs) d ≡ false = ground arith in
      let fits' : ltb (2 ^ 16 - 1) p ≡ false = ground arith in
      (
        record { data_shards = d; parity_shards = p; parity_matrix = m },
        rw (counts, fits, fits', run),
        record { valid = valid; rows_fit = rows_fit; cols_fit = cols_fit },
        refl,
        refl,
        λ i j k t. entries i j k t ∙ laws.power_of_lem (get_or gs j 0) i (small j),
        generators_lem f laws (2 ^ 16) (2 ^ 16) 0 (omega arith),
      )

pub some_generator : (f : FieldOps) (n : ℕ) → 1 ≤ length (generators_from f (suc (suc n)) 0)
unfolding generators_from
some_generator f n = omega arith
