-- ===== src/Rs/Coder/Reconstruct.antt =====
-- `Reconstruct` gives the missing data shards back.
use Prim.Native.Nat.{bit_xor}
use par2engine.Base.{
  ℕ, ◌+◌, ◌-◌, ◌/◌, ◌%◌, ◌≤◌, ◌<◌, ◌==◌, ◌≡◌, refl, sym, subst, ap, ◌∙◌, arith, List, [], ◌∷◌, ◌++◌,
  map, length, get_or, replicate, Option, some, ok, err, true, false, ◌⊎◌, inl, inr, length-map,
  Bool-cases, ==_iff,
}
use par2engine.Gf16.Field.{FieldOps, IsFieldOps}
use par2engine.Rs.Shards.{
  scan_data, gather, present, analyze_shards, gathered_counts, analyze_shards-ok, scan_data-length,
}
use par2engine.Rs.Lengths.{validate_reconstruct_inputs}
use par2engine.Rs.Matrix.{Matrix, singular_matrix, entry}
use par2engine.Rs.Matrix.Dot.{dot, dot_congr}
use par2engine.Rs.Matrix.Follows.{IsSingular}
use par2engine.Rs.Matrix.Inverse.{IsSolution, row_reduce_for_inverse_lem}
use par2engine.Rs.Coder.{Coder, matrix_error, apply_matrix, reconstruct}
use par2engine.Rs.Coder.Apply.{word, AllSlices, sum_from}
use par2engine.Rs.Coder.Rows.{AllSums, sums_of, apply_matrix_lem}
use par2engine.Rs.Coder.Sums.{sum}
use par2engine.Rs.Coder.Parts.{
  IsCoder, IsPart, lost, elements, IsParity, AllChosen, gather-AllChosen, scan_data-sum,
  restore_lem,
}
use par2engine.Rs.Coder.System.{
  AllLess, left_matrix, right_matrix, matrices-IsPair, make_reconstruction_matrix_lem,
  length-missing,
}
use par2engine.Rs.Coder.Solution.{solution_lem}
use par2engine.Rs.Coder.Setting.{
  scan_data-AllLess, AllChosen-AllLess, AllChosen-get, found-AllSlices, AllSlices-append,
  elements-append, InField-elements, length-lost, sum_from-dot, validate_lem, validate_ok,
  all_there, IsPart-Lengths, IsParity-Lengths,
}

module _ (f : FieldOps) (laws : IsFieldOps f) (num_goroutines block : ℕ)
    (some_goroutine : 0 < num_goroutines) (even_block : block % 2 ≡ 0) (coder : Coder)
    (valid : IsCoder coder) (truth : List (List ℕ)) (shards parity : List (Option (List ℕ))) (n : ℕ)
    (even : n % 2 ≡ 0) (all : AllSlices n truth) (part : IsPart shards truth)
    (count : length shards ≡ coder.data_shards) (room : length parity ≤ coder.parity_shards)
    (sums : IsParity coder.parity_matrix truth n 0 parity) where
  abbrev p : Matrix
  p = coder.parity_matrix

  abbrev available : List ℕ
  available = (scan_data 0 shards).available_rows

  abbrev missing : List ℕ
  missing = (scan_data 0 shards).missing_rows

  abbrev found : List (List ℕ)
  found = (scan_data 0 shards).input

  abbrev used : List ℕ
  used = (gather (length shards - length found) 0 parity).rows

  abbrev chosen : List (List ℕ)
  chosen = (gather (length shards - length found) 0 parity).shards

  abbrev targets : List (List ℕ)
  targets = lost shards truth

  chosen_all : AllChosen p truth n used chosen
  chosen_all =
      gather-AllChosen p truth n (length shards - length found) 0 parity sums
        (omega (arith, valid.rows_fit))

  in_cols : AllLess p.cols available × AllLess p.cols missing
  in_cols = scan_data-AllLess p.cols 0 shards (omega (arith, valid.cols_fit))

  widths : length available + length missing ≡ length shards
  widths = omega (arith, (length-lost 0 shards truth part).2, scan_data-length 0 shards)

  module _ (some_missing : 0 < length missing) (enough : length missing ≤ present parity) where
    counts :
        (length used ≡ length missing)
        × (length chosen ≡ length missing)
        × (length (found ++ chosen) ≡ length shards)
    counts = gathered_counts shards parity enough

    slices : AllSlices n (found ++ chosen)
    slices =
        AllSlices-append n found chosen (found-AllSlices n 0 shards truth part all).0
          (AllChosen-AllLess p truth n used chosen chosen_all).1

    -- The sums that a used parity shard asks for.
    asked :
        (w : ℕ)
        → w < n / 2
        → (i : ℕ) → i < length used
        → bit_xor
            (sum (map (entry p (get_or used i 0)) available) (elements found w))
            (sum (map (entry p (get_or used i 0)) missing) (elements targets w))
          ≡ get_or (elements chosen w) i 0
    asked w l i h =
        let row = entry p (get_or used i 0) in
        scan_data-sum row w 0 shards truth part
        ∙ dot_congr (length truth) (λ j. row (0 + j)) row _ _ (λ j t. ap row (zero_plus j))
            (λ j t. refl)
        ∙ ap (λ (k : ℕ). dot k row (λ j. get_or (elements truth w) j 0))
            (sym (length-lost 0 shards truth part).1 ∙ count ∙ sym valid.cols_fit)
        ∙ AllChosen-get p truth n used chosen w i chosen_all l h
      where
        zero_plus : (j : ℕ) → 0 + j ≡ j
        zero_plus j = omega arith

    -- Each row of the reconstruction matrix gives a missing shard back.
    row_back :
        (result : Matrix)
        → IsSolution (left_matrix p missing used) (right_matrix p available missing used) result
        → AllSums result (found ++ chosen) n 0 targets
    row_back result solution =
        let parts = found-AllSlices n 0 shards truth part all in
        let sizes = length-lost 0 shards truth part in
        sums_of result (found ++ chosen) n 0 targets parts.1 (λ j w k l.
          ap (λ (r : ℕ). sum_from result r 0 (found ++ chosen) w) (zero_plus j)
          ∙ sum_from-dot result j 0 w (found ++ chosen)
          ∙ dot_congr _ (λ c. entry result j (0 + c)) (entry result j) _
              (λ c. get_or (elements found w ++ elements chosen w) c 0)
              (λ c t. ap (entry result j) (zero_plus c))
              (λ c t. ap (λ (ts : List ℕ). get_or ts c 0) (elements-append found chosen w))
          ∙ ap
              (λ (k : ℕ).
                dot k (entry result j) (λ c. get_or (elements found w ++ elements chosen w) c 0))
              (counts.2 ∙ sym widths)
          ∙ solution_lem p valid.valid available missing used counts.0 (elements found w)
              (elements chosen w) (elements targets w)
              (length-map found (λ s. word s w) ∙ sym sizes.2)
              (length-map chosen (λ s. word s w) ∙ counts.1)
              (length-map targets (λ s. word s w) ∙ sizes.0) (InField-elements n found w parts.0)
              (InField-elements n chosen w (AllChosen-AllLess p truth n used chosen chosen_all).1)
              (InField-elements n targets w parts.1) (asked w l) result solution j
              (omega (arith, sizes.0)))
      where
        zero_plus : (j : ℕ) → 0 + j ≡ j
        zero_plus j = omega arith

    used_some : 0 < length used
    used_some = omega (arith, counts.0)

    in_rows : AllLess p.rows used
    in_rows = (AllChosen-AllLess p truth n used chosen chosen_all).0

    apply_back :
        (result : Matrix)
        → IsSolution (left_matrix p missing used) (right_matrix p available missing used) result
        → apply_matrix f num_goroutines block result
            (found ++ chosen)
            (replicate (length missing) (replicate n 0))
          ≡ ok targets
    apply_back result solution =
        subst
          (λ (k : ℕ).
            apply_matrix f num_goroutines block result (found ++ chosen)
              (replicate k (replicate n 0))
            ≡ ok targets)
          (length-lost 0 shards truth part).0
          (nonempty (found ++ chosen) slices (row_back result solution)
            (omega (arith, counts.2, widths)) (omega (arith, counts.2, widths, solution.cols_same)))
      where
        fits : length targets ≤ result.rows
        fits = omega (
          arith,
          (length-lost 0 shards truth part).0,
          solution.rows_same,
          length-missing p missing used,
          counts.0,
        )

        nonempty :
            (ins : List (List ℕ))
            → AllSlices n ins
            → AllSums result ins n 0 targets
            → 0 < length ins
            → length ins ≤ result.cols
            → apply_matrix f num_goroutines block result ins
                (replicate (length targets) (replicate n 0))
              ≡ ok targets
        nonempty [] h sums_there l fit = absurd (omega arith)
        nonempty (s ∷ ins) h sums_there l fit =
            apply_matrix_lem f laws result solution.valid n even s ins h fit num_goroutines block
              targets some_goroutine even_block fits sums_there

    missing_back :
        ((reconstruct f num_goroutines block coder shards parity
            ≡ err (matrix_error singular_matrix))
          × IsSingular (left_matrix p missing used))
        ⊎ (reconstruct f num_goroutines block coder shards parity ≡ ok (map some truth))
    unfolding reconstruct
    missing_back =
        let checked : validate_reconstruct_inputs coder.data_shards coder.parity_shards shards
              parity
            ≡ ok (some n) =
          subst
            (λ (d : ℕ).
              validate_reconstruct_inputs d coder.parity_shards shards parity ≡ ok (some n))
            count
            (validate_lem n coder.parity_shards shards parity
              (IsPart-Lengths n shards truth part all) (IsParity-Lengths p truth n 0 parity sums)
              room (omega (arith, enough))) in
        let analyzed =
          subst
            (λ (d : ℕ).
              analyze_shards d shards parity
              ≡ ok (record (scan_data 0 shards) {
                used_parity_rows = used;
                input = found ++ chosen;
              }))
            count (analyze_shards-ok shards parity some_missing enough) in
        let is_missing : (length missing == 0) ≡ false = ground arith in
        let made =
          make_reconstruction_matrix_lem f p valid.valid available missing used used_some counts.0
            in_cols.0 in_cols.1 in_rows coder.data_shards (sym count ∙ sym widths) in
        let fitting =
          matrices-IsPair f p valid.valid available missing used used_some counts.0 in_cols.0
            in_cols.1 in_rows in
        elim (row_reduce_for_inverse_lem f laws (left_matrix p missing used)
          (right_matrix p available missing used) fitting
          (omega (arith, length-missing p missing used, counts.0)) (omega (arith, widths))) [
            | inl (failed, singular) ↦
                inl (rw (checked, analyzed, is_missing, made, failed), singular)
            | inr (result, run, solution) ↦ inr (
                rw (checked, analyzed, is_missing, made, run, apply_back result solution)
                  (ap ok (restore_lem [] shards truth part)))
          ]

  none_missing :
      length missing ≡ 0
      → reconstruct f num_goroutines block coder shards parity ≡ ok (map some truth)
  unfolding reconstruct analyze_shards
  none_missing h =
      let (size, checked) =
        validate_ok n coder.parity_shards shards parity (IsPart-Lengths n shards truth part all)
          (IsParity-Lengths p truth n 0 parity sums) room in
      let checked' =
        subst (λ (d : ℕ). validate_reconstruct_inputs d coder.parity_shards shards parity ≡ ok size)
          count checked in
      let is_missing : (length missing == 0) ≡ true = ground arith in
      rw (checked', is_missing) (ap ok (all_there 0 shards truth part h))

  -- Take a well-formed coder, operations of gf16 that keep their contract, at least one goroutine
  -- and kernels of blocks of an even size; data shards of which some are missing and the others are
  -- the true ones, true shards being slices of bytes of one even length; and parity shards, no more
  -- than the coder has, that hold the sums that the parity matrix asks for of the true data. Where
  -- the parity shards that are there are at least as many as the missing data shards, `Reconstruct`
  -- returns all true data shards, or the error that a matrix is singular; and then the entries of
  -- the parity matrix in the used parity rows and the missing columns make a matrix that is, which
  -- means that it takes some column that is not all zeros to zeros.
  pub reconstruct_lem :
      length missing ≤ present parity
      → ((reconstruct f num_goroutines block coder shards parity
            ≡ err (matrix_error singular_matrix))
          × IsSingular (left_matrix p missing used))
        ⊎ (reconstruct f num_goroutines block coder shards parity ≡ ok (map some truth))
  reconstruct_lem enough = elim (Bool-cases (length missing == 0)) [
    | inl nothing ↦ inr (none_missing ((==_iff (length missing) 0).0 nothing))
    | inr something ↦ missing_back (ground (arith, something)) enough
  ]
