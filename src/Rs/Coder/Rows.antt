-- ===== src/Rs/Coder/Rows.antt =====
-- All rows of a matrix applied to slices of bytes.
use par2engine.Base.{
  ℕ, zero, suc, get_or, ◌+◌, ◌-◌, ◌*◌, ◌/◌, ◌%◌, ◌≤◌, ◌<◌, ◌==◌, not, ◌≡◌, refl, sym, subst, ap,
  ap₂, ◌∙◌, arith, List, [], ◌∷◌, length, replicate, length-replicate, false, ok, max,
}
use par2engine.Gf16.Slice.Spec.{IsBytes}
use par2engine.Gf16.Field.{FieldOps, IsFieldOps}
use par2engine.Rs.Split.{
  split_for_block, goroutine_count, min_split_bytes, rounds_up, split-positive, round_to_block,
}
use par2engine.Rs.Matrix.{Matrix}
use par2engine.Rs.Matrix.Entries.{IsMatrix}
use par2engine.Rs.Coder.{from_matrix, apply_ranges, apply_rows, apply_matrix}
use par2engine.Rs.Coder.Apply.{word, AllSlices, sum_from, Stores}
use par2engine.Rs.Coder.Parts.{elements}
use par2engine.Rs.Coder.Ranges.{apply_ranges_lem}

-- Bytes are known by their elements.
pub words_ext :
    (bs cs : List ℕ)
    → IsBytes bs
    → IsBytes cs
    → length bs ≡ length cs
    → length bs % 2 ≡ 0
    → ((w : ℕ) → w < length bs / 2 → word bs w ≡ word cs w)
    → bs ≡ cs
words_ext [] [] h k e even same = refl
words_ext [] (c ∷ cs) h k e even same = absurd (omega arith)
words_ext (b ∷ bs) [] h k e even same = absurd (omega arith)
words_ext (b ∷ []) (c ∷ cs) h k e even same = absurd (omega arith)
words_ext (b ∷ b' ∷ bs) (c ∷ []) h k e even same = absurd (omega arith)
words_ext (b ∷ b' ∷ bs) (c ∷ c' ∷ cs) h k e even same =
    let first : b + b' * 256 ≡ c + c' * 256 = same 0 (omega arith) in
    let low : b ≡ c = omega (arith, h.0, k.0) in
    let high : b' ≡ c' = omega (arith, h.0, k.0) in
    let rest =
      words_ext bs cs h.1.1 k.1.1 (omega arith) (omega arith) (λ w l. same (suc w) (omega arith)) in
    ap₂ ◌∷◌ low (ap₂ ◌∷◌ high rest)

-- The slices hold the sums for the rows from `i` on.
abbrev pub AllSums : Matrix → List (List ℕ) → ℕ → ℕ → List (List ℕ) → Type 0
AllSums m ins n i [] = Unit
AllSums m ins n i (t ∷ targets) = Stores n (sum_from m i 0 ins) t × AllSums m ins n (suc i) targets

zeros : (n : ℕ) → IsBytes (replicate n 0)
zeros zero = tt
zeros (suc n) = (omega arith, zeros n)

even_split :
    (n num_goroutines block : ℕ)
    → block % 2 ≡ 0
    → split_for_block n num_goroutines block / 2 * 2 ≡ split_for_block n num_goroutines block
unfolding split_for_block
even_split n num_goroutines block h =
    let rounded =
      round_to_block (max ((n + num_goroutines - 1) / num_goroutines) (max block min_split_bytes))
        (max block min_split_bytes) (omega arith) in
    even_multiple _ (max block min_split_bytes) rounded (omega arith)
  where
    even_multiple : (s b : ℕ) → s % b ≡ 0 → b % 2 ≡ 0 → s / 2 * 2 ≡ s
    even_multiple s b h k =
        let whole : s ≡ b * (s / b) = grind arith in
        let pair : b ≡ b / 2 * 2 = omega (arith, k) in
        doubled s (b / 2 * (s / b))
          (whole ∙ ap (λ (t : ℕ). t * (s / b)) pair ∙ regroup (b / 2) (s / b))
      where
        regroup : (x y : ℕ) → x * 2 * y ≡ x * y * 2
        regroup x y = grind arith

        doubled : (s t : ℕ) → s ≡ t * 2 → s / 2 * 2 ≡ s
        doubled s t h = omega (arith, h)

module _ (f : FieldOps) (laws : IsFieldOps f) (m : Matrix) (valid : IsMatrix m) (n : ℕ)
    (even : n % 2 ≡ 0) (s : List ℕ) (ins : List (List ℕ)) (slices : AllSlices n (s ∷ ins))
    (room : suc (length ins) ≤ m.cols) where
  -- One row, in all its ranges.
  whole_row :
      (count half i : ℕ) (out t : List ℕ)
      → n ≤ count * half * 2
      → i < m.rows
      → IsBytes out
      → length out ≡ n
      → Stores n (sum_from m i 0 (s ∷ ins)) t
      → apply_ranges f count (half * 2) 0 m i (s ∷ ins) out ≡ ok t
  whole_row count half i out t all h bytes size (t_bytes, t_size, t_words) =
      let plus : 0 + count ≡ count = omega arith in
      let start : 0 * half * 2 ≡ 0 = omega arith in
      let left : n - 0 * half * 2 ≡ n = omega arith in
      let (result, run, (r_bytes, r_size, r_words)) =
        apply_ranges_lem f laws m valid i h n even half s ins out slices room bytes size count 0
          (subst (λ (k : ℕ). n ≤ k * half * 2) (sym plus) all) in
      run
      ∙ ap ok (
          words_ext result t r_bytes t_bytes (r_size ∙ left ∙ sym t_size)
            (ap (λ (k : ℕ). k % 2) (r_size ∙ left) ∙ even)
            (λ w l.
              r_words w (subst (λ (k : ℕ). w < k / 2) r_size l)
              ∙ ap (sum_from m i 0 (s ∷ ins)) (from_start half w)
              ∙ sym (t_words w (subst (λ (k : ℕ). w < k / 2) (r_size ∙ left) l))))
    where
      from_start : (half w : ℕ) → 0 * half + w ≡ w
      from_start half w = let e : 0 * half ≡ 0 = omega arith in omega arith

  apply_rows_lem :
      (count half i : ℕ) (targets : List (List ℕ))
      → n ≤ count * half * 2
      → i + length targets ≤ m.rows
      → AllSums m (s ∷ ins) n i targets
      → apply_rows f count (half * 2) m i (s ∷ ins) (replicate (length targets) (replicate n 0))
        ≡ ok targets
  unfolding apply_rows
  apply_rows_lem count half i [] all fits sums = refl
  apply_rows_lem count half i (t ∷ targets) all fits sums = rw (
    whole_row count half i (replicate n 0) t all (omega arith) (zeros n) (length-replicate n 0)
        sums.0,
    apply_rows_lem count half (suc i) targets all (omega arith) sums.1,
  )

  -- A matrix applied to as many slices as it has columns.
  pub apply_matrix_lem :
      (num_goroutines block : ℕ) (targets : List (List ℕ))
      → 0 < num_goroutines
      → block % 2 ≡ 0
      → length targets ≤ m.rows
      → AllSums m (s ∷ ins) n 0 targets
      → apply_matrix f num_goroutines block m (s ∷ ins) (replicate (length targets) (replicate n 0))
        ≡ ok targets
  unfolding apply_matrix
  apply_matrix_lem num_goroutines block [] some_there even_block fits sums = refl
  apply_matrix_lem num_goroutines block (t ∷ targets) some_there even_block fits sums =
      let size : length (replicate {A = ℕ} n 0) ≡ n = length-replicate n 0 in
      let split = split_for_block n num_goroutines block in
      let half = split / 2 in
      let halves : half * 2 ≡ split = even_split n num_goroutines block even_block in
      let fit : not (length s == n) ≡ false = ground (arith, slices.1) in
      let all : n ≤ goroutine_count n split * half * 2 =
        subst (λ (k : ℕ). n ≤ k)
          (ap (λ (k : ℕ). goroutine_count n split * k) (sym halves)
            ∙ assoc (goroutine_count n split) half)
          (unfold goroutine_count in rounds_up n split (split-positive n num_goroutines block)) in
      let run =
        apply_rows_lem (goroutine_count n split) half 0 (t ∷ targets) all (omega (arith, fits))
          sums in
      rw (size, fit)
        (ap from_matrix (
          subst
            (λ (k : ℕ).
              apply_rows f (goroutine_count n split) k m 0 (s ∷ ins)
                (replicate (suc (length targets)) (replicate n 0))
              ≡ ok (t ∷ targets))
            halves run))
    where
      assoc : (c h : ℕ) → c * (h * 2) ≡ c * h * 2
      assoc c h = grind arith

-- What the matrix makes of the input, element by element, are the missing shards.
pub sums_of :
    (m : Matrix) (ins : List (List ℕ)) (n i : ℕ) (targets : List (List ℕ))
    → AllSlices n targets
    → ((j w : ℕ)
        → j < length targets
        → w < n / 2
        → sum_from m (i + j) 0 ins w ≡ get_or (elements targets w) j 0)
    → AllSums m ins n i targets
sums_of m ins n i [] all h = tt
sums_of m ins n i (t ∷ targets) all h = (
  (
    all.0,
    all.1,
    λ w l. sym (h 0 w (omega arith) l) ∙ ap (λ (k : ℕ). sum_from m k 0 ins w) (plus_zero i),
  ),
  sums_of m ins n (suc i) targets all.2
      (λ j w k l. ap (λ (r : ℕ). sum_from m r 0 ins w) (shift i j) ∙ h (suc j) w (omega arith) l),
)
  where
    plus_zero : (i : ℕ) → i + 0 ≡ i
    plus_zero i = omega arith

    shift : (i j : ℕ) → suc i + j ≡ i + suc j
    shift i j = omega arith
