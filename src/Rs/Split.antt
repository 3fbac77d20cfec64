-- ===== src/Rs/Split.antt =====
-- rs/rs.go: the ranges of bytes that the goroutines of `applyMatrixParallelData` work on.
use par2engine.Base.{
  ℕ, zero, suc, ◌+◌, ◌-◌, ◌*◌, ◌/◌, ◌%◌, ◌≤◌, ◌<◌, ◌==◌, min, max, if◌then◌else◌, List, [], ◌∷◌,
  ◌++◌, take, drop, length, ◌≡◌, refl, sym, ap, ap₂, ◌∙◌, arith, take-append-drop, drop-drop,
  length-drop, if_elim,
}

-- `minSplitBytes`
abbrev pub min_split_bytes : ℕ
min_split_bytes = 16

-- `splitForBlock`
unfoldable pub split_for_block : ℕ → ℕ → ℕ → ℕ
split_for_block data_length num_goroutines kernel_block =
    let block = max kernel_block min_split_bytes in
    let split = max ((data_length + num_goroutines - 1) / num_goroutines) block in
    let rem = split % block in if rem == 0 then split else split + (block - rem)

-- `actualNumGoroutines`
unfoldable pub goroutine_count : ℕ → ℕ → ℕ
goroutine_count data_length split = (data_length + split - 1) / split

-- `bs[start:end]`, with the bounds of the goroutine `i`.
unfoldable pub goroutine_slice : ℕ → ℕ → List ℕ → List ℕ
goroutine_slice split i bs =
    let start = i * split in
    let end = min (start + split) (length bs) in take (end - start) (drop start bs)

-- The slices of the goroutines from `i` on.
unfoldable pub goroutine_slices : ℕ → ℕ → ℕ → List ℕ → List ℕ
goroutine_slices zero split i bs = []
goroutine_slices (suc n) split i bs =
    goroutine_slice split i bs ++ goroutine_slices n split (suc i) bs

nothing_left : (n : ℕ) (bs : List ℕ) → length bs ≤ n → drop n bs ≡ []
nothing_left zero [] h = refl
nothing_left zero (b ∷ bs) h = absurd (omega arith)
nothing_left (suc n) [] h = refl
nothing_left (suc n) (b ∷ bs) h = nothing_left n bs (omega arith)

take-min : (k n : ℕ) (bs : List ℕ) → length bs ≤ n → take (min k n) bs ≡ take k bs
take-min zero n bs h = let e : min zero n ≡ zero = omega arith in rw e
take-min (suc k) zero [] h = let e : min (suc k) zero ≡ zero = omega arith in rw e
take-min (suc k) zero (b ∷ bs) h = absurd (omega arith)
take-min (suc k) (suc n) [] h = let e : min (suc k) (suc n) ≡ suc (min k n) = omega arith in rw e
take-min (suc k) (suc n) (b ∷ bs) h =
    let e : min (suc k) (suc n) ≡ suc (min k n) = omega arith in
    rw e (ap (◌∷◌ b) (take-min k n bs (omega arith)))

pub slice-take :
    (split i : ℕ) (bs : List ℕ) → goroutine_slice split i bs ≡ take split (drop (i * split) bs)
unfolding goroutine_slice
slice-take split i bs =
    ap (λ (n : ℕ). take n (drop (i * split) bs)) (omega arith)
    ∙ take-min split (length bs - i * split) (drop (i * split) bs)
        (omega (arith, length-drop (i * split) bs))

slices-drop :
    (n split i : ℕ) (bs : List ℕ)
    → length bs ≤ (i + n) * split
    → goroutine_slices n split i bs ≡ drop (i * split) bs
unfolding goroutine_slices
slices-drop zero split i bs h =
    sym (nothing_left (i * split) bs (omega (arith, ap (λ (m : ℕ). m * split) (plus_zero i))))
  where
    plus_zero : (i : ℕ) → i + 0 ≡ i
    plus_zero i = omega arith
slices-drop (suc n) split i bs h =
    ap₂ ◌++◌ (slice-take split i bs)
      (slices-drop n split (suc i) bs (omega (arith, ap (λ (m : ℕ). m * split) (shift i n))))
    ∙ ap (◌++◌ (take split (drop (i * split) bs)))
        (ap (λ (m : ℕ). drop m bs) (omega arith) ∙ sym (drop-drop (i * split) split bs))
    ∙ take-append-drop split (drop (i * split) bs)
  where
    shift : (i n : ℕ) → i + suc n ≡ suc i + n
    shift i n = omega arith

pub rounds_up : (n m : ℕ) → 0 < m → n ≤ (n + m - 1) / m * m
rounds_up n m h = grind arith

pub split-positive : (n k b : ℕ) → 0 < split_for_block n k b
unfolding split_for_block
split-positive n k b = ground arith

fits_in : (n m k : ℕ) → 0 < m → n ≤ k * m → (n + m - 1) / m ≤ k
fits_in n m k h l = grind arith

grows : (a b k : ℕ) → a ≤ b → a * k ≤ k * b
grows a b k h = grind arith

split-share : (n k b : ℕ) → (n + k - 1) / k ≤ split_for_block n k b
unfolding split_for_block
split-share n k b = ground arith

pub round_to_block : (s b : ℕ) → 0 < b → (if s % b == 0 then s else s + (b - s % b)) % b ≡ 0
round_to_block s b h =
    if_elim (λ (t : ℕ). t % b ≡ 0) (s % b == 0) (λ e. ground arith) (λ ne. complete s b h)
  where
    complete : (s b : ℕ) → 0 < b → (s + (b - s % b)) % b ≡ 0
    complete s b h = grind arith

-- For at least one goroutine, the slices that the goroutines work on make up all the bytes in
-- order, there are no more of them than goroutines were asked for, and the split is a multiple of
-- the block, which is 16 bytes at least.
pub goroutine_slices-cover :
    (num_goroutines kernel_block : ℕ) (bs : List ℕ)
    → 0 < num_goroutines
    → (goroutine_slices
          (goroutine_count (length bs) (split_for_block (length bs) num_goroutines kernel_block))
          (split_for_block (length bs) num_goroutines kernel_block)
          0
          bs
        ≡ bs)
      × (goroutine_count (length bs) (split_for_block (length bs) num_goroutines kernel_block)
          ≤ num_goroutines)
      × (split_for_block (length bs) num_goroutines kernel_block % max kernel_block min_split_bytes
          ≡ 0)
unfolding goroutine_count
goroutine_slices-cover k b bs h =
    let n = length bs in
    let s = split_for_block n k b in
    let pos = split-positive n k b in
    (
      slices-drop ((n + s - 1) / s) s 0 bs
            (omega (arith, rounds_up n s pos, ap (λ (m : ℕ). m * s) (zero_plus ((n + s - 1) / s))))
          ∙ ap (λ (m : ℕ). drop m bs) (zero_times s),
      fits_in n s k pos
          (omega (arith, rounds_up n k h, grows ((n + k - 1) / k) s k (split-share n k b))),
      (unfold split_for_block in round_to_block _ (max b min_split_bytes) (omega arith)),
    )
  where
    zero_times : (i : ℕ) → 0 * i ≡ 0
    zero_times i = omega arith

    zero_plus : (i : ℕ) → 0 + i ≡ i
    zero_plus i = omega arith
