-- ===== src/Rs/Coder/Setting.antt =====
-- The shards of a reconstruction, their rows and their elements.
use Prim.Native.Nat.{bit_xor}
use par2engine.Base.{
  ℕ, zero, suc, ◌+◌, ◌/◌, ◌≤◌, ◌<◌, ◌==◌, not, ltb, ◌≡◌, refl, sym, subst, ap, ap₂, ◌∙◌, arith,
  List, [], ◌∷◌, ◌++◌, map, length, get_or, Option, none, some, ok, false, ◌⊎◌, inl, inr,
}
use par2engine.Gf16.Poly.{order, times_poly}
use par2engine.Gf16.Slice.Spec.{IsBytes}
use par2engine.Rs.Shards.{scan_data, present}
use par2engine.Rs.Lengths.{
  check_shard, check_shards, validate_shard_lengths, validate_reconstruct_inputs,
}
use par2engine.Rs.Matrix.{Matrix, entry}
use par2engine.Rs.Matrix.Dot.{dot}
use par2engine.Rs.Coder.Apply.{word, AllSlices, sum_from}
use par2engine.Rs.Coder.Flat.{InField}
use par2engine.Rs.Coder.System.{AllLess}
use par2engine.Rs.Coder.Parts.{IsPart, lost, elements, first_shard, AllChosen, IsParity}

pub scan_data-AllLess :
    (n i : ℕ) (shards : List (Option (List ℕ)))
    → i + length shards ≤ n
    → AllLess n (scan_data i shards).available_rows × AllLess n (scan_data i shards).missing_rows
unfolding scan_data
scan_data-AllLess n i [] h = (tt, tt)
scan_data-AllLess n i (none ∷ shards) h =
    let rest = scan_data-AllLess n (suc i) shards (omega arith) in (rest.0, (omega arith, rest.1))
scan_data-AllLess n i (some s ∷ shards) h =
    let rest = scan_data-AllLess n (suc i) shards (omega arith) in ((omega arith, rest.0), rest.1)

pub AllChosen-AllLess :
    (m : Matrix) (truth : List (List ℕ)) (n : ℕ) (used : List ℕ) (chosen : List (List ℕ))
    → AllChosen m truth n used chosen
    → AllLess m.rows used × AllSlices n chosen
AllChosen-AllLess m truth n [] [] h = (tt, tt)
AllChosen-AllLess m truth n [] (s ∷ chosen) h = absurd h
AllChosen-AllLess m truth n (k ∷ used) [] h = absurd h
AllChosen-AllLess m truth n (k ∷ used) (s ∷ chosen) h =
    let rest = AllChosen-AllLess m truth n used chosen h.2 in
    ((h.0, rest.0), (h.1.0, h.1.1, rest.1))

-- An element of a parity shard is the sum that its row asks for.
pub AllChosen-get :
    (m : Matrix) (truth : List (List ℕ)) (n : ℕ) (used : List ℕ) (chosen : List (List ℕ)) (w i : ℕ)
    → AllChosen m truth n used chosen
    → w < n / 2
    → i < length used
    → dot m.cols (λ j. entry m (get_or used i 0) j) (λ j. get_or (elements truth w) j 0)
      ≡ get_or (elements chosen w) i 0
AllChosen-get m truth n [] chosen w i h l k = absurd (omega arith)
AllChosen-get m truth n (r ∷ used) [] w i h l k = absurd h
AllChosen-get m truth n (r ∷ used) (s ∷ chosen) w zero h l k = sym (h.1.2 w l)
AllChosen-get m truth n (r ∷ used) (s ∷ chosen) w (suc i) h l k =
    AllChosen-get m truth n used chosen w i h.2 l (omega arith)

pub found-AllSlices :
    (n i : ℕ) (shards : List (Option (List ℕ))) (truth : List (List ℕ))
    → IsPart shards truth
    → AllSlices n truth
    → AllSlices n (scan_data i shards).input × AllSlices n (lost shards truth)
unfolding scan_data lost
found-AllSlices n i [] [] h all = (tt, tt)
found-AllSlices n i [] (t ∷ truth) h all = absurd h
found-AllSlices n i (s ∷ shards) [] h all = absurd h
found-AllSlices n i (none ∷ shards) (t ∷ truth) h all =
    let rest = found-AllSlices n (suc i) shards truth h all.2 in (rest.0, (all.0, all.1, rest.1))
found-AllSlices n i (some s ∷ shards) (t ∷ truth) h all =
    let rest = found-AllSlices n (suc i) shards truth h.1 all.2 in
    ((subst IsBytes (sym h.0) all.0, ap length h.0 ∙ all.1, rest.0), rest.1)

pub AllSlices-append :
    (n : ℕ) (xs ys : List (List ℕ)) → AllSlices n xs → AllSlices n ys → AllSlices n (xs ++ ys)
AllSlices-append n [] ys h k = k
AllSlices-append n (x ∷ xs) ys h k = (h.0, h.1, AllSlices-append n xs ys h.2 k)

pub elements-append :
    (xs ys : List (List ℕ)) (w : ℕ) → elements (xs ++ ys) w ≡ elements xs w ++ elements ys w
elements-append [] ys w = refl
elements-append (x ∷ xs) ys w = ap (◌∷◌ (word x w)) (elements-append xs ys w)

words_InField : (bs : List ℕ) (w : ℕ) → IsBytes bs → word bs w < order
words_InField [] w h = omega arith
words_InField (b ∷ []) w h = omega arith
words_InField (b ∷ c ∷ bs) zero h = omega (arith, h.0, h.1.0)
words_InField (b ∷ c ∷ bs) (suc w) h = words_InField bs w h.1.1

pub InField-elements :
    (n : ℕ) (slices : List (List ℕ)) (w : ℕ) → AllSlices n slices → InField (elements slices w)
InField-elements n [] w h k = omega arith
InField-elements n (s ∷ slices) w h zero = words_InField s w h.0
InField-elements n (s ∷ slices) w h (suc k) = InField-elements n slices w h.2 k

pub length-lost :
    (i : ℕ) (shards : List (Option (List ℕ))) (truth : List (List ℕ))
    → IsPart shards truth
    → (length (lost shards truth) ≡ length (scan_data i shards).missing_rows)
      × (length shards ≡ length truth)
      × (length (scan_data i shards).available_rows ≡ length (scan_data i shards).input)
unfolding scan_data lost
length-lost i [] [] h = (refl, refl, refl)
length-lost i [] (t ∷ truth) h = absurd h
length-lost i (s ∷ shards) [] h = absurd h
length-lost i (none ∷ shards) (t ∷ truth) h =
    let rest = length-lost (suc i) shards truth h in (ap suc rest.0, ap suc rest.1, rest.2)
length-lost i (some s ∷ shards) (t ∷ truth) h =
    let rest = length-lost (suc i) shards truth h.1 in (rest.0, ap suc rest.1, ap suc rest.2)

-- The sum over the slices, as a product of a row and a column.
pub sum_from-dot :
    (m : Matrix) (i j w : ℕ) (ins : List (List ℕ))
    → sum_from m i j ins w
      ≡ dot (length ins) (λ c. entry m i (j + c)) (λ c. get_or (elements ins w) c 0)
unfolding sum_from dot
sum_from-dot m i j w [] = refl
sum_from-dot m i j w (s ∷ ins) =
    ap (bit_xor (times_poly (entry m i j) (word s w))) (sum_from-dot m i (suc j) w ins)
    ∙ sym (first_shard (entry m i) w j s ins)

-- A list of shards that are all of one length, where there are any, is accepted.
abbrev pub Lengths : ℕ → List (Option (List ℕ)) → Type 0
Lengths n [] = Unit
Lengths n (none ∷ shards) = Lengths n shards
Lengths n (some s ∷ shards) = (length s ≡ n) × Lengths n shards

check_some :
    (n : ℕ) (shards : List (Option (List ℕ)))
    → Lengths n shards
    → check_shards (some n) shards ≡ ok (some n)
unfolding check_shards check_shard
check_some n [] h = refl
check_some n (none ∷ shards) h = check_some n shards h
check_some n (some s ∷ shards) h =
    let same : not (length s == n) ≡ false = ground (arith, h.0) in
    rw same (check_some n shards h.1)

check_none :
    (n : ℕ) (shards : List (Option (List ℕ)))
    → Lengths n shards
    → ((check_shards none shards ≡ ok none) × (present shards ≡ 0))
      ⊎ (check_shards none shards ≡ ok (some n))
unfolding check_shards check_shard present
check_none n [] h = inl (refl, refl)
check_none n (none ∷ shards) h = check_none n shards h
check_none n (some s ∷ shards) h = rw (h.0) (inr (check_some n shards h.1))

pub validate_lem :
    (n parity_shards : ℕ) (shards parity : List (Option (List ℕ)))
    → Lengths n shards
    → Lengths n parity
    → length parity ≤ parity_shards
    → 0 < present parity
    → validate_reconstruct_inputs (length shards) parity_shards shards parity ≡ ok (some n)
unfolding validate_reconstruct_inputs validate_shard_lengths
validate_lem n parity_shards shards parity h k room there =
    let counted : not (length shards == length shards) ≡ false = ground arith in
    let fits : ltb parity_shards (length parity) ≡ false = ground arith in
    rw (counted, fits)
      (elim (check_none n shards h) [
        | inl (nothing, e) ↦ rw nothing (elim (check_none n parity k) [
          | inl (nothing', e') ↦ absurd (omega arith)
          | inr sized ↦ sized
        ])
        | inr sized ↦ rw sized (check_some n parity k)
      ])

-- Whether any are there or not.
pub validate_ok :
    (n parity_shards : ℕ) (shards parity : List (Option (List ℕ)))
    → Lengths n shards
    → Lengths n parity
    → length parity ≤ parity_shards
    → (size : Option ℕ) × (validate_reconstruct_inputs (length shards) parity_shards shards parity
        ≡ ok size)
unfolding validate_reconstruct_inputs validate_shard_lengths
validate_ok n parity_shards shards parity h k room =
    let counted : not (length shards == length shards) ≡ false = ground arith in
    let fits : ltb parity_shards (length parity) ≡ false = ground arith in
    elim (check_none n shards h) [
      | inl (nothing, e) ↦ elim (check_none n parity k) [
        | inl (nothing', e') ↦ (none, rw (counted, fits, nothing, nothing'))
        | inr sized ↦ (some n, rw (counted, fits, nothing, sized))
      ]
      | inr sized ↦ (some n, rw (counted, fits, sized, check_some n parity k))
    ]

-- Where none is missing, all are there.
pub all_there :
    (i : ℕ) (shards : List (Option (List ℕ))) (truth : List (List ℕ))
    → IsPart shards truth
    → length (scan_data i shards).missing_rows ≡ 0
    → shards ≡ map some truth
unfolding scan_data
all_there i [] [] h k = refl
all_there i [] (t ∷ truth) h k = absurd h
all_there i (s ∷ shards) [] h k = absurd h
all_there i (none ∷ shards) (t ∷ truth) h k = absurd (omega arith)
all_there i (some s ∷ shards) (t ∷ truth) h k =
    ap₂ ◌∷◌ (ap some h.0) (all_there (suc i) shards truth h.1 k)

pub IsPart-Lengths :
    (n : ℕ) (shards : List (Option (List ℕ))) (truth : List (List ℕ))
    → IsPart shards truth
    → AllSlices n truth
    → Lengths n shards
IsPart-Lengths n [] [] h all = tt
IsPart-Lengths n [] (t ∷ truth) h all = tt
IsPart-Lengths n (s ∷ shards) [] h all = absurd h
IsPart-Lengths n (none ∷ shards) (t ∷ truth) h all = IsPart-Lengths n shards truth h all.2
IsPart-Lengths n (some s ∷ shards) (t ∷ truth) h all =
    (ap length h.0 ∙ all.1, IsPart-Lengths n shards truth h.1 all.2)

pub IsParity-Lengths :
    (m : Matrix) (truth : List (List ℕ)) (n i : ℕ) (parity : List (Option (List ℕ)))
    → IsParity m truth n i parity
    → Lengths n parity
IsParity-Lengths m truth n i [] h = tt
IsParity-Lengths m truth n i (none ∷ parity) h = IsParity-Lengths m truth n (suc i) parity h
IsParity-Lengths m truth n i (some s ∷ parity) h =
    (h.0.1, IsParity-Lengths m truth n (suc i) parity h.1)
