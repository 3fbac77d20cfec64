-- ===== src/Rs/Coder/Parts.antt =====
-- Shards some of which are missing, and what all of them are.
use Prim.Native.Nat.{bit_xor}
use par2engine.Base.{
  ℕ, zero, suc, ◌+◌, ◌≤◌, ◌<◌, ◌≡◌, refl, sym, ap, ap₂, ◌∙◌, arith, List, [], ◌∷◌, ◌++◌, map,
  length, get_or, set, Option, none, some, length-append,
}
use par2engine.Bits.{xor_assoc, xor_comm}
use par2engine.Gf16.Poly.{times_poly}
use par2engine.Rs.Shards.{scan_data, gather}
use par2engine.Rs.Matrix.{Matrix, entry}
use par2engine.Rs.Matrix.Dot.{dot, dot_congr}
use par2engine.Rs.Matrix.Entries.{IsMatrix}
use par2engine.Rs.Coder.{Coder, restore}
use par2engine.Rs.Coder.Apply.{word, Stores}
use par2engine.Rs.Coder.Sums.{sum, dot-first}

-- The parity matrix has a row for each parity shard and a column for each data shard.
pub record IsCoder (coder : Coder) : Type 0 where
  pub valid : IsMatrix coder.parity_matrix
  pub rows_fit : coder.parity_matrix.rows ≡ coder.parity_shards
  pub cols_fit : coder.parity_matrix.cols ≡ coder.data_shards

-- The shards that are there are the true ones.
abbrev pub IsPart : List (Option (List ℕ)) → List (List ℕ) → Type 0
IsPart [] [] = Unit
IsPart [] (t ∷ truth) = ⊥
IsPart (s ∷ shards) [] = ⊥
IsPart (none ∷ shards) (t ∷ truth) = IsPart shards truth
IsPart (some s ∷ shards) (t ∷ truth) = (s ≡ t) × IsPart shards truth

-- The true shards that are missing.
unfoldable pub lost : List (Option (List ℕ)) → List (List ℕ) → List (List ℕ)
lost [] truth = []
lost (s ∷ shards) [] = []
lost (none ∷ shards) (t ∷ truth) = t ∷ lost shards truth
lost (some s ∷ shards) (t ∷ truth) = lost shards truth

-- The element `w` of each slice.
abbrev pub elements : List (List ℕ) → ℕ → List ℕ
elements slices w = map (λ (s : List ℕ). word s w) slices

-- The parity shards from the row `i` on are the sums that the matrix asks for.
abbrev pub IsParity : Matrix → List (List ℕ) → ℕ → ℕ → List (Option (List ℕ)) → Type 0
IsParity m truth n i [] = Unit
IsParity m truth n i (none ∷ parity) = IsParity m truth n (suc i) parity
IsParity m truth n i (some s ∷ parity) =
    Stores n (λ w. dot m.cols (λ j. entry m i j) (λ j. get_or (elements truth w) j 0)) s
    × IsParity m truth n (suc i) parity

-- The same for a list of shards with their rows.
abbrev pub AllChosen : Matrix → List (List ℕ) → ℕ → List ℕ → List (List ℕ) → Type 0
AllChosen m truth n [] [] = Unit
AllChosen m truth n [] (s ∷ chosen) = ⊥
AllChosen m truth n (k ∷ used) [] = ⊥
AllChosen m truth n (k ∷ used) (s ∷ chosen) =
    (k < m.rows)
    × Stores n (λ w. dot m.cols (λ j. entry m k j) (λ j. get_or (elements truth w) j 0)) s
    × AllChosen m truth n used chosen

pub gather-AllChosen :
    (m : Matrix) (truth : List (List ℕ)) (n wanted i : ℕ) (parity : List (Option (List ℕ)))
    → IsParity m truth n i parity
    → i + length parity ≤ m.rows
    → AllChosen m truth n (gather wanted i parity).rows (gather wanted i parity).shards
unfolding gather
gather-AllChosen m truth n zero i parity h room = tt
gather-AllChosen m truth n (suc wanted) i [] h room = tt
gather-AllChosen m truth n (suc wanted) i (none ∷ parity) h room =
    gather-AllChosen m truth n (suc wanted) (suc i) parity h (omega arith)
gather-AllChosen m truth n (suc wanted) i (some s ∷ parity) h room =
    (omega arith, h.0, gather-AllChosen m truth n wanted (suc i) parity h.1 (omega arith))

-- The first of the shards, in a sum over all.
pub first_shard :
    (a : ℕ → ℕ) (w i : ℕ) (t : List ℕ) (truth : List (List ℕ))
    → dot (suc (length truth)) (λ j. a (i + j)) (λ j. get_or (elements (t ∷ truth) w) j 0)
      ≡ bit_xor
          (times_poly (a i) (word t w))
          (dot (length truth) (λ j. a (suc i + j)) (λ j. get_or (elements truth w) j 0))
first_shard a w i t truth =
    dot-first (length truth) (λ j. a (i + j)) (λ j. get_or (elements (t ∷ truth) w) j 0)
    ∙ ap₂ bit_xor (ap (λ (k : ℕ). times_poly (a k) (word t w)) (same i)) (
        dot_congr (length truth) (λ j. a (i + suc j)) (λ j. a (suc i + j)) _ _
          (λ j l. ap a (shift i j)) (λ j l. refl))
  where
    same : (i : ℕ) → i + 0 ≡ i
    same i = omega arith

    shift : (i j : ℕ) → i + suc j ≡ suc i + j
    shift i j = omega arith

-- The sum over all shards is the sum over those that are there and those that are missing.
pub scan_data-sum :
    (a : ℕ → ℕ) (w i : ℕ) (shards : List (Option (List ℕ))) (truth : List (List ℕ))
    → IsPart shards truth
    → bit_xor
        (sum (map a (scan_data i shards).available_rows) (elements (scan_data i shards).input w))
        (sum (map a (scan_data i shards).missing_rows) (elements (lost shards truth) w))
      ≡ dot (length truth) (λ j. a (i + j)) (λ j. get_or (elements truth w) j 0)
unfolding scan_data lost sum dot
scan_data-sum a w i [] [] h = refl
scan_data-sum a w i [] (t ∷ truth) h = absurd h
scan_data-sum a w i (s ∷ shards) [] h = absurd h
scan_data-sum a w i (none ∷ shards) (t ∷ truth) h =
    let b =
      sum (map a (scan_data (suc i) shards).available_rows)
        (elements (scan_data (suc i) shards).input w) in
    let c = sum (map a (scan_data (suc i) shards).missing_rows) (elements (lost shards truth) w) in
    let p = times_poly (a i) (word t w) in
    sym (xor_assoc b p c)
    ∙ ap (λ (k : ℕ). bit_xor k c) (xor_comm b p)
    ∙ xor_assoc p b c
    ∙ ap (bit_xor p) (scan_data-sum a w (suc i) shards truth h)
    ∙ sym (first_shard a w i t truth)
scan_data-sum a w i (some s ∷ shards) (t ∷ truth) h =
    let b =
      sum (map a (scan_data (suc i) shards).available_rows)
        (elements (scan_data (suc i) shards).input w) in
    let c = sum (map a (scan_data (suc i) shards).missing_rows) (elements (lost shards truth) w) in
    xor_assoc (times_poly (a i) (word s w)) b c
    ∙ ap₂ bit_xor (ap (λ (u : List ℕ). times_poly (a i) (word u w)) h.0)
        (scan_data-sum a w (suc i) shards truth h.1)
    ∙ sym (first_shard a w i t truth)

module _ (before : List (Option (List ℕ))) (s : Option (List ℕ))
    (shards : List (Option (List ℕ))) where
  set_here :
      (t : Option (List ℕ)) → set (before ++ s ∷ shards) (length before) t ≡ before ++ t ∷ shards
  set_here t = set_at before
    where
      set_at :
          (xs : List (Option (List ℕ))) → set (xs ++ s ∷ shards) (length xs) t ≡ xs ++ t ∷ shards
      set_at [] = refl
      set_at (x ∷ xs) = ap (◌∷◌ x) (set_at xs)

  moved : before ++ s ∷ shards ≡ (before ++ s ∷ []) ++ shards
  moved = go before
    where
      go : (xs : List (Option (List ℕ))) → xs ++ s ∷ shards ≡ (xs ++ s ∷ []) ++ shards
      go [] = refl
      go (x ∷ xs) = ap (◌∷◌ x) (go xs)

  length_moved : length (before ++ s ∷ []) ≡ suc (length before)
  length_moved = omega (arith, length-append {0} before (s ∷ []))

-- The missing shards put back.
pub restore_lem :
    (before shards : List (Option (List ℕ))) (truth : List (List ℕ))
    → IsPart shards truth
    → restore (before ++ shards) (scan_data (length before) shards).missing_rows (lost shards truth)
      ≡ before ++ map some truth
unfolding restore scan_data lost
restore_lem before [] [] h = refl
restore_lem before [] (t ∷ truth) h = absurd h
restore_lem before (s ∷ shards) [] h = absurd h
restore_lem before (none ∷ shards) (t ∷ truth) h =
    ap
      (λ (xs : List (Option (List ℕ))).
        restore xs (scan_data (suc (length before)) shards).missing_rows (lost shards truth))
      (set_here before none shards (some t) ∙ moved before (some t) shards)
    ∙ ap
        (λ (k : ℕ).
          restore ((before ++ some t ∷ []) ++ shards) (scan_data k shards).missing_rows
            (lost shards truth))
        (sym (length_moved before (some t) shards))
    ∙ restore_lem (before ++ some t ∷ []) shards truth h
    ∙ sym (moved before (some t) (map some truth))
restore_lem before (some s ∷ shards) (t ∷ truth) h =
    ap
      (λ (xs : List (Option (List ℕ))).
        restore xs (scan_data (suc (length before)) shards).missing_rows (lost shards truth))
      (moved before (some s) shards)
    ∙ ap
        (λ (k : ℕ).
          restore ((before ++ some s ∷ []) ++ shards) (scan_data k shards).missing_rows
            (lost shards truth))
        (sym (length_moved before (some s) shards))
    ∙ restore_lem (before ++ some s ∷ []) shards truth h.1
    ∙ sym (moved before (some s) (map some truth))
    ∙ ap (λ (u : List ℕ). before ++ some u ∷ map some truth) h.0
