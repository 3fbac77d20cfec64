-- ===== src/Rs/Lengths.antt =====
-- rs/rs.go: the checks of the shards that `Reconstruct` is given.
use par2engine.Base.{
  ℕ, ◌≤◌, ◌==◌, ltb, not, if◌then◌else◌, List, [], ◌∷◌, length, Option, none, some, Result, ok, err,
  bind_ok, ◌>>=◌, ◌>>◌, refuse, ◌≡◌, refl, sym, subst, ap, ◌∙◌, arith, ◌⊎◌, inl, inr,
}
use par2engine.Rs.Shards.{
  ShardError, mismatched_lengths, invalid_data_shard_count, invalid_parity_shard_count,
}

-- The closure `check` of `validateShardLengths`; the length -1 is `none`.
unfoldable pub check_shard : Option ℕ → Option (List ℕ) → Result ShardError (Option ℕ)
check_shard n none = ok n
check_shard none (some s) = ok (some (length s))
check_shard (some n) (some s) = if not (length s == n) then err mismatched_lengths else ok (some n)

unfoldable pub check_shards : Option ℕ → List (Option (List ℕ)) → Result ShardError (Option ℕ)
check_shards n [] = ok n
check_shards n (s ∷ shards) = check_shard n s >>= λ m. check_shards m shards

-- `validateShardLengths`
unfoldable pub validate_shard_lengths :
    List (Option (List ℕ)) → List (Option (List ℕ)) → Result ShardError (Option ℕ)
validate_shard_lengths data_list parity = check_shards none data_list >>= λ n. check_shards n parity

-- `validateReconstructInputs`
unfoldable pub validate_reconstruct_inputs :
    ℕ → ℕ → List (Option (List ℕ)) → List (Option (List ℕ)) → Result ShardError (Option ℕ)
validate_reconstruct_inputs data_shards parity_shards data_list parity = do
  refuse (not (length data_list == data_shards)) invalid_data_shard_count
  refuse (ltb parity_shards (length parity)) invalid_parity_shard_count
  validate_shard_lengths data_list parity

-- Each shard that is there has the length; where there is no length, no shard is there.
abbrev pub AllLength : Option ℕ → List (Option (List ℕ)) → Type 0
AllLength n [] = Unit
AllLength n (none ∷ shards) = AllLength n shards
AllLength n (some s ∷ shards) = (n ≡ some (length s)) × AllLength n shards

same_length :
    (n : ℕ) (s : List ℕ) (f : Option ℕ → Result ShardError (Option ℕ)) (r : Option ℕ)
    → ((if not (length s == n) then err mismatched_lengths else ok (some n)) >>= f) ≡ ok r
    → (length s ≡ n) × (f (some n) ≡ ok r)
same_length n s f r run = ground arith

checked_from :
    (n : ℕ) (shards : List (Option (List ℕ))) (r : Option ℕ)
    → check_shards (some n) shards ≡ ok r
    → (r ≡ some n) × AllLength r shards
unfolding check_shards check_shard
checked_from n [] r run = (ground arith, tt)
checked_from n (none ∷ shards) r run = checked_from n shards r run
checked_from n (some s ∷ shards) r run =
    let (same, rest) = same_length n s (λ m. check_shards m shards) r run in
    let (e, all) = checked_from n shards r rest in (e, (e ∙ ap some (sym same), all))

checked :
    (shards : List (Option (List ℕ))) (r : Option ℕ)
    → check_shards none shards ≡ ok r
    → AllLength r shards
unfolding check_shards check_shard
checked [] r run = tt
checked (none ∷ shards) r run = checked shards r run
checked (some s ∷ shards) r run = checked_from (length s) shards r run

pub checked_more :
    (m : Option ℕ) (shards : List (Option (List ℕ))) (r : Option ℕ)
    → check_shards m shards ≡ ok r
    → ((m ≡ none) ⊎ (r ≡ m)) × AllLength r shards
checked_more none shards r run = (inl refl, checked shards r run)
checked_more (some n) shards r run = let (e, all) = checked_from n shards r run in (inr e, all)

accepted :
    (d p : ℕ) (data_list parity : List (Option (List ℕ))) (r : Option ℕ)
    → validate_reconstruct_inputs d p data_list parity ≡ ok r
    → (length data_list ≡ d)
      × (length parity ≤ p)
      × (validate_shard_lengths data_list parity ≡ ok r)
unfolding validate_reconstruct_inputs
accepted d p data_list parity r run = ground arith

AllLength-none :
    (r : Option ℕ) (shards : List (Option (List ℕ))) → AllLength none shards → AllLength r shards
AllLength-none r [] h = tt
AllLength-none r (none ∷ shards) h = AllLength-none r shards h
AllLength-none r (some s ∷ shards) h = absurd (ground (arith, h.0))

-- Shards that `validateReconstructInputs` accepts are as many data shards as the coder has and no
-- more parity shards than it has, and all that are there have the length that it returns; where it
-- returns none, no shard is there.
pub validate_reconstruct_inputs-AllLength :
    (d p : ℕ) (data_list parity : List (Option (List ℕ))) (r : Option ℕ)
    → validate_reconstruct_inputs d p data_list parity ≡ ok r
    → (length data_list ≡ d) × (length parity ≤ p) × AllLength r data_list × AllLength r parity
unfolding validate_shard_lengths
validate_reconstruct_inputs-AllLength d p data_list parity r run =
    let (count, room, lengths) = accepted d p data_list parity r run in
    let (m, first, second) =
      bind_ok (check_shards none data_list) (λ n. check_shards n parity) r lengths in
    let all = checked data_list m first in
    let (kept, more) = checked_more m parity r second in
    (
      count,
      room,
      elim kept [
        | inl empty ↦
            AllLength-none r data_list (subst (λ (n : Option ℕ). AllLength n data_list) empty all)
        | inr same ↦ subst (λ (n : Option ℕ). AllLength n data_list) (sym same) all
      ],
      more,
    )
