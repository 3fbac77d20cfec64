-- ===== src/Par2/Scan/Fresh.antt =====
-- The states that the scan starts from.
use par2engine.Base.{
  ℕ, zero, suc, ◌+◌, ◌-◌, ◌*◌, ◌/◌, ◌≤◌, ◌<◌, ◌==◌, ltb, length, length-replicate, replicate, List,
  [], ◌∷◌, none, ok, refuse, bind_ok, refuse_ok, ok_injective, ◌≡◌, refl, sym, subst, arith,
}
use par2engine.Par2.FileDesc.{FileDescPacket}
use par2engine.Par2.Counts.{ShardLocation, FileIntegrityState, damage_unchecked}
use par2engine.Par2.Scan.{
  zero_slice_size, too_many_file_blocks, too_many_blocks, new_state, init_loop, init_file_integrity,
}

-- No location is known.
abbrev pub AllMissing : List ShardLocation → Type 0
AllMissing [] = Unit
AllMissing (loc ∷ locs) = (loc.offset ≡ none) × AllMissing locs

-- A state that nothing is known of but the file, with a location for each slice that the file takes.
pub record IsFresh (slice : ℕ) (f : FileDescPacket) (s : FileIntegrityState) : Type 0 where
  pub same_id : s.file_id ≡ f.file_id
  pub same_name : s.filename ≡ f.filename
  pub unchecked : s.damage ≡ damage_unchecked
  pub no_rename : s.rename_source ≡ []
  pub all_missing : AllMissing s.shard_locations
  pub enough : f.byte_count ≤ length s.shard_locations * slice
  pub no_more : length s.shard_locations * slice < f.byte_count + slice

abbrev pub AllFresh : ℕ → List FileDescPacket → List FileIntegrityState → Type 0
AllFresh slice [] [] = Unit
AllFresh slice [] (s ∷ states) = ⊥
AllFresh slice (f ∷ files) [] = ⊥
AllFresh slice (f ∷ files) (s ∷ states) = IsFresh slice f s × AllFresh slice files states

-- All locations.
unfoldable pub all_locations : List FileIntegrityState → ℕ
all_locations [] = 0
all_locations (s ∷ states) = length s.shard_locations + all_locations states

rounds_up : (n c : ℕ) → 0 < c → n ≤ (n + c - 1) / c * c
rounds_up n c h = grind arith

rounds_up-lt : (n c : ℕ) → 0 < c → (n + c - 1) / c * c < n + c
rounds_up-lt n c h = grind arith

replicate-AllMissing :
    (n : ℕ) (loc : ShardLocation) → loc.offset ≡ none → AllMissing (replicate n loc)
replicate-AllMissing zero loc h = tt
replicate-AllMissing (suc n) loc h = (h, replicate-AllMissing n loc h)

abbrev nowhere : ShardLocation
nowhere = record { file_id = replicate 16 0; offset = none }

new_state-IsFresh :
    (slice : ℕ) (f : FileDescPacket)
    → 0 < slice
    → IsFresh slice f (new_state f ((f.byte_count + slice - 1) / slice))
new_state-IsFresh slice f h =
    let n = (f.byte_count + slice - 1) / slice in
    let size = length-replicate {A = ShardLocation} n nowhere in
    record {
      same_id = refl;
      same_name = refl;
      unchecked = refl;
      no_rename = refl;
      all_missing = replicate-AllMissing n nowhere refl;
      enough =
          subst (λ (k : ℕ). f.byte_count ≤ k * slice) (sym size) (rounds_up f.byte_count slice h);
      no_more =
          subst (λ (k : ℕ). k * slice < f.byte_count + slice) (sym size)
            (rounds_up-lt f.byte_count slice h);
    }

init_loop_lem :
    (slice total : ℕ) (files : List FileDescPacket) (states : List FileIntegrityState)
    → init_loop slice total files ≡ ok states
    → total ≤ 32768
    → AllFresh slice files states × (total + all_locations states ≤ 32768)
unfolding init_loop all_locations
init_loop_lem slice total [] states run h =
    subst
      (λ (ss : List FileIntegrityState). AllFresh slice [] ss × (total + all_locations ss ≤ 32768))
      (ok_injective run) (tt, omega arith)
init_loop_lem slice total (f ∷ files) states run h =
    let n = (f.byte_count + slice - 1) / slice in
    let (u1, some_slice, run1) = bind_ok (refuse (slice == 0) zero_slice_size) _ states run in
    let (u2, few, run2) = bind_ok (refuse (ltb 32768 n) too_many_file_blocks) _ states run1 in
    let (u3, fits, run3) = bind_ok (refuse (ltb 32768 (total + n)) too_many_blocks) _ states run2 in
    let (rest, more, e) = bind_ok (init_loop slice (total + n) files) _ states run3 in
    let positive : 0 < slice =
      ground (arith, refuse_ok (slice == 0) zero_slice_size u1 some_slice) in
    let bound : total + n ≤ 32768 =
      ground (arith, refuse_ok (ltb 32768 (total + n)) too_many_blocks u3 fits) in
    let (fresh, few_all) = init_loop_lem slice (total + n) files rest more bound in
    subst
      (λ (ss : List FileIntegrityState).
        AllFresh slice (f ∷ files) ss × (total + all_locations ss ≤ 32768))
      (ok_injective e)
      (
        (new_state-IsFresh slice f positive, fresh),
        omega (arith, few_all, length-replicate {A = ShardLocation} n nowhere),
      )

-- Where `initFileIntegrity` returns states, there is one for each protected file in order, with its
-- ID and its name, unchecked and without a rename; its locations are all missing, and are as many
-- as it takes slices to hold the file; and there are 32768 locations at most in all.
pub init_file_integrity-AllFresh :
    (slice_byte_count : ℕ) (files : List FileDescPacket) (states : List FileIntegrityState)
    → init_file_integrity slice_byte_count files ≡ ok states
    → AllFresh slice_byte_count files states × (all_locations states ≤ 32768)
unfolding init_file_integrity
init_file_integrity-AllFresh slice files states run =
    let (fresh, few) = init_loop_lem slice 0 files states run (omega arith) in (fresh, omega arith)
