-- ===== src/Par2/Counts/Intact.antt =====
-- What the counts tell of the files.
use par2engine.Base.{
  ℕ, ◌+◌, ◌≤◌, not, true, false, Bool-cases, inl, inr, List, [], ◌∷◌, Option, none, some, ◌≡◌, refl,
  sym, ◌∙◌, ◌↔◌, arith, if_elim,
}
use mathlib.Core.Bool.{true≢false}
use par2engine.Par2.Names.{eq_bytes}
use par2engine.Par2.Names.Clean.{eq_bytes_iff}
use par2engine.Par2.Counts.{
  FileIntegrityState, offsets, needs_rebuild, ShardCounts, count_locations, count_file, count_files,
  shard_counts, repair_needed, repair_possible, blocks_needed,
}

-- All shards of a file are found.
abbrev pub AllFound : List (Option ℕ) → Type 0
AllFound [] = Unit
AllFound (none ∷ locs) = ⊥
AllFound (some offset ∷ locs) = AllFound locs

-- A file that nothing is to be done for.
abbrev pub IsIntact : FileIntegrityState → Type 0
IsIntact s =
    AllFound (offsets s.shard_locations) × (s.rename_source ≡ []) × (needs_rebuild s.damage ≡ false)

abbrev pub AllIntact : List FileIntegrityState → Type 0
AllIntact [] = Unit
AllIntact (s ∷ states) = IsIntact s × AllIntact states

-- What a repair is needed for, so far.
abbrev todo : ShardCounts → ℕ
todo sc = sc.unusable_data + sc.renames_needed + sc.files_needing_rebuild

count_locations-grows :
    (locs : List (Option ℕ)) (sc : ShardCounts) → todo sc ≤ todo (count_locations locs sc)
unfolding count_locations
count_locations-grows [] sc = omega arith
count_locations-grows (none ∷ locs) sc =
    omega (arith, count_locations-grows locs (record sc { unusable_data = sc.unusable_data + 1 }))
count_locations-grows (some offset ∷ locs) sc =
    count_locations-grows locs (record sc { usable_data = sc.usable_data + 1 })

count_locations_iff :
    (locs : List (Option ℕ)) (sc : ShardCounts)
    → (todo (count_locations locs sc) ≡ todo sc) ↔ AllFound locs
unfolding count_locations
count_locations_iff [] sc = (λ _. tt, λ _. refl)
count_locations_iff (none ∷ locs) sc = (
  λ e. absurd (
      omega
        (arith, count_locations-grows locs (record sc { unusable_data = sc.unusable_data + 1 }))),
  λ h. absurd h,
)
count_locations_iff (some offset ∷ locs) sc =
    count_locations_iff locs (record sc { usable_data = sc.usable_data + 1 })

count_file-grows : (s : FileIntegrityState) (sc : ShardCounts) → todo sc ≤ todo (count_file s sc)
unfolding count_file
count_file-grows s sc =
    if_elim (λ (c : ShardCounts). todo sc ≤ todo c) (not (eq_bytes s.rename_source []))
      (λ _. omega arith)
      (λ _.
        if_elim (λ (c : ShardCounts). todo sc ≤ todo c) (needs_rebuild s.damage) (λ _. omega arith)
          (λ _. omega arith))

count_files-grows :
    (states : List FileIntegrityState) (sc : ShardCounts) → todo sc ≤ todo (count_files states sc)
unfolding count_files
count_files-grows [] sc = omega arith
count_files-grows (s ∷ states) sc = omega (
  arith,
  count_locations-grows (offsets s.shard_locations) sc,
  count_file-grows s (count_locations (offsets s.shard_locations) sc),
  count_files-grows states (count_file s (count_locations (offsets s.shard_locations) sc)),
)

count_file_iff :
    (s : FileIntegrityState) (sc : ShardCounts)
    → (todo (count_file s sc) ≡ todo sc)
      ↔ ((s.rename_source ≡ []) × (needs_rebuild s.damage ≡ false))
unfolding count_file
count_file_iff s sc = elim (Bool-cases (eq_bytes s.rename_source [])) [
  | inr named ↦ rw named (
    λ e. absurd (omega arith),
    λ h. absurd (true≢false (sym ((eq_bytes_iff s.rename_source []).1 h.0) ∙ named)),
  )
  | inl unnamed ↦ elim (Bool-cases (needs_rebuild s.damage)) [
    | inl bad ↦ rw (unnamed, bad) (λ e. absurd (omega arith), λ h. absurd (true≢false h.1))
    | inr good ↦
        rw (unnamed, good) (λ e. ((eq_bytes_iff s.rename_source []).0 unnamed, refl), λ h. refl)
  ]
]

count_files_iff :
    (states : List FileIntegrityState) (sc : ShardCounts)
    → (todo (count_files states sc) ≡ todo sc) ↔ AllIntact states
unfolding count_files
count_files_iff [] sc = (λ _. tt, λ _. refl)
count_files_iff (s ∷ states) sc =
    let located = count_locations (offsets s.shard_locations) sc in
    let filed = count_file s located in
    let grow1 = count_locations-grows (offsets s.shard_locations) sc in
    let grow2 = count_file-grows s located in
    let grow3 = count_files-grows states filed in
    let iff1 = count_locations_iff (offsets s.shard_locations) sc in
    let iff2 = count_file_iff s located in
    let iff3 = count_files_iff states filed in
    (
      λ e. (
        (iff1.0 (omega (arith, e)), (iff2.0 (omega (arith, e))).0, (iff2.0 (omega (arith, e))).1),
        iff3.0 (omega (arith, e)),
      ),
      λ h. iff3.1 h.1 ∙ iff2.1 (h.0.1, h.0.2) ∙ iff1.1 h.0.0,
    )

-- The counts ask for no repair exactly where each protected file has all its shards found, no
-- rename waiting and no damage that asks for a rebuild.
pub repair_needed_iff :
    (parity : ℕ) (states : List FileIntegrityState)
    → (repair_needed (shard_counts parity states) ≡ false) ↔ AllIntact states
unfolding repair_needed shard_counts
repair_needed_iff parity states =
    let iff = count_files_iff states (record {
      usable_data = 0;
      unusable_data = 0;
      usable_parity = parity;
      unusable_parity = 0;
      renames_needed = 0;
      files_needing_rebuild = 0;
    }) in
    (λ e. iff.0 (ground arith), λ h. let z = iff.1 h in ground arith)

-- With some more recovery blocks a repair is possible exactly where they are at least as many as
-- `BlocksNeeded` tells.
pub repair_possible_iff :
    (sc : ShardCounts) (more : ℕ)
    → (repair_possible (record sc { usable_parity = sc.usable_parity + more }) ≡ true)
      ↔ (blocks_needed sc ≤ more)
unfolding repair_possible blocks_needed
repair_possible_iff sc more = (λ e. ground arith, λ e. ground arith)
