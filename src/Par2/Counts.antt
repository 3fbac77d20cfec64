-- ===== src/Par2/Counts.antt =====
-- par2/decoder.go and par2/scan.go: what the states of the protected files add up to. The map from
-- file IDs to states is the list of its values, in the order in which the loop meets them.
pub mod Intact
use par2engine.Base.{
  ℕ, ◌+◌, ◌-◌, ltb, leb, if◌then◌else◌, not, ◌||◌, Bool, true, false, List, [], ◌∷◌, Option, none,
  some, map,
}
use par2engine.Par2.Names.{eq_bytes}

-- `fileDamage`
pub data FileDamage : Type 0 where
  damage_unchecked damage_none damage_missing damage_wrong_size damage_wrong_hash : FileDamage

-- `shardLocation`; `none` is the offset -1 of a shard that is missing.
pub record ShardLocation : Type 0 where
  pub file_id : List ℕ
  pub offset : Option ℕ

-- `fileIntegrityState`
pub record FileIntegrityState : Type 0 where
  pub file_id : List ℕ
  pub filename : List ℕ
  pub damage : FileDamage
  pub rename_source : List ℕ
  pub shard_locations : List ShardLocation

-- `needsRebuild`
unfoldable pub needs_rebuild : FileDamage → Bool
needs_rebuild damage_missing = true
needs_rebuild damage_wrong_size = true
needs_rebuild damage_wrong_hash = true
needs_rebuild damage_unchecked = false
needs_rebuild damage_none = false

-- `ShardCounts`; no parity shard is ever counted as unusable.
pub record ShardCounts : Type 0 where
  pub usable_data : ℕ
  pub unusable_data : ℕ
  pub usable_parity : ℕ
  pub unusable_parity : ℕ
  pub renames_needed : ℕ
  pub files_needing_rebuild : ℕ

-- The offsets of some locations.
abbrev pub offsets : List ShardLocation → List (Option ℕ)
offsets locs = map (λ (loc : ShardLocation). loc.offset) locs

unfoldable pub count_locations : List (Option ℕ) → ShardCounts → ShardCounts
count_locations [] sc = sc
count_locations (none ∷ locs) sc =
    count_locations locs (record sc { unusable_data = sc.unusable_data + 1 })
count_locations (some offset ∷ locs) sc =
    count_locations locs (record sc { usable_data = sc.usable_data + 1 })

unfoldable pub count_file : FileIntegrityState → ShardCounts → ShardCounts
count_file state sc =
    if not (eq_bytes state.rename_source [])
    then record sc { renames_needed = sc.renames_needed + 1 }
    else if needs_rebuild state.damage
    then record sc { files_needing_rebuild = sc.files_needing_rebuild + 1 }
    else sc

unfoldable pub count_files : List FileIntegrityState → ShardCounts → ShardCounts
count_files [] sc = sc
count_files (state ∷ states) sc =
    count_files states (count_file state (count_locations (offsets state.shard_locations) sc))

-- `shardCountsLocked`
unfoldable pub shard_counts : ℕ → List FileIntegrityState → ShardCounts
shard_counts parity states = count_files states (record {
  usable_data = 0;
  unusable_data = 0;
  usable_parity = parity;
  unusable_parity = 0;
  renames_needed = 0;
  files_needing_rebuild = 0;
})

-- `RepairNeeded`
unfoldable pub repair_needed : ShardCounts → Bool
repair_needed sc =
    ltb 0 sc.unusable_data || ltb 0 sc.renames_needed || ltb 0 sc.files_needing_rebuild

-- `RepairPossible`
unfoldable pub repair_possible : ShardCounts → Bool
repair_possible sc = leb sc.unusable_data sc.usable_parity

-- `BlocksNeeded`; a negative deficit is 0.
unfoldable pub blocks_needed : ShardCounts → ℕ
blocks_needed sc = sc.unusable_data - sc.usable_parity
