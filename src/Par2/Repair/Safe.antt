-- ===== src/Par2/Repair/Safe.antt =====
-- What a plan of a repair keeps to.
use par2engine.Base.{
  ℕ, suc, ◌+◌, ◌-◌, ◌*◌, ◌/◌, ◌%◌, ◌==◌, ◌<◌, ◌≤◌, not, ◌||◌, if◌then◌else◌, Bool, true, false,
  Bool-cases, inl, inr, List, [], ◌∷◌, length, length-append, Option, none, some, Result, ok, ◌>>◌,
  refuse, bind_ok, ok_injective, ◌≡◌, refl, sym, subst, ap, ap₂, ◌∙◌, arith, ==_iff,
}
use par2engine.Par2.Names.{eq_bytes}
use par2engine.Par2.Names.Clean.{eq_bytes_iff}
use par2engine.Par2.FileDesc.{FileDescPacket}
use par2engine.Par2.Packet.{RecoveryPacket}
use par2engine.Par2.Counts.{ShardLocation, FileIntegrityState, needs_rebuild, shard_counts}
use par2engine.Par2.Repair.{RepairError, compute_chunk_size, wrong_parity_length}
use par2engine.Par2.Repair.Chunks.{compute_chunk_size-fits}
use par2engine.Par2.Repair.Plan.{
  Setting, FlattenedLocation, RepairPlan, state_of, validate_parity_shards,
  build_file_id_to_filename_map, flatten_locations, build_flat_locs, total_locations, is_at,
  is_misplaced, build_needs_write, max_exponent, plan_repair,
}

-- The parity shards have the length of a slice, and exponents below the bound.
abbrev pub AllParity : ℕ → ℕ → List RecoveryPacket → Type 0
AllParity slice bound [] = Unit
AllParity slice bound (p ∷ parity) =
    (length p.parity ≡ slice) × (p.exponent < bound) × AllParity slice bound parity

-- Each shard from `i` on is found at its own place in its own file.
abbrev pub InPlace : ℕ → List ℕ → ℕ → List ShardLocation → Type 0
InPlace slice id i [] = Unit
InPlace slice id i (loc ∷ locs) =
    (loc.offset ≡ some (i * slice)) × (loc.file_id ≡ id) × InPlace slice id (suc i) locs

-- Whether a name is one of some names.
unfoldable pub has_name : List (List ℕ) → List ℕ → Bool
has_name [] name = false
has_name (n ∷ names) name = eq_bytes n name || has_name names name

-- Each file that is not to be written has no damage, and its shards are in place.
abbrev pub AllWritten : ℕ → List FileIntegrityState → List (List ℕ) → List FileDescPacket → Type 0
AllWritten slice states names [] = Unit
AllWritten slice states names (f ∷ files) =
    (has_name names f.filename ≡ false
      → (s : FileIntegrityState) × (state_of states f.file_id ≡ ok s)
        × (needs_rebuild s.damage ≡ false)
        × InPlace slice f.file_id 0 s.shard_locations)
    × AllWritten slice states names files

pub record IsPlan (d : Setting) (plan : RepairPlan) : Type 0 where
  pub parity_fits : AllParity d.slice_byte_count plan.total_parity_shards d.parity_shards
  pub one_each : length plan.flat_locs ≡ plan.total_data_shards
  pub chunk_aligned : plan.chunk_size % 16 ≡ 0
  pub some_chunk : 16 ≤ plan.chunk_size
  pub all_chunks : d.slice_byte_count ≤ plan.num_chunks * plan.chunk_size
  pub last_chunk :
      0 < d.slice_byte_count → (plan.num_chunks - 1) * plan.chunk_size < d.slice_byte_count
  pub written : AllWritten d.slice_byte_count d.file_integrity plan.needs_write d.protected_files

parity_first :
    (slice : ℕ) (p : RecoveryPacket) (rest : Result RepairError (Unit {0}))
    → (refuse (not (length p.parity == slice)) wrong_parity_length >> rest) ≡ ok tt
    → (length p.parity ≡ slice) × (rest ≡ ok tt)
parity_first slice p rest run = ground arith

parity_lem :
    (slice : ℕ) (parity : List RecoveryPacket) (bound : ℕ)
    → validate_parity_shards slice parity ≡ ok tt
    → max_exponent parity < bound
    → AllParity slice bound parity
unfolding validate_parity_shards max_exponent
parity_lem slice [] bound run h = tt
parity_lem slice (p ∷ parity) bound run h =
    let (size, rest) = parity_first slice p (validate_parity_shards slice parity) run in
    (size, omega arith, parity_lem slice parity bound rest (omega arith))

length-flatten :
    (m : List (List ℕ × List ℕ)) (f : FileDescPacket) (i : ℕ) (locs : List ShardLocation)
    → length (flatten_locations m f i locs) ≡ length locs
unfolding flatten_locations
length-flatten m f i [] = refl
length-flatten m f i (loc ∷ locs) = ap suc (length-flatten m f (suc i) locs)

found_at :
    (expected : ℕ) (offset : Option ℕ) → is_at expected offset ≡ true → offset ≡ some expected
found_at expected none h = absurd (ground arith)
found_at expected (some offset) h = ap some ((==_iff offset expected).0 h)

place_first :
    (slice : ℕ) (id : List ℕ) (i : ℕ) (loc : ShardLocation) (rest : Bool)
    → (if not (is_at (i * slice) loc.offset) || not (eq_bytes loc.file_id id) then true else rest)
      ≡ false
    → ((loc.offset ≡ some (i * slice)) × (loc.file_id ≡ id)) × (rest ≡ false)
place_first slice id i loc rest h = elim (Bool-cases (is_at (i * slice) loc.offset)) [
  | inr away ↦ absurd (ground (arith, h, away))
  | inl here ↦ elim (Bool-cases (eq_bytes loc.file_id id)) [
    | inr other ↦ absurd (ground (arith, h, here, other))
    | inl same ↦ (
      (found_at (i * slice) loc.offset here, (eq_bytes_iff loc.file_id id).0 same),
      ground (arith, h, here, same),
    )
  ]
]

in_place :
    (slice : ℕ) (id : List ℕ) (i : ℕ) (locs : List ShardLocation)
    → is_misplaced slice id i locs ≡ false
    → InPlace slice id i locs
unfolding is_misplaced
in_place slice id i [] h = tt
in_place slice id i (loc ∷ locs) h =
    let (here, rest) = place_first slice id i loc (is_misplaced slice id (suc i) locs) h in
    (here.0, here.1, in_place slice id (suc i) locs rest)

flat_lem :
    (m : List (List ℕ × List ℕ)) (states : List FileIntegrityState) (files : List FileDescPacket)
    (total : ℕ) (flat : List FlattenedLocation)
    → total_locations states files ≡ ok total
    → build_flat_locs m states files ≡ ok flat
    → length flat ≡ total
unfolding total_locations build_flat_locs
flat_lem m states [] total flat h k = ap length (sym (ok_injective k)) ∙ ok_injective h
flat_lem m states (f ∷ files) total flat h k =
    let (s, found, h') = bind_ok (state_of states f.file_id) _ total h in
    let (rest, counted, e) = bind_ok (total_locations states files) _ total h' in
    let (s', found', k') = bind_ok (state_of states f.file_id) _ flat k in
    let (rest', flattened, e') = bind_ok (build_flat_locs m states files) _ flat k' in
    let same : s ≡ s' = ok_injective (sym found ∙ found') in
    ap length (sym (ok_injective e'))
    ∙ length-append (flatten_locations m f 0 s'.shard_locations) rest'
    ∙ ap₂ ◌+◌
        (length-flatten m f 0 s'.shard_locations
          ∙ ap (λ (t : FileIntegrityState). length t.shard_locations) (sym same))
        (flat_lem m states files rest rest' counted flattened)
    ∙ ok_injective e

has_later :
    (n : List ℕ) (names : List (List ℕ)) (name : List ℕ)
    → has_name (n ∷ names) name ≡ false
    → has_name names name ≡ false
unfolding has_name
has_later n names name h = ground arith

has_first : (n : List ℕ) (names : List (List ℕ)) → has_name (n ∷ names) n ≡ false → ⊥
unfolding has_name
has_first n names h = let e = (eq_bytes_iff n n).1 refl in ground arith

more_written :
    (slice : ℕ) (states : List FileIntegrityState) (n : List ℕ) (names : List (List ℕ))
    (files : List FileDescPacket)
    → AllWritten slice states names files
    → AllWritten slice states (n ∷ names) files
more_written slice states n names [] h = tt
more_written slice states n names (f ∷ files) h =
    (λ e. h.0 (has_later n names f.filename e), more_written slice states n names files h.1)

written_step :
    (slice : ℕ) (states : List FileIntegrityState) (f : FileDescPacket)
    (files : List FileDescPacket) (s : FileIntegrityState) (rest : List (List ℕ)) (bad : Bool)
    → state_of states f.file_id ≡ ok s
    → (bad ≡ false → (needs_rebuild s.damage ≡ false) × InPlace slice f.file_id 0 s.shard_locations)
    → AllWritten slice states rest files
    → AllWritten slice states (if bad then f.filename ∷ rest else rest) (f ∷ files)
written_step slice states f files s rest true found good more = (
  λ e. absurd (has_first f.filename rest e),
  more_written slice states f.filename rest files more,
)
written_step slice states f files s rest false found good more =
    (λ e. (s, found, (good refl).0, (good refl).1), more)

neither : (a b : Bool) → (a || b) ≡ false → (a ≡ false) × (b ≡ false)
neither a b h = ground arith

written_lem :
    (slice : ℕ) (states : List FileIntegrityState) (files : List FileDescPacket)
    (names : List (List ℕ))
    → build_needs_write slice states files ≡ ok names
    → AllWritten slice states names files
unfolding build_needs_write
written_lem slice states [] names run = tt
written_lem slice states (f ∷ files) names run =
    let (s, found, run') = bind_ok (state_of states f.file_id) _ names run in
    let (rest, more, e) = bind_ok (build_needs_write slice states files) _ names run' in
    subst (λ (ns : List (List ℕ)). AllWritten slice states ns (f ∷ files)) (ok_injective e)
      (written_step slice states f files s rest _ found
        (λ e.
          let (good, there) =
            neither (needs_rebuild s.damage) (is_misplaced slice f.file_id 0 s.shard_locations) e in
          (good, in_place slice f.file_id 0 s.shard_locations there))
        (written_lem slice states files rest more))

chunks_cover : (n c : ℕ) → 16 ≤ c → n ≤ (n + c - 1) / c * c
chunks_cover n c h = grind arith

last_starts : (n c : ℕ) → 16 ≤ c → 0 < n → ((n + c - 1) / c - 1) * c < n
last_starts n c h l = grind arith

size_lem :
    (limit slice total unusable size : ℕ)
    → compute_chunk_size limit slice total unusable ≡ ok size
    → (size % 16 ≡ 0) × (16 ≤ size)
unfolding compute_chunk_size
size_lem limit slice total unusable size run = elim (Bool-cases (total + unusable == 0)) [
  | inl none_at_all ↦ absurd (ground (arith, run, none_at_all))
  | inr some_there ↦
      let (size', run', aligned, least, fits) =
        compute_chunk_size-fits limit slice total unusable (ground (arith, some_there)) in
      let e : size' ≡ size = ok_injective (sym run' ∙ run) in
      (ap (λ (k : ℕ). k % 16) (sym e) ∙ aligned, subst (λ (k : ℕ). 16 ≤ k) e least)
]

-- In a plan that `planRepair` returns, each parity shard has the length of a slice and an exponent
-- below the number of parity rows; there is one location for each data shard; the chunk size is a
-- multiple of 16, and 16 at least; the chunks together are no shorter than a slice, and, where a
-- slice is not empty, the last one starts before its end; and each protected file that is not to be
-- written has no damage that asks for a rebuild, and has all its shards at their own offsets in the
-- file itself.
pub plan_repair-IsPlan :
    (d : Setting) (files_renamed : ℕ) (plan : RepairPlan)
    → plan_repair d files_renamed ≡ ok plan
    → IsPlan d plan
unfolding plan_repair
plan_repair-IsPlan d files_renamed plan run =
    let (u, valid, run1) =
      bind_ok (validate_parity_shards d.slice_byte_count d.parity_shards) _ plan run in
    let (total, counted, run2) =
      bind_ok (total_locations d.file_integrity d.protected_files) _ plan run1 in
    let (size, sized, run3) =
      bind_ok
        (compute_chunk_size d.memory_limit d.slice_byte_count total
          (shard_counts (length d.parity_shards) d.file_integrity).unusable_data)
        _ plan run2 in
    let (flat, flattened, run4) =
      bind_ok (build_flat_locs (build_file_id_to_filename_map d) d.file_integrity d.protected_files)
        _ plan run3 in
    let (names, needed, run5) =
      bind_ok (build_needs_write d.slice_byte_count d.file_integrity d.protected_files) _ plan
        run4 in
    subst (IsPlan d) (ok_injective run5) (record {
      parity_fits = parity_lem d.slice_byte_count d.parity_shards _ valid (omega arith);
      one_each = flat_lem _ d.file_integrity d.protected_files total flat counted flattened;
      chunk_aligned = (size_lem d.memory_limit d.slice_byte_count total _ size sized).0;
      some_chunk = (size_lem d.memory_limit d.slice_byte_count total _ size sized).1;
      all_chunks =
          chunks_cover d.slice_byte_count size
            (size_lem d.memory_limit d.slice_byte_count total _ size sized).1;
      last_chunk =
          last_starts d.slice_byte_count size
            (size_lem d.memory_limit d.slice_byte_count total _ size sized).1;
      written = written_lem d.slice_byte_count d.file_integrity d.protected_files names needed;
    })
