-- ===== src/Rs/Shards.antt =====
-- rs/rs.go: which shards the reconstruction reads. A nil slice, which stands for a missing shard, is
-- `none`.
use par2engine.Base.{
  ℕ, zero, suc, min, ◌+◌, ◌-◌, ◌≤◌, ◌<◌, ◌==◌, ltb, if◌then◌else◌, List, [], ◌∷◌, ◌++◌, length,
  get_elem?, Option, none, some, Result, ok, err, ◌≡◌, refl, ap, ◌∙◌, arith, length-append, true,
  false,
}

-- The errors of the coder.
pub data ShardError : Type 0 where
  mismatched_lengths invalid_data_shard_count invalid_parity_shard_count not_enough_parity :
      ShardError

-- What `analyzeShards` returns.
pub record Analysis : Type 0 where
  pub available_rows : List ℕ
  pub missing_rows : List ℕ
  pub used_parity_rows : List ℕ
  pub input : List (List ℕ)

-- The loop over the data shards, from the row `i` on.
unfoldable pub scan_data : ℕ → List (Option (List ℕ)) → Analysis
scan_data i [] = record {
  available_rows = [];
  missing_rows = [];
  used_parity_rows = [];
  input = [];
}
scan_data i (some s ∷ data_list) =
    let a = scan_data (suc i) data_list in
    record a { available_rows = i ∷ a.available_rows; input = s ∷ a.input }
scan_data i (none ∷ data_list) =
    let a = scan_data (suc i) data_list in record a { missing_rows = i ∷ a.missing_rows }

-- The parity shards that are gathered, with their rows.
pub record Gathered : Type 0 where
  pub rows : List ℕ
  pub shards : List (List ℕ)

-- The loop over the parity shards from the row `i` on, while some number of shards is wanted.
unfoldable pub gather : ℕ → ℕ → List (Option (List ℕ)) → Gathered
gather zero i parity = record { rows = []; shards = [] }
gather (suc wanted) i [] = record { rows = []; shards = [] }
gather (suc wanted) i (some s ∷ parity) =
    let g = gather wanted (suc i) parity in record { rows = i ∷ g.rows; shards = s ∷ g.shards }
gather (suc wanted) i (none ∷ parity) = gather (suc wanted) (suc i) parity

-- `analyzeShards`; where no shard is missing, it returns no rows at all.
unfoldable pub analyze_shards :
    ℕ → List (Option (List ℕ)) → List (Option (List ℕ)) → Result ShardError Analysis
analyze_shards data_shards data_list parity =
    let a = scan_data 0 data_list in
    let g = gather (data_shards - length a.input) 0 parity in
    let input = a.input ++ g.shards in
    if length a.missing_rows == 0
    then ok (record { available_rows = []; missing_rows = []; used_parity_rows = []; input = [] })
    else if ltb (length input) data_shards
    then err not_enough_parity
    else ok (record a { used_parity_rows = g.rows; input = input })

-- How many shards are there.
unfoldable pub present : List (Option (List ℕ)) → ℕ
present [] = 0
present (some s ∷ shards) = suc (present shards)
present (none ∷ shards) = present shards

-- The shards at the rows, which count from `i`, are the items.
abbrev pub Located : ℕ → List (Option (List ℕ)) → List ℕ → List (List ℕ) → Type 0
Located i shards [] [] = Unit
Located i shards [] (x ∷ xs) = ⊥
Located i shards (r ∷ rows) [] = ⊥
Located i shards (r ∷ rows) (x ∷ xs) =
    (i ≤ r) × (get_elem? shards (r - i) ≡ some (some x)) × Located i shards rows xs

-- The rows, which count from `i`, are of missing shards.
abbrev pub Missing : ℕ → List (Option (List ℕ)) → List ℕ → Type 0
Missing i shards [] = Unit
Missing i shards (r ∷ rows) =
    (i ≤ r) × (get_elem? shards (r - i) ≡ some none) × Missing i shards rows

get_suc :
    (s : Option (List ℕ)) (shards : List (Option (List ℕ))) (i r : ℕ)
    → suc i ≤ r
    → get_elem? (s ∷ shards) (r - i) ≡ get_elem? shards (r - suc i)
get_suc s shards i r h = let e : r - i ≡ suc (r - suc i) = omega arith in rw e

get_zero :
    (s : Option (List ℕ)) (shards : List (Option (List ℕ))) (i : ℕ)
    → get_elem? (s ∷ shards) (i - i) ≡ some s
get_zero s shards i = let e : i - i ≡ 0 = omega arith in rw e

Located-cons :
    (i : ℕ) (s : Option (List ℕ)) (shards : List (Option (List ℕ))) (rows : List ℕ)
    (xs : List (List ℕ))
    → Located (suc i) shards rows xs
    → Located i (s ∷ shards) rows xs
Located-cons i s shards [] [] h = tt
Located-cons i s shards [] (x ∷ xs) h = h
Located-cons i s shards (r ∷ rows) [] h = h
Located-cons i s shards (r ∷ rows) (x ∷ xs) h =
    (omega (arith, h.0), get_suc s shards i r h.0 ∙ h.1, Located-cons i s shards rows xs h.2)

Missing-cons :
    (i : ℕ) (s : Option (List ℕ)) (shards : List (Option (List ℕ))) (rows : List ℕ)
    → Missing (suc i) shards rows
    → Missing i (s ∷ shards) rows
Missing-cons i s shards [] h = tt
Missing-cons i s shards (r ∷ rows) h =
    (omega (arith, h.0), get_suc s shards i r h.0 ∙ h.1, Missing-cons i s shards rows h.2)

pub scan_data-Located :
    (i : ℕ) (data_list : List (Option (List ℕ)))
    → Located i data_list (scan_data i data_list).available_rows (scan_data i data_list).input
unfolding scan_data
scan_data-Located i [] = tt
scan_data-Located i (some s ∷ data_list) = (
  omega arith,
  get_zero (some s) data_list i,
  Located-cons i (some s) data_list _ _ (scan_data-Located (suc i) data_list),
)
scan_data-Located i (none ∷ data_list) =
    Located-cons i none data_list _ _ (scan_data-Located (suc i) data_list)

scan_data-Missing :
    (i : ℕ) (data_list : List (Option (List ℕ)))
    → Missing i data_list (scan_data i data_list).missing_rows
unfolding scan_data
scan_data-Missing i [] = tt
scan_data-Missing i (some s ∷ data_list) =
    Missing-cons i (some s) data_list _ (scan_data-Missing (suc i) data_list)
scan_data-Missing i (none ∷ data_list) = (
  omega arith,
  get_zero none data_list i,
  Missing-cons i none data_list _ (scan_data-Missing (suc i) data_list),
)

pub scan_data-length :
    (i : ℕ) (data_list : List (Option (List ℕ)))
    → length (scan_data i data_list).input + length (scan_data i data_list).missing_rows
      ≡ length data_list
unfolding scan_data
scan_data-length i [] = refl
scan_data-length i (some s ∷ data_list) = omega (arith, scan_data-length (suc i) data_list)
scan_data-length i (none ∷ data_list) = omega (arith, scan_data-length (suc i) data_list)

pub gather-Located :
    (wanted i : ℕ) (parity : List (Option (List ℕ)))
    → Located i parity (gather wanted i parity).rows (gather wanted i parity).shards
unfolding gather
gather-Located zero i parity = tt
gather-Located (suc wanted) i [] = tt
gather-Located (suc wanted) i (some s ∷ parity) = (
  omega arith,
  get_zero (some s) parity i,
  Located-cons i (some s) parity _ _ (gather-Located wanted (suc i) parity),
)
gather-Located (suc wanted) i (none ∷ parity) =
    Located-cons i none parity _ _ (gather-Located (suc wanted) (suc i) parity)

pub gather-length :
    (wanted i : ℕ) (parity : List (Option (List ℕ)))
    → length (gather wanted i parity).shards ≡ min wanted (present parity)
unfolding gather present
gather-length zero i parity = omega arith
gather-length (suc wanted) i [] = omega arith
gather-length (suc wanted) i (some s ∷ parity) = omega (arith, gather-length wanted (suc i) parity)
gather-length (suc wanted) i (none ∷ parity) = gather-length (suc wanted) (suc i) parity

pub Located-length :
    (i : ℕ) (shards : List (Option (List ℕ))) (rows : List ℕ) (xs : List (List ℕ))
    → Located i shards rows xs
    → length rows ≡ length xs
Located-length i shards [] [] h = refl
Located-length i shards [] (x ∷ xs) h = absurd h
Located-length i shards (r ∷ rows) [] h = absurd h
Located-length i shards (r ∷ rows) (x ∷ xs) h = ap suc (Located-length i shards rows xs h.2)

-- What the reconstruction needs of an analysis.
pub record IsAnalysis (data_list parity : List (Option (List ℕ))) (a : Analysis) : Type 0 where
  pub chosen : List (List ℕ)
  pub found : List (List ℕ)
  pub input_parts : a.input ≡ found ++ chosen
  pub available : Located 0 data_list a.available_rows found
  pub used : Located 0 parity a.used_parity_rows chosen
  pub missing : Missing 0 data_list a.missing_rows
  pub square : length a.used_parity_rows ≡ length a.missing_rows
  pub full : length a.input ≡ length data_list

-- The counts of a scan that misses some shards, with enough parity shards there.
pub gathered_counts :
    (data_list parity : List (Option (List ℕ)))
    → length (scan_data 0 data_list).missing_rows ≤ present parity
    → let s = scan_data 0 data_list in
      let g = gather (length data_list - length s.input) 0 parity in
      (length g.rows ≡ length s.missing_rows)
      × (length g.shards ≡ length s.missing_rows)
      × (length (s.input ++ g.shards) ≡ length data_list)
gathered_counts data_list parity enough =
    let s = scan_data 0 data_list in
    let g = gather (length data_list - length s.input) 0 parity in
    let total = scan_data-length 0 data_list in
    let wanted : length g.shards ≡ length s.missing_rows =
      omega (arith, gather-length (length data_list - length s.input) 0 parity) in
    let used = gather-Located (length data_list - length s.input) 0 parity in
    (
      Located-length 0 parity g.rows g.shards used ∙ wanted,
      wanted,
      omega (arith, length-append {0} s.input g.shards),
    )

-- What `analyzeShards` makes of them.
pub analyze_shards-ok :
    (data_list parity : List (Option (List ℕ)))
    → 0 < length (scan_data 0 data_list).missing_rows
    → length (scan_data 0 data_list).missing_rows ≤ present parity
    → let s = scan_data 0 data_list in
      let g = gather (length data_list - length s.input) 0 parity in
      analyze_shards (length data_list) data_list parity
      ≡ ok (record s { used_parity_rows = g.rows; input = s.input ++ g.shards })
unfolding analyze_shards
analyze_shards-ok data_list parity some_missing enough =
    let s = scan_data 0 data_list in
    let counts = gathered_counts data_list parity enough in
    let is_missing : (length s.missing_rows == 0) ≡ false = ground arith in
    let is_full : ltb
          (length (s.input ++ (gather (length data_list - length s.input) 0 parity).shards))
          (length data_list)
        ≡ false =
      ground (arith, counts.2) in
    rw (is_missing, is_full)

-- Where some data shards are missing and at least as many parity shards are there, `analyzeShards`
-- succeeds: its input is the data shards at the available rows followed by the parity shards at the
-- used rows, each row in its place; the other rows it names are of missing data shards; it uses as
-- many parity shards as data shards are missing, and has as many inputs as there are data shards.
pub analyze_shards-IsAnalysis :
    (data_list parity : List (Option (List ℕ)))
    → 0 < length (scan_data 0 data_list).missing_rows
    → length (scan_data 0 data_list).missing_rows ≤ present parity
    → (a : Analysis) × (analyze_shards (length data_list) data_list parity ≡ ok a)
      × IsAnalysis data_list parity a
analyze_shards-IsAnalysis data_list parity some_missing enough =
    let s = scan_data 0 data_list in
    let g = gather (length data_list - length s.input) 0 parity in
    let counts = gathered_counts data_list parity enough in
    (
      record s { used_parity_rows = g.rows; input = s.input ++ g.shards },
      analyze_shards-ok data_list parity some_missing enough,
      record {
        chosen = g.shards;
        found = s.input;
        input_parts = refl;
        available = scan_data-Located 0 data_list;
        used = gather-Located (length data_list - length s.input) 0 parity;
        missing = scan_data-Missing 0 data_list;
        square = counts.0;
        full = counts.2;
      },
    )

-- Where fewer parity shards are there than data shards are missing, `analyzeShards` returns the
-- error that there is not enough parity.
pub analyze_shards-err :
    (data_list parity : List (Option (List ℕ)))
    → present parity < length (scan_data 0 data_list).missing_rows
    → analyze_shards (length data_list) data_list parity ≡ err not_enough_parity
unfolding analyze_shards
analyze_shards-err data_list parity few =
    let s = scan_data 0 data_list in
    let g = gather (length data_list - length s.input) 0 parity in
    let total = scan_data-length 0 data_list in
    let gathered = gather-length (length data_list - length s.input) 0 parity in
    let size = length-append {0} s.input g.shards in
    let is_missing : (length s.missing_rows == 0) ≡ false = ground arith in
    let not_full : ltb (length (s.input ++ g.shards)) (length data_list) ≡ true = ground arith in
    rw (is_missing, not_full)
