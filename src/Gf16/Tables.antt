-- ===== src/Gf16/Tables.antt =====
-- gf16/gf16.go: the log and exp tables, the loop in `init` that fills them, and the arithmetic that
-- reads them. An array is a function from its index.
pub mod Order
pub mod Init
pub mod Ops
use par2engine.Base.{
  ℕ, zero, suc, ◌+◌, ◌-◌, ◌*◌, ◌%◌, ◌^◌, ◌==◌, if◌then◌else◌, not, ◌&&◌, ◌||◌, Result, ok, err,
  ◌>>=◌,
}
use par2engine.Gf16.Poly.{order, times_poly}

-- The generator `g` of the field's nonzero elements.
abbrev pub generator : ℕ
generator = 3

-- `logTable` (at `x - 1`) and `expTable`.
pub record Tables : Type 0 where
  pub log : ℕ → ℕ
  pub exp : ℕ → ℕ

-- The panics of the package: three in `init`, an index out of range, and the two of `Inverse` and `Div`.
pub data Panic : Type 0 where
  repeated_power_one repeated_power repeated_exponent index_out_of_range : Panic
  zero_has_no_inverse division_by_zero : Panic

abbrev pub store : (ℕ → ℕ) → ℕ → ℕ → ℕ → ℕ
store f i v j = if j == i then v else f j

-- The body of the loop for the exponent `p` and its power `x`, up to the product that follows.
unfoldable pub init_step : ℕ → ℕ → Tables → Result Panic Tables
init_step p x tables =
    if x == 0
    then err index_out_of_range
    else if x == 1 && not (p == 0)
    then err repeated_power_one
    else if not (x == 1) && not (tables.log (x - 1) == 0)
    then err repeated_power
    else if not (tables.exp p == 0)
    then err repeated_exponent
    else ok (record { log = store tables.log (x - 1) (p % 2 ^ 16); exp = store tables.exp p x })

-- `for p := range order - 1`, with the rounds that are left.
unfoldable pub init_loop : ℕ → ℕ → ℕ → Tables → Result Panic Tables
init_loop zero p x tables = ok tables
init_loop (suc rounds) p x tables =
    init_step p x tables >>= λ t. init_loop rounds (suc p) (times_poly x generator) t

abbrev pub zeroed : Tables
zeroed = record { log = λ _. 0; exp = λ _. 0 }

unfoldable pub init_tables : Result Panic Tables
init_tables = init_loop (order - 1) 0 1 zeroed

module _ (tables : Tables) where
  -- `T.Times`
  unfoldable pub times : ℕ → ℕ → ℕ
  times t u =
      if t == 0 || u == 0
      then 0
      else if tables.exp 1 == 0
      then times_poly t u
      else tables.exp ((tables.log (t - 1) + tables.log (u - 1)) % (order - 1))

  -- `T.Inverse`; the int `-logT + (order-1)` is not negative, as a log is below `order - 1`.
  unfoldable pub inverse : ℕ → Result Panic ℕ
  inverse t =
      if t == 0
      then err zero_has_no_inverse
      else ok (tables.exp ((order - 1 - tables.log (t - 1)) % (order - 1)))

  -- `T.Div`; here too the int is not negative.
  unfoldable pub div : ℕ → ℕ → Result Panic ℕ
  div t u =
      if u == 0
      then err division_by_zero
      else if t == 0
      then ok 0
      else ok (tables.exp ((tables.log (t - 1) + (order - 1) - tables.log (u - 1)) % (order - 1)))

  -- `T.Pow`; the uint64 product of a 16-bit log and a uint32 does not wrap.
  unfoldable pub pow : ℕ → ℕ → ℕ
  pow t p =
      if t == 0
      then (if p == 0 then 1 else 0)
      else tables.exp (tables.log (t - 1) * p % (order - 1))
