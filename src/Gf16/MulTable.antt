-- ===== src/Gf16/MulTable.antt =====
-- gf16/gf16.go: `mulTable` and `calcTable`, the lookup table of one coefficient.
pub mod Laws
use Prim.Native.Nat.{bit_xor}
use par2engine.Base.{ℕ, zero, suc, ◌+◌, ◌*◌, ◌==◌, ltb, if◌then◌else◌}
use par2engine.Gf16.Poly.{mult_by_two}

-- The arrays `s0` and `s8`, as functions from the index.
pub record MulTable : Type 0 where
  pub s0 : ℕ → ℕ
  pub s8 : ℕ → ℕ

abbrev pub store : (ℕ → ℕ) → ℕ → ℕ → ℕ → ℕ
store f i v j = if j == i then v else f j

-- `for k := 0; k < j; k++ { table[k+j] = table[k] ^ coeff }`, with the rounds that are left.
unfoldable pub fill : ℕ → ℕ → ℕ → ℕ → (ℕ → ℕ) → ℕ → ℕ
fill zero k j coeff table = table
fill (suc rounds) k j coeff table =
    fill rounds (suc k) j coeff (store table (k + j) (bit_xor (table k) coeff))

-- The state of one of the two loops over `j`, with the coefficient that goes on to the next.
pub record Half : Type 0 where
  pub j : ℕ
  pub coeff : ℕ
  pub table : ℕ → ℕ

-- `for j := 1; j < 256; j <<= 1`, on fuel.
unfoldable pub double_loop : ℕ → Half → Half
double_loop zero s = s
double_loop (suc fuel) s =
    let rest = double_loop fuel (record {
      j = s.j * 2;
      coeff = mult_by_two s.coeff;
      table = fill s.j 0 s.j s.coeff s.table;
    }) in
    if ltb s.j 256 then rest else s

-- Eight rounds take `j` from 1 to 256.
unfoldable pub calc_half : ℕ → Half
calc_half coeff = double_loop 8 (record { j = 1; coeff = coeff; table = store (λ _. 0) 0 0 })

unfoldable pub calc_table : ℕ → MulTable
calc_table c =
    let low = calc_half c in
    let high = calc_half low.coeff in record { s0 = low.table; s8 = high.table }
