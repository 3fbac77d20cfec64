-- ===== src/Gf16/Poly.antt =====
-- gf16/gf16.go: multiplication of words as polynomials over bits, by shift and `^`.
-- A value of the type T, a uint16, is a number below `order`.
pub mod Double
pub mod Loop
pub mod Laws
use Prim.Native.Nat.{bit_xor, bit_and}
use par2engine.Base.{ℕ, zero, suc, ◌-◌, ◌*◌, ◌/◌, ◌%◌, ◌^◌, ◌==◌, if◌then◌else◌}

abbrev pub order : ℕ
order = 2 ^ 16

-- The full PAR2 polynomial x^16 + x^12 + x^3 + x + 1, and its low 16 bits.
abbrev pub polynomial : ℕ
polynomial = 0x1100b

abbrev pub polynomial_low : ℕ
polynomial_low = 0x100b

-- `(p << 1) ^ (0x100b & uint16(-int16(p>>15)))`; the shift drops the 17th bit, and the mask is all
-- ones or zero.
unfoldable pub mult_by_two : ℕ → ℕ
mult_by_two p = bit_xor (p * 2 % order) (bit_and polynomial_low ((order - p / 2 ^ 15) % order))

-- `a <<= 1; if a&order != 0 { a ^= 0x1100b }` on a uint32.
unfoldable pub shift_reduce : ℕ → ℕ
shift_reduce a =
    let a' = a * 2 % 2 ^ 32 in if a' / order % 2 == 0 then a' else bit_xor a' polynomial

-- The loop `for b > 0`, on fuel.
unfoldable pub times_poly_loop : ℕ → ℕ → ℕ → ℕ → ℕ
times_poly_loop zero a b product = product
times_poly_loop (suc fuel) a b product =
    let rest =
      times_poly_loop fuel (shift_reduce a) (b / 2)
        (if b % 2 == 0 then product else bit_xor product (a % order)) in
    if b == 0 then product else rest

-- A word has 16 bits, so 16 rounds empty `b`.
unfoldable pub times_poly : ℕ → ℕ → ℕ
times_poly t u = times_poly_loop 16 t u 0
