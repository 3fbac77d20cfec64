-- ===== src/Gf16/Poly/Double.antt =====
-- Doubling a word, as the two loops of the code do it: a linear map on words.
use Prim.Native.Nat.{bit_xor}
use par2engine.Base.{
  ℕ, zero, suc, ◌+◌, ◌-◌, ◌*◌, ◌/◌, ◌%◌, ◌^◌, ◌≤◌, ◌<◌, ◌≡◌, refl, ap, ◌∙◌, arith, ltb, ltb→lt,
  Bool-cases, inl, inr,
}
use par2engine.Bits.{zero-bit_xor, bit_xor-zero, xor_swap, xor_double, xor-lt, xor-div_pow, pow-xor}
use par2engine.Gf16.Poly.{order, polynomial, polynomial_low, mult_by_two, shift_reduce}

-- Below 2 ^ 15 the doubling is plain; above, bit 16 goes out and the low polynomial comes in.
pub shift_reduce_low : (a : ℕ) → a < 2 ^ 15 → shift_reduce a ≡ a * 2
unfolding shift_reduce
shift_reduce_low a h = ground arith

shift_reduce_high : (a : ℕ) → 2 ^ 15 ≤ a → a < order → shift_reduce a ≡ bit_xor (a * 2) polynomial
unfolding shift_reduce
shift_reduce_high a l h = ground arith

xor-polynomial : (s : ℕ) → s < order → bit_xor (order + s) polynomial ≡ bit_xor s polynomial_low
xor-polynomial s h = rw (← pow-xor 16 s h) (xor_swap order s order polynomial_low ∙ zero-bit_xor _)

double-xor-polynomial :
    (a : ℕ)
    → 2 ^ 15 ≤ a
    → a < order
    → bit_xor (a * 2) polynomial ≡ bit_xor (a * 2 - order) polynomial_low
double-xor-polynomial a l h =
    ap (λ (t : ℕ). bit_xor t polynomial) (omega arith)
    ∙ xor-polynomial (a * 2 - order) (omega arith)

-- The word to add back when bit 15 is shifted out.
abbrev carry : ℕ → ℕ
carry zero = 0
carry (suc h) = polynomial

shift_reduce-carry : (a : ℕ) → a < order → shift_reduce a ≡ bit_xor (a * 2) (carry (a / 2 ^ 15))
shift_reduce-carry a h = elim (Bool-cases (ltb a (2 ^ 15))) [
  | inl low ↦
      let z : a / 2 ^ 15 ≡ 0 = ground arith in
      rw (shift_reduce_low a (ltb→lt a _ low), z, bit_xor-zero)
  | inr high ↦ let o : a / 2 ^ 15 ≡ 1 = ground arith in rw (shift_reduce_high a (ground arith) h, o)
]

carry-xor : (x y : ℕ) → x < 2 → y < 2 → carry (bit_xor x y) ≡ bit_xor (carry x) (carry y)
carry-xor zero zero h k = refl
carry-xor zero (suc zero) h k = refl
carry-xor zero (suc (suc y)) h k = absurd (omega arith)
carry-xor (suc zero) zero h k = refl
carry-xor (suc zero) (suc zero) h k = refl
carry-xor (suc zero) (suc (suc y)) h k = absurd (omega arith)
carry-xor (suc (suc x)) y h k = absurd (omega arith)

pub shift_reduce-xor :
    (a b : ℕ)
    → a < order
    → b < order
    → shift_reduce (bit_xor a b) ≡ bit_xor (shift_reduce a) (shift_reduce b)
shift_reduce-xor a b h k =
    rw
      (
        shift_reduce-carry (bit_xor a b) (xor-lt 16 a b h k),
        shift_reduce-carry a h,
        shift_reduce-carry b k,
        xor-div_pow 15 a b,
        carry-xor (a / 2 ^ 15) (b / 2 ^ 15) (omega arith) (omega arith),
        ← xor_double a b,
      )
      (xor_swap (a * 2) (b * 2) (carry (a / 2 ^ 15)) (carry (b / 2 ^ 15)))

pub shift_reduce-lt : (a : ℕ) → a < order → shift_reduce a < order
shift_reduce-lt a h = elim (Bool-cases (ltb a (2 ^ 15))) [
  | inl low ↦ rw (shift_reduce_low a (ltb→lt a _ low)) (ground arith)
  | inr high ↦
      rw (shift_reduce_high a (ground arith) h, double-xor-polynomial a (ground arith) h)
        (xor-lt 16 (a * 2 - order) polynomial_low (ground arith) (omega arith))
]

-- The branchless doubling of `multByTwo` is the shift and conditional reduction of `timesPoly`, on
-- every element.
pub mult_by_two-eq-shift_reduce : (p : ℕ) → p < order → mult_by_two p ≡ shift_reduce p
unfolding mult_by_two
mult_by_two-eq-shift_reduce p h = elim (Bool-cases (ltb p (2 ^ 15))) [
  | inl low ↦
      let z : p / 2 ^ 15 ≡ 0 = ground arith in
      let m : p * 2 % order ≡ p * 2 = ground arith in
      rw (shift_reduce_low p (ltb→lt p _ low), z, m) (bit_xor-zero (p * 2))
  | inr high ↦
      let o : p / 2 ^ 15 ≡ 1 = ground arith in
      let m : p * 2 % order ≡ p * 2 - order = ground arith in
      rw (shift_reduce_high p (ground arith) h, double-xor-polynomial p (ground arith) h, o, m)
]

-- A loop that has enough fuel for `b` adds the product of `a` and `b` to `product`.
