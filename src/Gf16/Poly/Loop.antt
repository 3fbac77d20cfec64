-- ===== src/Gf16/Poly/Loop.antt =====
-- The shift-and-xor loop, one round at a time: additive in each factor, and it ends within its fuel.
use Prim.Native.Nat.{bit_xor}
use Prim.Native.Nat.add
use native.Mathlib.Nat.{pow-suc}
use par2engine.Base.{
  ℕ, zero, suc, ◌+◌, ◌/◌, ◌%◌, ◌^◌, ◌<◌, ◌≡◌, refl, sym, ap, ◌∙◌, arith, false, ◌==◌, inl, inr, ◌⊎◌,
}
use par2engine.Bits.{zero-bit_xor, bit_xor-zero, xor-div, xor-mod, xor_self, xor_swap, xor-lt}
use par2engine.Gf16.Poly.Double.{shift_reduce-xor, shift_reduce-lt}
use par2engine.Gf16.Poly.{order, shift_reduce, times_poly_loop}

two_cases : (n : ℕ) → (n % 2 ≡ 0) ⊎ (n % 2 ≡ 1)
two_cases n = omega arith

pub loop_empty : (k a p : ℕ) → times_poly_loop k a 0 p ≡ p
unfolding times_poly_loop
loop_empty zero a p = refl
loop_empty (suc k) a p = refl

loop_zero : (a b p : ℕ) → times_poly_loop 0 a b p ≡ p
unfolding times_poly_loop
loop_zero a b p = refl

-- What one round adds for the bit `r`.
abbrev pub keep : ℕ → ℕ → ℕ
keep zero a = 0
keep (suc r) a = a

keep-lt : (r a : ℕ) → a < order → keep r a < order
keep-lt zero a h = omega arith
keep-lt (suc r) a h = h

keep-add : (x y a : ℕ) → x < 2 → y < 2 → keep ((x + y) % 2) a ≡ bit_xor (keep x a) (keep y a)
keep-add zero zero a h k = refl
keep-add zero (suc zero) a h k = sym (zero-bit_xor a)
keep-add zero (suc (suc y)) a h k = absurd (omega arith)
keep-add (suc zero) zero a h k = sym (bit_xor-zero a)
keep-add (suc zero) (suc zero) a h k = sym (xor_self a)
keep-add (suc zero) (suc (suc y)) a h k = absurd (omega arith)
keep-add (suc (suc x)) y a h k = absurd (omega arith)

keep-xor_bits : (b c a : ℕ) → keep (bit_xor b c % 2) a ≡ bit_xor (keep (b % 2) a) (keep (c % 2) a)
keep-xor_bits b c a =
    ap (λ (t : ℕ). keep t a) bits ∙ keep-add (b % 2) (c % 2) a (omega arith) (omega arith)
  where
    bits : bit_xor b c % 2 ≡ (b % 2 + c % 2) % 2
    bits = omega (arith, xor-mod b c)

keep-xor : (r a b : ℕ) → keep r (bit_xor a b) ≡ bit_xor (keep r a) (keep r b)
keep-xor zero a b = refl
keep-xor (suc r) a b = refl

keep-shift_reduce : (r a : ℕ) → keep r (shift_reduce a) ≡ shift_reduce (keep r a)
unfolding shift_reduce
keep-shift_reduce zero a = refl
keep-shift_reduce (suc r) a = refl

-- One round, whatever the test of the loop says.
pub loop_step :
    (k a b p : ℕ)
    → a < order
    → times_poly_loop (suc k) a b p
      ≡ times_poly_loop k (shift_reduce a) (b / 2) (bit_xor p (keep (b % 2) a))
unfolding times_poly_loop
loop_step k a zero p h = rw bit_xor-zero (sym (loop_empty k (shift_reduce a) p))
loop_step k a (suc b) p h = elim (two_cases (suc b)) [
  | inl e ↦ rw (more, e, bit_xor-zero)
  | inr o ↦ let m : a % order ≡ a = omega arith in rw (more, o, m)
]
  where
    more : (suc b == 0) ≡ false
    more = ground arith

-- Fuel for the bits of `b` is enough: with it the loop ends by its test, and more changes nothing.
pub times_poly_loop_enough :
    (k m a b p : ℕ)
    → a < order
    → b < 2 ^ k
    → times_poly_loop (k + m) a b p ≡ times_poly_loop k a b p
times_poly_loop_enough zero m a zero p h f = loop_empty (0 + m) a p ∙ sym (loop_empty 0 a p)
times_poly_loop_enough zero m a (suc b) p h f = absurd (omega arith)
times_poly_loop_enough (suc k) m a b p h f =
    rw (add.suc, loop_step (k + m) a b p h, loop_step k a b p h)
      (times_poly_loop_enough k m (shift_reduce a) (b / 2) (bit_xor p (keep (b % 2) a))
        (shift_reduce-lt a h) (omega (arith, pow-suc 2 k)))

-- The loop is additive in either factor and the accumulator at once.
pub loop-xor_right :
    (k a b c p q : ℕ)
    → a < order
    → times_poly_loop k a (bit_xor b c) (bit_xor p q)
      ≡ bit_xor (times_poly_loop k a b p) (times_poly_loop k a c q)
loop-xor_right zero a b c p q h = rw (loop_zero a b p, loop_zero a c q) (loop_zero a _ _)
loop-xor_right (suc k) a b c p q h =
    rw
      (
        loop_step k a (bit_xor b c) (bit_xor p q) h,
        loop_step k a b p h,
        loop_step k a c q h,
        xor-div b c,
        keep-xor_bits b c a,
        xor_swap p q (keep (b % 2) a) (keep (c % 2) a),
      )
      (loop-xor_right k (shift_reduce a) (b / 2) (c / 2) _ _ (shift_reduce-lt a h))

pub loop-xor_left :
    (k a b c p q : ℕ)
    → a < order
    → b < order
    → times_poly_loop k (bit_xor a b) c (bit_xor p q)
      ≡ bit_xor (times_poly_loop k a c p) (times_poly_loop k b c q)
loop-xor_left zero a b c p q h g = rw (loop_zero a c p, loop_zero b c q) (loop_zero _ c _)
loop-xor_left (suc k) a b c p q h g =
    rw
      (
        loop_step k (bit_xor a b) c (bit_xor p q) (xor-lt 16 a b h g),
        loop_step k a c p h,
        loop_step k b c q g,
        shift_reduce-xor a b h g,
        keep-xor (c % 2) a b,
        xor_swap p q (keep (c % 2) a) (keep (c % 2) b),
      )
      (loop-xor_left k (shift_reduce a) (shift_reduce b) (c / 2) _ _ (shift_reduce-lt a h)
        (shift_reduce-lt b g))

pub loop-shift_reduce :
    (k a b p : ℕ)
    → a < order
    → p < order
    → times_poly_loop k (shift_reduce a) b (shift_reduce p) ≡ shift_reduce (times_poly_loop k a b p)
loop-shift_reduce zero a b p h g = rw (loop_zero a b p) (loop_zero _ b _)
loop-shift_reduce (suc k) a b p h g =
    let bit = keep-lt (b % 2) a h in
    rw
      (
        loop_step k (shift_reduce a) b (shift_reduce p) (shift_reduce-lt a h),
        loop_step k a b p h,
        keep-shift_reduce (b % 2) a,
        ← shift_reduce-xor p (keep (b % 2) a) g bit,
      )
      (loop-shift_reduce k (shift_reduce a) (b / 2) _ (shift_reduce-lt a h) (xor-lt 16 p _ g bit))

pub loop-lt : (k a b p : ℕ) → a < order → p < order → times_poly_loop k a b p < order
loop-lt zero a b p h g = rw (loop_zero a b p) g
loop-lt (suc k) a b p h g = rw (loop_step k a b p h) (
    loop-lt k (shift_reduce a) (b / 2) _ (shift_reduce-lt a h)
      (xor-lt 16 p _ g (keep-lt (b % 2) a h)))
