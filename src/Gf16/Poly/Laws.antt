-- ===== src/Gf16/Poly/Laws.antt =====
-- The product of words is a commutative, associative, bilinear product with unit 1.
use Prim.Native.Nat.{bit_xor}
use native.Mathlib.Nat.{pow-suc}
use par2engine.Base.{
  ℕ, zero, suc, ◌/◌, ◌%◌, ◌^◌, ◌≤◌, ◌<◌, ◌≡◌, refl, sym, ap, ap₂, ◌∙◌, ◌≡⟨◌⟩◌, ◌∎, arith,
}
use par2engine.Bits.{zero-bit_xor, bit_xor-zero, xor_self, double-xor-bit}
use par2engine.Gf16.Poly.Double.{shift_reduce-lt, shift_reduce_low}
use par2engine.Gf16.Poly.Loop.{
  keep, loop_step, loop_empty, loop-xor_right, loop-xor_left, loop-shift_reduce, loop-lt,
  times_poly_loop_enough,
}
use par2engine.Gf16.Poly.{order, shift_reduce, times_poly_loop, times_poly}

-- The product of words.
pub times_poly-lt : (a b : ℕ) → a < order → times_poly a b < order
unfolding times_poly
times_poly-lt a b h = loop-lt 16 a b 0 h (omega arith)

pub times_poly-xor :
    (a b c : ℕ) → a < order → times_poly a (bit_xor b c) ≡ bit_xor (times_poly a b) (times_poly a c)
unfolding times_poly
times_poly-xor a b c h = loop-xor_right 16 a b c 0 0 h

pub xor-times_poly :
    (a b c : ℕ)
    → a < order
    → b < order
    → times_poly (bit_xor a b) c ≡ bit_xor (times_poly a c) (times_poly b c)
unfolding times_poly
xor-times_poly a b c h g = loop-xor_left 16 a b c 0 0 h g

pub shift_reduce-times_poly :
    (a b : ℕ) → a < order → times_poly (shift_reduce a) b ≡ shift_reduce (times_poly a b)
unfolding times_poly shift_reduce
shift_reduce-times_poly a b h = loop-shift_reduce 16 a b 0 h (omega arith)

pub times_poly-zero : (a : ℕ) → times_poly a 0 ≡ 0
unfolding times_poly
times_poly-zero a = loop_empty 16 a 0

pub times_poly-one : (a : ℕ) → a < order → times_poly a 1 ≡ a
unfolding times_poly times_poly_loop
times_poly-one a h = zero-bit_xor (a % order) ∙ omega arith

pub zero-times_poly : (b : ℕ) → times_poly 0 b ≡ 0
zero-times_poly b = xor-times_poly 0 0 b (omega arith) (omega arith) ∙ xor_self (times_poly 0 b)

-- The lowest bit of the second factor, apart from the others.
times_poly_step :
    (a b : ℕ)
    → a < order
    → b < order
    → times_poly a b ≡ bit_xor (times_poly (shift_reduce a) (b / 2)) (keep (b % 2) a)
unfolding times_poly
times_poly_step a b h g =
    let a' = shift_reduce a in
    let q = b / 2 in
    let bit = keep (b % 2) a in
    times_poly_loop 16 a b 0
    ≡⟨ loop_step 15 a b 0 h ⟩ times_poly_loop 15 a' q (bit_xor 0 bit)
    ≡⟨ ap (λ (t : ℕ). times_poly_loop 15 a' t (bit_xor 0 bit)) (sym (bit_xor-zero q)) ⟩
      times_poly_loop 15 a' (bit_xor q 0) (bit_xor 0 bit)
    ≡⟨ loop-xor_right 15 a' q 0 0 bit (shift_reduce-lt a h) ⟩
      bit_xor (times_poly_loop 15 a' q 0) (times_poly_loop 15 a' 0 bit)
    ≡⟨ ap₂ bit_xor (sym (times_poly_loop_enough 15 1 a' q 0 (shift_reduce-lt a h) (omega arith)))
        (loop_empty 15 a' bit) ⟩
      bit_xor (times_poly_loop 16 a' q 0) bit ∎

-- Below bit 15, `shift_reduce` and a low bit make every word.
word_split : (b : ℕ) → b < order → b ≡ bit_xor (shift_reduce (b / 2)) (b % 2)
word_split b h =
    rw (shift_reduce_low (b / 2) (omega arith), double-xor-bit (b / 2) (b % 2) (omega arith))
      (omega arith)

keep_one : (r : ℕ) → r < 2 → keep r 1 ≡ r
keep_one zero h = refl
keep_one (suc zero) h = refl
keep_one (suc (suc r)) h = absurd (omega arith)

one-times_poly_fuel : (k b : ℕ) → b < 2 ^ k → k ≤ 16 → b < order → times_poly 1 b ≡ b
one-times_poly_fuel zero zero h l g = times_poly-zero 1
one-times_poly_fuel zero (suc b) h l g = absurd (omega arith)
one-times_poly_fuel (suc k) b h l g =
    rw
      (
        times_poly_step 1 b (omega arith) g,
        shift_reduce-times_poly 1 (b / 2) (omega arith),
        one-times_poly_fuel k (b / 2) (omega (arith, pow-suc 2 k)) (omega arith) (omega arith),
        keep_one (b % 2) (omega arith),
      )
      (sym (word_split b g))

pub one-times_poly : (b : ℕ) → b < order → times_poly 1 b ≡ b
one-times_poly b h = one-times_poly_fuel 16 b h (omega arith) h

bit-times_poly : (r a : ℕ) → r < 2 → a < order → times_poly r a ≡ keep r a
bit-times_poly zero a h g = zero-times_poly a
bit-times_poly (suc zero) a h g = one-times_poly a g
bit-times_poly (suc (suc r)) a h g = absurd (omega arith)

times_poly_comm_fuel :
    (k a b : ℕ) → b < 2 ^ k → a < order → b < order → times_poly a b ≡ times_poly b a
times_poly_comm_fuel zero a zero h g l = times_poly-zero a ∙ sym (zero-times_poly a)
times_poly_comm_fuel zero a (suc b) h g l = absurd (omega arith)
times_poly_comm_fuel (suc k) a b h g l =
    let q = b / 2 in
    let r = b % 2 in
    times_poly a b
    ≡⟨ times_poly_step a b g l ⟩ bit_xor (times_poly (shift_reduce a) q) (keep r a)
    ≡⟨ ap₂ bit_xor
        (shift_reduce-times_poly a q g
          ∙ ap shift_reduce
              (times_poly_comm_fuel k a q (omega (arith, pow-suc 2 k)) g (omega arith))
          ∙ sym (shift_reduce-times_poly q a (omega arith)))
        (sym (bit-times_poly r a (omega arith) g)) ⟩
      bit_xor (times_poly (shift_reduce q) a) (times_poly r a)
    ≡⟨ sym (xor-times_poly (shift_reduce q) r a (shift_reduce-lt q (omega arith)) (omega arith)) ⟩
      times_poly (bit_xor (shift_reduce q) r) a
    ≡⟨ ap (λ (t : ℕ). times_poly t a) (sym (word_split b l)) ⟩ times_poly b a ∎

pub times_poly_comm : (a b : ℕ) → a < order → b < order → times_poly a b ≡ times_poly b a
times_poly_comm a b h g = times_poly_comm_fuel 16 a b g h g

-- Doubling goes through either factor.
pub times_poly-shift_reduce :
    (a b : ℕ)
    → a < order
    → b < order
    → times_poly a (shift_reduce b) ≡ shift_reduce (times_poly a b)
times_poly-shift_reduce a b h g =
    times_poly_comm a (shift_reduce b) h (shift_reduce-lt b g)
    ∙ shift_reduce-times_poly b a g
    ∙ ap shift_reduce (times_poly_comm b a g h)

times_poly_rec :
    (a b : ℕ)
    → a < order
    → b < order
    → times_poly a b ≡ bit_xor (shift_reduce (times_poly a (b / 2))) (keep (b % 2) a)
times_poly_rec a b h g =
    times_poly_step a b h g
    ∙ ap (λ (t : ℕ). bit_xor t (keep (b % 2) a)) (shift_reduce-times_poly a (b / 2) h)

times_poly-keep : (r a b : ℕ) → times_poly a (keep r b) ≡ keep r (times_poly a b)
times_poly-keep zero a b = times_poly-zero a
times_poly-keep (suc r) a b = refl

times_poly_assoc_fuel :
    (k a b c : ℕ)
    → c < 2 ^ k
    → a < order
    → b < order
    → c < order
    → times_poly (times_poly a b) c ≡ times_poly a (times_poly b c)
times_poly_assoc_fuel zero a b zero h p q r =
    times_poly-zero (times_poly a b)
    ∙ sym (ap (times_poly a) (times_poly-zero b) ∙ times_poly-zero a)
times_poly_assoc_fuel zero a b (suc c) h p q r = absurd (omega arith)
times_poly_assoc_fuel (suc k) a b c h p q r =
    let ab = times_poly a b in
    let bd = times_poly b (c / 2) in
    let bit = c % 2 in
    times_poly ab c
    ≡⟨ times_poly_rec ab c (times_poly-lt a b p) r ⟩
      bit_xor (shift_reduce (times_poly ab (c / 2))) (keep bit ab)
    ≡⟨ ap₂ bit_xor
        (ap shift_reduce
            (times_poly_assoc_fuel k a b (c / 2) (omega (arith, pow-suc 2 k)) p q (omega arith))
          ∙ sym (times_poly-shift_reduce a bd p (times_poly-lt b (c / 2) q)))
        (sym (times_poly-keep bit a b)) ⟩
      bit_xor (times_poly a (shift_reduce bd)) (times_poly a (keep bit b))
    ≡⟨ sym (times_poly-xor a (shift_reduce bd) (keep bit b) p) ⟩
      times_poly a (bit_xor (shift_reduce bd) (keep bit b))
    ≡⟨ ap (times_poly a) (sym (times_poly_rec b c q r)) ⟩ times_poly a (times_poly b c) ∎

-- The shift-and-xor product of three elements does not depend on how they are grouped.
pub times_poly_assoc :
    (a b c : ℕ)
    → a < order
    → b < order
    → c < order
    → times_poly (times_poly a b) c ≡ times_poly a (times_poly b c)
times_poly_assoc a b c p q r = times_poly_assoc_fuel 16 a b c r p q r
