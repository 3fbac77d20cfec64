-- ===== src/Gf16/Tables/Order.antt =====
-- The powers of the generator run through all 65535 nonzero words before they repeat.
use par2engine.Base.{
  ℕ, zero, suc, ◌+◌, ◌-◌, ◌*◌, ◌/◌, ◌%◌, ◌<◌, ◌==◌, if◌then◌else◌, Bool, true, false, ◌≡◌, ◌≢◌,
  refl, sym, ap, ◌∙◌, arith, ltb, Bool-cases, inl, inr, pigeonhole,
}
use par2engine.Gf16.Poly.{order, times_poly, times_poly_loop, shift_reduce}
use par2engine.Gf16.Poly.Laws.{
  times_poly-lt, times_poly_assoc, times_poly-one, one-times_poly, zero-times_poly,
}
use native.Mathlib.Decide.{ℕ_discrete}

-- What `x` is at the start of round `p` of the loop.
pub power : ℕ → ℕ
power zero = 1
power (suc p) = times_poly (power p) 3

pub power-suc : (p : ℕ) → power (suc p) ≡ times_poly (power p) 3
unfolding power
power-suc p = refl

pub power_zero : power 0 ≡ 1
unfolding power
power_zero = refl

-- Whether a run of `n` products from `x` meets 1 at its end and not before.
walk : ℕ → ℕ → Bool
walk zero x = x == 1
walk (suc n) x = let rest = walk n (times_poly x 3) in if x == 1 then false else rest

full_walk : walk 65534 3 ≡ true
unfolding walk times_poly times_poly_loop shift_reduce
full_walk = refl

walk_test :
    (n p : ℕ) → walk (suc n) (power p) ≡ true → (power p ≢ 1) × (walk n (power (suc p)) ≡ true)
unfolding walk power
walk_test n p h = ground arith

walk-power : (n p : ℕ) → walk n (power p) ≡ true → (i : ℕ) → i < n → power (p + i) ≢ 1
walk-power zero p h i l = absurd (omega arith)
walk-power (suc n) p h zero l = let e : p + 0 ≡ p = omega arith in rw e (walk_test n p h).0
walk-power (suc n) p h (suc i) l =
    let e : p + suc i ≡ suc p + i = omega arith in
    rw e (walk-power n (suc p) (walk_test n p h).1 i (omega arith))

walk_end : (n p : ℕ) → walk n (power p) ≡ true → power (p + n) ≡ 1
unfolding walk
walk_end zero p h = let e : p + 0 ≡ p = omega arith in rw e (ground arith)
walk_end (suc n) p h =
    let e : p + suc n ≡ suc p + n = omega arith in rw e (walk_end n (suc p) (walk_test n p h).1)

power_one : power 1 ≡ 3
power_one = power-suc 0 ∙ ap (λ (t : ℕ). times_poly t 3) power_zero ∙ one-times_poly 3 (omega arith)

full_walk-power : walk 65534 (power 1) ≡ true
full_walk-power = rw power_one full_walk

pub power-ne_one : (i : ℕ) → 0 < i → i < order - 1 → power i ≢ 1
power-ne_one zero p h = absurd (omega arith)
power-ne_one (suc i) p h =
    let e : suc i ≡ 1 + i = omega arith in rw e (walk-power 65534 1 full_walk-power i (omega arith))

pub power_cycle : power (order - 1) ≡ 1
power_cycle = walk_end 65534 1 full_walk-power

pub power-lt : (p : ℕ) → power p < order
power-lt zero = rw power_zero (omega arith)
power-lt (suc p) = rw (power-suc p) (times_poly-lt (power p) 3 (power-lt p))

-- The exponents add under the product.
pub power-add : (a b : ℕ) → power (a + b) ≡ times_poly (power a) (power b)
power-add a zero =
    let e : a + 0 ≡ a = omega arith in
    rw (e, power_zero) (sym (times_poly-one (power a) (power-lt a)))
power-add a (suc b) =
    let e : a + suc b ≡ suc (a + b) = omega arith in
    rw (e, power-suc (a + b), power-suc b, power-add a b)
      (times_poly_assoc (power a) (power b) 3 (power-lt a) (power-lt b) (omega arith))

power-cycles : (q r : ℕ) → power (q * 65535 + r) ≡ power r
power-cycles zero r = let e : 0 * 65535 + r ≡ r = omega arith in ap power e
power-cycles (suc q) r =
    let e : suc q * 65535 + r ≡ 65535 + (q * 65535 + r) = omega arith in
    rw (e, power-add 65535 (q * 65535 + r), power_cycle)
      (one-times_poly _ (power-lt _) ∙ power-cycles q r)

pub power-mod : (n : ℕ) → power (n % (order - 1)) ≡ power n
power-mod n = sym (power-cycles (n / 65535) (n % 65535)) ∙ ap power (omega arith)

pub power-injective : (i j : ℕ) → i < order - 1 → j < order - 1 → power i ≡ power j → i ≡ j
power-injective i j h k e = elim (ℕ_discrete i j) [
  | yes same ↦ same
  | no ne ↦ absurd (elim (Bool-cases (ltb i j)) [
    | inl lt ↦ apart i j (ground arith) k e
    | inr ge ↦ apart j i (ground arith) h (sym e)
  ])
]
  where
    apart : (i j : ℕ) → i < j → j < 65535 → power i ≢ power j
    apart i j l m e = power-ne_one (i + (65535 - j)) (omega arith) (omega arith) (
        power-add i (65535 - j)
        ∙ ap (λ (t : ℕ). times_poly t (power (65535 - j))) e
        ∙ sym (power-add j (65535 - j))
        ∙ ap power (omega arith)
        ∙ power_cycle)

pub power-ne_zero : (i : ℕ) → i < order - 1 → power i ≢ 0
power-ne_zero i h e = absurd (omega (arith, one_is_zero))
  where
    one_is_zero : ◌≡◌ {A = ℕ} 1 0
    one_is_zero =
        sym power_cycle
        ∙ ap power (omega arith)
        ∙ power-add i (65535 - i)
        ∙ ap (λ (t : ℕ). times_poly t (power (65535 - i))) e
        ∙ zero-times_poly (power (65535 - i))

-- Every nonzero element is a power of the generator, with an exponent below 65535.
pub power-surjective : (t : ℕ) → 0 < t → t < order → (i : ℕ) × (i < order - 1) × (power i ≡ t)
power-surjective t p h =
    let (i, l, e) =
      pigeonhole (order - 1) (λ i. power i - 1)
        (λ i l. omega (arith, power-lt i, power-ne_zero i l))
        (λ i j l m e.
          power-injective i j l m (omega (arith, power-ne_zero i l, power-ne_zero j m, e)))
        (t - 1) (omega arith) in
    (i, l, omega (arith, power-ne_zero i l, e))
