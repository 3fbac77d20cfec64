-- ===== src/Gf16/Tables/Ops.antt =====
-- The arithmetic on logs is the field's: products, inverses, quotients and powers.
use par2engine.Base.{
  ℕ, zero, suc, ◌+◌, ◌-◌, ◌*◌, ◌%◌, ◌<◌, ◌==◌, false, ◌≡◌, ◌≢◌, refl, sym, ap, ap₂, ◌∙◌, arith, ok,
}
use par2engine.Gf16.Poly.{order, times_poly}
use par2engine.Gf16.Poly.Laws.{times_poly-zero, zero-times_poly, times_poly-lt}
use par2engine.Gf16.Tables.{Tables, times, inverse, div, pow}
use par2engine.Gf16.Tables.Init.{HoldsPowers}
use par2engine.Gf16.Tables.Order.{
  power, power_zero, power-ne_zero, power-lt, power-surjective, power-add, power-mod, power_cycle,
}

-- The n-fold product.
pub repeated : ℕ → ℕ → ℕ
repeated t zero = 1
repeated t (suc p) = times_poly (repeated t p) t

pub repeated-lt : (t p : ℕ) → t < order → repeated t p < order
unfolding repeated
repeated-lt t zero h = omega arith
repeated-lt t (suc p) h = times_poly-lt (repeated t p) t (repeated-lt t p h)

repeated-power : (a p : ℕ) → repeated (power a) p ≡ power (a * p)
unfolding repeated
repeated-power a zero = sym power_zero ∙ ap power (omega arith)
repeated-power a (suc p) =
    ap (λ (x : ℕ). times_poly x (power a)) (repeated-power a p)
    ∙ sym (power-add (a * p) a)
    ∙ ap power (omega arith)

repeated-zero : (p : ℕ) → repeated 0 (suc p) ≡ 0
unfolding repeated
repeated-zero p = times_poly-zero (repeated 0 p)

pos_test : (t : ℕ) → 0 < t → (t == 0) ≡ false
pos_test t h = ground arith

module _ (tables : Tables) (holds : HoldsPowers (order - 1) tables) where
  log_of :
      (t : ℕ)
      → 0 < t
      → t < order
      → (tables.log (t - 1) < order - 1) × (power (tables.log (t - 1)) ≡ t)
  log_of t p h =
      let (i, l, e) = power-surjective t p h in
      let log_eq : tables.log (t - 1) ≡ i =
        ap (λ (x : ℕ). tables.log (x - 1)) (sym e) ∙ holds.log_power i l in
      (omega arith, ap power log_eq ∙ e)

  exp_mod : (n : ℕ) → tables.exp (n % (order - 1)) ≡ power n
  exp_mod n = holds.exp_below (n % 65535) (omega arith) ∙ power-mod n

  exp_one : tables.exp 1 ≢ 0
  exp_one e = power-ne_zero 1 (omega arith) (sym (holds.exp_below 1 (omega arith)) ∙ e)

  pub log_product :
      (t u : ℕ)
      → 0 < t
      → 0 < u
      → t < order
      → u < order
      → tables.exp ((tables.log (t - 1) + tables.log (u - 1)) % (order - 1)) ≡ times_poly t u
  log_product t u p q h k =
      let (_, a) = log_of t p h in
      let (_, b) = log_of u q k in
      exp_mod (tables.log (t - 1) + tables.log (u - 1))
      ∙ power-add (tables.log (t - 1)) (tables.log (u - 1))
      ∙ ap₂ times_poly a b

  -- For tables that hold the powers of the generator, the product of two elements that `Times`
  -- reads from them is that of the shift-and-xor loop, zeros included.
  pub times-eq-times_poly : (t u : ℕ) → t < order → u < order → times tables t u ≡ times_poly t u
  unfolding times
  times-eq-times_poly zero u h k = sym (zero-times_poly u)
  times-eq-times_poly (suc t) zero h k =
      rw (pos_test (suc t) (omega arith)) (sym (times_poly-zero (suc t)))
  times-eq-times_poly (suc t) (suc u) h k =
      let exp_test = pos_test (tables.exp 1) (omega (arith, exp_one)) in
      rw (pos_test (suc t) (omega arith), pos_test (suc u) (omega arith), exp_test)
        (log_product (suc t) (suc u) (omega arith) (omega arith) h k)

  -- For tables that hold the powers of the generator, `Inverse` of a nonzero element returns an
  -- element, without a panic, whose product with it is 1.
  pub inverse_lem :
      (t : ℕ)
      → 0 < t
      → t < order
      → (v : ℕ) × (inverse tables t ≡ ok v) × (v < order) × (times_poly t v ≡ 1)
  unfolding inverse
  inverse_lem t p h =
      let (l, a) = log_of t p h in
      let e = order - 1 - tables.log (t - 1) in
      (
        power e,
        rw (pos_test t p) (ap ok (exp_mod e)),
        power-lt e,
        ap (λ (x : ℕ). times_poly x (power e)) (sym a)
            ∙ sym (power-add (tables.log (t - 1)) e)
            ∙ ap power (omega arith)
            ∙ power_cycle,
      )

  div_lem_pos :
      (t u : ℕ)
      → 0 < t
      → t < order
      → 0 < u
      → u < order
      → (q : ℕ) × (div tables t u ≡ ok q) × (q < order) × (times_poly q u ≡ t)
  unfolding div
  div_lem_pos t u n h p k =
      let (l, a) = log_of t n h in
      let (m, b) = log_of u p k in
      let e = tables.log (t - 1) + (order - 1) - tables.log (u - 1) in
      (
        power e,
        rw (pos_test t n, pos_test u p) (ap ok (exp_mod e)),
        power-lt e,
        ap (times_poly (power e)) (sym b)
            ∙ sym (power-add e (tables.log (u - 1)))
            ∙ ap power (omega arith)
            ∙ sym (power-mod (65535 + tables.log (t - 1)))
            ∙ ap power (omega arith)
            ∙ power-mod (tables.log (t - 1))
            ∙ a,
      )

  -- For tables that hold the powers of the generator, `Div` by a nonzero element returns an
  -- element, without a panic, whose product with the divisor is the dividend, be that zero or not.
  pub div_lem :
      (t u : ℕ)
      → t < order
      → 0 < u
      → u < order
      → (q : ℕ) × (div tables t u ≡ ok q) × (q < order) × (times_poly q u ≡ t)
  unfolding div
  div_lem zero u h p k = (0, rw (pos_test u p), omega arith, zero-times_poly u)
  div_lem (suc t) u h p k = div_lem_pos (suc t) u (omega arith) h p k

  -- For tables that hold the powers of the generator, `Pow` is the repeated product, for every
  -- element and exponent, zeros included.
  pub pow_lem : (t p : ℕ) → t < order → pow tables t p ≡ repeated t p
  unfolding pow
  pow_lem zero zero h = unfold repeated in refl
  pow_lem zero (suc p) h = rw (pos_test (suc p) (omega arith)) (sym (repeated-zero p))
  pow_lem (suc t) p h =
      let (l, a) = log_of (suc t) (omega arith) h in
      rw (pos_test (suc t) (omega arith)) (
        exp_mod (tables.log (suc t - 1) * p)
        ∙ sym (repeated-power (tables.log (suc t - 1)) p)
        ∙ ap (λ (x : ℕ). repeated x p) a)
