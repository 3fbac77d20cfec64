-- ===== src/Gf16/Tables/Init.antt =====
-- `init` fills the tables without a panic, and they are inverse to one another.
use par2engine.Base.{
  ℕ, zero, suc, ◌+◌, ◌-◌, ◌%◌, ◌^◌, ◌≤◌, ◌<◌, ◌≡◌, ◌≢◌, refl, sym, ap, ◌∙◌, arith, ok,
}
use par2engine.Gf16.Poly.{order}
use par2engine.Gf16.Tables.{Tables, store, init_step, init_loop, init_tables, zeroed}
use par2engine.Gf16.Tables.Order.{
  power, power-suc, power_zero, power-ne_one, power-ne_zero, power-injective,
}

-- What the tables hold before round `p`: the first `p` powers, and zeros.
pub record HoldsPowers (p : ℕ) (tables : Tables) : Type 0 where
  pub exp_below : (i : ℕ) → i < p → tables.exp i ≡ power i
  pub exp_above : (i : ℕ) → p ≤ i → tables.exp i ≡ 0
  pub log_power : (i : ℕ) → i < p → tables.log (power i - 1) ≡ i
  pub log_other : (j : ℕ) → ((i : ℕ) → i < p → power i ≢ suc j) → tables.log j ≡ 0

module _ (p : ℕ) (tables : Tables) (in_range : p < order - 1) (holds : HoldsPowers p tables) where
  abbrev stored : Tables
  stored = record {
    log = store tables.log (power p - 1) (p % 2 ^ 16);
    exp = store tables.exp p (power p);
  }

  fresh : (i : ℕ) → i < p → power i ≢ suc (power p - 1)
  fresh i l e = absurd (
      omega (
        arith,
        power-injective i p (omega arith) in_range (omega (arith, power-ne_zero p in_range, e)),
      ))

  init_step-stored : init_step p (power p) tables ≡ ok stored
  unfolding init_step
  init_step-stored =
      let nz = power-ne_zero p in_range in
      let no_one = power-ne_one p in
      let no_log = holds.log_other (power p - 1) fresh in
      let no_exp = holds.exp_above p (omega arith) in ground (arith, nz, no_one, no_log, no_exp)

  stored-HoldsPowers : HoldsPowers (suc p) stored
  stored-HoldsPowers = record {
    exp_below = λ i l. ground (arith, holds.exp_below i);
    exp_above = λ i l. ground (arith, holds.exp_above i);
    log_power = λ i l. ground (
      arith,
      holds.log_power i,
      power-injective i p,
      power-ne_zero i (omega arith),
      power-ne_zero p in_range,
    );
    log_other = λ j other. ground (
      arith,
      other p,
      power-ne_zero p in_range,
      holds.log_other j (λ i l. other i (omega arith)),
    );
  }

init_loop-HoldsPowers :
    (rounds p : ℕ) (tables : Tables)
    → rounds + p ≡ order - 1
    → HoldsPowers p tables
    → (t : Tables) × (init_loop rounds p (power p) tables ≡ ok t) × HoldsPowers (order - 1) t
unfolding init_loop
init_loop-HoldsPowers zero p tables e holds =
    let e' : p ≡ order - 1 = omega arith in (tables, refl, rw (← e') holds)
init_loop-HoldsPowers (suc rounds) p tables e holds =
    rw (init_step-stored p tables (omega arith) holds, ← power-suc p)
      (init_loop-HoldsPowers rounds (suc p) (stored p tables (omega arith) holds) (omega arith)
        (stored-HoldsPowers p tables (omega arith) holds))

zeroed-HoldsPowers : HoldsPowers 0 zeroed
zeroed-HoldsPowers = record {
  exp_below = λ i l. absurd (omega arith);
  exp_above = λ i l. refl;
  log_power = λ i l. absurd (omega arith);
  log_other = λ j other. refl;
}

-- `init` runs all its rounds without a panic, and leaves the exp table with the powers of the
-- generator and the log table with their exponents.
pub init_tables-HoldsPowers : (t : Tables) × (init_tables ≡ ok t) × HoldsPowers (order - 1) t
unfolding init_tables
init_tables-HoldsPowers =
    let (t, run, holds) = init_loop-HoldsPowers 65535 0 zeroed (omega arith) zeroed-HoldsPowers in
    (t, ap (λ (x : ℕ). init_loop 65535 0 x zeroed) (sym power_zero) ∙ run, holds)
