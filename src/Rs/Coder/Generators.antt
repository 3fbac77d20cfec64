-- ===== src/Rs/Coder/Generators.antt =====
-- The generators of the PAR2 specification: the powers of 2 whose exponents have no factor in common
-- with 65535.
use par2engine.Base.{
  ℕ, zero, suc, ◌+◌, ◌%◌, ◌≤◌, ◌<◌, ◌==◌, ◌||◌, Bool, Bool-cases, inl, inr, true, false, ◌≡◌, ◌≢◌,
  ◌⊎◌, refl, subst, ap₂, arith, List, [], ◌∷◌, map, if_elim,
}
use par2engine.Gf16.Field.{FieldOps, IsFieldOps}
use par2engine.Gf16.Tables.Ops.{repeated}
use par2engine.Rs.Coder.{generators_from}

-- No factor in common with 65535 = 3 * 5 * 17 * 257.
abbrev pub IsCoprime : ℕ → Type 0
IsCoprime e = (e % 3 ≢ 0) × (e % 5 ≢ 0) × (e % 17 ≢ 0) × (e % 257 ≢ 0)

-- The items are coprime exponents from `i` on and below `n`, in ascending order.
abbrev pub AllExponents : ℕ → ℕ → List ℕ → Type 0
AllExponents n i [] = Unit
AllExponents n i (e ∷ es) = (i ≤ e) × (e < n) × IsCoprime e × AllExponents n (suc e) es

abbrev pub Has : ℕ → List ℕ → Type 0
Has e [] = ⊥
Has e (x ∷ xs) = (e ≡ x) ⊎ Has e xs

-- The powers of 2 with all coprime exponents from `i` on and below `n`, in ascending order.
pub record IsGenerators (n i : ℕ) (gs : List ℕ) : Type 0 where
  pub exponents : List ℕ
  pub powers : gs ≡ map (repeated 2) exponents
  pub ascending : AllExponents n i exponents
  pub complete : (e : ℕ) → i ≤ e → e < n → IsCoprime e → Has e exponents

earlier : (n i : ℕ) (es : List ℕ) → AllExponents n (suc i) es → AllExponents n i es
earlier n i [] h = tt
earlier n i (e ∷ es) h = (omega (arith, h.0), h.1, h.2, h.3)

abbrev skipped : ℕ → Bool
skipped i = i % 3 == 0 || i % 5 == 0 || i % 17 == 0 || i % 257 == 0

not_coprime : (i : ℕ) → skipped i ≡ true → IsCoprime i → ⊥
not_coprime i h k = ground (arith, k.0, k.1, k.2, k.3)

coprime : (i : ℕ) → skipped i ≡ false → IsCoprime i
coprime i h = ground arith

module _ (f : FieldOps) (laws : IsFieldOps f) where
  pub generators_lem :
      (rounds n i : ℕ) → rounds + i ≡ n → IsGenerators n i (generators_from f rounds i)
  unfolding generators_from
  generators_lem zero n i h = record {
    exponents = [];
    powers = refl;
    ascending = tt;
    complete = λ e a b c. omega arith;
  }
  generators_lem (suc rounds) n i h =
      let rest = generators_lem rounds n (suc i) (omega arith) in
      if_elim (IsGenerators n i) (skipped i)
        (λ skip. record {
          exponents = rest.exponents;
          powers = rest.powers;
          ascending = earlier n i rest.exponents rest.ascending;
          complete = λ e a b c.
              rest.complete e (above e a (λ same. not_coprime i skip (subst IsCoprime same c))) b c;
        })
        (λ keep. record {
          exponents = i ∷ rest.exponents;
          powers = ap₂ ◌∷◌ (laws.power_of_lem 2 i (omega arith)) rest.powers;
          ascending = (omega arith, omega arith, coprime i keep, rest.ascending);
          complete = λ e a b c. elim (Bool-cases (e == i)) [
            | inl same ↦ inl (ground (arith, same))
            | inr other ↦ inr (rest.complete e (ground (arith, other, a)) b c)
          ];
        })
    where
      above : (e : ℕ) → i ≤ e → (e ≡ i → ⊥) → suc i ≤ e
      above e a ne = omega (arith, ne)
