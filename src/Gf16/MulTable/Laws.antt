-- ===== src/Gf16/MulTable/Laws.antt =====
-- The table of a coefficient holds its products with the low and the high byte of an element.
use Prim.Native.Nat.{bit_xor}
use native.Mathlib.Nat.{pow-suc, one-le-pow, pow-le-pow_right, zero-add}
use par2engine.Base.{
  ℕ, zero, suc, ◌+◌, ◌-◌, ◌*◌, ◌^◌, ◌≤◌, ◌<◌, true, ◌≡◌, refl, sym, ap, ap₂, ◌∙◌, arith, Bool-cases,
  inl, inr, ltb, lt→ltb, ltb→lt, if◌then◌else◌,
}
use par2engine.Bits.{xor_comm, pow-xor, shifted-xor}
use par2engine.Gf16.Poly.{order, mult_by_two, shift_reduce, times_poly}
use par2engine.Gf16.Poly.Double.{mult_by_two-eq-shift_reduce, shift_reduce_low}
use par2engine.Gf16.Poly.Laws.{
  times_poly-lt, times_poly-xor, times_poly-zero, times_poly-one, times_poly-shift_reduce,
  times_poly_assoc, times_poly_comm,
}
use par2engine.Gf16.MulTable.{Half, store, fill, double_loop, calc_half, calc_table}

-- The inner loop copies the entries below `j`, with `coeff` added, to those from `j` on.
fill_lem :
    (rounds k j coeff : ℕ) (table : ℕ → ℕ)
    → rounds + k ≡ j
    → (i : ℕ)
    → fill rounds k j coeff table i ≡ (
        if ltb i (k + j)
        then table i
        else if ltb i (j + j)
        then bit_xor (table (i - j)) coeff
        else table i)
unfolding fill
fill_lem zero k j coeff table e i = ground arith
fill_lem (suc rounds) k j coeff table e i = ground (
  arith,
  fill_lem rounds (suc k) j coeff (store table (k + j) (bit_xor (table k) coeff)) (omega arith) i,
)

pow-lt : (b k : ℕ) → b < k → 2 ^ b < 2 ^ k
pow-lt b k h = omega (
  arith,
  pow-suc 2 b,
  one-le-pow b 2 (omega arith),
  pow-le-pow_right {n = 2} (omega arith) {i = suc b} {j = k} h,
)

below_product : (i p : ℕ) → 1 ≤ p → i * p < order → i < order
below_product i p h l = grind arith

-- A power of two below the word's width shifts.
times_poly-pow : (b i : ℕ) → i * 2 ^ b < order → b < 16 → times_poly i (2 ^ b) ≡ i * 2 ^ b
times_poly-pow zero i h l = times_poly-one i (omega arith) ∙ omega arith
times_poly-pow (suc b) i h l =
    let i_small : i < order = below_product i (2 ^ suc b) (one-le-pow (suc b) 2 (omega arith)) h in
    let small : i * 2 ^ b < 2 ^ 15 = omega (arith, h, ap (λ (t : ℕ). i * t) (pow-suc 2 b)) in
    let pow_lt : 2 ^ b < 2 ^ 15 = pow-lt b 15 (omega arith) in
    ap (times_poly i) (pow-suc 2 b ∙ sym (shift_reduce_low (2 ^ b) pow_lt))
    ∙ times_poly-shift_reduce i (2 ^ b) i_small (omega arith)
    ∙ ap shift_reduce (times_poly-pow b i (omega arith) (omega arith))
    ∙ shift_reduce_low (i * 2 ^ b) small
    ∙ omega (arith, ap (λ (t : ℕ). i * t) (pow-suc 2 b))

-- What the outer loop has done when it starts a round: entries below `2 ^ b` are products.
record HoldsProducts (c b : ℕ) (s : Half) : Type 0 where
  pub bound : s.j ≡ 2 ^ b
  pub coeff : s.coeff ≡ times_poly c (2 ^ b)
  pub entry : (i : ℕ) → i < s.j → s.table i ≡ times_poly c i

abbrev round : Half → Half
round s = record {
  j = s.j * 2;
  coeff = mult_by_two s.coeff;
  table = fill s.j 0 s.j s.coeff s.table;
}

module _ (c : ℕ) (small : c < order) where
  upper :
      (b : ℕ) (s : Half)
      → HoldsProducts c b s
      → (i : ℕ) → s.j ≤ i
      → i < s.j + s.j
      → bit_xor (s.table (i - s.j)) s.coeff ≡ times_poly c i
  upper b s holds i h l =
      let r = i - s.j in
      ap₂ bit_xor (holds.entry r (omega arith)) holds.coeff
      ∙ sym (times_poly-xor c r (2 ^ b) small)
      ∙ ap (times_poly c) (
          xor_comm r (2 ^ b)
          ∙ pow-xor b r (omega (arith, holds.bound))
          ∙ omega (arith, holds.bound))

  round-HoldsProducts :
      (b : ℕ) (s : Half) → b < 8 → HoldsProducts c b s → HoldsProducts c (suc b) (round s)
  round-HoldsProducts b s l holds = record {
    bound = omega (arith, holds.bound, pow-suc 2 b);
    coeff =
        let coeff_lt = times_poly-lt c (2 ^ b) small in
        let pow_lt = pow-lt b 15 (omega arith) in
        ap mult_by_two holds.coeff
        ∙ mult_by_two-eq-shift_reduce _ coeff_lt
        ∙ sym (times_poly-shift_reduce c (2 ^ b) small (omega arith))
        ∙ ap (times_poly c) (shift_reduce_low (2 ^ b) pow_lt ∙ sym (pow-suc 2 b));
    entry = λ i h.
        fill_lem s.j 0 s.j s.coeff s.table (omega arith) i ∙ elim (Bool-cases (ltb i s.j)) [
          | inl below ↦ rw (zero-add s.j, below) (holds.entry i (ltb→lt i s.j below))
          | inr above ↦
              let l' : s.j ≤ i = ground arith in
              let l'' : ltb i (s.j + s.j) ≡ true = lt→ltb _ _ (omega arith) in
              rw (zero-add s.j, above, l'') (upper b s holds i l' (omega arith))
        ];
  }

  double_loop-HoldsProducts :
      (fuel b : ℕ) (s : Half)
      → fuel + b ≡ 8
      → HoldsProducts c b s
      → HoldsProducts c 8 (double_loop fuel s)
  unfolding double_loop
  double_loop-HoldsProducts zero b s e holds = let e' : b ≡ 8 = omega arith in rw (← e') holds
  double_loop-HoldsProducts (suc fuel) b s e holds =
      let below : ltb s.j 256 ≡ true =
        lt→ltb s.j 256 (omega (arith, holds.bound, pow-lt b 8 (omega arith))) in
      rw below (
        double_loop-HoldsProducts fuel (suc b) (round s) (omega arith)
          (round-HoldsProducts b s (omega arith) holds))

  calc_half-HoldsProducts : HoldsProducts c 8 (calc_half c)
  unfolding calc_half
  calc_half-HoldsProducts = double_loop-HoldsProducts 8 0 _ (omega arith) (record {
    bound = refl;
    coeff = sym (times_poly-one c small);
    entry = λ i h. let z : i ≡ 0 = omega arith in rw z (sym (times_poly-zero c));
  })

-- In the table that `calcTable` fills for an element, the entry of `s0` at a low byte, with the
-- entry of `s8` at a high byte added, is the product with the element that the two bytes spell.
pub calc_table_lem :
    (c lo hi : ℕ)
    → c < order
    → lo < 256
    → hi < 256
    → bit_xor ((calc_table c).s0 lo) ((calc_table c).s8 hi) ≡ times_poly c (lo + hi * 256)
unfolding calc_table
calc_table_lem c lo hi small h k =
    let low = calc_half-HoldsProducts c small in
    let c' = (calc_half c).coeff in
    let high = calc_half-HoldsProducts c' (rw low.coeff (times_poly-lt c 256 small)) in
    ap₂ bit_xor (low.entry lo (rw low.bound h)) (
      high.entry hi (rw high.bound k)
      ∙ ap (λ (t : ℕ). times_poly t hi) low.coeff
      ∙ times_poly_assoc c 256 hi small (omega arith) (omega arith)
      ∙ ap (times_poly c) (
          times_poly_comm 256 hi (omega arith) (omega arith)
          ∙ times_poly-pow 8 hi (omega arith) (omega arith)))
    ∙ sym (times_poly-xor c lo (hi * 256) small)
    ∙ ap (times_poly c) (xor_comm lo (hi * 256) ∙ shifted-xor 8 hi lo h ∙ omega arith)
