-- ===== src/Base/Pigeonhole.antt =====
-- An injection of a finite range into itself meets every value.
use Prim.Native.Nat.{ℕ, zero, suc, ◌-◌, ◌<◌}
use mathlib.Core.Path.{◌≡◌}
use mathlib.Core.Logic.{◌≢◌, ◌⊎◌, inl, inr}
use native.Mathlib.Decide.{ℕ_discrete, dec_lt}
use native.Mathlib.Omega.{arith}
use par2engine.Base.Tests.{ltb, if◌then◌else◌}

find_below : (f : ℕ → ℕ) (y n : ℕ) → ((i : ℕ) × (i < n) × (f i ≡ y)) ⊎ ((i : ℕ) → i < n → f i ≢ y)
find_below f y zero = inr (λ i h. absurd (omega arith))
find_below f y (suc n) = elim (ℕ_discrete (f n) y) [
  | yes e ↦ inl (n, omega arith, e)
  | no ne ↦ elim (find_below f y n) [
    | inl (i, h, e) ↦ inl (i, omega arith, e)
    | inr none_below ↦ inr λ i h. elim (dec_lt i n) [
      | yes l ↦ none_below i l
      | no l ↦ let e : i ≡ n = omega arith in rw e ne
    ]
  ]
]

-- Closes the gap that a missed value leaves.
squash : ℕ → ℕ → ℕ
squash y z = if ltb z y then z else z - 1

squash-lt : (y z n : ℕ) → z < suc n → y < suc n → z ≢ y → squash y z < n
unfolding squash
squash-lt y z n h k ne = ground arith

squash_inj : (y z w : ℕ) → z ≢ y → w ≢ y → squash y z ≡ squash y w → z ≡ w
unfolding squash
squash_inj y z w p q e = ground arith

pub pigeonhole :
    (n : ℕ) (f : ℕ → ℕ)
    → ((i : ℕ) → i < n → f i < n)
    → ((i j : ℕ) → i < n → j < n → f i ≡ f j → i ≡ j)
    → (y : ℕ) → y < n
    → (i : ℕ) × (i < n) × (f i ≡ y)
pigeonhole zero f into inj y h = absurd (omega arith)
pigeonhole (suc n) f into inj y h = elim (find_below f y (suc n)) [
  | inl found ↦ found
  | inr missed ↦
      let (i, l, e) =
        pigeonhole n (λ i. squash y (f i))
          (λ i l. squash-lt y (f i) n (into i (omega arith)) h (missed i (omega arith)))
          (λ i j l m e.
            inj i j (omega arith) (omega arith)
              (squash_inj y (f i) (f j) (missed i (omega arith)) (missed j (omega arith)) e))
          (squash y (f n))
          (squash-lt y (f n) n (into n (omega arith)) h (missed n (omega arith))) in
      let same : i ≡ n =
        inj i n (omega arith) (omega arith)
          (squash_inj y (f i) (f n) (missed i (omega arith)) (missed n (omega arith)) e) in
      absurd (omega arith)
]
