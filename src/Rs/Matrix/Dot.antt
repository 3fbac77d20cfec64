-- ===== src/Rs/Matrix/Dot.antt =====
-- The product of a row and a column over the field.
use Prim.Native.Nat.{bit_xor}
use par2engine.Base.{
  ℕ, zero, suc, ◌<◌, ◌==◌, if◌then◌else◌, ◌≡◌, refl, sym, ap, ap₂, ◌∙◌, arith, Bool-cases, inl, inr,
  false, ◌≢◌, ==_iff,
}
use par2engine.Bits.{xor_swap, xor-lt, zero-bit_xor, bit_xor-zero}
use par2engine.Gf16.Poly.{order, times_poly}
use par2engine.Gf16.Poly.Laws.{
  times_poly-lt, times_poly-xor, xor-times_poly, times_poly_assoc, times_poly-zero, zero-times_poly,
  one-times_poly,
}

unfoldable pub dot : ℕ → (ℕ → ℕ) → (ℕ → ℕ) → ℕ
dot zero a x = 0
dot (suc n) a x = bit_xor (dot n a x) (times_poly (a n) (x n))

-- Elements of the field at the first `n` places.
abbrev pub Below : ℕ → (ℕ → ℕ) → Type 0
Below n a = (j : ℕ) → j < n → a j < order

pub dot_congr :
    (n : ℕ) (a b x y : ℕ → ℕ)
    → ((j : ℕ) → j < n → a j ≡ b j)
    → ((j : ℕ) → j < n → x j ≡ y j)
    → dot n a x ≡ dot n b y
unfolding dot
dot_congr zero a b x y h k = refl
dot_congr (suc n) a b x y h k =
    ap₂ bit_xor (dot_congr n a b x y (λ j l. h j (omega arith)) (λ j l. k j (omega arith)))
      (ap₂ times_poly (h n (omega arith)) (k n (omega arith)))

pub dot-lt : (n : ℕ) (a x : ℕ → ℕ) → Below n a → dot n a x < order
unfolding dot
dot-lt zero a x h = omega arith
dot-lt (suc n) a x h =
    xor-lt 16 _ _ (dot-lt n a x (λ j l. h j (omega arith)))
      (times_poly-lt (a n) (x n) (h n (omega arith)))

pub dot-xor :
    (n : ℕ) (a b x : ℕ → ℕ)
    → Below n a
    → Below n b
    → dot n (λ j. bit_xor (a j) (b j)) x ≡ bit_xor (dot n a x) (dot n b x)
unfolding dot
dot-xor zero a b x h k = refl
dot-xor (suc n) a b x h k =
    ap₂ bit_xor (dot-xor n a b x (λ j l. h j (omega arith)) (λ j l. k j (omega arith)))
      (xor-times_poly (a n) (b n) (x n) (h n (omega arith)) (k n (omega arith)))
    ∙ xor_swap (dot n a x) (dot n b x) (times_poly (a n) (x n)) (times_poly (b n) (x n))

pub xor-dot :
    (n : ℕ) (a x y : ℕ → ℕ)
    → Below n a
    → dot n a (λ j. bit_xor (x j) (y j)) ≡ bit_xor (dot n a x) (dot n a y)
unfolding dot
xor-dot zero a x y h = refl
xor-dot (suc n) a x y h =
    ap₂ bit_xor (xor-dot n a x y (λ j l. h j (omega arith)))
      (times_poly-xor (a n) (x n) (y n) (h n (omega arith)))
    ∙ xor_swap (dot n a x) (dot n a y) (times_poly (a n) (x n)) (times_poly (a n) (y n))

pub dot-times_poly :
    (n c : ℕ) (a x : ℕ → ℕ)
    → c < order
    → Below n a
    → Below n x
    → dot n (λ j. times_poly c (a j)) x ≡ times_poly c (dot n a x)
unfolding dot
dot-times_poly zero c a x small h k = sym (times_poly-zero c)
dot-times_poly (suc n) c a x small h k =
    ap₂ bit_xor (dot-times_poly n c a x small (λ j l. h j (omega arith)) (λ j l. k j (omega arith)))
      (times_poly_assoc c (a n) (x n) small (h n (omega arith)) (k n (omega arith)))
    ∙ sym (times_poly-xor c (dot n a x) (times_poly (a n) (x n)) small)

-- The row of a unit matrix.
abbrev pub unit_row : ℕ → ℕ → ℕ
unit_row i j = if j == i then 1 else 0

dot-unit_behind : (n i : ℕ) (x : ℕ → ℕ) → ((j : ℕ) → j < n → j ≢ i) → dot n (unit_row i) x ≡ 0
unfolding dot
dot-unit_behind zero i x h = refl
dot-unit_behind (suc n) i x h =
    let other : (n == i) ≡ false = ground (arith, h n (omega arith)) in
    rw (other, zero-times_poly (x n), dot-unit_behind n i x (λ j l. h j (omega arith))) refl

pub dot-unit_row : (n i : ℕ) (x : ℕ → ℕ) → i < n → Below n x → dot n (unit_row i) x ≡ x i
unfolding dot
dot-unit_row zero i x h k = absurd (omega arith)
dot-unit_row (suc n) i x h k = elim (Bool-cases (n == i)) [
  | inl same ↦
      let e = (==_iff n i).0 same in
      rw
        (
          same,
          one-times_poly (x n) (k n (omega arith)),
          dot-unit_behind n i x (λ j l. ne j (omega arith)),
        )
        (zero-bit_xor (x n) ∙ ap x e)
  | inr other ↦
      rw (other, zero-times_poly (x n))
        (bit_xor-zero (dot n (unit_row i) x)
          ∙ dot-unit_row n i x (ground arith) (λ j l. k j (omega arith)))
]
  where
    ne : (j : ℕ) → j < i → j ≢ i
    ne j h e = omega arith
