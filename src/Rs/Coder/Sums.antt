-- ===== src/Rs/Coder/Sums.antt =====
-- Sums of products over the field: lists of elements, and the exchange of two sums.
use Prim.Native.Nat.{bit_xor}
use par2engine.Base.{
  ℕ, zero, suc, ◌-◌, ◌≤◌, ◌<◌, ◌==◌, ◌≡◌, refl, sym, ap, ap₂, ◌∙◌, arith, List, [], ◌∷◌, ◌++◌,
  length, get_or, false, Bool-cases, inl, inr,
}
use par2engine.Bits.{bit_xor-zero, zero-bit_xor, xor_assoc, xor_comm}
use par2engine.Gf16.Poly.{order, times_poly}
use par2engine.Gf16.Poly.Laws.{
  times_poly-lt, xor-times_poly, times_poly_assoc, times_poly-zero, zero-times_poly, one-times_poly,
}
use par2engine.Rs.Matrix.Dot.{dot, Below, dot-lt, xor-dot}
use par2engine.Rs.Coder.{unit_part}

-- A sum of products by a column on the right.
dot-times_right :
    (n c : ℕ) (a r : ℕ → ℕ)
    → Below n a
    → ((j : ℕ) → r j < order)
    → c < order
    → dot n a (λ j. times_poly (r j) c) ≡ times_poly (dot n a r) c
unfolding dot
dot-times_right zero c a r h k l = sym (zero-times_poly c)
dot-times_right (suc n) c a r h k l =
    ap₂ bit_xor (dot-times_right n c a r (λ j t. h j (omega arith)) k l)
      (sym (times_poly_assoc (a n) (r n) c (h n (omega arith)) (k n) l))
    ∙ sym (
        xor-times_poly (dot n a r) (times_poly (a n) (r n)) c
          (dot-lt n a r (λ j t. h j (omega arith))) (times_poly-lt (a n) (r n) (h n (omega arith))))

dot-zero : (n : ℕ) (a : ℕ → ℕ) → dot n a (λ j. 0) ≡ 0
unfolding dot
dot-zero zero a = refl
dot-zero (suc n) a = ap₂ bit_xor (dot-zero n a) (times_poly-zero (a n))

-- Two sums exchanged.
pub dot-dot :
    (n d : ℕ) (a : ℕ → ℕ) (r : ℕ → ℕ → ℕ) (x : ℕ → ℕ)
    → Below n a
    → ((j c : ℕ) → r j c < order)
    → ((c : ℕ) → x c < order)
    → dot n a (λ j. dot d (r j) x) ≡ dot d (λ c. dot n a (λ j. r j c)) x
unfolding dot
dot-dot n zero a r x h k l = dot-zero n a
dot-dot n (suc d) a r x h k l =
    xor-dot n a (λ j. dot d (r j) x) (λ j. times_poly (r j d) (x d)) h
    ∙ ap₂ bit_xor (dot-dot n d a r x h k l)
        (dot-times_right n (x d) a (λ j. r j d) h (λ j. k j d) (l d))

-- The first term of a sum.
pub dot-first :
    (n : ℕ) (a x : ℕ → ℕ)
    → dot (suc n) a x ≡ bit_xor (times_poly (a 0) (x 0)) (dot n (λ j. a (suc j)) (λ j. x (suc j)))
unfolding dot
dot-first zero a x = xor_comm 0 (times_poly (a 0) (x 0))
dot-first (suc n) a x =
    ap (λ (t : ℕ). bit_xor t (times_poly (a (suc n)) (x (suc n)))) (dot-first n a x)
    ∙ xor_assoc (times_poly (a 0) (x 0)) (dot n (λ j. a (suc j)) (λ j. x (suc j)))
        (times_poly (a (suc n)) (x (suc n)))

-- The sum of the products of two lists, item by item.
unfoldable pub sum : List ℕ → List ℕ → ℕ
sum [] xs = 0
sum (a ∷ ts) [] = 0
sum (a ∷ ts) (x ∷ xs) = bit_xor (times_poly a x) (sum ts xs)

pub dot-sum :
    (ts xs : List ℕ)
    → length ts ≡ length xs
    → dot (length xs) (λ j. get_or ts j 0) (λ j. get_or xs j 0) ≡ sum ts xs
unfolding sum dot
dot-sum [] [] h = refl
dot-sum [] (x ∷ xs) h = absurd (omega arith)
dot-sum (a ∷ ts) [] h = absurd (omega arith)
dot-sum (a ∷ ts) (x ∷ xs) h =
    dot-first (length xs) (λ j. get_or (a ∷ ts) j 0) (λ j. get_or (x ∷ xs) j 0)
    ∙ ap (bit_xor (times_poly a x)) (dot-sum ts xs (omega arith))

pub sum-append :
    (ts bs xs ys : List ℕ)
    → length ts ≡ length xs
    → sum (ts ++ bs) (xs ++ ys) ≡ bit_xor (sum ts xs) (sum bs ys)
unfolding sum
sum-append [] bs [] ys h = sym (zero-bit_xor (sum bs ys))
sum-append [] bs (x ∷ xs) ys h = absurd (omega arith)
sum-append (a ∷ ts) bs [] ys h = absurd (omega arith)
sum-append (a ∷ ts) bs (x ∷ xs) ys h =
    ap (bit_xor (times_poly a x)) (sum-append ts bs xs ys (omega arith))
    ∙ sym (xor_assoc (times_poly a x) (sum ts xs) (sum bs ys))

unit_behind : (i j : ℕ) (ys : List ℕ) → i < j → sum (unit_part (length ys) i j) ys ≡ 0
unfolding sum unit_part
unit_behind i j [] h = refl
unit_behind i j (y ∷ ys) h =
    let other : (i == j) ≡ false = ground arith in
    rw (other, zero-times_poly y, unit_behind i (suc j) ys (omega arith)) refl

-- The unit part of a row picks one item.
pub sum-unit_part :
    (i j : ℕ) (ys : List ℕ)
    → ((k : ℕ) → get_or ys k 0 < order)
    → j ≤ i
    → sum (unit_part (length ys) i j) ys ≡ get_or ys (i - j) 0
unfolding sum unit_part
sum-unit_part i j [] h k = refl
sum-unit_part i j (y ∷ ys) h k = elim (Bool-cases (i == j)) [
  | inl same ↦
      let e : i - j ≡ 0 = ground arith in
      rw (same, one-times_poly y (h 0), unit_behind i (suc j) ys (ground arith), e) (bit_xor-zero y)
  | inr other ↦
      let e : i - j ≡ suc (i - suc j) = ground arith in
      rw (other, zero-times_poly y, e)
        (zero-bit_xor (sum (unit_part (length ys) i (suc j)) ys)
          ∙ sum-unit_part i (suc j) ys (λ l. h (suc l)) (ground arith))
]
