-- ===== src/Bits.antt =====
-- `bit_xor` at variables: the laws that make the 16-bit words a vector space over bits. The native
-- operation means a recursion on binary digits, so each law is an induction on those.
use Prim.Native.Nat.{bit_xor, digits, differ, bit_xor-bitwise}
use native.Mathlib.Nat.{pow-suc, div-div-eq-div-mul, mul_comm, div-one}
use par2engine.Base.{
  ℕ, zero, suc, ◌+◌, ◌*◌, ◌/◌, ◌%◌, ◌^◌, ◌≤◌, ◌<◌, ◌≡◌, refl, sym, ap, ◌∙◌, arith,
}

abbrev xor_digits : ℕ → ℕ → ℕ → ℕ
xor_digits n a b = digits (λ b. b) differ n a b

xor_digits_fuel : (n m a b : ℕ) → a ≤ n → a ≤ m → xor_digits n a b ≡ xor_digits m a b
xor_digits_fuel zero zero a b p q = refl
xor_digits_fuel zero (suc m) zero b p q = refl
xor_digits_fuel zero (suc m) (suc a) b p q = absurd (omega arith)
xor_digits_fuel (suc n) zero zero b p q = refl
xor_digits_fuel (suc n) zero (suc a) b p q = absurd (omega arith)
xor_digits_fuel (suc n) (suc m) zero b p q = refl
xor_digits_fuel (suc n) (suc m) (suc a) b p q =
    omega (arith, xor_digits_fuel n m (suc a / 2) (b / 2) (omega arith) (omega arith))

pub zero-bit_xor : (b : ℕ) → bit_xor 0 b ≡ b
zero-bit_xor b = bit_xor-bitwise 0 b

-- One equation for the lowest digit.
differ-eq-add : (x y : ℕ) → x < 2 → y < 2 → differ x y ≡ (x + y) % 2
differ-eq-add zero zero h k = refl
differ-eq-add zero (suc zero) h k = refl
differ-eq-add zero (suc (suc y)) h k = absurd (omega arith)
differ-eq-add (suc zero) zero h k = refl
differ-eq-add (suc zero) (suc zero) h k = refl
differ-eq-add (suc zero) (suc (suc y)) h k = absurd (omega arith)
differ-eq-add (suc (suc x)) y h k = absurd (omega arith)

pub xor_step : (a b : ℕ) → bit_xor a b ≡ bit_xor (a / 2) (b / 2) * 2 + (a + b) % 2
xor_step zero b = omega (arith, zero-bit_xor b, zero-bit_xor (b / 2))
xor_step (suc a) b = omega (
  arith,
  bit_xor-bitwise (suc a) b,
  bit_xor-bitwise (suc a / 2) (b / 2),
  xor_digits_fuel a (suc a / 2) (suc a / 2) (b / 2) (omega arith) (omega arith),
  differ-eq-add (suc a % 2) (b % 2) (omega arith) (omega arith),
)

pub xor-div : (a b : ℕ) → bit_xor a b / 2 ≡ bit_xor (a / 2) (b / 2)
xor-div a b = omega (arith, xor_step a b)

pub xor-mod : (a b : ℕ) → bit_xor a b % 2 ≡ (a + b) % 2
xor-mod a b = omega (arith, xor_step a b)

xor_comm_fuel : (n a b : ℕ) → a + b ≤ n → bit_xor a b ≡ bit_xor b a
xor_comm_fuel zero zero zero h = refl
xor_comm_fuel zero zero (suc b) h = absurd (omega arith)
xor_comm_fuel zero (suc a) b h = absurd (omega arith)
xor_comm_fuel (suc n) zero zero h = refl
xor_comm_fuel (suc n) zero (suc b) h =
    omega
      (arith, xor_step 0 (suc b), xor_step (suc b) 0, xor_comm_fuel n 0 (suc b / 2) (omega arith))
xor_comm_fuel (suc n) (suc a) b h = omega (
  arith,
  xor_step (suc a) b,
  xor_step b (suc a),
  xor_comm_fuel n (suc a / 2) (b / 2) (omega arith),
)

pub xor_comm : (a b : ℕ) → bit_xor a b ≡ bit_xor b a
xor_comm a b = xor_comm_fuel (a + b) a b (omega arith)

pub bit_xor-zero : (a : ℕ) → bit_xor a 0 ≡ a
bit_xor-zero a = omega (arith, xor_comm a 0, zero-bit_xor a)

xor_self_fuel : (n a : ℕ) → a ≤ n → bit_xor a a ≡ 0
xor_self_fuel n zero h = refl
xor_self_fuel zero (suc a) h = absurd (omega arith)
xor_self_fuel (suc n) (suc a) h =
    omega (arith, xor_step (suc a) (suc a), xor_self_fuel n (suc a / 2) (omega arith))

pub xor_self : (a : ℕ) → bit_xor a a ≡ 0
xor_self a = xor_self_fuel a a (omega arith)

xor_assoc_fuel : (n a b c : ℕ) → a ≤ n → bit_xor (bit_xor a b) c ≡ bit_xor a (bit_xor b c)
xor_assoc_fuel n zero b c h = omega (arith, zero-bit_xor b, zero-bit_xor (bit_xor b c), congr)
  where
    congr : bit_xor (bit_xor 0 b) c ≡ bit_xor b c
    congr = rw zero-bit_xor
xor_assoc_fuel zero (suc a) b c h = absurd (omega arith)
xor_assoc_fuel (suc n) (suc a) b c h =
    rw (xor_step (bit_xor (suc a) b) c, xor_step (suc a) (bit_xor b c), xor-div, xor-div)
      (omega (
        arith,
        xor_assoc_fuel n (suc a / 2) (b / 2) (c / 2) (omega arith),
        xor-mod (suc a) b,
        xor-mod b c,
      ))

pub xor_assoc : (a b c : ℕ) → bit_xor (bit_xor a b) c ≡ bit_xor a (bit_xor b c)
xor_assoc a b c = xor_assoc_fuel a a b c (omega arith)

pub xor_double : (a b : ℕ) → bit_xor (a * 2) (b * 2) ≡ bit_xor a b * 2
xor_double a b = rw (xor_step (a * 2) (b * 2), half a, half b) (omega arith)
  where
    half : (x : ℕ) → x * 2 / 2 ≡ x
    half x = omega arith

-- `(a ^ b) ^ (c ^ d)`, with the middle two swapped.
pub xor_swap :
    (a b c d : ℕ) → bit_xor (bit_xor a b) (bit_xor c d) ≡ bit_xor (bit_xor a c) (bit_xor b d)
xor_swap a b c d =
    rw (xor_assoc a b (bit_xor c d), ← xor_assoc b c d, xor_comm b c, xor_assoc c b d)
      (sym (xor_assoc a c (bit_xor b d)))

pub xor_cancel : (a b : ℕ) → bit_xor (bit_xor a b) b ≡ a
xor_cancel a b = rw (xor_assoc, xor_self, bit_xor-zero)

-- The words of `k` bits are closed under `^`.
pub xor-lt : (k a b : ℕ) → a < 2 ^ k → b < 2 ^ k → bit_xor a b < 2 ^ k
xor-lt zero zero zero h p = omega arith
xor-lt zero zero (suc b) h p = absurd (omega arith)
xor-lt zero (suc a) b h p = absurd (omega arith)
xor-lt (suc k) a b h p = omega (
  arith,
  pow-suc 2 k,
  xor_step a b,
  xor-lt k (a / 2) (b / 2) (omega (arith, pow-suc 2 k)) (omega (arith, pow-suc 2 k)),
)

-- `>> k` of words is linear.
pub xor-div_pow : (k a b : ℕ) → bit_xor a b / 2 ^ k ≡ bit_xor (a / 2 ^ k) (b / 2 ^ k)
xor-div_pow zero a b = rw (div-one, div-one, div-one)
xor-div_pow (suc k) a b = rw (split a, split b, split (bit_xor a b), xor-div, xor-div_pow k)
  where
    split : (n : ℕ) → n / 2 ^ suc k ≡ n / 2 / 2 ^ k
    split n = omega (arith, div-div-eq-div-mul n 2 (2 ^ k), pow-suc 2 k, mul_comm (2 ^ k) 2, congr)
      where
        congr : n / 2 ^ suc k ≡ n / (2 * 2 ^ k)
        congr = rw (pow-suc, mul_comm (2 ^ k) 2)

-- A bit above the others is added by `^`.
pub pow-xor : (k r : ℕ) → r < 2 ^ k → bit_xor (2 ^ k) r ≡ 2 ^ k + r
pow-xor zero zero h = refl
pow-xor zero (suc r) h = absurd (omega arith)
pow-xor (suc k) r h = omega (
  arith,
  pow-suc 2 k,
  xor_step (2 ^ suc k) r,
  pow-xor k (r / 2) (omega (arith, pow-suc 2 k)),
  congr,
)
  where
    congr : bit_xor (2 ^ suc k / 2) (r / 2) ≡ bit_xor (2 ^ k) (r / 2)
    congr = ap (λ (t : ℕ). bit_xor t (r / 2)) (omega (arith, pow-suc 2 k))

-- The lowest bit of a word is added by `^` to the rest.
pub double-xor-bit : (q r : ℕ) → r < 2 → bit_xor (q * 2) r ≡ q * 2 + r
double-xor-bit q r h = rw (xor_step (q * 2) r, high, low, bit_xor-zero) (omega arith)
  where
    high : q * 2 / 2 ≡ q
    high = omega arith

    low : r / 2 ≡ 0
    low = omega arith

-- `(q << k) ^ r` is a sum when `r` fits `k` bits.
pub shifted-xor : (k q r : ℕ) → r < 2 ^ k → bit_xor (q * 2 ^ k) r ≡ q * 2 ^ k + r
shifted-xor zero q zero h = bit_xor-zero (q * 1) ∙ omega arith
shifted-xor zero q (suc r) h = absurd (omega arith)
shifted-xor (suc k) q r h = omega (
  arith,
  pow,
  xor_step (q * 2 ^ suc k) r,
  shifted-xor k q (r / 2) (omega (arith, pow-suc 2 k)),
  ap (λ (t : ℕ). bit_xor t (r / 2)) half,
)
  where
    pow : q * 2 ^ suc k ≡ q * 2 ^ k * 2
    pow = omega (arith, ap (λ (t : ℕ). q * t) (pow-suc 2 k))

    half : q * 2 ^ suc k / 2 ≡ q * 2 ^ k
    half = omega (arith, pow)
