-- ===== src/Gf16/Nibbles/Laws.antt =====
-- The tables of four-bit parts hold the products with the coefficient.
use Prim.Native.Nat.{bit_xor}
use native.Mathlib.Nat.{pow-suc}
use par2engine.Base.{ℕ, zero, suc, ◌+◌, ◌-◌, ◌*◌, ◌/◌, ◌%◌, ◌^◌, ◌<◌, ◌≡◌, sym, ap, ap₂, ◌∙◌, arith}
use par2engine.Bits.{shifted-xor, xor_swap, xor_double, xor-lt, xor-div_pow, xor_comm}
use par2engine.Gf16.Poly.{order, times_poly}
use par2engine.Gf16.Poly.Laws.{times_poly-xor, times_poly-lt}
use par2engine.Gf16.Tables.{Tables, times}
use par2engine.Gf16.Tables.Init.{HoldsPowers}
use par2engine.Gf16.Tables.Ops.{times-eq-times_poly}
use par2engine.Gf16.Nibbles.{mul_table64_entry, looked_up}

xor-mul_pow : (k a b : ℕ) → bit_xor (a * 2 ^ k) (b * 2 ^ k) ≡ bit_xor a b * 2 ^ k
xor-mul_pow zero a b = ap₂ bit_xor (once a) (once b) ∙ sym (once (bit_xor a b))
  where
    once : (n : ℕ) → n * 2 ^ 0 ≡ n
    once n = omega arith
xor-mul_pow (suc k) a b =
    ap₂ bit_xor (double a) (double b)
    ∙ xor_double (a * 2 ^ k) (b * 2 ^ k)
    ∙ ap (λ (t : ℕ). t * 2) (xor-mul_pow k a b)
    ∙ sym (double (bit_xor a b))
  where
    double : (n : ℕ) → n * 2 ^ suc k ≡ n * 2 ^ k * 2
    double n = omega (arith, ap (λ (t : ℕ). n * t) (pow-suc 2 k))

-- Exclusive or works byte by byte.
xor_bytes :
    (a b : ℕ) → bit_xor a b ≡ bit_xor (a % 256) (b % 256) + bit_xor (a / 2 ^ 8) (b / 2 ^ 8) * 256
xor_bytes a b =
    ap₂ bit_xor (parts a) (parts b)
    ∙ xor_swap (a / 2 ^ 8 * 2 ^ 8) (a % 256) (b / 2 ^ 8 * 2 ^ 8) (b % 256)
    ∙ ap (λ (t : ℕ). bit_xor t (bit_xor (a % 256) (b % 256)))
        (xor-mul_pow 8 (a / 2 ^ 8) (b / 2 ^ 8))
    ∙ shifted-xor 8 (bit_xor (a / 2 ^ 8) (b / 2 ^ 8)) (bit_xor (a % 256) (b % 256))
        (xor-lt 8 (a % 256) (b % 256) (omega arith) (omega arith))
    ∙ omega arith
  where
    parts : (n : ℕ) → n ≡ bit_xor (n / 2 ^ 8 * 2 ^ 8) (n % 256)
    parts n = omega (arith, shifted-xor 8 (n / 2 ^ 8) (n % 256) (omega arith))

xor-mod_byte : (a b : ℕ) → bit_xor a b % 256 ≡ bit_xor (a % 256) (b % 256)
xor-mod_byte a b =
    omega (arith, xor_bytes a b, xor-lt 8 (a % 256) (b % 256) (omega arith) (omega arith))

-- Four words put together from their low and their high bytes.
four_words :
    (a b c d : ℕ)
    → a < order
    → b < order
    → c < order
    → d < order
    → bit_xor (bit_xor (a % 256) (b % 256)) (bit_xor (c % 256) (d % 256))
        + bit_xor
            (bit_xor (a / 2 ^ 8 % 256) (b / 2 ^ 8 % 256))
            (bit_xor (c / 2 ^ 8 % 256) (d / 2 ^ 8 % 256))
          * 256
      ≡ bit_xor (bit_xor a b) (bit_xor c d)
four_words a b c d h k l m = sym (
    xor_bytes (bit_xor a b) (bit_xor c d)
    ∙ ap₂ (λ (x y : ℕ). x + y * 256) (ap₂ bit_xor (xor-mod_byte a b) (xor-mod_byte c d))
        (ap₂ bit_xor (xor-div_pow 8 a b ∙ ap₂ bit_xor (high a h) (high b k))
          (xor-div_pow 8 c d ∙ ap₂ bit_xor (high c l) (high d m))))
  where
    high : (n : ℕ) → n < order → n / 2 ^ 8 ≡ n / 2 ^ 8 % 256
    high n h = omega arith

-- A word is its four-bit parts.
nibbles :
    (v : ℕ)
    → v < order
    → bit_xor
        (bit_xor (v % 16) (v / 16 % 16 * 2 ^ 4))
        (bit_xor (v / 256 % 16 * 2 ^ 8) (v / 4096 % 16 * 2 ^ 12))
      ≡ v
nibbles v h =
    ap₂ bit_xor
      (xor_comm (v % 16) (v / 16 % 16 * 2 ^ 4)
        ∙ shifted-xor 4 (v / 16 % 16) (v % 16) (omega arith)
        ∙ low)
      (xor_comm (v / 256 % 16 * 2 ^ 8) (v / 4096 % 16 * 2 ^ 12)
        ∙ shifted-xor 12 (v / 4096 % 16) (v / 256 % 16 * 2 ^ 8) (omega arith)
        ∙ high)
    ∙ xor_comm (v % 256) (v / 256 * 2 ^ 8)
    ∙ shifted-xor 8 (v / 256) (v % 256) (omega arith)
    ∙ omega arith
  where
    low : v / 16 % 16 * 2 ^ 4 + v % 16 ≡ v % 256
    low = omega arith

    high : v / 4096 % 16 * 2 ^ 12 + v / 256 % 16 * 2 ^ 8 ≡ v / 256 * 2 ^ 8
    high = omega arith

module _ (tables : Tables) (holds : HoldsPowers (order - 1) tables) where
  -- For tables that hold the powers of the generator, the entry of `mulTable64` for an element
  -- gives, by eight lookups of the four-bit parts of a second element, added to make the low and
  -- the high byte, the product of the two.
  pub looked_up-mul_table64_entry :
      (c v : ℕ) → c < order → v < order → looked_up (mul_table64_entry tables c) v ≡ times_poly c v
  unfolding looked_up mul_table64_entry
  looked_up-mul_table64_entry c v h k =
      rw
        (
          product (v % 16) (omega arith),
          product (v / 16 % 16 * 2 ^ 4) (omega arith),
          product (v / 256 % 16 * 2 ^ 8) (omega arith),
          product (v / 4096 % 16 * 2 ^ 12) (omega arith),
        )
        (four_words _ _ _ _ (times_poly-lt c _ h) (times_poly-lt c _ h) (times_poly-lt c _ h)
            (times_poly-lt c _ h)
          ∙ ap₂ bit_xor (sym (times_poly-xor c (v % 16) (v / 16 % 16 * 2 ^ 4) h))
              (sym (times_poly-xor c (v / 256 % 16 * 2 ^ 8) (v / 4096 % 16 * 2 ^ 12) h))
          ∙ sym (times_poly-xor c _ _ h)
          ∙ ap (times_poly c) (nibbles v k))
    where
      product : (u : ℕ) → u < order → times tables c u ≡ times_poly c u
      product u l = times-eq-times_poly tables holds c u h l
