-- ===== src/Gf16/Nibbles.antt =====
-- gf16/gf16_amd64.go: `mulTable64`, the tables that the vector kernels look four-bit parts up in.
pub mod Laws
use Prim.Native.Nat.{bit_xor}
use par2engine.Base.{ℕ, ◌+◌, ◌*◌, ◌/◌, ◌%◌, ◌^◌}
use par2engine.Gf16.Tables.{Tables, times}

-- `mulTable64Entry`; an array is a function from its index.
pub record MulTable64Entry : Type 0 where
  pub s0_low : ℕ → ℕ
  pub s4_low : ℕ → ℕ
  pub s8_low : ℕ → ℕ
  pub s12_low : ℕ → ℕ
  pub s0_high : ℕ → ℕ
  pub s4_high : ℕ → ℕ
  pub s8_high : ℕ → ℕ
  pub s12_high : ℕ → ℕ

-- The entry that `init` fills for the coefficient `c`, at each `j` below 16.
unfoldable pub mul_table64_entry : Tables → ℕ → MulTable64Entry
mul_table64_entry tables c = record {
  s0_low = λ j. times tables c j % 256;
  s4_low = λ j. times tables c (j * 2 ^ 4) % 256;
  s8_low = λ j. times tables c (j * 2 ^ 8) % 256;
  s12_low = λ j. times tables c (j * 2 ^ 12) % 256;
  s0_high = λ j. times tables c j / 2 ^ 8 % 256;
  s4_high = λ j. times tables c (j * 2 ^ 4) / 2 ^ 8 % 256;
  s8_high = λ j. times tables c (j * 2 ^ 8) / 2 ^ 8 % 256;
  s12_high = λ j. times tables c (j * 2 ^ 12) / 2 ^ 8 % 256;
}

-- The element that four lookups for each of its bytes make of the four-bit parts of `v`, as the
-- comment on the type has it.
unfoldable pub looked_up : MulTable64Entry → ℕ → ℕ
looked_up e v =
    bit_xor (bit_xor (e.s0_low (v % 16)) (e.s4_low (v / 16 % 16)))
      (bit_xor (e.s8_low (v / 256 % 16)) (e.s12_low (v / 4096 % 16)))
    + bit_xor (bit_xor (e.s0_high (v % 16)) (e.s4_high (v / 16 % 16)))
        (bit_xor (e.s8_high (v / 256 % 16)) (e.s12_high (v / 4096 % 16)))
      * 256
