-- ===== src/Tests/Field.antt =====
-- gf16: the field at concrete elements and slices.
use Prim.Native.Nat.{bit_xor}
use par2engine.Base.{
  true, replicate, zero, suc, ℕ, ◌+◌, ◌*◌, ◌-◌, ◌<◌, ◌≡◌, refl, arith, List, length, ok,
}
use par2engine.Gf16.Poly.{order, mult_by_two, shift_reduce, times_poly, times_poly_loop}
use par2engine.Gf16.Poly.Double.{mult_by_two-eq-shift_reduce}
use par2engine.Gf16.Poly.Laws.{times_poly_assoc}
use par2engine.Gf16.Tables.{Tables, times, inverse, div, pow}
use par2engine.Gf16.Tables.Init.{HoldsPowers, init_tables-HoldsPowers}
use par2engine.Gf16.Tables.Ops.{repeated, times-eq-times_poly, inverse_lem, div_lem, pow_lem}
use par2engine.Gf16.MulTable.{calc_table}
use par2engine.Gf16.MulTable.Laws.{calc_table_lem}
use par2engine.Gf16.Nibbles.{mul_table64_entry, looked_up}
use par2engine.Gf16.Nibbles.Laws.{looked_up-mul_table64_entry}
use par2engine.Gf16.Slice.{Cpu, overwrite, add, mul_byte_slice, mul_and_add_byte_slice}
use par2engine.Gf16.Slice.Spec.{IsBytes, scaled, words, zip_with}
use par2engine.Gf16.Slice.Entry.{IsCpu, mul_byte_slice-words, mul_and_add_byte_slice-words}

abbrev pub tables : Tables
tables = init_tables-HoldsPowers.0

pub holds : HoldsPowers (order - 1) tables
holds = init_tables-HoldsPowers.2

-- A processor with both instruction sets.
abbrev pub cpu : Cpu
cpu = record {
  has_avx2 = true;
  has_ssse3 = true;
  mul = record { avx2 = scaled overwrite; ssse3 = scaled overwrite };
  mul_and_add = record { avx2 = scaled add; ssse3 = scaled add };
}

pub cpu-IsCpu : IsCpu cpu
cpu-IsCpu = record {
  mul_avx2 = λ c ins outs p s b e d. refl;
  mul_ssse3 = λ c ins outs p s b e d. refl;
  mul_and_add_avx2 = λ c ins outs p s b e d. refl;
  mul_and_add_ssse3 = λ c ins outs p s b e d. refl;
}

-- A block for each instruction set, and an element for the scalar loop.
abbrev source : List ℕ
source = replicate 98 200

abbrev target : List ℕ
target = replicate 98 31

replicate-IsBytes : (n b : ℕ) → b < 256 → IsBytes (replicate n b)
replicate-IsBytes zero b h = tt
replicate-IsBytes (suc n) b h = (h, replicate-IsBytes n b h)

source-IsBytes : IsBytes source
source-IsBytes = replicate-IsBytes 98 200 (omega arith)

target-IsBytes : IsBytes target
target-IsBytes = replicate-IsBytes 98 31 (omega arith)

mul_byte_slice-words_example :
    (result : List ℕ) × (mul_byte_slice cpu tables 7 source target ≡ ok result)
    × (length result ≡ length target)
    × IsBytes result
    × (words result ≡ zip_with (λ v d. times_poly 7 v) (words source) (words target))
mul_byte_slice-words_example =
    mul_byte_slice-words cpu cpu-IsCpu tables holds 7 (omega arith) source target source-IsBytes
      target-IsBytes refl refl

mul_and_add_byte_slice-words_example :
    (result : List ℕ) × (mul_and_add_byte_slice cpu tables 7 source target ≡ ok result)
    × (length result ≡ length target)
    × IsBytes result
    × (words result ≡ zip_with (λ v d. bit_xor d (times_poly 7 v)) (words source) (words target))
mul_and_add_byte_slice-words_example =
    mul_and_add_byte_slice-words cpu cpu-IsCpu tables holds 7 (omega arith) source target
      source-IsBytes target-IsBytes refl refl

times-eq-times_poly_example : times tables 3 700 ≡ times_poly 3 700
times-eq-times_poly_example = times-eq-times_poly tables holds 3 700 (omega arith) (omega arith)

inverse_lem_example : (v : ℕ) × (inverse tables 3 ≡ ok v) × (v < order) × (times_poly 3 v ≡ 1)
inverse_lem_example = inverse_lem tables holds 3 (omega arith) (omega arith)

div_lem_example : (q : ℕ) × (div tables 700 3 ≡ ok q) × (q < order) × (times_poly q 3 ≡ 700)
div_lem_example = div_lem tables holds 700 3 (omega arith) (omega arith) (omega arith)

pow_lem_example : pow tables 2 40 ≡ repeated 2 40
pow_lem_example = pow_lem tables holds 2 40 (omega arith)

calc_table_lem_example :
    bit_xor ((calc_table 700).s0 5) ((calc_table 700).s8 6) ≡ times_poly 700 (5 + 6 * 256)
calc_table_lem_example = calc_table_lem 700 5 6 (omega arith) (omega arith) (omega arith)

times_poly_assoc_example : times_poly (times_poly 3 700) 9 ≡ times_poly 3 (times_poly 700 9)
times_poly_assoc_example = times_poly_assoc 3 700 9 (omega arith) (omega arith) (omega arith)

mult_by_two-eq-shift_reduce_example : mult_by_two 40000 ≡ shift_reduce 40000
mult_by_two-eq-shift_reduce_example = mult_by_two-eq-shift_reduce 40000 (omega arith)

-- The generator times itself, and a product that is reduced.
square_test : times_poly 3 3 ≡ 5
unfolding times_poly times_poly_loop shift_reduce
square_test = refl

reduced_test : times_poly 32768 2 ≡ 4107
unfolding times_poly times_poly_loop shift_reduce
reduced_test = refl

looked_up-mul_table64_entry_example :
    looked_up (mul_table64_entry tables 700) 51966 ≡ times_poly 700 51966
looked_up-mul_table64_entry_example =
    looked_up-mul_table64_entry tables holds 700 51966 (omega arith) (omega arith)
