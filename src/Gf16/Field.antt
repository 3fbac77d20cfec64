-- ===== src/Gf16/Field.antt =====
-- What the package rs uses of the package gf16: its operations and their laws.
use Prim.Native.Nat.{bit_xor}
use par2engine.Base.{ℕ, ◌-◌, ◌%◌, ◌<◌, ◌≡◌, List, length, Result, ok}
use par2engine.Gf16.Poly.{order, times_poly}
use par2engine.Gf16.Tables.{Tables, inverse, pow}
use par2engine.Gf16.Tables.Init.{HoldsPowers}
use par2engine.Gf16.Tables.Ops.{repeated, inverse_lem, pow_lem}
use par2engine.Gf16.Slice.{Cpu, mul_byte_slice, mul_and_add_byte_slice}
use par2engine.Gf16.Slice.Spec.{IsBytes, words, zip_with}
use par2engine.Gf16.Slice.Entry.{IsCpu, mul_byte_slice-words, mul_and_add_byte_slice-words}
use par2engine.Gf16.Slice
use par2engine.Gf16.Tables

-- A multiplication of slices: the coefficient, `in` and `out`, to the new `out`.
abbrev pub SliceOp : Type 0
SliceOp = ℕ → List ℕ → List ℕ → Result Slice.Panic (List ℕ)

pub record FieldOps : Type 0 where
  pub mul_slice : SliceOp
  pub mul_and_add_slice : SliceOp
  pub inverse_of : ℕ → Result Tables.Panic ℕ
  pub power_of : ℕ → ℕ → ℕ

-- On two slices of one even length an operation returns, and stores `mix d (c * v)` for the elements
-- `v` of `in` and `d` of `out`.
abbrev pub StoresProducts : (ℕ → ℕ → ℕ) → SliceOp → Type 0
StoresProducts mix op =
    (c : ℕ) (ins outs : List ℕ)
    → c < order
    → IsBytes ins
    → IsBytes outs
    → length ins ≡ length outs
    → length ins % 2 ≡ 0
    → (result : List ℕ) × (op c ins outs ≡ ok result)
      × (length result ≡ length outs)
      × IsBytes result
      × (words result ≡ zip_with (λ v d. mix d (times_poly c v)) (words ins) (words outs))

pub record IsFieldOps (f : FieldOps) : Type 0 where
  pub mul_lem : StoresProducts (λ d r. r) f.mul_slice
  pub mul_and_add_lem : StoresProducts bit_xor f.mul_and_add_slice
  pub inverse_of_lem :
      (t : ℕ)
      → 0 < t
      → t < order
      → (v : ℕ) × (f.inverse_of t ≡ ok v) × (v < order) × (times_poly t v ≡ 1)
  pub power_of_lem : (t p : ℕ) → t < order → f.power_of t p ≡ repeated t p

-- The package's own operations.
abbrev pub field_ops : Cpu → Tables → FieldOps
field_ops cpu tables = record {
  mul_slice = mul_byte_slice cpu tables;
  mul_and_add_slice = mul_and_add_byte_slice cpu tables;
  inverse_of = inverse tables;
  power_of = pow tables;
}

pub field_ops-IsFieldOps :
    (cpu : Cpu) (tables : Tables)
    → IsCpu cpu
    → HoldsPowers (order - 1) tables
    → IsFieldOps (field_ops cpu tables)
field_ops-IsFieldOps cpu tables is_cpu holds = record {
  mul_lem = λ c ins outs small bytes out_bytes same even.
      mul_byte_slice-words cpu is_cpu tables holds c small ins outs bytes out_bytes same even;
  mul_and_add_lem = λ c ins outs small bytes out_bytes same even.
      mul_and_add_byte_slice-words cpu is_cpu tables holds c small ins outs bytes out_bytes same
        even;
  inverse_of_lem = inverse_lem tables holds;
  power_of_lem = pow_lem tables holds;
}
