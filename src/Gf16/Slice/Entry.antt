-- ===== src/Gf16/Slice/Entry.antt =====
-- `MulByteSliceLE` and `MulAndAddByteSliceLE` multiply element by element.
use Prim.Native.Nat.{bit_xor}
use par2engine.Base.{
  ℕ, ◌+◌, ◌-◌, ◌*◌, ◌%◌, ◌<◌, ◌==◌, ◌≡◌, refl, sym, ap, ap₂, arith, List, [], ◌∷◌, length,
  replicate, Bool-cases, inl, inr, false, ok,
}
use par2engine.Bits.{bit_xor-zero, xor-lt}
use par2engine.Gf16.Poly.{order, times_poly}
use par2engine.Gf16.Poly.Laws.{zero-times_poly}
use par2engine.Gf16.Tables.{Tables}
use par2engine.Gf16.Tables.Init.{HoldsPowers}
use par2engine.Gf16.Slice.{
  put_word, overwrite, add, mul_scalar, mul_and_add_scalar, Cpu, validate_slice_pair,
  mul_byte_slice, mul_and_add_byte_slice,
}
use par2engine.Gf16.Slice.Bulk.{IsKernel, scaled-empty, bulk-eq-scaled}
use par2engine.Gf16.Slice.Scalar.{scalar_loop-eq-scaled}
use par2engine.Gf16.Slice.Spec.{
  scaled, IsBytes, words, zip_with, KeepsWords, words-scaled, length-scaled, scaled-IsBytes,
}

-- What the two entry points ask of a processor.
pub record IsCpu (cpu : Cpu) : Type 0 where
  pub mul_avx2 : IsKernel overwrite 64 cpu.mul.avx2
  pub mul_ssse3 : IsKernel overwrite 32 cpu.mul.ssse3
  pub mul_and_add_avx2 : IsKernel add 64 cpu.mul_and_add.avx2
  pub mul_and_add_ssse3 : IsKernel add 32 cpu.mul_and_add.ssse3

overwrite-KeepsWords : KeepsWords overwrite
overwrite-KeepsWords d r h k = k

add-KeepsWords : KeepsWords add
add-KeepsWords d r h k = xor-lt 16 d r h k

-- Scaling by zero.
scaled-overwrite_zero :
    (ins outs : List ℕ)
    → length ins ≡ length outs
    → length ins % 2 ≡ 0
    → scaled overwrite 0 ins outs ≡ replicate (length outs) 0
unfolding scaled
scaled-overwrite_zero [] [] e even = refl
scaled-overwrite_zero [] (o ∷ outs) e even = absurd (omega arith)
scaled-overwrite_zero (lo ∷ []) outs e even = absurd (omega arith)
scaled-overwrite_zero (lo ∷ hi ∷ ins) [] e even = absurd (omega arith)
scaled-overwrite_zero (lo ∷ hi ∷ ins) (o ∷ []) e even = absurd (omega arith)
scaled-overwrite_zero (lo ∷ hi ∷ ins) (o ∷ p ∷ outs) e even =
    rw (zero-times_poly (lo + hi * 256), scaled-overwrite_zero ins outs (omega arith) (omega arith))

put_word_bytes :
    (o p : ℕ) (outs : List ℕ) → o < 256 → p < 256 → put_word (o + p * 256) outs ≡ o ∷ p ∷ outs
put_word_bytes o p outs h k = ap₂ (λ (x y : ℕ). x ∷ y ∷ outs) (omega arith) (omega arith)

scaled-add_zero :
    (ins outs : List ℕ)
    → length ins ≡ length outs
    → length ins % 2 ≡ 0
    → IsBytes outs
    → scaled add 0 ins outs ≡ outs
unfolding scaled
scaled-add_zero [] outs e even bytes = refl
scaled-add_zero (lo ∷ []) outs e even bytes = absurd (omega arith)
scaled-add_zero (lo ∷ hi ∷ ins) [] e even bytes = absurd (omega arith)
scaled-add_zero (lo ∷ hi ∷ ins) (o ∷ []) e even bytes = absurd (omega arith)
scaled-add_zero (lo ∷ hi ∷ ins) (o ∷ p ∷ outs) e even bytes =
    rw
      (
        zero-times_poly (lo + hi * 256),
        bit_xor-zero (o + p * 256),
        scaled-add_zero ins outs (omega arith) (omega arith) bytes.1.1,
      )
      (put_word_bytes o p outs bytes.0 bytes.1.0)

module _ (cpu : Cpu) (is_cpu : IsCpu cpu) (tables : Tables)
    (holds : HoldsPowers (order - 1) tables) where
  mul_scalar-IsKernel : IsKernel overwrite 2 (mul_scalar tables)
  unfolding mul_scalar
  mul_scalar-IsKernel c ins outs pos small bytes same even =
      let nonzero : (c == 0) ≡ false = ground arith in
      rw nonzero (scalar_loop-eq-scaled overwrite c small tables holds pos ins outs bytes)

  mul_and_add_scalar-IsKernel : IsKernel add 2 (mul_and_add_scalar tables)
  unfolding mul_and_add_scalar
  mul_and_add_scalar-IsKernel c ins outs pos small bytes same even =
      let nonzero : (c == 0) ≡ false = ground arith in
      rw nonzero (scalar_loop-eq-scaled add c small tables holds pos ins outs bytes)

  module _ (c : ℕ) (small : c < order) (ins outs : List ℕ) (bytes : IsBytes ins)
      (out_bytes : IsBytes outs) (same : length ins ≡ length outs) (even : length ins % 2 ≡ 0) where
    valid : validate_slice_pair ins outs ≡ ok tt
    unfolding validate_slice_pair
    valid = ground arith

    -- The multiplication as the layout of `scaled`, on every branch.
    mul_byte_slice-eq-scaled :
        mul_byte_slice cpu tables c ins outs ≡ ok (scaled overwrite c ins outs)
    unfolding mul_byte_slice
    mul_byte_slice-eq-scaled = rw valid (elim (Bool-cases (length ins == 0)) [
      | inl empty ↦ rw empty (ap ok (sym (scaled-empty overwrite c ins outs (ground arith))))
      | inr filled ↦ elim (Bool-cases (c == 0)) [
        | inl cleared ↦
            let e : c ≡ 0 = ground arith in
            rw (filled, cleared, e) (ap ok (sym (scaled-overwrite_zero ins outs same even)))
        | inr nonzero ↦
            rw (filled, nonzero)
              (ap ok (
                bulk-eq-scaled cpu cpu.mul overwrite (mul_scalar tables) is_cpu.mul_avx2
                  is_cpu.mul_ssse3 mul_scalar-IsKernel c (ground arith) small 1 ins outs bytes same
                  even))
      ]
    ])

    mul_and_add_byte_slice-eq-scaled :
        mul_and_add_byte_slice cpu tables c ins outs ≡ ok (scaled add c ins outs)
    unfolding mul_and_add_byte_slice
    mul_and_add_byte_slice-eq-scaled = rw valid (elim (Bool-cases (length ins == 0)) [
      | inl empty ↦ rw empty (ap ok (sym (scaled-empty add c ins outs (ground arith))))
      | inr filled ↦ elim (Bool-cases (c == 0)) [
        | inl cleared ↦
            let e : c ≡ 0 = ground arith in
            rw (filled, cleared, e) (ap ok (sym (scaled-add_zero ins outs same even out_bytes)))
        | inr nonzero ↦
            rw (filled, nonzero)
              (ap ok (
                bulk-eq-scaled cpu cpu.mul_and_add add (mul_and_add_scalar tables)
                  is_cpu.mul_and_add_avx2 is_cpu.mul_and_add_ssse3 mul_and_add_scalar-IsKernel c
                  (ground arith) small 1 ins outs bytes same even))
      ]
    ])

    -- On two slices of bytes of one even length, for a coefficient of the field and tables that
    -- hold the powers of the generator, `MulByteSliceLE` returns, without a panic, a slice of bytes
    -- of that length whose elements are the products of those of `in` with the coefficient: at
    -- every length, and whichever vector kernels the processor has, given that each kernel stores
    -- that for whole blocks and a nonzero coefficient.
    pub mul_byte_slice-words :
        (result : List ℕ) × (mul_byte_slice cpu tables c ins outs ≡ ok result)
        × (length result ≡ length outs)
        × IsBytes result
        × (words result ≡ zip_with (λ v d. times_poly c v) (words ins) (words outs))
    mul_byte_slice-words = (
      scaled overwrite c ins outs,
      mul_byte_slice-eq-scaled,
      length-scaled overwrite overwrite-KeepsWords c small ins outs same,
      scaled-IsBytes overwrite c ins outs out_bytes,
      words-scaled overwrite overwrite-KeepsWords c small ins outs same even out_bytes,
    )

    -- On two slices of bytes of one even length, for a coefficient of the field and tables that
    -- hold the powers of the generator, `MulAndAddByteSliceLE` returns, without a panic, a slice of
    -- bytes of that length whose elements are those of `out`, each with the product of the
    -- coefficient and the element of `in` added by exclusive or: at every length, and whichever
    -- vector kernels the processor has, given that each kernel stores that for whole blocks and a
    -- nonzero coefficient.
    pub mul_and_add_byte_slice-words :
        (result : List ℕ) × (mul_and_add_byte_slice cpu tables c ins outs ≡ ok result)
        × (length result ≡ length outs)
        × IsBytes result
        × (words result ≡ zip_with (λ v d. bit_xor d (times_poly c v)) (words ins) (words outs))
    mul_and_add_byte_slice-words = (
      scaled add c ins outs,
      mul_and_add_byte_slice-eq-scaled,
      length-scaled add add-KeepsWords c small ins outs same,
      scaled-IsBytes add c ins outs out_bytes,
      words-scaled add add-KeepsWords c small ins outs same even out_bytes,
    )
