-- ===== src/Gf16/Slice/Bulk.antt =====
-- However the processor's kernels divide a slice, it is scaled element by element.
use par2engine.Base.{
  ◌&&◌, ℕ, zero, suc, ◌-◌, ◌%◌, ◌<◌, ◌≡◌, refl, sym, ap₂, ◌∙◌, arith, List, [], ◌∷◌, ◌++◌, length,
  take, drop, Bool-cases, inl, inr, ltb, if◌then◌else◌, length-take, length-drop,
}
use par2engine.Gf16.Poly.{order}
use par2engine.Gf16.Slice.{Kernels, Cpu, bulk_ssse3, bulk}
use par2engine.Gf16.Slice.Spec.{scaled, IsBytes, scaled-append, IsBytes-take, IsBytes-drop}

-- What a kernel is documented to do: on slices of one length, a whole number of its blocks, it stores
-- the products with a nonzero coefficient.
abbrev pub IsKernel : (ℕ → ℕ → ℕ) → ℕ → (ℕ → List ℕ → List ℕ → List ℕ) → Type 0
IsKernel mix block kernel =
    (c : ℕ) (ins outs : List ℕ)
    → 0 < c
    → c < order
    → IsBytes ins
    → length ins ≡ length outs
    → length ins % block ≡ 0
    → kernel c ins outs ≡ scaled mix c ins outs

pub scaled-empty :
    (mix : ℕ → ℕ → ℕ) (c : ℕ) (ins outs : List ℕ) → length ins ≡ 0 → scaled mix c ins outs ≡ outs
unfolding scaled
scaled-empty mix c [] outs h = refl
scaled-empty mix c (i ∷ ins) outs h = absurd (omega arith)

module _ (cpu : Cpu) (kernels : Kernels) (mix : ℕ → ℕ → ℕ) (scalar : ℕ → List ℕ → List ℕ → List ℕ)
    (avx2 : IsKernel mix 64 kernels.avx2) (ssse3 : IsKernel mix 32 kernels.ssse3)
    (one : IsKernel mix 2 scalar) (c : ℕ) (pos : 0 < c) (small : c < order) where
  module _ (ins outs : List ℕ) (bytes : IsBytes ins) (same : length ins ≡ length outs)
      (even : length ins % 2 ≡ 0) where
    taken : (n : ℕ) → length (take n ins) ≡ length (take n outs)
    taken n = omega (arith, length-take n ins, length-take n outs)

    dropped : (n : ℕ) → length (drop n ins) ≡ length (drop n outs)
    dropped n = omega (arith, length-drop n ins, length-drop n outs)

    bulk_ssse3-eq-scaled : bulk_ssse3 cpu kernels scalar c ins outs ≡ scaled mix c ins outs
    unfolding bulk_ssse3
    bulk_ssse3-eq-scaled = elim (Bool-cases cpu.has_ssse3) [
      | inr without ↦ rw without (one c ins outs pos small bytes same even)
      | inl with_it ↦ rw with_it (
          ap₂ ◌++◌ front back
          ∙ scaled-append mix c blocks ins outs (omega (arith, even)) (omega arith) same)
    ]
      where
        blocks : ℕ
        blocks = length ins - length ins % 32

        front :
            (if ltb 0 blocks
              then kernels.ssse3 c (take blocks ins) (take blocks outs)
              else take blocks outs)
            ≡ scaled mix c (take blocks ins) (take blocks outs)
        front = elim (Bool-cases (ltb 0 blocks)) [
          | inl some_blocks ↦ rw some_blocks (
              ssse3 c (take blocks ins) (take blocks outs) pos small (IsBytes-take blocks ins bytes)
                (taken blocks) (omega (arith, length-take blocks ins)))
          | inr no_block ↦ rw no_block (
              sym (
                scaled-empty mix c (take blocks ins) (take blocks outs)
                  (ground (arith, length-take blocks ins))))
        ]

        back :
            (if ltb blocks (length ins)
              then scalar c (drop blocks ins) (drop blocks outs)
              else drop blocks outs)
            ≡ scaled mix c (drop blocks ins) (drop blocks outs)
        back = elim (Bool-cases (ltb blocks (length ins))) [
          | inl more ↦ rw more (
              one c (drop blocks ins) (drop blocks outs) pos small (IsBytes-drop blocks ins bytes)
                (dropped blocks) (omega (arith, length-drop blocks ins)))
          | inr no_more ↦ rw no_more (
              sym (
                scaled-empty mix c (drop blocks ins) (drop blocks outs)
                  (ground (arith, length-drop blocks ins))))
        ]

    blocks64 : ℕ
    blocks64 = length ins - length ins % 64

    -- Whole AVX2 blocks first, given that the rest is scaled.
    bulk-suc :
        (fuel : ℕ)
        → bulk cpu kernels scalar fuel c (drop blocks64 ins) (drop blocks64 outs)
          ≡ scaled mix c (drop blocks64 ins) (drop blocks64 outs)
        → bulk cpu kernels scalar (suc fuel) c ins outs ≡ scaled mix c ins outs
    unfolding bulk blocks64
    bulk-suc fuel again = elim (Bool-cases (cpu.has_avx2 && ltb 0 blocks)) [
      | inr without ↦ rw without bulk_ssse3-eq-scaled
      | inl with_it ↦ rw with_it (
          ap₂ ◌++◌
            (avx2 c (take blocks ins) (take blocks outs) pos small (IsBytes-take blocks ins bytes)
              (taken blocks) (omega (arith, length-take blocks ins)))
            back
          ∙ scaled-append mix c blocks ins outs (omega (arith, even)) (omega arith) same)
    ]
      where
        blocks : ℕ
        blocks = length ins - length ins % 64

        back :
            (if ltb blocks (length ins)
              then bulk cpu kernels scalar fuel c (drop blocks ins) (drop blocks outs)
              else drop blocks outs)
            ≡ scaled mix c (drop blocks ins) (drop blocks outs)
        back = elim (Bool-cases (ltb blocks (length ins))) [
          | inl more ↦ rw more again
          | inr no_more ↦ rw no_more (
              sym (
                scaled-empty mix c (drop blocks ins) (drop blocks outs)
                  (ground (arith, length-drop blocks ins))))
        ]

  pub bulk-eq-scaled :
      (fuel : ℕ) (ins outs : List ℕ)
      → IsBytes ins
      → length ins ≡ length outs
      → length ins % 2 ≡ 0
      → bulk cpu kernels scalar fuel c ins outs ≡ scaled mix c ins outs
  unfolding bulk blocks64
  bulk-eq-scaled zero ins outs bytes same even = bulk_ssse3-eq-scaled ins outs bytes same even
  bulk-eq-scaled (suc fuel) ins outs bytes same even =
      let blocks = length ins - length ins % 64 in
      bulk-suc ins outs bytes same even fuel (
        bulk-eq-scaled fuel (drop blocks ins) (drop blocks outs) (IsBytes-drop blocks ins bytes)
          (dropped ins outs bytes same even blocks) (omega (arith, even, length-drop blocks ins)))
