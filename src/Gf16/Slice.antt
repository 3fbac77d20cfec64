-- ===== src/Gf16/Slice.antt =====
-- gf16/gf16.go, gf16/gf16_amd64.go and gf16/gf16_nonamd64.go: multiplying a slice of bytes, read as
-- little-endian elements, by a coefficient. A kernel takes `in` and `out` and returns the new `out`.
-- It reads each element of `in` before it writes that place of `out`, so the result is the same where
-- the two are one slice. The two kernels of each kind differ only in what is stored for the product
-- `r` over the old element `d`: `mix d r` is `r`, or `d ^ r`.
pub mod Spec
pub mod Scalar
pub mod Bulk
pub mod Entry
use Prim.Native.Nat.{bit_xor}
use par2engine.Base.{
  ℕ, zero, suc, ◌+◌, ◌-◌, ◌*◌, ◌/◌, ◌%◌, ◌==◌, ltb, leb, if◌then◌else◌, not, Bool, List, [], ◌∷◌,
  ◌++◌, length, get_or, take, drop, replicate, Result, ok, ◌>>◌, refuse, ◌&&◌, ◌>>=◌,
}
use par2engine.Gf16.Poly.{order}
use par2engine.Gf16.Tables.{Tables}
use par2engine.Gf16.MulTable.{MulTable, calc_table}

-- `binary.LittleEndian.Uint16(bs[i:])`
abbrev pub word_at : List ℕ → ℕ → ℕ
word_at bs i = get_or bs i 0 + get_or bs (suc i) 0 * 256

-- `binary.LittleEndian.PutUint16` at the front of what follows.
abbrev pub put_word : ℕ → List ℕ → List ℕ
put_word r rest = r % 256 ∷ r / 256 % 256 ∷ rest

abbrev pub overwrite : ℕ → ℕ → ℕ
overwrite d r = r

abbrev pub add : ℕ → ℕ → ℕ
add d r = bit_xor d r

-- The loop of a short slice, through the log and exp tables.
unfoldable pub small_loop : (ℕ → ℕ → ℕ) → Tables → ℕ → List ℕ → List ℕ → List ℕ
small_loop mix tables log_c [] outs = outs
small_loop mix tables log_c (s0 ∷ []) outs = outs
small_loop mix tables log_c (s0 ∷ s1 ∷ ins) outs =
    let v = s0 + s1 * 256 in
    let r = if v == 0 then 0 else tables.exp ((log_c + tables.log (v - 1)) % (order - 1)) in
    put_word (mix (word_at outs 0) r) (small_loop mix tables log_c ins (drop 2 outs))

-- The loop after the unrolled one, an element at a time.
unfoldable pub tail_loop : (ℕ → ℕ → ℕ) → MulTable → List ℕ → List ℕ → List ℕ
tail_loop mix table [] outs = outs
tail_loop mix table (s0 ∷ []) outs = outs
tail_loop mix table (s0 ∷ s1 ∷ ins) outs =
    put_word (mix (word_at outs 0) (bit_xor (table.s0 s0) (table.s8 s1)))
      (tail_loop mix table ins (drop 2 outs))

-- The loop unrolled to four elements: all of them are read before the first is written.
unfoldable pub unrolled_loop : (ℕ → ℕ → ℕ) → MulTable → List ℕ → List ℕ → List ℕ
unrolled_loop mix table (s0 ∷ s1 ∷ s2 ∷ s3 ∷ s4 ∷ s5 ∷ s6 ∷ s7 ∷ ins) outs =
    let r0 = bit_xor (table.s0 s0) (table.s8 s1) in
    let r1 = bit_xor (table.s0 s2) (table.s8 s3) in
    let r2 = bit_xor (table.s0 s4) (table.s8 s5) in
    let r3 = bit_xor (table.s0 s6) (table.s8 s7) in
    put_word (mix (word_at outs 0) r0) (
      put_word (mix (word_at outs 2) r1) (
        put_word (mix (word_at outs 4) r2)
          (put_word (mix (word_at outs 6) r3) (unrolled_loop mix table ins (drop 8 outs)))))
unrolled_loop mix table ins outs = tail_loop mix table ins outs

abbrev pub small_slice_bytes : ℕ
small_slice_bytes = 64

-- Both scalar kernels at a nonzero coefficient.
unfoldable pub scalar_loop : (ℕ → ℕ → ℕ) → Tables → ℕ → List ℕ → List ℕ → List ℕ
scalar_loop mix tables c ins outs =
    if leb (length ins) small_slice_bytes
    then small_loop mix tables (tables.log (c - 1)) ins outs
    else unrolled_loop mix (calc_table c) ins outs

-- `mulScalarByteSliceLE`; `clear(out[:len(in)])` leaves what is behind.
unfoldable pub mul_scalar : Tables → ℕ → List ℕ → List ℕ → List ℕ
mul_scalar tables c ins outs =
    if c == 0
    then replicate (length ins) 0 ++ drop (length ins) outs
    else scalar_loop overwrite tables c ins outs

-- `mulAndAddScalarByteSliceLE`
unfoldable pub mul_and_add_scalar : Tables → ℕ → List ℕ → List ℕ → List ℕ
mul_and_add_scalar tables c ins outs = if c == 0 then outs else scalar_loop add tables c ins outs

-- The vector kernels for one of the two operations, which are assembly: each takes the coefficient,
-- `in` and `out`, and returns the new `out`.
pub record Kernels : Type 0 where
  pub avx2 : ℕ → List ℕ → List ℕ → List ℕ
  pub ssse3 : ℕ → List ℕ → List ℕ → List ℕ

-- What the processor has. A build for another architecture has neither instruction set.
pub record Cpu : Type 0 where
  pub has_avx2 : Bool
  pub has_ssse3 : Bool
  pub mul : Kernels
  pub mul_and_add : Kernels

abbrev pub avx2_block_bytes : ℕ
avx2_block_bytes = 64

abbrev pub ssse3_block_bytes : ℕ
ssse3_block_bytes = 32

-- `blockBytes`
unfoldable pub block_bytes : Cpu → ℕ
block_bytes cpu =
    if cpu.has_avx2 then avx2_block_bytes else if cpu.has_ssse3 then ssse3_block_bytes else 2

module _ (cpu : Cpu) (kernels : Kernels) (scalar : ℕ → List ℕ → List ℕ → List ℕ) where
  -- The branch of the dispatch below AVX2: whole SSSE3 blocks, then the scalar kernel.
  unfoldable pub bulk_ssse3 : ℕ → List ℕ → List ℕ → List ℕ
  bulk_ssse3 c ins outs =
      let n = length ins in
      let blocks = n - n % ssse3_block_bytes in
      let done =
        if ltb 0 blocks
        then kernels.ssse3 c (take blocks ins) (take blocks outs)
        else take blocks outs in
      let rest =
        if ltb blocks n then scalar c (drop blocks ins) (drop blocks outs) else drop blocks outs in
      if cpu.has_ssse3 then done ++ rest else scalar c ins outs

  -- `mulBulkByteSliceLE` and `mulAndAddBulkByteSliceLE`, over the kernels of each. The recursive
  -- call is on fewer bytes than an AVX2 block, so it does not recur: one unit of fuel is enough.
  unfoldable pub bulk : ℕ → ℕ → List ℕ → List ℕ → List ℕ
  bulk zero c ins outs = bulk_ssse3 c ins outs
  bulk (suc fuel) c ins outs =
      let n = length ins in
      let blocks = n - n % avx2_block_bytes in
      let again = bulk fuel c (drop blocks ins) (drop blocks outs) in
      if cpu.has_avx2 && ltb 0 blocks
      then kernels.avx2 c (take blocks ins) (take blocks outs)
        ++ (if ltb blocks n then again else drop blocks outs)
      else bulk_ssse3 c ins outs

pub data Panic : Type 0 where
  size_mismatch odd_slice_length : Panic

-- `validateSlicePair`
unfoldable pub validate_slice_pair : List ℕ → List ℕ → Result Panic (Unit {0})
validate_slice_pair ins outs = do
  refuse (not (length outs == length ins)) size_mismatch
  refuse (not (length ins % 2 == 0)) odd_slice_length

module _ (cpu : Cpu) (tables : Tables) where
  -- `MulByteSliceLE`
  unfoldable pub mul_byte_slice : ℕ → List ℕ → List ℕ → Result Panic (List ℕ)
  mul_byte_slice c ins outs =
      validate_slice_pair ins outs
      >> (if length ins == 0
          then ok outs
          else if c == 0
          then ok (replicate (length outs) 0)
          else ok (bulk cpu cpu.mul (mul_scalar tables) 1 c ins outs))

  -- `MulAndAddByteSliceLE`
  unfoldable pub mul_and_add_byte_slice : ℕ → List ℕ → List ℕ → Result Panic (List ℕ)
  mul_and_add_byte_slice c ins outs =
      validate_slice_pair ins outs
      >> (if length ins == 0
          then ok outs
          else if c == 0
          then ok outs
          else ok (bulk cpu cpu.mul_and_add (mul_and_add_scalar tables) 1 c ins outs))
