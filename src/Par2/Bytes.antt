-- ===== src/Par2/Bytes.antt =====
-- What the packet parsers use of `encoding/binary` and of slices: little-endian numbers and arrays of
-- fixed-size items.
pub mod Laws
use par2engine.Base.{ℕ, zero, suc, ◌+◌, ◌*◌, ◌/◌, ◌%◌, ◌<◌, List, [], ◌∷◌, take, drop}

abbrev pub IsBytes : List ℕ → Type 0
IsBytes [] = Unit
IsBytes (b ∷ bs) = (b < 256) × IsBytes bs

-- `LittleEndian.Uint32` and `Uint64`, by the bytes that they are given.
unfoldable pub le_value : List ℕ → ℕ
le_value [] = 0
le_value (b ∷ bs) = b + le_value bs * 256

-- `LittleEndian.PutUint32` and `PutUint64`, by the number of bytes.
unfoldable pub le_bytes : ℕ → ℕ → List ℕ
le_bytes zero v = []
le_bytes (suc n) v = v % 256 ∷ le_bytes n (v / 256)

-- `binary.Read` into a slice of `n` arrays of `size` bytes.
unfoldable pub chunks : ℕ → ℕ → List ℕ → List (List ℕ)
chunks zero size bs = []
chunks (suc n) size bs = take size bs ∷ chunks n size (drop size bs)
