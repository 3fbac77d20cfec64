-- ===== src/Par2/FileId.antt =====
-- par2/packet.go: the order on file IDs, which are arrays of 16 bytes.
pub mod Order
use par2engine.Base.{
  ℕ, zero, suc, ltb, if◌then◌else◌, not, ◌&&◌, Bool, true, false, List, [], ◌∷◌, get_or, length,
}

-- The loop from the last byte down, with the bytes that are left.
unfoldable pub less_loop : ℕ → List ℕ → List ℕ → Bool
less_loop zero id1 id2 = false
less_loop (suc i) id1 id2 =
    if ltb (get_or id1 i 0) (get_or id2 i 0)
    then true
    else if ltb (get_or id2 i 0) (get_or id1 i 0)
    then false
    else less_loop i id1 id2

-- `FileIDLess`
unfoldable pub file_id_less : List ℕ → List ℕ → Bool
file_id_less id1 id2 = less_loop (length id1) id1 id2

-- `slices.IsSortedFunc` with the comparison in `validateFileIDSorted`: no item is less than the one
-- before it. (It looks from the last pair on, and only the answer matters.)
unfoldable pub is_sorted : List (List ℕ) → Bool
is_sorted [] = true
is_sorted (x ∷ []) = true
is_sorted (x ∷ y ∷ ids) = not (file_id_less y x) && is_sorted (y ∷ ids)
