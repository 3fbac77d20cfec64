-- ===== src/Tests/Bytes.antt =====
-- Deciding that a list is one of bytes.
use par2engine.Base.{ℕ, ltb, ltb→lt, ◌&&◌, Bool, true, and_true, List, [], ◌∷◌, ◌≡◌}
use par2engine.Par2.Bytes.{IsBytes}

abbrev pub all_bytes : List ℕ → Bool
all_bytes [] = true
all_bytes (b ∷ bs) = ltb b 256 && all_bytes bs

pub all_bytes-IsBytes : (bs : List ℕ) → all_bytes bs ≡ true → IsBytes bs
all_bytes-IsBytes [] h = tt
all_bytes-IsBytes (b ∷ bs) h =
    let (first, rest) = and_true (ltb b 256) (all_bytes bs) h in
    (ltb→lt b 256 first, all_bytes-IsBytes bs rest)
