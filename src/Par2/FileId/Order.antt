-- ===== src/Par2/FileId/Order.antt =====
-- The order on file IDs is that of the little-endian numbers, as the specification has it.
use native.Mathlib.Nat.{pow-suc, one-le-pow}
use par2engine.Base.{
  ℕ, zero, suc, ◌+◌, ◌*◌, ◌^◌, ◌≤◌, ◌<◌, ◌≡◌, refl, sym, ap, ap₂, ◌∙◌, ◌↔◌, arith, List, [], ◌∷◌,
  take, length, get_or, ltb, true, false, not, and_true, Bool-cases, inl, inr, if◌then◌else◌,
  ltb→lt, lt→ltb,
}
use par2engine.Par2.Bytes.{IsBytes, le_value}
use par2engine.Par2.Bytes.Laws.{take_all}
use par2engine.Par2.FileId.{less_loop, file_id_less, is_sorted}

-- The highest byte that has been read weighs more than all below it.
le_value-take-suc :
    (n : ℕ) (bs : List ℕ)
    → le_value (take (suc n) bs) ≡ le_value (take n bs) + get_or bs n 0 * 256 ^ n
unfolding le_value
le_value-take-suc zero [] = omega arith
le_value-take-suc (suc n) [] = omega arith
le_value-take-suc zero (b ∷ bs) = omega arith
le_value-take-suc (suc n) (b ∷ bs) =
    omega (arith, le_value-take-suc n bs, ap (λ (t : ℕ). get_or bs n 0 * t) (pow-suc 256 n))

le_value-take-lt : (n : ℕ) (bs : List ℕ) → IsBytes bs → le_value (take n bs) < 256 ^ n
unfolding le_value
le_value-take-lt zero bs h = omega arith
le_value-take-lt (suc n) [] h = omega (arith, one-le-pow (suc n) 256 (omega arith))
le_value-take-lt (suc n) (b ∷ bs) h = omega (arith, h.0, pow-suc 256 n, le_value-take-lt n bs h.1)

above : (x y p : ℕ) → x < y → x * p + p ≤ y * p
above x y p h = grind arith

-- One more digit in front: it decides, unless it is the same.
digit_order :
    (a b x y p : ℕ)
    → a < p
    → b < p
    → (if ltb x y then true else if ltb y x then false else ltb a b) ≡ ltb (a + x * p) (b + y * p)
digit_order a b x y p h k = elim (Bool-cases (ltb x y)) [
  | inl lt ↦ let room = above x y p (ltb→lt x y lt) in rw lt (sym (lt→ltb _ _ (omega arith)))
  | inr ge ↦ elim (Bool-cases (ltb y x)) [
    | inl gt ↦
        let room = above y x p (ltb→lt y x gt) in rw (ge, gt) (sym (le→ltb _ _ (omega arith)))
    | inr le ↦ let e : x ≡ y = ground arith in rw (ge, le, e) (shift a b (y * p))
  ]
]
  where
    le→ltb : (m n : ℕ) → n ≤ m → ltb m n ≡ false
    le→ltb m n h = ground arith

    shift : (a b c : ℕ) → ltb a b ≡ ltb (a + c) (b + c)
    shift a b c = ground arith

less_loop-eq-ltb :
    (n : ℕ) (a b : List ℕ)
    → IsBytes a
    → IsBytes b
    → less_loop n a b ≡ ltb (le_value (take n a)) (le_value (take n b))
unfolding less_loop le_value
less_loop-eq-ltb zero a b h k = refl
less_loop-eq-ltb (suc n) a b h k =
    rw (less_loop-eq-ltb n a b h k, le_value-take-suc n a, le_value-take-suc n b)
      (digit_order (le_value (take n a)) (le_value (take n b)) (get_or a n 0) (get_or b n 0)
        (256 ^ n) (le_value-take-lt n a h) (le_value-take-lt n b k))

-- On two IDs of bytes and of one length, `FileIDLess` is the order of the numbers that they spell
-- with the lowest byte first.
pub file_id_less-eq-ltb :
    (a b : List ℕ)
    → IsBytes a
    → IsBytes b
    → length a ≡ length b
    → file_id_less a b ≡ ltb (le_value a) (le_value b)
unfolding file_id_less
file_id_less-eq-ltb a b h k e =
    less_loop-eq-ltb (length a) a b h k
    ∙ ap₂ (λ (x y : List ℕ). ltb (le_value x) (le_value y)) (take_all _ a refl)
        (take_all _ b (sym e))

-- Every item is at least the one before it.
abbrev pub IsAscending : List (List ℕ) → Type 0
IsAscending [] = Unit
IsAscending (x ∷ []) = Unit
IsAscending (x ∷ y ∷ ids) = (le_value x ≤ le_value y) × IsAscending (y ∷ ids)

abbrev pub AllIds : List (List ℕ) → Type 0
AllIds [] = Unit
AllIds (x ∷ ids) = IsBytes x × (length x ≡ 16) × AllIds ids

-- The test that `validateFileIDSorted` makes of a list of IDs holds exactly where the numbers that
-- they spell are in ascending order.
pub is_sorted_iff : (ids : List (List ℕ)) → AllIds ids → (is_sorted ids ≡ true) ↔ IsAscending ids
unfolding is_sorted
is_sorted_iff [] h = (λ _. tt, λ _. refl)
is_sorted_iff (x ∷ []) h = (λ _. tt, λ _. refl)
is_sorted_iff (x ∷ y ∷ ids) h =
    let test = file_id_less-eq-ltb y x h.2.0 h.0 (omega arith) in
    let rest = is_sorted_iff (y ∷ ids) h.2 in
    (
      λ p. (
        ground (arith, test, (and_true (not (file_id_less y x)) (is_sorted (y ∷ ids)) p).0),
        rest.0 (and_true (not (file_id_less y x)) (is_sorted (y ∷ ids)) p).1,
      ),
      λ q. let r = rest.1 q.1 in rw (test, r) (ground arith),
    )
