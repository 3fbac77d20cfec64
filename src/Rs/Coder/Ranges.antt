-- ===== src/Rs/Coder/Ranges.antt =====
-- The ranges of the goroutines put together.
use Prim.Native.Nat.{bit_xor}
use par2engine.Base.{
  ℕ, zero, suc, ◌+◌, ◌-◌, ◌*◌, ◌/◌, ◌%◌, ◌≤◌, ◌<◌, ltb, if◌then◌else◌, ◌≡◌, refl, sym, subst, ap,
  ap₂, ◌∙◌, arith, List, [], ◌∷◌, ◌++◌, map, take, drop, length, get_or, Bool-cases, inl, inr,
  false, ok, length-append, length-take, length-drop, length-map, ltb→lt, min,
}
use par2engine.Gf16.Poly.{times_poly}
use par2engine.Gf16.Slice.Spec.{IsBytes, words, IsBytes-take, IsBytes-drop}
use par2engine.Gf16.Field.{FieldOps, IsFieldOps}
use par2engine.Rs.Split.{goroutine_slice, slice-take}
use par2engine.Rs.Matrix.{Matrix, entry}
use par2engine.Rs.Matrix.Entries.{IsMatrix, get_or-append, get_or-take, get_or-drop}
use par2engine.Rs.Matrix.RowOps.{length-words}
use par2engine.Rs.Coder.{apply_ranges}
use par2engine.Rs.Coder.Apply.{word, AllSlices, sum_from, Stores, apply_row_lem}

words-take : (p : ℕ) (s : List ℕ) → words (take (p * 2) s) ≡ take p (words s)
words-take zero s = refl
words-take (suc p) s =
    let e : suc p * 2 ≡ suc (suc (p * 2)) = omega arith in
    ap (λ (n : ℕ). words (take n s)) e ∙ step (words-take p) s
  where
    step :
        ((s : List ℕ) → words (take (p * 2) s) ≡ take p (words s))
        → (s : List ℕ) → words (take (suc (suc (p * 2))) s) ≡ take (suc p) (words s)
    step rest [] = refl
    step rest (b ∷ []) = refl
    step rest (b ∷ c ∷ s) = ap (◌∷◌ (b + c * 256)) (rest s)

words-drop : (p : ℕ) (s : List ℕ) → words (drop (p * 2) s) ≡ drop p (words s)
words-drop zero s = refl
words-drop (suc p) s =
    let e : suc p * 2 ≡ suc (suc (p * 2)) = omega arith in
    ap (λ (n : ℕ). words (drop n s)) e ∙ step (words-drop p) s
  where
    step :
        ((s : List ℕ) → words (drop (p * 2) s) ≡ drop p (words s))
        → (s : List ℕ) → words (drop (suc (suc (p * 2))) s) ≡ drop (suc p) (words s)
    step rest [] = refl
    step rest (b ∷ []) = refl
    step rest (b ∷ c ∷ s) = rest s

words-append : (xs ys : List ℕ) → length xs % 2 ≡ 0 → words (xs ++ ys) ≡ words xs ++ words ys
words-append [] ys h = refl
words-append (x ∷ []) ys h = absurd (omega arith)
words-append (x ∷ x' ∷ xs) ys h = ap (◌∷◌ (x + x' * 256)) (words-append xs ys (omega arith))

IsBytes-append : (xs ys : List ℕ) → IsBytes xs → IsBytes ys → IsBytes (xs ++ ys)
IsBytes-append [] ys h k = k
IsBytes-append (x ∷ xs) ys h k = (h.0, IsBytes-append xs ys h.1 k)

-- Element `w` of the range of `half` elements from the element `p` on.
word-range :
    (half p w : ℕ) (s : List ℕ)
    → w < half
    → word (take (half * 2) (drop (p * 2) s)) w ≡ word s (p + w)
word-range half p w s h =
    ap (λ (ts : List ℕ). get_or ts w 0)
      (words-take half (drop (p * 2) s) ∙ ap (take half) (words-drop p s))
    ∙ get_or-take half (drop p (words s)) w h
    ∙ get_or-drop p (words s) w

abbrev range : ℕ → ℕ → List ℕ → List ℕ
range half g s = take (half * 2) (drop (g * half * 2) s)

slice-range : (half g : ℕ) (s : List ℕ) → goroutine_slice (half * 2) g s ≡ range half g s
slice-range half g s =
    slice-take (half * 2) g s ∙ ap (λ (n : ℕ). take (half * 2) (drop n s)) (regroup g half)
  where
    regroup : (g half : ℕ) → g * (half * 2) ≡ g * half * 2
    regroup g half = grind arith

range_size :
    (half g n : ℕ) (s : List ℕ)
    → length s ≡ n
    → length (range half g s) ≡ min (half * 2) (n - g * half * 2)
range_size half g n s e =
    omega (arith, length-take (half * 2) (drop (g * half * 2) s), length-drop (g * half * 2) s)

ranges-AllSlices :
    (half g n : ℕ) (ins : List (List ℕ))
    → AllSlices n ins
    → AllSlices (min (half * 2) (n - g * half * 2)) (map (goroutine_slice (half * 2) g) ins)
ranges-AllSlices half g n [] h = tt
ranges-AllSlices half g n (s ∷ ins) h =
    let e = slice-range half g s in
    (
      subst IsBytes (sym e) (IsBytes-take (half * 2) _ (IsBytes-drop (g * half * 2) s h.0)),
      ap length e ∙ range_size half g n s h.1,
      ranges-AllSlices half g n ins h.2,
    )

sum_range :
    (m : Matrix) (i j half g w : ℕ) (ins : List (List ℕ))
    → w < half
    → sum_from m i j (map (goroutine_slice (half * 2) g) ins) w ≡ sum_from m i j ins (g * half + w)
unfolding sum_from
sum_range m i j half g w [] h = refl
sum_range m i j half g w (s ∷ ins) h =
    ap₂ (λ (x y : ℕ). bit_xor (times_poly (entry m i j) x) y)
      (ap (λ (t : List ℕ). word t w) (slice-range half g s) ∙ word-range half (g * half) w s h)
      (sum_range m i (suc j) half g w ins h)

before : (w k : ℕ) → ltb w k ≡ false → w < k → ⊥
before w k h l = ground arith

beyond :
    (w k l r half : ℕ) → ltb w k ≡ false → k ≡ l / 2 → l ≡ min (half * 2) r → w < r / 2 → k ≡ half
beyond w k l r half h e e' l' = let no : w < k → ⊥ = before w k h in omega arith

later :
    (g half w n : ℕ)
    → (w < half → ⊥)
    → w < (n - g * half * 2) / 2
    → w - half < (n - suc g * half * 2) / 2
later g half w n h l =
    let e : suc g * half ≡ half + g * half = omega arith in
    let d : suc g * half * 2 ≡ half * 2 + g * half * 2 = omega arith in rw d (omega (arith))

together :
    (g half n a b : ℕ)
    → a ≡ min (half * 2) (n - g * half * 2)
    → b ≡ n - suc g * half * 2
    → a + b ≡ n - g * half * 2
together g half n a b e e' =
    let d : suc g * half * 2 ≡ half * 2 + g * half * 2 = omega arith in omega arith

no_bytes : (g half n : ℕ) → n ≤ (g + 0) * half * 2 → 0 ≡ n - g * half * 2
no_bytes g half n h =
    let e : g + 0 ≡ g = omega arith in omega (arith, subst (λ (k : ℕ). n ≤ k * half * 2) e h)

no_word : (g half n w : ℕ) → n ≤ (g + 0) * half * 2 → w < (n - g * half * 2) / 2 → ⊥
no_word g half n w h l = omega (arith, no_bytes g half n h)

shifted : (g half w : ℕ) → (w < half → ⊥) → suc g * half + (w - half) ≡ g * half + w
shifted g half w h = let e : suc g * half ≡ half + g * half = omega arith in omega arith

even_range : (half g n : ℕ) → n % 2 ≡ 0 → min (half * 2) (n - g * half * 2) % 2 ≡ 0
even_range half g n h = grind arith

module _ (f : FieldOps) (laws : IsFieldOps f) (m : Matrix) (valid : IsMatrix m) (i : ℕ)
    (h : i < m.rows) (n : ℕ) (even : n % 2 ≡ 0) (half : ℕ) (s : List ℕ) (ins : List (List ℕ))
    (out : List ℕ) (slices : AllSlices n (s ∷ ins)) (room : suc (length ins) ≤ m.cols)
    (bytes : IsBytes out) (size : length out ≡ n) where
  -- The element of two ranges, side by side.
  joined :
      (g w : ℕ) (here rest : List ℕ)
      → Stores
          (min (half * 2) (n - g * half * 2))
          (sum_from m i 0 (map (goroutine_slice (half * 2) g) (s ∷ ins)))
          here
      → Stores (n - suc g * half * 2) (λ v. sum_from m i 0 (s ∷ ins) (suc g * half + v)) rest
      → w < (n - g * half * 2) / 2
      → word (here ++ rest) w ≡ sum_from m i 0 (s ∷ ins) (g * half + w)
  joined g w here rest (b, l, e) (b', l', e') lt =
      ap (λ (ts : List ℕ). get_or ts w 0) (words-append here rest (omega (arith, l, even)))
      ∙ get_or-append (words here) (words rest) w
      ∙ elim (Bool-cases (ltb w (length (words here))))
          as (λ x.
            (if ltb w (length (words here))
              then get_or (words here) w 0
              else get_or (words rest) (w - length (words here)) 0)
            ≡ sum_from m i 0 (s ∷ ins) (g * half + w)) [
              | inl inside ↦
                  let small : w < min (half * 2) (n - g * half * 2) / 2 =
                    omega (
                      arith,
                      ltb→lt w (length (words here)) inside,
                      length-words here,
                      l,
                      half_of,
                    ) in
                  rw inside (e w small ∙ sum_range m i 0 half g w (s ∷ ins) (omega arith))
              | inr behind ↦
                  let full : length (words here) ≡ half =
                    beyond w (length (words here)) (length here) (n - g * half * 2) half behind
                      (length-words here) l lt in
                  let past : w < half → ⊥ =
                    λ k. before w (length (words here)) behind (omega (arith, full)) in
                  rw behind (
                    ap (λ (k : ℕ). get_or (words rest) (w - k) 0) full
                    ∙ e' (w - half) (later g half w n past lt)
                    ∙ ap (sum_from m i 0 (s ∷ ins)) (shifted g half w past))
            ]
    where
      half_of : length here / 2 ≡ min (half * 2) (n - g * half * 2) / 2
      half_of = ap (λ (k : ℕ). k / 2) l

  pub apply_ranges_lem :
      (rounds g : ℕ)
      → n ≤ (g + rounds) * half * 2
      → (result : List ℕ) × (apply_ranges f rounds (half * 2) g m i (s ∷ ins) out ≡ ok result)
        × Stores (n - g * half * 2) (λ w. sum_from m i 0 (s ∷ ins) (g * half + w)) result
  unfolding apply_ranges
  apply_ranges_lem zero g all =
      ([], refl, (tt, no_bytes g half n all, λ w l. absurd (no_word g half n w all l)))
  apply_ranges_lem (suc rounds) g all =
      let size_here = range_size half g n out size in
      let (here, run, stored) =
        apply_row_lem f laws m valid i h (min (half * 2) (n - g * half * 2))
          (even_range half g n even) (goroutine_slice (half * 2) g s)
          (map (goroutine_slice (half * 2) g) ins) (goroutine_slice (half * 2) g out)
          (ranges-AllSlices half g n (s ∷ ins) slices)
          (omega (arith, room, length-map ins (goroutine_slice (half * 2) g)))
          (subst IsBytes (sym (slice-range half g out))
            (IsBytes-take (half * 2) _ (IsBytes-drop (g * half * 2) out bytes)))
          (ap length (slice-range half g out) ∙ size_here) in
      let (rest, run', stored') =
        apply_ranges_lem rounds (suc g)
          (omega (arith, all, ap (λ (k : ℕ). k * half * 2) (shift g rounds))) in
      (
        here ++ rest,
        rw (run, run') refl,
        (
          IsBytes-append here rest stored.0 stored'.0,
          length-append here rest
              ∙ together g half n (length here) (length rest) stored.1 stored'.1,
          λ w l. joined g w here rest stored stored' l,
        ),
      )
    where
      shift : (g rounds : ℕ) → g + suc rounds ≡ suc g + rounds
      shift g rounds = omega arith
