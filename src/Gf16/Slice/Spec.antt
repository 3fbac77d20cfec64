-- ===== src/Gf16/Slice/Spec.antt =====
-- What a kernel is to compute: element by element, the product with the coefficient.
use par2engine.Base.{
  ℕ, zero, suc, ◌+◌, ◌*◌, ◌%◌, ◌≤◌, ◌<◌, ◌≡◌, refl, ap, ap₂, arith, List, [], ◌∷◌, ◌++◌, length,
  take, drop,
}
use par2engine.Gf16.Poly.{order, times_poly}
use par2engine.Gf16.Poly.Laws.{times_poly-lt}
use par2engine.Gf16.Slice.{word_at, put_word}

-- The elements of a slice of bytes.
abbrev pub words : List ℕ → List ℕ
words [] = []
words (lo ∷ []) = []
words (lo ∷ hi ∷ bs) = (lo + hi * 256) ∷ words bs

abbrev pub zip_with : (ℕ → ℕ → ℕ) → List ℕ → List ℕ → List ℕ
zip_with f [] ys = []
zip_with f (x ∷ xs) [] = []
zip_with f (x ∷ xs) (y ∷ ys) = f x y ∷ zip_with f xs ys

abbrev pub IsBytes : List ℕ → Type 0
IsBytes [] = Unit
IsBytes (b ∷ bs) = (b < 256) × IsBytes bs

-- The products, as a kernel lays them out: `out` with an element stored for each of `in`.
unfoldable pub scaled : (ℕ → ℕ → ℕ) → ℕ → List ℕ → List ℕ → List ℕ
scaled mix c [] outs = outs
scaled mix c (lo ∷ []) outs = outs
scaled mix c (lo ∷ hi ∷ ins) outs =
    put_word (mix (word_at outs 0) (times_poly c (lo + hi * 256))) (scaled mix c ins (drop 2 outs))

-- `mix` stores 16-bit words.
abbrev pub KeepsWords : (ℕ → ℕ → ℕ) → Type 0
KeepsWords mix = (d r : ℕ) → d < order → r < order → mix d r < order

module _ (mix : ℕ → ℕ → ℕ) (keeps : KeepsWords mix) (c : ℕ) (small : c < order) where
  pub length-scaled :
      (ins outs : List ℕ) → length ins ≡ length outs → length (scaled mix c ins outs) ≡ length outs
  unfolding scaled
  length-scaled [] outs e = refl
  length-scaled (lo ∷ []) outs e = refl
  length-scaled (lo ∷ hi ∷ ins) [] e = absurd (omega arith)
  length-scaled (lo ∷ hi ∷ ins) (o ∷ []) e = absurd (omega arith)
  length-scaled (lo ∷ hi ∷ ins) (o ∷ p ∷ outs) e = omega (arith, length-scaled ins outs)

  pub words-scaled :
      (ins outs : List ℕ)
      → length ins ≡ length outs
      → length ins % 2 ≡ 0
      → IsBytes outs
      → words (scaled mix c ins outs)
        ≡ zip_with (λ v d. mix d (times_poly c v)) (words ins) (words outs)
  unfolding scaled
  words-scaled [] [] e even bytes = refl
  words-scaled [] (o ∷ outs) e even bytes = absurd (omega arith)
  words-scaled (lo ∷ []) outs e even bytes = absurd (omega arith)
  words-scaled (lo ∷ hi ∷ ins) [] e even bytes = absurd (omega arith)
  words-scaled (lo ∷ hi ∷ ins) (o ∷ []) e even bytes = absurd (omega arith)
  words-scaled (lo ∷ hi ∷ ins) (o ∷ p ∷ outs) e even bytes =
      let r = mix (o + p * 256) (times_poly c (lo + hi * 256)) in
      let fits =
        keeps (o + p * 256) (times_poly c (lo + hi * 256)) (omega arith)
          (times_poly-lt c _ small) in
      ap₂ ◌∷◌ (omega arith) (words-scaled ins outs (omega arith) (omega arith) bytes.1.1)

pub IsBytes-drop : (k : ℕ) (bs : List ℕ) → IsBytes bs → IsBytes (drop k bs)
IsBytes-drop zero bs h = h
IsBytes-drop (suc k) [] h = h
IsBytes-drop (suc k) (b ∷ bs) h = IsBytes-drop k bs h.1

pub IsBytes-take : (k : ℕ) (bs : List ℕ) → IsBytes bs → IsBytes (take k bs)
IsBytes-take zero bs h = tt
IsBytes-take (suc k) [] h = h
IsBytes-take (suc k) (b ∷ bs) h = (h.0, IsBytes-take k bs h.1)

pub scaled-IsBytes :
    (mix : ℕ → ℕ → ℕ) (c : ℕ) (ins outs : List ℕ) → IsBytes outs → IsBytes (scaled mix c ins outs)
unfolding scaled
scaled-IsBytes mix c [] outs bytes = bytes
scaled-IsBytes mix c (lo ∷ []) outs bytes = bytes
scaled-IsBytes mix c (lo ∷ hi ∷ ins) outs bytes =
    (omega arith, (omega arith, scaled-IsBytes mix c ins (drop 2 outs) (IsBytes-drop 2 outs bytes)))

-- A slice is scaled in two parts, cut between elements.
pub scaled-append :
    (mix : ℕ → ℕ → ℕ) (c n : ℕ) (ins outs : List ℕ)
    → n % 2 ≡ 0
    → n ≤ length ins
    → length ins ≡ length outs
    → scaled mix c (take n ins) (take n outs) ++ scaled mix c (drop n ins) (drop n outs)
      ≡ scaled mix c ins outs
unfolding scaled
scaled-append mix c zero ins outs even l e = refl
scaled-append mix c (suc zero) ins outs even l e = absurd (omega arith)
scaled-append mix c (suc (suc n)) [] outs even l e = absurd (omega arith)
scaled-append mix c (suc (suc n)) (lo ∷ []) outs even l e = absurd (omega arith)
scaled-append mix c (suc (suc n)) (lo ∷ hi ∷ ins) [] even l e = absurd (omega arith)
scaled-append mix c (suc (suc n)) (lo ∷ hi ∷ ins) (o ∷ []) even l e = absurd (omega arith)
scaled-append mix c (suc (suc n)) (lo ∷ hi ∷ ins) (o ∷ p ∷ outs) even l e =
    ap (λ (t : List ℕ). put_word (mix (o + p * 256) (times_poly c (lo + hi * 256))) t)
      (scaled-append mix c n ins outs (omega arith) (omega arith) (omega arith))
