-- ===== src/Par2/Bytes/Laws.antt =====
-- Little-endian numbers and arrays of items, written and read back.
use mathlib.Core.List.{flatten}
use native.Mathlib.Nat.{pow-suc}
use par2engine.Base.{
  ℕ, zero, suc, ◌*◌, ◌/◌, ◌^◌, ◌<◌, ◌≡◌, refl, ap, ap₂, ◌∙◌, arith, List, [], ◌∷◌, ◌++◌, take, drop,
  length, length-append, length-take, length-drop, take-append-drop,
}
use par2engine.Par2.Bytes.{IsBytes, le_value, le_bytes, chunks}

pub length-le_bytes : (n v : ℕ) → length (le_bytes n v) ≡ n
unfolding le_bytes
length-le_bytes zero v = refl
length-le_bytes (suc n) v = ap suc (length-le_bytes n (v / 256))

pub le_bytes-IsBytes : (n v : ℕ) → IsBytes (le_bytes n v)
unfolding le_bytes
le_bytes-IsBytes zero v = tt
le_bytes-IsBytes (suc n) v = (omega arith, le_bytes-IsBytes n (v / 256))

pub le_value-le_bytes : (n v : ℕ) → v < 256 ^ n → le_value (le_bytes n v) ≡ v
unfolding le_value le_bytes
le_value-le_bytes zero v h = omega arith
le_value-le_bytes (suc n) v h =
    omega (arith, pow-suc 256 n, le_value-le_bytes n (v / 256) (omega (arith, pow-suc 256 n)))

pub le_value-lt : (bs : List ℕ) → IsBytes bs → le_value bs < 256 ^ length bs
unfolding le_value
le_value-lt [] h = omega arith
le_value-lt (b ∷ bs) h = omega (arith, pow-suc 256 (length bs), le_value-lt bs h.1)

pub le_bytes-le_value : (bs : List ℕ) → IsBytes bs → le_bytes (length bs) (le_value bs) ≡ bs
unfolding le_value le_bytes
le_bytes-le_value [] h = refl
le_bytes-le_value (b ∷ bs) h =
    ap₂ ◌∷◌ (omega arith) (ap (le_bytes (length bs)) (omega arith) ∙ le_bytes-le_value bs h.1)

module _ {ℓ} {A : Type ℓ} where
  pub take-append_length : (n : ℕ) (xs ys : List A) → length xs ≡ n → take n (xs ++ ys) ≡ xs
  take-append_length zero [] ys e = refl
  take-append_length zero (x ∷ xs) ys e = absurd (omega arith)
  take-append_length (suc n) [] ys e = absurd (omega arith)
  take-append_length (suc n) (x ∷ xs) ys e = ap (◌∷◌ x) (take-append_length n xs ys (omega arith))

  pub drop-append_length : (n : ℕ) (xs ys : List A) → length xs ≡ n → drop n (xs ++ ys) ≡ ys
  drop-append_length zero [] ys e = refl
  drop-append_length zero (x ∷ xs) ys e = absurd (omega arith)
  drop-append_length (suc n) [] ys e = absurd (omega arith)
  drop-append_length (suc n) (x ∷ xs) ys e = drop-append_length n xs ys (omega arith)

  pub take_all : (n : ℕ) (xs : List A) → length xs ≡ n → take n xs ≡ xs
  take_all zero [] e = refl
  take_all zero (x ∷ xs) e = absurd (omega arith)
  take_all (suc n) [] e = refl
  take_all (suc n) (x ∷ xs) e = ap (◌∷◌ x) (take_all n xs (omega arith))

pub IsBytes-append : (xs ys : List ℕ) → IsBytes xs → IsBytes ys → IsBytes (xs ++ ys)
IsBytes-append [] ys h k = k
IsBytes-append (x ∷ xs) ys h k = (h.0, IsBytes-append xs ys h.1 k)

pub IsBytes-take : (n : ℕ) (bs : List ℕ) → IsBytes bs → IsBytes (take n bs)
IsBytes-take zero bs h = tt
IsBytes-take (suc n) [] h = h
IsBytes-take (suc n) (b ∷ bs) h = (h.0, IsBytes-take n bs h.1)

pub IsBytes-drop : (n : ℕ) (bs : List ℕ) → IsBytes bs → IsBytes (drop n bs)
IsBytes-drop zero bs h = h
IsBytes-drop (suc n) [] h = h
IsBytes-drop (suc n) (b ∷ bs) h = IsBytes-drop n bs h.1

-- Every item has the size.
abbrev pub AllSized : ℕ → List (List ℕ) → Type 0
AllSized size [] = Unit
AllSized size (x ∷ xs) = (length x ≡ size) × AllSized size xs

pub chunks-flatten :
    (n size : ℕ) (items : List (List ℕ))
    → AllSized size items
    → length items ≡ n
    → chunks n size (flatten items) ≡ items
unfolding chunks flatten
chunks-flatten zero size [] h e = refl
chunks-flatten zero size (x ∷ xs) h e = absurd (omega arith)
chunks-flatten (suc n) size [] h e = absurd (omega arith)
chunks-flatten (suc n) size (x ∷ xs) h e = ap₂ ◌∷◌ (take-append_length size x (flatten xs) h.0) (
    ap (chunks n size) (drop-append_length size x (flatten xs) h.0)
    ∙ chunks-flatten n size xs h.1 (omega arith))

pub length-flatten :
    (size : ℕ) (items : List (List ℕ))
    → AllSized size items
    → length (flatten items) ≡ length items * size
unfolding flatten
length-flatten size [] h = omega arith
length-flatten size (x ∷ xs) h =
    omega (arith, length-append x (flatten xs), length-flatten size xs h.1, h.0)

pub length-chunks : (n size : ℕ) (bs : List ℕ) → length (chunks n size bs) ≡ n
unfolding chunks
length-chunks zero size bs = refl
length-chunks (suc n) size bs = ap suc (length-chunks n size (drop size bs))

pub chunks-AllSized :
    (n size : ℕ) (bs : List ℕ) → length bs ≡ n * size → AllSized size (chunks n size bs)
unfolding chunks
chunks-AllSized zero size bs e = tt
chunks-AllSized (suc n) size bs e = (
  omega (arith, length-take size bs),
  chunks-AllSized n size (drop size bs) (omega (arith, length-drop size bs)),
)

pub flatten-chunks :
    (n size : ℕ) (bs : List ℕ) → length bs ≡ n * size → flatten (chunks n size bs) ≡ bs
unfolding chunks flatten
flatten-chunks zero size [] e = refl
flatten-chunks zero size (b ∷ bs) e = absurd (omega arith)
flatten-chunks (suc n) size bs e =
    ap (◌++◌ (take size bs))
      (flatten-chunks n size (drop size bs) (omega (arith, length-drop size bs)))
    ∙ take-append-drop size bs
