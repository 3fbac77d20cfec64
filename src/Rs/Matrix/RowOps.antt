-- ===== src/Rs/Matrix/RowOps.antt =====
-- What the row operations change.
use Prim.Native.Nat.{bit_xor}
use par2engine.Base.{
  ℕ, zero, suc, ◌*◌, ◌/◌, ◌<◌, ◌==◌, if◌then◌else◌, ◌≡◌, refl, sym, subst, ap, ap₂, ◌∙◌, ◌≢◌, arith,
  List, [], ◌∷◌, take, drop, length, get_or, Bool-cases, inl, inr, false, ok, ==_iff,
}
use par2engine.Bits.{xor-lt}
use par2engine.Gf16.Poly.{order, times_poly}
use par2engine.Gf16.Poly.Laws.{times_poly-lt}
use par2engine.Gf16.Slice.Spec.{IsBytes, words, zip_with}
use par2engine.Gf16.Field.{FieldOps, IsFieldOps, SliceOp, StoresProducts}
use par2engine.Rs.Matrix.{
  Matrix, from_slice, entry, put_row, swap_rows, to_bytes, scale_row, add_scaled_row,
}
use par2engine.Rs.Matrix.Entries.{
  IsMatrix, row_lem, length-row, row-entry, put_row-IsMatrix, put_row-same, put_row-other,
}

-- The elements of a list are elements of the field.
abbrev pub InField : List ℕ → Type 0
InField ts = (k : ℕ) → get_or ts k 0 < order

words-to_bytes : (ts : List ℕ) → InField ts → words (to_bytes ts) ≡ ts
unfolding to_bytes
words-to_bytes [] h = refl
words-to_bytes (t ∷ ts) h = ap₂ ◌∷◌ (omega arith) (words-to_bytes ts (λ k. h (suc k)))

to_bytes-IsBytes : (ts : List ℕ) → InField ts → IsBytes (to_bytes ts)
unfolding to_bytes
to_bytes-IsBytes [] h = tt
to_bytes-IsBytes (t ∷ ts) h =
    let small = h 0 in (omega arith, (omega arith, to_bytes-IsBytes ts (λ k. h (suc k))))

length-to_bytes : (ts : List ℕ) → length (to_bytes ts) ≡ length ts * 2
unfolding to_bytes
length-to_bytes [] = refl
length-to_bytes (t ∷ ts) = omega (arith, length-to_bytes ts)

pub length-words : (bs : List ℕ) → length (words bs) ≡ length bs / 2
length-words [] = refl
length-words (b ∷ []) = refl
length-words (b ∷ c ∷ bs) = omega (arith, length-words bs)

pub zip_with-get :
    (f : ℕ → ℕ → ℕ) (xs ys : List ℕ) (k : ℕ)
    → length xs ≡ length ys
    → k < length xs
    → get_or (zip_with f xs ys) k 0 ≡ f (get_or xs k 0) (get_or ys k 0)
zip_with-get f [] ys k e h = absurd (omega arith)
zip_with-get f (x ∷ xs) [] k e h = absurd (omega arith)
zip_with-get f (x ∷ xs) (y ∷ ys) zero e h = refl
zip_with-get f (x ∷ xs) (y ∷ ys) (suc k) e h = zip_with-get f xs ys k (omega arith) (omega arith)

zip_with-InField :
    (f : ℕ → ℕ → ℕ) (xs ys : List ℕ)
    → ((x y : ℕ) → x < order → y < order → f x y < order)
    → InField xs
    → InField ys
    → InField (zip_with f xs ys)
zip_with-InField f [] ys keeps h l k = omega arith
zip_with-InField f (x ∷ xs) [] keeps h l k = omega arith
zip_with-InField f (x ∷ xs) (y ∷ ys) keeps h l zero = keeps x y (h 0) (l 0)
zip_with-InField f (x ∷ xs) (y ∷ ys) keeps h l (suc k) =
    zip_with-InField f xs ys keeps (λ n. h (suc n)) (λ n. l (suc n)) k

-- The product of a row, in the elements that a slice operation stores.
module _ (mix : ℕ → ℕ → ℕ) (op : SliceOp) (stores : StoresProducts mix op)
    (mix_small : (d r : ℕ) → d < order → r < order → mix d r < order) where
  pub row_product :
      (c : ℕ) (xs ys : List ℕ)
      → c < order
      → InField xs
      → InField ys
      → length xs ≡ length ys
      → (bs : List ℕ) × (from_slice (op c (to_bytes xs) (to_bytes ys)) ≡ ok bs)
        × (length (words bs) ≡ length ys)
        × InField (words bs)
        × ((k : ℕ)
            → k < length ys
            → get_or (words bs) k 0 ≡ mix (get_or ys k 0) (times_poly c (get_or xs k 0)))
  row_product c xs ys small h l same =
      let (bs, run, size, bytes, e) =
        stores c (to_bytes xs) (to_bytes ys) small (to_bytes-IsBytes xs h) (to_bytes-IsBytes ys l)
          (omega (arith, length-to_bytes xs, length-to_bytes ys))
          (omega (arith, length-to_bytes xs)) in
      let g = λ (v d : ℕ). mix d (times_poly c v) in
      let e' : words bs ≡ zip_with g xs ys =
        e ∙ ap₂ (zip_with g) (words-to_bytes xs h) (words-to_bytes ys l) in
      (
        bs,
        ap from_slice run,
        omega (arith, length-words bs, size, length-to_bytes ys),
        subst InField (sym e') (
            zip_with-InField g xs ys
              (λ v d p q. mix_small d (times_poly c v) q (times_poly-lt c v small)) h l),
        λ k lt. ap (λ (ts : List ℕ). get_or ts k 0) e' ∙ zip_with-get g xs ys k same (omega arith),
      )

-- The matrix `m'` is valid, has the dimensions of `m`, and its entries are those of `g`.
pub record IsChanged (m : Matrix) (g : ℕ → ℕ → ℕ) (m' : Matrix) : Type 0 where
  pub valid : IsMatrix m'
  pub rows_same : m'.rows ≡ m.rows
  pub cols_same : m'.cols ≡ m.cols
  pub entries : (r j : ℕ) → r < m.rows → j < m.cols → entry m' r j ≡ g r j

abbrev pub scaled_entry : Matrix → ℕ → ℕ → ℕ → ℕ → ℕ
scaled_entry m i c r j = if r == i then times_poly c (entry m i j) else entry m r j

abbrev pub added_entry : Matrix → ℕ → ℕ → ℕ → ℕ → ℕ → ℕ
added_entry m dest src c r j =
    if r == dest then bit_xor (entry m dest j) (times_poly c (entry m src j)) else entry m r j

abbrev pub swapped_entry : Matrix → ℕ → ℕ → ℕ → ℕ → ℕ
swapped_entry m i k r j =
    if r == k then entry m i j else if r == i then entry m k j else entry m r j

test_ne : (r i : ℕ) → (r == i) ≡ false → r ≢ i
test_ne r i h e = ground arith

put_row-IsChanged :
    (m : Matrix) (i : ℕ) (ts : List ℕ)
    → IsMatrix m
    → i < m.rows
    → length ts ≡ m.cols
    → InField ts
    → IsChanged m (λ r j. if r == i then get_or ts j 0 else entry m r j) (put_row m i ts)
put_row-IsChanged m i ts valid h whole small = record {
  valid = put_row-IsMatrix m i valid h ts whole small;
  rows_same = refl;
  cols_same = refl;
  entries = λ r j k l. elim (Bool-cases (r == i)) [
    | inl same ↦ let e = (==_iff r i).0 same in rw (same, e) (put_row-same m i valid h ts whole j l)
    | inr other ↦ rw other (put_row-other m i valid h ts whole r j (test_ne r i other) l)
  ];
}

InField-take : (n : ℕ) (ts : List ℕ) → InField ts → InField (take n ts)
InField-take zero ts h k = omega arith
InField-take (suc n) [] h k = omega arith
InField-take (suc n) (t ∷ ts) h zero = h 0
InField-take (suc n) (t ∷ ts) h (suc k) = InField-take n ts (λ m. h (suc m)) k

InField-drop : (n : ℕ) (ts : List ℕ) → InField ts → InField (drop n ts)
InField-drop zero ts h k = h k
InField-drop (suc n) [] h k = omega arith
InField-drop (suc n) (t ∷ ts) h k = InField-drop n ts (λ m. h (suc m)) k

-- An entry changed where the test holds, to what is stored there.
change :
    {m m' : Matrix} {g g' : ℕ → ℕ → ℕ}
    → IsChanged m g m'
    → ((r j : ℕ) → r < m.rows → j < m.cols → g r j ≡ g' r j)
    → IsChanged m g' m'
change c e = record {
  valid = c.valid;
  rows_same = c.rows_same;
  cols_same = c.cols_same;
  entries = λ r j h k. c.entries r j h k ∙ e r j h k;
}

module _ (m : Matrix) (valid : IsMatrix m) where
  row-InField : (i : ℕ) → InField (take m.cols (drop (i * m.cols) m.elements))
  row-InField i = InField-take m.cols _ (InField-drop (i * m.cols) m.elements valid.in_field)

  if_same : (r i a b c : ℕ) → a ≡ b → (if r == i then a else c) ≡ (if r == i then b else c)
  if_same r i a b c e = rw e

  module _ (f : FieldOps) (laws : IsFieldOps f) where
    pub scale_row_lem :
        (i c : ℕ)
        → i < m.rows
        → c < order
        → (m' : Matrix) × (scale_row f m i c ≡ ok m') × IsChanged m (scaled_entry m i c) m'
    unfolding scale_row
    scale_row_lem i c h small =
        let (bs, run, size, fits, e) =
          row_product (λ d r. r) f.mul_slice laws.mul_lem (λ d r p q. q) c _ _ small (row-InField i)
            (row-InField i) refl in
        let ts = words bs in
        (
          put_row m i ts,
          rw (row_lem m i valid h, run),
          change (put_row-IsChanged m i ts valid h (size ∙ length-row m i valid h) fits) (λ r j k l.
              if_same r i (get_or ts j 0) (times_poly c (entry m i j)) (entry m r j) (
                e j (subst (λ (n : ℕ). j < n) (sym (length-row m i valid h)) l)
                ∙ ap (times_poly c) (row-entry m i valid h j l))),
        )

    pub add_scaled_row_lem :
        (dest src c : ℕ)
        → dest < m.rows
        → src < m.rows
        → c < order
        → (m' : Matrix) × (add_scaled_row f m dest src c ≡ ok m')
          × IsChanged m (added_entry m dest src c) m'
    unfolding add_scaled_row
    add_scaled_row_lem dest src c h h' small =
        let (bs, run, size, fits, e) =
          row_product bit_xor f.mul_and_add_slice laws.mul_and_add_lem
            (λ d r p q. xor-lt 16 d r p q) c _ _ small (row-InField src) (row-InField dest)
            (length-row m src valid h' ∙ sym (length-row m dest valid h)) in
        let ts = words bs in
        (
          put_row m dest ts,
          rw (row_lem m src valid h', row_lem m dest valid h, run),
          change (put_row-IsChanged m dest ts valid h (size ∙ length-row m dest valid h) fits)
              (λ r j k l.
                if_same r dest (get_or ts j 0)
                  (bit_xor (entry m dest j) (times_poly c (entry m src j))) (entry m r j)
                  (e j (subst (λ (n : ℕ). j < n) (sym (length-row m dest valid h)) l)
                    ∙ ap₂ (λ (x y : ℕ). bit_xor x (times_poly c y)) (row-entry m dest valid h j l)
                        (row-entry m src valid h' j l))),
        )

  pub swap_rows_lem :
      (i k : ℕ)
      → i < m.rows
      → k < m.rows
      → (m' : Matrix) × (swap_rows m i k ≡ ok m') × IsChanged m (swapped_entry m i k) m'
  unfolding swap_rows
  swap_rows_lem i k h l = elim (Bool-cases (i == k)) [
    | inl same ↦ (
      m,
      rw same,
      record {
        valid = valid;
        rows_same = refl;
        cols_same = refl;
        entries = λ r j p q. let e = (==_iff i k).0 same in rw e (ground (arith, (==_iff r k).0));
      },
    )
    | inr apart ↦
        let r_i = take m.cols (drop (i * m.cols) m.elements) in
        let r_k = take m.cols (drop (k * m.cols) m.elements) in
        let first = put_row-IsChanged m i r_k valid h (length-row m k valid l) (row-InField k) in
        let second =
          put_row-IsChanged (put_row m i r_k) k r_i first.valid l (length-row m i valid h)
            (row-InField i) in
        (
          put_row (put_row m i r_k) k r_i,
          rw (apart, row_lem m i valid h, row_lem m k valid l),
          record {
            valid = second.valid;
            rows_same = refl;
            cols_same = refl;
            entries = λ r j p q.
                second.entries r j p q
                ∙ ground (
                  arith,
                  first.entries r j p q,
                  row-entry m i valid h j q,
                  row-entry m k valid l j q,
                );
          },
        )
  ]
