-- ===== src/Rs/Matrix/Entries.antt =====
-- The operations on rows, entry by entry.
use par2engine.Base.{
  ℕ, zero, suc, ◌+◌, ◌-◌, ◌*◌, ◌≤◌, ◌<◌, ltb, if◌then◌else◌, ◌≡◌, refl, ap, ◌∙◌, ◌≢◌, arith, List,
  [], ◌∷◌, ◌++◌, take, drop, length, get_or, length-append, length-take, length-drop, ok,
}
use par2engine.Gf16.Poly.{order}
use par2engine.Rs.Matrix.{Matrix, entry, at, row, put_row}

pub get_or-append :
    (xs ys : List ℕ) (k : ℕ)
    → get_or (xs ++ ys) k 0
      ≡ (if ltb k (length xs) then get_or xs k 0 else get_or ys (k - length xs) 0)
get_or-append [] ys k = let e : k - 0 ≡ k = omega arith in rw e (ground arith)
get_or-append (x ∷ xs) ys zero = ground arith
get_or-append (x ∷ xs) ys (suc k) =
    let e : suc k - suc (length xs) ≡ k - length xs = omega arith in
    rw e (get_or-append xs ys k ∙ ground arith)

pub get_or-take : (n : ℕ) (xs : List ℕ) (k : ℕ) → k < n → get_or (take n xs) k 0 ≡ get_or xs k 0
get_or-take zero xs k h = absurd (omega arith)
get_or-take (suc n) [] k h = refl
get_or-take (suc n) (x ∷ xs) zero h = refl
get_or-take (suc n) (x ∷ xs) (suc k) h = get_or-take n xs k (omega arith)

pub get_or-drop : (n : ℕ) (xs : List ℕ) (k : ℕ) → get_or (drop n xs) k 0 ≡ get_or xs (n + k) 0
get_or-drop zero xs k = ap (λ (m : ℕ). get_or xs m 0) (omega arith)
get_or-drop (suc n) [] k = refl
get_or-drop (suc n) (x ∷ xs) k =
    let e : suc n + k ≡ suc (n + k) = omega arith in rw e (get_or-drop n xs k)

-- A part of a list, of `c` items from `p` on, written over.
splice_get :
    (p c : ℕ) (els ts : List ℕ) (k : ℕ)
    → p + c ≤ length els
    → length ts ≡ c
    → get_or (take p els ++ (ts ++ drop (p + c) els)) k 0 ≡ (
        if ltb k p
        then get_or els k 0
        else if ltb k (p + c)
        then get_or ts (k - p) 0
        else get_or els k 0)
splice_get p c els ts k room whole = ground (
  arith,
  get_or-append (take p els) (ts ++ drop (p + c) els) k,
  get_or-append ts (drop (p + c) els) (k - p),
  get_or-drop (p + c) els (k - p - c),
  get_or-take p els k,
  length-take p els,
  whole_index,
)
  where
    whole_index : p + c ≤ k → get_or els (p + c + (k - p - c)) 0 ≡ get_or els k 0
    whole_index h = ap (λ (n : ℕ). get_or els n 0) (omega arith)

-- Rows do not overlap.
pub row_end : (i n c : ℕ) → i < n → i * c + c ≤ n * c
row_end i n c h = grind arith

-- Its elements are as many as the dimensions ask for, and are elements of the field.
pub record IsMatrix (m : Matrix) : Type 0 where
  pub size : length m.elements ≡ m.rows * m.cols
  pub in_field : (k : ℕ) → get_or m.elements k 0 < order

pub entry-lt : (m : Matrix) (i j : ℕ) → IsMatrix m → entry m i j < order
entry-lt m i j valid = valid.in_field (i * m.cols + j)

pub at_lem : (m : Matrix) (i j : ℕ) → i < m.rows → j < m.cols → at m i j ≡ ok (entry m i j)
unfolding at
at_lem m i j h k = ground arith

module _ (m : Matrix) (i : ℕ) (valid : IsMatrix m) (h : i < m.rows) where
  abbrev row_of : List ℕ
  row_of = take m.cols (drop (i * m.cols) m.elements)

  pub row_lem : row m i ≡ ok (take m.cols (drop (i * m.cols) m.elements))
  unfolding row
  row_lem = ground arith

  inside : i * m.cols + m.cols ≤ length m.elements
  inside = omega (arith, valid.size, row_end i m.rows m.cols h)

  pub length-row : length (take m.cols (drop (i * m.cols) m.elements)) ≡ m.cols
  length-row = omega (
    arith,
    inside,
    length-take m.cols (drop (i * m.cols) m.elements),
    length-drop (i * m.cols) m.elements,
  )

  pub row-entry :
      (j : ℕ) → j < m.cols → get_or (take m.cols (drop (i * m.cols) m.elements)) j 0 ≡ entry m i j
  row-entry j k =
      get_or-take m.cols (drop (i * m.cols) m.elements) j k ∙ get_or-drop (i * m.cols) m.elements j

  module _ (ts : List ℕ) (whole : length ts ≡ m.cols) where
    put_row_get :
        (k : ℕ)
        → get_or (put_row m i ts).elements k 0 ≡ (
            if ltb k (i * m.cols)
            then get_or m.elements k 0
            else if ltb k (i * m.cols + m.cols)
            then get_or ts (k - i * m.cols) 0
            else get_or m.elements k 0)
    put_row_get k = splice_get (i * m.cols) m.cols m.elements ts k inside whole

    pub put_row-IsMatrix : ((k : ℕ) → get_or ts k 0 < order) → IsMatrix (put_row m i ts)
    put_row-IsMatrix small = record {
      size = omega (
        arith,
        valid.size,
        inside,
        length-append (take (i * m.cols) m.elements) (ts ++ drop (i * m.cols + m.cols) m.elements),
        length-append ts (drop (i * m.cols + m.cols) m.elements),
        length-take (i * m.cols) m.elements,
        length-drop (i * m.cols + m.cols) m.elements,
        whole,
      );
      in_field = λ k. ground (arith, put_row_get k, valid.in_field k, small (k - i * m.cols));
    }

    pub put_row-same : (j : ℕ) → j < m.cols → entry (put_row m i ts) i j ≡ get_or ts j 0
    put_row-same j l = put_row_get (i * m.cols + j) ∙ ground (arith, index)
      where
        index : get_or ts (i * m.cols + j - i * m.cols) 0 ≡ get_or ts j 0
        index = ap (λ (n : ℕ). get_or ts n 0) (omega arith)

    pub put_row-other : (r j : ℕ) → r ≢ i → j < m.cols → entry (put_row m i ts) r j ≡ entry m r j
    put_row-other r j ne l =
        put_row_get (r * m.cols + j) ∙ ground (arith, row_end r i m.cols, row_end i r m.cols)
