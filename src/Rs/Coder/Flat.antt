-- ===== src/Rs/Coder/Flat.antt =====
-- A matrix made of a list of rows.
use par2engine.Base.{
  ℕ, zero, suc, ◌+◌, ◌-◌, ◌*◌, ◌<◌, ltb, ◌≡◌, refl, sym, subst, ap, arith, List, [], ◌∷◌, ◌++◌, map,
  length, get_or, length-append, if_elim, true, false,
}
use par2engine.Gf16.Poly.{order}
use par2engine.Rs.Matrix.{Matrix, entry}
use par2engine.Rs.Matrix.Entries.{IsMatrix, get_or-append, entry-lt}
use par2engine.Rs.Coder.{flat, unit_part}

-- All items are elements of the field.
abbrev pub InField : List ℕ → Type 0
InField xs = (k : ℕ) → get_or xs k 0 < order

pub InField-append : (xs ys : List ℕ) → InField xs → InField ys → InField (xs ++ ys)
InField-append xs ys h k i =
    subst (λ (t : ℕ). t < order) (sym (get_or-append xs ys i))
      (if_elim (λ (t : ℕ). t < order) (ltb i (length xs)) (λ e. h i) (λ ne. k (i - length xs)))

-- Rows of one length, all of elements of the field.
abbrev pub AllRows : ℕ → List (List ℕ) → Type 0
AllRows c [] = Unit
AllRows c (r ∷ rs) = (length r ≡ c) × InField r × AllRows c rs

pub length-flat : (c : ℕ) (rs : List (List ℕ)) → AllRows c rs → length (flat rs) ≡ length rs * c
unfolding flat
length-flat c [] h = omega arith
length-flat c (r ∷ rs) h = omega (arith, length-append r (flat rs), h.0, length-flat c rs h.2)

InField-flat : (c : ℕ) (rs : List (List ℕ)) → AllRows c rs → InField (flat rs)
unfolding flat
InField-flat c [] h = λ k. omega arith
InField-flat c (r ∷ rs) h = InField-append r (flat rs) h.1 (InField-flat c rs h.2)

pub get_or-flat :
    (c i j : ℕ) (rs : List (List ℕ))
    → AllRows c rs
    → i < length rs
    → j < c
    → get_or (flat rs) (i * c + j) 0 ≡ get_or (get_or rs i []) j 0
unfolding flat
get_or-flat c i j [] h k l = absurd (omega arith)
get_or-flat c zero j (r ∷ rs) h k l =
    let e : 0 * c + j ≡ j = omega arith in
    let inside : ltb j (length r) ≡ true = ground (arith, h.0) in
    rw (e, get_or-append r (flat rs) j, inside)
get_or-flat c (suc i) j (r ∷ rs) h k l =
    let e : suc i * c + j ≡ c + (i * c + j) = omega arith in
    let behind : ltb (c + (i * c + j)) (length r) ≡ false = ground (arith, h.0) in
    let past : c + (i * c + j) - length r ≡ i * c + j = omega (arith, h.0) in
    rw (e, get_or-append r (flat rs) (c + (i * c + j)), behind, past)
      (get_or-flat c i j rs h.2 (omega arith) l)

-- The matrix of the rows.
abbrev pub of_rows : ℕ → List (List ℕ) → Matrix
of_rows c rs = record { rows = length rs; cols = c; elements = flat rs }

pub of_rows-IsMatrix : (c : ℕ) (rs : List (List ℕ)) → AllRows c rs → IsMatrix (of_rows c rs)
of_rows-IsMatrix c rs h = record { size = length-flat c rs h; in_field = InField-flat c rs h }

pub InField-map : (m : Matrix) (i : ℕ) (js : List ℕ) → IsMatrix m → InField (map (entry m i) js)
InField-map m i [] valid k = omega arith
InField-map m i (j ∷ js) valid zero = entry-lt m i j valid
InField-map m i (j ∷ js) valid (suc k) = InField-map m i js valid k

pub length-unit_part : (pad i j : ℕ) → length (unit_part pad i j) ≡ pad
unfolding unit_part
length-unit_part zero i j = refl
length-unit_part (suc pad) i j = ap suc (length-unit_part pad i (suc j))

pub InField-unit_part : (pad i j : ℕ) → InField (unit_part pad i j)
unfolding unit_part
InField-unit_part zero i j k = omega arith
InField-unit_part (suc pad) i j zero = ground arith
InField-unit_part (suc pad) i j (suc k) = InField-unit_part pad i (suc j) k
