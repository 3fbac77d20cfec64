-- ===== src/Par2/Names/Clean.antt =====
-- What `path.Clean` leaves: `..` stands at the front only.
use par2engine.Base.{
  ℕ, ◌≡◌, ◌≢◌, ◌⊎◌, inl, inr, refl, sym, ◌∙◌, ◌↔◌, arith, List, [], ◌∷◌, Bool, true, false, ◌&&◌,
  ◌||◌, not, ◌==◌, Bool-cases, if_elim, or_false,
}
use mathlib.Core.Bool.{true≢false}
use par2engine.Par2.Names.{
  slash, dot, dot_dot, eq_bytes, split, cons_head, clean_element, clean_elements,
}

pub eq_bytes_iff : (xs ys : List ℕ) → (eq_bytes xs ys ≡ true) ↔ (xs ≡ ys)
unfolding eq_bytes
eq_bytes_iff [] [] = (λ _. refl, λ _. refl)
eq_bytes_iff [] (y ∷ ys) = (λ h. cc, λ h. cc)
eq_bytes_iff (x ∷ xs) [] = (λ h. cc, λ h. cc)
eq_bytes_iff (x ∷ xs) (y ∷ ys) = ground (arith, eq_bytes_iff xs ys)

abbrev pub NoSlash : List ℕ → Type 0
NoSlash [] = Unit
NoSlash (b ∷ bs) = (b ≢ slash) × NoSlash bs

-- An element that names something: not empty, and neither `.` nor `..`.
abbrev pub IsNormal : List ℕ → Type 0
IsNormal c = NoSlash c × (c ≢ []) × (c ≢ dot) × (c ≢ dot_dot)

abbrev pub AllNormal : List (List ℕ) → Type 0
AllNormal [] = Unit
AllNormal (c ∷ cs) = IsNormal c × AllNormal cs

abbrev pub AllNoSlash : List (List ℕ) → Type 0
AllNoSlash [] = Unit
AllNoSlash (c ∷ cs) = NoSlash c × AllNoSlash cs

abbrev pub AllDots : List (List ℕ) → Type 0
AllDots [] = Unit
AllDots (c ∷ cs) = (c ≡ dot_dot) × AllDots cs

-- Normal elements over any number of `..`.
abbrev pub DotsFirst : List (List ℕ) → Type 0
DotsFirst [] = Unit
DotsFirst (c ∷ cs) = (IsNormal c × DotsFirst cs) ⊎ ((c ≡ dot_dot) × AllDots cs)

dots→DotsFirst : (cs : List (List ℕ)) → AllDots cs → DotsFirst cs
dots→DotsFirst [] h = tt
dots→DotsFirst (c ∷ cs) h = inr h

cons_head-NoSlash :
    (b : ℕ) (cs : List (List ℕ)) → b ≢ slash → AllNoSlash cs → AllNoSlash (cons_head b cs)
cons_head-NoSlash b [] h k = ((h, tt), tt)
cons_head-NoSlash b (c ∷ cs) h k = ((h, k.0), k.1)

pub split-NoSlash : (bs : List ℕ) → AllNoSlash (split bs)
unfolding split
split-NoSlash [] = (tt, tt)
split-NoSlash (b ∷ bs) =
    if_elim AllNoSlash (b == slash) (λ _. (tt, split-NoSlash bs))
      (λ other. cons_head-NoSlash b (split bs) (λ e. absurd_test b other e) (split-NoSlash bs))
  where
    absurd_test : (b : ℕ) → (b == slash) ≡ false → b ≢ slash
    absurd_test b h = ground arith

eq_bytes-false : (xs ys : List ℕ) → eq_bytes xs ys ≡ false → xs ≢ ys
eq_bytes-false xs ys h e = absurd (true≢false (sym ((eq_bytes_iff xs ys).1 e) ∙ h))

-- An element that is neither dropped nor `..`.
kept-IsNormal :
    (c : List ℕ)
    → NoSlash c
    → (eq_bytes c [] || eq_bytes c dot) ≡ false
    → eq_bytes c dot_dot ≡ false
    → IsNormal c
kept-IsNormal c k plain other =
    let (filled, named) = or_false (eq_bytes c []) (eq_bytes c dot) plain in
    (k, eq_bytes-false c [] filled, eq_bytes-false c dot named, eq_bytes-false c dot_dot other)

clean_element-DotsFirst :
    (rooted : Bool) (kept : List (List ℕ)) (c : List ℕ)
    → DotsFirst kept
    → NoSlash c
    → DotsFirst (clean_element rooted kept c)
unfolding clean_element
clean_element-DotsFirst rooted [] c h k =
    if_elim DotsFirst (eq_bytes c [] || eq_bytes c dot) (λ _. tt)
      λ plain.
        if_elim DotsFirst (eq_bytes c dot_dot && rooted) (λ _. tt)
          λ _. elim (Bool-cases (eq_bytes c dot_dot)) [
            | inl dots ↦ inr ((eq_bytes_iff c dot_dot).0 dots, tt)
            | inr other ↦ inl (kept-IsNormal c k plain other, tt)
          ]
clean_element-DotsFirst rooted (top ∷ kept) c h k =
    if_elim DotsFirst (eq_bytes c [] || eq_bytes c dot) (λ _. h)
      λ plain.
        if_elim DotsFirst (eq_bytes c dot_dot && not (eq_bytes top dot_dot))
          (λ pops. elim h [ inl (_, below) ↦ below | inr (_, dots) ↦ dots→DotsFirst kept dots ])
          λ pushes. elim (Bool-cases (eq_bytes c dot_dot)) [
            | inr other ↦ inl (kept-IsNormal c k plain other, h)
            | inl dots ↦
                let on_dots : eq_bytes top dot_dot ≡ true = stays dots pushes in
                inr (
                  (eq_bytes_iff c dot_dot).0 dots,
                  elim h [
                    | inl (normal, _) ↦ absurd (normal.3 ((eq_bytes_iff top dot_dot).0 on_dots))
                    | inr below ↦ below
                  ],
                )
          ]
  where
    stays :
        eq_bytes c dot_dot ≡ true
        → (eq_bytes c dot_dot && not (eq_bytes top dot_dot)) ≡ false
        → eq_bytes top dot_dot ≡ true
    stays h k = ground arith

pub clean_elements-DotsFirst :
    (rooted : Bool) (cs kept : List (List ℕ))
    → DotsFirst kept
    → AllNoSlash cs
    → DotsFirst (clean_elements rooted kept cs)
unfolding clean_elements
clean_elements-DotsFirst rooted [] kept h k = h
clean_elements-DotsFirst rooted (c ∷ cs) kept h k =
    clean_elements-DotsFirst rooted cs (clean_element rooted kept c)
      (clean_element-DotsFirst rooted kept c h k.0) k.1
