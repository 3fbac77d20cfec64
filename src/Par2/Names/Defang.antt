-- ===== src/Par2/Names/Defang.antt =====
-- `DefangPath` lets no name out of the sandbox.
use par2engine.Base.{
  ℕ, ◌≡◌, ◌≢◌, ◌⊎◌, inl, inr, refl, sym, subst, ap, ◌∙◌, arith, List, [], ◌∷◌, ◌++◌, map, true,
  false, ◌&&◌, ◌==◌, Bool-cases, if◌then◌else◌, ltb, ok, length, get_or, if_elim,
}
use mathlib.Core.Bool.{true≢false, false≢true}
use par2engine.Par2.Names.{
  slash, backslash, colon, dot, dot_dot, has_prefix, split, cons_head, clean_elements, join, is_abs,
  or_dot, clean, defang_path,
}
use par2engine.Par2.Names.Clean.{
  NoSlash, AllNormal, AllDots, DotsFirst, split-NoSlash, clean_elements-DotsFirst,
}

has_prefix-append : (s t p : List ℕ) → has_prefix s p ≡ true → has_prefix (s ++ t) p ≡ true
unfolding has_prefix
has_prefix-append s t [] h = refl
has_prefix-append [] t (y ∷ ys) h = cc
has_prefix-append (x ∷ s) t (y ∷ ys) h = ground (arith, has_prefix-append s t ys)

-- The first of some `..` leads the joined path.
join-dots :
    (c : List ℕ) (cs : List (List ℕ))
    → c ≡ dot_dot
    → AllDots cs
    → has_prefix (join (c ∷ cs)) dot_dot ≡ true
unfolding join has_prefix
join-dots c [] e h = rw e
join-dots c (d ∷ cs) e h =
    has_prefix-append (join (d ∷ cs)) (slash ∷ c) dot_dot (join-dots d cs h.0 h.1)

normal_or_dots :
    (kept : List (List ℕ))
    → DotsFirst kept
    → AllNormal kept ⊎ (has_prefix (join kept) dot_dot ≡ true)
unfolding join
normal_or_dots [] h = inl tt
normal_or_dots (c ∷ []) h = elim h [
  | inl (normal, _) ↦ inl (normal, tt)
  | inr (e, below) ↦ inr (join-dots c [] e below)
]
normal_or_dots (c ∷ d ∷ kept) h = elim h [
  | inr (e, below) ↦ inr (join-dots c (d ∷ kept) e below)
  | inl (normal, below) ↦ elim (normal_or_dots (d ∷ kept) below) [
    | inl rest ↦ inl (normal, rest)
    | inr leads ↦ inr (has_prefix-append (join (d ∷ kept)) (slash ∷ c) dot_dot leads)
  ]
]

split-NoSlash_one : (c : List ℕ) → NoSlash c → split c ≡ c ∷ []
unfolding split
split-NoSlash_one [] h = refl
split-NoSlash_one (b ∷ bs) h =
    let other : (b == slash) ≡ false = ground (arith, h.0) in rw (other, split-NoSlash_one bs h.1)

cons_head-append :
    (b : ℕ) (xs ys : List (List ℕ)) → xs ≢ [] → cons_head b (xs ++ ys) ≡ cons_head b xs ++ ys
cons_head-append b [] ys h = absurd (h refl)
cons_head-append b (x ∷ xs) ys h = refl

cons_head-ne_nil : (b : ℕ) (xs : List (List ℕ)) → cons_head b xs ≢ []
cons_head-ne_nil b [] h = cc
cons_head-ne_nil b (x ∷ xs) h = cc

split-ne_nil : (bs : List ℕ) → split bs ≢ []
unfolding split
split-ne_nil [] = λ h. cc
split-ne_nil (b ∷ bs) =
    if_elim (λ (cs : List (List ℕ)). cs ≢ []) (b == slash) (λ _ h. cc)
      (λ _. cons_head-ne_nil b (split bs))

split-append : (xs c : List ℕ) → split (xs ++ slash ∷ c) ≡ split xs ++ split c
unfolding split
split-append [] c = refl
split-append (x ∷ xs) c = elim (Bool-cases (x == slash)) [
  | inl here ↦ rw (here, split-append xs c)
  | inr other ↦
      rw (other, split-append xs c) (cons_head-append x (split xs) (split c) (split-ne_nil xs))
]

AllNormal-append : (xs ys : List (List ℕ)) → AllNormal xs → AllNormal ys → AllNormal (xs ++ ys)
AllNormal-append [] ys h k = k
AllNormal-append (x ∷ xs) ys h k = (h.0, AllNormal-append xs ys h.1 k)

join-AllNormal :
    (c : List ℕ) (cs : List (List ℕ)) → AllNormal (c ∷ cs) → AllNormal (split (join (c ∷ cs)))
unfolding join
join-AllNormal c [] h = subst AllNormal (sym (split-NoSlash_one c h.0.0)) (h.0, tt)
join-AllNormal c (d ∷ cs) h =
    subst AllNormal
      (sym (
        split-append (join (d ∷ cs)) c
        ∙ ap (◌++◌ (split (join (d ∷ cs)))) (split-NoSlash_one c h.0.0)))
      (AllNormal-append (split (join (d ∷ cs))) (c ∷ []) (join-AllNormal d cs h.1) (h.0, tt))

-- Nothing kept is the path `.`.
or_dot-safe :
    (kept : List (List ℕ))
    → AllNormal kept
    → (or_dot (join kept) ≡ dot) ⊎ AllNormal (split (or_dot (join kept)))
unfolding join
or_dot-safe [] h = inl refl
or_dot-safe (c ∷ cs) h = go (join (c ∷ cs)) (join-AllNormal c cs h)
  where
    go : (bs : List ℕ) → AllNormal (split bs) → (or_dot bs ≡ dot) ⊎ AllNormal (split (or_dot bs))
    go [] h = inl refl
    go (b ∷ bs) h = inr h

kept_of : List ℕ → List (List ℕ)
kept_of path = clean_elements (is_abs path) [] (split path)

clean_relative :
    (path : List ℕ) → is_abs (clean path) ≡ false → clean path ≡ or_dot (join (kept_of path))
unfolding clean kept_of
clean_relative path h = elim (Bool-cases (is_abs path)) [
  | inr relative ↦ rw relative
  | inl rooted ↦ absurd (true≢false (sym (leads rooted) ∙ h))
]
  where
    leads : is_abs path ≡ true → is_abs (clean path) ≡ true
    leads rooted = rw (rooted, clean)

kept_of-DotsFirst : (path : List ℕ) → DotsFirst (kept_of path)
unfolding kept_of
kept_of-DotsFirst path =
    clean_elements-DotsFirst (is_abs path) (split path) [] tt (split-NoSlash path)

-- A cleaned path that is relative and does not begin with `..`.
clean-safe :
    (path : List ℕ)
    → is_abs (clean path) ≡ false
    → has_prefix (clean path) dot_dot ≡ false
    → (clean path ≡ dot) ⊎ AllNormal (split (clean path))
clean-safe path relative no_dots =
    let e = clean_relative path relative in
    subst (λ (q : List ℕ). (q ≡ dot) ⊎ AllNormal (split q)) (sym e)
      (or_dot-safe (kept_of path) (elim (normal_or_dots (kept_of path) (kept_of-DotsFirst path)) [
        | inl normal ↦ normal
        | inr leads ↦ absurd (
            true≢false (
              sym (or_dot-prefix (join (kept_of path)) leads)
              ∙ ap (λ (q : List ℕ). has_prefix q dot_dot) (sym e)
              ∙ no_dots))
      ]))
  where
    or_dot-prefix :
        (bs : List ℕ) → has_prefix bs dot_dot ≡ true → has_prefix (or_dot bs) dot_dot ≡ true
    or_dot-prefix [] h = unfold has_prefix in absurd (false≢true (unfold has_prefix in h))
    or_dot-prefix (b ∷ bs) h = h

accepted :
    (f p : List ℕ)
    → defang_path f ≡ ok p
    → (is_abs p ≡ false)
      × ((ltb 1 (length p) && get_or p 1 0 == colon) ≡ false)
      × (has_prefix p dot_dot ≡ false)
      × (clean (map (λ b. if b == backslash then slash else b) f) ≡ p)
unfolding defang_path
accepted f p run = ground arith

-- A name that cannot lead out of the directory that it is resolved in: it is relative, names no drive,
-- and is `.` or a chain of elements none of which is empty, `.` or `..`.
abbrev pub IsSafeName : List ℕ → Type 0
IsSafeName p =
    (is_abs p ≡ false)
    × ((ltb 1 (length p) && get_or p 1 0 == colon) ≡ false)
    × ((p ≡ dot) ⊎ AllNormal (split p))

-- A name that `DefangPath` accepts is safe: it is relative, has no colon in its second place, and
-- is `.` or elements between slashes none of which is empty, `.` or `..`.
pub defang_path-safe : (f p : List ℕ) → defang_path f ≡ ok p → IsSafeName p
defang_path-safe f p run =
    let (relative, drive, no_dots, e) = accepted f p run in
    (
      relative,
      drive,
      subst (λ (q : List ℕ). (q ≡ dot) ⊎ AllNormal (split q)) e
          (clean-safe (map (λ b. if b == backslash then slash else b) f) (ap is_abs e ∙ relative)
            (ap (λ (q : List ℕ). has_prefix q dot_dot) e ∙ no_dots)),
    )
