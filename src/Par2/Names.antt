-- ===== src/Par2/Names.antt =====
-- par2/packet.go: file names from packets and from the command line, as lists of bytes.
pub mod Clean
pub mod Defang
use par2engine.Base.{
  ℕ, ltb, leb, ◌==◌, if◌then◌else◌, not, ◌&&◌, ◌||◌, Bool, true, false, List, [], ◌∷◌, ◌++◌, map,
  Result, ok, refuse, length, get_or, ◌>>=◌, ◌>>◌,
}

abbrev pub slash : ℕ
slash = 47

abbrev pub backslash : ℕ
backslash = 92

abbrev pub colon : ℕ
colon = 58

abbrev pub dot : List ℕ
dot = 46 ∷ []

abbrev pub dot_dot : List ℕ
dot_dot = 46 ∷ 46 ∷ []

-- `NullTerminate`
unfoldable pub null_terminate : List ℕ → List ℕ
null_terminate [] = []
null_terminate (b ∷ bs) = if b == 0 then [] else b ∷ null_terminate bs

abbrev pub flat_map_bytes : (ℕ → List ℕ) → List ℕ → List ℕ
flat_map_bytes f [] = []
flat_map_bytes f (b ∷ bs) = f b ++ flat_map_bytes f bs

-- `DecodeNullPaddedASCIIString`; the replacement character takes three bytes in UTF-8.
unfoldable pub decode_name : List ℕ → List ℕ
decode_name bs =
    flat_map_bytes (λ b. if leb b 127 then b ∷ [] else 0xef ∷ 0xbf ∷ 0xbd ∷ []) (null_terminate bs)

-- Equality of strings.
unfoldable pub eq_bytes : List ℕ → List ℕ → Bool
eq_bytes [] [] = true
eq_bytes [] (y ∷ ys) = false
eq_bytes (x ∷ xs) [] = false
eq_bytes (x ∷ xs) (y ∷ ys) = x == y && eq_bytes xs ys

-- `strings.HasPrefix(s, prefix)`
unfoldable pub has_prefix : List ℕ → List ℕ → Bool
has_prefix s [] = true
has_prefix [] (y ∷ ys) = false
has_prefix (x ∷ xs) (y ∷ ys) = x == y && has_prefix xs ys

abbrev pub cons_head : ℕ → List (List ℕ) → List (List ℕ)
cons_head b [] = (b ∷ []) ∷ []
cons_head b (c ∷ cs) = (b ∷ c) ∷ cs

-- The elements of a path, between the slashes.
unfoldable pub split : List ℕ → List (List ℕ)
split [] = [] ∷ []
split (b ∷ bs) = if b == slash then [] ∷ split bs else cons_head b (split bs)

-- What `path.Clean` does with one element, given those kept so far, the last one first. It drops empty
-- elements and `.`; `..` takes the element before it away, unless there is none or that is `..` too:
-- then it goes at the front of a rooted path, and stays elsewhere.
unfoldable pub clean_element : Bool → List (List ℕ) → List ℕ → List (List ℕ)
clean_element rooted [] c =
    if eq_bytes c [] || eq_bytes c dot
    then []
    else if eq_bytes c dot_dot && rooted
    then []
    else c ∷ []
clean_element rooted (top ∷ kept) c =
    if eq_bytes c [] || eq_bytes c dot
    then top ∷ kept
    else if eq_bytes c dot_dot && not (eq_bytes top dot_dot)
    then kept
    else c ∷ top ∷ kept

unfoldable pub clean_elements : Bool → List (List ℕ) → List (List ℕ) → List (List ℕ)
clean_elements rooted kept [] = kept
clean_elements rooted kept (c ∷ cs) = clean_elements rooted (clean_element rooted kept c) cs

-- The elements kept, joined by slashes from the first.
unfoldable pub join : List (List ℕ) → List ℕ
join [] = []
join (c ∷ []) = c
join (c ∷ d ∷ kept) = join (d ∷ kept) ++ slash ∷ c

abbrev pub is_abs : List ℕ → Bool
is_abs [] = false
is_abs (b ∷ bs) = b == slash

abbrev pub or_dot : List ℕ → List ℕ
or_dot [] = dot
or_dot (b ∷ bs) = b ∷ bs

-- `path.Clean`
unfoldable pub clean : List ℕ → List ℕ
clean path =
    let kept = clean_elements (is_abs path) [] (split path) in
    if is_abs path then slash ∷ join kept else or_dot (join kept)

pub data PathError : Type 0 where
  absolute_path drive_path relative_traversal : PathError

-- `DefangPath`; on a host whose separator is the slash, `filepath.FromSlash` changes nothing.
unfoldable pub defang_path : List ℕ → Result PathError (List ℕ)
defang_path filename = do
  let normalized = map (λ b. if b == backslash then slash else b) filename
  let cleaned = clean normalized
  refuse (is_abs cleaned) absolute_path
  refuse (ltb 1 (length cleaned) && get_or cleaned 1 0 == colon) drive_path
  refuse (has_prefix cleaned dot_dot) relative_traversal
  ok cleaned
