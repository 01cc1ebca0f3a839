-- ===== src/FilePath.antt =====
-- The functions of Go's path/filepath that the code calls, on Unix.
pub mod Clean
use mathlib.Core.List.{reverse}
use workspaced.Prelude.{
  ℕ, Bool, true, false, ◌&&◌, ◌||◌, Option, none, some, List, [], ◌∷◌, ◌++◌, ◌==◌, if◌then◌else◌,
  Str, codes, str_eq, not,
}

abbrev pub slash : ℕ
slash = b'/'

abbrev pub dot : Str
dot = b'.' ∷ []

abbrev pub dot_dot : Str
dot_dot = b'.' ∷ b'.' ∷ []

-- The texts between the slashes; there is at least one.
unfoldable pub split_slash : Str → List Str
split_slash [] = [] ∷ []
split_slash (c ∷ s) = elim (split_slash s) [
  | [] ↦ [] ∷ []
  | p ∷ ps ↦ if c == slash then [] ∷ p ∷ ps else (c ∷ p) ∷ ps
]

unfoldable pub join_slash : List Str → Str
join_slash [] = []
join_slash (p ∷ ps) = elim ps [ [] ↦ p | q ∷ qs ↦ p ++ slash ∷ join_slash ps ]

unfoldable pub is_abs : Str → Bool
is_abs [] = false
is_abs (c ∷ s) = c == slash

-- One element of the path: the second argument holds the kept elements, the last one first.
unfoldable pub clean_step : Bool → List Str → Str → List Str
clean_step rooted out seg =
    if str_eq seg [] || str_eq seg dot
    then out
    else if str_eq seg dot_dot
    then (elim out [
      | [] ↦ if rooted then [] else dot_dot ∷ []
      | d ∷ o ↦ if str_eq d dot_dot then dot_dot ∷ d ∷ o else o
    ])
    else seg ∷ out

unfoldable pub clean_segs : Bool → List Str → List Str → List Str
unfolding clean_step
clean_segs rooted out [] = reverse out
clean_segs rooted out (seg ∷ segs) = clean_segs rooted (clean_step rooted out seg) segs

unfoldable pub finish : Bool → List Str → Str
unfolding join_slash
finish true segs = slash ∷ join_slash segs
finish false [] = dot
finish false (p ∷ ps) = join_slash (p ∷ ps)

-- filepath.Clean
unfoldable pub clean : Str → Str
unfolding clean_segs finish split_slash is_abs
clean s = finish (is_abs s) (clean_segs (is_abs s) [] (split_slash s))

-- filepath.Join of two elements
unfoldable pub join : Str → Str → Str
unfolding clean
join a b = if str_eq a [] then (if str_eq b [] then [] else clean b) else clean (a ++ slash ∷ b)

-- The path up to its last slash, that slash included.
unfoldable pub upto_last_slash : Str → Str
upto_last_slash [] = []
upto_last_slash (c ∷ s) = elim (upto_last_slash s) [
  | [] ↦ if c == slash then c ∷ [] else []
  | d ∷ t ↦ c ∷ d ∷ t
]

-- filepath.Dir
unfoldable pub dir : Str → Str
unfolding clean upto_last_slash
dir p = clean (upto_last_slash p)

-- The elements of a cleaned path, from its split; "." and "/" have none.
unfoldable pub elements_of : Str → List Str → List Str
unfolding is_abs
elements_of s [] = []
elements_of s (p ∷ ps) =
    if str_eq s dot || str_eq s (slash ∷ []) then [] else if is_abs s then ps else p ∷ ps

unfoldable pub elements : Str → List Str
elements s = elements_of s (split_slash s)

unfoldable pub ups : List Str → List Str → List Str
ups [] ts = ts
ups (b ∷ bs) ts = dot_dot ∷ ups bs ts

-- What is left of both behind their common elements, made relative. `none` is Rel's error.
unfoldable pub rel_segs : List Str → List Str → Option (List Str)
unfolding ups
rel_segs [] ts = some ts
rel_segs (b ∷ bs) [] = if str_eq (join_slash (b ∷ bs)) dot_dot then none else some (ups (b ∷ bs) [])
rel_segs (b ∷ bs) (t ∷ ts) =
    let rest = rel_segs bs ts in
    if str_eq b t
    then rest
    else if str_eq (join_slash (b ∷ bs)) dot_dot
    then none
    else some (ups (b ∷ bs) (t ∷ ts))

abbrev pub or_dot : List Str → Str
or_dot [] = dot
or_dot (p ∷ ps) = join_slash (p ∷ ps)

-- filepath.Rel of cleaned paths
unfoldable pub rel_clean : Str → Str → Option Str
unfolding is_abs
rel_clean b t =
    if str_eq b t
    then some dot
    else if is_abs b && is_abs t || not (is_abs b) && not (is_abs t)
    then (elim (rel_segs (elements b) (elements t)) [ none ↦ none | some r ↦ some (or_dot r) ])
    else none

-- filepath.Rel
unfoldable pub rel : Str → Str → Option Str
rel base targ = rel_clean (clean base) (clean targ)
