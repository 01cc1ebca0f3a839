-- ===== src/Env/SearchPath.antt =====
-- pkg/driver/env/driver.go: the essential directories of the search path.
use workspaced.Prelude.{
  arith, refl, ap, sym, ◌≡◌, ◌∙◌, Bool, true, false, ◌||◌, List, [], ◌∷◌, ◌++◌, if◌then◌else◌, Str,
  str_eq, str_eq_iff, Bool-cases, inl, inr,
}

unfoldable pub is_in : Str → List Str → Bool
is_in path [] = false
is_in path (p ∷ paths) = str_eq p path || is_in path paths

-- The loop over the essential directories: those that were not seen, the last one first.
unfoldable pub missing_from : List Str → List Str → List Str → List Str
unfolding is_in
missing_from seen missing [] = missing
missing_from seen missing (p ∷ essential) =
    let skipped = missing_from seen missing essential in
    let added = missing_from (p ∷ seen) (p ∷ missing) essential in
    if is_in p seen then skipped else added

unfoldable pub merge_essential_paths : List Str → List Str → List Str
unfolding missing_from
merge_essential_paths essential existing = missing_from existing [] essential ++ existing

is_in-append :
    (path : Str) (xs ys : List Str) → is_in path (xs ++ ys) ≡ (is_in path xs || is_in path ys)
unfolding is_in
is_in-append path [] ys = refl
is_in-append path (x ∷ xs) ys = ground (arith, is_in-append path xs ys)

is_in-same :
    (p path : Str) (xs : List Str) → str_eq p path ≡ true → is_in p xs ≡ true → is_in path xs ≡ true
is_in-same p path xs e h = ap (λ q. is_in q xs) (sym ((str_eq_iff p path).0 e)) ∙ h

missing_from_keeps :
    (path : Str) (seen missing essential : List Str)
    → is_in path missing ≡ true
    → is_in path (missing_from seen missing essential) ≡ true
unfolding missing_from is_in
missing_from_keeps path seen missing [] h = h
missing_from_keeps path seen missing (p ∷ essential) h = ground (
  arith,
  missing_from_keeps path seen missing essential h,
  missing_from_keeps path (p ∷ seen) (p ∷ missing) essential (ground arith),
)

is_in-missing_from :
    (path : Str) (seen missing essential : List Str)
    → (is_in path (missing_from seen missing essential) || is_in path seen)
      ≡ (is_in path missing || is_in path essential || is_in path seen)
unfolding missing_from is_in
is_in-missing_from path seen missing [] = ground arith
is_in-missing_from path seen missing (p ∷ essential) = elim (Bool-cases (is_in p seen)) [
  | inl h ↦
      rw (h)
        (ground (arith, is_in-missing_from path seen missing essential, is_in-same p path seen))
  | inr h ↦ rw (h) (
      ground (
        arith,
        is_in-missing_from path (p ∷ seen) (p ∷ missing) essential,
        missing_from_keeps path (p ∷ seen) (p ∷ missing) essential,
      ))
]

-- The merged search path holds exactly the existing directories and the essential ones.
pub is_in-merge_essential_paths :
    (path : Str) (essential existing : List Str)
    → is_in path (merge_essential_paths essential existing)
      ≡ (is_in path essential || is_in path existing)
unfolding merge_essential_paths
is_in-merge_essential_paths path essential existing =
    is_in-append path (missing_from existing [] essential) existing
    ∙ is_in-missing_from path existing [] essential
