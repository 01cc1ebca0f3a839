-- ===== src/Lsp/Merge.antt =====
-- internal/lsp/merge.go: one result from those of several servers. A result is its JSON text; what
-- encoding/json makes of a text is a parameter.
use workspaced.Prelude.{
  ℕ, Bool, true, false, ◌&&◌, ◌||◌, Option, none, some, List, [], ◌∷◌, ◌++◌, ◌==◌, if◌then◌else◌,
  Str, codes, str_eq, trim_space,
}

-- `list_of` gives the flag and the items of an object that has items.
pub record Json : Type 0 where
  pub array_of : Str → Option (List Str)
  pub list_of : Str → Option (Bool × List Str)
  pub print_array : List Str → Option Str
  pub print_list : Bool → List Str → Option Str

abbrev pub is_blank : Str → Bool
is_blank r = str_eq r [] || str_eq r (codes "null")

abbrev pub starts_with : ℕ → Str → Bool
starts_with c [] = false
starts_with c (d ∷ s) = d == c

-- The results that are not null.
unfoldable pub present : List Str → List Str
present [] = []
present (r ∷ rs) = let rest = present rs in if is_blank r then rest else r ∷ rest

unfoldable pub all_arrays : List Str → Bool
unfolding trim_space
all_arrays [] = true
all_arrays (r ∷ rs) = starts_with b'[' (trim_space r) && all_arrays rs

abbrev pub items : Option (List Str) → List Str
items none = []
items (some xs) = xs

unfoldable pub concat_items : Json → List Str → List Str
concat_items json [] = []
concat_items json (r ∷ rs) = items (json.array_of r) ++ concat_items json rs

abbrev pub or_empty : Option Str → Str
or_empty none = codes "[]"
or_empty (some s) = s

unfoldable pub concat_arrays : Json → List Str → Str
unfolding concat_items
concat_arrays json rs = elim (concat_items json rs) [
  | [] ↦ codes "[]"
  | x ∷ xs ↦ or_empty (json.print_array (x ∷ xs))
]

abbrev pub both_lists :
    Option (Bool × List Str) → Option (Bool × List Str) → Option (Bool × List Str)
both_lists none m = none
both_lists (some l) none = none
both_lists (some (b, xs)) (some (c, ys)) = some (b || c, xs ++ ys)

-- The lists of completions, with their flags and items merged.
unfoldable pub merged_lists : Json → List Str → Option (Bool × List Str)
unfolding trim_space
merged_lists json [] = some (false, [])
merged_lists json (r ∷ rs) =
    let rest = both_lists (json.list_of r) (merged_lists json rs) in
    if starts_with b'{' (trim_space r) then rest else none

abbrev pub print_merged : Json → Option (Bool × List Str) → Option Str
print_merged json none = none
print_merged json (some (b, xs)) = json.print_list b xs

unfoldable pub merge_completion_lists : Json → List Str → Option Str
unfolding merged_lists
merge_completion_lists json [] = none
merge_completion_lists json (r ∷ rs) = print_merged json (merged_lists json (r ∷ rs))

abbrev pub first_or_null : List Str → Str
first_or_null [] = codes "null"
first_or_null (r ∷ rs) = r

abbrev pub or_first : List Str → Option Str → Str
or_first rs none = first_or_null rs
or_first rs (some s) = s

unfoldable pub merge_present : Json → List Str → Str
unfolding all_arrays concat_arrays merge_completion_lists
merge_present json [] = codes "null"
merge_present json (r ∷ rs) =
    let other = or_first (r ∷ rs) (merge_completion_lists json (r ∷ rs)) in
    if all_arrays (r ∷ rs) then concat_arrays json (r ∷ rs) else other

unfoldable pub merge_results : Json → List Str → Str
unfolding merge_present present
merge_results json results = merge_present json (present results)
