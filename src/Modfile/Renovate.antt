-- ===== src/Modfile/Renovate.antt =====
-- internal/modfile/renovate.go: the merge of the entries of a lock file by their keys. Entries that the
-- sort does not tell apart stay in the order of `out` here.
pub mod Positions
pub mod Indexed
pub mod Merged
use workspaced.Prelude.{
  ℕ, zero, suc, length, arith, refl, ap, ◌≡◌, ◌≢◌, Bool, ◌&&◌, not, Option, none, some, List, [],
  ◌∷◌, ◌++◌, map, if◌then◌else◌, Str, str_eq, trim_space, str_eq_iff, str_lt,
}
use workspaced.Prelude.GoMap
use workspaced.Prelude.GoMap.{GoMap}
use workspaced.Prelude.Sort
use workspaced.Modfile.{RenovateDependency}

unfoldable pub dependency_merge_key : RenovateDependency → Str
dependency_merge_key dep =
    let by_ref = trim_space dep.kind ++ b':' ∷ trim_space dep.ref in
    let by_name = trim_space dep.datasource ++ b':' ∷ trim_space dep.dep_name in
    if not (str_eq (trim_space dep.kind) []) && not (str_eq (trim_space dep.ref) [])
    then by_ref
    else if not (str_eq (trim_space dep.datasource) []) && not (str_eq (trim_space dep.dep_name) [])
    then by_name
    else []

-- What the loops of MergeRenovateDependencies fill: `out`, and the positions in it by key.
pub record Merging : Type 0 where
  pub out : List RenovateDependency
  pub index_by_key : GoMap ℕ

abbrev pub empty_merging : Merging
empty_merging = record { out = []; index_by_key = [] }

-- out[idx] = dep, at a position of the slice
unfoldable pub set_at : ℕ → RenovateDependency → List RenovateDependency → List RenovateDependency
set_at n dep [] = []
set_at zero dep (d ∷ ds) = dep ∷ ds
set_at (suc n) dep (d ∷ ds) = d ∷ set_at n dep ds

abbrev pub placed : Option ℕ → Str → RenovateDependency → Merging → Merging
placed (some idx) key dep m = record m { out = set_at idx dep m.out }
placed none key dep m = record {
  out = m.out ++ dep ∷ [];
  index_by_key = GoMap.put m.index_by_key key (length m.out);
}

-- The body of either loop of MergeRenovateDependencies.
unfoldable pub merge_one : Merging → RenovateDependency → Merging
unfolding set_at
merge_one m dep =
    if str_eq (dependency_merge_key dep) []
    then m
    else placed (GoMap.get m.index_by_key (dependency_merge_key dep)) (dependency_merge_key dep) dep
        m

-- Either loop.
unfoldable pub merge_into : Merging → List RenovateDependency → Merging
unfolding merge_one
merge_into m [] = m
merge_into m (dep ∷ deps) = merge_into (merge_one m dep) deps

unfoldable pub dependency_less : RenovateDependency → RenovateDependency → Bool
dependency_less a b =
    if not (str_eq a.kind b.kind)
    then str_lt a.kind b.kind
    else if not (str_eq a.ref b.ref)
    then str_lt a.ref b.ref
    else if not (str_eq a.datasource b.datasource)
    then str_lt a.datasource b.datasource
    else str_lt a.dep_name b.dep_name

unfoldable pub merge_dependencies :
    List RenovateDependency → List RenovateDependency → List RenovateDependency
unfolding merge_into dependency_less
merge_dependencies existing generated =
    Sort.sort dependency_less (merge_into (merge_into empty_merging existing) generated).out
