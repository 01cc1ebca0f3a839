-- ===== src/Modfile/Renovate/Merged.antt =====
-- internal/modfile/renovate.go: which entries the merge keeps.
use workspaced.Prelude.{
  arith, ℕ, zero, suc, refl, sym, ap, ◌∙◌, ◌≡◌, ◌≢◌, ◌↔◌, inl, inr, Option, none, some, List, [],
  ◌∷◌, get_elem?, Str, In, All, AllPairs, Option-cases,
}
use workspaced.Prelude.GoMap
use workspaced.Prelude.GoMap.{GoMap}
use workspaced.Prelude.Sort
use workspaced.Modfile.{RenovateDependency}
use workspaced.Modfile.Renovate.{
  dependency_merge_key, dependency_less, Merging, empty_merging, merge_into, merge_dependencies,
}
use workspaced.Modfile.Renovate.Positions.{some-same}
use workspaced.Modfile.Renovate.Indexed.{
  at_index, find, IsIndexed, merge_into-IsIndexed, find-merge_into, last_with, or_entry,
}

abbrev Dep : Type 0
Dep = RenovateDependency

In-position : (d : Dep) (ds : List Dep) → In d ds → (i : ℕ) × (get_elem? ds i ≡ some d)
In-position d [] h = elim h [ ]
In-position d (x ∷ ds) (inl e) = (0, ap some (sym e))
In-position d (x ∷ ds) (inr h) = let (i, q) = In-position d ds h in (suc i, q)

position-In : (i : ℕ) (d : Dep) (ds : List Dep) → get_elem? ds i ≡ some d → In d ds
position-In i d [] h = ground (arith, h)
position-In zero d (x ∷ ds) h = inl (ground (arith, h))
position-In (suc i) d (x ∷ ds) h = inr (position-In i d ds h)

module _ (m : Merging) (wf : IsIndexed m) where
  In-find :
      (d : Dep)
      → In d m.out
      → (dependency_merge_key d ≢ []) × (find m (dependency_merge_key d) ≡ some d)
  In-find d h =
      let (i, q) = In-position d m.out h in
      let (ne, at) = wf.listed i d q in (ne, ap (at_index m.out) at ∙ q)

  find-In : (d : Dep) (k : Str) → find m k ≡ some d → In d m.out
  find-In d k h = elim (Option-cases (GoMap.get m.index_by_key k)) [
    | inl n ↦ ground (arith, rw n at h)
    | inr (i, q) ↦ position-In i d m.out (rw q at h)
  ]

-- The keys of the entries differ.
abbrev pub KeysDiffer : Dep → Dep → Type 0
KeysDiffer a b = dependency_merge_key a ≢ dependency_merge_key b

apart_rest :
    (x : Dep) (ds : List Dep)
    → ((i : ℕ) (d : Dep) → get_elem? ds i ≡ some d → KeysDiffer x d)
    → All (KeysDiffer x) ds
apart_rest x [] h = tt
apart_rest x (d ∷ ds) h = (h 0 d refl, apart_rest x ds (λ i e q. h (suc i) e q))

positions_apart :
    (ds : List Dep)
    → ((i j : ℕ) (a b : Dep)
        → get_elem? ds i ≡ some a
        → get_elem? ds j ≡ some b
        → dependency_merge_key a ≡ dependency_merge_key b
        → i ≡ j)
    → AllPairs KeysDiffer ds
positions_apart [] h = tt
positions_apart (x ∷ ds) h = (
  apart_rest x ds (λ i d q e. ground (arith, h 0 (suc i) x d refl q e)),
  positions_apart ds (λ i j a b q r e. ground (arith, h (suc i) (suc j) a b q r e)),
)

merged : List Dep → List Dep → Merging
merged existing generated = merge_into (merge_into empty_merging existing) generated

empty-IsIndexed : IsIndexed empty_merging
unfolding GoMap.get
empty-IsIndexed = record {
  points = λ k i h. ground (arith, h);
  listed = λ i d h. ground (arith, h);
}

merged-IsIndexed : (existing generated : List Dep) → IsIndexed (merged existing generated)
unfolding merged
merged-IsIndexed existing generated =
    merge_into-IsIndexed (merge_into empty_merging existing) generated
      (merge_into-IsIndexed empty_merging existing empty-IsIndexed)

or_entry-none : (o : Option Dep) → or_entry o none ≡ o
or_entry-none none = refl
or_entry-none (some d) = refl

find-merged :
    (existing generated : List Dep) (k : Str)
    → k ≢ []
    → find (merged existing generated) k ≡ or_entry (last_with k generated) (last_with k existing)
unfolding merged GoMap.get
find-merged existing generated k named =
    find-merge_into (merge_into empty_merging existing) generated k
      (merge_into-IsIndexed empty_merging existing empty-IsIndexed) named
    ∙ ap (or_entry (last_with k generated)) (
        find-merge_into empty_merging existing k empty-IsIndexed named
        ∙ or_entry-none (last_with k existing))

-- MergeRenovateDependencies returns one entry for each key, and no other: the last generated entry that has
-- the key, or the last existing one if no generated entry has it. Entries without a key are dropped.
pub merge_dependencies-entries :
    (existing generated : List RenovateDependency)
    → AllPairs KeysDiffer (merge_dependencies existing generated)
      × ((d : RenovateDependency)
          → In d (merge_dependencies existing generated) ↔ (
              (dependency_merge_key d ≢ [])
              × (or_entry
                    (last_with (dependency_merge_key d) generated)
                    (last_with (dependency_merge_key d) existing)
                  ≡ some d)))
unfolding merge_dependencies merged
merge_dependencies-entries existing generated =
    let m = merged existing generated in
    let wf = merged-IsIndexed existing generated in
    (
      Sort.sort-AllPairs dependency_less KeysDiffer (λ a b ne e. ne (sym e)) m.out
          (positions_apart m.out (λ i j a b q r e.
            some-same (GoMap.get m.index_by_key (dependency_merge_key a)) (wf.listed i a q).1
              (ap (GoMap.get m.index_by_key) e ∙ (wf.listed j b r).1))),
      λ d. (
        λ h.
            let (ne, q) = In-find m wf d (Sort.In-sort dependency_less d m.out h) in
            (ne, sym (find-merged existing generated (dependency_merge_key d) ne) ∙ q),
        λ (ne, q). Sort.In-sort_of dependency_less d m.out (
            find-In m wf d (dependency_merge_key d)
              (find-merged existing generated (dependency_merge_key d) ne ∙ q)),
      ),
    )
