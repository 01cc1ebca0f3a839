-- ===== src/Modfile/Renovate/Indexed.antt =====
-- internal/modfile/renovate.go: the index by key keeps to the slice in the loops of the merge.
use workspaced.Prelude.{
  arith, ℕ, refl, sym, ap, subst, ◌∙◌, ◌≡◌, ◌≢◌, inl, inr, Bool, true, false, Option, none, some,
  List, [], ◌∷◌, ◌++◌, length, get_elem?, if◌then◌else◌, Str, str_eq, str_eq_iff, str_eq_ne,
  str_eq_refl, Bool-cases, Option-cases,
}
use workspaced.Prelude.GoMap
use workspaced.Prelude.GoMap.{GoMap}
use workspaced.Modfile.{RenovateDependency}
use workspaced.Modfile.Renovate.{
  dependency_merge_key, Merging, set_at, placed, merge_one, merge_into,
}
use workspaced.Modfile.Renovate.Positions.{
  set_at-same, set_at-other, append-last, append-kept, append-cases, Nat-cases, some-same,
}

abbrev Dep : Type 0
Dep = RenovateDependency

-- The last entry with a key.
unfoldable pub last_with : Str → List RenovateDependency → Option RenovateDependency
last_with key [] = none
last_with key (dep ∷ deps) = elim (last_with key deps) [
  | some d ↦ some d
  | none ↦ if str_eq (dependency_merge_key dep) key then some dep else none
]

abbrev pub or_entry :
    Option RenovateDependency → Option RenovateDependency → Option RenovateDependency
or_entry none other = other
or_entry (some d) other = some d

abbrev pub at_index : List Dep → Option ℕ → Option Dep
at_index ds none = none
at_index ds (some i) = get_elem? ds i

-- The entry with a key, by the index.
abbrev pub find : Merging → Str → Option Dep
find m k = at_index m.out (GoMap.get m.index_by_key k)

-- The index has the position of each entry by its key, and nothing else.
pub record IsIndexed (m : Merging) : Type 0 where
  pub points :
      (k : Str) (i : ℕ)
      → GoMap.get m.index_by_key k ≡ some i
      → (d : Dep) × (get_elem? m.out i ≡ some d) × (dependency_merge_key d ≡ k)
  pub listed :
      (i : ℕ) (d : Dep)
      → get_elem? m.out i ≡ some d
      → (dependency_merge_key d ≢ []) × (GoMap.get m.index_by_key (dependency_merge_key d) ≡ some i)

module _ (m : Merging) (wf : IsIndexed m) (dep : Dep) (named : dependency_merge_key dep ≢ []) where
  abbrev key : Str
  key = dependency_merge_key dep

  replaced-IsIndexed :
      (idx : ℕ) → GoMap.get m.index_by_key key ≡ some idx → IsIndexed (placed (some idx) key dep m)
  replaced-IsIndexed idx at =
      let (old, there, same) = wf.points key idx at in
      record {
        points = λ k i h. elim (Nat-cases idx i) [
          | inl e ↦
              let (d, q, r) = wf.points k i h in
              let s : d ≡ old =
                some-same (get_elem? m.out i) q
                  (subst (λ j. get_elem? m.out j ≡ some old) e there) in
              (
                dep,
                subst (λ j. get_elem? (set_at idx dep m.out) j ≡ some dep) e
                    (set_at-same idx dep old m.out there),
                sym same ∙ ap dependency_merge_key (sym s) ∙ r,
              )
          | inr ne ↦ let (d, q, r) = wf.points k i h in (d, set_at-other idx i dep m.out ne ∙ q, r)
        ];
        listed = λ i d h. elim (Nat-cases idx i) [
          | inl e ↦
              let s : dep ≡ d =
                some-same (get_elem? (set_at idx dep m.out) i)
                  (subst (λ j. get_elem? (set_at idx dep m.out) j ≡ some dep) e
                    (set_at-same idx dep old m.out there))
                  h in
              subst
                (λ x.
                  (dependency_merge_key x ≢ [])
                  × (GoMap.get m.index_by_key (dependency_merge_key x) ≡ some i))
                s (named, at ∙ ap some e)
          | inr ne ↦ wf.listed i d (sym (set_at-other idx i dep m.out ne) ∙ h)
        ];
      }

  added-IsIndexed : GoMap.get m.index_by_key key ≡ none → IsIndexed (placed none key dep m)
  added-IsIndexed new = record {
    points = λ k i h. elim (Bool-cases (str_eq key k)) [
      | inl e ↦
          let h' : some (length m.out) ≡ some i =
            rw (GoMap.get-put m.index_by_key key (length m.out) k, e) at h in
          (
            dep,
            subst (λ j. get_elem? (m.out ++ dep ∷ []) j ≡ some dep) (ground (arith, h'))
                (append-last dep m.out),
            (str_eq_iff key k).0 e,
          )
      | inr ne ↦
          let (d, q, r) =
            wf.points k i (rw (GoMap.get-put m.index_by_key key (length m.out) k, ne) at h) in
          (d, append-kept i dep d m.out q, r)
    ];
    listed = λ i d h. elim (append-cases i dep d m.out h) [
      | inl k ↦
          let (ne, at) = wf.listed i d k in
          (
            ne,
            GoMap.get-put m.index_by_key key (length m.out) (dependency_merge_key d)
                ∙ rw
                    (str_eq_ne key (dependency_merge_key d)
                      (λ e. ground (arith, at, new, ap (GoMap.get m.index_by_key) e)))
                    at,
          )
      | inr (e, f) ↦
          subst
            (λ x.
              (dependency_merge_key x ≢ [])
              × (GoMap.get (GoMap.put m.index_by_key key (length m.out)) (dependency_merge_key x)
                  ≡ some i))
            (sym f)
            (
              named,
              GoMap.get-put m.index_by_key key (length m.out) key
                  ∙ rw (str_eq_refl key) (ap some (sym e)),
            )
    ];
  }

  find-replaced :
      (idx : ℕ) (k : Str)
      → GoMap.get m.index_by_key key ≡ some idx
      → find (placed (some idx) key dep m) k ≡ (if str_eq key k then some dep else find m k)
  find-replaced idx k at =
      let (old, there, same) = wf.points key idx at in
      elim (Bool-cases (str_eq key k)) [
        | inl e ↦ rw e (
            ap (at_index (set_at idx dep m.out))
              (ap (GoMap.get m.index_by_key) (sym ((str_eq_iff key k).0 e)) ∙ at)
            ∙ set_at-same idx dep old m.out there)
        | inr ne ↦ rw ne (elim (Option-cases (GoMap.get m.index_by_key k)) [
          | inl n ↦ rw n refl
          | inr (i, h) ↦
              let (d, q, r) = wf.points k i h in
              rw h (
                set_at-other idx i dep m.out (λ e.
                  let s : d ≡ old =
                    some-same (get_elem? m.out i) q
                      (subst (λ j. get_elem? m.out j ≡ some old) e there) in
                  ground (
                    arith,
                    ne,
                    (str_eq_iff key k).1 (sym same ∙ ap dependency_merge_key (sym s) ∙ r),
                  )))
        ])
      ]

  find-added :
      (k : Str)
      → GoMap.get m.index_by_key key ≡ none
      → find (placed none key dep m) k ≡ (if str_eq key k then some dep else find m k)
  find-added k new = elim (Bool-cases (str_eq key k)) [
    | inl e ↦ rw (GoMap.get-put m.index_by_key key (length m.out) k, e) (append-last dep m.out)
    | inr ne ↦
        rw (GoMap.get-put m.index_by_key key (length m.out) k, ne)
          (elim (Option-cases (GoMap.get m.index_by_key k)) [
            | inl n ↦ rw n refl
            | inr (i, h) ↦
                let (d, q, r) = wf.points k i h in rw h (append-kept i dep d m.out q ∙ sym q)
          ])
  ]

  placed-IsIndexed :
      (o : Option ℕ) → GoMap.get m.index_by_key key ≡ o → IsIndexed (placed o key dep m)
  placed-IsIndexed none q = added-IsIndexed q
  placed-IsIndexed (some idx) q = replaced-IsIndexed idx q

  find-placed :
      (o : Option ℕ) (k : Str)
      → GoMap.get m.index_by_key key ≡ o
      → find (placed o key dep m) k ≡ (if str_eq key k then some dep else find m k)
  find-placed none k q = find-added k q
  find-placed (some idx) k q = find-replaced idx k q

merge_one-IsIndexed : (m : Merging) (dep : Dep) → IsIndexed m → IsIndexed (merge_one m dep)
unfolding merge_one
merge_one-IsIndexed m dep wf = elim (Bool-cases (str_eq (dependency_merge_key dep) [])) [
  | inl e ↦ rw e wf
  | inr ne ↦ rw ne (
      placed-IsIndexed m wf dep
        (λ e. ground (arith, ne, (str_eq_iff (dependency_merge_key dep) []).1 e))
        (GoMap.get m.index_by_key (dependency_merge_key dep)) refl)
]

find-merge_one :
    (m : Merging) (dep : Dep) (k : Str)
    → IsIndexed m
    → k ≢ []
    → find (merge_one m dep) k
      ≡ (if str_eq (dependency_merge_key dep) k then some dep else find m k)
unfolding merge_one
find-merge_one m dep k wf named = elim (Bool-cases (str_eq (dependency_merge_key dep) [])) [
  | inl e ↦
      rw
        (
          e,
          str_eq_ne (dependency_merge_key dep) k
              (λ q. named (sym q ∙ (str_eq_iff (dependency_merge_key dep) []).0 e)),
        )
        refl
  | inr ne ↦ rw ne (
      find-placed m wf dep (λ e. ground (arith, ne, (str_eq_iff (dependency_merge_key dep) []).1 e))
        (GoMap.get m.index_by_key (dependency_merge_key dep)) k refl)
]

pub merge_into-IsIndexed :
    (m : Merging) (deps : List Dep) → IsIndexed m → IsIndexed (merge_into m deps)
unfolding merge_into
merge_into-IsIndexed m [] wf = wf
merge_into-IsIndexed m (dep ∷ deps) wf =
    merge_into-IsIndexed (merge_one m dep) deps (merge_one-IsIndexed m dep wf)

pub find-merge_into :
    (m : Merging) (deps : List Dep) (k : Str)
    → IsIndexed m
    → k ≢ []
    → find (merge_into m deps) k ≡ or_entry (last_with k deps) (find m k)
unfolding merge_into last_with
find-merge_into m [] k wf named = refl
find-merge_into m (dep ∷ deps) k wf named =
    find-merge_into (merge_one m dep) deps k (merge_one-IsIndexed m dep wf) named
    ∙ ap (or_entry (last_with k deps)) (find-merge_one m dep k wf named)
    ∙ last (last_with k deps) (str_eq (dependency_merge_key dep) k)
  where
    last :
        (o : Option Dep) (b : Bool)
        → or_entry o (if b then some dep else find m k)
          ≡ or_entry (elim o [ some d ↦ some d | none ↦ if b then some dep else none ]) (find m k)
    last none true = refl
    last none false = refl
    last (some d) b = refl
