-- ===== src/Taskgroup/Collection/Index.antt =====
-- pkg/taskgroup/task_collection.go: the index of descriptions agrees with the live tasks.
use workspaced.Prelude.{
  arith, ◌≡◌, ◌≢◌, refl, sym, ap, subst, ◌∙◌, Bool, true, false, ◌&&◌, Option, none, some, [], ◌∷◌,
  Str, str_eq, str_eq_iff, str_eq_refl, if◌then◌else◌, Bool-cases, Option-cases, inl, inr, ◌==◌,
}
use workspaced.Prelude.GoMap
use workspaced.Prelude.GoMap.{GoMap}
use workspaced.Taskgroup.Collection.{
  TaskCollection, new_collection, add, best_of, forget, prune, waiters_of, is_id, restored,
}

-- No key is shadowed by an earlier entry.
unfoldable pub HasUniqueKeys : {V : Type 0} → GoMap V → Type 0
HasUniqueKeys [] = Unit
HasUniqueKeys ((k, v) ∷ m) = (GoMap.get m k ≡ none) × HasUniqueKeys m

put_unique : (m : GoMap Str) (k v : Str) → HasUniqueKeys m → HasUniqueKeys (GoMap.put m k v)
unfolding HasUniqueKeys GoMap.put
put_unique [] k v h = (unfold GoMap.get in refl, tt)
put_unique ((j, w) ∷ m) k v (h, hs) = elim (Bool-cases (str_eq j k)) [
  | inl e ↦ rw (e) (subst (λ k. GoMap.get m k ≡ none) ((str_eq_iff j k).0 e) h, hs)
  | inr e ↦ rw (e) (
    ground (arith, GoMap.get-put m k v j, str_eq_iff k j, str_eq_iff j k, h),
    put_unique m k v hs,
  )
]

remove_unique : (m : GoMap Str) (k : Str) → HasUniqueKeys m → HasUniqueKeys (GoMap.remove m k)
unfolding HasUniqueKeys GoMap.remove
remove_unique [] k h = tt
remove_unique ((j, w) ∷ m) k (h, hs) = elim (Bool-cases (str_eq j k)) [
  | inl e ↦ rw (e) (remove_unique m k hs)
  | inr e ↦ rw (e) (ground (arith, GoMap.get-remove m k j, h), remove_unique m k hs)
]

best_sound :
    (desc : Str) (live : GoMap Str) (id : Str)
    → HasUniqueKeys live
    → best_of desc live ≡ some id
    → GoMap.get live id ≡ some desc
unfolding HasUniqueKeys best_of GoMap.get
best_sound desc [] id h e = ground arith
best_sound desc ((j, d) ∷ live) id (h, hs) e = elim (Option-cases (best_of desc live)) [
  | inl n ↦ ground (arith, str_eq_iff d desc, str_eq_refl j)
  | inr (b, f) ↦ ground (
    arith,
    str_eq_iff d desc,
    str_eq_iff j id,
    str_eq_refl j,
    best_sound desc live id hs,
    best_sound desc live b hs f,
    f,
    h,
  )
]

best_complete :
    (desc : Str) (live : GoMap Str) (id : Str)
    → GoMap.get live id ≡ some desc
    → best_of desc live ≢ none
unfolding best_of GoMap.get
best_complete desc [] id e = ground arith
best_complete desc ((j, d) ∷ live) id e =
    ground (arith, best_complete desc live id, str_eq_iff d desc, str_eq_refl desc, str_eq_iff j id)

-- The index of descriptions and the live tasks agree: what the index has is live and has the
-- description, and the description of a live task is in the index.
pub record IsIndexed (c : TaskCollection) : Type 0 where
  pub unique : HasUniqueKeys c.by_id
  pub sound :
      (desc id : Str) → GoMap.get c.latest_by_desc desc ≡ some id → GoMap.get c.by_id id ≡ some desc
  pub complete :
      (id desc : Str) → GoMap.get c.by_id id ≡ some desc → GoMap.get c.latest_by_desc desc ≢ none

pub none-IsIndexed : IsIndexed new_collection
unfolding HasUniqueKeys GoMap.get
none-IsIndexed = record {
  unique = tt;
  sound = λ desc id e. ground (arith, e);
  complete = λ id desc e. ground (arith, e);
}

pub add-IsIndexed :
    (id desc : Str) (c : TaskCollection)
    → GoMap.get c.by_id id ≡ none
    → IsIndexed c
    → IsIndexed (add id desc c)
unfolding add
add-IsIndexed id desc c fresh h = record {
  unique = put_unique c.by_id id desc h.unique;
  sound = λ d i e. ground (
    arith,
    e,
    GoMap.get-put c.latest_by_desc desc id d,
    GoMap.get-put c.by_id id desc i,
    str_eq_iff desc d,
    str_eq_iff id i,
    str_eq_refl id,
    h.sound d i,
    fresh,
  );
  complete = λ i d e. ground (
    arith,
    e,
    GoMap.get-put c.latest_by_desc desc id d,
    GoMap.get-put c.by_id id desc i,
    str_eq_iff desc d,
    str_eq_refl desc,
    h.complete i d,
  );
}

module _ (id desc : Str) (c : TaskCollection) (here : GoMap.get c.by_id id ≡ some desc)
    (h : IsIndexed c) where
  abbrev live : GoMap Str
  live = GoMap.remove c.by_id id

  live_unique : HasUniqueKeys live
  live_unique = remove_unique c.by_id id h.unique

  restored-get :
      (o : Option Str) (d : Str)
      → GoMap.get (restored desc o (GoMap.remove c.latest_by_desc desc)) d
        ≡ (if str_eq desc d then o else GoMap.get c.latest_by_desc d)
  restored-get none d = GoMap.get-remove c.latest_by_desc desc d
  restored-get (some b) d = ground (
    arith,
    GoMap.get-put (GoMap.remove c.latest_by_desc desc) desc b d,
    GoMap.get-remove c.latest_by_desc desc d,
  )

  latest_is :
      is_id id (GoMap.get c.latest_by_desc desc) ≡ false → GoMap.get c.latest_by_desc desc ≢ some id
  latest_is n e = ground (arith, n, e, str_eq_refl id)

  some_is : {x y : Str} → some x ≡ some y → x ≡ y
  some_is {x} e = ap (λ o. elim o [ none ↦ x | some z ↦ z ]) e

  same_desc : (d i : Str) → GoMap.get c.latest_by_desc d ≡ some i → str_eq id i ≡ true → d ≡ desc
  same_desc d i e same =
      let is : id ≡ i = (str_eq_iff id i).0 same in
      let at_d : GoMap.get c.by_id id ≡ some d =
        subst (λ x. GoMap.get c.by_id x ≡ some d) (sym is) (h.sound d i e) in
      some_is (sym at_d ∙ here)

  not_id :
      is_id id (GoMap.get c.latest_by_desc desc) ≡ false
      → (d i : Str) → GoMap.get c.latest_by_desc d ≡ some i
      → str_eq id i ≢ true
  not_id n d i e same =
      let is : id ≡ i = (str_eq_iff id i).0 same in
      latest_is n (
        subst (λ x. GoMap.get c.latest_by_desc x ≡ some id) (same_desc d i e same)
          (e ∙ ap some (sym is)))

  -- Another task is the latest of the description.
  left-IsIndexed :
      is_id id (GoMap.get c.latest_by_desc desc) ≡ false → IsIndexed (record c { by_id = live })
  left-IsIndexed n = record {
    unique = live_unique;
    sound = λ d i e. ground (arith, GoMap.get-remove c.by_id id i, not_id n d i e, h.sound d i e);
    complete = λ i d e. h.complete i d (ground (arith, e, GoMap.get-remove c.by_id id i));
  }

  moved_sound :
      (d i : Str)
      → GoMap.get (restored desc (best_of desc live) (GoMap.remove c.latest_by_desc desc)) d
        ≡ some i
      → GoMap.get live i ≡ some d
  moved_sound d i e = elim (Bool-cases (str_eq desc d)) [
    | inl same ↦
        let best : best_of desc live ≡ some i =
          ground (arith, e, same, restored-get (best_of desc live) d) in
        best_sound desc live i live_unique best ∙ ap some ((str_eq_iff desc d).0 same)
    | inr other ↦
        let latest : GoMap.get c.latest_by_desc d ≡ some i =
          ground (arith, e, other, restored-get (best_of desc live) d) in
        let differs : str_eq id i ≢ true =
          λ same. ground (arith, (str_eq_iff desc d).1 (sym (same_desc d i latest same)), other) in
        ground (arith, GoMap.get-remove c.by_id id i, h.sound d i latest, differs)
  ]

  moved_complete :
      (i d : Str)
      → GoMap.get live i ≡ some d
      → GoMap.get (restored desc (best_of desc live) (GoMap.remove c.latest_by_desc desc)) d ≢ none
  moved_complete i d e gone = elim (Bool-cases (str_eq desc d)) [
    | inl same ↦
        best_complete desc live i (e ∙ ap some (sym ((str_eq_iff desc d).0 same)))
          (ground (arith, gone, same, restored-get (best_of desc live) d))
    | inr other ↦
        h.complete i d (ground (arith, e, GoMap.get-remove c.by_id id i))
          (ground (arith, gone, other, restored-get (best_of desc live) d))
  ]

  moved-IsIndexed : IsIndexed (record c {
    by_id = live;
    latest_by_desc = restored desc (best_of desc live) (GoMap.remove c.latest_by_desc desc);
  })
  moved-IsIndexed = record {
    unique = live_unique;
    sound = λ d i e. moved_sound d i e;
    complete = λ i d e. moved_complete i d e;
  }

  forget-IsIndexed : IsIndexed (forget id desc c)
  unfolding forget
  forget-IsIndexed = elim (Bool-cases (is_id id (GoMap.get c.latest_by_desc desc))) [
    | inl e ↦ rw (e) moved-IsIndexed
    | inr e ↦ rw (e) (left-IsIndexed e)
  ]

-- Pruning a task keeps the index in step with the live tasks: another live task of the description takes
-- the place of the pruned one.
pub prune-IsIndexed :
    (terminal : Str → Bool) (id : Str) (c : TaskCollection)
    → IsIndexed c
    → IsIndexed (prune terminal id c)
unfolding prune
prune-IsIndexed terminal id c h = elim (Bool-cases (terminal id && waiters_of c id == 0)) [
  | inr e ↦ rw (e) h
  | inl e ↦ elim (Option-cases (GoMap.get c.by_id id)) [
    | inl n ↦ rw (e, n) h
    | inr (desc, n) ↦ rw (e, n) (forget-IsIndexed id desc c n h)
  ]
]
