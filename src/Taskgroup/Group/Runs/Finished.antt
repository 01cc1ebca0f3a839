-- ===== src/Taskgroup/Group/Runs/Finished.antt =====
-- pkg/taskgroup/taskgroup.go: the errors of the tasks, and the error of the group.
use workspaced.Prelude.{
  arith, ◌≡◌, refl, sym, subst, Bool, true, false, Option, none, some, List, Str, str_eq,
  if◌then◌else◌, Bool-cases, inl, inr,
}
use workspaced.Prelude.GoMap
use workspaced.Prelude.GoMap.{GoMap}
use workspaced.Taskgroup.Collection.{Pin}
use workspaced.Taskgroup.Group.{
  ended, done, TaskEntry, TaskError, Group, Limits, new_group, schedule, check_deps, dep_done,
  give_up, begin_work, end_work, give_back, finish_task, set_error, record_error, is_unresolved,
}
use workspaced.Taskgroup.Group.Runs.{
  Event, go, check, dep_ready, dep_canceled, take_slot, slot_canceled, returns, frees, finishes,
  cancel, step, guard, Gives, guard-Gives, with_entry-Gives, with_dep-Gives, run_events, run-Gives,
  Gives-some, next_dep,
}
use workspaced.Taskgroup.Group.Runs.Entries.{OnSome, IsReady, IsSoundAt}
use workspaced.Taskgroup.Group.Runs.Ready.{reached-IsSound, found_at}

-- An error is there only if the context is cancelled.
abbrev pub IsTold : Bool → Option TaskError → Type 0
IsTold c none = Unit
IsTold c (some e) = c ≡ true

-- The errors of the tasks and of the group come with a cancelled context.
abbrev pub TellsErrors : Group → Type 0
TellsErrors g =
    ((id : Str) → OnSome (λ t. IsTold g.canceled t.err) (GoMap.get g.tasks id))
    × IsTold g.canceled g.err

IsTold-mono :
    (c c' : Bool) (o : Option TaskError) → (c ≡ true → c' ≡ true) → IsTold c o → IsTold c' o
IsTold-mono c c' none x h = tt
IsTold-mono c c' (some e) x h = x h

IsTold-true : (o : Option TaskError) → IsTold true o
IsTold-true none = tt
IsTold-true (some e) = refl

on_if :
    (P : TaskEntry → Type 0) (b : Bool) (x y : Option TaskEntry)
    → OnSome P x
    → OnSome P y
    → OnSome P (if b then x else y)
on_if P true x y h k = h
on_if P false x y h k = k

on_mono :
    (c c' : Bool) (o : Option TaskEntry)
    → (c ≡ true → c' ≡ true)
    → OnSome (λ t. IsTold c t.err) o
    → OnSome (λ t. IsTold c' t.err) o
on_mono c c' none x h = tt
on_mono c c' (some t) x h = IsTold-mono c c' t.err x h

IsTold-put :
    (m : GoMap TaskEntry) (c c' : Bool) (id : Str) (u : TaskEntry)
    → (c ≡ true → c' ≡ true)
    → ((j : Str) → OnSome (λ t. IsTold c t.err) (GoMap.get m j))
    → IsTold c' u.err
    → (j : Str) → OnSome (λ t. IsTold c' t.err) (GoMap.get (GoMap.put m id u) j)
IsTold-put m c c' id u x h k j =
    subst (OnSome (λ t. IsTold c' t.err)) (sym (GoMap.get-put m id u j))
      (on_if _ (str_eq id j) (some u) (GoMap.get m j) k (on_mono c c' (GoMap.get m j) x (h j)))

module _ (g : Group) (id : Str) (t : TaskEntry) (h : TellsErrors g)
    (e : GoMap.get g.tasks id ≡ some t) where
  own : IsTold g.canceled t.err
  own = subst (OnSome (λ t. IsTold g.canceled t.err)) e (h.0 id)

  -- The task gets an entry with its own error.
  keeps :
      (u : TaskEntry)
      → u.err ≡ t.err
      → (j : Str) → OnSome (λ t. IsTold g.canceled t.err) (GoMap.get (GoMap.put g.tasks id u) j)
  keeps u q =
      IsTold-put g.tasks g.canceled g.canceled id u (λ x. x) h.0
        (subst (IsTold g.canceled) (sym q) own)

  -- The task gets an entry with any error, and the context is cancelled.
  tells :
      (u : TaskEntry) (j : Str)
      → OnSome (λ t. IsTold true t.err) (GoMap.get (GoMap.put g.tasks id u) j)
  tells u = IsTold-put g.tasks g.canceled true id u (λ x. refl) h.0 (IsTold-true u.err)

  check_deps-tells : TellsErrors (check_deps id t g)
  unfolding check_deps record_error set_error
  check_deps-tells = elim (Bool-cases (is_unresolved t)) [
    | inl q ↦ rw (q) (tells _, IsTold-true _)
    | inr q ↦ rw (q) (keeps _ refl, h.1)
  ]

  dep_done-tells :
      (p : Pin) (ps : List Pin) (r : Option TaskError) → TellsErrors (dep_done id t p ps r g)
  unfolding dep_done record_error set_error
  dep_done-tells p ps none = (keeps _ refl, h.1)
  dep_done-tells p ps (some x) = (tells _, IsTold-true _)

  give_up-tells : g.canceled ≡ true → TellsErrors (give_up id t g)
  unfolding give_up set_error
  give_up-tells c = (IsTold-put g.tasks g.canceled g.canceled id _ (λ x. x) h.0 c, h.1)

  end_work-tells : (r : Option TaskError) → TellsErrors (end_work id t r g)
  unfolding end_work record_error set_error
  end_work-tells none = (keeps _ refl, h.1)
  end_work-tells (some x) = (tells _, IsTold-true _)

step-tells :
    (limits : Limits) (e : Event) (g : Group) → TellsErrors g → Gives TellsErrors (step limits e g)
unfolding step
step-tells limits (go id desc pool deps) g h =
    guard-Gives TellsErrors _ _
      λ a. unfold schedule in (IsTold-put g.tasks g.canceled g.canceled id _ (λ x. x) h.0 tt, h.1)
step-tells limits (check id) g h =
    with_entry-Gives TellsErrors _ _
      λ t e. guard-Gives TellsErrors _ _ λ _. check_deps-tells g id t h e
step-tells limits (dep_ready id) g h = with_entry-Gives TellsErrors _ _ λ t e.
    with_dep-Gives TellsErrors _ _ λ p ps q.
      with_entry-Gives TellsErrors (GoMap.get g.tasks p.id)
        (λ d. guard d.closed (dep_done id t p ps d.err g))
        λ d f.
          guard-Gives TellsErrors d.closed (dep_done id t p ps d.err g)
            λ _. dep_done-tells g id t h e p ps d.err
step-tells limits (dep_canceled id) g h = with_entry-Gives TellsErrors _ _ λ t e.
    with_dep-Gives TellsErrors (next_dep t.point) (λ p ps. guard g.canceled (give_up id t g))
      λ p ps q. guard-Gives TellsErrors g.canceled (give_up id t g) (give_up-tells g id t h e)
step-tells limits (take_slot id) g h =
    with_entry-Gives TellsErrors _ _
      λ t e. guard-Gives TellsErrors _ _ λ _. unfold begin_work in (keeps g id t h e _ refl, h.1)
step-tells limits (slot_canceled id) g h =
    with_entry-Gives TellsErrors _ _
      λ t e. guard-Gives TellsErrors _ _ λ c. give_up-tells g id t h e (ground (arith, c))
step-tells limits (returns id r) g h =
    with_entry-Gives TellsErrors _ _
      λ t e. guard-Gives TellsErrors _ _ λ _. end_work-tells g id t h e r
step-tells limits (frees id) g h =
    with_entry-Gives TellsErrors _ _
      λ t e. guard-Gives TellsErrors _ _ λ _. unfold give_back in (keeps g id t h e _ refl, h.1)
step-tells limits (finishes id) g h =
    with_entry-Gives TellsErrors _ _
      λ t e. guard-Gives TellsErrors _ _ λ _. unfold finish_task in (keeps g id t h e _ refl, h.1)
step-tells limits cancel g h =
    ((λ j. on_mono g.canceled true (GoMap.get g.tasks j) (λ _. refl) (h.0 j)), IsTold-true g.err)

reached-tells :
    (limits : Limits) (es : List Event) (g : Group)
    → run_events limits es new_group ≡ some g
    → TellsErrors g
unfolding GoMap.get
reached-tells limits es g =
    Gives-some TellsErrors _ g
      (run-Gives TellsErrors limits (step-tells limits) es new_group ((λ j. tt), tt))

no_error : (c : Bool) (o : Option TaskError) → c ≡ false → IsTold c o → o ≡ none
no_error c none e h = refl
no_error c (some x) e h = absurd (ground (arith, e, h))

pub quiet-none :
    (limits : Limits) (es : List Event) (g : Group)
    → run_events limits es new_group ≡ some g
    → g.canceled ≡ false
    → g.err ≡ none
quiet-none limits es g ran quiet = no_error g.canceled g.err quiet (reached-tells limits es g ran).1

-- If the context of a group was never cancelled, Wait reports no error, and each task that has
-- finished is done without an error, behind dependencies that are.
pub run-Succeeds :
    (limits : Limits) (es : List Event) (g : Group) (id : Str) (t : TaskEntry)
    → run_events limits es new_group ≡ some g
    → g.canceled ≡ false
    → GoMap.get g.tasks id ≡ some t
    → t.point ≡ ended
    → (g.err ≡ none) × (t.err ≡ none) × (t.state ≡ done) × IsReady g.tasks t
run-Succeeds limits es g id t ran quiet e fin =
    let tells = reached-tells limits es g ran in
    let n : t.err ≡ none =
      no_error g.canceled t.err quiet
        (subst (OnSome (λ t. IsTold g.canceled t.err)) e (tells.0 id)) in
    let (c, succeeded) =
      subst (λ pt. IsSoundAt g.tasks pt t) fin
        (found_at g.tasks id t (reached-IsSound limits es g ran) e) in
    let (ready, is_done) = succeeded n in (quiet-none limits es g ran quiet, n, is_done, ready)
