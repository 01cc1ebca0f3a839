-- ===== src/Taskgroup/Group/Runs/Ready.antt =====
-- pkg/taskgroup/taskgroup.go: each step keeps what is known of the tasks.
use workspaced.Prelude.{
  arith, ◌≡◌, refl, sym, subst, true, false, Option, none, some, List, [], ◌∷◌, ◌++◌, All, Str,
  All-append, append_assoc, append-nil, ◌∙◌, Bool-cases, inl, inr,
}
use workspaced.Prelude.GoMap
use workspaced.Prelude.GoMap.{GoMap}
use workspaced.Taskgroup.Collection.{Pin}
use workspaced.Taskgroup.Group.{
  Point, start, waiting, working, releasing, finishing, TaskEntry, TaskError, is_unresolved, Group,
  Limits, new_group, schedule, check_deps, dep_done, give_up, begin_work, end_work, give_back,
  finish_task, set_error, record_error,
}
use workspaced.Taskgroup.Group.Runs.{
  Event, go, check, dep_ready, dep_canceled, take_slot, slot_canceled, returns, frees, finishes,
  cancel, step, Gives, guard-Gives, with_entry-Gives, with_dep-Gives, run_events, run-Gives,
  Gives-some, is_absent, is_start, next_dep,
}
use workspaced.Taskgroup.Group.Runs.Entries.{
  IsSettled, IsReady, IsSoundAt, OnSome, IsSound, IsSoundAt-mono, IsOpen, IsSound-put, at_start,
  at_slot, at_work, at_release, at_finish, at_dep,
}

abbrev pub HasSoundTasks : Group → Type 0
HasSoundTasks g = IsSound g.tasks

absent-IsOpen : (o : Option TaskEntry) → is_absent o ≡ true → IsOpen o
absent-IsOpen none e = tt
absent-IsOpen (some t) e = absurd (ground (arith, e))

-- An entry that is replaced: what is known of the old one goes over to the new map.
replace :
    (m : GoMap TaskEntry) (id : Str) (t u : TaskEntry) (pt : Point)
    → IsSound m
    → GoMap.get m id ≡ some t
    → t.closed ≡ false
    → IsSoundAt m pt t
    → (IsSoundAt (GoMap.put m id u) pt t → IsSoundAt (GoMap.put m id u) u.point u)
    → IsSound (GoMap.put m id u)
replace m id t u pt sound e open_t old new =
    IsSound-put m id u sound (subst IsOpen (sym e) open_t)
      (λ x. new (IsSoundAt-mono m (GoMap.put m id u) pt t x old))

pub found_at :
    (m : GoMap TaskEntry) (id : Str) (t : TaskEntry)
    → IsSound m
    → GoMap.get m id ≡ some t
    → IsSoundAt m t.point t
found_at m id t sound e = subst (OnSome (λ t. IsSoundAt m t.point t)) e (sound id)

settled_more :
    (m : GoMap TaskEntry) (t : TaskEntry) (p : Pin) (ps : List Pin)
    → IsSoundAt m (waiting (p ∷ ps)) t
    → IsSettled m p
    → IsSoundAt m (waiting ps) t
settled_more m t p ps (c, n, full, (qs, e, settled)) s = (
  c,
  n,
  full,
  (
    qs ++ p ∷ [],
    e ∙ sym (append_assoc qs (p ∷ []) ps),
    All-append (IsSettled m) qs (p ∷ []) settled (s, tt),
  ),
)

settled_all : (m : GoMap TaskEntry) (t : TaskEntry) → IsSoundAt m (waiting []) t → IsReady m t
settled_all m t (c, n, full, (qs, e, settled)) =
    (full, subst (All (IsSettled m)) (sym (e ∙ append-nil qs)) settled)

module _ (g : Group) (id : Str) (t : TaskEntry) (sound : HasSoundTasks g)
    (e : GoMap.get g.tasks id ≡ some t) where
  check_deps-IsSound : is_start t.point ≡ true → HasSoundTasks (check_deps id t g)
  unfolding check_deps record_error set_error
  check_deps-IsSound s =
      let h = at_start g.tasks t t.point s (found_at g.tasks id t sound e) in
      elim (Bool-cases (is_unresolved t)) [
        | inl q ↦ rw (q) (
            replace g.tasks id t _ start sound e h.0 h
              (λ k. (k.0, λ n. absurd (ground (arith, n)))))
        | inr q ↦
            rw (q) (replace g.tasks id t _ start sound e h.0 h (λ k. (k.0, k.1, q, ([], refl, tt))))
      ]

  give_up-IsSound :
      (pt : Point) → IsSoundAt g.tasks pt t → t.closed ≡ false → HasSoundTasks (give_up id t g)
  unfolding give_up set_error
  give_up-IsSound pt h c =
      replace g.tasks id t _ pt sound e c h (λ k. (c, λ n. absurd (ground (arith, n))))

  begin_work-IsSound : IsSoundAt g.tasks (waiting []) t → HasSoundTasks (begin_work id t g)
  unfolding begin_work
  begin_work-IsSound h =
      replace g.tasks id t _ (waiting []) sound e h.0 h (λ k. (k.0, k.1, settled_all _ t k))

  end_work-IsSound :
      (r : Option TaskError) → IsSoundAt g.tasks working t → HasSoundTasks (end_work id t r g)
  unfolding end_work set_error record_error
  end_work-IsSound none h =
      replace g.tasks id t _ working sound e h.0 h (λ k. (k.0, λ n. (k.2, refl)))
  end_work-IsSound (some x) h =
      replace g.tasks id t _ working sound e h.0 h (λ k. (k.0, λ n. absurd (ground (arith, n))))

  give_back-IsSound : IsSoundAt g.tasks releasing t → HasSoundTasks (give_back id t g)
  unfolding give_back
  give_back-IsSound h = replace g.tasks id t _ releasing sound e h.0 h (λ k. k)

  finish_task-IsSound : IsSoundAt g.tasks finishing t → HasSoundTasks (finish_task id t g)
  unfolding finish_task
  finish_task-IsSound h = replace g.tasks id t _ finishing sound e h.0 h (λ k. (refl, k.1))

  dep_done-IsSound :
      (p : Pin) (ps : List Pin) (d : TaskEntry)
      → next_dep t.point ≡ some (p, ps)
      → GoMap.get g.tasks p.id ≡ some d
      → d.closed ≡ true
      → HasSoundTasks (dep_done id t p ps d.err g)
  dep_done-IsSound p ps d q found closed = by_error d.err refl
    where
      h : IsSoundAt g.tasks (waiting (p ∷ ps)) t
      h = at_dep g.tasks t t.point p ps q (found_at g.tasks id t sound e)

      by_error : (r : Option TaskError) → d.err ≡ r → HasSoundTasks (dep_done id t p ps r g)
      by_error none n =
          unfold dep_done in
          replace g.tasks id t _ (waiting ps) sound e h.0
            (settled_more g.tasks t p ps h (d, found, closed, n)) (λ k. k)
      by_error (some x) n =
          unfold dep_done record_error set_error in
          replace g.tasks id t _ (waiting (p ∷ ps)) sound e h.0 h
            (λ k. (k.0, λ n. absurd (ground (arith, n))))

step-IsSound :
    (limits : Limits) (e : Event) (g : Group)
    → HasSoundTasks g
    → Gives HasSoundTasks (step limits e g)
unfolding step
step-IsSound limits (go id desc pool deps) g s = guard-Gives HasSoundTasks _ _ λ a.
    unfold schedule in
    IsSound-put g.tasks id _ s (absent-IsOpen (GoMap.get g.tasks id) a) (λ x. (refl, refl))
step-IsSound limits (check id) g s =
    with_entry-Gives HasSoundTasks _ _
      λ t e. guard-Gives HasSoundTasks _ _ (check_deps-IsSound g id t s e)
step-IsSound limits (dep_ready id) g s = with_entry-Gives HasSoundTasks _ _ λ t e.
    with_dep-Gives HasSoundTasks _ _ λ p ps q.
      with_entry-Gives HasSoundTasks _ _
        λ d f. guard-Gives HasSoundTasks _ _ (dep_done-IsSound g id t s e p ps d q f)
step-IsSound limits (dep_canceled id) g s = with_entry-Gives HasSoundTasks _ _ λ t e.
    with_dep-Gives HasSoundTasks _ _ λ p ps q. guard-Gives HasSoundTasks _ _ λ c.
      let h = at_dep g.tasks t t.point p ps q (found_at g.tasks id t s e) in
      give_up-IsSound g id t s e (waiting (p ∷ ps)) h h.0
step-IsSound limits (take_slot id) g s = with_entry-Gives HasSoundTasks _ _ λ t e.
    guard-Gives HasSoundTasks _ _ λ c.
      begin_work-IsSound g id t s e
        (at_slot g.tasks t t.point (ground (arith, c)) (found_at g.tasks id t s e))
step-IsSound limits (slot_canceled id) g s = with_entry-Gives HasSoundTasks _ _ λ t e.
    guard-Gives HasSoundTasks _ _ λ c.
      let h = at_slot g.tasks t t.point (ground (arith, c)) (found_at g.tasks id t s e) in
      give_up-IsSound g id t s e (waiting []) h h.0
step-IsSound limits (returns id r) g s = with_entry-Gives HasSoundTasks _ _ λ t e.
    guard-Gives HasSoundTasks _ _
      λ c. end_work-IsSound g id t s e r (at_work g.tasks t t.point c (found_at g.tasks id t s e))
step-IsSound limits (frees id) g s = with_entry-Gives HasSoundTasks _ _ λ t e.
    guard-Gives HasSoundTasks _ _
      λ c. give_back-IsSound g id t s e (at_release g.tasks t t.point c (found_at g.tasks id t s e))
step-IsSound limits (finishes id) g s = with_entry-Gives HasSoundTasks _ _ λ t e.
    guard-Gives HasSoundTasks _ _ λ c.
      finish_task-IsSound g id t s e (at_finish g.tasks t t.point c (found_at g.tasks id t s e))
step-IsSound limits cancel g s = s

pub reached-IsSound :
    (limits : Limits) (es : List Event) (g : Group)
    → run_events limits es new_group ≡ some g
    → HasSoundTasks g
unfolding GoMap.get
reached-IsSound limits es g =
    Gives-some HasSoundTasks _ g
      (run-Gives HasSoundTasks limits (step-IsSound limits) es new_group (λ j. tt))

-- In whatever order the goroutines of a group take their steps: while the function of a task runs,
-- each of its dependencies was found, and has finished without an error.
pub run-IsReady :
    (limits : Limits) (es : List Event) (g : Group) (id : Str) (t : TaskEntry)
    → run_events limits es new_group ≡ some g
    → GoMap.get g.tasks id ≡ some t
    → t.point ≡ working
    → IsReady g.tasks t
run-IsReady limits es g id t ran e w =
    let sound = reached-IsSound limits es g ran in
    let (c, n, ready) = subst (λ pt. IsSoundAt g.tasks pt t) w (found_at g.tasks id t sound e) in
    ready
