-- ===== src/Taskgroup/Map/Order.antt =====
-- pkg/taskgroup/map.go: the results come in the order of the items, whatever the schedule was.
use workspaced.Prelude.{
  All, AllPairs, inl, inr, arith, ◌≡◌, ◌≢◌, refl, true, false, Option, none, some, List, [], ◌∷◌,
  map, Str, str_eq_refl,
}
use workspaced.Prelude.GoMap
use workspaced.Taskgroup.Collection.{
  new_collection, pin_deps, add, release_and_prune, release_deps, prune, forget, best_of,
  waiters_of,
}
use workspaced.Taskgroup.Group.{
  canceled, failed, schedule, check_deps, give_up, set_error, finish_task, is_terminal, Group,
  control, Limits, new_group, TaskEntry, Point, ended,
}
use workspaced.Taskgroup.Group.Runs.{
  Event, run_events, step, go, check, cancel, slot_canceled, finishes, is_control,
}
use workspaced.Taskgroup.Group.Runs.Finished.{run-Succeeds, quiet-none}
use workspaced.Taskgroup.Map.Returned.{done-has_returned, results-values, has_returned}
use workspaced.Taskgroup.Map.{
  Child, results, fill, write_result, has_ended, all_ended, values, run_map, is_ended,
}

ended-point : (pt : Point) → is_ended pt ≡ true → pt ≡ ended
ended-point pt h = ground (arith, h)

module _ (limits : Limits) (es : List Event) (g : Group)
    (ran : run_events limits es new_group ≡ some g) (quiet : g.canceled ≡ false) where
  ended-has_returned :
      (id : Str) (o : Option TaskEntry)
      → GoMap.get g.tasks id ≡ o
      → has_ended o ≡ true
      → has_returned id es ≡ true
  ended-has_returned id none e h = absurd (ground (arith, h))
  ended-has_returned id (some t) e h =
      let (none_yet, n, is_over, ready) =
        run-Succeeds limits es g id t ran quiet e (ended-point t.point h) in
      elim (done-has_returned id limits es new_group g ran (rw (e, is_over) refl)) [
        | inl d ↦ unfold GoMap.get in ground (arith, d)
        | inr r ↦ r
      ]

  all_ended-has_returned :
      {T : Type 0} (cs : List (Child T))
      → all_ended g cs ≡ true
      → All (λ c. has_returned c.id es ≡ true) cs
  unfolding all_ended
  all_ended-has_returned [] h = tt
  all_ended-has_returned (c ∷ cs) h = (
    ended-has_returned c.id (GoMap.get g.tasks c.id) refl (ground (arith, h)),
    all_ended-has_returned cs (ground (arith, h)),
  )

-- Map.Run returns the values of its items in the order of the items, in whatever order the goroutines
-- of the children took their steps and wrote their results, if all of them have ended and their context was
-- never cancelled. The ids of the children differ.
pub run_map-values :
    {T U : Type 0} (value : T → U) (limits : Limits) (es : List Event) (g : Group)
    (cs : List (Child T))
    → run_events limits es new_group ≡ some g
    → g.canceled ≡ false
    → AllPairs (λ a b. a.id ≢ b.id) cs
    → all_ended g cs ≡ true
    → run_map value false g cs es ≡ values (map (λ c. some (value c.item)) cs)
unfolding run_map
run_map-values value limits es g cs ran quiet apart fin =
    let n : g.err ≡ none = quiet-none limits es g ran quiet in
    rw (n, results-values value cs es apart (all_ended-has_returned limits es g ran quiet cs fin))
      refl

-- The schedule of a child whose context ends while it waits for a slot.
abbrev pub abandoned : {T : Type 0} → Child T → List Event
abandoned c =
    go c.id c.name c.pool [] ∷ check c.id ∷ cancel ∷ slot_canceled c.id ∷ finishes c.id ∷ []

-- The group behind that schedule.
abbrev pub left_over : {T : Type 0} → Child T → Group
left_over c = record {
  tasks =
      (
        c.id,
        record {
          desc = c.name;
          pool = c.pool;
          deps = [];
          resolved_deps = [];
          state = failed;
          err = some canceled;
          closed = true;
          point = ended;
        },
      )
      ∷ [];
  live = new_collection;
  used = record { io = 0; cpu = 0; internet = 0 };
  err = none;
  canceled = true;
}

abandoned-run :
    {T : Type 0} (limits : Limits) (c : Child T)
    → is_control c.pool ≡ false
    → run_events limits (abandoned c) new_group ≡ some (left_over c)
unfolding run_events step schedule pin_deps add check_deps give_up set_error finish_task
    release_and_prune release_deps prune forget best_of waiters_of is_terminal GoMap.get GoMap.put
    GoMap.remove
abandoned-run limits c k =
    let i = str_eq_refl c.id in
    let n = str_eq_refl c.name in
    rw (i) (rw (i, k) (rw (i) (rw (i) (rw (i) (rw (n) (rw (i) refl))))))

-- A cancelled map may return as if it had succeeded: a child of a limited pool whose context ends while
-- it waits for a slot reports its error to nobody, so that Wait returns nil, and Run, if it sees the end
-- of the orchestrator first, returns the zero value of the item and no error.
pub run_map-abandoned :
    {T U : Type 0} (value : T → U) (limits : Limits) (c : Child T)
    → c.pool ≢ control
    → (g : Group) × (run_events limits (abandoned c) new_group ≡ some g)
      × (all_ended g (c ∷ []) ≡ true)
      × (run_map value false g (c ∷ []) (abandoned c) ≡ values (none ∷ []))
unfolding all_ended run_map results fill write_result GoMap.get
run_map-abandoned value limits c k =
    (left_over c, abandoned-run limits c (ground arith), rw (str_eq_refl c.id) refl, refl)
