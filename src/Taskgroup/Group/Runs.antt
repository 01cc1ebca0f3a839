-- ===== src/Taskgroup/Group/Runs.antt =====
-- pkg/taskgroup/taskgroup.go: runs of a group as sequences of events, each a step of one goroutine.
pub mod Entries
pub mod Ready
pub mod Pools
pub mod Finished
use workspaced.Prelude.{
  ℕ, zero, suc, ◌+◌, ◌-◌, ◌≡◌, refl, subst, Bool, true, false, ◌&&◌, ◌||◌, not, Option, none, some,
  List, [], ◌∷◌, if◌then◌else◌, Str, Bool-cases, inl, inr,
}
use workspaced.Prelude.GoMap
use workspaced.Prelude.GoMap.{GoMap}
use workspaced.Taskgroup.Collection.{Pin}
use workspaced.Taskgroup.Group.{
  PoolKind, control, Limits, TaskError, Point, start, waiting, working, releasing, finishing, ended,
  TaskEntry, Group, has_slot, schedule, check_deps, dep_done, give_up, begin_work, end_work,
  give_back, finish_task,
}

-- `go` is a call of Go with the fresh id that uuid gives; `cancel` is a cancelled parent context; the
-- other events name the task whose goroutine takes a step.
pub data Event : Type 0 where
  go : Str → Str → PoolKind → List Str → Event
  check dep_ready dep_canceled take_slot slot_canceled : Str → Event
  returns : Str → Option TaskError → Event
  frees finishes : Str → Event
  cancel : Event

abbrev pub is_start : Point → Bool
is_start start = true
is_start (waiting ps) = false
is_start working = false
is_start releasing = false
is_start finishing = false
is_start ended = false

abbrev pub is_at_slot : Point → Bool
is_at_slot start = false
is_at_slot (waiting []) = true
is_at_slot (waiting (p ∷ ps)) = false
is_at_slot working = false
is_at_slot releasing = false
is_at_slot finishing = false
is_at_slot ended = false

abbrev pub is_working : Point → Bool
is_working start = false
is_working (waiting ps) = false
is_working working = true
is_working releasing = false
is_working finishing = false
is_working ended = false

abbrev pub is_releasing : Point → Bool
is_releasing start = false
is_releasing (waiting ps) = false
is_releasing working = false
is_releasing releasing = true
is_releasing finishing = false
is_releasing ended = false

abbrev pub is_finishing : Point → Bool
is_finishing start = false
is_finishing (waiting ps) = false
is_finishing working = false
is_finishing releasing = false
is_finishing finishing = true
is_finishing ended = false

abbrev pub is_control : PoolKind → Bool
is_control control = true
is_control _ = false

-- The dependency that the task waits for, and those behind it.
abbrev pub next_dep : Point → Option (Pin × List Pin)
next_dep start = none
next_dep (waiting []) = none
next_dep (waiting (p ∷ ps)) = some (p, ps)
next_dep working = none
next_dep releasing = none
next_dep finishing = none
next_dep ended = none

abbrev pub guard : Bool → Group → Option Group
guard false g = none
guard true g = some g

abbrev pub with_entry : Option TaskEntry → (TaskEntry → Option Group) → Option Group
with_entry none f = none
with_entry (some t) f = f t

abbrev pub with_dep : Option (Pin × List Pin) → (Pin → List Pin → Option Group) → Option Group
with_dep none f = none
with_dep (some (p, ps)) f = f p ps

abbrev pub is_absent : Option TaskEntry → Bool
is_absent none = true
is_absent (some t) = false

-- One step of a goroutine; `none` if it cannot take it.
unfoldable pub step : Limits → Event → Group → Option Group
unfolding schedule check_deps dep_done give_up begin_work end_work give_back finish_task has_slot
step limits (go id desc pool deps) g =
    guard (is_absent (GoMap.get g.tasks id)) (schedule id desc pool deps g)
step limits (check id) g =
    with_entry (GoMap.get g.tasks id) λ t. guard (is_start t.point) (check_deps id t g)
step limits (dep_ready id) g = with_entry (GoMap.get g.tasks id) λ t.
    with_dep (next_dep t.point)
      λ p ps. with_entry (GoMap.get g.tasks p.id) λ d. guard d.closed (dep_done id t p ps d.err g)
step limits (dep_canceled id) g =
    with_entry (GoMap.get g.tasks id)
      λ t. with_dep (next_dep t.point) λ p ps. guard g.canceled (give_up id t g)
step limits (take_slot id) g =
    with_entry (GoMap.get g.tasks id)
      λ t. guard (is_at_slot t.point && has_slot t.pool limits g.used) (begin_work id t g)
step limits (slot_canceled id) g =
    with_entry (GoMap.get g.tasks id)
      λ t. guard (is_at_slot t.point && not (is_control t.pool) && g.canceled) (give_up id t g)
step limits (returns id result) g =
    with_entry (GoMap.get g.tasks id) λ t. guard (is_working t.point) (end_work id t result g)
step limits (frees id) g =
    with_entry (GoMap.get g.tasks id) λ t. guard (is_releasing t.point) (give_back id t g)
step limits (finishes id) g =
    with_entry (GoMap.get g.tasks id) λ t. guard (is_finishing t.point) (finish_task id t g)
step limits cancel g = some (record g { canceled = true })

abbrev pub and_then : Option Group → (Group → Option Group) → Option Group
and_then none f = none
and_then (some g) f = f g

unfoldable pub run_events : Limits → List Event → Group → Option Group
run_events limits [] g = some g
run_events limits (e ∷ es) g = and_then (step limits e g) (run_events limits es)

-- A predicate of the group that a step gives, if it gives one.
abbrev pub Gives {κ} : (Group → Type κ) → Option Group → Type κ
Gives P none = Unit
Gives P (some g) = P g

module _ (P : Group → Type 0) where
  pub guard-Gives : (b : Bool) (g : Group) → (b ≡ true → P g) → Gives P (guard b g)
  guard-Gives false g h = tt
  guard-Gives true g h = h refl

  pub with_entry-Gives :
      (o : Option TaskEntry) (f : TaskEntry → Option Group)
      → ((t : TaskEntry) → o ≡ some t → Gives P (f t))
      → Gives P (with_entry o f)
  with_entry-Gives none f h = tt
  with_entry-Gives (some t) f h = h t refl

  pub with_dep-Gives :
      (o : Option (Pin × List Pin)) (f : Pin → List Pin → Option Group)
      → ((p : Pin) (ps : List Pin) → o ≡ some (p, ps) → Gives P (f p ps))
      → Gives P (with_dep o f)
  with_dep-Gives none f h = tt
  with_dep-Gives (some (p, ps)) f h = h p ps refl

  and_then-Gives :
      (o : Option Group) (f : Group → Option Group)
      → Gives P o
      → ((g : Group) → P g → Gives P (f g))
      → Gives P (and_then o f)
  and_then-Gives none f k h = tt
  and_then-Gives (some g) f k h = h g k

  -- What each step keeps, each run keeps.
  pub run-Gives :
      (limits : Limits)
      → ((e : Event) (g : Group) → P g → Gives P (step limits e g))
      → (es : List Event) (g : Group) → P g
      → Gives P (run_events limits es g)
  unfolding run_events
  run-Gives limits keep [] g h = h
  run-Gives limits keep (e ∷ es) g h =
      and_then-Gives (step limits e g) (run_events limits es) (keep e g h)
        (run-Gives limits keep es)

  pub Gives-some : (o : Option Group) (g : Group) → Gives P o → o ≡ some g → P g
  Gives-some o g h e = subst (Gives P) e h
