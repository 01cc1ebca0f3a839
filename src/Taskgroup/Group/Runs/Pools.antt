-- ===== src/Taskgroup/Group/Runs/Pools.antt =====
-- pkg/taskgroup/taskgroup.go: the slots in use are those of the tasks at work, within the limits.
use workspaced.Prelude.{
  arith, ℕ, ◌+◌, ◌-◌, ◌≤◌, ◌<◌, ◌≡◌, ◌≢◌, refl, sym, Bool, true, false, ◌&&◌, Option, none, some,
  List, [], ◌∷◌, Str, ◌==◌, if◌then◌else◌, Bool-cases, inl, inr,
}
use workspaced.Prelude.GoMap
use workspaced.Prelude.GoMap.{GoMap}
use workspaced.Taskgroup.Collection.{Pin, pin_deps}
use workspaced.Taskgroup.Group.{
  PoolKind, control, io, cpu, internet, Point, start, waiting, working, releasing, finishing, ended,
  TaskEntry, TaskError, Group, Limits, slots, new_task, new_group, schedule, check_deps, dep_done,
  give_up, begin_work, end_work, give_back, finish_task, set_error, record_error, has_slot, acquire,
  release, is_unresolved,
}
use workspaced.Taskgroup.Group.Runs.{
  Event, go, check, dep_ready, dep_canceled, take_slot, slot_canceled, returns, frees, finishes,
  cancel, step, guard, Gives, guard-Gives, with_entry-Gives, with_dep-Gives, run_events, run-Gives,
  Gives-some, is_absent, is_start, next_dep, is_at_slot, is_working, is_releasing, is_finishing,
}

abbrev pub rank : PoolKind → ℕ
rank control = 0
rank io = 1
rank cpu = 2
rank internet = 3

abbrev pub has_slot_at : Point → Bool
has_slot_at start = false
has_slot_at (waiting ps) = false
has_slot_at working = true
has_slot_at releasing = true
has_slot_at finishing = false
has_slot_at ended = false

unfoldable pub holds : PoolKind → TaskEntry → ℕ
holds k t = if has_slot_at t.point && rank t.pool == rank k then 1 else 0

-- How many tasks hold a slot of a pool.
unfoldable pub holders : PoolKind → GoMap TaskEntry → ℕ
holders k [] = 0
holders k ((id, t) ∷ m) = holds k t + holders k m

holds_old : PoolKind → Option TaskEntry → ℕ
holds_old k none = 0
holds_old k (some t) = holds k t

holders-put :
    (k : PoolKind) (m : GoMap TaskEntry) (id : Str) (u : TaskEntry)
    → holders k (GoMap.put m id u) + holds_old k (GoMap.get m id) ≡ holders k m + holds k u
unfolding holders GoMap.put GoMap.get holds_old
holders-put k [] id u = omega arith
holders-put k ((j, t) ∷ m) id u = ground (arith, holders-put k m id u)

-- For each pool with slots.
abbrev pub CountsSlots : Limits → Group → Type 0
CountsSlots limits g =
    (k : PoolKind)
    → k ≢ control
    → (slots k g.used ≡ holders k g.tasks) × (slots k g.used ≤ slots k limits)

-- A step that leaves the slots, and the holding of the task that it replaces.
same_slots :
    (limits : Limits) (g : Group) (id : Str) (t u : TaskEntry) (used : Limits)
    → CountsSlots limits g
    → GoMap.get g.tasks id ≡ some t
    → ((k : PoolKind)
        → k ≢ control
        → (slots k used + holds k t ≡ slots k g.used + holds k u) × (slots k used ≤ slots k limits))
    → (k : PoolKind) → k ≢ control
    → (slots k used ≡ holders k (GoMap.put g.tasks id u)) × (slots k used ≤ slots k limits)
unfolding holds_old
same_slots limits g id t u used c e change k ne =
    let put : holders k (GoMap.put g.tasks id u) + holds k t ≡ holders k g.tasks + holds k u =
      rw (e) at (holders-put k g.tasks id u) in
    (omega (arith, put, (c k ne).0, (change k ne).0), (change k ne).1)

acquire-slots :
    (p k : PoolKind) (used : Limits)
    → k ≢ control
    → slots k (acquire p used) ≡ slots k used + (if rank p == rank k then 1 else 0)
unfolding acquire
acquire-slots p k used ne = ground arith

release-slots :
    (p k : PoolKind) (used : Limits)
    → k ≢ control
    → slots k (release p used) ≡ slots k used - (if rank p == rank k then 1 else 0)
unfolding release
release-slots p k used ne = ground arith

has_slot-below :
    (p k : PoolKind) (limits used : Limits)
    → has_slot p limits used ≡ true
    → k ≢ control
    → rank p ≡ rank k
    → slots k used < slots k limits
unfolding has_slot
has_slot-below p k limits used h ne e = ground arith

holds-le-holders :
    (k : PoolKind) (m : GoMap TaskEntry) (id : Str) → holds_old k (GoMap.get m id) ≤ holders k m
unfolding holders GoMap.get holds_old
holds-le-holders k [] id = omega arith
holds-le-holders k ((j, t) ∷ m) id = ground (arith, holds-le-holders k m id)

at_slot-free : (pt : Point) → is_at_slot pt ≡ true → has_slot_at pt ≡ false
at_slot-free pt e = ground arith

start-free : (pt : Point) → is_start pt ≡ true → has_slot_at pt ≡ false
start-free pt e = ground arith

dep-free :
    (pt : Point) (p : Pin) (ps : List Pin) → next_dep pt ≡ some (p, ps) → has_slot_at pt ≡ false
dep-free pt p ps e = ground arith

working-held : (pt : Point) → is_working pt ≡ true → has_slot_at pt ≡ true
working-held pt e = ground arith

releasing-held : (pt : Point) → is_releasing pt ≡ true → has_slot_at pt ≡ true
releasing-held pt e = ground arith

finishing-free : (pt : Point) → is_finishing pt ≡ true → has_slot_at pt ≡ false
finishing-free pt e = ground arith

module _ (limits : Limits) (g : Group) (id : Str) (t : TaskEntry) (c : CountsSlots limits g)
    (e : GoMap.get g.tasks id ≡ some t) where
  held-le-used : (k : PoolKind) → k ≢ control → holds k t ≤ slots k g.used
  unfolding holds_old
  held-le-used k ne =
      let bound : holds k t ≤ holders k g.tasks = rw (e) at (holds-le-holders k g.tasks id) in
      omega (arith, bound, (c k ne).0)

  -- The slots stay, and so does what the task holds.
  unmoved :
      (u : TaskEntry)
      → u.pool ≡ t.pool
      → has_slot_at u.point ≡ has_slot_at t.point
      → CountsSlots limits (record g { tasks = GoMap.put g.tasks id u })
  unfolding holds
  unmoved u p h =
      same_slots limits g id t u g.used c e λ k ne. (rw (p, h) (omega arith), (c k ne).1)

  begin_work-counts :
      has_slot_at t.point ≡ false
      → has_slot t.pool limits g.used ≡ true
      → CountsSlots limits (begin_work id t g)
  unfolding begin_work holds
  begin_work-counts f h = same_slots limits g id t _ (acquire t.pool g.used) c e λ k ne. ground (
    arith,
    f,
    acquire-slots t.pool k g.used ne,
    has_slot-below t.pool k limits g.used h ne,
    (c k ne).1,
  )

  give_back-counts : has_slot_at t.point ≡ true → CountsSlots limits (give_back id t g)
  unfolding give_back holds
  give_back-counts f =
      same_slots limits g id t _ (release t.pool g.used) c e
        λ k ne. ground (arith, f, release-slots t.pool k g.used ne, held-le-used k ne, (c k ne).1)

  check_deps-counts : has_slot_at t.point ≡ false → CountsSlots limits (check_deps id t g)
  unfolding check_deps record_error set_error
  check_deps-counts f = elim (Bool-cases (is_unresolved t)) [
    | inl q ↦ rw (q) (unmoved _ refl (sym f))
    | inr q ↦ rw (q) (unmoved _ refl (sym f))
  ]

  dep_done-counts :
      (p : Pin) (ps : List Pin) (r : Option TaskError)
      → has_slot_at t.point ≡ false
      → CountsSlots limits (dep_done id t p ps r g)
  unfolding dep_done record_error set_error
  dep_done-counts p ps none f = unmoved _ refl (sym f)
  dep_done-counts p ps (some x) f = unmoved _ refl (sym f)

  give_up-counts : has_slot_at t.point ≡ false → CountsSlots limits (give_up id t g)
  unfolding give_up set_error
  give_up-counts f = unmoved _ refl (sym f)

  end_work-counts :
      (r : Option TaskError) → has_slot_at t.point ≡ true → CountsSlots limits (end_work id t r g)
  unfolding end_work set_error record_error
  end_work-counts none f = unmoved _ refl (sym f)
  end_work-counts (some x) f = unmoved _ refl (sym f)

  finish_task-counts : has_slot_at t.point ≡ false → CountsSlots limits (finish_task id t g)
  unfolding finish_task
  finish_task-counts f = unmoved _ refl (sym f)

absent-holds : (k : PoolKind) (o : Option TaskEntry) → is_absent o ≡ true → holds_old k o ≡ 0
unfolding holds_old
absent-holds k o a = ground arith

new-holds :
    (k : PoolKind) (desc : Str) (pool : PoolKind) (deps : List Str) (pins : List Pin)
    → holds k (new_task desc pool deps pins) ≡ 0
unfolding holds
new-holds k desc pool deps pins = refl

schedule-counts :
    (limits : Limits) (g : Group) (id desc : Str) (pool : PoolKind) (deps : List Str)
    → CountsSlots limits g
    → is_absent (GoMap.get g.tasks id) ≡ true
    → CountsSlots limits (schedule id desc pool deps g)
unfolding schedule
schedule-counts limits g id desc pool deps c a k ne =
    let t = new_task desc pool deps (pin_deps deps g.live).0 in
    (
      omega (
        arith,
        holders-put k g.tasks id t,
        absent-holds k (GoMap.get g.tasks id) a,
        (c k ne).0,
        new-holds k desc pool deps (pin_deps deps g.live).0,
      ),
      (c k ne).1,
    )

step-counts :
    (limits : Limits) (e : Event) (g : Group)
    → CountsSlots limits g
    → Gives (CountsSlots limits) (step limits e g)
unfolding step
step-counts limits (go id desc pool deps) g c =
    guard-Gives (CountsSlots limits) _ _ (schedule-counts limits g id desc pool deps c)
step-counts limits (check id) g c = with_entry-Gives (CountsSlots limits) _ _ λ t e.
    guard-Gives (CountsSlots limits) _ _
      λ q. check_deps-counts limits g id t c e (start-free t.point q)
step-counts limits (dep_ready id) g c = with_entry-Gives (CountsSlots limits) _ _ λ t e.
    with_dep-Gives (CountsSlots limits) _ _ λ p ps q.
      with_entry-Gives (CountsSlots limits) (GoMap.get g.tasks p.id)
        (λ d. guard d.closed (dep_done id t p ps d.err g))
        λ d f.
          guard-Gives (CountsSlots limits) d.closed (dep_done id t p ps d.err g)
            λ _. dep_done-counts limits g id t c e p ps d.err (dep-free t.point p ps q)
step-counts limits (dep_canceled id) g c = with_entry-Gives (CountsSlots limits) _ _ λ t e.
    with_dep-Gives (CountsSlots limits) _ _ λ p ps q.
      guard-Gives (CountsSlots limits) _ _
        λ _. give_up-counts limits g id t c e (dep-free t.point p ps q)
step-counts limits (take_slot id) g c = with_entry-Gives (CountsSlots limits) _ _ λ t e.
    guard-Gives (CountsSlots limits) _ _ λ q.
      begin_work-counts limits g id t c e (at_slot-free t.point (ground (arith, q)))
        (ground (arith, q))
step-counts limits (slot_canceled id) g c = with_entry-Gives (CountsSlots limits) _ _ λ t e.
    guard-Gives (CountsSlots limits) _ _
      λ q. give_up-counts limits g id t c e (at_slot-free t.point (ground (arith, q)))
step-counts limits (returns id r) g c = with_entry-Gives (CountsSlots limits) _ _ λ t e.
    guard-Gives (CountsSlots limits) _ _
      λ q. end_work-counts limits g id t c e r (working-held t.point q)
step-counts limits (frees id) g c = with_entry-Gives (CountsSlots limits) _ _ λ t e.
    guard-Gives (CountsSlots limits) _ _
      λ q. give_back-counts limits g id t c e (releasing-held t.point q)
step-counts limits (finishes id) g c = with_entry-Gives (CountsSlots limits) _ _ λ t e.
    guard-Gives (CountsSlots limits) _ _
      λ q. finish_task-counts limits g id t c e (finishing-free t.point q)
step-counts limits cancel g c = c

-- In whatever order the goroutines take their steps, the slots in use of a limited pool are as many as
-- the tasks that hold one, and no more than its limit.
pub run-counts :
    (limits : Limits) (es : List Event) (g : Group) (k : PoolKind)
    → run_events limits es new_group ≡ some g
    → k ≢ control
    → (slots k g.used ≡ holders k g.tasks) × (slots k g.used ≤ slots k limits)
unfolding holders
run-counts limits es g k ran ne =
    Gives-some (CountsSlots limits) _ g
      (run-Gives (CountsSlots limits) limits (step-counts limits) es new_group
        (λ k ne. ground arith))
      ran k ne
