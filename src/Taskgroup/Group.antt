-- ===== src/Taskgroup/Group.antt =====
-- pkg/taskgroup/taskgroup.go: the tasks of a group, as goroutines that take steps in any order.
pub mod Runs
mod Samples
use workspaced.Prelude.{
  ℕ, zero, suc, ◌+◌, ◌-◌, Bool, true, false, ◌&&◌, ◌||◌, not, Option, none, some, List, [], ◌∷◌,
  ◌++◌, ltb, ◌==◌, if◌then◌else◌, Str, str_eq, length, drop,
}
use workspaced.Prelude.GoMap
use workspaced.Prelude.GoMap.{GoMap}
use workspaced.Taskgroup.Collection
use workspaced.Taskgroup.Collection.{
  TaskCollection, new_collection, Pin, add, pin_deps, release_and_prune,
}

pub data PoolKind : Type 0 where
  control io cpu internet : PoolKind

pub data State : Type 0 where
  pending running done failed : State

-- `failure` is what a task's function returned.
pub data TaskError : Type 0 where
  unknown_dependency : Str → Str → TaskError
  dependency_failed : Str → TaskError → TaskError
  canceled : TaskError
  failure : ℕ → TaskError

-- Limits, and the slots in use.
pub record Limits : Type 0 where
  pub io : ℕ
  pub cpu : ℕ
  pub internet : ℕ

-- How far the goroutine of a task is: runTask begins, waits for its dependencies, runs the function
-- with its slot, gives the slot back, finishes.
pub data Point : Type 0 where
  start : Point
  waiting : List Pin → Point
  working releasing finishing ended : Point

-- taskEntry; `closed` is the state of its channel `done`.
pub record TaskEntry : Type 0 where
  pub desc : Str
  pub pool : PoolKind
  pub deps : List Str
  pub resolved_deps : List Pin
  pub state : State
  pub err : Option TaskError
  pub closed : Bool
  pub point : Point

-- `tasks` has the pruned ones too; `used` are the taken slots of the pools.
pub record Group : Type 0 where
  pub tasks : GoMap TaskEntry
  pub live : TaskCollection
  pub used : Limits
  pub err : Option TaskError
  pub canceled : Bool

abbrev pub new_group : Group
new_group = record {
  tasks = [];
  live = new_collection;
  used = record { io = 0; cpu = 0; internet = 0 };
  err = none;
  canceled = false;
}

abbrev pub slots : PoolKind → Limits → ℕ
slots control l = 0
slots io l = l.io
slots cpu l = l.cpu
slots internet l = l.internet

-- pools.acquire can take a slot.
unfoldable pub has_slot : PoolKind → Limits → Limits → Bool
has_slot control limits used = true
has_slot io limits used = ltb used.io limits.io
has_slot cpu limits used = ltb used.cpu limits.cpu
has_slot internet limits used = ltb used.internet limits.internet

unfoldable pub acquire : PoolKind → Limits → Limits
acquire control used = used
acquire io used = record used { io = used.io + 1 }
acquire cpu used = record used { cpu = used.cpu + 1 }
acquire internet used = record used { internet = used.internet + 1 }

unfoldable pub release : PoolKind → Limits → Limits
release control used = used
release io used = record used { io = used.io - 1 }
release cpu used = record used { cpu = used.cpu - 1 }
release internet used = record used { internet = used.internet - 1 }

unfoldable pub set_error : TaskError → Point → TaskEntry → TaskEntry
set_error e next t = record t { state = failed; err = some e; point = next }

abbrev first_error : TaskError → Option TaskError → Option TaskError
first_error e none = some e
first_error e (some old) = some old

-- recordError: the first error stays, and the context is cancelled.
unfoldable pub record_error : TaskError → Group → Group
record_error e g = record g { err = first_error e g.err; canceled = true }

abbrev pub put_task : Str → TaskEntry → Group → Group
put_task id t g = record g { tasks = GoMap.put g.tasks id t }

abbrev pub new_task : Str → PoolKind → List Str → List Pin → TaskEntry
new_task desc pool deps pins = record {
  desc = desc;
  pool = pool;
  deps = deps;
  resolved_deps = pins;
  state = pending;
  err = none;
  closed = false;
  point = start;
}

-- Group.Go, under the lock of the group.
unfoldable pub schedule : Str → Str → PoolKind → List Str → Group → Group
unfolding pin_deps add
schedule id desc pool deps g =
    let (pins, live) = pin_deps deps g.live in
    record g {
      tasks = GoMap.put g.tasks id (new_task desc pool deps pins);
      live = add id desc live;
    }

unfoldable pub is_pinned : Str → List Pin → Bool
is_pinned dep [] = false
is_pinned dep (p ∷ pins) = str_eq p.id dep || str_eq p.desc dep || is_pinned dep pins

abbrev pub head_or : Str → List Str → Str
head_or other [] = other
head_or other (dep ∷ deps) = dep

-- The dependency that the error names: the first one without a pin.
unfoldable pub missing_dep : List Pin → Str → List Str → Str
unfolding is_pinned
missing_dep pins other [] = other
missing_dep pins other (dep ∷ deps) =
    let rest = missing_dep pins other deps in if is_pinned dep pins then rest else dep

abbrev pub is_unresolved : TaskEntry → Bool
is_unresolved t = ltb 0 (length t.deps) && ltb (length t.resolved_deps) (length t.deps)

-- The test for unknown dependencies.
unfoldable pub check_deps : Str → TaskEntry → Group → Group
unfolding record_error set_error missing_dep
check_deps id t g =
    let fallback = head_or [] (drop (length t.resolved_deps) t.deps) in
    let e = unknown_dependency (missing_dep t.resolved_deps fallback t.deps) t.desc in
    if is_unresolved t
    then put_task id (set_error e finishing t) (record_error e g)
    else put_task id (record t { point = waiting t.resolved_deps }) g

-- The label of the dependency that is waited for: the one of `deps` at its place.
unfoldable pub dep_label : TaskEntry → Pin → List Pin → Str
dep_label t p pins = head_or p.desc (drop (length t.resolved_deps - length (p ∷ pins)) t.deps)

-- A dependency's channel is closed: go on, or fail with its error.
unfoldable pub dep_done : Str → TaskEntry → Pin → List Pin → Option TaskError → Group → Group
unfolding record_error set_error dep_label
dep_done id t p pins none g = put_task id (record t { point = waiting pins }) g
dep_done id t p pins (some cause) g =
    let e = dependency_failed (dep_label t p pins) cause in
    put_task id (set_error e finishing t) (record_error e g)

-- The context is done while the task waits for a dependency or for a slot.
unfoldable pub give_up : Str → TaskEntry → Group → Group
unfolding set_error
give_up id t g = put_task id (set_error canceled finishing t) g

unfoldable pub begin_work : Str → TaskEntry → Group → Group
unfolding acquire
begin_work id t g = record g {
  tasks = GoMap.put g.tasks id (record t { state = running; point = working });
  used = acquire t.pool g.used;
}

-- The function of the task returns.
unfoldable pub end_work : Str → TaskEntry → Option TaskError → Group → Group
unfolding set_error record_error
end_work id t none g = put_task id (record t { state = done; point = releasing }) g
end_work id t (some e) g = put_task id (set_error e releasing t) (record_error e g)

-- The deferred release of the slot.
unfoldable pub give_back : Str → TaskEntry → Group → Group
unfolding release
give_back id t g = record g {
  tasks = GoMap.put g.tasks id (record t { point = finishing });
  used = release t.pool g.used;
}

abbrev pub is_terminal_state : State → Bool
is_terminal_state pending = false
is_terminal_state running = false
is_terminal_state done = true
is_terminal_state failed = true

abbrev terminal_entry : Option TaskEntry → Bool
terminal_entry none = false
terminal_entry (some t) = is_terminal_state t.state

unfoldable pub is_terminal : Group → Str → Bool
is_terminal g id = terminal_entry (GoMap.get g.tasks id)

-- finishTask, and the deferred Done of the wait group.
unfoldable pub finish_task : Str → TaskEntry → Group → Group
unfolding release_and_prune is_terminal
finish_task id t g = record g {
  tasks = GoMap.put g.tasks id (record t { closed = true; point = ended });
  live = release_and_prune (is_terminal g) id t.resolved_deps g.live;
}
