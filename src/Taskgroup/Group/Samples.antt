-- ===== src/Taskgroup/Group/Samples.antt =====
-- A group of two tasks, the second behind the first, on which the theorems on pkg/taskgroup/taskgroup.go,
-- task_collection.go and map.go are applied.
use workspaced.Prelude.{
  arith, ℕ, suc, ◌≡◌, ◌≤◌, refl, true, false, none, some, List, [], ◌∷◌, Str, codes, str_eq,
}
use workspaced.Prelude.GoMap
use workspaced.Prelude.GoMap.{GoMap}
use workspaced.Taskgroup.Collection.{
  TaskCollection, new_collection, add, lookup, pin, waiters_of, release_deps, prune, forget,
  best_of, unpin,
}
use workspaced.Taskgroup.Collection.Index.{
  IsIndexed, none-IsIndexed, add-IsIndexed, prune-IsIndexed,
}
use workspaced.Taskgroup.Group.{
  cpu, running, done, Limits, working, ended, TaskEntry, Group, new_group, slots, is_terminal,
}
use workspaced.Taskgroup.Group.Runs.{
  Event, go, check, dep_ready, take_slot, returns, frees, finishes, step, run_events,
}
use workspaced.Taskgroup.Group.Runs.Entries.{IsReady}
use workspaced.Taskgroup.Group.Runs.Ready.{run-IsReady}
use workspaced.Taskgroup.Group.Runs.Pools.{holders, run-counts}
use workspaced.Taskgroup.Group.Runs.Finished.{run-Succeeds}
use workspaced.Taskgroup.Map.{Child, all_ended, run_map, values}
use workspaced.Taskgroup.Map.Order.{run_map-values, run_map-abandoned, abandoned}

abbrev one_slot : Limits
one_slot = record { io = 1; cpu = 1; internet = 1 }

abbrev first : Str
first = codes "a"

abbrev second : Str
second = codes "b"

-- The first task is over, and the second one works.
abbrev schedule_two : List Event
schedule_two =
    go first first cpu []
    ∷ check first
    ∷ take_slot first
    ∷ go second second cpu (first ∷ [])
    ∷ check second
    ∷ returns first none
    ∷ frees first
    ∷ finishes first
    ∷ dep_ready second
    ∷ take_slot second
    ∷ []

abbrev first_ended : TaskEntry
first_ended = record {
  desc = first;
  pool = cpu;
  deps = [];
  resolved_deps = [];
  state = done;
  err = none;
  closed = true;
  point = ended;
}

abbrev second_working : TaskEntry
second_working = record {
  desc = second;
  pool = cpu;
  deps = first ∷ [];
  resolved_deps = record { id = first; desc = first } ∷ [];
  state = running;
  err = none;
  closed = false;
  point = working;
}

abbrev half_way : Group
half_way = record {
  tasks = (first, first_ended) ∷ (second, second_working) ∷ [];
  live = record {
    by_id = (first, first) ∷ (second, second) ∷ [];
    latest_by_desc = (first, first) ∷ (second, second) ∷ [];
    waiters = (first, 1) ∷ [];
  };
  used = record { io = 0; cpu = 1; internet = 0 };
  err = none;
  canceled = false;
}

run_two : run_events one_slot schedule_two new_group ≡ some half_way
unfolding run_events step GoMap.get GoMap.put GoMap.remove lookup pin waiters_of best_of forget
    prune unpin release_deps is_terminal str_eq
run_two = refl

run-IsReady_example : IsReady half_way.tasks second_working
unfolding GoMap.get str_eq
run-IsReady_example =
    run-IsReady one_slot schedule_two half_way second second_working run_two refl refl

run-counts_example :
    (slots cpu half_way.used ≡ holders cpu half_way.tasks)
    × (slots cpu half_way.used ≤ slots cpu one_slot)
run-counts_example = run-counts one_slot schedule_two half_way cpu run_two (ground arith)

run-Succeeds_example :
    (half_way.err ≡ none)
    × (first_ended.err ≡ none)
    × (first_ended.state ≡ done)
    × IsReady half_way.tasks first_ended
unfolding GoMap.get str_eq
run-Succeeds_example =
    run-Succeeds one_slot schedule_two half_way first first_ended run_two refl refl refl

abbrev child : Child ℕ
child = record { id = first; name = first; pool = cpu; item = 7 }

abbrev schedule_child : List Event
schedule_child =
    go first first cpu []
    ∷ check first
    ∷ take_slot first
    ∷ returns first none
    ∷ frees first
    ∷ finishes first
    ∷ []

abbrev all_over : Group
all_over = record {
  tasks = (first, first_ended) ∷ [];
  live = new_collection;
  used = record { io = 0; cpu = 0; internet = 0 };
  err = none;
  canceled = false;
}

run_child : run_events one_slot schedule_child new_group ≡ some all_over
unfolding run_events step GoMap.get GoMap.put GoMap.remove lookup pin waiters_of best_of forget
    prune unpin release_deps is_terminal str_eq
run_child = refl

run_map-values_example :
    run_map suc false all_over (child ∷ []) schedule_child ≡ values (some 8 ∷ [])
unfolding all_ended GoMap.get str_eq
run_map-values_example =
    run_map-values suc one_slot schedule_child all_over (child ∷ []) run_child refl (tt, tt) refl

run_map-abandoned_example :
    (g : Group) × (run_events one_slot (abandoned child) new_group ≡ some g)
    × (all_ended g (child ∷ []) ≡ true)
    × (run_map suc false g (child ∷ []) (abandoned child) ≡ values (none ∷ []))
run_map-abandoned_example = run_map-abandoned suc one_slot child (ground arith)

-- Two live tasks of one description.
abbrev twice : TaskCollection
twice = add second first (add first first new_collection)

twice-IsIndexed : IsIndexed twice
unfolding GoMap.get str_eq add GoMap.put
twice-IsIndexed =
    add-IsIndexed second first (add first first new_collection) refl
      (add-IsIndexed first first new_collection refl none-IsIndexed)

prune-IsIndexed_example : IsIndexed (prune (λ id. true) second twice)
prune-IsIndexed_example = prune-IsIndexed (λ id. true) second twice twice-IsIndexed
