-- ===== src/Taskgroup/Map.antt =====
-- pkg/taskgroup/map.go: Map.Run over a child group. The function of an item returns a value or an error;
-- a slot of the results is `none`, the zero value, until the function of its item has returned a value.
pub mod Returned
pub mod Order
use workspaced.Prelude.{
  zero, suc, str_eq, length, replicate, ℕ, Bool, true, false, ◌&&◌, Option, none, some, List, [],
  ◌∷◌, if◌then◌else◌, Str,
}
use workspaced.Prelude.GoMap
use workspaced.Prelude.GoMap.{GoMap}
use workspaced.Taskgroup.Group.{
  PoolKind, State, pending, running, done, failed, Point, start, waiting, working, releasing,
  finishing, ended, TaskEntry, TaskError, canceled, Group,
}
use workspaced.Taskgroup.Group.Runs.{Event, go, returns}

-- A child: the id of its task, its name, its pool and its item.
pub record Child (T : Type 0) : Type 0 where
  pub id : Str
  pub name : Str
  pub pool : PoolKind
  pub item : T

abbrev pub serial_deps : Bool → Option Str → List Str
serial_deps serial none = []
serial_deps serial (some prev) = if serial then prev ∷ [] else []

module _ {T : Type 0} where
  -- The loop that schedules the children; each depends on the one before it if the map is serial.
  unfoldable pub schedule_children : Bool → Option Str → List (Child T) → List Event
  schedule_children serial prev [] = []
  schedule_children serial prev (c ∷ cs) =
      go c.id c.name c.pool (serial_deps serial prev) ∷ schedule_children serial (some c.id) cs

  abbrev pub one_further : Option (ℕ × T) → Option (ℕ × T)
  one_further none = none
  one_further (some (i, item)) = some (suc i, item)

  -- The place of the item of a task, and the item: the `i` and `item` of its closure.
  unfoldable pub place_of : Str → List (Child T) → Option (ℕ × T)
  place_of id [] = none
  place_of id (c ∷ cs) =
      let rest = place_of id cs in if str_eq c.id id then some (0, c.item) else one_further rest

  module _ {U : Type 0} (value : T → U) where
    unfoldable pub set_at : ℕ → U → List (Option U) → List (Option U)
    set_at i u [] = []
    set_at zero u (s ∷ slots) = some u ∷ slots
    set_at (suc i) u (s ∷ slots) = s ∷ set_at i u slots

    abbrev pub written : Option (ℕ × T) → List (Option U) → List (Option U)
    written none slots = slots
    written (some (i, item)) slots = set_at i (value item) slots

    -- results[i] = u, if the function of an item returns a value.
    unfoldable pub write_result : List (Child T) → Event → List (Option U) → List (Option U)
    unfolding place_of set_at
    write_result cs (returns id none) slots = written (place_of id cs) slots
    write_result cs _ slots = slots

    unfoldable pub fill : List (Child T) → List Event → List (Option U) → List (Option U)
    unfolding write_result
    fill cs [] slots = slots
    fill cs (e ∷ es) slots = fill cs es (write_result cs e slots)

    -- The results behind a run of the children: at first all zero.
    unfoldable pub results : List (Child T) → List Event → List (Option U)
    unfolding fill
    results cs es = fill cs es (replicate (length cs) none)

abbrev pub is_ended : Point → Bool
is_ended start = false
is_ended (waiting ps) = false
is_ended working = false
is_ended releasing = false
is_ended finishing = false
is_ended ended = true

abbrev pub has_ended : Option TaskEntry → Bool
has_ended none = false
has_ended (some t) = is_ended t.point

-- Wait returns when every task has ended.
unfoldable pub all_ended : {T : Type 0} → Group → List (Child T) → Bool
all_ended g [] = true
all_ended g (c ∷ cs) = has_ended (GoMap.get g.tasks c.id) && all_ended g cs

pub data MapResult (U : Type 0) : Type 0 where
  values : List (Option U) → MapResult U
  map_error : TaskError → MapResult U

abbrev pub map_end : {U : Type 0} → Option TaskError → Bool → List (Option U) → MapResult U
map_end none false rs = values rs
map_end none true rs = map_error canceled
map_end (some e) saw_cancel rs = map_error e

-- The end of Run, once Wait has returned. The select has seen the end of the orchestrator, or the end of
-- the context first (`saw_cancel`); if both are there, it takes either.
unfoldable pub run_map :
    {T U : Type 0} → (T → U) → Bool → Group → List (Child T) → List Event → MapResult U
unfolding results
run_map value saw_cancel g cs es = map_end g.err saw_cancel (results value cs es)
