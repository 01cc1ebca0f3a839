-- ===== src/Taskgroup/Collection.antt =====
-- pkg/taskgroup/task_collection.go: the live tasks of a group, with the counts of their waiters.
-- A task is named by its id; ByID maps the ids of live tasks to their descriptions.
pub mod Index
use workspaced.Prelude.{
  ℕ, suc, ◌+◌, ◌-◌, Bool, true, false, ◌&&◌, not, Option, none, some, List, [], ◌∷◌, ◌++◌, ◌==◌,
  if◌then◌else◌, Str, str_eq, str_lt,
}
use workspaced.Prelude.GoMap
use workspaced.Prelude.GoMap.{GoMap}

pub record TaskCollection : Type 0 where
  pub by_id : GoMap Str
  pub latest_by_desc : GoMap Str
  pub waiters : GoMap ℕ

abbrev pub new_collection : TaskCollection
new_collection = record { by_id = []; latest_by_desc = []; waiters = [] }

-- A dependency that was found: the id and the description of its task.
pub record Pin : Type 0 where
  pub id : Str
  pub desc : Str

unfoldable pub add : Str → Str → TaskCollection → TaskCollection
add id desc c = record c {
  by_id = GoMap.put c.by_id id desc;
  latest_by_desc = GoMap.put c.latest_by_desc desc id;
}

abbrev found_latest : Str → Option Str → Option Pin
found_latest dep none = none
found_latest dep (some id) = some (record { id = id; desc = dep })

abbrev found : Str → Option Str → Option Pin → Option Pin
found dep none other = other
found dep (some desc) other = some (record { id = dep; desc = desc })

unfoldable pub lookup : Str → TaskCollection → Option Pin
lookup dep c = found dep (GoMap.get c.by_id dep) (found_latest dep (GoMap.get c.latest_by_desc dep))

abbrev pub count_or_zero : Option ℕ → ℕ
count_or_zero none = 0
count_or_zero (some n) = n

unfoldable pub waiters_of : TaskCollection → Str → ℕ
waiters_of c id = count_or_zero (GoMap.get c.waiters id)

unfoldable pub pin : Str → TaskCollection → TaskCollection
unfolding waiters_of
pin id c = record c { waiters = GoMap.put c.waiters id (waiters_of c id + 1) }

-- The loop of PinDeps: a dependency that is not found is left out.
unfoldable pub pin_deps : List Str → TaskCollection → List Pin × TaskCollection
unfolding lookup pin
pin_deps [] c = ([], c)
pin_deps (dep ∷ deps) c = elim (lookup dep c) [
  | none ↦ pin_deps deps c
  | some p ↦ (p ∷ (pin_deps deps (pin p.id c)).0, (pin_deps deps (pin p.id c)).1)
]

-- The live task of a description with the greatest id.
unfoldable pub best_of : Str → GoMap Str → Option Str
best_of desc [] = none
best_of desc ((id, d) ∷ live) = elim (best_of desc live) [
  | none ↦ if str_eq d desc then some id else none
  | some best ↦ if str_eq d desc && str_lt best id then some id else some best
]

abbrev pub restored : Str → Option Str → GoMap Str → GoMap Str
restored desc none latest = latest
restored desc (some best) latest = GoMap.put latest desc best

abbrev pub is_id : Str → Option Str → Bool
is_id id none = false
is_id id (some other) = str_eq other id

-- What Prune does with a live task that is to go.
unfoldable pub forget : Str → Str → TaskCollection → TaskCollection
unfolding best_of
forget id desc c =
    let live = GoMap.remove c.by_id id in
    let latest = restored desc (best_of desc live) (GoMap.remove c.latest_by_desc desc) in
    if is_id id (GoMap.get c.latest_by_desc desc)
    then record c { by_id = live; latest_by_desc = latest }
    else record c { by_id = live }

abbrev forget_live : Str → Option Str → TaskCollection → TaskCollection
forget_live id none c = c
forget_live id (some desc) c = forget id desc c

-- Prune, given whether the task is done or failed.
unfoldable pub prune : (Str → Bool) → Str → TaskCollection → TaskCollection
unfolding forget waiters_of
prune terminal id c =
    let pruned = forget_live id (GoMap.get c.by_id id) c in
    if terminal id && waiters_of c id == 0 then pruned else c

unfoldable pub unpin : Str → TaskCollection → TaskCollection
unfolding waiters_of
unpin id c = record c { waiters = GoMap.put c.waiters id (waiters_of c id - 1) }

unfoldable pub release_deps : (Str → Bool) → List Pin → TaskCollection → TaskCollection
unfolding prune unpin
release_deps terminal [] c = c
release_deps terminal (p ∷ pins) c = release_deps terminal pins (prune terminal p.id (unpin p.id c))

unfoldable pub release_and_prune : (Str → Bool) → Str → List Pin → TaskCollection → TaskCollection
unfolding release_deps
release_and_prune terminal id pins c = prune terminal id (release_deps terminal pins c)
