-- ===== src/Dotfiles.antt =====
-- internal/dotfiles/manager.go: one apply, from the pipeline to the saved state. What hooks do outside
-- the managed disk and the store is not modelled; a hook may fail.
pub mod Cycle
mod Samples
use workspaced.Prelude.{
  ℕ, zero, suc, ◌+◌, Bool, true, false, ◌&&◌, ◌||◌, not, Option, none, some, List, [], ◌∷◌, ◌++◌,
  ltb, if◌then◌else◌, Str, length,
}
use workspaced.Prelude.GoMap.{GoMap}
use workspaced.Os.{Disk, Result, ok, err, Error}
use workspaced.Source.{File}
use workspaced.Source.Pipeline.{Plugin, run}
use workspaced.Deployer.Types.{Action, ActionType, create, update, delete, noop, State, ManagedInfo}
use workspaced.Deployer.Planner.{Planner, plan}
use workspaced.Deployer.Executor.{execute}

-- DropIgnored of internal/deployer/ignore.go: the state without the ignored targets, and how many
-- entries were dropped.
unfoldable pub drop_ignored : (Str → Bool) → State → State × ℕ
drop_ignored ignore [] = ([], 0)
drop_ignored ignore ((path, info) ∷ state) =
    let (rest, n) = drop_ignored ignore state in
    if ignore path then (rest, suc n) else ((path, info) ∷ rest, n)

-- The interface Hook: `none` is success. After is told the error of the execution.
pub record Hook : Type 0 where
  pub before : List Action → Option Error
  pub after : List Action → Option Error → Option Error

-- The interface StateStore over a store of type `S`.
pub record StateStore (S : Type 0) : Type 0 where
  pub load : S → Result State
  pub save : State → S → Result Unit × S

pub record Manager (S : Type 0) : Type 0 where
  pub pipeline : List Plugin
  pub store : StateStore S
  pub planner : Planner
  pub hooks : List Hook

pub record Counts : Type 0 where
  pub created : ℕ
  pub updated : ℕ
  pub deleted : ℕ
  pub noop : ℕ

abbrev pub no_counts : Counts
no_counts = record { created = 0; updated = 0; deleted = 0; noop = 0 }

unfoldable pub count_one : ActionType → Counts → Counts
count_one create c = record c { created = c.created + 1 }
count_one update c = record c { updated = c.updated + 1 }
count_one delete c = record c { deleted = c.deleted + 1 }
count_one noop c = record c { noop = c.noop + 1 }

unfoldable pub count_actions : List Action → Counts → Counts
unfolding count_one
count_actions [] c = c
count_actions (a ∷ acts) c = count_actions acts (count_one a.kind c)

unfoldable pub has_changes : Counts → Bool
has_changes c = ltb 0 c.created || ltb 0 c.updated || ltb 0 c.deleted

pub record ApplyResult : Type 0 where
  pub counts : Counts
  pub state_dropped : ℕ
  pub actions : List Action
  pub error : Option Error

abbrev pub empty_result : ApplyResult
empty_result = record { counts = no_counts; state_dropped = 0; actions = []; error = none }

-- What an apply works on.
pub record World (S : Type 0) : Type 0 where
  pub disk : Disk
  pub stored : S

-- The first Before hook that fails stops the apply.
unfoldable pub run_before : List Hook → List Action → Option Error
run_before [] acts = none
run_before (h ∷ hooks) acts = elim (h.before acts) [
  | some e ↦ some e
  | none ↦ run_before hooks acts
]

unfoldable pub planned_result : ℕ → List Action → ApplyResult
unfolding count_actions
planned_result dropped acts = record {
  counts = count_actions acts no_counts;
  state_dropped = dropped;
  actions = acts;
  error = none;
}

module _ {S : Type 0} where
  abbrev failed : ApplyResult → Error → World S → ApplyResult × World S
  failed result e w = (record result { error = some e }, w)

  abbrev pub saved : ApplyResult → Disk → Result Unit × S → ApplyResult × World S
  saved result d (ok x, stored) = (result, record { disk = d; stored = stored })
  saved result d (err e, stored) =
      (record result { error = some e }, record { disk = d; stored = stored })

  -- Steps 6 to 8. An After hook's failure is only logged.
  abbrev pub finished :
      Manager S → ApplyResult → S → Result Unit × State × Disk → ApplyResult × World S
  finished m result stored (err e, state, d) =
      (record result { error = some e }, record { disk = d; stored = stored })
  finished m result stored (ok x, state, d) = saved result d (m.store.save state stored)

  abbrev pub run_actions :
      Manager S → ApplyResult → State → World S → Option Error → ApplyResult × World S
  run_actions m result state w (some e) = failed result e w
  run_actions m result state w none =
      finished m result w.stored (execute m.planner.ignore result.actions state w.disk)

  -- What follows the plan.
  unfoldable pub carry_out :
      Manager S → Bool → ApplyResult → State → World S → ApplyResult × World S
  unfolding has_changes run_before
  carry_out m dry_run result state w =
      if not (has_changes result.counts)
      then (if ltb 0 result.state_dropped && not dry_run
          then saved result w.disk (m.store.save state w.stored)
          else (result, w))
      else if dry_run
      then (result, w)
      else run_actions m result state w (run_before m.hooks result.actions)

  abbrev pub after_plan :
      Manager S → Bool → ℕ → State → World S → Result (List Action) → ApplyResult × World S
  after_plan m dry_run dropped state w (err e) =
      failed (record empty_result { state_dropped = dropped }) e w
  after_plan m dry_run dropped state w (ok acts) =
      carry_out m dry_run (planned_result dropped acts) state w

  abbrev pub after_load :
      Manager S → Bool → List File → World S → Result State → ApplyResult × World S
  after_load m dry_run files w (err e) = failed empty_result e w
  after_load m dry_run files w (ok state) =
      let (kept, dropped) = drop_ignored m.planner.ignore state in
      after_plan m dry_run dropped kept w (plan m.planner w.disk files kept)

  abbrev pub after_pipeline :
      Manager S → Bool → World S → Result (List File) → ApplyResult × World S
  after_pipeline m dry_run w (err e) = failed empty_result e w
  after_pipeline m dry_run w (ok files) = after_load m dry_run files w (m.store.load w.stored)

  -- Manager.Apply
  unfoldable pub apply : Manager S → Bool → World S → ApplyResult × World S
  unfolding carry_out planned_result drop_ignored run
  apply m dry_run w = after_pipeline m dry_run w (run m.pipeline [])
