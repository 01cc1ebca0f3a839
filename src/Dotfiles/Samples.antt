-- ===== src/Dotfiles/Samples.antt =====
-- Managers on which the theorems on internal/dotfiles/manager.go are applied.
use workspaced.Prelude.{refl, ◌≡◌, List, [], ◌∷◌, Str, codes, none, true, false, Bool, str_eq}
use workspaced.Prelude.GoMap
use workspaced.Prelude.Sort
use workspaced.Os.{ok, err, regular, call_remove, os_error, Call, remove, lstat}
use workspaced.Deployer.Types.{Action, no_info, State, delete, sort_actions}
use workspaced.Deployer.Planner.{plan, plan_all, orphans}
use workspaced.Deployer.Executor.{execute, run_all, work_of, ◌>>=◌, apply_fs, when, call}
use workspaced.Dotfiles.{StateStore, Manager, World}

abbrev memory : StateStore State
memory = record { load = λ s. ok s; save = λ s old. (ok tt, s) }

-- No file can be removed.
abbrev stuck : Call → Str → Bool
stuck call_remove path = true
stuck c path = false

abbrev manager : Manager State
manager = record {
  pipeline = [];
  store = memory;
  planner = record {
    no_cache = false;
    ignore = λ path. str_eq path (codes "/h/skip");
    sha256 = λ s. s;
  };
  hooks = [];
}

abbrev owned : State
owned = (codes "/h/skip", no_info) ∷ (codes "/h/old", no_info) ∷ []

abbrev world : World State
world = record {
  disk = record { nodes = (codes "/h/old", regular 420 []) ∷ []; fault = stuck };
  stored = owned;
}

abbrev kept : State
kept = (codes "/h/old", no_info) ∷ []

abbrev acts : List Action
acts = record { kind = delete; target = codes "/h/old"; desired = none; current = no_info } ∷ []

planned : plan manager.planner world.disk [] kept ≡ ok acts
unfolding plan plan_all orphans
planned = refl

failed :
    (execute manager.planner.ignore acts kept world.disk).0
    ≡ err (os_error call_remove (codes "/h/old"))
unfolding execute run_all work_of sort_actions Sort.sort ◌>>=◌ apply_fs when lstat GoMap.get str_eq
    call remove
failed = refl
