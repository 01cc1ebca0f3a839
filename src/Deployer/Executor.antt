-- ===== src/Deployer/Executor.antt =====
-- internal/deployer/executor.go: the actions' work on the disk, and what becomes of the state.
pub mod Keeps
pub mod Run
pub mod Batch
pub mod Patches
use workspaced.Prelude.{
  ℕ, Bool, true, false, not, ◌&&◌, ◌||◌, Option, none, some, List, [], ◌∷◌, ◌++◌, ◌==◌,
  if◌then◌else◌, Str, codes, str_eq, filter,
}
use workspaced.Prelude.GoMap
use workspaced.Os.{
  Disk, Node, regular, symlink, directory, Result, ok, err, lstat, remove, remove_all, mkdir_all,
  make_symlink, write_file, chmod_file, Error, message,
}
use workspaced.FilePath
use workspaced.Source.{File, FileType, type_symlink}
use workspaced.Deployer.Types.{
  ActionType, create, update, delete, noop, ManagedInfo, State, Action, sort_actions, is_noop,
}
use workspaced.Deployer.Planner.{is_symlink_type}

-- Work on a disk that may fail; what it did before it failed stays done.
abbrev pub Work : Type 0 → Type 0
Work A = Disk → Result A × Disk

abbrev pub continue : {A B : Type 0} → Result A → (A → Work B) → Work B
continue (ok a) f d = f a d
continue (err e) f d = (err e, d)

infixl 5 ◌>>=◌ ◌>>◌
unfoldable pub ◌>>=◌ : {A B : Type 0} → Work A → (A → Work B) → Work B
◌>>=◌ m f d = let (r, d') = m d in continue r f d'

abbrev pub ◌>>◌ : {B : Type 0} → Work Unit → Work B → Work B
m >> n = m >>= λ _. n

unfoldable pub pure : {A : Type 0} → A → Work A
pure a d = (ok a, d)

unfoldable pub lift : {A : Type 0} → Result A → Work A
lift r d = (r, d)

abbrev pub landed : Disk → Result Disk → Result Unit × Disk
landed d (ok d') = (ok tt, d')
landed d (err e) = (err e, d)

-- A call that gives the new disk, or fails and leaves the disk as it was.
unfoldable pub call : (Disk → Result Disk) → Work Unit
call f d = landed d (f d)

abbrev pub is_there : Option Node → Bool
is_there none = false
is_there (some n) = true

-- A node that a rename cannot replace by a file.
abbrev pub is_special : Option Node → Bool
is_special none = false
is_special (some (regular perm bytes)) = false
is_special (some n) = true

unfoldable pub when : (Disk → Bool) → Work Unit → Work Unit
when test m d = if test d then m d else (ok tt, d)

-- The state delta of one action.
pub data Patch : Type 0 where
  drop : Str → Patch
  store : Str → ManagedInfo → Patch
  nothing : Patch

unfoldable pub apply_patch : State → Patch → State
apply_patch state (drop path) = GoMap.remove state path
apply_patch state (store path info) = GoMap.put state path info
apply_patch state nothing = state

-- create and update of an ignored target drop its entry
unfoldable pub patch_for : (Str → Bool) → Str → File → Patch
patch_for ignore path f =
    if ignore path then drop path else store path (record { source_info = f.source_info })

unfoldable pub delete_fs : Str → Work Patch
delete_fs path = do
  when (λ d. is_there (lstat d path)) (call (λ d. remove d path))
  pure (drop path)

unfoldable pub link_fs : Str → File → Work Unit
link_fs path f = do
  when (λ d. is_there (lstat d path)) (call (λ d. remove_all d path))
  to ← lift f.link_target
  call (λ d. make_symlink d to path)

unfoldable pub file_fs : Str → File → Work Unit
file_fs path f = do
  when (λ d. is_special (lstat d path)) (call (λ d. remove_all d path))
  bytes ← lift f.reader
  call (λ d. write_file d path f.mode bytes)
  call (λ d. chmod_file d path f.mode)

unfoldable pub place_fs : (Str → Bool) → Str → File → Work Patch
unfolding link_fs file_fs is_symlink_type
place_fs ignore path f = do
  call (λ d. mkdir_all d (FilePath.dir path))
  if is_symlink_type f.file_type then link_fs path f else file_fs path f
  pure (patch_for ignore path f)

abbrev pub place_desired : (Str → Bool) → Str → Option File → Work Patch
place_desired ignore path none = pure nothing
place_desired ignore path (some f) = place_fs ignore path f

abbrev pub apply_kind : (Str → Bool) → ActionType → Str → Option File → Work Patch
apply_kind ignore delete path f = delete_fs path
apply_kind ignore create path f = place_desired ignore path f
apply_kind ignore update path f = place_desired ignore path f
apply_kind ignore noop path f = pure nothing

-- applyFS of Execute
unfoldable pub apply_fs : (Str → Bool) → Action → Work Patch
unfolding delete_fs place_fs
apply_fs ignore a = apply_kind ignore a.kind a.target a.desired

-- taskgroup.Map over the work, in the schedule in which the items run one after another.
unfoldable pub run_all : (Str → Bool) → List Action → Work (List Patch)
run_all ignore [] = pure []
run_all ignore (a ∷ actions) = do p ← apply_fs ignore a; ps ← run_all ignore actions; pure (p ∷ ps)

unfoldable pub apply_patches : State → List Patch → State
unfolding apply_patch
apply_patches state [] = state
apply_patches state (p ∷ ps) = apply_patches (apply_patch state p) ps

unfoldable pub work_of : List Action → List Action
unfolding is_noop
work_of actions = filter (λ a. not (is_noop a.kind)) (sort_actions actions)

abbrev pub reduce : State → Result (List Patch) × Disk → Result Unit × State × Disk
reduce state (ok patches, d) = (ok tt, apply_patches state patches, d)
reduce state (err e, d) = (err e, state, d)

-- Execute: the state changes only if all the work succeeds.
unfoldable pub execute : (Str → Bool) → List Action → State → Disk → Result Unit × State × Disk
execute ignore actions state d = reduce state (run_all ignore (work_of actions) d)
