-- ===== src/Deployer/Samples.antt =====
-- Files, states and disks on which the theorems on internal/deployer and internal/source are applied.
use workspaced.Prelude.{
  AllPairs, arith, refl, ◌≡◌, ◌≢◌, ◌↔◌, List, [], ◌∷◌, All, AllPairs, In, Str, codes, none, some,
  true, false, Bool, str_eq, ap, has_prefix, str_lt,
}
use mathlib.Core.List.{Perm}
use workspaced.Prelude.GoMap
use workspaced.Prelude.Sort
use workspaced.Prelude.Sort.{IsSorted}
use workspaced.FilePath
use workspaced.Os.{
  Disk, regular, directory, ok, err, os_error, Call, lstat, below, open_file, call_write, remove,
  mkdir_all, ancestors, drop_below, has_children, make_dirs, make_symlink, remove_all, write_file,
  chmod_file, written_perm,
}
use workspaced.Source.{File, type_static, type_symlink, target}
use workspaced.Deployer.Types.{
  Action, no_info, State, noop, delete, update, create, sort_actions, action_less, rank, is_noop,
}
use workspaced.Deployer.Planner.{
  Planner, plan, plan_one, plan_all, plan_node, orphans, is_symlink_type, is_desired,
}
use workspaced.Deployer.Planner.Converge.{plan-execute_converges, IsDisjoint}
use workspaced.Deployer.Executor.{
  execute, place_fs, ◌>>=◌, run_all, work_of, apply_fs, when, call, pure, lift, apply_patch,
  apply_patches, delete_fs, file_fs, link_fs, patch_for,
}
use workspaced.Deployer.Order.{InOrder, sort_actions-InOrder, plan-deletes_iff}
use workspaced.Deployer.Failures.{OldOrNew, place_failed}

abbrev never : Str → Bool
never path = false

abbrev planner : Planner
planner = record { no_cache = false; ignore = never; sha256 = λ s. s }

abbrev rc : File
rc = record {
  rel_path = codes "rc";
  target_base = codes "/h";
  mode = 420;
  reader = ok (codes "new");
  source_info = codes "module:a";
  file_type = type_static;
  link_target = ok [];
  module_name = codes "a";
}

abbrev link : File
link = record rc {
  rel_path = codes "ln";
  file_type = type_symlink;
  link_target = ok (codes "/opt");
}

abbrev owned : State
owned = (codes "/h/gone", no_info) ∷ []

abbrev no_fault : Call → Str → Bool
no_fault c path = false

abbrev disk : Disk
disk = record {
  nodes =
      (codes "/h", directory 493)
      ∷ (codes "/h/gone", regular 420 (codes "x"))
      ∷ (codes "/h/rc", regular 420 (codes "old"))
      ∷ [];
  fault = no_fault;
}

abbrev files : List File
files = rc ∷ link ∷ []

abbrev acts : List Action
acts =
    record { kind = update; target = codes "/h/rc"; desired = some rc; current = no_info }
    ∷ record { kind = create; target = codes "/h/ln"; desired = some link; current = no_info }
    ∷ record { kind = delete; target = codes "/h/gone"; desired = none; current = no_info }
    ∷ []

planned : plan planner disk files owned ≡ ok acts
unfolding plan plan_all plan_one plan_node lstat GoMap.get str_eq target FilePath.join open_file
    orphans
planned = refl

abbrev disk_after : Disk
disk_after = (execute never acts owned disk).2

abbrev owned_after : State
owned_after = (execute never acts owned disk).1

succeeded : (execute never acts owned disk).0 ≡ ok tt
unfolding execute run_all work_of sort_actions Sort.sort ◌>>=◌ apply_fs when lstat GoMap.get str_eq
    call remove has_prefix pure mkdir_all FilePath.dir GoMap.remove apply_patch apply_patches
    delete_fs file_fs lift link_fs patch_for place_fs is_symlink_type action_less is_noop rank
    FilePath.clean FilePath.clean_segs FilePath.clean_step FilePath.finish FilePath.is_abs
    FilePath.join_slash FilePath.split_slash FilePath.upto_last_slash ancestors below drop_below
    has_children make_dirs make_symlink remove_all write_file chmod_file written_perm GoMap.put
    Sort.insert str_lt
succeeded = refl

executed : execute never acts owned disk ≡ (ok tt, owned_after, disk_after)
executed = ap (λ r. (r, owned_after, disk_after)) succeeded

apart : AllPairs IsDisjoint files
unfolding target below FilePath.join has_prefix str_eq
apart = (((ground arith, refl, refl), tt), (tt, tt))

plan-execute_converges_example :
    (xs : List Action) × (plan planner disk_after files owned_after ≡ ok xs)
    × All (λ a. a.kind ≡ noop) xs
plan-execute_converges_example =
    plan-execute_converges planner disk disk_after files owned owned_after acts refl
      (λ q. (refl, refl, refl)) (ground arith) apart planned executed

plan-deletes_iff_example :
    ((a : Action) × In a acts × (a.kind ≡ delete) × (a.target ≡ codes "/h/gone"))
    ↔ ((is_desired files (codes "/h/gone") ≡ false) × (GoMap.get owned (codes "/h/gone") ≢ none))
plan-deletes_iff_example = plan-deletes_iff planner disk files owned acts planned (codes "/h/gone")

sort_actions-InOrder_example :
    Perm (sort_actions acts) acts
    × AllPairs (λ a b. InOrder a.kind b.kind a.target b.target) (sort_actions acts)
sort_actions-InOrder_example = sort_actions-InOrder acts

abbrev no_writes : Call → Str → Bool
no_writes call_write path = true
no_writes c path = false

-- A disk on which no file can be written.
abbrev full_disk : Disk
full_disk = record disk { fault = no_writes }

abbrev half_done : Disk
half_done = (execute never acts owned full_disk).2

outcome : (execute never acts owned full_disk).0 ≡ err (os_error call_write (codes "/h/rc"))
unfolding execute run_all work_of sort_actions Sort.sort ◌>>=◌ apply_fs when lstat GoMap.get str_eq
    call remove has_prefix pure mkdir_all FilePath.dir GoMap.remove apply_patch apply_patches
    delete_fs file_fs lift link_fs patch_for place_fs is_symlink_type action_less is_noop rank
    FilePath.clean FilePath.clean_segs FilePath.clean_step FilePath.finish FilePath.is_abs
    FilePath.join_slash FilePath.split_slash FilePath.upto_last_slash ancestors below drop_below
    has_children make_dirs make_symlink remove_all write_file chmod_file written_perm GoMap.put
    Sort.insert str_lt
outcome = refl

abbrev unplaced : Disk
unplaced = (place_fs never (codes "/h/rc") rc full_disk).1

placing_fails :
    place_fs never (codes "/h/rc") rc full_disk
    ≡ (err (os_error call_write (codes "/h/rc")), unplaced)
unfolding execute run_all work_of sort_actions Sort.sort ◌>>=◌ apply_fs when lstat GoMap.get str_eq
    call remove has_prefix pure mkdir_all FilePath.dir GoMap.remove apply_patch apply_patches
    delete_fs file_fs lift link_fs patch_for place_fs is_symlink_type action_less is_noop rank
    FilePath.clean FilePath.clean_segs FilePath.clean_step FilePath.finish FilePath.is_abs
    FilePath.join_slash FilePath.split_slash FilePath.upto_last_slash ancestors below drop_below
    has_children make_dirs make_symlink remove_all write_file chmod_file written_perm GoMap.put
    Sort.insert str_lt
placing_fails = refl

place_failed_example :
    OldOrNew (codes "/h/rc") 420 (codes "old") rc (os_error call_write (codes "/h/rc")) unplaced
unfolding is_symlink_type GoMap.get str_eq
place_failed_example =
    place_failed (codes "/h/rc") 420 (codes "old") never rc full_disk unplaced
      (os_error call_write (codes "/h/rc")) refl refl placing_fails
