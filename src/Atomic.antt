-- ===== src/Atomic.antt =====
-- internal/atomicfile/atomicfile.go: a write by way of a temporary file, call by call, and the replacement of a
-- directory. A disk maps paths to what is there; which calls fail is given.
pub mod Dirs
pub mod Whole
pub mod Replaced
mod Samples
use workspaced.Prelude.{
  ℕ, Bool, true, false, ◌&&◌, not, Option, none, some, List, [], ◌∷◌, ◌++◌, ◌==◌, if◌then◌else◌,
  Str, codes, take, str_eq, ◌||◌,
}
use workspaced.FilePath.{dir}
use workspaced.Os.{ancestors}
use workspaced.Prelude.GoMap
use workspaced.Prelude.GoMap.{GoMap}

pub record Entry : Type 0 where
  pub perm : ℕ
  pub content : Str

-- The files, and the directories.
pub record Disk : Type 0 where
  pub files : GoMap Entry
  pub dirs : List Str

-- The calls of a write that fail; a failed MkdirAll has been through the first `made` directories, and a
-- failed copy has written `copied` bytes.
pub record WriteFaults : Type 0 where
  pub mkdir_all : Bool
  pub made : ℕ
  pub create_temp : Bool
  pub chmod_temp : Bool
  pub copy : Bool
  pub copied : ℕ
  pub close : Bool
  pub rename : Bool
  pub remove : Bool
  pub chmod_final : Bool

pub data Written : Type 0 where
  ok failed : Written

abbrev pub removed : Bool → Str → GoMap Entry → GoMap Entry
removed fails path disk = if fails then disk else GoMap.remove disk path

abbrev pub put_temp : Str → ℕ → Str → GoMap Entry → GoMap Entry
put_temp tmp perm content disk = GoMap.put disk tmp (record { perm = perm; content = content })

abbrev pub or_default : ℕ → ℕ
or_default perm = if perm == 0 then 0o666 else perm

-- Install, with the mode of CommitMode.
unfoldable pub install : WriteFaults → Str → Str → ℕ → Entry → GoMap Entry → Written × GoMap Entry
install faults tmp path mode e disk =
    let moved = GoMap.put (GoMap.remove disk tmp) path e in
    let moded = GoMap.put (GoMap.remove disk tmp) path (record e { perm = mode }) in
    if faults.rename
    then (failed, removed faults.remove tmp disk)
    else if mode == 0
    then (ok, moved)
    else if faults.chmod_final
    then (failed, moved)
    else (ok, moded)

-- The close of commit, and Install.
unfoldable pub commit : WriteFaults → Str → Str → ℕ → Entry → GoMap Entry → Written × GoMap Entry
unfolding install
commit faults tmp path mode e disk =
    let installed = install faults tmp path mode e disk in
    if faults.close then (failed, removed faults.remove tmp disk) else installed

-- Write behind Create: the copy, with Abort if it fails.
unfoldable pub copy_and_commit :
    WriteFaults → Str → Str → ℕ → Str → GoMap Entry → Written × GoMap Entry
unfolding commit
copy_and_commit faults tmp path perm bytes disk =
    let e : Entry = record { perm = or_default perm; content = bytes } in
    let committed = commit faults tmp path perm e (put_temp tmp (or_default perm) bytes disk) in
    if faults.copy
    then (
      failed,
      removed faults.remove tmp (put_temp tmp (or_default perm) (take faults.copied bytes) disk),
    )
    else committed

unfoldable pub is_dir : Str → List Str → Bool
is_dir p [] = false
is_dir p (d ∷ dirs) = str_eq d p || is_dir p dirs

-- The directories that are not there are made.
unfoldable pub make_dirs : List Str → List Str → List Str
unfolding is_dir
make_dirs [] dirs = dirs
make_dirs (p ∷ ps) dirs = make_dirs ps (if is_dir p dirs then dirs else p ∷ dirs)

-- Write; `tmp` is the name that CreateTemp has found.
unfoldable pub write : WriteFaults → Str → Str → ℕ → Str → Disk → Written × Disk
unfolding copy_and_commit make_dirs
write faults tmp path perm bytes disk =
    let parents = ancestors [] (dir path) in
    let made = make_dirs parents disk.dirs in
    let (result, files) = copy_and_commit faults tmp path perm bytes disk.files in
    if faults.mkdir_all
    then (failed, record disk { dirs = make_dirs (take faults.made parents) disk.dirs })
    else if faults.create_temp
    then (failed, record disk { dirs = made })
    else if faults.chmod_temp
    then (
      failed,
      record { files = removed faults.remove tmp (put_temp tmp 0o600 [] disk.files); dirs = made },
    )
    else (result, record { files = files; dirs = made })

-- The calls of ReplaceDir that fail.
pub record ReplaceFaults : Type 0 where
  pub mkdir_all : Bool
  pub remove_old : Bool
  pub stat : Bool
  pub rename_away : Bool
  pub remove_dest : Bool
  pub rename_in : Bool
  pub rename_back : Bool
  pub remove_last : Bool

module _ {T : Type 0} where
  abbrev pub renamed : Option T → Str → Str → GoMap T → GoMap T
  renamed none src path disk = disk
  renamed (some t) src path disk = GoMap.put (GoMap.remove disk src) path t

  -- os.Rename of a directory that may not be there.
  unfoldable pub rename : Str → Str → GoMap T → GoMap T
  rename src path disk = renamed (GoMap.get disk src) src path disk

  -- The last part of ReplaceDir.
  unfoldable pub move_in : ReplaceFaults → Str → Str → Str → GoMap T → Written × GoMap T
  unfolding rename
  move_in faults dest tmp old disk =
      if faults.rename_in
      then (failed, if faults.rename_back then disk else rename old dest disk)
      else if faults.remove_last
      then (failed, rename tmp dest disk)
      else (ok, GoMap.remove (rename tmp dest disk) old)

  -- The part behind the removal of the old directory, with what is at the destination.
  unfoldable pub move_away :
      ReplaceFaults → Str → Str → Str → Option T → GoMap T → Written × GoMap T
  unfolding move_in rename
  move_away faults dest tmp old none disk = move_in faults dest tmp old disk
  move_away faults dest tmp old (some t) disk =
      let away = move_in faults dest tmp old (rename dest old disk) in
      let gone = move_in faults dest tmp old (GoMap.remove disk dest) in
      if not faults.rename_away then away else if faults.remove_dest then (failed, disk) else gone

  unfoldable pub replace_dir : ReplaceFaults → Str → Str → GoMap T → Written × GoMap T
  unfolding move_away
  replace_dir faults dest tmp disk =
      let old = dest ++ codes ".old" in
      let rest = move_away faults dest tmp old (GoMap.get disk dest) (GoMap.remove disk old) in
      if faults.mkdir_all
      then (failed, disk)
      else if faults.remove_old
      then (failed, disk)
      else if faults.stat
      then (failed, GoMap.remove disk old)
      else rest
