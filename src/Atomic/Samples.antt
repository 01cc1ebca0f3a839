-- ===== src/Atomic/Samples.antt =====
-- A disk with one file on which the theorem on internal/atomicfile/atomicfile.go is applied.
use workspaced.Prelude.{arith, refl, true, false, some, [], ◌∷◌, Str, codes, str_eq}
use workspaced.Prelude.GoMap
use workspaced.Prelude.GoMap.{GoMap}
use workspaced.FilePath.{dir}
use workspaced.Os.{ancestors}
use workspaced.Atomic.{Disk, Written, WriteFaults, write, ReplaceFaults, replace_dir}
use workspaced.Atomic.Replaced.{IsReplaced, replace_dir-IsReplaced}
use workspaced.Atomic.Dirs.{HasDirs}
use workspaced.Atomic.Whole.{IsWhole, write-IsWhole}

-- The last chmod fails.
abbrev late_fault : WriteFaults
late_fault = record {
  mkdir_all = false;
  made = 0;
  create_temp = false;
  chmod_temp = false;
  copy = false;
  copied = 0;
  close = false;
  rename = false;
  remove = false;
  chmod_final = true;
}

abbrev disk : Disk
disk = record {
  files = (codes "/d/a", record { perm = 0o644; content = codes "old" }) ∷ [];
  dirs = codes "/" ∷ codes "/d" ∷ [];
}

abbrev written : Written × Disk
written = write late_fault (codes "/d/a.tmp-1") (codes "/d/a") 0o755 (codes "new") disk

write-IsWhole_example :
    IsWhole false true
      (codes "/d/a.tmp-1")
      (codes "/d/a")
      0o755
      (codes "new")
      disk.files
      (written.0, written.1.files)
    × HasDirs (ancestors [] (dir (codes "/d/a"))) disk.dirs written.0 written.1.dirs
unfolding GoMap.get str_eq
write-IsWhole_example =
    write-IsWhole late_fault (codes "/d/a.tmp-1") (codes "/d/a") 0o755 (codes "new") disk
      (λ e. ground (arith, e)) refl

-- The rename into place fails.
abbrev no_move : ReplaceFaults
no_move = record {
  mkdir_all = false;
  remove_old = false;
  stat = false;
  rename_away = false;
  remove_dest = false;
  rename_in = true;
  rename_back = false;
  remove_last = false;
}

abbrev two_dirs : GoMap Str
two_dirs = (codes "d", codes "old") ∷ (codes "t", codes "new") ∷ []

replace_dir-IsReplaced_example :
    IsReplaced no_move
      (codes "d")
      (some (codes "old"))
      (codes "new")
      (replace_dir no_move (codes "d") (codes "t") two_dirs)
unfolding GoMap.get str_eq
replace_dir-IsReplaced_example =
    replace_dir-IsReplaced no_move (codes "d") (codes "t") (codes "new") two_dirs
      (λ e. ground (arith, e)) (λ e. ground (arith, e)) refl
