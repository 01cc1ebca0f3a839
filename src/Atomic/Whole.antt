-- ===== src/Atomic/Whole.antt =====
-- internal/atomicfile/atomicfile.go: a file is the old one or the new one, and no other file changes.
use workspaced.Prelude.{
  arith, ℕ, ◌≡◌, ◌≢◌, ◌⊎◌, refl, sym, ap, ◌∙◌, Bool, true, false, none, some, [], ◌==◌,
  if◌then◌else◌, Str, str_eq, str_eq_iff, str_eq_refl, str_eq_ne, inl, inr, take,
}
use workspaced.FilePath.{dir}
use workspaced.Os.{ancestors}
use workspaced.Prelude.GoMap
use workspaced.Prelude.GoMap.{GoMap}
use workspaced.Atomic.{
  Entry, Disk, WriteFaults, Written, ok, failed, removed, put_temp, or_default, install, commit,
  copy_and_commit, write,
}
use workspaced.Atomic.Dirs.{HasDirs, made-HasDirs, partly-HasDirs}

-- Each path but that of the file and of the temporary file has what it had.
abbrev KeepsOthers : Str → Str → GoMap Entry → GoMap Entry → Type 0
KeepsOthers tmp path disk after =
    (q : Str) → q ≢ path → q ≢ tmp → GoMap.get after q ≡ GoMap.get disk q

-- What a write leaves: on success the file with all its bytes and its mode, on failure the old file or, if the
-- last chmod can fail, all the new bytes; the temporary file is gone unless its removal can fail.
abbrev pub IsWhole :
    Bool → Bool → Str → Str → ℕ → Str → GoMap Entry → Written × GoMap Entry → Type 0
IsWhole no_remove no_chmod tmp path perm bytes disk (ok, after) =
    (GoMap.get after path ≡ some (record { perm = or_default perm; content = bytes }))
    × (GoMap.get after tmp ≡ none)
    × KeepsOthers tmp path disk after
IsWhole no_remove no_chmod tmp path perm bytes disk (failed, after) =
    ((GoMap.get after path ≡ GoMap.get disk path)
      ⊎ ((no_chmod ≡ true)
          × (GoMap.get after path ≡ some (record { perm = or_default perm; content = bytes }))))
    × ((no_remove ≡ true) ⊎ (GoMap.get after tmp ≡ none))
    × KeepsOthers tmp path disk after

module _ (tmp path : Str) (perm : ℕ) (bytes : Str) (disk : GoMap Entry) (ne : tmp ≢ path)
    (fresh : GoMap.get disk tmp ≡ none) where
  gone : (d : GoMap Entry) (q : Str) → q ≢ tmp → GoMap.get (GoMap.remove d tmp) q ≡ GoMap.get d q
  gone d q nt = ground (arith, GoMap.get-remove d tmp q, str_eq_iff tmp q, nt)

  with_temp :
      (t : ℕ) (content : Str) (q : Str)
      → q ≢ tmp
      → GoMap.get (put_temp tmp t content disk) q ≡ GoMap.get disk q
  with_temp t content q nt = ground (
    arith,
    GoMap.get-put disk tmp (record { perm = t; content = content }) q,
    str_eq_iff tmp q,
    nt,
  )

  untouched :
      (no_remove no_chmod : Bool)
      → IsWhole no_remove no_chmod tmp path perm bytes disk (failed, disk)
  untouched no_remove no_chmod = (inl refl, inr fresh, λ q np nt. refl)

  temp_left :
      (no_remove no_chmod : Bool) (t : ℕ) (content : Str)
      → IsWhole no_remove no_chmod tmp path perm bytes disk
          (failed, removed no_remove tmp (put_temp tmp t content disk))
  temp_left true no_chmod t content = (
    inl (with_temp t content path (λ e. ne (sym e))),
    inl refl,
    λ q np nt. with_temp t content q nt,
  )
  temp_left false no_chmod t content = (
    inl (
        gone (put_temp tmp t content disk) path (λ e. ne (sym e))
        ∙ with_temp t content path (λ e. ne (sym e))),
    inr (ground (arith, GoMap.get-remove (put_temp tmp t content disk) tmp tmp, str_eq_refl tmp)),
    λ q np nt. gone (put_temp tmp t content disk) q nt ∙ with_temp t content q nt,
  )

  -- The disk with the new file.
  abbrev moved : Entry → GoMap Entry
  moved e = GoMap.put (GoMap.remove (put_temp tmp (or_default perm) bytes disk) tmp) path e

  moved-get :
      (e : Entry) (q : Str)
      → GoMap.get (moved e) q ≡ (
          if str_eq path q
          then some e
          else GoMap.get (GoMap.remove (put_temp tmp (or_default perm) bytes disk) tmp) q)
  moved-get e q =
      GoMap.get-put (GoMap.remove (put_temp tmp (or_default perm) bytes disk) tmp) path e q

  moved-path : (e : Entry) → GoMap.get (moved e) path ≡ some e
  moved-path e = rw (moved-get e path, str_eq_refl path) refl

  moved-tmp : (e : Entry) → GoMap.get (moved e) tmp ≡ none
  moved-tmp e =
      rw (moved-get e tmp, str_eq_ne path tmp (λ x. ne (sym x)))
        (ground (
          arith,
          GoMap.get-remove (put_temp tmp (or_default perm) bytes disk) tmp tmp,
          str_eq_refl tmp,
        ))

  moved-KeepsOthers : (e : Entry) → KeepsOthers tmp path disk (moved e)
  moved-KeepsOthers e q np nt =
      rw (moved-get e q, str_eq_ne path q (λ x. np (sym x)))
        (gone (put_temp tmp (or_default perm) bytes disk) q nt
          ∙ with_temp (or_default perm) bytes q nt)

  abbrev new_file : Entry
  new_file = record { perm = or_default perm; content = bytes }

  on_if :
      (P : Written × GoMap Entry → Type 0) (b : Bool) (x y : Written × GoMap Entry)
      → (b ≡ true → P x)
      → (b ≡ false → P y)
      → P (if b then x else y)
  on_if P true x y h k = h refl
  on_if P false x y h k = k refl

  given_mode : (perm == 0) ≡ false → or_default perm ≡ perm
  given_mode e = rw (e) refl

  module _ (faults : WriteFaults) where
    abbrev Whole : Written × GoMap Entry → Type 0
    Whole = IsWhole faults.remove faults.chmod_final tmp path perm bytes disk

    moded : or_default perm ≡ perm → Whole (ok, moved (record new_file { perm = perm }))
    moded e = (
      moved-path (record new_file { perm = perm })
          ∙ ap (λ m. some (record new_file { perm = m })) (sym e),
      moved-tmp (record new_file { perm = perm }),
      moved-KeepsOthers (record new_file { perm = perm }),
    )

    install-IsWhole :
        Whole (install faults tmp path perm new_file (put_temp tmp (or_default perm) bytes disk))
    unfolding install
    install-IsWhole =
        on_if Whole faults.rename _ _
          (λ a. temp_left faults.remove faults.chmod_final (or_default perm) bytes)
          λ a.
            on_if Whole (perm == 0) _ _
              (λ b. (moved-path new_file, moved-tmp new_file, moved-KeepsOthers new_file))
              λ b.
                on_if Whole faults.chmod_final _ _
                  (λ c. (
                    inr (c, moved-path new_file),
                    inr (moved-tmp new_file),
                    moved-KeepsOthers new_file,
                  ))
                  (λ c. moded (given_mode b))

    commit-IsWhole :
        Whole (commit faults tmp path perm new_file (put_temp tmp (or_default perm) bytes disk))
    unfolding commit
    commit-IsWhole =
        on_if Whole faults.close _ _
          (λ a. temp_left faults.remove faults.chmod_final (or_default perm) bytes)
          (λ a. install-IsWhole)

    copy-IsWhole : Whole (copy_and_commit faults tmp path perm bytes disk)
    unfolding copy_and_commit
    copy-IsWhole =
        on_if Whole faults.copy _ _
          (λ a.
            temp_left faults.remove faults.chmod_final (or_default perm) (take faults.copied bytes))
          (λ a. commit-IsWhole)

on_disk :
    (P : Written × Disk → Type 0) (b : Bool) (x y : Written × Disk)
    → P x
    → P y
    → P (if b then x else y)
on_disk P true x y h k = h
on_disk P false x y h k = k

-- Write is atomic, whichever of its calls fail: on success the file has all the bytes and the mode, which is
-- 0o666 if it is given as 0, whatever the umask is; on failure the file is what it was, unless the last chmod
-- failed, when it has all the bytes. No other file changes, and the temporary file is gone unless its removal
-- failed. Its name is new and not that of the file. The only new directories are parents of the file, all of
-- which are there on success.
pub write-IsWhole :
    (faults : WriteFaults) (tmp path : Str) (perm : ℕ) (bytes : Str) (disk : Disk)
    → tmp ≢ path
    → GoMap.get disk.files tmp ≡ none
    → IsWhole faults.remove faults.chmod_final tmp path perm bytes disk.files
        ((write faults tmp path perm bytes disk).0, (write faults tmp path perm bytes disk).1.files)
      × HasDirs
          (ancestors [] (dir path))
          disk.dirs
          (write faults tmp path perm bytes disk).0
          (write faults tmp path perm bytes disk).1.dirs
unfolding write
write-IsWhole faults tmp path perm bytes disk ne fresh =
    let ps = ancestors [] (dir path) in
    let P : Written × Disk → Type 0 = λ r.
      IsWhole faults.remove faults.chmod_final tmp path perm bytes disk.files (r.0, r.1.files)
      × HasDirs ps disk.dirs r.0 r.1.dirs in
    let same = untouched tmp path perm bytes disk.files ne fresh faults.remove faults.chmod_final in
    on_disk P faults.mkdir_all _ _ (same, partly-HasDirs faults.made ps disk.dirs)
      (on_disk P faults.create_temp _ _ (same, made-HasDirs failed ps disk.dirs)
        (on_disk P faults.chmod_temp _ _
          (
            temp_left tmp path perm bytes disk.files ne fresh faults.remove faults.chmod_final 0o600
                [],
            made-HasDirs failed ps disk.dirs,
          )
          (
            copy-IsWhole tmp path perm bytes disk.files ne fresh faults,
            made-HasDirs (copy_and_commit faults tmp path perm bytes disk.files).0 ps disk.dirs,
          )))
