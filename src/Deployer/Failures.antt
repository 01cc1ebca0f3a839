-- ===== src/Deployer/Failures.antt =====
-- What a failing apply leaves.
use workspaced.Prelude.{
  ◌⊎◌, inl, inr, ◌==◌, not, ◌&&◌, Bool-cases, ap, ◌∙◌, str_eq_refl, ℕ, Bool, false, List, Str, some,
  ◌≡◌, refl, arith,
}
use workspaced.Prelude.GoMap
use workspaced.FilePath
use workspaced.Os.{
  call_chmod, chmod_file, Disk, regular, Result, ok, err, Error, os_error, lstat, mkdir_all,
  write_file, written_perm,
}
use workspaced.Os.Keeps.{mkdir_all-keeps, write_file-puts}
use workspaced.Source.{File}
use workspaced.Deployer.Types.{Action, State}
use workspaced.Deployer.Planner.{is_symlink_type}
use workspaced.Deployer.Executor.{
  ◌>>=◌, continue, pure, lift, call, landed, when, Patch, patch_for, file_fs, place_fs, execute,
  run_all, reduce, work_of, is_special,
}

-- If any piece of work fails, the state is the one before the execution.
pub execute_failed :
    (ignore : Str → Bool) (acts : List Action) (s s' : State) (d d' : Disk) (e : Error)
    → execute ignore acts s d ≡ (err e, s', d')
    → s' ≡ s
execute_failed ignore acts s s' d d' e h =
    go (run_all ignore (work_of acts) d).0 (run_all ignore (work_of acts) d).1 (unfold execute in h)
  where
    go : (r : Result (List Patch)) (d₁ : Disk) → reduce s (r, d₁) ≡ (err e, s', d') → s' ≡ s
    go (ok ps) d₁ k = absurd (ground arith)
    go (err x) d₁ k = ground arith

module _ (t : Str) (perm : ℕ) (old : Str) where
  abbrev pub HasOld : Disk → Type 0
  HasOld d = GoMap.get d.nodes t ≡ some (regular perm old)

  not_special : (d : Disk) → HasOld d → is_special (lstat d t) ≡ false
  unfolding lstat
  not_special d h = ground arith

  -- The old file is still there, or the whole new one is and only its chmod failed.
  abbrev pub OldOrNew : File → Error → Disk → Type 0
  OldOrNew f e d =
      HasOld d
      ⊎ ((bytes : Str) × (f.reader ≡ ok bytes)
          × (GoMap.get d.nodes t ≡ some (regular (written_perm f.mode) bytes))
          × (e ≡ os_error call_chmod t))

  chmod_failed :
      (mode : ℕ) (d d' : Disk) (e : Error)
      → call (λ d. chmod_file d t mode) d ≡ (err e, d')
      → (d' ≡ d) × (e ≡ os_error call_chmod t)
  unfolding call chmod_file
  chmod_failed mode d d' e k = elim (Bool-cases (not (mode == 0) && d.fault call_chmod t)) [
    | inl q ↦ let k' = rw q at k in (ground (arith, k'), ground (arith, k'))
    | inr q ↦ let k' = rw q at k in absurd (ground (arith, k'))
  ]

  write_failed :
      (f : File) (bytes : Str) (d d' : Disk) (e : Error)
      → HasOld d
      → f.reader ≡ ok bytes
      → continue
          (call (λ d. write_file d t f.mode bytes) d).0
          (λ _. call (λ d. chmod_file d t f.mode))
          (call (λ d. write_file d t f.mode bytes) d).1
        ≡ (err e, d')
      → OldOrNew f e d'
  unfolding call
  write_failed f bytes d d' e h q k = go (write_file d t f.mode bytes) refl k
    where
      go :
          (r : Result Disk)
          → write_file d t f.mode bytes ≡ r
          → continue (landed d r).0 (λ _. call (λ d. chmod_file d t f.mode)) (landed d r).1
            ≡ (err e, d')
          → OldOrNew f e d'
      go (ok x) w c =
          let (same, which) = chmod_failed f.mode x d' e c in
          inr (
            bytes,
            q,
            ap (λ y. GoMap.get y.nodes t) same
                ∙ write_file-puts d x t f.mode bytes t w
                ∙ rw (str_eq_refl t) refl,
            which,
          )
      go (err x) w c = inl (ground (arith, c, h))

  file_failed :
      (f : File) (d d' : Disk) (e : Error)
      → HasOld d
      → file_fs t f d ≡ (err e, d')
      → OldOrNew f e d'
  file_failed f d d' e h k =
      go f.reader refl (unfold file_fs ◌>>=◌ when lift in (rw (not_special d h) at k))
    where
      go :
          (r : Result Str)
          → f.reader ≡ r
          → continue r
              (λ bytes d.
                continue
                  (call (λ d. write_file d t f.mode bytes) d).0
                  (λ _. call (λ d. chmod_file d t f.mode))
                  (call (λ d. write_file d t f.mode bytes) d).1)
              d
            ≡ (err e, d')
          → OldOrNew f e d'
      go (ok bytes) q c = write_failed f bytes d d' e h q c
      go (err x) q c = inl (ground (arith, c, h))

  -- An existing regular file is never lost to a failure: if placing a file that is no symbolic link
  -- over it fails, at whatever step, the old content and permissions are still there, or the whole new
  -- file is, and what failed is the chmod behind its rename.
  pub place_failed :
      (ignore : Str → Bool) (f : File) (d d' : Disk) (e : Error)
      → is_symlink_type f.file_type ≡ false
      → HasOld d
      → place_fs ignore t f d ≡ (err e, d')
      → OldOrNew f e d'
  place_failed ignore f d d' e plain h k =
      go (mkdir_all d (FilePath.dir t)) refl (unfold place_fs ◌>>=◌ call in (rw plain at k))
    where
      last :
          (r : Result Unit) (d₂ d₁ : Disk)
          → file_fs t f d₁ ≡ (r, d₂)
          → HasOld d₁
          → continue r (λ _. pure (patch_for ignore t f)) d₂ ≡ (err e, d')
          → OldOrNew f e d'
      last (ok x) d₂ d₁ q i p = unfold pure in absurd (ground arith)
      last (err x) d₂ d₁ q i p = file_failed f d₁ d' e i (q ∙ ground (arith, p))

      go :
          (r : Result Disk)
          → mkdir_all d (FilePath.dir t) ≡ r
          → continue
              (landed d r).0
              (λ _ d₁.
                let (r₂, d₂) = file_fs t f d₁ in continue r₂ (λ _. pure (patch_for ignore t f)) d₂)
              (landed d r).1
            ≡ (err e, d')
          → OldOrNew f e d'
      go (ok d₁) q p =
          last (file_fs t f d₁).0 (file_fs t f d₁).1 d₁ refl
            (mkdir_all-keeps d d₁ (FilePath.dir t) t (regular perm old) q h) p
      go (err x) q p = inl (ground (arith, p, h))
