-- ===== src/Deployer/Executor/Run.antt =====
-- What the work of a list of actions leaves on the disk, and which patches it returns.
use workspaced.Prelude.{
  ℕ, subst, sym, Bool, true, false, Option, none, some, if◌then◌else◌, Str, ◌≡◌, ◌≢◌, str_eq_refl,
  ◌∙◌,
}
use workspaced.Prelude.GoMap
use workspaced.Os.{
  chmod_file, Call, Disk, Node, regular, symlink, ok, err, below, written_perm, remove_all,
}
use workspaced.Os.Keeps.{
  remove-keeps, remove_all-keeps, mkdir_all-keeps, make_symlink-puts, write_file-puts, remove-fault,
  remove_all-fault, make_symlink-keeps, write_file-keeps, mkdir_all-fault, make_symlink-fault,
  write_file-fault, chmod_file-same,
}
use workspaced.FilePath
use workspaced.Source.{File}
use workspaced.Deployer.Planner.{is_symlink_type}
use workspaced.Deployer.Executor.{call, when, delete_fs, link_fs, file_fs, place_fs}
use workspaced.Deployer.Executor.Keeps.{
  Keeps, Keeps-bind, Keeps-call, Keeps-when, Keeps-if, Keeps-pure, Keeps-lift, Ensures,
  Ensures-bind, Ensures-then, Ensures-call, Ensures-lift,
}

-- A successful action at `path` does not touch the node at `t`.
abbrev pub Misses : Str → Str → Type 0
Misses path t = (path ≢ t) × (below path t ≡ false)

abbrev pub Holds : Str → Node → Disk → Type 0
Holds t n d = GoMap.get d.nodes t ≡ some n

Keeps-chmod :
    (P : Disk → Type 0) (path : Str) (mode : ℕ) → Keeps P (call (λ d. chmod_file d path mode))
Keeps-chmod P path mode =
    Keeps-call P _ (λ d d' e h. subst P (sym (chmod_file-same d d' path mode e)) h)

module _ (t : Str) (n : Node) where
  pub delete-Holds : (path : Str) → path ≢ t → Keeps (Holds t n) (delete_fs path)
  unfolding delete_fs
  delete-Holds path ne =
      Keeps-bind _ _ _
        (Keeps-when _ _ _ (Keeps-call _ _ (λ d d' e h. remove-keeps d d' path t e ne ∙ h)))
        (λ _. Keeps-pure _ _)

  clear-Holds :
      (path : Str) (test : Disk → Bool)
      → Misses path t
      → Keeps (Holds t n) (when test (call (λ d. remove_all d path)))
  clear-Holds path test (ne, nb) =
      Keeps-when _ _ _ (Keeps-call _ _ (λ d d' e h. remove_all-keeps d d' path t e ne nb ∙ h))

  link-Holds : (path : Str) (f : File) → Misses path t → Keeps (Holds t n) (link_fs path f)
  unfolding link_fs
  link-Holds path f m = Keeps-bind _ _ _ (clear-Holds path _ m) (λ _.
      Keeps-bind _ _ _ (Keeps-lift _ _)
        (λ to. Keeps-call _ _ (λ d d' e h. make_symlink-keeps d d' to path t e m.0 ∙ h)))

  file-Holds : (path : Str) (f : File) → Misses path t → Keeps (Holds t n) (file_fs path f)
  unfolding file_fs
  file-Holds path f m = Keeps-bind _ _ _ (clear-Holds path _ m) (λ _.
      Keeps-bind _ _ _ (Keeps-lift _ _) (λ bytes.
        Keeps-bind _ _ _
          (Keeps-call _ _ (λ d d' e h. write_file-keeps d d' path f.mode bytes t e m.0 ∙ h))
          (λ _. Keeps-chmod _ path f.mode)))

  pub place-Holds :
      (ignore : Str → Bool) (path : Str) (f : File)
      → Misses path t
      → Keeps (Holds t n) (place_fs ignore path f)
  unfolding place_fs
  place-Holds ignore path f m =
      Keeps-bind _ _ _
        (Keeps-call _ _ (λ d d' e h. mkdir_all-keeps d d' (FilePath.dir path) t n e h))
        (λ _.
          Keeps-bind _ _ _
            (Keeps-if _ (is_symlink_type f.file_type) _ _ (link-Holds path f m)
              (file-Holds path f m))
            (λ _. Keeps-pure _ _))

-- The node that a desired file stands for; `none` if its content or its link target cannot be had.
abbrev pub node_by : Bool → File → Option Node
node_by true f = elim f.link_target [ ok to ↦ some (symlink to) | err e ↦ none ]
node_by false f = elim f.reader [
  | ok bytes ↦ some (regular (written_perm f.mode) bytes)
  | err e ↦ none
]

abbrev pub node_of : File → Option Node
node_of f = node_by (is_symlink_type f.file_type) f

-- The node of the file `f`, whose content could be had, stands at `t`.
abbrev ShowsBy : Bool → Str → File → Disk → Type 0
ShowsBy b t f d = (n : Node) × (node_by b f ≡ some n) × Holds t n d

abbrev pub Shows : Str → File → Disk → Type 0
Shows t f d = (n : Node) × (node_of f ≡ some n) × Holds t n d

link-Ensures : (t : Str) (f : File) → Ensures (ShowsBy true t f) (link_fs t f)
unfolding link_fs
link-Ensures t f = Ensures-bind _ _ _ (λ _ _ _ _. Ensures-lift _ _ _ (λ to h.
    Ensures-call _ _
      (λ d₁ d₂ g. (symlink to, rw h, make_symlink-puts d₁ d₂ to t t g ∙ rw (str_eq_refl t)))))

file-Ensures : (t : Str) (f : File) → Ensures (ShowsBy false t f) (file_fs t f)
unfolding file_fs
file-Ensures t f = Ensures-bind _ _ _ (λ _ _ _ _. Ensures-lift _ _ _ (λ bytes h.
    Ensures-then _ _ _
      (Ensures-call _ _ (λ d₁ d₂ g. (
        regular (written_perm f.mode) bytes,
        rw h,
        write_file-puts d₁ d₂ t f.mode bytes t g ∙ rw (str_eq_refl t),
      )))
      (λ _. Keeps-chmod _ t f.mode)))

pub place-Ensures :
    (ignore : Str → Bool) (t : Str) (f : File) → Ensures (Shows t f) (place_fs ignore t f)
unfolding place_fs
place-Ensures ignore t f =
    Ensures-bind _ _ _
      (λ _ _ _ _. Ensures-then _ _ _ (by_type (is_symlink_type f.file_type)) (λ _. Keeps-pure _ _))
  where
    by_type : (b : Bool) → Ensures (ShowsBy b t f) (if b then link_fs t f else file_fs t f)
    by_type true = link-Ensures t f
    by_type false = file-Ensures t f

-- Faults stay what they are.
abbrev pub SameFaults : (Call → Str → Bool) → Disk → Type 0
SameFaults faults d = d.fault ≡ faults

module _ (faults : Call → Str → Bool) where
  pub delete-SameFaults : (path : Str) → Keeps (SameFaults faults) (delete_fs path)
  unfolding delete_fs
  delete-SameFaults path =
      Keeps-bind _ _ _
        (Keeps-when _ _ _ (Keeps-call _ _ (λ d d' e h. remove-fault d d' path e ∙ h)))
        (λ _. Keeps-pure _ _)

  clear-SameFaults :
      (path : Str) (test : Disk → Bool)
      → Keeps (SameFaults faults) (when test (call (λ d. remove_all d path)))
  clear-SameFaults path test =
      Keeps-when _ _ _ (Keeps-call _ _ (λ d d' e h. remove_all-fault d d' path e ∙ h))

  link-SameFaults : (path : Str) (f : File) → Keeps (SameFaults faults) (link_fs path f)
  unfolding link_fs
  link-SameFaults path f = Keeps-bind _ _ _ (clear-SameFaults path _) (λ _.
      Keeps-bind _ _ _ (Keeps-lift _ _)
        (λ to. Keeps-call _ _ (λ d d' e h. make_symlink-fault d d' to path e ∙ h)))

  file-SameFaults : (path : Str) (f : File) → Keeps (SameFaults faults) (file_fs path f)
  unfolding file_fs
  file-SameFaults path f = Keeps-bind _ _ _ (clear-SameFaults path _) (λ _.
      Keeps-bind _ _ _ (Keeps-lift _ _) (λ bytes.
        Keeps-bind _ _ _
          (Keeps-call _ _ (λ d d' e h. write_file-fault d d' path f.mode bytes e ∙ h))
          (λ _. Keeps-chmod _ path f.mode)))

  pub place-SameFaults :
      (ignore : Str → Bool) (path : Str) (f : File)
      → Keeps (SameFaults faults) (place_fs ignore path f)
  unfolding place_fs
  place-SameFaults ignore path f =
      Keeps-bind _ _ _ (Keeps-call _ _ (λ d d' e h. mkdir_all-fault d d' (FilePath.dir path) e ∙ h))
        (λ _.
          Keeps-bind _ _ _
            (Keeps-if _ (is_symlink_type f.file_type) _ _ (link-SameFaults path f)
              (file-SameFaults path f))
            (λ _. Keeps-pure _ _))
