-- ===== src/Deployer/Planner/Replan.antt =====
-- What the planner finds for one file: on a disk that shows it, and on one that is the same there.
use workspaced.Prelude.{
  ℕ, Bool, true, false, Option, none, some, Str, ◌≡◌, ◌≢◌, refl, ap, arith, str_eq_refl, ◌∙◌,
}
use workspaced.Prelude.GoMap
use workspaced.Os.{
  Call, call_lstat, call_readlink, call_read, Disk, Node, regular, symlink, Result, ok, err, lstat,
  readlink, open_file, contents, written_perm, perm_bits,
}
use workspaced.Source.{File, target}
use workspaced.Deployer.Types.{noop, ManagedInfo, State}
use workspaced.Deployer.Planner.{
  Planner, plan_one, plan_node, plan_existing, settle, needs_update, is_same_bundle,
  is_symlink_type, action_of,
}
use workspaced.Deployer.Executor.Run.{node_by, Holds, Shows}
use workspaced.Deployer.Executor.Patches.{owned}

-- Looking at the disk does not fail.
abbrev pub IsQuiet : (Call → Str → Bool) → Type 0
IsQuiet fault =
    (q : Str)
    → (fault call_lstat q ≡ false) × (fault call_readlink q ≡ false) × (fault call_read q ≡ false)

module _ (d : Disk) (quiet : IsQuiet d.fault) (t : Str) where
  pub lstat-quiet : lstat d t ≡ GoMap.get d.nodes t
  unfolding lstat
  lstat-quiet = rw (quiet t).0

  readlink-quiet : (to : Str) → GoMap.get d.nodes t ≡ some (symlink to) → readlink d t ≡ ok to
  unfolding readlink
  readlink-quiet to h = rw ((quiet t).1, h)

  open_file-quiet :
      (perm : ℕ) (bytes : Str)
      → GoMap.get d.nodes t ≡ some (regular perm bytes)
      → open_file d t ≡ contents bytes
  unfolding open_file
  open_file-quiet perm bytes h = rw ((quiet t).2, h)

written_perm-mode : (mode : ℕ) → mode ≢ 0 → written_perm mode ≡ perm_bits mode
unfolding written_perm
written_perm-mode mode h = ground arith

module _ (p : Planner) (d : Disk) (quiet : IsQuiet d.fault) (f : File) (moded : f.mode ≢ 0) where
  differs_not :
      (t : Str) (b : Bool) (n : Node)
      → is_symlink_type f.file_type ≡ b
      → node_by b f ≡ some n
      → Holds t n d
      → needs_update p d t f n ≡ ok false
  differs_not t true n e h g = go f.link_target refl h
    where
      go :
          (r : Result Str)
          → f.link_target ≡ r
          → (elim r [ ok to ↦ some (symlink to) | err x ↦ none ]) ≡ some n
          → needs_update p d t f n ≡ ok false
      go (ok to) q k =
          let s : n ≡ symlink to = ground arith in
          let l : readlink d t ≡ ok to = readlink-quiet d quiet t to (g ∙ ap some s) in
          unfold needs_update in rw (s, e, q, l, str_eq_refl to)
      go (err x) q k = cc
  differs_not t false n e h g = go f.reader refl h
    where
      go :
          (r : Result Str)
          → f.reader ≡ r
          → (elim r [ ok bytes ↦ some (regular (written_perm f.mode) bytes) | err x ↦ none ])
            ≡ some n
          → needs_update p d t f n ≡ ok false
      go (ok bytes) q k =
          let s : n ≡ regular (written_perm f.mode) bytes = ground arith in
          let l : open_file d t ≡ contents bytes =
            open_file-quiet d quiet t _ bytes (g ∙ ap some s) in
          let perm : written_perm f.mode ≡ perm_bits f.mode = written_perm-mode f.mode moded in
          unfold needs_update in rw (s, e, q, l, perm, str_eq_refl (p.sha256 bytes)) (ground arith)
      go (err x) q k = cc

  -- On a disk that shows the file, with the entry that an apply leaves, there is nothing to do.
  pub replan_shown :
      (s : State)
      → p.no_cache ≡ false
      → Shows (target f) f d
      → GoMap.get s (target f) ≡ owned p.ignore (target f) f
      → plan_one p d s f ≡ ok (action_of noop (target f) f (owned p.ignore (target f) f))
  replan_shown s cached (n, e, g) h =
      let t = target f in
      let seen : lstat d t ≡ some n = lstat-quiet d quiet t ∙ g in
      unfold plan_one in
      rw (h, seen)
        (unfold plan_node plan_existing in
          rw (cached, differs_not t (is_symlink_type f.file_type) n refl e g)
            (unfold settle is_same_bundle in ground (arith, str_eq_refl f.source_info)))

-- The plan of one file depends only on what stands at its target and on its entry.
pub replan_same :
    (p : Planner) (d d' : Disk) (s s' : State) (f : File)
    → d'.fault ≡ d.fault
    → GoMap.get d'.nodes (target f) ≡ GoMap.get d.nodes (target f)
    → GoMap.get s' (target f) ≡ GoMap.get s (target f)
    → plan_one p d' s' f ≡ plan_one p d s f
replan_same p d d' s s' f faults node entry =
    unfold plan_one in rw (entry, same_lstat) (same_plan _ (lstat d (target f)))
  where
    same_lstat : lstat d' (target f) ≡ lstat d (target f)
    same_lstat = unfold lstat in rw (faults, node)

    same_readlink : readlink d' (target f) ≡ readlink d (target f)
    same_readlink = unfold readlink in rw (faults, node)

    same_open : open_file d' (target f) ≡ open_file d (target f)
    same_open = unfold open_file in rw (faults, node)

    same_plan :
        (current : Option ManagedInfo) (o : Option Node)
        → plan_node p d' (target f) f current o ≡ plan_node p d (target f) f current o
    same_plan current none = unfold plan_node in refl
    same_plan current (some n) =
        unfold plan_node plan_existing needs_update in simp (same_readlink, same_open)
