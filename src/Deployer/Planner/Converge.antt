-- ===== src/Deployer/Planner/Converge.antt =====
-- Planning again after an apply: there is nothing left to do.
use workspaced.Prelude.{
  Bool, true, false, not, Option, none, some, List, [], ◌∷◌, if◌then◌else◌, Str, map, AllPairs,
  AllPairs-In, ◌≡◌, ◌≢◌, refl, sym, ap, subst, arith, ◌⊎◌, inl, inr, ◌∙◌, All, All-In, All_of, In,
  In-filter, In-filter_of, append-nil, str_eq, str_eq_refl,
}
use workspaced.Prelude.Sort
use workspaced.Prelude.GoMap
use workspaced.Prelude.GoMap.{GoMap}
use workspaced.Os.{Disk, Node, Result, ok, err, below, lstat}
use workspaced.Source.{File, target}
use workspaced.Deployer.Types.{
  ActionType, create, update, delete, noop, ManagedInfo, State, Action, sort_actions, is_noop,
  action_less,
}
use workspaced.Deployer.Planner.{Planner, plan_one, plan_node, plan, is_desired, action_of}
use workspaced.Deployer.Planner.Members.{
  PlannedBy, IsOrphan, planned-IsAbout, is_desired-of, plan-cases, plan-file, plan-orphan,
  plan_all-total, orphans-nil, keys-desired,
}
use workspaced.Deployer.Planner.Replan.{IsQuiet, lstat-quiet, replan_shown, replan_same}
use workspaced.Deployer.Executor.{Patch, run_all, apply_patches, work_of, reduce, execute}
use workspaced.Deployer.Executor.Batch.{IsApart, Places, run-Holds, run-Ensures, run-SameFaults}
use workspaced.Deployer.Executor.Patches.{
  patch_of, run_all-patches, infos_after, get-apply_patches, infos_apart, infos_placed, owned,
  info_after,
}

-- Two files have different targets, and neither lies below the other.
abbrev pub IsDisjoint : File → File → Type 0
IsDisjoint f g =
    (target f ≢ target g)
    × (below (target f) (target g) ≡ false)
    × (below (target g) (target f) ≡ false)

IsDisjoint-symm : (f g : File) → IsDisjoint f g → IsDisjoint g f
IsDisjoint-symm f g (a, b, c) = ((λ e. a (sym e)), c, b)

-- A successful execution: the batch ran, and the state is patched.
executed-parts :
    (ignore : Str → Bool) (acts : List Action) (s s' : State) (d d' : Disk)
    → execute ignore acts s d ≡ (ok tt, s', d')
    → (ps : List Patch) × (run_all ignore (work_of acts) d ≡ (ok ps, d'))
      × (s' ≡ apply_patches s (map (patch_of ignore) (work_of acts)))
executed-parts ignore acts s s' d d' h =
    go (run_all ignore (work_of acts) d).0 (run_all ignore (work_of acts) d).1 refl
      (unfold execute in h)
  where
    go :
        (r : Result (List Patch)) (d₁ : Disk)
        → run_all ignore (work_of acts) d ≡ (r, d₁)
        → reduce s (r, d₁) ≡ (ok tt, s', d')
        → (ps : List Patch) × (run_all ignore (work_of acts) d ≡ (ok ps, d'))
          × (s' ≡ apply_patches s (map (patch_of ignore) (work_of acts)))
    go (ok ps) d₁ e k =
        (ps, ground arith, ground (arith, run_all-patches ignore (work_of acts) d d₁ ps e))
    go (err x) d₁ e k = absurd (ground arith)

work-In : (acts : List Action) (b : Action) → In b (work_of acts) → In b acts × (b.kind ≢ noop)
unfolding work_of sort_actions
work-In acts b m =
    let (n, e) = In-filter (λ a. not (is_noop a.kind)) b (sort_actions acts) m in
    (Sort.In-sort action_less b acts n, unfold is_noop in ground arith)

In-work : (acts : List Action) (b : Action) → In b acts → b.kind ≢ noop → In b (work_of acts)
unfolding work_of sort_actions
In-work acts b m h =
    In-filter_of (λ a. not (is_noop a.kind)) b (sort_actions acts)
      (Sort.In-sort_of action_less b acts m) (unfold is_noop in ground arith)

module _ (p : Planner) (d d' : Disk) (fs : List File) (s s' : State) (acts : List Action)
    (apart : AllPairs IsDisjoint fs) (planned : plan p d fs s ≡ ok acts) where
  -- For a desired file whose action is `a`: any other piece of work stays apart from its target.
  work-IsApart :
      (f : File) (a b : Action)
      → In f fs
      → plan_one p d s f ≡ ok a
      → In b (work_of acts)
      → IsApart (target f) b ⊎ (b ≡ a)
  work-IsApart f a b m e n = go (plan-cases p d fs s acts planned b (work-In acts b n).0)
    where
      related : (g : File) → In g fs → (f ≡ g) ⊎ IsDisjoint f g
      related g i = AllPairs-In IsDisjoint IsDisjoint-symm fs f g apart m i

      by_file :
          (g : File)
          → plan_one p d s g ≡ ok b
          → (f ≡ g) ⊎ IsDisjoint f g
          → IsApart (target f) b ⊎ (b ≡ a)
      by_file g x (inl q) = inr (ground (arith, ap (plan_one p d s) q))
      by_file g x (inr (ne, nb, nc)) =
          let about = planned-IsAbout p d s g b x in
          inl ((λ q. ne (sym q ∙ about.0)), inr (rw about.0 nc))

      go : PlannedBy p d s fs b ⊎ IsOrphan fs b → IsApart (target f) b ⊎ (b ≡ a)
      go (inl (g, i, x)) = by_file g x (related g i)
      go (inr (k, u)) =
          inl ((λ q. absurd (ground (arith, is_desired-of fs f m, ap (is_desired fs) q))), inl k)

noop-exists :
    (p : Planner) (d : Disk) (s : State) (f : File) (a : Action)
    → plan_one p d s f ≡ ok a
    → a.kind ≡ noop
    → (n : Node) × (lstat d (target f) ≡ some n)
unfolding plan_one
noop-exists p d s f a h k = go (lstat d (target f)) refl h
  where
    go :
        (o : Option Node)
        → lstat d (target f) ≡ o
        → plan_node p d (target f) f (GoMap.get s (target f)) o ≡ ok a
        → (n : Node) × (lstat d (target f) ≡ some n)
    go none e x = absurd (unfold plan_node in ground arith)
    go (some n) e x = (n, e)

-- Deletions leave no entry where there is none.
infos_none :
    (ignore : Str → Bool) (work : List Action) (t : Str)
    → All (λ b. (b.target ≢ t) ⊎ (b.kind ≡ delete)) work
    → infos_after ignore work t none ≡ none
infos_none ignore [] t h = refl
infos_none ignore (b ∷ work) t (inl ne, h) =
    ap (infos_after ignore work t) (infos_apart ignore (b ∷ []) t none (ne, tt))
    ∙ infos_none ignore work t h
infos_none ignore (b ∷ work) t (inr k, h) =
    rw k (ap (infos_after ignore work t) (if_same (str_eq b.target t)) ∙ infos_none ignore work t h)
  where
    if_same : (c : Bool) → ◌≡◌ {A = Option ManagedInfo} (if c then none else none) none
    if_same true = refl
    if_same false = refl

infos_deleted :
    (ignore : Str → Bool) (work : List Action) (t : Str) (old : Option ManagedInfo) (a : Action)
    → All (λ b. (b.target ≢ t) ⊎ (b.kind ≡ delete)) work
    → In a work
    → a.target ≡ t
    → a.kind ≡ delete
    → infos_after ignore work t old ≡ none
infos_deleted ignore [] t old a h m e k = elim m [ ]
infos_deleted ignore (b ∷ work) t old a (hb, h) (inl q) e k =
    rw (← q, k, e, str_eq_refl t) (infos_none ignore work t h)
infos_deleted ignore (b ∷ work) t old a (hb, h) (inr m) e k =
    infos_deleted ignore work t (info_after ignore b t old) a h m e k

module _ (p : Planner) (d d' : Disk) (fs : List File) (s s' : State) (acts : List Action)
    (cached : p.no_cache ≡ false) (quiet : IsQuiet d.fault) (moded : All (λ f. f.mode ≢ 0) fs)
    (apart : AllPairs IsDisjoint fs) (planned : plan p d fs s ≡ ok acts)
    (executed : execute p.ignore acts s d ≡ (ok tt, s', d')) where
  abbrev work : List Action
  work = work_of acts

  patched : s' ≡ apply_patches s (map (patch_of p.ignore) work)
  patched = (executed-parts p.ignore acts s s' d d' executed).2

  entry-after : (t : Str) → GoMap.get s' t ≡ infos_after p.ignore work t (GoMap.get s t)
  entry-after t = rw patched (get-apply_patches p.ignore work t s)

  faults-after : d'.fault ≡ d.fault
  faults-after =
      let (ps, e, _) = executed-parts p.ignore acts s s' d d' executed in
      (run-SameFaults d.fault p.ignore work).at d d' ps e refl

  again-noop :
      (f : File) (a : Action)
      → In f fs
      → plan_one p d s f ≡ ok a
      → a.kind ≡ noop
      → plan_one p d' s' f ≡ ok a
  again-noop f a m e k =
      let t = target f in
      let (ps, r, _) = executed-parts p.ignore acts s s' d d' executed in
      let (n, l) = noop-exists p d s f a e k in
      let others : All (IsApart t) work = All_of (IsApart t) work (λ b i.
        elim (work-IsApart p d d' fs s s' acts apart planned f a b m e i) [
          | inl h ↦ h
          | inr q ↦ absurd ((work-In acts b i).1 (ap (λ (x : Action). x.kind) q ∙ k))
        ]) in
      let here : GoMap.get d.nodes t ≡ some n = sym (lstat-quiet d quiet t) ∙ l in
      replan_same p d d' s s' f faults-after
        ((run-Holds p.ignore t n work others).at d d' ps r here ∙ sym here)
        (entry-after t
          ∙ infos_apart p.ignore work t (GoMap.get s t)
              (All_of (λ b. b.target ≢ t) work (λ b i. (All-In (IsApart t) b work others i).0)))
      ∙ e

  again-placed :
      (f : File) (a : Action)
      → In f fs
      → plan_one p d s f ≡ ok a
      → (a.kind ≡ create) ⊎ (a.kind ≡ update)
      → plan_one p d' s' f ≡ ok (action_of noop (target f) f (owned p.ignore (target f) f))
  again-placed f a m e k =
      let t = target f in
      let (ps, r, _) = executed-parts p.ignore acts s s' d d' executed in
      let about = planned-IsAbout p d s f a e in
      let places : Places t f a = (about.0, about.1, k) in
      let busy : a.kind ≢ noop = (λ q. ground arith) in
      let planned_in = plan-file p d fs s acts planned f m in
      let member : In a work =
        In-work acts a
          (subst (λ x. In x acts) {x = planned_in.0} {y = a} (ground (arith, planned_in.2, e))
            planned_in.1)
          busy in
      let others : All (λ b. IsApart t b ⊎ Places t f b) work =
        All_of (λ b. IsApart t b ⊎ Places t f b) work
          (λ b i. elim (work-IsApart p d d' fs s s' acts apart planned f a b m e i) [
            | inl h ↦ inl h
            | inr q ↦ inr (subst (Places t f) (sym q) places)
          ]) in
      replan_shown p d' (subst IsQuiet (sym faults-after) quiet) f
        (All-In (λ g. g.mode ≢ 0) f fs moded m) s' cached
        ((run-Ensures p.ignore t f work a member places others).at d d' ps r)
        (entry-after t
          ∙ infos_placed p.ignore work a t f (GoMap.get s t) member places (
              All_of (λ b. (b.target ≢ t) ⊎ Places t f b) work
                (λ b i. elim (All-In (λ b. IsApart t b ⊎ Places t f b) b work others i) [
                  | inl h ↦ inl h.0
                  | inr h ↦ inr h
                ])))

  file-noop : (f : File) → In f fs → (a : Action) × (plan_one p d' s' f ≡ ok a) × (a.kind ≡ noop)
  file-noop f m = let (a, i, e) = plan-file p d fs s acts planned f m in by_kind a e a.kind refl
    where
      by_kind :
          (a : Action)
          → plan_one p d s f ≡ ok a
          → (k : ActionType) → a.kind ≡ k
          → (a : Action) × (plan_one p d' s' f ≡ ok a) × (a.kind ≡ noop)
      by_kind a e noop q = (a, again-noop f a m e q, q)
      by_kind a e create q = (_, again-placed f a m e (inl q), refl)
      by_kind a e update q = (_, again-placed f a m e (inr q), refl)
      by_kind a e delete q = absurd ((planned-IsAbout p d s f a e).2 q)

  undesired-none : (path : Str) → is_desired fs path ≡ false → GoMap.get s' path ≡ none
  undesired-none path u = entry-after path ∙ by_entry (GoMap.get s path) refl
    where
      deletes : (b : Action) → In b work → (b.target ≢ path) ⊎ (b.kind ≡ delete)
      deletes b i = elim (plan-cases p d fs s acts planned b (work-In acts b i).0) [
        | inl (g, j, x) ↦ inl (λ q. absurd (
            ground (
              arith,
              is_desired-of fs g j,
              (planned-IsAbout p d s g b x).0,
              ap (is_desired fs) (sym (planned-IsAbout p d s g b x).0 ∙ q),
            )))
        | inr (k, x) ↦ inr k
      ]

      by_entry :
          (o : Option ManagedInfo) → GoMap.get s path ≡ o → infos_after p.ignore work path o ≡ none
      by_entry none e =
          infos_none p.ignore work path
            (All_of (λ b. (b.target ≢ path) ⊎ (b.kind ≡ delete)) work deletes)
      by_entry (some info) e =
          let (a, i, q, k) = plan-orphan p d fs s acts planned path info e u in
          infos_deleted p.ignore work path (some info) a
            (All_of (λ b. (b.target ≢ path) ⊎ (b.kind ≡ delete)) work deletes)
            (In-work acts a i (λ r. ground arith)) q k

  again : (xs : List Action) × (plan p d' fs s' ≡ ok xs) × All (λ a. a.kind ≡ noop) xs
  again =
      let (xs, e, ks) =
        plan_all-total p d' s' fs (
          All_of (λ f. (a : Action) × (plan_one p d' s' f ≡ ok a) × (a.kind ≡ noop)) fs
            file-noop) in
      let gone = orphans-nil fs s' (keys-desired fs s' undesired-none) in
      (xs, unfold plan in rw (e, gone, append-nil), ks)

-- An apply converges. Take a plan that is computed without --no-cache for files whose targets are
-- pairwise apart and whose modes are not 0, on a disk where looking at a path does not fail, and
-- execute it successfully. Then planning again, on the disk and the state that result, succeeds and
-- asks for nothing: every action is a noop, and no managed target is left to prune.
pub plan-execute_converges :
    (p : Planner) (d d' : Disk) (fs : List File) (s s' : State) (acts : List Action)
    → p.no_cache ≡ false
    → IsQuiet d.fault
    → All (λ f. f.mode ≢ 0) fs
    → AllPairs IsDisjoint fs
    → plan p d fs s ≡ ok acts
    → execute p.ignore acts s d ≡ (ok tt, s', d')
    → (xs : List Action) × (plan p d' fs s' ≡ ok xs) × All (λ a. a.kind ≡ noop) xs
plan-execute_converges = again
