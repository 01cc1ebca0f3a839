-- ===== src/Deployer/Planner/Members.antt =====
-- Which actions a plan holds.
use workspaced.Prelude.{
  Bool, true, false, Option, none, some, List, [], ◌∷◌, ◌++◌, Str, All-In, In-append-cases, ◌≡◌,
  ◌≢◌, refl, sym, subst, arith, All, In, ◌⊎◌, inl, inr, str_eq_refl, str_eq, str_eq_iff,
  In-append_left, In-append_right, Bool-cases,
}
use workspaced.Prelude.GoMap
use workspaced.Os.{Disk, Node, Result, ok, err, ◌>>=◌, lstat}
use workspaced.Source.{File, target}
use workspaced.Deployer.Types.{delete, noop, ManagedInfo, State, Action}
use workspaced.Deployer.Planner.{
  Planner, plan_one, plan_node, plan_existing, plan_all, plan, orphans, is_desired, settle,
  needs_update,
}

-- The action is what the planner makes of one of the files.
abbrev pub PlannedBy : Planner → Disk → State → List File → Action → Type 0
PlannedBy p d s fs a = (g : File) × In g fs × (plan_one p d s g ≡ ok a)

ok-cons :
    (r : Result Action) (rs : Result (List Action)) (acts : List Action)
    → (r >>= λ a. rs >>= λ rest. ok (a ∷ rest)) ≡ ok acts
    → (a : Action) × (rest : List Action) × (r ≡ ok a) × (rs ≡ ok rest) × (acts ≡ a ∷ rest)
ok-cons (ok a) (ok rest) acts h = (a, rest, refl, refl, ground arith)
ok-cons (ok a) (err e) acts h = cc
ok-cons (err e) rs acts h = cc

pub plan_all-planned :
    (p : Planner) (d : Disk) (s : State) (fs : List File) (acts : List Action)
    → plan_all p d s fs ≡ ok acts
    → (a : Action) → In a acts
    → PlannedBy p d s fs a
unfolding plan_all
plan_all-planned p d s [] acts h a m = absurd (subst (In a) {y = []} (ground arith) m)
plan_all-planned p d s (f ∷ fs) acts h a m =
    let (b, rest, e, g, q) = ok-cons (plan_one p d s f) (plan_all p d s fs) acts h in
    go b rest e (plan_all-planned p d s fs rest g a) (subst (In a) q m)
  where
    go :
        (b : Action) (rest : List Action)
        → plan_one p d s f ≡ ok b
        → (In a rest → PlannedBy p d s fs a)
        → In a (b ∷ rest)
        → PlannedBy p d s (f ∷ fs) a
    go b rest e k (inl q) = (f, inl refl, rw q e)
    go b rest e k (inr n) = let (g, i, x) = k n in (g, inr i, x)

plan_all-of :
    (p : Planner) (d : Disk) (s : State) (fs : List File) (acts : List Action)
    → plan_all p d s fs ≡ ok acts
    → (f : File) → In f fs
    → (a : Action) × In a acts × (plan_one p d s f ≡ ok a)
unfolding plan_all
plan_all-of p d s [] acts h f m = elim m [ ]
plan_all-of p d s (g ∷ fs) acts h f m =
    let (b, rest, e, k, q) = ok-cons (plan_one p d s g) (plan_all p d s fs) acts h in
    go b rest q e (plan_all-of p d s fs rest k f) m
  where
    go :
        (b : Action) (rest : List Action)
        → acts ≡ b ∷ rest
        → plan_one p d s g ≡ ok b
        → (In f fs → (a : Action) × In a rest × (plan_one p d s f ≡ ok a))
        → In f (g ∷ fs)
        → (a : Action) × In a acts × (plan_one p d s f ≡ ok a)
    go b rest q e k (inl x) = (b, subst (In b) (sym q) (inl refl), rw x e)
    go b rest q e k (inr n) = let (a, i, y) = k n in (a, subst (In a) (sym q) (inr i), y)

abbrev pub IsOrphan : List File → Action → Type 0
IsOrphan fs a = (a.kind ≡ delete) × (is_desired fs a.target ≡ false)

orphans-IsOrphan : (fs : List File) (s : State) → All (IsOrphan fs) (orphans fs s)
unfolding orphans
orphans-IsOrphan fs [] = tt
orphans-IsOrphan fs ((path, info) ∷ s) = elim (Bool-cases (is_desired fs path)) [
  | inl h ↦ rw h (orphans-IsOrphan fs s)
  | inr h ↦ rw h ((refl, h), orphans-IsOrphan fs s)
]

-- A managed target that no file wants is deleted by the plan.
orphans-of :
    (fs : List File) (s : State) (path : Str) (info : ManagedInfo)
    → GoMap.get s path ≡ some info
    → is_desired fs path ≡ false
    → (a : Action) × In a (orphans fs s) × (a.target ≡ path)
unfolding orphans GoMap.get
orphans-of fs [] path info h k = cc
orphans-of fs ((j, w) ∷ s) path info h k = elim (Bool-cases (str_eq j path)) [
  | inl e ↦
      let q : j ≡ path = (str_eq_iff j path).0 e in
      let fresh : is_desired fs j ≡ false = rw q k in
      rw fresh (record { kind = delete; target = j; desired = none; current = w }, inl refl, q)
  | inr e ↦ let (a, m, q) = orphans-of fs s path info (rw e at h) k in (a, skip j w a m, q)
]
  where
    skip :
        (j : Str) (w : ManagedInfo) (a : Action)
        → In a (orphans fs s)
        → In a (orphans fs ((j, w) ∷ s))
    skip j w a m = ground arith

-- Whatever the planner decides for a file, the action is about that file, and is no deletion.
abbrev pub IsAbout : File → Action → Type 0
IsAbout g b = (b.target ≡ target g) × (b.desired ≡ some g) × (b.kind ≢ delete)

settle-ne-delete :
    (p : Planner) (t : Str) (f : File) (o : Option ManagedInfo) (b : Bool)
    → settle p t f o b ≢ delete
unfolding settle
settle-ne-delete p t f o true = ground arith
settle-ne-delete p t f o false = ground arith

existing-IsAbout :
    (p : Planner) (d : Disk) (g : File) (o : Option ManagedInfo) (n : Node) (b : Action)
    → plan_existing p d (target g) g o n ≡ ok b
    → IsAbout g b
existing-IsAbout p d g o n b h = go (needs_update p d (target g) g n) refl
  where
    go : (r : Result Bool) → needs_update p d (target g) g n ≡ r → IsAbout g b
    go (ok x) e = unfold plan_existing in ground (arith, settle-ne-delete p (target g) g o x)
    go (err x) e = unfold plan_existing in ground arith

pub planned-IsAbout :
    (p : Planner) (d : Disk) (s : State) (g : File) (b : Action)
    → plan_one p d s g ≡ ok b
    → IsAbout g b
unfolding plan_one
planned-IsAbout p d s g b h = go (lstat d (target g)) h
  where
    go :
        (o : Option Node)
        → plan_node p d (target g) g (GoMap.get s (target g)) o ≡ ok b
        → IsAbout g b
    go none e = unfold plan_node in ground arith
    go (some n) e = existing-IsAbout p d g (GoMap.get s (target g)) n b (unfold plan_node in e)

pub is_desired-of : (fs : List File) (g : File) → In g fs → is_desired fs (target g) ≡ true
unfolding is_desired
is_desired-of [] g m = elim m [ ]
is_desired-of (f ∷ fs) g (inl e) = rw (e, str_eq_refl (target f))
is_desired-of (f ∷ fs) g (inr m) = ground (arith, is_desired-of fs g m)

-- A plan is made of the files' actions and the orphans' deletions.
pub plan-parts :
    (p : Planner) (d : Disk) (fs : List File) (s : State) (acts : List Action)
    → plan p d fs s ≡ ok acts
    → (xs : List Action) × (plan_all p d s fs ≡ ok xs) × (acts ≡ xs ++ orphans fs s)
plan-parts p d fs s acts h = go (plan_all p d s fs) refl
  where
    go :
        (r : Result (List Action))
        → plan_all p d s fs ≡ r
        → (xs : List Action) × (plan_all p d s fs ≡ ok xs) × (acts ≡ xs ++ orphans fs s)
    go (ok xs) e = (xs, e, unfold plan in ground arith)
    go (err x) e = unfold plan in absurd (ground arith)

module _ (p : Planner) (d : Disk) (fs : List File) (s : State) (acts : List Action)
    (planned : plan p d fs s ≡ ok acts) where
  -- Every action of the plan is about a desired file, or deletes a target that no file wants.
  pub plan-cases : (a : Action) → In a acts → PlannedBy p d s fs a ⊎ IsOrphan fs a
  plan-cases a m =
      let (xs, e, q) = plan-parts p d fs s acts planned in
      go xs e (In-append-cases a xs (orphans fs s) (subst (λ l. In a l) q m))
    where
      go :
          (xs : List Action)
          → plan_all p d s fs ≡ ok xs
          → In a xs ⊎ In a (orphans fs s)
          → PlannedBy p d s fs a ⊎ IsOrphan fs a
      go xs e (inl n) = inl (plan_all-planned p d s fs xs e a n)
      go xs e (inr n) = inr (All-In (IsOrphan fs) a (orphans fs s) (orphans-IsOrphan fs s) n)

  pub plan-file : (f : File) → In f fs → (a : Action) × In a acts × (plan_one p d s f ≡ ok a)
  plan-file f m =
      let (xs, e, q) = plan-parts p d fs s acts planned in
      let (a, n, x) = plan_all-of p d s fs xs e f m in
      (a, subst (λ l. In a l) (sym q) (In-append_left a xs (orphans fs s) n), x)

  pub plan-orphan :
      (path : Str) (info : ManagedInfo)
      → GoMap.get s path ≡ some info
      → is_desired fs path ≡ false
      → (a : Action) × In a acts × (a.target ≡ path) × (a.kind ≡ delete)
  plan-orphan path info h k =
      let (xs, e, q) = plan-parts p d fs s acts planned in
      let (a, n, x) = orphans-of fs s path info h k in
      let o = All-In (IsOrphan fs) a (orphans fs s) (orphans-IsOrphan fs s) n in
      (a, subst (λ l. In a l) (sym q) (In-append_right a xs (orphans fs s) n), x, o.0)

-- If every file has its action, the plan of all of them is made of these actions.
pub plan_all-total :
    (p : Planner) (d : Disk) (s : State) (fs : List File)
    → All (λ f. (a : Action) × (plan_one p d s f ≡ ok a) × (a.kind ≡ noop)) fs
    → (xs : List Action) × (plan_all p d s fs ≡ ok xs) × All (λ a. a.kind ≡ noop) xs
unfolding plan_all
plan_all-total p d s [] h = ([], refl, tt)
plan_all-total p d s (f ∷ fs) ((a, e, k), h) =
    let (xs, g, ks) = plan_all-total p d s fs h in (a ∷ xs, rw (e, g), (k, ks))

pub orphans-nil :
    (fs : List File) (s : State)
    → All (λ (e : Str × ManagedInfo). is_desired fs e.0 ≡ true) s
    → orphans fs s ≡ []
unfolding orphans
orphans-nil fs [] h = refl
orphans-nil fs ((path, info) ∷ s) (e, h) = rw (e, orphans-nil fs s h)

-- All keys are wanted if those that are not have no entry.
pub keys-desired :
    (fs : List File) (s : State)
    → ((path : Str) → is_desired fs path ≡ false → GoMap.get s path ≡ none)
    → All (λ (e : Str × ManagedInfo). is_desired fs e.0 ≡ true) s
unfolding GoMap.get
keys-desired fs [] h = tt
keys-desired fs ((path, info) ∷ s) h = (
  elim (Bool-cases (is_desired fs path)) [
    | inl e ↦ e
    | inr e ↦ absurd (ground (arith, h path e, str_eq_refl path))
  ],
  keys-desired fs s (λ q e. ground (arith, h q e)),
)
