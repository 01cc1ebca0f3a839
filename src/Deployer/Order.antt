-- ===== src/Deployer/Order.antt =====
-- The order in which actions run, and which targets a plan deletes.
use mathlib.Core.List.{Perm}
use workspaced.Prelude.{
  All, AllPairs, ◌==◌, ltb, str_lt, if◌then◌else◌, true, false, List, [], ◌∷◌, Str, str_lt_asym,
  not-str_lt_trans, ◌≡◌, ◌≢◌, refl, subst, arith, inl, inr, ◌↔◌, In-append-cases, Bool-cases, In,
  some, none, Option, str_eq_refl,
}
use workspaced.Prelude.Sort
use workspaced.Prelude.GoMap
use workspaced.Os.{Disk, ok}
use workspaced.Source.{File}
use workspaced.Deployer.Types.{
  Action, ActionType, create, update, noop, rank, delete, State, ManagedInfo, action_less,
  sort_actions,
}
use workspaced.Deployer.Planner.{Planner, plan, orphans, is_desired}
use workspaced.Deployer.Planner.Members.{planned-IsAbout, plan-parts, plan-orphan, plan_all-planned}

action_less-asym : (a b : Action) → action_less a b ≡ true → action_less b a ≡ false
unfolding action_less
action_less-asym a b h = ground (arith, str_lt_asym a.target b.target)

action_less_trans :
    (a b c : Action) → action_less b a ≡ false → action_less c b ≡ false → action_less c a ≡ false
unfolding action_less
action_less_trans a b c h k = ground (arith, not-str_lt_trans a.target b.target c.target)

-- Which kind and target may stand before which: deletions, updates, creations, noops, and within a kind
-- the lesser target.
abbrev pub InOrder : ActionType → ActionType → Str → Str → Type 0
InOrder delete delete s t = str_lt t s ≡ false
InOrder delete update s t = Unit
InOrder delete create s t = Unit
InOrder delete noop s t = Unit
InOrder update delete s t = ⊥
InOrder update update s t = str_lt t s ≡ false
InOrder update create s t = Unit
InOrder update noop s t = Unit
InOrder create delete s t = ⊥
InOrder create update s t = ⊥
InOrder create create s t = str_lt t s ≡ false
InOrder create noop s t = Unit
InOrder noop delete s t = ⊥
InOrder noop update s t = ⊥
InOrder noop create s t = ⊥
InOrder noop noop s t = str_lt t s ≡ false

kinds-InOrder :
    (k l : ActionType) (s t : Str)
    → (if rank l == rank k then str_lt t s else ltb (rank l) (rank k)) ≡ false
    → InOrder k l s t
unfolding rank
kinds-InOrder delete delete s t h = h
kinds-InOrder delete update s t h = tt
kinds-InOrder delete create s t h = tt
kinds-InOrder delete noop s t h = tt
kinds-InOrder update delete s t h = ground (arith, h)
kinds-InOrder update update s t h = h
kinds-InOrder update create s t h = tt
kinds-InOrder update noop s t h = tt
kinds-InOrder create delete s t h = ground (arith, h)
kinds-InOrder create update s t h = ground (arith, h)
kinds-InOrder create create s t h = h
kinds-InOrder create noop s t h = tt
kinds-InOrder noop delete s t h = ground (arith, h)
kinds-InOrder noop update s t h = ground (arith, h)
kinds-InOrder noop create s t h = ground (arith, h)
kinds-InOrder noop noop s t h = h

module _ {A : Type 0} (P Q : A → A → Type 0) (f : (a b : A) → P a b → Q a b) where
  All-each : (a : A) (xs : List A) → All (P a) xs → All (Q a) xs
  All-each a [] h = tt
  All-each a (x ∷ xs) (h, hs) = (f a x h, All-each a xs hs)

  AllPairs-each : (xs : List A) → AllPairs P xs → AllPairs Q xs
  AllPairs-each [] h = tt
  AllPairs-each (x ∷ xs) (h, hs) = (All-each x xs h, AllPairs-each xs hs)

-- SortActions returns the same actions, in this order of any two of them: deletions come before updates,
-- updates before creations, creations before noops, and within a kind targets ascend.
pub sort_actions-InOrder :
    (acts : List Action)
    → Perm (sort_actions acts) acts
      × AllPairs (λ a b. InOrder a.kind b.kind a.target b.target) (sort_actions acts)
unfolding sort_actions
sort_actions-InOrder acts = (
  Sort.sort-perm action_less acts,
  AllPairs-each (λ a b. action_less b a ≡ false) (λ a b. InOrder a.kind b.kind a.target b.target)
      (λ a b h. unfold action_less in kinds-InOrder a.kind b.kind a.target b.target h)
      (Sort.sort action_less acts)
      (Sort.sort-IsSorted action_less action_less-asym action_less_trans acts),
)

orphans-managed :
    (fs : List File) (s : State) (a : Action)
    → In a (orphans fs s)
    → (is_desired fs a.target ≡ false) × (GoMap.get s a.target ≢ none)
unfolding orphans GoMap.get
orphans-managed fs [] a m = elim m [ ]
orphans-managed fs ((path, info) ∷ s) a m = elim (Bool-cases (is_desired fs path)) [
  | inl h ↦ let ih = orphans-managed fs s a (rw h at m) in (ih.0, ground (arith, ih.1))
  | inr h ↦ elim (rw h at m) [
    | inl e ↦ (rw e h, rw (e, str_eq_refl path) (λ x. cc))
    | inr n ↦ let ih = orphans-managed fs s a n in (ih.0, ground (arith, ih.1))
  ]
]

-- A plan deletes a target exactly if the state has an entry for it and no desired file has it: it
-- never deletes what the tool does not own.
pub plan-deletes_iff :
    (p : Planner) (d : Disk) (fs : List File) (s : State) (acts : List Action)
    → plan p d fs s ≡ ok acts
    → (path : Str)
    → ((a : Action) × In a acts × (a.kind ≡ delete) × (a.target ≡ path))
      ↔ ((is_desired fs path ≡ false) × (GoMap.get s path ≢ none))
plan-deletes_iff p d fs s acts planned path = (only, back (GoMap.get s path) refl)
  where
    only :
        ((a : Action) × In a acts × (a.kind ≡ delete) × (a.target ≡ path))
        → (is_desired fs path ≡ false) × (GoMap.get s path ≢ none)
    only (a, m, k, e) =
        let (xs, g, q) = plan-parts p d fs s acts planned in
        let cases = In-append-cases a xs (orphans fs s) (subst (λ l. In a l) q m) in
        elim cases [
          | inl n ↦
              let (f, i, x) = plan_all-planned p d s fs xs g a n in
              absurd ((planned-IsAbout p d s f a x).2 k)
          | inr n ↦
              subst (λ t. (is_desired fs t ≡ false) × (GoMap.get s t ≢ none)) e
                (orphans-managed fs s a n)
        ]

    back :
        (o : Option ManagedInfo)
        → GoMap.get s path ≡ o
        → (is_desired fs path ≡ false) × (GoMap.get s path ≢ none)
        → (a : Action) × In a acts × (a.kind ≡ delete) × (a.target ≡ path)
    back none e (u, ne) = absurd (ne e)
    back (some info) e (u, ne) =
        let (a, m, q, k) = plan-orphan p d fs s acts planned path info e u in (a, m, k, q)
