-- ===== src/Deployer/Executor/Patches.antt =====
-- The patches of a batch, and the state that they make.
use workspaced.Prelude.{
  Bool, Option, none, some, List, [], ◌∷◌, if◌then◌else◌, Str, map, ◌≡◌, ◌≢◌, refl, ap, subst,
  arith, All, In, ◌⊎◌, inl, inr, str_eq_refl, ◌∙◌, str_eq, str_eq_ne,
}
use workspaced.Prelude.GoMap
use workspaced.Prelude.GoMap.{get-put, get-remove}
use workspaced.Os.{Disk, Result, ok, err}
use workspaced.Source.{File}
use workspaced.Deployer.Types.{ActionType, create, update, delete, noop, ManagedInfo, State, Action}
use workspaced.Deployer.Executor.{
  Work, ◌>>=◌, continue, pure, Patch, drop, store, nothing, patch_for, apply_fs, apply_kind,
  run_all, place_fs, delete_fs, apply_patches, apply_patch,
}
use workspaced.Deployer.Executor.Batch.{Places}

-- The value that a piece of work returns whenever it succeeds.
record Returns {A : Type 0} (v : A) (m : Work A) : Type 0 where
  at : (d d' : Disk) (a : A) → m d ≡ (ok a, d') → a ≡ v

Returns-pure : {A : Type 0} (v : A) → Returns v (pure v)
unfolding pure
Returns-pure v = record { at = λ d d' a e. ground arith }

Returns-bind :
    {A B : Type 0} (v : B) (m : Work A) (f : A → Work B)
    → ((a : A) (d d' : Disk) → m d ≡ (ok a, d') → Returns v (f a))
    → Returns v (m >>= f)
unfolding ◌>>=◌
Returns-bind {A} {B} v m f k = record { at = λ d d' b e. go d d' b (m d).0 (m d).1 refl e }
  where
    go :
        (d d' : Disk) (b : B) (r : Result A) (d₁ : Disk)
        → m d ≡ (r, d₁)
        → continue r f d₁ ≡ (ok b, d')
        → b ≡ v
    go d d' b (ok a) d₁ e g = (k a d d₁ e).at d₁ d' b g
    go d d' b (err x) d₁ e g = cc

module _ (ignore : Str → Bool) where
  abbrev placed_patch : Str → Option File → Patch
  placed_patch path none = nothing
  placed_patch path (some f) = patch_for ignore path f

  abbrev kind_patch : ActionType → Str → Option File → Patch
  kind_patch delete path o = drop path
  kind_patch noop path o = nothing
  kind_patch create path o = placed_patch path o
  kind_patch update path o = placed_patch path o

  -- The state delta of an action.
  abbrev pub patch_of : Action → Patch
  patch_of a = kind_patch a.kind a.target a.desired

  place-Returns :
      (path : Str) (f : File) → Returns (patch_for ignore path f) (place_fs ignore path f)
  unfolding place_fs
  place-Returns path f =
      Returns-bind _ _ _ (λ _ _ _ _. Returns-bind _ _ _ (λ _ _ _ _. Returns-pure _))

  kind-Returns :
      (k : ActionType) (path : Str) (o : Option File)
      → Returns (kind_patch k path o) (apply_kind ignore k path o)
  kind-Returns delete path o = unfold delete_fs in Returns-bind _ _ _ (λ _ _ _ _. Returns-pure _)
  kind-Returns noop path o = Returns-pure _
  kind-Returns create path none = Returns-pure _
  kind-Returns update path none = Returns-pure _
  kind-Returns create path (some f) = place-Returns path f
  kind-Returns update path (some f) = place-Returns path f

  run-Returns : (work : List Action) → Returns (map patch_of work) (run_all ignore work)
  unfolding run_all apply_fs
  run-Returns [] = Returns-pure _
  run-Returns (b ∷ work) = Returns-bind _ _ _ (λ p d d' e. Returns-bind _ _ _ (λ ps d₁ d₂ g.
      subst (λ v. Returns v (pure (p ∷ ps)))
        (cc
          ((kind-Returns b.kind b.target b.desired).at d d' p e, (run-Returns work).at d₁ d₂ ps g))
        (Returns-pure (p ∷ ps))))

  pub run_all-patches :
      (work : List Action) (d d' : Disk) (ps : List Patch)
      → run_all ignore work d ≡ (ok ps, d')
      → ps ≡ map patch_of work
  run_all-patches work d d' ps e = (run-Returns work).at d d' ps e

  -- What the state says of a target after one action.
  abbrev pub info_after : Action → Str → Option ManagedInfo → Option ManagedInfo
  info_after a t old = elim (patch_of a) [
    | drop path ↦ if str_eq path t then none else old
    | store path info ↦ if str_eq path t then some info else old
    | nothing ↦ old
  ]

  abbrev pub infos_after : List Action → Str → Option ManagedInfo → Option ManagedInfo
  infos_after [] t old = old
  infos_after (a ∷ work) t old = infos_after work t (info_after a t old)

  get-apply_patch :
      (p : Patch) (t : Str) (state : State)
      → GoMap.get (apply_patch state p) t ≡ (elim p [
        | drop path ↦ if str_eq path t then none else GoMap.get state t
        | store path info ↦ if str_eq path t then some info else GoMap.get state t
        | nothing ↦ GoMap.get state t
      ])
  unfolding apply_patch
  get-apply_patch (drop path) t state = get-remove state path t
  get-apply_patch (store path info) t state = get-put state path info t
  get-apply_patch nothing t state = refl

  pub get-apply_patches :
      (work : List Action) (t : Str) (state : State)
      → GoMap.get (apply_patches state (map patch_of work)) t
        ≡ infos_after work t (GoMap.get state t)
  unfolding apply_patches
  get-apply_patches [] t state = refl
  get-apply_patches (a ∷ work) t state =
      get-apply_patches work t (apply_patch state (patch_of a))
      ∙ ap (infos_after work t) (get-apply_patch (patch_of a) t state)

  -- A batch that works on other targets leaves the entry of `t` alone.
  pub infos_apart :
      (work : List Action) (t : Str) (old : Option ManagedInfo)
      → All (λ b. b.target ≢ t) work
      → infos_after work t old ≡ old
  infos_apart [] t old h = refl
  infos_apart (a ∷ work) t old (ha, h) =
      ap (infos_after work t) (info_apart a.kind a.desired) ∙ infos_apart work t old h
    where
      info_apart :
          (k : ActionType) (o : Option File)
          → (elim (kind_patch k a.target o) [
            | drop path ↦ if str_eq path t then none else old
            | store path info ↦ if str_eq path t then some info else old
            | nothing ↦ old
          ])
            ≡ old
      info_apart delete o = rw (str_eq_ne a.target t ha)
      info_apart noop o = refl
      info_apart create none = refl
      info_apart update none = refl
      info_apart create (some f) = unfold patch_for in ground (arith, str_eq_ne a.target t ha)
      info_apart update (some f) = unfold patch_for in ground (arith, str_eq_ne a.target t ha)

  -- The entry that a placed file has: none if it is ignored.
  abbrev pub owned : Str → File → Option ManagedInfo
  owned t f = if ignore t then none else some (record { source_info = f.source_info })

  info_placed :
      (a : Action) (t : Str) (f : File) (old : Option ManagedInfo)
      → Places t f a
      → info_after a t old ≡ owned t f
  unfolding patch_for
  info_placed a t f old h = go a.kind a.target a.desired h.0 h.1 h.2
    where
      go :
          (k : ActionType) (path : Str) (o : Option File)
          → path ≡ t
          → o ≡ some f
          → (k ≡ create) ⊎ (k ≡ update)
          → (elim (kind_patch k path o) [
            | drop path ↦ if str_eq path t then none else old
            | store path info ↦ if str_eq path t then some info else old
            | nothing ↦ old
          ])
            ≡ owned t f
      go delete path o e q c = absurd (ground arith)
      go noop path o e q c = absurd (ground arith)
      go create path none e q c = cc
      go update path none e q c = cc
      go create path (some g) e q c = ground (arith, str_eq_refl t)
      go update path (some g) e q c = ground (arith, str_eq_refl t)

  infos_kept :
      (work : List Action) (t : Str) (f : File)
      → All (λ b. (b.target ≢ t) ⊎ Places t f b) work
      → infos_after work t (owned t f) ≡ owned t f
  infos_kept [] t f h = refl
  infos_kept (a ∷ work) t f (inl ne, h) =
      ap (infos_after work t) (infos_apart (a ∷ []) t (owned t f) (ne, tt)) ∙ infos_kept work t f h
  infos_kept (a ∷ work) t f (inr p, h) =
      ap (infos_after work t) (info_placed a t f (owned t f) p) ∙ infos_kept work t f h

  pub infos_placed :
      (work : List Action) (a : Action) (t : Str) (f : File) (old : Option ManagedInfo)
      → In a work
      → Places t f a
      → All (λ b. (b.target ≢ t) ⊎ Places t f b) work
      → infos_after work t old ≡ owned t f
  infos_placed [] a t f old m p h = elim m [ ]
  infos_placed (b ∷ work) a t f old (inl e) p (hb, h) =
      ap (infos_after work t) (info_placed b t f old (subst (Places t f) e p))
      ∙ infos_kept work t f h
  infos_placed (b ∷ work) a t f old (inr m) p (hb, h) =
      infos_placed work a t f (info_after b t old) m p h
