-- ===== src/Deployer/Executor/Batch.antt =====
-- A whole batch of actions: which nodes it leaves alone, which it puts, and its patches.
use workspaced.Prelude.{
  Bool, false, Option, none, some, List, [], ◌∷◌, Str, ◌≡◌, ◌≢◌, subst, arith, All, In, ◌⊎◌, inl,
  inr,
}
use workspaced.Os.{Call, Node, below}
use workspaced.Source.{File}
use workspaced.Deployer.Types.{ActionType, create, update, delete, noop, Action}
use workspaced.Deployer.Executor.{Work, apply_fs, apply_kind, run_all}
use workspaced.Deployer.Executor.Keeps.{
  Keeps, Keeps-bind, Keeps-pure, Ensures, Ensures-bind, Ensures-then,
}
use workspaced.Deployer.Executor.Run.{
  Holds, Shows, delete-Holds, place-Holds, place-Ensures, SameFaults, delete-SameFaults,
  place-SameFaults,
}

-- The action works on another path, and does not clear a directory above `t`.
abbrev pub IsApart : Str → Action → Type 0
IsApart t b = (b.target ≢ t) × ((b.kind ≡ delete) ⊎ (below b.target t ≡ false))

-- The action creates or updates `t` as the file `f`.
abbrev pub Places : Str → File → Action → Type 0
Places t f b = (b.target ≡ t) × (b.desired ≡ some f) × ((b.kind ≡ create) ⊎ (b.kind ≡ update))

module _ (ignore : Str → Bool) (t : Str) where
  kind-Holds :
      (n : Node) (k : ActionType) (path : Str) (o : Option File)
      → path ≢ t
      → (k ≡ delete) ⊎ (below path t ≡ false)
      → Keeps (Holds t n) (apply_kind ignore k path o)
  kind-Holds n delete path o ne h = delete-Holds t n path ne
  kind-Holds n noop path o ne h = Keeps-pure _ _
  kind-Holds n create path none ne h = Keeps-pure _ _
  kind-Holds n update path none ne h = Keeps-pure _ _
  kind-Holds n create path (some f) ne (inl e) = cc
  kind-Holds n create path (some f) ne (inr b) = place-Holds t n ignore path f (ne, b)
  kind-Holds n update path (some f) ne (inl e) = cc
  kind-Holds n update path (some f) ne (inr b) = place-Holds t n ignore path f (ne, b)

  apply-Holds : (n : Node) (b : Action) → IsApart t b → Keeps (Holds t n) (apply_fs ignore b)
  unfolding apply_fs
  apply-Holds n b h = kind-Holds n b.kind b.target b.desired h.0 h.1

  pub run-Holds :
      (n : Node) (work : List Action)
      → All (IsApart t) work
      → Keeps (Holds t n) (run_all ignore work)
  unfolding run_all
  run-Holds n [] h = Keeps-pure _ _
  run-Holds n (b ∷ work) (hb, h) =
      Keeps-bind _ _ _ (apply-Holds n b hb)
        (λ p. Keeps-bind _ _ _ (run-Holds n work h) (λ ps. Keeps-pure _ _))

  module _ (f : File) where
    Keeps-Shows :
        {A : Type 0} (m : Work A) → ((n : Node) → Keeps (Holds t n) m) → Keeps (Shows t f) m
    Keeps-Shows m k = record { at = λ d d' a e (n, x, g). (n, x, (k n).at d d' a e g) }

    kind-Ensures :
        (k : ActionType) (path : Str) (o : Option File)
        → path ≡ t
        → o ≡ some f
        → (k ≡ create) ⊎ (k ≡ update)
        → Ensures (Shows t f) (apply_kind ignore k path o)
    kind-Ensures create path o e q h = rw (e, q) (place-Ensures ignore t f)
    kind-Ensures update path o e q h = rw (e, q) (place-Ensures ignore t f)
    kind-Ensures delete path o e q h = absurd (ground arith)
    kind-Ensures noop path o e q h = absurd (ground arith)

    apply-Ensures : (b : Action) → Places t f b → Ensures (Shows t f) (apply_fs ignore b)
    unfolding apply_fs
    apply-Ensures b h = kind-Ensures b.kind b.target b.desired h.0 h.1 h.2

    Ensures-Keeps : {A : Type 0} (m : Work A) → Ensures (Shows t f) m → Keeps (Shows t f) m
    Ensures-Keeps m e = record { at = λ d d' a g h. e.at d d' a g }

    apply-Shows : (b : Action) → IsApart t b ⊎ Places t f b → Keeps (Shows t f) (apply_fs ignore b)
    apply-Shows b (inl h) = Keeps-Shows _ (λ n. apply-Holds n b h)
    apply-Shows b (inr h) = Ensures-Keeps _ (apply-Ensures b h)

    run-Shows :
        (work : List Action)
        → All (λ b. IsApart t b ⊎ Places t f b) work
        → Keeps (Shows t f) (run_all ignore work)
    unfolding run_all
    run-Shows [] h = Keeps-pure _ _
    run-Shows (b ∷ work) (hb, h) =
        Keeps-bind _ _ _ (apply-Shows b hb)
          (λ p. Keeps-bind _ _ _ (run-Shows work h) (λ ps. Keeps-pure _ _))

    -- A batch that places the file, and otherwise stays apart from its target, leaves it there.
    pub run-Ensures :
        (work : List Action) (a : Action)
        → In a work
        → Places t f a
        → All (λ b. IsApart t b ⊎ Places t f b) work
        → Ensures (Shows t f) (run_all ignore work)
    unfolding run_all
    run-Ensures [] a m h k = elim m [ ]
    run-Ensures (b ∷ work) a (inl e) h (kb, k) =
        Ensures-then _ _ _ (apply-Ensures b (subst (Places t f) e h))
          (λ p. Keeps-bind _ _ _ (run-Shows work k) (λ ps. Keeps-pure _ _))
    run-Ensures (b ∷ work) a (inr m) h (kb, k) =
        Ensures-bind _ _ _
          (λ _ _ _ _. Ensures-then _ _ _ (run-Ensures work a m h k) (λ ps. Keeps-pure _ _))

kind-SameFaults :
    (faults : Call → Str → Bool) (ignore : Str → Bool) (k : ActionType) (path : Str)
    (o : Option File)
    → Keeps (SameFaults faults) (apply_kind ignore k path o)
kind-SameFaults faults ignore delete path o = delete-SameFaults faults path
kind-SameFaults faults ignore noop path o = Keeps-pure _ _
kind-SameFaults faults ignore create path none = Keeps-pure _ _
kind-SameFaults faults ignore update path none = Keeps-pure _ _
kind-SameFaults faults ignore create path (some f) = place-SameFaults faults ignore path f
kind-SameFaults faults ignore update path (some f) = place-SameFaults faults ignore path f

pub run-SameFaults :
    (faults : Call → Str → Bool) (ignore : Str → Bool) (work : List Action)
    → Keeps (SameFaults faults) (run_all ignore work)
unfolding run_all apply_fs
run-SameFaults faults ignore [] = Keeps-pure _ _
run-SameFaults faults ignore (b ∷ work) =
    Keeps-bind _ _ _ (kind-SameFaults faults ignore b.kind b.target b.desired)
      (λ p. Keeps-bind _ _ _ (run-SameFaults faults ignore work) (λ ps. Keeps-pure _ _))
