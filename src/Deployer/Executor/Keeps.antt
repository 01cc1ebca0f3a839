-- ===== src/Deployer/Executor/Keeps.antt =====
-- Properties of the disk that a successful piece of work keeps, one rule for each way to build it.
use workspaced.Prelude.{◌≡◌, refl, Bool, true, false, arith, if◌then◌else◌, ap, subst}
use workspaced.Os.{Disk, Result, ok, err}
use workspaced.Deployer.Executor.{Work, ◌>>=◌, continue, pure, lift, call, landed, when}

pub record Keeps {A : Type 0} (P : Disk → Type 0) (m : Work A) : Type 0 where
  pub at : (d d' : Disk) (a : A) → m d ≡ (ok a, d') → P d → P d'

module _ {A : Type 0} (P : Disk → Type 0) where
  pub Keeps-pure : (a : A) → Keeps P (pure a)
  unfolding pure
  Keeps-pure a = record { at = λ d d' b e h. subst P (ap (λ (r : Result A × Disk). r.1) e) h }

  pub Keeps-lift : (r : Result A) → Keeps P (lift r)
  unfolding lift
  Keeps-lift r = record { at = λ d d' b e h. subst P (ap (λ (s : Result A × Disk). s.1) e) h }

  pub Keeps-if : (b : Bool) (m n : Work A) → Keeps P m → Keeps P n → Keeps P (if b then m else n)
  Keeps-if true m n k l = k
  Keeps-if false m n k l = l

module _ {A B : Type 0} (P : Disk → Type 0) where
  pub Keeps-bind :
      (m : Work A) (f : A → Work B) → Keeps P m → ((a : A) → Keeps P (f a)) → Keeps P (m >>= f)
  unfolding ◌>>=◌
  Keeps-bind m f k l = record { at = λ d d' b e h. go d d' b (m d).0 (m d).1 refl e h }
    where
      go :
          (d d' : Disk) (b : B) (r : Result A) (d₁ : Disk)
          → m d ≡ (r, d₁)
          → continue r f d₁ ≡ (ok b, d')
          → P d
          → P d'
      go d d' b (ok a) d₁ e g h = (l a).at d₁ d' b g (k.at d d₁ a e h)
      go d d' b (err x) d₁ e g h = cc

module _ (P : Disk → Type 0) where
  pub Keeps-call :
      (f : Disk → Result Disk) → ((d d' : Disk) → f d ≡ ok d' → P d → P d') → Keeps P (call f)
  unfolding call
  Keeps-call f k = record { at = λ d d' a e h. go d d' (f d) refl a e h }
    where
      go :
          (d d' : Disk) (r : Result Disk)
          → f d ≡ r
          → (a : Unit) → landed d r ≡ (ok a, d')
          → P d
          → P d'
      go d d' (ok d₁) e a g h = k d d' (ground arith) h
      go d d' (err x) e a g h = cc

  pub Keeps-when : (test : Disk → Bool) (m : Work Unit) → Keeps P m → Keeps P (when test m)
  unfolding when
  Keeps-when test m k = record { at = λ d d' a e h. go d d' a (test d) e h }
    where
      go :
          (d d' : Disk) (a : Unit) (b : Bool)
          → (if b then m d else (ok tt, d)) ≡ (ok a, d')
          → P d
          → P d'
      go d d' a true e h = k.at d d' a e h
      go d d' a false e h = subst P (ap (λ (r : Result Unit × Disk). r.1) e) h

pub ruleset keeps_rules = (Keeps-pure, Keeps-lift, Keeps-if, Keeps-bind, Keeps-call, Keeps-when)

-- What holds of the disk whenever a piece of work succeeds.
pub record Ensures {A : Type 0} (Q : Disk → Type 0) (m : Work A) : Type 0 where
  pub at : (d d' : Disk) (a : A) → m d ≡ (ok a, d') → Q d'

module _ {A B : Type 0} (Q : Disk → Type 0) where
  -- The rest of the block may use how the first part succeeded.
  pub Ensures-bind :
      (m : Work A) (f : A → Work B)
      → ((a : A) (d d' : Disk) → m d ≡ (ok a, d') → Ensures Q (f a))
      → Ensures Q (m >>= f)
  unfolding ◌>>=◌
  Ensures-bind m f l = record { at = λ d d' b e. go d d' b (m d).0 (m d).1 refl e }
    where
      go :
          (d d' : Disk) (b : B) (r : Result A) (d₁ : Disk)
          → m d ≡ (r, d₁)
          → continue r f d₁ ≡ (ok b, d')
          → Q d'
      go d d' b (ok a) d₁ e g = (l a d d₁ e).at d₁ d' b g
      go d d' b (err x) d₁ e g = cc

  pub Ensures-then :
      (m : Work A) (f : A → Work B) → Ensures Q m → ((a : A) → Keeps Q (f a)) → Ensures Q (m >>= f)
  unfolding ◌>>=◌
  Ensures-then m f k l = record { at = λ d d' b e. go d d' b (m d).0 (m d).1 refl e }
    where
      go :
          (d d' : Disk) (b : B) (r : Result A) (d₁ : Disk)
          → m d ≡ (r, d₁)
          → continue r f d₁ ≡ (ok b, d')
          → Q d'
      go d d' b (ok a) d₁ e g = (l a).at d₁ d' b g (k.at d d₁ a e)
      go d d' b (err x) d₁ e g = cc

module _ (Q : Disk → Type 0) where
  pub Ensures-call :
      (f : Disk → Result Disk) → ((d d' : Disk) → f d ≡ ok d' → Q d') → Ensures Q (call f)
  unfolding call
  Ensures-call f k = record { at = λ d d' a e. go d d' (f d) refl a e }
    where
      go : (d d' : Disk) (r : Result Disk) → f d ≡ r → (a : Unit) → landed d r ≡ (ok a, d') → Q d'
      go d d' (ok d₁) e a g = k d d' (ground arith)
      go d d' (err x) e a g = cc

module _ {A B : Type 0} (Q : Disk → Type 0) where
  pub Ensures-lift :
      (r : Result A) (f : A → Work B)
      → ((a : A) → r ≡ ok a → Ensures Q (f a))
      → Ensures Q (lift r >>= f)
  unfolding ◌>>=◌ lift
  Ensures-lift (ok a) f k = k a refl
  Ensures-lift (err x) f k = record { at = λ d d' b e. cc }
