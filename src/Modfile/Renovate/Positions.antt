-- ===== src/Modfile/Renovate/Positions.antt =====
-- internal/modfile/renovate.go: the positions of a slice, where one entry is replaced or put behind it.
use workspaced.Prelude.{
  arith, ℕ, zero, suc, refl, ap, ◌≡◌, ◌≢◌, ◌⊎◌, inl, inr, Option, some, List, [], ◌∷◌, ◌++◌, length,
  get_elem?,
}
use workspaced.Modfile.{RenovateDependency}
use workspaced.Modfile.Renovate.{set_at}

abbrev Dep : Type 0
Dep = RenovateDependency

pub set_at-same :
    (i : ℕ) (x d : Dep) (xs : List Dep)
    → get_elem? xs i ≡ some d
    → get_elem? (set_at i x xs) i ≡ some x
unfolding set_at
set_at-same i x d [] h = ground (arith, h)
set_at-same zero x d (y ∷ xs) h = refl
set_at-same (suc i) x d (y ∷ xs) h = set_at-same i x d xs h

pub set_at-other :
    (i j : ℕ) (x : Dep) (xs : List Dep) → i ≢ j → get_elem? (set_at i x xs) j ≡ get_elem? xs j
unfolding set_at
set_at-other i j x [] ne = refl
set_at-other zero zero x (y ∷ xs) ne = absurd (ne refl)
set_at-other zero (suc j) x (y ∷ xs) ne = refl
set_at-other (suc i) zero x (y ∷ xs) ne = refl
set_at-other (suc i) (suc j) x (y ∷ xs) ne = set_at-other i j x xs (λ e. ne (ap suc e))

pub append-last : (x : Dep) (xs : List Dep) → get_elem? (xs ++ x ∷ []) (length xs) ≡ some x
append-last x [] = refl
append-last x (y ∷ xs) = append-last x xs

pub append-kept :
    (i : ℕ) (x d : Dep) (xs : List Dep)
    → get_elem? xs i ≡ some d
    → get_elem? (xs ++ x ∷ []) i ≡ some d
append-kept i x d [] h = ground (arith, h)
append-kept zero x d (y ∷ xs) h = h
append-kept (suc i) x d (y ∷ xs) h = append-kept i x d xs h

pub append-cases :
    (i : ℕ) (x d : Dep) (xs : List Dep)
    → get_elem? (xs ++ x ∷ []) i ≡ some d
    → (get_elem? xs i ≡ some d) ⊎ ((i ≡ length xs) × (d ≡ x))
append-cases zero x d [] h = inr (refl, ground (arith, h))
append-cases (suc i) x d [] h = ground (arith, h)
append-cases zero x d (y ∷ xs) h = inl h
append-cases (suc i) x d (y ∷ xs) h = elim (append-cases i x d xs h) [
  | inl k ↦ inl k
  | inr (e, f) ↦ inr (ap suc e, f)
]

pub Nat-cases : (i j : ℕ) → (i ≡ j) ⊎ (i ≢ j)
Nat-cases zero zero = inl refl
Nat-cases zero (suc j) = inr (λ e. ground (arith, e))
Nat-cases (suc i) zero = inr (λ e. ground (arith, e))
Nat-cases (suc i) (suc j) = elim (Nat-cases i j) [
  | inl e ↦ inl (ap suc e)
  | inr ne ↦ inr (λ e. ne (ground (arith, e)))
]

pub some-same : {A : Type 0} {a b : A} (o : Option A) → o ≡ some a → o ≡ some b → a ≡ b
some-same {a} {b} o h k = ground (arith, h, k)
