-- ===== src/Prelude/Sort.antt =====
-- sort.SliceStable, sort.Slice and sort.Strings: a stable insertion sort by a `less` test.
use mathlib.Core.List.Perm
use mathlib.Core.List.{Perm}
use mathlib.Core.Path.{◌≡◌}
use mathlib.Core.Bool.{Bool, true, false}
use mathlib.Core.Logic.{◌⊎◌, inl, inr}
use mathlib.Core.List.{List, [], ◌∷◌}
use native.Mathlib.Omega.{arith}
use workspaced.Prelude.Tests.{if◌then◌else◌, Bool-cases}
use workspaced.Prelude.Lists.{All, AllPairs, In}

module _ {A : Type 0} (less : A → A → Bool) where
  -- `x` stood before all of the list: it goes in front of the first entry that is not less.
  unfoldable pub insert : A → List A → List A
  insert x [] = x ∷ []
  insert x (y ∷ ys) = let rest = insert x ys in if less y x then y ∷ rest else x ∷ y ∷ ys

  unfoldable pub sort : List A → List A
  unfolding insert
  sort [] = []
  sort (x ∷ xs) = insert x (sort xs)

  pub insert-perm : (x : A) (ys : List A) → Perm (insert x ys) (x ∷ ys)
  unfolding insert
  insert-perm x [] = Perm.refl (x ∷ [])
  insert-perm x (y ∷ ys) = elim (Bool-cases (less y x)) [
    | inl h ↦ rw h (Perm.trans (Perm.cons y (insert-perm x ys)) (Perm.swap x y ys))
    | inr h ↦ rw h (Perm.refl (x ∷ y ∷ ys))
  ]

  pub sort-perm : (xs : List A) → Perm (sort xs) xs
  unfolding sort
  sort-perm [] = Perm.refl []
  sort-perm (x ∷ xs) = Perm.trans (insert-perm x (sort xs)) (Perm.cons x (sort-perm xs))

  -- No entry is less than an earlier one.
  abbrev pub IsSorted : List A → Type 0
  IsSorted = AllPairs (λ a b. less b a ≡ false)

  All-insert {κ} : (P : A → Type κ) (x : A) (ys : List A) → P x → All P ys → All P (insert x ys)
  unfolding insert
  All-insert P x [] px h = (px, tt)
  All-insert P x (y ∷ ys) px (py, h) = elim (Bool-cases (less y x)) [
    | inl l ↦ rw l (py, All-insert P x ys px h)
    | inr l ↦ rw l (px, (py, h))
  ]

  pub In-insert : (a x : A) (ys : List A) → In a (insert x ys) → (a ≡ x) ⊎ In a ys
  unfolding insert
  In-insert a x [] m = m
  In-insert a x (y ∷ ys) m = ground (arith, In-insert a x ys)

  pub In-sort : (a : A) (xs : List A) → In a (sort xs) → In a xs
  unfolding sort
  In-sort a [] m = m
  In-sort a (x ∷ xs) m = elim (In-insert a x (sort xs) m) [
    | inl e ↦ inl e
    | inr k ↦ inr (In-sort a xs k)
  ]

  module _ (asym : (a b : A) → less a b ≡ true → less b a ≡ false)
      (trans : (a b c : A) → less b a ≡ false → less c b ≡ false → less c a ≡ false) where
    All-trans :
        (x y : A) (ys : List A)
        → less y x ≡ false
        → All (λ b. less b y ≡ false) ys
        → All (λ b. less b x ≡ false) ys
    All-trans x y [] h k = tt
    All-trans x y (z ∷ zs) h (kz, k) = (trans x y z h kz, All-trans x y zs h k)

    insert-IsSorted : (x : A) (ys : List A) → IsSorted ys → IsSorted (insert x ys)
    unfolding insert
    insert-IsSorted x [] h = (tt, tt)
    insert-IsSorted x (y ∷ ys) (hy, h) = elim (Bool-cases (less y x)) [
      | inl l ↦
          rw l (All-insert (λ b. less b y ≡ false) x ys (asym y x l) hy, insert-IsSorted x ys h)
      | inr l ↦ rw l ((l, All-trans x y ys l hy), (hy, h))
    ]

    pub sort-IsSorted : (xs : List A) → IsSorted (sort xs)
    unfolding sort
    sort-IsSorted [] = tt
    sort-IsSorted (x ∷ xs) = insert-IsSorted x (sort xs) (sort-IsSorted xs)

module _ {A : Type 0} (less : A → A → Bool) where
  In-insert_of : (a x : A) (ys : List A) → (a ≡ x) ⊎ In a ys → In a (insert less x ys)
  unfolding insert
  In-insert_of a x [] h = h
  In-insert_of a x (y ∷ ys) h = ground (arith, In-insert_of a x ys)

  pub In-sort_of : (a : A) (xs : List A) → In a xs → In a (sort less xs)
  unfolding sort
  In-sort_of a [] m = m
  In-sort_of a (x ∷ xs) (inl e) = In-insert_of a x (sort less xs) (inl e)
  In-sort_of a (x ∷ xs) (inr m) = In-insert_of a x (sort less xs) (inr (In-sort_of a xs m))

  pub All-sort {κ} : (P : A → Type κ) (xs : List A) → All P xs → All P (sort less xs)
  unfolding sort
  All-sort P [] h = tt
  All-sort P (x ∷ xs) (px, h) = All-insert less P x (sort less xs) px (All-sort P xs h)

  insert-AllPairs :
      (R : A → A → Type 0)
      → ((a b : A) → R a b → R b a)
      → (x : A) (ys : List A) → All (R x) ys
      → AllPairs R ys
      → AllPairs R (insert less x ys)
  unfolding insert
  insert-AllPairs R s x [] h k = (tt, tt)
  insert-AllPairs R s x (y ∷ ys) (r, h) (ky, k) = elim (Bool-cases (less y x)) [
    | inl l ↦ rw l (All-insert less (R y) x ys (s x y r) ky, insert-AllPairs R s x ys h k)
    | inr l ↦ rw l ((r, h), (ky, k))
  ]

  -- A symmetric relation of all pairs is kept by sorting.
  pub sort-AllPairs :
      (R : A → A → Type 0)
      → ((a b : A) → R a b → R b a)
      → (xs : List A) → AllPairs R xs
      → AllPairs R (sort less xs)
  unfolding sort
  sort-AllPairs R s [] h = tt
  sort-AllPairs R s (x ∷ xs) (hx, h) =
      insert-AllPairs R s x (sort less xs) (All-sort (R x) xs hx) (sort-AllPairs R s xs h)
