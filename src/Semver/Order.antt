-- ===== src/Semver/Order.antt =====
-- The order of versions.
use workspaced.Prelude.{
  ℕ, zero, suc, ◌+◌, ◌<◌, ◌≤◌, max, ◌≡◌, refl, sym, ◌↔◌, Bool, true, false, List, [], ◌∷◌, arith,
  length, ltb, ◌∙◌, ◌≢◌, Bool-cases, inl, inr, ltb→lt,
}
use native.Mathlib.Decide.{ℕ_discrete, dec_lt}
use workspaced.Semver.{
  SemVer, Sign, less, same, greater, part, compare_from, compare, is_latest, is_less, less_than,
}

abbrev pub opposite : Sign → Sign
opposite less = greater
opposite same = same
opposite greater = less

compare_from-opposite :
    (n i : ℕ) (vs os : List ℕ) → compare_from n i os vs ≡ opposite (compare_from n i vs os)
unfolding compare_from
compare_from-opposite zero i vs os = refl
compare_from-opposite (suc n) i vs os = ground (arith, compare_from-opposite n (suc i) vs os)

max_comm : (a b : ℕ) → max a b ≡ max b a
max_comm a b = omega arith

-- Comparing the other way round gives the opposite sign, for any two versions, "latest" included.
pub compare-opposite : (v w : SemVer) → compare w v ≡ opposite (compare v w)
unfolding compare
compare-opposite v w = ground (
  arith,
  compare_from-opposite (max (length w.parts) (length v.parts)) 0 v.parts w.parts,
  max_comm (length v.parts) (length w.parts),
)

-- The parts differ first at some index, where those of the left are smaller.
abbrev pub Below : List ℕ → List ℕ → Type 0
Below vs os = (k : ℕ) × (part vs k < part os k) × ((j : ℕ) → j < k → part vs j ≡ part os j)

abbrev pub SameParts : List ℕ → List ℕ → Type 0
SameParts vs os = (j : ℕ) → part vs j ≡ part os j

part_beyond : (ns : List ℕ) (i : ℕ) → length ns ≤ i → part ns i ≡ 0
part_beyond [] i h = refl
part_beyond (n ∷ ns) zero h = absurd (omega arith)
part_beyond (n ∷ ns) (suc i) h = part_beyond ns i (omega arith)

-- Where the loop stops with `less`, and what it has passed.
abbrev FirstBelow : ℕ → List ℕ → List ℕ → Type 0
FirstBelow i vs os =
    (k : ℕ) × (i ≤ k) × (part vs k < part os k) × ((j : ℕ) → i ≤ j → j < k → part vs j ≡ part os j)

FirstBelow-suc :
    (i : ℕ) (vs os : List ℕ) → part vs i ≡ part os i → FirstBelow (suc i) vs os → FirstBelow i vs os
FirstBelow-suc i vs os e (k, p, q, r) = (
  k,
  omega arith,
  q,
  λ j h l. elim (ℕ_discrete i j) [ yes s ↦ rw (← s) e | no s ↦ r j (omega arith) l ],
)

compare_from_less : (n i : ℕ) (vs os : List ℕ) → compare_from n i vs os ≡ less → FirstBelow i vs os
unfolding compare_from
compare_from_less zero i vs os h = cc
compare_from_less (suc n) i vs os h = elim (Bool-cases (ltb (part vs i) (part os i))) [
  | inl p ↦ (i, omega arith, ltb→lt _ _ p, λ j a b. absurd (omega arith))
  | inr p ↦ FirstBelow-suc i vs os (ground arith) (compare_from_less n (suc i) vs os (ground arith))
]

compare_from_first :
    (n i k : ℕ) (vs os : List ℕ)
    → i ≤ k
    → k < i + n
    → part vs k < part os k
    → ((j : ℕ) → i ≤ j → j < k → part vs j ≡ part os j)
    → compare_from n i vs os ≡ less
unfolding compare_from
compare_from_first zero i k vs os a b c d = absurd (omega arith)
compare_from_first (suc n) i k vs os a b c d = elim (ℕ_discrete i k) [
  | yes e ↦ ground arith
  | no e ↦
      let ih =
        compare_from_first n (suc i) k vs os (omega arith) (omega arith) c
          (λ j x y. d j (omega arith) y) in
      ground (arith, ih, d i)
]

compare_from_same :
    (n i j : ℕ) (vs os : List ℕ)
    → compare_from n i vs os ≡ same
    → i ≤ j
    → j < i + n
    → part vs j ≡ part os j
unfolding compare_from
compare_from_same zero i j vs os h a b = absurd (omega arith)
compare_from_same (suc n) i j vs os h a b = elim (ℕ_discrete i j) [
  | yes e ↦ ground arith
  | no e ↦ ground (arith, compare_from_same n (suc i) j vs os)
]

compare_from_equal : (n i : ℕ) (vs os : List ℕ) → SameParts vs os → compare_from n i vs os ≡ same
unfolding compare_from
compare_from_equal zero i vs os h = refl
compare_from_equal (suc n) i vs os h = ground (arith, h i, compare_from_equal n (suc i) vs os h)

-- The comparison of the parts, over as many rounds as Compare makes.
abbrev pub compare_parts : List ℕ → List ℕ → Sign
compare_parts vs os = compare_from (max (length os) (length vs)) 0 vs os

compare_numbered :
    (v w : SemVer)
    → is_latest v ≡ false
    → is_latest w ≡ false
    → compare v w ≡ compare_parts v.parts w.parts
unfolding compare
compare_numbered v w a b = ground arith

compare_parts-opposite : (vs os : List ℕ) → compare_parts os vs ≡ opposite (compare_parts vs os)
compare_parts-opposite vs os =
    rw max_comm (compare_from-opposite (max (length os) (length vs)) 0 vs os)

parts_less : (vs os : List ℕ) → compare_parts vs os ≡ less → Below vs os
parts_less vs os h =
    let (k, p, q, r) = compare_from_less (max (length os) (length vs)) 0 vs os h in
    (k, q, λ j l. r j (omega arith) l)

parts-Below : (vs os : List ℕ) → Below vs os → compare_parts vs os ≡ less
parts-Below vs os (k, p, q) =
    compare_from_first (max (length os) (length vs)) 0 k vs os (omega arith)
      (elim (dec_lt k (length os)) [
        | yes h ↦ omega arith
        | no h ↦ absurd (omega (arith, part_beyond os k (omega arith)))
      ])
      p (λ j a b. q j b)

parts_same : (vs os : List ℕ) → compare_parts vs os ≡ same → SameParts vs os
parts_same vs os h j = elim (dec_lt j (max (length os) (length vs))) [
  | yes l ↦ compare_from_same _ 0 j vs os h (omega arith) (omega arith)
  | no l ↦ omega (arith, part_beyond vs j (omega arith), part_beyond os j (omega arith))
]

-- Versions that are not "latest" compare as their parts do at the first index where they differ, a
-- missing part being 0: Compare returns -1 exactly if the left part is the smaller one there.
pub compare_less_iff :
    (v w : SemVer)
    → is_latest v ≡ false
    → is_latest w ≡ false
    → (compare v w ≡ less) ↔ Below v.parts w.parts
compare_less_iff v w a b =
    rw (compare_numbered v w a b) (parts_less v.parts w.parts, parts-Below v.parts w.parts)

-- Such versions are equal for Compare exactly if they agree on every part, a missing one being 0.
pub compare_same_iff :
    (v w : SemVer)
    → is_latest v ≡ false
    → is_latest w ≡ false
    → (compare v w ≡ same) ↔ SameParts v.parts w.parts
compare_same_iff v w a b =
    rw (compare_numbered v w a b)
      (parts_same v.parts w.parts, compare_from_equal _ 0 v.parts w.parts)

Below-trans : (a b c : List ℕ) → Below a b → Below b c → Below a c
Below-trans a b c (i, p, f) (j, q, g) = elim (dec_lt i j) [
  | yes h ↦ (i, rw (← g i h) p, λ m l. f m l ∙ g m (omega arith))
  | no h ↦ elim (ℕ_discrete i j) [
    | yes e ↦ (i, omega (arith, rw (← e) at q), λ m l. f m l ∙ g m (omega arith))
    | no e ↦ (j, rw (f j (omega arith)) q, λ m l. f m (omega arith) ∙ g m l)
  ]
]

Below-same : (a b c : List ℕ) → Below a b → SameParts b c → Below a c
Below-same a b c (i, p, f) g = (i, rw (← g i) p, λ m l. f m l ∙ g m)

same-Below : (a b c : List ℕ) → SameParts a b → Below b c → Below a c
same-Below a b c f (i, p, g) = (i, rw (f i) p, λ m l. f m ∙ g m l)

ne_less_trans :
    (a b c : List ℕ)
    → compare_parts b a ≢ less
    → compare_parts c b ≢ less
    → compare_parts c a ≢ less
ne_less_trans a b c h k e = go (compare_parts c b) refl
  where
    go : (s : Sign) → compare_parts c b ≡ s → ⊥
    go less p = k p
    go same p =
        h (parts-Below b a (same-Below b c a (λ j. sym (parts_same c b p j)) (parts_less c a e)))
    go greater p = h (
        parts-Below b a (
          Below-trans b c a (parts_less b c (rw compare_parts-opposite (rw p))) (parts_less c a e)))

not-less-ne : (s : Sign) → is_less s ≡ false → s ≢ less
not-less-ne less h e = cc
not-less-ne same h e = cc
not-less-ne greater h e = cc

ne-not-less : (s : Sign) → s ≢ less → is_less s ≡ false
ne-not-less less h = absurd (h refl)
ne-not-less same h = refl
ne-not-less greater h = refl

-- Of two versions at most one is less.
pub less_than_asym : (v w : SemVer) → less_than v w ≡ true → less_than w v ≡ false
unfolding less_than
less_than_asym v w h = ground (arith, compare-opposite v w)

-- Not being less is transitive, for any versions, "latest" included: with compare-opposite it makes
-- a total preorder, which is what a sort of versions needs.
pub not-less_than_trans :
    (u v w : SemVer) → less_than v u ≡ false → less_than w v ≡ false → less_than w u ≡ false
unfolding less_than
not-less_than_trans u v w h k = go (is_latest u) (is_latest v) (is_latest w) refl refl refl
  where
    go :
        (a b c : Bool)
        → is_latest u ≡ a
        → is_latest v ≡ b
        → is_latest w ≡ c
        → is_less (compare w u) ≡ false
    go false false false p q r = ne-not-less _ (
        rw (compare_numbered w u r p) (
          ne_less_trans u.parts v.parts w.parts (rw (compare_numbered v u q p) at (not-less-ne _ h))
            (rw (compare_numbered w v r q) at (not-less-ne _ k))))
    go true b c p q r = unfold compare in ground arith
    go false true c p q r = unfold compare in ground arith
    go false false true p q r = unfold compare in ground arith
