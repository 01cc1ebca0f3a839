-- ===== src/Driver/Choice/Forced.antt =====
-- pkg/driver/driver.go: a driver that the environment asks for comes first.
use workspaced.Prelude.{
  arith, ℕ, ◌≡◌, ◌≢◌, ◌≤◌, refl, sym, subst, false, Option, [], ◌∷◌, ltb, Str, str_eq, str_eq_iff,
  str_eq_refl, In, AllPairs-In, Bool-cases, inl, inr,
}
use workspaced.Prelude.GoMap
use workspaced.Prelude.GoMap.{GoMap}
use workspaced.Driver.{
  Factory, Registry, ℤ, pos, negsuc, WeightResult, valid, refused, and_then, check_weight,
  check_ids, check_all, covers, set_weights, force_driver_from_env, precedes, effective_weight,
  weight_or_zero, weights_or_nil, Made, selected, get_driver,
}
use workspaced.Driver.Choice.{AreDistinct, Gives}
use workspaced.Driver.Choice.Get.{drivers_of, some_instance, ids_apart}

-- A predicate of the result, if there is one.
abbrev OnValid : {A : Type 0} → (A → Type 0) → WeightResult A → Type 0
OnValid P (valid a) = P a
OnValid P (refused e) = Unit

and_then-OnValid :
    {A B : Type 0} (P : A → Type 0) (Q : B → Type 0) (x : WeightResult A) (f : A → WeightResult B)
    → OnValid P x
    → ((a : A) → P a → OnValid Q (f a))
    → OnValid Q (and_then x f)
and_then-OnValid P Q (valid a) f p h = h a p
and_then-OnValid P Q (refused e) f p h = tt

trivial_valid : (x : WeightResult Unit) → OnValid (λ _. Unit) x
trivial_valid (valid a) = tt
trivial_valid (refused e) = tt

abbrev AtMost100 : GoMap ℕ → Type 0
AtMost100 ns = (id : Str) → weight_or_zero (GoMap.get ns id) ≤ 100

check_weight-le : (iface id : Str) (w : ℤ) → OnValid (λ n. n ≤ 100) (check_weight iface id w)
unfolding check_weight
check_weight-le iface id (pos n) = elim (Bool-cases (ltb 100 n)) [
  | inl e ↦ rw (e) tt
  | inr e ↦ rw (e) (ground (arith, e))
]
check_weight-le iface id (negsuc n) = tt

check_ids-AtMost100 : (iface : Str) (ids : GoMap ℤ) → OnValid AtMost100 (check_ids iface ids)
unfolding check_ids GoMap.get
check_ids-AtMost100 iface [] = λ id. omega arith
check_ids-AtMost100 iface ((id, w) ∷ ids) =
    and_then-OnValid (λ n. n ≤ 100) AtMost100 _ _ (check_weight-le iface id w)
      λ n le.
        and_then-OnValid AtMost100 AtMost100 _ _ (check_ids-AtMost100 iface ids)
          λ rest h j. ground (arith, h j, le)

abbrev AllAtMost100 : GoMap (GoMap ℕ) → Type 0
AllAtMost100 w = (iface : Str) → AtMost100 (weights_or_nil (GoMap.get w iface))

check_all-AtMost100 : (w : GoMap (GoMap ℤ)) → OnValid AllAtMost100 (check_all w)
unfolding check_all GoMap.get
check_all-AtMost100 [] = λ iface id. omega arith
check_all-AtMost100 ((iface, ids) ∷ w) =
    and_then-OnValid AtMost100 AllAtMost100 _ _ (check_ids-AtMost100 iface ids) λ ns h.
      and_then-OnValid AllAtMost100 AllAtMost100 _ _ (check_all-AtMost100 w) λ rest k i id.
        elim (Bool-cases (str_eq iface i)) [ inl e ↦ rw (e) (h id) | inr e ↦ rw (e) (k i id) ]

set_weights-AtMost100 :
    (w : GoMap (GoMap ℤ)) (r : Registry) → OnValid (λ r'. AllAtMost100 r'.weights) (set_weights w r)
unfolding set_weights
set_weights-AtMost100 w r =
    and_then-OnValid AllAtMost100 (λ r'. AllAtMost100 r'.weights) _ _ (check_all-AtMost100 w)
      λ ns h.
        and_then-OnValid (λ _. Unit) (λ r'. AllAtMost100 r'.weights) (covers ns r.drivers) _
          (trivial_valid (covers ns r.drivers)) λ _ _. h

weights_of-AtMost100 :
    (w : GoMap (GoMap ℤ)) (r₀ r : Registry) → set_weights w r₀ ≡ valid r → AllAtMost100 r.weights
weights_of-AtMost100 w r₀ r e =
    subst (OnValid (λ r'. AllAtMost100 r'.weights)) e (set_weights-AtMost100 w r₀)

forced_weight : (weights : GoMap ℕ) (id : Str) → id ≢ [] → effective_weight id weights id ≡ 101
unfolding effective_weight
forced_weight weights id ne = rw (str_eq_refl id) (elim (Bool-cases (str_eq id [])) [
  | inl e ↦ absurd (ne ((str_eq_iff id []).0 e))
  | inr e ↦ rw (e) refl
])

other_weight :
    (forced : Str) (weights : GoMap ℕ) (id : Str)
    → AtMost100 weights
    → str_eq forced id ≡ false
    → effective_weight forced weights id ≤ 100
unfolding effective_weight
other_weight forced weights id le e = ground (arith, e, le id)

forced_first :
    (weights : GoMap ℕ) (f g : Factory)
    → AtMost100 weights
    → g.id ≢ []
    → precedes g.id weights g f ≡ false
    → f.id ≡ g.id
unfolding precedes
forced_first weights f g le ne h = elim (Bool-cases (str_eq g.id f.id)) [
  | inl e ↦ sym ((str_eq_iff g.id f.id).0 e)
  | inr e ↦
      absurd (ground (arith, forced_weight weights g.id ne, other_weight g.id weights f.id le e, h))
]

module _ {I : Type 0} (check : Factory → Option Str) (create : Factory → Made I) where
  -- With weights that SetWeights has accepted, the driver that the environment asks for is the one that Get
  -- returns, if it is registered, passes its check and can be created. The ids of the drivers are distinct,
  -- and that of the driver is not empty.
  pub get_driver-forced :
      (getenv : Str → Str) (w : GoMap (GoMap ℤ)) (r₀ r : Registry) (iface : Str) (g : Factory)
      (j : I)
      → force_driver_from_env getenv iface ≡ g.id
      → set_weights w r₀ ≡ valid r
      → AreDistinct (drivers_of iface r)
      → In g (drivers_of iface r)
      → g.id ≢ []
      → Gives check create r.cache g j
      → (get_driver check create getenv iface r).0 ≡ selected j
  get_driver-forced getenv w r₀ r iface g j asked accepted d m ne gives =
      some_instance check create getenv iface r g j d m gives λ f i n ok p.
        elim (AllPairs-In (λ f g. f.id ≢ g.id) ids_apart (drivers_of iface r) f g d n m) [
          | inl e ↦ e
          | inr apart ↦ absurd (
              apart (
                forced_first (weights_or_nil (GoMap.get r.weights iface)) f g
                  (weights_of-AtMost100 w r₀ r accepted iface) ne
                  (subst (λ x. precedes x (weights_or_nil (GoMap.get r.weights iface)) g f ≡ false)
                    asked p)))
        ]
