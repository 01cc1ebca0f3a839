-- ===== src/Driver/Choice/Get.antt =====
-- pkg/driver/driver.go: what Get promises.
use workspaced.Prelude.{
  ℕ, ◌≡◌, ◌≢◌, ◌↔◌, sym, ap, subst, ◌∙◌, Bool, false, Option, List, [], ◌∷◌, Str, In, AllPairs-In,
  inl, inr,
}
use workspaced.Prelude.GoMap
use workspaced.Prelude.GoMap.{GoMap}
use workspaced.Prelude.Sort
use workspaced.Driver.{
  Factory, Registry, precedes, force_driver_from_env, Made, made, broken, Outcome, selected,
  not_found, unavailable, get_driver, pick_any, factories, weights_or_nil,
}
use workspaced.Driver.Choice.{
  AreDistinct, Gives, IsBest, pick-IsBest, precedes_irrefl, precedes_total, sort-precedes-IsSorted,
}

-- The factories of an interface, and its weights.
abbrev pub drivers_of : Str → Registry → List Factory
drivers_of iface r = factories (GoMap.get r.drivers iface)

abbrev pub order_of : (Str → Str) → Str → Registry → Factory → Factory → Bool
order_of getenv iface r =
    precedes (force_driver_from_env getenv iface) (weights_or_nil (GoMap.get r.weights iface))

pub ids_apart : (f g : Factory) → f.id ≢ g.id → g.id ≢ f.id
ids_apart f g h e = h (sym e)

module _ {I : Type 0} (check : Factory → Option Str) (create : Factory → Made I) where
  unsorted :
      (less : Factory → Factory → Bool) (cache : GoMap (Option Str)) (fs : List Factory)
      (o : Outcome I)
      → IsBest check create less cache (Sort.sort less fs) o
      → IsBest check create less cache fs o
  unsorted less cache fs (selected i) (f, m, gives, best) =
      (f, Sort.In-sort less f fs m, gives, λ g j n. best g j (Sort.In-sort_of less g fs n))
  unsorted less cache fs not_found h = λ g j n. h g j (Sort.In-sort_of less g fs n)
  unsorted less cache fs (unavailable rs) h = λ g j n. h g j (Sort.In-sort_of less g fs n)

  any-IsBest :
      (forced : Str) (weights : GoMap ℕ) (fs : List Factory) (cache : GoMap (Option Str))
      → AreDistinct fs
      → IsBest check create
          (precedes forced weights)
          cache
          fs
          (pick_any check create (precedes forced weights) fs cache).0
  any-IsBest forced weights [] cache d = λ g j m. elim m [ ]
  any-IsBest forced weights (f ∷ fs) cache d =
      let less = precedes forced weights in
      unsorted less cache (f ∷ fs) _ (
        pick-IsBest check create less (Sort.sort less (f ∷ fs)) cache
          (sort-precedes-IsSorted forced weights (f ∷ fs))
          (Sort.sort-AllPairs less (λ f g. f.id ≢ g.id) ids_apart (f ∷ fs) d)
          (precedes_irrefl forced weights))

  -- Get returns the instance of a registered driver that passes its check and can be created, and no such
  -- driver comes before it in the order of weights and ids; only if there is none does Get fail. The ids
  -- of the drivers are distinct.
  pub get_driver-IsBest :
      (getenv : Str → Str) (iface : Str) (r : Registry)
      → AreDistinct (drivers_of iface r)
      → IsBest check create
          (order_of getenv iface r)
          r.cache
          (drivers_of iface r)
          (get_driver check create getenv iface r).0
  unfolding get_driver
  get_driver-IsBest getenv iface r d =
      any-IsBest (force_driver_from_env getenv iface) (weights_or_nil (GoMap.get r.weights iface))
        (drivers_of iface r) r.cache d

  instance_of : {i j : I} → made i ≡ made j → selected i ≡ selected j
  instance_of {i} e = ap (λ m. elim m [ made x ↦ selected x | broken y ↦ selected i ]) e

  pub some_instance :
      (getenv : Str → Str) (iface : Str) (r : Registry) (g : Factory) (j : I)
      → AreDistinct (drivers_of iface r)
      → In g (drivers_of iface r)
      → Gives check create r.cache g j
      → ((f : Factory) (i : I)
          → In f (drivers_of iface r)
          → Gives check create r.cache f i
          → order_of getenv iface r g f ≡ false
          → f ≡ g)
      → (get_driver check create getenv iface r).0 ≡ selected j
  some_instance getenv iface r g j d m gives only =
      go (get_driver check create getenv iface r).0 (get_driver-IsBest getenv iface r d)
    where
      go :
          (o : Outcome I)
          → IsBest check create (order_of getenv iface r) r.cache (drivers_of iface r) o
          → o ≡ selected j
      go (selected i) (f, n, (v, c), best) =
          let same : f ≡ g = only f i n (v, c) (best g j m gives) in
          instance_of (sym c ∙ ap create same ∙ gives.1)
      go not_found h = absurd (h g j m gives)
      go (unavailable rs) h = absurd (h g j m gives)

  -- Of two drivers that both come before none of the others, one has the id of the other.
  same_driver :
      (getenv : Str → Str) (iface : Str) (r : Registry) (f g : Factory)
      → AreDistinct (drivers_of iface r)
      → In f (drivers_of iface r)
      → In g (drivers_of iface r)
      → order_of getenv iface r f g ≡ false
      → order_of getenv iface r g f ≡ false
      → f ≡ g
  same_driver getenv iface r f g d m n p q =
      elim (AllPairs-In (λ f g. f.id ≢ g.id) ids_apart (drivers_of iface r) f g d m n) [
        | inl e ↦ e
        | inr ne ↦ absurd (
            ne (
              precedes_total (force_driver_from_env getenv iface)
                (weights_or_nil (GoMap.get r.weights iface)) f g p q))
      ]

  -- Get does not depend on the order in which the map of drivers is iterated: with the same drivers it
  -- returns the same instance. The ids of the drivers are distinct.
  pub get_driver-order :
      (getenv : Str → Str) (iface : Str) (r : Registry) (drivers : GoMap (List Factory)) (i : I)
      → AreDistinct (drivers_of iface r)
      → AreDistinct (factories (GoMap.get drivers iface))
      → ((f : Factory) → In f (drivers_of iface r) ↔ In f (factories (GoMap.get drivers iface)))
      → (get_driver check create getenv iface r).0 ≡ selected i
      → (get_driver check create getenv iface (record r { drivers = drivers })).0 ≡ selected i
  get_driver-order getenv iface r drivers i d d' members e =
      let (f, m, gives, best) =
        subst (IsBest check create (order_of getenv iface r) r.cache (drivers_of iface r)) e
          (get_driver-IsBest getenv iface r d) in
      some_instance getenv iface (record r { drivers = drivers }) f i d' ((members f).0 m) gives
        (λ g j n ok p.
          same_driver getenv iface r g f d ((members g).1 n) m (best g j ((members g).1 n) ok) p)
