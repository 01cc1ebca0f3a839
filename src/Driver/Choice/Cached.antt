-- ===== src/Driver/Choice/Cached.antt =====
-- pkg/driver/driver.go: the checks of the drivers run once, so that a choice stays.
use workspaced.Prelude.{
  arith, ◌≡◌, refl, sym, ◌∙◌, Bool, Option, some, List, [], ◌∷◌, Str, str_eq_iff, str_eq_refl,
  Option-cases, inl, inr,
}
use workspaced.Prelude.GoMap
use workspaced.Prelude.GoMap.{GoMap}
use workspaced.Prelude.Sort
use workspaced.Driver.{
  Factory, Registry, cached_check, Made, Outcome, selected, not_found, unavailable, refuse, pick,
  pick_any, get_driver, force_driver_from_env, precedes, factories, weights_or_nil, after_check,
  Refusal,
}
use workspaced.Driver.Choice.{verdict, checked, pick-step, Made-cases}

-- The results that the first cache has are in the second.
abbrev Keeps : GoMap (Option Str) → GoMap (Option Str) → Type 0
Keeps c c' = (k : Str) (seen : Option Str) → GoMap.get c k ≡ some seen → GoMap.get c' k ≡ some seen

module _ {I : Type 0} (check : Factory → Option Str) (create : Factory → Made I) where
  checked-has :
      (f : Factory) (cache : GoMap (Option Str))
      → GoMap.get (checked check create f cache) f.id ≡ some (verdict check cache f)
  unfolding checked cached_check verdict
  checked-has f cache = ground (arith, GoMap.get-put cache f.id (check f) f.id, str_eq_refl f.id)

  checked-Keeps :
      (f : Factory) (cache : GoMap (Option Str)) → Keeps cache (checked check create f cache)
  unfolding checked cached_check
  checked-Keeps f cache k seen e =
      ground (arith, GoMap.get-put cache f.id (check f) k, str_eq_iff f.id k, e)

  checked_again :
      (f : Factory) (cache : GoMap (Option Str)) (seen : Option Str)
      → GoMap.get cache f.id ≡ some seen
      → (checked check create f cache ≡ cache) × (verdict check cache f ≡ seen)
  unfolding checked cached_check verdict
  checked_again f cache seen e = (ground (arith, e), ground (arith, e))

  refuse-cache : (r : Refusal) (o : Outcome I × GoMap (Option Str)) → (refuse r o).1 ≡ o.1
  refuse-cache r (selected i, c) = refl
  refuse-cache r (not_found, c) = refl
  refuse-cache r (unavailable rs, c) = refl

  first-Keeps :
      (f : Factory) (fs : List Factory) (cache : GoMap (Option Str))
      → Keeps (checked check create f cache) (pick check create fs (checked check create f cache)).1
      → Keeps (checked check create f cache) (pick check create (f ∷ fs) cache).1
  first-Keeps f fs cache later k seen e =
      rw (pick-step check create f fs cache) (elim (Option-cases (verdict check cache f)) [
        | inr (x, v) ↦ rw (v, refuse-cache) (later k seen e)
        | inl v ↦ elim (Made-cases (create f)) [
          | inr (x, m) ↦ rw (v, m, refuse-cache) (later k seen e)
          | inl (i, m) ↦ rw (v, m) e
        ]
      ])

  pick-Keeps :
      (fs : List Factory) (cache : GoMap (Option Str)) → Keeps cache (pick check create fs cache).1
  pick-Keeps [] cache k seen e = unfold pick in e
  pick-Keeps (f ∷ fs) cache k seen e =
      first-Keeps f fs cache (pick-Keeps fs (checked check create f cache)) k seen
        (checked-Keeps f cache k seen e)

abbrev add_refusal : {I : Type 0} → Refusal → Outcome I → Outcome I
add_refusal r (selected i) = selected i
add_refusal r not_found = not_found
add_refusal r (unavailable rs) = unavailable (r ∷ rs)

refuse-outcome :
    {I : Type 0} (r : Refusal) (o : Outcome I × GoMap (Option Str))
    → (refuse r o).0 ≡ add_refusal r o.0
refuse-outcome r (selected i, c) = refl
refuse-outcome r (not_found, c) = refl
refuse-outcome r (unavailable rs, c) = refl

module _ {I : Type 0} (check check' : Factory → Option Str) (create : Factory → Made I) where
  seen_again :
      (f : Factory) (fs : List Factory) (cache c : GoMap (Option Str))
      → Keeps (pick check create (f ∷ fs) cache).1 c
      → pick check' create (f ∷ fs) c
        ≡ after_check check' create f (verdict check cache f) c (pick check' create fs c)
  seen_again f fs cache c h =
      let has : GoMap.get c f.id ≡ some (verdict check cache f) = h f.id _ (
        first-Keeps check create f fs cache
          (pick-Keeps check create fs (checked check create f cache)) f.id _
          (checked-has check create f cache)) in
      let (same_cache, same) = checked_again check' create f c (verdict check cache f) has in
      pick-step check' create f fs c ∙ rw (same_cache, same) refl

  -- The loop runs again, with all that its cache had in the end and perhaps more.
  pick-again :
      (fs : List Factory) (cache c : GoMap (Option Str))
      → Keeps (pick check create fs cache).1 c
      → (pick check' create fs c).0 ≡ (pick check create fs cache).0
  pick-again [] cache c h = unfold pick in refl
  pick-again (f ∷ fs) cache c h =
      let next = checked check create f cache in
      rw (seen_again f fs cache c h, pick-step check create f fs cache)
        (elim (Option-cases (verdict check cache f)) [
          | inr (x, v) ↦
              let kept : Keeps (pick check create fs next).1 c =
                λ k seen e. h k seen (rw (pick-step check create f fs cache, v, refuse-cache) e) in
              rw (v, refuse-outcome, pick-again fs next c kept)
                (sym (refuse-outcome _ (pick check create fs next)))
          | inl v ↦ elim (Made-cases (create f)) [
            | inr (x, m) ↦
                let kept : Keeps (pick check create fs next).1 c = λ k seen e.
                  h k seen (rw (pick-step check create f fs cache, v, m, refuse-cache) e) in
                rw (v, m, refuse-outcome, pick-again fs next c kept)
                  (sym (refuse-outcome _ (pick check create fs next)))
            | inl (i, m) ↦ rw (v, m) refl
          ]
        ])

  any-again :
      (less : Factory → Factory → Bool) (fs : List Factory) (cache : GoMap (Option Str))
      → (pick_any check' create less fs (pick_any check create less fs cache).1).0
        ≡ (pick_any check create less fs cache).0
  any-again less [] cache = refl
  any-again less (f ∷ fs) cache =
      pick-again (Sort.sort less (f ∷ fs)) cache (pick_any check create less (f ∷ fs) cache).1
        (λ k seen e. e)

  -- Once Get has been called, it returns the same whatever the checks of the drivers say later: each of
  -- them runs once.
  pub get_driver-again :
      (getenv : Str → Str) (iface : Str) (r : Registry)
      → (get_driver check' create getenv iface (get_driver check create getenv iface r).1).0
        ≡ (get_driver check create getenv iface r).0
  unfolding get_driver
  get_driver-again getenv iface r =
      any-again
        (precedes (force_driver_from_env getenv iface) (weights_or_nil (GoMap.get r.weights iface)))
        (factories (GoMap.get r.drivers iface)) r.cache
