-- ===== src/Driver/Doctor.antt =====
-- pkg/driver/driver.go: the rows of Doctor for an interface.
use workspaced.Prelude.{
  ℕ, Bool, true, false, Option, none, some, List, [], ◌∷◌, ltb, ◌==◌, if◌then◌else◌, Str, str_eq,
  str_lt,
}
use workspaced.Prelude.GoMap
use workspaced.Prelude.GoMap.{GoMap}
use workspaced.Prelude.Sort
use workspaced.Driver.{
  Factory, Registry, cached_check, effective_weight, force_driver_from_env, weights_or_nil,
}

-- The Doctor's row of a driver: its factory, its weight and the error of its check.
pub record DriverStatus : Type 0 where
  pub factory : Factory
  pub weight : ℕ
  pub error : Option Str
  pub is_selected : Bool

module _ (check : Factory → Option Str) where
  -- The loop of Doctor over the drivers of an interface.
  unfoldable pub statuses :
      Str → GoMap ℕ → List Factory → GoMap (Option Str) → List DriverStatus × GoMap (Option Str)
  unfolding cached_check effective_weight
  statuses forced weights [] cache = ([], cache)
  statuses forced weights (f ∷ fs) cache =
      let c = cached_check f.id (check f) cache in
      let rest = statuses forced weights fs c.1 in
      (
        record {
          factory = f;
          weight = effective_weight forced weights f.id;
          error = c.0;
          is_selected = false;
        }
            ∷ rest.0,
        rest.1,
      )

unfoldable pub status_less : DriverStatus → DriverStatus → Bool
status_less a b =
    if a.weight == b.weight then str_lt a.factory.id b.factory.id else ltb b.weight a.weight

abbrev pub is_available : Option Str → Bool
is_available none = true
is_available (some e) = false

-- The loop that marks the selected driver.
unfoldable pub mark_selected : List DriverStatus → List DriverStatus
mark_selected [] = []
mark_selected (s ∷ ss) =
    let rest = mark_selected ss in
    if is_available s.error then record s { is_selected = true } ∷ ss else s ∷ rest

unfoldable pub entries_of : Str → List (Str × Factory) → List Factory
entries_of iface [] = []
entries_of iface ((i, f) ∷ es) =
    let rest = entries_of iface es in if str_eq i iface then f ∷ rest else rest

-- Doctor, for one interface.
unfoldable pub doctor_interface :
    (Factory → Option Str) → (Str → Str) → Str → Registry → List DriverStatus × Registry
unfolding statuses status_less mark_selected entries_of force_driver_from_env
doctor_interface check getenv iface r =
    let weights = weights_or_nil (GoMap.get r.weights iface) in
    let rows =
      statuses check (force_driver_from_env getenv iface) weights (entries_of iface r.doctor_list)
        r.cache in
    (mark_selected (Sort.sort status_less rows.0), record r { cache = rows.1 })
