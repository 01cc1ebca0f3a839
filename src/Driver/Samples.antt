-- ===== src/Driver/Samples.antt =====
-- Two drivers of an interface on which the theorems on pkg/driver/driver.go are applied.
use workspaced.Prelude.{
  arith, ◌≡◌, ◌↔◌, refl, Option, none, some, List, [], ◌∷◌, Str, codes, inl, inr, In, str_eq,
  if◌then◌else◌,
}
use workspaced.Prelude.GoMap
use workspaced.Prelude.GoMap.{GoMap}
use workspaced.Driver.{
  Factory, Registry, ℤ, pos, valid, set_weights, check_all, check_ids, check_weight, covers,
  has_weights, Made, made, broken, selected, get_driver, register, is_registered, factories,
  force_driver_from_env, force_key, last_part, trim_suffix,
}
use workspaced.Driver.Choice.{AreDistinct, Gives, IsBest, verdict}
use workspaced.Driver.Choice.Get.{drivers_of, order_of, get_driver-IsBest, get_driver-order}
use workspaced.Driver.Choice.Forced.{get_driver-forced}
use workspaced.Driver.Choice.Registered.{register-AreDistinct}
use workspaced.Driver.Choice.Cached.{get_driver-again}

abbrev screen : Str
screen = codes "screen"

abbrev grim : Factory
grim = record { id = codes "grim"; name = codes "Grim" }

abbrev maim : Factory
maim = record { id = codes "maim"; name = codes "Maim" }

abbrev both : Registry
both = record {
  drivers = (screen, grim ∷ maim ∷ []) ∷ [];
  weights = [];
  doctor_list = (screen, grim) ∷ (screen, maim) ∷ [];
  cache = [];
}

abbrev chosen_weights : GoMap (GoMap ℤ)
chosen_weights = (screen, (codes "grim", pos 60) ∷ (codes "maim", pos 40) ∷ []) ∷ []

abbrev weighted : Registry
weighted = record both { weights = (screen, (codes "grim", 60) ∷ (codes "maim", 40) ∷ []) ∷ [] }

weighted_accepted : set_weights chosen_weights both ≡ valid weighted
unfolding set_weights check_all check_ids check_weight covers has_weights GoMap.get str_eq
weighted_accepted = refl

-- Every check passes, and only the second driver can be created.
abbrev passes : Factory → Option Str
passes f = none

abbrev create : Factory → Made Str
create f = if str_eq f.id (codes "maim") then made f.name else broken (codes "no display")

distinct : AreDistinct (drivers_of screen weighted)
unfolding GoMap.get str_eq
distinct = (((λ e. ground (arith, e)), tt), (tt, tt))

-- The environment has one variable.
abbrev asks : Str → Str
asks key = if str_eq key (codes "WORKSPACED_FORCE_SCREEN_DRIVER") then codes "maim" else []

asked : force_driver_from_env asks screen ≡ maim.id
unfolding force_driver_from_env force_key last_part trim_suffix str_eq
asked = refl

maim-Gives : Gives passes create weighted.cache maim (codes "Maim")
unfolding verdict GoMap.get str_eq
maim-Gives = (refl, refl)

get_driver-forced_example :
    (get_driver passes create asks screen weighted).0 ≡ selected (codes "Maim")
unfolding GoMap.get str_eq
get_driver-forced_example =
    get_driver-forced passes create asks chosen_weights both weighted screen maim (codes "Maim")
      asked weighted_accepted distinct (inr (inl refl)) (ground arith) maim-Gives

get_driver-IsBest_example :
    IsBest passes create
      (order_of asks screen weighted)
      weighted.cache
      (drivers_of screen weighted)
      (get_driver passes create asks screen weighted).0
get_driver-IsBest_example = get_driver-IsBest passes create asks screen weighted distinct

-- The other order of the map.
abbrev turned : GoMap (List Factory)
turned = (screen, maim ∷ grim ∷ []) ∷ []

turned_distinct : AreDistinct (factories (GoMap.get turned screen))
unfolding GoMap.get str_eq
turned_distinct = (((λ e. ground (arith, e)), tt), (tt, tt))

same_members :
    (f : Factory) → In f (drivers_of screen weighted) ↔ In f (factories (GoMap.get turned screen))
unfolding GoMap.get str_eq
same_members f = (
  λ m. elim m [ inl e ↦ inr (inl e) | inr n ↦ elim n [ inl e ↦ inl e | inr k ↦ absurd k ] ],
  λ m. elim m [ inl e ↦ inr (inl e) | inr n ↦ elim n [ inl e ↦ inl e | inr k ↦ absurd k ] ],
)

get_driver-order_example :
    (get_driver passes create asks screen (record weighted { drivers = turned })).0
    ≡ selected (codes "Maim")
get_driver-order_example =
    get_driver-order passes create asks screen weighted turned (codes "Maim") distinct
      turned_distinct same_members get_driver-forced_example

-- Later both checks fail.
get_driver-again_example :
    (get_driver
      (λ f. some (codes "gone"))
      create
      asks
      screen
      (get_driver passes create asks screen weighted).1).0
    ≡ (get_driver passes create asks screen weighted).0
get_driver-again_example =
    get_driver-again passes (λ f. some (codes "gone")) create asks screen weighted

abbrev fresh : Registry
fresh = record { drivers = []; weights = []; doctor_list = []; cache = [] }

abbrev with_grim : Registry
with_grim = record fresh { drivers = (screen, grim ∷ []) ∷ []; doctor_list = (screen, grim) ∷ [] }

registered : register screen grim fresh ≡ some with_grim
unfolding register is_registered GoMap.get GoMap.put str_eq
registered = refl

register-AreDistinct_example : AreDistinct (drivers_of screen with_grim)
unfolding GoMap.get
register-AreDistinct_example =
    register-AreDistinct screen grim fresh with_grim (λ i. tt) registered screen
