-- ===== src/Driver.antt =====
-- pkg/driver/driver.go: the registry of drivers, their weights, and the choice of one. The compatibility
-- checks and the constructors of the drivers are parameters.
pub mod Choice
pub mod Doctor
mod Samples
use workspaced.Prelude.{
  ℕ, ◌+◌, ◌-◌, Bool, true, false, ◌&&◌, ◌||◌, not, Option, none, some, List, [], ◌∷◌, ◌++◌, map,
  ltb, leb, ◌==◌, if◌then◌else◌, Str, codes, str_eq, str_lt, length, take, filter, has_prefix,
}
use workspaced.Prelude.GoMap
use workspaced.Prelude.GoMap.{GoMap}
use workspaced.Prelude.Sort

pub record Factory : Type 0 where
  pub id : Str
  pub name : Str

-- `drivers` has the factories of each interface, in the order in which the map is iterated; `cache` has
-- the result of each check that has run, `none` for nil. A weight is natural once it has passed the test.
pub record Registry : Type 0 where
  pub drivers : GoMap (List Factory)
  pub weights : GoMap (GoMap ℕ)
  pub doctor_list : List (Str × Factory)
  pub cache : GoMap (Option Str)

-- A configured weight.
pub data ℤ : Type 0 where
  pos negsuc : ℕ → ℤ

pub data WeightError : Type 0 where
  invalid_weight : Str → Str → WeightError
  missing_interface : Str → WeightError
  missing_weight : Str → Str → WeightError

pub data WeightResult (A : Type 0) : Type 0 where
  valid : A → WeightResult A
  refused : WeightError → WeightResult A

abbrev pub and_then : {A B : Type 0} → WeightResult A → (A → WeightResult B) → WeightResult B
and_then (valid a) f = f a
and_then (refused e) f = refused e

unfoldable pub check_weight : Str → Str → ℤ → WeightResult ℕ
check_weight iface id (pos n) = if ltb 100 n then refused (invalid_weight id iface) else valid n
check_weight iface id (negsuc n) = refused (invalid_weight id iface)

unfoldable pub check_ids : Str → GoMap ℤ → WeightResult (GoMap ℕ)
unfolding check_weight
check_ids iface [] = valid []
check_ids iface ((id, w) ∷ ids) =
    and_then (check_weight iface id w)
      λ n. and_then (check_ids iface ids) λ rest. valid ((id, n) ∷ rest)

-- The first loop of SetWeights.
unfoldable pub check_all : GoMap (GoMap ℤ) → WeightResult (GoMap (GoMap ℕ))
unfolding check_ids
check_all [] = valid []
check_all ((iface, ids) ∷ w) =
    and_then (check_ids iface ids) λ ns. and_then (check_all w) λ rest. valid ((iface, ns) ∷ rest)

unfoldable pub has_weights : Str → GoMap ℕ → List Factory → WeightResult Unit
has_weights iface configured [] = valid tt
has_weights iface configured (f ∷ fs) = elim (GoMap.get configured f.id) [
  | none ↦ refused (missing_weight f.id iface)
  | some n ↦ has_weights iface configured fs
]

-- The second loop of SetWeights.
unfoldable pub covers : GoMap (GoMap ℕ) → GoMap (List Factory) → WeightResult Unit
unfolding has_weights
covers w [] = valid tt
covers w ((iface, fs) ∷ drivers) = elim (GoMap.get w iface) [
  | none ↦ refused (missing_interface iface)
  | some configured ↦ and_then (has_weights iface configured fs) λ _. covers w drivers
]

unfoldable pub set_weights : GoMap (GoMap ℤ) → Registry → WeightResult Registry
unfolding check_all covers
set_weights w r =
    and_then (check_all w)
      λ ns. and_then (covers ns r.drivers) λ _. valid (record r { weights = ns })

-- The part behind the last slash, or all of the text.
unfoldable pub last_part : Str → Str → Str
last_part part [] = part
last_part part (c ∷ s) = last_part (if c == b'/' then s else part) s

-- strings.TrimSuffix
unfoldable pub trim_suffix : Str → Str → Str
trim_suffix suffix [] = []
trim_suffix suffix (c ∷ s) =
    let rest = trim_suffix suffix s in if str_eq (c ∷ s) suffix then [] else c ∷ rest

-- strings.ToUpper on ASCII text, with the points replaced.
abbrev pub upper : ℕ → ℕ
upper c = if c == b'.' then b'_' else if leb b'a' c && leb c b'z' then c - 32 else c

unfoldable pub force_key : Str → Str
unfolding last_part trim_suffix
force_key iface =
    codes "WORKSPACED_FORCE_"
    ++ map upper (trim_suffix (codes ".Driver") (last_part iface iface))
    ++ codes "_DRIVER"

-- os.Getenv is a parameter.
unfoldable pub force_driver_from_env : (Str → Str) → Str → Str
unfolding force_key
force_driver_from_env getenv iface =
    if not (str_eq (getenv (codes "WORKSPACED_FORCE_DRIVER")) [])
    then getenv (codes "WORKSPACED_FORCE_DRIVER")
    else getenv (force_key iface)

abbrev pub weight_or_zero : Option ℕ → ℕ
weight_or_zero none = 0
weight_or_zero (some n) = n

abbrev pub weights_or_nil : Option (GoMap ℕ) → GoMap ℕ
weights_or_nil none = []
weights_or_nil (some w) = w

-- The forced driver is given.
unfoldable pub effective_weight : Str → GoMap ℕ → Str → ℕ
effective_weight forced weights id =
    if not (str_eq forced []) && str_eq forced id
    then 101
    else weight_or_zero (GoMap.get weights id)

unfoldable pub is_registered : Str → List Factory → Bool
is_registered id [] = false
is_registered id (f ∷ fs) = str_eq f.id id || is_registered id fs

abbrev pub factories : Option (List Factory) → List Factory
factories none = []
factories (some fs) = fs

-- Register; `none` is a panic.
unfoldable pub register : Str → Factory → Registry → Option Registry
unfolding is_registered
register iface f r =
    let fs = factories (GoMap.get r.drivers iface) in
    if str_eq f.id [] || is_registered f.id fs
    then none
    else some (record r {
      drivers = GoMap.put r.drivers iface (fs ++ f ∷ []);
      doctor_list = r.doctor_list ++ (iface, f) ∷ [];
    })

-- The order of Get: the greater weight first, then the smaller id.
unfoldable pub precedes : Str → GoMap ℕ → Factory → Factory → Bool
unfolding effective_weight
precedes forced weights f g =
    let wf = effective_weight forced weights f.id in
    let wg = effective_weight forced weights g.id in
    if wf == wg then str_lt f.id g.id else ltb wg wf

-- What New returns.
pub data Made (I : Type 0) : Type 0 where
  made : I → Made I
  broken : Str → Made I

pub data Refusal : Type 0 where
  skip_driver fail_driver : Str → Str → Refusal

pub data Outcome (I : Type 0) : Type 0 where
  selected : I → Outcome I
  not_found : Outcome I
  unavailable : List Refusal → Outcome I

-- cachedCheck, given what the check would return if it ran now.
unfoldable pub cached_check :
    Str → Option Str → GoMap (Option Str) → Option Str × GoMap (Option Str)
cached_check id now cache = elim (GoMap.get cache id) [
  | none ↦ (now, GoMap.put cache id now)
  | some seen ↦ (seen, cache)
]

abbrev pub refuse :
    {I : Type 0} → Refusal → Outcome I × GoMap (Option Str) → Outcome I × GoMap (Option Str)
refuse r (selected i, cache) = (selected i, cache)
refuse r (not_found, cache) = (not_found, cache)
refuse r (unavailable rs, cache) = (unavailable (r ∷ rs), cache)

module _ {I : Type 0} (check : Factory → Option Str) (create : Factory → Made I) where
  abbrev pub after_create :
      Factory
      → Made I
      → GoMap (Option Str)
      → Outcome I × GoMap (Option Str)
      → Outcome I × GoMap (Option Str)
  after_create f (made i) cache rest = (selected i, cache)
  after_create f (broken e) cache rest = refuse (fail_driver f.id e) rest

  abbrev pub after_check :
      Factory
      → Option Str
      → GoMap (Option Str)
      → Outcome I × GoMap (Option Str)
      → Outcome I × GoMap (Option Str)
  after_check f (some e) cache rest = refuse (skip_driver f.id e) rest
  after_check f none cache rest = after_create f (create f) cache rest

  -- The loop of Get over the sorted factories.
  unfoldable pub pick : List Factory → GoMap (Option Str) → Outcome I × GoMap (Option Str)
  unfolding cached_check
  pick [] cache = (unavailable [], cache)
  pick (f ∷ fs) cache =
      let c = cached_check f.id (check f) cache in after_check f c.0 c.1 (pick fs c.1)

  abbrev pub pick_any :
      (Factory → Factory → Bool)
      → List Factory
      → GoMap (Option Str)
      → Outcome I × GoMap (Option Str)
  pick_any less [] cache = (not_found, cache)
  pick_any less (f ∷ fs) cache = pick (Sort.sort less (f ∷ fs)) cache

  unfoldable pub get_driver : (Str → Str) → Str → Registry → Outcome I × Registry
  unfolding pick precedes force_driver_from_env
  get_driver getenv iface r =
      let less =
        precedes (force_driver_from_env getenv iface)
          (weights_or_nil (GoMap.get r.weights iface)) in
      let picked = pick_any less (factories (GoMap.get r.drivers iface)) r.cache in
      (picked.0, record r { cache = picked.1 })
