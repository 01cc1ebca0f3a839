-- ===== src/Prelude/GoMap.antt =====
-- Go's map[string]V as an association list. `put` overwrites in place, so a key occurs once.
use mathlib.Core.Path.{◌≡◌, refl}
use mathlib.Core.List.{List, [], ◌∷◌}
use mathlib.Core.Option.{Option, none, some}
use native.Mathlib.Omega.{arith}
use workspaced.Prelude.Tests.{if◌then◌else◌}
use workspaced.Prelude.Text.{Str, str_eq, str_eq_iff}

abbrev pub GoMap : Type 0 → Type 0
GoMap V = List (Str × V)

module _ {V : Type 0} where
  -- v, ok := m[k]
  unfoldable pub get : GoMap V → Str → Option V
  get [] k = none
  get ((j, v) ∷ m) k = let rest = get m k in if str_eq j k then some v else rest

  -- m[k] = v
  unfoldable pub put : GoMap V → Str → V → GoMap V
  put [] k v = (k, v) ∷ []
  put ((j, w) ∷ m) k v = let rest = put m k v in if str_eq j k then (k, v) ∷ m else (j, w) ∷ rest

  -- delete(m, k)
  unfoldable pub remove : GoMap V → Str → GoMap V
  remove [] k = []
  remove ((j, w) ∷ m) k = let rest = remove m k in if str_eq j k then rest else (j, w) ∷ rest

  pub get-put :
      (m : GoMap V) (k : Str) (v : V) (j : Str)
      → get (put m k v) j ≡ (if str_eq k j then some v else get m j)
  unfolding get put
  get-put [] k v j = refl
  get-put ((i, w) ∷ m) k v j =
      ground (arith, get-put m k v j, str_eq_iff i k, str_eq_iff i j, str_eq_iff k j)

  pub get-remove :
      (m : GoMap V) (k j : Str) → get (remove m k) j ≡ (if str_eq k j then none else get m j)
  unfolding get remove
  get-remove [] k j = ground arith
  get-remove ((i, w) ∷ m) k j =
      ground (arith, get-remove m k j, str_eq_iff i k, str_eq_iff i j, str_eq_iff k j)
