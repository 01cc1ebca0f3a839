-- ===== src/Env/Samples.antt =====
-- Paths on which the theorems on pkg/driver/env/driver.go are applied.
use workspaced.Prelude.{◌||◌, ◌∷◌, arith, refl, ◌≡◌, [], Str, codes, str_eq, if◌then◌else◌, some}
use workspaced.Env.{Env, expand, is_alpha_num, is_special_var}
use workspaced.Env.SearchPath.{is_in, merge_essential_paths, is_in-merge_essential_paths}
use workspaced.Env.Plain.{expand_dollar, IsVariable}

abbrev user : Str → Str
user name = if str_eq name (codes "USER") then codes "ana" else []

abbrev ana : Env
ana = record { home = some (codes "/home/ana"); var = user }

user_IsVariable : IsVariable b'U' (codes "SER")
unfolding is_alpha_num is_special_var
user_IsVariable = record { alpha = (refl, (refl, (refl, (refl, tt)))); named = refl }

expand_dollar_example : expand user 0 (codes "/home/$USER") ≡ codes "/home/ana"
unfolding str_eq
expand_dollar_example =
    expand_dollar user (codes "/home/") b'U' (codes "SER") (ground arith) user_IsVariable

is_in-merge_essential_paths_example :
    is_in
      (codes "/nix")
      (merge_essential_paths (codes "/nix" ∷ codes "/bin" ∷ []) (codes "/bin" ∷ []))
    ≡ (is_in (codes "/nix") (codes "/nix" ∷ codes "/bin" ∷ [])
        || is_in (codes "/nix") (codes "/bin" ∷ []))
is_in-merge_essential_paths_example =
    is_in-merge_essential_paths (codes "/nix") (codes "/nix" ∷ codes "/bin" ∷ [])
      (codes "/bin" ∷ [])
