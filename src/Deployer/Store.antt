-- ===== src/Deployer/Store.antt =====
-- internal/deployer/state.go: the state on disk has its keys relative to the root of the apply. Its text is
-- JSON: json.Unmarshal gives an error, or the files, which may be nil.
pub mod Texts
pub mod RoundTrip
use workspaced.Prelude.{
  List, [], ◌∷◌, ◌++◌, Str, Option, some, none, str_lt, str_eq, str_eq_iff, ◌≡◌, ◌≢◌, refl, sym, ap,
  subst, arith, ◌∙◌, inl, inr, All, In, Bool-cases, Option-cases, str_eq_refl,
}
use workspaced.Prelude.Sort
use workspaced.Prelude.GoMap
use workspaced.Prelude.GoMap.{GoMap, get-put}
use workspaced.Env.{Env, expand_path}
use workspaced.FilePath.{clean, join_slash}
use workspaced.FilePath.Clean.{IsElement, absolute}
use workspaced.Deployer.Types.{State, ManagedInfo}
use workspaced.Deployer.Paths.{rel_to_root, abs_from_root}
use workspaced.Deployer.Paths.RoundTrip.{IsPlain, IsTrimmed, abs_from_root-rel_to_root}

-- The root is expanded and cleaned when the store is made.
unfoldable pub store_root : Env → Str → Str
store_root e root = clean (expand_path e root)

-- The loop of Load over the keys of the file.
unfoldable pub load_files : Env → Str → State → State → State
load_files e root [] state = state
load_files e root ((key, info) ∷ disk) state =
    load_files e root disk (GoMap.put state (abs_from_root e key root) info)

-- Load: a missing file, or one without a map, is an empty state; `none` is that the text is no JSON.
unfoldable pub load : (Str → Option (Option State)) → Env → Str → Option Str → Option State
unfolding load_files
load unmarshal e root none = some []
load unmarshal e root (some text) = elim (unmarshal text) [
  | none ↦ none
  | some files ↦ elim files [ none ↦ some [] | some disk ↦ some (load_files e root disk []) ]
]

unfoldable pub keys : State → List Str
keys [] = []
keys ((k, info) ∷ state) = k ∷ keys state

-- The loop of Save over the sorted keys.
unfoldable pub save_keys : Str → State → List Str → State → State
save_keys root state [] disk = disk
save_keys root state (k ∷ ks) disk = elim (GoMap.get state k) [
  | none ↦ save_keys root state ks disk
  | some info ↦ save_keys root state ks (GoMap.put disk (rel_to_root k root) info)
]

-- The map that Save writes.
unfoldable pub on_disk : Str → State → State
unfolding save_keys keys
on_disk root state = save_keys root state (Sort.sort str_lt (keys state)) []

-- Save: the text that it writes, which json.MarshalIndent gives.
unfoldable pub save : (State → Str) → Str → State → Str
unfolding on_disk
save marshal root state = marshal (on_disk root state)
