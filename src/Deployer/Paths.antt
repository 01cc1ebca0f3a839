-- ===== src/Deployer/Paths.antt =====
-- The paths of internal/deployer/executor.go: relative to a root in the state file, absolute in memory.
pub mod RoundTrip
mod Samples
use workspaced.Prelude.{
  ℕ, Bool, true, false, ◌&&◌, ◌||◌, Option, none, some, List, [], ◌∷◌, ◌++◌, ◌==◌, if◌then◌else◌,
  Str, codes, str_eq, has_prefix, trim_space,
}
use workspaced.FilePath.{slash, dot, dot_dot, clean, join, rel, is_abs}
use workspaced.Env.{Env, expand_path}

-- The result of Rel, unless it is an error or leads out of the root.
unfoldable pub inside : Str → Option Str → Str
inside path none = path
inside path (some r) =
    if str_eq r dot_dot || has_prefix r (b'.' ∷ b'.' ∷ slash ∷ []) then path else r

unfoldable pub rel_to_root : Str → Str → Str
unfolding inside
rel_to_root path root =
    if str_eq (trim_space path) [] || str_eq (trim_space root) []
    then trim_space path
    else inside (clean (trim_space path)) (rel (clean (trim_space root)) (clean (trim_space path)))

-- AbsFromRoot behind the expansion of the path.
unfoldable pub abs_expanded : Str → Str → Str
abs_expanded expanded root =
    if is_abs expanded
    then clean expanded
    else if str_eq (trim_space root) []
    then clean expanded
    else clean (join (trim_space root) expanded)

unfoldable pub abs_from_root : Env → Str → Str → Str
abs_from_root e path root =
    if str_eq (trim_space path) []
    then trim_space path
    else abs_expanded (expand_path e (trim_space path)) root

-- A path for display: below the home directory it begins with a tilde.
unfoldable pub pretty_path : Option Str → Str → Str
pretty_path none path = path
pretty_path (some home) path =
    let r = rel_to_root path home in
    if str_eq r path then path else if str_eq r dot then b'~' ∷ [] else b'~' ∷ slash ∷ r
