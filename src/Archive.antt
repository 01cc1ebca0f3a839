-- ===== src/Archive.antt =====
-- internal/archive/path.go: the test that a path stays below a directory, and the join that relies on it.
pub mod Jail
mod Samples
use workspaced.Prelude.{
  Bool, true, false, ◌&&◌, not, Option, none, some, List, [], ◌∷◌, if◌then◌else◌, Str, codes,
  str_eq, has_prefix,
}
use workspaced.FilePath.{dot, dot_dot, slash, is_abs, clean, join, rel, dir}

abbrev pub up_slash : Str
up_slash = b'.' ∷ b'.' ∷ slash ∷ []

abbrev pub stays : Option Str → Bool
stays none = false
stays (some r) =
    if str_eq r dot then true else not (str_eq r dot_dot) && not (has_prefix r up_slash)

unfoldable pub path_within_dest : Str → Str → Bool
unfolding clean rel has_prefix
path_within_dest dest target = stays (rel (clean dest) (clean target))

-- `none` is ErrIllegalPath; `target` is the joined path.
unfoldable pub accept : Str → Str → Str → Option Str
accept dest name target =
    if str_eq name []
    then none
    else if is_abs name
    then none
    else if path_within_dest dest target
    then some target
    else none

unfoldable pub join_within : Str → Str → Option Str
join_within dest name = accept dest name (join dest name)

abbrev pub resolved : Str → Str → Str
resolved real_parent link = if is_abs link then clean link else join real_parent link

abbrev pub link_stays : Str → Str → Option Str → Bool
link_stays dest link none = false
link_stays dest link (some real_parent) =
    path_within_dest dest real_parent && path_within_dest dest (resolved real_parent link)

-- filepath.EvalSymlinks is a parameter; `none` is its error.
unfoldable pub symlink_target_within : (Str → Option Str) → Str → Str → Str → Bool
unfolding path_within_dest clean join is_abs dir
symlink_target_within eval_symlinks dest link_path link =
    not (str_eq link []) && link_stays dest link (eval_symlinks (dir link_path))
