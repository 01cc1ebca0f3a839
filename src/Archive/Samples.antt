-- ===== src/Archive/Samples.antt =====
-- A member of an archive on which the theorem on internal/archive/path.go is applied.
use workspaced.Prelude.{
  arith, ◌≡◌, refl, some, List, [], ◌∷◌, ◌++◌, All, Str, codes, str_eq, has_prefix,
}
use workspaced.FilePath.{
  clean, clean_segs, clean_step, finish, split_slash, join, join_slash, is_abs, rel, rel_clean,
  rel_segs, elements, elements_of,
}
use workspaced.FilePath.Clean.{IsElement, absolute}
use workspaced.Archive.{accept, join_within, path_within_dest}
use workspaced.Archive.Jail.{join_within-below}

abbrev dest : List Str
dest = codes "tmp" ∷ []

dest-IsElement : All IsElement dest
dest-IsElement = (
  record { not_empty = λ e. cc; not_dot = λ e. cc; not_dot_dot = λ e. cc; no_slash = ground arith },
  tt,
)

joined : join_within (absolute dest) (codes "a/../b") ≡ some (codes "/tmp/b")
unfolding join_within accept path_within_dest join clean clean_segs clean_step finish split_slash
    join_slash is_abs rel rel_clean rel_segs elements elements_of str_eq has_prefix
joined = refl

join_within-below_example :
    (qs : List Str) × All IsElement qs × (codes "/tmp/b" ≡ absolute (dest ++ qs))
join_within-below_example =
    join_within-below dest (codes "a/../b") (codes "/tmp/b") dest-IsElement joined
