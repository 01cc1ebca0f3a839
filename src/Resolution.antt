-- ===== src/Resolution.antt =====
-- internal/tool/resolution/resolver.go: which version of a tool is asked for, and where its binary is.
pub mod Nearest
pub mod Latest
mod Samples
use workspaced.Prelude.{
  ℕ, zero, suc, Bool, true, false, ◌&&◌, ◌||◌, not, Option, none, some, List, [], ◌∷◌, ◌++◌, map,
  leb, ◌==◌, if◌then◌else◌, Str, codes, str_eq, has_prefix, trim_space, is_space, ◌-◌,
}
use workspaced.Prelude.Sort
use workspaced.FilePath.{join, slash, join_slash}
use workspaced.Semver.{parse, less_than}
use mathlib.Core.List.{reverse}

-- What a path has: no file, the lines of one, or the lines that were read before an error.
pub data Lines : Type 0 where
  absent : Lines
  text unreadable : List Str → Lines

-- `failed` is an error of reading.
pub data Found : Type 0 where
  failed : Found
  version : Str → Found

-- strings.Fields of ASCII text; the second argument has the letters of the field so far, the last one first.
unfoldable pub fields_from : Str → Str → List Str
unfolding is_space
fields_from [] [] = []
fields_from [] (c ∷ cur) = reverse (c ∷ cur) ∷ []
fields_from (c ∷ s) [] = if is_space c then fields_from s [] else fields_from s (c ∷ [])
fields_from (c ∷ s) (d ∷ cur) =
    if is_space c then reverse (d ∷ cur) ∷ fields_from s [] else fields_from s (c ∷ d ∷ cur)

abbrev pub asked : Str → List Str → Option Str
asked tool [] = none
asked tool (name ∷ []) = none
asked tool (name ∷ v ∷ rest) = if str_eq name tool then some v else none

-- A line of .tool-versions; a comment or an empty line asks for nothing.
unfoldable pub line_version : Str → Str → Option Str
unfolding trim_space fields_from has_prefix
line_version tool line =
    if has_prefix (trim_space line) (codes "#") || str_eq (trim_space line) []
    then none
    else asked tool (fields_from (trim_space line) [])

abbrev pub or_else : Option Str → Str → Str
or_else none other = other
or_else (some v) other = v

-- The loop of readToolVersion; the empty text is that no line asks for the tool.
unfoldable pub scan_lines : Str → List Str → Str
unfolding line_version
scan_lines tool [] = []
scan_lines tool (l ∷ ls) = or_else (line_version tool l) (scan_lines tool ls)

-- The version of the first source that has one, or its error.
abbrev pub or_next : Found → Found → Found
or_next failed next = failed
or_next (version []) next = next
or_next (version (c ∷ v)) next = version (c ∷ v)

unfoldable pub read_tool_version : Str → Lines → Found
unfolding scan_lines
read_tool_version tool absent = version []
read_tool_version tool (text ls) = version (scan_lines tool ls)
read_tool_version tool (unreadable ls) = or_next (version (scan_lines tool ls)) failed

abbrev pub tool_versions : Str
tool_versions = codes ".tool-versions"

-- A directory is given by its elements, the last one first.
abbrev pub directory : List Str → Str
directory segs = slash ∷ join_slash (reverse segs)

-- The loop from the working directory to the root.
unfoldable pub find_up : (Str → Lines) → Str → List Str → Found → Found
unfolding read_tool_version join
find_up files tool [] last =
    or_next (read_tool_version tool (files (join (directory []) tool_versions))) last
find_up files tool (seg ∷ segs) last =
    or_next (read_tool_version tool (files (join (directory (seg ∷ segs)) tool_versions)))
      (find_up files tool segs last)

abbrev pub home_version : (Str → Lines) → Str → Option Str → Found
home_version files tool none = version []
home_version files tool (some home) =
    read_tool_version tool
      (files (join (join (join home (codes ".config")) (codes "workspaced")) tool_versions))

-- os.Getwd, whose path is absolute and clean, and os.UserHomeDir may fail.
unfoldable pub find_in_tool_versions : (Str → Lines) → Str → Option (List Str) → Option Str → Found
unfolding find_up
find_in_tool_versions files tool none home = version []
find_in_tool_versions files tool (some cwd) home =
    find_up files tool cwd (home_version files tool home)

-- strings.ToUpper of ASCII text, with the dashes replaced.
abbrev pub upper : ℕ → ℕ
upper c = if c == b'-' then b'_' else if leb b'a' c && leb c b'z' then c - 32 else c

unfoldable pub env_key : Str → Str
env_key tool = codes "WORKSPACED_" ++ map upper tool ++ codes "_VERSION"

-- `getenv` is os.Getenv.
unfoldable pub resolve_version :
    (Str → Str) → (Str → Lines) → Str → Option (List Str) → Option Str → Found
unfolding find_in_tool_versions env_key
resolve_version getenv files tool cwd home =
    or_next (find_in_tool_versions files tool cwd home)
      (or_next (version (getenv (env_key tool))) (version (codes "latest")))

abbrev pub first_there : (Str → Bool) → List Str → Str
first_there exists [] = []
first_there exists (p ∷ ps) = if exists p then p else first_there exists ps

unfoldable pub check_bin : (Str → Bool) → Str → Str → Str
unfolding join
check_bin exists ver_dir tool = first_there exists (
    join (join ver_dir (codes "bin")) tool
    ∷ join (join ver_dir (codes "bin")) (tool ++ codes ".exe")
    ∷ join ver_dir tool
    ∷ join ver_dir (tool ++ codes ".exe")
    ∷ [])

unfoldable pub sort_versions : List Str → List Str
sort_versions = Sort.sort (λ v w. less_than (parse v) (parse w))

-- The loop over the versions of a package, the last one first.
unfoldable pub latest_bin : (Str → Bool) → Str → Str → List Str → Str
unfolding check_bin
latest_bin exists pkg_dir tool [] = []
latest_bin exists pkg_dir tool (v ∷ vs) =
    let bin = check_bin exists (join pkg_dir v) tool in
    let rest = latest_bin exists pkg_dir tool vs in if str_eq bin [] then rest else bin

-- The binary of a package, whose installed versions are given.
unfoldable pub package_bin : (Str → Bool) → Str → Str → Str → List Str → Str
unfolding latest_bin sort_versions
package_bin exists pkg_dir tool v installed =
    if str_eq v (codes "latest")
    then latest_bin exists pkg_dir tool (reverse (sort_versions installed))
    else if exists (join pkg_dir v)
    then check_bin exists (join pkg_dir v) tool
    else []

-- The first candidate of the packages; the empty text is ErrToolNotFound.
unfoldable pub resolve_in : (Str → Bool) → Str → Str → Str → List (Str × List Str) → Str
unfolding package_bin
resolve_in exists tools_dir tool v [] = []
resolve_in exists tools_dir tool v ((name, installed) ∷ packages) =
    let bin = package_bin exists (join tools_dir name) tool v installed in
    let rest = resolve_in exists tools_dir tool v packages in if str_eq bin [] then rest else bin
