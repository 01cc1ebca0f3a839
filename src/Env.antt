-- ===== src/Env.antt =====
-- pkg/driver/env/driver.go: expansion of `~` and `$VAR` in paths, and os.ExpandEnv that it calls.
pub mod Plain
pub mod SearchPath
mod Samples
use workspaced.Prelude.{
  ℕ, zero, suc, Bool, true, false, ◌&&◌, ◌||◌, Option, none, some, List, [], ◌∷◌, ◌++◌, ◌==◌, leb,
  if◌then◌else◌, Str, codes, str_eq, has_prefix, not,
}
use workspaced.FilePath.{join, slash}

-- The process environment: the home directory, if it resolves, and the variables (unset ones empty).
pub record Env : Type 0 where
  pub home : Option Str
  pub var : Str → Str

-- isAlphaNum of package os
unfoldable pub is_alpha_num : ℕ → Bool
is_alpha_num c =
    c == b'_' || leb b'0' c && leb c b'9' || leb b'a' c && leb c b'z' || leb b'A' c && leb c b'Z'

-- isShellSpecialVar of package os
unfoldable pub is_special_var : ℕ → Bool
is_special_var c =
    c == b'*'
    || c == b'#'
    || c == b'$'
    || c == b'@'
    || c == b'!'
    || c == b'?'
    || c == b'-'
    || leb b'0' c && leb c b'9'

unfoldable pub alpha_prefix : Str → Str × ℕ
unfolding is_alpha_num
alpha_prefix [] = ([], 0)
alpha_prefix (c ∷ s) =
    let (name, width) = alpha_prefix s in if is_alpha_num c then (c ∷ name, suc width) else ([], 0)

-- The text up to the closing brace, and its length with the brace.
unfoldable pub brace_name : Str → Option (Str × ℕ)
brace_name [] = none
brace_name (c ∷ s) =
    let rest = brace_name s in
    if c == b'}'
    then some ([], 1)
    else (elim rest [ none ↦ none | some (name, width) ↦ some (c ∷ name, suc width) ])

-- behind an opening brace: a special variable, or all up to the closing brace
abbrev braced : Option (Str × ℕ) → Str × ℕ
braced none = ([], 1)
braced (some (name, width)) = (name, suc width)

-- getShellName of package os: the name behind a `$`, and how many bytes it takes.
unfoldable pub shell_name : Str → Str × ℕ
unfolding alpha_prefix brace_name is_special_var
shell_name [] = ([], 0)
shell_name (c ∷ s) =
    if c == b'{'
    then braced (brace_name s)
    else if is_special_var c
    then (c ∷ [], 1)
    else alpha_prefix (c ∷ s)

-- os.Expand: the second argument counts the bytes of a name that are still to be passed over.
unfoldable pub expand : (Str → Str) → ℕ → Str → Str
unfolding shell_name
expand var n [] = []
expand var (suc n) (c ∷ s) = expand var n s
expand var zero (c ∷ s) =
    let (name, width) = shell_name s in
    let plain = c ∷ expand var zero s in
    let skipped = expand var width s in
    if c == b'$' && not (str_eq s [])
    then (if str_eq name [] then (if width == 0 then plain else skipped) else var name ++ skipped)
    else plain

unfoldable pub expand_env : Env → Str → Str
unfolding expand
expand_env e s = expand e.var 0 s

-- path[1] == '/' and path[2:], for a path that begins with `~`
unfoldable pub home_relative : Str → Option Str
home_relative [] = none
home_relative (c ∷ []) = none
home_relative (c ∷ d ∷ s) = if d == slash then some s else none

unfoldable pub expand_path_in : Env → Str → Str → Str
unfolding home_relative
expand_path_in e path home =
    if not (str_eq home []) && has_prefix path (b'~' ∷ [])
    then (if str_eq path (b'~' ∷ [])
        then home
        else elim (home_relative path) [ none ↦ expand_env e path | some s ↦ join home s ])
    else expand_env e path

unfoldable pub expand_path : Env → Str → Str
unfolding expand_path_in
expand_path e path = elim e.home [
  | none ↦ expand_env e path
  | some home ↦ expand_path_in e path home
]

-- A URL with a protocol: one that is missing is added.
unfoldable pub normalize_url : Env → Str → Str
normalize_url e url =
    if has_prefix url (codes "file://")
      || has_prefix url (codes "http://")
      || has_prefix url (codes "https://")
    then url
    else if has_prefix url (codes "/") || has_prefix url (codes "~/")
    then codes "file://" ++ expand_path e url
    else codes "https://" ++ url
