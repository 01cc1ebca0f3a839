-- ===== src/Resolution/Nearest.antt =====
-- internal/tool/resolution/resolver.go: the nearest file that asks for a tool decides.
use workspaced.Prelude.{◌≡◌, ◌≢◌, refl, codes, ap, ◌∙◌, Option, some, List, [], ◌∷◌, ◌++◌, Str}
use workspaced.FilePath.{join}
use workspaced.Resolution.{
  Lines, Found, version, failed, read_tool_version, tool_versions, directory, or_next, find_up,
  find_in_tool_versions, home_version, resolve_version, env_key,
}

-- What the file of a directory asks for.
abbrev pub asks : (Str → Lines) → Str → List Str → Found
asks files tool segs = read_tool_version tool (files (join (directory segs) tool_versions))

-- The directories from the working directory up to below another one ask for nothing.
abbrev pub AreSilent : (Str → Lines) → Str → List Str → List Str → Type 0
AreSilent files tool [] here = Unit
AreSilent files tool (seg ∷ near) here =
    (asks files tool (seg ∷ near ++ here) ≡ version []) × AreSilent files tool near here

-- A file that asks for a version, or cannot be read, is the answer of its directory.
abbrev pub Decides : Found → Type 0
Decides failed = Unit
Decides (version v) = v ≢ []

or_next-Decides : (found : Found) (next : Found) → Decides found → or_next found next ≡ found
or_next-Decides failed next h = refl
or_next-Decides (version []) next h = absurd (h refl)
or_next-Decides (version (c ∷ v)) next h = refl

find_up-here :
    (files : Str → Lines) (tool : Str) (here : List Str) (last : Found)
    → Decides (asks files tool here)
    → find_up files tool here last ≡ asks files tool here
unfolding find_up
find_up-here files tool [] last h = or_next-Decides (asks files tool []) last h
find_up-here files tool (seg ∷ segs) last h =
    or_next-Decides (asks files tool (seg ∷ segs)) (find_up files tool segs last) h

find_up-nearest :
    (files : Str → Lines) (tool : Str) (near : List Str) (here : List Str) (last : Found)
    → AreSilent files tool near here
    → Decides (asks files tool here)
    → find_up files tool (near ++ here) last ≡ asks files tool here
unfolding find_up
find_up-nearest files tool [] here last silent h = find_up-here files tool here last h
find_up-nearest files tool (seg ∷ near) here last (quiet, silent) h =
    ap (λ found. or_next found (find_up files tool (near ++ here) last)) quiet
    ∙ find_up-nearest files tool near here last silent h

-- The version that is asked for is the one of the nearest directory at or above the working directory
-- whose .tool-versions asks for the tool, or the error of reading that file: when the directories below
-- it ask for nothing, neither the directories above nor the home directory nor the environment
-- variable are considered.
pub resolve_version-nearest :
    (getenv : Str → Str) (files : Str → Lines) (tool : Str) (near : List Str) (here : List Str)
    (home : Option Str)
    → AreSilent files tool near here
    → Decides (asks files tool here)
    → resolve_version getenv files tool (some (near ++ here)) home ≡ asks files tool here
unfolding resolve_version find_in_tool_versions
resolve_version-nearest getenv files tool near here home silent h =
    ap
      (λ found.
        or_next found (or_next (version (getenv (env_key tool))) (version (codes "latest"))))
      (find_up-nearest files tool near here (home_version files tool home) silent h)
    ∙ or_next-Decides (asks files tool here)
        (or_next (version (getenv (env_key tool))) (version (codes "latest"))) h
