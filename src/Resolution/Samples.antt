-- ===== src/Resolution/Samples.antt =====
-- A repository and installed tools on which the theorems on internal/tool/resolution/resolver.go are applied.
use workspaced.Prelude.{
  arith, refl, sym, ◌∙◌, ◌≡◌, Bool, ◌||◌, none, some, List, [], ◌∷◌, if◌then◌else◌, Str, codes,
  str_eq,
}
use workspaced.Prelude.Sort
use workspaced.Semver.{parse, less_than}
use workspaced.Resolution.{
  Lines, absent, text, version, resolve_version, read_tool_version, package_bin,
}
use workspaced.Resolution.Nearest.{resolve_version-nearest}
use workspaced.Resolution.Latest.{IsLatest, package_bin-IsLatest}

-- The repository asks for a version of go, and the root for another one.
abbrev files : Str → Lines
files path =
    if str_eq path (codes "/repo/.tool-versions")
    then text (codes "# tools" ∷ codes "go 1.2" ∷ [])
    else if str_eq path (codes "/.tool-versions")
    then text (codes "go 1.0" ∷ [])
    else absent

resolve_version-nearest_example :
    resolve_version (λ _. []) files (codes "go") (some (codes "src" ∷ codes "repo" ∷ [])) none
    ≡ version (codes "1.2")
unfolding read_tool_version str_eq workspaced.FilePath.join
resolve_version-nearest_example =
    resolve_version-nearest (λ _. []) files (codes "go") (codes "src" ∷ []) (codes "repo" ∷ []) none
      (refl, tt) (λ e. ground (arith, e))

-- The version in between has no binary.
abbrev exists : Str → Bool
exists path = str_eq path (codes "/t/9.0/bin/go") || str_eq path (codes "/t/10.0/go")

abbrev installed : List Str
installed = codes "10.0" ∷ codes "11.0" ∷ codes "9.0" ∷ []

latest_go :
    package_bin exists (codes "/t") (codes "go") (codes "latest") installed ≡ codes "/t/10.0/go"
unfolding package_bin str_eq Sort.sort less_than workspaced.Semver.compare parse
latest_go = refl

package_bin-IsLatest_example :
    IsLatest exists
      (codes "/t")
      (codes "go")
      installed
      (package_bin exists (codes "/t") (codes "go") (codes "latest") installed)
package_bin-IsLatest_example =
    package_bin-IsLatest exists (codes "/t") (codes "go") installed
      (λ e. ground (arith, sym latest_go ∙ e))
