-- ===== src/Spec/Samples.antt =====
-- References on which the theorems on internal/parse/spec/spec.go are applied.
use workspaced.Prelude.{arith, ◌≡◌, codes, some}
use workspaced.Spec.{Spec, parse, render}
use workspaced.Spec.RoundTrip.{parse-render, IsCanonical}

abbrev tool : Spec
tool = record { provider = codes "go"; pkg = codes "a:b"; version = codes "v1@2" }

tool-IsCanonical : IsCanonical tool
tool-IsCanonical = record { provider = ground arith; pkg = ground arith }

parse-render_example : parse (codes "go:a:b@v1@2") ≡ some tool
unfolding render
parse-render_example = parse-render tool tool-IsCanonical
