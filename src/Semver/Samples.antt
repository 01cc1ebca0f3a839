-- ===== src/Semver/Samples.antt =====
-- Versions on which the theorems on internal/semver/semver.go are applied.
use workspaced.Prelude.{arith, refl, ◌≡◌, ◌↔◌, [], codes, str_eq}
use workspaced.Semver.{SemVer, parse, compare, less, is_latest}
use workspaced.Semver.Order.{compare_less_iff, Below}
use workspaced.Semver.Prefix.{Part, IsPart}

abbrev older : SemVer
older = parse (codes "v1.2.9")

abbrev newer : SemVer
newer = parse (codes "v1.10")

abbrev padded : SemVer
padded = parse (codes "1.10.0")

compare_less_iff_example : (compare older newer ≡ less) ↔ Below older.parts newer.parts
unfolding parse is_latest str_eq
compare_less_iff_example = compare_less_iff older newer refl refl

abbrev major : Part
major = record { digits = codes "12"; tail = [] }

abbrev minor : Part
minor = record { digits = codes "5"; tail = codes "-rc" }

major-IsPart : IsPart major
major-IsPart = record {
  all_digits = ground arith;
  stops = tt;
  fits = omega arith;
  no_dot = ground arith;
}

minor-IsPart : IsPart minor
minor-IsPart = record {
  all_digits = ground arith;
  stops = ground arith;
  fits = omega arith;
  no_dot = ground arith;
}
