-- ===== src/Semver.antt =====
-- internal/semver/semver.go: version strings, their numeric parts and their order.
-- An `int` is a natural number here: Atoi is only called on digits, and fails above the largest int.
pub mod Order
pub mod Prefix
mod Samples
use workspaced.Prelude.{
  ℕ, zero, suc, ◌+◌, ◌*◌, ◌-◌, ◌^◌, max, Bool, true, false, not, ◌&&◌, Option, none, some, List, [],
  ◌∷◌, ◌++◌, ltb, leb, ◌==◌, if◌then◌else◌, Str, codes, str_eq, length, map,
}

pub record SemVer : Type 0 where
  pub original : Str
  pub parts : List ℕ

-- The result of Compare: -1, 0 or 1.
pub data Sign : Type 0 where
  less same greater : Sign

abbrev pub max_int : ℕ
max_int = 2 ^ 63 - 1

-- The loop over a part that collects its leading digits.
unfoldable pub digit_prefix : Str → Str
digit_prefix [] = []
digit_prefix (c ∷ s) =
    let rest = digit_prefix s in if leb b'0' c && leb c b'9' then c ∷ rest else []

abbrev pub digits_value : ℕ → Str → ℕ
digits_value n [] = n
digits_value n (c ∷ s) = digits_value (n * 10 + (c - b'0')) s

-- strconv.Atoi on a non-empty run of digits.
unfoldable pub atoi : Str → Option ℕ
atoi s = let n = digits_value 0 s in if ltb max_int n then none else some n

abbrev pub or_zero : Option ℕ → ℕ
or_zero none = 0
or_zero (some n) = n

unfoldable pub parse_numeric_prefix : Str → ℕ
unfolding digit_prefix atoi
parse_numeric_prefix s =
    let num_part = digit_prefix s in if str_eq num_part [] then 0 else or_zero (atoi num_part)

-- strings.Split(v, "."), which has at least one part.
unfoldable pub split_dots : Str → Str → List Str
split_dots [] cur = cur ∷ []
split_dots (c ∷ s) cur = elim (c == b'.') [
  | true ↦ cur ∷ split_dots s []
  | false ↦ split_dots s (cur ++ c ∷ [])
]

-- strings.TrimPrefix(v, "v")
unfoldable pub trim_v : Str → Str
trim_v [] = []
trim_v (c ∷ s) = if c == b'v' then s else c ∷ s

unfoldable pub parse : Str → SemVer
unfolding parse_numeric_prefix split_dots trim_v
parse v =
    if str_eq v (codes "latest")
    then record { original = v; parts = [] }
    else record { original = v; parts = map parse_numeric_prefix (split_dots (trim_v v) []) }

unfoldable pub normalized : SemVer → Str
normalized v = trim_v v.original

unfoldable pub is_latest : SemVer → Bool
is_latest v = str_eq v.original (codes "latest")

-- parts[i], or 0 past the end
abbrev pub part : List ℕ → ℕ → ℕ
part [] i = 0
part (n ∷ ns) zero = n
part (n ∷ ns) (suc i) = part ns i

-- `for i := 0; i < maxLen; i++`: the first argument is the number of rounds left.
unfoldable pub compare_from : ℕ → ℕ → List ℕ → List ℕ → Sign
compare_from zero i vs os = same
compare_from (suc n) i vs os =
    let rest = compare_from n (suc i) vs os in
    if ltb (part vs i) (part os i)
    then less
    else if ltb (part os i) (part vs i)
    then greater
    else rest

unfoldable pub compare : SemVer → SemVer → Sign
unfolding compare_from is_latest
compare v other =
    if is_latest v && not (is_latest other)
    then greater
    else if not (is_latest v) && is_latest other
    then less
    else if is_latest v && is_latest other
    then same
    else compare_from (max (length other.parts) (length v.parts)) 0 v.parts other.parts

abbrev pub is_less : Sign → Bool
is_less less = true
is_less _ = false

abbrev pub is_greater : Sign → Bool
is_greater greater = true
is_greater _ = false

abbrev pub is_same : Sign → Bool
is_same same = true
is_same _ = false

unfoldable pub less_than : SemVer → SemVer → Bool
less_than v other = is_less (compare v other)

unfoldable pub greater_than : SemVer → SemVer → Bool
greater_than v other = is_greater (compare v other)

unfoldable pub equal : SemVer → SemVer → Bool
equal v other = is_same (compare v other)
