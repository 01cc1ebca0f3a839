-- ===== src/Spec.antt =====
-- internal/parse/spec/spec.go: references of the form [scheme:]package[@version].
pub mod RoundTrip
mod Samples
use workspaced.Prelude.{
  ℕ, Bool, true, false, Option, none, some, List, [], ◌∷◌, ◌++◌, ◌==◌, if◌then◌else◌, Str, codes,
  str_eq, cut,
}

pub record Spec : Type 0 where
  pub provider : Str
  pub pkg : Str
  pub version : Str

-- strings.ReplaceAll of one byte by another
unfoldable pub replace_byte : ℕ → ℕ → Str → Str
replace_byte from to [] = []
replace_byte from to (c ∷ s) = (if c == from then to else c) ∷ replace_byte from to s

unfoldable pub to_dir : Str → Str → Str
unfolding replace_byte
to_dir provider_id pkg_spec =
    let s = provider_id ++ (b'-' ∷ pkg_spec) in replace_byte b':' b'-' (replace_byte b'/' b'-' s)

unfoldable pub dir : Spec → Str
unfolding to_dir
dir s = to_dir s.provider s.pkg

unfoldable pub render : Spec → Str
render s = s.provider ++ (b':' ∷ (s.pkg ++ (b'@' ∷ s.version)))

abbrev pub default_provider : Str
default_provider = codes "registry"

abbrev pub default_version : Str
default_version = codes "latest"

-- The part of Parse behind the provider.
unfoldable pub parse_rest : Str → Str → Spec
unfolding cut
parse_rest provider_id rest =
    let (before, version_part, ok) = cut b'@' rest in
    record {
      provider = provider_id;
      pkg = before;
      version = if ok then version_part else default_version;
    }

-- `none` is ErrEmptySpec.
unfoldable pub parse : Str → Option Spec
unfolding parse_rest
parse input =
    let (provider_id, rest, ok) = cut b':' input in
    if str_eq input []
    then none
    else if ok
    then some (parse_rest provider_id rest)
    else some (parse_rest default_provider input)
