-- ===== src/Spec/RoundTrip.antt =====
-- Parsing and rendering of references.
use workspaced.Prelude.{
  ℕ, false, some, [], ◌∷◌, ◌++◌, Str, codes, str_eq, cut, cut_at, Lacks, ◌≡◌, ◌≢◌, refl, arith,
  subst, cut_absent, Bool-cases, inl, inr,
}
use workspaced.Spec.{Spec, render, parse, parse_rest, to_dir, replace_byte, default_provider}

-- What Parse returns: no colon in the provider, and no at sign in the package.
pub record IsCanonical (s : Spec) : Type 0 where
  pub provider : Lacks b':' s.provider
  pub pkg : Lacks b'@' s.pkg

str_eq-append_cons : (s t : Str) (c : ℕ) → str_eq (s ++ c ∷ t) [] ≡ false
unfolding str_eq
str_eq-append_cons [] t c = refl
str_eq-append_cons (d ∷ s) t c = refl

-- Parsing the rendering of a spec returns it, if its provider has no colon and its package no at
-- sign; the package may hold colons and the version both.
pub parse-render : (s : Spec) → IsCanonical s → parse (render s) ≡ some s
unfolding parse render parse_rest
parse-render s h = rw (
  str_eq-append_cons s.provider (s.pkg ++ (b'@' ∷ s.version)) b':',
  cut_at b':' s.provider (s.pkg ++ (b'@' ∷ s.version)) h.provider,
  cut_at b'@' s.pkg s.version h.pkg,
)

cut-Lacks : (sep : ℕ) (s : Str) → Lacks sep (cut sep s).0
unfolding cut
cut-Lacks sep [] = tt
cut-Lacks sep (c ∷ s) = ground (arith, cut-Lacks sep s)

parse_rest-IsCanonical : (p rest : Str) → Lacks b':' p → IsCanonical (parse_rest p rest)
unfolding parse_rest
parse_rest-IsCanonical p rest h = record { provider = h; pkg = cut-Lacks b'@' rest }

-- Every parsed spec is canonical.
pub parse-IsCanonical : (input : Str) (s : Spec) → parse input ≡ some s → IsCanonical s
unfolding parse
parse-IsCanonical input s h = elim (Bool-cases (str_eq input [])) [
  | inl e ↦ ground arith
  | inr e ↦ elim (Bool-cases (cut b':' input).2) [
    | inl f ↦
        subst IsCanonical (ground arith)
          (parse_rest-IsCanonical (cut b':' input).0 (cut b':' input).1 (cut-Lacks b':' input))
    | inr f ↦
        subst IsCanonical (ground arith)
          (parse_rest-IsCanonical default_provider input (omega arith))
  ]
]

-- Rendering what was parsed gives a canonical form: it parses to the same spec.
pub render-parse : (input : Str) (s : Spec) → parse input ≡ some s → parse (render s) ≡ some s
render-parse input s h = parse-render s (parse-IsCanonical input s h)

-- A bare name, with neither a colon nor an at sign, is the registry's package at its latest version.
pub parse_bare :
    (c : ℕ) (name : Str)
    → Lacks b':' (c ∷ name)
    → Lacks b'@' (c ∷ name)
    → parse (c ∷ name)
      ≡ some (record { provider = codes "registry"; pkg = c ∷ name; version = codes "latest" })
unfolding parse parse_rest str_eq
parse_bare c name h k = rw (cut_absent b':' (c ∷ name) h, cut_absent b'@' (c ∷ name) k)

replace_byte-Lacks : (from to : ℕ) (s : Str) → to ≢ from → Lacks from (replace_byte from to s)
unfolding replace_byte
replace_byte-Lacks from to [] h = tt
replace_byte-Lacks from to (c ∷ s) h = ground (arith, replace_byte-Lacks from to s h)

replace_byte-keeps :
    (b from to : ℕ) (s : Str) → to ≢ b → Lacks b s → Lacks b (replace_byte from to s)
unfolding replace_byte
replace_byte-keeps b from to [] h k = tt
replace_byte-keeps b from to (c ∷ s) h (kc, k) = ground (arith, replace_byte-keeps b from to s h k)

-- A directory key holds neither a slash nor a colon, whatever the provider and the package are.
pub to_dir_safe : (p s : Str) → Lacks b'/' (to_dir p s) × Lacks b':' (to_dir p s)
unfolding to_dir
to_dir_safe p s = (
  replace_byte-keeps b'/' b':' b'-' _ (omega arith) (replace_byte-Lacks b'/' b'-' _ (omega arith)),
  replace_byte-Lacks b':' b'-' _ (omega arith),
)
