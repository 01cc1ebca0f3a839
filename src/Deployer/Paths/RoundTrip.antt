-- ===== src/Deployer/Paths/RoundTrip.antt =====
-- A path that the state file holds relative to its root is loaded as the path that was saved.
use workspaced.Prelude.{
  false, List, [], ◌∷◌, ◌++◌, Str, str_eq, has_prefix, trim_space, arith, ◌≡◌, refl, Lacks, All,
  All-append, str_eq_ne,
}
use workspaced.FilePath.{slash, dot_dot, is_abs, join_slash}
use workspaced.FilePath.Clean.{
  IsElement, absolute, clean-absolute, join-absolute, rel-below, join_slash-ne-nil,
}
use workspaced.Env.{Env}
use workspaced.Env.Plain.{NoTilde, expand_path-plain}
use workspaced.Deployer.Paths.{rel_to_root, abs_from_root, abs_expanded}

-- No white space at either end.
abbrev pub IsTrimmed : Str → Type 0
IsTrimmed s = trim_space s ≡ s

-- The first element is not `..`, so the path does not lead out.
not_up :
    (q : Str) (qs : List Str)
    → IsElement q
    → has_prefix (join_slash (q ∷ qs)) (b'.' ∷ b'.' ∷ slash ∷ []) ≡ false
unfolding has_prefix join_slash
not_up [] qs h = absurd (h.not_empty refl)
not_up (a ∷ []) [] h = ground arith
not_up (a ∷ []) (r ∷ rs) h = ground arith
not_up (a ∷ b ∷ []) [] h = ground arith
not_up (a ∷ b ∷ []) (r ∷ rs) h = ground (arith, h.not_dot_dot)
not_up (a ∷ b ∷ c ∷ q) [] h = ground (arith, h.no_slash.1.1.0)
not_up (a ∷ b ∷ c ∷ q) (r ∷ rs) h = ground (arith, h.no_slash.1.1.0)

not_dots : (q : Str) (qs : List Str) → IsElement q → str_eq (join_slash (q ∷ qs)) dot_dot ≡ false
unfolding join_slash
not_dots q [] h = str_eq_ne q dot_dot h.not_dot_dot
not_dots [] (r ∷ rs) h = absurd (h.not_empty refl)
not_dots (a ∷ []) (r ∷ rs) h = unfold str_eq in ground arith
not_dots (a ∷ b ∷ []) (r ∷ rs) h = unfold str_eq in ground arith
not_dots (a ∷ b ∷ c ∷ q) (r ∷ rs) h = unfold str_eq in ground arith

-- The relative path of one below the root is made of the elements behind the root's.
pub rel_to_root-below :
    (ps : List Str) (q : Str) (qs : List Str)
    → All IsElement ps
    → All IsElement (q ∷ qs)
    → IsTrimmed (absolute ps)
    → IsTrimmed (absolute (ps ++ q ∷ qs))
    → rel_to_root (absolute (ps ++ q ∷ qs)) (absolute ps) ≡ join_slash (q ∷ qs)
unfolding rel_to_root str_eq
rel_to_root-below ps q qs h k left right = rw (
  right,
  left,
  clean-absolute ps h,
  clean-absolute (ps ++ q ∷ qs) (All-append IsElement ps (q ∷ qs) h k),
  rel-below ps q qs h k,
  not_dots q qs k.0,
  not_up q qs k.0,
)

-- A relative path that the state file may hold: its text is trimmed and expansion leaves it alone.
pub record IsPlain (r : Str) : Type 0 where
  pub trimmed : IsTrimmed r
  pub no_tilde : NoTilde r
  pub no_dollar : Lacks b'$' r

not_abs : (q : Str) (qs : List Str) → IsElement q → is_abs (join_slash (q ∷ qs)) ≡ false
unfolding is_abs join_slash
not_abs [] qs h = absurd (h.not_empty refl)
not_abs (a ∷ q) [] h = ground (arith, h.no_slash)
not_abs (a ∷ q) (r ∷ rs) h = ground (arith, h.no_slash)

abs_expanded-below :
    (ps : List Str) (q : Str) (qs : List Str)
    → All IsElement ps
    → All IsElement (q ∷ qs)
    → IsTrimmed (absolute ps)
    → abs_expanded (join_slash (q ∷ qs)) (absolute ps) ≡ absolute (ps ++ q ∷ qs)
unfolding abs_expanded str_eq
abs_expanded-below ps q qs h k trimmed =
    rw (not_abs q qs k.0, trimmed, join-absolute ps q qs h k)
      (clean-absolute (ps ++ q ∷ qs) (All-append IsElement ps (q ∷ qs) h k))

-- A clean path below a clean root is stored as its elements behind the root's, and this is loaded again
-- as the same path, if that relative part has no dollar sign, no leading tilde, and, like the root and
-- the path, no white space at its ends.
pub abs_from_root-rel_to_root :
    (e : Env) (ps : List Str) (q : Str) (qs : List Str)
    → All IsElement ps
    → All IsElement (q ∷ qs)
    → IsTrimmed (absolute ps)
    → IsTrimmed (absolute (ps ++ q ∷ qs))
    → IsPlain (join_slash (q ∷ qs))
    → (rel_to_root (absolute (ps ++ q ∷ qs)) (absolute ps) ≡ join_slash (q ∷ qs))
      × (abs_from_root e (rel_to_root (absolute (ps ++ q ∷ qs)) (absolute ps)) (absolute ps)
          ≡ absolute (ps ++ q ∷ qs))
unfolding abs_from_root
abs_from_root-rel_to_root e ps q qs h k left right plain =
    let stored = rel_to_root-below ps q qs h k left right in
    (
      stored,
      rw
          (
            stored,
            plain.trimmed,
            str_eq_ne (join_slash (q ∷ qs)) [] (join_slash-ne-nil q qs k.0.not_empty),
            expand_path-plain e (join_slash (q ∷ qs)) plain.no_tilde plain.no_dollar,
          )
          (abs_expanded-below ps q qs h k left),
    )
