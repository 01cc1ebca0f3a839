-- ===== src/Env/Plain.antt =====
-- Texts that expansion leaves alone, and what becomes of a dollar sign.
use workspaced.Prelude.{
  ℕ, zero, true, false, [], ◌∷◌, ◌++◌, Str, has_prefix, Lacks, All, arith, ◌≡◌, ◌≢◌, refl, length,
  append-nil, ◌∙◌, str_eq_ne,
}
use workspaced.Env.{
  Env, expand, expand_env, expand_path, expand_path_in, shell_name, alpha_prefix, is_alpha_num,
  is_special_var,
}

pub expand-plain : (var : Str → Str) (s : Str) → Lacks b'$' s → expand var zero s ≡ s
unfolding expand
expand-plain var [] h = refl
expand-plain var (c ∷ s) (hc, h) = ground (arith, expand-plain var s h)

-- A text that does not begin with a tilde.
abbrev pub NoTilde : Str → Type 0
NoTilde [] = Unit
NoTilde (c ∷ s) = c ≢ b'~'

prefix_tilde : (s : Str) → NoTilde s → has_prefix s (b'~' ∷ []) ≡ false
unfolding has_prefix
prefix_tilde [] h = refl
prefix_tilde (c ∷ s) h = ground arith

pub expand_path-env : (e : Env) (s : Str) → NoTilde s → expand_path e s ≡ expand_env e s
unfolding expand_path expand_path_in
expand_path-env e s h = ground (arith, prefix_tilde s h)

-- A path without a dollar sign that does not begin with a tilde is its own expansion.
pub expand_path-plain : (e : Env) (s : Str) → NoTilde s → Lacks b'$' s → expand_path e s ≡ s
expand_path-plain e s h k = expand_path-env e s h ∙ unfold expand_env in expand-plain e.var s k

abbrev pub IsName : Str → Type 0
IsName n = (n ≢ []) × All (λ c. is_alpha_num c ≡ true) n

alpha_prefix_all : (n : Str) → All (λ c. is_alpha_num c ≡ true) n → alpha_prefix n ≡ (n, length n)
unfolding alpha_prefix
alpha_prefix_all [] h = refl
alpha_prefix_all (c ∷ n) (hc, h) = ground (arith, alpha_prefix_all n h)

expand_skip : (var : Str → Str) (n : Str) → expand var (length n) n ≡ []
unfolding expand
expand_skip var [] = refl
expand_skip var (c ∷ n) = expand_skip var n

-- A variable's name behind a dollar sign: letters, digits and underscores, and no digit at its head.
pub record IsVariable (c : ℕ) (n : Str) : Type 0 where
  pub alpha : All (λ b. is_alpha_num b ≡ true) (c ∷ n)
  pub named : is_special_var c ≡ false

brace-not-alpha : is_alpha_num b'{' ≡ false
unfolding is_alpha_num
brace-not-alpha = refl

shell_name_variable :
    (c : ℕ) (n : Str) → IsVariable c n → shell_name (c ∷ n) ≡ (c ∷ n, length (c ∷ n))
unfolding shell_name
shell_name_variable c n h =
    rw h.named (ground (arith, h.alpha.0, brace-not-alpha, alpha_prefix_all (c ∷ n) h.alpha))

-- A dollar sign and a name at the end of a path become the variable's value.
pub expand_dollar :
    (var : Str → Str) (d : Str) (c : ℕ) (n : Str)
    → Lacks b'$' d
    → IsVariable c n
    → expand var zero (d ++ b'$' ∷ c ∷ n) ≡ d ++ var (c ∷ n)
unfolding expand
expand_dollar var [] c n h k =
    rw (shell_name_variable c n k, str_eq_ne (c ∷ n) [] (cc), expand_skip var (c ∷ n), append-nil)
expand_dollar var (a ∷ d) c n (ha, h) k = ground (arith, expand_dollar var d c n h k)
