-- ===== src/Deployer/Paths/Samples.antt =====
-- Paths and states on which the theorems on the paths and the store of internal/deployer are applied.
use workspaced.Prelude.{
  ℕ, zero, suc, ap, ◌∙◌, Option, List, true, trim_by, space_size, space_size_back, arith, refl, ◌≡◌,
  ◌≢◌, [], ◌∷◌, Str, codes, none, some, trim_space, is_space, trim_left, trim_right, subst,
  str_eq_iff,
}
use workspaced.Prelude.GoMap
use workspaced.FilePath.{join_slash}
use workspaced.FilePath.Clean.{IsElement}
use workspaced.Env.{Env}
use workspaced.Deployer.Types.{ManagedInfo, no_info, State}
use workspaced.Deployer.Store.{load, save}
use workspaced.Deployer.Store.Texts.{KeepsTexts}
use workspaced.Deployer.Store.RoundTrip.{load-save, IsBelow}
use workspaced.Taskgroup.Utf8.{is_text}
use workspaced.Deployer.Paths.{abs_from_root, rel_to_root}
use workspaced.Deployer.Paths.RoundTrip.{abs_from_root-rel_to_root, IsPlain, IsTrimmed}

h-IsElement : IsElement (codes "h")
h-IsElement = record {
  not_empty = ground arith;
  not_dot = ground arith;
  not_dot_dot = ground arith;
  no_slash = ground arith;
}

rc-IsElement : IsElement (codes "rc")
rc-IsElement = record {
  not_empty = ground arith;
  not_dot = ground arith;
  not_dot_dot = ground arith;
  no_slash = ground arith;
}

abbrev env : Env
env = record { home = some (codes "/h"); var = λ name. [] }

root-IsTrimmed : IsTrimmed (codes "/h")
unfolding trim_space is_space trim_left trim_right trim_by space_size space_size_back
root-IsTrimmed = refl

path-IsTrimmed : IsTrimmed (codes "/h/rc")
unfolding trim_space is_space trim_left trim_right trim_by space_size space_size_back
path-IsTrimmed = refl

rc-IsPlain : IsPlain (codes "rc")
unfolding trim_space is_space trim_left trim_right trim_by space_size space_size_back
rc-IsPlain = record { trimmed = refl; no_tilde = ground arith; no_dollar = ground arith }

abs_from_root-rel_to_root_example :
    (rel_to_root (codes "/h/rc") (codes "/h") ≡ codes "rc")
    × (abs_from_root env (rel_to_root (codes "/h/rc") (codes "/h")) (codes "/h") ≡ codes "/h/rc")
unfolding join_slash
abs_from_root-rel_to_root_example =
    abs_from_root-rel_to_root env (codes "h" ∷ []) (codes "rc") [] (h-IsElement, tt)
      (rc-IsElement, tt) root-IsTrimmed path-IsTrimmed rc-IsPlain

abbrev one_file : State
one_file = (codes "/h/rc", no_info) ∷ []

rc-IsBelow : IsBelow (codes "h" ∷ []) (codes "/h/rc")
unfolding join_slash is_text
rc-IsBelow = record {
  first = codes "rc";
  rest = [];
  elements = (rc-IsElement, tt);
  spelled = refl;
  trimmed = path-IsTrimmed;
  plain = rc-IsPlain;
  text = refl;
}

one_file-IsBelow : (k : Str) → GoMap.get one_file k ≢ none → IsBelow (codes "h" ∷ []) k
unfolding GoMap.get
one_file-IsBelow k h =
    subst (IsBelow (codes "h" ∷ [])) {x = codes "/h/rc"} {y = k}
      (ground (arith, str_eq_iff (codes "/h/rc") k)) rc-IsBelow

-- A stand-in for JSON: each byte of a text behind a 1, and a 0 at its end.
quote : Str → Str → Str
quote [] after = 0 ∷ after
quote (c ∷ s) after = 1 ∷ c ∷ quote s after

marshal : State → Str
unfolding quote
marshal [] = []
marshal ((k, info) ∷ m) = quote k (quote info.source_info (marshal m))

push : ℕ → List Str → List Str
push c [] = []
push c (s ∷ texts) = (c ∷ s) ∷ texts

unquote : Str → List Str
unfolding push
unquote [] = []
unquote (zero ∷ t) = [] ∷ unquote t
unquote (suc n ∷ []) = []
unquote (suc n ∷ c ∷ t) = push c (unquote t)

entries : List Str → State
entries [] = []
entries (k ∷ []) = []
entries (k ∷ i ∷ texts) = (k, record { source_info = i }) ∷ entries texts

unmarshal : Str → Option (Option State)
unfolding unquote entries
unmarshal text = some (some (entries (unquote text)))

unquote-quote : (s after : Str) → unquote (quote s after) ≡ s ∷ unquote after
unfolding unquote quote
unquote-quote [] after = refl
unquote-quote (c ∷ s) after = ap (push c) (unquote-quote s after)

entries-marshal : (m : State) → entries (unquote (marshal m)) ≡ m
unfolding entries marshal
entries-marshal [] = unfold unquote in refl
entries-marshal ((k, info) ∷ m) =
    ap entries (
      unquote-quote k (quote info.source_info (marshal m))
      ∙ ap (λ ts. k ∷ ts) (unquote-quote info.source_info (marshal m)))
    ∙ ap (λ n. (k, info) ∷ n) (entries-marshal m)

kept_texts : KeepsTexts marshal unmarshal
unfolding unmarshal
kept_texts m texts distinct =
    (m, ap (λ n. some (some n)) (entries-marshal m), λ x. (λ h. h, λ h. h))

one_info :
    (k : Str) (info : ManagedInfo)
    → GoMap.get one_file k ≡ some info
    → is_text info.source_info ≡ true
unfolding GoMap.get is_text
one_info k info h = ground (arith, h)

load-save_example :
    (after : State) × (load unmarshal env (codes "/h") (some (save marshal (codes "/h") one_file))
      ≡ some after)
    × ((path : Str) → GoMap.get after path ≡ GoMap.get one_file path)
unfolding join_slash
load-save_example =
    load-save marshal unmarshal env (codes "h" ∷ []) one_file kept_texts (h-IsElement, tt)
      root-IsTrimmed one_file-IsBelow one_info
