-- ===== src/Prelude/Text.antt =====
-- Go strings as lists of bytes: equality, order, and the functions of `strings` that the code calls.
use Prim.Native.Nat.{ℕ, zero, suc}
use Prim.Native.Char.{code}
use Prim.Native.String.{String}
use mathlib.Core.Path.{◌≡◌, refl, ap}
use mathlib.Core.Logic.{◌↔◌, ◌≢◌, inl, inr}
use mathlib.Core.Bool.{Bool, true, false, ◌&&◌, ◌||◌}
use mathlib.Core.List.{List, [], ◌∷◌, ◌++◌, reverse}
use native.Mathlib.Omega.{arith}
use workspaced.Prelude.Tests.{Bool-cases, ltb, leb, ◌==◌, if◌then◌else◌}
use workspaced.Prelude.Lists.{All}

abbrev pub Str : Type 0
Str = List ℕ

-- The bytes of an ASCII literal.
abbrev pub codes : String → Str
codes String.[] = []
codes (String.◌∷◌ c s) = code c ∷ codes s

-- s == t
unfoldable pub str_eq : Str → Str → Bool
str_eq [] [] = true
str_eq [] (d ∷ t) = false
str_eq (c ∷ s) [] = false
str_eq (c ∷ s) (d ∷ t) = (c == d) && str_eq s t

pub str_eq_iff : (s t : Str) → (str_eq s t ≡ true) ↔ (s ≡ t)
unfolding str_eq
str_eq_iff [] [] = ground arith
str_eq_iff [] (d ∷ t) = ground arith
str_eq_iff (c ∷ s) [] = ground arith
str_eq_iff (c ∷ s) (d ∷ t) = ground (arith, str_eq_iff s t)

pub str_eq_refl : (s : Str) → str_eq s s ≡ true
str_eq_refl s = (str_eq_iff s s).1 refl

pub str_eq_ne : (s t : Str) → s ≢ t → str_eq s t ≡ false
str_eq_ne s t h = ground (arith, str_eq_iff s t)

-- s < t, bytewise
unfoldable pub str_lt : Str → Str → Bool
str_lt [] [] = false
str_lt [] (d ∷ t) = true
str_lt (c ∷ s) [] = false
str_lt (c ∷ s) (d ∷ t) =
    let rest = str_lt s t in if ltb c d then true else if ltb d c then false else rest

pub str_lt_irrefl : (s : Str) → str_lt s s ≡ false
unfolding str_lt
str_lt_irrefl [] = refl
str_lt_irrefl (c ∷ s) = ground (arith, str_lt_irrefl s)

pub str_lt_asym : (s t : Str) → str_lt s t ≡ true → str_lt t s ≡ false
unfolding str_lt
str_lt_asym [] [] h = refl
str_lt_asym [] (d ∷ t) h = refl
str_lt_asym (c ∷ s) [] h = cc
str_lt_asym (c ∷ s) (d ∷ t) h = ground (arith, str_lt_asym s t)

pub str_lt_trans : (s t u : Str) → str_lt s t ≡ true → str_lt t u ≡ true → str_lt s u ≡ true
unfolding str_lt
str_lt_trans s [] u h k =
    elim s as (λ s. str_lt s [] ≡ true → str_lt s u ≡ true) [ [] ↦ λ h. cc | c ∷ s ↦ λ h. cc ] h
str_lt_trans s (d ∷ t) [] h k = cc
str_lt_trans [] (d ∷ t) (e ∷ u) h k = refl
str_lt_trans (c ∷ s) (d ∷ t) (e ∷ u) h k = ground (arith, str_lt_trans s t u)

-- Neither is less than the other only if they are equal.
pub str_lt_total : (s t : Str) → str_lt s t ≡ false → str_lt t s ≡ false → s ≡ t
unfolding str_lt
str_lt_total [] [] h k = refl
str_lt_total [] (d ∷ t) h k = cc
str_lt_total (c ∷ s) [] h k = cc
str_lt_total (c ∷ s) (d ∷ t) h k = ground (arith, str_lt_total s t)

-- Not being less is transitive for texts.
pub not-str_lt_trans : (s t u : Str) → str_lt t s ≡ false → str_lt u t ≡ false → str_lt u s ≡ false
not-str_lt_trans s t u h k = elim (Bool-cases (str_lt u s)) [
  | inr e ↦ e
  | inl e ↦ elim (Bool-cases (str_lt s t)) [
    | inl f ↦ absurd (ground (arith, str_lt_trans u s t e f))
    | inr f ↦ absurd (ground (arith, ap (λ x. str_lt u x) (str_lt_total s t f h)))
  ]
]

-- strings.HasPrefix(s, p)
unfoldable pub has_prefix : Str → Str → Bool
has_prefix s [] = true
has_prefix [] (p ∷ ps) = false
has_prefix (c ∷ s) (p ∷ ps) = (c == p) && has_prefix s ps

-- strings.Cut at one byte: the part before it, the part after it, and whether it was found.
unfoldable pub cut : ℕ → Str → Str × Str × Bool
cut sep [] = ([], [], false)
cut sep (c ∷ s) =
    let (before, after, found) = cut sep s in
    if c == sep then ([], s, true) else (c ∷ before, after, found)

abbrev pub Lacks : ℕ → Str → Type 0
Lacks b = All (λ c. c ≢ b)

pub cut_at : (sep : ℕ) (s t : Str) → Lacks sep s → cut sep (s ++ sep ∷ t) ≡ (s, t, true)
unfolding cut
cut_at sep [] t h = ground arith
cut_at sep (c ∷ s) t (hc, hs) = ground (arith, cut_at sep s t hs)

pub cut_absent : (sep : ℕ) (s : Str) → Lacks sep s → cut sep s ≡ (s, [], false)
unfolding cut
cut_absent sep [] h = refl
cut_absent sep (c ∷ s) (hc, hs) = ground (arith, cut_absent sep s hs)

-- unicode.IsSpace of an ASCII byte
unfoldable pub is_space : ℕ → Bool
is_space c = (c == 32) || (leb 9 c && leb c 13)

-- The bytes of U+0085 and U+00A0.
abbrev is_space_two : ℕ → ℕ → Bool
is_space_two c d = (c == 0xc2) && ((d == 0x85) || (d == 0xa0))

-- The bytes of U+1680, of U+2000 to U+200A, U+2028, U+2029 and U+202F, of U+205F and of U+3000.
abbrev is_space_three : ℕ → ℕ → ℕ → Bool
is_space_three c d e =
    (c == 0xe1) && (d == 0x9a) && (e == 0x80)
    || (c == 0xe2)
      && (d == 0x80)
      && (leb 0x80 e && leb e 0x8a || (e == 0xa8) || (e == 0xa9) || (e == 0xaf))
    || (c == 0xe2) && (d == 0x81) && (e == 0x9f)
    || (c == 0xe3) && (d == 0x80) && (e == 0x80)

-- How many bytes the white space at the front takes; 0 if there is none.
unfoldable pub space_size : Str → ℕ
unfolding is_space
space_size [] = 0
space_size (c ∷ []) = if is_space c then 1 else 0
space_size (c ∷ d ∷ []) = if is_space c then 1 else if is_space_two c d then 2 else 0
space_size (c ∷ d ∷ e ∷ s) =
    if is_space c then 1 else if is_space_two c d then 2 else if is_space_three c d e then 3 else 0

-- The same for the white space at the end of a text whose bytes come in the reverse order.
unfoldable pub space_size_back : Str → ℕ
unfolding is_space
space_size_back [] = 0
space_size_back (c ∷ []) = if is_space c then 1 else 0
space_size_back (d ∷ c ∷ []) = if is_space d then 1 else if is_space_two c d then 2 else 0
space_size_back (e ∷ d ∷ c ∷ s) =
    if is_space e then 1 else if is_space_two d e then 2 else if is_space_three c d e then 3 else 0

-- Drops white space as long as there is some, by its `size`; first the bytes that are left of one.
unfoldable pub trim_by : (Str → ℕ) → ℕ → Str → Str
trim_by size k [] = []
trim_by size zero (c ∷ s) = elim (size (c ∷ s)) [ zero ↦ c ∷ s | suc k ↦ trim_by size k s ]
trim_by size (suc k) (c ∷ s) = trim_by size k s

unfoldable pub trim_left : Str → Str
unfolding trim_by space_size
trim_left s = trim_by space_size 0 s

unfoldable pub trim_right : Str → Str
unfolding trim_by space_size_back
trim_right s = reverse (trim_by space_size_back 0 (reverse s))

-- strings.TrimSpace
unfoldable pub trim_space : Str → Str
unfolding trim_left trim_right
trim_space s = trim_left (trim_right s)
