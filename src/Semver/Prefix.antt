-- ===== src/Semver/Prefix.antt =====
-- What Parse reads of a version: the leading digits of each dotted part, within an int.
use workspaced.Prelude.{
  ℕ, ◌≤◌, ◌≡◌, refl, false, List, [], ◌∷◌, ◌++◌, arith, Bool-cases, inl, inr, Str, codes, Lacks,
  All, map, str_eq, str_eq_iff, append_assoc, append-nil,
}
use workspaced.Semver.{
  parse, parse_numeric_prefix, digit_prefix, atoi, split_dots, trim_v, max_int, or_zero,
  digits_value,
}

atoi-le-max_int : (s : Str) → or_zero (atoi s) ≤ max_int
unfolding atoi
atoi-le-max_int s = ground arith

numeric_prefix-le-max_int : (s : Str) → parse_numeric_prefix s ≤ max_int
unfolding parse_numeric_prefix
numeric_prefix-le-max_int s = ground (arith, atoi-le-max_int (digit_prefix s))

map-le-max_int : (ps : List Str) → All (λ n. n ≤ max_int) (map parse_numeric_prefix ps)
map-le-max_int [] = tt
map-le-max_int (p ∷ ps) = (numeric_prefix-le-max_int p, map-le-max_int ps)

-- Whatever the text, each part of a parsed version fits an int: longer runs of digits read as 0.
pub parse-parts-le-max_int : (s : Str) → All (λ n. n ≤ max_int) (parse s).parts
unfolding parse
parse-parts-le-max_int s = elim (Bool-cases (str_eq s (codes "latest"))) [
  | inl h ↦ rw h tt
  | inr h ↦ rw h (map-le-max_int (split_dots (trim_v s) []))
]

abbrev pub IsDigit : ℕ → Type 0
IsDigit c = (b'0' ≤ c) × (c ≤ b'9')

-- What may follow the digits of a part: nothing, or a byte that is no digit.
abbrev pub Stops : Str → Type 0
Stops [] = Unit
Stops (c ∷ s) = ¬ IsDigit c

digit_prefix-append : (d s : Str) → All IsDigit d → Stops s → digit_prefix (d ++ s) ≡ d
unfolding digit_prefix
digit_prefix-append [] [] h k = refl
digit_prefix-append [] (c ∷ s) h k = ground arith
digit_prefix-append (c ∷ d) s (hc, h) k = ground (arith, digit_prefix-append d s h k)

-- The decimal number that the digits spell.
abbrev pub number : Str → ℕ
number = digits_value 0

numeric_prefix-append :
    (d s : Str)
    → All IsDigit d
    → Stops s
    → number d ≤ max_int
    → parse_numeric_prefix (d ++ s) ≡ number d
unfolding parse_numeric_prefix str_eq
numeric_prefix-append [] s h k fits = rw (digit_prefix-append [] s h k)
numeric_prefix-append (c ∷ d) s h k fits =
    ground (arith, digit_prefix-append (c ∷ d) s h k, str_eq_iff (c ∷ d) [])

split_dots_last : (p cur : Str) → Lacks b'.' p → split_dots p cur ≡ (cur ++ p) ∷ []
unfolding split_dots
split_dots_last [] cur h = rw append-nil
split_dots_last (c ∷ p) cur (hc, h) =
    ground (arith, split_dots_last p (cur ++ c ∷ []) h, append_assoc cur (c ∷ []) p)

split_dots_part :
    (p rest cur : Str)
    → Lacks b'.' p
    → split_dots (p ++ b'.' ∷ rest) cur ≡ (cur ++ p) ∷ split_dots rest []
unfolding split_dots
split_dots_part [] rest cur h = ground (arith, append-nil cur)
split_dots_part (c ∷ p) rest cur (hc, h) =
    ground (arith, split_dots_part p rest (cur ++ c ∷ []) h, append_assoc cur (c ∷ []) p)

-- The parts of a version with dots between them.
abbrev pub dotted : Str → List Str → Str
dotted p [] = p
dotted p (q ∷ qs) = p ++ b'.' ∷ dotted q qs

split_dots-dotted :
    (p : Str) (ps : List Str)
    → Lacks b'.' p
    → All (Lacks b'.') ps
    → split_dots (dotted p ps) [] ≡ p ∷ ps
split_dots-dotted p [] h k = split_dots_last p [] h
split_dots-dotted p (q ∷ qs) h (kq, k) =
    rw (split_dots_part p (dotted q qs) [] h, split_dots-dotted q qs kq k)

-- A part as it is written: digits, and behind them a tail such as `-beta1`.
pub record Part : Type 0 where
  pub digits : Str
  pub tail : Str

abbrev pub written : Part → Str
written p = p.digits ++ p.tail

pub record IsPart (p : Part) : Type 0 where
  pub all_digits : All IsDigit p.digits
  pub stops : Stops p.tail
  pub fits : number p.digits ≤ max_int
  pub no_dot : Lacks b'.' (written p)

map-written :
    (ps : List Part)
    → All IsPart ps
    → map parse_numeric_prefix (map written ps) ≡ map (λ p. number p.digits) ps
map-written [] h = refl
map-written (p ∷ ps) (hp, h) =
    rw (numeric_prefix-append p.digits p.tail hp.all_digits hp.stops hp.fits, map-written ps h)

All-no_dot : (ps : List Part) → All IsPart ps → All (Lacks b'.') (map written ps)
All-no_dot [] h = tt
All-no_dot (p ∷ ps) (hp, h) = (hp.no_dot, All-no_dot ps h)

v-ne-latest : (s : Str) → str_eq (b'v' ∷ s) (codes "latest") ≡ false
unfolding str_eq
v-ne-latest s = refl

-- A version `v<p0>.<p1>...` whose parts are digits with an optional tail is parsed to the numbers
-- that the digits spell, one for each part, as long as each fits an int.
pub parse-dotted :
    (p : Part) (ps : List Part)
    → IsPart p
    → All IsPart ps
    → (parse (b'v' ∷ dotted (written p) (map written ps))).parts
      ≡ map (λ q. number q.digits) (p ∷ ps)
unfolding parse
parse-dotted p ps hp h =
    rw (v-ne-latest _, split_dots-dotted (written p) (map written ps) hp.no_dot (All-no_dot ps h))
      (map-written (p ∷ ps) (hp, h))
