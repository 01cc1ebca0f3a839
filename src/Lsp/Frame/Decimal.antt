-- ===== src/Lsp/Frame/Decimal.antt =====
-- internal/lsp/jsonrpc.go: the decimal digits of a length, and their value.
use workspaced.Prelude.{
  arith, ℕ, zero, suc, ◌+◌, ◌*◌, ◌-◌, ◌/◌, ◌%◌, ◌≤◌, ◌<◌, ◌≡◌, ◌≢◌, refl, ap, ◌∙◌, some, [], ◌∷◌,
  ◌++◌, ltb, Str, str_eq, str_eq_refl, All, All-append, Bool-cases, inl, inr,
}
use workspaced.Semver
use workspaced.Semver.{max_int, digits_value, digit_prefix}
use workspaced.Taskgroup.LineFilter.{atoi_digits}
use workspaced.Lsp.Frame.{decimal_from, decimal, atoi, size}

abbrev pub IsDigit : ℕ → Type 0
IsDigit c = (48 ≤ c) × (c ≤ 57)

digits_value-append :
    (m : ℕ) (s : Str) (c : ℕ) → digits_value m (s ++ c ∷ []) ≡ digits_value m s * 10 + (c - 48)
digits_value-append m [] c = refl
digits_value-append m (d ∷ s) c = digits_value-append (m * 10 + (d - 48)) s c

decimal_from-IsDigit : (k n : ℕ) → All IsDigit (decimal_from k n)
unfolding decimal_from
decimal_from-IsDigit zero n = tt
decimal_from-IsDigit (suc k) n = elim (Bool-cases (ltb n 10)) [
  | inl e ↦ rw (e) ((omega arith, ground (arith, e)), tt)
  | inr e ↦
      rw (e)
        (All-append IsDigit _ _ (decimal_from-IsDigit k (n / 10)) ((omega arith, omega arith), tt))
]

decimal_from-value : (k n : ℕ) → n < k → digits_value 0 (decimal_from k n) ≡ n
unfolding decimal_from
decimal_from-value zero n h = omega (arith, h)
decimal_from-value (suc k) n h = elim (Bool-cases (ltb n 10)) [
  | inl e ↦ rw (e) (omega arith)
  | inr e ↦
      let big : 10 ≤ n = ground (arith, e) in
      let ih : digits_value 0 (decimal_from k (n / 10)) ≡ n / 10 =
        decimal_from-value k (n / 10) (omega (arith, h, big)) in
      rw (e, digits_value-append 0 (decimal_from k (n / 10)) (n % 10 + 48), ih) (omega arith)
]

pub decimal-IsDigit : (n : ℕ) → All IsDigit (decimal n)
unfolding decimal
decimal-IsDigit n = decimal_from-IsDigit (suc n) n

append-ne-nil : (s : Str) (c : ℕ) → s ++ c ∷ [] ≢ []
append-ne-nil [] c e = cc
append-ne-nil (d ∷ s) c e = cc

decimal_from-ne-nil : (k n : ℕ) → decimal_from (suc k) n ≢ []
unfolding decimal_from
decimal_from-ne-nil k n = elim (Bool-cases (ltb n 10)) [
  | inl e ↦ rw (e) (λ z. cc)
  | inr e ↦ rw (e) (append-ne-nil (decimal_from k (n / 10)) (n % 10 + 48))
]

pub decimal-ne-nil : (n : ℕ) → decimal n ≢ []
unfolding decimal
decimal-ne-nil n = decimal_from-ne-nil n n

digit_prefix-digits : (s : Str) → All IsDigit s → digit_prefix s ≡ s
unfolding digit_prefix
digit_prefix-digits [] h = refl
digit_prefix-digits (c ∷ s) (hc, h) = ground (arith, hc, digit_prefix-digits s h)

atoi_digits-digits :
    (c : ℕ) (s : Str)
    → All IsDigit (c ∷ s)
    → digits_value 0 (c ∷ s) ≤ max_int
    → atoi_digits (c ∷ s) ≡ some (digits_value 0 (c ∷ s))
unfolding atoi_digits Semver.atoi str_eq
atoi_digits-digits c s h fits =
    rw (digit_prefix-digits (c ∷ s) h, str_eq_refl (c ∷ s)) (ground (arith, fits))

atoi-digits :
    (s : Str)
    → All IsDigit s
    → s ≢ []
    → digits_value 0 s ≤ max_int
    → atoi s ≡ size (digits_value 0 s)
unfolding atoi
atoi-digits [] h ne fits = absurd (ne refl)
atoi-digits (c ∷ s) (hc, h) ne fits = ground (arith, hc, atoi_digits-digits c s (hc, h) fits)

pub atoi-decimal : (n : ℕ) → n ≤ max_int → atoi (decimal n) ≡ size n
unfolding decimal
atoi-decimal n fits =
    let value : digits_value 0 (decimal n) ≡ n = decimal_from-value (suc n) n (omega arith) in
    atoi-digits (decimal n) (decimal-IsDigit n) (decimal-ne-nil n) (omega (arith, value, fits))
    ∙ ap size value
