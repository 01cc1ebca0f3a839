-- ===== src/Lsp/Frame/RoundTrip.antt =====
-- internal/lsp/jsonrpc.go: what WriteMessage writes is what ReadMessage reads.
use mathlib.Core.List.{reverse, reverse-cons, reverse-reverse}
use workspaced.Prelude.{
  arith, ℕ, suc, ◌≤◌, ◌≡◌, ◌≢◌, refl, sym, ap, subst, ◌∙◌, true, Option, none, some, [], ◌∷◌, ◌++◌,
  leb, Str, codes, str_eq, str_eq_ne, length-append, cut, cut_at, Lacks, length, take, drop,
  has_prefix, trim_space, trim_left, trim_right, trim_by, space_size, space_size_back, is_space,
  All, All-append, append_assoc, Bool-cases, inl, inr,
}
use workspaced.Semver.{max_int}
use workspaced.Lsp.Frame.{
  Message, message, Length, size, negative, read_line, read_header, trim_breaks, read_body,
  read_message, decimal, framed, write_message, with_version, atoi,
}
use workspaced.Lsp.Frame.Decimal.{IsDigit, decimal-IsDigit, decimal-ne-nil, atoi-decimal}

trim_breaks-cons : (c : ℕ) (s : Str) → trim_breaks s ≢ [] → trim_breaks (c ∷ s) ≡ c ∷ trim_breaks s
unfolding trim_breaks
trim_breaks-cons c s ne = ground arith

trim_breaks-digits :
    (c : ℕ) (s : Str) → All IsDigit (c ∷ s) → trim_breaks (c ∷ s ++ 13 ∷ []) ≡ c ∷ s
unfolding trim_breaks
trim_breaks-digits c [] (hc, h) = ground (arith, hc)
trim_breaks-digits c (d ∷ s) (hc, h) =
    let ih = trim_breaks-digits d s h in
    trim_breaks-cons c (d ∷ s ++ 13 ∷ []) (λ e. ground (arith, e, ih)) ∙ ap (λ t. c ∷ t) ih

append-ne-nil_right : (p s : Str) → s ≢ [] → p ++ s ≢ []
append-ne-nil_right [] s ne e = ne e
append-ne-nil_right (c ∷ p) s ne e = cc

trim_breaks-append : (p s : Str) → trim_breaks s ≢ [] → trim_breaks (p ++ s) ≡ p ++ trim_breaks s
trim_breaks-append [] s ne = refl
trim_breaks-append (c ∷ p) s ne =
    let ih = trim_breaks-append p s ne in
    trim_breaks-cons c (p ++ s) (λ e. append-ne-nil_right p (trim_breaks s) ne (sym ih ∙ e))
    ∙ ap (λ t. c ∷ t) ih

All-reverse : (P : ℕ → Type 0) (s : Str) → All P s → All P (reverse s)
All-reverse P [] h = tt
All-reverse P (c ∷ s) (hc, h) =
    rw (reverse-cons c s) (All-append P (reverse s) (c ∷ []) (All-reverse P s h) (hc, tt))

digit_front : (c : ℕ) (s : Str) → IsDigit c → space_size (c ∷ s) ≡ 0
unfolding space_size is_space
digit_front c [] h = ground (arith, h)
digit_front c (d ∷ []) h = ground (arith, h)
digit_front c (d ∷ e ∷ s) h = ground (arith, h)

digit_back : (c : ℕ) (s : Str) → IsDigit c → space_size_back (c ∷ s) ≡ 0
unfolding space_size_back is_space
digit_back c [] h = ground (arith, h)
digit_back c (d ∷ []) h = ground (arith, h)
digit_back c (d ∷ e ∷ s) h = ground (arith, h)

digits_back : (s t : Str) → s ≢ [] → All IsDigit s → space_size_back (s ++ t) ≡ 0
digits_back [] t ne h = absurd (ne refl)
digits_back (c ∷ s) t ne (hc, h) = digit_back c (s ++ t) hc

space_front : (s : Str) → space_size (32 ∷ s) ≡ 1
unfolding space_size is_space
space_front [] = refl
space_front (d ∷ []) = refl
space_front (d ∷ e ∷ s) = refl

trim_by-untouched : (bytes : Str → ℕ) (s : Str) → bytes s ≡ 0 → trim_by bytes 0 s ≡ s
unfolding trim_by
trim_by-untouched bytes [] h = refl
trim_by-untouched bytes (c ∷ s) h = rw (h, trim_by) refl

reverse-ne-nil : (s : Str) → s ≢ [] → reverse s ≢ []
reverse-ne-nil s ne e = ne (sym (reverse-reverse s) ∙ ap reverse e)

trim_right-digits : (c : ℕ) (s : Str) → All IsDigit (c ∷ s) → trim_right (32 ∷ c ∷ s) ≡ 32 ∷ c ∷ s
unfolding trim_right
trim_right-digits c s h =
    let same : trim_by space_size_back 0 (reverse (32 ∷ c ∷ s)) ≡ reverse (32 ∷ c ∷ s) =
      trim_by-untouched space_size_back (reverse (32 ∷ c ∷ s)) (
        rw (reverse-cons 32 (c ∷ s)) (
          digits_back (reverse (c ∷ s)) (32 ∷ []) (reverse-ne-nil (c ∷ s) (λ e. ground (arith, e)))
            (All-reverse IsDigit (c ∷ s) h))) in
    ap reverse same ∙ reverse-reverse (32 ∷ c ∷ s)

trim_space-digits : (c : ℕ) (s : Str) → All IsDigit (c ∷ s) → trim_space (32 ∷ c ∷ s) ≡ c ∷ s
unfolding trim_space trim_left trim_by
trim_space-digits c s (hc, h) =
    rw (trim_right-digits c s (hc, h), space_front (c ∷ s), trim_by)
      (trim_by-untouched space_size (c ∷ s) (digit_front c s hc))

-- The bytes before the line break of the header of a message.
abbrev header : Str → Str
header digits = codes "Content-Length: " ++ digits ++ 13 ∷ []

header-Lacks : (digits : Str) → All IsDigit digits → Lacks 10 (header digits)
header-Lacks digits h =
    All-append (λ c. c ≢ 10) (codes "Content-Length: ") (digits ++ 13 ∷ []) (ground arith)
      (All-append (λ c. c ≢ 10) digits (13 ∷ []) (digits-Lacks digits h) (ground arith))
  where
    digits-Lacks : (digits : Str) → All IsDigit digits → Lacks 10 digits
    digits-Lacks [] h = tt
    digits-Lacks (c ∷ s) (hc, h) = (ground (arith, hc), digits-Lacks s h)

trimmed :
    (c : ℕ) (s : Str)
    → All IsDigit (c ∷ s)
    → trim_breaks (header (c ∷ s)) ≡ codes "Content-Length: " ++ c ∷ s
trimmed c s h =
    let e = trim_breaks-digits c s h in
    trim_breaks-append (codes "Content-Length: ") (c ∷ s ++ 13 ∷ []) (λ z. ground (arith, z, e))
    ∙ ap (λ t. codes "Content-Length: " ++ t) e

read_line-digits :
    (c : ℕ) (s : Str) (old : Length)
    → All IsDigit (c ∷ s)
    → read_line (codes "Content-Length: " ++ c ∷ s) old ≡ atoi (c ∷ s)
unfolding read_line has_prefix
read_line-digits c s old h = ap atoi (trim_space-digits c s h)

read_header-line :
    (k : ℕ) (before after line : Str) (old : Length) (n : ℕ)
    → Lacks 10 before
    → trim_breaks before ≡ line
    → line ≢ []
    → read_line line old ≡ size n
    → read_header (suc k) (before ++ 10 ∷ after) old ≡ read_header k after (size n)
unfolding read_header
read_header-line k before after line old n lacks trim ne value =
    rw (cut_at 10 before after lacks, trim, value, str_eq_ne line [] ne)
      (rw (cut_at 10 before after lacks) (rw (trim) (rw (value) refl)))

read_header-end :
    (k : ℕ) (after : Str) (old : Length)
    → read_header (suc k) (13 ∷ 10 ∷ after) old ≡ message old after
unfolding read_header cut trim_breaks str_eq
read_header-end k after old = ground arith

-- The header of a message, and what stands behind it.
read_header-framed :
    (k c : ℕ) (s after : Str) (old : Length) (n : ℕ)
    → All IsDigit (c ∷ s)
    → atoi (c ∷ s) ≡ size n
    → read_header (suc (suc k)) (header (c ∷ s) ++ 10 ∷ 13 ∷ 10 ∷ after) old
      ≡ message (size n) after
read_header-framed k c s after old n h value =
    read_header-line (suc k) (header (c ∷ s)) (13 ∷ 10 ∷ after) (codes "Content-Length: " ++ c ∷ s)
      old n (header-Lacks (c ∷ s) h) (trimmed c s h) (λ e. cc) (read_line-digits c s old h ∙ value)
    ∙ read_header-end k after (size n)

take-append : (s t : Str) → take (length s) (s ++ t) ≡ s
take-append [] t = refl
take-append (c ∷ s) t = ap (λ x. c ∷ x) (take-append s t)

drop-append : (s t : Str) → drop (length s) (s ++ t) ≡ t
drop-append [] t = refl
drop-append (c ∷ s) t = drop-append s t

leb-length : (s t : Str) → leb (length s) (length (s ++ t)) ≡ true
leb-length s t = ground (arith, length-append s t)

-- Behind a header that gives the length of the body.
read_body-framed :
    (parse : Str → Option Message) (m : Message) (body rest : Str)
    → parse body ≡ some m
    → read_body parse (message (size (length body)) (body ++ rest)) ≡ message (with_version m) rest
read_body-framed parse m body rest parsed =
    rw (leb-length body rest, take-append body rest, drop-append body rest, parsed) refl

-- The first line of a frame, and the rest of it.
frame_shape :
    (digits body rest : Str)
    → (codes "Content-Length: " ++ digits ++ 13 ∷ 10 ∷ 13 ∷ 10 ∷ body) ++ rest
      ≡ header digits ++ 10 ∷ 13 ∷ 10 ∷ (body ++ rest)
frame_shape digits body rest =
    ap (λ t. codes "Content-Length: " ++ t)
      (append_assoc digits (13 ∷ 10 ∷ 13 ∷ 10 ∷ body) rest
        ∙ sym (append_assoc digits (13 ∷ []) (10 ∷ 13 ∷ 10 ∷ (body ++ rest))))

abbrev frame_of : Str → Str
frame_of body = codes "Content-Length: " ++ decimal (length body) ++ 13 ∷ 10 ∷ 13 ∷ 10 ∷ body

frame_printed :
    (print : Message → Option Str) (m : Message) (body : Str)
    → print (with_version m) ≡ some body
    → write_message print m ≡ some (frame_of body)
unfolding write_message framed
frame_printed print m body e = rw (e) refl

read_framed :
    (parse : Str → Option Message) (m : Message) (digits body rest : Str)
    → parse body ≡ some m
    → All IsDigit digits
    → digits ≢ []
    → atoi digits ≡ size (length body)
    → read_message parse ((codes "Content-Length: " ++ digits ++ 13 ∷ 10 ∷ 13 ∷ 10 ∷ body) ++ rest)
      ≡ message (with_version m) rest
unfolding read_message
read_framed parse m [] body rest parsed h ne value = absurd (ne refl)
read_framed parse m (c ∷ s) body rest parsed h ne value =
    let s' = header (c ∷ s) ++ 10 ∷ 13 ∷ 10 ∷ (body ++ rest) in
    let read : read_header (suc (length s')) s' negative
        ≡ message (size (length body)) (body ++ rest) =
      read_header-framed (length (drop 1 s')) c s (body ++ rest) negative (length body) h value in
    ap (read_message parse) (frame_shape (c ∷ s) body rest)
    ∙ ap (read_body parse) read
    ∙ read_body-framed parse m body rest parsed

abbrev Reads : (Str → Option Message) → Str → Message → Option Str → Type 0
Reads parse rest m none = Unit
Reads parse rest m (some bytes) = read_message parse (bytes ++ rest) ≡ message m rest

version_once : (m : Message) → with_version (with_version m) ≡ with_version m
version_once m = elim (Bool-cases (str_eq m.json_rpc [])) [
  | inl e ↦ rw (e) (unfold str_eq in refl)
  | inr e ↦ rw (e, e) refl
]

-- ReadMessage returns what WriteMessage was given, and leaves the bytes behind it. The body that is printed
-- parses as the message, and its length fits an int.
pub read_message-write_message :
    (print : Message → Option Str) (parse : Str → Option Message) (m : Message)
    (body bytes rest : Str)
    → print (with_version m) ≡ some body
    → parse body ≡ some (with_version m)
    → length body ≤ max_int
    → write_message print m ≡ some bytes
    → read_message parse (bytes ++ rest) ≡ message (with_version m) rest
read_message-write_message print parse m body bytes rest printed parsed fits written =
    let bytes_are : some (frame_of body) ≡ some bytes =
      sym (frame_printed print m body printed) ∙ written in
    let digits = decimal (length body) in
    subst (Reads parse rest (with_version (with_version m))) bytes_are (
      read_framed parse (with_version m) digits body rest parsed (decimal-IsDigit (length body))
        (decimal-ne-nil (length body)) (atoi-decimal (length body) fits))
    ∙ ap (λ x. message x rest) (version_once m)
