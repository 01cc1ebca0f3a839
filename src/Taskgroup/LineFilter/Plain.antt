-- ===== src/Taskgroup/LineFilter/Plain.antt =====
-- pkg/taskgroup/linefilter.go: what comes out of plain text.
use workspaced.Prelude.{
  arith, refl, ◌≡◌, ◌∙◌, sym, ap, ℕ, zero, suc, ◌+◌, ◌≤◌, ◌<◌, true, false, none, some, List, [],
  ◌∷◌, ◌++◌, ltb, ◌==◌, Str, length, replicate, All, length-append, append-nil, append_assoc,
}
use workspaced.Taskgroup.Utf8.{decode_rune, lead, rune_error}
use workspaced.Taskgroup.LineFilter.{
  Filter, Written, fresh, keep, commit, after_rune, take_rune, write_step, scan, newest, write,
  write_step, line_max_pending, start_frame, put_at, put, newline, row, reset, put_rune,
}

-- A printing ASCII character.
abbrev pub IsPlain : ℕ → Type 0
IsPlain c = (32 ≤ c) × (c < 127)

-- The filter behind a row that was typed without control sequences.
abbrev pub typed : List ℕ → Filter
typed l = record { pending = []; line = l; col = length l; after_cr = false }

put-typed : (c : ℕ) (l : List ℕ) → length l < 1024 → put c (typed l) ≡ typed (l ++ c ∷ [])
unfolding put start_frame put_at
put-typed c l h =
    let at_end : put_at c (typed l) ≡ record {
      pending = [];
      line = l ++ (replicate 0 32 ++ c ∷ []);
      col = length l + 1;
      after_cr = false;
    } =
      ground arith in
    at_end
    ∙ ap (λ n. record { pending = []; line = l ++ c ∷ []; col = n; after_cr = false })
        (sym (length-append l (c ∷ [])))

decode-plain : (c : ℕ) (s : Str) → IsPlain c → decode_rune (c ∷ s) ≡ (c, 1)
unfolding decode_rune lead
decode-plain c s h = let lt : ltb c 0x80 ≡ true = ground (arith, h.1) in rw (lt) refl

put_rune-plain : (c : ℕ) (f : Filter) → IsPlain c → put_rune c f ≡ some (none, put c f)
unfolding put_rune
put_rune-plain c f h =
    let n0 : (c == 10) ≡ false = ground (arith, h.0) in
    let n1 : (c == 13) ≡ false = ground (arith, h.0) in
    let n2 : (c == 8) ≡ false = ground (arith, h.0) in
    let n3 : (c == 9) ≡ false = ground (arith, h.0) in
    let n4 : (c == 7) ≡ false = ground (arith, h.0) in
    let n5 : ltb c 32 ≡ false = ground (arith, h.0) in
    let n6 : (c == 127) ≡ false = ground (arith, h.1) in rw (n0, n1, n2, n3, n4, n5, n6) refl

step-plain :
    (more : Str → Filter → Written) (c : ℕ) (s : Str) (f : Filter)
    → IsPlain c
    → write_step more (c ∷ s) f ≡ more s (put c f)
unfolding write_step take_rune after_rune
step-plain more c s f h =
    let n0 : (c == 0x1b) ≡ false = ground (arith, h.0) in
    let n1 : (c == 0x9b) ≡ false = ground (arith, h.1) in
    let n2 : (c == rune_error) ≡ false = ground (arith, h.1) in
    rw (n0, n1, decode-plain c s h, n2, put_rune-plain c f h) refl

step-newline :
    (more : Str → Filter → Written) (s : Str) (f : Filter)
    → write_step more (b'\n' ∷ s) f ≡ commit (row f.line) (more s (reset f))
unfolding write_step take_rune after_rune put_rune newline decode_rune lead
step-newline more s f = refl

scan-plain :
    (s l : Str) (rest : Str) (n fuel : ℕ)
    → n ≡ length s + fuel
    → All IsPlain s
    → length l + length s ≤ 1024
    → scan n (s ++ rest) (typed l) ≡ scan fuel rest (typed (l ++ s))
unfolding scan
scan-plain [] l rest n fuel e h k =
    ap (λ m. scan m rest (typed l)) (omega arith)
    ∙ ap (λ l. scan fuel rest (typed l)) (sym (append-nil l))
scan-plain (c ∷ s) l rest zero fuel e h k = ground arith
scan-plain (c ∷ s) l rest (suc n) fuel e (h, hs) k =
    step-plain (scan n) c (s ++ rest) (typed l) h
    ∙ ap (scan n (s ++ rest)) (put-typed c l (omega arith))
    ∙ scan-plain s (l ++ c ∷ []) rest n fuel (omega arith) hs
        (omega (arith, length-append l (c ∷ [])))
    ∙ ap (λ l. scan fuel rest (typed l)) (append_assoc l (c ∷ []) s)

newest-short : (s : Str) → length s ≤ 8192 → newest s ≡ s
unfolding newest
newest-short s h = let le : ltb line_max_pending (length s) ≡ false = ground arith in rw (le) refl

scan-newline : (l : Str) (c : ℕ) → scan 2 (b'\n' ∷ []) (typed (c ∷ l)) ≡ some ((c ∷ l) ∷ [], fresh)
unfolding scan keep reset
scan-newline l c = step-newline (scan 1) [] (typed (c ∷ l)) ∙ refl

-- A plain line that fits comes out as it was written, and leaves a fresh filter.
pub write-plain :
    (c : ℕ) (s : Str)
    → All IsPlain (c ∷ s)
    → length (c ∷ s) ≤ 1024
    → write (c ∷ s ++ b'\n' ∷ []) fresh ≡ some ((c ∷ s) ∷ [], fresh)
unfolding write
write-plain c s h k =
    let len = length-append (c ∷ s) (b'\n' ∷ []) in
    ap (λ t. scan (suc (length t)) t fresh)
      (newest-short (c ∷ s ++ b'\n' ∷ []) (omega (arith, len)))
    ∙ scan-plain (c ∷ s) [] (b'\n' ∷ []) (suc (length (c ∷ s ++ b'\n' ∷ []))) 2 (omega (arith, len))
        h (omega arith)
    ∙ scan-newline s c
