-- ===== src/Taskgroup/LineFilter/Tabs.antt =====
-- pkg/taskgroup/linefilter.go: which runes put into a row return.
use workspaced.Prelude.{
  arith, refl, ◌∙◌, ◌≡◌, ap, ℕ, zero, suc, ◌+◌, ◌*◌, ◌-◌, ◌/◌, ◌≤◌, ◌<◌, Bool, true, false, Option,
  none, some, List, ◌||◌, ltb, ◌==◌, if◌then◌else◌, inl, inr, Bool-cases,
}
use workspaced.Taskgroup.LineFilter.{
  Filter, silent, tabbed, start_frame, put_at, put, tab_loop, newline, put_rune, tab_fuel,
}
use workspaced.Taskgroup.LineFilter.Bounds.{Fits, put-Fits, newline-Fits}

-- A glyph goes one column on before the last one, and not at all there.
put-col : (r : ℕ) (f : Filter) → f.after_cr ≡ false → f.col < 1024 → (put r f).col ≡ f.col + 1
unfolding put start_frame put_at
put-col r f e h = ground (arith, e)

put-after_cr : (r : ℕ) (f : Filter) → (put r f).after_cr ≡ false
unfolding put start_frame put_at
put-after_cr r f = ground arith

put-last : (r : ℕ) (f : Filter) → f.after_cr ≡ false → f.col ≡ 1024 → put r f ≡ f
unfolding put start_frame put_at
put-last r f e h = ground arith

put-col_le : (r : ℕ) (f : Filter) → f.col ≤ 1024 → (put r f).col ≤ 1024
unfolding Fits put start_frame put_at
put-col_le r f h = ground arith

tab_loop-endless :
    (fuel next : ℕ) (f : Filter) → f.col ≤ 1024 → 1024 < next → tab_loop fuel next f ≡ none
unfolding tab_loop
tab_loop-endless zero next f h l = refl
tab_loop-endless (suc fuel) next f h l =
    ground (arith, tab_loop-endless fuel next (put b' ' f) (put-col_le b' ' f h) l)

tab_loop-ends :
    (fuel next : ℕ) (f : Filter)
    → Fits f
    → f.after_cr ≡ false
    → next ≤ 1024
    → f.col ≤ next
    → next < f.col + fuel
    → (g : Filter) × (tab_loop fuel next f ≡ some g) × Fits g
unfolding tab_loop
tab_loop-ends zero next f h a l m k = ground arith
tab_loop-ends (suc fuel) next f h a l m k = elim (Bool-cases (ltb f.col next)) [
  | inl d ↦ rw (d) (
      tab_loop-ends fuel next (put b' ' f) (put-Fits b' ' f h) (put-after_cr b' ' f) l
        (ground (arith, put-col b' ' f a)) (ground (arith, put-col b' ' f a)))
  | inr d ↦ (f, rw (d) refl, h)
]

put-col_next : (r : ℕ) (f : Filter) → (put r f).col ≤ f.col + 1
unfolding put start_frame put_at
put-col_next r f = ground arith

-- It returns, and its row is within the bounds.
unfoldable pub Returns : Option (Option (List ℕ) × Filter) → Type 0
Returns res = (o : Option (List ℕ)) × (g : Filter) × (res ≡ some (o, g)) × Fits g

silent-Returns : (f : Filter) → Fits f → Returns (silent f)
unfolding Returns
silent-Returns f h = (none, f, refl, h)

newline-Returns : (f : Filter) → Returns (some (newline f))
unfolding Returns newline
newline-Returns f = (_, _, refl, newline-Fits f)

if-Returns :
    (b : Bool) (x y : Option (Option (List ℕ) × Filter))
    → (b ≡ true → Returns x)
    → (b ≡ false → Returns y)
    → Returns (if b then x else y)
if-Returns true x y p q = p refl
if-Returns false x y p q = q refl

tab_loop-first :
    (fuel next : ℕ) (f : Filter)
    → f.col < next
    → tab_loop (suc fuel) next f ≡ tab_loop fuel next (put b' ' f)
unfolding tab_loop
tab_loop-first fuel next f k = let lt : ltb f.col next ≡ true = ground arith in rw (lt) refl

tab-Returns :
    (next : ℕ) (f : Filter)
    → Fits f
    → f.col < next
    → next ≤ 1024
    → Returns (tabbed (tab_loop tab_fuel next f))
unfolding Returns
tab-Returns next f h k l =
    let (g, e, i) =
      tab_loop-ends 2047 next (put b' ' f) (put-Fits b' ' f h) (put-after_cr b' ' f) l
        (omega (arith, put-col_next b' ' f)) (omega arith) in
    (none, g, ap tabbed (tab_loop-first 2047 next f k ∙ e), i)

-- A tab in column 1024 does not return: its loop goes on after any number of rounds.
pub put_rune-endless :
    (f : Filter) (rounds : ℕ)
    → f.col ≡ 1024
    → (tab_loop rounds ((f.col / 8 + 1) * 8) f ≡ none) × (put_rune b'\t' f ≡ none)
unfolding put_rune
put_rune-endless f rounds e = (
  tab_loop-endless rounds ((f.col / 8 + 1) * 8) f (omega arith) (omega arith),
  ap tabbed (tab_loop-endless tab_fuel ((f.col / 8 + 1) * 8) f (omega arith) (omega arith)),
)

-- Every rune that comes before column 1024, a tab included, is put into a row that fits in a bounded
-- number of rounds, and the row still fits: cursor and length are at most 1024.
pub put_rune-Returns : (r : ℕ) (f : Filter) → Fits f → f.col < 1024 → Returns (put_rune r f)
unfolding put_rune Fits
put_rune-Returns r f h k =
    if-Returns (r == b'\n') _ _ (λ _. newline-Returns f)
      (λ _.
        if-Returns (r == b'\r') _ _
          (λ _. silent-Returns (record f { col = 0; after_cr = true }) (omega arith, h.1))
          (λ _.
            if-Returns (r == 8) _ _
              (λ _.
                silent-Returns (if ltb 0 f.col then record f { col = f.col - 1 } else f)
                  (ground arith))
              (λ _.
                if-Returns (r == b'\t') _ _
                  (λ _. tab-Returns ((f.col / 8 + 1) * 8) f h (omega arith) (omega arith))
                  (λ _.
                    if-Returns (r == 7) _ _ (λ _. silent-Returns f h)
                      (λ _.
                        if-Returns (ltb r 0x20 || r == 0x7f) _ _ (λ _. silent-Returns f h)
                          (λ _. silent-Returns (put r f) (put-Fits r f h)))))))
