-- ===== src/Atomic/Replaced.antt =====
-- internal/atomicfile/atomicfile.go: what ReplaceDir leaves at the destination.
use workspaced.Prelude.{
  arith, ◌≡◌, ◌≢◌, ◌⊎◌, refl, sym, ap, ◌∙◌, Bool, true, false, not, Option, none, some, ◌++◌,
  if◌then◌else◌, Str, codes, str_eq_refl, str_eq_ne, length, length-append, inl, inr,
}
use workspaced.Prelude.GoMap
use workspaced.Prelude.GoMap.{GoMap}
use workspaced.Atomic.{
  ReplaceFaults, Written, ok, failed, rename, renamed, move_in, move_away, replace_dir,
}

module _ {T : Type 0} where
  get-rename :
      (src path : Str) (t : T) (disk : GoMap T)
      → GoMap.get disk src ≡ some t
      → GoMap.get (rename src path disk) path ≡ some t
  unfolding rename
  get-rename src path t disk e =
      ap (λ o. GoMap.get (renamed o src path disk) path) e
      ∙ ground (arith, GoMap.get-put (GoMap.remove disk src) path t path, str_eq_refl path)

  get-renamed_other :
      (o : Option T) (src path q : Str) (disk : GoMap T)
      → q ≢ src
      → q ≢ path
      → GoMap.get (renamed o src path disk) q ≡ GoMap.get disk q
  get-renamed_other none src path q disk ns np = refl
  get-renamed_other (some t) src path q disk ns np =
      GoMap.get-put (GoMap.remove disk src) path t q
      ∙ rw (str_eq_ne path q (λ e. np (sym e)))
          (GoMap.get-remove disk src q ∙ rw (str_eq_ne src q (λ e. ns (sym e))) refl)

  rename_absent :
      (src path : Str) (disk : GoMap T) → GoMap.get disk src ≡ none → rename src path disk ≡ disk
  unfolding rename
  rename_absent src path disk e = ap (λ o. renamed o src path disk) e

  -- The new directory is at the destination if ReplaceDir succeeds. If it fails, either the old one is there, or the
  -- new one is and the last removal failed, or the old one could not be moved away or back.
  abbrev pub IsReplaced : ReplaceFaults → Str → Option T → T → Written × GoMap T → Type 0
  IsReplaced faults dest old new (ok, after) = GoMap.get after dest ≡ some new
  IsReplaced faults dest old new (failed, after) =
      (GoMap.get after dest ≡ old)
      ⊎ ((faults.remove_last ≡ true) × (GoMap.get after dest ≡ some new))
      ⊎ (faults.rename_away ≡ true)
      ⊎ (faults.rename_back ≡ true)

  module _ (faults : ReplaceFaults) (dest tmp old : Str) (was : Option T) (new : T)
      (td : tmp ≢ dest) (tq : tmp ≢ old) (od : old ≢ dest) where
    abbrev P : Written × GoMap T → Type 0
    P = IsReplaced faults dest was new

    on_if :
        (b : Bool) (x y : Written × GoMap T)
        → (b ≡ true → P x)
        → (b ≡ false → P y)
        → P (if b then x else y)
    on_if true x y h k = h refl
    on_if false x y h k = k refl

    kept : (d : GoMap T) → GoMap.get (GoMap.remove d old) dest ≡ GoMap.get d dest
    kept d = GoMap.get-remove d old dest ∙ rw (str_eq_ne old dest od) refl

    brought_back :
        (b : Bool) (d : GoMap T)
        → (GoMap.get (rename old dest d) dest ≡ was) ⊎ (faults.rename_away ≡ true)
        → faults.rename_back ≡ b
        → P (failed, if b then d else rename old dest d)
    brought_back true d h e = inr (inr (inr e))
    brought_back false d (inl h) e = inl h
    brought_back false d (inr h) e = inr (inr (inl h))

    move_in-IsReplaced :
        (d : GoMap T)
        → GoMap.get d tmp ≡ some new
        → (GoMap.get (rename old dest d) dest ≡ was) ⊎ (faults.rename_away ≡ true)
        → P (move_in faults dest tmp old d)
    unfolding move_in
    move_in-IsReplaced d here h =
        on_if faults.rename_in _ _ (λ a. brought_back faults.rename_back d h refl)
          λ a.
            on_if faults.remove_last _ _ (λ b. inr (inl (b, get-rename tmp dest new d here)))
              λ b. kept (rename tmp dest d) ∙ get-rename tmp dest new d here

    move_away-IsReplaced :
        (d : GoMap T) (o : Option T)
        → GoMap.get d tmp ≡ some new
        → GoMap.get d dest ≡ o
        → GoMap.get d old ≡ none
        → o ≡ was
        → P (move_away faults dest tmp old o d)
    unfolding move_away rename
    move_away-IsReplaced d none here e gone same =
        move_in-IsReplaced d here
          (inl (ap (λ x. GoMap.get x dest) (rename_absent old dest d gone) ∙ e ∙ same))
    move_away-IsReplaced d (some t) here e gone same =
        on_if (not faults.rename_away) _ _
          (λ a.
            move_in-IsReplaced (rename dest old d)
              (get-renamed_other (GoMap.get d dest) dest old tmp d td tq ∙ here)
              (inl (get-rename old dest t (rename dest old d) (get-rename dest old t d e) ∙ same)))
          λ a.
            on_if faults.remove_dest _ _ (λ b. inl (e ∙ same))
              λ b.
                move_in-IsReplaced (GoMap.remove d dest)
                  (GoMap.get-remove d dest tmp ∙ rw (str_eq_ne dest tmp (λ x. td (sym x))) here)
                  (inr (ground (arith, a)))

old-ne-dest : (dest : Str) → dest ++ codes ".old" ≢ dest
old-ne-dest dest e = omega (arith, ap length e, length-append dest (codes ".old"))

-- ReplaceDir, whichever of its calls fail: the directory at the temporary path is at the destination if it succeeds; if it
-- fails, the old one is there, or the new one and the last removal failed, or the old one could not be moved away or back.
pub replace_dir-IsReplaced :
    {T : Type 0} (faults : ReplaceFaults) (dest tmp : Str) (new : T) (disk : GoMap T)
    → tmp ≢ dest
    → tmp ≢ dest ++ codes ".old"
    → GoMap.get disk tmp ≡ some new
    → IsReplaced faults dest (GoMap.get disk dest) new (replace_dir faults dest tmp disk)
unfolding replace_dir
replace_dir-IsReplaced faults dest tmp new disk td tq here =
    let old = dest ++ codes ".old" in
    let od = old-ne-dest dest in
    let was = GoMap.get disk dest in
    on_if faults dest tmp old was new td tq od faults.mkdir_all _ _ (λ a. inl refl)
      λ a.
        on_if faults dest tmp old was new td tq od faults.remove_old _ _ (λ b. inl refl)
          λ b.
            on_if faults dest tmp old was new td tq od faults.stat _ _
              (λ c. inl (kept faults dest tmp old was new td tq od disk))
              λ c.
                move_away-IsReplaced faults dest tmp old was new td tq od (GoMap.remove disk old)
                  was
                  (GoMap.get-remove disk old tmp ∙ rw (str_eq_ne old tmp (λ x. tq (sym x))) here)
                  (kept faults dest tmp old was new td tq od disk)
                  (GoMap.get-remove disk old old ∙ rw (str_eq_refl old) refl) refl
