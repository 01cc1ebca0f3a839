-- ===== src/FilePath/Clean.antt =====
-- Clean paths are kept by Clean, and are what Rel and Join take apart and put together.
use mathlib.Core.List.{reverse, reverse-reverse, reverse-cons}
use workspaced.Prelude.{
  Bool, true, false, some, List, [], ◌∷◌, ◌++◌, Str, str_eq, Lacks, All, arith, ◌≡◌, ◌≢◌, refl, sym,
  ap, ◌∙◌, append_assoc, append-nil, All-append, str_eq_ne, str_eq_refl, length, length-append,
}
use workspaced.FilePath.{
  slash, dot, dot_dot, split_slash, join_slash, is_abs, clean_step, clean_segs, finish, clean, join,
  elements, rel_segs, rel, rel_clean, elements_of,
}

-- An element that Clean keeps.
pub record IsElement (s : Str) : Type 0 where
  pub not_empty : s ≢ []
  pub not_dot : s ≢ dot
  pub not_dot_dot : s ≢ dot_dot
  pub no_slash : Lacks slash s

-- The absolute path with these elements.
abbrev pub absolute : List Str → Str
absolute segs = slash ∷ join_slash segs

split_slash_last : (p : Str) → Lacks slash p → split_slash p ≡ p ∷ []
unfolding split_slash
split_slash_last [] h = refl
split_slash_last (c ∷ p) (hc, h) = ground (arith, split_slash_last p h)

split_slash_part : (p s : Str) → Lacks slash p → split_slash (p ++ slash ∷ s) ≡ p ∷ split_slash s
unfolding split_slash
split_slash_part [] s h = ground arith
split_slash_part (c ∷ p) s (hc, h) = ground (arith, split_slash_part p s h)

-- A non-empty list of elements is split as it was joined.
split-join :
    (p : Str) (ps : List Str)
    → Lacks slash p
    → All (Lacks slash) ps
    → split_slash (join_slash (p ∷ ps)) ≡ p ∷ ps
unfolding join_slash
split-join p [] h k = split_slash_last p h
split-join p (q ∷ qs) h (kq, k) = rw (split_slash_part p _ h, split-join q qs kq k)

split_slash-ne-nil : (s : Str) → split_slash s ≢ []
unfolding split_slash
split_slash-ne-nil [] = ground arith
split_slash-ne-nil (c ∷ s) = ground (arith, split_slash-ne-nil s)

split_slash-append : (s t : Str) → split_slash (s ++ slash ∷ t) ≡ split_slash s ++ split_slash t
unfolding split_slash
split_slash-append [] t = ground arith
split_slash-append (c ∷ s) t =
    ground
      (arith, split_slash-append s t, split_slash-ne-nil s, split_slash-ne-nil (s ++ slash ∷ t))

pub split_slash-Lacks : (s : Str) → All (Lacks slash) (split_slash s)
unfolding split_slash
split_slash-Lacks [] = (tt, tt)
split_slash-Lacks (c ∷ s) = ground (arith, split_slash-Lacks s)

All-no_slash : (segs : List Str) → All IsElement segs → All (Lacks slash) segs
All-no_slash [] h = tt
All-no_slash (p ∷ ps) (hp, h) = (hp.no_slash, All-no_slash ps h)

step_element :
    (rooted : Bool) (out : List Str) (p : Str) → IsElement p → clean_step rooted out p ≡ p ∷ out
unfolding clean_step
step_element rooted out p h =
    rw (str_eq_ne p [] h.not_empty, str_eq_ne p dot h.not_dot, str_eq_ne p dot_dot h.not_dot_dot)

step_empty : (rooted : Bool) (out : List Str) → clean_step rooted out [] ≡ out
unfolding clean_step str_eq
step_empty rooted out = refl

pub segs_cons :
    (rooted : Bool) (out : List Str) (seg : Str) (segs : List Str)
    → clean_segs rooted out (seg ∷ segs) ≡ clean_segs rooted (clean_step rooted out seg) segs
unfolding clean_segs
segs_cons rooted out seg segs = refl

segs_elements :
    (rooted : Bool) (out ps qs : List Str)
    → All IsElement ps
    → clean_segs rooted out (ps ++ qs) ≡ clean_segs rooted (reverse ps ++ out) qs
segs_elements rooted out [] qs h = refl
segs_elements rooted out (p ∷ ps) qs (hp, h) =
    segs_cons rooted out p (ps ++ qs)
    ∙ rw (step_element rooted out p hp, segs_elements rooted (p ∷ out) ps qs h, reverse-cons p ps)
        (rw append_assoc)

segs_all :
    (rooted : Bool) (out ps : List Str)
    → All IsElement ps
    → clean_segs rooted out ps ≡ reverse out ++ ps
segs_all rooted out [] h = unfold clean_segs in sym (append-nil (reverse out))
segs_all rooted out (p ∷ ps) (hp, h) =
    segs_cons rooted out p ps
    ∙ rw (step_element rooted out p hp, segs_all rooted (p ∷ out) ps h, reverse-cons p out)
        (rw append_assoc)

segs_empty :
    (rooted : Bool) (out qs : List Str) → clean_segs rooted out ([] ∷ qs) ≡ clean_segs rooted out qs
segs_empty rooted out qs = segs_cons rooted out [] qs ∙ rw step_empty

-- The elements of an absolute path, as the split gives them: what Clean makes of them is the same.
segs_absolute :
    (ps qs : List Str)
    → All IsElement ps
    → clean_segs true [] (split_slash (absolute ps) ++ qs) ≡ clean_segs true (reverse ps) qs
segs_absolute [] qs h =
    unfold split_slash join_slash in rw (segs_empty true [] ([] ∷ qs), segs_empty true [] qs)
segs_absolute (p ∷ ps) qs (hp, h) = rw (
  split_slash_part [] (join_slash (p ∷ ps)) tt,
  split-join p ps hp.no_slash (All-no_slash ps h),
  segs_empty true [] ((p ∷ ps) ++ qs),
  segs_elements true [] (p ∷ ps) qs (hp, h),
  append-nil,
)

segs_done : (rooted : Bool) (ps : List Str) → clean_segs rooted (reverse ps) [] ≡ ps
unfolding clean_segs
segs_done rooted ps = reverse-reverse ps

pub clean_of_abs :
    (s : Str) → clean (slash ∷ s) ≡ absolute (clean_segs true [] (split_slash (slash ∷ s)))
unfolding clean finish is_abs
clean_of_abs s = refl

-- An absolute path of proper elements is kept by Clean.
pub clean-absolute : (ps : List Str) → All IsElement ps → clean (absolute ps) ≡ absolute ps
clean-absolute ps h = rw (
  clean_of_abs (join_slash ps),
  ← append-nil (split_slash (absolute ps)),
  segs_absolute ps [] h,
  segs_done true ps,
)

-- Join puts relative elements behind an absolute path.
pub join-absolute :
    (ps : List Str) (q : Str) (qs : List Str)
    → All IsElement ps
    → All IsElement (q ∷ qs)
    → join (absolute ps) (join_slash (q ∷ qs)) ≡ absolute (ps ++ q ∷ qs)
unfolding join str_eq
join-absolute ps q qs h (kq, k) =
    rw
      (
        clean_of_abs (join_slash ps ++ slash ∷ join_slash (q ∷ qs)),
        split_slash-append (absolute ps) (join_slash (q ∷ qs)),
        segs_absolute ps (split_slash (join_slash (q ∷ qs))) h,
        split-join q qs kq.no_slash (All-no_slash qs k),
      )
      (rw (segs_all true (reverse ps) (q ∷ qs) (kq, k), reverse-reverse ps))

pub join_slash-ne-nil : (p : Str) (ps : List Str) → p ≢ [] → join_slash (p ∷ ps) ≢ []
unfolding join_slash
join_slash-ne-nil [] ps h = absurd (h refl)
join_slash-ne-nil (c ∷ p) [] h = ground arith
join_slash-ne-nil (c ∷ p) (q ∷ qs) h = ground arith

pub elements-absolute : (ps : List Str) → All IsElement ps → elements (absolute ps) ≡ ps
elements-absolute [] h = unfold elements elements_of split_slash join_slash str_eq in refl
elements-absolute (p ∷ ps) (hp, h) =
    let split : split_slash (absolute (p ∷ ps)) ≡ [] ∷ p ∷ ps =
      split_slash_part [] (join_slash (p ∷ ps)) tt
      ∙ ap (λ l. [] ∷ l) (split-join p ps hp.no_slash (All-no_slash ps h)) in
    let proper : str_eq (absolute (p ∷ ps)) (slash ∷ []) ≡ false =
      str_eq_ne (absolute (p ∷ ps)) (slash ∷ [])
        (λ e. join_slash-ne-nil p ps hp.not_empty (ground arith)) in
    let dotless : str_eq (absolute (p ∷ ps)) dot ≡ false =
      str_eq_ne (absolute (p ∷ ps)) dot (λ e. ground arith) in
    unfold elements in rw split (unfold elements_of in rw (dotless, proper))

rel_segs_below : (ps qs : List Str) → rel_segs ps (ps ++ qs) ≡ some qs
unfolding rel_segs
rel_segs_below [] qs = refl
rel_segs_below (p ∷ ps) qs = rw (str_eq_refl p, rel_segs_below ps qs)

append-ne_self : {A : Type 0} (ps : List A) (q : A) (qs : List A) → ps ≢ ps ++ q ∷ qs
append-ne_self ps q qs e = absurd (omega (arith, ap length e, length-append ps (q ∷ qs)))

pub absolute-inj :
    (ps qs : List Str) → All IsElement ps → All IsElement qs → absolute ps ≡ absolute qs → ps ≡ qs
absolute-inj ps qs h k e = sym (elements-absolute ps h) ∙ ap elements e ∙ elements-absolute qs k

-- Rel from a path to one below it is the rest of its elements.
pub rel-below :
    (ps : List Str) (q : Str) (qs : List Str)
    → All IsElement ps
    → All IsElement (q ∷ qs)
    → rel (absolute ps) (absolute (ps ++ q ∷ qs)) ≡ some (join_slash (q ∷ qs))
unfolding rel
rel-below ps q qs h k =
    let hk = All-append IsElement ps (q ∷ qs) h k in
    rw (clean-absolute ps h, clean-absolute (ps ++ q ∷ qs) hk)
      (unfold rel_clean in
        rw (
          str_eq_ne (absolute ps) (absolute (ps ++ q ∷ qs))
              (λ e. append-ne_self ps q qs (absolute-inj ps (ps ++ q ∷ qs) h hk e)),
          elements-absolute ps h,
          elements-absolute (ps ++ q ∷ qs) hk,
          rel_segs_below ps (q ∷ qs),
        ))
