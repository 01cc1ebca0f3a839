-- ===== src/Archive/Jail.antt =====
-- internal/archive/path.go: what is accepted lies below the directory.
use mathlib.Core.List.{reverse, reverse-cons}
use workspaced.Prelude.{
  arith, ◌≡◌, ◌≢◌, ◌⊎◌, refl, sym, ap, subst, ◌∙◌, true, false, Option, none, some, List, [], ◌∷◌,
  ◌++◌, if◌then◌else◌, Str, Lacks, str_eq, str_eq_iff, str_eq_ne, has_prefix, All, All-append,
  Bool-cases, Option-cases, inl, inr, append-nil,
}
use workspaced.FilePath.{
  slash, dot, dot_dot, is_abs, clean, clean_segs, clean_step, split_slash, join, join_slash, rel,
  rel_clean, rel_segs, ups, or_dot,
}
use workspaced.FilePath.Clean.{
  IsElement, absolute, clean-absolute, clean_of_abs, split_slash-Lacks, elements-absolute,
  absolute-inj, segs_cons,
}
use workspaced.Archive.{path_within_dest, accept, join_within, stays}

All-reverse : (ps : List Str) → All IsElement ps → All IsElement (reverse ps)
All-reverse [] h = tt
All-reverse (p ∷ ps) (hp, h) =
    rw (reverse-cons p ps) (All-append IsElement (reverse ps) (p ∷ []) (All-reverse ps h) (hp, tt))

up-IsElement :
    (out : List Str)
    → All IsElement out
    → All IsElement (elim out [ [] ↦ [] | d ∷ o ↦ if str_eq d dot_dot then dot_dot ∷ d ∷ o else o ])
up-IsElement [] h = tt
up-IsElement (d ∷ o) (hd, h) = rw (str_eq_ne d dot_dot hd.not_dot_dot) h

differs : (s t : Str) → str_eq s t ≡ false → s ≢ t
differs s t e same = ground (arith, e, (str_eq_iff s t).1 same)

step-IsElement :
    (out : List Str) (seg : Str)
    → All IsElement out
    → Lacks slash seg
    → All IsElement (clean_step true out seg)
unfolding clean_step
step-IsElement out seg h lacks = elim (Bool-cases (str_eq seg [])) [
  | inl e ↦ rw (e) h
  | inr e ↦ elim (Bool-cases (str_eq seg dot)) [
    | inl f ↦ rw (e, f) h
    | inr f ↦ elim (Bool-cases (str_eq seg dot_dot)) [
      | inl g ↦ rw (e, f, g) (up-IsElement out h)
      | inr g ↦
          rw (e, f, g)
            (
              record {
                not_empty = differs seg [] e;
                not_dot = differs seg dot f;
                not_dot_dot = differs seg dot_dot g;
                no_slash = lacks;
              },
              h,
            )
    ]
  ]
]

segs-IsElement :
    (out segs : List Str)
    → All IsElement out
    → All (Lacks slash) segs
    → All IsElement (clean_segs true out segs)
segs-IsElement out [] h k = unfold clean_segs in All-reverse out h
segs-IsElement out (seg ∷ segs) h (ks, k) =
    rw (segs_cons true out seg segs)
      (segs-IsElement (clean_step true out seg) segs (step-IsElement out seg h ks) k)

some_is : {A : Type 0} {x y : A} → some x ≡ some y → x ≡ y
some_is {A} {x} e = ap (λ o. elim o [ none ↦ x | some z ↦ z ]) e

-- What Rel makes of two lists of elements: the rest of the second, or a way up.
rel_segs-cases :
    (ps ts r : List Str)
    → rel_segs ps ts ≡ some r
    → (ts ≡ ps ++ r) ⊎ ((s : List Str) × (r ≡ dot_dot ∷ s))
unfolding rel_segs ups
rel_segs-cases [] ts r e = inl (some_is e)
rel_segs-cases (p ∷ ps) [] r e = elim (Bool-cases (str_eq (join_slash (p ∷ ps)) dot_dot)) [
  | inl f ↦ absurd (ground (arith, f, e))
  | inr f ↦ inr (ups ps [], sym (some_is (rw (f) at e)))
]
rel_segs-cases (p ∷ ps) (t ∷ ts) r e = elim (Bool-cases (str_eq p t)) [
  | inl same ↦ elim (rel_segs-cases ps ts r (rw (same) at e)) [
    | inl below ↦ inl (ap (λ x. x ∷ ts) (sym ((str_eq_iff p t).0 same)) ∙ ap (λ xs. p ∷ xs) below)
    | inr up ↦ inr up
  ]
  | inr other ↦ elim (Bool-cases (str_eq (join_slash (p ∷ ps)) dot_dot)) [
    | inl f ↦ absurd (ground (arith, other, f, e))
    | inr f ↦ inr (ups ps (t ∷ ts), sym (some_is (rw (other, f) at e)))
  ]
]

-- A way up does not stay.
up_leaves : (s : List Str) → stays (some (or_dot (dot_dot ∷ s))) ≡ false
unfolding join_slash has_prefix str_eq
up_leaves [] = refl
up_leaves (q ∷ s) = refl

module _ (ps ts : List Str) (h : All IsElement ps) (k : All IsElement ts) where
  rel_between :
      rel (clean (absolute ps)) (clean (absolute ts)) ≡ rel_clean (absolute ps) (absolute ts)
  unfolding rel
  rel_between =
      rw (clean-absolute ps h, clean-absolute ts k)
        (rw (clean-absolute ps h, clean-absolute ts k) refl)

  rel_other :
      (o : Option (List Str))
      → rel_segs ps ts ≡ o
      → str_eq (absolute ps) (absolute ts) ≡ false
      → rel_clean (absolute ps) (absolute ts) ≡ (elim o [ none ↦ none | some r ↦ some (or_dot r) ])
  unfolding rel_clean is_abs
  rel_other o e ne = rw (ne, elements-absolute ps h, elements-absolute ts k, e) refl

  -- An accepted path has the elements of the directory first.
  within-below :
      path_within_dest (absolute ps) (absolute ts) ≡ true → (qs : List Str) × (ts ≡ ps ++ qs)
  unfolding path_within_dest
  within-below e =
      let e' : stays (rel_clean (absolute ps) (absolute ts)) ≡ true = rw (rel_between) at e in
      elim (Bool-cases (str_eq (absolute ps) (absolute ts))) [
        | inl same ↦ (
          [],
          absolute-inj ts ps k h (sym ((str_eq_iff (absolute ps) (absolute ts)).0 same))
              ∙ sym (append-nil ps),
        )
        | inr ne ↦ elim (Option-cases (rel_segs ps ts)) [
          | inl n ↦ absurd (ground (arith, sym (ap stays (rel_other none n ne)) ∙ e'))
          | inr (r, n) ↦ elim (rel_segs-cases ps ts r n) [
            | inl below ↦ (r, below)
            | inr (s, up) ↦
                let out : stays (some (or_dot r)) ≡ true =
                  sym (ap stays (rel_other (some r) n ne)) ∙ e' in
                absurd
                  (ground (arith, up_leaves s, subst (λ x. stays (some (or_dot x)) ≡ true) up out))
          ]
        ]
      ]

below-IsElement : (ps qs : List Str) → All IsElement (ps ++ qs) → All IsElement qs
below-IsElement [] qs h = h
below-IsElement (p ∷ ps) qs (hp, h) = below-IsElement ps qs h

-- The elements of a joined path.
abbrev joined : List Str → Str → List Str
joined ps name = clean_segs true [] (split_slash (absolute ps ++ slash ∷ name))

joined-IsElement : (ps : List Str) (name : Str) → All IsElement (joined ps name)
joined-IsElement ps name =
    segs-IsElement [] (split_slash (absolute ps ++ slash ∷ name)) tt
      (split_slash-Lacks (absolute ps ++ slash ∷ name))

join-joined :
    (ps : List Str) (name : Str) → name ≢ [] → join (absolute ps) name ≡ absolute (joined ps name)
unfolding join str_eq
join-joined ps name ne = clean_of_abs (join_slash ps ++ slash ∷ name)

accepted :
    (dest name t target : Str)
    → accept dest name t ≡ some target
    → (name ≢ []) × (path_within_dest dest t ≡ true) × (t ≡ target)
unfolding accept
accepted dest name t target e = elim (Bool-cases (str_eq name [])) [
  | inl f ↦ absurd (ground (arith, f, e))
  | inr f ↦ elim (Bool-cases (is_abs name)) [
    | inl a ↦ absurd (ground (arith, f, a, e))
    | inr a ↦ elim (Bool-cases (path_within_dest dest t)) [
      | inl w ↦ (differs name [] f, w, some_is (rw (f, a, w) at e))
      | inr w ↦ absurd (ground (arith, f, a, w, e))
    ]
  ]
]

-- The path that JoinWithin returns for a member of an archive, whatever its name is, lies below the directory:
-- its elements are those of the directory and then proper ones. The directory is an absolute clean path.
pub join_within-below :
    (ps : List Str) (name target : Str)
    → All IsElement ps
    → join_within (absolute ps) name ≡ some target
    → (qs : List Str) × All IsElement qs × (target ≡ absolute (ps ++ qs))
unfolding join_within
join_within-below ps name target h e =
    let (ne, stay, same) = accepted (absolute ps) name (join (absolute ps) name) target e in
    let at = join-joined ps name ne in
    let ts = joined ps name in
    let k = joined-IsElement ps name in
    let (qs, below) =
      within-below ps ts h k (subst (λ t. path_within_dest (absolute ps) t ≡ true) at stay) in
    (qs, below-IsElement ps qs (subst (All IsElement) below k), sym same ∙ at ∙ ap absolute below)
