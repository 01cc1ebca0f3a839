-- ===== src/Atomic/Dirs.antt =====
-- internal/atomicfile/atomicfile.go: the directories that MkdirAll makes.
use workspaced.Prelude.{
  zero, suc, List, ◌∷◌, In, All, Bool-cases, arith, ℕ, ◌≡◌, ◌⊎◌, refl, sym, true, [], if◌then◌else◌,
  Str, str_eq, str_eq_iff, inl, inr, take,
}
use workspaced.Atomic.{is_dir, make_dirs, Written, ok, failed}

-- The directories that were there still are, each new one is a parent of the file, and on success all
-- parents are there.
abbrev pub HasDirs : List Str → List Str → Written → List Str → Type 0
HasDirs parents before ok after =
    All (λ p. In p after) parents
    × ((p : Str) → In p before → In p after)
    × ((p : Str) → In p after → In p before ⊎ In p parents)
HasDirs parents before failed after =
    ((p : Str) → In p before → In p after) × ((p : Str) → In p after → In p before ⊎ In p parents)

is_dir-In : (p : Str) (dirs : List Str) → is_dir p dirs ≡ true → In p dirs
unfolding is_dir
is_dir-In p [] h = absurd (ground (arith, h))
is_dir-In p (d ∷ dirs) h = elim (Bool-cases (str_eq d p)) [
  | inl q ↦ inl (sym ((str_eq_iff d p).0 q))
  | inr q ↦ inr (is_dir-In p dirs (ground (arith, h, q)))
]

add_dir : Str → List Str → List Str
add_dir p dirs = if is_dir p dirs then dirs else p ∷ dirs

add_dir-In : (p : Str) (dirs : List Str) → In p (add_dir p dirs)
unfolding add_dir
add_dir-In p dirs = elim (Bool-cases (is_dir p dirs)) [
  | inl q ↦ rw q (is_dir-In p dirs q)
  | inr q ↦ rw q (inl refl)
]

add_dir-keeps : (p q : Str) (dirs : List Str) → In q dirs → In q (add_dir p dirs)
unfolding add_dir
add_dir-keeps p q dirs m = elim (Bool-cases (is_dir p dirs)) [
  | inl e ↦ rw e m
  | inr e ↦ rw e (inr m)
]

add_dir-cases : (p q : Str) (dirs : List Str) → In q (add_dir p dirs) → In q dirs ⊎ (q ≡ p)
unfolding add_dir
add_dir-cases p q dirs m = elim (Bool-cases (is_dir p dirs)) [
  | inl e ↦ inl (rw e at m)
  | inr e ↦ elim (rw e at m) [ inl s ↦ inr s | inr n ↦ inl n ]
]

make_dirs-keeps : (q : Str) (ps dirs : List Str) → In q dirs → In q (make_dirs ps dirs)
unfolding make_dirs add_dir
make_dirs-keeps q [] dirs m = m
make_dirs-keeps q (p ∷ ps) dirs m = make_dirs-keeps q ps (add_dir p dirs) (add_dir-keeps p q dirs m)

make_dirs-all : (ps dirs : List Str) → All (λ p. In p (make_dirs ps dirs)) ps
unfolding make_dirs add_dir
make_dirs-all [] dirs = tt
make_dirs-all (p ∷ ps) dirs =
    (make_dirs-keeps p ps (add_dir p dirs) (add_dir-In p dirs), make_dirs-all ps (add_dir p dirs))

make_dirs-cases : (q : Str) (ps dirs : List Str) → In q (make_dirs ps dirs) → In q dirs ⊎ In q ps
unfolding make_dirs add_dir
make_dirs-cases q [] dirs m = inl m
make_dirs-cases q (p ∷ ps) dirs m = elim (make_dirs-cases q ps (add_dir p dirs) m) [
  | inr n ↦ inr (inr n)
  | inl n ↦ elim (add_dir-cases p q dirs n) [ inl k ↦ inl k | inr e ↦ inr (inl e) ]
]

In-take : (q : Str) (n : ℕ) (ps : List Str) → In q (take n ps) → In q ps
In-take q zero ps m = elim m [ ]
In-take q (suc n) [] m = elim m [ ]
In-take q (suc n) (p ∷ ps) (inl e) = inl e
In-take q (suc n) (p ∷ ps) (inr m) = inr (In-take q n ps m)

pub made-HasDirs : (r : Written) (ps dirs : List Str) → HasDirs ps dirs r (make_dirs ps dirs)
made-HasDirs ok ps dirs =
    (make_dirs-all ps dirs, λ p m. make_dirs-keeps p ps dirs m, λ p m. make_dirs-cases p ps dirs m)
made-HasDirs failed ps dirs =
    (λ p m. make_dirs-keeps p ps dirs m, λ p m. make_dirs-cases p ps dirs m)

pub partly-HasDirs :
    (n : ℕ) (ps dirs : List Str) → HasDirs ps dirs failed (make_dirs (take n ps) dirs)
partly-HasDirs n ps dirs = (
  λ p m. make_dirs-keeps p (take n ps) dirs m,
  λ p m. elim (make_dirs-cases p (take n ps) dirs m) [
    | inl k ↦ inl k
    | inr k ↦ inr (In-take p n ps k)
  ],
)
