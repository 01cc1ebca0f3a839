-- ===== src/Resolution/Latest.antt =====
-- internal/tool/resolution/resolver.go: the latest version that has the tool is the greatest.
use mathlib.Core.List.{reverse, reverse-cons}
use workspaced.Prelude.{
  arith, codes, ◌≡◌, ◌≢◌, ◌⊎◌, refl, sym, subst, Bool, false, List, [], ◌∷◌, ◌++◌, if◌then◌else◌,
  Str, str_eq, str_eq_iff, All, AllPairs, In, All-In, All-append, Bool-cases, inl, inr,
  In-append-cases, In-append_left, In-append_right,
}
use workspaced.Prelude.Sort
use workspaced.Prelude.Sort.{IsSorted}
use workspaced.FilePath.{join}
use workspaced.Semver.{parse, less_than}
use workspaced.Semver.Order.{less_than_asym, not-less_than_trans}
use workspaced.Resolution.{check_bin, latest_bin, package_bin, sort_versions}

-- No version is greater than an earlier one.
abbrev Descends : List Str → Type 0
Descends = AllPairs (λ v w. less_than (parse v) (parse w) ≡ false)

append-Descends :
    (vs : List Str) (w : Str)
    → Descends vs
    → All (λ v. less_than (parse v) (parse w) ≡ false) vs
    → Descends (vs ++ w ∷ [])
append-Descends [] w h k = (tt, tt)
append-Descends (v ∷ vs) w (hv, h) (kv, k) = (
  All-append (λ u. less_than (parse v) (parse u) ≡ false) vs (w ∷ []) hv (kv, tt),
  append-Descends vs w h k,
)

All-reverse : (P : Str → Type 0) (vs : List Str) → All P vs → All P (reverse vs)
All-reverse P [] h = tt
All-reverse P (v ∷ vs) (hv, h) =
    rw (reverse-cons v vs) (All-append P (reverse vs) (v ∷ []) (All-reverse P vs h) (hv, tt))

reverse-Descends :
    (vs : List Str) → IsSorted (λ v w. less_than (parse v) (parse w)) vs → Descends (reverse vs)
reverse-Descends [] h = tt
reverse-Descends (v ∷ vs) (hv, h) = rw (reverse-cons v vs) (
    append-Descends (reverse vs) v (reverse-Descends vs h)
      (All-reverse (λ u. less_than (parse u) (parse v) ≡ false) vs hv))

In-reverse : (v : Str) (vs : List Str) → In v (reverse vs) → In v vs
In-reverse v [] m = m
In-reverse v (w ∷ vs) m =
    elim (In-append-cases v (reverse vs) (w ∷ []) (subst (λ l. In v l) (reverse-cons w vs) m)) [
      | inl k ↦ inr (In-reverse v vs k)
      | inr (inl e) ↦ inl e
      | inr (inr k) ↦ elim k [ ]
    ]

In-reverse_of : (v : Str) (vs : List Str) → In v vs → In v (reverse vs)
In-reverse_of v [] m = m
In-reverse_of v (w ∷ vs) (inl e) =
    rw (reverse-cons w vs) (In-append_right v (reverse vs) (w ∷ []) (inl e))
In-reverse_of v (w ∷ vs) (inr m) =
    rw (reverse-cons w vs) (In-append_left v (reverse vs) (w ∷ []) (In-reverse_of v vs m))

-- The binary of a version of the list, where no greater version of the list has a binary.
abbrev pub IsLatest : (Str → Bool) → Str → Str → List Str → Str → Type 0
IsLatest exists pkg_dir tool vs bin =
    (v : Str) × In v vs
    × (check_bin exists (join pkg_dir v) tool ≡ bin)
    × ((w : Str)
        → In w vs
        → (check_bin exists (join pkg_dir w) tool ≡ []) ⊎ (less_than (parse v) (parse w) ≡ false))

not-less_than_self : (v : Str) → less_than (parse v) (parse v) ≡ false
not-less_than_self v = ground (arith, less_than_asym (parse v) (parse v))

module _ (exists : Str → Bool) (pkg_dir tool : Str) where
  -- A version is of no use: it has no binary, or is not greater than another.
  abbrev IsNoBetter : Str → Str → Type 0
  IsNoBetter v w =
      (check_bin exists (join pkg_dir w) tool ≡ []) ⊎ (less_than (parse v) (parse w) ≡ false)

  first-IsNoBetter :
      (v w : Str) (vs : List Str)
      → All (λ u. less_than (parse v) (parse u) ≡ false) vs
      → In w (v ∷ vs)
      → IsNoBetter v w
  first-IsNoBetter v w vs h (inl e) =
      inr (subst (λ u. less_than (parse v) (parse u) ≡ false) (sym e) (not-less_than_self v))
  first-IsNoBetter v w vs h (inr m) =
      inr (All-In (λ u. less_than (parse v) (parse u) ≡ false) w vs h m)

  rest-IsNoBetter :
      (u v w : Str) (vs : List Str)
      → check_bin exists (join pkg_dir v) tool ≡ []
      → ((x : Str) → In x vs → IsNoBetter u x)
      → In w (v ∷ vs)
      → IsNoBetter u w
  rest-IsNoBetter u v w vs bin h (inl e) =
      inl (subst (λ x. check_bin exists (join pkg_dir x) tool ≡ []) (sym e) bin)
  rest-IsNoBetter u v w vs bin h (inr m) = h w m

  latest_bin-IsLatest :
      (vs : List Str)
      → Descends vs
      → latest_bin exists pkg_dir tool vs ≢ []
      → IsLatest exists pkg_dir tool vs (latest_bin exists pkg_dir tool vs)
  unfolding latest_bin
  latest_bin-IsLatest [] h some_bin = absurd (some_bin refl)
  latest_bin-IsLatest (v ∷ vs) (hv, h) some_bin =
      elim (Bool-cases (str_eq (check_bin exists (join pkg_dir v) tool) [])) [
        | inl empty ↦
            let (u, m, bin, best) = latest_bin-IsLatest vs h (
              subst
                (λ b.
                  (if b
                    then latest_bin exists pkg_dir tool vs
                    else check_bin exists (join pkg_dir v) tool)
                  ≢ [])
                empty some_bin) in
            rw empty (
              u,
              inr m,
              bin,
              λ w k.
                  rest-IsNoBetter u v w vs
                    ((str_eq_iff (check_bin exists (join pkg_dir v) tool) []).0 empty) best k,
            )
        | inr found ↦ rw found (v, inl refl, refl, λ w k. first-IsNoBetter v w vs hv k)
      ]

-- "latest" is the binary of the greatest installed version of the package that has one: a package that
-- yields a binary yields that of an installed version, and no installed version with a binary is
-- greater, in whatever order the versions were listed.
pub package_bin-IsLatest :
    (exists : Str → Bool) (pkg_dir tool : Str) (installed : List Str)
    → package_bin exists pkg_dir tool (codes "latest") installed ≢ []
    → IsLatest exists pkg_dir tool installed
        (package_bin exists pkg_dir tool (codes "latest") installed)
unfolding package_bin sort_versions str_eq
package_bin-IsLatest exists pkg_dir tool installed some_bin =
    let sorted =
      Sort.sort-IsSorted (λ v w. less_than (parse v) (parse w))
        (λ v w. less_than_asym (parse v) (parse w))
        (λ u v w. not-less_than_trans (parse u) (parse v) (parse w)) installed in
    let (u, m, bin, best) =
      latest_bin-IsLatest exists pkg_dir tool (reverse (sort_versions installed))
        (reverse-Descends (sort_versions installed) sorted) some_bin in
    (
      u,
      Sort.In-sort (λ v w. less_than (parse v) (parse w)) u installed
          (In-reverse u (sort_versions installed) m),
      bin,
      λ w k. best w (
          In-reverse_of w (sort_versions installed)
            (Sort.In-sort_of (λ v w. less_than (parse v) (parse w)) w installed k)),
    )
