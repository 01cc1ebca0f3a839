-- ===== src/Driver/Choice.antt =====
-- pkg/driver/driver.go: which driver Get takes.
pub mod Get
pub mod Forced
pub mod Cached
pub mod Registered
use workspaced.Prelude.{
  arith, ℕ, ◌≡◌, ◌≢◌, refl, sym, ap, subst, ◌∙◌, Bool, true, false, not, ◌&&◌, Option, none, some,
  List, [], ◌∷◌, ◌==◌, ltb, if◌then◌else◌, Str, str_eq, str_eq_iff, str_eq_refl, str_lt,
  str_lt_asym, str_lt_irrefl, str_lt_total, not-str_lt_trans, All, AllPairs, In, All-In,
  AllPairs-In, Bool-cases, Option-cases, inl, inr, ◌⊎◌, ==_iff,
}
use workspaced.Prelude.GoMap
use workspaced.Prelude.GoMap.{GoMap}
use workspaced.Prelude.Sort
use workspaced.Prelude.Sort.{IsSorted}
use workspaced.Driver.{
  Factory, Registry, precedes, effective_weight, cached_check, Made, made, broken, Refusal, Outcome,
  selected, not_found, unavailable, refuse, pick, after_check, after_create, get_driver, pick_any,
  factories, weights_or_nil,
}

abbrev key_less : ℕ → Str → ℕ → Str → Bool
key_less w s v t = if w == v then str_lt s t else ltb v w

key_less-asym :
    (w : ℕ) (s : Str) (v : ℕ) (t : Str) → key_less w s v t ≡ true → key_less v t w s ≡ false
key_less-asym w s v t h = ground (arith, str_lt_asym s t)

key_less_trans :
    (w : ℕ) (s : Str) (v : ℕ) (t : Str) (u : ℕ) (r : Str)
    → key_less v t w s ≡ false
    → key_less u r v t ≡ false
    → key_less u r w s ≡ false
key_less_trans w s v t u r h k = ground (arith, not-str_lt_trans s t r)

key_less_total :
    (w : ℕ) (s : Str) (v : ℕ) (t : Str)
    → key_less w s v t ≡ false
    → key_less v t w s ≡ false
    → s ≡ t
key_less_total w s v t h k = ground (arith, str_lt_total s t)

module _ (forced : Str) (weights : GoMap ℕ) where
  abbrev weight : Factory → ℕ
  weight f = effective_weight forced weights f.id

  precedes-asym :
      (f g : Factory) → precedes forced weights f g ≡ true → precedes forced weights g f ≡ false
  unfolding precedes
  precedes-asym f g h = key_less-asym (weight f) f.id (weight g) g.id h

  precedes_trans :
      (f g h : Factory)
      → precedes forced weights g f ≡ false
      → precedes forced weights h g ≡ false
      → precedes forced weights h f ≡ false
  unfolding precedes
  precedes_trans f g h p q = key_less_trans (weight f) f.id (weight g) g.id (weight h) h.id p q

  pub precedes_total :
      (f g : Factory)
      → precedes forced weights f g ≡ false
      → precedes forced weights g f ≡ false
      → f.id ≡ g.id
  unfolding precedes
  precedes_total f g p q = key_less_total (weight f) f.id (weight g) g.id p q

  pub precedes_irrefl : (f : Factory) → precedes forced weights f f ≡ false
  unfolding precedes
  precedes_irrefl f = ground (arith, str_lt_irrefl f.id)

  pub sort-precedes-IsSorted :
      (fs : List Factory)
      → IsSorted (precedes forced weights) (Sort.sort (precedes forced weights) fs)
  sort-precedes-IsSorted = Sort.sort-IsSorted (precedes forced weights) precedes-asym precedes_trans

-- The ids of the factories of an interface are distinct, as Register sees to.
abbrev pub AreDistinct : List Factory → Type 0
AreDistinct = AllPairs (λ f g. f.id ≢ g.id)

-- What the check of a driver says to Get: a result that is cached stays.
unfoldable pub verdict : (Factory → Option Str) → GoMap (Option Str) → Factory → Option Str
verdict check cache f = elim (GoMap.get cache f.id) [ none ↦ check f | some seen ↦ seen ]

pub Made-cases : {I : Type 0} (m : Made I) → ((i : I) × (m ≡ made i)) ⊎ ((e : Str) × (m ≡ broken e))
Made-cases (made i) = inl (i, refl)
Made-cases (broken e) = inr (e, refl)

module _ {I : Type 0} (check : Factory → Option Str) (create : Factory → Made I) where
  unfoldable pub checked : Factory → GoMap (Option Str) → GoMap (Option Str)
  unfolding cached_check
  checked f cache = (cached_check f.id (check f) cache).1

  verdict-checked :
      (cache : GoMap (Option Str)) (f g : Factory)
      → f.id ≢ g.id
      → verdict check (checked f cache) g ≡ verdict check cache g
  unfolding verdict checked cached_check
  verdict-checked cache f g ne =
      ground (arith, GoMap.get-put cache f.id (check f) g.id, str_eq_iff f.id g.id)

  cached-verdict :
      (f : Factory) (cache : GoMap (Option Str))
      → (cached_check f.id (check f) cache).0 ≡ verdict check cache f
  unfolding verdict cached_check
  cached-verdict f cache = ground arith

  pub pick-step :
      (f : Factory) (fs : List Factory) (cache : GoMap (Option Str))
      → pick check create (f ∷ fs) cache
        ≡ after_check check create f
            (verdict check cache f)
            (checked f cache)
            (pick check create fs (checked f cache))
  unfolding pick checked
  pick-step f fs cache =
      ap
        (λ v.
          after_check check create f v (checked f cache) (pick check create fs (checked f cache)))
        (cached-verdict f cache)

  -- The driver can be used, and gives the instance.
  abbrev pub Gives : GoMap (Option Str) → Factory → I → Type 0
  Gives cache f i = (verdict check cache f ≡ none) × (create f ≡ made i)

  -- The outcome is the instance of the best driver of those that can be used, if there is one.
  abbrev pub IsBest :
      (Factory → Factory → Bool) → GoMap (Option Str) → List Factory → Outcome I → Type 0
  IsBest less cache fs (selected i) =
      (f : Factory) × In f fs
      × Gives cache f i
      × ((g : Factory) (j : I) → In g fs → Gives cache g j → less g f ≡ false)
  IsBest less cache fs not_found = (g : Factory) (j : I) → In g fs → Gives cache g j → ⊥
  IsBest less cache fs (unavailable rs) = (g : Factory) (j : I) → In g fs → Gives cache g j → ⊥

  module _ (less : Factory → Factory → Bool) where
    later :
        (cache : GoMap (Option Str)) (f g : Factory) (j : I)
        → f.id ≢ g.id
        → Gives cache g j
        → Gives (checked f cache) g j
    later cache f g j ne (v, m) = (verdict-checked cache f g ne ∙ v, m)

    others :
        (cache : GoMap (Option Str)) (f : Factory) (fs : List Factory) (P : Factory → Type 0)
        → All (λ g. f.id ≢ g.id) fs
        → ((i : I) → Gives cache f i → P f)
        → ((g : Factory) (j : I) → In g fs → Gives (checked f cache) g j → P g)
        → (g : Factory) (j : I) → In g (f ∷ fs)
        → Gives cache g j
        → P g
    others cache f fs P apart here h g j (inl e) gives =
        subst P (sym e) (here j (subst (λ x. Gives cache x j) e gives))
    others cache f fs P apart here h g j (inr m) gives =
        h g j m (later cache f g j (All-In (λ g. f.id ≢ g.id) g fs apart m) gives)

    refused-IsBest :
        (cache : GoMap (Option Str)) (f : Factory) (fs : List Factory) (r : Refusal)
        (o : Outcome I × GoMap (Option Str))
        → ((i : I) → Gives cache f i → ⊥)
        → All (λ g. f.id ≢ g.id) fs
        → IsBest less (checked f cache) fs o.0
        → IsBest less cache (f ∷ fs) (refuse r o).0
    refused-IsBest cache f fs r (selected i, c) bad apart (k, m, (v, n), best) = (
      k,
      inr m,
      (sym (verdict-checked cache f k (All-In (λ g. f.id ≢ g.id) k fs apart m)) ∙ v, n),
      others cache f fs (λ g. less g k ≡ false) apart (λ i gives. absurd (bad i gives)) best,
    )
    refused-IsBest cache f fs r (not_found, c) bad apart h = others cache f fs (λ g. ⊥) apart bad h
    refused-IsBest cache f fs r (unavailable rs, c) bad apart h =
        others cache f fs (λ g. ⊥) apart bad h

    pub pick-IsBest :
        (fs : List Factory) (cache : GoMap (Option Str))
        → IsSorted less fs
        → AreDistinct fs
        → ((f : Factory) → less f f ≡ false)
        → IsBest less cache fs (pick check create fs cache).0
    unfolding pick
    pick-IsBest [] cache s d irr = λ g j m. elim m [ ]
    pick-IsBest (f ∷ fs) cache (first, s) (apart, d) irr =
        let ih = pick-IsBest fs (checked f cache) s d irr in
        rw (pick-step f fs cache) (elim (Option-cases (verdict check cache f)) [
          | inr (e, v) ↦
              rw (v)
                (refused-IsBest cache f fs _ _ (λ i gives. ground (arith, v, gives.0)) apart ih)
          | inl v ↦ elim (Made-cases (create f)) [
            | inr (e, m) ↦
                rw (v, m)
                  (refused-IsBest cache f fs _ _ (λ i gives. ground (arith, m, gives.1)) apart ih)
            | inl (i, m) ↦
                rw (v, m)
                  (
                    f,
                    inl refl,
                    (v, m),
                    λ g j n gives. elim n [
                      | inl e ↦ subst (λ x. less x f ≡ false) (sym e) (irr f)
                      | inr k ↦ All-In (λ b. less b f ≡ false) g fs first k
                    ],
                  )
          ]
        ])
