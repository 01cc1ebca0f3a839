-- ===== src/Source/Conflict.antt =====
-- The strict conflict resolver lets pass exactly the lists of files with different targets.
use workspaced.Prelude.{
  none, some, List, [], ◌∷◌, str_eq_iff, ◌≡◌, ◌≢◌, ◌↔◌, refl, arith, All, AllPairs, Option-cases,
  inl, inr,
}
use workspaced.Prelude.GoMap
use workspaced.Prelude.GoMap.{GoMap, get-put}
use workspaced.Os.{Result, ok, err, ◌>>=◌}
use workspaced.Source.{File, target}
use workspaced.Source.Pipeline.{resolve_from, resolve_strict}

abbrev pub HaveOwnTargets : List File → Type 0
HaveOwnTargets = AllPairs (λ f g. target f ≢ target g)

abbrev IsFree : GoMap File → File → Type 0
IsFree owned f = GoMap.get owned (target f) ≡ none

resolve_step :
    (owned : GoMap File) (f : File) (fs : List File)
    → IsFree owned f
    → resolve_from owned (f ∷ fs) ≡ resolve_from (GoMap.put owned (target f) f) fs
unfolding resolve_from
resolve_step owned f fs h = rw (h, resolve_from)

resolve_taken :
    (owned : GoMap File) (f g : File) (fs : List File)
    → GoMap.get owned (target f) ≡ some g
    → resolve_from owned (f ∷ fs) ≢ ok tt
unfolding resolve_from
resolve_taken owned f g fs h = rw (h, resolve_from) (λ e. cc)

still-IsFree :
    (owned : GoMap File) (f : File) (gs : List File)
    → All (IsFree (GoMap.put owned (target f) f)) gs
    → All (IsFree owned) gs × All (λ g. target f ≢ target g) gs
still-IsFree owned f [] h = (tt, tt)
still-IsFree owned f (g ∷ gs) (hg, h) =
    let (a, b) = still-IsFree owned f gs h in
    (
      (ground (arith, get-put owned (target f) f (target g)), a),
      (
        (λ e. absurd (
            ground
              (arith, get-put owned (target f) f (target g), str_eq_iff (target f) (target g)))),
        b,
      ),
    )

now_taken :
    (owned : GoMap File) (f : File) (gs : List File)
    → All (IsFree owned) gs
    → All (λ g. target f ≢ target g) gs
    → All (IsFree (GoMap.put owned (target f) f)) gs
now_taken owned f [] h k = tt
now_taken owned f (g ∷ gs) (hg, h) (kg, k) = (
  ground (arith, get-put owned (target f) f (target g), str_eq_iff (target f) (target g)),
  now_taken owned f gs h k,
)

resolve_sound :
    (owned : GoMap File) (fs : List File)
    → resolve_from owned fs ≡ ok tt
    → All (IsFree owned) fs × HaveOwnTargets fs
resolve_sound owned [] h = (tt, tt)
resolve_sound owned (f ∷ fs) h = elim (Option-cases (GoMap.get owned (target f))) [
  | inl e ↦
      let (a, b) =
        resolve_sound (GoMap.put owned (target f) f) fs (rw (resolve_step owned f fs e) at h) in
      let (x, y) = still-IsFree owned f fs a in ((e, x), (y, b))
  | inr (g, e) ↦ absurd (resolve_taken owned f g fs e h)
]

resolve_complete :
    (owned : GoMap File) (fs : List File)
    → All (IsFree owned) fs
    → HaveOwnTargets fs
    → resolve_from owned fs ≡ ok tt
resolve_complete owned [] h k = unfold resolve_from in refl
resolve_complete owned (f ∷ fs) (hf, h) (kf, k) =
    rw (resolve_step owned f fs hf)
      (resolve_complete (GoMap.put owned (target f) f) fs (now_taken owned f fs h kf) k)

all-IsFree : (fs : List File) → All (IsFree []) fs
unfolding GoMap.get
all-IsFree [] = tt
all-IsFree (f ∷ fs) = (refl, all-IsFree fs)

-- The resolver returns its files unchanged exactly if no two of them have one target.
pub resolve_strict_iff : (fs : List File) → (resolve_strict fs ≡ ok fs) ↔ HaveOwnTargets fs
resolve_strict_iff fs = (
  λ h. (resolve_sound [] fs (passed (resolve_from [] fs) (unfold resolve_strict in h))).1,
  λ h. unfold resolve_strict in rw (resolve_complete [] fs (all-IsFree fs) h),
)
  where
    passed : (r : Result Unit) → (r >>= λ _. ok fs) ≡ ok fs → r ≡ ok tt
    passed (ok x) e = refl
    passed (err x) e = cc
