-- ===== src/Deployer/Store/Texts.antt =====
-- internal/deployer/state.go: the entries of the state file, and what JSON keeps of them.
use workspaced.Prelude.{
  true, AllPairs, ◌↔◌, List, [], ◌∷◌, Str, Option, some, str_eq, str_eq_iff, ◌≡◌, ◌≢◌, refl, ap,
  subst, arith, inl, inr, All, In, Bool-cases,
}
use workspaced.Prelude.GoMap
use workspaced.Prelude.GoMap.{GoMap, get-put}
use workspaced.Deployer.Types.{State, ManagedInfo}
use workspaced.Deployer.Store.{keys}
use workspaced.Taskgroup.Utf8.{is_text}

-- An entry that JSON keeps as it is.
abbrev pub IsTextEntry : Str × ManagedInfo → Type 0
IsTextEntry (k, info) = (is_text k ≡ true) × (is_text info.source_info ≡ true)

abbrev pub AreDistinct : List Str → Type 0
AreDistinct = AllPairs (λ k j. k ≢ j)

-- What JSON keeps: the text of a map of valid UTF-8 is read as the entries of the map, in any order.
abbrev pub KeepsTexts : (State → Str) → (Str → Option (Option State)) → Type 0
KeepsTexts marshal unmarshal =
    (m : State)
    → All IsTextEntry m
    → AreDistinct (keys m)
    → (n : State) × (unmarshal (marshal m) ≡ some (some n))
      × ((x : Str × ManagedInfo) → In x n ↔ In x m)

pub All-from : {A : Type 0} (P : A → Type 0) (xs : List A) → ((x : A) → In x xs → P x) → All P xs
All-from P [] h = tt
All-from P (x ∷ xs) h = (h x (inl refl), All-from P xs (λ y m. h y (inr m)))

pub key-entry : (r : Str) (m : State) → In r (keys m) → (info : ManagedInfo) × In (r, info) m
unfolding keys
key-entry r [] h = elim h [ ]
key-entry r ((k, i) ∷ m) (inl q) = (i, inl (ap (λ x. (x, i)) q))
key-entry r ((k, i) ∷ m) (inr h) = let (j, n) = key-entry r m h in (j, inr n)

pub entry-key : (r : Str) (info : ManagedInfo) (m : State) → In (r, info) m → In r (keys m)
unfolding keys
entry-key r info [] h = elim h [ ]
entry-key r info ((k, i) ∷ m) (inl q) = inl (ap (λ (x : Str × ManagedInfo). x.0) q)
entry-key r info ((k, i) ∷ m) (inr h) = inr (entry-key r info m h)

keys-put_other :
    (j r : Str) (info : ManagedInfo) (m : State)
    → j ≢ r
    → All (λ k. j ≢ k) (keys m)
    → All (λ k. j ≢ k) (keys (GoMap.put m r info))
unfolding keys GoMap.put
keys-put_other j r info [] ne h = (ne, tt)
keys-put_other j r info ((k, i) ∷ m) ne (hk, h) = elim (Bool-cases (str_eq k r)) [
  | inl q ↦ rw q (ne, h)
  | inr q ↦ rw q (hk, keys-put_other j r info m ne h)
]

pub put-AreDistinct :
    (r : Str) (info : ManagedInfo) (m : State)
    → AreDistinct (keys m)
    → AreDistinct (keys (GoMap.put m r info))
unfolding keys GoMap.put
put-AreDistinct r info [] h = (tt, tt)
put-AreDistinct r info ((k, i) ∷ m) (hk, h) = elim (Bool-cases (str_eq k r)) [
  | inl q ↦ rw q (subst (λ x. All (λ y. x ≢ y) (keys m)) ((str_eq_iff k r).0 q) hk, h)
  | inr q ↦ rw q (
    keys-put_other k r info m (λ x. ground (arith, x, q, str_eq_iff k r)) hk,
    put-AreDistinct r info m h,
  )
]
