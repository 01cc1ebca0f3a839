-- ===== src/Taskgroup/Group/Runs/Entries.antt =====
-- pkg/taskgroup/taskgroup.go: what is known of each task, by how far its goroutine is.
use workspaced.Prelude.{
  arith, ◌≡◌, refl, sym, subst, Bool, true, false, Option, none, some, List, [], ◌∷◌, ◌++◌, All,
  Str, str_eq, str_eq_iff, if◌then◌else◌, Bool-cases, inl, inr,
}
use workspaced.Prelude.GoMap
use workspaced.Prelude.GoMap.{GoMap}
use workspaced.Taskgroup.Collection.{Pin}
use workspaced.Taskgroup.Group.{
  Point, start, waiting, working, releasing, finishing, ended, TaskEntry, is_unresolved, done,
}
use workspaced.Taskgroup.Group.Runs.{
  is_start, is_working, is_releasing, is_finishing, is_at_slot, next_dep,
}

-- The task of a pin has finished without an error.
abbrev pub IsSettled : GoMap TaskEntry → Pin → Type 0
IsSettled m p = (d : TaskEntry) × (GoMap.get m p.id ≡ some d) × (d.closed ≡ true) × (d.err ≡ none)

-- Every dependency was found, and has finished without an error.
abbrev pub IsReady : GoMap TaskEntry → TaskEntry → Type 0
IsReady m t = (is_unresolved t ≡ false) × All (IsSettled m) t.resolved_deps

abbrev pub Succeeded : GoMap TaskEntry → TaskEntry → Type 0
Succeeded m t = t.err ≡ none → IsReady m t × (t.state ≡ done)

abbrev pub IsSoundAt : GoMap TaskEntry → Point → TaskEntry → Type 0
IsSoundAt m start t = (t.closed ≡ false) × (t.err ≡ none)
IsSoundAt m (waiting ps) t =
    (t.closed ≡ false)
    × (t.err ≡ none)
    × (is_unresolved t ≡ false)
    × ((qs : List Pin) × (t.resolved_deps ≡ qs ++ ps) × All (IsSettled m) qs)
IsSoundAt m working t = (t.closed ≡ false) × (t.err ≡ none) × IsReady m t
IsSoundAt m releasing t = (t.closed ≡ false) × Succeeded m t
IsSoundAt m finishing t = (t.closed ≡ false) × Succeeded m t
IsSoundAt m ended t = (t.closed ≡ true) × Succeeded m t

-- What holds of an entry, if there is one.
abbrev pub OnSome : (TaskEntry → Type 0) → Option TaskEntry → Type 0
OnSome P none = Unit
OnSome P (some t) = P t

abbrev pub IsSound : GoMap TaskEntry → Type 0
IsSound m = (id : Str) → OnSome (λ t. IsSoundAt m t.point t) (GoMap.get m id)

-- Finished tasks stay as they are.
abbrev pub Extends : GoMap TaskEntry → GoMap TaskEntry → Type 0
Extends m m' =
    (id : Str) (d : TaskEntry)
    → GoMap.get m id ≡ some d
    → d.closed ≡ true
    → GoMap.get m' id ≡ some d

IsSettled-mono : (m m' : GoMap TaskEntry) (p : Pin) → Extends m m' → IsSettled m p → IsSettled m' p
IsSettled-mono m m' p x (d, e, c, n) = (d, x p.id d e c, c, n)

All-IsSettled_mono :
    (m m' : GoMap TaskEntry) (ps : List Pin)
    → Extends m m'
    → All (IsSettled m) ps
    → All (IsSettled m') ps
All-IsSettled_mono m m' [] x h = tt
All-IsSettled_mono m m' (p ∷ ps) x (h, hs) =
    (IsSettled-mono m m' p x h, All-IsSettled_mono m m' ps x hs)

Succeeded-mono :
    (m m' : GoMap TaskEntry) (t : TaskEntry) → Extends m m' → Succeeded m t → Succeeded m' t
Succeeded-mono m m' t x h n =
    let ((full, settled), e) = h n in ((full, All-IsSettled_mono m m' t.resolved_deps x settled), e)

pub IsSoundAt-mono :
    (m m' : GoMap TaskEntry) (pt : Point) (t : TaskEntry)
    → Extends m m'
    → IsSoundAt m pt t
    → IsSoundAt m' pt t
IsSoundAt-mono m m' start t x h = h
IsSoundAt-mono m m' (waiting ps) t x (c, n, full, (qs, e, settled)) =
    (c, n, full, (qs, e, All-IsSettled_mono m m' qs x settled))
IsSoundAt-mono m m' working t x (c, n, (full, settled)) =
    (c, n, (full, All-IsSettled_mono m m' t.resolved_deps x settled))
IsSoundAt-mono m m' releasing t x (c, h) = (c, Succeeded-mono m m' t x h)
IsSoundAt-mono m m' finishing t x (c, h) = (c, Succeeded-mono m m' t x h)
IsSoundAt-mono m m' ended t x (c, h) = (c, Succeeded-mono m m' t x h)

-- The task of an id, if there is one, has not finished.
abbrev pub IsOpen : Option TaskEntry → Type 0
IsOpen none = Unit
IsOpen (some t) = t.closed ≡ false

pub Extends-put :
    (m : GoMap TaskEntry) (id : Str) (u : TaskEntry)
    → IsOpen (GoMap.get m id)
    → Extends m (GoMap.put m id u)
Extends-put m id u o j d e c = rw (GoMap.get-put m id u j) (elim (Bool-cases (str_eq id j)) [
  | inr ne ↦ rw (ne) e
  | inl same ↦
      let open_j : IsOpen (GoMap.get m j) =
        subst (λ k. IsOpen (GoMap.get m k)) ((str_eq_iff id j).0 same) o in
      let open_d : d.closed ≡ false = subst IsOpen e open_j in absurd (ground (arith, c, open_d))
])

on_if :
    (P : TaskEntry → Type 0) (b : Bool) (x y : Option TaskEntry)
    → (b ≡ true → OnSome P x)
    → (b ≡ false → OnSome P y)
    → OnSome P (if b then x else y)
on_if P true x y h k = h refl
on_if P false x y h k = k refl

OnSome-mono :
    (P Q : TaskEntry → Type 0) (o : Option TaskEntry)
    → ((t : TaskEntry) → P t → Q t)
    → OnSome P o
    → OnSome Q o
OnSome-mono P Q none f h = tt
OnSome-mono P Q (some t) f h = f t h

-- Replacing an unfinished task by a sound one keeps all sound.
pub IsSound-put :
    (m : GoMap TaskEntry) (id : Str) (u : TaskEntry)
    → IsSound m
    → IsOpen (GoMap.get m id)
    → (Extends m (GoMap.put m id u) → IsSoundAt (GoMap.put m id u) u.point u)
    → IsSound (GoMap.put m id u)
IsSound-put m id u sound o fresh j =
    let x = Extends-put m id u o in
    subst (OnSome (λ t. IsSoundAt (GoMap.put m id u) t.point t)) (sym (GoMap.get-put m id u j)) (
      on_if _ (str_eq id j) (some u) (GoMap.get m j) (λ _. fresh x)
        (λ _.
          OnSome-mono (λ t. IsSoundAt m t.point t) (λ t. IsSoundAt (GoMap.put m id u) t.point t)
            (GoMap.get m j) (λ t. IsSoundAt-mono m (GoMap.put m id u) t.point t x) (sound j)))

-- What is known at a point that a test finds.
module _ (m : GoMap TaskEntry) (t : TaskEntry) where
  pub at_start : (pt : Point) → is_start pt ≡ true → IsSoundAt m pt t → IsSoundAt m start t
  at_start start e h = h
  at_start (waiting ps) e h = absurd (ground (arith, e))
  at_start working e h = absurd (ground (arith, e))
  at_start releasing e h = absurd (ground (arith, e))
  at_start finishing e h = absurd (ground (arith, e))
  at_start ended e h = absurd (ground (arith, e))

  pub at_slot : (pt : Point) → is_at_slot pt ≡ true → IsSoundAt m pt t → IsSoundAt m (waiting []) t
  at_slot start e h = absurd (ground (arith, e))
  at_slot (waiting []) e h = h
  at_slot (waiting (p ∷ ps)) e h = absurd (ground (arith, e))
  at_slot working e h = absurd (ground (arith, e))
  at_slot releasing e h = absurd (ground (arith, e))
  at_slot finishing e h = absurd (ground (arith, e))
  at_slot ended e h = absurd (ground (arith, e))

  pub at_work : (pt : Point) → is_working pt ≡ true → IsSoundAt m pt t → IsSoundAt m working t
  at_work start e h = absurd (ground (arith, e))
  at_work (waiting ps) e h = absurd (ground (arith, e))
  at_work working e h = h
  at_work releasing e h = absurd (ground (arith, e))
  at_work finishing e h = absurd (ground (arith, e))
  at_work ended e h = absurd (ground (arith, e))

  pub at_release :
      (pt : Point) → is_releasing pt ≡ true → IsSoundAt m pt t → IsSoundAt m releasing t
  at_release start e h = absurd (ground (arith, e))
  at_release (waiting ps) e h = absurd (ground (arith, e))
  at_release working e h = absurd (ground (arith, e))
  at_release releasing e h = h
  at_release finishing e h = absurd (ground (arith, e))
  at_release ended e h = absurd (ground (arith, e))

  pub at_finish : (pt : Point) → is_finishing pt ≡ true → IsSoundAt m pt t → IsSoundAt m finishing t
  at_finish start e h = absurd (ground (arith, e))
  at_finish (waiting ps) e h = absurd (ground (arith, e))
  at_finish working e h = absurd (ground (arith, e))
  at_finish releasing e h = absurd (ground (arith, e))
  at_finish finishing e h = h
  at_finish ended e h = absurd (ground (arith, e))

  pub at_dep :
      (pt : Point) (p : Pin) (ps : List Pin)
      → next_dep pt ≡ some (p, ps)
      → IsSoundAt m pt t
      → IsSoundAt m (waiting (p ∷ ps)) t
  at_dep start p ps e h = absurd (ground (arith, e))
  at_dep (waiting []) p ps e h = absurd (ground (arith, e))
  at_dep (waiting (q ∷ qs)) p ps e h =
      subst (λ rs. IsSoundAt m (waiting rs) t) (ground (arith, e)) h
  at_dep working p ps e h = absurd (ground (arith, e))
  at_dep releasing p ps e h = absurd (ground (arith, e))
  at_dep finishing p ps e h = absurd (ground (arith, e))
  at_dep ended p ps e h = absurd (ground (arith, e))
