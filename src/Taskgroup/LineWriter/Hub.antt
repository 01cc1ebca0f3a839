-- ===== src/Taskgroup/LineWriter/Hub.antt =====
-- pkg/taskgroup/linewriter.go: the order of the hub names exactly the rows that have a text.
use workspaced.Prelude.{
  arith, refl, ap, ◌≡◌, ℕ, suc, ◌+◌, ◌<◌, Bool, true, false, Option, none, some, List, [], ◌∷◌,
  ◌++◌, if◌then◌else◌, Str, str_eq, str_eq_iff, str_eq_refl, inl, inr, Option-cases, Bool-cases,
}
use workspaced.Prelude.GoMap
use workspaced.Prelude.GoMap.{GoMap}
use workspaced.Taskgroup.LineWriter.{
  LiveHub, without, drop_locked, set_row, LineWriter, write_row, close, closed_pipe,
}

drop_locked-get :
    (id : Str) (h : LiveHub) (j : Str)
    → GoMap.get (drop_locked id h).slots j ≡ (if str_eq id j then none else GoMap.get h.slots j)
unfolding drop_locked
drop_locked-get id h j = ground (arith, GoMap.get-remove h.slots id j, str_eq_iff id j)

-- A closed writer stays as it is: closing it again changes nothing, a write fails and changes nothing,
-- and the hub shows no row of it.
pub close_final :
    (w : LineWriter) (p : Str)
    → w.closed ≡ false
    → (close (close w) ≡ close w)
      × (write_row p (close w) ≡ some (closed_pipe, close w))
      × (GoMap.get (close w).hub.slots w.id ≡ none)
unfolding close write_row
close_final w p e = rw (e) (refl, refl, rw (drop_locked-get w.id w.hub w.id, str_eq_refl w.id) refl)

-- Where an id stands in an order, counted.
unfoldable pub count_id : Str → List Str → ℕ
count_id id [] = 0
count_id id (x ∷ xs) = if str_eq x id then suc (count_id id xs) else count_id id xs

abbrev pub slot_count : Option (List ℕ) → ℕ
slot_count none = 0
slot_count (some text) = 1

-- Each id stands once in the order if it has a slot, and not at all otherwise.
abbrev pub IsTracked : LiveHub → Type 0
IsTracked h = (j : Str) → count_id j h.order ≡ slot_count (GoMap.get h.slots j)

count_id-append :
    (j : Str) (xs : List Str) (id : Str)
    → count_id j (xs ++ id ∷ []) ≡ count_id j xs + (if str_eq id j then 1 else 0)
unfolding count_id
count_id-append j [] id = ground arith
count_id-append j (x ∷ xs) id = ground (arith, count_id-append j xs id)

count_id-without :
    (j id : Str) (xs : List Str)
    → 0 < count_id id xs
    → count_id j (without id xs) + (if str_eq id j then 1 else 0) ≡ count_id j xs
unfolding count_id without
count_id-without j id [] h = ground arith
count_id-without j id (x ∷ xs) h = elim (Bool-cases (str_eq x id)) [
  | inl e ↦ ground (arith, str_eq_iff x id, str_eq_iff x j, str_eq_iff id j)
  | inr e ↦ ground (
    arith,
    count_id-without j id xs (ground arith),
    str_eq_iff x id,
    str_eq_iff x j,
    str_eq_iff id j,
  )
]

removed :
    (h : LiveHub) (id j : Str)
    → IsTracked h
    → count_id id h.order ≡ 1
    → (b : Bool) → str_eq id j ≡ b
    → count_id j (without id h.order) ≡ slot_count (if b then none else GoMap.get h.slots j)
removed h id j t one true e =
    let same : count_id id h.order ≡ count_id j h.order =
      ap (λ k. count_id k h.order) ((str_eq_iff id j).0 e) in
    let taken : count_id j (without id h.order) + (if str_eq id j then 1 else 0)
        ≡ count_id j h.order =
      count_id-without j id h.order (omega arith) in
    let full : count_id j (without id h.order) + 1 ≡ count_id j h.order = rw (e) at taken in
    omega arith
removed h id j t one false e =
    let taken : count_id j (without id h.order) + (if str_eq id j then 1 else 0)
        ≡ count_id j h.order =
      count_id-without j id h.order (omega arith) in
    let full : count_id j (without id h.order) + 0 ≡ count_id j h.order = rw (e) at taken in
    omega (arith, t j)

drop_locked-IsTracked : (id : Str) (h : LiveHub) → IsTracked h → IsTracked (drop_locked id h)
unfolding drop_locked
drop_locked-IsTracked id h t j = elim (Option-cases (GoMap.get h.slots id)) [
  | inl e ↦ rw (e) (t j)
  | inr (text, e) ↦ rw (e) (
      rw (GoMap.get-remove h.slots id j)
        (removed h id j t (ground (arith, t id, ap slot_count e)) (str_eq id j) refl))
]

added :
    (h : LiveHub) (id j : Str) (text : List ℕ)
    → IsTracked h
    → slot_count (GoMap.get h.slots id) ≡ 0
    → (b : Bool) → str_eq id j ≡ b
    → count_id j h.order + (if b then 1 else 0)
      ≡ slot_count (if b then some text else GoMap.get h.slots j)
added h id j text t none_yet true e =
    let same : count_id id h.order ≡ count_id j h.order =
      ap (λ k. count_id k h.order) ((str_eq_iff id j).0 e) in
    omega (arith, t id)
added h id j text t none_yet false e = omega (arith, t j)

kept :
    (h : LiveHub) (id j : Str) (text : List ℕ)
    → IsTracked h
    → slot_count (GoMap.get h.slots id) ≡ 1
    → (b : Bool) → str_eq id j ≡ b
    → count_id j h.order ≡ slot_count (if b then some text else GoMap.get h.slots j)
kept h id j text t one true e =
    let same : count_id id h.order ≡ count_id j h.order =
      ap (λ k. count_id k h.order) ((str_eq_iff id j).0 e) in
    omega (arith, t id)
kept h id j text t one false e = t j

-- Setting a row, with a text or with none, keeps the hub's order and its slots in step: an id stands in
-- the order exactly once while it has a text, and not at all otherwise.
pub set_row-IsTracked :
    (id : Str) (text : List ℕ) (h : LiveHub) → IsTracked h → IsTracked (set_row id text h)
unfolding set_row
set_row-IsTracked id [] h t j = drop_locked-IsTracked id h t j
set_row-IsTracked id (r ∷ text) h t j =
    rw (GoMap.get-put h.slots id (r ∷ text) j) (elim (Option-cases (GoMap.get h.slots id)) [
      | inl e ↦ rw (e) (
          rw (count_id-append j h.order id)
            (added h id j (r ∷ text) t (ap slot_count e) (str_eq id j) refl))
      | inr (old, e) ↦ rw (e) (kept h id j (r ∷ text) t (ap slot_count e) (str_eq id j) refl)
    ])
