-- ===== src/Taskgroup/Map/Returned.antt =====
-- pkg/taskgroup/taskgroup.go and map.go: a task that is done has returned, and what returns write.
use workspaced.Prelude.{
  arith, ℕ, ◌≡◌, ◌≢◌, ◌⊎◌, inl, inr, refl, sym, ap, subst, ◌∙◌, Bool, true, false, ◌||◌, Option,
  none, some, List, [], ◌∷◌, map, Str, str_eq, str_eq_iff, str_eq_ne, All, AllPairs, Bool-cases,
  length, replicate,
}
use workspaced.Prelude.GoMap
use workspaced.Prelude.GoMap.{GoMap}
use workspaced.Taskgroup.Collection.{Pin}
use workspaced.Taskgroup.Group.{
  releasing, PoolKind, State, pending, running, done, failed, TaskEntry, TaskError, Group, Limits,
  schedule, check_deps, dep_done, give_up, begin_work, end_work, give_back, finish_task, set_error,
  record_error, is_unresolved,
}
use workspaced.Taskgroup.Group.Runs.{
  Event, go, check, dep_ready, dep_canceled, take_slot, slot_canceled, returns, frees, finishes,
  cancel, step, guard, Gives, guard-Gives, with_entry-Gives, with_dep-Gives, run_events, and_then,
  Gives-some, next_dep,
}
use workspaced.Taskgroup.Map.{
  Child, one_further, place_of, set_at, written, write_result, fill, results,
}

abbrev is_done_state : State → Bool
is_done_state pending = false
is_done_state running = false
is_done_state done = true
is_done_state failed = false

abbrev pub is_done : Option TaskEntry → Bool
is_done none = false
is_done (some t) = is_done_state t.state

-- The function of the task returns without an error.
unfoldable pub is_return : Str → Event → Bool
is_return id (returns j none) = str_eq j id
is_return id _ = false

unfoldable pub has_returned : Str → List Event → Bool
unfolding is_return
has_returned id [] = false
has_returned id (e ∷ es) = is_return id e || has_returned id es

module _ (id : Str) where
  -- If the task is done now, it was before the event, or the event is its return.
  abbrev Stems : Event → Group → Group → Type 0
  Stems e g g' =
      is_done (GoMap.get g'.tasks id) ≡ true
      → (is_done (GoMap.get g.tasks id) ≡ true) ⊎ (is_return id e ≡ true)

  put-done :
      (m : GoMap TaskEntry) (j : Str) (u : TaskEntry)
      → (is_done_state u.state ≡ true → is_done (GoMap.get m j) ≡ true)
      → is_done (GoMap.get (GoMap.put m j u) id) ≡ true
      → is_done (GoMap.get m id) ≡ true
  put-done m j u k h = elim (Bool-cases (str_eq j id)) [
    | inl e ↦
        subst (λ x. is_done (GoMap.get m x) ≡ true) ((str_eq_iff j id).0 e)
          (k (rw (GoMap.get-put m j u id, e) at h))
    | inr ne ↦ rw (GoMap.get-put m j u id, ne) at h
  ]

  module _ (g : Group) (j : Str) (t : TaskEntry) (e : GoMap.get g.tasks j ≡ some t) where
    keeps_done :
        (u : TaskEntry)
        → (is_done_state u.state ≡ true → is_done_state t.state ≡ true)
        → is_done (GoMap.get (GoMap.put g.tasks j u) id) ≡ true
        → is_done (GoMap.get g.tasks id) ≡ true
    keeps_done u k = put-done g.tasks j u (λ d. ap is_done e ∙ k d)

    check_deps-Stems : Stems (check j) g (check_deps j t g)
    unfolding check_deps record_error set_error
    check_deps-Stems = elim (Bool-cases (is_unresolved t)) [
      | inl q ↦ rw q (λ h. inl (keeps_done _ (λ d. ground (arith, d)) h))
      | inr q ↦ rw q (λ h. inl (keeps_done _ (λ d. d) h))
    ]

    end_work-Stems : (r : Option TaskError) → Stems (returns j r) g (end_work j t r g)
    unfolding end_work record_error set_error is_return
    end_work-Stems none h = elim (Bool-cases (str_eq j id)) [
      | inl q ↦ inr q
      | inr q ↦
          inl
            (rw (GoMap.get-put g.tasks j (record t { state = done; point = releasing }) id, q) at h)
    ]
    end_work-Stems (some x) h = inl (keeps_done _ (λ d. ground (arith, d)) h)

  go-Stems :
      (j desc : Str) (pool : PoolKind) (deps : List Str) (g : Group)
      → Stems (go j desc pool deps) g (schedule j desc pool deps g)
  unfolding schedule
  go-Stems j desc pool deps g h = inl (put-done g.tasks j _ (λ d. ground (arith, d)) h)

  module _ (g : Group) (j : Str) (t : TaskEntry) (e : GoMap.get g.tasks j ≡ some t) where
    dep_done-Stems :
        (p : Pin) (ps : List Pin) (r : Option TaskError)
        → Stems (dep_ready j) g (dep_done j t p ps r g)
    unfolding dep_done set_error record_error
    dep_done-Stems p ps none h = inl (keeps_done g j t e _ (λ d. d) h)
    dep_done-Stems p ps (some x) h = inl (keeps_done g j t e _ (λ d. ground (arith, d)) h)

    give_up-Stems : (ev : Event) → Stems ev g (give_up j t g)
    unfolding give_up set_error
    give_up-Stems ev h = inl (keeps_done g j t e _ (λ d. ground (arith, d)) h)

    begin_work-Stems : (ev : Event) → Stems ev g (begin_work j t g)
    unfolding begin_work
    begin_work-Stems ev h = inl (keeps_done g j t e _ (λ d. ground (arith, d)) h)

    give_back-Stems : (ev : Event) → Stems ev g (give_back j t g)
    unfolding give_back
    give_back-Stems ev h = inl (keeps_done g j t e _ (λ d. d) h)

    finish_task-Stems : (ev : Event) → Stems ev g (finish_task j t g)
    unfolding finish_task
    finish_task-Stems ev h = inl (keeps_done g j t e _ (λ d. d) h)

  step-Stems : (limits : Limits) (e : Event) (g : Group) → Gives (Stems e g) (step limits e g)
  unfolding step
  step-Stems limits (go j desc pool deps) g =
      guard-Gives (Stems (go j desc pool deps) g) _ _ λ a. go-Stems j desc pool deps g
  step-Stems limits (check j) g =
      with_entry-Gives (Stems (check j) g) _ _
        λ t e. guard-Gives (Stems (check j) g) _ _ λ _. check_deps-Stems g j t e
  step-Stems limits (dep_ready j) g = with_entry-Gives (Stems (dep_ready j) g) _ _ λ t e.
      with_dep-Gives (Stems (dep_ready j) g) _ _ λ p ps q.
        with_entry-Gives (Stems (dep_ready j) g) (GoMap.get g.tasks p.id)
          (λ d. guard d.closed (dep_done j t p ps d.err g))
          λ d f.
            guard-Gives (Stems (dep_ready j) g) d.closed (dep_done j t p ps d.err g)
              λ _. dep_done-Stems g j t e p ps d.err
  step-Stems limits (dep_canceled j) g = with_entry-Gives (Stems (dep_canceled j) g) _ _ λ t e.
      with_dep-Gives (Stems (dep_canceled j) g) (next_dep t.point)
        (λ p ps. guard g.canceled (give_up j t g))
        λ p ps q.
          guard-Gives (Stems (dep_canceled j) g) g.canceled (give_up j t g)
            λ _. give_up-Stems g j t e (dep_canceled j)
  step-Stems limits (take_slot j) g =
      with_entry-Gives (Stems (take_slot j) g) _ _
        λ t e. guard-Gives (Stems (take_slot j) g) _ _ λ _. begin_work-Stems g j t e (take_slot j)
  step-Stems limits (slot_canceled j) g = with_entry-Gives (Stems (slot_canceled j) g) _ _ λ t e.
      guard-Gives (Stems (slot_canceled j) g) _ _ λ _. give_up-Stems g j t e (slot_canceled j)
  step-Stems limits (returns j r) g =
      with_entry-Gives (Stems (returns j r) g) _ _
        λ t e. guard-Gives (Stems (returns j r) g) _ _ λ _. end_work-Stems g j t e r
  step-Stems limits (frees j) g =
      with_entry-Gives (Stems (frees j) g) _ _
        λ t e. guard-Gives (Stems (frees j) g) _ _ λ _. give_back-Stems g j t e (frees j)
  step-Stems limits (finishes j) g =
      with_entry-Gives (Stems (finishes j) g) _ _
        λ t e. guard-Gives (Stems (finishes j) g) _ _ λ _. finish_task-Stems g j t e (finishes j)
  step-Stems limits cancel g = λ h. inl h

  -- A task that is done behind a run was done before it, or has returned in it.
  pub done-has_returned :
      (limits : Limits) (es : List Event) (g g' : Group)
      → run_events limits es g ≡ some g'
      → is_done (GoMap.get g'.tasks id) ≡ true
      → (is_done (GoMap.get g.tasks id) ≡ true) ⊎ (has_returned id es ≡ true)
  unfolding run_events has_returned
  done-has_returned limits [] g g' ran h = inl (ground (arith, ran, h))
  done-has_returned limits (e ∷ es) g g' ran h =
      by_step (step limits e g) refl ran (λ g₁ k. done-has_returned limits es g₁ g' k h)
    where
      by_step :
          (o : Option Group)
          → step limits e g ≡ o
          → and_then o (run_events limits es) ≡ some g'
          → ((g₁ : Group)
              → run_events limits es g₁ ≡ some g'
              → (is_done (GoMap.get g₁.tasks id) ≡ true) ⊎ (has_returned id es ≡ true))
          → (is_done (GoMap.get g.tasks id) ≡ true)
            ⊎ ((is_return id e || has_returned id es) ≡ true)
      by_step none q k rest = absurd (ground (arith, k))
      by_step (some g₁) q k rest = elim (rest g₁ k) [
        | inr r ↦ inr (ground (arith, r))
        | inl d ↦ elim (Gives-some (Stems e g) (step limits e g) g₁ (step-Stems limits e g) q d) [
          | inl b ↦ inl b
          | inr r ↦ inr (ground (arith, r))
        ]
      ]

module _ {T U : Type 0} (value : T → U) where
  abbrev pub Apart : Child T → Child T → Type 0
  Apart a b = a.id ≢ b.id

  place_of-absent :
      (id : Str) (cs : List (Child T)) → All (λ c. id ≢ c.id) cs → place_of id cs ≡ none
  unfolding place_of
  place_of-absent id [] h = refl
  place_of-absent id (c ∷ cs) (ne, h) =
      rw (str_eq_ne c.id id (λ e. ne (sym e)), place_of-absent id cs h) refl

  written-rest :
      (o : Option (ℕ × T)) (s : Option U) (slots : List (Option U))
      → written value (one_further o) (s ∷ slots) ≡ s ∷ written value o slots
  unfolding set_at
  written-rest none s slots = refl
  written-rest (some (i, item)) s slots = refl

  slot_after : Bool → Child T → Option U → Option U
  slot_after true c s = some (value c.item)
  slot_after false c s = s

  write_result-cons :
      (c : Child T) (cs : List (Child T)) (e : Event) (s : Option U) (slots : List (Option U))
      → All (Apart c) cs
      → write_result value (c ∷ cs) e (s ∷ slots)
        ≡ slot_after (is_return c.id e) c s ∷ write_result value cs e slots
  unfolding write_result is_return slot_after place_of
  write_result-cons c cs (returns id none) s slots h = elim (Bool-cases (str_eq c.id id)) [
    | inl q ↦
        let same : c.id ≡ id = (str_eq_iff c.id id).0 q in
        rw
          (
            q,
            (str_eq_iff id c.id).1 (sym same),
            place_of-absent id cs (subst (λ x. All (λ d. x ≢ d.id) cs) same h),
          )
          (unfold set_at in refl)
    | inr q ↦
        rw (q, str_eq_ne id c.id (λ e. ground (arith, q, (str_eq_iff c.id id).1 (sym e))))
          (written-rest (place_of id cs) s slots)
  ]
  write_result-cons c cs (returns id (some x)) s slots h = refl
  write_result-cons c cs (go j desc pool deps) s slots h = refl
  write_result-cons c cs (check j) s slots h = refl
  write_result-cons c cs (dep_ready j) s slots h = refl
  write_result-cons c cs (dep_canceled j) s slots h = refl
  write_result-cons c cs (take_slot j) s slots h = refl
  write_result-cons c cs (slot_canceled j) s slots h = refl
  write_result-cons c cs (frees j) s slots h = refl
  write_result-cons c cs (finishes j) s slots h = refl
  write_result-cons c cs cancel s slots h = refl

  slot_after-twice :
      (a b : Bool) (c : Child T) (s : Option U)
      → slot_after b c (slot_after a c s) ≡ slot_after (a || b) c s
  unfolding slot_after
  slot_after-twice true true c s = refl
  slot_after-twice true false c s = refl
  slot_after-twice false b c s = refl

  fill-cons :
      (c : Child T) (cs : List (Child T)) (es : List Event) (s : Option U) (slots : List (Option U))
      → All (Apart c) cs
      → fill value (c ∷ cs) es (s ∷ slots)
        ≡ slot_after (has_returned c.id es) c s ∷ fill value cs es slots
  unfolding fill has_returned
  fill-cons c cs [] s slots h = unfold slot_after in refl
  fill-cons c cs (e ∷ es) s slots h =
      ap (fill value (c ∷ cs) es) (write_result-cons c cs e s slots h)
      ∙ fill-cons c cs es (slot_after (is_return c.id e) c s) (write_result value cs e slots) h
      ∙ ap (λ x. x ∷ fill value cs es (write_result value cs e slots))
          (slot_after-twice (is_return c.id e) (has_returned c.id es) c s)

  none_written : (e : Event) → write_result value [] e [] ≡ []
  unfolding write_result place_of
  none_written (returns id none) = refl
  none_written (returns id (some x)) = refl
  none_written (go j desc pool deps) = refl
  none_written (check j) = refl
  none_written (dep_ready j) = refl
  none_written (dep_canceled j) = refl
  none_written (take_slot j) = refl
  none_written (slot_canceled j) = refl
  none_written (frees j) = refl
  none_written (finishes j) = refl
  none_written cancel = refl

  none_filled : (es : List Event) → fill value [] es [] ≡ []
  unfolding fill
  none_filled [] = refl
  none_filled (e ∷ es) = ap (fill value [] es) (none_written e) ∙ none_filled es

  -- If all children have returned, the results are their values in the order of the children.
  pub results-values :
      (cs : List (Child T)) (es : List Event)
      → AllPairs Apart cs
      → All (λ c. has_returned c.id es ≡ true) cs
      → results value cs es ≡ map (λ c. some (value c.item)) cs
  unfolding results slot_after
  results-values [] es apart h = none_filled es
  results-values (c ∷ cs) es (first, apart) (hc, h) =
      fill-cons c cs es none (replicate (length cs) none) first
      ∙ rw hc (ap (λ l. some (value c.item) ∷ l) (results-values cs es apart h))
