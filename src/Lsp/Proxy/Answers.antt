-- ===== src/Lsp/Proxy/Answers.antt =====
-- internal/lsp/proxy.go: which servers a request on a document reaches, and what the client gets.
use workspaced.Prelude.{
  arith, ◌≡◌, ◌≢◌, ◌⊎◌, refl, sym, subst, Bool, true, ◌&&◌, Option, none, some, List, [], ◌∷◌, Str,
  str_eq, str_eq_iff, str_eq_ne, In, inl, inr, Bool-cases,
}
use workspaced.Prelude.GoMap
use workspaced.Prelude.GoMap.{GoMap}
use workspaced.Lsp.{LanguageBinding, has_capability, is_true}
use workspaced.Lsp.Merge.{Json, merge_results}
use workspaced.Lsp.Proxy.{Proxy, is_running, bindings_live, ensure_language}
use workspaced.Lsp.Proxy.Requests.{
  Reply, request_failed, error_reply, result_reply, Answer, unsupported, failed_answer,
  result_answer, collect, result_of, error_of, answer_of, targets, forward_request, capable,
}

-- A server that runs and may be asked: its binding lists no capabilities, or lists this one as true.
abbrev pub Serves : Str → List Str → LanguageBinding → Type 0
Serves cap backends b =
    ((b.capabilities ≡ []) ⊎ (GoMap.get b.capabilities cap ≡ some true)) × In b.server_id backends

-- The ids are those of the bindings that serve, in the order of the bindings.
abbrev pub Reaches : Str → List Str → List LanguageBinding → List Str → Type 0
Reaches cap backends [] ids = ids ≡ []
Reaches cap backends (b ∷ bs) ids =
    (Serves cap backends b
      × ((rest : List Str) × (ids ≡ b.server_id ∷ rest) × Reaches cap backends bs rest))
    ⊎ (¬ Serves cap backends b × Reaches cap backends bs ids)

-- The server has replied with that result.
abbrev pub Gives : Reply → Str → Type 0
Gives x r = (x ≡ result_reply r) × (r ≢ [])

-- The results are those of the servers that gave one, in the order of the servers.
abbrev pub Gathers : (Str → Reply) → List Str → List Str → Type 0
Gathers reply [] rs = rs ≡ []
Gathers reply (id ∷ ids) rs =
    ((r : Str) × (rest : List Str) × Gives (reply id) r × (rs ≡ r ∷ rest) × Gathers reply ids rest)
    ⊎ (((r : Str) → ¬ Gives (reply id) r) × Gathers reply ids rs)

-- The last server that failed or replied with an error, and what it said.
abbrev pub Fails : Reply → Str → Type 0
Fails x e = (x ≡ request_failed e) ⊎ (x ≡ error_reply e)

abbrev pub LastError : (Str → Reply) → List Str → Option Str → Type 0
LastError reply [] o = o ≡ none
LastError reply (id ∷ ids) o =
    ((e : Str) × (o ≡ some e) × LastError reply ids (some e))
    ⊎ (LastError reply ids none
        × (((e : Str) × Fails (reply id) e × (o ≡ some e))
            ⊎ ((o ≡ none) × ((e : Str) → ¬ Fails (reply id) e))))

-- Results are merged; without one, the last error is the answer, and without that the request is unsupported.
abbrev pub IsAnswer : Json → List Str → Option Str → Answer → Type 0
IsAnswer json [] none a = a ≡ unsupported
IsAnswer json [] (some e) a = a ≡ failed_answer e
IsAnswer json (r ∷ rs) o a = a ≡ result_answer (merge_results json (r ∷ rs))

is_running-In : (id : Str) (ids : List Str) → is_running id ids ≡ true → In id ids
unfolding is_running
is_running-In id [] h = absurd (ground (arith, h))
is_running-In id (k ∷ ids) h = elim (Bool-cases (str_eq k id)) [
  | inl q ↦ inl (sym ((str_eq_iff k id).0 q))
  | inr q ↦ inr (is_running-In id ids (ground (arith, h, q)))
]

In-is_running : (id : Str) (ids : List Str) → In id ids → is_running id ids ≡ true
unfolding is_running
In-is_running id [] m = elim m [ ]
In-is_running id (k ∷ ids) (inl e) = ground (arith, (str_eq_iff k id).1 (sym e))
In-is_running id (k ∷ ids) (inr m) = ground (arith, In-is_running id ids m)

claims :
    (cap : Str) (b : LanguageBinding)
    → has_capability cap b ≡ true
    → (b.capabilities ≡ []) ⊎ (GoMap.get b.capabilities cap ≡ some true)
unfolding has_capability
claims cap b = go b.capabilities
  where
    go :
        (cs : GoMap Bool)
        → (elim cs [ [] ↦ true | c ∷ ds ↦ is_true (GoMap.get (c ∷ ds) cap) ]) ≡ true
        → (cs ≡ []) ⊎ (GoMap.get cs cap ≡ some true)
    go [] h = inl refl
    go (c ∷ cs) h = inr (ground (arith, h))

claimed :
    (cap : Str) (b : LanguageBinding)
    → (b.capabilities ≡ []) ⊎ (GoMap.get b.capabilities cap ≡ some true)
    → has_capability cap b ≡ true
unfolding has_capability
claimed cap b = go b.capabilities
  where
    go :
        (cs : GoMap Bool)
        → (cs ≡ []) ⊎ (GoMap.get cs cap ≡ some true)
        → (elim cs [ [] ↦ true | c ∷ ds ↦ is_true (GoMap.get (c ∷ ds) cap) ]) ≡ true
    go [] h = refl
    go (c ∷ cs) (inl e) = absurd (ground (arith, e))
    go (c ∷ cs) (inr e) = rw e refl

capable-Reaches :
    (cap : Str) (bs : List LanguageBinding) (backends : List Str)
    → Reaches cap backends bs (capable cap bs backends)
unfolding capable
capable-Reaches cap [] backends = refl
capable-Reaches cap (b ∷ bs) backends =
    elim (Bool-cases (has_capability cap b && is_running b.server_id backends)) [
      | inl q ↦ rw q (
          inl (
            (
              claims cap b (ground (arith, q)),
              is_running-In b.server_id backends (ground (arith, q)),
            ),
            (capable cap bs backends, refl, capable-Reaches cap bs backends),
          ))
      | inr q ↦ rw q (
          inr (
            (λ s. ground (arith, q, claimed cap b s.0, In-is_running b.server_id backends s.1)),
            capable-Reaches cap bs backends,
          ))
    ]

module _ (reply : Str → Reply) where
  result-cases :
      (x : Reply)
      → ((r : Str) × Gives x r × (result_of x ≡ r ∷ []))
        ⊎ (((r : Str) → ¬ Gives x r) × (result_of x ≡ []))
  result-cases (request_failed e) = inr (λ r g. ground (arith, g.0), refl)
  result-cases (error_reply e) = inr (λ r g. ground (arith, g.0), refl)
  result-cases (result_reply []) = unfold str_eq in inr (λ r g. ground (arith, g), refl)
  result-cases (result_reply (c ∷ s)) =
      unfold str_eq in inl (c ∷ s, (refl, λ e. ground (arith, e)), refl)

  collect-Gathers : (ids : List Str) → Gathers reply ids (collect reply ids).0
  unfolding collect
  collect-Gathers [] = refl
  collect-Gathers (id ∷ ids) = elim (result-cases (reply id)) [
    | inl (r, g, q) ↦ inl (r, (collect reply ids).0, g, rw q refl, collect-Gathers ids)
    | inr (n, q) ↦ inr (n, rw q (collect-Gathers ids))
  ]

  error_of-cases :
      (x : Reply) (later : Option Str)
      → ((e : Str) × (later ≡ some e) × (error_of x later ≡ some e))
        ⊎ ((later ≡ none)
            × (((e : Str) × Fails x e × (error_of x later ≡ some e))
                ⊎ ((error_of x later ≡ none) × ((e : Str) → ¬ Fails x e))))
  error_of-cases (request_failed e) none = inr (refl, inl (e, inl refl, refl))
  error_of-cases (error_reply e) none = inr (refl, inl (e, inr refl, refl))
  error_of-cases (result_reply r) none = inr (refl, inr (refl, λ e f. ground (arith, f)))
  error_of-cases (request_failed e) (some l) = inl (l, refl, refl)
  error_of-cases (error_reply e) (some l) = inl (l, refl, refl)
  error_of-cases (result_reply r) (some l) = inl (l, refl, refl)

  collect-LastError : (ids : List Str) → LastError reply ids (collect reply ids).1
  unfolding collect
  collect-LastError [] = refl
  collect-LastError (id ∷ ids) = elim (error_of-cases (reply id) (collect reply ids).1) [
    | inl (e, q, f) ↦ inl (e, f, subst (LastError reply ids) q (collect-LastError ids))
    | inr (q, f) ↦ inr (subst (LastError reply ids) q (collect-LastError ids), f)
  ]

answer_of-IsAnswer :
    (json : Json) (rs : List Str) (o : Option Str) → IsAnswer json rs o (answer_of json rs o)
answer_of-IsAnswer json [] none = refl
answer_of-IsAnswer json [] (some e) = refl
answer_of-IsAnswer json (r ∷ rs) o = refl

-- A request on a document of a language reaches the servers of the language that run and whose bindings
-- claim the capability, in the order of the bindings; the results that these give are merged in that
-- order, and without a result the answer is the last error, or that the request is unsupported.
pub forward_request-IsAnswer :
    (json : Json) (start : Str → Bool) (reply : Str → Reply) (lang cap : Str) (p : Proxy)
    → lang ≢ []
    → (ids rs : List Str) × (o : Option Str) × Reaches cap
        (forward_request json start reply lang cap p).1.backends
        (bindings_live lang (forward_request json start reply lang cap p).1)
        ids
      × Gathers reply ids rs
      × LastError reply ids o
      × IsAnswer json rs o (forward_request json start reply lang cap p).0
unfolding forward_request targets
forward_request-IsAnswer json start reply lang cap p named =
    let q = (ensure_language start lang p).1 in
    let ids = capable cap (bindings_live lang q) q.backends in
    rw (str_eq_ne lang [] named) (
      ids,
      (collect reply ids).0,
      (collect reply ids).1,
      capable-Reaches cap (bindings_live lang q) q.backends,
      collect-Gathers reply ids,
      collect-LastError reply ids,
      answer_of-IsAnswer json (collect reply ids).0 (collect reply ids).1,
    )
