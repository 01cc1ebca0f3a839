-- ===== src/Lsp/Proxy/Requests.antt =====
-- internal/lsp/proxy.go: requests of the client, the servers they reach and the answers.
use workspaced.Prelude.{
  Bool, true, false, ◌&&◌, ◌||◌, Option, none, some, List, [], ◌∷◌, ◌++◌, filter, if◌then◌else◌,
  Str, str_eq,
}
use workspaced.Prelude.GoMap.{GoMap}
use workspaced.Lsp.{LanguageBinding, has_capability}
use workspaced.Lsp.Merge.{Json, merge_results}
use workspaced.Lsp.Proxy.{Proxy, is_running, bindings_live, ensure_language}

-- What a server returns to a request.
pub data Reply : Type 0 where
  request_failed : Str → Reply
  error_reply : Str → Reply
  result_reply : Str → Reply

pub data Answer : Type 0 where
  unsupported : Answer
  failed_answer : Str → Answer
  result_answer : Str → Answer

unfoldable pub capable : Str → List LanguageBinding → List Str → List Str
unfolding has_capability
capable cap [] backends = []
capable cap (b ∷ bs) backends =
    let rest = capable cap bs backends in
    if has_capability cap b && is_running b.server_id backends then b.server_id ∷ rest else rest

unfoldable pub binding_claims : Str → Str → List LanguageBinding → Bool
unfolding has_capability
binding_claims id cap [] = false
binding_claims id cap (b ∷ bs) =
    str_eq b.server_id id && has_capability cap b || binding_claims id cap bs

unfoldable pub any_claims : Str → Str → GoMap (List LanguageBinding) → Bool
unfolding binding_claims
any_claims id cap [] = false
any_claims id cap ((lang, bs) ∷ m) = binding_claims id cap bs || any_claims id cap m

unfoldable pub server_has_capability : Str → Str → GoMap (List LanguageBinding) → Bool
unfolding any_claims
server_has_capability id cap [] = true
server_has_capability id cap (e ∷ m) = any_claims id cap (e ∷ m)

unfoldable pub targets : Str → Str → Proxy → List Str
unfolding bindings_live capable server_has_capability
targets lang cap p =
    if str_eq lang []
    then filter (λ id. server_has_capability id cap p.lang_servers) p.backends
    else capable cap (bindings_live lang p) p.backends

abbrev pub result_of : Reply → List Str
result_of (request_failed e) = []
result_of (error_reply e) = []
result_of (result_reply r) = if str_eq r [] then [] else r ∷ []

abbrev pub error_of : Reply → Option Str → Option Str
error_of (request_failed e) later = elim later [ none ↦ some e | some l ↦ some l ]
error_of (error_reply e) later = elim later [ none ↦ some e | some l ↦ some l ]
error_of (result_reply r) later = later

-- The loop over the replies: the results, and the last error.
unfoldable pub collect : (Str → Reply) → List Str → List Str × Option Str
collect reply [] = ([], none)
collect reply (id ∷ ids) =
    (result_of (reply id) ++ (collect reply ids).0, error_of (reply id) (collect reply ids).1)

abbrev pub answer_of : Json → List Str → Option Str → Answer
answer_of json [] none = unsupported
answer_of json [] (some e) = failed_answer e
answer_of json (r ∷ rs) e = result_answer (merge_results json (r ∷ rs))

-- forwardRequest, with what the servers reply; the language of the document is given.
unfoldable pub forward_request :
    Json → (Str → Bool) → (Str → Reply) → Str → Str → Proxy → Answer × Proxy
unfolding ensure_language targets collect
forward_request json start reply lang cap p =
    let ready = if str_eq lang [] then p else (ensure_language start lang p).1 in
    let (results, error) = collect reply (targets lang cap ready) in
    (answer_of json results error, ready)
