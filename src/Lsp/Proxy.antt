-- ===== src/Lsp/Proxy.antt =====
-- internal/lsp/proxy.go, docs.go and backend.go: the router's documents, its servers, and what it sends them.
pub mod Sync
pub mod Requests
pub mod Routes
pub mod Answers
use workspaced.Prelude.{
  ℕ, zero, suc, ◌+◌, Bool, true, false, ◌&&◌, ◌||◌, not, Option, none, some, List, [], ◌∷◌, ◌++◌,
  map, filter, ◌==◌, if◌then◌else◌, Str, codes, str_eq,
}
use workspaced.Prelude.GoMap
use workspaced.Prelude.GoMap.{GoMap}
use workspaced.Lsp.{Config, LanguageBinding, bindings_for, has_capability, resolve_language}
use workspaced.Lsp.Merge.{Json, merge_results}

pub record Document : Type 0 where
  pub uri : Str
  pub language_id : Str
  pub language : Str
  pub version : ℕ
  pub text : Str

-- A notification to a server.
pub data Note : Type 0 where
  did_open : Document → Note
  did_change : Str → ℕ → Str → Note
  did_close : Str → Note

-- A goroutine of syncNotify that has not run yet: its language and its notification.
pub record Job : Type 0 where
  pub language : Str
  pub note : Note

-- `backends` has the ids of the servers that run, `sent` what they were sent, the first one first.
pub record Proxy : Type 0 where
  pub cfg : Config
  pub docs : GoMap Document
  pub lang_servers : GoMap (List LanguageBinding)
  pub backends : List Str
  pub sent : List (Str × Note)
  pub jobs : List Job

unfoldable pub is_running : Str → List Str → Bool
is_running id [] = false
is_running id (b ∷ bs) = str_eq b id || is_running id bs

-- DocStore.ByLanguage, as the notifications of the replay.
unfoldable pub replay : Str → Str → GoMap Document → List (Str × Note)
replay lang id [] = []
replay lang id ((uri, d) ∷ docs) =
    let rest = replay lang id docs in
    if str_eq d.language lang then (id, did_open d) ∷ rest else rest

abbrev pub is_known : Option (List Str) → Bool
is_known none = false
is_known (some cmd) = true

abbrev pub add_backend : Str → Str → Proxy → Proxy
add_backend lang id p = record p {
  backends = p.backends ++ id ∷ [];
  sent = p.sent ++ replay lang id p.docs;
}

module _ (start : Str → Bool) where
  -- The loop of ensureLanguage; `start` says whether a server starts and answers to initialize. The
  -- result is false if the loop ends with an error.
  unfoldable pub start_all : Str → List LanguageBinding → Proxy → Bool × Proxy
  unfolding is_running replay
  start_all lang [] p = (true, p)
  start_all lang (b ∷ bs) p =
      let skip = start_all lang bs p in
      let go = start_all lang bs (add_backend lang b.server_id p) in
      if is_running b.server_id p.backends
      then skip
      else if is_known (GoMap.get p.cfg.servers b.server_id) && start b.server_id
      then go
      else (false, p)

  abbrev pub started : Str → List LanguageBinding → Bool × Proxy → Bool × Proxy
  started lang bindings (false, p) = (false, p)
  started lang bindings (true, p) =
      (true, record p { lang_servers = GoMap.put p.lang_servers lang bindings })

  unfoldable pub start_bindings : Str → List LanguageBinding → Proxy → Bool × Proxy
  unfolding start_all
  start_bindings lang [] p = (true, p)
  start_bindings lang (b ∷ bs) p = started lang (b ∷ bs) (start_all lang (b ∷ bs) p)

  unfoldable pub ensure_new : Str → Option (List LanguageBinding) → Proxy → Bool × Proxy
  unfolding start_bindings
  ensure_new lang (some bindings) p = (true, p)
  ensure_new lang none p =
      start_bindings lang (bindings_for p.cfg lang)
        (record p { lang_servers = GoMap.put p.lang_servers lang [] })

  unfoldable pub ensure_language : Str → Proxy → Bool × Proxy
  unfolding ensure_new
  ensure_language lang p = ensure_new lang (GoMap.get p.lang_servers lang) p

  abbrev pub notify_if : Job → Bool × Proxy → Proxy
  notify_if job (false, p) = p
  notify_if job (true, p) = record p { jobs = p.jobs ++ job ∷ [] }

  -- didOpen of a document whose language is resolved.
  unfoldable pub open_as : Str → Str → Str → ℕ → Str → Proxy → Proxy
  unfolding ensure_language
  open_as lang uri language_id version text p =
      let doc : Document = record {
        uri = uri;
        language_id = language_id;
        language = lang;
        version = version;
        text = text;
      } in
      let opened : Proxy = record p { docs = GoMap.put p.docs uri doc } in
      let synced =
        notify_if (record { language = lang; note = did_open doc }) (ensure_language lang opened) in
      if str_eq lang [] then opened else synced

  -- `ext` is the extension of the path of the document, in lower case.
  unfoldable pub on_did_open : Str → Str → Str → ℕ → Str → Proxy → Proxy
  unfolding resolve_language open_as
  on_did_open ext uri language_id version text p =
      open_as (resolve_language p.cfg ext language_id) uri language_id version text p

abbrev pub last_text : Str → List Str → Str
last_text old [] = old
last_text old (t ∷ ts) = last_text t ts

abbrev pub job_for : Str → Note → List Job → List Job
job_for lang note jobs =
    if str_eq lang [] then jobs else jobs ++ record { language = lang; note = note } ∷ []

abbrev pub changed : Option Document → Str → ℕ → List Str → Proxy → Proxy
changed none uri version texts p = p
changed (some d) uri version texts p = record p {
  docs = GoMap.put p.docs uri (record d { text = last_text d.text texts; version = version });
  jobs = job_for d.language (did_change uri version (last_text d.text texts)) p.jobs;
}

unfoldable pub on_did_change : Str → ℕ → List Str → Proxy → Proxy
on_did_change uri version texts p = changed (GoMap.get p.docs uri) uri version texts p

abbrev pub language_or : Option Document → Str
language_or none = []
language_or (some d) = d.language

unfoldable pub on_did_close : Str → Proxy → Proxy
on_did_close uri p = record p {
  docs = GoMap.remove p.docs uri;
  jobs = job_for (language_or (GoMap.get p.docs uri)) (did_close uri) p.jobs;
}

abbrev pub bindings_or_nil : Option (List LanguageBinding) → List LanguageBinding
bindings_or_nil none = []
bindings_or_nil (some bs) = bs

unfoldable pub bindings_live : Str → Proxy → List LanguageBinding
bindings_live lang p = bindings_or_nil (GoMap.get p.lang_servers lang)

unfoldable pub sends : Note → List LanguageBinding → List Str → List (Str × Note)
sends note [] backends = []
sends note (b ∷ bs) backends =
    let rest = sends note bs backends in
    if is_running b.server_id backends then (b.server_id, note) ∷ rest else rest

-- syncNotify
unfoldable pub sync_notify : Job → Proxy → Proxy
unfolding bindings_live sends
sync_notify job p = record p {
  sent = p.sent ++ sends job.note (bindings_live job.language p) p.backends;
}

-- The goroutine at a place of the list runs.
unfoldable pub take_job : ℕ → List Job → Option (Job × List Job)
take_job n [] = none
take_job zero (j ∷ js) = some (j, js)
take_job (suc n) (j ∷ js) = elim (take_job n js) [ none ↦ none | some r ↦ some (r.0, j ∷ r.1) ]

abbrev pub deliver_job : Option (Job × List Job) → Proxy → Proxy
deliver_job none p = p
deliver_job (some (job, rest)) p = sync_notify job (record p { jobs = rest })

unfoldable pub deliver : ℕ → Proxy → Proxy
unfolding take_job sync_notify
deliver n p = deliver_job (take_job n p.jobs) p
