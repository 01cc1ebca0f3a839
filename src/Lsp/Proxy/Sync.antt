-- ===== src/Lsp/Proxy/Sync.antt =====
-- internal/lsp/proxy.go: what a server knows of the open documents.
use workspaced.Prelude.{
  arith, ℕ, ◌≡◌, ◌≢◌, refl, Bool, true, false, none, some, List, [], ◌∷◌, ◌++◌, Str, str_eq_refl,
  str_eq_ne, append_assoc,
}
use workspaced.Prelude.GoMap
use workspaced.Lsp.{LanguageBinding, bindings_for, resolve_language}
use workspaced.Lsp.Proxy.{
  Document, Note, did_open, did_change, Job, Proxy, is_running, replay, start_all, start_bindings,
  ensure_new, ensure_language, open_as, on_did_open, on_did_change, sends, bindings_live,
  sync_notify, take_job, deliver,
}

-- One server serves the language, and runs; no goroutine is left.
pub record IsServed (lang id : Str) (p : Proxy) : Type 0 where
  pub order_key : Str
  pub capabilities : GoMap.GoMap Bool
  pub bound :
      GoMap.get p.lang_servers lang
      ≡ some (record { order_key = order_key; server_id = id; capabilities = capabilities } ∷ [])
  pub runs : is_running id p.backends ≡ true
  pub idle : p.jobs ≡ []

served-sync_notify :
    (lang id : Str) (p : Proxy) (note : Note)
    → IsServed lang id p
    → sync_notify (record { language = lang; note = note }) p
      ≡ record p { sent = p.sent ++ (id, note) ∷ [] }
unfolding sync_notify bindings_live sends
served-sync_notify lang id p note h = rw (h.bound, h.runs) refl

abbrev change_job : Str → Str → ℕ → Str → Job
change_job lang uri v text = record { language = lang; note = did_change uri v text }

abbrev changed_docs : Str → Document → ℕ → Str → Proxy → Proxy
changed_docs uri d v text p = record p {
  docs = GoMap.put p.docs uri (record d { text = text; version = v });
}

change_step :
    (uri : Str) (v : ℕ) (text : Str) (d : Document) (p : Proxy)
    → GoMap.get p.docs uri ≡ some d
    → d.language ≢ []
    → on_did_change uri v (text ∷ []) p ≡ record (changed_docs uri d v text p) {
      jobs = p.jobs ++ change_job d.language uri v text ∷ [];
    }
unfolding on_did_change
change_step uri v text d p here ne = rw (here, str_eq_ne d.language [] ne) refl

change_twice :
    (uri : Str) (v w : ℕ) (old new : Str) (d : Document) (p : Proxy)
    → GoMap.get p.docs uri ≡ some d
    → d.language ≢ []
    → p.jobs ≡ []
    → on_did_change uri w (new ∷ []) (on_did_change uri v (old ∷ []) p)
      ≡ record (changed_docs uri d w new (changed_docs uri d v old p)) {
        jobs = change_job d.language uri v old ∷ change_job d.language uri w new ∷ [];
      }
change_twice uri v w old new d p here ne idle =
    let first = change_step uri v old d p here ne in
    let mid : Proxy = record (changed_docs uri d v old p) {
      jobs = p.jobs ++ change_job d.language uri v old ∷ [];
    } in
    let there : GoMap.get mid.docs uri ≡ some (record d { text = old; version = v }) = ground (
      arith,
      GoMap.get-put p.docs uri (record d { text = old; version = v }) uri,
      str_eq_refl uri,
    ) in
    rw (first, change_step uri w new (record d { text = old; version = v }) mid there ne, idle) refl

-- Two changes of a document may reach a server in the wrong order, since each is sent by a goroutine of its
-- own: the server is left with the old text, while the router has the new one. A server is known for the
-- language and runs, and no goroutine was left before.
pub on_did_change-reordered :
    (id uri : Str) (v w : ℕ) (old new : Str) (d : Document) (p : Proxy)
    → IsServed d.language id p
    → GoMap.get p.docs uri ≡ some d
    → d.language ≢ []
    → ((deliver 0
          (deliver 1 (on_did_change uri w (new ∷ []) (on_did_change uri v (old ∷ []) p)))).sent
        ≡ p.sent ++ (id, did_change uri w new) ∷ (id, did_change uri v old) ∷ [])
      × (GoMap.get
            (deliver 0
              (deliver 1 (on_did_change uri w (new ∷ []) (on_did_change uri v (old ∷ []) p)))).docs
            uri
          ≡ some (record d { text = new; version = w }))
unfolding deliver take_job sync_notify bindings_live sends
on_did_change-reordered id uri v w old new d p h here ne =
    rw (change_twice uri v w old new d p here ne h.idle) (
      rw (h.bound, h.runs)
          (append_assoc p.sent ((id, did_change uri w new) ∷ []) ((id, did_change uri v old) ∷ [])),
      ground (
        arith,
        GoMap.get-put (GoMap.put p.docs uri (record d { text = old; version = v })) uri
            (record d { text = new; version = w }) uri,
        str_eq_refl uri,
      ),
    )

abbrev pub opened : Str → Str → Str → ℕ → Str → Document
opened lang uri language_id version text = record {
  uri = uri;
  language_id = language_id;
  language = lang;
  version = version;
  text = text;
}

module _ (start : Str → Bool) (lang : Str) (b : LanguageBinding) (p : Proxy) (d : Document)
    (cmd : List Str) (fresh : GoMap.get p.lang_servers lang ≡ none)
    (bound : bindings_for p.cfg lang ≡ b ∷ [])
    (known : GoMap.get p.cfg.servers b.server_id ≡ some cmd) (ok : start b.server_id ≡ true)
    (idle : is_running b.server_id p.backends ≡ false) where
  first_start : ensure_language start lang p ≡ (
    true,
    record p {
      lang_servers = GoMap.put (GoMap.put p.lang_servers lang []) lang (b ∷ []);
      backends = p.backends ++ b.server_id ∷ [];
      sent = p.sent ++ replay lang b.server_id p.docs;
    },
  )
  unfolding ensure_language ensure_new start_bindings start_all
  first_start = rw (fresh, bound, idle, known, ok) refl

is_running-last : (id : Str) (ids : List Str) → is_running id (ids ++ id ∷ []) ≡ true
unfolding is_running
is_running-last id [] = ground (arith, str_eq_refl id)
is_running-last id (k ∷ ids) = ground (arith, is_running-last id ids)

live_now :
    (p : Proxy) (lang : Str) (b : LanguageBinding)
    → GoMap.get (GoMap.put (GoMap.put p.lang_servers lang []) lang (b ∷ [])) lang ≡ some (b ∷ [])
live_now p lang b =
    ground
      (arith, GoMap.get-put (GoMap.put p.lang_servers lang []) lang (b ∷ []) lang, str_eq_refl lang)

-- The first document of a language is opened twice at its server: by the replay when the server starts, and
-- by the notification behind it. No document was open, and the one server of the language starts.
pub on_did_open_twice :
    (start : Str → Bool) (ext uri language_id : Str) (version : ℕ) (text lang : Str)
    (b : LanguageBinding) (cmd : List Str) (p : Proxy)
    → resolve_language p.cfg ext language_id ≡ lang
    → lang ≢ []
    → GoMap.get p.lang_servers lang ≡ none
    → bindings_for p.cfg lang ≡ b ∷ []
    → GoMap.get p.cfg.servers b.server_id ≡ some cmd
    → start b.server_id ≡ true
    → is_running b.server_id p.backends ≡ false
    → p.docs ≡ []
    → p.jobs ≡ []
    → (deliver 0 (on_did_open start ext uri language_id version text p)).sent
      ≡ p.sent
        ++ (b.server_id, did_open (opened lang uri language_id version text))
          ∷ (b.server_id, did_open (opened lang uri language_id version text))
          ∷ []
unfolding on_did_open open_as deliver take_job sync_notify bindings_live sends replay GoMap.put
on_did_open_twice start ext uri language_id version text lang b cmd p resolved ne fresh bound known
      ok idle none_open no_job =
    let doc = opened lang uri language_id version text in
    let q : Proxy = record p { docs = GoMap.put p.docs uri doc } in
    rw
      (
        resolved,
        str_eq_ne lang [] ne,
        first_start start lang b q doc cmd fresh bound known ok idle,
        no_job,
      )
      (rw (live_now p lang b, is_running-last b.server_id p.backends, none_open, str_eq_refl lang)
        (append_assoc p.sent ((b.server_id, did_open doc) ∷ []) ((b.server_id, did_open doc) ∷ [])))
