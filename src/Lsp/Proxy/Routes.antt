-- ===== src/Lsp/Proxy/Routes.antt =====
-- internal/lsp/proxy.go: a language whose servers failed to start has none for good.
use workspaced.Prelude.{
  arith, ◌≡◌, ◌≢◌, refl, ap, ◌∙◌, Bool, true, false, Option, none, some, List, [], ◌∷◌, Str,
  str_eq_refl, str_eq_ne,
}
use workspaced.Prelude.GoMap
use workspaced.Lsp.{LanguageBinding, bindings_for}
use workspaced.Lsp.Merge.{Json}
use workspaced.Lsp.Proxy.{
  Proxy, start_all, ensure_language, ensure_new, start_bindings, started, add_backend,
}
use workspaced.Lsp.Proxy.Requests.{Reply, unsupported, collect, forward_request}

module _ (start : Str → Bool) where
  start_all-lang_servers :
      (lang : Str) (bs : List LanguageBinding) (p : Proxy)
      → (start_all start lang bs p).1.lang_servers ≡ p.lang_servers
  unfolding start_all
  start_all-lang_servers lang [] p = refl
  start_all-lang_servers lang (b ∷ bs) p = ground (
    arith,
    start_all-lang_servers lang bs p,
    start_all-lang_servers lang bs (add_backend lang b.server_id p),
  )

  failed-started :
      (lang : Str) (bs : List LanguageBinding) (r : Bool × Proxy)
      → GoMap.get r.1.lang_servers lang ≡ some []
      → (started start lang bs r).0 ≡ false
      → GoMap.get (started start lang bs r).1.lang_servers lang ≡ some []
  failed-started lang bs (false, q) h e = h
  failed-started lang bs (true, q) h e = ground (arith, e)

  failed-start_bindings :
      (lang : Str) (bs : List LanguageBinding) (q : Proxy)
      → GoMap.get q.lang_servers lang ≡ some []
      → (start_bindings start lang bs q).0 ≡ false
      → GoMap.get (start_bindings start lang bs q).1.lang_servers lang ≡ some []
  unfolding start_bindings
  failed-start_bindings lang [] q h e = h
  failed-start_bindings lang (b ∷ bs) q h e =
      failed-started lang (b ∷ bs) (start_all start lang (b ∷ bs) q)
        (ap (λ m. GoMap.get m lang) (start_all-lang_servers lang (b ∷ bs) q) ∙ h) e

  failed-ensure_new :
      (lang : Str) (o : Option (List LanguageBinding)) (p : Proxy)
      → (ensure_new start lang o p).0 ≡ false
      → GoMap.get (ensure_new start lang o p).1.lang_servers lang ≡ some []
  unfolding ensure_new
  failed-ensure_new lang (some bs) p e = ground (arith, e)
  failed-ensure_new lang none p e =
      failed-start_bindings lang (bindings_for p.cfg lang)
        (record p { lang_servers = GoMap.put p.lang_servers lang [] })
        (ground (arith, GoMap.get-put p.lang_servers lang [] lang, str_eq_refl lang)) e

module _ (start : Str → Bool) (lang : Str) (q : Proxy)
    (stuck : GoMap.get q.lang_servers lang ≡ some []) where
  stuck_ensure : ensure_language start lang q ≡ (true, q)
  unfolding ensure_language ensure_new
  stuck_ensure = rw (stuck) refl

  stuck_forward :
      (json : Json) (reply : Str → Reply) (cap : Str)
      → lang ≢ []
      → forward_request json start reply lang cap q ≡ (unsupported, q)
  unfolding forward_request collect
  stuck_forward json reply cap ne = rw (str_eq_ne lang [] ne, stuck_ensure, stuck) refl

-- A language whose servers have failed to start once has none for good: later calls of ensureLanguage
-- return nil without an attempt, and each request on a document of the language is answered as
-- unsupported, though a server may run that would serve it.
pub ensure_language-failed :
    (start start' : Str → Bool) (json : Json) (reply : Str → Reply) (lang cap : Str) (p : Proxy)
    → lang ≢ []
    → (ensure_language start lang p).0 ≡ false
    → (ensure_language start' lang (ensure_language start lang p).1
        ≡ (true, (ensure_language start lang p).1))
      × (forward_request json start' reply lang cap (ensure_language start lang p).1
          ≡ (unsupported, (ensure_language start lang p).1))
ensure_language-failed start start' json reply lang cap p ne failed =
    let q = (ensure_language start lang p).1 in
    let stuck : GoMap.get q.lang_servers lang ≡ some [] =
      unfold ensure_language in
      failed-ensure_new start lang (GoMap.get p.lang_servers lang) p failed in
    (stuck_ensure start' lang q stuck, stuck_forward start' lang q stuck json reply cap ne)
