-- ===== src/Lsp/Samples.antt =====
-- A router with one server on which the theorems on internal/lsp are applied.
use workspaced.Prelude.{
  arith, ◌≡◌, refl, Bool, true, false, Option, none, some, List, [], ◌∷◌, ◌++◌, Str, codes, str_eq,
}
use workspaced.Prelude.GoMap
use workspaced.Prelude.Sort.{sort}
use workspaced.Lsp.{
  Config, LanguageBinding, bindings_for, bindings_from, server_id_from_order_key, behind_digits,
  resolve_language,
}
use workspaced.Lsp.Merge.{Json}
use workspaced.Lsp.Frame.{
  Message, message, read_message, write_message, with_version, decimal, decimal_from,
}
use workspaced.Lsp.Frame.RoundTrip.{read_message-write_message}
use workspaced.Lsp.Proxy.{
  Document, did_open, did_change, Proxy, start_all, start_bindings, ensure_new, ensure_language,
  bindings_live, is_running, on_did_open, on_did_change, deliver,
}
use workspaced.Lsp.Proxy.Requests.{Reply, result_reply, unsupported, forward_request}
use workspaced.Lsp.Proxy.Routes.{ensure_language-failed}
use workspaced.Lsp.Proxy.Answers.{Reaches, Gathers, LastError, IsAnswer, forward_request-IsAnswer}
use workspaced.Lsp.Proxy.Sync.{IsServed, opened, on_did_open_twice, on_did_change-reordered}

abbrev go : Str
go = codes "go"

abbrev gopls : LanguageBinding
gopls = record { order_key = codes "1_gopls"; server_id = codes "gopls"; capabilities = [] }

abbrev config : Config
config = record {
  extensions = (codes ".go", go) ∷ [];
  language_ids = [];
  languages = (go, (codes "1_gopls", []) ∷ []) ∷ [];
  servers = (codes "gopls", codes "gopls" ∷ []) ∷ [];
}

abbrev idle : Proxy
idle = record { cfg = config; docs = []; lang_servers = []; backends = []; sent = []; jobs = [] }

abbrev starts : Str → Bool
starts id = true

abbrev fails : Str → Bool
fails id = false

bound : bindings_for config go ≡ gopls ∷ []
unfolding bindings_for bindings_from server_id_from_order_key behind_digits GoMap.get str_eq sort
bound = refl

abbrev file : Str
file = codes "file:///a.go"

abbrev text : Str
text = codes "package a"

on_did_open_twice_example :
    (deliver 0 (on_did_open starts (codes ".go") file go 1 text idle)).sent
    ≡ (codes "gopls", did_open (opened go file go 1 text))
      ∷ (codes "gopls", did_open (opened go file go 1 text))
      ∷ []
unfolding resolve_language GoMap.get str_eq is_running sort
on_did_open_twice_example =
    on_did_open_twice starts (codes ".go") file go 1 text go gopls (codes "gopls" ∷ []) idle refl
      (λ e. cc) refl bound refl refl refl refl refl

abbrev doc : Document
doc = opened go file go 1 text

abbrev serving : Proxy
serving = record idle {
  docs = (file, doc) ∷ [];
  lang_servers = (go, gopls ∷ []) ∷ [];
  backends = codes "gopls" ∷ [];
}

serving-IsServed : IsServed go (codes "gopls") serving
unfolding GoMap.get str_eq is_running sort
serving-IsServed = record {
  order_key = codes "1_gopls";
  capabilities = [];
  bound = refl;
  runs = refl;
  idle = refl;
}

on_did_change-reordered_example :
    ((deliver 0 (
        deliver 1 (
          on_did_change file 3
            (codes "new" ∷ [])
            (on_did_change file 2 (codes "old" ∷ []) serving)))).sent
      ≡ (codes "gopls", did_change file 3 (codes "new"))
        ∷ (codes "gopls", did_change file 2 (codes "old"))
        ∷ [])
    × (GoMap.get
          (deliver 0 (
            deliver 1 (
              on_did_change file 3
                (codes "new" ∷ [])
                (on_did_change file 2 (codes "old" ∷ []) serving)))).docs
          file
        ≡ some (record doc { text = codes "new"; version = 3 }))
unfolding GoMap.get str_eq
on_did_change-reordered_example =
    on_did_change-reordered (codes "gopls") file 2 3 (codes "old") (codes "new") doc serving
      serving-IsServed refl (λ e. cc)

abbrev json : Json
json = record {
  array_of = λ s. none;
  list_of = λ s. none;
  print_array = λ xs. none;
  print_list = λ b xs. none;
}

abbrev replies : Str → Reply
replies id = result_reply (codes "42")

failed_start : (ensure_language fails go idle).0 ≡ false
unfolding ensure_language ensure_new start_bindings start_all bindings_for bindings_from
    server_id_from_order_key behind_digits GoMap.get str_eq is_running sort
failed_start = refl

ensure_language-failed_example :
    (ensure_language starts go (ensure_language fails go idle).1
      ≡ (true, (ensure_language fails go idle).1))
    × (forward_request json starts replies go (codes "hover") (ensure_language fails go idle).1
        ≡ (unsupported, (ensure_language fails go idle).1))
ensure_language-failed_example =
    ensure_language-failed fails starts json replies go (codes "hover") idle (λ e. cc) failed_start

forward_request-IsAnswer_example :
    (ids rs : List Str) × (o : Option Str) × Reaches
      (codes "hover")
      (forward_request json starts replies go (codes "hover") serving).1.backends
      (bindings_live go (forward_request json starts replies go (codes "hover") serving).1)
      ids
    × Gathers replies ids rs
    × LastError replies ids o
    × IsAnswer json rs o (forward_request json starts replies go (codes "hover") serving).0
forward_request-IsAnswer_example =
    forward_request-IsAnswer json starts replies go (codes "hover") serving (λ e. cc)

abbrev ping : Message
ping = record {
  json_rpc = [];
  id = codes "1";
  method = codes "ping";
  params = [];
  result = [];
  error = none;
}

abbrev printed : Str
printed = codes "{\"id\":1}"

abbrev frame : Str
frame = codes "Content-Length: 8\r\n\r\n" ++ printed

-- A printer and a parser of this message.
abbrev print : Message → Option Str
print m = some printed

abbrev parse : Str → Option Message
parse s = some (record ping { json_rpc = codes "2.0" })

wrote : write_message print ping ≡ some frame
unfolding write_message decimal decimal_from
wrote = refl

read_message-write_message_example :
    read_message parse (frame ++ codes "rest") ≡ message (with_version ping) (codes "rest")
unfolding str_eq
read_message-write_message_example =
    read_message-write_message print parse ping printed frame (codes "rest") refl refl (omega arith)
      wrote
