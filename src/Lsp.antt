-- ===== src/Lsp.antt =====
-- internal/lsp/config.go: which servers a language has, and what they can do.
pub mod Merge
pub mod Proxy
pub mod Frame
mod Samples
use workspaced.Prelude.{
  ℕ, ◌+◌, Bool, true, false, ◌&&◌, ◌||◌, not, Option, none, some, List, [], ◌∷◌, ◌++◌, map, leb,
  ◌==◌, if◌then◌else◌, Str, codes, str_eq, str_lt, cut,
}
use workspaced.Prelude.GoMap
use workspaced.Prelude.GoMap.{GoMap}
use workspaced.Prelude.Sort

-- Attachments are their capabilities; servers are known by their ids.
pub record Config : Type 0 where
  pub extensions : GoMap Str
  pub language_ids : GoMap Str
  pub languages : GoMap (GoMap (GoMap Bool))
  pub servers : GoMap (List Str)

pub record LanguageBinding : Type 0 where
  pub order_key : Str
  pub server_id : Str
  pub capabilities : GoMap Bool

-- The text behind the digits and the underscore that the regular expression takes, if they are there.
-- A key has no line break.
unfoldable pub behind_digits : Bool → Str → Option Str
behind_digits seen [] = none
behind_digits seen (c ∷ s) =
    let more = behind_digits true s in
    if leb b'0' c && leb c b'9' then more else if seen && (c == b'_') then some s else none

abbrev pub or_key : Str → Option Str → Str
or_key key none = key
or_key key (some []) = key
or_key key (some (c ∷ s)) = c ∷ s

unfoldable pub server_id_from_order_key : Str → Str
unfolding behind_digits
server_id_from_order_key key = or_key key (behind_digits false key)

unfoldable pub bindings_from : List (Str × GoMap Bool) → List LanguageBinding
unfolding server_id_from_order_key
bindings_from [] = []
bindings_from ((key, caps) ∷ entries) =
    let id = server_id_from_order_key key in
    let rest = bindings_from entries in
    if str_eq id []
    then rest
    else record { order_key = key; server_id = id; capabilities = caps } ∷ rest

abbrev pub key_less : Str × GoMap Bool → Str × GoMap Bool → Bool
key_less (k, _) (l, _) = str_lt k l

abbrev pub bindings_of : Option (GoMap (GoMap Bool)) → List LanguageBinding
unfolding bindings_from
bindings_of none = []
bindings_of (some raw) = bindings_from (Sort.sort key_less raw)

unfoldable pub bindings_for : Config → Str → List LanguageBinding
bindings_for cfg language = bindings_of (GoMap.get cfg.languages language)

abbrev pub is_true : Option Bool → Bool
is_true none = false
is_true (some b) = b

unfoldable pub has_capability : Str → LanguageBinding → Bool
has_capability cap b = elim b.capabilities [ [] ↦ true | c ∷ cs ↦ is_true (GoMap.get (c ∷ cs) cap) ]

abbrev pub nonempty : Option Str → Option Str
nonempty none = none
nonempty (some []) = none
nonempty (some (c ∷ s)) = some (c ∷ s)

abbrev pub or_else : Option Str → Str → Str
or_else none other = other
or_else (some s) other = s

-- ResolveLanguage, given the extension of the path; filepath.Ext and strings.ToLower are applied before.
unfoldable pub resolve_language : Config → Str → Str → Str
resolve_language cfg ext language_id =
    let by_id =
      or_else
        (if str_eq language_id [] then none else nonempty (GoMap.get cfg.language_ids language_id))
        [] in
    or_else (if str_eq ext [] then none else nonempty (GoMap.get cfg.extensions ext)) by_id
