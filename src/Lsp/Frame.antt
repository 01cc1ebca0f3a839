-- ===== src/Lsp/Frame.antt =====
-- internal/lsp/jsonrpc.go: messages framed by their length. A stream is the bytes that are left to read;
-- what encoding/json makes of a message is a parameter.
pub mod Decimal
pub mod RoundTrip
use workspaced.Prelude.{
  ℕ, zero, suc, ◌+◌, ◌-◌, ◌*◌, ◌/◌, ◌%◌, Bool, true, false, ◌&&◌, ◌||◌, not, Option, none, some,
  List, [], ◌∷◌, ◌++◌, map, ltb, leb, ◌==◌, if◌then◌else◌, Str, codes, str_eq, cut, length, take,
  drop, has_prefix, trim_space,
}
use workspaced.Taskgroup.LineFilter.{atoi_digits}

pub record RespError : Type 0 where
  pub code : Str
  pub message : Str
  pub data_text : Str

-- The texts of ID, Params and Result are empty where the field is absent.
pub record Message : Type 0 where
  pub json_rpc : Str
  pub id : Str
  pub method : Str
  pub params : Str
  pub result : Str
  pub error : Option RespError

abbrev pub has_id : Message → Bool
has_id m = not (str_eq m.id []) && not (str_eq m.id (codes "null"))

unfoldable pub is_request : Message → Bool
is_request m = not (str_eq m.method []) && has_id m

unfoldable pub is_notification : Message → Bool
is_notification m = not (str_eq m.method []) && not (has_id m)

unfoldable pub is_response : Message → Bool
is_response m = str_eq m.method [] && not (str_eq m.id [])

pub data ReadError : Type 0 where
  end_of_file bad_length missing_content_length bad_json : ReadError

-- What ReadMessage returns, with the bytes that are left.
pub data Read (A : Type 0) : Type 0 where
  message : A → Str → Read A
  failed : ReadError → Read A

-- strconv.Atoi
pub data Length : Type 0 where
  not_a_number negative : Length
  size : ℕ → Length

abbrev pub size_of : Option ℕ → Length
size_of none = not_a_number
size_of (some n) = size n

abbrev pub opposite : Option ℕ → Length
opposite none = not_a_number
opposite (some zero) = size 0
opposite (some (suc n)) = negative

unfoldable pub atoi : Str → Length
unfolding atoi_digits
atoi [] = not_a_number
atoi (c ∷ s) =
    if c == b'+'
    then size_of (atoi_digits s)
    else if c == b'-'
    then opposite (atoi_digits s)
    else size_of (atoi_digits (c ∷ s))

-- strings.ToLower of ASCII text
abbrev pub lower : ℕ → ℕ
lower c = if leb b'A' c && leb c b'Z' then c + 32 else c

abbrev pub content_length : Str
content_length = codes "content-length:"

-- strings.TrimRight of the line breaks
unfoldable pub trim_breaks : Str → Str
trim_breaks [] = []
trim_breaks (c ∷ s) =
    let rest = trim_breaks s in
    elim rest [ [] ↦ if c == 13 || c == 10 then [] else c ∷ [] | d ∷ t ↦ c ∷ d ∷ t ]

-- A line of the header: the length that holds behind it.
unfoldable pub read_line : Str → Length → Length
unfolding atoi trim_space has_prefix
read_line line old =
    if has_prefix (map lower line) content_length
    then atoi (trim_space (drop (length content_length) line))
    else old

-- The loop over the header, which an empty line ends. The rounds are those of the bytes: each takes a line.
unfoldable pub read_header : ℕ → Str → Length → Read Length
unfolding read_line trim_breaks cut
read_header zero s old = failed end_of_file
read_header (suc n) s old =
    let (before, after, found) = cut 10 s in
    let line = trim_breaks before in
    let now = read_line line old in
    let rest = read_header n after now in
    if not found
    then failed end_of_file
    else if str_eq line []
    then message old after
    else (elim now [ not_a_number ↦ failed bad_length | negative ↦ rest | size m ↦ rest ])

abbrev pub with_version : Message → Message
with_version m = if str_eq m.json_rpc [] then record m { json_rpc = codes "2.0" } else m

abbrev pub decoded : Option Message → Str → Read Message
decoded none rest = failed bad_json
decoded (some m) rest = message (with_version m) rest

abbrev pub read_body : (Str → Option Message) → Read Length → Read Message
read_body parse (failed e) = failed e
read_body parse (message not_a_number s) = failed bad_length
read_body parse (message negative s) = failed missing_content_length
read_body parse (message (size n) s) =
    if leb n (length s) then decoded (parse (take n s)) (drop n s) else failed end_of_file

-- `negative` is the -1 of the start too.
unfoldable pub read_message : (Str → Option Message) → Str → Read Message
unfolding read_header
read_message parse s = read_body parse (read_header (suc (length s)) s negative)

-- The decimal digits of a number, the rounds at least its digits.
unfoldable pub decimal_from : ℕ → ℕ → Str
decimal_from zero n = []
decimal_from (suc k) n =
    let front = decimal_from k (n / 10) in
    if ltb n 10 then (n + 48) ∷ [] else front ++ (n % 10 + 48) ∷ []

unfoldable pub decimal : ℕ → Str
unfolding decimal_from
decimal n = decimal_from (suc n) n

abbrev pub framed : Option Str → Option Str
unfolding decimal
framed none = none
framed (some body) =
    some (codes "Content-Length: " ++ decimal (length body) ++ 13 ∷ 10 ∷ 13 ∷ 10 ∷ body)

-- The bytes that WriteMessage writes; `none` if the message cannot be printed.
unfoldable pub write_message : (Message → Option Str) → Message → Option Str
write_message print m = framed (print (with_version m))
