-- ===== src/Taskgroup/LineFilter.antt =====
-- pkg/taskgroup/linefilter.go: a terminal of one line. A committed line is its runes.
pub mod Bounds
pub mod Tabs
pub mod Plain
use workspaced.Prelude.{
  ℕ, zero, suc, ◌+◌, ◌*◌, ◌-◌, ◌/◌, min, Bool, true, false, ◌&&◌, ◌||◌, not, Option, none, some,
  List, [], ◌∷◌, ◌++◌, leb, ltb, ◌==◌, if◌then◌else◌, Str, length, set, take, drop, replicate,
  trim_space, cut, str_eq,
}
use workspaced.Semver.{atoi, digits_value, digit_prefix, max_int}
use workspaced.Taskgroup.Utf8.{decode_rune, full_rune, rune_error}

abbrev pub line_max_cols : ℕ
line_max_cols = 1024

abbrev pub line_max_pending : ℕ
line_max_pending = 8192

abbrev pub line_max_csi_num : ℕ
line_max_csi_num = 1000000

pub record Filter : Type 0 where
  pub pending : Str
  pub line : List ℕ
  pub col : ℕ
  pub after_cr : Bool

abbrev pub fresh : Filter
fresh = record { pending = []; line = []; col = 0; after_cr = false }

unfoldable pub reset : Filter → Filter
reset f = record f { line = []; col = 0; after_cr = false }

-- take: the uncommitted row, which is cleared.
unfoldable pub take_line : Filter → List ℕ × Filter
unfolding reset
take_line f = (f.line, reset f)

-- The first lines of put: a glyph behind a carriage return starts a new row.
unfoldable pub start_frame : Filter → Filter
start_frame f = if f.after_cr then record f { line = []; col = 0; after_cr = false } else f

unfoldable pub put_at : ℕ → Filter → Filter
put_at r f =
    if leb line_max_cols f.col
    then f
    else if ltb f.col (length f.line)
    then record f { line = set f.line f.col r; col = f.col + 1 }
    else record f {
      line = f.line ++ (replicate (f.col - length f.line) b' ' ++ r ∷ []);
      col = f.col + 1;
    }

unfoldable pub put : ℕ → Filter → Filter
unfolding start_frame put_at
put r f = put_at r (start_frame f)

-- The loop of a tab, on fuel; `none` means that it goes on.
unfoldable pub tab_loop : ℕ → ℕ → Filter → Option Filter
unfolding put
tab_loop zero next f = none
tab_loop (suc fuel) next f =
    let rest = tab_loop fuel next (put b' ' f) in if ltb f.col next then rest else some f

-- More than the rounds of any tab that ends.
abbrev pub tab_fuel : ℕ
tab_fuel = 2048

-- newline: the row is committed unless it is empty.
abbrev pub row : List ℕ → Option (List ℕ)
row [] = none
row (r ∷ rs) = some (r ∷ rs)

unfoldable pub newline : Filter → Option (List ℕ) × Filter
unfolding reset
newline f = (row f.line, reset f)

abbrev pub silent : Filter → Option (Option (List ℕ) × Filter)
silent f = some (none, f)

abbrev pub tabbed : Option Filter → Option (Option (List ℕ) × Filter)
tabbed none = none
tabbed (some f) = some (none, f)

-- putRune: the committed line if there is one, and the filter; `none` if it does not return.
unfoldable pub put_rune : ℕ → Filter → Option (Option (List ℕ) × Filter)
unfolding newline tab_loop put
put_rune r f =
    if r == b'\n'
    then some (newline f)
    else if r == b'\r'
    then silent (record f { col = 0; after_cr = true })
    else if r == 8
    then silent (if ltb 0 f.col then record f { col = f.col - 1 } else f)
    else if r == b'\t'
    then tabbed (tab_loop tab_fuel ((f.col / 8 + 1) * 8) f)
    else if r == 7
    then silent f
    else if ltb r 0x20 || r == 0x7f
    then silent f
    else silent (put r f)

unfoldable pub clamp : ℕ → ℕ → ℕ → ℕ
clamp v lo hi = if ltb v lo then lo else min v hi

-- strconv.Atoi, as far as csiNum uses it: `none` is an error or a negative number.
unfoldable pub atoi_digits : Str → Option ℕ
unfolding digit_prefix atoi
atoi_digits s = if str_eq s [] || not (str_eq (digit_prefix s) s) then none else atoi s

abbrev only_zero : Option ℕ → Option ℕ
only_zero none = none
only_zero (some n) = if n == 0 then some 0 else none

unfoldable pub atoi_signed : Str → Option ℕ
unfolding atoi_digits
atoi_signed [] = none
atoi_signed (c ∷ s) =
    if c == b'+'
    then atoi_digits s
    else if c == b'-'
    then only_zero (atoi_digits s)
    else atoi_digits (c ∷ s)

abbrev number_or : ℕ → Option ℕ → ℕ
number_or def none = def
number_or def (some n) = min n line_max_csi_num

unfoldable pub csi_num : Str → ℕ → ℕ
unfolding atoi_signed trim_space cut
csi_num p def =
    if str_eq (trim_space p) []
    then def
    else number_or def (atoi_signed (cut b';' (trim_space p)).0)

-- The first cells overwritten by blanks.
unfoldable pub blank : ℕ → List ℕ → List ℕ
blank zero line = line
blank (suc n) [] = []
blank (suc n) (r ∷ line) = b' ' ∷ blank n line

unfoldable pub erase_in_line : ℕ → Filter → Filter
unfolding blank
erase_in_line n f =
    if n == 0
    then (if ltb f.col (length f.line) then record f { line = take f.col f.line } else f)
    else if n == 1
    then record f { line = blank f.col f.line }
    else if n == 2
    then record f { line = [] }
    else f

unfoldable pub strip_private : Str → Str
strip_private [] = []
strip_private (c ∷ s) =
    let rest = strip_private s in
    if c == b'?' || c == b'>' || c == b'=' || c == b'!' then rest else c ∷ s

unfoldable pub apply_csi : Str → ℕ → Filter → Filter
unfolding strip_private csi_num erase_in_line clamp
apply_csi params final f =
    let p = strip_private params in
    if final == b'K'
    then erase_in_line (csi_num p 0) f
    else if final == b'G'
    then record f { col = clamp (csi_num p 1 - 1) 0 line_max_cols }
    else if final == b'C'
    then record f { col = clamp (f.col + csi_num p 1) 0 line_max_cols }
    else if final == b'D'
    then record f { col = clamp (f.col - csi_num p 1) 0 line_max_cols }
    else f

-- The filter and what is left of the input; `none` if the sequence is not complete.
unfoldable pub consume_csi : Str → Str → Filter → Option (Filter × Str)
unfolding apply_csi
consume_csi params [] f = none
consume_csi params (c ∷ s) f =
    let more = consume_csi (params ++ c ∷ []) s f in
    if leb 0x40 c && leb c 0x7e
    then some (apply_csi params c f, s)
    else if leb 0x20 c && leb c 0x3f
    then more
    else some (f, s)

abbrev ends_string : Str → Bool
ends_string [] = false
ends_string (d ∷ s) = d == b'\\'

unfoldable pub consume_string_term : Str → Option Str
consume_string_term [] = none
consume_string_term (c ∷ s) =
    let more = consume_string_term s in
    if c == 7 then some s else if c == 0x1b && ends_string s then some (drop 1 s) else more

abbrev past_string : Filter → Option Str → Option (Filter × Str)
past_string f none = none
past_string f (some s) = some (f, s)

abbrev past_one : Filter → Str → Option (Filter × Str)
past_one f [] = none
past_one f (c ∷ s) = some (f, s)

-- consumeESC, behind the escape byte
unfoldable pub consume_esc : Str → Filter → Option (Filter × Str)
unfolding consume_csi consume_string_term
consume_esc [] f = none
consume_esc (c ∷ s) f =
    if c == b'['
    then consume_csi [] s f
    else if c == b']' || c == b'P' || c == b'X' || c == b'^' || c == b'_'
    then past_string f (consume_string_term s)
    else if c == b'(' || c == b')' || c == b'*' || c == b'+' || c == b'#'
    then past_one f s
    else some (f, s)

-- The lines that were committed, and the filter; `none` if the code does not return.
abbrev pub Written : Type 0
Written = Option (List (List ℕ) × Filter)

-- The rest of the input is kept for the next write.
unfoldable pub keep : Str → Filter → Written
keep s f = some ([], record f { pending = s })

unfoldable pub after_escape :
    (Str → Filter → Written) → Str → Filter → Option (Filter × Str) → Written
unfolding keep
after_escape more s f none = keep s f
after_escape more s f (some (g, rest)) = more rest g

abbrev pub commit : Option (List ℕ) → Written → Written
commit none w = w
commit (some l) none = none
commit (some l) (some (ls, g)) = some (l ∷ ls, g)

unfoldable pub after_rune :
    (Str → Filter → Written) → Str → Option (Option (List ℕ) × Filter) → Written
after_rune more s none = none
after_rune more s (some (o, g)) = commit o (more s g)

unfoldable pub take_rune : (Str → Filter → Written) → Str → Filter → ℕ × ℕ → Written
unfolding after_rune put_rune keep full_rune
take_rune more s f (r, size) =
    if r == rune_error && size == 1
    then (if full_rune s then more (drop 1 s) f else keep s f)
    else after_rune more (drop size s) (put_rune r f)

unfoldable pub write_step : (Str → Filter → Written) → Str → Filter → Written
unfolding after_escape take_rune keep consume_esc consume_csi decode_rune
write_step more [] f = keep [] f
write_step more (c ∷ s) f =
    if c == 0x1b
    then after_escape more (c ∷ s) f (consume_esc s f)
    else if c == 0x9b
    then after_escape more (c ∷ s) f (consume_csi [] s f)
    else take_rune more (c ∷ s) f (decode_rune (c ∷ s))

unfoldable pub scan : ℕ → Str → Filter → Written
unfolding write_step
scan zero s f = none
scan (suc fuel) s f = write_step (scan fuel) s f

-- What is too old is dropped.
unfoldable pub newest : Str → Str
newest s = if ltb line_max_pending (length s) then drop (length s - line_max_pending) s else s

-- write: each round takes at least one byte, so its length bounds the rounds.
unfoldable pub write : Str → Filter → Written
unfolding scan newest
write [] f = some ([], f)
write (c ∷ p) f = let s = newest (f.pending ++ c ∷ p) in scan (suc (length s)) s f
