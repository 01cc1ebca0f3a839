-- ===== src/Taskgroup/LineWriter.antt =====
-- pkg/taskgroup/linewriter.go: the hub of live rows, and a writer that feeds its row.
pub mod Hub
use workspaced.Prelude.{
  ℕ, Bool, true, false, Option, none, some, List, [], ◌∷◌, ◌++◌, if◌then◌else◌, Str, length, str_eq,
}
use workspaced.Prelude.GoMap
use workspaced.Prelude.GoMap.{GoMap}
use workspaced.Taskgroup.LineFilter.{Filter, write, take_line, reset}

-- liveHub without its registry of writers; the text of a row is its runes.
pub record LiveHub : Type 0 where
  pub order : List Str
  pub slots : GoMap (List ℕ)

-- The first occurrence goes.
unfoldable pub without : Str → List Str → List Str
without id [] = []
without id (x ∷ xs) = let rest = without id xs in if str_eq x id then xs else x ∷ rest

abbrev drop_slot : Str → LiveHub → Option (List ℕ) → LiveHub
drop_slot id h none = h
drop_slot id h (some text) = record { order = without id h.order; slots = GoMap.remove h.slots id }

unfoldable pub drop_locked : Str → LiveHub → LiveHub
unfolding without
drop_locked id h = drop_slot id h (GoMap.get h.slots id)

abbrev append_new : Str → List Str → Option (List ℕ) → List Str
append_new id order none = order ++ id ∷ []
append_new id order (some text) = order

unfoldable pub set_row : Str → List ℕ → LiveHub → LiveHub
unfolding drop_locked
set_row id [] h = drop_locked id h
set_row id (r ∷ text) h = record {
  order = append_new id h.order (GoMap.get h.slots id);
  slots = GoMap.put h.slots id (r ∷ text);
}

abbrev shown : Option (List ℕ) → List (List ℕ) → List (List ℕ)
shown none rows = rows
shown (some []) rows = rows
shown (some (r ∷ text)) rows = (r ∷ text) ∷ rows

unfoldable pub rows_of : GoMap (List ℕ) → List Str → List (List ℕ)
rows_of slots [] = []
rows_of slots (id ∷ order) = shown (GoMap.get slots id) (rows_of slots order)

unfoldable pub snapshot : LiveHub → List (List ℕ)
unfolding rows_of
snapshot h = rows_of h.slots h.order

-- A lineWriter with the hub that it shares, and what its print function got so far.
pub record LineWriter : Type 0 where
  pub id : Str
  pub hub : LiveHub
  pub printed : List (List ℕ)
  pub commit_on_close : Bool
  pub filter : Filter
  pub closed : Bool

-- What Write returns: its count of bytes or ErrClosedPipe. `none` around it: it does not return.
pub data WriteResult : Type 0 where
  wrote : ℕ → WriteResult
  closed_pipe : WriteResult

abbrev shown_row :
    ℕ → LineWriter → Option (List (List ℕ) × Filter) → Option (WriteResult × LineWriter)
shown_row n w none = none
shown_row n w (some (lines, f)) = some (
  wrote n,
  record w { filter = f; printed = w.printed ++ lines; hub = set_row w.id f.line w.hub },
)

unfoldable pub write_row : Str → LineWriter → Option (WriteResult × LineWriter)
unfolding write set_row
write_row p w =
    if w.closed then some (closed_pipe, w) else shown_row (length p) w (write p w.filter)

abbrev leftover : Bool → List ℕ → List (List ℕ)
leftover flush [] = []
leftover flush (r ∷ text) = if flush then (r ∷ text) ∷ [] else []

unfoldable pub close : LineWriter → LineWriter
unfolding drop_locked take_line
close w =
    let (text, f) = take_line w.filter in
    if w.closed then w else record w {
      closed = true;
      filter = f;
      hub = drop_locked w.id w.hub;
      printed = w.printed ++ leftover w.commit_on_close text;
    }

unfoldable pub abandon : LineWriter → List ℕ × LineWriter
unfolding take_line
abandon w =
    let (text, f) = take_line w.filter in
    if w.closed then ([], w) else (text, record w { closed = true; filter = f })
