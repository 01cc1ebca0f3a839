-- ===== src/Taskgroup/Samples.antt =====
-- Rows on which the theorems on pkg/taskgroup/linefilter.go are applied.
use workspaced.Prelude.{arith, refl, ◌≡◌, [], ◌∷◌, codes, none, true, false}
use workspaced.Taskgroup.LineFilter.{Filter, apply_csi, put_rune, tab_loop}
use workspaced.Prelude.GoMap
use workspaced.Taskgroup.LineWriter.{LiveHub, LineWriter, set_row}
use workspaced.Taskgroup.LineWriter.Hub.{IsTracked, count_id, slot_count, set_row-IsTracked}
use workspaced.Taskgroup.LineFilter.Bounds.{Fits, apply_csi-Fits}
use workspaced.Taskgroup.LineFilter.Tabs.{put_rune-endless, put_rune-Returns, Returns}

abbrev full : Filter
full = record { pending = []; line = codes "abc"; col = 1024; after_cr = false }

abbrev some_row : Filter
some_row = record { pending = []; line = codes "abc"; col = 2; after_cr = true }

some_row-Fits : Fits some_row
unfolding Fits
some_row-Fits = (omega arith, omega arith)

apply_csi-Fits_example : Fits (apply_csi (codes "5000") b'G' some_row)
apply_csi-Fits_example = apply_csi-Fits (codes "5000") b'G' some_row some_row-Fits

put_rune-endless_example : (tab_loop 5000 1032 full ≡ none) × (put_rune b'\t' full ≡ none)
put_rune-endless_example = put_rune-endless full 5000 refl

put_rune-Returns_example : Returns (put_rune b'\t' some_row)
put_rune-Returns_example = put_rune-Returns b'\t' some_row some_row-Fits (omega arith)

abbrev hub : LiveHub
hub = record { order = codes "live-1" ∷ []; slots = (codes "live-1", codes "ab") ∷ [] }

hub-IsTracked : IsTracked hub
unfolding GoMap.get count_id
hub-IsTracked j = ground arith

set_row-IsTracked_example :
    count_id (codes "live-2") (set_row (codes "live-2") (codes "x") hub).order
    ≡ slot_count (GoMap.get (set_row (codes "live-2") (codes "x") hub).slots (codes "live-2"))
set_row-IsTracked_example =
    set_row-IsTracked (codes "live-2") (codes "x") hub hub-IsTracked (codes "live-2")

abbrev writer : LineWriter
writer = record {
  id = codes "live-1";
  hub = hub;
  printed = [];
  commit_on_close = true;
  filter = some_row;
  closed = false;
}
