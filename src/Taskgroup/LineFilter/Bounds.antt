-- ===== src/Taskgroup/LineFilter/Bounds.antt =====
-- pkg/taskgroup/linefilter.go: the row never grows past its last column.
use workspaced.Prelude.{
  arith, refl, ◌≡◌, ap, ℕ, zero, suc, ◌+◌, ◌-◌, ◌≤◌, List, [], ◌∷◌, ◌++◌, Str, length, replicate,
  length-append, length-set, length-take, length-replicate,
}
use workspaced.Taskgroup.LineFilter.{
  Filter, reset, start_frame, put_at, put, newline, clamp, blank, erase_in_line, apply_csi,
  strip_private, csi_num,
}

-- The cursor and the row end at the last column.
unfoldable pub Fits : Filter → Type 0
Fits f = (f.col ≤ 1024) × (length f.line ≤ 1024)

length-blank : (n : ℕ) (l : List ℕ) → length (blank n l) ≡ length l
unfolding blank
length-blank zero l = refl
length-blank (suc n) [] = refl
length-blank (suc n) (a ∷ l) = ap suc (length-blank n l)

-- A row that is filled up to its column and gets one more rune.
length-filled :
    (n r : ℕ) (line : List ℕ) → length (line ++ (replicate n 32 ++ r ∷ [])) ≡ length line + n + 1
length-filled n r line =
    let r0 : ℕ = 32 in
    omega (
      arith,
      length-append line (replicate n 32 ++ r ∷ []),
      length-append (replicate n 32) (r ∷ []),
      length-replicate n r0,
    )

pub put_at-Fits : (r : ℕ) (f : Filter) → Fits f → Fits (put_at r f)
unfolding put_at Fits
put_at-Fits r f h =
    ground (arith, length-set f.line f.col r, length-filled (f.col - length f.line) r f.line)

pub put-Fits : (r : ℕ) (f : Filter) → Fits f → Fits (put r f)
unfolding put start_frame Fits
put-Fits r f h = put_at-Fits r (start_frame f) (ground arith)

pub erase_in_line-Fits : (n : ℕ) (f : Filter) → Fits f → Fits (erase_in_line n f)
unfolding erase_in_line Fits
erase_in_line-Fits n f h = ground (arith, length-blank f.col f.line, length-take f.col f.line)

pub clamp-le : (v lo hi : ℕ) → lo ≤ hi → clamp v lo hi ≤ hi
unfolding clamp
clamp-le v lo hi h = ground arith

-- A control sequence keeps the cursor and the length of the row within 1024 columns, whatever its
-- parameters and its final byte are.
pub apply_csi-Fits : (p : Str) (c : ℕ) (f : Filter) → Fits f → Fits (apply_csi p c f)
unfolding apply_csi Fits
apply_csi-Fits p c f h =
    let q = strip_private p in
    ground (
      arith,
      erase_in_line-Fits (csi_num q 0) f h,
      clamp-le (csi_num q 1 - 1) 0 1024 (ground arith),
      clamp-le (f.col + csi_num q 1) 0 1024 (ground arith),
      clamp-le (f.col - csi_num q 1) 0 1024 (ground arith),
    )

pub newline-Fits : (f : Filter) → Fits (newline f).1
unfolding newline reset Fits
newline-Fits f = (omega arith, omega arith)
