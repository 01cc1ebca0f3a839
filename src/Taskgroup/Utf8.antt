-- ===== src/Taskgroup/Utf8.antt =====
-- unicode/utf8: DecodeRune and FullRune, which the line filter calls.
use workspaced.Prelude.{
  ℕ, zero, suc, ◌-◌, ◌+◌, ◌*◌, ◌%◌, Bool, true, false, ◌&&◌, not, [], ◌∷◌, leb, ltb, ◌==◌,
  if◌then◌else◌, Str,
}

-- What the first byte says: a rune of its own, no rune, or the number of bytes and the range of the
-- second one.
pub data Lead : Type 0 where
  ascii invalid : Lead
  two : Lead
  three four : ℕ → ℕ → Lead

unfoldable pub lead : ℕ → Lead
lead c =
    if ltb c 0x80
    then ascii
    else if ltb c 0xc2
    then invalid
    else if ltb c 0xe0
    then two
    else if c == 0xe0
    then three 0xa0 0xbf
    else if c == 0xed
    then three 0x80 0x9f
    else if ltb c 0xf0
    then three 0x80 0xbf
    else if c == 0xf0
    then four 0x90 0xbf
    else if ltb c 0xf4
    then four 0x80 0xbf
    else if c == 0xf4
    then four 0x80 0x8f
    else invalid

abbrev pub rune_error : ℕ
rune_error = 0xfffd

abbrev pub within : ℕ → ℕ → ℕ → Bool
within lo hi c = leb lo c && leb c hi

abbrev pub is_cont : ℕ → Bool
is_cont = within 0x80 0xbf

abbrev bad : ℕ × ℕ
bad = (rune_error, 1)

abbrev decode_two : ℕ → Str → ℕ × ℕ
decode_two c [] = bad
decode_two c (d ∷ s) = if is_cont d then ((c % 32) * 64 + d % 64, 2) else bad

abbrev decode_three : ℕ → ℕ → ℕ → Str → ℕ × ℕ
decode_three lo hi c [] = bad
decode_three lo hi c (d ∷ []) = bad
decode_three lo hi c (d ∷ e ∷ s) =
    if within lo hi d && is_cont e then ((c % 16) * 4096 + (d % 64) * 64 + e % 64, 3) else bad

abbrev decode_four : ℕ → ℕ → ℕ → Str → ℕ × ℕ
decode_four lo hi c [] = bad
decode_four lo hi c (d ∷ []) = bad
decode_four lo hi c (d ∷ e ∷ []) = bad
decode_four lo hi c (d ∷ e ∷ g ∷ s) =
    if within lo hi d && is_cont e && is_cont g
    then ((c % 8) * 262144 + (d % 64) * 4096 + (e % 64) * 64 + g % 64, 4)
    else bad

abbrev decode_by : Lead → ℕ → Str → ℕ × ℕ
decode_by ascii c s = (c, 1)
decode_by invalid c s = bad
decode_by two c s = decode_two c s
decode_by (three lo hi) c s = decode_three lo hi c s
decode_by (four lo hi) c s = decode_four lo hi c s

-- utf8.DecodeRune: the rune and its size; an invalid byte is RuneError of size 1.
unfoldable pub decode_rune : Str → ℕ × ℕ
unfolding lead
decode_rune [] = (rune_error, 0)
decode_rune (c ∷ s) = decode_by (lead c) c s

abbrev full_three : ℕ → ℕ → Str → Bool
full_three lo hi [] = false
full_three lo hi (d ∷ []) = not (within lo hi d)
full_three lo hi (d ∷ e ∷ s) = true

abbrev full_four : ℕ → ℕ → Str → Bool
full_four lo hi [] = false
full_four lo hi (d ∷ []) = not (within lo hi d)
full_four lo hi (d ∷ e ∷ []) = not (within lo hi d && is_cont e)
full_four lo hi (d ∷ e ∷ g ∷ s) = true

abbrev full_two : Str → Bool
full_two [] = false
full_two (d ∷ s) = true

abbrev full_by : Lead → Str → Bool
full_by ascii s = true
full_by invalid s = true
full_by two s = full_two s
full_by (three lo hi) s = full_three lo hi s
full_by (four lo hi) s = full_four lo hi s

-- utf8.FullRune: no further byte can change what DecodeRune says.
unfoldable pub full_rune : Str → Bool
unfolding lead
full_rune [] = false
full_rune (c ∷ s) = full_by (lead c) s

-- The rest of a rune of that size, or RuneError for an invalid byte.
abbrev is_rune : ℕ × ℕ → Bool
is_rune (r, n) = not ((r == rune_error) && (n == 1))

-- utf8.Valid; first the bytes that are left of a rune.
unfoldable pub is_text_from : ℕ → Str → Bool
unfolding decode_rune
is_text_from k [] = true
is_text_from (suc k) (c ∷ s) = is_text_from k s
is_text_from zero (c ∷ s) =
    let rest = is_text_from ((decode_rune (c ∷ s)).1 - 1) s in
    if is_rune (decode_rune (c ∷ s)) then rest else false

unfoldable pub is_text : Str → Bool
unfolding is_text_from
is_text s = is_text_from 0 s
