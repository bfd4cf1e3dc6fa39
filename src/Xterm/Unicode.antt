-- ===== src/Xterm/Unicode.antt =====
-- internal/xterm/unicode.go: the widths of characters, and which ones join the cell before them.
pub mod Tables
pub mod Search
pub mod Widths
pub mod Spec
mod Tests
use daemontest.Prelude.{
  ℕ, zero, suc, ◌+◌, ◌-◌, ◌*◌, ◌/◌, Bool, true, false, not, ◌&&◌, ◌||◌, List, [], ◌∷◌, Option, none,
  some, ltb, leb, ◌==◌, if◌then◌else◌, length, get_or,
}
use daemontest.Prelude.Bits.{◌&◌, ◌∣◌}
use daemontest.Xterm.Unicode.Tables.{high_combining, bmp_width_table}

abbrev pub range_at : List (ℕ × ℕ) → ℕ → ℕ × ℕ
range_at ranges i = get_or ranges i (0, 0)

-- The loop, for at most `n` rounds. `end` is one more than `hi`.
unfoldable pub search_from : ℕ → List (ℕ × ℕ) → ℕ → ℕ → ℕ → Bool
search_from ucs ranges zero lo end = false
search_from ucs ranges (suc n) lo end =
    let mid = (lo + end - 1) / 2 in
    let above = search_from ucs ranges n (mid + 1) end in
    let below = search_from ucs ranges n lo mid in
    if leb end lo
    then false
    else if ltb ((range_at ranges mid).1) ucs
    then above
    else if ltb ucs ((range_at ranges mid).0)
    then below
    else true

-- There is at least one range.
unfoldable pub bisearch : ℕ → List (ℕ × ℕ) → Bool
unfolding search_from
bisearch ucs ranges =
    if ltb ucs ((range_at ranges 0).0) || ltb ((range_at ranges (length ranges - 1)).1) ucs
    then false
    else search_from ucs ranges (length ranges) 0 (length ranges)

-- The width outside the basic plane.
unfoldable pub high_width : ℕ → ℕ
unfolding bisearch high_combining
high_width num =
    if bisearch num high_combining
    then 0
    else if leb 0x2_0000 num && leb num 0x2_FFFD || leb 0x3_0000 num && leb num 0x3_FFFD
    then 2
    else 1

unfoldable pub wcwidth : ℕ → ℕ
unfolding high_width bmp_width_table
wcwidth num =
    if ltb num 32
    then 0
    else if ltb num 127
    then 1
    else if ltb num 65536
    then bmp_width_table num
    else high_width num

unfoldable pub extract_should_join : ℕ → Bool
extract_should_join value = not (value & 1 == 0)

unfoldable pub extract_char_props_width : ℕ → ℕ
extract_char_props_width value = value / 2 & 3

unfoldable pub create_property_value : ℕ → ℕ → Bool → ℕ
create_property_value char_kind width should_join =
    (char_kind & 0xFF_FFFF) * 8 ∣ (width & 3) * 2 ∣ (if should_join then 1 else 0)

unfoldable pub char_properties : ℕ → ℕ → ℕ
unfolding wcwidth extract_char_props_width create_property_value
char_properties codepoint preceding =
    let w = wcwidth codepoint in
    let old_width = extract_char_props_width preceding in
    if w == 0 && not (preceding == 0) && ltb 0 old_width
    then create_property_value 0 old_width true
    else create_property_value 0 w false

-- Of the runes that the string decodes to; `none` is a byte that is none.
unfoldable pub get_string_cell_width : List (Option ℕ) → ℕ
unfolding wcwidth
get_string_cell_width [] = 0
get_string_cell_width (none ∷ rest) = 1 + get_string_cell_width rest
get_string_cell_width (some r ∷ rest) = wcwidth r + get_string_cell_width rest
