-- ===== src/Xterm/Screen/Esc.antt =====
-- internal/xterm/inputhandler_esc.go: the cursor that is saved, the rows below and above, and resets.
use daemontest.Prelude.{
  ℕ, zero, suc, ◌+◌, ◌-◌, ◌^◌, Bool, true, false, List, [], ◌∷◌, Option, none, some, ◌==◌,
  if◌then◌else◌,
}
use daemontest.Prelude.Int.{pos}
use daemontest.Xterm.Attr.{AttributeData}
use daemontest.Xterm.Cell.{CellData}
use daemontest.Xterm.BufferLine.{BufferLine}
use daemontest.Xterm.BufferLine.Bulk.{fill_line}
use daemontest.Xterm.CircularList.{put, shift_elements}
use daemontest.Xterm.Buffer.{
  Buffer, Charset, CharsetService, SavedCursorState, setg_level, setg_charset, get_blank_line,
  with_lines, line_at,
}
use daemontest.Xterm.Screen.{
  Screen, reset_requested, scroll_bar_synced, active, on_active, fire, mark_range_dirty,
  mark_all_dirty, erase_attr_data, keep_erase,
}
use daemontest.Xterm.Screen.Scroll.{scroll, put_active}
use daemontest.Xterm.Screen.Cursor.{restrict_cursor, set_cursor, to_column_0, row_below}

abbrev pub saved_by : Screen → Buffer → SavedCursorState
saved_by s b = record {
  x = b.x;
  y = b.y_base + b.y;
  cur_attr_data = s.cur_attr_data;
  charset = s.charset_service.charset;
  charsets = s.charset_service.charsets;
  g_level = s.charset_service.g_level;
  origin_mode = s.core.dec.origin;
  wraparound_mode = s.core.dec.wraparound;
}

unfoldable pub save_cursor : Screen → Screen
save_cursor s = on_active (λ b. record b { saved_state = saved_by s b }) s

-- `for i, cs := range …`
unfoldable pub set_charsets : ℕ → List Charset → CharsetService → CharsetService
unfolding setg_charset
set_charsets i [] cs = cs
set_charsets i (c ∷ rest) cs = set_charsets (i + 1) rest (setg_charset i c cs)

-- The extended attributes are left as they are.
unfoldable pub restore_cursor : Screen → Screen
unfolding restrict_cursor set_charsets setg_level
restore_cursor s =
    let v = (active s).saved_state in
    restrict_cursor (record (on_active (λ b. record b { x = v.x; y = v.y - b.y_base }) s) {
      cur_attr_data = record (s.cur_attr_data) { fg = v.cur_attr_data.fg; bg = v.cur_attr_data.bg };
      charset_service = setg_level v.g_level (set_charsets 0 v.charsets s.charset_service);
      core = record (s.core) {
        dec = record (s.core.dec) { origin = v.origin_mode; wraparound = v.wraparound_mode };
      };
    })

unfoldable pub index : Screen → Option Screen
unfolding restrict_cursor scroll erase_attr_data keep_erase row_below
index s =
    let r = restrict_cursor s in
    if (active r).y == (active r).scroll_bottom
    then elim (scroll (erase_attr_data r) false (keep_erase r)) [
      | none ↦ none
      | some t ↦ some (restrict_cursor t)
    ]
    else some (restrict_cursor (on_active (row_below r.rows false) r))

-- The rows below the cursor move down, and a blank one takes its place.
unfoldable pub scroll_back_lines : AttributeData → Buffer → Option Buffer
unfolding shift_elements put get_blank_line with_lines
scroll_back_lines attr b =
    elim (shift_elements none (b.y_base + b.y) (b.scroll_bottom - b.scroll_top) (pos 1) b.lines) [
      | none ↦ none
      | some r ↦
          some
            (with_lines (put none r.0 (b.y_base + b.y) (some (get_blank_line b attr false)), r.1) b)
    ]

-- The margins do not cross.
unfoldable pub reverse_index : Screen → Option Screen
unfolding restrict_cursor scroll_back_lines erase_attr_data keep_erase mark_range_dirty
reverse_index s =
    let r = restrict_cursor s in
    let b = active r in
    let up = on_active (λ c. record c { y = c.y - 1 }) r in
    if b.y == b.scroll_top
    then elim (scroll_back_lines (erase_attr_data r) b) [
      | none ↦ none
      | some c ↦ some (mark_range_dirty b.scroll_top b.scroll_bottom (put_active c (keep_erase r)))
    ]
    else if b.y == 0
    then some (restrict_cursor r)
    else some (restrict_cursor up)

unfoldable pub next_line : Screen → Option Screen
unfolding index
next_line s = index (to_column_0 s)

unfoldable pub tab_set : Screen → Screen
tab_set s = on_active (λ b. record b { tabs = λ j. if j == b.x then true else b.tabs j }) s

-- `KeypadApplicationMode` and `KeypadNumericMode`
unfoldable pub keypad_mode : Bool → Screen → Screen
keypad_mode on s =
    fire scroll_bar_synced (record s {
      core = record (s.core) { dec = record (s.core.dec) { application_keypad = on } };
    })

-- The parser is reset beside it.
unfoldable pub full_reset : Screen → Screen
full_reset s = fire reset_requested s

unfoldable pub select_g_level : ℕ → Screen → Screen
unfolding setg_level
select_g_level level s = record s { charset_service = setg_level level s.charset_service }

unfoldable pub select_default_charset : Screen → Screen
unfolding setg_level setg_charset
select_default_charset s = record s {
  charset_service = setg_charset 0 none (setg_level 0 s.charset_service);
}

-- A line full of `cell`.
unfoldable pub filled_line : CellData → Option BufferLine → Option BufferLine
unfolding fill_line
filled_line cell none = none
filled_line cell (some l) = some (record (fill_line cell false l) { is_wrapped = false })

-- `n` rows from line `i` on.
unfoldable pub fill_rows : ℕ → ℕ → CellData → Buffer → Buffer
unfolding line_at put filled_line
fill_rows i zero cell b = b
fill_rows i (suc n) cell b =
    fill_rows (i + 1) n cell
      (record b { lines = put none b.lines i (filled_line cell (line_at b i)) })

-- An `E` of width 1; the extended attributes are nil.
abbrev pub letter_e : AttributeData → CellData
letter_e a = record {
  attrs = record a { extended = record { ext = 0; url_id = 0 } };
  content = 2 ^ 22 + 69;
  combined_data = [];
}

unfoldable pub screen_alignment_pattern : Screen → Screen
unfolding set_cursor fill_rows mark_all_dirty
screen_alignment_pattern s =
    let home = set_cursor (pos 0) (pos 0) s in
    set_cursor (pos 0) (pos 0) (
      mark_all_dirty
        (on_active (λ b. fill_rows (b.y_base + b.y) s.rows (letter_e s.cur_attr_data) b) home))
