-- ===== src/Xterm/Screen/Dispatch.antt =====
-- internal/xterm/inputhandler.go, parser.go: the handlers that are registered for codes, but for the ones that
-- print, change the colors or may scroll: REP, SGR, LF, VT, FF, IND, NEL, RI and the designations of
-- character sets are not in the tables; `Parse` has them.
use daemontest.Prelude.{ℕ, ◌+◌, ◌*◌, true, false, List, [], ◌∷◌, ◌++◌, ◌==◌, if◌then◌else◌}
use daemontest.Prelude.Bytes.{codes}
use daemontest.Xterm.Params.{Params}
use daemontest.Xterm.Parser.{Event, executed, csi, esc}
use daemontest.Xterm.Screen.{Screen}
use daemontest.Xterm.Screen.Cursor.{
  cursor_up, cursor_down, cursor_forward, cursor_backward, cursor_next_line, cursor_preceding_line,
  cursor_char_absolute, cursor_position, cursor_forward_tab, cursor_backward_tab, line_pos_absolute,
  v_position_relative, tab_clear, set_scroll_region, bell, carriage_return, backspace, tab,
}
use daemontest.Xterm.Screen.Esc.{
  save_cursor, restore_cursor, tab_set, keypad_mode, full_reset, select_g_level,
  select_default_charset, screen_alignment_pattern,
}
use daemontest.Xterm.Screen.Csi.{
  erase_in_display, erase_in_line, erase_chars, insert_chars, delete_chars, insert_lines,
  delete_lines, scroll_up, scroll_down, scroll_left, scroll_right, insert_columns, delete_columns,
  select_protected,
}
use daemontest.Xterm.Screen.Modes.{set_mode, set_mode_private}
use daemontest.Xterm.Screen.Keyboard.{kitty_keyboard_set, kitty_keyboard_push, kitty_keyboard_pop}
use daemontest.Xterm.Screen.Reports.{
  send_device_attributes_primary, send_device_attributes_secondary, send_xt_version, device_status,
  device_status_private, request_mode, kitty_keyboard_query, window_options, set_cursor_style,
  soft_reset,
}

-- `identifier`, of the prefix, the intermediates and the final code in one text.
unfoldable pub identifier : ℕ → List ℕ → ℕ
identifier collect [] = collect
identifier collect (c ∷ cs) = identifier (collect * 256 + c) cs

abbrev pub Table : Type 0
Table = List (ℕ × (Params → Screen → Screen))

unfoldable pub on_code {ℓ} : {H : Type ℓ} → List ℕ → H → ℕ × H
unfolding identifier
on_code text h = (identifier 0 text, h)

-- The handler of a code, or the fallback, which does nothing.
unfoldable pub handler_of {ℓ} : {H : Type ℓ} → H → ℕ → List (ℕ × H) → H
handler_of fallback code [] = fallback
handler_of fallback code ((c, h) ∷ rest) = if c == code then h else handler_of fallback code rest

unfoldable pub cursor_handlers : Table
unfolding on_code
cursor_handlers =
    on_code (codes "A") cursor_up
    ∷ on_code (codes "B") cursor_down
    ∷ on_code (codes "C") cursor_forward
    ∷ on_code (codes "D") cursor_backward
    ∷ on_code (codes "E") cursor_next_line
    ∷ on_code (codes "F") cursor_preceding_line
    ∷ on_code (codes "G") cursor_char_absolute
    ∷ on_code (codes "H") cursor_position
    ∷ on_code (codes "I") cursor_forward_tab
    ∷ on_code (codes "Z") cursor_backward_tab
    ∷ on_code (codes "`") cursor_char_absolute
    ∷ on_code (codes "a") cursor_forward
    ∷ on_code (codes "d") line_pos_absolute
    ∷ on_code (codes "e") v_position_relative
    ∷ on_code (codes "f") cursor_position
    ∷ []

unfoldable pub row_handlers : Table
unfolding on_code
row_handlers =
    on_code (codes "J") (erase_in_display false)
    ∷ on_code (codes "K") (erase_in_line false)
    ∷ on_code (codes "X") erase_chars
    ∷ on_code (codes "?J") (erase_in_display true)
    ∷ on_code (codes "?K") (erase_in_line true)
    ∷ on_code (codes "@") insert_chars
    ∷ on_code (codes "L") insert_lines
    ∷ on_code (codes "M") delete_lines
    ∷ on_code (codes "P") delete_chars
    ∷ on_code (codes "S") scroll_up
    ∷ on_code (codes "T") scroll_down
    ∷ on_code (codes "^") scroll_down
    ∷ on_code (codes " @") scroll_left
    ∷ on_code (codes " A") scroll_right
    ∷ on_code (codes "'}") insert_columns
    ∷ on_code (codes "'~") delete_columns
    ∷ []

unfoldable pub mode_handlers : Table
unfolding on_code
mode_handlers =
    on_code (codes "c") send_device_attributes_primary
    ∷ on_code (codes ">c") send_device_attributes_secondary
    ∷ on_code (codes ">q") send_xt_version
    ∷ on_code (codes "g") tab_clear
    ∷ on_code (codes "n") device_status
    ∷ on_code (codes "?n") device_status_private
    ∷ on_code (codes "!p") (λ _. soft_reset)
    ∷ on_code (codes "$p") (request_mode false)
    ∷ on_code (codes "?$p") (request_mode true)
    ∷ on_code (codes " q") set_cursor_style
    ∷ on_code (codes "r") set_scroll_region
    ∷ on_code (codes "t") window_options
    ∷ on_code (codes "s") (λ _. save_cursor)
    ∷ on_code (codes "u") (λ _. restore_cursor)
    ∷ on_code (codes "=u") kitty_keyboard_set
    ∷ on_code (codes "?u") (λ _. kitty_keyboard_query)
    ∷ on_code (codes ">u") kitty_keyboard_push
    ∷ on_code (codes "<u") kitty_keyboard_pop
    ∷ on_code (codes "\"q") select_protected
    ∷ on_code (codes "h") (set_mode true)
    ∷ on_code (codes "l") (set_mode false)
    ∷ on_code (codes "?h") (set_mode_private true)
    ∷ on_code (codes "?l") (set_mode_private false)
    ∷ []

unfoldable pub esc_handlers : List (ℕ × (Screen → Screen))
unfolding on_code
esc_handlers =
    on_code (codes "7") save_cursor
    ∷ on_code (codes "8") restore_cursor
    ∷ on_code (codes "H") tab_set
    ∷ on_code (codes "=") (keypad_mode true)
    ∷ on_code (codes ">") (keypad_mode false)
    ∷ on_code (codes "c") full_reset
    ∷ on_code (codes "n") (select_g_level 2)
    ∷ on_code (codes "o") (select_g_level 3)
    ∷ on_code (codes "|") (select_g_level 3)
    ∷ on_code (codes "}") (select_g_level 2)
    ∷ on_code (codes "~") (select_g_level 1)
    ∷ on_code (codes "%@") select_default_charset
    ∷ on_code (codes "%G") select_default_charset
    ∷ on_code (codes "#8") screen_alignment_pattern
    ∷ []

-- `executeHandlers`
unfoldable pub execute_handlers : List (ℕ × (Screen → Screen))
execute_handlers =
    (0x07, bell)
    ∷ (0x0D, carriage_return)
    ∷ (0x08, backspace)
    ∷ (0x09, tab)
    ∷ (0x0E, select_g_level 1)
    ∷ (0x0F, select_g_level 0)
    ∷ []

-- What an event of the parser calls whose code is in these tables; `Parse` looks at its own tables first, so
-- that the fallback, which does nothing, is left for codes that have no handler at all.
unfoldable pub handle : Event → Screen → Screen
unfolding handler_of cursor_handlers row_handlers mode_handlers esc_handlers execute_handlers
handle (csi code p) s =
    handler_of (λ _ t. t) code (cursor_handlers ++ row_handlers ++ mode_handlers) p s
handle (esc code) s = handler_of (λ t. t) code esc_handlers s
handle (executed code) s = handler_of (λ t. t) code execute_handlers s
handle _ s = s
