-- ===== src/Xterm/Screen/Parse/Tests.antt =====
-- internal/xterm/inputhandler.go: text in a row, a line feed, and a panic that bytes can lead to.
use Prim.{tt}
use daemontest.Prelude.{
  ℕ, ◌+◌, ◌≡◌, refl, false, true, List, [], ◌∷◌, ◌++◌, Option, none, some, arith, ◌⊗◌,
}
use daemontest.Prelude.Bytes.{codes}
use daemontest.Xterm.Attr.{default_attr_data}
use daemontest.Xterm.BufferLine.{BufferLine}
use daemontest.Xterm.BufferLine.Bulk.{new_buffer_line}
use daemontest.Xterm.Buffer.{Buffer, get_null_cell, add_marker, translate_buffer_line_to_string}
use daemontest.Xterm.TextDecoder.{cleared}
use daemontest.Xterm.TextDecoder.RoundTrip.{utf8_all}
use daemontest.Xterm.Params.{add_digit, reset, next_value}
use daemontest.Xterm.Table.{ParserState, transition}
use daemontest.Xterm.Parser.{
  Event, new_parser, round, act, span, param_codes, param_code, zero_param, digit_added,
}
use daemontest.Xterm.Screen.Cursor.{line_feed, carriage_return, cursor_forward, bell}
use daemontest.Xterm.Unicode.{wcwidth}
use daemontest.Xterm.Screen.{Screen, new_screen, active}
use daemontest.Xterm.Screen.Print.{cursor_line}
use daemontest.Xterm.Screen.Print.Row.{Written}
use daemontest.Xterm.Screen.Print.Ready.{Ready}
use daemontest.Xterm.Screen.Parse.{Terminal, parse}
use daemontest.Xterm.Screen.Parse.Text.{parse-read_back}

-- Row 1, column 2 of a screen with 10 columns and 3 rows.
abbrev placed : Screen
placed = let s = new_screen 10 3 0 8 in record s { normal = record (s.normal) { x = 2; y = 1 } }

abbrev marking : ℕ → ℕ → Buffer → Buffer
marking id y b = add_marker y b

-- No handlers of strings.
abbrev unheard : Event → ℕ × Screen → Option (ℕ × Screen)
unheard e s = some s

abbrev terminal : Screen → Terminal ℕ
terminal s = record { decoder = cleared; parser = new_parser; strings = 0; screen = s }

-- A blank row.
abbrev row : BufferLine
row = new_buffer_line 10 (some (get_null_cell default_attr_data)) false

placed-Ready : Ready placed 2 row
unfolding new_screen cursor_line
placed-Ready = record {
  line = refl;
  column = refl;
  full = refl;
  ring = record { stored = refl; room = omega arith; len_in = omega arith };
}

-- An "H", an ideograph and an "i".
parse-read_back_example :
    (u : Terminal ℕ) × (m : BufferLine) × (parse marking unheard
        (utf8_all (72 ∷ 0x4E00 ∷ 105 ∷ []))
        (terminal placed)
      ≡ some u)
    × (u.decoder ≡ cleared)
    × (u.parser.current_state ≡ ParserState.ground)
    × (cursor_line u.screen ≡ some m)
    × ((active u.screen).x ≡ 6)
    × ((active u.screen).y ≡ 1)
    × (translate_buffer_line_to_string 1 false 2 (some (active u.screen).x) (active u.screen)
        ≡ 72 ∷ 0x4E00 ∷ 105 ∷ [])
    × Written 1 ((active u.screen).x + 1) row m
unfolding new_screen new_parser wcwidth add_marker
parse-read_back_example =
    parse-read_back marking unheard 72 (0x4E00 ∷ 105 ∷ []) (terminal placed) row (λ id y b. refl)
      refl refl placed-Ready (omega arith) refl
      ((omega arith, refl, refl) ⊗ (omega arith, refl, refl) ⊗ (omega arith, refl, refl) ⊗ tt)
      (refl ⊗ refl ⊗ refl ⊗ tt)
      ((ground arith, (omega arith, omega arith))
        ⊗ (ground arith, (omega arith, omega arith))
        ⊗ (ground arith, (omega arith, omega arith))
        ⊗ tt)
      (omega arith) (omega arith)

abbrev rows_of : Option (Terminal ℕ) → List (List ℕ)
rows_of none = []
rows_of (some t) =
    translate_buffer_line_to_string 1 true 0 none (active t.screen)
    ∷ translate_buffer_line_to_string 2 true 0 none (active t.screen)
    ∷ []

-- A carriage return, a line feed, and a relative move to the right.
two_rows :
    rows_of (parse marking unheard (codes "ab" ++ 13 ∷ 10 ∷ 27 ∷ codes "[2Cc") (terminal placed))
    ≡ codes "  ab" ∷ codes "  c" ∷ []
unfolding new_screen new_parser parse translate_buffer_line_to_string cleared round act transition
    span line_feed carriage_return cursor_forward param_codes param_code digit_added add_digit
    zero_param reset next_value
two_rows = refl

-- A full row, a bell, and a combining accent.
accent_behind_full_row :
    parse marking unheard (codes "12345678" ++ 7 ∷ 0xCC ∷ 0x81 ∷ []) (terminal placed) ≡ none
unfolding new_screen new_parser parse cleared round act transition span zero_param reset bell
accent_behind_full_row = refl
