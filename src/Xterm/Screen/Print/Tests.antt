-- ===== src/Xterm/Screen/Print/Tests.antt =====
-- internal/xterm/inputhandler.go: runs that fit and that wrap, and a character without width in a full row.
use Prim.{tt}
use daemontest.Prelude.{ℕ, ◌≡◌, refl, true, false, List, [], ◌∷◌, Option, none, some, arith, ◌⊗◌}
use daemontest.Prelude.Int.{pos}
use daemontest.Xterm.Params.{Params, default_params}
use daemontest.Xterm.Attr.{default_attr_data}
use daemontest.Xterm.BufferLine.{BufferLine}
use daemontest.Xterm.BufferLine.Bulk.{new_buffer_line}
use daemontest.Xterm.Buffer.{Buffer, get_null_cell, add_marker, translate_buffer_line_to_string}
use daemontest.Xterm.Unicode.{wcwidth}
use daemontest.Xterm.Screen.{Screen, new_screen, active}
use daemontest.Xterm.Screen.Print.{cursor_line, print, repeat_preceding_character}
use daemontest.Xterm.Screen.Print.TwoRows.{TwoRows}
use daemontest.Xterm.Screen.Print.AcrossRows.{print-across_rows}

-- Row 1, column 2 of a screen with 10 columns and 3 rows.
abbrev placed : Screen
placed = let s = new_screen 10 3 0 8 in record s { normal = record (s.normal) { x = 2; y = 1 } }

-- An "H", an ideograph and an "i".
abbrev run : List ℕ
run = 72 ∷ 0x4E00 ∷ 105 ∷ []

abbrev marking : ℕ → ℕ → Buffer → Buffer
marking id y b = add_marker y b

abbrev text_of_row : Option (ℕ × Screen) → List ℕ
text_of_row none = []
text_of_row (some (j, t)) = translate_buffer_line_to_string 1 false 0 none (active t)

-- The column of the cursor, the join state and the text.
written :
    (text_of_row (print marking run 0 placed))
    ≡ 32 ∷ 32 ∷ 72 ∷ 0x4E00 ∷ 105 ∷ 32 ∷ 32 ∷ 32 ∷ 32 ∷ []
unfolding new_screen print translate_buffer_line_to_string
written = refl

-- The cursor is right of the last column, and the join state is lost, as after every control sequence.
full_row : Screen
full_row = record placed { normal = record (placed.normal) { x = 10 } }

combining_in_full_row : print marking (0x301 ∷ []) 0 full_row ≡ none
unfolding new_screen print full_row
combining_in_full_row = refl

-- REP of the character before the cursor, twice.
abbrev twice : Params
twice = record default_params { len = 1; params = pos 2 ∷ [] }

abbrev repeated : Option (ℕ × Screen) → Option (ℕ × Screen)
repeated none = none
repeated (some (j, t)) = repeat_preceding_character marking twice j t

repeated_ideograph :
    text_of_row (repeated (print marking (0x4E00 ∷ []) 0 placed))
    ≡ 32 ∷ 32 ∷ 0x4E00 ∷ 0x4E00 ∷ 0x4E00 ∷ 32 ∷ 32 ∷ []
unfolding new_screen print repeat_preceding_character translate_buffer_line_to_string
repeated_ideograph = refl

-- Two columns are left: the ideograph behind an "H" goes to the next row.
abbrev edge : Screen
edge = record placed { normal = record (placed.normal) { x = 8 } }

abbrev row : BufferLine
row = new_buffer_line 10 (some (get_null_cell default_attr_data)) false

edge-TwoRows : TwoRows edge 8 row row
unfolding new_screen cursor_line
edge-TwoRows = record {
  upper = record {
    line = refl;
    column = refl;
    full = refl;
    ring = record { stored = refl; room = omega arith; len_in = omega arith };
  };
  lower = refl;
  lower_full = refl;
  lower_in = omega arith;
  row_in = omega arith;
  no_margin = omega arith;
}

print-across_rows_example :
    (j : ℕ) × (t : Screen) × (m : BufferLine) × (print marking run 0 edge ≡ some (j, t))
    × (cursor_line t ≡ some m)
    × (m.is_wrapped ≡ true)
    × ((active t).x ≡ 3)
    × ((active t).y ≡ 2)
    × (translate_buffer_line_to_string 1 false 8 (some 9) (active t) ≡ 72 ∷ [])
    × (translate_buffer_line_to_string 2 false 0 (some (active t).x) (active t) ≡ 0x4E00 ∷ 105 ∷ [])
unfolding new_screen wcwidth add_marker
print-across_rows_example =
    print-across_rows marking (72 ∷ []) (105 ∷ []) 0x4E00 0 edge row row (λ id y b. refl)
      edge-TwoRows refl refl ((ground arith, (omega arith, omega arith)) ⊗ tt)
      ((ground arith, (omega arith, omega arith)) ⊗ (ground arith, (omega arith, omega arith)) ⊗ tt)
      (omega arith) (omega arith) (omega arith)
