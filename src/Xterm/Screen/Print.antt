-- ===== src/Xterm/Screen/Print.antt =====
-- internal/xterm/inputhandler.go, inputhandler_csi.go: characters that are printed, and REP. `none` is the
-- panic of an index outside the cells of the row. Beside the screen goes the join state of the parser.
pub mod Row
pub mod Ready
pub mod Run
pub mod TwoRows
pub mod Wrap
pub mod Laid
pub mod Codes
pub mod ReadBack
pub mod AcrossRows
mod Tests
use daemontest.Prelude.{
  ℕ, zero, suc, ◌+◌, ◌-◌, Bool, true, false, ◌&&◌, List, [], ◌∷◌, ◌++◌, Option, none, some, ltb,
  leb, ◌==◌, if◌then◌else◌, length,
}
use daemontest.Xterm.Params.{Params}
use daemontest.Xterm.Attr.{AttributeData}
use daemontest.Xterm.Cell.{Text}
use daemontest.Xterm.BufferLine.{
  BufferLine, width_at, string_at, set_cell_from_codepoint, add_codepoint_to_cell,
}
use daemontest.Xterm.BufferLine.Bulk.{insert_cells, narrow_at, narrow_before, widen_at}
use daemontest.Xterm.CircularList.{put}
use daemontest.Xterm.Buffer.{Buffer, Charset, get_null_cell, line_at}
use daemontest.Xterm.Unicode.{char_properties, extract_char_props_width, extract_should_join}
use daemontest.Xterm.Screen.{Screen, active, on_active, mark_dirty, erase_attr_data, keep_erase}
use daemontest.Xterm.Screen.Cursor.{count_of}
use daemontest.Xterm.Screen.Csi.{on_line}
use daemontest.Xterm.Screen.Scroll.{scroll, put_active}

abbrev pub and_then {ℓ κ} : {A : Type ℓ} {B : Type κ} → Option A → (A → Option B) → Option B
and_then none f = none
and_then (some a) f = f a

-- A cell that is written, and the empty ones behind it.
unfoldable pub write_cell : ℕ → ℕ → ℕ → AttributeData → BufferLine → Option BufferLine
unfolding set_cell_from_codepoint
write_cell x code width attr l =
    if ltb x (length l.words) then some (set_cell_from_codepoint x code width attr l) else none

unfoldable pub write_stubs : ℕ → ℕ → AttributeData → BufferLine → Option BufferLine
unfolding write_cell
write_stubs zero x attr l = some l
write_stubs (suc n) x attr l = and_then (write_cell x 0 0 attr l) (write_stubs n (x + 1) attr)

unfoldable pub write_char : ℕ → ℕ → ℕ → AttributeData → BufferLine → Option BufferLine
unfolding write_cell write_stubs
write_char x code width attr l =
    and_then (write_cell x code width attr l) (write_stubs (width - 1) (x + 1) attr)

-- In insert mode the cells make room, and a wide character that reaches the last column is lost.
unfoldable pub make_room : Bool → ℕ → ℕ → ℕ → AttributeData → BufferLine → Option BufferLine
unfolding insert_cells narrow_at get_null_cell
make_room false cols x n attr l = some l
make_room true cols x n attr l =
    let cell = get_null_cell attr in
    let m = insert_cells x n cell l in
    if ltb (cols - 1) (length m.words) then some (narrow_at (cols - 1) cell m) else none

unfoldable pub write_on_row :
    Bool → ℕ → ℕ → ℕ → ℕ → ℕ → AttributeData → BufferLine → Option BufferLine
unfolding make_room write_char
write_on_row insert cols x n code width attr l =
    and_then (make_room insert cols x n attr l) (write_char x code width attr)

-- The cell before the cursor, or the one before that behind a wide character.
unfoldable pub join_before : ℕ → ℕ → ℕ → BufferLine → Option BufferLine
unfolding width_at add_codepoint_to_cell
join_before x code width l =
    let offset = if width_at l (x - 1) == 0 then 2 else 1 in
    if ltb (x - 1) (length l.words) && leb offset x
    then some (add_codepoint_to_cell (x - offset) code width l)
    else none

-- What is done to the row before the first character and after the last one, if there are any.
unfoldable pub cut_left : List ℕ → ℕ → AttributeData → BufferLine → Option BufferLine
unfolding narrow_before get_null_cell
cut_left [] x attr l = some l
cut_left (_ ∷ _) x attr l =
    if leb x (length l.words) then some (narrow_before x (get_null_cell attr) l) else none

unfoldable pub cut_right : List ℕ → ℕ → ℕ → AttributeData → BufferLine → Option BufferLine
unfolding widen_at get_null_cell
cut_right [] cols x attr l = some l
cut_right (_ ∷ _) cols x attr l =
    if leb cols x
    then some l
    else if ltb x (length l.words)
    then some (widen_at x (get_null_cell attr) l)
    else none

unfoldable pub cursor_line : Screen → Option BufferLine
unfolding line_at
cursor_line s = line_at (active s) ((active s).y_base + (active s).y)

-- A change of the row of the cursor, which is there.
unfoldable pub on_row : (BufferLine → Option BufferLine) → Screen → Option Screen
unfolding cursor_line put
on_row f s =
    let b = active s in
    and_then (cursor_line s) (λ l.
      and_then (f l) (λ m.
        some (put_active (record b { lines = put none b.lines (b.y_base + b.y) (some m) }) s)))

abbrev pub advance : ℕ → Screen → Screen
advance n s = on_active (λ b. record b { x = b.x + n }) s

-- Only codes below 127 are translated.
abbrev pub translated : Charset → ℕ → ℕ
translated none code = code
translated (some f) code =
    if ltb code 127 then (elim (f code) [ none ↦ code | some c ↦ c ]) else code

unfoldable pub wrap_below : ℕ → Buffer → Buffer
unfolding on_line
wrap_below rows b =
    let y = if leb rows (b.y + 1) then rows - 1 else b.y + 1 in
    on_line (b.y_base + y) (λ l. record l { is_wrapped = true }) (record b { x = 0; y = y })

unfoldable pub wrap_row : Screen → Option Screen
unfolding scroll erase_attr_data keep_erase wrap_below
wrap_row s =
    let b = active s in
    if b.y + 1 == b.scroll_bottom + 1
    then scroll (erase_attr_data s) true (put_active (record b { x = 0 }) (keep_erase s))
    else some (put_active (wrap_below s.rows b) s)

-- The loop goes on, or `Print` returns, since there is no row, or it panics.
pub data Outcome : Type 0 where
  going : ℕ → Screen → Outcome
  left : ℕ → Screen → Outcome
  crashed : Outcome

abbrev pub settled : ℕ → Option Screen → Outcome
settled info none = crashed
settled info (some s) = going info s

unfoldable pub put_code : ℕ → ℕ → ℕ → Bool → ℕ → Screen → Outcome
unfolding on_row join_before write_on_row
put_code code width old_width should_join info s =
    let x = (active s).x in
    let attr = s.cur_attr_data in
    settled info (
      if should_join && ltb 0 x
      then on_row (join_before x code width) s
      else and_then
          (on_row (write_on_row s.core.insert_mode s.cols x (width - old_width) code width attr) s)
          (λ t. some (advance (1 + (width - 1)) t)))

-- After the wrap the row is fetched again.
abbrev pub on_next_row : ℕ → (Screen → Outcome) → Option Screen → Outcome
on_next_row info rest none = crashed
on_next_row info rest (some s) = elim (cursor_line s) [ none ↦ left info s | some _ ↦ rest s ]

-- Where there is no room for the character, it goes to the next row or to the last column.
unfoldable pub place : ℕ → ℕ → Bool → ℕ → ℕ → Screen → Outcome
unfolding wrap_row put_code cursor_line
place code width should_join old_width info s =
    let rest = put_code code width old_width should_join info in
    if ltb (s.cols + old_width) ((active s).x + width)
    then if s.core.dec.wraparound
      then on_next_row info rest (wrap_row s)
      else (let t = on_active (λ b. record b { x = s.cols - 1 }) s in
          if width == 2 then going info t else rest t)
    else rest s

-- `AddLineToLink` of the service of hyperlinks, as what it does to the active buffer.
module _ (add_line_to_link : ℕ → ℕ → Buffer → Buffer) where
  unfoldable pub link_line : Screen → Screen
  link_line s =
      let id = s.cur_attr_data.extended.url_id in
      let b = active s in
      if id == 0 then s else put_active (add_line_to_link id (b.y_base + b.y) b) s

  unfoldable pub place_code : ℕ → ℕ → Screen → Outcome
  unfolding char_properties extract_char_props_width extract_should_join link_line place
  place_code code join s =
      let info = char_properties code join in
      let should_join = extract_should_join info in
      place code (extract_char_props_width info) should_join
        (if should_join then extract_char_props_width join else 0) info (link_line s)

  -- The soft hyphen is skipped.
  unfoldable pub print_code : ℕ → ℕ → Screen → Outcome
  unfolding place_code
  print_code code join s =
      if code == 0xAD
      then going join s
      else place_code (translated s.charset_service.charset code) join s

  unfoldable pub print_codes : List ℕ → ℕ → Screen → Outcome
  unfolding print_code
  print_codes [] join s = going join s
  print_codes (c ∷ cs) join s = elim (print_code c join s) [
    | going j t ↦ print_codes cs j t
    | left j t ↦ left j t
    | crashed ↦ crashed
  ]

  unfoldable pub finish_run : List ℕ → Outcome → Option (ℕ × Screen)
  unfolding on_row cut_right mark_dirty
  finish_run codes crashed = none
  finish_run codes (left join s) = some (join, s)
  finish_run codes (going join s) =
      and_then (on_row (cut_right codes s.cols (active s).x s.cur_attr_data) s)
        (λ t. some (join, mark_dirty (active t).y t))

  unfoldable pub print : List ℕ → ℕ → Screen → Option (ℕ × Screen)
  unfolding on_row cut_left mark_dirty print_codes finish_run cursor_line
  print codes join s = elim (cursor_line s) [
    | none ↦ some (join, s)
    | some _ ↦
        and_then (on_row (cut_left codes (active s).x s.cur_attr_data) (mark_dirty (active s).y s))
          (λ t. finish_run codes (print_codes codes join t))
  ]

  abbrev pub copies : ℕ → Text → Text
  copies zero text = []
  copies (suc n) text = text ++ copies n text

  unfoldable pub repeat_preceding_character : Params → ℕ → Screen → Option (ℕ × Screen)
  unfolding extract_char_props_width cursor_line string_at print
  repeat_preceding_character params join s =
      let x = (active s).x - extract_char_props_width join in
      if join == 0 then some (join, s) else elim (cursor_line s) [
        | none ↦ some (join, s)
        | some l ↦
            if ltb x (length l.words)
            then print (copies (count_of params) (string_at l x)) join s
            else none
      ]
