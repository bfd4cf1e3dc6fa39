-- ===== src/Xterm/Screen/Csi.antt =====
-- internal/xterm/inputhandler_csi.go: rows and cells that are erased, inserted, deleted and moved.
use daemontest.Prelude.{
  ℕ, zero, suc, ◌+◌, ◌-◌, Bool, true, false, ◌||◌, [], ◌∷◌, Option, none, some, ltb, leb, ◌==◌,
  if◌then◌else◌,
}
use daemontest.Prelude.Bits.{◌&◌, ◌∣◌, mask_not}
use daemontest.Xterm.Params.{Params}
use daemontest.Xterm.Attr.{AttributeData, default_attr_data, bg_flag_protected}
use daemontest.Xterm.Cell.{CellData}
use daemontest.Xterm.BufferLine.{BufferLine}
use daemontest.Xterm.BufferLine.Bulk.{insert_cells, delete_cells, replace_cells, fill_line}
use daemontest.Xterm.CircularList.{put, splice, trim_start}
use daemontest.Xterm.Buffer.{
  Buffer, get_null_cell, get_blank_line, clear_markers, line_at, with_lines,
}
use daemontest.Xterm.Screen.{
  Screen, active, on_active, mark_dirty, mark_range_dirty, erase_attr_data, keep_erase,
}
use daemontest.Xterm.Screen.Cursor.{
  count_of, param_at, is_number, restrict_cursor, restrict_cursor_to, to_column_0, unwrap_line,
}

-- A change of the line at `i`, if there is one.
abbrev pub changed : (BufferLine → BufferLine) → Option BufferLine → Option BufferLine
changed f none = none
changed f (some l) = some (f l)

unfoldable pub on_line : ℕ → (BufferLine → BufferLine) → Buffer → Buffer
unfolding line_at put
on_line i f b = record b { lines = put none b.lines i (changed f (line_at b i)) }

-- The null cell in the erase color.
unfoldable pub erase_cell : Screen → CellData
unfolding get_null_cell erase_attr_data
erase_cell s = get_null_cell (erase_attr_data s)

abbrev pub unwrapped_if : Bool → BufferLine → BufferLine
unwrapped_if true l = record l { is_wrapped = false }
unwrapped_if false l = l

unfoldable pub erase_in_buffer_line : ℕ → ℕ → ℕ → Bool → Bool → Screen → Screen
unfolding on_line replace_cells erase_cell keep_erase
erase_in_buffer_line y start end clear_wrap respect s =
    let cell = erase_cell s in
    on_active
      (λ b.
        on_line (b.y_base + y)
          (λ l. unwrapped_if clear_wrap (replace_cells start end cell respect l)) b)
      (keep_erase s)

unfoldable pub reset_line : ℕ → Bool → CellData → Buffer → Buffer
unfolding on_line fill_line clear_markers line_at
reset_line y respect cell b = elim (line_at b (b.y_base + y)) [
  | none ↦ b
  | some _ ↦
      clear_markers (b.y_base + y)
        (on_line (b.y_base + y) (λ l. unwrapped_if true (fill_line cell respect l)) b)
]

unfoldable pub reset_buffer_line : ℕ → Bool → Screen → Screen
unfolding reset_line erase_cell keep_erase
reset_buffer_line y respect s =
    let cell = erase_cell s in on_active (reset_line y respect cell) (keep_erase s)

-- `n` rows from `y` on, and the `n` rows from `n - 1` up to the first.
unfoldable pub reset_rows_below : ℕ → ℕ → Bool → Screen → Screen
unfolding reset_buffer_line
reset_rows_below y zero respect s = s
reset_rows_below y (suc n) respect s =
    reset_rows_below (y + 1) n respect (reset_buffer_line y respect s)

unfoldable pub reset_rows_above : ℕ → Bool → Screen → Screen
unfolding reset_buffer_line
reset_rows_above zero respect s = s
reset_rows_above (suc n) respect s = reset_rows_above n respect (reset_buffer_line n respect s)

-- Case 0: from the cursor to the end.
unfoldable pub erase_below : Bool → Screen → Screen
unfolding erase_in_buffer_line reset_rows_below mark_dirty
erase_below respect s =
    let b = active s in
    let s1 = erase_in_buffer_line b.y b.x s.cols (b.x == 0) respect (mark_dirty b.y s) in
    let s2 = reset_rows_below (b.y + 1) (s.rows - (b.y + 1)) respect s1 in
    mark_dirty (if ltb b.y s.rows then s.rows - 1 else b.y) s2

-- Case 1: from the start to the cursor.
unfoldable pub erase_above : Bool → Screen → Screen
unfolding erase_in_buffer_line reset_rows_above mark_dirty unwrap_line
erase_above respect s =
    let b = active s in
    let s1 = erase_in_buffer_line b.y 0 (b.x + 1) true respect (mark_dirty b.y s) in
    let s2 = if leb s.cols (b.x + 1) then on_active (unwrap_line (b.y_base + b.y + 1)) s1 else s1 in
    mark_dirty 0 (reset_rows_above b.y respect s2)

-- Case 2
unfoldable pub erase_all : Bool → Screen → Screen
unfolding reset_rows_above mark_dirty
erase_all respect s = mark_dirty 0 (reset_rows_above s.rows respect (mark_dirty (s.rows - 1) s))

-- Case 3: the lines above the screen.
unfoldable pub erase_scrollback : ℕ → Buffer → Buffer
unfolding trim_start with_lines
erase_scrollback rows b =
    let n = b.lines.len - rows in
    if ltb 0 n
    then record (with_lines (trim_start none n b.lines) b) {
      y_base = b.y_base - n;
      y_disp = b.y_disp - n;
    }
    else b

unfoldable pub erase_in_display : Bool → Params → Screen → Screen
unfolding restrict_cursor_to erase_below erase_above erase_all erase_scrollback
erase_in_display respect p s =
    let r = restrict_cursor_to s.cols s in
    let v = param_at p 0 in
    if is_number 0 v
    then erase_below respect r
    else if is_number 1 v
    then erase_above respect r
    else if is_number 2 v
    then erase_all respect r
    else if is_number 3 v
    then on_active (erase_scrollback s.rows) r
    else r

unfoldable pub erase_in_line : Bool → Params → Screen → Screen
unfolding restrict_cursor_to erase_in_buffer_line mark_dirty
erase_in_line respect p s =
    let r = restrict_cursor_to s.cols s in
    let b = active r in
    let v = param_at p 0 in
    mark_dirty b.y (
      if is_number 0 v
      then erase_in_buffer_line b.y b.x s.cols (b.x == 0) respect r
      else if is_number 1 v
      then erase_in_buffer_line b.y 0 (b.x + 1) false respect r
      else if is_number 2 v
      then erase_in_buffer_line b.y 0 s.cols true respect r
      else r)

-- A change of the cursor's line with the erase cell; the row is marked if there is a line.
unfoldable pub on_cursor_line : (CellData → BufferLine → BufferLine) → Screen → Screen
unfolding restrict_cursor on_line erase_cell keep_erase mark_dirty line_at
on_cursor_line f s =
    let r = restrict_cursor s in
    let b = active r in
    let cell = erase_cell r in
    elim (line_at b (b.y_base + b.y)) [
      | none ↦ r
      | some _ ↦ mark_dirty b.y (on_active (on_line (b.y_base + b.y) (f cell)) (keep_erase r))
    ]

-- The column that `restrictCursor` leaves.
unfoldable pub column : Screen → ℕ
unfolding restrict_cursor
column s = (active (restrict_cursor s)).x

unfoldable pub erase_chars : Params → Screen → Screen
unfolding on_cursor_line replace_cells column
erase_chars p s =
    let x = column s in on_cursor_line (λ c. replace_cells x (x + count_of p) c false) s

unfoldable pub insert_chars : Params → Screen → Screen
unfolding on_cursor_line insert_cells column
insert_chars p s = let x = column s in on_cursor_line (insert_cells x (count_of p)) s

unfoldable pub delete_chars : Params → Screen → Screen
unfolding on_cursor_line delete_cells column
delete_chars p s = let x = column s in on_cursor_line (delete_cells x (count_of p)) s

-- One line is taken out at `from`, and a blank one put in at `to`, `n` times.
unfoldable pub rotate_lines : ℕ → ℕ → ℕ → AttributeData → Buffer → Buffer
unfolding splice get_blank_line with_lines
rotate_lines from to zero attr b = b
rotate_lines from to (suc n) attr b =
    let b1 = with_lines (splice none from 1 [] b.lines) b in
    rotate_lines from to n attr
      (with_lines (splice none to 0 (some (get_blank_line b attr false) ∷ []) b1.lines) b1)

abbrev pub outside_margins : Buffer → Bool
outside_margins b = ltb b.scroll_bottom b.y || ltb b.y b.scroll_top

unfoldable pub insert_lines : Params → Screen → Screen
unfolding restrict_cursor rotate_lines erase_attr_data keep_erase mark_range_dirty
insert_lines p s =
    let r = restrict_cursor s in
    let b = active r in
    let attr = erase_attr_data r in
    if outside_margins b
    then r
    else to_column_0 (
        mark_range_dirty b.y b.scroll_bottom (
          on_active (rotate_lines (b.y_base + b.scroll_bottom) (b.y_base + b.y) (count_of p) attr)
            (keep_erase r)))

unfoldable pub delete_lines : Params → Screen → Screen
unfolding restrict_cursor rotate_lines erase_attr_data keep_erase mark_range_dirty
delete_lines p s =
    let r = restrict_cursor s in
    let b = active r in
    let attr = erase_attr_data r in
    if outside_margins b
    then r
    else to_column_0 (
        mark_range_dirty b.y b.scroll_bottom (
          on_active (rotate_lines (b.y_base + b.y) (b.y_base + b.scroll_bottom) (count_of p) attr)
            (keep_erase r)))

unfoldable pub scroll_up : Params → Screen → Screen
unfolding rotate_lines erase_attr_data keep_erase mark_range_dirty
scroll_up p s =
    let b = active s in
    let attr = erase_attr_data s in
    mark_range_dirty b.scroll_top b.scroll_bottom (
      on_active
        (rotate_lines (b.y_base + b.scroll_top) (b.y_base + b.scroll_bottom) (count_of p) attr)
        (keep_erase s))

unfoldable pub scroll_down : Params → Screen → Screen
unfolding rotate_lines default_attr_data mark_range_dirty
scroll_down p s =
    let b = active s in
    mark_range_dirty b.scroll_top b.scroll_bottom (
      on_active
        (rotate_lines (b.y_base + b.scroll_bottom) (b.y_base + b.scroll_top) (count_of p)
          default_attr_data)
        s)

-- The rows from `y` on, `n` of them.
unfoldable pub on_rows : ℕ → ℕ → (BufferLine → BufferLine) → Buffer → Buffer
unfolding on_line
on_rows y zero f b = b
on_rows y (suc n) f b = on_rows (y + 1) n f (on_line (b.y_base + y) f b)

-- `scrollLeft`, `scrollRight`, `insertColumns` and `deleteColumns`: each row between the margins.
unfoldable pub shift_rows : (CellData → BufferLine → BufferLine) → Screen → Screen
unfolding on_rows erase_cell keep_erase mark_range_dirty
shift_rows f s =
    let b = active s in
    let cell = erase_cell s in
    if outside_margins b
    then s
    else mark_range_dirty b.scroll_top b.scroll_bottom (
        on_active
          (on_rows b.scroll_top (b.scroll_bottom + 1 - b.scroll_top)
            (λ l. unwrapped_if true (f cell l)))
          (keep_erase s))

unfoldable pub scroll_left : Params → Screen → Screen
unfolding shift_rows delete_cells
scroll_left p s = shift_rows (delete_cells 0 (count_of p)) s

unfoldable pub scroll_right : Params → Screen → Screen
unfolding shift_rows insert_cells
scroll_right p s = shift_rows (insert_cells 0 (count_of p)) s

unfoldable pub insert_columns : Params → Screen → Screen
unfolding shift_rows insert_cells
insert_columns p s = shift_rows (insert_cells (active s).x (count_of p)) s

unfoldable pub delete_columns : Params → Screen → Screen
unfolding shift_rows delete_cells
delete_columns p s = shift_rows (delete_cells (active s).x (count_of p)) s

unfoldable pub select_protected : Params → Screen → Screen
select_protected p s =
    let a = s.cur_attr_data in
    let v = param_at p 0 in
    let on = if is_number 1 v then record a { bg = a.bg ∣ bg_flag_protected } else a in
    record s {
      cur_attr_data =
          if is_number 2 v || is_number 0 v
          then record on { bg = on.bg & mask_not bg_flag_protected }
          else on;
    }
