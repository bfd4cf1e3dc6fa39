-- ===== src/Xterm/Screen/Inv/Shift.antt =====
-- internal/xterm/inputhandler_csi.go: the place of the cursor after cells, lines and columns are inserted
-- and deleted.
use daemontest.Prelude.{
  ℕ, zero, suc, ◌+◌, ◌-◌, refl, true, false, [], ◌∷◌, inl, inr, none, some, Option-cases,
}
use daemontest.Xterm.Attr.{AttributeData, default_attr_data}
use daemontest.Xterm.Cell.{CellData}
use daemontest.Xterm.Params.{Params}
use daemontest.Xterm.BufferLine.{BufferLine}
use daemontest.Xterm.BufferLine.Bulk.{insert_cells, delete_cells, replace_cells}
use daemontest.Xterm.CircularList.{splice}
use daemontest.Xterm.Buffer.{Buffer, line_at, with_lines, get_blank_line}
use daemontest.Xterm.Screen.{
  Screen, active, on_active, mark_range_dirty, keep_erase, erase_attr_data,
}
use daemontest.Xterm.Screen.Cursor.{count_of, restrict_cursor, to_column_0}
use daemontest.Xterm.Screen.Csi.{
  on_line, erase_cell, unwrapped_if, on_cursor_line, column, erase_chars, insert_chars,
  delete_chars, rotate_lines, outside_margins, insert_lines, delete_lines, scroll_up, scroll_down,
  on_rows, shift_rows, scroll_left, scroll_right, insert_columns, delete_columns, select_protected,
}
use daemontest.Xterm.Screen.Inv.{
  Fits, Framed, on_active-Framed, restrict_cursor-Framed, same-Framed, with_lines-Fits,
}
use daemontest.Xterm.Screen.Inv.Cursor.{either-Framed, to_column_0-Framed}
use daemontest.Xterm.Screen.Inv.Rows.{
  on_line-Fits, mark_dirty-Framed, mark_range_dirty-Framed, keep_erase-Framed,
}

on_cursor_line-Framed :
    (g : CellData → BufferLine → BufferLine) (s : Screen) → Framed s → Framed (on_cursor_line g s)
unfolding on_cursor_line
on_cursor_line-Framed g s f =
    let r = restrict_cursor s in
    let fr = restrict_cursor-Framed s f in
    let b = active r in
    let h = g (erase_cell r) in
    elim (Option-cases (line_at b (b.y_base + b.y))) [
      | inl e ↦ rw (on_cursor_line, e) fr
      | inr (l, e) ↦
          rw (on_cursor_line, e)
            (mark_dirty-Framed b.y (on_active (on_line (b.y_base + b.y) h) (keep_erase r)) (
              on_active-Framed (on_line (b.y_base + b.y) h) (keep_erase r) (keep_erase-Framed r fr)
                (on_line-Fits (b.y_base + b.y) h)))
    ]

pub erase_chars-Framed : (p : Params) (s : Screen) → Framed s → Framed (erase_chars p s)
unfolding erase_chars
erase_chars-Framed p s f =
    on_cursor_line-Framed (λ c. replace_cells (column s) (column s + count_of p) c false) s f

pub insert_chars-Framed : (p : Params) (s : Screen) → Framed s → Framed (insert_chars p s)
unfolding insert_chars
insert_chars-Framed p s f = on_cursor_line-Framed (insert_cells (column s) (count_of p)) s f

pub delete_chars-Framed : (p : Params) (s : Screen) → Framed s → Framed (delete_chars p s)
unfolding delete_chars
delete_chars-Framed p s f = on_cursor_line-Framed (delete_cells (column s) (count_of p)) s f

rotate_lines-Fits :
    {cols rows : ℕ} (from to n : ℕ) (attr : AttributeData) (b : Buffer)
    → Fits cols rows b
    → Fits cols rows (rotate_lines from to n attr b)
unfolding rotate_lines
rotate_lines-Fits from to zero attr b f = f
rotate_lines-Fits from to (suc n) attr b f =
    let b1 = with_lines (splice none from 1 [] b.lines) b in
    let r = splice none to 0 (some (get_blank_line b attr false) ∷ []) b1.lines in
    rotate_lines-Fits from to n attr (with_lines r b1)
      (with_lines-Fits r b1 (with_lines-Fits (splice none from 1 [] b.lines) b f))

-- A range of lines that turns, and is marked.
turned-Framed :
    (from to n top bottom : ℕ) (attr : AttributeData) (s : Screen)
    → Framed s
    → Framed (mark_range_dirty top bottom (on_active (rotate_lines from to n attr) s))
turned-Framed from to n top bottom attr s f =
    mark_range_dirty-Framed top bottom (on_active (rotate_lines from to n attr) s)
      (on_active-Framed (rotate_lines from to n attr) s f (rotate_lines-Fits from to n attr))

pub insert_lines-Framed : (p : Params) (s : Screen) → Framed s → Framed (insert_lines p s)
unfolding insert_lines
insert_lines-Framed p s f =
    let r = restrict_cursor s in
    let fr = restrict_cursor-Framed s f in
    let b = active r in
    let attr = erase_attr_data r in
    let t = mark_range_dirty b.y b.scroll_bottom (
      on_active (rotate_lines (b.y_base + b.scroll_bottom) (b.y_base + b.y) (count_of p) attr)
        (keep_erase r)) in
    either-Framed (outside_margins b) r (to_column_0 t) fr (
      to_column_0-Framed t (
        turned-Framed (b.y_base + b.scroll_bottom) (b.y_base + b.y) (count_of p) b.y b.scroll_bottom
          attr (keep_erase r) (keep_erase-Framed r fr)))

pub delete_lines-Framed : (p : Params) (s : Screen) → Framed s → Framed (delete_lines p s)
unfolding delete_lines
delete_lines-Framed p s f =
    let r = restrict_cursor s in
    let fr = restrict_cursor-Framed s f in
    let b = active r in
    let attr = erase_attr_data r in
    let t = mark_range_dirty b.y b.scroll_bottom (
      on_active (rotate_lines (b.y_base + b.y) (b.y_base + b.scroll_bottom) (count_of p) attr)
        (keep_erase r)) in
    either-Framed (outside_margins b) r (to_column_0 t) fr (
      to_column_0-Framed t (
        turned-Framed (b.y_base + b.y) (b.y_base + b.scroll_bottom) (count_of p) b.y b.scroll_bottom
          attr (keep_erase r) (keep_erase-Framed r fr)))

pub scroll_up-Framed : (p : Params) (s : Screen) → Framed s → Framed (scroll_up p s)
unfolding scroll_up
scroll_up-Framed p s f =
    let b = active s in
    turned-Framed (b.y_base + b.scroll_top) (b.y_base + b.scroll_bottom) (count_of p) b.scroll_top
      b.scroll_bottom (erase_attr_data s) (keep_erase s) (keep_erase-Framed s f)

pub scroll_down-Framed : (p : Params) (s : Screen) → Framed s → Framed (scroll_down p s)
unfolding scroll_down
scroll_down-Framed p s f =
    let b = active s in
    turned-Framed (b.y_base + b.scroll_bottom) (b.y_base + b.scroll_top) (count_of p) b.scroll_top
      b.scroll_bottom default_attr_data s f

on_rows-Fits :
    {cols rows : ℕ} (y n : ℕ) (g : BufferLine → BufferLine) (b : Buffer)
    → Fits cols rows b
    → Fits cols rows (on_rows y n g b)
unfolding on_rows
on_rows-Fits y zero g b f = f
on_rows-Fits y (suc n) g b f =
    on_rows-Fits (y + 1) n g (on_line (b.y_base + y) g b) (on_line-Fits (b.y_base + y) g b f)

shift_rows-Framed :
    (g : CellData → BufferLine → BufferLine) (s : Screen) → Framed s → Framed (shift_rows g s)
unfolding shift_rows
shift_rows-Framed g s f =
    let b = active s in
    let h = λ (l : BufferLine). unwrapped_if true (g (erase_cell s) l) in
    let t =
      on_active (on_rows b.scroll_top (b.scroll_bottom + 1 - b.scroll_top) h) (keep_erase s) in
    either-Framed (outside_margins b) s (mark_range_dirty b.scroll_top b.scroll_bottom t) f (
      mark_range_dirty-Framed b.scroll_top b.scroll_bottom t (
        on_active-Framed (on_rows b.scroll_top (b.scroll_bottom + 1 - b.scroll_top) h)
          (keep_erase s) (keep_erase-Framed s f)
          (on_rows-Fits b.scroll_top (b.scroll_bottom + 1 - b.scroll_top) h)))

pub scroll_left-Framed : (p : Params) (s : Screen) → Framed s → Framed (scroll_left p s)
unfolding scroll_left
scroll_left-Framed p s f = shift_rows-Framed (delete_cells 0 (count_of p)) s f

pub scroll_right-Framed : (p : Params) (s : Screen) → Framed s → Framed (scroll_right p s)
unfolding scroll_right
scroll_right-Framed p s f = shift_rows-Framed (insert_cells 0 (count_of p)) s f

pub insert_columns-Framed : (p : Params) (s : Screen) → Framed s → Framed (insert_columns p s)
unfolding insert_columns
insert_columns-Framed p s f = shift_rows-Framed (insert_cells (active s).x (count_of p)) s f

pub delete_columns-Framed : (p : Params) (s : Screen) → Framed s → Framed (delete_columns p s)
unfolding delete_columns
delete_columns-Framed p s f = shift_rows-Framed (delete_cells (active s).x (count_of p)) s f

pub select_protected-Framed : (p : Params) (s : Screen) → Framed s → Framed (select_protected p s)
unfolding select_protected
select_protected-Framed p s f = same-Framed s (select_protected p s) refl refl refl refl f
