-- ===== src/Xterm/Screen/Inv/Rows.antt =====
-- internal/xterm/inputhandler_csi.go: the place of the cursor after rows and cells are erased.
use daemontest.Prelude.{
  ℕ, zero, suc, ◌+◌, ◌-◌, refl, Bool, true, false, arith, inl, inr, ltb, leb, ◌==◌, if◌then◌else◌,
  none, Option-cases,
}
use daemontest.Xterm.Cell.{CellData}
use daemontest.Xterm.Params.{Params}
use daemontest.Xterm.BufferLine.{BufferLine}
use daemontest.Xterm.BufferLine.Bulk.{replace_cells, fill_line}
use daemontest.Xterm.CircularList.{trim_start}
use daemontest.Xterm.Buffer.{Buffer, line_at, with_lines, clear_markers}
use daemontest.Xterm.Screen.{Screen, active, on_active, mark_dirty, mark_range_dirty, keep_erase}
use daemontest.Xterm.Screen.Cursor.{param_at, is_number, restrict_cursor_to, unwrap_line}
use daemontest.Xterm.Screen.Csi.{
  on_line, erase_cell, unwrapped_if, erase_in_buffer_line, reset_line, reset_buffer_line,
  reset_rows_below, reset_rows_above, erase_below, erase_above, erase_all, erase_scrollback,
  erase_in_display, erase_in_line,
}
use daemontest.Xterm.Screen.Inv.{
  Fits, Framed, on_active-Framed, restrict_cursor_to-Framed, same-Framed, dressed-Fits,
  with_lines-Fits,
}
use daemontest.Xterm.Screen.Inv.Cursor.{either-Framed, either-Fits}

pub mark_dirty-Framed : (y : ℕ) (s : Screen) → Framed s → Framed (mark_dirty y s)
unfolding mark_dirty
mark_dirty-Framed y s f = same-Framed s (mark_dirty y s) refl refl refl refl f

pub mark_range_dirty-Framed :
    (y1 y2 : ℕ) (s : Screen) → Framed s → Framed (mark_range_dirty y1 y2 s)
unfolding mark_range_dirty
mark_range_dirty-Framed y1 y2 s f = same-Framed s (mark_range_dirty y1 y2 s) refl refl refl refl f

pub keep_erase-Framed : (s : Screen) → Framed s → Framed (keep_erase s)
unfolding keep_erase
keep_erase-Framed s f = same-Framed s (keep_erase s) refl refl refl refl f

pub on_line-Fits :
    {cols rows : ℕ} (i : ℕ) (g : BufferLine → BufferLine) (b : Buffer)
    → Fits cols rows b
    → Fits cols rows (on_line i g b)
unfolding on_line
on_line-Fits i g b f = dressed-Fits f

erase_in_buffer_line-Framed :
    (y start end : ℕ) (clear_wrap respect : Bool) (s : Screen)
    → Framed s
    → Framed (erase_in_buffer_line y start end clear_wrap respect s)
unfolding erase_in_buffer_line
erase_in_buffer_line-Framed y start end clear_wrap respect s f =
    let g = λ (l : BufferLine).
      unwrapped_if clear_wrap (replace_cells start end (erase_cell s) respect l) in
    on_active-Framed (λ b. on_line (b.y_base + y) g b) (keep_erase s) (keep_erase-Framed s f)
      (λ b i. on_line-Fits (b.y_base + y) g b i)

reset_line-Fits :
    {cols rows : ℕ} (y : ℕ) (respect : Bool) (cell : CellData) (b : Buffer)
    → Fits cols rows b
    → Fits cols rows (reset_line y respect cell b)
unfolding reset_line clear_markers
reset_line-Fits y respect cell b f = elim (Option-cases (line_at b (b.y_base + y))) [
  | inl e ↦ rw (reset_line, e) f
  | inr (l, e) ↦
      rw (reset_line, e)
        (dressed-Fits
          (on_line-Fits (b.y_base + y) (λ l. unwrapped_if true (fill_line cell respect l)) b f))
]

reset_buffer_line-Framed :
    (y : ℕ) (respect : Bool) (s : Screen) → Framed s → Framed (reset_buffer_line y respect s)
unfolding reset_buffer_line
reset_buffer_line-Framed y respect s f =
    on_active-Framed (reset_line y respect (erase_cell s)) (keep_erase s) (keep_erase-Framed s f)
      (reset_line-Fits y respect (erase_cell s))

reset_rows_below-Framed :
    (y n : ℕ) (respect : Bool) (s : Screen) → Framed s → Framed (reset_rows_below y n respect s)
unfolding reset_rows_below
reset_rows_below-Framed y zero respect s f = f
reset_rows_below-Framed y (suc n) respect s f =
    reset_rows_below-Framed (y + 1) n respect (reset_buffer_line y respect s)
      (reset_buffer_line-Framed y respect s f)

reset_rows_above-Framed :
    (n : ℕ) (respect : Bool) (s : Screen) → Framed s → Framed (reset_rows_above n respect s)
unfolding reset_rows_above
reset_rows_above-Framed zero respect s f = f
reset_rows_above-Framed (suc n) respect s f =
    reset_rows_above-Framed n respect (reset_buffer_line n respect s)
      (reset_buffer_line-Framed n respect s f)

erase_below-Framed : (respect : Bool) (s : Screen) → Framed s → Framed (erase_below respect s)
unfolding erase_below
erase_below-Framed respect s f =
    let b = active s in
    let s0 = mark_dirty b.y s in
    let s1 = erase_in_buffer_line b.y b.x s.cols (b.x == 0) respect s0 in
    let s2 = reset_rows_below (b.y + 1) (s.rows - (b.y + 1)) respect s1 in
    mark_dirty-Framed (if ltb b.y s.rows then s.rows - 1 else b.y) s2 (
      reset_rows_below-Framed (b.y + 1) (s.rows - (b.y + 1)) respect s1 (
        erase_in_buffer_line-Framed b.y b.x s.cols (b.x == 0) respect s0
          (mark_dirty-Framed b.y s f)))

erase_above-Framed : (respect : Bool) (s : Screen) → Framed s → Framed (erase_above respect s)
unfolding erase_above unwrap_line
erase_above-Framed respect s f =
    let b = active s in
    let s0 = mark_dirty b.y s in
    let s1 = erase_in_buffer_line b.y 0 (b.x + 1) true respect s0 in
    let u = on_active (unwrap_line (b.y_base + b.y + 1)) s1 in
    let s2 = if leb s.cols (b.x + 1) then u else s1 in
    let f1 =
      erase_in_buffer_line-Framed b.y 0 (b.x + 1) true respect s0 (mark_dirty-Framed b.y s f) in
    let f2 =
      either-Framed (leb s.cols (b.x + 1)) u s1
        (on_active-Framed (unwrap_line (b.y_base + b.y + 1)) s1 f1 (λ c i. dressed-Fits i)) f1 in
    mark_dirty-Framed 0 (reset_rows_above b.y respect s2)
      (reset_rows_above-Framed b.y respect s2 f2)

erase_all-Framed : (respect : Bool) (s : Screen) → Framed s → Framed (erase_all respect s)
unfolding erase_all
erase_all-Framed respect s f =
    let m = mark_dirty (s.rows - 1) s in
    mark_dirty-Framed 0 (reset_rows_above s.rows respect m)
      (reset_rows_above-Framed s.rows respect m (mark_dirty-Framed (s.rows - 1) s f))

erase_scrollback-Fits :
    {cols rows : ℕ} (n : ℕ) (b : Buffer) → Fits cols rows b → Fits cols rows (erase_scrollback n b)
unfolding erase_scrollback
erase_scrollback-Fits n b f =
    let k = b.lines.len - n in
    let c = with_lines (trim_start none k b.lines) b in
    either-Fits (ltb 0 k) (record c { y_base = b.y_base - k; y_disp = b.y_disp - k }) b
      (dressed-Fits (with_lines-Fits (trim_start none k b.lines) b f)) f

pub erase_in_display-Framed :
    (respect : Bool) (p : Params) (s : Screen) → Framed s → Framed (erase_in_display respect p s)
unfolding erase_in_display
erase_in_display-Framed respect p s f =
    let r = restrict_cursor_to s.cols s in
    let fr = restrict_cursor_to-Framed s.cols s (omega arith) f in
    let v = param_at p 0 in
    let up = on_active (erase_scrollback s.rows) r in
    either-Framed (is_number 0 v) (erase_below respect r)
      (if is_number 1 v
        then erase_above respect r
        else if is_number 2 v
        then erase_all respect r
        else if is_number 3 v
        then up
        else r)
      (erase_below-Framed respect r fr)
      (either-Framed (is_number 1 v) (erase_above respect r)
        (if is_number 2 v then erase_all respect r else if is_number 3 v then up else r)
        (erase_above-Framed respect r fr)
        (either-Framed (is_number 2 v) (erase_all respect r) (if is_number 3 v then up else r)
          (erase_all-Framed respect r fr)
          (either-Framed (is_number 3 v) up r
            (on_active-Framed (erase_scrollback s.rows) r fr (erase_scrollback-Fits s.rows)) fr)))

pub erase_in_line-Framed :
    (respect : Bool) (p : Params) (s : Screen) → Framed s → Framed (erase_in_line respect p s)
unfolding erase_in_line
erase_in_line-Framed respect p s f =
    let r = restrict_cursor_to s.cols s in
    let fr = restrict_cursor_to-Framed s.cols s (omega arith) f in
    let v = param_at p 0 in
    let b = active r in
    let right = erase_in_buffer_line b.y b.x s.cols (b.x == 0) respect r in
    let left = erase_in_buffer_line b.y 0 (b.x + 1) false respect r in
    let all = erase_in_buffer_line b.y 0 s.cols true respect r in
    mark_dirty-Framed b.y
      (if is_number 0 v
        then right
        else if is_number 1 v
        then left
        else if is_number 2 v
        then all
        else r)
      (either-Framed (is_number 0 v) right
        (if is_number 1 v then left else if is_number 2 v then all else r)
        (erase_in_buffer_line-Framed b.y b.x s.cols (b.x == 0) respect r fr)
        (either-Framed (is_number 1 v) left (if is_number 2 v then all else r)
          (erase_in_buffer_line-Framed b.y 0 (b.x + 1) false respect r fr)
          (either-Framed (is_number 2 v) all r
            (erase_in_buffer_line-Framed b.y 0 s.cols true respect r fr) fr)))
