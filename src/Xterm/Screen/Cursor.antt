-- ===== src/Xterm/Screen/Cursor.antt =====
-- internal/xterm/inputhandler.go, inputhandler_csi.go, inputhandler_c0.go: the cursor. A column or a row
-- that may be negative between two statements is an argument of `restrict`.
use daemontest.Prelude.{
  ℕ, zero, suc, ◌+◌, ◌-◌, Bool, true, false, not, ◌&&◌, Option, none, some, ltb, leb, ◌==◌,
  if◌then◌else◌, get_or,
}
use daemontest.Prelude.Int.{ℤ, pos, negsuc, ltb_ℤ, ◌+ℤ◌}
use daemontest.Xterm.Params.{Params}
use daemontest.Xterm.BufferLine.{BufferLine, has_width, has_content}
use daemontest.Xterm.CircularList.{put}
use daemontest.Xterm.Buffer.{Buffer, next_stop, prev_stop, line_at}
use daemontest.Xterm.Screen.{
  Screen, line_fed, tabbed, bell_rung, active, on_active, fire, lesser, mark_dirty, erase_attr_data,
  keep_erase,
}
use daemontest.Xterm.Screen.Scroll.{scroll}

-- `max(int(params.Params[i]), 1)`
abbrev pub at_least_one : ℤ → ℕ
at_least_one (pos zero) = 1
at_least_one (pos (suc n)) = suc n
at_least_one (negsuc n) = 1

abbrev pub param_at : Params → ℕ → ℤ
param_at p i = get_or p.params i (pos 0)

-- `params.Params[0]`, at least 1
abbrev pub count_of : Params → ℕ
count_of p = at_least_one (param_at p 0)

abbrev pub between_bounds : ℕ → ℕ → ℤ → ℕ
between_bounds lo hi (negsuc n) = if ltb hi lo then hi else lo
between_bounds lo hi (pos n) = let v = if ltb n lo then lo else n in if ltb hi v then hi else v

-- `restrictCursor`, of a cursor at column `x` and row `y`.
unfoldable pub restrict : ℕ → ℤ → ℤ → Screen → Screen
restrict max_col x y s =
    let b = active s in
    let row =
      if s.core.dec.origin
      then between_bounds b.scroll_top b.scroll_bottom y
      else between_bounds 0 (s.rows - 1) y in
    on_active (λ c. record c { x = between_bounds 0 max_col x; y = row }) s

unfoldable pub restrict_cursor_to : ℕ → Screen → Screen
unfolding restrict
restrict_cursor_to max_col s = restrict max_col (pos (active s).x) (pos (active s).y) s

unfoldable pub restrict_cursor : Screen → Screen
unfolding restrict_cursor_to
restrict_cursor s = restrict_cursor_to (s.cols - 1) s

unfoldable pub set_cursor : ℤ → ℤ → Screen → Screen
unfolding restrict ◌+ℤ◌
set_cursor x y s =
    restrict (s.cols - 1) x (if s.core.dec.origin then pos (active s).scroll_top +ℤ y else y) s

unfoldable pub move_cursor : ℤ → ℤ → Screen → Screen
unfolding restrict_cursor set_cursor ◌+ℤ◌
move_cursor x y s =
    let r = restrict_cursor s in set_cursor (pos (active r).x +ℤ x) (pos (active r).y +ℤ y) r

abbrev pub minus : ℕ → ℤ
minus zero = pos 0
minus (suc n) = negsuc n

unfoldable pub cursor_up : Params → Screen → Screen
unfolding move_cursor
cursor_up p s =
    let b = active s in
    let n = count_of p in
    if leb b.scroll_top b.y
    then move_cursor (pos 0) (minus (lesser (b.y - b.scroll_top) n)) s
    else move_cursor (pos 0) (minus n) s

unfoldable pub cursor_down : Params → Screen → Screen
unfolding move_cursor
cursor_down p s =
    let b = active s in
    let n = count_of p in
    if leb b.y b.scroll_bottom
    then move_cursor (pos 0) (pos (lesser (b.scroll_bottom - b.y) n)) s
    else move_cursor (pos 0) (pos n) s

-- `hPositionRelative` is the same.
unfoldable pub cursor_forward : Params → Screen → Screen
unfolding move_cursor
cursor_forward p s = move_cursor (pos (count_of p)) (pos 0) s

unfoldable pub cursor_backward : Params → Screen → Screen
unfolding move_cursor
cursor_backward p s = move_cursor (minus (count_of p)) (pos 0) s

abbrev pub to_column_0 : Screen → Screen
to_column_0 s = on_active (λ c. record c { x = 0 }) s

unfoldable pub cursor_next_line : Params → Screen → Screen
unfolding cursor_down
cursor_next_line p s = to_column_0 (cursor_down p s)

unfoldable pub cursor_preceding_line : Params → Screen → Screen
unfolding cursor_up
cursor_preceding_line p s = to_column_0 (cursor_up p s)

-- `charPosAbsolute` is the same.
unfoldable pub cursor_char_absolute : Params → Screen → Screen
unfolding set_cursor
cursor_char_absolute p s = set_cursor (pos (count_of p - 1)) (pos (active s).y) s

-- `hVPosition` calls it.
unfoldable pub cursor_position : Params → Screen → Screen
unfolding set_cursor
cursor_position p s =
    let col = if leb 2 p.len then at_least_one (param_at p 1) - 1 else 0 in
    set_cursor (pos col) (pos (count_of p - 1)) s

unfoldable pub line_pos_absolute : Params → Screen → Screen
unfolding set_cursor
line_pos_absolute p s = set_cursor (pos (active s).x) (pos (count_of p - 1)) s

unfoldable pub v_position_relative : Params → Screen → Screen
unfolding move_cursor
v_position_relative p s = move_cursor (pos 0) (pos (count_of p)) s

-- `n` tab stops on, and back.
unfoldable pub next_stops : ℕ → Buffer → Buffer
unfolding next_stop
next_stops zero b = b
next_stops (suc n) b = next_stops n (record b { x = next_stop b b.x })

unfoldable pub prev_stops : ℕ → Buffer → Buffer
unfolding prev_stop
prev_stops zero b = b
prev_stops (suc n) b = prev_stops n (record b { x = prev_stop b b.x })

unfoldable pub cursor_forward_tab : Params → Screen → Screen
unfolding next_stops
cursor_forward_tab p s =
    if leb s.cols (active s).x then s else on_active (next_stops (count_of p)) s

unfoldable pub cursor_backward_tab : Params → Screen → Screen
unfolding prev_stops
cursor_backward_tab p s =
    if leb s.cols (active s).x then s else on_active (prev_stops (count_of p)) s

abbrev pub is_number : ℕ → ℤ → Bool
is_number n (pos m) = m == n
is_number n (negsuc m) = false

unfoldable pub tab_clear : Params → Screen → Screen
tab_clear p s =
    if is_number 0 (param_at p 0)
    then on_active (λ b. record b { tabs = λ j. if j == b.x then false else b.tabs j }) s
    else if is_number 3 (param_at p 0)
    then on_active (λ b. record b { tabs = λ _. false }) s
    else s

unfoldable pub set_scroll_region : Params → Screen → Screen
unfolding set_cursor
set_scroll_region p s =
    let top = count_of p in
    let given = at_least_one (param_at p 1) in
    let bottom =
      if leb 2 p.len && ltb_ℤ (pos 0) (param_at p 1) && leb given s.rows then given else s.rows in
    if ltb top bottom
    then set_cursor (pos 0) (pos 0)
        (on_active (λ b. record b { scroll_top = top - 1; scroll_bottom = bottom - 1 }) s)
    else s

unfoldable pub bell : Screen → Screen
bell s = fire bell_rung s

unfoldable pub carriage_return : Screen → Screen
carriage_return s = to_column_0 s

-- A change of a line that is there.
abbrev pub unwrap : Option BufferLine → Option BufferLine
unwrap none = none
unwrap (some l) = some (record l { is_wrapped = false })

unfoldable pub unwrap_line : ℕ → Buffer → Buffer
unfolding line_at put
unwrap_line i b = record b { lines = put none b.lines i (unwrap (line_at b i)) }

-- `if buf.X >= cols { buf.X-- }`
abbrev pub off_the_edge : ℕ → Buffer → Buffer
off_the_edge cols b = if leb cols b.x then record b { x = b.x - 1 } else b

-- The row below, of a cursor that is not at the bottom margin.
unfoldable pub row_below : ℕ → Bool → Buffer → Buffer
unfolding unwrap_line
row_below rows clear_wrap b =
    let moved = record b { y = b.y + 1 } in
    if leb rows (b.y + 1)
    then record b { y = rows - 1 }
    else if clear_wrap
    then unwrap_line (b.y_base + (b.y + 1)) moved
    else moved

unfoldable pub line_feed : Screen → Option Screen
unfolding mark_dirty scroll erase_attr_data keep_erase row_below
line_feed s =
    let s1 = mark_dirty (active s).y s in
    let s2 = if s.convert_eol then to_column_0 s1 else s1 in
    let last = λ (t : Screen).
      let t1 = on_active (off_the_edge t.cols) t in fire line_fed (mark_dirty (active t1).y t1) in
    if (active s2).y == (active s2).scroll_bottom
    then elim (scroll (erase_attr_data s2) false (keep_erase s2)) [
      | none ↦ none
      | some t ↦ some (last t)
    ]
    else some (last (on_active (row_below s2.rows true) s2))

unfoldable pub tab : Screen → Screen
unfolding next_stop
tab s =
    let b = active s in
    let to = next_stop b b.x in
    let t = on_active (λ c. record c { x = to }) s in
    if leb s.cols b.x then s else if s.screen_reader_mode then fire (tabbed (to - b.x)) t else t

-- The soft wrap that is undone: the cursor goes to the end of the row above.
unfoldable pub unwrap_back : ℕ → Buffer → Buffer
unfolding unwrap_line line_at has_width has_content
unwrap_back cols b =
    let c = record (unwrap_line (b.y_base + b.y) b) { y = b.y - 1; x = cols - 1 } in
    elim (line_at c (c.y_base + c.y)) [
      | none ↦ c
      | some l ↦
          if not (has_width l c.x == 0) && has_content l c.x == 0
          then record c { x = c.x - 1 }
          else c
    ]

-- With reverse wraparound, at column 0 of a row that a soft wrap began.
unfoldable pub wrap_back : ℕ → Buffer → Buffer
unfolding unwrap_back line_at
wrap_back cols b = elim (line_at b (b.y_base + b.y)) [
  | none ↦ b
  | some l ↦ if l.is_wrapped then unwrap_back cols b else b
]

unfoldable pub step_back : ℕ → Buffer → Buffer
unfolding wrap_back
step_back cols b =
    if ltb 0 b.x
    then record b { x = b.x - 1 }
    else if ltb b.scroll_top b.y && leb b.y b.scroll_bottom
    then wrap_back cols b
    else b

-- `if buf.X > 0 { buf.X-- }`
abbrev pub one_left : Buffer → Buffer
one_left b = if ltb 0 b.x then record b { x = b.x - 1 } else b

unfoldable pub backspace : Screen → Screen
unfolding restrict_cursor restrict_cursor_to step_back
backspace s =
    if not s.core.dec.reverse_wraparound
    then on_active one_left (restrict_cursor s)
    else restrict_cursor (on_active (step_back s.cols) (restrict_cursor_to s.cols s))
