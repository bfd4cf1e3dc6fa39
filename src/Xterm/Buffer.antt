-- ===== src/Xterm/Buffer.antt =====
-- internal/xterm/buffer.go, marker.go, charset.go: a screen, its cursor, margins, tab stops and markers.
-- `nil` is `none`. A row or column that the code keeps at or above 0 is a natural number. The pointer
-- that `GetNullCell` hands out is read before the next call of it.
pub mod Tabs
mod Tests
use daemontest.Prelude.{
  ℕ, zero, suc, ◌+◌, ◌-◌, ◌*◌, ◌^◌, min, Bool, true, false, not, ◌&&◌, ◌||◌, List, [], ◌∷◌, ◌++◌,
  map, Option, none, some, ltb, leb, ◌==◌, if◌then◌else◌, replicate, set, get_or, length,
}
use daemontest.Prelude.Int.{ℤ, pos, negsuc, ltb_ℤ, ◌+ℤ◌}
use daemontest.Xterm.Attr.{AttributeData, default_attr_data}
use daemontest.Xterm.Cell.{CellData, Text}
use daemontest.Xterm.BufferLine.{BufferLine}
use daemontest.Xterm.BufferLine.Bulk.{new_buffer_line}
use daemontest.Xterm.BufferLine.Reading.{translate_to_string}
use daemontest.Xterm.CircularList.{
  CircularList, Fired, trimmed, deleted, inserted, new_circular_list, get, push,
}

abbrev pub max_buffer_size : ℕ
max_buffer_size = 4294967295

-- A nil map is `none`.
abbrev pub Charset : Type 0
Charset = Option (ℕ → Option ℕ)

pub record CharsetService : Type 0 where
  pub charset : Charset
  pub g_level : ℕ
  pub charsets : List Charset

unfoldable pub new_charset_service : CharsetService
new_charset_service = record { charset = none; g_level = 0; charsets = replicate 4 none }

unfoldable pub setg_level : ℕ → CharsetService → CharsetService
setg_level g cs = record cs {
  g_level = g;
  charset = if ltb g (length cs.charsets) then get_or cs.charsets g none else cs.charset;
}

unfoldable pub setg_charset : ℕ → Charset → CharsetService → CharsetService
setg_charset g charset cs =
    let room = cs.charsets ++ replicate (g + 1 - length cs.charsets) none in
    record cs {
      charsets = set room g charset;
      charset = if cs.g_level == g then charset else cs.charset;
    }

pub record SavedCursorState : Type 0 where
  pub x : ℕ
  pub y : ℕ
  pub cur_attr_data : AttributeData
  pub charset : Charset
  pub charsets : List Charset
  pub g_level : ℕ
  pub origin_mode : Bool
  pub wraparound_mode : Bool

pub record Marker : Type 0 where
  pub line : ℤ
  pub is_disposed : Bool

pub record Buffer : Type 0 where
  pub lines : CircularList (Option BufferLine)
  pub y_disp : ℕ
  pub y_base : ℕ
  pub y : ℕ
  pub x : ℕ
  pub scroll_top : ℕ
  pub scroll_bottom : ℕ
  pub tabs : ℕ → Bool
  pub saved_state : SavedCursorState
  pub markers : List Marker
  pub cols : ℕ
  pub rows : ℕ
  pub has_scrollback : Bool
  pub scrollback : ℕ
  pub tab_stop_width : ℕ

-- `CellDataFromCharData` of the null cell and of a space, with the given attributes: both of width 1
unfoldable pub get_null_cell : AttributeData → CellData
get_null_cell attr = record { attrs = attr; content = 2 ^ 22; combined_data = [] }

unfoldable pub get_whitespace_cell : AttributeData → CellData
get_whitespace_cell attr = record { attrs = attr; content = 32 + 2 ^ 22; combined_data = [] }

unfoldable pub get_blank_line : Buffer → AttributeData → Bool → BufferLine
unfolding new_buffer_line get_null_cell
get_blank_line b attr is_wrapped = new_buffer_line b.cols (some (get_null_cell attr)) is_wrapped

unfoldable pub can_scroll_back : Buffer → Bool
can_scroll_back b = b.has_scrollback && ltb b.rows b.lines.max_len

unfoldable pub is_cursor_in_viewport : Buffer → Bool
is_cursor_in_viewport b = leb b.y_disp (b.y_base + b.y) && ltb (b.y_base + b.y - b.y_disp) b.rows

unfoldable pub get_correct_buffer_length : Bool → ℕ → ℕ → ℕ
get_correct_buffer_length has_scrollback scrollback rows =
    if not has_scrollback
    then rows
    else if ltb max_buffer_size (rows + scrollback)
    then max_buffer_size
    else rows + scrollback

-- The loop of `PrevStop` from `x` down.
unfoldable pub seek_back : (ℕ → Bool) → ℕ → ℕ
seek_back tabs zero = zero
seek_back tabs (suc x) = if tabs (suc x) then suc x else seek_back tabs x

-- At column 0 the search begins, and ends, left of the screen.
unfoldable pub prev_stop : Buffer → ℕ → ℕ
unfolding seek_back
prev_stop b x = let stop = seek_back b.tabs (x - 1) in if leb b.cols stop then b.cols - 1 else stop

-- The loop of `NextStop` from `x` up, for the `n` columns that are left.
unfoldable pub seek_on : (ℕ → Bool) → ℕ → ℕ → ℕ
seek_on tabs zero x = x
seek_on tabs (suc n) x = if tabs x then x else seek_on tabs n (x + 1)

unfoldable pub next_stop : Buffer → ℕ → ℕ
unfolding seek_on
next_stop b x =
    let stop = seek_on b.tabs (b.cols - (x + 1)) (x + 1) in
    if leb b.cols stop then b.cols - 1 else stop

-- The loop of `SetupTabStops` from `i` up, for at most `n` rounds.
unfoldable pub set_stops : ℕ → ℕ → ℕ → ℕ → (ℕ → Bool) → ℕ → Bool
set_stops width cols zero i tabs = tabs
set_stops width cols (suc n) i tabs =
    let rest = set_stops width cols n (i + width) (λ j. j == i || tabs j) in
    if ltb i cols then rest else tabs

-- `none` is a start of -1. The width is not 0.
unfoldable pub setup_tab_stops : Option ℕ → Buffer → Buffer
unfolding set_stops prev_stop
setup_tab_stops none b = record b { tabs = set_stops b.tab_stop_width b.cols b.cols 0 (λ _. false) }
setup_tab_stops (some c) b =
    let start = if b.tabs c then c else prev_stop b c in
    record b { tabs = set_stops b.tab_stop_width b.cols b.cols start b.tabs }

unfoldable pub blank_saved_state : SavedCursorState
unfolding default_attr_data
blank_saved_state = record {
  x = 0;
  y = 0;
  cur_attr_data = default_attr_data;
  charset = none;
  charsets = [];
  g_level = 0;
  origin_mode = false;
  wraparound_mode = true;
}

-- A tab width of 0 stands for 8.
unfoldable pub new_buffer : ℕ → ℕ → ℕ → Bool → ℕ → Buffer
unfolding get_correct_buffer_length setup_tab_stops blank_saved_state new_circular_list
new_buffer cols rows scrollback has_scrollback tab_stop_width = setup_tab_stops none (record {
  lines = new_circular_list none (get_correct_buffer_length has_scrollback scrollback rows);
  y_disp = 0;
  y_base = 0;
  y = 0;
  x = 0;
  scroll_top = 0;
  scroll_bottom = rows - 1;
  tabs = λ _. false;
  saved_state = blank_saved_state;
  markers = [];
  cols = cols;
  rows = rows;
  has_scrollback = has_scrollback;
  scrollback = scrollback;
  tab_stop_width = if tab_stop_width == 0 then 8 else tab_stop_width;
})

-- The listeners of `AddMarker`: what each event of the list does to a marker.
unfoldable pub move_marker : Fired → Marker → Marker
unfolding ◌+ℤ◌
move_marker (trimmed n) m =
    let line = m.line +ℤ (if n == 0 then pos 0 else negsuc (n - 1)) in
    if ltb_ℤ line (pos 0)
    then record { line = negsuc 0; is_disposed = true }
    else record m { line = line }
move_marker (inserted i n) m =
    if ltb_ℤ m.line (pos i) then m else record m { line = m.line +ℤ pos n }
move_marker (deleted i n) m =
    if not (ltb_ℤ m.line (pos i)) && ltb_ℤ m.line (pos (i + n))
    then record { line = negsuc 0; is_disposed = true }
    else if ltb_ℤ (pos i) m.line
    then record m { line = m.line +ℤ (if n == 0 then pos 0 else negsuc (n - 1)) }
    else m

abbrev pub undisposed : List Marker → List Marker
undisposed [] = []
undisposed (m ∷ ms) = if m.is_disposed then undisposed ms else m ∷ undisposed ms

-- The markers after one event: a disposed one is removed.
unfoldable pub notify : List Fired → Buffer → Buffer
unfolding move_marker
notify [] b = b
notify (e ∷ es) b = notify es (record b { markers = undisposed (map (move_marker e) b.markers) })

-- New lines and the events that they fired.
unfoldable pub with_lines : CircularList (Option BufferLine) × List Fired → Buffer → Buffer
unfolding notify
with_lines r b = notify r.1 (record b { lines = r.0 })

-- The loop of `FillViewportRows`, `n` times.
unfoldable pub push_blank : ℕ → AttributeData → Buffer → Buffer
unfolding get_blank_line push with_lines
push_blank zero attr b = b
push_blank (suc n) attr b =
    push_blank n attr (with_lines (push none (some (get_blank_line b attr false)) b.lines) b)

unfoldable pub fill_viewport_rows : AttributeData → Buffer → Buffer
unfolding push_blank
fill_viewport_rows attr b = if b.lines.len == 0 then push_blank b.rows attr b else b

unfoldable pub clear : Buffer → Buffer
unfolding get_correct_buffer_length setup_tab_stops new_circular_list
clear b = setup_tab_stops none (record b {
  y_disp = 0;
  y_base = 0;
  y = 0;
  x = 0;
  lines = new_circular_list none (get_correct_buffer_length b.has_scrollback b.scrollback b.rows);
  scroll_top = 0;
  scroll_bottom = b.rows - 1;
})

abbrev pub is_at : ℤ → ℕ → Bool
is_at (pos n) y = n == y
is_at (negsuc n) y = false

abbrev pub not_at : ℕ → List Marker → List Marker
not_at y [] = []
not_at y (m ∷ ms) = if is_at m.line y then not_at y ms else m ∷ not_at y ms

unfoldable pub clear_markers : ℕ → Buffer → Buffer
clear_markers y b = record b { markers = not_at y b.markers }

unfoldable pub clear_all_markers : Buffer → Buffer
clear_all_markers b = record b { markers = [] }

unfoldable pub add_marker : ℕ → Buffer → Buffer
add_marker y b = record b {
  markers = b.markers ++ (record { line = pos y; is_disposed = false }) ∷ [];
}

unfoldable pub line_at : Buffer → ℕ → Option BufferLine
unfolding get
line_at b i = get none b.lines i

abbrev pub is_wrapped_line : Option BufferLine → Bool
is_wrapped_line none = false
is_wrapped_line (some l) = l.is_wrapped

unfoldable pub first_wrapped : Buffer → ℕ → ℕ
unfolding line_at
first_wrapped b zero = zero
first_wrapped b (suc y) = if is_wrapped_line (line_at b (suc y)) then first_wrapped b y else suc y

-- From `y` on, for the `n` lines that are left.
unfoldable pub last_wrapped : Buffer → ℕ → ℕ → ℕ
unfolding line_at
last_wrapped b zero y = y
last_wrapped b (suc n) y =
    if is_wrapped_line (line_at b (y + 1)) then last_wrapped b n (y + 1) else y

unfoldable pub get_wrapped_range_for_line : Buffer → ℕ → ℕ × ℕ
unfolding first_wrapped last_wrapped
get_wrapped_range_for_line b y = (first_wrapped b y, last_wrapped b (b.lines.len - 1 - y) y)

unfoldable pub translate_buffer_line_to_string : ℕ → Bool → ℕ → Option ℕ → Buffer → Text
unfolding line_at translate_to_string
translate_buffer_line_to_string i trim_right start end_col b =
    if leb b.lines.len i
    then []
    else elim (line_at b i) [ none ↦ [] | some l ↦ translate_to_string trim_right start end_col l ]
