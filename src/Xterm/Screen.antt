-- ===== src/Xterm/Screen.antt =====
-- internal/xterm/bufferset.go, bufferservice.go, coreservice.go, inputhandler.go: the state that the
-- handlers of the parser's actions work on. `none` is a panic. Data that is sent and the other events
-- are collected, in order; listeners of them take no part.
pub mod Scroll
pub mod Cursor
pub mod Esc
pub mod Csi
pub mod Modes
pub mod Keyboard
pub mod Inv
pub mod Bounds
pub mod Reports
pub mod Dispatch
pub mod Print
pub mod Charsets
pub mod Parse
pub mod Settings
pub mod Undo
mod Tests
use daemontest.Prelude.{
  ℕ, zero, suc, ◌+◌, ◌-◌, min, Bool, true, false, not, ◌&&◌, ◌||◌, List, [], ◌∷◌, ◌++◌, Option,
  none, some, ltb, leb, ◌==◌, if◌then◌else◌,
}
use daemontest.Prelude.Bytes.{Bytes}
use daemontest.Prelude.Bits.{◌&◌, ◌∣◌, mask_not}
use daemontest.Prelude.Int.{ℤ, pos, negsuc, ltb_ℤ, ◌+ℤ◌}
use daemontest.Xterm.Attr.{AttributeData, default_attr_data, attr_cm_mask}
use daemontest.Xterm.Cell.{Text}
use daemontest.Xterm.BufferLine.{BufferLine}
use daemontest.Xterm.Buffer.{
  Buffer, CharsetService, new_buffer, new_charset_service, fill_viewport_rows, clear,
  clear_all_markers, setup_tab_stops,
}

pub data MouseTracking : Type 0 where
  no_tracking x10 vt200 drag any_motion : MouseTracking

pub data MouseEncoding : Type 0 where
  default_encoding sgr sgr_pixels : MouseEncoding

pub data CursorStyle : Type 0 where
  block underline bar : CursorStyle

-- Less `CursorBlink`, which nothing sets.
pub record DecPrivateModes : Type 0 where
  pub application_cursor_keys : Bool
  pub application_keypad : Bool
  pub bracketed_paste_mode : Bool
  pub color_scheme_updates : Bool
  pub cursor_blink_override : Option Bool
  pub cursor_style : Option CursorStyle
  pub mouse_encoding : MouseEncoding
  pub mouse_tracking_mode : MouseTracking
  pub origin : Bool
  pub reverse_wraparound : Bool
  pub send_focus : Bool
  pub synchronized_output : Bool
  pub win32_input_mode : Bool
  pub wraparound : Bool

pub record KittyKeyboardState : Type 0 where
  pub flags : ℕ
  pub main_flags : ℕ
  pub alt_flags : ℕ
  pub main_stack : List ℕ
  pub alt_stack : List ℕ

pub record CoreService : Type 0 where
  pub is_cursor_initialized : Bool
  pub is_cursor_hidden : Bool
  pub insert_mode : Bool
  pub dec : DecPrivateModes
  pub kitty : KittyKeyboardState

-- The empty strings of a new record count as no tracking and the default encoding.
abbrev pub default_dec_private_modes : DecPrivateModes
default_dec_private_modes = record {
  application_cursor_keys = false;
  application_keypad = false;
  bracketed_paste_mode = false;
  color_scheme_updates = false;
  cursor_blink_override = none;
  cursor_style = none;
  mouse_encoding = default_encoding;
  mouse_tracking_mode = no_tracking;
  origin = false;
  reverse_wraparound = false;
  send_focus = false;
  synchronized_output = false;
  win32_input_mode = false;
  wraparound = true;
}

abbrev pub default_kitty_keyboard_state : KittyKeyboardState
default_kitty_keyboard_state = record {
  flags = 0;
  main_flags = 0;
  alt_flags = 0;
  main_stack = [];
  alt_stack = [];
}

unfoldable pub reset_core : CoreService → CoreService
reset_core c = record c {
  insert_mode = false;
  dec = default_dec_private_modes;
  kitty = default_kitty_keyboard_state;
}

-- Events without data, and the ones that a title, a scroll position and a tab make.
pub data Event : Type 0 where
  cursor_moved line_fed bell_rung reset_requested scroll_bar_synced all_rows_refreshed : Event
  scrolled : ℕ → Event
  title_changed : Text → Event
  tabbed : ℕ → Event
  buffer_activated : Bool → Event
  rows_refreshed : ℕ → ℕ → Event

-- `none` is the range without rows.
abbrev pub Dirty : Type 0
Dirty = Option (ℕ × ℕ)

-- The fields of BufferService, BufferSet, CoreService, CharsetService and InputHandler, and the options
-- that the handlers read. The active buffer is the alternate one where `on_alt` is true.
pub record Screen : Type 0 where
  pub cols : ℕ
  pub rows : ℕ
  pub normal : Buffer
  pub alt : Buffer
  pub on_alt : Bool
  pub scrollback : ℕ
  pub tab_stop_width : ℕ
  pub is_user_scrolling : Bool
  pub cached_blank_line : Option BufferLine
  pub core : CoreService
  pub charset_service : CharsetService
  pub convert_eol : Bool
  pub disable_stdin : Bool
  pub screen_reader_mode : Bool
  pub cur_attr_data : AttributeData
  pub erase_attr_data_internal : AttributeData
  pub window_title : Text
  pub window_title_stack : List Text
  pub icon_name_stack : List Text
  pub dirty : Dirty
  pub sent : List Text
  pub events : List Event

abbrev pub active : Screen → Buffer
active s = if s.on_alt then s.alt else s.normal

-- A change of the active buffer.
abbrev pub on_active : (Buffer → Buffer) → Screen → Screen
on_active f s = if s.on_alt then record s { alt = f s.alt } else record s { normal = f s.normal }

abbrev pub fire : Event → Screen → Screen
fire e s = record s { events = s.events ++ e ∷ [] }

-- `TriggerDataEvent`, of data that is no user input
unfoldable pub trigger_data_event : Text → Screen → Screen
trigger_data_event data_text s =
    if s.disable_stdin then s else record s { sent = s.sent ++ data_text ∷ [] }

abbrev pub lesser : ℕ → ℕ → ℕ
lesser a b = if ltb b a then b else a

abbrev pub greater : ℕ → ℕ → ℕ
greater a b = if ltb a b then b else a

unfoldable pub clear_range : Screen → Screen
clear_range s = record s { dirty = none }

abbrev pub wider : ℕ → ℕ → Dirty → Dirty
wider y1 y2 none = some (y1, y2)
wider y1 y2 (some (a, b)) = some (lesser a y1, greater b y2)

unfoldable pub mark_dirty : ℕ → Screen → Screen
mark_dirty y s = record s { dirty = wider y y s.dirty }

unfoldable pub mark_range_dirty : ℕ → ℕ → Screen → Screen
mark_range_dirty y1 y2 s = record s { dirty = wider (lesser y1 y2) (greater y1 y2) s.dirty }

unfoldable pub mark_all_dirty : Screen → Screen
unfolding mark_range_dirty
mark_all_dirty s = mark_range_dirty 0 (s.rows - 1) s

-- `eraseAttrData`: the new one, which is stored too.
unfoldable pub erase_attr_data : Screen → AttributeData
erase_attr_data s = record (s.erase_attr_data_internal) {
  bg =
      s.erase_attr_data_internal.bg & mask_not (attr_cm_mask ∣ 0xFF_FFFF)
      ∣ (s.cur_attr_data.bg & mask_not 0xFC00_0000);
}

unfoldable pub keep_erase : Screen → Screen
unfolding erase_attr_data
keep_erase s = record s { erase_attr_data_internal = erase_attr_data s }

abbrev pub minimum : ℕ → ℕ → ℕ
minimum least n = if ltb n least then least else n

unfoldable pub new_buffers : Screen → Screen
unfolding new_buffer fill_viewport_rows setup_tab_stops default_attr_data
new_buffers s = fire (buffer_activated false) (record s {
  normal = setup_tab_stops none (
      fill_viewport_rows default_attr_data
        (new_buffer s.cols s.rows s.scrollback true s.tab_stop_width));
  alt = setup_tab_stops none (new_buffer s.cols s.rows 0 false s.tab_stop_width);
  on_alt = false;
})

-- `NewBufferService`, `NewCoreService`, `NewCharsetService` and `NewInputHandler`, at least 2 columns
-- wide and 1 row high, with the default options but for the ones given.
unfoldable pub blank_screen : ℕ → ℕ → ℕ → ℕ → Screen
unfolding new_buffer new_charset_service default_attr_data
blank_screen cols rows scrollback tab_stop_width = record {
  cols = minimum 2 cols;
  rows = minimum 1 rows;
  normal = new_buffer (minimum 2 cols) (minimum 1 rows) scrollback true tab_stop_width;
  alt = new_buffer (minimum 2 cols) (minimum 1 rows) 0 false tab_stop_width;
  on_alt = false;
  scrollback = scrollback;
  tab_stop_width = tab_stop_width;
  is_user_scrolling = false;
  cached_blank_line = none;
  core = record {
    is_cursor_initialized = false;
    is_cursor_hidden = false;
    insert_mode = false;
    dec = default_dec_private_modes;
    kitty = default_kitty_keyboard_state;
  };
  charset_service = new_charset_service;
  convert_eol = false;
  disable_stdin = false;
  screen_reader_mode = false;
  cur_attr_data = default_attr_data;
  erase_attr_data_internal = default_attr_data;
  window_title = [];
  window_title_stack = [];
  icon_name_stack = [];
  dirty = none;
  sent = [];
  events = [];
}

unfoldable pub new_screen : ℕ → ℕ → ℕ → ℕ → Screen
unfolding new_buffers blank_screen
new_screen cols rows scrollback tab_stop_width =
    new_buffers (blank_screen cols rows scrollback tab_stop_width)

-- The service fires a scroll event whenever a buffer is activated.
unfoldable pub reset_buffers : Screen → Screen
unfolding new_buffers
reset_buffers s =
    let n = new_buffers s in
    record (fire (scrolled n.normal.y_disp) n) { is_user_scrolling = false }

unfoldable pub activate_normal_buffer : Screen → Screen
unfolding clear clear_all_markers
activate_normal_buffer s =
    if not s.on_alt
    then s
    else fire (scrolled s.normal.y_disp) (
        fire (buffer_activated false) (record s {
          normal = record (s.normal) { x = s.alt.x; y = s.alt.y };
          alt = clear (clear_all_markers s.alt);
          on_alt = false;
        }))

unfoldable pub activate_alt_buffer : AttributeData → Screen → Screen
unfolding fill_viewport_rows
activate_alt_buffer attr s =
    let b = fill_viewport_rows attr s.alt in
    if s.on_alt
    then s
    else fire (scrolled b.y_disp) (
        fire (buffer_activated true)
          (record s { alt = record b { x = s.normal.x; y = s.normal.y }; on_alt = true }))
