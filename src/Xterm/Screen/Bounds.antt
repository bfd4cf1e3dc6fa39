-- ===== src/Xterm/Screen/Bounds.antt =====
-- internal/xterm/inputhandler.go: the place of the cursor after a handler of the tables, and on a new screen.
pub mod Scrolling
pub mod Runs
mod Tests
use Prim.{tt}
use daemontest.Prelude.{
  ℕ, ◌-◌, ◌≤◌, ◌<◌, ◌≡◌, refl, Bool, true, false, List, [], ◌∷◌, ◌++◌, Option, none, arith, inl,
  inr, Bool-cases, ltb, ◌==◌, if◌then◌else◌, ◌⊗◌, All,
}
use daemontest.Xterm.Attr.{default_attr_data}
use daemontest.Xterm.Params.{Params}
use daemontest.Xterm.Parser.{Event, executed, csi, esc}
use daemontest.Xterm.Buffer.{Buffer, new_buffer, setup_tab_stops, fill_viewport_rows}
use daemontest.Xterm.Screen.{
  Screen, fire, bell_rung, new_buffers, new_screen, blank_screen, minimum,
}
use daemontest.Xterm.Screen.Cursor.{bell, carriage_return}
use daemontest.Xterm.Screen.Dispatch.{
  on_code, handler_of, cursor_handlers, row_handlers, mode_handlers, esc_handlers, execute_handlers,
  handle,
}
use daemontest.Xterm.Screen.Inv.{Fits, Framed, dressed-Fits}
use daemontest.Xterm.Screen.Inv.Cursor.{
  to_column_0-Framed, backspace-Framed, cursor_backward-Framed, cursor_backward_tab-Framed,
  cursor_char_absolute-Framed, cursor_down-Framed, cursor_forward-Framed, cursor_forward_tab-Framed,
  cursor_next_line-Framed, cursor_position-Framed, cursor_preceding_line-Framed, cursor_up-Framed,
  line_pos_absolute-Framed, set_scroll_region-Framed, tab-Framed, tab_clear-Framed,
  v_position_relative-Framed,
}
use daemontest.Xterm.Screen.Inv.Rows.{erase_in_display-Framed, erase_in_line-Framed}
use daemontest.Xterm.Screen.Inv.Shift.{
  delete_chars-Framed, delete_columns-Framed, delete_lines-Framed, erase_chars-Framed,
  insert_chars-Framed, insert_columns-Framed, insert_lines-Framed, scroll_down-Framed,
  scroll_left-Framed, scroll_right-Framed, scroll_up-Framed, select_protected-Framed,
}
use daemontest.Xterm.Screen.Inv.Modes.{
  fill_viewport_rows-Fits, fire-Framed, restore_cursor-Framed, save_cursor-Framed,
}
use daemontest.Xterm.Screen.Inv.Reports.{
  device_status-Framed, device_status_private-Framed, full_reset-Framed, keypad_mode-Framed,
  kitty_keyboard_pop-Framed, kitty_keyboard_push-Framed, kitty_keyboard_query-Framed,
  kitty_keyboard_set-Framed, request_mode-Framed, screen_alignment_pattern-Framed,
  select_default_charset-Framed, select_g_level-Framed, send_device_attributes_primary-Framed,
  send_device_attributes_secondary-Framed, send_xt_version-Framed, set_cursor_style-Framed,
  set_mode-Framed, set_mode_private-Framed, soft_reset-Framed, tab_set-Framed,
  window_options-Framed,
}

-- A handler that keeps the cursor and the margins on the screen.
abbrev Keeps : (Params → Screen → Screen) → Type 0
Keeps h = (p : Params) (s : Screen) → Framed s → Framed (h p s)

abbrev KeepsAll : (Screen → Screen) → Type 0
KeepsAll h = (s : Screen) → Framed s → Framed (h s)

pub handler_of-All :
    {H : Type 0} (P : H → Type 0) (fallback : H) (code : ℕ) (table : List (ℕ × H))
    → P fallback
    → All (λ e. P (e.1)) table
    → P (handler_of fallback code table)
unfolding handler_of
handler_of-All P fallback code [] h a = h
handler_of-All P fallback code ((c, g) ∷ rest) h a = elim (Bool-cases (c == code)) [
  | inl t ↦ rw t (a.0)
  | inr e ↦ rw e (handler_of-All P fallback code rest h (a.1))
]

pub All-append {ℓ κ} :
    {A : Type ℓ} (P : A → Type κ) (xs ys : List A) → All P xs → All P ys → All P (xs ++ ys)
All-append P [] ys a b = b
All-append P (x ∷ xs) ys a b = (a.0, All-append P xs ys (a.1) b)

cursor_handlers-Keep : All (λ e. Keeps (e.1)) cursor_handlers
unfolding cursor_handlers on_code
cursor_handlers-Keep =
    cursor_up-Framed ⊗ cursor_down-Framed ⊗ cursor_forward-Framed ⊗ cursor_backward-Framed
    ⊗ cursor_next_line-Framed ⊗ cursor_preceding_line-Framed ⊗ cursor_char_absolute-Framed
    ⊗ cursor_position-Framed ⊗ cursor_forward_tab-Framed ⊗ cursor_backward_tab-Framed
    ⊗ cursor_char_absolute-Framed ⊗ cursor_forward-Framed ⊗ line_pos_absolute-Framed
    ⊗ v_position_relative-Framed ⊗ cursor_position-Framed ⊗ tt

row_handlers-Keep : All (λ e. Keeps (e.1)) row_handlers
unfolding row_handlers on_code
row_handlers-Keep =
    (erase_in_display-Framed false)
    ⊗ (erase_in_line-Framed false)
    ⊗ erase_chars-Framed
    ⊗ (erase_in_display-Framed true)
    ⊗ (erase_in_line-Framed true)
    ⊗ insert_chars-Framed
    ⊗ insert_lines-Framed
    ⊗ delete_lines-Framed
    ⊗ delete_chars-Framed
    ⊗ scroll_up-Framed
    ⊗ scroll_down-Framed
    ⊗ scroll_down-Framed
    ⊗ scroll_left-Framed
    ⊗ scroll_right-Framed
    ⊗ insert_columns-Framed
    ⊗ delete_columns-Framed
    ⊗ tt

mode_handlers-Keep : All (λ e. Keeps (e.1)) mode_handlers
unfolding mode_handlers on_code
mode_handlers-Keep =
    send_device_attributes_primary-Framed
    ⊗ send_device_attributes_secondary-Framed
    ⊗ send_xt_version-Framed
    ⊗ tab_clear-Framed
    ⊗ device_status-Framed
    ⊗ device_status_private-Framed
    ⊗ (λ _. soft_reset-Framed)
    ⊗ (request_mode-Framed false)
    ⊗ (request_mode-Framed true)
    ⊗ set_cursor_style-Framed
    ⊗ set_scroll_region-Framed
    ⊗ window_options-Framed
    ⊗ (λ _. save_cursor-Framed)
    ⊗ (λ _. restore_cursor-Framed)
    ⊗ kitty_keyboard_set-Framed
    ⊗ (λ _. kitty_keyboard_query-Framed)
    ⊗ kitty_keyboard_push-Framed
    ⊗ kitty_keyboard_pop-Framed
    ⊗ select_protected-Framed
    ⊗ (set_mode-Framed true)
    ⊗ (set_mode-Framed false)
    ⊗ (set_mode_private-Framed true)
    ⊗ (set_mode_private-Framed false)
    ⊗ tt

esc_handlers-Keep : All (λ e. KeepsAll (e.1)) esc_handlers
unfolding esc_handlers on_code
esc_handlers-Keep =
    save_cursor-Framed
    ⊗ restore_cursor-Framed
    ⊗ tab_set-Framed
    ⊗ (keypad_mode-Framed true)
    ⊗ (keypad_mode-Framed false)
    ⊗ full_reset-Framed
    ⊗ (select_g_level-Framed 2)
    ⊗ (select_g_level-Framed 3)
    ⊗ (select_g_level-Framed 3)
    ⊗ (select_g_level-Framed 2)
    ⊗ (select_g_level-Framed 1)
    ⊗ select_default_charset-Framed
    ⊗ select_default_charset-Framed
    ⊗ screen_alignment_pattern-Framed
    ⊗ tt

bell-Framed : (s : Screen) → Framed s → Framed (bell s)
unfolding bell
bell-Framed s f = fire-Framed bell_rung s f

carriage_return-Framed : (s : Screen) → Framed s → Framed (carriage_return s)
unfolding carriage_return
carriage_return-Framed s f = to_column_0-Framed s f

execute_handlers-Keep : All (λ e. KeepsAll (e.1)) execute_handlers
unfolding execute_handlers
execute_handlers-Keep =
    bell-Framed
    ⊗ carriage_return-Framed
    ⊗ backspace-Framed
    ⊗ tab-Framed
    ⊗ select_g_level-Framed 1
    ⊗ select_g_level-Framed 0
    ⊗ tt

pub handle-Framed : (e : Event) (s : Screen) → Framed s → Framed (handle e s)
unfolding handle
handle-Framed (csi code p) s f =
    handler_of-All Keeps (λ _ t. t) code (cursor_handlers ++ row_handlers ++ mode_handlers)
      (λ _ t k. k)
      (All-append (λ e. Keeps (e.1)) cursor_handlers (row_handlers ++ mode_handlers)
        cursor_handlers-Keep
        (All-append (λ e. Keeps (e.1)) row_handlers mode_handlers row_handlers-Keep
          mode_handlers-Keep))
      p s f
handle-Framed (esc code) s f =
    handler_of-All KeepsAll (λ t. t) code esc_handlers (λ t k. k) esc_handlers-Keep s f
handle-Framed (executed code) s f =
    handler_of-All KeepsAll (λ t. t) code execute_handlers (λ t k. k) execute_handlers-Keep s f
handle-Framed _ s f = f

-- A new buffer.
new_buffer-Fits :
    (cols rows scrollback : ℕ) (has_scrollback : Bool) (width : ℕ)
    → 0 < rows
    → Fits cols rows (new_buffer cols rows scrollback has_scrollback width)
unfolding new_buffer setup_tab_stops
new_buffer-Fits cols rows scrollback has_scrollback width h = record {
  cols_eq = refl;
  rows_eq = refl;
  top_in = omega arith;
  bottom_in = omega arith;
  x_in = omega arith;
  y_in = h;
}

tabs-Fits :
    {cols rows : ℕ} (b : Buffer) → Fits cols rows b → Fits cols rows (setup_tab_stops none b)
unfolding setup_tab_stops
tabs-Fits b f = dressed-Fits f

new_buffers-Framed : (s : Screen) → 1 < s.cols → 0 < s.rows → Framed (new_buffers s)
unfolding new_buffers
new_buffers-Framed s hc hr = record {
  cols_some = hc;
  rows_some = hr;
  normal_fits = tabs-Fits _ (
      fill_viewport_rows-Fits default_attr_data
        (new_buffer s.cols s.rows s.scrollback true s.tab_stop_width)
        (new_buffer-Fits s.cols s.rows s.scrollback true s.tab_stop_width hr));
  alt_fits =
      tabs-Fits (new_buffer s.cols s.rows 0 false s.tab_stop_width)
        (new_buffer-Fits s.cols s.rows 0 false s.tab_stop_width hr);
}

pub new_screen-Framed :
    (cols rows scrollback width : ℕ) → Framed (new_screen cols rows scrollback width)
unfolding new_screen blank_screen
new_screen-Framed cols rows scrollback width =
    new_buffers-Framed (blank_screen cols rows scrollback width) (ground arith) (ground arith)
