-- ===== src/Xterm/Screen/Modes.antt =====
-- internal/xterm/inputhandler_csi.go, inputhandler_dcs.go: modes, the stack of keyboard flags, titles and
-- reports.
use daemontest.Prelude.{ℕ, zero, suc, ◌+◌, Bool, true, false, not, ◌||◌, ◌==◌, if◌then◌else◌}
use daemontest.Prelude.Int.{ℤ, pos, negsuc}
use daemontest.Xterm.Params.{Params}
use daemontest.Xterm.Screen.{
  Screen, scroll_bar_synced, all_rows_refreshed, DecPrivateModes, KittyKeyboardState, MouseTracking,
  no_tracking, x10, vt200, drag, any_motion, MouseEncoding, default_encoding, sgr, sgr_pixels, fire,
  activate_normal_buffer, activate_alt_buffer, erase_attr_data, keep_erase,
}
use daemontest.Xterm.Screen.Cursor.{param_at, is_number, set_cursor}
use daemontest.Xterm.Screen.Esc.{save_cursor, restore_cursor}

abbrev pub on_dec : (DecPrivateModes → DecPrivateModes) → Screen → Screen
on_dec f s = record s { core = record (s.core) { dec = f s.core.dec } }

abbrev pub on_kitty : (KittyKeyboardState → KittyKeyboardState) → Screen → Screen
on_kitty f s = record s { core = record (s.core) { kitty = f s.core.kitty } }

-- `SetMode` and `ResetMode`, one parameter.
unfoldable pub ansi_mode : Bool → ℤ → Screen → Screen
ansi_mode on v s =
    if is_number 4 v
    then record s { core = record (s.core) { insert_mode = on } }
    else if is_number 20 v
    then record s { convert_eol = on }
    else s

-- The flags of the main screen are kept, those of the alternate one restored, and back.
abbrev pub to_alt_keyboard : KittyKeyboardState → KittyKeyboardState
to_alt_keyboard k = record k {
  main_flags = k.flags;
  flags = k.alt_flags;
  main_stack = k.alt_stack;
  alt_stack = k.main_stack;
}

abbrev pub to_main_keyboard : KittyKeyboardState → KittyKeyboardState
to_main_keyboard k = record k {
  alt_flags = k.flags;
  flags = k.main_flags;
  main_stack = k.alt_stack;
  alt_stack = k.main_stack;
}

abbrev pub shown : Screen → Screen
shown s =
    fire scroll_bar_synced (
      fire all_rows_refreshed
        (record s { core = record (s.core) { is_cursor_initialized = true } }))

unfoldable pub enter_alt : Screen → Screen
unfolding activate_alt_buffer erase_attr_data keep_erase
enter_alt s =
    let k = on_kitty to_alt_keyboard s in
    shown (activate_alt_buffer (erase_attr_data k) (keep_erase k))

unfoldable pub leave_alt : Bool → Screen → Screen
unfolding activate_normal_buffer restore_cursor
leave_alt restore s =
    let n = activate_normal_buffer (on_kitty to_main_keyboard s) in
    shown (if restore then restore_cursor n else n)

unfoldable pub home : Screen → Screen
unfolding set_cursor
home s = set_cursor (pos 0) (pos 0) s

abbrev pub tracking : ℕ → MouseTracking
tracking n =
    if n == 9 then x10 else if n == 1000 then vt200 else if n == 1002 then drag else any_motion

-- `setModePrivate` and `resetModePrivate`, one parameter.
unfoldable pub private_mode : Bool → ℕ → Screen → Screen
unfolding home save_cursor restore_cursor enter_alt leave_alt
private_mode on v s =
    if v == 1
    then on_dec (λ d. record d { application_cursor_keys = on }) s
    else if v == 6
    then home (on_dec (λ d. record d { origin = on }) s)
    else if v == 7
    then on_dec (λ d. record d { wraparound = on }) s
    else if v == 25
    then record s { core = record (s.core) { is_cursor_hidden = not on } }
    else if v == 45
    then on_dec (λ d. record d { reverse_wraparound = on }) s
    else if v == 66
    then fire scroll_bar_synced (on_dec (λ d. record d { application_keypad = on }) s)
    else if v == 9 || v == 1000 || v == 1002 || v == 1003
    then on_dec (λ d. record d { mouse_tracking_mode = if on then tracking v else no_tracking }) s
    else if v == 1004
    then on_dec (λ d. record d { send_focus = on }) s
    else if v == 1006
    then on_dec (λ d. record d { mouse_encoding = if on then sgr else default_encoding }) s
    else if v == 1016
    then on_dec (λ d. record d { mouse_encoding = if on then sgr_pixels else default_encoding }) s
    else if v == 1048
    then (if on then save_cursor s else restore_cursor s)
    else if v == 1049
    then (if on then enter_alt (save_cursor s) else leave_alt true s)
    else if v == 47 || v == 1047
    then (if on then enter_alt s else leave_alt false s)
    else if v == 2004
    then on_dec (λ d. record d { bracketed_paste_mode = on }) s
    else if v == 2026
    then (let t = on_dec (λ d. record d { synchronized_output = on }) s in
        if on then t else fire all_rows_refreshed t)
    else if v == 2031
    then on_dec (λ d. record d { color_scheme_updates = on }) s
    else if v == 9001
    then on_dec (λ d. record d { win32_input_mode = on }) s
    else s

unfoldable pub private_mode_of : Bool → ℤ → Screen → Screen
unfolding private_mode
private_mode_of on (pos v) s = private_mode on v s
private_mode_of on (negsuc n) s = s

-- The parameters from number `i` on, `n` of them.
unfoldable pub each_param : (ℤ → Screen → Screen) → ℕ → ℕ → Params → Screen → Screen
each_param f i zero p s = s
each_param f i (suc n) p s = each_param f (i + 1) n p (f (param_at p i) s)

unfoldable pub set_mode : Bool → Params → Screen → Screen
unfolding each_param ansi_mode
set_mode on p s = each_param (ansi_mode on) 0 p.len p s

unfoldable pub set_mode_private : Bool → Params → Screen → Screen
unfolding each_param private_mode_of
set_mode_private on p s = each_param (private_mode_of on) 0 p.len p s

-- 1 is set, 2 is reset.
abbrev pub bool_to_pm : Bool → ℕ
bool_to_pm true = 1
bool_to_pm false = 2

abbrev pub is_tracking : MouseTracking → MouseTracking → Bool
is_tracking x10 x10 = true
is_tracking vt200 vt200 = true
is_tracking drag drag = true
is_tracking any_motion any_motion = true
is_tracking no_tracking no_tracking = true
is_tracking _ _ = false

abbrev pub is_encoding : MouseEncoding → MouseEncoding → Bool
is_encoding sgr sgr = true
is_encoding sgr_pixels sgr_pixels = true
is_encoding default_encoding default_encoding = true
is_encoding _ _ = false

unfoldable pub private_mode_setting : ℕ → Screen → ℕ
private_mode_setting v s =
    let d = s.core.dec in
    if v == 1
    then bool_to_pm d.application_cursor_keys
    else if v == 6
    then bool_to_pm d.origin
    else if v == 7
    then bool_to_pm d.wraparound
    else if v == 25
    then bool_to_pm (not s.core.is_cursor_hidden)
    else if v == 45
    then bool_to_pm d.reverse_wraparound
    else if v == 66
    then bool_to_pm d.application_keypad
    else if v == 9 || v == 1000 || v == 1002 || v == 1003
    then bool_to_pm (is_tracking d.mouse_tracking_mode (tracking v))
    else if v == 1004
    then bool_to_pm d.send_focus
    else if v == 1006
    then bool_to_pm (is_encoding d.mouse_encoding sgr)
    else if v == 1016
    then bool_to_pm (is_encoding d.mouse_encoding sgr_pixels)
    else if v == 47 || v == 1047 || v == 1049
    then bool_to_pm s.on_alt
    else if v == 2004
    then bool_to_pm d.bracketed_paste_mode
    else if v == 2026
    then bool_to_pm d.synchronized_output
    else if v == 2031
    then bool_to_pm d.color_scheme_updates
    else if v == 9001
    then bool_to_pm d.win32_input_mode
    else 0

unfoldable pub ansi_mode_setting : ℕ → Screen → ℕ
ansi_mode_setting v s =
    if v == 4
    then bool_to_pm s.core.insert_mode
    else if v == 20
    then bool_to_pm s.convert_eol
    else 0
