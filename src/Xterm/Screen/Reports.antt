-- ===== src/Xterm/Screen/Reports.antt =====
-- internal/xterm/inputhandler_csi.go, inputhandler_dcs.go: what is sent back, and the soft reset.
use daemontest.Prelude.{
  ℕ, zero, suc, ◌+◌, ◌-◌, ◌/◌, ◌%◌, Bool, true, false, [], ◌∷◌, ◌++◌, none, some, ltb, leb, ◌==◌,
  if◌then◌else◌,
}
use daemontest.Prelude.Bytes.{codes, bytes_eq}
use daemontest.Prelude.Int.{ℤ, pos, negsuc, ltb_ℤ}
use daemontest.Xterm.Params.{Params}
use daemontest.Xterm.Attr.{default_attr_data, is_protected}
use daemontest.Xterm.Cell.{Text}
use daemontest.Xterm.Buffer.{new_charset_service}
use daemontest.Xterm.Screen.{
  Screen, CursorStyle, block, underline, bar, scroll_bar_synced, active, on_active, fire,
  trigger_data_event, reset_core,
}
use daemontest.Xterm.Screen.Cursor.{param_at, is_number}
use daemontest.Xterm.Screen.Modes.{private_mode_setting, ansi_mode_setting, on_dec}
use daemontest.Xterm.Screen.Keyboard.{push_title, pop_title}

-- `%d`: the digits of `n`, which has at most `fuel` of them, before `acc`.
unfoldable pub digits_onto : ℕ → ℕ → Text → Text
digits_onto zero n acc = acc
digits_onto (suc fuel) n acc =
    let rest = digits_onto fuel (n / 10) ((48 + n % 10) ∷ acc) in
    if ltb n 10 then (48 + n) ∷ acc else rest

unfoldable pub decimal : ℕ → Text
unfolding digits_onto
decimal n = digits_onto (n + 1) n []

unfoldable pub decimal_ℤ : ℤ → Text
unfolding decimal
decimal_ℤ (pos n) = decimal n
decimal_ℤ (negsuc n) = 45 ∷ decimal (n + 1)

-- `ESC`
abbrev pub esc : ℕ
esc = 27

unfoldable pub nothing_asked : Params → Screen → Text → Screen
unfolding trigger_data_event
nothing_asked p s answer = if ltb_ℤ (pos 0) (param_at p 0) then s else trigger_data_event answer s

unfoldable pub send_device_attributes_primary : Params → Screen → Screen
unfolding nothing_asked
send_device_attributes_primary p s = nothing_asked p s (esc ∷ codes "[?1;2c")

unfoldable pub send_device_attributes_secondary : Params → Screen → Screen
unfolding nothing_asked
send_device_attributes_secondary p s = nothing_asked p s (esc ∷ codes "[>0;276;0c")

unfoldable pub send_xt_version : Params → Screen → Screen
unfolding nothing_asked
send_xt_version p s = nothing_asked p s (esc ∷ codes "P>|xterm-go(0.1.0)" ++ esc ∷ codes "\\")

-- `ESC [`, a prefix, two numbers with a semicolon, and the final code
unfoldable pub pair_report : Text → ℕ → ℕ → Text → Text
unfolding decimal
pair_report prefix a b final =
    esc ∷ codes "[" ++ prefix ++ decimal a ++ codes ";" ++ decimal b ++ final

unfoldable pub device_status : Params → Screen → Screen
unfolding pair_report trigger_data_event
device_status p s =
    let b = active s in
    if is_number 5 (param_at p 0)
    then trigger_data_event (esc ∷ codes "[0n") s
    else if is_number 6 (param_at p 0)
    then trigger_data_event (pair_report [] (b.y + 1) (b.x + 1) (codes "R")) s
    else s

unfoldable pub device_status_private : Params → Screen → Screen
unfolding pair_report trigger_data_event
device_status_private p s =
    let b = active s in
    if is_number 6 (param_at p 0)
    then trigger_data_event (pair_report (codes "?") (b.y + 1) (b.x + 1) (codes "R")) s
    else s

unfoldable pub setting : Bool → ℤ → Screen → ℕ
unfolding private_mode_setting ansi_mode_setting
setting true (pos v) s = private_mode_setting v s
setting false (pos v) s = ansi_mode_setting v s
setting _ (negsuc n) s = 0

unfoldable pub mode_report : Bool → ℤ → Screen → Text
unfolding setting decimal decimal_ℤ
mode_report is_private v s =
    let prefix = if is_private then codes "?" else [] in
    esc ∷ codes "["
    ++ prefix
    ++ decimal_ℤ v
    ++ codes ";"
    ++ decimal (setting is_private v s)
    ++ codes "$y"

unfoldable pub request_mode : Bool → Params → Screen → Screen
unfolding mode_report trigger_data_event
request_mode is_private p s = trigger_data_event (mode_report is_private (param_at p 0) s) s

-- The scroll flag of the event counts for the user's input only.
unfoldable pub kitty_keyboard_query : Screen → Screen
unfolding decimal trigger_data_event
kitty_keyboard_query s =
    trigger_data_event (esc ∷ codes "[?" ++ decimal s.core.kitty.flags ++ codes "u") s

unfoldable pub window_options : Params → Screen → Screen
unfolding pair_report trigger_data_event push_title pop_title
window_options p s =
    let v = param_at p 0 in
    let ps2 = if leb 2 p.len then param_at p 1 else pos 0 in
    if p.len == 0
    then s
    else if is_number 18 v
    then trigger_data_event (pair_report (codes "8;") s.rows s.cols (codes "t")) s
    else if is_number 22 v
    then push_title ps2 s
    else if is_number 23 v
    then pop_title ps2 s
    else s

-- `p` is not 0; a negative one is even here, and has no style of its own.
abbrev pub style_of_number : ℤ → CursorStyle
style_of_number (negsuc n) = block
style_of_number (pos n) =
    if n == 3
    then underline
    else if n == 4
    then underline
    else if n == 5
    then bar
    else if n == 6
    then bar
    else block

abbrev pub blinks : ℤ → Bool
blinks (pos n) = n % 2 == 1
blinks (negsuc n) = false

unfoldable pub set_cursor_style : Params → Screen → Screen
set_cursor_style p s =
    let v = if ltb 0 p.len then param_at p 0 else pos 1 in
    if is_number 0 v
    then on_dec (λ d. record d { cursor_style = none; cursor_blink_override = none }) s
    else on_dec
        (λ d. record d {
          cursor_style = some (style_of_number v);
          cursor_blink_override = some (blinks v);
        })
        s

unfoldable pub soft_reset : Screen → Screen
unfolding default_attr_data reset_core new_charset_service
soft_reset s =
    let t =
      fire scroll_bar_synced (record s { core = record (s.core) { is_cursor_hidden = false } }) in
    record (on_active
      (λ b. record b {
        scroll_top = 0;
        scroll_bottom = s.rows - 1;
        saved_state = record (b.saved_state) {
          x = 0;
          y = b.y_base;
          cur_attr_data = record (b.saved_state.cur_attr_data) { fg = 0; bg = 0 };
          charset = none;
        };
      })
      t) {
        cur_attr_data = default_attr_data;
        core = reset_core t.core;
        charset_service = new_charset_service;
      }

abbrev pub style_number : CursorStyle → ℕ
style_number block = 2
style_number underline = 4
style_number bar = 6

-- `style` and `is_blinking` are options.
unfoldable pub request_status_string : CursorStyle → Bool → Text → Screen → Screen
unfolding pair_report decimal trigger_data_event is_protected
request_status_string style is_blinking request s =
    let b = active s in
    let answer = λ (t : Text). trigger_data_event (esc ∷ t ++ esc ∷ codes "\\") s in
    if bytes_eq request (codes "\"q")
    then answer (
        codes "P1$r" ++ decimal (if is_protected s.cur_attr_data == 0 then 0 else 1) ++ codes "\"q")
    else if bytes_eq request (codes "\"p")
    then answer (codes "P1$r61;1\"p")
    else if bytes_eq request (codes "r")
    then answer (
        codes "P1$r"
        ++ decimal (b.scroll_top + 1)
        ++ codes ";"
        ++ decimal (b.scroll_bottom + 1)
        ++ codes "r")
    else if bytes_eq request (codes "m")
    then answer (codes "P1$r0m")
    else if bytes_eq request (codes " q")
    then answer (
        codes "P1$r" ++ decimal (style_number style - (if is_blinking then 1 else 0)) ++ codes " q")
    else answer (codes "P0$r")
