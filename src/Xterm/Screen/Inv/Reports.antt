-- ===== src/Xterm/Screen/Inv/Reports.antt =====
-- internal/xterm/inputhandler_esc.go, inputhandler_csi.go: the place of the cursor after the other handlers.
use daemontest.Prelude.{
  ℕ, zero, suc, ◌+◌, ◌-◌, refl, Bool, true, [], ◌∷◌, ◌++◌, arith, inl, inr, Bool-cases, ltb, leb,
  ◌==◌, if◌then◌else◌, ◌&&◌, ◌||◌, length, none,
}
use daemontest.Prelude.Bytes.{codes}
use daemontest.Prelude.Int.{ℤ, pos, negsuc, ltb_ℤ}
use daemontest.Xterm.Cell.{CellData, Text}
use daemontest.Xterm.Params.{Params}
use daemontest.Xterm.Buffer.{Buffer}
use daemontest.Xterm.Screen.{
  Screen, active, on_active, fire, trigger_data_event, mark_all_dirty, title_changed,
}
use daemontest.Xterm.Screen.Cursor.{set_cursor, param_at, is_number}
use daemontest.Xterm.Screen.Esc.{
  fill_rows, letter_e, screen_alignment_pattern, tab_set, keypad_mode, full_reset, select_g_level,
  select_default_charset,
}
use daemontest.Xterm.Screen.Modes.{
  ansi_mode, private_mode_of, each_param, set_mode, set_mode_private,
}
use daemontest.Xterm.Screen.Keyboard.{
  kitty_keyboard_set, kitty_keyboard_push, kitty_keyboard_pop, push_title, pop_title, but_last,
  last_text,
}
use daemontest.Xterm.Screen.Reports.{
  esc, nothing_asked, send_device_attributes_primary, send_device_attributes_secondary,
  send_xt_version, pair_report, decimal, mode_report, device_status, device_status_private,
  request_mode, kitty_keyboard_query, window_options, set_cursor_style, soft_reset,
}
use daemontest.Xterm.Screen.Inv.{
  Fits, Framed, on_active-Framed, set_cursor-Framed, same-Framed, dressed-Fits,
}
use daemontest.Xterm.Screen.Inv.Cursor.{either-Framed, tabs-Framed, margins-Fits}
use daemontest.Xterm.Screen.Inv.Rows.{mark_range_dirty-Framed}
use daemontest.Xterm.Screen.Inv.Modes.{private_mode-Framed, on_dec-Framed, fire-Framed}

each_param-Framed :
    (h : ℤ → Screen → Screen) (i n : ℕ) (p : Params) (s : Screen)
    → ((v : ℤ) (t : Screen) → Framed t → Framed (h v t))
    → Framed s
    → Framed (each_param h i n p s)
unfolding each_param
each_param-Framed h i zero p s k f = f
each_param-Framed h i (suc n) p s k f =
    each_param-Framed h (i + 1) n p (h (param_at p i) s) k (k (param_at p i) s f)

ansi_mode-Framed : (on : Bool) (v : ℤ) (s : Screen) → Framed s → Framed (ansi_mode on v s)
unfolding ansi_mode
ansi_mode-Framed on v s f =
    let insert = record s { core = record (s.core) { insert_mode = on } } in
    let eol = record s { convert_eol = on } in
    either-Framed (is_number 4 v) insert (if is_number 20 v then eol else s)
      (same-Framed s insert refl refl refl refl f)
      (either-Framed (is_number 20 v) eol s (same-Framed s eol refl refl refl refl f) f)

private_mode_of-Framed :
    (on : Bool) (v : ℤ) (s : Screen) → Framed s → Framed (private_mode_of on v s)
unfolding private_mode_of
private_mode_of-Framed on (pos v) s f = private_mode-Framed on v s f
private_mode_of-Framed on (negsuc n) s f = f

pub set_mode-Framed : (on : Bool) (p : Params) (s : Screen) → Framed s → Framed (set_mode on p s)
unfolding set_mode
set_mode-Framed on p s f = each_param-Framed (ansi_mode on) 0 p.len p s (ansi_mode-Framed on) f

pub set_mode_private-Framed :
    (on : Bool) (p : Params) (s : Screen) → Framed s → Framed (set_mode_private on p s)
unfolding set_mode_private
set_mode_private-Framed on p s f =
    each_param-Framed (private_mode_of on) 0 p.len p s (private_mode_of-Framed on) f

pub tab_set-Framed : (s : Screen) → Framed s → Framed (tab_set s)
unfolding tab_set
tab_set-Framed s f = tabs-Framed (λ b j. if j == b.x then true else b.tabs j) s f

pub keypad_mode-Framed : (on : Bool) (s : Screen) → Framed s → Framed (keypad_mode on s)
unfolding keypad_mode
keypad_mode-Framed on s f = same-Framed s (keypad_mode on s) refl refl refl refl f

pub full_reset-Framed : (s : Screen) → Framed s → Framed (full_reset s)
unfolding full_reset
full_reset-Framed s f = same-Framed s (full_reset s) refl refl refl refl f

pub select_g_level-Framed : (level : ℕ) (s : Screen) → Framed s → Framed (select_g_level level s)
unfolding select_g_level
select_g_level-Framed level s f = same-Framed s (select_g_level level s) refl refl refl refl f

pub select_default_charset-Framed : (s : Screen) → Framed s → Framed (select_default_charset s)
unfolding select_default_charset
select_default_charset-Framed s f = same-Framed s (select_default_charset s) refl refl refl refl f

fill_rows-Fits :
    {cols rows : ℕ} (i n : ℕ) (cell : CellData) (b : Buffer)
    → Fits cols rows b
    → Fits cols rows (fill_rows i n cell b)
unfolding fill_rows
fill_rows-Fits i zero cell b f = f
fill_rows-Fits i (suc n) cell b f = fill_rows-Fits (i + 1) n cell _ (dressed-Fits f)

pub screen_alignment_pattern-Framed : (s : Screen) → Framed s → Framed (screen_alignment_pattern s)
unfolding screen_alignment_pattern mark_all_dirty
screen_alignment_pattern-Framed s f =
    let h = set_cursor (pos 0) (pos 0) s in
    let e = letter_e s.cur_attr_data in
    let t = on_active (λ b. fill_rows (b.y_base + b.y) s.rows e b) h in
    set_cursor-Framed (pos 0) (pos 0) (mark_all_dirty t) (
      mark_range_dirty-Framed 0 (t.rows - 1) t (
        on_active-Framed (λ b. fill_rows (b.y_base + b.y) s.rows e b) h
          (set_cursor-Framed (pos 0) (pos 0) s f)
          (λ b i. fill_rows-Fits (b.y_base + b.y) s.rows e b i)))

pub soft_reset-Framed : (s : Screen) → Framed s → Framed (soft_reset s)
unfolding soft_reset
soft_reset-Framed s f = elim (Bool-cases s.on_alt) [
  | inl t ↦
      rw (soft_reset, t)
        (record {
          cols_some = f.cols_some;
          rows_some = f.rows_some;
          normal_fits = f.normal_fits;
          alt_fits = dressed-Fits (
              margins-Fits 0 (s.rows - 1) s.alt (omega arith) (omega (arith, f.rows_some))
                f.alt_fits);
        })
  | inr e ↦
      rw (soft_reset, e)
        (record {
          cols_some = f.cols_some;
          rows_some = f.rows_some;
          normal_fits = dressed-Fits (
              margins-Fits 0 (s.rows - 1) s.normal (omega arith) (omega (arith, f.rows_some))
                f.normal_fits);
          alt_fits = f.alt_fits;
        })
]

-- What is sent takes no part.
trigger_data_event-Framed :
    (text : Text) (s : Screen) → Framed s → Framed (trigger_data_event text s)
unfolding trigger_data_event
trigger_data_event-Framed text s f =
    let t = record s { sent = s.sent ++ text ∷ [] } in
    either-Framed s.disable_stdin s t f (same-Framed s t refl refl refl refl f)

nothing_asked-Framed :
    (p : Params) (s : Screen) (text : Text) → Framed s → Framed (nothing_asked p s text)
unfolding nothing_asked
nothing_asked-Framed p s text f =
    either-Framed (ltb_ℤ (pos 0) (param_at p 0)) s (trigger_data_event text s) f
      (trigger_data_event-Framed text s f)

pub send_device_attributes_primary-Framed :
    (p : Params) (s : Screen) → Framed s → Framed (send_device_attributes_primary p s)
unfolding send_device_attributes_primary
send_device_attributes_primary-Framed p s f = nothing_asked-Framed p s (esc ∷ codes "[?1;2c") f

pub send_device_attributes_secondary-Framed :
    (p : Params) (s : Screen) → Framed s → Framed (send_device_attributes_secondary p s)
unfolding send_device_attributes_secondary
send_device_attributes_secondary-Framed p s f =
    nothing_asked-Framed p s (esc ∷ codes "[>0;276;0c") f

pub send_xt_version-Framed : (p : Params) (s : Screen) → Framed s → Framed (send_xt_version p s)
unfolding send_xt_version
send_xt_version-Framed p s f =
    nothing_asked-Framed p s (esc ∷ codes "P>|xterm-go(0.1.0)" ++ esc ∷ codes "\\") f

pub device_status-Framed : (p : Params) (s : Screen) → Framed s → Framed (device_status p s)
unfolding device_status
device_status-Framed p s f =
    let ok = esc ∷ codes "[0n" in
    let place = pair_report [] ((active s).y + 1) ((active s).x + 1) (codes "R") in
    either-Framed (is_number 5 (param_at p 0)) (trigger_data_event ok s)
      (if is_number 6 (param_at p 0) then trigger_data_event place s else s)
      (trigger_data_event-Framed ok s f)
      (either-Framed (is_number 6 (param_at p 0)) (trigger_data_event place s) s
        (trigger_data_event-Framed place s f) f)

pub device_status_private-Framed :
    (p : Params) (s : Screen) → Framed s → Framed (device_status_private p s)
unfolding device_status_private
device_status_private-Framed p s f =
    let place = pair_report (codes "?") ((active s).y + 1) ((active s).x + 1) (codes "R") in
    either-Framed (is_number 6 (param_at p 0)) (trigger_data_event place s) s
      (trigger_data_event-Framed place s f) f

pub request_mode-Framed :
    (is_private : Bool) (p : Params) (s : Screen) → Framed s → Framed (request_mode is_private p s)
unfolding request_mode
request_mode-Framed is_private p s f =
    trigger_data_event-Framed (mode_report is_private (param_at p 0) s) s f

pub kitty_keyboard_query-Framed : (s : Screen) → Framed s → Framed (kitty_keyboard_query s)
unfolding kitty_keyboard_query
kitty_keyboard_query-Framed s f =
    trigger_data_event-Framed (esc ∷ codes "[?" ++ decimal s.core.kitty.flags ++ codes "u") s f

push_title-Framed : (v : ℤ) (s : Screen) → Framed s → Framed (push_title v s)
unfolding push_title
push_title-Framed v s f = same-Framed s (push_title v s) refl refl refl refl f

pop_title-Framed : (v : ℤ) (s : Screen) → Framed s → Framed (pop_title v s)
unfolding pop_title
pop_title-Framed v s f =
    let title = last_text [] s.window_title_stack in
    let popped = record s {
      window_title_stack = but_last s.window_title_stack;
      window_title = title;
    } in
    let with_title = (is_number 0 v || is_number 2 v) && ltb 0 (length s.window_title_stack) in
    let fp =
      fire-Framed (title_changed title) popped (same-Framed s popped refl refl refl refl f) in
    let t = if with_title then fire (title_changed title) popped else s in
    let ft = either-Framed with_title (fire (title_changed title) popped) s fp f in
    let u = record t { icon_name_stack = but_last t.icon_name_stack } in
    either-Framed (is_number 0 v || is_number 1 v) u t (same-Framed t u refl refl refl refl ft) ft

pub window_options-Framed : (p : Params) (s : Screen) → Framed s → Framed (window_options p s)
unfolding window_options
window_options-Framed p s f =
    let v = param_at p 0 in
    let w = if leb 2 p.len then param_at p 1 else pos 0 in
    let size = pair_report (codes "8;") s.rows s.cols (codes "t") in
    let t22 =
      if is_number 22 v then push_title w s else if is_number 23 v then pop_title w s else s in
    either-Framed (p.len == 0) s (if is_number 18 v then trigger_data_event size s else t22) f (
      either-Framed (is_number 18 v) (trigger_data_event size s) t22
        (trigger_data_event-Framed size s f)
        (either-Framed (is_number 22 v) (push_title w s)
          (if is_number 23 v then pop_title w s else s) (push_title-Framed w s f)
          (either-Framed (is_number 23 v) (pop_title w s) s (pop_title-Framed w s f) f)))

pub set_cursor_style-Framed : (p : Params) (s : Screen) → Framed s → Framed (set_cursor_style p s)
unfolding set_cursor_style
set_cursor_style-Framed p s f =
    elim (Bool-cases (is_number 0 (if ltb 0 p.len then param_at p 0 else pos 1))) [
      | inl t ↦
          rw (set_cursor_style, t)
            (on_dec-Framed (λ d. record d { cursor_style = none; cursor_blink_override = none }) s
              f)
      | inr e ↦ rw (set_cursor_style, e) (same-Framed s _ refl refl refl refl f)
    ]

pub kitty_keyboard_set-Framed :
    (p : Params) (s : Screen) → Framed s → Framed (kitty_keyboard_set p s)
unfolding kitty_keyboard_set
kitty_keyboard_set-Framed p s f = same-Framed s (kitty_keyboard_set p s) refl refl refl refl f

pub kitty_keyboard_push-Framed :
    (p : Params) (s : Screen) → Framed s → Framed (kitty_keyboard_push p s)
unfolding kitty_keyboard_push
kitty_keyboard_push-Framed p s f = same-Framed s (kitty_keyboard_push p s) refl refl refl refl f

pub kitty_keyboard_pop-Framed :
    (p : Params) (s : Screen) → Framed s → Framed (kitty_keyboard_pop p s)
unfolding kitty_keyboard_pop
kitty_keyboard_pop-Framed p s f = same-Framed s (kitty_keyboard_pop p s) refl refl refl refl f
