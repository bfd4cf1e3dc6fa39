-- ===== src/Xterm/Screen/Inv/Modes.antt =====
-- internal/xterm/inputhandler_esc.go, inputhandler_csi.go, bufferset.go: the place of the cursor after the
-- saved cursor, the modes and the other buffer.
use daemontest.Prelude.{
  ℕ, zero, suc, ◌-◌, ◌<◌, ◌≡◌, refl, subst, sym, Bool, true, false, arith, inl, inr, Bool-cases,
  ◌==◌, if◌then◌else◌, not, ◌||◌, none, some,
}
use daemontest.Prelude.Int.{ℤ, pos}
use daemontest.Xterm.Attr.{AttributeData}
use daemontest.Xterm.CircularList.{push}
use daemontest.Xterm.Buffer.{
  Buffer, with_lines, get_blank_line, push_blank, fill_viewport_rows, clear, clear_all_markers,
  setup_tab_stops, setg_level,
}
use daemontest.Xterm.Screen.{
  Screen, Event, active, on_active, fire, activate_normal_buffer, activate_alt_buffer,
  erase_attr_data, keep_erase, all_rows_refreshed, scroll_bar_synced, DecPrivateModes,
  KittyKeyboardState, sgr, sgr_pixels, default_encoding, no_tracking,
}
use daemontest.Xterm.Screen.Cursor.{restrict, restrict_cursor, restrict_cursor_to}
use daemontest.Xterm.Screen.Esc.{saved_by, save_cursor, restore_cursor, set_charsets}
use daemontest.Xterm.Screen.Modes.{
  on_dec, on_kitty, to_alt_keyboard, to_main_keyboard, shown, enter_alt, leave_alt, home, tracking,
  private_mode,
}
use daemontest.Xterm.Screen.Inv.{
  Fits, Framed, on_active-Framed, restrict-Framed, set_cursor-Framed, same-Framed, dressed-Fits,
  with_lines-Fits, moved-Fits,
}
use daemontest.Xterm.Screen.Inv.Cursor.{either-Framed, either-Fits}
use daemontest.Xterm.Screen.Inv.Rows.{keep_erase-Framed}

on_active-cols : (g : Buffer → Buffer) (s : Screen) → (on_active g s).cols ≡ s.cols
on_active-cols g s = elim (Bool-cases s.on_alt) [ inl t ↦ rw t refl | inr e ↦ rw e refl ]

-- Where the cursor was does not matter to one that is set.
restrict-jump :
    (m : ℕ) (x y : ℤ) (c d : Buffer → ℕ) (s : Screen)
    → restrict m x y (on_active (λ b. record b { x = c b; y = d b }) s) ≡ restrict m x y s
unfolding restrict
restrict-jump m x y c d s = elim (Bool-cases s.on_alt) [ inl t ↦ rw t refl | inr e ↦ rw e refl ]

jump-Framed :
    (c d : Buffer → ℕ) (s : Screen)
    → Framed s
    → Framed (restrict_cursor (on_active (λ b. record b { x = c b; y = d b }) s))
unfolding restrict_cursor restrict_cursor_to
jump-Framed c d s f =
    let a = on_active (λ b. record b { x = c b; y = d b }) s in
    subst Framed (sym (restrict-jump (a.cols - 1) (pos (active a).x) (pos (active a).y) c d s)) (
      restrict-Framed (a.cols - 1) (pos (active a).x) (pos (active a).y) s
        (omega (arith, on_active-cols (λ b. record b { x = c b; y = d b }) s)) f)

pub save_cursor-Framed : (s : Screen) → Framed s → Framed (save_cursor s)
unfolding save_cursor
save_cursor-Framed s f =
    on_active-Framed (λ b. record b { saved_state = saved_by s b }) s f (λ b i. dressed-Fits i)

-- The cursor is moved before or after the rest of the state is restored.
pub restore_cursor-Framed : (s : Screen) → Framed s → Framed (restore_cursor s)
unfolding restore_cursor
restore_cursor-Framed s f =
    let v = (active s).saved_state in
    let s1 = record s {
      cur_attr_data = record (s.cur_attr_data) { fg = v.cur_attr_data.fg; bg = v.cur_attr_data.bg };
      charset_service = setg_level v.g_level (set_charsets 0 v.charsets s.charset_service);
      core = record (s.core) {
        dec = record (s.core.dec) { origin = v.origin_mode; wraparound = v.wraparound_mode };
      };
    } in
    let j =
      jump-Framed (λ b. v.x) (λ b. v.y - b.y_base) s1 (same-Framed s s1 refl refl refl refl f) in
    elim (Bool-cases s.on_alt) [ inl t ↦ rw t (rw t at j) | inr e ↦ rw e (rw e at j) ]

clear-Fits :
    {cols rows : ℕ} (b : Buffer)
    → 0 < rows
    → Fits cols rows b
    → Fits cols rows (clear (clear_all_markers b))
unfolding clear clear_all_markers setup_tab_stops
clear-Fits b h f = record {
  cols_eq = f.cols_eq;
  rows_eq = f.rows_eq;
  top_in = omega arith;
  bottom_in = omega (arith, f.rows_eq);
  x_in = omega arith;
  y_in = h;
}

push_blank-Fits :
    {cols rows : ℕ} (n : ℕ) (attr : AttributeData) (b : Buffer)
    → Fits cols rows b
    → Fits cols rows (push_blank n attr b)
unfolding push_blank
push_blank-Fits zero attr b f = f
push_blank-Fits (suc n) attr b f =
    let r = push none (some (get_blank_line b attr false)) b.lines in
    push_blank-Fits n attr (with_lines r b) (with_lines-Fits r b f)

pub fill_viewport_rows-Fits :
    {cols rows : ℕ} (attr : AttributeData) (b : Buffer)
    → Fits cols rows b
    → Fits cols rows (fill_viewport_rows attr b)
unfolding fill_viewport_rows
fill_viewport_rows-Fits attr b f =
    either-Fits (b.lines.len == 0) (push_blank b.rows attr b) b (push_blank-Fits b.rows attr b f) f

activate_normal_buffer-Framed : (s : Screen) → Framed s → Framed (activate_normal_buffer s)
unfolding activate_normal_buffer
activate_normal_buffer-Framed s f = elim (Bool-cases s.on_alt) [
  | inl t ↦
      rw (activate_normal_buffer, t)
        (record {
          cols_some = f.cols_some;
          rows_some = f.rows_some;
          normal_fits =
              moved-Fits s.alt.x s.alt.y s.normal f.alt_fits.x_in f.alt_fits.y_in f.normal_fits;
          alt_fits = clear-Fits s.alt f.rows_some f.alt_fits;
        })
  | inr e ↦
      rw (activate_normal_buffer, e)
        (same-Framed s (record s { on_alt = false }) refl refl refl refl f)
]

activate_alt_buffer-Framed :
    (attr : AttributeData) (s : Screen) → Framed s → Framed (activate_alt_buffer attr s)
unfolding activate_alt_buffer
activate_alt_buffer-Framed attr s f = elim (Bool-cases s.on_alt) [
  | inl t ↦
      rw (activate_alt_buffer, t) (same-Framed s (record s { on_alt = true }) refl refl refl refl f)
  | inr e ↦
      rw (activate_alt_buffer, e)
        (record {
          cols_some = f.cols_some;
          rows_some = f.rows_some;
          normal_fits = f.normal_fits;
          alt_fits =
              moved-Fits s.normal.x s.normal.y (fill_viewport_rows attr s.alt) f.normal_fits.x_in
                f.normal_fits.y_in (fill_viewport_rows-Fits attr s.alt f.alt_fits);
        })
]

shown-Framed : (s : Screen) → Framed s → Framed (shown s)
shown-Framed s f = same-Framed s (shown s) refl refl refl refl f

on_kitty-Framed :
    (k : KittyKeyboardState → KittyKeyboardState) (s : Screen) → Framed s → Framed (on_kitty k s)
on_kitty-Framed k s f = same-Framed s (on_kitty k s) refl refl refl refl f

pub on_dec-Framed :
    (d : DecPrivateModes → DecPrivateModes) (s : Screen) → Framed s → Framed (on_dec d s)
on_dec-Framed d s f = same-Framed s (on_dec d s) refl refl refl refl f

pub fire-Framed : (e : Event) (s : Screen) → Framed s → Framed (fire e s)
fire-Framed e s f = same-Framed s (fire e s) refl refl refl refl f

enter_alt-Framed : (s : Screen) → Framed s → Framed (enter_alt s)
unfolding enter_alt
enter_alt-Framed s f =
    let k = on_kitty to_alt_keyboard s in
    let a = activate_alt_buffer (erase_attr_data k) (keep_erase k) in
    shown-Framed a (
      activate_alt_buffer-Framed (erase_attr_data k) (keep_erase k)
        (keep_erase-Framed k (on_kitty-Framed to_alt_keyboard s f)))

leave_alt-Framed : (restore : Bool) (s : Screen) → Framed s → Framed (leave_alt restore s)
unfolding leave_alt
leave_alt-Framed restore s f =
    let n = activate_normal_buffer (on_kitty to_main_keyboard s) in
    let fn =
      activate_normal_buffer-Framed (on_kitty to_main_keyboard s)
        (on_kitty-Framed to_main_keyboard s f) in
    shown-Framed (if restore then restore_cursor n else n)
      (either-Framed restore (restore_cursor n) n (restore_cursor-Framed n fn) fn)

home-Framed : (s : Screen) → Framed s → Framed (home s)
unfolding home
home-Framed s f = set_cursor-Framed (pos 0) (pos 0) s f

pub hidden-Framed :
    (h : Bool) (s : Screen)
    → Framed s
    → Framed (record s { core = record (s.core) { is_cursor_hidden = h } })
hidden-Framed h s f =
    same-Framed s (record s { core = record (s.core) { is_cursor_hidden = h } }) refl refl refl refl
      f

one_of : (t : Bool) {a b : Screen} → Framed a → Framed b → Framed (if t then a else b)
one_of t {a = a} {b = b} fa fb = either-Framed t a b fa fb

pub private_mode-Framed : (on : Bool) (v : ℕ) (s : Screen) → Framed s → Framed (private_mode on v s)
unfolding private_mode
private_mode-Framed on v s f =
    let dec = λ (d : DecPrivateModes → DecPrivateModes). on_dec-Framed d s f in
    let synced = on_dec (λ d. record d { synchronized_output = on }) s in
    let fsynced = dec (λ d. record d { synchronized_output = on }) in
    one_of (v == 1) (dec (λ d. record d { application_cursor_keys = on })) (
      one_of (v == 6)
        (home-Framed (on_dec (λ d. record d { origin = on }) s)
          (dec (λ d. record d { origin = on })))
        (one_of (v == 7) (dec (λ d. record d { wraparound = on })) (
          one_of (v == 25) (hidden-Framed (not on) s f) (
            one_of (v == 45) (dec (λ d. record d { reverse_wraparound = on })) (
              one_of (v == 66)
                (fire-Framed scroll_bar_synced
                  (on_dec (λ d. record d { application_keypad = on }) s)
                  (dec (λ d. record d { application_keypad = on })))
                (one_of (v == 9 || v == 1000 || v == 1002 || v == 1003)
                  (dec (λ d. record d {
                    mouse_tracking_mode = if on then tracking v else no_tracking;
                  }))
                  (one_of (v == 1004) (dec (λ d. record d { send_focus = on })) (
                    one_of (v == 1006)
                      (dec
                        (λ d. record d { mouse_encoding = if on then sgr else default_encoding }))
                      (one_of (v == 1016)
                        (dec (λ d. record d {
                          mouse_encoding = if on then sgr_pixels else default_encoding;
                        }))
                        (one_of (v == 1048)
                          (one_of on (save_cursor-Framed s f) (restore_cursor-Framed s f))
                          (one_of (v == 1049)
                            (one_of on (enter_alt-Framed (save_cursor s) (save_cursor-Framed s f))
                              (leave_alt-Framed true s f))
                            (one_of (v == 47 || v == 1047)
                              (one_of on (enter_alt-Framed s f) (leave_alt-Framed false s f))
                              (one_of (v == 2004)
                                (dec (λ d. record d { bracketed_paste_mode = on }))
                                (one_of (v == 2026)
                                  (one_of on fsynced
                                    (fire-Framed all_rows_refreshed synced fsynced))
                                  (one_of (v == 2031)
                                    (dec (λ d. record d { color_scheme_updates = on }))
                                    (one_of (v == 9001)
                                      (dec (λ d. record d { win32_input_mode = on }))
                                      f))))))))))))))))
