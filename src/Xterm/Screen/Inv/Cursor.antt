-- ===== src/Xterm/Screen/Inv/Cursor.antt =====
-- internal/xterm/inputhandler_csi.go, inputhandler_c0.go: the place of the cursor after its commands.
use daemontest.Prelude.{
  ℕ, zero, suc, ◌+◌, ◌-◌, ◌≤◌, ◌<◌, ◌≡◌, refl, Bool, true, false, arith, inl, inr, Bool-cases, ltb,
  leb, ◌==◌, if◌then◌else◌, not, ◌&&◌, Option-cases,
}
use daemontest.Prelude.Int.{pos, ltb_ℤ}
use daemontest.Xterm.Params.{Params}
use daemontest.Xterm.BufferLine.{has_width, has_content}
use daemontest.Xterm.Buffer.{Buffer, next_stop, prev_stop, line_at}
use daemontest.Xterm.Screen.{Screen, active, on_active, fire, tabbed, lesser}
use daemontest.Xterm.Screen.Cursor.{
  count_of, param_at, at_least_one, minus, is_number, move_cursor, restrict, restrict_cursor,
  restrict_cursor_to, to_column_0, cursor_up, cursor_down, cursor_forward, cursor_backward,
  cursor_next_line, cursor_preceding_line, cursor_char_absolute, cursor_position, line_pos_absolute,
  v_position_relative, next_stops, prev_stops, cursor_forward_tab, cursor_backward_tab, tab_clear,
  set_scroll_region, unwrap_line, unwrap_back, wrap_back, step_back, backspace, one_left, tab,
}
use daemontest.Xterm.Screen.Inv.{
  Fits, Framed, moved-Fits, on_active-Framed, active-Fits, restrict_cursor-Framed,
  restrict_cursor_to-Framed, set_cursor-Framed, move_cursor-Framed, same-Framed, dressed-Fits,
}

-- A change of column alone.
pub column-Fits :
    {cols rows x : ℕ} {b : Buffer}
    → x ≤ cols
    → Fits cols rows b
    → Fits cols rows (record b { x = x })
column-Fits {x = x} {b = b} h f = moved-Fits x b.y b h f.y_in f

pub to_column_0-Framed : (s : Screen) → Framed s → Framed (to_column_0 s)
to_column_0-Framed s f =
    on_active-Framed (λ c. record c { x = 0 }) s f (λ b i. column-Fits (omega arith) i)

pub next_stop-in : (b : Buffer) (x : ℕ) → next_stop b x ≤ b.cols
unfolding next_stop
next_stop-in b x = ground arith

pub prev_stop-in : (b : Buffer) (x : ℕ) → prev_stop b x ≤ b.cols
unfolding prev_stop
prev_stop-in b x = ground arith

pub next_stops-Fits :
    (n : ℕ) {cols rows : ℕ} (b : Buffer) → Fits cols rows b → Fits cols rows (next_stops n b)
unfolding next_stops
next_stops-Fits zero b f = f
next_stops-Fits (suc n) b f =
    next_stops-Fits n (record b { x = next_stop b b.x })
      (column-Fits (omega (arith, next_stop-in b b.x, f.cols_eq)) f)

pub prev_stops-Fits :
    (n : ℕ) {cols rows : ℕ} (b : Buffer) → Fits cols rows b → Fits cols rows (prev_stops n b)
unfolding prev_stops
prev_stops-Fits zero b f = f
prev_stops-Fits (suc n) b f =
    prev_stops-Fits n (record b { x = prev_stop b b.x })
      (column-Fits (omega (arith, prev_stop-in b b.x, f.cols_eq)) f)

-- Either branch of a test.
pub either-Framed : (t : Bool) (a b : Screen) → Framed a → Framed b → Framed (if t then a else b)
either-Framed true a b fa fb = fa
either-Framed false a b fa fb = fb

pub cursor_up-Framed : (p : Params) (s : Screen) → Framed s → Framed (cursor_up p s)
unfolding cursor_up
cursor_up-Framed p s f =
    let n = lesser ((active s).y - (active s).scroll_top) (count_of p) in
    either-Framed (leb (active s).scroll_top (active s).y) (move_cursor (pos 0) (minus n) s)
      (move_cursor (pos 0) (minus (count_of p)) s) (move_cursor-Framed (pos 0) (minus n) s f)
      (move_cursor-Framed (pos 0) (minus (count_of p)) s f)

pub cursor_down-Framed : (p : Params) (s : Screen) → Framed s → Framed (cursor_down p s)
unfolding cursor_down
cursor_down-Framed p s f =
    let n = lesser ((active s).scroll_bottom - (active s).y) (count_of p) in
    either-Framed (leb (active s).y (active s).scroll_bottom) (move_cursor (pos 0) (pos n) s)
      (move_cursor (pos 0) (pos (count_of p)) s) (move_cursor-Framed (pos 0) (pos n) s f)
      (move_cursor-Framed (pos 0) (pos (count_of p)) s f)

pub cursor_forward-Framed : (p : Params) (s : Screen) → Framed s → Framed (cursor_forward p s)
unfolding cursor_forward
cursor_forward-Framed p s f = move_cursor-Framed (pos (count_of p)) (pos 0) s f

pub cursor_backward-Framed : (p : Params) (s : Screen) → Framed s → Framed (cursor_backward p s)
unfolding cursor_backward
cursor_backward-Framed p s f = move_cursor-Framed (minus (count_of p)) (pos 0) s f

pub cursor_next_line-Framed : (p : Params) (s : Screen) → Framed s → Framed (cursor_next_line p s)
unfolding cursor_next_line
cursor_next_line-Framed p s f = to_column_0-Framed (cursor_down p s) (cursor_down-Framed p s f)

pub cursor_preceding_line-Framed :
    (p : Params) (s : Screen) → Framed s → Framed (cursor_preceding_line p s)
unfolding cursor_preceding_line
cursor_preceding_line-Framed p s f = to_column_0-Framed (cursor_up p s) (cursor_up-Framed p s f)

pub cursor_char_absolute-Framed :
    (p : Params) (s : Screen) → Framed s → Framed (cursor_char_absolute p s)
unfolding cursor_char_absolute
cursor_char_absolute-Framed p s f = set_cursor-Framed (pos (count_of p - 1)) (pos (active s).y) s f

pub cursor_position-Framed : (p : Params) (s : Screen) → Framed s → Framed (cursor_position p s)
unfolding cursor_position
cursor_position-Framed p s f =
    set_cursor-Framed (pos (if leb 2 p.len then at_least_one (param_at p 1) - 1 else 0))
      (pos (count_of p - 1)) s f

pub line_pos_absolute-Framed : (p : Params) (s : Screen) → Framed s → Framed (line_pos_absolute p s)
unfolding line_pos_absolute
line_pos_absolute-Framed p s f = set_cursor-Framed (pos (active s).x) (pos (count_of p - 1)) s f

pub v_position_relative-Framed :
    (p : Params) (s : Screen) → Framed s → Framed (v_position_relative p s)
unfolding v_position_relative
v_position_relative-Framed p s f = move_cursor-Framed (pos 0) (pos (count_of p)) s f

pub cursor_forward_tab-Framed :
    (p : Params) (s : Screen) → Framed s → Framed (cursor_forward_tab p s)
unfolding cursor_forward_tab
cursor_forward_tab-Framed p s f =
    either-Framed (leb s.cols (active s).x) s (on_active (next_stops (count_of p)) s) f
      (on_active-Framed (next_stops (count_of p)) s f (next_stops-Fits (count_of p)))

pub cursor_backward_tab-Framed :
    (p : Params) (s : Screen) → Framed s → Framed (cursor_backward_tab p s)
unfolding cursor_backward_tab
cursor_backward_tab-Framed p s f =
    either-Framed (leb s.cols (active s).x) s (on_active (prev_stops (count_of p)) s) f
      (on_active-Framed (prev_stops (count_of p)) s f (prev_stops-Fits (count_of p)))

-- Tab stops take no part.
pub tabs-Framed :
    (t : Buffer → ℕ → Bool) (s : Screen)
    → Framed s
    → Framed (on_active (λ b. record b { tabs = t b }) s)
tabs-Framed t s f = on_active-Framed (λ b. record b { tabs = t b }) s f (λ b i. dressed-Fits i)

pub tab_clear-Framed : (p : Params) (s : Screen) → Framed s → Framed (tab_clear p s)
unfolding tab_clear
tab_clear-Framed p s f =
    let one = λ (b : Buffer) (j : ℕ). if j == b.x then false else b.tabs j in
    let all = λ (b : Buffer) (j : ℕ). false in
    either-Framed (is_number 0 (param_at p 0)) (on_active (λ b. record b { tabs = one b }) s)
      (if is_number 3 (param_at p 0) then on_active (λ b. record b { tabs = all b }) s else s)
      (tabs-Framed one s f)
      (either-Framed (is_number 3 (param_at p 0)) (on_active (λ b. record b { tabs = all b }) s) s
        (tabs-Framed all s f) f)

-- Margins that do not cross.
pub margins-Fits :
    {cols rows : ℕ} (top bottom : ℕ) (b : Buffer)
    → top ≤ bottom
    → bottom < rows
    → Fits cols rows b
    → Fits cols rows (record b { scroll_top = top; scroll_bottom = bottom })
margins-Fits top bottom b ht hb f = record {
  cols_eq = f.cols_eq;
  rows_eq = f.rows_eq;
  top_in = ht;
  bottom_in = hb;
  x_in = f.x_in;
  y_in = f.y_in;
}

margin_below : Params → Screen → ℕ
margin_below p s =
    let given = at_least_one (param_at p 1) in
    if leb 2 p.len && ltb_ℤ (pos 0) (param_at p 1) && leb given s.rows then given else s.rows

margin_below-in :
    (p : Params) (s : Screen) → 0 < s.rows → (0 < margin_below p s) × (margin_below p s ≤ s.rows)
unfolding margin_below
margin_below-in p s h = ground arith

pub set_scroll_region-Framed : (p : Params) (s : Screen) → Framed s → Framed (set_scroll_region p s)
unfolding set_scroll_region margin_below
set_scroll_region-Framed p s f =
    let i = margin_below-in p s f.rows_some in
    elim (Bool-cases (ltb (count_of p) (margin_below p s))) [
      | inl t ↦ rw t (
          set_cursor-Framed (pos 0) (pos 0)
            (on_active
              (λ b. record b { scroll_top = count_of p - 1; scroll_bottom = margin_below p s - 1 })
              s)
            (on_active-Framed
              (λ b. record b { scroll_top = count_of p - 1; scroll_bottom = margin_below p s - 1 })
              s f
              (λ b k.
                margins-Fits (count_of p - 1) (margin_below p s - 1) b (ground (arith, t))
                  (omega (arith, i.0, i.1)) k)))
      | inr e ↦ rw e f
    ]

pub tab-Framed : (s : Screen) → Framed s → Framed (tab s)
unfolding tab
tab-Framed s f =
    let to = next_stop (active s) (active s).x in
    let t = on_active (λ c. record c { x = to }) s in
    let moved =
      on_active-Framed (λ c. record c { x = to }) s f
        (λ b i.
          column-Fits
            (omega (arith, next_stop-in (active s) (active s).x, (active-Fits s f).cols_eq)) i) in
    either-Framed (leb s.cols (active s).x) s
      (if s.screen_reader_mode then fire (tabbed (to - (active s).x)) t else t) f
      (either-Framed s.screen_reader_mode (fire (tabbed (to - (active s).x)) t) t
        (same-Framed t (fire (tabbed (to - (active s).x)) t) refl refl refl refl moved) moved)

pub unwrap_line-Fits :
    {cols rows : ℕ} (i : ℕ) (b : Buffer) → Fits cols rows b → Fits cols rows (unwrap_line i b)
unfolding unwrap_line
unwrap_line-Fits i b f = dressed-Fits f

pub either-Fits :
    {cols rows : ℕ} (t : Bool) (a b : Buffer)
    → Fits cols rows a
    → Fits cols rows b
    → Fits cols rows (if t then a else b)
either-Fits true a b fa fb = fa
either-Fits false a b fa fb = fb

unwrap_back-Fits :
    {cols rows : ℕ} (w : ℕ) (b : Buffer)
    → w ≤ cols
    → Fits cols rows b
    → Fits cols rows (unwrap_back w b)
unfolding unwrap_back
unwrap_back-Fits w b h f =
    let c = record (unwrap_line (b.y_base + b.y) b) { y = b.y - 1; x = w - 1 } in
    let i =
      moved-Fits (w - 1) (b.y - 1) (unwrap_line (b.y_base + b.y) b) (omega arith)
        (omega (arith, f.y_in)) (unwrap_line-Fits (b.y_base + b.y) b f) in
    elim (Option-cases (line_at c (c.y_base + c.y))) [
      | inl e ↦ rw (unwrap_back, e) i
      | inr (l, e) ↦
          rw (unwrap_back, e)
            (either-Fits (not (has_width l c.x == 0) && has_content l c.x == 0)
              (record c { x = c.x - 1 }) c (column-Fits (omega arith) i) i)
    ]

wrap_back-Fits :
    {cols rows : ℕ} (w : ℕ) (b : Buffer)
    → w ≤ cols
    → Fits cols rows b
    → Fits cols rows (wrap_back w b)
unfolding wrap_back
wrap_back-Fits w b h f = elim (Option-cases (line_at b (b.y_base + b.y))) [
  | inl e ↦ rw (wrap_back, e) f
  | inr (l, e) ↦
      rw (wrap_back, e) (either-Fits l.is_wrapped (unwrap_back w b) b (unwrap_back-Fits w b h f) f)
]

step_back-Fits :
    {cols rows : ℕ} (w : ℕ) (b : Buffer)
    → w ≤ cols
    → Fits cols rows b
    → Fits cols rows (step_back w b)
unfolding step_back
step_back-Fits w b h f =
    either-Fits (ltb 0 b.x) (record b { x = b.x - 1 })
      (if ltb b.scroll_top b.y && leb b.y b.scroll_bottom then wrap_back w b else b)
      (column-Fits (omega (arith, f.x_in)) f)
      (either-Fits (ltb b.scroll_top b.y && leb b.y b.scroll_bottom) (wrap_back w b) b
        (wrap_back-Fits w b h f) f)

to_edge-cols : (s : Screen) → (restrict_cursor_to s.cols s).cols ≡ s.cols
unfolding restrict_cursor_to restrict
to_edge-cols s = elim (Bool-cases s.on_alt) [ inl t ↦ rw t refl | inr e ↦ rw e refl ]

pub backspace-Framed : (s : Screen) → Framed s → Framed (backspace s)
unfolding backspace
backspace-Framed s f =
    let to_edge = restrict_cursor_to-Framed s.cols s (omega arith) f in
    let r = restrict_cursor s in
    let e = restrict_cursor_to s.cols s in
    let stepped =
      on_active-Framed (step_back s.cols) e to_edge
        (λ b i. step_back-Fits s.cols b (omega (arith, to_edge-cols s)) i) in
    either-Framed (not s.core.dec.reverse_wraparound) (on_active one_left r)
      (restrict_cursor (on_active (step_back s.cols) e))
      (on_active-Framed one_left r (restrict_cursor-Framed s f) (λ b i.
        either-Fits (ltb 0 b.x) (record b { x = b.x - 1 }) b (column-Fits (omega (arith, i.x_in)) i)
          i))
      (restrict_cursor-Framed (on_active (step_back s.cols) e) stepped)
