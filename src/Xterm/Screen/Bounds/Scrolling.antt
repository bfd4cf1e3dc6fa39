-- ===== src/Xterm/Screen/Bounds/Scrolling.antt =====
-- internal/xterm/bufferservice.go, inputhandler.go: the place of the cursor after handlers that may scroll.
use Prim.{tt}
use daemontest.Prelude.{
  ℕ, ◌+◌, ◌-◌, refl, Bool, true, false, Option, none, some, arith, inl, inr, Bool-cases,
  Option-cases, leb, ◌==◌, if◌then◌else◌,
}
use daemontest.Xterm.Attr.{AttributeData}
use daemontest.Prelude.Int.{pos}
use daemontest.Xterm.BufferLine.{BufferLine}
use daemontest.Xterm.CircularList.{put, shift_elements}
use daemontest.Xterm.Buffer.{Buffer, get_blank_line, with_lines}
use daemontest.Xterm.Screen.{
  Screen, scrolled, line_fed, active, on_active, fire, mark_dirty, mark_range_dirty,
  erase_attr_data, keep_erase,
}
use daemontest.Xterm.Screen.Cursor.{
  restrict_cursor, to_column_0, off_the_edge, row_below, line_feed,
}
use daemontest.Xterm.Screen.Scroll.{
  next_blank_line, scroll_top_lines, scroll_region_lines, scroll_position, follow, scroll_buffer,
  put_active, scroll,
}
use daemontest.Xterm.Screen.Esc.{index, scroll_back_lines, reverse_index, next_line}
use daemontest.Xterm.Screen.Inv.{
  Fits, Framed, active-Fits, on_active-Framed, moved-Fits, restrict_cursor-Framed, same-Framed,
  dressed-Fits, with_lines-Fits,
}
use daemontest.Xterm.Screen.Inv.Cursor.{
  column-Fits, to_column_0-Framed, either-Fits, either-Framed, unwrap_line-Fits,
}
use daemontest.Xterm.Screen.Inv.Rows.{mark_dirty-Framed, mark_range_dirty-Framed, keep_erase-Framed}
use daemontest.Xterm.Screen.Inv.Modes.{fire-Framed}

-- If there is a screen, its cursor and its margins are in place.
abbrev pub Within : Option Screen → Type 0
Within none = Unit
Within (some t) = Framed t

follow-Fits :
    (u : Bool) {cols rows : ℕ} (b : Buffer) → Fits cols rows b → Fits cols rows (follow u b)
follow-Fits true b f = f
follow-Fits false b f = dressed-Fits f

scroll_position-Fits :
    (full u : Bool) {cols rows : ℕ} (b : Buffer)
    → Fits cols rows b
    → Fits cols rows (scroll_position full u b)
scroll_position-Fits true true b f = dressed-Fits f
scroll_position-Fits true false b f = f
scroll_position-Fits false true b f = dressed-Fits f
scroll_position-Fits false false b f = dressed-Fits f

-- If there is a buffer, it fits.
abbrev FitsIn : ℕ → ℕ → Option Buffer → Type 0
FitsIn cols rows none = Unit
FitsIn cols rows (some b) = Fits cols rows b

scroll_buffer-FitsIn :
    (line : BufferLine) (u : Bool) {cols rows : ℕ} (b : Buffer)
    → Fits cols rows b
    → FitsIn cols rows (scroll_buffer line u b)
unfolding scroll_buffer
scroll_buffer-FitsIn line u b f = elim (Bool-cases (b.scroll_top == 0)) [
  | inl t ↦ elim (Option-cases (scroll_top_lines line b)) [
    | inl e ↦ rw (t, e) tt
    | inr (r, e) ↦
        rw (t, e)
          (follow-Fits u _
            (scroll_position-Fits (b.lines.len == b.lines.max_len) u _ (with_lines-Fits r b f)))
  ]
  | inr n ↦ elim (Option-cases (scroll_region_lines line b)) [
    | inl e ↦ rw (n, e) tt
    | inr (r, e) ↦ rw (n, e) (follow-Fits u _ (with_lines-Fits r b f))
  ]
]

put_active-Framed :
    (b : Buffer) (s : Screen) → Framed s → Fits s.cols s.rows b → Framed (put_active b s)
put_active-Framed b s f h = on_active-Framed (λ _. b) s f (λ _ _. h)

FitsIn-elim :
    (g : Buffer → Screen) {cols rows : ℕ} (o : Option Buffer)
    → ((b : Buffer) → Fits cols rows b → Framed (g b))
    → FitsIn cols rows o
    → Within (elim o as (λ _. Option Screen) [ none ↦ none | some b ↦ some (g b) ])
FitsIn-elim g none h f = tt
FitsIn-elim g (some b) h f = h b f

pub scroll-Within :
    (attr : AttributeData) (wrapped : Bool) (s : Screen) → Framed s → Within (scroll attr wrapped s)
unfolding scroll
scroll-Within attr wrapped s f =
    let line = next_blank_line attr wrapped s in
    FitsIn-elim
      (λ b. fire (scrolled b.y_disp) (record (put_active b s) { cached_blank_line = some line }))
      (scroll_buffer line s.is_user_scrolling (active s))
      (λ b i.
        let t : Screen = record (put_active b s) { cached_blank_line = some line } in
        fire-Framed (scrolled b.y_disp) t
          (same-Framed (put_active b s) t refl refl refl refl (put_active-Framed b s f i)))
      (scroll_buffer-FitsIn line s.is_user_scrolling (active s) (active-Fits s f))

row_below-Framed :
    (clear : Bool) (s : Screen) → Framed s → Framed (on_active (row_below s.rows clear) s)
unfolding row_below
row_below-Framed clear s f = on_active-Framed (row_below s.rows clear) s f (λ b i.
    elim (Bool-cases (leb s.rows (b.y + 1))) [
      | inl t ↦ rw t (moved-Fits b.x (s.rows - 1) b i.x_in (omega (arith, f.rows_some)) i)
      | inr e ↦
          let moved = moved-Fits b.x (b.y + 1) b i.x_in (ground (arith, e)) i in
          rw e (either-Fits clear _ _ (unwrap_line-Fits (b.y_base + (b.y + 1)) _ moved) moved)
    ])

-- What is done to a screen, if there is one.
Within-elim :
    (g : Screen → Screen) (o : Option Screen)
    → ((t : Screen) → Framed t → Framed (g t))
    → Within o
    → Within (elim o as (λ _. Option Screen) [ none ↦ none | some t ↦ some (g t) ])
Within-elim g none h f = tt
Within-elim g (some t) h f = h t f

if_else-Within :
    (c : Bool) (o p : Option Screen) → Within o → Within p → Within (if c then o else p)
if_else-Within true o p h k = h
if_else-Within false o p h k = k

off_the_edge-Framed : (s : Screen) → Framed s → Framed (on_active (off_the_edge s.cols) s)
off_the_edge-Framed s f = on_active-Framed (off_the_edge s.cols) s f (λ b i.
    either-Fits (leb s.cols b.x) (record b { x = b.x - 1 }) b
      (column-Fits (omega (arith, i.x_in)) i) i)

pub line_feed-Within : (s : Screen) → Framed s → Within (line_feed s)
unfolding line_feed
line_feed-Within s f =
    let s1 = mark_dirty (active s).y s in
    let f1 = mark_dirty-Framed (active s).y s f in
    let s2 = if s.convert_eol then to_column_0 s1 else s1 in
    let f2 = either-Framed s.convert_eol (to_column_0 s1) s1 (to_column_0-Framed s1 f1) f1 in
    let last = λ (t : Screen).
      let t1 = on_active (off_the_edge t.cols) t in fire line_fed (mark_dirty (active t1).y t1) in
    let done = λ (t : Screen) (g : Framed t).
      let t1 = on_active (off_the_edge t.cols) t in
      fire-Framed line_fed (mark_dirty (active t1).y t1)
        (mark_dirty-Framed (active t1).y t1 (off_the_edge-Framed t g)) in
    if_else-Within ((active s2).y == (active s2).scroll_bottom) _ _
      (Within-elim last (scroll (erase_attr_data s2) false (keep_erase s2)) done
        (scroll-Within (erase_attr_data s2) false (keep_erase s2) (keep_erase-Framed s2 f2)))
      (done (on_active (row_below s2.rows true) s2) (row_below-Framed true s2 f2))

pub index-Within : (s : Screen) → Framed s → Within (index s)
unfolding index
index-Within s f =
    let r = restrict_cursor s in
    let g = restrict_cursor-Framed s f in
    if_else-Within ((active r).y == (active r).scroll_bottom) _ _
      (Within-elim restrict_cursor (scroll (erase_attr_data r) false (keep_erase r))
        restrict_cursor-Framed
        (scroll-Within (erase_attr_data r) false (keep_erase r) (keep_erase-Framed r g)))
      (restrict_cursor-Framed (on_active (row_below r.rows false) r) (row_below-Framed false r g))

pub next_line-Within : (s : Screen) → Framed s → Within (next_line s)
unfolding next_line
next_line-Within s f = index-Within (to_column_0 s) (to_column_0-Framed s f)

FitsIn-made :
    {A : Type 0} (g : A → Buffer) {cols rows : ℕ} (o : Option A)
    → ((a : A) → Fits cols rows (g a))
    → FitsIn cols rows (elim o as (λ _. Option Buffer) [ none ↦ none | some a ↦ some (g a) ])
FitsIn-made g none h = tt
FitsIn-made g (some a) h = h a

scroll_back_lines-FitsIn :
    (attr : AttributeData) {cols rows : ℕ} (b : Buffer)
    → Fits cols rows b
    → FitsIn cols rows (scroll_back_lines attr b)
unfolding scroll_back_lines
scroll_back_lines-FitsIn attr b f =
    FitsIn-made
      (λ r.
        with_lines (put none (r.0) (b.y_base + b.y) (some (get_blank_line b attr false)), r.1) b)
      (shift_elements none (b.y_base + b.y) (b.scroll_bottom - b.scroll_top) (pos 1) b.lines)
      (λ r.
        with_lines-Fits (put none (r.0) (b.y_base + b.y) (some (get_blank_line b attr false)), r.1)
          b f)

pub reverse_index-Within : (s : Screen) → Framed s → Within (reverse_index s)
unfolding reverse_index
reverse_index-Within s f =
    let r = restrict_cursor s in
    let g = restrict_cursor-Framed s f in
    let b = active r in
    let k = keep_erase-Framed r g in
    let kept = keep_erase r in
    let up = on_active (λ c. record c { y = c.y - 1 }) r in
    if_else-Within (b.y == b.scroll_top) _ _
      (FitsIn-elim (λ c. mark_range_dirty b.scroll_top b.scroll_bottom (put_active c kept))
        (scroll_back_lines (erase_attr_data r) b)
        (λ c i.
          mark_range_dirty-Framed b.scroll_top b.scroll_bottom (put_active c kept)
            (put_active-Framed c kept k i))
        (scroll_back_lines-FitsIn (erase_attr_data r) b (active-Fits kept k)))
      (if_else-Within (b.y == 0) (some (restrict_cursor r)) (some (restrict_cursor up))
        (restrict_cursor-Framed r g)
        (restrict_cursor-Framed up (
          on_active-Framed (λ c. record c { y = c.y - 1 }) r g
            (λ c i. moved-Fits c.x (c.y - 1) c i.x_in (omega (arith, i.y_in)) i))))
