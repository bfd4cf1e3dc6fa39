-- ===== src/Xterm/Screen/Inv.antt =====
-- internal/xterm/inputhandler.go, inputhandler_csi.go: where the cursor and the margins are.
pub mod Cursor
pub mod Rows
pub mod Shift
pub mod Modes
pub mod Reports
use daemontest.Prelude.{
  ℕ, zero, suc, ◌+◌, ◌-◌, ◌≤◌, ◌<◌, ◌≡◌, refl, Bool, true, false, List, [], ◌∷◌, map, Option, arith,
  inl, inr, Bool-cases, ltb, leb, ◌==◌, if◌then◌else◌,
}
use daemontest.Prelude.Int.{ℤ, pos, negsuc, ◌+ℤ◌}
use daemontest.Xterm.Params.{Params}
use daemontest.Xterm.BufferLine.{BufferLine}
use daemontest.Xterm.CircularList.{CircularList, Fired}
use daemontest.Xterm.Buffer.{
  Buffer, Marker, SavedCursorState, with_lines, notify, move_marker, undisposed,
}
use daemontest.Xterm.Screen.{Screen, active, on_active}
use daemontest.Xterm.Screen.Cursor.{
  between_bounds, restrict, restrict_cursor, restrict_cursor_to, set_cursor, move_cursor,
}

-- A buffer of the size of the screen, whose margins do not cross and whose cursor is at most one column
-- right of it.
pub record Fits (cols rows : ℕ) (b : Buffer) : Type 0 where
  pub cols_eq : b.cols ≡ cols
  pub rows_eq : b.rows ≡ rows
  pub top_in : b.scroll_top ≤ b.scroll_bottom
  pub bottom_in : b.scroll_bottom < rows
  pub x_in : b.x ≤ cols
  pub y_in : b.y < rows

pub record Framed (s : Screen) : Type 0 where
  pub cols_some : 1 < s.cols
  pub rows_some : 0 < s.rows
  pub normal_fits : Fits s.cols s.rows s.normal
  pub alt_fits : Fits s.cols s.rows s.alt

between_bounds_in :
    (lo hi : ℕ) (v : ℤ) → lo ≤ hi → (lo ≤ between_bounds lo hi v) × (between_bounds lo hi v ≤ hi)
between_bounds_in lo hi (pos n) h = ground arith
between_bounds_in lo hi (negsuc n) h = ground arith

pub active-Fits : (s : Screen) → Framed s → Fits s.cols s.rows (active s)
active-Fits s f = elim (Bool-cases s.on_alt) [
  | inl t ↦ rw t f.alt_fits
  | inr e ↦ rw e f.normal_fits
]

pub on_active-Framed :
    (g : Buffer → Buffer) (s : Screen)
    → Framed s
    → ((b : Buffer) → Fits s.cols s.rows b → Fits s.cols s.rows (g b))
    → Framed (on_active g s)
on_active-Framed g s f h = elim (Bool-cases s.on_alt) [
  | inl t ↦ rw t (record {
    cols_some = f.cols_some;
    rows_some = f.rows_some;
    normal_fits = f.normal_fits;
    alt_fits = h s.alt f.alt_fits;
  })
  | inr e ↦ rw e (record {
    cols_some = f.cols_some;
    rows_some = f.rows_some;
    normal_fits = h s.normal f.normal_fits;
    alt_fits = f.alt_fits;
  })
]

-- A cursor that is inside goes well with the rest.
pub moved-Fits :
    {cols rows : ℕ} (x y : ℕ) (b : Buffer)
    → x ≤ cols
    → y < rows
    → Fits cols rows b
    → Fits cols rows (record b { x = x; y = y })
moved-Fits x y b hx hy f = record {
  cols_eq = f.cols_eq;
  rows_eq = f.rows_eq;
  top_in = f.top_in;
  bottom_in = f.bottom_in;
  x_in = hx;
  y_in = hy;
}

abbrev row_in : Screen → ℤ → ℕ
row_in s y =
    if s.core.dec.origin
    then between_bounds (active s).scroll_top (active s).scroll_bottom y
    else between_bounds 0 (s.rows - 1) y

row-in : (s : Screen) (y : ℤ) → Framed s → row_in s y < s.rows
row-in s y f =
    let a = active-Fits s f in
    let i = between_bounds_in (active s).scroll_top (active s).scroll_bottom y a.top_in in
    let j = between_bounds_in 0 (s.rows - 1) y (omega arith) in
    elim (Bool-cases s.core.dec.origin) [
      | inl t ↦ rw t (omega (arith, i.1, a.bottom_in))
      | inr e ↦ rw e (omega (arith, j.1, f.rows_some))
    ]

pub restrict-Framed :
    (max_col : ℕ) (x y : ℤ) (s : Screen)
    → max_col ≤ s.cols
    → Framed s
    → Framed (restrict max_col x y s)
unfolding restrict
restrict-Framed max_col x y s h f = on_active-Framed _ s f (λ b i.
    moved-Fits (between_bounds 0 max_col x) (row_in s y) b
      (omega (arith, (between_bounds_in 0 max_col x (omega arith)).1)) (row-in s y f) i)

pub restrict_cursor_to-Framed :
    (max_col : ℕ) (s : Screen) → max_col ≤ s.cols → Framed s → Framed (restrict_cursor_to max_col s)
unfolding restrict_cursor_to
restrict_cursor_to-Framed max_col s h f =
    restrict-Framed max_col (pos (active s).x) (pos (active s).y) s h f

pub restrict_cursor-Framed : (s : Screen) → Framed s → Framed (restrict_cursor s)
unfolding restrict_cursor
restrict_cursor-Framed s f = restrict_cursor_to-Framed (s.cols - 1) s (omega arith) f

pub set_cursor-Framed : (x y : ℤ) (s : Screen) → Framed s → Framed (set_cursor x y s)
unfolding set_cursor
set_cursor-Framed x y s f =
    restrict-Framed (s.cols - 1) x (if s.core.dec.origin then pos (active s).scroll_top +ℤ y else y)
      s (omega arith) f

pub move_cursor-Framed : (x y : ℤ) (s : Screen) → Framed s → Framed (move_cursor x y s)
unfolding move_cursor
move_cursor-Framed x y s f =
    set_cursor-Framed (pos (active (restrict_cursor s)).x +ℤ x)
      (pos (active (restrict_cursor s)).y +ℤ y) (restrict_cursor s) (restrict_cursor-Framed s f)

-- What changes neither the sizes nor the two buffers.
pub same-Framed :
    (s t : Screen)
    → t.cols ≡ s.cols
    → t.rows ≡ s.rows
    → t.normal ≡ s.normal
    → t.alt ≡ s.alt
    → Framed s
    → Framed t
same-Framed s t ec er en ea f = record {
  cols_some = rw ec f.cols_some;
  rows_some = rw er f.rows_some;
  normal_fits = rw (ec, er, en) f.normal_fits;
  alt_fits = rw (ec, er, ea) f.alt_fits;
}

-- Lines, markers, tab stops, the saved cursor and the scroll position take no part.
pub dressed-Fits :
    {cols rows : ℕ} {b : Buffer} {l : CircularList (Option BufferLine)} {m : List Marker}
    {t : ℕ → Bool} {v : SavedCursorState} {d e : ℕ}
    → Fits cols rows b
    → Fits cols rows
        (record b { lines = l; markers = m; tabs = t; saved_state = v; y_disp = d; y_base = e })
dressed-Fits f = record {
  cols_eq = f.cols_eq;
  rows_eq = f.rows_eq;
  top_in = f.top_in;
  bottom_in = f.bottom_in;
  x_in = f.x_in;
  y_in = f.y_in;
}

pub with_lines-Fits :
    {cols rows : ℕ} (r : CircularList (Option BufferLine) × List Fired) (b : Buffer)
    → Fits cols rows b
    → Fits cols rows (with_lines r b)
unfolding with_lines notify
with_lines-Fits (l, []) b f = dressed-Fits f
with_lines-Fits (l, e ∷ es) b f =
    with_lines-Fits (l, es) (record b { markers = undisposed (map (move_marker e) b.markers) })
      (dressed-Fits f)
