-- ===== src/Xterm/Screen/Undo.antt =====
-- internal/xterm/inputhandler_csi.go: sequences, and the ones against them.
use daemontest.Prelude.{
  ℕ, suc, ◌+◌, ◌-◌, ◌<◌, ◌≤◌, ◌≡◌, refl, true, false, List, [], ◌∷◌, ◌++◌, inl, inr, Bool-cases,
  ltb, ◌==◌, if◌then◌else◌, arith, length, length-append, ap, ◌∙◌,
}
use daemontest.Prelude.Int.{ℤ, pos}
use daemontest.Xterm.Screen.{
  Screen, KittyKeyboardState, activate_alt_buffer, activate_normal_buffer, keep_erase,
}
use daemontest.Xterm.Buffer.{Buffer}
use daemontest.Xterm.Params.{Params}
use daemontest.Xterm.Screen.Cursor.{
  param_at, restrict, restrict_cursor, restrict_cursor_to, between_bounds,
}
use daemontest.Xterm.Screen.Esc.{saved_by, save_cursor, restore_cursor}
use daemontest.Xterm.Screen.Modes.{on_kitty, private_mode, enter_alt, leave_alt}
use daemontest.Xterm.Screen.Keyboard.{
  kitty_keyboard_max_stack_size, positive_or, push_flags, pop_flags, last_or, but_last,
  kitty_keyboard_push, kitty_keyboard_pop,
}

last_or-snoc : (d x : ℕ) (xs : List ℕ) → last_or d (xs ++ x ∷ []) ≡ x
last_or-snoc d x [] = refl
last_or-snoc d x (y ∷ ys) = last_or-snoc y x ys

but_last-snoc {ℓ} : {A : Type ℓ} (x : A) (xs : List A) → but_last (xs ++ x ∷ []) ≡ xs
but_last-snoc x [] = refl
but_last-snoc x (y ∷ []) = refl
but_last-snoc x (y ∷ z ∷ zs) = rw (but_last-snoc x (z ∷ zs)) refl

length-snoc {ℓ} : {A : Type ℓ} (x : A) (xs : List A) → (length (xs ++ x ∷ []) == 0) ≡ false
length-snoc x [] = refl
length-snoc x (y ∷ ys) = ground arith

-- One more round after a push on a stack with room is one round less.
pop_flags-push_flags :
    (m f : ℕ) (k : KittyKeyboardState)
    → length k.main_stack < kitty_keyboard_max_stack_size
    → pop_flags (suc m) (push_flags f k) ≡ pop_flags m k
unfolding pop_flags
pop_flags-push_flags m f k h = elim (Bool-cases (ltb (length k.main_stack) 10)) [
  | inl t ↦
      rw
        (
          t,
          length-snoc k.flags k.main_stack,
          last_or-snoc 0 k.flags k.main_stack,
          but_last-snoc k.flags k.main_stack,
        )
        refl
  | inr e ↦ absurd (ground (arith, h, e))
]

abbrev pub push_all : List Params → Screen → Screen
unfolding kitty_keyboard_push
push_all [] s = s
push_all (q ∷ qs) s = push_all qs (kitty_keyboard_push q s)

pop_flags-kitty_keyboard_push :
    (m : ℕ) (q : Params) (s : Screen)
    → length s.core.kitty.main_stack < kitty_keyboard_max_stack_size
    → on_kitty (pop_flags (suc m)) (kitty_keyboard_push q s) ≡ on_kitty (pop_flags m) s
unfolding kitty_keyboard_push
pop_flags-kitty_keyboard_push m q s h =
    rw (pop_flags-push_flags m (positive_or 0 (param_at q 0)) s.core.kitty h) refl

length-kitty_keyboard_push :
    (q : Params) (s : Screen)
    → length (kitty_keyboard_push q s).core.kitty.main_stack ≤ length s.core.kitty.main_stack + 1
unfolding kitty_keyboard_push
length-kitty_keyboard_push q s =
    ground (arith, length-append s.core.kitty.main_stack (s.core.kitty.flags ∷ []))

pop_flags-push_all :
    (qs : List Params) (m : ℕ) (s : Screen)
    → length s.core.kitty.main_stack + length qs ≤ kitty_keyboard_max_stack_size
    → on_kitty (pop_flags (length qs + m)) (push_all qs s) ≡ on_kitty (pop_flags m) s
unfolding push_all
pop_flags-push_all [] m s h = let e : length {A = Params} [] + m ≡ m = omega arith in rw e refl
pop_flags-push_all (q ∷ qs) m s h =
    let e : length (q ∷ qs) + m ≡ length qs + suc m = omega arith in
    rw
      (
        e,
        pop_flags-push_all qs (suc m) (kitty_keyboard_push q s)
            (omega (arith, length-kitty_keyboard_push q s, h)),
      )
      (pop_flags-kitty_keyboard_push m q s (omega (arith, h)))

-- Pushes of keyboard flags, of which the stack has room for all, and then one pop of their number: the
-- screen is as it was.
pub kitty_keyboard_pop-push_all :
    (qs : List Params) (p : Params) (s : Screen)
    → length s.core.kitty.main_stack + length qs ≤ kitty_keyboard_max_stack_size
    → positive_or 1 (param_at p 0) ≡ length qs
    → kitty_keyboard_pop p (push_all qs s) ≡ s
unfolding kitty_keyboard_pop
kitty_keyboard_pop-push_all qs p s h e =
    let z : length qs + 0 ≡ length qs = omega arith in
    rw (kitty_keyboard_pop, e) (rw z at (pop_flags-push_all qs 0 s h))

-- What the alternate screen leaves alone.
pub record Unchanged (s t : Screen) : Type 0 where
  lines_eq : t.normal.lines ≡ s.normal.lines
  x_eq : t.normal.x ≡ s.normal.x
  y_eq : t.normal.y ≡ s.normal.y
  y_base_eq : t.normal.y_base ≡ s.normal.y_base
  scroll_top_eq : t.normal.scroll_top ≡ s.normal.scroll_top
  scroll_bottom_eq : t.normal.scroll_bottom ≡ s.normal.scroll_bottom
  fg_eq : t.cur_attr_data.fg ≡ s.cur_attr_data.fg
  bg_eq : t.cur_attr_data.bg ≡ s.cur_attr_data.bg
  origin_eq : t.core.dec.origin ≡ s.core.dec.origin
  wraparound_eq : t.core.dec.wraparound ≡ s.core.dec.wraparound
  flags_eq : t.core.kitty.flags ≡ s.core.kitty.flags
  stack_eq : t.core.kitty.main_stack ≡ s.core.kitty.main_stack
  on_alt_eq : t.on_alt ≡ false

-- The column and the row of a cursor that is on the screen.
column_kept :
    (s : Screen)
    → s.on_alt ≡ false
    → restrict_cursor s ≡ s
    → between_bounds 0 (s.cols - 1) (pos s.normal.x) ≡ s.normal.x
unfolding restrict_cursor restrict_cursor_to restrict
column_kept s e h = rw e at (ap (λ t. t.normal.x) h)

abbrev row_kept_at : Screen → ℤ → ℕ
row_kept_at s y =
    if s.core.dec.origin
    then between_bounds s.normal.scroll_top s.normal.scroll_bottom y
    else between_bounds 0 (s.rows - 1) y

row_kept :
    (s : Screen)
    → s.on_alt ≡ false
    → restrict_cursor s ≡ s
    → row_kept_at s (pos s.normal.y) ≡ s.normal.y
unfolding restrict_cursor restrict_cursor_to restrict
row_kept s e h = rw e at (ap (λ t. t.normal.y) h)

-- What is left alone from one screen to the other while the alternate screen is on: the buffer of the
-- normal one, the size, and what was put by of the keyboard.
pub record StaysAlt (s t : Screen) : Type 0 where
  pub normal_same : t.normal ≡ s.normal
  pub still_alt : t.on_alt ≡ true
  pub cols_same : t.cols ≡ s.cols
  pub rows_same : t.rows ≡ s.rows
  pub flags_same : t.core.kitty.main_flags ≡ s.core.kitty.main_flags
  pub stack_same : t.core.kitty.alt_stack ≡ s.core.kitty.alt_stack

-- The normal buffer with the cursor, the colors and the modes of the screen put by.
abbrev with_saved : Screen → Buffer
with_saved s = record (s.normal) { saved_state = saved_by s s.normal }

private_mode-entered :
    (s : Screen)
    → s.on_alt ≡ false
    → let t = private_mode true 1049 s in
      (t.normal ≡ with_saved s)
      × (t.cols ≡ s.cols)
      × (t.rows ≡ s.rows)
      × (t.core.kitty.main_flags ≡ s.core.kitty.flags)
      × (t.core.kitty.alt_stack ≡ s.core.kitty.main_stack)
unfolding private_mode enter_alt save_cursor activate_alt_buffer keep_erase
private_mode-entered s e = (rw e refl, rw e refl, rw e refl, rw e refl, rw e refl)

private_mode-left :
    (s t : Screen)
    → s.on_alt ≡ false
    → restrict_cursor s ≡ s
    → t.on_alt ≡ true
    → t.normal ≡ with_saved s
    → t.cols ≡ s.cols
    → t.rows ≡ s.rows
    → t.core.kitty.main_flags ≡ s.core.kitty.flags
    → t.core.kitty.alt_stack ≡ s.core.kitty.main_stack
    → Unchanged s (private_mode false 1049 t)
unfolding private_mode leave_alt restore_cursor restrict_cursor restrict_cursor_to restrict
    activate_normal_buffer
private_mode-left s t e h on n c r f k =
    let y : s.normal.y_base + s.normal.y - s.normal.y_base ≡ s.normal.y = omega arith in
    record {
      lines_eq = rw (on, n) refl;
      x_eq = rw (on, n, c) (column_kept s e h);
      y_eq = rw (on, n, r, y) (row_kept s e h);
      y_base_eq = rw (on, n) refl;
      scroll_top_eq = rw (on, n) refl;
      scroll_bottom_eq = rw (on, n) refl;
      fg_eq = rw (on, n) refl;
      bg_eq = rw (on, n) refl;
      origin_eq = rw (on, n) refl;
      wraparound_eq = rw (on, n) refl;
      flags_eq = rw (on, f) refl;
      stack_eq = rw (on, k) refl;
      on_alt_eq = rw on refl;
    }

-- Mode 1049, set on the normal screen with the cursor where `restrictCursor` leaves it, then anything that
-- leaves the normal buffer, the size and the keyboard flags put by alone, whatever it does to the alternate
-- buffer, its cursor, the colors and the modes, and then the mode reset: the lines, the cursor, the margins,
-- the two colors, the modes that are saved and the flags of the keyboard with their stack are as at first,
-- and the normal screen is active.
pub private_mode-Unchanged :
    (s t : Screen)
    → s.on_alt ≡ false
    → restrict_cursor s ≡ s
    → StaysAlt (private_mode true 1049 s) t
    → Unchanged s (private_mode false 1049 t)
private_mode-Unchanged s t e h k =
    let (n, c, r, f, q) = private_mode-entered s e in
    private_mode-left s t e h k.still_alt (k.normal_same ∙ n) (k.cols_same ∙ c) (k.rows_same ∙ r)
      (k.flags_same ∙ f) (k.stack_same ∙ q)
