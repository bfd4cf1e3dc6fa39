-- ===== src/Xterm/Screen/Keyboard.antt =====
-- internal/xterm/inputhandler_csi.go: the flags of the kitty keyboard protocol, and the titles.
use daemontest.Prelude.{
  ℕ, zero, suc, ◌-◌, ◌||◌, ◌&&◌, List, [], ◌∷◌, ◌++◌, ltb, leb, ◌==◌, if◌then◌else◌, length,
}
use daemontest.Prelude.Bits.{◌&◌, ◌∣◌}
use daemontest.Prelude.Int.{ℤ, pos, negsuc}
use daemontest.Xterm.Params.{Params}
use daemontest.Xterm.Cell.{Text}
use daemontest.Xterm.Screen.{Screen, title_changed, KittyKeyboardState, fire}
use daemontest.Xterm.Screen.Cursor.{param_at, is_number}
use daemontest.Xterm.Screen.Modes.{on_kitty}

abbrev pub kitty_keyboard_max_stack_size : ℕ
kitty_keyboard_max_stack_size = 10

-- `if v > 0 { … = int(v) }`, else `d`
abbrev pub positive_or : ℕ → ℤ → ℕ
positive_or d (pos zero) = d
positive_or d (pos (suc n)) = suc n
positive_or d (negsuc n) = d

-- `a &^ b`
abbrev pub and_not : ℕ → ℕ → ℕ
and_not a b = a - (a & b)

abbrev pub new_flags : ℕ → ℕ → ℕ → ℕ
new_flags mode old flags =
    if mode == 1
    then old ∣ flags
    else if mode == 2
    then and_not old flags
    else if mode == 3
    then flags
    else old

unfoldable pub kitty_keyboard_set : Params → Screen → Screen
kitty_keyboard_set p s =
    let mode = if leb 2 p.len then positive_or 1 (param_at p 1) else 1 in
    on_kitty (λ k. record k { flags = new_flags mode k.flags (positive_or 0 (param_at p 0)) }) s

-- The top of the stack stands at its end. A push on a full one only sets the flags.
abbrev pub push_flags : ℕ → KittyKeyboardState → KittyKeyboardState
push_flags flags k = record k {
  main_stack =
      if ltb (length k.main_stack) kitty_keyboard_max_stack_size
      then k.main_stack ++ k.flags ∷ []
      else k.main_stack;
  flags = flags;
}

unfoldable pub kitty_keyboard_push : Params → Screen → Screen
kitty_keyboard_push p s = on_kitty (push_flags (positive_or 0 (param_at p 0))) s

abbrev pub last_or : ℕ → List ℕ → ℕ
last_or d [] = d
last_or d (x ∷ xs) = last_or x xs

abbrev pub but_last {ℓ} : {A : Type ℓ} → List A → List A
but_last [] = []
but_last (x ∷ []) = []
but_last (x ∷ y ∷ ys) = x ∷ but_last (y ∷ ys)

-- The loop, for `n` rounds: an empty stack sets the flags to 0 and ends it.
unfoldable pub pop_flags : ℕ → KittyKeyboardState → KittyKeyboardState
pop_flags zero k = k
pop_flags (suc n) k =
    let rest =
      pop_flags n
        (record k { flags = last_or 0 k.main_stack; main_stack = but_last k.main_stack }) in
    if length k.main_stack == 0 then record k { flags = 0 } else rest

unfoldable pub kitty_keyboard_pop : Params → Screen → Screen
unfolding pop_flags
kitty_keyboard_pop p s = on_kitty (pop_flags (positive_or 1 (param_at p 0))) s

unfoldable pub set_title : Text → Screen → Screen
set_title title s = fire (title_changed title) (record s { window_title = title })

abbrev pub last_text : Text → List Text → Text
last_text d [] = d
last_text d (x ∷ xs) = last_text x xs

-- Case 22: 0 is for both stacks, 1 for the icon's name, 2 for the title.
unfoldable pub push_title : ℤ → Screen → Screen
push_title ps2 s = record s {
  window_title_stack =
      if is_number 0 ps2 || is_number 2 ps2
      then s.window_title_stack ++ s.window_title ∷ []
      else s.window_title_stack;
  icon_name_stack =
      if is_number 0 ps2 || is_number 1 ps2
      then s.icon_name_stack ++ s.window_title ∷ []
      else s.icon_name_stack;
}

-- Case 23
unfoldable pub pop_title : ℤ → Screen → Screen
pop_title ps2 s =
    let title = last_text [] s.window_title_stack in
    let t =
      if (is_number 0 ps2 || is_number 2 ps2) && ltb 0 (length s.window_title_stack)
      then fire (title_changed title)
          (record s { window_title_stack = but_last s.window_title_stack; window_title = title })
      else s in
    if is_number 0 ps2 || is_number 1 ps2
    then record t { icon_name_stack = but_last t.icon_name_stack }
    else t
