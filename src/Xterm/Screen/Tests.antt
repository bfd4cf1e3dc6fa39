-- ===== src/Xterm/Screen/Tests.antt =====
-- internal/xterm/inputhandler_csi.go: flags that are pushed twice, and a cursor that the alternate screen keeps.
use daemontest.Prelude.{◌≡◌, refl, false, true, [], ◌∷◌, arith}
use daemontest.Prelude.Int.{pos}
use daemontest.Xterm.Params.{Params, default_params}
use daemontest.Xterm.Screen.{
  Screen, new_screen, new_buffers, blank_screen, activate_alt_buffer, keep_erase,
}
use daemontest.Xterm.Screen.Cursor.{restrict_cursor, restrict_cursor_to, restrict}
use daemontest.Xterm.Screen.Esc.{save_cursor}
use daemontest.Xterm.Screen.Modes.{private_mode, enter_alt}
use daemontest.Xterm.Screen.Keyboard.{kitty_keyboard_pop}
use daemontest.Xterm.Screen.Undo.{
  push_all, Unchanged, kitty_keyboard_pop-push_all, private_mode-Unchanged,
}

abbrev one : Params
one = record default_params { len = 1; params = pos 1 ∷ [] }

abbrev two : Params
two = record default_params { len = 1; params = pos 2 ∷ [] }

abbrev plain : Screen
plain = new_screen 10 4 100 8

kitty_keyboard_pop-push_all_example :
    kitty_keyboard_pop two (push_all (one ∷ two ∷ []) plain) ≡ plain
unfolding new_screen new_buffers blank_screen
kitty_keyboard_pop-push_all_example =
    kitty_keyboard_pop-push_all (one ∷ two ∷ []) two plain (omega arith) refl

-- Column 4 of row 2.
abbrev placed : Screen
placed = record plain { normal = record (plain.normal) { x = 4; y = 2 }; on_alt = false }

-- The alternate screen with another cursor, other colors and other modes.
abbrev busy : Screen
busy =
    let t = private_mode true 1049 placed in
    record t {
      alt = record (t.alt) { x = 1; y = 0 };
      cur_attr_data = record (t.cur_attr_data) { fg = 5; bg = 6 };
      core = record (t.core) { dec = record (t.core.dec) { origin = true; wraparound = false } };
    }

private_mode-Unchanged_example : Unchanged placed (private_mode false 1049 busy)
unfolding new_screen new_buffers blank_screen restrict_cursor restrict_cursor_to restrict
    private_mode enter_alt save_cursor activate_alt_buffer keep_erase
private_mode-Unchanged_example = private_mode-Unchanged placed busy refl refl (record {
  normal_same = refl;
  still_alt = refl;
  cols_same = refl;
  rows_same = refl;
  flags_same = refl;
  stack_same = refl;
})
