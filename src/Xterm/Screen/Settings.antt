-- ===== src/Xterm/Screen/Settings.antt =====
-- internal/xterm/inputhandler_csi.go: modes that are set, and their report.
use Prim.{tt}
use daemontest.Prelude.{
  ℕ, ◌≡◌, refl, sym, ◌-◌, Bool, true, false, List, [], ◌∷◌, inl, inr, Bool-cases, if◌then◌else◌,
  not, ◌⊗◌, All,
}
use daemontest.Prelude.Int.{ℤ, pos, ◌+ℤ◌}
use daemontest.Xterm.Attr.{AttributeData}
use daemontest.Xterm.Screen.{
  Screen, active, fire, activate_normal_buffer, activate_alt_buffer, erase_attr_data, keep_erase,
  MouseTracking, no_tracking, x10, vt200, drag, any_motion, MouseEncoding, default_encoding, sgr,
  sgr_pixels, all_rows_refreshed,
}
use daemontest.Xterm.Screen.Cursor.{restrict, restrict_cursor, restrict_cursor_to, set_cursor}
use daemontest.Xterm.Screen.Esc.{save_cursor, restore_cursor}
use daemontest.Xterm.Screen.Modes.{
  ansi_mode, private_mode, private_mode_setting, ansi_mode_setting, bool_to_pm, enter_alt,
  leave_alt, home, on_kitty, to_main_keyboard, to_alt_keyboard, is_tracking, is_encoding, on_dec,
}

-- A cursor that moves leaves the modes, and which buffer is active.
restrict-core : (m : ℕ) (x y : ℤ) (s : Screen) → (restrict m x y s).core ≡ s.core
unfolding restrict
restrict-core m x y s = elim (Bool-cases s.on_alt) [ inl t ↦ rw t refl | inr e ↦ rw e refl ]

restrict-on_alt : (m : ℕ) (x y : ℤ) (s : Screen) → (restrict m x y s).on_alt ≡ s.on_alt
unfolding restrict
restrict-on_alt m x y s = elim (Bool-cases s.on_alt) [ inl t ↦ rw t refl | inr e ↦ rw e refl ]

home-core : (s : Screen) → (home s).core ≡ s.core
unfolding home set_cursor
home-core s =
    restrict-core (s.cols - 1) (pos 0)
      (if s.core.dec.origin then pos (active s).scroll_top +ℤ pos 0 else pos 0) s

restore_cursor-on_alt : (s : Screen) → (restore_cursor s).on_alt ≡ s.on_alt
unfolding restore_cursor restrict_cursor restrict_cursor_to restrict
restore_cursor-on_alt s = elim (Bool-cases s.on_alt) [ inl t ↦ rw t refl | inr e ↦ rw e refl ]

activate_normal_buffer-on_alt : (s : Screen) → (activate_normal_buffer s).on_alt ≡ false
unfolding activate_normal_buffer
activate_normal_buffer-on_alt s = elim (Bool-cases s.on_alt) [
  | inl t ↦ rw t refl
  | inr e ↦ rw e refl
]

activate_alt_buffer-on_alt :
    (a : AttributeData) (s : Screen) → (activate_alt_buffer a s).on_alt ≡ true
unfolding activate_alt_buffer
activate_alt_buffer-on_alt a s = elim (Bool-cases s.on_alt) [
  | inl t ↦ rw t refl
  | inr e ↦ rw e refl
]

enter_alt-on_alt : (s : Screen) → (enter_alt s).on_alt ≡ true
unfolding enter_alt
enter_alt-on_alt s =
    let k = on_kitty to_alt_keyboard s in
    activate_alt_buffer-on_alt (erase_attr_data k) (keep_erase k)

leave_alt-on_alt : (restore : Bool) (s : Screen) → (leave_alt restore s).on_alt ≡ false
unfolding leave_alt
leave_alt-on_alt true s =
    rw (restore_cursor-on_alt (activate_normal_buffer (on_kitty to_main_keyboard s)))
      (activate_normal_buffer-on_alt (on_kitty to_main_keyboard s))
leave_alt-on_alt false s = activate_normal_buffer-on_alt (on_kitty to_main_keyboard s)

alternate :
    (on : Bool) (s t : Screen)
    → s.on_alt ≡ true
    → t.on_alt ≡ false
    → bool_to_pm ((if on then s else t).on_alt) ≡ bool_to_pm on
alternate true s t e f = rw e refl
alternate false s t e f = rw f refl

tracked :
    (on : Bool) (m : MouseTracking)
    → is_tracking no_tracking m ≡ false
    → bool_to_pm (is_tracking (if on then m else no_tracking) m) ≡ bool_to_pm on
tracked true x10 e = refl
tracked true vt200 e = refl
tracked true drag e = refl
tracked true any_motion e = refl
tracked true no_tracking e = refl
tracked false m e = rw e refl

encoded :
    (on : Bool) (m : MouseEncoding)
    → is_encoding default_encoding m ≡ false
    → bool_to_pm (is_encoding (if on then m else default_encoding) m) ≡ bool_to_pm on
encoded true sgr e = refl
encoded true sgr_pixels e = refl
encoded true default_encoding e = refl
encoded false m e = rw e refl

refreshed : (on : Bool) (s t : Screen) → s.core ≡ t.core → (if on then s else t).core ≡ s.core
refreshed true s t e = refl
refreshed false s t e = sym e

-- A mode that is set or reset, and reported.
abbrev Reported : ℕ → Type 0
Reported v = (on : Bool) (s : Screen) → private_mode_setting v (private_mode on v s) ≡ bool_to_pm on

-- The modes that `privateModeSetting` knows.
abbrev pub known_modes : List ℕ
known_modes =
    1 ∷ 6 ∷ 7 ∷ 25 ∷ 45 ∷ 66 ∷ 9 ∷ 1000 ∷ 1002 ∷ 1003 ∷ 1004 ∷ 1006 ∷ 1016 ∷ 47 ∷ 1047 ∷ 1049 ∷ 2004
    ∷ 2026 ∷ 2031 ∷ 9001 ∷ []

twice_not : (b : Bool) → bool_to_pm (not (not b)) ≡ bool_to_pm b
twice_not true = refl
twice_not false = refl

private_known : All Reported known_modes
unfolding private_mode private_mode_setting
private_known =
    (λ on s. refl)
    ⊗ (λ on s. rw (home-core (on_dec (λ d. record d { origin = on }) s)) refl)
    ⊗ (λ on s. refl)
    ⊗ (λ on s. twice_not on)
    ⊗ (λ on s. refl)
    ⊗ (λ on s. refl)
    ⊗ (λ on s. tracked on x10 refl)
    ⊗ (λ on s. tracked on vt200 refl)
    ⊗ (λ on s. tracked on drag refl)
    ⊗ (λ on s. tracked on any_motion refl)
    ⊗ (λ on s. refl)
    ⊗ (λ on s. encoded on sgr refl)
    ⊗ (λ on s. encoded on sgr_pixels refl)
    ⊗ (λ on s.
        alternate on (enter_alt s) (leave_alt false s) (enter_alt-on_alt s)
          (leave_alt-on_alt false s))
    ⊗ (λ on s.
        alternate on (enter_alt s) (leave_alt false s) (enter_alt-on_alt s)
          (leave_alt-on_alt false s))
    ⊗ (λ on s.
        alternate on (enter_alt (save_cursor s)) (leave_alt true s)
          (enter_alt-on_alt (save_cursor s)) (leave_alt-on_alt true s))
    ⊗ (λ on s. refl)
    ⊗ (λ on s.
        let t = on_dec (λ d. record d { synchronized_output = on }) s in
        rw (refreshed on t (fire all_rows_refreshed t) refl) refl)
    ⊗ (λ on s. refl)
    ⊗ (λ on s. refl)
    ⊗ tt

abbrev AnsiReported : ℕ → Type 0
AnsiReported v =
    (on : Bool) (s : Screen) → ansi_mode_setting v (ansi_mode on (pos v) s) ≡ bool_to_pm on

ansi_known : All AnsiReported (4 ∷ 20 ∷ [])
unfolding ansi_mode ansi_mode_setting
ansi_known = (λ on s. refl) ⊗ (λ on s. refl) ⊗ tt

-- On whatever screen: each private mode that `privateModeSetting` knows, and each of the ANSI modes 4 and
-- 20, is reported as set after it is set, and as reset after it is reset.
private_mode_setting-private_mode : All Reported known_modes × All AnsiReported (4 ∷ 20 ∷ [])
private_mode_setting-private_mode = (private_known, ansi_known)
