-- ===== src/Xterm/Sgr/Flags.antt =====
-- internal/xterm/inputhandler_sgr.go: the flag of the extended attributes agrees with them.
use Prim.{tt}
use daemontest.Prelude.{
  ◌⊗◌, ℕ, ◌-◌, ◌*◌, ◌^◌, ◌≤◌, ◌<◌, ◌≡◌, refl, Bool, true, not, List, [], ◌∷◌, arith, inl, inr,
  Bool-cases, All, ◌==◌,
}
use daemontest.Prelude.Int.{ℤ, pos, negsuc}
use daemontest.Prelude.Bits.{
  ◌&◌, ◌∣◌, mask_not, or-and, and-zero, or-ge, masked, and_high, or-lt, and-le, or-outside,
  set-outside,
}
use daemontest.Xterm.Attr.{
  AttributeData, from_color_rgb, attr_rgb_mask, attr_cm_rgb, attr_cm_mask, attr_pcolor_mask,
  attr_cm_p256, default_attr_data, attr_cm_p16, fg_flag_bold, fg_flag_underline, bg_flag_dim,
  bg_flag_italic, bg_flag_overline, bg_flag_has_extended, has_extended_attrs, is_empty,
  update_extended,
}
use daemontest.Xterm.Sgr.{
  accu_color, underline_recolored, low_byte, set_fg, underlined, cleared, plain_underline_color,
  style_or_single, set_bg, clear_bg, clear_fg, bg_16, between, switch, sgr_cases, sgr_plain,
  process_sgr0, process_underline, reset_fg, reset_bg, reset_underline_color, apply_color,
  update_attr_color, accu_at, is_pos,
}

-- The flag is set just if the extended attributes are not empty.
abbrev pub Flagged : AttributeData → Type 0
Flagged a = not (has_extended_attrs a == 0) ≡ not (is_empty a.extended)

pub update_extended-Flagged : (a : AttributeData) → Flagged (update_extended a)
unfolding update_extended has_extended_attrs
update_extended-Flagged a = ground (
  arith,
  masked a.bg (mask_not bg_flag_has_extended) bg_flag_has_extended 0 refl,
  and-zero a.bg,
  or-and a.bg bg_flag_has_extended bg_flag_has_extended,
  or-ge (a.bg & bg_flag_has_extended) bg_flag_has_extended,
)

-- The operations on the background leave the flag alone.
bg-Flagged :
    (a : AttributeData) (w : ℕ)
    → w & bg_flag_has_extended ≡ a.bg & bg_flag_has_extended
    → Flagged a
    → Flagged (record a { bg = w })
unfolding has_extended_attrs
bg-Flagged a w e f = rw e f

switch-Flagged :
    (cs : List (Bool × (AttributeData → AttributeData)))
    → All (λ c. c.0 ≡ true → (a : AttributeData) → Flagged a → Flagged (c.1 a)) cs
    → (a : AttributeData) → Flagged a
    → Flagged (switch cs a)
unfolding switch
switch-Flagged [] h a f = f
switch-Flagged (c ∷ cs) h a f = elim (Bool-cases c.0) [
  | inl t ↦ rw t (h.0 t a f)
  | inr e ↦ rw e (switch-Flagged cs h.1 a f)
]

set_bg-Flagged :
    (m : ℕ) → m & bg_flag_has_extended ≡ 0 → (a : AttributeData) → Flagged a → Flagged (set_bg m a)
set_bg-Flagged m e a f = bg-Flagged a (a.bg ∣ m) (set-outside a.bg m bg_flag_has_extended e) f

clear_bg-Flagged :
    (m : ℕ)
    → mask_not m & bg_flag_has_extended ≡ bg_flag_has_extended
    → (a : AttributeData) → Flagged a
    → Flagged (clear_bg m a)
clear_bg-Flagged m e a f =
    bg-Flagged a (a.bg & mask_not m) (masked a.bg (mask_not m) bg_flag_has_extended _ e) f

-- A color's bits do not reach the flag.
color_outside : (c n : ℕ) → c < 2 ^ 28 → n < 2 ^ 28 → (c ∣ n) & bg_flag_has_extended ≡ 0
color_outside c n p q = and_high 28 (c ∣ n) 1 (or-lt 28 c n p q)

bg_16-Flagged : (n : ℕ) → n < 256 → (a : AttributeData) → Flagged a → Flagged (bg_16 n a)
bg_16-Flagged n h a f =
    bg-Flagged a _
      (or-outside a.bg (attr_cm_p16 ∣ n) _ bg_flag_has_extended refl
        (color_outside attr_cm_p16 n (omega arith) (omega arith)))
      f

reset_bg-Flagged : (a : AttributeData) → Flagged a → Flagged (reset_bg a)
unfolding reset_bg default_attr_data
reset_bg-Flagged a f = bg-Flagged a _ (or-outside a.bg 0 _ bg_flag_has_extended refl refl) f

between-upper : (lo hi p : ℕ) → between lo hi p ≡ true → p ≤ hi
between-upper lo hi p h = ground arith

process_underline-Flagged : (style : ℤ) (a : AttributeData) → Flagged (process_underline style a)
unfolding process_underline
process_underline-Flagged style a = update_extended-Flagged (underlined (style_or_single style) a)

sgr_cases-Flagged :
    (style : ℤ) (p : ℕ)
    → All (λ c. c.0 ≡ true → (a : AttributeData) → Flagged a → Flagged (c.1 a)) (sgr_cases style p)
unfolding sgr_cases has_extended_attrs process_sgr0 reset_fg reset_underline_color
sgr_cases-Flagged style p =
    (λ t a f. f)
    ⊗ (λ t a f. bg_16-Flagged (p - 40) (omega (arith, between-upper 40 47 p t)) a f)
    ⊗ (λ t a f. f)
    ⊗ (λ t a f.
        bg_16-Flagged (p - 100 ∣ 8)
          (or-lt 8 (p - 100) 8 (omega (arith, between-upper 100 107 p t)) (omega arith)) a f)
    ⊗ (λ t a f. update_extended-Flagged (cleared a))
    ⊗ (λ t a f. f)
    ⊗ (λ t. set_bg-Flagged bg_flag_dim refl)
    ⊗ (λ t. set_bg-Flagged bg_flag_italic refl)
    ⊗ (λ t a f. process_underline-Flagged style (set_fg fg_flag_underline a))
    ⊗ (λ t a f. f)
    ⊗ (λ t a f. f)
    ⊗ (λ t a f. f)
    ⊗ (λ t a f. f)
    ⊗ (λ t a f. process_underline-Flagged (pos 2) a)
    ⊗ (λ t a f. clear_bg-Flagged bg_flag_dim refl (clear_fg fg_flag_bold a) f)
    ⊗ (λ t. clear_bg-Flagged bg_flag_italic refl)
    ⊗ (λ t a f. process_underline-Flagged (pos 0) (clear_fg fg_flag_underline a))
    ⊗ (λ t a f. f)
    ⊗ (λ t a f. f)
    ⊗ (λ t a f. f)
    ⊗ (λ t a f. f)
    ⊗ (λ t a f. f)
    ⊗ (λ t. reset_bg-Flagged)
    ⊗ (λ t. set_bg-Flagged bg_flag_overline refl)
    ⊗ (λ t. clear_bg-Flagged bg_flag_overline refl)
    ⊗ (λ t a f. update_extended-Flagged (plain_underline_color a))
    ⊗ tt

pub sgr_plain-Flagged :
    (style v : ℤ) (a : AttributeData) → Flagged a → Flagged (sgr_plain style v a)
unfolding sgr_plain
sgr_plain-Flagged style (negsuc n) a f = f
sgr_plain-Flagged style (pos p) a f =
    switch-Flagged (sgr_cases style p) (sgr_cases-Flagged style p) a f

low_byte_small : (v : ℤ) → low_byte v < 256
low_byte_small (pos n) = omega arith
low_byte_small (negsuc n) = omega arith

byte_color_small : (r g b : ℕ) → from_color_rgb (r, g, b) < 2 ^ 24
unfolding from_color_rgb
byte_color_small r g b =
    or-lt 24 ((r & 0xFF) * 2 ^ 16 ∣ (g & 0xFF) * 2 ^ 8) (b & 0xFF)
      (or-lt 24 ((r & 0xFF) * 2 ^ 16) ((g & 0xFF) * 2 ^ 8) (omega (arith, and-le r 0xFF))
        (omega (arith, and-le g 0xFF)))
      (omega (arith, and-le b 0xFF))

-- A color does not reach the bits of a flag.
pub update_attr_color-flag :
    (mode c1 c2 c3 : ℤ) (w flag : ℕ)
    → mask_not attr_rgb_mask & flag ≡ flag
    → attr_cm_rgb & flag ≡ 0
    → mask_not (attr_cm_mask ∣ attr_pcolor_mask) & flag ≡ flag
    → ((n : ℕ) → n < 2 ^ 26 → n & flag ≡ 0)
    → update_attr_color mode c1 c2 c3 w & flag ≡ w & flag
unfolding update_attr_color
update_attr_color-flag (negsuc m) c1 c2 c3 w flag e f g h = refl
update_attr_color-flag (pos m) c1 c2 c3 w flag e f g h = ground (
  arith,
  or-outside (w ∣ attr_cm_rgb) (from_color_rgb (low_byte c1, low_byte c2, low_byte c3))
      (mask_not attr_rgb_mask) flag e
      (h _ (omega (arith, byte_color_small (low_byte c1) (low_byte c2) (low_byte c3)))),
  set-outside w attr_cm_rgb flag f,
  or-outside w (attr_cm_p256 ∣ low_byte c1) (mask_not (attr_cm_mask ∣ attr_pcolor_mask)) flag g
      (h _ (or-lt 26 attr_cm_p256 (low_byte c1) (omega arith) (omega (arith, low_byte_small c1)))),
)

pub apply_color-Flagged :
    (accu : List ℤ) (a : AttributeData) → Flagged a → Flagged (apply_color accu a)
unfolding apply_color has_extended_attrs accu_color update_attr_color
apply_color-Flagged accu a f = elim (Bool-cases (is_pos 38 (accu_at 0 accu))) [
  | inl t ↦ rw t f
  | inr e1 ↦ elim (Bool-cases (is_pos 48 (accu_at 0 accu))) [
    | inl t ↦
        rw (e1, t)
          (bg-Flagged a (accu_color accu a.bg)
            (update_attr_color-flag (accu_at 1 accu) _ _ _ a.bg bg_flag_has_extended refl refl refl
              (λ n h. and_high 28 n 1 (omega arith)))
            f)
    | inr e2 ↦ elim (Bool-cases (is_pos 58 (accu_at 0 accu))) [
      | inl t ↦ rw (e1, e2, t) (update_extended-Flagged (underline_recolored (accu_color accu) a))
      | inr e3 ↦ rw (e1, e2, e3) f
    ]
  ]
]
