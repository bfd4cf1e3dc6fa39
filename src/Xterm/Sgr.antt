-- ===== src/Xterm/Sgr.antt =====
-- internal/xterm/inputhandler_sgr.go: `CSI Pm m`. `none` is a panic.
pub mod Flags
pub mod Total
pub mod Refine
pub mod Colors
pub mod Commands
mod Tests
use daemontest.Prelude.{
  ℕ, zero, suc, ◌+◌, ◌-◌, ◌*◌, ◌%◌, ◌^◌, Bool, true, false, not, ◌&&◌, ◌||◌, List, [], ◌∷◌, Option,
  none, some, ◌==◌, ltb, leb, if◌then◌else◌, get_or, set, map,
}
use daemontest.Prelude.Int.{ℤ, pos, negsuc, ltb_ℤ}
use daemontest.Prelude.Bits.{◌&◌, ◌∣◌, mask_not}
use daemontest.Xterm.Params.{Params, has_sub_params, get_sub_params}
use daemontest.Xterm.Attr.{
  AttributeData, default_attr_data, update_extended, set_underline_style, set_underline_color,
  underline_color, from_color_rgb, attr_cm_mask, attr_pcolor_mask, attr_rgb_mask, attr_cm_p16,
  attr_cm_p256, attr_cm_rgb, fg_flag_bold, fg_flag_underline, fg_flag_blink, fg_flag_inverse,
  fg_flag_invisible, fg_flag_strikethrough, bg_flag_dim, bg_flag_italic, bg_flag_overline,
}

-- `switch` without a default: the first case whose test holds.
unfoldable pub switch {ℓ} : {A : Type ℓ} → List (Bool × (A → A)) → A → A
switch [] a = a
switch (c ∷ cs) a = if c.0 then c.1 a else switch cs a

abbrev pub cleared : AttributeData → AttributeData
unfolding default_attr_data set_underline_style set_underline_color underline_color
cleared a =
    let e = set_underline_style 0 a.extended in
    let uc = underline_color e & mask_not (attr_cm_mask ∣ attr_rgb_mask) in
    record {
      fg = default_attr_data.fg;
      bg = default_attr_data.bg;
      extended = set_underline_color uc e;
    }

unfoldable pub process_sgr0 : AttributeData → AttributeData
unfolding update_extended
process_sgr0 a = update_extended (cleared a)

-- `if style < 0 || style > 5 { style = 1 }`
abbrev pub style_or_single : ℤ → ℕ
style_or_single (negsuc n) = 1
style_or_single (pos n) = if ltb 5 n then 1 else n

abbrev pub underlined : ℕ → AttributeData → AttributeData
unfolding set_underline_style
underlined style a = record a {
  extended = set_underline_style style a.extended;
  fg =
      if style == 0
      then (a.fg ∣ fg_flag_underline) & mask_not fg_flag_underline
      else a.fg ∣ fg_flag_underline;
}

unfoldable pub process_underline : ℤ → AttributeData → AttributeData
unfolding update_extended
process_underline style a = update_extended (underlined (style_or_single style) a)

-- `uint8(c)`, and `uint32(c) & 0xFF`
abbrev pub low_byte : ℤ → ℕ
low_byte (pos n) = n % 256
low_byte (negsuc n) = 255 - n % 256

-- The modes are 2 and 5; any other one changes nothing.
unfoldable pub update_attr_color : ℤ → ℤ → ℤ → ℤ → ℕ → ℕ
unfolding from_color_rgb
update_attr_color (negsuc m) c1 c2 c3 color = color
update_attr_color (pos m) c1 c2 c3 color =
    if m == 2
    then (color ∣ attr_cm_rgb) & mask_not attr_rgb_mask
      ∣ from_color_rgb (low_byte c1, low_byte c2, low_byte c3)
    else if m == 5
    then color & mask_not (attr_cm_mask ∣ attr_pcolor_mask) ∣ (attr_cm_p256 ∣ low_byte c1)
    else color

abbrev pub set_fg : ℕ → AttributeData → AttributeData
set_fg m a = record a { fg = a.fg ∣ m }

abbrev pub clear_fg : ℕ → AttributeData → AttributeData
clear_fg m a = record a { fg = a.fg & mask_not m }

abbrev pub set_bg : ℕ → AttributeData → AttributeData
set_bg m a = record a { bg = a.bg ∣ m }

abbrev pub clear_bg : ℕ → AttributeData → AttributeData
clear_bg m a = record a { bg = a.bg & mask_not m }

abbrev pub fg_16 : ℕ → AttributeData → AttributeData
fg_16 n a = record a { fg = a.fg & mask_not (attr_cm_mask ∣ attr_pcolor_mask) ∣ (attr_cm_p16 ∣ n) }

abbrev pub bg_16 : ℕ → AttributeData → AttributeData
bg_16 n a = record a { bg = a.bg & mask_not (attr_cm_mask ∣ attr_pcolor_mask) ∣ (attr_cm_p16 ∣ n) }

unfoldable pub reset_fg : AttributeData → AttributeData
unfolding default_attr_data
reset_fg a = record a {
  fg =
      a.fg & mask_not (attr_cm_mask ∣ attr_rgb_mask)
      ∣ (default_attr_data.fg & (attr_pcolor_mask ∣ attr_rgb_mask));
}

unfoldable pub reset_bg : AttributeData → AttributeData
unfolding default_attr_data
reset_bg a = record a {
  bg =
      a.bg & mask_not (attr_cm_mask ∣ attr_rgb_mask)
      ∣ (default_attr_data.bg & (attr_pcolor_mask ∣ attr_rgb_mask));
}

abbrev pub plain_underline_color : AttributeData → AttributeData
unfolding set_underline_color
plain_underline_color a = record a { extended = set_underline_color 0 a.extended }

unfoldable pub reset_underline_color : AttributeData → AttributeData
unfolding update_extended
reset_underline_color a = update_extended (plain_underline_color a)

abbrev pub between : ℕ → ℕ → ℕ → Bool
between lo hi p = leb lo p && leb p hi

-- The cases of one parameter that read no other parameter. `style` is what 4 takes from its
-- sub-parameters.
unfoldable pub sgr_cases : ℤ → ℕ → List (Bool × (AttributeData → AttributeData))
unfolding process_underline process_sgr0 reset_fg reset_bg reset_underline_color
sgr_cases style p =
    (between 30 37 p, fg_16 (p - 30))
    ∷ (between 40 47 p, bg_16 (p - 40))
    ∷ (between 90 97 p, fg_16 (p - 90 ∣ 8))
    ∷ (between 100 107 p, bg_16 (p - 100 ∣ 8))
    ∷ (p == 0, process_sgr0)
    ∷ (p == 1, set_fg fg_flag_bold)
    ∷ (p == 2, set_bg bg_flag_dim)
    ∷ (p == 3, set_bg bg_flag_italic)
    ∷ (p == 4, λ a. process_underline style (set_fg fg_flag_underline a))
    ∷ (p == 5, set_fg fg_flag_blink)
    ∷ (p == 7, set_fg fg_flag_inverse)
    ∷ (p == 8, set_fg fg_flag_invisible)
    ∷ (p == 9, set_fg fg_flag_strikethrough)
    ∷ (p == 21, process_underline (pos 2))
    ∷ (p == 22, λ a. clear_bg bg_flag_dim (clear_fg fg_flag_bold a))
    ∷ (p == 23, clear_bg bg_flag_italic)
    ∷ (p == 24, λ a. process_underline (pos 0) (clear_fg fg_flag_underline a))
    ∷ (p == 25, clear_fg fg_flag_blink)
    ∷ (p == 27, clear_fg fg_flag_inverse)
    ∷ (p == 28, clear_fg fg_flag_invisible)
    ∷ (p == 29, clear_fg fg_flag_strikethrough)
    ∷ (p == 39, reset_fg)
    ∷ (p == 49, reset_bg)
    ∷ (p == 53, set_bg bg_flag_overline)
    ∷ (p == 55, clear_bg bg_flag_overline)
    ∷ (p == 59, reset_underline_color)
    ∷ []

-- A parameter of -1 is none of the cases.
unfoldable pub sgr_plain : ℤ → ℤ → AttributeData → AttributeData
unfolding switch sgr_cases
sgr_plain style (pos p) a = switch (sgr_cases style p) a
sgr_plain style (negsuc n) a = a

-- `accu[i] = v`, in an array of 6
abbrev pub accu_put : ℕ → ℤ → List ℤ → Option (List ℤ)
accu_put i v accu = if ltb i 6 then some (set accu i v) else none

abbrev pub accu_at : ℕ → List ℤ → ℤ
accu_at i accu = get_or accu i (pos 0)

abbrev pub is_pos : ℕ → ℤ → Bool
is_pos n (pos m) = m == n
is_pos n (negsuc m) = false

abbrev pub option_then {ℓ κ} : {A : Type ℓ} {B : Type κ} → Option A → (A → Option B) → Option B
option_then none f = none
option_then (some a) f = f a

-- The loop over the sub-parameters, from number `i` on; `subs` are the ones left.
unfoldable pub take_subs : ℕ → ℕ → ℕ → List ℤ → List ℤ → Option (List ℤ)
take_subs advance i c_space [] accu =
    if leb 6 (advance + i + 1 + (if is_pos 5 (accu_at 1 accu) then 1 else c_space))
    then some accu
    else none
take_subs advance i c_space (v ∷ vs) accu =
    let c = if is_pos 5 (accu_at 1 accu) then 1 else c_space in
    let next = set accu (advance + i + 1 + c) v in
    let rest = take_subs advance (i + 1) c vs next in
    if leb 6 (advance + i + 1 + c) then some accu else elim vs [
      | [] ↦ some next
      | ◌∷◌ _ _ ↦ if leb 6 (i + 1 + advance + 1 + c) then some next else rest
    ]

-- The loop over the parameters, for at most `n` rounds: the array, and how far it went.
unfoldable pub collect : ℕ → Params → ℕ → List ℤ → ℕ → ℕ → Option (List ℤ × ℕ)
unfolding has_sub_params get_sub_params take_subs
collect zero p at accu c_space advance = none
collect (suc n) p at accu c_space advance =
    let next = set accu (advance + c_space) (get_or p.params (at + advance) (pos 0)) in
    let c = if is_pos 0 (accu_at 1 next) then c_space else 1 in
    let rest = collect n p at next c (advance + 1) in
    if not (ltb (at + advance) p.len)
    then some (accu, advance)
    else if not (ltb (advance + c_space) 6)
    then none
    else if has_sub_params p (at + advance)
    then option_then (take_subs advance 0 c_space (get_sub_params p (at + advance)) next)
        (λ subs. some (subs, advance))
    else if is_pos 5 (accu_at 1 next) && leb 2 (advance + c_space)
        || is_pos 2 (accu_at 1 next) && leb 5 (advance + c_space)
    then some (next, advance)
    else if leb p.len (advance + 1 + at) || leb 6 (advance + 1 + c)
    then some (next, advance + 1)
    else rest

abbrev pub minus_one_to_zero : ℤ → ℤ
minus_one_to_zero (negsuc zero) = pos 0
minus_one_to_zero v = v

-- `accu[2:]`, with 0 for the slots that are not set
abbrev pub with_defaults : List ℤ → List ℤ
with_defaults (a ∷ b ∷ rest) = a ∷ b ∷ map minus_one_to_zero rest
with_defaults accu = accu

abbrev pub underline_recolored : (ℕ → ℕ) → AttributeData → AttributeData
unfolding set_underline_color underline_color
underline_recolored color a = record a {
  extended = set_underline_color (color (underline_color a.extended)) a.extended;
}

-- `h.updateAttrColor` with the mode and the values of the array
abbrev pub accu_color : List ℤ → ℕ → ℕ
unfolding update_attr_color
accu_color accu =
    update_attr_color (accu_at 1 accu) (accu_at 3 accu) (accu_at 4 accu) (accu_at 5 accu)

unfoldable pub apply_color : List ℤ → AttributeData → AttributeData
unfolding update_extended
apply_color accu a =
    if is_pos 38 (accu_at 0 accu)
    then record a { fg = accu_color accu a.fg }
    else if is_pos 48 (accu_at 0 accu)
    then record a { bg = accu_color accu a.bg }
    else if is_pos 58 (accu_at 0 accu)
    then update_extended (underline_recolored (accu_color accu) a)
    else a

abbrev pub new_accu : List ℤ
new_accu = pos 0 ∷ pos 0 ∷ negsuc 0 ∷ pos 0 ∷ pos 0 ∷ pos 0 ∷ []

-- The array has room for six rounds.
unfoldable pub extract_color : Params → ℕ → AttributeData → Option (AttributeData × ℕ)
unfolding collect apply_color
extract_color p at a =
    option_then (collect 6 p at new_accu 0 0) (λ r. some (apply_color (with_defaults r.0) a, r.1))

-- The style that parameter 4 asks for: its first sub-parameter, or 1.
unfoldable pub style_of : Params → ℕ → ℤ
unfolding has_sub_params get_sub_params
style_of p i = if has_sub_params p i then get_or (get_sub_params p i) 0 (pos 1) else pos 1

abbrev pub is_color : ℤ → Bool
is_color v = is_pos 38 v || is_pos 48 v || is_pos 58 v

-- The loop of `charAttributes`, from parameter `i` on, for at most `n` rounds.
unfoldable pub sgr_from : ℕ → ℕ → Params → AttributeData → Option AttributeData
unfolding extract_color sgr_plain style_of
sgr_from zero i p a = if ltb i p.len then none else some a
sgr_from (suc n) i p a =
    let v = get_or p.params i (pos 0) in
    let plain = sgr_from n (i + 1) p (sgr_plain (style_of p i) v a) in
    let colored = option_then (extract_color p i a) (λ r. sgr_from n (i + r.1 + 1) p r.0) in
    if not (ltb i p.len) then some a else if is_color v then colored else plain

unfoldable pub char_attributes : Params → AttributeData → Option AttributeData
unfolding sgr_from process_sgr0
char_attributes p a =
    if p.len == 1 && is_pos 0 (get_or p.params 0 (pos 0))
    then some (process_sgr0 a)
    else sgr_from p.len 0 p a
