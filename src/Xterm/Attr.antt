-- ===== src/Xterm/Attr.antt =====
-- internal/xterm/attributedata.go: the attributes of a cell, packed in words of 32 bits. An extended
-- record behind a nil pointer is the zero record, as `extended` makes it; a URL's number is not
-- negative.
pub mod Look
use Prim.Native.Nat.{bit_xor}
use daemontest.Prelude.{
  ℕ, ◌+◌, ◌-◌, ◌*◌, ◌/◌, ◌%◌, ◌^◌, Bool, true, false, not, ◌&&◌, ◌||◌, ◌==◌, if◌then◌else◌,
}
use daemontest.Prelude.Int.{ℤ, pos, negsuc, signed32}
use daemontest.Prelude.Bits.{◌&◌, ◌∣◌, mask_not}

-- The masks of constants.go
abbrev pub attr_pcolor_mask : ℕ
attr_pcolor_mask = 0xFF

abbrev pub attr_cm_mask : ℕ
attr_cm_mask = 0x300_0000

abbrev pub attr_cm_p16 : ℕ
attr_cm_p16 = 0x100_0000

abbrev pub attr_cm_p256 : ℕ
attr_cm_p256 = 0x200_0000

abbrev pub attr_cm_rgb : ℕ
attr_cm_rgb = 0x300_0000

abbrev pub attr_rgb_mask : ℕ
attr_rgb_mask = 0xFF_FFFF

abbrev pub fg_flag_inverse : ℕ
fg_flag_inverse = 0x400_0000

abbrev pub fg_flag_bold : ℕ
fg_flag_bold = 0x800_0000

abbrev pub fg_flag_underline : ℕ
fg_flag_underline = 0x1000_0000

abbrev pub fg_flag_blink : ℕ
fg_flag_blink = 0x2000_0000

abbrev pub fg_flag_invisible : ℕ
fg_flag_invisible = 0x4000_0000

abbrev pub fg_flag_strikethrough : ℕ
fg_flag_strikethrough = 0x8000_0000

abbrev pub bg_flag_italic : ℕ
bg_flag_italic = 0x400_0000

abbrev pub bg_flag_dim : ℕ
bg_flag_dim = 0x800_0000

abbrev pub bg_flag_has_extended : ℕ
bg_flag_has_extended = 0x1000_0000

abbrev pub bg_flag_protected : ℕ
bg_flag_protected = 0x2000_0000

abbrev pub bg_flag_overline : ℕ
bg_flag_overline = 0x4000_0000

abbrev pub ext_flag_underline_style : ℕ
ext_flag_underline_style = 0x1C00_0000

abbrev pub ext_flag_variant_offset : ℕ
ext_flag_variant_offset = 0xE000_0000

-- `UnderlineStyleDashed`
abbrev pub underline_style_dashed : ℕ
underline_style_dashed = 5

pub record ExtendedAttrs : Type 0 where
  pub ext : ℕ
  pub url_id : ℕ

abbrev pub zero_ext : ExtendedAttrs
zero_ext = record { ext = 0; url_id = 0 }

-- `Ext`: a URL makes the style dashed.
unfoldable pub ext_value : ExtendedAttrs → ℕ
ext_value e =
    if e.url_id == 0
    then e.ext
    else e.ext & mask_not ext_flag_underline_style ∣ underline_style_dashed * 2 ^ 26

unfoldable pub underline_style : ExtendedAttrs → ℕ
underline_style e =
    if e.url_id == 0 then (e.ext & ext_flag_underline_style) / 2 ^ 26 else underline_style_dashed

unfoldable pub set_underline_style : ℕ → ExtendedAttrs → ExtendedAttrs
set_underline_style v e = record e {
  ext =
      e.ext & mask_not ext_flag_underline_style ∣ (v * 2 ^ 26 % 2 ^ 32 & ext_flag_underline_style);
}

abbrev pub color_bits : ℕ
color_bits = 0x3FF_FFFF

-- `AttrCMMask | AttrRGBMask` is `color_bits`.
unfoldable pub underline_color : ExtendedAttrs → ℕ
underline_color e = e.ext & color_bits

unfoldable pub set_underline_color : ℕ → ExtendedAttrs → ExtendedAttrs
set_underline_color v e = record e { ext = e.ext & mask_not color_bits ∣ (v & color_bits) }

-- `int32(…) >> 29` keeps the sign.
abbrev pub shift_29 : ℤ → ℤ
shift_29 (pos n) = pos (n / 2 ^ 29)
shift_29 (negsuc n) = negsuc (n / 2 ^ 29)

-- `val ^ (^int32(0) << 3)`, of a negative `val`: the xor with -8, in two's complement.
unfoldable pub underline_variant_offset : ExtendedAttrs → ℤ
underline_variant_offset e = elim (shift_29 (signed32 (e.ext & ext_flag_variant_offset))) [
  | pos n ↦ pos n
  | negsuc n ↦ pos (bit_xor n 7)
]

unfoldable pub set_underline_variant_offset : ℕ → ExtendedAttrs → ExtendedAttrs
set_underline_variant_offset v e = record e {
  ext = e.ext & mask_not ext_flag_variant_offset ∣ (v * 2 ^ 29 % 2 ^ 32 & ext_flag_variant_offset);
}

unfoldable pub is_empty : ExtendedAttrs → Bool
unfolding underline_style
is_empty e = underline_style e == 0 && e.url_id == 0

pub record AttributeData : Type 0 where
  pub fg : ℕ
  pub bg : ℕ
  pub extended : ExtendedAttrs

unfoldable pub default_attr_data : AttributeData
default_attr_data = record { fg = 0; bg = 0; extended = zero_ext }

abbrev pub ColorRgb : Type 0
ColorRgb = ℕ × ℕ × ℕ

unfoldable pub to_color_rgb : ℕ → ColorRgb
to_color_rgb v = (v / 2 ^ 16 & 0xFF, v / 2 ^ 8 & 0xFF, v & 0xFF)

unfoldable pub from_color_rgb : ColorRgb → ℕ
from_color_rgb (r, g, b) = (r & 0xFF) * 2 ^ 16 ∣ (g & 0xFF) * 2 ^ 8 ∣ (b & 0xFF)

-- The flags, not zero if set.
unfoldable pub is_inverse : AttributeData → ℕ
is_inverse a = a.fg & fg_flag_inverse

unfoldable pub is_bold : AttributeData → ℕ
is_bold a = a.fg & fg_flag_bold

unfoldable pub is_blink : AttributeData → ℕ
is_blink a = a.fg & fg_flag_blink

unfoldable pub is_invisible : AttributeData → ℕ
is_invisible a = a.fg & fg_flag_invisible

unfoldable pub is_strikethrough : AttributeData → ℕ
is_strikethrough a = a.fg & fg_flag_strikethrough

unfoldable pub is_italic : AttributeData → ℕ
is_italic a = a.bg & bg_flag_italic

unfoldable pub is_dim : AttributeData → ℕ
is_dim a = a.bg & bg_flag_dim

unfoldable pub is_protected : AttributeData → ℕ
is_protected a = a.bg & bg_flag_protected

unfoldable pub is_overline : AttributeData → ℕ
is_overline a = a.bg & bg_flag_overline

unfoldable pub has_extended_attrs : AttributeData → ℕ
has_extended_attrs a = a.bg & bg_flag_has_extended

unfoldable pub is_underline : AttributeData → ℕ
unfolding has_extended_attrs underline_style
is_underline a =
    if not (has_extended_attrs a == 0) && not (underline_style a.extended == 0)
    then 1
    else a.fg & fg_flag_underline

-- A word's color mode, and the tests and the value that depend on it: `GetFgColorMode`, `IsFgRGB`,
-- `IsFgDefault`, `IsFgPalette` and `GetFgColor` at the `fg` word, and those of the background at `bg`.
abbrev pub color_mode : ℕ → ℕ
color_mode w = w & attr_cm_mask

abbrev pub is_rgb : ℕ → Bool
is_rgb w = color_mode w == attr_cm_rgb

abbrev pub is_default : ℕ → Bool
is_default w = color_mode w == 0

abbrev pub is_palette : ℕ → Bool
is_palette w = color_mode w == attr_cm_p16 || color_mode w == attr_cm_p256

-- The `switch` on the mode: `other` is its default.
abbrev pub color_or : ℤ → ℕ → ℤ
color_or other w =
    if is_palette w
    then pos (w & attr_pcolor_mask)
    else if is_rgb w
    then pos (w & attr_rgb_mask)
    else other

unfoldable pub get_fg_color : AttributeData → ℤ
get_fg_color a = color_or (negsuc 0) a.fg

unfoldable pub get_bg_color : AttributeData → ℤ
get_bg_color a = color_or (negsuc 0) a.bg

unfoldable pub is_attribute_default : AttributeData → Bool
is_attribute_default a = a.fg == 0 && a.bg == 0

unfoldable pub update_extended : AttributeData → AttributeData
unfolding is_empty
update_extended a =
    if is_empty a.extended
    then record a { bg = a.bg & mask_not bg_flag_has_extended }
    else record a { bg = a.bg ∣ bg_flag_has_extended }

-- `(a.Bg&BgFlagHasExtended) != 0 && ^a.extended().UnderlineColor() != 0`
unfoldable pub own_underline_color : AttributeData → Bool
unfolding underline_color has_extended_attrs
own_underline_color a =
    not (has_extended_attrs a == 0) && not (mask_not (underline_color a.extended) == 0)

unfoldable pub get_underline_color : AttributeData → ℤ
unfolding own_underline_color get_fg_color underline_color
get_underline_color a =
    if own_underline_color a
    then color_or (get_fg_color a) (underline_color a.extended)
    else get_fg_color a

-- The word that the tests of the underline's color read.
unfoldable pub underline_word : AttributeData → ℕ
unfolding own_underline_color underline_color
underline_word a = if own_underline_color a then underline_color a.extended else a.fg

unfoldable pub get_underline_color_mode : AttributeData → ℕ
unfolding underline_word
get_underline_color_mode a = color_mode (underline_word a)

unfoldable pub is_underline_color_rgb : AttributeData → Bool
unfolding underline_word
is_underline_color_rgb a = is_rgb (underline_word a)

unfoldable pub is_underline_color_palette : AttributeData → Bool
unfolding underline_word
is_underline_color_palette a = is_palette (underline_word a)

unfoldable pub is_underline_color_default : AttributeData → Bool
unfolding underline_word
is_underline_color_default a = is_default (underline_word a)

unfoldable pub get_underline_style : AttributeData → ℕ
unfolding underline_style
get_underline_style a =
    if a.fg & fg_flag_underline == 0
    then 0
    else if a.bg & bg_flag_has_extended == 0
    then 1
    else underline_style a.extended

unfoldable pub get_underline_variant_offset : AttributeData → ℤ
unfolding underline_variant_offset
get_underline_variant_offset a = underline_variant_offset a.extended
