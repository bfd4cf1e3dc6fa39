-- ===== src/Xterm/Attr/Look.antt =====
-- What the packed attributes of internal/xterm/attributedata.go mean: a record of independent parts.
use daemontest.Prelude.{ℕ, ◌/◌, ◌^◌, ◌≡◌, Bool, true, false, not, arith, ◌==◌, if◌then◌else◌}
use daemontest.Prelude.Bits.{◌&◌, ◌∣◌, or-ge}
use daemontest.Xterm.Attr.{
  AttributeData, ExtendedAttrs, attr_cm_mask, attr_cm_p16, attr_cm_p256, attr_pcolor_mask,
  attr_rgb_mask, color_bits, fg_flag_inverse, fg_flag_bold, fg_flag_underline, fg_flag_blink,
  fg_flag_invisible, fg_flag_strikethrough, bg_flag_italic, bg_flag_dim, bg_flag_protected,
  bg_flag_overline, ext_flag_underline_style, ext_flag_variant_offset,
}

pub data Color : Type 0 where
  plain : Color
  palette16 palette256 rgb : ℕ → Color

-- The color that a word's mode and value name.
abbrev pub color_in : ℕ → Color
color_in c =
    if c & attr_cm_mask == 0
    then plain
    else if c & attr_cm_mask == attr_cm_p16
    then palette16 (c & attr_pcolor_mask)
    else if c & attr_cm_mask == attr_cm_p256
    then palette256 (c & attr_pcolor_mask)
    else rgb (c & attr_rgb_mask)

abbrev pub is_on : ℕ → Bool
is_on w = not (w == 0)

pub record FgLook : Type 0 where
  pub color : Color
  pub inverse : Bool
  pub bold : Bool
  pub underline : Bool
  pub blink : Bool
  pub invisible : Bool
  pub strikethrough : Bool

pub record BgLook : Type 0 where
  pub color : Color
  pub italic : Bool
  pub dim : Bool
  pub protected : Bool
  pub overline : Bool

pub record ExtLook : Type 0 where
  pub color : Color
  pub style : ℕ
  pub variant : ℕ
  pub url_id : ℕ

abbrev pub fg_look : ℕ → FgLook
fg_look w = record {
  color = color_in (w & color_bits);
  inverse = is_on (w & fg_flag_inverse);
  bold = is_on (w & fg_flag_bold);
  underline = is_on (w & fg_flag_underline);
  blink = is_on (w & fg_flag_blink);
  invisible = is_on (w & fg_flag_invisible);
  strikethrough = is_on (w & fg_flag_strikethrough);
}

abbrev pub bg_look : ℕ → BgLook
bg_look w = record {
  color = color_in (w & color_bits);
  italic = is_on (w & bg_flag_italic);
  dim = is_on (w & bg_flag_dim);
  protected = is_on (w & bg_flag_protected);
  overline = is_on (w & bg_flag_overline);
}

abbrev pub ext_look : ExtendedAttrs → ExtLook
ext_look e = record {
  color = color_in (e.ext & color_bits);
  style = (e.ext & ext_flag_underline_style) / 2 ^ 26;
  variant = (e.ext & ext_flag_variant_offset) / 2 ^ 29;
  url_id = e.url_id;
}

pub record Look : Type 0 where
  pub fg : FgLook
  pub bg : BgLook
  pub ext : ExtLook

unfoldable pub look : AttributeData → Look
look a = record { fg = fg_look a.fg; bg = bg_look a.bg; ext = ext_look a.extended }

pub is_on-set : (a m : ℕ) → (m == 0) ≡ false → is_on (a ∣ m) ≡ true
is_on-set a m h = ground (arith, or-ge a m)
