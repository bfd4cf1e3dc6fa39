-- ===== src/Xterm/Cell.antt =====
-- internal/xterm/celldata.go, types.go: one cell. A string is the list of its code points.
pub mod RoundTrip
mod Tests
use daemontest.Prelude.{
  ℕ, zero, suc, ◌+◌, ◌*◌, ◌/◌, ◌%◌, ◌^◌, Bool, true, false, not, ◌&&◌, List, [], ◌∷◌, ◌==◌,
  if◌then◌else◌,
}
use daemontest.Prelude.Int.{ℤ, pos, negsuc}
use daemontest.Prelude.Bits.{◌&◌, ◌∣◌}
use daemontest.Xterm.Attr.{
  AttributeData, default_attr_data, get_fg_color, get_bg_color, color_mode, is_inverse, is_bold,
  is_underline, is_overline, is_blink, is_invisible, is_italic, is_dim, is_strikethrough,
  get_underline_style, get_underline_color,
}

abbrev pub Text : Type 0
Text = List ℕ

abbrev pub content_codepoint_mask : ℕ
content_codepoint_mask = 0x1F_FFFF

abbrev pub content_is_combined_mask : ℕ
content_is_combined_mask = 0x20_0000

abbrev pub content_has_content_mask : ℕ
content_has_content_mask = 0x3F_FFFF

abbrev pub content_width_mask : ℕ
content_width_mask = 0xC0_0000

-- `uint32(width) << ContentWidthShift`
abbrev pub width_bits : ℕ → ℕ
width_bits w = w * 2 ^ 22 % 2 ^ 32

-- The tuple of a cell's attribute, text, width and code.
pub record CharData : Type 0 where
  pub attr : ℕ
  pub char : Text
  pub width : ℕ
  pub code : ℕ

pub record CellData : Type 0 where
  pub attrs : AttributeData
  pub content : ℕ
  pub combined_data : Text

unfoldable pub new_cell_data : CellData
unfolding default_attr_data
new_cell_data = record { attrs = default_attr_data; content = 0; combined_data = [] }

-- `SetFromCharData`: one code point is stored in the word, more of them beside it.
unfoldable pub set_from_char_data : CharData → CellData → CellData
set_from_char_data cd c =
    let named = record c { attrs = record (c.attrs) { fg = cd.attr; bg = 0 } } in
    elim cd.char [
      | [] ↦ record named { content = width_bits cd.width }
      | ◌∷◌ r [] ↦ record named { content = r ∣ width_bits cd.width }
      | ◌∷◌ r (◌∷◌ _ _) ↦ record named {
        combined_data = cd.char;
        content = content_is_combined_mask ∣ width_bits cd.width;
      }
    ]

unfoldable pub cell_data_from_char_data : CharData → CellData
unfolding set_from_char_data new_cell_data
cell_data_from_char_data cd = set_from_char_data cd new_cell_data

unfoldable pub is_combined : CellData → ℕ
is_combined c = c.content & content_is_combined_mask

unfoldable pub get_width : CellData → ℕ
get_width c = c.content / 2 ^ 22

-- The text of a word of content, `combined` if that is flagged.
abbrev pub text_of : ℕ → Text → Text
text_of content combined =
    if content & content_is_combined_mask == 0
    then if content & content_codepoint_mask == 0
      then []
      else (content & content_codepoint_mask) ∷ []
    else combined

abbrev pub last_of : ℕ → Text → ℕ
last_of d [] = d
last_of d (r ∷ rs) = last_of r rs

-- The code of a word of content: of a text, its last code point.
abbrev pub code_of : ℕ → Text → ℕ
code_of content combined =
    if content & content_is_combined_mask == 0
    then content & content_codepoint_mask
    else last_of 0 combined

unfoldable pub get_chars : CellData → Text
get_chars c = text_of c.content c.combined_data

unfoldable pub get_code : CellData → ℕ
get_code c = code_of c.content c.combined_data

unfoldable pub get_as_char_data : CellData → CharData
unfolding get_chars get_width get_code
get_as_char_data c = record {
  attr = c.attrs.fg;
  char = get_chars c;
  width = get_width c;
  code = get_code c;
}

-- `==` on Go's int
abbrev pub int_eq : ℤ → ℤ → Bool
int_eq (pos m) (pos n) = m == n
int_eq (negsuc m) (negsuc n) = m == n
int_eq _ _ = false

unfoldable pub attributes_equal : AttributeData → AttributeData → Bool
unfolding get_fg_color get_bg_color is_inverse is_bold is_underline is_overline is_blink
    is_invisible is_italic is_dim is_strikethrough get_underline_style get_underline_color
attributes_equal a b =
    color_mode a.fg == color_mode b.fg
    && int_eq (get_fg_color a) (get_fg_color b)
    && color_mode a.bg == color_mode b.bg
    && int_eq (get_bg_color a) (get_bg_color b)
    && is_inverse a == is_inverse b
    && is_bold a == is_bold b
    && is_underline a == is_underline b
    && is_overline a == is_overline b
    && is_blink a == is_blink b
    && is_invisible a == is_invisible b
    && is_italic a == is_italic b
    && is_dim a == is_dim b
    && is_strikethrough a == is_strikethrough b
    && get_underline_style a == get_underline_style b
    && int_eq (get_underline_color a) (get_underline_color b)
