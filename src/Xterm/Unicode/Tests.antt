-- ===== src/Xterm/Unicode/Tests.antt =====
-- internal/xterm/unicode.go: widths at single code points.
use daemontest.Prelude.{◌≡◌, refl, true, false, [], ◌∷◌, none, some}
use daemontest.Xterm.Unicode.{
  bisearch, wcwidth, char_properties, create_property_value, extract_char_props_width,
  get_string_cell_width,
}
use daemontest.Xterm.Unicode.Tables.{
  bmp_combining, high_combining, bmp_width_table, bmp_wide, bmp_wide_rest,
}
use daemontest.Xterm.Unicode.Spec.{width_by_ranges, wcwidth-width_by_ranges}

wcwidth-width_by_ranges_example : wcwidth 0x303F ≡ width_by_ranges 0x303F
wcwidth-width_by_ranges_example = wcwidth-width_by_ranges 0x303F

-- U+303F stands among wide characters.
half_fill_space : width_by_ranges 0x303F ≡ 1
unfolding width_by_ranges
half_fill_space = refl

in_last_half : bisearch 0x1_D180 high_combining ≡ true
unfolding bisearch high_combining
in_last_half = refl

wide_ideograph : wcwidth 0x4E00 ≡ 2
unfolding wcwidth bmp_width_table bmp_combining bmp_wide bmp_wide_rest
wide_ideograph = refl

combining_accent : wcwidth 0x301 ≡ 0
unfolding wcwidth bmp_width_table bmp_combining bmp_wide bmp_wide_rest
combining_accent = refl

-- An ideograph, an accent that joins it, and a byte that is no rune.
mixed_width : get_string_cell_width (some 0x4E00 ∷ some 0x301 ∷ none ∷ []) ≡ 3
unfolding get_string_cell_width wcwidth bmp_width_table bmp_combining bmp_wide bmp_wide_rest
mixed_width = refl

joined_accent :
    char_properties 0x301 (create_property_value 0 2 false) ≡ create_property_value 0 2 true
unfolding char_properties wcwidth bmp_width_table bmp_combining bmp_wide bmp_wide_rest
    create_property_value extract_char_props_width
joined_accent = refl
