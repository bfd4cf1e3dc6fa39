-- ===== src/Xterm/Unicode/Widths.antt =====
-- internal/xterm/unicode.go: the bounds of widths, and what is packed beside them.
use daemontest.Prelude.{
  ℕ, zero, suc, ◌+◌, ◌≤◌, ◌<◌, ◌≡◌, refl, false, ◌&&◌, List, [], ◌∷◌, arith, inl, inr, Bool-cases,
  ltb, leb, ◌==◌,
}
use daemontest.Xterm.Unicode.Tables.{
  WidthTable, fill, fill_ranges, bmp_wide, bmp_wide_rest, narrow_widths, bmp_combining,
  bmp_width_table,
}
use daemontest.Xterm.Unicode.{
  wcwidth, high_width, char_properties, create_property_value, extract_char_props_width,
  extract_should_join,
}

abbrev AtMostTwo : WidthTable → Type 0
AtMostTwo t = (i : ℕ) → t i ≤ 2

fill-AtMostTwo : (lo hi v : ℕ) (t : WidthTable) → v ≤ 2 → AtMostTwo t → AtMostTwo (fill lo hi v t)
fill-AtMostTwo lo hi v t h a i = elim (Bool-cases (leb lo i && ltb i hi)) [
  | inl y ↦ rw y h
  | inr n ↦ rw n (a i)
]

fill_ranges-AtMostTwo :
    (v : ℕ) (ranges : List (ℕ × ℕ)) (t : WidthTable)
    → v ≤ 2
    → AtMostTwo t
    → AtMostTwo (fill_ranges v ranges t)
fill_ranges-AtMostTwo v [] t h a = a
fill_ranges-AtMostTwo v ((first, last) ∷ rest) t h a =
    fill_ranges-AtMostTwo v rest (fill first (last + 1) v t) h
      (fill-AtMostTwo first (last + 1) v t h a)

narrow_widths-AtMostTwo : AtMostTwo narrow_widths
narrow_widths-AtMostTwo i = ground arith

bmp_width_table-AtMostTwo : AtMostTwo bmp_width_table
unfolding bmp_width_table
bmp_width_table-AtMostTwo = fill_ranges-AtMostTwo 0 bmp_combining _ (omega arith) (
    fill_ranges-AtMostTwo 2 bmp_wide_rest _ (omega arith) (
      fill-AtMostTwo 0x303F 0x3040 1 _ (omega arith)
        (fill_ranges-AtMostTwo 2 bmp_wide narrow_widths (omega arith) narrow_widths-AtMostTwo)))

high_width_le : (c : ℕ) → high_width c ≤ 2
unfolding high_width
high_width_le c = ground arith

pub wcwidth_le : (c : ℕ) → wcwidth c ≤ 2
unfolding wcwidth
wcwidth_le c = ground (arith, bmp_width_table-AtMostTwo c, high_width_le c)

packed :
    (w : ℕ)
    → w ≤ 2
    → (extract_char_props_width (create_property_value 0 w false) ≡ w)
      × (extract_should_join (create_property_value 0 w false) ≡ false)
unfolding extract_char_props_width extract_should_join create_property_value
packed zero h = (refl, refl)
packed (suc zero) h = (refl, refl)
packed (suc (suc zero)) h = (refl, refl)
packed (suc (suc (suc w))) h = absurd (omega arith)

positive : (n : ℕ) → 0 < n → n == 0 ≡ false
positive n h = ground arith

-- A character that takes room joins no cell.
pub char_properties-apart :
    (c preceding : ℕ)
    → 0 < wcwidth c
    → (extract_char_props_width (char_properties c preceding) ≡ wcwidth c)
      × (extract_should_join (char_properties c preceding) ≡ false)
unfolding char_properties
char_properties-apart c preceding h =
    rw (positive (wcwidth c) h) (packed (wcwidth c) (wcwidth_le c))
