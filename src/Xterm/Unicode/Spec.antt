-- ===== src/Xterm/Unicode/Spec.antt =====
-- internal/xterm/unicode.go: the width of every code point, from lists of ranges.
use daemontest.Prelude.{
  ℕ, ◌+◌, ◌≤◌, ◌<◌, ◌≡◌, refl, sym, ap, ap₂, ◌∙◌, Bool, true, false, not, ◌&&◌, ◌||◌, List, [], ◌∷◌,
  arith, inl, inr, Bool-cases, ltb, leb, ◌==◌, if◌then◌else◌, length,
}
use daemontest.Xterm.Unicode.{wcwidth, high_width, bisearch}
use daemontest.Xterm.Unicode.Tables.{
  WidthTable, fill, fill_ranges, bmp_wide, bmp_wide_rest, narrow_widths, bmp_combining,
  high_combining, bmp_width_table,
}
use daemontest.Xterm.Unicode.Search.{listed, ascending, bisearch-listed}

-- The controls of both sets, and DEL.
abbrev controls : List (ℕ × ℕ)
controls = (0, 0x1F) ∷ (0x7F, 0x9F) ∷ []

-- East Asian characters.
abbrev high_wide : List (ℕ × ℕ)
high_wide = (0x2_0000, 0x2_FFFD) ∷ (0x3_0000, 0x3_FFFD) ∷ []

abbrev is_wide : ℕ → Bool
is_wide c = not (c == 0x303F) && (listed c bmp_wide || listed c bmp_wide_rest || listed c high_wide)

abbrev is_combining : ℕ → Bool
is_combining c = listed c bmp_combining || listed c high_combining

-- A control, a combining character, a wide one, or any other one.
unfoldable pub width_by_ranges : ℕ → ℕ
unfolding bmp_combining high_combining bmp_wide bmp_wide_rest
width_by_ranges c = if listed c controls || is_combining c then 0 else if is_wide c then 2 else 1

fill_ranges-listed :
    (v : ℕ) (ranges : List (ℕ × ℕ)) (t : WidthTable) (c : ℕ)
    → fill_ranges v ranges t c ≡ (if listed c ranges then v else t c)
fill_ranges-listed v [] t c = refl
fill_ranges-listed v ((first, last) ∷ rest) t c =
    ground (arith, fill_ranges-listed v rest (fill first (last + 1) v t) c)

-- Where a list begins, and where it ends.
abbrev all_from : ℕ → List (ℕ × ℕ) → Bool
all_from n [] = true
all_from n (r ∷ rest) = leb n (r.0) && all_from n rest

abbrev all_before : ℕ → List (ℕ × ℕ) → Bool
all_before n [] = true
all_before n (r ∷ rest) = ltb (r.1) n && all_before n rest

listed-all_from :
    (n c : ℕ) (ranges : List (ℕ × ℕ)) → all_from n ranges ≡ true → c < n → listed c ranges ≡ false
listed-all_from n c [] h l = refl
listed-all_from n c (r ∷ rest) h l = ground (arith, listed-all_from n c rest)

listed-all_before :
    (n c : ℕ) (ranges : List (ℕ × ℕ)) → all_before n ranges ≡ true → n ≤ c → listed c ranges ≡ false
listed-all_before n c [] h l = refl
listed-all_before n c (r ∷ rest) h l = ground (arith, listed-all_before n c rest)

fill-exception :
    (t : WidthTable) (c : ℕ) → fill 0x303F 0x3040 1 t c ≡ (if c == 0x303F then 1 else t c)
fill-exception t c = ground arith

narrow_widths-controls : (c : ℕ) → narrow_widths c ≡ (if listed c controls then 0 else 1)
narrow_widths-controls c = ground arith

bmp_width_table-parts :
    (c : ℕ)
    → bmp_width_table c
      ≡ fill_ranges 0 bmp_combining
          (fill_ranges 2 bmp_wide_rest
            (fill 0x303F 0x3040 1 (fill_ranges 2 bmp_wide narrow_widths)))
          c
unfolding bmp_width_table
bmp_width_table-parts c = refl

-- The overrides, the last one first.
bmp_width :
    (c : ℕ)
    → bmp_width_table c ≡ (
        if listed c bmp_combining
        then 0
        else if listed c bmp_wide_rest
        then 2
        else if c == 0x303F
        then 1
        else if listed c bmp_wide
        then 2
        else if listed c controls
        then 0
        else 1)
bmp_width c =
    let wide = fill_ranges 2 bmp_wide narrow_widths in
    let taken = fill 0x303F 0x3040 1 wide in
    bmp_width_table-parts c
    ∙ fill_ranges-listed 0 bmp_combining (fill_ranges 2 bmp_wide_rest taken) c
    ∙ ap (λ w. if listed c bmp_combining then 0 else w)
        (fill_ranges-listed 2 bmp_wide_rest taken c
          ∙ ap (λ w. if listed c bmp_wide_rest then 2 else w)
              (fill-exception wide c
                ∙ ap (λ w. if c == 0x303F then 1 else w)
                    (fill_ranges-listed 2 bmp_wide narrow_widths c
                      ∙ ap (λ w. if listed c bmp_wide then 2 else w) (narrow_widths-controls c))))

-- Where the lists begin and end.
combining_from : all_from 0x300 bmp_combining ≡ true
unfolding bmp_combining
combining_from = refl

combining_before : all_before 65536 bmp_combining ≡ true
unfolding bmp_combining
combining_before = refl

high_combining_from : all_from 65536 high_combining ≡ true
unfolding high_combining
high_combining_from = refl

high_combining-ascending : ascending high_combining ≡ true
unfolding high_combining
high_combining-ascending = refl

wide_from : all_from 0x1100 bmp_wide ≡ true
unfolding bmp_wide
wide_from = refl

wide_rest_from : all_from 0xAC00 bmp_wide_rest ≡ true
unfolding bmp_wide_rest
wide_rest_from = refl

wide_before : all_before 65536 bmp_wide ≡ true
unfolding bmp_wide
wide_before = refl

wide_rest_before : all_before 65536 bmp_wide_rest ≡ true
unfolding bmp_wide_rest
wide_rest_before = refl

some_ranges : 0 < length high_combining
unfolding high_combining
some_ranges = omega arith

high_width-parts :
    (c : ℕ)
    → high_width c ≡ (
        if bisearch c high_combining
        then 0
        else if leb 0x2_0000 c && leb c 0x2_FFFD || leb 0x3_0000 c && leb c 0x3_FFFD
        then 2
        else 1)
unfolding high_width
high_width-parts c = refl

high_wide-listed :
    (c : ℕ)
    → leb 0x2_0000 c && leb c 0x2_FFFD || leb 0x3_0000 c && leb c 0x3_FFFD ≡ listed c high_wide
high_wide-listed c = ground arith

high_width-listed :
    (c : ℕ)
    → high_width c ≡ (if listed c high_combining then 0 else if listed c high_wide then 2 else 1)
high_width-listed c =
    high_width-parts c
    ∙ ap₂ (λ b w. if b then 0 else if w then 2 else 1)
        (bisearch-listed c high_combining high_combining-ascending some_ranges) (high_wide-listed c)

wcwidth-parts :
    (c : ℕ)
    → wcwidth c ≡ (
        if ltb c 32
        then 0
        else if ltb c 127
        then 1
        else if ltb c 65536
        then bmp_width_table c
        else high_width c)
unfolding wcwidth
wcwidth-parts c = refl

width_by_ranges-parts :
    (c : ℕ)
    → width_by_ranges c
      ≡ (if listed c controls || is_combining c then 0 else if is_wide c then 2 else 1)
unfolding width_by_ranges
width_by_ranges-parts c = refl

low_width : (c : ℕ) → c < 127 → wcwidth c ≡ width_by_ranges c
low_width c h =
    wcwidth-parts c
    ∙ ground (
      arith,
      listed-all_from 0x300 c bmp_combining combining_from,
      listed-all_from 65536 c high_combining high_combining_from,
      listed-all_from 0x1100 c bmp_wide wide_from,
      listed-all_from 0xAC00 c bmp_wide_rest wide_rest_from,
    )
    ∙ sym (width_by_ranges-parts c)

middle_width : (c : ℕ) → 127 ≤ c → c < 65536 → wcwidth c ≡ width_by_ranges c
middle_width c h k =
    wcwidth-parts c
    ∙ ground (
      arith,
      bmp_width c,
      listed-all_from 65536 c high_combining high_combining_from,
      listed-all_from 0x1100 c bmp_wide wide_from,
      listed-all_from 0xAC00 c bmp_wide_rest wide_rest_from,
    )
    ∙ sym (width_by_ranges-parts c)

upper_width : (c : ℕ) → 65536 ≤ c → wcwidth c ≡ width_by_ranges c
upper_width c h =
    wcwidth-parts c
    ∙ ground (
      arith,
      high_width-listed c,
      listed-all_before 65536 c bmp_combining combining_before,
      listed-all_before 65536 c bmp_wide wide_before,
      listed-all_before 65536 c bmp_wide_rest wide_rest_before,
    )
    ∙ sym (width_by_ranges-parts c)

-- `Wcwidth`, of whatever code point: 0 if it is a control or a combining character of the two lists, else 2 if
-- one of the wide ranges holds it and it is not U+303F, else 1.
pub wcwidth-width_by_ranges : (c : ℕ) → wcwidth c ≡ width_by_ranges c
wcwidth-width_by_ranges c = elim (Bool-cases (ltb c 127)) [
  | inl t ↦ low_width c (ground arith)
  | inr f ↦ elim (Bool-cases (ltb c 65536)) [
    | inl t ↦ middle_width c (ground arith) (ground arith)
    | inr g ↦ upper_width c (ground arith)
  ]
]
