-- ===== src/Xterm/BufferLine/View.antt =====
-- internal/xterm/bufferline.go: what can be read of a cell, whatever else the words and the maps hold.
use daemontest.Prelude.{
  ℕ, ◌/◌, ◌^◌, ◌<◌, ◌≡◌, ◌≢◌, refl, sym, subst, ◌∙◌, true, false, [], arith, inl, inr, Bool-cases,
  ◌==◌, ==_iff, if◌then◌else◌, length, length-set, get_or-set_self, get_or-set_ne,
}
use daemontest.Prelude.Bits.{◌&◌}
use daemontest.Xterm.Attr.{AttributeData, ExtendedAttrs, zero_ext, bg_flag_has_extended}
use daemontest.Xterm.Cell.{Text, CellData, content_is_combined_mask, content_has_content_mask}
use daemontest.Xterm.BufferLine.{
  Words, no_words, BufferLine, words_at, text_at, ext_or_zero, load_cell, set_cell,
  set_cell_from_codepoint, width_at, has_content,
}

pub record CellView : Type 0 where
  pub content : ℕ
  pub fg : ℕ
  pub bg : ℕ
  pub text : Text
  pub ext : ExtendedAttrs

-- A text and extended attributes count where they are flagged.
abbrev pub view_of : Words → Text → ExtendedAttrs → CellView
view_of w t e = record {
  content = w.content;
  fg = w.fg;
  bg = w.bg;
  text = if w.content & content_is_combined_mask == 0 then [] else t;
  ext = if w.bg & bg_flag_has_extended == 0 then zero_ext else e;
}

abbrev pub words_of : CellData → Words
words_of c = record { content = c.content; fg = c.attrs.fg; bg = c.attrs.bg }

unfoldable pub view_cell : CellData → CellView
view_cell c = view_of (words_of c) c.combined_data c.attrs.extended

unfoldable pub view_at : BufferLine → ℕ → CellView
view_at bl i = view_of (words_at bl i) (text_at bl i) (ext_or_zero (bl.extended_attrs i))

-- The words fill the line.
abbrev pub IsFull : BufferLine → Type 0
IsFull bl = length bl.words ≡ bl.len

pub view-load_cell :
    (i : ℕ) (tmp : CellData) (bl : BufferLine) → view_cell (load_cell i tmp bl) ≡ view_at bl i
unfolding view_cell view_at load_cell
view-load_cell i tmp bl = ground arith

pub set_cell-IsFull :
    (i : ℕ) (c : CellData) (bl : BufferLine) → IsFull bl → IsFull (set_cell i c bl)
unfolding set_cell
set_cell-IsFull i c bl h = length-set bl.words i (words_of c) ∙ h

same : (i : ℕ) → i == i ≡ true
same i = ground arith

apart : (i j : ℕ) → j == i ≡ false → i ≢ j
apart i j f e = ground arith

view-set_self :
    (i : ℕ) (c : CellData) (bl : BufferLine)
    → i < length bl.words
    → view_at (set_cell i c bl) i ≡ view_cell c
unfolding view_cell view_at set_cell
view-set_self i c bl h =
    let e = get_or-set_self bl.words i (words_of c) no_words h in
    elim (Bool-cases (c.content & content_is_combined_mask == 0)) [
      | inl t ↦ elim (Bool-cases (c.attrs.bg & bg_flag_has_extended == 0)) [
        | inl u ↦ rw (e, t, u) refl
        | inr g ↦ rw (e, t, g, same i) refl
      ]
      | inr f ↦ elim (Bool-cases (c.attrs.bg & bg_flag_has_extended == 0)) [
        | inl u ↦ rw (e, f, u, same i) refl
        | inr g ↦ rw (e, f, g, same i) refl
      ]
    ]

view-set_other :
    (i : ℕ) (c : CellData) (bl : BufferLine) (j : ℕ)
    → j == i ≡ false
    → view_at (set_cell i c bl) j ≡ view_at bl j
unfolding view_at set_cell
view-set_other i c bl j f =
    let e = get_or-set_ne bl.words i j (words_of c) no_words (apart i j f) in
    elim (Bool-cases (c.content & content_is_combined_mask == 0)) [
      | inl t ↦ elim (Bool-cases (c.attrs.bg & bg_flag_has_extended == 0)) [
        | inl u ↦ rw (e, t, u) refl
        | inr g ↦ rw (e, t, g, f) refl
      ]
      | inr n ↦ elim (Bool-cases (c.attrs.bg & bg_flag_has_extended == 0)) [
        | inl u ↦ rw (e, n, u, f) refl
        | inr g ↦ rw (e, n, g, f) refl
      ]
    ]

pub view-set_cell :
    (i : ℕ) (c : CellData) (bl : BufferLine) (j : ℕ)
    → i < length bl.words
    → view_at (set_cell i c bl) j ≡ (if j == i then view_cell c else view_at bl j)
view-set_cell i c bl j h = elim (Bool-cases (j == i)) [
  | inl t ↦ rw t (
      subst (λ k. view_at (set_cell i c bl) k ≡ view_cell c) (sym ((==_iff j i).0 t))
        (view-set_self i c bl h))
  | inr f ↦ rw f (view-set_other i c bl j f)
]

-- An empty cell of width 1, with the attributes of `c`.
abbrev pub blank_cell : AttributeData → CellData
blank_cell a = record { attrs = a; content = 2 ^ 22; combined_data = [] }

pub set_cell_from_codepoint-blank :
    (i : ℕ) (a : AttributeData) (bl : BufferLine)
    → set_cell_from_codepoint i 0 1 a bl ≡ set_cell i (blank_cell a) bl
unfolding set_cell_from_codepoint set_cell
set_cell_from_codepoint-blank i a bl = refl

pub width-view : (bl : BufferLine) (i : ℕ) → width_at bl i ≡ (view_at bl i).content / 2 ^ 22
unfolding width_at view_at
width-view bl i = refl

pub has_content-view :
    (bl : BufferLine) (i : ℕ) → has_content bl i ≡ (view_at bl i).content & content_has_content_mask
unfolding has_content view_at
has_content-view bl i = refl
