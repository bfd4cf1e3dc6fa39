-- ===== src/Xterm/BufferLine/Rows.antt =====
-- internal/xterm/bufferline.go: a line as a row of cells, and wide characters that are cut.
use daemontest.Prelude.{
  ℕ, zero, suc, ◌+◌, ◌-◌, ◌/◌, ◌^◌, ◌≤◌, ◌<◌, ◌≡◌, refl, ap₂, Bool, ◌&&◌, arith, inl, inr,
  Bool-cases, ltb, ◌==◌, if◌then◌else◌, length,
}
use daemontest.Xterm.Cell.{CellData}
use daemontest.Xterm.BufferLine.{BufferLine, width_at}
use daemontest.Xterm.BufferLine.Bulk.{narrow_at, narrow_before}
use daemontest.Xterm.BufferLine.View.{
  CellView, view_cell, view_at, view-set_cell, blank_cell, set_cell_from_codepoint-blank,
  width-view,
}
use daemontest.Xterm.BufferLine.Loops.{SameShape, SameShape-refl, set_cell-SameShape}

-- A row of cells, by column.
abbrev pub Row : Type 0
Row = ℕ → CellView

abbrev pub is_wide : CellView → Bool
is_wide v = v.content / 2 ^ 22 == 2

-- A wide character at column `i` that lost its other half is emptied.
abbrev pub narrowed : ℕ → CellData → Row → Row
narrowed i fill r j = if j == i && is_wide (r i) then view_cell (blank_cell fill.attrs) else r j

abbrev pub narrowed_before : ℕ → CellData → Row → Row
narrowed_before zero fill r = r
narrowed_before (suc i) fill r = narrowed i fill r

abbrev pub inserted : ℕ → ℕ → CellData → Row → Row
inserted pos n fill r j =
    if ltb j pos then r j else if ltb j (pos + n) then view_cell fill else r (j - n)

abbrev pub deleted : ℕ → ℕ → ℕ → CellData → Row → Row
deleted len pos n fill r j =
    if ltb j pos then r j else if ltb (j + n) len then r (j + n) else view_cell fill

pub view-narrow_at :
    (i : ℕ) (fill : CellData) (bl : BufferLine) (j : ℕ)
    → i < length bl.words
    → view_at (narrow_at i fill bl) j ≡ narrowed i fill (view_at bl) j
unfolding narrow_at
view-narrow_at i fill bl j h = ground (
  arith,
  width-view bl i,
  set_cell_from_codepoint-blank i fill.attrs bl,
  view-set_cell i (blank_cell fill.attrs) bl j,
)

pub view-narrow_before :
    (i : ℕ) (fill : CellData) (bl : BufferLine) (j : ℕ)
    → i ≤ length bl.words
    → view_at (narrow_before i fill bl) j ≡ narrowed_before i fill (view_at bl) j
unfolding narrow_before
view-narrow_before zero fill bl j h = refl
view-narrow_before (suc i) fill bl j h = view-narrow_at i fill bl j h

pub narrow_at-SameShape :
    (i : ℕ) (fill : CellData) (bl : BufferLine) → SameShape (narrow_at i fill bl) bl
unfolding narrow_at
narrow_at-SameShape i fill bl = elim (Bool-cases (width_at bl i == 2)) [
  | inl t ↦ rw t (
      rw (set_cell_from_codepoint-blank i fill.attrs bl)
        (set_cell-SameShape i (blank_cell fill.attrs) bl))
  | inr f ↦ rw f (SameShape-refl bl)
]

pub narrow_before-SameShape :
    (i : ℕ) (fill : CellData) (bl : BufferLine) → SameShape (narrow_before i fill bl) bl
unfolding narrow_before
narrow_before-SameShape zero fill bl = SameShape-refl bl
narrow_before-SameShape (suc i) fill bl = narrow_at-SameShape i fill bl

pub narrowed-cong :
    (i j : ℕ) (fill : CellData) (r s : Row)
    → r i ≡ s i
    → r j ≡ s j
    → narrowed i fill r j ≡ narrowed i fill s j
narrowed-cong i j fill r s e f =
    ap₂ (λ x y. if j == i && is_wide x then view_cell (blank_cell fill.attrs) else y) e f

-- A row changed by `f` from a line that has been changed before.
pub rows-narrow_before :
    (pos : ℕ) (fill : CellData) (bl : BufferLine)
    → pos ≤ length bl.words
    → view_at (narrow_before pos fill bl) ≡ narrowed_before pos fill (view_at bl)
rows-narrow_before pos fill bl h = λ i j. view-narrow_before pos fill bl j h i
