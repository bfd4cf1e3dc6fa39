-- ===== src/Xterm/BufferLine/Delete.antt =====
-- internal/xterm/bufferline.go: cells deleted, against a row of cells.
use daemontest.Prelude.{
  ℕ, zero, suc, ◌+◌, ◌-◌, ◌/◌, ◌^◌, ◌≤◌, ◌<◌, ◌≡◌, ap, ap₂, ◌∙◌, Bool, ◌&&◌, arith, inl, inr,
  Bool-cases, ltb, ◌==◌, if◌then◌else◌, length,
}
use daemontest.Prelude.Bits.{◌&◌}
use native.Mathlib.Nat.{mod-eq_of_lt}
use daemontest.Xterm.Cell.{CellData, content_has_content_mask}
use daemontest.Xterm.BufferLine.{BufferLine, width_at, has_content}
use daemontest.Xterm.BufferLine.Bulk.{
  shift_down, narrow_before, delete_middle, widen_at, delete_cells, zero_cell,
}
use daemontest.Xterm.BufferLine.View.{
  CellView, IsFull, view_cell, view_at, view-set_cell, blank_cell, set_cell_from_codepoint-blank,
  width-view, has_content-view,
}
use daemontest.Xterm.BufferLine.Loops.{
  SameShape, SameShape-refl, SameShape-trans, set_cell-SameShape, fill_cells-SameShape,
  shift_down-SameShape, view-fill_cells, view-shift_down,
}
use daemontest.Xterm.BufferLine.Rows.{
  Row, narrowed_before, deleted, view-narrow_before, narrow_before-SameShape, narrowed-cong,
}

view-delete_middle :
    (pos n : ℕ) (fill : CellData) (bl : BufferLine) (j : ℕ)
    → IsFull bl
    → pos < bl.len
    → j < bl.len
    → view_at (delete_middle pos n fill bl) j ≡ deleted bl.len pos n fill (view_at bl) j
unfolding delete_middle
view-delete_middle pos n fill bl j full h l = ground (
  arith,
  full,
  view-fill_cells n (bl.len - n) fill (shift_down pos (pos + n) (bl.len - pos - n) zero_cell bl) j,
  view-shift_down (bl.len - pos - n) pos (pos + n) zero_cell bl j,
  (shift_down-SameShape (bl.len - pos - n) pos (pos + n) zero_cell bl).words_kept,
  view-fill_cells (bl.len - pos) pos fill bl j,
  moved,
)
  where
    moved : pos ≤ j → view_at bl (pos + n + (j - pos)) ≡ view_at bl (j + n)
    moved m = ap (view_at bl) (omega arith)

delete_middle-SameShape :
    (pos n : ℕ) (fill : CellData) (bl : BufferLine) → SameShape (delete_middle pos n fill bl) bl
unfolding delete_middle
delete_middle-SameShape pos n fill bl = elim (Bool-cases (ltb n (bl.len - pos))) [
  | inl t ↦ rw t (
      SameShape-trans (fill_cells-SameShape n (bl.len - n) fill _)
        (shift_down-SameShape (bl.len - pos - n) pos (pos + n) zero_cell bl))
  | inr f ↦ rw f (fill_cells-SameShape (bl.len - pos) pos fill bl)
]

-- The second half of a wide character, or nothing.
abbrev pub is_void : CellView → Bool
is_void v = v.content / 2 ^ 22 == 0 && (v.content & content_has_content_mask) == 0

abbrev pub widened : ℕ → CellData → Row → Row
widened i fill r j = if j == i && is_void (r i) then view_cell (blank_cell fill.attrs) else r j

view-widen_at :
    (i : ℕ) (fill : CellData) (bl : BufferLine) (j : ℕ)
    → i < length bl.words
    → view_at (widen_at i fill bl) j ≡ widened i fill (view_at bl) j
unfolding widen_at
view-widen_at i fill bl j h = ground (
  arith,
  width-view bl i,
  has_content-view bl i,
  set_cell_from_codepoint-blank i fill.attrs bl,
  view-set_cell i (blank_cell fill.attrs) bl j,
)

widen_at-SameShape : (i : ℕ) (fill : CellData) (bl : BufferLine) → SameShape (widen_at i fill bl) bl
unfolding widen_at
widen_at-SameShape i fill bl = elim (Bool-cases (width_at bl i == 0 && has_content bl i == 0)) [
  | inl t ↦ rw t (
      rw (set_cell_from_codepoint-blank i fill.attrs bl)
        (set_cell-SameShape i (blank_cell fill.attrs) bl))
  | inr f ↦ rw f (SameShape-refl bl)
]

delete_two : ℕ → ℕ → CellData → BufferLine → BufferLine
delete_two pos n fill bl = narrow_before pos fill (delete_middle pos n fill bl)

delete_cells-parts :
    (pos n : ℕ) (fill : CellData) (bl : BufferLine)
    → pos < bl.len
    → delete_cells pos n fill bl ≡ widen_at pos fill (delete_two pos n fill bl)
unfolding delete_cells delete_two
delete_cells-parts pos n fill bl h =
    ap (λ p. widen_at p fill (narrow_before p fill (delete_middle p n fill bl))) (mod-eq_of_lt h)

narrowed_before-cong :
    (i j : ℕ) (fill : CellData) (r s : Row)
    → ((k : ℕ) → k < i → r k ≡ s k)
    → r j ≡ s j
    → narrowed_before i fill r j ≡ narrowed_before i fill s j
narrowed_before-cong zero j fill r s e f = f
narrowed_before-cong (suc i) j fill r s e f = narrowed-cong i j fill r s (e i (omega arith)) f

view-delete :
    (pos n : ℕ) (fill : CellData) (bl : BufferLine) (j : ℕ)
    → IsFull bl
    → pos < bl.len
    → j < bl.len
    → view_at (delete_two pos n fill bl) j
      ≡ narrowed_before pos fill (deleted bl.len pos n fill (view_at bl)) j
unfolding delete_two
view-delete pos n fill bl j full h l =
    let one = delete_middle pos n fill bl in
    view-narrow_before pos fill one j
      (omega (arith, full, (delete_middle-SameShape pos n fill bl).words_kept))
    ∙ narrowed_before-cong pos j fill (view_at one) (deleted bl.len pos n fill (view_at bl))
        (λ k m. view-delete_middle pos n fill bl k full h (omega arith))
        (view-delete_middle pos n fill bl j full h l)

delete_two-SameShape :
    (pos n : ℕ) (fill : CellData) (bl : BufferLine) → SameShape (delete_two pos n fill bl) bl
unfolding delete_two
delete_two-SameShape pos n fill bl =
    SameShape-trans (narrow_before-SameShape pos fill (delete_middle pos n fill bl))
      (delete_middle-SameShape pos n fill bl)

-- `DeleteCells` at a column of a line whose words fill it: the cells behind the deleted ones move to the
-- left, and new cells fill the end; a wide character that is cut in two at the column is emptied. The
-- line keeps its length.
pub delete_cells-deleted :
    (pos n : ℕ) (fill : CellData) (bl : BufferLine)
    → IsFull bl
    → pos < bl.len
    → ((j : ℕ)
        → j < bl.len
        → view_at (delete_cells pos n fill bl) j
          ≡ widened pos fill (narrowed_before pos fill (deleted bl.len pos n fill (view_at bl))) j)
      × SameShape (delete_cells pos n fill bl) bl
delete_cells-deleted pos n fill bl full h =
    let two = delete_two pos n fill bl in
    let k = delete_two-SameShape pos n fill bl in
    rw (delete_cells-parts pos n fill bl h) (
      λ j l.
          view-widen_at pos fill two j (omega (arith, k.words_kept, full))
          ∙ ap₂ (λ x y. if j == pos && is_void x then view_cell (blank_cell fill.attrs) else y)
              (view-delete pos n fill bl pos full h h) (view-delete pos n fill bl j full h l),
      SameShape-trans (widen_at-SameShape pos fill two) k,
    )
