-- ===== src/Xterm/BufferLine/Insert.antt =====
-- internal/xterm/bufferline.go: cells inserted, deleted and replaced, against a row of cells.
use daemontest.Prelude.{ℕ, ◌+◌, ◌-◌, ◌≤◌, ◌<◌, ◌≡◌, sym, ap, ◌∙◌, arith, inl, inr, Bool-cases, ltb}
use native.Mathlib.Nat.{mod-eq_of_lt}
use daemontest.Xterm.Cell.{CellData}
use daemontest.Xterm.BufferLine.{BufferLine}
use daemontest.Xterm.BufferLine.Bulk.{
  shift_up, narrow_at, narrow_before, insert_middle, insert_cells, zero_cell,
}
use daemontest.Xterm.BufferLine.View.{IsFull, view_at}
use daemontest.Xterm.BufferLine.Loops.{
  SameShape, SameShape-trans, fill_cells-SameShape, shift_up-SameShape, view-fill_cells,
  view-shift_up,
}
use daemontest.Xterm.BufferLine.Rows.{
  narrowed, narrowed_before, inserted, view-narrow_at, narrow_at-SameShape, narrow_before-SameShape,
  narrowed-cong, rows-narrow_before,
}

view-insert_middle :
    (pos n : ℕ) (fill : CellData) (bl : BufferLine) (j : ℕ)
    → IsFull bl
    → pos < bl.len
    → j < bl.len
    → view_at (insert_middle pos n fill bl) j ≡ inserted pos n fill (view_at bl) j
unfolding insert_middle
view-insert_middle pos n fill bl j full h l = ground (
  arith,
  full,
  view-fill_cells n pos fill (shift_up (pos + n) pos (bl.len - pos - n) zero_cell bl) j,
  view-shift_up (bl.len - pos - n) (pos + n) pos zero_cell bl j,
  (shift_up-SameShape (bl.len - pos - n) (pos + n) pos zero_cell bl).words_kept,
  view-fill_cells (bl.len - pos) pos fill bl j,
  moved,
)
  where
    moved : pos + n ≤ j → view_at bl (pos + (j - (pos + n))) ≡ view_at bl (j - n)
    moved m = ap (view_at bl) (omega arith)

insert_middle-SameShape :
    (pos n : ℕ) (fill : CellData) (bl : BufferLine) → SameShape (insert_middle pos n fill bl) bl
unfolding insert_middle
insert_middle-SameShape pos n fill bl = elim (Bool-cases (ltb n (bl.len - pos))) [
  | inl t ↦ rw t (
      SameShape-trans (fill_cells-SameShape n pos fill _)
        (shift_up-SameShape (bl.len - pos - n) (pos + n) pos zero_cell bl))
  | inr f ↦ rw f (fill_cells-SameShape (bl.len - pos) pos fill bl)
]

insert_two : ℕ → ℕ → CellData → BufferLine → BufferLine
insert_two pos n fill bl = insert_middle pos n fill (narrow_before pos fill bl)

insert_two-SameShape :
    (pos n : ℕ) (fill : CellData) (bl : BufferLine) → SameShape (insert_two pos n fill bl) bl
unfolding insert_two
insert_two-SameShape pos n fill bl =
    SameShape-trans (insert_middle-SameShape pos n fill (narrow_before pos fill bl))
      (narrow_before-SameShape pos fill bl)

view-insert :
    (pos n : ℕ) (fill : CellData) (bl : BufferLine) (j : ℕ)
    → IsFull bl
    → pos < bl.len
    → j < bl.len
    → view_at (insert_two pos n fill bl) j
      ≡ inserted pos n fill (narrowed_before pos fill (view_at bl)) j
unfolding insert_two
view-insert pos n fill bl j full h l =
    let one = narrow_before pos fill bl in
    let k = narrow_before-SameShape pos fill bl in
    view-insert_middle pos n fill one j (k.words_kept ∙ full ∙ sym k.len_kept)
      (omega (arith, k.len_kept)) (omega (arith, k.len_kept))
    ∙ ap (λ r. inserted pos n fill r j) (rows-narrow_before pos fill bl (omega (arith, full)))

insert_cells-parts :
    (pos n : ℕ) (fill : CellData) (bl : BufferLine)
    → pos < bl.len
    → insert_cells pos n fill bl ≡ narrow_at (bl.len - 1) fill (insert_two pos n fill bl)
unfolding insert_cells insert_two
insert_cells-parts pos n fill bl h =
    ap
      (λ p.
        let l2 = insert_middle p n fill (narrow_before p fill bl) in narrow_at (l2.len - 1) fill l2)
      (mod-eq_of_lt h)
    ∙ ap (λ l. narrow_at (l - 1) fill (insert_middle pos n fill (narrow_before pos fill bl)))
        (unfold insert_two in (insert_two-SameShape pos n fill bl).len_kept)

-- `InsertCells` at a column of a line whose words fill it: the cells there and behind move to the right,
-- those that leave the line are lost, and the new cells take their place; a wide character that is cut
-- in two, left of the column or at the end of the line, is emptied. The line keeps its length.
pub insert_cells-inserted :
    (pos n : ℕ) (fill : CellData) (bl : BufferLine)
    → IsFull bl
    → pos < bl.len
    → ((j : ℕ)
        → j < bl.len
        → view_at (insert_cells pos n fill bl) j
          ≡ narrowed
              (bl.len - 1)
              fill
              (inserted pos n fill (narrowed_before pos fill (view_at bl)))
              j)
      × SameShape (insert_cells pos n fill bl) bl
insert_cells-inserted pos n fill bl full h =
    let two = insert_two pos n fill bl in
    let k = insert_two-SameShape pos n fill bl in
    rw (insert_cells-parts pos n fill bl h) (
      λ j l.
          view-narrow_at (bl.len - 1) fill two j (omega (arith, k.words_kept, full))
          ∙ narrowed-cong (bl.len - 1) j fill (view_at two)
              (inserted pos n fill (narrowed_before pos fill (view_at bl)))
              (view-insert pos n fill bl (bl.len - 1) full h (omega arith))
              (view-insert pos n fill bl j full h l),
      SameShape-trans (narrow_at-SameShape (bl.len - 1) fill two) k,
    )
