-- ===== src/Xterm/BufferLine/Bulk.antt =====
-- internal/xterm/bufferline.go: the operations on several cells of a line.
use daemontest.Prelude.{
  ℕ, zero, suc, ◌+◌, ◌-◌, ◌%◌, Bool, not, ◌&&◌, ◌||◌, [], ◌++◌, Option, none, some, ltb, ◌==◌,
  if◌then◌else◌, take, replicate,
}
use daemontest.Xterm.Attr.{zero_ext}
use daemontest.Xterm.Cell.{CellData, cell_data_from_char_data}
use daemontest.Xterm.BufferLine.{
  no_words, BufferLine, width_at, has_content, protected_at, load_cell, set_cell,
  set_cell_from_codepoint,
}

-- `SetCell` of one cell, for `n` indices from `i` on.
unfoldable pub fill_cells : ℕ → ℕ → CellData → BufferLine → BufferLine
unfolding set_cell
fill_cells i zero cell bl = bl
fill_cells i (suc n) cell bl = fill_cells (i + 1) n cell (set_cell i cell bl)

-- The cell that `NewBufferLine` takes for nil.
unfoldable pub null_char_cell : CellData
unfolding cell_data_from_char_data
null_char_cell = cell_data_from_char_data (record { attr = 0; char = []; width = 1; code = 0 })

abbrev pub empty_line : ℕ → Bool → BufferLine
empty_line cols is_wrapped = record {
  words = replicate cols no_words;
  combined = λ _. none;
  extended_attrs = λ _. none;
  len = cols;
  is_wrapped = is_wrapped;
}

unfoldable pub new_buffer_line : ℕ → Option CellData → Bool → BufferLine
unfolding fill_cells null_char_cell
new_buffer_line cols fill_cell is_wrapped =
    fill_cells 0 cols (elim fill_cell [ none ↦ null_char_cell | some c ↦ c ])
      (empty_line cols is_wrapped)

-- `SetCell(to+i, LoadCell(from+i, &tmp))`, for `i` from `n - 1` down to 0.
unfoldable pub shift_up : ℕ → ℕ → ℕ → CellData → BufferLine → BufferLine
unfolding load_cell set_cell
shift_up to from zero tmp bl = bl
shift_up to from (suc i) tmp bl =
    let c = load_cell (from + i) tmp bl in shift_up to from i c (set_cell (to + i) c bl)

-- The same, for `n` values of `i` upwards.
unfoldable pub shift_down : ℕ → ℕ → ℕ → CellData → BufferLine → BufferLine
unfolding load_cell set_cell
shift_down to from zero tmp bl = bl
shift_down to from (suc n) tmp bl =
    let c = load_cell from tmp bl in shift_down (to + 1) (from + 1) n c (set_cell to c bl)

-- `SetCellFromCodepoint(i, 0, 1, …)`, where a wide character stands at `i`.
unfoldable pub narrow_at : ℕ → CellData → BufferLine → BufferLine
unfolding set_cell_from_codepoint width_at
narrow_at i fill bl = if width_at bl i == 2 then set_cell_from_codepoint i 0 1 fill.attrs bl else bl

-- The cell to the left of `pos`, if there is one.
unfoldable pub narrow_before : ℕ → CellData → BufferLine → BufferLine
unfolding narrow_at
narrow_before zero fill bl = bl
narrow_before (suc i) fill bl = narrow_at i fill bl

abbrev pub zero_cell : CellData
zero_cell = record {
  content = 0;
  combined_data = [];
  attrs = record { fg = 0; bg = 0; extended = zero_ext };
}

-- The shift and the new cells of `InsertCells`.
unfoldable pub insert_middle : ℕ → ℕ → CellData → BufferLine → BufferLine
unfolding shift_up fill_cells
insert_middle pos n fill bl =
    if ltb n (bl.len - pos)
    then fill_cells pos n fill (shift_up (pos + n) pos (bl.len - pos - n) zero_cell bl)
    else fill_cells pos (bl.len - pos) fill bl

-- The position is taken modulo the length of a line that is not empty.
unfoldable pub insert_cells : ℕ → ℕ → CellData → BufferLine → BufferLine
unfolding insert_middle narrow_at narrow_before
insert_cells at n fill bl =
    let pos = at % bl.len in
    let l2 = insert_middle pos n fill (narrow_before pos fill bl) in narrow_at (l2.len - 1) fill l2

-- The shift and the new cells of `DeleteCells`.
unfoldable pub delete_middle : ℕ → ℕ → CellData → BufferLine → BufferLine
unfolding shift_down fill_cells
delete_middle pos n fill bl =
    if ltb n (bl.len - pos)
    then fill_cells (bl.len - n) n fill (shift_down pos (pos + n) (bl.len - pos - n) zero_cell bl)
    else fill_cells pos (bl.len - pos) fill bl

-- `SetCellFromCodepoint(i, 0, 1, …)`, where the second half of a wide character stands at `i`.
unfoldable pub widen_at : ℕ → CellData → BufferLine → BufferLine
unfolding width_at has_content set_cell_from_codepoint
widen_at i fill bl =
    if width_at bl i == 0 && has_content bl i == 0
    then set_cell_from_codepoint i 0 1 fill.attrs bl
    else bl

unfoldable pub delete_cells : ℕ → ℕ → CellData → BufferLine → BufferLine
unfolding delete_middle narrow_before widen_at
delete_cells at n fill bl =
    let pos = at % bl.len in
    widen_at pos fill (narrow_before pos fill (delete_middle pos n fill bl))

-- `SetCell` of the cells that are not protected, from `i` on.
unfoldable pub fill_unprotected : ℕ → ℕ → CellData → BufferLine → BufferLine
unfolding set_cell protected_at
fill_unprotected i zero cell bl = bl
fill_unprotected i (suc n) cell bl =
    fill_unprotected (i + 1) n cell (if protected_at bl i == 0 then set_cell i cell bl else bl)

-- Two tests are left out for a cell that is protected.
unfoldable pub free_at : Bool → BufferLine → ℕ → Bool
unfolding protected_at
free_at respect bl i = not respect || protected_at bl i == 0

-- The cells before `start` and at `end`, where a wide character is cut. `end` is not 0.
unfoldable pub cut_ends : ℕ → ℕ → CellData → Bool → BufferLine → BufferLine
unfolding width_at set_cell_from_codepoint free_at
cut_ends start end fill respect bl =
    let l1 =
      if ltb 0 start && width_at bl (start - 1) == 2 && free_at respect bl (start - 1)
      then set_cell_from_codepoint (start - 1) 0 1 fill.attrs bl
      else bl in
    if ltb end bl.len && width_at l1 (end - 1) == 2 && free_at respect l1 end
    then set_cell_from_codepoint end 0 1 fill.attrs l1
    else l1

abbrev pub lesser : ℕ → ℕ → ℕ
lesser a b = if ltb b a then b else a

unfoldable pub replace_cells : ℕ → ℕ → CellData → Bool → BufferLine → BufferLine
unfolding cut_ends fill_cells fill_unprotected
replace_cells start end fill respect bl =
    let l1 = cut_ends start end fill respect bl in
    let n = lesser end bl.len - start in
    if respect then fill_unprotected start n fill l1 else fill_cells start n fill l1

-- A map without the keys from `n` on.
abbrev pub below {ℓ} : {A : Type ℓ} → ℕ → (ℕ → Option A) → ℕ → Option A
below n f j = if ltb j n then f j else none

-- The Boolean result, about the capacity, is left out.
unfoldable pub resize : ℕ → CellData → BufferLine → BufferLine
unfolding fill_cells
resize cols fill bl =
    let grown = record bl { words = bl.words ++ replicate (cols - bl.len) no_words } in
    if cols == bl.len
    then bl
    else if ltb bl.len cols
    then record (fill_cells bl.len (cols - bl.len) fill grown) { len = cols }
    else record bl {
      words = take cols bl.words;
      combined = below cols bl.combined;
      extended_attrs = below cols bl.extended_attrs;
      len = cols;
    }

unfoldable pub fill_line : CellData → Bool → BufferLine → BufferLine
unfolding fill_cells fill_unprotected
fill_line fill respect bl =
    if respect
    then fill_unprotected 0 bl.len fill bl
    else fill_cells 0 bl.len fill (record bl { combined = λ _. none; extended_attrs = λ _. none })

-- `CopyFrom`: everything is that of the other line. The lengths of the slices agree where `Len` does.
unfoldable pub copy_from : BufferLine → BufferLine → BufferLine
copy_from line bl = record bl {
  words = line.words;
  combined = line.combined;
  extended_attrs = line.extended_attrs;
  len = line.len;
  is_wrapped = line.is_wrapped;
}

unfoldable pub clone_line : BufferLine → BufferLine
clone_line bl = record {
  words = bl.words;
  combined = bl.combined;
  extended_attrs = bl.extended_attrs;
  len = bl.len;
  is_wrapped = bl.is_wrapped;
}
