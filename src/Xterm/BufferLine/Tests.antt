-- ===== src/Xterm/BufferLine/Tests.antt =====
-- Runs of internal/xterm/bufferline.go.
use daemontest.Prelude.{ℕ, ◌-◌, ◌<◌, ◌≡◌, refl, false, [], ◌∷◌, none, arith}
use daemontest.Xterm.Attr.{zero_ext}
use daemontest.Xterm.Cell.{CellData}
use daemontest.Xterm.BufferLine.{BufferLine, Words}
use daemontest.Xterm.BufferLine.Bulk.{insert_cells, delete_cells}
use daemontest.Xterm.BufferLine.View.{view_at}
use daemontest.Xterm.BufferLine.Loops.{SameShape}
use daemontest.Xterm.BufferLine.Rows.{narrowed, narrowed_before, inserted, deleted}
use daemontest.Xterm.BufferLine.Insert.{insert_cells-inserted}
use daemontest.Xterm.BufferLine.Delete.{widened, delete_cells-deleted}

abbrev word : ℕ → Words
word n = record { content = n; fg = 0; bg = 0 }

-- `a`, a wide character, and `b`: four columns.
abbrev wide_line : BufferLine
wide_line = record {
  words = word 0x40_0061 ∷ word 0x80_4E00 ∷ word 0 ∷ word 0x40_0062 ∷ [];
  combined = λ _. none;
  extended_attrs = λ _. none;
  len = 4;
  is_wrapped = false;
}

abbrev space : CellData
space = record {
  content = 0x40_0020;
  combined_data = [];
  attrs = record { fg = 0; bg = 0; extended = zero_ext };
}

-- Between the two halves of the wide character
insert_cells-inserted_example :
    ((j : ℕ)
      → j < 4
      → view_at (insert_cells 2 1 space wide_line) j
        ≡ narrowed
            (4 - 1)
            space
            (inserted 2 1 space (narrowed_before 2 space (view_at wide_line)))
            j)
    × SameShape (insert_cells 2 1 space wide_line) wide_line
insert_cells-inserted_example = insert_cells-inserted 2 1 space wide_line refl (omega arith)

delete_cells-deleted_example :
    ((j : ℕ)
      → j < 4
      → view_at (delete_cells 1 1 space wide_line) j
        ≡ widened 1 space (narrowed_before 1 space (deleted 4 1 1 space (view_at wide_line))) j)
    × SameShape (delete_cells 1 1 space wide_line) wide_line
delete_cells-deleted_example = delete_cells-deleted 1 1 space wide_line refl (omega arith)
