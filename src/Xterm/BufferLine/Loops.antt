-- ===== src/Xterm/BufferLine/Loops.antt =====
-- internal/xterm/bufferline.go: the loops that fill and shift cells, cell by cell.
use daemontest.Prelude.{
  ℕ, zero, suc, ◌+◌, ◌-◌, ◌≤◌, ◌≡◌, refl, ◌∙◌, Bool, ◌&&◌, arith, ltb, leb, if◌then◌else◌, length,
  length-set,
}
use daemontest.Xterm.Cell.{CellData}
use daemontest.Xterm.BufferLine.{BufferLine, set_cell, load_cell}
use daemontest.Xterm.BufferLine.Bulk.{fill_cells, shift_up, shift_down}
use daemontest.Xterm.BufferLine.View.{view_cell, view_at, view-load_cell, view-set_cell}

set_cell-length :
    (i : ℕ) (c : CellData) (bl : BufferLine) → length ((set_cell i c bl).words) ≡ length bl.words
unfolding set_cell
set_cell-length i c bl = length-set bl.words i _

abbrev pub within : ℕ → ℕ → ℕ → Bool
within lo n j = leb lo j && ltb j (lo + n)

pub view-fill_cells :
    (n i : ℕ) (c : CellData) (bl : BufferLine) (j : ℕ)
    → i + n ≤ length bl.words
    → view_at (fill_cells i n c bl) j ≡ (if within i n j then view_cell c else view_at bl j)
unfolding fill_cells
view-fill_cells zero i c bl j h = ground arith
view-fill_cells (suc n) i c bl j h = ground (
  arith,
  view-fill_cells n (i + 1) c (set_cell i c bl) j,
  view-set_cell i c bl j,
  set_cell-length i c bl,
)

pub view-shift_up :
    (n to from : ℕ) (tmp : CellData) (bl : BufferLine) (j : ℕ)
    → from ≤ to
    → to + n ≤ length bl.words
    → view_at (shift_up to from n tmp bl) j
      ≡ (if within to n j then view_at bl (from + (j - to)) else view_at bl j)
unfolding shift_up
view-shift_up zero to from tmp bl j h l = ground arith
view-shift_up (suc n) to from tmp bl j h l =
    let c = load_cell (from + n) tmp bl in
    let one = set_cell (to + n) c bl in
    ground (
      arith,
      view-shift_up n to from c one j,
      view-set_cell (to + n) c bl j,
      view-set_cell (to + n) c bl (from + (j - to)),
      view-load_cell (from + n) tmp bl,
      set_cell-length (to + n) c bl,
    )

pub view-shift_down :
    (n to from : ℕ) (tmp : CellData) (bl : BufferLine) (j : ℕ)
    → to ≤ from
    → from + n ≤ length bl.words
    → view_at (shift_down to from n tmp bl) j
      ≡ (if within to n j then view_at bl (from + (j - to)) else view_at bl j)
unfolding shift_down
view-shift_down zero to from tmp bl j h l = ground arith
view-shift_down (suc n) to from tmp bl j h l =
    let c = load_cell from tmp bl in
    let one = set_cell to c bl in
    ground (
      arith,
      view-shift_down n (to + 1) (from + 1) c one j,
      view-set_cell to c bl j,
      view-set_cell to c bl (from + 1 + (j - (to + 1))),
      view-load_cell from tmp bl,
      set_cell-length to c bl,
    )

-- A line of the same length and wrapping as another.
pub record SameShape (a b : BufferLine) : Type 0 where
  pub words_kept : length a.words ≡ length b.words
  pub len_kept : a.len ≡ b.len
  pub wrapped_kept : a.is_wrapped ≡ b.is_wrapped

pub SameShape-refl : (a : BufferLine) → SameShape a a
SameShape-refl a = record { words_kept = refl; len_kept = refl; wrapped_kept = refl }

pub SameShape-trans : {a b c : BufferLine} → SameShape a b → SameShape b c → SameShape a c
SameShape-trans h k = record {
  words_kept = h.words_kept ∙ k.words_kept;
  len_kept = h.len_kept ∙ k.len_kept;
  wrapped_kept = h.wrapped_kept ∙ k.wrapped_kept;
}

pub set_cell-SameShape : (i : ℕ) (c : CellData) (bl : BufferLine) → SameShape (set_cell i c bl) bl
unfolding set_cell
set_cell-SameShape i c bl = record {
  words_kept = length-set bl.words i _;
  len_kept = refl;
  wrapped_kept = refl;
}

pub fill_cells-SameShape :
    (n i : ℕ) (c : CellData) (bl : BufferLine) → SameShape (fill_cells i n c bl) bl
unfolding fill_cells
fill_cells-SameShape zero i c bl = SameShape-refl bl
fill_cells-SameShape (suc n) i c bl =
    SameShape-trans (fill_cells-SameShape n (i + 1) c (set_cell i c bl)) (set_cell-SameShape i c bl)

pub shift_up-SameShape :
    (n to from : ℕ) (tmp : CellData) (bl : BufferLine) → SameShape (shift_up to from n tmp bl) bl
unfolding shift_up
shift_up-SameShape zero to from tmp bl = SameShape-refl bl
shift_up-SameShape (suc n) to from tmp bl =
    let c = load_cell (from + n) tmp bl in
    SameShape-trans (shift_up-SameShape n to from c (set_cell (to + n) c bl))
      (set_cell-SameShape (to + n) c bl)

pub shift_down-SameShape :
    (n to from : ℕ) (tmp : CellData) (bl : BufferLine) → SameShape (shift_down to from n tmp bl) bl
unfolding shift_down
shift_down-SameShape zero to from tmp bl = SameShape-refl bl
shift_down-SameShape (suc n) to from tmp bl =
    let c = load_cell from tmp bl in
    SameShape-trans (shift_down-SameShape n (to + 1) (from + 1) c (set_cell to c bl))
      (set_cell-SameShape to c bl)
