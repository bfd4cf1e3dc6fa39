-- ===== src/Xterm/Screen/Print/Row.antt =====
-- internal/xterm/inputhandler.go, bufferline.go: the cells of a row that a character is written to.
use daemontest.Prelude.{
  ℕ, zero, suc, ◌+◌, ◌-◌, ◌^◌, ◌≤◌, ◌<◌, ◌≡◌, refl, ap, ◌∙◌, true, ◌&&◌, List, [], ◌∷◌, Option,
  some, arith, inl, inr, Bool-cases, ltb, leb, ◌==◌, length,
}
use daemontest.Prelude.Bits.{◌∣◌}
use daemontest.Xterm.Attr.{AttributeData}
use daemontest.Xterm.Cell.{CellData, width_bits}
use daemontest.Xterm.Cell.RoundTrip.{is_single}
use daemontest.Xterm.BufferLine.{
  BufferLine, set_cell, set_cell_from_codepoint, width_at, has_content,
}
use daemontest.Xterm.BufferLine.Bulk.{narrow_at, narrow_before, widen_at}
use daemontest.Xterm.Buffer.{get_null_cell}
use daemontest.Xterm.BufferLine.View.{
  CellView, view_cell, view_at, view-set_cell, blank_cell, set_cell_from_codepoint-blank,
}
use daemontest.Xterm.BufferLine.Loops.{
  SameShape, SameShape-refl, SameShape-trans, set_cell-SameShape,
}
use daemontest.Xterm.Screen.Print.{write_cell, write_stubs, write_char, cut_left, cut_right}

-- A row that differs from another at most from column `lo` to before column `hi`.
pub record Written (lo hi : ℕ) (l m : BufferLine) : Type 0 where
  pub shape : SameShape m l
  pub before : (j : ℕ) → j < lo → view_at m j ≡ view_at l j
  pub behind : (j : ℕ) → hi ≤ j → view_at m j ≡ view_at l j

-- A row is returned, and it has the property.
abbrev pub Makes : Option BufferLine → (BufferLine → Type 0) → Type 0
Makes o P = (m : BufferLine) × (o ≡ some m) × P m

pub Written-refl : (lo hi : ℕ) (l : BufferLine) → Written lo hi l l
Written-refl lo hi l = record {
  shape = SameShape-refl l;
  before = λ j h. refl;
  behind = λ j h. refl;
}

pub Written-trans :
    {lo mid hi : ℕ} {l m k : BufferLine}
    → lo ≤ mid
    → mid ≤ hi
    → Written lo mid l m
    → Written mid hi m k
    → Written lo hi l k
Written-trans a b v w = record {
  shape = SameShape-trans w.shape v.shape;
  before = λ j h. w.before j (omega arith) ∙ v.before j h;
  behind = λ j h. w.behind j h ∙ v.behind j (omega arith);
}

pub widened :
    {lo hi from to : ℕ} {l m : BufferLine}
    → from ≤ lo
    → hi ≤ to
    → Written lo hi l m
    → Written from to l m
widened g h w = record {
  shape = w.shape;
  before = λ j a. w.before j (omega arith);
  behind = λ j a. w.behind j (omega arith);
}

-- A cell with one code point.
abbrev cell_of : ℕ → ℕ → AttributeData → CellData
cell_of code width attr = record {
  attrs = attr;
  content = code ∣ width_bits width;
  combined_data = [];
}

set_cell_from_codepoint-cell :
    (i code width : ℕ) (attr : AttributeData) (l : BufferLine)
    → code < 2 ^ 21
    → width < 4
    → set_cell_from_codepoint i code width attr l ≡ set_cell i (cell_of code width attr) l
unfolding set_cell_from_codepoint set_cell
set_cell_from_codepoint-cell i code width attr l hc hw = rw (is_single code width hc hw) refl

view-cell_of :
    (code width : ℕ) (attr : AttributeData)
    → (view_cell (cell_of code width attr)).content ≡ code ∣ width_bits width
unfolding view_cell
view-cell_of code width attr = refl

set_cell-Written :
    (x : ℕ) (c : CellData) (l : BufferLine)
    → x < length l.words
    → Written x (x + 1) l (set_cell x c l)
set_cell-Written x c l h = record {
  shape = set_cell-SameShape x c l;
  before = λ j a. ground (arith, view-set_cell x c l j h);
  behind = λ j a. ground (arith, view-set_cell x c l j h);
}

set_cell-content :
    (x : ℕ) (c : CellData) (l : BufferLine)
    → x < length l.words
    → view_at (set_cell x c l) x ≡ view_cell c
set_cell-content x c l h = ground (arith, view-set_cell x c l x h)

write_cell-Written :
    (x code width : ℕ) (attr : AttributeData) (l : BufferLine)
    → x < length l.words
    → code < 2 ^ 21
    → width < 4
    → Makes
        (write_cell x code width attr l)
        (λ m. Written x (x + 1) l m × ((view_at m x).content ≡ code ∣ width_bits width))
unfolding write_cell
write_cell-Written x code width attr l h hc hw =
    let c = cell_of code width attr in
    let e = set_cell_from_codepoint-cell x code width attr l hc hw in
    let inside : ltb x (length l.words) ≡ true = ground arith in
    (
      set_cell x c l,
      rw inside (ap some e),
      (
        set_cell-Written x c l h,
        ap CellView.content (set_cell-content x c l h) ∙ view-cell_of code width attr,
      ),
    )

write_stubs-Written :
    (n x : ℕ) (attr : AttributeData) (l : BufferLine)
    → x + n ≤ length l.words
    → Makes (write_stubs n x attr l) (Written x (x + n) l)
unfolding write_stubs
write_stubs-Written zero x attr l h = (l, refl, Written-refl x (x + 0) l)
write_stubs-Written (suc n) x attr l h =
    let (m, e, (w, c)) =
      write_cell-Written x 0 0 attr l (omega arith) (omega arith) (omega arith) in
    let (k, f, v) = write_stubs-Written n (x + 1) attr m (omega (arith, w.shape.words_kept)) in
    (k, rw e f, widened (omega arith) (omega arith) (Written-trans (omega arith) (omega arith) w v))

-- `n` columns in all, for a character of that width.
pub write_char-Written :
    (x code width : ℕ) (attr : AttributeData) (l : BufferLine)
    → x + width ≤ length l.words
    → code < 2 ^ 21
    → 0 < width
    → width < 4
    → Makes
        (write_char x code width attr l)
        (λ m. Written x (x + width) l m × ((view_at m x).content ≡ code ∣ width_bits width))
unfolding write_char
write_char-Written x code width attr l h hc hp hw =
    let (m, e, (w, c)) = write_cell-Written x code width attr l (omega arith) hc hw in
    let (k, f, v) =
      write_stubs-Written (width - 1) (x + 1) attr m (omega (arith, w.shape.words_kept)) in
    (
      k,
      rw e f,
      (
        widened (omega arith) (omega arith) (Written-trans (omega arith) (omega arith) w v),
        ap CellView.content (v.before x (omega arith)) ∙ c,
      ),
    )

blank-Written :
    (i : ℕ) (cell : CellData) (l : BufferLine)
    → i < length l.words
    → Written i (i + 1) l (set_cell_from_codepoint i 0 1 cell.attrs l)
blank-Written i cell l h =
    rw (set_cell_from_codepoint-blank i cell.attrs l)
      (set_cell-Written i (blank_cell cell.attrs) l h)

narrow_before-Written :
    (x : ℕ) (cell : CellData) (l : BufferLine)
    → x ≤ length l.words
    → Written (x - 1) x l (narrow_before x cell l)
unfolding narrow_before narrow_at
narrow_before-Written zero cell l h = Written-refl 0 0 l
narrow_before-Written (suc i) cell l h = elim (Bool-cases (width_at l i == 2)) [
  | inl t ↦ rw t (widened (omega arith) (omega arith) (blank-Written i cell l (omega arith)))
  | inr f ↦ rw f (Written-refl (suc i - 1) (suc i) l)
]

widen_at-Written :
    (x : ℕ) (cell : CellData) (l : BufferLine)
    → x < length l.words
    → Written x (x + 1) l (widen_at x cell l)
unfolding widen_at
widen_at-Written x cell l h = elim (Bool-cases (width_at l x == 0 && has_content l x == 0)) [
  | inl t ↦ rw t (blank-Written x cell l h)
  | inr f ↦ rw f (Written-refl x (x + 1) l)
]

pub cut_left-Written :
    (codes : List ℕ) (x : ℕ) (attr : AttributeData) (l : BufferLine)
    → x ≤ length l.words
    → Makes (cut_left codes x attr l) (Written (x - 1) x l)
unfolding cut_left
cut_left-Written [] x attr l h = (l, refl, Written-refl (x - 1) x l)
cut_left-Written (c ∷ cs) x attr l h =
    let inside : leb x (length l.words) ≡ true = ground arith in
    (
      narrow_before x (get_null_cell attr) l,
      rw inside refl,
      narrow_before-Written x (get_null_cell attr) l h,
    )

pub cut_right-Written :
    (codes : List ℕ) (x : ℕ) (attr : AttributeData) (l : BufferLine)
    → Makes (cut_right codes (length l.words) x attr l) (Written x (x + 1) l)
unfolding cut_right
cut_right-Written [] x attr l = (l, refl, Written-refl x (x + 1) l)
cut_right-Written (c ∷ cs) x attr l = elim (Bool-cases (leb (length l.words) x)) [
  | inl t ↦ rw t ((l, refl, Written-refl x (x + 1) l))
  | inr f ↦
      let inside : ltb x (length l.words) ≡ true = ground arith in
      rw (f, inside)
        ((
          widen_at x (get_null_cell attr) l,
          refl,
          widen_at-Written x (get_null_cell attr) l (ground arith),
        ))
]
