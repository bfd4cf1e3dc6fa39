-- ===== src/Xterm/Screen/Print/ReadBack.antt =====
-- internal/xterm/inputhandler.go, bufferline.go: the text of a row after a run of characters is printed on it.
use daemontest.Prelude.{
  ℕ, ◌+◌, ◌-◌, ◌≤◌, ◌<◌, ◌≡◌, refl, sym, ap, ap₂, ◌∙◌, false, List, Option, none, some, arith, map,
  All,
}
use daemontest.Xterm.BufferLine.{BufferLine}
use daemontest.Xterm.Buffer.{Buffer, CharsetService, Charset, translate_buffer_line_to_string}
use daemontest.Xterm.Screen.{Screen, CoreService, active, mark_dirty}
use daemontest.Xterm.Screen.Print.{
  and_then, cursor_line, on_row, translated, cut_left, cut_right, print_codes, finish_run, print,
  going,
}
use daemontest.Xterm.Screen.Print.Laid.{run_width, Laid, Laid-kept, translate-Laid}
use daemontest.Xterm.Screen.Print.Row.{
  Written, Written-trans, widened, cut_left-Written, cut_right-Written,
}
use daemontest.Xterm.Screen.Print.Codes.{IsPlain, plain-TakesRoom, print_codes-Run}
use daemontest.Xterm.Screen.Print.Ready.{
  Ready, KeptBuffer-refl, Kept, Kept-trans, with_row, with_row-Kept, with_row-Ready,
  on_row-with_row,
}
use daemontest.Xterm.Screen.Print.Run.{ChangesMarkers}

pub mark_dirty-Ready :
    (y : ℕ) (s : Screen) {x : ℕ} {l : BufferLine}
    → Ready s x l
    → Ready (mark_dirty y s) x l × Kept s (mark_dirty y s)
unfolding mark_dirty cursor_line
mark_dirty-Ready y s r = (
  record { line = r.line; column = r.column; full = r.full; ring = r.ring },
  record {
    cols_kept = refl;
    core_kept = refl;
    attr_kept = refl;
    charset_kept = refl;
    rows_kept = refl;
    buffer_kept = KeptBuffer-refl (active s);
  },
)

module _ (add : ℕ → ℕ → Buffer → Buffer) (marks : ChangesMarkers add) (charset : Charset) where
  pub print-parts :
      (codes : List ℕ) (join : ℕ) (s : Screen) (l : BufferLine)
      → cursor_line s ≡ some l
      → print add codes join s
        ≡ and_then
            (on_row (cut_left codes (active s).x s.cur_attr_data) (mark_dirty (active s).y s))
            (λ t. finish_run add codes (print_codes add codes join t))
  unfolding print
  print-parts codes join s l e =
      ap
        (λ o. elim o [
          | none ↦ some (join, s)
          | some _ ↦
              and_then
                (on_row (cut_left codes (active s).x s.cur_attr_data) (mark_dirty (active s).y s))
                (λ t. finish_run add codes (print_codes add codes join t))
        ])
        e

  finish_run-parts :
      (codes : List ℕ) (join : ℕ) (s : Screen)
      → finish_run add codes (going join s)
        ≡ and_then
            (on_row (cut_right codes s.cols (active s).x s.cur_attr_data) s)
            (λ t. some (join, mark_dirty (active t).y t))
  unfolding finish_run
  finish_run-parts codes join s = refl

  -- The start of a run: the cell before it.
  pub begin_run-Ready :
      (codes : List ℕ) (s : Screen) {x : ℕ} {l : BufferLine}
      → Ready s x l
      → x ≤ s.cols
      → (t : Screen) × (m : BufferLine) × (on_row
            (cut_left codes (active s).x s.cur_attr_data)
            (mark_dirty (active s).y s)
          ≡ some t)
        × Ready t x m
        × Kept s t
        × Written (x - 1) x l m
  begin_run-Ready codes s {x} {l} r h =
      let attr = s.cur_attr_data in
      let s0 = mark_dirty (active s).y s in
      let (r0, k0) = mark_dirty-Ready (active s).y s r in
      let (m, e, w) = cut_left-Written codes x attr l (omega (arith, r.full)) in
      (
        with_row m s0,
        m,
        on_row-with_row (cut_left codes (active s).x attr) s0 r0
            (ap (λ z. cut_left codes z attr l) r.column ∙ e),
        with_row-Ready m r0 w.shape.words_kept,
        Kept-trans k0 (with_row-Kept m s0),
        w,
      )

  -- The end of a run: the cell behind it.
  pub finish_run-Ready :
      (codes : List ℕ) (join : ℕ) (s : Screen) {x : ℕ} {l : BufferLine}
      → Ready s x l
      → (t : Screen) × (m : BufferLine) × (finish_run add codes (going join s) ≡ some (join, t))
        × Ready t x m
        × Kept s t
        × Written x (x + 1) l m
  finish_run-Ready codes join s {x} {l} r =
      let (m, e, w) = cut_right-Written codes x s.cur_attr_data l in
      let t = with_row m s in
      let (r1, k1) = mark_dirty-Ready (active t).y t (with_row-Ready m r w.shape.words_kept) in
      (
        mark_dirty (active t).y t,
        m,
        finish_run-parts codes join s
            ∙ ap (λ o. and_then o (λ u. some (join, mark_dirty (active u).y u)))
                (on_row-with_row (cut_right codes s.cols (active s).x s.cur_attr_data) s r
                  (ap₂ (λ c z. cut_right codes c z s.cur_attr_data l) (sym r.full) r.column ∙ e)),
        r1,
        Kept-trans (with_row-Kept m s) k1,
        w,
      )

  -- What is left of a run that fits, when `Print` returns.
  Printed : (codes : List ℕ) (x : ℕ) (s : Screen) (l : BufferLine) → Option (ℕ × Screen) → Type 0
  Printed codes x s l o =
      let cs = map (translated charset) codes in
      (j : ℕ) × (t : Screen) × (m : BufferLine) × (o ≡ some (j, t))
      × Ready t (x + run_width cs) m
      × Kept s t
      × Written (x - 1) (x + run_width cs + 1) l m
      × Laid x cs m

  print-Printed :
      (codes : List ℕ) (join : ℕ) (s : Screen) {x : ℕ} {l : BufferLine}
      → Ready s x l
      → s.charset_service.charset ≡ charset
      → s.core.insert_mode ≡ false
      → All (IsPlain charset) codes
      → x + run_width (map (translated charset) codes) ≤ s.cols
      → Printed codes x s l (print add codes join s)
  unfolding Printed
  print-Printed codes join s {x} {l} r e i a fit =
      let cs = map (translated charset) codes in
      let (s1, m1, e1, r1, k1, w1) = begin_run-Ready codes s r (omega arith) in
      let (j, t, m2, e2, q) =
        print_codes-Run add marks charset codes join s1 r1
          (ap CharsetService.charset k1.charset_kept ∙ e)
          (ap CoreService.insert_mode k1.core_kept ∙ i) a (omega (arith, k1.cols_kept)) in
      let (u, m3, e3, r3, k3, w3) = finish_run-Ready codes j t q.ready in
      (
        j,
        u,
        m3,
        print-parts codes join s l r.line
            ∙ ap (λ o. and_then o (λ u. finish_run add codes (print_codes add codes join u))) e1
            ∙ ap (finish_run add codes) e2
            ∙ e3,
        r3,
        Kept-trans k1 (Kept-trans q.kept k3),
        Written-trans (omega arith) (omega arith) (widened (omega arith) (omega arith) w1) (
            Written-trans (omega arith) (omega arith) q.written
              (widened (omega arith) (omega arith) w3)),
        Laid-kept cs x (x + run_width cs) (x + run_width cs + 1) m2 m3 w3 (omega arith)
            (plain-TakesRoom charset codes a) q.laid,
      )

-- A run of characters, none a soft hyphen and none without width, that fits on what is left of the row of
-- the cursor, outside insert mode: `Print` returns. Read back from the column where it begins to the one
-- where the cursor stands then, the row has the text that was printed, as the character set translates
-- it. The cursor stays on its row, and of the row's other cells at most the two next to the run change.
pub print-read_back :
    (add : ℕ → ℕ → Buffer → Buffer) (codes : List ℕ) (join : ℕ) (s : Screen) (l : BufferLine)
    → ChangesMarkers add
    → Ready s (active s).x l
    → (active s).y_base + (active s).y < (active s).lines.len
    → s.core.insert_mode ≡ false
    → All (IsPlain s.charset_service.charset) codes
    → (active s).x + run_width (map (translated s.charset_service.charset) codes) ≤ s.cols
    → (j : ℕ) × (t : Screen) × (m : BufferLine) × (print add codes join s ≡ some (j, t))
      × (cursor_line t ≡ some m)
      × ((active t).x ≡ (active s).x + run_width (map (translated s.charset_service.charset) codes))
      × ((active t).y ≡ (active s).y)
      × (translate_buffer_line_to_string
            ((active s).y_base + (active s).y)
            false
            (active s).x
            (some ((active t).x))
            (active t)
          ≡ map (translated s.charset_service.charset) codes)
      × Written ((active s).x - 1) ((active t).x + 1) l m
unfolding Printed cursor_line
print-read_back add codes join s l marks r inside i a fit =
    let charset = s.charset_service.charset in
    let cs = map (translated charset) codes in
    let (j, t, m, e, q, k, w, d) = print-Printed add marks charset codes join s r refl i a fit in
    let read : translate_buffer_line_to_string ((active s).y_base + (active s).y) false (active s).x
          (some ((active t).x)) (active t)
        ≡ cs =
      rw q.column (
        translate-Laid (active t) ((active s).y_base + (active s).y) (active s).x cs m
          (rw (sym k.buffer_kept.base_kept, sym k.buffer_kept.row_kept) q.line)
          (omega (arith, k.buffer_kept.len_kept)) (plain-TakesRoom charset codes a) d) in
    (j, t, m, e, q.line, q.column, k.buffer_kept.row_kept, read, rw q.column w)
