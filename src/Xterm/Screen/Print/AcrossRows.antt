-- ===== src/Xterm/Screen/Print/AcrossRows.antt =====
-- internal/xterm/inputhandler.go: a run of characters that goes on in the next row.
use daemontest.Prelude.{
  ℕ, ◌+◌, ◌≤◌, ◌<◌, ◌≡◌, refl, sym, ap, subst, ◌∙◌, true, false, List, [], ◌∷◌, ◌++◌, some, arith,
  map, All,
}
use daemontest.Xterm.Cell.{Text}
use daemontest.Xterm.BufferLine.{BufferLine}
use daemontest.Xterm.BufferLine.View.{CellView}
use daemontest.Xterm.Buffer.{
  Buffer, Charset, CharsetService, line_at, translate_buffer_line_to_string,
}
use daemontest.Xterm.Unicode.{wcwidth, char_properties}
use daemontest.Xterm.Screen.{Screen, CoreService, active}
use daemontest.Xterm.Screen.Print.{
  Outcome, going, left, crashed, and_then, cursor_line, translated, print_code, print_codes,
  finish_run, print,
}
use daemontest.Xterm.Screen.Print.Row.{Written, Written-trans}
use daemontest.Xterm.Screen.Print.Ready.{Ready, Kept, Kept-trans}
use daemontest.Xterm.Screen.Print.Run.{ChangesMarkers}
use daemontest.Xterm.Screen.Print.Wrap.{Wraps, Wraps-Kept, place_code-Wraps}
use daemontest.Xterm.Screen.Print.TwoRows.{TwoRows, TwoRows-Kept}
use daemontest.Xterm.Screen.Print.Laid.{run_width, Laid, Laid-kept, translate-Laid}
use daemontest.Xterm.Screen.Print.Codes.{
  IsPlain, plain-TakesRoom, print_code-translated, print_codes-step, print_codes-Run,
}
use daemontest.Xterm.Screen.Print.ReadBack.{print-parts, begin_run-Ready, finish_run-Ready}

module _ (add : ℕ → ℕ → Buffer → Buffer) where
  -- The rest of a run, after what the codes before it did.
  carried : List ℕ → Outcome → Outcome
  carried cs (going j t) = print_codes add cs j t
  carried cs (left j t) = left j t
  carried cs crashed = crashed

  carried-step :
      (a b : List ℕ)
      → ((j : ℕ) (t : Screen) → print_codes add (a ++ b) j t ≡ carried b (print_codes add a j t))
      → (o : Outcome)
      → (elim o [
        | going j t ↦ print_codes add (a ++ b) j t
        | left j t ↦ left j t
        | crashed ↦ crashed
      ])
        ≡ carried b
            (elim o [ going j t ↦ print_codes add a j t | left j t ↦ left j t | crashed ↦ crashed ])
  unfolding carried
  carried-step a b ih (going j t) = ih j t
  carried-step a b ih (left j t) = refl
  carried-step a b ih crashed = refl

  print_codes-append :
      (a b : List ℕ) (join : ℕ) (s : Screen)
      → print_codes add (a ++ b) join s ≡ carried b (print_codes add a join s)
  unfolding print_codes carried
  print_codes-append [] b join s = refl
  print_codes-append (c ∷ a) b join s =
      carried-step a b (λ j t. print_codes-append a b j t) (print_code add c join s)

  print_codes-behind :
      (a b : List ℕ) (join j : ℕ) (s t : Screen)
      → print_codes add a join s ≡ going j t
      → print_codes add (a ++ b) join s ≡ print_codes add b j t
  unfolding carried
  print_codes-behind a b join j s t e = print_codes-append a b join s ∙ ap (carried b) e

-- After a run that went on in the next row: its parts stand on the two rows.
record Across (cs ds : Text) (x : ℕ) (s t : Screen) (l m : BufferLine) : Type 0 where
  ready : Ready t (run_width ds) m
  laid_above : Laid x cs l
  laid : Laid 0 ds m
  flagged : m.is_wrapped ≡ true
  next_row : (active t).y ≡ (active s).y + 1
  base_kept : (active t).y_base ≡ (active s).y_base
  len_kept : (active t).lines.len ≡ (active s).lines.len
  above : line_at (active t) ((active s).y_base + (active s).y) ≡ some l

Wraps-Across :
    (c : ℕ) {cs ds : Text} {x hi : ℕ} {s t u : Screen} {l m k : BufferLine}
    → Wraps c s t l m
    → 0 < wcwidth c
    → Laid x cs l
    → Kept t u
    → Ready u (run_width (c ∷ ds)) k
    → Written (wcwidth c) hi m k
    → Laid (wcwidth c) ds k
    → Across cs (c ∷ ds) x s u l k
Wraps-Across c {cs} {ds} {x} {hi} {s} {t} {u} {l} {m} {k} w p a q r v d =
    let b = q.buffer_kept in
    let whole : wcwidth c ≡ 0 + wcwidth c = omega arith in
    record {
      ready = r;
      laid_above = a;
      laid = (ap CellView.content (v.before 0 p) ∙ w.shown, subst (λ z. Laid z ds k) whole d);
      flagged = v.shape.wrapped_kept ∙ w.flagged;
      next_row = b.row_kept ∙ w.next_row;
      base_kept = b.base_kept ∙ w.base_kept;
      len_kept = b.len_kept ∙ w.len_kept;
      above = b.others_kept ((active s).y_base + (active s).y) w.apart ∙ w.above;
    }

module _ (add : ℕ → ℕ → Buffer → Buffer) (marks : ChangesMarkers add) (charset : Charset) where
  -- The run from its first character on, and what the cell behind it is given at the end.
  finish_run-Across :
      (codes first rest : List ℕ) (code join : ℕ) (s t : Screen) {x : ℕ} {l n : BufferLine}
      → Kept s t
      → TwoRows t x l n
      → t.charset_service.charset ≡ charset
      → t.core.insert_mode ≡ false
      → t.core.dec.wraparound ≡ true
      → All (IsPlain charset) first
      → All (IsPlain charset) (code ∷ rest)
      → x + run_width (map (translated charset) first) ≤ t.cols
      → t.cols < x + run_width (map (translated charset) first) + wcwidth (translated charset code)
      → run_width (map (translated charset) (code ∷ rest)) ≤ t.cols
      → (j : ℕ) × (u : Screen) × (m : BufferLine) × (k : BufferLine) × (finish_run add codes
            (print_codes add (first ++ code ∷ rest) join t)
          ≡ some (j, u))
        × Across (map (translated charset) first) (map (translated charset) (code ∷ rest)) x s u m k
  finish_run-Across codes first rest code join s t {x} {l} {n} k w e i b a g fit over short =
      let c = translated charset code in
      let ds = map (translated charset) rest in
      let (j1, t1, m1, e1, q1) = print_codes-Run add marks charset first join t w.upper e i a fit in
      let k1 = q1.kept in
      let (t2, m2, e2, d) =
        place_code-Wraps add marks c j1 t1 (TwoRows-Kept w k1 q1.ready)
          (ap CoreService.insert_mode k1.core_kept ∙ i)
          (ap (λ z. z.dec.wraparound) k1.core_kept ∙ b) (g.0.1.0) (g.0.1.1)
          (omega (arith, k1.cols_kept)) (omega (arith, k1.cols_kept)) in
      let (j3, t3, m3, e3, q3) =
        print_codes-Run add marks charset rest (char_properties c j1) t2 d.ready
          (ap CharsetService.charset (d.charset_kept ∙ k1.charset_kept) ∙ e)
          (ap CoreService.insert_mode (d.core_kept ∙ k1.core_kept) ∙ i) (g.1)
          (omega (arith, d.cols_kept, k1.cols_kept)) in
      let (t4, m4, e4, r4, k4, w4) = finish_run-Ready add marks charset codes j3 t3 q3.ready in
      (
        j3,
        t4,
        m1,
        m4,
        ap (finish_run add codes) (
              print_codes-behind add first (code ∷ rest) join j1 t t1 e1
              ∙ print_codes-step add marks charset code j1 (char_properties c j1) rest t1 t2 (
                  print_code-translated add marks charset code j1 t1
                    (ap CharsetService.charset k1.charset_kept ∙ e) (g.0.0)
                  ∙ e2)
              ∙ e3)
            ∙ e4,
        Wraps-Across c (Wraps-Kept c (Kept-trans k k1) d) (g.0.1.0) q1.laid (Kept-trans q3.kept k4)
            r4 (Written-trans (omega arith) (omega arith) q3.written w4)
            (Laid-kept ds (wcwidth c) (run_width (c ∷ ds)) (run_width (c ∷ ds) + 1) m3 m4 w4
              (omega arith) (plain-TakesRoom charset rest (g.1)) q3.laid),
      )

-- The columns that the codes of a run take, as the character set of the screen translates them.
abbrev width_in : Screen → List ℕ → ℕ
width_in s codes = run_width (map (translated s.charset_service.charset) codes)

-- A run of characters, none a soft hyphen and none without width, the first part of which fits on what is
-- left of the row of the cursor, the character behind it not, and the rest from that on in one row: outside
-- insert mode and with autowrap, where the row below is as wide as the screen and the cursor is on no
-- bottom margin, `Print` returns. Read back, the one row has the first part from where it begins on, and
-- the next row has the rest from its first column on; it is flagged as wrapped, and the cursor stands
-- behind the rest.
pub print-across_rows :
    (add : ℕ → ℕ → Buffer → Buffer) (first rest : List ℕ) (code join : ℕ) (s : Screen)
    (l n : BufferLine)
    → ChangesMarkers add
    → TwoRows s (active s).x l n
    → s.core.insert_mode ≡ false
    → s.core.dec.wraparound ≡ true
    → All (IsPlain s.charset_service.charset) first
    → All (IsPlain s.charset_service.charset) (code ∷ rest)
    → (active s).x + width_in s first ≤ s.cols
    → s.cols < (active s).x + width_in s first + width_in s (code ∷ [])
    → width_in s (code ∷ rest) ≤ s.cols
    → (j : ℕ) × (t : Screen) × (m : BufferLine) × (print add (first ++ code ∷ rest) join s
        ≡ some (j, t))
      × (cursor_line t ≡ some m)
      × (m.is_wrapped ≡ true)
      × ((active t).x ≡ width_in s (code ∷ rest))
      × ((active t).y ≡ (active s).y + 1)
      × (translate_buffer_line_to_string
            ((active s).y_base + (active s).y)
            false
            (active s).x
            (some ((active s).x + width_in s first))
            (active t)
          ≡ map (translated s.charset_service.charset) first)
      × (translate_buffer_line_to_string
            ((active s).y_base + ((active s).y + 1))
            false
            0
            (some ((active t).x))
            (active t)
          ≡ map (translated s.charset_service.charset) (code ∷ rest))
unfolding cursor_line
print-across_rows add first rest code join s l n marks w i b a g fit over short =
    let charset = s.charset_service.charset in
    let codes = first ++ code ∷ rest in
    let x = (active s).x in
    let y = (active s).y_base + (active s).y in
    let cs = map (translated charset) first in
    let ds = map (translated charset) (code ∷ rest) in
    let (s1, m1, e1, r1, k1, w1) =
      begin_run-Ready add marks charset codes s w.upper (omega arith) in
    let (j, t, m, k, e2, q) =
      finish_run-Across add marks charset codes first rest code join s s1 k1 (TwoRows-Kept w k1 r1)
        (ap CharsetService.charset k1.charset_kept) (ap CoreService.insert_mode k1.core_kept ∙ i)
        (ap (λ z. z.dec.wraparound) k1.core_kept ∙ b) a g (omega (arith, k1.cols_kept))
        (omega (arith, k1.cols_kept)) (omega (arith, k1.cols_kept)) in
    let whole : run_width ds ≡ 0 + run_width ds = omega arith in
    let read_above =
      translate-Laid (active t) y x cs m q.above (omega (arith, w.lower_in, q.len_kept))
        (plain-TakesRoom charset first a) q.laid_above in
    let read_below =
      translate-Laid (active t) ((active s).y_base + ((active s).y + 1)) 0 ds k
        (rw (sym q.base_kept, sym q.next_row) q.ready.line) (omega (arith, w.lower_in, q.len_kept))
        (plain-TakesRoom charset (code ∷ rest) g) q.laid in
    (
      j,
      t,
      k,
      print-parts add marks charset codes join s l w.upper.line
          ∙ ap (λ o. and_then o (λ u. finish_run add codes (print_codes add codes join u))) e1
          ∙ e2,
      q.ready.line,
      q.flagged,
      q.ready.column,
      q.next_row,
      read_above,
      rw (q.ready.column, whole) read_below,
    )
