-- ===== src/Xterm/Screen/Print/Wrap.antt =====
-- internal/xterm/inputhandler.go: a character that goes to the next row.
use daemontest.Prelude.{
  ℕ, ◌+◌, ◌^◌, ◌≤◌, ◌<◌, ◌≡◌, ◌≢◌, refl, sym, ap, ap₂, subst, ◌∙◌, true, false, none, some, arith,
  inl, inr, Bool-cases, ltb, leb, ◌==◌,
}
use daemontest.Prelude.Bits.{◌∣◌}
use daemontest.Xterm.Cell.{width_bits}
use daemontest.Xterm.BufferLine.{BufferLine}
use daemontest.Xterm.BufferLine.View.{view_at}
use daemontest.Xterm.CircularList.{slot}
use daemontest.Xterm.Buffer.{Buffer, line_at}
use daemontest.Xterm.Unicode.{wcwidth, char_properties}
use daemontest.Xterm.Screen.{Screen, CoreService, active}
use daemontest.Xterm.Screen.Csi.{on_line}
use daemontest.Xterm.Screen.Scroll.{put_active}
use daemontest.Xterm.Screen.Print.{
  Outcome, going, cursor_line, put_code, place, on_next_row, wrap_row, wrap_below, link_line,
  place_code,
}
use daemontest.Xterm.Screen.Print.Ready.{
  Ready, KeptBuffer, Kept, Kept-trans, active-on_active, row_put, with_row, with_row-Kept,
  with_row-Ready,
}
use daemontest.Xterm.Screen.Print.TwoRows.{
  lowered, slots_apart, put_active-field, TwoRows, TwoRows-Kept, lowered-Ready,
}
use daemontest.Xterm.Screen.Print.Run.{
  ChangesMarkers, put_code-Prints, link_line-Ready, place_code-apart,
}

place-over :
    (code width info : ℕ) (s : Screen)
    → s.cols < (active s).x + width
    → s.core.dec.wraparound ≡ true
    → place code width false 0 info s
      ≡ on_next_row info (put_code code width 0 false info) (wrap_row s)
unfolding place
place-over code width info s h w =
    let over : ltb (s.cols + 0) ((active s).x + width) ≡ true = ground arith in rw (over, w) refl

abbrev wrapped : BufferLine → BufferLine
wrapped l = record l { is_wrapped = true }

put_active-twice : (b c : Buffer) (s : Screen) → put_active c (put_active b s) ≡ put_active c s
put_active-twice b c s = elim (Bool-cases s.on_alt) [ inl t ↦ rw t refl | inr f ↦ rw f refl ]

wrap_below-row_put :
    (rows : ℕ) (b : Buffer) (n : BufferLine)
    → line_at b (b.y_base + (b.y + 1)) ≡ some n
    → b.y + 1 < rows
    → wrap_below rows b ≡ row_put (wrapped n) (record b { x = 0; y = b.y + 1 })
unfolding wrap_below row_put on_line line_at
wrap_below-row_put rows b n e h =
    let inside : leb rows (b.y + 1) ≡ false = ground arith in rw (inside, e) refl

wrap_row-with_row :
    (s : Screen) (n : BufferLine)
    → line_at (active s) ((active s).y_base + ((active s).y + 1)) ≡ some n
    → (active s).y + 1 < s.rows
    → (active s).y ≢ (active s).scroll_bottom
    → wrap_row s ≡ some (with_row (wrapped n) (lowered s))
unfolding wrap_row with_row lowered
wrap_row-with_row s n e h d =
    let b = active s in
    let c : Buffer = record b { x = 0; y = b.y + 1 } in
    let inner : b.y + 1 == b.scroll_bottom + 1 ≡ false = ground arith in
    rw inner (
      ap some (
        ap (λ d. put_active d s) (wrap_below-row_put s.rows b n e h)
        ∙ sym (
            put_active-twice c (row_put (wrapped n) (active (put_active c s))) s
            ∙ ap (λ d. put_active (row_put (wrapped n) d) s) (active-on_active (λ _. c) s))))

-- After a character that went to the next row: it stands there at the first column, and the row is flagged.
pub record Wraps (c : ℕ) (s t : Screen) (l m : BufferLine) : Type 0 where
  pub ready : Ready t (wcwidth c) m
  pub shown : (view_at m 0).content ≡ c ∣ width_bits (wcwidth c)
  pub flagged : m.is_wrapped ≡ true
  pub cols_kept : t.cols ≡ s.cols
  pub core_kept : t.core ≡ s.core
  pub charset_kept : t.charset_service ≡ s.charset_service
  pub next_row : (active t).y ≡ (active s).y + 1
  pub base_kept : (active t).y_base ≡ (active s).y_base
  pub len_kept : (active t).lines.len ≡ (active s).lines.len
  pub above : line_at (active t) ((active s).y_base + (active s).y) ≡ some l
  pub apart :
      slot none (active t).lines ((active s).y_base + (active s).y)
      ≢ slot none (active t).lines ((active t).y_base + (active t).y)

lowered-Wraps :
    (c : ℕ) {s t : Screen} {x : ℕ} {l n m : BufferLine}
    → TwoRows s x l n
    → Kept (lowered s) t
    → Ready t (wcwidth c) m
    → (view_at m 0).content ≡ c ∣ width_bits (wcwidth c)
    → m.is_wrapped ≡ true
    → Wraps c s t l m
unfolding lowered line_at cursor_line
lowered-Wraps c {s} {t} {x} {l} {n} {m} w k r v f =
    let b = active s in
    let d : Buffer = record b { x = 0; y = b.y + 1 } in
    let e : active (lowered s) ≡ d = active-on_active (λ _. d) s in
    let q : KeptBuffer d (active t) = subst (λ z. KeptBuffer z (active t)) e k.buffer_kept in
    let differ =
      slots_apart b.lines (b.y_base + b.y) (b.y_base + (b.y + 1)) w.upper.ring (omega arith)
        w.lower_in in
    record {
      ready = r;
      shown = v;
      flagged = f;
      cols_kept = k.cols_kept ∙ put_active-field Screen.cols d s refl refl;
      core_kept = k.core_kept ∙ put_active-field Screen.core d s refl refl;
      charset_kept = k.charset_kept ∙ put_active-field Screen.charset_service d s refl refl;
      next_row = q.row_kept;
      base_kept = q.base_kept;
      len_kept = q.len_kept;
      above = q.others_kept (b.y_base + b.y) (λ z. differ (sym z)) ∙ w.upper.line;
      apart = λ z. differ (
          sym (
            sym (q.slots_kept (b.y_base + b.y))
            ∙ z
            ∙ ap₂ (λ u v. slot none (active t).lines (u + v)) q.base_kept q.row_kept
            ∙ q.slots_kept (b.y_base + (b.y + 1))));
    }

pub Wraps-Kept :
    (c : ℕ) {s t u : Screen} {l m : BufferLine} → Kept s t → Wraps c t u l m → Wraps c s u l m
Wraps-Kept c {s} {t} {u} k w =
    let b = k.buffer_kept in
    record {
      ready = w.ready;
      shown = w.shown;
      flagged = w.flagged;
      cols_kept = w.cols_kept ∙ k.cols_kept;
      core_kept = w.core_kept ∙ k.core_kept;
      charset_kept = w.charset_kept ∙ k.charset_kept;
      next_row = w.next_row ∙ ap (λ z. z + 1) b.row_kept;
      base_kept = w.base_kept ∙ b.base_kept;
      len_kept = w.len_kept ∙ b.len_kept;
      above = ap₂ (λ p q. line_at (active u) (p + q)) (sym b.base_kept) (sym b.row_kept) ∙ w.above;
      apart =
          λ z. w.apart (ap₂ (λ p q. slot none (active u).lines (p + q)) b.base_kept b.row_kept ∙ z);
    }

lowered-core : (s : Screen) → (lowered s).core ≡ s.core
unfolding lowered
lowered-core s =
    put_active-field Screen.core (record (active s) { x = 0; y = (active s).y + 1 }) s refl refl

on_next_row-some :
    (info : ℕ) (f : Screen → Outcome) (s : Screen) (l : BufferLine)
    → cursor_line s ≡ some l
    → on_next_row info f (some s) ≡ f s
on_next_row-some info f s l e = rw (on_next_row, e) refl

module _ (add : ℕ → ℕ → Buffer → Buffer) (marks : ChangesMarkers add) where
  pub place_code-Wraps :
      (c join : ℕ) (s : Screen) {x : ℕ} {l n : BufferLine}
      → TwoRows s x l n
      → s.core.insert_mode ≡ false
      → s.core.dec.wraparound ≡ true
      → 0 < wcwidth c
      → c < 2 ^ 21
      → s.cols < x + wcwidth c
      → wcwidth c ≤ s.cols
      → (t : Screen) × (m : BufferLine) × (place_code add c join s
          ≡ going (char_properties c join) t)
        × Wraps c s t l m
  place_code-Wraps c join s {x} {l} {n} w i a p h over fit =
      let info = char_properties c join in
      let (r1, k1) = link_line-Ready add marks w.upper in
      let s1 = link_line add s in
      let w1 = TwoRows-Kept w k1 r1 in
      let u = with_row (wrapped n) (lowered s1) in
      let r3 = with_row-Ready (wrapped n) (lowered-Ready w1) refl in
      let k3 = with_row-Kept (wrapped n) (lowered s1) in
      let insert = k3.core_kept ∙ lowered-core s1 ∙ k1.core_kept in
      let (t, m, e, d) =
        put_code-Prints c info u r3 (ap CoreService.insert_mode insert ∙ i) p h
          (omega (arith, fit, r3.full, w1.lower_full, k1.cols_kept)) in
      let whole : 0 + wcwidth c ≡ wcwidth c = omega arith in
      (
        t,
        m,
        place_code-apart add marks c join s p
            ∙ place-over c (wcwidth c) info s1 (omega (arith, over, k1.cols_kept, r1.column))
                (ap (λ z. z.dec.wraparound) k1.core_kept ∙ a)
            ∙ ap (on_next_row info (put_code c (wcwidth c) 0 false info))
                (wrap_row-with_row s1 n w1.lower w1.row_in w1.no_margin)
            ∙ on_next_row-some info (put_code c (wcwidth c) 0 false info) u (wrapped n) r3.line
            ∙ e,
        Wraps-Kept c k1 (
            lowered-Wraps c w1 (Kept-trans k3 d.kept) (subst (λ z. Ready t z m) whole d.ready)
              d.shown d.written.shape.wrapped_kept),
      )
