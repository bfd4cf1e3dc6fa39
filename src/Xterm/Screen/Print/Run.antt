-- ===== src/Xterm/Screen/Print/Run.antt =====
-- internal/xterm/inputhandler.go: the row of the cursor while characters are printed on it.
use daemontest.Prelude.{
  ℕ, ◌+◌, ◌-◌, ◌^◌, ◌≤◌, ◌<◌, ◌≡◌, refl, ap, subst, ◌∙◌, Bool, true, false, some, arith, inl, inr,
  Bool-cases, ltb, ◌==◌, if◌then◌else◌,
}
use daemontest.Prelude.Bits.{◌∣◌}
use daemontest.Xterm.Attr.{AttributeData}
use daemontest.Xterm.Cell.{width_bits}
use daemontest.Xterm.BufferLine.{BufferLine}
use daemontest.Xterm.BufferLine.View.{view_at}
use daemontest.Xterm.Buffer.{Buffer}
use daemontest.Xterm.Unicode.{
  wcwidth, char_properties, extract_char_props_width, extract_should_join,
}
use daemontest.Xterm.Unicode.Widths.{wcwidth_le, char_properties-apart}
use daemontest.Xterm.Screen.{Screen, CoreService, active}
use daemontest.Xterm.Screen.Print.{
  and_then, on_row, advance, put_code, make_room, write_char, link_line, place, place_code, going,
  Outcome, settled, write_on_row,
}
use daemontest.Xterm.Screen.Print.Ready.{
  Ready, Kept, Kept-refl, Kept-trans, with_row, with_row-Kept, with_row-Ready, on_row-with_row,
  advance-Ready, dressed-Ready,
}
use daemontest.Xterm.Screen.Print.Row.{Written, write_char-Written}

-- After one character, which stands on the row from column `x` on.
pub record Printed (code x : ℕ) (s t : Screen) (l m : BufferLine) : Type 0 where
  pub ready : Ready t (x + wcwidth code) m
  pub kept : Kept s t
  pub written : Written x (x + wcwidth code) l m
  pub shown : (view_at m x).content ≡ code ∣ width_bits (wcwidth code)

abbrev pub Prints : ℕ → ℕ → ℕ → Screen → BufferLine → Outcome → Type 0
Prints info code x s l o =
    (t : Screen) × (m : BufferLine) × (o ≡ going info t) × Printed code x s t l m

put_code-apart :
    (code width info : ℕ) (s : Screen)
    → put_code code width 0 false info s
      ≡ settled info (
          and_then
            (on_row
              (write_on_row s.core.insert_mode s.cols
                (active s).x
                (width - 0)
                code
                width
                s.cur_attr_data)
              s)
            (λ t. some (advance (1 + (width - 1)) t)))
unfolding put_code
put_code-apart code width info s = refl

write_on_row-plain :
    (insert : Bool) (cols x n code width : ℕ) (attr : AttributeData) (l : BufferLine)
    → insert ≡ false
    → write_on_row insert cols x n code width attr l ≡ write_char x code width attr l
unfolding write_on_row make_room
write_on_row-plain true cols x n code width attr l h = ground arith
write_on_row-plain false cols x n code width attr l h = refl

pub put_code-Prints :
    (code info : ℕ) (s : Screen) {x : ℕ} {l : BufferLine}
    → Ready s x l
    → s.core.insert_mode ≡ false
    → 0 < wcwidth code
    → code < 2 ^ 21
    → x + wcwidth code ≤ s.cols
    → Prints info code x s l (put_code code (wcwidth code) 0 false info s)
put_code-Prints code info s {x} {l} r i p c fit =
    let w = wcwidth code in
    let (m, e, (v, h)) =
      write_char-Written x code w s.cur_attr_data l (omega (arith, r.full)) c p
        (omega (arith, wcwidth_le code)) in
    let (two, k) = advance-Ready (1 + (w - 1)) (with_row-Ready m r v.shape.words_kept) in
    let whole : x + (1 + (w - 1)) ≡ x + w = omega arith in
    (
      advance (1 + (w - 1)) (with_row m s),
      m,
      put_code-apart code w info s
          ∙ ap (λ o. settled info (and_then o (λ t. some (advance (1 + (w - 1)) t))))
              (on_row-with_row _ s r (
                write_on_row-plain s.core.insert_mode s.cols (active s).x (w - 0) code w
                  s.cur_attr_data l i
                ∙ rw r.column e)),
      record {
        ready = subst (λ z. Ready (advance (1 + (w - 1)) (with_row m s)) z m) whole two;
        kept = Kept-trans (with_row-Kept m s) k;
        written = v;
        shown = h;
      },
    )

place-fits :
    (code width info : ℕ) (s : Screen)
    → (active s).x + width ≤ s.cols
    → place code width false 0 info s ≡ put_code code width 0 false info s
unfolding place
place-fits code width info s h =
    let room : ltb (s.cols + 0) ((active s).x + width) ≡ false = ground arith in rw room refl

-- `AddLineToLink` changes nothing but the markers.
abbrev pub ChangesMarkers : (ℕ → ℕ → Buffer → Buffer) → Type 0
ChangesMarkers add =
    (id y : ℕ) (b : Buffer) → add id y b ≡ record b { markers = (add id y b).markers }

module _ (add : ℕ → ℕ → Buffer → Buffer) (marks : ChangesMarkers add) where
  pub link_line-Ready :
      {s : Screen} {x : ℕ} {l : BufferLine}
      → Ready s x l
      → Ready (link_line add s) x l × Kept s (link_line add s)
  unfolding link_line
  link_line-Ready {s} {x} {l} r =
      let b = active s in
      let id = s.cur_attr_data.extended.url_id in
      let e = marks id (b.y_base + b.y) b in
      elim (Bool-cases (id == 0)) [
        | inl t ↦ rw t ((r, Kept-refl s))
        | inr f ↦ rw f (
            dressed-Ready (λ _. add id (b.y_base + b.y) b) r (ap Buffer.lines e) (ap Buffer.y e)
              (ap Buffer.y_base e) (ap Buffer.x e ∙ r.column) (ap Buffer.scroll_bottom e))
      ]

  place_code-parts :
      (code join : ℕ) (s : Screen)
      → place_code add code join s
        ≡ place code
            (extract_char_props_width (char_properties code join))
            (extract_should_join (char_properties code join))
            (if extract_should_join (char_properties code join)
              then extract_char_props_width join
              else 0)
            (char_properties code join)
            (link_line add s)
  unfolding place_code
  place_code-parts code join s = refl

  pub place_code-apart :
      (code join : ℕ) (s : Screen)
      → 0 < wcwidth code
      → place_code add code join s
        ≡ place code (wcwidth code) false 0 (char_properties code join) (link_line add s)
  place_code-apart code join s p =
      let (ew, ej) = char_properties-apart code join p in
      place_code-parts code join s ∙ rw (ew, ej) refl

  pub place_code-Prints :
      (code join : ℕ) (s : Screen) {x : ℕ} {l : BufferLine}
      → Ready s x l
      → s.core.insert_mode ≡ false
      → 0 < wcwidth code
      → code < 2 ^ 21
      → x + wcwidth code ≤ s.cols
      → Prints (char_properties code join) code x s l (place_code add code join s)
  place_code-Prints code join s {x} {l} r i p c fit =
      let info = char_properties code join in
      let (one, k) = link_line-Ready r in
      let (t, m, e, d) =
        put_code-Prints code info (link_line add s) one (ap CoreService.insert_mode k.core_kept ∙ i)
          p c (omega (arith, k.cols_kept)) in
      (
        t,
        m,
        place_code-apart code join s p
            ∙ place-fits code (wcwidth code) info (link_line add s)
                (omega (arith, one.column, k.cols_kept))
            ∙ e,
        record {
          ready = d.ready;
          kept = Kept-trans k d.kept;
          written = d.written;
          shown = d.shown;
        },
      )
