-- ===== src/Xterm/Screen/Print/TwoRows.antt =====
-- internal/xterm/inputhandler.go: the row of the cursor and the one below it.
use daemontest.Prelude.{
  ℕ, ◌+◌, ◌<◌, ◌≡◌, ◌≢◌, refl, sym, ap₂, ◌∙◌, Option, none, some, arith, length,
}
use daemontest.Prelude.Cyclic.{add-mod-ne}
use daemontest.Xterm.BufferLine.{BufferLine}
use daemontest.Xterm.CircularList.{CircularList, slot}
use daemontest.Xterm.CircularList.Inv.{IsValid}
use daemontest.Xterm.Buffer.{Buffer, line_at}
use daemontest.Xterm.Screen.{Screen, active}
use daemontest.Xterm.Screen.Scroll.{put_active}
use daemontest.Xterm.Screen.Print.{cursor_line}
use daemontest.Xterm.Screen.Print.Ready.{Ready, Kept, active-on_active, either}

-- The cursor, at the first column of the next row.
unfoldable pub lowered : Screen → Screen
lowered s = put_active (record (active s) { x = 0; y = (active s).y + 1 }) s

pub slots_apart :
    (lines : CircularList (Option BufferLine)) (i j : ℕ)
    → IsValid lines
    → i < j
    → j < lines.len
    → slot none lines j ≢ slot none lines i
slots_apart lines i j v h k =
    add-mod-ne lines.max_len lines.start_idx i j h (omega (arith, v.len_in))

pub put_active-field :
    {A : Type 0} (field : Screen → A) (c : Buffer) (s : Screen)
    → field (record s { alt = c }) ≡ field s
    → field (record s { normal = c }) ≡ field s
    → field (put_active c s) ≡ field s
put_active-field field c s h k =
    either field s.on_alt (record s { alt = c }) (record s { normal = c }) (field s) h k

-- The row of the cursor, and the one below it: both are as wide as the screen, and no margin is between.
pub record TwoRows (s : Screen) (x : ℕ) (l n : BufferLine) : Type 0 where
  pub upper : Ready s x l
  pub lower : line_at (active s) ((active s).y_base + ((active s).y + 1)) ≡ some n
  pub lower_full : length n.words ≡ s.cols
  pub lower_in : (active s).y_base + ((active s).y + 1) < (active s).lines.len
  pub row_in : (active s).y + 1 < s.rows
  pub no_margin : (active s).y ≢ (active s).scroll_bottom

pub TwoRows-Kept :
    {s t : Screen} {x y : ℕ} {l m n : BufferLine}
    → TwoRows s x l n
    → Kept s t
    → Ready t y m
    → TwoRows t y m n
TwoRows-Kept {s} {t} {x} {y} {l} {m} {n} w k r =
    let b = k.buffer_kept in
    record {
      upper = r;
      lower =
          ap₂ (λ u v. line_at (active t) (u + (v + 1))) b.base_kept b.row_kept
          ∙ b.others_kept ((active s).y_base + ((active s).y + 1)) (
              slots_apart (active s).lines ((active s).y_base + (active s).y)
                ((active s).y_base + ((active s).y + 1)) w.upper.ring (omega arith) w.lower_in)
          ∙ w.lower;
      lower_full = w.lower_full ∙ sym k.cols_kept;
      lower_in = omega (arith, w.lower_in, b.base_kept, b.row_kept, b.len_kept);
      row_in = omega (arith, w.row_in, b.row_kept, k.rows_kept);
      no_margin = λ e. w.no_margin (sym b.row_kept ∙ e ∙ b.bottom_kept);
    }

pub lowered-Ready :
    {s : Screen} {x : ℕ} {l n : BufferLine} → TwoRows s x l n → Ready (lowered s) 0 n
unfolding lowered cursor_line
lowered-Ready {s} w =
    let b = active s in
    let c : Buffer = record b { x = 0; y = b.y + 1 } in
    let e : active (lowered s) ≡ c = active-on_active (λ _. c) s in
    record {
      line = rw e w.lower;
      column = rw e refl;
      full = w.lower_full ∙ sym (put_active-field Screen.cols c s refl refl);
      ring = rw e w.upper.ring;
    }
