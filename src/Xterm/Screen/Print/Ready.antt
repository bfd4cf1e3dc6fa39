-- ===== src/Xterm/Screen/Print/Ready.antt =====
-- internal/xterm/inputhandler.go: what stays as it is while a row is written to.
use daemontest.Prelude.{
  ℕ, ◌+◌, ◌≡◌, ◌≢◌, refl, sym, ap, ap₂, subst, ◌∙◌, Bool, true, false, Option, none, some, arith,
  inl, inr, Bool-cases, if◌then◌else◌, length, get_or-set_self, get_or-set_ne,
}
use native.Mathlib.Nat.{mod-lt}
use daemontest.Xterm.BufferLine.{BufferLine}
use daemontest.Xterm.CircularList.{CircularList, get, put, slot}
use daemontest.Xterm.CircularList.Inv.{IsValid, put-IsValid}
use daemontest.Xterm.Buffer.{Buffer, line_at}
use daemontest.Xterm.Screen.{Screen, active, on_active}
use daemontest.Xterm.Screen.Scroll.{put_active}
use daemontest.Xterm.Screen.Print.{cursor_line, on_row, advance}

-- The row of the cursor is there, as wide as the screen, and the ring of lines is sound.
pub record Ready (s : Screen) (x : ℕ) (l : BufferLine) : Type 0 where
  pub line : cursor_line s ≡ some l
  pub column : (active s).x ≡ x
  pub full : length l.words ≡ s.cols
  pub ring : IsValid (active s).lines

-- Two buffers with the cursor on the same row, whose other lines are the same.
pub record KeptBuffer (b c : Buffer) : Type 0 where
  pub row_kept : c.y ≡ b.y
  pub base_kept : c.y_base ≡ b.y_base
  pub bottom_kept : c.scroll_bottom ≡ b.scroll_bottom
  pub len_kept : c.lines.len ≡ b.lines.len
  pub slots_kept : (i : ℕ) → slot none c.lines i ≡ slot none b.lines i
  pub others_kept :
      (i : ℕ) → slot none b.lines i ≢ slot none b.lines (b.y_base + b.y) → line_at c i ≡ line_at b i

pub KeptBuffer-refl : (b : Buffer) → KeptBuffer b b
KeptBuffer-refl b = record {
  row_kept = refl;
  base_kept = refl;
  bottom_kept = refl;
  len_kept = refl;
  slots_kept = λ i. refl;
  others_kept = λ i h. refl;
}

KeptBuffer-trans : {b c d : Buffer} → KeptBuffer b c → KeptBuffer c d → KeptBuffer b d
KeptBuffer-trans {b} {c} {d} h k = record {
  row_kept = k.row_kept ∙ h.row_kept;
  base_kept = k.base_kept ∙ h.base_kept;
  bottom_kept = k.bottom_kept ∙ h.bottom_kept;
  len_kept = k.len_kept ∙ h.len_kept;
  slots_kept = λ i. k.slots_kept i ∙ h.slots_kept i;
  others_kept = λ i n.
      k.others_kept i (λ e. n (
        sym (h.slots_kept i)
        ∙ e
        ∙ h.slots_kept (c.y_base + c.y)
        ∙ ap₂ (λ u v. slot none b.lines (u + v)) h.base_kept h.row_kept))
      ∙ h.others_kept i n;
}

-- What is printed on one row leaves these alone.
pub record Kept (s t : Screen) : Type 0 where
  pub cols_kept : t.cols ≡ s.cols
  pub rows_kept : t.rows ≡ s.rows
  pub core_kept : t.core ≡ s.core
  pub attr_kept : t.cur_attr_data ≡ s.cur_attr_data
  pub charset_kept : t.charset_service ≡ s.charset_service
  pub buffer_kept : KeptBuffer (active s) (active t)

pub Kept-refl : (s : Screen) → Kept s s
Kept-refl s = record {
  cols_kept = refl;
  rows_kept = refl;
  core_kept = refl;
  attr_kept = refl;
  charset_kept = refl;
  buffer_kept = KeptBuffer-refl (active s);
}

pub Kept-trans : {s t u : Screen} → Kept s t → Kept t u → Kept s u
Kept-trans h k = record {
  cols_kept = k.cols_kept ∙ h.cols_kept;
  rows_kept = k.rows_kept ∙ h.rows_kept;
  core_kept = k.core_kept ∙ h.core_kept;
  attr_kept = k.attr_kept ∙ h.attr_kept;
  charset_kept = k.charset_kept ∙ h.charset_kept;
  buffer_kept = KeptBuffer-trans h.buffer_kept k.buffer_kept;
}

pub active-on_active : (f : Buffer → Buffer) (s : Screen) → active (on_active f s) ≡ f (active s)
active-on_active f s = elim (Bool-cases s.on_alt) [ inl t ↦ rw t refl | inr e ↦ rw e refl ]

pub either :
    {A : Type 0} (field : Screen → A) (b : Bool) (t u : Screen) (v : A)
    → field t ≡ v
    → field u ≡ v
    → field (if b then t else u) ≡ v
either field true t u v h k = h
either field false t u v h k = k

on_active-Kept :
    (f : Buffer → Buffer) (s : Screen)
    → KeptBuffer (active s) (f (active s))
    → Kept s (on_active f s)
on_active-Kept f s h =
    let t : Screen = record s { alt = f s.alt } in
    let u : Screen = record s { normal = f s.normal } in
    record {
      cols_kept = either Screen.cols s.on_alt t u s.cols refl refl;
      rows_kept = either Screen.rows s.on_alt t u s.rows refl refl;
      core_kept = either Screen.core s.on_alt t u s.core refl refl;
      attr_kept = either Screen.cur_attr_data s.on_alt t u s.cur_attr_data refl refl;
      charset_kept = either Screen.charset_service s.on_alt t u s.charset_service refl refl;
      buffer_kept = subst (KeptBuffer (active s)) (sym (active-on_active f s)) h;
    }

get-put_self :
    (b : Buffer) (i : ℕ) (l : BufferLine)
    → IsValid b.lines
    → get none (put none b.lines i (some l)) i ≡ some l
unfolding get put
get-put_self b i l v =
    get_or-set_self b.lines.array (slot none b.lines i) (some l) none
      (omega (arith, v.stored, mod-lt (b.lines.start_idx + i) v.room))

-- What `on_row` makes of the screen.
unfoldable pub row_put : BufferLine → Buffer → Buffer
row_put m b = record b { lines = put none b.lines (b.y_base + b.y) (some m) }

unfoldable pub with_row : BufferLine → Screen → Screen
with_row m s = put_active (row_put m (active s)) s

row_put-KeptBuffer : (m : BufferLine) (b : Buffer) → KeptBuffer b (row_put m b)
unfolding row_put put line_at get
row_put-KeptBuffer m b = record {
  row_kept = refl;
  base_kept = refl;
  bottom_kept = refl;
  len_kept = refl;
  slots_kept = λ i. refl;
  others_kept = λ i n.
      get_or-set_ne b.lines.array (slot none b.lines (b.y_base + b.y)) (slot none b.lines i)
        (some m) none (λ e. n (sym e));
}

pub with_row-Kept : (m : BufferLine) (s : Screen) → Kept s (with_row m s)
unfolding with_row
with_row-Kept m s = on_active-Kept (λ _. row_put m (active s)) s (row_put-KeptBuffer m (active s))

pub with_row-Ready :
    {s : Screen} {x : ℕ} {l : BufferLine} (m : BufferLine)
    → Ready s x l
    → length m.words ≡ length l.words
    → Ready (with_row m s) x m
unfolding with_row row_put cursor_line line_at
with_row-Ready {s} {x} {l} m r h =
    let b = active s in
    let e : active (with_row m s) ≡ row_put m b = active-on_active (λ _. row_put m b) s in
    record {
      line = rw e (get-put_self b (b.y_base + b.y) m r.ring);
      column = rw e r.column;
      full = h ∙ r.full ∙ sym ((with_row-Kept m s).cols_kept);
      ring = rw e (put-IsValid none (b.y_base + b.y) (some m) r.ring);
    }

pub on_row-with_row :
    (f : BufferLine → Option BufferLine) (s : Screen) {x : ℕ} {l m : BufferLine}
    → Ready s x l
    → f l ≡ some m
    → on_row f s ≡ some (with_row m s)
unfolding on_row with_row row_put
on_row-with_row f s r e = rw (r.line, e) refl

-- A change of the buffer that leaves its lines and the row of the cursor.
pub dressed-Ready :
    (f : Buffer → Buffer) {s : Screen} {x y : ℕ} {l : BufferLine}
    → Ready s x l
    → (f (active s)).lines ≡ (active s).lines
    → (f (active s)).y ≡ (active s).y
    → (f (active s)).y_base ≡ (active s).y_base
    → (f (active s)).x ≡ y
    → (f (active s)).scroll_bottom ≡ (active s).scroll_bottom
    → Ready (on_active f s) y l × Kept s (on_active f s)
unfolding cursor_line line_at
dressed-Ready f {s} {x} {y} {l} r hl hy hb hx hm =
    let e = active-on_active f s in
    let k = on_active-Kept f s (record {
      row_kept = hy;
      base_kept = hb;
      bottom_kept = hm;
      len_kept = ap CircularList.len hl;
      slots_kept = λ i. ap (λ ls. slot none ls i) hl;
      others_kept = λ i n. ap (λ ls. get none ls i) hl;
    }) in
    (
      record {
        line = rw (e, hb, hy, hl) r.line;
        column = rw e hx;
        full = r.full ∙ sym k.cols_kept;
        ring = rw (e, hl) r.ring;
      },
      k,
    )

pub advance-Ready :
    {s : Screen} {x : ℕ} {l : BufferLine} (n : ℕ)
    → Ready s x l
    → Ready (advance n s) (x + n) l × Kept s (advance n s)
advance-Ready {s} n r =
    dressed-Ready (λ b. record b { x = b.x + n }) r refl refl refl (ap (λ z. z + n) r.column) refl
