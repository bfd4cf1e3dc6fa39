-- ===== src/Xterm/Screen/Scroll.antt =====
-- internal/xterm/bufferservice.go: a new line at the bottom of the margins, and the viewport.
use daemontest.Prelude.{
  ℕ, ◌+◌, ◌-◌, Bool, true, false, ◌&&◌, List, [], ◌∷◌, Option, none, some, ltb, ◌==◌, if◌then◌else◌,
}
use daemontest.Prelude.Int.{ℤ, pos, negsuc, ltb_ℤ, ◌+ℤ◌}
use daemontest.Xterm.Attr.{AttributeData}
use daemontest.Xterm.BufferLine.{BufferLine, fg_at, bg_at}
use daemontest.Xterm.BufferLine.Bulk.{copy_from, clone_line}
use daemontest.Xterm.CircularList.{CircularList, Fired, put, push, recycle, splice, shift_elements}
use daemontest.Xterm.Buffer.{Buffer, get_blank_line, with_lines}
use daemontest.Xterm.Screen.{Screen, scrolled, active, on_active, fire}

-- The line that is cached, if it has the length and the colors.
unfoldable pub cached_or : BufferLine → ℕ → AttributeData → Option BufferLine → BufferLine
unfolding fg_at bg_at
cached_or fresh cols attr none = fresh
cached_or fresh cols attr (some l) =
    if l.len == cols && fg_at l 0 == attr.fg && bg_at l 0 == attr.bg then l else fresh

-- It is cached then.
unfoldable pub next_blank_line : AttributeData → Bool → Screen → BufferLine
unfolding get_blank_line cached_or
next_blank_line attr is_wrapped s =
    record (cached_or (get_blank_line (active s) attr is_wrapped) s.cols attr s.cached_blank_line) {
      is_wrapped = is_wrapped;
    }

-- `buffer.Lines.Recycle().CopyFrom(newLine)`: the oldest line becomes the last one.
unfoldable pub recycle_line :
    BufferLine
    → CircularList (Option BufferLine)
    → Option (CircularList (Option BufferLine) × List Fired)
unfolding recycle copy_from put
recycle_line line lines = elim (recycle none lines) [
  | none ↦ none
  | some r ↦ elim r.0 [
    | none ↦ none
    | some old ↦ some (put none r.1 (r.1.len - 1) (some (copy_from line old)), r.2)
  ]
]

-- The lines of a buffer whose margins begin at the top.
unfoldable pub scroll_top_lines :
    BufferLine → Buffer → Option (CircularList (Option BufferLine) × List Fired)
unfolding recycle_line push splice clone_line
scroll_top_lines line b =
    if b.y_base + b.scroll_bottom == b.lines.len - 1
    then if b.lines.len == b.lines.max_len
      then recycle_line line b.lines
      else some (push none (some (clone_line line)) b.lines)
    else some (splice none (b.y_base + b.scroll_bottom + 1) 0 (some (clone_line line) ∷ []) b.lines)

-- The lines between margins that begin below the top.
unfoldable pub scroll_region_lines :
    BufferLine → Buffer → Option (CircularList (Option BufferLine) × List Fired)
unfolding shift_elements put clone_line
scroll_region_lines line b =
    let top = b.y_base + b.scroll_top in
    let bottom = b.y_base + b.scroll_bottom in
    elim (shift_elements none (top + 1) (bottom + 1 - top - 1) (negsuc 0) b.lines) [
      | none ↦ none
      | some r ↦ some (put none r.0 bottom (some (clone_line line)), r.1)
    ]

-- Where the scroll position goes, when a line is added at the top margin.
abbrev pub scroll_position : Bool → Bool → Buffer → Buffer
scroll_position true true b = record b { y_disp = b.y_disp - 1 }
scroll_position true false b = b
scroll_position false true b = record b { y_base = b.y_base + 1 }
scroll_position false false b = record b { y_base = b.y_base + 1; y_disp = b.y_disp + 1 }

-- `if !bs.IsUserScrolling { buffer.YDisp = buffer.YBase }`
abbrev pub follow : Bool → Buffer → Buffer
follow true b = b
follow false b = record b { y_disp = b.y_base }

unfoldable pub scroll_buffer : BufferLine → Bool → Buffer → Option Buffer
unfolding scroll_top_lines scroll_region_lines with_lines
scroll_buffer line user_scrolling b =
    if b.scroll_top == 0
    then elim (scroll_top_lines line b) [
      | none ↦ none
      | some r ↦ some (
          follow user_scrolling
            (scroll_position (b.lines.len == b.lines.max_len) user_scrolling (with_lines r b)))
    ]
    else elim (scroll_region_lines line b) [
      | none ↦ none
      | some r ↦ some (follow user_scrolling (with_lines r b))
    ]

abbrev pub put_active : Buffer → Screen → Screen
put_active b s = on_active (λ _. b) s

unfoldable pub scroll : AttributeData → Bool → Screen → Option Screen
unfolding next_blank_line scroll_buffer
scroll attr is_wrapped s =
    let line = next_blank_line attr is_wrapped s in
    elim (scroll_buffer line s.is_user_scrolling (active s)) [
      | none ↦ none
      | some b ↦
          some
            (fire (scrolled b.y_disp) (record (put_active b s) { cached_blank_line = some line }))
    ]

-- `max(min(y, top), 0)`
abbrev pub clamp_to : ℕ → ℤ → ℕ
clamp_to top (pos n) = if ltb top n then top else n
clamp_to top (negsuc n) = 0

-- The user's scrolling, by `disp` lines.
unfoldable pub scroll_lines : ℤ → Bool → Screen → Screen
unfolding ◌+ℤ◌
scroll_lines disp suppress s =
    let b = active s in
    let target = clamp_to b.y_base (pos b.y_disp +ℤ disp) in
    let t =
      if ltb_ℤ disp (pos 0)
      then record s { is_user_scrolling = true }
      else if ltb_ℤ (pos b.y_disp +ℤ disp) (pos b.y_base)
      then s
      else record s { is_user_scrolling = false } in
    let moved = on_active (λ c. record c { y_disp = target }) t in
    if ltb_ℤ disp (pos 0) && b.y_disp == 0
    then s
    else if target == b.y_disp
    then t
    else if suppress
    then moved
    else fire (scrolled target) moved
