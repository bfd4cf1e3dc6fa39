-- ===== src/Xterm/BufferLine/Reading.antt =====
-- internal/xterm/bufferline.go: lengths, copies between lines, and the text of a line.
use daemontest.Prelude.{
  ℕ, zero, suc, ◌+◌, ◌-◌, Bool, not, ◌||◌, [], ◌∷◌, ◌++◌, Option, none, some, ltb, ◌==◌,
  if◌then◌else◌, set,
}
use daemontest.Prelude.Bits.{◌&◌}
use daemontest.Xterm.Attr.{bg_flag_has_extended, attr_cm_mask}
use daemontest.Xterm.Cell.{
  Text, content_is_combined_mask, content_codepoint_mask, content_has_content_mask,
}
use daemontest.Xterm.BufferLine.{Words, BufferLine, words_at, text_at, width_at}
use daemontest.Xterm.BufferLine.Bulk.{lesser}

-- The loop from cell `i - 1` down; `counts` says what is not blank.
unfoldable pub trimmed_from : (Words → Bool) → BufferLine → ℕ → ℕ
unfolding width_at
trimmed_from counts bl zero = 0
trimmed_from counts bl (suc i) =
    if counts (words_at bl i) then i + width_at bl i else trimmed_from counts bl i

abbrev pub has_text : Words → Bool
has_text w = not (w.content & content_has_content_mask == 0)

abbrev pub has_text_or_color : Words → Bool
has_text_or_color w = has_text w || not (w.bg & attr_cm_mask == 0)

unfoldable pub get_trimmed_length : BufferLine → ℕ
unfolding trimmed_from
get_trimmed_length bl = trimmed_from has_text bl bl.len

unfoldable pub get_no_bg_trimmed_length : BufferLine → ℕ
unfolding trimmed_from
get_no_bg_trimmed_length bl = trimmed_from has_text_or_color bl bl.len

-- One cell of `CopyCellsFrom`: its three words, and its extended attributes where they are flagged.
unfoldable pub copy_cell : BufferLine → ℕ → ℕ → BufferLine → BufferLine
copy_cell src from to bl = record bl {
  words = set bl.words to (words_at src from);
  extended_attrs =
      if (words_at src from).bg & bg_flag_has_extended == 0 then bl.extended_attrs else λ j.
      if j == to then src.extended_attrs from else bl.extended_attrs j;
}

-- From another line, the two orders of the loop write the same cells.
unfoldable pub copy_cells : BufferLine → ℕ → ℕ → ℕ → BufferLine → BufferLine
unfolding copy_cell
copy_cells src from to zero bl = bl
copy_cells src from to (suc n) bl = copy_cells src (from + 1) (to + 1) n (copy_cell src from to bl)

-- Every text of the source from `from` on, at its new place: those behind the copied cells too.
unfoldable pub copy_texts : BufferLine → ℕ → ℕ → BufferLine → BufferLine
copy_texts src from to bl = record bl {
  combined = λ j.
      if ltb j to
      then bl.combined j
      else elim (src.combined (from + (j - to))) [ none ↦ bl.combined j | some t ↦ some t ];
}

unfoldable pub copy_cells_from : BufferLine → ℕ → ℕ → ℕ → BufferLine → BufferLine
unfolding copy_cells copy_texts
copy_cells_from src from to n bl = copy_texts src from to (copy_cells src from to n bl)

abbrev pub shown_text : Words → Text → Text
shown_text w combined =
    if w.content & content_is_combined_mask == 0
    then if w.content & content_codepoint_mask == 0
      then 32 ∷ []
      else (w.content & content_codepoint_mask) ∷ []
    else combined

-- The loop of `TranslateToString`, for at most `n` rounds: each goes on by the width, at least by 1.
unfoldable pub translate_from : ℕ → ℕ → ℕ → BufferLine → Text
unfolding width_at
translate_from zero start end bl = []
translate_from (suc n) start end bl =
    let w = width_at bl start in
    let rest = translate_from n (start + (if w == 0 then 1 else w)) end bl in
    if ltb start end then shown_text (words_at bl start) (text_at bl start) ++ rest else []

-- `none` is an `endCol` of -1.
abbrev pub end_or : ℕ → Option ℕ → ℕ
end_or d none = d
end_or d (some c) = c

unfoldable pub translate_to_string : Bool → ℕ → Option ℕ → BufferLine → Text
unfolding translate_from get_trimmed_length
translate_to_string trim_right start end_col bl =
    let e = end_or bl.len end_col in
    let last = if trim_right then lesser e (get_trimmed_length bl) else e in
    translate_from (last - start) start last bl
