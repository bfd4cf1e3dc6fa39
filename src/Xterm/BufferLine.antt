-- ===== src/Xterm/BufferLine.antt =====
-- internal/xterm/bufferline.go: the cells of a line. The three words of a cell stand together, and the
-- capacity of the slice is not modelled. A map is a function. An index outside the line is a panic in
-- the code; here it reads an empty cell and writes nothing, and the theorems stay inside the line.
pub mod Bulk
pub mod Reading
pub mod View
pub mod Loops
pub mod Rows
pub mod Insert
pub mod Delete
mod Tests
use daemontest.Prelude.{
  ℕ, zero, suc, ◌+◌, ◌-◌, ◌*◌, ◌/◌, ◌%◌, ◌^◌, Bool, true, false, not, ◌&&◌, ◌||◌, List, [], ◌∷◌,
  ◌++◌, Option, none, some, ltb, leb, ◌==◌, if◌then◌else◌, length, get_or, set, take, replicate,
}
use daemontest.Prelude.Bits.{◌&◌, ◌∣◌, mask_not}
use daemontest.Xterm.Attr.{
  AttributeData, ExtendedAttrs, zero_ext, bg_flag_has_extended, bg_flag_protected, attr_cm_mask,
}
use daemontest.Xterm.Cell.{
  Text, CellData, CharData, text_of, code_of, width_bits, content_is_combined_mask,
  content_codepoint_mask, content_has_content_mask, content_width_mask, cell_data_from_char_data,
}

-- The three words of a cell.
pub record Words : Type 0 where
  pub content : ℕ
  pub fg : ℕ
  pub bg : ℕ

abbrev pub no_words : Words
no_words = record { content = 0; fg = 0; bg = 0 }

pub record BufferLine : Type 0 where
  pub words : List Words
  pub combined : ℕ → Option Text
  pub extended_attrs : ℕ → Option ExtendedAttrs
  pub len : ℕ
  pub is_wrapped : Bool

abbrev pub updated {ℓ} : {A : Type ℓ} → (ℕ → Option A) → ℕ → A → ℕ → Option A
updated f i v j = if j == i then some v else f j

-- What a missing key gives: the empty string, or nil, which counts as the zero record.
abbrev pub text_or_empty : Option Text → Text
text_or_empty none = []
text_or_empty (some t) = t

abbrev pub ext_or_zero : Option ExtendedAttrs → ExtendedAttrs
ext_or_zero none = zero_ext
ext_or_zero (some e) = e

abbrev pub words_at : BufferLine → ℕ → Words
words_at bl i = get_or bl.words i no_words

abbrev pub text_at : BufferLine → ℕ → Text
text_at bl i = text_or_empty (bl.combined i)

abbrev pub put_words : ℕ → Words → BufferLine → BufferLine
put_words i w bl = record bl { words = set bl.words i w }

unfoldable pub width_at : BufferLine → ℕ → ℕ
width_at bl i = (words_at bl i).content / 2 ^ 22

unfoldable pub has_width : BufferLine → ℕ → ℕ
has_width bl i = (words_at bl i).content & content_width_mask

unfoldable pub fg_at : BufferLine → ℕ → ℕ
fg_at bl i = (words_at bl i).fg

unfoldable pub bg_at : BufferLine → ℕ → ℕ
bg_at bl i = (words_at bl i).bg

unfoldable pub has_content : BufferLine → ℕ → ℕ
has_content bl i = (words_at bl i).content & content_has_content_mask

unfoldable pub code_point_at : BufferLine → ℕ → ℕ
code_point_at bl i = code_of (words_at bl i).content (text_at bl i)

unfoldable pub combined_at : BufferLine → ℕ → ℕ
combined_at bl i = (words_at bl i).content & content_is_combined_mask

unfoldable pub string_at : BufferLine → ℕ → Text
string_at bl i = text_of (words_at bl i).content (text_at bl i)

unfoldable pub protected_at : BufferLine → ℕ → ℕ
protected_at bl i = (words_at bl i).bg & bg_flag_protected

-- `Get`
unfoldable pub char_data_at : BufferLine → ℕ → CharData
char_data_at bl i = record {
  attr = (words_at bl i).fg;
  char = text_of (words_at bl i).content (text_at bl i);
  width = (words_at bl i).content / 2 ^ 22;
  code = code_of (words_at bl i).content (text_at bl i);
}

-- `Set`: the background is left as it was.
unfoldable pub set_char_data : ℕ → CharData → BufferLine → BufferLine
set_char_data i cd bl =
    let w = record (words_at bl i) { fg = cd.attr } in
    elim cd.char [
      | [] ↦ put_words i (record w { content = width_bits cd.width }) bl
      | ◌∷◌ r [] ↦ put_words i (record w { content = r ∣ width_bits cd.width }) bl
      | ◌∷◌ r (◌∷◌ _ _) ↦
          record (put_words i
            (record w { content = content_is_combined_mask ∣ width_bits cd.width }) bl) {
              combined = updated bl.combined i cd.char;
            }
    ]

-- What is not flagged stays in `cell` as it was.
unfoldable pub load_cell : ℕ → CellData → BufferLine → CellData
load_cell i cell bl =
    let w = words_at bl i in
    record {
      content = w.content;
      combined_data =
          if w.content & content_is_combined_mask == 0 then cell.combined_data else text_at bl i;
      attrs = record {
        fg = w.fg;
        bg = w.bg;
        extended =
            if w.bg & bg_flag_has_extended == 0
            then cell.attrs.extended
            else ext_or_zero (bl.extended_attrs i);
      };
    }

unfoldable pub set_cell : ℕ → CellData → BufferLine → BufferLine
set_cell i cell bl = record bl {
  words =
      set bl.words i (record { content = cell.content; fg = cell.attrs.fg; bg = cell.attrs.bg });
  combined =
      if cell.content & content_is_combined_mask == 0
      then bl.combined
      else updated bl.combined i cell.combined_data;
  extended_attrs =
      if cell.attrs.bg & bg_flag_has_extended == 0
      then bl.extended_attrs
      else updated bl.extended_attrs i cell.attrs.extended;
}

unfoldable pub set_cell_from_codepoint : ℕ → ℕ → ℕ → AttributeData → BufferLine → BufferLine
set_cell_from_codepoint i code width attrs bl = record bl {
  words =
      set bl.words i (record { content = code ∣ width_bits width; fg = attrs.fg; bg = attrs.bg });
  extended_attrs =
      if attrs.bg & bg_flag_has_extended == 0
      then bl.extended_attrs
      else updated bl.extended_attrs i attrs.extended;
}

abbrev pub with_width : ℕ → ℕ → ℕ
with_width zero content = content
with_width (suc w) content = content & mask_not content_width_mask ∣ width_bits (suc w)

unfoldable pub add_codepoint_to_cell : ℕ → ℕ → ℕ → BufferLine → BufferLine
add_codepoint_to_cell i code width bl =
    let w = words_at bl i in
    let content = w.content in
    let put = λ (c : ℕ). put_words i (record w { content = with_width width c }) bl in
    let cp = content & content_codepoint_mask in
    if not (content & content_is_combined_mask == 0)
    then record (put content) { combined = updated bl.combined i (text_at bl i ++ code ∷ []) }
    else if not (cp == 0)
    then record (put (content & mask_not content_codepoint_mask ∣ content_is_combined_mask)) {
      combined = updated bl.combined i (cp ∷ code ∷ []);
    }
    else put (code ∣ 2 ^ 22)
