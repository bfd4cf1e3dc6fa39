-- ===== src/Xterm/Cell/RoundTrip.antt =====
-- internal/xterm/celldata.go: a tuple stored in a cell and read again.
use daemontest.Prelude.{ℕ, ◌*◌, ◌/◌, ◌^◌, ◌<◌, ◌≡◌, refl, ap, ◌∙◌, false, [], ◌∷◌, arith, ◌==◌, All}
use daemontest.Prelude.Bits.{◌&◌, ◌∣◌, mask_laws, and_comm, and_high, and-ones, or_comm, or_fields}
use daemontest.Xterm.Attr.{default_attr_data}
use daemontest.Xterm.Cell.{
  Text, cell_data_from_char_data, set_from_char_data, new_cell_data, get_as_char_data, get_chars,
  get_width, get_code, last_of, width_bits, content_is_combined_mask, content_codepoint_mask,
}

-- A code point, not the one of an empty cell.
abbrev pub IsCodePoint : ℕ → Type 0
IsCodePoint r = (r < 2 ^ 21) × (0 < r)

low_mask : (k b m : ℕ) → m < 2 ^ k → (b * 2 ^ k) & m ≡ 0
low_mask k b m h = and_comm (b * 2 ^ k) m ∙ and_high k m b h

width_small : (w : ℕ) → w < 4 → width_bits w ≡ w * 2 ^ 22
width_small w h = omega arith

-- A width in the word next to a code point or a flag.
pub content-width : (r w : ℕ) → r < 2 ^ 22 → w < 4 → (r ∣ width_bits w) / 2 ^ 22 ≡ w
content-width r w hr hw =
    ap (λ t. (r ∣ t) / 2 ^ 22) (width_small w hw)
    ∙ ap (λ t. t / 2 ^ 22) (or_comm r (w * 2 ^ 22) ∙ or_fields 22 w r hr)
    ∙ omega arith

content_mask : (r w m : ℕ) → w < 4 → m < 2 ^ 22 → (r ∣ width_bits w) & m ≡ r & m
content_mask r w m hw hm = simp (mask_laws, width_small w hw, low_mask 22 w m hm) refl

pub is_single : (r w : ℕ) → r < 2 ^ 21 → w < 4 → (r ∣ width_bits w) & content_is_combined_mask ≡ 0
is_single r w hr hw =
    content_mask r w content_is_combined_mask hw (omega arith) ∙ and_high 21 r 1 hr

pub single_code : (r w : ℕ) → r < 2 ^ 21 → w < 4 → (r ∣ width_bits w) & content_codepoint_mask ≡ r
single_code r w hr hw = content_mask r w content_codepoint_mask hw (omega arith) ∙ and-ones 21 r hr

is_many :
    (w : ℕ)
    → w < 4
    → (content_is_combined_mask ∣ width_bits w) & content_is_combined_mask
      ≡ content_is_combined_mask
is_many w hw = content_mask content_is_combined_mask w content_is_combined_mask hw (omega arith)

times_over : (w : ℕ) → w * 2 ^ 22 / 2 ^ 22 ≡ w
times_over w = omega arith

not_zero : (r : ℕ) → 0 < r → r == 0 ≡ false
not_zero r h = ground arith

-- A tuple of code points (not 0, below 2^21) and a width below 4, stored in a new cell and read again: its
-- attribute, its text and its width come back, and as its code the last code point of the text, or 0.
pub get_as_char_data-round_trip :
    (a : ℕ) (cs : Text) (w k : ℕ)
    → All IsCodePoint cs
    → w < 4
    → get_as_char_data
        (cell_data_from_char_data (record { attr = a; char = cs; width = w; code = k }))
      ≡ record { attr = a; char = cs; width = w; code = last_of 0 cs }
unfolding get_as_char_data get_chars get_width get_code cell_data_from_char_data set_from_char_data
    new_cell_data default_attr_data
get_as_char_data-round_trip a [] w k ok hw =
    rw
      (
        width_small w hw,
        low_mask 22 w content_is_combined_mask (omega arith),
        low_mask 22 w content_codepoint_mask (omega arith),
        times_over w,
      )
      refl
get_as_char_data-round_trip a (r ∷ []) w k ok hw =
    rw
      (
        is_single r w ok.0.0 hw,
        single_code r w ok.0.0 hw,
        not_zero r ok.0.1,
        content-width r w (omega (arith, ok.0.0)) hw,
      )
      refl
get_as_char_data-round_trip a (r ∷ s ∷ cs) w k ok hw =
    rw (is_many w hw, content-width content_is_combined_mask w (omega arith) hw) refl
