-- ===== src/Xterm/Sgr/Colors.antt =====
-- internal/xterm/inputhandler_sgr.go: whole sequences, with colors of 256 and of 24 bits.
use daemontest.Prelude.{
  ℕ, ◌+◌, ◌*◌, ◌%◌, ◌^◌, ◌<◌, ◌≡◌, refl, ap₂, ◌∙◌, false, List, [], ◌∷◌, ◌++◌, some, arith, lt→ltb,
  get_or,
}
use daemontest.Prelude.Int.{ℤ, pos, negsuc}
use daemontest.Prelude.Bits.{
  ◌&◌, ◌∣◌, mask_not, mask_laws, or_fields, or-absorb, and_high, and-ones,
}
use daemontest.Xterm.Params.{Params, has_sub_params}
use daemontest.Xterm.Attr.{
  attr_cm_rgb, attr_rgb_mask, attr_cm_mask, attr_pcolor_mask, attr_cm_p256, AttributeData,
  from_color_rgb, set_underline_color, underline_color,
}
use daemontest.Xterm.Attr.Look.{Look, Color, rgb, palette256, look}
use daemontest.Xterm.Sgr.{
  collect, apply_color, update_attr_color, accu_color, underline_recolored, is_color, new_accu,
}
use daemontest.Xterm.Sgr.Refine.{look_plain, look-update_extended, on_fg, on_bg}

-- What a sequence can ask for.
pub data Target : Type 0 where
  fore back under : Target

pub data Command : Type 0 where
  one : ℕ → Command
  true_color : Target → ℕ → ℕ → ℕ → Command
  indexed : Target → ℕ → Command

abbrev pub selector : Target → ℕ
selector fore = 38
selector back = 48
selector under = 58

-- The parameters of a command, split by semicolons.
abbrev pub encode : Command → List ℤ
encode (one p) = pos p ∷ []
encode (true_color t r g b) = pos (selector t) ∷ pos 2 ∷ pos r ∷ pos g ∷ pos b ∷ []
encode (indexed t n) = pos (selector t) ∷ pos 5 ∷ pos n ∷ []

abbrev pub encode_all : List Command → List ℤ
encode_all [] = []
encode_all (c ∷ cs) = encode c ++ encode_all cs

abbrev pub with_color : Target → Color → Look → Look
with_color fore c = on_fg (λ f. record f { color = c })
with_color back c = on_bg (λ b. record b { color = c })
with_color under c = λ l. record l { ext = record (l.ext) { color = c } }

-- What a command means.
abbrev pub meaning : Command → Look → Look
meaning (one p) = look_plain (pos 1) (pos p)
meaning (true_color t r g b) = with_color t (rgb (r * 65536 + g * 256 + b))
meaning (indexed t n) = with_color t (palette256 n)

abbrev pub meanings : List Command → Look → Look
meanings [] l = l
meanings (c ∷ cs) l = meanings cs (meaning c l)

-- The values are bytes, and a lone parameter selects no color.
abbrev pub IsProper : Command → Type 0
IsProper (one p) = is_color (pos p) ≡ false
IsProper (true_color t r g b) = (r < 256) × (g < 256) × (b < 256)
IsProper (indexed t n) = n < 256

pub from_color_rgb-sum :
    (r g b : ℕ) → r < 256 → g < 256 → b < 256 → from_color_rgb (r, g, b) ≡ r * 65536 + g * 256 + b
unfolding from_color_rgb
from_color_rgb-sum r g b hr hg hb =
    ap₂ (λ s t. s ∣ t)
      (ap₂ (λ s t. s * 2 ^ 16 ∣ t * 2 ^ 8) (and-ones 8 r hr) (and-ones 8 g hg)
        ∙ or_fields 16 r (g * 2 ^ 8) (omega arith)
        ∙ regroup)
      (and-ones 8 b hb)
    ∙ or_fields 8 (r * 2 ^ 8 + g) b (omega arith)
    ∙ omega arith
  where
    regroup : r * 2 ^ 16 + g * 2 ^ 8 ≡ (r * 2 ^ 8 + g) * 2 ^ 8
    regroup = omega arith

-- The words that the two modes make.
abbrev rgb_word : ℕ → ℕ → ℕ
rgb_word n w = (w ∣ attr_cm_rgb) & mask_not attr_rgb_mask ∣ n

abbrev p256_word : ℕ → ℕ → ℕ
p256_word n w = w & mask_not (attr_cm_mask ∣ attr_pcolor_mask) ∣ (attr_cm_p256 ∣ n)

module _ (n : ℕ) (a : AttributeData) where
  look-rgb_fg :
      n < 2 ^ 24
      → look (record a { fg = rgb_word n a.fg }) ≡ on_fg (λ f. record f { color = rgb n }) (look a)
  unfolding look
  look-rgb_fg h =
      simp
        (
          mask_laws,
          or-absorb a.fg attr_cm_mask,
          and_high 24 n 3 h,
          and-ones 24 n h,
          and_high 26 n 1 (omega arith),
          and_high 27 n 1 (omega arith),
          and_high 28 n 1 (omega arith),
          and_high 29 n 1 (omega arith),
          and_high 30 n 1 (omega arith),
          and_high 31 n 1 (omega arith),
        )
        refl

  look-rgb_bg :
      n < 2 ^ 24
      → look (record a { bg = rgb_word n a.bg }) ≡ on_bg (λ f. record f { color = rgb n }) (look a)
  unfolding look
  look-rgb_bg h =
      simp
        (
          mask_laws,
          or-absorb a.bg attr_cm_mask,
          and_high 24 n 3 h,
          and-ones 24 n h,
          and_high 26 n 1 (omega arith),
          and_high 27 n 1 (omega arith),
          and_high 29 n 1 (omega arith),
          and_high 30 n 1 (omega arith),
        )
        refl

  look-p256_fg :
      n < 256
      → look (record a { fg = p256_word n a.fg })
        ≡ on_fg (λ f. record f { color = palette256 n }) (look a)
  unfolding look
  look-p256_fg h =
      simp
        (
          mask_laws,
          and_high 8 n 0x300_00 h,
          and-ones 8 n h,
          and_high 26 n 1 (omega arith),
          and_high 27 n 1 (omega arith),
          and_high 28 n 1 (omega arith),
          and_high 29 n 1 (omega arith),
          and_high 30 n 1 (omega arith),
          and_high 31 n 1 (omega arith),
        )
        refl

  look-p256_bg :
      n < 256
      → look (record a { bg = p256_word n a.bg })
        ≡ on_bg (λ f. record f { color = palette256 n }) (look a)
  unfolding look
  look-p256_bg h =
      simp
        (
          mask_laws,
          and_high 8 n 0x300_00 h,
          and-ones 8 n h,
          and_high 26 n 1 (omega arith),
          and_high 27 n 1 (omega arith),
          and_high 29 n 1 (omega arith),
          and_high 30 n 1 (omega arith),
        )
        refl

  look-rgb_under :
      n < 2 ^ 24 → look (underline_recolored (rgb_word n) a) ≡ with_color under (rgb n) (look a)
  unfolding look underline_recolored set_underline_color underline_color
  look-rgb_under h =
      simp (mask_laws, or-absorb a.extended.ext attr_cm_mask, and_high 24 n 3 h, and-ones 24 n h)
        refl

  look-p256_under :
      n < 256
      → look (underline_recolored (p256_word n) a) ≡ with_color under (palette256 n) (look a)
  unfolding look underline_recolored set_underline_color underline_color
  look-p256_under h = simp (mask_laws, and_high 8 n 0x300_00 h, and-ones 8 n h) refl

byte-low : (n : ℕ) → n < 256 → n % 256 ≡ n
byte-low n h = omega arith

module _ (p : Params) (at : ℕ) (no_subs : (i : ℕ) → i < p.len → has_sub_params p i ≡ false) where
  pub collect-rgb :
      (t : ℕ) (r g b : ℕ)
      → at + 4 < p.len
      → get_or p.params (at + 0) (pos 0) ≡ pos t
      → get_or p.params (at + 1) (pos 0) ≡ pos 2
      → get_or p.params (at + 2) (pos 0) ≡ pos r
      → get_or p.params (at + 3) (pos 0) ≡ pos g
      → get_or p.params (at + 4) (pos 0) ≡ pos b
      → collect 6 p at new_accu 0 0
        ≡ some (pos t ∷ pos 2 ∷ negsuc 0 ∷ pos r ∷ pos g ∷ pos b ∷ [], 4)
  unfolding collect
  collect-rgb t r g b h e0 e1 e2 e3 e4 =
      rw
        (
          e0,
          e1,
          e2,
          e3,
          e4,
          lt→ltb (at + 0) p.len (omega arith),
          lt→ltb (at + 1) p.len (omega arith),
          lt→ltb (at + 2) p.len (omega arith),
          lt→ltb (at + 3) p.len (omega arith),
          lt→ltb (at + 4) p.len (omega arith),
          no_subs (at + 0) (omega arith),
          no_subs (at + 1) (omega arith),
          no_subs (at + 2) (omega arith),
          no_subs (at + 3) (omega arith),
          no_subs (at + 4) (omega arith),
        )
        (ground arith)

  pub collect-indexed :
      (t n : ℕ)
      → at + 2 < p.len
      → get_or p.params (at + 0) (pos 0) ≡ pos t
      → get_or p.params (at + 1) (pos 0) ≡ pos 5
      → get_or p.params (at + 2) (pos 0) ≡ pos n
      → collect 6 p at new_accu 0 0
        ≡ some (pos t ∷ pos 5 ∷ negsuc 0 ∷ pos n ∷ pos 0 ∷ pos 0 ∷ [], 2)
  unfolding collect
  collect-indexed t n h e0 e1 e2 =
      rw
        (
          e0,
          e1,
          e2,
          lt→ltb (at + 0) p.len (omega arith),
          lt→ltb (at + 1) p.len (omega arith),
          lt→ltb (at + 2) p.len (omega arith),
          no_subs (at + 0) (omega arith),
          no_subs (at + 1) (omega arith),
          no_subs (at + 2) (omega arith),
        )
        (ground arith)

pub apply-indexed :
    (t : Target) (n : ℕ) (a : AttributeData)
    → n < 256
    → look (apply_color (pos (selector t) ∷ pos 5 ∷ pos 0 ∷ pos n ∷ pos 0 ∷ pos 0 ∷ []) a)
      ≡ with_color t (palette256 n) (look a)
unfolding apply_color update_attr_color accu_color
apply-indexed fore n a h = rw (byte-low n h) (look-p256_fg n a h)
apply-indexed back n a h = rw (byte-low n h) (look-p256_bg n a h)
apply-indexed under n a h =
    look-update_extended (underline_recolored (p256_word (n % 256)) a)
    ∙ rw (byte-low n h) (look-p256_under n a h)

rgb_small : (r g b : ℕ) → r < 256 → g < 256 → b < 256 → from_color_rgb (r, g, b) < 2 ^ 24
rgb_small r g b hr hg hb = omega (arith, from_color_rgb-sum r g b hr hg hb)

pub apply-rgb :
    (t : Target) (r g b : ℕ) (a : AttributeData)
    → r < 256
    → g < 256
    → b < 256
    → look (apply_color (pos (selector t) ∷ pos 2 ∷ pos 0 ∷ pos r ∷ pos g ∷ pos b ∷ []) a)
      ≡ with_color t (rgb (r * 65536 + g * 256 + b)) (look a)
unfolding apply_color update_attr_color accu_color
apply-rgb fore r g b a hr hg hb =
    rw (byte-low r hr, byte-low g hg, byte-low b hb, ← from_color_rgb-sum r g b hr hg hb)
      (look-rgb_fg (from_color_rgb (r, g, b)) a (rgb_small r g b hr hg hb))
apply-rgb back r g b a hr hg hb =
    rw (byte-low r hr, byte-low g hg, byte-low b hb, ← from_color_rgb-sum r g b hr hg hb)
      (look-rgb_bg (from_color_rgb (r, g, b)) a (rgb_small r g b hr hg hb))
apply-rgb under r g b a hr hg hb =
    look-update_extended
      (underline_recolored (rgb_word (from_color_rgb (r % 256, g % 256, b % 256))) a)
    ∙ rw (byte-low r hr, byte-low g hg, byte-low b hb, ← from_color_rgb-sum r g b hr hg hb)
        (look-rgb_under (from_color_rgb (r, g, b)) a (rgb_small r g b hr hg hb))
