-- ===== src/Xterm/Color/RoundTrip.antt =====
-- internal/xterm/inputhandler_osc.go: a color that is written in hexadecimal digits, and read.
use daemontest.Prelude.{
  ℕ, ◌+◌, ◌/◌, ◌%◌, ◌<◌, ◌≡◌, refl, true, false, List, [], ◌∷◌, ◌++◌, some, ltb, ◌==◌,
  if◌then◌else◌, arith,
}
use daemontest.Prelude.Bytes.{codes}
use daemontest.Xterm.Cell.{Text}
use daemontest.Xterm.Color.{
  ColorRgb, split, is_hex, all_of, hex_value, parse_hex, scale_hex_channel, rgb_color, hex_at,
  hash_color, after_prefix, parse_color,
}

-- The digits of a byte.
abbrev pub hex_digit : ℕ → ℕ
hex_digit n = if ltb n 10 then 48 + n else 87 + n

abbrev pub hex_byte : ℕ → Text
hex_byte n = hex_digit (n / 16) ∷ hex_digit (n % 16) ∷ []

-- `#RRGGBB` and `rgb:RR/GG/BB`
abbrev pub hash_text : ColorRgb → Text
hash_text (r, g, b) = codes "#" ++ hex_byte r ++ hex_byte g ++ hex_byte b

abbrev pub rgb_text : ColorRgb → Text
rgb_text (r, g, b) =
    codes "rgb:" ++ hex_byte r ++ codes "/" ++ hex_byte g ++ codes "/" ++ hex_byte b

hex_digit-hex : (n : ℕ) → n < 16 → is_hex (hex_digit n) ≡ true
hex_digit-hex n h = ground (arith, h)

hex_value-hex_digit : (n : ℕ) → n < 16 → hex_value (hex_digit n) ≡ n
hex_value-hex_digit n h = ground (arith, h)

hex_digit-slash : (n : ℕ) → n < 16 → (hex_digit n == 47) ≡ false
hex_digit-slash n h = ground (arith, h)

high-in : (n : ℕ) → n < 256 → n / 16 < 16
high-in n h = omega (arith, h)

low-in : (n : ℕ) → n % 16 < 16
low-in n = omega arith

parse_hex-hex_byte : (n : ℕ) → n < 256 → parse_hex 0 (hex_byte n) ≡ n
unfolding parse_hex
parse_hex-hex_byte n h =
    rw (hex_value-hex_digit (n / 16) (high-in n h), hex_value-hex_digit (n % 16) (low-in n))
      (omega (arith, h))

hex_byte-hex :
    (n : ℕ) (rest : Text) → n < 256 → all_of is_hex (hex_byte n ++ rest) ≡ all_of is_hex rest
hex_byte-hex n rest h =
    rw (hex_digit-hex (n / 16) (high-in n h), hex_digit-hex (n % 16) (low-in n)) refl

hash_color-hash_text :
    (r g b : ℕ)
    → r < 256
    → g < 256
    → b < 256
    → hash_color (hex_byte r ++ hex_byte g ++ hex_byte b) ≡ some (r, g, b)
unfolding hash_color hex_at
hash_color-hash_text r g b hr hg hb =
    rw
      (
        hex_byte-hex r (hex_byte g ++ hex_byte b) hr,
        hex_byte-hex g (hex_byte b) hg,
        hex_byte-hex b [] hb,
      )
      (rw (parse_hex-hex_byte r hr, parse_hex-hex_byte g hg, parse_hex-hex_byte b hb) refl)

scale_hex_channel-hex_byte : (n : ℕ) → n < 256 → scale_hex_channel (hex_byte n) ≡ n
unfolding scale_hex_channel
scale_hex_channel-hex_byte n h = rw (parse_hex-hex_byte n h) (omega (arith, h))

-- A first code that is no slash goes to the first part.
split-other :
    (c : ℕ) (cs first : Text) (rest : List Text)
    → (c == 47) ≡ false
    → split 47 cs ≡ first ∷ rest
    → split 47 (c ∷ cs) ≡ (c ∷ first) ∷ rest
unfolding split
split-other c cs first rest h e = rw (split, e, h) refl

split-slash :
    (cs first : Text) (rest : List Text)
    → split 47 cs ≡ first ∷ rest
    → split 47 (47 ∷ cs) ≡ [] ∷ first ∷ rest
unfolding split
split-slash cs first rest e = rw (split, e) refl

split-hex_byte :
    (n : ℕ) (cs first : Text) (rest : List Text)
    → n < 256
    → split 47 cs ≡ first ∷ rest
    → split 47 (hex_byte n ++ cs) ≡ (hex_byte n ++ first) ∷ rest
split-hex_byte n cs first rest h e =
    split-other (hex_digit (n / 16)) (hex_digit (n % 16) ∷ cs) (hex_digit (n % 16) ∷ first) rest
      (hex_digit-slash (n / 16) (high-in n h))
      (split-other (hex_digit (n % 16)) cs first rest (hex_digit-slash (n % 16) (low-in n)) e)

split_empty : split 47 [] ≡ [] ∷ []
unfolding split
split_empty = refl

split-rgb_text :
    (r g b : ℕ)
    → r < 256
    → g < 256
    → b < 256
    → split 47 (hex_byte r ++ 47 ∷ hex_byte g ++ 47 ∷ hex_byte b)
      ≡ hex_byte r ∷ hex_byte g ∷ hex_byte b ∷ []
split-rgb_text r g b hr hg hb =
    let blue = split-hex_byte b [] [] [] hb split_empty in
    let green =
      split-hex_byte g (47 ∷ hex_byte b) [] (hex_byte b ∷ []) hg
        (split-slash (hex_byte b) (hex_byte b) [] blue) in
    split-hex_byte r (47 ∷ hex_byte g ++ 47 ∷ hex_byte b) [] (hex_byte g ∷ hex_byte b ∷ []) hr
      (split-slash (hex_byte g ++ 47 ∷ hex_byte b) (hex_byte g) (hex_byte b ∷ []) green)

rgb_color-hex_bytes :
    (r g b : ℕ)
    → r < 256
    → g < 256
    → b < 256
    → rgb_color (hex_byte r ∷ hex_byte g ∷ hex_byte b ∷ []) ≡ some (r, g, b)
unfolding rgb_color
rgb_color-hex_bytes r g b hr hg hb =
    rw (hex_byte-hex r [] hr, hex_byte-hex g [] hg, hex_byte-hex b [] hb)
      (rw
        (
          scale_hex_channel-hex_byte r hr,
          scale_hex_channel-hex_byte g hg,
          scale_hex_channel-hex_byte b hb,
        )
        refl)

-- A color of three bytes, written as `#RRGGBB` or as `rgb:RR/GG/BB` in small digits, is read again.
pub parse_color-text :
    (r g b : ℕ)
    → r < 256
    → g < 256
    → b < 256
    → (parse_color (hash_text (r, g, b)) ≡ some (r, g, b))
      × (parse_color (rgb_text (r, g, b)) ≡ some (r, g, b))
unfolding parse_color after_prefix
parse_color-text r g b hr hg hb = (
  hash_color-hash_text r g b hr hg hb,
  rw (split-rgb_text r g b hr hg hb) (rgb_color-hex_bytes r g b hr hg hb),
)
