-- ===== src/Xterm/Screen/Charsets.antt =====
-- internal/xterm/charset.go, inputhandler_esc.go: the national character sets, and their designation.
use daemontest.Prelude.{ℕ, List, [], ◌∷◌, Option, none, some, ◌==◌, if◌then◌else◌}
use daemontest.Xterm.Buffer.{Charset, setg_charset}
use daemontest.Xterm.Screen.{Screen}

-- The value of a key, the first one listed.
abbrev pub look_up {ℓ} : {A : Type ℓ} → List (ℕ × A) → ℕ → Option A
look_up [] c = none
look_up ((k, v) ∷ rest) c = if k == c then some v else look_up rest c

unfoldable pub charset_dec_special_graphics : List (ℕ × ℕ)
charset_dec_special_graphics =
    (0x60, 0x25C6)
    ∷ (0x61, 0x2592)
    ∷ (0x62, 0x2409)
    ∷ (0x63, 0x240C)
    ∷ (0x64, 0x240D)
    ∷ (0x65, 0x240A)
    ∷ (0x66, 0x00B0)
    ∷ (0x67, 0x00B1)
    ∷ (0x68, 0x2424)
    ∷ (0x69, 0x240B)
    ∷ (0x6A, 0x2518)
    ∷ (0x6B, 0x2510)
    ∷ (0x6C, 0x250C)
    ∷ (0x6D, 0x2514)
    ∷ (0x6E, 0x253C)
    ∷ (0x6F, 0x23BA)
    ∷ (0x70, 0x23BB)
    ∷ (0x71, 0x2500)
    ∷ (0x72, 0x23BC)
    ∷ (0x73, 0x23BD)
    ∷ (0x74, 0x251C)
    ∷ (0x75, 0x2524)
    ∷ (0x76, 0x2534)
    ∷ (0x77, 0x252C)
    ∷ (0x78, 0x2502)
    ∷ (0x79, 0x2264)
    ∷ (0x7A, 0x2265)
    ∷ (0x7B, 0x03C0)
    ∷ (0x7C, 0x2260)
    ∷ (0x7D, 0x00A3)
    ∷ (0x7E, 0x00B7)
    ∷ []

unfoldable pub charset_british : List (ℕ × ℕ)
charset_british = (0x23, 0x00A3) ∷ []

unfoldable pub charset_dutch : List (ℕ × ℕ)
charset_dutch =
    (0x23, 0x00A3)
    ∷ (0x40, 0x00BE)
    ∷ (0x5B, 0x69)
    ∷ (0x5C, 0x00BD)
    ∷ (0x5D, 0x7C)
    ∷ (0x7B, 0x00A8)
    ∷ (0x7C, 0x66)
    ∷ (0x7D, 0x00BC)
    ∷ (0x7E, 0x00B4)
    ∷ []

unfoldable pub charset_finnish : List (ℕ × ℕ)
charset_finnish =
    (0x5B, 0x00C4)
    ∷ (0x5C, 0x00D6)
    ∷ (0x5D, 0x00C5)
    ∷ (0x5E, 0x00DC)
    ∷ (0x60, 0x00E9)
    ∷ (0x7B, 0x00E4)
    ∷ (0x7C, 0x00F6)
    ∷ (0x7D, 0x00E5)
    ∷ (0x7E, 0x00FC)
    ∷ []

unfoldable pub charset_french : List (ℕ × ℕ)
charset_french =
    (0x23, 0x00A3)
    ∷ (0x40, 0x00E0)
    ∷ (0x5B, 0x00B0)
    ∷ (0x5C, 0x00E7)
    ∷ (0x5D, 0x00A7)
    ∷ (0x7B, 0x00E9)
    ∷ (0x7C, 0x00F9)
    ∷ (0x7D, 0x00E8)
    ∷ (0x7E, 0x00A8)
    ∷ []

unfoldable pub charset_french_canadian : List (ℕ × ℕ)
charset_french_canadian =
    (0x40, 0x00E0)
    ∷ (0x5B, 0x00E2)
    ∷ (0x5C, 0x00E7)
    ∷ (0x5D, 0x00EA)
    ∷ (0x5E, 0x00EE)
    ∷ (0x60, 0x00F4)
    ∷ (0x7B, 0x00E9)
    ∷ (0x7C, 0x00F9)
    ∷ (0x7D, 0x00E8)
    ∷ (0x7E, 0x00FB)
    ∷ []

unfoldable pub charset_german : List (ℕ × ℕ)
charset_german =
    (0x40, 0x00A7)
    ∷ (0x5B, 0x00C4)
    ∷ (0x5C, 0x00D6)
    ∷ (0x5D, 0x00DC)
    ∷ (0x7B, 0x00E4)
    ∷ (0x7C, 0x00F6)
    ∷ (0x7D, 0x00FC)
    ∷ (0x7E, 0x00DF)
    ∷ []

unfoldable pub charset_italian : List (ℕ × ℕ)
charset_italian =
    (0x23, 0x00A3)
    ∷ (0x40, 0x00A7)
    ∷ (0x5B, 0x00B0)
    ∷ (0x5C, 0x00E7)
    ∷ (0x5D, 0x00E9)
    ∷ (0x60, 0x00F9)
    ∷ (0x7B, 0x00E0)
    ∷ (0x7C, 0x00F2)
    ∷ (0x7D, 0x00E8)
    ∷ (0x7E, 0x00EC)
    ∷ []

unfoldable pub charset_norwegian_danish : List (ℕ × ℕ)
charset_norwegian_danish =
    (0x40, 0x00C4)
    ∷ (0x5B, 0x00C6)
    ∷ (0x5C, 0x00D8)
    ∷ (0x5D, 0x00C5)
    ∷ (0x5E, 0x00DC)
    ∷ (0x60, 0x00E4)
    ∷ (0x7B, 0x00E6)
    ∷ (0x7C, 0x00F8)
    ∷ (0x7D, 0x00E5)
    ∷ (0x7E, 0x00FC)
    ∷ []

unfoldable pub charset_spanish : List (ℕ × ℕ)
charset_spanish =
    (0x23, 0x00A3)
    ∷ (0x40, 0x00A7)
    ∷ (0x5B, 0x00A1)
    ∷ (0x5C, 0x00D1)
    ∷ (0x5D, 0x00BF)
    ∷ (0x7B, 0x00B0)
    ∷ (0x7C, 0x00F1)
    ∷ (0x7D, 0x00E7)
    ∷ []

unfoldable pub charset_swedish : List (ℕ × ℕ)
charset_swedish =
    (0x40, 0x00C9)
    ∷ (0x5B, 0x00C4)
    ∷ (0x5C, 0x00D6)
    ∷ (0x5D, 0x00C5)
    ∷ (0x5E, 0x00DC)
    ∷ (0x60, 0x00E9)
    ∷ (0x7B, 0x00E4)
    ∷ (0x7C, 0x00F6)
    ∷ (0x7D, 0x00E5)
    ∷ (0x7E, 0x00FC)
    ∷ []

unfoldable pub charset_swiss : List (ℕ × ℕ)
charset_swiss =
    (0x23, 0x00F9)
    ∷ (0x40, 0x00E0)
    ∷ (0x5B, 0x00E9)
    ∷ (0x5C, 0x00E7)
    ∷ (0x5D, 0x00EA)
    ∷ (0x5E, 0x00EE)
    ∷ (0x5F, 0x00E8)
    ∷ (0x60, 0x00F4)
    ∷ (0x7B, 0x00E4)
    ∷ (0x7C, 0x00F6)
    ∷ (0x7D, 0x00FC)
    ∷ (0x7E, 0x00FB)
    ∷ []

abbrev pub as_charset : List (ℕ × ℕ) → Charset
as_charset entries = some (look_up entries)

-- The flags, and what they stand for.
unfoldable pub charsets_by_flag : List (ℕ × Charset)
unfolding charset_dec_special_graphics charset_british charset_dutch charset_finnish charset_french
    charset_french_canadian charset_german charset_italian charset_norwegian_danish charset_spanish
    charset_swedish charset_swiss
charsets_by_flag =
    (0x42, none)
    ∷ (0x30, as_charset charset_dec_special_graphics)
    ∷ (0x41, as_charset charset_british)
    ∷ (0x34, as_charset charset_dutch)
    ∷ (0x43, as_charset charset_finnish)
    ∷ (0x35, as_charset charset_finnish)
    ∷ (0x52, as_charset charset_french)
    ∷ (0x51, as_charset charset_french_canadian)
    ∷ (0x4B, as_charset charset_german)
    ∷ (0x59, as_charset charset_italian)
    ∷ (0x45, as_charset charset_norwegian_danish)
    ∷ (0x36, as_charset charset_norwegian_danish)
    ∷ (0x5A, as_charset charset_spanish)
    ∷ (0x48, as_charset charset_swedish)
    ∷ (0x37, as_charset charset_swedish)
    ∷ (0x3D, as_charset charset_swiss)
    ∷ []

-- `glevelMap`, by the byte that comes first.
unfoldable pub glevel_map : List (ℕ × ℕ)
glevel_map = (0x28, 0) ∷ (0x29, 1) ∷ (0x2A, 2) ∷ (0x2B, 3) ∷ (0x2D, 1) ∷ (0x2E, 2) ∷ (0x2F, 3) ∷ []

abbrev charset_or_default : Option Charset → Charset
charset_or_default none = none
charset_or_default (some c) = c

-- Of the two bytes.
unfoldable pub select_charset : ℕ → ℕ → Screen → Screen
unfolding charsets_by_flag glevel_map setg_charset
select_charset collect flag s = if collect == 0x2F then s else elim (look_up glevel_map collect) [
  | none ↦ s
  | some g ↦ record s {
    charset_service =
        setg_charset g (charset_or_default (look_up charsets_by_flag flag)) s.charset_service;
  }
]
