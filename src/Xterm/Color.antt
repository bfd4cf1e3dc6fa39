-- ===== src/Xterm/Color.antt =====
-- internal/xterm/inputhandler_osc.go, types.go: the colors that OSC strings set, query and restore.
mod RoundTrip
mod Indices
mod Tests
use daemontest.Prelude.{
  ℕ, zero, suc, ◌+◌, ◌-◌, ◌*◌, ◌/◌, ◌%◌, Bool, true, false, not, ◌&&◌, ◌||◌, List, [], ◌∷◌, ◌++◌,
  Option, none, some, ltb, leb, ◌==◌, if◌then◌else◌, length, take, drop,
}
use daemontest.Prelude.Bytes.{codes, bytes_eq}
use daemontest.Xterm.Cell.{Text}

-- Red, green and blue
abbrev pub ColorRgb : Type 0
ColorRgb = ℕ × ℕ × ℕ

pub data ColorRequestType : Type 0 where
  report_color set_color restore_color : ColorRequestType

-- `none` is a nil color. The restore of all colors has the index 0, as a new record has.
pub record ColorEvent : Type 0 where
  pub kind : ColorRequestType
  pub index : ℕ
  pub color : Option ColorRgb

-- `strings.Split`, by one code
unfoldable pub split : ℕ → Text → List Text
split at [] = [] ∷ []
split at (c ∷ cs) = elim (split at cs) [
  | [] ↦ (c ∷ []) ∷ []
  | first ∷ rest ↦ if c == at then [] ∷ first ∷ rest else (c ∷ first) ∷ rest
]

abbrev pub is_digit : ℕ → Bool
is_digit c = leb 48 c && leb c 57

abbrev pub is_hex : ℕ → Bool
is_hex c = is_digit c || leb 65 c && leb c 70 || leb 97 c && leb c 102

abbrev pub all_of : (ℕ → Bool) → Text → Bool
all_of test [] = true
all_of test (c ∷ cs) = test c && all_of test cs

-- `^\d+$`
unfoldable pub is_digit_string : Text → Bool
is_digit_string s = ltb 0 (length s) && all_of is_digit s

-- `strconv.Atoi` of digits; a number that does not fit is no valid index, and neither is the largest int.
unfoldable pub atoi_onto : ℕ → Text → ℕ
atoi_onto n [] = n
atoi_onto n (c ∷ cs) = atoi_onto (n * 10 + (c - 48)) cs

abbrev pub hex_value : ℕ → ℕ
hex_value c = if leb c 57 then c - 48 else if leb c 70 then c - 55 else c - 87

-- `strconv.ParseInt`, of at most 4 digits
unfoldable pub parse_hex : ℕ → Text → ℕ
parse_hex n [] = n
parse_hex n (c ∷ cs) = parse_hex (n * 16 + hex_value c) cs

unfoldable pub scale_hex_channel : Text → ℕ
unfolding parse_hex
scale_hex_channel s =
    let v = parse_hex 0 s in
    if length s == 1
    then v * 17 % 256
    else if length s == 2
    then v % 256
    else if length s == 3
    then v / 16 % 256
    else if length s == 4
    then v / 256 % 256
    else v % 256

-- `[0-9a-fA-F]{1,4}`
abbrev pub is_channel : Text → Bool
is_channel s = ltb 0 (length s) && leb (length s) 4 && all_of is_hex s

-- What follows `rgb:`
unfoldable pub rgb_color : List Text → Option ColorRgb
unfolding scale_hex_channel
rgb_color (r ∷ g ∷ b ∷ []) =
    if is_channel r && is_channel g && is_channel b
    then some (scale_hex_channel r, scale_hex_channel g, scale_hex_channel b)
    else none
rgb_color _ = none

-- `parseHex(hex[i:j])` of `n` codes from number `i` on
abbrev pub hex_at : ℕ → ℕ → Text → ℕ
unfolding parse_hex
hex_at i n s = parse_hex 0 (take n (drop i s))

-- What follows `#`
unfoldable pub hash_color : Text → Option ColorRgb
unfolding hex_at
hash_color s =
    let n = length s in
    if not (all_of is_hex s)
    then none
    else if n == 3
    then some (hex_at 0 1 s * 16, hex_at 1 1 s * 16, hex_at 2 1 s * 16)
    else if n == 6
    then some (hex_at 0 2 s, hex_at 2 2 s, hex_at 4 2 s)
    else if n == 9
    then some (hex_at 0 2 s, hex_at 3 2 s, hex_at 6 2 s)
    else if n == 12
    then some (hex_at 0 2 s, hex_at 4 2 s, hex_at 8 2 s)
    else none

-- What follows a prefix.
unfoldable pub after_prefix : Text → Text → Option Text
after_prefix [] s = some s
after_prefix (p ∷ ps) [] = none
after_prefix (p ∷ ps) (c ∷ cs) = let rest = after_prefix ps cs in if c == p then rest else none

-- A text that begins with the one prefix does not begin with the other.
unfoldable pub parse_color : Text → Option ColorRgb
unfolding rgb_color hash_color split after_prefix
parse_color s = elim (after_prefix (codes "rgb:") s) [
  | some rest ↦ rgb_color (split 47 rest)
  | none ↦ elim (after_prefix (codes "#") s) [ none ↦ none | some hex ↦ hash_color hex ]
]

unfoldable pub is_valid_color_index : ℕ → Bool
is_valid_color_index index = ltb index 256

-- A number that is a valid index.
unfoldable pub index_of : Text → Option ℕ
unfolding is_digit_string atoi_onto is_valid_color_index
index_of s =
    let index = atoi_onto 0 s in
    if is_digit_string s && is_valid_color_index index then some index else none

abbrev pub set_event : ℕ → Option ColorRgb → List ColorEvent
set_event index none = []
set_event index (some c) = record { kind = set_color; index = index; color = some c } ∷ []

abbrev pub bare : ColorRequestType → ℕ → ColorEvent
bare kind index = record { kind = kind; index = index; color = none }

unfoldable pub color_event : ℕ → Text → List ColorEvent
unfolding parse_color
color_event index spec =
    if bytes_eq spec (codes "?")
    then bare report_color index ∷ []
    else set_event index (parse_color spec)

abbrev pub indexed_event : Option ℕ → Text → List ColorEvent
unfolding color_event
indexed_event none spec = []
indexed_event (some index) spec = color_event index spec

unfoldable pub indexed_events : List Text → List ColorEvent
unfolding index_of indexed_event
indexed_events [] = []
indexed_events (s ∷ []) = []
indexed_events (idx ∷ spec ∷ slots) = indexed_event (index_of idx) spec ++ indexed_events slots

-- What is fired: an event with the list, if it is not empty.
abbrev pub fired : List ColorEvent → List (List ColorEvent)
fired [] = []
fired (e ∷ es) = (e ∷ es) ∷ []

unfoldable pub set_or_report_indexed_color : Text → List (List ColorEvent)
unfolding indexed_events split
set_or_report_indexed_color data_text = fired (indexed_events (split 59 data_text))

-- `specialColors` has the numbers 256 to 258.
unfoldable pub special_events : List Text → ℕ → List (List ColorEvent)
unfolding color_event
special_events [] offset = []
special_events (s ∷ slots) offset =
    let rest = special_events slots (offset + 1) in
    if ltb offset 3 then fired (color_event (256 + offset) s) ++ rest else []

unfoldable pub set_or_report_special_color : Text → ℕ → List (List ColorEvent)
unfolding special_events split
set_or_report_special_color data_text offset = special_events (split 59 data_text) offset

abbrev pub restore_event : Option ℕ → List ColorEvent
restore_event none = []
restore_event (some index) = bare restore_color index ∷ []

unfoldable pub restore_events : List Text → List ColorEvent
unfolding index_of
restore_events [] = []
restore_events (s ∷ slots) = restore_event (index_of s) ++ restore_events slots

unfoldable pub restore_indexed_color : Text → List (List ColorEvent)
unfolding restore_events split
restore_indexed_color data_text =
    if length data_text == 0
    then (bare restore_color 0 ∷ []) ∷ []
    else fired (restore_events (split 59 data_text))

-- `RestoreFgColor`, `RestoreBgColor` and `RestoreCursorColor`, for 0, 1 and 2
unfoldable pub restore_special_color : ℕ → List (List ColorEvent)
restore_special_color offset = (bare restore_color (256 + offset) ∷ []) ∷ []
