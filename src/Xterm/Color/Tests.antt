-- ===== src/Xterm/Color/Tests.antt =====
-- internal/xterm/inputhandler_osc.go: the colors of inputhandler_osc_test.go.
use daemontest.Prelude.{◌≡◌, refl, [], ◌∷◌, some, none, arith}
use daemontest.Prelude.Bytes.{codes, bytes_eq}
use daemontest.Xterm.Color.{
  split, is_digit_string, atoi_onto, is_valid_color_index, index_of, parse_hex, scale_hex_channel,
  rgb_color, hash_color, after_prefix, parse_color, color_event, indexed_events,
  set_or_report_indexed_color, hex_at, indexed_event, set_color,
}
use daemontest.Xterm.Color.RoundTrip.{hash_text, rgb_text, parse_color-text}

parse_color-short : parse_color (codes "rgb:f/8/0") ≡ some (255, 136, 0)
unfolding parse_color after_prefix rgb_color split scale_hex_channel parse_hex
parse_color-short = refl

parse_color-wrong : parse_color (codes "red") ≡ none
unfolding parse_color after_prefix
parse_color-wrong = refl

set_one :
    set_or_report_indexed_color (codes "1;#ff0000;300;?")
    ≡ ((record { kind = set_color; index = 1; color = some (255, 0, 0) }) ∷ []) ∷ []
unfolding set_or_report_indexed_color split indexed_events indexed_event index_of is_digit_string
    atoi_onto is_valid_color_index color_event parse_color after_prefix hash_color hex_at parse_hex
    bytes_eq
set_one = refl

parse_color-text_example :
    (parse_color (hash_text (255, 128, 0)) ≡ some (255, 128, 0))
    × (parse_color (rgb_text (255, 128, 0)) ≡ some (255, 128, 0))
parse_color-text_example = parse_color-text 255 128 0 (omega arith) (omega arith) (omega arith)
