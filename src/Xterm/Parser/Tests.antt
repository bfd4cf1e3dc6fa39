-- ===== src/Xterm/Parser/Tests.antt =====
-- Runs of internal/xterm/parser.go.
use daemontest.Prelude.{ℕ, ◌≡◌, refl, List, [], ◌∷◌, ◌++◌, Option, none, some, map}
use daemontest.Prelude.Bytes.{codes}
use daemontest.Xterm.Table.{dcs_passthrough, transition}
use daemontest.Xterm.Parser.{
  Parser, Event, printed, csi, dcs_data, osc_started, osc_data, osc_ended, new_parser, parse, round,
  act, span, goto,
}
use daemontest.Xterm.Parser.Reference.{feed_all, spread_all, feed}
use daemontest.Xterm.Parser.Runs.{Clean}
use daemontest.Xterm.Parser.Equivalence.{parse-feed_all}
use daemontest.Xterm.Parser.Chunks.{parse-append, parse_del}

-- A string, two digits of a parameter, and a title: `hi ESC [ 42 m`, `ESC ] 0;t BEL`
abbrev input : List ℕ
input = codes "hi" ++ 0x1b ∷ codes "[42m" ++ 0x1b ∷ codes "]0;t" ++ 7 ∷ []

abbrev events_of : Option (List Event × Parser) → List Event
events_of none = []
events_of (some r) = r.0

-- What is left of an event for a test: a tag, and the code or the text.
abbrev seen : Event → List ℕ
seen (printed cs) = 1 ∷ cs
seen (csi ident ps) = 2 ∷ ident ∷ []
seen (osc_data cs) = 3 ∷ cs
seen osc_started = 4 ∷ []
seen (osc_ended ok) = 5 ∷ []
seen _ = 6 ∷ []

parsed :
    map seen (events_of (parse new_parser input))
    ≡ (1 ∷ codes "hi") ∷ (2 ∷ b'm' ∷ []) ∷ (4 ∷ []) ∷ (3 ∷ codes "0;t") ∷ (5 ∷ []) ∷ []
unfolding parse round act span transition new_parser
parsed = refl

-- `hi ESC [ 4 m`
abbrev short : List ℕ
short = codes "hi" ++ 0x1b ∷ codes "[4m"

short-Clean : Clean new_parser short
unfolding new_parser feed round act span transition
short-Clean = (tt, (tt, (tt, (tt, (tt, (tt, tt))))))

parse-feed_all_example :
    (events : List Event) × (parse new_parser short ≡ some (events, (feed_all new_parser short).1))
    × (spread_all events ≡ (feed_all new_parser short).0)
parse-feed_all_example = parse-feed_all new_parser short short-Clean

-- cut between `ESC [` and `4 m`
parse-append_example :
    (first second whole : List Event) × (q r : Parser) × (parse new_parser
        (codes "hi" ++ 0x1b ∷ codes "[")
      ≡ some (first, q))
    × (parse q (codes "4m") ≡ some (second, r))
    × (parse new_parser short ≡ some (whole, r))
    × (spread_all whole ≡ spread_all first ++ spread_all second)
parse-append_example =
    parse-append new_parser (codes "hi" ++ 0x1b ∷ codes "[") (codes "4m") short-Clean

abbrev in_payload : Parser
in_payload = goto dcs_passthrough new_parser

parse_del_example :
    (parse in_payload (0x7f ∷ 0x7f ∷ b'q' ∷ 0x7f ∷ [])
      ≡ some (dcs_data (b'q' ∷ 0x7f ∷ []) ∷ [], in_payload))
    × (parse in_payload (0x7f ∷ 0x7f ∷ []) ≡ some ([], in_payload))
parse_del_example = parse_del in_payload 2 b'q' (0x7f ∷ []) refl refl refl (refl, tt)
