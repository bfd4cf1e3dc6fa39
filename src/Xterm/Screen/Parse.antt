-- ===== src/Xterm/Screen/Parse.antt =====
-- internal/xterm/inputhandler.go: `Parse`, from bytes to the screen. `none` is a panic. The sub-parsers of
-- strings and their handlers are an argument, with the state that they have. What `FullReset` clears in
-- the parser is cleared again before it is read, and left out.
pub mod Text
mod Tests
use daemontest.Prelude.{
  ℕ, zero, suc, ◌+◌, ◌-◌, Bool, true, false, not, ◌&&◌, ◌||◌, List, [], ◌∷◌, ◌++◌, map, Option,
  none, some, ltb, leb, ◌==◌, if◌then◌else◌, length, take, drop,
}
use daemontest.Prelude.Bytes.{Bytes, codes}
use daemontest.Xterm.Params.{Params}
use daemontest.Xterm.Sgr.{char_attributes}
use daemontest.Xterm.TextDecoder.{Utf8ToUtf32, decode}
use daemontest.Xterm.Parser
use daemontest.Xterm.Parser.{
  Parser, Event, printed, executed, failed, csi, esc, dcs_unhooked, osc_ended, apc_ended,
}
use daemontest.Xterm.Buffer.{Buffer, Charset}
use daemontest.Xterm.Screen.{
  Screen, Dirty, cursor_moved, rows_refreshed, active, fire, lesser, clear_range,
}
use daemontest.Xterm.Screen.Cursor.{line_feed}
use daemontest.Xterm.Screen.Esc.{index, next_line, reverse_index}
use daemontest.Xterm.Screen.Dispatch.{on_code, handler_of, handle}
use daemontest.Xterm.Screen.Charsets.{charsets_by_flag, select_charset}
use daemontest.Xterm.Screen.Print.{and_then, print, repeat_preceding_character}

abbrev pub max_parse_buffer_length : ℕ
max_parse_buffer_length = 131072

-- The handlers that may scroll.
unfoldable pub feed_handlers : List (ℕ × (Screen → Option Screen))
feed_handlers = (0x0A, line_feed) ∷ (0x0B, line_feed) ∷ (0x0C, line_feed) ∷ []

unfoldable pub index_handlers : List (ℕ × (Screen → Option Screen))
unfolding on_code
index_handlers =
    on_code (codes "D") index
    ∷ on_code (codes "E") next_line
    ∷ on_code (codes "M") reverse_index
    ∷ []

-- Those of one flag, for each byte that comes first.
unfoldable pub designations_of : ℕ → List ℕ → List (ℕ × (Screen → Option Screen))
unfolding on_code select_charset
designations_of flag [] = []
designations_of flag (i ∷ is) =
    on_code (i ∷ flag ∷ []) (λ s. some (select_charset i flag s)) ∷ designations_of flag is

unfoldable pub designations : List (ℕ × Charset) → List (ℕ × (Screen → Option Screen))
unfolding designations_of
designations [] = []
designations ((flag, _) ∷ rest) = designations_of flag (codes "()*+-./") ++ designations rest

unfoldable pub run_executed : ℕ → Screen → Option Screen
unfolding handler_of feed_handlers handle
run_executed code s = handler_of (λ t. some (handle (executed code) t)) code feed_handlers s

unfoldable pub run_esc : ℕ → Screen → Option Screen
unfolding handler_of index_handlers designations charsets_by_flag handle
run_esc code s =
    handler_of (λ t. some (handle (esc code) t)) code
      (index_handlers ++ designations charsets_by_flag) s

unfoldable pub set_attributes : Params → Screen → Option Screen
unfolding char_attributes
set_attributes p s =
    and_then (char_attributes p s.cur_attr_data) (λ a. some (record s { cur_attr_data = a }))

-- The event at the end, if the cursor is not where it was.
unfoldable pub report_cursor : ℕ → ℕ → Screen → Screen
report_cursor x y s = if (active s).x == x && (active s).y == y then s else fire cursor_moved s

-- The rows that changed, as the viewport shows them. It begins at `y_base` or above.
unfoldable pub refresh_rows : Dirty → Screen → Screen
refresh_rows none s = s
refresh_rows (some (start, end)) s =
    let above = (active s).y_base - (active s).y_disp in
    if leb start end && ltb (start + above) s.rows
    then fire
        (rows_refreshed (lesser (start + above) (s.rows - 1)) (lesser (end + above) (s.rows - 1))) s
    else s

unfoldable pub request_refresh : Screen → Screen
unfolding refresh_rows
request_refresh s = refresh_rows s.dirty s

-- What a handler does, after which the join state is 0 or as before.
abbrev then_join : {S : Type 0} → ℕ → S → Option Screen → Option (ℕ × S × Screen)
then_join join st none = none
then_join join st (some s) = some (join, st, s)

abbrev strings_join : {S : Type 0} → ℕ → Option (S × Screen) → Option (ℕ × S × Screen)
strings_join join none = none
strings_join join (some r) = some (join, r.0, r.1)

abbrev printed_join : {S : Type 0} → S → Option (ℕ × Screen) → Option (ℕ × S × Screen)
printed_join st none = none
printed_join st (some r) = some (r.0, st, r.1)

module _ {S : Type 0} (add_line_to_link : ℕ → ℕ → Buffer → Buffer)
    (on_string : Event → S × Screen → Option (S × Screen)) where
  unfoldable pub run_csi : ℕ → Params → ℕ → Screen → Option Screen
  unfolding handler_of handle on_code repeat_preceding_character set_attributes
  run_csi code p join s =
      handler_of (λ t. some (handle (csi code p) t)) code
        (on_code (codes "b")
            (λ t. and_then (repeat_preceding_character add_line_to_link p join t) (λ r. some (r.1)))
          ∷ on_code (codes "m") (set_attributes p)
          ∷ [])
        s

  unfoldable pub run_event : Event → ℕ → S → Screen → Option (ℕ × S × Screen)
  unfolding print run_executed run_csi run_esc
  run_event (printed cs) join st s = printed_join st (print add_line_to_link cs join s)
  run_event (executed code) join st s = then_join 0 st (run_executed code s)
  run_event (failed _ _) join st s = some (join, st, s)
  run_event (csi code p) join st s = then_join 0 st (run_csi code p join s)
  run_event (esc code) join st s = then_join 0 st (run_esc code s)
  run_event (dcs_unhooked b) join st s = strings_join 0 (on_string (dcs_unhooked b) (st, s))
  run_event (osc_ended b) join st s = strings_join 0 (on_string (osc_ended b) (st, s))
  run_event (apc_ended b) join st s = strings_join 0 (on_string (apc_ended b) (st, s))
  run_event e join st s = strings_join join (on_string e (st, s))

  unfoldable pub run_events : List Event → ℕ → S → Screen → Option (ℕ × S × Screen)
  unfolding run_event
  run_events [] join st s = some (join, st, s)
  run_events (e ∷ es) join st s =
      and_then (run_event e join st s) (λ r. run_events es (r.0) (r.1) (r.2))

-- The decoder, the parser, the sub-parsers and the screen.
pub record Terminal (S : Type 0) : Type 0 where
  pub decoder : Utf8ToUtf32
  pub parser : Parser
  pub strings : S
  pub screen : Screen

-- After the handlers of a run of codes.
abbrev pub resumed : {S : Type 0} → Terminal S → Parser → ℕ × S × Screen → Terminal S
resumed t p (join, st, s) = record {
  decoder = t.decoder;
  parser = record p { preceding_join_state = join };
  strings = st;
  screen = s;
}

module _ {S : Type 0} (add_line_to_link : ℕ → ℕ → Buffer → Buffer)
    (on_string : Event → S × Screen → Option (S × Screen)) where
  -- `p.Parse`, whose events the handlers take in order.
  unfoldable pub run_codes : List ℕ → Terminal S → Option (Terminal S)
  unfolding Parser.parse run_events
  run_codes cs t = and_then (Parser.parse t.parser cs) (λ o.
      and_then
        (run_events add_line_to_link on_string (o.0) t.parser.preceding_join_state t.strings
          t.screen)
        (λ r. some (resumed t (o.1) r)))

  unfoldable pub run_chunk : Bytes → Terminal S → Option (Terminal S)
  unfolding decode run_codes
  run_chunk input t = let d = decode input t.decoder in run_codes (d.0) (record t { decoder = d.1 })

  -- The loop over the chunks, for at most `n` rounds.
  unfoldable pub run_chunks : ℕ → Bytes → Terminal S → Option (Terminal S)
  unfolding run_chunk
  run_chunks zero input t = some t
  run_chunks (suc n) input t =
      if length input == 0
      then some t
      else and_then (run_chunk (take max_parse_buffer_length input) t)
          (λ u. run_chunks n (drop max_parse_buffer_length input) u)

  unfoldable pub parse : Bytes → Terminal S → Option (Terminal S)
  unfolding run_chunks run_chunk clear_range report_cursor request_refresh
  parse input t =
      let s = t.screen in
      let u = record t { screen = clear_range s } in
      if length input == 0
      then some t
      else and_then
          (if ltb max_parse_buffer_length (length input)
            then run_chunks (length input) input u
            else run_chunk input u)
          (λ v. some (record v {
            screen = request_refresh (report_cursor ((active s).x) ((active s).y) v.screen);
          }))
