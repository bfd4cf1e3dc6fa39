-- ===== src/Xterm/Screen/Parse/Text.antt =====
-- internal/xterm/inputhandler.go, parser.go, textdecoder.go: text that arrives as UTF-8, up to the row it is shown on.
use daemontest.Prelude.{
  ℕ, ◌+◌, ◌-◌, ◌≤◌, ◌<◌, ◌≡◌, refl, sym, ap, ◌∙◌, Bool, true, false, List, [], ◌∷◌, Option, none,
  some, arith, ltb, ◌==◌, if◌then◌else◌, length, map, All,
}
use daemontest.Prelude.Bytes.{Bytes}
use daemontest.Xterm.Table.{ParserState}
use daemontest.Xterm.Parser.{Parser, Event, printed, goto}
use daemontest.Xterm.Parser.Printed.{IsPrinted, parse-printed}
use daemontest.Xterm.TextDecoder.{Utf8ToUtf32, decode, cleared}
use daemontest.Xterm.TextDecoder.RoundTrip.{IsKept, utf8_all, decode-utf8_all}
use daemontest.Xterm.BufferLine.{BufferLine}
use daemontest.Xterm.Buffer.{Buffer, translate_buffer_line_to_string}
use daemontest.Xterm.Screen.{Screen, Dirty, active, fire, clear_range}
use daemontest.Xterm.Screen.Print
use daemontest.Xterm.Screen.Print.{and_then, cursor_line, translated}
use daemontest.Xterm.Screen.Print.Row.{Written}
use daemontest.Xterm.Screen.Print.Ready.{Ready}
use daemontest.Xterm.Screen.Print.Run.{ChangesMarkers}
use daemontest.Xterm.Screen.Print.Laid.{run_width}
use daemontest.Xterm.Screen.Print.Codes.{IsPlain}
use daemontest.Xterm.Screen.Print.ReadBack.{print-read_back}
use daemontest.Xterm.Screen.Parse.{
  Terminal, parse, run_chunk, run_codes, run_events, run_event, printed_join, resumed,
  report_cursor, request_refresh, refresh_rows, max_parse_buffer_length,
}

active-either :
    (b : Bool) (t u : Screen) (c : Buffer)
    → active t ≡ c
    → active u ≡ c
    → active (if b then t else u) ≡ c
active-either true t u c h k = h
active-either false t u c h k = k

active-refresh_rows : (d : Dirty) (s : Screen) → active (refresh_rows d s) ≡ active s
unfolding refresh_rows
active-refresh_rows none s = refl
active-refresh_rows (some (start, end)) s = active-either _ (fire _ s) s (active s) refl refl

active-report_cursor : (x y : ℕ) (s : Screen) → active (report_cursor x y s) ≡ active s
unfolding report_cursor
active-report_cursor x y s = active-either _ s (fire _ s) (active s) refl refl

-- The events at the end of `Parse` leave the buffer.
reported : ℕ → ℕ → Screen → Screen
reported x y s = request_refresh (report_cursor x y s)

active-reported : (x y : ℕ) (s : Screen) → active (reported x y s) ≡ active s
unfolding reported request_refresh
active-reported x y s =
    active-refresh_rows (report_cursor x y s).dirty (report_cursor x y s)
    ∙ active-report_cursor x y s

module _ {S : Type 0} (add : ℕ → ℕ → Buffer → Buffer)
    (on_string : Event → S × Screen → Option (S × Screen)) where
  run_events-printed :
      (cs : List ℕ) (join j : ℕ) (st : S) (s v : Screen)
      → Print.print add cs join s ≡ some (j, v)
      → run_events add on_string (printed cs ∷ []) join st s ≡ some (j, st, v)
  unfolding run_events run_event
  run_events-printed cs join j st s v e =
      ap (λ o. and_then (printed_join st o) (λ r. run_events add on_string [] (r.0) (r.1) (r.2))) e

  -- The terminal after a run.
  after_run : ℕ → Screen → Terminal S → Terminal S
  after_run j v t = record {
    decoder = t.decoder;
    parser = record (t.parser) { current_state = ParserState.ground; preceding_join_state = j };
    strings = t.strings;
    screen = v;
  }

  run_codes-printed :
      (c : ℕ) (cs : List ℕ) (j : ℕ) (v : Screen) (t : Terminal S)
      → t.parser.current_state ≡ ParserState.ground
      → All IsPrinted (c ∷ cs)
      → Print.print add (c ∷ cs) t.parser.preceding_join_state t.screen ≡ some (j, v)
      → run_codes add on_string (c ∷ cs) t ≡ some (after_run j v t)
  unfolding run_codes after_run
  run_codes-printed c cs j v t g a e =
      ap
        (λ (o : Option (List Event × Parser)). and_then o (λ o.
          and_then (run_events add on_string (o.0) t.parser.preceding_join_state t.strings t.screen)
            (λ r. some (resumed t (o.1) r))))
        (parse-printed c cs t.parser g a)
      ∙ ap (λ o. and_then o (λ r. some (resumed t (goto ParserState.ground t.parser) r)))
          (run_events-printed (c ∷ cs) t.parser.preceding_join_state j t.strings t.screen v e)

  some_bytes : (c : ℕ) (cs : List ℕ) → length (utf8_all (c ∷ cs)) == 0 ≡ false
  some_bytes c cs = ground arith

  run_chunk-utf8_all :
      (cs : List ℕ) (t : Terminal S)
      → All IsKept cs
      → t.decoder ≡ cleared
      → run_chunk add on_string (utf8_all cs) t ≡ run_codes add on_string cs t
  unfolding run_chunk
  run_chunk-utf8_all cs t a d =
      ap (λ (z : List ℕ × Utf8ToUtf32). run_codes add on_string z.0 (record t { decoder = z.1 }))
        (ap (decode (utf8_all cs)) d ∙ decode-utf8_all cs a)
      ∙ ap (λ z. run_codes add on_string cs (record t { decoder = z })) (sym d)

  not_over : (max n : ℕ) → n ≤ max → ltb max n ≡ false
  not_over max n h = ground arith

  parse-parts :
      (bytes : Bytes) (t : Terminal S)
      → length bytes == 0 ≡ false
      → ltb max_parse_buffer_length (length bytes) ≡ false
      → parse add on_string bytes t
        ≡ and_then
            (run_chunk add on_string bytes (record t { screen = clear_range t.screen }))
            (λ w.
              some
                (record w { screen = reported (active t.screen).x (active t.screen).y w.screen }))
  unfolding parse reported
  parse-parts bytes t e l = rw (e, l) refl

  parse-printed_text :
      (c : ℕ) (cs : List ℕ) (j : ℕ) (v : Screen) (t : Terminal S)
      → t.decoder ≡ cleared
      → t.parser.current_state ≡ ParserState.ground
      → All IsKept (c ∷ cs)
      → All IsPrinted (c ∷ cs)
      → length (utf8_all (c ∷ cs)) ≤ max_parse_buffer_length
      → Print.print add (c ∷ cs) t.parser.preceding_join_state (clear_range t.screen) ≡ some (j, v)
      → parse add on_string (utf8_all (c ∷ cs)) t
        ≡ some (after_run j (reported (active t.screen).x (active t.screen).y v) t)
  unfolding after_run
  parse-printed_text c cs j v t d g k a l e =
      let u : Terminal S = record t { screen = clear_range t.screen } in
      let bytes = utf8_all (c ∷ cs) in
      let s = t.screen in
      parse-parts bytes t (some_bytes c cs) (not_over _ _ l)
      ∙ ap
          (λ (o : Option (Terminal S)).
            and_then {A = Terminal S} {B = Terminal S} o
              (λ w. some (record w { screen = reported (active s).x (active s).y w.screen })))
          (run_chunk-utf8_all (c ∷ cs) u k d ∙ run_codes-printed c cs j v u g a e)

  clear_range-Ready :
      (s : Screen) {x : ℕ} {l : BufferLine} → Ready s x l → Ready (clear_range s) x l
  unfolding clear_range cursor_line
  clear_range-Ready s r = record { line = r.line; column = r.column; full = r.full; ring = r.ring }

  -- Text of at least one code point and at most 131072 bytes, in UTF-8, that arrives while no sequence is
  -- begun, in the decoder or in the parser: none of its code points is a surrogate, the byte order mark, a
  -- control code or the soft hyphen, each takes room as the character set translates it, and all fit on
  -- what is left of the row of the cursor, outside insert mode. `Parse` returns, and no sequence is begun
  -- then. Read back from the column where it begins to the one where the cursor stands, the row has the
  -- text, as the character set translates it. The cursor stays on its row, and of the other cells of
  -- the row at most the two next to the text change.
  pub parse-read_back :
      (c : ℕ) (cs : List ℕ) (t : Terminal S) (l : BufferLine)
      → ChangesMarkers add
      → t.decoder ≡ cleared
      → t.parser.current_state ≡ ParserState.ground
      → Ready t.screen (active t.screen).x l
      → (active t.screen).y_base + (active t.screen).y < (active t.screen).lines.len
      → t.screen.core.insert_mode ≡ false
      → All IsKept (c ∷ cs)
      → All IsPrinted (c ∷ cs)
      → All (IsPlain t.screen.charset_service.charset) (c ∷ cs)
      → (active t.screen).x + run_width (map (translated t.screen.charset_service.charset) (c ∷ cs))
        ≤ t.screen.cols
      → length (utf8_all (c ∷ cs)) ≤ max_parse_buffer_length
      → (u : Terminal S) × (m : BufferLine) × (parse add on_string (utf8_all (c ∷ cs)) t ≡ some u)
        × (u.decoder ≡ cleared)
        × (u.parser.current_state ≡ ParserState.ground)
        × (cursor_line u.screen ≡ some m)
        × ((active u.screen).x
            ≡ (active t.screen).x
              + run_width (map (translated t.screen.charset_service.charset) (c ∷ cs)))
        × ((active u.screen).y ≡ (active t.screen).y)
        × (translate_buffer_line_to_string
              ((active t.screen).y_base + (active t.screen).y)
              false
              (active t.screen).x
              (some (active u.screen).x)
              (active u.screen)
            ≡ map (translated t.screen.charset_service.charset) (c ∷ cs))
        × Written ((active t.screen).x - 1) ((active u.screen).x + 1) l m
  unfolding clear_range after_run cursor_line
  parse-read_back c cs t l marks d g r inside i k a p fit small =
      let s = t.screen in
      let (j, v, m, e, lin, col, row, text, rest) =
        print-read_back add (c ∷ cs) t.parser.preceding_join_state (clear_range s) l marks
          (clear_range-Ready s r) inside i p fit in
      let same = active-reported (active s).x (active s).y v in
      (
        after_run j (reported (active s).x (active s).y v) t,
        m,
        parse-printed_text c cs j v t d g k a small e,
        d,
        refl,
        rw same lin,
        rw same col,
        rw same row,
        rw same text,
        rw same rest,
      )
