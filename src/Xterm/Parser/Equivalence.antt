-- ===== src/Xterm/Parser/Equivalence.antt =====
-- The loop of internal/xterm/parser.go, with its read-ahead, against the machine that takes one code at
-- a time.
use daemontest.Prelude.{
  ℕ, suc, zero, ◌≤◌, ◌≡◌, refl, ap, ◌∙◌, sym, Bool, true, List, [], ◌∷◌, ◌++◌, arith, length,
  append-nil, subst, some,
}
use daemontest.Xterm.Table.{
  ParserState, osc_string, dcs_passthrough, apc_string, ParserAction, print, osc_put, param,
  dcs_put, apc_put, transition, slot, print_run, param_run, osc_run, dcs_run, apc_run,
}
use daemontest.Xterm.Table.Next.{print_next, osc_next, dcs_next, apc_next, param_next}
use daemontest.Xterm.Parser.{
  Parser, Event, Outcome, printed, osc_data, dcs_data, apc_data, goto, act, round, span,
  param_codes, parse_loop, parse,
}
use daemontest.Xterm.Parser.Reference.{
  feed, feed_all, single, spread_all, spread_all-append, span-append, span-All, span-length,
}
use daemontest.Xterm.Parser.Runs.{
  Clean, CleanAt, feed-act, feed_run, feed_params, print_step, osc_step, dcs_step, apc_step,
  InParams,
}

-- What a round has done when it agrees with the machine that takes one code at a time.
record Agrees (p : Parser) (c : ℕ) (cs : List ℕ) (out : Outcome) : Type 0 where
  shorter : length out.2 ≤ length cs
  clean : Clean out.1 out.2
  same :
      feed_all p (c ∷ cs) ≡ (spread_all out.0 ++ (feed_all out.1 out.2).0, (feed_all out.1 out.2).1)

-- A round that takes one code.
plain :
    (p : Parser) (c : ℕ) (cs : List ℕ) (events : List Event) (q : Parser)
    → Clean p (c ∷ cs)
    → spread_all events ≡ events
    → feed p c ≡ (events, q)
    → Agrees p c cs (events, q, cs)
unfolding feed_all
plain p c cs events q k spreads e = record {
  shorter = omega arith;
  clean = rw e at k.1;
  same =
      ap (λ (t : List Event × Parser). (t.0 ++ (feed_all t.1 cs).0, (feed_all t.1 cs).1)) e
      ∙ ap (λ es. (es ++ (feed_all q cs).0, (feed_all q cs).1)) (sym spreads);
}

module _ (s : ParserState) (event : List ℕ → Event) (run : ℕ → Bool)
    (step : (p : Parser) (c : ℕ)
      → p.current_state ≡ s
      → run c ≡ true
      → CleanAt s c
      → feed p c ≡ (event (c ∷ []) ∷ [], p))
    (spreads : (cs : List ℕ) → spread_all (event cs ∷ []) ≡ single event cs) where
  -- A round that reads ahead.
  reading_Agrees :
      (p q : Parser) (c : ℕ) (cs : List ℕ)
      → Clean p (c ∷ cs)
      → q.current_state ≡ s
      → feed p c ≡ (event (c ∷ []) ∷ [], q)
      → Agrees p c cs (event (c ∷ (span run cs).0) ∷ [], q, (span run cs).1)
  unfolding feed_all single
  reading_Agrees p q c cs k e f =
      let ran =
        feed_run s event run step q (span run cs).0 (span run cs).1 e (span-All run cs)
          (rw span-append (rw f at k.1)) in
      record {
        shorter = span-length run cs;
        clean = ran.1;
        same =
            ap (λ (t : List Event × Parser). (t.0 ++ (feed_all t.1 cs).0, (feed_all t.1 cs).1)) f
            ∙ ap (λ ds. (event (c ∷ []) ∷ (feed_all q ds).0, (feed_all q ds).1))
                (sym (span-append run cs))
            ∙ ap (λ (t : List Event × Parser). (event (c ∷ []) ∷ t.0, t.1)) ran.0
            ∙ ap (λ es. (es ++ (feed_all q (span run cs).1).0, (feed_all q (span run cs).1).1))
                (sym (spreads (c ∷ (span run cs).0)));
      }

params_Agrees :
    (p q : Parser) (c : ℕ) (cs : List ℕ)
    → Clean p (c ∷ cs)
    → InParams q.current_state
    → feed p c ≡ ([], q)
    → Agrees p c cs (
      [],
      record q { params = param_codes (span param_run cs).0 q.params },
      (span param_run cs).1,
    )
unfolding feed_all spread_all
params_Agrees p q c cs k e f =
    let ran =
      feed_params q (span param_run cs).0 (span param_run cs).1 e (span-All param_run cs)
        (rw span-append (rw f at k.1)) in
    record {
      shorter = span-length param_run cs;
      clean = ran.1;
      same =
          ap (λ (t : List Event × Parser). (t.0 ++ (feed_all t.1 cs).0, (feed_all t.1 cs).1)) f
          ∙ ap (λ ds. ((feed_all q ds).0, (feed_all q ds).1)) (sym (span-append param_run cs))
          ∙ ran.0;
    }

act-Agrees :
    (a : ParserAction) (n : ParserState) (p : Parser) (c : ℕ) (cs : List ℕ)
    → transition p.current_state (slot c) ≡ (a, n)
    → Clean p (c ∷ cs)
    → Agrees p c cs (act a n c cs p)
unfolding act span spread_all single param_codes
act-Agrees print n p c cs e k =
    reading_Agrees ParserState.ground printed print_run print_step (λ ds. append-nil _) p (goto n p)
      c cs k (sym (ap (λ t. t.1) e) ∙ print_next p.current_state c (ap (λ t. t.0) e))
      (feed-act p c e)
act-Agrees osc_put n p c cs e k =
    reading_Agrees osc_string osc_data osc_run osc_step (λ ds. append-nil _) p (goto n p) c cs k
      (sym (ap (λ t. t.1) e) ∙ osc_next p.current_state c (ap (λ t. t.0) e)) (feed-act p c e)
act-Agrees dcs_put n p c cs e k =
    reading_Agrees dcs_passthrough dcs_data dcs_run dcs_step (λ ds. append-nil _) p (goto n p) c cs
      k (sym (ap (λ t. t.1) e) ∙ dcs_next p.current_state c (ap (λ t. t.0) e)) (feed-act p c e)
act-Agrees apc_put n p c cs e k =
    reading_Agrees apc_string apc_data apc_run apc_step (λ ds. append-nil _) p (goto n p) c cs k
      (sym (ap (λ t. t.1) e) ∙ apc_next p.current_state c (ap (λ t. t.0) e)) (feed-act p c e)
act-Agrees param n p c cs e k =
    params_Agrees p _ c cs k
      (subst InParams (ap (λ t. t.1) e) (param_next p.current_state c (ap (λ t. t.0) e)))
      (feed-act p c e)
act-Agrees _ n p c cs e k = plain p c cs _ _ k refl (feed-act p c e)

round-Agrees : (p : Parser) (c : ℕ) (cs : List ℕ) → Clean p (c ∷ cs) → Agrees p c cs (round p c cs)
unfolding round
round-Agrees p c cs k =
    act-Agrees (transition p.current_state (slot c)).0 (transition p.current_state (slot c)).1 p c
      cs refl k

loop-Agrees :
    (fuel : ℕ) (p : Parser) (cs : List ℕ)
    → length cs ≤ fuel
    → Clean p cs
    → (events : List Event) × (parse_loop fuel p cs ≡ some (events, (feed_all p cs).1))
      × (spread_all events ≡ (feed_all p cs).0)
unfolding parse_loop feed_all spread_all
loop-Agrees zero p [] h k = ([], refl, refl)
loop-Agrees (suc fuel) p [] h k = ([], refl, refl)
loop-Agrees zero p (c ∷ cs) h k = absurd (omega arith)
loop-Agrees (suc fuel) p (c ∷ cs) h k =
    let a = round-Agrees p c cs k in
    let (later, e, l) =
      loop-Agrees fuel (round p c cs).1 (round p c cs).2 (omega (arith, a.shorter)) a.clean in
    (
      (round p c cs).0 ++ later,
      rw (e, parse_loop)
          (ap (λ (t : List Event × Parser). some ((round p c cs).0 ++ later, t.1)) (sym a.same)),
      spread_all-append (round p c cs).0 later
          ∙ ap (◌++◌ (spread_all (round p c cs).0)) l
          ∙ ap (λ (t : List Event × Parser). t.0) (sym a.same),
    )

-- `Parse` returns, and gives the events of the machine that takes one code at a time, once its text
-- and payload events are spread into one for each code, and the same parser; no DEL stands in a DCS
-- payload, and no C0 control or DEL, but CAN, SUB and ESC, in an APC payload.
pub parse-feed_all :
    (p : Parser) (cs : List ℕ)
    → Clean p cs
    → (events : List Event) × (parse p cs ≡ some (events, (feed_all p cs).1))
      × (spread_all events ≡ (feed_all p cs).0)
unfolding parse
parse-feed_all p cs k = loop-Agrees (length cs) p cs (omega arith) k
