-- ===== src/Xterm/Parser/Chunks.antt =====
-- Input that reaches internal/xterm/parser.go in pieces.
use daemontest.Prelude.{
  ℕ, zero, suc, ◌≡◌, refl, ap, ◌∙◌, sym, Bool, true, All, List, [], ◌∷◌, ◌++◌, Option, none, some,
  length,
}
use daemontest.Xterm.Table.{
  ParserState, dcs_passthrough, ParserAction, ignore, transition, slot, dcs_run,
}
use daemontest.Xterm.Table.Facts.{dcs_clean, dcs_run_entry}
use daemontest.Xterm.Parser.{
  Parser, Event, Outcome, dcs_data, goto, act, round, span, parse_loop, parse,
}
use daemontest.Xterm.Parser.Reference.{feed, feed_all, spread_all, feed_all-append}
use daemontest.Xterm.Parser.Runs.{Clean, goto_same}
use daemontest.Xterm.Parser.Equivalence.{parse-feed_all}

Clean-append :
    (p : Parser) (xs ys : List ℕ) → Clean p (xs ++ ys) → Clean p xs × Clean (feed_all p xs).1 ys
unfolding feed_all
Clean-append p [] ys k = (tt, k)
Clean-append p (x ∷ xs) ys k =
    let both = Clean-append (feed p x).1 xs ys k.1 in ((k.0, both.0), both.1)

-- Cutting the input in two changes neither the parser that is left nor the events, once text and
-- payload events are spread into one for each code; the payloads are as `parse-feed_all` has them.
pub parse-append :
    (p : Parser) (xs ys : List ℕ)
    → Clean p (xs ++ ys)
    → (first second whole : List Event) × (q r : Parser) × (parse p xs ≡ some (first, q))
      × (parse q ys ≡ some (second, r))
      × (parse p (xs ++ ys) ≡ some (whole, r))
      × (spread_all whole ≡ spread_all first ++ spread_all second)
parse-append p xs ys k =
    let (kx, ky) = Clean-append p xs ys k in
    let (first, e, f) = parse-feed_all p xs kx in
    let (second, g, h) = parse-feed_all (feed_all p xs).1 ys ky in
    let (whole, i, j) = parse-feed_all p (xs ++ ys) k in
    let split = feed_all-append p xs ys in
    (
      first,
      second,
      whole,
      (feed_all p xs).1,
      (feed_all (feed_all p xs).1 ys).1,
      e,
      g,
      i ∙ ap (λ (t : List Event × Parser). some (whole, t.1)) split,
      j ∙ ap (λ (t : List Event × Parser). t.0) split ∙ λ l. sym f l ++ sym h l,
    )

del_ignored : transition dcs_passthrough (slot 0x7f) ≡ (ignore, dcs_passthrough)
unfolding transition
del_ignored = refl

round-at :
    (p : Parser) (c : ℕ) (cs : List ℕ) {a : ParserAction} {n : ParserState}
    → transition p.current_state (slot c) ≡ (a, n)
    → round p c cs ≡ act a n c cs p
unfolding round
round-at p c cs e = ap (λ (t : ParserAction × ParserState). act t.0 t.1 c cs p) e

abbrev with_rest : ℕ → Outcome → Option (List Event × Parser)
with_rest fuel out = elim (parse_loop fuel out.1 out.2) [
  | none ↦ none
  | some (later, r) ↦ some (out.0 ++ later, r)
]

-- A round that takes all the input.
parse-round :
    (p : Parser) (c : ℕ) (cs : List ℕ) {s : ParserState} (event : List Event)
    → p.current_state ≡ s
    → round p c cs ≡ (event, goto s p, [])
    → parse p (c ∷ cs) ≡ with_rest (length cs) (event, p, [])
unfolding parse parse_loop
parse-round p c cs event e g =
    ap (with_rest (length cs)) g ∙ ap (λ q. with_rest (length cs) (event, q, [])) (goto_same p e)

span_whole : (run : ℕ → Bool) (cs : List ℕ) → All (λ c. run c ≡ true) cs → span run cs ≡ (cs, [])
unfolding span
span_whole run [] a = refl
span_whole run (c ∷ cs) a = rw (a.0, span_whole run cs (a.1)) refl

-- DELs, as many as that, and what comes behind them.
abbrev pub behind_dels : ℕ → List ℕ → List ℕ
behind_dels zero cs = cs
behind_dels (suc n) cs = 0x7f ∷ behind_dels n cs

parse_del_dropped :
    (p : Parser) (cs : List ℕ)
    → p.current_state ≡ dcs_passthrough
    → parse p (0x7f ∷ cs) ≡ parse p cs
unfolding parse parse_loop act
parse_del_dropped p cs e =
    let ignored = round-at p 0x7f cs (ap (λ s. transition s (slot 0x7f)) e ∙ del_ignored) in
    ap
      (λ o. elim (parse_loop (length cs) (o.1) (o.2)) [
        | none ↦ none
        | some (later, r) ↦ some (o.0 ++ later, r)
      ])
      (ignored ∙ ap (λ q. ([], q, cs)) (goto_same p e))
    ∙ unchanged (parse_loop (length cs) p cs)
  where
    unchanged :
        (o : Option (List Event × Parser))
        → elim o as (λ _. Option (List Event × Parser)) [
          | none ↦ none
          | some (later, r) ↦ some (later, r)
        ]
          ≡ o
    unchanged none = refl
    unchanged (some (later, r)) = refl

parse_kept :
    (p : Parser) (c : ℕ) (cs : List ℕ)
    → p.current_state ≡ dcs_passthrough
    → dcs_run c ≡ true
    → dcs_clean c ≡ true
    → All (λ x. dcs_run x ≡ true) cs
    → parse p (c ∷ cs) ≡ some (dcs_data (c ∷ cs) ∷ [], p)
unfolding parse_loop act
parse_kept p c cs e h k a =
    parse-round p c cs (dcs_data (c ∷ cs) ∷ []) e (
      round-at p c cs (ap (λ s. transition s (slot c)) e ∙ dcs_run_entry c h k)
      ∙ ap (λ (t : List ℕ × List ℕ). (dcs_data (c ∷ t.0) ∷ [], goto dcs_passthrough p, t.1))
          (span_whole dcs_run cs a))
    ∙ loop_done (length cs)
  where
    loop_done :
        (fuel : ℕ)
        → with_rest fuel (dcs_data (c ∷ cs) ∷ [], p, []) ≡ some (dcs_data (c ∷ cs) ∷ [], p)
    loop_done zero = refl
    loop_done (suc fuel) = refl

-- A piece of codes that the read-ahead loop of a DCS payload takes: DELs that it begins with are dropped,
-- and from the first other code on all are handed over, DELs among them too. A piece of DELs alone hands
-- over nothing.
pub parse_del :
    (p : Parser) (n c : ℕ) (cs : List ℕ)
    → p.current_state ≡ dcs_passthrough
    → dcs_run c ≡ true
    → dcs_clean c ≡ true
    → All (λ x. dcs_run x ≡ true) cs
    → (parse p (behind_dels n (c ∷ cs)) ≡ some (dcs_data (c ∷ cs) ∷ [], p))
      × (parse p (behind_dels n []) ≡ some ([], p))
parse_del p zero c cs e h k a = (parse_kept p c cs e h k a, unfold parse parse_loop in refl)
parse_del p (suc n) c cs e h k a =
    let (kept, dropped) = parse_del p n c cs e h k a in
    (
      parse_del_dropped p (behind_dels n (c ∷ cs)) e ∙ kept,
      parse_del_dropped p (behind_dels n []) e ∙ dropped,
    )
