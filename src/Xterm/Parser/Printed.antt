-- ===== src/Xterm/Parser/Printed.antt =====
-- internal/xterm/parser.go: a run of printable codes.
use daemontest.Prelude.{
  ℕ, zero, suc, ◌≡◌, refl, ap, ◌∙◌, true, List, [], ◌∷◌, ◌++◌, Option, none, some, length, All,
}
use daemontest.Xterm.Table.{ParserState, ParserAction, print, transition, slot, print_run}
use daemontest.Xterm.Table.Facts.{print_run_entry}
use daemontest.Xterm.Parser.{
  Parser, Event, Outcome, printed, act, goto, round, span, parse_loop, parse,
}

abbrev pub IsPrinted : ℕ → Type 0
IsPrinted c = print_run c ≡ true

span-All : (cs : List ℕ) → All IsPrinted cs → span print_run cs ≡ (cs, [])
unfolding span
span-All [] a = refl
span-All (c ∷ cs) a = rw (span-All cs (a.1), a.0) refl

act-printed :
    (c : ℕ) (cs : List ℕ) (p : Parser)
    → All IsPrinted cs
    → act print ParserState.ground c cs p ≡ (printed (c ∷ cs) ∷ [], goto ParserState.ground p, [])
unfolding act
act-printed c cs p a =
    ap (λ (r : List ℕ × List ℕ). (printed (c ∷ r.0) ∷ [], goto ParserState.ground p, r.1))
      (span-All cs a)

round-printed :
    (c : ℕ) (cs : List ℕ) (p : Parser)
    → p.current_state ≡ ParserState.ground
    → All IsPrinted (c ∷ cs)
    → round p c cs ≡ (printed (c ∷ cs) ∷ [], goto ParserState.ground p, [])
unfolding round
round-printed c cs p g a =
    ap (λ (t : ParserAction × ParserState). act t.0 t.1 c cs p)
      (ap (λ s. transition s (slot c)) g ∙ print_run_entry c (a.0))
    ∙ act-printed c cs p (a.1)

parse_loop-none : (n : ℕ) (p : Parser) → parse_loop n p [] ≡ some ([], p)
unfolding parse_loop
parse_loop-none zero p = refl
parse_loop-none (suc n) p = refl

-- In the ground state a run of printable codes is one event, and the parser stays as it is.
pub parse-printed :
    (c : ℕ) (cs : List ℕ) (p : Parser)
    → p.current_state ≡ ParserState.ground
    → All IsPrinted (c ∷ cs)
    → parse p (c ∷ cs) ≡ some (printed (c ∷ cs) ∷ [], goto ParserState.ground p)
unfolding parse parse_loop
parse-printed c cs p g a =
    ap
      (λ (o : Outcome). elim (parse_loop (length cs) o.1 o.2) [
        | none ↦ none
        | some r ↦ some (o.0 ++ r.0, r.1)
      ])
      (round-printed c cs p g a)
    ∙ ap
        (λ (o : Option (List Event × Parser)). elim o [
          | none ↦ none
          | some r ↦ some (printed (c ∷ cs) ∷ r.0, r.1)
        ])
        (parse_loop-none (length cs) (goto ParserState.ground p))
