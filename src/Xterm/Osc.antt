-- ===== src/Xterm/Osc.antt =====
-- internal/xterm/parser_osc.go: the sub-parser that hands an OSC string to the handlers of its number.
-- The calls it makes to handlers are kept in order; what a handler's `End` returns is a function of the
-- calls made so far. The identifier -1 is `none`.
pub mod Sequence
mod Tests
use daemontest.Prelude.{
  ℕ, ◌+◌, ◌-◌, ◌*◌, Bool, true, false, ◌||◌, List, [], ◌∷◌, ◌++◌, map, reverse, Option, none, some,
  ltb, ◌==◌, if◌then◌else◌,
}

pub data OscState : Type 0 where
  start id payload abort : OscState

pub data HandlerCall {ℓ} (H : Type ℓ) : Type ℓ where
  started : H → HandlerCall H
  given : H → List ℕ → HandlerCall H
  ended : H → Bool → HandlerCall H
  fallback_start : Option ℕ → HandlerCall H
  fallback_put : Option ℕ → List ℕ → HandlerCall H
  fallback_end : Option ℕ → Bool → HandlerCall H

pub record OscParser {ℓ} (H : Type ℓ) : Type ℓ where
  pub state : OscState
  pub active : List H
  pub ident : Option ℕ
  pub handlers : Option ℕ → List H
  pub calls : List (HandlerCall H)

-- The identifier to which a digit is appended.
abbrev pub so_far : Option ℕ → ℕ
so_far none = 0
so_far (some n) = n

module _ {ℓ} {H : Type ℓ} where
  abbrev pub with_calls : List (HandlerCall H) → OscParser H → OscParser H
  with_calls more p = record p { calls = p.calls ++ more }

  -- No handlers, no identifier, at the start.
  abbrev pub idle : OscParser H → OscParser H
  idle p = record p { active = []; ident = none; state = OscState.start }

  unfoldable pub reset : OscParser H → OscParser H
  reset p = elim p.state [
    | OscState.payload ↦ idle (with_calls (map (λ h. ended h false) (reverse p.active)) p)
    | _ ↦ idle p
  ]

  -- `start`, for the handlers of the identifier
  unfoldable pub begin : List H → OscParser H → OscParser H
  begin [] p = record (with_calls (fallback_start p.ident ∷ []) p) { active = [] }
  begin (h ∷ hs) p = record (with_calls (map started (reverse (h ∷ hs))) p) { active = h ∷ hs }

  unfoldable pub put_to : List H → List ℕ → OscParser H → OscParser H
  put_to [] data_ p = with_calls (fallback_put p.ident data_ ∷ []) p
  put_to (h ∷ hs) data_ p = with_calls (map (λ k. given k data_) (reverse (h ∷ hs))) p

  unfoldable pub start_osc : OscParser H → OscParser H
  unfolding reset
  start_osc p = record (reset p) { state = id }

  -- The loop over the identifier: the parser behind it, and the rest of the data.
  unfoldable pub read_id : List ℕ → OscParser H → OscParser H × List ℕ
  unfolding begin
  read_id [] p = (p, [])
  read_id (c ∷ cs) p =
      let more = read_id cs (record p { ident = some (so_far p.ident * 10 + c - 48) }) in
      if c == 0x3b
      then (begin (p.handlers p.ident) (record p { state = payload }), cs)
      else if ltb c 0x30 || ltb 0x39 c
      then (record p { state = abort }, cs)
      else more

  -- The end of `Put`: data goes to the handlers in the payload only.
  unfoldable pub put_rest : OscParser H × List ℕ → OscParser H
  unfolding put_to
  put_rest (p, []) = p
  put_rest (p, c ∷ cs) = elim p.state [ OscState.payload ↦ put_to p.active (c ∷ cs) p | _ ↦ p ]

  unfoldable pub put_osc : List ℕ → OscParser H → OscParser H
  unfolding read_id put_rest
  put_osc cs p = elim p.state [
    | OscState.abort ↦ p
    | OscState.id ↦ put_rest (read_id cs p)
    | _ ↦ put_rest (p, cs)
  ]

  module _ (answers : List (HandlerCall H) → Bool) where
    -- The loop of `End`, with the calls so far.
    unfoldable pub end_each : Bool → List H → List (HandlerCall H) → List (HandlerCall H)
    end_each success [] log = log
    end_each success (h ∷ hs) log =
        let log' = log ++ ended h success ∷ [] in
        let more = end_each success hs log' in
        if answers log' then log' ++ map (λ k. ended k false) hs else more

    unfoldable pub end_to : List H → Bool → OscParser H → OscParser H
    unfolding end_each
    end_to [] success p = with_calls (fallback_end p.ident success ∷ []) p
    end_to (h ∷ hs) success p = record p { calls = end_each success (reverse (h ∷ hs)) p.calls }

    unfoldable pub end_osc : Bool → OscParser H → OscParser H
    unfolding begin end_to
    end_osc success p = elim p.state [
      | OscState.start ↦ p
      | OscState.abort ↦ idle p
      | OscState.id ↦ let q = begin (p.handlers p.ident) p in idle (end_to q.active success q)
      | OscState.payload ↦ idle (end_to p.active success p)
    ]
