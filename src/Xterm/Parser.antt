-- ===== src/Xterm/Parser.antt =====
-- internal/xterm/parser.go: the main loop of the escape sequence parser, with the default error
-- handler, which never aborts (nothing in the repository sets another one). Each call of a handler,
-- of its fallback or of a sub-parser is an event, in order; handlers do not call the parser back.
pub mod Reference
pub mod Runs
pub mod Equivalence
pub mod Chunks
pub mod Printed
mod Tests
use Prim.Native.Nat.{bit_or}
use daemontest.Prelude.{
  ℕ, zero, suc, ◌+◌, ◌-◌, ◌*◌, ◌%◌, ◌^◌, Bool, true, false, not, ◌&&◌, ◌||◌, List, [], ◌∷◌, ◌++◌,
  Option, none, some, ltb, leb, ◌==◌, if◌then◌else◌, length,
}
use daemontest.Prelude.Int.{ℤ, pos, negsuc}
use daemontest.Xterm.Params
use daemontest.Xterm.Params.{Params, default_params, add_param, add_sub_param, add_digit}
use daemontest.Xterm.Table.{
  ParserState, escape, escape_intermediate, csi_entry, csi_param, csi_intermediate, csi_ignore,
  sospm_string, osc_string, dcs_entry, dcs_param, dcs_ignore, dcs_intermediate, dcs_passthrough,
  apc_string, ParserAction, ignore, error, print, execute, osc_start, osc_put, osc_end,
  csi_dispatch, param, collect, esc_dispatch, clear, dcs_hook, dcs_put, dcs_unhook, apc_start,
  apc_put, apc_end, transition, slot, print_run, param_run, dcs_run, osc_run, apc_run,
}

pub record Parser : Type 0 where
  pub current_state : ParserState
  pub preceding_join_state : ℕ
  pub params : Params
  pub collected : ℕ

-- What the parser calls, with what it hands over. The position of an error is not kept.
pub data Event : Type 0 where
  printed : List ℕ → Event
  executed : ℕ → Event
  failed : ℕ → Parser → Event
  csi : ℕ → Params → Event
  esc : ℕ → Event
  dcs_hooked : ℕ → Params → Event
  dcs_data : List ℕ → Event
  dcs_unhooked : Bool → Event
  osc_started : Event
  osc_data : List ℕ → Event
  osc_ended : Bool → Event
  apc_started : Event
  apc_data : List ℕ → Event
  apc_ended : Bool → Event

-- `AddParam(0)` and `AddSubParam(-1)`, whose values are allowed, so that they do not panic.
unfoldable pub zero_param : Params → Params
unfolding add_param
zero_param p = elim (add_param (pos 0) p) [ none ↦ p | some q ↦ q ]

unfoldable pub unset_sub_param : Params → Params
unfolding add_sub_param
unset_sub_param p = elim (add_sub_param (negsuc 0) p) [ none ↦ p | some q ↦ q ]

-- `AddDigit`, which finds its index in range.
unfoldable pub digit_added : ℤ → Params → Params
unfolding add_digit
digit_added v p = elim (add_digit v p) [ none ↦ p | some q ↦ q ]

-- `p.params.Reset(); p.params.AddParam(0)`
abbrev pub fresh_params : Params → Params
fresh_params p = zero_param (Params.reset p)

unfoldable pub new_parser : Parser
new_parser = record {
  current_state = ParserState.ground;
  preceding_join_state = 0;
  params = zero_param default_params;
  collected = 0;
}

-- `p.collect<<8 | int(code)`, the 64 bits of an int
abbrev pub with_code : Parser → ℕ → ℕ
with_code p c = bit_or (p.collected * 2 ^ 8) c % 2 ^ 64

-- One round of the loop of `ParserActionParam`.
unfoldable pub param_code : ℕ → Params → Params
param_code c ps =
    if c == 0x3b
    then zero_param ps
    else if c == 0x3a
    then unset_sub_param ps
    else digit_added (if leb 48 c then pos (c - 48) else negsuc (48 - c - 1)) ps

-- The codes up to the first one that stops a read-ahead loop, and the rest.
unfoldable pub span : (ℕ → Bool) → List ℕ → List ℕ × List ℕ
span run [] = ([], [])
span run (c ∷ cs) =
    let (taken, rest) = span run cs in if run c then (c ∷ taken, rest) else ([], c ∷ cs)

unfoldable pub param_codes : List ℕ → Params → Params
param_codes [] ps = ps
param_codes (c ∷ cs) ps = param_codes cs (param_code c ps)

-- `transition |= uint16(ParserStateEscape)` on a state's number; 15 is no state.
unfoldable pub or_escape : ParserState → ParserState
or_escape ParserState.ground = escape
or_escape escape = escape
or_escape escape_intermediate = csi_entry
or_escape csi_entry = csi_entry
or_escape csi_param = csi_intermediate
or_escape csi_intermediate = csi_intermediate
or_escape csi_ignore = sospm_string
or_escape sospm_string = sospm_string
or_escape osc_string = dcs_entry
or_escape dcs_entry = dcs_entry
or_escape dcs_param = dcs_ignore
or_escape dcs_ignore = dcs_ignore
or_escape dcs_intermediate = dcs_passthrough
or_escape dcs_passthrough = dcs_passthrough
or_escape apc_string = apc_string

abbrev after_end : ℕ → ParserState → ParserState
after_end c n = if c == 0x1b then or_escape n else n

abbrev succeeded : ℕ → Bool
succeeded c = not (c == 0x18) && not (c == 0x1a)

abbrev pub goto : ParserState → Parser → Parser
goto n p = record p { current_state = n }

-- `p.precedingJoinState = 0` and the end of the round
abbrev pub unjoined : ParserState → Parser → Parser
unjoined n p = record p { current_state = n; preceding_join_state = 0 }

abbrev pub cleared : ParserState → Parser → Parser
cleared n p = record p {
  current_state = n;
  preceding_join_state = 0;
  params = fresh_params p.params;
  collected = 0;
}

abbrev pub Outcome : Type 0
Outcome = List Event × Parser × List ℕ

abbrev reading : (List ℕ → Event) → (ℕ → Bool) → ℕ → List ℕ → Parser → Outcome
reading event run c cs p = let (taken, rest) = span run cs in (event (c ∷ taken) ∷ [], p, rest)

-- The cases of the switch: action, next state, code, codes behind it, parser.
unfoldable pub act : ParserAction → ParserState → ℕ → List ℕ → Parser → Outcome
unfolding or_escape
act print n c cs p = reading printed print_run c cs (goto n p)
act execute n c cs p = (executed c ∷ [], unjoined n p, cs)
act ignore n c cs p = ([], goto n p, cs)
act error n c cs p = (failed c p ∷ [], goto n p, cs)
act csi_dispatch n c cs p = (csi (with_code p c) p.params ∷ [], unjoined n p, cs)
act param n c cs p =
    let (taken, rest) = span param_run cs in
    ([], record p { current_state = n; params = param_codes (c ∷ taken) p.params }, rest)
act collect n c cs p = ([], record p { current_state = n; collected = with_code p c }, cs)
act esc_dispatch n c cs p = (esc (with_code p c) ∷ [], unjoined n p, cs)
act clear n c cs p =
    ([], record p { current_state = n; params = fresh_params p.params; collected = 0 }, cs)
act dcs_hook n c cs p = (dcs_hooked (with_code p c) p.params ∷ [], goto n p, cs)
act dcs_put n c cs p = reading dcs_data dcs_run c cs (goto n p)
act dcs_unhook n c cs p = (dcs_unhooked (succeeded c) ∷ [], cleared (after_end c n) p, cs)
act osc_start n c cs p = (osc_started ∷ [], goto n p, cs)
act osc_put n c cs p = reading osc_data osc_run c cs (goto n p)
act osc_end n c cs p = (osc_ended (succeeded c) ∷ [], cleared (after_end c n) p, cs)
act apc_start n c cs p = (apc_started ∷ [], goto n p, cs)
act apc_put n c cs p = reading apc_data apc_run c cs (goto n p)
act apc_end n c cs p = (apc_ended (succeeded c) ∷ [], cleared (after_end c n) p, cs)

-- One round of the loop.
unfoldable pub round : Parser → ℕ → List ℕ → Outcome
round p c cs = let (a, n) = transition p.current_state (slot c) in act a n c cs p

-- The loop, on fuel; `none` means that it ran out.
unfoldable pub parse_loop : ℕ → Parser → List ℕ → Option (List Event × Parser)
parse_loop fuel p [] = some ([], p)
parse_loop zero p (c ∷ cs) = none
parse_loop (suc fuel) p (c ∷ cs) =
    let (events, q, rest) = round p c cs in
    elim (parse_loop fuel q rest) [ none ↦ none | some (later, r) ↦ some (events ++ later, r) ]

-- A round takes a code at least.
unfoldable pub parse : Parser → List ℕ → Option (List Event × Parser)
unfolding parse_loop
parse p cs = parse_loop (length cs) p cs
