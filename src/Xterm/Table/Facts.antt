-- ===== src/Xterm/Table/Facts.antt =====
-- What the loops of `Parse` rely on in the table of internal/xterm/parser_table.go, found by reading
-- off all its entries.
use daemontest.Prelude.{
  ℕ, zero, suc, ◌+◌, ◌≤◌, ◌<◌, ◌≡◌, refl, sym, ap, ◌∙◌, List, [], ◌∷◌, get_or, ==_iff, Bool, true,
  false, not, if◌then◌else◌, ◌&&◌, ◌||◌, arith, ◌==◌,
}
use native.Mathlib.Decide.{dec_lt}
use daemontest.Xterm.Table.{
  ParserState, csi_param, dcs_param, dcs_passthrough, osc_string, apc_string, ParserAction, print,
  osc_put, param, dcs_put, apc_put, transition, slot, state_code, action_code, executables,
  print_run, param_run, dcs_run, osc_run, apc_run,
}

-- A test of the `k` slots from `i` on.
unfoldable pub slots_from : (ℕ → Bool) → ℕ → ℕ → Bool
slots_from test i zero = true
slots_from test i (suc k) = if test i then slots_from test (i + 1) k else false

slots_from-at :
    (test : ℕ → Bool) (i k j : ℕ) → i ≤ j → j < i + k → slots_from test i k ≡ true → test j ≡ true
unfolding slots_from
slots_from-at test i zero j lo hi ok = absurd (omega arith)
slots_from-at test i (suc k) j lo hi ok = elim (dec_lt i j) [
  | yes past ↦ slots_from-at test (i + 1) k j (omega arith) (omega arith) (if-rest (test i) _ ok)
  | no here ↦ ap test {y = i} (omega arith) ∙ if-first (test i) _ ok
]
  where
    if-first : (b r : Bool) → (if b then r else false) ≡ true → b ≡ true
    if-first true r e = refl
    if-first false r e = e

    if-rest : (b r : Bool) → (if b then r else false) ≡ true → r ≡ true
    if-rest true r e = e
    if-rest false r e = absurd (ground arith)

abbrev all_states : List ParserState
all_states =
    ParserState.ground ∷ ParserState.escape ∷ ParserState.escape_intermediate
    ∷ ParserState.csi_entry ∷ ParserState.csi_param ∷ ParserState.csi_intermediate
    ∷ ParserState.csi_ignore ∷ ParserState.sospm_string ∷ ParserState.osc_string
    ∷ ParserState.dcs_entry ∷ ParserState.dcs_param ∷ ParserState.dcs_ignore
    ∷ ParserState.dcs_intermediate ∷ ParserState.dcs_passthrough ∷ ParserState.apc_string ∷ []

abbrev all_actions : List ParserAction
all_actions =
    ParserAction.ignore ∷ ParserAction.error ∷ ParserAction.print ∷ ParserAction.execute
    ∷ ParserAction.osc_start ∷ ParserAction.osc_put ∷ ParserAction.osc_end
    ∷ ParserAction.csi_dispatch ∷ ParserAction.param ∷ ParserAction.collect
    ∷ ParserAction.esc_dispatch ∷ ParserAction.clear ∷ ParserAction.dcs_hook ∷ ParserAction.dcs_put
    ∷ ParserAction.dcs_unhook ∷ ParserAction.apc_start ∷ ParserAction.apc_put ∷ ParserAction.apc_end
    ∷ []

-- The state and the action of a code.
state_at : ℕ → ParserState
state_at n = get_or all_states n ParserState.ground

state_at-state_code : (s : ParserState) → state_at (state_code s) ≡ s
unfolding state_at state_code
state_at-state_code ParserState.ground = refl
state_at-state_code _ = refl

action_at : ℕ → ParserAction
action_at n = get_or all_actions n print

action_at-action_code : (a : ParserAction) → action_at (action_code a) ≡ a
unfolding action_at action_code
action_at-action_code print = refl
action_at-action_code _ = refl

abbrev pub same : ParserState → ParserState → Bool
same s t = state_code s == state_code t

pub same→≡ : (s t : ParserState) → same s t ≡ true → s ≡ t
same→≡ s t h = sym (state_at-state_code s) ∙ ap state_at ((==_iff _ _).0 h) ∙ state_at-state_code t

abbrev pub is_action : ParserAction → ParserAction → Bool
is_action a b = action_code a == action_code b

is_action→≡ : (a b : ParserAction) → is_action a b ≡ true → a ≡ b
is_action→≡ a b h =
    sym (action_at-action_code a) ∙ ap action_at ((==_iff _ _).0 h) ∙ action_at-action_code b

pub is_action_refl : (a b : ParserAction) → a ≡ b → is_action a b ≡ true
is_action_refl a b e = (==_iff _ _).1 (ap action_code e)

slot-lt : (c : ℕ) → slot c < 161
slot-lt c = ground arith

pub at_slot : (test : ℕ → Bool) (c : ℕ) → slots_from test 0 161 ≡ true → test (slot c) ≡ true
at_slot test c h = slots_from-at test 0 161 (slot c) (omega arith) (slot-lt c) h

-- In state `s` each code that passes `run` has the action `a`, and stays in `s`.
run_test : (ℕ → Bool) → ParserState → ParserAction → ℕ → Bool
run_test run s a k = not (run k) || (is_action (transition s k).0 a && same (transition s k).1 s)

run_fact :
    (run : ℕ → Bool) (s : ParserState) (a : ParserAction)
    → slots_from (run_test run s a) 0 161 ≡ true
    → (c : ℕ) → run (slot c) ≡ true
    → transition s (slot c) ≡ (a, s)
unfolding run_test
run_fact run s a h c r = ground (
  arith,
  at_slot (run_test run s a) c h,
  is_action→≡ (transition s (slot c)).0 a,
  same→≡ (transition s (slot c)).1 s,
)

print_run_check : slots_from (run_test print_run ParserState.ground print) 0 161 ≡ true
unfolding slots_from run_test transition action_code
print_run_check = refl

pub print_run_entry :
    (c : ℕ)
    → print_run c ≡ true
    → transition ParserState.ground (slot c) ≡ (print, ParserState.ground)
print_run_entry c h = run_fact print_run ParserState.ground print print_run_check c (ground arith)

csi_param_check : slots_from (run_test param_run csi_param param) 0 161 ≡ true
unfolding slots_from run_test transition action_code
csi_param_check = refl

pub csi_param_entry :
    (c : ℕ) → param_run c ≡ true → transition csi_param (slot c) ≡ (param, csi_param)
csi_param_entry c h = run_fact param_run csi_param param csi_param_check c (ground arith)

dcs_param_check : slots_from (run_test param_run dcs_param param) 0 161 ≡ true
unfolding slots_from run_test transition action_code
dcs_param_check = refl

pub dcs_param_entry :
    (c : ℕ) → param_run c ≡ true → transition dcs_param (slot c) ≡ (param, dcs_param)
dcs_param_entry c h = run_fact param_run dcs_param param dcs_param_check c (ground arith)

osc_check : slots_from (run_test osc_run osc_string osc_put) 0 161 ≡ true
unfolding slots_from run_test transition action_code
osc_check = refl

pub osc_run_entry :
    (c : ℕ) → osc_run c ≡ true → transition osc_string (slot c) ≡ (osc_put, osc_string)
osc_run_entry c h = run_fact osc_run osc_string osc_put osc_check c (ground arith)

-- The table puts no DEL into a DCS payload, and no C0 control and no DEL into an APC payload, where
-- the loops read on.
abbrev pub dcs_clean : ℕ → Bool
dcs_clean c = not (c == 0x7f)

abbrev pub apc_clean : ℕ → Bool
apc_clean c = not (executables c) && not (c == 0x7f)

dcs_check :
    slots_from (run_test (λ c. dcs_run c && dcs_clean c) dcs_passthrough dcs_put) 0 161 ≡ true
unfolding slots_from run_test transition action_code
dcs_check = refl

pub dcs_run_entry :
    (c : ℕ)
    → dcs_run c ≡ true
    → dcs_clean c ≡ true
    → transition dcs_passthrough (slot c) ≡ (dcs_put, dcs_passthrough)
dcs_run_entry c h k =
    run_fact (λ c. dcs_run c && dcs_clean c) dcs_passthrough dcs_put dcs_check c (ground arith)

apc_check : slots_from (run_test (λ c. apc_run c && apc_clean c) apc_string apc_put) 0 161 ≡ true
unfolding slots_from run_test transition action_code
apc_check = refl

pub apc_run_entry :
    (c : ℕ)
    → apc_run c ≡ true
    → apc_clean c ≡ true
    → transition apc_string (slot c) ≡ (apc_put, apc_string)
apc_run_entry c h k =
    run_fact (λ c. apc_run c && apc_clean c) apc_string apc_put apc_check c (ground arith)
