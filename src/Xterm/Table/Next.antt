-- ===== src/Xterm/Table/Next.antt =====
-- Where the table of internal/xterm/parser_table.go goes next, by action, found by reading off all its
-- entries.
use daemontest.Prelude.{ℕ, ◌≡◌, refl, ◌⊎◌, Bool, true, not, ◌||◌, arith}
use daemontest.Xterm.Table.{
  ParserState, csi_param, dcs_param, dcs_passthrough, osc_string, apc_string, ParserAction, print,
  osc_put, param, dcs_put, apc_put, transition, slot, action_code,
}
use daemontest.Xterm.Table.Facts.{same, same→≡, is_action_refl, is_action, slots_from, at_slot}

-- The action `a` occurs only where the next state is one of `next`.
next_test : ParserAction → (ParserState → Bool) → ParserState → ℕ → Bool
next_test a next s k = not (is_action (transition s k).0 a) || next (transition s k).1

next_fact :
    (a : ParserAction) (next : ParserState → Bool) (s : ParserState)
    → slots_from (next_test a next s) 0 161 ≡ true
    → (c : ℕ) → (transition s (slot c)).0 ≡ a
    → next (transition s (slot c)).1 ≡ true
unfolding next_test
next_fact a next s h c e =
    ground (arith, at_slot (next_test a next s) c h, is_action_refl (transition s (slot c)).0 a e)

print_next_check :
    (s : ParserState) → slots_from (next_test print (λ n. same n ParserState.ground) s) 0 161 ≡ true
unfolding slots_from next_test transition action_code
print_next_check ParserState.ground = refl
print_next_check _ = refl

pub print_next :
    (s : ParserState) (c : ℕ)
    → (transition s (slot c)).0 ≡ print
    → (transition s (slot c)).1 ≡ ParserState.ground
print_next s c e =
    same→≡ _ _ (next_fact print (λ n. same n ParserState.ground) s (print_next_check s) c e)

osc_next_check :
    (s : ParserState) → slots_from (next_test osc_put (λ n. same n osc_string) s) 0 161 ≡ true
unfolding slots_from next_test transition action_code
osc_next_check ParserState.ground = refl
osc_next_check _ = refl

pub osc_next :
    (s : ParserState) (c : ℕ)
    → (transition s (slot c)).0 ≡ osc_put
    → (transition s (slot c)).1 ≡ osc_string
osc_next s c e = same→≡ _ _ (next_fact osc_put (λ n. same n osc_string) s (osc_next_check s) c e)

dcs_next_check :
    (s : ParserState) → slots_from (next_test dcs_put (λ n. same n dcs_passthrough) s) 0 161 ≡ true
unfolding slots_from next_test transition action_code
dcs_next_check ParserState.ground = refl
dcs_next_check _ = refl

pub dcs_next :
    (s : ParserState) (c : ℕ)
    → (transition s (slot c)).0 ≡ dcs_put
    → (transition s (slot c)).1 ≡ dcs_passthrough
dcs_next s c e =
    same→≡ _ _ (next_fact dcs_put (λ n. same n dcs_passthrough) s (dcs_next_check s) c e)

apc_next_check :
    (s : ParserState) → slots_from (next_test apc_put (λ n. same n apc_string) s) 0 161 ≡ true
unfolding slots_from next_test transition action_code
apc_next_check ParserState.ground = refl
apc_next_check _ = refl

pub apc_next :
    (s : ParserState) (c : ℕ)
    → (transition s (slot c)).0 ≡ apc_put
    → (transition s (slot c)).1 ≡ apc_string
apc_next s c e = same→≡ _ _ (next_fact apc_put (λ n. same n apc_string) s (apc_next_check s) c e)

param_next_check :
    (s : ParserState)
    → slots_from (next_test param (λ n. same n csi_param || same n dcs_param) s) 0 161 ≡ true
unfolding slots_from next_test transition action_code
param_next_check ParserState.ground = refl
param_next_check _ = refl

pub param_next :
    (s : ParserState) (c : ℕ)
    → (transition s (slot c)).0 ≡ param
    → ((transition s (slot c)).1 ≡ csi_param) ⊎ ((transition s (slot c)).1 ≡ dcs_param)
param_next s c e = ground (
  arith,
  next_fact param (λ n. same n csi_param || same n dcs_param) s (param_next_check s) c e,
  same→≡ (transition s (slot c)).1 csi_param,
  same→≡ (transition s (slot c)).1 dcs_param,
)
