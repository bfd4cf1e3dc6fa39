-- ===== src/Xterm/Parser/Runs.antt =====
-- The read-ahead loops of internal/xterm/parser.go against the machine that takes one code at a time.
use daemontest.Prelude.{
  ℕ, ◌≡◌, refl, ap, ◌∙◌, sym, Bool, true, not, ◌||◌, List, [], ◌∷◌, ◌++◌, All, ◌⊎◌, inl, inr,
}
use daemontest.Xterm.Table.{
  ParserState, csi_param, dcs_param, osc_string, dcs_passthrough, apc_string, ParserAction,
  transition, slot, print_run, param_run, osc_run, dcs_run, apc_run,
}
use daemontest.Xterm.Table.Facts.{
  dcs_clean, apc_clean, print_run_entry, csi_param_entry, dcs_param_entry, osc_run_entry,
  dcs_run_entry, apc_run_entry,
}
use daemontest.Xterm.Parser.{
  Parser, Event, printed, osc_data, dcs_data, apc_data, goto, act, round, span, param_code,
  param_codes,
}
use daemontest.Xterm.Parser.Reference.{feed, feed_all, single}

-- The codes that a read-ahead loop would take, and the table treats alike.
abbrev pub CleanAt : ParserState → ℕ → Type 0
CleanAt dcs_passthrough c = (not (dcs_run c) || dcs_clean c) ≡ true
CleanAt apc_string c = (not (apc_run c) || apc_clean c) ≡ true
CleanAt _ c = Unit

-- So along the whole input.
abbrev pub Clean : Parser → List ℕ → Type 0
Clean p [] = Unit
Clean p (c ∷ cs) = CleanAt p.current_state c × Clean (feed p c).1 cs

pub feed-act :
    (p : Parser) (c : ℕ) {a : ParserAction} {n : ParserState}
    → transition p.current_state (slot c) ≡ (a, n)
    → feed p c ≡ ((act a n c [] p).0, (act a n c [] p).1)
unfolding feed round
feed-act p c e =
    ap (λ (t : ParserAction × ParserState). ((act t.0 t.1 c [] p).0, (act t.0 t.1 c [] p).1)) e

pub goto_same : (p : Parser) {s : ParserState} → p.current_state ≡ s → goto s p ≡ p
goto_same p e = λ i. record p { current_state = sym e i }

module _ (s : ParserState) (event : List ℕ → Event) (run : ℕ → Bool)
    (step : (p : Parser) (c : ℕ)
      → p.current_state ≡ s
      → run c ≡ true
      → CleanAt s c
      → feed p c ≡ (event (c ∷ []) ∷ [], p)) where
  -- A run of codes gives one event each and leaves the parser as it is.
  pub feed_run :
      (p : Parser) (taken rest : List ℕ)
      → p.current_state ≡ s
      → All (λ c. run c ≡ true) taken
      → Clean p (taken ++ rest)
      → (feed_all p (taken ++ rest)
          ≡ (single event taken ++ (feed_all p rest).0, (feed_all p rest).1))
        × Clean p rest
  unfolding feed_all single
  feed_run p [] rest e h k = (refl, k)
  feed_run p (c ∷ taken) rest e h k =
      let one = step p c e h.0 (rw e at k.0) in
      let more = feed_run p taken rest e h.1 (rw one at k.1) in
      (
        ap
              (λ (t : List Event × Parser).
                (t.0 ++ (feed_all t.1 (taken ++ rest)).0, (feed_all t.1 (taken ++ rest)).1))
              one
            ∙ ap (λ (t : List Event × Parser). (event (c ∷ []) ∷ t.0, t.1)) more.0,
        more.1,
      )

pub print_step :
    (p : Parser) (c : ℕ)
    → p.current_state ≡ ParserState.ground
    → print_run c ≡ true
    → CleanAt ParserState.ground c
    → feed p c ≡ (printed (c ∷ []) ∷ [], p)
unfolding act span
print_step p c e h k =
    feed-act p c (ap (λ t. transition t (slot c)) e ∙ print_run_entry c h)
    ∙ ap (λ q. (printed (c ∷ []) ∷ [], q)) (goto_same p e)

pub osc_step :
    (p : Parser) (c : ℕ)
    → p.current_state ≡ osc_string
    → osc_run c ≡ true
    → CleanAt osc_string c
    → feed p c ≡ (osc_data (c ∷ []) ∷ [], p)
unfolding act span
osc_step p c e h k =
    feed-act p c (ap (λ t. transition t (slot c)) e ∙ osc_run_entry c h)
    ∙ ap (λ q. (osc_data (c ∷ []) ∷ [], q)) (goto_same p e)

pub dcs_step :
    (p : Parser) (c : ℕ)
    → p.current_state ≡ dcs_passthrough
    → dcs_run c ≡ true
    → CleanAt dcs_passthrough c
    → feed p c ≡ (dcs_data (c ∷ []) ∷ [], p)
unfolding act span
dcs_step p c e h k =
    feed-act p c (ap (λ t. transition t (slot c)) e ∙ dcs_run_entry c h (rw h at k))
    ∙ ap (λ q. (dcs_data (c ∷ []) ∷ [], q)) (goto_same p e)

pub apc_step :
    (p : Parser) (c : ℕ)
    → p.current_state ≡ apc_string
    → apc_run c ≡ true
    → CleanAt apc_string c
    → feed p c ≡ (apc_data (c ∷ []) ∷ [], p)
unfolding act span
apc_step p c e h k =
    feed-act p c (ap (λ t. transition t (slot c)) e ∙ apc_run_entry c h (rw h at k))
    ∙ ap (λ q. (apc_data (c ∷ []) ∷ [], q)) (goto_same p e)

-- The two states that take parameters.
abbrev pub InParams : ParserState → Type 0
InParams s = (s ≡ csi_param) ⊎ (s ≡ dcs_param)

pub param_step :
    (p : Parser) (c : ℕ)
    → InParams p.current_state
    → param_run c ≡ true
    → feed p c ≡ ([], record p { params = param_code c p.params })
unfolding act span param_codes
param_step p c (inl e) h =
    feed-act p c (ap (λ t. transition t (slot c)) e ∙ csi_param_entry c h)
    ∙ ap (λ s. ([], record p { current_state = s; params = param_code c p.params })) (sym e)
param_step p c (inr e) h =
    feed-act p c (ap (λ t. transition t (slot c)) e ∙ dcs_param_entry c h)
    ∙ ap (λ s. ([], record p { current_state = s; params = param_code c p.params })) (sym e)

-- A run of parameter codes.
pub feed_params :
    (p : Parser) (taken rest : List ℕ)
    → InParams p.current_state
    → All (λ c. param_run c ≡ true) taken
    → Clean p (taken ++ rest)
    → (feed_all p (taken ++ rest)
        ≡ feed_all (record p { params = param_codes taken p.params }) rest)
      × Clean (record p { params = param_codes taken p.params }) rest
unfolding feed_all param_codes
feed_params p [] rest e h k = (refl, k)
feed_params p (c ∷ taken) rest e h k =
    let one = param_step p c e h.0 in
    let more =
      feed_params (record p { params = param_code c p.params }) taken rest e h.1 (rw one at k.1) in
    (
      ap
            (λ (t : List Event × Parser).
              (t.0 ++ (feed_all t.1 (taken ++ rest)).0, (feed_all t.1 (taken ++ rest)).1))
            one
          ∙ more.0,
      more.1,
    )
