-- ===== src/Xterm/Screen/Bounds/Runs.antt =====
-- internal/xterm/inputhandler.go, parser.go: the place of the cursor after runs of events.
use daemontest.Prelude.{
  ℕ, ◌≡◌, ◌⊎◌, Bool, true, false, ◌||◌, List, [], ◌∷◌, Option, none, some, ◌==◌,
}
use daemontest.Xterm.Params.{Params}
use daemontest.Xterm.Parser.{Event, executed, failed, csi, esc}
use daemontest.Xterm.Buffer.{Buffer}
use daemontest.Xterm.Screen.{Screen}
use daemontest.Xterm.Screen.Inv.{Framed}
use daemontest.Xterm.Screen.Bounds.Scrolling.{Within}

-- A handler that leaves the cursor and the margins in place, if it returns.
abbrev KeepsWithin : (Screen → Option Screen) → Type 0
KeepsWithin h = (s : Screen) → Framed s → Within (h s)

-- One that always returns.
abbrev Returns : (Screen → Option Screen) → Type 0
Returns h = (s : Screen) → (t : Screen) × (h s ≡ some t)

-- The events that may scroll: LF, VT, FF, IND, NEL and RI; and SGR.
abbrev pub may_panic : Event → Bool
may_panic (executed code) = 0x0A == code || (0x0B == code || 0x0C == code)
may_panic (esc code) = b'D' == code || (b'E' == code || b'M' == code)
may_panic (csi code p) = b'm' == code
may_panic _ = false

-- Control codes, escape sequences and control sequences, but for REP, and errors.
abbrev pub IsControl : Event → Type 0
IsControl (executed code) = Unit
IsControl (esc code) = Unit
IsControl (csi code p) = (b'b' == code) ≡ false
IsControl (failed code p) = Unit
IsControl _ = ⊥

-- A screen with the cursor and the margins in place, or a panic.
abbrev Settles : Bool → Option Screen → Type 0
Settles panics o = ((t : Screen) × (o ≡ some t) × Framed t) ⊎ ((o ≡ none) × (panics ≡ true))

-- Some event of a run may panic.
abbrev pub MayPanic : List Event → Type 0
MayPanic [] = ⊥
MayPanic (e ∷ es) = (may_panic e ≡ true) ⊎ MayPanic es

module _ {S : Type 0} (add : ℕ → ℕ → Buffer → Buffer)
    (on_string : Event → S × Screen → Option (S × Screen)) where
  -- After an event, with the join state and the state of the sub-parsers.
  abbrev Ends : Bool → S → Option (ℕ × S × Screen) → Type 0
  Ends panics st o =
      ((j : ℕ) × (t : Screen) × (o ≡ some (j, st, t)) × Framed t) ⊎ ((o ≡ none) × (panics ≡ true))
