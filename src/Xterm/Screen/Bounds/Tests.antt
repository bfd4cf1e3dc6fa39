-- ===== src/Xterm/Screen/Bounds/Tests.antt =====
-- internal/xterm/inputhandler.go: a cursor that is placed far outside, a line feed there, and a screen that is
-- entered and left.
use daemontest.Prelude.{ℕ, List, [], ◌∷◌, Option, some}
use daemontest.Prelude.Int.{pos}
use daemontest.Xterm.Params.{Params, default_params}
use daemontest.Xterm.Parser.{Event, csi, esc, executed}
use daemontest.Xterm.Buffer.{Buffer, add_marker}
use daemontest.Xterm.Screen.{Screen}

abbrev far : Params
far = record default_params { len = 2; params = pos 99 ∷ pos 200 ∷ [] }

abbrev alternate : Params
alternate = record default_params { len = 1; params = pos 1049 ∷ [] }

abbrev marking : ℕ → ℕ → Buffer → Buffer
marking id y b = add_marker y b

-- No handlers of strings.
abbrev unheard : Event → ℕ × Screen → Option (ℕ × Screen)
unheard e s = some s

abbrev events : List Event
events =
    csi 72 far ∷ executed 10 ∷ executed 9 ∷ esc 55 ∷ csi 16232 alternate ∷ csi 16236 alternate ∷ []
