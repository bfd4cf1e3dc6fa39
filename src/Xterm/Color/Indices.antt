-- ===== src/Xterm/Color/Indices.antt =====
-- internal/xterm/inputhandler_osc.go: the color slots that are asked for.
use daemontest.Prelude.{◌<◌, ◌≤◌}
use daemontest.Xterm.Color.{ColorEvent}

-- A slot of the palette, and one of the three others.
abbrev pub InPalette : ColorEvent → Type 0
InPalette e = e.index < 256

abbrev pub IsSpecial : ColorEvent → Type 0
IsSpecial e = (256 ≤ e.index) × (e.index < 259)
