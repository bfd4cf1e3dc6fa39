-- ===== src/Xterm/Cell/Tests.antt =====
-- Runs of internal/xterm/celldata.go.
use Prim.{tt}
use daemontest.Prelude.{◌⊗◌, ◌≡◌, [], ◌∷◌, arith}
use daemontest.Xterm.Cell.{cell_data_from_char_data, get_as_char_data}
use daemontest.Xterm.Cell.RoundTrip.{get_as_char_data-round_trip}

-- An `e` with an accent that follows it, in the color 7
get_as_char_data-round_trip_example :
    get_as_char_data
      (cell_data_from_char_data (record { attr = 7; char = 101 ∷ 0x301 ∷ []; width = 1; code = 0 }))
    ≡ record { attr = 7; char = 101 ∷ 0x301 ∷ []; width = 1; code = 0x301 }
get_as_char_data-round_trip_example =
    get_as_char_data-round_trip 7 (101 ∷ 0x301 ∷ []) 1 0
      ((omega arith, omega arith) ⊗ (omega arith, omega arith) ⊗ tt) (omega arith)
