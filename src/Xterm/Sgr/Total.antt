-- ===== src/Xterm/Sgr/Total.antt =====
-- internal/xterm/inputhandler_sgr.go: no parameters make it panic, and the flag of the extended
-- attributes agrees with them.
use daemontest.Prelude.{ℕ, ◌<◌, ◌≡◌, true, [], ◌≢◌}
use daemontest.Xterm.Params.{Params, has_sub_params, get_sub_params}

-- A parameter that has sub-parameters has a first one.
abbrev pub SubsInRange : Params → Type 0
SubsInRange p = (i : ℕ) → i < p.len → has_sub_params p i ≡ true → get_sub_params p i ≢ []
