-- ===== src/Claw/RingLog/Tests.antt =====
-- Runs of cmd/claw/ring_logger.go.
use daemontest.Prelude.{ℕ, ◌≡◌, refl, List, [], ◌∷◌, ◌++◌, some, replicate, arith}
use daemontest.Prelude.Bytes.{codes}
use daemontest.Prelude.Int.{pos}
use daemontest.Claw.RingLog.{
  LogEntry, RingLogger, new_ring_logger, append_entry, logf, info, get_recent, subscribe,
}
use daemontest.Claw.RingLog.Ring.{log_all, get_recent-log_all}
use daemontest.Claw.RingLog.Fanout.{log_all-subscribers}

abbrev entry : ℕ → LogEntry
entry t = record { timestamp = t; level = codes "INFO"; message = codes "up" }

abbrev three : List LogEntry
three = entry 1 ∷ entry 2 ∷ entry 3 ∷ []

-- a ring of two holds the entries 2 and 3, and `GetRecent(1)` returns 2
get_recent-log_all_example :
    get_recent (log_all three (new_ring_logger (pos 2))) (pos 1) ≡ some (entry 2 ∷ [])
unfolding new_ring_logger
get_recent-log_all_example = get_recent-log_all (pos 2) three (pos 1)

runs :
    get_recent (logf info 3 (codes "up") (log_all (entry 2 ∷ []) (new_ring_logger (pos 2)))) (pos 5)
    ≡ some (entry 2 ∷ entry 3 ∷ [])
unfolding new_ring_logger log_all append_entry logf get_recent
runs = refl

-- the buffer is full: the oldest entry makes room
abbrev listened : RingLogger
listened = record (subscribe 7 (new_ring_logger (pos 2))) {
  subscribers = record { chan = 7; queue = entry 0 ∷ replicate 255 (entry 1) } ∷ [];
}

log_all-subscribers_example :
    (log_all (entry 2 ∷ []) listened).subscribers
    ≡ record { chan = 7; queue = replicate 255 (entry 1) ++ entry 2 ∷ [] } ∷ []
log_all-subscribers_example = log_all-subscribers (entry 2 ∷ []) listened (omega arith)
