-- ===== src/Claw/RingLog.antt =====
-- cmd/claw/ring_logger.go: the ring of recent log entries and the fan-out to subscribers.
-- The mutexes make each method one step. The time and the formatted text (time.Now, fmt.Sprintf)
-- are arguments. What the wrapped log.Logger prints on stderr is not modelled.
pub mod Ring
pub mod Fanout
mod Tests
use daemontest.Prelude.{
  ℕ, zero, suc, ◌+◌, ◌-◌, ◌%◌, Bool, true, false, List, [], ◌∷◌, ◌++◌, map, Option, none, some, ltb,
  leb, ◌==◌, if◌then◌else◌, length, get_or, set, replicate, drop,
}
use daemontest.Prelude.Bytes.{Bytes, codes}
use daemontest.Prelude.Int.{ℤ, pos, negsuc}

pub record LogEntry : Type 0 where
  pub timestamp : ℕ
  pub level : Bytes
  pub message : Bytes

-- A subscriber's channel: its identity, and the entries that wait in its buffer.
pub record Subscriber : Type 0 where
  pub chan : ℕ
  pub queue : List LogEntry

pub record RingLogger : Type 0 where
  pub entries : List LogEntry
  pub capacity : ℕ
  pub write_idx : ℕ
  pub count : ℕ
  pub subscribers : List Subscriber

-- The zero value of the struct.
abbrev pub no_entry : LogEntry
no_entry = record { timestamp = 0; level = []; message = [] }

abbrev pub default_capacity : ℕ
default_capacity = 1000

abbrev pub ring_of : ℕ → RingLogger
ring_of c = record {
  entries = replicate c no_entry;
  capacity = c;
  write_idx = 0;
  count = 0;
  subscribers = [];
}

unfoldable pub new_ring_logger : ℤ → RingLogger
new_ring_logger (negsuc n) = ring_of default_capacity
new_ring_logger (pos zero) = ring_of default_capacity
new_ring_logger (pos (suc n)) = ring_of (suc n)

-- `make(chan LogEntry, 256)`
abbrev pub chan_capacity : ℕ
chan_capacity = 256

-- A non-blocking send: it takes place only if the buffer has room.
abbrev try_send : LogEntry → List LogEntry → Option (List LogEntry)
try_send e q = if ltb (length q) chan_capacity then some (q ++ e ∷ []) else none

-- The body of the fan-out loop: send; failing that, drop the oldest and send again. The receiver
-- takes no part in between.
unfoldable pub offer : LogEntry → List LogEntry → List LogEntry
offer e q = elim (try_send e q) [
  | some sent ↦ sent
  | none ↦ elim (try_send e (drop 1 q)) [ some sent ↦ sent | none ↦ drop 1 q ]
]

abbrev pub offer_to : LogEntry → Subscriber → Subscriber
offer_to e s = record s { queue = offer e s.queue }

-- The part of `append` under `l.mu`.
unfoldable pub write_entry : LogEntry → RingLogger → RingLogger
write_entry e l = record l {
  entries = set l.entries l.write_idx e;
  write_idx = (l.write_idx + 1) % l.capacity;
  count = if ltb l.count l.capacity then l.count + 1 else l.count;
}

unfoldable pub append_entry : LogEntry → RingLogger → RingLogger
unfolding write_entry offer
append_entry e l =
    let written = write_entry e l in
    record written { subscribers = map (offer_to e) written.subscribers }

pub data Level : Type 0 where
  debug info warn error fatal : Level

unfoldable pub level_name : Level → Bytes
level_name debug = codes "DEBUG"
level_name info = codes "INFO"
level_name warn = codes "WARN"
level_name error = codes "ERROR"
level_name fatal = codes "FATAL"

-- `Debugf`, `Infof`, `Warnf`, `Errorf`, and the part of `Fatalf` before the process ends.
unfoldable pub logf : Level → ℕ → Bytes → RingLogger → RingLogger
unfolding append_entry level_name
logf v now message =
    append_entry (record { timestamp = now; level = level_name v; message = message })

-- The loop of `GetRecent`, from round `i` with `n` rounds left.
unfoldable pub copy_entries : List LogEntry → ℕ → ℕ → ℕ → ℕ → List LogEntry
copy_entries entries cap read_idx i zero = []
copy_entries entries cap read_idx i (suc n) =
    get_or entries ((read_idx + i) % cap) no_entry ∷ copy_entries entries cap read_idx (i + 1) n

-- `none` is the panic of `make` at a negative length. The code's `writeIdx - count + capacity` is not
-- negative, as `count` is at most `capacity`.
unfoldable pub get_recent : RingLogger → ℤ → Option (List LogEntry)
unfolding copy_entries
get_recent l (negsuc n) = none
get_recent l (pos k) =
    let n = if ltb l.count k then l.count else k in
    let read_idx = (l.write_idx + l.capacity - l.count) % l.capacity in
    some (if n == 0 then [] else copy_entries l.entries l.capacity read_idx 0 n)

-- `Subscribe`; `make` gives the channel an identity that no other has.
unfoldable pub subscribe : ℕ → RingLogger → RingLogger
subscribe chan l = record l {
  subscribers = l.subscribers ++ record { chan = chan; queue = [] } ∷ [];
}

-- The loop of `Unsubscribe` removes the first channel that is `chan`.
unfoldable pub remove_chan : ℕ → List Subscriber → List Subscriber
remove_chan chan [] = []
remove_chan chan (s ∷ subs) = if s.chan == chan then subs else s ∷ remove_chan chan subs

unfoldable pub unsubscribe : ℕ → RingLogger → RingLogger
unfolding remove_chan
unsubscribe chan l = record l { subscribers = remove_chan chan l.subscribers }
