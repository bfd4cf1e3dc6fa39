-- ===== src/Claw/RingLog/Fanout.antt =====
-- The fan-out of cmd/claw/ring_logger.go: each subscriber's buffer against the bounded queue.
use daemontest.Prelude.{
  ℕ, ◌-◌, ◌≤◌, ◌≡◌, refl, sym, ap, ap₂, ◌∙◌, List, [], ◌∷◌, ◌++◌, map, arith, length, append-nil,
  append_assoc,
}
use daemontest.Prelude.Bounded.{
  last_n, last_n_all, last_n-append, push_bounded, push_bounded-last_n, length-drop,
}
use daemontest.Claw.RingLog.{
  LogEntry, Subscriber, RingLogger, chan_capacity, offer, offer_to, append_entry,
}
use daemontest.Claw.RingLog.Ring.{log_all}

-- What the fan-out does to a buffer within its capacity: it pushes onto the bounded queue.
offer-push_bounded :
    (e : LogEntry) (q : List LogEntry)
    → length q ≤ chan_capacity
    → offer e q ≡ push_bounded chan_capacity q e
unfolding offer push_bounded
offer-push_bounded e q h = ground (arith, length-drop 1 q)

length-last_n : (c : ℕ) (q : List LogEntry) → length (last_n c q) ≤ c
length-last_n c q = omega (arith, length-drop (length q - c) q)

-- A buffer after the entries `es` were sent to it, with no receive in between.
abbrev pub received : List LogEntry → Subscriber → Subscriber
received es s = record s { queue = last_n chan_capacity (s.queue ++ es) }

abbrev pub IsSmall : List Subscriber → Type 0
IsSmall [] = Unit
IsSmall (s ∷ subs) = (length s.queue ≤ chan_capacity) × IsSmall subs

map-received_cons :
    (e : LogEntry) (es : List LogEntry) (subs : List Subscriber)
    → map (received es) (map (received (e ∷ [])) subs) ≡ map (received (e ∷ es)) subs
map-received_cons e es [] = refl
map-received_cons e es (s ∷ subs) =
    ap₂ (λ q r. record s { queue = q } ∷ r)
      (last_n-append chan_capacity (s.queue ++ e ∷ []) es
        ∙ ap (last_n chan_capacity) (append_assoc s.queue (e ∷ []) es))
      (map-received_cons e es subs)

map-received_nil : (subs : List Subscriber) → IsSmall subs → subs ≡ map (received []) subs
map-received_nil [] h = refl
map-received_nil (s ∷ subs) h =
    ap₂ (λ q r. record s { queue = q } ∷ r)
      (sym (ap (last_n chan_capacity) (append-nil s.queue) ∙ last_n_all chan_capacity s.queue h.0))
      (map-received_nil subs h.1)

offered :
    (e : LogEntry) (q : List LogEntry)
    → length q ≤ chan_capacity
    → offer e q ≡ last_n chan_capacity (q ++ e ∷ [])
offered e q h =
    offer-push_bounded e q h
    ∙ ap (λ xs. push_bounded chan_capacity xs e) (sym (last_n_all chan_capacity q h))
    ∙ push_bounded-last_n chan_capacity q e (omega arith)

map-offer :
    (e : LogEntry) (subs : List Subscriber)
    → IsSmall subs
    → map (offer_to e) subs ≡ map (received (e ∷ [])) subs
map-offer e [] h = refl
map-offer e (s ∷ subs) h =
    ap₂ (λ q r. record s { queue = q } ∷ r) (offered e s.queue h.0) (map-offer e subs h.1)

map-received-IsSmall :
    (es : List LogEntry) (subs : List Subscriber) → IsSmall (map (received es) subs)
map-received-IsSmall es [] = tt
map-received-IsSmall es (s ∷ subs) =
    (length-last_n chan_capacity (s.queue ++ es), map-received-IsSmall es subs)

-- After `append` of the entries `es`, with no receive in between, each subscriber's buffer holds the
-- newest 256 of what waited in it followed by `es`, in order; no buffer was above 256 before.
pub log_all-subscribers :
    (es : List LogEntry) (l : RingLogger)
    → IsSmall l.subscribers
    → (log_all es l).subscribers ≡ map (received es) l.subscribers
unfolding log_all append_entry
log_all-subscribers [] l h = map-received_nil l.subscribers h
log_all-subscribers (e ∷ es) l h =
    log_all-subscribers es (append_entry e l)
      (rw (map-offer e l.subscribers h) (map-received-IsSmall (e ∷ []) l.subscribers))
    ∙ ap (map (received es)) (map-offer e l.subscribers h)
    ∙ map-received_cons e es l.subscribers
