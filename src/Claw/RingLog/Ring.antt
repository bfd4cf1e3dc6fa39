-- ===== src/Claw/RingLog/Ring.antt =====
-- The ring of cmd/claw/ring_logger.go against the bounded queue of the entries logged.
use daemontest.Prelude.{
  ℕ, zero, suc, ◌+◌, ◌-◌, ◌%◌, ◌≤◌, ◌<◌, ◌≡◌, refl, sym, ap, ap₂, ◌∙◌, List, [], ◌∷◌, ◌++◌, none,
  some, arith, ltb, ltb→lt, ltb-false, Bool-cases, inl, inr, if◌then◌else◌, ◌==◌, length, take,
  take_all, drop, true, get_or, set, length-set, length-replicate, append_assoc, append-nil,
}
use native.Mathlib.Nat.{mod-add-mod, add-mod_right, mod-eq_of_lt, mod-mod}
use daemontest.Prelude.Int.{ℤ, pos, negsuc, is_neg, pos_part}
use daemontest.Prelude.Cyclic.{
  window, window-mod, length-window, window-push, window-push_full, take-window,
}
use daemontest.Prelude.Bounded.{last_n, last_n-nil, push_bounded, push_bounded-last_n}
use daemontest.Claw.RingLog.{
  LogEntry, RingLogger, no_entry, default_capacity, new_ring_logger, append_entry, copy_entries,
  get_recent,
}

pub record IsValid (l : RingLogger) : Type 0 where
  pub stored : length l.entries ≡ l.capacity
  pub write_in : l.write_idx < l.capacity
  pub count_in : l.count ≤ l.capacity

abbrev pub read_idx : RingLogger → ℕ
read_idx l = (l.write_idx + l.capacity - l.count) % l.capacity

-- The entries that the ring holds, oldest first.
abbrev pub contents : RingLogger → List LogEntry
contents l = window no_entry l.capacity l.entries (read_idx l) l.count

pub append_entry-IsValid : {l : RingLogger} (e : LogEntry) → IsValid l → IsValid (append_entry e l)
unfolding append_entry
append_entry-IsValid {l} e v = ground (arith, length-set l.entries l.write_idx e)

length-contents : (l : RingLogger) → length (contents l) ≡ l.count
length-contents l = length-window no_entry l.capacity l.entries (read_idx l) l.count

module _ (l : RingLogger) (v : IsValid l) where
  write-eq-end : (read_idx l + l.count) % l.capacity ≡ l.write_idx
  write-eq-end =
      mod-add-mod (l.write_idx + l.capacity - l.count) l.capacity l.count
      ∙ ap (λ t. t % l.capacity) {y = l.write_idx + l.capacity} (omega arith)
      ∙ add-mod_right l.write_idx l.capacity
      ∙ mod-eq_of_lt v.write_in

  -- The start index after a write, with `k` entries.
  start_after :
      (k : ℕ)
      → k ≤ l.capacity
      → ((l.write_idx + 1) % l.capacity + l.capacity - k) % l.capacity
        ≡ (l.write_idx + 1 + (l.capacity - k)) % l.capacity
  start_after k h =
      ap (λ t. t % l.capacity) (omega arith)
      ∙ mod-add-mod (l.write_idx + 1) l.capacity (l.capacity - k)

  contents_room :
      (e : LogEntry)
      → l.count < l.capacity
      → window no_entry l.capacity
          (set l.entries l.write_idx e)
          (((l.write_idx + 1) % l.capacity + l.capacity - (l.count + 1)) % l.capacity)
          (l.count + 1)
        ≡ contents l ++ e ∷ []
  contents_room e h =
      window-mod no_entry l.capacity (set l.entries l.write_idx e) _ (read_idx l) (l.count + 1) (
        mod-mod _ l.capacity
        ∙ start_after (l.count + 1) (omega arith)
        ∙ ap (λ t. t % l.capacity) (omega arith)
        ∙ sym (mod-mod _ l.capacity))
      ∙ ap (window no_entry l.capacity (set l.entries l.write_idx e) (read_idx l)) {y = suc l.count}
          (omega arith)
      ∙ window-push no_entry l.capacity l.entries (read_idx l) l.count l.write_idx e h
          (omega (arith, v.stored)) (sym write-eq-end)

  contents_full :
      (e : LogEntry)
      → l.count ≡ l.capacity
      → window no_entry l.capacity
          (set l.entries l.write_idx e)
          (((l.write_idx + 1) % l.capacity + l.capacity - l.count) % l.capacity)
          l.count
        ≡ drop 1 (contents l) ++ e ∷ []
  contents_full e h =
      ap (window no_entry l.capacity (set l.entries l.write_idx e) _) h
      ∙ window-mod no_entry l.capacity (set l.entries l.write_idx e) _ (read_idx l + 1) l.capacity (
          mod-mod _ l.capacity
          ∙ start_after l.count (omega arith)
          ∙ ap (λ t. t % l.capacity) (omega arith)
          ∙ sym (mod-add-mod (l.write_idx + l.capacity - l.count) l.capacity 1))
      ∙ window-push_full no_entry l.capacity l.entries (read_idx l) l.write_idx e (omega arith)
          (omega (arith, v.stored)) (sym write-eq-end ∙ wrap)
      ∙ ap (λ n. drop 1 (window no_entry l.capacity l.entries (read_idx l) n) ++ e ∷ []) (sym h)
    where
      wrap : (read_idx l + l.count) % l.capacity ≡ read_idx l % l.capacity
      wrap = ap (λ n. (read_idx l + n) % l.capacity) h ∙ add-mod_right (read_idx l) l.capacity

-- Logging an entry pushes it onto the bounded queue of the entries held.
pub append_entry-contents :
    {l : RingLogger} (e : LogEntry)
    → IsValid l
    → contents (append_entry e l) ≡ push_bounded l.capacity (contents l) e
unfolding append_entry push_bounded
append_entry-contents {l} e v = elim (Bool-cases (ltb l.count l.capacity)) [
  | inl t ↦ rw (t, length-contents l, t) (contents_room l v e (ltb→lt _ _ t))
  | inr f ↦
      rw (f, length-contents l, f)
        (contents_full l v e (omega (arith, v.count_in, ltb-false _ _ f)))
]

-- `append` for each entry in turn.
unfoldable pub log_all : List LogEntry → RingLogger → RingLogger
log_all [] l = l
log_all (e ∷ es) l = log_all es (append_entry e l)

capacity-append_entry : (e : LogEntry) (l : RingLogger) → (append_entry e l).capacity ≡ l.capacity
unfolding append_entry
capacity-append_entry e l = refl

log_all-IsValid : (es : List LogEntry) {l : RingLogger} → IsValid l → IsValid (log_all es l)
unfolding log_all
log_all-IsValid [] v = v
log_all-IsValid (e ∷ es) v = log_all-IsValid es (append_entry-IsValid e v)

log_all-contents :
    (es old : List LogEntry) {l : RingLogger} (c : ℕ)
    → IsValid l
    → l.capacity ≡ c
    → contents l ≡ last_n c old
    → contents (log_all es l) ≡ last_n c (old ++ es)
unfolding log_all
log_all-contents [] old c v k e = e ∙ ap (last_n c) (sym (append-nil old))
log_all-contents (e ∷ es) old {l} c v k h =
    log_all-contents es (old ++ e ∷ []) c (append_entry-IsValid e v) (capacity-append_entry e l ∙ k)
      (append_entry-contents e v
        ∙ ap₂ (λ n xs. push_bounded n xs e) k h
        ∙ push_bounded-last_n c old e (omega (arith, v.write_in)))
    ∙ ap (last_n c) (append_assoc old (e ∷ []) es)

pub new_ring_logger-IsValid : (n : ℤ) → IsValid (new_ring_logger n)
unfolding new_ring_logger
new_ring_logger-IsValid (negsuc n) = record {
  stored = length-replicate default_capacity no_entry;
  write_in = omega arith;
  count_in = omega arith;
}
new_ring_logger-IsValid (pos zero) = record {
  stored = length-replicate default_capacity no_entry;
  write_in = omega arith;
  count_in = omega arith;
}
new_ring_logger-IsValid (pos (suc n)) = record {
  stored = length-replicate (suc n) no_entry;
  write_in = omega arith;
  count_in = omega arith;
}

new_ring_logger-contents : (n : ℤ) → contents (new_ring_logger n) ≡ []
unfolding new_ring_logger
new_ring_logger-contents (negsuc n) = refl
new_ring_logger-contents (pos zero) = refl
new_ring_logger-contents (pos (suc n)) = refl

-- After `append` of the entries `es` to a new logger, the ring holds the newest `capacity` of them in
-- order.
pub log_all-retains :
    (n : ℤ) (es : List LogEntry)
    → let l = new_ring_logger n in contents (log_all es l) ≡ last_n l.capacity es
log_all-retains n es =
    log_all-contents es [] (new_ring_logger n).capacity (new_ring_logger-IsValid n) refl
      (new_ring_logger-contents n ∙ sym (last_n-nil (new_ring_logger n).capacity))

copy_entries-window :
    (buf : List LogEntry) (cap s i n : ℕ)
    → copy_entries buf cap s i n ≡ window no_entry cap buf (s + i) n
unfolding copy_entries
copy_entries-window buf cap s i zero = refl
copy_entries-window buf cap s i (suc n) =
    ap (◌∷◌ (get_or buf ((s + i) % cap) no_entry)) (
      copy_entries-window buf cap s (i + 1) n ∙ ap (λ t. window no_entry cap buf t n) (omega arith))

copied-take :
    (l : RingLogger) (k : ℕ)
    → k ≤ l.count
    → (if k == 0 then [] else copy_entries l.entries l.capacity (read_idx l) 0 k)
      ≡ take k (contents l)
copied-take l zero h = refl
copied-take l (suc k) h =
    more (suc k) (omega arith)
    ∙ copy_entries-window l.entries l.capacity (read_idx l) 0 (suc k)
    ∙ ap (λ t. window no_entry l.capacity l.entries t (suc k)) (omega arith)
    ∙ sym (take-window no_entry l.capacity l.entries (read_idx l) l.count (suc k) h)
  where
    more :
        (n : ℕ)
        → 0 < n
        → (if n == 0 then [] else copy_entries l.entries l.capacity (read_idx l) 0 n)
          ≡ copy_entries l.entries l.capacity (read_idx l) 0 n
    more n p = ground arith

get_recent-take : (l : RingLogger) (n : ℕ) → get_recent l (pos n) ≡ some (take n (contents l))
unfolding get_recent
get_recent-take l n = elim (Bool-cases (ltb l.count n)) [
  | inl t ↦ rw t (ap some (copied-take l l.count (omega arith) ∙ all t))
  | inr f ↦ rw f (ap some (copied-take l n (omega (arith, ltb-false _ _ f))))
]
  where
    all : ltb l.count n ≡ true → take l.count (contents l) ≡ take n (contents l)
    all t =
        take_all l.count (contents l) (omega (arith, length-contents l))
        ∙ sym (take_all n (contents l) (omega (arith, length-contents l, ltb→lt l.count n t)))

-- After `append` of the entries `es` to a new logger, `GetRecent(n)` returns the oldest `n` of the
-- newest `capacity` entries (all of them, if `n` is more than are held); at a negative `n` it panics.
pub get_recent-log_all :
    (size : ℤ) (es : List LogEntry) (n : ℤ)
    → let l = new_ring_logger size in
      get_recent (log_all es l) n
      ≡ (if is_neg n then none else some (take (pos_part n) (last_n l.capacity es)))
get_recent-log_all size es (negsuc n) = unfold get_recent in refl
get_recent-log_all size es (pos n) =
    get_recent-take (log_all es (new_ring_logger size)) n
    ∙ ap (λ xs. some (take n xs)) (log_all-retains size es)
