-- ===== src/Xterm/CircularList/Sequence.antt =====
-- Runs of the methods of internal/xterm/circularlist.go, and the same runs of a plain sequence.
use daemontest.Prelude.{
  ℕ, ◌-◌, ◌<◌, ◌≡◌, refl, sym, ap, ap₂, ◌∙◌, Bool, true, ◌&&◌, List, [], ◌∷◌, ◌++◌, map, arith,
  length, get_or, set, take, drop, ltb, ltb→lt, Bool-cases, and-left, and-right, inl, inr, ◌==◌,
  if◌then◌else◌,
}
use daemontest.Prelude.Bounded.{push_bounded}
use daemontest.Xterm.CircularList.{
  CircularList, Fired, trimmed, get, put, push, pop, trim_start, new_circular_list,
}
use daemontest.Xterm.CircularList.Inv.{
  IsValid, contents, push-IsValid, trim_start-IsValid, pop-IsValid, put-IsValid,
  new_circular_list-IsValid,
}
use daemontest.Xterm.CircularList.Refine.{
  length-contents, push-contents, trim_start-contents, pop-contents, pop-rest, put-contents,
  get-contents,
}

-- A call of a method.
pub data Call {ℓ} (A : Type ℓ) : Type ℓ where
  do_push : A → Call A
  do_pop : Call A
  do_trim : ℕ → Call A
  do_get : ℕ → Call A
  do_set : ℕ → A → Call A

-- What a caller observes: an element returned, an event fired.
pub data Seen {ℓ} (A : Type ℓ) : Type ℓ where
  returned : A → Seen A
  event : Fired → Seen A

module _ {ℓ} {A : Type ℓ} (d : A) where
  unfoldable pub call : Call A → CircularList A → CircularList A × List (Seen A)
  call (do_push v) cl = let (c, es) = push d v cl in (c, map event es)
  call do_pop cl = let (v, c) = pop d cl in (c, returned v ∷ [])
  call (do_trim n) cl = let (c, es) = trim_start d n cl in (c, map event es)
  call (do_get n) cl = (cl, returned (get d cl n) ∷ [])
  call (do_set n v) cl = (put d cl n v, [])

  -- The calls in turn, and all that is observed.
  unfoldable pub run : List (Call A) → CircularList A → CircularList A × List (Seen A)
  run [] cl = (cl, [])
  run (op ∷ ops) cl = let rest = run ops (call op cl).0 in (rest.0, (call op cl).1 ++ rest.1)

  -- The same calls of a sequence that keeps its newest `max` elements.
  unfoldable pub seq_call : ℕ → Call A → List A → List A × List (Seen A)
  seq_call max (do_push v) xs =
      (push_bounded max xs v, if length xs == max then event (trimmed 1) ∷ [] else [])
  seq_call max do_pop xs = (take (length xs - 1) xs, returned (get_or xs (length xs - 1) d) ∷ [])
  seq_call max (do_trim n) xs =
      (drop n xs, event (trimmed (if ltb (length xs) n then length xs else n)) ∷ [])
  seq_call max (do_get n) xs = (xs, returned (get_or xs n d) ∷ [])
  seq_call max (do_set n v) xs = (set xs n v, [])

  unfoldable pub seq_run : ℕ → List (Call A) → List A → List A × List (Seen A)
  seq_run max [] xs = (xs, [])
  seq_run max (op ∷ ops) xs =
      let rest = seq_run max ops (seq_call max op xs).0 in
      (rest.0, (seq_call max op xs).1 ++ rest.1)

  -- A sequence of `n` elements allows the call: `Pop` of an element, `Get` and `Set` at its indices.
  unfoldable pub allows : ℕ → Call A → Bool
  allows n (do_push v) = true
  allows n do_pop = ltb 0 n
  allows n (do_trim k) = true
  allows n (do_get k) = ltb k n
  allows n (do_set k v) = ltb k n

  unfoldable pub allows_all : ℕ → List (Call A) → List A → Bool
  allows_all max [] xs = true
  allows_all max (op ∷ ops) xs =
      let rest = allows_all max ops (seq_call max op xs).0 in allows (length xs) op && rest

  call-IsValid : (op : Call A) {cl : CircularList A} → IsValid cl → IsValid (call op cl).0
  unfolding call
  call-IsValid (do_push v) i = push-IsValid d v i
  call-IsValid do_pop i = pop-IsValid d i
  call-IsValid (do_trim n) i = trim_start-IsValid d n i
  call-IsValid (do_get n) i = i
  call-IsValid (do_set n v) i = put-IsValid d n v i

  max_len-call : (op : Call A) (cl : CircularList A) → (call op cl).0.max_len ≡ cl.max_len
  unfolding call push pop trim_start put
  max_len-call (do_push v) cl = ground arith
  max_len-call do_pop cl = refl
  max_len-call (do_trim n) cl = refl
  max_len-call (do_get n) cl = refl
  max_len-call (do_set n v) cl = refl

  push-fired :
      (v : A) (cl : CircularList A)
      → map {B = Seen A} event (push d v cl).1
        ≡ (if cl.len == cl.max_len then event (trimmed 1) ∷ [] else [])
  unfolding push
  push-fired v cl = elim (Bool-cases (cl.len == cl.max_len)) [
    | inl t ↦ rw t refl
    | inr f ↦ rw f refl
  ]

  trim_start-fired :
      (n : ℕ) (cl : CircularList A)
      → map {B = Seen A} event (trim_start d n cl).1
        ≡ event (trimmed (if ltb cl.len n then cl.len else n)) ∷ []
  unfolding trim_start
  trim_start-fired n cl = refl

  call-refines :
      (op : Call A) (cl : CircularList A)
      → IsValid cl
      → allows cl.len op ≡ true
      → (contents d (call op cl).0, (call op cl).1) ≡ seq_call cl.max_len op (contents d cl)
  unfolding call seq_call allows
  call-refines (do_push v) cl i h =
      ap₂ (λ xs es. (xs, es)) (push-contents d cl i v)
        (push-fired v cl
          ∙ ap (λ n. if n == cl.max_len then event (trimmed 1) ∷ [] else [])
              (sym (length-contents d cl i)))
  call-refines do_pop cl i h =
      ap₂ (λ xs v. (xs, returned v ∷ [])) (pop-rest d cl i (ltb→lt _ _ h))
        (ap (λ r. r.0) (pop-contents d cl i (ltb→lt _ _ h)))
      ∙ ap (λ n. (take (n - 1) (contents d cl), returned (get_or (contents d cl) (n - 1) d) ∷ []))
          (sym (length-contents d cl i))
  call-refines (do_trim n) cl i h =
      ap₂ (λ xs es. (xs, es)) (trim_start-contents d cl i n)
        (trim_start-fired n cl
          ∙ ap (λ k. event (trimmed (if ltb k n then k else n)) ∷ [])
              (sym (length-contents d cl i)))
  call-refines (do_get n) cl i h =
      ap (λ v. (contents d cl, returned v ∷ [])) (get-contents d cl i n (ltb→lt _ _ h))
  call-refines (do_set n v) cl i h = ap (λ xs. (xs, [])) (put-contents d cl i n v (ltb→lt _ _ h))

  run-seq_run :
      (ops : List (Call A)) (max : ℕ) (cl : CircularList A) (xs : List A)
      → IsValid cl
      → cl.max_len ≡ max
      → contents d cl ≡ xs
      → allows_all max ops xs ≡ true
      → (contents d (run ops cl).0, (run ops cl).1) ≡ seq_run max ops xs
  unfolding run seq_run allows_all
  run-seq_run [] max cl xs i m e h = ap (λ ys. (ys, [])) e
  run-seq_run (op ∷ ops) max cl xs i m e h =
      ap₂ (λ rest seen. (rest.0, seen ++ rest.1))
        (run-seq_run ops max (call op cl).0 (seq_call max op xs).0 (call-IsValid op i)
          (max_len-call op cl ∙ m) (ap (λ r. r.0) step) (and-right _ _ h))
        (ap (λ r. r.1) step)
    where
      len : cl.len ≡ length xs
      len = sym (length-contents d cl i) ∙ ap length e

      step : (contents d (call op cl).0, (call op cl).1) ≡ seq_call max op xs
      step =
          call-refines op cl i (ap (λ n. allows n op) len ∙ and-left _ _ h)
          ∙ ap₂ (λ m xs. seq_call m op xs) m e

  -- Any calls of `Push`, `Pop`, `TrimStart`, `Get` and `Set` on a new list of a maximum length above 0
  -- return the elements and fire the events that they would with a plain sequence that drops its oldest
  -- element for a `Push` beyond the maximum, and the list then holds that sequence; if the sequence
  -- always has the element that `Pop`, `Get` and `Set` name.
  pub run-refines :
      (max : ℕ) (ops : List (Call A))
      → 0 < max
      → allows_all max ops [] ≡ true
      → let r = run ops (new_circular_list d max) in (contents d r.0, r.1) ≡ seq_run max ops []
  run-refines max ops h ok =
      run-seq_run ops max (new_circular_list d max) [] (new_circular_list-IsValid d max h)
        (unfold new_circular_list in refl) (unfold new_circular_list in refl) ok
