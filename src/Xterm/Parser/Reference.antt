-- ===== src/Xterm/Parser/Reference.antt =====
-- The machine of internal/xterm/parser.go without its read-ahead loops: one code, one look-up.
use daemontest.Prelude.{
  ℕ, ◌≤◌, ◌≡◌, refl, ap, ◌∙◌, sym, Bool, true, List, [], ◌∷◌, ◌++◌, arith, length, All,
  append_assoc, Bool-cases, inl, inr,
}
use daemontest.Xterm.Parser.{Parser, Event, printed, osc_data, dcs_data, apc_data, round, span}

-- One code: a round with nothing to read ahead.
unfoldable pub feed : Parser → ℕ → List Event × Parser
feed p c = let (events, q, rest) = round p c [] in (events, q)

unfoldable pub feed_all : Parser → List ℕ → List Event × Parser
feed_all p [] = ([], p)
feed_all p (c ∷ cs) =
    let (events, q) = feed p c in let (later, r) = feed_all q cs in (events ++ later, r)

-- The events of text and payloads, one for each code.
unfoldable pub single : (List ℕ → Event) → List ℕ → List Event
single event [] = []
single event (c ∷ cs) = event (c ∷ []) ∷ single event cs

unfoldable pub spread : Event → List Event
unfolding single
spread (printed cs) = single printed cs
spread (osc_data cs) = single osc_data cs
spread (dcs_data cs) = single dcs_data cs
spread (apc_data cs) = single apc_data cs
spread e = e ∷ []

unfoldable pub spread_all : List Event → List Event
unfolding spread
spread_all [] = []
spread_all (e ∷ es) = spread e ++ spread_all es

pub spread_all-append :
    (xs ys : List Event) → spread_all (xs ++ ys) ≡ spread_all xs ++ spread_all ys
unfolding spread_all
spread_all-append [] ys = refl
spread_all-append (x ∷ xs) ys =
    ap (◌++◌ (spread x)) (spread_all-append xs ys)
    ∙ sym (append_assoc (spread x) (spread_all xs) (spread_all ys))

pub feed_all-append :
    (p : Parser) (xs ys : List ℕ)
    → feed_all p (xs ++ ys)
      ≡ ((feed_all p xs).0 ++ (feed_all (feed_all p xs).1 ys).0, (feed_all (feed_all p xs).1 ys).1)
unfolding feed_all
feed_all-append p [] ys = refl
feed_all-append p (x ∷ xs) ys =
    ap (λ (out : List Event × Parser). ((feed p x).0 ++ out.0, out.1))
      (feed_all-append (feed p x).1 xs ys)
    ∙ ap (λ es. (es, (feed_all (feed_all (feed p x).1 xs).1 ys).1))
        (sym (append_assoc (feed p x).0 (feed_all (feed p x).1 xs).0 _))

-- The two parts of a read-ahead.
pub span-append : (run : ℕ → Bool) (cs : List ℕ) → (span run cs).0 ++ (span run cs).1 ≡ cs
unfolding span
span-append run [] = refl
span-append run (c ∷ cs) = elim (Bool-cases (run c)) [
  | inl t ↦ rw t (ap (◌∷◌ c) (span-append run cs))
  | inr f ↦ rw f
]

pub span-All : (run : ℕ → Bool) (cs : List ℕ) → All (λ c. run c ≡ true) (span run cs).0
unfolding span
span-All run [] = tt
span-All run (c ∷ cs) = elim (Bool-cases (run c)) [
  | inl t ↦ rw t (t, span-All run cs)
  | inr f ↦ rw f tt
]

pub span-length : (run : ℕ → Bool) (cs : List ℕ) → length (span run cs).1 ≤ length cs
unfolding span
span-length run [] = omega arith
span-length run (c ∷ cs) = elim (Bool-cases (run c)) [
  | inl t ↦ rw t (omega (arith, span-length run cs))
  | inr f ↦ rw f (omega arith)
]
