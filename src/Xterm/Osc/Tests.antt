-- ===== src/Xterm/Osc/Tests.antt =====
-- Runs of internal/xterm/parser_osc.go.
use daemontest.Prelude.{
  ℕ, ◌≡◌, refl, Bool, true, false, List, [], ◌∷◌, Option, none, some, arith, ◌==◌, if◌then◌else◌,
}
use daemontest.Xterm.Osc.{
  HandlerCall, started, given, ended, start_osc, put_osc, end_osc, end_each, reset, begin, put_rest,
  read_id,
}
use daemontest.Xterm.Osc.Sequence.{waiting, told, UpToFirst, osc-calls, end_each-handlers}

-- Two handlers for the number 52.
abbrev handlers : Option ℕ → List ℕ
handlers none = []
handlers (some n) = if n == 52 then 7 ∷ 8 ∷ [] else []

abbrev declines : List (HandlerCall ℕ) → Bool
declines log = false

abbrev before : List (HandlerCall ℕ)
before = started 8 ∷ started 7 ∷ given 8 (65 ∷ 66 ∷ []) ∷ given 7 (65 ∷ 66 ∷ []) ∷ []

osc-calls_example :
    (n : ℕ) × (end_osc declines true
        (put_osc (53 ∷ 50 ∷ 0x3b ∷ 65 ∷ 66 ∷ []) (start_osc (waiting handlers [])))
      ≡ waiting handlers (told declines true n (8 ∷ 7 ∷ []) before))
    × UpToFirst declines true (8 ∷ 7 ∷ []) before n
osc-calls_example =
    osc-calls declines (53 ∷ 50 ∷ []) 65 (66 ∷ []) true handlers [] 7 (8 ∷ [])
      ((omega arith, omega arith), ((omega arith, omega arith), tt)) refl

end_each-handlers_example :
    (n : ℕ) × (end_each declines true (8 ∷ 7 ∷ []) [] ≡ told declines true n (8 ∷ 7 ∷ []) [])
    × UpToFirst declines true (8 ∷ 7 ∷ []) [] n
end_each-handlers_example = end_each-handlers declines true (8 ∷ 7 ∷ []) []

-- A string that is not over when the next one starts: its handlers are told.
interrupted :
    (start_osc (put_osc (53 ∷ 50 ∷ 0x3b ∷ []) (start_osc (waiting handlers [])))).calls
    ≡ started 8 ∷ started 7 ∷ ended 8 false ∷ ended 7 false ∷ []
unfolding start_osc reset put_osc put_rest read_id begin
interrupted = refl
