-- ===== src/Xterm/Osc/Sequence.antt =====
-- A whole OSC string through the sub-parser of internal/xterm/parser_osc.go.
use daemontest.Prelude.{
  ℕ, zero, ◌+◌, ◌-◌, ◌*◌, ◌≤◌, ◌<◌, ◌≡◌, refl, sym, ap, ◌∙◌, Bool, true, false, List, [], ◌∷◌, ◌++◌,
  map, reverse, Option, none, some, arith, ltb, ◌==◌, All, append_assoc, append-nil, take, drop,
  suc, Bool-cases, inl, inr, length,
}
use daemontest.Xterm.Osc.{
  OscState, HandlerCall, OscParser, started, given, ended, so_far, reset, begin, put_to, start_osc,
  read_id, put_rest, put_osc, end_each, end_to, end_osc,
}

abbrev pub IsDigit : ℕ → Type 0
IsDigit c = (0x30 ≤ c) × (c ≤ 0x39)

-- The number of the digits read behind an identifier.
abbrev pub number_from : Option ℕ → List ℕ → Option ℕ
number_from n [] = n
number_from n (c ∷ cs) = number_from (some (so_far n * 10 + c - 48)) cs

not_semicolon : (c : ℕ) → c ≤ 0x39 → (c == 0x3b) ≡ false
not_semicolon c h = ground arith

not_below : (c : ℕ) → 0x30 ≤ c → ltb c 0x30 ≡ false
not_below c h = ground arith

not_above : (c : ℕ) → c ≤ 0x39 → ltb 0x39 c ≡ false
not_above c h = ground arith

module _ {ℓ} {H : Type ℓ} where
  digit_step :
      (c : ℕ) (cs : List ℕ) (p : OscParser H)
      → 0x30 ≤ c
      → c ≤ 0x39
      → read_id (c ∷ cs) p ≡ read_id cs (record p { ident = some (so_far p.ident * 10 + c - 48) })
  unfolding read_id
  digit_step c cs p lo hi = rw (not_semicolon c hi, not_below c lo, not_above c hi) refl

  -- The digits up to the semicolon: the handlers of their number begin.
  read_id-digits :
      (ds rest : List ℕ) (p : OscParser H)
      → All IsDigit ds
      → let n = number_from p.ident ds in
        read_id (ds ++ 0x3b ∷ rest) p
        ≡ (begin (p.handlers n) (record p { state = OscState.payload; ident = n }), rest)
  unfolding read_id
  read_id-digits [] rest p all = refl
  read_id-digits (c ∷ ds) rest p ((lo, hi), all) =
      digit_step c (ds ++ 0x3b ∷ rest) p lo hi
      ∙ read_id-digits ds rest (record p { ident = some (so_far p.ident * 10 + c - 48) }) all

  -- No string under way.
  abbrev pub waiting : (Option ℕ → List H) → List (HandlerCall H) → OscParser H
  waiting handlers log = record {
    state = OscState.start;
    active = [];
    ident = none;
    handlers = handlers;
    calls = log;
  }

  module _ (answers : List (HandlerCall H) → Bool) where
    -- The calls of `End` when `n` handlers are told `success`, and the ones behind them false.
    abbrev pub told : Bool → ℕ → List H → List (HandlerCall H) → List (HandlerCall H)
    told success n hs log =
        log ++ map (λ h. ended h success) (take n hs) ++ map (λ h. ended h false) (drop n hs)

    -- The log when the first `n` handlers have ended.
    abbrev pub asked : Bool → ℕ → List H → List (HandlerCall H) → List (HandlerCall H)
    asked success n hs log = log ++ map (λ h. ended h success) (take n hs)

    -- The first `n` handlers are those up to the first that returns true, or all of them.
    pub record UpToFirst (success : Bool) (hs : List H) (log : List (HandlerCall H)) (n : ℕ)
        : Type 0 where
      pub there : n ≤ length hs
      pub declined : (k : ℕ) → k + 1 < n → answers (asked success (k + 1) hs log) ≡ false
      pub accepted : n < length hs → (0 < n) × (answers (asked success n hs log) ≡ true)

    UpToFirst-accept :
        (success : Bool) (h : H) (hs : List H) (log : List (HandlerCall H))
        → answers (log ++ ended h success ∷ []) ≡ true
        → UpToFirst success (h ∷ hs) log 1
    UpToFirst-accept success h hs log e = record {
      there = omega arith;
      declined = λ k l. absurd (omega arith);
      accepted = λ _. (omega arith, e);
    }

    asked-suc :
        (success : Bool) (k : ℕ) (h : H) (hs : List H) (log : List (HandlerCall H))
        → asked success (suc k) (h ∷ hs) log ≡ asked success k hs (log ++ ended h success ∷ [])
    asked-suc success k h hs log =
        sym (append_assoc log (ended h success ∷ []) (map (λ x. ended x success) (take k hs)))

    UpToFirst-decline :
        (success : Bool) (h : H) (hs : List H) (log : List (HandlerCall H)) (n : ℕ)
        → answers (log ++ ended h success ∷ []) ≡ false
        → UpToFirst success hs (log ++ ended h success ∷ []) n
        → UpToFirst success (h ∷ hs) log (suc n)
    UpToFirst-decline success h hs log n e u = record {
      there = omega (arith, u.there);
      declined = later;
      accepted = λ l.
          let (some_asked, accepts) = u.accepted (omega arith) in
          (omega arith, ap answers (asked-suc success n h hs log) ∙ accepts);
    }
      where
        later : (k : ℕ) → k + 1 < suc n → answers (asked success (k + 1) (h ∷ hs) log) ≡ false
        later zero l = e
        later (suc k) l =
            let one : suc k + 1 ≡ suc (k + 1) = omega arith in
            rw one (ap answers (asked-suc success (k + 1) h hs log) ∙ u.declined k (omega arith))

    -- `End` calls each handler once, in order: up to the first one that returns true, or all of them if
    -- none does, with what it was told itself, and the ones behind with false.
    pub end_each-handlers :
        (success : Bool) (hs : List H) (log : List (HandlerCall H))
        → (n : ℕ) × (end_each answers success hs log ≡ told success n hs log)
          × UpToFirst success hs log n
    unfolding end_each
    end_each-handlers success [] log = (
      0,
      sym (append-nil (log ++ []) ∙ append-nil log),
      record {
        there = omega arith;
        declined = λ k l. absurd (omega arith);
        accepted = λ l. absurd (omega arith);
      },
    )
    end_each-handlers success (h ∷ hs) log =
        let log' = log ++ ended h success ∷ [] in
        elim (Bool-cases (answers log')) [
          | inl t ↦ (1, rw t refl, UpToFirst-accept success h hs log t)
          | inr f ↦
              let (n, e, u) = end_each-handlers success hs log' in
              (
                suc n,
                rw f (
                    e
                    ∙ ap (λ xs. xs ++ map (λ k. ended k false) (drop n hs))
                        (append_assoc log (ended h success ∷ [])
                          (map (λ k. ended k success) (take n hs)))),
                UpToFirst-decline success h hs log n f u,
              )
        ]

    end_osc-whole :
        (ds : List ℕ) (c : ℕ) (cs : List ℕ) (success : Bool) (f : Option ℕ → List H)
        (log : List (HandlerCall H)) (h : H) (hs : List H)
        → All IsDigit ds
        → f (number_from none ds) ≡ h ∷ hs
        → end_osc answers success (put_osc (ds ++ 0x3b ∷ c ∷ cs) (start_osc (waiting f log)))
          ≡ waiting f (
              end_each answers success (reverse (h ∷ hs)) (
                (log ++ map started (reverse (h ∷ hs)))
                ++ map (λ k. given k (c ∷ cs)) (reverse (h ∷ hs))))
    unfolding start_osc reset put_osc put_rest put_to begin end_osc end_to
    end_osc-whole ds c cs success f log h hs all e =
        ap (λ r. end_osc answers success (put_rest r))
          (read_id-digits ds (c ∷ cs) (record (waiting f log) { state = OscState.id }) all)
        ∙ ap
            (λ hs. end_osc answers success (
              put_rest (
                begin hs (record (waiting f log) {
                  state = OscState.payload;
                  ident = number_from none ds;
                }),
                c ∷ cs,
              )))
            e

    -- An OSC string of decimal digits, a semicolon and a payload that is not empty, whose number has
    -- handlers: they begin, they get the whole payload, and they end, each time from the last one
    -- registered to the first; at the end those up to the first one that returns true, or all if none
    -- does, are told how the string ended, and those behind it get false; then the parser waits for
    -- the next string.
    pub osc-calls :
        (ds : List ℕ) (c : ℕ) (cs : List ℕ) (success : Bool) (f : Option ℕ → List H)
        (log : List (HandlerCall H)) (h : H) (hs : List H)
        → All IsDigit ds
        → f (number_from none ds) ≡ h ∷ hs
        → let order = reverse (h ∷ hs) in
          let before = (log ++ map started order) ++ map (λ k. given k (c ∷ cs)) order in
          (n : ℕ) × (end_osc answers success
              (put_osc (ds ++ 0x3b ∷ c ∷ cs) (start_osc (waiting f log)))
            ≡ waiting f (told success n order before))
          × UpToFirst success order before n
    osc-calls ds c cs success f log h hs all e =
        let order = reverse (h ∷ hs) in
        let before = (log ++ map started order) ++ map (λ k. given k (c ∷ cs)) order in
        let (n, g, u) = end_each-handlers success order before in
        (n, end_osc-whole ds c cs success f log h hs all e ∙ ap (waiting f) g, u)
