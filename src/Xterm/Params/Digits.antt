-- ===== src/Xterm/Params/Digits.antt =====
-- How internal/xterm/parser_params.go reads decimal numbers.
use daemontest.Prelude.{
  ℕ, ◌+◌, ◌-◌, ◌*◌, ◌^◌, ◌≤◌, ◌<◌, ◌≡◌, ◌≢◌, refl, sym, ◌∙◌, false, List, [], ◌∷◌, Option, none,
  some, arith, get_or, set, get_or-set_self, get_or-set_ne,
}
use daemontest.Prelude.Int.{ℤ, pos, negsuc}
use daemontest.Xterm.Params.{Params, add_digit, next_value}
use daemontest.Xterm.Params.Inv.{IsValid, add_digit-IsValid}

-- The number that decimal digits make behind the digits of `a`.
abbrev pub decimal : ℕ → List ℕ → ℕ
decimal a [] = a
decimal a (d ∷ ds) = decimal (a * 10 + d) ds

unfoldable pub add_digits : List ℕ → Params → Option Params
add_digits [] p = some p
add_digits (d ∷ ds) p = elim (add_digit (pos d) p) [ none ↦ none | some q ↦ add_digits ds q ]

-- The last parameter takes digits.
pub record TakesDigits (p : Params) (a : ℕ) : Type 0 where
  pub some_param : 0 < p.len
  pub current : get_or p.params (p.len - 1) (pos 0) ≡ pos a
  pub accepts : p.reject_digits ≡ false
  pub on_param : p.digit_is_sub ≡ false

next_value_small : (a d : ℕ) → a * 10 + d < 2 ^ 31 → next_value (pos a) (pos d) ≡ pos (a * 10 + d)
unfolding next_value
next_value_small a d h = ground arith

-- Where the number leaves the range of an int32 the value is not held at the maximum: it wraps round
-- to a negative one.
next_value_wraps :
    (a d : ℕ)
    → 2 ^ 31 ≤ a * 10 + d
    → a * 10 + d < 2 ^ 32
    → next_value (pos a) (pos d) ≡ negsuc (2 ^ 32 - 1 - (a * 10 + d))
unfolding next_value
next_value_wraps a d h h' = ground arith

decimal-ge : (a : ℕ) (ds : List ℕ) → a ≤ decimal a ds
decimal-ge a [] = omega arith
decimal-ge a (d ∷ ds) = omega (arith, decimal-ge (a * 10 + d) ds)

-- What a digit makes of a parameter that takes digits.
abbrev with_digit : Params → ℕ → ℤ → Params
with_digit p a v = record p { params = set p.params (p.len - 1) (next_value (pos a) v) }

add_digit-with_digit :
    (p : Params) (a : ℕ) (v : ℤ)
    → IsValid p
    → TakesDigits p a
    → add_digit v p ≡ some (with_digit p a v)
unfolding add_digit
add_digit-with_digit p a v i t = ground arith

module _ (p : Params) (a : ℕ) (v w : ℤ) (i : IsValid p) (t : TakesDigits p a)
    (next : next_value (pos a) v ≡ w) where
  with_digit-current : get_or (with_digit p a v).params (p.len - 1) (pos 0) ≡ w
  with_digit-current =
      get_or-set_self p.params (p.len - 1) (next_value (pos a) v) (pos 0)
        (omega (arith, i.params_len, i.len_in, t.some_param))
      ∙ next

  with_digit-others :
      (j : ℕ)
      → j ≢ p.len - 1
      → get_or (with_digit p a v).params j (pos 0) ≡ get_or p.params j (pos 0)
  with_digit-others j ne =
      get_or-set_ne p.params (p.len - 1) j (next_value (pos a) v) (pos 0) (λ e. ne (sym e))

with_digit-TakesDigits :
    (p : Params) (a d : ℕ)
    → IsValid p
    → TakesDigits p a
    → a * 10 + d < 2 ^ 31
    → TakesDigits (with_digit p a (pos d)) (a * 10 + d)
with_digit-TakesDigits p a d i t h = record {
  some_param = t.some_param;
  current = with_digit-current p a (pos d) (pos (a * 10 + d)) i t (next_value_small a d h);
  accepts = t.accepts;
  on_param = t.on_param;
}

-- Decimal digits whose number is an int32 make the last parameter that number, behind the digits
-- read before, and leave the other parameters as they are; none of the calls panics.
pub add_digits-decimal :
    (ds : List ℕ) (p : Params) (a : ℕ)
    → IsValid p
    → TakesDigits p a
    → decimal a ds < 2 ^ 31
    → (q : Params) × (add_digits ds p ≡ some q)
      × (get_or q.params (p.len - 1) (pos 0) ≡ pos (decimal a ds))
      × (q.len ≡ p.len)
      × ((j : ℕ) → j ≢ p.len - 1 → get_or q.params j (pos 0) ≡ get_or p.params j (pos 0))
unfolding add_digits
add_digits-decimal [] p a i t h = (p, refl, t.current, refl, λ j ne. refl)
add_digits-decimal (d ∷ ds) p a i t h =
    let first = add_digit-with_digit p a (pos d) i t in
    let (q, e, current, len, others) =
      add_digits-decimal ds (with_digit p a (pos d)) (a * 10 + d)
        (add_digit-IsValid (pos d) i first)
        (with_digit-TakesDigits p a d i t (omega (arith, decimal-ge (a * 10 + d) ds))) h in
    (
      q,
      rw (first, add_digits) e,
      current,
      len,
      λ j ne. others j ne ∙ with_digit-others p a (pos d) _ i t refl j ne,
    )

-- A digit that takes the number out of the int32 range, but not beyond 32 bits, makes the parameter
-- negative: it is not held at the maximum.
pub add_digit_overflow :
    (p : Params) (a d : ℕ)
    → IsValid p
    → TakesDigits p a
    → 2 ^ 31 ≤ a * 10 + d
    → a * 10 + d < 2 ^ 32
    → (q : Params) × (add_digit (pos d) p ≡ some q)
      × (get_or q.params (p.len - 1) (pos 0) ≡ negsuc (2 ^ 32 - 1 - (a * 10 + d)))
add_digit_overflow p a d i t h h' = (
  with_digit p a (pos d),
  add_digit-with_digit p a (pos d) i t,
  with_digit-current p a (pos d) _ i t (next_value_wraps a d h h'),
)
