-- ===== src/Xterm/Params/Inv.antt =====
-- The representation invariant of internal/xterm/parser_params.go.
use daemontest.Prelude.{
  ℕ, ◌+◌, ◌-◌, ◌≤◌, ◌≡◌, refl, false, List, [], ◌∷◌, Option, none, some, arith, length, length-set,
  length-replicate, get_or, ◌≢◌, inl, inr, Option-cases, All, ◌*◌, ◌%◌, ◌^◌,
}
use Prim.Native.Nat.{bit_or}
use daemontest.Prelude.Int.{ℤ, pos}
use daemontest.Xterm.Params.{
  Params, max_sub_params, below_minus_one, default_params, blank, clamp, next_value, new_params,
  reset, add_param, add_sub_param, add_digit,
}

-- Every index that the methods compute is inside its slice.
pub record IsValid (p : Params) : Type 0 where
  pub params_len : length p.params ≡ p.max_length
  pub idx_len : length p.sub_params_idx ≡ p.max_length
  pub subs_len : length p.sub_params ≡ p.max_sub_params_len
  pub len_in : p.len ≤ p.max_length
  pub subs_in : p.sub_params_length ≤ p.max_sub_params_len
  pub subs_small : p.max_sub_params_len ≤ max_sub_params

blank-IsValid : (m s : ℕ) → s ≤ max_sub_params → IsValid (blank m s)
blank-IsValid m s h = omega (
  arith,
  length-replicate m (pos 0),
  length-replicate {0} {A = ℕ} m 0,
  length-replicate s (pos 0),
)

pub new_params-IsValid : (m s : ℕ) {p : Params} → new_params m s ≡ some p → IsValid p
unfolding new_params
new_params-IsValid m s h = ground (arith, blank-IsValid m s)

pub add_param-IsValid : (v : ℤ) {p q : Params} → IsValid p → add_param v p ≡ some q → IsValid q
unfolding add_param
add_param-IsValid v {p} i h = ground (
  arith,
  length-set p.params p.len (clamp v),
  length-set p.sub_params_idx p.len (bit_or (p.sub_params_length * 2 ^ 8) p.sub_params_length),
)

pub add_sub_param-IsValid :
    (v : ℤ) {p q : Params} → IsValid p → add_sub_param v p ≡ some q → IsValid q
unfolding add_sub_param
add_sub_param-IsValid v {p} i h = ground (
  arith,
  length-set p.sub_params p.sub_params_length (clamp v),
  length-set p.sub_params_idx (p.len - 1) ((get_or p.sub_params_idx (p.len - 1) 0 + 1) % 2 ^ 32),
)

pub add_digit-IsValid : (v : ℤ) {p q : Params} → IsValid p → add_digit v p ≡ some q → IsValid q
unfolding add_digit
add_digit-IsValid v {p} i h = ground (
  arith,
  length-set p.params (p.len - 1) (next_value (get_or p.params (p.len - 1) (pos 0)) v),
  length-set p.sub_params (p.sub_params_length - 1)
      (next_value (get_or p.sub_params (p.sub_params_length - 1) (pos 0)) v),
)

add_param_total :
    (v : ℤ) (p : Params) → IsValid p → below_minus_one v ≡ false → add_param v p ≢ none
unfolding add_param
add_param_total v p i h = ground arith

add_sub_param_total :
    (v : ℤ) (p : Params) → IsValid p → below_minus_one v ≡ false → add_sub_param v p ≢ none
unfolding add_sub_param
add_sub_param_total v p i h = ground arith

pub add_digit_total : (v : ℤ) (p : Params) → IsValid p → add_digit v p ≢ none
unfolding add_digit
add_digit_total v p i = ground arith

-- The calls that change the parameters.
pub data Call : Type 0 where
  clear : Call
  param : ℤ → Call
  sub : ℤ → Call
  digit : ℤ → Call

unfoldable pub call : Call → Params → Option Params
call clear p = some (reset p)
call (param v) p = add_param v p
call (sub v) p = add_sub_param v p
call (digit v) p = add_digit v p

unfoldable pub run_calls : List Call → Params → Option Params
run_calls [] p = some p
run_calls (c ∷ cs) p = elim (call c p) [ none ↦ none | some q ↦ run_calls cs q ]

-- No value is below -1.
abbrev pub Allowed : Call → Type 0
Allowed (param v) = below_minus_one v ≡ false
Allowed (sub v) = below_minus_one v ≡ false
Allowed _ = Unit

call-IsValid :
    (c : Call) {p : Params} → Allowed c → IsValid p → (q : Params) × (call c p ≡ some q) × IsValid q
unfolding call
call-IsValid clear {p} a i = (reset p, refl, unfold reset in omega arith)
call-IsValid (digit v) {p} a i = elim (Option-cases (add_digit v p)) [
  | inl e ↦ absurd (add_digit_total v p i e)
  | inr (q, e) ↦ (q, e, add_digit-IsValid v i e)
]
call-IsValid (param v) {p} a i = elim (Option-cases (add_param v p)) [
  | inl e ↦ absurd (add_param_total v p i a e)
  | inr (q, e) ↦ (q, e, add_param-IsValid v i e)
]
call-IsValid (sub v) {p} a i = elim (Option-cases (add_sub_param v p)) [
  | inl e ↦ absurd (add_sub_param_total v p i a e)
  | inr (q, e) ↦ (q, e, add_sub_param-IsValid v i e)
]

pub default_params-IsValid : IsValid default_params
default_params-IsValid = blank-IsValid 32 32 (omega arith)

-- Whatever calls are made, with values of at least -1, none panics: not for the value, and not for an
-- index that is -1 or behind the end of its slice; and the lengths stay within the slices.
pub run_calls-IsValid :
    (cs : List Call) {p : Params}
    → All Allowed cs
    → IsValid p
    → (q : Params) × (run_calls cs p ≡ some q) × IsValid q
unfolding run_calls
run_calls-IsValid [] {p} a i = (p, refl, i)
run_calls-IsValid (c ∷ cs) {p} a i =
    let (q, e, j) = call-IsValid c a.0 i in
    let (r, f, k) = run_calls-IsValid cs a.1 j in (r, rw (e, run_calls) f, k)
