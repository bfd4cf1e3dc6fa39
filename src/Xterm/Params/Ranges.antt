-- ===== src/Xterm/Params/Ranges.antt =====
-- The ranges of sub-parameters that internal/xterm/parser_params.go packs into a word.
use Prim.Native.Nat.{bit_or}
use daemontest.Prelude.{
  ℕ, suc, zero, ◌+◌, ◌-◌, ◌*◌, ◌%◌, ◌^◌, ◌≤◌, ◌<◌, ◌≡◌, true, List, [], ◌∷◌, some, arith, length,
  get_or, set, take, drop, ◌≢◌, inl, inr, Option-cases, get_or-set_self, get_or-set_ne,
  if◌then◌else◌, ◌==◌, Bool-cases, ==_iff,
}
use daemontest.Prelude.Bits.{or_fields}
use daemontest.Prelude.Int.{ℤ}
use daemontest.Xterm.Params.{
  Params, default_params, reset, add_param, add_sub_param, add_digit, has_sub_params,
  get_sub_params, sub_start, sub_end,
}
use daemontest.Xterm.Params.Inv.{
  IsValid, Call, clear, param, sub, digit, run_calls, call, add_param-IsValid,
  add_sub_param-IsValid, add_digit-IsValid, default_params-IsValid,
}

-- The range of each parameter runs upwards, inside the sub-parameters there are.
pub record IsRanged (p : Params) : Type 0 where
  pub valid : IsValid p
  pub narrow : p.max_sub_params_len < 256
  pub upwards : (i : ℕ) → i < p.len → sub_start p i ≤ sub_end p i
  pub inside : (i : ℕ) → i < p.len → sub_end p i ≤ p.sub_params_length

packed : (s : ℕ) → s < 256 → bit_or (s * 2 ^ 8) s ≡ s * 256 + s
packed s h = or_fields 8 s s (omega arith)

get_or-set :
    (idx : List ℕ) (n v i : ℕ)
    → n < length idx
    → get_or (set idx n v) i 0 ≡ (if i == n then v else get_or idx i 0)
get_or-set idx n v i h = elim (Bool-cases (i == n)) [
  | inl t ↦ rw (t, (==_iff i n).0 t) (get_or-set_self idx n v 0 h)
  | inr f ↦ rw f (get_or-set_ne idx n i v 0 (λ e. ground (arith, e)))
]

add_param-IsRanged : (v : ℤ) {p q : Params} → IsRanged p → add_param v p ≡ some q → IsRanged q
unfolding add_param
add_param-IsRanged v {p} {q} r e = record {
  valid = add_param-IsValid v r.valid e;
  narrow = ground (arith, r.narrow);
  upwards = λ i h. ground (
    arith,
    r.narrow,
    r.upwards i,
    r.valid.idx_len,
    packed p.sub_params_length,
    get_or-set p.sub_params_idx p.len (bit_or (p.sub_params_length * 2 ^ 8) p.sub_params_length) i,
  );
  inside = λ i h. ground (
    arith,
    r.narrow,
    r.inside i,
    r.valid.idx_len,
    packed p.sub_params_length,
    get_or-set p.sub_params_idx p.len (bit_or (p.sub_params_length * 2 ^ 8) p.sub_params_length) i,
  );
}

add_sub_param-IsRanged :
    (v : ℤ) {p q : Params} → IsRanged p → add_sub_param v p ≡ some q → IsRanged q
unfolding add_sub_param
add_sub_param-IsRanged v {p} {q} r e = record {
  valid = add_sub_param-IsValid v r.valid e;
  narrow = ground (arith, r.narrow);
  upwards = λ i h. ground (
    arith,
    r.narrow,
    r.upwards i,
    r.inside i,
    r.valid.idx_len,
    get_or-set p.sub_params_idx (p.len - 1) ((get_or p.sub_params_idx (p.len - 1) 0 + 1) % 2 ^ 32)
        i,
  );
  inside = λ i h. ground (
    arith,
    r.narrow,
    r.upwards i,
    r.inside i,
    r.valid.idx_len,
    get_or-set p.sub_params_idx (p.len - 1) ((get_or p.sub_params_idx (p.len - 1) 0 + 1) % 2 ^ 32)
        i,
  );
}

add_digit-IsRanged : (v : ℤ) {p q : Params} → IsRanged p → add_digit v p ≡ some q → IsRanged q
unfolding add_digit
add_digit-IsRanged v {p} {q} r e = record {
  valid = add_digit-IsValid v r.valid e;
  narrow = ground (arith, r.narrow);
  upwards = λ i h. ground (arith, r.upwards i);
  inside = λ i h. ground (arith, r.inside i);
}

reset-IsRanged : {p : Params} → IsRanged p → IsRanged (reset p)
unfolding reset
reset-IsRanged {p} r = record {
  valid = omega (arith, r.valid);
  narrow = r.narrow;
  upwards = λ i h. absurd (omega arith);
  inside = λ i h. absurd (omega arith);
}

call-IsRanged : (c : Call) {p q : Params} → IsRanged p → call c p ≡ some q → IsRanged q
unfolding call
call-IsRanged clear {p} {q} r e = ground (arith, reset-IsRanged r)
call-IsRanged (param v) r e = add_param-IsRanged v r e
call-IsRanged (sub v) r e = add_sub_param-IsRanged v r e
call-IsRanged (digit v) r e = add_digit-IsRanged v r e

run_calls-IsRanged :
    (cs : List Call) {p q : Params} → IsRanged p → run_calls cs p ≡ some q → IsRanged q
unfolding run_calls
run_calls-IsRanged [] {p} r e = ground (arith, r)
run_calls-IsRanged (c ∷ cs) {p} {q} r e = elim (Option-cases (call c p)) [
  | inl n ↦ absurd (ground (arith, n))
  | inr (t, f) ↦ run_calls-IsRanged cs (call-IsRanged c r f) (ground (arith, f))
]

default-IsRanged : IsRanged default_params
default-IsRanged = record {
  valid = default_params-IsValid;
  narrow = omega arith;
  upwards = λ i h. absurd (omega arith);
  inside = λ i h. absurd (omega arith);
}

taken : (n k : ℕ) (xs : List ℤ) → 0 < n → n + k ≤ length xs → take n (drop k xs) ≢ []
taken zero k xs h f e = absurd (omega arith)
taken (suc n) k [] h f e = absurd (omega arith)
taken (suc n) zero (x ∷ xs) h f e = ground (arith, e)
taken (suc n) (suc k) (x ∷ xs) h f e = taken (suc n) k xs h (omega arith) e

-- However the parameters of a sequence are read, one that has sub-parameters has a first one.
pub run_calls-first_sub :
    (cs : List Call) {p : Params}
    → run_calls cs default_params ≡ some p
    → (i : ℕ) → i < p.len
    → has_sub_params p i ≡ true
    → get_sub_params p i ≢ []
unfolding has_sub_params get_sub_params
run_calls-first_sub cs {p} e i h t =
    let r = run_calls-IsRanged cs default-IsRanged e in
    ground (
      arith,
      r.upwards i,
      r.inside i,
      r.valid.subs_len,
      r.valid.subs_in,
      taken (sub_end p i - sub_start p i) (sub_start p i) p.sub_params,
    )
