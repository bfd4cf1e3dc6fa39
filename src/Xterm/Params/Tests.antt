-- ===== src/Xterm/Params/Tests.antt =====
-- Runs of internal/xterm/parser_params.go.
use daemontest.Prelude.{ℕ, ◌-◌, ◌^◌, ◌≡◌, ◌≢◌, refl, List, [], ◌∷◌, some, arith, get_or, set}
use daemontest.Prelude.Int.{pos, negsuc}
use daemontest.Xterm.Params.{Params, default_params, add_param, add_digit}
use daemontest.Xterm.Params.Inv.{
  IsValid, Call, param, sub, digit, run_calls, run_calls-IsValid, default_params-IsValid,
}
use daemontest.Xterm.Params.Digits.{TakesDigits, add_digits, add_digits-decimal, add_digit_overflow}

-- `DefaultParams` after `AddParam(0)`
abbrev one_param : Params
one_param = record default_params { len = 1 }

one_param-IsValid : IsValid one_param
one_param-IsValid = record {
  params_len = refl;
  idx_len = refl;
  subs_len = refl;
  len_in = omega arith;
  subs_in = omega arith;
  subs_small = omega arith;
}

add_zero : add_param (pos 0) default_params ≡ some one_param
unfolding add_param
add_zero = refl

one_param-TakesDigits : TakesDigits one_param 0
one_param-TakesDigits = record {
  some_param = omega arith;
  current = refl;
  accepts = refl;
  on_param = refl;
}

add_digits-decimal_example :
    (q : Params) × (add_digits (4 ∷ 2 ∷ []) one_param ≡ some q)
    × (get_or q.params 0 (pos 0) ≡ pos 42)
    × (q.len ≡ 1)
    × ((j : ℕ) → j ≢ 0 → get_or q.params j (pos 0) ≡ get_or one_param.params j (pos 0))
add_digits-decimal_example =
    add_digits-decimal (4 ∷ 2 ∷ []) one_param 0 one_param-IsValid one_param-TakesDigits
      (omega arith)

-- `CSI 2147483648`: the tenth digit makes -2147483648
abbrev nine_digits : Params
nine_digits = record one_param { params = set one_param.params 0 (pos 214748364) }

add_digit_overflow_example :
    (q : Params) × (add_digit (pos 8) nine_digits ≡ some q)
    × (get_or q.params 0 (pos 0) ≡ negsuc (2 ^ 31 - 1))
add_digit_overflow_example =
    add_digit_overflow nine_digits 214748364 8
      (record {
        params_len = refl;
        idx_len = refl;
        subs_len = refl;
        len_in = omega arith;
        subs_in = omega arith;
        subs_small = omega arith;
      })
      (record { some_param = omega arith; current = refl; accepts = refl; on_param = refl })
      (omega arith) (omega arith)

-- `4:3;1`
abbrev calls : List Call
calls =
    param (pos 0)
    ∷ digit (pos 4)
    ∷ sub (negsuc 0)
    ∷ digit (pos 3)
    ∷ param (pos 0)
    ∷ digit (pos 1)
    ∷ []

run_calls-IsValid_example : (q : Params) × (run_calls calls default_params ≡ some q) × IsValid q
run_calls-IsValid_example =
    run_calls-IsValid calls (refl, (tt, (refl, (tt, (refl, (tt, tt)))))) default_params-IsValid
