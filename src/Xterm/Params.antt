-- ===== src/Xterm/Params.antt =====
-- internal/xterm/parser_params.go: the parameters of a control sequence. Values are int32.
pub mod Inv
pub mod Digits
pub mod Ranges
mod Tests
use Prim.Native.Nat.{bit_or}
use daemontest.Prelude.{
  ℕ, zero, suc, ◌+◌, ◌-◌, ◌*◌, ◌/◌, ◌%◌, ◌^◌, Bool, true, false, ◌&&◌, ◌||◌, not, List, [], ◌∷◌,
  Option, none, some, ltb, leb, ◌==◌, if◌then◌else◌, get_or, set, take, drop, replicate, length,
}
use daemontest.Prelude.Int.{ℤ, pos, negsuc, ltb_ℤ, ◌+ℤ◌, ◌*ℤ◌, wrap32}

abbrev pub max_param_value : ℤ
max_param_value = pos 0x7FFF_FFFF

abbrev pub max_sub_params : ℕ
max_sub_params = 256

pub record Params : Type 0 where
  pub params : List ℤ
  pub len : ℕ
  pub max_length : ℕ
  pub sub_params : List ℤ
  pub sub_params_length : ℕ
  pub max_sub_params_len : ℕ
  pub sub_params_idx : List ℕ
  pub reject_digits : Bool
  pub reject_sub_digits : Bool
  pub digit_is_sub : Bool

abbrev pub blank : ℕ → ℕ → Params
blank max_length max_sub = record {
  params = replicate max_length (pos 0);
  len = 0;
  max_length = max_length;
  sub_params = replicate max_sub (pos 0);
  sub_params_length = 0;
  max_sub_params_len = max_sub;
  sub_params_idx = replicate max_length 0;
  reject_digits = false;
  reject_sub_digits = false;
  digit_is_sub = false;
}

-- `none` is the panic.
unfoldable pub new_params : ℕ → ℕ → Option Params
new_params max_length max_sub =
    if ltb max_sub_params max_sub then none else some (blank max_length max_sub)

-- `DefaultParams`: `NewParams(32, 32)`
abbrev pub default_params : Params
default_params = blank 32 32

unfoldable pub reset : Params → Params
reset p = record p {
  len = 0;
  sub_params_length = 0;
  reject_digits = false;
  reject_sub_digits = false;
  digit_is_sub = false;
}

-- `if value > maxParamValue { value = maxParamValue }`
abbrev pub clamp : ℤ → ℤ
clamp v = if ltb_ℤ max_param_value v then max_param_value else v

abbrev pub below_minus_one : ℤ → Bool
below_minus_one v = ltb_ℤ v (negsuc 0)

-- `s[i]` is in range.
abbrev pub in_slice {ℓ} : {A : Type ℓ} → List A → ℕ → Bool
in_slice s i = ltb i (length s)

-- `s[n-1]` is in range: the index is not -1, and not behind the end.
abbrev pub last_in_slice {ℓ} : {A : Type ℓ} → List A → ℕ → Bool
last_in_slice s n = ltb 0 n && leb n (length s)

-- `none` is the panic, of a value below -1 or of an index out of range.
unfoldable pub add_param : ℤ → Params → Option Params
add_param v p =
    let q = record p { digit_is_sub = false } in
    if leb p.max_length p.len
    then some (record q { reject_digits = true })
    else if below_minus_one v
    then none
    else if not (in_slice p.sub_params_idx p.len && in_slice p.params p.len)
    then none
    else some (record q {
      sub_params_idx =
          set p.sub_params_idx p.len (bit_or (p.sub_params_length * 2 ^ 8) p.sub_params_length);
      params = set p.params p.len (clamp v);
      len = p.len + 1;
    })

unfoldable pub add_sub_param : ℤ → Params → Option Params
add_sub_param v p =
    let q = record p { digit_is_sub = true } in
    if p.len == 0
    then some q
    else if p.reject_digits || leb p.max_sub_params_len p.sub_params_length
    then some (record q { reject_sub_digits = true })
    else if below_minus_one v
    then none
    else if not (in_slice p.sub_params p.sub_params_length && last_in_slice p.sub_params_idx p.len)
    then none
    else some (record q {
      sub_params = set p.sub_params p.sub_params_length (clamp v);
      sub_params_length = p.sub_params_length + 1;
      sub_params_idx =
          set p.sub_params_idx (p.len - 1) ((get_or p.sub_params_idx (p.len - 1) 0 + 1) % 2 ^ 32);
    })

-- The new value of the parameter that the digit belongs to. `cur*10 + value` is an int32.
unfoldable pub next_value : ℤ → ℤ → ℤ
unfolding wrap32 ◌+ℤ◌ ◌*ℤ◌
next_value (negsuc zero) value = value
next_value cur value = clamp (wrap32 (cur *ℤ pos 10 +ℤ value))

abbrev pub bump_last : List ℤ → ℕ → ℤ → List ℤ
bump_last store n value = set store (n - 1) (next_value (get_or store (n - 1) (pos 0)) value)

-- `none` is the panic, of an index out of range.
unfoldable pub add_digit : ℤ → Params → Option Params
add_digit value p =
    if p.reject_digits
    then some p
    else if (if p.digit_is_sub then p.sub_params_length else p.len) == 0
    then some p
    else if p.digit_is_sub && p.reject_sub_digits
    then some p
    else if p.digit_is_sub
    then (if last_in_slice p.sub_params p.sub_params_length
        then some (record p { sub_params = bump_last p.sub_params p.sub_params_length value })
        else none)
    else if last_in_slice p.params p.len
    then some (record p { params = bump_last p.params p.len value })
    else none

-- The bounds that `subParamsIdx` keeps for a parameter.
abbrev pub sub_start : Params → ℕ → ℕ
sub_start p i = get_or p.sub_params_idx i 0 / 2 ^ 8

abbrev pub sub_end : Params → ℕ → ℕ
sub_end p i = get_or p.sub_params_idx i 0 % 2 ^ 8

-- The unsigned `end-start` of `HasSubParams` is above 0 just if the two differ.
unfoldable pub has_sub_params : Params → ℕ → Bool
has_sub_params p i = if sub_end p i == sub_start p i then false else true

-- The nil slice is empty.
unfoldable pub get_sub_params : Params → ℕ → List ℤ
get_sub_params p i =
    if ltb (sub_start p i) (sub_end p i)
    then take (sub_end p i - sub_start p i) (drop (sub_start p i) p.sub_params)
    else []

-- `Clone` copies every field into new slices of the same lengths.
unfoldable pub clone : Params → Params
clone p = p
