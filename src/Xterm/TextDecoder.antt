-- ===== src/Xterm/TextDecoder.antt =====
-- internal/xterm/textdecoder.go: bytes in UTF-8, in chunks, to code points. The target is long enough.
-- Bits of a byte are quotients and remainders; `utf8.DecodeRune` is the standard library's.
pub mod RoundTrip
mod Chunks
mod Tests
use daemontest.Prelude.{
  ℕ, zero, suc, ◌+◌, ◌-◌, ◌*◌, ◌/◌, ◌%◌, Bool, true, false, not, ◌&&◌, ◌||◌, List, [], ◌∷◌, ◌++◌,
  ltb, leb, ◌==◌, if◌then◌else◌, length,
}
use daemontest.Prelude.Bytes.{Bytes}

-- The bytes of a sequence that has begun: the first `count` of the array.
pub record Utf8ToUtf32 : Type 0 where
  pub interim : Bytes

unfoldable pub cleared : Utf8ToUtf32
cleared = record { interim = [] }

unfoldable pub utf8_seq_len : ℕ → ℕ
utf8_seq_len b =
    if ltb b 128
    then 1
    else if b / 32 == 6
    then 2
    else if b / 16 == 14
    then 3
    else if b / 8 == 30
    then 4
    else 0

abbrev pub rune_error : ℕ
rune_error = 0xFFFD

abbrev pub is_between : ℕ → ℕ → ℕ → Bool
is_between lo hi b = leb lo b && leb b hi

-- A byte behind the second one.
abbrev pub is_tail : ℕ → Bool
is_tail b = is_between 128 191 b

-- The second byte has bounds of its own behind some first bytes.
abbrev pub is_second : ℕ → ℕ → Bool
is_second a b =
    if a == 0xE0
    then is_between 0xA0 0xBF b
    else if a == 0xED
    then is_between 0x80 0x9F b
    else if a == 0xF0
    then is_between 0x90 0xBF b
    else if a == 0xF4
    then is_between 0x80 0x8F b
    else is_tail b

abbrev pub invalid : ℕ × ℕ
invalid = (rune_error, 1)

-- Of one byte, of two, of three and of four at least.
abbrev pub decode_1 : ℕ → ℕ × ℕ
decode_1 a = if ltb a 128 then (a, 1) else invalid

abbrev pub decode_2 : ℕ → ℕ → ℕ × ℕ
decode_2 a b = if is_between 0xC2 0xDF a && is_tail b then (a % 32 * 64 + b % 64, 2) else decode_1 a

abbrev pub decode_3 : ℕ → ℕ → ℕ → ℕ × ℕ
decode_3 a b c =
    if is_between 0xE0 0xEF a && is_second a b && is_tail c
    then (a % 16 * 4096 + b % 64 * 64 + c % 64, 3)
    else decode_2 a b

abbrev pub decode_4 : ℕ → ℕ → ℕ → ℕ → ℕ × ℕ
decode_4 a b c d =
    if is_between 0xF0 0xF4 a && is_second a b && is_tail c && is_tail d
    then (a % 8 * 262144 + b % 64 * 4096 + c % 64 * 64 + d % 64, 4)
    else decode_3 a b c

-- The rune and its size.
unfoldable pub decode_rune : Bytes → ℕ × ℕ
decode_rune [] = (rune_error, 0)
decode_rune (a ∷ []) = decode_1 a
decode_rune (a ∷ b ∷ []) = decode_2 a b
decode_rune (a ∷ b ∷ c ∷ []) = decode_3 a b c
decode_rune (a ∷ b ∷ c ∷ d ∷ rest) = decode_4 a b c d

abbrev pub Decoded : Type 0
Decoded = List ℕ × Bytes

abbrev pub with_rune : ℕ → Decoded → Decoded
with_rune r (out, interim) = (r ∷ out, interim)

abbrev pub is_bom : ℕ → Bool
is_bom r = r == 0xFEFF

abbrev pub is_surrogate : ℕ → Bool
is_surrogate r = is_between 0xD800 0xDFFF r

-- What a rune of size `n` does: `next` follows one byte, `after` the rune.
abbrev pub step_rune : ℕ × ℕ → Decoded → Decoded → Decoded
step_rune (r, n) next after =
    if r == rune_error && leb n 1
    then next
    else if is_bom r
    then after
    else if is_surrogate r
    then after
    else with_rune r after

-- The main loop, which passes over `skip` bytes of the rune before.
unfoldable pub main_loop : ℕ → Bytes → Decoded
unfolding utf8_seq_len decode_rune
main_loop skip [] = ([], [])
main_loop (suc skip) (b ∷ bs) = main_loop skip bs
main_loop zero (b ∷ bs) =
    let next = main_loop 0 bs in
    let after = main_loop ((decode_rune (b ∷ bs)).1 - 1) bs in
    if ltb b 128
    then with_rune b next
    else if utf8_seq_len b == 0
    then next
    else if ltb (length (b ∷ bs)) (utf8_seq_len b)
    then ([], b ∷ bs)
    else step_rune (decode_rune (b ∷ bs)) next after

-- The bytes that are needed: there are too few, one of them is no continuation, or all are there.
pub data Collected : Type 0 where
  too_few : Bytes → Collected
  broken : Bytes → Collected
  complete : Bytes → Bytes → Collected

unfoldable pub collect_bytes : ℕ → Bytes → Bytes → Collected
collect_bytes zero buf input = complete buf input
collect_bytes (suc n) buf [] = too_few buf
collect_bytes (suc n) buf (b ∷ bs) =
    let rest = collect_bytes n (buf ++ b ∷ []) bs in if b / 64 == 2 then rest else broken (b ∷ bs)

abbrev pub started : Decoded → List ℕ × Utf8ToUtf32
started (out, interim) = (out, record { interim = interim })

-- The rune of a sequence that two chunks have.
abbrev pub joined : ℕ → Decoded → Decoded
joined r rest = if not (r == rune_error) && not (is_bom r) then with_rune r rest else rest

unfoldable pub finish : Collected → List ℕ × Utf8ToUtf32
unfolding main_loop decode_rune
finish (too_few buf) = ([], record { interim = buf })
finish (broken rest) = started (main_loop 0 rest)
finish (complete buf rest) = started (joined ((decode_rune buf).0) (main_loop 0 rest))

unfoldable pub decode_interim : Bytes → Bytes → List ℕ × Utf8ToUtf32
unfolding main_loop utf8_seq_len collect_bytes finish
decode_interim [] input = started (main_loop 0 input)
decode_interim (b ∷ bs) input =
    let needed = utf8_seq_len b - length (b ∷ bs) in
    if needed == 0
    then started (main_loop 0 input)
    else finish (collect_bytes needed (b ∷ bs) input)

unfoldable pub decode : Bytes → Utf8ToUtf32 → List ℕ × Utf8ToUtf32
unfolding decode_interim
decode input d = if length input == 0 then ([], d) else decode_interim d.interim input

-- The runes that `range` yields of a string; an invalid byte is the error rune.
unfoldable pub string_to_utf32 : ℕ → Bytes → List ℕ
unfolding decode_rune
string_to_utf32 skip [] = []
string_to_utf32 (suc skip) (b ∷ bs) = string_to_utf32 skip bs
string_to_utf32 zero (b ∷ bs) =
    let (r, n) = decode_rune (b ∷ bs) in
    let rest = string_to_utf32 (n - 1) bs in if is_bom r then rest else r ∷ rest
