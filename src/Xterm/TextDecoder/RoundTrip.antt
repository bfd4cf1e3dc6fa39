-- ===== src/Xterm/TextDecoder/RoundTrip.antt =====
-- internal/xterm/textdecoder.go: code points that are encoded and decoded again.
use daemontest.Prelude.{
  ℕ, ◌+◌, ◌-◌, ◌*◌, ◌/◌, ◌%◌, ◌<◌, ◌≤◌, ◌≡◌, refl, true, false, List, [], ◌∷◌, ◌++◌, ltb, leb, ◌==◌,
  if◌then◌else◌, length, arith, inl, inr, Bool-cases, All,
}
use daemontest.Prelude.Bytes.{Bytes}
use daemontest.Xterm.TextDecoder.{
  cleared, utf8_seq_len, rune_error, is_between, is_tail, is_second, decode_2, decode_3,
  decode_rune, with_rune, is_bom, is_surrogate, step_rune, main_loop, decode_interim, decode,
}

-- The bytes of a code point.
abbrev pub utf8_2 : ℕ → Bytes
utf8_2 c = (192 + c / 64) ∷ (128 + c % 64) ∷ []

abbrev pub utf8_3 : ℕ → Bytes
utf8_3 c = (224 + c / 4096) ∷ (128 + c / 64 % 64) ∷ (128 + c % 64) ∷ []

abbrev pub utf8_4 : ℕ → Bytes
utf8_4 c = (240 + c / 262144) ∷ (128 + c / 4096 % 64) ∷ (128 + c / 64 % 64) ∷ (128 + c % 64) ∷ []

abbrev pub utf8 : ℕ → Bytes
utf8 c =
    if ltb c 128
    then c ∷ []
    else if ltb c 2048
    then utf8_2 c
    else if ltb c 65536
    then utf8_3 c
    else utf8_4 c

abbrev pub utf8_all : List ℕ → Bytes
utf8_all [] = []
utf8_all (c ∷ cs) = utf8 c ++ utf8_all cs

-- A code point that is kept: no surrogate, and not the byte order mark.
abbrev pub IsKept : ℕ → Type 0
IsKept c = (c < 0x110000) × (is_surrogate c ≡ false) × (is_bom c ≡ false)

tail-in : (n : ℕ) → is_tail (128 + n % 64) ≡ true
tail-in n = ground arith

second-2 : (c : ℕ) → 128 ≤ c → c < 2048 → is_between 0xC2 0xDF (192 + c / 64) ≡ true
second-2 c l h = ground (arith, l, h)

not_3 : (c : ℕ) → c < 2048 → is_between 0xE0 0xEF (192 + c / 64) ≡ false
not_3 c h = ground (arith, h)

not_4 : (c : ℕ) → c < 2048 → is_between 0xF0 0xF4 (192 + c / 64) ≡ false
not_4 c h = ground (arith, h)

value_2 : (c : ℕ) → c < 2048 → (192 + c / 64) % 32 * 64 + (128 + c % 64) % 64 ≡ c
value_2 c h = omega (arith, h)

decode_2-utf8 : (c : ℕ) → 128 ≤ c → c < 2048 → decode_2 (192 + c / 64) (128 + c % 64) ≡ (c, 2)
decode_2-utf8 c l h = rw (second-2 c l h, tail-in c) (rw (value_2 c h) refl)

pub decode_rune-utf8_2 :
    (c : ℕ) (rest : Bytes) → 128 ≤ c → c < 2048 → decode_rune (utf8_2 c ++ rest) ≡ (c, 2)
unfolding decode_rune
decode_rune-utf8_2 c [] l h = decode_2-utf8 c l h
decode_rune-utf8_2 c (x ∷ []) l h = rw (not_3 c h) (decode_2-utf8 c l h)
decode_rune-utf8_2 c (x ∷ y ∷ ys) l h = rw (not_4 c h, not_3 c h) (decode_2-utf8 c l h)

first_3 : (c : ℕ) → 2048 ≤ c → c < 65536 → is_between 0xE0 0xEF (224 + c / 4096) ≡ true
first_3 c l h = ground (arith, l, h)

second_3 :
    (c : ℕ)
    → 2048 ≤ c
    → c < 65536
    → is_surrogate c ≡ false
    → is_second (224 + c / 4096) (128 + c / 64 % 64) ≡ true
second_3 c l h s = ground (arith, l, h, s)

value_3 :
    (c : ℕ)
    → c < 65536
    → (224 + c / 4096) % 16 * 4096 + (128 + c / 64 % 64) % 64 * 64 + (128 + c % 64) % 64 ≡ c
value_3 c h = omega (arith, h)

not_4-3 : (c : ℕ) → c < 65536 → is_between 0xF0 0xF4 (224 + c / 4096) ≡ false
not_4-3 c h = ground (arith, h)

decode_3-utf8 :
    (c : ℕ)
    → 2048 ≤ c
    → c < 65536
    → is_surrogate c ≡ false
    → decode_3 (224 + c / 4096) (128 + c / 64 % 64) (128 + c % 64) ≡ (c, 3)
decode_3-utf8 c l h s = rw (first_3 c l h, second_3 c l h s, tail-in c) (rw (value_3 c h) refl)

pub decode_rune-utf8_3 :
    (c : ℕ) (rest : Bytes)
    → 2048 ≤ c
    → c < 65536
    → is_surrogate c ≡ false
    → decode_rune (utf8_3 c ++ rest) ≡ (c, 3)
unfolding decode_rune
decode_rune-utf8_3 c [] l h s = decode_3-utf8 c l h s
decode_rune-utf8_3 c (x ∷ xs) l h s = rw (not_4-3 c h) (decode_3-utf8 c l h s)

first_4 : (c : ℕ) → 65536 ≤ c → c < 0x110000 → is_between 0xF0 0xF4 (240 + c / 262144) ≡ true
first_4 c l h = ground (arith, l, h)

second_4 :
    (c : ℕ) → 65536 ≤ c → c < 0x110000 → is_second (240 + c / 262144) (128 + c / 4096 % 64) ≡ true
second_4 c l h = ground (arith, l, h)

value_4 :
    (c : ℕ)
    → c < 0x110000
    → (240 + c / 262144) % 8 * 262144
        + (128 + c / 4096 % 64) % 64 * 4096
        + (128 + c / 64 % 64) % 64 * 64
        + (128 + c % 64) % 64
      ≡ c
value_4 c h = omega (arith, h)

pub decode_rune-utf8_4 :
    (c : ℕ) (rest : Bytes) → 65536 ≤ c → c < 0x110000 → decode_rune (utf8_4 c ++ rest) ≡ (c, 4)
unfolding decode_rune
decode_rune-utf8_4 c rest l h =
    rw (first_4 c l h, second_4 c l h, tail-in (c / 64), tail-in c) (rw (value_4 c h) refl)

-- A rune that is kept goes to the output.
step_rune-kept :
    (c n : ℕ) (next after : List ℕ × Bytes)
    → 1 < n
    → is_surrogate c ≡ false
    → is_bom c ≡ false
    → step_rune (c, n) next after ≡ with_rune c after
step_rune-kept c n next after h s b =
    let e : leb n 1 ≡ false = ground (arith, h) in
    elim (Bool-cases (c == rune_error)) [ inl t ↦ rw (t, e, b, s) refl | inr f ↦ rw (f, b, s) refl ]

pub main_loop-cons :
    (b : ℕ) (bs : Bytes)
    → main_loop 0 (b ∷ bs) ≡ (
        if ltb b 128
        then with_rune b (main_loop 0 bs)
        else if utf8_seq_len b == 0
        then main_loop 0 bs
        else if ltb (length (b ∷ bs)) (utf8_seq_len b)
        then ([], b ∷ bs)
        else step_rune
            (decode_rune (b ∷ bs))
            (main_loop 0 bs)
            (main_loop ((decode_rune (b ∷ bs)).1 - 1) bs))
unfolding main_loop
main_loop-cons b bs = refl

enough : (n b : ℕ) (bs : Bytes) → n ≤ length bs + 1 → ltb (length (b ∷ bs)) n ≡ false
enough n b bs h = ground (arith, h)

-- The loop at the first byte of a rune of size `n`.
main_loop-rune :
    (c n b : ℕ) (bs : Bytes)
    → 128 ≤ b
    → utf8_seq_len b ≡ n
    → 1 < n
    → n ≤ length bs + 1
    → decode_rune (b ∷ bs) ≡ (c, n)
    → is_surrogate c ≡ false
    → is_bom c ≡ false
    → main_loop 0 (b ∷ bs) ≡ with_rune c (main_loop (n - 1) bs)
main_loop-rune c n b bs hb e hn hl d s m =
    let a : ltb b 128 ≡ false = ground (arith, hb) in
    let z : (n == 0) ≡ false = ground (arith, hn) in
    let k : ltb (length (b ∷ bs)) n ≡ false = enough n b bs hl in
    rw (main_loop-cons b bs, a, e, z, k, d)
      (step_rune-kept c n (main_loop 0 bs) (main_loop (n - 1) bs) hn s m)

pub main_loop-utf8 :
    (c : ℕ) (rest : Bytes)
    → IsKept c
    → main_loop 0 (utf8 c ++ rest) ≡ with_rune c (main_loop 0 rest)
unfolding main_loop utf8_seq_len
main_loop-utf8 c rest (h, s, m) = elim (Bool-cases (ltb c 128)) [
  | inl t ↦ rw (t, main_loop, t) refl
  | inr f1 ↦ elim (Bool-cases (ltb c 2048)) [
    | inl t ↦
        rw (f1, t)
          (main_loop-rune c 2 (192 + c / 64) ((128 + c % 64) ∷ rest) (omega arith)
            (ground (arith, t)) (omega arith) (omega arith)
            (decode_rune-utf8_2 c rest (ground (arith, f1)) (ground (arith, t))) s m)
    | inr f2 ↦ elim (Bool-cases (ltb c 65536)) [
      | inl t ↦
          rw (f1, f2, t)
            (main_loop-rune c 3 (224 + c / 4096) ((128 + c / 64 % 64) ∷ (128 + c % 64) ∷ rest)
              (omega arith) (ground (arith, t)) (omega arith) (omega arith)
              (decode_rune-utf8_3 c rest (ground (arith, f2)) (ground (arith, t)) s) s m)
      | inr f3 ↦
          rw (f1, f2, f3)
            (main_loop-rune c 4 (240 + c / 262144)
              ((128 + c / 4096 % 64) ∷ (128 + c / 64 % 64) ∷ (128 + c % 64) ∷ rest) (omega arith)
              (ground (arith, h)) (omega arith) (omega arith)
              (decode_rune-utf8_4 c rest (ground (arith, f3)) h) s m)
    ]
  ]
]

main_loop-utf8_all : (cs : List ℕ) → All IsKept cs → main_loop 0 (utf8_all cs) ≡ (cs, [])
unfolding main_loop
main_loop-utf8_all [] a = refl
main_loop-utf8_all (c ∷ cs) a =
    rw (main_loop-utf8 c (utf8_all cs) (a.0), main_loop-utf8_all cs (a.1)) refl

-- Code points below 0x110000, none of them a surrogate or the byte order mark, encoded in UTF-8 and given to a
-- decoder that has no sequence begun: it yields them all, and has no sequence begun.
pub decode-utf8_all : (cs : List ℕ) → All IsKept cs → decode (utf8_all cs) cleared ≡ (cs, cleared)
unfolding decode decode_interim cleared
decode-utf8_all [] a = refl
decode-utf8_all (c ∷ cs) a = elim (Bool-cases (length (utf8_all (c ∷ cs)) == 0)) [
  | inl t ↦ absurd (ground (arith, t))
  | inr e ↦ rw e (rw (main_loop-utf8_all (c ∷ cs) a) refl)
]
