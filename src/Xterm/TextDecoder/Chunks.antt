-- ===== src/Xterm/TextDecoder/Chunks.antt =====
-- internal/xterm/textdecoder.go: a code point whose bytes come in two chunks.
use daemontest.Prelude.{
  ℕ, zero, suc, ◌+◌, ◌-◌, ◌/◌, ◌%◌, ◌<◌, ◌≤◌, ◌≡◌, refl, true, false, List, [], ◌∷◌, ◌++◌, ltb,
  ◌==◌, length, take, drop, arith, inl, inr, Bool-cases, All, length-append,
}
use daemontest.Prelude.Bounded.{length-drop}
use daemontest.Prelude.Bytes.{Bytes}
use daemontest.Xterm.TextDecoder.{
  cleared, utf8_seq_len, rune_error, decode_rune, with_rune, is_bom, is_surrogate, main_loop,
  complete, collect_bytes, started, finish, decode_interim, decode,
}
use daemontest.Xterm.TextDecoder.RoundTrip.{
  utf8, utf8_2, utf8_3, utf8_4, IsKept, main_loop-cons, main_loop-utf8, decode_rune-utf8_2,
  decode_rune-utf8_3, decode_rune-utf8_4,
}

-- The code points, and then other bytes.
abbrev pub utf8_onto : List ℕ → Bytes → Bytes
utf8_onto [] rest = rest
utf8_onto (c ∷ cs) rest = utf8 c ++ utf8_onto cs rest

main_loop-onto :
    (cs : List ℕ) (rest interim : Bytes)
    → All IsKept cs
    → main_loop 0 rest ≡ ([], interim)
    → main_loop 0 (utf8_onto cs rest) ≡ (cs, interim)
main_loop-onto [] rest interim a e = e
main_loop-onto (c ∷ cs) rest interim a e =
    rw (main_loop-utf8 c (utf8_onto cs rest) (a.0), main_loop-onto cs rest interim (a.1) e) refl

-- A sequence that is cut.
main_loop-short :
    (b n : ℕ) (bs : Bytes)
    → 128 ≤ b
    → utf8_seq_len b ≡ n
    → (n == 0) ≡ false
    → ltb (length (b ∷ bs)) n ≡ true
    → main_loop 0 (b ∷ bs) ≡ ([], b ∷ bs)
main_loop-short b n bs h e z l =
    let a : ltb b 128 ≡ false = ground (arith, h) in rw (main_loop-cons b bs, a, e, z, l) refl

finish-complete :
    (c n : ℕ) (buf rest : Bytes)
    → decode_rune buf ≡ (c, n)
    → (c == rune_error) ≡ false
    → is_bom c ≡ false
    → finish (complete buf rest) ≡ started (with_rune c (main_loop 0 rest))
unfolding finish
finish-complete c n buf rest d f m = rw (d, f, m) refl

decode_interim-cons :
    (b n : ℕ) (bs input : Bytes)
    → utf8_seq_len b ≡ n
    → (n - length (b ∷ bs) == 0) ≡ false
    → decode_interim (b ∷ bs) input ≡ finish (collect_bytes (n - length (b ∷ bs)) (b ∷ bs) input)
unfolding decode_interim
decode_interim-cons b n bs input e z = rw (decode_interim, e, z) refl

tail-64 : (n : ℕ) → ((128 + n % 64) / 64 == 2) ≡ true
tail-64 n = ground arith

-- The two parts of a sequence.
abbrev Parts : ℕ → Bytes → Bytes → Type 0
Parts c p q =
    (main_loop 0 p ≡ ([], p))
    × ((rest : Bytes) → decode_interim p (q ++ rest) ≡ started (with_rune c (main_loop 0 rest)))

seq_len_2 : (c : ℕ) → 128 ≤ c → c < 2048 → utf8_seq_len (192 + c / 64) ≡ 2
unfolding utf8_seq_len
seq_len_2 c l h = ground (arith, l, h)

seq_len_3 : (c : ℕ) → 2048 ≤ c → c < 65536 → utf8_seq_len (224 + c / 4096) ≡ 3
unfolding utf8_seq_len
seq_len_3 c l h = ground (arith, l, h)

seq_len_4 : (c : ℕ) → 65536 ≤ c → c < 0x110000 → utf8_seq_len (240 + c / 262144) ≡ 4
unfolding utf8_seq_len
seq_len_4 c l h = ground (arith, l, h)

cut_2 :
    (c k : ℕ)
    → 128 ≤ c
    → c < 2048
    → (c == rune_error) ≡ false
    → is_bom c ≡ false
    → 0 < k
    → k < 2
    → Parts c (take k (utf8_2 c)) (drop k (utf8_2 c))
unfolding collect_bytes
cut_2 c zero l h f m k0 k2 = absurd (omega (arith, k0))
cut_2 c (suc zero) l h f m k0 k2 =
    let b = 192 + c / 64 in
    let e = seq_len_2 c l h in
    (
      main_loop-short b 2 [] (omega arith) e refl refl,
      λ rest.
          rw (decode_interim-cons b 2 [] ((128 + c % 64) ∷ rest) e refl, tail-64 c)
            (finish-complete c 2 (utf8_2 c) rest (decode_rune-utf8_2 c [] l h) f m),
    )
cut_2 c (suc (suc k)) l h f m k0 k2 = absurd (omega (arith, k2))

cut_3 :
    (c k : ℕ)
    → 2048 ≤ c
    → c < 65536
    → is_surrogate c ≡ false
    → (c == rune_error) ≡ false
    → is_bom c ≡ false
    → 0 < k
    → k < 3
    → Parts c (take k (utf8_3 c)) (drop k (utf8_3 c))
unfolding collect_bytes
cut_3 c zero l h s f m k0 k3 = absurd (omega (arith, k0))
cut_3 c (suc zero) l h s f m k0 k3 =
    let b = 224 + c / 4096 in
    let e = seq_len_3 c l h in
    (
      main_loop-short b 3 [] (omega arith) e refl refl,
      λ rest.
          rw
            (
              decode_interim-cons b 3 [] ((128 + c / 64 % 64) ∷ (128 + c % 64) ∷ rest) e refl,
              tail-64 (c / 64),
              tail-64 c,
            )
            (finish-complete c 3 (utf8_3 c) rest (decode_rune-utf8_3 c [] l h s) f m),
    )
cut_3 c (suc (suc zero)) l h s f m k0 k3 =
    let b = 224 + c / 4096 in
    let e = seq_len_3 c l h in
    let bs = (128 + c / 64 % 64) ∷ [] in
    (
      main_loop-short b 3 bs (omega arith) e refl refl,
      λ rest.
          rw (decode_interim-cons b 3 bs ((128 + c % 64) ∷ rest) e refl, tail-64 c)
            (finish-complete c 3 (utf8_3 c) rest (decode_rune-utf8_3 c [] l h s) f m),
    )
cut_3 c (suc (suc (suc k))) l h s f m k0 k3 = absurd (omega (arith, k3))

cut_4 :
    (c k : ℕ)
    → 65536 ≤ c
    → c < 0x110000
    → is_bom c ≡ false
    → 0 < k
    → k < 4
    → Parts c (take k (utf8_4 c)) (drop k (utf8_4 c))
unfolding collect_bytes
cut_4 c zero l h m k0 k4 = absurd (omega (arith, k0))
cut_4 c (suc zero) l h m k0 k4 =
    let b = 240 + c / 262144 in
    let e = seq_len_4 c l h in
    let f : (c == rune_error) ≡ false = ground (arith, l) in
    (
      main_loop-short b 4 [] (omega arith) e refl refl,
      λ rest.
          rw
            (
              decode_interim-cons b 4 []
                  ((128 + c / 4096 % 64) ∷ (128 + c / 64 % 64) ∷ (128 + c % 64) ∷ rest) e refl,
              tail-64 (c / 4096),
              tail-64 (c / 64),
              tail-64 c,
            )
            (finish-complete c 4 (utf8_4 c) rest (decode_rune-utf8_4 c [] l h) f m),
    )
cut_4 c (suc (suc zero)) l h m k0 k4 =
    let b = 240 + c / 262144 in
    let e = seq_len_4 c l h in
    let f : (c == rune_error) ≡ false = ground (arith, l) in
    let bs = (128 + c / 4096 % 64) ∷ [] in
    (
      main_loop-short b 4 bs (omega arith) e refl refl,
      λ rest.
          rw
            (
              decode_interim-cons b 4 bs ((128 + c / 64 % 64) ∷ (128 + c % 64) ∷ rest) e refl,
              tail-64 (c / 64),
              tail-64 c,
            )
            (finish-complete c 4 (utf8_4 c) rest (decode_rune-utf8_4 c [] l h) f m),
    )
cut_4 c (suc (suc (suc zero))) l h m k0 k4 =
    let b = 240 + c / 262144 in
    let e = seq_len_4 c l h in
    let f : (c == rune_error) ≡ false = ground (arith, l) in
    let bs = (128 + c / 4096 % 64) ∷ (128 + c / 64 % 64) ∷ [] in
    (
      main_loop-short b 4 bs (omega arith) e refl refl,
      λ rest.
          rw (decode_interim-cons b 4 bs ((128 + c % 64) ∷ rest) e refl, tail-64 c)
            (finish-complete c 4 (utf8_4 c) rest (decode_rune-utf8_4 c [] l h) f m),
    )
cut_4 c (suc (suc (suc (suc k)))) l h m k0 k4 = absurd (omega (arith, k4))

cut-Parts :
    (c k : ℕ)
    → IsKept c
    → (c == rune_error) ≡ false
    → 0 < k
    → k < length (utf8 c)
    → Parts c (take k (utf8 c)) (drop k (utf8 c))
cut-Parts c k (h, s, m) f k0 kn = elim (Bool-cases (ltb c 128)) [
  | inl t ↦ absurd (omega (arith, k0, rw t at kn))
  | inr f1 ↦
      let l1 : 128 ≤ c = ground (arith, f1) in
      elim (Bool-cases (ltb c 2048)) [
        | inl t ↦ rw (f1, t) (cut_2 c k l1 (ground (arith, t)) f m k0 (rw (f1, t) at kn))
        | inr f2 ↦
            let l2 : 2048 ≤ c = ground (arith, f2) in
            elim (Bool-cases (ltb c 65536)) [
              | inl t ↦
                  rw (f1, f2, t) (cut_3 c k l2 (ground (arith, t)) s f m k0 (rw (f1, f2, t) at kn))
              | inr f3 ↦
                  rw (f1, f2, f3) (cut_4 c k (ground (arith, f3)) h m k0 (rw (f1, f2, f3) at kn))
            ]
      ]
]

main_loop_nothing : main_loop 0 [] ≡ ([], [])
unfolding main_loop
main_loop_nothing = refl

decode-cleared : (input : Bytes) → decode input cleared ≡ started (main_loop 0 input)
unfolding decode decode_interim cleared main_loop
decode-cleared [] = refl
decode-cleared (b ∷ bs) = let e : (length (b ∷ bs) == 0) ≡ false = ground arith in rw e refl

decode-some :
    (input p : Bytes)
    → 0 < length input
    → decode input (record { interim = p }) ≡ decode_interim p input
unfolding decode
decode-some input p h = let e : (length input == 0) ≡ false = ground (arith, h) in rw e refl

-- Two chunks that cut the bytes of a code point: the first one yields what stands before it, the second one
-- the code point and what stands behind it. All of them are below 0x110000 and none is a surrogate or the
-- byte order mark; the one that is cut is not U+FFFD.
pub decode-chunks :
    (cs ds : List ℕ) (c k : ℕ)
    → All IsKept cs
    → All IsKept ds
    → IsKept c
    → (c == rune_error) ≡ false
    → 0 < k
    → k < length (utf8 c)
    → (decode (utf8_onto cs (take k (utf8 c))) cleared ≡ (cs, record { interim = take k (utf8 c) }))
      × (decode (drop k (utf8 c) ++ utf8_onto ds []) (record { interim = take k (utf8 c) })
          ≡ (c ∷ ds, cleared))
unfolding cleared
decode-chunks cs ds c k a d i f k0 kn =
    let (p, q) = cut-Parts c k i f k0 kn in
    let some_left : 0 < length (drop k (utf8 c) ++ utf8_onto ds []) =
      omega
        (arith, length-append (drop k (utf8 c)) (utf8_onto ds []), length-drop k (utf8 c), kn) in
    (
      rw (decode-cleared (utf8_onto cs (take k (utf8 c))))
          (rw (main_loop-onto cs (take k (utf8 c)) (take k (utf8 c)) a p) refl),
      rw
          (
            decode-some (drop k (utf8 c) ++ utf8_onto ds []) (take k (utf8 c)) some_left,
            q (utf8_onto ds []),
          )
          (rw (main_loop-onto ds [] [] d main_loop_nothing) refl),
    )
