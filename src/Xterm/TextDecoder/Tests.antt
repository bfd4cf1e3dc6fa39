-- ===== src/Xterm/TextDecoder/Tests.antt =====
-- internal/xterm/textdecoder.go: code points of each length, and what two chunks lose.
use Prim.{tt}
use daemontest.Prelude.{ℕ, ◌≡◌, refl, List, [], ◌∷◌, ◌++◌, take, drop, arith, ◌⊗◌}
use daemontest.Xterm.TextDecoder.{
  cleared, decode, decode_interim, main_loop, collect_bytes, finish, decode_rune, utf8_seq_len,
}
use daemontest.Xterm.TextDecoder.RoundTrip.{utf8, utf8_all, decode-utf8_all}
use daemontest.Xterm.TextDecoder.Chunks.{utf8_onto, decode-chunks}

abbrev some_text : List ℕ
some_text = 65 ∷ 0xE9 ∷ 0x20AC ∷ 0x1F600 ∷ []

decode-utf8_all_example : decode (utf8_all some_text) cleared ≡ (some_text, cleared)
decode-utf8_all_example = decode-utf8_all some_text (
    (omega arith, refl, refl)
    ⊗ (omega arith, refl, refl)
    ⊗ (omega arith, refl, refl)
    ⊗ (omega arith, refl, refl)
    ⊗ tt)

-- The second half of a code point comes with the next chunk.
decode_halves :
    (decode (0xE2 ∷ 0x82 ∷ []) cleared ≡ ([], record { interim = 0xE2 ∷ 0x82 ∷ [] }))
    × (decode (0xAC ∷ 65 ∷ []) (record { interim = 0xE2 ∷ 0x82 ∷ [] })
        ≡ (0x20AC ∷ 65 ∷ [], record { interim = [] }))
unfolding decode decode_interim main_loop collect_bytes finish decode_rune utf8_seq_len cleared
decode_halves = (refl, refl)

-- In one chunk the A behind a byte that begins nothing is kept; at the end of a chunk it is lost.
decode_one_chunk : decode (0xF0 ∷ 65 ∷ 66 ∷ 67 ∷ []) cleared ≡ (65 ∷ 66 ∷ 67 ∷ [], cleared)
unfolding decode decode_interim main_loop collect_bytes finish decode_rune utf8_seq_len cleared
decode_one_chunk = refl

decode_two_chunks :
    (decode (0xF0 ∷ 65 ∷ []) cleared ≡ ([], record { interim = 0xF0 ∷ 65 ∷ [] }))
    × (decode (66 ∷ 67 ∷ []) (record { interim = 0xF0 ∷ 65 ∷ [] })
        ≡ (66 ∷ 67 ∷ [], record { interim = [] }))
unfolding decode decode_interim main_loop collect_bytes finish decode_rune utf8_seq_len cleared
decode_two_chunks = (refl, refl)

-- An A, the first two bytes of the euro sign, its last byte, and a B.
decode-chunks_example :
    (decode (utf8_onto (65 ∷ []) (take 2 (utf8 0x20AC))) cleared
      ≡ (65 ∷ [], record { interim = take 2 (utf8 0x20AC) }))
    × (decode
          (drop 2 (utf8 0x20AC) ++ utf8_onto (66 ∷ []) [])
          (record { interim = take 2 (utf8 0x20AC) })
        ≡ (0x20AC ∷ 66 ∷ [], cleared))
decode-chunks_example =
    decode-chunks (65 ∷ []) (66 ∷ []) 0x20AC 2 ((omega arith, refl, refl) ⊗ tt)
      ((omega arith, refl, refl) ⊗ tt) (omega arith, refl, refl) refl (omega arith) (omega arith)
