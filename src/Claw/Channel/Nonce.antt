-- ===== src/Claw/Channel/Nonce.antt =====
-- The 12-byte nonces of cmd/claw/securechannel.go: direction prefix, then sequence number.
use daemontest.Prelude.{
  ℕ, ◌<◌, ◌≡◌, refl, ap, ◌∙◌, sym, [], ◌∷◌, ◌++◌, length, take, drop, arith, take-append,
  drop-append,
}
use daemontest.Prelude.Bytes.{Bytes, u64_mod, put_uint64, put_uint64-injective}
use daemontest.Claw.Channel.{make_nonce}

make_nonce-append :
    (dir : Bytes) (seq : ℕ) → length dir ≡ 4 → make_nonce dir seq ≡ dir ++ put_uint64 seq
unfolding make_nonce
make_nonce-append (a ∷ b ∷ c ∷ d ∷ []) seq h = refl
make_nonce-append (a ∷ b ∷ c ∷ d ∷ e ∷ r) seq h = absurd (omega arith)
make_nonce-append (a ∷ b ∷ c ∷ []) seq h = absurd (omega arith)
make_nonce-append (a ∷ b ∷ []) seq h = absurd (omega arith)
make_nonce-append (a ∷ []) seq h = absurd (omega arith)
make_nonce-append [] seq h = absurd (omega arith)

-- Nonces with 4-byte directions are equal only if the directions and the 64-bit sequence numbers are.
pub make_nonce-injective :
    (dir dir' : Bytes) (seq seq' : ℕ)
    → length dir ≡ 4
    → length dir' ≡ 4
    → seq < u64_mod
    → seq' < u64_mod
    → make_nonce dir seq ≡ make_nonce dir' seq'
    → (dir ≡ dir') × (seq ≡ seq')
make_nonce-injective dir dir' seq seq' h h' lt lt' e = (
  sym (take-prefix dir seq h) ∙ ap (take 4) joined ∙ take-prefix dir' seq' h',
  put_uint64-injective seq seq' lt lt'
      (sym (drop-prefix dir seq h) ∙ ap (drop 4) joined ∙ drop-prefix dir' seq' h'),
)
  where
    joined : dir ++ put_uint64 seq ≡ dir' ++ put_uint64 seq'
    joined = sym (make_nonce-append dir seq h) ∙ e ∙ make_nonce-append dir' seq' h'

    take-prefix : (d : Bytes) (n : ℕ) → length d ≡ 4 → take 4 (d ++ put_uint64 n) ≡ d
    take-prefix d n k = ap (λ t. take t (d ++ put_uint64 n)) (sym k) ∙ take-append d (put_uint64 n)

    drop-prefix : (d : Bytes) (n : ℕ) → length d ≡ 4 → drop 4 (d ++ put_uint64 n) ≡ put_uint64 n
    drop-prefix d n k = ap (λ t. drop t (d ++ put_uint64 n)) (sym k) ∙ drop-append d (put_uint64 n)
