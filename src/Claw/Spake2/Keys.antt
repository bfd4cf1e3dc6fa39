-- ===== src/Claw/Spake2/Keys.antt =====
-- The keys that cmd/claw/spake2.go derives.
use daemontest.Prelude.{
  ℕ, zero, suc, ◌+◌, ◌-◌, ◌*◌, ◌≤◌, ◌<◌, ◌≡◌, refl, ap, ◌∙◌, [], ◌∷◌, ◌++◌, arith, length, take,
  drop, length-append,
}
use daemontest.Prelude.Bounded.{length-drop}
use daemontest.Prelude.Bytes.{Bytes, codes}
use daemontest.Prelude.Result.{ok}
use daemontest.Claw.Crypto.{Crypto, Lawful}
use daemontest.Claw.Spake2.{
  Spake2Keys, expand_rounds, hkdf_expand, hkdf_extract, keys_of, derive_spake2_keys,
}

-- The traffic keys are AES-256 keys.
pub record HasKeyLengths (k : Spake2Keys) : Type 0 where
  pub kc2s_32 : length k.kc2s ≡ 32
  pub ks2c_32 : length k.ks2c ≡ 32

pub length-take : (n : ℕ) (xs : Bytes) → n ≤ length xs → length (take n xs) ≡ n
length-take zero xs h = refl
length-take (suc n) [] h = absurd (omega arith)
length-take (suc n) (x ∷ xs) h = ap suc (length-take n xs (omega arith))

length_slice : (k : ℕ) (xs : Bytes) → k + 32 ≤ length xs → length (take 32 (drop k xs)) ≡ 32
length_slice k xs h = length-take 32 (drop k xs) (omega (arith, length-drop k xs))

module _ (c : Crypto) (l : Lawful c) where
  -- One round of `hkdfExpand` that is not the last one appends 32 bytes.
  expand_round :
      (fuel : ℕ) (prk info : Bytes) (n : ℕ) (t out : Bytes)
      → length out < n
      → 0 < fuel
      → let t' = c.hmac prk (t ++ info ++ (255 - fuel) ∷ []) in
        expand_rounds c (suc fuel) prk info n t out ≡ expand_rounds c fuel prk info n t' (out ++ t')
  unfolding expand_rounds
  expand_round fuel prk info n t out h hf = ground arith

  expand_done :
      (fuel : ℕ) (prk info : Bytes) (n : ℕ) (t out : Bytes)
      → length out ≡ n
      → expand_rounds c (suc fuel) prk info n t out ≡ ok (take n out)
  unfolding expand_rounds
  expand_done fuel prk info n t out h = ground arith

  expands :
      (r fuel : ℕ) (prk info : Bytes) (n : ℕ) (t out : Bytes)
      → length out + 32 * r ≡ n
      → r < fuel
      → (okm : Bytes) × (length okm ≡ n) × (expand_rounds c fuel prk info n t out ≡ ok okm)
  expands r zero prk info n t out e h = absurd (omega arith)
  expands zero (suc fuel) prk info n t out e h =
      (take n out, length-take n out (omega arith), expand_done fuel prk info n t out (omega arith))
  expands (suc r) (suc fuel) prk info n t out e h =
      let t' = c.hmac prk (t ++ info ++ (255 - fuel) ∷ []) in
      let rest =
        expands r fuel prk info n t' (out ++ t')
          (omega (arith, length-append out t', l.length-hmac prk (t ++ info ++ (255 - fuel) ∷ [])))
          (omega arith) in
      (rest.0, rest.1, expand_round fuel prk info n t out (omega arith) (omega arith) ∙ rest.2)

  pub derives :
      (k : Bytes) → (keys : Spake2Keys) × HasKeyLengths keys × (derive_spake2_keys c k ≡ ok keys)
  unfolding derive_spake2_keys hkdf_expand keys_of
  derives k =
      let prk = hkdf_extract c k (codes "caw.v1.keys") in
      let e = expands 4 255 prk (codes "caw-secure-channel") 128 [] [] refl (omega arith) in
      (
        keys_of c e.0,
        record {
          kc2s_32 = length_slice 64 e.0 (omega (arith, e.1));
          ks2c_32 = length_slice 96 e.0 (omega (arith, e.1));
        },
        rw (e.2, derive_spake2_keys) refl,
      )
