-- ===== src/Claw/Handshake/Envelope.antt =====
-- The envelope that cmd/claw/secure_handshake.go puts on messages and takes off.
use daemontest.Prelude.{
  ◌≡◌, refl, sym, ap, ◌∙◌, Bool, true, false, ◌||◌, not, Option, none, some, arith, if◌then◌else◌,
  inl, inr, subst, Option-cases,
}
use daemontest.Prelude.Bytes.{Bytes, bytes_eq}
use daemontest.Prelude.Result.{Result, ok, err}
use daemontest.Claw.Protocol.{
  Message, is_plaintext_exempt, type_enc_term, type_enc_file, type_enc_proxy,
}
use daemontest.Claw.Primitives.{Primitives}
use daemontest.Claw.Channel.{
  Error, SecureChannel, wrap_json, wrap_text, outer_type_for, is_encrypted_type,
}
use daemontest.Claw.Handshake.{Daemon, secure_active, wrap_outgoing_json, if_ok}

outer_type-IsEncrypted : (t : Bytes) → is_encrypted_type (outer_type_for t) ≡ true
unfolding outer_type_for is_encrypted_type bytes_eq
outer_type-IsEncrypted t = each _ _
  where
    each :
        (a b : Bool)
        → is_encrypted_type
            (if a then type_enc_file else if b then type_enc_proxy else type_enc_term)
          ≡ true
    each true b = refl
    each false true = refl
    each false false = refl

-- What a chain of tests lets through is what its last step gives.
let_through :
    (o : Option Bytes) (b : Bool) (f : Bytes → Message) (c : SecureChannel) (next : SecureChannel)
    (e1 e2 : Error) (m : Message) (Good : Message → Type 0)
    → ((k : Bytes) → Good (f k))
    → (elim o as (λ _. Result Error Message × SecureChannel) [
      | none ↦ (err e1, c)
      | some k ↦ if b then (err e2, c) else (ok (f k), next)
    ]).0
      ≡ ok m
    → Good m
let_through none b f c next e1 e2 m Good h e = absurd (ground arith)
let_through (some k) true f c next e1 e2 m Good h e = absurd (ground arith)
let_through (some k) false f c next e1 e2 m Good h e = subst Good (ok_back e) (h k)
  where
    ok_back : {x y : Message} → ◌≡◌ {A = Result Error Message} (ok x) (ok y) → x ≡ y
    ok_back h = cc

after_marshal :
    (o : Option Bytes) (next : Bytes → Result Error Message × SecureChannel) (c : SecureChannel)
    (e1 : Error) (m : Message) (Good : Type 0)
    → ((text : Bytes) → (next text).0 ≡ ok m → Good)
    → (elim o as (λ _. Result Error Message × SecureChannel) [
      | none ↦ (err e1, c)
      | some text ↦ next text
    ]).0
      ≡ ok m
    → Good
after_marshal none next c e1 m Good h e = absurd (ground arith)
after_marshal (some text) next c e1 m Good h e = h text e

if_ok-some : (r : Result Error Message) (m : Message) → if_ok r ≡ some m → r ≡ ok m
if_ok-some (ok x) m e = cc
if_ok-some (err x) m e = absurd (ground arith)

inactive :
    (o : Option SecureChannel)
    → o ≡ none
    → (elim o as (λ _. Bool) [ none ↦ false | some c ↦ c.active ]) ≡ true
    → ⊥
inactive none e a = ground arith
inactive (some c) e a = ground arith

-- An active channel, and a type that is not exempt: the branch that wraps is taken.
enveloped :
    {R : Type 0} (test : SecureChannel → Bool) (o : Option SecureChannel) (sc : SecureChannel)
    → o ≡ some sc
    → (elim o as (λ _. Bool) [ none ↦ false | some c ↦ test c ]) ≡ true
    → (exempt : Bool) → exempt ≡ false
    → (plain : Option Message × R) (wrap : SecureChannel → Option Message × R)
    → (elim o as (λ _. Option Message × R) [
      | none ↦ plain
      | some c ↦ if not (test c) || exempt then plain else wrap c
    ]).0
      ≡ (wrap sc).0
enveloped test none sc e a exempt x plain wrap = absurd (ground arith)
enveloped test (some c) sc e a exempt x plain wrap = rw (a, x) (ap (λ k. (wrap k).0) (some_back e))
  where
    some_back : {x y : SecureChannel} → some x ≡ some y → x ≡ y
    some_back h = cc

module _ (p : Primitives) where
  Encrypted : Message → Type 0
  Encrypted m = is_encrypted_type m.type ≡ true

  wrap_text-Encrypted :
      (sc : SecureChannel) (t text : Bytes) (m : Message)
      → (wrap_text p sc t text).0 ≡ ok m
      → Encrypted m
  unfolding wrap_text Encrypted
  wrap_text-Encrypted sc t text m e =
      let_through _ _ _ _ _ _ _ m Encrypted (λ k. outer_type-IsEncrypted t) e

  wrap_json-Encrypted :
      (sc : SecureChannel) (msg m : Message) → (wrap_json p sc msg).0 ≡ ok m → Encrypted m
  unfolding wrap_json
  wrap_json-Encrypted sc msg m e =
      after_marshal (p.marshal msg) (wrap_text p sc msg.type) sc _ m (Encrypted m)
        (λ text. wrap_text-Encrypted sc msg.type text m) e

  -- With the channel active, a message of a type that is not exempt is dropped or leaves under the type
  -- of an encrypted envelope.
  pub wrap_outgoing_json-encrypted :
      (msg : Message) (d : Daemon) (m : Message)
      → secure_active d ≡ true
      → is_plaintext_exempt msg.type ≡ false
      → (wrap_outgoing_json p msg d).0 ≡ some m
      → is_encrypted_type m.type ≡ true
  unfolding wrap_outgoing_json secure_active Encrypted
  wrap_outgoing_json-encrypted msg d m a x e = elim (Option-cases d.secure) [
    | inl n ↦ absurd (inactive d.secure n a)
    | inr (sc, s) ↦ wrap_json-Encrypted sc msg m (
        if_ok-some _ m (
          sym (
            enveloped (λ c. c.active) d.secure sc s a (is_plaintext_exempt msg.type) x (some msg, d)
              (λ c.
                (if_ok (wrap_json p c msg).0, record d { secure = some (wrap_json p c msg).1 })))
          ∙ e))
  ]
