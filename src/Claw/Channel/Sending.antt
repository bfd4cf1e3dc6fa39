-- ===== src/Claw/Channel/Sending.antt =====
-- The nonces that the sending side of cmd/claw/securechannel.go uses under one key.
use daemontest.Prelude.{
  ℕ, ◌+◌, ◌<◌, ◌≡◌, ◌≢◌, ◌⊎◌, refl, List, [], ◌∷◌, ◌++◌, map, Option, none, some, arith, length,
  drop, Option-cases, inl, inr, All, Bool-cases, ltb, ◌≤◌,
}
use daemontest.Prelude.Bytes.{Bytes, u64_mod, put_uint64}
use daemontest.Prelude.Result.{Result, ok, err}
use daemontest.Claw.Protocol.{Message, message_of, secure_max_text_payload, opcode_secure_binary}
use daemontest.Claw.Primitives.{Primitives}
use daemontest.Claw.Channel.{
  Error, SecureChannel, sender, sent, make_nonce, outer_type_for, wrap_text, wrap_json, wrap_binary,
}
use daemontest.Claw.Channel.Nonce.{make_nonce-injective}
use daemontest.Claw.Channel.Replay.{Increasing}
use daemontest.Claw.Channel.RoundTrip.{drop-put_uint64}

-- What the daemon asks the channel to send, and what goes out.
pub data Outgoing : Type 0 where
  text : Message → Outgoing
  binary : Bytes → Outgoing

-- No two elements are equal.
abbrev pub Distinct : List Bytes → Type 0
Distinct [] = Unit
Distinct (x ∷ xs) = All (λ y. x ≢ y) xs × Distinct xs

abbrev text_out : Result Error Message → Option Outgoing
text_out (ok o) = some (Outgoing.text o)
text_out (err e) = none

abbrev binary_out : Option Bytes → Option Outgoing
binary_out none = none
binary_out (some f) = some (Outgoing.binary f)

module _ (p : Primitives) where
  open p use {seal, encode}

  -- What goes out, if anything does, and the channel after it.
  unfoldable pub send : SecureChannel → Outgoing → Option Outgoing × SecureChannel
  send c (text m) = let (r, c') = wrap_json p c m in (text_out r, c')
  send c (binary f) = let (r, c') = wrap_binary p c f in (binary_out r, c')

  -- All that goes out.
  unfoldable pub send_all : SecureChannel → List Outgoing → List Outgoing
  send_all c [] = []
  send_all c (x ∷ xs) =
      let (o, c') = send c x in
      let rest = send_all c' xs in elim o [ none ↦ rest | some y ↦ y ∷ rest ]

  -- What goes out was sealed under the key and the nonce.
  abbrev pub SealedUnder : Bytes → Bytes → Outgoing → Type 0
  SealedUnder key nonce (text m) = (t : Bytes) × (m.payload ≡ encode (seal key nonce t))
  SealedUnder key nonce (binary f) = (t : Bytes) × (drop 9 f ≡ seal key nonce t)

  -- Each of them under its nonce.
  abbrev pub AllSealed : Bytes → List Bytes → List Outgoing → Type 0
  AllSealed key [] [] = Unit
  AllSealed key (n ∷ ns) (o ∷ os) = SealedUnder key n o × AllSealed key ns os
  AllSealed key _ _ = ⊥

  -- A step that sends uses the nonce of the channel's number, and takes the next number.
  Sends : Bytes → SecureChannel → Option Outgoing × SecureChannel → Type 0
  Sends key c r =
      (o : Outgoing) × (r ≡ (some o, sent c)) × SealedUnder key (make_nonce c.send_dir c.send_seq) o

  wrap_json-Sends :
      (key : Bytes) (c : SecureChannel) (m : Message)
      → sender c ≡ some key
      → (send c (Outgoing.text m) ≡ (none, c)) ⊎ Sends key c (send c (Outgoing.text m))
  unfolding send wrap_json Sends
  wrap_json-Sends key c m h = elim (Option-cases (p.marshal m)) [
    | inl e ↦ inl (rw (wrap_json, e) refl)
    | inr (t, e) ↦ elim (Bool-cases (ltb secure_max_text_payload (length t))) [
      | inl over ↦ inl (rw (wrap_json, e, wrap_text, h, over) refl)
      | inr short ↦ inr (
        Outgoing.text (record (message_of (outer_type_for m.type)) {
          seq = c.send_seq;
          payload = encode (seal key (make_nonce c.send_dir c.send_seq) t);
        }),
        rw (wrap_json, e, wrap_text, h, short) refl,
        (t, refl),
      )
    ]
  ]

  wrap_binary-Sends :
      (key : Bytes) (c : SecureChannel) (f : Bytes)
      → sender c ≡ some key
      → Sends key c (send c (Outgoing.binary f))
  unfolding send wrap_binary Sends
  wrap_binary-Sends key c f h =
      let sealed = seal key (make_nonce c.send_dir c.send_seq) f in
      (
        Outgoing.binary (opcode_secure_binary ∷ put_uint64 c.send_seq ++ sealed),
        rw (wrap_binary, h) refl,
        (f, drop-put_uint64 c.send_seq sealed),
      )

  send-cases :
      (key : Bytes) (c : SecureChannel) (x : Outgoing)
      → sender c ≡ some key
      → (send c x ≡ (none, c)) ⊎ Sends key c (send c x)
  send-cases key c (text m) h = wrap_json-Sends key c m h
  send-cases key c (binary f) h = inr (wrap_binary-Sends key c f h)

  send_all_idle :
      (c : SecureChannel) (x : Outgoing) (xs : List Outgoing)
      → send c x ≡ (none, c)
      → send_all c (x ∷ xs) ≡ send_all c xs
  unfolding send_all
  send_all_idle c x xs e = ground arith

  send_all_used :
      (c : SecureChannel) (x o : Outgoing) (xs : List Outgoing)
      → send c x ≡ (some o, sent c)
      → send_all c (x ∷ xs) ≡ o ∷ send_all (sent c) xs
  unfolding send_all
  send_all_used c x o xs e = ground arith

  -- The numbers under whose nonces what goes out is sealed.
  Numbered : Bytes → SecureChannel → ℕ → List Outgoing → Type 0
  Numbered key c lo os =
      (ns : List ℕ) × Increasing lo ns
      × All (λ n. n < u64_mod) ns
      × AllSealed key (map (make_nonce c.send_dir) ns) os

  send_all-Numbered :
      (key : Bytes) (c : SecureChannel) (lo : ℕ) (xs : List Outgoing)
      → sender c ≡ some key
      → lo ≤ c.send_seq
      → c.send_seq + length xs < u64_mod
      → Numbered key c lo (send_all c xs)
  unfolding Numbered Sends send_all
  send_all-Numbered key c lo [] h l k = ([], tt, tt, tt)
  send_all-Numbered key c lo (x ∷ xs) h l k = elim (send-cases key c x h) [
    | inl idle ↦ rw (send_all_idle c x xs idle) (send_all-Numbered key c lo xs h l (omega arith))
    | inr (o, used, sealed) ↦
        let (ns, up, small, rest) =
          send_all-Numbered key (sent c) (c.send_seq + 1) xs h (omega arith) (omega arith) in
        rw (send_all_used c x o xs used)
          (c.send_seq ∷ ns, (l, up), (omega arith, small), (sealed, rest))
  ]

module _ (dir : Bytes) (four : length dir ≡ 4) where
  nonces-apart :
      (n lo : ℕ) (ns : List ℕ)
      → n < lo
      → n < u64_mod
      → Increasing lo ns
      → All (λ k. k < u64_mod) ns
      → All (λ k. make_nonce dir n ≢ k) (map (make_nonce dir) ns)
  nonces-apart n lo [] h small up bound = tt
  nonces-apart n lo (k ∷ ns) h small up bound = (
    (λ e. omega (arith, (make_nonce-injective dir dir n k four four small bound.0 e).1)),
    nonces-apart n (k + 1) ns (omega arith) small up.1 bound.1,
  )

  nonces-Distinct :
      (lo : ℕ) (ns : List ℕ)
      → Increasing lo ns
      → All (λ k. k < u64_mod) ns
      → Distinct (map (make_nonce dir) ns)
  nonces-Distinct lo [] up bound = tt
  nonces-Distinct lo (k ∷ ns) up bound = (
    nonces-apart k (k + 1) ns (omega arith) bound.0 up.1 bound.1,
    nonces-Distinct (k + 1) ns up.1 bound.1,
  )

-- With an active channel whose direction has 4 bytes, each of the messages and frames that go out is the
-- result of `Seal` under the key and a nonce of its own: no two of these nonces, of text and of binary
-- frames, are equal, as long as the 64-bit sequence numbers last.
pub nonces_unique :
    (p : Primitives) (key : Bytes) (c : SecureChannel) (xs : List Outgoing)
    → sender c ≡ some key
    → length c.send_dir ≡ 4
    → c.send_seq + length xs < u64_mod
    → (ns : List Bytes) × Distinct ns × AllSealed p key ns (send_all p c xs)
unfolding Numbered
nonces_unique p key c xs h four k =
    let (ns, up, small, sealed) = send_all-Numbered p key c c.send_seq xs h (omega arith) k in
    (map (make_nonce c.send_dir) ns, nonces-Distinct c.send_dir four c.send_seq ns up small, sealed)
