-- ===== src/Claw/Channel/Replay.antt =====
-- The replay protection of cmd/claw/securechannel.go, against any frames in any order: whoever sends
-- them, text and binary mixed. And the numbers that the sending side uses.
use daemontest.Prelude.{
  ℕ, ◌+◌, ◌≤◌, ◌<◌, ◌≡◌, refl, ap, Bool, true, false, List, [], ◌∷◌, map, none, some, arith,
  if◌then◌else◌, length, take, drop, replicate, inl, inr, Bool-cases,
}
use daemontest.Prelude.Bytes.{Bytes, uint64}
use daemontest.Prelude.Result.{Result, ok, err}
use daemontest.Claw.Protocol.{Message}
use daemontest.Claw.Primitives.{Primitives}
use daemontest.Claw.Channel.{
  Error, inactive, replay, SecureChannel, receiver, advanced, wrap_json, wrap_binary, unwrap_json,
  unwrap_binary, reset,
}

-- What can arrive: a text message or a binary frame.
pub data Incoming : Type 0 where
  text : Message → Incoming
  binary : Bytes → Incoming

-- The number that it carries.
unfoldable pub seq_of : Incoming → ℕ
seq_of (text m) = m.seq
seq_of (binary f) = uint64 (take 8 (drop 1 f))

abbrev is_ok {ℓ} : {A : Type ℓ} → Result Error A → Bool
is_ok (ok a) = true
is_ok (err e) = false

-- The least number that the channel would still take.
abbrev pub floor : SecureChannel → ℕ
floor c = if c.has_recv then c.recv_seq + 1 else 0

-- Each number is above the ones before it, and at least `lo`.
abbrev pub Increasing : ℕ → List ℕ → Type 0
Increasing lo [] = Unit
Increasing lo (n ∷ ns) = (lo ≤ n) × Increasing (n + 1) ns

map-zero : (k : Bytes) → map {B = ℕ} (λ _. 0) k ≡ replicate (length k) 0
map-zero [] = refl
map-zero (b ∷ k) = ap (◌∷◌ 0) (map-zero k)

module _ (p : Primitives) where
  -- Whether a plaintext came out, and the channel after it.
  unfoldable pub receive : SecureChannel → Incoming → Bool × SecureChannel
  receive c (text m) = let (r, c') = unwrap_json p c m in (is_ok r, c')
  receive c (binary f) = let (r, c') = unwrap_binary p c f in (is_ok r, c')

  -- The numbers of the frames that gave a plaintext, in the order of arrival.
  unfoldable pub accepted : SecureChannel → List Incoming → List ℕ
  accepted c [] = []
  accepted c (x ∷ xs) =
      let (taken, c') = receive c x in
      let rest = accepted c' xs in if taken then seq_of x ∷ rest else rest

  unfoldable pub receive_all : SecureChannel → List Incoming → SecureChannel
  receive_all c [] = c
  receive_all c (x ∷ xs) = receive_all (receive c x).1 xs

  receive-true :
      (c : SecureChannel) (x : Incoming)
      → (receive c x).0 ≡ true
      → (floor c ≤ seq_of x) × ((receive c x).1 ≡ advanced c (seq_of x))
  unfolding receive seq_of unwrap_json unwrap_binary
  receive-true c (text m) h = ground arith
  receive-true c (binary f) h = ground arith

  -- Whatever arrives, the channel keeps its key, and takes no lower numbers than before.
  receive-floor :
      (c : SecureChannel) (x : Incoming)
      → (floor c ≤ floor (receive c x).1) × (receiver (receive c x).1 ≡ receiver c)
  unfolding receive unwrap_json unwrap_binary
  receive-floor c (text m) = ground arith
  receive-floor c (binary f) = ground arith

  accepted-Increasing_from :
      (c : SecureChannel) (lo : ℕ) (xs : List Incoming)
      → lo ≤ floor c
      → Increasing lo (accepted c xs)
  unfolding accepted
  accepted-Increasing_from c lo [] h = tt
  accepted-Increasing_from c lo (x ∷ xs) h = elim (Bool-cases (receive c x).0) [
    | inl t ↦ rw t (
      omega (arith, (receive-true c x t).0),
      accepted-Increasing_from (receive c x).1 (seq_of x + 1) xs
          (omega (arith, ap floor (receive-true c x t).1)),
    )
    | inr f ↦
        rw f (accepted-Increasing_from (receive c x).1 lo xs (omega (arith, receive-floor c x)))
  ]

  -- The numbers of the frames that a channel takes, text and binary, increase, whatever arrives in
  -- whatever order, and begin above the ones that it took before: no number is taken twice.
  pub accepted-Increasing :
      (c : SecureChannel) (xs : List Incoming) → Increasing (floor c) (accepted c xs)
  accepted-Increasing c xs = accepted-Increasing_from c (floor c) xs (omega arith)

  receive_all-floor : (c : SecureChannel) (xs : List Incoming) → floor c ≤ floor (receive_all c xs)
  unfolding receive_all
  receive_all-floor c [] = omega arith
  receive_all-floor c (x ∷ xs) =
      omega (arith, receive-floor c x, receive_all-floor (receive c x).1 xs)

  -- A frame that was taken is refused when it comes again, whatever came in between.
  pub receive_again :
      (c : SecureChannel) (x : Incoming) (between : List Incoming)
      → (receive c x).0 ≡ true
      → (receive (receive_all (receive c x).1 between) x).0 ≡ false
  receive_again c x between t = elim (Bool-cases (receive later x).0) [
    | inl again ↦ absurd (
        omega (
          arith,
          ap floor (receive-true c x t).1,
          receive_all-floor (receive c x).1 between,
          (receive-true later x again).0,
        ))
    | inr refused ↦ refused
  ]
    where
      later : SecureChannel
      later = receive_all (receive c x).1 between

  -- A message with a number at or below the last one taken is an error of its own, found before
  -- decryption, and changes nothing.
  pub unwrap_json-replay :
      (c : SecureChannel) (o : Message) {key ct : Bytes}
      → receiver c ≡ some key
      → p.decode o.payload ≡ some ct
      → o.seq < floor c
      → unwrap_json p c o ≡ (err replay, c)
  unfolding unwrap_json
  unwrap_json-replay c o h d lt = ground arith

  -- After `Reset`, each method reports an inactive channel and changes nothing, for any frame and
  -- any message that can be marshalled, and the stored keys are zeros.
  pub reset-inactive :
      (c : SecureChannel) (m : Message) (f json : Bytes)
      → p.marshal m ≡ some json
      → (wrap_json p (reset c) m ≡ (err inactive, reset c))
        × (unwrap_json p (reset c) m ≡ (err inactive, reset c))
        × (wrap_binary p (reset c) f ≡ (none, reset c))
        × (unwrap_binary p (reset c) f ≡ (err inactive, reset c))
        × ((reset c).send_key ≡ replicate (length c.send_key) 0)
        × ((reset c).recv_key ≡ replicate (length c.recv_key) 0)
  unfolding reset wrap_json unwrap_json wrap_binary unwrap_binary
  reset-inactive c m f json h =
      (ground arith, refl, refl, refl, map-zero c.send_key, map-zero c.recv_key)
