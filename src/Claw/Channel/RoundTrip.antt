-- ===== src/Claw/Channel/RoundTrip.antt =====
-- What one end of cmd/claw/securechannel.go wraps, the other end unwraps.
use daemontest.Prelude.{
  ℕ, ◌+◌, ◌≤◌, ◌<◌, ◌≡◌, refl, Bool, true, false, List, [], ◌∷◌, ◌++◌, some, length, take, drop,
  arith, if◌then◌else◌,
}
use daemontest.Prelude.Bytes.{Bytes, u64_mod, put_uint64, uint64-put_uint64}
use daemontest.Prelude.Result.{Result, ok, err}
use daemontest.Claw.Protocol.{
  Message, message_of, secure_max_text_payload, secure_binary_overhead, opcode_secure_binary,
}
use daemontest.Claw.Primitives.{Primitives, IsText}
use daemontest.Claw.Channel.{
  Error, SecureChannel, sender, receiver, sent, advanced, is_replay, make_nonce, outer_type_for,
  wrap_json, unwrap_json, wrap_binary, unwrap_binary,
}

-- Two ends of one direction: same key and prefix, and the receiver has seen only lower numbers.
pub record Paired (key : Bytes) (s r : SecureChannel) : Type 0 where
  pub sends : sender s ≡ some key
  pub receives : receiver r ≡ some key
  pub direction : s.send_dir ≡ r.recv_dir
  pub behind : is_replay r s.send_seq ≡ false

pub take-put_uint64 : (n : ℕ) (b : Bytes) → take 8 (put_uint64 n ++ b) ≡ put_uint64 n
unfolding put_uint64
take-put_uint64 n b = refl

pub drop-put_uint64 : (n : ℕ) (b : Bytes) → drop 8 (put_uint64 n ++ b) ≡ b
unfolding put_uint64
drop-put_uint64 n b = refl

length-put_uint64 : (n : ℕ) (b : Bytes) → length (put_uint64 n ++ b) ≡ 8 + length b
unfolding put_uint64
length-put_uint64 n b = omega arith

module _ (p : Primitives) where
  open p use {seal, unseal, encode, decode, marshal, unmarshal}

  -- The message can be sent as it is: its strings are valid UTF-8, its JSON exists and is within the limit.
  pub record Fits (m : Message) : Type 0 where
    pub text : Bytes
    pub marshals : marshal m ≡ some text
    pub short : length text ≤ secure_max_text_payload
    pub is_text : IsText m

  -- The envelope of a message.
  abbrev pub envelope : Bytes → SecureChannel → Message → Bytes → Message
  envelope key s m text = record (message_of (outer_type_for m.type)) {
    seq = s.send_seq;
    payload = encode (seal key (make_nonce s.send_dir s.send_seq) text);
  }

  wrap_json-Fits :
      (key : Bytes) (s : SecureChannel) (m : Message) (f : Fits m)
      → sender s ≡ some key
      → wrap_json p s m ≡ (ok (envelope key s m f.text), sent s)
  unfolding wrap_json
  wrap_json-Fits key s m f h = ground arith

  unwrap_json-envelope :
      (key : Bytes) (s r : SecureChannel) (m : Message) (f : Fits m)
      → Paired key s r
      → unwrap_json p r (envelope key s m f.text) ≡ (ok m, advanced r s.send_seq)
  unfolding unwrap_json
  unwrap_json-envelope key s r m f q = ground (
    arith,
    p.decode-encode (seal key (make_nonce s.send_dir s.send_seq) f.text),
    p.unseal-seal key (make_nonce s.send_dir s.send_seq) f.text,
    p.unmarshal-marshal m f.text f.is_text,
  )

  -- The wrapped message unwraps to the message at the other end, which then knows its number.
  pub unwrap_json-wrap_json :
      {key : Bytes} {s r : SecureChannel} (m : Message) (f : Fits m)
      → Paired key s r
      → (o : Message) × (wrap_json p s m ≡ (ok o, sent s))
        × (unwrap_json p r o ≡ (ok m, advanced r s.send_seq))
  unwrap_json-wrap_json {key} {s} {r} m f q = (
    envelope key s m f.text,
    wrap_json-Fits key s m f q.sends,
    unwrap_json-envelope key s r m f q,
  )

  -- The end that sends each message, and the network that loses those marked `false`; each message
  -- that arrives is unwrapped at once.
  unfoldable pub transmit :
      SecureChannel → SecureChannel → List (Message × Bool) → List (Result Error Message)
  unfolding wrap_json unwrap_json
  transmit s r [] = []
  transmit s r ((m, arrives) ∷ ms) =
      let (w, s') = wrap_json p s m in
      let lost = transmit s' r ms in
      elim w [
        | err e ↦ err e ∷ lost
        | ok o ↦
            let (x, r') = unwrap_json p r o in
            let through = x ∷ transmit s' r' ms in if arrives then through else lost
      ]

  unfoldable pub arrived : List (Message × Bool) → List (Result Error Message)
  arrived [] = []
  arrived ((m, arrives) ∷ ms) = let rest = arrived ms in if arrives then ok m ∷ rest else rest

  abbrev AllFit : List (Message × Bool) → Type 0
  AllFit [] = Unit
  AllFit ((m, arrives) ∷ ms) = Fits m × AllFit ms

  Paired-lost :
      {key : Bytes} {s r : SecureChannel}
      → s.send_seq + 1 < u64_mod
      → Paired key s r
      → Paired key (sent s) r
  Paired-lost {key} {s} {r} h q = ground arith

  Paired-advanced :
      {key : Bytes} {s r : SecureChannel}
      → s.send_seq + 1 < u64_mod
      → Paired key s r
      → Paired key (sent s) (advanced r s.send_seq)
  Paired-advanced {key} {s} {r} h q = ground arith

  -- Between two ends with the same key and direction, of which the receiver has taken no number
  -- from the sender's next one on, each JSON message that the network does not lose arrives as it
  -- was sent, and in order, whichever are lost; if the strings of each are valid UTF-8, each can be
  -- marshalled to no more than the limit of an envelope, and the sequence numbers last for all of
  -- them.
  pub transmit-arrived :
      (key : Bytes) (s r : SecureChannel) (ms : List (Message × Bool))
      → AllFit ms
      → Paired key s r
      → s.send_seq + length ms < u64_mod
      → transmit s r ms ≡ arrived ms
  unfolding transmit arrived
  transmit-arrived key s r [] fs q h = refl
  transmit-arrived key s r ((m, true) ∷ ms) (f, fs) q h = ground (
    arith,
    wrap_json-Fits key s m f q.sends,
    unwrap_json-envelope key s r m f q,
    transmit-arrived key (sent s) (advanced r s.send_seq) ms fs (Paired-advanced (omega arith) q),
  )
  transmit-arrived key s r ((m, false) ∷ ms) (f, fs) q h = ground (
    arith,
    wrap_json-Fits key s m f q.sends,
    transmit-arrived key (sent s) r ms fs (Paired-lost (omega arith) q),
  )

  -- Between two ends with the same key and direction, of which the receiver has taken no number
  -- from the sender's next one on, a binary frame is wrapped into one that is 25 bytes longer and
  -- unwrapped to itself, if the number is below 2^64.
  pub unwrap_binary-wrap_binary :
      {key : Bytes} {s r : SecureChannel} (frame : Bytes)
      → s.send_seq < u64_mod
      → Paired key s r
      → (o : Bytes) × (wrap_binary p s frame ≡ (some o, sent s))
        × (unwrap_binary p r o ≡ (ok frame, advanced r s.send_seq))
        × (length o ≡ length frame + secure_binary_overhead)
  unfolding wrap_binary unwrap_binary
  unwrap_binary-wrap_binary {key} {s} {r} frame h q = (
    opcode_secure_binary ∷ put_uint64 s.send_seq ++ sealed,
    ground arith,
    ground (
      arith,
      take-put_uint64 s.send_seq sealed,
      drop-put_uint64 s.send_seq sealed,
      length-put_uint64 s.send_seq sealed,
      uint64-put_uint64 s.send_seq h,
      p.length-seal key (make_nonce s.send_dir s.send_seq) frame,
      p.unseal-seal key (make_nonce s.send_dir s.send_seq) frame,
    ),
    omega (
      arith,
      length-put_uint64 s.send_seq sealed,
      p.length-seal key (make_nonce s.send_dir s.send_seq) frame,
    ),
  )
    where
      sealed : Bytes
      sealed = seal key (make_nonce s.send_dir s.send_seq) frame
