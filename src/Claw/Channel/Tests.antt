-- ===== src/Claw/Channel/Tests.antt =====
-- Runs of cmd/claw/securechannel.go, with the toy library functions.
use Prim.{tt}
use daemontest.Prelude.{
  ℕ, ◌≡◌, refl, Bool, true, false, List, [], ◌∷◌, ◌++◌, some, none, replicate, length, arith, take,
  drop, ◌<◌, ltb, All, ap, ◌⊗◌,
}
use daemontest.Prelude.Bytes.{Bytes, codes, put_uint64, uint64}
use daemontest.Prelude.Result.{ok, err}
use daemontest.Claw.Protocol.{Message, message_of}
use daemontest.Claw.Primitives.{IsUtf8, IsText}
use daemontest.Xterm.TextDecoder.{is_surrogate}
use daemontest.Xterm.TextDecoder.RoundTrip.{utf8_all}
use daemontest.Claw.Toy.{toy}
use daemontest.Claw.Channel.{
  SecureChannel, new_secure_channel, dir_c2s, dir_s2c, make_nonce, sent, advanced, wrap_json,
  unwrap_json, wrap_binary, unwrap_binary, inactive, reset, outer_type_for,
}
use daemontest.Claw.Channel.RoundTrip.{
  Paired, Fits, transmit, arrived, transmit-arrived, unwrap_binary-wrap_binary,
}
use daemontest.Claw.Channel.Replay.{
  Incoming, Increasing, seq_of, accepted, accepted-Increasing, receive, receive_all, receive_again,
  reset-inactive,
}
use daemontest.Claw.Channel.Sending.{Outgoing, send, send_all, Distinct, AllSealed, nonces_unique}

abbrev key_a : Bytes
key_a = replicate 32 1

abbrev key_b : Bytes
key_b = replicate 32 2

abbrev channel : Bytes → Bytes → Bytes → Bytes → SecureChannel
channel send_key recv_key send_dir recv_dir = record {
  active = true;
  send_key = send_key;
  recv_key = recv_key;
  send_dir = send_dir;
  recv_dir = recv_dir;
  gcm_send = some send_key;
  gcm_recv = some recv_key;
  send_seq = 0;
  recv_seq = 0;
  has_recv = false;
}

abbrev daemon_end : SecureChannel
daemon_end = channel key_a key_b dir_s2c dir_c2s

abbrev app_end : SecureChannel
app_end = channel key_b key_a dir_c2s dir_s2c

new_channel : new_secure_channel key_a key_b dir_s2c dir_c2s ≡ ok daemon_end
unfolding new_secure_channel
new_channel = refl

types :
    (outer_type_for (codes "file_request") ≡ codes "enc_file")
    × (outer_type_for (codes "req_pending") ≡ codes "enc_file")
    × (outer_type_for (codes "proxy_close") ≡ codes "enc_proxy")
    × (outer_type_for (codes "input") ≡ codes "enc_term")
unfolding outer_type_for
types = (refl, refl, refl, refl)

abbrev output : Message
output = record (message_of (codes "output")) { payload = codes "ls" }

abbrev again : Message
again = message_of (codes "input")

abbrev json_of : Message → Bytes
json_of m = elim (toy.marshal m) [ none ↦ [] | some b ↦ b ]

abbrev IsAscii : ℕ → Type 0
IsAscii c = ltb c 128 ≡ true

utf8_all-ascii : (b : Bytes) → All IsAscii b → utf8_all b ≡ b
utf8_all-ascii [] a = refl
utf8_all-ascii (c ∷ cs) a = rw (a.0) (ap (λ bs. c ∷ bs) (utf8_all-ascii cs (a.1)))

ascii-All : (b : Bytes) → All IsAscii b → All (λ c. (c < 0x110000) × (is_surrogate c ≡ false)) b
ascii-All [] a = tt
ascii-All (c ∷ cs) a = ((ground (arith, a.0), ground (arith, a.0)), ascii-All cs (a.1))

ascii-IsUtf8 : (b : Bytes) → All IsAscii b → IsUtf8 b
ascii-IsUtf8 b a = (b, ascii-All b a, utf8_all-ascii b a)

no_text : IsUtf8 []
no_text = ([], tt, refl)

-- A message with a type and a payload, as far as it has strings.
plain-IsText :
    (t payload : Bytes)
    → IsUtf8 t
    → IsUtf8 payload
    → IsText (record (message_of t) { payload = payload })
plain-IsText t payload a b = record {
  type_text = a;
  reason_text = no_text;
  session_id_text = no_text;
  payload_text = b;
  sid_text = no_text;
  pa_text = no_text;
  pb_text = no_text;
  tag_a_text = no_text;
  tag_b_text = no_text;
}

output-Fits : Fits toy output
output-Fits = record {
  text = json_of output;
  marshals = refl;
  short = omega arith;
  is_text =
      plain-IsText (codes "output") (codes "ls")
        (ascii-IsUtf8 (codes "output") (refl ⊗ refl ⊗ refl ⊗ refl ⊗ refl ⊗ refl ⊗ tt))
        (ascii-IsUtf8 (codes "ls") (refl ⊗ refl ⊗ tt));
}

again-Fits : Fits toy again
again-Fits = record {
  text = json_of again;
  marshals = refl;
  short = omega arith;
  is_text =
      plain-IsText (codes "input") []
        (ascii-IsUtf8 (codes "input") (refl ⊗ refl ⊗ refl ⊗ refl ⊗ refl ⊗ tt)) no_text;
}

ends-Paired : Paired key_a daemon_end app_end
ends-Paired = record { sends = refl; receives = refl; direction = refl; behind = refl }

-- the second of three messages is lost
abbrev stream : List (Message × Bool)
stream = (output, true) ∷ (again, false) ∷ (output, true) ∷ []

transmit-arrived_example : transmit toy daemon_end app_end stream ≡ ok output ∷ ok output ∷ []
unfolding arrived
transmit-arrived_example =
    transmit-arrived toy key_a daemon_end app_end stream
      (output-Fits, (again-Fits, (output-Fits, tt))) ends-Paired (omega arith)

unwrap_binary-wrap_binary_example :
    (o : Bytes) × (wrap_binary toy daemon_end (5 ∷ 6 ∷ []) ≡ (some o, sent daemon_end))
    × (unwrap_binary toy app_end o ≡ (ok (5 ∷ 6 ∷ []), advanced app_end 0))
    × (length o ≡ 27)
unwrap_binary-wrap_binary_example =
    unwrap_binary-wrap_binary toy (5 ∷ 6 ∷ []) (omega arith) ends-Paired

abbrev sealed : ℕ → Incoming
sealed n =
    Incoming.binary (7 ∷ put_uint64 n ++ toy.seal key_a (make_nonce dir_s2c n) (codes "data"))

-- the frame 3 comes twice, and 2 comes late
abbrev arrivals : List Incoming
arrivals = sealed 1 ∷ sealed 3 ∷ sealed 3 ∷ sealed 2 ∷ sealed 4 ∷ []

takes : accepted toy app_end arrivals ≡ 1 ∷ 3 ∷ 4 ∷ []
unfolding accepted receive seq_of unwrap_binary put_uint64 uint64
takes = refl

accepted-Increasing_example : Increasing 0 (accepted toy app_end arrivals)
accepted-Increasing_example = accepted-Increasing toy app_end arrivals

receive_again_example :
    (receive toy (receive_all toy (receive toy app_end (sealed 1)).1 (sealed 3 ∷ [])) (sealed 1)).0
    ≡ false
unfolding receive unwrap_binary put_uint64
receive_again_example = receive_again toy app_end (sealed 1) (sealed 3 ∷ []) refl

reset-inactive_example :
    (wrap_json toy (reset daemon_end) output ≡ (err inactive, reset daemon_end))
    × (unwrap_json toy (reset daemon_end) output ≡ (err inactive, reset daemon_end))
    × (wrap_binary toy (reset daemon_end) [] ≡ (none, reset daemon_end))
    × (unwrap_binary toy (reset daemon_end) [] ≡ (err inactive, reset daemon_end))
    × ((reset daemon_end).send_key ≡ replicate 32 0)
    × ((reset daemon_end).recv_key ≡ replicate 32 0)
reset-inactive_example = reset-inactive toy daemon_end output [] (json_of output) refl

abbrev to_send : List Outgoing
to_send = Outgoing.text output ∷ Outgoing.binary (5 ∷ []) ∷ Outgoing.text again ∷ []

numbers_of : List Outgoing → List ℕ
numbers_of [] = []
numbers_of (Outgoing.text m ∷ os) = m.seq ∷ numbers_of os
numbers_of (Outgoing.binary f ∷ os) = uint64 (take 8 (drop 1 f)) ∷ numbers_of os

sends : numbers_of (send_all toy daemon_end to_send) ≡ 0 ∷ 1 ∷ 2 ∷ []
unfolding send_all send wrap_json wrap_binary put_uint64 uint64 numbers_of
sends = refl

nonces_unique_example :
    (ns : List Bytes) × Distinct ns × AllSealed toy key_a ns (send_all toy daemon_end to_send)
nonces_unique_example = nonces_unique toy key_a daemon_end to_send refl refl (omega arith)
