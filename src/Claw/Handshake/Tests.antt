-- ===== src/Claw/Handshake/Tests.antt =====
-- Runs of cmd/claw/secure_handshake.go.
use daemontest.Prelude.{
  ◌-◌, ◌≡◌, refl, true, false, List, [], ◌∷◌, ◌++◌, none, some, arith, length, leb, replicate,
}
use daemontest.Prelude.Int.{pos}
use daemontest.Prelude.Bytes.{Bytes, codes, has_prefix, bytes_eq, put_uint64, copy_at}
use daemontest.Prelude.Result.{ok}
use daemontest.Claw.Channel.{
  SecureChannel, dir_c2s, dir_s2c, wrap_json, wrap_text, outer_type_for, make_nonce,
  is_encrypted_type,
}
use daemontest.Claw.Protocol.{
  Message, message_of, is_plaintext_exempt, one_of, type_enc_term, max_sec_code_attempts,
}
use daemontest.Claw.Toy.{toy}
use daemontest.Claw.ToyCrypto.{toy_crypto, toy_lawful}
use daemontest.Claw.Spake2.{
  Generators, Spake2Keys, hash_to_point, hash_rounds, mod_sqrt, curve_rhs, scalar_from_password,
  set_bytes, bytes_onto, valid, share_for, point_add, point_scalar, point_base_scalar,
}
use daemontest.Claw.Spake2.Sides.{side, share_bytes}
use daemontest.Claw.Spake2.Agreement.{CanMeet, side-agree}
use daemontest.Claw.Spake2.Keys.{HasKeyLengths}
use daemontest.Claw.Spake2.Roots.{OnEquation, hash_to_point-OnEquation}
use daemontest.Claw.Handshake.Envelope.{wrap_outgoing_json-encrypted}
use daemontest.Claw.Handshake.{
  Daemon, wrap_outgoing_json, secure_active, pake_password, handle_pake_start, handle_sec_confirm,
  start_server, rejected, accepted, confirmed, without_pake,
}
use daemontest.Claw.Handshake.Attempts.{
  Attempt, attempt, attempts, started, is_wrong, all_wrong, attempts-lockout,
}
use daemontest.Claw.Handshake.Success.{Agrees, handshake-agree}

abbrev code : Bytes
code = codes "123456"

abbrev session : Bytes
session = replicate 16 5

abbrev generators : Generators
generators = record { m = some (1, 1); n = some (1, 1) }

abbrev idle : Daemon
idle = record {
  access_key = codes "key";
  secure = none;
  pake_server = none;
  pake_sid = none;
  pake_access_key = [];
  pake_timer = false;
  sec_code_enabled = true;
  sec_code_verified = false;
  sec_code_attempts_left = pos max_sec_code_attempts;
  exiting = false;
}

CanMeet-one : CanMeet toy_crypto toy_lawful generators 1 1 1
unfolding valid share_for point_add point_scalar point_base_scalar
CanMeet-one = record {
  m_valid = refl;
  n_valid = refl;
  w_pos = omega arith;
  w_lt = omega arith;
  x_pos = omega arith;
  x_lt = omega arith;
  y_pos = omega arith;
  y_lt = omega arith;
  client_valid = refl;
  server_valid = refl;
}

CanMeet-password :
    CanMeet toy_crypto toy_lawful generators
      (scalar_from_password toy_crypto (pake_password code))
      1
      1
unfolding scalar_from_password set_bytes bytes_onto
CanMeet-password = CanMeet-one

handshake-agree_example : Agrees toy toy_crypto generators code idle 1 1 session
handshake-agree_example =
    handshake-agree toy toy_crypto toy_lawful generators code idle 1 1 session CanMeet-password refl

-- An attempt whose tag is empty.
abbrev guess : Attempt
guess = record {
  draw = some 1;
  start = record (message_of (codes "pake_start")) {
    sid = session;
    pa = 4 ∷ replicate 31 0 ++ 1 ∷ replicate 31 0 ++ 2 ∷ [];
  };
  confirm = message_of (codes "sec_confirm");
}

abbrev guesses : List Attempt
guesses = replicate 11 guess

guesses-wrong : all_wrong toy toy_crypto generators code guesses idle ≡ true
unfolding all_wrong attempt started is_wrong handle_pake_start handle_sec_confirm start_server
    rejected accepted confirmed without_pake
guesses-wrong = refl

attempts-lockout_example :
    ((attempts toy toy_crypto generators code guesses idle).sec_code_attempts_left
      ≡ pos (max_sec_code_attempts - 11))
    × ((attempts toy toy_crypto generators code guesses idle).exiting
        ≡ leb max_sec_code_attempts 11)
attempts-lockout_example =
    attempts-lockout toy toy_crypto generators code guesses idle refl refl refl (omega arith)
      guesses-wrong

side-agree_example :
    (keys : Spake2Keys) × (tt : Bytes) × HasKeyLengths keys
    × (side toy_crypto generators true 1 1
          (share_bytes toy_crypto generators false 1 1)
          session
          (codes "key")
        ≡ some (keys, some tt))
    × (side toy_crypto generators false 1 1
          (share_bytes toy_crypto generators true 1 1)
          session
          (codes "key")
        ≡ some (keys, some tt))
side-agree_example =
    side-agree toy_crypto toy_lawful generators 1 1 1 session (codes "key") CanMeet-one

hashed : hash_to_point toy_crypto (1 ∷ 2 ∷ []) ≡ ok (some (0, 1))
unfolding hash_to_point hash_rounds mod_sqrt curve_rhs set_bytes bytes_onto
hashed = refl

hash_to_point-OnEquation_example : OnEquation toy_crypto (some (0, 1))
unfolding curve_rhs
hash_to_point-OnEquation_example =
    hash_to_point-OnEquation toy_crypto (1 ∷ 2 ∷ []) (some (0, 1)) refl hashed

abbrev channel : SecureChannel
channel = record {
  active = true;
  send_key = replicate 32 1;
  recv_key = replicate 32 2;
  send_dir = dir_s2c;
  recv_dir = dir_c2s;
  gcm_send = some (replicate 32 1);
  gcm_recv = some (replicate 32 2);
  send_seq = 4;
  recv_seq = 0;
  has_recv = false;
}

abbrev secured : Daemon
secured = record idle { secure = some channel }

abbrev envelope : Message
envelope = record (message_of type_enc_term) {
  seq = 4;
  payload =
      replicate 3 0 ++ length (codes "output") ∷ codes "output" ++ replicate 8 0 ++ replicate 16 0;
}

enveloped : (wrap_outgoing_json toy (message_of (codes "output")) secured).0 ≡ some envelope
unfolding wrap_outgoing_json is_plaintext_exempt wrap_json wrap_text outer_type_for has_prefix
    bytes_eq one_of make_nonce put_uint64 copy_at
enveloped = refl

wrap_outgoing_json-encrypted_example : is_encrypted_type envelope.type ≡ true
wrap_outgoing_json-encrypted_example =
    wrap_outgoing_json-encrypted toy (message_of (codes "output")) secured envelope
      (unfold secure_active in refl) (unfold is_plaintext_exempt in refl) enveloped
