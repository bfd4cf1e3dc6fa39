-- ===== src/Claw/Protocol.antt =====
-- cmd/claw/protocol.go: the message envelope, the names of the messages that the secure channel and
-- the handshake tell apart, and the limits that they use.
use daemontest.Prelude.{ℕ, ◌*◌, List, [], ◌∷◌, Bool, false, ◌||◌}
use daemontest.Prelude.Int.{ℤ, pos}
use daemontest.Prelude.Bytes.{Bytes, codes, bytes_eq}

-- The fields of `Message` that the modelled code reads or sets.
pub record Message : Type 0 where
  pub type : Bytes
  pub reason : Bytes
  pub session_id : Bytes
  pub payload : Bytes
  pub seq : ℕ
  pub sid : Bytes
  pub pa : Bytes
  pub pb : Bytes
  pub tag_a : Bytes
  pub tag_b : Bytes
  pub remaining_attempts : ℤ

-- A message of a type, its other fields at their zero values.
abbrev pub message_of : Bytes → Message
message_of t = record {
  type = t;
  reason = [];
  session_id = [];
  payload = [];
  seq = 0;
  sid = [];
  pa = [];
  pb = [];
  tag_a = [];
  tag_b = [];
  remaining_attempts = pos 0;
}

abbrev pub type_file_list : Bytes
type_file_list = codes "file_list"

abbrev pub type_req_pending : Bytes
type_req_pending = codes "req_pending"

abbrev pub type_enc_term : Bytes
type_enc_term = codes "enc_term"

abbrev pub type_enc_file : Bytes
type_enc_file = codes "enc_file"

abbrev pub type_enc_proxy : Bytes
type_enc_proxy = codes "enc_proxy"

abbrev pub type_pake_reply : Bytes
type_pake_reply = codes "pake_reply"

abbrev pub type_sec_ok : Bytes
type_sec_ok = codes "sec_ok"

abbrev pub type_secure_ready : Bytes
type_secure_ready = codes "secure_ready"

abbrev pub type_sec_code_error : Bytes
type_sec_code_error = codes "sec_code_error"

abbrev pub max_sec_code_attempts : ℕ
max_sec_code_attempts = 11

abbrev pub secure_max_text_payload : ℕ
secure_max_text_payload = 24000

abbrev pub secure_binary_overhead : ℕ
secure_binary_overhead = 25

abbrev pub opcode_secure_binary : ℕ
opcode_secure_binary = 0x07

abbrev pub max_frame_size : ℕ
max_frame_size = 31 * 1024

-- A string is among those of a map's keys.
unfoldable pub one_of : List Bytes → Bytes → Bool
one_of [] t = false
one_of (s ∷ ss) t = bytes_eq t s || one_of ss t

-- `plaintextExemptTypes`
abbrev pub plaintext_exempt_types : List Bytes
plaintext_exempt_types =
    codes "pake_start"
    ∷ codes "pake_reply"
    ∷ codes "sec_confirm"
    ∷ codes "sec_ok"
    ∷ codes "secure_ready"
    ∷ codes "sec_status"
    ∷ codes "sec_code_verify"
    ∷ codes "sec_code_ok"
    ∷ codes "sec_code_error"
    ∷ codes "channel_select"
    ∷ codes "channel_selected"
    ∷ codes "channel_failed"
    ∷ codes "peer_online"
    ∷ codes "peer_offline"
    ∷ codes "kicked"
    ∷ codes "ping"
    ∷ codes "pong"
    ∷ codes "session_info"
    ∷ []

unfoldable pub is_plaintext_exempt : Bytes → Bool
unfolding one_of bytes_eq
is_plaintext_exempt t = one_of plaintext_exempt_types t
