-- ===== src/Claw/Channel.antt =====
-- cmd/claw/securechannel.go: the encrypted data plane. Each method holds the mutex throughout, so it
-- is one step on the channel's state. An AEAD is the key that it was made with, nil is `none`.
pub mod Nonce
pub mod RoundTrip
pub mod Replay
pub mod Sending
mod Tests
use daemontest.Prelude.{
  ℕ, zero, suc, ◌+◌, ◌%◌, Bool, true, false, ◌&&◌, ◌||◌, not, List, [], ◌∷◌, ◌++◌, map, Option,
  none, some, ltb, leb, ◌==◌, if◌then◌else◌, length, replicate, take, drop, get_or,
}
use daemontest.Prelude.Bytes.{
  Bytes, codes, u64_mod, put_uint64, uint64, has_prefix, bytes_eq, copy_at,
}
use daemontest.Prelude.Result.{Result, ok, err}
use daemontest.Claw.Protocol.{
  Message, message_of, type_file_list, type_req_pending, type_enc_term, type_enc_file,
  type_enc_proxy, secure_max_text_payload, opcode_secure_binary,
}
use daemontest.Claw.Primitives.{Primitives}

pub data Error : Type 0 where
  inactive replay decrypt too_large marshal_failed bad_key : Error

abbrev pub dir_c2s : Bytes
dir_c2s = b'C' ∷ b'2' ∷ b'S' ∷ 0 ∷ []

abbrev pub dir_s2c : Bytes
dir_s2c = b'S' ∷ b'2' ∷ b'C' ∷ 0 ∷ []

pub record SecureChannel : Type 0 where
  pub active : Bool
  pub send_key : Bytes
  pub recv_key : Bytes
  pub send_dir : Bytes
  pub recv_dir : Bytes
  pub gcm_send : Option Bytes
  pub gcm_recv : Option Bytes
  pub send_seq : ℕ
  pub recv_seq : ℕ
  pub has_recv : Bool

-- `aes.NewCipher` takes keys of 16, 24 and 32 bytes.
unfoldable pub new_gcm : Bytes → Option Bytes
new_gcm key = if length key == 16 || length key == 24 || length key == 32 then some key else none

unfoldable pub new_secure_channel : Bytes → Bytes → Bytes → Bytes → Result Error SecureChannel
unfolding new_gcm
new_secure_channel send_key recv_key send_dir recv_dir = elim (new_gcm send_key) [
  | none ↦ err bad_key
  | some gcm_send ↦ elim (new_gcm recv_key) [
    | none ↦ err bad_key
    | some gcm_recv ↦ ok (record {
      active = true;
      send_key = send_key;
      recv_key = recv_key;
      send_dir = send_dir;
      recv_dir = recv_dir;
      gcm_send = some gcm_send;
      gcm_recv = some gcm_recv;
      send_seq = 0;
      recv_seq = 0;
      has_recv = false;
    })
  ]
]

unfoldable pub reset : SecureChannel → SecureChannel
reset c = record c {
  active = false;
  send_seq = 0;
  recv_seq = 0;
  has_recv = false;
  send_key = map (λ _. 0) c.send_key;
  recv_key = map (λ _. 0) c.recv_key;
  gcm_send = none;
  gcm_recv = none;
}

unfoldable pub make_nonce : Bytes → ℕ → Bytes
unfolding copy_at put_uint64
make_nonce dir seq = copy_at 4 (put_uint64 seq) (copy_at 0 dir (replicate 12 0))

unfoldable pub outer_type_for : Bytes → Bytes
unfolding has_prefix bytes_eq
outer_type_for inner =
    if has_prefix inner (codes "file_")
      || has_prefix inner (codes "dir_")
      || bytes_eq inner type_file_list
      || bytes_eq inner type_req_pending
    then type_enc_file
    else if has_prefix inner (codes "proxy_")
    then type_enc_proxy
    else type_enc_term

unfoldable pub is_encrypted_type : Bytes → Bool
unfolding bytes_eq
is_encrypted_type t =
    bytes_eq t type_enc_term || bytes_eq t type_enc_file || bytes_eq t type_enc_proxy

-- The AEAD to send with; `none` where the code tests `!c.active || c.gcmSend == nil`.
abbrev pub sender : SecureChannel → Option Bytes
sender c = if c.active then c.gcm_send else none

abbrev pub receiver : SecureChannel → Option Bytes
receiver c = if c.active then c.gcm_recv else none

-- `c.sendSeq++` on a uint64
abbrev pub sent : SecureChannel → SecureChannel
sent c = record c { send_seq = (c.send_seq + 1) % u64_mod }

abbrev pub advanced : SecureChannel → ℕ → SecureChannel
advanced c seq = record c { recv_seq = seq; has_recv = true }

-- `c.hasRecv && seq <= c.recvSeq`
abbrev pub is_replay : SecureChannel → ℕ → Bool
is_replay c seq = c.has_recv && leb seq c.recv_seq

module _ (p : Primitives) where
  open p use {seal, unseal, encode, decode, marshal, unmarshal}

  -- `WrapJSON` after `json.Marshal`
  unfoldable pub wrap_text : SecureChannel → Bytes → Bytes → Result Error Message × SecureChannel
  wrap_text c inner_type text = elim (sender c) [
    | none ↦ (err inactive, c)
    | some key ↦ if ltb secure_max_text_payload (length text) then (err too_large, c) else (
      ok (record (message_of (outer_type_for inner_type)) {
        seq = c.send_seq;
        payload = encode (seal key (make_nonce c.send_dir c.send_seq) text);
      }),
      sent c,
    )
  ]

  unfoldable pub wrap_json : SecureChannel → Message → Result Error Message × SecureChannel
  unfolding wrap_text
  wrap_json c inner = elim (marshal inner) [
    | none ↦ (err marshal_failed, c)
    | some text ↦ wrap_text c inner.type text
  ]

  -- The replay test and `AEAD.Open`, which both receiving methods make.
  unfoldable pub open_sealed : SecureChannel → Bytes → ℕ → Bytes → Result Error Bytes
  open_sealed c key seq ct =
      if is_replay c seq
      then err replay
      else elim (unseal key (make_nonce c.recv_dir seq) ct) [ none ↦ err decrypt | some t ↦ ok t ]

  abbrev decoded : Option Message → Result Error Message
  decoded none = err decrypt
  decoded (some m) = ok m

  unfoldable pub unwrap_json : SecureChannel → Message → Result Error Message × SecureChannel
  unfolding open_sealed
  unwrap_json c outer = elim (receiver c) [
    | none ↦ (err inactive, c)
    | some key ↦ elim (decode outer.payload) [
      | none ↦ (err decrypt, c)
      | some ct ↦ elim (open_sealed c key outer.seq ct) [
        | err e ↦ (err e, c)
        | ok text ↦ (decoded (unmarshal text), advanced c outer.seq)
      ]
    ]
  ]

  -- `none` is the nil frame.
  unfoldable pub wrap_binary : SecureChannel → Bytes → Option Bytes × SecureChannel
  wrap_binary c frame = elim (sender c) [
    | none ↦ (none, c)
    | some key ↦ (
      some (
          opcode_secure_binary ∷ put_uint64 c.send_seq
          ++ seal key (make_nonce c.send_dir c.send_seq) frame),
      sent c,
    )
  ]

  unfoldable pub unwrap_binary : SecureChannel → Bytes → Result Error Bytes × SecureChannel
  unfolding open_sealed
  unwrap_binary c frame = elim (receiver c) [
    | none ↦ (err inactive, c)
    | some key ↦
        if ltb (length frame) 10 || not (get_or frame 0 0 == opcode_secure_binary)
        then (err decrypt, c)
        else (let seq = uint64 (take 8 (drop 1 frame)) in
            elim (open_sealed c key seq (drop 9 frame)) [
              | err e ↦ (err e, c)
              | ok text ↦ (ok text, advanced c seq)
            ])
  ]
