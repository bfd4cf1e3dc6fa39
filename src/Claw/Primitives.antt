-- ===== src/Claw/Primitives.antt =====
-- What the secure channel takes from Go's libraries and does not implement: AES-GCM (crypto/cipher),
-- the JSON codec and base64. The laws are the ones that their documentation gives.
use daemontest.Prelude.{ℕ, ◌+◌, ◌<◌, ◌≡◌, false, List, Option, some, length, All}
use daemontest.Prelude.Bytes.{Bytes}
use daemontest.Xterm.TextDecoder.{is_surrogate}
use daemontest.Xterm.TextDecoder.RoundTrip.{utf8_all}
use daemontest.Claw.Protocol.{Message}

-- Valid UTF-8: the encoding of code points that are no surrogates.
abbrev pub IsUtf8 : Bytes → Type 0
IsUtf8 b =
    (cs : List ℕ) × All (λ c. (c < 0x110000) × (is_surrogate c ≡ false)) cs × (utf8_all cs ≡ b)

-- The strings of a message are valid UTF-8; `json.Marshal` replaces what is not by U+FFFD.
pub record IsText (m : Message) : Type 0 where
  pub type_text : IsUtf8 m.type
  pub reason_text : IsUtf8 m.reason
  pub session_id_text : IsUtf8 m.session_id
  pub payload_text : IsUtf8 m.payload
  pub sid_text : IsUtf8 m.sid
  pub pa_text : IsUtf8 m.pa
  pub pb_text : IsUtf8 m.pb
  pub tag_a_text : IsUtf8 m.tag_a
  pub tag_b_text : IsUtf8 m.tag_b

pub record Primitives : Type 0 where
  -- `AEAD.Seal` and `AEAD.Open` of the cipher with a key: key, nonce, text. The additional data is nil.
  pub seal : Bytes → Bytes → Bytes → Bytes
  pub unseal : Bytes → Bytes → Bytes → Option Bytes
  -- `base64.StdEncoding`
  pub encode : Bytes → Bytes
  pub decode : Bytes → Option Bytes
  -- `json.Marshal` and `json.Unmarshal` at `Message`
  pub marshal : Message → Option Bytes
  pub unmarshal : Bytes → Option Message
  pub unseal-seal : (key nonce text : Bytes) → unseal key nonce (seal key nonce text) ≡ some text
  pub length-seal : (key nonce text : Bytes) → length (seal key nonce text) ≡ length text + 16
  pub decode-encode : (b : Bytes) → decode (encode b) ≡ some b
  pub unmarshal-marshal :
      (m : Message) (b : Bytes) → IsText m → marshal m ≡ some b → unmarshal b ≡ some m
