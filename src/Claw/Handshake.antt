-- ===== src/Claw/Handshake.antt =====
-- cmd/claw/secure_handshake.go: the daemon's side of the handshake, and the envelope that it puts on
-- the messages it sends and takes off those it receives. A handler runs as one step; the messages that
-- it hands to `sendJSON` come back beside the new state, in order. The timer's function is a step.
pub mod Attempts
pub mod Success
pub mod Envelope
mod Tests
use daemontest.Prelude.{
  ℕ, zero, suc, ◌+◌, Bool, true, false, ◌&&◌, ◌||◌, not, List, [], ◌∷◌, ◌++◌, Option, none, some,
  ◌==◌, ltb, if◌then◌else◌, length, get_or,
}
use daemontest.Prelude.Int.{ℤ, pos, negsuc, ◌+ℤ◌, wrap32, ltb_ℤ}
use daemontest.Prelude.Bytes.{Bytes, codes}
use daemontest.Prelude.Result.{Result, ok, err}
use daemontest.Claw.Protocol.{
  Message, message_of, type_pake_reply, type_sec_ok, type_secure_ready, type_sec_code_error,
  max_sec_code_attempts, is_plaintext_exempt, opcode_secure_binary,
}
use daemontest.Claw.Primitives.{Primitives}
use daemontest.Claw.Channel.{
  SecureChannel, new_secure_channel, reset, wrap_json, unwrap_json, wrap_binary, unwrap_binary,
  is_encrypted_type, dir_c2s, dir_s2c,
}
use daemontest.Claw.Crypto.{Crypto}
use daemontest.Claw.Spake2.{
  Generators, Spake2Error, Spake2State, Spake2Keys, scalar_from_password, new_spake2_state_fixed,
  set_peer_share, point_to_bytes, finish, tag_a, tag_b, verify_tag,
}

-- The fields of `Daemon` that the handshake uses. `exiting` is set when the exit is scheduled.
pub record Daemon : Type 0 where
  pub access_key : Bytes
  pub secure : Option SecureChannel
  pub pake_server : Option Spake2State
  pub pake_sid : Option Bytes
  pub pake_access_key : Bytes
  pub pake_timer : Bool
  pub sec_code_enabled : Bool
  pub sec_code_verified : Bool
  pub sec_code_attempts_left : ℤ
  pub exiting : Bool

abbrev pub default_sec_code : Bytes
default_sec_code = codes "000000"

-- The code of a handshake, of what `LoadSecurityCode` returns.
abbrev pub pake_password : Bytes → Bytes
pake_password code = if length code == 0 then default_sec_code else code

-- `pakeTimer` stopped, and the slot of the handshake emptied.
unfoldable pub without_pake : Daemon → Daemon
without_pake d = record d { pake_timer = false; pake_server = none; pake_sid = none }

-- The function of the timer.
unfoldable pub time_out : Daemon → Daemon
time_out d = record d { pake_server = none; pake_sid = none }

unfoldable pub reset_secure : Daemon → Daemon
unfolding without_pake
reset_secure d = record (without_pake d) { secure = none }

-- Of a new peer.
unfoldable pub peer_online : Daemon → Daemon
unfolding reset_secure
peer_online d = record (reset_secure d) { sec_code_verified = false }

unfoldable pub secure_active : Daemon → Bool
secure_active d = elim d.secure [ none ↦ false | some c ↦ c.active ]

unfoldable pub rejected : Daemon → Daemon × List Message
rejected d =
    let left = wrap32 (d.sec_code_attempts_left +ℤ negsuc 0) in
    if d.sec_code_enabled
    then (
      record d { sec_code_attempts_left = left; exiting = d.exiting || not (ltb_ℤ (pos 0) left) },
      record (message_of type_sec_code_error) { remaining_attempts = left } ∷ [],
    )
    else (
      d,
      record (message_of type_sec_code_error) { remaining_attempts = pos max_sec_code_attempts }
          ∷ [],
    )

module _ (p : Primitives) (c : Crypto) (g : Generators) where
  open p use {encode, decode}

  -- `NewSpake2Server` and `SetPeerShare`; `scalar` is the random scalar, `none` where drawing it fails.
  unfoldable pub start_server : Bytes → Option ℕ → Bytes → Option Spake2State
  unfolding scalar_from_password new_spake2_state_fixed set_peer_share
  start_server code none pa = none
  start_server code (some scalar) pa =
      elim (new_spake2_state_fixed c g false (scalar_from_password c code) scalar) [
        | err e ↦ none
        | ok s ↦ elim (set_peer_share c g s pa) [ err e ↦ none | ok server ↦ some server ]
      ]

  -- `code` is what `LoadSecurityCode` returns.
  unfoldable pub handle_pake_start : Bytes → Option ℕ → Message → Daemon → Daemon × List Message
  unfolding start_server
  handle_pake_start code scalar msg d = elim (decode msg.pa) [
    | none ↦ (d, [])
    | some pa ↦ elim (decode msg.sid) [
      | none ↦ (d, [])
      | some sid ↦
          elim (if length sid == 16 then start_server (pake_password code) scalar pa else none) [
            | none ↦ (d, [])
            | some server ↦ (
              record d {
                pake_server = some server;
                pake_sid = some sid;
                pake_access_key = d.access_key;
                pake_timer = true;
              },
              record (message_of type_pake_reply) {
                sid = msg.sid;
                pb = encode (point_to_bytes server.share);
              }
                  ∷ [],
            )
          ]
    ]
  ]

  -- The keys and the transcript, if the tag is right.
  unfoldable pub confirmed :
      Result Spake2Error Spake2Keys × Spake2State → Bytes → Option (Spake2Keys × Bytes)
  unfolding tag_a verify_tag
  confirmed (err e, s) tag = none
  confirmed (ok keys, s) tag = elim (decode tag) [
    | none ↦ none
    | some t ↦ elim s.tt [
      | none ↦ none
      | some tt ↦
          if length t == 16 && verify_tag c t (tag_a c keys tt) then some (keys, tt) else none
    ]
  ]

  unfoldable pub accepted : Spake2Keys → Bytes → Daemon → Daemon × List Message
  unfolding new_secure_channel tag_b
  accepted keys tt d = elim (new_secure_channel keys.ks2c keys.kc2s dir_s2c dir_c2s) [
    | err e ↦ (d, [])
    | ok sc ↦ (
      record d {
        secure = some sc;
        sec_code_verified = true;
        sec_code_attempts_left = pos max_sec_code_attempts;
      },
      record (message_of type_sec_ok) { tag_b = encode (tag_b c keys tt) }
          ∷ message_of type_secure_ready
          ∷ [],
    )
  ]

  unfoldable pub handle_sec_confirm : Message → Daemon → Daemon × List Message
  unfolding confirmed rejected accepted finish without_pake
  handle_sec_confirm msg d = elim d.pake_server [
    | none ↦ (d, [])
    | some server ↦ elim d.pake_sid [
      | none ↦ (d, [])
      | some sid ↦ elim (confirmed (finish c g server sid d.pake_access_key) msg.tag_a) [
        | none ↦ rejected (without_pake d)
        | some (keys, tt) ↦ accepted keys tt (without_pake d)
      ]
    ]
  ]

-- The daemon with a channel that a method has changed.
abbrev with_channel : {A : Type 0} → Daemon → A × SecureChannel → A × Daemon
with_channel d (a, c) = (a, record d { secure = some c })

abbrev if_ok : {A E : Type 0} → Result E A → Option A
if_ok (ok m) = some m
if_ok (err e) = none

module _ (p : Primitives) where
  -- `none` is a message dropped.
  unfoldable pub wrap_outgoing_json : Message → Daemon → Option Message × Daemon
  unfolding secure_active is_plaintext_exempt wrap_json
  wrap_outgoing_json msg d = elim d.secure [
    | none ↦ (some msg, d)
    | some sc ↦
        if not sc.active || is_plaintext_exempt msg.type
        then (some msg, d)
        else (let r = with_channel d (wrap_json p sc msg) in (if_ok r.0, r.1))
  ]

  unfoldable pub unwrap_incoming_json : Message → Daemon → Option Message × Daemon
  unfolding is_encrypted_type unwrap_json
  unwrap_incoming_json msg d =
      if not (is_encrypted_type msg.type) then (some msg, d) else (elim d.secure [
        | none ↦ (none, d)
        | some sc ↦
            if not sc.active
            then (none, d)
            else (let r = with_channel d (unwrap_json p sc msg) in (if_ok r.0, r.1))
      ])

  -- `none` is the nil frame.
  unfoldable pub wrap_outgoing_binary : Bytes → Daemon → Option Bytes × Daemon
  unfolding secure_active wrap_binary
  wrap_outgoing_binary frame d = elim d.secure [
    | none ↦ (some frame, d)
    | some sc ↦ if not sc.active then (some frame, d) else with_channel d (wrap_binary p sc frame)
  ]

  unfoldable pub unwrap_incoming_binary : Bytes → Daemon → Option Bytes × Daemon
  unfolding secure_active unwrap_binary
  unwrap_incoming_binary frame d =
      if ltb 0 (length frame) && get_or frame 0 0 == opcode_secure_binary
      then (elim d.secure [
        | none ↦ (none, d)
        | some sc ↦
            if not sc.active
            then (none, d)
            else (let r = with_channel d (unwrap_binary p sc frame) in (if_ok r.0, r.1))
      ])
      else if secure_active d
      then (none, d)
      else (some frame, d)
