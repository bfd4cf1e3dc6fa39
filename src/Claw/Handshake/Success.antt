-- ===== src/Claw/Handshake/Success.antt =====
-- The handshake of cmd/claw/secure_handshake.go with an app that knows the security code.
use daemontest.Prelude.{
  ℕ, ◌<◌, ◌≡◌, refl, sym, ap, ◌∙◌, true, false, [], ◌∷◌, Option, some, arith, length,
}
use daemontest.Prelude.Int.{pos}
use daemontest.Prelude.Bytes.{Bytes, codes, bytes_eq_iff}
use daemontest.Prelude.Result.{ok}
use daemontest.Claw.Protocol.{
  Message, message_of, type_pake_reply, type_sec_ok, type_secure_ready, max_sec_code_attempts,
}
use daemontest.Claw.Primitives.{Primitives}
use daemontest.Claw.Channel.{SecureChannel, new_secure_channel, new_gcm, dir_c2s, dir_s2c}
use daemontest.Claw.Crypto.{Crypto, Lawful}
use daemontest.Claw.Spake2.{
  EcPoint, Generators, Spake2State, Spake2Keys, scalar_from_password, point_from_bytes,
  point_to_bytes, share_for, set_peer_share, finish, tag_a, tag_b, verify_tag,
}
use daemontest.Claw.Spake2.Keys.{length-take}
use daemontest.Claw.Spake2.Sides.{
  met, new_spake2_state_fixed-fresh, share_bytes, side, share_bytes-share_for,
}
use daemontest.Claw.Spake2.Agreement.{point_from_bytes-valid, CanMeet, met-agree, side-FinishedWith}
use daemontest.Claw.Handshake.{
  Daemon, without_pake, start_server, handle_pake_start, confirmed, accepted, handle_sec_confirm,
  pake_password,
}

module _ (p : Primitives) (c : Crypto) (g : Generators) where
  open p use {encode, decode, decode-encode}

  start_server-met :
      (code : Bytes) (y : ℕ) (pa : Bytes) (q : EcPoint)
      → 0 < scalar_from_password c code
      → 0 < y
      → point_from_bytes c pa ≡ ok q
      → start_server p c g code (some y) pa ≡ some (met c g false (scalar_from_password c code) y q)
  unfolding start_server set_peer_share
  start_server-met code y pa q hw hy e =
      rw
        (
          new_spake2_state_fixed-fresh c g false (scalar_from_password c code) y hw hy,
          e,
          start_server,
          set_peer_share,
        )
        refl

  -- The daemon with a handshake under way.
  abbrev waiting : Spake2State → Bytes → Daemon → Daemon
  waiting server sid d = record d {
    pake_server = some server;
    pake_sid = some sid;
    pake_access_key = d.access_key;
    pake_timer = true;
  }

  abbrev pub start_message : Bytes → Bytes → Message
  start_message sid pa = record (message_of (codes "pake_start")) {
    sid = encode sid;
    pa = encode pa;
  }

  abbrev pub reply_message : Bytes → Bytes → Message
  reply_message sid pb = record (message_of type_pake_reply) { sid = encode sid; pb = encode pb }

  abbrev pub confirm_message : Bytes → Message
  confirm_message tag = record (message_of (codes "sec_confirm")) { tag_a = encode tag }

  handle_pake_start-waiting :
      (code : Bytes) (y : Option ℕ) (sid pa : Bytes) (d : Daemon) {server : Spake2State}
      → length sid ≡ 16
      → start_server p c g (pake_password code) y pa ≡ some server
      → handle_pake_start p c g code y (start_message sid pa) d
        ≡ (waiting server sid d, reply_message sid (point_to_bytes server.share) ∷ [])
  unfolding handle_pake_start
  handle_pake_start-waiting code y sid pa d h e =
      rw (decode-encode pa, decode-encode sid, h, e, handle_pake_start) refl

  confirmed-right :
      (keys : Spake2Keys) (tt : Bytes) (s : Spake2State)
      → s.tt ≡ some tt
      → length (tag_a c keys tt) ≡ 16
      → confirmed p c g (ok keys, s) (encode (tag_a c keys tt)) ≡ some (keys, tt)
  unfolding confirmed verify_tag
  confirmed-right keys tt s e h =
      rw
        (
          decode-encode (tag_a c keys tt),
          e,
          h,
          (bytes_eq_iff (tag_a c keys tt) (tag_a c keys tt)).1 refl,
          confirmed,
          verify_tag,
        )
        refl

  handle_sec_confirm-right :
      (d : Daemon) (server : Spake2State) (sid : Bytes) (keys : Spake2Keys) (tt : Bytes)
      {s : Spake2State}
      → finish c g server sid d.access_key ≡ (ok keys, s)
      → s.tt ≡ some tt
      → length (tag_a c keys tt) ≡ 16
      → handle_sec_confirm p c g (confirm_message (tag_a c keys tt)) (waiting server sid d)
        ≡ accepted p c g keys tt (without_pake (waiting server sid d))
  unfolding handle_sec_confirm
  handle_sec_confirm-right d server sid keys tt {s} f e h =
      rw (f, confirmed-right keys tt s e h, handle_sec_confirm) refl

  pub new_secure_channel_ok :
      (k1 k2 d1 d2 : Bytes)
      → length k1 ≡ 32
      → length k2 ≡ 32
      → (sc : SecureChannel) × (new_secure_channel k1 k2 d1 d2 ≡ ok sc)
  unfolding new_secure_channel new_gcm
  new_secure_channel_ok k1 k2 d1 d2 h1 h2 = (
    record {
      active = true;
      send_key = k1;
      recv_key = k2;
      send_dir = d1;
      recv_dir = d2;
      gcm_send = some k1;
      gcm_recv = some k2;
      send_seq = 0;
      recv_seq = 0;
      has_recv = false;
    },
    rw (h1, h2, new_secure_channel, new_gcm) refl,
  )

  accepted_ok :
      (keys : Spake2Keys) (tt : Bytes) (d : Daemon) {sc : SecureChannel}
      → new_secure_channel keys.ks2c keys.kc2s dir_s2c dir_c2s ≡ ok sc
      → accepted p c g keys tt d ≡ (
        record d {
          secure = some sc;
          sec_code_verified = true;
          sec_code_attempts_left = pos max_sec_code_attempts;
        },
        record (message_of type_sec_ok) { tag_b = encode (tag_b c keys tt) }
            ∷ message_of type_secure_ready
            ∷ [],
      )
  unfolding accepted
  accepted_ok keys tt d e = rw (e, accepted) refl

  -- What a handshake with an app comes to: the reply to `pake_start`, the keys and transcript of the
  -- app, the channels for the two ends, and the daemon after `sec_confirm` with what it sends.
  abbrev pub Agrees : Bytes → Daemon → ℕ → ℕ → Bytes → Type 0
  Agrees code d x y sid =
      let w = scalar_from_password c (pake_password code) in
      let pa = share_bytes c g true w x in
      let pb = share_bytes c g false w y in
      let r = handle_pake_start p c g code (some y) (start_message sid pa) d in
      (keys : Spake2Keys) × (tt : Bytes) × (app : SecureChannel) × (daemon : SecureChannel) × (r.1
        ≡ reply_message sid pb ∷ [])
      × (side c g true w x pb sid d.access_key ≡ some (keys, some tt))
      × (new_secure_channel keys.kc2s keys.ks2c dir_c2s dir_s2c ≡ ok app)
      × (new_secure_channel keys.ks2c keys.kc2s dir_s2c dir_c2s ≡ ok daemon)
      × (handle_sec_confirm p c g (confirm_message (tag_a c keys tt)) r.0 ≡ (
        record (without_pake r.0) {
          secure = some daemon;
          sec_code_verified = true;
          sec_code_attempts_left = pos max_sec_code_attempts;
        },
        record (message_of type_sec_ok) { tag_b = p.encode (tag_b c keys tt) }
            ∷ message_of type_secure_ready
            ∷ [],
      ))

length-tag_a :
    (c : Crypto) (l : Lawful c) (keys : Spake2Keys) (tt : Bytes) → length (tag_a c keys tt) ≡ 16
unfolding tag_a
length-tag_a c l keys tt =
    length-take 16 (c.hmac keys.kca tt) (omega (arith, l.length-hmac keys.kca tt))

module _ (p : Primitives) (c : Crypto) (l : Lawful c) (g : Generators) where
  -- A handshake with an app that uses the daemon's security code (or the public default, if it has
  -- none), the access key and a session id of 16 bytes: the daemon answers `pake_start` with its share;
  -- with that share the app computes the keys and the transcript, and to the `sec_confirm` with their
  -- tag the daemon answers `sec_ok`, with its own tag of them, and `secure_ready`; it then has the
  -- channel of these keys and its full attempt budget, and the app can build the channel for the other
  -- end; if the generators are on the curve, the scalars are above 0 and below the order of the group,
  -- and neither share is the point at infinity.
  pub handshake-agree :
      (code : Bytes) (d : Daemon) (x y : ℕ) (sid : Bytes)
      → CanMeet c l g (scalar_from_password c (pake_password code)) x y
      → length sid ≡ 16
      → Agrees p c g code d x y sid
  handshake-agree code d x y sid m h =
      let w = scalar_from_password c (pake_password code) in
      let a = share_for c g true w x in
      let b = share_for c g false w y in
      let server = met c g false w y a in
      let (keys, tt, len, fc, fs) = met-agree c l g w x y sid d.access_key m in
      let (app, ea) =
        new_secure_channel_ok p c g keys.kc2s keys.ks2c dir_c2s dir_s2c len.kc2s_32 len.ks2c_32 in
      let (daemon, ed) =
        new_secure_channel_ok p c g keys.ks2c keys.kc2s dir_s2c dir_c2s len.ks2c_32 len.kc2s_32 in
      let start =
        ap (λ pa. handle_pake_start p c g code (some y) (start_message p c g sid pa) d)
          (share_bytes-share_for c g true w x m.w_pos m.x_pos)
        ∙ handle_pake_start-waiting p c g code (some y) sid (point_to_bytes a) d h (
            start_server-met p c g (pake_password code) y (point_to_bytes a) a m.w_pos m.y_pos
              (point_from_bytes-valid c l a m.client_valid)) in
      (
        keys,
        tt,
        app,
        daemon,
        ap (λ r. r.1) start
            ∙ ap (λ pb. reply_message p c g sid pb ∷ [])
                (sym (share_bytes-share_for c g false w y m.w_pos m.y_pos)),
        side-FinishedWith c l g true w x y sid d.access_key m fc,
        ea,
        ed,
        ap (λ r. handle_sec_confirm p c g (confirm_message p c g (tag_a c keys tt)) r.0) start
            ∙ handle_sec_confirm-right p c g d server sid keys tt fs refl (length-tag_a c l keys tt)
            ∙ accepted_ok p c g keys tt (without_pake (waiting p c g server sid d)) ed
            ∙ ap
                (λ r. (
                  record (without_pake r.0) {
                    secure = some daemon;
                    sec_code_verified = true;
                    sec_code_attempts_left = pos max_sec_code_attempts;
                  },
                  record (message_of type_sec_ok) { tag_b = p.encode (tag_b c keys tt) }
                      ∷ message_of type_secure_ready
                      ∷ [],
                ))
                (sym start),
      )
