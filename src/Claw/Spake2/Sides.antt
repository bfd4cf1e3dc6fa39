-- ===== src/Claw/Spake2/Sides.antt =====
-- One side of an exchange of cmd/claw/spake2.go, from its scalars to its keys.
use daemontest.Prelude.{ℕ, ◌<◌, ◌≡◌, refl, Bool, true, false, [], Option, none, some, arith}
use daemontest.Prelude.Bytes.{Bytes}
use daemontest.Prelude.Result.{Result, ok, err}
use daemontest.Claw.Crypto.{Crypto}
use daemontest.Claw.Spake2.{
  EcPoint, Spake2Error, Spake2Keys, Spake2State, Generators, point_to_bytes, point_from_bytes,
  valid, derive_spake2_keys, share_for, new_spake2_state_fixed, set_peer_share, shared_secret,
  transcript_of, finish, k_main_from_z,
}

-- What one side of an exchange ends with: the keys and the transcript; `none` if a step fails.
module _ (c : Crypto) (g : Generators) where
  unfoldable pub share_bytes : Bool → ℕ → ℕ → Bytes
  unfolding new_spake2_state_fixed point_to_bytes
  share_bytes client w scalar = elim (new_spake2_state_fixed c g client w scalar) [
    | err e ↦ []
    | ok s ↦ point_to_bytes s.share
  ]

  unfoldable pub outcome :
      Result Spake2Error Spake2Keys × Spake2State → Option (Spake2Keys × Option Bytes)
  outcome (err e, s) = none
  outcome (ok k, s) = some (k, s.tt)

  finished : Result Spake2Error Spake2State → Bytes → Bytes → Option (Spake2Keys × Option Bytes)
  finished (err e) sid accesskey = none
  finished (ok s) sid accesskey = outcome (finish c g s sid accesskey)

  unfoldable pub side : Bool → ℕ → ℕ → Bytes → Bytes → Bytes → Option (Spake2Keys × Option Bytes)
  unfolding new_spake2_state_fixed finished outcome
  side client w scalar peer sid accesskey = elim (new_spake2_state_fixed c g client w scalar) [
    | err e ↦ none
    | ok s ↦ finished (set_peer_share c g s peer) sid accesskey
  ]

  -- The state of a side that has its peer's share.
  abbrev pub met : Bool → ℕ → ℕ → EcPoint → Spake2State
  met client w scalar q = record {
    client = client;
    w = w;
    scalar = scalar;
    share = share_for c g client w scalar;
    peer = q;
    has_peer = true;
    sid = [];
    accesskey = [];
    tt = none;
  }

  pub finish-met :
      (client : Bool) (w scalar : ℕ) (q : EcPoint) (sid accesskey : Bytes) {keys : Spake2Keys}
      → let s = met client w scalar q in
        let tt = transcript_of c g s sid accesskey in
        valid c (shared_secret c g s) ≡ true
        → derive_spake2_keys c (k_main_from_z c (shared_secret c g s) tt) ≡ ok keys
        → finish c g s sid accesskey
          ≡ (ok keys, record s { sid = sid; accesskey = accesskey; tt = some tt })
  unfolding finish
  finish-met client w scalar q sid accesskey v e = rw (v, e) refl

  abbrev pub fresh : Bool → ℕ → ℕ → Spake2State
  fresh client w scalar = record (met client w scalar none) { has_peer = false }

  pub new_spake2_state_fixed-fresh :
      (client : Bool) (w scalar : ℕ)
      → 0 < w
      → 0 < scalar
      → new_spake2_state_fixed c g client w scalar ≡ ok (fresh client w scalar)
  unfolding new_spake2_state_fixed
  new_spake2_state_fixed-fresh client w scalar hw hs = ground arith

  pub side-met :
      (client : Bool) (w scalar : ℕ) (peer : Bytes) (q : EcPoint) (sid accesskey : Bytes)
      → 0 < w
      → 0 < scalar
      → point_from_bytes c peer ≡ ok q
      → side client w scalar peer sid accesskey
        ≡ outcome (finish c g (met client w scalar q) sid accesskey)
  unfolding side set_peer_share finished
  side-met client w scalar peer q sid accesskey hw hs e =
      rw (new_spake2_state_fixed-fresh client w scalar hw hs, e, side, set_peer_share) refl

  pub share_bytes-share_for :
      (client : Bool) (w scalar : ℕ)
      → 0 < w
      → 0 < scalar
      → share_bytes client w scalar ≡ point_to_bytes (share_for c g client w scalar)
  unfolding share_bytes new_spake2_state_fixed
  share_bytes-share_for client w scalar hw hs = ground arith
