-- ===== src/Claw/Spake2.antt =====
-- cmd/claw/spake2.go: the password-authenticated key exchange of the handshake. A nil coordinate pair
-- is `none`; a scalar that the code draws at random is an argument.
pub mod Points
pub mod Keys
pub mod Sides
pub mod Agreement
pub mod Roots
use daemontest.Prelude.{
  ℕ, zero, suc, ◌+◌, ◌-◌, ◌*◌, ◌/◌, ◌%◌, ◌^◌, Bool, true, false, ◌&&◌, ◌||◌, not, List, [], ◌∷◌,
  ◌++◌, Option, none, some, ltb, ◌==◌, if◌then◌else◌, length, take, drop, get_or, replicate,
}
use daemontest.Prelude.Bytes.{Bytes, codes, bytes_eq}
use daemontest.Prelude.Result.{Result, ok, err}
use daemontest.Claw.Crypto.{Crypto, Coordinates}

pub data Spake2Error : Type 0 where
  malformed_point not_on_curve no_point expand_too_long bad_scalar peer_not_set bad_shared_secret :
      Spake2Error

abbrev pub EcPoint : Type 0
EcPoint = Option Coordinates

-- `FillBytes` of a buffer of `n` bytes, for a number below `256 ^ n`
unfoldable pub fill_bytes : ℕ → ℕ → Bytes
fill_bytes zero x = []
fill_bytes (suc n) x = fill_bytes n (x / 256) ++ (x % 256) ∷ []

-- `SetBytes`, with the number read so far
unfoldable pub bytes_onto : ℕ → Bytes → ℕ
bytes_onto acc [] = acc
bytes_onto acc (b ∷ bs) = bytes_onto (acc * 256 + b) bs

unfoldable pub set_bytes : Bytes → ℕ
unfolding bytes_onto
set_bytes = bytes_onto 0

-- Of a point that is not nil.
unfoldable pub point_to_bytes : EcPoint → Bytes
point_to_bytes none = []
point_to_bytes (some (x, y)) = 4 ∷ fill_bytes 32 x ++ fill_bytes 32 y

-- The square root in `hashToPoint`; `none` where `a` is not a square.
unfoldable pub mod_sqrt : ℕ → ℕ → Option ℕ
mod_sqrt a p = if a ^ ((p - 1) / 2) % p == 1 then some (a ^ ((p + 1) / 4) % p) else none

pub record Generators : Type 0 where
  pub m : EcPoint
  pub n : EcPoint

pub record Spake2Keys : Type 0 where
  pub kca : Bytes
  pub kcd : Bytes
  pub kc2s : Bytes
  pub ks2c : Bytes

pub record Spake2State : Type 0 where
  pub client : Bool
  pub w : ℕ
  pub scalar : ℕ
  pub share : EcPoint
  pub peer : EcPoint
  pub has_peer : Bool
  pub sid : Bytes
  pub accesskey : Bytes
  pub tt : Option Bytes

-- `writeLen2` and the bytes behind it
unfoldable pub with_len2 : Bytes → Bytes
with_len2 b = (length b / 2 ^ 8 % 256) ∷ (length b % 256) ∷ b

unfoldable pub build_transcript : Bytes → Bytes → EcPoint → EcPoint → Bytes
unfolding with_len2
build_transcript sid accesskey a b =
    codes "CAW-SPAKE2-v1"
    ++ with_len2 sid
    ++ with_len2 (codes "client")
    ++ with_len2 (codes "server")
    ++ 0 ∷ with_len2 (point_to_bytes a)
    ++ 1 ∷ with_len2 (point_to_bytes b)
    ++ with_len2 accesskey

module _ (c : Crypto) where
  unfoldable pub valid : EcPoint → Bool
  valid none = false
  valid (some q) = c.is_on_curve q

  unfoldable pub point_neg : EcPoint → EcPoint
  point_neg none = none
  point_neg (some (x, y)) = some (x, c.p - y)

  unfoldable pub point_add : EcPoint → EcPoint → EcPoint
  point_add none q = q
  point_add (some a) none = some a
  point_add (some a) (some b) = some (c.add a b)

  unfoldable pub point_sub : EcPoint → EcPoint → EcPoint
  unfolding point_neg point_add
  point_sub a b = point_add a (point_neg b)

  unfoldable pub point_scalar : EcPoint → ℕ → EcPoint
  point_scalar none k = none
  point_scalar (some q) k = some (c.scalar_mult q k)

  unfoldable pub point_base_scalar : ℕ → EcPoint
  point_base_scalar k = some (c.scalar_base_mult k)

  unfoldable pub point_from_bytes : Bytes → Result Spake2Error EcPoint
  unfolding set_bytes valid
  point_from_bytes b =
      let q = some (set_bytes (take 32 (drop 1 b)), set_bytes (take 32 (drop 33 b))) in
      if not (length b == 65) || not (get_or b 0 0 == 4)
      then err malformed_point
      else if valid q
      then ok q
      else err not_on_curve

  -- `x³ - 3x + b` modulo `p`, for an `x` below `p`
  unfoldable pub curve_rhs : ℕ → ℕ
  curve_rhs x = (x * x * x + 3 * c.p - 3 * x + c.b) % c.p

  -- The loop of `hashToPoint` from the counter `i` on, with `n` rounds left.
  unfoldable pub hash_rounds : Bytes → ℕ → ℕ → Result Spake2Error EcPoint
  unfolding set_bytes curve_rhs mod_sqrt
  hash_rounds seed i zero = err no_point
  hash_rounds seed i (suc n) =
      let rest = hash_rounds seed (i + 1) n in
      let x = set_bytes (c.sha256 (seed ++ i ∷ [])) % c.p in
      elim (mod_sqrt (curve_rhs x) c.p) [ none ↦ rest | some y ↦ ok (some (x, y)) ]

  unfoldable pub hash_to_point : Bytes → Result Spake2Error EcPoint
  unfolding hash_rounds
  hash_to_point seed = hash_rounds seed 0 256

  unfoldable pub scalar_from_password : Bytes → ℕ
  unfolding set_bytes
  scalar_from_password code = set_bytes (c.sha256 (codes "caw.v1:" ++ code)) % c.n

  unfoldable pub hkdf_extract : Bytes → Bytes → Bytes
  hkdf_extract secret [] = c.hmac (replicate 32 0) secret
  hkdf_extract secret (b ∷ salt) = c.hmac (b ∷ salt) secret

  -- The loop of `hkdfExpand` from the counter `256 - fuel` on: the counter 255 ends it.
  unfoldable pub expand_rounds : ℕ → Bytes → Bytes → ℕ → Bytes → Bytes → Result Spake2Error Bytes
  expand_rounds zero prk info n t out = err expand_too_long
  expand_rounds (suc fuel) prk info n t out =
      let t' = c.hmac prk (t ++ info ++ (255 - fuel) ∷ []) in
      let rest = expand_rounds fuel prk info n t' (out ++ t') in
      if ltb (length out) n
      then (if fuel == 0 then err expand_too_long else rest)
      else ok (take n out)

  unfoldable pub hkdf_expand : Bytes → Bytes → ℕ → Result Spake2Error Bytes
  unfolding expand_rounds
  hkdf_expand prk info n = expand_rounds 255 prk info n [] []

  unfoldable pub keys_of : Bytes → Spake2Keys
  keys_of okm = record {
    kca = take 32 okm;
    kcd = take 32 (drop 32 okm);
    kc2s = take 32 (drop 64 okm);
    ks2c = take 32 (drop 96 okm);
  }

  unfoldable pub derive_spake2_keys : Bytes → Result Spake2Error Spake2Keys
  unfolding hkdf_extract hkdf_expand keys_of
  derive_spake2_keys k_main =
      elim (hkdf_expand (hkdf_extract k_main (codes "caw.v1.keys")) (codes "caw-secure-channel")
        128) [ ok okm ↦ ok (keys_of okm) | err e ↦ err e ]

  unfoldable pub k_main_from_z : EcPoint → Bytes → Bytes
  unfolding point_to_bytes
  k_main_from_z z tt = c.sha256 (point_to_bytes z ++ tt)

  unfoldable pub tag_a : Spake2Keys → Bytes → Bytes
  tag_a k tt = take 16 (c.hmac k.kca tt)

  unfoldable pub tag_b : Spake2Keys → Bytes → Bytes
  tag_b k tt = take 16 (c.hmac k.kcd tt)

  unfoldable pub verify_tag : Bytes → Bytes → Bool
  unfolding bytes_eq
  verify_tag actual expected = bytes_eq actual expected

  module _ (g : Generators) where
    unfoldable pub share_for : Bool → ℕ → ℕ → EcPoint
    unfolding point_add point_base_scalar point_scalar
    share_for client w scalar =
        point_add (point_base_scalar scalar) (point_scalar (if client then g.m else g.n) w)

    unfoldable pub new_spake2_state_fixed : Bool → ℕ → ℕ → Result Spake2Error Spake2State
    unfolding share_for
    new_spake2_state_fixed client w scalar =
        if w == 0 || scalar == 0
        then err bad_scalar
        else ok (record {
          client = client;
          w = w;
          scalar = scalar;
          share = share_for client w scalar;
          peer = none;
          has_peer = false;
          sid = [];
          accesskey = [];
          tt = none;
        })

    unfoldable pub set_peer_share : Spake2State → Bytes → Result Spake2Error Spake2State
    unfolding point_from_bytes
    set_peer_share s peer = elim (point_from_bytes peer) [
      | ok q ↦ ok (record s { peer = q; has_peer = true })
      | err e ↦ err e
    ]

    -- `scalar·(peerShare − w·opponentGenerator)`
    unfoldable pub shared_secret : Spake2State → EcPoint
    unfolding point_scalar point_sub
    shared_secret s =
        point_scalar (point_sub s.peer (point_scalar (if s.client then g.n else g.m) s.w)) s.scalar

    unfoldable pub transcript_of : Spake2State → Bytes → Bytes → Bytes
    transcript_of s sid accesskey =
        if s.client
        then build_transcript sid accesskey s.share s.peer
        else build_transcript sid accesskey s.peer s.share

    unfoldable pub finish :
        Spake2State → Bytes → Bytes → Result Spake2Error Spake2Keys × Spake2State
    unfolding shared_secret transcript_of k_main_from_z derive_spake2_keys valid
    finish s sid accesskey =
        let tt = transcript_of s sid accesskey in
        let z = shared_secret s in
        if not s.has_peer
        then (err peer_not_set, s)
        else if not (valid z)
        then (err bad_shared_secret, s)
        else (
          derive_spake2_keys (k_main_from_z z tt),
          record s { sid = sid; accesskey = accesskey; tt = some tt },
        )
