-- ===== src/Claw/Spake2/Agreement.antt =====
-- The two sides of an exchange of cmd/claw/spake2.go.
use daemontest.Prelude.{
  ℕ, ◌+◌, ◌*◌, ◌%◌, ◌^◌, ◌<◌, ◌≡◌, ◌≢◌, sym, ap, ◌∙◌, Bool, true, false, not, subst, none, some,
  arith, if◌then◌else◌,
}
use native.Mathlib.Nat.{mul_comm}
use daemontest.Prelude.Bytes.{Bytes}
use daemontest.Prelude.Result.{ok}
use daemontest.Claw.Crypto.{Crypto, Lawful}
use daemontest.Claw.Spake2.{
  EcPoint, Spake2Keys, Generators, point_to_bytes, point_from_bytes, valid, point_scalar, point_sub,
  point_add, point_base_scalar, derive_spake2_keys, share_for, shared_secret, transcript_of,
  build_transcript, finish, k_main_from_z,
}
use daemontest.Claw.Spake2.Keys.{HasKeyLengths, derives}
use daemontest.Claw.Spake2.Points.{point_from_bytes-point_to_bytes, unmasked, masked}
use daemontest.Claw.Spake2.Sides.{
  share_bytes, outcome, side, met, finish-met, side-met, share_bytes-share_for,
}

valid-multiple :
    (c : Crypto) (l : Lawful c) (q : EcPoint)
    → valid c q ≡ true
    → (a : ℕ) × (0 < a) × (a < c.n) × (q ≡ some (l.multiple a))
unfolding valid
valid-multiple c l none v = absurd (ground arith)
valid-multiple c l (some q) v = let (a, lo, hi, e) = l.onto q v in (a, lo, hi, ap some e)

valid_on : (c : Crypto) (l : Lawful c) (a : ℕ) → a % c.n ≢ 0 → valid c (some (l.multiple a)) ≡ true
unfolding valid
valid_on c l a h = l.on a h

pub point_from_bytes-valid :
    (c : Crypto) (l : Lawful c) (q : EcPoint)
    → valid c q ≡ true
    → point_from_bytes c (point_to_bytes q) ≡ ok q
unfolding valid
point_from_bytes-valid c l none v = absurd (ground arith)
point_from_bytes-valid c l (some q) v =
    let (a, lo, hi, e) = l.onto q v in
    point_from_bytes-point_to_bytes c q (subst (λ r. r.0 < 256 ^ 32) (sym e) (l.x_small a))
      (subst (λ r. r.1 < 256 ^ 32) (sym e) (l.y_small a)) v

scaled :
    (c : Crypto) (l : Lawful c) (m w : ℕ)
    → point_scalar c (some (l.multiple m)) w ≡ some (l.multiple (m * w))
unfolding point_scalar
scaled c l m w = ap some (l.scalar m w)

-- A side takes the other's mask away and is left with the product of the scalars.
secret :
    (c : Crypto) (l : Lawful c) (q : EcPoint) (w s t : ℕ)
    → valid c q ≡ true
    → 0 < w
    → w < c.n
    → point_scalar c
        (point_sub c
          (point_add c (point_base_scalar c s) (point_scalar c q w))
          (point_scalar c q w))
        t
      ≡ some (l.multiple (s * t))
secret c l q w s t v lo hi =
    let (m, m_lo, m_hi, e) = valid-multiple c l q v in
    ap
      (λ r.
        point_scalar c
          (point_sub c (point_add c (point_base_scalar c s) (point_scalar c r w))
            (point_scalar c r w))
          t)
      e
    ∙ ap (λ r. point_scalar c (point_sub c r (point_scalar c (some (l.multiple m)) w)) t)
        (masked c l s m w)
    ∙ ap (λ r. point_scalar c (point_sub c (some (l.multiple (s + m * w))) r) t) (scaled c l m w)
    ∙ unmasked c l s (m * w) t (omega arith) (l.prime m w m_lo m_hi lo hi)

module _ (c : Crypto) (l : Lawful c) (g : Generators) where
  secret-met :
      (client : Bool) (w s t : ℕ)
      → valid c g.m ≡ true
      → valid c g.n ≡ true
      → 0 < w
      → w < c.n
      → shared_secret c g (met c g client w t (share_for c g (not client) w s))
        ≡ some (l.multiple (s * t))
  unfolding shared_secret share_for
  secret-met true w s t vm vn lo hi = secret c l g.n w s t vn lo hi
  secret-met false w s t vm vn lo hi = secret c l g.m w s t vm lo hi

  -- The conditions of an exchange with the password scalar `w` and the ephemeral scalars `x` and `y`:
  -- the generators `M` and `N` are on the curve, the scalars are above 0 and below the order of the
  -- group, and neither share is the point at infinity.
  pub record CanMeet (w x y : ℕ) : Type 0 where
    pub m_valid : valid c g.m ≡ true
    pub n_valid : valid c g.n ≡ true
    pub w_pos : 0 < w
    pub w_lt : w < c.n
    pub x_pos : 0 < x
    pub x_lt : x < c.n
    pub y_pos : 0 < y
    pub y_lt : y < c.n
    pub client_valid : valid c (share_for c g true w x) ≡ true
    pub server_valid : valid c (share_for c g false w y) ≡ true

  -- What `Finish` of a side gives that has met the other.
  abbrev pub FinishedWith : Bool → ℕ → ℕ → EcPoint → Bytes → Bytes → Spake2Keys → Bytes → Type 0
  FinishedWith client w scalar q sid accesskey keys tt =
      finish c g (met c g client w scalar q) sid accesskey ≡ (
        ok keys,
        record (met c g client w scalar q) { sid = sid; accesskey = accesskey; tt = some tt },
      )

  pub met-agree :
      (w x y : ℕ) (sid accesskey : Bytes)
      → CanMeet w x y
      → (keys : Spake2Keys) × (tt : Bytes) × HasKeyLengths keys
        × FinishedWith true w x (share_for c g false w y) sid accesskey keys tt
        × FinishedWith false w y (share_for c g true w x) sid accesskey keys tt
  unfolding transcript_of
  met-agree w x y sid accesskey m =
      let a = share_for c g true w x in
      let b = share_for c g false w y in
      let tt = build_transcript sid accesskey a b in
      let (keys, len, e) = derives c l (k_main_from_z c (some (l.multiple (x * y))) tt) in
      let zc =
        secret-met true w y x m.m_valid m.n_valid m.w_pos m.w_lt
        ∙ ap (λ k. some (l.multiple k)) (mul_comm y x) in
      let zs = secret-met false w x y m.m_valid m.n_valid m.w_pos m.w_lt in
      let vz = valid_on c l (x * y) (l.prime x y m.x_pos m.x_lt m.y_pos m.y_lt) in
      (
        keys,
        tt,
        len,
        finish-met c g true w x b sid accesskey (ap (valid c) zc ∙ vz)
            (ap (λ z. derive_spake2_keys c (k_main_from_z c z tt)) zc ∙ e),
        finish-met c g false w y a sid accesskey (ap (valid c) zs ∙ vz)
            (ap (λ z. derive_spake2_keys c (k_main_from_z c z tt)) zs ∙ e),
      )

  -- The scalar of a side, and of the other one.
  abbrev own : Bool → ℕ → ℕ → ℕ
  own client x y = if client then x else y

  pub side-FinishedWith :
      (client : Bool) (w x y : ℕ) (sid accesskey : Bytes) {keys : Spake2Keys} {tt : Bytes}
      → CanMeet w x y
      → FinishedWith client w
          (own client x y)
          (share_for c g (not client) w (own client y x))
          sid
          accesskey
          keys
          tt
      → side c g client w
          (own client x y)
          (share_bytes c g (not client) w (own client y x))
          sid
          accesskey
        ≡ some (keys, some tt)
  unfolding outcome
  side-FinishedWith true w x y sid accesskey m f =
      let b = share_for c g false w y in
      ap (λ p. side c g true w x p sid accesskey)
        (share_bytes-share_for c g false w y m.w_pos m.y_pos)
      ∙ side-met c g true w x (point_to_bytes b) b sid accesskey m.w_pos m.x_pos
          (point_from_bytes-valid c l b m.server_valid)
      ∙ ap (outcome c g) f
  side-FinishedWith false w x y sid accesskey m f =
      let a = share_for c g true w x in
      ap (λ p. side c g false w y p sid accesskey)
        (share_bytes-share_for c g true w x m.w_pos m.x_pos)
      ∙ side-met c g false w y (point_to_bytes a) a sid accesskey m.w_pos m.y_pos
          (point_from_bytes-valid c l a m.client_valid)
      ∙ ap (outcome c g) f

  -- The sides of an exchange with the same password scalar, and the same session id and access key,
  -- accept each other's share and end with the same keys and the same transcript, and the traffic keys
  -- have 32 bytes; if the generators are on the curve, the password scalar and both ephemeral scalars
  -- are above 0 and below the order of the group, and neither share is the point at infinity.
  pub side-agree :
      (w x y : ℕ) (sid accesskey : Bytes)
      → CanMeet w x y
      → (keys : Spake2Keys) × (tt : Bytes) × HasKeyLengths keys
        × (side c g true w x (share_bytes c g false w y) sid accesskey ≡ some (keys, some tt))
        × (side c g false w y (share_bytes c g true w x) sid accesskey ≡ some (keys, some tt))
  side-agree w x y sid accesskey m =
      let (keys, tt, len, fc, fs) = met-agree w x y sid accesskey m in
      (
        keys,
        tt,
        len,
        side-FinishedWith true w x y sid accesskey m fc,
        side-FinishedWith false w x y sid accesskey m fs,
      )
