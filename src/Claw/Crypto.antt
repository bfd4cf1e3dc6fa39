-- ===== src/Claw/Crypto.antt =====
-- What the SPAKE2 exchange takes from Go's libraries: crypto/elliptic's P-256, SHA-256 and HMAC. The
-- laws are the ones that their documentation gives.
use daemontest.Prelude.{ℕ, ◌+◌, ◌-◌, ◌*◌, ◌^◌, ◌%◌, ◌<◌, ◌≡◌, ◌≢◌, Bool, true, length}
use daemontest.Prelude.Bytes.{Bytes}

abbrev pub Coordinates : Type 0
Coordinates = ℕ × ℕ

pub record Crypto : Type 0 where
  -- `Params().P`, `Params().N` and `Params().B`
  pub p : ℕ
  pub n : ℕ
  pub b : ℕ
  pub add : Coordinates → Coordinates → Coordinates
  -- The scalar is the number whose bytes the code passes.
  pub scalar_mult : Coordinates → ℕ → Coordinates
  pub scalar_base_mult : ℕ → Coordinates
  pub is_on_curve : Coordinates → Bool
  pub sha256 : Bytes → Bytes
  -- `hmac.New(sha256.New, key)`, the text written to it, `Sum(nil)`
  pub hmac : Bytes → Bytes → Bytes

-- The points of the curve are the multiples of the base point, a cyclic group of the prime order `n`.
pub record Lawful (c : Crypto) : Type 0 where
  -- `k` times the base point
  pub multiple : ℕ → Coordinates
  pub multiple-mod : (a : ℕ) → multiple (a % c.n) ≡ multiple a
  pub base : (k : ℕ) → c.scalar_base_mult k ≡ multiple k
  pub scalar : (a k : ℕ) → c.scalar_mult (multiple a) k ≡ multiple (a * k)
  pub sum : (a b : ℕ) → c.add (multiple a) (multiple b) ≡ multiple (a + b)
  pub negative :
      (a : ℕ) → 0 < a → a < c.n → ((multiple a).0, c.p - (multiple a).1) ≡ multiple (c.n - a)
  pub on : (a : ℕ) → a % c.n ≢ 0 → c.is_on_curve (multiple a) ≡ true
  pub onto :
      (q : Coordinates) → c.is_on_curve q ≡ true → (a : ℕ) × (0 < a) × (a < c.n) × (q ≡ multiple a)
  pub prime : (a b : ℕ) → 0 < a → a < c.n → 0 < b → b < c.n → a * b % c.n ≢ 0
  pub x_small : (a : ℕ) → (multiple a).0 < 256 ^ 32
  pub y_small : (a : ℕ) → (multiple a).1 < 256 ^ 32
  pub length-hmac : (key text : Bytes) → length (c.hmac key text) ≡ 32
