-- ===== src/Claw/ToyCrypto.antt =====
-- Library functions with the laws of `Crypto`, so simple that tests can run them: a group of three
-- elements, and digests that only count.
use daemontest.Prelude.{
  ℕ, zero, suc, ◌+◌, ◌*◌, ◌/◌, ◌%◌, ◌<◌, ◌≡◌, ◌≢◌, refl, sym, ap, ap₂, ◌∙◌, true, ◌&&◌, [], ◌∷◌,
  arith, length, replicate, length-replicate, ltb, ◌==◌, if◌then◌else◌,
}
use native.Mathlib.Nat.{mul-add-mod_self_left, div-add-mod, add-mul, mul_assoc}
use daemontest.Claw.Crypto.{Crypto, Lawful, Coordinates}

abbrev multiple : ℕ → Coordinates
multiple k = if k % 3 == 0 then (0, 0) else (1, k % 3)

abbrev pub toy_crypto : Crypto
toy_crypto = record {
  p = 3;
  n = 3;
  b = 1;
  add = λ q r. multiple (q.1 + r.1);
  scalar_mult = λ q k. multiple (q.1 * k);
  scalar_base_mult = multiple;
  is_on_curve = λ q. q.0 == 1 && ltb 0 q.1 && ltb q.1 3;
  sha256 = λ b. length b ∷ [];
  hmac = λ key text. replicate 32 (length key + length text);
}

y-multiple : (a : ℕ) → (multiple a).1 ≡ a % 3
y-multiple a = ground arith

multiple-eq : (a b : ℕ) → a % 3 ≡ b % 3 → multiple a ≡ multiple b
multiple-eq a b e = ap (λ r. if r == 0 then (0, 0) else (1, r)) e

mod-mul-mod : (a k : ℕ) → a % 3 * k % 3 ≡ a * k % 3
mod-mul-mod a k = sym (
    ap (λ t. t * k % 3) (sym (div-add-mod a 3))
    ∙ ap (λ t. t % 3)
        (add-mul (3 * (a / 3)) (a % 3) k ∙ ap (λ t. t + a % 3 * k) (mul_assoc 3 (a / 3) k))
    ∙ mul-add-mod_self_left 3 (a / 3 * k) (a % 3 * k))

prime : (a b : ℕ) → 0 < a → a < 3 → 0 < b → b < 3 → a * b % 3 ≢ 0
prime zero b h1 h2 h3 h4 e = omega arith
prime (suc zero) zero h1 h2 h3 h4 e = omega arith
prime (suc zero) (suc zero) h1 h2 h3 h4 e = omega arith
prime (suc zero) (suc (suc zero)) h1 h2 h3 h4 e = omega arith
prime (suc (suc zero)) zero h1 h2 h3 h4 e = omega arith
prime (suc (suc zero)) (suc zero) h1 h2 h3 h4 e = omega arith
prime (suc (suc zero)) (suc (suc zero)) h1 h2 h3 h4 e = omega arith
prime (suc (suc (suc a))) b h1 h2 h3 h4 e = omega arith
prime a (suc (suc (suc b))) h1 h2 h3 h4 e = omega arith

onto :
    (q : Coordinates)
    → toy_crypto.is_on_curve q ≡ true
    → (a : ℕ) × (0 < a) × (a < 3) × (q ≡ multiple a)
onto (x, y) h = (y, ground arith, ground arith, ground arith)

pub toy_lawful : Lawful toy_crypto
toy_lawful = record {
  multiple = multiple;
  multiple-mod = λ a. multiple-eq (a % 3) a (omega arith);
  base = λ k. refl;
  scalar =
      λ a k. ap (λ y. multiple (y * k)) (y-multiple a) ∙ multiple-eq _ (a * k) (mod-mul-mod a k);
  sum = λ a b.
      ap₂ (λ x y. multiple (x + y)) (y-multiple a) (y-multiple b)
      ∙ multiple-eq (a % 3 + b % 3) (a + b) (omega arith);
  negative = λ a lo hi. ground arith;
  on = λ a h. ground arith;
  onto = onto;
  prime = prime;
  x_small = λ a. ground arith;
  y_small = λ a. ground arith;
  length-hmac = λ key text. length-replicate 32 (length key + length text);
}
