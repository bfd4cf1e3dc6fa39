-- ===== src/Claw/Spake2/Roots.antt =====
-- The square roots of cmd/claw/spake2.go, and the points that it hashes seeds to.
use daemontest.Prelude.{
  ℕ, zero, suc, ◌+◌, ◌-◌, ◌*◌, ◌/◌, ◌^◌, ◌%◌, ◌<◌, ◌≡◌, refl, sym, ap, ◌∙◌, Bool, true, false, [],
  ◌∷◌, ◌++◌, Option, none, some, arith, ==_iff, if◌then◌else◌, subst,
}
use native.Mathlib.Nat.{
  mul-add-mod_self_left, div-add-mod, add-mul, mul_assoc, mul_comm, pow-suc, pow-zero, mod-mod,
  mod-lt,
}
use daemontest.Prelude.Bytes.{Bytes}
use daemontest.Prelude.Result.{Result, ok}
use daemontest.Claw.Crypto.{Crypto}
use daemontest.Claw.Spake2.{
  EcPoint, Spake2Error, mod_sqrt, set_bytes, curve_rhs, hash_rounds, hash_to_point,
}

mod-mul-mod : (p a k : ℕ) → a % p * k % p ≡ a * k % p
mod-mul-mod p a k = sym (
    ap (λ t. t * k % p) (sym (div-add-mod a p))
    ∙ ap (λ t. t % p)
        (add-mul (p * (a / p)) (a % p) k ∙ ap (λ t. t + a % p * k) (mul_assoc p (a / p) k))
    ∙ mul-add-mod_self_left p (a / p * k) (a % p * k))

mod-mul-mods : (p a b : ℕ) → a % p * (b % p) % p ≡ a * b % p
mod-mul-mods p a b =
    mod-mul-mod p a (b % p)
    ∙ ap (λ t. t % p) (mul_comm a (b % p))
    ∙ mod-mul-mod p b a
    ∙ ap (λ t. t % p) (mul_comm b a)

pow-add : (a m n : ℕ) → a ^ (m + n) ≡ a ^ m * a ^ n
pow-add a m zero =
    ap (λ k. a ^ k) {y = m} (omega arith)
    ∙ omega arith
    ∙ ap (λ t. a ^ m * t) {x = 1} (sym (pow-zero a))
pow-add a m (suc n) =
    ap (λ k. a ^ k) {y = suc (m + n)} (omega arith)
    ∙ pow-suc a (m + n)
    ∙ ap (λ t. t * a) (pow-add a m n)
    ∙ mul_assoc (a ^ m) (a ^ n) a
    ∙ ap (λ t. a ^ m * t) (sym (pow-suc a n))

pow-one : (a : ℕ) → a ^ 1 ≡ a
pow-one a = pow-suc a 0 ∙ ap (λ t. t * a) (pow-zero a) ∙ omega arith

ok_back : {u v : EcPoint} → ◌≡◌ {A = Result Spake2Error EcPoint} (ok u) (ok v) → u ≡ v
ok_back h = cc

if-some : (b : Bool) (r y : ℕ) → (if b then some r else none) ≡ some y → (b ≡ true) × (y ≡ r)
if-some true r y e = (refl, ground arith)
if-some false r y e = absurd (ground arith)

-- Modulo a number that leaves 3 on division by 4, `modSqrt` gives a square root of its argument.
pub mod_sqrt-square : (a p y : ℕ) → p % 4 ≡ 3 → mod_sqrt a p ≡ some y → y * y % p ≡ a % p
unfolding mod_sqrt
mod_sqrt-square a p y h e =
    let (residue, root) = if-some _ _ y e in
    let k = (p + 1) / 4 in
    let half = (p - 1) / 2 in
    ap (λ t. t * t % p) root
    ∙ mod-mul-mods p (a ^ k) (a ^ k)
    ∙ ap (λ t. t % p) (sym (pow-add a k k))
    ∙ ap (λ t. a ^ t % p) {y = half + 1} (omega arith)
    ∙ ap (λ t. t % p) (pow-add a half 1)
    ∙ sym (mod-mul-mod p (a ^ half) (a ^ 1))
    ∙ ap (λ t. t * a ^ 1 % p) ((==_iff _ _).0 residue)
    ∙ ap (λ t. t % p) {y = a} (omega (arith, pow-one a))

module _ (c : Crypto) where
  -- `y² + 3x = x³ + b` modulo `p`.
  abbrev pub OnEquation : EcPoint → Type 0
  OnEquation none = Unit
  OnEquation (some (x, y)) = (y * y + 3 * x) % c.p ≡ (x * x * x + c.b) % c.p

  mod_add_right : (a b k : ℕ) → a % c.p ≡ b % c.p → (a + k) % c.p ≡ (b + k) % c.p
  mod_add_right a b k e =
      sym (mod-add-mod_left a k) ∙ ap (λ t. (t + k) % c.p) e ∙ mod-add-mod_left b k
    where
      mod-add-mod_left : (n m : ℕ) → (n % c.p + m) % c.p ≡ (n + m) % c.p
      mod-add-mod_left n m =
          sym (mul-add-mod_self_left c.p (n / c.p) (n % c.p + m))
          ∙ ap (λ t. t % c.p) {x = c.p * (n / c.p) + (n % c.p + m)} {y = n + m}
              (omega (arith, div-add-mod n c.p))

  curve_rhs-equation :
      (x y : ℕ) → x < c.p → y * y % c.p ≡ curve_rhs c x % c.p → OnEquation (some (x, y))
  unfolding curve_rhs
  curve_rhs-equation x y h e =
      let cube = x * x * x in
      mod_add_right (y * y) (cube + 3 * c.p - 3 * x + c.b) (3 * x) (e ∙ mod-mod _ c.p)
      ∙ ap (λ t. t % c.p) {y = c.p * 3 + (cube + c.b)} (omega arith)
      ∙ mul-add-mod_self_left c.p 3 (cube + c.b)

  hash_rounds-OnEquation :
      (seed : Bytes) (i n : ℕ) (q : EcPoint)
      → c.p % 4 ≡ 3
      → hash_rounds c seed i n ≡ ok q
      → OnEquation q
  unfolding hash_rounds
  hash_rounds-OnEquation seed i zero q h e = absurd (ground arith)
  hash_rounds-OnEquation seed i (suc n) q h e =
      let x = set_bytes (c.sha256 (seed ++ i ∷ [])) % c.p in
      found x q (hash_rounds c seed (i + 1) n) (mod_sqrt (curve_rhs c x) c.p)
        (λ y s.
          curve_rhs-equation x y (mod-lt (set_bytes (c.sha256 (seed ++ i ∷ []))) (omega arith))
            (mod_sqrt-square (curve_rhs c x) c.p y h s))
        (hash_rounds-OnEquation seed (i + 1) n q h) e
    where
      found :
          (x : ℕ) (q : EcPoint) (rest : Result Spake2Error EcPoint) (r : Option ℕ)
          → ((y : ℕ) → r ≡ some y → OnEquation (some (x, y)))
          → (rest ≡ ok q → OnEquation q)
          → (elim r as (λ _. Result Spake2Error EcPoint) [
            | none ↦ rest
            | some y ↦ ok (some (x, y))
          ])
            ≡ ok q
          → OnEquation q
      found x q rest none good more e = more e
      found x q rest (some y) good more e = subst OnEquation (ok_back e) (good y refl)

  -- A point that `hashToPoint` returns satisfies the equation of the curve, `y² = x³ - 3x + b` modulo
  -- `p` (as `y² + 3x = x³ + b`), if `p` leaves 3 on division by 4.
  pub hash_to_point-OnEquation :
      (seed : Bytes) (q : EcPoint) → c.p % 4 ≡ 3 → hash_to_point c seed ≡ ok q → OnEquation q
  unfolding hash_to_point
  hash_to_point-OnEquation seed q h e = hash_rounds-OnEquation seed 0 256 q h e
