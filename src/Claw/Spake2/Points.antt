-- ===== src/Claw/Spake2/Points.antt =====
-- The points of cmd/claw/spake2.go: their encoding, and the multiples of the base point that they are.
use daemontest.Prelude.{
  ℕ, zero, suc, ◌+◌, ◌-◌, ◌*◌, ◌/◌, ◌%◌, ◌^◌, ◌<◌, ◌≡◌, ◌≢◌, refl, sym, ap, ap₂, ◌∙◌, true, [], ◌∷◌,
  ◌++◌, some, arith, length, take, drop, length-append, take-append, drop-append, take-length,
}
use native.Mathlib.Nat.{div-add-mod, mul-suc, add-mul-mod_self_left, mod-lt, pow-suc}
use daemontest.Prelude.Bytes.{Bytes}
use daemontest.Prelude.Result.{ok}
use daemontest.Claw.Crypto.{Crypto, Lawful, Coordinates}
use daemontest.Claw.Spake2.{
  fill_bytes, bytes_onto, set_bytes, point_to_bytes, point_from_bytes, valid, point_neg, point_add,
  point_sub, point_scalar, point_base_scalar,
}

length-fill_bytes : (n x : ℕ) → length (fill_bytes n x) ≡ n
unfolding fill_bytes
length-fill_bytes zero x = refl
length-fill_bytes (suc n) x =
    length-append (fill_bytes n (x / 256)) ((x % 256) ∷ [])
    ∙ ap (λ k. k + 1) (length-fill_bytes n (x / 256))
    ∙ omega arith

bytes_onto-snoc :
    (xs : Bytes) (acc b : ℕ) → bytes_onto acc (xs ++ b ∷ []) ≡ bytes_onto acc xs * 256 + b
unfolding bytes_onto
bytes_onto-snoc [] acc b = refl
bytes_onto-snoc (x ∷ xs) acc b = bytes_onto-snoc xs (acc * 256 + x) b

set_bytes-fill_bytes : (n x : ℕ) → x < 256 ^ n → set_bytes (fill_bytes n x) ≡ x
unfolding set_bytes fill_bytes bytes_onto
set_bytes-fill_bytes zero x h = omega arith
set_bytes-fill_bytes (suc n) x h =
    bytes_onto-snoc (fill_bytes n (x / 256)) 0 (x % 256)
    ∙ ap (λ k. k * 256 + x % 256) (set_bytes-fill_bytes n (x / 256) (omega (arith, pow-suc 256 n)))
    ∙ omega arith

module _ (c : Crypto) where
  point_from_bytes-halves :
      (fx fy : Bytes)
      → length fx ≡ 32
      → length fy ≡ 32
      → c.is_on_curve (set_bytes fx, set_bytes fy) ≡ true
      → point_from_bytes c (4 ∷ fx ++ fy) ≡ ok (some (set_bytes fx, set_bytes fy))
  unfolding point_from_bytes valid
  point_from_bytes-halves fx fy hx hy v = rw (length-append fx fy, hx, hy, first, second, v) refl
    where
      first : take 32 (fx ++ fy) ≡ fx
      first = ap (λ n. take n (fx ++ fy)) (sym hx) ∙ take-append fx fy

      second : take 32 (drop 32 (fx ++ fy)) ≡ fy
      second =
          ap (λ n. take 32 (drop n (fx ++ fy))) (sym hx)
          ∙ ap (take 32) (drop-append fx fy)
          ∙ ap (λ n. take n fy) (sym hy)
          ∙ take-length fy

  pub point_from_bytes-point_to_bytes :
      (q : Coordinates)
      → q.0 < 256 ^ 32
      → q.1 < 256 ^ 32
      → c.is_on_curve q ≡ true
      → point_from_bytes c (point_to_bytes (some q)) ≡ ok (some q)
  unfolding point_to_bytes
  point_from_bytes-point_to_bytes (x, y) hx hy v =
      point_from_bytes-halves (fill_bytes 32 x) (fill_bytes 32 y) (length-fill_bytes 32 x)
        (length-fill_bytes 32 y) (ap c.is_on_curve back ∙ v)
      ∙ ap (λ q. ok (some q)) back
    where
      back : ◌≡◌ {A = Coordinates} (set_bytes (fill_bytes 32 x), set_bytes (fill_bytes 32 y)) (x, y)
      back = ap₂ (λ a b. (a, b)) (set_bytes-fill_bytes 32 x hx) (set_bytes-fill_bytes 32 y hy)

module _ (c : Crypto) (l : Lawful c) where
  multiple-eq : (a b : ℕ) → a % c.n ≡ b % c.n → l.multiple a ≡ l.multiple b
  multiple-eq a b e = sym (l.multiple-mod a) ∙ ap l.multiple e ∙ l.multiple-mod b

  cancelled : (x t : ℕ) → t % c.n < c.n → (x + t + (c.n - t % c.n)) % c.n ≡ x % c.n
  cancelled x t h =
      ap (λ k. k % c.n) {y = x + c.n * suc (t / c.n)}
        (omega (arith, div-add-mod t c.n, mul-suc c.n (t / c.n)))
      ∙ add-mul-mod_self_left x c.n (suc (t / c.n))

  -- What is left of a share when the masked generator is taken away from it, `k` times.
  pub unmasked :
      (x t k : ℕ)
      → 0 < c.n
      → t % c.n ≢ 0
      → point_scalar c (point_sub c (some (l.multiple (x + t))) (some (l.multiple t))) k
        ≡ some (l.multiple (x * k))
  unfolding point_scalar point_sub point_neg point_add
  unmasked x t k hn h = ap some (
      ap (λ q. c.scalar_mult q k)
        (ap (c.add (l.multiple (x + t))) (
            ap (λ q. (q.0, c.p - q.1)) (sym (l.multiple-mod t))
            ∙ l.negative (t % c.n) (omega arith) (mod-lt t hn))
          ∙ l.sum (x + t) (c.n - t % c.n)
          ∙ multiple-eq (x + t + (c.n - t % c.n)) x (cancelled x t (mod-lt t hn)))
      ∙ l.scalar x k)

  pub masked :
      (x m w : ℕ)
      → point_add c (point_base_scalar c x) (point_scalar c (some (l.multiple m)) w)
        ≡ some (l.multiple (x + m * w))
  unfolding point_add point_base_scalar point_scalar
  masked x m w = ap some (ap₂ c.add (l.base x) (l.scalar m w) ∙ l.sum x (m * w))
