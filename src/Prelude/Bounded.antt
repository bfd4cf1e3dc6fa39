-- ===== src/Prelude/Bounded.antt =====
-- The abstract bounded queue: what is kept of a sequence when only the newest `c` elements fit.
use Prim.Native.Nat.{ℕ, zero, suc, ◌+◌, ◌-◌, ◌≤◌, ◌<◌}
use mathlib.Core.Path.{◌≡◌, refl, ap, ◌∙◌, sym}
use mathlib.Core.List.{List, [], ◌∷◌, ◌++◌}
use mathlib.Core.Logic.{inl, inr}
use native.Mathlib.Omega.{arith}
use daemontest.Prelude.Lists.{length, drop, length-append}
use daemontest.Prelude.Tests.{ltb, if◌then◌else◌, Bool-cases, ltb→lt, ltb-false}

module _ {ℓ} {A : Type ℓ} where
  -- The newest `c` elements, oldest first.
  abbrev pub last_n : ℕ → List A → List A
  last_n c xs = drop (length xs - c) xs

  -- One more element; the oldest one goes when the queue is full.
  unfoldable pub push_bounded : ℕ → List A → A → List A
  push_bounded c xs v = if ltb (length xs) c then xs ++ v ∷ [] else drop 1 xs ++ v ∷ []

  pub length-drop : (n : ℕ) (xs : List A) → length (drop n xs) ≡ length xs - n
  length-drop zero xs = omega arith
  length-drop (suc n) [] = omega arith
  length-drop (suc n) (x ∷ xs) = omega (arith, length-drop n xs)

  pub drop-append_le :
      (n : ℕ) (xs ys : List A) → n ≤ length xs → drop n (xs ++ ys) ≡ drop n xs ++ ys
  drop-append_le zero xs ys h = refl
  drop-append_le (suc n) [] ys h = absurd (omega arith)
  drop-append_le (suc n) (x ∷ xs) ys h = drop-append_le n xs ys (omega arith)

  drop-nil : (n : ℕ) → drop {A = A} n [] ≡ []
  drop-nil zero = refl
  drop-nil (suc n) = refl

  pub drop_all : (n : ℕ) (xs : List A) → length xs ≤ n → drop n xs ≡ []
  drop_all n [] h = drop-nil n
  drop_all zero (x ∷ xs) h = absurd (omega arith)
  drop_all (suc n) (x ∷ xs) h = drop_all n xs (omega arith)

  pub drop-drop : (m n : ℕ) (xs : List A) → drop m (drop n xs) ≡ drop (n + m) xs
  drop-drop m zero xs = ap (λ k. drop k xs) (omega arith)
  drop-drop m (suc n) [] = drop-nil m ∙ sym (drop-nil (suc n + m))
  drop-drop m (suc n) (x ∷ xs) = drop-drop m n xs ∙ ap (λ k. drop k (x ∷ xs)) shift
    where
      shift : suc (n + m) ≡ suc n + m
      shift = omega arith

  -- Pushing onto what was kept of `xs` keeps the newest of `xs` and the new element.
  pub push_bounded-last_n :
      (c : ℕ) (xs : List A) (v : A)
      → 0 < c
      → push_bounded c (last_n c xs) v ≡ last_n c (xs ++ v ∷ [])
  unfolding push_bounded
  push_bounded-last_n c xs v h = elim (Bool-cases (ltb (length (last_n c xs)) c)) [
    | inl t ↦ rw t (fits (ltb→lt _ _ t))
    | inr f ↦ rw f (full (ltb-false _ _ f))
  ]
    where
      kept : length (last_n c xs) ≡ length xs - (length xs - c)
      kept = length-drop (length xs - c) xs

      grown : length (xs ++ v ∷ []) ≡ length xs + 1
      grown = length-append xs (v ∷ [])

      fits : length (last_n c xs) < c → last_n c xs ++ v ∷ [] ≡ last_n c (xs ++ v ∷ [])
      fits t =
          ap (λ k. drop k xs ++ v ∷ []) {y = 0} (omega (arith, kept))
          ∙ ap (λ k. drop k (xs ++ v ∷ [])) {x = 0} (omega (arith, kept, grown))

      full : c ≤ length (last_n c xs) → drop 1 (last_n c xs) ++ v ∷ [] ≡ last_n c (xs ++ v ∷ [])
      full f =
          ap (λ ys. ys ++ v ∷ []) (drop-drop 1 (length xs - c) xs)
          ∙ sym (drop-append_le (length xs - c + 1) xs (v ∷ []) (omega (arith, kept)))
          ∙ ap (λ k. drop k (xs ++ v ∷ [])) (omega (arith, kept, grown))

  pub last_n-nil : (c : ℕ) → last_n c [] ≡ []
  last_n-nil c = drop-nil (0 - c)

  pub last_n_all : (c : ℕ) (xs : List A) → length xs ≤ c → last_n c xs ≡ xs
  last_n_all c xs h = ap (λ k. drop k xs) {y = 0} (omega arith)

  pub last_n-append : (c : ℕ) (xs ys : List A) → last_n c (last_n c xs ++ ys) ≡ last_n c (xs ++ ys)
  last_n-append c xs ys =
      ap (λ zs. drop (length (drop (length xs - c) xs ++ ys) - c) zs)
        (sym (drop-append_le (length xs - c) xs ys (omega arith)))
      ∙ drop-drop (length (drop (length xs - c) xs ++ ys) - c) (length xs - c) (xs ++ ys)
      ∙ ap (λ k. drop k (xs ++ ys))
          (omega (
            arith,
            length-append xs ys,
            length-append (drop (length xs - c) xs) ys,
            length-drop (length xs - c) xs,
          ))
