-- ===== src/Prelude/Cyclic.antt =====
-- Arrays that are read round their end: the elements from a start index on, as a list.
use Prim.Native.Nat.{ℕ, zero, suc, ◌+◌, ◌-◌, ◌%◌, ◌≤◌, ◌<◌}
use mathlib.Core.Path.{◌≡◌, refl, ap, ap₂, ◌∙◌, sym}
use mathlib.Core.Logic.{◌≢◌}
use mathlib.Core.List.{List, [], ◌∷◌, ◌++◌}
use native.Mathlib.Omega.{arith}
use native.Mathlib.Decide.{dec_lt}
use native.Mathlib.Nat.{mod-lt, mod-add-mod, add-mod_right, mod-eq_of_lt, mod-eq-sub-mod}
use daemontest.Prelude.Lists.{length, get_or, set, take, drop, get_or-set_self, get_or-set_ne}

-- Fewer than `cap` steps round the array do not come back to the start.
add-mod-ne_self : (cap r m : ℕ) → r < cap → 0 < m → m < cap → (r + m) % cap ≢ r
add-mod-ne_self cap r m hr hm hc e = elim (dec_lt (r + m) cap) [
  | yes p ↦ omega (arith, mod-eq_of_lt p)
  | no p ↦ omega (
    arith,
    mod-eq-sub-mod {n = r + m} {m = cap} (omega arith),
    mod-eq_of_lt {n = r + m - cap} {m = cap} (omega arith),
  )
]

pub add-mod-ne : (cap s j k : ℕ) → j < k → k < cap + j → (s + k) % cap ≢ (s + j) % cap
add-mod-ne cap s j k h hk e =
    add-mod-ne_self cap ((s + j) % cap) (k - j) (mod-lt (s + j) (omega arith)) (omega arith)
      (omega arith) (mod-add-mod (s + j) cap (k - j) ∙ ap (λ t. t % cap) (omega arith) ∙ e)

module _ {ℓ} {A : Type ℓ} (d : A) (cap : ℕ) where
  -- The `n` elements from index `s` on, going round at `cap`; `d` for a read out of range.
  abbrev pub window : List A → ℕ → ℕ → List A
  window buf s zero = []
  window buf s (suc n) = get_or buf (s % cap) d ∷ window buf (s + 1) n

  pub length-window : (buf : List A) (s n : ℕ) → length (window buf s n) ≡ n
  length-window buf s zero = refl
  length-window buf s (suc n) = ap suc (length-window buf (s + 1) n)

  pub window_none : (buf : List A) (s n : ℕ) → n ≡ 0 → window buf s n ≡ []
  window_none buf s n e = ap (window buf s) e

  pub window-snoc :
      (buf : List A) (s n : ℕ)
      → window buf s (suc n) ≡ window buf s n ++ get_or buf ((s + n) % cap) d ∷ []
  window-snoc buf s zero = ap (λ k. get_or buf (k % cap) d ∷ []) (omega arith)
  window-snoc buf s (suc n) = ap (◌∷◌ (get_or buf (s % cap) d)) (
      window-snoc buf (s + 1) n
      ∙ ap (λ k. window buf (s + 1) n ++ get_or buf (k % cap) d ∷ []) (omega arith))

  pub window-mod : (buf : List A) (s t n : ℕ) → s % cap ≡ t % cap → window buf s n ≡ window buf t n
  window-mod buf s t zero e = refl
  window-mod buf s t (suc n) e = ap₂ ◌∷◌ (ap (λ k. get_or buf k d) e) (
      window-mod buf (s + 1) (t + 1) n
        (sym (mod-add-mod s cap 1) ∙ ap (λ k. (k + 1) % cap) e ∙ mod-add-mod t cap 1))

  pub get_or-window :
      (buf : List A) (s n i : ℕ)
      → i < n
      → get_or (window buf s n) i d ≡ get_or buf ((s + i) % cap) d
  get_or-window buf s zero i h = absurd (omega arith)
  get_or-window buf s (suc n) zero h = ap (λ k. get_or buf (k % cap) d) (omega arith)
  get_or-window buf s (suc n) (suc i) h =
      get_or-window buf (s + 1) n i (omega arith) ∙ ap (λ k. get_or buf (k % cap) d) (omega arith)

  -- A write outside the window leaves it as it is.
  pub window-set_outside :
      (buf : List A) (s n k : ℕ) (v : A)
      → n ≤ k
      → k < cap
      → window (set buf ((s + k) % cap) v) s n ≡ window buf s n
  window-set_outside buf s zero k v h hk = refl
  window-set_outside buf s (suc n) k v h hk =
      ap₂ ◌∷◌ (get_or-set_ne buf ((s + k) % cap) (s % cap) v d apart) (
        ap (λ t. window (set buf (t % cap) v) (s + 1) n) (omega arith)
        ∙ window-set_outside buf (s + 1) n (k - 1) v (omega arith) (omega arith))
    where
      apart : (s + k) % cap ≢ s % cap
      apart e =
          add-mod-ne cap s 0 k (omega arith) (omega arith) (e ∙ ap (λ t. t % cap) (omega arith))

  -- A write inside it is a write to the list.
  pub window-set_inside :
      (buf : List A) (s n i : ℕ) (v : A)
      → i < n
      → n ≤ cap
      → cap ≤ length buf
      → window (set buf ((s + i) % cap) v) s n ≡ set (window buf s n) i v
  window-set_inside buf s zero i v h hn hb = absurd (omega arith)
  window-set_inside buf s (suc n) zero v h hn hb =
      ap₂ ◌∷◌
        (ap (λ t. get_or (set buf (t % cap) v) (s % cap) d) (omega arith)
          ∙ get_or-set_self buf (s % cap) v d (omega (arith, mod-lt s {m = cap})))
        (ap (λ t. window (set buf t v) (s + 1) n) around
          ∙ window-set_outside buf (s + 1) n (cap - 1) v (omega arith) (omega arith))
    where
      around : (s + 0) % cap ≡ (s + 1 + (cap - 1)) % cap
      around =
          ap (λ t. t % cap) (omega arith)
          ∙ sym (add-mod_right s cap)
          ∙ ap (λ t. t % cap) (omega arith)
  window-set_inside buf s (suc n) (suc i) v h hn hb =
      ap₂ ◌∷◌ (get_or-set_ne buf ((s + suc i) % cap) (s % cap) v d apart) (
        ap (λ t. window (set buf (t % cap) v) (s + 1) n) (omega arith)
        ∙ window-set_inside buf (s + 1) n i v (omega arith) (omega arith) hb)
    where
      apart : (s + suc i) % cap ≢ s % cap
      apart e =
          add-mod-ne cap s 0 (suc i) (omega arith) (omega arith)
            (e ∙ ap (λ t. t % cap) (omega arith))

  pub window-add :
      (buf : List A) (s m n : ℕ) → window buf s (m + n) ≡ window buf s m ++ window buf (s + m) n
  window-add buf s zero n = ap₂ (window buf) (omega arith) (omega arith)
  window-add buf s (suc m) n =
      ap (window buf s) add-suc_left
      ∙ ap (◌∷◌ (get_or buf (s % cap) d)) (
          window-add buf (s + 1) m n
          ∙ ap (λ t. window buf (s + 1) m ++ window buf t n) (omega arith))
    where
      add-suc_left : suc m + n ≡ suc (m + n)
      add-suc_left = omega arith

  pub take-window : (buf : List A) (s n k : ℕ) → k ≤ n → take k (window buf s n) ≡ window buf s k
  take-window buf s n zero h = refl
  take-window buf s zero (suc k) h = absurd (omega arith)
  take-window buf s (suc n) (suc k) h =
      ap (◌∷◌ (get_or buf (s % cap) d)) (take-window buf (s + 1) n k (omega arith))

  pub drop-window :
      (buf : List A) (s n k : ℕ) → k ≤ n → drop k (window buf s n) ≡ window buf (s + k) (n - k)
  drop-window buf s n zero h = ap₂ (window buf) (omega arith) (omega arith)
  drop-window buf s zero (suc k) h = absurd (omega arith)
  drop-window buf s (suc n) (suc k) h =
      drop-window buf (s + 1) n k (omega arith) ∙ ap₂ (window buf) (omega arith) (omega arith)

  -- A write just behind the window extends it.
  pub window-push :
      (buf : List A) (s n i : ℕ) (v : A)
      → n < cap
      → cap ≤ length buf
      → i ≡ (s + n) % cap
      → window (set buf i v) s (suc n) ≡ window buf s n ++ v ∷ []
  window-push buf s n i v h hb e =
      ap (λ t. window (set buf t v) s (suc n)) e
      ∙ window-snoc (set buf ((s + n) % cap) v) s n
      ∙ ap₂ (λ xs x. xs ++ x ∷ []) (window-set_outside buf s n n v (omega arith) h)
          (get_or-set_self buf ((s + n) % cap) v d (omega (arith, mod-lt (s + n) {m = cap})))

  -- A write to the first element of a full window, which then begins behind it.
  pub window-push_full :
      (buf : List A) (s i : ℕ) (v : A)
      → 0 < cap
      → cap ≤ length buf
      → i ≡ s % cap
      → window (set buf i v) (s + 1) cap ≡ drop 1 (window buf s cap) ++ v ∷ []
  window-push_full buf s i v h hb e =
      ap (window (set buf i v) (s + 1)) {y = suc (cap - 1)} (omega arith)
      ∙ window-push buf (s + 1) (cap - 1) i v (omega arith) hb (e ∙ around)
      ∙ ap (λ xs. xs ++ v ∷ []) (sym (drop-window buf s cap 1 h))
    where
      around : s % cap ≡ (s + 1 + (cap - 1)) % cap
      around = sym (add-mod_right s cap) ∙ ap (λ t. t % cap) (omega arith)
