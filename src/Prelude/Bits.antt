-- ===== src/Prelude/Bits.antt =====
-- `&`, `|` and `&^` on Go's unsigned words. The laws hold digit by digit, so each is an induction
-- on the binary digits.
use Prim.Native.Nat.{
  ℕ, zero, suc, ◌+◌, ◌-◌, ◌*◌, ◌/◌, ◌%◌, ◌≤◌, ◌<◌, ◌^◌, min, max, bit_and, bit_or, digits, bitwise,
  bit_and-bitwise, bit_or-bitwise,
}
use mathlib.Core.Path.{◌≡◌, refl, sym, ap, ap₂, ◌∙◌}
use native.Mathlib.Omega.{arith}
use native.Mathlib.Nat.{pow-suc, one-le-pow}

infixl 60 ◌&◌
abbrev pub ◌&◌ : ℕ → ℕ → ℕ
a & b = bit_and a b

infixl 55 ◌∣◌
abbrev pub ◌∣◌ : ℕ → ℕ → ℕ
a ∣ b = bit_or a b

-- `^m` on a uint32
abbrev pub mask_not : ℕ → ℕ
mask_not m = 0xFFFF_FFFF - m

-- The fuel of the digits' recursion drops out.
module _ (z : ℕ → ℕ) (f : ℕ → ℕ → ℕ) where
  digits-enough : (n m a b : ℕ) → a ≤ n → a ≤ m → digits z f n a b ≡ digits z f m a b
  digits-enough zero zero a b p q = refl
  digits-enough zero (suc m) zero b p q = refl
  digits-enough zero (suc m) (suc a) b p q = absurd (omega arith)
  digits-enough (suc n) zero zero b p q = refl
  digits-enough (suc n) zero (suc a) b p q = absurd (omega arith)
  digits-enough (suc n) (suc m) zero b p q = refl
  digits-enough (suc n) (suc m) (suc a) b p q =
      rw (digits-enough n m (suc a / 2) (b / 2) (omega arith) (omega arith)) refl

  bitwise-digit :
      (a b : ℕ)
      → bitwise z f (suc a) b ≡ bitwise z f (suc a / 2) (b / 2) * 2 + f (suc a % 2) (b % 2)
  bitwise-digit a b =
      omega (arith, digits-enough a (suc a / 2) (suc a / 2) (b / 2) (omega arith) (omega arith))

and-digit : (a b : ℕ) → a & b ≡ (a / 2 & b / 2) * 2 + min (a % 2) (b % 2)
and-digit zero b = simp bit_and-bitwise (omega arith)
and-digit (suc a) b = simp bit_and-bitwise (bitwise-digit (λ y. 0) min a b)

or-digit : (a b : ℕ) → a ∣ b ≡ (a / 2 ∣ b / 2) * 2 + max (a % 2) (b % 2)
or-digit zero b = simp bit_or-bitwise (omega arith)
or-digit (suc a) b = simp bit_or-bitwise (bitwise-digit (λ y. y) max a b)

and-half : (a b : ℕ) → (a & b) / 2 ≡ a / 2 & b / 2
and-half a b = omega (arith, and-digit a b)

and-low : (a b : ℕ) → (a & b) % 2 ≡ min (a % 2) (b % 2)
and-low a b = omega (arith, and-digit a b)

or-half : (a b : ℕ) → (a ∣ b) / 2 ≡ a / 2 ∣ b / 2
or-half a b = omega (arith, or-digit a b)

or-low : (a b : ℕ) → (a ∣ b) % 2 ≡ max (a % 2) (b % 2)
or-low a b = omega (arith, or-digit a b)

zero-and : (b : ℕ) → 0 & b ≡ 0
zero-and b = bit_and-bitwise 0 b

pub zero-or : (b : ℕ) → 0 ∣ b ≡ b
zero-or b = bit_or-bitwise 0 b

-- Numbers with the same half and the same lowest digit are the same.
by_digits : (a b : ℕ) → a / 2 ≡ b / 2 → a % 2 ≡ b % 2 → a ≡ b
by_digits a b p q = omega arith

and-zero_fuel : (n a : ℕ) → a ≤ n → a & 0 ≡ 0
and-zero_fuel zero zero h = zero-and 0
and-zero_fuel zero (suc a) h = absurd (omega arith)
and-zero_fuel (suc n) a h = omega (arith, and-digit a 0, and-zero_fuel n (a / 2) (omega arith))

pub and-zero : (a : ℕ) → a & 0 ≡ 0
and-zero a = and-zero_fuel a a (omega arith)

or-zero_fuel : (n a : ℕ) → a ≤ n → a ∣ 0 ≡ a
or-zero_fuel zero zero h = zero-or 0
or-zero_fuel zero (suc a) h = absurd (omega arith)
or-zero_fuel (suc n) a h = omega (arith, or-digit a 0, or-zero_fuel n (a / 2) (omega arith))

pub or-zero : (a : ℕ) → a ∣ 0 ≡ a
or-zero a = or-zero_fuel a a (omega arith)

and_assoc_fuel : (n a b c : ℕ) → a ≤ n → (a & b) & c ≡ a & (b & c)
and_assoc_fuel zero zero b c p = rw (zero-and b, zero-and c, zero-and (b & c)) refl
and_assoc_fuel zero (suc a) b c p = absurd (omega arith)
and_assoc_fuel (suc n) a b c p =
    by_digits ((a & b) & c) (a & (b & c))
      (and-half (a & b) c
        ∙ ap (λ t. t & c / 2) (and-half a b)
        ∙ and_assoc_fuel n (a / 2) (b / 2) (c / 2) (omega arith)
        ∙ ap (λ t. a / 2 & t) (sym (and-half b c))
        ∙ sym (and-half a (b & c)))
      (omega (arith, and-low (a & b) c, and-low a b, and-low b c, and-low a (b & c)))

pub and_assoc : (a b c : ℕ) → (a & b) & c ≡ a & (b & c)
and_assoc a b c = and_assoc_fuel a a b c (omega arith)

or-and_fuel : (n a b c : ℕ) → a ≤ n → b ≤ n → (a ∣ b) & c ≡ (a & c) ∣ (b & c)
or-and_fuel zero zero zero c p q = rw (zero-or 0, zero-and c, zero-or 0) refl
or-and_fuel zero (suc a) b c p q = absurd (omega arith)
or-and_fuel zero zero (suc b) c p q = absurd (omega arith)
or-and_fuel (suc n) a b c p q =
    by_digits ((a ∣ b) & c) ((a & c) ∣ (b & c))
      (and-half (a ∣ b) c
        ∙ ap (λ t. t & c / 2) (or-half a b)
        ∙ or-and_fuel n (a / 2) (b / 2) (c / 2) (omega arith) (omega arith)
        ∙ ap₂ (λ s t. s ∣ t) (sym (and-half a c)) (sym (and-half b c))
        ∙ sym (or-half (a & c) (b & c)))
      (omega
        (arith, and-low (a ∣ b) c, or-low a b, and-low a c, and-low b c, or-low (a & c) (b & c)))

-- `&` distributes over `|`.
pub or-and : (a b c : ℕ) → (a ∣ b) & c ≡ (a & c) ∣ (b & c)
or-and a b c = or-and_fuel (a + b) a b c (omega arith) (omega arith)

and_comm_fuel : (n a b : ℕ) → a ≤ n → b ≤ n → a & b ≡ b & a
and_comm_fuel zero zero zero p q = refl
and_comm_fuel zero (suc a) b p q = absurd (omega arith)
and_comm_fuel zero zero (suc b) p q = absurd (omega arith)
and_comm_fuel (suc n) a b p q = omega (
  arith,
  and-digit a b,
  and-digit b a,
  and_comm_fuel n (a / 2) (b / 2) (omega arith) (omega arith),
)

pub and_comm : (a b : ℕ) → a & b ≡ b & a
and_comm a b = and_comm_fuel (a + b) a b (omega arith) (omega arith)

or_comm_fuel : (n a b : ℕ) → a ≤ n → b ≤ n → a ∣ b ≡ b ∣ a
or_comm_fuel zero zero zero p q = refl
or_comm_fuel zero (suc a) b p q = absurd (omega arith)
or_comm_fuel zero zero (suc b) p q = absurd (omega arith)
or_comm_fuel (suc n) a b p q =
    omega (
      arith,
      or-digit a b,
      or-digit b a,
      or_comm_fuel n (a / 2) (b / 2) (omega arith) (omega arith),
    )

pub or_comm : (a b : ℕ) → a ∣ b ≡ b ∣ a
or_comm a b = or_comm_fuel (a + b) a b (omega arith) (omega arith)

-- A mask takes no more than it has.
and-le_fuel : (n a b : ℕ) → a ≤ n → a & b ≤ b
and-le_fuel zero zero b p = omega (arith, zero-and b)
and-le_fuel zero (suc a) b p = absurd (omega arith)
and-le_fuel (suc n) a b p =
    omega (arith, and-digit a b, and-le_fuel n (a / 2) (b / 2) (omega arith))

pub and-le : (a b : ℕ) → a & b ≤ b
and-le a b = and-le_fuel a a b (omega arith)

-- What is left of a word in another mask, after a mask.
pub masked : (a m k r : ℕ) → m & k ≡ r → (a & m) & k ≡ a & r
masked a m k r e = and_assoc a m k ∙ ap (λ t. a & t) e

-- The flags of a mask, of a word whose part was cleared and then set.
pub or-masked : (a v m k r s : ℕ) → m & k ≡ r → v & k ≡ s → ((a & m) ∣ v) & k ≡ (a & r) ∣ s
or-masked a v m k r s e f = or-and (a & m) v k ∙ ap₂ (λ x y. x ∣ y) (masked a m k r e) f

-- The bits of a mask above those of a number.
pub and_high : (k a b : ℕ) → a < 2 ^ k → a & (b * 2 ^ k) ≡ 0
and_high zero a b h = ap (λ t. t & (b * 1)) {y = 0} (omega arith) ∙ zero-and (b * 1)
and_high (suc k) a b h = omega (
  arith,
  and-digit a (b * 2 ^ suc k),
  pow-suc 2 k,
  ap (λ t. b * t) (pow-suc 2 k),
  ap (λ t. a / 2 & t) {x = b * 2 ^ suc k / 2} {y = b * 2 ^ k}
      (omega (arith, ap (λ t. b * t) (pow-suc 2 k))),
  and_high k (a / 2) b (omega (arith, pow-suc 2 k)),
)

-- The lowest `k` bits.
pub and-ones : (k a : ℕ) → a < 2 ^ k → a & (2 ^ k - 1) ≡ a
and-ones zero a h = ap (λ t. t & 0) {y = 0} (omega arith) ∙ zero-and 0 ∙ omega arith
and-ones (suc k) a h = omega (
  arith,
  and-digit a (2 ^ suc k - 1),
  pow-suc 2 k,
  one-le-pow k 2,
  ap (λ t. a / 2 & t) {x = (2 ^ suc k - 1) / 2} {y = 2 ^ k - 1}
      (omega (arith, pow-suc 2 k, one-le-pow k 2)),
  and-ones k (a / 2) (omega (arith, pow-suc 2 k)),
)

-- The word stays as wide as the two were.
pub or-lt : (k a b : ℕ) → a < 2 ^ k → b < 2 ^ k → a ∣ b < 2 ^ k
or-lt zero zero zero p q = omega (arith, zero-or 0)
or-lt zero (suc a) b p q = absurd (omega arith)
or-lt zero zero (suc b) p q = absurd (omega arith)
or-lt (suc k) a b p q = omega (
  arith,
  or-digit a b,
  pow-suc 2 k,
  or-lt k (a / 2) (b / 2) (omega (arith, pow-suc 2 k)) (omega (arith, pow-suc 2 k)),
)

or-ge_fuel : (n a b : ℕ) → a ≤ n → b ≤ a ∣ b
or-ge_fuel zero zero b p = omega (arith, zero-or b)
or-ge_fuel zero (suc a) b p = absurd (omega arith)
or-ge_fuel (suc n) a b p = omega (arith, or-digit a b, or-ge_fuel n (a / 2) (b / 2) (omega arith))

pub or-ge : (a b : ℕ) → b ≤ a ∣ b
or-ge a b = or-ge_fuel a a b (omega arith)

-- The bits outside a mask stay when the others are cleared and set again.
pub or-outside : (a v m k : ℕ) → m & k ≡ k → v & k ≡ 0 → ((a & m) ∣ v) & k ≡ a & k
or-outside a v m k e f = or-masked a v m k k 0 e f ∙ or-zero (a & k)

pub set-outside : (a v k : ℕ) → v & k ≡ 0 → (a ∣ v) & k ≡ a & k
set-outside a v k f = or-and a v k ∙ ap (λ t. (a & k) ∣ t) f ∙ or-zero (a & k)

-- A sum of fields.
pub or_fields : (k q r : ℕ) → r < 2 ^ k → q * 2 ^ k ∣ r ≡ q * 2 ^ k + r
or_fields zero q zero h = omega (arith, or-zero (q * 1))
or_fields zero q (suc r) h = absurd (omega arith)
or_fields (suc k) q r h = omega (
  arith,
  or-digit (q * 2 ^ suc k) r,
  pow-suc 2 k,
  ap (λ t. q * t) (pow-suc 2 k),
  ap (λ t. t ∣ r / 2) {x = q * 2 ^ suc k / 2} {y = q * 2 ^ k}
      (omega (arith, ap (λ t. q * t) (pow-suc 2 k))),
  or_fields k q (r / 2) (omega (arith, pow-suc 2 k)),
)

-- A word in normal form: its masks are joined, and the parts outside a mask are gone.
pub ruleset mask_laws = (or-and, and_assoc, and-zero, or-zero, zero-or)

or-absorb_fuel : (n a m : ℕ) → a ≤ n → (a & m) ∣ m ≡ m
or-absorb_fuel zero zero m p = rw (zero-and m) (zero-or m)
or-absorb_fuel zero (suc a) m p = absurd (omega arith)
or-absorb_fuel (suc n) a m p =
    by_digits ((a & m) ∣ m) m
      (or-half (a & m) m
        ∙ ap (λ t. t ∣ m / 2) (and-half a m)
        ∙ or-absorb_fuel n (a / 2) (m / 2) (omega arith))
      (omega (arith, or-low (a & m) m, and-low a m))

-- A mask that is set whole.
pub or-absorb : (a m : ℕ) → (a & m) ∣ m ≡ m
or-absorb a m = or-absorb_fuel a a m (omega arith)
