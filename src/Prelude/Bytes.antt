-- ===== src/Prelude/Bytes.antt =====
-- Byte strings, and the big-endian 64-bit words of encoding/binary.
use Prim.Native.Nat.{ℕ, ◌+◌, ◌*◌, ◌/◌, ◌%◌, ◌^◌, ◌<◌}
use Prim.Native.Char.{code}
use Prim.Native.String.{String}
use mathlib.Core.Path.{◌≡◌}
use mathlib.Core.List.{List, [], ◌∷◌}
use mathlib.Core.Logic.{◌↔◌}
use mathlib.Core.Bool.{Bool, true, false, ◌&&◌}
use native.Mathlib.Omega.{arith}
use daemontest.Prelude.Lists.{set}
use daemontest.Prelude.Tests.{◌==◌}

abbrev pub Bytes : Type 0
Bytes = List ℕ

-- The code points of a text: its bytes, if it is ASCII.
abbrev pub codes : String → Bytes
codes String.[] = []
codes (String.◌∷◌ c s) = code c ∷ codes s

abbrev pub u64_mod : ℕ
u64_mod = 2 ^ 64

-- `binary.BigEndian.PutUint64`
unfoldable pub put_uint64 : ℕ → Bytes
put_uint64 n =
    (n / 2 ^ 56 % 256)
    ∷ (n / 2 ^ 48 % 256)
    ∷ (n / 2 ^ 40 % 256)
    ∷ (n / 2 ^ 32 % 256)
    ∷ (n / 2 ^ 24 % 256)
    ∷ (n / 2 ^ 16 % 256)
    ∷ (n / 2 ^ 8 % 256)
    ∷ (n % 256)
    ∷ []

-- `binary.BigEndian.Uint64`, on the bytes of a slice
unfoldable pub uint64_onto : ℕ → Bytes → ℕ
uint64_onto acc [] = acc
uint64_onto acc (b ∷ bs) = uint64_onto (acc * 256 + b) bs

unfoldable pub uint64 : Bytes → ℕ
unfolding uint64_onto
uint64 = uint64_onto 0

pub uint64-put_uint64 : (n : ℕ) → n < u64_mod → uint64 (put_uint64 n) ≡ n
unfolding uint64 put_uint64
uint64-put_uint64 n h = omega arith

pub put_uint64-injective :
    (m n : ℕ) → m < u64_mod → n < u64_mod → put_uint64 m ≡ put_uint64 n → m ≡ n
put_uint64-injective m n hm hn e = rw (← uint64-put_uint64 m hm, e) (uint64-put_uint64 n hn)

-- `strings.HasPrefix`
unfoldable pub has_prefix : Bytes → Bytes → Bool
has_prefix s [] = true
has_prefix [] (p ∷ ps) = false
has_prefix (b ∷ s) (p ∷ ps) = b == p && has_prefix s ps

-- `==` on strings
unfoldable pub bytes_eq : Bytes → Bytes → Bool
bytes_eq [] [] = true
bytes_eq (a ∷ s) (b ∷ t) = a == b && bytes_eq s t
bytes_eq _ _ = false

pub bytes_eq_iff : (s t : Bytes) → (bytes_eq s t ≡ true) ↔ (s ≡ t)
unfolding bytes_eq
bytes_eq_iff [] [] = ground arith
bytes_eq_iff (a ∷ s) (b ∷ t) = ground (arith, bytes_eq_iff s t)
bytes_eq_iff _ _ = ground arith

-- `copy(dst[at:], src)`: as many bytes as both have.
unfoldable pub copy_at : ℕ → Bytes → Bytes → Bytes
copy_at at [] dst = dst
copy_at at (b ∷ src) dst = copy_at (at + 1) src (set dst at b)
