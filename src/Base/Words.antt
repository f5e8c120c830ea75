-- ===== src/Base/Words.antt =====
-- Bytes, little-endian words and the sizes of machine integers.
use Prim.Native.Nat.{ℕ, ◌+◌, ◌-◌, ◌*◌, ◌/◌, ◌%◌, ◌^◌, ◌<◌}
use mathlib.Core.Path.{◌≡◌}
use mathlib.Core.List.{List, [], ◌∷◌}
use native.Mathlib.Omega.{arith}
use open_boot.Base.Lists.{All}

abbrev pub IsByte : ℕ → Type 0
IsByte b = b < 256

abbrev pub IsU16 : ℕ → Type 0
IsU16 x = x < 2 ^ 16

abbrev pub IsU32 : ℕ → Type 0
IsU32 x = x < 2 ^ 32

abbrev pub IsU64 : ℕ → Type 0
IsU64 x = x < 2 ^ 64

abbrev pub Bytes : Type 0
Bytes = List ℕ

-- `x.to_le_bytes()` of a u16, u32 and u64.
abbrev pub u16_le : ℕ → Bytes
u16_le x = x % 256 ∷ x / 2 ^ 8 % 256 ∷ []

abbrev pub u32_le : ℕ → Bytes
u32_le x = x % 256 ∷ x / 2 ^ 8 % 256 ∷ x / 2 ^ 16 % 256 ∷ x / 2 ^ 24 % 256 ∷ []

-- `u32::from_le_bytes([a, b, c, d])`.
abbrev pub u32_of : ℕ → ℕ → ℕ → ℕ → ℕ
u32_of a b c d = a + b * 2 ^ 8 + c * 2 ^ 16 + d * 2 ^ 24

-- A division that rounds up, `a.div_ceil(b)`, for b above 0.
abbrev pub div_ceil : ℕ → ℕ → ℕ
div_ceil a b = (a + (b - 1)) / b

pub u32_of-u32_le :
    (x : ℕ) → IsU32 x → u32_of (x % 256) (x / 2 ^ 8 % 256) (x / 2 ^ 16 % 256) (x / 2 ^ 24 % 256) ≡ x
u32_of-u32_le x h = omega arith

pub u32_le-u32_of :
    (a b c d : ℕ)
    → IsByte a
    → IsByte b
    → IsByte c
    → IsByte d
    → u32_le (u32_of a b c d) ≡ a ∷ b ∷ c ∷ d ∷ []
u32_le-u32_of a b c d ha hb hc hd = ground arith

pub u32_of-IsU32 :
    (a b c d : ℕ) → IsByte a → IsByte b → IsByte c → IsByte d → IsU32 (u32_of a b c d)
u32_of-IsU32 a b c d ha hb hc hd = omega arith

pub u32_le-IsByte : (x : ℕ) → All IsByte (u32_le x)
u32_le-IsByte x = omega arith
