-- ===== src/Base/Bits.antt =====
-- Facts on the bits of one byte, by evaluation over all bytes.
use Prim.Native.Nat.{ℕ, zero, suc, ◌+◌, ◌<◌, bit_or}
use mathlib.Core.Path.{◌≡◌, refl}
use mathlib.Core.Bool.{Bool, true, ◌&&◌}
use native.Mathlib.Omega.{arith}
use open_boot.Base.Tests.{◌==◌, ==_iff}

-- Whether p holds of every number below the bound.
unfoldable pub all_below : ℕ → (ℕ → Bool) → Bool
all_below zero p = true
all_below (suc n) p = p n && all_below n p

pub all_below_lem : (n : ℕ) (p : ℕ → Bool) (x : ℕ) → all_below n p ≡ true → x < n → p x ≡ true
unfolding all_below
all_below_lem zero p x h lt = absurd (omega arith)
all_below_lem (suc n) p x h lt = ground (arith, all_below_lem n p x)

top_bit_table : all_below 128 (λ x. bit_or x 0x80 == x + 128) ≡ true
unfolding all_below
top_bit_table = refl

-- Setting the top bit of a number below 128 adds 128.
pub bit_or_top : (x : ℕ) → x < 128 → bit_or x 0x80 ≡ x + 128
bit_or_top x h = (==_iff _ _).0 (all_below_lem 128 _ x top_bit_table h)
