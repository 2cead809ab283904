-- ===== src/Prelude/ByteTables.antt =====
-- Facts about the bits of one byte, each a table of 256 values checked by evaluation.
use Prim.Native.Nat.{ℕ, zero, suc, ◌+◌, ◌*◌, ◌/◌, ◌<◌, bit_and, bit_or}
use mathlib.Core.Path.{◌≡◌, refl}
use mathlib.Core.Bool.{Bool, true, ◌&&◌}
use native.Mathlib.Omega.{arith}
use ambar.Prelude.Tests.{◌==◌, ==_iff}

unfoldable pub each_below : ℕ → (ℕ → Bool) → Bool
each_below zero holds = true
each_below (suc bound) holds = each_below bound holds && holds bound

pub each_below-at :
    (bound : ℕ) (holds : ℕ → Bool) (i : ℕ)
    → each_below bound holds ≡ true
    → i < bound
    → holds i ≡ true
unfolding each_below
each_below-at zero holds i tested small = absurd (omega arith)
each_below-at (suc bound) holds i tested small = ground (arith, each_below-at bound holds i)

top_bit_table : each_below 256 (λ b. bit_and b 0x80 == b / 128 * 128) ≡ true
unfolding each_below
top_bit_table = refl

-- The continuation bit of a varint's byte.
pub top_bit : (b : ℕ) → b < 256 → bit_and b 0x80 ≡ b / 128 * 128
top_bit b h = (==_iff _ _).0 (each_below-at 256 _ b top_bit_table h)

set_top_table : each_below 128 (λ b. bit_or b 0x80 == b + 128) ≡ true
unfolding each_below
set_top_table = refl

pub set_top_bit : (b : ℕ) → b < 128 → bit_or b 0x80 ≡ b + 128
set_top_bit b h = (==_iff _ _).0 (each_below-at 128 _ b set_top_table h)
