-- ===== src/Common/Integers.antt =====
-- Signed integers over the native numbers.
use Prim.Native.Nat.{ℕ, zero, suc, ◌+◌, ◌-◌}
use mathlib.Core.Path.{◌≡◌}
use mathlib.Core.Bool.{Bool, true, false}
use native.Mathlib.Omega.{arith}
use daemon_supply_chain.Common.Tests.{leb, if◌then◌else◌}

-- `negsuc n` is -(n + 1).
pub data ℤ : Type 0 where
  pos : ℕ → ℤ
  negsuc : ℕ → ℤ

-- a - b, as an integer.
abbrev pub sub_ℕ : ℕ → ℕ → ℤ
sub_ℕ a b = if leb b a then pos (a - b) else negsuc (b - a - 1)

abbrev pub is_zero : ℤ → Bool
is_zero (pos zero) = true
is_zero (pos (suc n)) = false
is_zero (negsuc n) = false

-- The number that is so much more than another.
abbrev pub Exceeds : ℕ → ℤ → ℕ → Type 0
Exceeds a (pos d) b = a ≡ b + d
Exceeds a (negsuc d) b = a + suc d ≡ b

pub sub_ℕ-Exceeds : (a b : ℕ) → Exceeds a (sub_ℕ a b) b
sub_ℕ-Exceeds a b = ground arith
