-- ===== src/Prelude/Integers.antt =====
-- Integers over the native numbers, each with its part above and its part below 0.
use Prim.Native.Nat.{ℕ, suc, ◌-◌}
use mathlib.Core.Path.{◌≡◌}
use native.Mathlib.Omega.{arith}
use protocol_toolkit.Prelude.Tests.{leb, if◌then◌else◌}

pub data ℤ : Type 0 where
  pos : ℕ → ℤ
  negsuc : ℕ → ℤ

-- One of the two is 0, and the integer is their difference.
abbrev pub above : ℤ → ℕ
above (pos n) = n
above (negsuc n) = 0

abbrev pub below : ℤ → ℕ
below (pos n) = 0
below (negsuc n) = suc n

-- `a - b`.
unfoldable pub diff : ℕ → ℕ → ℤ
diff a b = if leb b a then pos (a - b) else negsuc (b - a - 1)

pub above-diff : (a b : ℕ) → above (diff a b) ≡ a - b
unfolding diff
above-diff a b = ground arith

pub below-diff : (a b : ℕ) → below (diff a b) ≡ b - a
unfolding diff
below-diff a b = ground arith
