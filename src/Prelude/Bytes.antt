-- ===== src/Prelude/Bytes.antt =====
-- Numbers as lists of bytes, least significant first, and the reversal of a number's bytes.
use Prim.Native.Nat.{ℕ, zero, suc, ◌+◌, ◌*◌, ◌/◌, ◌%◌, ◌^◌, ◌<◌}
use mathlib.Core.Path.{◌≡◌, refl, ap, ap₂, ◌∙◌}
use mathlib.Core.List.{List, [], ◌∷◌}
use native.Mathlib.Omega.{arith}
use native.Mathlib.Nat.{pow-suc}
use protocol_toolkit.Prelude.Lists.{length, All}

abbrev pub IsByte : ℕ → Type 0
IsByte b = b < 256

unfoldable pub to_le : ℕ → ℕ → List ℕ
to_le zero v = []
to_le (suc n) v = (v % 256) ∷ to_le n (v / 256)

unfoldable pub from_le : List ℕ → ℕ
from_le [] = 0
from_le (b ∷ bs) = b + 256 * from_le bs

pub length-to_le : (n v : ℕ) → length (to_le n v) ≡ n
unfolding to_le
length-to_le zero v = refl
length-to_le (suc n) v = ap suc (length-to_le n (v / 256))

pub to_le-All : (n v : ℕ) → All IsByte (to_le n v)
unfolding to_le
to_le-All zero v = tt
to_le-All (suc n) v = (omega arith, to_le-All n (v / 256))

pub from_le-to_le : (n v : ℕ) → v < 256 ^ n → from_le (to_le n v) ≡ v
unfolding to_le from_le
from_le-to_le zero v h = omega arith
from_le-to_le (suc n) v h = omega (arith, from_le-to_le n (v / 256) (omega (arith, pow-suc 256 n)))

pub to_le-from_le :
    (n : ℕ) (bs : List ℕ) → length bs ≡ n → All IsByte bs → to_le n (from_le bs) ≡ bs
unfolding to_le from_le
to_le-from_le zero [] h a = refl
to_le-from_le zero (b ∷ bs) h a = absurd (omega arith)
to_le-from_le (suc n) [] h a = absurd (omega arith)
to_le-from_le (suc n) (b ∷ bs) h (ab, abs) =
    ap₂ ◌∷◌ (omega arith) (ap (to_le n) (omega arith) ∙ to_le-from_le n bs (omega arith) abs)

pub from_le-lt : (bs : List ℕ) → All IsByte bs → from_le bs < 256 ^ length bs
unfolding from_le
from_le-lt [] a = omega arith
from_le-lt (b ∷ bs) (ab, abs) = omega (arith, from_le-lt bs abs, pow-suc 256 (length bs))
