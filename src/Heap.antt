-- ===== src/Heap.antt =====
-- What clients use of ptk_alloc and ptk_realloc: the requested bytes alone. Whether call number
-- `call` gets `size` bytes is up to `Grants`. A size of 0 is refused, and a new block is zero. A
-- resized one keeps its bytes; behind them stands what the old block held up to its size rounded up
-- to 16, and zeros only behind that.
pub mod Refine
use protocol_toolkit.Prelude.{
  ℕ, ◌-◌, Bool, Option, none, some, List, ◌++◌, if◌then◌else◌, ◌==◌, take, length,
}
use protocol_toolkit.Prelude.Memory.{zeros}
use protocol_toolkit.Alloc.{round_up_16}

abbrev pub Grants : Type 0
Grants = ℕ → ℕ → Bool

unfoldable pub obtain : Grants → ℕ → ℕ → Option (List ℕ)
obtain grants call size =
    if size == 0 then none else if grants call size then some (zeros size) else none

-- `slack` is what the block may hold behind the bytes that were asked for.
unfoldable pub regrow : Grants → ℕ → List ℕ → List ℕ → ℕ → Option (List ℕ)
regrow grants call slack old size =
    let held = old ++ take (round_up_16 (length old) - length old) slack in
    if size == 0
    then none
    else if grants call size
    then some (take size held ++ zeros (size - length held))
    else none
