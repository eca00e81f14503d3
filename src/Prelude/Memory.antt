-- ===== src/Prelude/Memory.antt =====
-- A block of memory as a list of bytes: reads and writes of a range, and what `memcpy`,
-- `memmove` and `memset` do with one. A range that does not lie in the block has no result.
use Prim.Native.Nat.{ℕ, ◌+◌, ◌<◌, ◌≤◌}
use mathlib.Core.Path.{◌≡◌, refl, ap, ◌∙◌, sym}
use mathlib.Core.List.{List, [], ◌++◌, append_assoc}
use mathlib.Core.Option.{Option, none, some}
use native.Mathlib.Omega.{arith}
use protocol_toolkit.Prelude.Tests.{leb, le→leb, lt→leb, if◌then◌else◌}
use protocol_toolkit.Prelude.Lists.{
  length, take, drop, length-append, length-take, length-drop, take_exact, drop_exact,
  take-append_left, take-take, replicate, length-replicate,
}

-- `memset(p, 0, n)` writes these.
unfoldable pub zeros : ℕ → List ℕ
zeros n = replicate n 0

pub length-zeros : (n : ℕ) → length (zeros n) ≡ n
unfolding zeros
length-zeros n = length-replicate {A = ℕ} n 0

pub zeros-nil : zeros 0 ≡ []
unfolding zeros
zeros-nil = refl

-- The `n` bytes from `off` on.
unfoldable pub read_at : List ℕ → ℕ → ℕ → Option (List ℕ)
read_at mem off n = if leb (off + n) (length mem) then some (take n (drop off mem)) else none

-- The block with `src` put over the bytes from `off` on.
abbrev pub overlay : List ℕ → ℕ → List ℕ → List ℕ
overlay mem off src = take off mem ++ (src ++ drop (off + length src) mem)

unfoldable pub write_at : List ℕ → ℕ → List ℕ → Option (List ℕ)
write_at mem off src =
    if leb (off + length src) (length mem) then some (overlay mem off src) else none

pub read_at-some :
    (mem : List ℕ) (off n : ℕ)
    → off + n ≤ length mem
    → read_at mem off n ≡ some (take n (drop off mem))
unfolding read_at
read_at-some mem off n h = rw (le→leb _ _ h)

pub read_at-none : (mem : List ℕ) (off n : ℕ) → length mem < off + n → read_at mem off n ≡ none
unfolding read_at
read_at-none mem off n h = rw (lt→leb _ _ h)

pub write_at-some :
    (mem : List ℕ) (off : ℕ) (src : List ℕ)
    → off + length src ≤ length mem
    → write_at mem off src ≡ some (overlay mem off src)
unfolding write_at
write_at-some mem off src h = rw (le→leb _ _ h)

pub length-overlay :
    (mem : List ℕ) (off : ℕ) (src : List ℕ)
    → off + length src ≤ length mem
    → length (overlay mem off src) ≡ length mem
length-overlay mem off src h = omega (
  arith,
  length-append (take off mem) (src ++ drop (off + length src) mem),
  length-append src (drop (off + length src) mem),
  length-take off mem,
  length-drop (off + length src) mem,
)

-- A write ends the bytes before its end with `src`.
pub take-overlay :
    (mem : List ℕ) (off n : ℕ) (src : List ℕ)
    → off + length src ≤ length mem
    → n ≡ off + length src
    → take n (overlay mem off src) ≡ take off mem ++ src
take-overlay mem off n src h e =
    ap (take n) (sym (append_assoc (take off mem) src (drop (off + length src) mem)))
    ∙ take_exact n (take off mem ++ src) _
        (omega (arith, length-append (take off mem) src, length-take off mem))

-- A write changes nothing before its start.
pub take-overlay_before :
    (mem : List ℕ) (off n : ℕ) (src : List ℕ)
    → off ≤ length mem
    → n ≤ off
    → take n (overlay mem off src) ≡ take n mem
take-overlay_before mem off n src h e =
    take-append_left n (take off mem) _ (omega (arith, length-take off mem)) ∙ take-take n off mem e

-- Reading the range that was just written gives `src` back.
pub read_at-overlay :
    (mem : List ℕ) (off n : ℕ) (src : List ℕ)
    → off + length src ≤ length mem
    → n ≡ length src
    → read_at (overlay mem off src) off n ≡ some src
read_at-overlay mem off n src h e =
    read_at-some _ off n (omega (arith, length-overlay mem off src h))
    ∙ ap some (
        ap (take n) (drop_exact off (take off mem) _ (omega (arith, length-take off mem)))
        ∙ take_exact n src _ (omega arith))
