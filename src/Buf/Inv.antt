-- ===== src/Buf/Inv.antt =====
-- What every operation of lib/ptk_buf.c keeps of a buffer, and its contents as a byte queue.
use protocol_toolkit.Prelude.{
  ℕ, ◌+◌, ◌-◌, ◌^◌, ◌<◌, ◌≤◌, Option, none, some, List, length, take, drop, ◌≡◌, arith, length-take,
  length-drop,
}
use protocol_toolkit.Err.{ok}
use protocol_toolkit.Buf.{Buf, get_len, set_start, set_end}

-- Both cursors lie within the stated length, which the block has at least, and which fits the
-- 16-bit sizes.
pub record IsSafe (b : Buf) : Type 0 where
  pub block : b.data_len ≤ length b.bytes
  pub small : b.data_len < 2 ^ 16
  pub start_in : b.start ≤ b.data_len
  pub end_in : b.end ≤ b.data_len

-- Further the cursors are in order.
pub record IsValid (b : Buf) : Type 0 where
  pub block : b.data_len ≤ length b.bytes
  pub small : b.data_len < 2 ^ 16
  pub ordered : b.start ≤ b.end
  pub end_in : b.end ≤ b.data_len

pub IsValid-IsSafe : (b : Buf) → IsValid b → IsSafe b
IsValid-IsSafe b v = omega arith

-- The bytes written and not yet read, first in first out.
abbrev pub pending : Buf → List ℕ
pending b = drop b.start (take b.end b.bytes)

pub length-pending : (b : Buf) → IsValid b → length (pending b) ≡ b.end - b.start
length-pending b v =
    omega (arith, length-drop b.start (take b.end b.bytes), length-take b.end b.bytes)

-- A property of what a pointer points to.
abbrev pub AtPtr : (Buf → Type 0) → Option Buf → Type 0
AtPtr P none = Unit
AtPtr P (some b) = P b

-- For a valid buffer ptk_buf_get_len is the number of pending bytes.
pub get_len-pending : (b : Buf) → IsValid b → get_len (some b) ≡ length (pending b)
unfolding get_len
get_len-pending b v = omega (arith, length-pending b v)

-- ptk_buf_set_start and ptk_buf_set_end keep both cursors in the block, whatever is asked.
pub set_cursor-IsSafe :
    (b : Buf) (n : ℕ)
    → IsSafe b
    → AtPtr IsSafe (set_start (some b) n).1 × AtPtr IsSafe (set_end (some b) n).1
unfolding set_start set_end
set_cursor-IsSafe b n v = ground arith

-- ptk_buf_set_start can put the start behind the end; the length then wraps: it is 2^16 less the
-- distance, more than the block holds.
pub get_len_wraps :
    (b : Buf) (s : ℕ)
    → IsSafe b
    → b.end < s
    → s ≤ b.data_len
    → ((set_start (some b) s).0 ≡ ok)
      × (get_len (set_start (some b) s).1 ≡ 2 ^ 16 - (s - b.end))
      × (b.data_len < get_len (set_start (some b) s).1 + s)
unfolding set_start get_len
get_len_wraps b s v h k = ground arith
