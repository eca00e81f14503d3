-- ===== src/Buf.antt =====
-- struct ptk_buf (include/ptk_buf.h) and the cursor operations of lib/ptk_buf.c. An operation
-- that gets a pointer takes an `Option`: `none` is NULL. One that changes the buffer returns it.
pub mod Inv
pub mod Move
pub mod Create
pub mod Made
pub mod Resized
use protocol_toolkit.Prelude.{
  ℕ, ◌+◌, ◌-◌, ◌%◌, ◌^◌, ◌<◌, ◌≤◌, Option, none, some, List, ltb, if◌then◌else◌, ◌==◌, ◌>>=◌,
  length, ◌≡◌,
}
use protocol_toolkit.Prelude.Memory.{read_at, write_at}
use protocol_toolkit.Err.{PtkErr, ok, null_ptr, out_of_bounds}

-- `(buf_size_t)n`, a uint16_t.
abbrev pub buf_size : ℕ → ℕ
buf_size n = n % 2 ^ 16

-- `bytes` is the block that `data` points to.
pub record Buf : Type 0 where
  pub bytes : List ℕ
  pub data_len : ℕ
  pub start : ℕ
  pub end : ℕ

unfoldable pub get_len : Option Buf → ℕ
get_len none = 0
get_len (some b) = buf_size (b.end + 2 ^ 16 - b.start)

unfoldable pub get_capacity : Option Buf → ℕ
get_capacity none = 0
get_capacity (some b) = b.data_len

unfoldable pub get_start : Option Buf → ℕ
get_start none = 0
get_start (some b) = b.start

unfoldable pub set_start : Option Buf → ℕ → PtkErr × Option Buf
set_start none s = (null_ptr, none)
set_start (some b) s =
    if ltb b.data_len s then (out_of_bounds, some b) else (ok, some (record b { start = s }))

unfoldable pub get_end : Option Buf → ℕ
get_end none = 0
get_end (some b) = b.end

unfoldable pub set_end : Option Buf → ℕ → PtkErr × Option Buf
set_end none e = (null_ptr, none)
set_end (some b) e =
    if ltb b.data_len e then (out_of_bounds, some b) else (ok, some (record b { end = e }))

-- The sum that is compared is an `int`, so it does not wrap; `block_size` is a uint16_t and does.
-- The result is `none` where `memmove` leaves the block. `data` is not NULL.
unfoldable pub move_block : Option Buf → ℕ → Option (PtkErr × Option Buf)
move_block none p = some (null_ptr, none)
move_block (some b) p =
    let size = buf_size (b.end + 2 ^ 16 - b.start) in
    if ltb b.data_len (p + size) then some (out_of_bounds, some b) else do
      block ← read_at b.bytes b.start size
      moved ← write_at b.bytes p block
      some (ok, some (record b { bytes = moved; start = p; end = buf_size (p + size) }))
