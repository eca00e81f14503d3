-- ===== src/Buf/Create.antt =====
-- ptk_buf_alloc, ptk_buf_alloc_from_data and ptk_buf_realloc over the allocator of Alloc. The
-- calls of the C library are numbered from `call` on. A result is the pointer, the thread's error,
-- and what was freed on the way; the outer `none` is an access outside a block.
use Prim.Native.String.{String}
use protocol_toolkit.Prelude.{
  ℕ, ◌+◌, Option, none, some, List, [], ◌++◌, ltb, if◌then◌else◌, ◌==◌, ◌>>=◌, take,
}
use protocol_toolkit.Prelude.Memory.{read_at, write_at}
use protocol_toolkit.Err.{PtkErr, no_resources, invalid_param, null_ptr}
use protocol_toolkit.Alloc
use protocol_toolkit.Alloc.{Libc, Block, Event, user, header_size}
use protocol_toolkit.Buf.{Buf}

-- A buffer with the blocks of the structure and of its data. What was written to the data since
-- it was allocated is in `buf.bytes` alone.
pub record Owned : Type 0 where
  pub buf : Buf
  pub self : Block
  pub storage : Block

-- The data's block as it is now: the header, and the bytes that the buffer holds.
abbrev pub current : Owned → Block
current o = record (o.storage) { raw = take header_size o.storage.raw ++ o.buf.bytes }

-- sizeof(ptk_buf): a pointer, three 16-bit numbers and padding.
abbrev pub sizeof_buf : ℕ
sizeof_buf = 16

abbrev pub Made : Type 0
Made = Option Owned × PtkErr × List Event

module _ (libc : Libc) (file : String) (call : ℕ) where
  unfoldable pub buf_alloc : ℕ → Option Made
  buf_alloc size = if size == 0 then some (none, invalid_param, []) else do
    (first, e) ← Alloc.alloc libc call file 20 sizeof_buf none
    elim first [
      | none ↦ some (none, no_resources, [])
      | some self ↦ do
        (second, e') ← Alloc.alloc libc (call + 1) file 26 size none
        elim second [
          | none ↦ some (none, no_resources, Alloc.free (some self))
          | some storage ↦ some (
            some (record {
              buf = record { bytes = user storage; data_len = size; start = 0; end = 0 };
              self = self;
              storage = storage;
            }),
            e',
            [],
          )
        ]
    ]

  -- memcpy of the first `size` bytes that `source` points to.
  unfoldable pub buf_alloc_from_data : Option (List ℕ) → ℕ → Option Made
  buf_alloc_from_data none size = some (none, null_ptr, [])
  buf_alloc_from_data (some source) size = do
    (made, e, events) ← buf_alloc size
    elim made [
      | none ↦ some (none, e, events)
      | some o ↦ do
        copied ← read_at source 0 size
        bytes ← write_at o.buf.bytes 0 copied
        some (
          some (record o { buf = record (o.buf) { bytes = bytes; start = 0; end = size } }),
          e,
          events,
        )
    ]

  -- On failure the buffer stays as it is. On success the answer is the same pointer.
  unfoldable pub buf_realloc : Option Owned → ℕ → Option Made
  buf_realloc none new_size = some (none, null_ptr, [])
  buf_realloc (some o) new_size = if new_size == 0 then some (none, invalid_param, []) else do
    (moved, e) ← Alloc.realloc libc call file 66 (some (current o)) new_size
    elim moved [
      | none ↦ some (none, no_resources, [])
      | some storage ↦ some (
        some (record o {
          buf = record {
            bytes = user storage;
            data_len = new_size;
            start = if ltb new_size o.buf.start then new_size else o.buf.start;
            end = if ltb new_size o.buf.end then new_size else o.buf.end;
          };
          storage = storage;
        }),
        e,
        [],
      )
    ]
