-- ===== src/Tests/Memory.antt =====
-- Blocks, the allocator and buffers.
use protocol_toolkit.Prelude.{
  ℕ, List, ◌+◌, [], arith, length, none, refl, some, take, ◌-◌, ◌<◌, ◌≡◌, ◌≤◌, ◌⊎◌,
}
use protocol_toolkit.Alloc.{header_size, round_up_16, Block, alloc, realloc}
use protocol_toolkit.Alloc.Laws.{IsFresh, alloc_lem}
use protocol_toolkit.Alloc.Resize.{IsResized, IsWhole, realloc_lem}
use protocol_toolkit.Buf.{Buf, move_block}
use protocol_toolkit.Buf.Create.{Owned, current, buf_alloc_from_data, buf_realloc}
use protocol_toolkit.Buf.Inv.{IsValid, pending}
use protocol_toolkit.Buf.Made.{IsOwned, Outcome, buf_alloc_from_data_lem}
use protocol_toolkit.Buf.Move.{move_block_lem}
use protocol_toolkit.Buf.Resized.{buf_realloc_lem}
use protocol_toolkit.Err.{no_resources, ok, out_of_bounds}
use protocol_toolkit.Heap.{obtain}
use protocol_toolkit.Heap.Refine.{alloc_refines, granted, requested}
use protocol_toolkit.Tests.Data.{block, libc, owned, request_buf, request_buf-IsValid, source_bytes}

block-IsWhole : IsWhole block
block-IsWhole = refl

owned-IsOwned : IsOwned owned
owned-IsOwned = record {
  valid = record {
    block = omega arith;
    small = omega arith;
    ordered = omega arith;
    end_in = omega arith;
  };
  whole = refl;
  usable = refl;
}

alloc_lem_example :
    ((libc.aligned_alloc 0 (header_size + round_up_16 100) ≡ none)
      × (alloc libc 0 "main.c" 7 100 none ≡ some (none, no_resources)))
    ⊎ ((raw : List ℕ) × (b : Block) × (libc.aligned_alloc 0 (header_size + round_up_16 100)
          ≡ some raw)
        × (alloc libc 0 "main.c" 7 100 none ≡ some (some b, ok))
        × IsFresh 100 none b)
alloc_lem_example = alloc_lem libc 0 "main.c" 7 100 none (omega arith) (omega arith)

realloc_lem_example :
    ((libc.realloc 0 block.raw (header_size + round_up_16 40) ≡ none)
      × (realloc libc 0 "main.c" 7 (some block) 40 ≡ some (none, no_resources)))
    ⊎ ((raw : List ℕ) × (b' : Block) × (libc.realloc 0 block.raw (header_size + round_up_16 40)
          ≡ some raw)
        × (realloc libc 0 "main.c" 7 (some block) 40 ≡ some (some b', ok))
        × IsResized block 40 b')
realloc_lem_example =
    realloc_lem libc 0 "main.c" 7 block 40 block-IsWhole (omega arith) (omega arith)

alloc_refines_example :
    requested 100 (alloc libc 0 "main.c" 7 100 none) ≡ some (obtain (granted libc) 0 100)
alloc_refines_example = alloc_refines libc "main.c" 7 0 100 (omega arith)

move_block_lem_example :
    ((0 + length (pending request_buf) ≤ request_buf.data_len)
      × ((b' : Buf) × (move_block (some request_buf) 0 ≡ some (ok, some b'))
          × IsValid b'
          × (pending b' ≡ pending request_buf)
          × (b'.start ≡ 0)
          × (b'.data_len ≡ request_buf.data_len)))
    ⊎ ((request_buf.data_len < 0 + length (pending request_buf))
        × (move_block (some request_buf) 0 ≡ some (out_of_bounds, some request_buf)))
move_block_lem_example = move_block_lem request_buf 0 request_buf-IsValid

buf_alloc_from_data_lem_example :
    Outcome libc 0 3
      (λ o. IsOwned o × (o.buf.data_len ≡ 3) × (pending o.buf ≡ take 3 source_bytes))
      (buf_alloc_from_data libc "main.c" 0 (some source_bytes) 3)
buf_alloc_from_data_lem_example =
    buf_alloc_from_data_lem libc "main.c" 0 source_bytes 3 (omega arith) (omega arith) (omega arith)

buf_realloc_lem_example :
    ((libc.realloc 0 (current owned).raw (header_size + round_up_16 5) ≡ none)
      × (buf_realloc libc "main.c" 0 (some owned) 5 ≡ some (none, no_resources, [])))
    ⊎ ((raw : List ℕ) × (o' : Owned) × (libc.realloc 0
            (current owned).raw
            (header_size + round_up_16 5)
          ≡ some raw)
        × (buf_realloc libc "main.c" 0 (some owned) 5 ≡ some (some o', ok, []))
        × IsOwned o'
        × (o'.buf.data_len ≡ 5)
        × (pending o'.buf ≡ take (5 - owned.buf.start) (pending owned.buf)))
buf_realloc_lem_example =
    buf_realloc_lem libc "main.c" 0 owned 5 owned-IsOwned (omega arith) (omega arith)
