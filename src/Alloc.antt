-- ===== src/Alloc.antt =====
-- lib/ptk_alloc.c: blocks behind a header, zeroed, rounded up to 16 bytes. The C library's
-- aligned_alloc and realloc are the parameter `Libc`; the log lines are left out. An operation
-- returns the pointer (`none` is NULL) and the error that ptk_set_err stores for the thread; the
-- outer `none` is a write outside the block.
pub mod Laws
pub mod Resize
use Prim.Native.Nat.{bit_and}
use Prim.Native.String.{String}
use protocol_toolkit.Prelude.{
  ℕ, ◌+◌, ◌-◌, ◌%◌, ◌^◌, ◌≤◌, Option, none, some, List, [], ◌∷◌, ltb, if◌then◌else◌, ◌==◌, ◌>>=◌,
  length, take, drop, min, ◌≡◌,
}
use protocol_toolkit.Prelude.Memory.{write_at, zeros}
use protocol_toolkit.Err.{PtkErr, ok, no_resources, invalid_param}

-- What the code relies on of the C library. Both functions are told which call of the program
-- this is, and may answer each call differently; `none` is a failure. `realloc` gets the old block.
pub record Libc : Type 0 where
  pub aligned_alloc : ℕ → ℕ → Option (List ℕ)
  pub realloc : ℕ → List ℕ → ℕ → Option (List ℕ)
  pub length-aligned_alloc :
      (call n : ℕ) (raw : List ℕ) → aligned_alloc call n ≡ some raw → length raw ≡ n
  pub length-realloc :
      (call : ℕ) (old : List ℕ) (n : ℕ) (raw : List ℕ)
      → realloc call old n ≡ some raw
      → length raw ≡ n
  pub take-realloc :
      (call : ℕ) (old : List ℕ) (n : ℕ) (raw : List ℕ)
      → realloc call old n ≡ some raw
      → take (min (length old) n) raw ≡ take (min (length old) n) old

-- `(size_t)n`.
abbrev pub size_t : ℕ → ℕ
size_t n = n % 2 ^ 64

-- ptk_alloc_header_t; a destructor is known by a number.
pub record Header : Type 0 where
  pub destructor : Option ℕ
  pub size : ℕ
  pub file : String
  pub line : ℕ

-- sizeof(ptk_alloc_header_t), where pointers and size_t have eight bytes.
abbrev pub header_size : ℕ
header_size = 32

-- `raw` is the whole block of the C library; its first bytes hold the header, kept apart here.
pub record Block : Type 0 where
  pub header : Header
  pub raw : List ℕ

-- The bytes behind the pointer that the user gets.
abbrev pub user : Block → List ℕ
user b = drop header_size b.raw

-- `(sz + 15) & ~15`.
unfoldable pub round_up_16 : ℕ → ℕ
round_up_16 sz = bit_and (size_t (sz + 16 - 1)) (2 ^ 64 - 16)

module _ (libc : Libc) (call : ℕ) (file : String) (line : ℕ) where
  unfoldable pub alloc : ℕ → Option ℕ → Option (Option Block × PtkErr)
  alloc size destructor =
      if size == 0
      then some (none, invalid_param)
      else let user_size = round_up_16 size in
        let total_size = size_t (header_size + user_size) in
        elim (libc.aligned_alloc call (round_up_16 total_size)) [
          | none ↦ some (none, no_resources)
          | some raw ↦ do
            zeroed ← write_at raw header_size (zeros user_size)
            some (
              some (record {
                header = record {
                  destructor = destructor;
                  size = user_size;
                  file = file;
                  line = line;
                };
                raw = zeroed;
              }),
              ok,
            )
        ]

  -- On failure the old block stays as it is.
  unfoldable pub realloc : Option Block → ℕ → Option (Option Block × PtkErr)
  realloc none new_size = some (none, invalid_param)
  realloc (some b) new_size =
      if new_size == 0
      then some (none, invalid_param)
      else let old_size = b.header.size in
        let user_size = round_up_16 new_size in
        let total_size = size_t (header_size + user_size) in
        elim (libc.realloc call b.raw (round_up_16 total_size)) [
          | none ↦ some (none, no_resources)
          | some raw ↦ do
            zeroed ←
                if ltb old_size user_size
                then write_at raw (header_size + old_size) (zeros (user_size - old_size))
                else some raw
            some (
              some (record {
                header = record (b.header) { size = user_size; file = file; line = line };
                raw = zeroed;
              }),
              ok,
            )
        ]

-- What ptk_free does, in order: the destructor's call, then the C library's free.
pub data Event : Type 0 where
  destroyed : ℕ → Event
  freed : Event

unfoldable pub free : Option Block → List Event
free none = []
free (some b) = elim (b.header.destructor) [ none ↦ freed ∷ [] | some d ↦ destroyed d ∷ freed ∷ [] ]
