-- ===== src/Modbus/BitArray.antt =====
-- modbus_bit_array.c: packed bits for coils and discrete inputs. Pointers are `Option`s; the outer
-- `none` is an access outside the bytes. `call` numbers the calls of the allocator.
pub mod Bits
pub mod Laws
pub mod Resize
use Prim.Native.Nat.{bit_and, bit_or}
use protocol_toolkit.Prelude.{
  ℕ, ◌+◌, ◌-◌, ◌*◌, ◌/◌, ◌%◌, ◌^◌, ◌<◌, Bool, true, false, not, Option, none, some, List, [], ltb,
  leb, if◌then◌else◌, ◌==◌, ◌>>=◌, get_elem?, set, take, length, ◌&&◌, ◌||◌,
}
use protocol_toolkit.Prelude.Memory.{read_at, write_at, zeros}
use protocol_toolkit.Err.{PtkErr, ok, null_ptr, out_of_bounds, invalid_param, no_resources}
use protocol_toolkit.Alloc.{size_t}
use protocol_toolkit.Heap.{Grants, obtain, regrow}

-- `bytes` is what the pointer gives, which is not NULL.
pub record BitArray : Type 0 where
  pub bytes : List ℕ
  pub len : ℕ

-- `(n + 7) / 8`.
abbrev pub byte_count : ℕ → ℕ
byte_count n = size_t (n + 7) / 8

-- sizeof(modbus_bit_array_t).
abbrev pub sizeof_bit_array : ℕ
sizeof_bit_array = 16

module _ (grants : Grants) (call : ℕ) where
  unfoldable pub create : ℕ → Option (Option BitArray)
  create num_bits =
      if num_bits == 0 then some none else elim (obtain grants call sizeof_bit_array) [
        | none ↦ some none
        | some self ↦ elim (obtain grants (call + 1) (byte_count num_bits)) [
          | none ↦ some none
          | some bytes ↦ do
            cleared ← write_at bytes 0 (zeros (byte_count num_bits))
            some (some (record { bytes = cleared; len = num_bits }))
        ]
      ]

-- `(byte & (1 << bit)) != 0`, and the byte with the bit set or cleared; `~` is that of an int.
unfoldable pub bit_of : ℕ → ℕ → Bool
bit_of byte bit = not (bit_and byte (2 ^ bit) == 0)

unfoldable pub with_bit : ℕ → ℕ → Bool → ℕ
with_bit byte bit true = bit_or byte (2 ^ bit)
with_bit byte bit false = bit_and byte (2 ^ 32 - 1 - 2 ^ bit) % 2 ^ 8

-- The value is what is stored through `value`; `has_value` is false where that is NULL.
unfoldable pub get : Option BitArray → ℕ → Bool → Option (PtkErr × Option Bool)
get none index has_value = some (null_ptr, none)
get (some arr) index has_value =
    if not has_value
    then some (null_ptr, none)
    else if leb arr.len index
    then some (out_of_bounds, none)
    else do byte ← get_elem? arr.bytes (index / 8); some (ok, some (bit_of byte (index % 8)))

unfoldable pub set_bit : Option BitArray → ℕ → Bool → Option (PtkErr × Option BitArray)
set_bit none index value = some (null_ptr, none)
set_bit (some arr) index value = if leb arr.len index then some (out_of_bounds, some arr) else do
  byte ← get_elem? arr.bytes (index / 8)
  some (
    ok,
    some (record arr { bytes = set arr.bytes (index / 8) (with_bit byte (index % 8) value) }),
  )

unfoldable pub bit_array_len : Option BitArray → ℕ
bit_array_len none = 0
bit_array_len (some arr) = arr.len

module _ (grants : Grants) (call : ℕ) where
  -- `slack` is what the block of the bytes may hold behind them.
  unfoldable pub resize : List ℕ → Option BitArray → ℕ → Option (PtkErr × Option BitArray)
  resize slack none new_len = some (null_ptr, none)
  resize slack (some arr) new_len =
      if new_len == 0
      then some (invalid_param, some arr)
      else let old_bytes = byte_count arr.len in
        let new_bytes = byte_count new_len in
        if old_bytes == new_bytes
        then some (ok, some (record arr { len = new_len }))
        else elim (regrow grants call slack arr.bytes new_bytes) [
          | none ↦ some (no_resources, some arr)
          | some bytes ↦ do
            cleared ←
                if ltb old_bytes new_bytes
                then write_at bytes old_bytes (zeros (new_bytes - old_bytes))
                else some bytes
            some (ok, some (record { bytes = cleared; len = new_len }))
        ]

  unfoldable pub copy : Option BitArray → Option (Option BitArray)
  copy none = some none
  copy (some src) = if src.len == 0 then some none else do
    dst ← create grants call src.len
    elim dst [
      | none ↦ some none
      | some arr ↦ do
        block ← read_at src.bytes 0 (byte_count src.len)
        bytes ← write_at arr.bytes 0 block
        some (some (record arr { bytes = bytes }))
    ]

-- `bytes` is not NULL in this model, so only the length is left to test.
unfoldable pub is_valid : Option BitArray → Bool
is_valid none = false
is_valid (some arr) = ltb 0 arr.len

module _ (grants : Grants) (call : ℕ) where
  -- The pointer that is stored through `arr`, which is not NULL.
  unfoldable pub from_bytes : Option (List ℕ) → ℕ → Option (PtkErr × Option BitArray)
  from_bytes none num_bits = some (null_ptr, none)
  from_bytes (some source) num_bits = if num_bits == 0 then some (null_ptr, none) else do
    made ← create grants call num_bits
    elim made [
      | none ↦ some (no_resources, none)
      | some arr ↦ do
        block ← read_at source 0 (byte_count num_bits)
        bytes ← write_at arr.bytes 0 block
        some (ok, some (record arr { bytes = bytes }))
    ]

-- The bytes themselves, not a copy, and their number; the results' pointers are not NULL.
unfoldable pub to_bytes : Option BitArray → PtkErr × List ℕ × ℕ
unfolding is_valid
to_bytes none = (null_ptr, [], 0)
to_bytes (some arr) =
    if is_valid (some arr) then (ok, arr.bytes, byte_count arr.len) else (invalid_param, [], 0)
