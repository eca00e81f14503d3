-- ===== src/Codec.antt =====
-- The typed serialization of lib/ptk_buf.c and the byte swaps of include/ptk_buf.h. The host is
-- a parameter: its byte order, and its conversion from double to float. Numbers travel as bit
-- patterns. The outer `none` is an access outside the block, or a variadic argument that is not
-- there or of another type than its tag says. The buffer is not NULL here: for NULL the macros in
-- Modbus/Message answer.
pub mod Swap
pub mod Words
pub mod Append
pub mod Write
pub mod Read
pub mod RoundTrip
use Prim.Native.Nat.{bit_and, bit_or}
use protocol_toolkit.Prelude.{
  ℕ, zero, suc, ◌+◌, ◌*◌, ◌/◌, ◌%◌, ◌^◌, ◌<◌, Option, none, some, List, [], ◌∷◌, ◌++◌, reverse,
  Bool, true, false, not, ◌||◌, ltb, if◌then◌else◌, ◌==◌, ◌>>=◌, ◌≡◌,
}
use protocol_toolkit.Prelude.Memory.{read_at, write_at}
use protocol_toolkit.Prelude.Bytes.{to_le, from_le}
use protocol_toolkit.Err.{PtkErr, ok, null_ptr, invalid_param, buffer_too_small, is_ok}
use protocol_toolkit.Buf.{Buf, buf_size}

-- ptk_buf_type_t; `other` stands for every value that is not in the enumeration.
pub data BufType : Type 0 where
  u8 u16 u32 u64 s8 s16 s32 s64 float double serializable other : BufType

pub data Endian : Type 0 where
  little_endian big_endian : Endian

pub record Host : Type 0 where
  pub is_big_endian : Bool
  pub float_of_double : ℕ → ℕ
  pub float_of_double-lt : (w : ℕ) → float_of_double w < 2 ^ 32

-- A ptk_serializable_t: NULL and an object without the method are `none`.
abbrev pub Serialize : Type 0
Serialize = Option (Buf → Option (PtkErr × Buf))

-- The object after the call is the list of the values stored in it.
abbrev pub Deserialize : Type 0
Deserialize = Option (Buf → Option (PtkErr × List ℕ × Buf))

-- What a caller passes behind a type tag.
pub data Value : Type 0 where
  num : ℕ → Value
  object : Serialize → Value

pub data Dest : Type 0 where
  null : Dest
  slot : Dest
  object : Deserialize → Dest

unfoldable pub type_size : BufType → ℕ
type_size u8 = 1
type_size s8 = 1
type_size u16 = 2
type_size s16 = 2
type_size u32 = 4
type_size s32 = 4
type_size float = 4
type_size u64 = 8
type_size s64 = 8
type_size double = 8
type_size serializable = 0
type_size other = 0

-- `__builtin_bswap16`, `32` and `64` on a value of `n` bytes.
unfoldable pub bswap : ℕ → ℕ → ℕ
bswap n v = from_le (reverse (to_le n v))

unfoldable pub byte_swap_u32 : ℕ → ℕ
byte_swap_u32 v =
    bit_or
      (bit_or
        (bit_or (bit_and v 0x000000ff * 2 ^ 24 % 2 ^ 32) (bit_and v 0x0000ff00 * 2 ^ 8 % 2 ^ 32))
        (bit_and v 0x00ff0000 / 2 ^ 8))
      (bit_and v 0xff000000 / 2 ^ 24)

-- `t < PTK_BUF_TYPE_U8 || t > PTK_BUF_TYPE_SERIALIZABLE`.
unfoldable pub out_of_range : BufType → Bool
out_of_range other = true
out_of_range _ = false

unfoldable pub is_object : BufType → Bool
is_object serializable = true
is_object _ = false

-- A read's result with the values that earlier reads stored in front of its own.
abbrev pub stored_before : List ℕ → Option (PtkErr × List ℕ × Buf) → Option (PtkErr × List ℕ × Buf)
stored_before out none = none
stored_before out (some (e, out', b)) = some (e, out ++ out', b)

module _ (host : Host) where
  -- The bytes of a value of `n` bytes in the host's memory, and back.
  unfoldable pub mem_bytes : ℕ → ℕ → List ℕ
  mem_bytes n v = if host.is_big_endian then reverse (to_le n v) else to_le n v

  unfoldable pub mem_value : List ℕ → ℕ
  mem_value bs = if host.is_big_endian then from_le (reverse bs) else from_le bs

  unfoldable pub needs_swap : Endian → Bool
  needs_swap little_endian = host.is_big_endian
  needs_swap big_endian = not host.is_big_endian

  -- The value that `va_arg` and the casts make of an argument's bit pattern.
  unfoldable pub cast_word : BufType → ℕ → ℕ
  cast_word float w = host.float_of_double w
  cast_word t w = w % 256 ^ type_size t

  unfoldable pub swapped : Endian → ℕ → ℕ → ℕ
  swapped endian n v = if needs_swap endian then bswap n v else v

  unfoldable pub store_scalar : Buf → BufType → Endian → Value → Option (PtkErr × Buf)
  store_scalar b t endian (object f) = none
  store_scalar b t endian (num w) = do
    bytes ←
        write_at b.bytes b.end
          (mem_bytes (type_size t) (swapped endian (type_size t) (cast_word t w)))
    some (ok, record b { bytes = bytes; end = buf_size (b.end + type_size t) })

  -- `end + type_size` is a size_t and does not wrap.
  unfoldable pub write_scalar : Buf → BufType → Endian → Value → Option (PtkErr × Buf)
  write_scalar b t endian v =
      if type_size t == 0
      then some (invalid_param, b)
      else if ltb b.data_len (b.end + type_size t)
      then some (buffer_too_small, b)
      else store_scalar b t endian v

  unfoldable pub write_object : Buf → Value → Option (PtkErr × Buf)
  write_object b (num w) = none
  write_object b (object none) = some (invalid_param, b)
  write_object b (object (some serialize)) = serialize b

  unfoldable pub write_typed_value : Buf → BufType → Endian → Value → Option (PtkErr × Buf)
  write_typed_value b t endian v =
      if is_object t then write_object b v else write_scalar b t endian v

  -- The loop with `count` rounds left, over the variadic arguments that are left.
  unfoldable pub serialize_loop : ℕ → Endian → List (BufType × Value) → Buf → Option (PtkErr × Buf)
  serialize_loop zero endian args b = some (ok, b)
  serialize_loop (suc count) endian [] b = none
  serialize_loop (suc count) endian ((t, v) ∷ args) b =
      if out_of_range t then some (invalid_param, b) else do
        (e, b') ← write_typed_value b t endian v
        if not (is_ok e) then some (e, b') else serialize_loop count endian args b'

  unfoldable pub serialize_impl : Buf → Endian → ℕ → List (BufType × Value) → Option (PtkErr × Buf)
  serialize_impl b endian count args = if count == 0 then some (ok, b) else do
    (e, b') ← serialize_loop count endian args b
    some (e, if is_ok e then b' else record b' { end = b.end })

  -- A read: the error, the values stored through the destination, and the buffer.
  unfoldable pub load_scalar : Buf → Bool → BufType → Endian → Dest → Option (PtkErr × List ℕ × Buf)
  load_scalar b peek t endian null = some (null_ptr, [], b)
  load_scalar b peek t endian (object f) = none
  load_scalar b peek t endian slot = do
    bytes ← read_at b.bytes b.start (type_size t)
    some (
      ok,
      swapped endian (type_size t) (mem_value bytes) ∷ [],
      if peek then b else record b { start = buf_size (b.start + type_size t) },
    )

  unfoldable pub read_scalar : Buf → Bool → BufType → Endian → Dest → Option (PtkErr × List ℕ × Buf)
  read_scalar b peek t endian d =
      if type_size t == 0
      then some (invalid_param, [], b)
      else if ltb b.end (b.start + type_size t)
      then some (buffer_too_small, [], b)
      else load_scalar b peek t endian d

  unfoldable pub read_object : Buf → Bool → Dest → Option (PtkErr × List ℕ × Buf)
  read_object b peek null = some (invalid_param, [], b)
  read_object b peek slot = none
  read_object b peek (object none) = some (invalid_param, [], b)
  read_object b peek (object (some deserialize)) = do
    (e, out, b') ← deserialize b
    some (e, out, if peek then record b' { start = b.start } else b')

  unfoldable pub read_typed_value :
      Buf → Bool → BufType → Endian → Dest → Option (PtkErr × List ℕ × Buf)
  read_typed_value b peek t endian d =
      if is_object t then read_object b peek d else read_scalar b peek t endian d

  unfoldable pub deserialize_loop :
      ℕ → Bool → Endian → List (BufType × Dest) → Buf → Option (PtkErr × List ℕ × Buf)
  deserialize_loop zero peek endian args b = some (ok, [], b)
  deserialize_loop (suc count) peek endian [] b = none
  deserialize_loop (suc count) peek endian ((t, d) ∷ args) b =
      if out_of_range t then some (invalid_param, [], b) else do
        (e, out, b') ← read_typed_value b peek t endian d
        if not (is_ok e)
            then some (e, out, b')
            else stored_before out (deserialize_loop count peek endian args b')

  unfoldable pub deserialize_impl :
      Buf → Bool → Endian → ℕ → List (BufType × Dest) → Option (PtkErr × List ℕ × Buf)
  deserialize_impl b peek endian count args = if count == 0 then some (ok, [], b) else do
    (e, out, b') ← deserialize_loop count peek endian args b
    some (e, out, if not (is_ok e) || peek then record b' { start = b.start } else b')
