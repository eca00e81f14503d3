-- ===== src/Modbus/Loops.antt =====
-- The loops over bytes and registers that the methods of the messages of variable length have.
pub mod Laws
use protocol_toolkit.Prelude.{
  ℕ, zero, suc, ◌+◌, ◌^◌, Bool, false, not, Option, none, some, List, [], ◌∷◌, ◌++◌, get_or,
  if◌then◌else◌, ◌>>=◌,
}
use protocol_toolkit.Err.{PtkErr, ok, is_ok}
use protocol_toolkit.Buf.{Buf}
use protocol_toolkit.Codec.{Host, u8, u16, big_endian, num, slot}
use protocol_toolkit.Array.{Array, array_get, array_set}
use protocol_toolkit.Modbus.Message.{ptk_buf_serialize, ptk_buf_deserialize}

module _ (host : Host) where
  -- `count` bytes from `bytes` on; `none` is a read behind their end.
  unfoldable pub serialize_bytes : ℕ → List ℕ → Option Buf → Option (PtkErr × Option Buf)
  serialize_bytes zero bytes buf = some (ok, buf)
  serialize_bytes (suc count) [] buf = none
  serialize_bytes (suc count) (byte ∷ bytes) buf = do
    (err, buf') ← ptk_buf_serialize host buf big_endian ((u8, num byte) ∷ [])
    if not (is_ok err) then some (err, buf') else serialize_bytes count bytes buf'

  -- The bytes read in `count` rounds.
  unfoldable pub deserialize_bytes : ℕ → Option Buf → Option (PtkErr × List ℕ × Option Buf)
  deserialize_bytes zero buf = some (ok, [], buf)
  deserialize_bytes (suc count) buf = do
    (err, out, buf') ← ptk_buf_deserialize host buf false big_endian ((u8, slot) ∷ [])
    if not (is_ok err)
        then some (err, [], buf')
        else do (err', rest, buf'') ← deserialize_bytes count buf'; some (err', out ++ rest, buf'')

  -- `count` registers from index `i` on.
  unfoldable pub serialize_registers :
      ℕ → ℕ → Option (Array ℕ) → Option Buf → Option (PtkErr × Option Buf)
  serialize_registers zero i registers buf = some (ok, buf)
  serialize_registers (suc count) i registers buf = do
    (err, element) ← array_get registers i
    if not (is_ok err) then some (err, buf) else do
      value ← element
      (err', buf') ← ptk_buf_serialize host buf big_endian ((u16, num value) ∷ [])
      if not (is_ok err')
          then some (err', buf')
          else serialize_registers count (i + 1) registers buf'

  unfoldable pub deserialize_registers :
      ℕ → ℕ → Option (Array ℕ) → Option Buf → Option (PtkErr × Option (Array ℕ) × Option Buf)
  deserialize_registers zero i registers buf = some (ok, registers, buf)
  deserialize_registers (suc count) i registers buf = do
    (err, out, buf') ← ptk_buf_deserialize host buf false big_endian ((u16, slot) ∷ [])
    if not (is_ok err) then some (err, registers, buf') else do
      (err', registers') ← array_set registers i (get_or out 0 0)
      if not (is_ok err')
          then some (err', registers', buf')
          else deserialize_registers count (i + 1) registers' buf'
