-- ===== src/Modbus/Pdu/ReadHoldingRegistersResp.antt =====
-- modbus_read_holding_registers_resp_t (modbus.h) and its functions in modbus_holding_registers.c. The registers are
-- an array of modbus_register, elements of 2 bytes.
use protocol_toolkit.Prelude.{
  ℕ, ◌+◌, ◌*◌, ◌/◌, ◌%◌, ◌^◌, false, not, Option, none, some, List, [], ◌∷◌, get_or, ◌>>=◌,
  if◌then◌else◌, ◌==◌,
}
use protocol_toolkit.Err.{PtkErr, ok, null_ptr, no_resources, invalid_param, is_ok}
use protocol_toolkit.Heap.{Grants, obtain}
use protocol_toolkit.Buf.{Buf}
use protocol_toolkit.Codec.{Host, u8, big_endian, num, slot}
use protocol_toolkit.Modbus.Common.{fc_read_holding_registers}
use protocol_toolkit.Modbus.Message.{Connection, ptk_buf_serialize, ptk_buf_deserialize, transmit}
use protocol_toolkit.Array.{Array, array_create, array_resize, array_is_valid, array_len}
use protocol_toolkit.Modbus.Loops.{serialize_registers, deserialize_registers}

pub record ReadHoldingRegistersResp : Type 0 where
  pub pdu_type : ℕ
  pub function_code : ℕ
  pub register_values : Option (Array ℕ)

-- The structure has 40 bytes; its type stands on line 133.
unfoldable pub create : Grants → ℕ → ℕ → Option (Option ReadHoldingRegistersResp)
create grants call num_registers =
    if num_registers == 0 then some none else elim (obtain grants call 40) [
      | none ↦ some none
      | some self ↦ do
        made ← array_create 0 2 grants (call + 1) num_registers
        elim made [
          | none ↦ some none
          | some arr ↦ some (
              some (record {
                pdu_type = 133;
                function_code = fc_read_holding_registers;
                register_values = some arr;
              }))
        ]
    ]

module _ (host : Host) where
  unfoldable pub serialize : Option Buf → ReadHoldingRegistersResp → Option (PtkErr × Option Buf)
  serialize buf pdu =
      if not (array_is_valid pdu.register_values)
      then some (invalid_param, buf)
      else let register_count = array_len pdu.register_values in
        do
          (err, buf') ←
              ptk_buf_serialize host buf big_endian
                ((u8, num pdu.function_code) ∷ (u8, num (register_count * 2 % 2 ^ 64 % 2 ^ 8)) ∷ [])
          if not (is_ok err)
              then some (err, buf')
              else serialize_registers host register_count 0 pdu.register_values buf'

  -- The array is made, or resized where there is one.
  unfoldable pub prepare :
      Grants → ℕ → List ℕ → Option (Array ℕ) → ℕ → Option (PtkErr × Option (Array ℕ))
  prepare grants call stale none register_count = do
    made ← array_create 0 2 grants call register_count
    elim made [ none ↦ some (no_resources, none) | some arr ↦ some (ok, some arr) ]
  prepare grants call stale (some arr) register_count =
      array_resize 0 2 grants call stale (some arr) register_count

  -- `call` numbers the calls of the allocator; `stale` is what the block of the registers may hold
  -- behind them.
  unfoldable pub deserialize :
      Grants
      → ℕ
      → List ℕ
      → Option Buf
      → ReadHoldingRegistersResp
      → Option (PtkErr × ReadHoldingRegistersResp × Option Buf)
  deserialize grants call stale buf pdu = do
    (err, out, buf') ← ptk_buf_deserialize host buf false big_endian ((u8, slot) ∷ (u8, slot) ∷ [])
    let pdu' = record pdu { function_code = get_or out 0 pdu.function_code }
    let register_count = get_or out 1 0 / 2
    if not (is_ok err) then some (err, pdu', buf') else do
      (err', registers) ← prepare grants call stale pdu.register_values register_count
      if not (is_ok err')
          then some (err', record pdu' { register_values = registers }, buf')
          else do
            (err'', registers', buf'') ← deserialize_registers host register_count 0 registers buf'
            some (err'', record pdu' { register_values = registers' }, buf'')

  unfoldable pub send :
      Option Connection → Option ReadHoldingRegistersResp → Option (PtkErr × Option Connection)
  send none obj = some (null_ptr, none)
  send (some conn) none = some (null_ptr, some conn)
  send (some conn) (some obj) =
      if not (array_is_valid obj.register_values)
      then some (invalid_param, some conn)
      else transmit (λ buf. serialize buf obj) conn
