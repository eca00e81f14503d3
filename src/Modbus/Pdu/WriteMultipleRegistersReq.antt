-- ===== src/Modbus/Pdu/WriteMultipleRegistersReq.antt =====
-- modbus_write_multiple_registers_req_t (modbus.h) and its functions in modbus_holding_registers.c. The registers are
-- an array of modbus_register, elements of 2 bytes.
pub mod Fails
use protocol_toolkit.Prelude.{
  ℕ, ◌+◌, ◌*◌, ◌/◌, ◌%◌, ◌^◌, Bool, false, not, Option, none, some, List, [], ◌∷◌, get_or, ◌>>=◌,
  if◌then◌else◌, ◌==◌,
}
use protocol_toolkit.Err.{PtkErr, null_ptr, no_resources, invalid_param, is_ok}
use protocol_toolkit.Heap.{Grants, obtain}
use protocol_toolkit.Buf.{Buf}
use protocol_toolkit.Codec.{Host, u8, u16, big_endian, num, slot}
use protocol_toolkit.Modbus.Common.{fc_write_multiple_registers, validate_quantity}
use protocol_toolkit.Modbus.Message.{Connection, ptk_buf_serialize, ptk_buf_deserialize, transmit}
use protocol_toolkit.Array.{Array, array_create, array_is_valid, array_len}
use protocol_toolkit.Modbus.Loops.{serialize_registers, deserialize_registers}

pub record WriteMultipleRegistersReq : Type 0 where
  pub pdu_type : ℕ
  pub function_code : ℕ
  pub starting_address : ℕ
  pub register_values : Option (Array ℕ)

-- The structure has 40 bytes; its type stands on line 327.
unfoldable pub create : Grants → ℕ → ℕ → Option (Option WriteMultipleRegistersReq)
create grants call num_registers =
    if num_registers == 0 then some none else elim (obtain grants call 40) [
      | none ↦ some none
      | some self ↦ do
        made ← array_create 0 2 grants (call + 1) num_registers
        elim made [
          | none ↦ some none
          | some arr ↦ some (
              some (record {
                pdu_type = 327;
                function_code = fc_write_multiple_registers;
                starting_address = 0;
                register_values = some arr;
              }))
        ]
    ]

module _ (host : Host) where
  unfoldable pub serialize : Option Buf → WriteMultipleRegistersReq → Option (PtkErr × Option Buf)
  serialize buf pdu =
      if not (array_is_valid pdu.register_values)
      then some (invalid_param, buf)
      else let register_count = array_len pdu.register_values in
        do
          (err, buf') ← ptk_buf_serialize host buf big_endian (
              (u8, num pdu.function_code)
              ∷ (u16, num pdu.starting_address)
              ∷ (u16, num (register_count % 2 ^ 16))
              ∷ (u8, num (register_count * 2 % 2 ^ 64 % 2 ^ 8))
              ∷ [])
          if not (is_ok err)
              then some (err, buf')
              else serialize_registers host register_count 0 pdu.register_values buf'

  -- `call` numbers the calls of the allocator.
  unfoldable pub deserialize :
      Grants
      → ℕ
      → Option Buf
      → WriteMultipleRegistersReq
      → Option (PtkErr × WriteMultipleRegistersReq × Option Buf)
  deserialize grants call buf pdu = do
    (err, out, buf') ←
        ptk_buf_deserialize host buf false big_endian
          ((u8, slot) ∷ (u16, slot) ∷ (u16, slot) ∷ (u8, slot) ∷ [])
    let pdu' = record pdu {
      function_code = get_or out 0 pdu.function_code;
      starting_address = get_or out 1 pdu.starting_address;
    }
    let quantity = get_or out 2 0
    if not (is_ok err) then some (err, pdu', buf') else do
      made ← array_create 0 2 grants call quantity
      elim made [
        | none ↦ some (no_resources, record pdu' { register_values = none }, buf')
        | some arr ↦ do
          (err', registers, buf'') ← deserialize_registers host quantity 0 (some arr) buf'
          some (err', record pdu' { register_values = registers }, buf'')
      ]

  unfoldable pub send :
      Option Connection → Option WriteMultipleRegistersReq → Option (PtkErr × Option Connection)
  send none obj = some (null_ptr, none)
  send (some conn) none = some (null_ptr, some conn)
  send (some conn) (some obj) =
      if not (array_is_valid obj.register_values)
      then some (invalid_param, some conn)
      else let err = validate_quantity (array_len obj.register_values % 2 ^ 16) 123 in
        if not (is_ok err) then some (err, some conn) else transmit (λ buf. serialize buf obj) conn
