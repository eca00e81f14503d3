-- ===== src/Modbus/Pdu/WriteMultipleCoilsReq.antt =====
-- modbus_write_multiple_coils_req_t (modbus.h) and its functions in modbus_coils.c.
pub mod Laws
pub mod Written
use protocol_toolkit.Prelude.{
  ℕ, ◌-◌, ◌++◌, ◌+◌, ◌*◌, ◌/◌, ◌%◌, ◌^◌, Bool, false, not, Option, none, some, List, [], ◌∷◌,
  get_or, ◌>>=◌, if◌then◌else◌, ◌==◌,
}
use protocol_toolkit.Err.{PtkErr, null_ptr, no_resources, invalid_param, is_ok}
use protocol_toolkit.Prelude.Memory.{zeros}
use protocol_toolkit.Alloc.{round_up_16}
use protocol_toolkit.Heap.{Grants, obtain}
use protocol_toolkit.Buf.{Buf}
use protocol_toolkit.Codec.{Host, u8, u16, big_endian, num, slot}
use protocol_toolkit.Modbus.Common.{fc_write_multiple_coils, validate_quantity}
use protocol_toolkit.Modbus.Message.{Connection, ptk_buf_serialize, ptk_buf_deserialize, transmit}
use protocol_toolkit.Modbus.BitArray.{BitArray, bit_array_len, is_valid, from_bytes, to_bytes}
use protocol_toolkit.Modbus.BitArray
use protocol_toolkit.Modbus.Loops.{serialize_bytes, deserialize_bytes}

pub record WriteMultipleCoilsReq : Type 0 where
  pub pdu_type : ℕ
  pub function_code : ℕ
  pub starting_address : ℕ
  pub output_values : Option BitArray

-- The structure has 40 bytes; its type stands on line 339.
unfoldable pub create : Grants → ℕ → ℕ → Option (Option WriteMultipleCoilsReq)
create grants call num_coils = if num_coils == 0 then some none else elim (obtain grants call 40) [
  | none ↦ some none
  | some self ↦ do
    made ← BitArray.create grants (call + 1) num_coils
    elim made [
      | none ↦ some none
      | some arr ↦ some (
          some (record {
            pdu_type = 339;
            function_code = fc_write_multiple_coils;
            starting_address = 0;
            output_values = some arr;
          }))
    ]
]

module _ (host : Host) where
  unfoldable pub serialize : Option Buf → WriteMultipleCoilsReq → Option (PtkErr × Option Buf)
  serialize buf req =
      if not (is_valid req.output_values)
      then some (invalid_param, buf)
      else let quantity = bit_array_len req.output_values % 2 ^ 16 in
        let (err, bytes, byte_count) = to_bytes req.output_values in
        if not (is_ok err) then some (err, buf) else do
          (err', buf') ← ptk_buf_serialize host buf big_endian (
              (u8, num req.function_code)
              ∷ (u16, num req.starting_address)
              ∷ (u16, num quantity)
              ∷ (u8, num (byte_count % 2 ^ 8))
              ∷ [])
          if not (is_ok err') then some (err', buf') else serialize_bytes host byte_count bytes buf'

  -- `call` numbers the calls of ptk_alloc. An array that the request had is not freed. The bytes
  -- are read into a block that ptk_alloc makes, of their number rounded up to 16 and zero behind
  -- them, and modbus_bit_array_from_bytes gets the whole block.
  unfoldable pub deserialize :
      Grants
      → ℕ
      → Option Buf
      → WriteMultipleCoilsReq
      → Option (PtkErr × WriteMultipleCoilsReq × Option Buf)
  deserialize grants call buf req = do
    (err, out, buf') ←
        ptk_buf_deserialize host buf false big_endian
          ((u8, slot) ∷ (u16, slot) ∷ (u16, slot) ∷ (u8, slot) ∷ [])
    let req' = record req {
      function_code = get_or out 0 req.function_code;
      starting_address = get_or out 1 req.starting_address;
    }
    let quantity = get_or out 2 0
    let byte_count = get_or out 3 0
    if not (is_ok err) then some (err, req', buf') else elim (obtain grants call byte_count) [
      | none ↦ some (no_resources, req', buf')
      | some block ↦ do
        (err', bytes, buf'') ← deserialize_bytes host byte_count buf'
        if not (is_ok err') then some (err', req', buf'') else do
          let block' = bytes ++ zeros (round_up_16 byte_count - byte_count)
          (err'', made) ← from_bytes grants (call + 1) (some block') quantity
          some (err'', if quantity == 0 then req' else record req' { output_values = made }, buf'')
    ]

  unfoldable pub send :
      Option Connection → Option WriteMultipleCoilsReq → Option (PtkErr × Option Connection)
  send none obj = some (null_ptr, none)
  send (some conn) none = some (null_ptr, some conn)
  send (some conn) (some obj) =
      if not (is_valid obj.output_values)
      then some (invalid_param, some conn)
      else let err = validate_quantity (bit_array_len obj.output_values % 2 ^ 16) 1968 in
        if not (is_ok err) then some (err, some conn) else transmit (λ buf. serialize buf obj) conn
