-- ===== src/Modbus/Pdu/ReadDiscreteInputsResp.antt =====
-- modbus_read_discrete_inputs_resp_t (modbus.h) and its functions in modbus_discrete_inputs.c.
pub mod Same
use protocol_toolkit.Prelude.{
  ℕ, ◌+◌, ◌*◌, ◌/◌, ◌%◌, ◌^◌, Bool, false, not, Option, none, some, List, [], ◌∷◌, get_or, ◌>>=◌,
  if◌then◌else◌, leb, ◌==◌, ◌&&◌,
}
use protocol_toolkit.Err.{
  PtkErr, ok, null_ptr, no_resources, invalid_param, buffer_too_small, is_ok,
}
use protocol_toolkit.Heap.{Grants, obtain}
use protocol_toolkit.Buf.{Buf}
use protocol_toolkit.Codec.{Host, u8, u16, big_endian, num, slot}
use protocol_toolkit.Modbus.Common.{fc_read_discrete_inputs}
use protocol_toolkit.Modbus.Message.{Connection, ptk_buf_serialize, ptk_buf_deserialize, transmit}
use protocol_toolkit.Prelude.Memory.{write_at}
use protocol_toolkit.Modbus.BitArray.{BitArray, bit_array_len, is_valid, from_bytes, to_bytes}
use protocol_toolkit.Modbus.BitArray
use protocol_toolkit.Modbus.Loops.{serialize_bytes, deserialize_bytes}

pub record ReadDiscreteInputsResp : Type 0 where
  pub pdu_type : ℕ
  pub function_code : ℕ
  pub input_status : Option BitArray

-- The structure has 40 bytes; its type stands on line 140.
unfoldable pub create : Grants → ℕ → ℕ → Option (Option ReadDiscreteInputsResp)
create grants call count = if count == 0 then some none else elim (obtain grants call 40) [
  | none ↦ some none
  | some self ↦ do
    made ← BitArray.create grants (call + 1) count
    elim made [
      | none ↦ some none
      | some arr ↦ some (
          some (record {
            pdu_type = 140;
            function_code = fc_read_discrete_inputs;
            input_status = some arr;
          }))
    ]
]

module _ (host : Host) where
  unfoldable pub serialize : Option Buf → ReadDiscreteInputsResp → Option (PtkErr × Option Buf)
  serialize buf resp =
      if not (is_valid resp.input_status)
      then some (invalid_param, buf)
      else let (err, bytes, byte_count) = to_bytes resp.input_status in
        if not (is_ok err) then some (err, buf) else do
          (err', buf') ←
              ptk_buf_serialize host buf big_endian
                ((u8, num resp.function_code) ∷ (u8, num (byte_count % 2 ^ 8)) ∷ [])
          if not (is_ok err') then some (err', buf') else serialize_bytes host byte_count bytes buf'

  -- The array is made, or is written to where there is one; `call` numbers the calls of ptk_alloc.
  unfoldable pub store :
      Grants → ℕ → ReadDiscreteInputsResp → ℕ → List ℕ → Option (PtkErr × ReadDiscreteInputsResp)
  store grants call resp byte_count bytes = elim (resp.input_status) [
    | none ↦ do
      (err, made) ← from_bytes grants call (some bytes) (byte_count * 8)
      some (err, record resp { input_status = made })
    | some arr ↦
        let (err, existing_bytes, existing_byte_count) = to_bytes (some arr) in
        if not (is_ok err && leb byte_count existing_byte_count)
        then some (buffer_too_small, resp)
        else do
          written ← write_at existing_bytes 0 bytes
          some (err, record resp { input_status = some (record arr { bytes = written }) })
  ]

  unfoldable pub deserialize :
      Grants
      → ℕ
      → Option Buf
      → ReadDiscreteInputsResp
      → Option (PtkErr × ReadDiscreteInputsResp × Option Buf)
  deserialize grants call buf resp = do
    (err, out, buf') ← ptk_buf_deserialize host buf false big_endian ((u8, slot) ∷ (u8, slot) ∷ [])
    let resp' = record resp { function_code = get_or out 0 resp.function_code }
    let byte_count = get_or out 1 0
    if not (is_ok err) then some (err, resp', buf') else elim (obtain grants call byte_count) [
      | none ↦ some (no_resources, resp', buf')
      | some block ↦ do
        (err', bytes, buf'') ← deserialize_bytes host byte_count buf'
        if not (is_ok err') then some (err', resp', buf'') else do
          (err'', resp'') ← store grants (call + 1) resp' byte_count bytes
          some (err'', resp'', buf'')
    ]

  unfoldable pub send :
      Option Connection → Option ReadDiscreteInputsResp → Option (PtkErr × Option Connection)
  send none obj = some (null_ptr, none)
  send (some conn) none = some (null_ptr, some conn)
  send (some conn) (some obj) =
      if not (is_valid obj.input_status)
      then some (invalid_param, some conn)
      else transmit (λ buf. serialize buf obj) conn
