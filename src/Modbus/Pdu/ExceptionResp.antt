-- ===== src/Modbus/Pdu/ExceptionResp.antt =====
-- modbus_exception_resp_t (modbus.h) and its functions in modbus_exception.c.
pub mod Laws
use Prim.Native.Nat.{bit_and, bit_or}
use protocol_toolkit.Prelude.{
  ℕ, ◌^◌, Bool, false, Option, none, some, List, [], ◌∷◌, get_or, ◌>>=◌, ltb, ◌==◌, ◌||◌,
  if◌then◌else◌,
}
use protocol_toolkit.Err.{PtkErr, null_ptr, invalid_param}
use protocol_toolkit.Heap.{Grants, obtain}
use protocol_toolkit.Buf.{Buf}
use protocol_toolkit.Codec.{Host, u8, big_endian, num, slot}
use protocol_toolkit.Modbus.Message.{Connection, ptk_buf_serialize, ptk_buf_deserialize, transmit}

pub record ExceptionResp : Type 0 where
  pub pdu_type : ℕ
  pub exception_function_code : ℕ
  pub exception_code : ℕ

-- The structure has 32 bytes; its type stands on line 26.
unfoldable pub create : Grants → ℕ → Option ExceptionResp
create grants call = elim (obtain grants call 32) [
  | none ↦ none
  | some self ↦ some (record { pdu_type = 26; exception_function_code = 0x80; exception_code = 1 })
]

unfoldable pub create_exception_response : Grants → ℕ → ℕ → ℕ → Option ExceptionResp
create_exception_response grants call original_function_code exception_code = do
  resp ← create grants call
  some (record resp {
    exception_function_code = bit_or original_function_code 0x80;
    exception_code = exception_code;
  })

module _ (host : Host) where
  unfoldable pub serialize : Option Buf → ExceptionResp → Option (PtkErr × Option Buf)
  serialize buf resp =
      ptk_buf_serialize host buf big_endian
        ((u8, num resp.exception_function_code) ∷ (u8, num resp.exception_code) ∷ [])

  unfoldable pub deserialize :
      Option Buf → ExceptionResp → Option (PtkErr × ExceptionResp × Option Buf)
  deserialize buf resp = do
    (err, out, buf') ← ptk_buf_deserialize host buf false big_endian ((u8, slot) ∷ (u8, slot) ∷ [])
    some (
      err,
      record resp {
        exception_function_code = get_or out 0 resp.exception_function_code;
        exception_code = get_or out 1 resp.exception_code;
      },
      buf',
    )

  unfoldable pub send :
      Option Connection → Option ExceptionResp → Option (PtkErr × Option Connection)
  send none obj = some (null_ptr, none)
  send (some conn) none = some (null_ptr, some conn)
  send (some conn) (some obj) =
      if bit_and obj.exception_function_code 0x80 == 0
      then some (invalid_param, some conn)
      else if ltb obj.exception_code 1 || ltb 4 obj.exception_code
      then some (invalid_param, some conn)
      else transmit (λ buf. serialize buf obj) conn
