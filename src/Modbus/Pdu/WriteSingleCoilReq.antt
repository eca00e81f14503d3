-- ===== src/Modbus/Pdu/WriteSingleCoilReq.antt =====
-- modbus_write_single_coil_req_t (modbus.h) and its functions in modbus_coils.c.
use protocol_toolkit.Prelude.{
  ℕ, false, Option, none, some, [], ◌∷◌, get_or, ◌>>=◌, not, ◌&&◌, ◌==◌, if◌then◌else◌,
}
use protocol_toolkit.Err.{PtkErr, null_ptr, invalid_param}
use protocol_toolkit.Heap.{Grants, obtain}
use protocol_toolkit.Buf.{Buf}
use protocol_toolkit.Codec.{Host, u8, u16, big_endian, num, slot}
use protocol_toolkit.Modbus.Common.{fc_write_single_coil}
use protocol_toolkit.Modbus.Message.{Connection, ptk_buf_serialize, ptk_buf_deserialize, transmit}

pub record WriteSingleCoilReq : Type 0 where
  pub pdu_type : ℕ
  pub function_code : ℕ
  pub output_address : ℕ
  pub output_value : ℕ

-- The structure has 32 bytes; its type stands on line 196.
unfoldable pub create : Grants → ℕ → Option WriteSingleCoilReq
create grants call = elim (obtain grants call 32) [
  | none ↦ none
  | some self ↦ some (record {
    pdu_type = 196;
    function_code = fc_write_single_coil;
    output_address = 0;
    output_value = 0;
  })
]

module _ (host : Host) where
  unfoldable pub serialize : Option Buf → WriteSingleCoilReq → Option (PtkErr × Option Buf)
  serialize buf req = ptk_buf_serialize host buf big_endian (
      (u8, num req.function_code)
      ∷ (u16, num req.output_address)
      ∷ (u16, num req.output_value)
      ∷ [])

  unfoldable pub deserialize :
      Option Buf → WriteSingleCoilReq → Option (PtkErr × WriteSingleCoilReq × Option Buf)
  deserialize buf req = do
    (err, out, buf') ←
        ptk_buf_deserialize host buf false big_endian ((u8, slot) ∷ (u16, slot) ∷ (u16, slot) ∷ [])
    some (
      err,
      record req {
        function_code = get_or out 0 req.function_code;
        output_address = get_or out 1 req.output_address;
        output_value = get_or out 2 req.output_value;
      },
      buf',
    )

  unfoldable pub send :
      Option Connection → Option WriteSingleCoilReq → Option (PtkErr × Option Connection)
  send none obj = some (null_ptr, none)
  send (some conn) none = some (null_ptr, some conn)
  send (some conn) (some obj) =
      if not (obj.output_value == 0x0000) && not (obj.output_value == 0xFF00)
      then some (invalid_param, some conn)
      else transmit (λ buf. serialize buf obj) conn
