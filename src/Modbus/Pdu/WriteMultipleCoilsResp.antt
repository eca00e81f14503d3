-- ===== src/Modbus/Pdu/WriteMultipleCoilsResp.antt =====
-- modbus_write_multiple_coils_resp_t (modbus.h) and its functions in modbus_coils.c.
use protocol_toolkit.Prelude.{ℕ, false, Option, none, some, [], ◌∷◌, get_or, ◌>>=◌}
use protocol_toolkit.Err.{PtkErr, null_ptr}
use protocol_toolkit.Heap.{Grants, obtain}
use protocol_toolkit.Buf.{Buf}
use protocol_toolkit.Codec.{Host, u8, u16, big_endian, num, slot}
use protocol_toolkit.Modbus.Common.{fc_write_multiple_coils}
use protocol_toolkit.Modbus.Message.{Connection, ptk_buf_serialize, ptk_buf_deserialize, transmit}

pub record WriteMultipleCoilsResp : Type 0 where
  pub pdu_type : ℕ
  pub function_code : ℕ
  pub starting_address : ℕ
  pub quantity_of_outputs : ℕ

-- The structure has 32 bytes; its type stands on line 400.
unfoldable pub create : Grants → ℕ → Option WriteMultipleCoilsResp
create grants call = elim (obtain grants call 32) [
  | none ↦ none
  | some self ↦ some (record {
    pdu_type = 400;
    function_code = fc_write_multiple_coils;
    starting_address = 0;
    quantity_of_outputs = 0;
  })
]

module _ (host : Host) where
  unfoldable pub serialize : Option Buf → WriteMultipleCoilsResp → Option (PtkErr × Option Buf)
  serialize buf resp = ptk_buf_serialize host buf big_endian (
      (u8, num resp.function_code)
      ∷ (u16, num resp.starting_address)
      ∷ (u16, num resp.quantity_of_outputs)
      ∷ [])

  unfoldable pub deserialize :
      Option Buf → WriteMultipleCoilsResp → Option (PtkErr × WriteMultipleCoilsResp × Option Buf)
  deserialize buf resp = do
    (err, out, buf') ←
        ptk_buf_deserialize host buf false big_endian ((u8, slot) ∷ (u16, slot) ∷ (u16, slot) ∷ [])
    some (
      err,
      record resp {
        function_code = get_or out 0 resp.function_code;
        starting_address = get_or out 1 resp.starting_address;
        quantity_of_outputs = get_or out 2 resp.quantity_of_outputs;
      },
      buf',
    )

  unfoldable pub send :
      Option Connection → Option WriteMultipleCoilsResp → Option (PtkErr × Option Connection)
  send none obj = some (null_ptr, none)
  send (some conn) none = some (null_ptr, some conn)
  send (some conn) (some obj) = transmit (λ buf. serialize buf obj) conn
