-- ===== src/Modbus/Pdu/ReadCoilsReq.antt =====
-- modbus_read_coils_req_t (modbus.h) and its functions in modbus_coils.c.
use protocol_toolkit.Prelude.{
  ℕ, false, Option, none, some, [], ◌∷◌, get_or, ◌>>=◌, not, if◌then◌else◌,
}
use protocol_toolkit.Err.{PtkErr, null_ptr, is_ok}
use protocol_toolkit.Heap.{Grants, obtain}
use protocol_toolkit.Buf.{Buf}
use protocol_toolkit.Codec.{Host, u8, u16, big_endian, num, slot}
use protocol_toolkit.Modbus.Common.{fc_read_coils, validate_quantity, validate_address_range}
use protocol_toolkit.Modbus.Message.{Connection, ptk_buf_serialize, ptk_buf_deserialize, transmit}

pub record ReadCoilsReq : Type 0 where
  pub pdu_type : ℕ
  pub function_code : ℕ
  pub starting_address : ℕ
  pub quantity_of_coils : ℕ

-- The structure has 32 bytes; its type stands on line 30.
unfoldable pub create : Grants → ℕ → Option ReadCoilsReq
create grants call = elim (obtain grants call 32) [
  | none ↦ none
  | some self ↦ some (record {
    pdu_type = 30;
    function_code = fc_read_coils;
    starting_address = 0;
    quantity_of_coils = 0;
  })
]

module _ (host : Host) where
  unfoldable pub serialize : Option Buf → ReadCoilsReq → Option (PtkErr × Option Buf)
  serialize buf req = ptk_buf_serialize host buf big_endian (
      (u8, num req.function_code)
      ∷ (u16, num req.starting_address)
      ∷ (u16, num req.quantity_of_coils)
      ∷ [])

  unfoldable pub deserialize :
      Option Buf → ReadCoilsReq → Option (PtkErr × ReadCoilsReq × Option Buf)
  deserialize buf req = do
    (err, out, buf') ←
        ptk_buf_deserialize host buf false big_endian ((u8, slot) ∷ (u16, slot) ∷ (u16, slot) ∷ [])
    some (
      err,
      record req {
        function_code = get_or out 0 req.function_code;
        starting_address = get_or out 1 req.starting_address;
        quantity_of_coils = get_or out 2 req.quantity_of_coils;
      },
      buf',
    )

  unfoldable pub send :
      Option Connection → Option ReadCoilsReq → Option (PtkErr × Option Connection)
  send none obj = some (null_ptr, none)
  send (some conn) none = some (null_ptr, some conn)
  send (some conn) (some obj) =
      let err = validate_quantity obj.quantity_of_coils 2000 in
      if not (is_ok err)
      then some (err, some conn)
      else let err' = validate_address_range obj.starting_address obj.quantity_of_coils 0xFFFF in
        if not (is_ok err')
        then some (err', some conn)
        else transmit (λ buf. serialize buf obj) conn
