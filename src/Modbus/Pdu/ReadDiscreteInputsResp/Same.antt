-- ===== src/Modbus/Pdu/ReadDiscreteInputsResp/Same.antt =====
-- The methods of the two responses that carry bits do the same.
use protocol_toolkit.Prelude.{ℕ, Option, some, ◌≡◌, refl, ◌>>=◌, arith}
use protocol_toolkit.Heap.{Grants}
use protocol_toolkit.Buf.{Buf}
use protocol_toolkit.Codec.{Host}
use protocol_toolkit.Modbus.BitArray.{to_bytes, is_valid, from_bytes}
use protocol_toolkit.Modbus.Pdu.ReadCoilsResp
use protocol_toolkit.Modbus.Pdu.ReadDiscreteInputsResp.{
  ReadDiscreteInputsResp, serialize, deserialize, store,
}

-- The response to a read of coils with the same contents.
abbrev pub as_coils : ReadDiscreteInputsResp → ReadCoilsResp.ReadCoilsResp
as_coils r = record {
  pdu_type = r.pdu_type;
  function_code = r.function_code;
  coil_status = r.input_status;
}

-- The serialize method of a response to a read of discrete inputs does to any buffer what that of
-- a response to a read of coils with the same contents does; and so does the deserialize method,
-- to the buffer and to the structure.
pub discrete_inputs_same :
    (host : Host) (grants : Grants) (call : ℕ) (buf : Option Buf) (r : ReadDiscreteInputsResp)
    → (serialize host buf r ≡ ReadCoilsResp.serialize host buf (as_coils r))
      × ((deserialize host grants call buf r >>= λ (err, r', buf'). some (err, as_coils r', buf'))
          ≡ ReadCoilsResp.deserialize host grants call buf (as_coils r))
unfolding serialize ReadCoilsResp.serialize deserialize ReadCoilsResp.deserialize store
    ReadCoilsResp.store to_bytes is_valid from_bytes
discrete_inputs_same host grants call buf r = (refl, ground arith)
