-- ===== src/Modbus/Pdu/ReadInputRegistersResp/Same.antt =====
-- The methods of the two responses that carry registers do the same.
use protocol_toolkit.Prelude.{ℕ, List, Option, some, ◌≡◌, refl, ◌>>=◌, arith}
use protocol_toolkit.Heap.{Grants}
use protocol_toolkit.Buf.{Buf}
use protocol_toolkit.Codec.{Host}
use protocol_toolkit.Modbus.Pdu.ReadHoldingRegistersResp
use protocol_toolkit.Modbus.Pdu.ReadInputRegistersResp.{
  ReadInputRegistersResp, serialize, deserialize, prepare,
}

-- The response to a read of holding registers with the same contents.
abbrev pub as_holding : ReadInputRegistersResp → ReadHoldingRegistersResp.ReadHoldingRegistersResp
as_holding r = record {
  pdu_type = r.pdu_type;
  function_code = r.function_code;
  register_values = r.register_values;
}

-- The serialize method of a response to a read of input registers does to any buffer what that of
-- a response to a read of holding registers with the same contents does; and so does the
-- deserialize method, to the buffer and to the structure.
pub input_registers_same :
    (host : Host) (grants : Grants) (call : ℕ) (stale : List ℕ) (buf : Option Buf)
    (r : ReadInputRegistersResp)
    → (serialize host buf r ≡ ReadHoldingRegistersResp.serialize host buf (as_holding r))
      × ((deserialize host grants call stale buf r >>= λ (err, r', buf').
            some (err, as_holding r', buf'))
          ≡ ReadHoldingRegistersResp.deserialize host grants call stale buf (as_holding r))
unfolding serialize ReadHoldingRegistersResp.serialize deserialize
    ReadHoldingRegistersResp.deserialize prepare ReadHoldingRegistersResp.prepare
input_registers_same host grants call stale buf r = (refl, ground arith)
