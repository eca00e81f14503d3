-- ===== src/Modbus/Pdu/Methods.antt =====
-- The serialize and deserialize methods of all kinds, in terms of the fields that a kind has.
use protocol_toolkit.Prelude.{ℕ, false, some, List, map, length, get_or, ◌>>=◌, ◌≡◌, refl}
use protocol_toolkit.Buf.{Buf}
use protocol_toolkit.Codec.{Host, big_endian, serialize_impl}
use protocol_toolkit.Codec.Write.{field_arg}
use protocol_toolkit.Codec.Read.{slot_arg}
use protocol_toolkit.Modbus.Message.{ptk_buf_serialize, ptk_buf_deserialize}
use protocol_toolkit.Modbus.Pdu.{
  Kind, read_coils_req, read_discrete_inputs_req, read_holding_registers_req,
  read_input_registers_req, write_single_coil_req, write_single_coil_resp,
  write_single_register_req, write_single_register_resp, write_multiple_coils_resp,
  write_multiple_registers_resp, exception_resp, Object, serialize, deserialize,
}
use protocol_toolkit.Modbus.Pdu.ReadCoilsReq
use protocol_toolkit.Modbus.Pdu.ReadDiscreteInputsReq
use protocol_toolkit.Modbus.Pdu.ReadHoldingRegistersReq
use protocol_toolkit.Modbus.Pdu.ReadInputRegistersReq
use protocol_toolkit.Modbus.Pdu.WriteSingleCoilReq
use protocol_toolkit.Modbus.Pdu.WriteSingleCoilResp
use protocol_toolkit.Modbus.Pdu.WriteSingleRegisterReq
use protocol_toolkit.Modbus.Pdu.WriteSingleRegisterResp
use protocol_toolkit.Modbus.Pdu.WriteMultipleCoilsResp
use protocol_toolkit.Modbus.Pdu.WriteMultipleRegistersResp
use protocol_toolkit.Modbus.Pdu.ExceptionResp
use protocol_toolkit.Modbus.Pdu.Format.{buf_type, layout, fields}

-- The structure with the values read stored in its fields.
abbrev pub assign : (k : Kind) → Object k → List ℕ → Object k
assign read_coils_req p out = record p {
  function_code = get_or out 0 p.function_code;
  starting_address = get_or out 1 p.starting_address;
  quantity_of_coils = get_or out 2 p.quantity_of_coils;
}
assign read_discrete_inputs_req p out = record p {
  function_code = get_or out 0 p.function_code;
  starting_address = get_or out 1 p.starting_address;
  quantity_of_inputs = get_or out 2 p.quantity_of_inputs;
}
assign read_holding_registers_req p out = record p {
  function_code = get_or out 0 p.function_code;
  starting_address = get_or out 1 p.starting_address;
  quantity_of_registers = get_or out 2 p.quantity_of_registers;
}
assign read_input_registers_req p out = record p {
  function_code = get_or out 0 p.function_code;
  starting_address = get_or out 1 p.starting_address;
  quantity_of_registers = get_or out 2 p.quantity_of_registers;
}
assign write_single_coil_req p out = record p {
  function_code = get_or out 0 p.function_code;
  output_address = get_or out 1 p.output_address;
  output_value = get_or out 2 p.output_value;
}
assign write_single_coil_resp p out = record p {
  function_code = get_or out 0 p.function_code;
  output_address = get_or out 1 p.output_address;
  output_value = get_or out 2 p.output_value;
}
assign write_single_register_req p out = record p {
  function_code = get_or out 0 p.function_code;
  register_address = get_or out 1 p.register_address;
  register_value = get_or out 2 p.register_value;
}
assign write_single_register_resp p out = record p {
  function_code = get_or out 0 p.function_code;
  register_address = get_or out 1 p.register_address;
  register_value = get_or out 2 p.register_value;
}
assign write_multiple_coils_resp p out = record p {
  function_code = get_or out 0 p.function_code;
  starting_address = get_or out 1 p.starting_address;
  quantity_of_outputs = get_or out 2 p.quantity_of_outputs;
}
assign write_multiple_registers_resp p out = record p {
  function_code = get_or out 0 p.function_code;
  starting_address = get_or out 1 p.starting_address;
  quantity_of_registers = get_or out 2 p.quantity_of_registers;
}
assign exception_resp p out = record p {
  exception_function_code = get_or out 0 p.exception_function_code;
  exception_code = get_or out 1 p.exception_code;
}

module _ (host : Host) where
  pub serialize-eq :
      (k : Kind) (p : Object k) (b : Buf)
      → serialize host k (some b) p ≡ (
          serialize_impl host b big_endian (length (fields k p)) (map field_arg (fields k p))
          >>= λ (err, buf'). some (err, some buf'))
  unfolding ptk_buf_serialize ReadCoilsReq.serialize ReadDiscreteInputsReq.serialize
      ReadHoldingRegistersReq.serialize ReadInputRegistersReq.serialize WriteSingleCoilReq.serialize
      WriteSingleCoilResp.serialize WriteSingleRegisterReq.serialize
      WriteSingleRegisterResp.serialize WriteMultipleCoilsResp.serialize
      WriteMultipleRegistersResp.serialize ExceptionResp.serialize
  serialize-eq read_coils_req p b = refl
  serialize-eq read_discrete_inputs_req p b = refl
  serialize-eq read_holding_registers_req p b = refl
  serialize-eq read_input_registers_req p b = refl
  serialize-eq write_single_coil_req p b = refl
  serialize-eq write_single_coil_resp p b = refl
  serialize-eq write_single_register_req p b = refl
  serialize-eq write_single_register_resp p b = refl
  serialize-eq write_multiple_coils_resp p b = refl
  serialize-eq write_multiple_registers_resp p b = refl
  serialize-eq exception_resp p b = refl

  pub deserialize-eq :
      (k : Kind) (p : Object k) (b : Buf)
      → deserialize host k (some b) p ≡ (
          ptk_buf_deserialize host
            (some b)
            false
            big_endian
            (map slot_arg (map buf_type (layout k)))
          >>= λ (err, out, buf'). some (err, assign k p out, buf'))
  unfolding ReadCoilsReq.deserialize ReadDiscreteInputsReq.deserialize
      ReadHoldingRegistersReq.deserialize ReadInputRegistersReq.deserialize
      WriteSingleCoilReq.deserialize WriteSingleCoilResp.deserialize
      WriteSingleRegisterReq.deserialize WriteSingleRegisterResp.deserialize
      WriteMultipleCoilsResp.deserialize WriteMultipleRegistersResp.deserialize
      ExceptionResp.deserialize
  deserialize-eq read_coils_req p b = refl
  deserialize-eq read_discrete_inputs_req p b = refl
  deserialize-eq read_holding_registers_req p b = refl
  deserialize-eq read_input_registers_req p b = refl
  deserialize-eq write_single_coil_req p b = refl
  deserialize-eq write_single_coil_resp p b = refl
  deserialize-eq write_single_register_req p b = refl
  deserialize-eq write_single_register_resp p b = refl
  deserialize-eq write_multiple_coils_resp p b = refl
  deserialize-eq write_multiple_registers_resp p b = refl
  deserialize-eq exception_resp p b = refl
