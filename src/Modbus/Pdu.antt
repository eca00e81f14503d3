-- ===== src/Modbus/Pdu.antt =====
-- The messages of fixed length: modbus_pdu_u of modbus.h as a kind with the structure of that
-- kind, and the calls through a structure's methods.
pub mod ReadCoilsReq
pub mod ReadDiscreteInputsReq
pub mod ReadHoldingRegistersReq
pub mod ReadInputRegistersReq
pub mod WriteSingleCoilReq
pub mod WriteSingleCoilResp
pub mod WriteSingleRegisterReq
pub mod WriteSingleRegisterResp
pub mod WriteMultipleCoilsResp
pub mod WriteMultipleRegistersResp
pub mod ExceptionResp
pub mod ReadCoilsResp
pub mod ReadDiscreteInputsResp
pub mod WriteMultipleCoilsReq
pub mod ReadHoldingRegistersResp
pub mod ReadInputRegistersResp
pub mod WriteMultipleRegistersReq
pub mod Format
pub mod Methods
pub mod Send
pub mod RoundTrip
use protocol_toolkit.Prelude.{ℕ, ◌^◌, Option, none, some}
use protocol_toolkit.Err.{PtkErr}
use protocol_toolkit.Buf.{Buf}
use protocol_toolkit.Codec.{Host}
use protocol_toolkit.Modbus.Message.{Connection}
use protocol_toolkit.Modbus.Pdu.ReadCoilsReq
use protocol_toolkit.Modbus.Pdu.ReadDiscreteInputsReq
use protocol_toolkit.Modbus.Pdu.ReadHoldingRegistersReq
use protocol_toolkit.Modbus.Pdu.ReadInputRegistersReq
use protocol_toolkit.Modbus.Pdu.WriteSingleCoilReq
use protocol_toolkit.Modbus.Pdu.WriteSingleCoilResp
use protocol_toolkit.Modbus.Pdu.WriteSingleRegisterReq
use protocol_toolkit.Modbus.Pdu.WriteSingleRegisterResp
use protocol_toolkit.Modbus.Pdu.WriteMultipleCoilsResp
use protocol_toolkit.Modbus.Pdu.WriteMultipleRegistersResp
use protocol_toolkit.Modbus.Pdu.ExceptionResp

pub data Kind : Type 0 where
  read_coils_req : Kind
  read_discrete_inputs_req : Kind
  read_holding_registers_req : Kind
  read_input_registers_req : Kind
  write_single_coil_req : Kind
  write_single_coil_resp : Kind
  write_single_register_req : Kind
  write_single_register_resp : Kind
  write_multiple_coils_resp : Kind
  write_multiple_registers_resp : Kind
  exception_resp : Kind

abbrev pub Object : Kind → Type 0
Object read_coils_req = ReadCoilsReq.ReadCoilsReq
Object read_discrete_inputs_req = ReadDiscreteInputsReq.ReadDiscreteInputsReq
Object read_holding_registers_req = ReadHoldingRegistersReq.ReadHoldingRegistersReq
Object read_input_registers_req = ReadInputRegistersReq.ReadInputRegistersReq
Object write_single_coil_req = WriteSingleCoilReq.WriteSingleCoilReq
Object write_single_coil_resp = WriteSingleCoilResp.WriteSingleCoilResp
Object write_single_register_req = WriteSingleRegisterReq.WriteSingleRegisterReq
Object write_single_register_resp = WriteSingleRegisterResp.WriteSingleRegisterResp
Object write_multiple_coils_resp = WriteMultipleCoilsResp.WriteMultipleCoilsResp
Object write_multiple_registers_resp = WriteMultipleRegistersResp.WriteMultipleRegistersResp
Object exception_resp = ExceptionResp.ExceptionResp

module _ (host : Host) where
  abbrev pub serialize : (k : Kind) → Option Buf → Object k → Option (PtkErr × Option Buf)
  serialize read_coils_req = ReadCoilsReq.serialize host
  serialize read_discrete_inputs_req = ReadDiscreteInputsReq.serialize host
  serialize read_holding_registers_req = ReadHoldingRegistersReq.serialize host
  serialize read_input_registers_req = ReadInputRegistersReq.serialize host
  serialize write_single_coil_req = WriteSingleCoilReq.serialize host
  serialize write_single_coil_resp = WriteSingleCoilResp.serialize host
  serialize write_single_register_req = WriteSingleRegisterReq.serialize host
  serialize write_single_register_resp = WriteSingleRegisterResp.serialize host
  serialize write_multiple_coils_resp = WriteMultipleCoilsResp.serialize host
  serialize write_multiple_registers_resp = WriteMultipleRegistersResp.serialize host
  serialize exception_resp = ExceptionResp.serialize host

  abbrev pub deserialize :
      (k : Kind) → Option Buf → Object k → Option (PtkErr × Object k × Option Buf)
  deserialize read_coils_req = ReadCoilsReq.deserialize host
  deserialize read_discrete_inputs_req = ReadDiscreteInputsReq.deserialize host
  deserialize read_holding_registers_req = ReadHoldingRegistersReq.deserialize host
  deserialize read_input_registers_req = ReadInputRegistersReq.deserialize host
  deserialize write_single_coil_req = WriteSingleCoilReq.deserialize host
  deserialize write_single_coil_resp = WriteSingleCoilResp.deserialize host
  deserialize write_single_register_req = WriteSingleRegisterReq.deserialize host
  deserialize write_single_register_resp = WriteSingleRegisterResp.deserialize host
  deserialize write_multiple_coils_resp = WriteMultipleCoilsResp.deserialize host
  deserialize write_multiple_registers_resp = WriteMultipleRegistersResp.deserialize host
  deserialize exception_resp = ExceptionResp.deserialize host

  abbrev pub send :
      (k : Kind) → Option Connection → Option (Object k) → Option (PtkErr × Option Connection)
  send read_coils_req = ReadCoilsReq.send host
  send read_discrete_inputs_req = ReadDiscreteInputsReq.send host
  send read_holding_registers_req = ReadHoldingRegistersReq.send host
  send read_input_registers_req = ReadInputRegistersReq.send host
  send write_single_coil_req = WriteSingleCoilReq.send host
  send write_single_coil_resp = WriteSingleCoilResp.send host
  send write_single_register_req = WriteSingleRegisterReq.send host
  send write_single_register_resp = WriteSingleRegisterResp.send host
  send write_multiple_coils_resp = WriteMultipleCoilsResp.send host
  send write_multiple_registers_resp = WriteMultipleRegistersResp.send host
  send exception_resp = ExceptionResp.send host
