-- ===== src/Modbus/Pdu/Send.antt =====
-- The send functions of the messages of fixed length: what they refuse, and what they leave in
-- the connection's transmit buffer.
use Prim.Native.Nat.{bit_and}
use protocol_toolkit.Prelude.{
  ℕ, ◌+◌, ◌<◌, ◌≤◌, true, false, not, ◌||◌, ◌==◌, ltb, if◌then◌else◌, Option, some, [], length, ◌≡◌,
  refl, arith, le→ltb, ◌⊎◌, inl, inr, Bool-cases,
}
use protocol_toolkit.Err.{
  PtkErr, ok, out_of_bounds, invalid_param, buffer_too_small, unsupported, is_ok,
}
use protocol_toolkit.Buf.{Buf, set_start, set_end}
use protocol_toolkit.Buf.Inv.{IsSafe, IsValid, pending}
use protocol_toolkit.Codec.{Host}
use protocol_toolkit.Codec.Append.{pending-append}
use protocol_toolkit.Modbus.Common.{validate_quantity, validate_address_range}
use protocol_toolkit.Modbus.Message.{Connection, transmit}
use protocol_toolkit.Modbus.Pdu.{
  Kind, read_coils_req, read_discrete_inputs_req, read_holding_registers_req,
  read_input_registers_req, write_single_coil_req, write_single_coil_resp,
  write_single_register_req, write_single_register_resp, write_multiple_coils_resp,
  write_multiple_registers_resp, exception_resp, Object, serialize, send,
}
use protocol_toolkit.Modbus.Pdu.Format.{encoding, IsTyped}
use protocol_toolkit.Modbus.Pdu.RoundTrip.{serialize_pdu}
use protocol_toolkit.Modbus.Pdu.ReadCoilsReq
use protocol_toolkit.Modbus.Pdu.ReadDiscreteInputsReq
use protocol_toolkit.Modbus.Pdu.ReadHoldingRegistersReq
use protocol_toolkit.Modbus.Pdu.ReadInputRegistersReq
use protocol_toolkit.Modbus.Pdu.WriteSingleCoilReq
use protocol_toolkit.Modbus.Pdu.WriteSingleCoilResp
use protocol_toolkit.Modbus.Pdu.WriteSingleRegisterReq
use protocol_toolkit.Modbus.Pdu.WriteSingleRegisterResp
use protocol_toolkit.Modbus.Pdu.WriteMultipleCoilsResp
use protocol_toolkit.Modbus.Pdu.WriteMultipleRegistersResp
use protocol_toolkit.Modbus.Pdu.ExceptionResp

-- The error that a message's values deserve, `ok` where there is none. A read asks for one value
-- or more, up to a limit, and all at addresses up to 0xFFFF.
abbrev pub read_refusal : ℕ → ℕ → ℕ → PtkErr
read_refusal limit address quantity =
    if quantity == 0 || ltb limit quantity
    then invalid_param
    else if ltb 65536 (address + quantity)
    then out_of_bounds
    else ok

-- A coil is off or on.
abbrev pub coil_refusal : ℕ → PtkErr
coil_refusal value = if value == 0 || value == 0xFF00 then ok else invalid_param

-- An exception's function code has the bit 0x80, and its code is 1, 2, 3 or 4.
abbrev pub exception_refusal : ℕ → ℕ → PtkErr
exception_refusal function_code code =
    if bit_and function_code 0x80 == 0
    then invalid_param
    else if code == 0
    then invalid_param
    else if ltb code 5
    then ok
    else invalid_param

abbrev pub refusal : (k : Kind) → Object k → PtkErr
refusal read_coils_req p = read_refusal 2000 p.starting_address p.quantity_of_coils
refusal read_discrete_inputs_req p = read_refusal 2000 p.starting_address p.quantity_of_inputs
refusal read_holding_registers_req p = read_refusal 125 p.starting_address p.quantity_of_registers
refusal read_input_registers_req p = read_refusal 125 p.starting_address p.quantity_of_registers
refusal write_single_coil_req p = coil_refusal p.output_value
refusal write_single_coil_resp p = ok
refusal write_single_register_req p = ok
refusal write_single_register_resp p = ok
refusal write_multiple_coils_resp p = ok
refusal write_multiple_registers_resp p = ok
refusal exception_resp p = exception_refusal p.exception_function_code p.exception_code

read_guard :
    (address quantity limit : ℕ) (conn : Connection) (rest : Option (PtkErr × Option Connection))
    → (if not (is_ok (validate_quantity quantity limit))
        then some (validate_quantity quantity limit, some conn)
        else if not (is_ok (validate_address_range address quantity 0xFFFF))
        then some (validate_address_range address quantity 0xFFFF, some conn)
        else rest)
      ≡ (if is_ok (read_refusal limit address quantity)
          then rest
          else some (read_refusal limit address quantity, some conn))
unfolding validate_quantity validate_address_range
read_guard address quantity limit conn rest = ground arith

module _ (host : Host) where
  send-eq :
      (k : Kind) (p : Object k) (conn : Connection)
      → send host k (some conn) (some p) ≡ (
          if is_ok (refusal k p)
          then transmit (λ buf. serialize host k buf p) conn
          else some (refusal k p, some conn))
  unfolding ReadCoilsReq.send ReadDiscreteInputsReq.send ReadHoldingRegistersReq.send
      ReadInputRegistersReq.send WriteSingleCoilReq.send WriteSingleCoilResp.send
      WriteSingleRegisterReq.send WriteSingleRegisterResp.send WriteMultipleCoilsResp.send
      WriteMultipleRegistersResp.send ExceptionResp.send
  send-eq read_coils_req p conn =
      read_guard p.starting_address p.quantity_of_coils 2000 conn
        (transmit (λ buf. serialize host read_coils_req buf p) conn)
  send-eq read_discrete_inputs_req p conn =
      read_guard p.starting_address p.quantity_of_inputs 2000 conn
        (transmit (λ buf. serialize host read_discrete_inputs_req buf p) conn)
  send-eq read_holding_registers_req p conn =
      read_guard p.starting_address p.quantity_of_registers 125 conn
        (transmit (λ buf. serialize host read_holding_registers_req buf p) conn)
  send-eq read_input_registers_req p conn =
      read_guard p.starting_address p.quantity_of_registers 125 conn
        (transmit (λ buf. serialize host read_input_registers_req buf p) conn)
  send-eq write_single_coil_req p conn = ground arith
  send-eq write_single_coil_resp p conn = refl
  send-eq write_single_register_req p conn = refl
  send-eq write_single_register_resp p conn = refl
  send-eq write_multiple_coils_resp p conn = refl
  send-eq write_multiple_registers_resp p conn = refl
  send-eq exception_resp p conn = ground arith

  emptied : (b : Buf) → IsSafe b → IsValid (record b { start = 0; end = 0 })
  emptied b s = omega arith

  cleared :
      (b : Buf) → (set_end (set_start (some b) 0).1 0).1 ≡ some (record b { start = 0; end = 0 })
  unfolding set_start set_end
  cleared b =
      let below : 0 ≤ b.data_len = omega arith in
      rw (le→ltb b.data_len 0 below, le→ltb b.data_len 0 below)

  -- Sending a message whose fields are in the range of their types, over a connection whose
  -- transmit buffer is in order: where its values are refused, the answer is that error and the
  -- connection is as it was. Otherwise nothing but the transmit buffer changes. Where the message
  -- fits, the buffer then holds exactly its bytes, and the answer is PTK_ERR_UNSUPPORTED, since
  -- nothing sends it yet; where it does not, the answer is PTK_ERR_BUFFER_TOO_SMALL and the
  -- buffer is empty.
  pub send_pdu :
      (k : Kind) (p : Object k) (conn : Connection) (b : Buf)
      → conn.tx_buffer ≡ some b
      → IsSafe b
      → IsTyped k p
      → ((is_ok (refusal k p) ≡ false)
          × (send host k (some conn) (some p) ≡ some (refusal k p, some conn)))
        ⊎ ((is_ok (refusal k p) ≡ true)
            × (length (encoding k p) ≤ b.data_len)
            × ((b' : Buf) × (send host k (some conn) (some p)
                  ≡ some (unsupported, some (record conn { tx_buffer = some b' })))
                × IsValid b'
                × (pending b' ≡ encoding k p)))
        ⊎ ((is_ok (refusal k p) ≡ true)
            × (b.data_len < length (encoding k p))
            × ((b' : Buf) × (send host k (some conn) (some p)
                  ≡ some (buffer_too_small, some (record conn { tx_buffer = some b' })))
                × IsValid b'
                × (pending b' ≡ [])))
  unfolding transmit
  send_pdu k p conn b at s t = elim (Bool-cases (is_ok (refusal k p))) [
    | inr refused ↦ inl (refused, rw (send-eq k p conn, refused))
    | inl accepted ↦
        let b0 = record b { start = 0; end = 0 } in
        elim (serialize_pdu host k p b0 (emptied b s) t) [
          | inl (fits, (b', e, a)) ↦ inr (
              inl (
                accepted,
                omega arith,
                (
                  b',
                  rw (send-eq k p conn, accepted, at, cleared b, e),
                  a.valid,
                  pending-append (emptied b s) a,
                ),
              ))
          | inr (full, (b', e, v, h)) ↦ inr (
              inr (
                accepted,
                omega arith,
                (b', rw (send-eq k p conn, accepted, at, cleared b, e), v, h),
              ))
        ]
  ]
