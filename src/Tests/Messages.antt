-- ===== src/Tests/Messages.antt =====
-- The Modbus messages.
use protocol_toolkit.Prelude.{
  [], arith, false, length, none, refl, some, take, true, ◌*◌, ◌+◌, ◌<◌, ◌≡◌, ◌≤◌, ◌⊎◌,
}
use protocol_toolkit.Buf.{Buf}
use protocol_toolkit.Buf.Inv.{IsValid, pending}
use protocol_toolkit.Codec.Append.{IsAppended}
use protocol_toolkit.Codec.Read.{advanced}
use protocol_toolkit.Err.{buffer_too_small, is_ok, no_resources, ok, unsupported}
use protocol_toolkit.Modbus.BitArray.{BitArray, byte_count}
use protocol_toolkit.Modbus.Message.{Connection}
use protocol_toolkit.Modbus.Pdu.{Object, deserialize, read_coils_req, send, serialize}
use protocol_toolkit.Modbus.Pdu.Format.{IsTyped, base, contents, encoding}
use protocol_toolkit.Modbus.Pdu.ReadCoilsResp.{ReadCoilsResp}
use protocol_toolkit.Modbus.Pdu.ReadCoilsResp.Laws.{IsStarved, deserialize-serialize_resp}
use protocol_toolkit.Modbus.Pdu.RoundTrip.{
  deserialize-serialize_pdu, deserialize_pdu, serialize_pdu, size,
}
use protocol_toolkit.Modbus.Pdu.Send.{refusal, send_pdu}
use protocol_toolkit.Tests.Data.{
  big, coils, empty_buf, empty_buf-IsSafe, empty_buf-IsValid, grants, little, request_buf,
  request_buf-IsValid,
}
use protocol_toolkit.Modbus.BitArray.Laws
use protocol_toolkit.Modbus.Pdu.ReadCoilsResp

abbrev read_req : Object read_coils_req
read_req = record {
  pdu_type = 30;
  function_code = 1;
  starting_address = 19;
  quantity_of_coils = 10;
}

abbrev fresh_req : Object read_coils_req
fresh_req = record { pdu_type = 30; function_code = 1; starting_address = 0; quantity_of_coils = 0 }

abbrev connection : Connection
connection = record {
  rx_buffer = none;
  tx_buffer = some empty_buf;
  unit_id = 1;
  next_transaction_id = 1;
}

abbrev coils_resp : ReadCoilsResp
coils_resp = record { pdu_type = 142; function_code = 1; coil_status = some coils }

abbrev fresh_resp : ReadCoilsResp
fresh_resp = record { pdu_type = 142; function_code = 1; coil_status = none }

coils-IsValid : Laws.IsValid coils
coils-IsValid = record {
  nonempty = omega arith;
  no_wrap = omega arith;
  sized = refl;
  all_bytes = (omega arith, (omega arith, tt));
}

serialize_pdu_example :
    ((empty_buf.end + length (encoding read_coils_req read_req) ≤ empty_buf.data_len)
      × ((b' : Buf) × (serialize little read_coils_req (some empty_buf) read_req
            ≡ some (ok, some b'))
          × IsAppended empty_buf (encoding read_coils_req read_req) b'))
    ⊎ ((empty_buf.data_len < empty_buf.end + length (encoding read_coils_req read_req))
        × ((b' : Buf) × (serialize little read_coils_req (some empty_buf) read_req
              ≡ some (buffer_too_small, some b'))
            × IsValid b'
            × (pending b' ≡ pending empty_buf)))
serialize_pdu_example =
    serialize_pdu little read_coils_req read_req empty_buf empty_buf-IsValid
      (omega arith, (omega arith, (omega arith, tt)))

deserialize_pdu_example :
    ((size read_coils_req ≤ length (pending request_buf))
      × ((p' : Object read_coils_req) × (deserialize big read_coils_req (some request_buf) fresh_req
            ≡ some (ok, p', some (advanced request_buf (size read_coils_req))))
          × (encoding read_coils_req p' ≡ take (size read_coils_req) (pending request_buf))
          × IsTyped read_coils_req p'
          × (base read_coils_req p' ≡ base read_coils_req fresh_req)))
    ⊎ ((length (pending request_buf) < size read_coils_req)
        × ((p' : Object read_coils_req) × (deserialize big read_coils_req
                (some request_buf)
                fresh_req
              ≡ some (buffer_too_small, p', some request_buf))))
deserialize_pdu_example =
    deserialize_pdu big read_coils_req fresh_req request_buf request_buf-IsValid
      (omega arith, (omega arith, (omega arith, (omega arith, (omega arith, tt)))))

deserialize-serialize_pdu_example :
    (p' : Object read_coils_req) × (b' : Buf) × (b'' : Buf) × (serialize little read_coils_req
        (some empty_buf)
        read_req
      ≡ some (ok, some b'))
    × (deserialize big read_coils_req (some b') fresh_req ≡ some (ok, p', some b''))
    × (contents read_coils_req p' ≡ contents read_coils_req read_req)
    × (base read_coils_req p' ≡ base read_coils_req fresh_req)
    × (pending b'' ≡ [])
deserialize-serialize_pdu_example =
    deserialize-serialize_pdu little big read_coils_req read_req fresh_req empty_buf
      empty_buf-IsValid refl (omega arith, (omega arith, (omega arith, tt))) (omega arith)

send_pdu_example :
    ((is_ok (refusal read_coils_req read_req) ≡ false)
      × (send little read_coils_req (some connection) (some read_req)
          ≡ some (refusal read_coils_req read_req, some connection)))
    ⊎ ((is_ok (refusal read_coils_req read_req) ≡ true)
        × (length (encoding read_coils_req read_req) ≤ empty_buf.data_len)
        × ((b' : Buf) × (send little read_coils_req (some connection) (some read_req)
              ≡ some (unsupported, some (record connection { tx_buffer = some b' })))
            × IsValid b'
            × (pending b' ≡ encoding read_coils_req read_req)))
    ⊎ ((is_ok (refusal read_coils_req read_req) ≡ true)
        × (empty_buf.data_len < length (encoding read_coils_req read_req))
        × ((b' : Buf) × (send little read_coils_req (some connection) (some read_req)
              ≡ some (buffer_too_small, some (record connection { tx_buffer = some b' })))
            × IsValid b'
            × (pending b' ≡ [])))
send_pdu_example =
    send_pdu little read_coils_req read_req connection empty_buf refl empty_buf-IsSafe
      (omega arith, (omega arith, (omega arith, tt)))

deserialize-serialize_resp_example :
    (b' : Buf) × (b'' : Buf) × (ReadCoilsResp.serialize little (some empty_buf) coils_resp
      ≡ some (ok, some b'))
    × ((IsStarved grants 0 (byte_count coils.len)
          × (ReadCoilsResp.deserialize big grants 0 (some b') fresh_resp
              ≡ some (
                no_resources,
                record fresh_resp { function_code = coils_resp.function_code; coil_status = none },
                some b'',
              )))
        ⊎ ((arr' : BitArray) × (ReadCoilsResp.deserialize big grants 0 (some b') fresh_resp
              ≡ some (
                ok,
                record fresh_resp {
                  function_code = coils_resp.function_code;
                  coil_status = some arr';
                },
                some b'',
              ))
            × Laws.IsValid arr'
            × (arr'.bytes ≡ coils.bytes)
            × (arr'.len ≡ byte_count coils.len * 8)
            × (pending b'' ≡ [])))
deserialize-serialize_resp_example =
    deserialize-serialize_resp little big grants 0 coils_resp fresh_resp coils empty_buf refl refl
      coils-IsValid (omega arith) (omega arith) empty_buf-IsValid refl (omega arith)
