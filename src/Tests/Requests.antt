-- ===== src/Tests/Requests.antt =====
-- The Modbus requests of variable length.
use protocol_toolkit.Prelude.{[], arith, none, refl, some, take, ◌<◌, ◌≡◌, ◌≤◌, ◌⊎◌}
use protocol_toolkit.Alloc.{round_up_16}
use protocol_toolkit.Buf.{Buf}
use protocol_toolkit.Buf.Inv.{pending}
use protocol_toolkit.Err.{no_resources, ok}
use protocol_toolkit.Modbus.BitArray.{BitArray, byte_count}
use protocol_toolkit.Modbus.Pdu.WriteMultipleCoilsReq.{
  WriteMultipleCoilsReq, deserialize, serialize,
}
use protocol_toolkit.Modbus.Pdu.WriteMultipleCoilsReq.Laws.{
  IsStarved, padded, deserialize_write_req,
}
use protocol_toolkit.Modbus.Pdu.WriteMultipleCoilsReq.Written.{deserialize-serialize_write_req}
use protocol_toolkit.Tests.Data.{
  big, coil_bytes, coils, empty_buf, empty_buf-IsValid, grants, little, write_buf,
  write_buf-IsValid,
}
use protocol_toolkit.Modbus.BitArray.Laws
use protocol_toolkit.Modbus.Pdu.WriteMultipleCoilsReq

abbrev fresh_write : WriteMultipleCoilsReq
fresh_write = record {
  pdu_type = 339;
  function_code = 15;
  starting_address = 0;
  output_values = none;
}

abbrev write_req : WriteMultipleCoilsReq
write_req = record {
  pdu_type = 339;
  function_code = 15;
  starting_address = 19;
  output_values = some coils;
}

coils-IsValid : Laws.IsValid coils
coils-IsValid = record {
  nonempty = omega arith;
  no_wrap = omega arith;
  sized = refl;
  all_bytes = (omega arith, (omega arith, tt));
}

deserialize_write_req_example :
    ((req : WriteMultipleCoilsReq) × (b' : Buf) × IsStarved grants 0 2 10
      × (WriteMultipleCoilsReq.deserialize little grants 0 (some write_buf) fresh_write
          ≡ some (no_resources, req, some b')))
    ⊎ ((byte_count 10 ≤ round_up_16 2)
        × ((arr : BitArray) × (b' : Buf) × (WriteMultipleCoilsReq.deserialize little grants 0
                (some write_buf)
                fresh_write
              ≡ some (
                ok,
                record fresh_write {
                  function_code = 15;
                  starting_address = 19;
                  output_values = some arr;
                },
                some b',
              ))
            × Laws.IsValid arr
            × (arr.len ≡ 10)
            × (arr.bytes ≡ take (byte_count 10) (padded 2 coil_bytes))
            × (pending b' ≡ [])))
    ⊎ ((round_up_16 2 < byte_count 10)
        × (WriteMultipleCoilsReq.deserialize little grants 0 (some write_buf) fresh_write ≡ none))
deserialize_write_req_example =
    deserialize_write_req little grants 0 fresh_write write_buf 15 19 10 2 coil_bytes
      write_buf-IsValid refl
      (
        omega arith,
        (
          omega arith,
          (
            omega arith,
            (omega arith, (omega arith, (omega arith, (omega arith, (omega arith, tt))))),
          ),
        ),
      )
      (omega arith) (omega arith) refl

deserialize-serialize_write_req_example :
    (b' : Buf) × (b'' : Buf) × (WriteMultipleCoilsReq.serialize little (some empty_buf) write_req
      ≡ some (ok, some b'))
    × (((req' : WriteMultipleCoilsReq) × IsStarved grants 0 (byte_count coils.len) coils.len
          × (WriteMultipleCoilsReq.deserialize big grants 0 (some b') fresh_write
              ≡ some (no_resources, req', some b'')))
        ⊎ ((arr' : BitArray) × (WriteMultipleCoilsReq.deserialize big grants 0 (some b') fresh_write
              ≡ some (
                ok,
                record fresh_write {
                  function_code = write_req.function_code;
                  starting_address = write_req.starting_address;
                  output_values = some arr';
                },
                some b'',
              ))
            × Laws.IsValid arr'
            × (arr'.len ≡ coils.len)
            × (arr'.bytes ≡ coils.bytes)
            × (pending b'' ≡ [])))
deserialize-serialize_write_req_example =
    deserialize-serialize_write_req little big grants 0 write_req fresh_write coils empty_buf refl
      coils-IsValid (omega arith) (omega arith) (omega arith) empty_buf-IsValid refl (omega arith)
