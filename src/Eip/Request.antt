-- ===== src/Eip/Request.antt =====
-- The request that asks for devices.
use protocol_toolkit.Prelude.{◌+◌, ◌≤◌, some, [], ◌∷◌, ◌≡◌, refl, arith}
use protocol_toolkit.Err.{ok}
use protocol_toolkit.Buf.{Buf}
use protocol_toolkit.Buf.Inv.{IsValid, pending}
use protocol_toolkit.Codec.{Host, u16, u32, u64, little_endian, type_size, cast_word}
use protocol_toolkit.Codec.RoundTrip.{deserialize-serialize}
use protocol_toolkit.Modbus.Message.{ptk_buf_serialize, ptk_buf_deserialize}
use protocol_toolkit.Eip.{build_list_identity_request, parse_eip_header, list_identity_cmd}

-- The request, built on one host into a valid buffer with nothing pending and room for its 24
-- bytes, is read by parse_eip_header on any other: the ListIdentity command with no data, no
-- session, status 0, the context 1000 and no options; nothing is pending again.
pub request_roundtrip :
    (writer reader : Host) (b : Buf)
    → IsValid b
    → pending b ≡ []
    → b.end + 24 ≤ b.data_len
    → (b' : Buf) × (b'' : Buf) × (build_list_identity_request writer (some b) ≡ some (ok, some b'))
      × (parse_eip_header reader (some b')
          ≡ some (ok, list_identity_cmd ∷ 0 ∷ 0 ∷ 0 ∷ 1000 ∷ 0 ∷ [], some b''))
      × (pending b'' ≡ [])
unfolding build_list_identity_request parse_eip_header ptk_buf_serialize ptk_buf_deserialize
    type_size cast_word
request_roundtrip writer reader b v empty h =
    let fields =
      (u16, list_identity_cmd) ∷ (u16, 0) ∷ (u32, 0) ∷ (u32, 0) ∷ (u64, 1000) ∷ (u32, 0) ∷ [] in
    let (b', b'', e, e', done) =
      deserialize-serialize writer little_endian reader fields b v empty
        (omega arith, (omega arith, (omega arith, (omega arith, (omega arith, (omega arith, tt))))))
        h in
    (b', b'', rw e refl, rw e' refl, done)
