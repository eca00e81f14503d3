-- ===== src/Tests/Devices.antt =====
-- The List Identity request and response.
use protocol_toolkit.Prelude.{
  ℕ, ◌≤◌, some, List, [], ◌∷◌, ◌++◌, map, length, replicate, ◌≡◌, refl, arith, All,
}
use protocol_toolkit.Prelude.Bytes.{to_le, IsByte}
use protocol_toolkit.Err.{ok}
use protocol_toolkit.Buf.{Buf}
use protocol_toolkit.Buf.Inv.{IsValid, pending}
use protocol_toolkit.Codec.{u16, u32, u64, little_endian, type_size}
use protocol_toolkit.Codec.Words.{wire}
use protocol_toolkit.Eip.{
  Item, build_list_identity_request, parse_eip_header, list_identity_cmd,
  parse_list_identity_response,
}
use protocol_toolkit.Eip.Reads.{IsReady}
use protocol_toolkit.Eip.Safe.{IsItem, parse_list_identity_response_lem}
use protocol_toolkit.Eip.Wire.{Holds, numbers, InRange}
use protocol_toolkit.Eip.Device.{Device, IsDevice}
use protocol_toolkit.Eip.RoundTrip.{
  Entry, device, other, entries_bytes, shown_entry, parse-response,
}
use protocol_toolkit.Eip.Request.{request_roundtrip}
use protocol_toolkit.Tests.Data.{little, big}

abbrev request_buf : Buf
request_buf = record { bytes = replicate 32 0; data_len = 32; start = 0; end = 0 }

request_buf-IsValid : IsValid request_buf
request_buf-IsValid = record {
  block = omega arith;
  small = omega arith;
  ordered = omega arith;
  end_in = omega arith;
}

abbrev drive : Device
drive = record {
  version = 1;
  family = 2;
  port = 44818;
  addr = 192 ∷ 168 ∷ 1 ∷ 20 ∷ [];
  vendor = 1;
  device_type = 2;
  product = 7;
  major = 3;
  minor = 1;
  status = 4;
  serial = 123456;
  name = 0x50 ∷ 0x4c ∷ 0x43 ∷ [];
  state = 3;
}

drive-IsDevice : IsDevice drive
unfolding type_size
drive-IsDevice = record {
  version = (omega arith, tt);
  socket = (omega arith, (omega arith, tt));
  addr = refl;
  product = (omega arith, (omega arith, (omega arith, (omega arith, (omega arith, tt)))));
  status = (omega arith, (omega arith, tt));
  named = omega arith;
  name_fits = omega arith;
  name = (omega arith, (omega arith, (omega arith, tt)));
}

abbrev entries : List Entry
entries = other 0x8000 (9 ∷ 9 ∷ []) ∷ device drive ∷ []

abbrev header : List ℕ
header = list_identity_cmd ∷ 51 ∷ 0 ∷ 0 ∷ 1000 ∷ 0 ∷ []

abbrev response : List ℕ
response =
    0x63 ∷ 0 ∷ 51 ∷ 0 ∷ 0 ∷ 0 ∷ 0 ∷ 0 ∷ 0 ∷ 0 ∷ 0 ∷ 0 ∷ 0xe8 ∷ 3 ∷ 0 ∷ 0 ∷ 0 ∷ 0 ∷ 0 ∷ 0 ∷ 0 ∷ 0 ∷ 0
    ∷ 0 ∷ 2 ∷ 0 ∷ 0 ∷ 0x80 ∷ 2 ∷ 0 ∷ 9 ∷ 9 ∷ 0x0c ∷ 0 ∷ 37 ∷ 0 ∷ 1 ∷ 0 ∷ 0 ∷ 2 ∷ 0xaf ∷ 0x12 ∷ 192
    ∷ 168 ∷ 1 ∷ 20 ∷ 0 ∷ 0 ∷ 0 ∷ 0 ∷ 0 ∷ 0 ∷ 0 ∷ 0 ∷ 1 ∷ 0 ∷ 2 ∷ 0 ∷ 7 ∷ 0 ∷ 3 ∷ 1 ∷ 4 ∷ 0 ∷ 0x40
    ∷ 0xe2 ∷ 1 ∷ 0 ∷ 3 ∷ 0x50 ∷ 0x4c ∷ 0x43 ∷ 3 ∷ []

abbrev response_buf : Buf
response_buf = record { bytes = response; data_len = 73; start = 0; end = 73 }

response-bytes : All IsByte response
response-bytes = (
  omega arith,
  (
    omega arith,
    (
      omega arith,
      (
        omega arith,
        (
          omega arith,
          (
            omega arith,
            (
              omega arith,
              (
                omega arith,
                (
                  omega arith,
                  (
                    omega arith,
                    (
                      omega arith,
                      (
                        omega arith,
                        (
                          omega arith,
                          (
                            omega arith,
                            (
                              omega arith,
                              (
                                omega arith,
                                (
                                  omega arith,
                                  (
                                    omega arith,
                                    (
                                      omega arith,
                                      (
                                        omega arith,
                                        (
                                          omega arith,
                                          (
                                            omega arith,
                                            (
                                              omega arith,
                                              (
                                                omega arith,
                                                (
                                                  omega arith,
                                                  (
                                                    omega arith,
                                                    (
                                                      omega arith,
                                                      (
                                                        omega arith,
                                                        (
                                                          omega arith,
                                                          (
                                                            omega arith,
                                                            (
                                                            omega arith,
                                                            (
                                                            omega arith,
                                                            (
                                                            omega arith,
                                                            (
                                                            omega arith,
                                                            (
                                                            omega arith,
                                                            (
                                                            omega arith,
                                                            (
                                                            omega arith,
                                                            (
                                                            omega arith,
                                                            (
                                                            omega arith,
                                                            (
                                                            omega arith,
                                                            (
                                                            omega arith,
                                                            (
                                                            omega arith,
                                                            (
                                                            omega arith,
                                                            (
                                                            omega arith,
                                                            (
                                                            omega arith,
                                                            (
                                                            omega arith,
                                                            (
                                                            omega arith,
                                                            (
                                                            omega arith,
                                                            (
                                                            omega arith,
                                                            (
                                                            omega arith,
                                                            (
                                                            omega arith,
                                                            (
                                                            omega arith,
                                                            (
                                                            omega arith,
                                                            (
                                                            omega arith,
                                                            (
                                                            omega arith,
                                                            (
                                                            omega arith,
                                                            (
                                                            omega arith,
                                                            (
                                                            omega arith,
                                                            (
                                                            omega arith,
                                                            (
                                                            omega arith,
                                                            (
                                                            omega arith,
                                                            (
                                                            omega arith,
                                                            (
                                                            omega arith,
                                                            (
                                                            omega arith,
                                                            (
                                                            omega arith,
                                                            (
                                                            omega arith,
                                                            (
                                                            omega arith,
                                                            (
                                                            omega arith,
                                                            (
                                                            omega arith,
                                                            (
                                                            omega arith,
                                                            (
                                                            omega arith,
                                                            (omega arith, (omega arith, tt)),
                                                            ),
                                                            ),
                                                            ),
                                                            ),
                                                            ),
                                                            ),
                                                            ),
                                                            ),
                                                            ),
                                                            ),
                                                            ),
                                                            ),
                                                            ),
                                                            ),
                                                            ),
                                                            ),
                                                            ),
                                                            ),
                                                            ),
                                                            ),
                                                            ),
                                                            ),
                                                            ),
                                                            ),
                                                            ),
                                                            ),
                                                            ),
                                                            ),
                                                            ),
                                                            ),
                                                            ),
                                                            ),
                                                            ),
                                                            ),
                                                            ),
                                                            ),
                                                            ),
                                                            ),
                                                            ),
                                                            ),
                                                            ),
                                                          ),
                                                        ),
                                                      ),
                                                    ),
                                                  ),
                                                ),
                                              ),
                                            ),
                                          ),
                                        ),
                                      ),
                                    ),
                                  ),
                                ),
                              ),
                            ),
                          ),
                        ),
                      ),
                    ),
                  ),
                ),
              ),
            ),
          ),
        ),
      ),
    ),
  ),
)

response-IsReady : IsReady response_buf
response-IsReady = record {
  safe = record {
    block = omega arith;
    small = omega arith;
    start_in = omega arith;
    end_in = omega arith;
  };
  bytes = response-bytes;
}

response-Holds : Holds response_buf (
    numbers little_endian (u16 ∷ u16 ∷ u32 ∷ u32 ∷ u64 ∷ u32 ∷ []) header
    ++ (numbers little_endian (u16 ∷ []) (2 ∷ []) ++ entries_bytes entries []))
unfolding wire type_size to_le
response-Holds = record {
  valid = record {
    block = omega arith;
    small = omega arith;
    ordered = omega arith;
    end_in = omega arith;
  };
  bytes = response-bytes;
  held = refl;
}

request_roundtrip_example :
    (b' : Buf) × (b'' : Buf) × (build_list_identity_request little (some request_buf)
      ≡ some (ok, some b'))
    × (parse_eip_header big (some b')
        ≡ some (ok, list_identity_cmd ∷ 0 ∷ 0 ∷ 0 ∷ 1000 ∷ 0 ∷ [], some b''))
    × (pending b'' ≡ [])
request_roundtrip_example =
    request_roundtrip little big request_buf request_buf-IsValid refl (omega arith)

parse_list_identity_response_lem_example :
    (items : List Item) × (b' : Buf) × (parse_list_identity_response little little_endian
        (some response_buf)
      ≡ some (ok, items, some b'))
    × (length items ≤ 65535)
    × All IsItem items
    × IsReady b'
parse_list_identity_response_lem_example =
    parse_list_identity_response_lem little little_endian response_buf response-IsReady

header-InRange : InRange (u16 ∷ u16 ∷ u32 ∷ u32 ∷ u64 ∷ u32 ∷ []) header
unfolding type_size
header-InRange =
    (omega arith, (omega arith, (omega arith, (omega arith, (omega arith, (omega arith, tt))))))

parse-response_example :
    (b' : Buf) × (parse_list_identity_response little little_endian (some response_buf)
      ≡ some (ok, map shown_entry entries, some b'))
    × Holds b' []
parse-response_example =
    parse-response little little_endian 51 0 1000 0 entries [] response_buf (omega arith)
      header-InRange (omega arith)
      ((omega arith, λ e. absurd (omega arith), omega arith), (drive-IsDevice, tt)) response-Holds
