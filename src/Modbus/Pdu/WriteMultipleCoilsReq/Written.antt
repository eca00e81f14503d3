-- ===== src/Modbus/Pdu/WriteMultipleCoilsReq/Written.antt =====
-- What the serialize method of modbus_write_multiple_coils_req_t writes, and that it is read back.
use protocol_toolkit.Prelude.{
  ℕ, ◌+◌, ◌%◌, ◌<◌, ◌≤◌, some, [], ◌∷◌, ◌++◌, ◌≡◌, ◌∙◌, ap, sym, arith, All, ◌⊎◌, inl, inr, lt→ltb,
  take-length, take_exact,
}
use protocol_toolkit.Prelude.Bytes.{IsByte}
use protocol_toolkit.Err.{ok, buffer_too_small, no_resources}
use protocol_toolkit.Alloc.Laws.{round_up_16_lem}
use protocol_toolkit.Heap.{Grants}
use protocol_toolkit.Buf.{Buf}
use protocol_toolkit.Buf.Inv.{IsValid, pending}
use protocol_toolkit.Codec.{Host}
use protocol_toolkit.Codec.Append.{IsAppended, IsAppended-trans, pending-append}
use protocol_toolkit.Modbus.BitArray.{BitArray, byte_count, is_valid, to_bytes, bit_array_len}
use protocol_toolkit.Modbus.BitArray.Laws
use protocol_toolkit.Modbus.Loops.Laws.{serialize_words, serialize_bytes_lem}
use protocol_toolkit.Modbus.Pdu.Format.{byte, word}
use protocol_toolkit.Modbus.Pdu.WriteMultipleCoilsReq.{
  WriteMultipleCoilsReq, serialize, deserialize,
}
use protocol_toolkit.Modbus.Pdu.WriteMultipleCoilsReq.Laws.{
  IsStarved, request_bytes, deserialize_write_req,
}

module _ (host : Host) where
  -- Serializing a request with a valid array of at most 2040 coils into a valid buffer: where it
  -- fits, its bytes are appended with the number of coils and of their bytes; where it does not,
  -- the answer is PTK_ERR_BUFFER_TOO_SMALL and the buffer is valid.
  pub serialize_write_req :
      (req : WriteMultipleCoilsReq) (arr : BitArray) (b : Buf)
      → req.output_values ≡ some arr
      → Laws.IsValid arr
      → arr.len ≤ 2040
      → req.function_code < 256
      → req.starting_address < 65536
      → IsValid b
      → ((b.end + 6 + byte_count arr.len ≤ b.data_len)
          × ((b' : Buf) × (serialize host (some b) req ≡ some (ok, some b'))
              × IsAppended b
                  (request_bytes req.function_code req.starting_address arr.len
                    (byte_count arr.len)
                    arr.bytes)
                  b'))
        ⊎ ((b.data_len < b.end + 6 + byte_count arr.len)
            × ((b' : Buf) × (serialize host (some b) req ≡ some (buffer_too_small, some b'))
                × IsValid b'))
  unfolding serialize is_valid to_bytes bit_array_len
  serialize_write_req req arr b at w small f s v =
      let n = byte_count arr.len in
      let quantity : arr.len % 65536 ≡ arr.len = omega arith in
      let low : n % 256 ≡ n = omega arith in
      let head = req.function_code ∷ req.starting_address ∷ arr.len ∷ n ∷ [] in
      let some_bits = lt→ltb 0 arr.len w.nonempty in
      elim (serialize_words host (byte ∷ word ∷ word ∷ byte ∷ []) head b v
        (f, (s, (omega arith, (omega arith, tt))))) [
          | inr (full, (b', e, v')) ↦
              inr (omega arith, (b', rw (at, some_bits, quantity, low, e), v'))
          | inl (fits, (b', e, one)) ↦
              elim (serialize_bytes_lem host n arr.bytes b' one.valid w.all_bytes
                (omega (arith, w.sized))) [
                  | inr (full, (b'', e', v')) ↦ inr (
                    omega (arith, one.end_moved, one.same_len),
                    (b'', rw (at, some_bits, quantity, low, e, e'), v'),
                  )
                  | inl (fits', (b'', e', more)) ↦ inl (
                    omega (arith, one.end_moved, one.same_len),
                    (
                      b'',
                      rw (at, some_bits, quantity, low, e, e'),
                      rw (sym (take-length n arr.bytes (omega (arith, w.sized))))
                          (IsAppended-trans one more),
                    ),
                  )
                ]
        ]

-- A request with a valid array of at most 2040 coils, serialized into a valid buffer with nothing
-- pending and enough room, is read back on any host into any structure. PTK_ERR_NO_RESOURCES is
-- answered only where one of the three allocations is refused, for the bytes or for the array.
-- Otherwise the function code and address are those sent, and a valid array is made with exactly the coils
-- sent, in number and in value.
pub deserialize-serialize_write_req :
    (writer reader : Host) (grants : Grants) (call : ℕ)
    → (req old : WriteMultipleCoilsReq) (arr : BitArray) (b : Buf) → req.output_values ≡ some arr
    → Laws.IsValid arr
    → arr.len ≤ 2040
    → req.function_code < 256
    → req.starting_address < 65536
    → IsValid b
    → pending b ≡ []
    → b.end + 6 + byte_count arr.len ≤ b.data_len
    → (b' : Buf) × (b'' : Buf) × (serialize writer (some b) req ≡ some (ok, some b'))
      × (((req' : WriteMultipleCoilsReq) × IsStarved grants call (byte_count arr.len) arr.len
            × (deserialize reader grants call (some b') old ≡ some (no_resources, req', some b'')))
          ⊎ ((arr' : BitArray) × (deserialize reader grants call (some b') old
                ≡ some (
                  ok,
                  record old {
                    function_code = req.function_code;
                    starting_address = req.starting_address;
                    output_values = some arr';
                  },
                  some b'',
                ))
              × Laws.IsValid arr'
              × (arr'.len ≡ arr.len)
              × (arr'.bytes ≡ arr.bytes)
              × (pending b'' ≡ [])))
deserialize-serialize_write_req writer reader grants call req old arr b at w small f s v empty h =
    let n = byte_count arr.len in
    let bytes = request_bytes req.function_code req.starting_address arr.len n arr.bytes in
    let all : All IsByte bytes =
      (f, (omega arith, (omega arith, (omega arith, (omega arith, (omega arith, w.all_bytes)))))) in
    elim (serialize_write_req writer req arr b at w small f s v) [
      | inr (full, r) ↦ absurd (omega arith)
      | inl (fits, (b', e, a)) ↦
          let held : pending b' ≡ bytes = pending-append v a ∙ ap (λ r. r ++ bytes) empty in
          elim (deserialize_write_req reader grants call old b' req.function_code
            req.starting_address arr.len n arr.bytes a.valid held all w.nonempty
            (omega (arith, w.nonempty)) w.sized) [
              | inl (req', b'', f', e') ↦ (b', b'', e, inl (req', f', e'))
              | inr (inr (short, r)) ↦ absurd (omega (arith, round_up_16_lem n (omega arith)))
              | inr (inl (enough, (arr', b'', e', w', l, c, done))) ↦
                  (b', b'', e, inr (arr', e', w', l, c ∙ take_exact n arr.bytes _ w.sized, done))
            ]
    ]
