-- ===== src/Modbus/Pdu/ReadCoilsResp/Laws.antt =====
-- What the methods of modbus_read_coils_resp_t write and read.
use protocol_toolkit.Prelude.{
  false, ℕ, ◌+◌, ◌*◌, ◌%◌, ◌<◌, ◌≤◌, none, some, List, [], ◌∷◌, ◌++◌, length, take, ◌≡◌, ◌∙◌, ap,
  sym, arith, All, ◌⊎◌, inl, inr, lt→ltb, lt→ne, take-length, drop-zero_of_le, Bool-cases,
}
use protocol_toolkit.Prelude.Bytes.{IsByte}
use protocol_toolkit.Err.{ok, buffer_too_small, no_resources}
use protocol_toolkit.Heap.{Grants, obtain}
use protocol_toolkit.Buf.{Buf}
use protocol_toolkit.Buf.Inv.{IsValid, pending}
use protocol_toolkit.Codec.{Host}
use protocol_toolkit.Codec.Read.{advanced, pending-advanced}
use protocol_toolkit.Codec.Append.{IsAppended, IsAppended-trans, pending-append}
use protocol_toolkit.Modbus.BitArray.{BitArray, byte_count, is_valid, to_bytes}
use protocol_toolkit.Modbus.BitArray.Laws
use protocol_toolkit.Modbus.BitArray.Resize.{from_bytes_lem}
use protocol_toolkit.Modbus.Loops.Laws.{
  serialize_words, serialize_bytes_lem, deserialize_two, deserialize_bytes_lem,
}
use protocol_toolkit.Modbus.Pdu.Format.{byte}
use protocol_toolkit.Modbus.Pdu.ReadCoilsResp.{ReadCoilsResp, serialize, deserialize, store}

-- The bytes of a response: the function code, the low byte of the number of bytes, the bytes.
abbrev pub resp_bytes : ReadCoilsResp → BitArray → List ℕ
resp_bytes resp arr = resp.function_code ∷ byte_count arr.len % 256 ∷ arr.bytes

module _ (host : Host) where
  -- Serializing a response with a valid array of coils into a valid buffer: where it fits, its
  -- function code, the number of bytes of the array, cut to 8 bits, and these bytes are appended;
  -- where it does not, the answer is PTK_ERR_BUFFER_TOO_SMALL and the buffer is valid.
  pub serialize_resp :
      (resp : ReadCoilsResp) (arr : BitArray) (b : Buf)
      → resp.coil_status ≡ some arr
      → Laws.IsValid arr
      → resp.function_code < 256
      → IsValid b
      → ((b.end + 2 + byte_count arr.len ≤ b.data_len)
          × ((b' : Buf) × (serialize host (some b) resp ≡ some (ok, some b'))
              × IsAppended b (resp_bytes resp arr) b'))
        ⊎ ((b.data_len < b.end + 2 + byte_count arr.len)
            × ((b' : Buf) × (serialize host (some b) resp ≡ some (buffer_too_small, some b'))
                × IsValid b'))
  unfolding serialize is_valid to_bytes
  serialize_resp resp arr b at w f v =
      let n = byte_count arr.len in
      let head = resp.function_code ∷ n % 256 ∷ [] in
      let some_bits = lt→ltb 0 arr.len w.nonempty in
      elim (serialize_words host (byte ∷ byte ∷ []) head b v (f, (omega arith, tt))) [
        | inr (full, (b', e, v')) ↦ inr (omega arith, (b', rw (at, some_bits, e), v'))
        | inl (fits, (b', e, one)) ↦
            elim (serialize_bytes_lem host n arr.bytes b' one.valid w.all_bytes
              (omega (arith, w.sized))) [
                | inr (full, (b'', e', v')) ↦ inr (
                  omega (arith, one.end_moved, one.same_len),
                  (b'', rw (at, some_bits, e, e'), v'),
                )
                | inl (fits', (b'', e', more)) ↦ inl (
                  omega (arith, one.end_moved, one.same_len),
                  (
                    b'',
                    rw (at, some_bits, e, e'),
                    rw (sym (take-length n arr.bytes (omega (arith, w.sized))))
                        (IsAppended-trans one more),
                  ),
                )
              ]
      ]

-- An allocation is refused in reading `n` bytes of coils.
abbrev pub IsStarved : Grants → ℕ → ℕ → Type 0
IsStarved grants call n = (grants call n ≡ false) ⊎ Laws.IsRefused grants (call + 1) (n * 8)

module _ (host : Host) (grants : Grants) (call : ℕ) where
  -- Reading a response of `n` bytes of coils that are pending behind its two bytes.
  pub deserialize_resp-none :
      (old : ReadCoilsResp) (b : Buf) (f n : ℕ) (bytes : List ℕ)
      → old.coil_status ≡ none
      → IsValid b
      → All IsByte bytes
      → f < 256
      → 0 < n
      → n < 256
      → length bytes ≡ n
      → pending b ≡ f ∷ n ∷ bytes
      → ((b' : Buf) × IsStarved grants call n
          × (deserialize host grants call (some b) old
              ≡ some (no_resources, record old { function_code = f; coil_status = none }, some b')))
        ⊎ ((arr : BitArray) × (b' : Buf) × (deserialize host grants call (some b) old
              ≡ some (ok, record old { function_code = f; coil_status = some arr }, some b'))
            × Laws.IsValid arr
            × (arr.len ≡ n * 8)
            × (arr.bytes ≡ bytes)
            × (pending b' ≡ []))
  unfolding deserialize store obtain
  deserialize_resp-none old b f n bytes at v a hf h0 h size held =
      let (e, v', rest) = deserialize_two host b f n bytes v (hf, (h, a)) held in
      let cells : byte_count (n * 8) ≡ n = omega arith in
      elim (deserialize_bytes_lem host n (advanced b 2) v' (rw rest a)) [
        | inr (short, r) ↦ absurd (omega (arith, ap length rest))
        | inl (enough, e') ↦
            let all : take n (pending (advanced b 2)) ≡ bytes =
              ap (take n) rest ∙ take-length n bytes (omega arith) in
            let read =
              e' ∙ ap (λ (r : List ℕ). some (ok, r, some (advanced (advanced b 2) n))) all in
            elim (Bool-cases (grants call n)) [
              | inr no_ ↦ inl (advanced b 2, inl no_, rw (e, lt→ne n 0 h0, no_, at))
              | inl yes_ ↦
                  elim (from_bytes_lem grants (call + 1) bytes (n * 8) (omega arith) (omega arith)
                    a) [
                      | inl (f', e'') ↦ inl (
                        advanced (advanced b 2) n,
                        inr f',
                        rw (e, lt→ne n 0 h0, yes_, read, at, e''),
                      )
                      | inr (inr (short, r)) ↦ absurd (omega arith)
                      | inr (inl (long, (arr, e'', w, l, c))) ↦ inr (
                        arr,
                        advanced (advanced b 2) n,
                        rw (e, lt→ne n 0 h0, yes_, read, at, e''),
                        w,
                        l,
                        c ∙ ap (λ (m : ℕ). take m bytes) cells ∙ take-length n bytes (omega arith),
                        pending-advanced (advanced b 2) n
                            ∙ drop-zero_of_le n (pending (advanced b 2))
                                (omega (arith, ap length rest)),
                      )
                    ]
            ]
      ]

-- A response with a valid array of at most 2040 coils, serialized into a valid buffer with
-- nothing pending and enough room, is read back on any host into a structure without an array.
-- PTK_ERR_NO_RESOURCES is answered only where one of the three allocations is refused: that of the
-- bytes, or those of an array of eight coils for each. Otherwise the function code is the one sent, and a valid array is made that has
-- exactly the bytes sent, and eight coils for each of them, more than were sent where their
-- number is not a multiple of eight.
pub deserialize-serialize_resp :
    (writer reader : Host) (grants : Grants) (call : ℕ)
    → (resp old : ReadCoilsResp) (arr : BitArray) (b : Buf) → resp.coil_status ≡ some arr
    → old.coil_status ≡ none
    → Laws.IsValid arr
    → arr.len ≤ 2040
    → resp.function_code < 256
    → IsValid b
    → pending b ≡ []
    → b.end + 2 + byte_count arr.len ≤ b.data_len
    → (b' : Buf) × (b'' : Buf) × (serialize writer (some b) resp ≡ some (ok, some b'))
      × ((IsStarved grants call (byte_count arr.len)
            × (deserialize reader grants call (some b') old
                ≡ some (
                  no_resources,
                  record old { function_code = resp.function_code; coil_status = none },
                  some b'',
                )))
          ⊎ ((arr' : BitArray) × (deserialize reader grants call (some b') old
                ≡ some (
                  ok,
                  record old { function_code = resp.function_code; coil_status = some arr' },
                  some b'',
                ))
              × Laws.IsValid arr'
              × (arr'.bytes ≡ arr.bytes)
              × (arr'.len ≡ byte_count arr.len * 8)
              × (pending b'' ≡ [])))
deserialize-serialize_resp writer reader grants call resp old arr b at none_ w small f v empty h =
    let n = byte_count arr.len in
    let fits_byte : n % 256 ≡ n = omega arith in
    let some_bytes : 0 < n = omega (arith, w.nonempty) in
    elim (serialize_resp writer resp arr b at w f v) [
      | inr (full, r) ↦ absurd (omega arith)
      | inl (fits, (b', e, a)) ↦
          let held : pending b' ≡ resp.function_code ∷ n ∷ arr.bytes =
            pending-append v a
            ∙ ap (λ r. r ++ resp_bytes resp arr) empty
            ∙ ap (λ (m : ℕ). resp.function_code ∷ m ∷ arr.bytes) fits_byte in
          elim (deserialize_resp-none reader grants call old b' resp.function_code n arr.bytes none_
            a.valid w.all_bytes f some_bytes (omega arith) w.sized held) [
              | inl (b'', f', e') ↦ (b', b'', e, inl (f', e'))
              | inr (arr', b'', e', w', l, c, done) ↦ (b', b'', e, inr (arr', e', w', c, l, done))
            ]
    ]
