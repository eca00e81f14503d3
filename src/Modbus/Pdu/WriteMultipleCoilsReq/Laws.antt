-- ===== src/Modbus/Pdu/WriteMultipleCoilsReq/Laws.antt =====
-- What the deserialize method of modbus_write_multiple_coils_req_t reads.
use protocol_toolkit.Prelude.{
  ℕ, ◌-◌, ◌++◌, length-append, All-append, ◌+◌, ◌/◌, ◌%◌, ◌<◌, ◌≤◌, false, none, some, List, [],
  ◌∷◌, map, length, take, drop, ◌≡◌, refl, ◌∙◌, ap, ap₂, arith, All, ◌⊎◌, inl, inr, lt→ne,
  take-length, drop-zero_of_le, Bool-cases,
}
use protocol_toolkit.Prelude.Bytes.{IsByte, from_le}
use protocol_toolkit.Err.{ok, no_resources}
use protocol_toolkit.Prelude.Memory.{zeros, length-zeros}
use protocol_toolkit.Alloc.{round_up_16}
use protocol_toolkit.Alloc.Laws.{round_up_16_lem}
use protocol_toolkit.Heap.{Grants, obtain}
use protocol_toolkit.Buf.{Buf}
use protocol_toolkit.Buf.Inv.{IsValid, pending}
use protocol_toolkit.Codec.{Host, big_endian, u8, u16, slot, type_size}
use protocol_toolkit.Codec.Words.{unwire}
use protocol_toolkit.Codec.Read.{field_values, advanced, advanced-IsValid, pending-advanced}
use protocol_toolkit.Modbus.BitArray.{BitArray, byte_count}
use protocol_toolkit.Modbus.BitArray.Laws
use protocol_toolkit.Modbus.BitArray.Resize.{from_bytes_lem}
use protocol_toolkit.Modbus.Message.{ptk_buf_deserialize}
use protocol_toolkit.Modbus.Loops.Laws.{deserialize_words, deserialize_bytes_lem}
use protocol_toolkit.Modbus.Pdu.Format.{byte, word, buf_type}
use protocol_toolkit.Modbus.Pdu.WriteMultipleCoilsReq.{WriteMultipleCoilsReq, deserialize}

-- A request on the wire: function code, address, quantity, number of bytes, and the bytes.
abbrev pub request_bytes : ℕ → ℕ → ℕ → ℕ → List ℕ → List ℕ
request_bytes f a q n bytes = f ∷ a / 256 ∷ a % 256 ∷ q / 256 ∷ q % 256 ∷ n ∷ bytes

-- The block of `n` bytes as ptk_alloc rounds it up.
abbrev pub padded : ℕ → List ℕ → List ℕ
padded n bytes = bytes ++ zeros (round_up_16 n - n)

length-padded :
    (n : ℕ) (bytes : List ℕ) → length bytes ≡ n → n < 256 → length (padded n bytes) ≡ round_up_16 n
length-padded n bytes h k = omega (
  arith,
  length-append bytes (zeros (round_up_16 n - n)),
  length-zeros (round_up_16 n - n),
  round_up_16_lem n (omega arith),
)

-- An allocation is refused in reading `n` bytes of `q` coils.
abbrev pub IsStarved : Grants → ℕ → ℕ → ℕ → Type 0
IsStarved grants call n q = (grants call n ≡ false) ⊎ Laws.IsRefused grants (call + 1) q

module _ (host : Host) where
  deserialize_head :
      (b : Buf) (f a q n : ℕ) (bytes : List ℕ)
      → IsValid b
      → All IsByte (request_bytes f a q n bytes)
      → pending b ≡ request_bytes f a q n bytes
      → (ptk_buf_deserialize host
            (some b)
            false
            big_endian
            ((u8, slot) ∷ (u16, slot) ∷ (u16, slot) ∷ (u8, slot) ∷ [])
          ≡ some (ok, f ∷ a ∷ q ∷ n ∷ [], some (advanced b 6)))
        × IsValid (advanced b 6)
        × (pending (advanced b 6) ≡ bytes)
  unfolding type_size unwire from_le
  deserialize_head b f a q n bytes v all held =
      let ts = byte ∷ word ∷ word ∷ byte ∷ [] in
      let six : 6 ≤ length (pending b) = omega (arith, ap length held) in
      elim (deserialize_words host ts b v (rw held all)) [
        | inr (short, r) ↦ absurd (omega arith)
        | inl (enough, e) ↦ (
          e
              ∙ ap (λ (r : List ℕ). some (ok, r, some (advanced b 6)))
                  (ap (field_values big_endian (map buf_type ts)) held
                    ∙ ap₂ ◌∷◌ (omega arith) (
                        ap₂ ◌∷◌ (omega arith)
                          (ap₂ ◌∷◌ (omega arith) (ap₂ ◌∷◌ (omega arith) refl)))),
          advanced-IsValid b 6 v six,
          pending-advanced b 6 ∙ ap (drop 6) held,
        )
      ]

  -- Reading a request for 1 coil or more, of as many bytes as it states, 1 or more, from a valid
  -- buffer that holds it alone. PTK_ERR_NO_RESOURCES is answered only where the allocation for the
  -- bytes or one of the two for the array is refused. Where the stated coils fit into the number of
  -- bytes rounded up to 16, the request has the address and a valid array of so many coils, whose
  -- bytes are the first of those sent, and zeros where more coils are stated than were sent, which
  -- nothing checks. Where they do not fit, the method reads outside the block.
  pub deserialize_write_req :
      (grants : Grants) (call : ℕ) (old : WriteMultipleCoilsReq) (b : Buf)
      → (f a q n : ℕ) (bytes : List ℕ) → IsValid b
      → pending b ≡ request_bytes f a q n bytes
      → All IsByte (request_bytes f a q n bytes)
      → 0 < q
      → 0 < n
      → length bytes ≡ n
      → ((req : WriteMultipleCoilsReq) × (b' : Buf) × IsStarved grants call n q
          × (deserialize host grants call (some b) old ≡ some (no_resources, req, some b')))
        ⊎ ((byte_count q ≤ round_up_16 n)
            × ((arr : BitArray) × (b' : Buf) × (deserialize host grants call (some b) old
                  ≡ some (
                    ok,
                    record old {
                      function_code = f;
                      starting_address = a;
                      output_values = some arr;
                    },
                    some b',
                  ))
                × Laws.IsValid arr
                × (arr.len ≡ q)
                × (arr.bytes ≡ take (byte_count q) (padded n bytes))
                × (pending b' ≡ [])))
        ⊎ ((round_up_16 n < byte_count q) × (deserialize host grants call (some b) old ≡ none))
  unfolding deserialize obtain
  deserialize_write_req grants call old b f a q n bytes v held all hq hn size =
      let (hf, (ha1, (ha0, (hq1, (hq0, (hn1, tail)))))) = all in
      let (e, v', rest) = deserialize_head b f a q n bytes v all held in
      let next = advanced b 6 in
      let whole : take n (pending next) ≡ bytes =
        ap (take n) rest ∙ take-length n bytes (omega arith) in
      let room = length-padded n bytes size (omega arith) in
      elim (deserialize_bytes_lem host n next v' (rw rest tail)) [
        | inr (short, r) ↦ absurd (omega (arith, ap length rest))
        | inl (enough, e') ↦
            let read = e' ∙ ap (λ (r : List ℕ). some (ok, r, some (advanced next n))) whole in
            elim (Bool-cases (grants call n)) [
              | inr no_ ↦ inl (
                record old { function_code = f; starting_address = a },
                next,
                inl no_,
                rw (e, lt→ne n 0 hn, no_),
              )
              | inl yes_ ↦
                  elim (from_bytes_lem grants (call + 1) (padded n bytes) q hq (omega arith)
                    (All-append IsByte bytes _ tail (Laws.zeros-All (round_up_16 n - n)))) [
                      | inl (f', e'') ↦ inl (
                        record old {
                          function_code = f;
                          starting_address = a;
                          output_values = none;
                        },
                        advanced next n,
                        inr f',
                        rw (e, lt→ne n 0 hn, yes_, read, e'', lt→ne q 0 hq),
                      )
                      | inr (inr (short, e'')) ↦
                          inr (inr (omega (arith, room), rw (e, lt→ne n 0 hn, yes_, read, e'')))
                      | inr (inl (long, (arr, e'', w, l, c))) ↦ inr (
                          inl (
                            omega (arith, room),
                            (
                              arr,
                              advanced next n,
                              rw (e, lt→ne n 0 hn, yes_, read, e'', lt→ne q 0 hq),
                              w,
                              l,
                              c,
                              pending-advanced next n
                                  ∙ drop-zero_of_le n (pending next)
                                      (omega (arith, ap length rest)),
                            ),
                          ))
                    ]
            ]
      ]
