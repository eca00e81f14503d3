-- ===== src/Modbus/Loops/Laws.antt =====
-- What the loops over bytes write and read.
use protocol_toolkit.Prelude.{
  ℕ, zero, suc, ◌+◌, ◌-◌, ◌<◌, ◌≤◌, false, some, List, [], ◌∷◌, ◌++◌, map, length, length-map, take,
  drop, ◌≡◌, refl, ◌∙◌, ap, ap₂, sym, arith, All, ◌⊎◌, inl, inr, All-drop, length-drop,
}
use protocol_toolkit.Prelude.Bytes.{IsByte, from_le}
use protocol_toolkit.Err.{ok, buffer_too_small}
use protocol_toolkit.Buf.{Buf}
use protocol_toolkit.Buf.Inv.{IsValid, pending}
use protocol_toolkit.Codec.{Host, big_endian, u8, slot, type_size}
use protocol_toolkit.Codec.Append.{IsAppended, IsAppended-nil, IsAppended-trans}
use protocol_toolkit.Codec.Write.{field_arg, wire_fields, serialize_lem}
use protocol_toolkit.Codec.Read.{
  slot_arg, total_size, field_values, advanced, advanced-IsValid, pending-advanced, deserialize_lem,
}
use protocol_toolkit.Modbus.Message.{ptk_buf_serialize, ptk_buf_deserialize}
use protocol_toolkit.Codec.Words.{unwire}
use protocol_toolkit.Modbus.Loops.{serialize_bytes, deserialize_bytes}
use protocol_toolkit.Modbus.Pdu.Format.{
  buf_type, Width, byte, encode, InRange, zip, zip-IsScalar, wire_fields-zip,
}
use protocol_toolkit.Modbus.Pdu.RoundTrip.{decode_lem, layout-IsScalar}

module _ (host : Host) where
  -- Several bytes and words at once.
  pub serialize_words :
      (ts : List Width) (vs : List ℕ) (b : Buf)
      → IsValid b
      → InRange ts vs
      → ((b.end + length (encode ts vs) ≤ b.data_len)
          × ((b' : Buf) × (ptk_buf_serialize host (some b) big_endian (map field_arg (zip ts vs))
                ≡ some (ok, some b'))
              × IsAppended b (encode ts vs) b'))
        ⊎ ((b.data_len < b.end + length (encode ts vs))
            × ((b' : Buf) × (ptk_buf_serialize host (some b) big_endian (map field_arg (zip ts vs))
                  ≡ some (buffer_too_small, some b'))
                × IsValid b'))
  unfolding ptk_buf_serialize
  serialize_words ts vs b v r =
      let fs = zip ts vs in
      let bytes : wire_fields host big_endian fs ≡ encode ts vs = wire_fields-zip host ts vs r in
      elim (serialize_lem host big_endian fs b v (zip-IsScalar ts vs)) [
        | inl (fits, (b', e, a)) ↦ inl (
          omega (arith, ap length bytes),
          (b', rw (length-map field_arg fs, e), rw (sym bytes) a),
        )
        | inr (full, (b', e, v', h)) ↦
            inr (omega (arith, ap length bytes), (b', rw (length-map field_arg fs, e), v'))
      ]

  pub deserialize_words :
      (ts : List Width) (b : Buf)
      → IsValid b
      → All IsByte (pending b)
      → ((total_size (map buf_type ts) ≤ length (pending b))
          × (ptk_buf_deserialize host (some b) false big_endian (map slot_arg (map buf_type ts))
              ≡ some (
                ok,
                field_values big_endian (map buf_type ts) (pending b),
                some (advanced b (total_size (map buf_type ts))),
              )))
        ⊎ ((length (pending b) < total_size (map buf_type ts))
            × ((out : List ℕ) × (ptk_buf_deserialize host
                    (some b)
                    false
                    big_endian
                    (map slot_arg (map buf_type ts))
                  ≡ some (buffer_too_small, out, some b))))
  unfolding ptk_buf_deserialize
  deserialize_words ts b v a =
      elim (deserialize_lem host big_endian (map buf_type ts) b v (layout-IsScalar ts) a) [
        | inl (enough, e, v', rest) ↦ inl (enough, rw (length-map slot_arg (map buf_type ts), e))
        | inr (short, (out, e)) ↦ inr (short, (out, rw (length-map slot_arg (map buf_type ts), e)))
      ]

  deserialize_byte :
      (b : Buf)
      → IsValid b
      → All IsByte (pending b)
      → ((1 ≤ length (pending b))
          × (ptk_buf_deserialize host (some b) false big_endian ((u8, slot) ∷ [])
              ≡ some (ok, take 1 (pending b), some (advanced b 1))))
        ⊎ ((length (pending b) < 1)
            × ((out : List ℕ) × (ptk_buf_deserialize host
                    (some b)
                    false
                    big_endian
                    ((u8, slot) ∷ [])
                  ≡ some (buffer_too_small, out, some b))))
  unfolding type_size
  deserialize_byte b v a = elim (deserialize_words (byte ∷ []) b v a) [
    | inr (short, (out, e)) ↦ inr (short, (out, e))
    | inl (enough, e) ↦ inl (
      enough,
      e
          ∙ ap (λ (r : List ℕ). some (ok, r, some (advanced b 1)))
              (decode_lem (byte ∷ []) (pending b) a enough).0,
    )
  ]

  -- The two bytes in front of a response.
  pub deserialize_two :
      (b : Buf) (f n : ℕ) (bytes : List ℕ)
      → IsValid b
      → All IsByte (f ∷ n ∷ bytes)
      → pending b ≡ f ∷ n ∷ bytes
      → (ptk_buf_deserialize host (some b) false big_endian ((u8, slot) ∷ (u8, slot) ∷ [])
          ≡ some (ok, f ∷ n ∷ [], some (advanced b 2)))
        × IsValid (advanced b 2)
        × (pending (advanced b 2) ≡ bytes)
  unfolding type_size unwire from_le
  deserialize_two b f n bytes v a held =
      let two : 2 ≤ length (pending b) = omega (arith, ap length held) in
      elim (deserialize_words (byte ∷ byte ∷ []) b v (rw held a)) [
        | inr (short, r) ↦ absurd (omega arith)
        | inl (enough, e) ↦ (
          e
              ∙ ap (λ (r : List ℕ). some (ok, r, some (advanced b 2)))
                  (ap (field_values big_endian (map buf_type (byte ∷ byte ∷ []))) held
                    ∙ ap₂ (λ (x y : ℕ). x ∷ y ∷ []) (omega arith) (omega arith)),
          advanced-IsValid b 2 v two,
          pending-advanced b 2 ∙ ap (drop 2) held,
        )
      ]

  -- The loop that writes the first `count` of some bytes into a valid buffer: all of them
  -- appended where they fit, and PTK_ERR_BUFFER_TOO_SMALL where they do not.
  pub serialize_bytes_lem :
      (count : ℕ) (bytes : List ℕ) (b : Buf)
      → IsValid b
      → All IsByte bytes
      → count ≤ length bytes
      → ((b.end + count ≤ b.data_len)
          × ((b' : Buf) × (serialize_bytes host count bytes (some b) ≡ some (ok, some b'))
              × IsAppended b (take count bytes) b'))
        ⊎ ((b.data_len < b.end + count)
            × ((b' : Buf) × (serialize_bytes host count bytes (some b)
                  ≡ some (buffer_too_small, some b'))
                × IsValid b'))
  unfolding serialize_bytes
  serialize_bytes_lem zero bytes b v a h = inl (omega arith, (b, refl, IsAppended-nil v))
  serialize_bytes_lem (suc count) [] b v a h = absurd (omega arith)
  serialize_bytes_lem (suc count) (x ∷ bytes) b v (ax, a) h =
      elim (serialize_words (byte ∷ []) (x ∷ []) b v (ax, tt)) [
        | inr (full, (b', e, v')) ↦ inr (omega arith, (b', rw e, v'))
        | inl (fits, (b', e, one)) ↦
            elim (serialize_bytes_lem count bytes b' one.valid a (omega arith)) [
              | inl (fits', (b'', e', more)) ↦ inl (
                omega (arith, one.end_moved, one.same_len),
                (b'', rw (e, e'), IsAppended-trans one more),
              )
              | inr (full, (b'', e', v')) ↦
                  inr (omega (arith, one.end_moved, one.same_len), (b'', rw (e, e'), v'))
            ]
      ]

  take-suc : (n : ℕ) (xs : List ℕ) → take 1 xs ++ take n (drop 1 xs) ≡ take (suc n) xs
  take-suc zero [] = refl
  take-suc (suc n) [] = refl
  take-suc n (x ∷ xs) = refl

  -- The loop that reads `count` bytes from a valid buffer: where so many are pending, it takes
  -- them in their order; where they are not, PTK_ERR_BUFFER_TOO_SMALL.
  pub deserialize_bytes_lem :
      (count : ℕ) (b : Buf)
      → IsValid b
      → All IsByte (pending b)
      → ((count ≤ length (pending b))
          × (deserialize_bytes host count (some b)
              ≡ some (ok, take count (pending b), some (advanced b count))))
        ⊎ ((length (pending b) < count)
            × ((out : List ℕ) × (b' : Buf) × (deserialize_bytes host count (some b)
                  ≡ some (buffer_too_small, out, some b'))
                × IsValid b'))
  unfolding deserialize_bytes
  deserialize_bytes_lem zero b v a =
      inl (omega arith, ap (λ (p : ℕ). some (ok, [], some (record b { start = p }))) (omega arith))
  deserialize_bytes_lem (suc count) b v a = elim (deserialize_byte b v a) [
    | inr (short, (out, e)) ↦ inr (omega arith, ([], b, rw e, v))
    | inl (enough, e) ↦
        let next = advanced b 1 in
        let v' = advanced-IsValid b 1 v enough in
        let rest = pending-advanced b 1 in
        let shorter : length (pending next) ≡ length (pending b) - 1 =
          ap length rest ∙ length-drop 1 (pending b) in
        elim (deserialize_bytes_lem count next v' (rw rest (All-drop IsByte 1 (pending b) a))) [
          | inr (short, (out, b', e', w)) ↦
              inr (omega arith, (take 1 (pending b) ++ out, b', rw (e, e'), w))
          | inl (more, e') ↦ inl (
            omega arith,
            rw (e, e', rest, take-suc count (pending b))
                (ap
                  (λ (p : ℕ).
                    some (ok, take (suc count) (pending b), some (record b { start = p })))
                  (omega arith)),
          )
        ]
  ]
