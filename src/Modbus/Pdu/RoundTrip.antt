-- ===== src/Modbus/Pdu/RoundTrip.antt =====
-- The serialize and deserialize methods of the messages of fixed length.
use protocol_toolkit.Prelude.{
  ℕ, suc, ◌+◌, ◌<◌, ◌≤◌, some, List, [], ◌∷◌, map, length, length-map, take, ◌≡◌, refl, ap, ap₂,
  sym, arith, All, ◌⊎◌, inl, inr,
}
use protocol_toolkit.Prelude.Bytes.{from_le, IsByte}
use protocol_toolkit.Err.{ok, buffer_too_small}
use protocol_toolkit.Buf.{Buf}
use protocol_toolkit.Buf.Inv.{IsValid, pending}
use protocol_toolkit.Codec.{Host, big_endian, type_size}
use protocol_toolkit.Codec.Words.{unwire}
use protocol_toolkit.Codec.Append.{IsAppended}
use protocol_toolkit.Codec.Write.{IsScalar, wire_fields, serialize_lem}
use protocol_toolkit.Codec.Read.{slot_arg, total_size, field_values, advanced, deserialize_lem}
use protocol_toolkit.Codec.RoundTrip.{field_types, length-wire_fields, deserialize-serialize}
use protocol_toolkit.Modbus.Message.{ptk_buf_deserialize}
use protocol_toolkit.Modbus.Pdu.{
  Kind, read_coils_req, read_discrete_inputs_req, read_holding_registers_req,
  read_input_registers_req, write_single_coil_req, write_single_coil_resp,
  write_single_register_req, write_single_register_resp, write_multiple_coils_resp,
  write_multiple_registers_resp, exception_resp, Object, serialize, deserialize,
}
use protocol_toolkit.Modbus.Pdu.Format.{
  contents, base, buf_type, Width, byte, word, layout, encode, encoding, InRange, IsTyped, fields,
  zip-IsScalar, wire_fields-zip, casts-zip, field_types-zip, length-contents,
}
use protocol_toolkit.Modbus.Pdu.Methods.{assign, serialize-eq, deserialize-eq}

module _ (host : Host) where
  -- Serializing a message whose fields are in the range of their types into a valid buffer
  -- touches no memory outside the block. Where the message fits behind the end, its bytes as the
  -- format has them are appended; where it does not, the answer is PTK_ERR_BUFFER_TOO_SMALL, and
  -- the buffer is valid with the same bytes pending.
  pub serialize_pdu :
      (k : Kind) (p : Object k) (b : Buf)
      → IsValid b
      → IsTyped k p
      → ((b.end + length (encoding k p) ≤ b.data_len)
          × ((b' : Buf) × (serialize host k (some b) p ≡ some (ok, some b'))
              × IsAppended b (encoding k p) b'))
        ⊎ ((b.data_len < b.end + length (encoding k p))
            × ((b' : Buf) × (serialize host k (some b) p ≡ some (buffer_too_small, some b'))
                × IsValid b'
                × (pending b' ≡ pending b)))
  serialize_pdu k p b v t =
      let bytes : wire_fields host big_endian (fields k p) ≡ encoding k p =
        wire_fields-zip host (layout k) (contents k p) t in
      elim (serialize_lem host big_endian (fields k p) b v
        (zip-IsScalar (layout k) (contents k p))) [
          | inl (fits, (b', e, a)) ↦ inl (
            omega (arith, ap length bytes),
            (b', rw (serialize-eq host k p b, e), rw (sym bytes) a),
          )
          | inr (full, (b', e, v', h)) ↦
              inr (omega (arith, ap length bytes), (b', rw (serialize-eq host k p b, e), v', h))
        ]

abbrev pub size : Kind → ℕ
size k = total_size (map buf_type (layout k))

pub decode_lem :
    (ts : List Width) (bs : List ℕ)
    → All IsByte bs
    → total_size (map buf_type ts) ≤ length bs
    → (encode ts (field_values big_endian (map buf_type ts) bs)
        ≡ take (total_size (map buf_type ts)) bs)
      × InRange ts (field_values big_endian (map buf_type ts) bs)
unfolding type_size unwire from_le
decode_lem [] bs a h = (refl, tt)
decode_lem (byte ∷ ts) [] a h = absurd (omega arith)
decode_lem (byte ∷ ts) (x ∷ bs) (ax, a) h =
    let (e, r) = decode_lem ts bs a (omega arith) in
    let n : 1 + total_size (map buf_type ts) ≡ suc (total_size (map buf_type ts)) = omega arith in
    (rw n (ap₂ ◌∷◌ (omega arith) e), (omega arith, r))
decode_lem (word ∷ ts) [] a h = absurd (omega arith)
decode_lem (word ∷ ts) (x ∷ []) a h = absurd (omega arith)
decode_lem (word ∷ ts) (x ∷ y ∷ bs) (ax, (ay, a)) h =
    let (e, r) = decode_lem ts bs a (omega arith) in
    let n : 2 + total_size (map buf_type ts) ≡ suc (suc (total_size (map buf_type ts))) =
      omega arith in
    (rw n (ap₂ ◌∷◌ (omega arith) (ap₂ ◌∷◌ (omega arith) e)), (omega arith, r))

contents-assign :
    (k : Kind) (p : Object k) (bs : List ℕ)
    → contents k (assign k p (field_values big_endian (map buf_type (layout k)) bs))
      ≡ field_values big_endian (map buf_type (layout k)) bs
contents-assign exception_resp p bs = refl
contents-assign _ p bs = refl

contents-assign_self :
    (k : Kind) (old p : Object k) → contents k (assign k old (contents k p)) ≡ contents k p
contents-assign_self exception_resp old p = refl
contents-assign_self read_coils_req old p = refl
contents-assign_self read_discrete_inputs_req old p = refl
contents-assign_self read_holding_registers_req old p = refl
contents-assign_self read_input_registers_req old p = refl
contents-assign_self write_single_coil_req old p = refl
contents-assign_self write_single_coil_resp old p = refl
contents-assign_self write_single_register_req old p = refl
contents-assign_self write_single_register_resp old p = refl
contents-assign_self write_multiple_coils_resp old p = refl
contents-assign_self write_multiple_registers_resp old p = refl

base-assign : (k : Kind) (p : Object k) (vs : List ℕ) → base k (assign k p vs) ≡ base k p
base-assign exception_resp p vs = refl
base-assign _ p vs = refl

pub layout-IsScalar : (ts : List Width) → All IsScalar (map buf_type ts)
unfolding type_size
layout-IsScalar [] = tt
layout-IsScalar (byte ∷ ts) = (omega arith, layout-IsScalar ts)
layout-IsScalar (word ∷ ts) = (omega arith, layout-IsScalar ts)

module _ (host : Host) where
  -- Deserializing from a valid buffer touches no memory outside the block. Where a whole message
  -- is pending, exactly its bytes are taken, and the fields are the values in range whose bytes
  -- they are; where less is pending, the answer is PTK_ERR_BUFFER_TOO_SMALL and nothing is taken.
  pub deserialize_pdu :
      (k : Kind) (p : Object k) (b : Buf)
      → IsValid b
      → All IsByte (pending b)
      → ((size k ≤ length (pending b))
          × ((p' : Object k) × (deserialize host k (some b) p
                ≡ some (ok, p', some (advanced b (size k))))
              × (encoding k p' ≡ take (size k) (pending b))
              × IsTyped k p'
              × (base k p' ≡ base k p)))
        ⊎ ((length (pending b) < size k)
            × ((p' : Object k) × (deserialize host k (some b) p
                  ≡ some (buffer_too_small, p', some b))))
  unfolding ptk_buf_deserialize
  deserialize_pdu k p b v a =
      let ts = map buf_type (layout k) in
      elim (deserialize_lem host big_endian ts b v (layout-IsScalar (layout k)) a) [
        | inl (enough, e, v', rest) ↦
            let (content, typed) = decode_lem (layout k) (pending b) a enough in
            let same = contents-assign k p (pending b) in
            inl (
              enough,
              (
                assign k p (field_values big_endian ts (pending b)),
                rw (deserialize-eq host k p b, length-map slot_arg ts, e),
                rw (same) content,
                rw (same) typed,
                base-assign k p (field_values big_endian ts (pending b)),
              ),
            )
        | inr (short, (out, e)) ↦
            inr (short, (assign k p out, rw (deserialize-eq host k p b, length-map slot_arg ts, e)))
      ]

-- A message whose fields are in the range of their types, serialized on one host into a valid
-- buffer with nothing pending and enough room, is read back by the deserialize method on any
-- other host into any structure of its kind: the fields are those of the message, the type in
-- the base stays the structure's own, and nothing is pending again.
pub deserialize-serialize_pdu :
    (writer reader : Host) (k : Kind) (p old : Object k) (b : Buf)
    → IsValid b
    → pending b ≡ []
    → IsTyped k p
    → b.end + length (encoding k p) ≤ b.data_len
    → (p' : Object k) × (b' : Buf) × (b'' : Buf) × (serialize writer k (some b) p
        ≡ some (ok, some b'))
      × (deserialize reader k (some b') old ≡ some (ok, p', some b''))
      × (contents k p' ≡ contents k p)
      × (base k p' ≡ base k old)
      × (pending b'' ≡ [])
unfolding ptk_buf_deserialize
deserialize-serialize_pdu writer reader k p old b v empty t h =
    let fs = fields k p in
    let same = length-contents k p in
    let types : field_types fs ≡ map buf_type (layout k) =
      field_types-zip (layout k) (contents k p) same in
    let bytes : wire_fields writer big_endian fs ≡ encoding k p =
      wire_fields-zip writer (layout k) (contents k p) t in
    let (b', b'', e, e', done) =
      deserialize-serialize writer big_endian reader fs b v empty
        (zip-IsScalar (layout k) (contents k p))
        (omega (arith, length-wire_fields writer big_endian fs, ap length bytes)) in
    (
      assign k old (contents k p),
      b',
      b'',
      rw (serialize-eq writer k p b, e),
      rw (
        deserialize-eq reader k old b',
        length-map slot_arg (map buf_type (layout k)),
        sym types,
        e',
        casts-zip writer (layout k) (contents k p) t same,
      ),
      contents-assign_self k old p,
      base-assign k old (contents k p),
      done,
    )
