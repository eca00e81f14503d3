-- ===== src/Tests/Serialization.antt =====
-- The typed serialization.
use protocol_toolkit.Prelude.{
  All, List, [], arith, drop, false, length, map, refl, some, true, ℕ, ◌+◌, ◌<◌, ◌∷◌, ◌≡◌, ◌≤◌, ◌⊎◌,
}
use protocol_toolkit.Buf.{Buf}
use protocol_toolkit.Buf.Inv.{IsValid, pending}
use protocol_toolkit.Codec.{
  BufType, big_endian, deserialize_impl, little_endian, serialize_impl, type_size, u16, u32, u8,
}
use protocol_toolkit.Codec.Append.{IsAppended}
use protocol_toolkit.Codec.Read.{advanced, deserialize_lem, field_values, slot_arg, total_size}
use protocol_toolkit.Codec.RoundTrip.{
  casts, deserialize-serialize, deserialize_peek_lem, field_types, peek_values,
}
use protocol_toolkit.Codec.Write.{Field, IsScalar, field_arg, serialize_lem, wire_fields}
use protocol_toolkit.Err.{buffer_too_small, ok}
use protocol_toolkit.Tests.Data.{
  big, empty_buf, empty_buf-IsValid, little, request_buf, request_buf-IsValid,
}

abbrev two_fields : List Field
two_fields = (u8, 3) ∷ (u32, 70000) ∷ []

abbrev two_types : List BufType
two_types = u8 ∷ u16 ∷ []

two_fields-IsScalar : All (λ (f : Field). IsScalar f.0) two_fields
unfolding type_size
two_fields-IsScalar = (omega arith, (omega arith, tt))

two_types-IsScalar : All IsScalar two_types
unfolding type_size
two_types-IsScalar = (omega arith, (omega arith, tt))

two_types-fit : All (λ t. IsScalar t × (type_size t ≤ length (pending request_buf))) two_types
unfolding type_size
two_types-fit = ((omega arith, omega arith), ((omega arith, omega arith), tt))

room : empty_buf.end + total_size (field_types two_fields) ≤ empty_buf.data_len
unfolding type_size
room = omega arith

serialize_lem_example :
    ((empty_buf.end + length (wire_fields little big_endian two_fields) ≤ empty_buf.data_len)
      × ((b' : Buf) × (serialize_impl little empty_buf big_endian
              (length two_fields)
              (map field_arg two_fields)
            ≡ some (ok, b'))
          × IsAppended empty_buf (wire_fields little big_endian two_fields) b'))
    ⊎ ((empty_buf.data_len < empty_buf.end + length (wire_fields little big_endian two_fields))
        × ((b' : Buf) × (serialize_impl little empty_buf big_endian
                (length two_fields)
                (map field_arg two_fields)
              ≡ some (buffer_too_small, b'))
            × IsValid b'
            × (pending b' ≡ pending empty_buf)))
serialize_lem_example =
    serialize_lem little big_endian two_fields empty_buf empty_buf-IsValid two_fields-IsScalar

deserialize_lem_example :
    ((total_size two_types ≤ length (pending request_buf))
      × (deserialize_impl big request_buf false little_endian
            (length two_types)
            (map slot_arg two_types)
          ≡ some (
            ok,
            field_values little_endian two_types (pending request_buf),
            advanced request_buf (total_size two_types),
          ))
      × IsValid (advanced request_buf (total_size two_types))
      × (pending (advanced request_buf (total_size two_types))
          ≡ drop (total_size two_types) (pending request_buf)))
    ⊎ ((length (pending request_buf) < total_size two_types)
        × ((out : List ℕ) × (deserialize_impl big request_buf false little_endian
                (length two_types)
                (map slot_arg two_types)
              ≡ some (buffer_too_small, out, request_buf))))
deserialize_lem_example =
    deserialize_lem big little_endian two_types request_buf request_buf-IsValid two_types-IsScalar
      (omega arith, (omega arith, (omega arith, (omega arith, (omega arith, tt)))))

deserialize-serialize_example :
    (b' : Buf) × (b'' : Buf) × (serialize_impl little empty_buf big_endian
        (length two_fields)
        (map field_arg two_fields)
      ≡ some (ok, b'))
    × (deserialize_impl big b' false big_endian
          (length (field_types two_fields))
          (map slot_arg (field_types two_fields))
        ≡ some (ok, casts little big_endian two_fields, b''))
    × (pending b'' ≡ [])
deserialize-serialize_example =
    deserialize-serialize little big_endian big two_fields empty_buf empty_buf-IsValid refl
      two_fields-IsScalar room

deserialize_peek_lem_example :
    deserialize_impl little request_buf true big_endian (length two_types) (map slot_arg two_types)
    ≡ some (ok, peek_values big_endian two_types (pending request_buf), request_buf)
deserialize_peek_lem_example =
    deserialize_peek_lem little big_endian two_types request_buf request_buf-IsValid
      (omega arith, (omega arith, (omega arith, (omega arith, (omega arith, tt))))) two_types-fit
