-- ===== src/Codec/RoundTrip.antt =====
-- What one host serializes another deserializes; and what a peek at several fields gives.
use protocol_toolkit.Prelude.{
  ℕ, ◌+◌, ◌^◌, ◌<◌, ◌≤◌, true, false, some, List, [], ◌∷◌, ◌++◌, map, ◌≡◌, refl, ◌∙◌, ap, sym,
  arith, length, All, All-append, inl, inr, suc-ne-zero, take, take_exact, drop_exact, append-nil,
  append_assoc, drop-zero_of_le,
}
use protocol_toolkit.Prelude.Bytes.{IsByte}
use protocol_toolkit.Err.{ok}
use protocol_toolkit.Buf.{Buf}
use protocol_toolkit.Buf.Inv.{IsValid, pending}
use protocol_toolkit.Codec.{
  BufType, float, serializable, other, Endian, Host, type_size, cast_word, serialize_impl,
  deserialize_loop, deserialize_impl,
}
use protocol_toolkit.Codec.Words.{unwire, length-wire, unwire-wire, wire-All}
use protocol_toolkit.Codec.Append.{pending-append}
use protocol_toolkit.Codec.Write.{
  IsScalar, scalar_tests, Field, field_arg, wire_field, wire_fields, serialize_lem,
  length-wire_fields-cons,
}
use protocol_toolkit.Codec.Read.{
  slot_arg, total_size, field_values, advanced, read_num-fits, deserialize_lem,
}

abbrev pub field_types : List Field → List BufType
field_types [] = []
field_types ((t, w) ∷ fs) = t ∷ field_types fs

pub cast_word-lt :
    (host : Host) (t : BufType) (w : ℕ) → IsScalar t → cast_word host t w < 256 ^ type_size t
unfolding cast_word type_size
cast_word-lt host float w s = host.float_of_double-lt w
cast_word-lt host serializable w s = absurd (omega arith)
cast_word-lt host other w s = absurd (omega arith)
cast_word-lt host _ w s = omega arith

module _ (host : Host) (endian : Endian) where
  abbrev pub casts : List Field → List ℕ
  casts [] = []
  casts ((t, w) ∷ fs) = cast_word host t w ∷ casts fs

  pub wire_fields-All : (fs : List Field) → All IsByte (wire_fields host endian fs)
  wire_fields-All [] = tt
  wire_fields-All ((t, w) ∷ fs) =
      All-append IsByte (wire_field host endian (t, w)) (wire_fields host endian fs)
        (wire-All endian (type_size t) (cast_word host t w)) (wire_fields-All fs)

  pub length-wire_fields :
      (fs : List Field) → length (wire_fields host endian fs) ≡ total_size (field_types fs)
  length-wire_fields [] = refl
  length-wire_fields ((t, w) ∷ fs) =
      omega (arith, length-wire_fields-cons host endian (t, w) fs, length-wire_fields fs)

  pub field_values-wire :
      (fs : List Field) (rest : List ℕ)
      → All (λ f. IsScalar f.0) fs
      → field_values endian (field_types fs) (wire_fields host endian fs ++ rest) ≡ casts fs
  field_values-wire [] rest s = refl
  field_values-wire ((t, w) ∷ fs) rest (st, sfs) =
      let bytes = wire_field host endian (t, w) in
      let more = wire_fields host endian fs in
      let size = length-wire endian (type_size t) (cast_word host t w) in
      rw (append_assoc bytes more rest) (
        rw
          (
            take_exact (type_size t) bytes (more ++ rest) size,
            drop_exact (type_size t) bytes (more ++ rest) size,
            unwire-wire endian (type_size t) (cast_word host t w) (cast_word-lt host t w st),
          )
          (ap (λ r. cast_word host t w ∷ r) (field_values-wire fs rest sfs)))

  pub IsScalar-types :
      (fs : List Field) → All (λ f. IsScalar f.0) fs → All IsScalar (field_types fs)
  IsScalar-types [] s = tt
  IsScalar-types ((t, w) ∷ fs) (st, sfs) = (st, IsScalar-types fs sfs)

  -- Number fields that fit into a valid buffer with nothing pending are written by
  -- ptk_buf_serialize on one host, and ptk_buf_deserialize of the same types and byte order on any
  -- other host reads back the values, as the casts to the fields' types leave them, and nothing
  -- is pending again.
  pub deserialize-serialize :
      (reader : Host) (fs : List Field) (b : Buf)
      → IsValid b
      → pending b ≡ []
      → All (λ f. IsScalar f.0) fs
      → b.end + total_size (field_types fs) ≤ b.data_len
      → (b' : Buf) × (b'' : Buf) × (serialize_impl host b endian (length fs) (map field_arg fs)
          ≡ some (ok, b'))
        × (deserialize_impl reader b' false endian
              (length (field_types fs))
              (map slot_arg (field_types fs))
            ≡ some (ok, casts fs, b''))
        × (pending b'' ≡ [])
  deserialize-serialize reader fs b v empty s h = elim (serialize_lem host endian fs b v s) [
    | inr (full, r) ↦ absurd (omega (arith, length-wire_fields fs))
    | inl (fits, (b', e, a)) ↦
        let bytes = wire_fields host endian fs in
        let held : pending b' ≡ bytes = pending-append v a ∙ ap (λ r. r ++ bytes) empty in
        let ts = field_types fs in
        elim (deserialize_lem reader endian ts b' a.valid (IsScalar-types fs s)
          (rw held (wire_fields-All fs))) [
            | inr (short, r) ↦ absurd (omega (arith, length-wire_fields fs, ap length held))
            | inl (enough, e', v', p') ↦ (
              b',
              advanced b' (total_size ts),
              e,
              e'
                  ∙ ap (λ (r : List ℕ). some (ok, r, advanced b' (total_size ts)))
                      (ap (λ r. field_values endian ts r) (held ∙ sym (append-nil bytes))
                        ∙ field_values-wire fs [] s),
              p'
                  ∙ drop-zero_of_le (total_size ts) (pending b')
                      (omega (arith, length-wire_fields fs, ap length held)),
            )
          ]
  ]

-- What a peek at several fields stores: every field is read at the same place.
abbrev pub peek_values : Endian → List BufType → List ℕ → List ℕ
peek_values endian [] bs = []
peek_values endian (t ∷ ts) bs = unwire endian (take (type_size t) bs) ∷ peek_values endian ts bs

module _ (host : Host) (endian : Endian) where
  peek_loop :
      (ts : List BufType) (b : Buf)
      → IsValid b
      → All IsByte (pending b)
      → All (λ t. IsScalar t × (type_size t ≤ length (pending b))) ts
      → deserialize_loop host (length ts) true endian (map slot_arg ts) b
        ≡ some (ok, peek_values endian ts (pending b), b)
  unfolding deserialize_loop
  peek_loop [] b v a s = refl
  peek_loop (t ∷ ts) b v a ((st, ht), sts) =
      rw (
        (scalar_tests t st).0,
        read_num-fits host endian b true t v st a ht,
        peek_loop ts b v a sts,
      )

  -- A peek at number fields, each no larger than what is pending in a valid buffer, succeeds and
  -- leaves the buffer as it was; but it does not move on between the fields: each gets the value
  -- that the bytes at the very front have for its type.
  pub deserialize_peek_lem :
      (ts : List BufType) (b : Buf)
      → IsValid b
      → All IsByte (pending b)
      → All (λ t. IsScalar t × (type_size t ≤ length (pending b))) ts
      → deserialize_impl host b true endian (length ts) (map slot_arg ts)
        ≡ some (ok, peek_values endian ts (pending b), b)
  unfolding deserialize_impl
  deserialize_peek_lem [] b v a s = refl
  deserialize_peek_lem (t ∷ ts) b v a s = rw (suc-ne-zero (length ts), peek_loop (t ∷ ts) b v a s)
