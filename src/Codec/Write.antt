-- ===== src/Codec/Write.antt =====
-- ptk_buf_serialize on fields that are numbers.
use protocol_toolkit.Prelude.{
  ℕ, ◌+◌, ◌<◌, ◌≤◌, false, some, List, [], ◌∷◌, ◌++◌, map, ◌≡◌, refl, ap, arith, length, All, ◌⊎◌,
  inl, inr, length-append, lt→ne, le→ltb, lt→ltb, dec_lt, suc-ne-zero,
}
use protocol_toolkit.Prelude.Memory.{write_at-some}
use protocol_toolkit.Err.{ok, buffer_too_small}
use protocol_toolkit.Buf.{Buf}
use protocol_toolkit.Buf.Inv.{IsValid, pending}
use protocol_toolkit.Codec.{
  BufType, u8, serializable, other, Endian, Host, Value, num, type_size, out_of_range, is_object,
  cast_word, store_scalar, write_scalar, write_typed_value, serialize_loop, serialize_impl,
}
use protocol_toolkit.Codec.Words.{wire, length-wire, mem_bytes-swapped}
use protocol_toolkit.Codec.Append.{
  IsAppended, IsKept, IsAppended-nil, IsAppended-trans, IsKept-refl, IsAppended-IsKept,
  IsKept-restored, appended, appended-IsAppended,
}

-- The types of numbers.
abbrev pub IsScalar : BufType → Type 0
IsScalar t = 0 < type_size t

pub scalar_tests : (t : BufType) → IsScalar t → (out_of_range t ≡ false) × (is_object t ≡ false)
unfolding type_size out_of_range is_object
scalar_tests u8 h = (refl, refl)
scalar_tests serializable h = absurd (omega arith)
scalar_tests other h = absurd (omega arith)
scalar_tests _ h = (refl, refl)

-- A field of a message: its type and the bit pattern of its value.
abbrev pub Field : Type 0
Field = BufType × ℕ

abbrev pub field_arg : Field → BufType × Value
field_arg (t, w) = (t, num w)

module _ (host : Host) (endian : Endian) where
  abbrev pub wire_field : Field → List ℕ
  wire_field (t, w) = wire endian (type_size t) (cast_word host t w)

  -- The bytes of a list of fields.
  abbrev pub wire_fields : List Field → List ℕ
  wire_fields [] = []
  wire_fields (f ∷ fs) = wire_field f ++ wire_fields fs

  write_num-fits :
      (b : Buf) (t : BufType) (w : ℕ)
      → IsValid b
      → IsScalar t
      → b.end + type_size t ≤ b.data_len
      → write_typed_value host b t endian (num w) ≡ some (ok, appended b (wire_field (t, w)))
  unfolding write_typed_value write_scalar store_scalar
  write_num-fits b t w v s h =
      rw
        (
          (scalar_tests t s).1,
          lt→ne (type_size t) 0 s,
          le→ltb b.data_len (b.end + type_size t) h,
          mem_bytes-swapped host endian (type_size t) (cast_word host t w),
        )
        (rw
          (write_at-some b.bytes b.end bytes
            (omega (arith, length-wire endian (type_size t) (cast_word host t w))))
          (ap (λ (e : ℕ). some (ok, record (appended b bytes) { end = e }))
            (omega (arith, length-wire endian (type_size t) (cast_word host t w)))))
    where
      bytes : List ℕ
      bytes = wire endian (type_size t) (cast_word host t w)

  write_num-full :
      (b : Buf) (t : BufType) (w : ℕ)
      → IsScalar t
      → b.data_len < b.end + type_size t
      → write_typed_value host b t endian (num w) ≡ some (buffer_too_small, b)
  unfolding write_typed_value write_scalar
  write_num-full b t w s h =
      rw ((scalar_tests t s).1, lt→ne (type_size t) 0 s, lt→ltb b.data_len (b.end + type_size t) h)

  length-wire_field : (f : Field) → length (wire_field f) ≡ type_size f.0
  length-wire_field (t, w) = length-wire endian (type_size t) (cast_word host t w)

  loop_fits :
      (fs : List Field) (b : Buf)
      → IsValid b
      → All (λ f. IsScalar f.0) fs
      → b.end + length (wire_fields fs) ≤ b.data_len
      → (b' : Buf) × (serialize_loop host (length fs) endian (map field_arg fs) b ≡ some (ok, b'))
        × IsAppended b (wire_fields fs) b'
  unfolding serialize_loop
  loop_fits [] b v s h = (b, refl, IsAppended-nil v)
  loop_fits ((t, w) ∷ fs) b v (st, sfs) h =
      let (b', e, a) =
        loop_fits fs next one.valid sfs
          (omega (arith, length-append (wire_field (t, w)) (wire_fields fs))) in
      (
        b',
        rw
            (
              (scalar_tests t st).0,
              write_num-fits b t w v st
                  (omega (arith, size, length-append (wire_field (t, w)) (wire_fields fs))),
            )
            e,
        IsAppended-trans one a,
      )
    where
      size : length (wire_field (t, w)) ≡ type_size t
      size = length-wire_field (t, w)

      next : Buf
      next = appended b (wire_field (t, w))

      one : IsAppended b (wire_field (t, w)) next
      one =
          appended-IsAppended b (wire_field (t, w)) v
            (omega (arith, length-append (wire_field (t, w)) (wire_fields fs)))

  loop_full :
      (fs : List Field) (b : Buf)
      → IsValid b
      → All (λ f. IsScalar f.0) fs
      → b.data_len < b.end + length (wire_fields fs)
      → (b' : Buf) × (serialize_loop host (length fs) endian (map field_arg fs) b
          ≡ some (buffer_too_small, b'))
        × IsKept b b'
  unfolding serialize_loop
  loop_full [] b v s h = absurd (omega arith)
  loop_full ((t, w) ∷ fs) b v (st, sfs) h = elim (dec_lt b.data_len (b.end + type_size t)) [
    | yes full ↦ (b, rw ((scalar_tests t st).0, write_num-full b t w st full), IsKept-refl v)
    | no fits ↦
        let bytes = wire_field (t, w) in
        let one = appended-IsAppended b bytes v (omega (arith, length-wire_field (t, w))) in
        let (b', e, k) =
          loop_full fs (appended b bytes) one.valid sfs
            (omega (arith, length-append bytes (wire_fields fs))) in
        (
          b',
          rw ((scalar_tests t st).0, write_num-fits b t w v st (omega arith)) e,
          IsAppended-IsKept v one k,
        )
  ]

  pub length-wire_fields-cons :
      (f : Field) (fs : List Field)
      → length (wire_fields (f ∷ fs)) ≡ type_size f.0 + length (wire_fields fs)
  length-wire_fields-cons f fs =
      omega (arith, length-append (wire_field f) (wire_fields fs), length-wire_field f)

  -- ptk_buf_serialize of number fields into a valid buffer touches no memory outside the block,
  -- whatever the host. Where the fields fit behind the end it appends exactly their bytes, in the
  -- order asked for; where they do not, it answers PTK_ERR_BUFFER_TOO_SMALL and leaves a valid
  -- buffer with the bytes that were pending before.
  pub serialize_lem :
      (fs : List Field) (b : Buf)
      → IsValid b
      → All (λ f. IsScalar f.0) fs
      → ((b.end + length (wire_fields fs) ≤ b.data_len)
          × ((b' : Buf) × (serialize_impl host b endian (length fs) (map field_arg fs)
                ≡ some (ok, b'))
              × IsAppended b (wire_fields fs) b'))
        ⊎ ((b.data_len < b.end + length (wire_fields fs))
            × ((b' : Buf) × (serialize_impl host b endian (length fs) (map field_arg fs)
                  ≡ some (buffer_too_small, b'))
                × IsValid b'
                × (pending b' ≡ pending b)))
  unfolding serialize_impl
  serialize_lem [] b v s = inl (omega arith, (b, refl, IsAppended-nil v))
  serialize_lem (f ∷ fs) b v s = elim (dec_lt b.data_len (b.end + length (wire_fields (f ∷ fs)))) [
    | yes full ↦
        let (b', e, k) = loop_full (f ∷ fs) b v s full in
        let (v', p) = IsKept-restored v k in
        inr (full, (record b' { end = b.end }, rw (suc-ne-zero (length fs), e), v', p))
    | no fits ↦
        let (b', e, a) = loop_fits (f ∷ fs) b v s (omega arith) in
        inl (omega arith, (b', rw (suc-ne-zero (length fs), e), a))
  ]
