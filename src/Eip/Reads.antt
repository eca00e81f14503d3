-- ===== src/Eip/Reads.antt =====
-- Reads from a buffer whose start may lie behind its end: they store their values, or take nothing.
use protocol_toolkit.Prelude.{
  ℕ, ◌^◌, ◌+◌, ◌<◌, ◌≤◌, Option, some, List, [], ◌∷◌, map, take, length, length-take, All, All-take,
  All-drop, ◌≡◌, refl, arith, ◌⊎◌, inl, inr, dec_lt, lt→ltb, suc-ne-zero, lt→ne, length-map,
}
use protocol_toolkit.Prelude.Bytes.{IsByte}
use protocol_toolkit.Err.{PtkErr, ok, buffer_too_small}
use protocol_toolkit.Buf.{Buf}
use protocol_toolkit.Buf.Inv.{IsSafe, IsValid, pending}
use protocol_toolkit.Codec.{
  BufType, u8, u16, Endian, Host, type_size, read_typed_value, read_scalar, deserialize_loop,
  deserialize_impl,
}
use protocol_toolkit.Codec.Words.{unwire, unwire-lt}
use protocol_toolkit.Codec.Read.{slot_arg, total_size, field_values, advanced, deserialize_lem}
use protocol_toolkit.Codec.Write.{IsScalar, scalar_tests}
use protocol_toolkit.Modbus.Message.{ptk_buf_deserialize}
use protocol_toolkit.Eip.{read}

-- The start may lie behind the end.
pub record IsReady (b : Buf) : Type 0 where
  pub safe : IsSafe b
  pub bytes : All IsByte b.bytes

pub ready-IsValid : (b : Buf) → IsReady b → b.start ≤ b.end → IsValid b
ready-IsValid b r h = record {
  block = r.safe.block;
  small = r.safe.small;
  ordered = h;
  end_in = r.safe.end_in;
}

pub ready-pending : (b : Buf) → IsReady b → All IsByte (pending b)
ready-pending b r = All-drop IsByte b.start _ (All-take IsByte b.end b.bytes r.bytes)

-- A read that stored its values, or one that took nothing.
abbrev pub IsRead : Option (PtkErr × List ℕ × Option Buf) → Buf → Type 0
IsRead o b =
    ((out : List ℕ) × (b' : Buf) × (o ≡ some (ok, out, some b')) × IsReady b')
    ⊎ ((out : List ℕ) × (o ≡ some (buffer_too_small, out, some b)))

module _ (host : Host) (endian : Endian) where
  pub read-past :
      (t : BufType) (ts : List BufType) (b : Buf)
      → IsScalar t
      → b.end < b.start
      → read host endian (t ∷ ts) (some b) ≡ some (buffer_too_small, [], some b)
  unfolding ptk_buf_deserialize deserialize_impl deserialize_loop read_typed_value read_scalar
  read-past t ts b s h =
      rw
        (
          suc-ne-zero (length (map slot_arg ts)),
          (scalar_tests t s).0,
          (scalar_tests t s).1,
          lt→ne (type_size t) 0 s,
          lt→ltb b.end (b.start + type_size t) (omega arith),
        )
        refl

  pub read-cases :
      (t : BufType) (ts : List BufType) (b : Buf)
      → All IsScalar (t ∷ ts)
      → IsReady b
      → IsRead (read host endian (t ∷ ts) (some b)) b
  unfolding ptk_buf_deserialize
  read-cases t ts b s r = elim (dec_lt b.end b.start) [
    | yes past ↦ inr ([], read-past t ts b s.0 past)
    | no ordered ↦
        let v = ready-IsValid b r (omega arith) in
        let a = ready-pending b r in
        elim (deserialize_lem host endian (t ∷ ts) b v s a) [
          | inl (enough, e, v', rest) ↦ inl (
            field_values endian (t ∷ ts) (pending b),
            advanced b (total_size (t ∷ ts)),
            rw (length-map slot_arg (t ∷ ts), e) refl,
            record { safe = omega (arith, v'.ordered, v'.end_in); bytes = r.bytes },
          )
          | inr (short, (out, e)) ↦ inr (out, rw (length-map slot_arg (t ∷ ts), e) refl)
        ]
  ]

  -- A single number.
  pub read-one :
      (t : BufType) (b : Buf)
      → IsScalar t
      → IsReady b
      → ((v : ℕ) × (b' : Buf) × (v < 256 ^ type_size t)
          × (read host endian (t ∷ []) (some b) ≡ some (ok, v ∷ [], some b'))
          × IsReady b')
        ⊎ ((out : List ℕ) × (read host endian (t ∷ []) (some b)
              ≡ some (buffer_too_small, out, some b)))
  unfolding ptk_buf_deserialize
  read-one t b s r = elim (dec_lt b.end b.start) [
    | yes past ↦ inr ([], read-past t [] b s past)
    | no ordered ↦
        let v = ready-IsValid b r (omega arith) in
        let a = ready-pending b r in
        elim (deserialize_lem host endian (t ∷ []) b v (s, tt) a) [
          | inl (enough, e, v', rest) ↦
              let size : length (take (type_size t) (pending b)) ≡ type_size t =
                omega (arith, length-take (type_size t) (pending b)) in
              let bound =
                unwire-lt endian (take (type_size t) (pending b))
                  (All-take IsByte (type_size t) (pending b) a) in
              inl (
                unwire endian (take (type_size t) (pending b)),
                advanced b (total_size (t ∷ [])),
                rw size at bound,
                rw e refl,
                record { safe = omega (arith, v'.ordered, v'.end_in); bytes = r.bytes },
              )
          | inr (short, (out, e)) ↦ inr (out, rw e refl)
        ]
  ]

  pub read-byte :
      (b : Buf)
      → IsReady b
      → ((v : ℕ) × (b' : Buf) × (v < 256)
          × (read host endian (u8 ∷ []) (some b) ≡ some (ok, v ∷ [], some b'))
          × IsReady b')
        ⊎ ((out : List ℕ) × (read host endian (u8 ∷ []) (some b)
              ≡ some (buffer_too_small, out, some b)))
  unfolding type_size
  read-byte b r = read-one u8 b (omega arith) r

  pub read-word :
      (b : Buf)
      → IsReady b
      → ((v : ℕ) × (b' : Buf) × (v < 65536)
          × (read host endian (u16 ∷ []) (some b) ≡ some (ok, v ∷ [], some b'))
          × IsReady b')
        ⊎ ((out : List ℕ) × (read host endian (u16 ∷ []) (some b)
              ≡ some (buffer_too_small, out, some b)))
  unfolding type_size
  read-word b r = read-one u16 b (omega arith) r
