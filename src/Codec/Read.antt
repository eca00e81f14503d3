-- ===== src/Codec/Read.antt =====
-- ptk_buf_deserialize into fields that are numbers.
use native.Mathlib.Nat.{add_assoc}
use protocol_toolkit.Prelude.{
  ℕ, ◌+◌, ◌<◌, ◌≤◌, Bool, false, some, List, [], ◌∷◌, map, if◌then◌else◌, ◌≡◌, refl, ◌∙◌, ap, sym,
  arith, length, All, All-take, All-drop, ◌⊎◌, inl, inr, lt→ne, le→ltb, lt→ltb, dec_lt, suc-ne-zero,
  take, drop, take-drop, drop-drop, take-take, length-take, length-drop,
}
use protocol_toolkit.Prelude.Memory.{read_at, read_at-some}
use protocol_toolkit.Prelude.Bytes.{IsByte}
use protocol_toolkit.Err.{ok, buffer_too_small}
use protocol_toolkit.Buf.{Buf}
use protocol_toolkit.Buf.Inv.{IsValid, pending, length-pending}
use protocol_toolkit.Codec.{
  BufType, Endian, Host, Dest, slot, type_size, load_scalar, read_scalar, read_typed_value,
  deserialize_loop, deserialize_impl,
}
use protocol_toolkit.Codec.Words.{unwire, swapped-mem_value}
use protocol_toolkit.Codec.Write.{IsScalar, scalar_tests}

-- `n` bytes read off the front.
abbrev pub advanced : Buf → ℕ → Buf
advanced b n = record b { start = b.start + n }

pub advanced-IsValid :
    (b : Buf) (n : ℕ) → IsValid b → n ≤ length (pending b) → IsValid (advanced b n)
advanced-IsValid b n v h = omega (arith, length-pending b v)

pub pending-advanced : (b : Buf) (n : ℕ) → pending (advanced b n) ≡ drop n (pending b)
pending-advanced b n = sym (drop-drop b.start n (b.start + n) (take b.end b.bytes) refl)

read_pending :
    (b : Buf) (n : ℕ)
    → IsValid b
    → n ≤ length (pending b)
    → read_at b.bytes b.start n ≡ some (take n (pending b))
read_pending b n v h =
    read_at-some b.bytes b.start n (omega (arith, length-pending b v))
    ∙ ap some (
        take-drop b.start n (b.start + n) b.bytes refl
        ∙ ap (λ r. drop b.start r)
            (sym (take-take (b.start + n) b.end b.bytes (omega (arith, length-pending b v))))
        ∙ sym (take-drop b.start n (b.start + n) (take b.end b.bytes) refl))

abbrev pub slot_arg : BufType → BufType × Dest
slot_arg t = (t, slot)

abbrev pub total_size : List BufType → ℕ
total_size [] = 0
total_size (t ∷ ts) = type_size t + total_size ts

-- The values of consecutive fields at the front of some bytes.
abbrev pub field_values : Endian → List BufType → List ℕ → List ℕ
field_values endian [] bs = []
field_values endian (t ∷ ts) bs =
    unwire endian (take (type_size t) bs) ∷ field_values endian ts (drop (type_size t) bs)

module _ (host : Host) (endian : Endian) where
  read_num-full :
      (b : Buf) (peek : Bool) (t : BufType)
      → IsValid b
      → IsScalar t
      → length (pending b) < type_size t
      → read_typed_value host b peek t endian slot ≡ some (buffer_too_small, [], b)
  unfolding read_typed_value read_scalar
  read_num-full b peek t v s h = rw (
    (scalar_tests t s).1,
    lt→ne (type_size t) 0 s,
    lt→ltb b.end (b.start + type_size t) (omega (arith, length-pending b v)),
  )

  pub read_num-fits :
      (b : Buf) (peek : Bool) (t : BufType)
      → IsValid b
      → IsScalar t
      → All IsByte (pending b)
      → type_size t ≤ length (pending b)
      → read_typed_value host b peek t endian slot
        ≡ some (
          ok,
          unwire endian (take (type_size t) (pending b)) ∷ [],
          if peek then b else advanced b (type_size t),
        )
  unfolding read_typed_value read_scalar load_scalar
  read_num-fits b peek t v s a h =
      rw
        (
          (scalar_tests t s).1,
          lt→ne (type_size t) 0 s,
          le→ltb b.end (b.start + type_size t) (omega (arith, length-pending b v)),
          read_pending b (type_size t) v h,
          swapped-mem_value host endian (type_size t) (take (type_size t) (pending b))
              (omega (arith, length-take (type_size t) (pending b)))
              (All-take IsByte (type_size t) (pending b) a),
        )
        (ap
          (λ (p : ℕ). some (
            ok,
            unwire endian (take (type_size t) (pending b)) ∷ [],
            if peek then b else record b { start = p },
          ))
          (omega (arith, length-pending b v)))

  loop_fits :
      (ts : List BufType) (b : Buf)
      → IsValid b
      → All IsScalar ts
      → All IsByte (pending b)
      → total_size ts ≤ length (pending b)
      → deserialize_loop host (length ts) false endian (map slot_arg ts) b
        ≡ some (ok, field_values endian ts (pending b), advanced b (total_size ts))
  unfolding deserialize_loop
  loop_fits [] b v s a h = ap (λ (p : ℕ). some (ok, [], record b { start = p })) (omega arith)
  loop_fits (t ∷ ts) b v (st, sts) a h =
      rw
        (
          (scalar_tests t st).0,
          read_num-fits b false t v st a (omega arith),
          loop_fits ts (advanced b (type_size t)) (advanced-IsValid b (type_size t) v (omega arith))
              sts
              (rw (pending-advanced b (type_size t)) (All-drop IsByte (type_size t) (pending b) a))
              (omega (
                arith,
                ap length (pending-advanced b (type_size t)),
                length-drop (type_size t) (pending b),
              )),
          pending-advanced b (type_size t),
        )
        (ap (λ (p : ℕ). some (ok, field_values endian (t ∷ ts) (pending b), record b { start = p }))
          (add_assoc b.start (type_size t) (total_size ts)))

  loop_full :
      (ts : List BufType) (b : Buf)
      → IsValid b
      → All IsScalar ts
      → All IsByte (pending b)
      → length (pending b) < total_size ts
      → (out : List ℕ) × (b' : Buf) × (deserialize_loop host
            (length ts)
            false
            endian
            (map slot_arg ts)
            b
          ≡ some (buffer_too_small, out, b'))
        × (record b' { start = b.start } ≡ b)
  unfolding deserialize_loop
  loop_full [] b v s a h = absurd (omega arith)
  loop_full (t ∷ ts) b v (st, sts) a h = elim (dec_lt (length (pending b)) (type_size t)) [
    | yes full ↦ ([], b, rw ((scalar_tests t st).0, read_num-full b false t v st full), refl)
    | no fits ↦
        let next = advanced b (type_size t) in
        let (out, b', e, back) =
          loop_full ts next (advanced-IsValid b (type_size t) v (omega arith)) sts
            (rw (pending-advanced b (type_size t)) (All-drop IsByte (type_size t) (pending b) a))
            (omega (
              arith,
              ap length (pending-advanced b (type_size t)),
              length-drop (type_size t) (pending b),
            )) in
        (
          unwire endian (take (type_size t) (pending b)) ∷ out,
          b',
          rw ((scalar_tests t st).0, read_num-fits b false t v st a (omega arith), e),
          ap (λ (r : Buf). record r { start = b.start }) back,
        )
  ]

  -- ptk_buf_deserialize of number fields, without peeking, from a valid buffer touches no memory
  -- outside the block, whatever the host. Where enough bytes are pending it stores the values of
  -- the fields, in the order asked for, and takes exactly their bytes; where they are not, it
  -- answers PTK_ERR_BUFFER_TOO_SMALL and leaves the buffer as it was.
  pub deserialize_lem :
      (ts : List BufType) (b : Buf)
      → IsValid b
      → All IsScalar ts
      → All IsByte (pending b)
      → ((total_size ts ≤ length (pending b))
          × (deserialize_impl host b false endian (length ts) (map slot_arg ts)
              ≡ some (ok, field_values endian ts (pending b), advanced b (total_size ts)))
          × IsValid (advanced b (total_size ts))
          × (pending (advanced b (total_size ts)) ≡ drop (total_size ts) (pending b)))
        ⊎ ((length (pending b) < total_size ts)
            × ((out : List ℕ) × (deserialize_impl host b false endian (length ts) (map slot_arg ts)
                  ≡ some (buffer_too_small, out, b))))
  unfolding deserialize_impl
  deserialize_lem [] b v s a = inl (
    omega arith,
    ap (λ (p : ℕ). some (ok, [], record b { start = p })) (omega arith),
    advanced-IsValid b 0 v (omega arith),
    pending-advanced b 0,
  )
  deserialize_lem (t ∷ ts) b v s a = elim (dec_lt (length (pending b)) (total_size (t ∷ ts))) [
    | yes full ↦
        let (out, b', e, back) = loop_full (t ∷ ts) b v s a full in
        inr (
          full,
          (
            out,
            rw (suc-ne-zero (length ts), e)
                (ap (λ (r : Buf). some (buffer_too_small, out, r)) back),
          ),
        )
    | no fits ↦ inl (
      omega arith,
      rw (suc-ne-zero (length ts), loop_fits (t ∷ ts) b v s a (omega arith)),
      advanced-IsValid b (total_size (t ∷ ts)) v (omega arith),
      pending-advanced b (total_size (t ∷ ts)),
    )
  ]
