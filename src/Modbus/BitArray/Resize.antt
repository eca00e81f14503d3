-- ===== src/Modbus/BitArray/Resize.antt =====
-- modbus_bit_array_resize and the conversion from wire bytes.
use protocol_toolkit.Prelude.{
  ℕ, ◌+◌, ◌-◌, ◌^◌, ◌<◌, ◌≤◌, none, some, List, ◌++◌, ◌==◌, take, drop, length, All, ◌≡◌, refl, sym,
  ◌∙◌, ◌≢◌, false, take-append_left, take-take, ap, arith, ◌⊎◌, inl, inr, lt→ltb, le→ltb, lt→ne,
  dec_lt, length-take, length-append, All-take, All-append, take-length, take_exact, append-nil,
  ==_iff, Bool-cases, drop-zero_of_le,
}
use protocol_toolkit.Prelude.Bytes.{IsByte}
use protocol_toolkit.Prelude.Memory.{
  zeros, zeros-nil, length-zeros, read_at-some, read_at-none, write_at-some, overlay,
}
use protocol_toolkit.Err.{ok, no_resources}
use protocol_toolkit.Alloc.{round_up_16}
use protocol_toolkit.Heap.{Grants, regrow}
use protocol_toolkit.Modbus.BitArray.{BitArray, byte_count, resize, from_bytes}
use protocol_toolkit.Modbus.BitArray.Laws.{IsValid, IsRefused, create_lem, zeros-All, overlay_all}

-- The bytes of a resized array: the old ones as far as the new count goes, then zeros.
abbrev pub resized_bytes : List ℕ → ℕ → List ℕ
resized_bytes old n = take n old ++ zeros (n - length old)

length-resized_bytes : (old : List ℕ) (n : ℕ) → length (resized_bytes old n) ≡ n
length-resized_bytes old n = omega (
  arith,
  length-append (take n old) (zeros (n - length old)),
  length-take n old,
  length-zeros (n - length old),
)

resized-IsValid :
    (arr : BitArray) (n : ℕ)
    → IsValid arr
    → 0 < n
    → n ≤ 2 ^ 64 - 8
    → IsValid (record { bytes = resized_bytes arr.bytes (byte_count n); len = n })
resized-IsValid arr n v h k = record {
  nonempty = h;
  no_wrap = k;
  sized = length-resized_bytes arr.bytes (byte_count n);
  all_bytes =
      All-append IsByte (take (byte_count n) arr.bytes) _
        (All-take IsByte (byte_count n) arr.bytes v.all_bytes)
        (zeros-All (byte_count n - length arr.bytes));
}

-- The bytes that ptk_realloc gives.
abbrev moved : List ℕ → List ℕ → ℕ → List ℕ
moved slack old n =
    let held = old ++ take (round_up_16 (length old) - length old) slack in
    take n held ++ zeros (n - length held)

regrow-cases :
    (grants : Grants) (call : ℕ) (slack old : List ℕ) (n : ℕ)
    → 0 < n
    → ((grants call n ≡ false) × (regrow grants call slack old n ≡ none))
      ⊎ (regrow grants call slack old n ≡ some (moved slack old n))
unfolding regrow
regrow-cases grants call slack old n h = elim (Bool-cases (grants call n)) [
  | inl e ↦ inr (rw (lt→ne n 0 h, e))
  | inr e ↦ inl (e, rw (lt→ne n 0 h, e) refl)
]

module _ (slack old : List ℕ) (n : ℕ) where
  abbrev held : List ℕ
  held = old ++ take (round_up_16 (length old) - length old) slack

  length-moved : length (moved slack old n) ≡ n
  length-moved = omega (
    arith,
    length-append (take n held) (zeros (n - length held)),
    length-take n held,
    length-zeros (n - length held),
  )

  length-held : length old ≤ length held
  length-held =
      omega (arith, length-append old (take (round_up_16 (length old) - length old) slack))

  -- Clearing what lies behind the old bytes leaves zeros there.
  cleared :
      length old ≤ n
      → overlay (moved slack old n) (length old) (zeros (n - length old)) ≡ resized_bytes old n
  cleared h =
      ap
        (λ r.
          r
          ++ (zeros (n - length old)
              ++ drop (length old + length (zeros (n - length old))) (moved slack old n)))
        kept
      ∙ ap (λ r. old ++ (zeros (n - length old) ++ r))
          (drop-zero_of_le (length old + length (zeros (n - length old))) (moved slack old n)
            (omega (arith, length-moved, length-zeros (n - length old))))
      ∙ ap (λ r. old ++ r) (append-nil (zeros (n - length old)))
      ∙ ap (λ r. r ++ zeros (n - length old)) (sym (take-length n old h))
    where
      kept : take (length old) (moved slack old n) ≡ old
      kept =
          take-append_left (length old) (take n held) (zeros (n - length held))
            (omega (arith, length-take n held, length-held))
          ∙ take-take (length old) n held h
          ∙ take_exact (length old) old _ refl

  shrunk : n ≤ length old → moved slack old n ≡ resized_bytes old n
  shrunk h =
      let nothing : n - length held ≡ 0 = omega (arith, length-held) in
      let nothing' : n - length old ≡ 0 = omega arith in
      rw (nothing, nothing')
        (ap (λ r. r ++ zeros 0)
          (take-append_left n old (take (round_up_16 (length old) - length old) slack) h))

same_count : (old : List ℕ) (n : ℕ) → length old ≡ n → resized_bytes old n ≡ old
same_count old n h =
    let nothing : n - length old ≡ 0 = omega arith in
    rw (nothing, zeros-nil) (append-nil (take n old) ∙ take-length n old (omega arith))

-- modbus_bit_array_resize of a valid array to 1 to 2^64 - 8 bits never leaves the bytes. Only where
-- the allocation of the new count of bytes is needed and refused, the answer is
-- PTK_ERR_NO_RESOURCES and nothing changes. Otherwise the array is valid, has the new length, and
-- its bytes are the old ones as far as the new count goes, and zero behind them, whatever the block
-- held there. So bits of the last byte that lay behind the length keep whatever was written there.
pub resize_lem :
    (grants : Grants) (call : ℕ) (slack : List ℕ) (arr : BitArray) (n : ℕ)
    → IsValid arr
    → 0 < n
    → n ≤ 2 ^ 64 - 8
    → ((grants call (byte_count n) ≡ false)
        × (byte_count arr.len ≢ byte_count n)
        × (resize grants call slack (some arr) n ≡ some (no_resources, some arr)))
      ⊎ ((arr' : BitArray) × (resize grants call slack (some arr) n ≡ some (ok, some arr'))
          × IsValid arr'
          × (arr'.len ≡ n)
          × (arr'.bytes ≡ resized_bytes arr.bytes (byte_count n)))
unfolding resize
resize_lem grants call slack arr n v h k = elim (Bool-cases (byte_count arr.len == byte_count n)) [
  | inl e ↦
      let same : length arr.bytes ≡ byte_count n = v.sized ∙ (==_iff _ _).0 e in
      inr (
        record { bytes = resized_bytes arr.bytes (byte_count n); len = n },
        rw (lt→ne n 0 h, e, same_count arr.bytes (byte_count n) same),
        resized-IsValid arr n v h k,
        refl,
        refl,
      )
  | inr e ↦ elim (regrow-cases grants call slack arr.bytes (byte_count n) (omega arith)) [
    | inl (f, r) ↦
        let other : byte_count arr.len ≢ byte_count n =
          λ same. absurd (ground (arith, e, (==_iff (byte_count arr.len) (byte_count n)).1 same)) in
        inl (f, other, rw (lt→ne n 0 h, e, r))
    | inr r ↦ inr (
      record { bytes = resized_bytes arr.bytes (byte_count n); len = n },
      elim (dec_lt (byte_count arr.len) (byte_count n)) [
        | yes grow ↦ rw (
          lt→ne n 0 h,
          e,
          r,
          lt→ltb (byte_count arr.len) (byte_count n) grow,
          ← v.sized,
          write_at-some (moved slack arr.bytes (byte_count n)) (length arr.bytes)
              (zeros (byte_count n - length arr.bytes))
              (omega (
                arith,
                v.sized,
                length-moved slack arr.bytes (byte_count n),
                length-zeros (byte_count n - length arr.bytes),
              )),
          cleared slack arr.bytes (byte_count n) (omega (arith, v.sized)),
        )
        | no shrink ↦ rw (
          lt→ne n 0 h,
          e,
          r,
          le→ltb (byte_count arr.len) (byte_count n) (omega arith),
          shrunk slack arr.bytes (byte_count n) (omega (arith, v.sized)),
        )
      ],
      resized-IsValid arr n v h k,
      refl,
      refl,
    )
  ]
]

-- modbus_bit_array_from_bytes of 1 to 2^64 - 8 bits: without memory PTK_ERR_NO_RESOURCES; with
-- it, where the source holds enough bytes, a valid array of exactly these bytes; where the source
-- is shorter, a read outside it.
pub from_bytes_lem :
    (grants : Grants) (call : ℕ) (source : List ℕ) (n : ℕ)
    → 0 < n
    → n ≤ 2 ^ 64 - 8
    → All IsByte source
    → (IsRefused grants call n
        × (from_bytes grants call (some source) n ≡ some (no_resources, none)))
      ⊎ ((byte_count n ≤ length source)
          × ((arr : BitArray) × (from_bytes grants call (some source) n ≡ some (ok, some arr))
              × IsValid arr
              × (arr.len ≡ n)
              × (arr.bytes ≡ take (byte_count n) source)))
      ⊎ ((length source < byte_count n) × (from_bytes grants call (some source) n ≡ none))
unfolding from_bytes
from_bytes_lem grants call source n h k a = elim (create_lem grants call n h k) [
  | inl (f, e) ↦ inl (f, rw (lt→ne n 0 h, e))
  | inr (arr, e, v, l, f) ↦ elim (dec_lt (length source) (byte_count n)) [
    | yes short ↦
        inr (inr (short, rw (lt→ne n 0 h, e, read_at-none source 0 (byte_count n) (omega arith))))
    | no long ↦
        let bytes = take (byte_count n) source in
        let size : length bytes ≡ byte_count n = omega (arith, length-take (byte_count n) source) in
        let held : length bytes ≡ length arr.bytes = size ∙ sym (v.sized ∙ ap byte_count l) in
        inr (
          inl (
            omega arith,
            (
              record arr { bytes = bytes },
              rw (
                lt→ne n 0 h,
                e,
                read_at-some source 0 (byte_count n) (omega arith),
                write_at-some arr.bytes 0 bytes (omega arith),
                overlay_all arr.bytes bytes held,
              ),
              record {
                nonempty = v.nonempty;
                no_wrap = v.no_wrap;
                sized = held ∙ v.sized;
                all_bytes = All-take IsByte (byte_count n) source a;
              },
              l,
              refl,
            ),
          ))
  ]
]
