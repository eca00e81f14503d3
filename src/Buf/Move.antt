-- ===== src/Buf/Move.antt =====
-- ptk_buf_move_block.
use protocol_toolkit.Prelude.{
  ℕ, ◌+◌, ◌-◌, ◌^◌, ◌<◌, ◌≤◌, some, length, take, drop, ◌≡◌, refl, arith, length-take, le→ltb,
  lt→ltb, ◌∙◌, ap, take-drop, drop_exact, dec_lt, ◌⊎◌, inl, inr,
}
use protocol_toolkit.Prelude.Memory.{
  overlay, read_at-some, write_at-some, length-overlay, take-overlay,
}
use protocol_toolkit.Err.{ok, out_of_bounds}
use protocol_toolkit.Buf.{Buf, buf_size, move_block}
use protocol_toolkit.Buf.Inv.{IsValid, pending, length-pending}

abbrev moved : Buf → ℕ → Buf
moved b p = record b {
  bytes = overlay b.bytes p (pending b);
  start = p;
  end = p + (b.end - b.start);
}

move_block-moved :
    (b : Buf) (p : ℕ)
    → IsValid b
    → p + (b.end - b.start) ≤ b.data_len
    → move_block (some b) p ≡ some (ok, some (moved b p))
unfolding move_block
move_block-moved b p v h =
    rw
      (
        block_size,
        le→ltb b.data_len (p + (b.end - b.start)) h,
        read_at-some b.bytes b.start (b.end - b.start) (omega arith),
        take-drop b.start (b.end - b.start) b.end b.bytes (omega arith),
      )
      (rw (write_at-some b.bytes p (pending b) (omega (arith, length-pending b v)))
        (ap (λ (e : ℕ). some (ok, some (record (moved b p) { end = e }))) (omega arith)))
  where
    block_size : buf_size (b.end + 2 ^ 16 - b.start) ≡ b.end - b.start
    block_size = omega arith

move_block-out :
    (b : Buf) (p : ℕ)
    → IsValid b
    → b.data_len < p + (b.end - b.start)
    → move_block (some b) p ≡ some (out_of_bounds, some b)
unfolding move_block
move_block-out b p v h = rw (block_size, lt→ltb b.data_len (p + (b.end - b.start)) h)
  where
    block_size : buf_size (b.end + 2 ^ 16 - b.start) ≡ b.end - b.start
    block_size = omega arith

moved-IsValid :
    (b : Buf) (p : ℕ) → IsValid b → p + (b.end - b.start) ≤ b.data_len → IsValid (moved b p)
moved-IsValid b p v h = omega (arith, length-overlay b.bytes p (pending b), length-pending b v)

pending-moved :
    (b : Buf) (p : ℕ)
    → IsValid b
    → p + (b.end - b.start) ≤ b.data_len
    → pending (moved b p) ≡ pending b
pending-moved b p v h =
    ap (drop p) (
      take-overlay b.bytes p (p + (b.end - b.start)) (pending b) (omega (arith, length-pending b v))
        (omega (arith, length-pending b v)))
    ∙ drop_exact p (take p b.bytes) (pending b) (omega (arith, length-take p b.bytes))

-- On a valid buffer ptk_buf_move_block touches no memory outside the block. Where the pending
-- bytes fit at the new position they start there, unchanged and in order, and the buffer stays
-- valid; where they do not fit the answer is PTK_ERR_OUT_OF_BOUNDS and nothing changes.
pub move_block_lem :
    (b : Buf) (p : ℕ)
    → IsValid b
    → ((p + length (pending b) ≤ b.data_len)
        × ((b' : Buf) × (move_block (some b) p ≡ some (ok, some b'))
            × IsValid b'
            × (pending b' ≡ pending b)
            × (b'.start ≡ p)
            × (b'.data_len ≡ b.data_len)))
      ⊎ ((b.data_len < p + length (pending b))
          × (move_block (some b) p ≡ some (out_of_bounds, some b)))
move_block_lem b p v = elim (dec_lt b.data_len (p + (b.end - b.start))) [
  | yes out ↦ inr (omega (arith, length-pending b v), move_block-out b p v out)
  | no fits ↦
      let h : p + (b.end - b.start) ≤ b.data_len = omega arith in
      inl (
        omega (arith, length-pending b v),
        (
          moved b p,
          move_block-moved b p v h,
          moved-IsValid b p v h,
          pending-moved b p v h,
          refl,
          refl,
        ),
      )
]
