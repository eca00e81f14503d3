-- ===== src/Buf/Resized.antt =====
-- ptk_buf_realloc: what becomes of the pending bytes.
use Prim.Native.String.{String}
use protocol_toolkit.Prelude.{
  ℕ, ◌+◌, ◌-◌, ◌^◌, ◌≤◌, ◌<◌, none, some, List, [], ◌++◌, ltb, if◌then◌else◌, length, ◌≡◌, refl,
  ◌∙◌, ap, sym, arith, ◌⊎◌, inl, inr, lt→ne, take, drop, length-take, length-drop, take-drop,
  take-take, take-length, dec_lt, lt→ltb, le→ltb, drop-zero_of_le, take-append_left,
}
use protocol_toolkit.Prelude.Memory.{zeros}
use protocol_toolkit.Err.{ok, no_resources}
use protocol_toolkit.Alloc.{Libc, Block, user, header_size, round_up_16}
use protocol_toolkit.Alloc.Resize.{IsResized, realloc_lem}
use protocol_toolkit.Buf.Inv.{pending}
use protocol_toolkit.Buf.Create.{Owned, current, buf_realloc}
use protocol_toolkit.Buf.Made.{IsOwned, current-IsWhole, user-current}

abbrev clamp : ℕ → ℕ → ℕ
clamp n i = if ltb n i then n else i

take-take-clamp : (n m : ℕ) (xs : List ℕ) → take n (take m xs) ≡ take (clamp n m) xs
take-take-clamp n m xs = elim (dec_lt n m) [
  | yes p ↦ rw (lt→ltb n m p) (take-take n m xs (omega arith))
  | no p ↦
      rw (le→ltb n m (omega arith)) (take-length n (take m xs) (omega (arith, length-take m xs)))
]

-- The bytes between the clamped cursors are the front of those between the cursors.
drop-take-clamp :
    (n start end : ℕ) (xs : List ℕ)
    → start ≤ end
    → drop (clamp n start) (take (clamp n end) xs) ≡ take (n - start) (drop start (take end xs))
drop-take-clamp n start end xs h = elim (dec_lt n start) [
  | yes p ↦
      let nothing : n - start ≡ 0 = omega arith in
      rw (lt→ltb n start p, lt→ltb n end (omega arith), nothing)
        (drop-zero_of_le n (take n xs) (omega (arith, length-take n xs)))
  | no p ↦ rw (le→ltb n start (omega arith)) (
      ap (λ r. drop start r) (sym (take-take-clamp n end xs))
      ∙ sym (take-drop start (n - start) n (take end xs) (omega arith)))
]

resized_buf : Owned → Block → ℕ → Owned
resized_buf o storage n = record o {
  buf = record {
    bytes = user storage;
    data_len = n;
    start = clamp n o.buf.start;
    end = clamp n o.buf.end;
  };
  storage = storage;
}

module _ (o : Owned) (w : IsOwned o) (n : ℕ) (h : n < 2 ^ 16) (storage : Block)
    (r : IsResized (current o) n storage) where
  resized_buf-IsOwned : IsOwned (resized_buf o storage n)
  unfolding resized_buf
  resized_buf-IsOwned = record {
    valid = record {
      block = omega (arith, r.whole, r.enough, length-drop header_size storage.raw);
      small = h;
      ordered = ground (arith, w.valid);
      end_in = ground arith;
    };
    whole = r.whole;
    usable = omega (arith, r.whole, length-drop header_size storage.raw);
  }

  pending-resized_buf :
      pending (resized_buf o storage n).buf ≡ take (n - o.buf.start) (pending o.buf)
  unfolding resized_buf
  pending-resized_buf =
      ap (λ u. drop (clamp n o.buf.start) (take (clamp n o.buf.end) u)) kept
      ∙ ap (λ u. drop (clamp n o.buf.start) u)
          (take-append_left (clamp n o.buf.end) (take storage.header.size o.buf.bytes) _ reach
            ∙ take-take (clamp n o.buf.end) storage.header.size o.buf.bytes
                (ground (arith, r.enough)))
      ∙ drop-take-clamp n o.buf.start o.buf.end o.buf.bytes w.valid.ordered
    where
      kept :
          user storage
          ≡ take storage.header.size o.buf.bytes
            ++ zeros (storage.header.size - o.storage.header.size)
      kept =
          r.kept
          ∙ ap
              (λ u.
                take storage.header.size u ++ zeros (storage.header.size - o.storage.header.size))
              (user-current o w)

      within : clamp n o.buf.end ≤ n
      within = ground arith

      before : clamp n o.buf.end ≤ o.buf.end
      before = ground arith

      reach : clamp n o.buf.end ≤ length (take storage.header.size o.buf.bytes)
      reach = omega (
        arith,
        within,
        before,
        r.enough,
        w.valid.block,
        w.valid.end_in,
        length-take storage.header.size o.buf.bytes,
      )

-- ptk_buf_realloc of a valid buffer to 1 to 65535 bytes never writes outside the data. Where the C
-- library's realloc has no block for the header and the capacity rounded up to 16, the answer is
-- NULL with PTK_ERR_NO_RESOURCES; where it has one, the buffer is valid, has the new capacity, and
-- its pending bytes are those that lay below the new capacity, in order.
pub buf_realloc_lem :
    (libc : Libc) (file : String) (call : ℕ) (o : Owned) (n : ℕ)
    → IsOwned o
    → 0 < n
    → n < 2 ^ 16
    → ((libc.realloc call (current o).raw (header_size + round_up_16 n) ≡ none)
        × (buf_realloc libc file call (some o) n ≡ some (none, no_resources, [])))
      ⊎ ((raw : List ℕ) × (o' : Owned) × (libc.realloc call
              (current o).raw
              (header_size + round_up_16 n)
            ≡ some raw)
          × (buf_realloc libc file call (some o) n ≡ some (some o', ok, []))
          × IsOwned o'
          × (o'.buf.data_len ≡ n)
          × (pending o'.buf ≡ take (n - o.buf.start) (pending o.buf)))
unfolding buf_realloc
buf_realloc_lem libc file call o n w h k =
    elim (realloc_lem libc call file 66 (current o) n (current-IsWhole o w) h (omega arith)) [
      | inl (f, e) ↦ inl (f, rw (lt→ne n 0 h, e))
      | inr (raw, storage, f, e, r) ↦ inr (
        raw,
        resized_buf o storage n,
        f,
        rw (lt→ne n 0 h, e) (unfold resized_buf in refl),
        resized_buf-IsOwned o w n k storage r,
        (unfold resized_buf in refl),
        pending-resized_buf o w n k storage r,
      )
    ]
