-- ===== src/Buf/Made.antt =====
-- What the functions that make and resize buffers give.
use Prim.Native.String.{String}
use protocol_toolkit.Prelude.{
  ℕ, ◌+◌, ◌^◌, ◌≤◌, ◌<◌, Option, none, some, List, [], ◌∷◌, length, ◌≡◌, refl, ◌∙◌, ap, arith, ◌⊎◌,
  inl, inr, lt→ne, take, length-take, length-drop, length-append, drop_exact,
}
use protocol_toolkit.Prelude.Memory.{
  overlay, read_at-some, write_at-some, length-overlay, take-overlay,
}
use protocol_toolkit.Err.{ok, no_resources}
use protocol_toolkit.Alloc
use protocol_toolkit.Alloc.{
  Libc, Block, Event, freed, user, header_size, alloc, realloc, round_up_16,
}
use protocol_toolkit.Alloc.Laws.{IsFresh, alloc_lem}
use protocol_toolkit.Alloc.Resize.{IsWhole}
use protocol_toolkit.Buf.Inv.{IsValid, pending}
use protocol_toolkit.Buf.Create.{Owned, current, sizeof_buf, Made, buf_alloc, buf_alloc_from_data}

-- The buffer is valid, and its data are all the usable bytes of a whole block.
pub record IsOwned (o : Owned) : Type 0 where
  pub valid : IsValid o.buf
  pub whole : IsWhole o.storage
  pub usable : length o.buf.bytes ≡ o.storage.header.size

pub current-IsWhole : (o : Owned) → IsOwned o → IsWhole (current o)
current-IsWhole o w = omega (
  arith,
  w.whole,
  w.usable,
  length-append (take header_size o.storage.raw) o.buf.bytes,
  length-take header_size o.storage.raw,
)

pub user-current : (o : Owned) → IsOwned o → user (current o) ≡ o.buf.bytes
user-current o w =
    drop_exact header_size (take header_size o.storage.raw) o.buf.bytes
      (omega (arith, w.whole, length-take header_size o.storage.raw))

abbrev made : ℕ → Block → Block → Owned
made size self storage = record {
  buf = record { bytes = user storage; data_len = size; start = 0; end = 0 };
  self = self;
  storage = storage;
}

made-IsOwned :
    (size : ℕ) (self storage : Block)
    → size < 2 ^ 16
    → IsFresh size none storage
    → IsOwned (made size self storage)
made-IsOwned size self storage h f = record {
  valid = omega (arith, f.whole, f.enough, length-drop header_size storage.raw);
  whole = f.whole;
  usable = omega (arith, f.whole, length-drop header_size storage.raw);
}

-- What the C library's aligned_alloc answers to a ptk_alloc of `size` bytes.
abbrev pub granted : Libc → ℕ → ℕ → Option (List ℕ)
granted libc call size = libc.aligned_alloc call (header_size + round_up_16 size)

abbrev pub IsMet : Libc → ℕ → ℕ → Type 0
IsMet libc call size = (raw : List ℕ) × (granted libc call size ≡ some raw)

-- The alternatives of an allocation: there is no memory for the structure; there is for it and not
-- for the data, and the structure is freed; or there is for both, and a buffer with the property
-- `P` is made.
abbrev pub Outcome : Libc → ℕ → ℕ → (Owned → Type 0) → Option Made → Type 0
Outcome libc call size P r =
    ((granted libc call sizeof_buf ≡ none) × (r ≡ some (none, no_resources, [])))
    ⊎ (IsMet libc call sizeof_buf
        × (granted libc (call + 1) size ≡ none)
        × (r ≡ some (none, no_resources, freed ∷ [])))
    ⊎ ((o : Owned) × IsMet libc call sizeof_buf
        × IsMet libc (call + 1) size
        × (r ≡ some (some o, ok, []))
        × P o)

module _ (libc : Libc) (file : String) (call : ℕ) where
  free_fresh : (self : Block) → IsFresh sizeof_buf none self → Alloc.free (some self) ≡ freed ∷ []
  unfolding Alloc.free
  free_fresh self f = rw f.kept

  -- ptk_buf_alloc of 1 to 65535 bytes never writes outside its blocks, and gives an empty valid
  -- buffer of that capacity, or has no memory for it.
  pub buf_alloc_lem :
      (size : ℕ)
      → 0 < size
      → size < 2 ^ 16
      → Outcome libc call size
          (λ o. IsOwned o × (o.buf.data_len ≡ size) × (pending o.buf ≡ []))
          (buf_alloc libc file call size)
  unfolding buf_alloc
  buf_alloc_lem size h k =
      elim (alloc_lem libc call file 20 sizeof_buf none (omega arith) (omega arith)) [
        | inl (off, e) ↦ inl (off, rw (lt→ne size 0 h, e))
        | inr (raw, self, yes_, e, f) ↦
            elim (alloc_lem libc (call + 1) file 26 size none h (omega arith)) [
              | inl (off, e') ↦ inr (
                  inl (
                    (raw, yes_),
                    off,
                    rw (lt→ne size 0 h, e, e')
                        (ap (λ r. some (none, no_resources, r)) (free_fresh self f)),
                  ))
              | inr (raw', storage, yes', e', f') ↦ inr (
                  inr (
                    made size self storage,
                    (raw, yes_),
                    (raw', yes'),
                    rw (lt→ne size 0 h, e, e'),
                    (made-IsOwned size self storage k f', refl, refl),
                  ))
            ]
      ]

  filled : Owned → List ℕ → ℕ → Owned
  filled o source size = record o {
    buf = record (o.buf) {
      bytes = overlay o.buf.bytes 0 (take size source);
      start = 0;
      end = size;
    };
  }

  filled-lem :
      (o : Owned) (source : List ℕ) (size : ℕ)
      → size ≤ length source
      → IsOwned o
      → o.buf.data_len ≡ size
      → IsOwned (filled o source size) × (pending (filled o source size).buf ≡ take size source)
  unfolding filled
  filled-lem o source size h w c =
      let taken : length (take size source) ≡ size = omega (arith, length-take size source) in
      let fits : 0 + length (take size source) ≤ length o.buf.bytes = omega (arith, w.valid) in
      let same = length-overlay o.buf.bytes 0 (take size source) fits in
      (
        record {
          valid = record {
            block = omega (arith, w.valid, same);
            small = w.valid.small;
            ordered = omega arith;
            end_in = omega arith;
          };
          whole = w.whole;
          usable = same ∙ w.usable;
        },
        take-overlay o.buf.bytes 0 size (take size source) fits (omega arith),
      )

  -- ptk_buf_alloc_from_data of 1 to 65535 bytes that are there gives a valid buffer of that
  -- capacity whose pending bytes are exactly these, where the C library's aligned_alloc has a block
  -- for the structure and then one for the data. Where it has not, the answer is NULL with
  -- PTK_ERR_NO_RESOURCES, and the structure is freed if it was there. No access leaves a block.
  pub buf_alloc_from_data_lem :
      (source : List ℕ) (size : ℕ)
      → 0 < size
      → size < 2 ^ 16
      → size ≤ length source
      → Outcome libc call size
          (λ o. IsOwned o × (o.buf.data_len ≡ size) × (pending o.buf ≡ take size source))
          (buf_alloc_from_data libc file call (some source) size)
  unfolding buf_alloc_from_data
  buf_alloc_from_data_lem source size h k there = elim (buf_alloc_lem size h k) [
    | inl (off, e) ↦ inl (off, rw (e))
    | inr (inl (met, off, e)) ↦ inr (inl (met, off, rw (e)))
    | inr (inr (o, met, met', e, (w, c, p))) ↦
        let taken : length (take size source) ≡ size = omega (arith, length-take size source) in
        inr (
          inr (
            filled o source size,
            met,
            met',
            rw
                (
                  e,
                  read_at-some source 0 size (omega arith),
                  write_at-some o.buf.bytes 0 (take size source) (omega (arith, w.valid)),
                )
                (unfold filled in refl),
            (
              (filled-lem o source size there w c).0,
              (unfold filled in c),
              (filled-lem o source size there w c).1,
            ),
          ))
  ]
