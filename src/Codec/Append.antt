-- ===== src/Codec/Append.antt =====
-- What it means that bytes were put behind the pending ones, and that a failed write kept them.
use protocol_toolkit.Prelude.{
  ℕ, ◌+◌, ◌≤◌, List, [], ◌++◌, ◌≡◌, refl, ◌∙◌, ap, sym, arith, length, take, drop, length-append,
  length-take, take-take, drop-append_left, append_assoc, take_exact, append-nil,
}
use protocol_toolkit.Prelude.Memory.{overlay, length-overlay, take-overlay}
use protocol_toolkit.Buf.{Buf}
use protocol_toolkit.Buf.Inv.{IsValid, pending}

-- `b'` is `b` with `bs` appended at its end.
pub record IsAppended (b : Buf) (bs : List ℕ) (b' : Buf) : Type 0 where
  pub valid : IsValid b'
  pub end_moved : b'.end ≡ b.end + length bs
  pub same_start : b'.start ≡ b.start
  pub same_len : b'.data_len ≡ b.data_len
  pub content : take b'.end b'.bytes ≡ take b.end b.bytes ++ bs

-- `b'` still holds what `b` holds up to its end.
pub record IsKept (b b' : Buf) : Type 0 where
  pub valid : IsValid b'
  pub end_grown : b.end ≤ b'.end
  pub same_start : b'.start ≡ b.start
  pub same_len : b'.data_len ≡ b.data_len
  pub content : take b.end b'.bytes ≡ take b.end b.bytes

pub pending-append :
    {b : Buf} {bs : List ℕ} {b' : Buf}
    → IsValid b
    → IsAppended b bs b'
    → pending b' ≡ pending b ++ bs
pending-append {b} {bs} {b'} v a =
    ap (λ (s : ℕ). drop s (take b'.end b'.bytes)) a.same_start
    ∙ ap (λ r. drop b.start r) a.content
    ∙ drop-append_left b.start (take b.end b.bytes) bs (omega (arith, length-take b.end b.bytes))

pub IsAppended-nil : {b : Buf} → IsValid b → IsAppended b [] b
IsAppended-nil {b} v = record {
  valid = v;
  end_moved = omega arith;
  same_start = refl;
  same_len = refl;
  content = sym (append-nil (take b.end b.bytes));
}

pub IsAppended-trans :
    {b : Buf} {xs : List ℕ} {b' : Buf} {ys : List ℕ} {b'' : Buf}
    → IsAppended b xs b'
    → IsAppended b' ys b''
    → IsAppended b (xs ++ ys) b''
IsAppended-trans {b} {xs} {b'} {ys} a c = record {
  valid = c.valid;
  end_moved = omega (arith, a.end_moved, c.end_moved, length-append xs ys);
  same_start = c.same_start ∙ a.same_start;
  same_len = c.same_len ∙ a.same_len;
  content = c.content ∙ ap (λ r. r ++ ys) a.content ∙ append_assoc (take b.end b.bytes) xs ys;
}

pub IsKept-refl : {b : Buf} → IsValid b → IsKept b b
IsKept-refl v = record {
  valid = v;
  end_grown = omega arith;
  same_start = refl;
  same_len = refl;
  content = refl;
}

pub IsAppended-IsKept :
    {b : Buf} {xs : List ℕ} {b' : Buf} {b'' : Buf}
    → IsValid b
    → IsAppended b xs b'
    → IsKept b' b''
    → IsKept b b''
IsAppended-IsKept {b} {xs} {b'} {b''} v a k = record {
  valid = k.valid;
  end_grown = omega (arith, a.end_moved, k.end_grown);
  same_start = k.same_start ∙ a.same_start;
  same_len = k.same_len ∙ a.same_len;
  content =
      sym (take-take b.end b'.end b''.bytes below)
      ∙ ap (λ r. take b.end r) (k.content ∙ a.content)
      ∙ take_exact b.end (take b.end b.bytes) xs (omega (arith, length-take b.end b.bytes));
}
  where
    below : b.end ≤ b'.end
    below = omega (arith, a.end_moved)

-- Putting the end back gives a buffer with the bytes that were pending.
pub IsKept-restored :
    {b b' : Buf}
    → IsValid b
    → IsKept b b'
    → IsValid (record b' { end = b.end }) × (pending (record b' { end = b.end }) ≡ pending b)
IsKept-restored {b} {b'} v k = (
  record {
    block = k.valid.block;
    small = k.valid.small;
    ordered = omega (arith, k.same_start);
    end_in = omega (arith, k.same_len);
  },
  ap (λ (s : ℕ). drop s (take b.end b'.bytes)) k.same_start ∙ ap (λ r. drop b.start r) k.content,
)

-- `bs` written over the block from the end on.
abbrev pub appended : Buf → List ℕ → Buf
appended b bs = record b { bytes = overlay b.bytes b.end bs; end = b.end + length bs }

pub appended-IsAppended :
    (b : Buf) (bs : List ℕ)
    → IsValid b
    → b.end + length bs ≤ b.data_len
    → IsAppended b bs (appended b bs)
appended-IsAppended b bs v h = record {
  valid = omega (arith, length-overlay b.bytes b.end bs);
  end_moved = refl;
  same_start = refl;
  same_len = refl;
  content = take-overlay b.bytes b.end (b.end + length bs) bs (omega arith) refl;
}
