-- ===== src/Alloc/Resize.antt =====
-- ptk_realloc: what becomes of the usable bytes.
use Prim.Native.String.{String}
use protocol_toolkit.Prelude.{
  ℕ, ◌+◌, ◌-◌, ◌^◌, ◌≤◌, ◌<◌, none, some, List, ◌++◌, length, Option-cases, lt→ne, take, drop, min,
  ◌≡◌, refl, arith, ◌∙◌, ap, sym, ◌⊎◌, inl, inr, length-drop, drop-zero_of_le, append-nil,
  drop-append_left, take-length, take-drop, lt→ltb, le→ltb, dec_lt,
}
use protocol_toolkit.Prelude.Memory.{
  zeros, zeros-nil, length-zeros, overlay, write_at-some, length-overlay,
}
use protocol_toolkit.Err.{ok, no_resources}
use protocol_toolkit.Alloc.{Libc, Block, size_t, header_size, user, round_up_16, realloc}
use protocol_toolkit.Alloc.Laws.{round_up_16_lem, total_exact}

-- The block's length is the header's and that of the usable bytes which the header states.
abbrev pub IsWhole : Block → Type 0
IsWhole b = length b.raw ≡ header_size + b.header.size

-- The raw block of a realloc, before and after the zeroing of what was added.
module _ (old raw : List ℕ) (m n : ℕ) (e : length old ≡ header_size + m)
    (f : length raw ≡ header_size + n)
    (same : take (min (length old) (header_size + n)) raw
      ≡ take (min (length old) (header_size + n)) old) where
  drop_grown :
      m ≤ n
      → drop header_size (overlay raw (header_size + m) (zeros (n - m)))
        ≡ drop header_size old ++ zeros (n - m)
  drop_grown h =
      ap (λ r. drop header_size r)
        (ap (λ r. r ++ (zeros (n - m) ++ drop (header_size + m + length (zeros (n - m))) raw)) head
          ∙ ap (λ r. old ++ (zeros (n - m) ++ r))
              (drop-zero_of_le _ raw (omega (arith, length-zeros (n - m))))
          ∙ ap (λ r. old ++ r) (append-nil (zeros (n - m))))
      ∙ drop-append_left header_size old (zeros (n - m)) (omega arith)
    where
      reach : min (length old) (header_size + n) ≡ header_size + m
      reach = omega arith

      head : take (header_size + m) raw ≡ old
      head = rw reach at same ∙ take-length (header_size + m) old (omega arith)

  drop_shrunk : n ≤ m → drop header_size raw ≡ take n (drop header_size old)
  drop_shrunk h =
      ap (λ r. drop header_size r)
        (sym (take-length (header_size + n) raw (omega arith)) ∙ rw reach at same)
      ∙ sym (take-drop header_size n (header_size + n) old refl)
    where
      reach : min (length old) (header_size + n) ≡ header_size + n
      reach = omega arith

abbrev resized : Block → ℕ → String → ℕ → List ℕ → Block
resized b size file line raw = record {
  header = record (b.header) { size = size; file = file; line = line };
  raw = raw;
}

-- Of a resized block: the old usable bytes are kept as far as the new ones reach, what was added
-- is zero, the size is the request's rounded up, and the destructor is the old one.
pub record IsResized (b : Block) (size : ℕ) (b' : Block) : Type 0 where
  pub whole : IsWhole b'
  pub kept : user b' ≡ take b'.header.size (user b) ++ zeros (b'.header.size - b.header.size)
  pub rounded : b'.header.size ≡ round_up_16 size
  pub enough : size ≤ b'.header.size
  pub same_destructor : b'.header.destructor ≡ b.header.destructor

sub-zero_of_le : (m n : ℕ) → m ≤ n → m - n ≡ 0
sub-zero_of_le m n h = omega arith

module _ (libc : Libc) (call : ℕ) (file : String) (line : ℕ) (b : Block) (size : ℕ) (w : IsWhole b)
    (h : 0 < size) (k : size ≤ 2 ^ 64 - 64) (raw : List ℕ)
    (e : libc.realloc call b.raw (round_up_16 (size_t (header_size + round_up_16 size)))
      ≡ some raw) where
  abbrev new_size : ℕ
  new_size = round_up_16 size

  abbrev old_size : ℕ
  old_size = b.header.size

  whole_raw : length raw ≡ header_size + new_size
  whole_raw = libc.length-realloc call b.raw _ raw e ∙ total_exact size k

  length-user : length (user b) ≡ old_size
  length-user = omega (arith, length-drop header_size b.raw)

  same_raw :
      take (min (length b.raw) (header_size + new_size)) raw
      ≡ take (min (length b.raw) (header_size + new_size)) b.raw
  same_raw = rw (total_exact size k) at (libc.take-realloc call b.raw _ raw e)

  grown :
      old_size < new_size
      → (b' : Block) × (realloc libc call file line (some b) size ≡ some (some b', ok))
        × IsResized b size b'
  unfolding realloc
  grown lt =
      let added : List ℕ = zeros (new_size - old_size) in
      let fits : header_size + old_size + length added ≤ length raw =
        omega (arith, whole_raw, length-zeros (new_size - old_size)) in
      (
        resized b new_size file line (overlay raw (header_size + old_size) added),
        rw
            (
              lt→ne size 0 h,
              e,
              lt→ltb old_size new_size lt,
              write_at-some raw (header_size + old_size) added fits,
            )
            refl,
        record {
          whole = length-overlay raw (header_size + old_size) added fits ∙ whole_raw;
          kept =
              drop_grown b.raw raw old_size new_size w whole_raw same_raw (omega arith)
              ∙ ap (λ r. r ++ added)
                  (sym (take-length new_size (user b) (omega (arith, length-user))));
          rounded = refl;
          enough = omega (arith, round_up_16_lem size (omega arith));
          same_destructor = refl;
        },
      )

  shrunk :
      new_size ≤ old_size
      → (b' : Block) × (realloc libc call file line (some b) size ≡ some (some b', ok))
        × IsResized b size b'
  unfolding realloc
  shrunk le = (
    resized b new_size file line raw,
    rw (lt→ne size 0 h, e, le→ltb old_size new_size le) refl,
    record {
      whole = whole_raw;
      kept =
          drop_shrunk b.raw raw old_size new_size w whole_raw same_raw le
          ∙ sym (
              ap (λ r. take new_size (user b) ++ r)
                (ap zeros (sub-zero_of_le new_size old_size le) ∙ zeros-nil)
              ∙ append-nil _);
      rounded = refl;
      enough = omega (arith, round_up_16_lem size (omega arith));
      same_destructor = refl;
    },
  )

-- A request of 1 to 2^64 - 64 bytes to resize a whole block never writes outside it. Where the C
-- library's realloc has no block for the header and the size rounded up to 16, the answer is NULL
-- with PTK_ERR_NO_RESOURCES; where it has one, the answer is PTK_OK and the block is resized.
pub realloc_lem :
    (libc : Libc) (call : ℕ) (file : String) (line : ℕ) (b : Block) (size : ℕ)
    → IsWhole b
    → 0 < size
    → size ≤ 2 ^ 64 - 64
    → ((libc.realloc call b.raw (header_size + round_up_16 size) ≡ none)
        × (realloc libc call file line (some b) size ≡ some (none, no_resources)))
      ⊎ ((raw : List ℕ) × (b' : Block) × (libc.realloc call b.raw (header_size + round_up_16 size)
            ≡ some raw)
          × (realloc libc call file line (some b) size ≡ some (some b', ok))
          × IsResized b size b')
unfolding realloc
realloc_lem libc call file line b size w h k = elim (Option-cases (libc.realloc call b.raw total)) [
  | inl e ↦ inl (rw (total_exact size k) at e, rw (lt→ne size 0 h, e))
  | inr (raw, e) ↦ elim (dec_lt b.header.size (round_up_16 size)) [
    | yes lt ↦
        let (b', f, r) = grown libc call file line b size w h k raw e lt in
        inr (raw, b', rw (total_exact size k) at e, f, r)
    | no ge ↦
        let (b', f, r) = shrunk libc call file line b size w h k raw e (omega arith) in
        inr (raw, b', rw (total_exact size k) at e, f, r)
  ]
]
  where
    total : ℕ
    total = round_up_16 (size_t (header_size + round_up_16 size))
