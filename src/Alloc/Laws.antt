-- ===== src/Alloc/Laws.antt =====
-- What ptk_alloc and ptk_realloc give.
use Prim.Native.String.{String}
use protocol_toolkit.Prelude.{
  ℕ, ◌+◌, ◌-◌, ◌*◌, ◌/◌, ◌%◌, ◌^◌, ◌≤◌, ◌<◌, Option, none, some, List, [], length, Option-cases,
  lt→ne, take, drop, ◌≡◌, refl, arith, ◌∙◌, ap, ◌⊎◌, inl, inr, length-take, drop_exact,
  drop-zero_of_le, append-nil, ◌++◌,
}
use protocol_toolkit.Prelude.Memory.{
  zeros, zeros-nil, length-zeros, overlay, write_at-some, length-overlay,
}
use protocol_toolkit.Prelude.Bits.{bit_and_hex, bit_and-ones}
use protocol_toolkit.Err.{ok, no_resources}
use protocol_toolkit.Alloc.{Libc, Block, size_t, header_size, user, round_up_16, alloc}

round_up_16-eq : (sz : ℕ) → round_up_16 sz ≡ size_t (sz + 15) / 2 / 2 / 2 / 2 % 2 ^ 60 * 16
unfolding round_up_16
round_up_16-eq sz =
    let sum : sz + 16 - 1 ≡ sz + 15 = omega arith in
    rw sum (
      omega (
        arith,
        bit_and_hex (size_t (sz + 15)) (2 ^ 60 - 1),
        bit_and-ones 60 (size_t (sz + 15) / 2 / 2 / 2 / 2),
      ))

-- Up to 2^64 - 16 the rounding is to the next multiple of 16.
pub round_up_16_lem :
    (sz : ℕ)
    → sz ≤ 2 ^ 64 - 16
    → (sz ≤ round_up_16 sz) × (round_up_16 sz < sz + 16) × (round_up_16 sz % 16 ≡ 0)
unfolding round_up_16
round_up_16_lem sz h = omega (arith, round_up_16-eq sz)

-- Above that the sum wraps and the rounded size is 0.
pub round_up_16_wraps : (sz : ℕ) → 2 ^ 64 - 16 < sz → sz < 2 ^ 64 → round_up_16 sz ≡ 0
unfolding round_up_16
round_up_16_wraps sz h k = omega (arith, round_up_16-eq sz)

-- Of a successful allocation of `size` bytes: the usable bytes are all zero, there are at least
-- `size` of them, rounded up to a multiple of 16, and the header holds their number and the
-- destructor.
pub record IsFresh (size : ℕ) (destructor : Option ℕ) (b : Block) : Type 0 where
  pub zeroed : user b ≡ zeros b.header.size
  pub enough : size ≤ b.header.size
  pub rounded : b.header.size ≡ round_up_16 size
  pub kept : b.header.destructor ≡ destructor
  pub whole : length b.raw ≡ header_size + b.header.size

drop-overlay :
    (raw : List ℕ) (n : ℕ)
    → length raw ≡ header_size + n
    → drop header_size (overlay raw header_size (zeros n)) ≡ zeros n
drop-overlay raw n h =
    drop_exact header_size (take header_size raw) _ (omega (arith, length-take header_size raw))
    ∙ ap (λ r. zeros n ++ r)
        (drop-zero_of_le (header_size + length (zeros n)) raw (omega (arith, length-zeros n)))
    ∙ append-nil (zeros n)

pub total_exact :
    (size : ℕ)
    → size ≤ 2 ^ 64 - 64
    → round_up_16 (size_t (header_size + round_up_16 size)) ≡ header_size + round_up_16 size
total_exact size h = omega (
  arith,
  round_up_16_lem size (omega arith),
  round_up_16_lem (size_t (header_size + round_up_16 size))
      (omega (arith, round_up_16_lem size (omega arith))),
)

fresh : ℕ → Option ℕ → String → ℕ → List ℕ → Block
fresh size destructor file line raw = record {
  header = record { destructor = destructor; size = round_up_16 size; file = file; line = line };
  raw = overlay raw header_size (zeros (round_up_16 size));
}

fresh-IsFresh :
    (size : ℕ) (destructor : Option ℕ) (file : String) (line : ℕ) (raw : List ℕ)
    → size ≤ 2 ^ 64 - 64
    → length raw ≡ header_size + round_up_16 size
    → IsFresh size destructor (fresh size destructor file line raw)
unfolding fresh
fresh-IsFresh size destructor file line raw h e = record {
  zeroed = drop-overlay raw (round_up_16 size) e;
  enough = omega (arith, round_up_16_lem size (omega arith));
  rounded = refl;
  kept = refl;
  whole = length-overlay raw header_size (zeros (round_up_16 size)) fits ∙ e;
}
  where
    fits : header_size + length (zeros (round_up_16 size)) ≤ length raw
    fits = omega (arith, length-zeros (round_up_16 size))

-- A request of 1 to 2^64 - 64 bytes never writes outside its block. Where the C library's
-- aligned_alloc has no block for the header and the size rounded up to 16, the answer is NULL with
-- PTK_ERR_NO_RESOURCES; where it has one, the answer is PTK_OK and the block is fresh.
pub alloc_lem :
    (libc : Libc) (call : ℕ) (file : String) (line size : ℕ) (destructor : Option ℕ)
    → 0 < size
    → size ≤ 2 ^ 64 - 64
    → ((libc.aligned_alloc call (header_size + round_up_16 size) ≡ none)
        × (alloc libc call file line size destructor ≡ some (none, no_resources)))
      ⊎ ((raw : List ℕ) × (b : Block) × (libc.aligned_alloc call (header_size + round_up_16 size)
            ≡ some raw)
          × (alloc libc call file line size destructor ≡ some (some b, ok))
          × IsFresh size destructor b)
unfolding alloc
alloc_lem libc call file line size destructor h k =
    elim (Option-cases (libc.aligned_alloc call total)) [
      | inl e ↦ inl (rw (total_exact size k) at e, rw (lt→ne size 0 h, e))
      | inr (raw, e) ↦
          let whole : length raw ≡ header_size + round_up_16 size =
            libc.length-aligned_alloc call total raw e ∙ total_exact size k in
          let fits : header_size + length (zeros (round_up_16 size)) ≤ length raw =
            omega (arith, length-zeros (round_up_16 size)) in
          inr (
            raw,
            fresh size destructor file line raw,
            rw (total_exact size k) at e,
            rw (lt→ne size 0 h, e, write_at-some raw header_size (zeros (round_up_16 size)) fits)
                (unfold fresh in refl),
            fresh-IsFresh size destructor file line raw k whole,
          )
    ]
  where
    total : ℕ
    total = round_up_16 (size_t (header_size + round_up_16 size))

-- A request above 2^64 - 16 is rounded to 0: where the C library has 32 bytes, the answer is a
-- block with no usable byte and PTK_OK.
pub alloc_wraps :
    (libc : Libc) (call : ℕ) (file : String) (line size : ℕ) (destructor : Option ℕ) (raw : List ℕ)
    → 2 ^ 64 - 16 < size
    → size < 2 ^ 64
    → libc.aligned_alloc call 32 ≡ some raw
    → (b : Block) × (alloc libc call file line size destructor ≡ some (some b, ok)) × (user b ≡ [])
unfolding alloc
alloc_wraps libc call file line size destructor raw h k e =
    let whole : length raw ≡ 32 = libc.length-aligned_alloc call 32 raw e in
    let fits : header_size + length (zeros 0) ≤ length raw = omega (arith, length-zeros 0) in
    (
      record {
        header = record { destructor = destructor; size = 0; file = file; line = line };
        raw = overlay raw header_size (zeros 0);
      },
      rw (
        lt→ne size 0 (omega arith),
        round_up_16_wraps size h k,
        small,
        e,
        round_up_16_wraps size h k,
        write_at-some raw header_size (zeros 0) fits,
      ),
      drop-overlay raw 0 whole ∙ zeros-nil,
    )
  where
    small : round_up_16 32 ≡ 32
    small = omega (arith, round_up_16-eq 32)
