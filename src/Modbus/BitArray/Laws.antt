-- ===== src/Modbus/BitArray/Laws.antt =====
-- A valid bit array is a function from its positions to Booleans: what creating, reading and
-- writing do to it.
use protocol_toolkit.Prelude.{
  ℕ, zero, suc, ◌+◌, ◌-◌, ◌/◌, ◌%◌, ◌^◌, ◌<◌, ◌≤◌, Bool, true, false, none, some, List,
  if◌then◌else◌, ◌==◌, get_or, set, length, All, ◌≡◌, refl, sym, ◌∙◌, ap, arith, ◌⊎◌, inl, inr,
  lt→leb, le→leb, lt→ne, dec_lt, length-set, get_elem?-eq-get_or, get_or-set_self, get_or-set_ne,
  All-get_or, All-set, ==_iff, Bool-cases, ℕ_discrete, All-replicate, ◌++◌, drop-zero_of_le,
  append-nil, ◌≢◌,
}
use protocol_toolkit.Prelude.Bytes.{IsByte}
use protocol_toolkit.Prelude.Memory.{zeros, length-zeros, write_at-some, overlay}
use protocol_toolkit.Prelude.Bits.{bit_and-zero_left}
use protocol_toolkit.Err.{ok, out_of_bounds}
use protocol_toolkit.Heap.{Grants, obtain}
use protocol_toolkit.Modbus.BitArray.{
  BitArray, byte_count, create, bit_of, with_bit, get, set_bit, sizeof_bit_array,
}
use protocol_toolkit.Modbus.BitArray.Bits.{bit_of-with_bit, with_bit-lt}

pub record IsValid (arr : BitArray) : Type 0 where
  pub nonempty : 0 < arr.len
  pub no_wrap : arr.len ≤ 2 ^ 64 - 8
  pub sized : length arr.bytes ≡ byte_count arr.len
  pub all_bytes : All IsByte arr.bytes

-- The bit at a position.
abbrev pub bit_at : BitArray → ℕ → Bool
bit_at arr i = bit_of (get_or arr.bytes (i / 8) 0) (i % 8)

byte_at-lt : (arr : BitArray) (i : ℕ) → IsValid arr → get_or arr.bytes i 0 < 256
byte_at-lt arr i v = All-get_or IsByte arr.bytes i 0 v.all_bytes (omega arith)

in_bytes : (arr : BitArray) (i : ℕ) → IsValid arr → i < arr.len → i / 8 < length arr.bytes
in_bytes arr i v h = omega (arith, v.sized, v.no_wrap)

-- On a valid array modbus_bit_array_get gives the bit of a position below the length and
-- PTK_ERR_OUT_OF_BOUNDS for any other, and never leaves the bytes.
pub get_lem :
    (arr : BitArray) (i : ℕ)
    → IsValid arr
    → ((i < arr.len) × (get (some arr) i true ≡ some (ok, some (bit_at arr i))))
      ⊎ ((arr.len ≤ i) × (get (some arr) i true ≡ some (out_of_bounds, none)))
unfolding get
get_lem arr i v = elim (dec_lt i arr.len) [
  | yes p ↦
      inl (p, rw (lt→leb arr.len i p, get_elem?-eq-get_or arr.bytes (i / 8) 0 (in_bytes arr i v p)))
  | no p ↦ inr (omega arith, rw (le→leb arr.len i (omega arith)))
]

abbrev written : BitArray → ℕ → Bool → BitArray
written arr i value = record arr {
  bytes = set arr.bytes (i / 8) (with_bit (get_or arr.bytes (i / 8) 0) (i % 8) value);
}

written-IsValid :
    (arr : BitArray) (i : ℕ) (value : Bool) → IsValid arr → IsValid (written arr i value)
written-IsValid arr i value v = record {
  nonempty = v.nonempty;
  no_wrap = v.no_wrap;
  sized = length-set arr.bytes (i / 8) _ ∙ v.sized;
  all_bytes =
      All-set IsByte arr.bytes (i / 8) _ v.all_bytes
        (with_bit-lt _ (i % 8) value (byte_at-lt arr (i / 8) v) (omega arith));
}

module _ (arr : BitArray) (i : ℕ) (value : Bool) (v : IsValid arr) (h : i < arr.len) (j : ℕ) where
  same_byte :
      i / 8 ≡ j / 8 → bit_at (written arr i value) j ≡ (if j == i then value else bit_at arr j)
  same_byte same =
      ap (λ (k : ℕ). bit_of (get_or (set arr.bytes (i / 8) new) k 0) (j % 8)) (sym same)
      ∙ ap (λ (b : ℕ). bit_of b (j % 8))
          (get_or-set_self arr.bytes (i / 8) new 0 (in_bytes arr i v h))
      ∙ bit_of-with_bit (get_or arr.bytes (i / 8) 0) (i % 8) (j % 8) value
          (byte_at-lt arr (i / 8) v) (omega arith) (omega arith)
      ∙ ap (λ (k : ℕ). if j % 8 == i % 8 then value else bit_of (get_or arr.bytes k 0) (j % 8)) same
      ∙ ap (λ t. if t then value else bit_at arr j) tests
    where
      new : ℕ
      new = with_bit (get_or arr.bytes (i / 8) 0) (i % 8) value

      tests : (j % 8 == i % 8) ≡ (j == i)
      tests = ground arith

  other_byte :
      i / 8 ≢ j / 8 → bit_at (written arr i value) j ≡ (if j == i then value else bit_at arr j)
  other_byte other =
      ap (λ (b : ℕ). bit_of b (j % 8)) (get_or-set_ne arr.bytes (i / 8) (j / 8) _ 0 other)
      ∙ ap (λ t. if t then value else bit_at arr j) (sym apart)
    where
      apart : (j == i) ≡ false
      apart = elim (Bool-cases (j == i)) [
        | inl e ↦ absurd (other (ap (λ (k : ℕ). k / 8) (sym ((==_iff j i).0 e))))
        | inr e ↦ e
      ]

  bit_at-written : bit_at (written arr i value) j ≡ (if j == i then value else bit_at arr j)
  bit_at-written = elim (ℕ_discrete (i / 8) (j / 8)) [
    | yes same ↦ same_byte same
    | no other ↦ other_byte other
  ]

-- modbus_bit_array_set on a valid array never leaves the bytes. Below the length it changes the
-- bit at the position to the value and no other bit, and keeps the array valid and its length;
-- at any other position it answers PTK_ERR_OUT_OF_BOUNDS and changes nothing.
pub set_bit_lem :
    (arr : BitArray) (i : ℕ) (value : Bool)
    → IsValid arr
    → ((i < arr.len)
        × ((arr' : BitArray) × (set_bit (some arr) i value ≡ some (ok, some arr'))
            × IsValid arr'
            × (arr'.len ≡ arr.len)
            × ((j : ℕ) → bit_at arr' j ≡ (if j == i then value else bit_at arr j))))
      ⊎ ((arr.len ≤ i) × (set_bit (some arr) i value ≡ some (out_of_bounds, some arr)))
unfolding set_bit
set_bit_lem arr i value v = elim (dec_lt i arr.len) [
  | yes p ↦ inl (
    p,
    (
      written arr i value,
      rw (lt→leb arr.len i p, get_elem?-eq-get_or arr.bytes (i / 8) 0 (in_bytes arr i v p)),
      written-IsValid arr i value v,
      refl,
      λ j. bit_at-written arr i value v p j,
    ),
  )
  | no p ↦ inr (omega arith, rw (le→leb arr.len i (omega arith)))
]

get_or-zeros : (n i : ℕ) → get_or (zeros n) i 0 ≡ 0
unfolding zeros
get_or-zeros zero i = refl
get_or-zeros (suc n) zero = refl
get_or-zeros (suc n) (suc i) = get_or-zeros n i

pub bit_of-zero : (k : ℕ) → bit_of 0 k ≡ false
unfolding bit_of
bit_of-zero k = rw (bit_and-zero_left (2 ^ k))

pub zeros-All : (n : ℕ) → All IsByte (zeros n)
unfolding zeros
zeros-All n = All-replicate IsByte n 0 (omega arith)

pub overlay_all : (mem src : List ℕ) → length src ≡ length mem → overlay mem 0 src ≡ src
overlay_all mem src h =
    ap (λ r. src ++ r) (drop-zero_of_le (0 + length src) mem (omega arith)) ∙ append-nil src

obtain-cases :
    (grants : Grants) (call n : ℕ)
    → 0 < n
    → ((grants call n ≡ false) × (obtain grants call n ≡ none))
      ⊎ (obtain grants call n ≡ some (zeros n))
unfolding obtain
obtain-cases grants call n h = elim (Bool-cases (grants call n)) [
  | inl e ↦ inr (rw (lt→ne n 0 h, e))
  | inr e ↦ inl (e, rw (lt→ne n 0 h, e) refl)
]

-- One of the two allocations of modbus_bit_array_create for `n` bits is refused.
abbrev pub IsRefused : Grants → ℕ → ℕ → Type 0
IsRefused grants call n =
    (grants call sizeof_bit_array ≡ false) ⊎ (grants (call + 1) (byte_count n) ≡ false)

-- modbus_bit_array_create of 1 to 2^64 - 8 bits gives NULL only where an allocation is refused, and
-- else a valid array of that length with every bit false. It never leaves the bytes.
pub create_lem :
    (grants : Grants) (call n : ℕ)
    → 0 < n
    → n ≤ 2 ^ 64 - 8
    → (IsRefused grants call n × (create grants call n ≡ some none))
      ⊎ ((arr : BitArray) × (create grants call n ≡ some (some arr))
          × IsValid arr
          × (arr.len ≡ n)
          × ((j : ℕ) → bit_at arr j ≡ false))
unfolding create
create_lem grants call n h k = elim (obtain-cases grants call sizeof_bit_array (omega arith)) [
  | inl (f, e) ↦ inl (inl f, rw (lt→ne n 0 h, e))
  | inr e ↦ elim (obtain-cases grants (call + 1) (byte_count n) (omega arith)) [
    | inl (f, e') ↦ inl (inr f, rw (lt→ne n 0 h, e, e'))
    | inr e' ↦ inr (
      record { bytes = zeros (byte_count n); len = n },
      rw (
        lt→ne n 0 h,
        e,
        e',
        write_at-some (zeros (byte_count n)) 0 (zeros (byte_count n)) (omega arith),
        overlay_all (zeros (byte_count n)) (zeros (byte_count n)) refl,
      ),
      record {
        nonempty = h;
        no_wrap = k;
        sized = length-zeros (byte_count n);
        all_bytes = zeros-All (byte_count n);
      },
      refl,
      λ j.
          ap (λ (b : ℕ). bit_of b (j % 8)) (get_or-zeros (byte_count n) (j / 8))
          ∙ bit_of-zero (j % 8),
    )
  ]
]
