-- ===== src/Tests/Data.antt =====
-- Concrete values: a host of either byte order, a C library that never fails, buffers.
use protocol_toolkit.Prelude.{
  ℕ, ◌-◌, min, true, false, Option, none, some, List, [], ◌∷◌, ◌++◌, ◌≡◌, ◌∙◌, ap, sym, arith,
  length, take, replicate, length-replicate, length-append, length-take, take-append_left,
  take-take,
}
use protocol_toolkit.Alloc.{Libc, Block}
use protocol_toolkit.Heap.{Grants}
use protocol_toolkit.Buf.{Buf}
use protocol_toolkit.Buf.Inv.{IsValid, IsSafe}
use protocol_toolkit.Buf.Create.{Owned}
use protocol_toolkit.Codec.{Host}
use protocol_toolkit.Modbus.BitArray.{BitArray}

abbrev pub little : Host
little = record {
  is_big_endian = false;
  float_of_double = λ w. 0;
  float_of_double-lt = λ w. omega arith;
}

abbrev pub big : Host
big = record {
  is_big_endian = true;
  float_of_double = λ w. 0;
  float_of_double-lt = λ w. omega arith;
}

abbrev pub grants : Grants
grants = λ call size. true

abbrev pub moved : List ℕ → ℕ → List ℕ
moved old n = take n old ++ replicate (n - length old) 0

abbrev pub block_of : List ℕ → Option (List ℕ) → List ℕ
block_of d none = d
block_of d (some raw) = raw

pub length-moved : (old : List ℕ) (n : ℕ) → length (moved old n) ≡ n
length-moved old n = omega (
  arith,
  length-append (take n old) (replicate (n - length old) 0),
  length-take n old,
  length-replicate {A = ℕ} (n - length old) 0,
)

pub take-moved :
    (old : List ℕ) (n : ℕ) → take (min (length old) n) (moved old n) ≡ take (min (length old) n) old
take-moved old n =
    take-append_left (min (length old) n) (take n old) (replicate (n - length old) 0)
      (omega (arith, length-take n old))
    ∙ take-take (min (length old) n) n old (omega arith)

abbrev pub libc : Libc
libc = record {
  aligned_alloc = λ call n. some (replicate n 0);
  realloc = λ call old n. some (moved old n);
  length-aligned_alloc = λ call n raw h.
      ap (λ (o : Option (List ℕ)). length (block_of [] o)) (sym h) ∙ length-replicate {A = ℕ} n 0;
  length-realloc = λ call old n raw h.
      ap (λ (o : Option (List ℕ)). length (block_of [] o)) (sym h) ∙ length-moved old n;
  take-realloc = λ call old n raw h.
      ap (λ (o : Option (List ℕ)). take (min (length old) n) (block_of [] o)) (sym h)
      ∙ take-moved old n;
}

-- A block of 16 usable bytes.
abbrev pub block : Block
block = record {
  header = record { destructor = none; size = 16; file = "main.c"; line = 7 };
  raw = replicate 48 0;
}

abbrev pub empty_buf : Buf
empty_buf = record { bytes = replicate 16 0; data_len = 16; start = 0; end = 0 }

pub empty_buf-IsValid : IsValid empty_buf
empty_buf-IsValid = record {
  block = omega arith;
  small = omega arith;
  ordered = omega arith;
  end_in = omega arith;
}

pub empty_buf-IsSafe : IsSafe empty_buf
empty_buf-IsSafe = record {
  block = omega arith;
  small = omega arith;
  start_in = omega arith;
  end_in = omega arith;
}

-- A buffer with six bytes of which five are pending.
abbrev pub request_buf : Buf
request_buf = record { bytes = 9 ∷ 1 ∷ 0 ∷ 19 ∷ 0 ∷ 10 ∷ []; data_len = 6; start = 1; end = 6 }

pub request_buf-IsValid : IsValid request_buf
request_buf-IsValid = record {
  block = omega arith;
  small = omega arith;
  ordered = omega arith;
  end_in = omega arith;
}

-- A buffer with a request to write ten coils.
abbrev pub write_buf : Buf
write_buf = record {
  bytes = 15 ∷ 0 ∷ 19 ∷ 0 ∷ 10 ∷ 2 ∷ 205 ∷ 1 ∷ [];
  data_len = 8;
  start = 0;
  end = 8;
}

pub write_buf-IsValid : IsValid write_buf
write_buf-IsValid = record {
  block = omega arith;
  small = omega arith;
  ordered = omega arith;
  end_in = omega arith;
}

abbrev pub owned : Owned
owned = record {
  buf = record { bytes = replicate 16 0; data_len = 16; start = 2; end = 10 };
  self = block;
  storage = block;
}

abbrev pub coil_bytes : List ℕ
coil_bytes = 205 ∷ 1 ∷ []

abbrev pub source_bytes : List ℕ
source_bytes = 1 ∷ 2 ∷ 3 ∷ []

abbrev pub no_bytes : List ℕ
no_bytes = replicate 32 0

abbrev pub coils : BitArray
coils = record { bytes = coil_bytes; len = 10 }
