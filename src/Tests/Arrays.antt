-- ===== src/Tests/Arrays.antt =====
-- Arrays of elements and of bits.
use protocol_toolkit.Prelude.{
  ◌∷◌, [], false, ◌≢◌, arith, refl, some, ◌≡◌, true, ℕ, ◌<◌, ◌≤◌, ◌==◌, if◌then◌else◌, ◌⊎◌,
}
use protocol_toolkit.Err.{no_resources, ok, out_of_bounds}
use protocol_toolkit.Modbus.BitArray.{BitArray, byte_count, set_bit, resize}
use protocol_toolkit.Modbus.BitArray.Resize.{resize_lem, resized_bytes}
use protocol_toolkit.Tests.Data.{coils, grants}
use protocol_toolkit.Modbus.BitArray.Laws.{bit_at, set_bit_lem}
use protocol_toolkit.Modbus.BitArray.Laws

coils-IsValid : Laws.IsValid coils
coils-IsValid = record {
  nonempty = omega arith;
  no_wrap = omega arith;
  sized = refl;
  all_bytes = (omega arith, (omega arith, tt));
}

resize_lem_example :
    ((grants 0 (byte_count 20) ≡ false)
      × (byte_count coils.len ≢ byte_count 20)
      × (resize grants 0 (255 ∷ []) (some coils) 20 ≡ some (no_resources, some coils)))
    ⊎ ((arr' : BitArray) × (resize grants 0 (255 ∷ []) (some coils) 20 ≡ some (ok, some arr'))
        × Laws.IsValid arr'
        × (arr'.len ≡ 20)
        × (arr'.bytes ≡ resized_bytes coils.bytes (byte_count 20)))
resize_lem_example =
    resize_lem grants 0 (255 ∷ []) coils 20 coils-IsValid (omega arith) (omega arith)

set_bit_lem_example :
    ((3 < coils.len)
      × ((arr' : BitArray) × (set_bit (some coils) 3 true ≡ some (ok, some arr'))
          × Laws.IsValid arr'
          × (arr'.len ≡ coils.len)
          × ((j : ℕ) → bit_at arr' j ≡ (if j == 3 then true else bit_at coils j))))
    ⊎ ((coils.len ≤ 3) × (set_bit (some coils) 3 true ≡ some (out_of_bounds, some coils)))
set_bit_lem_example = set_bit_lem coils 3 true coils-IsValid
