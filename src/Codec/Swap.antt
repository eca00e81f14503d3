-- ===== src/Codec/Swap.antt =====
-- ptk_buf_byte_swap_u32 reverses the bytes of its argument, as the compiler's own swap does.
use Prim.Native.Nat.{bit_and}
use protocol_toolkit.Prelude.{ℕ, ◌+◌, ◌*◌, ◌/◌, ◌%◌, ◌^◌, ◌<◌, ◌≡◌, arith}
use protocol_toolkit.Prelude.Bits.{bit_and-ones, bit_and-byte, bit_or-fields}
use protocol_toolkit.Prelude.Bytes.{to_le, from_le}
use protocol_toolkit.Codec.{bswap, byte_swap_u32}

abbrev byte : ℕ → ℕ → ℕ
byte v k = v / 256 ^ k % 256

bswap_four :
    (v : ℕ) → bswap 4 v ≡ byte v 0 * 2 ^ 24 + byte v 1 * 2 ^ 16 + byte v 2 * 2 ^ 8 + byte v 3
unfolding bswap to_le from_le
bswap_four v = omega arith

-- The masked byte, still at its place.
masked_one : (v : ℕ) → bit_and v 0x0000ff00 ≡ v / 256 % 256 * 256
masked_one v = omega (arith, bit_and-byte v 0xff, bit_and-ones 8 (v / 256))

masked_two : (v : ℕ) → bit_and v 0x00ff0000 ≡ v / 256 / 256 % 256 * 65536
masked_two v = omega (arith, bit_and-byte v 0xff00, masked_one (v / 256))

masked_three : (v : ℕ) → bit_and v 0xff000000 ≡ v / 256 / 256 / 256 % 256 * 16777216
masked_three v = omega (arith, bit_and-byte v 0xff0000, masked_two (v / 256))

-- On 32-bit values the header's byte swap is the reversal of the four bytes.
pub byte_swap_u32_lem : (v : ℕ) → v < 2 ^ 32 → byte_swap_u32 v ≡ bswap 4 v
unfolding byte_swap_u32
byte_swap_u32_lem v h =
    rw (bit_and-ones 8 v, masked_one v, masked_two v, masked_three v, first, second, third, fourth)
      (rw
        (
          bit_or-fields 24 b0 (b1 * 2 ^ 16) (omega arith),
          upper_two,
          bit_or-fields 16 (b0 * 256 + b1) (b2 * 2 ^ 8) (omega arith),
          upper_three,
          bit_or-fields 8 (b0 * 65536 + b1 * 256 + b2) b3 (omega arith),
        )
        (omega (arith, bswap_four v)))
  where
    b0 : ℕ
    b0 = v % 256

    b1 : ℕ
    b1 = v / 256 % 256

    b2 : ℕ
    b2 = v / 256 / 256 % 256

    b3 : ℕ
    b3 = v / 256 / 256 / 256 % 256

    first : v % 256 * 2 ^ 24 % 2 ^ 32 ≡ b0 * 2 ^ 24
    first = omega arith

    second : v / 256 % 256 * 256 * 2 ^ 8 % 2 ^ 32 ≡ b1 * 2 ^ 16
    second = omega arith

    third : v / 256 / 256 % 256 * 65536 / 2 ^ 8 ≡ b2 * 2 ^ 8
    third = omega arith

    fourth : v / 256 / 256 / 256 % 256 * 16777216 / 2 ^ 24 ≡ b3
    fourth = omega arith

    upper_two : b0 * 2 ^ 24 + b1 * 2 ^ 16 ≡ (b0 * 256 + b1) * 2 ^ 16
    upper_two = omega arith

    upper_three : (b0 * 256 + b1) * 2 ^ 16 + b2 * 2 ^ 8 ≡ (b0 * 65536 + b1 * 256 + b2) * 2 ^ 8
    upper_three = omega arith
