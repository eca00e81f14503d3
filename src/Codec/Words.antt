-- ===== src/Codec/Words.antt =====
-- The bytes that a number has on the wire do not depend on the host's byte order.
use mathlib.Core.List.{reverse-reverse, reverse-cons}
use protocol_toolkit.Prelude.{
  ℕ, ◌^◌, ◌<◌, List, [], ◌∷◌, reverse, ◌≡◌, ◌∙◌, ap, length, length-reverse, All, All-append,
  Bool-cases, inl, inr,
}
use protocol_toolkit.Prelude.Bytes.{
  IsByte, to_le, from_le, length-to_le, to_le-All, from_le-to_le, to_le-from_le, from_le-lt,
}
use protocol_toolkit.Codec.{
  Endian, little_endian, big_endian, Host, bswap, mem_bytes, mem_value, needs_swap, swapped,
}

-- The bytes of a value of `n` bytes in the order asked for, and the value of such bytes.
unfoldable pub wire : Endian → ℕ → ℕ → List ℕ
wire little_endian n v = to_le n v
wire big_endian n v = reverse (to_le n v)

unfoldable pub unwire : Endian → List ℕ → ℕ
unwire little_endian bs = from_le bs
unwire big_endian bs = from_le (reverse bs)

All-reverse : (xs : List ℕ) → All IsByte xs → All IsByte (reverse xs)
All-reverse [] h = tt
All-reverse (x ∷ xs) (hx, hxs) =
    rw (reverse-cons x xs) (All-append IsByte (reverse xs) (x ∷ []) (All-reverse xs hxs) (hx, tt))

pub length-wire : (e : Endian) (n v : ℕ) → length (wire e n v) ≡ n
unfolding wire
length-wire little_endian n v = length-to_le n v
length-wire big_endian n v = length-reverse (to_le n v) ∙ length-to_le n v

pub wire-All : (e : Endian) (n v : ℕ) → All IsByte (wire e n v)
unfolding wire
wire-All little_endian n v = to_le-All n v
wire-All big_endian n v = All-reverse _ (to_le-All n v)

pub unwire-wire : (e : Endian) (n v : ℕ) → v < 256 ^ n → unwire e (wire e n v) ≡ v
unfolding wire unwire
unwire-wire little_endian n v h = from_le-to_le n v h
unwire-wire big_endian n v h = ap from_le (reverse-reverse (to_le n v)) ∙ from_le-to_le n v h

pub unwire-lt : (e : Endian) (bs : List ℕ) → All IsByte bs → unwire e bs < 256 ^ length bs
unfolding unwire
unwire-lt little_endian bs h = from_le-lt bs h
unwire-lt big_endian bs h = rw (length-reverse bs) at (from_le-lt (reverse bs) (All-reverse bs h))

to_le-bswap : (n v : ℕ) → to_le n (bswap n v) ≡ reverse (to_le n v)
unfolding bswap
to_le-bswap n v =
    to_le-from_le n (reverse (to_le n v)) (length-reverse _ ∙ length-to_le n v)
      (All-reverse _ (to_le-All n v))

bswap-from_le :
    (n : ℕ) (bs : List ℕ)
    → length bs ≡ n
    → All IsByte bs
    → bswap n (from_le bs) ≡ from_le (reverse bs)
unfolding bswap
bswap-from_le n bs h a = ap (λ r. from_le (reverse r)) (to_le-from_le n bs h a)

bswap-from_le-reverse :
    (n : ℕ) (bs : List ℕ)
    → length bs ≡ n
    → All IsByte bs
    → bswap n (from_le (reverse bs)) ≡ from_le bs
bswap-from_le-reverse n bs h a =
    bswap-from_le n (reverse bs) (length-reverse bs ∙ h) (All-reverse bs a)
    ∙ ap from_le (reverse-reverse bs)

-- What a host stores for a value that it swapped where needed are the wire's bytes.
pub mem_bytes-swapped :
    (host : Host) (e : Endian) (n v : ℕ) → mem_bytes host n (swapped host e n v) ≡ wire e n v
unfolding mem_bytes swapped needs_swap wire
mem_bytes-swapped host little_endian n v = elim (Bool-cases host.is_big_endian) [
  | inl b ↦ rw (b) (ap reverse (to_le-bswap n v) ∙ reverse-reverse (to_le n v))
  | inr l ↦ rw (l)
]
mem_bytes-swapped host big_endian n v = elim (Bool-cases host.is_big_endian) [
  | inl b ↦ rw (b)
  | inr l ↦ rw (l) (to_le-bswap n v)
]

-- What a host makes of bytes that it loads, and swaps where needed, is their value on the wire.
pub swapped-mem_value :
    (host : Host) (e : Endian) (n : ℕ) (bs : List ℕ)
    → length bs ≡ n
    → All IsByte bs
    → swapped host e n (mem_value host bs) ≡ unwire e bs
unfolding mem_value swapped needs_swap unwire
swapped-mem_value host little_endian n bs h a = elim (Bool-cases host.is_big_endian) [
  | inl b ↦ rw (b) (bswap-from_le-reverse n bs h a)
  | inr l ↦ rw (l)
]
swapped-mem_value host big_endian n bs h a = elim (Bool-cases host.is_big_endian) [
  | inl b ↦ rw (b)
  | inr l ↦ rw (l) (bswap-from_le n bs h a)
]
