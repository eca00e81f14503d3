-- ===== src/Modbus/BitArray/Bits.antt =====
-- Setting, clearing and testing one bit of a byte, checked over all bytes and positions.
use protocol_toolkit.Prelude.{
  ℕ, zero, suc, ◌<◌, Bool, true, false, ◌&&◌, not, if◌then◌else◌, ◌==◌, ltb, ◌≡◌, refl, arith,
  ltb→lt,
}
use protocol_toolkit.Modbus.BitArray.{bit_of, with_bit}

all_below : ℕ → (ℕ → Bool) → Bool
all_below zero p = true
all_below (suc n) p = p n && all_below n p

all_below→true : (n : ℕ) (p : ℕ → Bool) (x : ℕ) → all_below n p ≡ true → x < n → p x ≡ true
unfolding all_below
all_below→true zero p x h k = absurd (omega arith)
all_below→true (suc n) p x h k = ground (arith, all_below→true n p x)

same : Bool → Bool → Bool
same true b = b
same false b = not b

same→eq : (a b : Bool) → same a b ≡ true → a ≡ b
unfolding same
same→eq true b h = ground arith
same→eq false b h = ground arith

-- What is checked of a byte, the position written and the position tested.
agrees : Bool → ℕ → ℕ → ℕ → Bool
unfolding same
agrees v byte k j =
    same (bit_of (with_bit byte k v) j) (if j == k then v else bit_of byte j)
    && ltb (with_bit byte k v) 256

table : Bool → Bool
unfolding all_below agrees
table v = all_below 256 (λ byte. all_below 8 (λ k. all_below 8 (λ j. agrees v byte k j)))

table_set : table true ≡ true
unfolding table bit_of with_bit
table_set = refl

table_cleared : table false ≡ true
unfolding table bit_of with_bit
table_cleared = refl

agrees_all : (v : Bool) → table v ≡ true
agrees_all true = table_set
agrees_all false = table_cleared

agrees_lem : (v : Bool) (byte k j : ℕ) → byte < 256 → k < 8 → j < 8 → agrees v byte k j ≡ true
unfolding table
agrees_lem v byte k j hb hk hj =
    all_below→true 8 (λ i. agrees v byte k i) j
      (all_below→true 8 (λ i. all_below 8 (λ m. agrees v byte i m)) k
        (all_below→true 256 (λ b. all_below 8 (λ i. all_below 8 (λ m. agrees v b i m))) byte
          (agrees_all v) hb)
        hk)
      hj

left_true : (a b : Bool) → (a && b) ≡ true → a ≡ true
left_true a b h = ground arith

right_true : (a b : Bool) → (a && b) ≡ true → b ≡ true
right_true a b h = ground arith

-- Writing one bit of a byte changes that bit alone.
pub bit_of-with_bit :
    (byte k j : ℕ) (v : Bool)
    → byte < 256
    → k < 8
    → j < 8
    → bit_of (with_bit byte k v) j ≡ (if j == k then v else bit_of byte j)
unfolding agrees
bit_of-with_bit byte k j v hb hk hj = same→eq _ _ (left_true _ _ (agrees_lem v byte k j hb hk hj))

pub with_bit-lt : (byte k : ℕ) (v : Bool) → byte < 256 → k < 8 → with_bit byte k v < 256
unfolding agrees
with_bit-lt byte k v hb hk =
    ltb→lt (with_bit byte k v) 256 (right_true _ _ (agrees_lem v byte k 0 hb hk (omega arith)))
