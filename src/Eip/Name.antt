-- ===== src/Eip/Name.antt =====
-- The name of a product: its array, and the characters that are shown.
use protocol_toolkit.Prelude.{
  ℕ, zero, suc, ◌+◌, ◌≤◌, Option, none, some, List, [], ◌∷◌, ◌==◌, replicate, store_at_lem, length,
  set, length-set, length-replicate, All, All-set, All-replicate, get_elem?, ◌≡◌, refl, ◌∙◌, arith,
  ◌⊎◌, inl, inr, Bool-cases,
}
use protocol_toolkit.Buf.{Buf}
use protocol_toolkit.Codec.{Endian, Host}
use protocol_toolkit.Eip.{c_string, printable, read_name}
use protocol_toolkit.Eip.Reads.{IsReady, read-byte}

abbrev pub IsPrintable : ℕ → Type 0
IsPrintable c = (0x20 ≤ c) × (c ≤ 0x7e)

-- The array of the product name.
pub record IsName (name : List ℕ) : Type 0 where
  pub size : length name ≡ 256
  pub chars : All (λ c. (c ≡ 0) ⊎ IsPrintable c) name

printable-IsPrintable : (c : ℕ) → IsPrintable (printable c)
printable-IsPrintable c = ground arith

pub IsName-set :
    (name : List ℕ) (i c : ℕ) → IsName name → (c ≡ 0) ⊎ IsPrintable c → IsName (set name i c)
IsName-set name i c n h = record {
  size = length-set name i c ∙ n.size;
  chars = All-set (λ c. (c ≡ 0) ⊎ IsPrintable c) name i c n.chars h;
}

pub blank-IsName : IsName (replicate 256 0)
blank-IsName = record {
  size = length-replicate {A = ℕ} 256 0;
  chars = All-replicate (λ c. (c ≡ 0) ⊎ IsPrintable c) 256 0 (inl refl);
}

pub c_string-bound : (xs : List ℕ) (k : ℕ) → get_elem? xs k ≡ some 0 → length (c_string xs) ≤ k
c_string-bound [] k h = omega arith
c_string-bound (x ∷ xs) zero h = let e : x ≡ 0 = grind (arith, h) in rw e (omega arith)
c_string-bound (x ∷ xs) (suc k) h = elim (Bool-cases (x == 0)) [
  | inl e ↦ rw e (omega arith)
  | inr e ↦ rw e (omega (arith, c_string-bound xs k h))
]

pub c_string-IsPrintable :
    (xs : List ℕ) → All (λ c. (c ≡ 0) ⊎ IsPrintable c) xs → All IsPrintable (c_string xs)
c_string-IsPrintable [] a = tt
c_string-IsPrintable (x ∷ xs) (h, a) = elim (Bool-cases (x == 0)) [
  | inl e ↦ rw e tt
  | inr e ↦ elim h [
    | inl z ↦ absurd (ground (arith, e, z))
    | inr p ↦ rw e (p, c_string-IsPrintable xs a)
  ]
]

-- A name that is shown.
abbrev pub IsShown : Option (List ℕ) → Type 0
IsShown none = Unit
IsShown (some cs) = (length cs ≤ 255) × All IsPrintable cs

module _ (host : Host) (native : Endian) where
  pub read_name_lem :
      (left i : ℕ) (name : List ℕ) (b : Buf)
      → i + left ≤ 256
      → IsName name
      → IsReady b
      → (name' : List ℕ) × (b' : Buf) × (read_name host native left i name (some b)
          ≡ some (name', some b'))
        × IsName name'
        × IsReady b'
  unfolding read_name
  read_name_lem zero i name b h n r = (name, b, refl, n, r)
  read_name_lem (suc left) i name b h n r = elim (read-byte host native b r) [
    | inr (out, e) ↦ (name, b, rw e refl, n, r)
    | inl (v, b', l, e, r') ↦
        let (name', b'', e', n', r'') =
          read_name_lem left (i + 1) (set name i (printable v)) b' (omega arith)
            (IsName-set name i (printable v) n (inr (printable-IsPrintable v))) r' in
        (name', b'', rw (e, store_at_lem name i (printable v) (omega (arith, n.size))) e', n', r'')
  ]
