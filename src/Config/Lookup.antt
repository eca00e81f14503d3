-- ===== src/Config/Lookup.antt =====
-- An option's code leads back to its field.
use protocol_toolkit.Prelude.{
  ◌%◌, ℕ, zero, suc, ◌+◌, ◌-◌, ◌<◌, none, some, List, [], ◌∷◌, ◌==◌, get_elem?, length, lt→ltb,
  le→ltb, ◌≡◌, ◌≢◌, refl, sym, ap, ◌∙◌, arith, inl, inr, ◌⊎◌, Bool-cases, dec_lt, ==-self,
  ==-false_of_ne, get_elem?-cases, ℕ_discrete,
}
use protocol_toolkit.Config.{Field, find_field_by_short, option_code, find_field}

-- No two fields have the same short name, but for the fields without one.
abbrev pub IsDistinct : List Field → Type 0
IsDistinct fields =
    (i j : ℕ) (f g : Field)
    → get_elem? fields i ≡ some f
    → get_elem? fields j ≡ some g
    → f.short_name ≡ g.short_name
    → (f.short_name ≡ 0) ⊎ (i ≡ j)

find_field_by_short_lem :
    (fields : List Field) (i : ℕ) (f : Field)
    → IsDistinct fields
    → get_elem? fields i ≡ some f
    → f.short_name ≢ 0
    → find_field_by_short fields f.short_name ≡ some i
unfolding find_field_by_short
find_field_by_short_lem [] i f d e n = absurd (ground (arith, e))
find_field_by_short_lem (g ∷ fields) zero f d e n =
    let same : g ≡ f = grind (arith, e) in rw (same, ==-self f.short_name)
find_field_by_short_lem (g ∷ fields) (suc i) f d e n = elim (ℕ_discrete g.short_name f.short_name) [
  | yes same ↦ elim (d 0 (suc i) g f refl e same) [
    | inl z ↦ absurd (n (sym same ∙ z))
    | inr z ↦ absurd (omega (arith, z))
  ]
  | no other ↦
      let rest : IsDistinct fields = λ j k a b p q s. later j k (d (suc j) (suc k) a b p q s) in
      rw (
        ==-false_of_ne g.short_name f.short_name other,
        find_field_by_short_lem fields i f rest e n,
        ap some (suc_add i),
      )
]
  where
    suc_add : (i : ℕ) → i + 1 ≡ suc i
    suc_add i = omega arith

    later : {A : Type 0} (j k : ℕ) → A ⊎ (suc j ≡ suc k) → A ⊎ (j ≡ k)
    later j k (inl a) = inl a
    later j k (inr e) = inr (omega (arith, e))

-- The code that the long option of a field has, and its short option where it has one, finds that
-- field again, where the short names of the fields differ and are characters.
pub find_field-option_code :
    (fields : List Field) (i : ℕ) (f : Field)
    → IsDistinct fields
    → get_elem? fields i ≡ some f
    → f.short_name < 256
    → find_field fields (option_code i f) ≡ some i
unfolding find_field option_code
find_field-option_code fields i f d e b = elim (ℕ_discrete f.short_name 0) [
  | yes z ↦ elim (get_elem?-cases fields i) [
    | inl (l, r) ↦
        let back : 1000 + i - 1000 ≡ i = omega arith in
        rw (z, le→ltb (1000 + i) 1000 (omega arith), back, lt→ltb i (length fields) l)
    | inr (l, r) ↦ let no : none ≡ some f = sym r ∙ e in absurd (ground (arith, no))
  ]
  | no n ↦
      let kept : f.short_name % 256 ≡ f.short_name = omega arith in
      rw (==-false_of_ne f.short_name 0 n, lt→ltb f.short_name 1000 (omega arith), kept)
        (find_field_by_short_lem fields i f d e n)
]

find_field_by_short-cases :
    (fields : List Field) (c : ℕ)
    → (find_field_by_short fields c ≡ none)
      ⊎ ((i : ℕ) × (f : Field) × (find_field_by_short fields c ≡ some i)
          × (get_elem? fields i ≡ some f))
unfolding find_field_by_short
find_field_by_short-cases [] c = inl refl
find_field_by_short-cases (g ∷ fields) c = elim (Bool-cases (g.short_name == c)) [
  | inl e ↦ inr (0, g, rw e refl, refl)
  | inr e ↦ elim (find_field_by_short-cases fields c) [
    | inl n ↦ inl (rw (e, n) refl)
    | inr (i, f, r, g) ↦
        let next : i + 1 ≡ suc i = omega arith in inr (suc i, f, rw (e, r, next), g)
  ]
]

-- A field that is found is one of the fields.
pub find_field-cases :
    (fields : List Field) (c : ℕ)
    → (find_field fields c ≡ none)
      ⊎ ((i : ℕ) × (f : Field) × (find_field fields c ≡ some i) × (get_elem? fields i ≡ some f))
unfolding find_field
find_field-cases fields c = elim (dec_lt c 1000) [
  | yes l ↦ rw (lt→ltb c 1000 l) (find_field_by_short-cases fields (c % 256))
  | no l ↦ elim (get_elem?-cases fields (c - 1000)) [
    | inl (m, (f, r)) ↦
        inr (c - 1000, f, rw (le→ltb c 1000 (omega arith), lt→ltb (c - 1000) (length fields) m), r)
    | inr (m, r) ↦ inl (rw (le→ltb c 1000 (omega arith), le→ltb (c - 1000) (length fields) m))
  ]
]
