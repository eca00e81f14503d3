-- ===== src/Client/Values.antt =====
-- The values of a write operation are those that its argument lists.
use protocol_toolkit.Prelude.{
  ℕ, zero, suc, ◌+◌, ◌-◌, ◌<◌, ◌≤◌, ◌^◌, ◌%◌, true, not, ◌||◌, none, some, List, [], ◌∷◌, ◌++◌, map,
  take, length, set, replicate, if◌then◌else◌, ◌==◌, length-append, lt→ltb, append_assoc, ◌≡◌, refl,
  ap, arith, ◌⊎◌, inl, inr, Bool-cases,
}
use protocol_toolkit.Client.{Lib, Memory, store_values, parse_values}

module _ {Word : Type 0} (lib : Lib Word) {A : Type 0} (blank : A) (value : ℕ → A) where
  -- The value that a word says.
  abbrev pub said : Word → A
  said word = value (lib.strtoul word).0

  set-append : (pre zs : List A) (z c : A) → set (pre ++ (z ∷ zs)) (length pre) c ≡ pre ++ (c ∷ zs)
  set-append [] zs z c = refl
  set-append (p ∷ pre) zs z c = ap (λ r. p ∷ r) (set-append pre zs z c)

  store_values_lem :
      (left : ℕ) (words : List Word) (pre : List A)
      → left ≤ length words
      → store_values lib blank value left (length pre) words (pre ++ replicate left blank)
        ≡ some (pre ++ map said (take left words))
  unfolding store_values
  store_values_lem zero words pre h = refl
  store_values_lem (suc left) [] pre h = absurd (omega arith)
  store_values_lem (suc left) (word ∷ words) pre h =
      let zs = replicate left blank in
      let c = said word in
      let rest = store_values_lem left words (pre ++ (c ∷ [])) (omega arith) in
      let next : length (pre ++ (c ∷ [])) ≡ length pre + 1 = length-append pre (c ∷ []) in
      let room : length pre < length (pre ++ (blank ∷ zs)) =
        omega (arith, length-append pre (blank ∷ zs)) in
      rw (lt→ltb (length pre) (length (pre ++ (blank ∷ zs))) room, set-append pre zs blank c)
        (rw
          (
            next,
            append_assoc pre (c ∷ []) zs,
            append_assoc pre (c ∷ []) (map said (take left words)),
          )
          at rest)

  pub parse_values_lem :
      (mem : Memory) (arg : Word)
      → (parse_values lib blank value mem arg ≡ some none)
        ⊎ ((token : Word) × (words : List Word) × (n : ℕ) × (lib.tokens arg ≡ token ∷ words)
            × (0 < n)
            × (n ≤ length words)
            × (mem.temp_copy ≡ true → n ≡ length words)
            × (parse_values lib blank value mem arg
                ≡ some (some ((lib.strtoul token).0 % 2 ^ 16, map said (take n words), n))))
  unfolding parse_values
  parse_values_lem mem arg = elim (Bool-cases mem.arg_copy) [
    | inr e ↦ inl (rw e refl)
    | inl e ↦ split e (lib.tokens arg) refl
  ]
    where
      counted :
          (words : List Word)
          → (if mem.temp_copy then length words else length words - 1) ≤ length words
      counted words = elim (Bool-cases mem.temp_copy) [
        | inl t ↦ rw t (omega arith)
        | inr t ↦ rw t (omega arith)
      ]

      split :
          mem.arg_copy ≡ true
          → (tokens : List Word) → lib.tokens arg ≡ tokens
          → (parse_values lib blank value mem arg ≡ some none)
            ⊎ ((token : Word) × (words : List Word) × (n : ℕ) × (lib.tokens arg ≡ token ∷ words)
                × (0 < n)
                × (n ≤ length words)
                × (mem.temp_copy ≡ true → n ≡ length words)
                × (parse_values lib blank value mem arg
                    ≡ some (some ((lib.strtoul token).0 % 2 ^ 16, map said (take n words), n))))
      split e [] t = inl (rw (e, t) refl)
      split e (token ∷ words) t =
          let n = if mem.temp_copy then length words else length words - 1 in
          elim (Bool-cases ((n == 0) || not mem.values)) [
            | inl f ↦ inl (rw (e, t, f) refl)
            | inr f ↦
                let stored = store_values_lem n words [] (counted words) in
                inr (
                  token,
                  words,
                  n,
                  t,
                  ground (arith, f),
                  counted words,
                  (λ k. rw k refl),
                  rw (e, t, f, stored) refl,
                )
          ]
