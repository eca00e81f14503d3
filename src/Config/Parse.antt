-- ===== src/Config/Parse.antt =====
-- What the parsed options leave in the targets.
use mathlib.Core.Path.{subst}
use protocol_toolkit.Prelude.{
  some-injective, none-ne-some, ℕ, ◌^◌, ◌<◌, Bool, true, false, not, ◌||◌, Option, none, some, List,
  [], ◌∷◌, ltb, if◌then◌else◌, ◌==◌, get_elem?, set, ◌≡◌, refl, sym, ap, ◌∙◌, arith, inl, inr, ◌⊎◌,
  Bool-cases, Option-cases, get_elem?-cases, ℕ_discrete, get_elem?-set_self, get_elem?-set_ne, All,
  length-set,
}
use protocol_toolkit.Config.{
  Field, FieldType, string, int, uint16, bool, help, Value, text, number, flag, Text, Answer,
  Result, done, help_shown, failed, is_bool, find_field, parse_value, set_field_value,
  parse_options, LongOption, long_options, ptk_config_parse,
}
use protocol_toolkit.Config.Lookup.{find_field-cases}
use protocol_toolkit.Config.ShortOpts.{build_short_opts_lem}

module _ {Word : Type 0} (lib : Text Word) where
  -- The values that a target of the type can hold.
  abbrev pub Fits : FieldType → Value Word → Type 0
  Fits string (text w) = Unit
  Fits int (number n) = n < 2 ^ 32
  Fits uint16 (number n) = n < 2 ^ 16
  Fits bool (flag b) = Unit
  Fits help v = Unit
  Fits _ _ = ⊥

  abbrev FitsResult : FieldType → Option (Option (Value Word)) → Type 0
  FitsResult type (some (some v)) = Fits type v
  FitsResult type _ = Unit

  parse_value-Fits : (type : FieldType) (word : Word) → FitsResult type (parse_value lib type word)
  unfolding parse_value
  parse_value-Fits string word = tt
  parse_value-Fits int word = elim (Bool-cases (lib.strtol word).1) [
    | inl e ↦ rw e (omega arith)
    | inr e ↦ rw e tt
  ]
  parse_value-Fits uint16 word =
      elim (Bool-cases (not (lib.strtoul word).1 || ltb 65535 (lib.strtoul word).0)) [
        | inl e ↦ rw e tt
        | inr e ↦ rw e (omega arith)
      ]
  parse_value-Fits bool word = elim (Bool-cases (lib.is_true word)) [
    | inl e ↦ rw e tt
    | inr e ↦ elim (Bool-cases (lib.is_false word)) [ inl f ↦ rw (e, f) tt | inr f ↦ rw (e, f) tt ]
  ]
  parse_value-Fits help word = tt

  pub Fits-some :
      {f g : Field} {v w : Value Word}
      → some f ≡ some g
      → some v ≡ some w
      → Fits f.type v
      → Fits g.type w
  Fits-some {f} {g} {v} {w} p q fit =
      subst (λ h. Fits h.type w) (some-injective p)
        (subst (λ x. Fits f.type x) (some-injective q) fit)

  module _ (fields : List Field) where
    -- Every target holds a value of its field's type.
    abbrev pub IsTyped : List (Value Word) → Type 0
    IsTyped values =
        (i : ℕ) (f : Field) (v : Value Word)
        → get_elem? fields i ≡ some f
        → get_elem? values i ≡ some v
        → Fits f.type v

    -- getopt_long gives an argument for an option that requires one.
    abbrev pub HasArgument : Answer Word → Type 0
    HasArgument a =
        (i : ℕ) (f : Field)
        → find_field fields a.code ≡ some i
        → get_elem? fields i ≡ some f
        → is_bool f.type ≡ false
        → (word : Word) × (a.optarg ≡ some word)

    -- The codes of `h` and of an unknown option.
    abbrev pub IsHelp : Answer Word → Type 0
    IsHelp a = (a.code ≡ 0x68) ⊎ (a.code ≡ 0x3f)

    set-IsTyped :
        (i : ℕ) (f : Field) (v : Value Word) (values : List (Value Word))
        → IsTyped values
        → get_elem? fields i ≡ some f
        → Fits f.type v
        → IsTyped (set values i v)
    set-IsTyped i f v values t e fit j g w p q = elim (ℕ_discrete j i) [
      | yes same ↦ elim (get_elem?-cases (set values i v) j) [
        | inl (l, r) ↦
            let here : get_elem? (set values i v) j ≡ some v =
              rw same (get_elem?-set_self values i v (omega (arith, length-set values i v))) in
            Fits-some (sym e ∙ (ap (λ k. get_elem? fields k) (sym same) ∙ p)) (sym here ∙ q) fit
        | inr (l, r) ↦ absurd (none-ne-some (sym r ∙ q))
      ]
      | no other ↦ t j g w p (sym (get_elem?-set_ne values i j v (λ e. other (sym e))) ∙ q)
    ]

    set_field_value_lem :
        (f : Field) (i : ℕ) (word : Word) (values : List (Value Word))
        → IsTyped values
        → get_elem? fields i ≡ some f
        → (set_field_value lib f i word values ≡ none)
          ⊎ ((values' : List (Value Word)) × (set_field_value lib f i word values ≡ some values')
              × IsTyped values')
    unfolding set_field_value
    set_field_value_lem f i word values t e = elim (Bool-cases f.has_target) [
      | inr n ↦ inr (values, rw n refl, t)
      | inl y ↦ elim (Option-cases (parse_value lib f.type word)) [
        | inl p ↦ inl (rw (y, p) refl)
        | inr (none, p) ↦ inr (values, rw (y, p) refl, t)
        | inr (some v, p) ↦
            let fit : Fits f.type v =
              subst (λ r. FitsResult f.type r) p (parse_value-Fits f.type word) in
            inr (set values i v, rw (y, p) refl, set-IsTyped i f v values t e fit)
      ]
    ]

    some_word :
        (a : Answer Word) (i : ℕ) (f : Field)
        → HasArgument a
        → find_field fields a.code ≡ some i
        → get_elem? fields i ≡ some f
        → (word : Word) × ((if is_bool f.type then some lib.true_text else a.optarg) ≡ some word)
    some_word a i f h e g = elim (Bool-cases (is_bool f.type)) [
      | inl b ↦ (lib.true_text, rw b refl)
      | inr b ↦ let (word, r) = h i f e g b in (word, rw b r)
    ]

    -- What is left of the parse: a result, with values of the targets' types.
    abbrev IsParsed : Option (Result × List (Value Word)) → Type 0
    IsParsed o =
        (result : Result) × (values : List (Value Word)) × (o ≡ some (result, values))
        × IsTyped values

    parse_options_lem :
        (answers : List (Answer Word)) (values : List (Value Word))
        → All HasArgument answers
        → IsTyped values
        → IsParsed (parse_options lib fields answers values)
    unfolding parse_options
    parse_options_lem [] values h t = (done, values, refl, t)
    parse_options_lem (a ∷ answers) values (h, hs) t =
        elim (Bool-cases ((a.code == 0x68) || (a.code == 0x3f))) [
          | inl e ↦ (help_shown, values, rw e refl, t)
          | inr e ↦ elim (find_field-cases fields a.code) [
            | inl n ↦ (failed, values, rw (e, n) refl, t)
            | inr (i, f, r, g) ↦
                let (word, w) = some_word a i f h r g in
                let resume : Option (List (Value Word)) → Option (Result × List (Value Word)) = λ o.
                  elim o [
                    | none ↦ some (failed, values)
                    | some values ↦ parse_options lib fields answers values
                  ] in
                let step : parse_options lib fields (a ∷ answers) values
                    ≡ resume (set_field_value lib f i word values) =
                  rw (e, r, g, w) refl in
                elim (set_field_value_lem f i word values t g) [
                  | inl n ↦ (failed, values, step ∙ ap resume n, t)
                  | inr (values', n, t') ↦
                      let (result, left, p, q) = parse_options_lem answers values' hs t' in
                      (result, left, step ∙ (ap resume n ∙ p), q)
                ]
          ]
        ]

    -- Where the answers of getopt_long have the arguments that their options require, and the
    -- targets hold values of their types, ptk_config_parse comes to a result, reaches no NULL
    -- argument and no field or byte outside an array, and leaves values of the targets' types,
    -- also where it fails: a uint16 is below 2^16.
    pub ptk_config_parse_lem :
        (getopt_long : List ℕ → List LongOption → List (Answer Word)) (allocated : Bool)
        (values : List (Value Word))
        → ((opts : List ℕ) → All HasArgument (getopt_long opts (long_options 0 fields)))
        → IsTyped values
        → (result : Result) × (values' : List (Value Word)) × (ptk_config_parse lib fields
              getopt_long allocated values
            ≡ some (result, values'))
          × IsTyped values'
    unfolding ptk_config_parse
    ptk_config_parse_lem getopt_long false values h t = (failed, values, refl, t)
    ptk_config_parse_lem getopt_long true values h t =
        let (opts, e, size) = build_short_opts_lem fields in
        let (result, left, p, q) =
          parse_options_lem (getopt_long opts (long_options 0 fields)) values (h opts) t in
        (result, left, rw e p, q)
