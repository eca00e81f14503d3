-- ===== src/Config.antt =====
-- lib/ptk_config.c: the command line of a program, from its fields. strtol, strtoul and strcmp are
-- the parameter `Text`, and getopt_long is a parameter too, as the list of what its calls answer: an
-- option's code with its argument, until it answers -1. A text is of any type. Each field has a
-- target of its own, of the field's type. ptk_config_print_help only prints.
pub mod ShortOpts
pub mod Lookup
pub mod Parse
use protocol_toolkit.Prelude.{
  ℕ, zero, suc, ◌+◌, ◌-◌, ◌%◌, ◌^◌, ◌<◌, Bool, true, false, not, ◌&&◌, ◌||◌, Option, none, some,
  List, [], ◌∷◌, ltb, leb, if◌then◌else◌, ◌==◌, ◌>>=◌, get_elem?, set, length, replicate, store_at,
}

pub data FieldType : Type 0 where
  string : FieldType
  int : FieldType
  uint16 : FieldType
  bool : FieldType
  help : FieldType

-- ptk_config_field_t without its texts for the help; `name` is a number that stands for the name.
pub record Field : Type 0 where
  pub name : ℕ
  pub short_name : ℕ
  pub type : FieldType
  pub has_target : Bool

-- What a target holds. An int is its 32 bits.
pub data Value (Word : Type 0) : Type 0 where
  text : Word → Value Word
  number : ℕ → Value Word
  flag : Bool → Value Word

-- strtol gives the 64 bits of a long, strtoul an unsigned long; the test is that no text is left.
pub record Text (Word : Type 0) : Type 0 where
  pub strtol : Word → ℕ × Bool
  pub strtoul : Word → ℕ × Bool
  pub is_true : Word → Bool
  pub is_false : Word → Bool
  pub true_text : Word

-- An option's code with its argument, `none` where optarg is NULL.
pub record Answer (Word : Type 0) : Type 0 where
  pub code : ℕ
  pub optarg : Option Word

-- The results of ptk_config_parse: 0, 1 and -1.
pub data Result : Type 0 where
  done : Result
  help_shown : Result
  failed : Result

abbrev pub is_bool : FieldType → Bool
is_bool bool = true
is_bool _ = false

-- The field's index.
unfoldable pub find_field_by_short : List Field → ℕ → Option ℕ
find_field_by_short [] c = none
find_field_by_short (f ∷ fields) c =
    let rest = find_field_by_short fields c in
    if f.short_name == c then some 0 else elim rest [ none ↦ none | some i ↦ some (i + 1) ]

-- The short options of the fields, written into the array from `idx` on, and where they end.
unfoldable pub short_options : List Field → List ℕ → ℕ → Option (List ℕ × ℕ)
short_options [] opts idx = some (opts, idx)
short_options (f ∷ fields) opts idx =
    if (f.short_name == 0) || not (ltb idx 254) then short_options fields opts idx else do
      opts ← store_at opts idx f.short_name
      (opts, idx) ← if is_bool f.type then some (opts, idx + 1) else with_argument opts (idx + 1)
      short_options fields opts idx
  where
    with_argument : List ℕ → ℕ → Option (List ℕ × ℕ)
    with_argument opts idx = store_at opts idx 0x3a >>= λ opts. some (opts, idx + 1)

-- The array has 256 bytes; it starts with "h", and a 0 ends the options.
unfoldable pub build_short_opts : List Field → Option (List ℕ)
build_short_opts fields =
    short_options fields (0x68 ∷ replicate 255 0) 1 >>= λ (opts, idx). store_at opts idx 0

-- long_options[opt_idx].val of a field.
unfoldable pub option_code : ℕ → Field → ℕ
option_code idx f = if f.short_name == 0 then 1000 + idx else f.short_name

-- An entry of long_options; no name is "help".
pub record LongOption : Type 0 where
  pub name : Option ℕ
  pub has_arg : Bool
  pub val : ℕ

unfoldable pub long_options : ℕ → List Field → List LongOption
long_options idx [] = record { name = none; has_arg = false; val = 0x68 } ∷ []
long_options idx (f ∷ fields) =
    record { name = some f.name; has_arg = not (is_bool f.type); val = option_code idx f }
    ∷ long_options (idx + 1) fields

unfoldable pub find_field : List Field → ℕ → Option ℕ
find_field fields c =
    if ltb c 1000
    then find_field_by_short fields (c % 256)
    else if ltb (c - 1000) (length fields)
    then some (c - 1000)
    else none

module _ {Word : Type 0} (lib : Text Word) where
  -- The value for the target; `none` is the error. A number is stored in 32 or in 16 bits.
  unfoldable pub parse_value : FieldType → Word → Option (Option (Value Word))
  parse_value string word = some (some (text word))
  parse_value int word =
      let (val, at_end) = lib.strtol word in
      if not at_end then none else some (some (number (val % 2 ^ 32)))
  parse_value uint16 word =
      let (val, at_end) = lib.strtoul word in
      if not at_end || ltb 65535 val then none else some (some (number (val % 2 ^ 16)))
  parse_value bool word =
      if lib.is_true word
      then some (some (flag true))
      else if lib.is_false word
      then some (some (flag false))
      else none
  parse_value help word = some none

  -- The values of the targets after it; `none` is the error.
  unfoldable pub set_field_value : Field → ℕ → Word → List (Value Word) → Option (List (Value Word))
  set_field_value f i word values =
      if not f.has_target then some values else elim (parse_value f.type word) [
        | none ↦ none
        | some none ↦ some values
        | some (some v) ↦ some (set values i v)
      ]

  module _ (fields : List Field) where
    -- The loop over the answers of getopt_long; `none` is a use of a NULL argument, or of a field
    -- outside the array.
    unfoldable pub parse_options :
        List (Answer Word) → List (Value Word) → Option (Result × List (Value Word))
    parse_options [] values = some (done, values)
    parse_options (a ∷ answers) values =
        if (a.code == 0x68) || (a.code == 0x3f)
        then some (help_shown, values)
        else elim (find_field fields a.code) [
          | none ↦ some (failed, values)
          | some i ↦ do
            f ← get_elem? fields i
            word ← if is_bool f.type then some lib.true_text else a.optarg
            elim (set_field_value f i word values) [
              | none ↦ some (failed, values)
              | some values ↦ parse_options answers values
            ]
        ]

    -- Whether malloc gives the array of the long options is `allocated`.
    unfoldable pub ptk_config_parse :
        (List ℕ → List LongOption → List (Answer Word))
        → Bool
        → List (Value Word)
        → Option (Result × List (Value Word))
    ptk_config_parse getopt_long allocated values =
        if not allocated then some (failed, values) else do
          opts ← build_short_opts fields
          parse_options (getopt_long opts (long_options 0 fields)) values
