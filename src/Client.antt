-- ===== src/Client.antt =====
-- examples/modbus/client/modbus_client_old.c: the arguments of the Modbus client. strtok, strtoul
-- and strtol are the parameter `Lib`, and what getopt_long answers is a list, with an argument for
-- every option that requires one. Whether strdup and malloc succeed in a call is open. The
-- configuration before the call is any.
pub mod Values
pub mod Arguments
pub mod Options
pub mod Ready
pub mod Run
use protocol_toolkit.Prelude.{
  ℕ, zero, suc, ◌+◌, ◌-◌, ◌%◌, ◌^◌, ◌<◌, Bool, true, false, not, ◌&&◌, ◌||◌, Option, none, some,
  List, [], ◌∷◌, ltb, if◌then◌else◌, ◌==◌, ◌>>=◌, length, set, replicate, drop,
}

-- What stands behind a number: nothing, a comma and more text, or something else.
pub data Rest (Word : Type 0) : Type 0 where
  at_end : Rest Word
  comma : Word → Rest Word
  junk : Rest Word

-- `tokens` are those that strtok finds, one call after the other; `strtol` has no result where the
-- number is negative.
pub record Lib (Word : Type 0) : Type 0 where
  pub tokens : Word → List Word
  pub strtoul : Word → ℕ × Rest Word
  pub strtol : Word → Option ℕ

-- Whether the two strdup calls and malloc succeed.
pub record Memory : Type 0 where
  pub arg_copy : Bool
  pub temp_copy : Bool
  pub values : Bool

pub data Operation : Type 0 where
  read_holding read_input read_coils read_discrete : Operation
  write_holding write_coil write_holding_multiple write_coils_multiple : Operation

-- client_config_t.
pub record ClientConfig (Word : Type 0) : Type 0 where
  pub host : Word
  pub port : ℕ
  pub operation : Operation
  pub start_address : ℕ
  pub count : ℕ
  pub write_values : Option (List ℕ)
  pub write_coil_values : Option (List Bool)
  pub write_values_count : ℕ
  pub unit_id : ℕ
  pub verbose : Bool

-- An option's code with its argument.
pub record Given (Word : Type 0) : Type 0 where
  pub code : ℕ
  pub optarg : Word

-- The results: 0, 1 and -1.
pub data Result : Type 0 where
  parsed : Result
  help_shown : Result
  failed : Result

module _ {Word : Type 0} (lib : Lib Word) where
  -- The address and the count; `none` is -1.
  unfoldable pub parse_address_and_count : Word → Option (ℕ × ℕ)
  parse_address_and_count arg =
      let (address, rest) = lib.strtoul arg in
      elim rest [
        | at_end ↦ some (address % 2 ^ 16, 1)
        | junk ↦ none
        | comma word ↦
            let (count, end) = lib.strtoul word in
            elim end [
              | at_end ↦
                  if ltb 0 (count % 2 ^ 16) then some (address % 2 ^ 16, count % 2 ^ 16) else none
              | comma more ↦ none
              | junk ↦ none
            ]
      ]

  module _ {A : Type 0} (blank : A) (value : ℕ → A) where
    -- The loop that stores the values from index `i` on, with `left` rounds to go; `none` is a
    -- write outside the array.
    unfoldable pub store_values : ℕ → ℕ → List Word → List A → Option (List A)
    store_values zero i words values = some values
    store_values (suc left) i [] values = some values
    store_values (suc left) i (word ∷ words) values =
        let rest = store_values left (i + 1) words (set values i (value (lib.strtoul word).0)) in
        if ltb i (length values) then rest else none

    -- parse_write_values and parse_write_coil_values: the address and the values; `none` within the
    -- result is -1. Where the second strdup fails, strtok goes on with the first copy.
    unfoldable pub parse_values : Memory → Word → Option (Option (ℕ × List A × ℕ))
    parse_values mem arg = if not mem.arg_copy then some none else elim (lib.tokens arg) [
      | [] ↦ some none
      | token ∷ words ↦
          let value_count = if mem.temp_copy then length words else length words - 1 in
          if (value_count == 0) || not mem.values then some none else do
            values ← store_values value_count 0 words (replicate value_count blank)
            some (some ((lib.strtoul token).0 % 2 ^ 16, values, value_count))
    ]

  unfoldable pub parse_write_values : Memory → Word → Option (Option (ℕ × List ℕ × ℕ))
  parse_write_values = parse_values 0 (λ n. n % 2 ^ 16)

  unfoldable pub parse_write_coil_values : Memory → Word → Option (Option (ℕ × List Bool × ℕ))
  parse_write_coil_values = parse_values false (λ n. not (n == 0))
