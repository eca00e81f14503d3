-- ===== src/Client/Options.antt =====
-- What each option of the client leaves of the configuration.
use mathlib.Core.Path.{subst}
use protocol_toolkit.Prelude.{
  ℕ, ◌<◌, ◌^◌, ◌%◌, Bool, true, false, not, ◌&&◌, ◌||◌, Option, none, some, List, map, take, length,
  length-map, length-take, ◌==◌, ltb, ◌≡◌, refl, ◌∙◌, arith, inl, inr, Bool-cases, Option-cases,
}
use protocol_toolkit.Client.{
  Lib, Memory, Rest, at_end, comma, junk, Operation, read_holding, read_input, read_coils,
  read_discrete, write_holding, write_coil, write_holding_multiple, write_coils_multiple,
  ClientConfig, parsed, parse_address_and_count, parse_write_values, parse_write_coil_values,
}
use protocol_toolkit.Client.Arguments.{
  Next, continue, stop, read_option, write_option, write_coil_option, port_option, unit_option,
}
use protocol_toolkit.Client.Values.{said, parse_values_lem}

-- An array of `n` values is there.
abbrev pub HasValues : {A : Type 0} → Option (List A) → ℕ → Type 0
HasValues none n = ⊥
HasValues (some values) n = length values ≡ n

-- What run_client reads for the operation is there: a count of at least 1, or an array of as many
-- values as the count says, one value or more, and exactly one for a single write.
abbrev pub IsSupplied : {Word : Type 0} → ClientConfig Word → Operation → Type 0
IsSupplied config write_holding =
    HasValues config.write_values config.write_values_count × (config.write_values_count ≡ 1)
IsSupplied config write_coil =
    HasValues config.write_coil_values config.write_values_count × (config.write_values_count ≡ 1)
IsSupplied config write_holding_multiple =
    HasValues config.write_values config.write_values_count × (0 < config.write_values_count)
IsSupplied config write_coils_multiple =
    HasValues config.write_coil_values config.write_values_count × (0 < config.write_values_count)
IsSupplied config _ = (0 < config.count) × (config.count < 65536)

pub record IsReady {Word : Type 0} (config : ClientConfig Word) : Type 0 where
  pub port : (0 < config.port) × (config.port < 65536)
  pub unit : config.unit_id < 256
  pub address : config.start_address < 65536
  pub supplied : IsSupplied config config.operation

-- The same while options are left: an operation may not be given yet.
pub record IsPartly {Word : Type 0} (config : ClientConfig Word) (operation_set : Bool)
    : Type 0 where
  pub port : (0 < config.port) × (config.port < 65536)
  pub unit : config.unit_id < 256
  pub chosen :
      operation_set ≡ true → (config.start_address < 65536) × IsSupplied config config.operation

-- What an option may lead to.
abbrev pub IsNext : {Word : Type 0} → Next Word → Type 0
IsNext (stop parsed) = ⊥
IsNext (stop result) = Unit
IsNext (continue config operation_set) = IsPartly config operation_set

abbrev pub IsHandled : {Word : Type 0} → Option (Next Word) → Type 0
IsHandled none = ⊥
IsHandled (some next) = IsNext next

module _ {Word : Type 0} (lib : Lib Word) where
  pub port_option_lem :
      (arg : Word) (config : ClientConfig Word) (operation_set : Bool)
      → IsPartly config operation_set
      → IsNext (port_option lib arg config operation_set)
  unfolding port_option
  port_option_lem arg config set p = elim (Option-cases (lib.strtol arg)) [
    | inl e ↦ rw (port_option, e) tt
    | inr (val, e) ↦ elim (Bool-cases (ltb val 1 || ltb 65535 val)) [
      | inl f ↦ rw (port_option, e, f) tt
      | inr f ↦
          rw (port_option, e, f)
            (record { port = ground (arith, f); unit = p.unit; chosen = p.chosen })
    ]
  ]

  pub unit_option_lem :
      (arg : Word) (config : ClientConfig Word) (operation_set : Bool)
      → IsPartly config operation_set
      → IsNext (unit_option lib arg config operation_set)
  unfolding unit_option
  unit_option_lem arg config set p = elim (Option-cases (lib.strtol arg)) [
    | inl e ↦ rw (unit_option, e) tt
    | inr (val, e) ↦ elim (Bool-cases (ltb 255 val)) [
      | inl f ↦ rw (unit_option, e, f) tt
      | inr f ↦
          rw (unit_option, e, f)
            (record { port = p.port; unit = ground (arith, f); chosen = p.chosen })
    ]
  ]

  -- The address and the count that are read.
  IsRange : Option (ℕ × ℕ) → Type 0
  IsRange none = Unit
  IsRange (some (address, count)) = (address < 65536) × (0 < count) × (count < 65536)

  parse_address_and_count-IsRange : (arg : Word) → IsRange (parse_address_and_count lib arg)
  unfolding parse_address_and_count IsRange
  parse_address_and_count-IsRange arg = go (lib.strtoul arg).1 refl
    where
      more :
          (address : ℕ) (word : Word) (end : Rest Word)
          → (lib.strtoul word).1 ≡ end
          → (lib.strtoul arg).1 ≡ comma word
          → IsRange (parse_address_and_count lib arg)
      more address word at_end e c = elim (Bool-cases (ltb 0 ((lib.strtoul word).0 % 2 ^ 16))) [
        | inl f ↦
            rw (parse_address_and_count, c, e, f) (omega arith, ground (arith, f), omega arith)
        | inr f ↦ rw (parse_address_and_count, c, e, f) tt
      ]
      more address word (comma w) e c = rw (parse_address_and_count, c, e) tt
      more address word junk e c = rw (parse_address_and_count, c, e) tt

      go :
          (rest : Rest Word)
          → (lib.strtoul arg).1 ≡ rest
          → IsRange (parse_address_and_count lib arg)
      go at_end e = rw (parse_address_and_count, e) (omega arith, omega arith, omega arith)
      go junk e = rw (parse_address_and_count, e) tt
      go (comma word) e = more 0 word (lib.strtoul word).1 refl e

  -- The operations that read.
  abbrev is_read : Operation → Bool
  is_read read_holding = true
  is_read read_input = true
  is_read read_coils = true
  is_read read_discrete = true
  is_read _ = false

  IsSupplied-read :
      (config : ClientConfig Word) (operation : Operation)
      → is_read operation ≡ true
      → (0 < config.count) × (config.count < 65536)
      → IsSupplied config operation
  IsSupplied-read config read_holding e h = h
  IsSupplied-read config read_input e h = h
  IsSupplied-read config read_coils e h = h
  IsSupplied-read config read_discrete e h = h
  IsSupplied-read config write_holding e h = absurd (ground (arith, e))
  IsSupplied-read config write_coil e h = absurd (ground (arith, e))
  IsSupplied-read config write_holding_multiple e h = absurd (ground (arith, e))
  IsSupplied-read config write_coils_multiple e h = absurd (ground (arith, e))

  pub read_option_lem :
      (operation : Operation) (arg : Word) (config : ClientConfig Word) (operation_set : Bool)
      → is_read operation ≡ true
      → IsPartly config operation_set
      → IsNext (read_option lib operation arg config operation_set)
  unfolding read_option IsRange
  read_option_lem operation arg config true r p = tt
  read_option_lem operation arg config false r p =
      elim (Option-cases (parse_address_and_count lib arg)) [
        | inl e ↦ rw (read_option, e) tt
        | inr ((address, count), e) ↦
            let range : IsRange (some (address, count)) =
              subst IsRange e (parse_address_and_count-IsRange arg) in
            rw (read_option, e)
              (record {
                port = p.port;
                unit = p.unit;
                chosen = λ c. (
                  range.0,
                  IsSupplied-read
                      (record config {
                        operation = operation;
                        start_address = address;
                        count = count;
                      })
                      operation r (range.1, range.2),
                );
              })
      ]

  pub write_option_lem :
      (operation : Operation) (single : Bool) (mem : Memory) (arg : Word)
      (config : ClientConfig Word) (operation_set : Bool)
      → ((c : ClientConfig Word)
          → HasValues c.write_values c.write_values_count
          → 0 < c.write_values_count
          → (single ≡ true → c.write_values_count ≡ 1)
          → IsSupplied c operation)
      → IsPartly config operation_set
      → IsHandled (write_option lib operation single mem arg config operation_set)
  unfolding write_option parse_write_values
  write_option_lem operation single mem arg config true s p = tt
  write_option_lem operation single mem arg config false s p =
      elim (parse_values_lem lib 0 (λ n. n % 2 ^ 16) mem arg) [
        | inl e ↦ rw (write_option, e) tt
        | inr (token, words, n, t, pos, fits, all, e) ↦ elim (Bool-cases (single && not (n == 1))) [
          | inl f ↦ rw (write_option, e, f) tt
          | inr f ↦
              let values = map (said lib 0 (λ n. n % 2 ^ 16)) (take n words) in
              let size : length values ≡ n =
                length-map (said lib 0 (λ n. n % 2 ^ 16)) (take n words)
                ∙ omega (arith, length-take n words) in
              let next = record config {
                operation = operation;
                start_address = (lib.strtoul token).0 % 2 ^ 16;
                write_values = some values;
                write_values_count = n;
              } in
              rw (write_option, e, f)
                (record {
                  port = p.port;
                  unit = p.unit;
                  chosen = λ c. (omega arith, s next size pos (λ one. ground (arith, f, one)));
                })
        ]
      ]

  pub write_coil_option_lem :
      (operation : Operation) (single : Bool) (mem : Memory) (arg : Word)
      (config : ClientConfig Word) (operation_set : Bool)
      → ((c : ClientConfig Word)
          → HasValues c.write_coil_values c.write_values_count
          → 0 < c.write_values_count
          → (single ≡ true → c.write_values_count ≡ 1)
          → IsSupplied c operation)
      → IsPartly config operation_set
      → IsHandled (write_coil_option lib operation single mem arg config operation_set)
  unfolding write_coil_option parse_write_coil_values
  write_coil_option_lem operation single mem arg config true s p = tt
  write_coil_option_lem operation single mem arg config false s p =
      elim (parse_values_lem lib false (λ n. not (n == 0)) mem arg) [
        | inl e ↦ rw (write_coil_option, e) tt
        | inr (token, words, n, t, pos, fits, all, e) ↦ elim (Bool-cases (single && not (n == 1))) [
          | inl f ↦ rw (write_coil_option, e, f) tt
          | inr f ↦
              let values = map (said lib false (λ n. not (n == 0))) (take n words) in
              let size : length values ≡ n =
                length-map (said lib false (λ n. not (n == 0))) (take n words)
                ∙ omega (arith, length-take n words) in
              let next = record config {
                operation = operation;
                start_address = (lib.strtoul token).0 % 2 ^ 16;
                write_coil_values = some values;
                write_values_count = n;
              } in
              rw (write_coil_option, e, f)
                (record {
                  port = p.port;
                  unit = p.unit;
                  chosen = λ c. (omega arith, s next size pos (λ one. ground (arith, f, one)));
                })
        ]
      ]
