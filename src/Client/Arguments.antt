-- ===== src/Client/Arguments.antt =====
-- examples/modbus/client/modbus_client_old.c: the options of the command line.
use protocol_toolkit.Prelude.{
  ℕ, ◌+◌, Bool, true, false, not, ◌&&◌, ◌||◌, Option, none, some, List, [], ◌∷◌, ltb, if◌then◌else◌,
  ◌==◌,
}
use protocol_toolkit.Client.{
  Lib, Memory, Operation, read_holding, read_input, read_coils, read_discrete, write_holding,
  write_coil, write_holding_multiple, write_coils_multiple, ClientConfig, Given, Result, parsed,
  help_shown, failed, parse_address_and_count, parse_write_values, parse_write_coil_values,
}

-- What one option leads to.
pub data Next (Word : Type 0) : Type 0 where
  continue : ClientConfig Word → Bool → Next Word
  stop : Result → Next Word

module _ {Word : Type 0} (lib : Lib Word) where
  unfoldable pub read_option : Operation → Word → ClientConfig Word → Bool → Next Word
  read_option operation arg config operation_set =
      if operation_set then stop failed else elim (parse_address_and_count lib arg) [
        | none ↦ stop failed
        | some (address, count) ↦
            continue
              (record config { operation = operation; start_address = address; count = count }) true
      ]

  -- `single` is the test that there is one value.
  unfoldable pub write_option :
      Operation → Bool → Memory → Word → ClientConfig Word → Bool → Option (Next Word)
  write_option operation single mem arg config operation_set =
      if operation_set then some (stop failed) else elim (parse_write_values lib mem arg) [
        | none ↦ none
        | some none ↦ some (stop failed)
        | some (some (address, values, n)) ↦
            if single && not (n == 1)
            then some (stop failed)
            else some (
                continue
                  (record config {
                    operation = operation;
                    start_address = address;
                    write_values = some values;
                    write_values_count = n;
                  })
                  true)
      ]

  unfoldable pub write_coil_option :
      Operation → Bool → Memory → Word → ClientConfig Word → Bool → Option (Next Word)
  write_coil_option operation single mem arg config operation_set =
      if operation_set then some (stop failed) else elim (parse_write_coil_values lib mem arg) [
        | none ↦ none
        | some none ↦ some (stop failed)
        | some (some (address, values, n)) ↦
            if single && not (n == 1)
            then some (stop failed)
            else some (
                continue
                  (record config {
                    operation = operation;
                    start_address = address;
                    write_coil_values = some values;
                    write_values_count = n;
                  })
                  true)
      ]

  unfoldable pub port_option : Word → ClientConfig Word → Bool → Next Word
  port_option arg config operation_set = elim (lib.strtol arg) [
    | none ↦ stop failed
    | some val ↦
        if ltb val 1 || ltb 65535 val
        then stop failed
        else continue (record config { port = val }) operation_set
  ]

  unfoldable pub unit_option : Word → ClientConfig Word → Bool → Next Word
  unit_option arg config operation_set = elim (lib.strtol arg) [
    | none ↦ stop failed
    | some val ↦
        if ltb 255 val
        then stop failed
        else continue (record config { unit_id = val }) operation_set
  ]

  -- The switch over the option's code. The copy of the host's name is left to the text itself.
  unfoldable pub handle_option : Memory → Given Word → ClientConfig Word → Bool → Option (Next Word)
  handle_option mem given config operation_set =
      if given.code == 0x68
      then some (continue (record config { host = given.optarg }) operation_set)
      else if given.code == 0x70
      then some (port_option given.optarg config operation_set)
      else if given.code == 0x75
      then some (unit_option given.optarg config operation_set)
      else if given.code == 0x76
      then some (continue (record config { verbose = true }) operation_set)
      else if given.code == 1001
      then some (read_option read_holding given.optarg config operation_set)
      else if given.code == 1002
      then some (read_option read_input given.optarg config operation_set)
      else if given.code == 1003
      then some (read_option read_coils given.optarg config operation_set)
      else if given.code == 1004
      then some (read_option read_discrete given.optarg config operation_set)
      else if given.code == 1005
      then write_option write_holding true mem given.optarg config operation_set
      else if given.code == 1006
      then write_coil_option write_coil true mem given.optarg config operation_set
      else if given.code == 1007
      then write_option write_holding_multiple false mem given.optarg config operation_set
      else if given.code == 1008
      then write_coil_option write_coils_multiple false mem given.optarg config operation_set
      else if given.code == 0x3f
      then some (stop help_shown)
      else some (stop failed)

  -- The loop over the options; each call has its own memory.
  unfoldable pub parse_loop :
      (ℕ → Memory)
      → ℕ
      → List (Given Word)
      → ClientConfig Word
      → Bool
      → Option (Result × ClientConfig Word)
  parse_loop mem call [] config operation_set =
      some (if not operation_set then failed else parsed, config)
  parse_loop mem call (given ∷ options) config operation_set =
      elim (handle_option (mem call) given config operation_set) [
        | none ↦ none
        | some (stop result) ↦ some (result, config)
        | some (continue config' set') ↦ parse_loop mem (call + 1) options config' set'
      ]

  -- The defaults: 127.0.0.1 or what DEFAULT_HOST says, port 502 and unit 1.
  unfoldable pub parse_arguments :
      (ℕ → Memory)
      → Word
      → List (Given Word)
      → ClientConfig Word
      → Option (Result × ClientConfig Word)
  parse_arguments mem default_host options config =
      parse_loop mem 0 options
        (record config {
          host = default_host;
          port = 502;
          unit_id = 1;
          verbose = false;
          write_values = none;
          write_coil_values = none;
          write_values_count = 0;
        })
        false
