-- ===== src/Tests/Clients.antt =====
-- The Modbus client.
use protocol_toolkit.Prelude.{
  ℕ, true, false, none, some, List, [], ◌∷◌, map, length, ◌≡◌, refl, arith,
}
use protocol_toolkit.Err.{PtkErr, ok}
use protocol_toolkit.Client.{
  Lib, Memory, at_end, ClientConfig, write_holding_multiple, Result, parsed,
}
use protocol_toolkit.Client.Arguments.{parse_arguments}
use protocol_toolkit.Client.Options.{IsReady}
use protocol_toolkit.Client.Ready.{parse_arguments-IsReady}
use protocol_toolkit.Client.Run.{Api, Reads, Writes, Arrays, Printed, execute}
use protocol_toolkit.Client.Run.Safe.{execute_lem}

-- A text is the list of its numbers; each says itself.
abbrev lib : Lib (List ℕ)
lib = record {
  tokens = λ word. map (λ n. n ∷ []) word;
  strtoul = λ word. (length word, at_end);
  strtol = λ word. some (length word);
}

abbrev mem : Memory
mem = record { arg_copy = true; temp_copy = true; values = true }

abbrev config : ClientConfig (List ℕ)
config = record {
  host = [];
  port = 502;
  operation = write_holding_multiple;
  start_address = 100;
  count = 0;
  write_values = some (1 ∷ 2 ∷ 3 ∷ []);
  write_coil_values = none;
  write_values_count = 3;
  unit_id = 1;
  verbose = false;
}

config-IsReady : IsReady config
config-IsReady = record {
  port = (omega arith, omega arith);
  unit = omega arith;
  address = omega arith;
  supplied = (refl, omega arith);
}

abbrev reads : {A : Type 0} → A → Reads ℕ A
reads a = record {
  send_one = λ conn address. (ok, conn);
  recv_one = λ conn. (ok, a, conn);
  send_many = λ conn address count. (ok, conn);
  recv_many = λ conn. (ok, a ∷ a ∷ [], conn);
}

abbrev writes : {A : Type 0} → Writes ℕ A
writes = record {
  send_one = λ conn address value. (ok, conn);
  recv_one = λ conn. (ok, conn);
  send_many = λ conn address values. (ok, conn);
  recv_many = λ conn. (ok, conn);
}

abbrev api : Api ℕ
api = record {
  holding_registers = reads 7;
  input_registers = reads 8;
  coils = reads true;
  discrete_inputs = reads false;
  write_registers = writes;
  write_coils = writes;
}

abbrev arrays : Arrays
arrays = record { allocated = true; created = ok; appends = λ i. true }

parse_arguments-IsReady_example :
    (result : Result) × (config' : ClientConfig (List ℕ)) × (parse_arguments lib
        (λ call. mem)
        []
        (record { code = 1007; optarg = 100 ∷ 1 ∷ 2 ∷ [] } ∷ [])
        config
      ≡ some (result, config'))
    × (result ≡ parsed → IsReady config')
parse_arguments-IsReady_example =
    parse_arguments-IsReady lib (λ call. mem) []
      (record { code = 1007; optarg = 100 ∷ 1 ∷ 2 ∷ [] } ∷ []) config

execute_lem_example :
    (outcome : PtkErr × Printed × ℕ) × (execute api arrays config config.operation 5 ≡ some outcome)
execute_lem_example = execute_lem api arrays config 5 config-IsReady
