-- ===== src/Server/Create.antt =====
-- create_server_state of examples/modbus/server/modbus_server_threaded.c: the tables that a server
-- starts with. The allocation calls and those of the threads' system are numbered from `call` on.
pub mod Laws
use protocol_toolkit.Prelude.{
  ℕ, zero, suc, ◌+◌, ◌*◌, ◌/◌, ◌%◌, Bool, true, false, not, ◌||◌, Option, none, some, List, [], ltb,
  if◌then◌else◌, ◌==◌, ◌>>=◌, set, replicate, length,
}
use protocol_toolkit.Heap.{Grants, obtain}
use protocol_toolkit.Thread.{Posix, mutex_create}
use protocol_toolkit.Server.{Store}

pub record ServerConfig : Type 0 where
  pub num_holding_regs : ℕ
  pub num_input_regs : ℕ
  pub num_coils : ℕ
  pub num_discrete_inputs : ℕ

abbrev pub is_null {ℓ} : {A : Type ℓ} → Option A → Bool
is_null none = true
is_null (some a) = false

module _ {A : Type 0} where
  -- The loop that writes `value i` at each `i`, with `left` rounds to go; `none` is a write outside
  -- the table.
  unfoldable pub fill : (ℕ → A) → ℕ → ℕ → List A → Option (List A)
  fill value zero i xs = some xs
  fill value (suc left) i xs =
      let rest = fill value left (i + 1) (set xs i (value i)) in
      if ltb i (length xs) then rest else none

  -- A table of `n` elements of `size` bytes, unless `n` is 0; `some none` is an allocation that was
  -- refused. The elements are those that the bytes hold that were asked for; these are zero, as
  -- `blank` elements.
  unfoldable pub make_table : Grants → ℕ → ℕ → A → (ℕ → A) → ℕ → Option (Option (List A))
  make_table grants call size blank value n =
      if n == 0 then some (some []) else elim (obtain grants call (n * size)) [
        | none ↦ some none
        | some mem ↦ elim (fill value n 0 (replicate (length mem / size) blank)) [
          | none ↦ none
          | some xs ↦ some (some xs)
        ]
      ]

-- What the loops write.
abbrev pub holding_value : ℕ → ℕ
holding_value i = (i + 1000) % 65536

abbrev pub input_value : ℕ → ℕ
input_value i = (i + 2000) % 65536

abbrev pub coil_value : ℕ → Bool
coil_value i = i % 2 == 0

abbrev pub discrete_value : ℕ → Bool
discrete_value i = i % 3 == 0

-- One table after the other; the structure has 120 bytes.
unfoldable pub create_server_state : Grants → Posix → ℕ → ServerConfig → Option (Option Store)
create_server_state grants posix call config = elim (obtain grants call 120) [
  | none ↦ some none
  | some state ↦
      if is_null (mutex_create grants posix (call + 1))
        || is_null (mutex_create grants posix (call + 2))
        || is_null (mutex_create grants posix (call + 3))
        || is_null (mutex_create grants posix (call + 4))
        || is_null (mutex_create grants posix (call + 5))
      then some none
      else elim (make_table grants (call + 6) 2 0 holding_value config.num_holding_regs) [
        | none ↦ none
        | some none ↦ some none
        | some (some holding) ↦
            elim (make_table grants (call + 7) 2 0 input_value config.num_input_regs) [
              | none ↦ none
              | some none ↦ some none
              | some (some input) ↦
                  elim (make_table grants (call + 8) 1 false coil_value config.num_coils) [
                    | none ↦ none
                    | some none ↦ some none
                    | some (some coils) ↦
                        elim (make_table grants (call + 9) 1 false discrete_value
                          config.num_discrete_inputs) [
                            | none ↦ none
                            | some none ↦ some none
                            | some (some discrete) ↦ some (
                                some (record {
                                  holding_registers = holding;
                                  num_holding_regs = config.num_holding_regs;
                                  input_registers = input;
                                  num_input_regs = config.num_input_regs;
                                  coils = coils;
                                  num_coils = config.num_coils;
                                  discrete_inputs = discrete;
                                  num_discrete_inputs = config.num_discrete_inputs;
                                }))
                          ]
                  ]
            ]
      ]
]
