-- ===== src/Client/Run.antt =====
-- examples/modbus/client/modbus_client_old.c: the operations of the client. The functions that send
-- a request and receive a response are not in the repository: they are the parameter `Api`, over any
-- type of connections, and the arrays of the responses are lists. What is printed of the values is
-- returned, each with its address.
pub mod Safe
use protocol_toolkit.Prelude.{
  ℕ, zero, suc, ◌+◌, Bool, true, false, not, Option, none, some, List, [], ◌∷◌, ◌++◌, if◌then◌else◌,
  ◌==◌, ◌>>=◌, get_elem?,
}
use protocol_toolkit.Err.{PtkErr, ok, no_resources, is_ok}
use protocol_toolkit.Client.{
  Operation, read_holding, read_input, read_coils, read_discrete, write_holding, write_coil,
  write_holding_multiple, write_coils_multiple, ClientConfig,
}

-- The requests for one value and for several, with their responses.
pub record Reads (Conn A : Type 0) : Type 0 where
  pub send_one : Conn → ℕ → PtkErr × Conn
  pub recv_one : Conn → PtkErr × A × Conn
  pub send_many : Conn → ℕ → ℕ → PtkErr × Conn
  pub recv_many : Conn → PtkErr × List A × Conn

pub record Writes (Conn A : Type 0) : Type 0 where
  pub send_one : Conn → ℕ → A → PtkErr × Conn
  pub recv_one : Conn → PtkErr × Conn
  pub send_many : Conn → ℕ → List A → PtkErr × Conn
  pub recv_many : Conn → PtkErr × Conn

pub record Api (Conn : Type 0) : Type 0 where
  pub holding_registers : Reads Conn ℕ
  pub input_registers : Reads Conn ℕ
  pub coils : Reads Conn Bool
  pub discrete_inputs : Reads Conn Bool
  pub write_registers : Writes Conn ℕ
  pub write_coils : Writes Conn Bool

-- The array of a write of several values: whether ptk_alloc gives it, what its create function
-- answers, and whether an append succeeds, which is not tested.
pub record Arrays : Type 0 where
  pub allocated : Bool
  pub created : PtkErr
  pub appends : ℕ → Bool

module _ {A : Type 0} where
  -- The loop that prints the values from index `i` on, with `left` rounds to go.
  unfoldable pub print_values : ℕ → ℕ → ℕ → List A → List (ℕ × A)
  print_values zero i address values = []
  print_values (suc left) i address values =
      let rest = print_values left (i + 1) address values in
      elim (get_elem? values i) [ none ↦ rest | some value ↦ (address + i, value) ∷ rest ]

  -- The loop that appends the values from index `i` on; `none` is a read outside the array.
  unfoldable pub append_values : (ℕ → Bool) → ℕ → ℕ → List A → List A → Option (List A)
  append_values appends zero i values array = some array
  append_values appends (suc left) i values array = elim (get_elem? values i) [
    | none ↦ none
    | some value ↦
        append_values appends left (i + 1) values
          (if appends i then array ++ (value ∷ []) else array)
  ]

module _ {Conn A : Type 0} where
  -- What the four functions that read do, over the requests of their kind.
  unfoldable pub execute_read : Reads Conn A → ℕ → ℕ → Conn → PtkErr × List (ℕ × A) × Conn
  execute_read reads address count conn = if count == 1 then read_one else read_many
    where
      read_one : PtkErr × List (ℕ × A) × Conn
      read_one =
          let (err, conn) = reads.send_one conn address in
          if not (is_ok err)
          then (err, [], conn)
          else let (err, value, conn) = reads.recv_one conn in
            if not (is_ok err) then (err, [], conn) else (ok, (address, value) ∷ [], conn)

      read_many : PtkErr × List (ℕ × A) × Conn
      read_many =
          let (err, conn) = reads.send_many conn address count in
          if not (is_ok err)
          then (err, [], conn)
          else let (err, values, conn) = reads.recv_many conn in
            if not (is_ok err)
            then (err, [], conn)
            else (ok, print_values count 0 address values, conn)

  -- What the two functions that write do; an array that is not there is NULL.
  unfoldable pub execute_write :
      Writes Conn A → Arrays → ℕ → Option (List A) → ℕ → Conn → Option (PtkErr × Conn)
  execute_write writes arrays address write_values n conn =
      if n == 1
      then write_one
      else if not arrays.allocated
      then some (no_resources, conn)
      else if not (is_ok arrays.created)
      then some (arrays.created, conn)
      else write_many
    where
      write_one : Option (PtkErr × Conn)
      write_one = do
        values ← write_values
        value ← get_elem? values 0
        let (err, conn) = writes.send_one conn address value
        some (if not (is_ok err) then (err, conn) else writes.recv_one conn)

      write_many : Option (PtkErr × Conn)
      write_many = do
        values ← write_values
        array ← append_values arrays.appends n 0 values []
        let (err, conn) = writes.send_many conn address array
        some (if not (is_ok err) then (err, conn) else writes.recv_many conn)

-- What is printed: registers, coils, or nothing.
pub data Printed : Type 0 where
  registers : List (ℕ × ℕ) → Printed
  bits : List (ℕ × Bool) → Printed
  nothing : Printed

-- The switch of run_client.
unfoldable pub execute :
    {Conn Word : Type 0}
    → Api Conn
    → Arrays
    → ClientConfig Word
    → Operation
    → Conn
    → Option (PtkErr × Printed × Conn)
execute api arrays config read_holding conn =
    let (err, values, conn) =
      execute_read api.holding_registers config.start_address config.count conn in
    some (err, registers values, conn)
execute api arrays config read_input conn =
    let (err, values, conn) =
      execute_read api.input_registers config.start_address config.count conn in
    some (err, registers values, conn)
execute api arrays config read_coils conn =
    let (err, values, conn) = execute_read api.coils config.start_address config.count conn in
    some (err, bits values, conn)
execute api arrays config read_discrete conn =
    let (err, values, conn) =
      execute_read api.discrete_inputs config.start_address config.count conn in
    some (err, bits values, conn)
execute api arrays config write_holding conn = do
  (err, conn) ←
      execute_write api.write_registers arrays config.start_address config.write_values
        config.write_values_count conn
  some (err, nothing, conn)
execute api arrays config write_holding_multiple conn = do
  (err, conn) ←
      execute_write api.write_registers arrays config.start_address config.write_values
        config.write_values_count conn
  some (err, nothing, conn)
execute api arrays config write_coil conn = do
  (err, conn) ←
      execute_write api.write_coils arrays config.start_address config.write_coil_values
        config.write_values_count conn
  some (err, nothing, conn)
execute api arrays config write_coils_multiple conn = do
  (err, conn) ←
      execute_write api.write_coils arrays config.start_address config.write_coil_values
        config.write_values_count conn
  some (err, nothing, conn)
