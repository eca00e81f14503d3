-- ===== src/Server.antt =====
-- examples/modbus/server/modbus_server_threaded.c: the store of registers and coils, and how a
-- request is served. The functions that receive a request and send a response
-- (server_recv_... and server_send_...) are not in the repository: they are the parameter `Api`,
-- over any type of connections. Each returns the connection after the call. The mutexes are left
-- out here: a request reaches a table once, under that table's mutex (Threads has the threads).
pub mod Args
pub mod Create
pub mod Spec
pub mod Refine
pub mod Threads
use protocol_toolkit.Prelude.{
  ℕ, ◌+◌, ◌%◌, ◌^◌, ◌<◌, Bool, true, false, not, Option, none, some, List, [], ◌∷◌, ltb,
  if◌then◌else◌, ◌==◌, ◌>>=◌, get_elem?, set, length,
}
use protocol_toolkit.Err.{PtkErr, is_ok}

-- A receiving function answers with an error, what it received, and the connection.
pub record Api (Conn : Type 0) : Type 0 where
  pub recv_read_holding_register_req : Conn → PtkErr × ℕ × Conn
  pub recv_write_holding_register_req : Conn → PtkErr × ℕ × ℕ × Conn
  pub recv_read_input_register_req : Conn → PtkErr × ℕ × Conn
  pub recv_read_coil_req : Conn → PtkErr × ℕ × Conn
  pub recv_write_coil_req : Conn → PtkErr × ℕ × Bool × Conn
  pub recv_read_discrete_input_req : Conn → PtkErr × ℕ × Conn
  pub send_read_holding_register_resp : Conn → ℕ → PtkErr × Conn
  pub send_write_holding_register_resp : Conn → PtkErr × Conn
  pub send_read_input_register_resp : Conn → ℕ → PtkErr × Conn
  pub send_read_coil_resp : Conn → Bool → PtkErr × Conn
  pub send_write_coil_resp : Conn → PtkErr × Conn
  pub send_read_discrete_input_resp : Conn → Bool → PtkErr × Conn
  pub send_exception_resp : Conn → ℕ → ℕ → PtkErr × Conn

-- modbus_server_state without its mutexes, connection and counters. A table that was not
-- allocated is empty.
pub record Store : Type 0 where
  pub holding_registers : List ℕ
  pub num_holding_regs : ℕ
  pub input_registers : List ℕ
  pub num_input_regs : ℕ
  pub coils : List Bool
  pub num_coils : ℕ
  pub discrete_inputs : List Bool
  pub num_discrete_inputs : ℕ

abbrev pub illegal_function : ℕ
illegal_function = 0x01

abbrev pub illegal_data_address : ℕ
illegal_data_address = 0x02

-- handle_client_request's result: 0, or -1, which ends the connection.
pub data Status : Type 0 where
  served : Status
  lost : Status

-- What a handler leaves; `none` is an access outside a table.
abbrev pub Served : Type 0 → Type 0
Served Conn = Option (Status × Conn × Store)

module _ {Conn : Type 0} where
  -- The error test after a response.
  unfoldable pub finish : Store → PtkErr × Conn → Served Conn
  finish store (err, conn) =
      if is_ok err then some (served, conn, store) else some (lost, conn, store)

module _ {Conn : Type 0} (api : Api Conn) where
  unfoldable pub read_holding_register : Store → ℕ → Conn → Served Conn
  read_holding_register store addr conn =
      if not (ltb addr store.num_holding_regs)
      then finish store (api.send_exception_resp conn 0x03 illegal_data_address)
      else do
        value ← get_elem? store.holding_registers addr
        finish store (api.send_read_holding_register_resp conn value)

  unfoldable pub write_holding_register : Store → ℕ → ℕ → Conn → Served Conn
  write_holding_register store addr value conn =
      if ltb addr store.num_holding_regs
      then if ltb addr (length store.holding_registers)
        then finish (record store { holding_registers = set store.holding_registers addr value })
            (api.send_write_holding_register_resp conn)
        else none
      else finish store (api.send_exception_resp conn 0x06 illegal_data_address)

  unfoldable pub read_input_register : Store → ℕ → Conn → Served Conn
  read_input_register store addr conn =
      if not (ltb addr store.num_input_regs)
      then finish store (api.send_exception_resp conn 0x04 illegal_data_address)
      else do
        value ← get_elem? store.input_registers addr
        finish store (api.send_read_input_register_resp conn value)

  unfoldable pub read_coil : Store → ℕ → Conn → Served Conn
  read_coil store addr conn =
      if not (ltb addr store.num_coils)
      then finish store (api.send_exception_resp conn 0x01 illegal_data_address)
      else do value ← get_elem? store.coils addr; finish store (api.send_read_coil_resp conn value)

  unfoldable pub write_coil : Store → ℕ → Bool → Conn → Served Conn
  write_coil store addr value conn =
      if ltb addr store.num_coils
      then if ltb addr (length store.coils)
        then finish (record store { coils = set store.coils addr value })
            (api.send_write_coil_resp conn)
        else none
      else finish store (api.send_exception_resp conn 0x05 illegal_data_address)

  unfoldable pub read_discrete_input : Store → ℕ → Conn → Served Conn
  read_discrete_input store addr conn =
      if not (ltb addr store.num_discrete_inputs)
      then finish store (api.send_exception_resp conn 0x02 illegal_data_address)
      else do
        value ← get_elem? store.discrete_inputs addr
        finish store (api.send_read_discrete_input_resp conn value)

  -- A request is tried as one kind after the other; one that is none of them ends the connection.
  unfoldable pub handle_client_request : Conn → Store → Served Conn
  handle_client_request conn store =
      let (err, addr, conn) = api.recv_read_holding_register_req conn in
      if is_ok err
      then read_holding_register store addr conn
      else let (err, addr, value, conn) = api.recv_write_holding_register_req conn in
        if is_ok err
        then write_holding_register store addr value conn
        else let (err, addr, conn) = api.recv_read_input_register_req conn in
          if is_ok err
          then read_input_register store addr conn
          else let (err, addr, conn) = api.recv_read_coil_req conn in
            if is_ok err
            then read_coil store addr conn
            else let (err, addr, value, conn) = api.recv_write_coil_req conn in
              if is_ok err
              then write_coil store addr value conn
              else let (err, addr, conn) = api.recv_read_discrete_input_req conn in
                if is_ok err
                then read_discrete_input store addr conn
                else some (lost, (api.send_exception_resp conn 0x00 illegal_function).1, store)
