-- ===== src/Server/Spec.antt =====
-- What a Modbus server promises: tables from addresses to values, and the response to a request.
use protocol_toolkit.Prelude.{ℕ, Bool, Option, none, some, if◌then◌else◌, ◌==◌}
use protocol_toolkit.Err.{PtkErr, is_ok}
use protocol_toolkit.Server.{Api, Status, served, lost, illegal_function, illegal_data_address}

pub record Tables : Type 0 where
  pub holding : ℕ → Option ℕ
  pub input : ℕ → Option ℕ
  pub coil : ℕ → Option Bool
  pub discrete : ℕ → Option Bool

pub data Request : Type 0 where
  read_holding : ℕ → Request
  write_holding : ℕ → ℕ → Request
  read_input : ℕ → Request
  read_coil : ℕ → Request
  write_coil : ℕ → Bool → Request
  read_discrete : ℕ → Request
  unknown : Request

pub data Response : Type 0 where
  holding_is : ℕ → Response
  holding_written : Response
  input_is : ℕ → Response
  coil_is : Bool → Response
  coil_written : Response
  discrete_is : Bool → Response
  exception : ℕ → ℕ → Response

abbrev pub update {ℓ} : {A : Type ℓ} → (ℕ → Option A) → ℕ → A → ℕ → Option A
update f i a j = if j == i then some a else f j

-- The value at an address, or an exception with the request's function code.
abbrev pub read {ℓ} : {A : Type ℓ} → Option A → (A → Response) → ℕ → Tables → Response × Tables
read none found code t = (exception code illegal_data_address, t)
read (some a) found code t = (found a, t)

abbrev pub write {ℓ} : {A : Type ℓ} → Option A → Response → ℕ → Tables → Tables → Response × Tables
write none done code t t' = (exception code illegal_data_address, t)
write (some a) done code t t' = (done, t')

abbrev pub respond : Request → Tables → Response × Tables
respond (read_holding a) t = read (t.holding a) holding_is 0x03 t
respond (write_holding a v) t =
    write (t.holding a) holding_written 0x06 t (record t { holding = update t.holding a v })
respond (read_input a) t = read (t.input a) input_is 0x04 t
respond (read_coil a) t = read (t.coil a) coil_is 0x01 t
respond (write_coil a v) t =
    write (t.coil a) coil_written 0x05 t (record t { coil = update t.coil a v })
respond (read_discrete a) t = read (t.discrete a) discrete_is 0x02 t
respond unknown t = (exception 0x00 illegal_function, t)

module _ {Conn : Type 0} (api : Api Conn) where
  -- The first kind of request that is received.
  abbrev pub received : Conn → Request × Conn
  received conn =
      let (err, addr, conn) = api.recv_read_holding_register_req conn in
      if is_ok err
      then (read_holding addr, conn)
      else let (err, addr, value, conn) = api.recv_write_holding_register_req conn in
        if is_ok err
        then (write_holding addr value, conn)
        else let (err, addr, conn) = api.recv_read_input_register_req conn in
          if is_ok err
          then (read_input addr, conn)
          else let (err, addr, conn) = api.recv_read_coil_req conn in
            if is_ok err
            then (read_coil addr, conn)
            else let (err, addr, value, conn) = api.recv_write_coil_req conn in
              if is_ok err
              then (write_coil addr value, conn)
              else let (err, addr, conn) = api.recv_read_discrete_input_req conn in
                if is_ok err then (read_discrete addr, conn) else (unknown, conn)

  abbrev pub send : Response → Conn → PtkErr × Conn
  send (holding_is v) conn = api.send_read_holding_register_resp conn v
  send holding_written conn = api.send_write_holding_register_resp conn
  send (input_is v) conn = api.send_read_input_register_resp conn v
  send (coil_is v) conn = api.send_read_coil_resp conn v
  send coil_written conn = api.send_write_coil_resp conn
  send (discrete_is v) conn = api.send_read_discrete_input_resp conn v
  send (exception code reason) conn = api.send_exception_resp conn code reason

-- The connection is kept where the request was known and the response was sent.
abbrev pub status : Request → PtkErr → Status
status unknown err = lost
status _ err = if is_ok err then served else lost
