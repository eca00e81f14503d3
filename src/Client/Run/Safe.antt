-- ===== src/Client/Run/Safe.antt =====
-- The operations read only values that are there.
use protocol_toolkit.Prelude.{
  ℕ, zero, suc, ◌+◌, ◌<◌, ◌≤◌, Bool, Option, none, some, List, [], ◌∷◌, ◌++◌, length, if◌then◌else◌,
  ◌==◌, get_elem?-cases, ◌≡◌, refl, arith, inl, inr, Bool-cases,
}
use protocol_toolkit.Err.{PtkErr, is_ok}
use protocol_toolkit.Client.{
  Operation, read_holding, read_input, read_coils, read_discrete, write_holding, write_coil,
  write_holding_multiple, write_coils_multiple, ClientConfig,
}
use protocol_toolkit.Client.Options.{HasValues, IsSupplied, IsReady}
use protocol_toolkit.Client.Run.{
  Writes, Api, Arrays, append_values, execute_write, Printed, execute,
}

module _ {A : Type 0} where
  append_values_lem :
      (appends : ℕ → Bool) (left i : ℕ) (values array : List A)
      → i + left ≤ length values
      → (array' : List A) × (append_values appends left i values array ≡ some array')
  unfolding append_values
  append_values_lem appends zero i values array h = (array, refl)
  append_values_lem appends (suc left) i values array h = elim (get_elem?-cases values i) [
    | inr (l, e) ↦ absurd (omega arith)
    | inl (l, (value, e)) ↦
        let (array', r) =
          append_values_lem appends left (i + 1) values
            (if appends i then array ++ (value ∷ []) else array) (omega arith) in
        (array', rw (append_values, e) r)
  ]

module _ {Conn A : Type 0} where
  execute_write_lem :
      (writes : Writes Conn A) (arrays : Arrays) (address : ℕ) (values : Option (List A)) (n : ℕ)
      (conn : Conn)
      → HasValues values n
      → 0 < n
      → (outcome : PtkErr × Conn) × (execute_write writes arrays address values n conn
          ≡ some outcome)
  unfolding execute_write
  execute_write_lem writes arrays address none n conn h pos = absurd h
  execute_write_lem writes arrays address (some values) n conn h pos = elim (Bool-cases (n == 1)) [
    | inl one ↦ elim (get_elem?-cases values 0) [
      | inr (l, e) ↦ absurd (omega arith)
      | inl (l, (value, e)) ↦ rw (execute_write, one, e) (_, refl)
    ]
    | inr more ↦ elim (Bool-cases arrays.allocated) [
      | inr f ↦ rw (execute_write, more, f) (_, refl)
      | inl f ↦ elim (Bool-cases (is_ok arrays.created)) [
        | inr g ↦ rw (execute_write, more, f, g) (_, refl)
        | inl g ↦
            let (array, e) = append_values_lem arrays.appends n 0 values [] (omega arith) in
            rw (execute_write, more, f, g, e) (_, refl)
      ]
    ]
  ]

-- With a configuration that parse_arguments made ready, the operation of the client reads no value
-- outside its arrays, and none through NULL, whatever the server answers: it comes to a result.
pub execute_lem :
    {Conn Word : Type 0} (api : Api Conn) (arrays : Arrays) (config : ClientConfig Word)
    (conn : Conn)
    → IsReady config
    → (outcome : PtkErr × Printed × Conn) × (execute api arrays config config.operation conn
        ≡ some outcome)
unfolding execute
execute_lem {Conn} api arrays config conn r = go config.operation r.supplied
  where
    go :
        (operation : Operation)
        → IsSupplied config operation
        → (outcome : PtkErr × Printed × Conn) × (execute api arrays config operation conn
            ≡ some outcome)
    go read_holding s = (_, refl)
    go read_input s = (_, refl)
    go read_coils s = (_, refl)
    go read_discrete s = (_, refl)
    go write_holding (h, one) =
        let (outcome, e) =
          execute_write_lem api.write_registers arrays config.start_address config.write_values
            config.write_values_count conn h (omega arith) in
        rw (execute, e) (_, refl)
    go write_holding_multiple (h, pos) =
        let (outcome, e) =
          execute_write_lem api.write_registers arrays config.start_address config.write_values
            config.write_values_count conn h pos in
        rw (execute, e) (_, refl)
    go write_coil (h, one) =
        let (outcome, e) =
          execute_write_lem api.write_coils arrays config.start_address config.write_coil_values
            config.write_values_count conn h (omega arith) in
        rw (execute, e) (_, refl)
    go write_coils_multiple (h, pos) =
        let (outcome, e) =
          execute_write_lem api.write_coils arrays config.start_address config.write_coil_values
            config.write_values_count conn h pos in
        rw (execute, e) (_, refl)
