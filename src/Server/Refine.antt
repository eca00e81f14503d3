-- ===== src/Server/Refine.antt =====
-- The server's handler does what Spec promises.
use protocol_toolkit.Prelude.{
  ℕ, ◌<◌, ◌≤◌, Bool, Option, none, some, List, if◌then◌else◌, get_elem?, set, length, ◌≡◌, refl,
  ◌∙◌, sym, arith, ◌⊎◌, inl, inr, lt→ltb, le→ltb, Bool-cases, get_elem?-cases, length-set,
  get_elem?-set_self, get_elem?-set_ne, ==-false_of_ne, ==-self, ℕ_discrete,
}
use protocol_toolkit.Err.{PtkErr, is_ok}
use protocol_toolkit.Server.{
  Api, Store, served, lost, Served, finish, read_holding_register, write_holding_register,
  read_input_register, read_coil, write_coil, read_discrete_input, handle_client_request,
}
use protocol_toolkit.Server.Spec

-- The list holds the table, and is as long as the number kept beside it says.
pub record IsTable {ℓ} {A : Type ℓ} (xs : List A) (n : ℕ) (f : ℕ → Option A) : Type ℓ where
  pub size : length xs ≡ n
  pub lookup : (i : ℕ) → get_elem? xs i ≡ f i

pub record Holds (store : Store) (t : Spec.Tables) : Type 0 where
  pub holding : IsTable store.holding_registers store.num_holding_regs t.holding
  pub input : IsTable store.input_registers store.num_input_regs t.input
  pub coil : IsTable store.coils store.num_coils t.coil
  pub discrete : IsTable store.discrete_inputs store.num_discrete_inputs t.discrete

module _ {ℓ} {A : Type ℓ} where
  found :
      {xs : List A} {n : ℕ} {f : ℕ → Option A}
      → IsTable xs n f
      → (i : ℕ)
      → ((i < n) × ((a : A) × (get_elem? xs i ≡ some a) × (f i ≡ some a)))
        ⊎ ((n ≤ i) × (f i ≡ none))
  found {xs} t i = elim (get_elem?-cases xs i) [
    | inl (h, (a, e)) ↦ inl (omega (arith, t.size), (a, e, sym (t.lookup i) ∙ e))
    | inr (h, e) ↦ inr (omega (arith, t.size), sym (t.lookup i) ∙ e)
  ]

  updated :
      {xs : List A} {n : ℕ} {f : ℕ → Option A}
      → IsTable xs n f
      → (i : ℕ) (v : A) → i < n
      → IsTable (set xs i v) n (Spec.update f i v)
  updated {xs} {n} {f} t i v h = record { size = length-set xs i v ∙ t.size; lookup = at }
    where
      at : (j : ℕ) → get_elem? (set xs i v) j ≡ Spec.update f i v j
      at j = elim (ℕ_discrete j i) [
        | yes e ↦ rw (e, ==-self i) (get_elem?-set_self xs i v (omega (arith, t.size)))
        | no ne ↦
            rw (==-false_of_ne j i ne) (get_elem?-set_ne xs i j v (λ e. ne (sym e)) ∙ t.lookup j)
      ]

module _ {Conn : Type 0} (api : Api Conn) where
  -- What a handler leaves is what Spec says for the request.
  abbrev pub IsServed : Served Conn → Spec.Request → Spec.Tables → Conn → Type 0
  IsServed outcome request t conn =
      let (err, conn') = Spec.send api (Spec.respond request t).0 conn in
      (store : Store) × (outcome ≡ some (Spec.status request err, conn', store))
      × Holds store (Spec.respond request t).1

  finish_lem :
      (store : Store) (sent : PtkErr × Conn)
      → finish store sent ≡ some (if is_ok sent.0 then served else lost, sent.1, store)
  unfolding finish
  finish_lem store (err, conn) = elim (Bool-cases (is_ok err)) [
    | inl e ↦ rw e refl
    | inr e ↦ rw e refl
  ]

  module _ (store : Store) (t : Spec.Tables) (conn : Conn) (h : Holds store t) where
    read_holding_register_lem :
        (a : ℕ)
        → IsServed (read_holding_register api store a conn) (Spec.Request.read_holding a) t conn
    unfolding read_holding_register
    read_holding_register_lem a = elim (found h.holding a) [
      | inl (l, (v, e, f)) ↦
          rw (lt→ltb a store.num_holding_regs l, e, f) (store, finish_lem store _, h)
      | inr (l, f) ↦ rw (le→ltb a store.num_holding_regs l, f) (store, finish_lem store _, h)
    ]

    write_holding_register_lem :
        (a : ℕ) (v : ℕ)
        → IsServed
            (write_holding_register api store a v conn)
            (Spec.Request.write_holding a v)
            t
            conn
    unfolding write_holding_register
    write_holding_register_lem a v = elim (found h.holding a) [
      | inl (l, (w, e, f)) ↦
          let size : length store.holding_registers ≡ store.num_holding_regs = h.holding.size in
          rw (size, lt→ltb a store.num_holding_regs l, f)
            (
              record store { holding_registers = set store.holding_registers a v },
              finish_lem _ _,
              record {
                holding = updated h.holding a v l;
                input = h.input;
                coil = h.coil;
                discrete = h.discrete;
              },
            )
      | inr (l, f) ↦ rw (le→ltb a store.num_holding_regs l, f) (store, finish_lem store _, h)
    ]

    read_input_register_lem :
        (a : ℕ) → IsServed (read_input_register api store a conn) (Spec.Request.read_input a) t conn
    unfolding read_input_register
    read_input_register_lem a = elim (found h.input a) [
      | inl (l, (v, e, f)) ↦
          rw (lt→ltb a store.num_input_regs l, e, f) (store, finish_lem store _, h)
      | inr (l, f) ↦ rw (le→ltb a store.num_input_regs l, f) (store, finish_lem store _, h)
    ]

    read_coil_lem :
        (a : ℕ) → IsServed (read_coil api store a conn) (Spec.Request.read_coil a) t conn
    unfolding read_coil
    read_coil_lem a = elim (found h.coil a) [
      | inl (l, (v, e, f)) ↦ rw (lt→ltb a store.num_coils l, e, f) (store, finish_lem store _, h)
      | inr (l, f) ↦ rw (le→ltb a store.num_coils l, f) (store, finish_lem store _, h)
    ]

    write_coil_lem :
        (a : ℕ) (v : Bool)
        → IsServed (write_coil api store a v conn) (Spec.Request.write_coil a v) t conn
    unfolding write_coil
    write_coil_lem a v = elim (found h.coil a) [
      | inl (l, (w, e, f)) ↦
          let size : length store.coils ≡ store.num_coils = h.coil.size in
          rw (size, lt→ltb a store.num_coils l, f)
            (
              record store { coils = set store.coils a v },
              finish_lem _ _,
              record {
                holding = h.holding;
                input = h.input;
                coil = updated h.coil a v l;
                discrete = h.discrete;
              },
            )
      | inr (l, f) ↦ rw (le→ltb a store.num_coils l, f) (store, finish_lem store _, h)
    ]

    read_discrete_input_lem :
        (a : ℕ)
        → IsServed (read_discrete_input api store a conn) (Spec.Request.read_discrete a) t conn
    unfolding read_discrete_input
    read_discrete_input_lem a = elim (found h.discrete a) [
      | inl (l, (v, e, f)) ↦
          rw (lt→ltb a store.num_discrete_inputs l, e, f) (store, finish_lem store _, h)
      | inr (l, f) ↦ rw (le→ltb a store.num_discrete_inputs l, f) (store, finish_lem store _, h)
    ]

  -- Where the store holds the tables, the handler touches nothing outside them, sends the response
  -- that the specification gives to the request it received, with an exception for an address out
  -- of range, and leaves a store that holds the tables after that request; it answers that the
  -- connection is kept where the request was known and the response was sent.
  pub handle_refines :
      (store : Store) (t : Spec.Tables) (conn : Conn)
      → Holds store t
      → let (request, conn') = Spec.received api conn in
        IsServed (handle_client_request api conn store) request t conn'
  unfolding handle_client_request
  handle_refines store t conn h =
      let (err1, addr1, conn1) = api.recv_read_holding_register_req conn in
      let (err2, addr2, value2, conn2) = api.recv_write_holding_register_req conn1 in
      let (err3, addr3, conn3) = api.recv_read_input_register_req conn2 in
      let (err4, addr4, conn4) = api.recv_read_coil_req conn3 in
      let (err5, addr5, value5, conn5) = api.recv_write_coil_req conn4 in
      let (err6, addr6, conn6) = api.recv_read_discrete_input_req conn5 in
      elim (Bool-cases (is_ok err1)) [
        | inl e1 ↦ rw e1 (read_holding_register_lem store t conn1 h addr1)
        | inr e1 ↦ elim (Bool-cases (is_ok err2)) [
          | inl e2 ↦ rw (e1, e2) (write_holding_register_lem store t conn2 h addr2 value2)
          | inr e2 ↦ elim (Bool-cases (is_ok err3)) [
            | inl e3 ↦ rw (e1, e2, e3) (read_input_register_lem store t conn3 h addr3)
            | inr e3 ↦ elim (Bool-cases (is_ok err4)) [
              | inl e4 ↦ rw (e1, e2, e3, e4) (read_coil_lem store t conn4 h addr4)
              | inr e4 ↦ elim (Bool-cases (is_ok err5)) [
                | inl e5 ↦ rw (e1, e2, e3, e4, e5) (write_coil_lem store t conn5 h addr5 value5)
                | inr e5 ↦ elim (Bool-cases (is_ok err6)) [
                  | inl e6 ↦
                      rw (e1, e2, e3, e4, e5, e6) (read_discrete_input_lem store t conn6 h addr6)
                  | inr e6 ↦ rw (e1, e2, e3, e4, e5, e6) (store, refl, h)
                ]
              ]
            ]
          ]
        ]
      ]
