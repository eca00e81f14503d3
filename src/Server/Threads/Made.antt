-- ===== src/Server/Threads/Made.antt =====
-- A server from its creation on.
use protocol_toolkit.Prelude.{
  ℕ, Option, none, some, get_elem?, ◌<◌, ◌≡◌, refl, sym, ap, ◌∙◌, inl, inr, lt→ltb, arith,
}
use protocol_toolkit.Heap.{Grants}
use protocol_toolkit.Thread.{Posix}
use protocol_toolkit.Server.{Api, Store}
use protocol_toolkit.Server.Create.{ServerConfig, input_value, discrete_value, create_server_state}
use protocol_toolkit.Server.Create.Laws.{initial, create_server_state_lem}
use protocol_toolkit.Server.Refine.{Holds}
use protocol_toolkit.Server.Threads.{Sys, Reach}
use protocol_toolkit.Server.Threads.Tables.{served_in_turn}

-- The store of a made state.
made : Option (Option Store) → Store → Store
made (some (some store)) d = store
made _ d = d

is_made : Option (Option Store) → Option Store
is_made none = none
is_made (some o) = o

created-Holds :
    (grants : Grants) (posix : Posix) (call : ℕ) (config : ServerConfig) (store : Store)
    → create_server_state grants posix call config ≡ some (some store)
    → Holds store (initial config)
unfolding made is_made
created-Holds grants posix call config store e =
    elim (create_server_state_lem grants posix call config) [
      | inl (f, r) ↦
          let no : none ≡ some store = ap is_made (sym f ∙ e) in absurd (ground (arith, no))
      | inr (store', f, h) ↦
          let same : store' ≡ store = ap (λ o. made o store) (sym f ∙ e) in rw (sym same) h
    ]

-- Whatever the clients send, and however the threads of a server that create_server_state made
-- interleave, the input register `i` is i + 2000 modulo 2^16, and the discrete input `i` is set
-- where 3 divides `i`.
pub created_inputs :
    {Conn : Type 0} (api : Api Conn) (grants : Grants) (posix : Posix) (call : ℕ)
    (config : ServerConfig) (store : Store) (s : Sys Conn)
    → create_server_state grants posix call config ≡ some (some store)
    → Reach api store s
    → ((i : ℕ)
        → i < config.num_input_regs
        → get_elem? s.store.input_registers i ≡ some (input_value i))
      × ((i : ℕ)
          → i < config.num_discrete_inputs
          → get_elem? s.store.discrete_inputs i ≡ some (discrete_value i))
created_inputs api grants posix call config store s e r =
    let (h, input, discrete) =
      served_in_turn api (initial config) store s (created-Holds grants posix call config store e)
        r in
    (
      λ i l. h.input.lookup i ∙ ap (λ f. f i) input ∙ rw (lt→ltb i config.num_input_regs l) refl,
      λ i l.
          h.discrete.lookup i
          ∙ ap (λ f. f i) discrete
          ∙ rw (lt→ltb i config.num_discrete_inputs l) refl,
    )
