-- ===== src/Tests/Servers.antt =====
-- The threaded Modbus server.
use protocol_toolkit.Prelude.{
  ℕ, ◌+◌, ◌<◌, ◌≤◌, true, false, none, some, [], ◌∷◌, get_elem?, ◌≡◌, refl, arith, ◌⊎◌, inl,
}
use protocol_toolkit.Prelude.Memory.{zeros}
use protocol_toolkit.Err.{ok, protocol_error}
use protocol_toolkit.Heap.{obtain}
use protocol_toolkit.Thread.{Posix, mutex_create}
use protocol_toolkit.Server.{
  Api, Store, served, finish, write_holding_register, handle_client_request,
}
use protocol_toolkit.Server.Spec
use protocol_toolkit.Server.Refine.{Holds, IsServed, handle_refines}
use protocol_toolkit.Server.Create.{
  ServerConfig, create_server_state, make_table, fill, input_value, discrete_value,
}
use protocol_toolkit.Server.Create.Laws.{initial, Refused, create_server_state_lem}
use protocol_toolkit.Server.Threads.{
  Sys, Reach, max_clients, accepting, stopped, checking, closing, leaving, Step, gone, start, later,
  look, admit, started, signal, leave, done, loop_end, finished, enter, handled, Phase,
}
use protocol_toolkit.Server.Threads.Inv.{live, pending, Reach-count, stopped_alone, count_down}
use protocol_toolkit.Server.Threads.Tables.{after, requests_of, served_in_turn}
use protocol_toolkit.Server.Threads.Drain.{Steps, steps_left, steps_left_decreases, server_drains}
use protocol_toolkit.Server.Threads.Made.{created_inputs}
use protocol_toolkit.Tests.Data.{grants}

-- Connections are numbers; each request writes 77 to the holding register 1.
abbrev api : Api ℕ
api = record {
  recv_read_holding_register_req = λ conn. (protocol_error, 0, conn);
  recv_write_holding_register_req = λ conn. (ok, 1, 77, conn);
  recv_read_input_register_req = λ conn. (protocol_error, 0, conn);
  recv_read_coil_req = λ conn. (protocol_error, 0, conn);
  recv_write_coil_req = λ conn. (protocol_error, 0, false, conn);
  recv_read_discrete_input_req = λ conn. (protocol_error, 0, conn);
  send_read_holding_register_resp = λ conn value. (ok, conn);
  send_write_holding_register_resp = λ conn. (ok, conn);
  send_read_input_register_resp = λ conn value. (ok, conn);
  send_read_coil_resp = λ conn value. (ok, conn);
  send_write_coil_resp = λ conn. (ok, conn);
  send_read_discrete_input_resp = λ conn value. (ok, conn);
  send_exception_resp = λ conn code reason. (ok, conn);
}

abbrev config : ServerConfig
config = record { num_holding_regs = 2; num_input_regs = 1; num_coils = 1; num_discrete_inputs = 1 }

abbrev store : Store
store = record {
  holding_registers = 1000 ∷ 1001 ∷ [];
  num_holding_regs = 2;
  input_registers = 2000 ∷ [];
  num_input_regs = 1;
  coils = true ∷ [];
  num_coils = 1;
  discrete_inputs = true ∷ [];
  num_discrete_inputs = 1;
}

abbrev tables : Spec.Tables
tables = record {
  holding = get_elem? (1000 ∷ 1001 ∷ []);
  input = get_elem? (2000 ∷ []);
  coil = get_elem? (true ∷ []);
  discrete = get_elem? (true ∷ []);
}

store-Holds : Holds store tables
store-Holds = record {
  holding = record { size = refl; lookup = λ i. refl };
  input = record { size = refl; lookup = λ i. refl };
  coil = record { size = refl; lookup = λ i. refl };
  discrete = record { size = refl; lookup = λ i. refl };
}

abbrev posix : Posix
posix = record {
  mutexattr_init = λ call. 0;
  mutexattr_settype = λ call. 0;
  mutex_init = λ call. 0;
  trylock = λ call. 0;
  lock = λ call. 0;
  unlock = λ call. 0;
  cond_init = λ call. 0;
  cond_signal = λ call. 0;
  cond_wait = λ call. 0;
  cond_timedwait = λ call deadline. 0;
  thread_create = λ call. 0;
  thread_join = λ call. 0;
  now = λ call. record { sec = call; usec = 0 };
}

-- The server with one thread, at the test of its loop.
abbrev serving : Sys ℕ
serving = record {
  store = store;
  active_clients = 1;
  should_shutdown = false;
  main = accepting;
  threads = checking 5 ∷ [];
}

serving-Reach : Reach api store serving
serving-Reach =
    later (later (later start (look refl refl)) (admit 0 5 refl (omega arith))) (started 5 refl)

abbrev written : Store
written = record store { holding_registers = 1000 ∷ 77 ∷ [] }

abbrev answered : Sys ℕ
answered = record serving { store = written }

write_handled : handle_client_request api 5 store ≡ some (served, 5, written)
unfolding handle_client_request write_holding_register finish
write_handled = refl

answered-Reach : Reach api store answered
answered-Reach =
    later (later serving-Reach (enter 0 5 refl refl)) (handled 0 5 5 written refl write_handled)

abbrev closing_down : Sys ℕ
closing_down = record answered { should_shutdown = true; threads = closing 5 ∷ [] }

closing_down-Reach : Reach api store closing_down
closing_down-Reach = later (later answered-Reach signal) (leave 0 5 refl refl)

abbrev at_the_end : Sys ℕ
at_the_end = record closing_down { active_clients = 0; main = stopped; threads = leaving ∷ [] }

at_the_end-Reach : Reach api store at_the_end
at_the_end-Reach =
    later (later (later closing_down-Reach (done 0 5 refl)) (loop_end refl refl))
      (finished refl refl)

store_made : create_server_state grants posix 0 config ≡ some (some store)
unfolding create_server_state make_table fill obtain mutex_create zeros
store_made = refl

handle_refines_example :
    IsServed api
      (handle_client_request api 5 store)
      (Spec.received api 5).0
      tables
      (Spec.received api 5).1
handle_refines_example = handle_refines api store tables 5 store-Holds

served_in_turn_example :
    Holds answered.store (after (requests_of api answered-Reach) tables)
    × ((after (requests_of api answered-Reach) tables).input ≡ tables.input)
    × ((after (requests_of api answered-Reach) tables).discrete ≡ tables.discrete)
served_in_turn_example = served_in_turn api tables store answered store-Holds answered-Reach

stopped_alone_example :
    ((i : ℕ) (p : Phase ℕ) → get_elem? at_the_end.threads i ≡ some p → (p ≡ leaving) ⊎ (p ≡ gone))
    × ((t : Sys ℕ)
        → Step api at_the_end t
        → (t.store ≡ at_the_end.store) × (t.active_clients ≡ 0) × (t.main ≡ stopped))
stopped_alone_example = stopped_alone at_the_end-Reach refl

Reach-count_example :
    (closing_down.active_clients ≡ live closing_down.threads + pending closing_down.main)
    × (closing_down.active_clients ≤ max_clients)
Reach-count_example = Reach-count closing_down-Reach

count_down_example : 0 < closing_down.active_clients
count_down_example = count_down closing_down-Reach (inl (0, 5, refl))

steps_left_decreases_example :
    (record closing_down { active_clients = 0; threads = leaving ∷ [] } ≡ closing_down)
    ⊎ (steps_left (record closing_down { active_clients = 0; threads = leaving ∷ [] })
        < steps_left closing_down)
steps_left_decreases_example = steps_left_decreases {api = api} (done 0 5 refl) refl

server_drains_example :
    (s' : Sys ℕ) × Steps api (record answered { should_shutdown = true }) s' × (s'.main ≡ stopped)
server_drains_example = server_drains store tables store-Holds answered answered-Reach

create_server_state_lem_example :
    ((create_server_state grants posix 0 config ≡ some none) × Refused grants posix)
    ⊎ ((store : Store) × (create_server_state grants posix 0 config ≡ some (some store))
        × Holds store (initial config))
create_server_state_lem_example = create_server_state_lem grants posix 0 config

created_inputs_example :
    ((i : ℕ)
      → i < config.num_input_regs
      → get_elem? answered.store.input_registers i ≡ some (input_value i))
    × ((i : ℕ)
        → i < config.num_discrete_inputs
        → get_elem? answered.store.discrete_inputs i ≡ some (discrete_value i))
created_inputs_example =
    created_inputs api grants posix 0 config store answered store_made answered-Reach
