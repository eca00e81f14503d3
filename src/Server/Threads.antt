-- ===== src/Server/Threads.antt =====
-- examples/modbus/server/modbus_server_threaded.c: start_server's accept loop, the client threads
-- (client_thread_handler) and the signal handler, interleaved in any order. Each step is a part of
-- the code that touches the shared state once: the count of clients under its mutex, a table under
-- its mutex in handle_client_request, or should_shutdown. The lines that only log or sleep are left
-- out. The connection that is accepted is any.
pub mod Stop
pub mod Inv
pub mod Tables
pub mod Drain
pub mod Made
use protocol_toolkit.Prelude.{
  ℕ, ◌+◌, ◌-◌, ◌<◌, ◌≤◌, Bool, true, false, Option, none, some, List, [], ◌∷◌, ◌++◌, get_elem?, set,
  ◌≡◌, ◌≢◌,
}
use protocol_toolkit.Server.{Api, Store, Status, served, lost, handle_client_request}

-- Where a client thread is: at the test of its loop; in handle_client_request; behind the loop;
-- behind `active_clients--`, where it unlocks the mutex, logs and returns; or ended.
pub data Phase (Conn : Type 0) : Type 0 where
  checking : Conn → Phase Conn
  handling : Conn → Phase Conn
  closing : Conn → Phase Conn
  leaving : Phase Conn
  gone : Phase Conn

-- Where start_server is: at the test of its loop; after reading the count of clients; after counting
-- a client; after a thread could not be created; in the loop that waits for the threads; at its end.
pub data MainPc (Conn : Type 0) : Type 0 where
  accepting : MainPc Conn
  counted : ℕ → MainPc Conn
  admitted : Conn → MainPc Conn
  undoing : MainPc Conn
  draining : MainPc Conn
  stopped : MainPc Conn

pub record Sys (Conn : Type 0) : Type 0 where
  pub store : Store
  pub active_clients : ℕ
  pub should_shutdown : Bool
  pub main : MainPc Conn
  pub threads : List (Phase Conn)

abbrev pub max_clients : ℕ
max_clients = 10

module _ {Conn : Type 0} where
  abbrev pub init : Store → Sys Conn
  init store = record {
    store = store;
    active_clients = 0;
    should_shutdown = false;
    main = accepting;
    threads = [];
  }

  abbrev pub at_main : Sys Conn → MainPc Conn → Sys Conn
  at_main s pc = record s { main = pc }

  abbrev pub at_thread : Sys Conn → ℕ → Phase Conn → Sys Conn
  at_thread s i p = record s { threads = set s.threads i p }

-- In `refused` there is no buffer, no connection or no context; in `failed` there is no thread.
pub data Step {Conn : Type 0} (api : Api Conn) (s : Sys Conn) : Sys Conn → Type 0 where
  signal : Step api s (record s { should_shutdown = true })
  look :
      s.main ≡ accepting
      → s.should_shutdown ≡ false
      → Step api s (at_main s (counted s.active_clients))
  full : (n : ℕ) → s.main ≡ counted n → max_clients ≤ n → Step api s (at_main s accepting)
  refused : (n : ℕ) → s.main ≡ counted n → n < max_clients → Step api s (at_main s accepting)
  admit :
      (n : ℕ) (conn : Conn)
      → s.main ≡ counted n
      → n < max_clients
      → Step api s (record s { active_clients = s.active_clients + 1; main = admitted conn })
  started :
      (conn : Conn)
      → s.main ≡ admitted conn
      → Step api s (record s { main = accepting; threads = s.threads ++ (checking conn ∷ []) })
  failed : (conn : Conn) → s.main ≡ admitted conn → Step api s (at_main s undoing)
  undone :
      s.main ≡ undoing
      → Step api s (record s { active_clients = s.active_clients - 1; main = accepting })
  loop_end : s.main ≡ accepting → s.should_shutdown ≡ true → Step api s (at_main s draining)
  wait_more : s.main ≡ draining → s.active_clients ≢ 0 → Step api s s
  finished : s.main ≡ draining → s.active_clients ≡ 0 → Step api s (at_main s stopped)
  enter :
      (i : ℕ) (conn : Conn)
      → get_elem? s.threads i ≡ some (checking conn)
      → s.should_shutdown ≡ false
      → Step api s (at_thread s i (handling conn))
  leave :
      (i : ℕ) (conn : Conn)
      → get_elem? s.threads i ≡ some (checking conn)
      → s.should_shutdown ≡ true
      → Step api s (at_thread s i (closing conn))
  handled :
      (i : ℕ) (conn conn' : Conn) (store : Store)
      → get_elem? s.threads i ≡ some (handling conn)
      → handle_client_request api conn s.store ≡ some (served, conn', store)
      → Step api s (at_thread (record s { store = store }) i (checking conn'))
  disconnected :
      (i : ℕ) (conn conn' : Conn) (store : Store)
      → get_elem? s.threads i ≡ some (handling conn)
      → handle_client_request api conn s.store ≡ some (lost, conn', store)
      → Step api s (at_thread (record s { store = store }) i (closing conn'))
  done :
      (i : ℕ) (conn : Conn)
      → get_elem? s.threads i ≡ some (closing conn)
      → Step api s (at_thread (record s { active_clients = s.active_clients - 1 }) i leaving)
  ended : (i : ℕ) → get_elem? s.threads i ≡ some leaving → Step api s (at_thread s i gone)

-- The states of a server that starts with the store.
pub data Reach {Conn : Type 0} (api : Api Conn) (store : Store) : Sys Conn → Type 0 where
  start : Reach api store (init store)
  later : {s t : Sys Conn} → Reach api store s → Step api s t → Reach api store t
