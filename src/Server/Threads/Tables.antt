-- ===== src/Server/Threads/Tables.antt =====
-- The store while the threads run: every request meets a store that holds tables.
use protocol_toolkit.Prelude.{ℕ, List, [], ◌∷◌, ◌++◌, none, Option, some, ◌≡◌, refl, sym, ap, ◌∙◌}
use protocol_toolkit.Server.{Api, Store, Served, Status, handle_client_request}
use protocol_toolkit.Server.Spec
use protocol_toolkit.Server.Refine.{Holds, handle_refines}
use protocol_toolkit.Server.Threads.{
  Sys, Step, Reach, signal, look, full, refused, admit, started, failed, undone, loop_end,
  wait_more, finished, enter, leave, handled, disconnected, done, ended, start, later,
}

-- The tables after the requests, the last of them first.
abbrev pub after : List Spec.Request → Spec.Tables → Spec.Tables
after [] t = t
after (request ∷ requests) t = (Spec.respond request (after requests t)).1

read-tables :
    {A : Type 0} (o : Option A) (found : A → Spec.Response) (code : ℕ) (t : Spec.Tables)
    → (Spec.read o found code t).1 ≡ t
read-tables none found code t = refl
read-tables (some a) found code t = refl

module _ {B : Type 0} (field : Spec.Tables → B) where
  write-tables :
      {A : Type 0} (o : Option A) (response : Spec.Response) (code : ℕ) (t t' : Spec.Tables)
      → field t' ≡ field t
      → field (Spec.write o response code t t').1 ≡ field t
  write-tables none response code t t' h = refl
  write-tables (some a) response code t t' h = h

-- No request writes these two tables.
respond-inputs :
    (request : Spec.Request) (t : Spec.Tables)
    → ((Spec.respond request t).1.input ≡ t.input)
      × ((Spec.respond request t).1.discrete ≡ t.discrete)
respond-inputs (Spec.Request.read_holding a) t = rw (read-tables (t.holding a)) (refl, refl)
respond-inputs (Spec.Request.write_holding a v) t = (
  write-tables (λ t. t.input) (t.holding a) _ 0x06 t _ refl,
  write-tables (λ t. t.discrete) (t.holding a) _ 0x06 t _ refl,
)
respond-inputs (Spec.Request.read_input a) t = rw (read-tables (t.input a)) (refl, refl)
respond-inputs (Spec.Request.read_coil a) t = rw (read-tables (t.coil a)) (refl, refl)
respond-inputs (Spec.Request.write_coil a v) t = (
  write-tables (λ t. t.input) (t.coil a) _ 0x05 t _ refl,
  write-tables (λ t. t.discrete) (t.coil a) _ 0x05 t _ refl,
)
respond-inputs (Spec.Request.read_discrete a) t = rw (read-tables (t.discrete a)) (refl, refl)
respond-inputs Spec.Request.unknown t = (refl, refl)

pub after-inputs :
    (requests : List Spec.Request) (t : Spec.Tables)
    → ((after requests t).input ≡ t.input) × ((after requests t).discrete ≡ t.discrete)
after-inputs [] t = (refl, refl)
after-inputs (request ∷ requests) t =
    let (a, b) = respond-inputs request (after requests t) in
    let (c, d) = after-inputs requests t in (a ∙ c, b ∙ d)

module _ {Conn : Type 0} (api : Api Conn) where
  -- The request that a step serves.
  abbrev pub request_of : {s t : Sys Conn} → Step api s t → List Spec.Request
  request_of (handled i conn conn' store e f) = (Spec.received api conn).0 ∷ []
  request_of (disconnected i conn conn' store e f) = (Spec.received api conn).0 ∷ []
  request_of _ = []

  -- The requests that the handlers received on the way to a state, the last of them first.
  abbrev pub requests_of : {store : Store} {s : Sys Conn} → Reach api store s → List Spec.Request
  requests_of start = []
  requests_of (later r step) = request_of step ++ requests_of r

  -- The store that a handler leaves.
  left : Served Conn → Store → Store
  left none d = d
  left (some (status, conn, store)) d = store

  handled-after :
      (t : Spec.Tables) (conn conn' : Conn) (store store' : Store) (status : Status)
      → Holds store t
      → handle_client_request api conn store ≡ some (status, conn', store')
      → Holds store' (Spec.respond (Spec.received api conn).0 t).1
  unfolding left
  handled-after t conn conn' store store' status h e =
      let (s, e', h') = handle_refines api store t conn h in
      let same : s ≡ store' = ap (λ o. left o store) (sym e' ∙ e) in rw (sym same) h'

  Step-Holds :
      {s s' : Sys Conn} (t : Spec.Tables) (requests : List Spec.Request) (step : Step api s s')
      → Holds s.store (after requests t)
      → Holds s'.store (after (request_of step ++ requests) t)
  Step-Holds {s} t requests (handled i conn conn' store e f) k =
      handled-after (after requests t) conn conn' s.store store _ k f
  Step-Holds {s} t requests (disconnected i conn conn' store e f) k =
      handled-after (after requests t) conn conn' s.store store _ k f
  Step-Holds t requests signal k = k
  Step-Holds t requests (look e f) k = k
  Step-Holds t requests (full n e l) k = k
  Step-Holds t requests (refused n e l) k = k
  Step-Holds t requests (admit n conn e l) k = k
  Step-Holds t requests (started conn e) k = k
  Step-Holds t requests (failed conn e) k = k
  Step-Holds t requests (undone e) k = k
  Step-Holds t requests (loop_end e f) k = k
  Step-Holds t requests (wait_more e n) k = k
  Step-Holds t requests (finished e n) k = k
  Step-Holds t requests (enter i conn e f) k = k
  Step-Holds t requests (leave i conn e f) k = k
  Step-Holds t requests (done i conn e) k = k
  Step-Holds t requests (ended i e) k = k

  Reach-Holds :
      {store : Store} {s : Sys Conn} (t : Spec.Tables) (r : Reach api store s)
      → Holds store t
      → Holds s.store (after (requests_of r) t)
  Reach-Holds t start h = h
  Reach-Holds t (later r step) h = Step-Holds t (requests_of r) step (Reach-Holds t r h)

  -- However the threads interleave, in every state the store holds exactly the tables that the
  -- specification leaves after the requests that the handlers have received, one after the other
  -- in the order of their steps; and the input registers and the discrete inputs do not change.
  pub served_in_turn :
      (t : Spec.Tables) (store : Store) (s : Sys Conn)
      → Holds store t
      → (r : Reach api store s)
      → Holds s.store (after (requests_of r) t)
        × ((after (requests_of r) t).input ≡ t.input)
        × ((after (requests_of r) t).discrete ≡ t.discrete)
  served_in_turn t store s h r =
      (Reach-Holds t r h, (after-inputs (requests_of r) t).0, (after-inputs (requests_of r) t).1)

  -- Some requests, for those who do not ask which.
  pub served_after :
      (t : Spec.Tables) (store : Store) (s : Sys Conn)
      → Holds store t
      → Reach api store s
      → (requests : List Spec.Request) × Holds s.store (after requests t)
  served_after t store s h r = (requests_of r, (served_in_turn t store s h r).0)
