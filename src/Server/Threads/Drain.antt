-- ===== src/Server/Threads/Drain.antt =====
-- The end of the server after a signal.
use protocol_toolkit.Prelude.{
  ℕ, zero, suc, ◌+◌, ◌<◌, true, some, List, [], ◌∷◌, ◌++◌, get_elem?, set, ◌≡◌, ◌≢◌, refl, ap, sym,
  arith, dec_lt, ◌⊎◌, inl, inr,
}
use protocol_toolkit.Server.{Api, Store, Status, served, lost, handle_client_request}
use protocol_toolkit.Server.Spec
use protocol_toolkit.Server.Refine.{Holds, handle_refines}
use protocol_toolkit.Server.Threads.Tables.{after, served_after}
use protocol_toolkit.Server.Threads.Inv.{live, pending, Reach-count}
use protocol_toolkit.Server.Threads.{
  Phase, checking, handling, closing, leaving, gone, MainPc, accepting, counted, admitted, undoing,
  draining, stopped, Sys, Step, Reach, max_clients, signal, look, full, refused, admit, started,
  failed, undone, loop_end, wait_more, finished, enter, leave, handled, disconnected, done, ended,
  later,
}

module _ {Conn : Type 0} where
  -- What a thread and main have left to do after the signal.
  abbrev thread_steps : Phase Conn → ℕ
  thread_steps (handling conn) = 4
  thread_steps (checking conn) = 3
  thread_steps (closing conn) = 2
  thread_steps leaving = 1
  thread_steps gone = 0

  abbrev main_steps : MainPc Conn → ℕ
  main_steps (counted n) = 7
  main_steps (admitted conn) = 6
  main_steps undoing = 3
  main_steps accepting = 2
  main_steps draining = 1
  main_steps stopped = 0

  abbrev all_steps : List (Phase Conn) → ℕ
  all_steps [] = 0
  all_steps (p ∷ ps) = thread_steps p + all_steps ps

  abbrev pub steps_left : Sys Conn → ℕ
  steps_left s = main_steps s.main + all_steps s.threads

  all_steps-append :
      (ps qs : List (Phase Conn)) → all_steps (ps ++ qs) ≡ all_steps ps + all_steps qs
  all_steps-append [] qs = omega arith
  all_steps-append (p ∷ ps) qs = omega (arith, all_steps-append ps qs)

  all_steps-set :
      (ps : List (Phase Conn)) (i : ℕ) (p q : Phase Conn)
      → get_elem? ps i ≡ some p
      → all_steps (set ps i q) + thread_steps p ≡ all_steps ps + thread_steps q
  all_steps-set [] i p q h = absurd (ground (arith, h))
  all_steps-set (x ∷ ps) zero p q h = let e : x ≡ p = grind (arith, h) in rw e (omega arith)
  all_steps-set (x ∷ ps) (suc i) p q h = omega (arith, all_steps-set ps i p q h)

  find_live :
      (ps : List (Phase Conn))
      → (live ps ≡ 0) ⊎ ((i : ℕ) × (p : Phase Conn) × (get_elem? ps i ≡ some p) × (p ≢ gone))
  find_live [] = inl refl
  find_live (checking conn ∷ ps) = inr (0, checking conn, refl, λ e. absurd (grind (arith, e)))
  find_live (handling conn ∷ ps) = inr (0, handling conn, refl, λ e. absurd (grind (arith, e)))
  find_live (closing conn ∷ ps) = inr (0, closing conn, refl, λ e. absurd (grind (arith, e)))
  find_live (leaving ∷ ps) = elim (find_live ps) [
    | inl e ↦ inl (omega (arith, e))
    | inr (i, p, e, n) ↦ inr (suc i, p, e, n)
  ]
  find_live (gone ∷ ps) = elim (find_live ps) [
    | inl e ↦ inl (omega (arith, e))
    | inr (i, p, e, n) ↦ inr (suc i, p, e, n)
  ]

module _ {Conn : Type 0} {api : Api Conn} where
  -- Once the server is told to shut down, every step leaves less to do, but for the steps that
  -- change nothing: a further signal, and a round of the loop that waits for the threads.
  pub steps_left_decreases :
      {s t : Sys Conn}
      → Step api s t
      → s.should_shutdown ≡ true
      → (t ≡ s) ⊎ (steps_left t < steps_left s)
  steps_left_decreases {s} signal f = inl (ap (λ b. record s { should_shutdown = b }) (sym f))
  steps_left_decreases (look e f) g = absurd (ground (arith, f, g))
  steps_left_decreases (full n e h) f = inr (omega (arith, ap main_steps e))
  steps_left_decreases (refused n e h) f = inr (omega (arith, ap main_steps e))
  steps_left_decreases (admit n conn e h) f = inr (omega (arith, ap main_steps e))
  steps_left_decreases {s} (started conn e) f =
      inr (omega (arith, ap main_steps e, all_steps-append s.threads (checking conn ∷ [])))
  steps_left_decreases (failed conn e) f = inr (omega (arith, ap main_steps e))
  steps_left_decreases (undone e) f = inr (omega (arith, ap main_steps e))
  steps_left_decreases (loop_end e h) f = inr (omega (arith, ap main_steps e))
  steps_left_decreases (wait_more e h) f = inl refl
  steps_left_decreases (finished e h) f = inr (omega (arith, ap main_steps e))
  steps_left_decreases (enter i conn e f) g = absurd (ground (arith, f, g))
  steps_left_decreases {s} (leave i conn e f) g =
      inr (omega (arith, all_steps-set s.threads i (checking conn) (closing conn) e))
  steps_left_decreases {s} (handled i conn conn' store e f) g =
      inr (omega (arith, all_steps-set s.threads i (handling conn) (checking conn') e))
  steps_left_decreases {s} (disconnected i conn conn' store e f) g =
      inr (omega (arith, all_steps-set s.threads i (handling conn) (closing conn') e))
  steps_left_decreases {s} (done i conn e) g =
      inr (omega (arith, all_steps-set s.threads i (closing conn) leaving e))
  steps_left_decreases {s} (ended i e) g =
      inr (omega (arith, all_steps-set s.threads i leaving gone e))

module _ {Conn : Type 0} (api : Api Conn) where
  -- A step that leaves less to do.
  abbrev Progress : Sys Conn → Type 0
  Progress s =
      (s' : Sys Conn) × Step api s s' × (s'.should_shutdown ≡ true) × (steps_left s' < steps_left s)

  handler-Progress :
      (s : Sys Conn) (i : ℕ) (conn conn' : Conn) (status : Status) (store : Store)
      → s.should_shutdown ≡ true
      → get_elem? s.threads i ≡ some (handling conn)
      → handle_client_request api conn s.store ≡ some (status, conn', store)
      → Progress s
  handler-Progress s i conn conn' served store f e h = (
    _,
    handled i conn conn' store e h,
    f,
    omega (arith, all_steps-set s.threads i (handling conn) (checking conn') e),
  )
  handler-Progress s i conn conn' lost store f e h = (
    _,
    disconnected i conn conn' store e h,
    f,
    omega (arith, all_steps-set s.threads i (handling conn) (closing conn') e),
  )

  -- A thread that has not ended has a step to make.
  thread-Progress :
      (s : Sys Conn) (t : Spec.Tables) (i : ℕ) (p : Phase Conn)
      → Holds s.store t
      → s.should_shutdown ≡ true
      → get_elem? s.threads i ≡ some p
      → p ≢ gone
      → Progress s
  thread-Progress s t i (checking conn) h f e n = (
    _,
    leave i conn e f,
    f,
    omega (arith, all_steps-set s.threads i (checking conn) (closing conn) e),
  )
  thread-Progress s t i (handling conn) h f e n =
      let (store, r, k) = handle_refines api s.store t conn h in
      handler-Progress s i conn _ _ store f e r
  thread-Progress s t i (closing conn) h f e n =
      (_, done i conn e, f, omega (arith, all_steps-set s.threads i (closing conn) leaving e))
  thread-Progress s t i leaving h f e n =
      (_, ended i e, f, omega (arith, all_steps-set s.threads i leaving gone e))
  thread-Progress s t i gone h f e n = absurd (n refl)

  main-Progress :
      (s : Sys Conn) (t : Spec.Tables) (pc : MainPc Conn)
      → Holds s.store t
      → s.active_clients ≡ live s.threads + pending s.main
      → s.should_shutdown ≡ true
      → s.main ≡ pc
      → (s.main ≡ stopped) ⊎ Progress s
  main-Progress s t accepting h c f e = inr (_, loop_end e f, f, omega (arith, ap main_steps e))
  main-Progress s t (counted n) h c f e = elim (dec_lt n max_clients) [
    | yes l ↦ inr (_, refused n e l, f, omega (arith, ap main_steps e))
    | no l ↦ inr (_, full n e (omega arith), f, omega (arith, ap main_steps e))
  ]
  main-Progress s t (admitted conn) h c f e =
      inr (_, failed conn e, f, omega (arith, ap main_steps e))
  main-Progress s t undoing h c f e = inr (_, undone e, f, omega (arith, ap main_steps e))
  main-Progress s t draining h c f e = elim (find_live s.threads) [
    | inl none_left ↦
        inr (_, finished e (omega (arith, c, ap pending e)), f, omega (arith, ap main_steps e))
    | inr (i, p, at, n) ↦ inr (thread-Progress s t i p h f at n)
  ]
  main-Progress s t stopped h c f e = inl e

-- Steps one after the other.
pub data Steps {Conn : Type 0} (api : Api Conn) : Sys Conn → Sys Conn → Type 0 where
  none_more : {s : Sys Conn} → Steps api s s
  first : {s t u : Sys Conn} → Step api s t → Steps api t u → Steps api s u

module _ {Conn : Type 0} {api : Api Conn} (store : Store) (t : Spec.Tables)
    (h : Holds store t) where
  drains_in :
      (fuel : ℕ) (s : Sys Conn)
      → Reach api store s
      → s.should_shutdown ≡ true
      → steps_left s < fuel
      → (s' : Sys Conn) × Steps api s s' × (s'.main ≡ stopped)
  drains_in zero s r f l = absurd (omega arith)
  drains_in (suc fuel) s r f l =
      let (requests, k) = served_after api t store s h r in
      elim (main-Progress api s (after requests t) s.main k (Reach-count r).0 f refl) [
        | inl e ↦ (s, none_more, e)
        | inr (s', step, f', less) ↦
            let (s'', steps, e) = drains_in fuel s' (later r step) f' (omega arith) in
            (s'', first step steps, e)
      ]

  -- From every state that the server reaches, with any number of clients and whatever they send,
  -- and with a signal then, there is a run that brings start_server to its end.
  pub server_drains :
      (s : Sys Conn)
      → Reach api store s
      → (s' : Sys Conn) × Steps api (record s { should_shutdown = true }) s' × (s'.main ≡ stopped)
  server_drains s r =
      drains_in (suc (steps_left s)) (record s { should_shutdown = true }) (later r signal) refl
        (omega arith)
