-- ===== src/Server/Threads/Inv.antt =====
-- The count of clients: what it counts, its bound, and what it says when the server stops.
use protocol_toolkit.Prelude.{
  ℕ, zero, suc, ◌+◌, ◌<◌, ◌≤◌, true, some, List, [], ◌∷◌, ◌++◌, get_elem?, set, ◌≡◌, ◌⊎◌, inl, inr,
  refl, ap, arith,
}
use mathlib.Core.Path.{subst}
use protocol_toolkit.Server.{Api, Store}
use protocol_toolkit.Server.Threads.Stop.{stopped-Step}
use protocol_toolkit.Server.Threads.{
  Phase, init, at_thread, checking, handling, closing, leaving, gone, MainPc, accepting, counted,
  admitted, undoing, draining, stopped, Sys, Step, signal, look, full, refused, admit, started,
  failed, undone, loop_end, wait_more, finished, enter, leave, handled, disconnected, done, ended,
  start, later, Reach, max_clients,
}

module _ {Conn : Type 0} where
  -- A thread is counted until it counts itself down.
  abbrev pub weight : Phase Conn → ℕ
  weight leaving = 0
  weight gone = 0
  weight _ = 1

  abbrev pub live : List (Phase Conn) → ℕ
  live [] = 0
  live (p ∷ ps) = weight p + live ps

  -- A client that is counted and has no thread.
  abbrev pub pending : MainPc Conn → ℕ
  pending (admitted conn) = 1
  pending undoing = 1
  pending _ = 0

  -- No client has been counted since main read the count; at the end no thread is counted.
  abbrev pub IsConsistent : Sys Conn → MainPc Conn → Type 0
  IsConsistent s (counted n) = s.active_clients ≤ n
  IsConsistent s draining = s.should_shutdown ≡ true
  IsConsistent s stopped = (s.should_shutdown ≡ true) × (live s.threads ≡ 0)
  IsConsistent s _ = Unit

  pub record IsValid (s : Sys Conn) : Type 0 where
    pub count : s.active_clients ≡ live s.threads + pending s.main
    pub bound : s.active_clients ≤ max_clients
    pub main : IsConsistent s s.main

  live-append : (ps qs : List (Phase Conn)) → live (ps ++ qs) ≡ live ps + live qs
  live-append [] qs = omega arith
  live-append (p ∷ ps) qs = omega (arith, live-append ps qs)

  pub live-set :
      (ps : List (Phase Conn)) (i : ℕ) (p q : Phase Conn)
      → get_elem? ps i ≡ some p
      → live (set ps i q) + weight p ≡ live ps + weight q
  live-set [] i p q h = absurd (ground (arith, h))
  live-set (x ∷ ps) zero p q h = let e : x ≡ p = grind (arith, h) in rw e (omega arith)
  live-set (x ∷ ps) (suc i) p q h = omega (arith, live-set ps i p q h)

  kept :
      (s t : Sys Conn) (pc : MainPc Conn)
      → t.active_clients ≤ s.active_clients
      → (s.should_shutdown ≡ true → t.should_shutdown ≡ true)
      → live t.threads ≤ live s.threads
      → IsConsistent s pc
      → IsConsistent t pc
  kept s t accepting a f l h = h
  kept s t (counted n) a f l h = omega arith
  kept s t (admitted conn) a f l h = h
  kept s t undoing a f l h = h
  kept s t draining a f l h = f h
  kept s t stopped a f l h = (f h.0, omega (arith, h.1))

  moved :
      (s : Sys Conn) (store : Store) (i : ℕ) (p q : Phase Conn)
      → IsValid s
      → get_elem? s.threads i ≡ some p
      → weight p ≡ weight q
      → IsValid (at_thread (record s { store = store }) i q)
  moved s store i p q v e w =
      let same = live-set s.threads i p q e in
      let t = at_thread (record s { store = store }) i q in
      record {
        count = omega (arith, v.count, same, w);
        bound = v.bound;
        main = kept s t s.main (omega arith) (λ e. e) (omega (arith, same, w)) v.main;
      }

  init-IsValid : (store : Store) → IsValid (init store)
  init-IsValid store = record { count = omega arith; bound = omega arith; main = tt }

  live-gone :
      (ps : List (Phase Conn)) (i : ℕ) (p : Phase Conn)
      → live ps ≡ 0
      → get_elem? ps i ≡ some p
      → (p ≡ leaving) ⊎ (p ≡ gone)
  live-gone ps i (checking conn) z h =
      absurd (omega (arith, z, live-set ps i (checking conn) gone h))
  live-gone ps i (handling conn) z h =
      absurd (omega (arith, z, live-set ps i (handling conn) gone h))
  live-gone ps i (closing conn) z h = absurd (omega (arith, z, live-set ps i (closing conn) gone h))
  live-gone ps i leaving z h = inl refl
  live-gone ps i gone z h = inr refl

module _ {Conn : Type 0} {api : Api Conn} where
  step-IsValid : {s t : Sys Conn} → IsValid s → Step api s t → IsValid t
  step-IsValid {s} {t} v signal = record {
    count = v.count;
    bound = v.bound;
    main = kept s t s.main (omega arith) (λ e. refl) (omega arith) v.main;
  }
  step-IsValid {s} v (look e f) = record {
    count = omega (arith, v.count, ap pending e);
    bound = v.bound;
    main = omega arith;
  }
  step-IsValid {s} v (full n e h) = record {
    count = omega (arith, v.count, ap pending e);
    bound = v.bound;
    main = tt;
  }
  step-IsValid {s} v (refused n e h) = record {
    count = omega (arith, v.count, ap pending e);
    bound = v.bound;
    main = tt;
  }
  step-IsValid {s} v (admit n conn e h) =
      let less : s.active_clients ≤ n = subst (λ pc. IsConsistent s pc) e v.main in
      record { count = omega (arith, v.count, ap pending e); bound = omega arith; main = tt }
  step-IsValid {s} v (started conn e) = record {
    count = omega (arith, v.count, ap pending e, live-append s.threads (checking conn ∷ []));
    bound = v.bound;
    main = tt;
  }
  step-IsValid {s} v (failed conn e) = record {
    count = omega (arith, v.count, ap pending e);
    bound = v.bound;
    main = tt;
  }
  step-IsValid {s} v (undone e) = record {
    count = omega (arith, v.count, ap pending e);
    bound = omega (arith, v.bound);
    main = tt;
  }
  step-IsValid {s} v (loop_end e f) = record {
    count = omega (arith, v.count, ap pending e);
    bound = v.bound;
    main = f;
  }
  step-IsValid {s} v (wait_more e h) = v
  step-IsValid {s} v (finished e h) = record {
    count = omega (arith, v.count, ap pending e);
    bound = v.bound;
    main = (subst (λ pc. IsConsistent s pc) e v.main, omega (arith, v.count, ap pending e));
  }
  step-IsValid {s} v (enter i conn e f) = moved s s.store i _ (handling conn) v e refl
  step-IsValid {s} v (leave i conn e f) = moved s s.store i _ (closing conn) v e refl
  step-IsValid {s} v (handled i conn conn' store e f) = moved s store i _ (checking conn') v e refl
  step-IsValid {s} v (disconnected i conn conn' store e f) =
      moved s store i _ (closing conn') v e refl
  step-IsValid {s} {t} v (done i conn e) =
      let less = live-set s.threads i (closing conn) leaving e in
      record {
        count = omega (arith, v.count, less);
        bound = omega (arith, v.bound);
        main = kept s t s.main (omega arith) (λ e. e) (omega (arith, less)) v.main;
      }
  step-IsValid {s} v (ended i e) = moved s s.store i _ gone v e refl

  reach-IsValid : {store : Store} {s : Sys Conn} → Reach api store s → IsValid s
  reach-IsValid {store} start = init-IsValid store
  reach-IsValid (later r step) = step-IsValid (reach-IsValid r) step

  -- In every state that the server reaches, the count of clients is the number of threads that have
  -- not counted themselves down, and one more while main has counted a client that has no thread; it is at most 10.
  pub Reach-count :
      {store : Store} {s : Sys Conn}
      → Reach api store s
      → (s.active_clients ≡ live s.threads + pending s.main) × (s.active_clients ≤ max_clients)
  Reach-count r = let v = reach-IsValid r in (v.count, v.bound)

  -- When start_server has come to its end, so that main goes on to destroy the allocator, every
  -- client thread has counted itself down, though it need not have ended; and no step that is left
  -- changes a table or the count of clients.
  pub stopped_alone :
      {store : Store} {s : Sys Conn}
      → Reach api store s
      → s.main ≡ stopped
      → ((i : ℕ) (p : Phase Conn) → get_elem? s.threads i ≡ some p → (p ≡ leaving) ⊎ (p ≡ gone))
        × ((t : Sys Conn)
            → Step api s t
            → (t.store ≡ s.store) × (t.active_clients ≡ 0) × (t.main ≡ stopped))
  stopped_alone {s = s} r e =
      let v = reach-IsValid r in
      let idle = (subst (λ pc. IsConsistent s pc) e v.main).1 in
      let counted_down = λ (i : ℕ) (p : Phase Conn) (h : get_elem? s.threads i ≡ some p).
        live-gone s.threads i p idle h in
      let no_client : s.active_clients ≡ 0 = omega (arith, v.count, idle, ap pending e) in
      (counted_down, λ t step. stopped-Step e no_client counted_down step)

  -- Where a client is counted down, by its thread or by main, the count is not 0.
  pub count_down :
      {store : Store} {s : Sys Conn}
      → Reach api store s
      → ((i : ℕ) × (conn : Conn) × (get_elem? s.threads i ≡ some (closing conn)))
        ⊎ (s.main ≡ undoing)
      → 0 < s.active_clients
  count_down {s = s} r (inl (i, conn, h)) =
      let v = reach-IsValid r in
      omega (arith, v.count, live-set s.threads i (closing conn) leaving h)
  count_down r (inr e) = let v = reach-IsValid r in omega (arith, v.count, ap pending e)
