-- ===== src/Server/Threads/Stop.antt =====
-- What is left to happen when start_server has come to its end.
use protocol_toolkit.Prelude.{ℕ, some, get_elem?, ◌≡◌, ◌⊎◌, inl, inr, refl, ap, arith}
use protocol_toolkit.Server.{Api}
use protocol_toolkit.Server.Threads.{
  Phase, handling, closing, leaving, gone, MainPc, stopped, Sys, Step, signal, look, full, refused,
  admit, started, failed, undone, loop_end, wait_more, finished, enter, leave, handled,
  disconnected, done, ended,
}

module _ {Conn : Type 0} where
  -- A thread that serves is not among those that have counted themselves down.
  handling-absurd :
      {A : Type 0} (conn : Conn) → (handling conn ≡ leaving) ⊎ (handling conn ≡ gone) → A
  handling-absurd conn (inl e) = absurd (ground (arith, e))
  handling-absurd conn (inr e) = absurd (ground (arith, e))

  closing-absurd : {A : Type 0} (conn : Conn) → (closing conn ≡ leaving) ⊎ (closing conn ≡ gone) → A
  closing-absurd conn (inl e) = absurd (ground (arith, e))
  closing-absurd conn (inr e) = absurd (ground (arith, e))

  -- Main at its end makes no step.
  abbrev at_end : MainPc Conn → ℕ
  at_end stopped = 0
  at_end _ = 1

-- A step at the end changes neither the tables nor the count.
module _ {Conn : Type 0} {api : Api Conn} where
  pub stopped-Step :
      {s t : Sys Conn}
      → s.main ≡ stopped
      → s.active_clients ≡ 0
      → ((i : ℕ) (p : Phase Conn) → get_elem? s.threads i ≡ some p → (p ≡ leaving) ⊎ (p ≡ gone))
      → Step api s t
      → (t.store ≡ s.store) × (t.active_clients ≡ 0) × (t.main ≡ stopped)
  stopped-Step m z q signal = (refl, z, m)
  stopped-Step m z q (look e f) = absurd (omega (arith, ap at_end e, ap at_end m))
  stopped-Step m z q (full n e h) = absurd (omega (arith, ap at_end e, ap at_end m))
  stopped-Step m z q (refused n e h) = absurd (omega (arith, ap at_end e, ap at_end m))
  stopped-Step m z q (admit n conn e h) = absurd (omega (arith, ap at_end e, ap at_end m))
  stopped-Step m z q (started conn e) = absurd (omega (arith, ap at_end e, ap at_end m))
  stopped-Step m z q (failed conn e) = absurd (omega (arith, ap at_end e, ap at_end m))
  stopped-Step m z q (undone e) = absurd (omega (arith, ap at_end e, ap at_end m))
  stopped-Step m z q (loop_end e f) = absurd (omega (arith, ap at_end e, ap at_end m))
  stopped-Step m z q (wait_more e h) = (refl, z, m)
  stopped-Step m z q (finished e h) = absurd (omega (arith, ap at_end e, ap at_end m))
  stopped-Step m z q (enter i conn e f) = (refl, z, m)
  stopped-Step m z q (leave i conn e f) = (refl, z, m)
  stopped-Step m z q (handled i conn conn' store e f) = handling-absurd conn (q i _ e)
  stopped-Step m z q (disconnected i conn conn' store e f) = handling-absurd conn (q i _ e)
  stopped-Step m z q (done i conn e) = closing-absurd conn (q i _ e)
  stopped-Step m z q (ended i e) = (refl, z, m)
