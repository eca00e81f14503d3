-- ===== src/Thread.antt =====
-- lib/ptk_thread.c on POSIX threads: mutexes, condition variables and threads. The functions of
-- the system are the parameter `Posix`; each call of one is numbered, and may answer differently.
-- An `int` result is a number, 0 for success. The allocator argument is left out, since it is only
-- passed on; `none` is a NULL object. The code of Windows is left out.
pub mod Lock
pub mod Deadline
use protocol_toolkit.Prelude.{
  ℕ, zero, suc, ◌+◌, ◌-◌, ◌*◌, ◌/◌, ◌%◌, ◌^◌, ◌<◌, Bool, true, false, not, Option, none, some, leb,
  ltb, if◌then◌else◌, ◌==◌,
}
use protocol_toolkit.Prelude.Integers.{ℤ, negsuc, above, below, diff}
use protocol_toolkit.Err.{PtkErr, ok, null_ptr, would_block, configuration_error, timeout}
use protocol_toolkit.Heap.{Grants, obtain}

-- struct timeval and struct timespec.
pub record TimeVal : Type 0 where
  pub sec : ℕ
  pub usec : ℕ

pub record TimeSpec : Type 0 where
  pub sec : ℤ
  pub nsec : ℤ

-- The mutexes and condition variables are the system's: only the answers are seen.
pub record Posix : Type 0 where
  pub mutexattr_init : ℕ → ℕ
  pub mutexattr_settype : ℕ → ℕ
  pub mutex_init : ℕ → ℕ
  pub trylock : ℕ → ℕ
  pub lock : ℕ → ℕ
  pub unlock : ℕ → ℕ
  pub cond_init : ℕ → ℕ
  pub cond_signal : ℕ → ℕ
  pub cond_wait : ℕ → ℕ
  pub cond_timedwait : ℕ → TimeSpec → ℕ
  pub thread_create : ℕ → ℕ
  pub thread_join : ℕ → ℕ
  pub now : ℕ → TimeVal

abbrev pub ebusy : ℕ
ebusy = 16

abbrev pub etimedout : ℕ
etimedout = 110

-- A timeout: PTK_TIME_NO_WAIT, PTK_TIME_WAIT_FOREVER, or another number of milliseconds, which may
-- be negative.
pub data Wait : Type 0 where
  no_wait : Wait
  forever : Wait
  for_ms : ℤ → Wait

-- PTK_TIME_NO_WAIT as a number: INT64_MIN.
abbrev pub no_wait_ms : ℤ
no_wait_ms = negsuc (2 ^ 63 - 1)

module _ (grants : Grants) (posix : Posix) (call : ℕ) where
  -- The structure has 48 bytes; the attribute is destroyed again, on every path.
  unfoldable pub mutex_create : Option ℕ
  mutex_create = elim (obtain grants call 48) [
    | none ↦ none
    | some self ↦
        if not (posix.mutexattr_init call == 0)
        then none
        else if not (posix.mutexattr_settype call == 0)
        then none
        else if not (posix.mutex_init call == 0)
        then none
        else some call
  ]

  unfoldable pub cond_var_create : Option ℕ
  cond_var_create = elim (obtain grants call 56) [
    | none ↦ none
    | some self ↦ if not (posix.cond_init call == 0) then none else some call
  ]

  -- `func` is not NULL.
  unfoldable pub thread_create : Option ℕ
  thread_create = elim (obtain grants call 32) [
    | none ↦ none
    | some self ↦ if not (posix.thread_create call == 0) then none else some call
  ]

-- `elapsed >= timeout_ms`, where elapsed is the difference of the seconds times 1000, plus that of
-- the microseconds divided by 1000 and rounded towards 0; either may be negative.
unfoldable pub timed_out : TimeVal → TimeVal → ℤ → Bool
timed_out start current n =
    leb (above n + start.sec * 1000 + (start.usec - current.usec) / 1000)
      (below n + current.sec * 1000 + (current.usec - start.usec) / 1000)

-- The time `n` milliseconds after a reading of the clock. C rounds a quotient towards 0, and a
-- remainder has the sign of `n`.
unfoldable pub abs_timeout : TimeVal → ℤ → TimeSpec
abs_timeout reading n =
    let sec = diff (reading.sec + above n / 1000) (below n / 1000) in
    let nsec =
      diff ((reading.usec + above n % 1000 * 1000) * 1000) (below n % 1000 * 1000 * 1000) in
    if leb 1000000000 (above nsec)
    then record { sec = diff (above sec + 1) (below sec); nsec = diff (above nsec) 1000000000 }
    else record { sec = sec; nsec = nsec }

unfoldable pub timedwait_result : ℕ → PtkErr
timedwait_result result =
    if result == 0 then ok else if result == etimedout then timeout else configuration_error

module _ (posix : Posix) where
  -- The loop of the timed lock; `none` is that the fuel ran out.
  unfoldable pub retry : ℕ → TimeVal → ℤ → ℕ → Option PtkErr
  retry zero start n call = none
  retry (suc fuel) start n call =
      let rest = retry fuel start n (call + 1) in
      if posix.trylock call == 0
      then some ok
      else if not (posix.trylock call == ebusy)
      then some configuration_error
      else if timed_out start (posix.now call) n
      then some timeout
      else rest

  unfoldable pub mutex_wait_lock : ℕ → ℕ → Option ℕ → Wait → Option PtkErr
  mutex_wait_lock fuel call none wait = some null_ptr
  mutex_wait_lock fuel call (some m) no_wait = some (
      if posix.trylock call == 0
      then ok
      else if posix.trylock call == ebusy
      then would_block
      else configuration_error)
  mutex_wait_lock fuel call (some m) forever =
      some (if posix.lock call == 0 then ok else configuration_error)
  mutex_wait_lock fuel call (some m) (for_ms n) =
      if posix.trylock call == 0
      then some ok
      else if not (posix.trylock call == ebusy)
      then some configuration_error
      else retry fuel (posix.now call) n (call + 1)

  unfoldable pub mutex_unlock : ℕ → Option ℕ → PtkErr
  mutex_unlock call none = null_ptr
  mutex_unlock call (some m) = if not (posix.unlock call == 0) then configuration_error else ok

  unfoldable pub cond_var_signal : ℕ → Option ℕ → PtkErr
  cond_var_signal call none = null_ptr
  cond_var_signal call (some c) =
      if not (posix.cond_signal call == 0) then configuration_error else ok

  -- PTK_TIME_NO_WAIT is no case of its own here: it is a negative number of milliseconds.
  unfoldable pub cond_var_wait : ℕ → Option ℕ → Option ℕ → Wait → PtkErr
  cond_var_wait call none mutex wait = null_ptr
  cond_var_wait call (some c) none wait = null_ptr
  cond_var_wait call (some c) (some m) forever =
      if posix.cond_wait call == 0 then ok else configuration_error
  cond_var_wait call (some c) (some m) no_wait =
      timedwait_result (posix.cond_timedwait call (abs_timeout (posix.now call) no_wait_ms))
  cond_var_wait call (some c) (some m) (for_ms n) =
      timedwait_result (posix.cond_timedwait call (abs_timeout (posix.now call) n))

  unfoldable pub thread_join : ℕ → Option ℕ → PtkErr
  thread_join call none = null_ptr
  thread_join call (some t) = if not (posix.thread_join call == 0) then configuration_error else ok

-- ptk_mutex_destroy, ptk_cond_var_destroy and ptk_thread_destroy answer alike; the object is freed.
unfoldable pub destroy : Option ℕ → PtkErr
destroy none = null_ptr
destroy (some object) = ok
