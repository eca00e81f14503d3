-- ===== src/Thread/Lock.antt =====
-- The timed lock of a mutex ends.
use protocol_toolkit.Prelude.{
  ℕ, zero, suc, ◌+◌, ◌-◌, ◌<◌, ◌≤◌, true, false, some, ◌≡◌, refl, ◌≢◌, arith, ◌⊎◌, inl, inr,
  Bool-cases, ==-false_of_ne, ℕ_discrete, dec_lt,
}
use protocol_toolkit.Prelude.Integers.{ℤ}
use protocol_toolkit.Err.{PtkErr, ok, configuration_error, timeout}
use protocol_toolkit.Thread.{Posix, TimeVal, ebusy, timed_out, retry}

-- The `k`-th round from `call` on is the last, with the answer `e`: in every round before it the
-- mutex was busy and there was time left.
pub record EndsAt (posix : Posix) (start : TimeVal) (n : ℤ) (call k : ℕ) (e : PtkErr) : Type 0 where
  pub before :
      (i : ℕ)
      → i < k
      → (posix.trylock (call + i) ≡ ebusy) × (timed_out start (posix.now (call + i)) n ≡ false)
  pub last :
      ((posix.trylock (call + k) ≡ 0) × (e ≡ ok))
      ⊎ ((posix.trylock (call + k) ≢ 0)
          × (posix.trylock (call + k) ≢ ebusy)
          × (e ≡ configuration_error))
      ⊎ ((posix.trylock (call + k) ≡ ebusy)
          × (timed_out start (posix.now (call + k)) n ≡ true)
          × (e ≡ timeout))

module _ (posix : Posix) (start : TimeVal) (n : ℤ) where
  ends_now :
      (call : ℕ) (e : PtkErr)
      → ((posix.trylock call ≡ 0) × (e ≡ ok))
        ⊎ ((posix.trylock call ≢ 0) × (posix.trylock call ≢ ebusy) × (e ≡ configuration_error))
        ⊎ ((posix.trylock call ≡ ebusy)
            × (timed_out start (posix.now call) n ≡ true)
            × (e ≡ timeout))
      → EndsAt posix start n call 0 e
  ends_now call e h =
      let here : call + 0 ≡ call = omega arith in
      record { before = λ i l. absurd (omega arith); last = rw here h }

  ends_later :
      (call k : ℕ) (e : PtkErr)
      → posix.trylock call ≡ ebusy
      → timed_out start (posix.now call) n ≡ false
      → EndsAt posix start n (call + 1) k e
      → EndsAt posix start n call (suc k) e
  ends_later call k e busy time r = record {
    before = earlier;
    last = let shift : call + suc k ≡ call + 1 + k = omega arith in rw shift r.last;
  }
    where
      earlier :
          (i : ℕ)
          → i < suc k
          → (posix.trylock (call + i) ≡ ebusy) × (timed_out start (posix.now (call + i)) n ≡ false)
      earlier zero l = let here : call + 0 ≡ call = omega arith in rw here (busy, time)
      earlier (suc i) l =
          let shift : call + suc i ≡ call + 1 + i = omega arith in
          rw shift (r.before i (omega arith))

  -- Where the clock has passed the timeout in round `j`, the loop of the timed lock ends in that
  -- round or before, and one round more than `j` of fuel is enough: it takes the mutex in the first
  -- round that finds it free, and gives up in the first that finds an error, or finds it busy when
  -- the time is over.
  pub retry_ends :
      (fuel call j : ℕ)
      → timed_out start (posix.now (call + j)) n ≡ true
      → j < fuel
      → (e : PtkErr) × (k : ℕ) × (k ≤ j)
        × (retry posix fuel start n call ≡ some e)
        × EndsAt posix start n call k e
  unfolding retry
  retry_ends zero call j over h = absurd (omega arith)
  retry_ends (suc fuel) call j over h = elim (ℕ_discrete (posix.trylock call) 0) [
    | yes free ↦ (ok, 0, omega arith, rw (free), ends_now call ok (inl (free, refl)))
    | no taken ↦ elim (ℕ_discrete (posix.trylock call) ebusy) [
      | no broken ↦ (
        configuration_error,
        0,
        omega arith,
        rw (==-false_of_ne _ _ taken, ==-false_of_ne _ _ broken),
        ends_now call configuration_error (inr (inl (taken, broken, refl))),
      )
      | yes busy ↦ elim (Bool-cases (timed_out start (posix.now call) n)) [
        | inl late ↦ (
          timeout,
          0,
          omega arith,
          rw (busy, late),
          ends_now call timeout (inr (inr (busy, late, refl))),
        )
        | inr early ↦ elim (dec_lt 0 j) [
          | no first ↦
              let here : call + j ≡ call = omega arith in absurd (ground (arith, here, over, early))
          | yes later ↦
              let shift : call + 1 + (j - 1) ≡ call + j = omega arith in
              let (e, k, b, r, ends) =
                retry_ends fuel (call + 1) (j - 1) (rw shift over) (omega arith) in
              (e, suc k, omega arith, rw (busy, early) r, ends_later call k e busy early ends)
        ]
      ]
    ]
  ]
