-- ===== src/Thread/Deadline.antt =====
-- The deadline of a timed wait, and the test for the end of a timed lock.
use protocol_toolkit.Prelude.{◌+◌, ◌*◌, ◌%◌, ◌<◌, ◌≤◌, ◌≡◌, arith, ◌⊎◌}
use protocol_toolkit.Prelude.Integers.{ℤ, above, below, diff}
use protocol_toolkit.Thread.{TimeVal, abs_timeout}

-- For a clock whose microseconds are below a million, the deadline of a timed wait is as many
-- milliseconds after the reading as were asked for, or before it for a negative number. Its
-- nanoseconds are those of a valid time, from 0 to 999999999, exactly where the microseconds of the
-- clock are no fewer than those of the milliseconds that a negative number has beyond its whole
-- seconds, so always for a number that is not negative; otherwise they are negative.
pub abs_timeout_lem :
    (reading : TimeVal) (n : ℤ)
    → reading.usec < 1000000
    → (above (abs_timeout reading n).sec * 1000000000
          + above (abs_timeout reading n).nsec
          + below n * 1000000
        ≡ (reading.sec * 1000000 + reading.usec) * 1000
          + above n * 1000000
          + below (abs_timeout reading n).sec * 1000000000
          + below (abs_timeout reading n).nsec)
      × (((below n % 1000 * 1000 ≤ reading.usec)
            × (below (abs_timeout reading n).nsec ≡ 0)
            × (above (abs_timeout reading n).nsec < 1000000000))
          ⊎ ((reading.usec < below n % 1000 * 1000) × (0 < below (abs_timeout reading n).nsec)))
unfolding abs_timeout diff
abs_timeout_lem reading n h = ground arith
