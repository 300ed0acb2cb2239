-- ===== src/Locks/Deadline.antt =====
-- The deadline of a timed wait (src/common/CriticalSection.h), and the nesting of the recursive lock.
use web_socket_demo.Prelude.{ℕ, ◌+◌, ◌*◌, ◌/◌, ◌≡◌, ◌<◌, arith}
use web_socket_demo.Locks.{get_timeout_ex}

-- The deadline is a valid timespec, and as many whole milliseconds behind the time of now as the wait has.
pub get_timeout_ex-exact :
    (tv_sec tv_usec timer : ℕ)
    → ((get_timeout_ex tv_sec tv_usec timer).1 < 1000000000)
      × ((get_timeout_ex tv_sec tv_usec timer).0 * 1000
            + (get_timeout_ex tv_sec tv_usec timer).1 / 1000000
          ≡ tv_sec * 1000 + tv_usec / 1000 + timer)
unfolding get_timeout_ex
get_timeout_ex-exact tv_sec tv_usec timer = (omega arith, omega arith)
