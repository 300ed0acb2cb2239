-- ===== src/Startup/Files.antt =====
-- On `raise_nofile_limit_early` (src/websocket_master/network_interface.cpp): the limits it asks for.
use web_socket_demo.Prelude.{◌≤◌, ◌<◌, ◌≡◌, arith, Bool, some, All}
use web_socket_demo.Startup.{Rlimit, rlim_infinity, raise_nofile_limit_early}

-- A call that raises the soft limit, up to the hard limit, which it keeps.
record IsRaise (rl asked : Rlimit) : Type 0 where
  raises : rl.rlim_cur < asked.rlim_cur
  allowed : asked.rlim_cur ≤ asked.rlim_max
  same_max : asked.rlim_max ≡ rl.rlim_max

-- Whichever calls fail, each call of `setrlimit`, the second try included, raises the soft limit,
-- asks for no more than the hard limit and leaves that as it is; the hard limit is one that an
-- rlim_t holds.
raise_nofile_limit_early-IsRaise :
    (rl : Rlimit) (set : Rlimit → Bool)
    → rl.rlim_max ≤ rlim_infinity
    → All (IsRaise rl) (raise_nofile_limit_early (some rl) set)
unfolding raise_nofile_limit_early
raise_nofile_limit_early-IsRaise rl set m = ground arith
