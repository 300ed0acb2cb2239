-- ===== src/Startup.antt =====
-- The start of the process: src/websocket_master/main.cpp, and `raise_nofile_limit_early` of
-- src/websocket_master/network_interface.cpp. The arguments are those behind the program's name; what
-- getenv, fork, getrlimit and setrlimit answer is given.
pub mod Arguments
pub mod Workers
pub mod Files
use web_socket_demo.Prelude.{
  ℕ, zero, suc, ◌+◌, ◌-◌, ◌*◌, ◌^◌, Bool, true, false, not, ◌&&◌, ◌||◌, List, [], ◌∷◌, ◌++◌, Option,
  none, some, Bytes, ltb, leb, ◌==◌, if◌then◌else◌, drop,
}
use web_socket_demo.Text.{codes, equal, starts_with}

-- An int as the source compares it.
pub data ℤ : Type 0 where
  pos negsuc : ℕ → ℤ

abbrev pub negate : ℕ → ℤ
negate zero = pos 0
negate (suc n) = negsuc n

abbrev pub is_digit : ℕ → Bool
is_digit c = leb b'0' c && leb c b'9'

abbrev pub is_space : ℕ → Bool
is_space c = c == b' ' || (leb 9 c && leb c 13)

-- The digits in front, with the value of those before them.
unfoldable pub atoi_digits : ℕ → Bytes → ℕ
atoi_digits acc [] = acc
atoi_digits acc (c ∷ cs) =
    let rest = atoi_digits (acc * 10 + (c - b'0')) cs in if is_digit c then rest else acc

unfoldable pub atoi_sign : Bytes → ℤ
atoi_sign [] = pos 0
atoi_sign (c ∷ cs) =
    if c == b'-'
    then negate (atoi_digits 0 cs)
    else if c == b'+'
    then pos (atoi_digits 0 cs)
    else pos (atoi_digits 0 (c ∷ cs))

-- The C library's `atoi`. A value that an int cannot hold is undefined there; here it is itself.
unfoldable pub atoi : Bytes → ℤ
atoi [] = pos 0
atoi (c ∷ cs) = let rest = atoi cs in if is_space c then rest else atoi_sign (c ∷ cs)

abbrev pub from_environment : Option Bytes → ℤ
from_environment none = pos 1
from_environment (some e) = atoi e

-- `--workers N`, where N is the next argument, if there is one.
abbrev pub next_argument : List Bytes → ℤ → ℤ
next_argument [] otherwise = otherwise
next_argument (n ∷ args) otherwise = atoi n

unfoldable pub parse_workers : List Bytes → Option Bytes → ℤ
parse_workers [] env = from_environment env
parse_workers (arg ∷ args) env =
    let rest = parse_workers args env in
    if starts_with (codes "--workers=") arg
    then atoi (drop 10 arg)
    else if equal arg (codes "--workers")
    then next_argument args rest
    else rest

-- `if (workers < 1) workers = 1; if (workers > 64) workers = 64;`
abbrev pub clamp : ℤ → ℕ
clamp (negsuc n) = 1
clamp (pos n) = if ltb n 1 then 1 else if ltb 64 n then 64 else n

-- What a call of `fork` is for the process that it returns in.
pub data Fork : Type 0 where
  child failed : Fork
  parent : ℕ → Fork

-- How the process goes on: it runs the server, or waits for its children, or has killed them
-- and returns 1.
pub data Outcome : Type 0 where
  serves : Outcome
  waits killed : List ℕ → Outcome

abbrev pub after_fork : Fork → List ℕ → Outcome → Outcome
after_fork child kids next = serves
after_fork failed kids next = killed kids
after_fork (parent p) kids next = next

abbrev pub with_kid : Fork → List ℕ → List ℕ
with_kid child kids = kids
with_kid failed kids = kids
with_kid (parent p) kids = kids ++ p ∷ []

-- The loop, with the rounds that are left and the answers to come.
unfoldable pub fork_loop : ℕ → ℕ → (ℕ → Fork) → List ℕ → Outcome
fork_loop zero i fork kids = waits kids
fork_loop (suc left) i fork kids =
    after_fork (fork i) kids (fork_loop left (i + 1) fork (with_kid (fork i) kids))

unfoldable pub main : List Bytes → Option Bytes → (ℕ → Fork) → Outcome
main args env fork =
    let workers = clamp (parse_workers args env) in
    if workers == 1 then serves else fork_loop workers 0 fork []

-- struct rlimit
pub record Rlimit : Type 0 where
  pub rlim_cur : ℕ
  pub rlim_max : ℕ

abbrev pub target_min_open_files : ℕ
target_min_open_files = 65536

-- RLIM_INFINITY, the greatest rlim_t.
abbrev pub rlim_infinity : ℕ
rlim_infinity = 2 ^ 64 - 1

abbrev pub want : Rlimit → ℕ
want rl =
    if not (rl.rlim_max == rlim_infinity) && ltb rl.rlim_max target_min_open_files
    then rl.rlim_max
    else target_min_open_files

-- The limits that `setrlimit` is called with, in order; `set` says whether a call succeeds.
unfoldable pub raise_nofile_limit_early : Option Rlimit → (Rlimit → Bool) → List Rlimit
raise_nofile_limit_early none set = []
raise_nofile_limit_early (some rl) set =
    if ltb rl.rlim_cur (want rl)
    then (let raised = record rl { rlim_cur = want rl } in
        let most =
          if rl.rlim_max == rlim_infinity then raised else record rl { rlim_cur = rl.rlim_max } in
        if set raised then raised ∷ [] else raised ∷ most ∷ [])
    else []
