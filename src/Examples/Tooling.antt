-- ===== src/Examples/Tooling.antt =====
-- The theorems on the traces and the locks at samples.
use web_socket_demo.Prelude.{◌≡◌, ◌+◌, ◌≤◌, ◌-◌, refl, List, [], ◌∷◌, some, true, length}
use web_socket_demo.Text.{codes, c_str}
use web_socket_demo.Startup.{pos, negsuc}
use web_socket_demo.StringCommon.{to_string_signed}
use web_socket_demo.StringCommon.Widths.{int16, from_string, from_string-to_string_signed}
use web_socket_demo.Locks.{enter}
use web_socket_demo.Locks.Exclusive.{
  Threads, at_thread, makes, start as nobody, next, Reach, IsExclusive, Reach-IsExclusive,
}
use web_socket_demo.Trace.{DebugTrace, Argument, str_val, int64_val, Clock, construct, can_trace}
use web_socket_demo.Trace.Files.{World, trace_macro, set_log_file_name}
use web_socket_demo.Trace.Appends.{IsAppended, line_of, trace_macro-IsAppended}
use web_socket_demo.Trace.Start.{Start, made}
use web_socket_demo.Tools.Logs.Rebuild.{made-WritesFile}
use web_socket_demo.Locks.{init}
use web_socket_demo.Locks.Moves.{
  Move, post, await, spurious, resume, run, posts, awaits, stirs, debt, credit,
}
use web_socket_demo.Locks.Semaphore.{run-sleepers}

abbrev noon : Clock
noon = record { year = 2024; mon = 5; mday = 7; hour = 12; min = 0; sec = 1; millitm = 9 }

abbrev arguments : List Argument
arguments = str_val (some (codes "sent ")) ∷ int64_val (pos 12) ∷ []

abbrev start : Start
start = record { cwd = some (codes "/srv"); chdir = true; allocated = true; pid = 41; now = noon }

abbrev log : DebugTrace
log = made start 4 (codes "/srv//log//api-41")

abbrev world : World
world = record { trace = log; files = []; console = [] }

lets_through : can_trace 1 log ≡ true
unfolding can_trace made construct set_log_file_name
lets_through = refl

trace_macro-IsAppended_example :
    IsAppended world
      (trace_macro (λ _. true) noon 1 (codes "a.cpp") 7 arguments world)
      (c_str (line_of noon 1 (codes "a.cpp") 7 arguments log).print_buff)
trace_macro-IsAppended_example =
    trace_macro-IsAppended (λ _. true) noon 1 (codes "a.cpp") 7 arguments world (λ _. refl)
      lets_through (made-WritesFile start 4 (codes "/srv//log//api-41"))

abbrev events : List Move
events = await 1 ∷ await 2 ∷ spurious 0 ∷ post 3 1 ∷ resume ∷ []

run-sleepers_example :
    (credit (run events init).data_count ≡ posts events - awaits events)
    × (debt (run events init).data_count ≡ awaits events - posts events)
    × (length (run events init).sleepers ≤ awaits events - posts events)
    × (awaits events - posts events ≤ length (run events init).sleepers + stirs events)
run-sleepers_example = run-sleepers events

-- One thread makes an object inside another.
abbrev nested : Threads
nested = record {
  lock = record { owner = some (7, 1) };
  alive = at_thread 7 2 (at_thread 7 1 (λ _. 0));
}

nested-Reach : Reach nested
unfolding enter
nested-Reach =
    next (next nobody (makes 7 (record { owner = some (7, 0) }) refl))
      (makes 7 (record { owner = some (7, 1) }) refl)

Reach-IsExclusive_example : IsExclusive nested
Reach-IsExclusive_example = Reach-IsExclusive nested nested-Reach

from_string-to_string_signed_example :
    from_string int16 (to_string_signed (negsuc 41)) ≡ (true, negsuc 41)
from_string-to_string_signed_example = from_string-to_string_signed int16 (negsuc 41) refl
