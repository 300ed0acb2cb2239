-- ===== src/Tools/Logs/Rebuild.antt =====
-- On `rebuild` of src/websocket_master/Tools/logTools.cpp and the log that it makes.
use web_socket_demo.Prelude.{
  ℕ, ◌+◌, ◌-◌, ◌%◌, ◌^◌, ◌≡◌, ◌≤◌, ◌<◌, refl, arith, Bool, not, ◌&&◌, ◌||◌, [], ◌∷◌, ◌++◌, none,
  some, Bytes, ltb, ◌==◌, if◌then◌else◌, length, length-append, append_assoc, drop,
}
use web_socket_demo.Trace.{DebugTrace, construct, Clock}
use web_socket_demo.Trace.Files.{set_log_file_name, file_date, pre_of}
use web_socket_demo.Trace.Appends.{WritesFile}
use web_socket_demo.Trace.Start.{
  Start, initlog, initlog_path, made, log_path, log_name, getcurrent_path,
}
use web_socket_demo.Configure.{is_nil}
use web_socket_demo.Tools.Logs.{
  LogTools, create_log, Logging, Rebuilt, kept, rebuilt, crashed, after_create, rebuild,
}

-- The name of the log before the process and the time are put behind it.
abbrev pub front_of : Start → LogTools → Bytes
front_of k t = if is_nil t.path then log_path (getcurrent_path k.cwd) else t.path ++ b'/' ∷ []

abbrev pub new_log : Start → LogTools → DebugTrace
new_log k t = made k t.level (front_of k t ++ log_name t.api_name k.pid)

-- Whether initlog succeeds.
abbrev pub starts : Start → LogTools → Bool
starts k t = (not (is_nil t.path) || k.chdir) && k.allocated

file_date-length : (t : Clock) → 5 ≤ length (file_date t)
unfolding file_date
file_date-length t = simp length-append (omega arith)

pub made-WritesFile : (k : Start) (level : ℕ) (name : Bytes) → WritesFile (made k level name)
unfolding made construct set_log_file_name
made-WritesFile k level name =
    let text : Bytes = pre_of (some name) ++ file_date k.now in
    let long : 5 ≤ length text =
      omega (arith, length-append (pre_of (some name)) (file_date k.now), file_date-length k.now) in
    (refl, omega (arith, long, length-append text (drop (length text) [])))

-- A log, or NULL and the crash.
abbrev pub renewed : Start → ℕ → LogTools → Rebuilt
renewed k curr t =
    if starts k t
    then rebuilt (record { tools = record t { last_time = curr }; global = some (new_log k t) })
    else crashed

after_create-create_log :
    (k : Start) (curr again : ℕ) (t : LogTools)
    → after_create curr (create_log k again (record { tools = t; global = none }))
      ≡ renewed k curr t
unfolding create_log initlog initlog_path
after_create-create_log k curr again t =
    ground (arith, append_assoc t.path (b'/' ∷ []) (log_name t.api_name k.pid))

-- `rebuild` keeps the log where the date has the same number as before. Otherwise there is a new log, with the
-- level and the name from the configuration and the date of now, if a CDebugTrace can be allocated
-- and, where no path is configured, chdir succeeds, and a NULL pointer is used if not. The new log is
-- one that TRACE writes to a file.
pub rebuild-renewed :
    (k : Start) (curr again : ℕ) (g : Logging)
    → g.tools.last_time < 2 ^ 64
    → curr < 2 ^ 64
    → (rebuild k curr again g
        ≡ (if g.tools.last_time == curr then kept else renewed k curr g.tools))
      × WritesFile (new_log k g.tools)
unfolding rebuild
rebuild-renewed k curr again g hl hc =
    let same : ltb ((g.tools.last_time + 2 ^ 64 - curr) % 2 ^ 64) 1 ≡ (g.tools.last_time == curr) =
      ground arith in
    (
      rw (same, after_create-create_log k curr again g.tools) refl,
      made-WritesFile k g.tools.level _,
    )
