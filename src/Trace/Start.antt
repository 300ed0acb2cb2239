-- ===== src/Trace/Start.antt =====
-- `initlog` of src/common/debugtrace.h, in its two forms, with `getcurrentPath` of src/common/_type.h.
use web_socket_demo.Prelude.{
  ℕ, bit_or, Bool, true, false, [], ◌∷◌, ◌++◌, Option, none, some, Bytes, ◌==◌, if◌then◌else◌,
}
use web_socket_demo.Text.{codes}
use web_socket_demo.StringCommon.{print_digits}
use web_socket_demo.Trace.{DebugTrace, construct, set_trace_level, set_trace_options, Clock}
use web_socket_demo.Trace.Files.{set_log_file_name}

-- What the kernel gives: getcwd, chdir, whether `new` succeeds, getpid and the time. The directories that
-- create_dir makes are left out, as its result is.
pub record Start : Type 0 where
  pub cwd : Option Bytes
  pub chdir : Bool
  pub allocated : Bool
  pub pid : ℕ
  pub now : Clock

abbrev pub slashes : Bytes → Bytes
slashes [] = []
slashes (c ∷ s) = (if c == b'\\' then b'/' else c) ∷ slashes s

-- A text that is not empty gets a '/' at its end.
unfoldable pub with_slash : Bytes → Bytes
with_slash [] = []
with_slash (c ∷ []) = if c == b'/' then c ∷ [] else c ∷ b'/' ∷ []
with_slash (c ∷ d ∷ s) = c ∷ with_slash (d ∷ s)

-- Where getcwd fails, the buffer keeps its zeros.
unfoldable pub getcurrent_path : Option Bytes → Bytes
getcurrent_path none = []
getcurrent_path (some cwd) = with_slash (slashes cwd)

-- All before the last '/', none where there is none.
unfoldable pub before_last : Bytes → Option Bytes
before_last [] = none
before_last (c ∷ s) = elim (before_last s) [
  | none ↦ if c == b'/' then some [] else none
  | some front ↦ some (c ∷ front)
]

-- "//name-pid"
unfoldable pub log_name : Bytes → ℕ → Bytes
log_name process_name pid = codes "//" ++ (process_name ++ (b'-' ∷ print_digits 10 pid))

-- Timestamp | AppendToFile, then with LogLevel and FileAndLine.
unfoldable pub made : Start → ℕ → Bytes → DebugTrace
made k level file_name =
    let d = set_trace_level level (construct 9) in
    set_log_file_name k.now (some file_name) (set_trace_options (bit_or d.trace_options 15) d)

-- `strcpy(strrchr(logFilename, '/'), "//log")`; without a '/' chdir has failed before.
unfoldable pub log_path : Bytes → Bytes
log_path path = elim (before_last path) [ none ↦ path | some front ↦ front ++ codes "//log" ]

-- `goDebugTrace` is none where it is NULL.
unfoldable pub initlog : Start → Bytes → ℕ → Option DebugTrace → Bool × Option DebugTrace
initlog k process_name level (some d) = (true, some d)
initlog k process_name level none =
    if k.chdir
    then (if k.allocated
        then (
          true,
          some (made k level (log_path (getcurrent_path k.cwd) ++ log_name process_name k.pid)),
        )
        else (false, none))
    else (false, none)

unfoldable pub initlog_path :
    Start → Bytes → ℕ → Bytes → Option DebugTrace → Bool × Option DebugTrace
initlog_path k process_name level path (some d) = (true, some d)
initlog_path k process_name level path none =
    if k.allocated
    then (true, some (made k level (path ++ (b'/' ∷ log_name process_name k.pid))))
    else (false, none)
