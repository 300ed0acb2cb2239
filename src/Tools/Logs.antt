-- ===== src/Tools/Logs.antt =====
-- `LogTools` of src/websocket_master/Tools/logTools.cpp.
pub mod Rebuild
use web_socket_demo.Prelude.{
  ℕ, ◌+◌, ◌-◌, ◌%◌, ◌^◌, ◌≡◌, ◌≢◌, ◌<◌, refl, arith, Bool, true, false, not, List, [], ◌∷◌, ◌++◌,
  Option, none, some, Bytes, ltb, ◌==◌, if◌then◌else◌,
}
use web_socket_demo.Text.{codes}
use web_socket_demo.Startup.{ℤ, pos, negsuc, atoi}
use web_socket_demo.Trace.{DebugTrace}
use web_socket_demo.Trace.Start.{Start, initlog, initlog_path}
use web_socket_demo.Configure.{is_nil}
use web_socket_demo.Tools.{FileTools, Thrown, done, thrown, open_file, get_conf}

pub record LogTools : Type 0 where
  pub level : ℕ
  pub last_time : ℕ
  pub api_name : Bytes
  pub path : Bytes

-- The bit pattern of an int.
abbrev pub pattern : ℤ → ℕ
pattern (pos n) = n % 2 ^ 32
pattern (negsuc n) = 2 ^ 32 - 1 - n % 2 ^ 32

abbrev pub or_empty : Option Bytes → Bytes
or_empty none = []
or_empty (some s) = s

-- `last_time` is not set before createLog.
unfoldable pub with_level : Bytes → Bytes → FileTools → Option Bytes → Thrown LogTools
with_level stale api_name f none = thrown (codes "An error occurred while get the log level")
with_level stale api_name f (some level_buf) = done (record {
  level = pattern (atoi level_buf);
  last_time = 0;
  api_name = api_name;
  path = or_empty (get_conf stale (codes "logPath") f);
})

unfoldable pub on_open : Bytes → Bytes → Thrown FileTools → Thrown LogTools
on_open stale api_name (thrown error) = thrown error
on_open stale api_name (done f) = with_level stale api_name f (get_conf stale (codes "logLevel") f)

unfoldable pub log_tools : Bytes → Bytes → Option Bytes → Bytes → Thrown LogTools
log_tools stale api_name conf error = on_open stale api_name (open_file conf error)

abbrev pub minus_two : ℤ
minus_two = negsuc 1

abbrev pub minus_three : ℤ
minus_three = negsuc 2

-- The tools, and the global goDebugTrace, none where it is NULL.
pub record Logging : Type 0 where
  pub tools : LogTools
  pub global : Option DebugTrace

unfoldable pub create_log : Start → ℕ → Logging → ℤ × Logging
create_log k curr g =
    let t = g.tools in
    let r =
      if is_nil t.path
      then initlog k t.api_name t.level g.global
      else initlog_path k t.api_name t.level t.path g.global in
    if r.0
    then (pos 0, record { tools = record t { last_time = curr }; global = r.1 })
    else ((if is_nil t.path then minus_two else minus_three), record { tools = t; global = r.1 })

-- What `rebuild` does; `crashed` is the TRACE on goDebugTrace where createLog has left NULL.
pub data Rebuilt : Type 0 where
  kept : Rebuilt
  rebuilt : Logging → Rebuilt
  crashed : Rebuilt

abbrev pub after_create : ℕ → ℤ × Logging → Rebuilt
after_create curr (proof, g) = elim g.global [
  | none ↦ crashed
  | some d ↦ rebuilt (record g { tools = record g.tools { last_time = curr } })
]

-- The times are numbers of 64 bits; `again` is the one that createLog asks for. What the two TRACE calls
-- write to the files is not part of the result.
unfoldable pub rebuild : Start → ℕ → ℕ → Logging → Rebuilt
rebuild k curr again g =
    if ltb ((g.tools.last_time + 2 ^ 64 - curr) % 2 ^ 64) 1
    then kept
    else after_create curr (create_log k again (record g { global = none }))
