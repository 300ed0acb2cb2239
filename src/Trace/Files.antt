-- ===== src/Trace/Files.antt =====
-- The log file of `CDebugTrace` (src/common/debugtrace.cpp), and the macro TRACE of src/common/debugtrace.h.
use web_socket_demo.Prelude.{
  ℕ, ◌%◌, ◌^◌, Bool, not, ◌&&◌, List, [], ◌∷◌, ◌++◌, Option, none, some, Bytes, ltb, if◌then◌else◌,
  length, drop,
}
use web_socket_demo.Text.{codes, c_str, HeaderMap, lookup, insert}
use web_socket_demo.Trace.{
  DebugTrace, is_set, Argument, streamed, print_all, Clock, padded, begin_trace, can_trace, lock,
  unlock,
}

-- The trace with the files there are and what has gone to the console. `openable` says where fopen succeeds.
pub record World : Type 0 where
  pub trace : DebugTrace
  pub files : HeaderMap
  pub console : Bytes

abbrev pub content : Bytes → HeaderMap → Bytes
content name files = elim (lookup name files) [ none ↦ [] | some text ↦ text ]

-- fopen(name, "a"), which makes the file where there is none.
unfoldable pub fopen : (Bytes → Bool) → Bytes → World → World
fopen openable name w =
    if openable name
    then record w {
      trace = record w.trace { trace_file = some name };
      files = insert name (content name w.files) w.files;
    }
    else record w { trace = record w.trace { trace_file = none } }

-- memcpy to the front of a buffer that is not cleared, and ends with a NUL.
abbrev pub over_front : Bytes → Bytes → Bytes
over_front text old = text ++ drop (length text) old

unfoldable pub file_date : Clock → Bytes
file_date t =
    b'-'
    ∷ (padded 4 t.year
        ++ (padded 2 t.mon
            ++ (padded 2 t.mday ++ (padded 2 t.hour ++ (padded 2 t.min ++ codes ".log")))))

abbrev pub pre_of : Option Bytes → Bytes
pre_of none = []
pre_of (some s) = c_str s

unfoldable pub set_log_file_name : Clock → Option Bytes → DebugTrace → DebugTrace
set_log_file_name t file_name d =
    let pre = pre_of file_name in
    record d {
      log_file_name_pre = pre;
      log_file_name = over_front (pre ++ file_date t) d.log_file_name;
      trace_file = none;
    }

abbrev pub opened : (Bytes → Bool) → World → Option Bytes → World
opened openable w none = fopen openable w.trace.log_file_name w
opened openable w (some name) = w

-- A file that has grown too large is left for one with the name of the time.
unfoldable pub rotated : (Bytes → Bool) → Clock → World → Option Bytes → World
rotated openable t w none = w
rotated openable t w (some name) =
    let d = set_log_file_name t (some w.trace.log_file_name_pre) w.trace in
    if ltb w.trace.log_file_size (length (content name w.files) % 2 ^ 32)
    then fopen openable d.log_file_name (record w { trace = d })
    else w

unfoldable pub appended : World → Option Bytes → World
appended w none = w
appended w (some name) = record w {
  files = insert name (content name w.files ++ c_str w.trace.print_buff) w.files;
}

unfoldable pub to_file : (Bytes → Bool) → Clock → World → World
to_file openable t w =
    let o = opened openable w w.trace.trace_file in
    let r = rotated openable t o o.trace.trace_file in appended r r.trace.trace_file

abbrev pub to_console : World → World
to_console w =
    if is_set 4 w.trace.trace_options
    then record w { console = w.console ++ c_str w.trace.print_buff }
    else w

unfoldable pub to_log : (Bytes → Bool) → Clock → World → World
to_log openable t w =
    if is_set 3 w.trace.trace_options && ltb 1 (length w.trace.log_file_name)
    then to_file openable t w
    else w

unfoldable pub end_trace : (Bytes → Bool) → Clock → World → World
end_trace openable t w = to_log openable t (to_console w)

-- The line goes to the file only where this call opens it.
unfoldable pub endl_file : (Bytes → Bool) → World → Option Bytes → World
endl_file openable w none =
    let o = fopen openable w.trace.log_file_name w in appended o o.trace.trace_file
endl_file openable w (some name) = w

-- `endl`, which ends a line that was begun in the critical section.
unfoldable pub endl : (Bytes → Bool) → World → World
endl openable w =
    let c = to_console w in
    let f =
      if is_set 3 c.trace.trace_options && ltb 1 (length c.trace.log_file_name)
      then endl_file openable c c.trace.trace_file
      else c in
    record f { trace = unlock (record f.trace { print_buff = [] }) }

-- TRACE(level, args).
unfoldable pub trace_macro : (Bytes → Bool) → Clock → ℕ → Bytes → ℕ → List Argument → World → World
trace_macro openable t level src_file src_line arguments w =
    if not (can_trace level w.trace)
    then w
    else let d =
        print_all (arguments ++ streamed (b'\n' ∷ []) ∷ [])
          (begin_trace t level src_file src_line (lock w.trace)) in
      let e = end_trace openable t (record w { trace = d }) in record e { trace = unlock e.trace }
