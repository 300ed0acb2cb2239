-- ===== src/Trace.antt =====
-- `CDebugTrace` of src/common/debugtrace.h and src/common/debugtrace.cpp, compiled as debugtrace.h has it: the log is
-- written to its file directly.
pub mod Files
pub mod Bounds
pub mod Printing
pub mod Appends
pub mod Start
use web_socket_demo.Prelude.{
  ℕ, zero, suc, ◌+◌, ◌-◌, ◌*◌, ◌/◌, ◌%◌, ◌^◌, Bool, true, false, not, ◌&&◌, List, [], ◌∷◌, ◌++◌,
  Option, none, some, Bytes, ltb, leb, ◌==◌, ◌>>>◌, int_le, is_negative, if◌then◌else◌, length,
}
use web_socket_demo.Text.{codes, c_str, HeaderMap}
use web_socket_demo.Startup.{ℤ, pos, negsuc}
use web_socket_demo.StringCommon.{print_digits}

abbrev pub def_max_buff_len : ℕ
def_max_buff_len = 2048

-- The first `mlDataLen` characters of mszPrintBuff, the settings, and the name under which the log file
-- is open. Ints are their bit patterns. `depth` is how often the critical section is held.
pub record DebugTrace : Type 0 where
  pub print_buff : Bytes
  pub log_level : ℕ
  pub log_file_name : Bytes
  pub log_file_name_pre : Bytes
  pub trace_options : ℕ
  pub log_file_size : ℕ
  pub trace_file : Option Bytes
  pub depth : ℕ

-- Timestamp = 1, LogLevel = 2, FileAndLine = 4, AppendToFile = 8, PrintToConsole = 16.
abbrev pub is_set : ℕ → ℕ → Bool
is_set bit options = (options >>> bit) % 2 == 1

unfoldable pub construct : ℕ → DebugTrace
construct options = record {
  print_buff = [];
  log_level = 4;
  log_file_name = [];
  log_file_name_pre = [];
  trace_options = options;
  log_file_size = 100 * 1024 * 1024;
  trace_file = none;
  depth = 0;
}

-- An argument of `<<`, by the overload that takes it; `streamed` is the text that std::stringstream makes of a value.
pub data Argument : Type 0 where
  char_val : ℕ → Argument
  bool_val : Bool → Argument
  int64_val : ℤ → Argument
  str_val : Option Bytes → Argument
  streamed : Bytes → Argument

-- "%lld": 2^63 has nineteen digits.
unfoldable pub int64_text : ℤ → Bytes
int64_text (pos n) = print_digits 19 n
int64_text (negsuc n) = b'-' ∷ print_digits 19 (n + 1)

unfoldable pub write : Bool → Bytes → DebugTrace → DebugTrace
write false text d = d
write true text d = record d { print_buff = d.print_buff ++ text }

abbrev pub bool_text : Bool → Bytes
bool_text true = codes "true"
bool_text false = codes "false"

-- `mlDataLen < DEF_MAX_BUFF_LEN - strlen`, where a text that is longer than the buffer makes the
-- difference negative.
abbrev pub has_room : Bytes → DebugTrace → Bool
has_room text d = ltb (length d.print_buff + length text) def_max_buff_len

unfoldable pub print : Argument → DebugTrace → DebugTrace
print (char_val c) d = write (ltb (length d.print_buff) (def_max_buff_len - 2)) (print_digits 3 c) d
print (bool_val b) d = write (ltb (length d.print_buff) (def_max_buff_len - 6)) (bool_text b) d
print (int64_val i) d = write (ltb (length d.print_buff) (def_max_buff_len - 20)) (int64_text i) d
print (str_val none) d = write (has_room (codes "NULL") d) (codes "NULL") d
print (str_val (some s)) d = write (has_room (c_str s) d) (c_str s) d
print (streamed s) d = write (has_room s d) s d

abbrev pub print_all : List Argument → DebugTrace → DebugTrace
print_all [] d = d
print_all (a ∷ as') d = print_all as' (print a d)

-- The local time.
pub record Clock : Type 0 where
  pub year : ℕ
  pub mon : ℕ
  pub mday : ℕ
  pub hour : ℕ
  pub min : ℕ
  pub sec : ℕ
  pub millitm : ℕ

-- "%02d" and its like of a number that is not negative: zeros up to the width.
unfoldable pub padded : ℕ → ℕ → Bytes
padded zero n = print_digits 10 n
padded (suc width) n =
    let rest = padded width n in
    if leb (10 ^ width) n then print_digits 10 n else if width == 0 then rest else b'0' ∷ rest

unfoldable pub stamp : Clock → Bytes
stamp t =
    padded 2 t.hour
    ++ (b':' ∷ (padded 2 t.min ++ (b':' ∷ (padded 2 t.sec ++ (b':' ∷ padded 3 t.millitm)))))

-- What std::stringstream writes of an int.
unfoldable pub int_text : ℕ → Bytes
int_text n = if is_negative n then b'-' ∷ print_digits 10 (2 ^ 32 - n) else print_digits 10 n

-- What BeginTrace prints.
unfoldable pub prefix_of : ℕ → Clock → ℕ → Bytes → ℕ → List Argument
prefix_of options t level src_file src_line =
    (if is_set 0 options then streamed (stamp t) ∷ streamed (b' ' ∷ []) ∷ [] else [])
    ++ ((if is_set 1 options then streamed (int_text level) ∷ streamed (b' ' ∷ []) ∷ [] else [])
        ++ (if is_set 2 options
            then streamed src_file
              ∷ str_val (some (codes "("))
              ∷ streamed (int_text src_line)
              ∷ str_val (some (codes ") "))
              ∷ []
            else []))

unfoldable pub begin_trace : Clock → ℕ → Bytes → ℕ → DebugTrace → DebugTrace
begin_trace t level src_file src_line d =
    print_all (prefix_of d.trace_options t level src_file src_line) (record d { print_buff = [] })

unfoldable pub can_trace : ℕ → DebugTrace → Bool
can_trace level d = int_le level d.log_level && not (level == 0)

abbrev pub set_trace_level : ℕ → DebugTrace → DebugTrace
set_trace_level level d = record d { log_level = level }

abbrev pub set_trace_options : ℕ → DebugTrace → DebugTrace
set_trace_options options d = record d { trace_options = options }

abbrev pub set_log_file_size : ℕ → DebugTrace → DebugTrace
set_log_file_size size d = record d { log_file_size = size }

abbrev pub lock : DebugTrace → DebugTrace
lock d = record d { depth = d.depth + 1 }

abbrev pub unlock : DebugTrace → DebugTrace
unlock d = record d { depth = d.depth - 1 }
