-- ===== src/Trace/Bounds.antt =====
-- The buffer mszPrintBuff of `CDebugTrace` (src/common/debugtrace.cpp), which has 2049 characters.
use web_socket_demo.Prelude.{ℕ, ◌+◌, ◌≤◌, ◌<◌, ◌++◌, List, [], ◌∷◌, none, some, Bytes, length}
use web_socket_demo.Text.{codes, c_str}
use web_socket_demo.StringCommon.{print_digits}
use web_socket_demo.Trace.{
  def_max_buff_len, DebugTrace, Argument, char_val, bool_val, int64_val, str_val, streamed,
  int64_text, bool_text,
}

-- The buffer holds its text and the NUL.
abbrev pub Fits : DebugTrace → Type 0
Fits d = length d.print_buff ≤ def_max_buff_len

-- The text of an argument, and the room that is asked for it beside the NUL: that of the longest
-- text of its kind for a character (one less than its three digits), a truth value and a number.
abbrev pub text_of : Argument → Bytes
text_of (char_val c) = print_digits 3 c
text_of (bool_val b) = bool_text b
text_of (int64_val i) = int64_text i
text_of (str_val none) = codes "NULL"
text_of (str_val (some s)) = c_str s
text_of (streamed s) = s

abbrev pub room_for : Argument → ℕ
room_for (char_val c) = 2
room_for (bool_val b) = 6
room_for (int64_val i) = 20
room_for (str_val none) = 4
room_for (str_val (some s)) = length (c_str s)
room_for (streamed s) = length s

-- From the first text to the second, each argument in order: whole where there is room, and
-- otherwise not at all.
pub data Printed : List Argument → Bytes → Bytes → Type 0 where
  done : (b : Bytes) → Printed [] b b
  whole :
      {a : Argument} {args : List Argument} {b c : Bytes}
      → length b + room_for a < def_max_buff_len
      → Printed args (b ++ text_of a) c
      → Printed (a ∷ args) b c
  left_out :
      {a : Argument} {args : List Argument} {b c : Bytes}
      → def_max_buff_len ≤ length b + room_for a
      → Printed args b c
      → Printed (a ∷ args) b c
