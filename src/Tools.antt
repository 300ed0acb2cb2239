-- ===== src/Tools.antt =====
-- src/websocket_master/Tools: `FileTools`, `TimeTools` and `LogTools`.
pub mod Config
pub mod Logs
use web_socket_demo.Prelude.{
  ℕ, zero, suc, ◌+◌, ◌-◌, ◌*◌, ◌/◌, ◌%◌, ◌^◌, ◌≡◌, refl, Bool, true, false, not, ◌&&◌, List, [],
  ◌∷◌, ◌++◌, Option, none, some, Bytes, ltb, leb, ◌==◌, if◌then◌else◌, length, take, drop,
}
use web_socket_demo.Text.{codes, find}
use web_socket_demo.Startup.{ℤ, pos, negsuc, atoi_digits}
use web_socket_demo.StringCommon.{print_digits}
use web_socket_demo.Configure.{is_nil, is_last}
use web_socket_demo.Configure.Reading.{fgets}

abbrev pub bufsize : ℕ
bufsize = 1024

-- The open file: its bytes, none of them NUL, and those from the place of reading on; none where `m_fd` is NULL.
pub record FileTools : Type 0 where
  pub fd : Option (Bytes × Bytes)

-- What a call gives: a value, or the exception it throws.
pub data Thrown {ℓ} (A : Type ℓ) : Type ℓ where
  done : A → Thrown A
  thrown : Bytes → Thrown A

abbrev pub open_file : Option Bytes → Bytes → Thrown FileTools
open_file none error = thrown error
open_file (some file) error = done (record { fd = some (file, file) })

-- Up to `lines` calls of fgets; where `lines` is 0 or less, they go on to the end of the file.
unfoldable pub read_lines : ℕ → Bytes → Bytes → Bool × Bytes × Bytes
read_lines zero buf rest = (true, buf ++ rest, [])
read_lines (suc lines) buf rest =
    let r = fgets (bufsize - 1) rest in
    let more = read_lines lines (buf ++ r.0) r.1 in
    if is_nil r.0 then (false, buf, []) else if lines == 0 then (true, buf ++ r.0, r.1) else more

-- The result, what `buf` holds, and the file after it.
unfoldable pub read_nline : ℕ → FileTools → Thrown (Bool × Bytes × FileTools)
read_nline lines f = elim f.fd [
  | none ↦ thrown (codes "m_fd == NULL")
  | some fd ↦ let r = read_lines lines [] fd.1 in done (r.0, r.1, record { fd = some (fd.0, r.2) })
]

abbrev pub reset_fd : FileTools → FileTools
reset_fd f = elim f.fd [ none ↦ f | some fd ↦ record { fd = some (fd.0, fd.0) } ]

-- The text from a place of the buffer `line` on, whose last but one character is the NUL now. Behind
-- the text there is what a line before has left, `stale`.
unfoldable pub from_place : Bytes → Bytes → ℕ → Bytes
from_place stale line k =
    if leb k (length line - 2)
    then drop k (take (length line - 2) line)
    else if leb k (length line)
    then drop k line
    else stale

-- A line, and the rest of the loop.
abbrev pub conf_line : Bytes → Bytes → Bytes → Option Bytes → Option Bytes
conf_line stale title line rest = elim (find title line) [
  | none ↦ rest
  | some p ↦ some (from_place stale line (p + length title + 1))
]

unfoldable pub conf_loop : Bytes → Bytes → ℕ → Bytes → Option Bytes
conf_loop stale title zero file = none
conf_loop stale title (suc fuel) file =
    let r = read_lines 1 [] file in
    let rest = conf_loop stale title fuel r.2 in
    if r.0 then conf_line stale title r.1 rest else none

-- From the start of the file; each round takes a character or more. None is false, and `data` as it was, also
-- without an open file, for which fseek is undefined.
unfoldable pub get_conf : Bytes → Bytes → FileTools → Option Bytes
get_conf stale title f = elim f.fd [
  | none ↦ none
  | some fd ↦ conf_loop stale title (suc (length fd.0)) fd.0
]

-- The names in the directory are those that readdir gives, in order; the last one read stays in `buf`.
unfoldable pub full_name : Bytes → Bytes → Bytes
full_name dirname name = if is_last b'/' dirname then dirname ++ name else dirname ++ (b'/' ∷ name)

unfoldable pub name_loop : Bytes → ℕ → Bytes → List Bytes → Bool × Bytes
name_loop dirname zero buf [] = (true, buf)
name_loop dirname zero buf (n ∷ names) = name_loop dirname zero (full_name dirname n) names
name_loop dirname (suc num) buf [] = (false, buf)
name_loop dirname (suc num) buf (n ∷ names) =
    let rest = name_loop dirname num (full_name dirname n) names in
    if num == 0 then (true, full_name dirname n) else rest

unfoldable pub get_filename :
    Bytes → Option (List Bytes) → Bytes → ℕ → Bytes → Thrown (Bool × Bytes)
get_filename dirname none error num buf = thrown error
get_filename dirname (some names) error num buf = done (name_loop dirname num buf names)

-- From the seconds and the microseconds.
unfoldable pub get_msec : ℕ → ℕ → ℕ
get_msec tv_sec tv_usec = tv_sec * 1000 + tv_usec / 100

-- The year, the month and the day, printed one behind the other.
unfoldable pub get_curr_time : ℕ → ℕ → ℕ → ℕ
get_curr_time year month day =
    atoi_digits 0 (print_digits 10 year ++ (print_digits 10 month ++ print_digits 10 day))
