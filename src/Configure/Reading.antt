-- ===== src/Configure/Reading.antt =====
-- `load`, `GetStrParam` and `GetIntParam` of src/common/Configure.cpp. The file is its bytes, none where fopen
-- fails, with no NUL among them; the byte before the buffer, which a blank line makes `line[len]` read, is
-- taken not to be a backslash.
use mathlib.Core.Option
use web_socket_demo.Prelude.{
  ℕ, zero, suc, ◌-◌, Bool, true, false, not, ◌&&◌, List, [], ◌∷◌, ◌++◌, Option, none, some, Bytes,
  ◌==◌, if◌then◌else◌, length,
}
use web_socket_demo.Text.{equal}
use web_socket_demo.Startup.{ℤ, atoi}
use web_socket_demo.Configure.{
  LineStatus, line_unprocessed, line_error, line_empty, line_comment, line_section, line_value,
  is_nil, is_last, strip_end, Parsed, iniparser_line,
}

abbrev pub asciilinesz : ℕ
asciilinesz = 1024

-- fgets with room for `n` characters and a NUL: what it stores, and what is left of the file.
unfoldable pub fgets : ℕ → Bytes → Bytes × Bytes
fgets zero file = ([], file)
fgets (suc n) [] = ([], [])
fgets (suc n) (c ∷ file) =
    let rest = fgets n file in if c == b'\n' then (c ∷ [], file) else (c ∷ rest.0, rest.1)

-- What a round of the loop makes of the characters it kept (`last` of them) and the file.
pub data Next : Type 0 where
  at_end : Next
  no_newline : Next
  continued : Bytes → Bytes → Next
  complete : Bytes → Bytes → Next

-- All but the last character.
abbrev pub init_of : Bytes → Bytes
init_of [] = []
init_of (c ∷ []) = []
init_of (c ∷ d ∷ s) = c ∷ init_of (d ∷ s)

-- `line` is the buffer after fgets. A line that ends with a backslash is kept without it.
unfoldable pub take_line : Bytes → Bytes → Next
take_line line rest =
    if not (is_last b'\n' line)
    then no_newline
    else let text = strip_end line in
      if is_last b'\\' text then continued (init_of text) rest else complete text rest

unfoldable pub next_line : Bytes → Bytes → Next
next_line kept file =
    let r = fgets (asciilinesz - length kept - 1) file in
    if is_nil r.0 then at_end else take_line (kept ++ r.0) r.1

-- The rest of a loop: the kept characters, the file and the buffers give its result, none without fuel.
abbrev pub Rest : Type 0 → Type 0
Rest R = Bytes → Bytes → Parsed → Option R

-- What `parse_value` is called with, before the calls of the rest.
abbrev pub Loaded : Type 0
Loaded = Bool × List (Bytes × Bytes)

abbrev pub and_call : Parsed → Option Loaded → Option Loaded
and_call p none = none
and_call p (some r) = some (r.0, (p.key, p.value) ∷ r.1)

abbrev pub load_parsed : LineStatus → Parsed → Option Loaded → Option Loaded
load_parsed line_value p rest = and_call p rest
load_parsed line_unprocessed p rest = rest
load_parsed line_error p rest = rest
load_parsed line_empty p rest = rest
load_parsed line_comment p rest = rest
load_parsed line_section p rest = rest

unfoldable pub load_round : Rest Loaded → Next → Parsed → Option Loaded
load_round rest at_end b = some (true, [])
load_round rest no_newline b = some (false, [])
load_round rest (continued kept file) b = rest kept file b
load_round rest (complete line file) b =
    let p = iniparser_line line b.section b.key b.value in load_parsed p.status p (rest [] file p)

unfoldable pub load_loop : ℕ → Bytes → Bytes → Parsed → Option Loaded
load_loop zero kept file b = none
load_loop (suc fuel) kept file b = load_round (load_loop fuel) (next_line kept file) b

abbrev pub cleared : Parsed
cleared = record { status = line_unprocessed; section = []; key = []; value = [] }

-- Each round takes a character of the file at least.
unfoldable pub load : Option Bytes → Option Loaded
load none = some (false, [])
load (some file) = load_loop (suc (length file)) [] file cleared

-- `lbFound` ends the loop with the value.
unfoldable pub find_parsed : Bytes → Bytes → LineStatus → Parsed → Option Bytes → Option Bytes
find_parsed key section line_value p rest =
    if equal key p.key && equal section p.section then some p.value else rest
find_parsed key section line_unprocessed p rest = rest
find_parsed key section line_error p rest = rest
find_parsed key section line_empty p rest = rest
find_parsed key section line_comment p rest = rest
find_parsed key section line_section p rest = rest

unfoldable pub find_round : Bytes → Bytes → Rest Bytes → Next → Parsed → Option Bytes
find_round key section rest at_end b = some []
find_round key section rest no_newline b = some []
find_round key section rest (continued kept file) b = rest kept file b
find_round key section rest (complete line file) b =
    let p = iniparser_line line b.section b.key b.value in
    find_parsed key section p.status p (rest [] file p)

unfoldable pub find_loop : Bytes → Bytes → ℕ → Bytes → Bytes → Parsed → Option Bytes
find_loop key section zero kept file b = none
find_loop key section (suc fuel) kept file b =
    find_round key section (find_loop key section fuel) (next_line kept file) b

unfoldable pub get_str_param : Bytes → Bytes → Option Bytes → Option Bytes
get_str_param key section none = some []
get_str_param key section (some file) = find_loop key section (suc (length file)) [] file cleared

abbrev pub get_int_param : Bytes → Bytes → Option Bytes → Option ℤ
get_int_param key section file = Option.map atoi (get_str_param key section file)
