-- ===== src/Configure.antt =====
-- `CConfigure` of src/common/Configure.cpp: one line of a configuration file. A char buffer is its text up to
-- the NUL, and a sscanf conversion is what it assigns.
pub mod Reading
pub mod Text
pub mod Lines
pub mod Lookup
pub mod Bounds
pub mod Scans
pub mod Buffers
use web_socket_demo.Prelude.{
  ℕ, Bool, true, false, not, ◌&&◌, List, [], ◌∷◌, Option, none, some, Bytes, ◌==◌, if◌then◌else◌,
  drop,
}
use web_socket_demo.Text.{codes, equal}
use web_socket_demo.Startup.{is_space}

pub data LineStatus : Type 0 where
  line_unprocessed line_error line_empty line_comment line_section line_value : LineStatus

abbrev pub is_nil : Bytes → Bool
is_nil [] = true
is_nil (c ∷ cs) = false

abbrev pub is_last : ℕ → Bytes → Bool
is_last c [] = false
is_last c (x ∷ []) = x == c
is_last c (x ∷ y ∷ s) = is_last c (y ∷ s)

abbrev pub is_first : ℕ → Bytes → Bool
is_first c [] = false
is_first c (x ∷ s) = x == c

unfoldable pub skip_space : Bytes → Bytes
skip_space [] = []
skip_space (c ∷ s) = let rest = skip_space s in if is_space c then rest else c ∷ s

unfoldable pub strip_end : Bytes → Bytes
strip_end [] = []
strip_end (c ∷ s) = let rest = strip_end s in if is_space c && is_nil rest then [] else c ∷ rest

unfoldable pub strstrip : Bytes → Bytes
strstrip s = strip_end (skip_space s)

-- The longest front whose characters pass, and what is behind it.
unfoldable pub span : (ℕ → Bool) → Bytes → Bytes × Bytes
span test [] = ([], [])
span test (c ∷ s) = let rest = span test s in if test c then (c ∷ rest.0, rest.1) else ([], c ∷ s)

-- "%[...]", which takes one character or more.
unfoldable pub scan_set : (ℕ → Bool) → Bytes → Option (Bytes × Bytes)
scan_set test s = let r = span test s in if is_nil r.0 then none else some r

-- A character of the format.
abbrev pub scan_char : ℕ → Bytes → Option Bytes
scan_char c [] = none
scan_char c (x ∷ s) = if x == c then some s else none

abbrev pub no_equals : ℕ → Bool
no_equals c = not (c == b'=')

abbrev pub no_comment : ℕ → Bool
no_comment c = not (c == b';') && not (c == b'#')

abbrev pub is_comment : ℕ → Bool
is_comment c = not (no_comment c)

infixl 5 ◌>>=◌
abbrev pub ◌>>=◌ {ℓ κ} : {A : Type ℓ} {B : Type κ} → Option A → (A → Option B) → Option B
none >>= f = none
some a >>= f = f a

-- "%[^=] = ", then "%[...]"; the key and the value, where both are assigned.
unfoldable pub scan_value : (ℕ → Bool) → Bytes → Option (Bytes × Bytes)
scan_value test line = do
  k ← scan_set no_equals line
  s ← scan_char b'=' (skip_space k.1)
  v ← scan_set test (skip_space s)
  some (k.0, v.0)

-- "%[^=] = \"%[^\"]\"", and the same with another quote; the last character of the format assigns nothing.
unfoldable pub scan_quoted : ℕ → Bytes → Option (Bytes × Bytes)
scan_quoted quote line = do
  k ← scan_set no_equals line
  s ← scan_char b'=' (skip_space k.1)
  t ← scan_char quote (skip_space s)
  v ← scan_set (λ c. not (c == quote)) t
  some (k.0, v.0)

-- "%[^=] %[=]"
unfoldable pub scan_bare : Bytes → Option (Bytes × Bytes)
scan_bare line = do
  k ← scan_set no_equals line
  v ← scan_set (λ c. c == b'=') (skip_space k.1)
  some (k.0, v.0)

abbrev pub or_else : Option (Bytes × Bytes) → Option (Bytes × Bytes) → Option (Bytes × Bytes)
or_else none other = other
or_else (some a) other = some a

-- What iniparser_line leaves in its buffers.
pub record Parsed : Type 0 where
  pub status : LineStatus
  pub section : Bytes
  pub key : Bytes
  pub value : Bytes

-- The two ways to write an empty value.
abbrev pub unquote : Bytes → Bytes
unquote value =
    if equal value (codes "\"\"") then [] else if equal value (codes "''") then [] else value

-- The buffer `old` after a conversion: a failed one assigns nothing.
abbrev pub assigned : Option (Bytes × Bytes) → Bytes → Bytes
assigned none old = old
assigned (some r) old = r.0

unfoldable pub special_line : Bytes → Bytes → Bytes → Bytes → Option (Bytes × Bytes) → Parsed
special_line line section key value none = record {
  status = line_error;
  section = section;
  key = assigned (scan_set no_equals line) key;
  value = value;
}
special_line line section key value (some kv) = record {
  status = line_value;
  section = section;
  key = strstrip kv.0;
  value = [];
}

unfoldable pub value_line : Bytes → Bytes → Bytes → Bytes → Option (Bytes × Bytes) → Parsed
value_line line section key value none =
    special_line line section key value (or_else (scan_value is_comment line) (scan_bare line))
value_line line section key value (some kv) = record {
  status = line_value;
  section = section;
  key = strstrip kv.0;
  value = unquote (strstrip kv.1);
}

-- "[%[^]]": a line "[]" leaves the section as it was.
unfoldable pub section_name : Bytes → Bytes → Bytes
section_name line section =
    strstrip (assigned (scan_set (λ c. not (c == b']')) (drop 1 line)) section)

unfoldable pub iniparser_line : Bytes → Bytes → Bytes → Bytes → Parsed
iniparser_line input_line section key value =
    let line = strstrip input_line in
    if is_nil line
    then record { status = line_empty; section = section; key = key; value = value }
    else if is_first b'#' line
    then record { status = line_comment; section = section; key = key; value = value }
    else if is_first b'[' line && is_last b']' line
    then record {
      status = line_section;
      section = section_name line section;
      key = key;
      value = value;
    }
    else value_line line section key value (
        or_else (scan_quoted b'"' line)
          (or_else (scan_quoted b'\'' line) (scan_value no_comment line)))
