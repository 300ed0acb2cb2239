-- ===== src/StringCommon.antt =====
-- The conversions of src/common/string_common.h, but those of the types of 64 bits that sscanf reads, and of
-- floating point. What they take of the C
-- library (strtol, and vsnprintf of an unsigned number) is written out.
pub mod RoundTrip
pub mod Widths
use web_socket_demo.Prelude.{
  ℕ, zero, suc, ◌+◌, ◌-◌, ◌/◌, ◌%◌, ◌^◌, Bool, true, false, not, ◌||◌, [], ◌∷◌, ◌++◌, Option, none,
  some, Bytes, ltb, ◌==◌, if◌then◌else◌,
}
use web_socket_demo.Text.{find}
use web_socket_demo.Startup.{ℤ, pos, negsuc, negate, is_digit, is_space, atoi_digits}

-- The digits in front; none where there is not one.
unfoldable pub strtol_digits : Bytes → Option ℕ
strtol_digits [] = none
strtol_digits (c ∷ cs) = if is_digit c then some (atoi_digits 0 (c ∷ cs)) else none

abbrev pub with_sign : Option ℕ → (ℕ → ℤ) → Option ℤ
with_sign none sign = none
with_sign (some n) sign = some (sign n)

unfoldable pub strtol_sign : Bytes → Option ℤ
strtol_sign [] = none
strtol_sign (c ∷ cs) =
    if c == b'-'
    then with_sign (strtol_digits cs) negate
    else if c == b'+'
    then with_sign (strtol_digits cs) pos
    else with_sign (strtol_digits (c ∷ cs)) pos

-- `strtol(s, &end, 10)`; none is `end == s`. A value that a long cannot hold is itself here: the
-- callers refuse it as they do where errno is set.
unfoldable pub strtol : Bytes → Option ℤ
strtol [] = none
strtol (c ∷ cs) = let rest = strtol cs in if is_space c then rest else strtol_sign (c ∷ cs)

-- The result and the value; `min` is the type's least value, -`min` - 1 written.
abbrev pub in_range : ℕ → ℕ → ℤ → Bool
in_range max min (pos n) = ltb n (suc max)
in_range max min (negsuc n) = ltb n min

abbrev pub checked : (ℤ → Bool) → Option ℤ → Bool × ℤ
checked test none = (false, pos 0)
checked test (some v) = if test v then (true, v) else (false, pos 0)

-- fromString into an int32_t and into a uint16_t.
unfoldable pub from_string_int32 : Bytes → Bool × ℤ
from_string_int32 str = checked (in_range (2 ^ 31 - 1) (2 ^ 31)) (strtol str)

unfoldable pub from_string_uint16 : Bytes → Bool × ℤ
from_string_uint16 str = checked (in_range (2 ^ 16 - 1) 0) (strtol str)

-- "%llu", with the rounds that are left; a uint64_t has twenty digits at most.
unfoldable pub print_digits : ℕ → ℕ → Bytes
print_digits zero n = []
print_digits (suc left) n =
    let front = print_digits left (n / 10) in
    let last = (b'0' + n % 10) ∷ [] in if ltb n 10 then last else front ++ last

unfoldable pub to_string : ℕ → Bytes
to_string val = print_digits 20 val

-- "%d" and its like, of the types with a sign.
unfoldable pub to_string_signed : ℤ → Bytes
to_string_signed (pos n) = to_string n
to_string_signed (negsuc n) = b'-' ∷ to_string (n + 1)

unfoldable pub from_string_int8 : Bytes → Bool × ℤ
from_string_int8 str = checked (in_range (2 ^ 7 - 1) (2 ^ 7)) (strtol str)

unfoldable pub from_string_uint8 : Bytes → Bool × ℤ
from_string_uint8 str = checked (in_range (2 ^ 8 - 1) 0) (strtol str)

unfoldable pub from_string_int16 : Bytes → Bool × ℤ
from_string_int16 str = checked (in_range (2 ^ 15 - 1) (2 ^ 15)) (strtol str)

-- With strtoul, which takes what strtol does where there is no '-'.
unfoldable pub from_string_uint32 : Bytes → Bool × ℤ
from_string_uint32 str = elim (find (b'-' ∷ []) str) [
  | none ↦ checked (in_range (2 ^ 32 - 1) 0) (strtol str)
  | some at ↦ (false, pos 0)
]

-- The result, and the value.
unfoldable pub from_string_bool : Bytes → Bool × Bool
from_string_bool [] = (false, false)
from_string_bool (c ∷ []) = (c == b'0' || c == b'1', not (c == b'0'))
from_string_bool (c ∷ d ∷ cs) = (false, false)

unfoldable pub to_string_bool : Bool → Bytes
to_string_bool val = if val then b'1' ∷ [] else b'0' ∷ []
