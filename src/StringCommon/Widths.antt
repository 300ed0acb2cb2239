-- ===== src/StringCommon/Widths.antt =====
-- On `toString` and `fromString` (src/common/string_common.h): the integers of 8, 16 and 32 bits.
use web_socket_demo.Prelude.{
  ℕ, ◌+◌, ◌-◌, ◌^◌, ◌≤◌, ◌<◌, ◌≡◌, ◌≢◌, refl, ap, ◌∙◌, arith, Bool, true, [], ◌∷◌, some, Bytes,
  length, All,
}
use web_socket_demo.Startup.{ℤ, pos, negsuc, negate}
use web_socket_demo.Startup.Arguments.{AreDigits, decimal, value, atoi_digits-decimal}
use web_socket_demo.Text.Find.{find-not_in}
use web_socket_demo.StringCommon.{
  in_range, checked, strtol_digits, strtol_sign, strtol, to_string, to_string_signed,
  from_string_int8, from_string_uint8, from_string_int16, from_string_uint16, from_string_int32,
  from_string_uint32,
}
use web_socket_demo.StringCommon.RoundTrip.{
  digits, print_digits-decimal, digits_pos, digits-AreDigits, value-digits, strtol-decimal,
}

pub data IntType : Type 0 where
  int8 uint8 int16 uint16 int32 uint32 : IntType

abbrev pub max_of : IntType → ℕ
max_of int8 = 2 ^ 7 - 1
max_of uint8 = 2 ^ 8 - 1
max_of int16 = 2 ^ 15 - 1
max_of uint16 = 2 ^ 16 - 1
max_of int32 = 2 ^ 31 - 1
max_of uint32 = 2 ^ 32 - 1

abbrev pub min_of : IntType → ℕ
min_of int8 = 2 ^ 7
min_of uint8 = 0
min_of int16 = 2 ^ 15
min_of uint16 = 0
min_of int32 = 2 ^ 31
min_of uint32 = 0

abbrev pub from_string : IntType → Bytes → Bool × ℤ
from_string int8 str = from_string_int8 str
from_string uint8 str = from_string_uint8 str
from_string int16 str = from_string_int16 str
from_string uint16 str = from_string_uint16 str
from_string int32 str = from_string_int32 str
from_string uint32 str = from_string_uint32 str

abbrev pub Holds : IntType → ℤ → Type 0
Holds t v = in_range (max_of t) (min_of t) v ≡ true

strtol-to_string : (n : ℕ) → n < 10 ^ 20 → strtol (to_string n) ≡ some (pos n)
unfolding to_string
strtol-to_string n h =
    rw
      (
        print_digits-decimal 20 n,
        strtol-decimal (digits 20 n) (digits_pos 19 n) (digits-AreDigits 20 n),
        value-digits 20 n h,
      )
      refl

minus-decimal :
    (ds : Bytes)
    → 1 ≤ length ds
    → AreDigits ds
    → strtol (b'-' ∷ decimal ds) ≡ some (negate (value ds))
unfolding strtol strtol_sign strtol_digits
minus-decimal [] l h = absurd (omega arith)
minus-decimal (d ∷ ds) l h = ground (arith, atoi_digits-decimal 0 (d ∷ ds) h)

negate-suc : (n : ℕ) → negate (n + 1) ≡ negsuc n
negate-suc n = ground arith

strtol-to_string_signed :
    (v : ℤ) → in_range (10 ^ 19) (10 ^ 19) v ≡ true → strtol (to_string_signed v) ≡ some v
unfolding to_string_signed to_string
strtol-to_string_signed (pos n) h = strtol-to_string n (ground arith)
strtol-to_string_signed (negsuc n) h =
    rw
      (
        print_digits-decimal 20 (n + 1),
        minus-decimal (digits 20 (n + 1)) (digits_pos 19 (n + 1)) (digits-AreDigits 20 (n + 1)),
        value-digits 20 (n + 1) (ground arith),
        negate-suc n,
      )
      refl

no_minus : (ds : Bytes) → AreDigits ds → All (λ c. c ≢ b'-') (decimal ds)
no_minus [] h = tt
no_minus (d ∷ ds) h = (λ e. omega arith, no_minus ds h.1)

-- The sign is only looked for in what strtoul reads.
uint32_lem :
    (n : ℕ)
    → n < 10 ^ 20
    → from_string_uint32 (to_string n) ≡ checked (in_range (2 ^ 32 - 1) 0) (some (pos n))
unfolding from_string_uint32 to_string
uint32_lem n h = ground (
  arith,
  strtol-to_string n h,
  ap decimal (refl {a = digits 20 n}),
  print_digits-decimal 20 n,
  find-not_in b'-' (decimal (digits 20 n)) (no_minus (digits 20 n) (digits-AreDigits 20 n)),
)

wider :
    (max min : ℕ) (v : ℤ)
    → max ≤ 2 ^ 31
    → min ≤ 2 ^ 31
    → in_range max min v ≡ true
    → in_range (10 ^ 19) (10 ^ 19) v ≡ true
wider max min (pos n) a b h = ground arith
wider max min (negsuc n) a b h = ground arith

read_back :
    (max min : ℕ) (v : ℤ)
    → max ≤ 2 ^ 31
    → min ≤ 2 ^ 31
    → in_range max min v ≡ true
    → checked (in_range max min) (strtol (to_string_signed v)) ≡ (true, v)
read_back max min v a b h = rw (strtol-to_string_signed v (wider max min v a b h), h) refl

-- What is printed of an integer of 8, 16 or 32 bits, with or without a sign, is read back as it was, by
-- the conversion for its type.
pub from_string-to_string_signed :
    (t : IntType) (v : ℤ) → Holds t v → from_string t (to_string_signed v) ≡ (true, v)
unfolding from_string_int8 from_string_uint8 from_string_int16 from_string_uint16 from_string_int32
    to_string_signed
from_string-to_string_signed int8 v h =
    read_back (2 ^ 7 - 1) (2 ^ 7) v (omega arith) (omega arith) h
from_string-to_string_signed uint8 v h = read_back (2 ^ 8 - 1) 0 v (omega arith) (omega arith) h
from_string-to_string_signed int16 v h =
    read_back (2 ^ 15 - 1) (2 ^ 15) v (omega arith) (omega arith) h
from_string-to_string_signed uint16 v h = read_back (2 ^ 16 - 1) 0 v (omega arith) (omega arith) h
from_string-to_string_signed int32 v h =
    read_back (2 ^ 31 - 1) (2 ^ 31) v (omega arith) (omega arith) h
from_string-to_string_signed uint32 (pos n) h = uint32_lem n (ground arith) ∙ rw h refl
from_string-to_string_signed uint32 (negsuc n) h = absurd (ground arith)
