-- ===== src/StringCommon/RoundTrip.antt =====
-- On `toString` and `fromString` (src/common/string_common.h): numbers printed and read back.
use native.Mathlib.Nat.{pow-suc}
use web_socket_demo.Prelude.{
  ℕ, zero, suc, ◌+◌, ◌*◌, ◌/◌, ◌%◌, ◌^◌, ◌≤◌, ◌<◌, ◌≡◌, refl, ap, ◌∙◌, arith, true, [], ◌∷◌, ◌++◌,
  some, Bytes, ltb, if◌then◌else◌, length, length-append,
}
use web_socket_demo.Startup.{pos}
use web_socket_demo.Startup.Arguments.{AreDigits, decimal, value, atoi_digits-decimal}
use web_socket_demo.StringCommon.{
  strtol_digits, strtol_sign, strtol, from_string_int32, print_digits, to_string,
}

-- The digits of a number, the most significant first.
pub digits : ℕ → ℕ → Bytes
digits zero n = []
digits (suc left) n =
    let front = digits left (n / 10) in
    let last = (n % 10) ∷ [] in if ltb n 10 then last else front ++ last

decimal-append : (xs ys : Bytes) → decimal (xs ++ ys) ≡ decimal xs ++ decimal ys
decimal-append [] ys = refl
decimal-append (x ∷ xs) ys = ap (◌∷◌ (b'0' + x)) (decimal-append xs ys)

pub print_digits-decimal : (left n : ℕ) → print_digits left n ≡ decimal (digits left n)
unfolding print_digits digits
print_digits-decimal zero n = refl
print_digits-decimal (suc left) n = ground (
  arith,
  print_digits-decimal left (n / 10),
  decimal-append (digits left (n / 10)) ((n % 10) ∷ []),
)

AreDigits-append : (xs ys : Bytes) → AreDigits xs → AreDigits ys → AreDigits (xs ++ ys)
AreDigits-append [] ys p q = q
AreDigits-append (x ∷ xs) ys p q = (p.0, AreDigits-append xs ys p.1 q)

pub digits-AreDigits : (left n : ℕ) → AreDigits (digits left n)
unfolding digits
digits-AreDigits zero n = tt
digits-AreDigits (suc left) n = ground (
  arith,
  AreDigits-append (digits left (n / 10)) ((n % 10) ∷ []) (digits-AreDigits left (n / 10)),
)

value-append : (xs : Bytes) (y : ℕ) → value (xs ++ y ∷ []) ≡ value xs * 10 + y
value-append [] y = omega arith
value-append (x ∷ xs) y =
    rw (value-append xs y)
      (weigh (10 ^ length xs) (10 ^ length (xs ++ y ∷ [])) (next ∙ pow-suc 10 (length xs)))
  where
    next : 10 ^ length (xs ++ y ∷ []) ≡ 10 ^ suc (length xs)
    next = ap (λ (k : ℕ). 10 ^ k) (omega (arith, length-append xs (y ∷ [])))

    weigh : (p q : ℕ) → q ≡ p * 10 → x * q + (value xs * 10 + y) ≡ (x * p + value xs) * 10 + y
    weigh p q e = rw e (omega arith)

pub value-digits : (left n : ℕ) → n < 10 ^ left → value (digits left n) ≡ n
unfolding digits
value-digits zero n h = omega arith
value-digits (suc left) n h = ground (
  arith,
  value-append (digits left (n / 10)) (n % 10),
  value-digits left (n / 10),
  pow-suc 10 left,
  below (10 ^ left),
)
  where
    below : (p : ℕ) → n < p * 10 → n / 10 < p
    below p l = omega arith

pub digits_pos : (left n : ℕ) → 1 ≤ length (digits (suc left) n)
unfolding digits
digits_pos left n = ground (arith, length-append (digits left (n / 10)) ((n % 10) ∷ []))

pub strtol-decimal :
    (ds : Bytes) → 1 ≤ length ds → AreDigits ds → strtol (decimal ds) ≡ some (pos (value ds))
unfolding strtol strtol_sign strtol_digits
strtol-decimal [] l h = absurd (omega arith)
strtol-decimal (d ∷ ds) l h = ground (arith, atoi_digits-decimal 0 (d ∷ ds) h)

-- A number that an int32_t holds is read back from what is printed of it.
pub from_string_int32-to_string :
    (n : ℕ) → n < 2 ^ 31 → from_string_int32 (to_string n) ≡ (true, pos n)
unfolding from_string_int32 to_string
from_string_int32-to_string n h =
    rw
      (
        print_digits-decimal 20 n,
        strtol-decimal (digits 20 n) (digits_pos 19 n) (digits-AreDigits 20 n),
        value-digits 20 n (omega arith),
      )
      (ground arith)
