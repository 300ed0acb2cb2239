-- ===== src/Prelude/Words.antt =====
-- Machine words as native numbers: casts by `%`, shifts by powers of two, and what `|` and `^` do on
-- the bytes of the frame code.
use Prim.Native.Nat.{
  ℕ, zero, suc, ◌+◌, ◌*◌, ◌/◌, ◌%◌, ◌^◌, ◌≤◌, ◌<◌, max, bit_or, bit_xor, digits, bit_or-bitwise,
}
use mathlib.Core.Path.{◌≡◌, refl}
use mathlib.Core.Bool.{Bool, true, ◌&&◌}
use mathlib.Core.List.{List}
use native.Mathlib.Omega.{arith}
use web_socket_demo.Prelude.Tests.{ltb, ltb→lt, ◌==◌, ==_iff, leb}
use web_socket_demo.Prelude.Lists.{All}

abbrev pub Bytes : Type 0
Bytes = List ℕ

abbrev pub IsByte : ℕ → Type 0
IsByte b = b < 256

abbrev pub IsBytes : Bytes → Type 0
IsBytes = All IsByte

abbrev pub u8 : ℕ → ℕ
u8 n = n % 2 ^ 8

abbrev pub u16 : ℕ → ℕ
u16 n = n % 2 ^ 16

abbrev pub u64 : ℕ → ℕ
u64 n = n % 2 ^ 64

infixl 75 ◌<<<◌ ◌>>>◌
abbrev pub ◌<<<◌ : ℕ → ℕ → ℕ
x <<< k = x * 2 ^ k

abbrev pub ◌>>>◌ : ℕ → ℕ → ℕ
x >>> k = x / 2 ^ k

-- An `int` is its bit pattern, below 2 ^ 32.
abbrev pub is_negative : ℕ → Bool
is_negative w = leb (2 ^ 31) w

-- `a <= b` of two ints: with the sign bit flipped, the patterns are in the order of the numbers.
abbrev pub int_le : ℕ → ℕ → Bool
int_le a b = leb ((a + 2 ^ 31) % 2 ^ 32) ((b + 2 ^ 31) % 2 ^ 32)

-- Every value below a bound, by evaluation.
unfoldable pub check_below : ℕ → (ℕ → Bool) → Bool
check_below zero p = true
check_below (suc n) p = p n && check_below n p

pub check_below_sound : (n : ℕ) (p : ℕ → Bool) (x : ℕ) → check_below n p ≡ true → x < n → p x ≡ true
unfolding check_below
check_below_sound zero p x h lt = absurd (omega arith)
check_below_sound (suc n) p x h lt = ground (arith, check_below_sound n p x)

xor_table : check_below 256 (λ x. check_below 256 (λ k. bit_xor (bit_xor x k) k == x)) ≡ true
unfolding check_below
xor_table = refl

-- `^` with one byte twice gives the first byte back.
xor_bytes : check_below 256 (λ x. check_below 256 (λ k. ltb (bit_xor x k) 256)) ≡ true
unfolding check_below
xor_bytes = refl

pub bit_xor-IsByte : (x k : ℕ) → IsByte x → IsByte k → IsByte (bit_xor x k)
bit_xor-IsByte x k hx hk = ltb→lt (bit_xor x k) 256 (
    check_below_sound 256 (λ k. ltb (bit_xor x k) 256) k
      (check_below_sound 256 (λ x. check_below 256 (λ k. ltb (bit_xor x k) 256)) x xor_bytes hx) hk)

pub bit_xor_twice : (x k : ℕ) → IsByte x → IsByte k → bit_xor (bit_xor x k) k ≡ x
bit_xor_twice x k hx hk = (==_iff _ x).0 (
    check_below_sound 256 (λ k. bit_xor (bit_xor x k) k == x) k
      (check_below_sound 256 (λ x. check_below 256 (λ k. bit_xor (bit_xor x k) k == x)) x xor_table
        hx)
      hk)

-- The meaning of `|` on binary digits, with the fuel that runs through them.
abbrev or_run : ℕ → ℕ → ℕ → ℕ
or_run n a b = digits (λ y. y) max n a b

-- Any fuel that covers the first operand gives the same digits.
or_run-eq : (m n a b : ℕ) → a ≤ m → a ≤ n → or_run m a b ≡ or_run n a b
or_run-eq m n zero b p q = or_run-zero m n b
  where
    or_run-zero : (m n b : ℕ) → or_run m zero b ≡ or_run n zero b
    or_run-zero zero zero b = refl
    or_run-zero zero (suc n) b = refl
    or_run-zero (suc m) zero b = refl
    or_run-zero (suc m) (suc n) b = refl
or_run-eq (suc m) (suc n) (suc a) b p q =
    omega (arith, or_run-eq m n (suc a / 2) (b / 2) (omega arith) (omega arith))
or_run-eq zero n (suc a) b p q = absurd (omega arith)
or_run-eq (suc m) zero (suc a) b p q = absurd (omega arith)

bit_or_digit : (a b : ℕ) → bit_or a b ≡ bit_or (a / 2) (b / 2) * 2 + max (a % 2) (b % 2)
bit_or_digit zero b = omega (arith, bit_or-bitwise 0 b, bit_or-bitwise 0 (b / 2))
bit_or_digit (suc a) b = omega (
  arith,
  bit_or-bitwise (suc a) b,
  bit_or-bitwise (suc a / 2) (b / 2),
  or_run-eq a (suc a / 2) (suc a / 2) (b / 2) (omega arith) (omega arith),
)

bit_or-zero_below : (n a : ℕ) → a ≤ n → bit_or a 0 ≡ a
bit_or-zero_below n zero h = refl
bit_or-zero_below zero (suc a) h = absurd (omega arith)
bit_or-zero_below (suc n) (suc a) h =
    omega (arith, bit_or_digit (suc a) 0, bit_or-zero_below n (suc a / 2) (omega arith))

-- One digit of the second operand comes through an even first operand.
or_even : (a e b : ℕ) → a ≡ e * 2 → bit_or a b ≡ bit_or e (b / 2) * 2 + b % 2
or_even a e b h =
    let half : a / 2 ≡ e = omega arith in
    let low : max (a % 2) (b % 2) ≡ b % 2 = omega arith in rw (bit_or_digit a b, half, low)

or_byte_digits :
    (e b : ℕ) → bit_or (e * 256) b ≡ bit_or e (b / 2 / 2 / 2 / 2 / 2 / 2 / 2 / 2) * 256 + b % 256
or_byte_digits e b = omega (
  arith,
  or_even (e * 256) (e * 128) b (omega arith),
  or_even (e * 128) (e * 64) (b / 2) (omega arith),
  or_even (e * 64) (e * 32) (b / 2 / 2) (omega arith),
  or_even (e * 32) (e * 16) (b / 2 / 2 / 2) (omega arith),
  or_even (e * 16) (e * 8) (b / 2 / 2 / 2 / 2) (omega arith),
  or_even (e * 8) (e * 4) (b / 2 / 2 / 2 / 2 / 2) (omega arith),
  or_even (e * 4) (e * 2) (b / 2 / 2 / 2 / 2 / 2 / 2) (omega arith),
  or_even (e * 2) e (b / 2 / 2 / 2 / 2 / 2 / 2 / 2) (omega arith),
)

-- `(e << 8) | b` is a sum when `b` is a byte.
pub bit_or_byte : (e b : ℕ) → IsByte b → bit_or (e * 256) b ≡ e * 256 + b
bit_or_byte e b h =
    let none_left : b / 2 / 2 / 2 / 2 / 2 / 2 / 2 / 2 ≡ 0 = omega arith in
    rw (or_byte_digits e b, none_left, bit_or-zero_below e e (omega arith)) (omega arith)

or_table : check_below 128 (λ r. bit_or 128 r == 128 + r && bit_or 0 r == r) ≡ true
unfolding check_below
or_table = refl

-- A flag in the top bit, over seven bits.
pub bit_or_flag : (f r : ℕ) → f < 2 → r < 128 → bit_or (f * 128) r ≡ f * 128 + r
bit_or_flag zero r hf hr =
    ground
      (arith, check_below_sound 128 (λ r. bit_or 128 r == 128 + r && bit_or 0 r == r) r or_table hr)
bit_or_flag (suc zero) r hf hr =
    ground
      (arith, check_below_sound 128 (λ r. bit_or 128 r == 128 + r && bit_or 0 r == r) r or_table hr)
bit_or_flag (suc (suc f)) r hf hr = absurd (omega arith)
