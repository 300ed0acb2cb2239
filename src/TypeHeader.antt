-- ===== src/TypeHeader.antt =====
-- The functions of src/common/_type.h on texts and numbers. A text is its characters up to the NUL.
pub mod Hex
pub mod Directories
use web_socket_demo.Prelude.{
  ℕ, zero, suc, ◌+◌, ◌-◌, ◌*◌, ◌/◌, ◌%◌, ◌^◌, bit_or, Bool, true, false, not, ◌&&◌, ◌||◌, List, [],
  ◌∷◌, ◌++◌, Option, none, some, Bytes, ltb, leb, ◌==◌, if◌then◌else◌, length, take, u8,
}
use web_socket_demo.Startup.{is_digit}
use web_socket_demo.Text.{starts_with, find}

-- The digits in front, in a register of `w` bits.
unfoldable pub atoi_bits : ℕ → ℕ → Bytes → ℕ
atoi_bits w retval [] = retval
atoi_bits w retval (c ∷ str) =
    let rest = atoi_bits w ((retval * 10 + (c - b'0')) % 2 ^ w) str in
    if is_digit c then rest else retval

abbrev pub atoi32 : Bytes → ℕ
atoi32 str = atoi_bits 32 0 str

abbrev pub atoi64 : Bytes → ℕ
atoi64 str = atoi_bits 64 0 str

-- "0123456789abcdef"
unfoldable pub char_table : ℕ → ℕ
char_table n = if ltb n 10 then b'0' + n else b'a' + (n - 10)

-- The digits of the bytes that fit, and what is written: a NUL behind them where there is room.
unfoldable pub hex_text : Bytes → Bytes
hex_text [] = []
hex_text (b ∷ binary) = char_table (b / 16) ∷ char_table (b % 16) ∷ hex_text binary

unfoldable pub btoa : Bytes → ℕ → Bytes
btoa binary buflen =
    let text = hex_text (take (buflen / 2) binary) in
    if ltb (length text) buflen then text ++ 0 ∷ [] else text

-- `_ch | 0x20` makes a letter small; the differences are unsigned chars.
unfoldable pub hexval : ℕ → ℕ
hexval ch =
    let small = bit_or ch 32 in
    if leb (u8 (ch + 256 - b'0')) 9
    then u8 (ch + 256 - b'0')
    else if leb (u8 (small + 256 - b'a')) 5
    then 10 + (small - b'a')
    else 255

unfoldable pub atohex_loop : ℕ → Bytes → ℕ
atohex_loop retval [] = retval
atohex_loop retval (c ∷ val') =
    let rest = atohex_loop ((retval * 16 + hexval c) % 2 ^ 64) val' in
    if hexval c == 255 then retval else rest

abbrev pub atohex : Bytes → ℕ
atohex val' = atohex_loop 0 val'

-- At most `len` bytes, until the text ends or has a character that is no digit.
unfoldable pub atob : Bytes → ℕ → Bytes
atob str zero = []
atob [] (suc len) = []
atob (ch ∷ []) (suc len) = []
atob (ch ∷ cl ∷ str) (suc len) =
    let rest = atob str len in
    if ch == 0 || cl == 0
    then []
    else if hexval ch == 255 || hexval cl == 255
    then []
    else u8 (hexval ch * 16 + hexval cl) ∷ rest

-- The flags of a descriptor after the call, with O_NONBLOCK in or out.
unfoldable pub sockblock : ℕ → Bool → ℕ
sockblock flags is_block =
    if flags / 2048 % 2 == 1
    then (if is_block then flags - 2048 else flags)
    else (if is_block then flags else bit_or flags 2048)

-- Microseconds since 1970, and milliseconds in 32 bits.
abbrev pub get_tick_count64 : ℕ → ℕ → ℕ
get_tick_count64 tv_sec tv_usec = tv_sec * 1000000 + tv_usec

abbrev pub get_tick_count : ℕ → ℕ → ℕ
get_tick_count tv_sec tv_usec = get_tick_count64 tv_sec tv_usec / 1000 % 2 ^ 32
