-- ===== src/HttpClient/UrlCode.antt =====
-- `UrlEncode`, `UrlDecode`, `Hex2Char` and `Char2Hex` of src/common/HttpClient.cpp. A `char` is its byte:
-- the tests of ranges below 128 come out alike, and `(ch >> 4) & 0x0F` is the upper half on either sign.
pub mod RoundTrip
use web_socket_demo.Prelude.{
  ℕ, ◌+◌, ◌-◌, ◌*◌, ◌/◌, ◌%◌, Bool, true, false, ◌&&◌, ◌||◌, [], ◌∷◌, ◌++◌, Bytes, u8, ltb, leb,
  ◌==◌, if◌then◌else◌,
}

abbrev pub is_alnum : ℕ → Bool
is_alnum ch =
    (leb b'0' ch && leb ch b'9') || ((leb b'a' ch && leb ch b'z') || (leb b'A' ch && leb ch b'Z'))

unfoldable pub hex_2_char : ℕ → ℕ
hex_2_char v = if ltb v 10 then u8 (b'0' + v) else u8 (b'A' + v - 10)

-- Both differences wrap in an unsigned char.
unfoldable pub char_2_hex : ℕ → ℕ
char_2_hex v = if ltb v b'A' then u8 (v + 256 - b'0') else u8 (v + 256 - b'A' + 10)

unfoldable pub encode_char : ℕ → Bytes
unfolding hex_2_char
encode_char ch =
    if is_alnum ch
    then ch ∷ []
    else if ch == b' '
    then b'+' ∷ []
    else b'%' ∷ hex_2_char (ch / 16 % 16) ∷ hex_2_char (ch % 16) ∷ []

unfoldable pub url_encode : Bytes → Bytes
url_encode [] = []
url_encode (ch ∷ rest) = encode_char ch ++ url_encode rest

-- `ch = Char2Hex(a); ch <<= 4; ch += Char2Hex(b)`
unfoldable pub decode_hex : ℕ → ℕ → ℕ
unfolding char_2_hex
decode_hex a b = u8 (u8 (char_2_hex a * 16) + char_2_hex b)

-- The loop from index `i` on; a '%' that has no two characters behind it ends the loop, and any
-- character that is none of these is left out.
unfoldable pub url_decode : Bytes → Bytes
url_decode [] = []
url_decode (c ∷ []) = if is_alnum c then c ∷ [] else if c == b'+' then b' ' ∷ [] else []
url_decode (c ∷ a ∷ []) =
    let rest = url_decode (a ∷ []) in
    if is_alnum c
    then c ∷ rest
    else if c == b'+'
    then b' ' ∷ rest
    else if c == b'%'
    then []
    else rest
url_decode (c ∷ a ∷ b ∷ s) =
    let rest = url_decode (a ∷ b ∷ s) in
    let behind = decode_hex a b ∷ url_decode s in
    if is_alnum c
    then c ∷ rest
    else if c == b'+'
    then b' ' ∷ rest
    else if c == b'%'
    then behind
    else rest
