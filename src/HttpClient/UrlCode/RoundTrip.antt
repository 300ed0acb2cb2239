-- ===== src/HttpClient/UrlCode/RoundTrip.antt =====
-- On `UrlEncode` and `UrlDecode` (src/common/HttpClient.cpp).
use web_socket_demo.Prelude.{
  ℕ, ◌/◌, ◌%◌, ◌<◌, ◌≡◌, refl, sym, ap, ◌∙◌, arith, true, ◌||◌, [], ◌∷◌, ◌++◌, Bytes, IsByte,
  IsBytes, ◌==◌, Bool-cases, inl, inr, All, append_assoc, ==_iff,
}
use web_socket_demo.HttpClient.UrlCode.{
  is_alnum, hex_2_char, encode_char, url_encode, decode_hex, url_decode,
}

decode_hex-hex_2_char :
    (ch : ℕ) → IsByte ch → decode_hex (hex_2_char (ch / 16 % 16)) (hex_2_char (ch % 16)) ≡ ch
unfolding decode_hex hex_2_char
decode_hex-hex_2_char ch h = ground arith

url_decode-alnum : (c : ℕ) (s : Bytes) → is_alnum c ≡ true → url_decode (c ∷ s) ≡ c ∷ url_decode s
unfolding url_decode
url_decode-alnum c [] h = rw h
url_decode-alnum c (a ∷ []) h = rw h
url_decode-alnum c (a ∷ b ∷ s) h = rw h

url_decode-blank : (s : Bytes) → url_decode (b'+' ∷ s) ≡ b' ' ∷ url_decode s
unfolding url_decode
url_decode-blank [] = refl
url_decode-blank (a ∷ []) = refl
url_decode-blank (a ∷ b ∷ s) = refl

url_decode-encode_char :
    (ch : ℕ) (s : Bytes) → IsByte ch → url_decode (encode_char ch ++ s) ≡ ch ∷ url_decode s
unfolding encode_char
url_decode-encode_char ch s h = elim (Bool-cases (is_alnum ch)) [
  | inl e ↦ rw e (url_decode-alnum ch s e)
  | inr e ↦ elim (Bool-cases (ch == b' ')) [
    | inl f ↦
        rw (e, f) (url_decode-blank s ∙ ap (λ c. c ∷ url_decode s) (sym ((==_iff ch b' ').0 f)))
    | inr f ↦
        rw (e, f) (unfold url_decode in ap (λ c. c ∷ url_decode s) (decode_hex-hex_2_char ch h))
  ]
]

-- Every text of bytes is read back from its encoding, with what follows it decoded as it would be alone.
pub url_decode-url_encode :
    (t rest : Bytes) → IsBytes t → url_decode (url_encode t ++ rest) ≡ t ++ url_decode rest
unfolding url_encode
url_decode-url_encode [] rest h = refl
url_decode-url_encode (ch ∷ t) rest h =
    ap url_decode (append_assoc (encode_char ch) (url_encode t) rest)
    ∙ url_decode-encode_char ch (url_encode t ++ rest) h.0
    ∙ ap (◌∷◌ ch) (url_decode-url_encode t rest h.1)

-- The encoding has letters, digits, '+' and '%' only.
abbrev pub IsSafe : ℕ → Type 0
IsSafe c = (is_alnum c || (c == b'+' || c == b'%')) ≡ true

hex_2_char-IsSafe : (v : ℕ) → v < 16 → IsSafe (hex_2_char v)
unfolding hex_2_char
hex_2_char-IsSafe v h = ground arith

append-All-IsSafe : (xs ys : Bytes) → All IsSafe xs → All IsSafe ys → All IsSafe (xs ++ ys)
append-All-IsSafe [] ys p q = q
append-All-IsSafe (x ∷ xs) ys p q = (p.0, append-All-IsSafe xs ys p.1 q)

encode_char-IsSafe : (ch : ℕ) → All IsSafe (encode_char ch)
unfolding encode_char
encode_char-IsSafe ch = elim (Bool-cases (is_alnum ch)) [
  | inl e ↦ rw e (rw e, tt)
  | inr e ↦ elim (Bool-cases (ch == b' ')) [
    | inl f ↦ rw (e, f) (refl, tt)
    | inr f ↦
        rw (e, f)
          (
            refl,
            (
              hex_2_char-IsSafe (ch / 16 % 16) (omega arith),
              (hex_2_char-IsSafe (ch % 16) (omega arith), tt),
            ),
          )
  ]
]

pub url_encode-IsSafe : (t : Bytes) → All IsSafe (url_encode t)
unfolding url_encode
url_encode-IsSafe [] = tt
url_encode-IsSafe (ch ∷ t) =
    append-All-IsSafe (encode_char ch) (url_encode t) (encode_char-IsSafe ch) (url_encode-IsSafe t)
