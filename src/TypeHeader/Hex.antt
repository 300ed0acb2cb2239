-- ===== src/TypeHeader/Hex.antt =====
-- `_btoa`, `_atob` and `atoi32` of src/common/_type.h.
use web_socket_demo.Prelude.{
  ℕ, ◌*◌, ◌/◌, ◌%◌, ◌≡◌, ◌≤◌, ◌<◌, refl, ap, ◌∙◌, arith, true, false, not, ◌&&◌, [], ◌∷◌, ◌++◌,
  Bytes, IsBytes, ltb, ◌==◌, if-elim, append_assoc, length, take, take_all, check_below,
  check_below_sound, ==_iff,
}
use web_socket_demo.TypeHeader.{char_table, hex_text, btoa, hexval, atob}

digits_table : check_below 16 (λ n. hexval (char_table n) == n && not (char_table n == 0)) ≡ true
unfolding check_below hexval char_table
digits_table = refl

length-hex_text : (binary : Bytes) → length (hex_text binary) ≡ 2 * length binary
unfolding hex_text
length-hex_text [] = omega arith
length-hex_text (b ∷ binary) = omega (arith, length-hex_text binary)

digit_back : (n : ℕ) → n < 16 → (hexval (char_table n) ≡ n) × ((char_table n == 0) ≡ false)
digit_back n h = ground (
  arith,
  ==_iff (hexval (char_table n)) n,
  check_below_sound 16 (λ n. hexval (char_table n) == n && not (char_table n == 0)) n digits_table
      h,
)

atob-hex_text :
    (binary rest : Bytes) → IsBytes binary → atob (hex_text binary ++ rest) (length binary) ≡ binary
unfolding atob hex_text
atob-hex_text [] rest h = refl
atob-hex_text (b ∷ binary) rest h =
    let (high, high_pos) = digit_back (b / 16) (omega (arith, h.0)) in
    let (low, low_pos) = digit_back (b % 16) (omega arith) in
    rw (high, low, high_pos, low_pos, atob-hex_text binary rest h.1) (ground (arith, h.0))

-- What `_btoa` writes of some bytes into a buffer of twice their number or more is read back by `_atob`, whatever
-- stands behind it.
pub atob-btoa :
    (binary rest : Bytes) (buflen : ℕ)
    → IsBytes binary
    → 2 * length binary ≤ buflen
    → atob (btoa binary buflen ++ rest) (length binary) ≡ binary
unfolding btoa
atob-btoa binary rest buflen h le =
    let whole : take (buflen / 2) binary ≡ binary = take_all binary (buflen / 2) (omega arith) in
    rw whole (
      if-elim (λ t. atob (t ++ rest) (length binary) ≡ binary)
        (ltb (length (hex_text binary)) buflen)
        (λ _.
          ap (λ t. atob t (length binary)) (append_assoc (hex_text binary) (0 ∷ []) rest)
          ∙ atob-hex_text binary (0 ∷ rest) h)
        (λ _. atob-hex_text binary rest h))
