-- ===== src/Frame.antt =====
-- The frame of RFC 6455, section 5.2, as the peer writes it: the specification that
-- websocket_request.cpp decodes and websocket_respond.cpp encodes.
use web_socket_demo.Prelude.{
  ℕ, zero, suc, ◌+◌, ◌*◌, ◌/◌, ◌%◌, ◌^◌, ◌<◌, [], ◌∷◌, ◌++◌, Bytes, IsBytes, bit_xor, ltb, leb,
  if◌then◌else◌, length, get_or,
}

-- The three ways to write a payload's length.
pub data Form : Type 0 where
  seven sixteen sixty_four : Form

-- No key, or the four bytes of one.
pub data Masking : Type 0 where
  clear : Masking
  keyed : ℕ → ℕ → ℕ → ℕ → Masking

pub record Frame : Type 0 where
  pub fin : ℕ
  pub opcode : ℕ
  pub form : Form
  pub masking : Masking
  pub payload : Bytes

-- Big-endian digits.
abbrev pub be : ℕ → ℕ → Bytes
be zero v = []
be (suc k) v = be k (v / 256) ++ (v % 256) ∷ []

abbrev pub len7 : Form → ℕ → ℕ
len7 seven n = n
len7 sixteen n = 126
len7 sixty_four n = 127

abbrev pub ext : Form → ℕ → Bytes
ext seven n = []
ext sixteen n = be 2 n
ext sixty_four n = be 8 n

abbrev pub FormHolds : Form → ℕ → Type 0
FormHolds seven n = n < 126
FormHolds sixteen n = n < 2 ^ 16
FormHolds sixty_four n = n < 2 ^ 63

abbrev pub mask_bit : Masking → ℕ
mask_bit clear = 0
mask_bit (keyed a b c d) = 1

abbrev pub key_bytes : Masking → Bytes
key_bytes clear = []
key_bytes (keyed a b c d) = a ∷ b ∷ c ∷ d ∷ []

-- Octet `i` of the data is xor-ed with octet `i mod 4` of the key.
abbrev pub xor_key : Bytes → ℕ → Bytes → Bytes
xor_key key i [] = []
xor_key key i (x ∷ xs) = bit_xor x (get_or key (i % 4) 0) ∷ xor_key key (i + 1) xs

abbrev pub masked : Masking → Bytes → Bytes
masked clear xs = xs
masked (keyed a b c d) xs = xor_key (a ∷ b ∷ c ∷ d ∷ []) 0 xs

unfoldable pub encode_header : Frame → Bytes
encode_header f =
    (f.fin * 128 + f.opcode)
    ∷ (mask_bit f.masking * 128 + len7 f.form (length f.payload))
    ∷ ext f.form (length f.payload)

unfoldable pub encode : Frame → Bytes
unfolding encode_header
encode f = encode_header f ++ (key_bytes f.masking ++ masked f.masking f.payload)

-- The shortest form that holds a length, which the RFC asks for.
abbrev pub minimal_form : ℕ → Form
minimal_form n = if ltb n 126 then seven else if leb n 0xffff then sixteen else sixty_four

-- The fields have their widths, and the length is one that its form can hold.
pub record IsFrame (f : Frame) : Type 0 where
  pub fin_bit : f.fin < 2
  pub opcode_bits : f.opcode < 16
  pub key_are_bytes : IsBytes (key_bytes f.masking)
  pub payload_are_bytes : IsBytes f.payload
  pub holds : FormHolds f.form (length f.payload)
