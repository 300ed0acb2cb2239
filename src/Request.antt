-- ===== src/Request.antt =====
-- src/websocket_master/websocket_request.{h,cpp}: the frame that a client sent, taken from the front of
-- the read buffer. A buffer is a list of bytes, and `p[i]` is `get_or p i 0`: every read stands
-- behind a test of the length.
pub mod Bounds
pub mod Decode
pub mod Fields
pub mod Partial
pub mod Fresh
pub mod Stream
pub mod Again
pub mod Octets
use web_socket_demo.Prelude.{
  ℕ, zero, suc, ◌+◌, ◌%◌, [], ◌∷◌, bit_or, bit_xor, Bytes, u64, ◌<<<◌, ◌>>>◌, ltb, ◌==◌,
  if◌then◌else◌, length, get_or, take, drop,
}
use web_socket_demo.Protocol.{ws_max_payload_bytes}

-- Websocket_ParseResult
pub data ParseResult : Type 0 where
  need_more ok error : ParseResult

pub record Request : Type 0 where
  pub fin : ℕ
  pub opcode : ℕ
  pub mask : ℕ
  pub masking_key : Bytes
  pub payload_length : ℕ
  pub payload : Bytes

abbrev pub no_key : Bytes
no_key = 0 ∷ 0 ∷ 0 ∷ 0 ∷ []

-- The constructor, and the state that `reset` leaves.
abbrev pub initial : Request
initial = record {
  fin = 0;
  opcode = 0;
  mask = 0;
  masking_key = no_key;
  payload_length = 0;
  payload = [];
}

abbrev pub reset : Request → Request
reset r = record r {
  fin = 0;
  opcode = 0;
  mask = 0;
  masking_key = no_key;
  payload_length = 0;
  payload = [];
}

-- What `try_consume_frame` returns, the object's fields and the buffer after it.
pub record Consumed : Type 0 where
  pub result : ParseResult
  pub request : Request
  pub buf : Bytes

abbrev pub at : Bytes → ℕ → ℕ
at p i = get_or p i 0

-- `for (i = 0; i < 8; ++i) ext = (ext << 8) | p[2 + i]`, with the rounds that are left.
unfoldable pub ext_loop : ℕ → ℕ → ℕ → Bytes → ℕ
ext_loop zero i ext p = ext
ext_loop (suc left) i ext p = ext_loop left (i + 1) (u64 (bit_or (ext <<< 8) (at p (2 + i)))) p

-- The length field: not all there, refused, or the payload's length and the header's so far.
pub data LengthField : Type 0 where
  short refused : LengthField
  field : ℕ → ℕ → LengthField

unfoldable pub read_length : Bytes → LengthField
unfolding ext_loop
read_length p =
    let n = length p in
    let len7 = at p 1 % 128 in
    if ltb len7 126
    then field len7 2
    else if len7 == 126
    then (if ltb n 4 then short else field (at p 2 <<< 8 + at p 3) 4)
    else if ltb n 10
    then short
    else (let ext = ext_loop 8 0 0 p in if ext >>> 63 == 0 then field ext 10 else refused)

-- `payload[i] = payload_src[i] ^ masking_key[i % 4]` from index `i` on.
unfoldable pub unmask : Bytes → ℕ → Bytes → Bytes
unmask key i [] = []
unmask key i (x ∷ xs) = bit_xor x (at key (i % 4)) ∷ unmask key (i + 1) xs

-- From the limit on, with the whole header read.
unfoldable pub take_payload : Request → Bytes → ℕ → ℕ → Consumed
unfolding unmask
take_payload r p payload_len header_len =
    let total = header_len + payload_len in
    let src = take payload_len (drop header_len p) in
    if ltb ws_max_payload_bytes payload_len
    then record { result = error; request = r; buf = p }
    else if ltb (length p) total
    then record { result = need_more; request = r; buf = p }
    else record {
      result = ok;
      request = record r {
        payload = if r.mask == 0 then src else unmask r.masking_key 0 src;
        payload_length = payload_len;
      };
      buf = drop total p;
    }

-- From the masking key on.
unfoldable pub take_key : Request → Bytes → ℕ → ℕ → Consumed
unfolding take_payload
take_key r p payload_len header_len =
    if r.mask == 0
    then take_payload (record r { masking_key = no_key }) p payload_len header_len
    else if ltb (length p) (header_len + 4)
    then record { result = need_more; request = r; buf = p }
    else take_payload
        (record r {
          masking_key =
              at p header_len
              ∷ at p (header_len + 1)
              ∷ at p (header_len + 2)
              ∷ at p (header_len + 3)
              ∷ [];
        })
        p payload_len (header_len + 4)

unfoldable pub after_length : Request → Bytes → LengthField → Consumed
unfolding take_key
after_length r p short = record { result = need_more; request = r; buf = p }
after_length r p refused = record { result = error; request = r; buf = p }
after_length r p (field payload_len header_len) = take_key r p payload_len header_len

abbrev pub first_bytes : Request → Bytes → Request
first_bytes r p = record r { fin = at p 0 >>> 7; opcode = at p 0 % 16; mask = at p 1 >>> 7 }

unfoldable pub try_consume_frame : Request → Bytes → Consumed
unfolding read_length after_length
try_consume_frame r p =
    if ltb (length p) 2
    then record { result = need_more; request = r; buf = p }
    else after_length (first_bytes r p) p (read_length p)

abbrev pub get_msg : Request → Bytes
get_msg r = r.payload

abbrev pub get_msg_length : Request → ℕ
get_msg_length r = r.payload_length

abbrev pub get_msg_opcode : Request → ℕ
get_msg_opcode r = r.opcode
