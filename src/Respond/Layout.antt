-- ===== src/Respond/Layout.antt =====
-- On `pack_data` (src/websocket_master/websocket_respond.cpp): its bytes against the frame of RFC 6455.
use web_socket_demo.Prelude.{
  ℕ, ◌+◌, ◌^◌, ◌≤◌, ◌<◌, ◌≡◌, refl, ◌++◌, arith, Bool, none, some, Bytes, IsBytes, bit_or_flag,
  if◌then◌else◌, length, take_all,
}
use web_socket_demo.Frame.{clear, Frame, minimal_form, encode_header, encode, IsFrame}
use web_socket_demo.Protocol.{ws_max_payload_bytes}
use web_socket_demo.Request.{ok, Request, try_consume_frame}
use web_socket_demo.Request.Decode.{decoded, try_consume_frame-encode}
use web_socket_demo.Respond.{header_length, header, pack_data}

-- What the server means to send.
abbrev pub server_frame : ℕ → ℕ → Bytes → Frame
server_frame fin opcode message = record {
  fin = fin;
  opcode = opcode;
  form = minimal_form (length message);
  masking = clear;
  payload = message;
}

header-encode_header :
    (fin opcode : ℕ) (message : Bytes)
    → fin < 2
    → opcode < 16
    → length message < 2 ^ 63
    → header (length message) fin opcode 0 ≡ encode_header (server_frame fin opcode message)
unfolding header encode_header
header-encode_header fin opcode message hf ho hl = ground (
  arith,
  bit_or_flag fin opcode,
  bit_or_flag 0 (length message),
  bit_or_flag 0 126,
  bit_or_flag 0 127,
)

length-encode :
    (fin opcode : ℕ) (message : Bytes)
    → length (encode (server_frame fin opcode message))
      ≡ header_length (length message) + length message
unfolding encode encode_header
length-encode fin opcode message = ground arith

pub server_frame-IsFrame :
    (fin opcode : ℕ) (message : Bytes)
    → fin < 2
    → opcode < 16
    → IsBytes message
    → length message < 2 ^ 63
    → IsFrame (server_frame fin opcode message)
server_frame-IsFrame fin opcode message hf ho hb hl = record {
  fin_bit = hf;
  opcode_bits = ho;
  key_are_bytes = tt;
  payload_are_bytes = hb;
  holds = ground arith;
}

-- For a FIN of one bit, an opcode of four, no mask, and a message below 2 ^ 63 bytes: where
-- `malloc` gives the bytes, the result is the shortest unmasked encoding of the message; where it
-- does not, the call fails. The encoding is as long as the `hdr + msg_len` bytes that are asked
-- for.
pub pack_data-encode :
    (malloc : ℕ → Bool) (message : Bytes) (fin opcode : ℕ)
    → fin < 2
    → opcode < 16
    → length message < 2 ^ 63
    → let f = server_frame fin opcode message in
      (pack_data malloc message (length message) fin opcode 0
        ≡ (if malloc (length (encode f)) then some (encode f) else none))
      × (length (encode f) ≡ header_length (length message) + length message)
unfolding pack_data
pack_data-encode malloc message fin opcode hf ho hl = (
  rw
      (
        length-encode fin opcode message,
        header-encode_header fin opcode message hf ho hl,
        take_all message (length message) (omega arith),
      )
      (unfold encode in refl),
  length-encode fin opcode message,
)

-- What `pack_data` wrote, for a FIN of one bit, an opcode of four, no mask and a message of bytes
-- within the payload limit, is read back by the decoder, whatever its object held: the fields and
-- the message are the same, and what follows the frame is left.
pub try_consume_frame-pack_data :
    (malloc : ℕ → Bool) (message : Bytes) (fin opcode : ℕ) (r : Request) (out rest : Bytes)
    → fin < 2
    → opcode < 16
    → IsBytes message
    → length message ≤ ws_max_payload_bytes
    → pack_data malloc message (length message) fin opcode 0 ≡ some out
    → try_consume_frame r (out ++ rest)
      ≡ record { result = ok; request = decoded (server_frame fin opcode message); buf = rest }
try_consume_frame-pack_data malloc message fin opcode r out rest hf ho hb hl e = ground (
  arith,
  (pack_data-encode malloc message fin opcode hf ho (omega arith)).0,
  try_consume_frame-encode r (server_frame fin opcode message) rest
      (server_frame-IsFrame fin opcode message hf ho hb (omega arith)) hl,
)
