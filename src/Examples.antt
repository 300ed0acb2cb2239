-- ===== src/Examples.antt =====
-- Sample frames, connections and kernel answers, and the theorems at them.
mod Codec
mod Sessions
mod Runs
mod Cuts
mod Delivery
mod Starts
mod Http
mod Configs
mod Tooling
mod Sockets
use web_socket_demo.Prelude.{
  ℕ, zero, suc, ◌≡◌, refl, ap, ◌<◌, arith, true, none, some, [], ◌∷◌, Bytes, IsBytes, length,
  if◌then◌else◌, ◌==◌, ◌+◌, ◌*◌, Option,
}
use web_socket_demo.Protocol.{unconnect, handsharked, text_data}
use web_socket_demo.Frame.{sixty_four, seven, keyed, Frame, IsFrame, encode}
use web_socket_demo.Request.{Request, initial, no_key}
use web_socket_demo.Handler.{Handler, Env, fresh}
use web_socket_demo.Network.{Network}

-- A masked text frame "Hi".
abbrev pub hi_frame : Frame
hi_frame = record {
  fin = 1;
  opcode = 1;
  form = seven;
  masking = keyed 17 34 51 68;
  payload = b'H' ∷ b'i' ∷ [];
}

pub hi_frame-IsFrame : IsFrame hi_frame
hi_frame-IsFrame = record {
  fin_bit = omega arith;
  opcode_bits = omega arith;
  key_are_bytes = ground arith;
  payload_are_bytes = ground arith;
  holds = omega arith;
}

-- An object that holds what an earlier, unfinished call left.
abbrev pub stale : Request
stale = record {
  fin = 1;
  opcode = 2;
  mask = 1;
  masking_key = 9 ∷ 9 ∷ 9 ∷ 9 ∷ [];
  payload_length = 7;
  payload = 1 ∷ [];
}

unfoldable pub zeros : ℕ → Bytes
zeros zero = []
zeros (suc n) = 0 ∷ zeros n

pub length-zeros : (n : ℕ) → length (zeros n) ≡ n
unfolding zeros
length-zeros zero = refl
length-zeros (suc n) = ap suc (length-zeros n)

pub zeros-IsBytes : (n : ℕ) → IsBytes (zeros n)
unfolding zeros
zeros-IsBytes zero = tt
zeros-IsBytes (suc n) = (omega arith, zeros-IsBytes n)

-- A frame one byte over the limit.
abbrev pub large_frame : Frame
large_frame = record {
  fin = 1;
  opcode = 2;
  form = sixty_four;
  masking = keyed 1 2 3 4;
  payload = zeros (1024 * 1024 + 1);
}

pub large_frame-IsFrame : IsFrame large_frame
large_frame-IsFrame = record {
  fin_bit = omega arith;
  opcode_bits = omega arith;
  key_are_bytes = ground arith;
  payload_are_bytes = zeros-IsBytes (1024 * 1024 + 1);
  holds = omega (arith, length-zeros (1024 * 1024 + 1));
}

-- Memory is never short, and the digest and its text are fixed.
abbrev pub sample_env : Env
sample_env = record {
  malloc = λ _. true;
  sha1 = λ _. 1 ∷ 2 ∷ 3 ∷ 4 ∷ 5 ∷ [];
  base64_encode = λ _. b'k' ∷ b'e' ∷ b'y' ∷ b'=' ∷ [];
}

abbrev pub talking : Bytes → Handler
talking buf = record {
  read_buf = buf;
  write_buf = [];
  status = handsharked;
  header_map = [];
  request = initial;
}

abbrev pub two_clients : Bytes → ℕ → Option Handler
two_clients buf fd =
    if fd == 4 then some (talking buf) else if fd == 5 then some (talking []) else none

-- Two upgraded connections, 4 and 5; 4 has a frame to be read, and 5 is queued twice for closing.
abbrev pub sample_network : Network
sample_network = record {
  listenfd = 3;
  handlers = two_clients (encode hi_frame);
  ws_clients = 5 ∷ 4 ∷ [];
  pending_closes = 5 ∷ 9 ∷ 5 ∷ [];
  effects = [];
}
