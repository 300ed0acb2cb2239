-- ===== src/TcpSocket.antt =====
-- The blocking socket of src/common/tcpSocket.{h,cpp}, as it is built on Linux. What a call of the
-- kernel answers is an argument; the calls that make and end a socket are recorded, newest first.
pub mod Sending
pub mod Descriptors
pub mod Options
use web_socket_demo.Prelude.{
  ℕ, zero, suc, ◌+◌, Bool, true, false, List, [], ◌∷◌, ◌++◌, Option, none, some, Bytes, ltb,
  if◌then◌else◌, length, take, drop,
}

pub data Call : Type 0 where
  opened shut_down closed : ℕ → Call

-- `socket` is none where `_socket` is INVALID_SOCKET.
pub record TcpSocket : Type 0 where
  pub server_ip : Bytes
  pub server_port : ℕ
  pub socket : Option ℕ
  pub connected : Bool
  pub calls : List Call

abbrev pub construct : Bytes → ℕ → TcpSocket
construct ip port = record {
  server_ip = ip;
  server_port = port;
  socket = none;
  connected = false;
  calls = [];
}

-- Whether the two buffer sizes could be set; the options before them are set unchecked.
abbrev pub set_socket_option : Bool → Bool → Bool
set_socket_option send_buff recv_buff = if send_buff then recv_buff else false

unfoldable pub init : Option ℕ → Bool → Bool → TcpSocket → Bool × TcpSocket
init none send_buff recv_buff s = (false, record s { socket = none })
init (some fd) send_buff recv_buff s = (
  set_socket_option send_buff recv_buff,
  record s { socket = some fd; calls = opened fd ∷ s.calls },
)

-- `timeout` asks for a limit on sending, `limited` says whether it could be set, and `done` whether
-- the kernel's `connect` succeeds.
unfoldable pub connect : Bool → Bool → Bool → TcpSocket → Bool × TcpSocket
connect timeout limited done s =
    let go : Bool × TcpSocket =
      if done then (true, record s { connected = true }) else (false, s) in
    if timeout then (if limited then go else (false, s)) else go

unfoldable pub close_held : Option ℕ → TcpSocket → TcpSocket
close_held none s = s
close_held (some fd) s = record s {
  socket = none;
  connected = false;
  calls = closed fd ∷ shut_down fd ∷ s.calls;
}

-- The destructor does the same.
unfoldable pub close_socket : TcpSocket → TcpSocket
close_socket s = close_held s.socket s

-- What a call of `send` answers: a number of bytes, a failure that may pass (EINTR, EAGAIN,
-- EWOULDBLOCK), or another one.
pub data Answer : Type 0 where
  took : ℕ → Answer
  blocked broke : Answer

-- `sendLen`, the bytes that the kernel was given and took, and whether the last call was blocked.
pub record Sent : Type 0 where
  pub send_len : ℕ
  pub wire : Bytes
  pub is_blocked : Bool

-- The loop of `Send`; where the list of answers has run out the call is blocked.
unfoldable pub send_loop : List Answer → Bytes → ℕ → Bytes → Sent
send_loop [] buff send_len wire = record { send_len = send_len; wire = wire; is_blocked = true }
send_loop (took zero ∷ rest) buff send_len wire = record {
  send_len = send_len;
  wire = wire;
  is_blocked = false;
}
send_loop (took (suc k) ∷ rest) buff send_len wire =
    let len = send_len + suc k in
    let wire' = wire ++ take (suc k) (drop send_len buff) in
    let more = send_loop rest buff len wire' in
    if ltb len (length buff)
    then more
    else record { send_len = len; wire = wire'; is_blocked = false }
send_loop (blocked ∷ rest) buff send_len wire = record {
  send_len = send_len;
  wire = wire;
  is_blocked = true;
}
send_loop (broke ∷ rest) buff send_len wire = record {
  send_len = send_len;
  wire = wire;
  is_blocked = false;
}

-- What `Send` returns, and the bytes that have gone out.
unfoldable pub send : List Answer → Bytes → ℕ × Bytes
send answers buff =
    let s = send_loop answers buff 0 [] in (if s.is_blocked then 0 else s.send_len, s.wire)
