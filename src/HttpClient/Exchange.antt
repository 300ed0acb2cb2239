-- ===== src/HttpClient/Exchange.antt =====
-- `GetHttpRequest` and `PostHttpRequest` of src/common/HttpClient.cpp: the exchange over a CTcpSocket. What the
-- resolver and the kernel answer is given.
pub mod Released
pub mod Delivered
use web_socket_demo.Prelude.{
  ℕ, zero, suc, ◌+◌, Bool, true, false, [], ◌∷◌, ◌++◌, List, Option, none, some, Bytes, ltb, ◌==◌,
  not, if◌then◌else◌, length, take, drop,
}
use web_socket_demo.Text.{codes, find}
use web_socket_demo.Startup.{ℤ, pos, negsuc}
use web_socket_demo.StringCommon.{from_string_uint16}
use web_socket_demo.TcpSocket.{TcpSocket, construct, init, connect, close_socket, Answer, send}
use web_socket_demo.TcpSocket.Options.{Received, recv}
use web_socket_demo.HttpClient.Messages.{
  Target, parse_http_parameter, get_http_data, get_text, post_text, size_of,
}

pub data HttpResult : Type 0 where
  success invalid_request_url tcp_init_error host_connect_error set_tcp_timeout_error : HttpResult
  http_header_send_error http_data_recv_error response_parse_error : HttpResult

-- `resolve` is CLibNet::GetIpByName.
pub record Kernel : Type 0 where
  pub resolve : Bytes → Bytes
  pub socket : Option ℕ
  pub send_buff : Bool
  pub recv_buff : Bool
  pub limited : Bool
  pub connected : Bool
  pub timeout_set : Bool
  pub sends : List Answer
  pub received : Received

-- The name that is resolved, and the port.
unfoldable pub address : Bytes → Bytes × ℕ
address host = elim (find (codes ":") host) [
  | none ↦ ([], 80)
  | some port_pos ↦ (take port_pos host, size_of (from_string_uint16 (drop (port_pos + 1) host)).1)
]

-- What a call gives: the result, the response, the bytes on the wire, and the socket at the return. Its
-- destructor is still to run.
pub record Reply : Type 0 where
  pub result : HttpResult
  pub response : Option Bytes
  pub wire : Bytes
  pub tcp_client : TcpSocket

abbrev pub failed : HttpResult → Bytes → TcpSocket → Reply
failed e wire s = record { result = e; response = none; wire = wire; tcp_client = s }

unfoldable pub on_data : Option Bytes → Bytes → TcpSocket → Reply
on_data none wire s = failed response_parse_error wire s
on_data (some response) wire s = record {
  result = success;
  response = some response;
  wire = wire;
  tcp_client = s;
}

unfoldable pub on_received : Option Bytes → Bytes → TcpSocket → Reply
on_received none wire s = failed http_data_recv_error wire s
on_received (some http_data) wire s = on_data (get_http_data http_data) wire s

-- `Recv` into a buffer of 20480 bytes; none where it returns 0 or less.
abbrev pub came_in : ℤ × Bytes → Option Bytes
came_in (negsuc n, buff) = none
came_in (pos zero, buff) = none
came_in (pos (suc n), buff) = some buff

unfoldable pub received_data : Kernel → Option Bytes
received_data k = came_in (recv k.received 20480)

-- From `Send` on.
unfoldable pub transfer : Kernel → Bytes → TcpSocket → Reply
transfer k text s =
    let sent = send k.sends text in
    if not (sent.0 == length text)
    then failed http_header_send_error sent.1 s
    else on_received (received_data k) sent.1 (close_socket s)

unfoldable pub connecting : Kernel → Bytes → TcpSocket → Reply
connecting k text s =
    let c = connect true k.limited k.connected s in
    if not c.0
    then failed host_connect_error [] c.1
    else if not k.timeout_set
    then failed set_tcp_timeout_error [] c.1
    else transfer k text c.1

unfoldable pub exchange : Kernel → Bytes → Bytes → Reply
exchange k host text =
    let a = address host in
    let i = init k.socket k.send_buff k.recv_buff (construct (k.resolve a.0) a.1) in
    if not i.0 then failed tcp_init_error [] i.1 else connecting k text i.1

abbrev pub invalid : Reply
invalid = failed invalid_request_url [] (construct [] 0)

unfoldable pub get_http_request_ex : Kernel → Bytes → Reply
get_http_request_ex k url = elim (parse_http_parameter url) [
  | none ↦ invalid
  | some t ↦ exchange k t.host (get_text t)
]

unfoldable pub post_http_request_ex : Kernel → Bytes → Reply
post_http_request_ex k url = elim (parse_http_parameter url) [
  | none ↦ invalid
  | some t ↦ exchange k t.host (post_text t)
]

-- The destructor of the local CTcpSocket.
abbrev pub left_behind : Reply → TcpSocket
left_behind r = close_socket r.tcp_client

abbrev pub is_success : HttpResult → Bool
is_success success = true
is_success invalid_request_url = false
is_success tcp_init_error = false
is_success host_connect_error = false
is_success set_tcp_timeout_error = false
is_success http_header_send_error = false
is_success http_data_recv_error = false
is_success response_parse_error = false

abbrev pub get_http_request : Kernel → Bytes → Bool × Option Bytes
get_http_request k url = let r = get_http_request_ex k url in (is_success r.result, r.response)

abbrev pub post_http_request : Kernel → Bytes → Bool × Option Bytes
post_http_request k url = let r = post_http_request_ex k url in (is_success r.result, r.response)
