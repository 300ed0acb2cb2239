-- ===== src/HttpClient/Exchange/Released.antt =====
-- On the socket of `GetHttpRequest` and `PostHttpRequest` (src/common/HttpClient.cpp).
use web_socket_demo.Prelude.{
  ℕ, ◌≡◌, refl, ap, arith, Bool, true, false, not, [], Option, none, some, Bytes, if◌then◌else◌,
  length, ◌==◌, Bool-cases, inl, inr,
}
use web_socket_demo.TcpSocket.{TcpSocket, construct, init, connect, close_held, close_socket, send}
use web_socket_demo.TcpSocket.Descriptors.{
  Uses, constructed, inited, connects, closes, made, ended, held, IsSound, Uses-IsSound,
}
use web_socket_demo.HttpClient.Messages.{
  Target, parse_http_parameter, get_http_data, get_text, post_text,
}
use web_socket_demo.HttpClient.Exchange.{
  HttpResult, Kernel, address, Reply, failed, on_data, on_received, received_data, transfer,
  connecting, exchange, invalid, get_http_request_ex, post_http_request_ex, left_behind,
}

on_received-Uses :
    (o : Option Bytes) (wire : Bytes) (s : TcpSocket)
    → Uses s
    → Uses (on_received o wire s).tcp_client
unfolding on_received on_data
on_received-Uses none wire s u = u
on_received-Uses (some d) wire s u = go (get_http_data d)
  where
    go : (r : Option Bytes) → Uses (on_data r wire s).tcp_client
    go none = u
    go (some b) = u

transfer-Uses :
    (k : Kernel) (text : Bytes) (s : TcpSocket) → Uses s → Uses (transfer k text s).tcp_client
unfolding transfer
transfer-Uses k text s u = elim (Bool-cases ((send k.sends text).0 == length text)) [
  | inl e ↦ rw e (on_received-Uses (received_data k) _ (close_socket s) (closes u))
  | inr e ↦ rw e u
]

connecting-Uses :
    (k : Kernel) (text : Bytes) (fd : ℕ) (s : TcpSocket)
    → Uses s
    → s.socket ≡ some fd
    → Uses (connecting k text s).tcp_client
unfolding connecting
connecting-Uses k text fd s u e =
    let u' : Uses (connect true k.limited k.connected s).1 =
      connects fd true k.limited k.connected u e in
    go (connect true k.limited k.connected s).0 k.timeout_set
      (connect true k.limited k.connected s).1 u'
  where
    go :
        (b t : Bool) (m : TcpSocket)
        → Uses m
        → Uses
            (if not b
              then failed HttpResult.host_connect_error [] m
              else if not t
              then failed HttpResult.set_tcp_timeout_error [] m
              else transfer k text m).tcp_client
    go false t m v = v
    go true false m v = v
    go true true m v = transfer-Uses k text m v

opened-Uses :
    (k : Kernel) (text : Bytes) (fd : ℕ) (b : Bool) (m : TcpSocket)
    → Uses m
    → m.socket ≡ some fd
    → Uses (if not b then failed HttpResult.tcp_init_error [] m else connecting k text m).tcp_client
opened-Uses k text fd false m u e = u
opened-Uses k text fd true m u e = connecting-Uses k text fd m u e

exchange-Uses : (k : Kernel) (host text : Bytes) → Uses (exchange k host text).tcp_client
unfolding exchange
exchange-Uses k host text = go k.socket
  where
    s : TcpSocket
    s = construct (k.resolve (address host).0) (address host).1

    go :
        (fd : Option ℕ)
        → Uses
            (if not (init fd k.send_buff k.recv_buff s).0
              then failed HttpResult.tcp_init_error [] (init fd k.send_buff k.recv_buff s).1
              else connecting k text (init fd k.send_buff k.recv_buff s).1).tcp_client
    go none = unfold init in inited none k.send_buff k.recv_buff (constructed _ _) refl
    go (some fd) =
        opened-Uses k text fd (init (some fd) k.send_buff k.recv_buff s).0
          (init (some fd) k.send_buff k.recv_buff s).1
          (inited (some fd) k.send_buff k.recv_buff (constructed _ _) refl) (unfold init in refl)

-- No socket is held, and each descriptor was closed as often as a socket was made under it.
abbrev pub IsReleased : TcpSocket → Type 0
IsReleased s = (s.socket ≡ none) × ((i : ℕ) → made i s.calls ≡ ended i s.calls)

released : (r : Reply) → Uses r.tcp_client → IsReleased (left_behind r)
released r u =
    let gone : (close_socket r.tcp_client).socket ≡ none =
      unfold close_socket close_held in ground arith in
    let sound : IsSound (close_socket r.tcp_client) =
      Uses-IsSound (close_socket r.tcp_client) (closes u) in
    (gone, λ i. omega (arith, sound.kept i, ap (held i) gone))

-- Whatever the URL is and whatever the resolver and the kernel answer, either request leaves no socket
-- behind when it returns: none is held, and each descriptor was closed as often as a socket was
-- made under it.
pub request-IsReleased :
    (k : Kernel) (url : Bytes)
    → IsReleased (left_behind (get_http_request_ex k url))
      × IsReleased (left_behind (post_http_request_ex k url))
unfolding get_http_request_ex post_http_request_ex
request-IsReleased k url = go (parse_http_parameter url)
  where
    go :
        (o : Option Target)
        → IsReleased (
            left_behind
              (elim o as (λ _. Reply) [ none ↦ invalid | some t ↦ exchange k t.host (get_text t) ]))
          × IsReleased (
              left_behind (elim o as (λ _. Reply) [
                | none ↦ invalid
                | some t ↦ exchange k t.host (post_text t)
              ]))
    go none = (released invalid (constructed [] 0), released invalid (constructed [] 0))
    go (some t) = (
      released (exchange k t.host (get_text t)) (exchange-Uses k t.host (get_text t)),
      released (exchange k t.host (post_text t)) (exchange-Uses k t.host (post_text t)),
    )
