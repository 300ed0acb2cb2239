-- ===== src/HttpClient/Exchange/Delivered.antt =====
-- On the success of `GetHttpRequest` and `PostHttpRequest` (src/common/HttpClient.cpp).
use web_socket_demo.Prelude.{
  ℕ, ◌≤◌, ◌≡◌, ◌≢◌, refl, sym, ap, ◌∙◌, arith, Bool, true, false, not, List, [], Option, none, some,
  Bytes, if◌then◌else◌, length, take, ◌==◌, take_all, ==_iff,
}
use web_socket_demo.TcpSocket.{TcpSocket, construct, init, connect, close_socket, Answer, send}
use web_socket_demo.TcpSocket.Sending.{accepted, stalls, send-accepted}
use web_socket_demo.HttpClient.Messages.{
  Target, parse_http_parameter, get_http_data, get_text, post_text,
}
use web_socket_demo.HttpClient.Exchange.{
  HttpResult, success, Kernel, address, Reply, failed, on_data, on_received, received_data,
  transfer, connecting, exchange, invalid, get_http_request_ex, post_http_request_ex,
}

-- The whole text was sent, and the response is what `getHttpData` finds in the bytes received.
pub record IsDelivered (k : Kernel) (text : Bytes) (r : Reply) : Type 0 where
  pub sent_all : r.wire ≡ text
  pub http_data : Bytes
  pub came : received_data k ≡ some http_data
  pub parsed : get_http_data http_data ≡ r.response
  pub given : r.response ≢ none

on_received-IsDelivered :
    (k : Kernel) (text wire : Bytes) (s : TcpSocket)
    → wire ≡ text
    → (on_received (received_data k) wire s).result ≡ success
    → IsDelivered k text (on_received (received_data k) wire s)
on_received-IsDelivered k text wire s w e = go (received_data k) refl e
  where
    parsed_as :
        (d : Bytes) (r : Option Bytes)
        → received_data k ≡ some d
        → get_http_data d ≡ r
        → (on_data r wire s).result ≡ success
        → IsDelivered k text (on_data r wire s)
    parsed_as d none c p f = unfold on_data in cc
    parsed_as d (some b) c p f =
        unfold on_data in
        record { sent_all = w; http_data = d; came = c; parsed = p; given = λ q. cc }

    go :
        (o : Option Bytes)
        → received_data k ≡ o
        → (on_received o wire s).result ≡ success
        → IsDelivered k text (on_received o wire s)
    go none c f = unfold on_received in cc
    go (some d) c f = unfold on_received in parsed_as d (get_http_data d) c refl f

-- A count that is the whole length was not cut short.
sent_whole :
    (answers : List Answer) (text : Bytes)
    → 1 ≤ length text
    → ((send answers text).0 == length text) ≡ true
    → (send answers text).1 ≡ text
sent_whole answers text l e =
    ap (λ r. r.1) (send-accepted answers text)
    ∙ go (stalls answers (length text)) (accepted answers (length text))
        (ap (λ r. r.0 == length text) (sym (send-accepted answers text)) ∙ e)
  where
    go : (b : Bool) (a : ℕ) → ((if b then 0 else a) == length text) ≡ true → take a text ≡ text
    go true a f = absurd (omega (arith, (==_iff 0 (length text)).0 f))
    go false a f = take_all text a (omega (arith, (==_iff a (length text)).0 f))

transfer-IsDelivered :
    (k : Kernel) (text : Bytes) (s : TcpSocket)
    → 1 ≤ length text
    → (transfer k text s).result ≡ success
    → IsDelivered k text (transfer k text s)
unfolding transfer
transfer-IsDelivered k text s l e = go ((send k.sends text).0 == length text) refl e
  where
    reply : Bool → Reply
    reply b =
        if not b
        then failed HttpResult.http_header_send_error (send k.sends text).1 s
        else on_received (received_data k) (send k.sends text).1 (close_socket s)

    go :
        (b : Bool)
        → ((send k.sends text).0 == length text) ≡ b
        → (reply b).result ≡ success
        → IsDelivered k text (reply b)
    go false t f = cc
    go true t f =
        on_received-IsDelivered k text (send k.sends text).1 (close_socket s)
          (sent_whole k.sends text l t) f

connecting-IsDelivered :
    (k : Kernel) (text : Bytes) (s : TcpSocket)
    → 1 ≤ length text
    → (connecting k text s).result ≡ success
    → IsDelivered k text (connecting k text s)
unfolding connecting
connecting-IsDelivered k text s l e =
    go (connect true k.limited k.connected s).0 k.timeout_set
      (connect true k.limited k.connected s).1 e
  where
    reply : Bool → Bool → TcpSocket → Reply
    reply b t m =
        if not b
        then failed HttpResult.host_connect_error [] m
        else if not t
        then failed HttpResult.set_tcp_timeout_error [] m
        else transfer k text m

    go :
        (b t : Bool) (m : TcpSocket)
        → (reply b t m).result ≡ success
        → IsDelivered k text (reply b t m)
    go false t m f = cc
    go true false m f = cc
    go true true m f = transfer-IsDelivered k text m l f

exchange-IsDelivered :
    (k : Kernel) (host text : Bytes)
    → 1 ≤ length text
    → (exchange k host text).result ≡ success
    → IsDelivered k text (exchange k host text)
unfolding exchange
exchange-IsDelivered k host text l e = go i.0 i.1 e
  where
    i : Bool × TcpSocket
    i =
        init k.socket k.send_buff k.recv_buff
          (construct (k.resolve (address host).0) (address host).1)

    reply : Bool → TcpSocket → Reply
    reply b m = if not b then failed HttpResult.tcp_init_error [] m else connecting k text m

    go : (b : Bool) (m : TcpSocket) → (reply b m).result ≡ success → IsDelivered k text (reply b m)
    go false m f = cc
    go true m f = connecting-IsDelivered k text m l f

-- The two requests, by what they write for a target.
abbrev pub request_by : (Target → Bytes) → Kernel → Bytes → Reply
request_by text k url = elim (parse_http_parameter url) [
  | none ↦ invalid
  | some t ↦ exchange k t.host (text t)
]

request_by-IsDelivered :
    (text : Target → Bytes) (k : Kernel) (url : Bytes)
    → ((t : Target) → 1 ≤ length (text t))
    → (request_by text k url).result ≡ success
    → (t : Target) × (parse_http_parameter url ≡ some t)
      × IsDelivered k (text t) (request_by text k url)
request_by-IsDelivered text k url l e = go (parse_http_parameter url) refl e
  where
    reply : Option Target → Reply
    reply o = elim o [ none ↦ invalid | some t ↦ exchange k t.host (text t) ]

    go :
        (o : Option Target)
        → parse_http_parameter url ≡ o
        → (reply o).result ≡ success
        → (t : Target) × (parse_http_parameter url ≡ some t) × IsDelivered k (text t) (reply o)
    go none p f = cc
    go (some t) p f = (t, p, exchange-IsDelivered k t.host (text t) (l t) f)

-- A GET that succeeds has split the URL, has sent the whole request that belongs to its parts, and gives
-- the body that `getHttpData` finds in what was received.
pub get_http_request_ex-IsDelivered :
    (k : Kernel) (url : Bytes)
    → (get_http_request_ex k url).result ≡ success
    → (t : Target) × (parse_http_parameter url ≡ some t)
      × IsDelivered k (get_text t) (get_http_request_ex k url)
unfolding get_http_request_ex
get_http_request_ex-IsDelivered k url e = request_by-IsDelivered get_text k url (λ t. omega arith) e

-- The same of a POST, whose text has the parameter behind its headers.
pub post_http_request_ex-IsDelivered :
    (k : Kernel) (url : Bytes)
    → (post_http_request_ex k url).result ≡ success
    → (t : Target) × (parse_http_parameter url ≡ some t)
      × IsDelivered k (post_text t) (post_http_request_ex k url)
unfolding post_http_request_ex
post_http_request_ex-IsDelivered k url e =
    request_by-IsDelivered post_text k url (λ t. omega arith) e
