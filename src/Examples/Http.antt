-- ===== src/Examples/Http.antt =====
-- The theorems on the HTTP client at samples.
use web_socket_demo.Prelude.{
  ◌≡◌, refl, arith, [], ◌∷◌, none, some, Bytes, true, if◌then◌else◌, leb, take, length,
}
use web_socket_demo.Text.{codes, find, starts_with, equal}
use web_socket_demo.Startup.{atoi_digits}
use web_socket_demo.TcpSocket.{init, connect, took, send, send_loop}
use web_socket_demo.Startup.Arguments.{value}
use web_socket_demo.StringCommon.{
  strtol_digits, strtol_sign, strtol, from_string_int32, from_string_uint16,
}
use web_socket_demo.HttpClient.UrlCode.{url_encode, url_decode}
use web_socket_demo.HttpClient.Params.{parse_params, get_param}
use web_socket_demo.HttpClient.Params.RoundTrip.{Params, print_params}
use web_socket_demo.HttpClient.Form.{encode_one, encoded, url_decode-get_param}
use web_socket_demo.HttpClient.Messages.{
  Target, split_page, split_host, after_scheme, parse_http_parameter, take_body, take_length,
  with_length, get_http_data, get_text,
}
use web_socket_demo.HttpClient.Messages.Url.{url_text, parse_http_parameter-url_text}
use web_socket_demo.HttpClient.Messages.Reply.{reply_text, get_http_data-reply_text}
use web_socket_demo.TcpSocket.Options.{came, recv}
use web_socket_demo.HttpClient.Exchange.{
  success, Kernel, address, on_data, on_received, received_data, transfer, connecting, exchange,
  get_http_request_ex, post_http_request_ex, left_behind,
}
use web_socket_demo.HttpClient.Exchange.Released.{IsReleased, request-IsReleased}
use web_socket_demo.HttpClient.Exchange.Delivered.{IsDelivered, get_http_request_ex-IsDelivered}

-- "a=1&b%26="
abbrev first_param : Bytes × Bytes
first_param = (codes "a&", codes "1 ")

abbrev other_params : Params
other_params = (codes "b", codes "=") ∷ []

url_decode-get_param_example :
    url_decode (
      get_param
        (parse_params
          (print_params (encode_one first_param) (encoded other_params))
          []
          (codes "&")
          (codes "=")).1
        (url_encode (codes "a&")))
    ≡ codes "1 "
unfolding equal
url_decode-get_param_example =
    url_decode-get_param first_param other_params (codes "a&") (codes "1 ") (ground arith)
      (ground arith) refl

parse_http_parameter-url_text_example :
    parse_http_parameter (url_text (codes "h:8") (codes "p") (some (codes "q=1")))
    ≡ some (record { host = codes "h:8"; page = codes "/p"; parameter = codes "q=1" })
parse_http_parameter-url_text_example =
    parse_http_parameter-url_text (codes "h:8") (codes "p") (some (codes "q=1")) (ground arith)
      (ground arith)

abbrev ok_line : Bytes
ok_line = codes "HTTP/1.0 200 OK"

get_http_data-reply_text_example :
    get_http_data (reply_text ok_line [] (1 ∷ 2 ∷ []) [] (codes "twelve bytes and more")) ≡ (
      if leb (value (1 ∷ 2 ∷ [])) (length (codes "twelve bytes and more"))
      then some (take (value (1 ∷ 2 ∷ [])) (codes "twelve bytes and more"))
      else none)
unfolding find starts_with
get_http_data-reply_text_example =
    get_http_data-reply_text ok_line [] (1 ∷ 2 ∷ []) [] (codes "twelve bytes and more")
      (ground arith) tt tt (ground arith) (omega arith) (omega arith) refl

-- A kernel that grants all and takes the text of a request whole.
abbrev site : Bytes
site = url_text (codes "h:8") (codes "p") none

abbrev parts : Target
parts = record { host = codes "h:8"; page = codes "/p"; parameter = [] }

abbrev granting : Kernel
granting = record {
  resolve = λ h. codes "10.0.0.1";
  socket = some 6;
  send_buff = true;
  recv_buff = true;
  limited = true;
  connected = true;
  timeout_set = true;
  sends = took (length (get_text parts)) ∷ [];
  received = came (reply_text ok_line [] (2 ∷ []) [] (codes "ok"));
}

request-IsReleased_example :
    IsReleased (left_behind (get_http_request_ex granting site))
    × IsReleased (left_behind (post_http_request_ex granting site))
request-IsReleased_example = request-IsReleased granting site

granted : (get_http_request_ex granting site).result ≡ success
unfolding get_http_request_ex parse_http_parameter after_scheme split_host split_page exchange
    address init connecting transfer received_data recv on_received on_data get_http_data
    with_length take_length take_body from_string_int32 strtol strtol_sign strtol_digits atoi_digits
    find starts_with send send_loop from_string_uint16 connect
granted = refl

get_http_request_ex-IsDelivered_example :
    (t : Target) × (parse_http_parameter site ≡ some t)
    × IsDelivered granting (get_text t) (get_http_request_ex granting site)
get_http_request_ex-IsDelivered_example = get_http_request_ex-IsDelivered granting site granted
