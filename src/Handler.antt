-- ===== src/Handler.antt =====
-- One connection, src/websocket_master/websocket_handler.{h,cpp}: the object's state, and the methods that
-- stay within it. Those that go through the shared Network_Interface are in Network and Session.
-- An object is named by its descriptor `fd_`, which is its key in the interface's map.
pub mod Headers
pub mod Reply
use web_socket_demo.Prelude.{
  ℕ, ◌+◌, ◌/◌, ◌%◌, ◌^◌, Bool, true, false, not, List, [], ◌∷◌, ◌++◌, none, some, Bytes, ltb,
  if◌then◌else◌, length, drop, take,
}
use web_socket_demo.Protocol.{Status, unconnect, ws_max_read_buffer}
use web_socket_demo.Request.{Request}
use web_socket_demo.Request
use web_socket_demo.Text.{codes, equal, find, lines, strip_cr, c_str, HeaderMap, insert, index}

pub record Handler : Type 0 where
  pub read_buf : Bytes
  pub write_buf : Bytes
  pub status : Status
  pub header_map : HeaderMap
  pub request : Request

-- The constructor.
abbrev pub fresh : Handler
fresh = record {
  read_buf = [];
  write_buf = [];
  status = unconnect;
  header_map = [];
  request = Request.initial;
}

-- What the handler calls of code that is not modelled: `sha1` gives the five words of the digest
-- (sha1.cpp), `base64_encode` the text of some bytes (base64.cpp), and `malloc` says whether an
-- allocation succeeds.
pub record Env : Type 0 where
  pub malloc : ℕ → Bool
  pub sha1 : Bytes → List ℕ
  pub base64_encode : Bytes → Bytes

-- `!write_buf_.empty()`
abbrev pub nonempty : Bytes → Bool
nonempty [] = false
nonempty (x ∷ xs) = true

abbrev pub write_pending : Handler → Bool
write_pending h = nonempty h.write_buf

-- The result is false where the chunk would not fit; nothing of it is kept then.
unfoldable pub append_read : Handler → Bytes → Bool × Handler
append_read h chunk =
    if not (nonempty chunk)
    then (true, h)
    else if ltb ws_max_read_buffer (length h.read_buf + length chunk)
    then (false, h)
    else (true, record h { read_buf = h.read_buf ++ chunk })

-- One header line of the loop in `fetch_http_info`, with its '\r' removed.
unfoldable pub add_header : Bytes → HeaderMap → HeaderMap
add_header header m = elim (find (codes ": ") header) [
  | none ↦ m
  | some end ↦ insert (take end header) (drop (end + 2) header) m
]

unfoldable pub header_loop : List Bytes → HeaderMap → HeaderMap
header_loop [] m = m
header_loop (header ∷ rest) m =
    let next : HeaderMap = elim (strip_cr header) [ none ↦ m | some h ↦ add_header h m ] in
    if equal header (codes "\r") then m else header_loop rest next

-- The header map after the call, and whether the result is 0.
unfoldable pub fetch_http_info : HeaderMap → Bytes → HeaderMap × Bool
fetch_http_info m raw_headers = elim (lines raw_headers) [
  | [] ↦ (m, false)
  | request ∷ rest ↦ elim (strip_cr request) [
    | none ↦ (m, false)
    | some line ↦ (header_loop rest m, true)
  ]
]

abbrev pub magic_key : Bytes
magic_key = codes "258EAFA5-E914-47DA-95CA-C5AB0DC85B11"

-- `htonl` of each word, read as bytes: big-endian on every host.
unfoldable pub words_as_bytes : List ℕ → Bytes
words_as_bytes [] = []
words_as_bytes (w ∷ ws) =
    (w / 2 ^ 24 % 256) ∷ (w / 2 ^ 16 % 256) ∷ (w / 2 ^ 8 % 256) ∷ (w % 256) ∷ words_as_bytes ws

unfoldable pub accept_key : Env → Bytes → Bytes
accept_key env key = env.base64_encode (words_as_bytes (env.sha1 (c_str (key ++ magic_key))))

-- The text in `response` after `parse_str`, and the header map, which the look-up may extend.
unfoldable pub parse_str : Env → HeaderMap → Bytes × HeaderMap
parse_str env m =
    let found = index (codes "Sec-WebSocket-Key") m in
    (
      codes "HTTP/1.1 101 Switching Protocols\r\n"
          ++ (codes "Connection: upgrade\r\n"
              ++ (codes "Sec-WebSocket-Accept: "
                  ++ (c_str (accept_key env found.0 ++ codes "\r\n")
                      ++ codes "Upgrade: websocket\r\n\r\n"))),
      found.1,
    )
