-- ===== src/Handler/Reply.antt =====
-- On `parse_str` (src/websocket_master/websocket_handler.cpp): the answer to a request.
use web_socket_demo.Prelude.{
  ℕ, ◌*◌, ◌≤◌, ◌<◌, ◌≡◌, refl, ap, ◌∙◌, arith, List, [], ◌∷◌, ◌++◌, Option, none, some, Bytes,
  if◌then◌else◌, length, length-append, append_assoc,
}
use web_socket_demo.Frame.{be}
use web_socket_demo.Text.{codes, equal, c_str, HeaderMap, lookup, insert, index}
use web_socket_demo.Text.Maps.{lookup-insert, NoNul, c_str-NoNul, index_found}
use web_socket_demo.Handler.{Env, magic_key, words_as_bytes, accept_key, parse_str}
use web_socket_demo.Handler.Headers.{Headers, insert_all}

-- The value of the last header of a name.
abbrev pub last_value : Bytes → Headers → Option Bytes
last_value k [] = none
last_value k ((j, v) ∷ hs) = elim (last_value k hs) [
  | none ↦ if equal j k then some v else none
  | some w ↦ some w
]

pub lookup-insert_all :
    (k : Bytes) (hs : Headers) (m : HeaderMap)
    → lookup k (insert_all hs m) ≡ (elim (last_value k hs) [ none ↦ lookup k m | some w ↦ some w ])
lookup-insert_all k [] m = refl
lookup-insert_all k ((j, v) ∷ hs) m =
    ground (arith, lookup-insert_all k hs (insert j v m), lookup-insert k j v m)

-- A digest of five 32-bit words in the order in which SHA-1 writes them.
abbrev pub digest : List ℕ → Bytes
digest [] = []
digest (w ∷ ws) = be 4 w ++ digest ws

words_as_bytes-digest : (ws : List ℕ) → words_as_bytes ws ≡ digest ws
unfolding words_as_bytes
words_as_bytes-digest [] = refl
words_as_bytes-digest (w ∷ ws) = ground (arith, words_as_bytes-digest ws)

-- RFC 6455, section 4.2.2: the base64 of the SHA-1 of the key with the server's fixed text behind it.
abbrev pub accept_value : Env → Bytes → Bytes
accept_value env key =
    env.base64_encode (digest (env.sha1 (key ++ codes "258EAFA5-E914-47DA-95CA-C5AB0DC85B11")))

abbrev pub reply : Env → Bytes → Bytes
reply env key =
    codes "HTTP/1.1 101 Switching Protocols\r\nConnection: upgrade\r\nSec-WebSocket-Accept: "
    ++ (accept_value env key ++ codes "\r\nUpgrade: websocket\r\n\r\n")

accept_key-accept_value :
    (env : Env) (key : Bytes) → NoNul key → accept_key env key ≡ accept_value env key
unfolding accept_key
accept_key-accept_value env key h = ap env.base64_encode (
    words_as_bytes-digest _
    ∙ ap (λ t. digest (env.sha1 t))
        (c_str-NoNul key magic_key h ∙ ap (λ t. key ++ t) (unfold c_str in refl)))

-- From a map with a key in it.
pub parse_str-reply :
    (env : Env) (key : Bytes) (m : HeaderMap)
    → lookup (codes "Sec-WebSocket-Key") m ≡ some key
    → NoNul key
    → NoNul (accept_value env key)
    → parse_str env m ≡ (reply env key, m)
unfolding parse_str
parse_str-reply env key m e h b =
    rw
      (
        index_found (codes "Sec-WebSocket-Key") key m e,
        accept_key-accept_value env key h,
        c_str-NoNul (accept_value env key) (codes "\r\n") b,
      )
      (unfold c_str in simp append_assoc)

length-c_str : (xs : Bytes) → length (c_str xs) ≤ length xs
unfolding c_str
length-c_str [] = omega arith
length-c_str (x ∷ xs) = ground (arith, length-c_str xs)

length-digest : (ws : List ℕ) → length (digest ws) ≡ 4 * length ws
length-digest [] = refl
length-digest (w ∷ ws) = omega (arith, length-digest ws)

-- Whatever the headers are, where SHA-1 gives five words and base64 turns 20 bytes into 28, the text
-- and its NUL fit `response`, the array of 1024 bytes that `drive_io` gives to `parse_str`.
pub length-parse_str :
    (env : Env) (m : HeaderMap)
    → ((t : Bytes) → length (env.sha1 t) ≡ 5)
    → ((t : Bytes) → length t ≡ 20 → length (env.base64_encode t) ≡ 28)
    → length (parse_str env m).0 < 1024
unfolding parse_str accept_key
length-parse_str env m five text =
    let text_of = c_str ((index (codes "Sec-WebSocket-Key") m).0 ++ magic_key) in
    let coded : Bytes = env.base64_encode (words_as_bytes (env.sha1 text_of)) in
    let size : length coded ≡ 28 = text _ (
      ap length (words_as_bytes-digest (env.sha1 text_of))
      ∙ omega (arith, length-digest (env.sha1 text_of), five text_of)) in
    omega (
      arith,
      size,
      length-c_str (coded ++ codes "\r\n"),
      length-append coded (codes "\r\n"),
      length-append (c_str (coded ++ codes "\r\n")) (codes "Upgrade: websocket\r\n\r\n"),
    )
