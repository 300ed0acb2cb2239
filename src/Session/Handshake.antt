-- ===== src/Session/Handshake.antt =====
-- On `drive_io` (src/websocket_master/websocket_handler.cpp): a request at the front of the buffer.
use web_socket_demo.Prelude.{
  ℕ, ◌+◌, ◌≤◌, ◌≡◌, ◌≢◌, refl, sym, ◌∙◌, arith, false, ◌||◌, [], ◌∷◌, ◌++◌, some, Bytes, ◌==◌,
  is_negative, length, length-append, take-length-append, drop-length-append,
}
use web_socket_demo.Protocol.{unconnect, handsharked, ws_max_handshake_bytes, ws_max_write_buffer}
use web_socket_demo.Text.{codes, lookup}
use web_socket_demo.Text.Maps.{NoNul}
use web_socket_demo.Handler.{Handler, Env}
use web_socket_demo.Handler.Headers.{
  IsPlain, Headers, AreHeaders, fields, insert_all, request_text, fetch_http_info-request_text,
  find-request_text,
}
use web_socket_demo.Handler.Reply.{
  last_value, lookup-insert_all, accept_value, reply, parse_str-reply,
}
use web_socket_demo.Network.{
  Network, contains, register_ws_client, queue_close, append_outgoing, update_handler_events,
}
use web_socket_demo.Network.Sets.{contains-set_insert}
use web_socket_demo.Session.{frames, upgrade, finish_handshake, seek_headers, drive_in, drive_io}

-- `m` is `n` after the connection `fd` was upgraded by a request with the headers `hs`.
pub record IsUpgraded (env : Env) (n m : Network) (fd : ℕ) (h : Handler) (hs : Headers)
    (key rest : Bytes) : Type 0 where
  pub own :
      m.handlers fd
      ≡ some (record h {
        read_buf = rest;
        write_buf = h.write_buf ++ reply env key;
        status = handsharked;
        header_map = insert_all hs h.header_map;
      })
  pub others : (i : ℕ) → i ≢ fd → m.handlers i ≡ n.handlers i
  pub registered : (i : ℕ) → contains i m.ws_clients ≡ (i == fd || contains i n.ws_clients)
  pub same_closes : m.pending_closes ≡ n.pending_closes

module _ (line : Bytes) (hs : Headers) (rest : Bytes) (plain : IsPlain line)
    (are : AreHeaders hs) where
  length-request_text : length (request_text line hs) ≡ length line + length (fields hs) + 4
  length-request_text = ground (
    arith,
    length-append line (b'\r' ∷ b'\n' ∷ (fields hs ++ (b'\r' ∷ b'\n' ∷ []))),
    length-append (fields hs) (b'\r' ∷ b'\n' ∷ []),
  )

  -- The request is cut off the buffer, and its headers are read.
  finish_handshake-request_text :
      (env : Env) (n : Network) (fd : ℕ) (h : Handler)
      → h.read_buf ≡ request_text line hs ++ rest
      → finish_handshake env n fd h (length line + length (fields hs))
        ≡ frames env
            (upgrade env n fd
              (record h { read_buf = rest; header_map = insert_all hs h.header_map }))
            fd
  unfolding finish_handshake
  finish_handshake-request_text env n fd h e =
      rw
        (
          e,
          sym length-request_text,
          take-length-append (request_text line hs) rest,
          drop-length-append (request_text line hs) rest,
          fetch_http_info-request_text line hs h.header_map plain are,
        )
        refl

  drive_io-upgrade :
      (env : Env) (n : Network) (fd : ℕ) (h : Handler)
      → n.handlers fd ≡ some h
      → h.status ≡ unconnect
      → h.read_buf ≡ request_text line hs ++ rest
      → length h.read_buf ≤ ws_max_handshake_bytes
      → drive_io env n fd
        ≡ frames env
            (upgrade env n fd
              (record h { read_buf = rest; header_map = insert_all hs h.header_map }))
            fd
  unfolding drive_io drive_in seek_headers
  drive_io-upgrade env n fd h there new buf small = ground (
    arith,
    find-request_text line hs rest plain are,
    finish_handshake-request_text env n fd h buf,
  )

upgrade-IsUpgraded :
    (env : Env) (n : Network) (fd : ℕ) (h : Handler) (hs : Headers) (key rest : Bytes)
    → fd ≢ n.listenfd
    → is_negative fd ≡ false
    → last_value (codes "Sec-WebSocket-Key") hs ≡ some key
    → NoNul key
    → NoNul (accept_value env key)
    → length h.write_buf + length (reply env key) ≤ ws_max_write_buffer
    → IsUpgraded env n
        (upgrade env n fd (record h { read_buf = rest; header_map = insert_all hs h.header_map }))
        fd
        h
        hs
        key
        rest
unfolding upgrade append_outgoing update_handler_events queue_close register_ws_client contains
upgrade-IsUpgraded env n fd h hs key rest ne pos found nul nul' room =
    rw (parse_str-reply env key (insert_all hs h.header_map) there nul nul') (record {
      own = ground arith;
      others = λ i ne'. ground arith;
      registered = λ i. ground (arith, contains-set_insert i fd n.ws_clients);
      same_closes = ground arith;
    })
  where
    there : lookup (codes "Sec-WebSocket-Key") (insert_all hs h.header_map) ≡ some key
    there = lookup-insert_all _ hs h.header_map ∙ ground (arith, found)

-- A connection that is not upgraded yet and is not the listening socket nor negative, with a whole
-- request at the front of its buffer, of 64 KiB at most with what follows it, whose headers have a
-- key: `drive_io` takes exactly the request, appends the reply of RFC 6455 to the last key of that
-- name to the write buffer, registers the connection as a client, changes no other object, queues
-- none for closing, and goes on with the frames behind the request. The first line and the headers
-- are as HTTP writes them, the key and the base64 text have no NUL, and the reply fits the write
-- buffer.
pub drive_io-IsUpgraded :
    (env : Env) (n : Network) (fd : ℕ) (h : Handler) (line : Bytes) (hs : Headers)
    (key rest : Bytes)
    → n.handlers fd ≡ some h
    → h.status ≡ unconnect
    → h.read_buf ≡ request_text line hs ++ rest
    → length h.read_buf ≤ ws_max_handshake_bytes
    → IsPlain line
    → AreHeaders hs
    → fd ≢ n.listenfd
    → is_negative fd ≡ false
    → last_value (codes "Sec-WebSocket-Key") hs ≡ some key
    → NoNul key
    → NoNul (accept_value env key)
    → length h.write_buf + length (reply env key) ≤ ws_max_write_buffer
    → (m : Network) × (drive_io env n fd ≡ frames env m fd) × IsUpgraded env n m fd h hs key rest
drive_io-IsUpgraded env n fd h line hs key rest there new buf small plain are ne pos found nul nul'
      room =
    (
      upgrade env n fd (record h { read_buf = rest; header_map = insert_all hs h.header_map }),
      drive_io-upgrade line hs rest plain are env n fd h there new buf small,
      upgrade-IsUpgraded env n fd h hs key rest ne pos found nul nul' room,
    )
