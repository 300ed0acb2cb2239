-- ===== src/Loop/HungUp.antt =====
-- On `epoll_loop` (src/websocket_master/network_interface.cpp) and `drive_io`: how a connection ends.
use web_socket_demo.Prelude.{
  ℕ, ◌+◌, ◌≤◌, ◌<◌, ◌≡◌, ◌≢◌, arith, true, false, ◌||◌, List, [], ◌∷◌, ◌++◌, none, some, Bytes,
  ◌==◌, length, take, drop, ltb, is_negative,
}
use web_socket_demo.Protocol.{
  unconnect, handsharked, ws_max_read_buffer, ws_max_write_buffer, ws_max_handshake_bytes,
}
use web_socket_demo.Text.{codes, find}
use web_socket_demo.Frame.{Frame}
use web_socket_demo.Request.{error, initial, try_consume_frame}
use web_socket_demo.Handler.{Handler, Env, fetch_http_info}
use web_socket_demo.Network.{Network, put, contains, process_close_queue}
use web_socket_demo.Network.Broadcast.{Distinct}
use web_socket_demo.Network.Close.{closes, process_close_queue-IsClosed}
use web_socket_demo.Session.{drive_in, drive_io, seek_headers, finish_handshake}
use web_socket_demo.Session.Replies.{Allocates}
use web_socket_demo.Session.Conversation.{encode_all, answers, AreFrames}
use web_socket_demo.Session.Refused.{IsQueued, queue_close-IsQueued, frames-IsQueued}
use web_socket_demo.Loop.{Event, handle_event, handle_events, round, read_loop}
use web_socket_demo.Loop.Reading.{hangs_up, too_much, filled, on_readable-drive_io}

-- What makes the object `k`, with what has arrived, end in `drive_io`.
pub data Refuses (env : Env) (k : Handler) : Type 0 where
  -- The request is too long.
  long_request : k.status ≡ unconnect → ws_max_handshake_bytes < length k.read_buf → Refuses env k
  -- The headers cannot be read.
  bad_request :
      (pos : ℕ)
      → k.status ≡ unconnect
      → find (codes "\r\n\r\n") k.read_buf ≡ some pos
      → length k.read_buf ≤ ws_max_handshake_bytes
      → (fetch_http_info k.header_map (take (pos + 4) k.read_buf)).1 ≡ false
      → Refuses env k
  -- Whole frames, whose answers fit the write buffer, and then bytes that the decoder refuses.
  bad_frame :
      (fs : List Frame) (bad : Bytes)
      → k.status ≡ handsharked
      → k.read_buf ≡ encode_all fs ++ bad
      → AreFrames fs
      → (try_consume_frame initial bad).result ≡ error
      → Allocates env
      → length k.write_buf + length (answers fs) ≤ ws_max_write_buffer
      → Refuses env k

-- What makes the connection of the object `h` end in an event.
pub data Ends (env : Env) (h : Handler) (e : Event) : Type 0 where
  -- EPOLLERR or EPOLLHUP.
  told : e.err_or_hup ≡ true → Ends env h e
  -- The stream ends, a read fails, or the bytes do not fit.
  broken_off :
      e.err_or_hup ≡ false
      → e.readable ≡ true
      → (hangs_up e.reads || too_much h e.reads) ≡ true
      → Ends env h e
  refused :
      e.err_or_hup ≡ false
      → e.readable ≡ true
      → (hangs_up e.reads || too_much h e.reads) ≡ false
      → Refuses env (filled h e.reads)
      → Ends env h e

drive_io-IsQueued :
    (env : Env) (n : Network) (fd : ℕ) (k : Handler)
    → n.handlers fd ≡ some k
    → Distinct n.ws_clients
    → is_negative fd ≡ false
    → Refuses env k
    → IsQueued fd (drive_io env n fd)
unfolding drive_io drive_in seek_headers finish_handshake
drive_io-IsQueued env n fd k there d p (long_request s l) =
    let over : ltb ws_max_handshake_bytes (length k.read_buf) ≡ true = ground arith in
    rw (there, s, over) (queue_close-IsQueued n fd k there p)
drive_io-IsQueued env n fd k there d p (bad_request pos s at l f) =
    let fits : ltb ws_max_handshake_bytes (length k.read_buf) ≡ false = ground arith in
    let g : Handler = record k {
      read_buf = drop (pos + 4) k.read_buf;
      status = unconnect;
      header_map = (fetch_http_info k.header_map (take (pos + 4) k.read_buf)).0;
    } in
    let here : (put n fd g).handlers fd ≡ some g = ground arith in
    rw (there, s, fits, at, f) (queue_close-IsQueued (put n fd g) fd g here p)
drive_io-IsQueued env n fd k there d p (bad_frame fs bad s buf v fails a room) =
    rw (there, s) (frames-IsQueued env n fd k fs bad there s buf v fails a room d p)

handle_event-IsQueued :
    (env : Env) (n : Network) (h : Handler) (e : Event)
    → n.handlers e.fd ≡ some h
    → e.fd ≢ n.listenfd
    → is_negative e.fd ≡ false
    → length h.read_buf ≤ ws_max_read_buffer
    → Distinct n.ws_clients
    → Ends env h e
    → IsQueued e.fd (handle_event env n e)
unfolding handle_event
handle_event-IsQueued env n h e there ne p fits d (told a) =
    let other : (e.fd == n.listenfd) ≡ false = ground arith in
    rw (other, a) (queue_close-IsQueued n e.fd h there p)
handle_event-IsQueued env n h e there ne p fits d (broken_off a b c) =
    let other : (e.fd == n.listenfd) ≡ false = ground arith in
    let k : Handler = (read_loop e.reads h).0 in
    let here : (put n e.fd k).handlers e.fd ≡ some k = ground arith in
    rw (other, a, b, on_readable-drive_io env n e.fd h e.reads there fits, c)
      (queue_close-IsQueued (put n e.fd k) e.fd k here p)
handle_event-IsQueued env n h e there ne p fits d (refused a b c r) =
    let other : (e.fd == n.listenfd) ≡ false = ground arith in
    let k : Handler = filled h e.reads in
    let here : (put n e.fd k).handlers e.fd ≡ some k = ground arith in
    rw (other, a, b, on_readable-drive_io env n e.fd h e.reads there fits, c)
      (drive_io-IsQueued env (put n e.fd k) e.fd k here d p r)

-- The connection is closed and forgotten in `m`, the network `n` after its queue was handled.
pub record IsGone (n m : Network) (fd : ℕ) : Type 0 where
  pub no_object : m.handlers fd ≡ none
  pub unregistered : contains fd m.ws_clients ≡ false
  pub closed_once : closes fd m.effects ≡ 1 + closes fd n.effects
  pub none_queued : m.pending_closes ≡ []

process_close_queue-IsGone :
    (fd : ℕ) (n : Network) → IsQueued fd n → IsGone n (process_close_queue n) fd
process_close_queue-IsGone fd n q =
    let (c, done) = process_close_queue-IsClosed n in
    record {
      no_object = ground (arith, c.gone fd, q.queued);
      unregistered = ground (arith, c.unregistered fd, q.queued, q.there);
      closed_once = ground (arith, c.once fd, q.queued, q.there);
      none_queued = done;
    }

-- A round with one event of a connection that is not the listening socket, is not negative and is within its limit,
-- where no client is registered twice. The kernel tells of an error or a hang-up; or the stream ends, a read fails or
-- the bytes do not fit; or, with what has been read, the request is over its limit, or its headers cannot be read, or
-- whole frames whose answers fit, with memory given, are followed by bytes that the decoder refuses. After the
-- round the connection has no object, takes part in no broadcast, was closed exactly once after the
-- event was handled, and nothing is queued.
pub round-IsGone :
    (env : Env) (n : Network) (h : Handler) (e : Event)
    → n.handlers e.fd ≡ some h
    → e.fd ≢ n.listenfd
    → is_negative e.fd ≡ false
    → length h.read_buf ≤ ws_max_read_buffer
    → Distinct n.ws_clients
    → Ends env h e
    → IsGone (handle_event env n e) (round env n (e ∷ [])) e.fd
unfolding round handle_events
round-IsGone env n h e there ne p fits d ends =
    process_close_queue-IsGone e.fd (handle_event env n e)
      (handle_event-IsQueued env n h e there ne p fits d ends)
