-- ===== src/Loop/Closed.antt =====
-- The rule for invariants of the event loop (src/websocket_master/network_interface.cpp): from the
-- primitive operations to the steps.
use web_socket_demo.Prelude.{
  ℕ, zero, suc, ◌+◌, ◌≡◌, refl, Bool, true, false, List, [], ◌∷◌, none, some, Option, Bytes, ltb,
  length, drop, take,
}
use web_socket_demo.Protocol.{Status, unconnect, handsharked, ws_max_handshake_bytes}
use web_socket_demo.Request.{ParseResult, need_more, ok, error, Request, try_consume_frame}
use web_socket_demo.Text.{codes, find, HeaderMap}
use web_socket_demo.Handler.{Handler, Env, fetch_http_info, parse_str}
use web_socket_demo.Network.{
  Network, put, queue_send, ctl_event, close_all, close_queued, process_close_queue, sort, unique,
  is_listen_fd,
}
use web_socket_demo.Session.Cases.{at_object, either, handle_one_frame_cases}
use web_socket_demo.Session.{
  on_parsed, frame_round_in, upgrade, seek_headers, drive_in, handle_one_frame, reset_request,
  store, frame_round, frame_loop, frames, fuel_for, finish_handshake, drive_io,
}
use web_socket_demo.Loop.Steps.{
  Step, accepted, hung_up, readable, writable, closed, Reach, start, next,
}
use web_socket_demo.Loop.{Read, read_loop, on_readable, init}
use web_socket_demo.Loop.Edits.{
  Edit, Closed, queue_send-status, put_self, read_loop-Edit, store-Edit, cut-Edit,
}

module _ (P : Network → Type 0) (c : Closed P) (env : Env) where
  open c use {
    on_queue_close, on_edit, on_send, on_broadcast, on_register, on_flush, on_add, on_del, on_clear,
  }

  handle_one_frame-closed :
      (n : Network) (fd : ℕ) (q : Request) (h : Handler)
      → n.handlers fd ≡ some h
      → h.status ≡ handsharked
      → P n
      → P (handle_one_frame env n fd q)
  handle_one_frame-closed n fd q h e s p =
      handle_one_frame_cases P env n fd q p (on_queue_close n fd p)
        (λ pong. on_send n fd pong h e s p)
        (λ out. on_broadcast (queue_send n fd out) fd out (on_send n fd out h e s p))

  reset_request-closed : (n : Network) (fd : ℕ) → P n → P (reset_request n fd)
  unfolding reset_request
  reset_request-closed n fd p = at_object P (n.handlers fd) n _ p λ h e.
      on_edit n fd h _ e (record { same_write = refl; read_fits = λ b. b; stays_shaken = λ b. b }) p

  on_parsed-closed :
      (n : Network) (fd : ℕ) (q : Request) (k : ParseResult) (h : Handler)
      → n.handlers fd ≡ some h
      → h.status ≡ handsharked
      → P n
      → P (on_parsed env n fd q k).0
  unfolding on_parsed
  on_parsed-closed n fd q need_more h e s p = p
  on_parsed-closed n fd q error h e s p = on_queue_close n fd p
  on_parsed-closed n fd q ok h e s p =
      reset_request-closed (handle_one_frame env n fd q) fd (handle_one_frame-closed n fd q h e s p)

  frame_round_in-closed :
      (n : Network) (fd : ℕ) (h : Handler) (s : Status)
      → n.handlers fd ≡ some h
      → h.status ≡ s
      → P n
      → P (frame_round_in env n fd h s).0
  unfolding frame_round_in
  frame_round_in-closed n fd h unconnect e b p = p
  frame_round_in-closed n fd h handsharked e b p =
      let t = try_consume_frame h.request h.read_buf in
      on_parsed-closed _ fd t.request t.result (store h t) (put_self n fd (store h t)) b
        (on_edit n fd h (store h t) e (store-Edit h) p)

  frame_round-closed : (n : Network) (fd : ℕ) → P n → P (frame_round env n fd).0
  unfolding frame_round
  frame_round-closed n fd p =
      at_object (λ (r : Network × Bool). P r.0) (n.handlers fd) (n, false) _ p
        λ h e. frame_round_in-closed n fd h h.status e refl p

  frame_loop-closed : (fuel : ℕ) (n : Network) (fd : ℕ) → P n → P (frame_loop env fuel n fd)
  unfolding frame_loop
  frame_loop-closed zero n fd p = p
  frame_loop-closed (suc fuel) n fd p =
      let r = frame_round env n fd in
      let q : P r.0 = frame_round-closed n fd p in
      goes_on r.1 r.0 q (frame_loop-closed fuel r.0 fd q)
    where
      goes_on :
          (more : Bool) (m : Network)
          → P m
          → P (frame_loop env fuel m fd)
          → P (elim more [ true ↦ frame_loop env fuel m fd | false ↦ m ])
      goes_on true m q k = k
      goes_on false m q k = q

  frames-closed : (n : Network) (fd : ℕ) → P n → P (frames env n fd)
  unfolding frames
  frames-closed n fd p = frame_loop-closed (fuel_for n fd) n fd p

  upgrade-closed :
      (n : Network) (fd : ℕ) (h h' : Handler)
      → n.handlers fd ≡ some h
      → Edit h h'
      → P n
      → P (upgrade env n fd h')
  unfolding upgrade
  upgrade-closed n fd h h' e edit p =
      let response : Bytes × HeaderMap = parse_str env h'.header_map in
      let h2 : Handler = record h' { status = handsharked; header_map = response.1 } in
      let shaken : Edit h h2 = record {
        same_write = edit.same_write;
        read_fits = edit.read_fits;
        stays_shaken = λ _. refl;
      } in
      let m : Network = put n fd h2 in
      let q : P (queue_send m fd response.0) =
        on_send m fd response.0 h2 (put_self n fd h2) refl (on_edit n fd h h2 e shaken p) in
      let (h3, there, kept) = queue_send-status m fd h2 response.0 (put_self n fd h2) in
      either P (is_listen_fd (queue_send m fd response.0) fd) q
        (on_register (queue_send m fd response.0) fd h3 there kept q)

  finish_handshake-closed :
      (n : Network) (fd : ℕ) (h : Handler) (pos : ℕ)
      → n.handlers fd ≡ some h
      → P n
      → P (finish_handshake env n fd h pos)
  unfolding finish_handshake
  finish_handshake-closed n fd h pos e p =
      let h' : Handler = record h {
        read_buf = drop (pos + 4) h.read_buf;
        header_map = (fetch_http_info h.header_map (take (pos + 4) h.read_buf)).0;
      } in
      let edit : Edit h h' = cut-Edit h (pos + 4) in
      either P (fetch_http_info h.header_map (take (pos + 4) h.read_buf)).1
        (frames-closed (upgrade env n fd h') fd (upgrade-closed n fd h h' e edit p))
        (on_queue_close (put n fd h') fd (on_edit n fd h h' e edit p))

  drive_in-closed :
      (n : Network) (fd : ℕ) (h : Handler) (s : Status)
      → n.handlers fd ≡ some h
      → P n
      → P (drive_in env n fd h s)
  unfolding drive_in
  drive_in-closed n fd h handsharked e p = frames-closed n fd p
  drive_in-closed n fd h unconnect e p =
      either P (ltb ws_max_handshake_bytes (length h.read_buf)) (on_queue_close n fd p)
        (seek (find (codes "\r\n\r\n") h.read_buf))
    where
      seek : (o : Option ℕ) → P (seek_headers env n fd h o)
      seek none = unfold seek_headers in p
      seek (some pos) = unfold seek_headers in finish_handshake-closed n fd h pos e p

  pub drive_io-closed : (n : Network) (fd : ℕ) → P n → P (drive_io env n fd)
  unfolding drive_io
  drive_io-closed n fd p =
      at_object P (n.handlers fd) n _ p λ h e. drive_in-closed n fd h h.status e p

  on_readable-closed :
      (n : Network) (fd : ℕ) (reads : List Read) → P n → P (on_readable env n fd reads)
  unfolding on_readable
  on_readable-closed n fd reads p = at_object P (n.handlers fd) n _ p λ h e.
      let r = read_loop reads h in
      let q : P (put n fd r.0) = on_edit n fd h r.0 e (read_loop-Edit reads h) p in
      either P r.1 (on_queue_close (put n fd r.0) fd q) (drive_io-closed (put n fd r.0) fd q)

  close_all-closed : (fds : List ℕ) (n : Network) → P n → P (close_all fds n)
  unfolding close_all
  close_all-closed [] n p = p
  close_all-closed (fd ∷ fds) n p = close_all-closed fds _ (deletes (n.handlers fd))
    where
      deletes : (o : Option Handler) → P (elim o [ none ↦ n | some h ↦ ctl_event n fd false ])
      deletes none = p
      deletes (some h) = on_del n fd p

  close_queued-closed : (n : Network) (fds : List ℕ) → P n → P (close_queued n fds)
  unfolding close_queued
  close_queued-closed n [] p = p
  close_queued-closed n (fd ∷ fds) p = on_clear _ (close_all-closed (unique (sort (fd ∷ fds))) n p)

  process_close_queue-closed : (n : Network) → P n → P (process_close_queue n)
  unfolding process_close_queue
  process_close_queue-closed n p = close_queued-closed n n.pending_closes p

  pub Step-closed : {n m : Network} → Step env n m → P n → P m
  Step-closed {n} (accepted fd e) p = on_add n fd e p
  Step-closed {n} (hung_up fd) p = on_queue_close n fd p
  Step-closed {n} (readable fd reads ne) p = on_readable-closed n fd reads p
  Step-closed {n} (writable fd sends ne) p = on_flush n fd sends p
  Step-closed {n} closed p = process_close_queue-closed n p

  pub Reach-closed : {listenfd : ℕ} {n : Network} → P (init listenfd) → Reach env listenfd n → P n
  Reach-closed i start = i
  Reach-closed i (next r s) = Step-closed s (Reach-closed i r)
