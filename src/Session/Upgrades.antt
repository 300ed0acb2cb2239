-- ===== src/Session/Upgrades.antt =====
-- On the upgrade in `drive_io` (src/websocket_master/websocket_handler.cpp): what it leaves, whatever stands behind the
-- request.
use web_socket_demo.Prelude.{ℕ, ◌≡◌, arith, true, some, Bytes, if◌then◌else◌}
use web_socket_demo.Protocol.{handsharked}
use web_socket_demo.Network.Send.{queue_send-handlers}
use web_socket_demo.Network.Broadcast.{deliver}
use web_socket_demo.Handler.{Handler, Env, nonempty, parse_str}
use web_socket_demo.Network.{Network, put, queue_send, register_ws_client}
use web_socket_demo.Session.{upgrade}
use web_socket_demo.Session.Listening.{queue_send-listenfd}
use web_socket_demo.Session.Filling.{read_more, fill, fill-put, append_outgoing-fill}

module _ (env : Env) (fd : ℕ) where
  register-fill :
      (more : Bytes) (n : Network)
      → register_ws_client (fill fd more n) fd ≡ fill fd more (register_ws_client n fd)
  unfolding register_ws_client
  register-fill more n = ground arith

  -- The upgrade does not look at the bytes behind the request.
  pub upgrade-fill :
      (n : Network) (h : Handler) (more : Bytes)
      → upgrade env (fill fd more n) fd (read_more more h) ≡ fill fd more (upgrade env n fd h)
  unfolding upgrade
  upgrade-fill n h more =
      let r = parse_str env h.header_map in
      let k : Handler = record h { status = handsharked; header_map = r.1 } in
      let m : Network = queue_send (put n fd k) fd r.0 in
      let put_k : put (fill fd more n) fd (read_more more k) ≡ fill fd more (put n fd k) =
        ground (arith, fill-put fd more n fd k) in
      let sent_k : queue_send (put (fill fd more n) fd (read_more more k)) fd r.0 ≡ fill fd more m =
        rw put_k (append_outgoing-fill fd more (put n fd k) fd r.0 true) in
      ground (arith, sent_k, register-fill more m)

  pub upgrade-there :
      (n : Network) (h : Handler)
      → (k : Handler) × ((upgrade env n fd h).handlers fd ≡ some k)
        × (k.status ≡ handsharked)
        × (k.read_buf ≡ h.read_buf)
  unfolding upgrade register_ws_client
  upgrade-there n h =
      let r = parse_str env h.header_map in
      let k : Handler = record h { status = handsharked; header_map = r.1 } in
      (
        if nonempty r.0 then deliver r.0 k else k,
        ground (arith, queue_send-handlers (put n fd k) fd r.0 fd),
        ground arith,
        ground arith,
      )

  pub upgrade-listenfd : (n : Network) (h : Handler) → (upgrade env n fd h).listenfd ≡ n.listenfd
  unfolding upgrade register_ws_client
  upgrade-listenfd n h =
      let r = parse_str env h.header_map in
      let k : Handler = record h { status = handsharked; header_map = r.1 } in
      ground (arith, queue_send-listenfd (put n fd k) fd r.0)
