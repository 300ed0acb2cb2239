-- ===== src/Session/Queued.antt =====
-- On the close queue while frames are handled (src/websocket_master/websocket_handler.cpp): nothing leaves it.
use web_socket_demo.Prelude.{
  ℕ, ◌≤◌, ◌≡◌, arith, Bool, true, false, List, [], ◌∷◌, Bytes, length, length-append,
}
use web_socket_demo.Protocol.{Status, handsharked, unconnect}
use web_socket_demo.Request.{ParseResult, need_more, ok, error, Request, try_consume_frame}
use web_socket_demo.Handler.{Handler, Env}
use web_socket_demo.Network.{
  put, Network, update_handler_events, queue_close, append_outgoing, queue_send, broadcast_one,
  broadcast_round, broadcast_loop, refresh_all, broadcast_ws_binary,
}
use web_socket_demo.Session.Cases.{handle_one_frame_cases, at_object}
use web_socket_demo.Session.Rounds.{frames_induction}
use web_socket_demo.Session.{
  handle_one_frame, reset_request, store, on_parsed, frame_round_in, frame_round, frames,
}

abbrev pub queued : Network → ℕ
queued n = length n.pending_closes

pub queue_close-queued : (n : Network) (fd : ℕ) → queued n ≤ queued (queue_close n fd)
unfolding queue_close
queue_close-queued n fd = ground (arith, length-append n.pending_closes (fd ∷ []))

append_outgoing-queued :
    (n : Network) (fd : ℕ) (text : Bytes) (b : Bool)
    → queued n ≤ queued (append_outgoing n fd text b)
unfolding append_outgoing update_handler_events
append_outgoing-queued n fd text b = ground (arith, queue_close-queued n fd)

broadcast_round-queued :
    (except_fd : ℕ) (text : Bytes) (cfd : ℕ) (n : Network) (t : List ℕ)
    → queued n ≤ queued (broadcast_round except_fd text cfd n t).0
unfolding broadcast_round broadcast_one
broadcast_round-queued except_fd text cfd n t =
    ground (arith, append_outgoing-queued n cfd text false)

broadcast_loop-queued :
    (except_fd : ℕ) (text : Bytes) (clients : List ℕ) (n : Network) (t : List ℕ)
    → queued n ≤ queued (broadcast_loop except_fd text clients n t).0
unfolding broadcast_loop
broadcast_loop-queued except_fd text [] n t = omega arith
broadcast_loop-queued except_fd text (cfd ∷ rest) n t =
    let r = broadcast_round except_fd text cfd n t in
    omega (
      arith,
      broadcast_round-queued except_fd text cfd n t,
      broadcast_loop-queued except_fd text rest r.0 r.1,
    )

refresh_all-queued : (fds : List ℕ) (n : Network) → queued (refresh_all fds n) ≡ queued n
unfolding refresh_all update_handler_events
refresh_all-queued [] n = omega arith
refresh_all-queued (fd ∷ rest) n =
    ground (arith, refresh_all-queued rest (update_handler_events n fd))

broadcast-queued :
    (n : Network) (fd : ℕ) (text : Bytes) → queued n ≤ queued (broadcast_ws_binary n fd text)
unfolding broadcast_ws_binary
broadcast-queued n fd text = ground (
  arith,
  broadcast_loop-queued fd text n.ws_clients n [],
  let r = broadcast_loop fd text n.ws_clients n [] in refresh_all-queued r.1 r.0,
)

-- A frame only adds to the queue.
pub handled-queued :
    (env : Env) (n : Network) (fd : ℕ) (q : Request)
    → queued n ≤ queued (reset_request (handle_one_frame env n fd q) fd)
unfolding reset_request
handled-queued env n fd q = ground (
  arith,
  handle_one_frame_cases (λ m. queued n ≤ queued m) env n fd q (omega arith)
      (queue_close-queued n fd) (λ pong. append_outgoing-queued n fd pong true)
      (λ out. omega (
        arith,
        append_outgoing-queued n fd out true,
        broadcast-queued (queue_send n fd out) fd out,
      )),
)

on_parsed-queued :
    (env : Env) (n : Network) (fd : ℕ) (q : Request) (k : ParseResult)
    → queued n ≤ queued (on_parsed env n fd q k).0
unfolding on_parsed
on_parsed-queued env n fd q need_more = omega arith
on_parsed-queued env n fd q error = queue_close-queued n fd
on_parsed-queued env n fd q ok = handled-queued env n fd q

frame_round_in-queued :
    (env : Env) (n : Network) (fd : ℕ) (h : Handler) (s : Status)
    → queued n ≤ queued (frame_round_in env n fd h s).0
unfolding frame_round_in
frame_round_in-queued env n fd h unconnect = omega arith
frame_round_in-queued env n fd h handsharked =
    let c = try_consume_frame h.request h.read_buf in
    on_parsed-queued env (put n fd (store h c)) fd c.request c.result

frame_round-queued : (env : Env) (fd : ℕ) (n : Network) → queued n ≤ queued (frame_round env n fd).0
unfolding frame_round
frame_round-queued env fd n =
    at_object (λ (r : Network × Bool). queued n ≤ queued r.0) (n.handlers fd) (n, false)
      (λ h. frame_round_in env n fd h h.status) (omega arith)
      (λ h there. frame_round_in-queued env n fd h h.status)

-- So does the loop.
pub frames-queued : (env : Env) (fd : ℕ) (n : Network) → queued n ≤ queued (frames env n fd)
frames-queued env fd =
    frames_induction env fd (λ n m. queued n ≤ queued m) (λ n e. frame_round-queued env fd n)
      (λ n m e more. omega (arith, frame_round-queued env fd n))
