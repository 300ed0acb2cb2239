-- ===== src/Session/Listening.antt =====
-- On the listening socket while frames are handled (src/websocket_master/websocket_handler.cpp): it stays.
use web_socket_demo.Prelude.{ℕ, ◌≡◌, refl, ◌∙◌, arith, Bool, false, [], Bytes}
use web_socket_demo.Protocol.{Status, handsharked, unconnect}
use web_socket_demo.Request.{ParseResult, need_more, ok, error, Request, try_consume_frame}
use web_socket_demo.Handler.{Env, Handler}
use web_socket_demo.Network.{
  Network, put, update_handler_events, queue_close, append_outgoing, queue_send, broadcast_loop,
  broadcast_ws_binary,
}
use web_socket_demo.Network.Broadcast.{broadcast_loop-SameSets, refresh_all-SameSets}
use web_socket_demo.Session.Cases.{handle_one_frame_cases, at_object}
use web_socket_demo.Session.Rounds.{frames_induction}
use web_socket_demo.Session.{reset_request, store, on_parsed, frame_round_in, frame_round, frames}

pub queue_send-listenfd :
    (n : Network) (fd : ℕ) (text : Bytes) → (queue_send n fd text).listenfd ≡ n.listenfd
unfolding append_outgoing update_handler_events queue_close
queue_send-listenfd n fd text = ground arith

pub queue_close-listenfd : (n : Network) (fd : ℕ) → (queue_close n fd).listenfd ≡ n.listenfd
unfolding queue_close
queue_close-listenfd n fd = ground arith

pub broadcast-listenfd :
    (n : Network) (fd : ℕ) (text : Bytes) → (broadcast_ws_binary n fd text).listenfd ≡ n.listenfd
unfolding broadcast_ws_binary
broadcast-listenfd n fd text = ground (
  arith,
  broadcast_loop-SameSets fd text n.ws_clients n [],
  let r = broadcast_loop fd text n.ws_clients n [] in refresh_all-SameSets r.1 r.0,
)

on_parsed-listenfd :
    (env : Env) (n : Network) (fd : ℕ) (q : Request) (k : ParseResult)
    → (on_parsed env n fd q k).0.listenfd ≡ n.listenfd
unfolding on_parsed reset_request
on_parsed-listenfd env n fd q need_more = refl
on_parsed-listenfd env n fd q error = queue_close-listenfd n fd
on_parsed-listenfd env n fd q ok = ground (
  arith,
  handle_one_frame_cases (λ m. m.listenfd ≡ n.listenfd) env n fd q refl (queue_close-listenfd n fd)
      (λ pong. queue_send-listenfd n fd pong)
      (λ out. broadcast-listenfd (queue_send n fd out) fd out ∙ queue_send-listenfd n fd out),
)

frame_round_in-listenfd :
    (env : Env) (n : Network) (fd : ℕ) (h : Handler) (s : Status)
    → (frame_round_in env n fd h s).0.listenfd ≡ n.listenfd
unfolding frame_round_in
frame_round_in-listenfd env n fd h unconnect = refl
frame_round_in-listenfd env n fd h handsharked =
    let c = try_consume_frame h.request h.read_buf in
    on_parsed-listenfd env (put n fd (store h c)) fd c.request c.result

frame_round-listenfd :
    (env : Env) (fd : ℕ) (n : Network) → (frame_round env n fd).0.listenfd ≡ n.listenfd
unfolding frame_round
frame_round-listenfd env fd n =
    at_object (λ (r : Network × Bool). r.0.listenfd ≡ n.listenfd) (n.handlers fd) (n, false)
      (λ h. frame_round_in env n fd h h.status) refl
      (λ h there. frame_round_in-listenfd env n fd h h.status)

pub frames-listenfd : (env : Env) (fd : ℕ) (n : Network) → (frames env n fd).listenfd ≡ n.listenfd
frames-listenfd env fd =
    frames_induction env fd (λ n m. m.listenfd ≡ n.listenfd) (λ n e. frame_round-listenfd env fd n)
      (λ n m e later. later ∙ frame_round-listenfd env fd n)
