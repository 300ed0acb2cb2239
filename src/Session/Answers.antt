-- ===== src/Session/Answers.antt =====
-- On `handle_one_frame` (src/websocket_master/websocket_handler.cpp): a round of the loop, by the kind of frame.
use mathlib.Core.Option
use web_socket_demo.Prelude.{
  ℕ, ◌+◌, ◌≤◌, ◌≡◌, ◌≢◌, refl, ap, ◌∙◌, arith, Bool, true, false, not, ◌&&◌, ◌||◌, [], ◌∷◌, ◌++◌,
  some, Bytes, ◌==◌, if◌then◌else◌, length, is_negative,
}
use web_socket_demo.Protocol.{
  handsharked, text_data, connect_close, ws_max_payload_bytes, ws_max_write_buffer,
}
use web_socket_demo.Frame.{Frame, encode, IsFrame}
use web_socket_demo.Request.{Request, initial}
use web_socket_demo.Request.Decode.{decoded, try_consume_frame-encode}
use web_socket_demo.Handler.{Handler, Env}
use web_socket_demo.Network.{Network, put, contains, queue_close}
use web_socket_demo.Network.Broadcast.{contains-append, deliver, overflows, Distinct}
use web_socket_demo.Session.{
  handle_one_frame, reset_request, on_parsed, frame_round_in, frame_round,
}
use web_socket_demo.Session.Replies.{answer, Allocates, IsAnswered, handle_one_frame-IsAnswered}

-- The interface and the flag `r` after a round on the frame `f` that stood at the front of the read
-- buffer of `h`, with `rest` behind it.
pub record IsRound (n : Network) (r : Network × Bool) (fd : ℕ) (h : Handler) (f : Frame)
    (rest : Bytes) : Type 0 where
  pub goes_on : r.1 ≡ true
  pub own :
      r.0.handlers fd
      ≡ some (record h {
        read_buf = rest;
        write_buf = h.write_buf ++ answer f.opcode f.payload;
        request = initial;
      })
  pub others :
      (i : ℕ)
      → i ≢ fd
      → r.0.handlers i ≡ (
          if f.opcode == text_data && contains i n.ws_clients
          then Option.map (deliver (answer f.opcode f.payload)) (n.handlers i)
          else n.handlers i)
  pub same_clients : r.0.ws_clients ≡ n.ws_clients
  pub closing :
      f.opcode ≡ connect_close → is_negative fd ≡ false → contains fd r.0.pending_closes ≡ true
  pub others_closing :
      (i : ℕ)
      → i ≢ fd
      → contains i r.0.pending_closes ≡ (
          contains i n.pending_closes
          || (f.opcode == text_data
              && contains i n.ws_clients
              && overflows (answer f.opcode f.payload) (n.handlers i)
              && not (is_negative i)))

handle_one_frame-closing :
    (env : Env) (n : Network) (fd : ℕ) (q : Request)
    → q.opcode ≡ connect_close
    → is_negative fd ≡ false
    → contains fd (reset_request (handle_one_frame env n fd q) fd).pending_closes ≡ true
unfolding handle_one_frame reset_request queue_close contains
handle_one_frame-closing env n fd q e p =
    ground (arith, contains-append fd n.pending_closes (fd ∷ []))

reset_request-own :
    (n : Network) (fd : ℕ) (k : Handler)
    → n.handlers fd ≡ some k
    → (reset_request n fd).handlers fd ≡ some (record k { request = initial })
unfolding reset_request
reset_request-own n fd k e = ground arith

reset_request-others :
    (n : Network) (fd i : ℕ) → i ≢ fd → (reset_request n fd).handlers i ≡ n.handlers i
unfolding reset_request
reset_request-others n fd i ne = ground arith

reset_request-pending_closes :
    (n : Network) (fd : ℕ) → (reset_request n fd).pending_closes ≡ n.pending_closes
unfolding reset_request
reset_request-pending_closes n fd = ground arith

reset_request-ws_clients : (n : Network) (fd : ℕ) → (reset_request n fd).ws_clients ≡ n.ws_clients
unfolding reset_request
reset_request-ws_clients n fd = ground arith

module _ (env : Env) (n : Network) (fd : ℕ) (h : Handler) (f : Frame) (rest : Bytes) where
  -- The interface when the frame has been parsed.
  parsed : Network
  parsed = put n fd (record h { read_buf = rest; request = decoded f })

  frame_round-parsed :
      n.handlers fd ≡ some h
      → h.status ≡ handsharked
      → h.read_buf ≡ encode f ++ rest
      → IsFrame f
      → length f.payload ≤ ws_max_payload_bytes
      → frame_round env n fd ≡ (reset_request (handle_one_frame env parsed fd (decoded f)) fd, true)
  unfolding frame_round frame_round_in on_parsed parsed
  frame_round-parsed there shaken buf v fits =
      ground (arith, try_consume_frame-encode h.request f rest v fits)

-- A round of an upgraded connection on a well-formed frame at the front of its buffer, where
-- memory is given, the payload is within its limit, the answer fits the write buffer and no client
-- is registered twice: the frame is removed, the loop goes on, a text is echoed to the sender and
-- given once to every other registered connection that has room for it, a ping is answered by a
-- pong with its payload, a close queues the sender for closing, and no frame has another effect on
-- the objects or on the set of clients. Of the others, those are queued that would get a text and
-- have no room for it, unless they are negative.
pub frame_round-IsRound :
    (env : Env) (n : Network) (fd : ℕ) (h : Handler) (f : Frame) (rest : Bytes)
    → n.handlers fd ≡ some h
    → h.status ≡ handsharked
    → h.read_buf ≡ encode f ++ rest
    → IsFrame f
    → length f.payload ≤ ws_max_payload_bytes
    → Allocates env
    → length h.write_buf + length (answer f.opcode f.payload) ≤ ws_max_write_buffer
    → Distinct n.ws_clients
    → IsRound n (frame_round env n fd) fd h f rest
unfolding parsed
frame_round-IsRound env n fd h f rest there shaken buf v fits a room d =
    let m : Network = parsed env n fd h f rest in
    let k : Handler = record h { read_buf = rest; request = decoded f } in
    let answered : IsAnswered m (handle_one_frame env m fd (decoded f)) fd k f.opcode f.payload =
      handle_one_frame-IsAnswered env m fd k (decoded f) (put_there n fd k) a refl fits room d in
    rw (frame_round-parsed env n fd h f rest there shaken buf v fits) (record {
      goes_on = refl;
      own = reset_request-own (handle_one_frame env m fd (decoded f)) fd _ answered.own;
      others = λ i ne.
          reset_request-others (handle_one_frame env m fd (decoded f)) fd i ne
          ∙ answered.others i ne
          ∙ kept i ne;
      same_clients =
          reset_request-ws_clients (handle_one_frame env m fd (decoded f)) fd
          ∙ answered.same_clients;
      closing = handle_one_frame-closing env m fd (decoded f);
      others_closing = λ i ne.
          ap (contains i) (reset_request-pending_closes (handle_one_frame env m fd (decoded f)) fd)
          ∙ answered.others_closing i ne
          ∙ kept_closing i ne;
    })
  where
    put_there : (n : Network) (fd : ℕ) (k : Handler) → (put n fd k).handlers fd ≡ some k
    put_there n fd k = ground arith

    kept :
        (i : ℕ)
        → i ≢ fd
        → (if f.opcode == text_data && contains i n.ws_clients
            then Option.map
                (deliver (answer f.opcode f.payload))
                ((parsed env n fd h f rest).handlers i)
            else (parsed env n fd h f rest).handlers i)
          ≡ (if f.opcode == text_data && contains i n.ws_clients
              then Option.map (deliver (answer f.opcode f.payload)) (n.handlers i)
              else n.handlers i)
    kept i ne = ground arith

    kept_closing :
        (i : ℕ)
        → i ≢ fd
        → (contains i n.pending_closes
            || (f.opcode == text_data
                && contains i n.ws_clients
                && overflows (answer f.opcode f.payload) ((parsed env n fd h f rest).handlers i)
                && not (is_negative i)))
          ≡ (contains i n.pending_closes
              || (f.opcode == text_data
                  && contains i n.ws_clients
                  && overflows (answer f.opcode f.payload) (n.handlers i)
                  && not (is_negative i)))
    kept_closing i ne = ground arith
