-- ===== src/Session/Replies.antt =====
-- On `handle_one_frame` (src/websocket_master/websocket_handler.cpp): the answer to each kind of frame.
use mathlib.Core.Option
use web_socket_demo.Prelude.{
  ◌∙◌, ℕ, ◌+◌, ◌≤◌, ◌<◌, ◌≡◌, ◌≢◌, refl, arith, true, false, not, ◌&&◌, ◌||◌, ◌∷◌, is_negative, [],
  ◌++◌, some, Bytes, ◌==◌, if◌then◌else◌, Bool-cases, inl, inr, length, append-nil, ==_iff,
}
use web_socket_demo.Protocol.{
  text_data, ping_pack, pang_pack, ws_max_payload_bytes, ws_max_write_buffer,
}
use web_socket_demo.Frame.{Frame, encode_header, encode}
use web_socket_demo.Request.{Request}
use web_socket_demo.Respond.{pack_data}
use web_socket_demo.Respond.Layout.{server_frame, pack_data-encode}
use web_socket_demo.Handler.{Handler, Env, nonempty}
use web_socket_demo.Network.{Network, contains, queue_close, queue_send, broadcast_ws_binary}
use web_socket_demo.Network.Broadcast.{
  deliver, overflows, Distinct, IsBroadcast, broadcast_ws_binary-IsBroadcast, contains-append,
}
use web_socket_demo.Network.Send.{queue_send-handlers, queue_send-ws_clients, queue_send-closing}
use web_socket_demo.Session.{handle_one_frame}

-- The bytes that answer a frame: a text is echoed, a ping gets its pong, anything else gets nothing.
abbrev pub answer : ℕ → Bytes → Bytes
answer opcode payload =
    if opcode == text_data
    then encode (server_frame 1 text_data payload)
    else if opcode == ping_pack
    then encode (server_frame 1 pang_pack payload)
    else []

-- `malloc` never fails.
abbrev pub Allocates : Env → Type 0
Allocates env = (k : ℕ) → env.malloc k ≡ true

pub encode-nonempty : (f : Frame) → nonempty (encode f) ≡ true
unfolding encode encode_header
encode-nonempty f = refl

packed :
    (env : Env) (payload : Bytes) (opcode : ℕ)
    → Allocates env
    → opcode < 16
    → length payload ≤ ws_max_payload_bytes
    → pack_data env.malloc payload (length payload) 1 opcode 0
      ≡ some (encode (server_frame 1 opcode payload))
packed env payload opcode a o l = ground (
  arith,
  (pack_data-encode env.malloc payload 1 opcode (omega arith) o (omega arith)).0,
  a (length (encode (server_frame 1 opcode payload))),
)

-- The objects after the answer: `h` is the sender's, `fd` its descriptor.
pub record IsAnswered (n m : Network) (fd : ℕ) (h : Handler) (opcode : ℕ) (payload : Bytes)
    : Type 0 where
  pub own : m.handlers fd ≡ some (record h { write_buf = h.write_buf ++ answer opcode payload })
  pub others :
      (i : ℕ)
      → i ≢ fd
      → m.handlers i ≡ (
          if opcode == text_data && contains i n.ws_clients
          then Option.map (deliver (answer opcode payload)) (n.handlers i)
          else n.handlers i)
  pub same_clients : m.ws_clients ≡ n.ws_clients
  pub others_closing :
      (i : ℕ)
      → i ≢ fd
      → contains i m.pending_closes ≡ (
          contains i n.pending_closes
          || (opcode == text_data
              && contains i n.ws_clients
              && overflows (answer opcode payload) (n.handlers i)
              && not (is_negative i)))

module _ (env : Env) (n : Network) (fd : ℕ) (h : Handler) (q : Request)
    (there : n.handlers fd ≡ some h) (allocates : Allocates env)
    (whole : q.payload_length ≡ length q.payload) (fits : length q.payload ≤ ws_max_payload_bytes)
    (room : length h.write_buf + length (answer q.opcode q.payload) ≤ ws_max_write_buffer) where
  text_out : Bytes
  text_out = encode (server_frame 1 text_data q.payload)

  pong_out : Bytes
  pong_out = encode (server_frame 1 pang_pack q.payload)

  runs-text :
      q.opcode ≡ text_data
      → handle_one_frame env n fd q ≡ broadcast_ws_binary (queue_send n fd text_out) fd text_out
  unfolding handle_one_frame text_out
  runs-text e =
      ground (arith, packed env q.payload text_data allocates (omega arith) fits, whole, e)

  runs-ping : q.opcode ≡ ping_pack → handle_one_frame env n fd q ≡ queue_send n fd pong_out
  unfolding handle_one_frame pong_out
  runs-ping e =
      ground (arith, packed env q.payload pang_pack allocates (omega arith) fits, whole, e)

  answer-text : q.opcode ≡ text_data → answer q.opcode q.payload ≡ text_out
  unfolding text_out
  answer-text e = ground arith

  answer-ping : q.opcode ≡ ping_pack → answer q.opcode q.payload ≡ pong_out
  unfolding pong_out
  answer-ping e = ground arith

  handle-text :
      q.opcode ≡ text_data
      → Distinct n.ws_clients
      → IsAnswered n (handle_one_frame env n fd q) fd h q.opcode q.payload
  handle-text e d =
      let n1 : Network = queue_send n fd text_out in
      let some_bytes : nonempty text_out ≡ true = unfold text_out in encode-nonempty _ in
      let b : IsBroadcast n1 (broadcast_ws_binary n1 fd text_out) fd text_out =
        broadcast_ws_binary-IsBroadcast n1 fd text_out some_bytes
          (rw (queue_send-ws_clients n fd text_out) d) in
      let here = answer-text e in
      rw (runs-text e) (record {
        own = ground (
          arith,
          b.delivered fd,
          queue_send-handlers n fd text_out fd,
          some_bytes,
          here,
          there,
          room,
        );
        others = λ i ne. ground (
          arith,
          b.delivered i,
          queue_send-handlers n fd text_out i,
          some_bytes,
          here,
          e,
          queue_send-ws_clients n fd text_out,
        );
        same_clients = b.same_clients ∙ queue_send-ws_clients n fd text_out;
        others_closing = λ i ne. ground (
          arith,
          b.closing i,
          queue_send-handlers n fd text_out i,
          queue_send-closing n fd text_out i ne,
          here,
          e,
          queue_send-ws_clients n fd text_out,
        );
      })

  handle-ping :
      q.opcode ≡ ping_pack → IsAnswered n (handle_one_frame env n fd q) fd h q.opcode q.payload
  handle-ping e =
      let some_bytes : nonempty pong_out ≡ true = unfold pong_out in encode-nonempty _ in
      let here = answer-ping e in
      rw (runs-ping e) (record {
        own = ground (arith, queue_send-handlers n fd pong_out fd, some_bytes, here, there, room);
        others = λ i ne. ground (arith, queue_send-handlers n fd pong_out i, e);
        same_clients = queue_send-ws_clients n fd pong_out;
        others_closing = λ i ne. ground (arith, queue_send-closing n fd pong_out i ne, e);
      })

  handle-other :
      q.opcode ≢ text_data
      → q.opcode ≢ ping_pack
      → IsAnswered n (handle_one_frame env n fd q) fd h q.opcode q.payload
  unfolding handle_one_frame queue_close contains
  handle-other e p = record {
    own = ground (arith, append-nil h.write_buf);
    others = λ i ne. ground arith;
    same_clients = ground arith;
    others_closing = λ i ne. ground (arith, contains-append i n.pending_closes (fd ∷ []));
  }

  pub handle_one_frame-IsAnswered :
      Distinct n.ws_clients → IsAnswered n (handle_one_frame env n fd q) fd h q.opcode q.payload
  handle_one_frame-IsAnswered d = elim (Bool-cases (q.opcode == text_data)) [
    | inl e ↦ handle-text ((==_iff _ _).0 e) d
    | inr e ↦ elim (Bool-cases (q.opcode == ping_pack)) [
      | inl p ↦ handle-ping ((==_iff _ _).0 p)
      | inr p ↦ handle-other (ne_of_test e) (ne_of_test p)
    ]
  ]
    where
      ne_of_test : {a b : ℕ} → (a == b) ≡ false → a ≢ b
      ne_of_test t = ground arith
