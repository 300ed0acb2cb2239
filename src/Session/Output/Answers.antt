-- ===== src/Session/Output/Answers.antt =====
-- On `drive_io` (src/websocket_master/websocket_handler.cpp): the answer to one frame is whole frames.
use web_socket_demo.Prelude.{
  ℕ, ◌≤◌, ◌<◌, ◌≡◌, refl, sym, arith, not, ◌&&◌, List, [], ◌∷◌, Option, Bytes, IsBytes, ◌==◌,
  length, ◌⊎◌, inl, inr, if-elim,
}
use web_socket_demo.Protocol.{
  fin_msg_end, text_data, connect_close, ping_pack, pang_pack, need_not_mask, ws_max_payload_bytes,
}
use web_socket_demo.Frame.{Frame, encode}
use web_socket_demo.Request.{Request, get_msg, get_msg_length, get_msg_opcode}
use web_socket_demo.Respond.{pack_data}
use web_socket_demo.Respond.Layout.{server_frame, server_frame-IsFrame, pack_data-encode}
use web_socket_demo.Handler.{Env, nonempty}
use web_socket_demo.Network.{
  Network, queue_close, queue_send, broadcast_round, broadcast_loop, refresh_all,
  broadcast_ws_binary,
}
use web_socket_demo.Network.Broadcast.{
  broadcast_round-handlers, refresh_all-handlers, queue_close-handlers,
}
use web_socket_demo.Network.Send.{queue_send-handlers}
use web_socket_demo.Session.{on_packed, handle_one_frame}
use web_socket_demo.Session.Cases.{either}
use web_socket_demo.Session.Replies.{encode-nonempty}
use web_socket_demo.Session.Output.{IsReply, Sends, Sends-same, Sends-trans, delivered-AddsAt}

queue_send-Sends :
    (n : Network) (fd : ℕ) (f : Frame) → IsReply f → Sends n (queue_send n fd (encode f))
queue_send-Sends n fd f r i =
    rw (queue_send-handlers n fd (encode f) i)
      (delivered-AddsAt f (i == fd && nonempty (encode f)) (n.handlers i) r)

broadcast_round-Sends :
    (except_fd : ℕ) (f : Frame) (cfd : ℕ) (n : Network) (t : List ℕ)
    → IsReply f
    → Sends n (broadcast_round except_fd (encode f) cfd n t).0
broadcast_round-Sends except_fd f cfd n t r i =
    rw (broadcast_round-handlers except_fd (encode f) cfd n t i (encode-nonempty f))
      (delivered-AddsAt f (i == cfd && not (i == except_fd)) (n.handlers i) r)

broadcast_loop-Sends :
    (except_fd : ℕ) (f : Frame) (clients : List ℕ) (n : Network) (t : List ℕ)
    → IsReply f
    → Sends n (broadcast_loop except_fd (encode f) clients n t).0
unfolding broadcast_loop
broadcast_loop-Sends except_fd f [] n t r = Sends-same n n refl
broadcast_loop-Sends except_fd f (cfd ∷ rest) n t r =
    let m = broadcast_round except_fd (encode f) cfd n t in
    Sends-trans n m.0 (broadcast_loop except_fd (encode f) rest m.0 m.1).0
      (broadcast_round-Sends except_fd f cfd n t r)
      (broadcast_loop-Sends except_fd f rest m.0 m.1 r)

broadcast-Sends :
    (n : Network) (fd : ℕ) (f : Frame) → IsReply f → Sends n (broadcast_ws_binary n fd (encode f))
unfolding broadcast_ws_binary
broadcast-Sends n fd f r = rw (encode-nonempty f) (
    let m = broadcast_loop fd (encode f) n.ws_clients n [] in
    Sends-trans n m.0 (refresh_all m.1 m.0) (broadcast_loop-Sends fd f n.ws_clients n [] r)
      (Sends-same m.0 (refresh_all m.1 m.0) (sym (refresh_all-handlers m.1 m.0))))

-- What the frame in `q` has to be for its answer to be one.
abbrev pub IsWhole : Request → Type 0
IsWhole q =
    (q.payload_length ≤ ws_max_payload_bytes)
    × (length q.payload ≡ q.payload_length)
    × IsBytes q.payload

module _ (env : Env) (q : Request) (w : IsWhole q) (opcode : ℕ)
    (kind : (opcode ≡ text_data) ⊎ (opcode ≡ pang_pack)) where
  reply : Frame
  reply = server_frame 1 opcode q.payload

  opcode_bits : opcode < 16
  opcode_bits = elim kind [ inl e ↦ omega arith | inr e ↦ omega arith ]

  reply-IsReply : IsReply reply
  unfolding reply
  reply-IsReply = record {
    valid = server_frame-IsFrame 1 opcode q.payload (omega arith) opcode_bits w.2 (omega arith);
    final = refl;
    kind = kind;
    unmasked = refl;
    shortest = refl;
    within = omega arith;
  }

  packed-Sends :
      (n : Network) (f : Bytes → Network)
      → Sends n (f (encode reply))
      → Sends n (
          on_packed
            (pack_data env.malloc (get_msg q) (get_msg_length q) fin_msg_end opcode need_not_mask)
            n
            f)
  unfolding reply
  packed-Sends n f s =
      rw
        (
          ← w.1,
          (pack_data-encode env.malloc q.payload 1 opcode (omega arith) opcode_bits
              (omega arith)).0,
        )
        (if-elim (λ (o : Option Bytes). Sends n (on_packed o n f))
          (env.malloc (length (encode (server_frame 1 opcode q.payload)))) (λ e. s)
          (λ e. Sends-same n n refl))

pub handle_one_frame-Sends :
    (env : Env) (n : Network) (fd : ℕ) (q : Request)
    → IsWhole q
    → Sends n (handle_one_frame env n fd q)
unfolding handle_one_frame
handle_one_frame-Sends env n fd q w =
    let f : Frame = reply env q w text_data (inl refl) in
    let r : IsReply f = reply-IsReply env q w text_data (inl refl) in
    let m : Network = queue_send n fd (encode f) in
    either (Sends n) (get_msg_opcode q == text_data)
      (packed-Sends env q w text_data (inl refl) n _ (
        Sends-trans n m (broadcast_ws_binary m fd (encode f)) (queue_send-Sends n fd f r)
          (broadcast-Sends m fd f r)))
      (either (Sends n) (get_msg_opcode q == connect_close)
        (Sends-same n (queue_close n fd) (sym (queue_close-handlers n fd)))
        (either (Sends n) (get_msg_opcode q == ping_pack)
          (packed-Sends env q w pang_pack (inr refl) n _
            (queue_send-Sends n fd _ (reply-IsReply env q w pang_pack (inr refl))))
          (Sends-same n n refl)))
