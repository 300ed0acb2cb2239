-- ===== src/Session/Refused.antt =====
-- On the loop over frames in `drive_io` (src/websocket_master/websocket_handler.cpp): whole frames and then bytes that
-- the decoder refuses.
use web_socket_demo.Prelude.{
  ℕ, ◌+◌, ◌≤◌, ◌≡◌, refl, ap, ◌∙◌, arith, true, false, [], ◌∷◌, ◌++◌, List, some, Bytes, length,
  length-append, append_assoc, is_negative,
}
use web_socket_demo.Protocol.{handsharked, ws_max_write_buffer}
use web_socket_demo.Frame.{Frame, encode}
use web_socket_demo.Request.{error, initial, try_consume_frame}
use web_socket_demo.Request.Fresh.{try_consume_frame-SameOutcome}
use web_socket_demo.Handler.{Handler, Env}
use web_socket_demo.Network.{Network, put, contains, queue_close}
use web_socket_demo.Network.Broadcast.{contains-append, Distinct}
use web_socket_demo.Session.{on_parsed, frame_round_in, frame_round, frames, store}
use web_socket_demo.Session.Replies.{answer, Allocates}
use web_socket_demo.Session.Answers.{IsRound, frame_round-IsRound}
use web_socket_demo.Session.Conversation.{encode_all, answers, AreFrames}
use web_socket_demo.Session.Rounds.{frames_unroll}

-- The connection is queued for closing.
pub record IsQueued (fd : ℕ) (m : Network) : Type 0 where
  pub object : Handler
  pub there : m.handlers fd ≡ some object
  pub queued : contains fd m.pending_closes ≡ true

pub queue_close-IsQueued :
    (n : Network) (fd : ℕ) (h : Handler)
    → n.handlers fd ≡ some h
    → is_negative fd ≡ false
    → IsQueued fd (queue_close n fd)
unfolding queue_close contains
queue_close-IsQueued n fd h there p = record {
  object = h;
  there = ground arith;
  queued = ground (arith, contains-append fd n.pending_closes (fd ∷ []));
}

-- The decoder fails.
refusing :
    (env : Env) (n : Network) (fd : ℕ) (h : Handler)
    → n.handlers fd ≡ some h
    → h.status ≡ handsharked
    → (try_consume_frame initial h.read_buf).result ≡ error
    → frame_round env n fd
      ≡ (queue_close (put n fd (store h (try_consume_frame h.request h.read_buf))) fd, false)
unfolding frame_round frame_round_in on_parsed
refusing env n fd h there shaken e =
    ground (arith, (try_consume_frame-SameOutcome h.request initial h.read_buf).same_result)

-- The frames before it are answered, and the connection is queued.
pub frames-IsQueued :
    (env : Env) (n : Network) (fd : ℕ) (h : Handler) (fs : List Frame) (bad : Bytes)
    → n.handlers fd ≡ some h
    → h.status ≡ handsharked
    → h.read_buf ≡ encode_all fs ++ bad
    → AreFrames fs
    → (try_consume_frame initial bad).result ≡ error
    → Allocates env
    → length h.write_buf + length (answers fs) ≤ ws_max_write_buffer
    → Distinct n.ws_clients
    → is_negative fd ≡ false
    → IsQueued fd (frames env n fd)
frames-IsQueued env n fd h [] bad there shaken buf v fails a room d p =
    let t = try_consume_frame h.request h.read_buf in
    let k : Handler = store h t in
    let e : (try_consume_frame initial h.read_buf).result ≡ error =
      ap (λ b. (try_consume_frame initial b).result) buf ∙ fails in
    let here : (put n fd k).handlers fd ≡ some k = ground arith in
    rw (frames_unroll env n fd, refusing env n fd h there shaken e)
      (queue_close-IsQueued (put n fd k) fd k here p)
frames-IsQueued env n fd h (f ∷ fs) bad there shaken buf v fails a room d p =
    let rest : Bytes = encode_all fs ++ bad in
    let k : Handler = record h {
      read_buf = rest;
      write_buf = h.write_buf ++ answer f.opcode f.payload;
      request = initial;
    } in
    let r : IsRound n (frame_round env n fd) fd h f rest =
      frame_round-IsRound env n fd h f rest there shaken
        (buf ∙ append_assoc (encode f) (encode_all fs) bad) v.0.0 v.0.1 a
        (omega (arith, room, length-append (answer f.opcode f.payload) (answers fs))) d in
    rw (frames_unroll env n fd, r.goes_on)
      (frames-IsQueued env (frame_round env n fd).0 fd k fs bad r.own shaken refl v.1 fails a
        (omega (
          arith,
          room,
          length-append (answer f.opcode f.payload) (answers fs),
          length-append h.write_buf (answer f.opcode f.payload),
        ))
        (rw r.same_clients d) p)
