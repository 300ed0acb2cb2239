-- ===== src/Examples/Delivery.antt =====
-- The theorem on delivery, at two clients, of which one sends a text.
use web_socket_demo.Prelude.{ℕ, ◌≡◌, ◌≢◌, refl, arith, true, none, some, List, [], ◌∷◌}
use web_socket_demo.Text.{
  codes, equal, starts_with, find, lines, strip_cr, c_str, lookup, insert, index,
}
use web_socket_demo.Frame.{encode, encode_header}
use web_socket_demo.Network.{
  Network, contains, set_insert, set_erase, update_handler_events, register_ws_client,
  unregister_ws_client, queue_close, append_outgoing, broadcast_one, broadcast_round,
  broadcast_ws_binary, ctl_event_add, ctl_event_del, ctl_event,
}
use web_socket_demo.Handler.{
  Handler, fresh, append_read, add_header, header_loop, fetch_http_info, words_as_bytes, accept_key,
  parse_str,
}
use web_socket_demo.Session.{
  sent, full, flush_loop, flush_writes, handle_one_frame, reset_request, on_parsed, frame_round_in,
  frame_round, frame_loop, frames, upgrade, finish_handshake, seek_headers, drive_in, drive_io,
}
use web_socket_demo.Session.Conversation.{texts}
use web_socket_demo.Request.{
  ext_loop, read_length, unmask, take_payload, take_key, after_length, try_consume_frame,
}
use web_socket_demo.Respond.{header, pack_data}
use web_socket_demo.Loop.{
  Read, chunk, again, accept_loop, tune_client_socket, read_loop, on_readable, on_writable, round,
  init,
}
use web_socket_demo.Loop.Cuts.{readable_event}
use web_socket_demo.Loop.Steps.{Reach, start, next, accepted, readable, writable}
use web_socket_demo.Loop.Turns.{Turn, Reach-listenfd}
use web_socket_demo.Loop.Drained.{IsDrained}
use web_socket_demo.Loop.Delivered.{IsSpeaking, epoll_loop-IsDelivered}
use web_socket_demo.Examples.{sample_env, hi_frame, hi_frame-IsFrame}

abbrev greeting : List Read
greeting = chunk (codes "GET / HTTP/1.1\r\nSec-WebSocket-Key: dGhl\r\n\r\n") ∷ again ∷ []

abbrev arriving : Network
arriving =
    ctl_event (tune_client_socket (ctl_event (tune_client_socket (init 3) 4) 4 true) 5) 5 true

-- Both are upgraded, and 5 has got its reply.
abbrev meeting : Network
meeting =
    on_writable (on_readable sample_env (on_readable sample_env arriving 4 greeting) 5 greeting) 5
      (sent 1000 ∷ [])

object_of : Network → ℕ → Handler
object_of n fd = elim (n.handlers fd) [ none ↦ fresh | some h ↦ h ]

not_listening : (i : ℕ) (m : Network) → Reach sample_env 3 m → i ≢ 3 → i ≢ m.listenfd
not_listening i m r ne = rw (Reach-listenfd sample_env 3 m r) ne

arriving-Reach : Reach sample_env 3 arriving
unfolding init ctl_event ctl_event_add
arriving-Reach = next (next start (accepted 4 refl)) (accepted 5 refl)

meeting-Reach : Reach sample_env 3 meeting
meeting-Reach =
    let one : Network = on_readable sample_env arriving 4 greeting in
    let r1 : Reach sample_env 3 one =
      next arriving-Reach
        (readable 4 greeting (not_listening 4 arriving arriving-Reach (omega arith))) in
    let two : Network = on_readable sample_env one 5 greeting in
    let r2 : Reach sample_env 3 two =
      next r1 (readable 5 greeting (not_listening 5 one r1 (omega arith))) in
    next r2 (writable 5 (sent 1000 ∷ []) (not_listening 5 two r2 (omega arith)))

-- Four turns of one byte, and one of 4 between them.
abbrev listening : List Turn
listening =
    record { fd = 5; sends = sent 1 ∷ full ∷ [] }
    ∷ record { fd = 4; sends = sent 9 ∷ [] }
    ∷ record { fd = 5; sends = sent 1 ∷ full ∷ [] }
    ∷ record { fd = 5; sends = sent 1 ∷ full ∷ [] }
    ∷ record { fd = 5; sends = sent 1 ∷ full ∷ [] }
    ∷ []

abbrev says : List Read
says = chunk (encode hi_frame) ∷ again ∷ []

meeting_there : meeting.handlers 5 ≡ some (record (object_of meeting 5) { write_buf = [] })
unfolding object_of accept_loop read_loop on_readable on_writable init flush_loop flush_writes
    handle_one_frame reset_request on_parsed frame_round_in frame_round frame_loop frames upgrade
    finish_handshake seek_headers drive_in drive_io contains set_insert set_erase
    update_handler_events register_ws_client unregister_ws_client queue_close append_outgoing
    broadcast_one broadcast_round broadcast_ws_binary ctl_event_add ctl_event_del ctl_event
    append_read add_header header_loop fetch_http_info words_as_bytes accept_key parse_str equal
    starts_with find lines strip_cr c_str lookup insert index ext_loop read_length unmask
    take_payload take_key after_length try_consume_frame header pack_data encode encode_header
meeting_there = refl

meeting_sender : meeting.handlers 4 ≡ some (object_of meeting 4)
unfolding object_of accept_loop read_loop on_readable on_writable init flush_loop flush_writes
    handle_one_frame reset_request on_parsed frame_round_in frame_round frame_loop frames upgrade
    finish_handshake seek_headers drive_in drive_io contains set_insert set_erase
    update_handler_events register_ws_client unregister_ws_client queue_close append_outgoing
    broadcast_one broadcast_round broadcast_ws_binary ctl_event_add ctl_event_del ctl_event
    append_read add_header header_loop fetch_http_info words_as_bytes accept_key parse_str equal
    starts_with find lines strip_cr c_str lookup insert index ext_loop read_length unmask
    take_payload take_key after_length try_consume_frame header pack_data encode encode_header
meeting_sender = refl

sender-IsSpeaking : IsSpeaking sample_env (object_of meeting 4) says (hi_frame ∷ [])
unfolding object_of accept_loop read_loop on_readable on_writable init flush_loop flush_writes
    handle_one_frame reset_request on_parsed frame_round_in frame_round frame_loop frames upgrade
    finish_handshake seek_headers drive_in drive_io contains set_insert set_erase
    update_handler_events register_ws_client unregister_ws_client queue_close append_outgoing
    broadcast_one broadcast_round broadcast_ws_binary ctl_event_add ctl_event_del ctl_event
    append_read add_header header_loop fetch_http_info words_as_bytes accept_key parse_str equal
    starts_with find lines strip_cr c_str lookup insert index ext_loop read_length unmask
    take_payload take_key after_length try_consume_frame header pack_data encode encode_header
sender-IsSpeaking = record {
  tail = [];
  shaken = refl;
  goes_on = refl;
  holds = refl;
  read_room = omega arith;
  are_frames = ((hi_frame-IsFrame, omega arith), tt);
  waits = refl;
  allocates = λ _. refl;
  write_room = omega arith;
}

epoll_loop-IsDelivered_example :
    IsDrained sample_env
      (round sample_env meeting (readable_event 4 says ∷ []))
      5
      (record (object_of meeting 5) { write_buf = texts (hi_frame ∷ []) })
      listening
unfolding object_of accept_loop read_loop on_readable on_writable init flush_loop flush_writes
    handle_one_frame reset_request on_parsed frame_round_in frame_round frame_loop frames upgrade
    finish_handshake seek_headers drive_in drive_io contains set_insert set_erase
    update_handler_events register_ws_client unregister_ws_client queue_close append_outgoing
    broadcast_one broadcast_round broadcast_ws_binary ctl_event_add ctl_event_del ctl_event
    append_read add_header header_loop fetch_http_info words_as_bytes accept_key parse_str equal
    starts_with find lines strip_cr c_str lookup insert index ext_loop read_length unmask
    take_payload take_key after_length try_consume_frame header pack_data encode encode_header
epoll_loop-IsDelivered_example =
    epoll_loop-IsDelivered sample_env 3 4 5 meeting (object_of meeting 4)
      (record (object_of meeting 5) { write_buf = [] }) says (hi_frame ∷ []) listening meeting-Reach
      (omega arith) (omega arith) (omega arith) meeting_sender sender-IsSpeaking meeting_there refl
      refl (omega arith)
      (
        λ _. (omega arith, refl),
        (
          λ _. (omega arith, refl),
          (λ _. (omega arith, refl), (λ _. (omega arith, refl), (λ _. (omega arith, refl), tt))),
        ),
      )
      (omega arith)
