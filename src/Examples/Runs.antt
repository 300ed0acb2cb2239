-- ===== src/Examples/Runs.antt =====
-- The theorems on the event loop at a short run.
use web_socket_demo.Prelude.{◌≡◌, refl, arith, true, [], ◌∷◌, Bytes}
use web_socket_demo.Text.{codes}
use web_socket_demo.Network.{
  Network, put, contains, set_insert, set_erase, update_handler_events, register_ws_client,
  unregister_ws_client, queue_close, append_outgoing, broadcast_one, broadcast_round,
  broadcast_ws_binary, ctl_event_add, ctl_event_del, ctl_event,
}
use web_socket_demo.Loop.{
  chunk, again, tune_client_socket, accept_loop, read_loop, on_readable, on_writable, init,
}
use web_socket_demo.Loop.Steps.{start, next, accepted, readable, Reach}
use web_socket_demo.Loop.Reading.{on_readable-drive_io}
use web_socket_demo.Loop.Limits.{IsWithin, Reach-AllWithin}
use web_socket_demo.Loop.Registered.{ClientsInv, Reach-ClientsInv}
use web_socket_demo.Loop.Wakeup.{ArmedAt, interest, Reach-Armed}
use web_socket_demo.Text.{equal, starts_with, find, lines, strip_cr, c_str, lookup, insert, index}
use web_socket_demo.Handler.{
  fresh, append_read, add_header, header_loop, fetch_http_info, words_as_bytes, accept_key,
  parse_str,
}
use web_socket_demo.Session.{
  flush_loop, flush_writes, handle_one_frame, reset_request, on_parsed, frame_round_in, frame_round,
  frame_loop, frames, upgrade, finish_handshake, seek_headers, drive_in, drive_io,
}
use web_socket_demo.Request.{
  ext_loop, read_length, unmask, take_payload, take_key, after_length, try_consume_frame,
}
use web_socket_demo.Respond.{header, pack_data}
use web_socket_demo.Examples.{sample_network, talking, sample_env}

abbrev greeting : Bytes
greeting = codes "GET / HTTP/1.1\r\nSec-WebSocket-Key: dGhl\r\n\r\n"

abbrev one_client : Network
one_client = ctl_event (tune_client_socket (init 3) 4) 4 true

-- A client has connected and sent its request.
abbrev greeted : Network
greeted = on_readable sample_env one_client 4 (chunk greeting ∷ again ∷ [])

greeted-Reach : Reach sample_env 3 greeted
unfolding init ctl_event ctl_event_add
greeted-Reach =
    next (next start (accepted 4 refl)) (readable 4 (chunk greeting ∷ again ∷ []) (omega arith))

greeted-listenfd : greeted.listenfd ≡ 3
unfolding accept_loop read_loop on_readable on_writable init flush_loop flush_writes
    handle_one_frame reset_request on_parsed frame_round_in frame_round frame_loop frames upgrade
    finish_handshake seek_headers drive_in drive_io contains set_insert set_erase
    update_handler_events register_ws_client unregister_ws_client queue_close append_outgoing
    broadcast_one broadcast_round broadcast_ws_binary ctl_event_add ctl_event_del ctl_event
    append_read add_header header_loop fetch_http_info words_as_bytes accept_key parse_str equal
    starts_with find lines strip_cr c_str lookup insert index ext_loop read_length unmask
    take_payload take_key after_length try_consume_frame header pack_data
greeted-listenfd = refl

Reach-Armed_example : ArmedAt (greeted.handlers 4) (interest 4 greeted.effects)
Reach-Armed_example =
    Reach-Armed sample_env 3 greeted greeted-Reach 4 (omega (arith, greeted-listenfd))

Reach-ClientsInv_example : ClientsInv greeted
Reach-ClientsInv_example = Reach-ClientsInv sample_env 3 greeted greeted-Reach

-- The first bytes of a request.
abbrev half : Network
half = on_readable sample_env one_client 4 (chunk (codes "GET / ") ∷ again ∷ [])

half-Reach : Reach sample_env 3 half
unfolding init ctl_event ctl_event_add
half-Reach =
    next (next start (accepted 4 refl))
      (readable 4 (chunk (codes "GET / ") ∷ again ∷ []) (omega arith))

Reach-AllWithin_example : IsWithin (record fresh { read_buf = codes "GET / " })
unfolding accept_loop read_loop on_readable on_writable init flush_loop flush_writes
    handle_one_frame reset_request on_parsed frame_round_in frame_round frame_loop frames upgrade
    finish_handshake seek_headers drive_in drive_io contains set_insert set_erase
    update_handler_events register_ws_client unregister_ws_client queue_close append_outgoing
    broadcast_one broadcast_round broadcast_ws_binary ctl_event_add ctl_event_del ctl_event
    append_read add_header header_loop fetch_http_info words_as_bytes accept_key parse_str equal
    starts_with find lines strip_cr c_str lookup insert index ext_loop read_length unmask
    take_payload take_key after_length try_consume_frame header pack_data
Reach-AllWithin_example =
    Reach-AllWithin sample_env 3 half half-Reach 4 (record fresh { read_buf = codes "GET / " }) refl

on_readable-drive_io_example :
    on_readable sample_env sample_network 5 (chunk (1 ∷ []) ∷ chunk (2 ∷ []) ∷ again ∷ [])
    ≡ drive_io sample_env (put sample_network 5 (talking (1 ∷ 2 ∷ []))) 5
on_readable-drive_io_example =
    on_readable-drive_io sample_env sample_network 5 (talking [])
      (chunk (1 ∷ []) ∷ chunk (2 ∷ []) ∷ again ∷ []) refl (omega arith)
