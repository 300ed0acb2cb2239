-- ===== src/Examples/Cuts.antt =====
-- The theorems on how bytes are cut, at a request and a masked text frame that arrive in three reads, and at
-- three bytes that the kernel takes.
use web_socket_demo.Prelude.{
  ◌≡◌, refl, arith, List, [], ◌∷◌, ◌++◌, take, drop, IsBytes, ◌≢◌, none, some, ◌==◌, if◌then◌else◌,
  Bytes, Bool, true, false,
}
use web_socket_demo.Frame.{encode, encode_header}
use web_socket_demo.Network.{
  Network, contains, set_insert, register_ws_client, update_handler_events, queue_close,
  append_outgoing, broadcast_one, broadcast_round, broadcast_loop, refresh_all, broadcast_ws_binary,
}
use web_socket_demo.Text.{
  codes, equal, starts_with, find, lines, strip_cr, c_str, lookup, insert, index,
}
use web_socket_demo.Handler.{
  Handler, fresh, append_read, add_header, header_loop, fetch_http_info, words_as_bytes, accept_key,
  parse_str,
}
use web_socket_demo.Session.{
  handle_one_frame, reset_request, on_parsed, frame_round_in, frame_round, frame_loop, frames,
  on_object, sent, full, flush_loop, flush_writes, drive_in, drive_io, upgrade, finish_handshake,
  seek_headers,
}
use web_socket_demo.Request.{
  ext_loop, read_length, unmask, take_payload, take_key, after_length, try_consume_frame,
}
use web_socket_demo.Respond.{header, pack_data}
use web_socket_demo.Loop.{
  Read, Event, chunk, again, read_loop, on_readable, on_writable, handle_event, round, epoll_loop,
}
use web_socket_demo.Loop.HungUp.{IsGone, refused, bad_frame, round-IsGone}
use web_socket_demo.Loop.Cuts.{readable_event, events, epoll_loop-cut}
use web_socket_demo.Loop.Steps.{readable, writable}
use web_socket_demo.Loop.Stream.{IsStream}
use web_socket_demo.Loop.Stream.Served.{AllBytes, here, go_on, Served-IsStream}
use web_socket_demo.Session.Output.{BytesAt}
use web_socket_demo.Examples.{two_clients, hi_frame, hi_frame-IsFrame, sample_env, talking}

-- Nobody is queued, and 4 has sent nothing yet.
abbrev quiet : Network
quiet = record {
  listenfd = 3;
  handlers = two_clients [];
  ws_clients = 5 ∷ 4 ∷ [];
  pending_closes = [];
  effects = [];
}

-- 4 has just been accepted.
abbrev newcomer : Network
newcomer = record {
  listenfd = 3;
  handlers = λ fd. if fd == 4 then some fresh else if fd == 5 then some (talking []) else none;
  ws_clients = 5 ∷ [];
  pending_closes = [];
  effects = [];
}

abbrev greeting : Bytes
greeting = codes "GET / HTTP/1.1\r\nSec-WebSocket-Key: dGhl\r\n\r\n"

-- A request and a text frame: cut within the blank line, and within the frame.
abbrev bytes : Bytes
bytes = greeting ++ encode hi_frame

abbrev one : List Read
one = chunk (take 42 bytes) ∷ again ∷ []

abbrev two : List Read
two = chunk (take 6 (drop 42 bytes)) ∷ again ∷ []

abbrev three : List Read
three = chunk (drop 48 bytes) ∷ again ∷ []

abbrev both : List Read
both = chunk bytes ∷ again ∷ []

both_open : (handle_event sample_env newcomer (readable_event 4 both)).pending_closes ≡ []
unfolding encode encode_header contains update_handler_events queue_close append_outgoing
    broadcast_one broadcast_round broadcast_loop refresh_all broadcast_ws_binary append_read
    handle_one_frame reset_request on_parsed frame_round_in frame_round frame_loop frames drive_in
    drive_io ext_loop read_length unmask take_payload take_key after_length try_consume_frame header
    pack_data read_loop on_readable handle_event upgrade finish_handshake seek_headers set_insert
    register_ws_client add_header header_loop fetch_http_info words_as_bytes accept_key parse_str
    equal starts_with find lines strip_cr c_str lookup insert index
both_open = refl

epoll_loop-cut_example :
    epoll_loop sample_env newcomer (events 4 (one ∷ two ∷ three ∷ []))
    ≡ epoll_loop sample_env newcomer (events 4 (both ∷ []))
unfolding encode encode_header
epoll_loop-cut_example =
    epoll_loop-cut sample_env 4 newcomer one (two ∷ three ∷ []) both
      (record {
        handler = fresh;
        there = refl;
        other = refl;
        fits = omega arith;
        request_fits = λ new. omega arith;
        quiet = refl;
      })
      (refl, (refl, (refl, tt))) refl refl both_open refl

abbrev whole : List Read
whole = chunk (encode hi_frame) ∷ again ∷ []

-- 5 sends the text, and the kernel takes three bytes of what 4 is to get.
abbrev shared : Network
shared = on_readable sample_env quiet 5 whole

abbrev flushed : Network
flushed = on_writable shared 4 (sent 3 ∷ full ∷ [])

abbrev gone : Bytes
gone = on_object (shared.handlers 4) [] (λ h. take 3 h.write_buf)

quiet-AllBytes : AllBytes quiet
quiet-AllBytes i = at_fd (i == 4) (i == 5)
  where
    at_fd :
        (a b : Bool)
        → BytesAt (if a then some (talking []) else if b then some (talking []) else none)
    at_fd true b = tt
    at_fd false true = tt
    at_fd false false = tt

is_open : (shared.handlers 4 ≢ none) × (flushed.handlers 4 ≢ none) × (shared.listenfd ≡ 3)
unfolding encode encode_header contains update_handler_events queue_close append_outgoing
    broadcast_one broadcast_round broadcast_loop refresh_all broadcast_ws_binary append_read
    handle_one_frame reset_request on_parsed frame_round_in frame_round frame_loop frames drive_in
    drive_io ext_loop read_length unmask take_payload take_key after_length try_consume_frame header
    pack_data read_loop on_readable on_writable flush_writes flush_loop
is_open = (λ e. cc, λ e. cc, refl)

hi_frame-IsBytes : IsBytes (encode hi_frame)
unfolding encode encode_header
hi_frame-IsBytes = ground arith

Served-IsStream_example :
    (h : Handler) × (flushed.handlers 4 ≡ some h) × IsStream gone (talking []) h
Served-IsStream_example =
    Served-IsStream sample_env 4 quiet (talking []) gone flushed quiet-AllBytes refl refl (
      go_on (go_on here (readable 5 whole (omega arith)) (hi_frame-IsBytes, tt) is_open.0 refl)
        (writable 4 (sent 3 ∷ full ∷ []) (omega (arith, is_open.2))) tt is_open.1 refl)

-- A text frame, and the header of one of 16 MiB.
abbrev refused_event : Event
refused_event =
    readable_event 4
      (chunk (encode hi_frame ++ (0x82 ∷ 127 ∷ 0 ∷ 0 ∷ 0 ∷ 0 ∷ 1 ∷ 0 ∷ 0 ∷ 0 ∷ [])) ∷ again ∷ [])

round-IsGone_example :
    IsGone
      (handle_event sample_env quiet refused_event)
      (round sample_env quiet (refused_event ∷ []))
      4
unfolding contains encode encode_header try_consume_frame after_length read_length ext_loop take_key
    take_payload
round-IsGone_example =
    round-IsGone sample_env quiet (talking []) refused_event refl (omega arith) refl (omega arith)
      (refl, (refl, tt))
      (refused refl refl refl (
        bad_frame (hi_frame ∷ []) (0x82 ∷ 127 ∷ 0 ∷ 0 ∷ 0 ∷ 0 ∷ 1 ∷ 0 ∷ 0 ∷ 0 ∷ []) refl refl
          ((hi_frame-IsFrame, omega arith), tt) refl (λ _. refl) (omega arith)))
