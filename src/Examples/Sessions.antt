-- ===== src/Examples/Sessions.antt =====
-- The theorems on connections at sample ones.
use web_socket_demo.Prelude.{
  List, ◌≡◌, refl, arith, true, some, none, [], ◌∷◌, ◌++◌, Bytes, length, append-nil, sym,
  if◌then◌else◌, ◌==◌, ◌<◌,
}
use web_socket_demo.Frame.{Frame, encode, encode_header}
use web_socket_demo.Text.{codes, equal}
use web_socket_demo.Handler.{Handler, Env, fresh, fetch_http_info, parse_str}
use web_socket_demo.Handler.Headers.{
  Headers, request_text, insert_all, fetch_http_info-request_text,
}
use web_socket_demo.Network.{
  Network, put, queue_close, contains, broadcast_ws_binary, process_close_queue,
}
use web_socket_demo.Network.Broadcast.{IsBroadcast, broadcast_ws_binary-IsBroadcast}
use web_socket_demo.Network.Close.{IsClosed, process_close_queue-IsClosed}
use web_socket_demo.Session.{frame_round, frames, drive_io, sent, failed, flush_writes}
use web_socket_demo.Session.Handshake.{IsUpgraded, drive_io-IsUpgraded}
use web_socket_demo.Session.Conversation.{encode_all, IsConversation, frames-IsConversation}
use web_socket_demo.Request.{try_consume_frame}
use web_socket_demo.Session.Flush.{flush_writes-drop}
use web_socket_demo.Handler.Reply.{length-parse_str}
use web_socket_demo.Session.Answers.{IsRound, frame_round-IsRound}
use web_socket_demo.Session.Rounds.{frames_unroll}
use web_socket_demo.Examples.{
  two_clients, hi_frame, hi_frame-IsFrame, sample_env, talking, sample_network,
}

frame_round-IsRound_example :
    IsRound sample_network
      (frame_round sample_env sample_network 4)
      4
      (talking (encode hi_frame))
      hi_frame
      []
unfolding contains encode encode_header
frame_round-IsRound_example =
    frame_round-IsRound sample_env sample_network 4 (talking (encode hi_frame)) hi_frame [] refl
      refl (sym (append-nil (encode hi_frame))) hi_frame-IsFrame (omega arith) (λ _. refl)
      (omega arith) (refl, (refl, tt))

broadcast_ws_binary-IsBroadcast_example :
    IsBroadcast sample_network (broadcast_ws_binary sample_network 4 (1 ∷ 2 ∷ [])) 4 (1 ∷ 2 ∷ [])
unfolding contains
broadcast_ws_binary-IsBroadcast_example =
    broadcast_ws_binary-IsBroadcast sample_network 4 (1 ∷ 2 ∷ []) refl (refl, (refl, tt))

process_close_queue-IsClosed_example :
    IsClosed sample_network (process_close_queue sample_network) (5 ∷ 9 ∷ 5 ∷ [])
    × ((process_close_queue sample_network).pending_closes ≡ [])
process_close_queue-IsClosed_example = process_close_queue-IsClosed sample_network

frames_unroll_example : frames sample_env sample_network 4 ≡ (
    if (frame_round sample_env sample_network 4).1
    then frames sample_env (frame_round sample_env sample_network 4).0 4
    else (frame_round sample_env sample_network 4).0)
frames_unroll_example = frames_unroll sample_env sample_network 4

abbrev request_line : Bytes
request_line = codes "GET / HTTP/1.1"

abbrev headers : Headers
headers = (codes "Host", codes "a:b") ∷ (codes "Sec-WebSocket-Key", codes "dGhl") ∷ []

fetch_http_info-request_text_example :
    fetch_http_info [] (request_text request_line headers) ≡ (insert_all headers [], true)
fetch_http_info-request_text_example =
    fetch_http_info-request_text request_line headers [] (ground arith) (ground arith)

-- A connection whose request has arrived, with two bytes behind it.
abbrev asking : Handler
asking = record fresh { read_buf = request_text request_line headers ++ 1 ∷ 2 ∷ [] }

abbrev asking_network : Network
asking_network = record sample_network {
  handlers = λ i. if i == 4 then some asking else none;
  ws_clients = [];
}

drive_io-IsUpgraded_example :
    (m : Network) × (drive_io sample_env asking_network 4 ≡ frames sample_env m 4)
    × IsUpgraded sample_env asking_network m 4 asking headers (codes "dGhl") (1 ∷ 2 ∷ [])
unfolding equal
drive_io-IsUpgraded_example =
    drive_io-IsUpgraded sample_env asking_network 4 asking request_line headers (codes "dGhl")
      (1 ∷ 2 ∷ []) refl refl refl (omega arith) (ground arith) (ground arith) (omega arith) refl
      refl (ground arith) (ground arith) (omega arith)

abbrev sized_env : Env
sized_env = record sample_env { base64_encode = λ _. codes "AAAAAAAAAAAAAAAAAAAAAAAAAAA=" }

length-parse_str_example : length (parse_str sized_env []).0 < 1024
length-parse_str_example = length-parse_str sized_env [] (λ _. refl) (λ _ _. refl)

flush_writes-drop_example :
    let h = record (talking []) { write_buf = 1 ∷ 2 ∷ 3 ∷ [] } in
    let n = record sample_network { handlers = λ i. if i == 4 then some h else none } in
    flush_writes n 4 (sent 2 ∷ failed ∷ [])
    ≡ queue_close (put n 4 (record h { write_buf = 3 ∷ [] })) 4
flush_writes-drop_example =
    let h = record (talking []) { write_buf = 1 ∷ 2 ∷ 3 ∷ [] } in
    flush_writes-drop (record sample_network { handlers = λ i. if i == 4 then some h else none }) 4
      h (sent 2 ∷ failed ∷ []) refl

-- Two whole frames and the first byte of another.
abbrev chat : List Frame
chat = hi_frame ∷ hi_frame ∷ []

abbrev chat_network : Network
chat_network = record sample_network { handlers = two_clients (encode_all chat ++ 0x81 ∷ []) }

frames-IsConversation_example :
    IsConversation chat_network
      (frames sample_env chat_network 4)
      4
      (talking (encode_all chat ++ 0x81 ∷ []))
      chat
      (0x81 ∷ [])
unfolding contains encode encode_header try_consume_frame
frames-IsConversation_example =
    frames-IsConversation sample_env chat_network 4 (talking (encode_all chat ++ 0x81 ∷ [])) chat
      (0x81 ∷ []) refl refl refl
      ((hi_frame-IsFrame, omega arith), ((hi_frame-IsFrame, omega arith), tt)) refl (λ _. refl)
      (omega arith) (refl, (refl, tt))
