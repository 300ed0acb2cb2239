-- ===== src/Session.antt =====
-- The methods of Websocket_Handler (src/websocket_master/websocket_handler.cpp) that act through the shared
-- interface: `flush_writes`, `handle_one_frame` and `drive_io`. `fd` names the object `this`.
pub mod Cases
pub mod Rounds
pub mod Answers
pub mod Conversation
pub mod Refused
pub mod Replies
pub mod Flush
pub mod Handshake
pub mod Output
pub mod Listening
pub mod Resumed
pub mod Upgrades
pub mod TakenUp
pub mod Queued
pub mod Cuts
pub mod Seen
pub mod Filling
use web_socket_demo.Prelude.{
  ℕ, zero, suc, ◌+◌, Bool, true, false, List, [], ◌∷◌, Option, none, some, Bytes, ltb, ◌==◌,
  if◌then◌else◌, length, take, drop,
}
use web_socket_demo.Protocol.{
  Status, unconnect, handsharked, fin_msg_end, text_data, connect_close, ping_pack, pang_pack,
  need_not_mask, ws_max_handshake_bytes,
}
use web_socket_demo.Request.{
  ParseResult, need_more, ok, error, Request, reset, Consumed, try_consume_frame, get_msg,
  get_msg_length, get_msg_opcode,
}
use web_socket_demo.Respond.{pack_data}
use web_socket_demo.Text.{codes, find}
use web_socket_demo.Handler.{Handler, Env, fetch_http_info, parse_str}
use web_socket_demo.Network.{
  Network, put, is_listen_fd, register_ws_client, queue_close, queue_send, broadcast_ws_binary,
}

-- A method of an object that may not be there.
abbrev pub on_object {ℓ} : {A : Type ℓ} → Option Handler → A → (Handler → A) → A
on_object none a f = a
on_object (some h) a f = f h

-- Nothing is done where a frame could not be packed.
abbrev pub on_packed : Option Bytes → Network → (Bytes → Network) → Network
on_packed none n f = n
on_packed (some out) n f = f out

-- What one call of `send` does: it takes some bytes, has no room (EAGAIN, EWOULDBLOCK), or fails.
pub data Send : Type 0 where
  sent : ℕ → Send
  full failed : Send

-- The loop of `flush_writes` over what the calls of `send` give: the buffer that is left, and
-- whether the connection has failed. A list that has run out means that there is no more room.
unfoldable pub flush_loop : List Send → Bytes → Bytes × Bool
flush_loop _ [] = ([], false)
flush_loop [] (x ∷ xs) = (x ∷ xs, false)
flush_loop (sent zero ∷ rest) (x ∷ xs) = (x ∷ xs, true)
flush_loop (sent (suc k) ∷ rest) (x ∷ xs) = flush_loop rest (drop k xs)
flush_loop (full ∷ rest) (x ∷ xs) = (x ∷ xs, false)
flush_loop (failed ∷ rest) (x ∷ xs) = (x ∷ xs, true)

unfoldable pub flush_writes : Network → ℕ → List Send → Network
flush_writes n fd sends = on_object (n.handlers fd) n λ h.
    let (left, broken) = flush_loop sends h.write_buf in
    let n' = put n fd (record h { write_buf = left }) in if broken then queue_close n' fd else n'

-- The answer to one frame, whose fields are in `q`.
unfoldable pub handle_one_frame : Env → Network → ℕ → Request → Network
handle_one_frame env n fd q =
    let pack = λ (opcode : ℕ).
      pack_data env.malloc (get_msg q) (get_msg_length q) fin_msg_end opcode need_not_mask in
    if get_msg_opcode q == text_data
    then on_packed (pack text_data) n (λ out. broadcast_ws_binary (queue_send n fd out) fd out)
    else if get_msg_opcode q == connect_close
    then queue_close n fd
    else if get_msg_opcode q == ping_pack
    then on_packed (pack pang_pack) n (λ pong. queue_send n fd pong)
    else n

-- `request_->reset()` on the object of `fd`.
unfoldable pub reset_request : Network → ℕ → Network
reset_request n fd =
    on_object (n.handlers fd) n λ h. put n fd (record h { request = reset h.request })

-- The object's fields after `try_consume_frame(read_buf_)`.
abbrev pub store : Handler → Consumed → Handler
store h c = record h { read_buf = c.buf; request = c.request }

-- The three ways on from a parse, where `n` holds the object as the parse left it: the interface after it, and
-- whether the loop goes on.
unfoldable pub on_parsed : Env → Network → ℕ → Request → ParseResult → Network × Bool
on_parsed env n fd q need_more = (n, false)
on_parsed env n fd q error = (queue_close n fd, false)
on_parsed env n fd q ok = (reset_request (handle_one_frame env n fd q) fd, true)

-- One round of `while (status_ == WEBSOCKET_HANDSHARKED)`.
unfoldable pub frame_round_in : Env → Network → ℕ → Handler → Status → Network × Bool
frame_round_in env n fd h unconnect = (n, false)
frame_round_in env n fd h handsharked =
    let c = try_consume_frame h.request h.read_buf in
    on_parsed env (put n fd (store h c)) fd c.request c.result

unfoldable pub frame_round : Env → Network → ℕ → Network × Bool
frame_round env n fd = on_object (n.handlers fd) (n, false) λ h. frame_round_in env n fd h h.status

-- The loop; each round that goes on takes two bytes or more from the buffer.
unfoldable pub frame_loop : Env → ℕ → Network → ℕ → Network
frame_loop env zero n fd = n
frame_loop env (suc fuel) n fd =
    let r = frame_round env n fd in elim r.1 [ true ↦ frame_loop env fuel r.0 fd | false ↦ r.0 ]

-- Fuel for every frame that the buffer can hold.
abbrev pub fuel_for : Network → ℕ → ℕ
fuel_for n fd = on_object (n.handlers fd) 1 λ h. suc (length h.read_buf)

unfoldable pub frames : Env → Network → ℕ → Network
frames env n fd = frame_loop env (fuel_for n fd) n fd

-- `status_` is set, the answer is sent and the connection registered; `h` is the object with its
-- header map read.
unfoldable pub upgrade : Env → Network → ℕ → Handler → Network
upgrade env n fd h =
    let (response, m) = parse_str env h.header_map in
    let n' =
      queue_send (put n fd (record h { status = handsharked; header_map = m })) fd response in
    if is_listen_fd n' fd then n' else register_ws_client n' fd

-- From the end of the request's headers on, at `pos` in the buffer.
unfoldable pub finish_handshake : Env → Network → ℕ → Handler → ℕ → Network
finish_handshake env n fd h pos =
    let (m, fetched) = fetch_http_info h.header_map (take (pos + 4) h.read_buf) in
    let h' = record h { read_buf = drop (pos + 4) h.read_buf; header_map = m } in
    if fetched then frames env (upgrade env n fd h') fd else queue_close (put n fd h') fd

unfoldable pub seek_headers : Env → Network → ℕ → Handler → Option ℕ → Network
seek_headers env n fd h none = n
seek_headers env n fd h (some pos) = finish_handshake env n fd h pos

unfoldable pub drive_in : Env → Network → ℕ → Handler → Status → Network
drive_in env n fd h handsharked = frames env n fd
drive_in env n fd h unconnect =
    if ltb ws_max_handshake_bytes (length h.read_buf)
    then queue_close n fd
    else seek_headers env n fd h (find (codes "\r\n\r\n") h.read_buf)

unfoldable pub drive_io : Env → Network → ℕ → Network
drive_io env n fd = on_object (n.handlers fd) n λ h. drive_in env n fd h h.status
