-- ===== src/Loop/Delivered.antt =====
-- On `epoll_loop` (src/websocket_master/network_interface.cpp): from the bytes that one peer sends to those that
-- another is sent.
use web_socket_demo.Prelude.{
  ℕ, ◌+◌, ◌≤◌, ◌≡◌, ◌≢◌, ap, ◌∙◌, arith, true, false, List, [], ◌∷◌, ◌++◌, some, Bytes, ◌==◌,
  length, length-append,
}
use web_socket_demo.Protocol.{handsharked, ws_max_read_buffer, ws_max_write_buffer}
use web_socket_demo.Frame.{Frame}
use web_socket_demo.Request.{need_more, initial, try_consume_frame}
use web_socket_demo.Handler.{Handler, Env}
use web_socket_demo.Network.{Network, put, contains}
use web_socket_demo.Session.{drive_in, drive_io, frames}
use web_socket_demo.Session.Cuts.{fill-there}
use web_socket_demo.Session.Replies.{Allocates}
use web_socket_demo.Session.Conversation.{
  encode_all, answers, texts, AreFrames, deliver_all-texts, IsConversation, frames-IsConversation,
}
use web_socket_demo.Loop.{Read, handle_event, handle_events, round, epoll_loop}
use web_socket_demo.Loop.Reading.{arrived}
use web_socket_demo.Loop.Cuts.{readable_event, GoOn, handle_event-drive_io}
use web_socket_demo.Loop.Registered.{ClientsInv, Reach-ClientsInv}
use web_socket_demo.Loop.Steps.{Reach, run-Reach}
use web_socket_demo.Loop.Turns.{
  Turn, Takes, turns_of, IsOpen, process_close_queue-IsOpen, Reach-listenfd,
}
use web_socket_demo.Loop.Drained.{IsDrained, epoll_loop-IsDrained}

-- The sender `hs` is upgraded; with what has arrived, its buffer holds the frames `fs` and then bytes that the decoder
-- wants more of, there is room for the answers, and memory is given.
pub record IsSpeaking (env : Env) (hs : Handler) (reads : List Read) (fs : List Frame)
    : Type 0 where
  pub tail : Bytes
  pub shaken : hs.status ≡ handsharked
  pub goes_on : GoOn reads
  pub holds : hs.read_buf ++ arrived reads ≡ encode_all fs ++ tail
  pub read_room : length hs.read_buf + length (arrived reads) ≤ ws_max_read_buffer
  pub are_frames : AreFrames fs
  pub waits : (try_consume_frame initial tail).result ≡ need_more
  pub allocates : Allocates env
  pub write_room : length hs.write_buf + length (answers fs) ≤ ws_max_write_buffer

module _ (env : Env) (listenfd s i : ℕ) (n : Network) (hs hi : Handler) (reads : List Read)
    (fs : List Frame) (reached : Reach env listenfd n) (s_ne : s ≢ listenfd) (other : i ≢ s)
    (there : n.handlers s ≡ some hs) (speaks : IsSpeaking env hs reads fs)
    (there_i : n.handlers i ≡ some hi) (registered : contains i n.ws_clients ≡ true)
    (unqueued : contains i n.pending_closes ≡ false)
    (room : length hi.write_buf + length (texts fs) ≤ ws_max_write_buffer) where
  full_of : Handler
  full_of = record hs { read_buf = hs.read_buf ++ arrived reads }

  upgraded_round : handle_event env n (readable_event s reads) ≡ frames env (put n s full_of) s
  unfolding full_of drive_io drive_in
  upgraded_round =
      let stays : n.listenfd ≡ listenfd = Reach-listenfd env listenfd n reached in
      let distinct : (s == n.listenfd) ≡ false = ground arith in
      handle_event-drive_io env s n hs reads there distinct speaks.goes_on speaks.read_room
      ∙ ap (λ m. drive_io env m s) (fill-there s (arrived reads) n hs there)
      ∙ ground (arith, speaks.shaken)

  heard-IsOpen :
      IsOpen i
        (round env n (readable_event s reads ∷ []))
        (record hi { write_buf = hi.write_buf ++ texts fs })
  unfolding round handle_events full_of
  heard-IsOpen =
      let m : Network = put n s full_of in
      let clients : ClientsInv n = Reach-ClientsInv env listenfd n reached in
      let here : m.handlers s ≡ some full_of = ground arith in
      let at_i : m.handlers i ≡ some hi = ground arith in
      let c : IsConversation m (frames env m s) s full_of fs speaks.tail =
        frames-IsConversation env m s full_of fs speaks.tail here speaks.shaken speaks.holds
          speaks.are_frames speaks.waits speaks.allocates speaks.write_room clients.distinct in
      rw upgraded_round (
        process_close_queue-IsOpen i (frames env m s) _ (record {
          there = ground (arith, c.others i other, at_i, registered, deliver_all-texts fs hi room);
          unqueued = c.spared i hi other at_i room ∙ unqueued;
        }))

  heard-Reach : Reach env listenfd (round env n (readable_event s reads ∷ []))
  unfolding epoll_loop
  heard-Reach =
      let stays : n.listenfd ≡ listenfd = Reach-listenfd env listenfd n reached in
      run-Reach env listenfd ((readable_event s reads ∷ []) ∷ []) n ((λ _. tt, tt), tt) reached

-- From any reachable state: an upgraded connection sends bytes that, with what its buffer held
-- before, are any number of well-formed frames within the payload limit and then bytes that the
-- decoder wants more of; they and the answers fit its buffers, and memory is given. Another
-- connection is registered, like the first is not the listening socket, is not queued for closing
-- and has room for the texts. After the round of these bytes it has as many turns, or more, as
-- bytes wait for it, in each of which the kernel says that it is writable, takes a byte at least,
-- and no call fails; others may have turns between them. Then its peer has been sent exactly what
-- had waited and the texts, in order; nothing waits, it is not queued for closing, and the kernel
-- is asked to watch EPOLLIN only.
pub epoll_loop-IsDelivered :
    (env : Env) (listenfd s i : ℕ) (n : Network) (hs hi : Handler) (reads : List Read)
    (fs : List Frame) (ts : List Turn)
    → Reach env listenfd n
    → s ≢ listenfd
    → i ≢ listenfd
    → i ≢ s
    → n.handlers s ≡ some hs
    → IsSpeaking env hs reads fs
    → n.handlers i ≡ some hi
    → contains i n.ws_clients ≡ true
    → contains i n.pending_closes ≡ false
    → length hi.write_buf + length (texts fs) ≤ ws_max_write_buffer
    → Takes i ts
    → length hi.write_buf + length (texts fs) ≤ turns_of i ts
    → IsDrained env
        (round env n (readable_event s reads ∷ []))
        i
        (record hi { write_buf = hi.write_buf ++ texts fs })
        ts
epoll_loop-IsDelivered env listenfd s i n hs hi reads fs ts r s_ne i_ne other there speaks there_i
      reg unq room a b =
    let o : IsOpen i (round env n (readable_event s reads ∷ []))
        (record hi { write_buf = hi.write_buf ++ texts fs }) =
      heard-IsOpen env listenfd s i n hs hi reads fs r s_ne other there speaks there_i reg unq
        room in
    epoll_loop-IsDrained env listenfd i (round env n (readable_event s reads ∷ [])) _ ts
      (heard-Reach env listenfd s i n hs hi reads fs r s_ne other there speaks there_i reg unq room)
      i_ne o.there o.unqueued a (omega (arith, length-append hi.write_buf (texts fs)))
