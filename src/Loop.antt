-- ===== src/Loop.antt =====
-- The event loop of src/websocket_master/network_interface.cpp: one round of `epoll_wait` and the handling of
-- what it gives. What the kernel answers is part of an event.
pub mod Steps
pub mod Reading
pub mod Stream
pub mod Cuts
pub mod Closed
pub mod Edits
pub mod Limits
pub mod Silent
pub mod Registered
pub mod Wakeup
pub mod Turns
pub mod Drained
pub mod Delivered
pub mod HungUp
pub mod Setup
use web_socket_demo.Prelude.{
  ℕ, Bool, true, false, List, [], ◌∷◌, none, some, Bytes, ◌==◌, if◌then◌else◌,
}
use web_socket_demo.Handler.{Handler, Env, append_read}
use web_socket_demo.Network.{
  Network, set_client_options, emit, put, update_handler_events, queue_close, ctl_event,
  process_close_queue,
}
use web_socket_demo.Session.{on_object, Send, flush_writes, drive_io}

-- What one call of `read` gives: some bytes, the end of the stream, EAGAIN, or an error.
pub data Read : Type 0 where
  chunk : Bytes → Read
  eof again broken : Read

-- An entry of the array that `epoll_wait` fills: the descriptor, the bits that are tested in the order in
-- which they are tested, and the answers to the calls that its handling makes. `accepted` lists the
-- descriptors that `accept` gives before it fails.
pub record Event : Type 0 where
  pub fd : ℕ
  pub err_or_hup : Bool
  pub readable : Bool
  pub writable : Bool
  pub accepted : List ℕ
  pub reads : List Read
  pub sends : List Send

-- TCP_NODELAY and SO_KEEPALIVE; a failure is only logged.
abbrev pub tune_client_socket : Network → ℕ → Network
tune_client_socket n fd = emit n (set_client_options fd)

unfoldable pub accept_loop : List ℕ → Network → Network
accept_loop [] n = n
accept_loop (fd ∷ rest) n = accept_loop rest (ctl_event (tune_client_socket n fd) fd true)

-- The loop of reads into one object: the object after it, and `close_me`. An answer list that has
-- run out means EAGAIN.
unfoldable pub read_loop : List Read → Handler → Handler × Bool
read_loop [] h = (h, false)
read_loop (chunk bytes ∷ rest) h =
    let r = append_read h bytes in elim r.0 [ true ↦ read_loop rest r.1 | false ↦ (r.1, true) ]
read_loop (eof ∷ rest) h = (h, true)
read_loop (again ∷ rest) h = (h, false)
read_loop (broken ∷ rest) h = (h, true)

unfoldable pub on_readable : Env → Network → ℕ → List Read → Network
on_readable env n fd reads = on_object (n.handlers fd) n λ h.
    let (h', close_me) = read_loop reads h in
    let n' = put n fd h' in if close_me then queue_close n' fd else drive_io env n' fd

unfoldable pub on_writable : Network → ℕ → List Send → Network
on_writable n fd sends =
    on_object (n.handlers fd) n λ h. update_handler_events (flush_writes n fd sends) fd

unfoldable pub handle_event : Env → Network → Event → Network
handle_event env n e =
    if e.fd == n.listenfd
    then accept_loop e.accepted n
    else if e.err_or_hup
    then queue_close n e.fd
    else if e.readable
    then on_readable env n e.fd e.reads
    else if e.writable
    then on_writable n e.fd e.sends
    else n

unfoldable pub handle_events : Env → Network → List Event → Network
handle_events env n [] = n
handle_events env n (e ∷ es) = handle_events env (handle_event env n e) es

-- One round of `while (true)`: a batch of events, then the queue of closes.
unfoldable pub round : Env → Network → List Event → Network
round env n es = process_close_queue (handle_events env n es)

unfoldable pub epoll_loop : Env → Network → List (List Event) → Network
epoll_loop env n [] = n
epoll_loop env n (es ∷ rest) = epoll_loop env (round env n es) rest

-- The state after `init` has made the sockets: it ends by watching the listening one.
unfoldable pub init : ℕ → Network
init listenfd =
    ctl_event
      (record {
        listenfd = listenfd;
        handlers = λ _. none;
        ws_clients = [];
        pending_closes = [];
        effects = [];
      })
      listenfd true
