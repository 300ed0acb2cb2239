-- ===== src/Loop/Wakeup.antt =====
-- On `update_handler_events` (src/websocket_master/network_interface.cpp) and its callers: what the kernel
-- is asked to watch, and what waits to be sent.
use web_socket_demo.Prelude.{
  ℕ, ◌+◌, ◌≡◌, ◌≢◌, ◌⊎◌, refl, ap, arith, true, false, ◌||◌, List, [], ◌∷◌, ◌++◌, none, some,
  Option, Bytes, ◌==◌, if◌then◌else◌, Bool-cases, Option-cases, inl, inr,
}
use web_socket_demo.Handler.{Handler, Env, nonempty}
use web_socket_demo.Network.{
  Effect, epoll_add, epoll_mod, epoll_del, set_noblock, set_client_options, close, Network, put,
  contains, epollin, epollout, update_handler_events, register_ws_client, unregister_ws_client,
  queue_close, append_outgoing, queue_send, broadcast_one, broadcast_round, broadcast_loop,
  refresh_all, broadcast_ws_binary, ctl_event, ctl_event_add, ctl_event_del,
}
use web_socket_demo.Network.Broadcast.{contains-append}
use web_socket_demo.Session.{Send, flush_writes}
use web_socket_demo.Loop.Edits.{Closed}
use web_socket_demo.Loop.Closed.{Reach-closed}
use web_socket_demo.Loop.Steps.{Reach}
use web_socket_demo.Loop.{on_writable, init, tune_client_socket}

-- EPOLL_CTL_ADD of a descriptor that is watched fails with EEXIST, and EPOLL_CTL_MOD of one that
-- is not fails with ENOENT; a call that fails changes nothing.
abbrev pub added : ℕ → Option ℕ → Option ℕ
added m none = some m
added m (some old) = some old

abbrev pub modified : ℕ → Option ℕ → Option ℕ
modified m none = none
modified m (some old) = some m

-- The mask that the kernel holds for a descriptor after these calls, newest first; none where it
-- is not watched. A closed descriptor is watched no more.
abbrev pub interest : ℕ → List Effect → Option ℕ
interest fd [] = none
interest fd (epoll_add i m ∷ es) = if i == fd then added m (interest fd es) else interest fd es
interest fd (epoll_mod i m ∷ es) = if i == fd then modified m (interest fd es) else interest fd es
interest fd (epoll_del i ∷ es) = if i == fd then none else interest fd es
interest fd (set_noblock i ∷ es) = interest fd es
interest fd (set_client_options i ∷ es) = interest fd es
interest fd (close i ∷ es) = if i == fd then none else interest fd es

-- A descriptor without an object is not watched. For an object EPOLLIN is watched, and EPOLLOUT
-- exactly if it has bytes to send.
abbrev pub ArmedAt : Option Handler → Option ℕ → Type 0
ArmedAt none i = i ≡ none
ArmedAt (some h) i = i ≡ some (if nonempty h.write_buf then epollin + epollout else epollin)

abbrev pub Armed : Network → Type 0
Armed n = (fd : ℕ) → fd ≢ n.listenfd → ArmedAt (n.handlers fd) (interest fd n.effects)

-- Watched exactly if there is an object.
abbrev WatchedAt : Option Handler → Option ℕ → Type 0
WatchedAt none i = i ≡ none
WatchedAt (some h) i = i ≢ none

-- During a broadcast, the masks of those that are still to be refreshed are left out.
abbrev ArmedBut : List ℕ → Network → Type 0
ArmedBut t n =
    (fd : ℕ)
    → fd ≢ n.listenfd
    → ArmedAt (n.handlers fd) (interest fd n.effects)
      ⊎ (WatchedAt (n.handlers fd) (interest fd n.effects) × (contains fd t ≡ true))

nonempty-append : (xs ys : Bytes) → nonempty (xs ++ ys) ≡ (nonempty xs || nonempty ys)
nonempty-append [] ys = refl
nonempty-append (x ∷ xs) ys = refl

broadcast_round-ArmedBut :
    (except_fd : ℕ) (text : Bytes) (cfd : ℕ) (n : Network) (t : List ℕ)
    → ArmedBut t n
    → ArmedBut (broadcast_round except_fd text cfd n t).1 (broadcast_round except_fd text cfd n t).0
unfolding broadcast_round broadcast_one append_outgoing queue_close contains
broadcast_round-ArmedBut except_fd text cfd n t a fd ne = elim (Option-cases (n.handlers cfd)) [
  | inl e ↦ ground (arith, a fd)
  | inr (h, e) ↦
      ground (arith, a fd, nonempty-append h.write_buf text, contains-append fd t (cfd ∷ []))
]

broadcast_loop-ArmedBut :
    (except_fd : ℕ) (text : Bytes) (clients : List ℕ) (n : Network) (t : List ℕ)
    → ArmedBut t n
    → let r = broadcast_loop except_fd text clients n t in ArmedBut r.1 r.0
unfolding broadcast_loop
broadcast_loop-ArmedBut except_fd text [] n t a = a
broadcast_loop-ArmedBut except_fd text (cfd ∷ rest) n t a =
    let r = broadcast_round except_fd text cfd n t in
    broadcast_loop-ArmedBut except_fd text rest r.0 r.1
      (broadcast_round-ArmedBut except_fd text cfd n t a)

refresh_all-Armed : (t : List ℕ) (n : Network) → ArmedBut t n → Armed (refresh_all t n)
unfolding refresh_all contains
refresh_all-Armed [] n a = λ fd ne. ground (arith, a fd)
refresh_all-Armed (x ∷ t) n a = refresh_all-Armed t (update_handler_events n x) (refreshed x t n a)
  where
    refreshed :
        (x : ℕ) (t : List ℕ) (n : Network)
        → ArmedBut (x ∷ t) n
        → ArmedBut t (update_handler_events n x)
    refreshed x t n a fd ne = unfold update_handler_events in ground (arith, a fd)

broadcast-Armed :
    (n : Network) (fd : ℕ) (text : Bytes) → Armed n → Armed (broadcast_ws_binary n fd text)
unfolding broadcast_ws_binary
broadcast-Armed n fd text a = elim (Bool-cases (nonempty text)) [
  | inl e ↦ rw e (
      let r = broadcast_loop fd text n.ws_clients n [] in
      refresh_all-Armed r.1 r.0
        (broadcast_loop-ArmedBut fd text n.ws_clients n [] λ i ne. inl (a i ne)))
  | inr e ↦ rw e a
]

queue_send-Armed : (n : Network) (fd : ℕ) (text : Bytes) → Armed n → Armed (queue_send n fd text)
unfolding append_outgoing update_handler_events queue_close
queue_send-Armed n fd text a i ne = ground (arith, a i)

on_writable-Armed :
    (n : Network) (fd : ℕ) (sends : List Send) → Armed n → Armed (on_writable n fd sends)
unfolding on_writable flush_writes queue_close update_handler_events
on_writable-Armed n fd sends a i ne = ground (arith, a i)

put-Armed :
    (n : Network) (fd : ℕ) (h h' : Handler)
    → n.handlers fd ≡ some h
    → h'.write_buf ≡ h.write_buf
    → Armed n
    → Armed (put n fd h')
put-Armed n fd h h' e s a i ne = ground (arith, a i, ap nonempty s)

register_ws_client-Armed : (n : Network) (fd : ℕ) → Armed n → Armed (register_ws_client n fd)
unfolding register_ws_client
register_ws_client-Armed n fd a i ne = ground (arith, a i)

queue_close-Armed : (n : Network) (fd : ℕ) → Armed n → Armed (queue_close n fd)
unfolding queue_close
queue_close-Armed n fd a i ne = ground (arith, a i)

ctl_event_add-Armed :
    (n : Network) (fd : ℕ)
    → n.handlers fd ≡ none
    → Armed n
    → Armed (ctl_event (tune_client_socket n fd) fd true)
unfolding ctl_event ctl_event_add
ctl_event_add-Armed n fd e a i ne = ground (arith, a i)

deleted-Armed : (n : Network) (fd : ℕ) → Armed n → Armed (ctl_event n fd false)
unfolding ctl_event ctl_event_del unregister_ws_client
deleted-Armed n fd a i ne = ground (arith, a i)

Armed-closed : Closed Armed
Armed-closed = record {
  on_queue_close = queue_close-Armed;
  on_edit = λ n fd h h' e edit a. put-Armed n fd h h' e edit.same_write a;
  on_send = λ n fd text h e s p. queue_send-Armed n fd text p;
  on_broadcast = broadcast-Armed;
  on_register = λ n fd h e s a. register_ws_client-Armed n fd a;
  on_flush = on_writable-Armed;
  on_add = ctl_event_add-Armed;
  on_del = deleted-Armed;
  on_clear = λ n a. a;
}

-- In every reachable state, for each descriptor but the listening socket: the kernel watches it
-- exactly if it has an object, and then its mask has EPOLLIN, and has EPOLLOUT exactly if its write
-- buffer is not empty. EPOLL_CTL_ADD fails where the descriptor is watched already, EPOLL_CTL_MOD
-- where it is not, and no call of epoll_ctl fails for another reason.
pub Reach-Armed :
    (env : Env) (listenfd : ℕ) (n : Network)
    → Reach env listenfd n
    → (fd : ℕ) → fd ≢ n.listenfd
    → ArmedAt (n.handlers fd) (interest fd n.effects)
unfolding init ctl_event ctl_event_add
Reach-Armed env listenfd n r = Reach-closed Armed Armed-closed env (λ fd ne. ground arith) r
