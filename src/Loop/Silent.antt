-- ===== src/Loop/Silent.antt =====
-- On the outgoing bytes of a connection that is not upgraded yet, in the event loop
-- (src/websocket_master/network_interface.cpp).
use web_socket_demo.Prelude.{
  ℕ, ◌≡◌, refl, arith, true, List, [], none, some, Option, Option-cases, Bytes, inl, inr,
}
use web_socket_demo.Protocol.{unconnect, handsharked}
use web_socket_demo.Handler.{Handler}
use web_socket_demo.Network.{
  Network, put, contains, update_handler_events, register_ws_client, queue_close, queue_send,
  ctl_event, ctl_event_add,
}
use web_socket_demo.Network.Broadcast.{IsBroadcast}
use web_socket_demo.Network.Send.{queue_send-handlers}
use web_socket_demo.Session.{Send, flush_loop, flush_writes}
use web_socket_demo.Loop.{on_writable, tune_client_socket}

-- There is an object, and its handshake is done.
abbrev pub Shaken : Option Handler → Type 0
Shaken none = ⊥
Shaken (some h) = h.status ≡ handsharked

-- Nothing waits for a peer whose handshake is not done.
abbrev pub SilentAt : Option Handler → Type 0
SilentAt none = Unit
SilentAt (some h) = h.status ≡ unconnect → h.write_buf ≡ []

abbrev pub Silent : Network → Type 0
Silent n = (fd : ℕ) → SilentAt (n.handlers fd)

-- Where nothing was left to send, nothing is.
flush_loop-empty :
    (sends : List Send) (h : Handler) → h.write_buf ≡ [] → (flush_loop sends h.write_buf).0 ≡ []
unfolding flush_loop
flush_loop-empty sends h e = rw e refl

-- A handshake that is not done was not done before.
not_undone :
    (h h' : Handler)
    → (h.status ≡ handsharked → h'.status ≡ handsharked)
    → h'.status ≡ unconnect
    → h.status ≡ unconnect
not_undone h h' s u = ground arith

pub queue_send-Silent :
    (n : Network) (fd : ℕ) (text : Bytes) (h : Handler)
    → n.handlers fd ≡ some h
    → h.status ≡ handsharked
    → Silent n
    → Silent (queue_send n fd text)
queue_send-Silent n fd text h e s v i = ground (arith, queue_send-handlers n fd text i, v i)

pub queue_close-Silent : (n : Network) (fd : ℕ) → Silent n → Silent (queue_close n fd)
unfolding queue_close
queue_close-Silent n fd v i = ground (arith, v i)

pub put-Silent :
    (n : Network) (fd : ℕ) (h h' : Handler)
    → n.handlers fd ≡ some h
    → h'.write_buf ≡ h.write_buf
    → (h.status ≡ handsharked → h'.status ≡ handsharked)
    → Silent n
    → Silent (put n fd h')
put-Silent n fd h h' e w s v i = ground (arith, not_undone h h' s, v fd, v i)

pub on_writable-Silent :
    (n : Network) (fd : ℕ) (sends : List Send) → Silent n → Silent (on_writable n fd sends)
unfolding on_writable flush_writes queue_close update_handler_events
on_writable-Silent n fd sends v i = elim (Option-cases (n.handlers fd)) [
  | inl e ↦ ground (arith, v i)
  | inr (h, e) ↦ ground (arith, v i, flush_loop-empty sends h)
]

pub broadcast-Silent :
    (n m : Network) (fd : ℕ) (text : Bytes)
    → IsBroadcast n m fd text
    → ((i : ℕ) → contains i n.ws_clients ≡ true → Shaken (n.handlers i))
    → Silent n
    → Silent m
broadcast-Silent n m fd text b s v i = ground (arith, b.delivered i, s i, v i)

pub register_ws_client-Silent : (n : Network) (fd : ℕ) → Silent n → Silent (register_ws_client n fd)
unfolding register_ws_client
register_ws_client-Silent n fd v i = ground (arith, v i)

pub added-Silent :
    (n : Network) (fd : ℕ) → Silent n → Silent (ctl_event (tune_client_socket n fd) fd true)
unfolding ctl_event ctl_event_add
added-Silent n fd v i = ground (arith, v i)
