-- ===== src/Network/Send.antt =====
-- On `queue_send` (src/websocket_master/websocket_handler.cpp): the objects and the set of clients after it.
use mathlib.Core.Option
use web_socket_demo.Prelude.{ℕ, ◌≡◌, ◌≢◌, arith, ◌&&◌, [], ◌∷◌, Bytes, ◌==◌, if◌then◌else◌}
use web_socket_demo.Handler.{nonempty}
use web_socket_demo.Network.{
  Network, contains, update_handler_events, queue_close, append_outgoing, queue_send,
}
use web_socket_demo.Network.Broadcast.{deliver, contains-append}

-- The bytes reach this object only, and only if they fit.
pub queue_send-handlers :
    (n : Network) (fd : ℕ) (text : Bytes) (i : ℕ)
    → (queue_send n fd text).handlers i ≡ (
        if i == fd && nonempty text then Option.map (deliver text) (n.handlers i) else n.handlers i)
unfolding append_outgoing update_handler_events queue_close
queue_send-handlers n fd text i = ground arith

pub queue_send-ws_clients :
    (n : Network) (fd : ℕ) (text : Bytes) → (queue_send n fd text).ws_clients ≡ n.ws_clients
unfolding append_outgoing update_handler_events queue_close
queue_send-ws_clients n fd text = ground arith

-- No other connection is queued for closing.
pub queue_send-closing :
    (n : Network) (fd : ℕ) (text : Bytes) (i : ℕ)
    → i ≢ fd
    → contains i (queue_send n fd text).pending_closes ≡ contains i n.pending_closes
unfolding append_outgoing update_handler_events queue_close contains
queue_send-closing n fd text i ne = ground (arith, contains-append i n.pending_closes (fd ∷ []))
