-- ===== src/Loop/Limits.antt =====
-- On the buffers of Websocket_Handler (src/websocket_master/websocket_handler.cpp): their limits.
use mathlib.Core.Option
use web_socket_demo.Prelude.{
  ℕ, zero, suc, ◌≤◌, ◌≡◌, refl, sym, ap, ◌∙◌, arith, Bool, true, false, not, ◌&&◌, List, [], ◌∷◌,
  none, some, Option, Bytes, ◌==◌, if◌then◌else◌, Bool-cases, Option-cases, inl, inr, length, drop,
  length-append, length-drop,
}
use web_socket_demo.Protocol.{ws_max_read_buffer, ws_max_write_buffer}
use web_socket_demo.Handler.{Handler, Env, nonempty}
use web_socket_demo.Network.{
  Network, update_handler_events, register_ws_client, unregister_ws_client, queue_close,
  broadcast_round, broadcast_loop, broadcast_ws_binary, ctl_event, ctl_event_add, ctl_event_del,
}
use web_socket_demo.Network.Send.{queue_send-handlers}
use web_socket_demo.Network.Broadcast.{
  deliver, broadcast_round-handlers, refresh_all-handlers, queue_close-handlers,
}
use web_socket_demo.Session.{Send, sent, full, failed, flush_loop, flush_writes}
use web_socket_demo.Loop.Edits.{Closed}
use web_socket_demo.Loop.Closed.{Reach-closed}
use web_socket_demo.Loop.Steps.{Reach}
use web_socket_demo.Loop.{on_writable, init}

-- A read buffer that `append_read` may have filled, and a write buffer that `append_outgoing` may have.
pub record IsWithin (h : Handler) : Type 0 where
  pub read_fits : length h.read_buf ≤ ws_max_read_buffer
  pub write_fits : length h.write_buf ≤ ws_max_write_buffer

abbrev pub AllWithin : Network → Type 0
AllWithin n = (fd : ℕ) (h : Handler) → n.handlers fd ≡ some h → IsWithin h

deliver-IsWithin : (text : Bytes) (h : Handler) → IsWithin h → IsWithin (deliver text h)
deliver-IsWithin text h w = ground (arith, length-append h.write_buf text)

delivered :
    (text : Bytes) (b : Bool) (o : Option Handler) (h : Handler)
    → ((k : Handler) → o ≡ some k → IsWithin k)
    → (if b then Option.map (deliver text) o else o) ≡ some h
    → IsWithin h
delivered text true none h w e = cc
delivered text true (some k) h w e =
    let same : deliver text k ≡ h = cc in rw (← same) (deliver-IsWithin text k (w k refl))
delivered text false o h w e = w h e

broadcast_loop-AllWithin :
    (except_fd : ℕ) (text : Bytes) (clients : List ℕ) (n : Network) (t : List ℕ)
    → nonempty text ≡ true
    → AllWithin n
    → AllWithin (broadcast_loop except_fd text clients n t).0
unfolding broadcast_loop
broadcast_loop-AllWithin except_fd text [] n t e w = w
broadcast_loop-AllWithin except_fd text (cfd ∷ rest) n t e w =
    let r = broadcast_round except_fd text cfd n t in
    broadcast_loop-AllWithin except_fd text rest r.0 r.1 e λ fd h there.
      delivered text (fd == cfd && not (fd == except_fd)) (n.handlers fd) h (w fd)
        (sym (broadcast_round-handlers except_fd text cfd n t fd e) ∙ there)

broadcast-AllWithin :
    (n : Network) (fd : ℕ) (text : Bytes) → AllWithin n → AllWithin (broadcast_ws_binary n fd text)
unfolding broadcast_ws_binary
broadcast-AllWithin n fd text w = elim (Bool-cases (nonempty text)) [
  | inl e ↦ rw e λ i h there.
      let r = broadcast_loop fd text n.ws_clients n [] in
      broadcast_loop-AllWithin fd text n.ws_clients n [] e w i h
        (sym (ap (λ f. f i) (refresh_all-handlers r.1 r.0)) ∙ there)
  | inr e ↦ rw e w
]

pub length-flush_loop :
    (sends : List Send) (buf : Bytes) → length (flush_loop sends buf).0 ≤ length buf
unfolding flush_loop
length-flush_loop sends [] = omega arith
length-flush_loop [] (x ∷ xs) = omega arith
length-flush_loop (sent zero ∷ rest) (x ∷ xs) = omega arith
length-flush_loop (sent (suc k) ∷ rest) (x ∷ xs) =
    omega (arith, length-flush_loop rest (drop k xs), length-drop k xs)
length-flush_loop (full ∷ rest) (x ∷ xs) = omega arith
length-flush_loop (failed ∷ rest) (x ∷ xs) = omega arith

on_writable-AllWithin :
    (n : Network) (fd : ℕ) (sends : List Send) → AllWithin n → AllWithin (on_writable n fd sends)
unfolding on_writable flush_writes queue_close update_handler_events
on_writable-AllWithin n fd sends w i h there = elim (Option-cases (n.handlers fd)) [
  | inl e ↦ ground (arith, w i h)
  | inr (k, e) ↦ ground (arith, w i h, w fd k, length-flush_loop sends k.write_buf)
]

register_ws_client-AllWithin :
    (n : Network) (fd : ℕ) → AllWithin n → AllWithin (register_ws_client n fd)
unfolding register_ws_client
register_ws_client-AllWithin n fd w i h there = ground (arith, w i h)

AllWithin-closed : Closed AllWithin
AllWithin-closed = record {
  on_queue_close =
      λ n fd w i h there. w i h (sym (ap (λ f. f i) (queue_close-handlers n fd)) ∙ there);
  on_edit = λ n fd h h' e edit w i k there. ground (arith, w fd h, w i k);
  on_send = λ n fd text g e s w i h there.
      delivered text (i == fd && nonempty text) (n.handlers i) h (w i)
        (sym (queue_send-handlers n fd text i) ∙ there);
  on_broadcast = broadcast-AllWithin;
  on_register = λ n fd h e s w. register_ws_client-AllWithin n fd w;
  on_flush = on_writable-AllWithin;
  on_add = λ n fd e w i h there. unfold ctl_event ctl_event_add in ground (arith, w i h);
  on_del = λ n fd w i h there.
      unfold ctl_event ctl_event_del unregister_ws_client in ground (arith, w i h);
  on_clear = λ n w. w;
}

-- In every reachable state, no connection's read buffer and write buffer are over their limits.
pub Reach-AllWithin :
    (env : Env) (listenfd : ℕ) (n : Network)
    → Reach env listenfd n
    → (fd : ℕ) (h : Handler) → n.handlers fd ≡ some h
    → IsWithin h
unfolding init ctl_event ctl_event_add
Reach-AllWithin env listenfd n r =
    Reach-closed AllWithin AllWithin-closed env (λ fd h e. ground arith) r
