-- ===== src/Loop/Registered.antt =====
-- On `ws_clients_` (src/websocket_master/network_interface.cpp): who takes part in broadcasts.
use web_socket_demo.Prelude.{
  ℕ, ◌≡◌, refl, sym, ap, ◌∙◌, arith, true, false, List, none, some, Bytes, Bool-cases, Option-cases,
  inl, inr, is_negative,
}
use web_socket_demo.Protocol.{handsharked}
use web_socket_demo.Handler.{Handler, Env, nonempty}
use web_socket_demo.Network.{
  Network, put, contains, set_erase, update_handler_events, register_ws_client,
  unregister_ws_client, queue_close, append_outgoing, queue_send, broadcast_ws_binary, ctl_event,
  ctl_event_add, ctl_event_del,
}
use web_socket_demo.Network.Broadcast.{Distinct, broadcast_ws_binary-IsBroadcast}
use web_socket_demo.Network.Sets.{
  contains-set_insert, contains-set_erase, Distinct-set_insert, Distinct-set_erase,
}
use web_socket_demo.Session.{Send, flush_writes}
use web_socket_demo.Loop.Edits.{Closed}
use web_socket_demo.Loop.Closed.{Reach-closed}
use web_socket_demo.Network.Send.{queue_send-handlers}
use web_socket_demo.Loop.Steps.{Reach}
use web_socket_demo.Loop.Silent.{
  Shaken, Silent, queue_send-Silent, queue_close-Silent, put-Silent, on_writable-Silent,
  broadcast-Silent, register_ws_client-Silent, added-Silent,
}
use web_socket_demo.Loop.{on_writable, init, tune_client_socket}

pub record ClientsInv (n : Network) : Type 0 where
  pub distinct : Distinct n.ws_clients
  pub shaken : (fd : ℕ) → contains fd n.ws_clients ≡ true → Shaken (n.handlers fd)
  pub not_listening : contains n.listenfd n.ws_clients ≡ false
  pub not_negative : (fd : ℕ) → contains fd n.ws_clients ≡ true → is_negative fd ≡ false
  pub silent : Silent n

-- The same set, and objects whose handshakes are not undone.
record Keeps (n m : Network) : Type 0 where
  same_clients : m.ws_clients ≡ n.ws_clients
  same_listenfd : m.listenfd ≡ n.listenfd
  stays :
      (fd : ℕ) → contains fd n.ws_clients ≡ true → Shaken (n.handlers fd) → Shaken (m.handlers fd)

Keeps-ClientsInv : (n m : Network) → Keeps n m → Silent m → ClientsInv n → ClientsInv m
Keeps-ClientsInv n m k silent v = record {
  silent = silent;
  distinct = rw k.same_clients v.distinct;
  shaken = λ fd e.
      let e' : contains fd n.ws_clients ≡ true = ap (contains fd) (sym k.same_clients) ∙ e in
      k.stays fd e' (v.shaken fd e');
  not_listening = rw (k.same_clients, k.same_listenfd) v.not_listening;
  not_negative = λ fd e. v.not_negative fd (ap (contains fd) (sym k.same_clients) ∙ e);
}

queue_close-Keeps : (n : Network) (fd : ℕ) → Keeps n (queue_close n fd)
unfolding queue_close
queue_close-Keeps n fd = record {
  same_clients = ground arith;
  same_listenfd = ground arith;
  stays = λ i e s. ground arith;
}

put-Keeps :
    (n : Network) (fd : ℕ) (h h' : Handler)
    → n.handlers fd ≡ some h
    → (h.status ≡ handsharked → h'.status ≡ handsharked)
    → Keeps n (put n fd h')
put-Keeps n fd h h' e s = record {
  same_clients = refl;
  same_listenfd = refl;
  stays = λ i c t. ground arith;
}

queue_send-Keeps : (n : Network) (fd : ℕ) (text : Bytes) → Keeps n (queue_send n fd text)
queue_send-Keeps n fd text = record {
  same_clients = unfold append_outgoing update_handler_events queue_close in ground arith;
  same_listenfd = unfold append_outgoing update_handler_events queue_close in ground arith;
  stays = λ i c t. ground (arith, queue_send-handlers n fd text i);
}

on_writable-Keeps : (n : Network) (fd : ℕ) (sends : List Send) → Keeps n (on_writable n fd sends)
unfolding on_writable flush_writes queue_close update_handler_events
on_writable-Keeps n fd sends = record {
  same_clients = ground arith;
  same_listenfd = ground arith;
  stays = λ i c t. ground arith;
}

broadcast-ClientsInv :
    (n : Network) (fd : ℕ) (text : Bytes)
    → ClientsInv n
    → ClientsInv (broadcast_ws_binary n fd text)
broadcast-ClientsInv n fd text v = elim (Bool-cases (nonempty text)) [
  | inl e ↦
      let b = broadcast_ws_binary-IsBroadcast n fd text e v.distinct in
      let quiet : Silent (broadcast_ws_binary n fd text) =
        broadcast-Silent n (broadcast_ws_binary n fd text) fd text b v.shaken v.silent in
      Keeps-ClientsInv n _
        (record {
          same_clients = b.same_clients;
          same_listenfd = b.same_listenfd;
          stays = λ i c t. ground (arith, b.delivered i);
        })
        quiet v
  | inr e ↦ unfold broadcast_ws_binary in rw e v
]

register_ws_client-ClientsInv :
    (n : Network) (fd : ℕ) (h : Handler)
    → n.handlers fd ≡ some h
    → h.status ≡ handsharked
    → ClientsInv n
    → ClientsInv (register_ws_client n fd)
unfolding register_ws_client
register_ws_client-ClientsInv n fd h e s v = record {
  silent = register_ws_client-Silent n fd v.silent;
  distinct = ground (arith, v.distinct, Distinct-set_insert fd n.ws_clients v.distinct);
  shaken = λ i c. ground (arith, v.shaken i, contains-set_insert i fd n.ws_clients);
  not_listening = ground (arith, v.not_listening, contains-set_insert n.listenfd fd n.ws_clients);
  not_negative = λ i c. ground (arith, v.not_negative i, contains-set_insert i fd n.ws_clients);
}

added-ClientsInv :
    (n : Network) (fd : ℕ)
    → n.handlers fd ≡ none
    → ClientsInv n
    → ClientsInv (ctl_event (tune_client_socket n fd) fd true)
unfolding ctl_event ctl_event_add
added-ClientsInv n fd e v = record {
  silent = added-Silent n fd v.silent;
  distinct = v.distinct;
  shaken = λ i c. ground (arith, v.shaken i c);
  not_listening = v.not_listening;
  not_negative = v.not_negative;
}

deleted-ClientsInv : (n : Network) (fd : ℕ) → ClientsInv n → ClientsInv (ctl_event n fd false)
unfolding ctl_event ctl_event_del unregister_ws_client
deleted-ClientsInv n fd v = elim (Option-cases (n.handlers fd)) [
  | inl e ↦ rw (e, ctl_event_del) v
  | inr (h, e) ↦
      rw (e, ctl_event_del)
        (record {
          silent = λ i. ground (arith, v.silent i);
          distinct =
              Distinct-set_erase fd (set_erase fd n.ws_clients)
                (Distinct-set_erase fd n.ws_clients v.distinct);
          shaken = λ i c. ground (
            arith,
            v.shaken i,
            contains-set_erase i fd n.ws_clients,
            contains-set_erase i fd (set_erase fd n.ws_clients),
          );
          not_listening = ground (
            arith,
            v.not_listening,
            contains-set_erase n.listenfd fd n.ws_clients,
            contains-set_erase n.listenfd fd (set_erase fd n.ws_clients),
          );
          not_negative = λ i c. ground (
            arith,
            v.not_negative i,
            contains-set_erase i fd n.ws_clients,
            contains-set_erase i fd (set_erase fd n.ws_clients),
          );
        })
]

ClientsInv-closed : Closed ClientsInv
ClientsInv-closed = record {
  on_queue_close =
      λ n fd v. Keeps-ClientsInv n _ (queue_close-Keeps n fd) (queue_close-Silent n fd v.silent) v;
  on_edit = λ n fd h h' e edit v.
      Keeps-ClientsInv n _ (put-Keeps n fd h h' e edit.stays_shaken)
        (put-Silent n fd h h' e edit.same_write edit.stays_shaken v.silent) v;
  on_send = λ n fd text h e s v.
      Keeps-ClientsInv n _ (queue_send-Keeps n fd text) (queue_send-Silent n fd text h e s v.silent)
        v;
  on_broadcast = broadcast-ClientsInv;
  on_register = register_ws_client-ClientsInv;
  on_flush = λ n fd sends v.
      Keeps-ClientsInv n _ (on_writable-Keeps n fd sends) (on_writable-Silent n fd sends v.silent)
        v;
  on_add = added-ClientsInv;
  on_del = deleted-ClientsInv;
  on_clear = λ n v. record {
    silent = v.silent;
    distinct = v.distinct;
    shaken = v.shaken;
    not_listening = v.not_listening;
    not_negative = v.not_negative;
  };
}

-- In every reachable state the registered clients are distinct, each has an object whose handshake
-- is done, none is the listening socket or negative, and no byte waits for a connection whose
-- handshake is not done.
pub Reach-ClientsInv :
    (env : Env) (listenfd : ℕ) (n : Network) → Reach env listenfd n → ClientsInv n
unfolding init ctl_event ctl_event_add contains
Reach-ClientsInv env listenfd n r =
    Reach-closed ClientsInv ClientsInv-closed env
      (record {
        distinct = tt;
        silent = λ fd. ground arith;
        shaken = λ fd e. cc;
        not_listening = refl;
        not_negative = λ fd e. cc;
      })
      r
