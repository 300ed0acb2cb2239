-- ===== src/Loop/Turns.antt =====
-- On `epoll_loop` (src/websocket_master/network_interface.cpp): a connection over rounds in which the kernel says
-- that descriptors are writable.
use web_socket_demo.Prelude.{
  ℕ, ◌+◌, ◌≤◌, ◌≡◌, ◌≢◌, refl, ap, ◌∙◌, arith, Bool, true, false, List, [], ◌∷◌, some, ◌==◌, drop,
  take, take-append-drop, append_assoc, ◌++◌, Bytes, map, if◌then◌else◌, ==_iff, Bool-cases, inl,
  inr,
}
use web_socket_demo.Handler.{Handler, Env}
use web_socket_demo.Network.{
  Network, contains, update_handler_events, register_ws_client, unregister_ws_client, queue_close,
  append_outgoing, ctl_event, ctl_event_add, ctl_event_del, process_close_queue,
}
use web_socket_demo.Network.Broadcast.{contains-append}
use web_socket_demo.Network.Close.{process_close_queue-IsClosed}
use web_socket_demo.Session.{on_object, Send, flush_writes}
use web_socket_demo.Session.Listening.{broadcast-listenfd}
use web_socket_demo.Session.Flush.{taken, breaks, flush_writes-drop}
use web_socket_demo.Loop.{
  Event, on_writable, handle_event, handle_events, accept_loop, round, epoll_loop, init,
}
use web_socket_demo.Loop.Edits.{Closed}
use web_socket_demo.Loop.Closed.{Reach-closed}
use web_socket_demo.Loop.Steps.{Reach, run-Reach}

-- The kernel says that a descriptor is writable, and these are the answers to the calls of send.
pub record Turn : Type 0 where
  pub fd : ℕ
  pub sends : List Send

abbrev pub writable_event : Turn → Event
writable_event t = record {
  fd = t.fd;
  err_or_hup = false;
  readable = false;
  writable = true;
  accepted = [];
  reads = [];
  sends = t.sends;
}

-- One event in each round.
abbrev pub turns : List Turn → List (List Event)
turns ts = map (λ t. writable_event t ∷ []) ts

-- At each turn of `i` the kernel takes a byte at least, and no call fails.
abbrev pub Takes : ℕ → List Turn → Type 0
Takes i [] = Unit {0}
Takes i (t ∷ ts) = (t.fd ≡ i → (1 ≤ taken t.sends) × (breaks t.sends ≡ false)) × Takes i ts

abbrev pub turns_of : ℕ → List Turn → ℕ
turns_of i [] = 0
turns_of i (t ∷ ts) = (if t.fd == i then 1 else 0) + turns_of i ts

-- What the kernel takes for the peer of `i` in a turn, and in these turns.
abbrev pub took : ℕ → Network → Turn → Bytes
took i n t =
    if t.fd == i then on_object (n.handlers i) [] (λ h. take (taken t.sends) h.write_buf) else []

abbrev pub sent_to : Env → ℕ → Network → List Turn → Bytes
sent_to env i n [] = []
sent_to env i n (t ∷ ts) = took i n t ++ sent_to env i (round env n (writable_event t ∷ [])) ts

-- The connection after these turns.
abbrev pub left : ℕ → List Turn → Handler → Handler
left i [] h = h
left i (t ∷ ts) h =
    left i ts (if t.fd == i then record h { write_buf = drop (taken t.sends) h.write_buf } else h)

-- The listening socket stays.
listenfd-closed : (fd : ℕ) → Closed (λ n. n.listenfd ≡ fd)
listenfd-closed fd = record {
  on_queue_close = λ n i e. unfold queue_close in ground arith;
  on_edit = λ n i h h' there edit e. e;
  on_send = λ n i text h there s e.
      unfold append_outgoing update_handler_events queue_close in ground arith;
  on_broadcast = λ n i text e. broadcast-listenfd n i text ∙ e;
  on_register = λ n i h there s e. unfold register_ws_client in ground arith;
  on_flush = λ n i sends e.
      unfold on_writable flush_writes queue_close update_handler_events in ground arith;
  on_add = λ n i new e. unfold ctl_event ctl_event_add in ground arith;
  on_del = λ n i e. unfold ctl_event ctl_event_del unregister_ws_client in ground arith;
  on_clear = λ n e. e;
}

-- A connection that is not queued for closing.
pub record IsOpen (i : ℕ) (n : Network) (h : Handler) : Type 0 where
  pub there : n.handlers i ≡ some h
  pub unqueued : contains i n.pending_closes ≡ false

pub process_close_queue-IsOpen :
    (i : ℕ) (n : Network) (h : Handler) → IsOpen i n h → IsOpen i (process_close_queue n) h
unfolding contains
process_close_queue-IsOpen i n h o =
    let (c, none_left) = process_close_queue-IsClosed n in
    record { there = ground (arith, c.gone i, o.there, o.unqueued); unqueued = rw none_left refl }

on_writable-IsOpen :
    (i : ℕ) (n : Network) (h : Handler) (sends : List Send)
    → breaks sends ≡ false
    → IsOpen i n h
    → IsOpen i (on_writable n i sends) (record h { write_buf = drop (taken sends) h.write_buf })
unfolding on_writable update_handler_events
on_writable-IsOpen i n h sends b o = record {
  there = ground (arith, flush_writes-drop n i h sends o.there, o.there);
  unqueued = ground (arith, flush_writes-drop n i h sends o.there, o.there, o.unqueued);
}

on_writable-other :
    (i fd : ℕ) (n : Network) (h : Handler) (sends : List Send)
    → (fd == i) ≡ false
    → IsOpen i n h
    → IsOpen i (on_writable n fd sends) h
unfolding on_writable update_handler_events flush_writes queue_close contains
on_writable-other i fd n h sends b o = record {
  there = ground (arith, o.there);
  unqueued = ground (arith, o.unqueued, contains-append i n.pending_closes (fd ∷ []));
}

pub turn-IsOpen :
    (env : Env) (i : ℕ) (t : Turn) (n : Network) (h : Handler)
    → i ≢ n.listenfd
    → (t.fd ≡ i → breaks t.sends ≡ false)
    → IsOpen i n h
    → IsOpen i (round env n (writable_event t ∷ [])) (left i (t ∷ []) h)
unfolding round handle_events handle_event accept_loop
turn-IsOpen env i t n h ne b o = elim (Bool-cases (t.fd == i)) [
  | inl e ↦
      let same : t.fd ≡ i = (==_iff _ _).0 e in
      let other : (i == n.listenfd) ≡ false = ground arith in
      rw (e, same, other)
        (process_close_queue-IsOpen i _ _ (on_writable-IsOpen i n h t.sends (b same) o))
  | inr e ↦ rw e (
      process_close_queue-IsOpen i _ h
        (either_way (t.fd == n.listenfd) (on_writable-other i t.fd n h t.sends e o)))
]
  where
    either_way : (c : Bool) {m : Network} → IsOpen i m h → IsOpen i (if c then n else m) h
    either_way true q = o
    either_way false q = q

pub Reach-listenfd :
    (env : Env) (listenfd : ℕ) (n : Network) → Reach env listenfd n → n.listenfd ≡ listenfd
unfolding init ctl_event ctl_event_add
Reach-listenfd env listenfd n r =
    Reach-closed (λ m. m.listenfd ≡ listenfd) (listenfd-closed listenfd) env refl r

-- What has been sent and what is left are what waited.
turn-sent :
    (i : ℕ) (t : Turn) (n : Network) (h : Handler)
    → n.handlers i ≡ some h
    → took i n t ++ (left i (t ∷ []) h).write_buf ≡ h.write_buf
turn-sent i t n h there = elim (Bool-cases (t.fd == i)) [
  | inl e ↦ rw (e, there) (take-append-drop (taken t.sends) h.write_buf)
  | inr e ↦ rw e refl
]

module _ (env : Env) (listenfd i : ℕ) (ne : i ≢ listenfd) where
  pub turns-IsOpen :
      (ts : List Turn) (n : Network) (h : Handler)
      → Reach env listenfd n
      → Takes i ts
      → IsOpen i n h
      → Reach env listenfd (epoll_loop env n (turns ts))
        × IsOpen i (epoll_loop env n (turns ts)) (left i ts h)
        × (sent_to env i n ts ++ (left i ts h).write_buf ≡ h.write_buf)
  unfolding epoll_loop
  turns-IsOpen [] n h r a o = (r, o, refl)
  turns-IsOpen (t ∷ ts) n h r a o =
      let stays : n.listenfd ≡ listenfd = Reach-listenfd env listenfd n r in
      let m : Network = round env n (writable_event t ∷ []) in
      let reached : Reach env listenfd m =
        run-Reach env listenfd ((writable_event t ∷ []) ∷ []) n ((λ _. tt, tt), tt) r in
      let (reach, opened, sent) =
        turns-IsOpen ts m (left i (t ∷ []) h) reached a.1
          (turn-IsOpen env i t n h (rw stays ne) (λ e. (a.0 e).1) o) in
      (
        reach,
        opened,
        append_assoc (took i n t) (sent_to env i m ts) (left i (t ∷ ts) h).write_buf
            ∙ ap (λ w. took i n t ++ w) sent
            ∙ turn-sent i t n h o.there,
      )
