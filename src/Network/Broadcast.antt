-- ===== src/Network/Broadcast.antt =====
-- On `broadcast_ws_binary` (src/websocket_master/network_interface.cpp): what each connection gets.
use mathlib.Core.Option
use web_socket_demo.Prelude.{
  ℕ, ◌+◌, ◌≡◌, refl, ap, ◌∙◌, arith, Bool, true, false, not, ◌&&◌, ◌||◌, List, [], ◌∷◌, ◌++◌,
  Option, none, some, Bytes, ltb, ◌==◌, is_negative, if◌then◌else◌, length,
}
use web_socket_demo.Protocol.{ws_max_write_buffer}
use web_socket_demo.Handler.{Handler, nonempty}
use web_socket_demo.Network.{
  Network, contains, update_handler_events, queue_close, append_outgoing, broadcast_one,
  broadcast_round, broadcast_loop, refresh_all, broadcast_ws_binary,
}

-- What one connection gets: the bytes, or nothing where they would not fit.
abbrev pub deliver : Bytes → Handler → Handler
deliver text h =
    if ltb ws_max_write_buffer (length h.write_buf + length text)
    then h
    else record h { write_buf = h.write_buf ++ text }

-- No element twice.
abbrev pub Distinct : List ℕ → Type 0
Distinct [] = Unit
Distinct (x ∷ xs) = (contains x xs ≡ false) × Distinct xs

pub update_handler_events-handlers :
    (n : Network) (fd : ℕ) → (update_handler_events n fd).handlers ≡ n.handlers
unfolding update_handler_events
update_handler_events-handlers n fd = ground arith

pub queue_close-handlers : (n : Network) (fd : ℕ) → (queue_close n fd).handlers ≡ n.handlers
unfolding queue_close
queue_close-handlers n fd = ground arith

pub refresh_all-handlers : (fds : List ℕ) (n : Network) → (refresh_all fds n).handlers ≡ n.handlers
unfolding refresh_all
refresh_all-handlers [] n = refl
refresh_all-handlers (fd ∷ fds) n =
    refresh_all-handlers fds (update_handler_events n fd) ∙ update_handler_events-handlers n fd

pub broadcast_one-handlers :
    (text : Bytes) (cfd : ℕ) (n : Network) (t : List ℕ) (fd : ℕ)
    → nonempty text ≡ true
    → (broadcast_one text cfd n t).0.handlers fd
      ≡ (if fd == cfd then Option.map (deliver text) (n.handlers fd) else n.handlers fd)
unfolding broadcast_one append_outgoing queue_close
broadcast_one-handlers text cfd n t fd h = ground arith

-- Among the clients and not the sender.
abbrev pub is_receiver : ℕ → List ℕ → ℕ → Bool
is_receiver except_fd clients fd = contains fd clients && not (fd == except_fd)

pub broadcast_round-handlers :
    (except_fd : ℕ) (text : Bytes) (cfd : ℕ) (n : Network) (t : List ℕ) (fd : ℕ)
    → nonempty text ≡ true
    → (broadcast_round except_fd text cfd n t).0.handlers fd ≡ (
        if fd == cfd && not (fd == except_fd)
        then Option.map (deliver text) (n.handlers fd)
        else n.handlers fd)
unfolding broadcast_round
broadcast_round-handlers except_fd text cfd n t fd h =
    ground (arith, broadcast_one-handlers text cfd n t fd h)

pub broadcast_loop-handlers :
    (except_fd : ℕ) (text : Bytes) (clients : List ℕ) (n : Network) (t : List ℕ) (fd : ℕ)
    → nonempty text ≡ true
    → Distinct clients
    → (broadcast_loop except_fd text clients n t).0.handlers fd ≡ (
        if is_receiver except_fd clients fd
        then Option.map (deliver text) (n.handlers fd)
        else n.handlers fd)
unfolding broadcast_loop contains
broadcast_loop-handlers except_fd text [] n t fd h d = refl
broadcast_loop-handlers except_fd text (cfd ∷ rest) n t fd h d =
    let r = broadcast_round except_fd text cfd n t in
    ground (
      arith,
      broadcast_loop-handlers except_fd text rest r.0 r.1 fd h d.1,
      broadcast_round-handlers except_fd text cfd n t fd h,
      d.0,
    )

pub contains-append :
    (x : ℕ) (xs ys : List ℕ) → contains x (xs ++ ys) ≡ (contains x xs || contains x ys)
unfolding contains
contains-append x [] ys = refl
contains-append x (y ∷ xs) ys = ground (arith, contains-append x xs ys)

-- The bytes would take a write buffer over its limit.
abbrev pub overflows : Bytes → Option Handler → Bool
overflows text none = false
overflows text (some h) = ltb ws_max_write_buffer (length h.write_buf + length text)

pub broadcast_round-closes :
    (except_fd : ℕ) (text : Bytes) (cfd : ℕ) (n : Network) (t : List ℕ) (fd : ℕ)
    → nonempty text ≡ true
    → contains fd (broadcast_round except_fd text cfd n t).0.pending_closes ≡ (
        contains fd n.pending_closes
        || (fd == cfd
            && not (fd == except_fd)
            && overflows text (n.handlers fd)
            && not (is_negative fd)))
unfolding broadcast_round broadcast_one append_outgoing queue_close contains
broadcast_round-closes except_fd text cfd n t fd h =
    ground (arith, contains-append fd n.pending_closes (cfd ∷ []))

pub broadcast_loop-closes :
    (except_fd : ℕ) (text : Bytes) (clients : List ℕ) (n : Network) (t : List ℕ) (fd : ℕ)
    → nonempty text ≡ true
    → Distinct clients
    → contains fd (broadcast_loop except_fd text clients n t).0.pending_closes ≡ (
        contains fd n.pending_closes
        || (is_receiver except_fd clients fd
            && overflows text (n.handlers fd)
            && not (is_negative fd)))
unfolding broadcast_loop contains
broadcast_loop-closes except_fd text [] n t fd h d = ground arith
broadcast_loop-closes except_fd text (cfd ∷ rest) n t fd h d =
    let r = broadcast_round except_fd text cfd n t in
    ground (
      arith,
      broadcast_loop-closes except_fd text rest r.0 r.1 fd h d.1,
      broadcast_round-closes except_fd text cfd n t fd h,
      broadcast_round-handlers except_fd text cfd n t fd h,
      d.0,
    )

-- The fields that no broadcast touches.
abbrev SameSets : Network → Network → Type 0
SameSets n m = (n.ws_clients ≡ m.ws_clients) × (n.listenfd ≡ m.listenfd)

pub update_handler_events-SameSets :
    (n : Network) (fd : ℕ)
    → SameSets (update_handler_events n fd) n
      × ((update_handler_events n fd).pending_closes ≡ n.pending_closes)
unfolding update_handler_events
update_handler_events-SameSets n fd = ground arith

pub refresh_all-SameSets :
    (fds : List ℕ) (n : Network)
    → SameSets (refresh_all fds n) n × ((refresh_all fds n).pending_closes ≡ n.pending_closes)
unfolding refresh_all
refresh_all-SameSets [] n = ((refl, refl), refl)
refresh_all-SameSets (fd ∷ fds) n = ground (
  arith,
  refresh_all-SameSets fds (update_handler_events n fd),
  update_handler_events-SameSets n fd,
)

pub broadcast_round-SameSets :
    (except_fd : ℕ) (text : Bytes) (cfd : ℕ) (n : Network) (t : List ℕ)
    → SameSets (broadcast_round except_fd text cfd n t).0 n
unfolding broadcast_round broadcast_one append_outgoing queue_close
broadcast_round-SameSets except_fd text cfd n t = ground arith

pub broadcast_loop-SameSets :
    (except_fd : ℕ) (text : Bytes) (clients : List ℕ) (n : Network) (t : List ℕ)
    → SameSets (broadcast_loop except_fd text clients n t).0 n
unfolding broadcast_loop
broadcast_loop-SameSets except_fd text [] n t = (refl, refl)
broadcast_loop-SameSets except_fd text (cfd ∷ rest) n t =
    let r = broadcast_round except_fd text cfd n t in
    ground (
      arith,
      broadcast_loop-SameSets except_fd text rest r.0 r.1,
      broadcast_round-SameSets except_fd text cfd n t,
    )

-- The network `m` is `n` after a broadcast.
pub record IsBroadcast (n m : Network) (except_fd : ℕ) (text : Bytes) : Type 0 where
  pub delivered :
      (fd : ℕ)
      → m.handlers fd ≡ (
          if is_receiver except_fd n.ws_clients fd
          then Option.map (deliver text) (n.handlers fd)
          else n.handlers fd)
  pub closing :
      (fd : ℕ)
      → contains fd m.pending_closes ≡ (
          contains fd n.pending_closes
          || (is_receiver except_fd n.ws_clients fd
              && overflows text (n.handlers fd)
              && not (is_negative fd)))
  pub same_clients : m.ws_clients ≡ n.ws_clients
  pub same_listenfd : m.listenfd ≡ n.listenfd

-- A broadcast of some bytes, where no client is registered twice, gives them once to every
-- registered connection but the sender, in whatever order the set is walked: they are appended to
-- its write buffer, or, where they would not fit, the buffer is left and the connection is queued
-- for closing. No other object changes, and the set of clients stays.
pub broadcast_ws_binary-IsBroadcast :
    (n : Network) (except_fd : ℕ) (text : Bytes)
    → nonempty text ≡ true
    → Distinct n.ws_clients
    → IsBroadcast n (broadcast_ws_binary n except_fd text) except_fd text
unfolding broadcast_ws_binary
broadcast_ws_binary-IsBroadcast n except_fd text h d = rw h (record {
  delivered = λ fd.
      ap (λ f. f fd) (refresh_all-handlers r.1 r.0)
      ∙ broadcast_loop-handlers except_fd text n.ws_clients n [] fd h d;
  closing =
      λ fd. ap (contains fd) same.1 ∙ broadcast_loop-closes except_fd text n.ws_clients n [] fd h d;
  same_clients = same.0.0 ∙ (broadcast_loop-SameSets except_fd text n.ws_clients n []).0;
  same_listenfd = same.0.1 ∙ (broadcast_loop-SameSets except_fd text n.ws_clients n []).1;
})
  where
    r : Network × List ℕ
    r = broadcast_loop except_fd text n.ws_clients n []

    same :
        SameSets (refresh_all r.1 r.0) r.0
        × ((refresh_all r.1 r.0).pending_closes ≡ r.0.pending_closes)
    same = refresh_all-SameSets r.1 r.0
