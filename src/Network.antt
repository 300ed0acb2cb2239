-- ===== src/Network.antt =====
-- src/websocket_master/network_interface.{h,cpp}: the process's shared Network_Interface. Its calls of
-- the kernel are recorded in `effects`, newest first. `ws_clients` lists the unordered set in the
-- order in which a loop would meet it. The methods of Websocket_Handler that append to the write
-- buffer stand here too, since they and the interface call each other.
pub mod Broadcast
pub mod Send
pub mod Sets
pub mod Close
use web_socket_demo.Prelude.{
  ℕ, ◌+◌, Bool, true, false, not, ◌&&◌, ◌||◌, List, [], ◌∷◌, ◌++◌, Option, none, some, Bytes,
  is_negative, int_le, ltb, ◌==◌, if◌then◌else◌, length,
}
use web_socket_demo.Protocol.{ws_max_write_buffer}
use web_socket_demo.Handler.{Handler, fresh, nonempty, write_pending}

-- Bits of an event mask.
abbrev pub epollin : ℕ
epollin = 1

abbrev pub epollout : ℕ
epollout = 4

pub data Effect : Type 0 where
  epoll_add epoll_mod : ℕ → ℕ → Effect
  epoll_del set_noblock set_client_options close : ℕ → Effect

pub record Network : Type 0 where
  pub listenfd : ℕ
  pub handlers : ℕ → Option Handler
  pub ws_clients : List ℕ
  pub pending_closes : List ℕ
  pub effects : List Effect

-- `websocket_handler_map_[fd] = h`, and a write to the fields of the object there.
abbrev pub put : Network → ℕ → Handler → Network
put n fd h = record n { handlers = λ i. if i == fd then some h else n.handlers i }

abbrev pub erase : Network → ℕ → Network
erase n fd = record n { handlers = λ i. if i == fd then none else n.handlers i }

abbrev pub emit : Network → Effect → Network
emit n e = record n { effects = e ∷ n.effects }

unfoldable pub contains : ℕ → List ℕ → Bool
contains x [] = false
contains x (y ∷ ys) = y == x || contains x ys

-- std::unordered_set's insert and erase.
unfoldable pub set_insert : ℕ → List ℕ → List ℕ
set_insert x xs = if contains x xs then xs else x ∷ xs

unfoldable pub set_erase : ℕ → List ℕ → List ℕ
set_erase x [] = []
set_erase x (y ∷ ys) = if y == x then set_erase x ys else y ∷ set_erase x ys

-- The mask that `update_handler_events` and `ctl_event` ask for.
abbrev pub mask_for : Handler → ℕ
mask_for h = if write_pending h then epollin + epollout else epollin

unfoldable pub update_handler_events : Network → ℕ → Network
update_handler_events n fd =
    if fd == n.listenfd
    then n
    else elim (n.handlers fd) [ none ↦ n | some h ↦ emit n (epoll_mod fd (mask_for h)) ]

abbrev pub is_listen_fd : Network → ℕ → Bool
is_listen_fd n fd = fd == n.listenfd

unfoldable pub register_ws_client : Network → ℕ → Network
register_ws_client n fd =
    if fd == n.listenfd || is_negative fd
    then n
    else record n { ws_clients = set_insert fd n.ws_clients }

unfoldable pub unregister_ws_client : Network → ℕ → Network
unregister_ws_client n fd = record n { ws_clients = set_erase fd n.ws_clients }

unfoldable pub queue_close : Network → ℕ → Network
queue_close n fd =
    if is_negative fd then n else record n { pending_closes = n.pending_closes ++ fd ∷ [] }

-- Websocket_Handler::append_outgoing on the object of `fd`.
unfoldable pub append_outgoing : Network → ℕ → Bytes → Bool → Network
append_outgoing n fd text update_epoll = elim (n.handlers fd) [
  | none ↦ n
  | some h ↦
      if not (nonempty text)
      then n
      else if ltb ws_max_write_buffer (length h.write_buf + length text)
      then queue_close n fd
      else (let n' = put n fd (record h { write_buf = h.write_buf ++ text }) in
          if update_epoll then update_handler_events n' fd else n')
]

abbrev pub queue_send : Network → ℕ → Bytes → Network
queue_send n fd text = append_outgoing n fd text true

-- `it->second->write_pending()`, false where there is no object.
abbrev pub pending_at : Network → ℕ → Bool
pending_at n fd = elim (n.handlers fd) [ none ↦ false | some h ↦ write_pending h ]

-- The body of the first loop: the interface, and the descriptors to refresh.
unfoldable pub broadcast_one : Bytes → ℕ → Network → List ℕ → Network × List ℕ
broadcast_one text cfd n to_refresh = elim (n.handlers cfd) [
  | none ↦ (n, to_refresh)
  | some h ↦
      let n' = append_outgoing n cfd text false in
      (
        n',
        if not (write_pending h) && pending_at n' cfd then to_refresh ++ cfd ∷ [] else to_refresh,
      )
]

unfoldable pub broadcast_round : ℕ → Bytes → ℕ → Network → List ℕ → Network × List ℕ
broadcast_round except_fd text cfd n to_refresh =
    if cfd == except_fd then (n, to_refresh) else broadcast_one text cfd n to_refresh

unfoldable pub broadcast_loop : ℕ → Bytes → List ℕ → Network → List ℕ → Network × List ℕ
broadcast_loop except_fd text [] n to_refresh = (n, to_refresh)
broadcast_loop except_fd text (cfd ∷ rest) n to_refresh =
    let (n', to_refresh') = broadcast_round except_fd text cfd n to_refresh in
    broadcast_loop except_fd text rest n' to_refresh'

unfoldable pub refresh_all : List ℕ → Network → Network
refresh_all [] n = n
refresh_all (fd ∷ rest) n = refresh_all rest (update_handler_events n fd)

unfoldable pub broadcast_ws_binary : Network → ℕ → Bytes → Network
broadcast_ws_binary n except_fd text =
    if not (nonempty text)
    then n
    else (let (n', to_refresh) = broadcast_loop except_fd text n.ws_clients n [] in
        refresh_all to_refresh n')

-- `ctl_event(fd, true)`: watch a descriptor and make its object.
unfoldable pub ctl_event_add : Network → ℕ → Network
ctl_event_add n fd = put (emit (emit n (epoll_add fd epollin)) (set_noblock fd)) fd fresh

-- `ctl_event(fd, false)`; the destructor unregisters once more.
unfoldable pub ctl_event_del : Network → ℕ → Network
ctl_event_del n fd = elim (n.handlers fd) [
  | none ↦ n
  | some h ↦
      let n1 = unregister_ws_client n fd in
      let n2 = emit (emit n1 (epoll_del fd)) (close fd) in erase (unregister_ws_client n2 fd) fd
]

unfoldable pub ctl_event : Network → ℕ → Bool → Network
ctl_event n fd true = ctl_event_add n fd
ctl_event n fd false = ctl_event_del n fd

-- std::sort over ints.
unfoldable pub insert_sorted : ℕ → List ℕ → List ℕ
insert_sorted x [] = x ∷ []
insert_sorted x (y ∷ ys) = if int_le x y then x ∷ y ∷ ys else y ∷ insert_sorted x ys

unfoldable pub sort : List ℕ → List ℕ
sort [] = []
sort (x ∷ xs) = insert_sorted x (sort xs)

-- std::unique and erase: of equal neighbours one stays.
unfoldable pub unique : List ℕ → List ℕ
unique [] = []
unique (x ∷ []) = x ∷ []
unique (x ∷ y ∷ ys) = let rest = unique (y ∷ ys) in if x == y then rest else x ∷ rest

unfoldable pub close_all : List ℕ → Network → Network
close_all [] n = n
close_all (fd ∷ rest) n =
    close_all rest (elim (n.handlers fd) [ none ↦ n | some h ↦ ctl_event n fd false ])

-- On the vector of queued descriptors.
unfoldable pub close_queued : Network → List ℕ → Network
close_queued n [] = n
close_queued n (fd ∷ fds) = record (close_all (unique (sort (fd ∷ fds))) n) { pending_closes = [] }

unfoldable pub process_close_queue : Network → Network
process_close_queue n = close_queued n n.pending_closes
