-- ===== src/Network/Close.antt =====
-- On `process_close_queue` of src/websocket_master/network_interface.cpp: the connections queued in a round.
use web_socket_demo.Prelude.{
  ℕ, ◌+◌, ◌≡◌, refl, ◌∙◌, arith, Bool, true, false, not, ◌&&◌, ◌||◌, List, [], ◌∷◌, none, some,
  Option, ◌==◌, if◌then◌else◌,
}
use web_socket_demo.Handler.{Handler}
use web_socket_demo.Network.{
  Effect, epoll_add, epoll_mod, epoll_del, set_noblock, set_client_options, close, Network,
  contains, set_erase, unregister_ws_client, ctl_event, ctl_event_del, insert_sorted, sort, unique,
  close_all, close_queued, process_close_queue,
}
use web_socket_demo.Network.Sets.{contains-set_erase}

-- How often a descriptor was closed.
abbrev pub closes : ℕ → List Effect → ℕ
closes fd [] = 0
closes fd (close i ∷ es) = (if i == fd then 1 else 0) + closes fd es
closes fd (epoll_add i m ∷ es) = closes fd es
closes fd (epoll_mod i m ∷ es) = closes fd es
closes fd (epoll_del i ∷ es) = closes fd es
closes fd (set_noblock i ∷ es) = closes fd es
closes fd (set_client_options i ∷ es) = closes fd es

abbrev pub is_some : Option Handler → Bool
is_some none = false
is_some (some h) = true

contains-insert_sorted :
    (i x : ℕ) (xs : List ℕ) → contains i (insert_sorted x xs) ≡ (x == i || contains i xs)
unfolding insert_sorted contains
contains-insert_sorted i x [] = refl
contains-insert_sorted i x (y ∷ ys) = ground (arith, contains-insert_sorted i x ys)

contains-sort : (i : ℕ) (xs : List ℕ) → contains i (sort xs) ≡ contains i xs
unfolding sort contains
contains-sort i [] = refl
contains-sort i (x ∷ xs) = ground (arith, contains-insert_sorted i x (sort xs), contains-sort i xs)

contains-unique : (i : ℕ) (xs : List ℕ) → contains i (unique xs) ≡ contains i xs
unfolding unique contains
contains-unique i [] = refl
contains-unique i (x ∷ []) = refl
contains-unique i (x ∷ y ∷ ys) = ground (arith, contains-unique i (y ∷ ys))

-- `m` is `n` with the connections among `fds` closed.
pub record IsClosed (n m : Network) (fds : List ℕ) : Type 0 where
  pub gone : (fd : ℕ) → m.handlers fd ≡ (if contains fd fds then none else n.handlers fd)
  pub unregistered :
      (fd : ℕ)
      → contains fd m.ws_clients
        ≡ (contains fd n.ws_clients && not (contains fd fds && is_some (n.handlers fd)))
  pub once :
      (fd : ℕ)
      → closes fd m.effects
        ≡ (if contains fd fds && is_some (n.handlers fd) then 1 else 0) + closes fd n.effects

-- One round of the loop.
abbrev close_one : ℕ → Network → Network
close_one fd n = elim (n.handlers fd) [ none ↦ n | some h ↦ ctl_event n fd false ]

close_one-IsClosed : (fd : ℕ) (n : Network) → IsClosed n (close_one fd n) (fd ∷ [])
unfolding ctl_event ctl_event_del unregister_ws_client contains
close_one-IsClosed fd n = record {
  gone = λ i. ground arith;
  unregistered = λ i. ground (
    arith,
    contains-set_erase i fd n.ws_clients,
    contains-set_erase i fd (set_erase fd n.ws_clients),
  );
  once = λ i. ground arith;
}

close_all-IsClosed : (fds : List ℕ) (n : Network) → IsClosed n (close_all fds n) fds
unfolding close_all contains
close_all-IsClosed [] n = record {
  gone = λ i. refl;
  unregistered = λ i. ground arith;
  once = λ i. omega arith;
}
close_all-IsClosed (fd ∷ fds) n =
    let first = close_one-IsClosed fd n in
    let rest = close_all-IsClosed fds (close_one fd n) in
    record {
      gone = λ i. ground (arith, first.gone i, rest.gone i);
      unregistered = λ i. ground (arith, first.gone i, first.unregistered i, rest.unregistered i);
      once = λ i. ground (arith, first.gone i, first.once i, rest.once i);
    }

IsClosed-same :
    (n m : Network) (fds gds : List ℕ)
    → ((i : ℕ) → contains i fds ≡ contains i gds)
    → IsClosed n m fds
    → IsClosed n m gds
IsClosed-same n m fds gds e c = record {
  gone = λ i. ground (arith, e i, c.gone i);
  unregistered = λ i. ground (arith, e i, c.unregistered i);
  once = λ i. ground (arith, e i, c.once i);
}

close_queued-IsClosed :
    (n : Network) (fds : List ℕ)
    → n.pending_closes ≡ fds
    → IsClosed n (close_queued n fds) fds × ((close_queued n fds).pending_closes ≡ [])
unfolding close_queued
close_queued-IsClosed n [] e = (unfold close_all in close_all-IsClosed [] n, e)
close_queued-IsClosed n (x ∷ xs) e =
    let fds : List ℕ = unique (sort (x ∷ xs)) in
    let c : IsClosed n (close_all fds n) (x ∷ xs) =
      IsClosed-same n (close_all fds n) fds (x ∷ xs)
        (λ i. contains-unique i (sort (x ∷ xs)) ∙ contains-sort i (x ∷ xs))
        (close_all-IsClosed fds n) in
    (record { gone = c.gone; unregistered = c.unregistered; once = c.once }, refl)

-- Afterwards nothing is queued. Each queued descriptor that had an object has none, is not
-- registered, and has been closed exactly once, however often it was queued. All other objects,
-- registrations and closes are as they were.
pub process_close_queue-IsClosed :
    (n : Network)
    → IsClosed n (process_close_queue n) n.pending_closes
      × ((process_close_queue n).pending_closes ≡ [])
unfolding process_close_queue
process_close_queue-IsClosed n = close_queued-IsClosed n n.pending_closes refl
