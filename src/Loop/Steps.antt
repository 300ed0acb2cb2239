-- ===== src/Loop/Steps.antt =====
-- The interface as a state machine: one step for each thing that the event loop does for the kernel. The
-- order of the steps is free, which covers every order in which the kernel reports events.
use web_socket_demo.Prelude.{
  ℕ, ◌≡◌, ◌≢◌, arith, Bool, true, false, List, [], ◌∷◌, none, ◌==◌, if◌then◌else◌, Bool-cases, inl,
  inr, ==_iff,
}
use web_socket_demo.Handler.{Env}
use web_socket_demo.Network.{Network, queue_close, ctl_event, process_close_queue}
use web_socket_demo.Session.{Send}
use web_socket_demo.Loop.{
  Read, Event, tune_client_socket, accept_loop, on_readable, on_writable, handle_event,
  handle_events, round, epoll_loop, init,
}

pub data Step (env : Env) (n : Network) : Network → Type 0 where
  -- `accept` gives a descriptor that is not open yet.
  accepted :
      (fd : ℕ) → n.handlers fd ≡ none → Step env n (ctl_event (tune_client_socket n fd) fd true)
  hung_up : (fd : ℕ) → Step env n (queue_close n fd)
  readable :
      (fd : ℕ) (reads : List Read) → fd ≢ n.listenfd → Step env n (on_readable env n fd reads)
  writable : (fd : ℕ) (sends : List Send) → fd ≢ n.listenfd → Step env n (on_writable n fd sends)
  closed : Step env n (process_close_queue n)

-- What can be reached from `init`.
pub data Reach (env : Env) (listenfd : ℕ) : Network → Type 0 where
  start : Reach env listenfd (init listenfd)
  next : {n m : Network} → Reach env listenfd n → Step env n m → Reach env listenfd m

-- What the kernel promises of a run: a descriptor that `accept` gives is not in use.
abbrev pub AcceptsNew : Network → List ℕ → Type 0
AcceptsNew n [] = Unit {0}
AcceptsNew n (fd ∷ rest) =
    (n.handlers fd ≡ none) × AcceptsNew (ctl_event (tune_client_socket n fd) fd true) rest

abbrev pub EventsOk : Env → Network → List Event → Type 0
EventsOk env n [] = Unit {0}
EventsOk env n (e ∷ es) =
    (e.fd ≡ n.listenfd → AcceptsNew n e.accepted) × EventsOk env (handle_event env n e) es

abbrev pub RunOk : Env → Network → List (List Event) → Type 0
RunOk env n [] = Unit {0}
RunOk env n (es ∷ rest) = EventsOk env n es × RunOk env (round env n es) rest

module _ (env : Env) (listenfd : ℕ) where
  accept_loop-Reach :
      (fds : List ℕ) (n : Network)
      → AcceptsNew n fds
      → Reach env listenfd n
      → Reach env listenfd (accept_loop fds n)
  unfolding accept_loop
  accept_loop-Reach [] n a r = r
  accept_loop-Reach (fd ∷ fds) n a r = accept_loop-Reach fds _ a.1 (next r (accepted fd a.0))

  handle_event-Reach :
      (n : Network) (e : Event)
      → (e.fd ≡ n.listenfd → AcceptsNew n e.accepted)
      → Reach env listenfd n
      → Reach env listenfd (handle_event env n e)
  unfolding handle_event
  handle_event-Reach n e a r = elim (Bool-cases (e.fd == n.listenfd)) [
    | inl same ↦ rw same (accept_loop-Reach e.accepted n (a ((==_iff _ _).0 same)) r)
    | inr other ↦ rw other (go e.err_or_hup e.readable e.writable (ne other))
  ]
    where
      ne : (e.fd == n.listenfd) ≡ false → e.fd ≢ n.listenfd
      ne other = ground arith

      go :
          (a b c : Bool)
          → e.fd ≢ n.listenfd
          → Reach env listenfd (
              if a
              then queue_close n e.fd
              else if b
              then on_readable env n e.fd e.reads
              else if c
              then on_writable n e.fd e.sends
              else n)
      go true b c d = next r (hung_up e.fd)
      go false true c d = next r (readable e.fd e.reads d)
      go false false true d = next r (writable e.fd e.sends d)
      go false false false d = r

  handle_events-Reach :
      (es : List Event) (n : Network)
      → EventsOk env n es
      → Reach env listenfd n
      → Reach env listenfd (handle_events env n es)
  unfolding handle_events
  handle_events-Reach [] n a r = r
  handle_events-Reach (e ∷ es) n a r =
      handle_events-Reach es (handle_event env n e) a.1 (handle_event-Reach n e a.0 r)

  pub run-Reach :
      (batches : List (List Event)) (n : Network)
      → RunOk env n batches
      → Reach env listenfd n
      → Reach env listenfd (epoll_loop env n batches)
  unfolding epoll_loop round
  run-Reach [] n a r = r
  run-Reach (es ∷ rest) n a r =
      run-Reach rest (round env n es) a.1 (next (handle_events-Reach es n a.0 r) closed)

-- The loop, started from `init`, ends in a state that the machine reaches, whatever events it is
-- given, if `accept` gives only descriptors that have no object.
epoll_loop-Reach :
    (env : Env) (listenfd : ℕ) (batches : List (List Event))
    → RunOk env (init listenfd) batches
    → Reach env listenfd (epoll_loop env (init listenfd) batches)
epoll_loop-Reach env listenfd batches ok = run-Reach env listenfd batches (init listenfd) ok start
