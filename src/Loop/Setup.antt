-- ===== src/Loop/Setup.antt =====
-- `init`, `tune_listen_socket` and `get_share_network_interface` of src/websocket_master/network_interface.cpp: the
-- calls before the loop. The limits that `raise_nofile_limit_early` sets are in Startup.
use web_socket_demo.Prelude.{
  ℕ, ◌≡◌, refl, Bool, not, ◌&&◌, List, [], ◌∷◌, Option, none, some, if◌then◌else◌, if-elim, ◌⊎◌,
  inl, inr,
}
use web_socket_demo.Network.{Network}
use web_socket_demo.Loop.{init}

-- What the kernel answers, in the order of the calls; none for a descriptor is -1.
pub record SetupKernel : Type 0 where
  pub socket : Option ℕ
  pub reuse_addr : Bool
  pub reuse_port : Bool
  pub bind : Bool
  pub listen : Bool
  pub epoll_create1 : Option ℕ
  pub epoll_create : Option ℕ

abbrev pub tune_listen_socket : SetupKernel → Bool
tune_listen_socket k = k.reuse_addr && k.reuse_port

-- The descriptors that are open at the return, and the state where it returns 0.
pub record SetUp : Type 0 where
  pub descriptors : List ℕ
  pub network : Option Network

abbrev pub none_open : SetUp
none_open = record { descriptors = []; network = none }

abbrev pub watched : ℕ → ℕ → SetUp
watched listenfd epollfd = record {
  descriptors = listenfd ∷ epollfd ∷ [];
  network = some (init listenfd);
}

-- With the two ways to make the epoll descriptor. The listening socket is closed where both fail.
unfoldable pub watching : ℕ → Option ℕ → Option ℕ → SetUp
watching listenfd (some epollfd) other = watched listenfd epollfd
watching listenfd none (some epollfd) = watched listenfd epollfd
watching listenfd none none = none_open

unfoldable pub listening : SetupKernel → ℕ → SetUp
listening k listenfd =
    if not (tune_listen_socket k)
    then none_open
    else if not k.bind
    then none_open
    else if not k.listen
    then none_open
    else watching listenfd k.epoll_create1 k.epoll_create

unfoldable pub set_up : SetupKernel → SetUp
set_up k = elim k.socket [ none ↦ none_open | some listenfd ↦ listening k listenfd ]

-- The one object of the process, made at the first call.
abbrev pub get_share_network_interface : Network → Option Network → Network
get_share_network_interface fresh none = fresh
get_share_network_interface fresh (some shared) = shared

-- The state is there with the two descriptors open, or it is not and none is open.
abbrev pub IsWhole : SetUp → Type 0
IsWhole s = (s ≡ none_open) ⊎ ((listenfd : ℕ) × (epollfd : ℕ) × (s ≡ watched listenfd epollfd))

-- Whatever the kernel answers, `init` leaves no descriptor open where it fails; where it returns 0 the
-- listening socket and the epoll descriptor are open, and the listening socket is watched.
pub set_up-IsWhole : (k : SetupKernel) → IsWhole (set_up k)
unfolding set_up listening
set_up-IsWhole k = opened k.socket
  where
    watching-IsWhole : (listenfd : ℕ) (e f : Option ℕ) → IsWhole (watching listenfd e f)
    watching-IsWhole listenfd (some e) f = unfold watching in inr (listenfd, e, refl)
    watching-IsWhole listenfd none (some f) = unfold watching in inr (listenfd, f, refl)
    watching-IsWhole listenfd none none = unfold watching in inl refl

    opened :
        (o : Option ℕ)
        → IsWhole
            (elim o as (λ _. SetUp) [ none ↦ none_open | some listenfd ↦ listening k listenfd ])
    opened none = inl refl
    opened (some listenfd) =
        if-elim IsWhole (not (tune_listen_socket k)) (λ _. inl refl)
          (λ _.
            if-elim IsWhole (not k.bind) (λ _. inl refl)
              (λ _.
                if-elim IsWhole (not k.listen) (λ _. inl refl)
                  (λ _. watching-IsWhole listenfd k.epoll_create1 k.epoll_create)))
