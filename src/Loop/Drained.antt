-- ===== src/Loop/Drained.antt =====
-- On `epoll_loop` (src/websocket_master/network_interface.cpp): EPOLLOUT is watched until all that waits is sent.
use web_socket_demo.Prelude.{
  ℕ, ◌≤◌, ◌≡◌, ◌≢◌, ap, ◌∙◌, arith, false, List, [], ◌∷◌, none, some, Option, ◌==◌, append-nil,
  length, length-drop, drop, ==_iff, Bool-cases, inl, inr,
}
use web_socket_demo.Handler.{Handler, Env}
use web_socket_demo.Network.{Network, contains, epollin}
use web_socket_demo.Session.Flush.{taken}
use web_socket_demo.Loop.{epoll_loop}
use web_socket_demo.Loop.Steps.{Reach}
use web_socket_demo.Loop.Wakeup.{ArmedAt, Reach-Armed, interest}
use web_socket_demo.Loop.Turns.{
  Turn, Takes, turns, turns_of, left, sent_to, turns-IsOpen, Reach-listenfd,
}

-- What `ts` make of the connection `h` of `i` in `n`: all that waited is sent, and the kernel watches EPOLLIN only.
pub record IsDrained (env : Env) (n : Network) (i : ℕ) (h : Handler) (ts : List Turn) : Type 0 where
  pub sent : sent_to env i n ts ≡ h.write_buf
  pub emptied : (epoll_loop env n (turns ts)).handlers i ≡ some (record h { write_buf = [] })
  pub unqueued : contains i (epoll_loop env n (turns ts)).pending_closes ≡ false
  pub watched : interest i (epoll_loop env n (turns ts)).effects ≡ some epollin

left-empty :
    (i : ℕ) (ts : List Turn) (h : Handler)
    → Takes i ts
    → length h.write_buf ≤ turns_of i ts
    → left i ts h ≡ record h { write_buf = [] }
left-empty i [] h a b = ground arith
left-empty i (t ∷ ts) h a b = elim (Bool-cases (t.fd == i)) [
  | inl e ↦
      let takes : 1 ≤ taken t.sends = (a.0 ((==_iff _ _).0 e)).0 in
      let g : Handler = record h { write_buf = drop (taken t.sends) h.write_buf } in
      let fewer : length g.write_buf ≤ turns_of i ts =
        ground (arith, length-drop (taken t.sends) h.write_buf) in
      rw e (left-empty i ts g a.1 fewer)
  | inr e ↦ ground (arith, left-empty i ts h a.1)
]

no_output :
    (o : Option Handler) (mask : Option ℕ) (h : Handler)
    → o ≡ some (record h { write_buf = [] })
    → ArmedAt o mask
    → mask ≡ some epollin
no_output none mask h e a = ground arith
no_output (some g) mask h e a = ground arith

-- From any reachable state: a connection that is not queued for closing has as many turns, or more, as bytes wait for
-- it, in each of which the kernel takes one at least and no call fails. Then all of them have been sent.
pub epoll_loop-IsDrained :
    (env : Env) (listenfd i : ℕ) (n : Network) (h : Handler) (ts : List Turn)
    → Reach env listenfd n
    → i ≢ listenfd
    → n.handlers i ≡ some h
    → contains i n.pending_closes ≡ false
    → Takes i ts
    → length h.write_buf ≤ turns_of i ts
    → IsDrained env n i h ts
epoll_loop-IsDrained env listenfd i n h ts r ne there unqueued a b =
    let m = epoll_loop env n (turns ts) in
    let (reached, o, sent) =
      turns-IsOpen env listenfd i ne ts n h r a (record { there = there; unqueued = unqueued }) in
    let empty = left-empty i ts h a b in
    let at_i : m.handlers i ≡ some (record h { write_buf = [] }) = o.there ∙ ap some empty in
    let other : i ≢ m.listenfd = rw (Reach-listenfd env listenfd m reached) ne in
    record {
      sent = ground (arith, sent, empty, append-nil (sent_to env i n ts));
      emptied = at_i;
      unqueued = o.unqueued;
      watched =
          no_output (m.handlers i) (interest i m.effects) h at_i
            (Reach-Armed env listenfd m reached i other);
    }
