-- ===== src/TcpSocket/Descriptors.antt =====
-- On CTcpSocket (src/common/tcpSocket.cpp): the sockets that are made and closed.
use web_socket_demo.Prelude.{
  ℕ, ◌+◌, ◌≡◌, ◌≢◌, refl, arith, Bool, true, ◌==◌, List, [], ◌∷◌, Option, none, some, Bytes,
  if◌then◌else◌,
}
use web_socket_demo.TcpSocket.{
  Call, opened, shut_down, closed, TcpSocket, construct, init, connect, close_held, close_socket,
}

-- What a client does with an object; it makes a socket only where none is held.
pub data Uses : TcpSocket → Type 0 where
  constructed : (ip : Bytes) (port : ℕ) → Uses (construct ip port)
  inited :
      {s : TcpSocket} (fd : Option ℕ) (a b : Bool)
      → Uses s
      → s.socket ≡ none
      → Uses (init fd a b s).1
  connects :
      {s : TcpSocket} (fd : ℕ) (a b c : Bool)
      → Uses s
      → s.socket ≡ some fd
      → Uses (connect a b c s).1
  closes : {s : TcpSocket} → Uses s → Uses (close_socket s)

-- How often a socket was made under a descriptor, shut down, and closed.
abbrev pub made : ℕ → List Call → ℕ
made i [] = 0
made i (opened fd ∷ cs) = (if fd == i then 1 else 0) + made i cs
made i (shut_down fd ∷ cs) = made i cs
made i (closed fd ∷ cs) = made i cs

abbrev pub shut : ℕ → List Call → ℕ
shut i [] = 0
shut i (opened fd ∷ cs) = shut i cs
shut i (shut_down fd ∷ cs) = (if fd == i then 1 else 0) + shut i cs
shut i (closed fd ∷ cs) = shut i cs

abbrev pub ended : ℕ → List Call → ℕ
ended i [] = 0
ended i (opened fd ∷ cs) = ended i cs
ended i (shut_down fd ∷ cs) = ended i cs
ended i (closed fd ∷ cs) = (if fd == i then 1 else 0) + ended i cs

abbrev pub held : ℕ → Option ℕ → ℕ
held i none = 0
held i (some fd) = if fd == i then 1 else 0

-- Where it says that it is connected a socket is held. Under each descriptor, what was made is
-- closed or held, and what is closed was shut down.
pub record IsSound (s : TcpSocket) : Type 0 where
  pub connected_held : s.connected ≡ true → s.socket ≢ none
  pub kept : (i : ℕ) → made i s.calls ≡ ended i s.calls + held i s.socket
  pub shut_first : (i : ℕ) → shut i s.calls ≡ ended i s.calls

init-IsSound :
    (fd : Option ℕ) (a b : Bool) (s : TcpSocket)
    → s.socket ≡ none
    → IsSound s
    → IsSound (init fd a b s).1
unfolding init
init-IsSound none a b s e v = record {
  connected_held = ground (arith, v.connected_held);
  kept = λ i. ground (arith, v.kept i);
  shut_first = λ i. ground (arith, v.shut_first i);
}
init-IsSound (some fd) a b s e v = record {
  connected_held = ground (arith, v.connected_held);
  kept = λ i. ground (arith, v.kept i);
  shut_first = λ i. ground (arith, v.shut_first i);
}

connect-IsSound :
    (fd : ℕ) (a b c : Bool) (s : TcpSocket)
    → s.socket ≡ some fd
    → IsSound s
    → IsSound (connect a b c s).1
unfolding connect
connect-IsSound fd a b c s e v = record {
  connected_held = ground (arith, v.connected_held);
  kept = λ i. ground (arith, v.kept i);
  shut_first = λ i. ground (arith, v.shut_first i);
}

close_socket-IsSound : (s : TcpSocket) → IsSound s → IsSound (close_socket s)
unfolding close_socket close_held
close_socket-IsSound s v = record {
  connected_held = ground (arith, v.connected_held);
  kept = λ i. ground (arith, v.kept i);
  shut_first = λ i. ground (arith, v.shut_first i);
}

-- Whatever the kernel answers, and in whatever order an object is used, as long as `Init` is called
-- only without a socket and `Connect` only with one: an object that says it is connected holds a
-- socket; under each descriptor, the sockets that were made are as many as those closed, and one
-- more where it is the one that is held; and each was shut down as often as it was closed.
pub Uses-IsSound : (s : TcpSocket) → Uses s → IsSound s
Uses-IsSound s (constructed ip port) = record {
  connected_held = λ c. cc;
  kept = λ i. refl;
  shut_first = λ i. refl;
}
Uses-IsSound s (inited fd a b u e) = init-IsSound fd a b _ e (Uses-IsSound _ u)
Uses-IsSound s (connects fd a b c u e) = connect-IsSound fd a b c _ e (Uses-IsSound _ u)
Uses-IsSound s (closes u) = close_socket-IsSound _ (Uses-IsSound _ u)
